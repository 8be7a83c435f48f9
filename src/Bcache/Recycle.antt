-- ===== src/Bcache/Recycle.antt =====
-- kern/bio.c: `bget` gives a buffer that nobody holds to another block.
use openproninx.Base.{
  ℕ, ◌≡◌, ◌≢◌, inl, inr, refl, ap, ◌∙◌, sym, subst, true, false, not, ◌&&◌, Bool-cases, Option,
  none, some, List, [], ◌∷◌, arith, ◌==◌, if◌then◌else◌,
}
use mathlib.Core.Option.{some-injective}
use openproninx.Bcache.{Buf, Blocks, is_at, assign, change, buf_at, recycle}
use openproninx.Bcache.Ring.{
  IsAhead, IsCache, first, view, is_at_self, is_at_lem, IsAhead-view, first-none,
}
use openproninx.Bcache.Lookup.{IsAhead-slot}

-- A buffer that nobody holds was given to a block that was not in the ring.
pub record Recycled (d : Blocks) (dev blockno : ℕ) (ring : List Buf) (s : ℕ) (ring' : List Buf)
    : Type 0 where
  pub old : Buf
  pub place : buf_at s ring ≡ some old
  pub idle : old.refcnt ≡ 0
  pub clean : old.dirty ≡ false
  pub now : ring' ≡ change s (λ b. assign b dev blockno) ring
  pub is_cache : IsCache d ring'
  pub new_place : buf_at s ring' ≡ some (assign old dev blockno)
  pub new_first : first dev blockno ring' ≡ some (assign old dev blockno)
  pub same_view : (dev' blockno' : ℕ) → view ring' d dev' blockno' ≡ view ring d dev' blockno'

recycle-IsAhead :
    (c : Buf) (ring : List Buf) (dev blockno : ℕ) {s : ℕ} {ring' : List Buf}
    → recycle dev blockno ring ≡ some (s, ring')
    → IsAhead c ring
    → IsAhead c ring'
unfolding recycle
recycle-IsAhead c [] dev blockno h a = absurd (cc h)
recycle-IsAhead c (x ∷ ring) dev blockno {s} {ring'} h (ne, stale, a) =
    go (λ s1 r1 q. recycle-IsAhead c ring dev blockno q a) (recycle dev blockno ring) refl h
  where
    go :
        ((s1 : ℕ) (r1 : List Buf) → recycle dev blockno ring ≡ some (s1, r1) → IsAhead c r1)
        → (o : Option (ℕ × List Buf)) → recycle dev blockno ring ≡ o
        → (elim o as (λ _. Option (ℕ × List Buf)) [
          | some (s1, r1) ↦ some (s1, x ∷ r1)
          | none ↦
              if x.refcnt == 0 && not x.dirty
              then some (x.slot, assign x dev blockno ∷ ring)
              else none
        ])
          ≡ some (s, ring')
        → IsAhead c ring'
    go rec (some (s1, r1)) q g =
        let pair : (s1, x ∷ r1) ≡ (s, ring') = some-injective _ _ g in
        subst (λ (p : ℕ × List Buf). IsAhead c p.1) pair (ne, stale, rec s1 r1 q)
    go rec none q g = elim (Bool-cases (x.refcnt == 0 && not x.dirty)) [
      | inl e ↦
          let pair : (x.slot, assign x dev blockno ∷ ring) ≡ (s, ring') =
            some-injective _ _ (rw e at g) in
          subst (λ (p : ℕ × List Buf). IsAhead c p.1) pair (ne, (λ _. refl), a)
      | inr e ↦ absurd (cc (rw e at g))
    ]

-- The ring without a buffer for a block is behind a new one for it.
none-IsAhead :
    (x : Buf) (ring : List Buf) (dev blockno : ℕ)
    → first dev blockno ring ≡ none
    → IsAhead x ring
    → IsAhead (assign x dev blockno) ring
none-IsAhead x [] dev blockno h a = a
none-IsAhead x (c ∷ ring) dev blockno h (ne, _, a) = elim (Bool-cases (is_at c dev blockno)) [
  | inl e ↦ absurd (cc (rw e at h))
  | inr e ↦ (ne, (λ q. absurd (cc (sym e ∙ away q))), none-IsAhead x ring dev blockno (rw e at h) a)
]
  where
    away : is_at (assign x dev blockno) c.dev c.blockno ≡ true → is_at c dev blockno ≡ true
    away q =
        let (same_dev, same_no) = is_at_lem (assign x dev blockno) c.dev c.blockno q in
        rw (same_dev, same_no) (is_at_self c)

none-Recycled :
    (x : Buf) (ring : List Buf) (d : Blocks) (dev blockno : ℕ)
    → IsCache d (x ∷ ring)
    → first dev blockno (x ∷ ring) ≡ none
    → x.refcnt ≡ 0
    → x.dirty ≡ false
    → Recycled d dev blockno (x ∷ ring) x.slot (assign x dev blockno ∷ ring)
none-Recycled x ring d dev blockno (cl, a, i) h idle clean = record {
  old = x;
  place = rw self refl;
  idle = idle;
  clean = clean;
  now = rw self refl;
  is_cache = (
    record { copies = λ v _. absurd (cc v); dirty_valid = λ v. absurd (cc v) },
    none-IsAhead x ring dev blockno rest a,
    i,
  );
  new_place = rw self refl;
  new_first = rw (is_at_self (assign x dev blockno)) refl;
  same_view = same_view_at;
}
  where
    self : (x.slot == x.slot) ≡ true
    self = ground arith

    absent : is_at x dev blockno ≡ false
    absent = elim (Bool-cases (is_at x dev blockno)) [ inl e ↦ absurd (cc (rw e at h)) | inr e ↦ e ]

    rest : first dev blockno ring ≡ none
    rest = (rw absent at h)

    old_view : (dev' blockno' : ℕ) → view (x ∷ ring) d dev' blockno' ≡ view ring d dev' blockno'
    old_view dev' blockno' = elim (Bool-cases (is_at x dev' blockno')) [
      | inl e ↦
          let behind = IsAhead-view x ring d dev' blockno' a e in
          let (same_dev, same_no) = is_at_lem x dev' blockno' e in
          elim (Bool-cases x.valid) [
            | inl v ↦
                rw (e, v)
                  (cl.copies v clean
                    ∙ ap (λ k. d k x.blockno) same_dev
                    ∙ ap (λ k. d dev' k) same_no
                    ∙ sym behind)
            | inr v ↦ rw (e, v) (sym behind)
          ]
      | inr e ↦ rw e refl
    ]

    same_view_at :
        (dev' blockno' : ℕ)
        → view (assign x dev blockno ∷ ring) d dev' blockno' ≡ view (x ∷ ring) d dev' blockno'
    same_view_at dev' blockno' = elim (Bool-cases (is_at (assign x dev blockno) dev' blockno')) [
      | inl e ↦
          let (same_dev, same_no) = is_at_lem (assign x dev blockno) dev' blockno' e in
          rw e (
            sym (
              old_view dev' blockno'
              ∙ subst (λ k. view ring d k blockno' ≡ d k blockno') same_dev
                  (subst (λ k. view ring d dev k ≡ d dev k) same_no
                    (first-none ring d dev blockno rest))))
      | inr e ↦ rw e (sym (old_view dev' blockno'))
    ]

pub recycle-Recycled :
    (ring : List Buf) (d : Blocks) (dev blockno : ℕ) {s : ℕ} {ring' : List Buf}
    → IsCache d ring
    → first dev blockno ring ≡ none
    → recycle dev blockno ring ≡ some (s, ring')
    → Recycled d dev blockno ring s ring'
unfolding recycle
recycle-Recycled [] d dev blockno i f h = absurd (cc h)
recycle-Recycled (x ∷ ring) d dev blockno {s} {ring'} (cl, a, i) f h =
    go (λ s1 r1 q. recycle-Recycled ring d dev blockno i rest q) (recycle dev blockno ring) refl h
  where
    absent : is_at x dev blockno ≡ false
    absent = elim (Bool-cases (is_at x dev blockno)) [ inl e ↦ absurd (cc (rw e at f)) | inr e ↦ e ]

    rest : first dev blockno ring ≡ none
    rest = (rw absent at f)

    deeper :
        (s1 : ℕ) (r1 : List Buf)
        → recycle dev blockno ring ≡ some (s1, r1)
        → Recycled d dev blockno ring s1 r1
        → Recycled d dev blockno (x ∷ ring) s1 (x ∷ r1)
    deeper s1 r1 q r =
        let other : x.slot ≢ s1 = IsAhead-slot x ring s1 a r.place in
        let n : (x.slot == s1) ≡ false = ground arith in
        record {
          old = r.old;
          place = rw n r.place;
          idle = r.idle;
          clean = r.clean;
          now = ap (λ l. x ∷ l) r.now ∙ sym (rw n refl);
          is_cache = (cl, recycle-IsAhead x ring dev blockno q a, r.is_cache);
          new_place = rw n r.new_place;
          new_first = rw absent r.new_first;
          same_view = λ dev' blockno'. rw (r.same_view dev' blockno') refl;
        }

    go :
        ((s1 : ℕ) (r1 : List Buf)
          → recycle dev blockno ring ≡ some (s1, r1)
          → Recycled d dev blockno ring s1 r1)
        → (o : Option (ℕ × List Buf)) → recycle dev blockno ring ≡ o
        → (elim o as (λ _. Option (ℕ × List Buf)) [
          | some (s1, r1) ↦ some (s1, x ∷ r1)
          | none ↦
              if x.refcnt == 0 && not x.dirty
              then some (x.slot, assign x dev blockno ∷ ring)
              else none
        ])
          ≡ some (s, ring')
        → Recycled d dev blockno (x ∷ ring) s ring'
    go rec (some (s1, r1)) q g =
        let pair : (s1, x ∷ r1) ≡ (s, ring') = some-injective _ _ g in
        subst (λ (p : ℕ × List Buf). Recycled d dev blockno (x ∷ ring) p.0 p.1) pair
          (deeper s1 r1 q (rec s1 r1 q))
    go rec none q g = elim (Bool-cases (x.refcnt == 0)) [
      | inl e ↦ elim (Bool-cases x.dirty) [
        | inl z ↦ absurd (cc (rw (e, z) at g))
        | inr z ↦
            let pair : (x.slot, assign x dev blockno ∷ ring) ≡ (s, ring') =
              some-injective _ _ (rw (e, z) at g) in
            subst (λ (p : ℕ × List Buf). Recycled d dev blockno (x ∷ ring) p.0 p.1) pair
              (none-Recycled x ring d dev blockno (cl, a, i) f (ground arith) z)
      ]
      | inr e ↦ absurd (cc (rw e at g))
    ]
