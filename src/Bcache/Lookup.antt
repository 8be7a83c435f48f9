-- ===== src/Bcache/Lookup.antt =====
-- kern/bio.c: `bget` finds a block that is in the ring.
use openproninx.Base.{
  ℕ, ◌≡◌, ◌≢◌, inl, inr, refl, ap, ◌∙◌, sym, true, false, Bool-cases, Option, none, some, List, [],
  ◌∷◌, arith, ◌==◌, add32,
}
use mathlib.Core.Option.{some-injective}
use openproninx.Bcache.{Buf, Blocks, is_at, change, buf_at, find_cached}
use openproninx.Bcache.Ring.{IsAhead, IsCache, first}

-- The reference that `bget` takes.
abbrev pub counted : Buf → Buf
counted b = record b { refcnt = add32 b.refcnt 1 }

pub IsAhead-slot :
    (c : Buf) (ring : List Buf) (s : ℕ) {b : Buf}
    → IsAhead c ring
    → buf_at s ring ≡ some b
    → c.slot ≢ s
IsAhead-slot c [] s a h = absurd (cc h)
IsAhead-slot c (x ∷ ring) s (ne, _, a) h = elim (Bool-cases (x.slot == s)) [
  | inl e ↦ let place : x.slot ≡ s = ground arith in λ q. ne (q ∙ sym place)
  | inr e ↦ IsAhead-slot c ring s a (rw e at h)
]

pub record Found (dev blockno : ℕ) (ring : List Buf) (s : ℕ) (ring' : List Buf) : Type 0 where
  pub buf : Buf
  pub is_first : first dev blockno ring ≡ some buf
  pub place : buf_at s ring ≡ some buf
  pub now : ring' ≡ change s counted ring

pub find_cached-Found :
    (ring : List Buf) (d : Blocks) (dev blockno : ℕ) {s : ℕ} {ring' : List Buf}
    → IsCache d ring
    → find_cached dev blockno ring ≡ some (s, ring')
    → Found dev blockno ring s ring'
unfolding find_cached
find_cached-Found [] d dev blockno i h = absurd (cc h)
find_cached-Found (c ∷ ring) d dev blockno {s} {ring'} (_, a, i) h =
    elim (Bool-cases (is_at c dev blockno)) [
      | inl e ↦
          let pair : (c.slot, counted c ∷ ring) ≡ (s, ring') = some-injective _ _ (rw e at h) in
          let at : (c.slot == s) ≡ true =
            let same : c.slot ≡ s = ap (λ (p : ℕ × List Buf). p.0) pair in ground arith in
          record {
            buf = c;
            is_first = rw e refl;
            place = rw at refl;
            now = sym (ap (λ (p : ℕ × List Buf). p.1) pair) ∙ sym (rw at refl);
          }
      | inr e ↦
          go e (λ s1 r1 q. find_cached-Found ring d dev blockno i q) (find_cached dev blockno ring)
            refl (rw e at h)
    ]
  where
    go :
        is_at c dev blockno ≡ false
        → ((s1 : ℕ) (r1 : List Buf)
            → find_cached dev blockno ring ≡ some (s1, r1)
            → Found dev blockno ring s1 r1)
        → (o : Option (ℕ × List Buf)) → find_cached dev blockno ring ≡ o
        → (elim o as (λ _. Option (ℕ × List Buf)) [
          | none ↦ none
          | some (s1, r1) ↦ some (s1, c ∷ r1)
        ])
          ≡ some (s, ring')
        → Found dev blockno (c ∷ ring) s ring'
    go e rec none q g = absurd (cc g)
    go e rec (some (s1, r1)) q g =
        let pair : (s1, c ∷ r1) ≡ (s, ring') = some-injective _ _ g in
        let same : s1 ≡ s = ap (λ (p : ℕ × List Buf). p.0) pair in
        let f = rec s1 r1 q in
        let place' : buf_at s ring ≡ some f.buf = ap (λ k. buf_at k ring) (sym same) ∙ f.place in
        let other : c.slot ≢ s = IsAhead-slot c ring s a place' in
        let n : (c.slot == s) ≡ false = ground arith in
        record {
          buf = f.buf;
          is_first = rw e f.is_first;
          place = rw n place';
          now =
              sym (ap (λ (p : ℕ × List Buf). p.1) pair)
              ∙ ap (λ r. c ∷ r) (f.now ∙ ap (λ k. change k counted ring) same)
              ∙ sym (rw n refl);
        }

pub find_cached-none :
    (ring : List Buf) (dev blockno : ℕ)
    → find_cached dev blockno ring ≡ none
    → first dev blockno ring ≡ none
unfolding find_cached
find_cached-none [] dev blockno h = refl
find_cached-none (c ∷ ring) dev blockno h = elim (Bool-cases (is_at c dev blockno)) [
  | inl e ↦ absurd (cc (rw e at h))
  | inr e ↦
      rw e (find_cached-none ring dev blockno (missing (find_cached dev blockno ring) (rw e at h)))
]
  where
    missing :
        (o : Option (ℕ × List Buf))
        → (elim o as (λ _. Option (ℕ × List Buf)) [
          | none ↦ none
          | some (s1, r1) ↦ some (s1, c ∷ r1)
        ])
          ≡ none
        → o ≡ none
    missing none g = refl
    missing (some p) g = absurd (cc g)
