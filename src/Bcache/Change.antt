-- ===== src/Bcache/Change.antt =====
-- kern/bio.c: a change of one buffer in the ring.
use openproninx.Base.{
  ℕ, ◌≡◌, ◌≢◌, inl, inr, refl, ap, ◌∙◌, sym, subst, true, false, Bool-cases, some, List, [], ◌∷◌,
  ◌==◌, if◌then◌else◌,
}
use mathlib.Core.Option.{some-injective}
use openproninx.Bcache.{Buf, Blocks, is_at, change, buf_at}
use openproninx.Bcache.Ring.{
  IsClean, IsAhead, IsCache, first, view, is_at_lem, IsAhead-tag, is_at_sym, before_first,
}

-- A buffer `b` at the place `s` becomes `g b`, with the same place and block, and the disk may change at its block.
module _ (d d' : Blocks) (g : Buf → Buf) (s : ℕ) (b : Buf) (slot_same : (g b).slot ≡ b.slot)
    (dev_same : (g b).dev ≡ b.dev) (no_same : (g b).blockno ≡ b.blockno)
    (elsewhere : (dev blockno : ℕ)
      → is_at b dev blockno ≡ false
      → d' dev blockno ≡ d dev blockno) where
  change-IsAhead :
      (c : Buf) (ring : List Buf)
      → buf_at s ring ≡ some b
      → (is_at c b.dev b.blockno ≡ true → (g b).valid ≡ false)
      → IsAhead c ring
      → IsAhead c (change s g ring)
  change-IsAhead c [] h stale a = a
  change-IsAhead c (x ∷ ring) h stale (ne, st, a) = elim (Bool-cases (x.slot == s)) [
    | inl e ↦
        let same : x ≡ b = some-injective x b (rw e at h) in
        rw e (
          subst (λ y. c.slot ≢ (g y).slot) (sym same)
              (λ q. ne (q ∙ slot_same ∙ ap (λ (y : Buf). y.slot) (sym same))),
          subst (λ y. is_at c (g y).dev (g y).blockno ≡ true → (g y).valid ≡ false) (sym same)
              (λ q. stale (
                ap (λ k. is_at c k b.blockno) (sym dev_same)
                ∙ ap (λ k. is_at c (g b).dev k) (sym no_same)
                ∙ q)),
          a,
        )
    | inr e ↦ rw e (ne, st, change-IsAhead c ring (rw e at h) stale a)
  ]

  behind-IsCache :
      (c : Buf) (ring : List Buf) → c ≡ b → IsAhead c ring → IsCache d ring → IsCache d' ring
  behind-IsCache c [] same a i = i
  behind-IsCache c (x ∷ ring) same (_, stale, a) (clean, a', i) = (
    record { copies = copies_at; dirty_valid = clean.dirty_valid },
    a',
    behind-IsCache c ring same a i,
  )
    where
      copies_at : x.valid ≡ true → x.dirty ≡ false → x.bytes ≡ d' x.dev x.blockno
      copies_at v n = elim (Bool-cases (is_at c x.dev x.blockno)) [
        | inl e ↦ absurd (cc (sym v ∙ stale e))
        | inr e ↦
            clean.copies v n
            ∙ sym (
                elsewhere x.dev x.blockno
                  (ap (λ (y : Buf). is_at y x.dev x.blockno) (sym same) ∙ e))
      ]

  pub change-IsCache :
      (ring : List Buf)
      → buf_at s ring ≡ some b
      → first b.dev b.blockno ring ≡ some b
      → IsClean d' (g b)
      → IsCache d ring
      → IsCache d' (change s g ring)
  change-IsCache [] h f clean i = i
  change-IsCache (x ∷ ring) h f clean (cl, a, i) = elim (Bool-cases (x.slot == s)) [
    | inl e ↦
        let same : x ≡ b = some-injective x b (rw e at h) in
        let ahead : IsAhead b ring = subst (λ y. IsAhead y ring) same a in
        rw e (
          subst (λ y. IsClean d' (g y)) (sym same) clean,
          subst (λ y. IsAhead (g y) ring) (sym same)
              (IsAhead-tag b (g b) ring slot_same dev_same no_same ahead),
          behind-IsCache x ring same a i,
        )
    | inr e ↦
        let other = before_first s x ring h f e in
        rw e (
          record {
            copies = λ v n. cl.copies v n ∙ sym (elsewhere x.dev x.blockno (is_at_sym x b other));
            dirty_valid = cl.dirty_valid;
          },
          change-IsAhead x ring (rw e at h) (λ q. absurd (cc (sym q ∙ other))) a,
          change-IsCache ring (rw e at h) (rw other at f) clean i,
        )
  ]

  view-elsewhere :
      (ring : List Buf) (dev blockno : ℕ)
      → d' dev blockno ≡ d dev blockno
      → view ring d' dev blockno ≡ view ring d dev blockno
  view-elsewhere [] dev blockno e = e
  view-elsewhere (x ∷ ring) dev blockno e = rw (e, view-elsewhere ring dev blockno e) refl

  at_most_one :
      (x : Buf) (dev blockno : ℕ)
      → is_at x b.dev b.blockno ≡ false
      → is_at x dev blockno ≡ true
      → is_at b dev blockno ≡ false
  at_most_one x dev blockno other e = elim (Bool-cases (is_at b dev blockno)) [
    | inl q ↦
        let (b_dev, b_no) = is_at_lem b dev blockno q in
        let mine : is_at x b.dev b.blockno ≡ true = rw (b_dev, b_no) e in
        absurd (cc (sym other ∙ mine))
    | inr q ↦ q
  ]

  mine :
      (ring : List Buf) (dev blockno : ℕ)
      → (if is_at (g b) dev blockno
          then (if (g b).valid then (g b).bytes else d' dev blockno)
          else view ring d' dev blockno)
        ≡ (if is_at b dev blockno
            then (if (g b).valid then (g b).bytes else d' dev blockno)
            else (if is_at b dev blockno
                then (if b.valid then b.bytes else d dev blockno)
                else view ring d dev blockno))
  mine ring dev blockno = elim (Bool-cases (is_at b dev blockno)) [
    | inl q ↦ rw (dev_same, no_same, q) refl
    | inr q ↦ rw (dev_same, no_same, q) (view-elsewhere ring dev blockno (elsewhere dev blockno q))
  ]

  -- The cache shows what `g b` holds, and all other blocks as before.
  pub change-view :
      (ring : List Buf) (dev blockno : ℕ)
      → buf_at s ring ≡ some b
      → first b.dev b.blockno ring ≡ some b
      → view (change s g ring) d' dev blockno ≡ (
          if is_at b dev blockno
          then (if (g b).valid then (g b).bytes else d' dev blockno)
          else view ring d dev blockno)
  change-view [] dev blockno h f = absurd (cc h)
  change-view (x ∷ ring) dev blockno h f = elim (Bool-cases (x.slot == s)) [
    | inl e ↦
        let same : x ≡ b = some-injective x b (rw e at h) in
        rw e (
          subst
            (λ y.
              (if is_at (g y) dev blockno
                then (if (g y).valid then (g y).bytes else d' dev blockno)
                else view ring d' dev blockno)
              ≡ (if is_at b dev blockno
                  then (if (g b).valid then (g b).bytes else d' dev blockno)
                  else (if is_at y dev blockno
                      then (if y.valid then y.bytes else d dev blockno)
                      else view ring d dev blockno)))
            (sym same) (mine ring dev blockno))
    | inr e ↦
        let other = before_first s x ring h f e in
        rw e (elim (Bool-cases (is_at x dev blockno)) [
          | inl q ↦
              let not_b = at_most_one x dev blockno other q in
              rw (q, not_b, elsewhere dev blockno not_b) refl
          | inr q ↦ rw q (change-view ring dev blockno (rw e at h) (rw other at f))
        ])
  ]
