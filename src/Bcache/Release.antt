-- ===== src/Bcache/Release.antt =====
-- kern/bio.c: `brelse` moves a buffer to the front of the ring.
use openproninx.Base.{
  ℕ, ◌≡◌, ◌≢◌, inl, inr, refl, ap, ◌∙◌, sym, subst, true, false, Bool-cases, Option, none, some,
  List, [], ◌∷◌, arith, ◌==◌, if◌then◌else◌,
}
use mathlib.Core.Option.{some-injective}
use openproninx.Bcache.{Buf, Blocks, is_at, change, buf_at, remove, dropped, brelse}
use openproninx.Bcache.Ring.{
  IsClean, IsAhead, IsCache, first, view, is_at_lem, IsAhead-tag, valid-first, is_at_sym,
  buf_at-slot, first-shows,
}
use openproninx.Bcache.Change.{change-IsCache, change-view}

remove-IsAhead : (c : Buf) (ring : List Buf) (s : ℕ) → IsAhead c ring → IsAhead c (remove s ring)
remove-IsAhead c [] s a = a
remove-IsAhead c (x ∷ ring) s (ne, stale, a) = elim (Bool-cases (x.slot == s)) [
  | inl e ↦ rw e a
  | inr e ↦ rw e (ne, stale, remove-IsAhead c ring s a)
]

-- A valid buffer behind `c` has another block.
IsAhead-other :
    (c : Buf) (ring : List Buf) (s : ℕ) {b : Buf}
    → IsAhead c ring
    → buf_at s ring ≡ some b
    → b.valid ≡ true
    → is_at c b.dev b.blockno ≡ false
IsAhead-other c [] s a h v = absurd (cc h)
IsAhead-other c (x ∷ ring) s {b} (_, stale, a) h v = elim (Bool-cases (x.slot == s)) [
  | inl e ↦
      let same : x ≡ b = some-injective x b (rw e at h) in
      elim (Bool-cases (is_at c x.dev x.blockno)) [
        | inl f ↦ absurd (cc (sym v ∙ ap (λ (y : Buf). y.valid) (sym same) ∙ stale f))
        | inr f ↦ ap (λ (y : Buf). is_at c y.dev y.blockno) (sym same) ∙ f
      ]
  | inr e ↦ IsAhead-other c ring s a (rw e at h) v
]

-- The ring with `b` taken out is behind `b`.
removed-IsAhead :
    (ring : List Buf) (d : Blocks) (s : ℕ) {b : Buf}
    → IsCache d ring
    → buf_at s ring ≡ some b
    → b.valid ≡ true
    → b.slot ≡ s
    → IsAhead b (remove s ring)
removed-IsAhead [] d s i h v p = absurd (cc h)
removed-IsAhead (x ∷ ring) d s {b} (_, a, i) h v p = elim (Bool-cases (x.slot == s)) [
  | inl e ↦
      let same : x ≡ b = some-injective x b (rw e at h) in rw e (subst (λ y. IsAhead y ring) same a)
  | inr e ↦
      let other = IsAhead-other x ring s a (rw e at h) v in
      rw e (
        place e,
        (λ q. absurd (cc (sym q ∙ is_at_sym x b other))),
        removed-IsAhead ring d s i (rw e at h) v p,
      )
]
  where
    place : (x.slot == s) ≡ false → b.slot ≢ x.slot
    place e q = let same : x.slot ≡ s = sym q ∙ p in let no : ⊥ = ground arith in no

remove-IsCache : (ring : List Buf) (d : Blocks) (s : ℕ) → IsCache d ring → IsCache d (remove s ring)
remove-IsCache [] d s i = i
remove-IsCache (x ∷ ring) d s (cl, a, i) = elim (Bool-cases (x.slot == s)) [
  | inl e ↦ rw e i
  | inr e ↦ rw e (cl, remove-IsAhead x ring s a, remove-IsCache ring d s i)
]

pub buf_at-IsClean :
    (ring : List Buf) (d : Blocks) (s : ℕ) {b : Buf}
    → IsCache d ring
    → buf_at s ring ≡ some b
    → IsClean d b
buf_at-IsClean [] d s i h = absurd (cc h)
buf_at-IsClean (x ∷ ring) d s {b} (cl, a, i) h = elim (Bool-cases (x.slot == s)) [
  | inl e ↦ subst (λ y. IsClean d y) (some-injective x b (rw e at h)) cl
  | inr e ↦ buf_at-IsClean ring d s i (rw e at h)
]

remove-view :
    (ring : List Buf) (d : Blocks) (s : ℕ) {b : Buf} (dev blockno : ℕ)
    → IsCache d ring
    → buf_at s ring ≡ some b
    → b.valid ≡ true
    → view (b ∷ remove s ring) d dev blockno ≡ view ring d dev blockno
remove-view [] d s dev blockno i h v = absurd (cc h)
remove-view (x ∷ ring) d s {b} dev blockno (_, a, i) h v = elim (Bool-cases (x.slot == s)) [
  | inl e ↦
      let same : x ≡ b = some-injective x b (rw e at h) in
      rw e (ap (λ y. view (y ∷ ring) d dev blockno) (sym same))
  | inr e ↦
      let other = IsAhead-other x ring s a (rw e at h) v in
      let deeper = remove-view ring d s dev blockno i (rw e at h) v in
      elim (Bool-cases (is_at b dev blockno)) [
        | inl q ↦
            let (b_dev, b_no) = is_at_lem b dev blockno q in
            let not_x : is_at x dev blockno ≡ false =
              ap (λ k. is_at x k blockno) (sym b_dev)
              ∙ ap (λ k. is_at x b.dev k) (sym b_no)
              ∙ other in
            rw (e, q, not_x) (sym (rw q refl) ∙ deeper)
        | inr q ↦
            let kept : view (remove s ring) d dev blockno ≡ view ring d dev blockno =
              sym (rw q refl) ∙ deeper in
            rw (e, q, kept) refl
      ]
]

-- `brelse` of a valid buffer keeps the cache and what it shows.
pub brelse-transparent :
    (s : ℕ) (ring : List Buf) (d : Blocks) {b : Buf}
    → IsCache d ring
    → buf_at s ring ≡ some b
    → b.valid ≡ true
    → IsCache d (brelse s ring)
      × ((dev blockno : ℕ) → view (brelse s ring) d dev blockno ≡ view ring d dev blockno)
unfolding brelse
brelse-transparent s ring d {b} i h v = elim (Bool-cases ((dropped b).refcnt == 0)) [
  | inl e ↦ subst Kept (sym (to_front e)) (
    (
      clean,
      IsAhead-tag b (dropped b) (remove s ring) refl refl refl
          (removed-IsAhead ring d s i h v (buf_at-slot ring s h)),
      remove-IsCache ring d s i,
    ),
    λ dev blockno. remove-view ring d s dev blockno i h v,
  )
  | inr e ↦ subst Kept (sym (in_place e)) (
    change-IsCache d d dropped s b refl refl refl (λ _ _ _. refl) ring h at_front clean i,
    λ dev blockno.
        change-view d d dropped s b refl refl refl (λ _ _ _. refl) ring dev blockno h at_front
        ∙ unchanged dev blockno,
  )
]
  where
    Kept : List Buf → Type 0
    Kept r = IsCache d r × ((dev blockno : ℕ) → view r d dev blockno ≡ view ring d dev blockno)

    outcome : Option Buf → List Buf
    outcome o = elim o [
      | none ↦ ring
      | some x ↦
          if (dropped x).refcnt == 0 then dropped x ∷ remove s ring else change s dropped ring
    ]

    to_front : ((dropped b).refcnt == 0) ≡ true → brelse s ring ≡ dropped b ∷ remove s ring
    to_front e = ap outcome h ∙ rw e refl

    in_place : ((dropped b).refcnt == 0) ≡ false → brelse s ring ≡ change s dropped ring
    in_place e = ap outcome h ∙ rw e refl

    at_front : first b.dev b.blockno ring ≡ some b
    at_front = valid-first ring d s i h v

    clean : IsClean d (dropped b)
    clean =
        let c = buf_at-IsClean ring d s i h in
        record { copies = c.copies; dirty_valid = c.dirty_valid }

    unchanged :
        (dev blockno : ℕ)
        → (if is_at b dev blockno
            then (if b.valid then b.bytes else d dev blockno)
            else view ring d dev blockno)
          ≡ view ring d dev blockno
    unchanged dev blockno = first-shows ring d b at_front dev blockno
