-- ===== src/Bcache/Ring.antt =====
-- kern/bio.c: what holds of the ring of buffers.
use openproninx.Base.{
  ℕ, ◌≡◌, ◌≢◌, inl, inr, refl, ap, ◌∙◌, sym, subst, true, false, Bool-cases, Option, none, some,
  List, [], ◌∷◌, arith, ◌==◌, if◌then◌else◌,
}
use mathlib.Core.Option.{some-injective}
use openproninx.Bcache.{Buf, Blocks, is_at, buf_at}

-- A buffer that is not dirty is a copy of its block.
pub record IsClean (d : Blocks) (b : Buf) : Type 0 where
  pub copies : b.valid ≡ true → b.dirty ≡ false → b.bytes ≡ d b.dev b.blockno
  pub dirty_valid : b.dirty ≡ true → b.valid ≡ true

-- Behind `b` stands no other buffer with its place, and no valid one with its block.
abbrev pub IsAhead : Buf → List Buf → Type 0
IsAhead b [] = Unit
IsAhead b (c ∷ ring) =
    (b.slot ≢ c.slot) × (is_at b c.dev c.blockno ≡ true → c.valid ≡ false) × IsAhead b ring

abbrev pub IsCache : Blocks → List Buf → Type 0
IsCache d [] = Unit
IsCache d (b ∷ ring) = IsClean d b × IsAhead b ring × IsCache d ring

-- The buffer that `bget` finds for a block.
abbrev pub first : ℕ → ℕ → List Buf → Option Buf
first dev blockno [] = none
first dev blockno (b ∷ ring) = if is_at b dev blockno then some b else first dev blockno ring

-- The block as the cache shows it.
abbrev pub view : List Buf → Blocks → Blocks
view [] d dev blockno = d dev blockno
view (b ∷ ring) d dev blockno =
    if is_at b dev blockno
    then (if b.valid then b.bytes else d dev blockno)
    else view ring d dev blockno

pub is_at_self : (b : Buf) → is_at b b.dev b.blockno ≡ true
is_at_self b =
    let e : (b.dev == b.dev) ≡ true = ground arith in
    let f : (b.blockno == b.blockno) ≡ true = ground arith in rw (e, f) refl

pub is_at_lem :
    (b : Buf) (dev blockno : ℕ) → is_at b dev blockno ≡ true → (b.dev ≡ dev) × (b.blockno ≡ blockno)
is_at_lem b dev blockno h = elim (Bool-cases (b.dev == dev)) [
  | inl e ↦ elim (Bool-cases (b.blockno == blockno)) [
    | inl f ↦ (ground arith, ground arith)
    | inr f ↦ absurd (cc (rw (e, f) at h))
  ]
  | inr e ↦ absurd (cc (rw e at h))
]

-- A block that `b` and `c` both have is behind `b` only in buffers that are not valid.
pub IsAhead-view :
    (b : Buf) (ring : List Buf) (d : Blocks) (dev blockno : ℕ)
    → IsAhead b ring
    → is_at b dev blockno ≡ true
    → view ring d dev blockno ≡ d dev blockno
IsAhead-view b [] d dev blockno a h = refl
IsAhead-view b (c ∷ ring) d dev blockno (_, stale, a) h = elim (Bool-cases (is_at c dev blockno)) [
  | inl e ↦
      let (same_dev, same_no) = is_at_lem c dev blockno e in
      let invalid : c.valid ≡ false =
        stale (ap (λ x. is_at b x c.blockno) same_dev ∙ ap (λ x. is_at b dev x) same_no ∙ h) in
      rw (e, invalid) refl
  | inr e ↦ rw e (IsAhead-view b ring d dev blockno a h)
]

pub first-none :
    (ring : List Buf) (d : Blocks) (dev blockno : ℕ)
    → first dev blockno ring ≡ none
    → view ring d dev blockno ≡ d dev blockno
first-none [] d dev blockno h = refl
first-none (c ∷ ring) d dev blockno h = elim (Bool-cases (is_at c dev blockno)) [
  | inl e ↦ absurd (cc (rw e at h))
  | inr e ↦ rw e (first-none ring d dev blockno (rw e at h))
]

pub first-view :
    (ring : List Buf) (d : Blocks) (dev blockno : ℕ) {b : Buf}
    → first dev blockno ring ≡ some b
    → (is_at b dev blockno ≡ true)
      × (view ring d dev blockno ≡ (if b.valid then b.bytes else d dev blockno))
first-view [] d dev blockno h = absurd (cc h)
first-view (c ∷ ring) d dev blockno {b} h = elim (Bool-cases (is_at c dev blockno)) [
  | inl e ↦
      let same : c ≡ b = some-injective c b (rw e at h) in
      (
        ap (λ x. is_at x dev blockno) (sym same) ∙ e,
        rw e (ap (λ (x : Buf). if x.valid then x.bytes else d dev blockno) same),
      )
  | inr e ↦ let (a, v) = first-view ring d dev blockno (rw e at h) in (a, rw e v)
]

pub buf_at-slot : (ring : List Buf) (s : ℕ) {b : Buf} → buf_at s ring ≡ some b → b.slot ≡ s
buf_at-slot [] s h = absurd (cc h)
buf_at-slot (c ∷ ring) s {b} h = elim (Bool-cases (c.slot == s)) [
  | inl e ↦
      let same : c ≡ b = some-injective c b (rw e at h) in
      let place : c.slot ≡ s = ground arith in ap (λ (y : Buf). y.slot) (sym same) ∙ place
  | inr e ↦ buf_at-slot ring s (rw e at h)
]

pub IsAhead-tag :
    (x y : Buf) (ring : List Buf)
    → y.slot ≡ x.slot
    → y.dev ≡ x.dev
    → y.blockno ≡ x.blockno
    → IsAhead x ring
    → IsAhead y ring
IsAhead-tag x y [] p q r a = a
IsAhead-tag x y (c ∷ ring) p q r (ne, stale, a) =
    (λ e. ne (sym p ∙ e), rw (q, r) stale, IsAhead-tag x y ring p q r a)

pub is_at_sym : (x b : Buf) → is_at x b.dev b.blockno ≡ false → is_at b x.dev x.blockno ≡ false
is_at_sym x b h = elim (Bool-cases (is_at b x.dev x.blockno)) [
  | inl e ↦
      let (same_dev, same_no) = is_at_lem b x.dev x.blockno e in
      let mine : is_at x b.dev b.blockno ≡ true = rw (same_dev, same_no) (is_at_self x) in
      absurd (cc (sym h ∙ mine))
  | inr e ↦ e
]

-- A buffer in its place is the first with its block, if it is valid.
pub valid-first :
    (ring : List Buf) (d : Blocks) (s : ℕ) {b : Buf}
    → IsCache d ring
    → buf_at s ring ≡ some b
    → b.valid ≡ true
    → first b.dev b.blockno ring ≡ some b
valid-first [] d s i h v = absurd (cc h)
valid-first (c ∷ ring) d s {b} (_, a, i) h v = elim (Bool-cases (c.slot == s)) [
  | inl e ↦
      let same : c ≡ b = some-injective c b (rw e at h) in
      subst (λ x. first x.dev x.blockno (c ∷ ring) ≡ some x) same (rw (is_at_self c) refl)
  | inr e ↦
      let here : buf_at s ring ≡ some b = (rw e at h) in
      let other : is_at c b.dev b.blockno ≡ false = behind ring a here in
      rw other (valid-first ring d s i here v)
]
  where
    behind : (r : List Buf) → IsAhead c r → buf_at s r ≡ some b → is_at c b.dev b.blockno ≡ false
    behind [] a h = absurd (cc h)
    behind (x ∷ r) (_, stale, a) h = elim (Bool-cases (x.slot == s)) [
      | inl e ↦
          let same : x ≡ b = some-injective x b (rw e at h) in
          elim (Bool-cases (is_at c b.dev b.blockno)) [
            | inl f ↦ absurd (
                cc (
                  sym v
                  ∙ ap (λ (y : Buf). y.valid) (sym same)
                  ∙ stale (ap (λ (y : Buf). is_at c y.dev y.blockno) same ∙ f)))
            | inr f ↦ f
          ]
      | inr e ↦ behind r a (rw e at h)
    ]

-- The first buffer with a block shows it.
pub first-shows :
    (ring : List Buf) (d : Blocks) (b : Buf)
    → first b.dev b.blockno ring ≡ some b
    → (dev blockno : ℕ)
    → (if is_at b dev blockno
        then (if b.valid then b.bytes else d dev blockno)
        else view ring d dev blockno)
      ≡ view ring d dev blockno
first-shows ring d b f dev blockno = elim (Bool-cases (is_at b dev blockno)) [
  | inl e ↦
      let (same_dev, same_no) = is_at_lem b dev blockno e in
      let found : first dev blockno ring ≡ some b =
        subst (λ k. first k blockno ring ≡ some b) same_dev
          (subst (λ k. first b.dev k ring ≡ some b) same_no f) in
      rw e (sym (first-view ring d dev blockno found).1)
  | inr e ↦ rw e refl
]

-- What stands before the first buffer with a block has another.
pub before_first :
    (s : ℕ) {b : Buf} (x : Buf) (ring : List Buf)
    → buf_at s (x ∷ ring) ≡ some b
    → first b.dev b.blockno (x ∷ ring) ≡ some b
    → (x.slot == s) ≡ false
    → is_at x b.dev b.blockno ≡ false
before_first s {b} x ring h f e = elim (Bool-cases (is_at x b.dev b.blockno)) [
  | inl q ↦
      let same : x ≡ b = some-injective x b (rw q at f) in
      let place : x.slot ≡ s = ap (λ (y : Buf). y.slot) same ∙ buf_at-slot (x ∷ ring) s h in
      let no : ⊥ = ground arith in absurd no
  | inr q ↦ q
]
