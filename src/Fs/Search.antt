-- ===== src/Fs/Search.antt =====
-- kern/fs.c: the search of `balloc` for a free block.
use openproninx.Base.{
  ℕ, zero, suc, ◌+◌, ◌*◌, ◌/◌, ◌%◌, ◌≤◌, ◌<◌, ◌≡◌, ◌≢◌, inl, inr, refl, ap, ◌∙◌, sym, subst, true,
  false, Bool-cases, not, Option, none, some, arith, ltb,
}
use mathlib.Core.Option.{some-injective}
use openproninx.Fs.{Blocks, Superblock, bpb, bblock, is_clear, find_bit, find_free}
use openproninx.Fs.Bitmap.{used, not-false}

find_bit-some :
    (k : ℕ) (bytes : ℕ → ℕ) (size b bi : ℕ) {r : ℕ}
    → find_bit k bytes size b bi ≡ some r
    → (bi ≤ r) × (r < bi + k) × (b + r < size) × (is_clear (bytes (r / 8)) r ≡ true)
unfolding find_bit
find_bit-some zero bytes size b bi h = absurd (cc h)
find_bit-some (suc k) bytes size b bi {r} h = elim (Bool-cases (ltb (b + bi) size)) [
  | inl e ↦ elim (Bool-cases (is_clear (bytes (bi / 8)) bi)) [
    | inl c ↦
        let same : bi ≡ r = some-injective bi r (rw (e, c) at h) in
        subst
          (λ n. (bi ≤ n) × (n < bi + suc k) × (b + n < size) × (is_clear (bytes (n / 8)) n ≡ true))
          same (omega arith, omega arith, ground arith, c)
    | inr c ↦
        let (lo, hi, lt, cl) = find_bit-some k bytes size b (bi + 1) (rw (e, c) at h) in
        (omega arith, omega arith, lt, cl)
  ]
  | inr e ↦ absurd (cc (rw e at h))
]

pub find_free-some :
    (fuel : ℕ) (sb : Superblock) (c : Blocks) (b : ℕ) {r : ℕ}
    → b % bpb ≡ 0
    → find_free fuel sb c b ≡ some r
    → (r < sb.size) × (used sb c r ≡ false)
unfolding find_free
find_free-some zero sb c b z h = absurd (cc h)
find_free-some (suc fuel) sb c b {r} z h = elim (Bool-cases (ltb b sb.size)) [
  | inl e ↦
      go (λ q. find_free-some fuel sb c (b + bpb) (omega arith) q)
        (find_bit bpb (c (bblock sb b)) sb.size b 0) refl (rw e at h)
  | inr e ↦ absurd (cc (rw e at h))
]
  where
    go :
        (find_free fuel sb c (b + bpb) ≡ some r → (r < sb.size) × (used sb c r ≡ false))
        → (o : Option ℕ) → find_bit bpb (c (bblock sb b)) sb.size b 0 ≡ o
        → (elim o as (λ _. Option ℕ) [
          | some bi ↦ some (b + bi)
          | none ↦ find_free fuel sb c (b + bpb)
        ])
          ≡ some r
        → (r < sb.size) × (used sb c r ≡ false)
    go rec none e q = rec q
    go rec (some bi) e q =
        let (_, hi, lt, cl) = find_bit-some bpb (c (bblock sb b)) sb.size b 0 e in
        let place : (b + bi) % bpb ≡ bi = omega arith in
        let row : (b + bi) / bpb ≡ b / bpb = omega arith in
        let free : used sb c (b + bi) ≡ false = rw (place, row) (ap not cl) in
        subst (λ n. (n < sb.size) × (used sb c n ≡ false)) (some-injective (b + bi) r q) (lt, free)

-- The search finds a bit where there is one.
find_bit_complete :
    (k : ℕ) (bytes : ℕ → ℕ) (size b bi r : ℕ)
    → bi ≤ r
    → r < bi + k
    → b + r < size
    → is_clear (bytes (r / 8)) r ≡ true
    → find_bit k bytes size b bi ≢ none
unfolding find_bit
find_bit_complete zero bytes size b bi r lo hi lt cl h = absurd (omega arith)
find_bit_complete (suc k) bytes size b bi r lo hi lt cl h =
    let inside : ltb (b + bi) size ≡ true = ground arith in
    elim (Bool-cases (is_clear (bytes (bi / 8)) bi)) [
      | inl c ↦ absurd (cc (rw (inside, c) at h))
      | inr c ↦
          let apart : bi ≢ r =
            λ e. absurd (cc (sym c ∙ ap (λ n. is_clear (bytes (n / 8)) n) e ∙ cl)) in
          let more : bi + 1 ≤ r = ground arith in
          find_bit_complete k bytes size b (bi + 1) r more (omega arith) lt cl (rw (inside, c) at h)
    ]

pub find_free_complete :
    (fuel : ℕ) (sb : Superblock) (c : Blocks) (b r : ℕ)
    → b % bpb ≡ 0
    → b ≤ r
    → r < b + fuel * bpb
    → r < sb.size
    → used sb c r ≡ false
    → find_free fuel sb c b ≢ none
unfolding find_free
find_free_complete zero sb c b r z lo hi lt free h = absurd (omega arith)
find_free_complete (suc fuel) sb c b r z lo hi lt free h =
    let inside : ltb b sb.size ≡ true = ground arith in
    go (λ far. find_free_complete fuel sb c (b + bpb) r (omega arith) far (omega arith) lt free)
      (find_bit bpb (c (bblock sb b)) sb.size b 0) refl (rw inside at h)
  where
    go :
        (b + bpb ≤ r → find_free fuel sb c (b + bpb) ≢ none)
        → (o : Option ℕ) → find_bit bpb (c (bblock sb b)) sb.size b 0 ≡ o
        → (elim o as (λ _. Option ℕ) [
          | some bi ↦ some (b + bi)
          | none ↦ find_free fuel sb c (b + bpb)
        ])
          ≢ none
    go rec (some bi) e q = absurd (cc q)
    go rec none e q = elim (Bool-cases (ltb r (b + bpb))) [
      | inr far ↦ rec (ground arith) q
      | inl near ↦
          let close : r < b + bpb = ground arith in
          let row : r / bpb ≡ b / bpb = omega arith in
          let place : b + r % bpb ≡ r = omega arith in
          let clear : is_clear (c (bblock sb b) (r % bpb / 8)) (r % bpb) ≡ true =
            ap (λ k. is_clear (c (k + sb.bmapstart) (r % bpb / 8)) (r % bpb)) (sym row)
            ∙ not-false _ free in
          find_bit_complete bpb (c (bblock sb b)) sb.size b 0 (r % bpb) (omega arith) (omega arith)
            (omega arith) clear e
    ]
