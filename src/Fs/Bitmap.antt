-- ===== src/Fs/Bitmap.antt =====
-- kern/fs.c: the map of used blocks, and a bit of it that is set or cleared.
use openproninx.Base.{
  ℕ, ◌/◌, ◌%◌, ◌<◌, ◌≡◌, ◌≢◌, inl, inr, refl, ap, ap₂, ◌∙◌, sym, Bool, true, false, Bool-cases, not,
  ◌&&◌, ◌||◌, ◌∷◌, arith, ◌==◌, if◌then◌else◌, u32_mod, ne_test,
}
use openproninx.Fs.{
  Blocks, Store, Superblock, bpb, bblock, put_block, is_clear, with_used, with_free,
}
use openproninx.Fs.Bits.{one_bit_lem}

-- The bit of a block in the map.
abbrev pub used : Superblock → Blocks → ℕ → Bool
used sb c b = not (is_clear (c (bblock sb b) (b % bpb / 8)) (b % bpb))

-- The blocks hold bytes, and the map marks its own blocks and the boot block.
pub record IsVolume (sb : Superblock) (c : Blocks) : Type 0 where
  pub bytes : (b i : ℕ) → c b i < 256
  pub word : sb.size < u32_mod
  pub map_in : (b : ℕ) → b < sb.size → bblock sb b < sb.size
  pub map_used : (b : ℕ) → b < sb.size → used sb c (bblock sb b) ≡ true
  pub boot_used : used sb c 0 ≡ true

-- What `balloc` gives.
pub record Allocated (sb : Superblock) (s : Store) (a : ℕ) (s' : Store) : Type 0 where
  pub below : a < sb.size
  pub was_free : used sb s.cache a ≡ false
  pub not_boot : a ≢ 0
  pub not_in_map : (k : ℕ) → k < sb.size → a ≢ bblock sb k
  pub is_volume : IsVolume sb s'.cache
  pub map : (b : ℕ) → b < sb.size → used sb s'.cache b ≡ (a == b || used sb s.cache b)
  pub zeroed : (i : ℕ) → s'.cache a i ≡ 0
  pub others : (b i : ℕ) → b ≢ a → b ≢ bblock sb a → s'.cache b i ≡ s.cache b i
  pub log : s'.logged ≡ a ∷ bblock sb a ∷ s.logged

-- A byte of the map that is changed at one bit: seen at any block.
module _ (sb : Superblock) (s : Store) (a : ℕ) (new : (ℕ → ℕ) → ℕ → ℕ) where
  -- The change leaves all but the byte of `a`.
  changed_bit :
      (b : ℕ) (seen : Bool)
      → ((i : ℕ)
          → (a % bpb / 8 == i) ≡ false
          → new (s.cache (bblock sb a)) i ≡ s.cache (bblock sb a) i)
      → is_clear (new (s.cache (bblock sb a)) (a % bpb / 8)) (b % bpb) ≡ (
          if (a % bpb) % 8 == (b % bpb) % 8
          then seen
          else is_clear (s.cache (bblock sb a) (a % bpb / 8)) (b % bpb))
      → used sb (put_block (bblock sb a) (new (s.cache (bblock sb a))) s).cache b
        ≡ (if a == b then not seen else used sb s.cache b)
  changed_bit b seen same_byte bit = elim (Bool-cases (bblock sb a == bblock sb b)) [
    | inr e ↦ let n : (a == b) ≡ false = ground arith in rw (e, n) refl
    | inl e ↦
        let row : bblock sb a ≡ bblock sb b = ground arith in
        elim (Bool-cases (a % bpb / 8 == b % bpb / 8)) [
          | inr f ↦
              let n : (a == b) ≡ false = ground arith in
              rw (e, n, same_byte (b % bpb / 8) f)
                (ap (λ r. not (is_clear (s.cache r (b % bpb / 8)) (b % bpb))) row)
          | inl f ↦
              let byte : a % bpb / 8 ≡ b % bpb / 8 = ground arith in
              let known =
                ap (λ k. is_clear (new (s.cache (bblock sb a)) k) (b % bpb)) (sym byte) ∙ bit in
              elim (Bool-cases ((a % bpb) % 8 == (b % bpb) % 8)) [
                | inl q ↦ let n : (a == b) ≡ true = ground arith in rw (e, known, q, n) refl
                | inr q ↦
                    let n : (a == b) ≡ false = ground arith in
                    rw (e, known, q, n)
                      (ap₂ (λ r k. not (is_clear (s.cache r k) (b % bpb))) row byte)
              ]
        ]
  ]

pub or_true : (b : Bool) → (b || true) ≡ true
or_true true = refl
or_true false = refl

pub not-false : (b : Bool) → not b ≡ false → b ≡ true
not-false true h = refl
not-false false h = absurd (cc h)

pub same_number : (n : ℕ) → (n == n) ≡ true
same_number n = ground arith

pub set_bit :
    (sb : Superblock) (s : Store) (a b : ℕ)
    → ((b i : ℕ) → s.cache b i < 256)
    → used sb (put_block (bblock sb a) (with_used (s.cache (bblock sb a)) a) s).cache b
      ≡ (a == b || used sb s.cache b)
set_bit sb s a b bytes =
    let value = s.cache (bblock sb a) (a % bpb / 8) in
    let bit =
      one_bit_lem (a % bpb % 8) (b % bpb % 8) value (omega arith) (omega arith)
        (bytes (bblock sb a) (a % bpb / 8)) in
    changed_bit sb s a (λ f. with_used f a) b false (λ i n. rw n refl)
      (rw (same_number (a % bpb / 8)) bit.set)
    ∙ elim (Bool-cases (a == b)) [ inl e ↦ rw e refl | inr e ↦ rw e refl ]

pub clear_bit :
    (sb : Superblock) (s : Store) (a b : ℕ)
    → ((b i : ℕ) → s.cache b i < 256)
    → used sb (put_block (bblock sb a) (with_free (s.cache (bblock sb a)) a) s).cache b
      ≡ (not (a == b) && used sb s.cache b)
clear_bit sb s a b bytes =
    let value = s.cache (bblock sb a) (a % bpb / 8) in
    let bit =
      one_bit_lem (a % bpb % 8) (b % bpb % 8) value (omega arith) (omega arith)
        (bytes (bblock sb a) (a % bpb / 8)) in
    changed_bit sb s a (λ f. with_free f a) b true (λ i n. rw n refl)
      (rw (same_number (a % bpb / 8)) bit.cleared)
    ∙ elim (Bool-cases (a == b)) [ inl e ↦ rw e refl | inr e ↦ rw e refl ]

-- A block that is not of the map may be written: the map says what it said.
pub put_block-used :
    (sb : Superblock) (s : Store) (b : ℕ) (bytes : ℕ → ℕ)
    → ((k : ℕ) → k < sb.size → b ≢ bblock sb k)
    → (k : ℕ) → k < sb.size
    → used sb (put_block b bytes s).cache k ≡ used sb s.cache k
put_block-used sb s b bytes n k lt = rw (ne_test (n k lt)) refl

pub put_block-IsVolume :
    (sb : Superblock) (s : Store) (b : ℕ) (bytes : ℕ → ℕ)
    → IsVolume sb s.cache
    → ((k : ℕ) → k < sb.size → b ≢ bblock sb k)
    → ((i : ℕ) → bytes i < 256)
    → 0 < sb.size
    → IsVolume sb (put_block b bytes s).cache
put_block-IsVolume sb s b bytes v n fits pos = record {
  bytes = λ c i. elim (Bool-cases (b == c)) [ inl e ↦ rw e (fits i) | inr e ↦ rw e (v.bytes c i) ];
  word = v.word;
  map_in = v.map_in;
  map_used = λ k lt. put_block-used sb s b bytes n (bblock sb k) (v.map_in k lt) ∙ v.map_used k lt;
  boot_used = put_block-used sb s b bytes n 0 pos ∙ v.boot_used;
}
