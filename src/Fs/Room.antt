-- ===== src/Fs/Room.antt =====
-- kern/fs.c: with free blocks left, `balloc` and `bmap` return.
use openproninx.Base.{
  ℕ, zero, suc, ◌+◌, ◌≤◌, ◌<◌, ◌≡◌, ◌≢◌, inl, inr, refl, ap, ◌∙◌, sym, Bool, true, false,
  Bool-cases, not, some, arith, ◌==◌, if◌then◌else◌, test_eq, test_ne, ne_test, get_or, set,
}
use openproninx.Fs.{
  Blocks, Store, Superblock, Inode, Step, bblock, put_block, word_at, with_word, balloc, address_of,
  entry_of,
}
use openproninx.Fs.Bitmap.{used, IsVolume, put_block-used}
use openproninx.Fs.Alloc.{balloc_returns, balloc-Allocated}

abbrev pub count : ℕ → (ℕ → Bool) → ℕ
count zero p = 0
count (suc n) p = (if p n then 1 else 0) + count n p

count_some : (n : ℕ) (p : ℕ → Bool) → 0 < count n p → (b : ℕ) × (b < n) × (p b ≡ true)
count_some zero p h = absurd (omega arith)
count_some (suc n) p h = elim (Bool-cases (p n)) [
  | inl e ↦ (n, omega arith, e)
  | inr e ↦
      let rest : 0 + count n p ≡ count n p = omega arith in
      let (b, lt, q) = count_some n p (rw (e, rest) at h) in (b, omega (arith, lt), q)
]

pub count_cong : (n : ℕ) (p q : ℕ → Bool) → ((b : ℕ) → b < n → p b ≡ q b) → count n p ≡ count n q
count_cong zero p q h = refl
count_cong (suc n) p q h =
    rw (h n (omega arith), count_cong n p q (λ b lt. h b (omega (arith, lt)))) refl

-- At most one number of the set is lost where only one test changes.
count_drop :
    (n a : ℕ) (p q : ℕ → Bool) → ((b : ℕ) → b < n → a ≢ b → p b ≡ q b) → count n p ≤ count n q + 1
count_drop zero a p q h = omega arith
count_drop (suc n) a p q h = elim (Bool-cases (a == n)) [
  | inr e ↦
      let rest = count_drop n a p q (λ b lt k. h b (omega (arith, lt)) k) in
      rw (h n (omega arith) (test_ne e)) (omega (arith, rest))
  | inl e ↦
      let same = test_eq e in
      let rest = count_cong n p q (λ b lt. h b (omega (arith, lt)) (omega (arith, lt, same))) in
      elim (Bool-cases (p n)) [
        | inl f ↦ rw (f, rest) (omega arith)
        | inr f ↦ rw (f, rest) (omega arith)
      ]
]

-- The number of free blocks.
abbrev pub room : Superblock → Blocks → ℕ
room sb c = count sb.size (λ b. not (used sb c b))

-- A step that returns and takes at most `k` blocks.
abbrev pub Returns : {A : Type 0} → Superblock → ℕ → Step A → Store → Type 0
Returns {A} sb k m s =
    (a : A) × (t : Store) × (m s ≡ some (a, t)) × (room sb s.cache ≤ room sb t.cache + k)

pub balloc-Returns :
    (sb : Superblock) (s : Store)
    → IsVolume sb s.cache
    → 0 < room sb s.cache
    → Returns sb 1 (balloc sb) s
balloc-Returns sb s v h =
    let (b, lt, e) = count_some sb.size (λ b. not (used sb s.cache b)) h in
    let (a, t, q) = balloc_returns sb s b lt (not_true (used sb s.cache b) e) in
    let al = balloc-Allocated sb s v q in
    (
      a,
      t,
      q,
      count_drop sb.size a (λ b. not (used sb s.cache b)) (λ b. not (used sb t.cache b))
          (λ b lt n. ap not (sym (al.map b lt ∙ (rw (ne_test n) refl)))),
    )
  where
    not_true : (b : Bool) → not b ≡ true → b ≡ false
    not_true true h = absurd (cc h)
    not_true false h = refl

pub address_of-Returns :
    (sb : Superblock) (k : ℕ) (ip : Inode) (s : Store)
    → IsVolume sb s.cache
    → 0 < room sb s.cache
    → Returns sb 1 (address_of sb k ip) s
unfolding address_of
address_of-Returns sb k ip s v h = elim (Bool-cases (get_or ip.addrs k 0 == 0)) [
  | inr e ↦ ((get_or ip.addrs k 0, ip), s, rw e refl, omega arith)
  | inl e ↦
      let (a, t, q, r) = balloc-Returns sb s v h in
      ((a, record ip { addrs = set ip.addrs k a }), t, rw (e, q) refl, r)
]

pub entry_of-Returns :
    (sb : Superblock) (b j : ℕ) (s : Store)
    → IsVolume sb s.cache
    → ((k : ℕ) → k < sb.size → b ≢ bblock sb k)
    → 0 < room sb s.cache
    → Returns sb 1 (entry_of sb b j) s
unfolding entry_of
entry_of-Returns sb b j s v n h = elim (Bool-cases (word_at (s.cache b) j == 0)) [
  | inr e ↦ (word_at (s.cache b) j, s, rw e refl, omega arith)
  | inl e ↦
      let (a, t, q, r) = balloc-Returns sb s v h in
      let bytes = with_word (t.cache b) j a in
      let same =
        count_cong sb.size (λ k. not (used sb (put_block b bytes t).cache k))
          (λ k. not (used sb t.cache k)) (λ k lt. ap not (put_block-used sb t b bytes n k lt)) in
      (a, put_block b bytes t, rw (e, q) refl, omega (arith, r, same))
]
