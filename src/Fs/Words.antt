-- ===== src/Fs/Words.antt =====
-- kern/fs.c: the words of a block of addresses.
use openproninx.Base.{ℕ, ◌+◌, ◌*◌, ◌<◌, ◌≡◌, ◌≢◌, refl, subst, true, arith, ◌==◌, u32_mod, ne_test}
use openproninx.Fs.{word_at, with_word}

same : (a : ℕ) → (a == a) ≡ true
same a = ground arith

pub word_at-with_word :
    (bytes : ℕ → ℕ) (j a : ℕ) → a < u32_mod → word_at (with_word bytes j a) j ≡ a
word_at-with_word bytes j a h =
    rw
      (
        same (4 * j),
        same (4 * j + 1),
        same (4 * j + 2),
        same (4 * j + 3),
        ne_test {a = 4 * j + 1} {b = 4 * j} (omega arith),
        ne_test {a = 4 * j + 2} {b = 4 * j} (omega arith),
        ne_test {a = 4 * j + 2} {b = 4 * j + 1} (omega arith),
        ne_test {a = 4 * j + 3} {b = 4 * j} (omega arith),
        ne_test {a = 4 * j + 3} {b = 4 * j + 1} (omega arith),
        ne_test {a = 4 * j + 3} {b = 4 * j + 2} (omega arith),
      )
      (omega arith)

-- A byte of another word stays.
other_byte :
    (bytes : ℕ → ℕ) (j a k r : ℕ)
    → j ≢ k
    → r < 4
    → with_word bytes j a (4 * k + r) ≡ bytes (4 * k + r)
other_byte bytes j a k r n h =
    rw
      (
        ne_test {a = 4 * k + r} {b = 4 * j} (omega arith),
        ne_test {a = 4 * k + r} {b = 4 * j + 1} (omega arith),
        ne_test {a = 4 * k + r} {b = 4 * j + 2} (omega arith),
        ne_test {a = 4 * k + r} {b = 4 * j + 3} (omega arith),
      )
      refl

-- Words with the same bytes are the same.
pub word_at_cong :
    (f g : ℕ → ℕ) (k : ℕ)
    → ((r : ℕ) → r < 4 → f (4 * k + r) ≡ g (4 * k + r))
    → word_at f k ≡ word_at g k
word_at_cong f g k h =
    let zero_byte : f (4 * k) ≡ g (4 * k) =
      subst (λ i. f i ≡ g i) (omega arith) (h 0 (omega arith)) in
    rw (zero_byte, h 1 (omega arith), h 2 (omega arith), h 3 (omega arith)) refl

pub word_at-with_word_ne :
    (bytes : ℕ → ℕ) (j a k : ℕ) → j ≢ k → word_at (with_word bytes j a) k ≡ word_at bytes k
word_at-with_word_ne bytes j a k n =
    word_at_cong (with_word bytes j a) bytes k (λ r h. other_byte bytes j a k r n h)

pub word_at_zero : (f : ℕ → ℕ) (k : ℕ) → ((i : ℕ) → f i ≡ 0) → word_at f k ≡ 0
word_at_zero f k h = rw (h (4 * k), h (4 * k + 1), h (4 * k + 2), h (4 * k + 3)) (omega arith)

pub with_word_fits : (bytes : ℕ → ℕ) (j a i : ℕ) → bytes i < 256 → with_word bytes j a i < 256
with_word_fits bytes j a i h = ground arith
