-- ===== src/Log/View.antt =====
-- kern/log.c: what a disk with a log stands for, and the blocks that the log does not own.
use openproninx.Base.{
  ℕ, zero, suc, ◌+◌, ◌≤◌, ◌<◌, ◌≡◌, inl, inr, ◌∙◌, Bool, true, false, ◌||◌, arith, ◌==◌, ltb, leb,
  if◌then◌else◌, Bool-cases, get_or, min, dec_le,
}
use openproninx.Log.{Blocks, rounds}

-- The disk's contents once the first `n` of the log's blocks are installed: `entry i` is the home
-- of the `i`-th, whose contents stand in block `start + i + 1`. A later entry wins.
unfoldable pub replay : ℕ → (ℕ → ℕ) → ℕ → Blocks → Blocks
replay start entry zero d b = d b
replay start entry (suc i) d b =
    if entry i == b then d (start + i + 1) else replay start entry i d b

-- The entries of the header on a disk.
abbrev pub entry_of : ℕ → Blocks → ℕ → ℕ
entry_of start d i = get_or (d start) (i + 1) 0

-- What the disk stands for: its committed transaction, if it holds one, counts as installed.
unfoldable pub view : ℕ → Blocks → Blocks
unfolding replay
view start d = replay start (entry_of start d) (rounds (get_or (d start) 0 0)) d

-- The blocks outside the log.
abbrev pub is_home : ℕ → ℕ → ℕ → Bool
is_home start size b = ltb b start || leb (start + size) b

module _ (start size : ℕ) where
  -- Two disks have the same log.
  abbrev pub SameLog : Blocks → Blocks → Type 0
  SameLog d d' = (b : ℕ) → is_home start size b ≡ false → d b ≡ d' b

  -- Two disks have the same blocks outside the log.
  abbrev pub SameHome : Blocks → Blocks → Type 0
  SameHome d d' = (b : ℕ) → is_home start size b ≡ true → d b ≡ d' b

  pub replay-congr :
      (e e' : ℕ → ℕ) (n : ℕ) (d d' : Blocks) (b : ℕ)
      → n < size
      → ((i : ℕ) → i < n → e i ≡ e' i)
      → ((i : ℕ) → i < n → d (start + i + 1) ≡ d' (start + i + 1))
      → d b ≡ d' b
      → replay start e n d b ≡ replay start e' n d' b
  unfolding replay
  replay-congr e e' zero d d' b h he hl hb = hb
  replay-congr e e' (suc n) d d' b h he hl hb = rw (
    he n (omega arith),
    hl n (omega arith),
    replay-congr e e' n d d' b (omega arith) (λ i p. he i (omega arith)) (λ i p. hl i (omega arith))
        hb,
  )

  replay_shorter :
      (e : ℕ → ℕ) (t n : ℕ) (d : Blocks) (b : ℕ)
      → t ≤ suc n
      → (e n == b) ≡ false
      → replay start e t d b ≡ replay start e (min t n) d b
  unfolding replay
  replay_shorter e t n d b ht other = elim (dec_le t n) [
    | yes h ↦ let q : min t n ≡ t = omega arith in rw q
    | no h ↦
        let q : min t n ≡ n = omega arith in let p : t ≡ suc n = omega arith in rw (q, p, other)
  ]

  -- Installing the log again over a disk on which its first `t` blocks are installed.
  pub replay-partial :
      (e : ℕ → ℕ) (n t : ℕ) (d d' : Blocks) (b : ℕ)
      → t ≤ n
      → n < size
      → SameLog d' d
      → d' b ≡ replay start e t d b
      → replay start e n d' b ≡ replay start e n d b
  unfolding replay
  replay-partial e zero zero d d' b ht hn hl hb = hb
  replay-partial e zero (suc t) d d' b ht hn hl hb = absurd (omega arith)
  replay-partial e (suc n) t d d' b ht hn hl hb = elim (Bool-cases (e n == b)) [
    | inl same ↦ rw same (hl (start + n + 1) (ground arith))
    | inr other ↦ rw other (
        replay-partial e n (min t n) d d' b (omega arith) (omega arith) hl
          (hb ∙ replay_shorter e t n d b ht other))
  ]
