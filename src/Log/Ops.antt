-- ===== src/Log/Ops.antt =====
-- kern/log.c: `begin_op`, `end_op` and `log_write` on the state in memory.
use openproninx.Base.{
  refl, ap, ◌∙◌, sym, eq_test, test_eq, test_ne, length, length-set, get_or-set_self, get_or-set_ne,
  ℕ, zero, suc, ◌+◌, ◌≤◌, ◌<◌, ◌^◌, ◌≡◌, ◌≢◌, ◌⊎◌, inl, inr, Bool, true, false, not, ◌&&◌, ◌||◌,
  List, arith, ◌==◌, ==_iff, ltb, leb, if◌then◌else◌, Bool-cases, get_or, set, add32, sub32, mul32,
}
use openproninx.Log.{Header, log_size, max_op_blocks}

-- `struct log` without its lock and its device, and the flag `readonly`. `outstanding` is a word.
pub record Log : Type 0 where
  pub start : ℕ
  pub size : ℕ
  pub outstanding : ℕ
  pub committing : Bool
  pub readonly : Bool
  pub lh : Header

-- How a stretch of code under the log's lock ends; `wakes` says that it called `wakeup(&_log)`.
pub data Outcome : Type 0 where
  done : Log → (wakes : Bool) → Outcome
  sleeps : Outcome
  panics : Outcome

-- A word read as an `int` is negative.
abbrev pub is_negative : ℕ → Bool
is_negative w = leb (2 ^ 31) w

-- `_log.lh.n + (_log.outstanding + 1) * MAXOPBLOCKS > LOGSIZE`
abbrev pub exceeds : ℕ → ℕ → Bool
exceeds n outstanding =
    let need : ℕ = add32 n (mul32 (add32 outstanding 1) max_op_blocks) in
    ltb log_size need && not (is_negative need)

-- One round of the loop of `begin_op`: after a wakeup it is called again.
unfoldable pub begin_op : Log → Outcome
begin_op l =
    if l.readonly
    then Outcome.done l false
    else if l.committing
    then Outcome.sleeps
    else if exceeds l.lh.n l.outstanding
    then Outcome.sleeps
    else Outcome.done (record l { outstanding = add32 l.outstanding 1 }) false

-- `end_op` up to the call of `commit`, which is made where `committing` is set.
unfoldable pub end_op : Log → Outcome
end_op l =
    let left : ℕ = sub32 l.outstanding 1 in
    if l.readonly
    then Outcome.done l false
    else if l.committing
    then Outcome.panics
    else if left == 0
    then Outcome.done (record l { outstanding = left; committing = true }) false
    else Outcome.done (record l { outstanding = left }) true

-- `end_op` after `commit`, which has cleared the header's count.
unfoldable pub end_commit : Log → Outcome
end_commit l =
    Outcome.done (record l { committing = false; lh = record { n = 0; block = l.lh.block } }) true

-- The loop of `log_write`: the index of the block, or the count of the entries.
unfoldable pub find_entry : List ℕ → ℕ → ℕ → ℕ → ℕ
find_entry block zero i b = i
find_entry block (suc k) i b =
    let later = find_entry block k (i + 1) b in if get_or block i 0 == b then i else later

-- The tests of `log_write`, which are made before the lock is taken.
unfoldable pub refuses : Log → Bool
refuses l =
    l.readonly
    || (leb log_size l.lh.n || leb l.size (l.lh.n + 1))
    || (l.outstanding == 0 || is_negative l.outstanding)

-- What `log_write` does under the lock.
unfoldable pub enter : Log → ℕ → Log
enter l b =
    let n = l.lh.n in
    let i = find_entry l.lh.block n 0 b in
    record l { lh = record { n = if i == n then n + 1 else n; block = set l.lh.block i b } }

unfoldable pub log_write : Log → ℕ → Outcome
log_write l b = if refuses l then Outcome.panics else Outcome.done (enter l b) false

find_entry-le :
    (block : List ℕ) (k i b : ℕ) → (i ≤ find_entry block k i b) × (find_entry block k i b ≤ i + k)
unfolding find_entry
find_entry-le block zero i b = omega arith
find_entry-le block (suc k) i b = ground (arith, find_entry-le block k (i + 1) b)

-- The entry that is found holds the block.
find_entry-hit :
    (block : List ℕ) (k i b : ℕ)
    → find_entry block k i b < i + k
    → get_or block (find_entry block k i b) 0 ≡ b
unfolding find_entry
find_entry-hit block zero i b h = absurd (omega arith)
find_entry-hit block (suc k) i b h = elim (Bool-cases (get_or block i 0 == b)) [
  | inl e ↦ rw e ((==_iff (get_or block i 0) b).0 e)
  | inr e ↦ rw e (find_entry-hit block k (i + 1) b (ground (arith, e)))
]

-- What a successful `log_write` did: the block is an entry, every earlier entry still stands, and
-- the count grew by one at most.
pub record Entered (l l' : Log) (b : ℕ) : Type 0 where
  pub index : ℕ
  pub index_in : index < l'.lh.n
  pub count : (l'.lh.n ≡ l.lh.n) ⊎ ((l'.lh.n ≡ l.lh.n + 1) × (index ≡ l.lh.n))
  pub block : l'.lh.block ≡ set l.lh.block index b
  pub kept : (index < l.lh.n) → get_or l.lh.block index 0 ≡ b
  pub room : (l.lh.n < log_size) × (l.lh.n + 1 < l.size)
  pub active : (l.outstanding ≢ 0) × (l.readonly ≡ false)
  pub others :
      (l'.start ≡ l.start)
      × (l'.size ≡ l.size)
      × (l'.outstanding ≡ l.outstanding)
      × (l'.committing ≡ l.committing)
      × (l'.readonly ≡ l.readonly)

pub log_write-Entered :
    (l : Log) (b : ℕ) {l' : Log} {w : Bool} → log_write l b ≡ Outcome.done l' w → Entered l l' b
unfolding log_write refuses enter
log_write-Entered l b {l'} {w} h =
    let i = find_entry l.lh.block l.lh.n 0 b in
    let r = find_entry-le l.lh.block l.lh.n 0 b in
    record {
      index = find_entry l.lh.block l.lh.n 0 b;
      index_in = ground (arith, r);
      count = ground (arith, r);
      block = ground arith;
      kept = λ q. find_entry-hit l.lh.block l.lh.n 0 b (omega arith);
      room = ground arith;
      active = ground arith;
      others = ground arith;
    }

-- The block is an entry of the header.
abbrev pub IsEntry : Header → ℕ → Type 0
IsEntry h b = (i : ℕ) × (i < h.n) × (get_or h.block i 0 ≡ b)

find_entry-lt :
    (block : List ℕ) (k i b j : ℕ)
    → i ≤ j
    → j < i + k
    → get_or block j 0 ≡ b
    → find_entry block k i b < i + k
unfolding find_entry
find_entry-lt block zero i b j lo hi e = absurd (omega (arith, lo, hi))
find_entry-lt block (suc k) i b j lo hi e = elim (Bool-cases (get_or block i 0 == b)) [
  | inl q ↦ rw q (omega arith)
  | inr q ↦
      let past : i ≢ j = λ w. cc (sym q ∙ eq_test (ap (λ i. get_or block i 0) w ∙ e)) in
      rw q (
        omega (
          arith,
          find_entry-lt block k (i + 1) b j (omega (arith, lo, past)) (omega (arith, hi)) e,
        ))
]

-- `enter` adds no entry for a block that has one, and one at most for another.
pub enter-count :
    (l : Log) (b : ℕ)
    → ((enter l b).lh.n ≤ l.lh.n + 1) × (IsEntry l.lh b → (enter l b).lh.n ≡ l.lh.n)
unfolding enter
enter-count l b = (
  ground arith,
  λ (j, lt, e).
      let q = find_entry-lt l.lh.block l.lh.n 0 b j (omega arith) (omega (arith, lt)) e in
      ground (arith, q),
)

pub enter-others :
    (l : Log) (b : ℕ)
    → let l' = enter l b in
      (l'.size ≡ l.size)
      × (l'.outstanding ≡ l.outstanding)
      × (l'.committing ≡ l.committing)
      × (l'.readonly ≡ l.readonly)
      × (length l'.lh.block ≡ length l.lh.block)
unfolding enter
enter-others l b =
    (refl, refl, refl, refl, length-set l.lh.block (find_entry l.lh.block l.lh.n 0 b) b)

-- After `enter` the block and the blocks before it are entries.
pub enter-IsEntry :
    (l : Log) (b q : ℕ)
    → l.lh.n < length l.lh.block
    → (IsEntry l.lh q) ⊎ (q ≡ b)
    → IsEntry (enter l b).lh q
unfolding enter
enter-IsEntry l b q room h =
    let n = l.lh.n in
    let i = find_entry l.lh.block n 0 b in
    let r = find_entry-le l.lh.block n 0 b in
    elim h [
      | inr e ↦
          (i, ground (arith, r), get_or-set_self l.lh.block i b 0 (omega (arith, r, room)) ∙ sym e)
      | inl (j, lt, e) ↦ elim (Bool-cases (i == j)) [
        | inl same ↦
            let at : i ≡ j = test_eq same in
            (
              i,
              ground (arith, r),
              get_or-set_self l.lh.block i b 0 (omega (arith, r, room))
                  ∙ sym (find_entry-hit l.lh.block n 0 b (omega (arith, at, lt)))
                  ∙ ap (λ i. get_or l.lh.block i 0) at
                  ∙ e,
            )
        | inr other ↦ (j, ground (arith, lt), get_or-set_ne l.lh.block b 0 (test_ne other) ∙ e)
      ]
    ]
