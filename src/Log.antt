-- ===== src/Log.antt =====
-- kern/log.c: the redo log of the native file system.
-- A block is its 128 words of 32 bits, so that the header block is read as `struct logheader`. `cache`
-- is what `bread` gives for each block of the device; a block that `log_write` has pinned differs from
-- the disk, every other block of the cache is a copy of it. A stretch of code returns the new cache
-- with the list of its `bwrite`s in the order in which they reach the disk: a crash keeps a prefix.
pub mod View
pub mod Install
pub mod Copy
pub mod Writes
pub mod Commit
pub mod Crash
pub mod Atomic
pub mod Boot
pub mod Cycle
pub mod Ops
pub mod Calls
pub mod Space
pub mod Several
mod Examples
use openproninx.Base.{
  ℕ, zero, suc, ◌+◌, ◌-◌, ◌*◌, ◌^◌, Bool, true, false, not, ◌&&◌, ◌||◌, Option, none, some, List,
  [], ◌∷◌, ◌++◌, ◌==◌, ltb, leb, if◌then◌else◌, get_or, set,
}

abbrev pub Block : Type 0
Block = List ℕ

-- The blocks of the device, on the disk or as the buffer cache shows them.
abbrev pub Blocks : Type 0
Blocks = ℕ → Block

abbrev pub Write : Type 0
Write = ℕ × Block

abbrev pub store : Blocks → ℕ → Block → Blocks
store f b x q = if b == q then x else f q

-- The disk after a list of writes.
abbrev pub apply : Blocks → List Write → Blocks
apply d [] = d
apply d ((b, x) ∷ ws) = apply (store d b x) ws

abbrev pub log_size : ℕ
log_size = 30

abbrev pub max_op_blocks : ℕ
max_op_blocks = 10

-- `struct logheader`
pub record Header : Type 0 where
  pub n : ℕ
  pub block : List ℕ

-- `for (i = 0; i < n; i++)` at an `int`: a word with its sign bit set is negative.
abbrev pub rounds : ℕ → ℕ
rounds n = if ltb n (2 ^ 31) then n else 0

-- `to[i + to_off] = from[i + from_off]`, for the next `k` values of `i`.
pub copy_words : ℕ → ℕ → List ℕ → ℕ → List ℕ → ℕ → List ℕ
copy_words zero i from from_off to to_off = to
copy_words (suc k) i from from_off to to_off =
    copy_words k (i + 1) from from_off (set to (i + to_off) (get_or from (i + from_off) 0)) to_off

module _ (start : ℕ) where
  -- The loop of `install_trans`.
  pub install_from : List ℕ → ℕ → ℕ → Blocks → Blocks × List Write
  install_from block zero tail c = (c, [])
  install_from block (suc k) tail c =
      let dst = get_or block tail 0 in
      let c' : Blocks = store c dst (c (start + tail + 1)) in
      let rest = install_from block k (tail + 1) c' in (rest.0, (dst, c' dst) ∷ rest.1)

  pub install_trans : Header → Blocks → Blocks × List Write
  install_trans lh c = install_from lh.block (rounds lh.n) 0 c

  -- The header in memory before it is read is `lh`: the entries from `n` on stay.
  pub read_head : Header → Blocks → Header
  read_head lh c =
      let n = get_or (c start) 0 0 in
      record { n = n; block = copy_words (rounds n) 0 (c start) 1 lh.block 0 }

  pub write_head : Header → Blocks → Blocks × List Write
  write_head lh c =
      let hb = copy_words (rounds lh.n) 0 lh.block 0 (set (c start) 0 lh.n) 1 in
      (store c start hb, (start, hb) ∷ [])

  -- The loop of `write_log`.
  pub write_log_from : List ℕ → ℕ → ℕ → Blocks → Blocks × List Write
  write_log_from block zero tail c = (c, [])
  write_log_from block (suc k) tail c =
      let to = start + tail + 1 in
      let c' : Blocks = store c to (c (get_or block tail 0)) in
      let rest = write_log_from block k (tail + 1) c' in (rest.0, (to, c' to) ∷ rest.1)

  pub write_log : Header → Blocks → Blocks × List Write
  write_log lh c = write_log_from lh.block (rounds lh.n) 0 c

  -- `commit`: the header, the cache and the writes.
  pub commit : Header → Blocks → Header × Blocks × List Write
  commit lh c =
      if rounds lh.n == 0
      then (lh, c, [])
      else (let (c1, w1) = write_log lh c in
          let (c2, w2) = write_head lh c1 in
          let (c3, w3) = install_trans lh c2 in
          let lh' : Header = record lh { n = 0 } in
          let (c4, w4) = write_head lh' c3 in (lh', c4, w1 ++ (w2 ++ (w3 ++ w4))))

  -- `recover_from_log`, after a boot.
  pub recover_from_log : Header → Blocks → Header × Blocks × List Write
  recover_from_log lh c =
      let lh1 = read_head lh c in
      let (c1, w1) = install_trans lh1 c in
      let lh2 : Header = record lh1 { n = 0 } in
      let (c2, w2) = write_head lh2 c1 in (lh2, c2, w1 ++ w2)
