-- ===== src/BlockDev.antt =====
-- kern/blockdev.c: byte ranges of a volume over the sectors of a device.
-- The sectors stand for what `bread` shows of them, since a buffer is written before it is released;
-- a sector is its 512 bytes by index. `bwrite` of a buffer is the write of its sector.
pub mod Bytes
pub mod Read
pub mod Write
mod Examples
use openproninx.Base.{
  ℕ, zero, suc, ◌+◌, ◌-◌, ◌*◌, ◌/◌, ◌%◌, ◌^◌, Bool, true, false, not, ◌&&◌, ◌||◌, Option, none,
  some, List, [], ◌∷◌, ◌++◌, ◌==◌, ltb, leb, if◌then◌else◌, get_or, take, drop, length, add64,
  mul64, u64_mod,
}

abbrev pub sector_size : ℕ
sector_size = 512

abbrev pub Sector : Type 0
Sector = ℕ → ℕ

-- The sectors of all devices: by device and sector number.
abbrev pub Disk : Type 0
Disk = ℕ → ℕ → Sector

-- `struct blockdev`
pub record BlockDev : Type 0 where
  pub device : ℕ
  pub first_lba : ℕ
  pub sector_count : ℕ

-- The `n` bytes of a sector from index `i` on.
abbrev pub sector_bytes : Sector → ℕ → ℕ → List ℕ
sector_bytes s i zero = []
sector_bytes s i (suc n) = s i ∷ sector_bytes s (i + 1) n

-- `memmove(buffer->data + i, src, count)` with the first `n` bytes of the source.
abbrev pub patch : Sector → ℕ → ℕ → List ℕ → Sector
patch s i n src k = if leb i k && ltb k (i + n) then get_or src (k - i) 0 else s k

abbrev pub put_sector : Disk → ℕ → ℕ → Sector → Disk
put_sector d dev lba s dev' lba' = if dev == dev' && lba == lba' then s else d dev' lba'

-- The bytes of this round of the loop: up to the end of the sector, or of the request.
abbrev pub round_count : ℕ → ℕ → ℕ
round_count offset length =
    let count : ℕ = sector_size - offset % sector_size in if ltb length count then length else count

-- The guards before the loops.
unfoldable pub out_of_range : BlockDev → ℕ → ℕ → Bool
out_of_range v offset length =
    ltb ((u64_mod - 1) / sector_size) v.sector_count
    || (ltb (mul64 v.sector_count sector_size) offset
        || ltb (mul64 v.sector_count sector_size - offset) length)

-- The loop of `blockdev_read`, with fuel for more rounds than there are bytes.
unfoldable pub read_loop : ℕ → BlockDev → Disk → ℕ → ℕ → Option (List ℕ)
read_loop zero v d offset length = none
read_loop (suc fuel) v d offset length =
    let count = round_count offset length in
    let lba = add64 v.first_lba (offset / sector_size) in
    let rest = read_loop fuel v d (add64 offset count) (length - count) in
    if length == 0 then some [] else if ltb 0xffff_ffff lba then none else elim rest [
      | none ↦ none
      | some bytes ↦ some (sector_bytes (d v.device lba) (offset % sector_size) count ++ bytes)
    ]

-- `blockdev_read`: the bytes that it stores, or -1.
unfoldable pub read : BlockDev → Disk → ℕ → ℕ → Option (List ℕ)
read v d offset length =
    if out_of_range v offset length then none else read_loop (length + 1) v d offset length

-- The loop of `blockdev_write`: whether it succeeds, and the sectors. What was written before a failure
-- stays written.
unfoldable pub write_loop : ℕ → BlockDev → Disk → ℕ → List ℕ → Bool × Disk
write_loop zero v d offset src = (false, d)
write_loop (suc fuel) v d offset src =
    let count = round_count offset (length src) in
    let lba = add64 v.first_lba (offset / sector_size) in
    let s = patch (d v.device lba) (offset % sector_size) count src in
    let rest =
      write_loop fuel v (put_sector d v.device lba s) (add64 offset count) (drop count src) in
    if length src == 0 then (true, d) else if ltb 0xffff_ffff lba then (false, d) else rest

-- `blockdev_write`
unfoldable pub write : BlockDev → Disk → ℕ → List ℕ → Bool × Disk
write v d offset src =
    if out_of_range v offset (length src)
    then (false, d)
    else write_loop (length src + 1) v d offset src
