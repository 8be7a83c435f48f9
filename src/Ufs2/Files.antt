-- ===== src/Ufs2/Files.antt =====
-- kern/ufs2.c: `ufs2_block_address`, `ufs2_read_direct`, `ufs2_read` and `ufs2_write_existing`.
use openproninx.Base.{
  ℕ, zero, suc, ◌+◌, ◌-◌, ◌/◌, ◌%◌, ◌||◌, List, [], ◌++◌, ◌==◌, ltb, leb, if◌then◌else◌, get_or,
  length, take, drop, add64, mul64, u32_mod,
}
use openproninx.Ufs2.{Volume, Inode, M, pure, fail, ◌>>=◌, ◌>>◌, refuse, read_m, write_m}
use openproninx.Ufs2.Codec.{read_le, direct_blocks}
use openproninx.Ufs2.Geometry.{max64}

-- `return *address == 0 ? -1 : 0`
abbrev pub assigned : ℕ → M ℕ
assigned address = if address == 0 then fail else pure address

-- `ufs2_block_address`
unfoldable pub block_address : Volume → Inode → ℕ → M ℕ
block_address v i logical_block =
    let inner : ℕ = logical_block - direct_blocks in
    let indirect : ℕ = get_or i.indirect 0 0 in
    if ltb logical_block direct_blocks
    then assigned (get_or i.direct logical_block 0)
    else (refuse (
          leb (v.block_size / 8) inner || (indirect == 0 || ltb (max64 / v.fragment_size) indirect))
        >> (read_m v (add64 (mul64 indirect v.fragment_size) (mul64 inner 8)) 8 >>= λ raw.
            assigned (read_le 8 raw 0)))

-- `ufs2_read_direct`
unfoldable pub read_direct : Volume → Inode → ℕ → ℕ → M (List ℕ)
read_direct v i logical_block length = do
  refuse (leb direct_blocks logical_block || ltb v.block_size length)
  let address : ℕ = get_or i.direct logical_block 0
  refuse (address == 0 || ltb (max64 / v.fragment_size) address)
  read_m v (mul64 address v.fragment_size) length

-- The bytes of this round of the loops: up to the end of the block, or of the request.
abbrev pub block_count : Volume → ℕ → ℕ → ℕ
block_count v offset length =
    let count : ℕ = v.block_size - offset % v.block_size in
    if ltb length count then length else count

-- The place on the volume of an offset of a file.
unfoldable pub disk_offset : Volume → Inode → ℕ → M ℕ
disk_offset v i offset = do
  address ← block_address v i (offset / v.block_size % u32_mod)
  refuse (ltb (max64 / v.fragment_size) address)
  pure (add64 (mul64 address v.fragment_size) (offset % v.block_size))

-- The loop of `ufs2_read`, with fuel for more rounds than there are bytes.
unfoldable pub read_from : ℕ → Volume → Inode → ℕ → ℕ → M (List ℕ)
read_from zero v i offset length = fail
read_from (suc fuel) v i offset length =
    let count = block_count v offset length in
    let rest = read_from fuel v i (add64 offset count) (length - count) in
    if length == 0
    then pure []
    else (disk_offset v i offset >>= λ o.
        read_m v o count >>= λ bytes. rest >>= λ more. pure (bytes ++ more))

-- `ufs2_read`
unfoldable pub read : Volume → Inode → ℕ → ℕ → M (List ℕ)
read v i offset length =
    if ltb i.size offset || ltb (i.size - offset) length
    then fail
    else read_from (length + 1) v i offset length

-- The loop of `ufs2_write_existing`
unfoldable pub write_existing_from : ℕ → Volume → Inode → ℕ → List ℕ → M (Unit {0})
write_existing_from zero v i offset src = fail
write_existing_from (suc fuel) v i offset src =
    let count = block_count v offset (length src) in
    let rest = write_existing_from fuel v i (add64 offset count) (drop count src) in
    if length src == 0
    then pure tt
    else (disk_offset v i offset >>= λ o. write_m v o (take count src) >> rest)

-- `ufs2_write_existing`
unfoldable pub write_existing : Volume → Inode → ℕ → List ℕ → M (Unit {0})
write_existing v i offset src =
    if ltb i.size offset || ltb (i.size - offset) (length src)
    then fail
    else write_existing_from (length src + 1) v i offset src
