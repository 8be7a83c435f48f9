-- ===== src/Ufs2/Geometry.antt =====
-- kern/ufs2.c: where the structures of a volume lie, and the checks of the superblock.
use openproninx.Base.{
  ℕ, ◌+◌, ◌-◌, ◌/◌, ◌%◌, ◌^◌, Bool, not, ◌&&◌, ◌||◌, Option, none, some, List, ◌==◌, ltb, leb,
  if◌then◌else◌, add64, mul64, u64_mod,
}
use Prim.Native.Nat.{bit_and}
use openproninx.BlockDev
use openproninx.BlockDev.{BlockDev, Disk}
use openproninx.Ufs2.{Volume, M, pure, ◌>>=◌, ◌>>◌, refuse, of_option, read_m}
use openproninx.Ufs2.Codec.{read_le, dinode_size}

-- `~(uint64_t)0`
abbrev pub max64 : ℕ
max64 = u64_mod - 1

-- `ufs2_inode_offset`
unfoldable pub inode_offset : Volume → ℕ → Option ℕ
inode_offset v inode_number =
    let group = inode_number / v.inodes_per_group in
    let index = inode_number % v.inodes_per_group in
    let fragment = mul64 group v.fragments_per_group in
    let inner = mul64 (index / v.inodes_per_block) v.fragments_per_block in
    let fragment' = add64 fragment (add64 v.inode_table_fragment inner) in
    let slot = mul64 (index % v.inodes_per_block) dinode_size in
    if v.inodes_per_group == 0 || leb v.cylinder_groups group
    then none
    else if v.inodes_per_block == 0 || v.fragment_size == 0
    then none
    else if ltb (max64 - v.inode_table_fragment) fragment
        || ltb (max64 - fragment - v.inode_table_fragment) inner
    then none
    else if ltb (max64 / v.fragment_size) fragment'
        || ltb (max64 - mul64 fragment' v.fragment_size) slot
    then none
    else some (add64 (mul64 fragment' v.fragment_size) slot)

-- `power_of_two`
unfoldable pub power_of_two : ℕ → Bool
power_of_two value = not (value == 0) && bit_and value (value - 1) == 0

abbrev pub superblock_offset : ℕ
superblock_offset = 65_536

abbrev pub superblock_size : ℕ
superblock_size = 8192

abbrev pub ufs2_magic : ℕ
ufs2_magic = 0x1954_0119

abbrev pub cg_header_size : ℕ
cg_header_size = 128

abbrev pub cg_magic : ℕ
cg_magic = 0x0009_0255

-- The test of `ufs2_probe` on the numbers of a superblock whose magic number is right.
unfoldable pub bad_superblock : List ℕ → Bool
bad_superblock sb =
    let block_size = read_le 4 sb 48 in
    let fragment_size = read_le 4 sb 52 in
    let fragments = read_le 4 sb 56 in
    let inodes_per_block = read_le 4 sb 120 in
    not (power_of_two block_size)
    || (ltb block_size 4096
        || (ltb 65_536 block_size
            || (not (power_of_two fragment_size)
                || (ltb fragment_size BlockDev.sector_size
                    || (ltb block_size fragment_size
                        || (not (fragments == block_size / fragment_size)
                            || (not (power_of_two fragments)
                                || (inodes_per_block == 0
                                    || (not (inodes_per_block == block_size / dinode_size)
                                        || (read_le 4 sb 44 == 0
                                            || (read_le 4 sb 184 == 0
                                                || (read_le 4 sb 188 == 0
                                                    || (ltb (read_le 4 sb 160) cg_header_size
                                                        || (leb (2 ^ 31) (read_le 4 sb 8)
                                                            || leb (2 ^ 31)
                                                            (read_le 4 sb 12)))))))))))))))

-- `ufs2_probe`
unfoldable pub probe : BlockDev → Disk → Option Volume
probe device d = elim (BlockDev.read device d superblock_offset superblock_size) [
  | none ↦ none
  | some sb ↦
      if not (read_le 4 sb 1372 == ufs2_magic)
      then none
      else if bad_superblock sb
      then none
      else some (record {
        device = device;
        block_size = read_le 4 sb 48;
        fragment_size = read_le 4 sb 52;
        fragments_per_block = read_le 4 sb 56;
        cylinder_groups = read_le 4 sb 44;
        inodes_per_group = read_le 4 sb 184;
        fragments_per_group = read_le 4 sb 188;
        inodes_per_block = read_le 4 sb 120;
        inode_table_fragment = read_le 4 sb 8;
        cylinder_group_block = read_le 4 sb 12;
        cylinder_group_size = read_le 4 sb 160;
      })
]

-- `ufs2_cg_offset`
unfoldable pub cg_offset : Volume → ℕ → Option ℕ
cg_offset v group =
    let fragment = mul64 group v.fragments_per_group in
    let fragment' = add64 fragment v.cylinder_group_block in
    if v.fragment_size == 0 || leb v.cylinder_groups group
    then none
    else if ltb (max64 - v.cylinder_group_block) fragment
    then none
    else if ltb (max64 / v.fragment_size) fragment'
    then none
    else some (mul64 fragment' v.fragment_size)

-- The header of a cylinder group, if it is the right one.
abbrev pub header_at : Volume → ℕ → ℕ → M (ℕ × List ℕ)
header_at v group offset = read_m v offset cg_header_size >>= λ header.
    refuse (not (read_le 4 header 4 == cg_magic) || not (read_le 4 header 12 == group))
    >> pure (offset, header)

-- The header of a cylinder group, with its offset.
unfoldable pub cg_header : Volume → ℕ → M (ℕ × List ℕ)
cg_header v group =
    refuse (leb v.cylinder_groups group) >> (of_option (cg_offset v group) >>= header_at v group)

-- The test of `ufs2_cg_free_map` on the header's numbers.
abbrev pub bad_free_map : Volume → ℕ → ℕ → Bool
bad_free_map v entries freeoff =
    entries == 0
    || (ltb v.fragments_per_group entries
        || (ltb freeoff cg_header_size
            || (ltb v.cylinder_group_size freeoff
                || ltb (v.cylinder_group_size - freeoff) ((entries + 7) % 2 ^ 32 / 8))))

-- `ufs2_cg_free_map` after it has read the header.
abbrev pub free_map_of : Volume → ℕ → List ℕ → M (ℕ × ℕ)
free_map_of v offset header =
    let entries = read_le 4 header 20 in
    let freeoff = read_le 4 header 96 in
    refuse (bad_free_map v entries freeoff)
    >> (refuse (ltb (max64 - freeoff) offset) >> pure (add64 offset freeoff, entries))

-- `ufs2_cg_free_map`: the offset of the map and its number of entries.
unfoldable pub cg_free_map : Volume → ℕ → M (ℕ × ℕ)
cg_free_map v group = cg_header v group >>= λ p. free_map_of v p.0 p.1

-- `ufs2_cg_inode_map`
unfoldable pub cg_inode_map : Volume → ℕ → M ℕ
cg_inode_map v group = do
  (offset, header) ← cg_header v group
  let iusedoff = read_le 4 header 92
  refuse (
      ltb iusedoff cg_header_size
      || (ltb v.cylinder_group_size iusedoff
          || ltb (v.cylinder_group_size - iusedoff) ((v.inodes_per_group + 7) % 2 ^ 32 / 8)))
  refuse (ltb (max64 - iusedoff) offset)
  pure (add64 offset iusedoff)
