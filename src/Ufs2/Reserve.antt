-- ===== src/Ufs2/Reserve.antt =====
-- kern/ufs2.c: `ufs2_alloc_inode` and `ufs2_free_inode` on the map of used inodes.
use openproninx.Base.{
  ℕ, zero, suc, ◌+◌, ◌/◌, ◌%◌, ◌≤◌, ◌<◌, ◌≡◌, true, false, not, ◌&&◌, ◌||◌, Option, none, some,
  List, [], ◌∷◌, ◌==◌, ltb, if◌then◌else◌, get_or, replicate, add32, mul32, add64,
}
use Prim.Native.Nat.{bit_and}
use openproninx.BlockDev
use openproninx.BlockDev.{BlockDev, Disk}
use openproninx.Ufs2.{Volume, M, ◌>>=◌, ◌>>◌, refuse, of_option, read_m, write_m}
use openproninx.Ufs2.Codec.{dinode_size}
use openproninx.Ufs2.Geometry.{inode_offset, cg_inode_map}
use openproninx.Ufs2.Inodes.{initialize_inode}
use openproninx.Ufs2.Fragments.{has_bit, without_bit, with_bit}

-- `UFS2_ROOT_INO`
abbrev pub root_ino : ℕ
root_ino = 2

-- `UFS2_IFMT`, `UFS2_IFREG` and `UFS2_IFDIR`
abbrev pub ifmt : ℕ
ifmt = 61_440

abbrev pub ifreg : ℕ
ifreg = 32_768

abbrev pub ifdir : ℕ
ifdir = 16_384

-- The inode of a bit of the map of a group.
abbrev pub inode_number : Volume → ℕ → ℕ → ℕ
inode_number v group bit = add32 (mul32 group v.inodes_per_group) bit

-- The end of `ufs2_alloc_inode` once the bit is set on the disk: a failure takes it back.
abbrev pub finish_inode : Volume → ℕ → ℕ → ℕ → ℕ → ℕ → Disk → Option ℕ × Disk
finish_inode v mode number at bit value d = elim (initialize_inode v number mode d).0 [
  | some _ ↦ (some number, (initialize_inode v number mode d).1)
  | none ↦ (
    none,
    (BlockDev.write v.device (initialize_inode v number mode d).1 at
        (without_bit value bit ∷ [])).1,
  )
]

-- The loop of `ufs2_alloc_inode` over the inodes of one group, the next `k` from `bit` on: `none` where it
-- goes on to the next group.
unfoldable pub scan_inodes : ℕ → Volume → ℕ → ℕ → ℕ → ℕ → Disk → Option (Option ℕ × Disk)
scan_inodes zero v mode group map bit d = none
scan_inodes (suc k) v mode group map bit d =
    let later = scan_inodes k v mode group map (bit + 1) d in
    let number = inode_number v group bit in
    let at = add64 map (bit / 8) in
    if ltb number root_ino then later else elim (BlockDev.read v.device d at 1) [
      | none ↦ some (none, d)
      | some bytes ↦
          let value = get_or bytes 0 0 in
          let (ok, d1) = BlockDev.write v.device d at (with_bit value bit ∷ []) in
          if has_bit value bit
          then later
          else some
              (if ok then finish_inode v mode number at bit (with_bit value bit) d1 else (none, d1))
    ]

-- The loop over the next `k` groups.
unfoldable pub scan_inode_groups : ℕ → Volume → ℕ → ℕ → M ℕ
scan_inode_groups zero v mode group d = (none, d)
scan_inode_groups (suc k) v mode group d =
    let later = scan_inode_groups k v mode (group + 1) d in
    elim (cg_inode_map v group d).0 [
      | none ↦ later
      | some map ↦ elim (scan_inodes v.inodes_per_group v mode group map 0 d) [
        | none ↦ later
        | some result ↦ result
      ]
    ]

-- `ufs2_alloc_inode`
unfoldable pub alloc_inode : Volume → ℕ → M ℕ
alloc_inode v mode =
    refuse (not (bit_and mode ifmt == ifreg) && not (bit_and mode ifmt == ifdir))
    >> scan_inode_groups v.cylinder_groups v mode 0

-- `ufs2_free_inode`
unfoldable pub free_inode : Volume → ℕ → M (Unit {0})
free_inode v n =
    let bit = n % v.inodes_per_group in
    refuse (ltb n root_ino || v.inodes_per_group == 0)
    >> (of_option (inode_offset v n) >>= λ o. cg_inode_map v (n / v.inodes_per_group) >>= λ map.
        read_m v (add64 map (bit / 8)) 1 >>= λ bytes.
        refuse (not (has_bit (get_or bytes 0 0) bit))
        >> write_m v o (replicate dinode_size 0)
        >> write_m v (add64 map (bit / 8)) (without_bit (get_or bytes 0 0) bit ∷ []))

-- An inode was reserved: its bit in the map of a group was clear and is set, and the inode is initialised.
pub record Reserved (v : Volume) (mode : ℕ) (d : Disk) (n : ℕ) (d' : Disk) : Type 0 where
  pub group : ℕ
  pub map : ℕ
  pub bit : ℕ
  pub bytes : List ℕ
  pub marked : Disk
  pub group_in : group < v.cylinder_groups
  pub map_there : (cg_inode_map v group d).0 ≡ some map
  pub bit_in : bit < v.inodes_per_group
  pub number : n ≡ inode_number v group bit
  pub above_root : root_ino ≤ n
  pub was : BlockDev.read v.device d (add64 map (bit / 8)) 1 ≡ some bytes
  pub was_free : has_bit (get_or bytes 0 0) bit ≡ false
  pub mark :
      BlockDev.write v.device d (add64 map (bit / 8)) (with_bit (get_or bytes 0 0) bit ∷ [])
      ≡ (true, marked)
  pub now : d' ≡ (initialize_inode v n mode marked).1
