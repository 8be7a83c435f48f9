-- ===== src/Ufs2/MapExamples.antt =====
-- kern/ufs2.c: the maps of a group at a concrete volume.
use openproninx.Base.{
  ℕ, ◌+◌, ◌%◌, ◌≡◌, ◌⊎◌, refl, ap, some, List, [], ◌∷◌, ◌++◌, ◌==◌, if◌then◌else◌, arith, get_or,
  replicate,
}
use Prim.Native.Nat.{bit_and}
use openproninx.BlockDev
use openproninx.BlockDev.{Disk}
use openproninx.Ufs2.{read_m, write_m}
use openproninx.Ufs2.Codec.{read_le, write_le}
use openproninx.Ufs2.Geometry.{inode_offset, cg_offset, cg_header, cg_inode_map, cg_free_map}
use openproninx.Ufs2.Inodes.{read_inode, initialize_inode, initial_bytes, new_inode}
use openproninx.Ufs2.Reserve.{
  ifmt, ifreg, ifdir, scan_inodes, scan_inode_groups, alloc_inode, Reserved,
}
use openproninx.Ufs2.Blocks.{
  set_fragment, all_free, mark, scan_blocks, scan_block_groups, alloc_block, free_block, free_from,
}
use openproninx.Ufs2.NewBlock.{NewBlock, alloc_block-NewBlock}
use openproninx.Ufs2.Mark.{AreBytes}
use openproninx.Ufs2.NewInode.{alloc_inode-new}
use openproninx.Ufs2.Examples.{volume, device-IsVolume, volume-IsGeometry}

-- The header of group 0 with the map of used inodes at its byte 200: the inodes 0, 1 and 2 are used.
abbrev inode_sector : List ℕ
inode_sector =
    replicate 4 0
    ++ (0x55 ∷ 0x02 ∷ 0x09 ∷ 0 ∷ (replicate 84 0 ++ (200 ∷ (replicate 107 0 ++ (7 ∷ [])))))

abbrev inode_disk : Disk
inode_disk dev lba k = if lba == 108 then get_or inode_sector k 0 % 256 else 0

inode_map_found : (cg_inode_map volume 0 inode_disk).0 ≡ some (4096 + 200)
unfolding cg_inode_map cg_header cg_offset read_m BlockDev.read BlockDev.read_loop
    BlockDev.out_of_range read_le
inode_map_found = refl

inode_found : (alloc_inode volume 0x81a4 inode_disk).0 ≡ some 3
unfolding inode_map_found alloc_inode scan_inode_groups scan_inodes initialize_inode initial_bytes
    inode_offset write_le write_m BlockDev.write BlockDev.write_loop
inode_found = refl

slot_3 : inode_offset volume 3 ≡ some 8960
unfolding inode_offset
slot_3 = refl

alloc_inode-new_example :
    let d' = (alloc_inode volume 0x81a4 inode_disk).1 in
    ((bit_and 0x81a4 ifmt ≡ ifreg) ⊎ (bit_and 0x81a4 ifmt ≡ ifdir))
    × Reserved volume 0x81a4 inode_disk 3 d'
    × ((read_inode volume 3 d').0 ≡ some (new_inode 0x81a4))
alloc_inode-new_example =
    alloc_inode-new volume 0x81a4 8960 inode_disk {n = 3}
      {d' = (alloc_inode volume 0x81a4 inode_disk).1} device-IsVolume (omega arith)
      (ap (λ r. (r, (alloc_inode volume 0x81a4 inode_disk).1)) inode_found) slot_3 (omega arith)

-- The header of group 0 with its free map: the fragments 4 to 7, one block, are free.
abbrev block_sector : List ℕ
block_sector =
    replicate 4 0
    ++ (0x55
        ∷ 0x02
        ∷ 0x09
        ∷ 0
        ∷ (replicate 12 0 ++ (64 ∷ (replicate 75 0 ++ (128 ∷ (replicate 31 0 ++ (240 ∷ [])))))))

abbrev block_disk : Disk
block_disk dev lba k = if lba == 108 then get_or block_sector k 0 % 256 else 0

block_map_found : (cg_free_map volume 0 block_disk).0 ≡ some (4096 + 128, 64)
unfolding cg_free_map cg_header cg_offset read_m BlockDev.read BlockDev.read_loop
    BlockDev.out_of_range read_le
block_map_found = refl

block_found : (alloc_block volume block_disk).0 ≡ some 4
unfolding block_map_found alloc_block scan_block_groups scan_blocks all_free mark set_fragment
    write_m BlockDev.write BlockDev.write_loop
block_found = refl

block_disk-AreBytes : AreBytes volume block_disk
block_disk-AreBytes o = ground arith

alloc_block-NewBlock_example : NewBlock volume block_disk 4 (alloc_block volume block_disk).1
alloc_block-NewBlock_example =
    alloc_block-NewBlock volume block_disk {f = 4} {d' = (alloc_block volume block_disk).1}
      device-IsVolume volume-IsGeometry (omega arith) block_disk-AreBytes
      (ap (λ r. (r, (alloc_block volume block_disk).1)) block_found)

-- The block is given back.
block_freed : (free_block volume 4 (alloc_block volume block_disk).1).0 ≡ some tt
unfolding block_found free_block free_from
block_freed = refl
