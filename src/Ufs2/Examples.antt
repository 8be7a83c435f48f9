-- ===== src/Ufs2/Examples.antt =====
-- The theorems on kern/ufs2.c at a concrete volume, and tests of the model.
use openproninx.Base.{
  Bool, ◌%◌, ap, List, ◌++◌, get_or, ◌≤◌, ℕ, zero, suc, ◌<◌, ◌≡◌, ◌+◌, refl, true, false, none,
  some, [], ◌∷◌, ◌*◌, ◌==◌, if◌then◌else◌, arith, replicate,
}
use openproninx.BlockDev
use openproninx.BlockDev.{Disk}
use openproninx.BlockDev.Bytes.{byte_at, IsVolume}
use openproninx.Ufs2.{Volume, Inode, read_m}
use openproninx.Ufs2.Fields.{IsInode}
use openproninx.Ufs2.Geometry.{inode_offset, power_of_two, cg_offset, cg_free_map, cg_header}
use openproninx.Ufs2.Codec.{read_le}
use openproninx.Ufs2.Fragments.{alloc_fragment, free_fragment, scan_groups, scan_bits}
use openproninx.Ufs2.Files.{block_address, write_existing}
use openproninx.Ufs2.Chunk.{IsApart, Overwritten}
use openproninx.Ufs2.Refund.{IsGeometry, free_fragment-alloc_fragment}
use openproninx.Ufs2.Overwrite.{write_existing-Overwritten}
use openproninx.Ufs2.Contents.{IsMapped}
use openproninx.Ufs2.Inodes.{read_inode, write_inode, read_inode-write_inode}

-- Blocks of 4096 bytes in fragments of 1024, two groups of 64 fragments.
abbrev pub volume : Volume
volume = record {
  device = record { device = 1; first_lba = 100; sector_count = 256 };
  block_size = 4096;
  fragment_size = 1024;
  fragments_per_block = 4;
  cylinder_groups = 2;
  inodes_per_group = 32;
  fragments_per_group = 64;
  inodes_per_block = 16;
  inode_table_fragment = 8;
  cylinder_group_block = 4;
  cylinder_group_size = 1024;
}

abbrev disk : Disk
disk dev lba k = 0

abbrev inode : Inode
inode = record {
  mode = 0x81a4;
  nlink = 2;
  uid = 1000;
  gid = 100;
  size = 70_000;
  direct = 40 ∷ replicate 11 0;
  indirect = 44 ∷ 0 ∷ 0 ∷ [];
}

inode-IsInode : IsInode inode
inode-IsInode = record {
  mode_fits = omega arith;
  nlink_fits = omega arith;
  uid_fits = omega arith;
  gid_fits = omega arith;
  size_fits = omega arith;
  twelve = refl;
  three = refl;
  direct_fits = ground arith;
  indirect_fits = ground arith;
}

pub device-IsVolume : IsVolume volume.device
device-IsVolume = omega arith

-- Inode 33 + 16 is in the second block of the second group's table.
slot : inode_offset volume 49 ≡ some ((64 + 8 + 4) * 1024 + 256)
unfolding inode_offset
slot = refl

no_slot : inode_offset volume 64 ≡ none
unfolding inode_offset
no_slot = refl

group_header : cg_offset volume 1 ≡ some (68 * 1024)
unfolding cg_offset
group_header = refl

powers : (power_of_two 4096 ≡ true) × (power_of_two 4097 ≡ false)
unfolding power_of_two
powers = (refl, refl)

read_inode-write_inode_example :
    ((write_inode volume 49 inode disk).0 ≡ some tt)
    × ((read_inode volume 49 (write_inode volume 49 inode disk).1).0 ≡ some inode)
read_inode-write_inode_example =
    read_inode-write_inode volume device-IsVolume 49 78_080 inode disk inode-IsInode slot
      (omega arith)

-- A file of 6000 bytes in two blocks.
abbrev file : Inode
file = record {
  mode = 0x81a4;
  nlink = 1;
  uid = 0;
  gid = 0;
  size = 6000;
  direct = 40 ∷ 48 ∷ replicate 10 0;
  indirect = replicate 3 0;
}

abbrev file_address : ℕ → ℕ
file_address b = if b == 0 then 40 else 48

file_addresses :
    (b : ℕ) → b * 4096 < 6000 → block_address volume file b disk ≡ (some (file_address b), disk)
unfolding block_address
file_addresses zero h = refl
file_addresses (suc zero) h = refl
file_addresses (suc (suc b)) h =
    let no : suc (suc b) * 4096 < 6000 → ⊥ = omega arith in elim (no h) [ ]

file_inside : (b : ℕ) → b * 4096 < 6000 → file_address b * 1024 + 4096 ≤ 256 * 512
file_inside b h = ground arith

abbrev file-IsMapped : IsMapped volume file disk 6000
file-IsMapped = record {
  address = file_address;
  some_size = omega arith;
  some_fragment = omega arith;
  short = omega arith;
  no_wrap = omega arith;
  assigned = file_addresses;
  inside = file_inside;
}

file-IsApart : IsApart volume file 6000 file_address
file-IsApart = record {
  blocks = λ b c hb hc ne. ground (arith, ne);
  indirect = λ b h. ground arith;
}

-- A write over both blocks.
write_existing-Overwritten_example :
    let (ok, d') = write_existing volume file 4095 (7 ∷ 8 ∷ 9 ∷ []) disk in
    (ok ≡ some tt)
    × Overwritten volume device-IsVolume file 6000
        (omega arith)
        disk
        file-IsMapped
        4095
        (7 ∷ 8 ∷ 9 ∷ [])
        d'
write_existing-Overwritten_example =
    write_existing-Overwritten volume device-IsVolume file 6000 (omega arith) 4095 (7 ∷ 8 ∷ 9 ∷ [])
      disk file-IsMapped file-IsApart (omega arith) (omega arith)

-- The header of group 0 at byte 4096, with a free map of 64 entries behind it in which the entries 10
-- and 11 are free.
abbrev group_sector : List ℕ
group_sector =
    replicate 4 0
    ++ (0x55
        ∷ 0x02
        ∷ 0x09
        ∷ 0
        ∷ (replicate 12 0 ++ (64 ∷ (replicate 75 0 ++ (128 ∷ (replicate 32 0 ++ (12 ∷ [])))))))

abbrev group_disk : Disk
group_disk dev lba k = if lba == 108 then get_or group_sector k 0 % 256 else 0

map_found : (cg_free_map volume 0 group_disk).0 ≡ some (4096 + 128, 64)
unfolding cg_free_map cg_header cg_offset read_m BlockDev.read BlockDev.read_loop
    BlockDev.out_of_range read_le
map_found = refl

fragment_found : (alloc_fragment volume group_disk).0 ≡ some 10
unfolding map_found alloc_fragment scan_groups scan_bits BlockDev.write BlockDev.write_loop
fragment_found = refl

groups_inside : (g o : ℕ) → g < 2 → cg_offset volume g ≡ some o → o + 1024 ≤ 131_072
unfolding cg_offset
groups_inside zero o h e = ground arith
groups_inside (suc zero) o h e = ground arith
groups_inside (suc (suc g)) o h e = let no : ⊥ = omega arith in elim no [ ]

pub volume-IsGeometry : IsGeometry volume
volume-IsGeometry = record {
  word = omega arith;
  groups = omega arith;
  per_group = omega arith;
  total = omega arith;
  inside = groups_inside;
}

group_disk_bytes : (dev lba k : ℕ) → group_disk dev lba k < 256
group_disk_bytes dev lba k = small (lba == 108) (get_or group_sector k 0)
  where
    small : (b : Bool) (x : ℕ) → (if b then x % 256 else 0) < 256
    small true x = omega arith
    small false x = omega arith

free_fragment-alloc_fragment_example :
    let d' = (alloc_fragment volume group_disk).1 in
    ((free_fragment volume 10 d').0 ≡ some tt)
    × ((o : ℕ)
        → byte_at volume.device (free_fragment volume 10 d').1 o
          ≡ byte_at volume.device group_disk o)
free_fragment-alloc_fragment_example =
    free_fragment-alloc_fragment volume group_disk {f = 10}
      {d' = (alloc_fragment volume group_disk).1} device-IsVolume volume-IsGeometry group_disk_bytes
      (ap (λ r. (r, (alloc_fragment volume group_disk).1)) fragment_found)
