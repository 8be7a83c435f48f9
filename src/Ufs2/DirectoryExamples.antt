-- ===== src/Ufs2/DirectoryExamples.antt =====
-- kern/ufs2.c: a root directory with two names.
use openproninx.Base.{
  ℕ, ◌≡◌, refl, some, List, [], ◌∷◌, ◌++◌, ◌==◌, if◌then◌else◌, arith, get_or, replicate,
}
use openproninx.BlockDev
use openproninx.BlockDev.{Disk}
use openproninx.Ufs2.{read_m}
use openproninx.Ufs2.Codec.{read_le, read_addresses, decode}
use openproninx.Ufs2.Geometry.{inode_offset}
use openproninx.Ufs2.Inodes.{read_inode}
use openproninx.Ufs2.Files
use openproninx.Ufs2.Directory.{
  lookup, lookup_from, lookup_block, readdir, readdir_from, readdir_block,
}
use openproninx.Ufs2.Listing.{lookup-readdir}
use openproninx.Ufs2.Examples.{volume}

-- The inode 2: a directory of 512 bytes whose first block is the fragment 40.
abbrev root_sector : List ℕ
root_sector = 0 ∷ 0x40 ∷ 2 ∷ 0 ∷ (replicate 12 0 ++ (0 ∷ 2 ∷ (replicate 94 0 ++ (40 ∷ []))))

-- The names "." and "a".
abbrev names_sector : List ℕ
names_sector =
    2 ∷ 0 ∷ 0 ∷ 0 ∷ 12 ∷ 0 ∷ 4 ∷ 1 ∷ 46 ∷ 0 ∷ 0 ∷ 0 ∷ 5 ∷ 0 ∷ 0 ∷ 0 ∷ 0xf4 ∷ 1 ∷ 8 ∷ 1 ∷ 97 ∷ []

abbrev root_disk : Disk
root_disk dev lba k =
    if lba == 117 then get_or root_sector k 0 else if lba == 180 then get_or names_sector k 0 else 0

name_found : lookup volume 2 (97 ∷ []) root_disk ≡ (some 5, root_disk)
unfolding lookup lookup_from lookup_block read_inode inode_offset decode read_addresses read_le
    read_m BlockDev.read BlockDev.read_loop BlockDev.out_of_range Files.read Files.read_from
    Files.disk_offset Files.block_address
name_found = refl

name_listed : (readdir volume 2 1 16 root_disk).0 ≡ some (5, 97 ∷ [])
unfolding name_found readdir readdir_from readdir_block
name_listed = refl

lookup-readdir_example :
    (index : ℕ) × (readdir volume 2 index 16 root_disk ≡ (some (5, 97 ∷ []), root_disk))
lookup-readdir_example = lookup-readdir volume 2 (97 ∷ []) 16 root_disk (omega arith) name_found
