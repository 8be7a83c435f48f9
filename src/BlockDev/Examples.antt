-- ===== src/BlockDev/Examples.antt =====
-- The theorems on kern/blockdev.c at a concrete volume, and tests of the model.
use openproninx.Base.{◌+◌, ◌≡◌, refl, none, some, [], ◌∷◌, arith, leb, if◌then◌else◌}
use openproninx.BlockDev
use openproninx.BlockDev.{BlockDev, Disk, read_loop, write_loop, out_of_range}
use openproninx.BlockDev.Bytes.{IsVolume, capacity, bytes_at}
use openproninx.BlockDev.Read.{read-bytes_at}
use openproninx.BlockDev.Write.{Patched, write-Patched}

-- Two sectors from sector 5 of device 1 on.
abbrev volume : BlockDev
volume = record { device = 1; first_lba = 5; sector_count = 2 }

abbrev disk : Disk
disk dev lba k = lba

volume-IsVolume : IsVolume volume
volume-IsVolume = omega arith

-- A range over both sectors.
read_across : BlockDev.read volume disk 510 4 ≡ some (5 ∷ 5 ∷ 6 ∷ 6 ∷ [])
unfolding BlockDev.read read_loop out_of_range
read_across = refl

read_too_far : BlockDev.read volume disk 1020 5 ≡ none
unfolding BlockDev.read read_loop out_of_range
read_too_far = refl

write_across :
    BlockDev.read volume (BlockDev.write volume disk 511 (8 ∷ 9 ∷ [])).1 510 4
    ≡ some (5 ∷ 8 ∷ 9 ∷ 6 ∷ [])
unfolding read_across BlockDev.write write_loop
write_across = refl

read-bytes_at_example :
    BlockDev.read volume disk 510 4
    ≡ (if leb (510 + 4) (capacity volume) then some (bytes_at volume disk 510 4) else none)
read-bytes_at_example = read-bytes_at volume disk 510 4 volume-IsVolume

write-Patched_example :
    let (ok, d') = BlockDev.write volume disk 511 (8 ∷ 9 ∷ []) in
    (ok ≡ leb (511 + 2) (capacity volume))
    × Patched volume disk 511 (if ok then 8 ∷ 9 ∷ [] else []) d'
write-Patched_example = write-Patched volume disk 511 (8 ∷ 9 ∷ []) volume-IsVolume
