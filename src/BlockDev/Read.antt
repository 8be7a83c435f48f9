-- ===== src/BlockDev/Read.antt =====
-- kern/blockdev.c: `blockdev_read` against the volume as a sequence of bytes.
use openproninx.Base.{
  ℕ, zero, suc, ◌+◌, ◌-◌, ◌*◌, ◌/◌, ◌%◌, ◌≤◌, ◌<◌, ◌≡◌, refl, ap, inl, inr, Bool-cases, none, some,
  false, if◌then◌else◌, arith, ◌==◌, ltb, leb, add64,
}
use openproninx.BlockDev
use openproninx.BlockDev.{
  BlockDev, Disk, Sector, sector_size, sector_bytes, round_count, out_of_range, read_loop,
}
use openproninx.BlockDev.Bytes.{IsVolume, capacity, bytes_at, bytes_at-split, out_of_range_lem}

-- What a round of the loops computes, at a range that lies in the volume and is not empty.
pub record Round (v : BlockDev) (o n : ℕ) : Type 0 where
  pub some_bytes : 0 < round_count o n
  pub within : round_count o n ≤ n
  pub in_sector : o % sector_size + round_count o n ≤ sector_size
  pub sector : add64 v.first_lba (o / sector_size) ≡ v.first_lba + o / sector_size
  pub small : ltb 0xffff_ffff (v.first_lba + o / sector_size) ≡ false
  pub next : add64 o (round_count o n) ≡ o + round_count o n
  pub inside : o / sector_size < v.sector_count

pub round_lem : (v : BlockDev) (o n : ℕ) → IsVolume v → o + n ≤ capacity v → 0 < n → Round v o n
round_lem v o n is h pos =
    let a = is.addressable in
    let q : o / sector_size < v.sector_count = omega arith in
    record {
      some_bytes = ground arith;
      within = ground arith;
      in_sector = ground arith;
      sector = omega arith;
      small = ground arith;
      next = ground arith;
      inside = q;
    }

read_loop_lem :
    (fuel : ℕ) (v : BlockDev) (d : Disk) (o n : ℕ)
    → IsVolume v
    → o + n ≤ capacity v
    → n < fuel
    → read_loop fuel v d o n ≡ some (bytes_at v d o n)
unfolding read_loop
read_loop_lem zero v d o n is h f = elim f [ ]
read_loop_lem (suc fuel) v d o zero is h f = refl
read_loop_lem (suc fuel) v d o (suc n) is h f =
    let r = round_lem v o (suc n) is h (omega arith) in
    let c = round_count o (suc n) in
    let ih =
      read_loop_lem fuel v d (o + c) (suc n - c) is (omega (arith, r.within))
        (omega (arith, r.within, r.some_bytes)) in
    let nz : (suc n == 0) ≡ false = ground arith in
    let split = bytes_at-split v d (o / sector_size) (o % sector_size) c (suc n - c) r.in_sector in
    let start : o / sector_size * sector_size + o % sector_size ≡ o = omega arith in
    let whole : c + (suc n - c) ≡ suc n = omega (arith, r.within) in
    rw (nz, r.next, ih, r.sector, r.small) (ap some (rw (start, whole) at split))

-- On a volume whose sector numbers fit 32 bits `blockdev_read` succeeds exactly for the ranges that
-- lie in the volume, and then gives the bytes of the range, over any number of sectors.
pub read-bytes_at :
    (v : BlockDev) (d : Disk) (o n : ℕ)
    → IsVolume v
    → BlockDev.read v d o n ≡ (if leb (o + n) (capacity v) then some (bytes_at v d o n) else none)
unfolding BlockDev.read
read-bytes_at v d o n is = elim (Bool-cases (leb (o + n) (capacity v))) [
  | inl e ↦
      let h : o + n ≤ capacity v = ground arith in
      rw (e, (out_of_range_lem v o n is).0 h) (read_loop_lem (n + 1) v d o n is h (omega arith))
  | inr e ↦ let h : capacity v < o + n = ground arith in rw (e, (out_of_range_lem v o n is).1 h)
]
