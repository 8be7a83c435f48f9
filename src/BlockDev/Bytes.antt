-- ===== src/BlockDev/Bytes.antt =====
-- kern/blockdev.c: a volume as a sequence of bytes.
use openproninx.Base.{
  ℕ, zero, suc, ◌+◌, ◌*◌, ◌/◌, ◌%◌, ◌≤◌, ◌<◌, ◌≡◌, refl, ap, ap₂, ◌∙◌, true, false, List, [], ◌∷◌,
  ◌++◌, arith, get_or, length, u32_mod,
}
use openproninx.BlockDev.{BlockDev, Disk, sector_size, sector_bytes, out_of_range}

-- A volume whose sectors the buffer cache can address.
pub record IsVolume (v : BlockDev) : Type 0 where
  pub addressable : v.first_lba + v.sector_count ≤ u32_mod

abbrev pub capacity : BlockDev → ℕ
capacity v = v.sector_count * sector_size

-- The byte at an offset of the volume.
abbrev pub byte_at : BlockDev → Disk → ℕ → ℕ
byte_at v d o = d v.device (v.first_lba + o / sector_size) (o % sector_size)

-- The `n` bytes of the volume from an offset on.
abbrev pub bytes_at : BlockDev → Disk → ℕ → ℕ → List ℕ
bytes_at v d o zero = []
bytes_at v d o (suc n) = byte_at v d o ∷ bytes_at v d (o + 1) n

pub length-bytes_at : (v : BlockDev) (d : Disk) (o n : ℕ) → length (bytes_at v d o n) ≡ n
length-bytes_at v d o zero = refl
length-bytes_at v d o (suc n) = ap suc (length-bytes_at v d (o + 1) n)

pub get_or-bytes_at :
    (v : BlockDev) (d : Disk) (o n i : ℕ)
    → i < n
    → get_or (bytes_at v d o n) i 0 ≡ byte_at v d (o + i)
get_or-bytes_at v d o zero i h = elim h [ ]
get_or-bytes_at v d o (suc n) zero h = ap (byte_at v d) (omega arith)
get_or-bytes_at v d o (suc n) (suc i) h =
    get_or-bytes_at v d (o + 1) n i (omega arith) ∙ ap (byte_at v d) {x = o + 1 + i} (omega arith)

-- Two disks that agree on a range give the same bytes.
pub bytes_at-congr :
    (v : BlockDev) (d d' : Disk) (o n : ℕ)
    → ((i : ℕ) → o ≤ i → i < o + n → byte_at v d i ≡ byte_at v d' i)
    → bytes_at v d o n ≡ bytes_at v d' o n
bytes_at-congr v d d' o zero h = refl
bytes_at-congr v d d' o (suc n) h =
    ap₂ ◌∷◌ (h o (omega arith) (omega arith))
      (bytes_at-congr v d d' (o + 1) n (λ i p q. h i (omega arith) (omega arith)))

-- The bytes of one sector, and those behind them.
pub bytes_at-split :
    (v : BlockDev) (d : Disk) (q i c m : ℕ)
    → i + c ≤ sector_size
    → sector_bytes (d v.device (v.first_lba + q)) i c ++ bytes_at v d (q * sector_size + i + c) m
      ≡ bytes_at v d (q * sector_size + i) (c + m)
bytes_at-split v d q i zero m h =
    let e : q * sector_size + i + 0 ≡ q * sector_size + i = omega arith in
    let f : 0 + m ≡ m = omega arith in rw (e, f)
bytes_at-split v d q i (suc c) m h =
    let e : suc c + m ≡ suc (c + m) = omega arith in
    let a : (q * sector_size + i) / sector_size ≡ q = omega arith in
    let b : (q * sector_size + i) % sector_size ≡ i = omega arith in
    let g : q * sector_size + i + suc c ≡ q * sector_size + (i + 1) + c = omega arith in
    let k : q * sector_size + i + 1 ≡ q * sector_size + (i + 1) = omega arith in
    rw (e, a, b, g, k)
      (ap (λ l. d v.device (v.first_lba + q) i ∷ l)
        (bytes_at-split v d q (i + 1) c m (omega arith)))

-- The guards say exactly whether the range lies in the volume.
pub out_of_range_lem :
    (v : BlockDev) (offset n : ℕ)
    → IsVolume v
    → (offset + n ≤ capacity v → out_of_range v offset n ≡ false)
      × (capacity v < offset + n → out_of_range v offset n ≡ true)
unfolding out_of_range
out_of_range_lem v offset n is = ((λ h. ground arith), (λ h. ground arith))
