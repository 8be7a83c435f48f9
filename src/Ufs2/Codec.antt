-- ===== src/Ufs2/Codec.antt =====
-- kern/ufs2.c: little-endian numbers, and the fields of an inode on the disk.
use openproninx.Base.{
  ℕ, zero, suc, ◌+◌, ◌*◌, ◌/◌, ◌%◌, ◌≤◌, ◌<◌, ◌≡◌, ◌⊎◌, inl, inr, refl, ap₂, ◌∙◌, sym, List, [],
  ◌∷◌, arith, get_or, set, length, length-set, get_or-set_self, get_or-set_ne,
}
use openproninx.Ufs2.{Inode}

-- `read_le16`, `read_le32` and `read_le64` at 2, 4 and 8: the bytes from an offset on, lowest first.
-- On bytes the source's `|` of shifted bytes is their sum.
unfoldable pub read_le : ℕ → List ℕ → ℕ → ℕ
read_le zero raw off = 0
read_le (suc n) raw off = get_or raw off 0 + 256 * read_le n raw (off + 1)

-- `write_le16`, `write_le32` and `write_le64` at 2, 4 and 8.
unfoldable pub write_le : ℕ → List ℕ → ℕ → ℕ → List ℕ
write_le zero raw off value = raw
write_le (suc n) raw off value = write_le n (set raw off (value % 256)) (off + 1) (value / 256)

-- The loops over `direct` and `indirect`, for `k` addresses.
unfoldable pub read_addresses : ℕ → List ℕ → ℕ → List ℕ
read_addresses zero raw off = []
read_addresses (suc k) raw off = read_le 8 raw off ∷ read_addresses k raw (off + 8)

unfoldable pub write_addresses : List ℕ → List ℕ → ℕ → List ℕ
write_addresses [] raw off = raw
write_addresses (a ∷ xs) raw off = write_addresses xs (write_le 8 raw off a) (off + 8)

abbrev pub mode_offset : ℕ
mode_offset = 0

abbrev pub nlink_offset : ℕ
nlink_offset = 2

abbrev pub uid_offset : ℕ
uid_offset = 4

abbrev pub gid_offset : ℕ
gid_offset = 8

abbrev pub size_offset : ℕ
size_offset = 16

abbrev pub direct_offset : ℕ
direct_offset = 112

abbrev pub indirect_offset : ℕ
indirect_offset = 208

abbrev pub dinode_size : ℕ
dinode_size = 256

abbrev pub direct_blocks : ℕ
direct_blocks = 12

-- `ufs2_read_inode` after it has read the bytes.
unfoldable pub decode : List ℕ → Inode
decode raw = record {
  mode = read_le 2 raw mode_offset;
  nlink = read_le 2 raw nlink_offset;
  uid = read_le 4 raw uid_offset;
  gid = read_le 4 raw gid_offset;
  size = read_le 8 raw size_offset;
  direct = read_addresses direct_blocks raw direct_offset;
  indirect = read_addresses 3 raw indirect_offset;
}

-- `ufs2_write_inode` between the read and the write of the bytes.
unfoldable pub encode : List ℕ → Inode → List ℕ
encode raw i =
    let raw : List ℕ = write_le 2 raw mode_offset i.mode in
    let raw : List ℕ = write_le 2 raw nlink_offset i.nlink in
    let raw : List ℕ = write_le 4 raw uid_offset i.uid in
    let raw : List ℕ = write_le 4 raw gid_offset i.gid in
    let raw : List ℕ = write_le 8 raw size_offset i.size in
    let raw : List ℕ = write_addresses i.direct raw direct_offset in
    write_addresses i.indirect raw indirect_offset

pub length-write_le :
    (n : ℕ) (raw : List ℕ) (off v : ℕ) → length (write_le n raw off v) ≡ length raw
unfolding write_le
length-write_le zero raw off v = refl
length-write_le (suc n) raw off v =
    length-write_le n (set raw off (v % 256)) (off + 1) (v / 256) ∙ length-set raw off (v % 256)

get_or-write_le_before :
    (n : ℕ) (raw : List ℕ) (off v j : ℕ)
    → j < off
    → get_or (write_le n raw off v) j 0 ≡ get_or raw j 0
unfolding write_le
get_or-write_le_before zero raw off v j h = refl
get_or-write_le_before (suc n) raw off v j h =
    get_or-write_le_before n _ (off + 1) (v / 256) j (omega arith)
    ∙ get_or-set_ne raw (v % 256) 0 (omega arith)

-- Bytes outside the field stay.
pub get_or-write_le :
    (n : ℕ) (raw : List ℕ) (off v j : ℕ)
    → (j < off) ⊎ (off + n ≤ j)
    → get_or (write_le n raw off v) j 0 ≡ get_or raw j 0
unfolding write_le
get_or-write_le zero raw off v j h = refl
get_or-write_le (suc n) raw off v j h =
    get_or-write_le n _ (off + 1) (v / 256) j (apart h)
    ∙ get_or-set_ne raw (v % 256) 0 (omega arith)
  where
    apart : (j < off) ⊎ (off + suc n ≤ j) → (j < off + 1) ⊎ (off + 1 + n ≤ j)
    apart (inl p) = inl (omega arith)
    apart (inr p) = inr (omega arith)

-- A number that `n` bytes can hold.
abbrev pub FitsBytes : ℕ → ℕ → Type 0
FitsBytes zero v = v ≡ 0
FitsBytes (suc n) v = FitsBytes n (v / 256)

-- A number that is written is read back.
pub read_le-write_le :
    (n : ℕ) (raw : List ℕ) (off v : ℕ)
    → off + n ≤ length raw
    → FitsBytes n v
    → read_le n (write_le n raw off v) off ≡ v
unfolding read_le write_le
read_le-write_le zero raw off v h f = sym f
read_le-write_le (suc n) raw off v h f =
    let raw' : List ℕ = set raw off (v % 256) in
    let low =
      get_or-write_le_before n raw' (off + 1) (v / 256) off (omega arith)
      ∙ get_or-set_self raw off (v % 256) 0 (omega arith) in
    let ih =
      read_le-write_le n raw' (off + 1) (v / 256) (omega (arith, length-set raw off (v % 256))) f in
    omega arith

-- A field that does not overlap stays.
pub read_le-write_le_apart :
    (m n : ℕ) (raw : List ℕ) (off v o : ℕ)
    → (o + m ≤ off) ⊎ (off + n ≤ o)
    → read_le m (write_le n raw off v) o ≡ read_le m raw o
unfolding read_le
read_le-write_le_apart zero n raw off v o h = refl
read_le-write_le_apart (suc m) n raw off v o h =
    ap₂ (λ (a b : ℕ). a + 256 * b) (get_or-write_le n raw off v o (byte h))
      (read_le-write_le_apart m n raw off v (o + 1) (rest h))
  where
    byte : (o + suc m ≤ off) ⊎ (off + n ≤ o) → (o < off) ⊎ (off + n ≤ o)
    byte (inl p) = inl (omega arith)
    byte (inr p) = inr p

    rest : (o + suc m ≤ off) ⊎ (off + n ≤ o) → (o + 1 + m ≤ off) ⊎ (off + n ≤ o + 1)
    rest (inl p) = inl (omega arith)
    rest (inr p) = inr (omega arith)

pub length-write_addresses :
    (xs raw : List ℕ) (off : ℕ) → length (write_addresses xs raw off) ≡ length raw
unfolding write_addresses
length-write_addresses [] raw off = refl
length-write_addresses (a ∷ xs) raw off =
    length-write_addresses xs (write_le 8 raw off a) (off + 8) ∙ length-write_le 8 raw off a

pub read_le-write_addresses_apart :
    (m : ℕ) (xs raw : List ℕ) (off o : ℕ)
    → (o + m ≤ off) ⊎ (off + 8 * length xs ≤ o)
    → read_le m (write_addresses xs raw off) o ≡ read_le m raw o
unfolding write_addresses
read_le-write_addresses_apart m [] raw off o h = refl
read_le-write_addresses_apart m (a ∷ xs) raw off o h =
    read_le-write_addresses_apart m xs (write_le 8 raw off a) (off + 8) o (later h)
    ∙ read_le-write_le_apart m 8 raw off a o (first h)
  where
    later :
        (o + m ≤ off) ⊎ (off + 8 * suc (length xs) ≤ o)
        → (o + m ≤ off + 8) ⊎ (off + 8 + 8 * length xs ≤ o)
    later (inl p) = inl (omega arith)
    later (inr p) = inr (omega arith)

    first : (o + m ≤ off) ⊎ (off + 8 * suc (length xs) ≤ o) → (o + m ≤ off) ⊎ (off + 8 ≤ o)
    first (inl p) = inl p
    first (inr p) = inr (omega arith)
