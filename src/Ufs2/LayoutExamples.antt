-- ===== src/Ufs2/LayoutExamples.antt =====
-- `ufs2_read` of a file that reaches into its indirect block.
use openproninx.Base.{
  ℕ, zero, suc, ◌+◌, ◌*◌, ◌%◌, ◌≤◌, ◌<◌, ◌≡◌, ◌⊎◌, inl, inr, refl, subst, Bool-cases, none, some,
  [], ◌∷◌, arith, ◌==◌, ltb, leb, if◌then◌else◌, get_or, replicate,
}
use openproninx.BlockDev.{Disk}
use openproninx.Ufs2.{Inode}
use openproninx.Ufs2.Files.{read}
use openproninx.Ufs2.Codec.{read_le}
use openproninx.Ufs2.Examples.{volume, device-IsVolume}
use openproninx.Ufs2.Layout.{IsLaidOut, block_number, contents, read-contents}

-- The indirect block is at fragment 44, which is sector 188: its words are 48 and 52.
abbrev table_disk : Disk
table_disk dev lba k =
    if lba == 188 then (if k == 0 then 48 else if k == 8 then 52 else 0) else k % 256

-- Fourteen blocks, the first twelve at the same place.
abbrev long_file : Inode
long_file = record {
  mode = 0x81a4;
  nlink = 1;
  uid = 0;
  gid = 0;
  size = 57_000;
  direct = replicate 12 40;
  indirect = 44 ∷ 0 ∷ 0 ∷ [];
}

get_or-forty : (n b : ℕ) → b < n → get_or {A = ℕ} (replicate n 40) b 0 ≡ 40
get_or-forty zero b h = elim h [ ]
get_or-forty (suc n) zero h = refl
get_or-forty (suc n) (suc b) h = get_or-forty n b (omega arith)

number_12 : block_number volume long_file table_disk 12 ≡ 48
unfolding read_le
number_12 = refl

number_13 : block_number volume long_file table_disk 13 ≡ 52
unfolding read_le
number_13 = refl

-- Every block has one of three addresses.
long_number :
    (b : ℕ)
    → b * 4096 < 57_000
    → let a = block_number volume long_file table_disk b in (0 < a) × (a ≤ 52)
long_number b h = elim (Bool-cases (ltb b 12)) [
  | inl e ↦
      let q : get_or long_file.direct b 0 ≡ 40 = get_or-forty 12 b (ground (arith, e)) in
      rw (e, q) (omega arith)
  | inr e ↦
      let last : (12 ≡ b) ⊎ (13 ≡ b) = ground (arith, e) in
      elim last [
        | inl q ↦
            subst (λ b. let a = block_number volume long_file table_disk b in (0 < a) × (a ≤ 52)) q
              (omega (arith, number_12))
        | inr q ↦
            subst (λ b. let a = block_number volume long_file table_disk b in (0 < a) × (a ≤ 52)) q
              (omega (arith, number_13))
      ]
]

long_file-IsLaidOut : IsLaidOut volume long_file table_disk 57_000
long_file-IsLaidOut = record {
  some_size = omega arith;
  some_fragment = omega arith;
  short = omega arith;
  no_wrap = omega arith;
  there = λ b h. let low = (long_number b h).0 in λ z. omega (arith, low, z);
  inside = λ b h. let high = (long_number b h).1 in omega (arith, high);
  table = λ b h lo. omega arith;
}

-- A read over the two blocks of the table.
read-contents_example : read volume long_file 53_200 100 table_disk ≡ (
  (if leb (53_200 + 100) 57_000
      then some (contents volume long_file table_disk 53_200 100)
      else none),
  table_disk,
)
read-contents_example =
    read-contents volume device-IsVolume long_file table_disk 57_000 long_file-IsLaidOut 53_200 100
      (omega arith)
