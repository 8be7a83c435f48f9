-- ===== src/Ufs2/Layout.antt =====
-- kern/ufs2.c: `ufs2_block_address` and `ufs2_read` against the layout of a file on the volume: twelve
-- direct addresses, then the table of 8-byte addresses in the indirect block.
use openproninx.Base.{
  ℕ, zero, suc, ◌+◌, ◌-◌, ◌*◌, ◌/◌, ◌%◌, ◌≤◌, ◌<◌, ◌≡◌, ◌≢◌, refl, ap, ◌∙◌, true, false, Bool-cases,
  inl, inr, ◌||◌, none, some, List, [], ◌∷◌, arith, ◌==◌, ltb, leb, if◌then◌else◌, add64, mul64,
  u32_mod, u64_mod, get_or, le_div, ne_test,
}
use openproninx.BlockDev.{Disk}
use openproninx.BlockDev.Bytes.{IsVolume, capacity, byte_at, bytes_at}
use openproninx.Ufs2.{Volume, Inode, ◌>>=◌, refuse, read_m}
use openproninx.Ufs2.Codec.{read_le}
use openproninx.Ufs2.Geometry.{max64}
use openproninx.Ufs2.Files.{assigned, block_address, read}
use openproninx.Ufs2.Access.{bind-some, read_m-some}
use openproninx.Ufs2.Contents.{IsMapped, file_bytes, refuse-false, read-file_bytes}

-- The place of the entry for a block in the indirect block.
abbrev pub table_place : Volume → Inode → ℕ → ℕ
table_place v i b = get_or i.indirect 0 0 * v.fragment_size + (b - 12) * 8

-- The fragment at which a block of the file begins.
abbrev pub block_number : Volume → Inode → Disk → ℕ → ℕ
block_number v i d b =
    if ltb b 12
    then get_or i.direct b 0
    else read_le 8 (bytes_at v.device d (table_place v i b) 8) 0

-- The `n` bytes of the file from an offset on.
unfoldable pub contents : Volume → Inode → Disk → ℕ → ℕ → List ℕ
contents v i d x zero = []
contents v i d x (suc n) =
    byte_at v.device d (block_number v i d (x / v.block_size) * v.fragment_size + x % v.block_size)
    ∷ contents v i d (x + 1) n

-- Each block of the first `bound` bytes of a file is on the volume, and the indirect block is where one
-- of them needs it.
pub record IsLaidOut (v : Volume) (i : Inode) (d : Disk) (bound : ℕ) : Type 0 where
  pub some_size : 0 < v.block_size
  pub some_fragment : 0 < v.fragment_size
  pub short : bound ≤ u32_mod * v.block_size
  pub no_wrap : bound < u64_mod
  pub there : (b : ℕ) → b * v.block_size < bound → block_number v i d b ≢ 0
  pub inside :
      (b : ℕ)
      → b * v.block_size < bound
      → block_number v i d b * v.fragment_size + v.block_size ≤ capacity v.device
  pub table :
      (b : ℕ)
      → b * v.block_size < bound
      → 12 ≤ b
      → (b - 12 < v.block_size / 8)
        × (get_or i.indirect 0 0 ≢ 0)
        × (get_or i.indirect 0 0 * v.fragment_size + v.block_size ≤ capacity v.device)

module _ (v : Volume) (is : IsVolume v.device) (i : Inode) (d : Disk) (bound : ℕ)
    (l : IsLaidOut v i d bound) where
  pub block_address-direct :
      (b : ℕ)
      → b * v.block_size < bound
      → ltb b 12 ≡ true
      → block_address v i b d ≡ (some (block_number v i d b), d)
  unfolding block_address
  block_address-direct b h e =
      let n : get_or i.direct b 0 ≢ 0 = λ z. l.there b h (rw e z) in rw (e, ne_test n) refl

  pub block_address-indirect :
      (b : ℕ)
      → b * v.block_size < bound
      → ltb b 12 ≡ false
      → block_address v i b d ≡ (some (block_number v i d b), d)
  unfolding block_address
  block_address-indirect b h e =
      let a = get_or i.indirect 0 0 in
      let (row, some_table, in_volume) = l.table b h (ground (arith, e)) in
      let small = is.addressable in
      let far : a ≤ max64 / v.fragment_size =
        le_div l.some_fragment (omega (arith, in_volume, small)) in
      let fine : (leb (v.block_size / 8) (b - 12) || (a == 0 || ltb (max64 / v.fragment_size) a))
          ≡ false =
        ground (arith, row, some_table, far) in
      let at : add64 (mul64 a v.fragment_size) (mul64 (b - 12) 8) ≡ table_place v i b =
        omega (arith, in_volume, small, row) in
      let there : read_le 8 (bytes_at v.device d (table_place v i b) 8) 0 ≢ 0 =
        λ z. l.there b h (rw e z) in
      rw e (
        bind-some
          (refuse (leb (v.block_size / 8) (b - 12) || (a == 0 || ltb (max64 / v.fragment_size) a)))
          (λ _. read_m v (add64 (mul64 a v.fragment_size) (mul64 (b - 12) 8)) 8 >>= λ raw.
            assigned (read_le 8 raw 0))
          d (refuse-false _ d fine)
        ∙ bind-some (read_m v (add64 (mul64 a v.fragment_size) (mul64 (b - 12) 8)) 8)
            (λ raw. assigned (read_le 8 raw 0)) d
            (ap (λ o. read_m v o 8 d) at
              ∙ read_m-some v is (table_place v i b) 8 d (omega (arith, in_volume, row)))
        ∙ rw (ne_test there) refl)

  -- Such a layout is what `ufs2_block_address` finds.
  abbrev pub layout-IsMapped : IsMapped v i d bound
  layout-IsMapped = record {
    address = block_number v i d;
    some_size = l.some_size;
    some_fragment = l.some_fragment;
    short = l.short;
    no_wrap = l.no_wrap;
    assigned = λ b h. elim (Bool-cases (ltb b 12)) [
      | inl e ↦ block_address-direct b h e
      | inr e ↦ block_address-indirect b h e
    ];
    inside = l.inside;
  }

  file_bytes-contents :
      (x n : ℕ) → file_bytes v is i d bound layout-IsMapped x n ≡ contents v i d x n
  unfolding contents
  file_bytes-contents x zero = refl
  file_bytes-contents x (suc n) =
      ap
        (λ bs.
          byte_at v.device d
            (block_number v i d (x / v.block_size) * v.fragment_size + x % v.block_size)
          ∷ bs)
        (file_bytes-contents (x + 1) n)

  -- `ufs2_read` of a file that is laid out up to `bound`, which is at least its size: it gives exactly
  -- the bytes of the range if the range lies in the file, and fails if not. The bytes are those of the
  -- blocks whose addresses are the twelve direct ones of the inode and, behind them, the 8-byte words
  -- of the indirect block. It leaves the disk alone.
  pub read-contents :
      (x n : ℕ)
      → i.size ≤ bound
      → read v i x n d ≡ ((if leb (x + n) i.size then some (contents v i d x n) else none), d)
  read-contents x n h =
      read-file_bytes v is i d bound layout-IsMapped x n h
      ∙ ap (λ bs. ((if leb (x + n) i.size then some bs else none), d)) (file_bytes-contents x n)
