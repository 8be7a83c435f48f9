-- ===== src/Ufs2/Chunk.antt =====
-- kern/ufs2.c: one round of `ufs2_write_existing`, which writes within one block of a file.
use openproninx.Base.{
  ℕ, ◌+◌, ◌-◌, ◌*◌, ◌/◌, ◌%◌, ◌≤◌, ◌<◌, ◌≡◌, ◌≢◌, ◌⊎◌, refl, ap, ◌∙◌, sym, true, false, Bool-cases,
  inl, inr, ◌&&◌, some, List, arith, ◌==◌, ltb, leb, if◌then◌else◌, get_or, length, u64_mod,
  same_block, mod_lt, div_mod,
}
use openproninx.BlockDev
use openproninx.BlockDev.{BlockDev, Disk, sector_size}
use openproninx.BlockDev.Bytes.{IsVolume, capacity, byte_at}
use openproninx.BlockDev.Write.{write-Patched}
use openproninx.Ufs2.{Volume, Inode}
use openproninx.Ufs2.Files.{block_address}
use openproninx.Ufs2.Contents.{IsMapped, place, block_lem}
use openproninx.Ufs2.Steady.{indirect_start, Steady, block_address-Steady}

-- Different blocks of the file lie apart on the volume, and apart from the indirect block.
pub record IsApart (v : Volume) (i : Inode) (bound : ℕ) (address : ℕ → ℕ) : Type 0 where
  pub blocks :
      (b c : ℕ)
      → b * v.block_size < bound
      → c * v.block_size < bound
      → b ≢ c
      → (address b * v.fragment_size + v.block_size ≤ address c * v.fragment_size)
        ⊎ (address c * v.fragment_size + v.block_size ≤ address b * v.fragment_size)
  pub indirect :
      (b : ℕ)
      → b * v.block_size < bound
      → (address b * v.fragment_size + v.block_size ≤ indirect_start v i)
        ⊎ (indirect_start v i + v.block_size ≤ address b * v.fragment_size)

module _ (v : Volume) (is : IsVolume v.device) (i : Inode) (bound : ℕ)
    (small : indirect_start v i + v.block_size < u64_mod) where
  -- The file's bytes in `d'` are those in `d` with `src` from offset `x` on, its blocks where they were.
  pub record Overwritten (d : Disk) (m : IsMapped v i d bound) (x : ℕ) (src : List ℕ) (d' : Disk)
      : Type 0 where
    pub assigned :
        (b : ℕ) → b * v.block_size < bound → block_address v i b d' ≡ (some (m.address b), d')
    pub bytes :
        (y : ℕ)
        → y < bound
        → byte_at v.device d' (place v is i d bound m y) ≡ (
            if leb x y && ltb y (x + length src)
            then get_or src (y - x) 0
            else byte_at v.device d (place v is i d bound m y))

  -- The blocks stay where they are.
  abbrev pub remap :
      {d d' : Disk}
      → (m : IsMapped v i d bound)
      → ((b : ℕ) → b * v.block_size < bound → block_address v i b d' ≡ (some (m.address b), d'))
      → IsMapped v i d' bound
  remap m a = record {
    address = m.address;
    some_size = m.some_size;
    some_fragment = m.some_fragment;
    short = m.short;
    no_wrap = m.no_wrap;
    assigned = a;
    inside = m.inside;
  }

  module _ (d : Disk) (m : IsMapped v i d bound) (apart : IsApart v i bound m.address) where
    abbrev at : ℕ → ℕ
    at = place v is i d bound m

    at_same_block :
        (x y : ℕ) → x ≤ y → x % v.block_size + (y - x) < v.block_size → at y ≡ at x + (y - x)
    at_same_block x y le h =
        let (q, r) = same_block x (y - x) v.block_size m.some_size h in
        ap at {x = y} {y = x + (y - x)} (omega arith) ∙ rw (q, r) (omega arith)

    -- A byte of the file is one that a chunk in one block covers exactly if its place is.
    covers :
        (x c y : ℕ)
        → x < bound
        → y < bound
        → x % v.block_size + c ≤ v.block_size
        → (leb (at x) (at y) && ltb (at y) (at x + c)) ≡ (leb x y && ltb y (x + c))
    covers x c y hx hy h = elim (Bool-cases (leb x y && ltb y (x + c))) [
      | inl e ↦
          let le : x ≤ y = ground arith in
          let lt : y < x + c = ground arith in
          let a : at y ≡ at x + (y - x) = at_same_block x y le (omega arith) in ground (arith, a)
      | inr e ↦ elim (Bool-cases (x / v.block_size == y / v.block_size)) [
        | inl s ↦
            let q : x / v.block_size ≡ y / v.block_size = ground arith in
            let start = ap (λ k. m.address k * v.fragment_size) q in
            let base = ap (λ k. v.block_size * k) q in
            ground (arith, start, base, div_mod x v.block_size, div_mod y v.block_size)
        | inr s ↦
            let ne : x / v.block_size ≢ y / v.block_size = ground arith in
            let far =
              apart.blocks (x / v.block_size) (y / v.block_size) (block_lem v is i d bound m x hx)
                (block_lem v is i d bound m y hy) ne in
            ground (arith, far, mod_lt y m.some_size, mod_lt x m.some_size)
      ]
    ]

    module _ (x : ℕ) (src : List ℕ) (pos : 0 < length src) (h : x + length src ≤ bound)
        (hb : x % v.block_size + length src ≤ v.block_size) where
      pub in_volume : at x + length src ≤ capacity v.device
      in_volume =
          let b = m.inside (x / v.block_size) (block_lem v is i d bound m x (omega arith)) in
          omega arith

      chunk_byte :
          (o : ℕ)
          → byte_at v.device (BlockDev.write v.device d (at x) src).1 o ≡ (
              if leb (at x) o && ltb o (at x + length src)
              then get_or src (o - at x) 0
              else byte_at v.device d o)
      chunk_byte o =
          let (ok, w) = write-Patched v.device d (at x) src is in
          let r = in_volume in
          let e : leb (at x + length src) (capacity v.device) ≡ true = ground arith in
          let w' = (rw (ok ∙ e) at w) in w'.inside o

      pub chunk-Overwritten : Overwritten d m x src (BlockDev.write v.device d (at x) src).1
      unfolding Steady
      chunk-Overwritten = record {
        assigned = λ b hb'.
            let (r, e, e') =
              block_address-Steady v i d (BlockDev.write v.device d (at x) src).1 b is small
                indirect_kept in
            e'
            ∙ ap (λ r. (r, (BlockDev.write v.device d (at x) src).1))
                (ap (λ t. t.0) (sym e ∙ m.assigned b hb'));
        bytes =
            λ y hy. chunk_byte (at y) ∙ rw (covers x (length src) y (omega arith) hy hb) (shift y);
      }
        where
          indirect_kept :
              (o : ℕ)
              → indirect_start v i ≤ o
              → o < indirect_start v i + v.block_size
              → byte_at v.device (BlockDev.write v.device d (at x) src).1 o ≡ byte_at v.device d o
          indirect_kept o p q =
              let a =
                apart.indirect (x / v.block_size) (block_lem v is i d bound m x (omega arith)) in
              let e : (leb (at x) o && ltb o (at x + length src)) ≡ false = ground (arith, a) in
              chunk_byte o ∙ rw e refl

          shift :
              (y : ℕ)
              → (if leb x y && ltb y (x + length src)
                  then get_or src (at y - at x) 0
                  else byte_at v.device d (at y))
                ≡ (if leb x y && ltb y (x + length src)
                    then get_or src (y - x) 0
                    else byte_at v.device d (at y))
          shift y = elim (Bool-cases (leb x y && ltb y (x + length src))) [
            | inl e ↦
                let le : x ≤ y = ground arith in
                let lt : y < x + length src = ground arith in
                let a = at_same_block x y le (omega arith) in
                rw e (ap (λ k. get_or src k 0) {x = at y - at x} {y = y - x} (omega (arith, a)))
            | inr e ↦ rw e refl
          ]
