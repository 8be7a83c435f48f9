-- ===== src/Ufs2/Contents.antt =====
-- kern/ufs2.c: `ufs2_read` against the contents of a file as a sequence of bytes.
use openproninx.Base.{
  ℕ, zero, suc, ◌+◌, ◌-◌, ◌*◌, ◌/◌, ◌%◌, ◌≤◌, ◌<◌, ◌≡◌, refl, ap, ap₂, ◌∙◌, sym, Bool, true, false,
  Bool-cases, inl, inr, ◌||◌, none, some, List, [], ◌∷◌, ◌++◌, arith, ◌==◌, ltb, leb, if◌then◌else◌,
  add64, mul64, u32_mod, u64_mod, same_block, le_div, mod_lt, div_lt, div_mul_le,
}
use openproninx.BlockDev.{Disk}
use openproninx.BlockDev.Bytes.{IsVolume, capacity, byte_at, bytes_at}
use openproninx.Ufs2.{Volume, Inode, M, pure, ◌>>=◌, ◌>>◌, refuse, read_m}
use openproninx.Ufs2.Geometry.{max64}
use openproninx.Ufs2.Files.{block_address, block_count, disk_offset, read_from, read}
use openproninx.Ufs2.Access.{bind-some, read_m-some}

pub refuse-false : (b : Bool) (d : Disk) → b ≡ false → refuse b d ≡ (some tt, d)
refuse-false b d h = ap (λ b. refuse b d) h

-- The blocks of the first `bound` bytes of a file: each has an address, at which a block lies in the
-- volume.
pub record IsMapped (v : Volume) (i : Inode) (d : Disk) (bound : ℕ) : Type 0 where
  pub address : ℕ → ℕ
  pub some_size : 0 < v.block_size
  pub some_fragment : 0 < v.fragment_size
  pub short : bound ≤ u32_mod * v.block_size
  pub no_wrap : bound < u64_mod
  pub assigned : (b : ℕ) → b * v.block_size < bound → block_address v i b d ≡ (some (address b), d)
  pub inside :
      (b : ℕ)
      → b * v.block_size < bound
      → address b * v.fragment_size + v.block_size ≤ capacity v.device

module _ (v : Volume) (is : IsVolume v.device) (i : Inode) (d : Disk) (bound : ℕ)
    (m : IsMapped v i d bound) where
  -- The place on the volume of a byte of the file.
  abbrev pub place : ℕ → ℕ
  place x = m.address (x / v.block_size) * v.fragment_size + x % v.block_size

  -- The `n` bytes of the file from an offset on.
  abbrev pub file_bytes : ℕ → ℕ → List ℕ
  file_bytes x zero = []
  file_bytes x (suc n) = byte_at v.device d (place x) ∷ file_bytes (x + 1) n

  file_bytes-append : (x c n : ℕ) → file_bytes x c ++ file_bytes (x + c) n ≡ file_bytes x (c + n)
  file_bytes-append x zero n = ap₂ file_bytes (omega arith) (omega arith)
  file_bytes-append x (suc c) n =
      let e : x + suc c ≡ x + 1 + c = omega arith in
      let f : suc c + n ≡ suc (c + n) = omega arith in
      rw (e, f) (ap (λ l. byte_at v.device d (place x) ∷ l) (file_bytes-append (x + 1) c n))

  -- Within one block they are bytes of the volume.
  bytes_at-file_bytes :
      (x j c : ℕ)
      → x % v.block_size + j + c ≤ v.block_size
      → bytes_at v.device d (place x + j) c ≡ file_bytes (x + j) c
  bytes_at-file_bytes x j zero h = refl
  bytes_at-file_bytes x j (suc c) h =
      let (q, r) = same_block x j v.block_size m.some_size (omega arith) in
      let e : place (x + j) ≡ place x + j = rw (q, r) (omega arith) in
      ap₂ ◌∷◌ (ap (byte_at v.device d) (sym e)) (
        ap (λ o. bytes_at v.device d o c) {x = place x + j + 1} {y = place x + (j + 1)}
          (omega arith)
        ∙ bytes_at-file_bytes x (j + 1) c (omega arith)
        ∙ ap (λ o. file_bytes o c) {x = x + (j + 1)} {y = x + j + 1} (omega arith))

  pub block_lem : (x : ℕ) → x < bound → x / v.block_size * v.block_size < bound
  block_lem x h = omega (arith, div_mul_le x v.block_size)

  pub disk_offset-place : (x : ℕ) → x < bound → disk_offset v i x d ≡ (some (place x), d)
  unfolding disk_offset
  disk_offset-place x h =
      let b = x / v.block_size in
      let a = m.address b in
      let p = a * v.fragment_size in
      let in_volume = m.inside b (block_lem x h) in
      let small = is.addressable in
      let r = mod_lt x m.some_size in
      let e : b % u32_mod ≡ b =
        omega (arith, div_lt {x = x} {y = u32_mod} m.some_size (omega (arith, m.short))) in
      let g : a ≤ max64 / v.fragment_size =
        le_div m.some_fragment (omega (arith, in_volume, small)) in
      let f : ltb (max64 / v.fragment_size) a ≡ false = ground arith in
      bind-some (block_address v i (b % u32_mod))
        (λ a.
          refuse (ltb (max64 / v.fragment_size) a)
          >> pure (add64 (mul64 a v.fragment_size) (x % v.block_size)))
        d (ap (λ k. block_address v i k d) e ∙ m.assigned b (block_lem x h))
      ∙ bind-some (refuse (ltb (max64 / v.fragment_size) a))
          (λ _. pure (add64 (mul64 a v.fragment_size) (x % v.block_size))) d
          (refuse-false (ltb (max64 / v.fragment_size) a) d f)
      ∙ ap (λ o. (some o, d)) {x = add64 (mul64 a v.fragment_size) (x % v.block_size)} {y = place x}
          (omega (arith, in_volume, small))

  read_from-file_bytes :
      (fuel x n : ℕ)
      → x + n ≤ bound
      → n < fuel
      → read_from fuel v i x n d ≡ (some (file_bytes x n), d)
  unfolding read_from
  read_from-file_bytes zero x n h f = elim f [ ]
  read_from-file_bytes (suc fuel) x zero h f = refl
  read_from-file_bytes (suc fuel) x (suc n') h f =
      let n = suc n' in
      let c = block_count v x n in
      let r = mod_lt x m.some_size in
      let c_pos : 0 < c = ground arith in
      let c_le : c ≤ n = ground arith in
      let c_in : x % v.block_size + c ≤ v.block_size = ground arith in
      let b = block_lem x (omega arith) in
      let next : add64 x c ≡ x + c = omega (arith, m.no_wrap) in
      let rest_value : read_from fuel v i (add64 x c) (n - c) d
          ≡ (some (file_bytes (x + c) (n - c)), d) =
        ap (λ o. read_from fuel v i o (n - c) d) next
        ∙ read_from-file_bytes fuel (x + c) (n - c) (omega arith) (omega arith) in
      let here : read_m v (place x) c d ≡ (some (file_bytes x c), d) =
        read_m-some v is (place x) c d (omega (arith, m.inside (x / v.block_size) b))
        ∙ ap (λ l. (some l, d)) (bytes_of_place x c c_in) in
      let rest : M (List ℕ) = read_from fuel v i (add64 x c) (n - c) in
      let nz : (n == 0) ≡ false = ground arith in
      rw nz (
        bind-some (disk_offset v i x)
          (λ o. read_m v o c >>= λ bytes. rest >>= λ more. pure (bytes ++ more)) d
          (disk_offset-place x (omega arith))
        ∙ bind-some (read_m v (place x) c) (λ bytes. rest >>= λ more. pure (bytes ++ more)) d here
        ∙ bind-some rest (λ more. pure (file_bytes x c ++ more)) d rest_value
        ∙ ap (λ l. (some l, d))
            (file_bytes-append x c (n - c) ∙ ap (file_bytes x) {y = n} (omega arith)))
    where
      bytes_of_place :
          (x c : ℕ)
          → x % v.block_size + c ≤ v.block_size
          → bytes_at v.device d (place x) c ≡ file_bytes x c
      bytes_of_place x c h =
          ap (λ o. bytes_at v.device d o c) {x = place x} {y = place x + 0} (omega arith)
          ∙ bytes_at-file_bytes x 0 c (omega arith)
          ∙ ap (λ o. file_bytes o c) {x = x + 0} {y = x} (omega arith)

  -- `ufs2_read` of a file whose blocks up to `bound`, which is at least its size, have addresses in the
  -- volume: it gives exactly the bytes of the range, gathered from the blocks, if the range lies in the
  -- file, and fails if not. It leaves the disk alone.
  pub read-file_bytes :
      (x n : ℕ)
      → i.size ≤ bound
      → read v i x n d ≡ ((if leb (x + n) i.size then some (file_bytes x n) else none), d)
  unfolding read
  read-file_bytes x n h = elim (Bool-cases (leb (x + n) i.size)) [
    | inl e ↦
        let g : (ltb i.size x || ltb (i.size - x) n) ≡ false = ground arith in
        rw (e, g) (read_from-file_bytes (n + 1) x n (ground arith) (omega arith))
    | inr e ↦ let g : (ltb i.size x || ltb (i.size - x) n) ≡ true = ground arith in rw (e, g) refl
  ]
