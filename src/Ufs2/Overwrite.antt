-- ===== src/Ufs2/Overwrite.antt =====
-- kern/ufs2.c: `ufs2_write_existing` against the contents of a file.
use openproninx.Base.{
  ℕ, zero, suc, ◌+◌, ◌-◌, ◌%◌, ◌≤◌, ◌<◌, ◌≡◌, refl, ap, ap₂, ◌∙◌, true, false, Bool-cases, inl, inr,
  ◌&&◌, ◌||◌, some, List, [], ◌∷◌, arith, ◌==◌, ltb, leb, if◌then◌else◌, get_or, length, take, drop,
  length-take, length-drop, add64, u64_mod, mod_lt,
}
use openproninx.BlockDev
use openproninx.BlockDev.{BlockDev, Disk, sector_size}
use openproninx.BlockDev.Bytes.{IsVolume, byte_at}
use openproninx.BlockDev.Write.{get_or-drop}
use openproninx.Ufs2.{Volume, Inode, M, ◌>>◌, write_m}
use openproninx.Ufs2.Files.{block_count, disk_offset, write_existing_from, write_existing, read}
use openproninx.Ufs2.Access.{bind-some, write_m-some}
use openproninx.Ufs2.Contents.{IsMapped, place, file_bytes, disk_offset-place, read-file_bytes}
use openproninx.Ufs2.Steady.{indirect_start}
use openproninx.Ufs2.Chunk.{IsApart, Overwritten, remap, in_volume, chunk-Overwritten}

get_or-take : (src : List ℕ) (c k : ℕ) → k < c → get_or (take c src) k 0 ≡ get_or src k 0
get_or-take src zero k h = elim h [ ]
get_or-take [] (suc c) k h = refl
get_or-take (x ∷ src) (suc c) zero h = refl
get_or-take (x ∷ src) (suc c) (suc k) h = get_or-take src c k (omega arith)

-- A chunk and then the rest are the whole.
two_parts :
    (x c y old : ℕ) (src : List ℕ)
    → c ≤ length src
    → (if leb (x + c) y && ltb y (x + c + length (drop c src))
        then get_or (drop c src) (y - (x + c)) 0
        else (if leb x y && ltb y (x + length (take c src))
            then get_or (take c src) (y - x) 0
            else old))
      ≡ (if leb x y && ltb y (x + length src) then get_or src (y - x) 0 else old)
two_parts x c y old src h =
    let l = length-take c src in
    let r = length-drop c src in
    let t : length (take c src) ≡ c = omega (arith, l) in
    rw t (elim (Bool-cases (leb x y && ltb y (x + c))) [
      | inl e ↦
          let f : (leb (x + c) y && ltb y (x + c + length (drop c src))) ≡ false = ground arith in
          let g : (leb x y && ltb y (x + length src)) ≡ true = ground arith in
          rw (e, f, g) (get_or-take src c (y - x) (ground arith))
      | inr e ↦ ground (
        arith,
        r,
        get_or-drop src c (y - (x + c)),
        ap (λ k. get_or src k 0) {x = c + (y - (x + c))} {y = y - x},
      )
    ])

module _ (v : Volume) (is : IsVolume v.device) (i : Inode) (bound : ℕ)
    (small : indirect_start v i + v.block_size < u64_mod) where
  write_existing_from-Overwritten :
      (fuel x : ℕ) (src : List ℕ) (d : Disk) (m : IsMapped v i d bound)
      → IsApart v i bound m.address
      → x + length src ≤ bound
      → length src < fuel
      → (d' : Disk) × (write_existing_from fuel v i x src d ≡ (some tt, d'))
        × Overwritten v is i bound small d m x src d'
  unfolding write_existing_from
  write_existing_from-Overwritten zero x src d m apart h f = elim f [ ]
  write_existing_from-Overwritten (suc fuel) x [] d m apart h f =
      (d, refl, record { assigned = m.assigned; bytes = λ y hy. ground arith })
  write_existing_from-Overwritten (suc fuel) x (b ∷ bs) d m apart h f =
      let src : List ℕ = b ∷ bs in
      let n = length src in
      let c = block_count v x n in
      let r = mod_lt x m.some_size in
      let c_pos : 0 < c = ground arith in
      let c_le : c ≤ n = ground arith in
      let l = length-take c src in
      let l' = length-drop c src in
      let c_in : x % v.block_size + length (take c src) ≤ v.block_size = ground (arith, l) in
      let chunk = take c src in
      let p = place v is i d bound m x in
      let d1 = (BlockDev.write v.device d p chunk).1 in
      let o1 =
        chunk-Overwritten v is i bound small d m apart x chunk (omega (arith, l)) (omega (arith, l))
          c_in in
      let fits =
        in_volume v is i bound small d m apart x chunk (omega (arith, l)) (omega (arith, l)) c_in in
      let (d', e, o2) =
        write_existing_from-Overwritten fuel (x + c) (drop c src) d1
          (remap v is i bound small m o1.assigned) apart (omega (arith, l')) (omega (arith, l')) in
      let nz : (n == 0) ≡ false = ground arith in
      let next : add64 x c ≡ x + c = omega (arith, m.no_wrap) in
      let rest : M (Unit {0}) = write_existing_from fuel v i (x + c) (drop c src) in
      (
        d',
        rw (nz, next)
            (bind-some (disk_offset v i x) (λ o. write_m v o chunk >> rest) d
                (disk_offset-place v is i d bound m x (omega arith))
              ∙ bind-some (write_m v p chunk) (λ _. rest) d (write_m-some v is p chunk d fits)
              ∙ e),
        record {
          assigned = o2.assigned;
          bytes = λ y hy.
              o2.bytes y hy
              ∙ ap
                  (λ (k : ℕ).
                    if leb (x + c) y && ltb y (x + c + length (drop c src))
                    then get_or (drop c src) (y - (x + c)) 0
                    else k)
                  (o1.bytes y hy)
              ∙ two_parts x c y (byte_at v.device d (place v is i d bound m y)) src c_le;
        },
      )

  -- `ufs2_write_existing` within the size of a file whose blocks have addresses, in the volume and
  -- apart from each other and from the indirect block, which ends below 2 ^ 64: it succeeds, the file
  -- then holds the bytes written in their range and its old bytes elsewhere, and its blocks stay where
  -- they were.
  pub write_existing-Overwritten :
      (x : ℕ) (src : List ℕ) (d : Disk) (m : IsMapped v i d bound)
      → IsApart v i bound m.address
      → x + length src ≤ i.size
      → i.size ≤ bound
      → let (ok, d') = write_existing v i x src d in
        (ok ≡ some tt) × Overwritten v is i bound small d m x src d'
  unfolding write_existing
  write_existing-Overwritten x src d m apart h hs =
      let g : (ltb i.size x || ltb (i.size - x) (length src)) ≡ false = ground arith in
      let (d', e, o) =
        write_existing_from-Overwritten (length src + 1) x src d m apart (omega arith)
          (omega arith) in
      rw (g, e) (refl, o)

  file_bytes_self :
      (d : Disk) (m : IsMapped v i d bound) (x : ℕ) (src : List ℕ)
      → ((k : ℕ)
          → k < length src
          → byte_at v.device d (place v is i d bound m (x + k)) ≡ get_or src k 0)
      → file_bytes v is i d bound m x (length src) ≡ src
  file_bytes_self d m x [] h = refl
  file_bytes_self d m x (b ∷ bs) h =
      let at = λ (k : ℕ). byte_at v.device d (place v is i d bound m k) in
      ap₂ ◌∷◌ (ap at {x = x} {y = x + 0} (omega arith) ∙ h 0 (omega arith)) (
        file_bytes_self d m (x + 1) bs
          (λ k p. ap at {x = x + 1 + k} {y = x + suc k} (omega arith) ∙ h (suc k) (omega arith)))

  -- `ufs2_read` of the range that `ufs2_write_existing` wrote within the size of a
  -- file gives what was written, if the blocks of the file have addresses, in the volume and apart from
  -- each other and from the indirect block.
  pub read-write_existing :
      (x : ℕ) (src : List ℕ) (d : Disk) (m : IsMapped v i d bound)
      → IsApart v i bound m.address
      → x + length src ≤ i.size
      → i.size ≤ bound
      → let d' = (write_existing v i x src d).1 in read v i x (length src) d' ≡ (some src, d')
  read-write_existing x src d m apart h hs =
      let (_, o) = write_existing-Overwritten x src d m apart h hs in
      let d' = (write_existing v i x src d).1 in
      let m' = remap v is i bound small m o.assigned in
      let e : leb (x + length src) i.size ≡ true = ground arith in
      read-file_bytes v is i d' bound m' x (length src) hs
      ∙ rw e (
          ap (λ l. (some l, d'))
            (file_bytes_self d' m' x src (λ k p.
              o.bytes (x + k) (omega arith)
              ∙ back k p (byte_at v.device d (place v is i d bound m (x + k))))))
    where
      back :
          (k : ℕ)
          → k < length src
          → (old : ℕ)
          → (if leb x (x + k) && ltb (x + k) (x + length src)
              then get_or src (x + k - x) 0
              else old)
            ≡ get_or src k 0
      back k p old = ground (arith, ap (λ t. get_or src t 0) {x = x + k - x} {y = k})
