-- ===== src/BlockDev/Write.antt =====
-- kern/blockdev.c: `blockdev_write` against the volume as a sequence of bytes.
use openproninx.Base.{
  ℕ, zero, suc, ◌+◌, ◌-◌, ◌/◌, ◌%◌, ◌≤◌, ◌<◌, ◌≡◌, ◌⊎◌, refl, ap, ap₂, ◌∙◌, sym, inl, inr,
  Bool-cases, none, some, Bool, true, false, ◌&&◌, if◌then◌else◌, List, [], ◌∷◌, arith, ◌==◌, ltb,
  leb, get_or, length, drop, length-drop,
}
use openproninx.BlockDev
use openproninx.BlockDev.{
  BlockDev, Disk, Sector, sector_size, patch, put_sector, round_count, out_of_range, write_loop,
}
use openproninx.BlockDev.Bytes.{
  IsVolume, capacity, byte_at, bytes_at, out_of_range_lem, bytes_at-congr,
}
use openproninx.BlockDev.Read.{round_lem, read-bytes_at}

-- The disk `d'` is `d` with the bytes of `src` from offset `o` of the volume on, and nothing else.
pub record Patched (v : BlockDev) (d : Disk) (o : ℕ) (src : List ℕ) (d' : Disk) : Type 0 where
  pub inside :
      (x : ℕ)
      → byte_at v d' x
        ≡ (if leb o x && ltb x (o + length src) then get_or src (x - o) 0 else byte_at v d x)
  pub outside :
      (dev lba k : ℕ)
      → (dev == v.device && (leb v.first_lba lba && ltb lba (v.first_lba + v.sector_count))) ≡ false
      → d' dev lba k ≡ d dev lba k

pub get_or-drop : (src : List ℕ) (c i : ℕ) → get_or (drop c src) i 0 ≡ get_or src (c + i) 0
get_or-drop src zero i = ap (λ k. get_or src k 0) (omega arith)
get_or-drop [] (suc c) i = refl
get_or-drop (x ∷ src) (suc c) i =
    let e : suc c + i ≡ suc (c + i) = omega arith in rw e (get_or-drop src c i)

-- One round of the loop.
round-inside :
    (v : BlockDev) (d : Disk) (o c : ℕ) (src : List ℕ) (x : ℕ)
    → o % sector_size + c ≤ sector_size
    → byte_at v
        (put_sector d v.device
          (v.first_lba + o / sector_size)
          (patch (d v.device (v.first_lba + o / sector_size)) (o % sector_size) c src))
        x
      ≡ (if leb o x && ltb x (o + c) then get_or src (x - o) 0 else byte_at v d x)
round-inside v d o c src x h =
    elim (Bool-cases (v.first_lba + o / sector_size == v.first_lba + x / sector_size)) [
      | inl e ↦
          let same : o / sector_size ≡ x / sector_size = ground arith in
          let k : x % sector_size - o % sector_size ≡ x - o = omega arith in
          let same_sector = ap (λ t. d v.device (v.first_lba + t) (x % sector_size)) same in
          let same_byte = ap (λ t. get_or src t 0) k in
          let dev : (v.device == v.device) ≡ true = ground arith in
          rw (e, dev) (ground (arith, same_sector, same_byte))
      | inr e ↦ rw e (ground arith)
    ]

write_loop_lem :
    (fuel : ℕ) (v : BlockDev) (d : Disk) (o : ℕ) (src : List ℕ)
    → IsVolume v
    → o + length src ≤ capacity v
    → length src < fuel
    → ((write_loop fuel v d o src).0 ≡ true) × Patched v d o src (write_loop fuel v d o src).1
unfolding write_loop
write_loop_lem zero v d o src is h f = elim f [ ]
write_loop_lem (suc fuel) v d o [] is h f =
    (refl, record { inside = λ x. ground arith; outside = λ dev lba k out. refl })
write_loop_lem (suc fuel) v d o (b ∷ bs) is h f =
    let src : List ℕ = b ∷ bs in
    let n = length src in
    let r = round_lem v o n is h (omega arith) in
    let c = round_count o n in
    let q = v.first_lba + o / sector_size in
    let d1 : Disk = put_sector d v.device q (patch (d v.device q) (o % sector_size) c src) in
    let nz : (n == 0) ≡ false = ground arith in
    let len = length-drop c src in
    let ih =
      write_loop_lem fuel v d1 (o + c) (drop c src) is (omega (arith, r.within))
        (omega (arith, r.within, r.some_bytes)) in
    let step = λ (x : ℕ). round-inside v d o c src x r.in_sector in
    rw (nz, r.next, r.sector, r.small)
      (
        ih.0,
        record {
          inside = λ x.
              ih.1.inside x
              ∙ ground (
                arith,
                step x,
                get_or-drop src c (x - (o + c)),
                r.within,
                ap (λ t. get_or src t 0) {x = c + (x - (o + c))} {y = x - o},
              );
          outside = λ dev lba k out. ih.1.outside dev lba k out ∙ ground (arith, r.inside);
        },
      )

-- On a volume whose sector numbers fit 32 bits `blockdev_write` succeeds exactly for the ranges that
-- lie in the volume. It then sets the bytes of the range to the source's and changes no other byte of
-- any device; a refused write changes none.
pub write-Patched :
    (v : BlockDev) (d : Disk) (o : ℕ) (src : List ℕ)
    → IsVolume v
    → let (ok, d') = BlockDev.write v d o src in
      (ok ≡ leb (o + length src) (capacity v)) × Patched v d o (if ok then src else []) d'
unfolding BlockDev.write
write-Patched v d o src is = elim (Bool-cases (leb (o + length src) (capacity v))) [
  | inl e ↦
      let h : o + length src ≤ capacity v = ground arith in
      let w = write_loop_lem (length src + 1) v d o src is h (omega arith) in
      rw ((out_of_range_lem v o (length src) is).0 h, w.0) (sym e, w.1)
  | inr e ↦
      let h : capacity v < o + length src = ground arith in
      rw ((out_of_range_lem v o (length src) is).1 h)
        (sym e, record { inside = λ x. ground arith; outside = λ dev lba k out. refl })
]

bytes_at_self :
    (v : BlockDev) (d : Disk) (o : ℕ) (src : List ℕ)
    → ((i : ℕ) → i < length src → byte_at v d (o + i) ≡ get_or src i 0)
    → bytes_at v d o (length src) ≡ src
bytes_at_self v d o [] h = refl
bytes_at_self v d o (b ∷ bs) h =
    ap₂ ◌∷◌ (ap (byte_at v d) {y = o + 0} (omega arith) ∙ h 0 (omega arith)) (
      bytes_at_self v d (o + 1) bs
        (λ i p. ap (byte_at v d) {y = o + suc i} (omega arith) ∙ h (suc i) (omega arith)))

-- On a volume whose sector numbers fit 32 bits, what was written to a range that lies in it is what is
-- read back from the range.
pub read-write :
    (v : BlockDev) (d : Disk) (o : ℕ) (src : List ℕ)
    → IsVolume v
    → o + length src ≤ capacity v
    → BlockDev.read v (BlockDev.write v d o src).1 o (length src) ≡ some src
read-write v d o src is h =
    let (ok, w) = write-Patched v d o src is in
    let e : leb (o + length src) (capacity v) ≡ true = ground arith in
    let w' = (rw (ok ∙ e) at w) in
    read-bytes_at v (BlockDev.write v d o src).1 o (length src) is
    ∙ rw e (
        ap some (
          bytes_at_self v (BlockDev.write v d o src).1 o src (λ i p. w'.inside (o + i) ∙ back i p)))
  where
    back :
        (i : ℕ)
        → i < length src
        → (if leb o (o + i) && ltb (o + i) (o + length src)
            then get_or src (o + i - o) 0
            else byte_at v d (o + i))
          ≡ get_or src i 0
    back i p = ground (arith, ap (λ t. get_or src t 0) {x = o + i - o} {y = i})

-- On a volume whose sector numbers fit 32 bits a write does not change what is read from a range that
-- it does not touch.
pub read-write_apart :
    (v : BlockDev) (d : Disk) (o p n : ℕ) (src : List ℕ)
    → IsVolume v
    → (p + n ≤ o) ⊎ (o + length src ≤ p)
    → BlockDev.read v (BlockDev.write v d o src).1 p n ≡ BlockDev.read v d p n
read-write_apart v d o p n src is apart =
    let (ok, w) = write-Patched v d o src is in
    read-bytes_at v (BlockDev.write v d o src).1 p n is
    ∙ ap (λ (l : List ℕ). if leb (p + n) (capacity v) then some l else none)
        (bytes_at-congr v (BlockDev.write v d o src).1 d p n
          (λ i hi hj. w.inside i ∙ other (BlockDev.write v d o src).0 i hi hj))
    ∙ sym (read-bytes_at v d p n is)
  where
    other :
        (b : Bool) (i : ℕ)
        → p ≤ i
        → i < p + n
        → (if leb o i && ltb i (o + length (if b then src else []))
            then get_or (if b then src else []) (i - o) 0
            else byte_at v d i)
          ≡ byte_at v d i
    other true i hi hj = ground (arith, apart)
    other false i hi hj = ground arith
