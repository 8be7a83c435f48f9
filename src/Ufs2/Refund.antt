-- ===== src/Ufs2/Refund.antt =====
-- kern/ufs2.c: a fragment that was allocated can be freed.
use openproninx.Base.{
  ℕ, suc, ◌+◌, ◌-◌, ◌*◌, ◌/◌, ◌%◌, ◌^◌, ◌≤◌, ◌<◌, ◌≡◌, refl, ap, ◌∙◌, sym, Bool, true, false,
  Bool-cases, inl, inr, ◌||◌, ◌&&◌, some, [], ◌∷◌, arith, ◌==◌, ltb, leb, if◌then◌else◌, get_or,
  add64, mul64, u32_mod, u64_mod, mul_le_right, row_and_place, all_below, all_below-true,
}
use Prim.Native.Nat.{bit_and, bit_or}
use openproninx.BlockDev
use openproninx.BlockDev.{Disk}
use openproninx.BlockDev.Bytes.{IsVolume, capacity, byte_at}
use openproninx.BlockDev.Write.{write-Patched}
use openproninx.Ufs2.{Volume, M, ◌>>=◌, ◌>>◌, refuse, read_m, write_m}
use openproninx.Ufs2.Geometry.{cg_free_map, cg_header_size, cg_offset}
use openproninx.Ufs2.Access.{bind-some, read_m-some, write_m-some}
use openproninx.Ufs2.Inodes.{bytes_of}
use openproninx.Ufs2.Steady.{Steady}
use openproninx.Ufs2.Header.{Located, cg_free_map-Located, cg_free_map-Steady}
use openproninx.Ufs2.Fragments.{
  has_bit, without_bit, with_bit, free_bit, free_entry, free_fragment, alloc_fragment, Taken,
  alloc_fragment-Taken,
}

cleared_bit : ℕ → ℕ → Bool
cleared_bit k value =
    let cleared = bit_and value (255 - 2 ^ k) in
    bit_and value (2 ^ k) == 0 || (bit_and cleared (2 ^ k) == 0 && bit_or cleared (2 ^ k) == value)

table : all_below 8 (λ bit. all_below 256 (cleared_bit bit)) ≡ true
unfolding all_below cleared_bit
table = refl

-- A bit that is cleared is clear, and setting it again gives the old byte.
with_bit-without_bit :
    (value bit : ℕ)
    → value < 256
    → has_bit value bit ≡ true
    → (has_bit (without_bit value bit) bit ≡ false) × (with_bit (without_bit value bit) bit ≡ value)
unfolding cleared_bit
with_bit-without_bit value bit small h =
    let k = bit % 8 in
    let row = all_below-true 8 (λ bit. all_below 256 (cleared_bit bit)) k table (omega arith) in
    let cell = all_below-true 256 (cleared_bit k) value row small in
    (ground (arith, cell), ground (arith, cell))

refuse-pass : {A : Type 0} → (c : Bool) (k : M A) (d : Disk) → c ≡ false → (refuse c >> k) d ≡ k d
refuse-pass c k d h = ap (λ b. (refuse b >> k) d) h

-- The groups lie in the volume, and their numbers in words.
pub record IsGeometry (v : Volume) : Type 0 where
  pub word : v.cylinder_group_size < u32_mod
  pub groups : v.cylinder_groups ≤ u32_mod
  pub per_group : v.fragments_per_group + 7 < u32_mod
  pub total : v.cylinder_groups * v.fragments_per_group ≤ u64_mod
  pub inside :
      (g o : ℕ)
      → g < v.cylinder_groups
      → cg_offset v g ≡ some o
      → o + v.cylinder_group_size ≤ capacity v.device

number_lem :
    (group bit per groups : ℕ)
    → group < groups
    → bit < per
    → groups * per ≤ u64_mod
    → let f = add64 (mul64 group per) bit in (f / per ≡ group) × (f % per ≡ bit)
number_lem group bit per groups hg hb ht =
    let more : suc group * per ≤ groups * per = mul_le_right per hg in
    let e : add64 (mul64 group per) bit ≡ group * per + bit = omega arith in
    rw e (row_and_place group bit per hb)

module _ (v : Volume) (is : IsVolume v.device) (geometry : IsGeometry v) (d : Disk)
    (bytes : (dev lba k : ℕ) → d dev lba k < 256) (f : ℕ) (d' : Disk) (t : Taken v d f d') where
  abbrev at : ℕ
  at = add64 t.map (t.bit / 8)

  located : Located v t.group t.map t.entries
  located =
      cg_free_map-Located v t.group d {d' = (cg_free_map v t.group d).1} geometry.word
        (ap (λ o. (o, (cg_free_map v t.group d).1)) t.map_there)

  room :
      (at ≡ t.map + t.bit / 8)
      × (at + 1 ≤ capacity v.device)
      × (located.offset + cg_header_size ≤ at)
  room =
      let l = geometry.inside t.group located.offset t.group_in located.there in
      let small = is.addressable in
      let exact : t.map + t.bit / 8 + 1 ≤ capacity v.device =
        omega (arith, l, located.inside, located.few, geometry.per_group, t.bit_in) in
      (
        omega (arith, exact, small),
        omega (arith, exact, small),
        omega (arith, exact, small, located.behind),
      )

  value_lem : get_or t.bytes 0 0 ≡ byte_at v.device d at
  value_lem = ap (λ l. get_or l 0 0) (sym (bytes_of v.device d at 1 is room.1 t.was))

  taken_byte :
      (o : ℕ)
      → byte_at v.device d' o
        ≡ (if o == at then without_bit (byte_at v.device d at) t.bit else byte_at v.device d o)
  taken_byte o =
      let x = without_bit (get_or t.bytes 0 0) t.bit in
      let w = (rw t.now at (write-Patched v.device d at (x ∷ []) is)) in
      let old = ap (λ k. without_bit k t.bit) value_lem in
      w.1.inside o ∙ elim (Bool-cases (o == at)) [
        | inl e ↦
            let in_range : (leb at o && ltb o (at + 1)) ≡ true = ground arith in
            let first : o - at ≡ 0 = ground arith in rw (e, in_range, first) old
        | inr e ↦ let out : (leb at o && ltb o (at + 1)) ≡ false = ground arith in rw (e, out) refl
      ]

  map_again : cg_free_map v t.group d' ≡ (some (t.map, t.entries), d')
  unfolding Steady
  map_again =
      let (r, e, e') =
        cg_free_map-Steady v t.group located.offset d d' is located.there
          (λ o p q. taken_byte o ∙ ground (arith, room)) in
      e' ∙ ap (λ r. (r, d')) (ap (λ x. x.0) (sym e) ∙ t.map_there)

  byte_now : byte_at v.device d' at ≡ without_bit (byte_at v.device d at) t.bit
  byte_now = let e : (at == at) ≡ true = ground arith in taken_byte at ∙ rw e refl

  restored :
      (has_bit (byte_at v.device d' at) t.bit ≡ false)
      × (with_bit (byte_at v.device d' at) t.bit ≡ byte_at v.device d at)
  restored =
      let small =
        bytes v.device.device (v.device.first_lba + at / BlockDev.sector_size)
          (at % BlockDev.sector_size) in
      let (clear, set) =
        with_bit-without_bit (byte_at v.device d at) t.bit small
          (ap (λ k. has_bit k t.bit) (sym value_lem) ∙ t.was_free) in
      (ap (λ k. has_bit k t.bit) byte_now ∙ clear, ap (λ k. with_bit k t.bit) byte_now ∙ set)

  abbrev freed : Disk
  freed = (BlockDev.write v.device d' at (byte_at v.device d at ∷ [])).1

  free_entry-freed : free_entry v t.bit t.map t.entries d' ≡ (some tt, freed)
  free_entry-freed =
      let old = byte_at v.device d' at in
      let in_map : leb t.entries t.bit ≡ false = ground (arith, t.bit_in) in
      refuse-pass (leb t.entries t.bit) (read_m v at 1 >>= free_bit v t.bit at) d' in_map
      ∙ bind-some (read_m v at 1) (free_bit v t.bit at) d' (read_m-some v is at 1 d' room.1)
      ∙ refuse-pass (has_bit old t.bit) (write_m v at (with_bit old t.bit ∷ [])) d' restored.0
      ∙ ap (λ k. write_m v at (k ∷ []) d') restored.1
      ∙ write_m-some v is at (byte_at v.device d at ∷ []) d' room.1

  free_fragment-freed : free_fragment v f d' ≡ (some tt, freed)
  unfolding free_fragment
  free_fragment-freed =
      let (q, r) =
        number_lem t.group t.bit v.fragments_per_group v.cylinder_groups t.group_in
          (omega (arith, t.bit_in, located.few)) geometry.total in
      let group : f / v.fragments_per_group ≡ t.group =
        ap (λ k. k / v.fragments_per_group) t.number ∙ q in
      let bit : f % v.fragments_per_group ≡ t.bit =
        ap (λ k. k % v.fragments_per_group) t.number ∙ r in
      let ok : (v.fragments_per_group == 0 || leb v.cylinder_groups t.group) ≡ false =
        ground (arith, t.group_in, t.bit_in, located.few) in
      let same : t.group % u32_mod ≡ t.group = omega (arith, t.group_in, geometry.groups) in
      rw (group, bit)
        (refuse-pass (v.fragments_per_group == 0 || leb v.cylinder_groups t.group)
            (cg_free_map v (t.group % u32_mod) >>= λ p. free_entry v t.bit p.0 p.1) d' ok
          ∙ bind-some (cg_free_map v (t.group % u32_mod)) (λ p. free_entry v t.bit p.0 p.1) d'
              (ap (λ g. cg_free_map v g d') same ∙ map_again)
          ∙ free_entry-freed)

  freed_byte : (o : ℕ) → byte_at v.device freed o ≡ byte_at v.device d o
  freed_byte o =
      let (ok, w) = write-Patched v.device d' at (byte_at v.device d at ∷ []) is in
      let e : leb (at + 1) (capacity v.device) ≡ true = ground (arith, room) in
      let w' = (rw (ok ∙ e) at w) in
      w'.inside o ∙ elim (Bool-cases (o == at)) [
        | inl e ↦
            let in_range : (leb at o && ltb o (at + 1)) ≡ true = ground arith in
            let first : o - at ≡ 0 = ground arith in
            let same : o ≡ at = ground arith in
            rw (in_range, first) (ap (byte_at v.device d) (sym same))
        | inr e ↦
            let out : (leb at o && ltb o (at + 1)) ≡ false = ground arith in
            rw out (taken_byte o ∙ rw e refl)
      ]

  freed-Taken :
      ((free_fragment v f d').0 ≡ some tt)
      × ((o : ℕ) → byte_at v.device (free_fragment v f d').1 o ≡ byte_at v.device d o)
  freed-Taken = (
    ap (λ r. r.0) free_fragment-freed,
    λ o. ap (λ r. byte_at v.device r.1 o) free_fragment-freed ∙ freed_byte o,
  )

-- A fragment that `ufs2_alloc_fragment` gave can be freed, where the disk holds bytes and the groups lie
-- in the volume: `ufs2_free_fragment` then succeeds, and every byte of the volume is what it was before
-- the fragment was allocated.
pub free_fragment-alloc_fragment :
    (v : Volume) (d : Disk) {f : ℕ} {d' : Disk}
    → IsVolume v.device
    → IsGeometry v
    → ((dev lba k : ℕ) → d dev lba k < 256)
    → alloc_fragment v d ≡ (some f, d')
    → ((free_fragment v f d').0 ≡ some tt)
      × ((o : ℕ) → byte_at v.device (free_fragment v f d').1 o ≡ byte_at v.device d o)
free_fragment-alloc_fragment v d {f} {d'} is geometry bytes h =
    freed-Taken v is geometry d bytes f d' (alloc_fragment-Taken v d h)
