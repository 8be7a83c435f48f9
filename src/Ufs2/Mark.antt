-- ===== src/Ufs2/Mark.antt =====
-- kern/ufs2.c: what `ufs2_set_fragment` and the marking loop of `ufs2_alloc_block` do to the map, as bits.
use openproninx.Base.{
  ℕ, zero, suc, ◌+◌, ◌-◌, ◌/◌, ◌%◌, ◌^◌, ◌≤◌, ◌<◌, ◌≡◌, refl, ap, ◌∙◌, sym, subst, Bool, true,
  false, Bool-cases, inl, inr, ◌&&◌, Option, none, some, [], ◌∷◌, arith, ◌==◌, ltb, leb,
  if◌then◌else◌, get_or, add32, add64, u32_mod, all_below, all_below-true, test_eq,
}
use Prim.Native.Nat.{bit_and}
use openproninx.BlockDev
use openproninx.BlockDev.{BlockDev, Disk}
use openproninx.BlockDev.Bytes.{IsVolume, capacity, byte_at}
use openproninx.BlockDev.Write.{write-Patched}
use openproninx.Ufs2.{Volume, read_m, write_m}
use openproninx.Ufs2.Fragments.{has_bit, without_bit}
use openproninx.Ufs2.Access.{bind-some, read_m-some, write_m-some}
use openproninx.BlockDev.Read.{read-bytes_at}
use openproninx.Ufs2.Blocks.{byte_has, set_fragment, mark, unmark}

-- Whether a fragment is free in the map at byte `map` of the volume: bit `j % 8` of byte `j / 8`.
abbrev pub is_free : Volume → Disk → ℕ → ℕ → Bool
is_free v d map j = has_bit (byte_at v.device d (map + j / 8)) j

cleared_bit : ℕ → ℕ → ℕ → Bool
cleared_bit k j value =
    let cleared = bit_and value (255 - 2 ^ k) in
    cleared_at (k == j) (bit_and cleared (2 ^ j)) (bit_and value (2 ^ j))
  where
    cleared_at : Bool → ℕ → ℕ → Bool
    cleared_at true now old = now == 0
    cleared_at false now old = now == old

table : all_below 8 (λ k. all_below 8 (λ j. all_below 256 (cleared_bit k j))) ≡ true
unfolding all_below cleared_bit
table = refl

-- Clearing a bit of a byte clears it and leaves the seven others.
has_bit-without_bit :
    (value k j : ℕ)
    → value < 256
    → has_bit (without_bit value k) j ≡ (if k % 8 == j % 8 then false else has_bit value j)
unfolding cleared_bit
has_bit-without_bit value k j small =
    let row =
      all_below-true 8 (λ k. all_below 8 (λ j. all_below 256 (cleared_bit k j))) (k % 8) table
        (omega arith) in
    let line =
      all_below-true 8 (λ j. all_below 256 (cleared_bit (k % 8) j)) (j % 8) row (omega arith) in
    let cell = all_below-true 256 (cleared_bit (k % 8) (j % 8)) value line small in
    elim (Bool-cases (k % 8 == j % 8)) [
      | inl e ↦ rw e (ground (arith, rw e at cell))
      | inr e ↦ rw e (ground (arith, rw e at cell))
    ]

small_byte : ℕ → ℕ → Bool
small_byte k value = ltb (bit_and value (255 - 2 ^ k)) 256

small_table : all_below 8 (λ k. all_below 256 (small_byte k)) ≡ true
unfolding all_below small_byte
small_table = refl

without_bit-lt : (value k : ℕ) → value < 256 → without_bit value k < 256
unfolding small_byte
without_bit-lt value k small =
    let row =
      all_below-true 8 (λ k. all_below 256 (small_byte k)) (k % 8) small_table (omega arith) in
    let cell = all_below-true 256 (small_byte (k % 8)) value row small in ground (arith, cell)

-- The bytes of a volume are bytes.
abbrev pub AreBytes : Volume → Disk → Type 0
AreBytes v d = (o : ℕ) → byte_at v.device d o < 256

-- The disk `d'` is `d` with the fragments from `from` up to `to` no longer free.
pub record Marked (v : Volume) (map : ℕ) (d : Disk) (from to : ℕ) (d' : Disk) : Type 0 where
  pub bits :
      (j : ℕ) → is_free v d' map j ≡ (if leb from j && ltb j to then false else is_free v d map j)
  pub before : (x : ℕ) → x < map → byte_at v.device d' x ≡ byte_at v.device d x
  pub outside :
      (dev lba k : ℕ)
      → (dev == v.device.device
          && (leb v.device.first_lba lba && ltb lba (v.device.first_lba + v.device.sector_count)))
        ≡ false
      → d' dev lba k ≡ d dev lba k

module _ (v : Volume) (is : IsVolume v.device) (map : ℕ) where
  -- A fragment is marked by one write of one byte of the map.
  set_fragment-write :
      (bit : ℕ) (d : Disk)
      → map + bit / 8 + 1 ≤ capacity v.device
      → set_fragment v map bit true d ≡ (
        some tt,
        (BlockDev.write v.device d
            (map + bit / 8)
            (without_bit (byte_at v.device d (map + bit / 8)) bit ∷ [])).1,
      )
  unfolding set_fragment
  set_fragment-write bit d inside =
      let small = is.addressable in
      let exact : add64 map (bit / 8) ≡ map + bit / 8 = omega (arith, inside, small) in
      let x = without_bit (byte_at v.device d (map + bit / 8)) bit in
      rw exact (
        bind-some (read_m v (map + bit / 8) 1)
          (λ bytes. write_m v (map + bit / 8) (without_bit (get_or bytes 0 0) bit ∷ [])) d
          (read_m-some v is (map + bit / 8) 1 d inside)
        ∙ write_m-some v is (map + bit / 8) (x ∷ []) d inside)

  set_fragment-Marked :
      (bit : ℕ) (d d' : Disk)
      → AreBytes v d
      → map + bit / 8 + 1 ≤ capacity v.device
      → set_fragment v map bit true d ≡ (some tt, d')
      → Marked v map d bit (bit + 1) d' × AreBytes v d'
  set_fragment-Marked bit d d' bytes inside h =
      let at = map + bit / 8 in
      let x = without_bit (byte_at v.device d at) bit in
      let fits : leb (at + 1) (capacity v.device) ≡ true = ground (arith, inside) in
      let (ok, p) = write-Patched v.device d at (x ∷ []) is in
      let now : (BlockDev.write v.device d at (x ∷ [])).1 ≡ d' =
        ap (λ r. r.1) (sym (set_fragment-write bit d inside) ∙ h) in
      let w = rw (ok ∙ fits, now) at p in
      let byte : (o : ℕ) → byte_at v.device d' o ≡ (if o == at then x else byte_at v.device d o) =
        λ o. w.inside o ∙ elim (Bool-cases (o == at)) [
          | inl e ↦
              let in_range : (leb at o && ltb o (at + 1)) ≡ true = ground arith in
              let first : o - at ≡ 0 = ground arith in rw (e, in_range, first) refl
          | inr e ↦
              let out : (leb at o && ltb o (at + 1)) ≡ false = ground arith in rw (e, out) refl
        ] in
      (
        record {
          bits = λ j. elim (Bool-cases (map + j / 8 == at)) [
            | inl e ↦
                let near : map + j / 8 ≡ at = test_eq e in
                byte_bit j near (byte (map + j / 8) ∙ rw e refl)
            | inr e ↦
                let far : (leb bit j && ltb j (bit + 1)) ≡ false = ground (arith, e) in
                rw far (ap (λ n. has_bit n j) (byte (map + j / 8) ∙ rw e refl))
          ];
          before =
              λ y lt. let miss : (y == at) ≡ false = ground (arith, lt) in byte y ∙ rw miss refl;
          outside = w.outside;
        },
        λ o. elim (Bool-cases (o == at)) [
          | inl e ↦
              subst (λ n. n < 256) (sym (byte o ∙ rw e refl)) (without_bit-lt _ bit (bytes at))
          | inr e ↦ subst (λ n. n < 256) (sym (byte o ∙ rw e refl)) (bytes o)
        ],
      )
    where
      byte_bit :
          (j : ℕ)
          → map + j / 8 ≡ map + bit / 8
          → byte_at v.device d' (map + j / 8) ≡ without_bit (byte_at v.device d (map + bit / 8)) bit
          → is_free v d' map j ≡ (if leb bit j && ltb j (bit + 1) then false else is_free v d map j)
      byte_bit j near e =
          let same : (bit % 8 == j % 8) ≡ (leb bit j && ltb j (bit + 1)) = ground (arith, near) in
          ap (λ n. has_bit n j) e
          ∙ has_bit-without_bit (byte_at v.device d (map + bit / 8)) bit j (bytes (map + bit / 8))
          ∙ rw (same, near) refl

  mark_round :
      (k bit i : ℕ) (d d1 : Disk)
      → set_fragment v map (add32 bit i) true d ≡ (some tt, d1)
      → mark (suc k) v map bit i d ≡ mark k v map bit (i + 1) d1
  unfolding mark
  mark_round k bit i d d1 e =
      ap
        (λ (r : Option (Unit {0}) × Disk). elim r.0 as (λ _. Option (Unit {0}) × Disk) [
          | some _ ↦ mark k v map bit (i + 1) r.1
          | none ↦ (none, unmark i v map bit r.1)
        ])
        e

  -- The loop marks the next `k` fragments.
  pub mark-Marked :
      (k bit i : ℕ) (d d' : Disk)
      → AreBytes v d
      → bit + i + k < u32_mod
      → ((j : ℕ) → j < bit + i + k → map + j / 8 + 1 ≤ capacity v.device)
      → mark k v map bit i d ≡ (some tt, d')
      → Marked v map d (bit + i) (bit + i + k) d'
  unfolding mark
  mark-Marked zero bit i d d' bytes word inside h =
      let same : d ≡ d' = ap (λ r. r.1) h in
      subst (λ d'. Marked v map d (bit + i) (bit + i + 0) d') same
        (record {
          bits = λ j.
              let none : (leb (bit + i) j && ltb j (bit + i + 0)) ≡ false = ground arith in
              rw none refl;
          before = λ x lt. refl;
          outside = λ dev lba k out. refl;
        })
  mark-Marked (suc k) bit i d d' bytes word inside h =
      let exact : add32 bit i ≡ bit + i = omega (arith, word) in
      let here = inside (bit + i) (omega arith) in
      let d1 =
        (BlockDev.write v.device d (map + (bit + i) / 8)
          (without_bit (byte_at v.device d (map + (bit + i) / 8)) (bit + i) ∷ [])).1 in
      let wrote : set_fragment v map (bit + i) true d ≡ (some tt, d1) =
        set_fragment-write (bit + i) d here in
      let (first, bytes') = set_fragment-Marked (bit + i) d d1 bytes here wrote in
      let at : bit + i + suc k ≡ bit + (i + 1) + k = omega arith in
      let later =
        mark-Marked k bit (i + 1) d1 d' bytes' (omega (arith, word))
          (λ j lt. inside j (omega (arith, lt)))
          (sym (mark_round k bit i d d1 (ap (λ n. set_fragment v map n true d) exact ∙ wrote))
            ∙ h) in
      record {
        bits = λ j. later.bits j ∙ joined j d1 (first.bits j);
        before = λ x lt. later.before x lt ∙ first.before x lt;
        outside = λ dev lba n out. later.outside dev lba n out ∙ first.outside dev lba n out;
      }
    where
      joined :
          (j : ℕ) (d1 : Disk)
          → is_free v d1 map j
            ≡ (if leb (bit + i) j && ltb j (bit + i + 1) then false else is_free v d map j)
          → (if leb (bit + (i + 1)) j && ltb j (bit + (i + 1) + k)
              then false
              else is_free v d1 map j)
            ≡ (if leb (bit + i) j && ltb j (bit + i + suc k) then false else is_free v d map j)
      joined j d1 e = elim (Bool-cases (leb (bit + (i + 1)) j && ltb j (bit + (i + 1) + k))) [
        | inl q ↦
            let all : (leb (bit + i) j && ltb j (bit + i + suc k)) ≡ true = ground (arith, q) in
            rw (q, all) refl
        | inr q ↦
            let same : (leb (bit + i) j && ltb j (bit + i + 1))
                ≡ (leb (bit + i) j && ltb j (bit + i + suc k)) =
              ground (arith, q) in
            rw (q) (e ∙ rw same refl)
      ]

  -- The test of the code, on a byte of the volume.
  pub byte_has-is_free :
      (j : ℕ) (d : Disk)
      → map + j / 8 + 1 ≤ capacity v.device
      → byte_has (BlockDev.read v.device d (add64 map (j / 8)) 1) j ≡ is_free v d map j
  byte_has-is_free j d inside =
      let small = is.addressable in
      let exact : add64 map (j / 8) ≡ map + j / 8 = omega (arith, inside, small) in
      let fits : leb (map + j / 8 + 1) (capacity v.device) ≡ true = ground (arith, inside) in
      ap (λ o. byte_has o j) {y = some (byte_at v.device d (map + j / 8) ∷ [])}
        (ap (λ o. BlockDev.read v.device d o 1) exact
          ∙ read-bytes_at v.device d (map + j / 8) 1 is
          ∙ rw fits refl)
