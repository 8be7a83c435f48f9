-- ===== src/Ufs2/NewBlock.antt =====
-- kern/ufs2.c: the block that `ufs2_alloc_block` gives.
use openproninx.Base.{
  ℕ, zero, suc, ◌+◌, ◌/◌, ◌≤◌, ◌<◌, ◌≡◌, refl, ap, ◌∙◌, sym, subst, Bool, true, false, Bool-cases,
  inl, inr, ◌&&◌, Option, none, some, arith, ◌==◌, ltb, add32, mul64, add64, u32_mod,
}
use mathlib.Core.Option.{some-injective}
use openproninx.BlockDev
use openproninx.BlockDev.{BlockDev, Disk}
use openproninx.Ufs2.{Volume}
use openproninx.BlockDev.Bytes.{IsVolume, capacity}
use openproninx.Ufs2.Geometry.{cg_free_map}
use openproninx.Ufs2.Header.{cg_free_map-Located}
use openproninx.Ufs2.Refund.{IsGeometry}
use openproninx.Ufs2.Mark.{is_free, AreBytes, Marked, mark-Marked, byte_has-is_free}
use openproninx.Ufs2.Blocks.{byte_has, all_free, mark, scan_blocks, scan_block_groups, alloc_block}

-- Any fuel above the number of entries behind `bit` gives the same.
pub scan_blocks_fuel :
    (fuel fuel' : ℕ) (v : Volume) (group map entries bit : ℕ) (d : Disk)
    → 0 < v.fragments_per_block
    → entries + v.fragments_per_block < u32_mod
    → bit ≤ entries
    → entries < bit + fuel
    → entries < bit + fuel'
    → scan_blocks fuel v group map entries bit d ≡ scan_blocks fuel' v group map entries bit d
unfolding scan_blocks
scan_blocks_fuel zero fuel' v group map entries bit d pos word le lt lt' = absurd (omega arith)
scan_blocks_fuel (suc fuel) zero v group map entries bit d pos word le lt lt' = absurd (omega arith)
scan_blocks_fuel (suc fuel) (suc fuel') v group map entries bit d pos word le lt lt' =
    elim (Bool-cases (ltb entries (add32 bit v.fragments_per_block))) [
      | inl e ↦ rw e refl
      | inr e ↦
          let inside : add32 bit v.fragments_per_block ≤ entries = ground arith in
          let exact : add32 bit v.fragments_per_block ≡ bit + v.fragments_per_block = omega arith in
          let deeper =
            scan_blocks_fuel fuel fuel' v group map entries (add32 bit v.fragments_per_block) d pos
              word inside (omega arith) (omega arith) in
          rw (e, deeper) refl
    ]

all_free_lem :
    (k : ℕ) (v : Volume) (map bit i : ℕ) (d : Disk) (j : ℕ)
    → all_free k v map bit i d ≡ true
    → i ≤ j
    → j < i + k
    → byte_has (BlockDev.read v.device d (add64 map (add32 bit j / 8)) 1) (add32 bit j) ≡ true
unfolding all_free
all_free_lem zero v map bit i d j h lo hi = absurd (omega arith)
all_free_lem (suc k) v map bit i d j h lo hi = elim (Bool-cases (i == j)) [
  | inl e ↦
      let same : i ≡ j = ground arith in
      subst
        (λ m.
          byte_has (BlockDev.read v.device d (add64 map (add32 bit m / 8)) 1) (add32 bit m) ≡ true)
        same (and_true _ _ h).0
  | inr e ↦ all_free_lem k v map bit (i + 1) d j (and_true _ _ h).1 (ground arith) (omega arith)
]
  where
    and_true : (a b : Bool) → a && b ≡ true → (a ≡ true) × (b ≡ true)
    and_true true b h = (refl, h)
    and_true false b h = absurd (cc h)

-- A block was taken: all its fragments were free in the map of a group, and the loop marked them.
record TakenBlock (v : Volume) (d : Disk) (f : ℕ) (d' : Disk) : Type 0 where
  pub group : ℕ
  pub map : ℕ
  pub entries : ℕ
  pub bit : ℕ
  pub group_in : group < v.cylinder_groups
  pub map_there : (cg_free_map v group d).0 ≡ some (map, entries)
  pub bit_in : bit ≤ entries
  pub bits_in : add32 bit v.fragments_per_block ≤ entries
  pub number : f ≡ add64 (mul64 group v.fragments_per_group) bit
  pub were_free :
      (i : ℕ)
      → i < v.fragments_per_block
      → byte_has (BlockDev.read v.device d (add64 map (add32 bit i / 8)) 1) (add32 bit i) ≡ true
  pub marked : mark v.fragments_per_block v map bit 0 d ≡ (some tt, d')

-- The part of `TakenBlock` about one group.
record TakenIn (v : Volume) (group map entries : ℕ) (d : Disk) (f : ℕ) (d' : Disk) : Type 0 where
  pub bit : ℕ
  pub bit_in : bit ≤ entries
  pub bits_in : add32 bit v.fragments_per_block ≤ entries
  pub number : f ≡ add64 (mul64 group v.fragments_per_group) bit
  pub were_free :
      (i : ℕ)
      → i < v.fragments_per_block
      → byte_has (BlockDev.read v.device d (add64 map (add32 bit i / 8)) 1) (add32 bit i) ≡ true
  pub marked : mark v.fragments_per_block v map bit 0 d ≡ (some tt, d')

scan_blocks-TakenIn :
    (fuel : ℕ) (v : Volume) (group map entries bit : ℕ) (d : Disk) {f : ℕ} {d' : Disk}
    → bit ≤ entries
    → scan_blocks fuel v group map entries bit d ≡ some (some f, d')
    → TakenIn v group map entries d f d'
unfolding scan_blocks
scan_blocks-TakenIn zero v group map entries bit d low h = absurd (cc h)
scan_blocks-TakenIn (suc fuel) v group map entries bit d {f} {d'} low h =
    elim (Bool-cases (ltb entries (add32 bit v.fragments_per_block))) [
      | inl e ↦ absurd (cc (rw e at h))
      | inr e ↦ elim (Bool-cases (all_free v.fragments_per_block v map bit 0 d)) [
        | inl a ↦
            found (ground arith) a (mark v.fragments_per_block v map bit 0 d) refl
              (some-injective _ _ (rw (e, a) at h))
        | inr a ↦
            scan_blocks-TakenIn fuel v group map entries (add32 bit v.fragments_per_block) d
              (ground (arith, e)) (rw (e, a) at h)
      ]
    ]
  where
    f' : ℕ
    f' = add64 (mul64 group v.fragments_per_group) bit

    found :
        add32 bit v.fragments_per_block ≤ entries
        → all_free v.fragments_per_block v map bit 0 d ≡ true
        → (r : Option (Unit {0}) × Disk) → mark v.fragments_per_block v map bit 0 d ≡ r
        → (elim r.0 as (λ _. Option ℕ × Disk) [ none ↦ (none, r.1) | some _ ↦ (some f', r.1) ])
          ≡ (some f, d')
        → TakenIn v group map entries d f d'
    found le a (none, d1) m q = absurd (cc (ap (λ (r : Option ℕ × Disk). r.0) q))
    found le a (some _, d1) m q = record {
      bit = bit;
      bit_in = low;
      bits_in = le;
      number = sym (some-injective f' f (ap (λ (r : Option ℕ × Disk). r.0) q));
      were_free =
          λ i lt. all_free_lem v.fragments_per_block v map bit 0 d i a (omega arith) (omega arith);
      marked = m ∙ ap (λ (r : Option ℕ × Disk). (some tt, r.1)) q;
    }

scan_block_groups-TakenBlock :
    (k : ℕ) (v : Volume) (group : ℕ) (d : Disk) {f : ℕ} {d' : Disk}
    → group + k ≤ v.cylinder_groups
    → scan_block_groups k v group d ≡ (some f, d')
    → TakenBlock v d f d'
unfolding scan_block_groups
scan_block_groups-TakenBlock zero v group d le h = absurd (cc (ap (λ (r : Option ℕ × Disk). r.0) h))
scan_block_groups-TakenBlock (suc k) v group d {f} {d'} le h =
    go (λ q. scan_block_groups-TakenBlock k v (group + 1) d (omega arith) q)
      (cg_free_map v group d).0 refl h
  where
    later : Option ℕ × Disk
    later = scan_block_groups k v (group + 1) d

    in_group :
        (later ≡ (some f, d') → TakenBlock v d f d')
        → (map entries : ℕ) → (cg_free_map v group d).0 ≡ some (map, entries)
        → (r : Option (Option ℕ × Disk)) → scan_blocks (entries + 1) v group map entries 0 d ≡ r
        → (elim r as (λ _. Option ℕ × Disk) [ none ↦ later | some result ↦ result ]) ≡ (some f, d')
        → TakenBlock v d f d'
    in_group rec map entries there none e q = rec q
    in_group rec map entries there (some result) e q =
        let t =
          scan_blocks-TakenIn (entries + 1) v group map entries 0 d (omega arith) (e ∙ ap some q) in
        record {
          group = group;
          map = map;
          entries = entries;
          bit = t.bit;
          group_in = omega arith;
          map_there = there;
          bit_in = t.bit_in;
          bits_in = t.bits_in;
          number = t.number;
          were_free = t.were_free;
          marked = t.marked;
        }

    go :
        (later ≡ (some f, d') → TakenBlock v d f d')
        → (m : Option (ℕ × ℕ)) → (cg_free_map v group d).0 ≡ m
        → (elim m as (λ _. Option ℕ × Disk) [
          | none ↦ later
          | some (map, entries) ↦
              elim (scan_blocks (entries + 1) v group map entries 0 d) as (λ _. Option ℕ × Disk) [
                | none ↦ later
                | some result ↦ result
              ]
        ])
          ≡ (some f, d')
        → TakenBlock v d f d'
    go rec none e q = rec q
    go rec (some (map, entries)) e q =
        in_group rec map entries e (scan_blocks (entries + 1) v group map entries 0 d) refl q

alloc_block-TakenBlock :
    (v : Volume) (d : Disk) {f : ℕ} {d' : Disk}
    → alloc_block v d ≡ (some f, d')
    → TakenBlock v d f d'
unfolding alloc_block
alloc_block-TakenBlock v d h = elim (Bool-cases (v.fragments_per_block == 0)) [
  | inl e ↦ absurd (cc (ap (λ (r : Option ℕ × Disk). r.0) (rw e at h)))
  | inr e ↦ scan_block_groups-TakenBlock v.cylinder_groups v 0 d (omega arith) (rw e at h)
]

-- The block `f` was free and is marked: `d'` is `d` but for its bits in the map of its group.
pub record NewBlock (v : Volume) (d : Disk) (f : ℕ) (d' : Disk) : Type 0 where
  pub group : ℕ
  pub map : ℕ
  pub entries : ℕ
  pub bit : ℕ
  pub group_in : group < v.cylinder_groups
  pub map_there : (cg_free_map v group d).0 ≡ some (map, entries)
  pub bits_in : bit + v.fragments_per_block ≤ entries
  pub number : f ≡ add64 (mul64 group v.fragments_per_group) bit
  pub were_free : (i : ℕ) → i < v.fragments_per_block → is_free v d map (bit + i) ≡ true
  pub marked : Marked v map d bit (bit + v.fragments_per_block) d'

-- On a volume whose groups lie in it, `ufs2_alloc_block` gives a block all of whose fragments are among
-- the entries of a group's free map and were free there. On the disk their bits are then cleared; every
-- other bit of the map, each byte before the map and all that is not of the volume is as before.
pub alloc_block-NewBlock :
    (v : Volume) (d : Disk) {f : ℕ} {d' : Disk}
    → IsVolume v.device
    → IsGeometry v
    → v.fragments_per_group + v.fragments_per_block < u32_mod
    → AreBytes v d
    → alloc_block v d ≡ (some f, d')
    → NewBlock v d f d'
alloc_block-NewBlock v d {f} {d'} is geometry word bytes h =
    let t = alloc_block-TakenBlock v d h in
    let l =
      cg_free_map-Located v t.group d {d' = (cg_free_map v t.group d).1} geometry.word
        (ap (λ o. (o, (cg_free_map v t.group d).1)) t.map_there) in
    let in_group = geometry.inside t.group l.offset t.group_in l.there in
    let exact : add32 t.bit v.fragments_per_block ≡ t.bit + v.fragments_per_block =
      omega (arith, t.bit_in, l.few, word) in
    let bits_in : t.bit + v.fragments_per_block ≤ t.entries = omega (arith, exact, t.bits_in) in
    let inside : (j : ℕ) → j < t.entries → t.map + j / 8 + 1 ≤ capacity v.device =
      λ j lt. omega (arith, lt, in_group, l.inside, l.few, geometry.per_group) in
    record {
      group = t.group;
      map = t.map;
      entries = t.entries;
      bit = t.bit;
      group_in = t.group_in;
      map_there = t.map_there;
      bits_in = bits_in;
      number = t.number;
      were_free = λ i lt.
          let near : add32 t.bit i ≡ t.bit + i = omega (arith, lt, bits_in, l.few, word) in
          sym (
            byte_has-is_free v is t.map (t.bit + i) d
              (inside (t.bit + i) (omega (arith, lt, bits_in))))
          ∙ ap (λ n. byte_has (BlockDev.read v.device d (add64 t.map (n / 8)) 1) n) (sym near)
          ∙ t.were_free i lt;
      marked =
          let at : t.bit + 0 ≡ t.bit = omega arith in
          subst (λ n. Marked v t.map d n (n + v.fragments_per_block) d') at
            (mark-Marked v is t.map v.fragments_per_block t.bit 0 d d' bytes
              (omega (arith, bits_in, l.few, word)) (λ j lt. inside j (omega (arith, lt, bits_in)))
              t.marked);
    }
