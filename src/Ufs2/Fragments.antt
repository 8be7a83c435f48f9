-- ===== src/Ufs2/Fragments.antt =====
-- kern/ufs2.c: `ufs2_alloc_fragment` and `ufs2_free_fragment` on the map of free fragments.
use openproninx.Base.{
  ℕ, zero, suc, ◌+◌, ◌-◌, ◌/◌, ◌%◌, ◌^◌, ◌≤◌, ◌<◌, ◌≡◌, refl, ap, ◌∙◌, Bool, true, Bool-cases, inl,
  inr, not, ◌||◌, Option, none, some, List, [], ◌∷◌, arith, ◌==◌, leb, if◌then◌else◌, get_or, add64,
  mul64, u32_mod,
}
use Prim.Native.Nat.{bit_and, bit_or}
use openproninx.BlockDev
use openproninx.BlockDev.{Disk}
use openproninx.Ufs2.{Volume, M, ◌>>=◌, ◌>>◌, refuse, read_m, write_m}
use openproninx.Ufs2.Geometry.{cg_free_map}

-- `1 << (bit % 8)`
abbrev pub mask : ℕ → ℕ
mask bit = 2 ^ (bit % 8)

abbrev pub has_bit : ℕ → ℕ → Bool
has_bit value bit = not (bit_and value (mask bit) == 0)

-- `value & ~(1 << (bit % 8))` on a byte.
abbrev pub without_bit : ℕ → ℕ → ℕ
without_bit value bit = bit_and value (255 - mask bit)

abbrev pub with_bit : ℕ → ℕ → ℕ
with_bit value bit = bit_or value (mask bit)

-- The loop over the entries of one group, the next `k` from `bit` on: `none` where it goes on to the
-- next group, which it does after a read that fails too.
unfoldable pub scan_bits : ℕ → Volume → ℕ → ℕ → ℕ → Disk → Option (Option ℕ × Disk)
scan_bits zero v base map bit d = none
scan_bits (suc k) v base map bit d =
    let later = scan_bits k v base map (bit + 1) d in
    let at = add64 map (bit / 8) in
    elim (BlockDev.read v.device d at 1) [
      | none ↦ none
      | some bytes ↦
          let value = get_or bytes 0 0 in
          let (ok, d') = BlockDev.write v.device d at (without_bit value bit ∷ []) in
          if not (has_bit value bit)
          then later
          else some ((if ok then some (add64 base bit) else none), d')
    ]

-- The loop over the next `k` groups.
unfoldable pub scan_groups : ℕ → Volume → ℕ → M ℕ
scan_groups zero v group d = (none, d)
scan_groups (suc k) v group d =
    let later = scan_groups k v (group + 1) d in
    elim (cg_free_map v group d).0 [
      | none ↦ later
      | some (map, entries) ↦
          elim (scan_bits entries v (mul64 group v.fragments_per_group) map 0 d) [
            | none ↦ later
            | some result ↦ result
          ]
    ]

-- `ufs2_alloc_fragment`
unfoldable pub alloc_fragment : Volume → M ℕ
alloc_fragment v = scan_groups v.cylinder_groups v 0

-- `ufs2_free_fragment` after it has read the byte of the map.
abbrev pub free_bit : Volume → ℕ → ℕ → List ℕ → M (Unit {0})
free_bit v bit at bytes =
    refuse (has_bit (get_or bytes 0 0) bit) >> write_m v at (with_bit (get_or bytes 0 0) bit ∷ [])

-- `ufs2_free_fragment` after it has found the map of the group.
abbrev pub free_entry : Volume → ℕ → ℕ → ℕ → M (Unit {0})
free_entry v bit map entries =
    refuse (leb entries bit)
    >> (read_m v (add64 map (bit / 8)) 1 >>= free_bit v bit (add64 map (bit / 8)))

-- `ufs2_free_fragment`
unfoldable pub free_fragment : Volume → ℕ → M (Unit {0})
free_fragment v fragment =
    let group = fragment / v.fragments_per_group in
    let bit = fragment % v.fragments_per_group in
    refuse (v.fragments_per_group == 0 || leb v.cylinder_groups group)
    >> (cg_free_map v (group % u32_mod) >>= λ p. free_entry v bit p.0 p.1)

-- The fragment `f` was taken: its bit in the free map of a group was set, and is cleared.
pub record Taken (v : Volume) (d : Disk) (f : ℕ) (d' : Disk) : Type 0 where
  pub group : ℕ
  pub map : ℕ
  pub entries : ℕ
  pub bit : ℕ
  pub bytes : List ℕ
  pub group_in : group < v.cylinder_groups
  pub map_there : (cg_free_map v group d).0 ≡ some (map, entries)
  pub bit_in : bit < entries
  pub number : f ≡ add64 (mul64 group v.fragments_per_group) bit
  pub was : BlockDev.read v.device d (add64 map (bit / 8)) 1 ≡ some bytes
  pub was_free : has_bit (get_or bytes 0 0) bit ≡ true
  pub now :
      BlockDev.write v.device d (add64 map (bit / 8)) (without_bit (get_or bytes 0 0) bit ∷ [])
      ≡ (true, d')

record TakenBit (v : Volume) (base map from to : ℕ) (d : Disk) (f : ℕ) (d' : Disk) : Type 0 where
  pub bit : ℕ
  pub bytes : List ℕ
  pub above : from ≤ bit
  pub below : bit < to
  pub number : f ≡ add64 base bit
  pub was : BlockDev.read v.device d (add64 map (bit / 8)) 1 ≡ some bytes
  pub was_free : has_bit (get_or bytes 0 0) bit ≡ true
  pub now :
      BlockDev.write v.device d (add64 map (bit / 8)) (without_bit (get_or bytes 0 0) bit ∷ [])
      ≡ (true, d')

scan_bits-TakenBit :
    (k : ℕ) (v : Volume) (base map bit : ℕ) (d : Disk) {f : ℕ} {d' : Disk}
    → scan_bits k v base map bit d ≡ some (some f, d')
    → TakenBit v base map bit (bit + k) d f d'
unfolding scan_bits
scan_bits-TakenBit zero v base map bit d h = let no : ⊥ = ground arith in elim no [ ]
scan_bits-TakenBit (suc k) v base map bit d {f} {d'} h =
    go (BlockDev.read v.device d at 1) refl h (λ g. scan_bits-TakenBit k v base map (bit + 1) d g)
  where
    at : ℕ
    at = add64 map (bit / 8)

    go :
        (r : Option (List ℕ))
        → BlockDev.read v.device d at 1 ≡ r
        → (elim r [
          | none ↦ none
          | some bytes ↦
              if not (has_bit (get_or bytes 0 0) bit)
              then scan_bits k v base map (bit + 1) d
              else some (
                (if (BlockDev.write v.device d at (without_bit (get_or bytes 0 0) bit ∷ [])).0
                    then some (add64 base bit)
                    else none),
                (BlockDev.write v.device d at (without_bit (get_or bytes 0 0) bit ∷ [])).1,
              )
        ])
          ≡ some (some f, d')
        → (scan_bits k v base map (bit + 1) d ≡ some (some f, d')
            → TakenBit v base map (bit + 1) (bit + 1 + k) d f d')
        → TakenBit v base map bit (bit + suc k) d f d'
    go none e h later = let no : ⊥ = ground arith in elim no [ ]
    go (some bytes) e h later = elim (Bool-cases (has_bit (get_or bytes 0 0) bit)) [
      | inl b ↦
          let w = BlockDev.write v.device d at (without_bit (get_or bytes 0 0) bit ∷ []) in
          let h' : some ((if w.0 then some (add64 base bit) else none), w.1) ≡ some (some f, d') =
            (rw b at h) in
          let ok : w.0 ≡ true = ground arith in
          record {
            bit = bit;
            bytes = bytes;
            above = omega arith;
            below = omega arith;
            number = ground arith;
            was = e;
            was_free = b;
            now = ground arith;
          }
      | inr b ↦
          let t = later (rw b at h) in
          record {
            bit = t.bit;
            bytes = t.bytes;
            above = omega (arith, t.above);
            below = omega (arith, t.below);
            number = t.number;
            was = t.was;
            was_free = t.was_free;
            now = t.now;
          }
    ]

scan_groups-Taken :
    (k : ℕ) (v : Volume) (group : ℕ) (d : Disk) {f : ℕ} {d' : Disk}
    → group + k ≤ v.cylinder_groups
    → scan_groups k v group d ≡ (some f, d')
    → Taken v d f d'
unfolding scan_groups
scan_groups-Taken zero v group d le h = let no : ⊥ = ground arith in elim no [ ]
scan_groups-Taken (suc k) v group d {f} {d'} le h =
    go (cg_free_map v group d).0 refl h (λ g. scan_groups-Taken k v (group + 1) d (omega arith) g)
  where
    later : Option ℕ × Disk
    later = scan_groups k v (group + 1) d

    base : ℕ
    base = mul64 group v.fragments_per_group

    found :
        (map entries : ℕ)
        → (cg_free_map v group d).0 ≡ some (map, entries)
        → (r : Option (Option ℕ × Disk)) → scan_bits entries v base map 0 d ≡ r
        → (elim r [ none ↦ later | some result ↦ result ]) ≡ (some f, d')
        → (later ≡ (some f, d') → Taken v d f d')
        → Taken v d f d'
    found map entries m none e h rest = rest h
    found map entries m (some result) e h rest =
        let t = scan_bits-TakenBit entries v base map 0 d (e ∙ ap some h) in
        record {
          group = group;
          map = map;
          entries = entries;
          bit = t.bit;
          bytes = t.bytes;
          group_in = omega arith;
          map_there = m;
          bit_in = omega (arith, t.below);
          number = t.number;
          was = t.was;
          was_free = t.was_free;
          now = t.now;
        }

    go :
        (m : Option (ℕ × ℕ))
        → (cg_free_map v group d).0 ≡ m
        → (elim m [
          | none ↦ later
          | some (map, entries) ↦ elim (scan_bits entries v base map 0 d) [
            | none ↦ later
            | some result ↦ result
          ]
        ])
          ≡ (some f, d')
        → (later ≡ (some f, d') → Taken v d f d')
        → Taken v d f d'
    go none e h rest = rest h
    go (some (map, entries)) e h rest =
        found map entries e (scan_bits entries v base map 0 d) refl h rest

-- A fragment that `ufs2_alloc_fragment` gives is an entry of a group's free map whose bit was set, and
-- the disk differs only by the write of the byte of the map with that bit cleared.
pub alloc_fragment-Taken :
    (v : Volume) (d : Disk) {f : ℕ} {d' : Disk} → alloc_fragment v d ≡ (some f, d') → Taken v d f d'
unfolding alloc_fragment
alloc_fragment-Taken v d h = scan_groups-Taken v.cylinder_groups v 0 d (omega arith) h
