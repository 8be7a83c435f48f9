-- ===== src/Ufs2/Blocks.antt =====
-- kern/ufs2.c: `ufs2_set_fragment`, `ufs2_alloc_block`, `ufs2_free_block` and `ufs2_zero_block`.
use openproninx.Base.{
  ℕ, zero, suc, ◌+◌, ◌-◌, ◌/◌, ◌%◌, Bool, true, false, not, ◌&&◌, ◌||◌, Option, none, some, List,
  [], ◌∷◌, ◌==◌, ltb, leb, if◌then◌else◌, get_or, replicate, add32, mul64, add64, u32_mod,
}
use openproninx.BlockDev
use openproninx.BlockDev.{BlockDev, Disk}
use openproninx.Ufs2.{Volume, M, pure, ◌>>=◌, ◌>>◌, refuse, read_m, write_m}
use openproninx.Ufs2.Geometry.{max64, cg_free_map}
use openproninx.Ufs2.Fragments.{has_bit, without_bit, with_bit}

-- `ufs2_set_fragment`
unfoldable pub set_fragment : Volume → ℕ → ℕ → Bool → M (Unit {0})
set_fragment v map bit allocated = read_m v (add64 map (bit / 8)) 1 >>= λ bytes.
    write_m v (add64 map (bit / 8)) (
      (if allocated then without_bit (get_or bytes 0 0) bit else with_bit (get_or bytes 0 0) bit)
      ∷ [])

abbrev pub byte_has : Option (List ℕ) → ℕ → Bool
byte_has none bit = false
byte_has (some bytes) bit = has_bit (get_or bytes 0 0) bit

-- The test of `ufs2_alloc_block` on the next `k` fragments of a block, from `i` on.
unfoldable pub all_free : ℕ → Volume → ℕ → ℕ → ℕ → Disk → Bool
all_free zero v map bit i d = true
all_free (suc k) v map bit i d =
    byte_has (BlockDev.read v.device d (add64 map (add32 bit i / 8)) 1) (add32 bit i)
    && all_free k v map bit (i + 1) d

-- `while (i > 0)`: the fragments before `i` are free again, as far as the disk takes it.
unfoldable pub unmark : ℕ → Volume → ℕ → ℕ → Disk → Disk
unmark zero v map bit d = d
unmark (suc i) v map bit d = unmark i v map bit (set_fragment v map (add32 bit i) false d).1

-- The loop that takes the next `k` fragments of a block, from `i` on.
unfoldable pub mark : ℕ → Volume → ℕ → ℕ → ℕ → M (Unit {0})
mark zero v map bit i d = (some tt, d)
mark (suc k) v map bit i d =
    let r = set_fragment v map (add32 bit i) true d in
    let rest = mark k v map bit (i + 1) r.1 in
    elim r.0 [ some _ ↦ rest | none ↦ (none, unmark i v map bit r.1) ]

-- The loop over the blocks of one group, with fuel for more rounds than there are entries: `none` where it
-- goes on to the next group.
unfoldable pub scan_blocks : ℕ → Volume → ℕ → ℕ → ℕ → ℕ → Disk → Option (Option ℕ × Disk)
scan_blocks zero v group map entries bit d = none
scan_blocks (suc fuel) v group map entries bit d =
    let later = scan_blocks fuel v group map entries (add32 bit v.fragments_per_block) d in
    let r = mark v.fragments_per_block v map bit 0 d in
    if ltb entries (add32 bit v.fragments_per_block)
    then none
    else if not (all_free v.fragments_per_block v map bit 0 d)
    then later
    else some (elim r.0 [
      | none ↦ (none, r.1)
      | some _ ↦ (some (add64 (mul64 group v.fragments_per_group) bit), r.1)
    ])

-- The loop over the next `k` groups.
unfoldable pub scan_block_groups : ℕ → Volume → ℕ → M ℕ
scan_block_groups zero v group d = (none, d)
scan_block_groups (suc k) v group d =
    let later = scan_block_groups k v (group + 1) d in
    elim (cg_free_map v group d).0 [
      | none ↦ later
      | some (map, entries) ↦ elim (scan_blocks (entries + 1) v group map entries 0 d) [
        | none ↦ later
        | some result ↦ result
      ]
    ]

-- `ufs2_alloc_block`
unfoldable pub alloc_block : Volume → M ℕ
alloc_block v = refuse (v.fragments_per_block == 0) >> scan_block_groups v.cylinder_groups v 0

-- The loop of `ufs2_free_block` over the next `k` fragments, from `i` on.
unfoldable pub free_from : ℕ → Volume → ℕ → ℕ → ℕ → M (Unit {0})
free_from zero v map bit i = pure tt
free_from (suc k) v map bit i =
    set_fragment v map (add32 bit i) false >> free_from k v map bit (i + 1)

-- `ufs2_free_block`
unfoldable pub free_block : Volume → ℕ → M (Unit {0})
free_block v fragment =
    let group = fragment / v.fragments_per_group % u32_mod in
    let bit = fragment % v.fragments_per_group in
    refuse (
      v.fragments_per_group == 0
      || (v.fragments_per_block == 0 || not (fragment % v.fragments_per_block == 0)))
    >> refuse (leb v.cylinder_groups group)
    >> (cg_free_map v group >>= λ p.
        refuse (ltb p.1 (add32 bit v.fragments_per_block))
        >> free_from v.fragments_per_block v p.0 bit 0)

-- The loop of `ufs2_zero_block` over the next `k` sectors.
unfoldable pub zero_from : ℕ → Volume → ℕ → M (Unit {0})
zero_from zero v offset = pure tt
zero_from (suc k) v offset =
    write_m v offset (replicate BlockDev.sector_size 0)
    >> zero_from k v (add64 offset BlockDev.sector_size)

-- `ufs2_zero_block`: the loop ends after as many sectors as begin below `block_size`.
unfoldable pub zero_block : Volume → ℕ → M (Unit {0})
zero_block v fragment =
    refuse (ltb (max64 / v.fragment_size) fragment)
    >> zero_from ((v.block_size + BlockDev.sector_size - 1) / BlockDev.sector_size) v
        (mul64 fragment v.fragment_size)
