-- ===== src/Ufs2/NewInode.antt =====
-- kern/ufs2.c: the inode that `ufs2_alloc_inode` gives.
use openproninx.Base.{
  ℕ, zero, suc, ◌+◌, ◌/◌, ◌^◌, ◌≤◌, ◌<◌, ◌≡◌, ◌⊎◌, refl, ap, ◌∙◌, sym, subst, Bool, true, false,
  Bool-cases, inl, inr, Option, none, some, List, [], ◌∷◌, arith, ◌==◌, ltb, if◌then◌else◌, get_or,
  add64,
}
use mathlib.Core.Option.{some-injective}
use Prim.Native.Nat.{bit_and}
use openproninx.BlockDev
use openproninx.BlockDev.{BlockDev, Disk}
use openproninx.BlockDev.Bytes.{IsVolume, capacity}
use openproninx.Ufs2.{Volume}
use openproninx.Ufs2.Codec.{dinode_size}
use openproninx.Ufs2.Geometry.{inode_offset, cg_inode_map}
use openproninx.Ufs2.Inodes.{read_inode, initialize_inode, new_inode, read_inode-initialize_inode}
use openproninx.Ufs2.Fragments.{has_bit, without_bit, with_bit}
use openproninx.Ufs2.Reserve.{
  root_ino, ifmt, ifreg, ifdir, inode_number, finish_inode, scan_inodes, scan_inode_groups,
  alloc_inode, Reserved,
}

-- The part of `Reserved` about one group.
record ReservedBit (v : Volume) (mode group map from to : ℕ) (d : Disk) (n : ℕ) (d' : Disk)
    : Type 0 where
  pub bit : ℕ
  pub bytes : List ℕ
  pub marked : Disk
  pub below : bit < to
  pub number : n ≡ inode_number v group bit
  pub above_root : root_ino ≤ n
  pub was : BlockDev.read v.device d (add64 map (bit / 8)) 1 ≡ some bytes
  pub was_free : has_bit (get_or bytes 0 0) bit ≡ false
  pub mark :
      BlockDev.write v.device d (add64 map (bit / 8)) (with_bit (get_or bytes 0 0) bit ∷ [])
      ≡ (true, marked)
  pub now : d' ≡ (initialize_inode v n mode marked).1

finish_inode-some :
    (v : Volume) (mode number at bit value : ℕ) (d : Disk) {n : ℕ} {d' : Disk}
    → finish_inode v mode number at bit value d ≡ (some n, d')
    → (n ≡ number) × (d' ≡ (initialize_inode v number mode d).1)
finish_inode-some v mode number at bit value d {n} {d'} h =
    go (initialize_inode v number mode d).0 h
  where
    d2 : Disk
    d2 = (initialize_inode v number mode d).1

    go :
        (o : Option (Unit {0}))
        → (elim o as (λ _. Option ℕ × Disk) [
          | some _ ↦ (some number, d2)
          | none ↦ (none, (BlockDev.write v.device d2 at (without_bit value bit ∷ [])).1)
        ])
          ≡ (some n, d')
        → (n ≡ number) × (d' ≡ d2)
    go none q = absurd (cc (ap (λ (r : Option ℕ × Disk). r.0) q))
    go (some x) q = (
      sym (some-injective number n (ap (λ (r : Option ℕ × Disk). r.0) q)),
      sym (ap (λ (r : Option ℕ × Disk). r.1) q),
    )

scan_inodes-ReservedBit :
    (k : ℕ) (v : Volume) (mode group map bit : ℕ) (d : Disk) {n : ℕ} {d' : Disk}
    → scan_inodes k v mode group map bit d ≡ some (some n, d')
    → ReservedBit v mode group map bit (bit + k) d n d'
unfolding scan_inodes
scan_inodes-ReservedBit zero v mode group map bit d h = absurd (cc h)
scan_inodes-ReservedBit (suc k) v mode group map bit d {n} {d'} h =
    start (λ q. scan_inodes-ReservedBit k v mode group map (bit + 1) d q)
      (Bool-cases (ltb (inode_number v group bit) root_ino))
  where
    at : ℕ
    at = add64 map (bit / 8)

    number : ℕ
    number = inode_number v group bit

    Result : Type 0
    Result = Option (Option ℕ × Disk)

    later : Result
    later = scan_inodes k v mode group map (bit + 1) d

    wider :
        ReservedBit v mode group map (bit + 1) (bit + 1 + k) d n d'
        → ReservedBit v mode group map bit (bit + suc k) d n d'
    wider t = record {
      bit = t.bit;
      bytes = t.bytes;
      marked = t.marked;
      below = omega (arith, t.below);
      number = t.number;
      above_root = t.above_root;
      was = t.was;
      was_free = t.was_free;
      mark = t.mark;
      now = t.now;
    }

    outcome : List ℕ → Result
    outcome bytes =
        if has_bit (get_or bytes 0 0) bit
        then later
        else some (
            if (BlockDev.write v.device d at (with_bit (get_or bytes 0 0) bit ∷ [])).0
            then finish_inode v mode number at bit (with_bit (get_or bytes 0 0) bit)
                (BlockDev.write v.device d at (with_bit (get_or bytes 0 0) bit ∷ [])).1
            else (none, (BlockDev.write v.device d at (with_bit (get_or bytes 0 0) bit ∷ [])).1))

    found :
        (bytes : List ℕ)
        → BlockDev.read v.device d at 1 ≡ some bytes
        → has_bit (get_or bytes 0 0) bit ≡ false
        → root_ino ≤ number
        → (r : Bool × Disk)
        → BlockDev.write v.device d at (with_bit (get_or bytes 0 0) bit ∷ []) ≡ r
        → (if r.0
            then finish_inode v mode number at bit (with_bit (get_or bytes 0 0) bit) r.1
            else (none, r.1))
          ≡ (some n, d')
        → ReservedBit v mode group map bit (bit + suc k) d n d'
    found bytes e free root (false, d1) w q = absurd (cc (ap (λ (r : Option ℕ × Disk). r.0) q))
    found bytes e free root (true, d1) w q =
        let (same, now) =
          finish_inode-some v mode number at bit (with_bit (get_or bytes 0 0) bit) d1 q in
        record {
          bit = bit;
          bytes = bytes;
          marked = d1;
          below = omega arith;
          number = same;
          above_root = subst (λ m. root_ino ≤ m) (sym same) root;
          was = e;
          was_free = free;
          mark = w;
          now = now ∙ ap (λ m. (initialize_inode v m mode d1).1) (sym same);
        }

    go :
        (later ≡ some (some n, d') → ReservedBit v mode group map (bit + 1) (bit + 1 + k) d n d')
        → root_ino ≤ number
        → (r : Option (List ℕ)) → BlockDev.read v.device d at 1 ≡ r
        → (elim r as (λ _. Result) [ none ↦ some (none, d) | some bytes ↦ outcome bytes ])
          ≡ some (some n, d')
        → ReservedBit v mode group map bit (bit + suc k) d n d'
    go rec root none e q = absurd (cc (ap (λ (r : Option ℕ × Disk). r.0) (some-injective _ _ q)))
    go rec root (some bytes) e q = elim (Bool-cases (has_bit (get_or bytes 0 0) bit)) [
      | inl b ↦ wider (rec (rw b at q))
      | inr b ↦
          found bytes e b root (BlockDev.write v.device d at (with_bit (get_or bytes 0 0) bit ∷ []))
            refl (some-injective _ _ (rw b at q))
    ]

    start :
        (later ≡ some (some n, d') → ReservedBit v mode group map (bit + 1) (bit + 1 + k) d n d')
        → (ltb number root_ino ≡ true) ⊎ (ltb number root_ino ≡ false)
        → ReservedBit v mode group map bit (bit + suc k) d n d'
    start rec (inl e) = wider (rec (rw e at h))
    start rec (inr e) = go rec (ground arith) (BlockDev.read v.device d at 1) refl (rw e at h)

scan_inode_groups-Reserved :
    (k : ℕ) (v : Volume) (mode group : ℕ) (d : Disk) {n : ℕ} {d' : Disk}
    → group + k ≤ v.cylinder_groups
    → scan_inode_groups k v mode group d ≡ (some n, d')
    → Reserved v mode d n d'
unfolding scan_inode_groups
scan_inode_groups-Reserved zero v mode group d le h =
    absurd (cc (ap (λ (r : Option ℕ × Disk). r.0) h))
scan_inode_groups-Reserved (suc k) v mode group d {n} {d'} le h =
    go (λ q. scan_inode_groups-Reserved k v mode (group + 1) d (omega arith) q)
      (cg_inode_map v group d).0 refl h
  where
    later : Option ℕ × Disk
    later = scan_inode_groups k v mode (group + 1) d

    in_group :
        (later ≡ (some n, d') → Reserved v mode d n d')
        → (map : ℕ) → (cg_inode_map v group d).0 ≡ some map
        → (r : Option (Option ℕ × Disk)) → scan_inodes v.inodes_per_group v mode group map 0 d ≡ r
        → (elim r as (λ _. Option ℕ × Disk) [ none ↦ later | some result ↦ result ]) ≡ (some n, d')
        → Reserved v mode d n d'
    in_group rec map there none e q = rec q
    in_group rec map there (some result) e q =
        let t = scan_inodes-ReservedBit v.inodes_per_group v mode group map 0 d (e ∙ ap some q) in
        record {
          group = group;
          map = map;
          bit = t.bit;
          bytes = t.bytes;
          marked = t.marked;
          group_in = omega arith;
          map_there = there;
          bit_in = omega (arith, t.below);
          number = t.number;
          above_root = t.above_root;
          was = t.was;
          was_free = t.was_free;
          mark = t.mark;
          now = t.now;
        }

    go :
        (later ≡ (some n, d') → Reserved v mode d n d')
        → (m : Option ℕ) → (cg_inode_map v group d).0 ≡ m
        → (elim m as (λ _. Option ℕ × Disk) [
          | none ↦ later
          | some map ↦
              elim (scan_inodes v.inodes_per_group v mode group map 0 d) as (λ _. Option ℕ × Disk) [
                | none ↦ later
                | some result ↦ result
              ]
        ])
          ≡ (some n, d')
        → Reserved v mode d n d'
    go rec none e q = rec q
    go rec (some map) e q =
        in_group rec map e (scan_inodes v.inodes_per_group v mode group map 0 d) refl q

-- An inode that `ufs2_alloc_inode` gives has a number of at least 2, its bit was clear in the map of used inodes of
-- a group, and the disk differs by the byte of the map with that bit set and by the new inode.
pub alloc_inode-Reserved :
    (v : Volume) (mode : ℕ) (d : Disk) {n : ℕ} {d' : Disk}
    → alloc_inode v mode d ≡ (some n, d')
    → ((bit_and mode ifmt ≡ ifreg) ⊎ (bit_and mode ifmt ≡ ifdir)) × Reserved v mode d n d'
unfolding alloc_inode
alloc_inode-Reserved v mode d h = elim (Bool-cases (bit_and mode ifmt == ifreg)) [
  | inl e ↦ (
    inl (ground arith),
    scan_inode_groups-Reserved v.cylinder_groups v mode 0 d (omega arith) (rw e at h),
  )
  | inr e ↦ elim (Bool-cases (bit_and mode ifmt == ifdir)) [
    | inl f ↦ (
      inr (ground arith),
      scan_inode_groups-Reserved v.cylinder_groups v mode 0 d (omega arith) (rw (e, f) at h),
    )
    | inr f ↦ absurd (cc (ap (λ (r : Option ℕ × Disk). r.0) (rw (e, f) at h)))
  ]
]

-- Where `ufs2_alloc_inode` of a mode below 2 ^ 16 gives an inode whose slot lies in the volume, the mode is that of a
-- file or a directory, the number is at least 2 and the inode's bit was clear in the map of a group and has been set;
-- afterwards `ufs2_read_inode` gives a new inode of this mode, with one link, size 0 and no blocks.
pub alloc_inode-new :
    (v : Volume) (mode o : ℕ) (d : Disk) {n : ℕ} {d' : Disk}
    → IsVolume v.device
    → mode < 2 ^ 16
    → alloc_inode v mode d ≡ (some n, d')
    → inode_offset v n ≡ some o
    → o + dinode_size ≤ capacity v.device
    → ((bit_and mode ifmt ≡ ifreg) ⊎ (bit_and mode ifmt ≡ ifdir))
      × Reserved v mode d n d'
      × ((read_inode v n d').0 ≡ some (new_inode mode))
alloc_inode-new v mode o d {n} {d'} is small h e fits =
    let (kind, r) = alloc_inode-Reserved v mode d h in
    let fresh = (read_inode-initialize_inode v is n o mode r.marked small e fits).1 in
    (kind, r, ap (λ disk. (read_inode v n disk).0) r.now ∙ fresh)
