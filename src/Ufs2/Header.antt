-- ===== src/Ufs2/Header.antt =====
-- kern/ufs2.c: `ufs2_cg_free_map` reads only the header of its group, before the map.
use openproninx.Base.{
  ℕ, ◌+◌, ◌-◌, ◌/◌, ◌%◌, ◌^◌, ◌≤◌, ◌<◌, ◌≡◌, refl, ap, sym, subst, Bool, true, false, not, ◌||◌,
  Option, none, some, List, arith, ◌==◌, ltb, leb, add64, u32_mod,
}
use openproninx.BlockDev.{Disk}
use openproninx.BlockDev.Bytes.{IsVolume, byte_at}
use openproninx.Ufs2.{Volume, M, pure, ◌>>=◌, ◌>>◌, refuse, of_option, read_m}
use openproninx.Ufs2.Codec.{read_le}
use openproninx.Ufs2.Geometry.{
  max64, cg_header_size, cg_magic, cg_offset, header_at, cg_header, bad_free_map, free_map_of,
  cg_free_map,
}
use openproninx.Ufs2.Steady.{Steady, bind-Steady, refuse-Steady, read_m-Steady}

-- What a chain that succeeds went through.
bind-invert :
    {A B : Type 0}
    → (m : M A) (f : A → M B) (d : Disk) {b : B} {d' : Disk} → (m >>= f) d ≡ (some b, d')
    → (a : A) × (d1 : Disk) × (m d ≡ (some a, d1)) × (f a d1 ≡ (some b, d'))
bind-invert {A} {B} m f d {b} {d'} h = go (m d) refl h
  where
    go :
        (r : Option A × Disk)
        → m d ≡ r
        → ◌≡◌ {A = Option B × Disk}
            (elim r.0 [ none ↦ (none, r.1) | some a ↦ f a r.1 ])
            (some b, d')
        → (a : A) × (d1 : Disk) × (m d ≡ (some a, d1)) × (f a d1 ≡ (some b, d'))
    go (none, d1) e h = let no : ⊥ = ground arith in elim no [ ]
    go (some a, d1) e h = (a, d1, e, h)

refuse-invert :
    {B : Type 0}
    → (c : Bool) (k : M B) (d : Disk) {b : B} {d' : Disk} → (refuse c >> k) d ≡ (some b, d')
    → (c ≡ false) × (k d ≡ (some b, d'))
refuse-invert true k d h = let no : ⊥ = ground arith in elim no [ ]
refuse-invert false k d h = (refl, h)

value_or : {A : Type 0} → A → Option A → A
value_or a none = a
value_or a (some b) = b

-- Equal outcomes have equal values.
outcome_value :
    {A : Type 0} {a b : A} {d d' : Disk}
    → ◌≡◌ {A = Option A × Disk} (some a, d) (some b, d')
    → a ≡ b
unfolding value_or
outcome_value {A} {a} h = ap (λ r. value_or a r.0) h

of_option-invert :
    {A : Type 0}
    → (o : Option A) (d : Disk) {a : A} {d' : Disk} → of_option o d ≡ (some a, d')
    → o ≡ some a
of_option-invert none d h = let no : ⊥ = ground arith in elim no [ ]
of_option-invert (some b) d h = ap some (outcome_value h)

good_map :
    (v : Volume) (entries freeoff : ℕ)
    → bad_free_map v entries freeoff ≡ false
    → (entries ≤ v.fragments_per_group)
      × (cg_header_size ≤ freeoff)
      × (freeoff + (entries + 7) % 2 ^ 32 / 8 ≤ v.cylinder_group_size)
good_map v entries freeoff h = (ground arith, ground arith, ground arith)

fits :
    (p freeoff size : ℕ)
    → size < u32_mod
    → freeoff ≤ size
    → ltb (max64 - freeoff) p ≡ false
    → p + freeoff ≤ max64
fits p freeoff size w h s = ground arith

-- Where the free map of a group lies.
pub record Located (v : Volume) (group map entries : ℕ) : Type 0 where
  pub offset : ℕ
  pub there : cg_offset v group ≡ some offset
  pub behind : offset + cg_header_size ≤ map
  pub few : entries ≤ v.fragments_per_group
  pub inside : map + (entries + 7) % 2 ^ 32 / 8 ≤ offset + v.cylinder_group_size

-- The map lies behind the header of its group.
pub cg_free_map-Located :
    (v : Volume) (group : ℕ) (d : Disk) {map entries : ℕ} {d' : Disk}
    → v.cylinder_group_size < u32_mod
    → cg_free_map v group d ≡ (some (map, entries), d')
    → Located v group map entries
unfolding cg_free_map cg_header
cg_free_map-Located v group d {map} {entries} {d'} word h =
    let (p, d1, e, h1) = bind-invert (cg_header v group) (λ p. free_map_of v p.0 p.1) d h in
    let freeoff = read_le 4 p.1 96 in
    let n = read_le 4 p.1 20 in
    let (good, h2) =
      refuse-invert (bad_free_map v n freeoff)
        (refuse (ltb (max64 - freeoff) p.0) >> pure (add64 p.0 freeoff, n)) d1 h1 in
    let (small, h3) =
      refuse-invert (ltb (max64 - freeoff) p.0) (pure (add64 p.0 freeoff, n)) d1 h2 in
    let (_, e1) =
      refuse-invert (leb v.cylinder_groups group)
        (of_option (cg_offset v group) >>= header_at v group) d e in
    let (o, d2, e2, e3) = bind-invert (of_option (cg_offset v group)) (header_at v group) d e1 in
    let (header, d3, e4, e5) =
      bind-invert (read_m v o cg_header_size)
        (λ header.
          refuse (not (read_le 4 header 4 == cg_magic) || not (read_le 4 header 12 == group))
          >> pure (o, header))
        d2 e3 in
    let (_, e6) =
      refuse-invert (not (read_le 4 header 4 == cg_magic) || not (read_le 4 header 12 == group))
        (pure (o, header)) d3 e5 in
    let same : o ≡ p.0 = ap (λ q. q.0) (outcome_value e6) in
    let found : (add64 p.0 freeoff, n) ≡ (map, entries) = outcome_value h3 in
    let (few, behind, within) = good_map v n freeoff good in
    let at : add64 p.0 freeoff ≡ map = ap (λ q. q.0) found in
    let count : n ≡ entries = ap (λ q. q.1) found in
    let no_wrap = fits p.0 freeoff v.cylinder_group_size word (omega (arith, within)) small in
    record {
      offset = o;
      there = of_option-invert (cg_offset v group) d e2;
      behind = omega arith;
      few = omega arith;
      inside = omega arith;
    }

of_option-Steady : {A : Type 0} → (o : Option A) (d d' : Disk) → Steady (of_option o) d d'
unfolding Steady
of_option-Steady none d d' = (none, refl, refl)
of_option-Steady (some a) d d' = (some a, refl, refl)

pure-Steady : {A : Type 0} → (a : A) (d d' : Disk) → Steady (pure a) d d'
unfolding Steady
pure-Steady a d d' = (some a, refl, refl)

free_map_of-Steady :
    (v : Volume) (offset : ℕ) (header : List ℕ) (d d' : Disk)
    → Steady (free_map_of v offset header) d d'
free_map_of-Steady v offset header d d' =
    let freeoff = read_le 4 header 96 in
    let n = read_le 4 header 20 in
    let last : M (ℕ × ℕ) = pure (add64 offset freeoff, n) in
    refuse-Steady (bad_free_map v n freeoff) (refuse (ltb (max64 - freeoff) offset) >> last) d d'
      (λ _.
        refuse-Steady (ltb (max64 - freeoff) offset) last d d'
          (λ _. pure-Steady (add64 offset freeoff, n) d d'))

module _ (v : Volume) (group o : ℕ) (d d' : Disk) (is : IsVolume v.device)
    (e : cg_offset v group ≡ some o)
    (same : (i : ℕ)
      → o ≤ i
      → i < o + cg_header_size
      → byte_at v.device d' i ≡ byte_at v.device d i) where
  header_at-Steady : Steady (header_at v group o) d d'
  header_at-Steady =
      bind-Steady (read_m v o cg_header_size) (λ header. refuse (wrong header) >> pure (o, header))
        d d' (read_m-Steady v o cg_header_size d d' is same)
        (λ header.
          refuse-Steady (wrong header) (pure (o, header)) d d' (λ _. pure-Steady (o, header) d d'))
    where
      wrong : List ℕ → Bool
      wrong header = not (read_le 4 header 4 == cg_magic) || not (read_le 4 header 12 == group)

  cg_header-Steady : Steady (cg_header v group) d d'
  unfolding cg_header
  cg_header-Steady =
      refuse-Steady (leb v.cylinder_groups group)
        (of_option (cg_offset v group) >>= header_at v group) d d'
        (λ _. subst (λ x. Steady (of_option x >>= header_at v group) d d') (sym e) header_at-Steady)

  -- The place of the map depends on the bytes of the header only.
  pub cg_free_map-Steady : Steady (cg_free_map v group) d d'
  unfolding cg_free_map
  cg_free_map-Steady =
      bind-Steady (cg_header v group) (λ p. free_map_of v p.0 p.1) d d' cg_header-Steady
        (λ p. free_map_of-Steady v p.0 p.1 d d')
