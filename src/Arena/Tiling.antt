-- ===== src/Arena/Tiling.antt =====
-- kern/kalloc.c: the blocks of the arena lie side by side, and no two free ones are neighbours.
use openproninx.Base.{
  ℕ, ◌+◌, ◌-◌, ◌*◌, ◌%◌, ◌≤◌, ◌<◌, ◌^◌, ◌≡◌, refl, Option, none, some, inl, inr, Bool-cases, ◌==◌,
  if◌then◌else◌, Bool, true, ◌&&◌, ◌||◌, List, [], ◌∷◌, arith,
}
use openproninx.Arena.{Chunk, page_align, header_size, needed}

-- The arena ends below this, two pages before the end of the address space, so that no address or size
-- wraps. The arena of the kernel lies in the direct map, far below.
abbrev pub arena_limit : ℕ
arena_limit = 2 ^ 64 - 2 * page_align

-- Requests are below this.
abbrev pub request_limit : ℕ
request_limit = 2 ^ 63

-- The blocks fill the addresses from `a` up to `z` in order, in whole pages.
abbrev pub Tiles : ℕ → List Chunk → ℕ → Type 0
Tiles a [] z = a ≡ z
Tiles a (b ∷ bs) z =
    (b.addr ≡ a) × (page_align ≤ b.size) × (b.size % page_align ≡ 0) × Tiles (a + b.size) bs z

-- A free block is not followed by a free block.
abbrev pub apart : Bool → List Chunk → Bool
apart u [] = true
apart u (b ∷ bs) = (u || b.used) && apart b.used bs

abbrev pub IsMerged : List Chunk → Type 0
IsMerged l = apart true l ≡ true

pub Tiles-le : (l : List Chunk) (a z : ℕ) → Tiles a l z → a ≤ z
Tiles-le [] a z t = omega arith
Tiles-le (b ∷ bs) a z t = omega (arith, Tiles-le bs (a + b.size) z t.3)

-- A request that does not wrap is rounded up to whole pages, with room for the header.
pub needed-bounds :
    (bytes : ℕ)
    → bytes < request_limit
    → (bytes + header_size ≤ needed bytes)
      × (needed bytes < bytes + header_size + page_align)
      × (needed bytes % page_align ≡ 0)
      × (page_align ≤ needed bytes)
unfolding needed
needed-bounds bytes h = omega arith

-- The size of the block in use whose header is at `a`: what the arena's users see.
abbrev pub holds : List Chunk → ℕ → Option ℕ
holds [] a = none
holds (b ∷ bs) a = if b.used && b.addr == a then some b.size else holds bs a

-- A block in use lies inside the arena.
pub holds_inside :
    (l : List Chunk) (a z : ℕ) {p s : ℕ} → Tiles a l z → holds l p ≡ some s → (a ≤ p) × (p + s ≤ z)
holds_inside [] a z t h = cc
holds_inside (b ∷ bs) a z {p} t h = elim (Bool-cases (b.used && b.addr == p)) [
  | inl e ↦ ground (arith, Tiles-le bs (a + b.size) z t.3)
  | inr e ↦ let i = holds_inside bs (a + b.size) z t.3 (rw e at h) in omega arith
]

-- Two blocks in use do not overlap.
pub holds_disjoint :
    (l : List Chunk) (a z : ℕ) {p q s r : ℕ}
    → Tiles a l z
    → holds l p ≡ some s
    → holds l q ≡ some r
    → p < q
    → p + s ≤ q
holds_disjoint [] a z t hp hq h = cc
holds_disjoint (b ∷ bs) a z {p} {q} t hp hq h = elim (Bool-cases (b.used && b.addr == p)) [
  | inl e ↦ elim (Bool-cases (b.used && b.addr == q)) [
    | inl e' ↦ absurd (ground arith)
    | inr e' ↦ let i = holds_inside bs (a + b.size) z t.3 (rw e' at hq) in ground arith
  ]
  | inr e ↦ elim (Bool-cases (b.used && b.addr == q)) [
    | inl e' ↦ let i = holds_inside bs (a + b.size) z t.3 (rw e at hp) in absurd (ground arith)
    | inr e' ↦ holds_disjoint bs (a + b.size) z t.3 (rw e at hp) (rw e' at hq) h
  ]
]

-- No block in use starts outside the tiles.
pub holds_outside : (l : List Chunk) (a z : ℕ) {p : ℕ} → Tiles a l z → p < a → holds l p ≡ none
holds_outside [] a z t h = refl
holds_outside (b ∷ bs) a z {p} t h = ground (arith, holds_outside bs (a + b.size) z {p = p} t.3)
