-- ===== src/Arena/Cycle.antt =====
-- kern/kalloc.c: the arena as its users see it.
use openproninx.Base.{
  ℕ, ◌+◌, ◌-◌, ◌≤◌, ◌<◌, ◌≡◌, Option, none, some, ◌==◌, if◌then◌else◌, true, false, List, [], ◌∷◌,
  arith,
}
use openproninx.Arena.{Chunk, header_size, needed, init, alloc_from, alloc, free}
use openproninx.Arena.Tiling.{
  arena_limit, request_limit, Tiles, IsMerged, needed-bounds, holds, holds_inside, holds_disjoint,
}
use openproninx.Arena.Alloc.{NoneFits, Found, alloc_from-Found}
use openproninx.Arena.Free.{Freed, free-Freed}

-- The arena of `size` bytes at `base`.
pub record IsArena (base size : ℕ) (l : List Chunk) : Type 0 where
  pub tiles : Tiles base l (base + size)
  pub merged : IsMerged l
  pub small : base + size < arena_limit

-- What `vmem_alloc` promises: the address of a new block with room for the request, at which no block
-- in use stood; all others stay as they are. It fails only if no free block is large enough.
abbrev pub Allocates : ℕ → ℕ → ℕ → List Chunk → Option (ℕ × List Chunk) → Type 0
Allocates bytes base size l none = NoneFits (needed bytes) l
Allocates bytes base size l (some (p, l')) =
    IsArena base size l'
    × (base + header_size ≤ p)
    × (holds l (p - header_size) ≡ none)
    × (s : ℕ) × (bytes + header_size ≤ s)
    × ((q : ℕ) → holds l' q ≡ (if q + header_size == p then some s else holds l q))

-- For a request of some bytes below 2 ^ 63 `vmem_alloc` gives a block that was not in
-- use and has room for the request and its header, keeps all other blocks in use, and keeps the arena
-- tiled with free neighbours merged; it gives none only if no free block is as large as the rounded
-- request.
pub alloc-Allocates :
    (bytes base size : ℕ) {l : List Chunk}
    → 0 < bytes
    → bytes < request_limit
    → IsArena base size l
    → Allocates bytes base size l (alloc bytes l)
unfolding alloc
alloc-Allocates bytes base size {l} pos h v =
    let (enough, _, pages, page) = needed-bounds bytes h in
    let nz : (bytes == 0) ≡ false = ground arith in
    rw nz (
      go (alloc_from (needed bytes) l)
        (alloc_from-Found (needed bytes) pages page true l base (base + size) v.tiles v.small
          v.merged)
        enough)
  where
    go :
        (o : Option (ℕ × List Chunk))
        → Found (needed bytes) true base l (base + size) o
        → bytes + header_size ≤ needed bytes
        → Allocates bytes base size l o
    go none f e = f
    go (some (p, l')) (t, m, hp, fresh, s, hs, same) e =
        (record { tiles = t; merged = m; small = v.small }, hp, fresh, s, omega arith, same)

abbrev pub FreesOnly : ℕ → ℕ → ℕ → List Chunk → Option (List Chunk) → Type 0
FreesOnly p base size l none = ⊥
FreesOnly p base size l (some l') =
    IsArena base size l'
    × ((q : ℕ) → holds l' q ≡ (if q + header_size == p then none else holds l q))

-- `vmem_free` of the pointer to a block in use gives back that block and no other, and keeps the
-- arena tiled with free neighbours merged.
pub free-FreesOnly :
    (p s base size : ℕ) {l : List Chunk}
    → IsArena base size l
    → holds l p ≡ some s
    → FreesOnly (p + header_size) base size l (free (p + header_size) l)
free-FreesOnly p s base size {l} v h =
    go (free (p + header_size) l) (free-Freed p s l base (base + size) v.tiles v.small h)
  where
    go :
        (o : Option (List Chunk))
        → Freed (p + header_size) base l (base + size) o
        → FreesOnly (p + header_size) base size l o
    go none r = r
    go (some l') (t, m, same) = (record { tiles = t; merged = m; small = v.small }, same)

pub blocks_apart :
    (base size : ℕ) {l : List Chunk} {p q s r : ℕ}
    → IsArena base size l
    → holds l p ≡ some s
    → holds l q ≡ some r
    → p < q
    → (base ≤ p) × (p + s ≤ q) × (q + r ≤ base + size)
blocks_apart base size {l} v hp hq h = (
  (holds_inside l base (base + size) v.tiles hp).0,
  holds_disjoint l base (base + size) v.tiles hp hq h,
  (holds_inside l base (base + size) v.tiles hq).1,
)

unused : (b : Chunk) (bs : List Chunk) → ((q : ℕ) → holds (b ∷ bs) q ≡ none) → b.used ≡ false
unused b bs h = ground (arith, h b.addr)

pub unused-init :
    (base size : ℕ) (l : List Chunk)
    → IsArena base size l
    → 0 < size
    → ((q : ℕ) → holds l q ≡ none)
    → l ≡ init base size
unfolding init
unused-init base size [] v pos h = absurd (omega (arith, v.tiles))
unused-init base size (b ∷ []) v pos h = let u = unused b [] h in let t = v.tiles in ground arith
unused-init base size (b ∷ c ∷ bs) v pos h =
    let u = unused b (c ∷ bs) h in
    let w = unused c bs (λ q. ground (arith, h q)) in let m = v.merged in absurd (ground arith)
