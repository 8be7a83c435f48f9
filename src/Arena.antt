-- ===== src/Arena.antt =====
-- kern/kalloc.c, `vmem_init`, `vmem_alloc` and `vmem_free`: the contiguous arena of the console.
-- The chain of `struct vmem_block` headers is the list of the blocks in the chain's order, each with
-- the address of its header. Sizes are 64-bit words; a header takes 64 bytes.
pub mod Tiling
pub mod Alloc
pub mod Free
pub mod Cycle
pub mod Run
mod Examples
use openproninx.Base.{
  ℕ, ◌+◌, ◌-◌, ◌*◌, ◌/◌, Bool, true, false, not, ◌&&◌, ◌||◌, Option, none, some, List, [], ◌∷◌,
  ◌==◌, ltb, leb, if◌then◌else◌, add64, sub64,
}

abbrev pub header_size : ℕ
header_size = 64

abbrev pub page_align : ℕ
page_align = 4096

-- `struct vmem_block` at its address
pub record Chunk : Type 0 where
  pub addr : ℕ
  pub size : ℕ
  pub used : Bool

abbrev pub chunk : ℕ → ℕ → Bool → Chunk
chunk a s u = record { addr = a; size = s; used = u }

pub init : ℕ → ℕ → List Chunk
init base size = chunk base size false ∷ []

-- `(VMEM_HDR + bytes + VMEM_ALIGN - 1) & ~(VMEM_ALIGN - 1)`, which wraps for a huge request.
pub needed : ℕ → ℕ
needed bytes = add64 header_size (add64 bytes (page_align - 1)) / page_align * page_align

-- The search of `vmem_alloc`: the address that it returns, and the blocks.
pub alloc_from : ℕ → List Chunk → Option (ℕ × List Chunk)
alloc_from need [] = none
alloc_from need (b ∷ bs) =
    if b.used || ltb b.size need
    then elim (alloc_from need bs) [ none ↦ none | some (p, l) ↦ some (p, b ∷ l) ]
    else if leb (add64 need (page_align * 2)) b.size
    then some (
      add64 b.addr header_size,
      chunk b.addr need true ∷ chunk (add64 b.addr need) (sub64 b.size need) false ∷ bs,
    )
    else some (add64 b.addr header_size, chunk b.addr b.size true ∷ bs)

-- `vmem_alloc` where the arena is set up.
pub alloc : ℕ → List Chunk → Option (ℕ × List Chunk)
alloc bytes l = if bytes == 0 then none else alloc_from (needed bytes) l

-- `b->used = 0` at the header with this address: `none` if there is no such header.
pub release : ℕ → List Chunk → Option (List Chunk)
release a [] = none
release a (b ∷ bs) =
    if b.addr == a
    then some (chunk b.addr b.size false ∷ bs)
    else elim (release a bs) [ none ↦ none | some l ↦ some (b ∷ l) ]

-- The loops of `vmem_free`: `b` takes in the free blocks behind it, if it is free.
pub merge_into : Chunk → List Chunk → List Chunk
merge_into b [] = b ∷ []
merge_into b (n ∷ rest) =
    let merged = merge_into (chunk b.addr (add64 b.size n.size) b.used) rest in
    let kept = b ∷ merge_into n rest in if not b.used && not n.used then merged else kept

pub merge_all : List Chunk → List Chunk
merge_all [] = []
merge_all (b ∷ bs) = merge_into b bs

-- `vmem_free`; a null pointer is ignored. `none` is a pointer that no `vmem_alloc` returned.
pub free : ℕ → List Chunk → Option (List Chunk)
free p l =
    if p == 0
    then some l
    else elim (release (sub64 p header_size) l) [ none ↦ none | some l' ↦ some (merge_all l') ]
