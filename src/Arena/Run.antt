-- ===== src/Arena/Run.antt =====
-- kern/kalloc.c: any sequence of `vmem_alloc` and `vmem_free` from `vmem_init` on.
use openproninx.Base.{
  ℕ, ◌+◌, ◌%◌, ◌≤◌, ◌<◌, ◌≡◌, refl, subst, some, inl, inr, Bool-cases, ◌==◌, List, arith,
}
use openproninx.Arena.{Chunk, page_align, header_size, init, alloc, free}
use openproninx.Arena.Tiling.{arena_limit, request_limit, holds}
use openproninx.Arena.Cycle.{IsArena, Allocates, FreesOnly, alloc-Allocates, free-FreesOnly}

-- The blocks that calls lead to: requests below 2 ^ 63, and `vmem_free` of pointers to blocks in use.
pub data Run (base size : ℕ) : List Chunk → Type 0 where
  start : Run base size (init base size)
  taken :
      {l l' : List Chunk} (bytes p : ℕ)
      → Run base size l
      → bytes < request_limit
      → alloc bytes l ≡ some (p, l')
      → Run base size l'
  freed :
      {l l' : List Chunk} (p s : ℕ)
      → Run base size l
      → holds l p ≡ some s
      → free (p + header_size) l ≡ some l'
      → Run base size l'

-- The arena that `vmem_init` is given: whole pages, below the end of the address space.
pub record IsRoom (base size : ℕ) : Type 0 where
  pub page : page_align ≤ size
  pub pages : size % page_align ≡ 0
  pub small : base + size < arena_limit

init-IsArena : (base size : ℕ) → IsRoom base size → IsArena base size (init base size)
unfolding init
init-IsArena base size w = record {
  tiles = (refl, w.page, w.pages, refl);
  merged = refl;
  small = w.small;
}

pub Run-IsArena :
    {base size : ℕ} {l : List Chunk} → IsRoom base size → Run base size l → IsArena base size l
unfolding alloc
Run-IsArena {base} {size} w Run.start = init-IsArena base size w
Run-IsArena {base} {size} {l} w (Run.taken {l = l₀} bytes p r h e) =
    elim (Bool-cases (bytes == 0)) [
      | inl z ↦ absurd (cc (rw z at e))
      | inr z ↦
          let a = alloc-Allocates bytes base size (ground arith) h (Run-IsArena w r) in
          (subst (Allocates bytes base size l₀) e a).0
    ]
Run-IsArena {base} {size} w (Run.freed {l = l₀} p s r h e) =
    (subst (FreesOnly (p + header_size) base size l₀) e
      (free-FreesOnly p s base size (Run-IsArena w r) h)).0
