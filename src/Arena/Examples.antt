-- ===== src/Arena/Examples.antt =====
-- The theorems on the arena of kern/kalloc.c at concrete arenas, and tests of the model.
use openproninx.Base.{◌+◌, ◌≡◌, refl, some, true, false, List, [], ◌∷◌, arith}
use openproninx.Arena.{
  Chunk, chunk, header_size, needed, alloc_from, alloc, release, merge_into, merge_all, free,
}
use openproninx.Arena.Run.{Run}
use openproninx.Arena.Cycle.{IsArena, Allocates, FreesOnly, alloc-Allocates, free-FreesOnly}

-- The arena is at a `P2V` address.
abbrev fresh : List Chunk
fresh = chunk 18446603336288305152 0x10_000 false ∷ []

-- Two blocks in use with a free one between them and one behind.
abbrev busy : List Chunk
busy =
    chunk 18446603336288305152 4096 true
    ∷ chunk 18446603336288309248 8192 false
    ∷ chunk 18446603336288317440 4096 true
    ∷ chunk 18446603336288321536 49_152 false
    ∷ []

fresh-IsArena : IsArena 18446603336288305152 0x10_000 fresh
fresh-IsArena = record { tiles = omega arith; merged = refl; small = omega arith }

busy-IsArena : IsArena 18446603336288305152 0x10_000 busy
busy-IsArena = record { tiles = omega arith; merged = refl; small = omega arith }

alloc_splits :
    alloc 100 fresh
    ≡ some (
      18446603336288305216,
      chunk 18446603336288305152 4096 true ∷ chunk 18446603336288309248 0xf000 false ∷ [],
    )
unfolding alloc alloc_from needed
alloc_splits = refl

-- A block that would leave less than two pages is taken whole.
alloc_whole :
    alloc 4032 busy
    ≡ some (
      18446603336288309312,
      chunk 18446603336288305152 4096 true
          ∷ chunk 18446603336288309248 8192 true
          ∷ chunk 18446603336288317440 4096 true
          ∷ chunk 18446603336288321536 49_152 false
          ∷ [],
    )
unfolding alloc alloc_from needed
alloc_whole = refl

free_merges :
    free 18446603336288317504 busy
    ≡ some (chunk 18446603336288305152 4096 true ∷ chunk 18446603336288309248 0xf000 false ∷ [])
unfolding free release merge_all merge_into
free_merges = refl

alloc-Allocates_example : Allocates 5000 18446603336288305152 0x10_000 busy (alloc 5000 busy)
alloc-Allocates_example =
    alloc-Allocates 5000 18446603336288305152 0x10_000 (omega arith) (omega arith) busy-IsArena

free-FreesOnly_example :
    FreesOnly
      (18446603336288317440 + header_size)
      18446603336288305152
      0x10_000
      busy
      (free (18446603336288317440 + header_size) busy)
free-FreesOnly_example =
    free-FreesOnly 18446603336288317440 4096 18446603336288305152 0x10_000 busy-IsArena refl

-- A block is allocated, then another.
abbrev one : List Chunk
one = chunk 18446603336288305152 4096 true ∷ chunk 18446603336288309248 0xf000 false ∷ []

abbrev two : List Chunk
two =
    chunk 18446603336288305152 4096 true
    ∷ chunk 18446603336288309248 4096 true
    ∷ chunk 18446603336288313344 0xe000 false
    ∷ []
