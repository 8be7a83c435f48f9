-- ===== src/Arena/Alloc.antt =====
-- kern/kalloc.c: `vmem_alloc` is first fit and keeps the arena tiled.
use openproninx.Base.{
  ℕ, ◌+◌, ◌-◌, ◌*◌, ◌%◌, ◌≤◌, ◌<◌, ◌≡◌, refl, subst, Option, none, some, inl, inr, Bool-cases, ◌==◌,
  ltb, leb, if◌then◌else◌, Bool, true, false, not, ◌||◌, List, [], ◌∷◌, arith, add64, sub64,
}
use openproninx.Arena.{Chunk, chunk, page_align, header_size, alloc_from}
use openproninx.Arena.Tiling.{arena_limit, Tiles, apart, Tiles-le, holds, holds_outside}

abbrev pub fits : ℕ → Chunk → Bool
fits need b = not (b.used || ltb b.size need)

abbrev pub NoneFits : ℕ → List Chunk → Type 0
NoneFits need [] = Unit
NoneFits need (b ∷ bs) = (fits need b ≡ false) × NoneFits need bs

-- What the search must return for the blocks `l` between `a` and `z`: the first block that fits is
-- taken for the request, and nothing else changes; or there is none.
abbrev pub Found : ℕ → Bool → ℕ → List Chunk → ℕ → Option (ℕ × List Chunk) → Type 0
Found need u a l z none = NoneFits need l
Found need u a l z (some (p, l')) =
    Tiles a l' z
    × (apart u l' ≡ true)
    × (a + header_size ≤ p)
    × (holds l (p - header_size) ≡ none)
    × (s : ℕ) × (need ≤ s)
    × ((q : ℕ) → holds l' q ≡ (if q + header_size == p then some s else holds l q))

apart_mono : (bs : List Chunk) → apart false bs ≡ true → apart true bs ≡ true
apart_mono [] h = refl
apart_mono (b ∷ bs) h = ground arith

module _ (need : ℕ) (pages : need % page_align ≡ 0) (page : page_align ≤ need) where
  Found-later :
      (u : Bool) (b : Chunk) (bs : List Chunk) (a z : ℕ)
      → Tiles a (b ∷ bs) z
      → apart u (b ∷ bs) ≡ true
      → fits need b ≡ false
      → (o : Option (ℕ × List Chunk)) → Found need b.used (a + b.size) bs z o
      → Found need u a (b ∷ bs) z (elim o [ none ↦ none | some (p, l) ↦ some (p, b ∷ l) ])
  Found-later u b bs a z t m f none r = (f, r)
  Found-later u b bs a z t m f (some (p, l')) (t', m', hp, fresh, s, hs, same) = (
    (t.0, t.1, t.2, t'),
    ground arith,
    omega arith,
    ground arith,
    s,
    hs,
    λ q. ground (arith, same q),
  )

  -- The block that fits is split, or taken whole.
  Found-split :
      (u : Bool) (b : Chunk) (bs : List Chunk) (a z : ℕ)
      → Tiles a (b ∷ bs) z
      → z < arena_limit
      → apart u (b ∷ bs) ≡ true
      → b.used ≡ false
      → need + page_align * 2 ≤ b.size
      → Found need u a (b ∷ bs) z (
          some (
            add64 b.addr header_size,
            chunk b.addr need true ∷ chunk (add64 b.addr need) (sub64 b.size need) false ∷ bs,
          ))
  Found-split u b bs a z t h m f room =
      let e = Tiles-le bs (a + b.size) z t.3 in
      let p : add64 b.addr header_size ≡ a + header_size = omega arith in
      let q : add64 b.addr need ≡ a + need = omega arith in
      let r : sub64 b.size need ≡ b.size - need = omega arith in
      let end : a + b.size ≡ a + need + (b.size - need) = omega arith in
      let rest : Tiles (a + need + (b.size - need)) bs z = subst (λ k. Tiles k bs z) end t.3 in
      rw (p, q, r)
        (
          (t.0, page, pages, (refl, omega arith, omega arith, rest)),
          ground arith,
          omega arith,
          ground (arith, holds_outside bs (a + b.size) z {p = a} t.3),
          need,
          omega arith,
          λ x. ground (arith, holds_outside bs (a + b.size) z {p = x} t.3),
        )

  Found-whole :
      (u : Bool) (b : Chunk) (bs : List Chunk) (a z : ℕ)
      → Tiles a (b ∷ bs) z
      → z < arena_limit
      → apart u (b ∷ bs) ≡ true
      → b.used ≡ false
      → need ≤ b.size
      → Found need u a (b ∷ bs) z (some (add64 b.addr header_size, chunk b.addr b.size true ∷ bs))
  Found-whole u b bs a z t h m f room =
      let e = Tiles-le bs (a + b.size) z t.3 in
      let p : add64 b.addr header_size ≡ a + header_size = omega arith in
      rw p (
        t,
        ground (arith, apart_mono bs),
        omega arith,
        ground (arith, holds_outside bs (a + b.size) z {p = a} t.3),
        b.size,
        room,
        λ q. ground (arith, holds_outside bs (a + b.size) z {p = q} t.3),
      )

  pub alloc_from-Found :
      (u : Bool) (l : List Chunk) (a z : ℕ)
      → Tiles a l z
      → z < arena_limit
      → apart u l ≡ true
      → Found need u a l z (alloc_from need l)
  unfolding alloc_from
  alloc_from-Found u [] a z t h m = tt
  alloc_from-Found u (b ∷ bs) a z t h m = elim (Bool-cases (b.used || ltb b.size need)) [
    | inl e ↦ rw e (
        Found-later u b bs a z t m (rw e) _
          (alloc_from-Found b.used bs (a + b.size) z t.3 h (ground arith)))
    | inr e ↦ rw e (elim (Bool-cases (leb (add64 need (page_align * 2)) b.size)) [
      | inl e' ↦ rw e' (
          Found-split u b bs a z t h m (ground arith)
            (ground (arith, Tiles-le bs (a + b.size) z t.3)))
      | inr e' ↦ rw e' (Found-whole u b bs a z t h m (ground arith) (ground arith))
    ])
  ]
