-- ===== src/Arena/Free.antt =====
-- kern/kalloc.c: `vmem_free` gives one block back and merges free neighbours.
use openproninx.Base.{
  ℕ, ◌+◌, ◌<◌, ◌≡◌, refl, ◌∙◌, subst, Option, none, some, inl, inr, Bool-cases, ◌==◌, if◌then◌else◌,
  Bool, true, false, not, ◌&&◌, ◌||◌, List, [], ◌∷◌, arith, add64, sub64,
}
use openproninx.Arena.{Chunk, chunk, header_size, release, merge_into, merge_all, free}
use openproninx.Arena.Tiling.{
  arena_limit, Tiles, apart, IsMerged, Tiles-le, holds, holds_inside, holds_outside,
}

-- The outcome of giving back the block in use at `p`: the other blocks stand.
abbrev pub Released : ℕ → ℕ → List Chunk → ℕ → Option (List Chunk) → Type 0
Released p a l z none = ⊥
Released p a l z (some l') =
    Tiles a l' z × ((q : ℕ) → holds l' q ≡ (if q == p then none else holds l q))

release-later :
    (p : ℕ) (b : Chunk) (bs : List Chunk) (a z : ℕ)
    → Tiles a (b ∷ bs) z
    → (b.addr == p) ≡ false
    → (o : Option (List Chunk)) → Released p (a + b.size) bs z o
    → Released p a (b ∷ bs) z (elim o [ none ↦ none | some l ↦ some (b ∷ l) ])
release-later p b bs a z t e none r = r
release-later p b bs a z t e (some l') (t', same) =
    ((t.0, t.1, t.2, t'), λ q. ground (arith, same q))

release-Released :
    (p s : ℕ) (l : List Chunk) (a z : ℕ)
    → Tiles a l z
    → holds l p ≡ some s
    → Released p a l z (release p l)
unfolding release
release-Released p s [] a z t h = cc
release-Released p s (b ∷ bs) a z t h = elim (Bool-cases (b.addr == p)) [
  | inl e ↦ rw e (t, λ q. ground (arith, holds_outside bs (a + b.size) z {p = q} t.3))
  | inr e ↦
      rw e
        (release-later p b bs a z t e _ (release-Released p s bs (a + b.size) z t.3 (ground arith)))
]

-- What the merging loops keep and what they establish.
record Merged (u : Bool) (a z : ℕ) (l l' : List Chunk) : Type 0 where
  tiles : Tiles a l' z
  same : (q : ℕ) → holds l' q ≡ holds l q
  merged : apart u l' ≡ true

merge_into-Merged :
    (rest : List Chunk) (u : Bool) (b : Chunk) (a z : ℕ)
    → Tiles a (b ∷ rest) z
    → z < arena_limit
    → (u || b.used) ≡ true
    → Merged u a z (b ∷ rest) (merge_into b rest)
unfolding merge_into
merge_into-Merged [] u b a z t h m = record { tiles = t; same = λ q. refl; merged = ground arith }
merge_into-Merged (n ∷ rest) u b a z t h m = elim (Bool-cases (not b.used && not n.used)) [
  | inl e ↦
      let end = Tiles-le rest (a + b.size + n.size) z t.3.3 in
      let size : add64 b.size n.size ≡ b.size + n.size = omega arith in
      let tail : Tiles (a + (b.size + n.size)) rest z =
        subst (λ k. Tiles k rest z) {x = a + b.size + n.size} (omega arith) t.3.3 in
      let ih =
        merge_into-Merged rest u (chunk b.addr (b.size + n.size) b.used) a z
          (t.0, omega arith, omega arith, tail) h m in
      rw (e, size)
        (record { tiles = ih.tiles; same = λ q. ih.same q ∙ ground arith; merged = ih.merged })
  | inr e ↦
      let ih = merge_into-Merged rest b.used n (a + b.size) z t.3 h (ground arith) in
      rw e (record {
        tiles = (t.0, t.1, t.2, ih.tiles);
        same = λ q. ground (arith, ih.same q);
        merged = ground (arith, ih.merged);
      })
]

merge_all-Merged :
    (l : List Chunk) (a z : ℕ) → Tiles a l z → z < arena_limit → Merged true a z l (merge_all l)
unfolding merge_all
merge_all-Merged [] a z t h = record { tiles = t; same = λ q. refl; merged = refl }
merge_all-Merged (b ∷ bs) a z t h = merge_into-Merged bs true b a z t h refl

-- `vmem_free` of a pointer to a block in use.
abbrev pub Freed : ℕ → ℕ → List Chunk → ℕ → Option (List Chunk) → Type 0
Freed p a l z none = ⊥
Freed p a l z (some l') =
    Tiles a l' z
    × IsMerged l'
    × ((q : ℕ) → holds l' q ≡ (if q + header_size == p then none else holds l q))

pub free-Freed :
    (p s : ℕ) (l : List Chunk) (a z : ℕ)
    → Tiles a l z
    → z < arena_limit
    → holds l p ≡ some s
    → Freed (p + header_size) a l z (free (p + header_size) l)
unfolding free
free-Freed p s l a z t h u =
    let i = holds_inside l a z t u in
    let nz : (p + header_size == 0) ≡ false = ground arith in
    let back : sub64 (p + header_size) header_size ≡ p = omega arith in
    rw (nz, back) (go (release p l) (release-Released p s l a z t u))
  where
    go :
        (o : Option (List Chunk))
        → Released p a l z o
        → Freed (p + header_size) a l z (elim o [ none ↦ none | some l' ↦ some (merge_all l') ])
    go none r = r
    go (some l') (t', same) =
        let m = merge_all-Merged l' a z t' h in
        (m.tiles, m.merged, λ q. m.same q ∙ same q ∙ ground arith)
