-- ===== src/Log/Install.antt =====
-- kern/log.c: `install_trans`, stopped at any write.
use openproninx.Base.{
  ℕ, zero, suc, ◌+◌, ◌≤◌, ◌<◌, ◌≡◌, refl, ap, ◌∙◌, true, List, [], ◌∷◌, arith, ◌==◌, get_or, take,
}
use openproninx.Log.{Block, Blocks, Write, store, apply, install_from}
use openproninx.Log.View.{replay, is_home, SameLog}

-- The writes of `install_trans` from entry `tail` on: the log's blocks, to their homes.
abbrev pub installs : ℕ → (ℕ → ℕ) → Blocks → ℕ → ℕ → List Write
installs start e c zero tail = []
installs start e c (suc k) tail = (e tail, c (start + tail + 1)) ∷ installs start e c k (tail + 1)

module _ (start size n : ℕ) (fits : n < size) (e : ℕ → ℕ)
    (homes : (i : ℕ) → i < n → is_home start size (e i) ≡ true) where
  -- Writing the home of an entry leaves the log alone.
  store-SameLog : (i : ℕ) (x : Block) (d : Blocks) → i < n → SameLog start size (store d (e i) x) d
  store-SameLog i x d h b out = ground (arith, homes i h)

  pub install_from-lem :
      (block : List ℕ) (k tail : ℕ) (c c0 : Blocks)
      → ((i : ℕ) → i < n → get_or block i 0 ≡ e i)
      → tail + k ≤ n
      → SameLog start size c c0
      → ((install_from start block k tail c).1 ≡ installs start e c0 k tail)
        × SameLog start size (install_from start block k tail c).0 c0
  unfolding install_from
  install_from-lem block zero tail c c0 he h same = (refl, same)
  install_from-lem block (suc k) tail c c0 he h same =
      let entry = he tail (omega arith) in
      let here : c (start + tail + 1) ≡ c0 (start + tail + 1) = same _ (ground arith) in
      let hit : (e tail == e tail) ≡ true = ground arith in
      let ih =
        install_from-lem block k (tail + 1) (store c (e tail) (c0 (start + tail + 1))) c0 he
          (omega arith) (λ b out. store-SameLog tail _ c (omega arith) b out ∙ same b out) in
      rw (entry, here, hit) (ap (λ l. (e tail, c0 (start + tail + 1)) ∷ l) ih.0, ih.1)

  -- However many of its writes reach the disk, some number of the log's blocks is installed, all of
  -- them if all writes do, and the log is untouched.
  pub install_prefix :
      (c d0 : Blocks)
      → ((i : ℕ) → i < n → c (start + i + 1) ≡ d0 (start + i + 1))
      → (k tail j : ℕ) (d : Blocks) → tail + k ≤ n
      → SameLog start size d d0
      → ((b : ℕ) → is_home start size b ≡ true → d b ≡ replay start e tail d0 b)
      → let d' = apply d (take j (installs start e c k tail)) in
        (t : ℕ) × (t ≤ tail + k)
        × (k ≤ j → t ≡ tail + k)
        × SameLog start size d' d0
        × ((b : ℕ) → is_home start size b ≡ true → d' b ≡ replay start e t d0 b)
  unfolding replay
  install_prefix c d0 logged zero tail zero d h same at = (tail, omega arith, omega arith, same, at)
  install_prefix c d0 logged zero tail (suc j) d h same at =
      (tail, omega arith, omega arith, same, at)
  install_prefix c d0 logged (suc k) tail zero d h same at =
      (tail, omega arith, omega arith, same, at)
  install_prefix c d0 logged (suc k) tail (suc j) d h same at =
      let d1 : Blocks = store d (e tail) (c (start + tail + 1)) in
      let at1 : (b : ℕ) → is_home start size b ≡ true → d1 b ≡ replay start e (suc tail) d0 b =
        λ b hb. rw (logged tail (omega arith), at b hb) in
      let at2 : (b : ℕ) → is_home start size b ≡ true → d1 b ≡ replay start e (tail + 1) d0 b =
        λ b hb. at1 b hb ∙ ap (λ m. replay start e m d0 b) {x = suc tail} (omega arith) in
      let (t, ht, hall, same', at') =
        install_prefix c d0 logged k (tail + 1) j d1 (omega arith)
          (λ b out. store-SameLog tail _ d (omega arith) b out ∙ same b out) at2 in
      (t, omega arith, (λ q. hall (omega arith) ∙ omega arith), same', at')
