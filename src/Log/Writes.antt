-- ===== src/Log/Writes.antt =====
-- kern/log.c: `write_log`, stopped at any write.
use openproninx.Base.{
  ℕ, zero, suc, ◌+◌, ◌≤◌, ◌<◌, ◌≡◌, refl, ap, ◌∙◌, true, false, List, [], ◌∷◌, arith, ◌==◌, get_or,
  take, dec_le,
}
use openproninx.Log.{Block, Blocks, Write, store, apply, write_log_from}
use openproninx.Log.View.{is_home, SameHome}

-- The writes of `write_log`: each entry's cached contents to its place in the log.
abbrev pub logs : ℕ → (ℕ → ℕ) → Blocks → ℕ → ℕ → List Write
logs start e c zero tail = []
logs start e c (suc k) tail = (start + tail + 1, c (e tail)) ∷ logs start e c k (tail + 1)

module _ (start size n : ℕ) (fits : n < size) (e : ℕ → ℕ)
    (homes : (i : ℕ) → i < n → is_home start size (e i) ≡ true) where
  store_log-SameHome :
      (i : ℕ) (x : Block) (d : Blocks) → i < n → SameHome start size (store d (start + i + 1) x) d
  store_log-SameHome i x d h b home = ground arith

  -- What `write_log` does, in the cache and to the disk.
  pub record Logged (c0 : Blocks) (k tail : ℕ) (out : Blocks × List Write) : Type 0 where
    pub writes : out.1 ≡ logs start e c0 k tail
    pub home : SameHome start size out.0 c0
    pub header : out.0 start ≡ c0 start

  pub write_log_from-Logged :
      (block : List ℕ) (k tail : ℕ) (c c0 : Blocks)
      → ((i : ℕ) → i < n → get_or block i 0 ≡ e i)
      → tail + k ≤ n
      → SameHome start size c c0
      → c start ≡ c0 start
      → Logged c0 k tail (write_log_from start block k tail c)
  unfolding write_log_from
  write_log_from-Logged block zero tail c c0 he h same hd = record {
    writes = refl;
    home = same;
    header = hd;
  }
  write_log_from-Logged block (suc k) tail c c0 he h same hd =
      let entry = he tail (omega arith) in
      let here : c (e tail) ≡ c0 (e tail) = same _ (homes tail (omega arith)) in
      let hit : (start + tail + 1 == start + tail + 1) ≡ true = ground arith in
      let ih =
        write_log_from-Logged block k (tail + 1) (store c (start + tail + 1) (c0 (e tail))) c0 he
          (omega arith) (λ b home. store_log-SameHome tail _ c (omega arith) b home ∙ same b home)
          (ground arith) in
      rw (entry, here, hit)
        (record {
          writes = ap (λ l. (start + tail + 1, c0 (e tail)) ∷ l) ih.writes;
          home = ih.home;
          header = ih.header;
        })

  -- However many of the log's writes reach the disk, the home blocks and the header stay.
  pub logs_prefix :
      (c : Blocks) (k tail j : ℕ) (d : Blocks)
      → tail + k ≤ n
      → let d' = apply d (take j (logs start e c k tail)) in
        SameHome start size d' d × (d' start ≡ d start)
  logs_prefix c zero tail zero d h = ((λ b home. refl), refl)
  logs_prefix c zero tail (suc j) d h = ((λ b home. refl), refl)
  logs_prefix c (suc k) tail zero d h = ((λ b home. refl), refl)
  logs_prefix c (suc k) tail (suc j) d h =
      let ih =
        logs_prefix c k (tail + 1) j (store d (start + tail + 1) (c (e tail))) (omega arith) in
      (
        (λ b home. ih.0 b home ∙ store_log-SameHome tail _ d (omega arith) b home),
        ih.1 ∙ ground arith,
      )

  -- Once all are written, the log holds the cached contents of the entries.
  pub logs_hold :
      (c : Blocks) (k tail i : ℕ) (d : Blocks)
      → tail + k ≤ n
      → i < tail + k
      → ((i < tail) → d (start + i + 1) ≡ c (e i))
      → apply d (logs start e c k tail) (start + i + 1) ≡ c (e i)
  logs_hold c zero tail i d h hi before = before (omega arith)
  logs_hold c (suc k) tail i d h hi before =
      logs_hold c k (tail + 1) i (store d (start + tail + 1) (c (e tail))) (omega arith)
        (omega arith) (λ q. here (dec_le tail i) q)
    where
      here :
          Dec (tail ≤ i)
          → i < tail + 1
          → store d (start + tail + 1) (c (e tail)) (start + i + 1) ≡ c (e i)
      here (yes p) q =
          let s : tail ≡ i = omega arith in
          let hit : (start + i + 1 == start + i + 1) ≡ true = ground arith in rw (s, hit)
      here (no p) q =
          let miss : (start + tail + 1 == start + i + 1) ≡ false = ground arith in
          rw miss (before (omega arith))
