-- ===== src/Log/Atomic.antt =====
-- kern/log.c: `commit` is atomic.
use openproninx.Base.{
  ℕ, zero, suc, ◌+◌, ◌≤◌, ◌<◌, ◌≡◌, ◌≢◌, ◌⊎◌, inl, inr, refl, ap, ap₂, ◌∙◌, sym, subst, true, false,
  List, [], ◌∷◌, ◌++◌, arith, ◌==◌, ==_iff, Bool-cases, get_or, set, length, take, length-set,
  get_or-set_self, dec_le,
}
use openproninx.Log.{
  Block, Blocks, Write, Header, store, apply, log_size, copy_words, install_trans, write_head,
  write_log_from, write_log, commit,
}
use openproninx.Log.View.{replay, view, entry_of, is_home, SameHome, replay-congr}
use openproninx.Log.Copy.{
  length-copy_words, copy_words_before, copy_words_lem, apply_take-append, apply-append, take_all,
}
use openproninx.Log.Writes.{logs, write_log_from-Logged, logs_prefix, logs_hold, Logged}
use openproninx.Log.Install.{installs, install_from-lem}
use openproninx.Log.Commit.{
  block_words, count_of, IsLog, Holds, view_of_count, empty-Holds, Holds-congr, install_and_clear,
  install_and_clear_done,
}
use openproninx.Log.Crash.{rounds_small, clear_words}

-- What the callers of `commit` establish: the header in memory names home blocks, every cached home
-- block that differs from the disk is among them, and the log on the disk and in the cache is empty.
pub record Ready (start size : ℕ) (lh : Header) (c d : Blocks) : Type 0 where
  pub bound : lh.n ≤ log_size
  pub fits : lh.n < size
  pub entries : length lh.block ≡ log_size
  pub homes : (i : ℕ) → i < lh.n → is_home start size (get_or lh.block i 0) ≡ true
  pub header : c start ≡ d start
  pub disk_words : length (d start) ≡ block_words
  pub empty : count_of start d ≡ 0
  pub clean :
      (b : ℕ)
      → is_home start size b ≡ true
      → ((i : ℕ) → i < lh.n → get_or lh.block i 0 ≢ b)
      → c b ≡ d b

installs-congr :
    (start : ℕ) (e e' : ℕ → ℕ) (c : Blocks) (k tail : ℕ)
    → ((i : ℕ) → i < tail + k → e i ≡ e' i)
    → installs start e c k tail ≡ installs start e' c k tail
installs-congr start e e' c zero tail h = refl
installs-congr start e e' c (suc k) tail h =
    ap₂ (λ (b : ℕ) (ws : List Write). (b, c (start + tail + 1)) ∷ ws) (h tail (omega arith))
      (installs-congr start e e' c k (tail + 1) (λ i p. h i (omega arith)))

-- The cache follows the writes.
pub write_log_from-apply :
    (start : ℕ) (block : List ℕ) (k tail : ℕ) (c : Blocks)
    → (write_log_from start block k tail c).0 ≡ apply c (write_log_from start block k tail c).1
unfolding write_log_from
write_log_from-apply start block zero tail c = refl
write_log_from-apply start block (suc k) tail c =
    let hit : (start + tail + 1 == start + tail + 1) ≡ true = ground arith in
    rw hit (write_log_from-apply start block k (tail + 1) _)

-- With the cached contents of the entries in the log, installing it gives the cache.
replay_new :
    (start : ℕ) (e : ℕ → ℕ) (c d : Blocks) (b n : ℕ)
    → ((i : ℕ) → i < n → d (start + i + 1) ≡ c (e i))
    → (((i : ℕ) → i < n → e i ≢ b) → d b ≡ c b)
    → replay start e n d b ≡ c b
unfolding replay
replay_new start e c d b zero hl hb = hb (λ i h. absurd (omega arith))
replay_new start e c d b (suc n) hl hb = elim (Bool-cases (e n == b)) [
  | inl same ↦ rw same (hl n (omega arith) ∙ ap c ((==_iff (e n) b).0 same))
  | inr other ↦ rw other (
      replay_new start e c d b n (λ i h. hl i (omega arith))
        (λ none. hb (λ i h. none_at i h none other)))
]
  where
    none_at : (i : ℕ) → i < suc n → ((i : ℕ) → i < n → e i ≢ b) → (e n == b) ≡ false → e i ≢ b
    none_at i h none other = elim (dec_le (i + 1) n) [
      | yes p ↦ none i (omega arith)
      | no p ↦ let s : i ≡ n = omega arith in rw s (ground arith)
    ]

copy_words_none :
    (i : ℕ) (from : List ℕ) (f : ℕ) (to : List ℕ) (t : ℕ) → copy_words 0 i from f to t ≡ to
unfolding copy_words
copy_words_none i from f to t = refl

module _ (start size : ℕ) (lh : Header) (c d : Blocks) (ready : Ready start size lh c d) where
  abbrev pub n : ℕ
  n = lh.n

  abbrev pub e : ℕ → ℕ
  e i = get_or lh.block i 0

  cache_words : length (c start) ≡ block_words
  cache_words = ap length ready.header ∙ ready.disk_words

  -- The header block that `write_head` writes.
  abbrev head : Block
  head = copy_words n 0 lh.block 0 (set (c start) 0 n) 1

  -- The cache after `write_log` and `write_head`.
  abbrev logged_cache : Blocks
  logged_cache = store (write_log_from start lh.block n 0 c).0 start head

  logged : Logged start size n ready.fits e ready.homes c n 0 (write_log_from start lh.block n 0 c)
  logged =
      write_log_from-Logged start size n ready.fits e ready.homes lh.block n 0 c c (λ i h. refl)
        (omega arith) (λ b home. refl) refl

  commit-writes :
      n ≢ 0
      → (commit start lh c).2
        ≡ logs start e c n 0
          ++ (start, head) ∷ (installs start e logged_cache n 0 ++ (start, set head 0 0) ∷ [])
  unfolding commit write_log write_head install_trans
  commit-writes h =
      let r = rounds_small n ready.bound in
      let nz : (n == 0) ≡ false = ground arith in
      let fit = ready.fits in
      let in_log : is_home start size start ≡ false = ground arith in
      let hit : (start == start) ≡ true = ground arith in
      let p =
        install_from-lem start size n ready.fits e ready.homes lh.block n 0 logged_cache
          logged_cache (λ i h. refl) (omega arith) (λ b out. refl) in
      rw (r, nz, logged.header, logged.writes, p.0, p.1 start in_log, hit, copy_words_none)

  abbrev disk_logged : Blocks
  disk_logged = apply d (logs start e c n 0)

  -- The disk once the header is written: the point of the commit.
  abbrev committed : Blocks
  committed = store disk_logged start head

  head_words : (length head ≡ block_words) × (get_or head 0 0 ≡ n)
  head_words = (
    length-copy_words n 0 lh.block 0 (set (c start) 0 n) 1 ∙ length-set (c start) 0 n ∙ cache_words,
    copy_words_before n 0 lh.block 0 (set (c start) 0 n) 1 0 (omega arith)
        ∙ get_or-set_self (c start) 0 n 0 (omega (arith, cache_words)),
  )

  head-entry : (i : ℕ) → i < n → get_or head (i + 1) 0 ≡ e i
  head-entry i h =
      copy_words_lem n 0 lh.block 0 (set (c start) 0 n) 1 i (omega arith) (omega arith)
        (omega (arith, ready.bound, cache_words, length-set (c start) 0 n))
      ∙ ap (λ j. get_or lh.block j 0) (omega arith)

  committed-head : committed start ≡ head
  committed-head = let hit : (start == start) ≡ true = ground arith in rw hit

  committed-count : count_of start committed ≡ n
  committed-count = rw committed-head head_words.1

  committed-entry : (i : ℕ) → i < n → entry_of start committed i ≡ e i
  committed-entry i h = rw committed-head (head-entry i h)

  committed-IsLog : IsLog start size committed
  committed-IsLog = record {
    bound = rw committed-count ready.bound;
    fits = rw committed-count ready.fits;
    words = rw committed-head head_words.0;
    homes = λ i h.
        let h' : i < n = omega (arith, committed-count) in
        ap (is_home start size) (committed-entry i h') ∙ ready.homes i h';
  }

  -- The log's blocks, on the disk and in the cache.
  logged_block :
      (f : Blocks) (i : ℕ)
      → i < n
      → store (apply f (logs start e c n 0)) start head (start + i + 1) ≡ c (e i)
  logged_block f i h =
      let miss : (start == start + i + 1) ≡ false = ground arith in
      rw miss (
        logs_hold start size n ready.fits e ready.homes c n 0 i f (omega arith) (omega arith)
          (λ q. absurd (omega arith)))

  logs_written : SameHome start size disk_logged d × (disk_logged start ≡ d start)
  logs_written =
      subst (λ ws. SameHome start size (apply d ws) d × (apply d ws start ≡ d start))
        (take_all (logs start e c n 0))
        (logs_prefix start size n ready.fits e ready.homes c n 0 (length (logs start e c n 0)) d
          (omega arith))

  committed-new : SameHome start size (view start committed) c
  committed-new b home =
      view_of_count start size committed n b committed-count ready.bound
      ∙ replay-congr start size (entry_of start committed) e n committed committed b ready.fits
          committed-entry (λ i h. refl) refl
      ∙ replay_new start e c committed b n (logged_block d) unlogged
    where
      unlogged : ((i : ℕ) → i < n → e i ≢ b) → committed b ≡ c b
      unlogged none =
          let fit = ready.fits in
          let miss : (start == b) ≡ false = ground arith in
          rw miss (logs_written.0 b home ∙ sym (ready.clean b home none))

  cache_logged :
      (i : ℕ)
      → i < count_of start committed
      → logged_cache (start + i + 1) ≡ committed (start + i + 1)
  cache_logged i h =
      let h' : i < n = omega (arith, committed-count) in
      ap (λ (f : Blocks). store f start head (start + i + 1))
        (write_log_from-apply start lh.block n 0 c ∙ ap (apply c) logged.writes)
      ∙ logged_block c i h'
      ∙ sym (logged_block d i h')

  installs-committed :
      installs start (entry_of start committed) logged_cache (count_of start committed) 0
      ≡ installs start e logged_cache n 0
  installs-committed =
      ap (λ m. installs start (entry_of start committed) logged_cache m 0) committed-count
      ∙ installs-congr start _ e logged_cache n 0 (λ i h. committed-entry i (omega arith))

  -- The disk stands for the blocks before the transaction, or for those after it.
  abbrev pub OldOrNew : Blocks → Type 0
  OldOrNew d' = Holds start size d d' ⊎ Holds start size c d'

  old-Holds :
      (d' : Blocks) → SameHome start size d' d × (d' start ≡ d start) → Holds start size d d'
  old-Holds d' (same, hd) =
      let fit = ready.fits in
      Holds-congr start size d' same
        (empty-Holds start size d' (omega arith) (rw hd ready.disk_words) (rw hd ready.empty))

  after_logs :
      (j : ℕ)
      → OldOrNew (
          apply disk_logged (
            take j
              ((start, head) ∷ (installs start e logged_cache n 0 ++ (start, set head 0 0) ∷ []))))
  after_logs zero = inl (old-Holds disk_logged logs_written)
  after_logs (suc j) =
      let w = clear_words head head_words.0 in
      inr (
        Holds-congr start size _ committed-new (
          subst
            (λ ws.
              Holds start size (view start committed)
                (apply committed (take j (ws ++ (start, set head 0 0) ∷ []))))
            installs-committed
            (install_and_clear start size committed committed-IsLog logged_cache cache_logged
              (set head 0 0) w.0 w.1 j)))

  pub commit-OldOrNew : n ≢ 0 → (j : ℕ) → OldOrNew (apply d (take j (commit start lh c).2))
  commit-OldOrNew h j = rw (commit-writes h) (
      apply_take-append OldOrNew (logs start e c n 0) _ d
        (λ i.
          inl (
            old-Holds _
              (logs_prefix start size n ready.fits e ready.homes c n 0 i d (omega arith))))
        after_logs j)

  pub commit-new : n ≢ 0 → SameHome start size (apply d (commit start lh c).2) c
  commit-new h b home =
      let w = clear_words head head_words.0 in
      ap (λ ws. apply d ws b) (commit-writes h)
      ∙ ap (λ (f : Blocks). f b) (apply-append (logs start e c n 0) _ d)
      ∙ ap (λ ws. apply committed (ws ++ (start, set head 0 0) ∷ []) b) (sym installs-committed)
      ∙ install_and_clear_done start size committed committed-IsLog logged_cache cache_logged
          (set head 0 0) w.0 w.1 b home
      ∙ committed-new b home

  -- The last write of a commit clears the header.
  pub commit-last :
      n ≢ 0
      → (b : Block) × (length b ≡ block_words) × (apply d (commit start lh c).2 start ≡ set b 0 0)
  commit-last h =
      let hit : (start == start) ≡ true = ground arith in
      (
        head,
        head_words.0,
        ap (λ ws. apply d ws start) (commit-writes h)
            ∙ ap (λ (f : Blocks). f start) (apply-append (logs start e c n 0) _ d)
            ∙ ap (λ (f : Blocks). f start)
                (apply-append (installs start e logged_cache n 0) _ committed)
            ∙ rw hit,
      )
