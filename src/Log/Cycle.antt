-- ===== src/Log/Cycle.antt =====
-- kern/log.c: `log_write` and `commit` keep what the next commit relies on.
use openproninx.Base.{
  ℕ, zero, suc, ◌+◌, ◌≤◌, ◌<◌, ◌≡◌, ◌≢◌, inl, inr, refl, ap, ◌∙◌, sym, Bool, true, false, List, [],
  ◌∷◌, ◌++◌, arith, ◌==◌, Bool-cases, get_or, length, length-set, get_or-set_self, get_or-set_ne,
  ℕ_discrete,
}
use openproninx.Log.{
  Block, Blocks, Write, Header, store, apply, log_size, rounds, install_from, write_log, write_head,
  install_trans, commit,
}
use openproninx.Log.View.{is_home}
use openproninx.Log.Copy.{apply-append}
use openproninx.Log.Commit.{block_words, count_of}
use openproninx.Log.Atomic.{Ready, commit-last, write_log_from-apply}
use openproninx.Log.Crash.{clear_words, rounds_small}
use openproninx.Log.Boot.{commit-durable}
use openproninx.Log.Ops.{Log, Outcome, log_write, Entered, log_write-Entered}

module _ (l l' : Log) (b : ℕ) (x : Block) (c d : Blocks) (en : Entered l l' b)
    (home : is_home l.start l.size b ≡ true) (ready : Ready l.start l.size l.lh c d) where
  new_entry : get_or l'.lh.block en.index 0 ≡ b
  new_entry =
      ap (λ bl. get_or bl en.index 0) en.block
      ∙ get_or-set_self l.lh.block en.index b 0
          (omega (arith, en.index_in, en.count, en.room, ready.entries))

  old_entry : (i : ℕ) → en.index ≢ i → get_or l'.lh.block i 0 ≡ get_or l.lh.block i 0
  old_entry i h = ap (λ bl. get_or bl i 0) en.block ∙ get_or-set_ne l.lh.block b 0 h

  entered_home : (i : ℕ) → i < l'.lh.n → is_home l.start l.size (get_or l'.lh.block i 0) ≡ true
  entered_home i h = elim (ℕ_discrete en.index i) [
    | yes e ↦ rw (← e) (ap (is_home l.start l.size) new_entry ∙ home)
    | no e ↦ ap (is_home l.start l.size) (old_entry i e) ∙ ready.homes i (omega (arith, en.count))
  ]

  entered_clean :
      (q : ℕ)
      → is_home l.start l.size q ≡ true
      → ((i : ℕ) → i < l'.lh.n → get_or l'.lh.block i 0 ≢ q)
      → store c b x q ≡ d q
  entered_clean q hq none =
      let other : b ≢ q = λ e. none en.index en.index_in (new_entry ∙ e) in
      let miss : (b == q) ≡ false = ground arith in
      rw miss (
        ready.clean q hq λ i h e. elim (ℕ_discrete en.index i) [
          | yes s ↦ other (sym (en.kept (omega arith)) ∙ ap (λ j. get_or l.lh.block j 0) s ∙ e)
          | no s ↦ none i (omega (arith, en.count)) (old_entry i s ∙ e)
        ])

  entered-Ready : Ready l.start l.size l'.lh (store c b x) d
  entered-Ready =
      let fit = ready.fits in
      let miss : (b == l.start) ≡ false = ground (arith, home) in
      record {
        bound = omega (arith, en.count, en.room);
        fits = omega (arith, en.count, en.room);
        entries = ap length en.block ∙ length-set l.lh.block en.index b ∙ ready.entries;
        homes = entered_home;
        header = rw miss ready.header;
        disk_words = ready.disk_words;
        empty = ready.empty;
        clean = entered_clean;
      }

-- `log_write` of a home block that the caller has changed in the cache keeps the transaction ready to
-- be committed, with the new contents.
pub log_write-Ready :
    (l : Log) (b : ℕ) (x : Block) (c d : Blocks) {l' : Log} {w : Bool}
    → log_write l b ≡ Outcome.done l' w
    → is_home l.start l.size b ≡ true
    → Ready l.start l.size l.lh c d
    → Ready l'.start l'.size l'.lh (store c b x) d
log_write-Ready l b x c d {l'} h home ready =
    let en = log_write-Entered l b h in
    let o = en.others in rw (o.0, o.1) (entered-Ready l l' b x c d en home ready)

install_from-apply :
    (start : ℕ) (block : List ℕ) (k tail : ℕ) (c : Blocks)
    → (install_from start block k tail c).0 ≡ apply c (install_from start block k tail c).1
unfolding install_from
install_from-apply start block zero tail c = refl
install_from-apply start block (suc k) tail c =
    let hit : (get_or block tail 0 == get_or block tail 0) ≡ true = ground arith in
    rw hit (install_from-apply start block k (tail + 1) _)

-- A stretch whose cache is what its writes make of the cache before it.
abbrev Follows : Blocks → Blocks × List Write → Type 0
Follows c out = out.0 ≡ apply c out.1

write_log-Follows : (start : ℕ) (lh : Header) (c : Blocks) → Follows c (write_log start lh c)
unfolding write_log
write_log-Follows start lh c = write_log_from-apply start lh.block (rounds lh.n) 0 c

install_trans-Follows :
    (start : ℕ) (lh : Header) (c : Blocks) → Follows c (install_trans start lh c)
unfolding install_trans
install_trans-Follows start lh c = install_from-apply start lh.block (rounds lh.n) 0 c

write_head-Follows : (start : ℕ) (lh : Header) (c : Blocks) → Follows c (write_head start lh c)
unfolding write_head
write_head-Follows start lh c = refl

Follows-append :
    (c c1 : Blocks) {c2 : Blocks} (w1 w2 : List Write)
    → c1 ≡ apply c w1
    → c2 ≡ apply c1 w2
    → c2 ≡ apply c (w1 ++ w2)
Follows-append c c1 w1 w2 p q = q ∙ ap (λ (f : Blocks). apply f w2) p ∙ sym (apply-append w1 w2 c)

-- The cache follows the writes of a commit.
commit-apply :
    (start : ℕ) (lh : Header) (c : Blocks) → (commit start lh c).1 ≡ apply c (commit start lh c).2
unfolding commit
commit-apply start lh c = elim (Bool-cases (rounds lh.n == 0)) [
  | inl z ↦ rw z
  | inr nz ↦
      let c1 = (write_log start lh c).0 in
      let c2 = (write_head start lh c1).0 in
      let c3 = (install_trans start lh c2).0 in
      rw nz (
        Follows-append c c1 (write_log start lh c).1 _ (write_log-Follows start lh c) (
          Follows-append c1 c2 (write_head start lh c1).1 _ (write_head-Follows start lh c1) (
            Follows-append c2 c3 (install_trans start lh c2).1 _ (install_trans-Follows start lh c2)
              (write_head-Follows start _ c3))))
]

-- The same writes agree at a block where the disks agreed.
apply-congr : (ws : List Write) (c d : Blocks) (b : ℕ) → c b ≡ d b → apply c ws b ≡ apply d ws b
apply-congr [] c d b h = h
apply-congr ((q, x) ∷ ws) c d b h = apply-congr ws (store c q x) (store d q x) b (ground arith)

commit-header :
    (start : ℕ) (lh : Header) (c : Blocks)
    → lh.n ≤ log_size
    → ((commit start lh c).0.n ≡ 0) × ((commit start lh c).0.block ≡ lh.block)
unfolding commit
commit-header start lh c h = ground (arith, rounds_small lh.n h)

commit-empty : (start : ℕ) (lh : Header) (c : Blocks) → lh.n ≡ 0 → (commit start lh c).2 ≡ []
unfolding commit
commit-empty start lh c z = let t : (rounds lh.n == 0) ≡ true = ground arith in rw t

module _ (start size : ℕ) (lh : Header) (c d : Blocks) (ready : Ready start size lh c d) where
  -- The log is empty again on the disk.
  commit-cleared :
      let d' = apply d (commit start lh c).2 in
      (length (d' start) ≡ block_words) × (count_of start d' ≡ 0)
  commit-cleared = elim (ℕ_discrete lh.n 0) [
    | yes z ↦ rw (commit-empty start lh c z) (ready.disk_words, ready.empty)
    | no h ↦
        let (head, words, last) = commit-last start size lh c d ready h in
        rw last (clear_words head words)
  ]

  cache-Ready : Ready start size lh c c
  cache-Ready = record {
    bound = ready.bound;
    fits = ready.fits;
    entries = ready.entries;
    homes = ready.homes;
    header = refl;
    disk_words = ap length ready.header ∙ ready.disk_words;
    empty = rw ready.header ready.empty;
    clean = λ b home none. refl;
  }

  -- A commit leaves the log ready for the next transaction: its header is empty, and outside the log
  -- the cache is a copy of the disk.
  pub commit-Ready : let (lh', c', ws) = commit start lh c in Ready start size lh' c' (apply d ws)
  commit-Ready =
      let (n', block') = commit-header start lh c ready.bound in
      let follows = commit-apply start lh c in
      record {
        bound = omega arith;
        fits = omega (arith, ready.fits);
        entries = ap length block' ∙ ready.entries;
        homes = λ i h. absurd (omega arith);
        header =
            ap (λ (f : Blocks). f start) follows
            ∙ apply-congr (commit start lh c).2 c d start ready.header;
        disk_words = commit-cleared.0;
        empty = commit-cleared.1;
        clean = λ b home none.
            ap (λ (f : Blocks). f b) follows
            ∙ commit-durable start size lh c c cache-Ready b home
            ∙ sym (commit-durable start size lh c d ready b home);
      }
