-- ===== src/Log/Crash.antt =====
-- kern/log.c: a crash at any disk write of `commit` or of a recovery leaves either the old or the new
-- blocks, never a mixture.
use openproninx.Base.{
  ℕ, ◌+◌, ◌≤◌, ◌<◌, ◌≡◌, refl, ap, ap₂, ◌∙◌, false, List, [], ◌∷◌, ◌++◌, arith, get_or, set, length,
  take, length-set, get_or-set_self,
}
use openproninx.Log.{
  Block, Blocks, Write, Header, apply, log_size, rounds, copy_words, install_from, install_trans,
  read_head, write_head, recover_from_log,
}
use openproninx.Log.View.{view, entry_of, is_home, SameHome}
use openproninx.Log.Copy.{copy_words_lem}
use openproninx.Log.Install.{installs, install_from-lem}
use openproninx.Log.Commit.{
  block_words, count_of, IsLog, Holds, install_and_clear, install_and_clear_done,
}

pub rounds_small : (n : ℕ) → n ≤ log_size → rounds n ≡ n
rounds_small n h = ground arith

-- The entries in memory, once the header is read.
read_head-entry :
    (start : ℕ) (lh : Header) (c : Blocks) (i : ℕ)
    → count_of start c ≤ log_size
    → length lh.block ≡ log_size
    → i < count_of start c
    → get_or (read_head start lh c).block i 0 ≡ entry_of start c i
unfolding read_head
read_head-entry start lh c i hn hl hi =
    let z : i ≡ i + 0 = omega arith in
    ap (λ j. get_or (copy_words (rounds (count_of start c)) 0 (c start) 1 lh.block 0) j 0) z
    ∙ copy_words_lem (rounds (count_of start c)) 0 (c start) 1 lh.block 0 i (omega arith)
        (omega (arith, rounds_small (count_of start c) hn)) (omega arith)

install_trans_read :
    (start : ℕ) (lh : Header) (d : Blocks)
    → count_of start d ≤ log_size
    → install_trans start (read_head start lh d) d
      ≡ install_from start (read_head start lh d).block (count_of start d) 0 d
unfolding read_head install_trans
install_trans_read start lh d h =
    ap (λ m. install_from start (read_head start lh d).block m 0 d)
      (rounds_small (count_of start d) h)

-- Clearing the count of a header block.
pub clear_words :
    (b : Block)
    → length b ≡ block_words
    → (length (set b 0 0) ≡ block_words) × (get_or (set b 0 0) 0 0 ≡ 0)
clear_words b h = (length-set b 0 0 ∙ h, get_or-set_self b 0 0 0 (omega arith))

module _ (start size : ℕ) where
  -- The writes of `recover_from_log` over the cache of a machine that has just booted.
  recover-writes :
      (lh : Header) (d : Blocks)
      → IsLog start size d
      → length lh.block ≡ log_size
      → (recover_from_log start lh d).2
        ≡ installs start (entry_of start d) d (count_of start d) 0
          ++ (start, set (d start) 0 0) ∷ []
  unfolding recover_from_log install_trans write_head copy_words
  recover-writes lh d is hl =
      let run = install_from start (read_head start lh d).block (count_of start d) 0 d in
      let p =
        install_from-lem start size (count_of start d) is.fits (entry_of start d) is.homes
          (read_head start lh d).block (count_of start d) 0 d d
          (λ i h. read_head-entry start lh d i is.bound hl h) (omega arith) (λ b out. refl) in
      let t = install_trans_read start lh d is.bound in
      let fit = is.fits in
      let in_log : is_home start size start ≡ false = ground arith in
      ap₂ (λ (ws : List Write) (b : Block). ws ++ (start, set b 0 0) ∷ [])
        (ap (λ (o : Blocks × List Write). o.1) t ∙ p.0)
        (ap (λ (o : Blocks × List Write). o.0 start) t ∙ p.1 start in_log)

  -- However many of the writes of a recovery reach the disk before the next crash, the disk stands for
  -- the same blocks and can be recovered from again.
  pub recover-Holds :
      (lh : Header) (d : Blocks) (j : ℕ)
      → IsLog start size d
      → length lh.block ≡ log_size
      → Holds start size (view start d) (apply d (take j (recover_from_log start lh d).2))
  recover-Holds lh d j is hl =
      let w = clear_words (d start) is.words in
      rw (recover-writes lh d is hl)
        (install_and_clear start size d is d (λ i h. refl) (set (d start) 0 0) w.0 w.1 j)

  -- A recovery that is not cut short leaves on the disk the blocks that the disk stood for.
  pub recover-installs :
      (lh : Header) (d : Blocks)
      → IsLog start size d
      → length lh.block ≡ log_size
      → SameHome start size (apply d (recover_from_log start lh d).2) (view start d)
  recover-installs lh d is hl =
      let w = clear_words (d start) is.words in
      rw (recover-writes lh d is hl)
        (install_and_clear_done start size d is d (λ i h. refl) (set (d start) 0 0) w.0 w.1)
