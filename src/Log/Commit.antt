-- ===== src/Log/Commit.antt =====
-- kern/log.c: `commit` and `recover_from_log`, stopped by a crash at any disk write.
use openproninx.Base.{
  ℕ, zero, suc, ◌+◌, ◌≤◌, ◌<◌, ◌≡◌, refl, ap, ◌∙◌, sym, subst, true, false, [], ◌∷◌, ◌++◌, arith,
  ◌==◌, get_or, length, take,
}
use openproninx.Log.{Block, Blocks, store, apply, log_size, rounds}
use openproninx.Log.View.{replay, view, entry_of, is_home, SameLog, SameHome, replay-partial}
use openproninx.Log.Copy.{apply_take-append, apply-append, take_all, length-installs}
use openproninx.Log.Install.{installs, install_prefix}

-- The words of a block.
abbrev pub block_words : ℕ
block_words = 128

abbrev pub count_of : ℕ → Blocks → ℕ
count_of start d = get_or (d start) 0 0

-- A disk whose log header can be recovered from.
pub record IsLog (start size : ℕ) (d : Blocks) : Type 0 where
  pub bound : count_of start d ≤ log_size
  pub fits : count_of start d < size
  pub words : length (d start) ≡ block_words
  pub homes : (i : ℕ) → i < count_of start d → is_home start size (entry_of start d i) ≡ true

-- The disk `d'` stands for the blocks `v` outside the log, and can be recovered from.
pub record Holds (start size : ℕ) (v : Blocks) (d' : Blocks) : Type 0 where
  pub log : IsLog start size d'
  pub same : SameHome start size (view start d') v

module _ (start size : ℕ) where
  pub view_of_count :
      (d : Blocks) (n : ℕ) (b : ℕ)
      → count_of start d ≡ n
      → n ≤ log_size
      → view start d b ≡ replay start (entry_of start d) n d b
  unfolding view
  view_of_count d n b e h = let r : rounds n ≡ n = ground arith in rw (e, r)

  -- With an empty log the disk stands for itself.
  pub empty-Holds :
      (d : Blocks)
      → 0 < size
      → length (d start) ≡ block_words
      → count_of start d ≡ 0
      → Holds start size d d
  unfolding replay
  empty-Holds d hs hw e = record {
    log = record {
      bound = omega arith;
      fits = omega arith;
      words = hw;
      homes = λ i h. absurd (omega arith);
    };
    same = λ b home. view_of_count d 0 b e (omega arith);
  }

  pub Holds-congr :
      {v v' : Blocks} (d : Blocks)
      → SameHome start size v v'
      → Holds start size v d
      → Holds start size v' d
  Holds-congr d h w = record { log = w.log; same = λ b home. w.same b home ∙ h b home }

  module _ (d : Blocks) (is : IsLog start size d) (c : Blocks)
      (logged : (i : ℕ) → i < count_of start d → c (start + i + 1) ≡ d (start + i + 1)) (hb : Block)
      (hb_words : length hb ≡ block_words) (hb_empty : get_or hb 0 0 ≡ 0) where
    abbrev n : ℕ
    n = count_of start d

    abbrev e : ℕ → ℕ
    e = entry_of start d

    start_in_log : is_home start size start ≡ false
    start_in_log = let h = is.fits in ground arith

    -- A disk on which some of the log is installed stands for the same blocks.
    partly-Holds :
        (d' : Blocks) (t : ℕ)
        → t ≤ n
        → SameLog start size d' d
        → ((b : ℕ) → is_home start size b ≡ true → d' b ≡ replay start e t d b)
        → Holds start size (view start d) d'
    partly-Holds d' t ht same at =
        let hd : d' start ≡ d start = same start start_in_log in
        record {
          log = record {
            bound = rw hd is.bound;
            fits = rw hd is.fits;
            words = rw hd is.words;
            homes = rw hd is.homes;
          };
          same = λ b home.
              view_of_count d' n b (rw hd) is.bound
              ∙ ap (λ x. replay start (λ i. get_or x (i + 1) 0) n d' b) hd
              ∙ replay-partial start size e n t d d' b ht is.fits same (at b home)
              ∙ sym (view_of_count d n b refl is.bound);
        }

    installed :
        (j : ℕ) → Holds start size (view start d) (apply d (take j (installs start e c n 0)))
    unfolding replay
    installed j =
        let (t, ht, _, same, at) =
          install_prefix start size n is.fits e is.homes c d logged n 0 j d (omega arith)
            (λ b out. refl) (λ b home. refl) in
        partly-Holds _ t (omega arith) same at

    -- Once the header is cleared, the home blocks of the disk are what it stood for.
    cleared :
        let d' = store (apply d (installs start e c n 0)) start hb in
        SameHome start size d' (view start d) × Holds start size (view start d) d'
    unfolding replay
    cleared =
        let all : take n (installs start e c n 0) ≡ installs start e c n 0 =
          ap (λ k. take k (installs start e c n 0)) (sym (length-installs start e c n 0))
          ∙ take_all _ in
        let (t, _, hall, _, at) =
          install_prefix start size n is.fits e is.homes c d logged n 0 n d (omega arith)
            (λ b out. refl) (λ b home. refl) in
        let hit : (start == start) ≡ true = ground arith in
        let home_blocks : SameHome start size (store (apply d (installs start e c n 0)) start hb)
            (view start d) =
          λ b home.
            let miss : (start == b) ≡ false = ground (arith, start_in_log) in
            rw miss (
              ap (λ ws. apply d ws b) (sym all)
              ∙ at b home
              ∙ ap (λ m. replay start e m d b) {x = t} (hall (omega arith) ∙ omega arith)
              ∙ sym (view_of_count d n b refl is.bound)) in
        (
          home_blocks,
          Holds-congr _ home_blocks
              (empty-Holds _ (omega (arith, is.fits)) (rw hit hb_words) (rw hit hb_empty)),
        )

    -- However many of the writes of `install_trans` and of the cleared header reach the disk, it
    -- stands for the same blocks.
    pub install_and_clear :
        (j : ℕ)
        → Holds start size
            (view start d)
            (apply d (take j (installs start e c n 0 ++ (start, hb) ∷ [])))
    install_and_clear =
        apply_take-append (Holds start size (view start d)) (installs start e c n 0) _ d installed
          λ j. last j
      where
        last :
            (j : ℕ)
            → Holds start size
                (view start d)
                (apply (apply d (installs start e c n 0)) (take j ((start, hb) ∷ [])))
        last zero =
            subst (λ ws. Holds start size (view start d) (apply d ws))
              (take_all (installs start e c n 0)) (installed _)
        last (suc zero) = cleared.1
        last (suc (suc j)) = cleared.1

    pub install_and_clear_done :
        SameHome start size (apply d (installs start e c n 0 ++ (start, hb) ∷ [])) (view start d)
    install_and_clear_done =
        rw (apply-append (installs start e c n 0) ((start, hb) ∷ []) d) cleared.0
