-- ===== src/Log/Boot.antt =====
-- kern/log.c over crashes and boots.
use openproninx.Base.{
  ℕ, zero, suc, ◌≡◌, ◌⊎◌, inl, inr, refl, ◌∙◌, sym, subst, true, List, [], ◌∷◌, arith, ◌==◌, take,
  replicate, ℕ_discrete,
}
use openproninx.Log.{Blocks, Write, Header, apply, log_size, rounds, commit, recover_from_log}
use openproninx.Log.View.{SameHome}
use openproninx.Log.Commit.{Holds, empty-Holds, Holds-congr}
use openproninx.Log.Crash.{recover-Holds, recover-installs}
use openproninx.Log.Atomic.{Ready, commit-OldOrNew, commit-new}

-- `_log.lh` when the kernel starts.
abbrev pub blank : Header
blank = record { n = 0; block = replicate log_size 0 }

-- Boots whose recoveries are each cut short, after so many disk writes.
unfoldable pub failed_boots : ℕ → List ℕ → Blocks → Blocks
failed_boots start [] d = d
failed_boots start (j ∷ js) d =
    failed_boots start js (apply d (take j (recover_from_log start blank d).2))

-- The disk after a boot whose recovery is not cut short.
unfoldable pub boot : ℕ → Blocks → Blocks
boot start d = apply d (recover_from_log start blank d).2

module _ (start size : ℕ) where
  failed_boots-Holds :
      (js : List ℕ) {v d : Blocks}
      → Holds start size v d
      → Holds start size v (failed_boots start js d)
  unfolding failed_boots
  failed_boots-Holds [] h = h
  failed_boots-Holds (j ∷ js) {v} {d} h =
      failed_boots-Holds js
        (Holds-congr start size _ h.same (recover-Holds start size blank d j h.log refl))

  boot-SameHome : {v d : Blocks} → Holds start size v d → SameHome start size (boot start d) v
  unfolding boot
  boot-SameHome {v} {d} h b home =
      recover-installs start size blank d h.log refl b home ∙ h.same b home

  commit-none :
      (lh : Header) (c d : Blocks)
      → Ready start size lh c d
      → lh.n ≡ 0
      → ((commit start lh c).2 ≡ []) × SameHome start size d c × Holds start size d d
  unfolding commit
  commit-none lh c d ready z =
      let t : (rounds lh.n == 0) ≡ true = ground arith in
      (
        rw t,
        (λ b home. sym (ready.clean b home (λ i h. absurd (omega arith)))),
        empty-Holds start size d (omega (arith, ready.fits)) ready.disk_words ready.empty,
      )

  commit_crash :
      (lh : Header) (c d : Blocks) (j : ℕ)
      → Ready start size lh c d
      → Holds start size d (apply d (take j (commit start lh c).2))
        ⊎ Holds start size c (apply d (take j (commit start lh c).2))
  commit_crash lh c d j ready = elim (ℕ_discrete lh.n 0) [
    | no h ↦ commit-OldOrNew start size lh c d ready h j
    | yes z ↦
        let (w, same, h) = commit-none lh c d ready z in
        inl (rw w (subst (λ ws. Holds start size d (apply d ws)) (take_none j) h))
  ]
    where
      take_none : (j : ℕ) → ◌≡◌ {A = List Write} [] (take j [])
      take_none zero = refl
      take_none (suc j) = refl

  -- Wherever a crash cuts the disk writes of a commit, and however many boots are cut short in their
  -- recovery after it, the next boot leaves outside the log either all the blocks as they were before
  -- the transaction or all as the transaction made them.
  pub commit_crash-boot :
      (lh : Header) (c d : Blocks) (j : ℕ) (js : List ℕ)
      → Ready start size lh c d
      → let d' = boot start (failed_boots start js (apply d (take j (commit start lh c).2))) in
        SameHome start size d' d ⊎ SameHome start size d' c
  commit_crash-boot lh c d j js ready = elim (commit_crash lh c d j ready) [
    | inl h ↦ inl (boot-SameHome (failed_boots-Holds js h))
    | inr h ↦ inr (boot-SameHome (failed_boots-Holds js h))
  ]

  -- A commit that is not cut short leaves on the disk, outside the log, the blocks of the cache.
  pub commit-durable :
      (lh : Header) (c d : Blocks)
      → Ready start size lh c d
      → SameHome start size (apply d (commit start lh c).2) c
  commit-durable lh c d ready = elim (ℕ_discrete lh.n 0) [
    | no h ↦ commit-new start size lh c d ready h
    | yes z ↦ let (w, same, h) = commit-none lh c d ready z in rw w same
  ]
