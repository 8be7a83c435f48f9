-- ===== src/Proc/Step.antt =====
-- kern/proc.c: the stretches that processes run in any order.
use openproninx.Base.{ℕ, ◌≡◌, ◌≢◌, Bool, none, some}
use openproninx.Proc.{
  State, Ptable, Channel, on_address, allocproc, fork_copy, fork_publish, exit, Waited, waitpid,
  kill, wakeup, sleep, yield, resume, signal_catch, Taken, signal_take,
}

abbrev pub Runs : Ptable → ℕ → Type 0
Runs t who = (t.procs who).state ≡ State.running

-- One stretch, which the process `who` runs under the lock of the table. A wakeup may come from an
-- interrupt.
pub data Step (t u : Ptable) (who : ℕ) : Type 0 where
  allocs : (stack : Bool) → Runs t who → u ≡ (allocproc stack t).1 → Step t u who
  copies :
      (pages : Bool) (np : ℕ)
      → Runs t who
      → (t.procs np).state ≡ State.embryo
      → (t.procs np).parent ≡ none
      → u ≡ fork_copy pages who np t
      → Step t u who
  publishes :
      (np : ℕ)
      → Runs t who
      → (t.procs np).state ≡ State.embryo
      → (t.procs np).parent ≡ some who
      → u ≡ fork_publish np t
      → Step t u who
  exits : Runs t who → exit who t ≡ some u → Step t u who
  reaps :
      (target pid : ℕ) (nohang : Bool)
      → Runs t who
      → waitpid who target nohang t ≡ Waited.reaped pid u
      → Step t u who
  waits :
      (target : ℕ) (nohang : Bool)
      → Runs t who
      → waitpid who target nohang t ≡ Waited.asleep u
      → Step t u who
  kills : (pid sig : ℕ) → Runs t who → u ≡ (kill who pid sig t).1 → Step t u who
  wakes : (c : Channel) → u ≡ wakeup c t → Step t u who
  sleeps : (a : ℕ) → Runs t who → u ≡ sleep who (on_address a) t → Step t u who
  yields : Runs t who → u ≡ yield who t → Step t u who
  resumes : (t.procs who).state ≡ State.runnable → u ≡ resume who t → Step t u who
  catches : (mask : ℕ) → Runs t who → u ≡ signal_catch who mask t → Step t u who
  takes :
      (sig : ℕ) (block : Bool)
      → Runs t who
      → signal_take who block t ≡ Taken.took sig u
      → Step t u who
  listens : (block : Bool) → Runs t who → signal_take who block t ≡ Taken.asleep u → Step t u who

-- Any number of stretches.
pub data Reach (s : Ptable) : Ptable → Type 0 where
  here : Reach s s
  next : {t u : Ptable} (who : ℕ) → Reach s t → Step t u who → Reach s u

-- Any number of stretches of others than `p`, while `p` is not resumed.
pub data Meanwhile (p : ℕ) (s : Ptable) : Ptable → Type 0 where
  here : Meanwhile p s s
  next : {t u : Ptable} (who : ℕ) → Meanwhile p s t → who ≢ p → Step t u who → Meanwhile p s u
