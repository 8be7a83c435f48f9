-- ===== src/Proc/Examples.antt =====
-- kern/proc.c: a family of three processes.
use openproninx.Base.{
  ℕ, zero, suc, ◌≤◌, ◌≡◌, ◌≢◌, ◌⊎◌, inl, inr, refl, subst, true, false, ◌||◌, Option, none, some,
  arith,
}
use openproninx.Proc.{
  State, is_unused, is_sleeping, is_zombie, Channel, nothing, on_proc, Proc, Ptable, nproc, update,
  wakeup1, reparent, exit, any_child, waitpid, scan_children, sleep, yield,
}
use openproninx.Proc.Family.{is_live}
use openproninx.Proc.Orphans.{IsFamily}
use openproninx.Proc.Step.{exits, yields, Reach, Meanwhile}
use openproninx.Proc.Reachable.{Reach-adopted}
use openproninx.Proc.NoLostWakeup.{waitpid-misses_none}

abbrev process : State → ℕ → Option ℕ → Channel → Proc
process s n o c = record {
  state = s;
  pid = n;
  parent = o;
  chan = c;
  killed = false;
  sig_pending = 0;
  sig_catch = 0;
}

-- `initproc`, a shell, and a program that the shell started.
abbrev entries : ℕ → Proc
entries zero = process State.sleeping 1 none (on_proc 0)
entries (suc zero) = process State.running 2 (some 0) nothing
entries (suc (suc zero)) = process State.running 3 (some 1) nothing
entries (suc (suc (suc i))) = process State.unused 0 none nothing

abbrev table : Ptable
table = record { procs = entries; next_pid = 4; initproc = 0 }

entries-IsFamily : IsFamily 0 entries
entries-IsFamily = record {
  init_live = refl;
  init_root = refl;
  known = known_at;
  free = free_at;
  adopted = adopted_at;
  within = within_at;
}
  where
    known_at :
        (i q : ℕ) → (entries i).parent ≡ some q → (is_live (entries q).state ≡ true) × (q ≢ i)
    known_at zero q e = absurd (cc e)
    known_at (suc zero) q e =
        let same : 0 ≡ q = ground arith in
        subst (λ n. (is_live (entries n).state ≡ true) × (n ≢ 1)) same (refl, λ d. cc d)
    known_at (suc (suc zero)) q e =
        let same : 1 ≡ q = ground arith in
        subst (λ n. (is_live (entries n).state ≡ true) × (n ≢ 2)) same (refl, λ d. cc d)
    known_at (suc (suc (suc i))) q e = absurd (cc e)

    free_at : (i : ℕ) → is_unused (entries i).state ≡ true → (entries i).parent ≡ none
    free_at zero e = refl
    free_at (suc zero) e = absurd (cc e)
    free_at (suc (suc zero)) e = absurd (cc e)
    free_at (suc (suc (suc i))) e = refl

    adopted_at :
        (i : ℕ)
        → is_live (entries i).state || is_zombie (entries i).state ≡ true
        → (i ≡ 0) ⊎ ((q : ℕ) × ((entries i).parent ≡ some q))
    adopted_at zero e = inl refl
    adopted_at (suc zero) e = inr (0, refl)
    adopted_at (suc (suc zero)) e = inr (1, refl)
    adopted_at (suc (suc (suc i))) e = absurd (cc e)

    within_at : (i : ℕ) → nproc ≤ i → is_unused (entries i).state ≡ true
    within_at zero le = absurd (omega arith)
    within_at (suc zero) le = absurd (omega arith)
    within_at (suc (suc zero)) le = absurd (omega arith)
    within_at (suc (suc (suc i))) le = refl

-- The shell exits: the program goes to `initproc`.
abbrev after_exit : Ptable
after_exit =
    let f2 = reparent nproc 0 1 0 (wakeup1 (on_proc 0) entries) in
    record table { procs = update f2 1 (record (f2 1) { state = State.zombie }) }

shell_exits : Reach table after_exit
unfolding exit
shell_exits = Reach.next 1 Reach.here (exits refl refl)

program_moves : (after_exit.procs 2).parent ≡ some 0
unfolding reparent wakeup1
program_moves = refl

init_awake : (after_exit.procs 0).state ≡ State.runnable
unfolding reparent wakeup1
init_awake = refl

Reach-adopted_example :
    (after_exit.initproc ≡ table.initproc)
    × (is_live (after_exit.procs 0).state ≡ true)
    × ((q : ℕ) × (((after_exit.procs 2).parent ≡ some q)
          × (is_live (after_exit.procs q).state ≡ true)
          × (q ≢ 2)))
unfolding reparent wakeup1
Reach-adopted_example =
    Reach-adopted table after_exit 2 entries-IsFamily shell_exits refl (λ d. cc d)

-- The shell waits for the program, which yields.
abbrev waiting : Ptable
waiting = sleep 1 (on_proc 1) table

waitpid-misses_none_example :
    (((yield 2 waiting).procs 1).chan ≡ on_proc 1)
    × (is_zombie ((yield 2 waiting).procs 2).state ≡ false)
unfolding waitpid scan_children sleep yield
waitpid-misses_none_example =
    waitpid-misses_none 1 any_child false table waiting (yield 2 waiting) 2 entries-IsFamily refl
      refl (Meanwhile.next 2 Meanwhile.here (λ d. cc d) (yields refl refl)) refl refl

-- The program exits while the shell waits, and the shell is woken.
shell_woken :
    (elim (exit 2 waiting) [ none ↦ false | some u ↦ is_sleeping (u.procs 1).state ]) ≡ false
unfolding exit reparent wakeup1 sleep
shell_woken = refl

abbrev dead : Proc
dead = process State.zombie 3 (some 1) nothing

abbrev buried : Ptable
buried = record table { procs = update entries 2 dead }
