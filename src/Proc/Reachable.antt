-- ===== src/Proc/Reachable.antt =====
-- kern/proc.c: the family of processes in every state that stretches reach.
use openproninx.Base.{
  ℕ, ◌≡◌, ◌≢◌, inl, inr, refl, ap, ◌∙◌, sym, subst, Bool, true, false, ◌||◌, Bool-cases, ◌==◌, leb,
  Option, none, some,
}
use openproninx.Proc.{
  is_zombie, Proc, Ptable, nproc, update, sleep, kill, any_child, nsig, find_pid, raise_on,
  fork_copy, fork_publish, wakeup, yield, resume, signal_catch,
}
use openproninx.Proc.Family.{is_live, wakeup1-Quiet, kill-Quiet}
use openproninx.Proc.Orphans.{IsFamily, IsFamily-Mild}
use openproninx.Proc.Exit.{exit-IsFamily, exit-table}
use openproninx.Proc.Wait.{waitpid-cases}
use openproninx.Proc.Step.{
  Step, allocs, copies, publishes, exits, reaps, waits, kills, wakes, sleeps, yields, resumes,
  catches, takes, listens, Reach, here, next,
}
use openproninx.Proc.Life.{
  live-Mild, update-Mild, signal_take-cases, SameFamily, allocproc-IsFamily, fork_copy-IsFamily,
  fork_publish-IsFamily, reap-IsFamily,
}

-- The family before and after.
abbrev pub Kept : Ptable → Ptable → Type 0
Kept t u = IsFamily t.initproc u.procs × (u.initproc ≡ t.initproc)

carried_by : (t u v : Ptable) → u ≡ v → Kept t v → Kept t u
carried_by t u v e k = subst (λ w. Kept t w) (sym e) k

carried_as : (t u v : Ptable) → u ≡ v → SameFamily t v → IsFamily t.initproc t.procs → Kept t u
carried_as t u v e m h = carried_by t u v e (IsFamily-Mild t.initproc m.1 h, m.0)

kill-initproc : (cur pid sig : ℕ) (t : Ptable) → (kill cur pid sig t).1.initproc ≡ t.initproc
unfolding kill
kill-initproc cur pid sig t = elim (Bool-cases (leb nsig sig)) [
  | inl e ↦ rw e refl
  | inr e ↦ rw e (elim (Bool-cases (pid == any_child)) [
    | inl q ↦ rw q refl
    | inr q ↦ rw q (one (find_pid nproc t.procs 0 pid))
  ])
]
  where
    one :
        (o : Option ℕ)
        → (elim o as (λ _. Bool × Ptable) [
          | none ↦ (false, t)
          | some i ↦ (true, record t { procs = update t.procs i (raise_on (t.procs i) sig) })
        ]).1.initproc
          ≡ t.initproc
    one none = refl
    one (some i) = refl

-- Each stretch that reads or changes only how far a process has come.
own-SameFamily :
    (who : ℕ) (t : Ptable) (p : Proc)
    → is_live (t.procs who).state ≡ true
    → is_live p.state ≡ true
    → p.parent ≡ (t.procs who).parent
    → p.pid ≡ (t.procs who).pid
    → SameFamily t (record t { procs = update t.procs who p })
own-SameFamily who t p l l' parent pid =
    (refl, λ j. update-Mild t.procs who p j (live-Mild (t.procs who) p l l' parent pid))

-- `exit`, `fork`, `waitpid` and the others keep the family.
pub Step-IsFamily : {t u : Ptable} {who : ℕ} → Step t u who → IsFamily t.initproc t.procs → Kept t u
unfolding wakeup yield resume signal_catch fork_copy fork_publish sleep
Step-IsFamily {t} {u} (allocs stack r e) h = carried_by t u _ e (allocproc-IsFamily stack t h)
Step-IsFamily {t} {u} {who} (copies pages np r s o e) h =
    carried_by t u _ e (fork_copy-IsFamily pages who np t h r s o, refl)
Step-IsFamily {t} {u} {who} (publishes np r s o e) h =
    carried_by t u _ e (fork_publish-IsFamily who np t h s o, refl)
Step-IsFamily {t} {u} {who} (exits r e) h =
    let same = ap Ptable.initproc (exit-table who t u e).1 in
    (subst (λ k. IsFamily k u.procs) same (exit-IsFamily who t u h r e), same)
Step-IsFamily {t} {u} {who} (reaps target pid nohang r e) h =
    let x = (waitpid-cases who target nohang t).0 pid u e in
    carried_by t u _ x.now (reap-IsFamily x.child t h x.in_table x.dead, refl)
Step-IsFamily {t} {u} {who} (waits target nohang r e) h =
    carried_as t u _ ((waitpid-cases who target nohang t).1 u e).0
      (own-SameFamily who t _ (ap is_live r) refl refl refl) h
Step-IsFamily {t} {u} {who} (kills pid sig r e) h =
    carried_as t u _ e (kill-initproc who pid sig t, λ j. (kill-Quiet who pid sig t j).mild) h
Step-IsFamily {t} {u} (wakes c e) h =
    carried_as t u _ e (refl, λ j. (wakeup1-Quiet c t.procs j).mild) h
Step-IsFamily {t} {u} {who} (sleeps a r e) h =
    carried_as t u _ e (own-SameFamily who t _ (ap is_live r) refl refl refl) h
Step-IsFamily {t} {u} {who} (yields r e) h =
    carried_as t u _ e (own-SameFamily who t _ (ap is_live r) refl refl refl) h
Step-IsFamily {t} {u} {who} (resumes r e) h =
    carried_as t u _ e (own-SameFamily who t _ (ap is_live r) refl refl refl) h
Step-IsFamily {t} {u} {who} (catches mask r e) h =
    carried_as t u _ e (own-SameFamily who t _ (ap is_live r) (ap is_live r) refl refl) h
Step-IsFamily {t} {u} {who} (takes sig block r e) h =
    carried_as t u _ ((signal_take-cases who block t).0 sig u e)
      (own-SameFamily who t _ (ap is_live r) (ap is_live r) refl refl) h
Step-IsFamily {t} {u} {who} (listens block r e) h =
    carried_as t u _ ((signal_take-cases who block t).1 u e)
      (own-SameFamily who t _ (ap is_live r) refl refl refl) h

pub Reach-IsFamily :
    (s t : Ptable)
    → Reach s t
    → IsFamily s.initproc s.procs
    → IsFamily t.initproc t.procs × (t.initproc ≡ s.initproc)
Reach-IsFamily s t here h = (h, refl)
Reach-IsFamily s t (next {t = t1} who r x) h =
    let (h1, same1) = Reach-IsFamily s t1 r h in
    let (h2, same2) = Step-IsFamily x h1 in
    (subst (λ k. IsFamily k t.procs) (sym same2) h2, same2 ∙ same1)

-- In every state that stretches of kern/proc.c reach from one where the processes form a family,
-- `initproc` is the same process and lives, and each other process that sleeps, is runnable, runs or
-- is a zombie has a parent that sleeps, is runnable or runs, and is not itself.
pub Reach-adopted :
    (s t : Ptable) (i : ℕ)
    → IsFamily s.initproc s.procs
    → Reach s t
    → is_live (t.procs i).state || is_zombie (t.procs i).state ≡ true
    → i ≢ t.initproc
    → (t.initproc ≡ s.initproc)
      × (is_live (t.procs t.initproc).state ≡ true)
      × ((q : ℕ) × (((t.procs i).parent ≡ some q) × (is_live (t.procs q).state ≡ true) × (q ≢ i)))
Reach-adopted s t i h r e other =
    let (k, same) = Reach-IsFamily s t r h in
    (
      same,
      k.init_live,
      elim (k.adopted i e) [
        | inl d ↦ absurd (other d)
        | inr (q, p) ↦ (q, (p, (k.known i q p).0, (k.known i q p).1))
      ],
    )
