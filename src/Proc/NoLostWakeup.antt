-- ===== src/Proc/NoLostWakeup.antt =====
-- kern/proc.c: `waitpid` against `exit` and the other stretches.
use openproninx.Base.{
  ℕ, ◌+◌, ◌<◌, ◌≡◌, ◌≢◌, inl, inr, refl, ap, ◌∙◌, sym, subst, Bool, true, false, Bool-cases, Option,
  none, some, arith, ◌==◌, ltb, if◌then◌else◌,
}
use openproninx.Proc.{
  State, is_unused, is_zombie, on_proc, Proc, is_parent, Ptable, nproc, update, wakeup1, reparent,
  parent_channel, is_child, Waited, waitpid, sleep, allocproc, find_unused, fork_copy, fork_publish,
  wakeup, yield, resume, signal_catch,
}
use openproninx.Proc.Family.{Quiet-refl, wakeup1-Quiet, wakeup1-awake, kill-Quiet}
use openproninx.Proc.Orphans.{IsFamily}
use openproninx.Proc.Exit.{exit-table}
use openproninx.Proc.Wait.{waitpid-cases}
use openproninx.Proc.Step.{
  Runs, Step, allocs, copies, publishes, exits, reaps, waits, kills, wakes, sleeps, yields, resumes,
  catches, takes, listens, Meanwhile, here, next,
}
use openproninx.Proc.Life.{signal_take-cases}
use openproninx.Proc.Reachable.{Step-IsFamily}
use openproninx.Proc.Wakeup.{
  IsWaiting, IsWaiting-Harmless, Harmless, Quiet-Harmless, update-Harmless, is_child-parent,
  reparent-IsWaiting, reparent-asleep, reparent-parent,
}

-- `exit` wakes the parent, so it does not sleep on.
exit-IsWaiting :
    (p target init cur : ℕ) (f : ℕ → Proc)
    → cur ≢ p
    → is_parent (f cur).parent cur ≡ false
    → IsWaiting p target f
    → let f2 = reparent nproc 0 cur init (wakeup1 (parent_channel (f cur).parent) f) in
      IsWaiting p target (update f2 cur (record (f2 cur) { state = State.zombie }))
exit-IsWaiting p target init cur f other own w = record { channel = channel_at; clean = clean_at }
  where
    f1 : ℕ → Proc
    f1 = wakeup1 (parent_channel (f cur).parent) f

    f2 : ℕ → Proc
    f2 = reparent nproc 0 cur init f1

    g : ℕ → Proc
    g = update f2 cur (record (f2 cur) { state = State.zombie })

    n : (cur == p) ≡ false
    n = ground arith

    w1 : IsWaiting p target f1
    w1 =
        IsWaiting-Harmless p target
          (Quiet-Harmless p target (λ j. wakeup1-Quiet (parent_channel (f cur).parent) f j)) w

    w2 : IsWaiting p target f2
    w2 = reparent-IsWaiting p target init cur nproc 0 f1 w1

    at_p : g p ≡ f2 p
    at_p = rw n refl

    parent : (f2 cur).parent ≡ (f cur).parent
    parent =
        let same = (wakeup1-Quiet (parent_channel (f cur).parent) f cur).mild.parent in
        reparent-parent p target init cur nproc 0 f1 (ap (λ o. is_parent o cur) same ∙ own) ∙ same

    channel_at : (g p).state ≡ State.sleeping → (g p).chan ≡ on_proc p
    channel_at s = ap Proc.chan at_p ∙ w2.channel (sym (ap Proc.state at_p) ∙ s)

    -- The process that exits is no child of `p`, since `p` sleeps.
    stranger : (f2 p).state ≡ State.sleeping → (f cur).parent ≢ some p
    stranger s child =
        let s1 = reparent-asleep p target init cur nproc 0 f1 s in
        let (s0, _) = (wakeup1-Quiet (parent_channel (f cur).parent) f p).asleep s1 in
        wakeup1-awake p f (w.channel s0)
          (ap (λ o. (wakeup1 (parent_channel o) f p).state) (sym child) ∙ s1)

    clean_at :
        (g p).state ≡ State.sleeping
        → (j : ℕ) → is_child (g j) p target ≡ true
        → is_zombie (g j).state ≡ false
    clean_at s j = elim (Bool-cases (cur == j)) [
      | inl e ↦ rw e (λ c. absurd (
          stranger (sym (ap Proc.state at_p) ∙ s)
            (sym parent ∙ is_child-parent (record (f2 cur) { state = State.zombie }) p target c)))
      | inr e ↦ rw e (λ c. w2.clean (sym (ap Proc.state at_p) ∙ s) j c)
    ]

module _ (p target : ℕ) where
  alloc-Harmless :
      (stack : Bool) (t : Ptable) → Harmless p target t.procs (allocproc stack t).1.procs
  unfolding allocproc
  alloc-Harmless stack t = go (find_unused nproc t.procs 0)
    where
      new : ℕ → Proc
      new i = record (t.procs i) {
        state = if stack then State.embryo else State.unused;
        pid = t.next_pid;
        sig_pending = 0;
        sig_catch = 0;
      }

      young : (b : Bool) → (if b then State.embryo else State.unused) ≢ State.sleeping
      young true s = cc s
      young false s = cc s

      undead : (b : Bool) → is_zombie (if b then State.embryo else State.unused) ≡ false
      undead true = refl
      undead false = refl

      go :
          (o : Option ℕ)
          → Harmless p target t.procs
              (elim o as (λ _. Option ℕ × Ptable) [
                | none ↦ (none, t)
                | some i ↦ (
                  if stack then some i else none,
                  record t { procs = update t.procs i (new i); next_pid = t.next_pid + 1 },
                )
              ]).1.procs
      go none = Quiet-Harmless p target (λ j. Quiet-refl (t.procs j))
      go (some i) = update-Harmless p target t.procs i (new i) (λ _. young stack) (undead stack)

  -- A process that steps changes its own entry alone, and is not `p`.
  own-Harmless :
      (who : ℕ) (t u : Ptable) (q : Proc)
      → who ≢ p
      → is_zombie q.state ≡ false
      → u ≡ record t { procs = update t.procs who q }
      → Harmless p target t.procs u.procs
  own-Harmless who t u q other z e =
      subst (λ v. Harmless p target t.procs (Ptable.procs v)) (sym e)
        (update-Harmless p target t.procs who q (λ same. absurd (other same)) z)

  entry-Harmless :
      (i : ℕ) (t u : Ptable) (q : Proc)
      → q.state ≢ State.sleeping
      → is_zombie q.state ≡ false
      → u ≡ record t { procs = update t.procs i q }
      → Harmless p target t.procs u.procs
  entry-Harmless i t u q awake z e =
      subst (λ v. Harmless p target t.procs (Ptable.procs v)) (sym e)
        (update-Harmless p target t.procs i q (λ _. awake) z)

  -- Every stretch of another process leaves `p` awake or without a zombie child.
  pub Step-IsWaiting :
      {t u : Ptable} {who : ℕ}
      → Step t u who
      → who ≢ p
      → IsFamily t.initproc t.procs
      → IsWaiting p target t.procs
      → IsWaiting p target u.procs
  unfolding wakeup yield resume signal_catch fork_copy fork_publish sleep
  Step-IsWaiting {t} {u} (allocs stack r e) other h w =
      subst (λ v. IsWaiting p target (Ptable.procs v)) (sym e)
        (IsWaiting-Harmless p target (alloc-Harmless stack t) w)
  Step-IsWaiting {t} {u} {who} (copies true np r s o e) other h w =
      IsWaiting-Harmless p target (entry-Harmless np t u _ (λ d. cc (sym s ∙ d)) (ap is_zombie s) e)
        w
  Step-IsWaiting {t} {u} {who} (copies false np r s o e) other h w =
      IsWaiting-Harmless p target (entry-Harmless np t u _ (λ d. cc d) refl e) w
  Step-IsWaiting {t} {u} {who} (publishes np r s o e) other h w =
      IsWaiting-Harmless p target (entry-Harmless np t u _ (λ d. cc d) refl e) w
  Step-IsWaiting {t} {u} {who} (exits r e) other h w =
      subst (λ v. IsWaiting p target (Ptable.procs v)) (sym (exit-table who t u e).1)
        (exit-IsWaiting p target t.initproc who t.procs other (own (t.procs who).parent refl) w)
    where
      own : (o : Option ℕ) → (t.procs who).parent ≡ o → is_parent o who ≡ false
      own none _ = refl
      own (some q) s = let n : q ≢ who = (h.known who q s).1 in ground arith
  Step-IsWaiting {t} {u} {who} (reaps tgt pid nohang r e) other h w =
      let x = (waitpid-cases who tgt nohang t).0 pid u e in
      IsWaiting-Harmless p target (entry-Harmless x.child t u _ (λ d. cc d) refl x.now) w
  Step-IsWaiting {t} {u} {who} (waits tgt nohang r e) other h w =
      IsWaiting-Harmless p target
        (own-Harmless who t u _ other refl ((waitpid-cases who tgt nohang t).1 u e).0) w
  Step-IsWaiting {t} {u} {who} (kills pid sig r e) other h w =
      subst (λ v. IsWaiting p target (Ptable.procs v)) (sym e)
        (IsWaiting-Harmless p target (Quiet-Harmless p target (λ j. kill-Quiet who pid sig t j)) w)
  Step-IsWaiting {t} {u} (wakes c e) other h w =
      subst (λ v. IsWaiting p target (Ptable.procs v)) (sym e)
        (IsWaiting-Harmless p target (Quiet-Harmless p target (λ j. wakeup1-Quiet c t.procs j)) w)
  Step-IsWaiting {t} {u} {who} (sleeps a r e) other h w =
      IsWaiting-Harmless p target (own-Harmless who t u _ other refl e) w
  Step-IsWaiting {t} {u} {who} (yields r e) other h w =
      IsWaiting-Harmless p target (own-Harmless who t u _ other refl e) w
  Step-IsWaiting {t} {u} {who} (resumes r e) other h w =
      IsWaiting-Harmless p target (own-Harmless who t u _ other refl e) w
  Step-IsWaiting {t} {u} {who} (catches mask r e) other h w =
      IsWaiting-Harmless p target (own-Harmless who t u _ other (ap is_zombie r) e) w
  Step-IsWaiting {t} {u} {who} (takes sig block r e) other h w =
      IsWaiting-Harmless p target
        (own-Harmless who t u _ other (ap is_zombie r) ((signal_take-cases who block t).0 sig u e))
        w
  Step-IsWaiting {t} {u} {who} (listens block r e) other h w =
      IsWaiting-Harmless p target
        (own-Harmless who t u _ other refl ((signal_take-cases who block t).1 u e)) w

  Meanwhile-IsWaiting :
      (s t : Ptable)
      → Meanwhile p s t
      → IsFamily s.initproc s.procs
      → IsWaiting p target s.procs
      → IsFamily t.initproc t.procs × IsWaiting p target t.procs
  Meanwhile-IsWaiting s t here h w = (h, w)
  Meanwhile-IsWaiting s t (next {t = t1} who r other x) h w =
      let (h1, w1) = Meanwhile-IsWaiting s t1 r h w in
      let (h2, same) = Step-IsFamily x h1 in
      (subst (λ k. IsFamily k t.procs) (sym same) h2, Step-IsWaiting x other h1 w1)

free-undead : (s : State) → is_unused s ≡ true → is_zombie s ≡ false
free-undead State.unused h = refl
free-undead State.embryo h = refl
free-undead State.sleeping h = refl
free-undead State.runnable h = refl
free-undead State.running h = refl
free-undead State.zombie h = absurd (cc h)

-- `waitpid` falls asleep only where there is nothing to reap.
waitpid-IsWaiting :
    (p target : ℕ) (nohang : Bool) (s t : Ptable)
    → IsFamily s.initproc s.procs
    → waitpid p target nohang s ≡ Waited.asleep t
    → IsWaiting p target t.procs
unfolding sleep
waitpid-IsWaiting p target nohang s t h e =
    let (same, none_dead) = (waitpid-cases p target nohang s).1 t e in
    subst (λ v. IsWaiting p target (Ptable.procs v)) (sym same)
      (record {
        channel = λ _. let self : (p == p) ≡ true = ground arith in rw self refl;
        clean = λ _ j. clean_at none_dead j;
      })
  where
    g : ℕ → Proc
    g = update s.procs p (record (s.procs p) { state = State.sleeping; chan = on_proc p })

    clean_at :
        ((j : ℕ)
          → j < nproc
          → is_child (s.procs j) p target ≡ true
          → is_zombie (s.procs j).state ≡ false)
        → (j : ℕ) → is_child (g j) p target ≡ true
        → is_zombie (g j).state ≡ false
    clean_at none_dead j = elim (Bool-cases (p == j)) [
      | inl n ↦ rw n (λ _. refl)
      | inr n ↦ rw n (λ c. elim (Bool-cases (ltb j nproc)) [
        | inl lt ↦ none_dead j (ground arith) c
        | inr le ↦ free-undead (s.procs j).state (h.within j (ground arith))
      ])
    ]

-- When `waitpid` of a running `p` falls asleep in a table where the processes form a family, then after
-- any stretches of other processes, while `p` is still asleep it sleeps on itself and no child `j` that
-- it looks for is a zombie: an `exit` that makes one, or that gives one to `initproc`, wakes its parent.
pub waitpid-misses_none :
    (p target : ℕ) (nohang : Bool) (s t u : Ptable) (j : ℕ)
    → IsFamily s.initproc s.procs
    → Runs s p
    → waitpid p target nohang s ≡ Waited.asleep t
    → Meanwhile p t u
    → (u.procs p).state ≡ State.sleeping
    → is_child (u.procs j) p target ≡ true
    → ((u.procs p).chan ≡ on_proc p) × (is_zombie (u.procs j).state ≡ false)
waitpid-misses_none p target nohang s t u j h r e m asleep child =
    let (k, same) = Step-IsFamily (waits target nohang r e) h in
    let (_, w) =
      Meanwhile-IsWaiting p target t u m (subst (λ i. IsFamily i t.procs) (sym same) k)
        (waitpid-IsWaiting p target nohang s t h e) in
    (w.channel asleep, w.clean asleep j child)
