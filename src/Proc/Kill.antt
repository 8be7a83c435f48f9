-- ===== src/Proc/Kill.antt =====
-- kern/proc.c: whom `kill` reaches.
use openproninx.Base.{
  ℕ, zero, suc, ◌+◌, ◌≤◌, ◌<◌, ◌≡◌, ◌≢◌, ◌⊎◌, inl, inr, refl, ap, ◌∙◌, subst, Bool, true, false,
  ◌||◌, not, Bool-cases, Option, none, some, arith, ◌==◌, leb, if◌then◌else◌,
}
use openproninx.Proc.{
  State, is_unused, is_sleeping, sigkill, Proc, Ptable, nproc, nsig, update, any_child, raise_on,
  kill_all, find_pid, kill,
}

-- Skipped by `kill(-1, sig)`.
abbrev pub spared : (ℕ → Proc) → ℕ → ℕ → Bool
spared f cur i = is_unused (f i).state || (leb (f i).pid 1 || i == cur)

-- One round of the loop.
round : ℕ → ℕ → ℕ → (ℕ → Proc) → ℕ → Proc
round i cur sig f = if spared f cur i then f else update f i (raise_on (f i) sig)

round_self :
    (i cur sig : ℕ) (f : ℕ → Proc)
    → round i cur sig f i ≡ (if spared f cur i then f i else raise_on (f i) sig)
unfolding round
round_self i cur sig f = elim (Bool-cases (spared f cur i)) [
  | inl e ↦ rw e refl
  | inr e ↦ let self : (i == i) ≡ true = ground arith in rw (e, self) refl
]

round-other : (i cur sig : ℕ) (f : ℕ → Proc) (j : ℕ) → (i == j) ≡ false → round i cur sig f j ≡ f j
unfolding round
round-other i cur sig f j n = elim (Bool-cases (spared f cur i)) [
  | inl e ↦ rw e refl
  | inr e ↦ rw (e, n) refl
]

kill_all-before :
    (k i cur sig : ℕ) (f : ℕ → Proc) (j : ℕ) → j < i → (kill_all k i cur sig f).1 j ≡ f j
unfolding kill_all round
kill_all-before zero i cur sig f j lt = refl
kill_all-before (suc k) i cur sig f j lt =
    kill_all-before k (i + 1) cur sig (round i cur sig f) j (omega arith)
    ∙ round-other i cur sig f j (ground arith)

kill_all_lem :
    (k i cur sig : ℕ) (f : ℕ → Proc) (j : ℕ)
    → i ≤ j
    → j < i + k
    → (kill_all k i cur sig f).1 j ≡ (if spared f cur j then f j else raise_on (f j) sig)
unfolding kill_all round
kill_all_lem zero i cur sig f j lo hi = absurd (omega arith)
kill_all_lem (suc k) i cur sig f j lo hi = elim (Bool-cases (i == j)) [
  | inl e ↦
      let same : i ≡ j = ground arith in
      kill_all-before k (i + 1) cur sig (round i cur sig f) j (omega arith)
      ∙ subst (λ n. round i cur sig f n ≡ (if spared f cur n then f n else raise_on (f n) sig)) same
          (round_self i cur sig f)
  | inr e ↦
      let kept = round-other i cur sig f j e in
      kill_all_lem k (i + 1) cur sig (round i cur sig f) j (ground arith) (omega arith)
      ∙ ap
          (λ (p : Proc).
            if is_unused p.state || (leb p.pid 1 || j == cur) then p else raise_on p sig)
          kept
]

-- `kill(-1, sig)` of a signal below 32 raises the signal on each process of the table but the caller and those with a
-- pid up to 1, whose entries stay.
pub kill-broadcast :
    (cur sig : ℕ) (t : Ptable) (j : ℕ)
    → sig < nsig
    → j < nproc
    → (kill cur any_child sig t).1.procs j
      ≡ (if spared t.procs cur j then t.procs j else raise_on (t.procs j) sig)
unfolding kill
kill-broadcast cur sig t j known lt =
    let valid : leb nsig sig ≡ false = ground arith in
    rw valid (kill_all_lem nproc 0 cur sig t.procs j (omega arith) (omega arith))

-- The search of `kill` for one pid.
find_pid-some :
    (k : ℕ) (f : ℕ → Proc) (i pid : ℕ) {j : ℕ}
    → find_pid k f i pid ≡ some j
    → (is_unused (f j).state ≡ false) × ((f j).pid ≡ pid)
unfolding find_pid
find_pid-some zero f i pid h = absurd (cc h)
find_pid-some (suc k) f i pid {j} h =
    elim (Bool-cases (is_unused (f i).state || not ((f i).pid == pid))) [
      | inl e ↦ find_pid-some k f (i + 1) pid (rw e at h)
      | inr e ↦
          let found : ◌≡◌ {A = Option ℕ} (some i) (some j) = (rw e at h) in
          let same : i ≡ j = ground arith in
          subst (λ n. (is_unused (f n).state ≡ false) × ((f n).pid ≡ pid)) same
            (left (is_unused (f i).state) ((f i).pid == pid) e, ground arith)
    ]
  where
    left : (a b : Bool) → a || not b ≡ false → a ≡ false
    left true b h = h
    left false b h = refl

raise_on-fatal :
    (p : Proc)
    → ((raise_on p sigkill).killed ≡ true) × (is_sleeping (raise_on p sigkill).state ≡ false)
unfolding raise_on
raise_on-fatal p = (or_true p.killed, awake (Bool-cases (is_sleeping p.state)))
  where
    or_true : (b : Bool) → b || true ≡ true
    or_true true = refl
    or_true false = refl

    awake :
        (is_sleeping p.state ≡ true) ⊎ (is_sleeping p.state ≡ false)
        → is_sleeping (if is_sleeping p.state then State.runnable else p.state) ≡ false
    awake (inl e) = rw e refl
    awake (inr e) = rw e e

-- Where `kill(pid, SIGKILL)` succeeds, for a pid other than -1, some process of that pid is marked killed and no longer
-- sleeps.
kill-fatal :
    (cur pid : ℕ) (t : Ptable)
    → pid ≢ any_child
    → (kill cur pid sigkill t).0 ≡ true
    → (j : ℕ) × ((is_unused (t.procs j).state ≡ false)
        × ((t.procs j).pid ≡ pid)
        × (((kill cur pid sigkill t).1.procs j).killed ≡ true)
        × (is_sleeping ((kill cur pid sigkill t).1.procs j).state ≡ false))
unfolding kill
kill-fatal cur pid t one =
    let single : (pid == any_child) ≡ false = ground arith in
    rw single (go (find_pid nproc t.procs 0 pid) refl)
  where
    reached : Option ℕ → Bool × Ptable
    reached o = elim o [
      | none ↦ (false, t)
      | some i ↦ (true, record t { procs = update t.procs i (raise_on (t.procs i) sigkill) })
    ]

    go :
        (o : Option ℕ)
        → find_pid nproc t.procs 0 pid ≡ o
        → (reached o).0 ≡ true
        → (j : ℕ) × ((is_unused (t.procs j).state ≡ false)
            × ((t.procs j).pid ≡ pid)
            × (((reached o).1.procs j).killed ≡ true)
            × (is_sleeping ((reached o).1.procs j).state ≡ false))
    go none e h = absurd (cc h)
    go (some i) e h =
        let (u, same) = find_pid-some nproc t.procs 0 pid e in
        let self : (i == i) ≡ true = ground arith in
        let (k, a) = raise_on-fatal (t.procs i) in (i, (u, same, rw self k, rw self a))
