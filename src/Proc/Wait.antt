-- ===== src/Proc/Wait.antt =====
-- kern/proc.c: how a stretch of `waitpid` ends.
use openproninx.Base.{
  ℕ, zero, suc, ◌+◌, ◌≤◌, ◌<◌, ◌^◌, ◌≡◌, ◌≢◌, inl, inr, refl, ap, ◌∙◌, sym, subst, Bool, true,
  false, ◌&&◌, ◌||◌, not, Bool-cases, Option, none, some, arith, ◌==◌, leb, if◌then◌else◌,
}
use openproninx.Proc.{
  is_zombie, on_proc, Proc, Ptable, nproc, update, is_child, any_child, scan_children, reap, sleep,
  interrupted, Waited, waitpid,
}

-- The loop finds a zombie among the children that are looked for.
scan_children-some :
    (k : ℕ) (f : ℕ → Proc) (i cur target : ℕ) {j : ℕ}
    → (scan_children k f i cur target).0 ≡ some j
    → (is_child (f j) cur target ≡ true) × (is_zombie (f j).state ≡ true) × (j < i + k)
unfolding scan_children
scan_children-some zero f i cur target h = absurd (cc h)
scan_children-some (suc k) f i cur target {j} h = elim (Bool-cases (is_child (f i) cur target)) [
  | inl e ↦ elim (Bool-cases (is_zombie (f i).state)) [
    | inl z ↦
        let found : ◌≡◌ {A = Option ℕ} (some i) (some j) = (rw (e, z) at h) in
        let same : i ≡ j = ground arith in
        subst
          (λ k'.
            (is_child (f k') cur target ≡ true)
            × (is_zombie (f k').state ≡ true)
            × (k' < i + suc k))
          same (e, z, omega arith)
    | inr z ↦ wider (scan_children-some k f (i + 1) cur target (rw (e, z) at h))
  ]
  | inr e ↦ wider (scan_children-some k f (i + 1) cur target (rw e at h))
]
  where
    wider :
        (is_child (f j) cur target ≡ true) × (is_zombie (f j).state ≡ true) × (j < i + 1 + k)
        → (is_child (f j) cur target ≡ true) × (is_zombie (f j).state ≡ true) × (j < i + suc k)
    wider (a, b, c) = (a, b, omega arith)

-- If it finds none, there is none.
scan_children-none :
    (k : ℕ) (f : ℕ → Proc) (i cur target : ℕ) (j : ℕ)
    → (scan_children k f i cur target).0 ≡ none
    → i ≤ j
    → j < i + k
    → is_child (f j) cur target ≡ true
    → is_zombie (f j).state ≡ false
unfolding scan_children
scan_children-none zero f i cur target j h lo hi c = absurd (omega arith)
scan_children-none (suc k) f i cur target j h lo hi c = elim (Bool-cases (i == j)) [
  | inl s ↦
      let same : j ≡ i = ground arith in
      ap (λ k. is_zombie (f k).state) same
      ∙ first (ap (λ k. is_child (f k) cur target) (sym same) ∙ c)
  | inr s ↦ scan_children-none k f (i + 1) cur target j (rest h) (ground arith) (omega arith) c
]
  where
    first : is_child (f i) cur target ≡ true → is_zombie (f i).state ≡ false
    first e = elim (Bool-cases (is_zombie (f i).state)) [
      | inl z ↦ absurd (cc (rw (e, z) at h))
      | inr z ↦ z
    ]

    rest :
        (scan_children (suc k) f i cur target).0 ≡ none
        → (scan_children k f (i + 1) cur target).0 ≡ none
    rest h = elim (Bool-cases (is_child (f i) cur target)) [
      | inl e ↦ elim (Bool-cases (is_zombie (f i).state)) [
        | inl z ↦ absurd (cc (rw (e, z) at h))
        | inr z ↦ (rw (e, z) at h)
      ]
      | inr e ↦ (rw e at h)
    ]

table_of : Waited → Ptable → Ptable
table_of (Waited.reaped pid u) t = u
table_of Waited.failed t = t
table_of Waited.none_yet t = t
table_of (Waited.asleep u) t = u

pid_of_outcome : Waited → ℕ
pid_of_outcome (Waited.reaped pid u) = pid
pid_of_outcome Waited.failed = 0
pid_of_outcome Waited.none_yet = 0
pid_of_outcome (Waited.asleep u) = 0

-- Where no zombie is found, nothing is reaped and only the caller falls asleep.
unfound_cases :
    (a b : Bool) (s : Ptable)
    → ((pid : ℕ) (u : Ptable)
        → (if a then Waited.failed else if b then Waited.none_yet else Waited.asleep s)
          ≢ Waited.reaped pid u)
      × ((u : Ptable)
          → (if a then Waited.failed else if b then Waited.none_yet else Waited.asleep s)
            ≡ Waited.asleep u
          → u ≡ s)
unfolding table_of
unfound_cases true b s = (λ pid u h. cc h, λ u h. absurd (cc h))
unfound_cases false true s = (λ pid u h. cc h, λ u h. absurd (cc h))
unfound_cases false false s = (λ pid u h. cc h, λ u h. sym (ap (λ o. table_of o s) h))

pub record Reaped (who target : ℕ) (t u : Ptable) (pid : ℕ) : Type 0 where
  pub child : ℕ
  pub chosen : is_child (t.procs child) who target ≡ true
  pub dead : is_zombie (t.procs child).state ≡ true
  pub pid_of : pid ≡ (t.procs child).pid
  pub in_table : child < nproc
  pub now : u ≡ record t { procs = update t.procs child (reap (t.procs child)) }

-- `waitpid` frees a zombie child and gives its pid, or falls asleep where there is none.
pub waitpid-cases :
    (who target : ℕ) (nohang : Bool) (t : Ptable)
    → ((pid : ℕ) (u : Ptable)
        → waitpid who target nohang t ≡ Waited.reaped pid u
        → Reaped who target t u pid)
      × ((u : Ptable)
          → waitpid who target nohang t ≡ Waited.asleep u
          → (u ≡ sleep who (on_proc who) t)
            × ((j : ℕ)
                → j < nproc
                → is_child (t.procs j) who target ≡ true
                → is_zombie (t.procs j).state ≡ false))
unfolding waitpid table_of pid_of_outcome
waitpid-cases who target nohang t =
    elim (Bool-cases (target == 0 || leb (2 ^ 31) target && not (target == any_child))) [
      | inl e ↦ (λ pid u h. absurd (cc (rw e at h)), λ u h. absurd (cc (rw e at h)))
      | inr e ↦ rw e (go (scan_children nproc t.procs 0 who target).0 refl)
    ]
  where
    havekids : Bool
    havekids = (scan_children nproc t.procs 0 who target).1

    outcome : Option ℕ → Waited
    outcome o = elim o [
      | some i ↦
          Waited.reaped (t.procs i).pid (record t { procs = update t.procs i (reap (t.procs i)) })
      | none ↦
          if not havekids || interrupted (t.procs who)
          then Waited.failed
          else if nohang
          then Waited.none_yet
          else Waited.asleep (sleep who (on_proc who) t)
    ]

    nothing_found :
        ((pid : ℕ) (u : Ptable) → outcome none ≢ Waited.reaped pid u)
        × ((u : Ptable) → outcome none ≡ Waited.asleep u → u ≡ sleep who (on_proc who) t)
    nothing_found =
        unfound_cases (not havekids || interrupted (t.procs who)) nohang (sleep who (on_proc who) t)

    go :
        (o : Option ℕ)
        → (scan_children nproc t.procs 0 who target).0 ≡ o
        → ((pid : ℕ) (u : Ptable) → outcome o ≡ Waited.reaped pid u → Reaped who target t u pid)
          × ((u : Ptable)
              → outcome o ≡ Waited.asleep u
              → (u ≡ sleep who (on_proc who) t)
                × ((j : ℕ)
                    → j < nproc
                    → is_child (t.procs j) who target ≡ true
                    → is_zombie (t.procs j).state ≡ false))
    go none e = (
      λ pid u h. absurd (nothing_found.0 pid u h),
      λ u h. (
        nothing_found.1 u h,
        λ j lt c. scan_children-none nproc t.procs 0 who target j e (omega arith) (omega arith) c,
      ),
    )
    go (some i) e = (
      λ pid u h.
          let (c, z, lt) = scan_children-some nproc t.procs 0 who target e in
          record {
            child = i;
            chosen = c;
            dead = z;
            pid_of = sym (ap pid_of_outcome h);
            in_table = lt;
            now = sym (ap (λ o. table_of o t) h);
          },
      λ u h. absurd (cc h),
    )

-- Where `waitpid` gives a pid, it is that of a zombie child of the caller that is looked for, below `NPROC` in the table,
-- and this entry alone changes: it is freed, without pid and parent.
pub waitpid-reaped :
    (who target : ℕ) (nohang : Bool) (t u : Ptable) (pid : ℕ)
    → waitpid who target nohang t ≡ Waited.reaped pid u
    → Reaped who target t u pid
waitpid-reaped who target nohang t u pid e = (waitpid-cases who target nohang t).0 pid u e
