-- ===== src/Proc/Family.antt =====
-- kern/proc.c: which operations leave the family of processes as it is.
use openproninx.Base.{
  ℕ, zero, suc, ◌+◌, ◌≡◌, ◌≢◌, inl, inr, refl, ap, ◌∙◌, sym, subst, Bool, true, false, ◌&&◌, ◌||◌,
  Bool-cases, Option, none, some, arith, ◌==◌, leb, if◌then◌else◌,
}
use openproninx.Proc.{
  State, is_unused, is_sleeping, is_zombie, Channel, on_proc, same_channel, Proc, Ptable, nproc,
  update, wakeup1, raise_on, kill_all, find_pid, kill, any_child, nsig,
}

abbrev pub is_live : State → Bool
is_live State.sleeping = true
is_live State.runnable = true
is_live State.running = true
is_live s = false

-- A process that keeps its place in the family.
pub record Mild (p p' : Proc) : Type 0 where
  pub live : is_live p'.state ≡ is_live p.state
  pub dead : is_zombie p'.state ≡ is_zombie p.state
  pub free : is_unused p'.state ≡ is_unused p.state
  pub parent : p'.parent ≡ p.parent
  pub pid : p'.pid ≡ p.pid

-- A process that does not fall asleep either.
pub record Quiet (p p' : Proc) : Type 0 where
  pub mild : Mild p p'
  pub asleep : p'.state ≡ State.sleeping → (p.state ≡ State.sleeping) × (p'.chan ≡ p.chan)

pub Quiet-refl : (p : Proc) → Quiet p p
Quiet-refl p = record {
  mild = record { live = refl; dead = refl; free = refl; parent = refl; pid = refl };
  asleep = λ h. (h, refl);
}

sleeping_lem : (s : State) → is_sleeping s ≡ true → s ≡ State.sleeping
sleeping_lem State.sleeping h = refl
sleeping_lem State.unused h = absurd (ground arith)
sleeping_lem State.embryo h = absurd (ground arith)
sleeping_lem State.runnable h = absurd (ground arith)
sleeping_lem State.running h = absurd (ground arith)
sleeping_lem State.zombie h = absurd (ground arith)

-- A process with the same parent, pid and channel, awake if it slept.
awake-Quiet :
    (p p' : Proc)
    → p'.state ≡ (if is_sleeping p.state then State.runnable else p.state)
    → p'.parent ≡ p.parent
    → p'.pid ≡ p.pid
    → p'.chan ≡ p.chan
    → Quiet p p'
awake-Quiet p p' s parent pid chan = elim (Bool-cases (is_sleeping p.state)) [
  | inl e ↦
      let before = sleeping_lem p.state e in
      let after : p'.state ≡ State.runnable = s ∙ rw e refl in
      record {
        mild = record {
          live = ap is_live after ∙ sym (ap is_live before);
          dead = ap is_zombie after ∙ sym (ap is_zombie before);
          free = ap is_unused after ∙ sym (ap is_unused before);
          parent = parent;
          pid = pid;
        };
        asleep = λ h. absurd (cc (sym after ∙ h));
      }
  | inr e ↦
      let same : p'.state ≡ p.state = s ∙ rw e refl in
      record {
        mild = record {
          live = ap is_live same;
          dead = ap is_zombie same;
          free = ap is_unused same;
          parent = parent;
          pid = pid;
        };
        asleep = λ h. (sym same ∙ h, chan);
      }
]

pub wakeup1-Quiet : (c : Channel) (f : ℕ → Proc) (i : ℕ) → Quiet (f i) (wakeup1 c f i)
unfolding wakeup1
wakeup1-Quiet c f i = elim (Bool-cases (is_sleeping (f i).state && same_channel (f i).chan c)) [
  | inl e ↦
      let s : is_sleeping (f i).state ≡ true =
        both (is_sleeping (f i).state) (same_channel (f i).chan c) e in
      rw e (awake-Quiet (f i) (record (f i) { state = State.runnable }) (rw s refl) refl refl refl)
  | inr e ↦ rw e (Quiet-refl (f i))
]
  where
    both : (a b : Bool) → a && b ≡ true → a ≡ true
    both true b h = refl
    both false b h = h

-- `wakeup1` wakes those who sleep on the channel.
pub wakeup1-awake :
    (p : ℕ) (f : ℕ → Proc)
    → (f p).chan ≡ on_proc p
    → (wakeup1 (on_proc p) f p).state ≢ State.sleeping
unfolding wakeup1
wakeup1-awake p f c h = elim (Bool-cases (is_sleeping (f p).state)) [
  | inl e ↦
      let self : (p == p) ≡ true = ground arith in
      absurd (cc (sym (ap Proc.state (wakes e self)) ∙ h))
  | inr e ↦ absurd (cc (sym e ∙ ap is_sleeping (sym (ap Proc.state (rests e)) ∙ h)))
]
  where
    wakes :
        is_sleeping (f p).state ≡ true
        → (p == p) ≡ true
        → wakeup1 (on_proc p) f p ≡ record (f p) { state = State.runnable }
    wakes e self = rw (e, c, self) refl

    rests : is_sleeping (f p).state ≡ false → wakeup1 (on_proc p) f p ≡ f p
    rests e = rw e refl

pub raise_on-Quiet : (p : Proc) (sig : ℕ) → Quiet p (raise_on p sig)
unfolding raise_on
raise_on-Quiet p sig = awake-Quiet p _ refl refl refl refl

Quiet-trans : (p q r : Proc) → Quiet p q → Quiet q r → Quiet p r
Quiet-trans p q r a b = record {
  mild = record {
    live = b.mild.live ∙ a.mild.live;
    dead = b.mild.dead ∙ a.mild.dead;
    free = b.mild.free ∙ a.mild.free;
    parent = b.mild.parent ∙ a.mild.parent;
    pid = b.mild.pid ∙ a.mild.pid;
  };
  asleep = λ h. ((a.asleep (b.asleep h).0).0, (b.asleep h).1 ∙ (a.asleep (b.asleep h).0).1);
}

update-Quiet :
    (f : ℕ → Proc) (i : ℕ) (p : Proc) (j : ℕ) → Quiet (f i) p → Quiet (f j) (update f i p j)
update-Quiet f i p j h = elim (Bool-cases (i == j)) [
  | inl e ↦ let same : i ≡ j = ground arith in rw e (subst (λ k. Quiet (f k) p) same h)
  | inr e ↦ rw e (Quiet-refl (f j))
]

kill_all-Quiet :
    (k i cur sig : ℕ) (f : ℕ → Proc) (j : ℕ) → Quiet (f j) ((kill_all k i cur sig f).1 j)
unfolding kill_all
kill_all-Quiet zero i cur sig f j = Quiet-refl (f j)
kill_all-Quiet (suc k) i cur sig f j =
    Quiet-trans (f j) (f' j) _ one (kill_all-Quiet k (i + 1) cur sig f' j)
  where
    skip : Bool
    skip = is_unused (f i).state || (leb (f i).pid 1 || i == cur)

    f' : ℕ → Proc
    f' = if skip then f else update f i (raise_on (f i) sig)

    one : Quiet (f j) (f' j)
    one = elim (Bool-cases skip) [
      | inl e ↦ rw e (Quiet-refl (f j))
      | inr e ↦ rw e (update-Quiet f i (raise_on (f i) sig) j (raise_on-Quiet (f i) sig))
    ]

pub kill-Quiet :
    (cur pid sig : ℕ) (t : Ptable) (j : ℕ) → Quiet (t.procs j) ((kill cur pid sig t).1.procs j)
unfolding kill
kill-Quiet cur pid sig t j = elim (Bool-cases (leb nsig sig)) [
  | inl e ↦ rw e (Quiet-refl (t.procs j))
  | inr e ↦ rw e (elim (Bool-cases (pid == any_child)) [
    | inl q ↦ rw q (kill_all-Quiet nproc 0 cur sig t.procs j)
    | inr q ↦ rw q (one (find_pid nproc t.procs 0 pid))
  ])
]
  where
    one :
        (o : Option ℕ)
        → Quiet (t.procs j) (
            (elim o as (λ _. Bool × Ptable) [
              | none ↦ (false, t)
              | some i ↦ (true, record t { procs = update t.procs i (raise_on (t.procs i) sig) })
            ]).1.procs
              j)
    one none = Quiet-refl (t.procs j)
    one (some i) =
        update-Quiet t.procs i (raise_on (t.procs i) sig) j (raise_on-Quiet (t.procs i) sig)
