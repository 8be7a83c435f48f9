-- ===== src/Proc/Life.antt =====
-- kern/proc.c: every stretch keeps the family of processes.
use openproninx.Base.{
  ℕ, zero, suc, ◌+◌, ◌-◌, ◌<◌, ◌^◌, ◌≡◌, ◌≢◌, ◌⊎◌, inl, inr, refl, ap, ◌∙◌, sym, subst, Bool, true,
  false, ◌||◌, not, Bool-cases, Option, none, some, arith, ◌==◌, if◌then◌else◌,
}
use Prim.Native.Nat.{bit_and}
use openproninx.Proc.{
  State, is_unused, is_zombie, on_proc, Proc, Ptable, nproc, nsig, sigmask, update, find_unused,
  allocproc, fork_copy, fork_publish, reap, sleep, first_signal, Taken, signal_take,
}
use openproninx.Proc.Family.{is_live, Mild}
use openproninx.Proc.Orphans.{live-used, below_nproc, IsFamily, IsFamily-update}
use openproninx.Proc.Step.{Runs}

pub Mild-refl : (p : Proc) → Mild p p
Mild-refl p = record { live = refl; dead = refl; free = refl; parent = refl; pid = refl }

-- The entry that `find_unused` gives is free.
pub find_unused_lem :
    (k : ℕ) (f : ℕ → Proc) (i : ℕ) {j : ℕ}
    → find_unused k f i ≡ some j
    → (is_unused (f j).state ≡ true) × (j < i + k)
unfolding find_unused
find_unused_lem zero f i h = absurd (cc h)
find_unused_lem (suc k) f i {j} h = elim (Bool-cases (is_unused (f i).state)) [
  | inl e ↦
      let found : ◌≡◌ {A = Option ℕ} (some i) (some j) = (rw e at h) in
      let same : i ≡ j = ground arith in
      (ap (λ k. is_unused (f k).state) (sym same) ∙ e, omega arith)
  | inr e ↦ let (u, lt) = find_unused_lem k f (i + 1) (rw e at h) in (u, omega arith)
]

live_flags : (s : State) → is_live s ≡ true → (is_zombie s ≡ false) × (is_unused s ≡ false)
live_flags State.sleeping h = (refl, refl)
live_flags State.runnable h = (refl, refl)
live_flags State.running h = (refl, refl)
live_flags State.unused h = absurd (ground arith)
live_flags State.embryo h = absurd (ground arith)
live_flags State.zombie h = absurd (ground arith)

-- A process that lives on is in its place.
pub live-Mild :
    (p p' : Proc)
    → is_live p.state ≡ true
    → is_live p'.state ≡ true
    → p'.parent ≡ p.parent
    → p'.pid ≡ p.pid
    → Mild p p'
live-Mild p p' l l' parent pid = record {
  live = l' ∙ sym l;
  dead = (live_flags p'.state l').0 ∙ sym (live_flags p.state l).0;
  free = (live_flags p'.state l').1 ∙ sym (live_flags p.state l).1;
  parent = parent;
  pid = pid;
}

pub update-Mild :
    (f : ℕ → Proc) (i : ℕ) (p : Proc) (j : ℕ) → Mild (f i) p → Mild (f j) (update f i p j)
update-Mild f i p j h = elim (Bool-cases (i == j)) [
  | inl e ↦ let same : i ≡ j = ground arith in rw e (subst (λ k. Mild (f k) p) same h)
  | inr e ↦ rw e (Mild-refl (f j))
]

taken_table : Taken → Ptable → Ptable
taken_table (Taken.took sig u) t = u
taken_table Taken.failed t = t
taken_table (Taken.asleep u) t = u

taken_signal : Taken → ℕ
taken_signal (Taken.took sig u) = sig
taken_signal Taken.failed = 0
taken_signal (Taken.asleep u) = 0

-- `signal_take` changes the pending signals of the caller, or puts it to sleep.
pub signal_take-cases :
    (who : ℕ) (block : Bool) (t : Ptable)
    → ((sig : ℕ) (u : Ptable)
        → signal_take who block t ≡ Taken.took sig u
        → u ≡ record t {
          procs = update t.procs who (record (t.procs who) {
            sig_pending = bit_and (t.procs who).sig_pending (2 ^ 32 - 1 - sigmask sig);
          });
        })
      × ((u : Ptable) → signal_take who block t ≡ Taken.asleep u → u ≡ sleep who (on_proc who) t)
unfolding signal_take taken_table taken_signal
signal_take-cases who block t =
    split (not (bit_and p.sig_pending p.sig_catch == 0)) (not block || p.killed)
  where
    p : Proc
    p = t.procs who

    sig' : ℕ
    sig' = first_signal (nsig - 1) 1 (bit_and p.sig_pending p.sig_catch)

    after : ℕ → Ptable
    after sig = record t {
      procs =
          update t.procs who
            (record p { sig_pending = bit_and p.sig_pending (2 ^ 32 - 1 - sigmask sig) });
    }

    outcome : Bool → Bool → Taken
    outcome a b =
        if a
        then Taken.took sig' (after sig')
        else if b
        then Taken.failed
        else Taken.asleep (sleep who (on_proc who) t)

    split :
        (a b : Bool)
        → ((sig : ℕ) (u : Ptable)
            → outcome a b ≡ Taken.took sig u
            → u ≡ record t {
              procs =
                  update t.procs who
                    (record p { sig_pending = bit_and p.sig_pending (2 ^ 32 - 1 - sigmask sig) });
            })
          × ((u : Ptable) → outcome a b ≡ Taken.asleep u → u ≡ sleep who (on_proc who) t)
    split true b = (
      λ sig u h. sym (ap (λ o. taken_table o t) h) ∙ ap (λ o. after (taken_signal o)) h,
      λ u h. absurd (cc h),
    )
    split false true = (λ sig u h. absurd (cc h), λ u h. absurd (cc h))
    split false false = (λ sig u h. absurd (cc h), λ u h. sym (ap (λ o. taken_table o t) h))

-- The table after a step, where the process that steps stays in its place.
abbrev pub SameFamily : Ptable → Ptable → Type 0
SameFamily t u = (u.initproc ≡ t.initproc) × ((j : ℕ) → Mild (t.procs j) (u.procs j))

pub allocproc-IsFamily :
    (stack : Bool) (t : Ptable)
    → IsFamily t.initproc t.procs
    → IsFamily t.initproc (allocproc stack t).1.procs
      × ((allocproc stack t).1.initproc ≡ t.initproc)
unfolding allocproc
allocproc-IsFamily stack t h = go (find_unused nproc t.procs 0) refl
  where
    new : ℕ → Proc
    new i = record (t.procs i) {
      state = if stack then State.embryo else State.unused;
      pid = t.next_pid;
      sig_pending = 0;
      sig_catch = 0;
    }

    unborn :
        (b : Bool)
        → is_live (if b then State.embryo else State.unused)
            || is_zombie (if b then State.embryo else State.unused)
          ≡ false
    unborn true = refl
    unborn false = refl

    go :
        (o : Option ℕ)
        → find_unused nproc t.procs 0 ≡ o
        → IsFamily t.initproc
            (elim o as (λ _. Option ℕ × Ptable) [
              | none ↦ (none, t)
              | some i ↦ (
                if stack then some i else none,
                record t { procs = update t.procs i (new i); next_pid = t.next_pid + 1 },
              )
            ]).1.procs
          × ((elim o as (λ _. Option ℕ × Ptable) [
            | none ↦ (none, t)
            | some i ↦ (
              if stack then some i else none,
              record t { procs = update t.procs i (new i); next_pid = t.next_pid + 1 },
            )
          ]).1.initproc
              ≡ t.initproc)
    go none e = (h, refl)
    go (some i) e =
        let (free, lt) = find_unused_lem nproc t.procs 0 e in
        let orphan = h.free i free in
        (
          IsFamily-update t.initproc i (new i) h (omega arith)
              (λ l. absurd (live-used (t.procs i).state l free)) (λ _. orphan)
              (λ q s. h.known i q s) (λ _. orphan) (λ s. absurd (cc (sym (unborn stack) ∙ s))),
          refl,
        )

in_table :
    (np : ℕ) (t : Ptable)
    → IsFamily t.initproc t.procs
    → (t.procs np).state ≡ State.embryo
    → np < nproc
in_table np t h e = below_nproc t.procs np (h.within np) (λ u. cc (sym u ∙ ap is_unused e))

pub fork_copy-IsFamily :
    (pages : Bool) (who np : ℕ) (t : Ptable)
    → IsFamily t.initproc t.procs
    → Runs t who
    → (t.procs np).state ≡ State.embryo
    → (t.procs np).parent ≡ none
    → IsFamily t.initproc (fork_copy pages who np t).procs
unfolding fork_copy
fork_copy-IsFamily pages who np t h r e orphan =
    IsFamily-update t.initproc np (new pages) h (in_table np t h e)
      (λ l. absurd (cc (sym l ∙ ap is_live e))) (λ same. absurd (not_init same)) (parent_of pages)
      (free_of pages) (adopted_of pages)
  where
    new : Bool → Proc
    new b =
        if b
        then record (t.procs np) { parent = some who }
        else record (t.procs np) { state = State.unused }

    not_init : np ≢ t.initproc
    not_init same =
        cc (sym h.init_live ∙ ap (λ k. is_live (t.procs k).state) (sym same) ∙ ap is_live e)

    parent_of :
        (b : Bool) (q : ℕ) → (new b).parent ≡ some q → (is_live (t.procs q).state ≡ true) × (q ≢ np)
    parent_of false q s = h.known np q s
    parent_of true q s =
        let same : who ≡ q = ground arith in
        (
          ap (λ k. is_live (t.procs k).state) (sym same) ∙ ap is_live r,
          λ d.
              cc (
                sym (ap is_live r) ∙ ap (λ k. is_live (t.procs k).state) (same ∙ d) ∙ ap is_live e),
        )

    free_of : (b : Bool) → is_unused (new b).state ≡ true → (new b).parent ≡ none
    free_of false _ = orphan
    free_of true s = absurd (cc (sym s ∙ ap is_unused e))

    adopted_of :
        (b : Bool)
        → is_live (new b).state || is_zombie (new b).state ≡ true
        → (np ≡ t.initproc) ⊎ ((q : ℕ) × ((new b).parent ≡ some q))
    adopted_of false s = absurd (cc s)
    adopted_of true s = inr (who, refl)

pub fork_publish-IsFamily :
    (who np : ℕ) (t : Ptable)
    → IsFamily t.initproc t.procs
    → (t.procs np).state ≡ State.embryo
    → (t.procs np).parent ≡ some who
    → IsFamily t.initproc (fork_publish np t).procs
unfolding fork_publish
fork_publish-IsFamily who np t h e parent =
    IsFamily-update t.initproc np (record (t.procs np) { state = State.runnable }) h
      (in_table np t h e) (λ _. refl) (λ same. ap (λ k. (t.procs k).parent) same ∙ h.init_root)
      (λ q s. h.known np q s) (λ s. absurd (cc s)) (λ _. inr (who, parent))

pub reap-IsFamily :
    (i : ℕ) (t : Ptable)
    → IsFamily t.initproc t.procs
    → i < nproc
    → is_zombie (t.procs i).state ≡ true
    → IsFamily t.initproc (update t.procs i (reap (t.procs i)))
reap-IsFamily i t h lt z =
    IsFamily-update t.initproc i (reap (t.procs i)) h lt
      (λ l. absurd (cc (sym z ∙ (live_flags (t.procs i).state l).0))) (λ _. refl)
      (λ q s. absurd (cc s)) (λ _. refl) (λ s. absurd (cc s))
