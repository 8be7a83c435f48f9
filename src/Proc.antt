-- ===== src/Proc.antt =====
-- kern/proc.c: the process table, by the stretches that run under the table's lock.
-- A process is named by its index in `ptable.proc`. The page tables, stacks and open files of a process are not in the model: whether their allocation
-- succeeds is an argument.
pub mod Family
pub mod Orphans
pub mod Exit
pub mod Wait
pub mod Wakeup
pub mod Step
pub mod Life
pub mod Reachable
pub mod NoLostWakeup
pub mod Kill
mod Examples
use openproninx.Base.{
  ℕ, zero, suc, ◌+◌, ◌-◌, ◌%◌, ◌^◌, ◌≡◌, Bool, true, false, ◌&&◌, ◌||◌, not, Option, none, some,
  List, [], ◌∷◌, ◌==◌, ltb, leb, if◌then◌else◌, add32,
}
use Prim.Native.Nat.{bit_and, bit_or}

-- `enum procstate`
pub data State : Type 0 where
  unused embryo sleeping runnable running zombie : State

abbrev pub is_unused : State → Bool
is_unused State.unused = true
is_unused s = false

abbrev pub is_sleeping : State → Bool
is_sleeping State.sleeping = true
is_sleeping s = false

abbrev pub is_zombie : State → Bool
is_zombie State.zombie = true
is_zombie s = false

-- What a process sleeps on: a process, as in `waitpid` and `signal_take`, or another address.
pub data Channel : Type 0 where
  nothing : Channel
  on_proc : ℕ → Channel
  on_address : ℕ → Channel

abbrev pub same_channel : Channel → Channel → Bool
same_channel nothing nothing = true
same_channel (on_proc p) (on_proc q) = p == q
same_channel (on_address a) (on_address b) = a == b
same_channel c d = false

-- `struct proc`
pub record Proc : Type 0 where
  pub state : State
  pub pid : ℕ
  pub parent : Option ℕ
  pub chan : Channel
  pub killed : Bool
  pub sig_pending : ℕ
  pub sig_catch : ℕ

abbrev pub is_parent : Option ℕ → ℕ → Bool
is_parent none p = false
is_parent (some q) p = q == p

pub record Ptable : Type 0 where
  pub procs : ℕ → Proc
  pub next_pid : ℕ
  pub initproc : ℕ

-- `NPROC`
abbrev pub nproc : ℕ
nproc = 64

abbrev pub update : (ℕ → Proc) → ℕ → Proc → ℕ → Proc
update f i p j = if i == j then p else f j

-- `wakeup1`
unfoldable pub wakeup1 : Channel → (ℕ → Proc) → ℕ → Proc
wakeup1 c f i =
    if is_sleeping (f i).state && same_channel (f i).chan c
    then record (f i) { state = State.runnable }
    else f i

-- The search of `allocproc` among the next `k` entries.
pub find_unused : ℕ → (ℕ → Proc) → ℕ → Option ℕ
find_unused zero f i = none
find_unused (suc k) f i =
    let later = find_unused k f (i + 1) in if is_unused (f i).state then some i else later

-- `allocproc` in one stretch, where `stack` says whether `kalloc` gives a kernel stack. The counter does not wrap.
unfoldable pub allocproc : Bool → Ptable → Option ℕ × Ptable
allocproc stack t = elim (find_unused nproc t.procs 0) [
  | none ↦ (none, t)
  | some i ↦
      let p : Proc = record (t.procs i) {
        state = if stack then State.embryo else State.unused;
        pid = t.next_pid;
        sig_pending = 0;
        sig_catch = 0;
      } in
      (
        if stack then some i else none,
        record t { procs = update t.procs i p; next_pid = t.next_pid + 1 },
      )
]

-- `fork` after `allocproc`, where `pages` says whether `copyuvm` succeeds.
unfoldable pub fork_copy : Bool → ℕ → ℕ → Ptable → Ptable
fork_copy pages cur np t =
    let p : Proc =
      if pages
      then record (t.procs np) { parent = some cur }
      else record (t.procs np) { state = State.unused } in
    record t { procs = update t.procs np p }

-- The end of `fork`.
unfoldable pub fork_publish : ℕ → Ptable → Ptable
fork_publish np t = record t {
  procs = update t.procs np (record (t.procs np) { state = State.runnable });
}

-- The loop of `exit` over the next `k` entries.
unfoldable pub reparent : ℕ → ℕ → ℕ → ℕ → (ℕ → Proc) → ℕ → Proc
reparent zero i cur init f = f
reparent (suc k) i cur init f =
    let f1 : ℕ → Proc = update f i (record (f i) { parent = some init }) in
    let f2 : ℕ → Proc = if is_zombie (f i).state then wakeup1 (on_proc init) f1 else f1 in
    reparent k (i + 1) cur init (if is_parent (f i).parent cur then f2 else f)

abbrev pub parent_channel : Option ℕ → Channel
parent_channel none = nothing
parent_channel (some q) = on_proc q

-- `exit` once it holds the lock; `none` is the panic of init.
unfoldable pub exit : ℕ → Ptable → Option Ptable
exit cur t =
    let f1 = wakeup1 (parent_channel (t.procs cur).parent) t.procs in
    let f2 = reparent nproc 0 cur t.initproc f1 in
    if cur == t.initproc
    then none
    else some (record t { procs = update f2 cur (record (f2 cur) { state = State.zombie }) })

-- `pid_t` -1, as a word.
abbrev pub any_child : ℕ
any_child = 2 ^ 32 - 1

-- Not skipped by the loop of `waitpid`.
abbrev pub is_child : Proc → ℕ → ℕ → Bool
is_child p cur target = is_parent p.parent cur && (target == any_child || p.pid == target)

-- The loop of `waitpid` over the next `k` entries: the first zombie, and `havekids`.
unfoldable pub scan_children : ℕ → (ℕ → Proc) → ℕ → ℕ → ℕ → Option ℕ × Bool
scan_children zero f i cur target = (none, false)
scan_children (suc k) f i cur target =
    let rest = scan_children k f (i + 1) cur target in
    if is_child (f i) cur target
    then (if is_zombie (f i).state then (some i, true) else (rest.0, true))
    else rest

abbrev pub reap : Proc → Proc
reap p = record p {
  state = State.unused;
  pid = 0;
  parent = none;
  killed = false;
  sig_pending = 0;
  sig_catch = 0;
}

-- `sleep` up to the switch to the scheduler.
unfoldable pub sleep : ℕ → Channel → Ptable → Ptable
sleep cur c t = record t {
  procs = update t.procs cur (record (t.procs cur) { state = State.sleeping; chan = c });
}

-- How a stretch of `waitpid` ends: with the pid of a child, with -1, with 0, or asleep.
pub data Waited : Type 0 where
  reaped : ℕ → Ptable → Waited
  failed : Waited
  none_yet : Waited
  asleep : Ptable → Waited

abbrev pub interrupted : Proc → Bool
interrupted p = p.killed || not (bit_and p.sig_pending p.sig_catch == 0)

unfoldable pub waitpid : ℕ → ℕ → Bool → Ptable → Waited
waitpid cur target nohang t =
    let (found, havekids) = scan_children nproc t.procs 0 cur target in
    if target == 0 || leb (2 ^ 31) target && not (target == any_child) then failed else elim found [
      | some i ↦ reaped (t.procs i).pid (record t { procs = update t.procs i (reap (t.procs i)) })
      | none ↦
          if not havekids || interrupted (t.procs cur)
          then failed
          else if nohang
          then none_yet
          else asleep (sleep cur (on_proc cur) t)
    ]

-- `SIGMASK`
abbrev pub sigmask : ℕ → ℕ
sigmask sig = 2 ^ sig % 2 ^ 32

abbrev pub sigkill : ℕ
sigkill = 9

abbrev pub nsig : ℕ
nsig = 32

-- `raise_on`
unfoldable pub raise_on : Proc → ℕ → Proc
raise_on p sig = record p {
  sig_pending = if sig == 0 then p.sig_pending else bit_or p.sig_pending (sigmask sig);
  killed =
      p.killed
      || (sig == sigkill
          || (not (sig == 0) && bit_and (sigmask sig) p.sig_catch == 0 && not (p.pid == 1)));
  state = if is_sleeping p.state then State.runnable else p.state;
}

-- The loop of `kill(-1, sig)`, and whether it hit a process.
unfoldable pub kill_all : ℕ → ℕ → ℕ → ℕ → (ℕ → Proc) → Bool × (ℕ → Proc)
kill_all zero i cur sig f = (false, f)
kill_all (suc k) i cur sig f =
    let skip = is_unused (f i).state || (leb (f i).pid 1 || i == cur) in
    let f' : ℕ → Proc = if skip then f else update f i (raise_on (f i) sig) in
    let (hit, g) = kill_all k (i + 1) cur sig f' in (not skip || hit, g)

-- The loop of `kill` for one pid.
unfoldable pub find_pid : ℕ → (ℕ → Proc) → ℕ → ℕ → Option ℕ
find_pid zero f i pid = none
find_pid (suc k) f i pid =
    let rest = find_pid k f (i + 1) pid in
    if is_unused (f i).state || not ((f i).pid == pid) then rest else some i

-- `kill`: whether it returns 0. `sig` is an `int`.
unfoldable pub kill : ℕ → ℕ → ℕ → Ptable → Bool × Ptable
kill cur pid sig t =
    let (hit, f) = kill_all nproc 0 cur sig t.procs in
    if leb nsig sig
    then (false, t)
    else if pid == any_child
    then (hit, record t { procs = f })
    else elim (find_pid nproc t.procs 0 pid) [
      | none ↦ (false, t)
      | some i ↦ (true, record t { procs = update t.procs i (raise_on (t.procs i) sig) })
    ]

-- `wakeup`
unfoldable pub wakeup : Channel → Ptable → Ptable
wakeup c t = record t { procs = wakeup1 c t.procs }

-- `yield` up to the switch.
unfoldable pub yield : ℕ → Ptable → Ptable
yield cur t = record t {
  procs = update t.procs cur (record (t.procs cur) { state = State.runnable });
}

-- `scheduler` takes a runnable process, which then leaves `sleep`, if it was in it.
unfoldable pub resume : ℕ → Ptable → Ptable
resume i t = record t {
  procs = update t.procs i (record (t.procs i) { state = State.running; chan = nothing });
}

-- `signal_catch`
unfoldable pub signal_catch : ℕ → ℕ → Ptable → Ptable
signal_catch cur mask t = record t {
  procs =
      update t.procs cur
        (record (t.procs cur) { sig_catch = bit_and mask (2 ^ 32 - 1 - sigmask sigkill) });
}

-- The first signal of a word from `sig` on, of the next `k`.
unfoldable pub first_signal : ℕ → ℕ → ℕ → ℕ
first_signal zero sig ready = sig
first_signal (suc k) sig ready =
    let later = first_signal k (sig + 1) ready in
    if bit_and ready (sigmask sig) == 0 then later else sig

pub data Taken : Type 0 where
  took : ℕ → Ptable → Taken
  failed : Taken
  asleep : Ptable → Taken

-- A stretch of `signal_take`.
unfoldable pub signal_take : ℕ → Bool → Ptable → Taken
signal_take cur block t =
    let p = t.procs cur in
    let ready = bit_and p.sig_pending p.sig_catch in
    let sig = first_signal (nsig - 1) 1 ready in
    if not (ready == 0)
    then took sig (record t {
      procs =
          update t.procs cur
            (record p { sig_pending = bit_and p.sig_pending (2 ^ 32 - 1 - sigmask sig) });
    })
    else if not block || p.killed
    then failed
    else asleep (sleep cur (on_proc cur) t)
