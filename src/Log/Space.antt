-- ===== src/Log/Space.antt =====
-- kern/log.c: `begin_op` reserves room in the log, so that `log_write` never panics.
use openproninx.Base.{
  ℕ, ◌+◌, ◌≤◌, ◌<◌, ◌≡◌, ◌⊎◌, inl, inr, refl, ap, ◌∙◌, sym, subst, Bool, true, false, Bool-cases,
  some, List, [], ◌∷◌, arith, set, length, length-set, get_elem?, get_elem?-lt,
}
use openproninx.Log.{log_size}
use openproninx.Log.Ops.{
  Log, Outcome, begin_op, end_op, end_commit, log_write, refuses, enter, IsEntry, enter-count,
  enter-IsEntry, enter-others,
}
use openproninx.Log.Calls.{
  logged, note, cost, may_log, reserve, in_any, remove, reserve-le, reserve-set, reserve-remove,
  length-remove, empty_of_length, in_any-logged, in_any-remove, in_any-set,
}

-- The log with the system calls that are between `begin_op` and `end_op`: for each, the different
-- blocks that it has logged.
pub record System : Type 0 where
  pub log : Log
  pub used : List (List ℕ)

-- A call begins, logs blocks, and ends; the last one commits. A write is the part of `log_write` under
-- the lock: other calls may run between its tests and it.
pub data Step (s t : System) : Type 0 where
  begin :
      {l : Log} {w : Bool}
      → begin_op s.log ≡ Outcome.done l w
      → t ≡ record { log = l; used = [] ∷ s.used }
      → Step s t
  write :
      (i b : ℕ) {u : List ℕ}
      → get_elem? s.used i ≡ some u
      → may_log u b ≡ true
      → t ≡ record { log = enter s.log b; used = set s.used i (note u b) }
      → Step s t
  finish :
      (i : ℕ) {l : Log} {w : Bool}
      → i < length s.used
      → end_op s.log ≡ Outcome.done l w
      → t ≡ record { log = l; used = remove s.used i }
      → Step s t
  commit :
      {l : Log} {w : Bool}
      → s.log.committing ≡ true
      → end_commit s.log ≡ Outcome.done l w
      → t ≡ record { log = l; used = s.used }
      → Step s t

pub data Reach (s : System) : System → Type 0 where
  here : Reach s s
  next : {t u : System} → Reach s t → Step t u → Reach s u

-- The log is at least as large as mkfs makes it, and the blocks of the running calls are entries.
pub record IsReserved (s : System) : Type 0 where
  pub active : s.log.readonly ≡ false
  pub counted : s.log.outstanding ≡ length s.used
  pub few : length s.used ≤ 3
  pub room : s.log.lh.n + reserve s.used + 2 ≤ log_size
  pub held : s.log.committing ≡ true → s.used ≡ []
  pub drained : s.log.committing ≡ false → s.used ≡ [] → s.log.lh.n ≡ 0
  pub entries : (b : ℕ) → in_any b s.used ≡ true → IsEntry s.log.lh b
  pub slots : length s.log.lh.block ≡ log_size
  pub enough : log_size ≤ s.log.size

begin-IsReserved :
    {s t : System} {l : Log} {w : Bool}
    → IsReserved s
    → begin_op s.log ≡ Outcome.done l w
    → t ≡ record { log = l; used = [] ∷ s.used }
    → IsReserved t
unfolding begin_op reserve in_any
begin-IsReserved {s} {t} {l} v h e =
    let low = reserve-le s.used in
    let idle : s.log.committing ≡ false = ground arith in
    let empty : length s.used ≡ 0 → s.log.lh.n ≡ 0 =
      λ z. v.drained idle (empty_of_length s.used z) in
    let zero_or : (length s.used ≡ 0) ⊎ (0 < length s.used) = ground arith in
    subst IsReserved (sym e) (record {
      active = ground arith;
      counted = ground arith;
      few = ground arith;
      room = elim zero_or [ inl z ↦ ground (arith, low, empty z) | inr p ↦ ground (arith, low) ];
      held = λ c. absurd (ground arith);
      drained = λ c z. absurd (cc z);
      entries = ground arith;
      slots = ground arith;
      enough = ground arith;
    })

write-IsReserved :
    {s t : System} (i b : ℕ) {u : List ℕ}
    → IsReserved s
    → get_elem? s.used i ≡ some u
    → may_log u b ≡ true
    → t ≡ record { log = enter s.log b; used = set s.used i (note u b) }
    → IsReserved t
write-IsReserved {s} {t} i b {u} v e may t_is =
    let (size', outstanding', committing', readonly', slots') = enter-others s.log b in
    let (most, kept) = enter-count s.log b in
    let lt = get_elem?-lt s.used i e in
    let le = length-set s.used i (note u b) in
    let taken = reserve-set s.used i b e may in
    let busy : s.used ≡ [] → ⊥ = λ z. omega (arith, lt, ap length z) in
    subst IsReserved (sym t_is) (record {
      active = readonly' ∙ v.active;
      counted = outstanding' ∙ v.counted ∙ sym le;
      few = omega (arith, v.few, le);
      room = elim (Bool-cases (logged b u)) [
        | inl q ↦
            let same = kept (v.entries b (in_any-logged s.used i b e q)) in
            let free : cost u b ≡ 0 = rw q refl in omega (arith, v.room, same, taken, free)
        | inr q ↦ let one : cost u b ≡ 1 = rw q refl in omega (arith, v.room, most, taken, one)
      ];
      held = λ c. absurd (busy (v.held (sym committing' ∙ c)));
      drained = λ c z. absurd (omega (arith, lt, le, ap length z));
      entries = λ q w.
          enter-IsEntry s.log b q (omega (arith, v.room, v.slots))
            (elim (in_any-set s.used i b q e w) [ inl o ↦ inl (v.entries q o) | inr n ↦ inr n ]);
      slots = slots' ∙ v.slots;
      enough = omega (arith, v.enough, size');
    })

finish-IsReserved :
    {s t : System} (i : ℕ) {l : Log} {w : Bool}
    → IsReserved s
    → i < length s.used
    → end_op s.log ≡ Outcome.done l w
    → t ≡ record { log = l; used = remove s.used i }
    → IsReserved t
unfolding end_op
finish-IsReserved {s} i v h done t_is =
    let less = reserve-remove s.used i in
    let fewer = length-remove s.used i h in
    let none = empty_of_length (remove s.used i) in
    subst IsReserved (sym t_is) (record {
      active = ground arith;
      counted = ground (arith, fewer);
      few = omega (arith, v.few, fewer);
      room = ground (arith, less);
      held = ground (arith, fewer, none);
      drained = λ c z. let zero_left = ap length z in absurd (ground (arith, fewer, zero_left));
      entries = λ q w. let old = v.entries q (in_any-remove s.used i q w) in ground (arith, old);
      slots = ground arith;
      enough = ground arith;
    })

commit-IsReserved :
    {s t : System} {l : Log} {w : Bool}
    → IsReserved s
    → s.log.committing ≡ true
    → end_commit s.log ≡ Outcome.done l w
    → t ≡ record { log = l; used = s.used }
    → IsReserved t
unfolding end_commit in_any
commit-IsReserved {s} v c done t_is =
    let none = v.held c in
    let nothing : (b : ℕ) → in_any b s.used ≡ true → ⊥ = λ b w. cc (ap (in_any b) (sym none) ∙ w) in
    ground arith

Step-IsReserved : {s t : System} → Step s t → IsReserved s → IsReserved t
Step-IsReserved (Step.begin h e) v = begin-IsReserved v h e
Step-IsReserved (Step.write i b e h t_is) v = write-IsReserved i b v e h t_is
Step-IsReserved (Step.finish i h d t_is) v = finish-IsReserved i v h d t_is
Step-IsReserved (Step.commit c d t_is) v = commit-IsReserved v c d t_is

-- However system calls are interleaved that each log at most nine different blocks, on a log of at
-- least `LOGSIZE` blocks: the entries in the log and those that the running calls may still add fit in
-- the log, each block that a running call has logged is an entry, and no call runs while a commit is
-- made.
pub Reach-IsReserved : {s t : System} → IsReserved s → Reach s t → IsReserved t
Reach-IsReserved v here = v
Reach-IsReserved v (next r st) = Step-IsReserved st (Reach-IsReserved v r)

abbrev pub is_done : Outcome → Bool
is_done (Outcome.done l w) = true
is_done Outcome.sleeps = false
is_done Outcome.panics = false

log_write-is_done :
    {s : System} (b : ℕ) → IsReserved s → 0 < length s.used → is_done (log_write s.log b) ≡ true
unfolding log_write refuses
log_write-is_done {s} b v h = ground (arith, h)

end_op-is_done :
    {s : System} (i : ℕ) → IsReserved s → i < length s.used → is_done (end_op s.log) ≡ true
unfolding end_op
end_op-is_done {s} i v h =
    let idle : s.log.committing ≡ false = go s.log.committing refl in ground arith
  where
    go : (c : Bool) → s.log.committing ≡ c → c ≡ false
    go true e = absurd (omega (arith, ap length (v.held e)))
    go false e = refl

-- In every state that calls reach which each log at most nine different blocks, on a log of at least
-- `LOGSIZE` blocks, a running call passes the tests of `log_write` for every block and may end:
-- neither `log_write` nor the part of `end_op` before `commit` panics. The log then has a slot for a
-- block that the call may log, and one more at its end.
pub Reach-no_panic :
    {s t : System} (i b : ℕ) {u : List ℕ}
    → IsReserved s
    → Reach s t
    → get_elem? t.used i ≡ some u
    → may_log u b ≡ true
    → (is_done (log_write t.log b) ≡ true)
      × (is_done (end_op t.log) ≡ true)
      × ((enter t.log b).lh.n + 1 < t.log.size)
Reach-no_panic {s} {t} i b {u} v r e h =
    let v' = Reach-IsReserved v r in
    let lt = get_elem?-lt t.used i e in
    let room =
      (write-IsReserved {t = record { log = enter t.log b; used = set t.used i (note u b) }} i b v'
        e h refl).room in
    let enough = v'.enough in
    (
      log_write-is_done b v' (omega (arith, lt)),
      end_op-is_done i v' lt,
      omega (arith, room, enough),
    )
