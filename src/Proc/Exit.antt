-- ===== src/Proc/Exit.antt =====
-- kern/proc.c: `exit` gives the children of a process to `initproc`.
use openproninx.Base.{
  ℕ, zero, suc, ◌+◌, ◌≤◌, ◌<◌, ◌≡◌, ◌≢◌, ◌⊎◌, inl, inr, refl, ap, ◌∙◌, sym, subst, true, ◌&&◌,
  Bool-cases, Option, none, some, arith, ◌==◌, ltb, if◌then◌else◌,
}
use openproninx.Proc.{
  State, is_unused, is_zombie, on_proc, Proc, is_parent, Ptable, nproc, update, wakeup1, reparent,
  parent_channel, exit,
}
use openproninx.Proc.Family.{is_live, wakeup1-Quiet}
use openproninx.Proc.Orphans.{
  below_nproc, IsFamily, IsFamily-Mild, IsFamily-update, IsFamily-zombie,
}

pub is_parent_lem : (o : Option ℕ) (cur : ℕ) → is_parent o cur ≡ true → o ≡ some cur
is_parent_lem none cur h = absurd (cc h)
is_parent_lem (some q) cur h = ap some (ground arith)

module _ (init : ℕ) where
  -- What one round of the loop of `exit` does.
  unfoldable pub adopt : ℕ → ℕ → (ℕ → Proc) → ℕ → Proc
  adopt i cur f =
      let f1 : ℕ → Proc = update f i (record (f i) { parent = some init }) in
      if is_parent (f i).parent cur
      then (if is_zombie (f i).state then wakeup1 (on_proc init) f1 else f1)
      else f

  IsFamily-adopt :
      (i cur : ℕ) {f : ℕ → Proc} → cur ≢ init → IsFamily init f → IsFamily init (adopt i cur f)
  unfolding adopt
  IsFamily-adopt i cur {f} other h = elim (Bool-cases (is_parent (f i).parent cur)) [
    | inl e ↦ rw e (elim (Bool-cases (is_zombie (f i).state)) [
      | inl z ↦ rw z (IsFamily-Mild init (λ j. (wakeup1-Quiet (on_proc init) f1 j).mild) (moved e))
      | inr z ↦ rw z (moved e)
    ])
    | inr e ↦ rw e h
  ]
    where
      f1 : ℕ → Proc
      f1 = update f i (record (f i) { parent = some init })

      heir :
          (q : ℕ)
          → i ≢ init
          → ◌≡◌ {A = Option ℕ} (some init) (some q)
          → (is_live (f q).state ≡ true) × (q ≢ i)
      heir q not_init s =
          let same : init ≡ q = ground arith in
          (ap (λ k. is_live (f k).state) (sym same) ∙ h.init_live, λ d. not_init (sym d ∙ sym same))

      moved : is_parent (f i).parent cur ≡ true → IsFamily init f1
      moved e =
          let child : (f i).parent ≡ some cur = is_parent_lem (f i).parent cur e in
          let not_init : i ≢ init =
            λ same. cc (sym (ap (λ k. (f k).parent) same) ∙ child, h.init_root) in
          let used : is_unused (f i).state ≢ true = λ u. cc (h.free i u, child) in
          IsFamily-update init i (record (f i) { parent = some init }) h
            (below_nproc f i (h.within i) used) (λ l. l) (λ same. absurd (not_init same))
            (λ q s. heir q not_init s) (λ u. absurd (used u)) (λ _. inr (init, refl))

  adopt-live :
      (i cur : ℕ) (f : ℕ → Proc) (j : ℕ) → is_live (adopt i cur f j).state ≡ is_live (f j).state
  unfolding adopt
  adopt-live i cur f j = elim (Bool-cases (is_parent (f i).parent cur)) [
    | inl e ↦ rw e (elim (Bool-cases (is_zombie (f i).state)) [
      | inl z ↦ rw z ((wakeup1-Quiet (on_proc init) f1 j).mild.live ∙ moved)
      | inr z ↦ rw z moved
    ])
    | inr e ↦ rw e refl
  ]
    where
      f1 : ℕ → Proc
      f1 = update f i (record (f i) { parent = some init })

      moved : is_live (f1 j).state ≡ is_live (f j).state
      moved = elim (Bool-cases (i == j)) [
        | inl e ↦ let same : i ≡ j = ground arith in rw e (ap (λ k. is_live (f k).state) same)
        | inr e ↦ rw e refl
      ]

  pub adopt-parent :
      (i cur : ℕ) (f : ℕ → Proc) (j : ℕ)
      → (adopt i cur f j).parent
        ≡ (if i == j && is_parent (f i).parent cur then some init else (f j).parent)
  unfolding adopt
  adopt-parent i cur f j = elim (Bool-cases (is_parent (f i).parent cur)) [
    | inl e ↦ rw e (elim (Bool-cases (is_zombie (f i).state)) [
      | inl z ↦ rw z ((wakeup1-Quiet (on_proc init) f1 j).mild.parent ∙ moved)
      | inr z ↦ rw z moved
    ])
    | inr e ↦ rw e (elim (Bool-cases (i == j)) [ inl s ↦ rw s refl | inr s ↦ rw s refl ])
  ]
    where
      f1 : ℕ → Proc
      f1 = update f i (record (f i) { parent = some init })

      moved : (f1 j).parent ≡ (if i == j && true then some init else (f j).parent)
      moved = elim (Bool-cases (i == j)) [ inl e ↦ rw e refl | inr e ↦ rw e refl ]

  reparent-IsFamily :
      (k i cur : ℕ) {f : ℕ → Proc}
      → cur ≢ init
      → IsFamily init f
      → IsFamily init (reparent k i cur init f)
  unfolding reparent adopt
  reparent-IsFamily zero i cur other h = h
  reparent-IsFamily (suc k) i cur other h =
      reparent-IsFamily k (i + 1) cur other (IsFamily-adopt i cur other h)

  reparent-live :
      (k i cur : ℕ) (f : ℕ → Proc) (j : ℕ)
      → is_live (reparent k i cur init f j).state ≡ is_live (f j).state
  unfolding reparent adopt
  reparent-live zero i cur f j = refl
  reparent-live (suc k) i cur f j =
      reparent-live k (i + 1) cur (adopt i cur f) j ∙ adopt-live i cur f j

  -- After the loop no process has the parent that exits.
  reparent-childless :
      (k i cur : ℕ) (f : ℕ → Proc) (j : ℕ)
      → cur ≢ init
      → ((f j).parent ≢ some cur) ⊎ ((i ≤ j) × (j < i + k))
      → (reparent k i cur init f j).parent ≢ some cur
  unfolding reparent adopt
  reparent-childless zero i cur f j other h = elim h [ inl n ↦ n | inr r ↦ absurd (omega arith) ]
  reparent-childless (suc k) i cur f j other h =
      reparent-childless k (i + 1) cur (adopt i cur f) j other (next h)
    where
      same_parent : ◌≡◌ {A = Option ℕ} (some init) (some cur) → init ≡ cur
      same_parent s = ground arith

      self : (cur == cur) ≡ true
      self = ground arith

      next :
          ((f j).parent ≢ some cur) ⊎ ((i ≤ j) × (j < i + suc k))
          → ((adopt i cur f j).parent ≢ some cur) ⊎ ((i + 1 ≤ j) × (j < i + 1 + k))
      next c = elim (Bool-cases (i == j)) [
        | inl e ↦ elim (Bool-cases (is_parent (f i).parent cur)) [
          | inl q ↦
              inl
                (λ s. other (sym (same_parent (sym (adopt-parent i cur f j ∙ rw (e, q) refl) ∙ s))))
          | inr q ↦ inl (λ s.
              let at : i ≡ j = ground arith in
              let mine : (f i).parent ≡ some cur =
                ap (λ k. (f k).parent) at ∙ sym (adopt-parent i cur f j ∙ rw (e, q) refl) ∙ s in
              absurd (cc (sym q ∙ ap (λ o. is_parent o cur) mine ∙ self)))
        ]
        | inr e ↦
            let kept : (adopt i cur f j).parent ≡ (f j).parent =
              adopt-parent i cur f j ∙ rw e refl in
            elim c [ inl n ↦ inl (λ s. n (sym kept ∙ s)) | inr r ↦ inr (ground arith) ]
      ]

pub exit-IsFamily :
    (cur : ℕ) (t u : Ptable)
    → IsFamily t.initproc t.procs
    → (t.procs cur).state ≡ State.running
    → exit cur t ≡ some u
    → IsFamily u.initproc u.procs
unfolding exit
exit-IsFamily cur t u h r x = elim (Bool-cases (cur == t.initproc)) [
  | inl e ↦ absurd (cc (rw e at x))
  | inr e ↦
      let other : cur ≢ t.initproc = ground arith in
      subst (λ (o : Option Ptable). FamilyOf o) (rw e at x) (left other)
]
  where
    FamilyOf : Option Ptable → Type 0
    FamilyOf none = ⊥
    FamilyOf (some v) = IsFamily v.initproc v.procs

    f1 : ℕ → Proc
    f1 = wakeup1 (parent_channel (t.procs cur).parent) t.procs

    f2 : ℕ → Proc
    f2 = reparent nproc 0 cur t.initproc f1

    range :
        (j : ℕ) → IsFamily t.initproc f1 → ((f1 j).parent ≢ some cur) ⊎ ((0 ≤ j) × (j < 0 + nproc))
    range j h1 = elim (Bool-cases (ltb j nproc)) [
      | inl e ↦ inr (ground arith)
      | inr e ↦
          let orphan : (f1 j).parent ≡ none = h1.free j (h1.within j (ground arith)) in
          inl (λ s. cc (sym orphan ∙ s))
    ]

    left :
        cur ≢ t.initproc
        → IsFamily t.initproc (update f2 cur (record (f2 cur) { state = State.zombie }))
    left other =
        let h1 =
          IsFamily-Mild t.initproc
            (λ j. (wakeup1-Quiet (parent_channel (t.procs cur).parent) t.procs j).mild) h in
        let h2 = reparent-IsFamily t.initproc nproc 0 cur other h1 in
        IsFamily-zombie t.initproc cur h2
          (reparent-live t.initproc nproc 0 cur f1 cur
            ∙ (wakeup1-Quiet (parent_channel (t.procs cur).parent) t.procs cur).mild.live
            ∙ ap is_live r)
          other (λ j. reparent-childless t.initproc nproc 0 cur f1 j other (range j h1))

-- What `exit` leaves of the table, where it does not panic.
pub exit-table :
    (cur : ℕ) (t u : Ptable)
    → exit cur t ≡ some u
    → (cur ≢ t.initproc)
      × (u
          ≡ let f2 =
              reparent nproc 0 cur t.initproc
                (wakeup1 (parent_channel (t.procs cur).parent) t.procs) in
            record t { procs = update f2 cur (record (f2 cur) { state = State.zombie }) })
unfolding exit
exit-table cur t u x = elim (Bool-cases (cur == t.initproc)) [
  | inl e ↦ absurd (cc (rw e at x))
  | inr e ↦ (ground arith, sym (ap (λ (o : Option Ptable). table_or o t) (rw e at x)))
]
  where
    table_or : Option Ptable → Ptable → Ptable
    table_or none v = v
    table_or (some v) w = v
