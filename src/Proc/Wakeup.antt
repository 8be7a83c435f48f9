-- ===== src/Proc/Wakeup.antt =====
-- kern/proc.c: a parent that sleeps in `waitpid` misses no child that dies.
use openproninx.Base.{
  ℕ, zero, suc, ◌+◌, ◌≡◌, ◌≢◌, ◌⊎◌, inl, inr, refl, ap, ◌∙◌, sym, subst, Bool, true, false, ◌&&◌,
  Bool-cases, Option, some, arith, ◌==◌, if◌then◌else◌,
}
use openproninx.Proc.{
  State, is_zombie, on_proc, Proc, is_parent, update, wakeup1, reparent, is_child,
}
use openproninx.Proc.Family.{Quiet, Quiet-refl, wakeup1-Quiet, wakeup1-awake}
use openproninx.Proc.Exit.{adopt, adopt-parent, is_parent_lem}

-- `p` sleeps on itself only where none of the children it looks for is a zombie.
pub record IsWaiting (p target : ℕ) (f : ℕ → Proc) : Type 0 where
  pub channel : (f p).state ≡ State.sleeping → (f p).chan ≡ on_proc p
  pub clean :
      (f p).state ≡ State.sleeping
      → (j : ℕ) → is_child (f j) p target ≡ true
      → is_zombie (f j).state ≡ false

-- A change that neither puts `p` to sleep nor makes a zombie of a child.
pub record Harmless (p target : ℕ) (f g : ℕ → Proc) : Type 0 where
  pub asleep :
      (g p).state ≡ State.sleeping → ((f p).state ≡ State.sleeping) × ((g p).chan ≡ (f p).chan)
  pub stays :
      (j : ℕ)
      → is_child (g j) p target ≡ true
      → (is_zombie (g j).state ≡ false)
        ⊎ ((is_child (f j) p target ≡ true) × (is_zombie (g j).state ≡ is_zombie (f j).state))

module _ (p target : ℕ) where
  pub IsWaiting-Harmless :
      {f g : ℕ → Proc} → Harmless p target f g → IsWaiting p target f → IsWaiting p target g
  IsWaiting-Harmless h w = record {
    channel = λ s. (h.asleep s).1 ∙ w.channel (h.asleep s).0;
    clean =
        λ s j c. elim (h.stays j c) [ inl z ↦ z | inr (c', z) ↦ z ∙ w.clean (h.asleep s).0 j c' ];
  }

  pub Quiet-Harmless : {f g : ℕ → Proc} → ((j : ℕ) → Quiet (f j) (g j)) → Harmless p target f g
  Quiet-Harmless {f} {g} q = record {
    asleep = (q p).asleep;
    stays = λ j c. inr (same j c, (q j).mild.dead);
  }
    where
      same : (j : ℕ) → is_child (g j) p target ≡ true → is_child (f j) p target ≡ true
      same j c = rw (sym (q j).mild.parent, sym (q j).mild.pid) c

  pub update-Harmless :
      (f : ℕ → Proc) (i : ℕ) (q : Proc)
      → (i ≡ p → q.state ≢ State.sleeping)
      → is_zombie q.state ≡ false
      → Harmless p target f (update f i q)
  update-Harmless f i q awake z = record {
    asleep = elim (Bool-cases (i == p)) [
      | inl e ↦ rw e (λ s. absurd (awake (ground arith) s))
      | inr e ↦ rw e (λ s. (s, refl))
    ];
    stays = λ j. elim (Bool-cases (i == j)) [
      | inl e ↦ rw e (λ _. inl z)
      | inr e ↦ rw e (λ c. inr (c, refl))
    ];
  }

-- The child with the channel of its parent.
pub is_child-parent : (q : Proc) (p target : ℕ) → is_child q p target ≡ true → q.parent ≡ some p
is_child-parent q p target h = is_parent_lem q.parent p (both (is_parent q.parent p) _ h)
  where
    both : (a b : Bool) → a && b ≡ true → a ≡ true
    both true b h = refl
    both false b h = h

module _ (p target init cur : ℕ) where
  adopt-asleep :
      (i : ℕ) (f : ℕ → Proc)
      → (adopt init i cur f p).state ≡ State.sleeping
      → ((f p).state ≡ State.sleeping) × ((adopt init i cur f p).chan ≡ (f p).chan)
  unfolding adopt
  adopt-asleep i f = elim (Bool-cases (is_parent (f i).parent cur)) [
    | inl e ↦ rw e (elim (Bool-cases (is_zombie (f i).state)) [
      | inl z ↦ rw z (λ s.
          let (s1, c1) = (wakeup1-Quiet (on_proc init) f1 p).asleep s in
          let (s2, c2) = moved s1 in (s2, c1 ∙ c2))
      | inr z ↦ rw z moved
    ])
    | inr e ↦ rw e (λ s. (s, refl))
  ]
    where
      f1 : ℕ → Proc
      f1 = update f i (record (f i) { parent = some init })

      moved :
          (f1 p).state ≡ State.sleeping
          → ((f p).state ≡ State.sleeping) × ((f1 p).chan ≡ (f p).chan)
      moved = elim (Bool-cases (i == p)) [
        | inl e ↦
            let same : i ≡ p = ground arith in
            rw e (λ s. (ap (λ k. (f k).state) (sym same) ∙ s, ap (λ k. (f k).chan) same))
        | inr e ↦ rw e (λ s. (s, refl))
      ]

  adopt-other :
      (i : ℕ) (f : ℕ → Proc) (j : ℕ) → (i == j) ≡ false → Quiet (f j) (adopt init i cur f j)
  unfolding adopt
  adopt-other i f j n = elim (Bool-cases (is_parent (f i).parent cur)) [
    | inl e ↦ rw e (elim (Bool-cases (is_zombie (f i).state)) [
      | inl z ↦ rw z (
          subst (λ q. Quiet q (wakeup1 (on_proc init) f1 j)) same
            (wakeup1-Quiet (on_proc init) f1 j))
      | inr z ↦ rw z (subst (λ q. Quiet (f j) q) (sym same) (Quiet-refl (f j)))
    ])
    | inr e ↦ rw e (Quiet-refl (f j))
  ]
    where
      f1 : ℕ → Proc
      f1 = update f i (record (f i) { parent = some init })

      same : f1 j ≡ f j
      same = rw n refl

  -- The zombie that a round gives to `initproc`.
  adopt-zombie :
      (i : ℕ) (f : ℕ → Proc)
      → ((f p).state ≡ State.sleeping → (f p).chan ≡ on_proc p)
      → is_parent (f i).parent cur ≡ true
      → is_zombie (f i).state ≡ true
      → is_child (adopt init i cur f i) p target ≡ true
      → (adopt init i cur f p).state ≢ State.sleeping
  unfolding adopt
  adopt-zombie i f channel e z c s =
      wakeup1-awake p f1 (same_chan ∙ channel (adopt-asleep i f s).0)
        (ap (λ (g : ℕ → Proc). (g p).state) (sym round) ∙ s)
    where
      f1 : ℕ → Proc
      f1 = update f i (record (f i) { parent = some init })

      self : (i == i) ≡ true
      self = ground arith

      same_chan : (f1 p).chan ≡ (f p).chan
      same_chan = elim (Bool-cases (i == p)) [
        | inl n ↦ let same : i ≡ p = ground arith in rw n (ap (λ k. (f k).chan) same)
        | inr n ↦ rw n refl
      ]

      heir : init ≡ p
      heir =
          let same : ◌≡◌ {A = Option ℕ} (some init) (some p) =
            sym (adopt-parent init i cur f i ∙ rw (self, e) refl)
            ∙ is_child-parent (adopt init i cur f i) p target c in
          ground arith

      round : adopt init i cur f ≡ wakeup1 (on_proc p) f1
      round = rw (e, z) (ap (λ k. wakeup1 (on_proc k) f1) heir)

  -- A round of the loop of `exit`: `initproc` is woken where it gets a zombie.
  adopt-IsWaiting :
      (i : ℕ) (f : ℕ → Proc) → IsWaiting p target f → IsWaiting p target (adopt init i cur f)
  unfolding adopt
  adopt-IsWaiting i f w = record {
    channel = λ s. (adopt-asleep i f s).1 ∙ w.channel (adopt-asleep i f s).0;
    clean = clean_at;
  }
    where
      mine :
          (adopt init i cur f p).state ≡ State.sleeping
          → is_child (adopt init i cur f i) p target ≡ true
          → is_zombie (adopt init i cur f i).state ≡ false
      mine s c = elim (Bool-cases (is_parent (f i).parent cur)) [
        | inl e ↦ elim (Bool-cases (is_zombie (f i).state)) [
          | inl z ↦ absurd (adopt-zombie i f w.channel e z c s)
          | inr z ↦ let self : (i == i) ≡ true = ground arith in rw (e, z, self) z
        ]
        | inr e ↦ rw e (w.clean (adopt-asleep i f s).0 i (rw e at c))
      ]

      clean_at :
          (adopt init i cur f p).state ≡ State.sleeping
          → (j : ℕ) → is_child (adopt init i cur f j) p target ≡ true
          → is_zombie (adopt init i cur f j).state ≡ false
      clean_at s j = elim (Bool-cases (i == j)) [
        | inl n ↦
            let same : i ≡ j = ground arith in
            subst
              (λ k.
                is_child (adopt init i cur f k) p target ≡ true
                → is_zombie (adopt init i cur f k).state ≡ false)
              same (mine s)
        | inr n ↦ λ c.
            let q = adopt-other i f j n in
            q.mild.dead
            ∙ w.clean (adopt-asleep i f s).0 j (rw (sym q.mild.parent, sym q.mild.pid) c)
      ]

  pub reparent-IsWaiting :
      (k i : ℕ) (f : ℕ → Proc) → IsWaiting p target f → IsWaiting p target (reparent k i cur init f)
  unfolding reparent adopt
  reparent-IsWaiting zero i f w = w
  reparent-IsWaiting (suc k) i f w =
      reparent-IsWaiting k (i + 1) (adopt init i cur f) (adopt-IsWaiting i f w)

  pub reparent-asleep :
      (k i : ℕ) (f : ℕ → Proc)
      → (reparent k i cur init f p).state ≡ State.sleeping
      → (f p).state ≡ State.sleeping
  unfolding reparent adopt
  reparent-asleep zero i f s = s
  reparent-asleep (suc k) i f s =
      (adopt-asleep i f (reparent-asleep k (i + 1) (adopt init i cur f) s)).0

  -- A process that is not its own parent keeps its parent in its own `exit`.
  pub reparent-parent :
      (k i : ℕ) (f : ℕ → Proc)
      → is_parent (f cur).parent cur ≡ false
      → (reparent k i cur init f cur).parent ≡ (f cur).parent
  unfolding reparent adopt
  reparent-parent zero i f n = refl
  reparent-parent (suc k) i f n =
      reparent-parent k (i + 1) (adopt init i cur f) (ap (λ o. is_parent o cur) same ∙ n) ∙ same
    where
      same : (adopt init i cur f cur).parent ≡ (f cur).parent
      same = adopt-parent init i cur f cur ∙ kept
        where
          kept :
              (if i == cur && is_parent (f i).parent cur then some init else (f cur).parent)
              ≡ (f cur).parent
          kept = elim (Bool-cases (i == cur)) [
            | inl e ↦
                let at : i ≡ cur = ground arith in
                let no : is_parent (f i).parent cur ≡ false =
                  ap (λ k. is_parent (f k).parent cur) at ∙ n in
                rw (e, no) refl
            | inr e ↦ rw e refl
          ]
