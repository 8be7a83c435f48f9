-- ===== src/Proc/Orphans.antt =====
-- kern/proc.c: parents and children, and what `fork`, `exit` and `waitpid` make of them.
use openproninx.Base.{
  ℕ, ◌≤◌, ◌<◌, ◌≡◌, ◌≢◌, ◌⊎◌, inl, inr, refl, ap, ◌∙◌, sym, subst, true, false, ◌||◌, Bool-cases,
  none, some, arith, ◌==◌, ltb,
}
use openproninx.Proc.{State, is_unused, is_zombie, Proc, nproc, update}
use openproninx.Proc.Family.{is_live, Mild}

pub live-used : (s : State) → is_live s ≡ true → is_unused s ≢ true
live-used State.unused h e = absurd (ground arith)
live-used State.embryo h e = absurd (ground arith)
live-used State.sleeping h e = absurd (ground arith)
live-used State.runnable h e = absurd (ground arith)
live-used State.running h e = absurd (ground arith)
live-used State.zombie h e = absurd (ground arith)

pub below_nproc :
    (f : ℕ → Proc) (i : ℕ)
    → (nproc ≤ i → is_unused (f i).state ≡ true)
    → is_unused (f i).state ≢ true
    → i < nproc
below_nproc f i w n = elim (Bool-cases (ltb i nproc)) [
  | inl e ↦ ground arith
  | inr e ↦ absurd (n (w (ground arith)))
]

module _ (init : ℕ) where
  -- Each process that is neither free nor new has a live parent, but for `initproc`, which lives.
  pub record IsFamily (f : ℕ → Proc) : Type 0 where
    pub init_live : is_live (f init).state ≡ true
    pub init_root : (f init).parent ≡ none
    pub known : (i q : ℕ) → (f i).parent ≡ some q → (is_live (f q).state ≡ true) × (q ≢ i)
    pub free : (i : ℕ) → is_unused (f i).state ≡ true → (f i).parent ≡ none
    pub adopted :
        (i : ℕ)
        → is_live (f i).state || is_zombie (f i).state ≡ true
        → (i ≡ init) ⊎ ((q : ℕ) × ((f i).parent ≡ some q))
    pub within : (i : ℕ) → nproc ≤ i → is_unused (f i).state ≡ true

  pub IsFamily-Mild : {f g : ℕ → Proc} → ((i : ℕ) → Mild (f i) (g i)) → IsFamily f → IsFamily g
  IsFamily-Mild {f} {g} m h = record {
    init_live = (m init).live ∙ h.init_live;
    init_root = (m init).parent ∙ h.init_root;
    known = λ i q e. let (l, n) = h.known i q (sym (m i).parent ∙ e) in ((m q).live ∙ l, n);
    free = λ i e. (m i).parent ∙ h.free i (sym (m i).free ∙ e);
    adopted = λ i e. still i (h.adopted i (grown i e));
    within = λ i le. (m i).free ∙ h.within i le;
  }
    where
      grown :
          (i : ℕ)
          → is_live (g i).state || is_zombie (g i).state ≡ true
          → is_live (f i).state || is_zombie (f i).state ≡ true
      grown i e = rw (sym (m i).live, sym (m i).dead) e

      still :
          (i : ℕ)
          → (i ≡ init) ⊎ ((q : ℕ) × ((f i).parent ≡ some q))
          → (i ≡ init) ⊎ ((q : ℕ) × ((g i).parent ≡ some q))
      still i (inl e) = inl e
      still i (inr (q, e)) = inr (q, (m i).parent ∙ e)

  -- One entry that keeps its life, if it has one.
  pub IsFamily-update :
      {f : ℕ → Proc} (i : ℕ) (p : Proc)
      → IsFamily f
      → i < nproc
      → (is_live (f i).state ≡ true → is_live p.state ≡ true)
      → (i ≡ init → p.parent ≡ none)
      → ((q : ℕ) → p.parent ≡ some q → (is_live (f q).state ≡ true) × (q ≢ i))
      → (is_unused p.state ≡ true → p.parent ≡ none)
      → (is_live p.state || is_zombie p.state ≡ true → (i ≡ init) ⊎ ((q : ℕ) × (p.parent ≡ some q)))
      → IsFamily (update f i p)
  IsFamily-update {f} i p h lt keeps root parent unused grown = record {
    init_live = live_at init h.init_live;
    init_root = root_at;
    known = known_at;
    free = free_at;
    adopted = adopted_at;
    within = within_at;
  }
    where
      live_at : (q : ℕ) → is_live (f q).state ≡ true → is_live (update f i p q).state ≡ true
      live_at q l = elim (Bool-cases (i == q)) [
        | inl e ↦
            let same : q ≡ i = ground arith in
            rw e (keeps (ap (λ k. is_live (f k).state) (sym same) ∙ l))
        | inr e ↦ rw e l
      ]

      root_at : (update f i p init).parent ≡ none
      root_at = elim (Bool-cases (i == init)) [
        | inl e ↦ rw e (root (ground arith))
        | inr e ↦ rw e h.init_root
      ]

      known_at :
          (j q : ℕ)
          → (update f i p j).parent ≡ some q
          → (is_live (update f i p q).state ≡ true) × (q ≢ j)
      known_at j q = elim (Bool-cases (i == j)) [
        | inl e ↦
            let same : i ≡ j = ground arith in
            rw e (λ s. (live_at q (parent q s).0, λ d. (parent q s).1 (d ∙ sym same)))
        | inr e ↦ rw e (λ s. (live_at q (h.known j q s).0, (h.known j q s).1))
      ]

      free_at : (j : ℕ) → is_unused (update f i p j).state ≡ true → (update f i p j).parent ≡ none
      free_at j = elim (Bool-cases (i == j)) [ inl e ↦ rw e unused | inr e ↦ rw e (h.free j) ]

      adopted_at :
          (j : ℕ)
          → is_live (update f i p j).state || is_zombie (update f i p j).state ≡ true
          → (j ≡ init) ⊎ ((q : ℕ) × ((update f i p j).parent ≡ some q))
      adopted_at j = elim (Bool-cases (i == j)) [
        | inl e ↦
            let same : j ≡ i = ground arith in
            rw e
              (λ s. subst (λ k. (k ≡ init) ⊎ ((q : ℕ) × (p.parent ≡ some q))) (sym same) (grown s))
        | inr e ↦ rw e (h.adopted j)
      ]

      within_at : (j : ℕ) → nproc ≤ j → is_unused (update f i p j).state ≡ true
      within_at j le = let e : (i == j) ≡ false = ground arith in rw e (h.within j le)

  -- The end of `exit`, once no child is left.
  pub IsFamily-zombie :
      {f : ℕ → Proc} (cur : ℕ)
      → IsFamily f
      → is_live (f cur).state ≡ true
      → cur ≢ init
      → ((j : ℕ) → (f j).parent ≢ some cur)
      → IsFamily (update f cur (record (f cur) { state = State.zombie }))
  IsFamily-zombie {f} cur h live other childless = record {
    init_live = let e : (cur == init) ≡ false = ground arith in rw e h.init_live;
    init_root = let e : (cur == init) ≡ false = ground arith in rw e h.init_root;
    known = λ j q s. known_at j q (same_parent j ∙ s);
    free = free_at;
    adopted = adopted_at;
    within = within_at;
  }
    where
      g : ℕ → Proc
      g = update f cur (record (f cur) { state = State.zombie })

      same_parent : (j : ℕ) → (f j).parent ≡ (g j).parent
      same_parent j = elim (Bool-cases (cur == j)) [
        | inl e ↦ let same : j ≡ cur = ground arith in rw e (ap (λ k. (f k).parent) same)
        | inr e ↦ rw e refl
      ]

      known_at : (j q : ℕ) → (f j).parent ≡ some q → (is_live (g q).state ≡ true) × (q ≢ j)
      known_at j q s = elim (Bool-cases (cur == q)) [
        | inl e ↦
            let same : q ≡ cur = ground arith in absurd (childless j (s ∙ ap (λ k. some k) same))
        | inr e ↦ rw e (h.known j q s)
      ]

      free_at : (j : ℕ) → is_unused (g j).state ≡ true → (g j).parent ≡ none
      free_at j = elim (Bool-cases (cur == j)) [
        | inl e ↦ rw e (λ s. absurd (cc s))
        | inr e ↦ rw e (h.free j)
      ]

      adopted_at :
          (j : ℕ)
          → is_live (g j).state || is_zombie (g j).state ≡ true
          → (j ≡ init) ⊎ ((q : ℕ) × ((g j).parent ≡ some q))
      adopted_at j = elim (Bool-cases (cur == j)) [
        | inl e ↦
            let same : cur ≡ j = ground arith in
            rw e (λ _.
              subst (λ k. (k ≡ init) ⊎ ((q : ℕ) × ((f cur).parent ≡ some q))) same
                (h.adopted cur (rw live refl)))
        | inr e ↦ rw e (h.adopted j)
      ]

      within_at : (j : ℕ) → nproc ≤ j → is_unused (g j).state ≡ true
      within_at j le = elim (Bool-cases (cur == j)) [
        | inl e ↦
            let same : j ≡ cur = ground arith in
            absurd (
              live-used (f cur).state live
                (ap (λ k. is_unused (f k).state) (sym same) ∙ h.within j le))
        | inr e ↦ rw e (h.within j le)
      ]
