-- ===== src/Log/Several.antt =====
-- kern/log.c: the `log_write`s that one call makes, one after the other.
use openproninx.Base.{
  ℕ, ◌+◌, ◌≤◌, ◌≡◌, inl, inr, refl, ap, ◌∙◌, sym, subst, Bool, true, false, Bool-cases, ◌||◌,
  Option, none, some, List, [], ◌∷◌, arith, length, get_elem?, get_elem?-lt, leb, ◌==◌,
  if◌then◌else◌, test_eq, eq_test,
}
use openproninx.Log.{log_size}
use openproninx.Log.Ops.{
  Log, Outcome, is_negative, log_write, refuses, enter, IsEntry, enter-count, enter-IsEntry,
  enter-others,
}
use openproninx.Log.Calls.{op_blocks, logged, note, reserve-get}
use openproninx.Log.Space.{System, IsReserved}

-- `log_write` for each block of a list, the last one first; nothing where one of them panics.
unfoldable pub log_all : Log → List ℕ → Option Log
log_all l [] = some l
log_all l (b ∷ bs) = elim (log_all l bs) [
  | none ↦ none
  | some l' ↦ elim (log_write l' b) [
    | Outcome.done l'' w ↦ some l''
    | Outcome.sleeps ↦ none
    | Outcome.panics ↦ none
  ]
]

-- The different blocks of a list.
abbrev notes : List ℕ → List ℕ
notes [] = []
notes (b ∷ bs) = note (notes bs) b

-- A list without the first of its elements that is `b`.
abbrev without : ℕ → List ℕ → List ℕ
without b [] = []
without b (x ∷ xs) = if x == b then xs else x ∷ without b xs

length-without : (b : ℕ) (xs : List ℕ) → logged b xs ≡ true → length (without b xs) + 1 ≡ length xs
length-without b [] h = absurd (cc h)
length-without b (x ∷ xs) h = elim (Bool-cases (x == b)) [
  | inl e ↦ rw e (omega arith)
  | inr e ↦ rw e (omega (arith, length-without b xs (rw e at h)))
]

logged-without :
    (b k : ℕ) (xs : List ℕ) → (b == k) ≡ false → logged k xs ≡ true → logged k (without b xs) ≡ true
logged-without b k [] ne h = h
logged-without b k (x ∷ xs) ne h = elim (Bool-cases (x == b)) [
  | inl e ↦ let same = test_eq e in rw e (ground (arith, same, ne, h))
  | inr e ↦ rw e (ground (arith, h, logged-without b k xs ne))
]

logged-notes : (k : ℕ) (bs : List ℕ) → logged k bs ≡ logged k (notes bs)
logged-notes k [] = refl
logged-notes k (b ∷ bs) = elim (Bool-cases (logged b (notes bs))) [
  | inl e ↦ elim (Bool-cases (b == k)) [
    | inl q ↦ rw (e, q) (sym (subst (λ k. logged k (notes bs) ≡ true) (test_eq q) e))
    | inr q ↦ rw (e, q) (logged-notes k bs)
  ]
  | inr e ↦ rw e (ap (λ r. b == k || r) (logged-notes k bs))
]

-- There are no more of them than a list has elements that contains them.
notes-le :
    (bs xs : List ℕ)
    → ((k : ℕ) → logged k bs ≡ true → logged k xs ≡ true)
    → length (notes bs) ≤ length xs
notes-le [] xs h = omega arith
notes-le (b ∷ bs) xs h = elim (Bool-cases (logged b (notes bs))) [
  | inl e ↦ rw e (notes-le bs xs (λ k w. h k (or_true (b == k) w)))
  | inr e ↦
      let shorter = length-without b xs (h b (rw (eq_test {a = b} refl) refl)) in
      let others : (k : ℕ) → logged k bs ≡ true → logged k (without b xs) ≡ true =
        λ k w. logged-without b k xs (apart k e w) (h k (or_true (b == k) w)) in
      rw e (omega (arith, shorter, notes-le bs (without b xs) others))
]
  where
    or_true : (a : Bool) {c : Bool} → c ≡ true → a || c ≡ true
    or_true true h = refl
    or_true false h = h

    apart : (k : ℕ) → logged b (notes bs) ≡ false → logged k bs ≡ true → (b == k) ≡ false
    apart k e w = elim (Bool-cases (b == k)) [
      | inr q ↦ q
      | inl q ↦
          absurd (cc (sym e ∙ sym (logged-notes b bs) ∙ ap (λ k. logged k bs) (test_eq q) ∙ w))
    ]

-- What the `log_write`s leave: each block has an entry, and one entry at most was added for each of the
-- different ones.
record Logged (l l' : Log) (bs : List ℕ) : Type 0 where
  size : l'.size ≡ l.size
  outstanding : l'.outstanding ≡ l.outstanding
  readonly : l'.readonly ≡ l.readonly
  slots : length l'.lh.block ≡ length l.lh.block
  count : l'.lh.n ≤ l.lh.n + length (notes bs)
  entries : (k : ℕ) → logged k bs ≡ true → IsEntry l'.lh k

-- A log at which a running call has room for so many entries.
record HasRoom (l : Log) (n : ℕ) : Type 0 where
  active : l.readonly ≡ false
  running : (l.outstanding == 0 || is_negative l.outstanding) ≡ false
  slots : length l.lh.block ≡ log_size
  enough : log_size ≤ l.size
  room : l.lh.n + n + 2 ≤ log_size

-- One more `log_write` passes the tests.
enter-Logged :
    (l l' : Log) (b : ℕ) (bs : List ℕ)
    → HasRoom l (length (notes bs))
    → Logged l l' bs
    → (refuses l' ≡ false) × Logged l (enter l' b) (b ∷ bs)
unfolding refuses
enter-Logged l l' b bs r g =
    let (size', outstanding', committing', readonly', slots') = enter-others l' b in
    let (most, kept) = enter-count l' b in
    let room' : l'.lh.n + 2 ≤ log_size = omega (arith, r.room, g.count) in
    let enough' : log_size ≤ l'.size = omega (arith, r.enough, g.size) in
    let active' : l'.readonly ≡ false = g.readonly ∙ r.active in
    let few : (leb log_size l'.lh.n || leb l'.size (l'.lh.n + 1)) ≡ false =
      ground (arith, room', enough') in
    let running' : (l'.outstanding == 0 || is_negative l'.outstanding) ≡ false =
      ap (λ n. n == 0 || is_negative n) g.outstanding ∙ r.running in
    (
      rw (active', few, running') refl,
      record {
        size = size' ∙ g.size;
        outstanding = outstanding' ∙ g.outstanding;
        readonly = readonly' ∙ g.readonly;
        slots = slots' ∙ g.slots;
        count = elim (Bool-cases (logged b (notes bs))) [
          | inl e ↦
              let same = kept (g.entries b (logged-notes b bs ∙ e)) in
              rw e (omega (arith, same, g.count))
          | inr e ↦ rw e (omega (arith, most, g.count))
        ];
        entries = λ k w.
            enter-IsEntry l' b k (omega (arith, room', g.slots, r.slots))
              (elim (Bool-cases (b == k)) [
                | inl q ↦ inr (sym (test_eq q))
                | inr q ↦ inl (g.entries k (rw q at w))
              ]);
      },
    )

notes-grow : (b : ℕ) (bs : List ℕ) → length (notes bs) ≤ length (notes (b ∷ bs))
notes-grow b bs = elim (Bool-cases (logged b (notes bs))) [
  | inl e ↦ rw e (omega arith)
  | inr e ↦ rw e (omega arith)
]

HasRoom-fewer : {l : Log} {n m : ℕ} → m ≤ n → HasRoom l n → HasRoom l m
HasRoom-fewer h r = record {
  active = r.active;
  running = r.running;
  slots = r.slots;
  enough = r.enough;
  room = omega (arith, r.room, h);
}

log_all-Logged :
    (l : Log) (bs : List ℕ)
    → HasRoom l (length (notes bs))
    → (l' : Log) × (log_all l bs ≡ some l') × Logged l l' bs
unfolding log_all log_write
log_all-Logged l [] r = (
  l,
  refl,
  record {
    size = refl;
    outstanding = refl;
    readonly = refl;
    slots = refl;
    count = omega arith;
    entries = λ k h. absurd (cc h);
  },
)
log_all-Logged l (b ∷ bs) r =
    let r' = HasRoom-fewer (notes-grow b bs) r in
    let (l', e, g) = log_all-Logged l bs r' in
    let (fine, g') = enter-Logged l l' b bs r' g in (enter l' b, rw (e, fine) refl, g')

-- A call that has logged nothing yet may log any blocks of which at most nine are different.
pub log_all-some :
    (s : System) (i : ℕ) (bs xs : List ℕ)
    → IsReserved s
    → get_elem? s.used i ≡ some []
    → length xs ≤ op_blocks
    → ((k : ℕ) → logged k bs ≡ true → logged k xs ≡ true)
    → (l : Log) × (log_all s.log bs ≡ some l) × ((k : ℕ) → logged k bs ≡ true → IsEntry l.lh k)
log_all-some s i bs xs v e few inside =
    let lt = get_elem?-lt s.used i e in
    let free = reserve-get s.used i e in
    let fits = notes-le bs xs inside in
    let running' : (s.log.outstanding == 0 || is_negative s.log.outstanding) ≡ false =
      ground (arith, v.counted, v.few, lt) in
    let (l, q, g) = log_all-Logged s.log bs (record {
      active = v.active;
      running = running';
      slots = v.slots;
      enough = v.enough;
      room = omega (arith, v.room, free, fits, few);
    }) in
    (l, q, g.entries)
