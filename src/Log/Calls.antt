-- ===== src/Log/Calls.antt =====
-- kern/log.c: the blocks that the running system calls have logged, and those they may still log.
use openproninx.Base.{
  ℕ, zero, suc, ◌+◌, ◌-◌, ◌*◌, ◌≤◌, ◌<◌, ◌≡◌, ◌⊎◌, inl, inr, refl, Bool, true, false, Bool-cases,
  ◌||◌, some, List, [], ◌∷◌, ◌==◌, arith, set, length, get_elem?, ltb, if◌then◌else◌,
}

-- The different blocks that one call may log: one less than `MAXOPBLOCKS`.
abbrev pub op_blocks : ℕ
op_blocks = 9

-- Whether a number was logged.
abbrev pub logged : ℕ → List ℕ → Bool
logged k [] = false
logged k (b ∷ bs) = b == k || logged k bs

-- A block that the call has logged before is absorbed.
abbrev pub note : List ℕ → ℕ → List ℕ
note bs b = if logged b bs then bs else b ∷ bs

-- The entries that a write adds.
abbrev pub cost : List ℕ → ℕ → ℕ
cost u b = if logged b u then 0 else 1

abbrev pub may_log : List ℕ → ℕ → Bool
may_log bs b = logged b bs || ltb (length bs) op_blocks

-- The entries that the running calls may still add.
unfoldable pub reserve : List (List ℕ) → ℕ
reserve [] = 0
reserve (u ∷ us) = op_blocks - length u + reserve us

unfoldable pub in_any : ℕ → List (List ℕ) → Bool
in_any k [] = false
in_any k (u ∷ us) = logged k u || in_any k us

abbrev pub remove : List (List ℕ) → ℕ → List (List ℕ)
remove [] i = []
remove (u ∷ us) zero = us
remove (u ∷ us) (suc i) = u ∷ remove us i

pub reserve-le : (us : List (List ℕ)) → reserve us ≤ op_blocks * length us
unfolding reserve
reserve-le [] = omega arith
reserve-le (u ∷ us) = omega (arith, reserve-le us)

-- A new block takes one from what the calls may still add, an absorbed one takes nothing.
pub reserve-set :
    (us : List (List ℕ)) (i b : ℕ) {u : List ℕ}
    → get_elem? us i ≡ some u
    → may_log u b ≡ true
    → reserve (set us i (note u b)) + cost u b ≡ reserve us
unfolding reserve
reserve-set [] i b e h = cc
reserve-set (v ∷ us) zero b {u} e h =
    let s : v ≡ u = ground arith in
    elim (Bool-cases (logged b u)) [
      | inl q ↦ rw (q, s) (omega arith)
      | inr q ↦ rw (q, s) (ground (arith, h, q))
    ]
reserve-set (v ∷ us) (suc i) b e h = omega (arith, reserve-set us i b e h)

pub reserve-remove : (us : List (List ℕ)) (i : ℕ) → reserve (remove us i) ≤ reserve us
unfolding reserve
reserve-remove [] i = omega arith
reserve-remove (v ∷ us) zero = omega arith
reserve-remove (v ∷ us) (suc i) = omega (arith, reserve-remove us i)

pub length-remove :
    (us : List (List ℕ)) (i : ℕ) → i < length us → length (remove us i) + 1 ≡ length us
length-remove [] i h = elim h [ ]
length-remove (v ∷ us) zero h = omega arith
length-remove (v ∷ us) (suc i) h = omega (arith, length-remove us i (omega arith))

pub empty_of_length : (us : List (List ℕ)) → length us ≡ 0 → us ≡ []
empty_of_length [] h = refl
empty_of_length (u ∷ us) h = absurd (omega arith)

pub in_any-logged :
    (us : List (List ℕ)) (i k : ℕ) {u : List ℕ}
    → get_elem? us i ≡ some u
    → logged k u ≡ true
    → in_any k us ≡ true
unfolding in_any
in_any-logged [] i k e h = cc
in_any-logged (v ∷ us) zero k e h = ground arith
in_any-logged (v ∷ us) (suc i) k e h = ground (arith, in_any-logged us i k e h)

pub in_any-remove :
    (us : List (List ℕ)) (i k : ℕ) → in_any k (remove us i) ≡ true → in_any k us ≡ true
unfolding in_any
in_any-remove [] i k h = h
in_any-remove (v ∷ us) zero k h = ground (arith, h)
in_any-remove (v ∷ us) (suc i) k h = ground (arith, h, in_any-remove us i k)

pub in_any-set :
    (us : List (List ℕ)) (i b k : ℕ) {u : List ℕ}
    → get_elem? us i ≡ some u
    → in_any k (set us i (note u b)) ≡ true
    → (in_any k us ≡ true) ⊎ (k ≡ b)
unfolding in_any
in_any-set [] i b k e h = cc
in_any-set (v ∷ us) zero b k {u} e h =
    let s : v ≡ u = ground arith in
    elim (Bool-cases (logged b u)) [
      | inl q ↦ ground (arith, h, s, q)
      | inr q ↦ ground (arith, h, s, q)
    ]
in_any-set (v ∷ us) (suc i) b k e h = ground (arith, h, in_any-set us i b k e)

pub reserve-get :
    (us : List (List ℕ)) (i : ℕ) {u : List ℕ}
    → get_elem? us i ≡ some u
    → op_blocks - length u ≤ reserve us
unfolding reserve
reserve-get [] i e = cc
reserve-get (v ∷ us) zero {u} e = let s : v ≡ u = ground arith in rw s (omega arith)
reserve-get (v ∷ us) (suc i) e = omega (arith, reserve-get us i e)
