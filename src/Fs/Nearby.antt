-- ===== src/Fs/Nearby.antt =====
-- kern/fs.c: the slots of four blocks in a row of a file, and those that they hang from.
use openproninx.Base.{
  ℕ, zero, suc, ◌+◌, ◌-◌, ◌/◌, ◌≤◌, ◌<◌, ◌≡◌, inl, inr, refl, ap, sym, Bool, true, false,
  Bool-cases, ◌||◌, List, [], ◌∷◌, arith, ◌==◌, ltb, if◌then◌else◌, eq_test, test_ne, length,
}
use openproninx.Fs.{Store, Inode, ndirect, nindirect}
use openproninx.Fs.Slots.{Slot, top, under, at, same_slot, same_slot-true, same_slot_self}
use openproninx.Fs.Bmap.{slot_of}
use openproninx.Fs.Budget.{logged, up, or_cases}
use openproninx.Fs.Fill.{true_and}

-- Whether a slot is in a list.
abbrev pub in_slots : Slot → List Slot → Bool
in_slots x [] = false
in_slots x (y ∷ l) = same_slot x y || in_slots x l

-- The slots of four blocks in a row, and those that they hang from.
abbrev above : ℕ → List Slot
above bn =
    if ltb (bn + 3) (ndirect + nindirect)
    then top ndirect ∷ []
    else if ltb bn (ndirect + nindirect)
    then top ndirect ∷ top (ndirect + 1) ∷ under (top (ndirect + 1)) 0 ∷ []
    else top (ndirect + 1)
      ∷ under (top (ndirect + 1)) ((bn - ndirect - nindirect) / nindirect)
      ∷ under (top (ndirect + 1)) ((bn + 3 - ndirect - nindirect) / nindirect)
      ∷ []

abbrev pub near : ℕ → List Slot
near bn = slot_of bn ∷ slot_of (bn + 1) ∷ slot_of (bn + 2) ∷ slot_of (bn + 3) ∷ above bn

pub or_right : (a : Bool) {b : Bool} → b ≡ true → a || b ≡ true
or_right true h = refl
or_right false h = h

above_near : (bn : ℕ) (x : Slot) → in_slots x (above bn) ≡ true → in_slots x (near bn) ≡ true
above_near bn x h = or_right (same_slot x (slot_of bn)) (
    or_right (same_slot x (slot_of (bn + 1)))
      (or_right (same_slot x (slot_of (bn + 2))) (or_right (same_slot x (slot_of (bn + 3))) h)))

leaf_near : (bn d : ℕ) → d ≤ 3 → in_slots (slot_of (bn + d)) (near bn) ≡ true
leaf_near bn zero h = let e : bn + 0 ≡ bn = omega arith in rw (e, same_slot_self (slot_of bn)) refl
leaf_near bn (suc zero) h =
    or_right (same_slot (slot_of (bn + 1)) (slot_of bn))
      (rw (same_slot_self (slot_of (bn + 1))) refl)
leaf_near bn (suc (suc zero)) h = or_right (same_slot (slot_of (bn + 2)) (slot_of bn)) (
    or_right (same_slot (slot_of (bn + 2)) (slot_of (bn + 1)))
      (rw (same_slot_self (slot_of (bn + 2))) refl))
leaf_near bn (suc (suc (suc zero))) h = or_right (same_slot (slot_of (bn + 3)) (slot_of bn)) (
    or_right (same_slot (slot_of (bn + 3)) (slot_of (bn + 1))) (
      or_right (same_slot (slot_of (bn + 3)) (slot_of (bn + 2)))
        (rw (same_slot_self (slot_of (bn + 3))) refl)))
leaf_near bn (suc (suc (suc (suc d)))) h = absurd (omega (arith, h))

single_above :
    (bn m : ℕ) → bn ≤ m → m < ndirect + nindirect → in_slots (top ndirect) (above bn) ≡ true
single_above bn m lo hi = elim (Bool-cases (ltb (bn + 3) (ndirect + nindirect))) [
  | inl e ↦ rw e refl
  | inr e ↦ let early : ltb bn (ndirect + nindirect) ≡ true = ground arith in rw (e, early) refl
]

double_above :
    (bn m : ℕ)
    → bn ≤ m
    → m ≤ bn + 3
    → ndirect + nindirect ≤ m
    → (in_slots (top (ndirect + 1)) (above bn) ≡ true)
      × (in_slots (under (top (ndirect + 1)) ((m - ndirect - nindirect) / nindirect)) (above bn)
          ≡ true)
double_above bn m lo hi far =
    let late : ltb (bn + 3) (ndirect + nindirect) ≡ false = ground arith in
    elim (Bool-cases (ltb bn (ndirect + nindirect))) [
      | inl e ↦
          let start : bn < ndirect + nindirect = ground arith in
          let row : (m - ndirect - nindirect) / nindirect ≡ 0 = omega (arith, start, hi) in
          (rw (late, e) refl, rw (late, e, row) refl)
      | inr e ↦
          let start : ndirect + nindirect ≤ bn = ground arith in
          let row = (m - ndirect - nindirect) / nindirect in
          let low = (bn - ndirect - nindirect) / nindirect in
          (
            rw (late, e) refl,
            elim (Bool-cases (row == low)) [
              | inl r ↦ rw (late, e, r) refl
              | inr r ↦
                  let n = test_ne r in
                  let last : row ≡ (bn + 3 - ndirect - nindirect) / nindirect =
                    omega (arith, n, lo, hi, start) in
                  rw (late, e, r, eq_test last) refl
            ],
          )
    ]

up-slot_of :
    (q : Slot → Bool) (m : ℕ)
    → q (slot_of m) ≡ true
    → (m < ndirect + nindirect → q (top ndirect) ≡ true)
    → (ndirect + nindirect ≤ m
        → (q (top (ndirect + 1)) ≡ true)
          × (q (under (top (ndirect + 1)) ((m - ndirect - nindirect) / nindirect)) ≡ true))
    → up q (slot_of m) ≡ true
up-slot_of q m leaf single double = elim (Bool-cases (ltb m ndirect)) [
  | inl e ↦ rw e (rw e at leaf)
  | inr e ↦ elim (Bool-cases (ltb (m - ndirect) nindirect)) [
    | inl e₁ ↦ rw (e, e₁) (true_and (rw (e, e₁) at leaf) (single (ground arith)))
    | inr e₁ ↦
        let (root, mid) = double (ground arith) in
        rw (e, e₁) (true_and (rw (e, e₁) at leaf) (true_and mid root))
  ]
]

pub near-up : (bn d : ℕ) → d ≤ 3 → up (λ x. in_slots x (near bn)) (slot_of (bn + d)) ≡ true
near-up bn d h =
    up-slot_of (λ x. in_slots x (near bn)) (bn + d) (leaf_near bn d h)
      (λ lt. above_near bn (top ndirect) (single_above bn (bn + d) (omega arith) lt))
      (λ le.
        let (t, m) = double_above bn (bn + d) (omega arith) (omega (arith, h)) le in
        (
          above_near bn (top (ndirect + 1)) t,
          above_near bn (under (top (ndirect + 1)) ((bn + d - ndirect - nindirect) / nindirect)) m,
        ))

-- The numbers of the blocks of some slots.
abbrev pub blocks_of : Store → Inode → List Slot → List ℕ
blocks_of s ip [] = []
blocks_of s ip (x ∷ l) = at s.cache ip.addrs x ∷ blocks_of s ip l

pub in_blocks :
    (s : Store) (ip : Inode) (x : Slot) (l : List Slot)
    → in_slots x l ≡ true
    → logged (at s.cache ip.addrs x) (blocks_of s ip l) ≡ true
in_blocks s ip x [] h = absurd (cc h)
in_blocks s ip x (y ∷ l) h = elim (or_cases (same_slot x y) (in_slots x l) h) [
  | inl e ↦
      let same : (at s.cache ip.addrs y == at s.cache ip.addrs x) ≡ true =
        eq_test (ap (at s.cache ip.addrs) (sym (same_slot-true x y e))) in
      rw same refl
  | inr r ↦ or_right (at s.cache ip.addrs y == at s.cache ip.addrs x) (in_blocks s ip x l r)
]

pub blocks_above : (s : Store) (ip : Inode) (bn : ℕ) → length (blocks_of s ip (above bn)) ≤ 3
blocks_above s ip bn = elim (Bool-cases (ltb (bn + 3) (ndirect + nindirect))) [
  | inl e ↦ rw e (omega arith)
  | inr e ↦ elim (Bool-cases (ltb bn (ndirect + nindirect))) [
    | inl e₁ ↦ rw (e, e₁) (omega arith)
    | inr e₁ ↦ rw (e, e₁) (omega arith)
  ]
]
