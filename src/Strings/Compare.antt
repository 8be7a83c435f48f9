-- ===== src/Strings/Compare.antt =====
-- lib/string.c: `memcmp`, `strcmp`, `strncmp`, `strlen` and `strchr` on strings as lists of bytes.
use openproninx.Base.{
  ℕ, zero, suc, ◌+◌, ◌^◌, ◌≤◌, ◌<◌, ◌≡◌, ◌↔◌, ◌⊎◌, inl, inr, refl, ap, ap₂, ◌∙◌, sym, true,
  Bool-cases, some, List, [], ◌∷◌, arith, ◌==◌, if◌then◌else◌, length,
}
use openproninx.Strings.{Mem, byte_diff, memcmp, strcmp, strlen}

abbrev pub IsByte : ℕ → Type 0
IsByte c = (0 < c) × (c < 256)

-- The string `l` stands at `p`, with its zero byte.
abbrev pub IsString : Mem → ℕ → List ℕ → Type 0
IsString m p [] = m p ≡ 0
IsString m p (c ∷ l) = (m p ≡ c) × IsByte c × IsString m (p + 1) l

-- The order of dictionaries by bytes: an `int` that is 0, negative or positive.
abbrev pub order : List ℕ → List ℕ → ℕ
order [] [] = 0
order [] (b ∷ ys) = byte_diff 0 b
order (a ∷ xs) [] = byte_diff a 0
order (a ∷ xs) (b ∷ ys) = if a == b then order xs ys else byte_diff a b

abbrev pub Before : List ℕ → List ℕ → Type 0
Before xs [] = ⊥
Before [] (b ∷ ys) = Unit
Before (a ∷ xs) (b ∷ ys) = (a < b) ⊎ ((a ≡ b) × Before xs ys)

abbrev pub IsNegative : ℕ → Type 0
IsNegative x = 2 ^ 31 ≤ x

strcmp-order :
    (fuel : ℕ) (m : Mem) (p q : ℕ) (xs ys : List ℕ)
    → IsString m p xs
    → IsString m q ys
    → length xs < fuel
    → strcmp fuel m p q ≡ some (order xs ys)
unfolding strcmp
strcmp-order zero m p q xs ys ha hb f = elim f [ ]
strcmp-order (suc fuel) m p q [] [] ha hb f = ground arith
strcmp-order (suc fuel) m p q [] (b ∷ ys) ha hb f = ground arith
strcmp-order (suc fuel) m p q (a ∷ xs) [] ha hb f = ground arith
strcmp-order (suc fuel) m p q (a ∷ xs) (b ∷ ys) ha hb f =
    ground (arith, strcmp-order fuel m (p + 1) (q + 1) xs ys ha.2 hb.2)

abbrev pub AllBytes : List ℕ → Type 0
AllBytes [] = Unit
AllBytes (c ∷ l) = IsByte c × AllBytes l

pub IsString-bytes : (m : Mem) (p : ℕ) (l : List ℕ) → IsString m p l → AllBytes l
IsString-bytes m p [] h = tt
IsString-bytes m p (c ∷ l) h = (h.1, IsString-bytes m (p + 1) l h.2)

diff_zero : (a b : ℕ) → a < 256 → b < 256 → byte_diff a b ≡ 0 → a ≡ b
diff_zero a b ha hb h = omega arith

diff-IsNegative : (a b : ℕ) → a < 256 → b < 256 → IsNegative (byte_diff a b) ↔ (a < b)
diff-IsNegative a b ha hb = (λ h. omega arith, λ h. omega arith)

order_zero : (xs ys : List ℕ) → AllBytes xs → AllBytes ys → order xs ys ≡ 0 → xs ≡ ys
order_zero [] [] hx hy h = refl
order_zero [] (y ∷ ys) hx hy h = absurd (omega (arith, hy))
order_zero (x ∷ xs) [] hx hy h = absurd (omega (arith, hx))
order_zero (x ∷ xs) (y ∷ ys) hx hy h = elim (Bool-cases (x == y)) [
  | inl e ↦ ap₂ ◌∷◌ (ground arith) (order_zero xs ys hx.1 hy.1 (sym (rw e refl) ∙ h))
  | inr e ↦
      let same : x ≡ y = diff_zero x y hx.0.1 hy.0.1 (sym (rw e refl) ∙ h) in absurd (ground arith)
]

order_refl : (xs : List ℕ) → order xs xs ≡ 0
order_refl [] = refl
order_refl (x ∷ xs) = let e : (x == x) ≡ true = ground arith in rw e (order_refl xs)

order-IsNegative :
    (xs ys : List ℕ) → AllBytes xs → AllBytes ys → IsNegative (order xs ys) ↔ Before xs ys
order-IsNegative [] [] hx hy = (λ h. absurd (omega arith), λ h. absurd h)
order-IsNegative [] (y ∷ ys) hx hy = (λ h. tt, λ h. omega (arith, hy))
order-IsNegative (x ∷ xs) [] hx hy = (λ h. absurd (omega (arith, hx)), λ h. absurd h)
order-IsNegative (x ∷ xs) (y ∷ ys) hx hy = elim (Bool-cases (x == y)) [
  | inl e ↦
      let same : x ≡ y = ground arith in
      let ih = order-IsNegative xs ys hx.1 hy.1 in
      rw e
        (λ h. inr (same, ih.0 h), λ h. elim h [ inl q ↦ absurd (omega arith) | inr q ↦ ih.1 q.1 ])
  | inr e ↦
      let d = diff-IsNegative x y hx.0.1 hy.0.1 in
      rw e (λ h. inl (d.0 h), λ h. elim h [ inl q ↦ d.1 q | inr q ↦ absurd (ground (arith, q)) ])
]

-- What `strcmp` promises of two strings: it returns, 0 exactly for equal strings and a negative number
-- exactly if the first comes before the second in the order of dictionaries.
pub strcmp_lem :
    (fuel : ℕ) (m : Mem) (p q : ℕ) (xs ys : List ℕ)
    → IsString m p xs
    → IsString m q ys
    → length xs < fuel
    → (r : ℕ) × (strcmp fuel m p q ≡ some r) × ((r ≡ 0) ↔ (xs ≡ ys)) × (IsNegative r ↔ Before xs ys)
strcmp_lem fuel m p q xs ys hx hy f =
    let bx = IsString-bytes m p xs hx in
    let by = IsString-bytes m q ys hy in
    (
      order xs ys,
      strcmp-order fuel m p q xs ys hx hy f,
      (order_zero xs ys bx by, λ e. ap (λ l. order xs l) (sym e) ∙ order_refl xs),
      order-IsNegative xs ys bx by,
    )

-- `strlen` counts the bytes before the zero byte.
pub strlen-length :
    (fuel : ℕ) (m : Mem) (p : ℕ) (l : List ℕ)
    → IsString m p l
    → length l < fuel
    → strlen fuel m p ≡ some (length l)
unfolding strlen
strlen-length zero m p l h f = elim f [ ]
strlen-length (suc fuel) m p [] h f = ground arith
strlen-length (suc fuel) m p (c ∷ l) h f = ground (arith, strlen-length fuel m (p + 1) l h.2)

-- `memcmp` returns 0 exactly for equal ranges.
pub memcmp_zero :
    (n : ℕ) (m : Mem) (p q : ℕ)
    → ((x : ℕ) → m x < 256)
    → (memcmp m p q n ≡ 0) ↔ ((i : ℕ) → i < n → m (p + i) ≡ m (q + i))
unfolding memcmp
memcmp_zero zero m p q b = (λ h i lt. elim lt [ ], λ h. refl)
memcmp_zero (suc n) m p q b = elim (Bool-cases (m p == m q)) [
  | inl e ↦
      let ih = memcmp_zero n m (p + 1) (q + 1) b in
      rw e
        (λ h. from (ih.0 h) (ground arith), λ h. ih.1 (λ i lt. later i (h (suc i) (omega arith))))
  | inr e ↦ rw e (
    (λ h. absurd (ground (arith, diff_zero (m p) (m q) (b p) (b q)))),
    λ h.
        absurd
          (ground (arith, h 0 (omega arith), ap m {x = p + 0} {y = p}, ap m {x = q + 0} {y = q})),
  )
]
  where
    from :
        ((i : ℕ) → i < n → m (p + 1 + i) ≡ m (q + 1 + i))
        → m p ≡ m q
        → (i : ℕ) → i < suc n
        → m (p + i) ≡ m (q + i)
    from h e zero lt = ap m {y = p} (omega arith) ∙ e ∙ ap m {x = q} (omega arith)
    from h e (suc i) lt =
        ap m {y = p + 1 + i} (omega arith) ∙ h i (omega arith) ∙ ap m {x = q + 1 + i} (omega arith)

    later : (i : ℕ) → m (p + suc i) ≡ m (q + suc i) → m (p + 1 + i) ≡ m (q + 1 + i)
    later i e = ap m {y = p + suc i} (omega arith) ∙ e ∙ ap m {x = q + suc i} (omega arith)
