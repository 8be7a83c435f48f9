-- ===== src/Strings/Copy.antt =====
-- lib/string.c: `strncpy` and `safestrcpy`.
use openproninx.Base.{
  ℕ, zero, suc, ◌+◌, ◌-◌, ◌^◌, ◌≤◌, ◌<◌, ◌≡◌, ◌⊎◌, inl, inr, refl, ap, ◌∙◌, true, false, ◌&&◌, ◌||◌,
  Bool-cases, List, [], ◌∷◌, arith, ◌==◌, ltb, leb, if◌then◌else◌, length, get_or, take,
  length-take, min, u64_mod,
}
use openproninx.Strings.{Mem, put, zero_fill, copy_string, strncpy, safe_copy, safestrcpy}
use openproninx.Strings.Compare.{IsString, AllBytes, IsString-bytes}

IsString-congr :
    (m m' : Mem) (p : ℕ) (l : List ℕ)
    → ((x : ℕ) → p ≤ x → x ≤ p + length l → m' x ≡ m x)
    → IsString m p l
    → IsString m' p l
IsString-congr m m' p [] e h = e p (omega arith) (omega arith) ∙ h
IsString-congr m m' p (c ∷ l) e h = (
  e p (omega arith) (omega arith) ∙ h.0,
  h.1,
  IsString-congr m m' (p + 1) l (λ x a b. e x (omega arith) (omega arith)) h.2,
)

zero_fill_lem :
    (n s : ℕ) (m : Mem) (x : ℕ) → zero_fill n s m x ≡ (if leb s x && ltb x (s + n) then 0 else m x)
unfolding zero_fill
zero_fill_lem zero s m x = ground arith
zero_fill_lem (suc n) s m x = zero_fill_lem n (s + 1) (put m s 0) x ∙ ground arith

-- Neither string that is copied is written to: the source lies apart from the destination.
abbrev pub Apart : ℕ → ℕ → List ℕ → ℕ → Type 0
Apart s n l t = (t + length l < s) ⊎ (s + n ≤ t)

Apart-put :
    (m : Mem) (s n c t v : ℕ) (l : List ℕ)
    → Apart s (suc n) (c ∷ l) t
    → IsString m t (c ∷ l)
    → IsString (put m s v) (t + 1) l × Apart (s + 1) n l (t + 1)
Apart-put m s n c t v l a h =
    (IsString-congr m (put m s v) (t + 1) l (λ x p q. ground (arith, a)) h.2, next a)
  where
    next : Apart s (suc n) (c ∷ l) t → Apart (s + 1) n l (t + 1)
    next (inl p) = inl (omega arith)
    next (inr p) = inr (omega arith)

-- The memory `m` with the first `k` bytes of a string and its zero byte from `s` on.
abbrev pub with_string : Mem → ℕ → ℕ → List ℕ → Mem
with_string m s k l x = if leb s x && ltb x (s + k) then get_or l (x - s) 0 else m x

with_string-cons :
    (m : Mem) (s k c : ℕ) (l : List ℕ) (x : ℕ)
    → with_string (put m s c) (s + 1) k l x ≡ with_string m s (suc k) (c ∷ l) x
with_string-cons m s k c l x = elim (Bool-cases (leb (s + 1) x && ltb x (s + 1 + k))) [
  | inl e ↦
      let e' : (leb s x && ltb x (s + suc k)) ≡ true = ground arith in
      let n : x - s ≡ suc (x - (s + 1)) = ground arith in rw (e, e', n) refl
  | inr e ↦ rw e (ground (arith, first))
]
  where
    first : x ≡ s → get_or (c ∷ l) (x - s) 0 ≡ c
    first e = ap (λ k. get_or (c ∷ l) k 0) {x = x - s} {y = 0} (omega arith)

copy_string-shorter :
    (n s t : ℕ) (l : List ℕ) (m : Mem)
    → IsString m t l
    → Apart s n l t
    → length l < n
    → let (s', n', m') = copy_string n s t m in
      (s' ≡ s + length l + 1)
      × (n' ≡ n - length l - 1)
      × ((x : ℕ) → m' x ≡ with_string m s (length l + 1) l x)
unfolding copy_string
copy_string-shorter zero s t l m h a lt = elim lt [ ]
copy_string-shorter (suc n) s t [] m h a lt =
    let z : (m t == 0) ≡ true = ground arith in rw z (omega arith, omega arith, λ x. last x)
  where
    last : (x : ℕ) → put m s (m t) x ≡ with_string m s 1 [] x
    last x = ground arith
copy_string-shorter (suc n) s t (c ∷ l) m h a lt =
    let nz : (c == 0) ≡ false = ground (arith, h.1) in
    let (h', a') = Apart-put m s n c t c l a h in
    let (at, left, bytes) =
      copy_string-shorter n (s + 1) (t + 1) l (put m s c) h' a' (omega arith) in
    rw (h.0, nz)
      (
        at ∙ omega arith,
        left ∙ omega arith,
        λ x.
            bytes x
            ∙ with_string-cons m s (length l + 1) c l x
            ∙ ap (λ k. with_string m s k (c ∷ l) x) (omega arith),
      )

copy_string-longer :
    (n s t : ℕ) (l : List ℕ) (m : Mem)
    → IsString m t l
    → Apart s n l t
    → n ≤ length l
    → let (s', n', m') = copy_string n s t m in
      (s' ≡ s + n) × (n' ≡ u64_mod - 1) × ((x : ℕ) → m' x ≡ with_string m s n l x)
unfolding copy_string
copy_string-longer zero s t l m h a le = (omega arith, refl, λ x. ground arith)
copy_string-longer (suc n) s t [] m h a le = elim le [ ]
copy_string-longer (suc n) s t (c ∷ l) m h a le =
    let nz : (c == 0) ≡ false = ground (arith, h.1) in
    let (h', a') = Apart-put m s n c t c l a h in
    let (at, left, bytes) =
      copy_string-longer n (s + 1) (t + 1) l (put m s c) h' a' (omega arith) in
    rw (h.0, nz) (at ∙ omega arith, left, λ x. bytes x ∙ with_string-cons m s n c l x)

get_or-beyond : (l : List ℕ) (k : ℕ) → length l ≤ k → get_or l k 0 ≡ 0
get_or-beyond [] k h = refl
get_or-beyond (c ∷ l) zero h = elim h [ ]
get_or-beyond (c ∷ l) (suc k) h = get_or-beyond l k (omega arith)

-- `safe_copy` does what the first loop of `strncpy` does.
safe_copy-copy_string :
    (n s t : ℕ) (m : Mem)
    → let (s1, m1) = safe_copy n s t m in
      let (s2, n2, m2) = copy_string n s t m in (s1 ≡ s2) × (m1 ≡ m2)
unfolding safe_copy copy_string
safe_copy-copy_string zero s t m = (refl, refl)
safe_copy-copy_string (suc n) s t m = elim (Bool-cases (m t == 0)) [
  | inl e ↦ rw e (refl, refl)
  | inr e ↦ rw e (safe_copy-copy_string n (s + 1) (t + 1) (put m s (m t)))
]

-- `strncpy` of a string with fewer than `n` bytes, which lies apart from the destination: the `n` bytes
-- of the destination are the string and zero bytes behind it, and no other byte changes.
pub strncpy-with_string :
    (m : Mem) (s t n : ℕ) (l : List ℕ) (x : ℕ)
    → IsString m t l
    → Apart s n l t
    → length l < n
    → strncpy m s t n x ≡ with_string m s n l x
unfolding strncpy
strncpy-with_string m s t n l x h a lt =
    let (at, left, bytes) = copy_string-shorter n s t l m h a lt in
    let (s', n', m') = copy_string n s t m in
    zero_fill_lem n' s' m' x ∙ rw (at, left, bytes x) (ground (arith, get_or-beyond l (x - s)))

-- `strncpy` of a string with `n` bytes or more: its counter wraps, and zero bytes follow the copied ones
-- for 2 ^ 64 - 1 bytes behind the destination.
pub strncpy_overruns :
    (m : Mem) (s t n : ℕ) (l : List ℕ) (x : ℕ)
    → IsString m t l
    → Apart s n l t
    → n ≤ length l
    → s + n ≤ x
    → x < s + n + (u64_mod - 1)
    → strncpy m s t n x ≡ 0
unfolding strncpy
strncpy_overruns m s t n l x h a le lo hi =
    let (at, left, bytes) = copy_string-longer n s t l m h a le in
    let (s', n', m') = copy_string n s t m in
    zero_fill_lem n' s' m' x ∙ rw (at, left) (ground arith)

IsString-bytewise :
    (m : Mem) (p : ℕ) (l : List ℕ)
    → AllBytes l
    → ((i : ℕ) → i ≤ length l → m (p + i) ≡ get_or l i 0)
    → IsString m p l
IsString-bytewise m p [] b h = ap m {x = p} {y = p + 0} (omega arith) ∙ h 0 (omega arith)
IsString-bytewise m p (c ∷ l) b h = (
  ap m {x = p} {y = p + 0} (omega arith) ∙ h 0 (omega arith),
  b.0,
  IsString-bytewise m (p + 1) l b.1
      (λ i le. ap m {x = p + 1 + i} {y = p + suc i} (omega arith) ∙ h (suc i) (omega arith)),
)

AllBytes-take : (k : ℕ) (l : List ℕ) → AllBytes l → AllBytes (take k l)
AllBytes-take zero l h = tt
AllBytes-take (suc k) [] h = tt
AllBytes-take (suc k) (c ∷ l) h = (h.0, AllBytes-take k l h.1)

get_or-take : (k i : ℕ) (l : List ℕ) → get_or (take k l) i 0 ≡ (if ltb i k then get_or l i 0 else 0)
get_or-take zero i l = ground arith
get_or-take (suc k) i [] = ground arith
get_or-take (suc k) zero (c ∷ l) = ground arith
get_or-take (suc k) (suc i) (c ∷ l) = get_or-take k i l ∙ ground arith

-- What the loop of `safestrcpy` leaves, whichever test ends it.
safe_copy_lem :
    (n s t : ℕ) (l : List ℕ) (m : Mem)
    → IsString m t l
    → Apart s n l t
    → let (s', m') = safe_copy n s t m in
      (s' ≤ s + n)
      × (s + min n (length l) ≤ s')
      × ((x : ℕ) → m' x ≡ (if leb s x && ltb x s' then get_or l (x - s) 0 else m x))
safe_copy_lem n s t l m h a =
    let (at, same) = safe_copy-copy_string n s t m in
    elim (Bool-cases (ltb (length l) n)) [
      | inl e ↦
          let c = copy_string-shorter n s t l m h a (ground arith) in
          let at' : (safe_copy n s t m).0 ≡ s + length l + 1 = at ∙ c.0 in
          (
            ground (arith, at'),
            ground (arith, at'),
            λ x. ap (λ f. f x) same ∙ c.2 x ∙ ground (arith, at'),
          )
      | inr e ↦
          let c = copy_string-longer n s t l m h a (ground arith) in
          let at' : (safe_copy n s t m).0 ≡ s + n = at ∙ c.0 in
          (
            ground (arith, at'),
            ground (arith, at'),
            λ x. ap (λ f. f x) same ∙ c.2 x ∙ ground (arith, at'),
          )
    ]

-- `safestrcpy` into a buffer of `n` bytes, `n` a positive `int`, of a string that lies apart from it: the
-- buffer then holds a string, the first `n` - 1 bytes of the source at most, and no byte outside of the
-- buffer changes.
pub safestrcpy-IsString :
    (m : Mem) (s t n : ℕ) (l : List ℕ)
    → IsString m t l
    → Apart s n l t
    → 0 < n
    → n < 2 ^ 31
    → let m' = safestrcpy m s t n in
      IsString m' s (take (n - 1) l) × ((x : ℕ) → (x < s) ⊎ (s + n ≤ x) → m' x ≡ m x)
unfolding safestrcpy
safestrcpy-IsString m s t n l h a pos small =
    let e : (n == 0 || leb (2 ^ 31) n) ≡ false = ground arith in
    let (hi, lo, bytes) = safe_copy_lem (n - 1) s t l m h (fewer a) in
    let len = length-take (n - 1) l in
    rw e (
      IsString-bytewise _ s (take (n - 1) l) (AllBytes-take (n - 1) l (IsString-bytes m t l h))
          (λ i le. ground (
            arith,
            bytes (s + i),
            get_or-take (n - 1) i l,
            get_or-beyond l i,
            len,
            ap (λ k. get_or l k 0) {x = s + i - s} {y = i},
          )),
      λ x out. ground (arith, bytes x, out),
    )
  where
    fewer : Apart s n l t → Apart s (n - 1) l t
    fewer (inl p) = inl p
    fewer (inr p) = inr (omega arith)
