-- ===== src/Fs/Spread.antt =====
-- kern/fs.c: bytes that `writei` puts down block by block.
use openproninx.Base.{
  ℕ, zero, suc, ◌+◌, ◌-◌, ◌≤◌, ◌<◌, ◌≡◌, inl, inr, refl, ap, ◌∙◌, Bool, true, false, Bool-cases,
  ◌&&◌, List, [], ◌∷◌, arith, ltb, leb, get_or, length, take, drop, length-take, length-drop,
}
use openproninx.Fs.{bytes_from}
use openproninx.Fs.Files.{with_bytes}
use openproninx.Fs.Content.{bytes_from_cong}

pub get_or-take : (m : ℕ) (src : List ℕ) (k : ℕ) → k < m → get_or (take m src) k 0 ≡ get_or src k 0
get_or-take zero src k h = absurd (omega arith)
get_or-take (suc m) [] k h = refl
get_or-take (suc m) (x ∷ src) zero h = refl
get_or-take (suc m) (x ∷ src) (suc k) h = get_or-take m src k (omega arith)

pub get_or-drop : (m : ℕ) (src : List ℕ) (k : ℕ) → get_or (drop m src) k 0 ≡ get_or src (m + k) 0
get_or-drop zero src k = ap (λ n. get_or src n 0) (omega arith)
get_or-drop (suc m) [] k = refl
get_or-drop (suc m) (x ∷ src) k =
    let e : suc m + k ≡ suc (m + k) = omega arith in rw e (get_or-drop m src k)

-- Whether the place `i` is one of the `n` from `off` on.
abbrev within : ℕ → ℕ → ℕ → Bool
within off n i = leb off i && ltb (i - off) n

-- Bytes put down in two parts are put down.
pub with_bytes_split :
    (f : ℕ → ℕ) (off m : ℕ) (src : List ℕ) (i : ℕ)
    → m ≤ length src
    → with_bytes (with_bytes f off (take m src)) (off + m) (drop m src) i ≡ with_bytes f off src i
with_bytes_split f off m src i h =
    let low = length-take m src in
    let high = length-drop m src in
    let size : length (take m src) ≡ m = omega (arith, low) in
    elim (Bool-cases (within off (length src) i)) [
      | inr e ↦
          let a : within off m i ≡ false = ground arith in
          let b : within (off + m) (length src - m) i ≡ false = ground arith in
          rw (high, size, a, b, e) refl
      | inl e ↦ elim (Bool-cases (ltb (i - off) m)) [
        | inl c ↦
            let a : within off m i ≡ true = ground arith in
            let b : within (off + m) (length src - m) i ≡ false = ground arith in
            rw (high, size, a, b, e) (get_or-take m src (i - off) (ground arith))
        | inr c ↦
            let b : within (off + m) (length src - m) i ≡ true = ground arith in
            let place : m + (i - (off + m)) ≡ i - off = ground arith in
            rw (high, b, e) (get_or-drop m src (i - (off + m)) ∙ ap (λ k. get_or src k 0) place)
      ]
    ]

pub get_or-fits :
    (m : ℕ) (src : List ℕ) (k : ℕ)
    → ((k : ℕ) → get_or src k 0 < 256)
    → get_or (take m src) k 0 < 256
get_or-fits m src k h = elim (Bool-cases (ltb k m)) [
  | inl e ↦ rw (get_or-take m src k (ground arith)) (h k)
  | inr e ↦ rw (past m src k (ground arith)) (omega arith)
]
  where
    past : (m : ℕ) (src : List ℕ) (k : ℕ) → m ≤ k → get_or (take m src) k 0 ≡ 0
    past zero src k h = refl
    past (suc m) [] k h = refl
    past (suc m) (x ∷ src) zero h = absurd (omega arith)
    past (suc m) (x ∷ src) (suc k) h = past m src k (omega arith)

-- The bytes of a list, counted off.
listed : (src : List ℕ) → bytes_from (λ k. get_or src k 0) 0 (length src) ≡ src
listed [] = refl
listed (x ∷ src) =
    let tail =
      bytes_from_cong (λ k. get_or (x ∷ src) k 0) (λ k. get_or src k 0) 1 0 (length src)
        (λ r lt.
          let e : 1 + r ≡ suc r = omega arith in rw e (ap (λ k. get_or src k 0) (omega arith))) in
    ap (λ l. x ∷ l) (tail ∙ listed src)

-- What was put down is read back.
pub bytes_from-with_bytes :
    (f : ℕ → ℕ) (off : ℕ) (src : List ℕ) → bytes_from (with_bytes f off src) off (length src) ≡ src
bytes_from-with_bytes f off src =
    bytes_from_cong (with_bytes f off src) (λ k. get_or src k 0) off 0 (length src)
      (λ r lt.
        let inside : leb off (off + r) && ltb (off + r - off) (length src) ≡ true = ground arith in
        let place : off + r - off ≡ 0 + r = omega arith in rw (inside, place) refl)
    ∙ listed src
