-- ===== src/Log/Copy.antt =====
-- kern/log.c: the loops that copy the header, and lists of writes.
use openproninx.Base.{
  ℕ, zero, suc, ◌+◌, ◌≤◌, ◌<◌, ◌≡◌, refl, ap, ◌∙◌, List, [], ◌∷◌, ◌++◌, arith, get_or, set, length,
  take, length-set, get_or-set_self, get_or-set_ne, dec_le,
}
use openproninx.Log.{Blocks, Write, store, apply, copy_words}
use openproninx.Log.Install.{installs}

pub length-copy_words :
    (k i : ℕ) (from : List ℕ) (f : ℕ) (to : List ℕ) (t : ℕ)
    → length (copy_words k i from f to t) ≡ length to
unfolding copy_words
length-copy_words zero i from f to t = refl
length-copy_words (suc k) i from f to t =
    length-copy_words k (i + 1) from f (set to (i + t) (get_or from (i + f) 0)) t
    ∙ length-set to (i + t) (get_or from (i + f) 0)

-- A word that the loop does not reach stays.
pub copy_words_before :
    (k i : ℕ) (from : List ℕ) (f : ℕ) (to : List ℕ) (t j : ℕ)
    → j < i + t
    → get_or (copy_words k i from f to t) j 0 ≡ get_or to j 0
unfolding copy_words
copy_words_before zero i from f to t j h = refl
copy_words_before (suc k) i from f to t j h =
    copy_words_before k (i + 1) from f _ t j (omega arith)
    ∙ get_or-set_ne to (get_or from (i + f) 0) 0 (omega arith)

pub copy_words_lem :
    (k i : ℕ) (from : List ℕ) (f : ℕ) (to : List ℕ) (t j : ℕ)
    → i ≤ j
    → j < i + k
    → j + t < length to
    → get_or (copy_words k i from f to t) (j + t) 0 ≡ get_or from (j + f) 0
unfolding copy_words
copy_words_lem zero i from f to t j h1 h2 h3 = absurd (omega arith)
copy_words_lem (suc k) i from f to t j h1 h2 h3 = elim (dec_le (i + 1) j) [
  | yes p ↦
      copy_words_lem k (i + 1) from f _ t j p (omega arith)
        (omega (arith, length-set to (i + t) (get_or from (i + f) 0)))
  | no p ↦
      let e : i ≡ j = omega arith in
      copy_words_before k (i + 1) from f _ t (j + t) (omega arith)
      ∙ rw e (get_or-set_self to (j + t) (get_or from (j + f) 0) 0 h3)
]

-- `take` of two appended lists of writes: either inside the first, or all of it and some of the rest.
pub apply_take-append :
    (P : Blocks → Type 0) (ws vs : List Write) (d : Blocks)
    → ((j : ℕ) → P (apply d (take j ws)))
    → ((j : ℕ) → P (apply (apply d ws) (take j vs)))
    → (j : ℕ) → P (apply d (take j (ws ++ vs)))
apply_take-append P [] vs d hw hv j = hv j
apply_take-append P (w ∷ ws) vs d hw hv zero = hw 0
apply_take-append P ((b, x) ∷ ws) vs d hw hv (suc j) =
    apply_take-append P ws vs (store d b x) (λ i. hw (suc i)) hv j

pub apply-append : (ws vs : List Write) (d : Blocks) → apply d (ws ++ vs) ≡ apply (apply d ws) vs
apply-append [] vs d = refl
apply-append ((b, x) ∷ ws) vs d = apply-append ws vs (store d b x)

pub take_all {ℓ} : {A : Type ℓ} (xs : List A) → take (length xs) xs ≡ xs
take_all [] = refl
take_all (x ∷ xs) = ap (λ l. x ∷ l) (take_all xs)

pub length-installs :
    (start : ℕ) (e : ℕ → ℕ) (c : Blocks) (k tail : ℕ) → length (installs start e c k tail) ≡ k
length-installs start e c zero tail = refl
length-installs start e c (suc k) tail = ap suc (length-installs start e c k (tail + 1))
