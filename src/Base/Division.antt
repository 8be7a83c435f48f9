-- ===== src/Base/Division.antt =====
-- Quotients by a number that is not known, where a block size divides an offset.
use Prim.Native.Nat.{ℕ, ◌+◌, ◌*◌, ◌/◌, ◌%◌, ◌≤◌, ◌<◌}
use mathlib.Core.Path.{◌≡◌, sym, ap, ◌∙◌}
use native.Mathlib.Omega.{arith}
use native.Mathlib.Nat.{
  mul-le-mul_right, mod-lt, div-add-mod, div-eq_of_lt-le, le-div_iff_mul-le, div-lt_iff_lt-mul,
  div-mul-le_self,
}

-- A few steps on from `o`, in the same block.
pub same_block :
    (o j m : ℕ) → 0 < m → o % m + j < m → ((o + j) / m ≡ o / m) × ((o + j) % m ≡ o % m + j)
same_block o j m pos h =
    let q = o / m in
    let e = div-add-mod o m in
    let low : q * m ≤ o + j = omega arith in
    let high : o + j < (q + 1) * m = omega arith in
    let d : (o + j) / m ≡ q = div-eq_of_lt-le m low high in
    let f : m * q + (o + j) % m ≡ o + j =
      ap (λ k. m * k + (o + j) % m) (sym d) ∙ div-add-mod (o + j) m in
    (d, omega arith)

pub mod_lt : (n : ℕ) {m : ℕ} → 0 < m → n % m < m
mod_lt n h = mod-lt n h

pub le_div : {k x y : ℕ} → 0 < k → x * k ≤ y → x ≤ y / k
le_div pos h = (le-div_iff_mul-le pos).1 h

pub div_lt : {x y k : ℕ} → 0 < k → x < y * k → x / k < y
div_lt pos h = (div-lt_iff_lt-mul pos).1 h

pub div_mul_le : (n m : ℕ) → n / m * m ≤ n
div_mul_le n m = div-mul-le_self n m

pub div_mod : (n m : ℕ) → m * (n / m) + n % m ≡ n
div_mod n m = div-add-mod n m

pub mul_le_right : {m n : ℕ} (k : ℕ) → m ≤ n → m * k ≤ n * k
mul_le_right k h = mul-le-mul_right k h

-- A row and a place in it are found again from their number.
pub row_and_place :
    (row place width : ℕ)
    → place < width
    → ((row * width + place) / width ≡ row) × ((row * width + place) % width ≡ place)
row_and_place row place width h =
    let q : (row * width + place) / width ≡ row =
      div-eq_of_lt-le width (omega arith) (omega arith) in
    let e : width * row + (row * width + place) % width ≡ row * width + place =
      ap (λ k. width * k + (row * width + place) % width) (sym q)
      ∙ div-add-mod (row * width + place) width in
    (q, omega arith)
