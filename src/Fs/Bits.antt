-- ===== src/Fs/Bits.antt =====
-- kern/fs.c: a bit of a byte of the map, set or cleared.
use openproninx.Base.{
  ℕ, ◌-◌, ◌^◌, ◌<◌, ◌≡◌, refl, sym, Bool, true, false, not, ◌&&◌, arith, ◌==◌, ltb, if◌then◌else◌,
  all_below, all_below-true, and_true,
}
use Prim.Native.Nat.{bit_and, bit_or}

abbrev same_bool : Bool → Bool → Bool
same_bool true b = b
same_bool false b = not b

-- Setting the bit `k`, and clearing it, in one byte, seen at the bit `j`.
abbrev one_bit : ℕ → ℕ → ℕ → Bool
one_bit k j value =
    let set = bit_or value (2 ^ k) in
    let cleared = bit_and value (255 - 2 ^ k) in
    let old = bit_and value (2 ^ j) == 0 in
    same_bool (bit_and set (2 ^ j) == 0) (if k == j then false else old)
    && (same_bool (bit_and cleared (2 ^ j) == 0) (if k == j then true else old)
        && (ltb set 256 && ltb cleared 256))

table : all_below 8 (λ k. all_below 8 (λ j. all_below 256 (one_bit k j))) ≡ true
unfolding all_below
table = refl

same_bool_lem : (a b : Bool) → same_bool a b ≡ true → a ≡ b
same_bool_lem true b h = sym h
same_bool_lem false true h = absurd (cc h)
same_bool_lem false false h = refl

pub record OneBit (k j value : ℕ) : Type 0 where
  pub set :
      (bit_and (bit_or value (2 ^ k)) (2 ^ j) == 0)
      ≡ (if k == j then false else bit_and value (2 ^ j) == 0)
  pub cleared :
      (bit_and (bit_and value (255 - 2 ^ k)) (2 ^ j) == 0)
      ≡ (if k == j then true else bit_and value (2 ^ j) == 0)
  pub set_fits : bit_or value (2 ^ k) < 256
  pub cleared_fits : bit_and value (255 - 2 ^ k) < 256

pub one_bit_lem : (k j value : ℕ) → k < 8 → j < 8 → value < 256 → OneBit k j value
one_bit_lem k j value hk hj hv =
    let row = all_below-true 8 (λ k. all_below 8 (λ j. all_below 256 (one_bit k j))) k table hk in
    let col = all_below-true 8 (λ j. all_below 256 (one_bit k j)) j row hj in
    let cell = all_below-true 256 (one_bit k j) value col hv in
    let (a, rest) = and_true _ _ cell in
    let (b, rest') = and_true _ _ rest in
    let (c, d) =
      and_true (ltb (bit_or value (2 ^ k)) 256) (ltb (bit_and value (255 - 2 ^ k)) 256) rest' in
    record {
      set = same_bool_lem _ _ a;
      cleared = same_bool_lem _ _ b;
      set_fits = ground arith;
      cleared_fits = ground arith;
    }
