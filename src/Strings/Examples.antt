-- ===== src/Strings/Examples.antt =====
-- The theorems on lib/string.c at concrete strings, and tests of the model.
use openproninx.Base.{
  ℕ, ◌≤◌, ◌<◌, ◌≡◌, ◌↔◌, ◌⊎◌, inl, refl, some, List, [], ◌∷◌, arith, get_or, take,
}
use openproninx.Strings.{Mem, memmove, memcmp, strcmp, strncmp, strlen, strchr, strncpy, safestrcpy}
use openproninx.Strings.Move.{moved, memmove-moved}
use openproninx.Strings.Compare.{IsString, IsNegative, Before, strcmp_lem}
use openproninx.Strings.Copy.{
  with_string, strncpy-with_string, strncpy_overruns, safestrcpy-IsString,
}

-- "abc" at 0 and "abd" at 4.
abbrev text : Mem
text x = get_or (97 ∷ 98 ∷ 99 ∷ 0 ∷ 97 ∷ 98 ∷ 100 ∷ 0 ∷ []) x 0

abbrev abc : List ℕ
abc = 97 ∷ 98 ∷ 99 ∷ []

abbrev abd : List ℕ
abd = 97 ∷ 98 ∷ 100 ∷ []

abc-IsString : IsString text 0 abc
abc-IsString = ground arith

abd-IsString : IsString text 4 abd
abd-IsString = ground arith

overlap : memmove text 1 0 3 3 ≡ 99
unfolding memmove openproninx.Strings.copy_down
overlap = refl

common_prefix : strncmp text 0 4 2 ≡ 0
unfolding strncmp
common_prefix = refl

found : strchr 9 text 4 100 ≡ some (some 6)
unfolding strchr
found = refl

strcmp_lem_example :
    (r : ℕ) × (strcmp 9 text 0 4 ≡ some r)
    × ((r ≡ 0) ↔ (abc ≡ abd))
    × (IsNegative r ↔ Before abc abd)
strcmp_lem_example = strcmp_lem 9 text 0 4 abc abd abc-IsString abd-IsString (omega arith)

strncpy-with_string_example : strncpy text 20 0 8 25 ≡ with_string text 20 8 abc 25
strncpy-with_string_example =
    strncpy-with_string text 20 0 8 abc 25 abc-IsString (inl (omega arith)) (omega arith)

-- A name as long as the buffer, as the name of a directory entry may be.
strncpy_overruns_example : strncpy text 20 0 3 23 ≡ 0
strncpy_overruns_example =
    strncpy_overruns text 20 0 3 abc 23 abc-IsString (inl (omega arith)) (omega arith) (omega arith)
      (omega arith)

safestrcpy-IsString_example :
    let m' = safestrcpy text 20 0 3 in
    IsString m' 20 (take 2 abc) × ((x : ℕ) → (x < 20) ⊎ (23 ≤ x) → m' x ≡ text x)
safestrcpy-IsString_example =
    safestrcpy-IsString text 20 0 3 abc abc-IsString (inl (omega arith)) (omega arith) (omega arith)

memmove-moved_example : memmove text 1 0 3 2 ≡ moved text 1 0 3 2
memmove-moved_example = memmove-moved text 1 0 3 2
