-- ===== src/Strings.antt =====
-- lib/string.c: the routines on bytes and on strings that end in a zero byte.
-- Memory is a function from addresses to bytes. A size is a 64-bit word and an `int` result a 32-bit one,
-- negative where its upper half is reached. The walks along a string run on fuel.
pub mod Move
pub mod Compare
pub mod Copy
mod Examples
use openproninx.Base.{
  ℕ, zero, suc, ◌+◌, ◌-◌, ◌%◌, ◌^◌, Bool, true, false, ◌&&◌, ◌||◌, not, Option, none, some, ◌==◌,
  ltb, leb, if◌then◌else◌, sub32, u32_mod, u64_mod,
}

abbrev pub Mem : Type 0
Mem = ℕ → ℕ

-- `*p = x`
abbrev pub put : Mem → ℕ → ℕ → Mem
put m p x q = if p == q then x else m q

-- `a - b` of two bytes, as an `int`.
abbrev pub byte_diff : ℕ → ℕ → ℕ
byte_diff a b = sub32 a b

pub memcmp : Mem → ℕ → ℕ → ℕ → ℕ
memcmp m s1 s2 zero = 0
memcmp m s1 s2 (suc n) =
    let rest = memcmp m (s1 + 1) (s2 + 1) n in
    if m s1 == m s2 then rest else byte_diff (m s1) (m s2)

-- `while (n-- > 0) *d++ = *s++;`
pub copy_up : ℕ → ℕ → ℕ → Mem → Mem
copy_up zero d s m = m
copy_up (suc n) d s m = copy_up n (d + 1) (s + 1) (put m d (m s))

-- `while (n-- > 0) *--d = *--s;`
pub copy_down : ℕ → ℕ → ℕ → Mem → Mem
copy_down zero d s m = m
copy_down (suc n) d s m = copy_down n (d - 1) (s - 1) (put m (d - 1) (m (s - 1)))

pub memcpy : Mem → ℕ → ℕ → ℕ → Mem
memcpy m dst src n = copy_up n dst src m

pub memmove : Mem → ℕ → ℕ → ℕ → Mem
memmove m dst src n =
    if ltb src dst && ltb dst (src + n)
    then copy_down n (dst + n) (src + n) m
    else copy_up n dst src m

pub strcmp : ℕ → Mem → ℕ → ℕ → Option ℕ
strcmp zero m p q = none
strcmp (suc fuel) m p q =
    let rest = strcmp fuel m (p + 1) (q + 1) in
    if not (m p == 0) && m p == m q then rest else some (byte_diff (m p) (m q))

pub strncmp : Mem → ℕ → ℕ → ℕ → ℕ
strncmp m p q zero = 0
strncmp m p q (suc n) =
    let rest = strncmp m (p + 1) (q + 1) n in
    if not (m p == 0) && m p == m q then rest else byte_diff (m p) (m q)

pub strlen : ℕ → Mem → ℕ → Option ℕ
strlen zero m s = none
strlen (suc fuel) m s =
    let rest = strlen fuel m (s + 1) in
    if m s == 0 then some 0 else elim rest [ none ↦ none | some len ↦ some (len + 1) ]

-- The pointer that is returned, which may be null; `none` is out of fuel.
pub strchr : ℕ → Mem → ℕ → ℕ → Option (Option ℕ)
strchr zero m s c = none
strchr (suc fuel) m s c =
    let rest = strchr fuel m (s + 1) c in
    if m s == 0 then some none else if m s == c % 256 then some (some s) else rest

-- `while (n-- > 0) *s++ = 0;`
pub zero_fill : ℕ → ℕ → Mem → Mem
zero_fill zero s m = m
zero_fill (suc n) s m = zero_fill n (s + 1) (put m s 0)

-- The first loop of `strncpy`: where it leaves `s`, the counter after its last test, and the memory. The
-- test takes one off the counter also where it fails: a counter of 0 becomes 2 ^ 64 - 1.
pub copy_string : ℕ → ℕ → ℕ → Mem → ℕ × ℕ × Mem
copy_string zero s t m = (s, u64_mod - 1, m)
copy_string (suc n) s t m =
    let m' : Mem = put m s (m t) in
    let rest = copy_string n (s + 1) (t + 1) m' in if m t == 0 then (s + 1, n, m') else rest

pub strncpy : Mem → ℕ → ℕ → ℕ → Mem
strncpy m s t n = let (s', n', m') = copy_string n s t m in zero_fill n' s' m'

-- The loop of `safestrcpy` for the next `n` bytes: where it leaves `s`, and the memory.
pub safe_copy : ℕ → ℕ → ℕ → Mem → ℕ × Mem
safe_copy zero s t m = (s, m)
safe_copy (suc n) s t m =
    let m' : Mem = put m s (m t) in
    let rest = safe_copy n (s + 1) (t + 1) m' in if m t == 0 then (s + 1, m') else rest

-- `n` is an `int`: what is no positive one changes nothing.
pub safestrcpy : Mem → ℕ → ℕ → ℕ → Mem
safestrcpy m s t n =
    let (s', m') = safe_copy (n - 1) s t m in if n == 0 || leb (2 ^ 31) n then m else put m' s' 0
