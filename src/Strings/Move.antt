-- ===== src/Strings/Move.antt =====
-- lib/string.c: `memmove`, `memcpy` and `memcmp`.
use openproninx.Base.{
  ℕ, zero, suc, ◌+◌, ◌-◌, ◌≤◌, ◌≡◌, ◌⊎◌, inl, inr, ap, ◌∙◌, false, ◌&&◌, Bool-cases, arith, ltb,
  leb, if◌then◌else◌,
}
use openproninx.Strings.{Mem, put, copy_up, copy_down, memcpy, memmove}

-- The memory `m` with the `n` bytes from `dst` on replaced by those that stood from `src` on.
abbrev pub moved : Mem → ℕ → ℕ → ℕ → Mem
moved m dst src n x = if leb dst x && ltb x (dst + n) then m (src + (x - dst)) else m x

copy_up-moved :
    (n d s : ℕ) (m : Mem) (x : ℕ) → (d ≤ s) ⊎ (s + n ≤ d) → copy_up n d s m x ≡ moved m d s n x
unfolding copy_up
copy_up-moved zero d s m x h = ground arith
copy_up-moved (suc n) d s m x h =
    copy_up-moved n (d + 1) (s + 1) (put m d (m s)) x (ground (arith, h))
    ∙ ground (
      arith,
      h,
      ap m {x = s + 1 + (x - (d + 1))} {y = s + (x - d)},
      ap m {x = s} {y = s + (x - d)},
    )

copy_down-moved :
    (n d s : ℕ) (m : Mem) (x : ℕ) → s ≤ d → copy_down n (d + n) (s + n) m x ≡ moved m d s n x
unfolding copy_down
copy_down-moved zero d s m x h = ground arith
copy_down-moved (suc n) d s m x h =
    let top : d + suc n - 1 ≡ d + n = omega arith in
    let from : s + suc n - 1 ≡ s + n = omega arith in
    rw (top, from)
      (copy_down-moved n d s (put m (d + n) (m (s + n))) x h
        ∙ ground (arith, ap m {x = s + n} {y = s + (x - d)}))

-- `memmove` moves the bytes as they stood, however the two ranges overlap, and changes no other byte.
pub memmove-moved : (m : Mem) (dst src n x : ℕ) → memmove m dst src n x ≡ moved m dst src n x
unfolding memmove
memmove-moved m dst src n x = elim (Bool-cases (ltb src dst && ltb dst (src + n))) [
  | inl e ↦ rw e (copy_down-moved n dst src m x (ground arith))
  | inr e ↦ rw e (copy_up-moved n dst src m x (apart e))
]
  where
    apart : (ltb src dst && ltb dst (src + n)) ≡ false → (dst ≤ src) ⊎ (src + n ≤ dst)
    apart e = elim (Bool-cases (leb dst src)) [
      | inl q ↦ inl (ground arith)
      | inr q ↦ inr (ground arith)
    ]

-- `memcpy` does so for ranges whose destination does not begin inside the source behind its start.
pub memcpy-moved :
    (m : Mem) (dst src n x : ℕ)
    → (dst ≤ src) ⊎ (src + n ≤ dst)
    → memcpy m dst src n x ≡ moved m dst src n x
unfolding memcpy
memcpy-moved m dst src n x h = copy_up-moved n dst src m x h
