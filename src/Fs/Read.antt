-- ===== src/Fs/Read.antt =====
-- kern/fs.c: `readi` gives the bytes of the file.
use openproninx.Base.{
  ℕ, zero, suc, ◌+◌, ◌-◌, ◌/◌, ◌%◌, ◌<◌, ◌≡◌, inl, inr, refl, ap, ap₂, ◌∙◌, sym, subst, Bool-cases,
  ◌||◌, Option, none, some, List, ◌++◌, arith, ◌==◌, ltb, leb, if◌then◌else◌, test_eq, u32_mod,
}
use mathlib.Core.Option.{some-injective}
use openproninx.Fs.{Store, Superblock, Inode, bsize, maxfile, bytes_from, bmap, chunk}
use openproninx.Fs.Files.{read_from, readable, readi}
use openproninx.Fs.Bitmap.{IsVolume}
use openproninx.Fs.Slots.{IsFile}
use openproninx.Fs.Grow.{Grown, Grown-refl, Grown-trans}
use openproninx.Fs.Entry.{Found}
use openproninx.Fs.Bmap.{slot_of, bmap-Found}
use openproninx.Fs.Content.{
  content, Grown-content, Found-content, bytes_from_cong, bytes_from-append,
}

-- One round and the rest.
two_parts :
    (sb : Superblock) (ip : Inode) (s : Store) (off n : ℕ) {b : ℕ} {ip' : Inode} {s' : Store}
    → off / bsize < maxfile
    → Found sb ip s (slot_of (off / bsize)) b ip' s'
    → bytes_from (s'.cache b) (off % bsize) (chunk off n)
        ++ bytes_from (content s'.cache ip') (off + chunk off n) (n - chunk off n)
      ≡ bytes_from (content s.cache ip) off n
two_parts sb ip s off n {b} {ip'} {s'} inside g =
    let m = chunk off n in
    let first =
      bytes_from_cong (s'.cache b) (content s.cache ip) (off % bsize) off m
        (λ r lt. Found-content off r inside g (omega arith)) in
    let second =
      bytes_from_cong (content s'.cache ip') (content s.cache ip) (off + m) (off + m) (n - m)
        (λ r lt. Grown-content g.grown (off + m + r)) in
    let whole : m + (n - m) ≡ n = omega arith in
    ap₂ (λ x y. x ++ y) first second
    ∙ bytes_from-append (content s.cache ip) off m (n - m)
    ∙ ap (bytes_from (content s.cache ip) off) whole

read_from_lem :
    (fuel : ℕ) (sb : Superblock) (ip : Inode) (off n : ℕ) (s : Store) {l : List ℕ} {ip' : Inode}
    {s' : Store}
    → IsVolume sb s.cache
    → IsFile sb s.cache ip
    → read_from fuel sb ip off n s ≡ some ((l, ip'), s')
    → (l ≡ bytes_from (content s.cache ip) off n) × Grown sb ip s ip' s'
unfolding read_from
read_from_lem zero sb ip off n s v f h = absurd (cc h)
read_from_lem (suc fuel) sb ip off n s {l} {ip'} {s'} v f h = elim (Bool-cases (n == 0)) [
  | inl e ↦
      let none_left : n ≡ 0 = test_eq e in
      let same = some-injective _ _ (rw e at h) in
      (
        sym (ap (λ r. r.0.0) same) ∙ ap (bytes_from (content s.cache ip) off) (sym none_left),
        subst (λ r. Grown sb ip s r.0.1 r.1) same (Grown-refl sb ip s v f),
      )
  | inr e ↦
      go
        (λ ip₁ s₁ v₁ f₁ r.
          read_from_lem fuel sb ip₁ (off + chunk off n) (n - chunk off n) s₁ {l = r.0.0}
            {ip' = r.0.1} {s' = r.1} v₁ f₁)
        (bmap sb ip (off / bsize) s) refl (rw e at h)
]
  where
    go :
        ((ip₁ : Inode) (s₁ : Store)
          → IsVolume sb s₁.cache
          → IsFile sb s₁.cache ip₁
          → (r : (List ℕ × Inode) × Store)
          → read_from fuel sb ip₁ (off + chunk off n) (n - chunk off n) s₁ ≡ some r
          → (r.0.0 ≡ bytes_from (content s₁.cache ip₁) (off + chunk off n) (n - chunk off n))
            × Grown sb ip₁ s₁ r.0.1 r.1)
        → (o : Option ((ℕ × Inode) × Store)) → bmap sb ip (off / bsize) s ≡ o
        → (elim o as (λ _. Option ((List ℕ × Inode) × Store)) [
          | none ↦ none
          | some ((b, ip₁), s₁) ↦
              elim (read_from fuel sb ip₁ (off + chunk off n) (n - chunk off n) s₁) [
                | none ↦ none
                | some ((bytes, ip₂), s₂) ↦
                    some ((bytes_from (s₁.cache b) (off % bsize) (chunk off n) ++ bytes, ip₂), s₂)
              ]
        ])
          ≡ some ((l, ip'), s')
        → (l ≡ bytes_from (content s.cache ip) off n) × Grown sb ip s ip' s'
    go rec none w q = absurd (cc q)
    go rec (some ((b, ip₁), s₁)) w q =
        later (read_from fuel sb ip₁ (off + chunk off n) (n - chunk off n) s₁) refl q
      where
        later :
            (o : Option ((List ℕ × Inode) × Store))
            → read_from fuel sb ip₁ (off + chunk off n) (n - chunk off n) s₁ ≡ o
            → (elim o as (λ _. Option ((List ℕ × Inode) × Store)) [
              | none ↦ none
              | some ((bytes, ip₂), s₂) ↦
                  some ((bytes_from (s₁.cache b) (off % bsize) (chunk off n) ++ bytes, ip₂), s₂)
            ])
              ≡ some ((l, ip'), s')
            → (l ≡ bytes_from (content s.cache ip) off n) × Grown sb ip s ip' s'
        later none w' q' = absurd (cc q')
        later (some ((bytes, ip₂), s₂)) w' q' =
            let (inside, g) = bmap-Found sb ip (off / bsize) s v f w in
            let (same_bytes, g') =
              rec ip₁ s₁ g.grown.evolved.is_volume g.grown.evolved.is_file ((bytes, ip₂), s₂) w' in
            let same = some-injective _ _ q' in
            (
              sym (ap (λ r. r.0.0) same)
                  ∙ ap (λ x. bytes_from (s₁.cache b) (off % bsize) (chunk off n) ++ x) same_bytes
                  ∙ two_parts sb ip s off n inside g,
              subst (λ r. Grown sb ip s r.0.1 r.1) same (Grown-trans g.grown g'),
            )

-- What `readi` reads of a content and a size.
abbrev pub reading : (ℕ → ℕ) → Inode → ℕ → ℕ → Option (List ℕ)
reading f ip off n =
    if ltb ip.size off || leb u32_mod (off + n)
    then none
    else some (bytes_from f off (readable ip off n))

pub readi-content :
    (sb : Superblock) (ip : Inode) (off n : ℕ) (s : Store) {o : Option (List ℕ)} {ip' : Inode}
    {s' : Store}
    → IsVolume sb s.cache
    → IsFile sb s.cache ip
    → readi sb ip off n s ≡ some ((o, ip'), s')
    → (o ≡ reading (content s.cache ip) ip off n) × Grown sb ip s ip' s'
unfolding readi
readi-content sb ip off n s {o} {ip'} {s'} v f h =
    elim (Bool-cases (ltb ip.size off || leb u32_mod (off + n))) [
      | inl e ↦
          let same = some-injective _ _ (rw e at h) in
          (
            rw e (sym (ap (λ r. r.0.0) same)),
            subst (λ r. Grown sb ip s r.0.1 r.1) same (Grown-refl sb ip s v f),
          )
      | inr e ↦
          rw e (
            go (read_from (readable ip off n + 1) sb ip off (readable ip off n) s) refl (rw e at h))
    ]
  where
    go :
        (r : Option ((List ℕ × Inode) × Store))
        → read_from (readable ip off n + 1) sb ip off (readable ip off n) s ≡ r
        → (elim r as (λ _. Option ((Option (List ℕ) × Inode) × Store)) [
          | none ↦ none
          | some ((bytes, ip'), s') ↦ some ((some bytes, ip'), s')
        ])
          ≡ some ((o, ip'), s')
        → (o ≡ some (bytes_from (content s.cache ip) off (readable ip off n)))
          × Grown sb ip s ip' s'
    go none w q = absurd (cc q)
    go (some ((bytes, ip₁), s₁)) w q =
        let (same_bytes, g) =
          read_from_lem (readable ip off n + 1) sb ip off (readable ip off n) s v f w in
        let same = some-injective _ _ q in
        (
          sym (ap (λ r. r.0.0) same) ∙ ap some same_bytes,
          subst (λ r. Grown sb ip s r.0.1 r.1) same g,
        )
