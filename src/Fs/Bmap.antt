-- ===== src/Fs/Bmap.antt =====
-- kern/fs.c: `bmap` finds the block of a place in a file, and allocates the blocks on the way.
use openproninx.Base.{
  ℕ, ◌+◌, ◌-◌, ◌*◌, ◌/◌, ◌%◌, ◌<◌, ◌≡◌, ◌≢◌, inl, inr, refl, ap, ◌∙◌, sym, subst, true, Bool-cases,
  Option, none, some, arith, ltb, if◌then◌else◌,
}
use mathlib.Core.Option.{some-injective}
use openproninx.Fs.{
  Store, Superblock, Inode, Step, ◌>>=◌, pure, ndirect, nindirect, maxfile, entry_of, address_of,
  bmap_single, bmap_double, bmap,
}
use openproninx.Fs.Bitmap.{IsVolume}
use openproninx.Fs.Slots.{Slot, top, under, at, IsFile}
use openproninx.Fs.Grow.{Grown-trans}
use openproninx.Fs.Entry.{Found, address_of-Found, entry_of-Found}

-- The slot of the block `bn` of a file.
abbrev pub slot_of : ℕ → Slot
slot_of bn =
    let single : ℕ = bn - ndirect in
    let double : ℕ = single - nindirect in
    if ltb bn ndirect
    then top bn
    else if ltb single nindirect
    then under (top ndirect) single
    else under (under (top (ndirect + 1)) (double / nindirect)) (double % nindirect)

-- A step that returned is two that returned.
pub bind_some :
    {A B : Type 0} (m : Step A) (g : A → Step B) (s : Store) {r : B × Store}
    → (m >>= g) s ≡ some r
    → (a : A) × (t : Store) × (m s ≡ some (a, t)) × (g a t ≡ some r)
bind_some {A} {B} m g s {r} h = go (m s) refl h
  where
    go :
        (o : Option (A × Store))
        → m s ≡ o
        → (elim o as (λ _. Option (B × Store)) [ none ↦ none | some (a, s') ↦ g a s' ]) ≡ some r
        → (a : A) × (t : Store) × (m s ≡ some (a, t)) × (g a t ≡ some r)
    go none e q = absurd (cc q)
    go (some (a, t)) e q = (a, t, e, q)

-- A slot found on the way to the next.
Found-trans :
    {sb : Superblock} {ip ip' ip'' : Inode} {s s' s'' : Store} {x y : Slot} {b b' : ℕ}
    → Found sb ip s x b ip' s'
    → Found sb ip' s' y b' ip'' s''
    → Found sb ip s y b' ip'' s''
Found-trans g h = record { grown = Grown-trans g.grown h.grown; block = h.block; there = h.there }

single_Found :
    (sb : Superblock) (ip : Inode) (j : ℕ) (s : Store) {b : ℕ} {ip' : Inode} {s' : Store}
    → IsVolume sb s.cache
    → IsFile sb s.cache ip
    → ltb j nindirect ≡ true
    → bmap_single sb ip j s ≡ some ((b, ip'), s')
    → Found sb ip s (under (top ndirect) j) b ip' s'
single_Found sb ip j s {b} {ip'} {s'} v f lt h =
    let ((i, ip₁), t, e, r) =
      bind_some {B = ℕ × Inode} (address_of sb ndirect ip)
        (λ p. entry_of sb p.0 j >>= λ a. pure (a, p.1)) s h in
    let (a, u, e', r') = bind_some {B = ℕ × Inode} (entry_of sb i j) (λ a. pure (a, ip₁)) t r in
    let g = address_of-Found sb ndirect ip s v f refl e in
    let there : at t.cache ip₁.addrs (top ndirect) ≢ 0 = λ z. g.there (sym g.block ∙ z) in
    let e'' : entry_of sb (at t.cache ip₁.addrs (top ndirect)) j t ≡ some (a, u) =
      ap (λ k. entry_of sb k j t) g.block ∙ e' in
    let q =
      entry_of-Found sb (top ndirect) j ip₁ t g.grown.evolved.is_volume g.grown.evolved.is_file
        (rw lt refl) there e'' in
    subst (λ k. Found sb ip s (under (top ndirect) j) k.0.0 k.0.1 k.1) (some-injective _ _ r')
      (Found-trans g q)

double_Found :
    (sb : Superblock) (ip : Inode) (k j : ℕ) (s : Store) {b : ℕ} {ip' : Inode} {s' : Store}
    → IsVolume sb s.cache
    → IsFile sb s.cache ip
    → ltb k nindirect ≡ true
    → ltb j nindirect ≡ true
    → bmap_double sb ip k j s ≡ some ((b, ip'), s')
    → Found sb ip s (under (under (top (ndirect + 1)) k) j) b ip' s'
double_Found sb ip k j s {b} {ip'} {s'} v f kt lt h =
    let ((i, ip₁), t, e, r) =
      bind_some {B = ℕ × Inode} (address_of sb (ndirect + 1) ip)
        (λ p. entry_of sb p.0 k >>= λ b. entry_of sb b j >>= λ a. pure (a, p.1)) s h in
    let (m, w, e₁, r₁) =
      bind_some {B = ℕ × Inode} (entry_of sb i k) (λ b. entry_of sb b j >>= λ a. pure (a, ip₁)) t
        r in
    let (a, u, e₂, r₂) = bind_some {B = ℕ × Inode} (entry_of sb m j) (λ a. pure (a, ip₁)) w r₁ in
    let g = address_of-Found sb (ndirect + 1) ip s v f refl e in
    let there : at t.cache ip₁.addrs (top (ndirect + 1)) ≢ 0 = λ z. g.there (sym g.block ∙ z) in
    let q =
      entry_of-Found sb (top (ndirect + 1)) k ip₁ t g.grown.evolved.is_volume
        g.grown.evolved.is_file (rw kt refl) there (ap (λ n. entry_of sb n k t) g.block ∙ e₁) in
    let there' : at w.cache ip₁.addrs (under (top (ndirect + 1)) k) ≢ 0 =
      λ z. q.there (sym q.block ∙ z) in
    let q' =
      entry_of-Found sb (under (top (ndirect + 1)) k) j ip₁ w q.grown.evolved.is_volume
        q.grown.evolved.is_file (rw (kt, lt) refl) there'
        (ap (λ n. entry_of sb n j w) q.block ∙ e₂) in
    subst (λ n. Found sb ip s (under (under (top (ndirect + 1)) k) j) n.0.0 n.0.1 n.1)
      (some-injective _ _ r₂) (Found-trans (Found-trans g q) q')

-- `bmap` finds a block for its slot.
pub bmap-Found :
    (sb : Superblock) (ip : Inode) (bn : ℕ) (s : Store) {b : ℕ} {ip' : Inode} {s' : Store}
    → IsVolume sb s.cache
    → IsFile sb s.cache ip
    → bmap sb ip bn s ≡ some ((b, ip'), s')
    → (bn < maxfile) × Found sb ip s (slot_of bn) b ip' s'
unfolding bmap
bmap-Found sb ip bn s {b} {ip'} {s'} v f h = elim (Bool-cases (ltb bn ndirect)) [
  | inl e ↦
      let lt : ltb bn (ndirect + 2) ≡ true = ground arith in
      let inside : bn < maxfile = ground arith in
      (inside, rw e (address_of-Found sb bn ip s v f lt (rw e at h)))
  | inr e ↦ elim (Bool-cases (ltb (bn - ndirect) nindirect)) [
    | inl e₁ ↦
        let inside : bn < maxfile = ground arith in
        (inside, rw (e, e₁) (single_Found sb ip (bn - ndirect) s v f e₁ (rw (e, e₁) at h)))
    | inr e₁ ↦ elim (Bool-cases (ltb (bn - ndirect - nindirect) (nindirect * nindirect))) [
      | inr e₂ ↦ absurd (cc (rw (e, e₁, e₂) at h))
      | inl e₂ ↦
          let inside : bn < maxfile = ground arith in
          let row : ltb ((bn - ndirect - nindirect) / nindirect) nindirect ≡ true = ground arith in
          let place : ltb ((bn - ndirect - nindirect) % nindirect) nindirect ≡ true =
            ground arith in
          (
            inside,
            rw (e, e₁)
                (double_Found sb ip ((bn - ndirect - nindirect) / nindirect)
                  ((bn - ndirect - nindirect) % nindirect) s v f row place (rw (e, e₁, e₂) at h)),
          )
    ]
  ]
]
