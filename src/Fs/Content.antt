-- ===== src/Fs/Content.antt =====
-- kern/fs.c: the bytes of a file, as `readi` and `writei` see them through `bmap`.
use openproninx.Base.{
  ℕ, zero, suc, ◌+◌, ◌-◌, ◌*◌, ◌/◌, ◌%◌, ◌<◌, ◌≡◌, inl, inr, refl, ap, ap₂, ◌∙◌, sym, subst, true,
  false, Bool-cases, ◌∷◌, ◌++◌, arith, ◌==◌, ltb, if◌then◌else◌, ne_test,
}
use openproninx.Fs.{
  Blocks, Store, Superblock, Inode, bsize, ndirect, nindirect, maxfile, bytes_from,
}
use openproninx.Fs.Slots.{Slot, top, under, is_pointer, is_slot, value}
use openproninx.Fs.Grow.{Grown}
use openproninx.Fs.Entry.{Found}
use openproninx.Fs.Bmap.{slot_of}

pub slot_of-is_slot : (bn : ℕ) → bn < maxfile → is_slot (slot_of bn) ≡ true
slot_of-is_slot bn h = elim (Bool-cases (ltb bn ndirect)) [
  | inl e ↦ let lt : ltb bn (ndirect + 2) ≡ true = ground arith in rw e lt
  | inr e ↦ elim (Bool-cases (ltb (bn - ndirect) nindirect)) [
    | inl e₁ ↦ rw (e, e₁) e₁
    | inr e₁ ↦
        let row : ltb ((bn - ndirect - nindirect) / nindirect) nindirect ≡ true = ground arith in
        let place : ltb ((bn - ndirect - nindirect) % nindirect) nindirect ≡ true = ground arith in
        rw (e, e₁, row, place) refl
  ]
]

pub slot_of-is_pointer : (bn : ℕ) → is_pointer (slot_of bn) ≡ false
slot_of-is_pointer bn = elim (Bool-cases (ltb bn ndirect)) [
  | inl e ↦
      let low : (bn == ndirect) ≡ false = ground arith in
      let low' : (bn == ndirect + 1) ≡ false = ground arith in rw (e, low, low') refl
  | inr e ↦ elim (Bool-cases (ltb (bn - ndirect) nindirect)) [
    | inl e₁ ↦ rw (e, e₁) refl
    | inr e₁ ↦ rw (e, e₁) refl
  ]
]

-- The place of a slot in the file, so that two places have two slots.
place_of : Slot → ℕ
place_of (top i) = i
place_of (under (top i) j) = ndirect + j
place_of (under (under p k) j) = ndirect + nindirect + (k * nindirect + j)

place_of-slot_of : (bn : ℕ) → place_of (slot_of bn) ≡ bn
unfolding place_of
place_of-slot_of bn = elim (Bool-cases (ltb bn ndirect)) [
  | inl e ↦ rw e refl
  | inr e ↦ elim (Bool-cases (ltb (bn - ndirect) nindirect)) [
    | inl e₁ ↦ rw (e, e₁) (ground arith)
    | inr e₁ ↦
        let whole : ndirect
              + nindirect
              + ((bn - ndirect - nindirect) / nindirect * nindirect
                  + (bn - ndirect - nindirect) % nindirect)
            ≡ bn =
          ground arith in
        rw (e, e₁) whole
  ]
]

pub slot_of-injective : (a b : ℕ) → slot_of a ≡ slot_of b → a ≡ b
slot_of-injective a b h = sym (place_of-slot_of a) ∙ ap place_of h ∙ place_of-slot_of b

-- The byte `i` of a file. A hole reads as zeros.
abbrev pub content : Blocks → Inode → ℕ → ℕ
content c ip i =
    if ltb i (maxfile * bsize) then value c ip.addrs (slot_of (i / bsize)) (i % bsize) else 0

pub Grown-content :
    {sb : Superblock} {ip ip' : Inode} {s s' : Store}
    → Grown sb ip s ip' s'
    → (i : ℕ) → content s'.cache ip' i ≡ content s.cache ip i
Grown-content g i = elim (Bool-cases (ltb i (maxfile * bsize))) [
  | inr e ↦ rw e refl
  | inl e ↦
      let inside : i / bsize < maxfile = ground arith in
      rw e (
        g.values (slot_of (i / bsize)) (i % bsize) (slot_of-is_slot (i / bsize) inside)
          (slot_of-is_pointer (i / bsize)))
]

-- The bytes of the block that `bmap` gives are those of the file.
pub Found-content :
    {sb : Superblock} {ip ip' : Inode} {s s' : Store} {b : ℕ} (off r : ℕ)
    → off / bsize < maxfile
    → Found sb ip s (slot_of (off / bsize)) b ip' s'
    → r < bsize - off % bsize
    → s'.cache b (off % bsize + r) ≡ content s.cache ip (off + r)
Found-content {ip'} {s'} {b} off r inside g h =
    let low : ltb (off + r) (maxfile * bsize) ≡ true = ground arith in
    let row : (off + r) / bsize ≡ off / bsize = omega arith in
    let place : (off + r) % bsize ≡ off % bsize + r = omega arith in
    let here : content s'.cache ip' (off + r) ≡ s'.cache b (off % bsize + r) =
      rw (low, row, place, g.block, ne_test g.there) refl in
    sym here ∙ Grown-content g.grown (off + r)

pub bytes_from_cong :
    (f g : ℕ → ℕ) (i j k : ℕ)
    → ((r : ℕ) → r < k → f (i + r) ≡ g (j + r))
    → bytes_from f i k ≡ bytes_from g j k
bytes_from_cong f g i j zero h = refl
bytes_from_cong f g i j (suc k) h =
    let first : f i ≡ g j =
      subst (λ m. f m ≡ g j) (omega arith)
        (subst (λ m. f (i + 0) ≡ g m) (omega arith) (h 0 (omega arith))) in
    let rest = bytes_from_cong f g (i + 1) (j + 1) k (λ r lt.
      subst (λ m. f m ≡ g (j + 1 + r)) (omega arith)
        (subst (λ m. f (i + suc r) ≡ g m) (omega arith) (h (suc r) (omega arith)))) in
    ap₂ (λ x l. x ∷ l) first rest

pub bytes_from-append :
    (f : ℕ → ℕ) (i a b : ℕ) → bytes_from f i a ++ bytes_from f (i + a) b ≡ bytes_from f i (a + b)
bytes_from-append f i zero b =
    ap (λ k. bytes_from f k b) (omega arith) ∙ ap (bytes_from f i) (omega arith)
bytes_from-append f i (suc a) b =
    let e : suc a + b ≡ suc (a + b) = omega arith in
    let e' : i + suc a ≡ i + 1 + a = omega arith in
    rw (e, e') (ap (λ l. f i ∷ l) (bytes_from-append f (i + 1) a b))
