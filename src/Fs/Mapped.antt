-- ===== src/Fs/Mapped.antt =====
-- kern/fs.c: a file without holes is read without a change.
use openproninx.Base.{
  ℕ, zero, suc, ◌+◌, ◌-◌, ◌*◌, ◌/◌, ◌%◌, ◌≤◌, ◌<◌, ◌≡◌, ◌≢◌, inl, inr, refl, ap, ◌∙◌, true,
  Bool-cases, ◌||◌, Option, none, some, List, [], ◌++◌, arith, ◌==◌, ltb, leb, test_ne, ne_test,
  get_or, u32_mod,
}
use openproninx.Fs.{
  Blocks, Store, Superblock, Inode, Step, bsize, ndirect, nindirect, maxfile, bytes_from, bmap,
  chunk, word_at, address_of, entry_of, ◌>>=◌, pure, bmap_single, bmap_double,
}
use openproninx.Fs.Files.{read_from, readable, readi}
use openproninx.Fs.Bitmap.{IsVolume}
use openproninx.Fs.Slots.{at, child, IsFile}
use openproninx.Fs.Bmap.{slot_of}
use openproninx.Fs.Content.{content}
use openproninx.Fs.Read.{reading, readi-content}

-- Every byte below the size lies in a block, and the size is one that `bmap` can reach.
pub record IsMapped (c : Blocks) (ip : Inode) : Type 0 where
  pub reached : ip.size ≤ maxfile * bsize
  pub mapped : (i : ℕ) → i < ip.size → at c ip.addrs (slot_of (i / bsize)) ≢ 0

address_of_mapped :
    (sb : Superblock) (k : ℕ) (ip : Inode) (s : Store)
    → get_or ip.addrs k 0 ≢ 0
    → address_of sb k ip s ≡ some ((get_or ip.addrs k 0, ip), s)
unfolding address_of
address_of_mapped sb k ip s n = rw (ne_test n) refl

-- An entry that is not 0 is in a block, and is there without a step.
entry_of_mapped :
    (sb : Superblock) (b j : ℕ) (s : Store)
    → child s.cache b j ≢ 0
    → (b ≢ 0) × (entry_of sb b j s ≡ some (child s.cache b j, s))
unfolding entry_of
entry_of_mapped sb b j s n = elim (Bool-cases (b == 0)) [
  | inl e ↦ absurd (n (rw e refl))
  | inr e ↦
      let there : word_at (s.cache b) j ≢ 0 = λ z. n (rw e z) in
      (test_ne e, rw (e, ne_test there) refl)
]

pub bind_done :
    {A B : Type 0} (m : Step A) (g : A → Step B) (s : Store) {a : A} {t : Store}
    → m s ≡ some (a, t)
    → (m >>= g) s ≡ g a t
bind_done {B} m g s e =
    ap (λ o. elim o as (λ _. Option (B × Store)) [ none ↦ none | some (a, s') ↦ g a s' ]) e

single_mapped :
    (sb : Superblock) (ip : Inode) (j : ℕ) (s : Store)
    → child s.cache (get_or ip.addrs ndirect 0) j ≢ 0
    → bmap_single sb ip j s ≡ some ((child s.cache (get_or ip.addrs ndirect 0) j, ip), s)
single_mapped sb ip j s n =
    let (b, q) = entry_of_mapped sb (get_or ip.addrs ndirect 0) j s n in
    bind_done {B = ℕ × Inode} (address_of sb ndirect ip)
      (λ p. entry_of sb p.0 j >>= λ a. pure (a, p.1)) s (address_of_mapped sb ndirect ip s b)
    ∙ bind_done {B = ℕ × Inode} (entry_of sb (get_or ip.addrs ndirect 0) j) (λ a. pure (a, ip)) s q

double_mapped :
    (sb : Superblock) (ip : Inode) (k j : ℕ) (s : Store)
    → child s.cache (child s.cache (get_or ip.addrs (ndirect + 1) 0) k) j ≢ 0
    → bmap_double sb ip k j s
      ≡ some ((child s.cache (child s.cache (get_or ip.addrs (ndirect + 1) 0) k) j, ip), s)
double_mapped sb ip k j s n =
    let m = child s.cache (get_or ip.addrs (ndirect + 1) 0) k in
    let (there, q) = entry_of_mapped sb m j s n in
    let (b, q₁) = entry_of_mapped sb (get_or ip.addrs (ndirect + 1) 0) k s there in
    bind_done {B = ℕ × Inode} (address_of sb (ndirect + 1) ip)
      (λ p. entry_of sb p.0 k >>= λ b. entry_of sb b j >>= λ a. pure (a, p.1)) s
      (address_of_mapped sb (ndirect + 1) ip s b)
    ∙ bind_done {B = ℕ × Inode} (entry_of sb (get_or ip.addrs (ndirect + 1) 0) k)
        (λ b. entry_of sb b j >>= λ a. pure (a, ip)) s q₁
    ∙ bind_done {B = ℕ × Inode} (entry_of sb m j) (λ a. pure (a, ip)) s q

-- In a mapped place `bmap` changes nothing.
pub bmap_mapped :
    (sb : Superblock) (ip : Inode) (bn : ℕ) (s : Store)
    → bn < maxfile
    → at s.cache ip.addrs (slot_of bn) ≢ 0
    → bmap sb ip bn s ≡ some ((at s.cache ip.addrs (slot_of bn), ip), s)
unfolding bmap
bmap_mapped sb ip bn s h n = elim (Bool-cases (ltb bn ndirect)) [
  | inl e ↦ rw e (address_of_mapped sb bn ip s (rw e at n))
  | inr e ↦ elim (Bool-cases (ltb (bn - ndirect) nindirect)) [
    | inl e₁ ↦ rw (e, e₁) (single_mapped sb ip (bn - ndirect) s (rw (e, e₁) at n))
    | inr e₁ ↦
        let far : ltb (bn - ndirect - nindirect) (nindirect * nindirect) ≡ true = ground arith in
        rw (e, e₁, far) (double_mapped sb ip _ _ s (rw (e, e₁) at n))
  ]
]

read_from_mapped :
    (fuel : ℕ) (sb : Superblock) (ip : Inode) (off n : ℕ) (s : Store)
    → IsMapped s.cache ip
    → off + n ≤ ip.size
    → n < fuel
    → (l : List ℕ) × (read_from fuel sb ip off n s ≡ some ((l, ip), s))
unfolding read_from
read_from_mapped zero sb ip off n s m h lt = absurd (omega arith)
read_from_mapped (suc fuel) sb ip off n s m h lt = elim (Bool-cases (n == 0)) [
  | inl e ↦ ([], rw e refl)
  | inr e ↦
      let pos : n ≢ 0 = test_ne e in
      let reach = m.reached in
      let inside : off / bsize < maxfile = omega arith in
      let here = bmap_mapped sb ip (off / bsize) s inside (m.mapped off (omega arith)) in
      let (l, q) =
        read_from_mapped fuel sb ip (off + chunk off n) (n - chunk off n) s m (omega arith)
          (omega arith) in
      (
        bytes_from (s.cache (at s.cache ip.addrs (slot_of (off / bsize)))) (off % bsize)
              (chunk off n)
            ++ l,
        rw (e, here, q) refl,
      )
]

-- `readi` of a sound file without holes always returns: -1 for an offset past its size or a range
-- that wraps, otherwise the bytes of the range up to the size. It changes nothing.
pub readi_mapped :
    (sb : Superblock) (ip : Inode) (off n : ℕ) (s : Store)
    → IsVolume sb s.cache
    → IsFile sb s.cache ip
    → IsMapped s.cache ip
    → readi sb ip off n s ≡ some ((reading (content s.cache ip) ip off n, ip), s)
unfolding readi
readi_mapped sb ip off n s v f m =
    let (o, h) = returns in
    let (e, _) = readi-content sb ip off n s v f h in h ∙ ap (λ o. some ((o, ip), s)) e
  where
    returns : (o : Option (List ℕ)) × (readi sb ip off n s ≡ some ((o, ip), s))
    returns = elim (Bool-cases (ltb ip.size off || leb u32_mod (off + n))) [
      | inl e ↦ (none, rw e refl)
      | inr e ↦
          let inside : off + readable ip off n ≤ ip.size = ground arith in
          let (l, q) =
            read_from_mapped (readable ip off n + 1) sb ip off (readable ip off n) s m inside
              (omega arith) in
          (some l, rw (e, q) refl)
    ]
