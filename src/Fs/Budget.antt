-- ===== src/Fs/Budget.antt =====
-- kern/fs.c: what finding or allocating an address logs.
use openproninx.Base.{
  ℕ, ◌+◌, ◌≤◌, ◌≡◌, ◌≢◌, ◌⊎◌, inl, inr, refl, ap, ◌∙◌, sym, Bool, true, false, Bool-cases, ◌&&◌,
  ◌||◌, Option, none, some, ◌∷◌, arith, ◌==◌, ltb, and_true, test_eq, get_or, set,
}
use mathlib.Core.Option.{some-injective}
use openproninx.Fs.{
  Store, Superblock, Inode, bpb, bblock, ndirect, balloc, address_of, entry_of, put_block, word_at,
  with_word,
}
use openproninx.Fs.Bitmap.{IsVolume, Allocated}
use openproninx.Fs.Alloc.{balloc-Allocated}
use openproninx.Fs.Slots.{Slot, top, under, at, is_slot, is_pointer, IsFile}
use openproninx.Fs.Grow.{Evolved}
use openproninx.Fs.Entry.{Found, address_of-Found, entry_of-Found}
pub use openproninx.Log.Calls.{logged}

-- A slot and those that it hangs from are in a set.
abbrev pub up : (Slot → Bool) → Slot → Bool
up q (top i) = q (top i)
up q (under p j) = q (under p j) && up q p

-- A block is the map's, or that of a slot of a set.
abbrev pub Touched : Superblock → (Slot → Bool) → Inode → Store → ℕ → Type 0
Touched sb q ip s k =
    (k ≡ sb.bmapstart)
    ⊎ ((x : Slot) × (q x ≡ true) × (is_slot x ≡ true) × (k ≢ 0) × (at s.cache ip.addrs x ≡ k))

-- What a step logs is the map's, or that of a slot of a set.
unfoldable pub Logs : Superblock → (Slot → Bool) → Store → Inode → Store → Type 0
Logs sb q s ip' s' =
    (k : ℕ) → logged k s'.logged ≡ true → (logged k s.logged ≡ true) ⊎ Touched sb q ip' s' k

pub or_cases : (a b : Bool) → a || b ≡ true → (a ≡ true) ⊎ (b ≡ true)
or_cases true b h = inl refl
or_cases false b h = inr h

pub kept-Touched :
    {sb : Superblock} {q : Slot → Bool} {ip ip' : Inode} {s s' : Store} {k : ℕ}
    → Evolved sb ip s ip' s'
    → Touched sb q ip s k
    → Touched sb q ip' s' k
kept-Touched e (inl m) = inl m
kept-Touched e (inr (x, qx, sx, n, h)) = inr (x, qx, sx, n, e.kept x sx (λ z. n (sym h ∙ z)) ∙ h)

pub Logs-trans :
    (sb : Superblock) (q : Slot → Bool) (s : Store) {ip' ip'' : Inode} {s' s'' : Store}
    → Evolved sb ip' s' ip'' s''
    → Logs sb q s ip' s'
    → Logs sb q s' ip'' s''
    → Logs sb q s ip'' s''
unfolding Logs
Logs-trans sb q s e g h k w = elim (h k w) [
  | inr t ↦ inr t
  | inl w' ↦ elim (g k w') [ inl w'' ↦ inl w'' | inr t ↦ inr (kept-Touched e t) ]
]

-- What `balloc` logs: its block, and a block of the map, which has one block on a volume of this size.
balloc_logged :
    {sb : Superblock} {s : Store} {a : ℕ} {t : Store}
    → Allocated sb s a t
    → sb.size ≤ bpb
    → (k : ℕ) → logged k t.logged ≡ true
    → (k ≡ a) ⊎ ((k ≡ sb.bmapstart) ⊎ (logged k s.logged ≡ true))
balloc_logged {sb} {s} {a} al small k h =
    let split : logged k (a ∷ bblock sb a ∷ s.logged) ≡ true = sym (ap (logged k) al.log) ∙ h in
    elim (or_cases (a == k) _ split) [
      | inl e ↦ inl (sym (test_eq e))
      | inr r ↦ elim (or_cases (bblock sb a == k) _ r) [
        | inl e ↦
            let same = test_eq e in let b = al.below in inr (inl (omega (arith, same, b, small)))
        | inr r' ↦ inr (inr r')
      ]
    ]

pub address_of-Logs :
    (sb : Superblock) (q : Slot → Bool) (j : ℕ) (ip : Inode) (s : Store) {b : ℕ} {ip' : Inode}
    {s' : Store}
    → IsVolume sb s.cache
    → IsFile sb s.cache ip
    → sb.size ≤ bpb
    → ltb j (ndirect + 2) ≡ true
    → q (top j) ≡ true
    → address_of sb j ip s ≡ some ((b, ip'), s')
    → Logs sb q s ip' s'
unfolding address_of Logs
address_of-Logs sb q j ip s {b} {ip'} {s'} v f small lt qx h k w =
    let found = address_of-Found sb j ip s v f lt h in
    elim (Bool-cases (get_or ip.addrs j 0 == 0)) [
      | inr e ↦ inl (ap (λ r. logged k r.1.logged) (some-injective _ _ (rw e at h)) ∙ w)
      | inl e ↦ go found (balloc sb s) refl (rw e at h)
    ]
  where
    go :
        Found sb ip s (top j) b ip' s'
        → (o : Option (ℕ × Store)) → balloc sb s ≡ o
        → (elim o as (λ _. Option ((ℕ × Inode) × Store)) [
          | none ↦ none
          | some (a, s') ↦ some ((a, record ip { addrs = set ip.addrs j a }), s')
        ])
          ≡ some ((b, ip'), s')
        → (logged k s.logged ≡ true) ⊎ Touched sb q ip' s' k
    go found none c r = absurd (cc r)
    go found (some (a, t)) c r =
        let same = some-injective _ _ r in
        let al = balloc-Allocated sb s v c in
        elim (balloc_logged al small k (ap (λ p. logged k p.1.logged) same ∙ w)) [
          | inl e ↦
              let here : k ≡ b = e ∙ ap (λ p. p.0.0) same in
              inr (inr (top j, qx, lt, (λ z. found.there (sym here ∙ z)), found.block ∙ sym here))
          | inr (inl m) ↦ inr (inl m)
          | inr (inr w') ↦ inl w'
        ]

pub up_self : (q : Slot → Bool) (p : Slot) → up q p ≡ true → q p ≡ true
up_self q (top i) h = h
up_self q (under p j) h = (and_true (q (under p j)) (up q p) h).0

pub entry_of-Logs :
    (sb : Superblock) (q : Slot → Bool) (p : Slot) (j : ℕ) (ip : Inode) (s : Store) {b : ℕ}
    {s' : Store}
    → IsVolume sb s.cache
    → IsFile sb s.cache ip
    → sb.size ≤ bpb
    → is_slot (under p j) ≡ true
    → up q (under p j) ≡ true
    → at s.cache ip.addrs p ≢ 0
    → entry_of sb (at s.cache ip.addrs p) j s ≡ some (b, s')
    → Logs sb q s ip s'
unfolding entry_of Logs
entry_of-Logs sb q p j ip s {b} {s'} v f small sx qx np h k w =
    let found = entry_of-Found sb p j ip s v f sx np h in
    elim (Bool-cases (word_at (s.cache (at s.cache ip.addrs p)) j == 0)) [
      | inr e ↦ inl (ap (λ r. logged k r.1.logged) (some-injective _ _ (rw e at h)) ∙ w)
      | inl e ↦ go found (balloc sb s) refl (rw e at h)
    ]
  where
    go :
        Found sb ip s (under p j) b ip s'
        → (o : Option (ℕ × Store)) → balloc sb s ≡ o
        → (elim o as (λ _. Option (ℕ × Store)) [
          | none ↦ none
          | some (a, s') ↦ some (
            a,
            put_block (at s.cache ip.addrs p) (with_word (s'.cache (at s.cache ip.addrs p)) j a) s',
          )
        ])
          ≡ some (b, s')
        → (logged k s.logged ≡ true) ⊎ Touched sb q ip s' k
    go found none c r = absurd (cc r)
    go found (some (a, t)) c r =
        let same = some-injective _ _ r in
        let al = balloc-Allocated sb s v c in
        let sp = (and_true (is_slot p) _ (and_true (is_pointer p) _ sx).1).0 in
        let (qu, upper) = and_true (q (under p j)) (up q p) qx in
        elim (or_cases (at s.cache ip.addrs p == k) _ (ap (λ n. logged k n.1.logged) same ∙ w)) [
          | inl e ↦
              let here = test_eq e in
              inr (
                inr (
                  p,
                  up_self q p upper,
                  sp,
                  (λ z. np (here ∙ z)),
                  found.grown.evolved.kept p sp np ∙ here,
                ))
          | inr w₁ ↦ elim (balloc_logged al small k w₁) [
            | inl e ↦
                let here : k ≡ b = e ∙ ap (λ n. n.0) same in
                inr (
                  inr
                    (under p j, qu, sx, (λ z. found.there (sym here ∙ z)), found.block ∙ sym here))
            | inr (inl m) ↦ inr (inl m)
            | inr (inr w') ↦ inl w'
          ]
        ]
