-- ===== src/Fs/Entry.antt =====
-- kern/fs.c: an address of the inode, or an entry of a block of addresses, is found or allocated.
use openproninx.Base.{
  ℕ, ◌+◌, ◌*◌, ◌<◌, ◌≡◌, ◌≢◌, inl, inr, refl, ap, ◌∙◌, sym, subst, true, Bool-cases, ◌&&◌, Option,
  none, some, List, arith, ◌==◌, ltb, if◌then◌else◌, get_or, set, length, and_true, eq_test,
  test_eq, test_ne, ne_test, get_or-set_self, get_or-set_ne, length-set,
}
use mathlib.Core.Option.{some-injective}
use openproninx.Fs.{
  Store, Superblock, Inode, put_block, word_at, with_word, ndirect, balloc, entry_of, address_of,
}
use openproninx.Fs.Bitmap.{used, IsVolume, Allocated, put_block-used, put_block-IsVolume}
use openproninx.Fs.Alloc.{balloc-Allocated}
use openproninx.Fs.Words.{
  word_at-with_word, word_at-with_word_ne, word_at_cong, word_at_zero, with_word_fits,
}
use openproninx.Fs.Slots.{
  Slot, top, under, at, is_pointer, is_slot, same_slot, same_slot-true, same_slot_self, IsOwned,
  IsFile,
}
use openproninx.Fs.Grow.{Grown, Grown-refl}
use openproninx.Fs.Fill.{slots_after, filled_lem}

top_set :
    (l : List ℕ) (k a i : ℕ)
    → ltb i (length l) ≡ true
    → get_or (set l k a) i 0 ≡ (if k == i then a else get_or l i 0)
top_set l k a i h = elim (Bool-cases (k == i)) [
  | inl e ↦
      let same : k ≡ i = ground arith in
      let inside : k < length l = ground arith in
      rw e (subst (λ m. get_or (set l k a) m 0 ≡ a) same (get_or-set_self l k a 0 inside))
  | inr e ↦ rw e (get_or-set_ne l a 0 (test_ne e))
]

-- The slot of an address has a block after the step, and the file has grown at most.
pub record Found (sb : Superblock) (ip : Inode) (s : Store) (x : Slot) (b : ℕ) (ip' : Inode)
    (s' : Store) : Type 0 where
  pub grown : Grown sb ip s ip' s'
  pub block : at s'.cache ip'.addrs x ≡ b
  pub there : b ≢ 0

-- Allocating a block leaves the entries of the file's own blocks.
kept_entry :
    (sb : Superblock) (ip : Inode) (s : Store) {a : ℕ} {t : Store}
    → IsFile sb s.cache ip
    → Allocated sb s a t
    → (p : Slot) (j : ℕ) → is_slot (under p j) ≡ true
    → at s.cache ip.addrs p ≢ 0
    → word_at (t.cache (at s.cache ip.addrs p)) j ≡ word_at (s.cache (at s.cache ip.addrs p)) j
kept_entry sb ip s {a} {t} f al p j sx n =
    let (_, rest) = and_true (is_pointer p) _ sx in
    let (sp, _) = and_true (is_slot p) _ rest in
    let o = f.owned p sp n in
    word_at_cong (t.cache (at s.cache ip.addrs p)) (s.cache (at s.cache ip.addrs p)) j (λ r h.
      al.others _ (4 * j + r)
        (λ e. absurd (cc (sym o.is_used ∙ ap (used sb s.cache) e ∙ al.was_free)))
        (o.not_map a al.below))

pub address_of-Found :
    (sb : Superblock) (k : ℕ) (ip : Inode) (s : Store) {b : ℕ} {ip' : Inode} {s' : Store}
    → IsVolume sb s.cache
    → IsFile sb s.cache ip
    → ltb k (ndirect + 2) ≡ true
    → address_of sb k ip s ≡ some ((b, ip'), s')
    → Found sb ip s (top k) b ip' s'
unfolding address_of
address_of-Found sb k ip s {b} {ip'} {s'} v f lt h = elim (Bool-cases (get_or ip.addrs k 0 == 0)) [
  | inr e ↦
      subst (λ r. Found sb ip s (top k) r.0.0 r.0.1 r.1) (some-injective _ _ (rw e at h))
        (record { grown = Grown-refl sb ip s v f; block = refl; there = test_ne e })
  | inl e ↦ go e (balloc sb s) refl (rw e at h)
]
  where
    go :
        (get_or ip.addrs k 0 == 0) ≡ true
        → (o : Option (ℕ × Store)) → balloc sb s ≡ o
        → (elim o as (λ _. Option ((ℕ × Inode) × Store)) [
          | none ↦ none
          | some (a, s') ↦ some ((a, record ip { addrs = set ip.addrs k a }), s')
        ])
          ≡ some ((b, ip'), s')
        → Found sb ip s (top k) b ip' s'
    go e none w q = absurd (cc q)
    go e (some (a, t)) w q =
        let al = balloc-Allocated sb s v w in
        let empty : at s.cache ip.addrs (top k) ≡ 0 = test_eq e in
        let new = set ip.addrs k a in
        let slots =
          slots_after sb ip s a t f al (top k) empty new t
            (λ i h. top_set ip.addrs k a i (subst (λ n. ltb i n ≡ true) (sym f.addresses) h))
            (λ p j sx n. kept_entry sb ip s f al p j sx n)
            (λ j. word_at_zero (t.cache a) j al.zeroed) (λ p j z. refl) in
        let grown =
          filled_lem sb ip s a t f al (top k) empty new t slots (λ b i n. refl) al.is_volume
            (λ b h. refl) (length-set ip.addrs k a ∙ f.addresses) in
        subst (λ r. Found sb ip s (top k) r.0.0 r.0.1 r.1) (some-injective _ _ q)
          (record {
            grown = grown;
            block = slots (top k) lt ∙ (rw (eq_test {a = k} refl) refl);
            there = al.not_boot;
          })

-- A new block in an empty entry of the block of a pointer slot.
module _ (sb : Superblock) (ip : Inode) (s : Store) (v : IsVolume sb s.cache)
    (f : IsFile sb s.cache ip) (a : ℕ) (t : Store) (al : Allocated sb s a t) (p : Slot) (j : ℕ)
    (sx : is_slot (under p j) ≡ true) (np : at s.cache ip.addrs p ≢ 0) where
  parent : ℕ
  parent = at s.cache ip.addrs p

  written : Store
  written = put_block parent (with_word (t.cache parent) j a) t

  parent_slot : is_slot p ≡ true
  parent_slot = (and_true (is_slot p) _ (and_true (is_pointer p) _ sx).1).0

  parent-IsOwned : IsOwned sb s.cache ip parent
  unfolding parent
  parent-IsOwned = f.owned p parent_slot np

  entry_here :
      (j' : ℕ)
      → is_slot (under p j') ≡ true
      → word_at (written.cache parent) j' ≡ (if j == j' then a else word_at (s.cache parent) j')
  unfolding written parent
  entry_here j' sx' = elim (Bool-cases (j == j')) [
    | inl e ↦
        rw (e, eq_test {a = parent} refl, sym (test_eq e))
          (word_at-with_word (t.cache parent) j a (omega (arith, al.below, v.word)))
    | inr e ↦
        rw (e, eq_test {a = parent} refl)
          (word_at-with_word_ne (t.cache parent) j a j' (test_ne e)
            ∙ kept_entry sb ip s f al p j' sx' np)
  ]

  entry_anywhere :
      (p' : Slot) (j' : ℕ)
      → is_slot (under p' j') ≡ true
      → at s.cache ip.addrs p' ≢ 0
      → word_at (written.cache (at s.cache ip.addrs p')) j'
        ≡ (if same_slot p p' && j == j' then a else word_at (s.cache (at s.cache ip.addrs p')) j')
  unfolding written parent
  entry_anywhere p' j' sx' np' = elim (Bool-cases (same_slot p p')) [
    | inl e ↦
        let same = same_slot-true p p' e in
        rw e (
          subst
            (λ x.
              word_at (written.cache (at s.cache ip.addrs x)) j'
              ≡ (if j == j' then a else word_at (s.cache (at s.cache ip.addrs x)) j'))
            same (entry_here j' (subst (λ x. is_slot (under x j') ≡ true) (sym same) sx')))
    | inr e ↦
        let sp' = (and_true (is_slot p') _ (and_true (is_pointer p') _ sx').1).0 in
        let apart : parent ≢ at s.cache ip.addrs p' = λ same. absurd (
          cc (
            sym e
            ∙ ap (same_slot p) (sym (f.distinct p p' parent_slot sp' np same))
            ∙ same_slot_self p)) in
        rw (e, ne_test apart) (kept_entry sb ip s f al p' j' sx' np')
  ]

  pub fill_entry :
      at s.cache ip.addrs (under p j) ≡ 0
      → Found sb ip s
          (under p j)
          a
          ip
          (put_block (at s.cache ip.addrs p) (with_word (t.cache (at s.cache ip.addrs p)) j a) t)
  unfolding written parent
  fill_entry empty =
      let not_new : parent ≢ a =
        λ e. absurd (cc (sym parent-IsOwned.is_used ∙ ap (used sb s.cache) e ∙ al.was_free)) in
      let slots =
        slots_after sb ip s a t f al (under p j) empty ip.addrs written (λ i h. refl) entry_anywhere
          (λ j'. rw (ne_test not_new) (word_at_zero (t.cache a) j' al.zeroed))
          (λ p' j' z. elim (Bool-cases (same_slot p p')) [
            | inl e ↦ absurd (np (ap (at s.cache ip.addrs) (same_slot-true p p' e) ∙ z))
            | inr e ↦ rw e refl
          ]) in
      let volume =
        put_block-IsVolume sb t parent (with_word (t.cache parent) j a) al.is_volume
          parent-IsOwned.not_map
          (λ i. with_word_fits (t.cache parent) j a i (al.is_volume.bytes parent i))
          (omega (arith, al.below)) in
      let grown =
        filled_lem sb ip s a t f al (under p j) empty ip.addrs written slots
          (λ b i n. rw (ne_test (n p parent_slot (and_true (is_pointer p) _ sx).0 np)) refl) volume
          (λ b lt.
            put_block-used sb t parent (with_word (t.cache parent) j a) parent-IsOwned.not_map b lt)
          f.addresses in
      record {
        grown = grown;
        block = slots (under p j) sx ∙ (rw (same_slot_self (under p j)) refl);
        there = al.not_boot;
      }

-- The entry `j` of the block of a pointer slot.
pub entry_of-Found :
    (sb : Superblock) (p : Slot) (j : ℕ) (ip : Inode) (s : Store) {b : ℕ} {s' : Store}
    → IsVolume sb s.cache
    → IsFile sb s.cache ip
    → is_slot (under p j) ≡ true
    → at s.cache ip.addrs p ≢ 0
    → entry_of sb (at s.cache ip.addrs p) j s ≡ some (b, s')
    → Found sb ip s (under p j) b ip s'
unfolding entry_of
entry_of-Found sb p j ip s {b} {s'} v f sx np h =
    let here = ne_test np in
    elim (Bool-cases (word_at (s.cache (at s.cache ip.addrs p)) j == 0)) [
      | inr e ↦
          subst (λ r. Found sb ip s (under p j) r.0 ip r.1) (some-injective _ _ (rw e at h))
            (record { grown = Grown-refl sb ip s v f; block = rw here refl; there = test_ne e })
      | inl e ↦ go e (balloc sb s) refl (rw e at h)
    ]
  where
    go :
        (word_at (s.cache (at s.cache ip.addrs p)) j == 0) ≡ true
        → (o : Option (ℕ × Store)) → balloc sb s ≡ o
        → (elim o as (λ _. Option (ℕ × Store)) [
          | none ↦ none
          | some (a, s') ↦ some (
            a,
            put_block (at s.cache ip.addrs p) (with_word (s'.cache (at s.cache ip.addrs p)) j a) s',
          )
        ])
          ≡ some (b, s')
        → Found sb ip s (under p j) b ip s'
    go e none w q = absurd (cc q)
    go e (some (a, t)) w q =
        let al = balloc-Allocated sb s v w in
        let empty : at s.cache ip.addrs (under p j) ≡ 0 = rw (ne_test np) (test_eq e) in
        let filled = fill_entry sb ip s v f a t al p j sx np empty in
        subst (λ r. Found sb ip s (under p j) r.0 ip r.1) (some-injective _ _ q) filled
