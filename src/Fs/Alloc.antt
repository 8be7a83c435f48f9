-- ===== src/Fs/Alloc.antt =====
-- kern/fs.c: what `balloc` and `bfree` give.
use openproninx.Base.{
  ℕ, ◌+◌, ◌/◌, ◌%◌, ◌<◌, ◌≡◌, ◌≢◌, inl, inr, refl, ap, ◌∙◌, sym, subst, Bool, true, false,
  Bool-cases, not, ◌&&◌, ◌||◌, Option, none, some, arith, ◌==◌, eq_test, ne_test, test_eq,
}
use mathlib.Core.Option.{some-injective}
use openproninx.Fs.{
  Store, Superblock, bpb, bblock, put_block, bzero, is_clear, find_free, with_used, balloc,
  with_free, bfree,
}
use openproninx.Fs.Bits.{one_bit_lem}
use openproninx.Fs.Bitmap.{used, IsVolume, Allocated, or_true, same_number, set_bit, clear_bit}
use openproninx.Fs.Search.{find_free-some, find_free_complete}

byte_of_set :
    (sb : Superblock) (s : Store) (a b i : ℕ)
    → ((b i : ℕ) → s.cache b i < 256)
    → (put_block (bblock sb a) (with_used (s.cache (bblock sb a)) a) s).cache b i < 256
byte_of_set sb s a b i bytes =
    let value = s.cache (bblock sb a) i in
    let bit =
      one_bit_lem (a % bpb % 8) 0 value (omega arith) (omega arith) (bytes (bblock sb a) i) in
    elim (Bool-cases (bblock sb a == b)) [
      | inr e ↦ rw e (bytes b i)
      | inl e ↦ elim (Bool-cases (a % bpb / 8 == i)) [
        | inr f ↦ rw (e, f) (bytes (bblock sb a) i)
        | inl f ↦ rw (e, f) bit.set_fits
      ]
    ]

-- A volume stays one when a free block is taken and zeroed.
module _ (sb : Superblock) (s : Store) (v : IsVolume sb s.cache) (a : ℕ) (below : a < sb.size)
    (free : used sb s.cache a ≡ false) where
  marked : Store
  marked = put_block (bblock sb a) (with_used (s.cache (bblock sb a)) a) s

  not_map : (b : ℕ) → b < sb.size → (a == bblock sb b) ≡ false
  not_map b lt = elim (Bool-cases (a == bblock sb b)) [
    | inr e ↦ e
    | inl e ↦
        let same : a ≡ bblock sb b = ground arith in
        absurd (cc (sym free ∙ ap (used sb s.cache) same ∙ v.map_used b lt))
  ]

  map_after :
      (b : ℕ) → b < sb.size → used sb (bzero a marked).cache b ≡ (a == b || used sb s.cache b)
  unfolding marked
  map_after b lt = rw (not_map b lt) (set_bit sb s a b v.bytes)

  boot_free : (a == 0) ≡ false
  boot_free = elim (Bool-cases (a == 0)) [
    | inr e ↦ e
    | inl e ↦
        let same : a ≡ 0 = ground arith in
        absurd (cc (sym free ∙ ap (used sb s.cache) same ∙ v.boot_used))
  ]

  used_after :
      (b : ℕ) → b < sb.size → used sb s.cache b ≡ true → used sb (bzero a marked).cache b ≡ true
  used_after b lt u = map_after b lt ∙ (rw u (or_true (a == b)))

  taken_lem : Allocated sb s a (bzero a marked)
  unfolding marked
  taken_lem = record {
    below = below;
    was_free = free;
    not_boot = λ e. absurd (cc (sym boot_free ∙ ap (λ k. k == 0) e));
    not_in_map = λ k lt e. absurd (cc (sym (not_map k lt) ∙ eq_test e));
    is_volume = record {
      bytes = λ b i. elim (Bool-cases (a == b)) [
        | inl e ↦ rw e (omega arith)
        | inr e ↦ rw e (byte_of_set sb s a b i v.bytes)
      ];
      word = v.word;
      map_in = v.map_in;
      map_used = λ b lt. used_after (bblock sb b) (v.map_in b lt) (v.map_used b lt);
      boot_used = used_after 0 (omega arith) v.boot_used;
    };
    map = map_after;
    zeroed = λ i. rw (same_number a) refl;
    others = λ b i n m. rw (ne_test (λ e. n (sym e)), ne_test (λ e. m (sym e))) refl;
    log = refl;
  }

pub balloc-Allocated :
    (sb : Superblock) (s : Store) {a : ℕ} {s' : Store}
    → IsVolume sb s.cache
    → balloc sb s ≡ some (a, s')
    → Allocated sb s a s'
unfolding balloc marked
balloc-Allocated sb s {a} {s'} v h = go (find_free (sb.size / bpb + 1) sb s.cache 0) refl h
  where
    go :
        (o : Option ℕ)
        → find_free (sb.size / bpb + 1) sb s.cache 0 ≡ o
        → (elim o as (λ _. Option (ℕ × Store)) [
          | none ↦ none
          | some b ↦
              some (b, bzero b (put_block (bblock sb b) (with_used (s.cache (bblock sb b)) b) s))
        ])
          ≡ some (a, s')
        → Allocated sb s a s'
    go none e q = absurd (cc q)
    go (some b) e q =
        let (lt, free) = find_free-some (sb.size / bpb + 1) sb s.cache 0 (omega arith) e in
        let same = some-injective _ _ q in
        subst (λ r. Allocated sb s r.0 r.1) same (taken_lem sb s v b lt free)

-- `balloc` panics on a full volume only: a free block makes it return.
pub balloc_returns :
    (sb : Superblock) (s : Store) (b : ℕ)
    → b < sb.size
    → used sb s.cache b ≡ false
    → (a : ℕ) × (s' : Store) × (balloc sb s ≡ some (a, s'))
unfolding balloc
balloc_returns sb s b lt free = go (find_free (sb.size / bpb + 1) sb s.cache 0) refl
  where
    go :
        (o : Option ℕ)
        → find_free (sb.size / bpb + 1) sb s.cache 0 ≡ o
        → (a : ℕ) × (s' : Store) × ((elim o as (λ _. Option (ℕ × Store)) [
          | none ↦ none
          | some b ↦
              some (b, bzero b (put_block (bblock sb b) (with_used (s.cache (bblock sb b)) b) s))
        ])
            ≡ some (a, s'))
    go none e = absurd (
        find_free_complete (sb.size / bpb + 1) sb s.cache 0 b (omega arith) (omega arith)
          (omega arith) lt free e)
    go (some a) e = (a, _, refl)

-- `bfree` clears the bit of a used block and nothing else; a free block makes it panic.
pub bfree_lem :
    (sb : Superblock) (s : Store) (a : ℕ) {u : Unit {0}} {s' : Store}
    → ((b i : ℕ) → s.cache b i < 256)
    → bfree sb a s ≡ some (u, s')
    → (used sb s.cache a ≡ true)
      × ((b : ℕ) → used sb s'.cache b ≡ (not (a == b) && used sb s.cache b))
      × ((b i : ℕ) → b ≢ bblock sb a → s'.cache b i ≡ s.cache b i)
unfolding bfree
bfree_lem sb s a {u} {s'} bytes h =
    elim (Bool-cases (is_clear (s.cache (bblock sb a) (a % bpb / 8)) (a % bpb))) [
      | inl e ↦ absurd (cc (rw e at h))
      | inr e ↦
          let same = some-injective _ _ (rw e at h) in
          let store : put_block (bblock sb a) (with_free (s.cache (bblock sb a)) a) s ≡ s' =
            ap (λ p. p.1) same in
          (
            ap not e,
            λ b.
                subst (λ t. used sb t.cache b ≡ (not (a == b) && used sb s.cache b)) store
                  (clear_bit sb s a b bytes),
            λ b i n.
                subst (λ t. t.cache b i ≡ s.cache b i) store (rw (ne_test (λ e. n (sym e))) refl),
          )
    ]

-- On a sound volume that has a free block, `balloc` returns a block that was free and is neither the
-- boot block nor of the map. It is zeroed and marked as used; the marks of all other blocks stay, and
-- so do the bytes of all blocks but it and its block of the map. These two are logged.
pub balloc-fresh :
    (sb : Superblock) (s : Store) (b : ℕ)
    → IsVolume sb s.cache
    → b < sb.size
    → used sb s.cache b ≡ false
    → (a : ℕ) × (s' : Store) × (balloc sb s ≡ some (a, s')) × Allocated sb s a s'
balloc-fresh sb s b v lt free =
    let (a, s', q) = balloc_returns sb s b lt free in (a, s', q, balloc-Allocated sb s v q)

bfree_returns :
    (sb : Superblock) (s : Store) (a : ℕ)
    → used sb s.cache a ≡ true
    → (s' : Store) × (bfree sb a s ≡ some (tt, s'))
unfolding bfree
bfree_returns sb s a u =
    let set : is_clear (s.cache (bblock sb a) (a % bpb / 8)) (a % bpb) ≡ false = not_true _ u in
    (put_block (bblock sb a) (with_free (s.cache (bblock sb a)) a) s, rw set refl)
  where
    not_true : (b : Bool) → not b ≡ true → b ≡ false
    not_true true h = absurd (cc h)
    not_true false h = refl

-- A block that `balloc` gave on a sound volume can be freed: `bfree` does not panic, and leaves the
-- mark of every block as it was before the two calls, and the bytes of all blocks but the freed one and
-- its block of the map.
pub bfree-balloc :
    (sb : Superblock) (s : Store) {a : ℕ} {s' : Store}
    → IsVolume sb s.cache
    → balloc sb s ≡ some (a, s')
    → (s'' : Store) × (bfree sb a s' ≡ some (tt, s''))
      × ((b : ℕ) → b < sb.size → used sb s''.cache b ≡ used sb s.cache b)
      × ((b i : ℕ) → b ≢ a → b ≢ bblock sb a → s''.cache b i ≡ s.cache b i)
bfree-balloc sb s {a} {s'} v h =
    let al = balloc-Allocated sb s v h in
    let in_use : used sb s'.cache a ≡ true = al.map a al.below ∙ (rw (eq_test {a = a} refl) refl) in
    let (s'', q) = bfree_returns sb s' a in_use in
    let (_, marks, bytes) = bfree_lem sb s' a al.is_volume.bytes q in
    (
      s'',
      q,
      λ b lt. marks b ∙ (elim (Bool-cases (a == b)) [
        | inl e ↦ rw e (sym al.was_free ∙ ap (used sb s.cache) (test_eq e))
        | inr e ↦ rw e (al.map b lt ∙ (rw e refl))
      ]),
      λ b i n m. bytes b i m ∙ al.others b i n m,
    )
