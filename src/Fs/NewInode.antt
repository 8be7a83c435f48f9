-- ===== src/Fs/NewInode.antt =====
-- kern/fs.c: `ialloc` gives a free inode and leaves it new.
use openproninx.Base.{
  ℕ, zero, suc, ◌+◌, ◌-◌, ◌*◌, ◌/◌, ◌%◌, ◌≤◌, ◌<◌, ◌≡◌, ◌≢◌, inl, inr, refl, ap, ◌∙◌, sym,
  Bool-cases, some, arith, ◌==◌, ltb, if◌then◌else◌, eq_test, test_eq, test_ne, ne_test, replicate,
}
use openproninx.Fs.{Store, Superblock, Inode, put_block}
use openproninx.Fs.Inodes.{
  dinode_size, ipb, iblock, byte_of, half_at, inode_at, with_new_inode, ialloc_from, ialloc,
}
use openproninx.Fs.Dinode.{inode_at_cong}

-- `dip->type` of an inode on the disk.
abbrev pub type_of : Superblock → Store → ℕ → ℕ
type_of sb s inum = half_at (s.cache (iblock sb inum)) (dinode_size * (inum % ipb))

-- The inode that `ialloc` leaves: the type, and zeros.
abbrev pub new_inode : ℕ → ℕ → Inode
new_inode inum type = record {
  inum = inum;
  type = type;
  major = 0;
  minor = 0;
  nlink = 0;
  size = 0;
  uid = 0;
  gid = 0;
  mode = 0;
  addrs = replicate 13 0;
}

abbrev stored : Superblock → Store → ℕ → ℕ → Store
stored sb s inum type =
    put_block (iblock sb inum) (with_new_inode (s.cache (iblock sb inum)) (inum % ipb) type) s

-- `ialloc` gave the inode `inum`.
pub record NewInode (sb : Superblock) (type : ℕ) (s : Store) (inum : ℕ) (s' : Store) : Type 0 where
  pub positive : 0 < inum
  pub below : inum < sb.ninodes
  pub was_free : type_of sb s inum ≡ 0
  pub is_new :
      inode_at (s'.cache (iblock sb inum)) (dinode_size * (inum % ipb)) inum ≡ new_inode inum type
  pub others :
      (k : ℕ)
      → k ≢ inum
      → inode_at (s'.cache (iblock sb k)) (dinode_size * (k % ipb)) k
        ≡ inode_at (s.cache (iblock sb k)) (dinode_size * (k % ipb)) k
  pub blocks : (b i : ℕ) → b ≢ iblock sb inum → s'.cache b i ≡ s.cache b i

ialloc_from_returns :
    (k : ℕ) (sb : Superblock) (type inum : ℕ) (s : Store) (free : ℕ)
    → inum ≤ free
    → free < inum + k
    → type_of sb s free ≡ 0
    → (r : ℕ) × (ialloc_from k sb type inum s ≡ some (r, stored sb s r type))
      × (inum ≤ r)
      × (r ≤ free)
      × (type_of sb s r ≡ 0)
unfolding ialloc_from
ialloc_from_returns zero sb type inum s free lo hi z = absurd (omega (arith, lo, hi))
ialloc_from_returns (suc k) sb type inum s free lo hi z =
    elim (Bool-cases (type_of sb s inum == 0)) [
      | inl e ↦ (inum, rw e refl, omega arith, lo, test_eq e)
      | inr e ↦
          let n : inum ≢ free = λ q. test_ne e (ap (type_of sb s) q ∙ z) in
          let (r, q, a, b, c) =
            ialloc_from_returns k sb type (inum + 1) s free (omega (arith, lo, n))
              (omega (arith, hi)) z in
          (r, rw e q, omega (arith, a), b, c)
    ]

-- The bytes of the new inode.
module _ (sb : Superblock) (s : Store) (inum type : ℕ) (fits : type < 65_536) where
  bytes : ℕ → ℕ
  bytes = with_new_inode (s.cache (iblock sb inum)) (inum % ipb) type

  new_byte :
      (r : ℕ)
      → r < dinode_size
      → bytes (dinode_size * (inum % ipb) + r) ≡ (if ltb r 2 then byte_of type r else 0)
  unfolding bytes
  new_byte r h =
      let row : (dinode_size * (inum % ipb) + r) / dinode_size ≡ inum % ipb = omega arith in
      let place : (dinode_size * (inum % ipb) + r) % dinode_size ≡ r = omega arith in
      rw (row, place, eq_test {a = inum % ipb} refl) refl

  -- The bytes of the new inode in a block of its own.
  plain : ℕ → ℕ
  plain r = if ltb r 2 then byte_of type r else 0

  other_byte :
      (k r : ℕ)
      → k ≢ inum
      → r < dinode_size
      → (stored sb s inum type).cache (iblock sb k) (dinode_size * (k % ipb) + r)
        ≡ s.cache (iblock sb k) (dinode_size * (k % ipb) + r)
  other_byte k r n h = elim (Bool-cases (iblock sb inum == iblock sb k)) [
    | inr e ↦ rw e refl
    | inl e ↦
        let row : (dinode_size * (k % ipb) + r) / dinode_size ≡ k % ipb = omega arith in
        let same : iblock sb inum ≡ iblock sb k = test_eq e in
        let apart : k % ipb ≢ inum % ipb = λ q. n (omega (arith, q, same)) in
        rw (e, row, ne_test apart) (ap (λ b. s.cache b (dinode_size * (k % ipb) + r)) same)
  ]

  is_new_lem : inode_at bytes (dinode_size * (inum % ipb)) inum ≡ new_inode inum type
  unfolding plain
  is_new_lem =
      let word : half_at plain 0 ≡ type = omega (arith, fits) in
      inode_at_cong bytes plain (dinode_size * (inum % ipb)) 0
        (λ r h. new_byte r h ∙ ap plain (omega arith)) inum
      ∙ ap (λ n. new_inode inum n) word

  stored-NewInode :
      0 < inum
      → inum < sb.ninodes
      → type_of sb s inum ≡ 0
      → NewInode sb type s inum (stored sb s inum type)
  unfolding bytes
  stored-NewInode pos lt free = record {
    positive = pos;
    below = lt;
    was_free = free;
    is_new = rw (eq_test {a = iblock sb inum} refl) is_new_lem;
    others = λ k n.
        inode_at_cong ((stored sb s inum type).cache (iblock sb k)) (s.cache (iblock sb k))
          (dinode_size * (k % ipb)) (dinode_size * (k % ipb)) (λ r h. other_byte k r n h) k;
    blocks = λ b i n. rw (ne_test (λ e. n (sym e))) refl;
  }

-- On a volume that has a free inode other than 0, `ialloc` returns an inode that was free. On the
-- disk it has the type and zeros; all other inodes and all other blocks are as they were.
pub ialloc-NewInode :
    (sb : Superblock) (type : ℕ) (s : Store) (free : ℕ)
    → type < 65_536
    → 0 < free
    → free < sb.ninodes
    → type_of sb s free ≡ 0
    → (inum : ℕ) × (s' : Store) × (ialloc sb type s ≡ some (inum, s')) × NewInode sb type s inum s'
unfolding ialloc
ialloc-NewInode sb type s free fits pos lt z =
    let (r, q, a, b, c) =
      ialloc_from_returns (sb.ninodes - 1) sb type 1 s free pos (omega arith) z in
    (
      r,
      stored sb s r type,
      q,
      stored-NewInode sb s r type fits (omega (arith, a)) (omega (arith, b)) c,
    )
