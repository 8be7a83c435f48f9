-- ===== src/Fs/Dinode.antt =====
-- kern/fs.c: what `iupdate` stores, `ilock` reads.
use openproninx.Base.{
  ℕ, zero, suc, ◌+◌, ◌-◌, ◌*◌, ◌/◌, ◌%◌, ◌<◌, ◌≡◌, ◌≢◌, inl, inr, refl, ap, ap₂, ◌∙◌, sym, subst,
  true, false, Bool-cases, none, some, List, [], ◌∷◌, arith, ◌==◌, ltb, if◌then◌else◌, eq_test,
  test_eq, ne_test, u32_mod, get_or, length,
}
use mathlib.Core.Option.{map}
use openproninx.Fs.{Store, Superblock, Inode, ndirect}
use openproninx.Fs.Inodes.{
  dinode_size, ipb, iblock, byte_of, dinode_byte, with_inode, iupdate, half_at, long_at, longs_at,
  inode_at, ilock,
}

-- The fields fit into those of `struct dinode`.
pub record Fits (ip : Inode) : Type 0 where
  pub type : ip.type < 65_536
  pub major : ip.major < 65_536
  pub minor : ip.minor < 65_536
  pub nlink : ip.nlink < 65_536
  pub size : ip.size < u32_mod
  pub uid : ip.uid < u32_mod
  pub gid : ip.gid < u32_mod
  pub mode : ip.mode < 65_536
  pub addresses : length ip.addrs ≡ ndirect + 2
  pub addrs : (k : ℕ) → get_or ip.addrs k 0 < u32_mod

module _ (ip : Inode) (bytes : ℕ → ℕ) (k : ℕ) where
  -- The byte `o` of the inode in its block.
  stored_byte :
      (o : ℕ)
      → o < dinode_size
      → with_inode bytes k ip (dinode_size * k + o) ≡ dinode_byte ip o (bytes (dinode_size * k + o))
  stored_byte o h =
      let row : (dinode_size * k + o) / dinode_size ≡ k = omega arith in
      let place : (dinode_size * k + o) % dinode_size ≡ o = omega arith in
      rw (row, place, eq_test {a = k} refl) refl

  half_lem :
      (o value : ℕ)
      → o + 1 < dinode_size
      → value < 65_536
      → dinode_byte ip o (bytes (dinode_size * k + o)) ≡ byte_of value 0
      → dinode_byte ip (o + 1) (bytes (dinode_size * k + (o + 1))) ≡ byte_of value 1
      → half_at (with_inode bytes k ip) (dinode_size * k + o) ≡ value
  half_lem o value h fits a b =
      let e : dinode_size * k + o + 1 ≡ dinode_size * k + (o + 1) = omega arith in
      let first = stored_byte o (omega arith) ∙ a in
      let second = ap (with_inode bytes k ip) e ∙ stored_byte (o + 1) h ∙ b in
      rw (first, second) (omega arith)

  long_lem :
      (o value : ℕ)
      → o + 3 < dinode_size
      → value < u32_mod
      → dinode_byte ip o (bytes (dinode_size * k + o)) ≡ byte_of value 0
      → dinode_byte ip (o + 1) (bytes (dinode_size * k + (o + 1))) ≡ byte_of value 1
      → dinode_byte ip (o + 2) (bytes (dinode_size * k + (o + 2))) ≡ byte_of value 2
      → dinode_byte ip (o + 3) (bytes (dinode_size * k + (o + 3))) ≡ byte_of value 3
      → long_at (with_inode bytes k ip) (dinode_size * k + o) ≡ value
  long_lem o value h fits a b c d =
      let e₁ : dinode_size * k + o + 1 ≡ dinode_size * k + (o + 1) = omega arith in
      let e₂ : dinode_size * k + o + 2 ≡ dinode_size * k + (o + 2) = omega arith in
      let e₃ : dinode_size * k + o + 3 ≡ dinode_size * k + (o + 3) = omega arith in
      let b₀ = stored_byte o (omega arith) ∙ a in
      let b₁ = ap (with_inode bytes k ip) e₁ ∙ stored_byte (o + 1) (omega arith) ∙ b in
      let b₂ = ap (with_inode bytes k ip) e₂ ∙ stored_byte (o + 2) (omega arith) ∙ c in
      let b₃ = ap (with_inode bytes k ip) e₃ ∙ stored_byte (o + 3) h ∙ d in
      rw (b₀, b₁, b₂, b₃) (omega arith)

  type_lem : Fits ip → half_at (with_inode bytes k ip) (dinode_size * k) ≡ ip.type
  type_lem w =
      subst (λ o. half_at (with_inode bytes k ip) o ≡ ip.type) (omega arith)
        (half_lem 0 ip.type (omega arith) w.type refl refl)

  address_byte :
      (j r old : ℕ)
      → j < ndirect + 2
      → r < 4
      → dinode_byte ip (24 + 4 * j + r) old ≡ byte_of (get_or ip.addrs j 0) r
  address_byte j r old h h' =
      let o : ℕ = 24 + 4 * j + r in
      let c₁ : ltb o 2 ≡ false = ground arith in
      let c₂ : ltb o 4 ≡ false = ground arith in
      let c₃ : ltb o 6 ≡ false = ground arith in
      let c₄ : ltb o 8 ≡ false = ground arith in
      let c₅ : ltb o 12 ≡ false = ground arith in
      let c₆ : ltb o 16 ≡ false = ground arith in
      let c₇ : ltb o 20 ≡ false = ground arith in
      let c₈ : ltb o 22 ≡ false = ground arith in
      let c₉ : ltb o 24 ≡ false = ground arith in
      let c : ltb o 76 ≡ true = ground arith in
      let row : (o - 24) / 4 ≡ j = omega arith in
      let place : (o - 24) % 4 ≡ r = omega arith in
      rw (c₁, c₂, c₃, c₄, c₅, c₆, c₇, c₈, c₉, c, row, place) refl

  address_lem :
      (j : ℕ)
      → Fits ip
      → j < ndirect + 2
      → long_at (with_inode bytes k ip) (dinode_size * k + (24 + 4 * j)) ≡ get_or ip.addrs j 0
  address_lem j w h =
      let start : 24 + 4 * j + 0 ≡ 24 + 4 * j = omega arith in
      long_lem (24 + 4 * j) (get_or ip.addrs j 0) (omega arith) (w.addrs j)
        (subst
          (λ o.
            dinode_byte ip o (bytes (dinode_size * k + (24 + 4 * j)))
            ≡ byte_of (get_or ip.addrs j 0) 0)
          start (address_byte j 0 (bytes (dinode_size * k + (24 + 4 * j))) h (omega arith)))
        (address_byte j 1 (bytes (dinode_size * k + (24 + 4 * j + 1))) h (omega arith))
        (address_byte j 2 (bytes (dinode_size * k + (24 + 4 * j + 2))) h (omega arith))
        (address_byte j 3 (bytes (dinode_size * k + (24 + 4 * j + 3))) h (omega arith))

longs_at_lem :
    (f : ℕ → ℕ) (o : ℕ) (l : List ℕ)
    → ((j : ℕ) → j < length l → long_at f (o + 4 * j) ≡ get_or l j 0)
    → longs_at f o (length l) ≡ l
longs_at_lem f o [] h = refl
longs_at_lem f o (x ∷ l) h =
    let first : long_at f o ≡ x = subst (λ i. long_at f i ≡ x) (omega arith) (h 0 (omega arith)) in
    let rest =
      longs_at_lem f (o + 4) l
        (λ j lt. subst (λ i. long_at f i ≡ get_or l j 0) (omega arith) (h (suc j) (omega arith))) in
    ap₂ (λ a b. a ∷ b) first rest

-- The inode is read back from its block.
inode_at-with_inode :
    (ip : Inode) (bytes : ℕ → ℕ) (k : ℕ)
    → Fits ip
    → inode_at (with_inode bytes k ip) (dinode_size * k) ip.inum ≡ ip
inode_at-with_inode ip bytes k w =
    let listed : longs_at (with_inode bytes k ip) (dinode_size * k + 24) (ndirect + 2) ≡ ip.addrs =
      subst (λ n. longs_at (with_inode bytes k ip) (dinode_size * k + 24) n ≡ ip.addrs) w.addresses
        (longs_at_lem (with_inode bytes k ip) (dinode_size * k + 24) ip.addrs (λ j lt.
          subst (λ i. long_at (with_inode bytes k ip) i ≡ get_or ip.addrs j 0) (omega arith)
            (address_lem ip bytes k j w (omega (arith, w.addresses, lt))))) in
    rw
      (
        type_lem ip bytes k w,
        half_lem ip bytes k 2 ip.major (omega arith) w.major refl refl,
        half_lem ip bytes k 4 ip.minor (omega arith) w.minor refl refl,
        half_lem ip bytes k 6 ip.nlink (omega arith) w.nlink refl refl,
        long_lem ip bytes k 8 ip.size (omega arith) w.size refl refl refl refl,
        long_lem ip bytes k 12 ip.uid (omega arith) w.uid refl refl refl refl,
        long_lem ip bytes k 16 ip.gid (omega arith) w.gid refl refl refl refl,
        half_lem ip bytes k 20 ip.mode (omega arith) w.mode refl refl,
        listed,
      )
      refl

-- `ilock` reads back every field of an inode that `iupdate` stored, if the fields fit those of the
-- disk and its type is not 0.
pub ilock-iupdate :
    (sb : Superblock) (ip : Inode) (s : Store)
    → Fits ip
    → ip.type ≢ 0
    → ilock sb ip.inum (iupdate sb ip s) ≡ some (ip, iupdate sb ip s)
unfolding ilock iupdate
ilock-iupdate sb ip s w n =
    rw
      (
        eq_test {a = iblock sb ip.inum} refl,
        inode_at-with_inode ip (s.cache (iblock sb ip.inum)) (ip.inum % ipb) w,
        type_lem ip (s.cache (iblock sb ip.inum)) (ip.inum % ipb) w,
        ne_test n,
      )
      refl

-- `iupdate` leaves the bytes of the other inodes.
iupdate_other :
    (sb : Superblock) (ip : Inode) (s : Store) (inum o : ℕ)
    → inum ≢ ip.inum
    → o < dinode_size
    → (iupdate sb ip s).cache (iblock sb inum) (dinode_size * (inum % ipb) + o)
      ≡ s.cache (iblock sb inum) (dinode_size * (inum % ipb) + o)
unfolding iupdate
iupdate_other sb ip s inum o n h = elim (Bool-cases (iblock sb ip.inum == iblock sb inum)) [
  | inr e ↦ rw e refl
  | inl e ↦
      let row : (dinode_size * (inum % ipb) + o) / dinode_size ≡ inum % ipb = omega arith in
      let same : iblock sb ip.inum ≡ iblock sb inum = test_eq e in
      let apart : inum % ipb ≢ ip.inum % ipb = λ q. n (omega arith) in
      rw (e, row, ne_test apart) (ap (λ b. s.cache b (dinode_size * (inum % ipb) + o)) same)
]

-- The inode is a function of the bytes of its record.
module _ (f g : ℕ → ℕ) (o p : ℕ) (same : (r : ℕ) → r < dinode_size → f (o + r) ≡ g (p + r)) where
  -- A byte, at a place written as the readers compute it.
  same_at : (r i j : ℕ) → i ≡ o + r → j ≡ p + r → r < dinode_size → f i ≡ g j
  same_at r i j a b h = ap f a ∙ same r h ∙ ap g (sym b)

  same_half : (k i j : ℕ) → i ≡ o + k → j ≡ p + k → k + 1 < dinode_size → half_at f i ≡ half_at g j
  same_half k i j a b h =
      rw
        (
          same_at k i j a b (omega arith),
          same_at (k + 1) (i + 1) (j + 1) (omega arith) (omega arith) h,
        )
        refl

  same_long : (k i j : ℕ) → i ≡ o + k → j ≡ p + k → k + 3 < dinode_size → long_at f i ≡ long_at g j
  same_long k i j a b h =
      rw
        (
          same_at k i j a b (omega arith),
          same_at (k + 1) (i + 1) (j + 1) (omega arith) (omega arith) (omega arith),
          same_at (k + 2) (i + 2) (j + 2) (omega arith) (omega arith) (omega arith),
          same_at (k + 3) (i + 3) (j + 3) (omega arith) (omega arith) h,
        )
        refl

  same_longs :
      (n k i j : ℕ)
      → i ≡ o + k
      → j ≡ p + k
      → k + 4 * n < dinode_size
      → longs_at f i n ≡ longs_at g j n
  same_longs zero k i j a b h = refl
  same_longs (suc n) k i j a b h =
      rw
        (
          same_long k i j a b (omega arith),
          same_longs n (k + 4) (i + 4) (j + 4) (omega arith) (omega arith) (omega arith),
        )
        refl

  pub inode_at_cong : (inum : ℕ) → inode_at f o inum ≡ inode_at g p inum
  inode_at_cong inum =
      rw
        (
          same_half 0 o p (omega arith) (omega arith) (omega arith),
          same_half 2 (o + 2) (p + 2) refl refl (omega arith),
          same_half 4 (o + 4) (p + 4) refl refl (omega arith),
          same_half 6 (o + 6) (p + 6) refl refl (omega arith),
          same_long 8 (o + 8) (p + 8) refl refl (omega arith),
          same_long 12 (o + 12) (p + 12) refl refl (omega arith),
          same_long 16 (o + 16) (p + 16) refl refl (omega arith),
          same_half 20 (o + 20) (p + 20) refl refl (omega arith),
          same_longs 13 24 (o + 24) (p + 24) refl refl (omega arith),
        )
        refl

-- `ilock` of another inode gives after `iupdate` what it gave before, or panics as before.
pub ilock-iupdate_other :
    (sb : Superblock) (ip : Inode) (s : Store) (inum : ℕ)
    → inum ≢ ip.inum
    → ilock sb inum (iupdate sb ip s) ≡ map (λ p. (p.0, iupdate sb ip s)) (ilock sb inum s)
unfolding ilock
ilock-iupdate_other sb ip s inum n =
    let e =
      inode_at_cong ((iupdate sb ip s).cache (iblock sb inum)) (s.cache (iblock sb inum))
        (dinode_size * (inum % ipb)) (dinode_size * (inum % ipb))
        (λ r h. iupdate_other sb ip s inum r n h) inum in
    let r = inode_at (s.cache (iblock sb inum)) (dinode_size * (inum % ipb)) inum in
    ap (λ (r : Inode). if r.type == 0 then none else some (r, iupdate sb ip s)) e
    ∙ elim (Bool-cases (r.type == 0)) [ inl z ↦ rw z refl | inr z ↦ rw z refl ]
