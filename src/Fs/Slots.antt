-- ===== src/Fs/Slots.antt =====
-- kern/fs.c: the places of a file that hold the number of a block, and what a sound file is.
use openproninx.Base.{
  ℕ, ◌+◌, ◌<◌, ◌≡◌, ◌≢◌, refl, ap, ap₂, Bool, true, false, ◌&&◌, ◌||◌, List, arith, ◌==◌, ltb,
  if◌then◌else◌, get_or, length, and_true,
}
use openproninx.Fs.{Blocks, Superblock, Inode, bblock, ndirect, nindirect, word_at}
use openproninx.Fs.Inodes.{iblock}
use openproninx.Fs.Bitmap.{used}

-- An address in the inode, or an entry of the block that another slot names.
pub data Slot : Type 0 where
  top : ℕ → Slot
  under : Slot → ℕ → Slot

-- The entry of a block of addresses: no block, no entry.
abbrev pub child : Blocks → ℕ → ℕ → ℕ
child c b j = if b == 0 then 0 else word_at (c b) j

abbrev pub at : Blocks → List ℕ → Slot → ℕ
at c addrs (top i) = get_or addrs i 0
at c addrs (under p j) = child c (at c addrs p) j

-- The slots that name a block of addresses.
abbrev pub is_pointer : Slot → Bool
is_pointer (top i) = i == ndirect || i == ndirect + 1
is_pointer (under (top i) j) = i == ndirect + 1
is_pointer (under (under p k) j) = false

abbrev pub is_slot : Slot → Bool
is_slot (top i) = ltb i (ndirect + 2)
is_slot (under p j) = is_pointer p && (is_slot p && ltb j nindirect)

abbrev pub same_slot : Slot → Slot → Bool
same_slot (top i) (top j) = i == j
same_slot (top i) (under p j) = false
same_slot (under p i) (top j) = false
same_slot (under p i) (under q j) = same_slot p q && i == j

pub same_slot-true : (x y : Slot) → same_slot x y ≡ true → x ≡ y
same_slot-true (top i) (top j) h = let e : i ≡ j = ground arith in ap top e
same_slot-true (top i) (under p j) h = absurd (cc h)
same_slot-true (under p i) (top j) h = absurd (cc h)
same_slot-true (under p i) (under q j) h =
    let (a, b) = and_true (same_slot p q) (i == j) h in
    let e : i ≡ j = ground arith in ap₂ under (same_slot-true p q a) e

pub same_slot_self : (x : Slot) → same_slot x x ≡ true
same_slot_self (top i) = ground arith
same_slot_self (under p i) = let e : (i == i) ≡ true = ground arith in rw (same_slot_self p, e) refl

-- A block that a file may own: in use, and neither of the map nor the inode's own.
pub record IsOwned (sb : Superblock) (c : Blocks) (ip : Inode) (b : ℕ) : Type 0 where
  pub below : b < sb.size
  pub is_used : used sb c b ≡ true
  pub not_map : (k : ℕ) → k < sb.size → b ≢ bblock sb k
  pub not_inode : b ≢ iblock sb ip.inum

-- The blocks of the slots are owned, and no two slots share one. The inode's block is in use as well.
pub record IsFile (sb : Superblock) (c : Blocks) (ip : Inode) : Type 0 where
  pub addresses : length ip.addrs ≡ ndirect + 2
  pub owned :
      (x : Slot) → is_slot x ≡ true → at c ip.addrs x ≢ 0 → IsOwned sb c ip (at c ip.addrs x)
  pub distinct :
      (x y : Slot)
      → is_slot x ≡ true
      → is_slot y ≡ true
      → at c ip.addrs x ≢ 0
      → at c ip.addrs x ≡ at c ip.addrs y
      → x ≡ y
  pub inode_not_boot : iblock sb ip.inum ≢ 0
  pub inode_below : iblock sb ip.inum < sb.size
  pub inode_used : used sb c (iblock sb ip.inum) ≡ true
  pub inode_not_map : (k : ℕ) → k < sb.size → iblock sb ip.inum ≢ bblock sb k

-- The byte of the block of a slot; a hole reads as zeros.
abbrev pub value : Blocks → List ℕ → Slot → ℕ → ℕ
value c addrs x i = if at c addrs x == 0 then 0 else c (at c addrs x) i
