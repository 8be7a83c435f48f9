-- ===== src/Fs.antt =====
-- kern/fs.c: the native file system. `bread` gives the block that the buffer cache shows, `log_write`
-- keeps a changed block in the cache and puts its number into the transaction. `none` is a panic.
pub mod Bits
pub mod Bitmap
pub mod Alloc
pub mod Search
pub mod Words
pub mod Slots
pub mod Grow
pub mod Fill
pub mod Bmap
pub mod Entry
pub mod Content
pub mod Read
pub mod Mapped
pub mod Put
pub mod Spread
pub mod Rounds
pub mod Write
pub mod Room
pub mod Returns
pub mod Roundtrip
pub mod Dinode
pub mod NewInode
pub mod Synced
pub mod Budget
pub mod BmapBudget
pub mod Reserve
pub mod Transaction
pub mod Nearby
pub mod Inodes
pub mod Files
mod Examples
use openproninx.Base.{
  ℕ, zero, suc, ◌+◌, ◌-◌, ◌*◌, ◌/◌, ◌%◌, ◌^◌, ◌≡◌, Bool, true, false, not, ◌&&◌, ◌||◌, Option, none,
  some, List, [], ◌∷◌, ◌==◌, ltb, leb, if◌then◌else◌, get_or, set, min, length, u32_mod,
}
use Prim.Native.Nat.{bit_and, bit_or}

-- The bytes of the blocks of the device.
abbrev pub Blocks : Type 0
Blocks = ℕ → ℕ → ℕ

-- The blocks as the cache shows them, and the numbers that `log_write` was called with.
pub record Store : Type 0 where
  pub cache : Blocks
  pub logged : List ℕ

-- `struct superblock`, as far as it is used after the mount.
pub record Superblock : Type 0 where
  pub size : ℕ
  pub ninodes : ℕ
  pub inodestart : ℕ
  pub bmapstart : ℕ

-- `struct inode` of a native file: the fields that `iupdate` stores.
pub record Inode : Type 0 where
  pub inum : ℕ
  pub type : ℕ
  pub major : ℕ
  pub minor : ℕ
  pub nlink : ℕ
  pub size : ℕ
  pub uid : ℕ
  pub gid : ℕ
  pub mode : ℕ
  pub addrs : List ℕ

abbrev pub bsize : ℕ
bsize = 512

-- `BPB`
abbrev pub bpb : ℕ
bpb = bsize * 8

abbrev pub ndirect : ℕ
ndirect = 11

abbrev pub nindirect : ℕ
nindirect = 128

abbrev pub maxfile : ℕ
maxfile = ndirect + nindirect + nindirect * nindirect

-- `BBLOCK`
abbrev pub bblock : Superblock → ℕ → ℕ
bblock sb b = b / bpb + sb.bmapstart

-- A step that may panic.
abbrev pub Step : Type 0 → Type 0
Step A = Store → Option (A × Store)

infixl 5 ◌>>=◌
abbrev pub ◌>>=◌ : {A B : Type 0} → Step A → (A → Step B) → Step B
◌>>=◌ m f s = elim (m s) [ none ↦ none | some (a, s') ↦ f a s' ]

abbrev pub pure : {A : Type 0} → A → Step A
pure a s = some (a, s)

abbrev pub panic : {A : Type 0} → Step A
panic s = none

-- The bytes of one block are replaced, and the block is noted for `log_write`, which Log.Several runs.
abbrev pub put_block : ℕ → (ℕ → ℕ) → Store → Store
put_block b bytes s = record {
  cache = λ (b' i : ℕ). if b == b' then bytes i else s.cache b' i;
  logged = b ∷ s.logged;
}

-- `_bzero`
abbrev pub bzero : ℕ → Store → Store
bzero b s = put_block b (λ i. 0) s

-- `1 << (bi % 8)`
abbrev pub mask : ℕ → ℕ
mask bi = 2 ^ (bi % 8)

abbrev pub is_clear : ℕ → ℕ → Bool
is_clear value bi = bit_and value (mask bi) == 0

-- The inner loop of `balloc`, over the next `k` bits.
unfoldable pub find_bit : ℕ → (ℕ → ℕ) → ℕ → ℕ → ℕ → Option ℕ
find_bit zero bytes size b bi = none
find_bit (suc k) bytes size b bi =
    let later = find_bit k bytes size b (bi + 1) in
    if not (ltb (b + bi) size)
    then none
    else if is_clear (bytes (bi / 8)) bi
    then some bi
    else later

-- The outer loop of `balloc`, with fuel for more rounds than there are blocks of the map: a free block.
unfoldable pub find_free : ℕ → Superblock → Blocks → ℕ → Option ℕ
find_free zero sb c b = none
find_free (suc fuel) sb c b =
    let later = find_free fuel sb c (b + bpb) in
    if not (ltb b sb.size) then none else elim (find_bit bpb (c (bblock sb b)) sb.size b 0) [
      | some bi ↦ some (b + bi)
      | none ↦ later
    ]

-- The bytes of a block of the map with the bit of `b` set.
abbrev pub with_used : (ℕ → ℕ) → ℕ → ℕ → ℕ
with_used bytes b i = if b % bpb / 8 == i then bit_or (bytes i) (mask (b % bpb)) else bytes i

-- `balloc`
unfoldable pub balloc : Superblock → Step ℕ
balloc sb s = elim (find_free (sb.size / bpb + 1) sb s.cache 0) [
  | none ↦ none
  | some b ↦ some (b, bzero b (put_block (bblock sb b) (with_used (s.cache (bblock sb b)) b) s))
]

-- The bytes of a block of the map with the bit of `b` cleared.
abbrev pub with_free : (ℕ → ℕ) → ℕ → ℕ → ℕ
with_free bytes b i = if b % bpb / 8 == i then bit_and (bytes i) (255 - mask (b % bpb)) else bytes i

-- `bfree`
unfoldable pub bfree : Superblock → ℕ → Step (Unit {0})
bfree sb b s =
    if is_clear (s.cache (bblock sb b) (b % bpb / 8)) (b % bpb)
    then none
    else some (tt, put_block (bblock sb b) (with_free (s.cache (bblock sb b)) b) s)

-- `((uint *)bp->data)[j]`
abbrev pub word_at : (ℕ → ℕ) → ℕ → ℕ
word_at bytes j =
    bytes (4 * j)
    + 256 * bytes (4 * j + 1)
    + 65_536 * bytes (4 * j + 2)
    + 16_777_216 * bytes (4 * j + 3)

abbrev pub with_word : (ℕ → ℕ) → ℕ → ℕ → ℕ → ℕ
with_word bytes j a i =
    if i == 4 * j
    then a % 256
    else if i == 4 * j + 1
    then a / 256 % 256
    else if i == 4 * j + 2
    then a / 65_536 % 256
    else if i == 4 * j + 3
    then a / 16_777_216 % 256
    else bytes i

-- The entry `j` of the block `b` of addresses, allocated if it is 0.
unfoldable pub entry_of : Superblock → ℕ → ℕ → Step ℕ
entry_of sb b j s =
    if word_at (s.cache b) j == 0
    then elim (balloc sb s) [
      | none ↦ none
      | some (a, s') ↦ some (a, put_block b (with_word (s'.cache b) j a) s')
    ]
    else some (word_at (s.cache b) j, s)

-- An address in the inode, allocated if it is 0.
unfoldable pub address_of : Superblock → ℕ → Inode → Step (ℕ × Inode)
address_of sb k ip s =
    if get_or ip.addrs k 0 == 0
    then elim (balloc sb s) [
      | none ↦ none
      | some (a, s') ↦ some ((a, record ip { addrs = set ip.addrs k a }), s')
    ]
    else some ((get_or ip.addrs k 0, ip), s)

-- `bmap` through one block of addresses.
abbrev pub bmap_single : Superblock → Inode → ℕ → Step (ℕ × Inode)
bmap_single sb ip j = address_of sb ndirect ip >>= λ p. entry_of sb p.0 j >>= λ a. pure (a, p.1)

-- `bmap` through two.
abbrev pub bmap_double : Superblock → Inode → ℕ → ℕ → Step (ℕ × Inode)
bmap_double sb ip k j = address_of sb (ndirect + 1) ip >>= λ p.
    entry_of sb p.0 k >>= λ b. entry_of sb b j >>= λ a. pure (a, p.1)

-- `bmap`: the block, and the inode with the addresses that it got.
unfoldable pub bmap : Superblock → Inode → ℕ → Step (ℕ × Inode)
bmap sb ip bn =
    let single : ℕ = bn - ndirect in
    let double : ℕ = single - nindirect in
    if ltb bn ndirect
    then address_of sb bn ip
    else if ltb single nindirect
    then bmap_single sb ip single
    else if ltb double (nindirect * nindirect)
    then bmap_double sb ip (double / nindirect) (double % nindirect)
    else panic

-- `min(n - tot, BSIZE - off % BSIZE)`
abbrev pub chunk : ℕ → ℕ → ℕ
chunk off n = min n (bsize - off % bsize)

abbrev pub bytes_from : (ℕ → ℕ) → ℕ → ℕ → List ℕ
bytes_from bytes i zero = []
bytes_from bytes i (suc k) = bytes i ∷ bytes_from bytes (i + 1) k
