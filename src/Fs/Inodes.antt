-- ===== src/Fs/Inodes.antt =====
-- kern/fs.c: the inodes on the disk, `iupdate`, `ilock` and `ialloc`.
use openproninx.Base.{
  ℕ, zero, suc, ◌+◌, ◌-◌, ◌*◌, ◌/◌, ◌%◌, ◌^◌, none, some, List, [], ◌∷◌, ◌==◌, ltb, if◌then◌else◌,
  get_or,
}
use openproninx.Fs.{Superblock, Store, Inode, Step, put_block, ndirect}

-- `sizeof(struct dinode)`
abbrev pub dinode_size : ℕ
dinode_size = 128

-- `IPB`
abbrev pub ipb : ℕ
ipb = 4

-- `IBLOCK`
abbrev pub iblock : Superblock → ℕ → ℕ
iblock sb i = i / ipb + sb.inodestart

-- The byte `k` of a number.
abbrev pub byte_of : ℕ → ℕ → ℕ
byte_of a k = a / 256 ^ k % 256

-- The byte `o` of `struct dinode`, which was `old`.
abbrev pub dinode_byte : Inode → ℕ → ℕ → ℕ
dinode_byte ip o old =
    if ltb o 2
    then byte_of ip.type o
    else if ltb o 4
    then byte_of ip.major (o - 2)
    else if ltb o 6
    then byte_of ip.minor (o - 4)
    else if ltb o 8
    then byte_of ip.nlink (o - 6)
    else if ltb o 12
    then byte_of ip.size (o - 8)
    else if ltb o 16
    then byte_of ip.uid (o - 12)
    else if ltb o 20
    then byte_of ip.gid (o - 16)
    else if ltb o 22
    then byte_of ip.mode (o - 20)
    else if ltb o 24
    then old
    else if ltb o 76
    then byte_of (get_or ip.addrs ((o - 24) / 4) 0) ((o - 24) % 4)
    else old

-- The bytes of a block with the inode `k` of the block replaced.
abbrev pub with_inode : (ℕ → ℕ) → ℕ → Inode → ℕ → ℕ
with_inode bytes k ip i =
    if i / dinode_size == k then dinode_byte ip (i % dinode_size) (bytes i) else bytes i

-- `iupdate` of a native inode.
unfoldable pub iupdate : Superblock → Inode → Store → Store
iupdate sb ip s =
    put_block (iblock sb ip.inum) (with_inode (s.cache (iblock sb ip.inum)) (ip.inum % ipb) ip) s

abbrev pub half_at : (ℕ → ℕ) → ℕ → ℕ
half_at bytes o = bytes o + 256 * bytes (o + 1)

abbrev pub long_at : (ℕ → ℕ) → ℕ → ℕ
long_at bytes o =
    bytes o + 256 * bytes (o + 1) + 65_536 * bytes (o + 2) + 16_777_216 * bytes (o + 3)

abbrev pub longs_at : (ℕ → ℕ) → ℕ → ℕ → List ℕ
longs_at bytes o zero = []
longs_at bytes o (suc k) = long_at bytes o ∷ longs_at bytes (o + 4) k

-- `*dip`
abbrev pub inode_at : (ℕ → ℕ) → ℕ → ℕ → Inode
inode_at bytes o inum = record {
  inum = inum;
  type = half_at bytes o;
  major = half_at bytes (o + 2);
  minor = half_at bytes (o + 4);
  nlink = half_at bytes (o + 6);
  size = long_at bytes (o + 8);
  uid = long_at bytes (o + 12);
  gid = long_at bytes (o + 16);
  mode = half_at bytes (o + 20);
  addrs = longs_at bytes (o + 24) (ndirect + 2);
}

-- `ilock` of a native inode that is not valid: what it reads, or the panic at no type.
unfoldable pub ilock : Superblock → ℕ → Step Inode
ilock sb inum s =
    let ip = inode_at (s.cache (iblock sb inum)) (dinode_size * (inum % ipb)) inum in
    if ip.type == 0 then none else some (ip, s)

-- The bytes of a block with the inode `k` of the block cleared, but for its type.
abbrev pub with_new_inode : (ℕ → ℕ) → ℕ → ℕ → ℕ → ℕ
with_new_inode bytes k type i =
    if i / dinode_size == k
    then (if ltb (i % dinode_size) 2 then byte_of type (i % dinode_size) else 0)
    else bytes i

-- The loop of `ialloc` over the next `k` inodes, before `iget`.
unfoldable pub ialloc_from : ℕ → Superblock → ℕ → ℕ → Step ℕ
ialloc_from zero sb type inum s = none
ialloc_from (suc k) sb type inum s =
    let later = ialloc_from k sb type (inum + 1) s in
    let bytes = s.cache (iblock sb inum) in
    if half_at bytes (dinode_size * (inum % ipb)) == 0
    then some (inum, put_block (iblock sb inum) (with_new_inode bytes (inum % ipb) type) s)
    else later

-- `ialloc` of a native volume.
unfoldable pub ialloc : Superblock → ℕ → Step ℕ
ialloc sb type = ialloc_from (sb.ninodes - 1) sb type 1
