-- ===== src/Ufs2/Inodes.antt =====
-- kern/ufs2.c: `ufs2_read_inode`, `ufs2_write_inode` and `ufs2_initialize_inode`.
use openproninx.Base.{
  ℕ, ◌+◌, ◌^◌, ◌≤◌, ◌<◌, ◌≡◌, refl, ap, ◌∙◌, sym, true, Option, none, some, List, arith, leb,
  length, replicate,
}
use openproninx.BlockDev
use openproninx.BlockDev.{BlockDev, Disk}
use openproninx.BlockDev.Bytes.{IsVolume, capacity, bytes_at, length-bytes_at}
use openproninx.BlockDev.Read.{read-bytes_at}
use openproninx.BlockDev.Write.{read-write}
use openproninx.Ufs2.{Volume, Inode, M, pure, fail, ◌>>=◌, ◌>>◌, of_option, read_m, write_m}
use openproninx.Ufs2.Codec.{
  write_le, write_addresses, decode, encode, dinode_size, length-write_le, mode_offset,
  nlink_offset, uid_offset, gid_offset,
}
use openproninx.Ufs2.Fields.{IsInode, length-encode, decode-encode}
use openproninx.Ufs2.Geometry.{inode_offset}
use openproninx.Ufs2.Access.{bind-some, of_option-some, read_m-some, write_m-some}

-- `ufs2_read_inode`
unfoldable pub read_inode : Volume → ℕ → M Inode
read_inode v n = do
  offset ← of_option (inode_offset v n)
  raw ← read_m v offset dinode_size
  pure (decode raw)

-- `ufs2_write_inode`
unfoldable pub write_inode : Volume → ℕ → Inode → M (Unit {0})
write_inode v n i = do
  offset ← of_option (inode_offset v n)
  raw ← read_m v offset dinode_size
  write_m v offset (encode raw i)

-- The bytes of a new inode.
unfoldable pub initial_bytes : ℕ → List ℕ
initial_bytes mode =
    let raw : List ℕ = write_le 2 (replicate dinode_size 0) mode_offset mode in
    let raw : List ℕ = write_le 2 raw nlink_offset 1 in
    let raw : List ℕ = write_le 4 raw uid_offset 0 in write_le 4 raw gid_offset 0

-- `ufs2_initialize_inode`
unfoldable pub initialize_inode : Volume → ℕ → ℕ → M (Unit {0})
initialize_inode v n mode = do
  offset ← of_option (inode_offset v n)
  write_m v offset (initial_bytes mode)

-- The inode that `ufs2_initialize_inode` leaves.
abbrev pub new_inode : ℕ → Inode
new_inode mode = record {
  mode = mode;
  nlink = 1;
  uid = 0;
  gid = 0;
  size = 0;
  direct = replicate 12 0;
  indirect = replicate 3 0;
}

new_inode-IsInode : (mode : ℕ) → mode < 2 ^ 16 → IsInode (new_inode mode)
new_inode-IsInode mode h = record {
  mode_fits = h;
  nlink_fits = omega arith;
  uid_fits = omega arith;
  gid_fits = omega arith;
  size_fits = omega arith;
  twelve = refl;
  three = refl;
  direct_fits = ground arith;
  indirect_fits = ground arith;
}

initial_bytes-encode :
    (mode : ℕ) → initial_bytes mode ≡ encode (replicate dinode_size 0) (new_inode mode)
unfolding initial_bytes encode openproninx.Ufs2.Codec.write_addresses write_le
initial_bytes-encode mode = refl

length-initial_bytes : (mode : ℕ) → length (initial_bytes mode) ≡ dinode_size
length-initial_bytes mode =
    ap length (initial_bytes-encode mode) ∙ length-encode (replicate dinode_size 0) (new_inode mode)

decode-initial_bytes : (mode : ℕ) → mode < 2 ^ 16 → decode (initial_bytes mode) ≡ new_inode mode
decode-initial_bytes mode h =
    ap decode (initial_bytes-encode mode)
    ∙ decode-encode (replicate dinode_size 0) (new_inode mode) (new_inode-IsInode mode h) refl

pub bytes_of :
    (v : BlockDev) (d : Disk) (o n : ℕ) {bytes : List ℕ}
    → IsVolume v
    → o + n ≤ capacity v
    → BlockDev.read v d o n ≡ some bytes
    → bytes_at v d o n ≡ bytes
bytes_of v d o n {bytes} is h r =
    let e : leb (o + n) (capacity v) ≡ true = ground arith in
    ap (get_or_else bytes) {x = some (bytes_at v d o n)} {y = some bytes}
      (sym (read-bytes_at v d o n is ∙ rw e) ∙ r)
  where
    get_or_else : List ℕ → Option (List ℕ) → List ℕ
    get_or_else b none = b
    get_or_else b (some a) = a

module _ (v : Volume) (is : IsVolume v.device) where
  -- A read of an inode whose bytes lie in the volume.
  pub read_inode-bytes_at :
      (n o : ℕ) (d : Disk)
      → inode_offset v n ≡ some o
      → o + dinode_size ≤ capacity v.device
      → read_inode v n d ≡ (some (decode (bytes_at v.device d o dinode_size)), d)
  unfolding read_inode
  read_inode-bytes_at n o d e h =
      bind-some (of_option (inode_offset v n))
        (λ o. read_m v o dinode_size >>= λ raw. pure (decode raw)) d
        (of_option-some (inode_offset v n) d e)
      ∙ bind-some (read_m v o dinode_size) (λ raw. pure (decode raw)) d
          (read_m-some v is o dinode_size d h)

  -- The disk after a write of an inode.
  pub write_inode-bytes :
      (n o : ℕ) (i : Inode) (d : Disk)
      → inode_offset v n ≡ some o
      → o + dinode_size ≤ capacity v.device
      → write_inode v n i d
        ≡ (some tt, (BlockDev.write v.device d o (encode (bytes_at v.device d o dinode_size) i)).1)
  unfolding write_inode
  write_inode-bytes n o i d e h =
      let raw = bytes_at v.device d o dinode_size in
      let len = length-encode raw i ∙ length-bytes_at v.device d o dinode_size in
      bind-some (of_option (inode_offset v n))
        (λ o. read_m v o dinode_size >>= λ raw. write_m v o (encode raw i)) d
        (of_option-some (inode_offset v n) d e)
      ∙ bind-some (read_m v o dinode_size) (λ raw. write_m v o (encode raw i)) d
          (read_m-some v is o dinode_size d h)
      ∙ write_m-some v is o (encode raw i) d (omega arith)

  initialize_inode-bytes :
      (n o mode : ℕ) (d : Disk)
      → inode_offset v n ≡ some o
      → o + dinode_size ≤ capacity v.device
      → initialize_inode v n mode d
        ≡ (some tt, (BlockDev.write v.device d o (initial_bytes mode)).1)
  unfolding initialize_inode
  initialize_inode-bytes n o mode d e h =
      let len = length-initial_bytes mode in
      bind-some (of_option (inode_offset v n)) (λ o. write_m v o (initial_bytes mode)) d
        (of_option-some (inode_offset v n) d e)
      ∙ write_m-some v is o (initial_bytes mode) d (omega arith)

  -- An inode of fields that its C types hold, written to a slot that lies in the volume, is read back
  -- from it. The two calls succeed.
  pub read_inode-write_inode :
      (n o : ℕ) (i : Inode) (d : Disk)
      → IsInode i
      → inode_offset v n ≡ some o
      → o + dinode_size ≤ capacity v.device
      → ((write_inode v n i d).0 ≡ some tt) × ((read_inode v n (write_inode v n i d).1).0 ≡ some i)
  read_inode-write_inode n o i d ok e h =
      let w = write_inode-bytes n o i d e h in
      let raw = bytes_at v.device d o dinode_size in
      let len = length-bytes_at v.device d o dinode_size in
      let len' = length-encode raw i ∙ len in
      let d' = (BlockDev.write v.device d o (encode raw i)).1 in
      let back : BlockDev.read v.device d' o dinode_size ≡ some (encode raw i) =
        ap (BlockDev.read v.device d' o) (sym len')
        ∙ read-write v.device d o (encode raw i) is (omega arith) in
      let same : bytes_at v.device d' o dinode_size ≡ encode raw i =
        bytes_of v.device d' o dinode_size is h back in
      (
        ap (λ r. r.0) w,
        ap (λ r. (read_inode v n r.1).0) w
            ∙ ap (λ r. r.0) (read_inode-bytes_at n o d' e h)
            ∙ ap (λ r. some (decode r)) same
            ∙ ap some (decode-encode raw i ok len),
      )

  -- `ufs2_initialize_inode` leaves an inode with the given mode, one link, owner and group 0, size 0 and
  -- no blocks in the slot, if the slot lies in the volume. The call succeeds.
  pub read_inode-initialize_inode :
      (n o mode : ℕ) (d : Disk)
      → mode < 2 ^ 16
      → inode_offset v n ≡ some o
      → o + dinode_size ≤ capacity v.device
      → ((initialize_inode v n mode d).0 ≡ some tt)
        × ((read_inode v n (initialize_inode v n mode d).1).0 ≡ some (new_inode mode))
  read_inode-initialize_inode n o mode d m e h =
      let w = initialize_inode-bytes n o mode d e h in
      let src = initial_bytes mode in
      let d' = (BlockDev.write v.device d o src).1 in
      let len = length-initial_bytes mode in
      let back : BlockDev.read v.device d' o dinode_size ≡ some src =
        ap (BlockDev.read v.device d' o) (sym len) ∙ read-write v.device d o src is (omega arith) in
      (
        ap (λ r. r.0) w,
        ap (λ r. (read_inode v n r.1).0) w
            ∙ ap (λ r. r.0) (read_inode-bytes_at n o d' e h)
            ∙ ap (λ r. some (decode r)) (bytes_of v.device d' o dinode_size is h back)
            ∙ ap some (decode-initial_bytes mode m),
      )
