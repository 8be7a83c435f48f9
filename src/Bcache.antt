-- ===== src/Bcache.antt =====
-- kern/bio.c: the buffer cache. The ring of buffers from `head.next` to `head.prev` is a list, the most
-- recently used first; a buffer is named by its place in `bcache.buf`. A call is one step: the sleep
-- lock of the buffer keeps others from it while it is read. `none` is a panic.
pub mod Ring
pub mod Change
pub mod Recycle
pub mod Lookup
pub mod Release
pub mod Transparent
pub mod Stores
pub mod Returns
mod Examples
use openproninx.Base.{
  ℕ, zero, suc, ◌+◌, ◌-◌, ◌%◌, ◌^◌, Bool, true, false, not, ◌&&◌, ◌||◌, Option, none, some, List,
  [], ◌∷◌, ◌==◌, ltb, leb, if◌then◌else◌, add32, u32_mod,
}

-- `struct buf`
pub record Buf : Type 0 where
  pub slot : ℕ
  pub valid : Bool
  pub dirty : Bool
  pub dev : ℕ
  pub blockno : ℕ
  pub refcnt : ℕ
  pub bytes : List ℕ

-- The blocks of all devices.
abbrev pub Blocks : Type 0
Blocks = ℕ → ℕ → List ℕ

abbrev pub is_at : Buf → ℕ → ℕ → Bool
is_at b dev blockno = b.dev == dev && b.blockno == blockno

abbrev pub store : Blocks → ℕ → ℕ → List ℕ → Blocks
store d dev blockno bytes dev' blockno' =
    if dev == dev' && blockno == blockno' then bytes else d dev' blockno'

-- `NBUF`
abbrev pub nbuf : ℕ
nbuf = 30

-- The loop of `binit` over the next `k` buffers.
unfoldable pub binit_from : ℕ → ℕ → List Buf → List Buf
binit_from zero i ring = ring
binit_from (suc k) i ring =
    let b : Buf = record {
      slot = i;
      valid = false;
      dirty = false;
      dev = 0;
      blockno = 0;
      refcnt = 0;
      bytes = [];
    } in
    binit_from k (i + 1) (b ∷ ring)

-- `binit`
unfoldable pub binit : List Buf
binit = binit_from nbuf 0 []

-- The first loop of `bget`: the block is cached.
unfoldable pub find_cached : ℕ → ℕ → List Buf → Option (ℕ × List Buf)
find_cached dev blockno [] = none
find_cached dev blockno (b ∷ ring) =
    let later = find_cached dev blockno ring in
    if is_at b dev blockno
    then some (b.slot, record b { refcnt = add32 b.refcnt 1 } ∷ ring)
    else elim later [ none ↦ none | some (s, ring') ↦ some (s, b ∷ ring') ]

-- A buffer for another block.
abbrev pub assign : Buf → ℕ → ℕ → Buf
assign b dev blockno = record b {
  dev = dev;
  blockno = blockno;
  valid = false;
  dirty = false;
  refcnt = 1;
}

-- The second loop of `bget`, from the end of the list.
unfoldable pub recycle : ℕ → ℕ → List Buf → Option (ℕ × List Buf)
recycle dev blockno [] = none
recycle dev blockno (b ∷ ring) =
    let later = recycle dev blockno ring in
    elim later [
      | some (s, ring') ↦ some (s, b ∷ ring')
      | none ↦
          if b.refcnt == 0 && not b.dirty then some (b.slot, assign b dev blockno ∷ ring) else none
    ]

-- `bget`
unfoldable pub bget : ℕ → ℕ → List Buf → Option (ℕ × List Buf)
bget dev blockno ring = elim (find_cached dev blockno ring) [
  | some r ↦ some r
  | none ↦ recycle dev blockno ring
]

-- What a pointer to a buffer changes.
abbrev pub change : ℕ → (Buf → Buf) → List Buf → List Buf
change s g [] = []
change s g (b ∷ ring) = if b.slot == s then g b ∷ ring else b ∷ change s g ring

abbrev pub buf_at : ℕ → List Buf → Option Buf
buf_at s [] = none
buf_at s (b ∷ ring) = if b.slot == s then some b else buf_at s ring

-- `ramdiskrw`, on a disk that holds the block: what it makes of the buffer, and of the disk.
abbrev pub transferred : Blocks → Buf → Buf
transferred d b = record b {
  valid = true;
  dirty = false;
  bytes = if b.dirty then b.bytes else d b.dev b.blockno;
}

abbrev pub disk_after : Blocks → Buf → Blocks
disk_after d b = if b.dirty then store d b.dev b.blockno b.bytes else d

-- `blockdev_rw` of the buffer in a slot, on a device that is there: each driver treats the flags of the
-- buffer as `ramdiskrw` does.
unfoldable pub blockdev_rw : ℕ → List Buf → Blocks → List Buf × Blocks
blockdev_rw s ring d = elim (buf_at s ring) [
  | none ↦ (ring, d)
  | some b ↦ (change s (transferred d) ring, disk_after d b)
]

-- `bread`
unfoldable pub bread : ℕ → ℕ → List Buf → Blocks → Option (ℕ × List Buf × Blocks)
bread dev blockno ring d = elim (bget dev blockno ring) [
  | none ↦ none
  | some (s, ring1) ↦ elim (buf_at s ring1) [
    | none ↦ none
    | some b ↦
        let (ring2, d2) = blockdev_rw s ring1 d in
        if b.valid then some (s, ring1, d) else some (s, ring2, d2)
  ]
]

abbrev pub filled : List ℕ → Buf → Buf
filled bytes b = record b { bytes = bytes }

abbrev pub marked : Buf → Buf
marked b = record b { dirty = true }

-- The caller changes the data of a buffer and calls `bwrite`.
unfoldable pub bwrite : ℕ → List ℕ → List Buf → Blocks → List Buf × Blocks
bwrite s bytes ring d = blockdev_rw s (change s (λ b. marked (filled bytes b)) ring) d

-- The caller changes the data of a buffer and pins it, as `log_write` does.
unfoldable pub pin : ℕ → List ℕ → List Buf → List Buf
pin s bytes ring = change s (λ b. marked (filled bytes b)) ring

abbrev pub remove : ℕ → List Buf → List Buf
remove s [] = []
remove s (b ∷ ring) = if b.slot == s then ring else b ∷ remove s ring

abbrev pub dropped : Buf → Buf
dropped b = record b { refcnt = (b.refcnt + u32_mod - 1) % u32_mod }

-- `brelse`
unfoldable pub brelse : ℕ → List Buf → List Buf
brelse s ring = elim (buf_at s ring) [
  | none ↦ ring
  | some b ↦ if (dropped b).refcnt == 0 then dropped b ∷ remove s ring else change s dropped ring
]
