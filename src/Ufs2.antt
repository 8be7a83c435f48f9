-- ===== src/Ufs2.antt =====
-- kern/ufs2.c: the UFS2 volume. Its on-disk structures are byte ranges of the volume, read and written
-- by `blockdev_read` and `blockdev_write`.
pub mod Codec
pub mod Fields
pub mod Access
pub mod Geometry
pub mod Inodes
pub mod Files
pub mod Header
pub mod Fragments
pub mod Refund
pub mod Reserve
pub mod NewInode
pub mod Blocks
pub mod Mark
pub mod NewBlock
pub mod Directory
pub mod Listing
pub mod Contents
pub mod Layout
pub mod Steady
pub mod Chunk
pub mod Overwrite
pub mod Examples
mod LayoutExamples
mod MapExamples
mod DirectoryExamples
use openproninx.Base.{
  ℕ, zero, suc, ◌+◌, ◌*◌, ◌/◌, ◌%◌, ◌^◌, Bool, true, false, Option, none, some, List, [], ◌∷◌, ◌==◌,
  if◌then◌else◌, get_or, set,
}
use openproninx.BlockDev
use openproninx.BlockDev.{BlockDev, Disk}

-- `struct ufs2_volume`
pub record Volume : Type 0 where
  pub device : BlockDev
  pub block_size : ℕ
  pub fragment_size : ℕ
  pub fragments_per_block : ℕ
  pub cylinder_groups : ℕ
  pub inodes_per_group : ℕ
  pub fragments_per_group : ℕ
  pub inodes_per_block : ℕ
  pub inode_table_fragment : ℕ
  pub cylinder_group_block : ℕ
  pub cylinder_group_size : ℕ

-- `struct ufs2_inode`
pub record Inode : Type 0 where
  pub mode : ℕ
  pub nlink : ℕ
  pub uid : ℕ
  pub gid : ℕ
  pub size : ℕ
  pub direct : List ℕ
  pub indirect : List ℕ

-- A function that may return -1 and reads and writes the disk: what it wrote before it failed stays.
abbrev pub M : Type 0 → Type 0
M A = Disk → Option A × Disk

abbrev pub pure : {A : Type 0} → A → M A
pure a d = (some a, d)

abbrev pub fail : {A : Type 0} → M A
fail d = (none, d)

infixl 5 ◌>>=◌ ◌>>◌
abbrev pub ◌>>=◌ : {A B : Type 0} → M A → (A → M B) → M B
◌>>=◌ m f d = elim (m d).0 [ none ↦ (none, (m d).1) | some a ↦ f a (m d).1 ]

abbrev pub ◌>>◌ : {B : Type 0} → M (Unit {0}) → M B → M B
m >> k = m >>= λ _. k

-- `if (bad) return -1;`
abbrev pub refuse : Bool → M (Unit {0})
refuse true = fail
refuse false = pure tt

abbrev pub of_option : {A : Type 0} → Option A → M A
of_option none = fail
of_option (some a) = pure a

unfoldable pub read_m : Volume → ℕ → ℕ → M (List ℕ)
read_m v offset n d = (BlockDev.read v.device d offset n, d)

unfoldable pub write_m : Volume → ℕ → List ℕ → M (Unit {0})
write_m v offset src d =
    let (ok, d') = BlockDev.write v.device d offset src in (if ok then some tt else none, d')
