-- ===== src/Ufs2/Steady.antt =====
-- kern/ufs2.c: `ufs2_block_address` reads only the inode and the indirect block.
use openproninx.Base.{
  ℕ, ◌+◌, ◌-◌, ◌*◌, ◌/◌, ◌≤◌, ◌<◌, ◌≡◌, refl, ap, ◌∙◌, Bool, true, false, Bool-cases, inl, inr,
  ◌||◌, Option, none, some, List, arith, ◌==◌, ltb, leb, if◌then◌else◌, get_or, add64, mul64,
  u64_mod,
}
use openproninx.BlockDev.{Disk}
use openproninx.BlockDev.Bytes.{IsVolume, capacity, byte_at, bytes_at, bytes_at-congr}
use openproninx.Ufs2.{Volume, Inode, M, ◌>>=◌, ◌>>◌, refuse, read_m}
use openproninx.Ufs2.Codec.{read_le, direct_blocks}
use openproninx.Ufs2.Geometry.{max64}
use openproninx.Ufs2.Files.{assigned, block_address}
use openproninx.Ufs2.Access.{bind-some, read_m-bytes_at}

-- Where the indirect block begins on the volume.
abbrev pub indirect_start : Volume → Inode → ℕ
indirect_start v i = mul64 (get_or i.indirect 0 0) v.fragment_size

-- A step that neither writes nor tells two disks apart.
unfoldable pub Steady : {A : Type 0} → M A → Disk → Disk → Type 0
Steady {A} m d d' = (r : Option A) × (m d ≡ (r, d)) × (m d' ≡ (r, d'))

pub bind-Steady :
    {A B : Type 0}
    → (m : M A) (f : A → M B) (d d' : Disk) → Steady m d d'
    → ((a : A) → Steady (f a) d d')
    → Steady (m >>= f) d d'
unfolding Steady
bind-Steady {A} {B} m f d d' (r, e, e') s = go r e e'
  where
    go : (r : Option A) → m d ≡ (r, d) → m d' ≡ (r, d') → Steady (m >>= f) d d'
    go none e e' = (
      none,
      ap (λ t. elim t.0 [ none ↦ (none, t.1) | some a ↦ f a t.1 ]) e,
      ap (λ t. elim t.0 [ none ↦ (none, t.1) | some a ↦ f a t.1 ]) e',
    )
    go (some a) e e' =
        let (r2, g, g') = s a in (r2, bind-some m f d e ∙ g, bind-some m f d' e' ∙ g')

pub assigned-Steady : (x : ℕ) (d d' : Disk) → Steady (assigned x) d d'
unfolding Steady
assigned-Steady x d d' = elim (Bool-cases (x == 0)) [
  | inl e ↦ (none, rw e refl, rw e refl)
  | inr e ↦ (some x, rw e refl, rw e refl)
]

pub refuse-Steady :
    {A : Type 0}
    → (c : Bool) (k : M A) (d d' : Disk) → (c ≡ false → Steady k d d')
    → Steady (refuse c >> k) d d'
unfolding Steady
refuse-Steady true k d d' s = (none, refl, refl)
refuse-Steady false k d d' s = s refl

pub read_m-Steady :
    (v : Volume) (o n : ℕ) (d d' : Disk)
    → IsVolume v.device
    → ((i : ℕ) → o ≤ i → i < o + n → byte_at v.device d' i ≡ byte_at v.device d i)
    → Steady (read_m v o n) d d'
unfolding Steady
read_m-Steady v o n d d' is same = (
  (if leb (o + n) (capacity v.device) then some (bytes_at v.device d o n) else none),
  read_m-bytes_at v is o n d,
  read_m-bytes_at v is o n d'
      ∙ ap (λ (l : List ℕ). ((if leb (o + n) (capacity v.device) then some l else none), d'))
          (bytes_at-congr v.device d' d o n same),
)

-- The addresses depend on the bytes of the indirect block only.
pub block_address-Steady :
    (v : Volume) (i : Inode) (d d' : Disk) (b : ℕ)
    → IsVolume v.device
    → indirect_start v i + v.block_size < u64_mod
    → ((o : ℕ)
        → indirect_start v i ≤ o
        → o < indirect_start v i + v.block_size
        → byte_at v.device d' o ≡ byte_at v.device d o)
    → Steady (block_address v i b) d d'
unfolding block_address
block_address-Steady v i d d' b is small same = elim (Bool-cases (ltb b direct_blocks)) [
  | inl e ↦ rw e (assigned-Steady (get_or i.direct b 0) d d')
  | inr e ↦ rw e (refuse-Steady guard look d d' within)
]
  where
    guard : Bool
    guard =
        leb (v.block_size / 8) (b - direct_blocks)
        || (get_or i.indirect 0 0 == 0 || ltb (max64 / v.fragment_size) (get_or i.indirect 0 0))

    look : M ℕ
    look = read_m v (add64 (indirect_start v i) (mul64 (b - direct_blocks) 8)) 8 >>= λ raw.
        assigned (read_le 8 raw 0)

    within : guard ≡ false → Steady look d d'
    within g =
        let inner = b - direct_blocks in
        let at : add64 (indirect_start v i) (mul64 inner 8) ≡ indirect_start v i + inner * 8 =
          ground (arith, small) in
        let fits : inner * 8 + 8 ≤ v.block_size = ground arith in
        rw at (
          bind-Steady (read_m v (indirect_start v i + inner * 8) 8)
            (λ raw. assigned (read_le 8 raw 0)) d d'
            (read_m-Steady v (indirect_start v i + inner * 8) 8 d d' is
              (λ o p q. same o (omega arith) (omega arith)))
            (λ raw. assigned-Steady (read_le 8 raw 0) d d'))
