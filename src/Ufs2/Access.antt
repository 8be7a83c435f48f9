-- ===== src/Ufs2/Access.antt =====
-- kern/ufs2.c: reads and writes of byte ranges, as steps that may fail.
use openproninx.Base.{
  ℕ, ◌+◌, ◌≤◌, ◌≡◌, ap, ◌∙◌, true, Option, none, some, List, arith, leb, if◌then◌else◌, length,
}
use openproninx.BlockDev
use openproninx.BlockDev.{Disk}
use openproninx.BlockDev.Bytes.{IsVolume, capacity, bytes_at}
use openproninx.BlockDev.Read.{read-bytes_at}
use openproninx.BlockDev.Write.{write-Patched}
use openproninx.Ufs2.{Volume, M, ◌>>=◌, of_option, read_m, write_m}

-- What a step that succeeds hands on.
pub bind-some :
    {A B : Type 0}
    → (m : M A) (f : A → M B) (d : Disk) {a : A} {d' : Disk} → m d ≡ (some a, d')
    → (m >>= f) d ≡ f a d'
bind-some m f d h = ap (λ r. elim r.0 [ none ↦ (none, r.1) | some a ↦ f a r.1 ]) h

pub of_option-some :
    {A : Type 0} → (o : Option A) (d : Disk) {a : A} → o ≡ some a → of_option o d ≡ (some a, d)
of_option-some o d h = ap (λ o. of_option o d) h

module _ (v : Volume) (is : IsVolume v.device) where
  pub read_m-bytes_at :
      (o n : ℕ) (d : Disk)
      → read_m v o n d
        ≡ ((if leb (o + n) (capacity v.device) then some (bytes_at v.device d o n) else none), d)
  unfolding read_m
  read_m-bytes_at o n d = rw (read-bytes_at v.device d o n is)

  pub read_m-some :
      (o n : ℕ) (d : Disk)
      → o + n ≤ capacity v.device
      → read_m v o n d ≡ (some (bytes_at v.device d o n), d)
  read_m-some o n d h =
      let e : leb (o + n) (capacity v.device) ≡ true = ground arith in read_m-bytes_at o n d ∙ rw e

  pub write_m-some :
      (o : ℕ) (src : List ℕ) (d : Disk)
      → o + length src ≤ capacity v.device
      → write_m v o src d ≡ (some tt, (BlockDev.write v.device d o src).1)
  unfolding write_m
  write_m-some o src d h =
      let e : leb (o + length src) (capacity v.device) ≡ true = ground arith in
      let ok = (write-Patched v.device d o src is).0 in rw (ok, e)
