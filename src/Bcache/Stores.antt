-- ===== src/Bcache/Stores.antt =====
-- kern/bio.c: a changed buffer, written to the disk by `bwrite` or pinned by `log_write`.
use openproninx.Base.{
  ℕ, ◌≡◌, inl, inr, refl, ap, ◌∙◌, sym, subst, true, false, Bool-cases, Option, none, some, List,
  if◌then◌else◌,
}
use openproninx.Bcache.{
  Buf, Blocks, is_at, store, change, buf_at, transferred, disk_after, filled, marked, blockdev_rw,
  bwrite, pin,
}
use openproninx.Bcache.Ring.{IsClean, IsCache, first, view, is_at_self, valid-first}
use openproninx.Bcache.Change.{change-IsCache, change-view}
use openproninx.Bcache.Transparent.{change-buf_at, change-first}

-- The cache as a store of blocks after a change.
pub record Stored (d : Blocks) (ring : List Buf) (b : Buf) (bytes : List ℕ) (ring' : List Buf)
    (d' : Blocks) : Type 0 where
  pub is_cache : IsCache d' ring'
  pub changed :
      (dev blockno : ℕ)
      → view ring' d' dev blockno ≡ store (view ring d) b.dev b.blockno bytes dev blockno

-- A valid buffer that is changed and marked dirty changes what the cache shows of its block alone.
pub pin-Stored :
    (s : ℕ) (bytes : List ℕ) (ring : List Buf) (d : Blocks) {b : Buf}
    → IsCache d ring
    → buf_at s ring ≡ some b
    → b.valid ≡ true
    → Stored d ring b bytes (pin s bytes ring) d
unfolding pin
pin-Stored s bytes ring d {b} i h v = record {
  is_cache = change-IsCache d d g s b refl refl refl (λ _ _ _. refl) ring h at_front clean i;
  changed = λ dev blockno.
      change-view d d g s b refl refl refl (λ _ _ _. refl) ring dev blockno h at_front ∙ rw v refl;
}
  where
    g : Buf → Buf
    g x = marked (filled bytes x)

    at_front : first b.dev b.blockno ring ≡ some b
    at_front = valid-first ring d s i h v

    clean : IsClean d (g b)
    clean = record { copies = λ _ e. absurd (cc e); dirty_valid = λ _. v }

-- `bwrite` of a valid buffer puts its new data on the disk, and the cache shows them in its block alone.
pub bwrite-Stored :
    (s : ℕ) (bytes : List ℕ) (ring : List Buf) (d : Blocks) {b : Buf}
    → IsCache d ring
    → buf_at s ring ≡ some b
    → b.valid ≡ true
    → Stored d ring b bytes (bwrite s bytes ring d).0 (bwrite s bytes ring d).1
      × ((bwrite s bytes ring d).1 ≡ store d b.dev b.blockno bytes)
unfolding bwrite blockdev_rw pin
bwrite-Stored s bytes ring d {b} i h v = subst Good (sym now) (
  record {
    is_cache =
        change-IsCache d d' (transferred d) s (g b) refl refl refl away ring1 place at_front clean
          p.is_cache;
    changed = λ dev blockno.
        change-view d d' (transferred d) s (g b) refl refl refl away ring1 dev blockno place
          at_front
        ∙ settled dev blockno;
  },
  refl,
)
  where
    g : Buf → Buf
    g x = marked (filled bytes x)

    ring1 : List Buf
    ring1 = change s g ring

    d' : Blocks
    d' = store d b.dev b.blockno bytes

    Good : List Buf × Blocks → Type 0
    Good r = Stored d ring b bytes r.0 r.1 × (r.1 ≡ d')

    outcome : Option Buf → List Buf × Blocks
    outcome o = elim o [
      | none ↦ (ring1, d)
      | some x ↦ (change s (transferred d) ring1, disk_after d x)
    ]

    place : buf_at s ring1 ≡ some (g b)
    place = change-buf_at g s ring refl h

    now : bwrite s bytes ring d ≡ (change s (transferred d) ring1, d')
    now = ap outcome place

    p : Stored d ring b bytes ring1 d
    p = pin-Stored s bytes ring d i h v

    at_front : first b.dev b.blockno ring1 ≡ some (g b)
    at_front = change-first g s ring refl refl h (valid-first ring d s i h v)

    away : (dev blockno : ℕ) → is_at (g b) dev blockno ≡ false → d' dev blockno ≡ d dev blockno
    away dev blockno n = rw n refl

    clean : IsClean d' (transferred d (g b))
    clean = record { copies = λ _ _. sym (rw (is_at_self b) refl); dirty_valid = λ _. refl }

    settled :
        (dev blockno : ℕ)
        → (if is_at (g b) dev blockno then bytes else view ring1 d dev blockno)
          ≡ store (view ring d) b.dev b.blockno bytes dev blockno
    settled dev blockno = elim (Bool-cases (is_at b dev blockno)) [
      | inl e ↦ rw e refl
      | inr e ↦ rw e (p.changed dev blockno ∙ rw e refl)
    ]
