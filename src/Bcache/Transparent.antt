-- ===== src/Bcache/Transparent.antt =====
-- kern/bio.c: a client of the buffer cache sees the blocks of the disk, as the last change left them.
use openproninx.Base.{
  ℕ, ◌≡◌, inl, inr, refl, ap, ◌∙◌, sym, subst, true, false, Bool-cases, Option, none, some, List,
  [], ◌∷◌, arith, ◌==◌, if◌then◌else◌,
}
use mathlib.Core.Option.{some-injective}
use openproninx.Bcache.{
  Buf, Blocks, is_at, change, buf_at, assign, transferred, disk_after, find_cached, recycle, bget,
  blockdev_rw, bread,
}
use openproninx.Bcache.Ring.{
  IsClean, IsCache, first, view, is_at_self, is_at_lem, first-view, first-shows, before_first,
}
use openproninx.Bcache.Change.{change-IsCache, change-view}
use openproninx.Bcache.Recycle.{recycle-Recycled}
use openproninx.Bcache.Lookup.{counted, Found, find_cached-Found, find_cached-none}
use openproninx.Bcache.Release.{buf_at-IsClean}

-- What a change of the buffer in a place leaves there.
pub change-buf_at :
    (g : Buf → Buf) (s : ℕ) (ring : List Buf) {b : Buf}
    → (g b).slot ≡ b.slot
    → buf_at s ring ≡ some b
    → buf_at s (change s g ring) ≡ some (g b)
change-buf_at g s [] p h = absurd (cc h)
change-buf_at g s (x ∷ ring) {b} p h = elim (Bool-cases (x.slot == s)) [
  | inl e ↦
      let same : x ≡ b = some-injective x b (rw e at h) in
      let place : x.slot ≡ s = ground arith in
      let moved : ((g b).slot == s) ≡ true =
        let q : (g b).slot ≡ s = p ∙ ap (λ (y : Buf). y.slot) (sym same) ∙ place in ground arith in
      rw e (
        subst (λ y. (if (g y).slot == s then some (g y) else buf_at s ring) ≡ some (g b)) (sym same)
          (rw moved refl))
  | inr e ↦ rw (e, e) (change-buf_at g s ring p (rw e at h))
]

pub change-first :
    (g : Buf → Buf) (s : ℕ) (ring : List Buf) {b : Buf}
    → (g b).dev ≡ b.dev
    → (g b).blockno ≡ b.blockno
    → buf_at s ring ≡ some b
    → first b.dev b.blockno ring ≡ some b
    → first b.dev b.blockno (change s g ring) ≡ some (g b)
change-first g s [] p q h f = absurd (cc h)
change-first g s (x ∷ ring) {b} p q h f = elim (Bool-cases (x.slot == s)) [
  | inl e ↦
      let same : x ≡ b = some-injective x b (rw e at h) in
      let found : is_at (g b) b.dev b.blockno ≡ true = rw (p, q) (is_at_self b) in
      rw e (
        subst
          (λ y.
            (if is_at (g y) b.dev b.blockno then some (g y) else first b.dev b.blockno ring)
            ≡ some (g b))
          (sym same) (rw found refl))
  | inr e ↦
      let other = before_first s x ring h f e in
      rw (e, other) (change-first g s ring p q (rw e at h) (rw other at f))
]

-- `bget` gives a buffer for the block, the first of the ring.
pub record Got (d : Blocks) (dev blockno : ℕ) (ring : List Buf) (s : ℕ) (ring' : List Buf)
    : Type 0 where
  pub buf : Buf
  pub place : buf_at s ring' ≡ some buf
  pub is_first : first dev blockno ring' ≡ some buf
  pub is_cache : IsCache d ring'
  pub same_view : (dev' blockno' : ℕ) → view ring' d dev' blockno' ≡ view ring d dev' blockno'

pub bget-Got :
    (ring : List Buf) (d : Blocks) (dev blockno : ℕ) {s : ℕ} {ring' : List Buf}
    → IsCache d ring
    → bget dev blockno ring ≡ some (s, ring')
    → Got d dev blockno ring s ring'
unfolding bget
bget-Got ring d dev blockno {s} {ring'} i h = go (find_cached dev blockno ring) refl h
  where
    cached : Found dev blockno ring s ring' → Got d dev blockno ring s ring'
    cached f =
        let (at, _) = first-view ring d dev blockno f.is_first in
        let (same_dev, same_no) = is_at_lem f.buf dev blockno at in
        let at_front : first f.buf.dev f.buf.blockno ring ≡ some f.buf =
          subst (λ k. first k f.buf.blockno ring ≡ some f.buf) (sym same_dev)
            (subst (λ k. first dev k ring ≡ some f.buf) (sym same_no) f.is_first) in
        let c = buf_at-IsClean ring d s i f.place in
        let clean : IsClean d (counted f.buf) = record {
          copies = c.copies;
          dirty_valid = c.dirty_valid;
        } in
        subst (λ r. Got d dev blockno ring s r) (sym f.now)
          (record {
            buf = counted f.buf;
            place = change-buf_at counted s ring refl f.place;
            is_first =
                subst (λ k. first k blockno (change s counted ring) ≡ some (counted f.buf)) same_dev
                  (subst (λ k. first f.buf.dev k (change s counted ring) ≡ some (counted f.buf))
                    same_no (change-first counted s ring refl refl f.place at_front));
            is_cache =
                change-IsCache d d counted s f.buf refl refl refl (λ _ _ _. refl) ring f.place
                  at_front clean i;
            same_view = λ dev' blockno'.
                change-view d d counted s f.buf refl refl refl (λ _ _ _. refl) ring dev' blockno'
                  f.place at_front
                ∙ first-shows ring d f.buf at_front dev' blockno';
          })

    go :
        (o : Option (ℕ × List Buf))
        → find_cached dev blockno ring ≡ o
        → (elim o as (λ _. Option (ℕ × List Buf)) [
          | some r ↦ some r
          | none ↦ recycle dev blockno ring
        ])
          ≡ some (s, ring')
        → Got d dev blockno ring s ring'
    go none e q =
        let r = recycle-Recycled ring d dev blockno i (find_cached-none ring dev blockno e) q in
        record {
          buf = assign r.old dev blockno;
          place = r.new_place;
          is_first = r.new_first;
          is_cache = r.is_cache;
          same_view = r.same_view;
        }
    go (some p) e q = cached (find_cached-Found ring d dev blockno i (e ∙ q))

-- What `bread` returns.
pub record Shown (d : Blocks) (dev blockno : ℕ) (ring : List Buf) (s : ℕ) (ring' : List Buf)
    (d' : Blocks) : Type 0 where
  pub same_disk : d' ≡ d
  pub is_cache : IsCache d ring'
  pub same_view : (dev' blockno' : ℕ) → view ring' d dev' blockno' ≡ view ring d dev' blockno'
  pub buf : Buf
  pub place : buf_at s ring' ≡ some buf
  pub valid : buf.valid ≡ true
  pub dev_is : buf.dev ≡ dev
  pub blockno_is : buf.blockno ≡ blockno
  pub shown : buf.bytes ≡ view ring d dev blockno

-- A buffer that was just found, with its block read where it was not valid.
Got-Shown :
    (ring ring1 : List Buf) (d : Blocks) (dev blockno s : ℕ)
    → (g : Got d dev blockno ring s ring1) → g.buf.valid ≡ true
    → Shown d dev blockno ring s ring1 d
Got-Shown ring ring1 d dev blockno s g v =
    let (at, shown) = first-view ring1 d dev blockno g.is_first in
    let (same_dev, same_no) = is_at_lem g.buf dev blockno at in
    record {
      same_disk = refl;
      is_cache = g.is_cache;
      same_view = g.same_view;
      buf = g.buf;
      place = g.place;
      valid = v;
      dev_is = same_dev;
      blockno_is = same_no;
      shown = sym (sym (g.same_view dev blockno) ∙ shown ∙ rw v refl);
    }

-- The read of a block into a buffer that is not valid.
fill-Shown :
    (ring ring1 : List Buf) (d : Blocks) (dev blockno s : ℕ)
    → (g : Got d dev blockno ring s ring1) → g.buf.valid ≡ false
    → Shown d dev blockno ring s (change s (transferred d) ring1) (disk_after d g.buf)
fill-Shown ring ring1 d dev blockno s g v = record {
  same_disk = rw unwritten refl;
  is_cache =
      change-IsCache d d (transferred d) s b refl refl refl (λ _ _ _. refl) ring1 g.place at_front
        clean g.is_cache;
  same_view = λ dev' blockno'. kept dev' blockno' ∙ g.same_view dev' blockno';
  buf = transferred d b;
  place = change-buf_at (transferred d) s ring1 refl g.place;
  valid = refl;
  dev_is = same.0;
  blockno_is = same.1;
  shown = rw unwritten (
      ap (λ k. d k b.blockno) same.0
      ∙ ap (λ k. d dev k) same.1
      ∙ sym (sym (g.same_view dev blockno) ∙ found.1 ∙ rw v refl));
}
  where
    b : Buf
    b = g.buf

    found :
        (is_at b dev blockno ≡ true)
        × (view ring1 d dev blockno ≡ (if b.valid then b.bytes else d dev blockno))
    found = first-view ring1 d dev blockno g.is_first

    same : (b.dev ≡ dev) × (b.blockno ≡ blockno)
    same = is_at_lem b dev blockno found.0

    unwritten : b.dirty ≡ false
    unwritten = elim (Bool-cases b.dirty) [
      | inl e ↦ absurd (cc (sym v ∙ (buf_at-IsClean ring1 d s g.is_cache g.place).dirty_valid e))
      | inr e ↦ e
    ]

    at_front : first b.dev b.blockno ring1 ≡ some b
    at_front =
        subst (λ k. first k b.blockno ring1 ≡ some b) (sym same.0)
          (subst (λ k. first dev k ring1 ≡ some b) (sym same.1) g.is_first)

    clean : IsClean d (transferred d b)
    clean = record { copies = λ _ _. rw unwritten refl; dirty_valid = λ _. refl }

    kept :
        (dev' blockno' : ℕ)
        → view (change s (transferred d) ring1) d dev' blockno' ≡ view ring1 d dev' blockno'
    kept dev' blockno' = elim (Bool-cases (is_at b dev' blockno')) [
      | inl e ↦
          let (b_dev, b_no) = is_at_lem b dev' blockno' e in
          let before : view ring1 d dev' blockno' ≡ d dev' blockno' =
            sym (first-shows ring1 d b at_front dev' blockno') ∙ rw (e, v) refl in
          let read : view (change s (transferred d) ring1) d dev' blockno' ≡ d b.dev b.blockno =
            change-view d d (transferred d) s b refl refl refl (λ _ _ _. refl) ring1 dev' blockno'
              g.place at_front
            ∙ rw (e, unwritten) refl in
          read ∙ ap (λ k. d k b.blockno) b_dev ∙ ap (λ k. d dev' k) b_no ∙ sym before
      | inr e ↦
          change-view d d (transferred d) s b refl refl refl (λ _ _ _. refl) ring1 dev' blockno'
            g.place at_front
          ∙ rw e refl
    ]

-- Where `bread` returns a buffer, it is valid, has the block that was asked for and holds what the cache
-- shows of it; the cache is as good as before and shows the same of every block, and the disk is not changed.
pub bread-transparent :
    (ring : List Buf) (d : Blocks) (dev blockno : ℕ) {s : ℕ} {ring' : List Buf} {d' : Blocks}
    → IsCache d ring
    → bread dev blockno ring d ≡ some (s, ring', d')
    → Shown d dev blockno ring s ring' d'
unfolding bread blockdev_rw
bread-transparent ring d dev blockno {s} {ring'} {d'} i h = go (bget dev blockno ring) refl h
  where
    Outcome : Type 0
    Outcome = ℕ × List Buf × Blocks

    result : ℕ → List Buf → Option Buf → Option Outcome
    result s1 ring1 o = elim o as (λ _. Option Outcome) [
      | none ↦ none
      | some b ↦
          if b.valid
          then some (s1, ring1, d)
          else some (
            s1,
            (elim o as (λ _. List Buf × Blocks) [
              | none ↦ (ring1, d)
              | some x ↦ (change s1 (transferred d) ring1, disk_after d x)
            ]).0,
            (elim o as (λ _. List Buf × Blocks) [
              | none ↦ (ring1, d)
              | some x ↦ (change s1 (transferred d) ring1, disk_after d x)
            ]).1,
          )
    ]

    ReadBy : Outcome → Type 0
    ReadBy p = Shown d dev blockno ring p.0 p.1 p.2

    returns :
        (s1 : ℕ) (ring1 : List Buf)
        → Got d dev blockno ring s1 ring1
        → result s1 ring1 (buf_at s1 ring1) ≡ some (s, ring', d')
        → Shown d dev blockno ring s ring' d'
    returns s1 ring1 g q =
        let known : result s1 ring1 (some g.buf) ≡ some (s, ring', d') =
          sym (ap (result s1 ring1) g.place) ∙ q in
        elim (Bool-cases g.buf.valid) [
          | inl v ↦
              subst ReadBy (some-injective _ _ (rw v at known))
                (Got-Shown ring ring1 d dev blockno s1 g v)
          | inr v ↦
              subst ReadBy (some-injective _ _ (rw v at known))
                (fill-Shown ring ring1 d dev blockno s1 g v)
        ]

    go :
        (o : Option (ℕ × List Buf))
        → bget dev blockno ring ≡ o
        → (elim o as (λ _. Option Outcome) [
          | none ↦ none
          | some (s1, ring1) ↦ result s1 ring1 (buf_at s1 ring1)
        ])
          ≡ some (s, ring', d')
        → Shown d dev blockno ring s ring' d'
    go none e q = absurd (cc q)
    go (some (s1, ring1)) e q = returns s1 ring1 (bget-Got ring d dev blockno i e) q
