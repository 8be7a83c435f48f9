-- ===== src/Bcache/Returns.antt =====
-- kern/bio.c: where `bget` does not panic.
use openproninx.Base.{
  ℕ, ◌≡◌, ◌≢◌, inl, inr, refl, ap, ◌∙◌, false, not, ◌&&◌, Bool-cases, Option, none, some, List, [],
  ◌∷◌, ◌==◌, if◌then◌else◌,
}
use mathlib.Core.Option.{some-injective}
use openproninx.Bcache.{Buf, Blocks, buf_at, assign, find_cached, recycle, bget}
use openproninx.Bcache.Ring.{IsCache}
use openproninx.Bcache.Transparent.{Got, bget-Got}

recycle-returns :
    (ring : List Buf) (dev blockno s : ℕ) {b : Buf}
    → buf_at s ring ≡ some b
    → b.refcnt ≡ 0
    → b.dirty ≡ false
    → recycle dev blockno ring ≢ none
unfolding recycle
recycle-returns [] dev blockno s h idle clean = absurd (cc h)
recycle-returns (x ∷ ring) dev blockno s {b} h idle clean = elim (Bool-cases (x.slot == s)) [
  | inl e ↦
      let same : x ≡ b = some-injective x b (rw e at h) in
      taken (recycle dev blockno ring) (ap (λ (y : Buf). y.refcnt) same ∙ idle)
        (ap (λ (y : Buf). y.dirty) same ∙ clean)
  | inr e ↦
      passed (recycle dev blockno ring) (recycle-returns ring dev blockno s (rw e at h) idle clean)
]
  where
    outcome : Option (ℕ × List Buf) → Option (ℕ × List Buf)
    outcome o = elim o [
      | some (s1, r1) ↦ some (s1, x ∷ r1)
      | none ↦
          if x.refcnt == 0 && not x.dirty then some (x.slot, assign x dev blockno ∷ ring) else none
    ]

    taken : (o : Option (ℕ × List Buf)) → x.refcnt ≡ 0 → x.dirty ≡ false → outcome o ≢ none
    taken (some p) z n q = cc q
    taken none z n q = cc (rw (z, n) at q)

    passed : (o : Option (ℕ × List Buf)) → o ≢ none → outcome o ≢ none
    passed (some p) n q = cc q
    passed none n q = n refl

bget-is_some :
    (ring : List Buf) (dev blockno s : ℕ) {b : Buf}
    → buf_at s ring ≡ some b
    → b.refcnt ≡ 0
    → b.dirty ≡ false
    → bget dev blockno ring ≢ none
unfolding bget
bget-is_some ring dev blockno s h idle clean = go (find_cached dev blockno ring)
  where
    go :
        (o : Option (ℕ × List Buf))
        → (elim o as (λ _. Option (ℕ × List Buf)) [
          | some r ↦ some r
          | none ↦ recycle dev blockno ring
        ])
          ≢ none
    go none q = recycle-returns ring dev blockno s h idle clean q
    go (some r) q = cc q

-- Where some buffer of the ring is neither held nor dirty, `bget` returns and does not panic: with a
-- buffer for the block that is the first for it in the ring, in a ring that shows a client the same
-- blocks as before.
pub bget-returns :
    (ring : List Buf) (d : Blocks) (dev blockno s : ℕ) {b : Buf}
    → IsCache d ring
    → buf_at s ring ≡ some b
    → b.refcnt ≡ 0
    → b.dirty ≡ false
    → (s' : ℕ) × (ring' : List Buf) × (bget dev blockno ring ≡ some (s', ring'))
      × Got d dev blockno ring s' ring'
bget-returns ring d dev blockno s {b} i h idle clean = go (bget dev blockno ring) refl
  where
    go :
        (o : Option (ℕ × List Buf))
        → bget dev blockno ring ≡ o
        → (s' : ℕ) × (ring' : List Buf) × (bget dev blockno ring ≡ some (s', ring'))
          × Got d dev blockno ring s' ring'
    go none e = absurd (bget-is_some ring dev blockno s h idle clean e)
    go (some (s', ring')) e = (s', ring', e, bget-Got ring d dev blockno i e)
