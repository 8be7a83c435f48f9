-- ===== src/Bcache/Examples.antt =====
-- kern/bio.c: the cache after `binit`, and a ring of two buffers.
use openproninx.Base.{ℕ, zero, suc, ◌+◌, ◌≡◌, ◌<◌, refl, true, false, some, List, [], ◌∷◌, arith}
use openproninx.Bcache.{
  Buf, Blocks, nbuf, binit, binit_from, find_cached, recycle, bget, blockdev_rw, bread, bwrite, pin,
  brelse, store,
}
use openproninx.Bcache.Ring.{IsAhead, IsCache}
use openproninx.Bcache.Transparent.{Got, Shown, bread-transparent}
use openproninx.Bcache.Stores.{Stored, pin-Stored, bwrite-Stored}
use openproninx.Bcache.Returns.{bget-returns}

abbrev AllBlank : ℕ → List Buf → Type 0
AllBlank i [] = Unit
AllBlank i (b ∷ ring) = (b.slot < i) × (b.valid ≡ false) × AllBlank i ring

AllBlank-wider : (i : ℕ) (ring : List Buf) → AllBlank i ring → AllBlank (i + 1) ring
AllBlank-wider i [] a = a
AllBlank-wider i (b ∷ ring) (lt, v, a) = (omega arith, v, AllBlank-wider i ring a)

AllBlank-IsAhead :
    (b : Buf) (i : ℕ) (ring : List Buf) → b.slot ≡ i → AllBlank i ring → IsAhead b ring
AllBlank-IsAhead b i [] e a = a
AllBlank-IsAhead b i (c ∷ ring) e (lt, v, a) =
    ((λ q. omega arith), (λ _. v), AllBlank-IsAhead b i ring e a)

binit_from-IsCache :
    (k i : ℕ) (ring : List Buf) (d : Blocks)
    → AllBlank i ring
    → IsCache d ring
    → IsCache d (binit_from k i ring)
unfolding binit_from
binit_from-IsCache zero i ring d a c = c
binit_from-IsCache (suc k) i ring d a c =
    binit_from-IsCache k (i + 1) (new ∷ ring) d (omega arith, refl, AllBlank-wider i ring a)
      (
        record { copies = λ v _. absurd (cc v); dirty_valid = λ v. absurd (cc v) },
        AllBlank-IsAhead new i ring refl a,
        c,
      )
  where
    new : Buf
    new = record {
      slot = i;
      valid = false;
      dirty = false;
      dev = 0;
      blockno = 0;
      refcnt = 0;
      bytes = [];
    }

-- The cache is in order after `binit`.
binit-IsCache : (d : Blocks) → IsCache d binit
unfolding binit
binit-IsCache d = binit_from-IsCache nbuf 0 [] d tt tt

abbrev blocks : Blocks
blocks dev blockno = dev ∷ blockno ∷ []

abbrev blank : ℕ → Buf
blank i = record {
  slot = i;
  valid = false;
  dirty = false;
  dev = 0;
  blockno = 0;
  refcnt = 0;
  bytes = [];
}

abbrev two : List Buf
two = blank 1 ∷ blank 0 ∷ []

abbrev held : Buf
held = record {
  slot = 0;
  valid = true;
  dirty = false;
  dev = 1;
  blockno = 7;
  refcnt = 1;
  bytes = 1 ∷ 7 ∷ [];
}

abbrev one_held : List Buf
one_held = blank 1 ∷ held ∷ []

two-IsCache : IsCache blocks two
unfolding binit_from
two-IsCache = binit_from-IsCache 2 0 [] blocks tt tt

bread-transparent_example : Shown blocks 1 7 two 0 one_held blocks
unfolding bread bget find_cached recycle blockdev_rw
bread-transparent_example = bread-transparent two blocks 1 7 two-IsCache refl

one_held-IsCache : IsCache blocks one_held
one_held-IsCache = bread-transparent_example.is_cache

bget-returns_example :
    (s' : ℕ) × (ring' : List Buf) × (bget 1 8 one_held ≡ some (s', ring'))
    × Got blocks 1 8 one_held s' ring'
bget-returns_example = bget-returns one_held blocks 1 8 1 one_held-IsCache refl refl refl

bwrite-Stored_example :
    Stored blocks one_held held
      (9 ∷ [])
      (bwrite 0 (9 ∷ []) one_held blocks).0
      (bwrite 0 (9 ∷ []) one_held blocks).1
    × ((bwrite 0 (9 ∷ []) one_held blocks).1 ≡ store blocks 1 7 (9 ∷ []))
bwrite-Stored_example = bwrite-Stored 0 (9 ∷ []) one_held blocks one_held-IsCache refl refl

pin-Stored_example : Stored blocks one_held held (9 ∷ []) (pin 0 (9 ∷ []) one_held) blocks
pin-Stored_example = pin-Stored 0 (9 ∷ []) one_held blocks one_held-IsCache refl refl

released_first : brelse 0 one_held ≡ record held { refcnt = 0 } ∷ blank 1 ∷ []
unfolding brelse
released_first = refl
