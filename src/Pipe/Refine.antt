-- ===== src/Pipe/Refine.antt =====
-- kern/pipe.c against a queue of bytes: `write_from` appends, `read` takes from the front.
use openproninx.Base.{
  ℕ, zero, suc, ◌+◌, ◌-◌, ◌%◌, ◌<◌, ◌≡◌, ◌≢◌, ◌⊎◌, inl, inr, refl, ap, ap₂, ◌∙◌, sym, Bool, true,
  false, List, [], ◌∷◌, ◌++◌, arith, length, u32_mod, get_or, set, add32, sub32, get_or-set_self,
  get_or-set_ne, append_assoc, Bool-cases, if◌then◌else◌, not, ◌||◌, min,
}
use openproninx.Pipe.{
  Pipe, pipe_size, put_byte, take_byte, is_full, is_empty, Written, write_from, read_loop, Read,
  read,
}
use openproninx.Pipe.Queue.{count, window, contents}
use openproninx.Pipe.Invariant.{
  IsValid, count_of_empty, count_of_not_empty, count_of_full, count_of_not_full, put_byte-IsValid,
  count-take_byte, take_byte-IsValid,
}

-- Writing behind a window that does not fill the ring extends it by that byte.
window-set :
    (buf : List ℕ) (x n r i : ℕ)
    → length buf ≡ pipe_size
    → n < pipe_size
    → i ≡ (r + n) % u32_mod % pipe_size
    → window (set buf i x) r (suc n) ≡ window buf r n ++ (x ∷ [])
window-set buf x zero r i hb hn e =
    let e' : i ≡ r % pipe_size = omega arith in
    rw (e', get_or-set_self buf (r % pipe_size) x 0 (omega arith))
window-set buf x (suc n) r i hb hn e =
    ap₂ ◌∷◌ (get_or-set_ne buf {j = r % pipe_size} x 0 (omega arith))
      (window-set buf x n (add32 r 1) i hb (omega arith) (omega arith))

window_of_pos :
    (buf : List ℕ) (r n : ℕ)
    → 0 < n
    → window buf r n ≡ get_or buf (r % pipe_size) 0 ∷ window buf (add32 r 1) (n - 1)
window_of_pos buf r zero h = elim h [ ]
window_of_pos buf r (suc n) h = ap (λ k. window buf r (suc k)) (omega arith)

pub length-window : (buf : List ℕ) (r n : ℕ) → length (window buf r n) ≡ n
length-window buf r zero = refl
length-window buf r (suc n) = ap suc (length-window buf (add32 r 1) n)

module _ {p : Pipe} (v : IsValid p) where
  pub contents-put_byte :
      (x : ℕ) → is_full p ≡ false → contents (put_byte p x) ≡ contents p ++ (x ∷ [])
  unfolding put_byte
  contents-put_byte x e =
      let c : sub32 (add32 p.nwrite 1) p.nread ≡ suc (count p) =
        omega (arith, count_of_not_full v e) in
      rw c (
        window-set p.buf x (count p) p.nread (p.nwrite % pipe_size) v.ring (count_of_not_full v e)
          (omega arith))

  pub contents-take_byte :
      is_empty p ≡ false
      → contents p ≡ get_or p.buf (p.nread % pipe_size) 0 ∷ contents (take_byte p)
  unfolding take_byte
  contents-take_byte e =
      let c : count p - 1 ≡ sub32 p.nwrite (add32 p.nread 1) =
        omega (arith, count_of_not_empty v e) in
      window_of_pos p.buf p.nread (count p) (count_of_not_empty v e)
      ∙ ap (λ k. get_or p.buf (p.nread % pipe_size) 0 ∷ window p.buf (add32 p.nread 1) k) c

-- What is left over in a stretch of `pipewrite`.
abbrev pub left_over : Written → List ℕ
left_over (Written.done p) = []
left_over (Written.failed p rest) = rest
left_over (Written.asleep p rest) = rest

abbrev pub after_write : Written → Pipe
after_write (Written.done p) = p
after_write (Written.failed p rest) = p
after_write (Written.asleep p rest) = p

-- The stretch stopped for the reason that its outcome names.
abbrev pub StopsRightly : Bool → Pipe → Written → Type 0
StopsRightly killed p (Written.done p') = Unit
StopsRightly killed p (Written.failed p' rest) =
    (count p' ≡ pipe_size) × ((not p.readopen || killed) ≡ true)
StopsRightly killed p (Written.asleep p' rest) =
    (count p' ≡ pipe_size) × ((not p.readopen || killed) ≡ false)

record Wrote (killed : Bool) (p : Pipe) (src : List ℕ) (out : Written) : Type 0 where
  valid : IsValid (after_write out)
  bytes : contents (after_write out) ++ left_over out ≡ contents p ++ src
  reason : StopsRightly killed p out

Wrote-put_byte :
    (killed : Bool) {p : Pipe} (v : IsValid p) (x : ℕ) (xs : List ℕ)
    (open_space : is_full p ≡ false) (out : Written)
    → Wrote killed (put_byte p x) xs out
    → Wrote killed p (x ∷ xs) out
unfolding put_byte
Wrote-put_byte killed {p} v x xs e out w = record {
  valid = w.valid;
  bytes = w.bytes ∙ rw (contents-put_byte v x e) (append_assoc (contents p) (x ∷ []) xs);
  reason = w.reason;
}

write_from-Wrote :
    (killed : Bool) (src : List ℕ) {p : Pipe}
    → IsValid p
    → Wrote killed p src (write_from killed p src)
unfolding write_from
write_from-Wrote killed [] v = record { valid = v; bytes = refl; reason = tt }
write_from-Wrote killed (x ∷ xs) {p} v = elim (Bool-cases (is_full p)) [
  | inr e ↦
      rw e (Wrote-put_byte killed v x xs e _ (write_from-Wrote killed xs (put_byte-IsValid v x e)))
  | inl e ↦ rw e (elim (Bool-cases (not p.readopen || killed)) [
    | inl k ↦ rw k (record { valid = v; bytes = refl; reason = (count_of_full v e, k) })
    | inr k ↦ rw k (record { valid = v; bytes = refl; reason = (count_of_full v e, k) })
  ])
]

-- Every stretch of `pipewrite` keeps the invariant, and appends to the queue exactly the bytes of
-- the source that it does not leave over. It fails only at a full pipe whose read end is closed or
-- whose caller is killed, and sleeps only at a full pipe where neither holds.
pub write_from-append :
    (killed : Bool) (src : List ℕ) {p : Pipe}
    → IsValid p
    → let out = write_from killed p src in
      IsValid (after_write out)
      × (contents (after_write out) ++ left_over out ≡ contents p ++ src)
      × StopsRightly killed p out
write_from-append killed src v =
    let w = write_from-Wrote killed src v in (w.valid, w.bytes, w.reason)

-- The reading loop takes as many bytes as asked for, or all that there are, from the front.
pub read_loop_lem :
    (n : ℕ) {p : Pipe}
    → IsValid p
    → let (bytes, p') = read_loop n p in
      IsValid p'
      × (bytes ++ contents p' ≡ contents p)
      × (length bytes ≡ min n (count p))
      × (count p' + length bytes ≡ count p)
unfolding read_loop
read_loop_lem zero v = (v, refl, omega arith, omega arith)
read_loop_lem (suc n) {p} v = elim (Bool-cases (is_empty p)) [
  | inl e ↦ rw e (v, refl, omega (arith, count_of_empty v e), omega arith)
  | inr e ↦
      let ih = read_loop_lem n (take_byte-IsValid v e) in
      rw e (
        ih.0,
        ap (λ q. get_or p.buf (p.nread % pipe_size) 0 ∷ q) ih.1 ∙ sym (contents-take_byte v e),
        omega (arith, ih.2, count-take_byte v e),
        omega (arith, ih.3, count-take_byte v e),
      )
]

-- What a stretch of `piperead` must do: give the oldest bytes, and fail or sleep only where the pipe
-- is empty and can still be written to.
abbrev pub ReadsRightly : Bool → Pipe → ℕ → Read → Type 0
ReadsRightly killed p n (Read.got bytes p') =
    IsValid p'
    × (bytes ++ contents p' ≡ contents p)
    × (length bytes ≡ min n (count p))
    × ((count p ≢ 0) ⊎ (p.writeopen ≡ false))
ReadsRightly killed p n (Read.failed p') =
    (p' ≡ p) × (killed ≡ true) × (count p ≡ 0) × (p.writeopen ≡ true)
ReadsRightly killed p n (Read.asleep p') =
    (p' ≡ p) × (killed ≡ false) × (count p ≡ 0) × (p.writeopen ≡ true)

-- On every branch `piperead` returns the oldest bytes of the queue, as many as asked for or all that
-- there are, and leaves the rest; it sleeps, or fails if killed, exactly where the pipe is empty and
-- its write end open.
pub read-takes :
    (killed : Bool) (n : ℕ) {p : Pipe} → IsValid p → ReadsRightly killed p n (read killed p n)
unfolding read
read-takes killed n {p} v = elim (Bool-cases (is_empty p)) [
  | inr e ↦
      rw e
        (let r = read_loop_lem n v in (r.0, r.1, r.2, inl (omega (arith, count_of_not_empty v e))))
  | inl e ↦ rw e (at_empty killed p.writeopen e refl)
]
  where
    at_empty :
        (k o : Bool)
        → is_empty p ≡ true
        → p.writeopen ≡ o
        → ReadsRightly k p n (
            if o
            then (if k then Read.failed p else Read.asleep p)
            else Read.got (read_loop n p).0 (read_loop n p).1)
    at_empty true true e o = (refl, refl, count_of_empty v e, o)
    at_empty false true e o = (refl, refl, count_of_empty v e, o)
    at_empty k false e o = let r = read_loop_lem n v in (r.0, r.1, r.2, inr o)
