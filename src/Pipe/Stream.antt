-- ===== src/Pipe/Stream.antt =====
-- kern/pipe.c over time: stretches of readers, writers and closers in any order.
use openproninx.Base.{
  ℕ, ◌-◌, ◌≤◌, ◌<◌, ◌≡◌, refl, ap, ◌∙◌, sym, inl, inr, Bool, true, false, List, [], ◌∷◌, ◌++◌,
  append-nil, append_assoc, arith, length, length-append, take, take-append_length, take-length,
  Bool-cases, not, ◌||◌,
}
use openproninx.Pipe
use openproninx.Pipe.{
  Pipe, pipe_size, Channel, readers, writers, Written, write_from, write_wakes, Read, read_wakes,
  is_full,
}
use openproninx.Pipe.Queue.{count, contents}
use openproninx.Pipe.Invariant.{IsValid, close-IsValid}
use openproninx.Pipe.Refine.{
  left_over, after_write, write_from-append, read-takes, ReadsRightly, length-window,
}

-- What one thread does while it holds the lock.
pub data Stretch : Type 0 where
  write : Bool → List ℕ → Stretch
  read : Bool → ℕ → Stretch
  close : Bool → Stretch

-- The bytes that a stretch of `pipewrite` put into the pipe.
abbrev pub accepted : List ℕ → Written → List ℕ
accepted src out = take (length src - length (left_over out)) src

pub record Trace : Type 0 where
  pub pipe : Pipe
  pub sent : List ℕ
  pub received : List ℕ

abbrev pub after_read : Trace → Read → Trace
after_read t (Read.got bytes p) = record t { pipe = p; received = t.received ++ bytes }
after_read t (Read.failed p) = record t { pipe = p }
after_read t (Read.asleep p) = record t { pipe = p }

unfoldable pub step : Trace → Stretch → Trace
step t (Stretch.write killed src) =
    let out = write_from killed t.pipe src in
    record t { pipe = after_write out; sent = t.sent ++ accepted src out }
step t (Stretch.read killed n) = after_read t (Pipe.read killed t.pipe n)
step t (Stretch.close writable) = record t { pipe = (Pipe.close t.pipe writable).0 }

unfoldable pub run : Trace → List Stretch → Trace
unfolding step
run t [] = t
run t (s ∷ ss) = run (step t s) ss

left_over-le :
    (killed : Bool) (p : Pipe) (src : List ℕ)
    → length (left_over (write_from killed p src)) ≤ length src
unfolding write_from
left_over-le killed p [] = omega arith
left_over-le killed p (x ∷ xs) = elim (Bool-cases (is_full p)) [
  | inl e ↦ rw e (elim (Bool-cases (not p.readopen || killed)) [
    | inl k ↦ rw k (omega arith)
    | inr k ↦ rw k (omega arith)
  ])
  | inr e ↦ rw e (omega (arith, left_over-le killed (Pipe.put_byte p x) xs))
]

-- Cutting the same rest off two equal lists.
cut :
    (a b c src : List ℕ)
    → a ++ b ≡ c ++ src
    → length b ≤ length src
    → a ≡ c ++ take (length src - length b) src
cut a b c src e h =
    sym (take-length a b)
    ∙ ap (λ l. take (length a) l) e
    ∙ ap (λ k. take k (c ++ src))
        (omega (arith, ap length e, length-append a b, length-append c src))
    ∙ take-append_length c src (length src - length b)

contents-write_from :
    (killed : Bool) {p : Pipe} (src : List ℕ)
    → IsValid p
    → contents (after_write (write_from killed p src))
      ≡ contents p ++ accepted src (write_from killed p src)
contents-write_from killed {p} src v =
    cut _ (left_over (write_from killed p src)) _ src (write_from-append killed src v).1
      (left_over-le killed p src)

-- The pipe is valid, and what was received and is still in the pipe is what was in it and was sent.
record Carries (t : Trace) (start : List ℕ) : Type 0 where
  valid : IsValid t.pipe
  stream : t.received ++ contents t.pipe ≡ start ++ t.sent

after_read-Carries :
    (killed : Bool) (n : ℕ) {t : Trace} {start : List ℕ}
    → Carries t start
    → (r : Read) → ReadsRightly killed t.pipe n r
    → Carries (after_read t r) start
after_read-Carries killed n {t} c (Read.got bytes p) (v, e, _, _) = record {
  valid = v;
  stream = append_assoc t.received bytes (contents p) ∙ rw e c.stream;
}
after_read-Carries killed n {t} c (Read.failed p) (e, _, _, _) = record {
  valid = rw e c.valid;
  stream = rw e c.stream;
}
after_read-Carries killed n {t} c (Read.asleep p) (e, _, _, _) = record {
  valid = rw e c.valid;
  stream = rw e c.stream;
}

contents-close : (p : Pipe) (w : Bool) → contents (Pipe.close p w).0 ≡ contents p
unfolding Pipe.close
contents-close p true = refl
contents-close p false = refl

step-Carries :
    {t : Trace} {start : List ℕ} (s : Stretch) → Carries t start → Carries (step t s) start
unfolding step
step-Carries {t} {start} (Stretch.write killed src) c = record {
  valid = (write_from-append killed src c.valid).0;
  stream =
      ap (λ l. t.received ++ l) (contents-write_from killed src c.valid)
      ∙ sym (append_assoc t.received (contents t.pipe) _)
      ∙ ap (λ l. l ++ accepted src (write_from killed t.pipe src)) c.stream
      ∙ append_assoc start t.sent _;
}
step-Carries {t} (Stretch.read killed n) c =
    after_read-Carries killed n c _ (read-takes killed n c.valid)
step-Carries {t} (Stretch.close w) c = record {
  valid = close-IsValid c.valid w;
  stream = rw (contents-close t.pipe w) c.stream;
}

run-Carries :
    (ss : List Stretch) {t : Trace} {start : List ℕ} → Carries t start → Carries (run t ss) start
unfolding run
run-Carries [] c = c
run-Carries (s ∷ ss) c = run-Carries ss (step-Carries s c)

abbrev pub quiet : Pipe → Trace
quiet p = record { pipe = p; sent = []; received = [] }

-- Whatever readers, writers and closers do in whatever order, the bytes received followed by those
-- still in the pipe are the bytes that were in it followed by those that writers put in: nothing
-- is lost, repeated or reordered. The pipe stays valid.
pub run-stream :
    (ss : List Stretch) {p : Pipe}
    → IsValid p
    → let t = run (quiet p) ss in
      IsValid t.pipe × (t.received ++ contents t.pipe ≡ contents p ++ t.sent)
run-stream ss {p} v =
    let c =
      run-Carries ss {t = quiet p} {start = contents p}
        (record { valid = v; stream = sym (append-nil _) }) in
    (c.valid, c.stream)

-- A reader that comes to a pipe holding bytes returns at least one of them, and wakes the writers.
pub read_at_bytes :
    (killed : Bool) (n : ℕ) {p : Pipe}
    → IsValid p
    → 0 < n
    → 0 < count p
    → (bytes : List ℕ) × (p' : Pipe) × (Pipe.read killed p n ≡ Read.got bytes p')
      × (0 < length bytes)
      × (count p' < count p)
read_at_bytes killed n {p} v hn hc = go (Pipe.read killed p n) refl (read-takes killed n v)
  where
    go :
        (r : Read)
        → Pipe.read killed p n ≡ r
        → ReadsRightly killed p n r
        → (bytes : List ℕ) × (p' : Pipe) × (Pipe.read killed p n ≡ Read.got bytes p')
          × (0 < length bytes)
          × (count p' < count p)
    go (Read.got bytes p') e (_, s, l, _) = (
      bytes,
      p',
      e,
      omega arith,
      omega (
        arith,
        ap length s,
        length-append bytes (contents p'),
        length-window p.buf p.nread (count p),
        length-window p'.buf p'.nread (count p'),
      ),
    )
    go (Read.failed p') e (_, _, z, _) = absurd (omega arith)
    go (Read.asleep p') e (_, _, z, _) = absurd (omega arith)
