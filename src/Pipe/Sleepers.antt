-- ===== src/Pipe/Sleepers.antt =====
-- kern/pipe.c: nothing that a sleeper waits for happens without a wakeup.
use openproninx.Base.{
  ℕ, ◌<◌, ◌≡◌, refl, ◌∙◌, sym, subst, inl, inr, Bool, true, false, not, ◌&&◌, ◌||◌, Bool-cases,
  List, [], ◌∷◌, arith, length,
}
use openproninx.Pipe
use openproninx.Pipe.{
  Pipe, pipe_size, Channel, readers, writers, Written, write_from, write_wakes, Read, read_wakes,
  is_full, is_empty, read_loop,
}
use openproninx.Pipe.Queue.{count}
use openproninx.Pipe.Invariant.{IsValid, count_of_full, count_of_empty, close-IsValid}
use openproninx.Pipe.Refine.{after_write, write_from-append, StopsRightly, ReadsRightly, read-takes}
use openproninx.Pipe.Stream.{Stretch, Trace, after_read, step, run, quiet, read_at_bytes}

abbrev pub is_woken : Channel → List Channel → Bool
is_woken c [] = false
is_woken readers (readers ∷ cs) = true
is_woken readers (writers ∷ cs) = is_woken readers cs
is_woken writers (writers ∷ cs) = true
is_woken writers (readers ∷ cs) = is_woken writers cs

-- The channels that a stretch wakes.
abbrev pub wakes : Trace → Stretch → List Channel
wakes t (Stretch.write killed src) = write_wakes (write_from killed t.pipe src)
wakes t (Stretch.read killed n) = read_wakes (Pipe.read killed t.pipe n)
wakes t (Stretch.close writable) = (Pipe.close t.pipe writable).1 ∷ []

abbrev pub is_failed : Written → Bool
is_failed (Written.failed p rest) = true
is_failed (Written.done p) = false
is_failed (Written.asleep p rest) = false

abbrev pub fails : Trace → Stretch → Bool
fails t (Stretch.write killed src) = is_failed (write_from killed t.pipe src)
fails t _ = false

-- No stretch wakes the writers.
unfoldable pub leaves_writers : Trace → List Stretch → Bool
leaves_writers t [] = true
leaves_writers t (s ∷ ss) = not (is_woken writers (wakes t s)) && leaves_writers (step t s) ss

-- No stretch wakes the readers, and no write fails.
unfoldable pub leaves_readers : Trace → List Stretch → Bool
leaves_readers t [] = true
leaves_readers t (s ∷ ss) =
    (not (is_woken readers (wakes t s)) && not (fails t s)) && leaves_readers (step t s) ss

-- What a sleeping writer waits at, and a sleeping reader.
record IsStuck (p : Pipe) : Type 0 where
  valid : IsValid p
  full : is_full p ≡ true
  reading : p.readopen ≡ true

record IsDry (p : Pipe) : Type 0 where
  valid : IsValid p
  empty : is_empty p ≡ true
  writing : p.writeopen ≡ true

and_both : (a b : Bool) → a && b ≡ true → (a ≡ true) × (b ≡ true)
and_both true b h = (refl, h)
and_both false b h = absurd (cc h)

full-write_from :
    (killed : Bool) (src : List ℕ) (p : Pipe)
    → is_full p ≡ true
    → after_write (write_from killed p src) ≡ p
unfolding write_from
full-write_from killed [] p h = refl
full-write_from killed (x ∷ xs) p h = elim (Bool-cases (not p.readopen || killed)) [
  | inl k ↦ rw (h, k) refl
  | inr k ↦ rw (h, k) refl
]

step-IsStuck :
    (s : Stretch) (t : Trace)
    → not (is_woken writers (wakes t s)) ≡ true
    → IsStuck t.pipe
    → IsStuck (step t s).pipe
unfolding step write_wakes read_wakes Pipe.close
step-IsStuck (Stretch.write killed src) t h w =
    subst IsStuck (sym (full-write_from killed src t.pipe w.full)) w
step-IsStuck (Stretch.read killed n) t h w =
    go (Pipe.read killed t.pipe n) h (read-takes killed n w.valid)
  where
    go :
        (r : Read)
        → not (is_woken writers (read_wakes r)) ≡ true
        → ReadsRightly killed t.pipe n r
        → IsStuck (after_read t r).pipe
    go (Read.got bytes p') q _ = absurd (cc q)
    go (Read.failed p') q (e, _, _, _) = subst IsStuck (sym e) w
    go (Read.asleep p') q (e, _, _, _) = subst IsStuck (sym e) w
step-IsStuck (Stretch.close true) t h w = record {
  valid = close-IsValid w.valid true;
  full = w.full;
  reading = w.reading;
}
step-IsStuck (Stretch.close false) t h w = absurd (cc h)

step-IsDry :
    (s : Stretch) (t : Trace)
    → not (is_woken readers (wakes t s)) ≡ true
    → not (fails t s) ≡ true
    → IsDry t.pipe
    → IsDry (step t s).pipe
unfolding step write_wakes Pipe.close
step-IsDry (Stretch.write killed src) t h f w = go (write_from killed t.pipe src) h f
  where
    go :
        (o : Written)
        → not (is_woken readers (write_wakes o)) ≡ true
        → not (is_failed o) ≡ true
        → IsDry (after_write o)
    go (Written.done p) q _ = absurd (cc q)
    go (Written.failed p rest) q g = absurd (cc g)
    go (Written.asleep p rest) q _ = absurd (cc q)
step-IsDry (Stretch.read killed n) t h f w =
    go (Pipe.read killed t.pipe n) (read-takes killed n w.valid)
  where
    go : (r : Read) → ReadsRightly killed t.pipe n r → IsDry (after_read t r).pipe
    go (Read.got bytes p') (_, _, _, ready) = elim ready [
      | inl some_bytes ↦ absurd (some_bytes (count_of_empty w.valid w.empty))
      | inr closed ↦ absurd (cc (sym closed ∙ w.writing))
    ]
    go (Read.failed p') (e, _, _, _) = subst IsDry (sym e) w
    go (Read.asleep p') (e, _, _, _) = subst IsDry (sym e) w
step-IsDry (Stretch.close true) t h f w = absurd (cc h)
step-IsDry (Stretch.close false) t h f w = record {
  valid = close-IsValid w.valid false;
  empty = w.empty;
  writing = w.writing;
}

run-IsStuck :
    (ss : List Stretch) (t : Trace)
    → leaves_writers t ss ≡ true
    → IsStuck t.pipe
    → IsStuck (run t ss).pipe
unfolding leaves_writers run
run-IsStuck [] t h w = w
run-IsStuck (s ∷ ss) t h w =
    let (first, later) = and_both _ _ h in
    run-IsStuck ss (step t s) later (step-IsStuck s t first w)

run-IsDry :
    (ss : List Stretch) (t : Trace)
    → leaves_readers t ss ≡ true
    → IsDry t.pipe
    → IsDry (run t ss).pipe
unfolding leaves_readers run
run-IsDry [] t h w = w
run-IsDry (s ∷ ss) t h w =
    let (first, later) = and_both _ _ h in
    let (silent, succeeds) = and_both (not (is_woken readers (wakes t s))) _ first in
    run-IsDry ss (step t s) later (step-IsDry s t silent succeeds w)

write_from-readopen :
    (killed : Bool) (src : List ℕ) (p : Pipe)
    → (after_write (write_from killed p src)).readopen ≡ p.readopen
unfolding write_from
write_from-readopen killed [] p = refl
write_from-readopen killed (x ∷ xs) p = elim (Bool-cases (is_full p)) [
  | inr e ↦ rw e (write_from-readopen killed xs (Pipe.put_byte p x))
  | inl e ↦ elim (Bool-cases (not p.readopen || killed)) [
    | inl k ↦ rw (e, k) refl
    | inr k ↦ rw (e, k) refl
  ]
]

write_from-IsStuck :
    (killed : Bool) (src : List ℕ) {p p' : Pipe} {rest : List ℕ}
    → IsValid p
    → write_from killed p src ≡ Written.asleep p' rest
    → IsStuck p'
write_from-IsStuck killed src {p} {p'} {rest} v e =
    let (valid, (held, open_end)) =
      subst (λ o. IsValid (after_write o) × StopsRightly killed p o) e
        (let r = write_from-append killed src v in (r.0, r.2)) in
    let same : p'.readopen ≡ p.readopen =
      subst (λ o. (after_write o).readopen ≡ p.readopen) e (write_from-readopen killed src p) in
    record {
      valid = valid;
      full = ground (arith, held, valid.read_word, valid.write_word);
      reading = same ∙ opened p.readopen open_end;
    }
  where
    opened : (b : Bool) → (not b || killed) ≡ false → b ≡ true
    opened true h = refl
    opened false h = absurd (cc h)

-- When a writer has fallen asleep, then after any stretches of which none wakes the writers, the pipe is
-- still full and its read end open, so that the writer has nothing to wake for; and the next read of at
-- least one byte gets one and wakes the writers.
pub writer-misses_none :
    (killed : Bool) (src : List ℕ) {p p' : Pipe} {rest : List ℕ} (ss : List Stretch) (n : ℕ)
    (reader : Bool)
    → IsValid p
    → write_from killed p src ≡ Written.asleep p' rest
    → leaves_writers (quiet p') ss ≡ true
    → 0 < n
    → let q = (run (quiet p') ss).pipe in
      (count q ≡ pipe_size)
      × (q.readopen ≡ true)
      × ((bytes : List ℕ) × (q' : Pipe) × (Pipe.read reader q n ≡ Read.got bytes q')
          × (0 < length bytes)
          × (is_woken writers (read_wakes (Pipe.read reader q n)) ≡ true))
unfolding read_wakes
writer-misses_none killed src {p' = p'} ss n reader v e silent hn =
    let w = run-IsStuck ss (quiet p') silent (write_from-IsStuck killed src v e) in
    let held = count_of_full w.valid w.full in
    let (bytes, q', g, some_bytes, _) = read_at_bytes reader n w.valid hn (omega (arith, held)) in
    (held, w.reading, (bytes, q', g, some_bytes, rw g refl))

-- When a reader has fallen asleep, then after any stretches of which none wakes the readers and no write
-- fails, the pipe is still empty and its write end open: the reader has nothing to wake for.
pub reader-misses_none :
    (killed : Bool) (n : ℕ) {p p' : Pipe} (ss : List Stretch)
    → IsValid p
    → Pipe.read killed p n ≡ Read.asleep p'
    → leaves_readers (quiet p') ss ≡ true
    → let q = (run (quiet p') ss).pipe in (count q ≡ 0) × (q.writeopen ≡ true)
reader-misses_none killed n {p} {p'} ss v e silent =
    let (same, _, none, writing) = subst (ReadsRightly killed p n) e (read-takes killed n v) in
    let empty : is_empty p ≡ true = ground (arith, none, v.read_word, v.write_word) in
    let dry : IsDry p' =
      subst IsDry (sym same) (record { valid = v; empty = empty; writing = writing }) in
    let w = run-IsDry ss (quiet p') silent dry in (count_of_empty w.valid w.empty, w.writing)
