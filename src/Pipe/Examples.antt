-- ===== src/Pipe/Examples.antt =====
-- The theorems on kern/pipe.c at concrete pipes, and tests of the model.
use openproninx.Base.{ℕ, ◌<◌, ◌≡◌, refl, true, false, List, [], ◌∷◌, ◌++◌, arith, length, replicate}
use openproninx.Pipe.{
  Pipe, pipe_size, writers, Written, write_from, write_wakes, Read, read, read_wakes, close,
}
use openproninx.Pipe.Queue.{count, contents}
use openproninx.Pipe.Invariant.{IsValid}
use openproninx.Pipe.Refine.{ReadsRightly, read-takes}
use openproninx.Pipe.Stream.{Stretch, quiet, run, step, run-stream}
use openproninx.Pipe.Sleepers.{
  is_woken, leaves_writers, leaves_readers, writer-misses_none, reader-misses_none,
}

abbrev page : List ℕ
page = replicate 512 7

-- The counters stand just before their wrap, with one byte in the pipe.
abbrev near_wrap : Pipe
near_wrap = record {
  buf = page;
  nread = 0xffff_fffe;
  nwrite = 0xffff_ffff;
  readopen = true;
  writeopen = true;
}

abbrev full : Pipe
full = record { buf = page; nread = 0; nwrite = 512; readopen = true; writeopen = true }

near_wrap-IsValid : IsValid near_wrap
near_wrap-IsValid = omega arith

full-IsValid : IsValid full
full-IsValid = omega arith

abbrev script : List Stretch
script =
    Stretch.write false (1 ∷ 2 ∷ 3 ∷ [])
    ∷ Stretch.read false 2
    ∷ Stretch.close true
    ∷ Stretch.read false 9
    ∷ []

run-script : (run (quiet near_wrap) script).received ≡ 7 ∷ 1 ∷ 2 ∷ 3 ∷ []
unfolding run read write_from close
run-script = refl

close_frees :
    close (close full true).0 false
    ≡ (record full { readopen = false; writeopen = false }, writers, true)
unfolding close
close_frees = refl

read-takes_example : ReadsRightly false near_wrap 5 (read false near_wrap 5)
read-takes_example = read-takes false 5 near_wrap-IsValid

run-stream_example :
    let t = run (quiet near_wrap) script in
    IsValid t.pipe × (t.received ++ contents t.pipe ≡ contents near_wrap ++ t.sent)
run-stream_example = run-stream script near_wrap-IsValid

full_sleeps : write_from false full (1 ∷ []) ≡ Written.asleep full (1 ∷ [])
unfolding write_from
full_sleeps = refl

-- Another writer falls asleep too, and the write end is closed.
abbrev others : List Stretch
others = Stretch.write false (5 ∷ []) ∷ Stretch.close true ∷ []

others_leave : leaves_writers (quiet full) others ≡ true
unfolding leaves_writers step write_from write_wakes close
others_leave = refl

writer-misses_none_example :
    let q = (run (quiet full) others).pipe in
    (count q ≡ pipe_size)
    × (q.readopen ≡ true)
    × ((bytes : List ℕ) × (q' : Pipe) × (read false q 3 ≡ Read.got bytes q')
        × (0 < length bytes)
        × (is_woken writers (read_wakes (read false q 3)) ≡ true))
writer-misses_none_example =
    writer-misses_none false (1 ∷ []) others 3 false full-IsValid full_sleeps others_leave
      (omega arith)

-- A pipe at which a reader sleeps.
abbrev dry : Pipe
dry = record { buf = replicate 512 0; nread = 9; nwrite = 9; readopen = true; writeopen = true }

dry-IsValid : IsValid dry
dry-IsValid = omega arith

dry_sleeps : read false dry 4 ≡ Read.asleep dry
unfolding read
dry_sleeps = refl

abbrev readers_only : List Stretch
readers_only = Stretch.read false 2 ∷ Stretch.close false ∷ []

readers_leave : leaves_readers (quiet dry) readers_only ≡ true
unfolding leaves_readers step dry_sleeps read_wakes close
readers_leave = refl

dry_stays_dry : let q = (run (quiet dry) readers_only).pipe in (count q ≡ 0) × (q.writeopen ≡ true)
dry_stays_dry = reader-misses_none false 4 readers_only dry-IsValid dry_sleeps readers_leave
