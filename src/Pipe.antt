-- ===== src/Pipe.antt =====
-- kern/pipe.c: a pipe is a ring of 512 bytes with free-running 32-bit counters.
-- `sleep` gives the lock up, so a call of `pipewrite` or `piperead` is modelled by its stretches of
-- code between two sleeps: `write_from` takes the bytes that are still to be written, and after a
-- wakeup it is called again with the bytes that its last stretch left. `n` is the length of the
-- source list; the system calls refuse a negative one. `killed` is `myproc()->killed`.
pub mod Queue
pub mod Invariant
pub mod Refine
pub mod Stream
pub mod Sleepers
mod Examples
use openproninx.Base.{
  ℕ, zero, suc, ◌+◌, ◌%◌, Bool, true, false, not, ◌&&◌, ◌||◌, List, [], ◌∷◌, ◌==◌, if◌then◌else◌,
  get_or, set, add32,
}

abbrev pub pipe_size : ℕ
pipe_size = 512

pub record Pipe : Type 0 where
  pub buf : List ℕ
  pub nread : ℕ
  pub nwrite : ℕ
  pub readopen : Bool
  pub writeopen : Bool

-- The channel that a wakeup is sent to: `&p->nread` is where readers sleep.
pub data Channel : Type 0 where
  readers writers : Channel

-- The state in which `pipealloc` leaves the pipe, over the page that `kalloc` gave it.
pub init : List ℕ → Pipe
init page = record { buf = page; nread = 0; nwrite = 0; readopen = true; writeopen = true }

abbrev pub is_full : Pipe → Bool
is_full p = p.nwrite == add32 p.nread pipe_size

abbrev pub is_empty : Pipe → Bool
is_empty p = p.nread == p.nwrite

-- `p->data[p->nwrite++ % PIPESIZE] = x`
pub put_byte : Pipe → ℕ → Pipe
put_byte p x = record p { buf = set p.buf (p.nwrite % pipe_size) x; nwrite = add32 p.nwrite 1 }

-- How a stretch of `pipewrite` ends: it returns n, it returns -1, or it sleeps with bytes left.
pub data Written : Type 0 where
  done : Pipe → Written
  failed : Pipe → List ℕ → Written
  asleep : Pipe → List ℕ → Written

-- A finished write wakes the readers, and so does one that goes to sleep; a failed one does not.
pub write_wakes : Written → List Channel
write_wakes (done p) = readers ∷ []
write_wakes (failed p rest) = []
write_wakes (asleep p rest) = readers ∷ []

pub write_from : Bool → Pipe → List ℕ → Written
unfolding put_byte
write_from killed p [] = done p
write_from killed p (x ∷ xs) =
    let go = write_from killed (put_byte p x) xs in
    if is_full p
    then (if not p.readopen || killed then failed p (x ∷ xs) else asleep p (x ∷ xs))
    else go

-- `addr[i] = p->data[p->nread++ % PIPESIZE]`
pub take_byte : Pipe → Pipe
take_byte p = record p { nread = add32 p.nread 1 }

-- The loop of `piperead`: at most `n` bytes, until the pipe is empty.
pub read_loop : ℕ → Pipe → List ℕ × Pipe
unfolding take_byte
read_loop zero p = ([], p)
read_loop (suc n) p =
    let rest = read_loop n (take_byte p) in
    if is_empty p then ([], p) else (get_or p.buf (p.nread % pipe_size) 0 ∷ rest.0, rest.1)

-- How a stretch of `piperead` ends.
pub data Read : Type 0 where
  got : List ℕ → Pipe → Read
  failed : Pipe → Read
  asleep : Pipe → Read

pub read_wakes : Read → List Channel
read_wakes (got bytes p) = writers ∷ []
read_wakes (failed p) = []
read_wakes (asleep p) = []

pub read : Bool → Pipe → ℕ → Read
unfolding read_loop
read killed p n =
    let (bytes, p') = read_loop n p in
    if is_empty p && p.writeopen then (if killed then failed p else asleep p) else got bytes p'

-- `pipeclose`: the pipe, the channel that it wakes, and whether the page is freed.
pub close : Pipe → Bool → Pipe × Channel × Bool
close p writable =
    let p' : Pipe =
      if writable then record p { writeopen = false } else record p { readopen = false } in
    (p', if writable then readers else writers, not p'.readopen && not p'.writeopen)
