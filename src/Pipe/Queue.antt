-- ===== src/Pipe/Queue.antt =====
-- What a pipe promises: a queue of bytes, of which at most 512 are on their way.
use openproninx.Base.{ℕ, zero, suc, ◌%◌, List, [], ◌∷◌, get_or, sub32, add32}
use openproninx.Pipe.{Pipe, pipe_size}

-- The number of bytes in the pipe.
abbrev pub count : Pipe → ℕ
count p = sub32 p.nwrite p.nread

-- The `n` bytes of the ring from the counter value `r` on.
abbrev pub window : List ℕ → ℕ → ℕ → List ℕ
window buf r zero = []
window buf r (suc n) = get_or buf (r % pipe_size) 0 ∷ window buf (add32 r 1) n

-- The bytes that were written and not yet read, oldest first.
abbrev pub contents : Pipe → List ℕ
contents p = window p.buf p.nread (count p)
