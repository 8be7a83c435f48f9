-- ===== src/Pipe/Invariant.antt =====
-- The invariant of `struct pipe`: the counters are words, and at most 512 apart.
use openproninx.Base.{
  ℕ, ◌+◌, ◌%◌, ◌≤◌, ◌<◌, ◌≡◌, Bool, true, false, List, arith, length, length-set, u32_mod,
}
use openproninx.Pipe.{Pipe, pipe_size, init, put_byte, take_byte, is_full, is_empty, close}
use openproninx.Pipe.Queue.{count}

pub record IsValid (p : Pipe) : Type 0 where
  pub ring : length p.buf ≡ pipe_size
  pub read_word : p.nread < u32_mod
  pub write_word : p.nwrite < u32_mod
  pub room : count p ≤ pipe_size

pub init-IsValid : (page : List ℕ) → length page ≡ pipe_size → IsValid (init page)
unfolding init
init-IsValid page h = omega arith

pub count_of_empty : {p : Pipe} → IsValid p → is_empty p ≡ true → count p ≡ 0
count_of_empty v e = ground arith

pub count_of_not_empty : {p : Pipe} → IsValid p → is_empty p ≡ false → 0 < count p
count_of_not_empty v e = ground arith

pub count_of_full : {p : Pipe} → IsValid p → is_full p ≡ true → count p ≡ pipe_size
count_of_full v e = ground arith

pub count_of_not_full : {p : Pipe} → IsValid p → is_full p ≡ false → count p < pipe_size
count_of_not_full v e = ground arith

module _ {p : Pipe} (v : IsValid p) where
  pub count-put_byte : (x : ℕ) → is_full p ≡ false → count (put_byte p x) ≡ count p + 1
  unfolding put_byte
  count-put_byte x e = omega (arith, count_of_not_full v e)

  pub put_byte-IsValid : (x : ℕ) → is_full p ≡ false → IsValid (put_byte p x)
  unfolding put_byte
  put_byte-IsValid x e =
      omega (arith, count_of_not_full v e, length-set p.buf (p.nwrite % pipe_size) x)

  pub count-take_byte : is_empty p ≡ false → count (take_byte p) + 1 ≡ count p
  unfolding take_byte
  count-take_byte e = omega (arith, count_of_not_empty v e)

  pub take_byte-IsValid : is_empty p ≡ false → IsValid (take_byte p)
  unfolding take_byte
  take_byte-IsValid e = omega (arith, count_of_not_empty v e)

  pub close-IsValid : (writable : Bool) → IsValid (close p writable).0
  unfolding close
  close-IsValid true = omega arith
  close-IsValid false = omega arith
