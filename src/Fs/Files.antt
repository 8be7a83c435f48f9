-- ===== src/Fs/Files.antt =====
-- kern/fs.c: `readi` and `writei` on a native file that is not a device.
use openproninx.Base.{
  ℕ, zero, suc, ◌+◌, ◌-◌, ◌*◌, ◌/◌, ◌%◌, not, ◌&&◌, ◌||◌, Option, none, some, List, [], ◌++◌, ◌==◌,
  ltb, leb, if◌then◌else◌, get_or, length, take, drop, u32_mod,
}
use openproninx.Fs.{Superblock, Inode, Step, put_block, bsize, maxfile, bmap, chunk, bytes_from}
use openproninx.Fs.Inodes.{iupdate}

-- The loop of `readi`, with fuel for more rounds than there are bytes.
unfoldable pub read_from : ℕ → Superblock → Inode → ℕ → ℕ → Step (List ℕ × Inode)
read_from zero sb ip off n s = none
read_from (suc fuel) sb ip off n s =
    let m = chunk off n in
    let rest : Inode → Step (List ℕ × Inode) = λ ip'. read_from fuel sb ip' (off + m) (n - m) in
    if n == 0 then some (([], ip), s) else elim (bmap sb ip (off / bsize) s) [
      | none ↦ none
      | some ((b, ip'), s') ↦ elim (rest ip' s') [
        | none ↦ none
        | some ((bytes, ip''), s'') ↦
            some ((bytes_from (s'.cache b) (off % bsize) m ++ bytes, ip''), s'')
      ]
    ]

-- The bytes that `readi` reads: up to the end of the file.
abbrev pub readable : Inode → ℕ → ℕ → ℕ
readable ip off n = if ltb ip.size (off + n) then ip.size - off else n

-- `readi`: `none` in place of the bytes is -1.
unfoldable pub readi : Superblock → Inode → ℕ → ℕ → Step (Option (List ℕ) × Inode)
readi sb ip off n s =
    if ltb ip.size off || leb u32_mod (off + n)
    then some ((none, ip), s)
    else elim (read_from (readable ip off n + 1) sb ip off (readable ip off n) s) [
      | none ↦ none
      | some ((bytes, ip'), s') ↦ some ((some bytes, ip'), s')
    ]

-- The bytes of a block with `src` from `o` on.
abbrev pub with_bytes : (ℕ → ℕ) → ℕ → List ℕ → ℕ → ℕ
with_bytes bytes o src i =
    if leb o i && ltb (i - o) (length src) then get_or src (i - o) 0 else bytes i

-- The loop of `writei`.
unfoldable pub write_from : ℕ → Superblock → Inode → ℕ → List ℕ → Step Inode
write_from zero sb ip off src s = none
write_from (suc fuel) sb ip off src s =
    let m = chunk off (length src) in
    let rest : Inode → Step Inode = λ ip'. write_from fuel sb ip' (off + m) (drop m src) in
    if length src == 0 then some (ip, s) else elim (bmap sb ip (off / bsize) s) [
      | none ↦ none
      | some ((b, ip'), s') ↦
          rest ip' (put_block b (with_bytes (s'.cache b) (off % bsize) (take m src)) s')
    ]

-- `writei`: `none` in place of the number of bytes is -1.
unfoldable pub writei : Superblock → Inode → ℕ → List ℕ → Step (Option ℕ × Inode)
writei sb ip off src s =
    let n = length src in
    if ltb ip.size off || (leb u32_mod (off + n) || ltb (maxfile * bsize) (off + n))
    then some ((none, ip), s)
    else elim (write_from (n + 1) sb ip off src s) [
      | none ↦ none
      | some (ip', s') ↦
          if not (n == 0) && ltb ip'.size (off + n)
          then some (
            (some n, record ip' { size = off + n }),
            iupdate sb (record ip' { size = off + n }) s',
          )
          else some ((some n, ip'), s')
    ]
