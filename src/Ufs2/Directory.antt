-- ===== src/Ufs2/Directory.antt =====
-- kern/ufs2.c: `ufs2_lookup` and `ufs2_readdir`.
use openproninx.Base.{
  ℕ, zero, suc, ◌+◌, ◌-◌, ◌/◌, ◌%◌, Bool, true, false, not, ◌&&◌, ◌||◌, List, [], ◌∷◌, ◌==◌, ltb,
  leb, if◌then◌else◌, get_or, length, take, drop, min,
}
use Prim.Native.Nat.{bit_and}
use openproninx.Ufs2.{Volume, Inode, M, pure, fail, ◌>>=◌, ◌>>◌, refuse}
use openproninx.Ufs2.Codec.{read_le}
use openproninx.Ufs2.Inodes.{read_inode}
use openproninx.Ufs2.Files
use openproninx.Ufs2.Reserve.{ifmt, ifdir}

abbrev pub dir_header_size : ℕ
dir_header_size = 8

abbrev pub dir_block_size : ℕ
dir_block_size = 512

abbrev pub max_name : ℕ
max_name = 255

-- `memcmp(...) == 0` on two sequences of one length.
abbrev pub same_bytes : List ℕ → List ℕ → Bool
same_bytes [] [] = true
same_bytes (a ∷ xs) (b ∷ ys) = a == b && same_bytes xs ys
same_bytes xs ys = false

abbrev pub record_length : List ℕ → ℕ → ℕ
record_length block o = read_le 2 block (o + 4)

abbrev pub entry_length : List ℕ → ℕ → ℕ
entry_length block o = get_or block (o + 7) 0

abbrev pub entry_inode : List ℕ → ℕ → ℕ
entry_inode block o = read_le 4 block o

abbrev pub entry_name : List ℕ → ℕ → ℕ → List ℕ
entry_name block o n = take n (drop (o + dir_header_size) block)

-- The test of a record at `o` of a block of `to_read` bytes.
abbrev pub bad_record : List ℕ → ℕ → ℕ → Bool
bad_record block to_read o =
    ltb (record_length block o) dir_header_size
    || (not (record_length block o % 4 == 0)
        || (ltb (to_read - o) (record_length block o)
            || (ltb max_name (entry_length block o)
                || ltb (record_length block o) (entry_length block o + dir_header_size))))

-- How the loop over the records of a block ends.
pub data Sought : Type 0 where
  absent : Sought
  corrupt : Sought
  hit : ℕ → Sought

-- The loop of `ufs2_lookup` over the records of a block, with fuel for more rounds than there are bytes.
unfoldable pub lookup_block : ℕ → List ℕ → ℕ → List ℕ → ℕ → Sought
lookup_block zero block to_read name o = absent
lookup_block (suc fuel) block to_read name o =
    let rest = lookup_block fuel block to_read name (o + record_length block o) in
    if ltb to_read (o + dir_header_size)
    then absent
    else if bad_record block to_read o
    then corrupt
    else if not (entry_inode block o == 0)
        && (length name == entry_length block o
            && same_bytes (entry_name block o (entry_length block o)) name)
    then hit (entry_inode block o)
    else rest

-- The bytes of this round of the loops over a directory.
abbrev pub dir_count : ℕ → ℕ → ℕ
dir_count size offset = if ltb (size - offset) dir_block_size then size - offset else dir_block_size

-- The loop of `ufs2_lookup` over the directory, with fuel for more rounds than it has blocks.
unfoldable pub lookup_from : ℕ → Volume → Inode → List ℕ → ℕ → M ℕ
lookup_from zero v directory name offset = fail
lookup_from (suc fuel) v directory name offset =
    let rest = lookup_from fuel v directory name (offset + dir_block_size) in
    let n = dir_count directory.size offset in
    if leb directory.size offset
    then fail
    else (Files.read v directory offset n >>= λ block. elim (lookup_block (n + 1) block n name 0) [
      | absent ↦ rest
      | corrupt ↦ fail
      | hit i ↦ pure i
    ])

-- `ufs2_name_length` refuses the name.
abbrev pub bad_name : List ℕ → Bool
bad_name name = length name == 0 || ltb max_name (length name)

abbrev pub not_directory : Inode → Bool
not_directory i = not (bit_and i.mode ifmt == ifdir)

-- `ufs2_lookup` in a directory that it has read.
abbrev pub lookup_in : Volume → List ℕ → Inode → M ℕ
lookup_in v name directory =
    refuse (not_directory directory)
    >> lookup_from (directory.size / dir_block_size + 2) v directory name 0

-- `ufs2_lookup`
unfoldable pub lookup : Volume → ℕ → List ℕ → M ℕ
lookup v directory_inode name =
    refuse (bad_name name) >> (read_inode v directory_inode >>= lookup_in v name)

pub data Listed : Type 0 where
  passed : ℕ → Listed
  broken : Listed
  entry : ℕ → List ℕ → Listed

-- The loop of `ufs2_readdir` over the records of a block; `seen` is `entry_index`, which does not wrap.
unfoldable pub readdir_block : ℕ → List ℕ → ℕ → ℕ → ℕ → ℕ → ℕ → Listed
readdir_block zero block to_read index name_size seen o = passed seen
readdir_block (suc fuel) block to_read index name_size seen o =
    let skipped =
      readdir_block fuel block to_read index name_size seen (o + record_length block o) in
    let counted =
      readdir_block fuel block to_read index name_size (seen + 1) (o + record_length block o) in
    if ltb to_read (o + dir_header_size)
    then passed seen
    else if bad_record block to_read o
    then broken
    else if entry_inode block o == 0
    then skipped
    else if not (seen == index)
    then counted
    else entry (entry_inode block o)
        (entry_name block o (min (entry_length block o) (name_size - 1)))

-- The loop of `ufs2_readdir` over the directory.
unfoldable pub readdir_from : ℕ → Volume → Inode → ℕ → ℕ → ℕ → ℕ → M (ℕ × List ℕ)
readdir_from zero v directory index name_size seen offset = fail
readdir_from (suc fuel) v directory index name_size seen offset =
    let rest : ℕ → M (ℕ × List ℕ) =
      λ seen'. readdir_from fuel v directory index name_size seen' (offset + dir_block_size) in
    let n = dir_count directory.size offset in
    if leb directory.size offset
    then fail
    else (Files.read v directory offset n >>= λ block.
        elim (readdir_block (n + 1) block n index name_size seen 0) [
          | passed seen' ↦ rest seen'
          | broken ↦ fail
          | entry i name ↦ pure (i, name)
        ])

-- `ufs2_readdir` in a directory that it has read.
abbrev pub readdir_in : Volume → ℕ → ℕ → Inode → M (ℕ × List ℕ)
readdir_in v index name_size directory =
    refuse (not_directory directory)
    >> readdir_from (directory.size / dir_block_size + 2) v directory index name_size 0 0

-- `ufs2_readdir`: the inode and the name that it leaves in the buffer of `name_size` bytes.
unfoldable pub readdir : Volume → ℕ → ℕ → ℕ → M (ℕ × List ℕ)
readdir v directory_inode index name_size =
    refuse (name_size == 0) >> (read_inode v directory_inode >>= readdir_in v index name_size)
