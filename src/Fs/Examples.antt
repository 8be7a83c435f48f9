-- ===== src/Fs/Examples.antt =====
-- kern/fs.c: a small volume with two files, and the theorems at work on it.
use openproninx.Base.{
  length, ◌≤◌, not, ℕ, zero, suc, ◌/◌, ◌%◌, ◌<◌, ◌≡◌, ◌≢◌, refl, ap, ◌∙◌, sym, subst, true, false,
  ◌&&◌, ◌||◌, Option, none, some, List, [], ◌∷◌, arith, ◌==◌, if◌then◌else◌, get_or, replicate,
}
use mathlib.Core.Option.{map}
use openproninx.Fs.{
  Blocks, Store, Superblock, Inode, bsize, balloc, bfree, bblock, bmap, address_of, entry_of,
  find_free, find_bit,
}
use openproninx.Fs.Files.{write_from, writei, readi}
use openproninx.Fs.Inodes.{with_inode, iupdate, ilock, ialloc, iblock}
use openproninx.Fs.Bitmap.{used, IsVolume, Allocated}
use openproninx.Fs.Alloc.{bfree-balloc, balloc-fresh}
use openproninx.Fs.Slots.{Slot, top, under, at, is_slot, IsOwned, IsFile}
use openproninx.Fs.Mapped.{IsMapped, readi_mapped}
use openproninx.Fs.Read.{reading}
use openproninx.Fs.Content.{content}
use openproninx.Fs.Write.{Wrote}
use openproninx.Fs.Roundtrip.{AreApart, readi-writei, writei-other}
use openproninx.Fs.Transaction.{writei_returns}
use openproninx.Log.Ops.{Log, IsEntry}
use openproninx.Log.Calls.{reserve, in_any}
use openproninx.Log.Space.{System, IsReserved}
use openproninx.Log.Several.{log_all}
use openproninx.Fs.Budget.{logged}
use openproninx.Fs.Reserve.{writei-max_op_blocks}
use openproninx.Log.{log_size, max_op_blocks}
use openproninx.Fs.Synced.{writei-ilock}
use openproninx.Fs.NewInode.{NewInode, ialloc-NewInode}
use openproninx.Fs.Dinode.{Fits, ilock-iupdate_other}

-- Inodes in the blocks 2 and 3, the map in block 4, the blocks from 5 on for files.
abbrev volume : Superblock
volume = record { size = 16; ninodes = 8; inodestart = 2; bmapstart = 4 }

abbrev file : ℕ → ℕ → ℕ → Inode
file inum b size = record {
  inum = inum;
  type = 2;
  major = 0;
  minor = 0;
  nlink = 1;
  size = size;
  uid = 0;
  gid = 0;
  mode = 420;
  addrs = b ∷ replicate 12 0;
}

abbrev first : Inode
first = file 1 5 510

abbrev second : Inode
second = file 5 6 40

abbrev start : Store
start = record {
  cache = λ (b i : ℕ).
      if b == 4 && i == 0
      then 127
      else if b == 2
      then with_inode (λ j. 0) 1 first i
      else if b == 5 || b == 6
      then i % 100
      else 0;
  logged = [];
}

start-IsVolume : IsVolume volume start.cache
start-IsVolume = record {
  bytes = λ b i. ground arith;
  word = omega arith;
  map_in = λ b h. omega arith;
  map_used = λ b h. let row : b / 4_096 ≡ 0 = omega arith in rw row refl;
  boot_used = refl;
}

replicate_zero : (n i : ℕ) → get_or {A = ℕ} (replicate n 0) i 0 ≡ 0
replicate_zero zero i = refl
replicate_zero (suc n) zero = refl
replicate_zero (suc n) (suc i) = replicate_zero n i

-- A file of one block has one slot in use.
only_slot :
    (c : Blocks) (b : ℕ) (x : Slot) → is_slot x ≡ true → at c (b ∷ replicate 12 0) x ≢ 0 → x ≡ top 0
only_slot c b (top zero) sx n = refl
only_slot c b (top (suc i)) sx n = absurd (n (replicate_zero 12 i))
only_slot c b (under (top zero) j) sx n = absurd (cc sx)
only_slot c b (under (top (suc i)) j) sx n = absurd (n (rw (replicate_zero 12 i) refl))
only_slot c b (under (under (top zero) k) j) sx n = absurd (cc sx)
only_slot c b (under (under (top (suc i)) k) j) sx n = absurd (n (rw (replicate_zero 12 i) refl))
only_slot c b (under (under (under p l) k) j) sx n = absurd (cc sx)

one_block-IsFile :
    (inum b size : ℕ)
    → IsOwned volume start.cache (file inum b size) b
    → iblock volume inum < 4
    → used volume start.cache (iblock volume inum) ≡ true
    → IsFile volume start.cache (file inum b size)
one_block-IsFile inum b size o lt u = record {
  addresses = refl;
  owned = λ x sx n.
      let e : top 0 ≡ x = sym (only_slot start.cache b x sx n) in
      subst
        (λ x. IsOwned volume start.cache (file inum b size) (at start.cache (b ∷ replicate 12 0) x))
        e o;
  distinct = λ x y sx sy n e.
      only_slot start.cache b x sx n ∙ sym (only_slot start.cache b y sy (λ z. n (e ∙ z)));
  inode_not_boot = λ e. absurd (omega (arith, e));
  inode_below = omega (arith, lt);
  inode_used = u;
  inode_not_map = λ k h e. absurd (omega (arith, lt, e));
}

first-IsFile : IsFile volume start.cache first
first-IsFile =
    one_block-IsFile 1 5 510
      (record {
        below = omega arith;
        is_used = refl;
        not_map = λ k h e. absurd (omega arith);
        not_inode = λ e. absurd (omega arith);
      })
      (omega arith) refl

second-IsFile : IsFile volume start.cache second
second-IsFile =
    one_block-IsFile 5 6 40
      (record {
        below = omega arith;
        is_used = refl;
        not_map = λ k h e. absurd (omega arith);
        not_inode = λ e. absurd (omega arith);
      })
      (omega arith) refl

first-IsMapped : IsMapped start.cache first
first-IsMapped = record {
  reached = omega arith;
  mapped =
      λ i h. let row : i / bsize ≡ 0 = omega arith in (λ z. absurd (omega (arith, (rw row at z))));
}

-- Four bytes from the place 510 on: two in the block of the file, two in a block that it gets.
abbrev four : List ℕ
four = 1 ∷ 2 ∷ 3 ∷ 4 ∷ []

outcome : {A : Type 0} → Option (A × Store) → A → A × Store
outcome none d = (d, start)
outcome (some r) d = r

wrote : (Option ℕ × Inode) × Store
wrote = outcome (writei volume first 510 four start) (none, first)

four_bytes : (k : ℕ) → get_or four k 0 < 256
four_bytes zero = omega arith
four_bytes (suc zero) = omega arith
four_bytes (suc (suc zero)) = omega arith
four_bytes (suc (suc (suc zero))) = omega arith
four_bytes (suc (suc (suc (suc k)))) = omega arith

writes : writei volume first 510 four start ≡ some ((wrote.0.0, wrote.0.1), wrote.1)
unfolding wrote outcome writei write_from bmap address_of entry_of balloc find_free find_bit iupdate
writes = refl

apart : AreApart volume start.cache first second
apart = record {
  blocks = λ x y sx sy n e.
      let at_y : at start.cache second.addrs y ≡ 6 =
        ap (at start.cache second.addrs) (only_slot start.cache 6 y sy n) in
      let there : at start.cache first.addrs x ≢ 0 = λ z. n (sym e ∙ z) in
      let at_x : at start.cache first.addrs x ≡ 5 =
        ap (at start.cache first.addrs) (only_slot start.cache 5 x sx there) in
      absurd (omega (arith, e, at_x, at_y));
  inode = λ y sy n e.
      let at_y : at start.cache second.addrs y ≡ 6 =
        ap (at start.cache second.addrs) (only_slot start.cache 6 y sy n) in
      absurd (omega (arith, e, at_y));
}

first-Fits : Fits first
first-Fits = record {
  type = omega arith;
  major = omega arith;
  minor = omega arith;
  nlink = omega arith;
  size = omega arith;
  uid = omega arith;
  gid = omega arith;
  mode = omega arith;
  addresses = refl;
  addrs = small;
}
  where
    small : (k : ℕ) → get_or first.addrs k 0 < 4_294_967_296
    small zero = omega arith
    small (suc k) =
        let z : get_or first.addrs (suc k) 0 ≡ 0 = replicate_zero 12 k in omega (arith, z)

-- A call has begun on a log of the size that mkfs gives it, and has logged nothing yet.
abbrev begun : System
begun = record {
  log = record {
    start = 2;
    size = log_size;
    outstanding = 1;
    committing = false;
    readonly = false;
    lh = record { n = 0; block = replicate log_size 0 };
  };
  used = [] ∷ [];
}

begun-IsReserved : IsReserved begun
unfolding reserve in_any
begun-IsReserved = record {
  active = refl;
  counted = refl;
  few = omega arith;
  room = omega arith;
  held = λ c. absurd (cc c);
  drained = λ c z. refl;
  entries = λ b h. absurd (cc h);
  slots = refl;
  enough = omega arith;
}

writei_returns_example :
    (ip' : Inode) × (s' : Store) × (l : Log) × (writei volume first 510 four start
      ≡ some ((some 4, ip'), s'))
    × Wrote volume first start 510 four ip' s'
    × (log_all begun.log s'.logged ≡ some l)
    × ((k : ℕ) → logged k s'.logged ≡ true → IsEntry l.lh k)
writei_returns_example =
    writei_returns volume first 510 four start begun 0 start-IsVolume first-IsFile (omega arith)
      four_bytes refl (omega arith) (omega arith) refl begun-IsReserved refl

readi-writei_example : readi volume wrote.0.1 510 4 wrote.1 ≡ some ((some four, wrote.0.1), wrote.1)
readi-writei_example =
    readi-writei volume first 510 four start {o = wrote.0.0} {ip' = wrote.0.1} {s' = wrote.1}
      start-IsVolume first-IsFile first-IsMapped four_bytes refl writes

writei-other_example :
    ((i : ℕ) → content wrote.1.cache second i ≡ content start.cache second i)
    × IsFile volume wrote.1.cache second
writei-other_example =
    writei-other volume first second 510 four start {o = wrote.0.0} {ip' = wrote.0.1} {s' = wrote.1}
      start-IsVolume first-IsFile second-IsFile apart four_bytes refl writes

readi_mapped_example :
    readi volume first 500 20 start
    ≡ some ((reading (content start.cache first) first 500 20, first), start)
readi_mapped_example =
    readi_mapped volume first 500 20 start start-IsVolume first-IsFile first-IsMapped

balloc-fresh_example :
    (a : ℕ) × (s' : Store) × (balloc volume start ≡ some (a, s')) × Allocated volume start a s'
balloc-fresh_example = balloc-fresh volume start 9 start-IsVolume (omega arith) refl

ilock-iupdate_other_example :
    ilock volume 2 (iupdate volume first start)
    ≡ map (λ p. (p.0, iupdate volume first start)) (ilock volume 2 start)
ilock-iupdate_other_example =
    ilock-iupdate_other volume first start 2 (λ e. absurd (omega (arith, e)))

ialloc-NewInode_example :
    (inum : ℕ) × (s' : Store) × (ialloc volume 2 start ≡ some (inum, s'))
    × NewInode volume 2 start inum s'
ialloc-NewInode_example =
    ialloc-NewInode volume 2 start 3 (omega arith) (omega arith) (omega arith) refl

allocated : balloc volume start ≡ some (outcome (balloc volume start) 0)
unfolding outcome balloc find_free find_bit
allocated = refl

bfree-balloc_example :
    (s'' : Store) × (bfree volume
        (outcome (balloc volume start) 0).0
        (outcome (balloc volume start) 0).1
      ≡ some (tt, s''))
    × ((b : ℕ) → b < 16 → used volume s''.cache b ≡ used volume start.cache b)
    × ((b i : ℕ)
        → b ≢ (outcome (balloc volume start) 0).0
        → b ≢ bblock volume (outcome (balloc volume start) 0).0
        → s''.cache b i ≡ start.cache b i)
bfree-balloc_example = bfree-balloc volume start start-IsVolume allocated

read_in : ilock volume 1 start ≡ some (first, start)
unfolding ilock
read_in = refl

writei-ilock_example : ilock volume 1 wrote.1 ≡ some (wrote.0.1, wrote.1)
writei-ilock_example =
    writei-ilock volume first 510 four start {o = wrote.0.0} {ip' = wrote.0.1} {s' = wrote.1}
      start-IsVolume first-IsFile first-IsMapped first-Fits four_bytes refl read_in writes

writei-max_op_blocks_example :
    (l : List ℕ) × (length l ≤ max_op_blocks)
    × ((k : ℕ) → not (logged k wrote.1.logged) || logged k l ≡ true)
writei-max_op_blocks_example =
    writei-max_op_blocks volume first 510 four start {o = wrote.0.0} {ip' = wrote.0.1}
      {s' = wrote.1} start-IsVolume first-IsFile (omega arith) four_bytes (omega arith) refl writes
