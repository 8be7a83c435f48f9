-- ===== src/Fs/Roundtrip.antt =====
-- kern/fs.c: what was written is read, and other files are left.
use openproninx.Base.{
  ℕ, ◌+◌, ◌*◌, ◌/◌, ◌%◌, ◌≤◌, ◌<◌, ◌≡◌, ◌≢◌, inl, inr, refl, ap, ◌∙◌, sym, subst, true, false,
  Bool-cases, ◌||◌, Option, some, List, arith, ltb, leb, and_true, ne_test, u32_mod, get_or, length,
}
use openproninx.Fs.{Blocks, Store, Superblock, Inode, bsize, maxfile, bytes_from}
use openproninx.Fs.Files.{with_bytes, writei, readi, readable}
use openproninx.Fs.Inodes.{iblock}
use openproninx.Fs.Bitmap.{IsVolume}
use openproninx.Fs.Words.{word_at_cong}
use openproninx.Fs.Slots.{Slot, top, under, at, is_slot, is_pointer, IsOwned, IsFile}
use openproninx.Fs.Grow.{zero_cases}
use openproninx.Fs.Bmap.{slot_of}
use openproninx.Fs.Content.{bytes_from_cong, content, slot_of-is_slot}
use openproninx.Fs.Spread.{bytes_from-with_bytes}
use openproninx.Fs.Mapped.{IsMapped, readi_mapped}
use openproninx.Fs.Write.{Wrote, accepts, size_after, writei-Wrote}

-- A file without holes has none after a write.
Wrote-IsMapped :
    {sb : Superblock} {ip ip' : Inode} {s s' : Store} (off : ℕ) (src : List ℕ)
    → IsMapped s.cache ip
    → accepts ip off (length src) ≡ true
    → Wrote sb ip s off src ip' s'
    → IsMapped s'.cache ip'
Wrote-IsMapped {ip} {ip'} {s} {s'} off src m ok w =
    let size : ip'.size ≡ size_after ip off (length src) = ap (λ (r : Inode). r.size) w.fields in
    let reach = m.reached in
    let small : size_after ip off (length src) ≤ maxfile * bsize = ground arith in
    record {
      reached = omega (arith, size, small);
      mapped = λ i lt. elim (Bool-cases (ltb i ip.size)) [
        | inl e ↦
            let old = m.mapped i (ground arith) in
            let inside : i / bsize < maxfile = ground arith in
            (λ z.
              old (sym (w.kept (slot_of (i / bsize)) (slot_of-is_slot (i / bsize) inside) old) ∙ z))
        | inr e ↦
            let lt' : i < size_after ip off (length src) = omega (arith, size, lt) in
            w.mapped i (ground arith) (ground arith)
      ];
    }

-- When `writei` has taken bytes into a sound file without holes, `readi` of the same range returns
-- these bytes, and changes nothing.
pub readi-writei :
    (sb : Superblock) (ip : Inode) (off : ℕ) (src : List ℕ) (s : Store) {o : Option ℕ} {ip' : Inode}
    {s' : Store}
    → IsVolume sb s.cache
    → IsFile sb s.cache ip
    → IsMapped s.cache ip
    → ((k : ℕ) → get_or src k 0 < 256)
    → accepts ip off (length src) ≡ true
    → writei sb ip off src s ≡ some ((o, ip'), s')
    → readi sb ip' off (length src) s' ≡ some ((some src, ip'), s')
readi-writei sb ip off src s {o} {ip'} {s'} v f m bytes ok h =
    let (_, w) = writei-Wrote sb ip off src s v f bytes ok h in
    let m' = Wrote-IsMapped off src m ok w in
    let size : ip'.size ≡ size_after ip off (length src) = ap (λ (r : Inode). r.size) w.fields in
    let in_bounds : ltb ip'.size off || leb u32_mod (off + length src) ≡ false =
      rw size (ground arith) in
    let all : readable ip' off (length src) ≡ length src = rw size (ground arith) in
    let seen : bytes_from (content s'.cache ip') off (length src) ≡ src =
      bytes_from_cong (content s'.cache ip') (with_bytes (content s.cache ip) off src) off off
        (length src) (λ r lt. w.contents (off + r))
      ∙ bytes_from-with_bytes (content s.cache ip) off src in
    readi_mapped sb ip' off (length src) s' w.is_volume w.is_file m'
    ∙ (rw (in_bounds, all, seen) refl)

-- Two files that share no block, and of which neither owns the other's inode.
pub record AreApart (sb : Superblock) (c : Blocks) (ip other : Inode) : Type 0 where
  pub blocks :
      (x y : Slot)
      → is_slot x ≡ true
      → is_slot y ≡ true
      → at c other.addrs y ≢ 0
      → at c ip.addrs x ≢ at c other.addrs y
  pub inode :
      (y : Slot)
      → is_slot y ≡ true
      → at c other.addrs y ≢ 0
      → at c other.addrs y ≢ iblock sb ip.inum

module _ (sb : Superblock) (ip other : Inode) (s : Store) (off : ℕ) (src : List ℕ) (ip' : Inode)
    (s' : Store) (w : Wrote sb ip s off src ip' s') (f : IsFile sb s.cache other)
    (apart : AreApart sb s.cache ip other) where
  other_block :
      (y : Slot) (i : ℕ)
      → is_slot y ≡ true
      → at s.cache other.addrs y ≢ 0
      → s'.cache (at s.cache other.addrs y) i ≡ s.cache (at s.cache other.addrs y) i
  other_block y i sy n =
      let o = f.owned y sy n in
      w.others (at s.cache other.addrs y) i o.below o.is_used (apart.inode y sy n) o.not_map
        (λ x sx. apart.blocks x y sx sy n)

  other_slot : (y : Slot) → is_slot y ≡ true → at s'.cache other.addrs y ≡ at s.cache other.addrs y
  other_slot (top i) sy = refl
  other_slot (under p j) sy =
      let (_, rest) = and_true (is_pointer p) _ sy in
      let (sp, _) = and_true (is_slot p) _ rest in
      elim (zero_cases (at s.cache other.addrs p)) [
        | inl z ↦ rw (other_slot p sp, z) refl
        | inr n ↦
            rw (other_slot p sp, ne_test n)
              (word_at_cong (s'.cache (at s.cache other.addrs p))
                (s.cache (at s.cache other.addrs p)) j (λ r h. other_block p (4 * j + r) sp n))
      ]

  pub other_content : (i : ℕ) → content s'.cache other i ≡ content s.cache other i
  other_content i = elim (Bool-cases (ltb i (maxfile * bsize))) [
    | inr e ↦ rw e refl
    | inl e ↦
        let inside : i / bsize < maxfile = ground arith in
        let y = slot_of (i / bsize) in
        let sy = slot_of-is_slot (i / bsize) inside in
        elim (zero_cases (at s.cache other.addrs y)) [
          | inl z ↦ rw (e, other_slot y sy, z) refl
          | inr n ↦ rw (e, other_slot y sy, ne_test n) (other_block y (i % bsize) sy n)
        ]
  ]

  pub other-IsFile : IsFile sb s'.cache other
  other-IsFile = record {
    addresses = f.addresses;
    owned = λ x sx n.
        let o = f.owned x sx (λ z. n (other_slot x sx ∙ z)) in
        let here : IsOwned sb s'.cache other (at s.cache other.addrs x) = record {
          below = o.below;
          is_used = w.still_used _ o.below o.is_used;
          not_map = o.not_map;
          not_inode = o.not_inode;
        } in
        subst (IsOwned sb s'.cache other) (sym (other_slot x sx)) here;
    distinct = λ x y sx sy n e.
        f.distinct x y sx sy (λ z. n (other_slot x sx ∙ z))
          (sym (other_slot x sx) ∙ e ∙ other_slot y sy);
    inode_below = f.inode_below;
    inode_not_boot = f.inode_not_boot;
    inode_used = w.still_used _ f.inode_below f.inode_used;
    inode_not_map = f.inode_not_map;
  }

-- When `writei` has taken bytes into a sound file, every other sound file that shares no block with
-- it, and does not own the block of its inode, has its old bytes and is still sound.
pub writei-other :
    (sb : Superblock) (ip other : Inode) (off : ℕ) (src : List ℕ) (s : Store) {o : Option ℕ}
    {ip' : Inode} {s' : Store}
    → IsVolume sb s.cache
    → IsFile sb s.cache ip
    → IsFile sb s.cache other
    → AreApart sb s.cache ip other
    → ((k : ℕ) → get_or src k 0 < 256)
    → accepts ip off (length src) ≡ true
    → writei sb ip off src s ≡ some ((o, ip'), s')
    → ((i : ℕ) → content s'.cache other i ≡ content s.cache other i) × IsFile sb s'.cache other
writei-other sb ip other off src s {o} {ip'} {s'} v f f₂ apart bytes ok h =
    let (_, w) = writei-Wrote sb ip off src s v f bytes ok h in
    (
      other_content sb ip other s off src ip' s' w f₂ apart,
      other-IsFile sb ip other s off src ip' s' w f₂ apart,
    )
