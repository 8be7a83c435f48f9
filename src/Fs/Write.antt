-- ===== src/Fs/Write.antt =====
-- kern/fs.c: `writei` puts its bytes into the file and leaves the others.
use openproninx.Base.{
  ℕ, ◌+◌, ◌*◌, ◌/◌, ◌%◌, ◌≤◌, ◌<◌, ◌≡◌, ◌≢◌, inl, inr, refl, ap, ◌∙◌, sym, subst, Bool, true, false,
  Bool-cases, not, ◌&&◌, ◌||◌, Option, none, some, List, arith, ◌==◌, ltb, leb, if◌then◌else◌,
  ne_test, u32_mod, get_or, length,
}
use mathlib.Core.Option.{some-injective}
use openproninx.Fs.{Store, Superblock, Inode, bsize, bblock, maxfile}
use openproninx.Fs.Files.{with_bytes, write_from, writei}
use openproninx.Fs.Inodes.{iblock, ipb, dinode_size, dinode_byte, iupdate, with_inode}
use openproninx.Fs.Bitmap.{used, IsVolume, put_block-used, put_block-IsVolume}
use openproninx.Fs.Slots.{Slot, at, is_slot, is_pointer, IsFile}
use openproninx.Fs.Grow.{zero_cases}
use openproninx.Fs.Bmap.{slot_of}
use openproninx.Fs.Content.{content, slot_of-is_slot}
use openproninx.Fs.Put.{same_slots, put_block-IsFile}
use openproninx.Fs.Rounds.{Spread, write_from-Spread}

-- Whether `writei` takes the range.
abbrev pub accepts : Inode → ℕ → ℕ → Bool
accepts ip off n =
    not (ltb ip.size off || (leb u32_mod (off + n) || ltb (maxfile * bsize) (off + n)))

abbrev pub size_after : Inode → ℕ → ℕ → ℕ
size_after ip off n = if not (n == 0) && ltb ip.size (off + n) then off + n else ip.size

-- A file after `writei`: its content, its size, and what else the write may have changed.
pub record Wrote (sb : Superblock) (ip : Inode) (s : Store) (off : ℕ) (src : List ℕ) (ip' : Inode)
    (s' : Store) : Type 0 where
  pub contents : (i : ℕ) → content s'.cache ip' i ≡ with_bytes (content s.cache ip) off src i
  pub fields : ip' ≡ record ip { size = size_after ip off (length src); addrs = ip'.addrs }
  pub is_volume : IsVolume sb s'.cache
  pub is_file : IsFile sb s'.cache ip'
  pub kept :
      (x : Slot)
      → is_slot x ≡ true
      → at s.cache ip.addrs x ≢ 0
      → at s'.cache ip'.addrs x ≡ at s.cache ip.addrs x
  pub mapped :
      (i : ℕ) → off ≤ i → i < off + length src → at s'.cache ip'.addrs (slot_of (i / bsize)) ≢ 0
  pub still_used : (b : ℕ) → b < sb.size → used sb s.cache b ≡ true → used sb s'.cache b ≡ true
  pub others :
      (b i : ℕ)
      → b < sb.size
      → used sb s.cache b ≡ true
      → b ≢ iblock sb ip.inum
      → ((k : ℕ) → k < sb.size → b ≢ bblock sb k)
      → ((x : Slot) → is_slot x ≡ true → at s.cache ip.addrs x ≢ b)
      → s'.cache b i ≡ s.cache b i

dinode_byte_fits : (ip : Inode) (o old : ℕ) → old < 256 → dinode_byte ip o old < 256
dinode_byte_fits ip o old h = ground arith

-- The write back of the inode with the new size.
module _ (sb : Superblock) (ip : Inode) (s : Store) (size : ℕ) (v : IsVolume sb s.cache)
    (f : IsFile sb s.cache ip) where
  not_pointer :
      (p : Slot)
      → is_slot p ≡ true
      → is_pointer p ≡ true
      → at s.cache ip.addrs p ≢ 0
      → iblock sb ip.inum ≢ at s.cache ip.addrs p
  not_pointer p sp pp n e = (f.owned p sp n).not_inode (sym e)

  inode_bytes : ℕ → ℕ
  inode_bytes = with_inode (s.cache (iblock sb ip.inum)) (ip.inum % ipb) (record ip { size = size })

  inode_bytes_fit : (i : ℕ) → inode_bytes i < 256
  unfolding inode_bytes
  inode_bytes_fit i = elim (Bool-cases (i / dinode_size == ip.inum % ipb)) [
    | inl e ↦ rw e (
        dinode_byte_fits (record ip { size = size }) (i % dinode_size)
          (s.cache (iblock sb ip.inum) i) (v.bytes (iblock sb ip.inum) i))
    | inr e ↦ rw e (v.bytes (iblock sb ip.inum) i)
  ]

  updated : Store
  updated = iupdate sb (record ip { size = size }) s

  iupdate-IsVolume : IsVolume sb updated.cache
  unfolding updated iupdate inode_bytes
  iupdate-IsVolume =
      put_block-IsVolume sb s (iblock sb ip.inum) inode_bytes v f.inode_not_map inode_bytes_fit
        (omega (arith, f.inode_below))

  iupdate-IsFile : IsFile sb updated.cache (record ip { size = size })
  unfolding updated iupdate inode_bytes
  iupdate-IsFile =
      put_block-IsFile sb ip s (iblock sb ip.inum) inode_bytes v f not_pointer f.inode_not_map size

  iupdate_slots :
      (x : Slot) → is_slot x ≡ true → at updated.cache ip.addrs x ≡ at s.cache ip.addrs x
  unfolding updated iupdate inode_bytes
  iupdate_slots = same_slots sb ip s (iblock sb ip.inum) inode_bytes v f not_pointer f.inode_not_map

  iupdate_used : (b : ℕ) → b < sb.size → used sb updated.cache b ≡ used sb s.cache b
  unfolding updated iupdate inode_bytes
  iupdate_used = put_block-used sb s (iblock sb ip.inum) inode_bytes f.inode_not_map

  iupdate_other : (b i : ℕ) → b ≢ iblock sb ip.inum → updated.cache b i ≡ s.cache b i
  unfolding updated iupdate
  iupdate_other b i n = rw (ne_test (λ e. n (sym e))) refl

  iupdate-content :
      (i : ℕ) → content updated.cache (record ip { size = size }) i ≡ content s.cache ip i
  iupdate-content i = elim (Bool-cases (ltb i (maxfile * bsize))) [
    | inr e ↦ rw e refl
    | inl e ↦
        let inside : i / bsize < maxfile = ground arith in
        let x = slot_of (i / bsize) in
        let sx = slot_of-is_slot (i / bsize) inside in
        elim (zero_cases (at s.cache ip.addrs x)) [
          | inl z ↦ rw (e, iupdate_slots x sx, z) refl
          | inr n ↦
              rw (e, iupdate_slots x sx, ne_test n)
                (iupdate_other (at s.cache ip.addrs x) (i % bsize) (f.owned x sx n).not_inode)
        ]
  ]

-- The loop alone, when the size stays.
same_size :
    (sb : Superblock) (ip : Inode) (s : Store) (off : ℕ) (src : List ℕ) (ip' : Inode) (s' : Store)
    → not (length src == 0) && ltb ip.size (off + length src) ≡ false
    → Spread sb ip s off src ip' s'
    → Wrote sb ip s off src ip' s'
same_size sb ip s off src ip' s' e g = record {
  contents = g.contents;
  fields = rw e g.evolved.fields;
  is_volume = g.evolved.is_volume;
  is_file = g.evolved.is_file;
  kept = g.evolved.kept;
  mapped = g.mapped;
  still_used = g.evolved.still_used;
  others = λ b i lt u _ m n. g.evolved.others b i lt u m n;
}

-- The loop and the write back, when the size grows.
new_size :
    (sb : Superblock) (ip : Inode) (s : Store) (off : ℕ) (src : List ℕ) (ip' : Inode) (s' : Store)
    → not (length src == 0) && ltb ip.size (off + length src) ≡ true
    → Spread sb ip s off src ip' s'
    → Wrote sb ip s off src
        (record ip' { size = off + length src })
        (iupdate sb (record ip' { size = off + length src }) s')
unfolding updated
new_size sb ip s off src ip' s' e g =
    let n = off + length src in
    let v = g.evolved.is_volume in
    let f = g.evolved.is_file in
    let slots = iupdate_slots sb ip' s' n v f in
    let same_inode : ip'.inum ≡ ip.inum = ap (λ (r : Inode). r.inum) g.evolved.fields in
    record {
      contents = λ i. iupdate-content sb ip' s' n v f i ∙ g.contents i;
      fields = rw e (ap (resize n) g.evolved.fields);
      is_volume = iupdate-IsVolume sb ip' s' n v f;
      is_file = iupdate-IsFile sb ip' s' n v f;
      kept = λ x sx k. slots x sx ∙ g.evolved.kept x sx k;
      mapped = λ i lo hi z.
          let reach = g.reached (λ y. absurd (omega (arith, lo, hi, y))) in
          let inside : i / bsize < maxfile = omega (arith, hi, reach) in
          g.mapped i lo hi
            (sym (slots (slot_of (i / bsize)) (slot_of-is_slot (i / bsize) inside)) ∙ z);
      still_used = λ b lt u. iupdate_used sb ip' s' n v f b lt ∙ g.evolved.still_used b lt u;
      others = λ b i lt u o m k.
          iupdate_other sb ip' s' n v f b i (λ q. o (q ∙ ap (iblock sb) same_inode))
          ∙ g.evolved.others b i lt u m k;
    }
  where
    resize : ℕ → Inode → Inode
    resize n r = record r { size = n }

-- `writei` within the bounds writes all its bytes, or panics for want of a block.
pub writei-Wrote :
    (sb : Superblock) (ip : Inode) (off : ℕ) (src : List ℕ) (s : Store) {o : Option ℕ} {ip' : Inode}
    {s' : Store}
    → IsVolume sb s.cache
    → IsFile sb s.cache ip
    → ((k : ℕ) → get_or src k 0 < 256)
    → accepts ip off (length src) ≡ true
    → writei sb ip off src s ≡ some ((o, ip'), s')
    → (o ≡ some (length src)) × Wrote sb ip s off src ip' s'
unfolding writei
writei-Wrote sb ip off src s {o} {ip'} {s'} v f bytes ok h =
    elim (Bool-cases (
      ltb ip.size off
      || (leb u32_mod (off + length src) || ltb (maxfile * bsize) (off + length src)))) [
        | inl e ↦ absurd (cc (rw e at ok))
        | inr e ↦ go (write_from (length src + 1) sb ip off src s) refl (rw e at h)
      ]
  where
    go :
        (r : Option (Inode × Store))
        → write_from (length src + 1) sb ip off src s ≡ r
        → (elim r as (λ _. Option ((Option ℕ × Inode) × Store)) [
          | none ↦ none
          | some (ip', s') ↦
              if not (length src == 0) && ltb ip'.size (off + length src)
              then some (
                (some (length src), record ip' { size = off + length src }),
                iupdate sb (record ip' { size = off + length src }) s',
              )
              else some ((some (length src), ip'), s')
        ])
          ≡ some ((o, ip'), s')
        → (o ≡ some (length src)) × Wrote sb ip s off src ip' s'
    go none w q = absurd (cc q)
    go (some (ip₁, s₁)) w q =
        let g = write_from-Spread (length src + 1) sb ip off src s v f bytes w in
        let old_size : ip₁.size ≡ ip.size = ap (λ (r : Inode). r.size) g.evolved.fields in
        elim (Bool-cases (not (length src == 0) && ltb ip.size (off + length src))) [
          | inl e ↦
              let same = some-injective _ _ (rw (old_size, e) at q) in
              (
                sym (ap (λ r. r.0.0) same),
                subst (λ r. Wrote sb ip s off src r.0.1 r.1) same
                    (new_size sb ip s off src ip₁ s₁ e g),
              )
          | inr e ↦
              let stays : not (length src == 0) && ltb ip₁.size (off + length src) ≡ false =
                rw old_size e in
              let same = some-injective _ _ (rw stays at q) in
              (
                sym (ap (λ r. r.0.0) same),
                subst (λ r. Wrote sb ip s off src r.0.1 r.1) same
                    (same_size sb ip s off src ip₁ s₁ e g),
              )
        ]
