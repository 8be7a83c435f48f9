-- ===== src/Fs/Put.antt =====
-- kern/fs.c: a block of a file is written.
use openproninx.Base.{
  ℕ, ◌-◌, ◌*◌, ◌/◌, ◌%◌, ◌≤◌, ◌<◌, ◌≡◌, ◌≢◌, inl, inr, refl, ap, ◌∙◌, sym, subst, true, false,
  Bool-cases, ◌&&◌, List, arith, ◌==◌, ltb, leb, and_true, eq_test, test_eq, test_ne, ne_test,
  get_or, length,
}
use openproninx.Fs.{Store, Superblock, Inode, bsize, bblock, maxfile, put_block}
use openproninx.Fs.Files.{with_bytes}
use openproninx.Fs.Bitmap.{IsVolume, put_block-used, put_block-IsVolume}
use openproninx.Fs.Slots.{Slot, top, under, at, is_slot, is_pointer, IsOwned, IsFile}
use openproninx.Fs.Grow.{Evolved, zero_cases}
use openproninx.Fs.Bmap.{slot_of}
use openproninx.Fs.Content.{content, slot_of-is_slot, slot_of-is_pointer, slot_of-injective}

-- A block that is neither a block of addresses of the file nor of the map is written.
module _ (sb : Superblock) (ip : Inode) (s : Store) (b : ℕ) (bytes : ℕ → ℕ)
    (v : IsVolume sb s.cache) (f : IsFile sb s.cache ip)
    (not_pointer : (p : Slot)
      → is_slot p ≡ true
      → is_pointer p ≡ true
      → at s.cache ip.addrs p ≢ 0
      → b ≢ at s.cache ip.addrs p)
    (not_map : (k : ℕ) → k < sb.size → b ≢ bblock sb k) where
  pub same_slots :
      (x : Slot)
      → is_slot x ≡ true
      → at (put_block b bytes s).cache ip.addrs x ≡ at s.cache ip.addrs x
  same_slots (top i) sx = refl
  same_slots (under p j) sx =
      let (pp, rest) = and_true (is_pointer p) _ sx in
      let (sp, _) = and_true (is_slot p) _ rest in
      elim (zero_cases (at s.cache ip.addrs p)) [
        | inl z ↦ rw (same_slots p sp, z) refl
        | inr n ↦ rw (same_slots p sp, ne_test n, ne_test (not_pointer p sp pp n)) refl
      ]

  pub put_block-IsFile :
      (size : ℕ) → IsFile sb (put_block b bytes s).cache (record ip { size = size })
  put_block-IsFile size = record {
    addresses = f.addresses;
    owned = λ x sx n.
        let o = f.owned x sx (λ z. n (same_slots x sx ∙ z)) in
        let here : IsOwned sb (put_block b bytes s).cache (record ip { size = size })
            (at s.cache ip.addrs x) =
          record {
            below = o.below;
            is_used = put_block-used sb s b bytes not_map _ o.below ∙ o.is_used;
            not_map = o.not_map;
            not_inode = o.not_inode;
          } in
        subst (IsOwned sb (put_block b bytes s).cache (record ip { size = size }))
          (sym (same_slots x sx)) here;
    distinct = λ x y sx sy n e.
        f.distinct x y sx sy (λ z. n (same_slots x sx ∙ z))
          (sym (same_slots x sx) ∙ e ∙ same_slots y sy);
    inode_below = f.inode_below;
    inode_not_boot = f.inode_not_boot;
    inode_used = put_block-used sb s b bytes not_map _ f.inode_below ∙ f.inode_used;
    inode_not_map = f.inode_not_map;
  }

-- Bytes put into a block of the file are put into the file.
module _ (sb : Superblock) (ip : Inode) (s : Store) (b off : ℕ) (src : List ℕ)
    (v : IsVolume sb s.cache) (f : IsFile sb s.cache ip) (inside : off / bsize < maxfile)
    (block : at s.cache ip.addrs (slot_of (off / bsize)) ≡ b) (there : b ≢ 0)
    (bytes : (k : ℕ) → get_or src k 0 < 256) (fits : length src ≤ bsize - off % bsize) where
  put_bytes : Store
  put_bytes = put_block b (with_bytes (s.cache b) (off % bsize) src) s

  slot_there : at s.cache ip.addrs (slot_of (off / bsize)) ≢ 0
  slot_there z = there (sym block ∙ z)

  block-IsOwned : IsOwned sb s.cache ip b
  block-IsOwned =
      subst (IsOwned sb s.cache ip) block
        (f.owned (slot_of (off / bsize)) (slot_of-is_slot (off / bsize) inside) slot_there)

  not_pointer :
      (p : Slot)
      → is_slot p ≡ true
      → is_pointer p ≡ true
      → at s.cache ip.addrs p ≢ 0
      → b ≢ at s.cache ip.addrs p
  not_pointer p sp pp n e =
      let same =
        f.distinct (slot_of (off / bsize)) p (slot_of-is_slot (off / bsize) inside) sp slot_there
          (block ∙ e) in
      absurd (cc (sym (slot_of-is_pointer (off / bsize)) ∙ ap is_pointer same ∙ pp))

  slots : (x : Slot) → is_slot x ≡ true → at put_bytes.cache ip.addrs x ≡ at s.cache ip.addrs x
  unfolding put_bytes
  slots =
      same_slots sb ip s b (with_bytes (s.cache b) (off % bsize) src) v f not_pointer
        block-IsOwned.not_map

  byte_fits : (i : ℕ) → with_bytes (s.cache b) (off % bsize) src i < 256
  byte_fits i = elim (Bool-cases (leb (off % bsize) i && ltb (i - off % bsize) (length src))) [
    | inl e ↦ rw e (bytes (i - off % bsize))
    | inr e ↦ rw e (v.bytes b i)
  ]

  pub put_block-Evolved :
      Evolved sb ip s ip (put_block b (with_bytes (s.cache b) (off % bsize) src) s)
  unfolding put_bytes
  put_block-Evolved = record {
    is_volume =
        put_block-IsVolume sb s b (with_bytes (s.cache b) (off % bsize) src) v block-IsOwned.not_map
          byte_fits (omega (arith, block-IsOwned.below));
    is_file =
        put_block-IsFile sb ip s b (with_bytes (s.cache b) (off % bsize) src) v f not_pointer
          block-IsOwned.not_map ip.size;
    fields = refl;
    kept = λ x sx _. slots x sx;
    fresh = λ x sx z n. absurd (n (slots x sx ∙ z));
    still_used = λ k lt u.
        put_block-used sb s b (with_bytes (s.cache b) (off % bsize) src) block-IsOwned.not_map k lt
        ∙ u;
    others = λ k i lt u m n.
        rw
          (ne_test
            (λ e. n (slot_of (off / bsize)) (slot_of-is_slot (off / bsize) inside) (block ∙ e)))
          refl;
  }

  -- Of another block nothing changes.
  far_byte :
      (i : ℕ)
      → i < maxfile * bsize
      → (i / bsize ≢ off / bsize)
      → content put_bytes.cache ip i ≡ content s.cache ip i
  unfolding put_bytes
  far_byte i lt n =
      let low : ltb i (maxfile * bsize) ≡ true = ground arith in
      let reach : i / bsize < maxfile = omega arith in
      let x = slot_of (i / bsize) in
      let sx = slot_of-is_slot (i / bsize) reach in
      elim (zero_cases (at s.cache ip.addrs x)) [
        | inl z ↦ rw (low, slots x sx, z) refl
        | inr k ↦
            let apart : b ≢ at s.cache ip.addrs x = λ e. n (
              slot_of-injective (i / bsize) (off / bsize) (
                f.distinct x (slot_of (off / bsize)) sx (slot_of-is_slot (off / bsize) inside) k
                  (sym e ∙ sym block))) in
            rw (low, slots x sx, ne_test k, ne_test apart) refl
      ]

  pub put_block-content :
      (i : ℕ)
      → content (put_block b (with_bytes (s.cache b) (off % bsize) src) s).cache ip i
        ≡ with_bytes (content s.cache ip) off src i
  unfolding put_bytes
  put_block-content i = elim (Bool-cases (ltb i (maxfile * bsize))) [
    | inr e ↦
        let out : leb off i && ltb (i - off) (length src) ≡ false = ground arith in rw (out, e) refl
    | inl e ↦ elim (Bool-cases (i / bsize == off / bsize)) [
      | inr k ↦
          let out : leb off i && ltb (i - off) (length src) ≡ false = ground arith in
          rw out (far_byte i (ground arith) (test_ne k))
      | inl k ↦
          let row : i / bsize ≡ off / bsize = test_eq k in
          let same_test : leb (off % bsize) (i % bsize)
                && ltb (i % bsize - off % bsize) (length src)
              ≡ leb off i && ltb (i - off) (length src) =
            ground arith in
          let new : content put_bytes.cache ip i
              ≡ with_bytes (s.cache b) (off % bsize) src (i % bsize) =
            rw
              (
                e,
                row,
                slots (slot_of (off / bsize)) (slot_of-is_slot (off / bsize) inside),
                block,
                ne_test there,
                eq_test {a = b} refl,
              )
              refl in
          let old : content s.cache ip i ≡ s.cache b (i % bsize) =
            rw (e, row, block, ne_test there) refl in
          elim (Bool-cases (leb off i && ltb (i - off) (length src))) [
            | inl q ↦
                let place : i % bsize - off % bsize ≡ i - off = ground arith in
                new ∙ (rw (same_test, q, place) refl)
            | inr q ↦ new ∙ (rw (same_test, q, sym old) refl)
          ]
    ]
  ]
