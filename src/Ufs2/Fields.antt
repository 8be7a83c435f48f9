-- ===== src/Ufs2/Fields.antt =====
-- kern/ufs2.c: an inode that is written is read back.
use openproninx.Base.{
  ℕ, zero, suc, ◌+◌, ◌*◌, ◌^◌, ◌≤◌, ◌<◌, ◌≡◌, ◌⊎◌, inl, inr, refl, ap, ap₂, ◌∙◌, sym, List, [], ◌∷◌,
  arith, length,
}
use openproninx.Ufs2.{Inode}
use openproninx.Ufs2.Codec.{
  read_le, write_le, read_addresses, write_addresses, decode, encode, mode_offset, nlink_offset,
  uid_offset, gid_offset, size_offset, direct_offset, indirect_offset, dinode_size, direct_blocks,
  FitsBytes, length-write_le, length-write_addresses, read_le-write_le, read_le-write_le_apart,
  read_le-write_addresses_apart,
}

abbrev pub AllFit : List ℕ → Type 0
AllFit [] = Unit
AllFit (x ∷ xs) = FitsBytes 8 x × AllFit xs

read_addresses-write_addresses_apart :
    (k : ℕ) (xs raw : List ℕ) (off o : ℕ)
    → (o + 8 * k ≤ off) ⊎ (off + 8 * length xs ≤ o)
    → read_addresses k (write_addresses xs raw off) o ≡ read_addresses k raw o
unfolding read_addresses
read_addresses-write_addresses_apart zero xs raw off o h = refl
read_addresses-write_addresses_apart (suc k) xs raw off o h =
    ap₂ ◌∷◌ (read_le-write_addresses_apart 8 xs raw off o (first h))
      (read_addresses-write_addresses_apart k xs raw off (o + 8) (later h))
  where
    first :
        (o + 8 * suc k ≤ off) ⊎ (off + 8 * length xs ≤ o)
        → (o + 8 ≤ off) ⊎ (off + 8 * length xs ≤ o)
    first (inl p) = inl (omega arith)
    first (inr p) = inr p

    later :
        (o + 8 * suc k ≤ off) ⊎ (off + 8 * length xs ≤ o)
        → (o + 8 + 8 * k ≤ off) ⊎ (off + 8 * length xs ≤ o + 8)
    later (inl p) = inl (omega arith)
    later (inr p) = inr (omega arith)

-- The addresses that a loop writes are read back.
read_addresses-write_addresses :
    (xs raw : List ℕ) (off : ℕ)
    → off + 8 * length xs ≤ length raw
    → AllFit xs
    → read_addresses (length xs) (write_addresses xs raw off) off ≡ xs
unfolding read_addresses write_addresses
read_addresses-write_addresses [] raw off h f = refl
read_addresses-write_addresses (x ∷ xs) raw off h f =
    ap₂ ◌∷◌
      (read_le-write_addresses_apart 8 xs (write_le 8 raw off x) (off + 8) off (inl (omega arith))
        ∙ read_le-write_le 8 raw off x (omega arith) f.0)
      (read_addresses-write_addresses xs (write_le 8 raw off x) (off + 8)
        (omega (arith, length-write_le 8 raw off x)) f.1)

-- The fields of an inode hold what their C types can.
pub record IsInode (i : Inode) : Type 0 where
  pub mode_fits : i.mode < 2 ^ 16
  pub nlink_fits : i.nlink < 2 ^ 16
  pub uid_fits : i.uid < 2 ^ 32
  pub gid_fits : i.gid < 2 ^ 32
  pub size_fits : i.size < 2 ^ 64
  pub twelve : length i.direct ≡ direct_blocks
  pub three : length i.indirect ≡ 3
  pub direct_fits : AllFit i.direct
  pub indirect_fits : AllFit i.indirect

pub length-encode : (raw : List ℕ) (i : Inode) → length (encode raw i) ≡ length raw
unfolding encode
length-encode raw i =
    length-write_addresses i.indirect _ indirect_offset
    ∙ length-write_addresses i.direct _ direct_offset
    ∙ length-write_le 8 _ size_offset i.size
    ∙ length-write_le 4 _ gid_offset i.gid
    ∙ length-write_le 4 _ uid_offset i.uid
    ∙ length-write_le 2 _ nlink_offset i.nlink
    ∙ length-write_le 2 raw mode_offset i.mode

module _ (raw : List ℕ) (i : Inode) (v : IsInode i) (h : length raw ≡ dinode_size) where
  abbrev r1 : List ℕ
  r1 = write_le 2 raw mode_offset i.mode

  abbrev r2 : List ℕ
  r2 = write_le 2 r1 nlink_offset i.nlink

  abbrev r3 : List ℕ
  r3 = write_le 4 r2 uid_offset i.uid

  abbrev r4 : List ℕ
  r4 = write_le 4 r3 gid_offset i.gid

  abbrev r5 : List ℕ
  r5 = write_le 8 r4 size_offset i.size

  abbrev r6 : List ℕ
  r6 = write_addresses i.direct r5 direct_offset

  lengths :
      (length r1 ≡ dinode_size)
      × (length r2 ≡ dinode_size)
      × (length r3 ≡ dinode_size)
      × (length r4 ≡ dinode_size)
      × (length r5 ≡ dinode_size)
      × (length r6 ≡ dinode_size)
  lengths =
      let l1 = length-write_le 2 raw mode_offset i.mode ∙ h in
      let l2 = length-write_le 2 r1 nlink_offset i.nlink ∙ l1 in
      let l3 = length-write_le 4 r2 uid_offset i.uid ∙ l2 in
      let l4 = length-write_le 4 r3 gid_offset i.gid ∙ l3 in
      let l5 = length-write_le 8 r4 size_offset i.size ∙ l4 in
      (l1, l2, l3, l4, l5, length-write_addresses i.direct r5 direct_offset ∙ l5)

  -- The two loops over the addresses leave the fields before them alone.
  past_addresses : (m o : ℕ) → o + m ≤ direct_offset → read_le m (encode raw i) o ≡ read_le m r5 o
  unfolding encode
  past_addresses m o q =
      read_le-write_addresses_apart m i.indirect r6 indirect_offset o (inl (omega arith))
      ∙ read_le-write_addresses_apart m i.direct r5 direct_offset o (inl q)

  encoded_mode : read_le 2 (encode raw i) mode_offset ≡ i.mode
  encoded_mode =
      past_addresses 2 0 (omega arith)
      ∙ read_le-write_le_apart 2 8 r4 16 i.size 0 (inl (omega arith))
      ∙ read_le-write_le_apart 2 4 r3 8 i.gid 0 (inl (omega arith))
      ∙ read_le-write_le_apart 2 4 r2 4 i.uid 0 (inl (omega arith))
      ∙ read_le-write_le_apart 2 2 r1 2 i.nlink 0 (inl (omega arith))
      ∙ read_le-write_le 2 raw 0 i.mode (omega arith) (omega (arith, v.mode_fits))

  encoded_nlink : read_le 2 (encode raw i) nlink_offset ≡ i.nlink
  encoded_nlink =
      past_addresses 2 2 (omega arith)
      ∙ read_le-write_le_apart 2 8 r4 16 i.size 2 (inl (omega arith))
      ∙ read_le-write_le_apart 2 4 r3 8 i.gid 2 (inl (omega arith))
      ∙ read_le-write_le_apart 2 4 r2 4 i.uid 2 (inl (omega arith))
      ∙ read_le-write_le 2 r1 2 i.nlink (omega (arith, lengths)) (omega (arith, v.nlink_fits))

  encoded_uid : read_le 4 (encode raw i) uid_offset ≡ i.uid
  encoded_uid =
      past_addresses 4 4 (omega arith)
      ∙ read_le-write_le_apart 4 8 r4 16 i.size 4 (inl (omega arith))
      ∙ read_le-write_le_apart 4 4 r3 8 i.gid 4 (inl (omega arith))
      ∙ read_le-write_le 4 r2 4 i.uid (omega (arith, lengths)) (omega (arith, v.uid_fits))

  encoded_gid : read_le 4 (encode raw i) gid_offset ≡ i.gid
  encoded_gid =
      past_addresses 4 8 (omega arith)
      ∙ read_le-write_le_apart 4 8 r4 16 i.size 8 (inl (omega arith))
      ∙ read_le-write_le 4 r3 8 i.gid (omega (arith, lengths)) (omega (arith, v.gid_fits))

  encoded_size : read_le 8 (encode raw i) size_offset ≡ i.size
  encoded_size =
      past_addresses 8 16 (omega arith)
      ∙ read_le-write_le 8 r4 16 i.size (omega (arith, lengths)) (omega (arith, v.size_fits))

  encoded_direct : read_addresses direct_blocks (encode raw i) direct_offset ≡ i.direct
  unfolding encode
  encoded_direct =
      read_addresses-write_addresses_apart direct_blocks i.indirect r6 indirect_offset direct_offset
        (inl (omega arith))
      ∙ ap (λ k. read_addresses k r6 direct_offset) (sym v.twelve)
      ∙ read_addresses-write_addresses i.direct r5 direct_offset (omega (arith, lengths, v.twelve))
          v.direct_fits

  encoded_indirect : read_addresses 3 (encode raw i) indirect_offset ≡ i.indirect
  unfolding encode
  encoded_indirect =
      ap (λ k. read_addresses k (write_addresses i.indirect r6 indirect_offset) indirect_offset)
        (sym v.three)
      ∙ read_addresses-write_addresses i.indirect r6 indirect_offset
          (omega (arith, lengths, v.three)) v.indirect_fits

  -- Decoding the bytes of an inode after its fields were written over them gives the inode back.
  pub decode-encode : decode (encode raw i) ≡ i
  unfolding decode
  decode-encode t = record {
    mode = encoded_mode t;
    nlink = encoded_nlink t;
    uid = encoded_uid t;
    gid = encoded_gid t;
    size = encoded_size t;
    direct = encoded_direct t;
    indirect = encoded_indirect t;
  }
