-- ===== src/Fs/Synced.antt =====
-- kern/fs.c: a write leaves the inode on the disk as it is in memory.
use openproninx.Base.{
  none, ◌∷◌, [], List, u32_mod, not, ◌||◌, leb, zero, suc, Option, refl, arith, ℕ, zero, suc, ◌+◌,
  ◌*◌, ◌/◌, ◌%◌, ◌≤◌, ◌<◌, ◌≡◌, ◌≢◌, inl, inr, refl, ap, ◌∙◌, sym, subst, true, false, Bool-cases,
  not, ◌&&◌, ◌||◌, Option, some, List, arith, ◌==◌, ltb, leb, if◌then◌else◌, test_ne, u32_mod,
  get_or, length, drop, length-drop,
}
use openproninx.Fs.{Store, Superblock, Inode, bsize, ndirect, maxfile, chunk}
use openproninx.Fs.Files.{write_from, writei}
use openproninx.Fs.Inodes.{iupdate}
use openproninx.Fs.Bitmap.{IsVolume}
use openproninx.Fs.Slots.{top, at, IsFile}
use openproninx.Fs.Content.{slot_of-is_slot}
use openproninx.Fs.Spread.{get_or-drop}
use openproninx.Fs.Rounds.{round_lem}
use openproninx.Fs.Write.{accepts}
use mathlib.Core.Option.{some-injective}
use openproninx.Fs.Grow.{Evolved, zero_cases}
use openproninx.Fs.Mapped.{bmap_mapped, IsMapped}
use openproninx.Fs.Bmap.{slot_of}
use openproninx.Fs.Inodes.{dinode_size, ipb, iblock, inode_at, iupdate, ilock}
use openproninx.Fs.Dinode.{Fits, inode_at_cong, ilock-iupdate}
use openproninx.Fs.Rounds.{write_from-Spread}
use openproninx.Fs.Returns.{write_round}

-- In a mapped range the loop of `writei` keeps the addresses.
write_from_mapped :
    (fuel : ℕ) (sb : Superblock) (ip : Inode) (off : ℕ) (src : List ℕ) (s : Store)
    {r : Inode × Store}
    → IsVolume sb s.cache
    → IsFile sb s.cache ip
    → ((k : ℕ) → get_or src k 0 < 256)
    → off + length src ≤ maxfile * bsize
    → ((i : ℕ) → off ≤ i → i < off + length src → at s.cache ip.addrs (slot_of (i / bsize)) ≢ 0)
    → write_from fuel sb ip off src s ≡ some r
    → r.0 ≡ ip
unfolding write_from
write_from_mapped zero sb ip off src s v f bytes reach m h = absurd (cc h)
write_from_mapped (suc fuel) sb ip off src s {r} v f bytes reach m h =
    elim (Bool-cases (length src == 0)) [
      | inl e ↦ sym (ap (λ p. p.0) (some-injective _ _ (rw e at h)))
      | inr e ↦
          let pos = test_ne e in
          let inside : off / bsize < maxfile = omega (arith, pos, reach) in
          let here =
            bmap_mapped sb ip (off / bsize) s inside (m off (omega arith) (omega (arith, pos))) in
          let k = chunk off (length src) in
          let high = length-drop k src in
          let g = round_lem sb ip off src s v f bytes here in
          write_from_mapped fuel sb ip (off + k) (drop k src) _ g.evolved.is_volume
            g.evolved.is_file (λ j. rw (get_or-drop k src j) (bytes (k + j)))
            (omega (arith, high, reach))
            (λ i lo hi z.
              let old = m i (omega (arith, lo)) (omega (arith, hi, high)) in
              let place : i / bsize < maxfile = omega (arith, hi, high, reach) in
              old (
                sym (g.evolved.kept (slot_of (i / bsize)) (slot_of-is_slot (i / bsize) place) old)
                ∙ z))
            (sym (write_round fuel sb ip off src s e here) ∙ h)
    ]

abbrev locked : Inode → Store → Option (Inode × Store)
locked r s = if r.type == 0 then none else some (r, s)

-- What `ilock` returned.
locked_lem :
    (r ip : Inode) (s : Store) → locked r s ≡ some (ip, s) → (r ≡ ip) × ((r.type == 0) ≡ false)
locked_lem r ip s h = elim (Bool-cases (r.type == 0)) [
  | inl e ↦ absurd (cc (rw e at h))
  | inr e ↦ (ap (λ p. p.0) (some-injective _ _ (rw e at h)), e)
]

typed_lem :
    (sb : Superblock) (ip : Inode) (s : Store) → ilock sb ip.inum s ≡ some (ip, s) → ip.type ≢ 0
unfolding ilock
typed_lem sb ip s h =
    let (q, t) =
      locked_lem (inode_at (s.cache (iblock sb ip.inum)) (dinode_size * (ip.inum % ipb)) ip.inum) ip
        s h in
    test_ne (ap (λ (r : Inode). r.type == 0) (sym q) ∙ t)

-- `ilock` reads the same where the block of the inode has not changed.
same_inode :
    (sb : Superblock) (ip : Inode) (s s' : Store)
    → ((i : ℕ) → s'.cache (iblock sb ip.inum) i ≡ s.cache (iblock sb ip.inum) i)
    → ilock sb ip.inum s ≡ some (ip, s)
    → ilock sb ip.inum s' ≡ some (ip, s')
unfolding ilock
same_inode sb ip s s' same h =
    let o = dinode_size * (ip.inum % ipb) in
    let e : inode_at (s'.cache (iblock sb ip.inum)) o ip.inum
        ≡ inode_at (s.cache (iblock sb ip.inum)) o ip.inum =
      inode_at_cong (s'.cache (iblock sb ip.inum)) (s.cache (iblock sb ip.inum)) o o
        (λ r _. same (o + r)) ip.inum in
    let (q, t) = locked_lem (inode_at (s.cache (iblock sb ip.inum)) o ip.inum) ip s h in
    let typed : (ip.type == 0) ≡ false = ap (λ (r : Inode). r.type == 0) (sym q) ∙ t in
    ap (λ r. locked r s') (e ∙ q) ∙ (rw typed refl)

-- The block of the inode is not one that the loop of `writei` changes.
inode_block :
    {sb : Superblock} {ip ip' : Inode} {s s' : Store}
    → IsFile sb s.cache ip
    → Evolved sb ip s ip' s'
    → (i : ℕ) → s'.cache (iblock sb ip.inum) i ≡ s.cache (iblock sb ip.inum) i
inode_block {ip} {s} f e i = e.others _ i f.inode_below f.inode_used f.inode_not_map (λ x sx q.
    elim (zero_cases (at s.cache ip.addrs x)) [
      | inl z ↦ f.inode_not_boot (sym q ∙ z)
      | inr n ↦ (f.owned x sx n).not_inode q
    ])

-- The fields of the inode fit those of the disk after a write, the addresses being below the size of the volume.
Fits-resize :
    {sb : Superblock} {ip ip' : Inode} {s s' : Store} (size : ℕ)
    → Fits ip
    → size < u32_mod
    → Evolved sb ip s ip' s'
    → Fits (record ip' { size = size })
Fits-resize {sb} {ip} {ip'} {s'} size w h e =
    subst (λ (r : Inode). Fits (record r { size = size })) (sym e.fields)
      (record {
        type = w.type;
        major = w.major;
        minor = w.minor;
        nlink = w.nlink;
        size = h;
        uid = w.uid;
        gid = w.gid;
        mode = w.mode;
        addresses = e.is_file.addresses;
        addrs = λ k. elim (Bool-cases (ltb k (ndirect + 2))) [
          | inl low ↦ elim (zero_cases (get_or ip'.addrs k 0)) [
            | inl z ↦ omega (arith, z)
            | inr n ↦
                let below = (e.is_file.owned (top k) low n).below in
                let word = e.is_volume.word in omega (arith, below, word)
          ]
          | inr far ↦
              let out : get_or ip'.addrs k 0 ≡ 0 =
                get_or-past ip'.addrs k (omega (arith, e.is_file.addresses, ge_of far)) in
              omega (arith, out)
        ];
      })
  where
    ge_of : {k n : ℕ} → ltb k n ≡ false → n ≤ k
    ge_of h = ground arith

    get_or-past : (l : List ℕ) (k : ℕ) → length l ≤ k → get_or l k 0 ≡ 0
    get_or-past [] k h = refl
    get_or-past (x ∷ l) zero h = absurd (omega arith)
    get_or-past (x ∷ l) (suc k) h = get_or-past l k (omega arith)

-- For a sound file without holes, whose fields fit those of the disk: if `ilock` of its number gives
-- its inode, then after `writei` has taken bytes into the file it gives the inode that `writei` left.
pub writei-ilock :
    (sb : Superblock) (ip : Inode) (off : ℕ) (src : List ℕ) (s : Store) {o : Option ℕ} {ip' : Inode}
    {s' : Store}
    → IsVolume sb s.cache
    → IsFile sb s.cache ip
    → IsMapped s.cache ip
    → Fits ip
    → ((k : ℕ) → get_or src k 0 < 256)
    → accepts ip off (length src) ≡ true
    → ilock sb ip.inum s ≡ some (ip, s)
    → writei sb ip off src s ≡ some ((o, ip'), s')
    → ilock sb ip.inum s' ≡ some (ip', s')
unfolding writei
writei-ilock sb ip off src s {o} {ip'} {s'} v f m w bytes ok l h =
    let n = length src in
    let fine : ltb ip.size off || (leb u32_mod (off + n) || ltb (maxfile * bsize) (off + n))
        ≡ false =
      ground arith in
    go (write_from (n + 1) sb ip off src s) refl (rw fine at h)
  where
    go :
        (r : Option (Inode × Store))
        → write_from (length src + 1) sb ip off src s ≡ r
        → (elim r as (λ _. Option ((Option ℕ × Inode) × Store)) [
          | none ↦ none
          | some (ip', s') ↦
              if not (length src == 0) && ltb ip'.size (off + length src)
              then some (
                (some (length src), record ip' { size = off + length src }),
                iupdate sb (record ip' { size = off + length src }) s',
              )
              else some ((some (length src), ip'), s')
        ])
          ≡ some ((o, ip'), s')
        → ilock sb ip.inum s' ≡ some (ip', s')
    go none e q = absurd (cc q)
    go (some (ip₁, s₁)) e q =
        let g = write_from-Spread (length src + 1) sb ip off src s v f bytes e in
        let inum : ip₁.inum ≡ ip.inum = ap (λ (r : Inode). r.inum) g.evolved.fields in
        let type : ip₁.type ≡ ip.type = ap (λ (r : Inode). r.type) g.evolved.fields in
        elim (Bool-cases (not (length src == 0) && ltb ip₁.size (off + length src))) [
          | inl c ↦
              let size = off + length src in
              let new : Inode = record ip₁ { size = size } in
              let fits = Fits-resize size w (ground arith) g.evolved in
              let typed : ip₁.type ≢ 0 = λ z. typed_lem sb ip s l (sym type ∙ z) in
              let stored = ilock-iupdate sb new s₁ fits typed in
              subst (λ r. ilock sb ip.inum r.1 ≡ some (r.0.1, r.1)) (some-injective _ _ (rw c at q))
                (subst (λ k. ilock sb k (iupdate sb new s₁) ≡ some (new, iupdate sb new s₁)) inum
                  stored)
          | inr c ↦
              let size : ip₁.size ≡ ip.size = ap (λ (r : Inode). r.size) g.evolved.fields in
              let inside : off + length src ≤ ip.size = ground arith in
              let reach = m.reached in
              let same : ip₁ ≡ ip =
                write_from_mapped (length src + 1) sb ip off src s v f bytes
                  (omega (arith, inside, reach)) (λ i lo hi. m.mapped i (omega (arith, hi, inside)))
                  e in
              subst (λ r. ilock sb ip.inum r.1 ≡ some (r.0.1, r.1)) (some-injective _ _ (rw c at q))
                (same_inode sb ip s s₁ (inode_block f g.evolved) l
                  ∙ ap (λ r. some (r, s₁)) (sym same))
        ]
