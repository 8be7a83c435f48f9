-- ===== src/Fs/Returns.antt =====
-- kern/fs.c: with enough free blocks, `bmap` and `writei` return.
use openproninx.Base.{
  ℕ, zero, suc, ◌+◌, ◌-◌, ◌*◌, ◌/◌, ◌%◌, ◌≤◌, ◌<◌, ◌≡◌, ◌≢◌, inl, inr, refl, ap, ◌∙◌, sym, subst,
  true, false, Bool-cases, not, ◌&&◌, ◌||◌, Option, some, List, arith, ◌==◌, ltb, leb,
  if◌then◌else◌, test_ne, ne_test, u32_mod, get_or, length, take, drop, length-drop,
}
use openproninx.Fs.{
  Store, Superblock, Inode, bsize, bblock, ndirect, nindirect, maxfile, bmap, chunk, put_block,
  address_of, entry_of, bmap_single, bmap_double, ◌>>=◌, pure,
}
use openproninx.Fs.Files.{with_bytes, write_from, writei}
use openproninx.Fs.Inodes.{iupdate}
use openproninx.Fs.Bitmap.{used, IsVolume, put_block-used}
use openproninx.Fs.Slots.{Slot, top, at, is_slot, IsFile}
use openproninx.Fs.Entry.{Found, address_of-Found, entry_of-Found}
use openproninx.Fs.Bmap.{bmap-Found}
use openproninx.Fs.Content.{slot_of-is_slot}
use openproninx.Fs.Spread.{get_or-drop}
use openproninx.Fs.Rounds.{round_lem}
use openproninx.Fs.Mapped.{bind_done}
use openproninx.Fs.Room.{room, Returns, address_of-Returns, entry_of-Returns, count_cong}
use openproninx.Fs.Write.{accepts, Wrote, writei-Wrote}

-- The block of a slot that was found is not of the map.
Found-not_map :
    {sb : Superblock} {ip ip' : Inode} {s s' : Store} {x : Slot} {b : ℕ}
    → Found sb ip s x b ip' s'
    → is_slot x ≡ true
    → (k : ℕ) → k < sb.size
    → b ≢ bblock sb k
Found-not_map {ip'} {s'} {x} {b} g sx k lt e =
    let there : at s'.cache ip'.addrs x ≢ 0 = λ z. g.there (sym g.block ∙ z) in
    (g.grown.evolved.is_file.owned x sx there).not_map k lt (g.block ∙ e)

single_Returns :
    (sb : Superblock) (ip : Inode) (j : ℕ) (s : Store)
    → IsVolume sb s.cache
    → IsFile sb s.cache ip
    → 3 ≤ room sb s.cache
    → Returns sb 3 (bmap_single sb ip j) s
single_Returns sb ip j s v f h =
    let ((i, ip₁), t, e, r) = address_of-Returns sb ndirect ip s v (omega (arith, h)) in
    let g = address_of-Found sb ndirect ip s v f refl e in
    let (a, u, e', r') =
      entry_of-Returns sb i j t g.grown.evolved.is_volume (Found-not_map g refl)
        (omega (arith, h, r)) in
    (
      (a, ip₁),
      u,
      bind_done {B = ℕ × Inode} (address_of sb ndirect ip)
            (λ p. entry_of sb p.0 j >>= λ a. pure (a, p.1)) s e
          ∙ bind_done {B = ℕ × Inode} (entry_of sb i j) (λ a. pure (a, ip₁)) t e',
      omega (arith, r, r'),
    )

double_Returns :
    (sb : Superblock) (ip : Inode) (k j : ℕ) (s : Store)
    → IsVolume sb s.cache
    → IsFile sb s.cache ip
    → ltb k nindirect ≡ true
    → 3 ≤ room sb s.cache
    → Returns sb 3 (bmap_double sb ip k j) s
double_Returns sb ip k j s v f kt h =
    let ((i, ip₁), t, e, r) = address_of-Returns sb (ndirect + 1) ip s v (omega (arith, h)) in
    let g = address_of-Found sb (ndirect + 1) ip s v f refl e in
    let v₁ = g.grown.evolved.is_volume in
    let (m, w, e₁, r₁) =
      entry_of-Returns sb i k t v₁ (Found-not_map g refl) (omega (arith, h, r)) in
    let there : at t.cache ip₁.addrs (top (ndirect + 1)) ≢ 0 = λ z. g.there (sym g.block ∙ z) in
    let g₁ =
      entry_of-Found sb (top (ndirect + 1)) k ip₁ t v₁ g.grown.evolved.is_file (rw kt refl) there
        (ap (λ n. entry_of sb n k t) g.block ∙ e₁) in
    let (a, u, e₂, r₂) =
      entry_of-Returns sb m j w g₁.grown.evolved.is_volume (Found-not_map g₁ (rw kt refl))
        (omega (arith, h, r, r₁)) in
    (
      (a, ip₁),
      u,
      bind_done {B = ℕ × Inode} (address_of sb (ndirect + 1) ip)
            (λ p. entry_of sb p.0 k >>= λ b. entry_of sb b j >>= λ a. pure (a, p.1)) s e
          ∙ bind_done {B = ℕ × Inode} (entry_of sb i k)
              (λ b. entry_of sb b j >>= λ a. pure (a, ip₁)) t e₁
          ∙ bind_done {B = ℕ × Inode} (entry_of sb m j) (λ a. pure (a, ip₁)) w e₂,
      omega (arith, r, r₁, r₂),
    )

pub bmap-Returns :
    (sb : Superblock) (ip : Inode) (bn : ℕ) (s : Store)
    → IsVolume sb s.cache
    → IsFile sb s.cache ip
    → bn < maxfile
    → 3 ≤ room sb s.cache
    → Returns sb 3 (bmap sb ip bn) s
unfolding bmap
bmap-Returns sb ip bn s v f lt h = elim (Bool-cases (ltb bn ndirect)) [
  | inl e ↦
      let (a, t, q, r) = address_of-Returns sb bn ip s v (omega (arith, h)) in
      (a, t, rw (e, q) refl, omega (arith, r))
  | inr e ↦ elim (Bool-cases (ltb (bn - ndirect) nindirect)) [
    | inl e₁ ↦
        let (a, t, q, r) = single_Returns sb ip (bn - ndirect) s v f h in (a, t, rw (e, e₁) q, r)
    | inr e₁ ↦
        let far : ltb (bn - ndirect - nindirect) (nindirect * nindirect) ≡ true = ground arith in
        let row : ltb ((bn - ndirect - nindirect) / nindirect) nindirect ≡ true = ground arith in
        let (a, t, q, r) =
          double_Returns sb ip ((bn - ndirect - nindirect) / nindirect)
            ((bn - ndirect - nindirect) % nindirect) s v f row h in
        (a, t, rw (e, e₁, far) q, r)
  ]
]

-- The number of rounds of a write.
abbrev pub writei_rounds : ℕ → ℕ → ℕ
writei_rounds off n = if n == 0 then 0 else (off % bsize + n + 511) / bsize

writei_rounds_pos : (off n : ℕ) → n ≢ 0 → 0 < writei_rounds off n
writei_rounds_pos off n h = rw (ne_test h) (omega (arith, h))

writei_rounds_step :
    (off n : ℕ)
    → n ≢ 0
    → writei_rounds (off + chunk off n) (n - chunk off n) + 1 ≤ writei_rounds off n
writei_rounds_step off n h = elim (Bool-cases (n - chunk off n == 0)) [
  | inl e ↦ rw (e, ne_test h) (omega (arith, h))
  | inr e ↦ let more = test_ne e in rw (e, ne_test h) (omega (arith, h, more))
]

pub write_round :
    (fuel : ℕ) (sb : Superblock) (ip : Inode) (off : ℕ) (src : List ℕ) (s : Store) {b : ℕ}
    {ip' : Inode} {s' : Store}
    → (length src == 0) ≡ false
    → bmap sb ip (off / bsize) s ≡ some ((b, ip'), s')
    → write_from (suc fuel) sb ip off src s
      ≡ write_from fuel sb ip' (off + chunk off (length src)) (drop (chunk off (length src)) src) (
          put_block b
            (with_bytes (s'.cache b) (off % bsize) (take (chunk off (length src)) src))
            s')
unfolding write_from
write_round fuel sb ip off src s e q = rw (e, q) refl

write_from_returns :
    (fuel : ℕ) (sb : Superblock) (ip : Inode) (off : ℕ) (src : List ℕ) (s : Store)
    → IsVolume sb s.cache
    → IsFile sb s.cache ip
    → ((k : ℕ) → get_or src k 0 < 256)
    → length src < fuel
    → off + length src ≤ maxfile * bsize
    → 3 * writei_rounds off (length src) ≤ room sb s.cache
    → (r : Inode × Store) × (write_from fuel sb ip off src s ≡ some r)
unfolding write_from
write_from_returns zero sb ip off src s v f bytes lt reach h = absurd (omega (arith, lt))
write_from_returns (suc fuel) sb ip off src s v f bytes lt reach h =
    elim (Bool-cases (length src == 0)) [
      | inl e ↦ ((ip, s), rw e refl)
      | inr e ↦
          let pos = test_ne e in
          let m = chunk off (length src) in
          let ((b, ip₁), s₁, q, r) =
            bmap-Returns sb ip (off / bsize) s v f (omega (arith, pos, reach))
              (omega (arith, h, writei_rounds_pos off (length src) pos)) in
          let g = round_lem sb ip off src s v f bytes q in
          let high = length-drop m src in
          let (_, found) = bmap-Found sb ip (off / bsize) s v f q in
          let put = with_bytes (s₁.cache b) (off % bsize) (take m src) in
          let same =
            count_cong sb.size (λ k. not (used sb (put_block b put s₁).cache k))
              (λ k. not (used sb s₁.cache k))
              (λ k lt. ap not (
                put_block-used sb s₁ b put
                  (Found-not_map found (slot_of-is_slot (off / bsize) (omega (arith, pos, reach))))
                  k lt)) in
          let fewer = writei_rounds_step off (length src) pos in
          let (r', q') =
            write_from_returns fuel sb ip₁ (off + m) (drop m src) (put_block b put s₁)
              g.evolved.is_volume g.evolved.is_file (λ k. rw (get_or-drop m src k) (bytes (m + k)))
              (omega (arith, high, pos, lt)) (omega (arith, high, pos, reach))
              (subst (λ n. 3 * writei_rounds (off + m) n ≤ room sb (put_block b put s₁).cache)
                (sym high) (omega (arith, fewer, h, r, same))) in
          (r', write_round fuel sb ip off src s e q ∙ q')
    ]

-- `writei` within its bounds runs to its end; what it gives is `Wrote`. The log is left to Fs/Transaction.
pub writei_ends :
    (sb : Superblock) (ip : Inode) (off : ℕ) (src : List ℕ) (s : Store)
    → IsVolume sb s.cache
    → IsFile sb s.cache ip
    → ((k : ℕ) → get_or src k 0 < 256)
    → accepts ip off (length src) ≡ true
    → 3 * writei_rounds off (length src) ≤ room sb s.cache
    → (ip' : Inode) × (s' : Store) × (writei sb ip off src s ≡ some ((some (length src), ip'), s'))
      × Wrote sb ip s off src ip' s'
unfolding writei
writei_ends sb ip off src s v f bytes ok h =
    let (((o, ip'), s'), q) = returned in
    let (e, w) = writei-Wrote sb ip off src s v f bytes ok q in
    (ip', s', q ∙ ap (λ o. some ((o, ip'), s')) e, w)
  where
    returned : (r : (Option ℕ × Inode) × Store) × (writei sb ip off src s ≡ some r)
    returned =
        let inside : off + length src ≤ maxfile * bsize = ground arith in
        let fine : ltb ip.size off
              || (leb u32_mod (off + length src) || ltb (maxfile * bsize) (off + length src))
            ≡ false =
          ground arith in
        let ((ip₁, s₁), q) =
          write_from_returns (length src + 1) sb ip off src s v f bytes (omega arith) inside h in
        elim (Bool-cases (not (length src == 0) && ltb ip₁.size (off + length src))) [
          | inl e ↦ (
            (
              (some (length src), record ip₁ { size = off + length src }),
              iupdate sb (record ip₁ { size = off + length src }) s₁,
            ),
            rw (fine, q, e) refl,
          )
          | inr e ↦ (((some (length src), ip₁), s₁), rw (fine, q, e) refl)
        ]
