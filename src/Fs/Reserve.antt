-- ===== src/Fs/Reserve.antt =====
-- kern/fs.c: a short write fits in the room that a system call reserves in the log.
use openproninx.Base.{
  ℕ, zero, suc, ◌+◌, ◌-◌, ◌*◌, ◌/◌, ◌%◌, ◌≤◌, ◌<◌, ◌≡◌, ◌≢◌, ◌⊎◌, inl, inr, refl, ap, ◌∙◌, sym,
  subst, Bool, true, Bool-cases, not, ◌&&◌, ◌||◌, Option, none, some, List, [], ◌∷◌, arith, ◌==◌,
  ltb, leb, if◌then◌else◌, eq_test, test_eq, test_ne, u32_mod, get_or, length, take, drop,
  length-take, length-drop,
}
use mathlib.Core.Option.{some-injective}
use openproninx.Fs.{Store, Superblock, Inode, bsize, bpb, maxfile, bmap, chunk, put_block}
use openproninx.Fs.Files.{with_bytes, write_from, writei}
use openproninx.Fs.Inodes.{iblock, iupdate}
use openproninx.Fs.Bitmap.{IsVolume}
use openproninx.Fs.Slots.{Slot, IsFile}
use openproninx.Fs.Bmap.{slot_of, bmap-Found}
use openproninx.Fs.Content.{slot_of-is_slot}
use openproninx.Fs.Rounds.{write_from-Spread}
use openproninx.Fs.Spread.{get_or-drop}
use openproninx.Fs.Budget.{logged, up, up_self, or_cases, Touched, Logs, kept-Touched, Logs-trans}
use openproninx.Fs.BmapBudget.{bmap-Logs}
use openproninx.Fs.Spread.{get_or-fits}
use openproninx.Fs.Put.{put_block-Evolved}
use openproninx.Log.{max_op_blocks}
use openproninx.Log.Calls.{op_blocks}
use openproninx.Fs.Nearby.{in_slots, near, or_right, near-up, blocks_of, in_blocks, blocks_above}

write_from-Logs :
    (fuel : ℕ) (sb : Superblock) (q : Slot → Bool) (ip : Inode) (off : ℕ) (src : List ℕ) (s : Store)
    {r : Inode × Store}
    → IsVolume sb s.cache
    → IsFile sb s.cache ip
    → sb.size ≤ bpb
    → ((k : ℕ) → get_or src k 0 < 256)
    → ((i : ℕ) → off ≤ i → i < off + length src → up q (slot_of (i / bsize)) ≡ true)
    → write_from fuel sb ip off src s ≡ some r
    → Logs sb q s r.0 r.1
unfolding write_from Logs
write_from-Logs zero sb q ip off src s v f small bytes qs h = absurd (cc h)
write_from-Logs (suc fuel) sb q ip off src s {r} v f small bytes qs h =
    elim (Bool-cases (length src == 0)) [
      | inl e ↦ subst (λ r. Logs sb q s r.0 r.1) (some-injective _ _ (rw e at h)) (λ k w. inl w)
      | inr e ↦
          let pos = test_ne e in
          let c = chunk off (length src) in
          go pos
            (λ ip₁ s₁ v₁ f₁ g.
              write_from-Logs fuel sb q ip₁ (off + c) (drop c src) s₁ {r = r} v₁ f₁ small
                (λ k. rw (get_or-drop c src k) (bytes (c + k)))
                (λ i lo hi.
                  let high = length-drop c src in
                  qs i (omega (arith, lo)) (omega (arith, hi, high)))
                g)
            (bmap sb ip (off / bsize) s) refl (rw e at h)
    ]
  where
    go :
        length src ≢ 0
        → ((ip₁ : Inode) (s₁ : Store)
            → IsVolume sb s₁.cache
            → IsFile sb s₁.cache ip₁
            → write_from fuel sb ip₁
                (off + chunk off (length src))
                (drop (chunk off (length src)) src)
                s₁
              ≡ some r
            → Logs sb q s₁ r.0 r.1)
        → (o : Option ((ℕ × Inode) × Store)) → bmap sb ip (off / bsize) s ≡ o
        → (elim o as (λ _. Option (Inode × Store)) [
          | none ↦ none
          | some ((b, ip'), s') ↦
              write_from fuel sb ip'
                (off + chunk off (length src))
                (drop (chunk off (length src)) src)
                (put_block b
                  (with_bytes (s'.cache b) (off % bsize) (take (chunk off (length src)) src))
                  s')
        ])
          ≡ some r
        → Logs sb q s r.0 r.1
    go pos rec none w h = absurd (cc h)
    go pos rec (some ((b, ip'), s')) w h =
        let c = chunk off (length src) in
        let part = take c src in
        let low = length-take c src in
        let (inside, found) = bmap-Found sb ip (off / bsize) s v f w in
        let v' = found.grown.evolved.is_volume in
        let f' = found.grown.evolved.is_file in
        let qx = qs off (omega arith) (omega (arith, pos)) in
        let first = bmap-Logs sb q ip (off / bsize) s v f small qx w in
        let put =
          put_block-Evolved sb ip' s' b off part v' f' inside found.block found.there
            (λ k. get_or-fits c src k bytes) (omega (arith, low)) in
        let after = put_block b (with_bytes (s'.cache b) (off % bsize) part) s' in
        let later =
          write_from-Spread fuel sb ip' (off + c) (drop c src) after put.is_volume put.is_file
            (λ k. rw (get_or-drop c src k) (bytes (c + k))) h in
        let block : Logs sb q s' ip' after = λ k l. elim (or_cases (b == k) _ l) [
          | inl e ↦
              let here = test_eq e in
              let x = slot_of (off / bsize) in
              let touched : Touched sb q ip' s' k = inr (
                x,
                up_self q x qx,
                slot_of-is_slot (off / bsize) inside,
                (λ z. found.there (here ∙ z)),
                found.block ∙ here,
              ) in
              inr (kept-Touched put touched)
          | inr l' ↦ inl l'
        ] in
        Logs-trans sb q s later.evolved (Logs-trans sb q s put first block)
          (rec ip' after put.is_volume put.is_file h)

-- `writei` from any record of what was logged before.
pub writei_logged :
    (sb : Superblock) (ip : Inode) (off : ℕ) (src : List ℕ) (s : Store) {o : Option ℕ} {ip' : Inode}
    {s' : Store}
    → IsVolume sb s.cache
    → IsFile sb s.cache ip
    → sb.size ≤ bpb
    → ((k : ℕ) → get_or src k 0 < 256)
    → length src ≤ 3 * bsize
    → writei sb ip off src s ≡ some ((o, ip'), s')
    → (l : List ℕ) × (length l ≤ op_blocks)
      × ((k : ℕ) → (logged k s'.logged ≡ true) → (logged k s.logged ≡ true) ⊎ (logged k l ≡ true))
unfolding writei iupdate Logs
writei_logged sb ip off src s {o} {ip'} {s'} v f small bytes short h =
    elim (Bool-cases (
      ltb ip.size off
      || (leb u32_mod (off + length src) || ltb (maxfile * bsize) (off + length src)))) [
        | inl e ↦ (
          [],
          omega arith,
          λ k w. inl (ap (λ r. logged k r.1.logged) (some-injective _ _ (rw e at h)) ∙ w),
        )
        | inr e ↦ go (write_from (length src + 1) sb ip off src s) refl (rw e at h)
      ]
  where
    go :
        (r : Option (Inode × Store))
        → write_from (length src + 1) sb ip off src s ≡ r
        → (elim r as (λ _. Option ((Option ℕ × Inode) × Store)) [
          | none ↦ none
          | some (ip', s') ↦
              if not (length src == 0) && ltb ip'.size (off + length src)
              then some (
                (some (length src), record ip' { size = off + length src }),
                iupdate sb (record ip' { size = off + length src }) s',
              )
              else some ((some (length src), ip'), s')
        ])
          ≡ some ((o, ip'), s')
        → (l : List ℕ) × (length l ≤ op_blocks)
          × ((k : ℕ)
              → (logged k s'.logged ≡ true)
              → (logged k s.logged ≡ true) ⊎ (logged k l ≡ true))
    go none w q = absurd (cc q)
    go (some (ip₁, s₁)) w q =
        let bn = off / bsize in
        let l = iblock sb ip₁.inum ∷ sb.bmapstart ∷ blocks_of s₁ ip₁ (near bn) in
        let few = blocks_above s₁ ip₁ bn in
        let logs =
          write_from-Logs (length src + 1) sb (λ x. in_slots x (near bn)) ip off src s v f small
            bytes
            (λ i lo hi.
              let place : i / bsize ≡ bn + (i / bsize - bn) = omega (arith, lo) in
              subst (λ m. up (λ x. in_slots x (near bn)) (slot_of m) ≡ true) (sym place)
                (near-up bn (i / bsize - bn) (omega (arith, lo, hi, short))))
            w in
        let loop : (k : ℕ)
            → logged k s₁.logged ≡ true
            → (logged k s.logged ≡ true) ⊎ (logged k l ≡ true) =
          λ k g. elim (logs k g) [
            | inl old ↦ inl old
            | inr (inl map) ↦ inr (or_right (iblock sb ip₁.inum == k) (rw (eq_test (sym map)) refl))
            | inr (inr (x, qx, _, _, here)) ↦ inr (
                or_right (iblock sb ip₁.inum == k) (
                  or_right (sb.bmapstart == k) (
                    subst (λ b. logged b (blocks_of s₁ ip₁ (near bn)) ≡ true) here
                      (in_blocks s₁ ip₁ x (near bn) qx))))
          ] in
        elim (Bool-cases (not (length src == 0) && ltb ip₁.size (off + length src))) [
          | inr c ↦ (
            l,
            omega (arith, few),
            λ k g. loop k (ap (λ r. logged k r.1.logged) (some-injective _ _ (rw c at q)) ∙ g),
          )
          | inl c ↦ (
            l,
            omega (arith, few),
            λ k g.
                elim (or_cases (iblock sb ip₁.inum == k) _
                  (ap (λ r. logged k r.1.logged) (some-injective _ _ (rw c at q)) ∙ g)) [
                    | inl e ↦ inr (rw e refl)
                    | inr g' ↦ loop k g'
                  ],
          )
        ]

-- `writei` into a sound file, of at most the 1536 bytes that `filewrite` gives it between `begin_op`
-- and `end_op`, with nothing logged before, on a sound volume with one block of the map: at most
-- `MAXOPBLOCKS` block numbers, as many as `begin_op` reserved, contain each number that it calls
-- `log_write` with.
pub writei-max_op_blocks :
    (sb : Superblock) (ip : Inode) (off : ℕ) (src : List ℕ) (s : Store) {o : Option ℕ} {ip' : Inode}
    {s' : Store}
    → IsVolume sb s.cache
    → IsFile sb s.cache ip
    → sb.size ≤ bpb
    → ((k : ℕ) → get_or src k 0 < 256)
    → length src ≤ 3 * bsize
    → s.logged ≡ []
    → writei sb ip off src s ≡ some ((o, ip'), s')
    → (l : List ℕ) × (length l ≤ max_op_blocks)
      × ((k : ℕ) → not (logged k s'.logged) || logged k l ≡ true)
writei-max_op_blocks sb ip off src s {o} {ip'} {s'} v f small bytes short fresh h =
    let (l, few, all) = writei_logged sb ip off src s v f small bytes short h in
    (
      l,
      omega (arith, few),
      λ k. elim (Bool-cases (logged k s'.logged)) [
        | inr e ↦ rw e refl
        | inl e ↦ elim (all k e) [
          | inl old ↦ absurd (cc (sym old ∙ ap (logged k) fresh))
          | inr new ↦ rw e new
        ]
      ],
    )
