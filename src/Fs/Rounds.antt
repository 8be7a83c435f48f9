-- ===== src/Fs/Rounds.antt =====
-- kern/fs.c: the loop of `writei` puts its bytes into the file.
use openproninx.Base.{
  ℕ, zero, suc, ◌+◌, ◌-◌, ◌*◌, ◌/◌, ◌%◌, ◌≤◌, ◌<◌, ◌≡◌, ◌≢◌, inl, inr, refl, ◌∙◌, sym, subst, false,
  Bool-cases, ◌&&◌, Option, none, some, List, arith, ◌==◌, ltb, leb, test_eq, get_or, length, take,
  drop, length-take, length-drop,
}
use mathlib.Core.Option.{some-injective}
use openproninx.Fs.{Store, Superblock, Inode, bsize, maxfile, bmap, chunk, put_block}
use openproninx.Fs.Files.{with_bytes, write_from}
use openproninx.Fs.Bitmap.{IsVolume}
use openproninx.Fs.Slots.{at, IsFile}
use openproninx.Fs.Grow.{Evolved, Evolved-refl, Evolved-trans, zero_cases}
use openproninx.Fs.Entry.{Found}
use openproninx.Fs.Bmap.{slot_of, bmap-Found}
use openproninx.Fs.Content.{content, Grown-content, slot_of-is_slot}
use openproninx.Fs.Spread.{get_or-drop, with_bytes_split, get_or-fits}
use openproninx.Fs.Put.{put_block-Evolved, put_block-content}

-- A file that got the bytes `src` at `off`.
pub record Spread (sb : Superblock) (ip : Inode) (s : Store) (off : ℕ) (src : List ℕ) (ip' : Inode)
    (s' : Store) : Type 0 where
  pub evolved : Evolved sb ip s ip' s'
  pub contents : (i : ℕ) → content s'.cache ip' i ≡ with_bytes (content s.cache ip) off src i
  pub mapped :
      (i : ℕ) → off ≤ i → i < off + length src → at s'.cache ip'.addrs (slot_of (i / bsize)) ≢ 0
  pub reached : length src ≢ 0 → off + length src ≤ maxfile * bsize

-- One round of the loop.
pub round_lem :
    (sb : Superblock) (ip : Inode) (off : ℕ) (src : List ℕ) (s : Store) {b : ℕ} {ip' : Inode}
    {s' : Store}
    → IsVolume sb s.cache
    → IsFile sb s.cache ip
    → ((k : ℕ) → get_or src k 0 < 256)
    → bmap sb ip (off / bsize) s ≡ some ((b, ip'), s')
    → Spread sb ip s off
        (take (chunk off (length src)) src)
        ip'
        (put_block b (with_bytes (s'.cache b) (off % bsize) (take (chunk off (length src)) src)) s')
round_lem sb ip off src s {b} {ip'} {s'} v f bytes h =
    let m = chunk off (length src) in
    let size = length-take m src in
    let part = take m src in
    let (inside, g) = bmap-Found sb ip (off / bsize) s v f h in
    let v' = g.grown.evolved.is_volume in
    let f' = g.grown.evolved.is_file in
    let fits : length part ≤ bsize - off % bsize = omega (arith, size) in
    let small = λ (k : ℕ). get_or-fits m src k bytes in
    let e = put_block-Evolved sb ip' s' b off part v' f' inside g.block g.there small fits in
    let c = put_block-content sb ip' s' b off part v' f' inside g.block g.there small fits in
    record {
      evolved = Evolved-trans g.grown.evolved e;
      contents = λ i. c i ∙ old_content g i;
      mapped = λ i lo hi z.
          let row : i / bsize ≡ off / bsize = omega arith in
          let n : at s'.cache ip'.addrs (slot_of (off / bsize)) ≢ 0 =
            λ z. g.there (sym g.block ∙ z) in
          n (
            sym (e.kept (slot_of (off / bsize)) (slot_of-is_slot (off / bsize) inside) n)
            ∙ (rw (sym row) z));
      reached = λ _. omega arith;
    }
  where
    old_content :
        Found sb ip s (slot_of (off / bsize)) b ip' s'
        → (i : ℕ)
        → with_bytes (content s'.cache ip') off (take (chunk off (length src)) src) i
          ≡ with_bytes (content s.cache ip) off (take (chunk off (length src)) src) i
    old_content g i = rw (Grown-content g.grown i) refl

-- A round and the rest.
Spread-trans :
    {sb : Superblock} {ip ip' ip'' : Inode} {s s' s'' : Store} (off m : ℕ) (src : List ℕ)
    → m ≤ length src
    → Spread sb ip s off (take m src) ip' s'
    → Spread sb ip' s' (off + m) (drop m src) ip'' s''
    → Spread sb ip s off src ip'' s''
Spread-trans {ip} {ip'} {ip''} {s} {s'} {s''} off m src h g k =
    let low = length-take m src in
    let high = length-drop m src in
    let size : length (take m src) ≡ m = omega (arith, low) in
    record {
      evolved = Evolved-trans g.evolved k.evolved;
      contents = λ i. k.contents i ∙ first i ∙ with_bytes_split (content s.cache ip) off m src i h;
      mapped = λ i lo hi. elim (Bool-cases (ltb i (off + m))) [
        | inr e ↦ k.mapped i (ground arith) (omega (arith, high))
        | inl e ↦
            let near : i < off + m = ground arith in
            let there = g.mapped i lo (omega (arith, size, near)) in
            let reach = g.reached (λ z. absurd (omega (arith, size, near, lo, z))) in
            let inside : i / bsize < maxfile = omega (arith, size, near, reach) in
            (λ z. there (
              sym (k.evolved.kept (slot_of (i / bsize)) (slot_of-is_slot (i / bsize) inside) there)
              ∙ z))
      ];
      reached = λ n. elim (zero_cases (length (drop m src))) [
        | inr p ↦ let q = k.reached p in omega (arith, high, q)
        | inl z ↦
            let q = g.reached (λ y. n (omega (arith, y, z, low, high))) in
            omega (arith, low, high, z, q)
      ];
    }
  where
    first :
        (i : ℕ)
        → with_bytes (content s'.cache ip') (off + m) (drop m src) i
          ≡ with_bytes (with_bytes (content s.cache ip) off (take m src)) (off + m) (drop m src) i
    first i = rw (g.contents i) refl

pub write_from-Spread :
    (fuel : ℕ) (sb : Superblock) (ip : Inode) (off : ℕ) (src : List ℕ) (s : Store)
    {r : Inode × Store}
    → IsVolume sb s.cache
    → IsFile sb s.cache ip
    → ((k : ℕ) → get_or src k 0 < 256)
    → write_from fuel sb ip off src s ≡ some r
    → Spread sb ip s off src r.0 r.1
unfolding write_from
write_from-Spread zero sb ip off src s v f bytes h = absurd (cc h)
write_from-Spread (suc fuel) sb ip off src s {r} v f bytes h = elim (Bool-cases (length src == 0)) [
  | inl e ↦
      subst (λ r. Spread sb ip s off src r.0 r.1) (some-injective _ _ (rw e at h))
        (nothing (test_eq e))
  | inr e ↦
      go
        (λ ip₁ s₁ r v₁ f₁ bytes₁.
          write_from-Spread fuel sb ip₁ (off + chunk off (length src))
            (drop (chunk off (length src)) src) s₁ {r = r} v₁ f₁ bytes₁)
        (bmap sb ip (off / bsize) s) refl (rw e at h)
]
  where
    nothing : length src ≡ 0 → Spread sb ip s off src ip s
    nothing z = record {
      evolved = Evolved-refl sb ip s v f;
      contents = λ i.
          let out : leb off i && ltb (i - off) (length src) ≡ false = ground arith in rw out refl;
      mapped = λ i lo hi. absurd (omega (arith, z, lo, hi));
      reached = λ n. absurd (n z);
    }

    go :
        ((ip₁ : Inode) (s₁ : Store) (r : Inode × Store)
          → IsVolume sb s₁.cache
          → IsFile sb s₁.cache ip₁
          → ((k : ℕ) → get_or (drop (chunk off (length src)) src) k 0 < 256)
          → write_from fuel sb ip₁
              (off + chunk off (length src))
              (drop (chunk off (length src)) src)
              s₁
            ≡ some r
          → Spread sb ip₁ s₁
              (off + chunk off (length src))
              (drop (chunk off (length src)) src)
              r.0
              r.1)
        → (o : Option ((ℕ × Inode) × Store)) → bmap sb ip (off / bsize) s ≡ o
        → (elim o as (λ _. Option (Inode × Store)) [
          | none ↦ none
          | some ((b, ip'), s') ↦
              write_from fuel sb ip'
                (off + chunk off (length src))
                (drop (chunk off (length src)) src)
                (put_block b
                  (with_bytes (s'.cache b) (off % bsize) (take (chunk off (length src)) src))
                  s')
        ])
          ≡ some r
        → Spread sb ip s off src r.0 r.1
    go rec none w q = absurd (cc q)
    go rec (some ((b, ip'), s')) w q =
        let m = chunk off (length src) in
        let g = round_lem sb ip off src s v f bytes w in
        let later =
          rec ip' _ r g.evolved.is_volume g.evolved.is_file
            (λ k. rw (get_or-drop m src k) (bytes (m + k))) q in
        Spread-trans off m src (omega arith) g later
