-- ===== src/Ufs2/Listing.antt =====
-- kern/ufs2.c: `ufs2_lookup` and `ufs2_readdir` see the same entries.
use openproninx.Base.{
  ℕ, zero, suc, ◌+◌, ◌-◌, ◌/◌, ◌≤◌, ◌<◌, ◌≡◌, inl, inr, refl, ap, ap₂, ◌∙◌, true, false, Bool-cases,
  ◌&&◌, Option, none, some, List, [], ◌∷◌, arith, ◌==◌, ltb, leb, length, min,
}
use mathlib.Core.Option.{some-injective}
use openproninx.BlockDev.{Disk}
use openproninx.Ufs2.{Volume, Inode, M}
use openproninx.Ufs2.Inodes.{read_inode}
use openproninx.Ufs2.Files
use openproninx.Ufs2.Directory.{
  dir_header_size, same_bytes, record_length, entry_length, entry_inode, entry_name, bad_record,
  Sought, absent, corrupt, hit, lookup_block, dir_count, dir_block_size, lookup_from, bad_name,
  not_directory, lookup_in, lookup, Listed, passed, broken, entry, readdir_block, readdir_from,
  readdir_in, readdir,
}

same_bytes_lem : (xs ys : List ℕ) → same_bytes xs ys ≡ true → xs ≡ ys
same_bytes_lem [] [] h = refl
same_bytes_lem [] (y ∷ ys) h = absurd (cc h)
same_bytes_lem (x ∷ xs) [] h = absurd (cc h)
same_bytes_lem (x ∷ xs) (y ∷ ys) h = elim (Bool-cases (x == y)) [
  | inl e ↦
      let same : x ≡ y = ground arith in ap₂ (λ a b. a ∷ b) same (same_bytes_lem xs ys (rw e at h))
  | inr e ↦ absurd (cc (rw e at h))
]

abbrev sought_inode : Sought → ℕ
sought_inode Sought.absent = 0
sought_inode Sought.corrupt = 0
sought_inode (Sought.hit n) = n

hit_injective : {m n : ℕ} → Sought.hit m ≡ Sought.hit n → m ≡ n
hit_injective h = ap sought_inode h

module _ (block : List ℕ) (to_read : ℕ) (name : List ℕ) (name_size : ℕ)
    (fits : length name < name_size) where
  -- A name that a block does not have: its entries are counted.
  absent-passed :
      (fuel o seen : ℕ)
      → lookup_block fuel block to_read name o ≡ Sought.absent
      → (after : ℕ) × ((seen ≤ after)
          × ((index : ℕ)
              → after ≤ index
              → readdir_block fuel block to_read index name_size seen o ≡ Listed.passed after))
  unfolding lookup_block readdir_block
  absent-passed zero o seen h = (seen, (omega arith, λ index le. refl))
  absent-passed (suc fuel) o seen h = elim (Bool-cases (ltb to_read (o + dir_header_size))) [
    | inl e ↦ (seen, (omega arith, λ index le. rw e refl))
    | inr e ↦ elim (Bool-cases (bad_record block to_read o)) [
      | inl b ↦ absurd (cc (rw (e, b) at h))
      | inr b ↦ elim (Bool-cases (entry_inode block o == 0)) [
        | inl z ↦
            let (after, (le, all)) =
              absent-passed fuel (o + record_length block o) seen (rw (e, b, z) at h) in
            (after, (le, λ index lt. rw (e, b, z) (all index lt)))
        | inr z ↦
            elim (Bool-cases (
              length name == entry_length block o
              && same_bytes (entry_name block o (entry_length block o)) name)) [
                | inl m ↦ absurd (cc (rw (e, b, z, m) at h))
                | inr m ↦
                    let (after, (le, all)) =
                      absent-passed fuel (o + record_length block o) (seen + 1)
                        (rw (e, b, z, m) at h) in
                    (
                      after,
                      (
                        omega arith,
                        λ index lt.
                            let other : (seen == index) ≡ false = ground arith in
                            rw (e, b, z, other) (all index lt),
                      ),
                    )
              ]
      ]
    ]
  ]

  -- A name that a block has is one of its entries.
  hit-entry :
      (fuel o seen : ℕ) {n : ℕ}
      → lookup_block fuel block to_read name o ≡ Sought.hit n
      → (index : ℕ) × ((seen ≤ index)
          × (readdir_block fuel block to_read index name_size seen o ≡ Listed.entry n name))
  unfolding lookup_block readdir_block
  hit-entry zero o seen h = absurd (cc h)
  hit-entry (suc fuel) o seen {n} h = elim (Bool-cases (ltb to_read (o + dir_header_size))) [
    | inl e ↦ absurd (cc (rw e at h))
    | inr e ↦ elim (Bool-cases (bad_record block to_read o)) [
      | inl b ↦ absurd (cc (rw (e, b) at h))
      | inr b ↦ elim (Bool-cases (entry_inode block o == 0)) [
        | inl z ↦
            let (index, (le, got)) =
              hit-entry fuel (o + record_length block o) seen (rw (e, b, z) at h) in
            (index, (le, rw (e, b, z) got))
        | inr z ↦
            elim (Bool-cases (
              length name == entry_length block o
              && same_bytes (entry_name block o (entry_length block o)) name)) [
                | inl m ↦
                    let self : (seen == seen) ≡ true = ground arith in
                    let inode : entry_inode block o ≡ n = hit_injective (rw (e, b, z, m) at h) in
                    (
                      seen,
                      (
                        omega arith,
                        rw (e, b, z, self) (ap₂ (λ i x. Listed.entry i x) inode (whole m)),
                      ),
                    )
                | inr m ↦
                    let (index, (le, got)) =
                      hit-entry fuel (o + record_length block o) (seen + 1)
                        (rw (e, b, z, m) at h) in
                    let other : (seen == index) ≡ false = ground arith in
                    (index, (omega arith, rw (e, b, z, other) got))
              ]
      ]
    ]
  ]
    where
      whole :
          length name == entry_length block o
              && same_bytes (entry_name block o (entry_length block o)) name
            ≡ true
          → entry_name block o (min (entry_length block o) (name_size - 1)) ≡ name
      whole m = elim (Bool-cases (length name == entry_length block o)) [
        | inl q ↦
            let same : length name ≡ entry_length block o = ground arith in
            let room : min (entry_length block o) (name_size - 1) ≡ entry_length block o =
              omega arith in
            ap (entry_name block o) room ∙ same_bytes_lem _ name (rw q at m)
        | inr q ↦ absurd (cc (rw q at m))
      ]

-- The same, for the loop over the blocks of the directory.
lookup_from-entry :
    (fuel : ℕ) (v : Volume) (directory : Inode) (name : List ℕ) (name_size seen offset : ℕ)
    (d : Disk) {n : ℕ} {d' : Disk}
    → length name < name_size
    → lookup_from fuel v directory name offset d ≡ (some n, d')
    → (index : ℕ) × ((seen ≤ index)
        × (readdir_from fuel v directory index name_size seen offset d ≡ (some (n, name), d')))
unfolding lookup_from readdir_from
lookup_from-entry zero v directory name name_size seen offset d fits h =
    absurd (cc (ap (λ (r : Option ℕ × Disk). r.0) h))
lookup_from-entry (suc fuel) v directory name name_size seen offset d {n} {d'} fits h =
    elim (Bool-cases (leb directory.size offset)) [
      | inl e ↦ absurd (cc (ap (λ (r : Option ℕ × Disk). r.0) (rw e at h)))
      | inr e ↦
          let (index, (le, got)) =
            in_block
              (λ seen' d1 q.
                lookup_from-entry fuel v directory name name_size seen' (offset + dir_block_size) d1
                  fits q)
              (Files.read v directory offset count d) refl (rw e at h) in
          (index, (le, rw e got))
    ]
  where
    count : ℕ
    count = dir_count directory.size offset

    rest : M ℕ
    rest = lookup_from fuel v directory name (offset + dir_block_size)

    list : ℕ → ℕ → M (ℕ × List ℕ)
    list index seen' = readdir_from fuel v directory index name_size seen' (offset + dir_block_size)

    decide : Sought → M ℕ
    decide o = elim o [
      | absent ↦ rest
      | corrupt ↦ (λ d1. (none, d1))
      | hit i ↦ (λ d1. (some i, d1))
    ]

    decide_entry : ℕ → Listed → M (ℕ × List ℕ)
    decide_entry index o = elim o [
      | passed seen' ↦ list index seen'
      | broken ↦ (λ d1. (none, d1))
      | entry i x ↦ (λ d1. (some (i, x), d1))
    ]

    Goal : List ℕ → Disk → Type 0
    Goal block d1 =
        (index : ℕ) × ((seen ≤ index)
          × (decide_entry index (readdir_block (count + 1) block count index name_size seen 0) d1
              ≡ (some (n, name), d')))

    sought :
        ((seen' : ℕ) (d1 : Disk)
          → rest d1 ≡ (some n, d')
          → (index : ℕ) × ((seen' ≤ index) × (list index seen' d1 ≡ (some (n, name), d'))))
        → (block : List ℕ) (d1 : Disk) (o : Sought)
        → lookup_block (count + 1) block count name 0 ≡ o
        → decide o d1 ≡ (some n, d')
        → Goal block d1
    sought rec block d1 Sought.absent q h1 =
        let (after, (le, all)) =
          absent-passed block count name name_size fits (count + 1) 0 seen q in
        let (index, (le', got)) = rec after d1 h1 in
        (index, (omega arith, ap (λ o. decide_entry index o d1) (all index le') ∙ got))
    sought rec block d1 Sought.corrupt q h1 = absurd (cc (ap (λ (r : Option ℕ × Disk). r.0) h1))
    sought rec block d1 (Sought.hit i) q h1 =
        let (index, (le, got)) = hit-entry block count name name_size fits (count + 1) 0 seen q in
        (
          index,
          (
            le,
            ap (λ o. decide_entry index o d1) got
                ∙ ap₂ (λ a b. (some (a, name), b))
                    (some-injective i n (ap (λ (r : Option ℕ × Disk). r.0) h1))
                    (ap (λ (r : Option ℕ × Disk). r.1) h1),
          ),
        )

    in_block :
        ((seen' : ℕ) (d1 : Disk)
          → rest d1 ≡ (some n, d')
          → (index : ℕ) × ((seen' ≤ index) × (list index seen' d1 ≡ (some (n, name), d'))))
        → (r : Option (List ℕ) × Disk) → Files.read v directory offset count d ≡ r
        → (elim r.0 as (λ _. Option ℕ × Disk) [
          | none ↦ (none, r.1)
          | some block ↦ decide (lookup_block (count + 1) block count name 0) r.1
        ])
          ≡ (some n, d')
        → (index : ℕ) × ((seen ≤ index)
            × ((elim r.0 as (λ _. Option (ℕ × List ℕ) × Disk) [
              | none ↦ (none, r.1)
              | some block ↦
                  decide_entry index
                    (readdir_block (count + 1) block count index name_size seen 0)
                    r.1
            ])
                ≡ (some (n, name), d')))
    in_block rec (none, d1) e q = absurd (cc (ap (λ (r : Option ℕ × Disk). r.0) q))
    in_block rec (some block, d1) e q =
        sought rec block d1 (lookup_block (count + 1) block count name 0) refl q

-- Where `ufs2_lookup` finds a name, some index of `ufs2_readdir` with a buffer that the name fits in gives the same
-- inode and the whole name.
pub lookup-readdir :
    (v : Volume) (directory_inode : ℕ) (name : List ℕ) (name_size : ℕ) (d : Disk) {n : ℕ}
    {d' : Disk}
    → length name < name_size
    → lookup v directory_inode name d ≡ (some n, d')
    → (index : ℕ) × (readdir v directory_inode index name_size d ≡ (some (n, name), d'))
unfolding lookup readdir
lookup-readdir v directory_inode name name_size d {n} {d'} fits h =
    elim (Bool-cases (bad_name name)) [
      | inl e ↦ absurd (cc (ap (λ (r : Option ℕ × Disk). r.0) (rw e at h)))
      | inr e ↦
          let buffer : (name_size == 0) ≡ false = ground arith in
          let (index, got) = go (read_inode v directory_inode d) refl (rw e at h) in
          (index, rw buffer got)
    ]
  where
    found_in :
        (directory : Inode) (d1 : Disk)
        → lookup_in v name directory d1 ≡ (some n, d')
        → (index : ℕ) × (readdir_in v index name_size directory d1 ≡ (some (n, name), d'))
    found_in directory d1 q = elim (Bool-cases (not_directory directory)) [
      | inl e ↦ absurd (cc (ap (λ (r : Option ℕ × Disk). r.0) (rw e at q)))
      | inr e ↦
          let (index, (_, got)) =
            lookup_from-entry (directory.size / dir_block_size + 2) v directory name name_size 0 0
              d1 fits (rw e at q) in
          (index, rw e got)
    ]

    go :
        (r : Option Inode × Disk)
        → read_inode v directory_inode d ≡ r
        → (elim r.0 as (λ _. Option ℕ × Disk) [
          | none ↦ (none, r.1)
          | some directory ↦ lookup_in v name directory r.1
        ])
          ≡ (some n, d')
        → (index : ℕ) × ((elim r.0 as (λ _. Option (ℕ × List ℕ) × Disk) [
          | none ↦ (none, r.1)
          | some directory ↦ readdir_in v index name_size directory r.1
        ])
            ≡ (some (n, name), d'))
    go (none, d1) e q = absurd (cc (ap (λ (r : Option ℕ × Disk). r.0) q))
    go (some directory, d1) e q = found_in directory d1 q
