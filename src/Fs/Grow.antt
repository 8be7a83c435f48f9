-- ===== src/Fs/Grow.antt =====
-- kern/fs.c: what allocating blocks for a file may change.
use openproninx.Base.{
  ℕ, zero, suc, ◌<◌, ◌≡◌, ◌≢◌, ◌⊎◌, inl, inr, refl, ap, ◌∙◌, sym, true, false, Bool-cases, List,
  arith,
}
use openproninx.Fs.{Store, Superblock, Inode, bblock}
use openproninx.Fs.Bitmap.{used, IsVolume}
use openproninx.Fs.Slots.{Slot, at, is_pointer, is_slot, IsFile, value}

-- From one state of the volume and the inode to another: the file may have got blocks, and only
-- its own blocks and the map have changed.
pub record Evolved (sb : Superblock) (ip : Inode) (s : Store) (ip' : Inode) (s' : Store)
    : Type 0 where
  pub is_volume : IsVolume sb s'.cache
  pub is_file : IsFile sb s'.cache ip'
  pub fields : ip' ≡ record ip { addrs = ip'.addrs }
  pub kept :
      (x : Slot)
      → is_slot x ≡ true
      → at s.cache ip.addrs x ≢ 0
      → at s'.cache ip'.addrs x ≡ at s.cache ip.addrs x
  pub fresh :
      (x : Slot)
      → is_slot x ≡ true
      → at s.cache ip.addrs x ≡ 0
      → at s'.cache ip'.addrs x ≢ 0
      → used sb s.cache (at s'.cache ip'.addrs x) ≡ false
  pub still_used : (b : ℕ) → b < sb.size → used sb s.cache b ≡ true → used sb s'.cache b ≡ true
  pub others :
      (b i : ℕ)
      → b < sb.size
      → used sb s.cache b ≡ true
      → ((k : ℕ) → k < sb.size → b ≢ bblock sb k)
      → ((x : Slot) → is_slot x ≡ true → at s.cache ip.addrs x ≢ b)
      → s'.cache b i ≡ s.cache b i

-- The file has got blocks at most, and reads as before.
pub record Grown (sb : Superblock) (ip : Inode) (s : Store) (ip' : Inode) (s' : Store)
    : Type 0 where
  pub evolved : Evolved sb ip s ip' s'
  pub values :
      (x : Slot) (i : ℕ)
      → is_slot x ≡ true
      → is_pointer x ≡ false
      → value s'.cache ip'.addrs x i ≡ value s.cache ip.addrs x i

pub zero_cases : (n : ℕ) → (n ≡ 0) ⊎ (n ≢ 0)
zero_cases zero = inl refl
zero_cases (suc n) = inr (λ e. absurd (omega arith))

readdress : List ℕ → Inode → Inode
readdress l r = record r { addrs = l }

pub Evolved-refl :
    (sb : Superblock) (ip : Inode) (s : Store)
    → IsVolume sb s.cache
    → IsFile sb s.cache ip
    → Evolved sb ip s ip s
Evolved-refl sb ip s v f = record {
  is_volume = v;
  is_file = f;
  fields = refl;
  kept = λ x _ _. refl;
  fresh = λ x _ z n. absurd (n z);
  still_used = λ b _ u. u;
  others = λ b i _ _ _ _. refl;
}

pub Grown-refl :
    (sb : Superblock) (ip : Inode) (s : Store)
    → IsVolume sb s.cache
    → IsFile sb s.cache ip
    → Grown sb ip s ip s
Grown-refl sb ip s v f = record { evolved = Evolved-refl sb ip s v f; values = λ x i _ _. refl }

pub Evolved-trans :
    {sb : Superblock} {ip ip' ip'' : Inode} {s s' s'' : Store}
    → Evolved sb ip s ip' s'
    → Evolved sb ip' s' ip'' s''
    → Evolved sb ip s ip'' s''
unfolding readdress
Evolved-trans {sb} {ip} {ip'} {ip''} {s} {s'} {s''} g h = record {
  is_volume = h.is_volume;
  is_file = h.is_file;
  fields = h.fields ∙ ap (readdress ip''.addrs) g.fields;
  kept = λ x sx n. h.kept x sx (λ z. n (sym (g.kept x sx n) ∙ z)) ∙ g.kept x sx n;
  fresh = λ x sx z n. elim (zero_cases (at s'.cache ip'.addrs x)) [
    | inl z' ↦ elim (Bool-cases (used sb s.cache (at s''.cache ip''.addrs x))) [
      | inr free ↦ free
      | inl u ↦
          absurd (cc (sym (h.fresh x sx z' n) ∙ g.still_used _ (h.is_file.owned x sx n).below u))
    ]
    | inr n' ↦ ap (used sb s.cache) (h.kept x sx n') ∙ g.fresh x sx z n'
  ];
  still_used = λ b lt u. h.still_used b lt (g.still_used b lt u);
  others = λ b i lt u m n.
      h.others b i lt (g.still_used b lt u) m (λ x sx e. elim (zero_cases (at s.cache ip.addrs x)) [
        | inr k ↦ n x sx (sym (g.kept x sx k) ∙ e)
        | inl z ↦ elim (zero_cases (at s'.cache ip'.addrs x)) [
          | inr k ↦ absurd (cc (sym u ∙ ap (used sb s.cache) (sym e) ∙ g.fresh x sx z k))
          | inl k ↦ n x sx (z ∙ sym k ∙ e)
        ]
      ])
      ∙ g.others b i lt u m n;
}

pub Grown-trans :
    {sb : Superblock} {ip ip' ip'' : Inode} {s s' s'' : Store}
    → Grown sb ip s ip' s'
    → Grown sb ip' s' ip'' s''
    → Grown sb ip s ip'' s''
Grown-trans g h = record {
  evolved = Evolved-trans g.evolved h.evolved;
  values = λ x i sx px. h.values x i sx px ∙ g.values x i sx px;
}
