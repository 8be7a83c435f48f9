-- ===== src/Fs/Fill.antt =====
-- kern/fs.c: an empty slot of a file gets a block that was just allocated.
use openproninx.Base.{
  ℕ, ◌+◌, ◌<◌, ◌≡◌, ◌≢◌, ◌⊎◌, inl, inr, refl, ap, ◌∙◌, sym, subst, Bool, true, false, Bool-cases,
  ◌&&◌, ◌||◌, List, ◌==◌, ltb, if◌then◌else◌, get_or, length, and_true, eq_test, ne_test,
}
use openproninx.Fs.{Store, Superblock, Inode, word_at, ndirect}
use openproninx.Fs.Bitmap.{used, IsVolume, Allocated}
use openproninx.Fs.Slots.{
  Slot, top, under, at, is_pointer, is_slot, same_slot, same_slot-true, IsOwned, IsFile, value,
}
use openproninx.Fs.Grow.{Evolved, Grown, zero_cases}

pub true_and : {a b : Bool} → a ≡ true → b ≡ true → a && b ≡ true
true_and p q = rw (p, q) refl

module _ (sb : Superblock) (ip : Inode) (s : Store) (a : ℕ) (t : Store) (f : IsFile sb s.cache ip)
    (al : Allocated sb s a t) (q : Slot) (empty : at s.cache ip.addrs q ≡ 0) (addrs' : List ℕ)
    (s' : Store) where
  -- What the slots hold after the change follows from what the addresses and the entries hold.
  pub slots_after :
      ((i : ℕ)
        → ltb i (ndirect + 2) ≡ true
        → get_or addrs' i 0 ≡ (if same_slot q (top i) then a else get_or ip.addrs i 0))
      → ((p : Slot) (j : ℕ)
          → is_slot (under p j) ≡ true
          → at s.cache ip.addrs p ≢ 0
          → word_at (s'.cache (at s.cache ip.addrs p)) j
            ≡ (if same_slot q (under p j) then a else word_at (s.cache (at s.cache ip.addrs p)) j))
      → ((j : ℕ) → word_at (s'.cache a) j ≡ 0)
      → ((p : Slot) (j : ℕ) → at s.cache ip.addrs p ≡ 0 → same_slot q (under p j) ≡ false)
      → (x : Slot) → is_slot x ≡ true
      → at s'.cache addrs' x ≡ (if same_slot q x then a else at s.cache ip.addrs x)
  slots_after tops entries blank parent (top i) sx = tops i sx
  slots_after tops entries blank parent (under p j) sx =
      let (_, rest) = and_true (is_pointer p) _ sx in
      let (sp, _) = and_true (is_slot p) _ rest in
      let ih = slots_after tops entries blank parent p sp in
      elim (Bool-cases (same_slot q p)) [
        | inl e ↦
            let here : at s.cache ip.addrs p ≡ 0 =
              ap (at s.cache ip.addrs) (sym (same_slot-true q p e)) ∙ empty in
            let new : at s'.cache addrs' p ≡ a = rw e at ih in
            rw (parent p j here, here, new, ne_test al.not_boot, blank j) refl
        | inr e ↦
            let old : at s'.cache addrs' p ≡ at s.cache ip.addrs p = rw e at ih in
            elim (zero_cases (at s.cache ip.addrs p)) [
              | inl z ↦ rw (parent p j z, old, z) refl
              | inr n ↦ rw (old, ne_test n) (entries p j sx n)
            ]
      ]

  module _
      (slots : (x : Slot)
        → is_slot x ≡ true
        → at s'.cache addrs' x ≡ (if same_slot q x then a else at s.cache ip.addrs x))
      (rest : (b i : ℕ)
        → ((p : Slot)
            → is_slot p ≡ true
            → is_pointer p ≡ true
            → at s.cache ip.addrs p ≢ 0
            → at s.cache ip.addrs p ≢ b)
        → s'.cache b i ≡ t.cache b i)
      (is_volume : IsVolume sb s'.cache)
      (map : (b : ℕ) → b < sb.size → used sb s'.cache b ≡ used sb t.cache b)
      (len : length addrs' ≡ ndirect + 2) where
    still : (b : ℕ) → b < sb.size → used sb s.cache b ≡ true → used sb s'.cache b ≡ true
    still b lt u = map b lt ∙ al.map b lt ∙ (rw u (or_true (a == b)))
      where
        or_true : (b : Bool) → (b || true) ≡ true
        or_true true = refl
        or_true false = refl

    apart : (b : ℕ) → used sb s.cache b ≡ true → b ≢ a
    apart b u e = absurd (cc (sym u ∙ ap (used sb s.cache) e ∙ al.was_free))

    -- A slot holds the new block, or what it held.
    slot_cases :
        (x : Slot)
        → is_slot x ≡ true
        → ((x ≡ q) × (at s'.cache addrs' x ≡ a))
          ⊎ ((same_slot q x ≡ false) × (at s'.cache addrs' x ≡ at s.cache ip.addrs x))
    slot_cases x sx = elim (Bool-cases (same_slot q x)) [
      | inl e ↦ inl (sym (same_slot-true q x e), slots x sx ∙ (rw e refl))
      | inr e ↦ inr (e, slots x sx ∙ (rw e refl))
    ]

    IsOwned-after :
        (b : ℕ) → IsOwned sb s.cache ip b → IsOwned sb s'.cache (record ip { addrs = addrs' }) b
    IsOwned-after b o = record {
      below = o.below;
      is_used = still b o.below o.is_used;
      not_map = o.not_map;
      not_inode = o.not_inode;
    }

    IsOwned-new : IsOwned sb s'.cache (record ip { addrs = addrs' }) a
    IsOwned-new = record {
      below = al.below;
      is_used = map a al.below ∙ al.map a al.below ∙ (rw (eq_test {a = a} refl) refl);
      not_map = al.not_in_map;
      not_inode = λ e. apart _ f.inode_used (sym e);
    }

    -- A slot did not hold the new block.
    new_or_old : (x : Slot) → is_slot x ≡ true → at s.cache ip.addrs x ≢ a
    new_or_old x sx e =
        let n : at s.cache ip.addrs x ≢ 0 = λ z. al.not_boot (sym e ∙ z) in
        apart _ (f.owned x sx n).is_used e

    IsFile-after : IsFile sb s'.cache (record ip { addrs = addrs' })
    IsFile-after = record {
      addresses = len;
      owned = λ x sx n. elim (slot_cases x sx) [
        | inl (_, e) ↦
            subst (IsOwned sb s'.cache (record ip { addrs = addrs' })) (sym e) IsOwned-new
        | inr (_, e) ↦
            subst (IsOwned sb s'.cache (record ip { addrs = addrs' })) (sym e)
              (IsOwned-after _ (f.owned x sx (λ z. n (e ∙ z))))
      ];
      distinct = λ x y sx sy n same. elim (slot_cases x sx) [
        | inl (xq, e) ↦ elim (slot_cases y sy) [
          | inl (yq, _) ↦ xq ∙ sym yq
          | inr (_, e') ↦ absurd (new_or_old y sy (sym e' ∙ sym same ∙ e))
        ]
        | inr (_, e) ↦ elim (slot_cases y sy) [
          | inl (_, e') ↦ absurd (new_or_old x sx (sym e ∙ same ∙ e'))
          | inr (_, e') ↦ f.distinct x y sx sy (λ z. n (e ∙ z)) (sym e ∙ same ∙ e')
        ]
      ];
      inode_below = f.inode_below;
      inode_not_boot = f.inode_not_boot;
      inode_used = still _ f.inode_below f.inode_used;
      inode_not_map = f.inode_not_map;
    }

    evolution : Evolved sb ip s (record ip { addrs = addrs' }) s'
    evolution = record {
      is_volume = is_volume;
      is_file = IsFile-after;
      fields = refl;
      kept = λ x sx n. elim (slot_cases x sx) [
        | inl (xq, _) ↦ absurd (n (ap (at s.cache ip.addrs) xq ∙ empty))
        | inr (_, e) ↦ e
      ];
      fresh = λ x sx z n. elim (slot_cases x sx) [
        | inl (_, e) ↦ ap (used sb s.cache) e ∙ al.was_free
        | inr (_, e) ↦ absurd (n (e ∙ z))
      ];
      still_used = still;
      others =
          λ b i lt u m n. rest b i (λ p sp _ _. n p sp) ∙ al.others b i (apart b u) (m a al.below);
    }

    same_value :
        (x : Slot) (i : ℕ)
        → is_slot x ≡ true
        → is_pointer x ≡ false
        → value s'.cache addrs' x i ≡ value s.cache ip.addrs x i
    same_value x i sx px = elim (slot_cases x sx) [
      | inl (xq, e) ↦
          let old : at s.cache ip.addrs x ≡ 0 = ap (at s.cache ip.addrs) xq ∙ empty in
          let byte : s'.cache a i ≡ 0 = rest a i (λ p sp _ n. new_or_old p sp) ∙ al.zeroed i in
          rw (e, ne_test al.not_boot, old, byte) refl
      | inr (_, e) ↦ elim (zero_cases (at s.cache ip.addrs x)) [
        | inl z ↦ rw (e, z) refl
        | inr n ↦
            let o = f.owned x sx n in
            let byte : s'.cache (at s.cache ip.addrs x) i ≡ s.cache (at s.cache ip.addrs x) i =
              rest _ i (λ p sp pp np same.
                absurd (cc (sym px ∙ ap is_pointer (sym (f.distinct p x sp sx np same)) ∙ pp)))
              ∙ al.others _ i (apart _ o.is_used) (o.not_map a al.below) in
            rw (e, ne_test n, byte) refl
      ]
    ]

    pub filled_lem : Grown sb ip s (record ip { addrs = addrs' }) s'
    filled_lem = record { evolved = evolution; values = same_value }
