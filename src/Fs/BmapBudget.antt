-- ===== src/Fs/BmapBudget.antt =====
-- kern/fs.c: what `bmap` logs.
use openproninx.Base.{
  ℕ, ◌+◌, ◌-◌, ◌*◌, ◌/◌, ◌%◌, ◌≤◌, ◌≡◌, ◌≢◌, inl, inr, refl, ap, ◌∙◌, sym, subst, Bool, true,
  Bool-cases, some, arith, ltb, and_true,
}
use mathlib.Core.Option.{some-injective}
use openproninx.Fs.{
  Store, Superblock, Inode, bpb, ndirect, nindirect, address_of, entry_of, bmap, bmap_single,
  bmap_double, ◌>>=◌, pure,
}
use openproninx.Fs.Bitmap.{IsVolume}
use openproninx.Fs.Slots.{Slot, top, under, at, is_slot, IsFile}
use openproninx.Fs.Entry.{address_of-Found, entry_of-Found}
use openproninx.Fs.Bmap.{slot_of, bind_some}
use openproninx.Fs.Budget.{up, Logs, Logs-trans, address_of-Logs, entry_of-Logs}

single-Logs :
    (sb : Superblock) (q : Slot → Bool) (ip : Inode) (j : ℕ) (s : Store) {b : ℕ} {ip' : Inode}
    {s' : Store}
    → IsVolume sb s.cache
    → IsFile sb s.cache ip
    → sb.size ≤ bpb
    → ltb j nindirect ≡ true
    → up q (under (top ndirect) j) ≡ true
    → bmap_single sb ip j s ≡ some ((b, ip'), s')
    → Logs sb q s ip' s'
single-Logs sb q ip j s {b} {ip'} {s'} v f small lt qx h =
    let ((i, ip₁), t, e, r) =
      bind_some (address_of sb ndirect ip) (λ p. entry_of sb p.0 j >>= λ a. pure (a, p.1)) s h in
    let (a, u, e', r') = bind_some (entry_of sb i j) (λ a. pure (a, ip₁)) t r in
    let g = address_of-Found sb ndirect ip s v f refl e in
    let (v₁, f₁) : IsVolume sb t.cache × IsFile sb t.cache ip₁ =
      (g.grown.evolved.is_volume, g.grown.evolved.is_file) in
    let there : at t.cache ip₁.addrs (top ndirect) ≢ 0 = λ z. g.there (sym g.block ∙ z) in
    let e₁ = ap (λ n. entry_of sb n j t) g.block ∙ e' in
    let sx : is_slot (under (top ndirect) j) ≡ true = rw lt refl in
    let k = entry_of-Found sb (top ndirect) j ip₁ t v₁ f₁ sx there e₁ in
    let (_, qt) = and_true (q (under (top ndirect) j)) (q (top ndirect)) qx in
    subst (λ n. Logs sb q s n.0.1 n.1) (some-injective _ _ r')
      (Logs-trans sb q s k.grown.evolved (address_of-Logs sb q ndirect ip s v f small refl qt e)
        (entry_of-Logs sb q (top ndirect) j ip₁ t v₁ f₁ small sx qx there e₁))

double-Logs :
    (sb : Superblock) (q : Slot → Bool) (ip : Inode) (l j : ℕ) (s : Store) {b : ℕ} {ip' : Inode}
    {s' : Store}
    → IsVolume sb s.cache
    → IsFile sb s.cache ip
    → sb.size ≤ bpb
    → ltb l nindirect ≡ true
    → ltb j nindirect ≡ true
    → up q (under (under (top (ndirect + 1)) l) j) ≡ true
    → bmap_double sb ip l j s ≡ some ((b, ip'), s')
    → Logs sb q s ip' s'
double-Logs sb q ip l j s {b} {ip'} {s'} v f small lt lt' qx h =
    let root = top (ndirect + 1) in
    let ((i, ip₁), t, e, r) =
      bind_some (address_of sb (ndirect + 1) ip)
        (λ p. entry_of sb p.0 l >>= λ b. entry_of sb b j >>= λ a. pure (a, p.1)) s h in
    let (m, w, e₁, r₁) =
      bind_some (entry_of sb i l) (λ b. entry_of sb b j >>= λ a. pure (a, ip₁)) t r in
    let (a, u, e₂, r₂) = bind_some (entry_of sb m j) (λ a. pure (a, ip₁)) w r₁ in
    let g = address_of-Found sb (ndirect + 1) ip s v f refl e in
    let (v₁, f₁) : IsVolume sb t.cache × IsFile sb t.cache ip₁ =
      (g.grown.evolved.is_volume, g.grown.evolved.is_file) in
    let there : at t.cache ip₁.addrs (top (ndirect + 1)) ≢ 0 = λ z. g.there (sym g.block ∙ z) in
    let c₁ = ap (λ n. entry_of sb n l t) g.block ∙ e₁ in
    let sx : is_slot (under (top (ndirect + 1)) l) ≡ true = rw lt refl in
    let k = entry_of-Found sb (top (ndirect + 1)) l ip₁ t v₁ f₁ sx there c₁ in
    let (v₂, f₂) : IsVolume sb w.cache × IsFile sb w.cache ip₁ =
      (k.grown.evolved.is_volume, k.grown.evolved.is_file) in
    let there' : at w.cache ip₁.addrs (under (top (ndirect + 1)) l) ≢ 0 =
      λ z. k.there (sym k.block ∙ z) in
    let c₂ = ap (λ n. entry_of sb n j w) k.block ∙ e₂ in
    let sy : is_slot (under (under (top (ndirect + 1)) l) j) ≡ true = rw (lt, lt') refl in
    let k' = entry_of-Found sb (under (top (ndirect + 1)) l) j ip₁ w v₂ f₂ sy there' c₂ in
    let (_, qm) =
      and_true (q (under (under (top (ndirect + 1)) l) j)) (up q (under (top (ndirect + 1)) l))
        qx in
    let (_, qt) = and_true (q (under (top (ndirect + 1)) l)) (q (top (ndirect + 1))) qm in
    subst (λ n. Logs sb q s n.0.1 n.1) (some-injective _ _ r₂)
      (Logs-trans sb q s k'.grown.evolved
        (Logs-trans sb q s k.grown.evolved
          (address_of-Logs sb q (ndirect + 1) ip s v f small refl qt e)
          (entry_of-Logs sb q (top (ndirect + 1)) l ip₁ t v₁ f₁ small sx qm there c₁))
        (entry_of-Logs sb q (under (top (ndirect + 1)) l) j ip₁ w v₂ f₂ small sy qx there' c₂))

pub bmap-Logs :
    (sb : Superblock) (q : Slot → Bool) (ip : Inode) (bn : ℕ) (s : Store) {b : ℕ} {ip' : Inode}
    {s' : Store}
    → IsVolume sb s.cache
    → IsFile sb s.cache ip
    → sb.size ≤ bpb
    → up q (slot_of bn) ≡ true
    → bmap sb ip bn s ≡ some ((b, ip'), s')
    → Logs sb q s ip' s'
unfolding bmap
bmap-Logs sb q ip bn s v f small qx h = elim (Bool-cases (ltb bn ndirect)) [
  | inl e ↦
      let lt : ltb bn (ndirect + 2) ≡ true = ground arith in
      address_of-Logs sb q bn ip s v f small lt (rw e at qx) (rw e at h)
  | inr e ↦ elim (Bool-cases (ltb (bn - ndirect) nindirect)) [
    | inl e₁ ↦
        single-Logs sb q ip (bn - ndirect) s v f small e₁ (rw (e, e₁) at qx) (rw (e, e₁) at h)
    | inr e₁ ↦ elim (Bool-cases (ltb (bn - ndirect - nindirect) (nindirect * nindirect))) [
      | inr e₂ ↦ absurd (cc (rw (e, e₁, e₂) at h))
      | inl e₂ ↦
          let row : ltb ((bn - ndirect - nindirect) / nindirect) nindirect ≡ true = ground arith in
          let place : ltb ((bn - ndirect - nindirect) % nindirect) nindirect ≡ true =
            ground arith in
          double-Logs sb q ip ((bn - ndirect - nindirect) / nindirect)
            ((bn - ndirect - nindirect) % nindirect) s v f small row place (rw (e, e₁) at qx)
            (rw (e, e₁, e₂) at h)
    ]
  ]
]
