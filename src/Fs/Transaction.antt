-- ===== src/Fs/Transaction.antt =====
-- kern/fs.c with kern/log.c: a `writei` in its transaction.
use openproninx.Base.{
  ℕ, ◌*◌, ◌≤◌, ◌<◌, ◌≡◌, ap, ◌∙◌, sym, inl, inr, true, some, List, [], get_or, length, get_elem?,
}
use openproninx.Fs.{Store, Superblock, Inode, bsize, bpb}
use openproninx.Fs.Files.{writei}
use openproninx.Fs.Bitmap.{IsVolume}
use openproninx.Fs.Slots.{IsFile}
use openproninx.Fs.Room.{room}
use openproninx.Fs.Write.{accepts, Wrote}
use openproninx.Fs.Returns.{writei_rounds, writei_ends}
use openproninx.Fs.Reserve.{writei_logged}
use openproninx.Log.Ops.{Log, IsEntry}
use openproninx.Log.Calls.{logged}
use openproninx.Log.Space.{System, IsReserved}
use openproninx.Log.Several.{log_all, log_all-some}

-- `writei` on a sound file of a sound volume with one block of the map, of bytes within its bounds, of
-- at most the 1536 that `filewrite` gives it, with three free blocks for each round, in a call that
-- has begun among others and has logged nothing yet: it returns the number of bytes, and no
-- `log_write` of the blocks that it logs panics, one after the other; each of them is then an entry of
-- the log. The file has exactly these bytes in the range and its old bytes elsewhere, and its size is the
-- larger of the old one and the end of the range. The volume and the file stay sound, no block in use
-- becomes free, and of the blocks in use only those of the file, of its inode and of the map may change.
pub writei_returns :
    (sb : Superblock) (ip : Inode) (off : ℕ) (src : List ℕ) (s : Store) (t : System) (i : ℕ)
    → IsVolume sb s.cache
    → IsFile sb s.cache ip
    → sb.size ≤ bpb
    → ((k : ℕ) → get_or src k 0 < 256)
    → accepts ip off (length src) ≡ true
    → length src ≤ 3 * bsize
    → 3 * writei_rounds off (length src) ≤ room sb s.cache
    → s.logged ≡ []
    → IsReserved t
    → get_elem? t.used i ≡ some []
    → (ip' : Inode) × (s' : Store) × (l : Log) × (writei sb ip off src s
        ≡ some ((some (length src), ip'), s'))
      × Wrote sb ip s off src ip' s'
      × (log_all t.log s'.logged ≡ some l)
      × ((k : ℕ) → logged k s'.logged ≡ true → IsEntry l.lh k)
writei_returns sb ip off src s t i v f small bytes ok short h fresh reserved e =
    let (ip', s', q, w) = writei_ends sb ip off src s v f bytes ok h in
    let (xs, few, all) = writei_logged sb ip off src s v f small bytes short q in
    let inside : (k : ℕ) → logged k s'.logged ≡ true → logged k xs ≡ true = λ k g. elim (all k g) [
      | inl old ↦ absurd (cc (sym old ∙ ap (logged k) fresh))
      | inr new ↦ new
    ] in
    let (l, p, entries) = log_all-some t i s'.logged xs reserved e few inside in
    (ip', s', l, q, w, p, entries)
