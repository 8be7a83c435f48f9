-- ===== src/Log/Examples.antt =====
-- The theorems on kern/log.c at a small transaction, and tests of the model.
use openproninx.Base.{
  ℕ, zero, suc, ◌<◌, ◌+◌, ◌≡◌, ◌≢◌, ◌⊎◌, refl, true, false, [], ◌∷◌, arith, ◌==◌, get_or, set,
  replicate, take,
}
use openproninx.Log.{
  log_size, Block, Blocks, Header, store, apply, copy_words, install_from, install_trans, read_head,
  write_head, write_log_from, write_log, commit, recover_from_log,
}
use openproninx.Log.View.{is_home, SameHome}
use openproninx.Log.Atomic.{Ready}
use openproninx.Log.Boot.{boot, failed_boots, commit_crash-boot, commit-durable}
use openproninx.Log.Ops.{Log, Outcome, begin_op, end_op, log_write, refuses, enter, find_entry}
use openproninx.Log.Cycle.{commit-Ready}
use openproninx.Log.Space.{
  System, Step, Reach, IsReserved, is_done, Reach-no_panic, Reach-IsReserved,
}
use openproninx.Log.Calls.{reserve, in_any}

abbrev zeros : Block
zeros = replicate 128 0

abbrev sevens : Block
sevens = replicate 128 7

-- One block, 40, is changed in the cache and entered in the header.
abbrev disk : Blocks
disk b = zeros

abbrev cache : Blocks
cache = store disk 40 sevens

abbrev header : Header
header = record { n = 1; block = set (replicate 30 0) 0 40 }

disk-Ready : Ready 2 32 header cache disk
disk-Ready = record {
  bound = omega arith;
  fits = omega arith;
  entries = refl;
  homes = home_of;
  header = refl;
  disk_words = refl;
  empty = refl;
  clean = λ b home none. unlogged b (none 0 (omega arith));
}
  where
    home_of : (i : ℕ) → i < 1 → is_home 2 32 (get_or header.block i 0) ≡ true
    home_of zero h = refl
    home_of (suc i) h = absurd (omega arith)

    unlogged : (b : ℕ) → 40 ≢ b → cache b ≡ disk b
    unlogged b h = let miss : (40 == b) ≡ false = ground arith in rw miss

-- Cut after the log block alone, the transaction is lost; cut after the header, it is kept.
crash_before_header : boot 2 (apply disk (take 1 (commit 2 header cache).2)) 40 ≡ zeros
unfolding boot commit write_log write_log_from write_head install_trans install_from copy_words
    recover_from_log read_head
crash_before_header = refl

crash_after_header : boot 2 (apply disk (take 2 (commit 2 header cache).2)) 40 ≡ sevens
unfolding crash_before_header
crash_after_header = refl

commit_crash-boot_example :
    let d' = boot 2 (failed_boots 2 (1 ∷ 0 ∷ []) (apply disk (take 2 (commit 2 header cache).2))) in
    SameHome 2 32 d' disk ⊎ SameHome 2 32 d' cache
commit_crash-boot_example = commit_crash-boot 2 32 header cache disk 2 (1 ∷ 0 ∷ []) disk-Ready

commit-durable_example : SameHome 2 32 (apply disk (commit 2 header cache).2) cache
commit-durable_example = commit-durable 2 32 header cache disk disk-Ready

commit-Ready_example :
    let (lh', c', ws) = commit 2 header cache in Ready 2 32 lh' c' (apply disk ws)
commit-Ready_example = commit-Ready 2 32 header cache disk disk-Ready

abbrev log : Log
log = record {
  start = 2;
  size = 32;
  outstanding = 1;
  committing = false;
  readonly = false;
  lh = header;
}

abbrev log_after : Log
log_after = record log { lh = record { n = 2; block = set header.block 1 50 } }

log_write_runs : log_write log 50 ≡ Outcome.done log_after false
unfolding log_write refuses enter find_entry
log_write_runs = refl

log_write_absorbs : log_write log 40 ≡ Outcome.done log false
unfolding log_write refuses enter find_entry
log_write_absorbs = refl

-- A log of the size that mkfs gives it.
abbrev idle : Log
idle = record log {
  size = log_size;
  outstanding = 0;
  lh = record { n = 0; block = replicate log_size 0 };
}

abbrev start_state : System
start_state = record { log = idle; used = [] }

abbrev running : System
running = record { log = record idle { outstanding = 1 }; used = [] ∷ [] }

abbrev written : System
written = record {
  log = record idle {
    outstanding = 1;
    lh = record { n = 1; block = set (replicate log_size 0) 0 77 };
  };
  used = (77 ∷ []) ∷ [];
}

start-IsReserved : IsReserved start_state
unfolding reserve in_any
start-IsReserved = record {
  active = refl;
  counted = refl;
  few = omega arith;
  room = omega arith;
  held = λ c. refl;
  drained = λ c z. refl;
  entries = λ b h. absurd (cc h);
  slots = refl;
  enough = omega arith;
}

begun : Reach start_state running
unfolding begin_op
begun = Reach.next Reach.here (Step.begin {l = running.log} {w = false} refl refl)

logged_one : Reach start_state written
unfolding enter find_entry
logged_one = Reach.next begun (Step.write 0 77 refl refl refl)

Reach-IsReserved_example : IsReserved written
Reach-IsReserved_example = Reach-IsReserved start-IsReserved logged_one

Reach-no_panic_example :
    (is_done (log_write written.log 78) ≡ true)
    × (is_done (end_op written.log) ≡ true)
    × ((enter written.log 78).lh.n + 1 < written.log.size)
Reach-no_panic_example = Reach-no_panic 0 78 start-IsReserved logged_one refl refl
