-- ===== src/Lib.antt =====
-- A verification library for the openproninx kernel: its crash-safe log, its buffer cache, its
-- native files, its block volumes and UFS2 structures, its process table, its pipes, the memory
-- arena of its console and its string routines.
--
-- The parts and how they interact. A system call that changes the native file system runs between
-- `begin_op` and `end_op` of kern/log.c: the log reserves room for it, `log_write` collects the
-- blocks that it changes, and the last call to leave commits them all. Recovery at boot redoes a
-- commit that a crash cut short. The native file system itself (kern/fs.c) keeps a map of used
-- blocks, inodes and trees of blocks in the buffer cache. A UFS2 volume (kern/ufs2.c) is a sequence
-- of bytes on a device: each of its structures is read and written by `blockdev_read` and
-- `blockdev_write` (kern/blockdev.c), which move bytes through the sectors of the buffer cache
-- (kern/bio.c), which also carries the blocks of the log. Pipes (kern/pipe.c) carry bytes between
-- processes that sleep and wake each other. The console takes its large buffers from an arena of
-- contiguous memory (kern/kalloc.c, `vmem_alloc` and `vmem_free`). The process table (kern/proc.c)
-- is changed by any number of processes, each under its lock: `fork`, `exit` and `waitpid` keep the
-- tree of processes, `sleep`, `wakeup` and `kill` stop and start them.
--
-- The files:
-- Base: shared names, Boolean tests, lists with native indices, 32-bit and 64-bit arithmetic.
-- Log: `struct logheader`, `install_trans`, `read_head`, `write_head`, `write_log`, `commit` and
--   `recover_from_log` of kern/log.c, as functions on the buffer cache that give the list of their
--   disk writes in order. Log/View, Install, Copy, Writes and Commit say what these writes do to
--   the disk; Log/Crash and Atomic cut the list at any point; Log/Boot restarts the machine;
--   Log/Ops has `begin_op`, `end_op` and `log_write` on the state in memory, Log/Cycle takes a
--   transaction from its first `log_write` to the next; Log/Calls counts the blocks of each running
--   system call, and Log/Space lets any number of them interleave; Log/Several makes all the
--   `log_write`s of a call.
-- Bcache: `binit`, `bget`, `bread`, `bwrite` and `brelse` of kern/bio.c on the ring of buffers,
--   with the transfer of `ramdiskrw` (kern/ramdisk.c). Bcache/Ring says when the ring is in order
--   and what it shows of each block, which is the `cache` of Log and Fs and the disk of BlockDev;
--   Change, Lookup, Recycle, Release, Transparent, Stores and Returns follow the operations.
-- Fs: the native file system of kern/fs.c, on the blocks as the buffer cache shows them; a step may
--   panic. `balloc`, `bfree`, `bmap`; Fs/Inodes has `iupdate`, `ilock` and `ialloc`, Fs/Files
--   `readi` and `writei`. Fs/Bits, Bitmap and Words say what changing a bit or a word of a block
--   does, Search and Alloc what `balloc` and `bfree` give. Fs/Slots has the places of a file that
--   name a block, and what a sound file is; Grow, Fill, Entry and Bmap follow `bmap`, Content has a
--   file as a sequence of bytes, Read and Mapped follow `readi`, Put, Spread, Rounds and Write
--   `writei`, Room and Returns show that it returns, Roundtrip that what it wrote is read.
--   Fs/Dinode, NewInode and Synced follow the inodes on the disk. Fs/Budget, BmapBudget, Nearby
--   and Reserve count the blocks that a write logs, against what Log/Space reserves for a call;
--   Fs/Transaction gives them to the log.
-- BlockDev: `blockdev_read` and `blockdev_write`, with their guards and their loops over sectors;
--   BlockDev/Bytes has the volume as a sequence of bytes.
-- Ufs2: `struct ufs2_volume`, `struct ufs2_inode` and a monad of steps that may return -1 and keep
--   what was written before. Ufs2/Codec has `read_le16` to `write_le64` and the fields of an inode,
--   Ufs2/Geometry `ufs2_inode_offset`, `ufs2_probe`, `ufs2_cg_offset`, `ufs2_cg_free_map` and
--   `ufs2_cg_inode_map`, Ufs2/Inodes `ufs2_read_inode`, `ufs2_write_inode` and
--   `ufs2_initialize_inode`. Ufs2/Files has `ufs2_block_address`, `ufs2_read_direct`, `ufs2_read`
--   and `ufs2_write_existing`; Ufs2/Contents has a file as a sequence of bytes, Ufs2/Layout
--   finds them by the addresses in the inode and in the indirect block, Ufs2/Steady, Chunk
--   and Overwrite follow a write. Ufs2/Fragments has `ufs2_alloc_fragment` and
--   `ufs2_free_fragment`; Ufs2/Header shows what the place of a free map depends on, Ufs2/Refund
--   follows a fragment from one call to the other. Ufs2/Reserve has `ufs2_alloc_inode` and
--   `ufs2_free_inode`, Ufs2/Blocks `ufs2_set_fragment`, `ufs2_alloc_block`, `ufs2_free_block` and
--   `ufs2_zero_block`; Ufs2/Mark has the bits of a map, Ufs2/NewInode and
--   NewBlock say what the two allocators give. Ufs2/Directory
--   has `ufs2_lookup` and `ufs2_readdir`, compared in Ufs2/Listing.
-- Pipe: `pipewrite`, `piperead` and `pipeclose` of kern/pipe.c by the stretches between two sleeps,
--   each with the channels that it wakes. Pipe/Queue is the abstract pipe, Pipe/Refine compares
--   each operation with it, Pipe/Stream runs any sequence of stretches, Pipe/Sleepers follows what a
--   sleeping writer or reader waits for.
-- Arena: `vmem_init`, `vmem_alloc` and `vmem_free`; the chain of headers is a list of blocks with
--   their addresses. Arena/Tiling says when the blocks tile the arena, Arena/Run makes any sequence of
--   calls. The arena may lie anywhere below the last two pages of the address space.
-- Proc: `struct proc` and the operations of kern/proc.c by the stretches between two releases of
--   `ptable.lock`. Proc/Step lets the stretches of all processes interleave. Proc/Family, Orphans,
--   Exit, Life and Reachable follow the tree of processes, Proc/Wait and Kill `waitpid` and `kill`,
--   Proc/Wakeup and NoLostWakeup a parent that sleeps in `waitpid`.
-- Strings: the routines of lib/string.c on a memory of bytes; Strings/Move, Compare and Copy follow
--   `memmove`, `strcmp`, `safestrcpy` and `strncpy`.
-- Tests and concrete instances stand in the files named Examples.
--
-- Machine integers are natural numbers with their wrap-around written out: `uint` modulo 2 ^ 32,
-- `uint64_t` modulo 2 ^ 64, an `int` as a word with a sign bit. A block of the log is the list of
-- its 32-bit words; a sector is its 512 bytes by index. The loops of `readi`, `writei`,
-- `blockdev_read`, `blockdev_write`, `ufs2_read` and `ufs2_write_existing` run on fuel of one more
-- than the number of bytes, and each round moves at least one; the search of `ufs2_alloc_block` in
-- a group runs on fuel of one more than its entries, and each round passes at least one
-- (`scan_blocks_fuel`); the outer loop of `balloc` runs on fuel of more rounds than the map has blocks
-- (`find_free_complete`); all other loops are structural.
--
-- A disk write is atomic by block, and the writes of the log reach the disk in the order in which
-- the code issues them. Locks are not modelled: what a lock protects is one step. Process ids do
-- not wrap. The loops over a directory run on fuel of more than its blocks, and over a block of
-- more than its bytes; each record takes at least eight.
--
-- `exceeds` counts `MAXOPBLOCKS` = 10 for a call; since mkfs makes the log `LOGSIZE` blocks with its
-- header, the room that is shown to be enough is that for nine different blocks a call.
--
-- A panic outside the modelled lines is not in the model: that of a transfer from an unknown device
-- or beyond the disk (`blockdev_rw`), that of `iget` behind `ialloc`, that of a `bread` in `commit`.
-- The tests for null pointers in kern/blockdev.c are not modelled.
--
-- Of kern/fs.c the branches for FAT32 and UFS2 volumes and for devices, the inode cache, `itrunc`,
-- directories and path names are not modelled; a step of the model
-- notes the blocks that it gives to `log_write`, whose panics are those of Log/Several. The drivers, virtual memory, system calls, the network, the boot loaders and the
-- user programs are not modelled. Of kern/ufs2.c growing and truncating files and changing
-- directories are not modelled, nor are `userinit`, `growproc` and `procinfo_next` of kern/proc.c,
-- nor the page allocator of kern/kalloc.c.
pub mod Base
pub mod Log
pub mod Bcache
pub mod Fs
pub mod BlockDev
pub mod Ufs2
pub mod Pipe
pub mod Proc
pub mod Arena
pub mod Strings
