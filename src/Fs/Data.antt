-- ===== src/Fs/Data.antt =====
-- The handlers of homework.c that read and write the contents of files: truncate, read, write.
pub mod File
pub mod Grow
pub mod Isolation
pub mod Leak
pub mod RoundTrip
pub mod Splice
pub mod Read
pub mod Truncate
pub mod WriteLoop
use cs5600_computer_systems.Prelude.{
  ℕ, zero, suc, ◌+◌, ◌-◌, ◌/◌, ◌%◌, ◌^◌, Bool, true, false, not, ◌||◌, ltb, leb, ◌==◌,
  if◌then◌else◌, Str,
}
use Prim.Native.Nat.{min}
use cs5600_computer_systems.Fs.Block.{Block, fs_block_size, copy_into}
use cs5600_computer_systems.Fs.Host.{Host}
use cs5600_computer_systems.Fs.Inode.{Inode, is_reg, is_negative, block_count}
use cs5600_computer_systems.Fs.Disk.{
  Fs, block_read, block_write, read_inode, write_inode, get_ptr, set_ptr,
}
use cs5600_computer_systems.Fs.Bitmap.{allocate_block, free_block}
use cs5600_computer_systems.Fs.Path.{translate}
use cs5600_computer_systems.Fs.Action.{
  eisdir, einval, done, failed, fault, Action, pure, fail, crash, require, ignore, ◌>>=◌, ◌>>◌,
}

module _ ⦃H : Host⦄ where
  -- The loop of `fs_truncate` over `k` block numbers from `i` on.
  unfoldable pub drop_ptrs : ℕ → ℕ → Inode → Action Fs Inode
  drop_ptrs zero i n = pure n
  drop_ptrs (suc k) i n = do
    b ← get_ptr n i
    ignore (free_block b)
    n' ← set_ptr n i 0
    drop_ptrs k (i + 1) n'

  -- `len` is the bit pattern of an `off_t`; `now` is `time(NULL)`.
  unfoldable pub fs_truncate : ℕ → Str → ℕ → Action Fs (Unit {0})
  fs_truncate now path len = do
    require (len == 0) einval
    inum ← translate path
    n ← read_inode inum
    require (is_reg n) eisdir
    n' ← drop_ptrs (block_count n) 0 n
    write_inode inum (record n' { size = 0; mtime = now % 2 ^ 32 })

  -- The loop of `fs_read`, with fuel: the bytes read so far are in `buf`, and `len` are wanted yet.
  unfoldable pub read_loop : ℕ → Inode → (start from got len : ℕ) → Block → Action Fs (ℕ × Block)
  read_loop fuel n start from got zero buf = pure (got, buf)
  read_loop zero n start from got (suc l) buf = crash
  read_loop (suc fuel) n start from got (suc l) buf = do
    num ← get_ptr n start
    b ← block_read num
    read_loop fuel n (start + 1) 0 (got + min (fs_block_size - from) (suc l))
        (suc l - min (fs_block_size - from) (suc l))
        (copy_into buf got b from (min (fs_block_size - from) (suc l)))

  -- The length after the two tests at the end of the file; `offset + len` is a `size_t`.
  abbrev pub read_len : Inode → ℕ → ℕ → ℕ
  read_len n len offset =
      if is_negative n || leb n.size offset
      then 0
      else if ltb n.size ((offset + len) % 2 ^ 64)
      then n.size - offset
      else len

  -- The number of bytes read, and the caller's buffer. `offset` is not negative.
  unfoldable pub fs_read : Str → Block → (len offset : ℕ) → Action Fs (ℕ × Block)
  fs_read path buf len offset = do
    inum ← translate path
    n ← read_inode inum
    require (is_reg n) eisdir
    read_loop (read_len n len offset) n (offset / fs_block_size) (offset % fs_block_size) 0
        (read_len n len offset) buf

  -- `for (i = cur_blocks; i < required_blocks; i++) inode.ptrs[i] = allocate_block()`.
  unfoldable pub grow : ℕ → ℕ → Inode → Action Fs Inode
  grow zero i n = pure n
  grow (suc k) i n = do b ← allocate_block; n' ← set_ptr n i b; grow k (i + 1) n'

  -- The loop of `fs_write`, with fuel: `put` bytes are written, and `len` are left.
  unfoldable pub write_loop : ℕ → Inode → Block → (start from put len : ℕ) → Action Fs ℕ
  write_loop fuel n buf start from put zero = pure put
  write_loop zero n buf start from put (suc l) = crash
  write_loop (suc fuel) n buf start from put (suc l) = do
    num ← get_ptr n start
    b ← block_read num
    block_write (copy_into b from buf put (min (fs_block_size - from) (suc l))) num
    write_loop fuel n buf (start + 1) 0 (put + min (fs_block_size - from) (suc l))
        (suc l - min (fs_block_size - from) (suc l))

  -- The `inode.size` that is written back.
  abbrev pub grown_size : Inode → ℕ → ℕ
  grown_size n end = if ltb n.size end then end % 2 ^ 32 else n.size

  -- `(end_offset + FS_BLOCK_SIZE - 1) / FS_BLOCK_SIZE` as the `int` bound of the loop that grows the
  -- file; below zero the loop makes no round.
  abbrev pub required_blocks : ℕ → ℕ
  required_blocks end =
      if leb 2147483648 ((end + 4095) % 2 ^ 64 / fs_block_size % 2 ^ 32)
      then 0
      else (end + 4095) % 2 ^ 64 / fs_block_size % 2 ^ 32

  -- `offset` is not negative.
  unfoldable pub fs_write : ℕ → Str → Block → (len offset : ℕ) → Action Fs ℕ
  fs_write now path buf len offset = do
    inum ← translate path
    n ← read_inode inum
    require (is_reg n) eisdir
    require (not (is_negative n || ltb n.size offset)) einval
    let end = (offset + len) % 2 ^ 64
    n' ← grow (required_blocks end - block_count n) (block_count n) n
    put ← write_loop len n' buf (offset / fs_block_size) (offset % fs_block_size) 0 len
    write_inode inum (record n' { size = grown_size n' end; mtime = now % 2 ^ 32 })
    pure put
