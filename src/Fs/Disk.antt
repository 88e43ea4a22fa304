-- ===== src/Fs/Disk.antt =====
-- The state of homework.c, its access to blocks (project3/misc.c), and the inode helpers.
use cs5600_computer_systems.Prelude.{
  ℕ, ◌*◌, Bool, true, false, ◌&&◌, none, some, ltb, ◌==◌, if◌then◌else◌,
}
use cs5600_computer_systems.Fs.Block.{Block, fs_block_size, load32}
use cs5600_computer_systems.Fs.Inode.{Inode, ptr_count, decode_inode, encode_inode}
use cs5600_computer_systems.Fs.Host.{Host}
use cs5600_computer_systems.Fs.Action.{done, failed, fault, eio, Action, pure, crash, ◌>>=◌, ◌>>◌}

-- The disk image, and the copies of blocks 0 and 1 in memory.
pub record State (Image : Type 0) : Type 0 where
  pub image : Image
  pub superblock : Block
  pub bitmap : Block

-- `sb_ptr->disk_size`
unfoldable pub disk_size : Block → ℕ
disk_size sb = load32 sb 4

module _ ⦃H : Host⦄ where
  abbrev pub Fs : Type 0
  Fs = State H.Image

  -- `block_read(buf, lba, 1)`. `lba` is a bit pattern of 32 bits: from 2 ^ 31 on it is negative as
  -- an `int`, and the seek fails; `lba * FS_BLOCK_SIZE` overflows an `int` from 2 ^ 19 on.
  unfoldable pub block_read : ℕ → Action Fs Block
  block_read lba s =
      if ltb lba 524288
      then elim (H.pread (lba * fs_block_size) s.image) [ none ↦ failed eio s | some b ↦ done b s ]
      else if ltb lba 4294443008
      then fault
      else failed eio s

  -- How `block_write` ends once the image was sought and written.
  abbrev pub finish : Bool × H.Image → Action Fs (Unit {0})
  finish (true, m) s = done tt (record s { image = m })
  finish (false, m) s = failed eio (record s { image = m })

  -- `block_write(buf, lba, 1)`: the assertion `lba > 0`, and `start + len` within an `int`.
  unfoldable pub block_write : Block → ℕ → Action Fs (Unit {0})
  block_write b lba s =
      if ltb 0 lba && ltb lba 524287
      then finish (H.pwrite (lba * fs_block_size) b s.image) s
      else fault

  -- The test `inum < 0` of `read_inode` and `write_inode` falls away: an inode number is the root's 2, the 31 bits
  -- of an entry, or a block that was just allocated, never negative, and stands here as a natural number.
  unfoldable pub read_inode : ℕ → Action Fs Inode
  read_inode inum = do b ← block_read inum; pure (decode_inode b)

  unfoldable pub write_inode : ℕ → Inode → Action Fs (Unit {0})
  write_inode inum n = block_write (encode_inode n) inum

  unfoldable pub load_fs_metadata : Action Fs (Unit {0})
  load_fs_metadata = do
    sb ← block_read 0
    (λ s. done tt (record s { superblock = sb }))
    bits ← block_read 1
    (λ s. done tt (record s { bitmap = bits }))

  -- `inode.ptrs[i]`, a fault beyond the array.
  abbrev pub get_ptr : Inode → ℕ → Action Fs ℕ
  get_ptr n i = if ltb i ptr_count then pure (n.ptrs i) else crash

  -- `inode.ptrs[i] = v`
  abbrev pub set_ptr : Inode → ℕ → ℕ → Action Fs Inode
  set_ptr n i v =
      if ltb i ptr_count
      then pure (record n { ptrs = λ k. if k == i then v else n.ptrs k })
      else crash
