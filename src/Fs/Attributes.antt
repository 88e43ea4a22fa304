-- ===== src/Fs/Attributes.antt =====
-- The handlers of homework.c that read and change attributes: init, getattr, readdir, chmod,
-- utime, statfs.
pub mod Changes
pub mod Listing
pub mod ReadOnly
use cs5600_computer_systems.Prelude.{
  ℕ, zero, suc, ◌+◌, ◌-◌, ◌/◌, ◌%◌, ◌^◌, bit_and, bit_or, Bool, true, false, leb, if◌then◌else◌,
  Str,
}
use cs5600_computer_systems.Fs.Block.{Block, fs_block_size}
use cs5600_computer_systems.Fs.Host.{Host}
use cs5600_computer_systems.Fs.Inode.{Inode, is_dir, s_ifmt}
use cs5600_computer_systems.Fs.Dirent.{max_name_len, valid, inode_num, name}
use cs5600_computer_systems.Fs.Disk.{
  Fs, disk_size, block_read, read_inode, write_inode, load_fs_metadata,
}
use cs5600_computer_systems.Fs.Bitmap.{bit_test, bitmap_bits}
use cs5600_computer_systems.Fs.Path.{translate}
use cs5600_computer_systems.Fs.Action.{
  enotdir, done, failed, fault, Outcome, Action, pure, require, ◌>>=◌, ◌>>◌,
}

-- The fields of `struct stat` that the code sets. Those wider than the inode's are bit patterns of
-- 64 bits.
pub record Stat : Type 0 where
  pub st_mode : ℕ
  pub st_uid : ℕ
  pub st_gid : ℕ
  pub st_size : ℕ
  pub st_nlink : ℕ
  pub st_mtime : ℕ
  pub st_atime : ℕ
  pub st_ctime : ℕ
  pub st_blocks : ℕ

-- An `int32_t` as a pattern of 64 bits.
abbrev pub widen : ℕ → ℕ
widen v = if leb 2147483648 v then v + (2 ^ 64 - 2 ^ 32) else v

-- `(inode->size + FS_BLOCK_SIZE - 1) / FS_BLOCK_SIZE`, which rounds a negative sum towards 0.
abbrev pub stat_blocks : ℕ → ℕ
stat_blocks v =
    if leb 2147483648 v
    then if leb (2 ^ 32 - v) (4095 + 4095) then 0 else 2 ^ 64 - (2 ^ 32 - v - 4095) / fs_block_size
    else (v + 4095) / fs_block_size

unfoldable pub inode_to_stat : Inode → Stat
inode_to_stat n = record {
  st_mode = n.mode;
  st_uid = n.uid;
  st_gid = n.gid;
  st_size = widen n.size;
  st_nlink = 1;
  st_mtime = n.mtime;
  st_atime = n.mtime;
  st_ctime = n.mtime;
  st_blocks = stat_blocks n.size;
}

pub record StatVfs : Type 0 where
  pub f_bsize : ℕ
  pub f_blocks : ℕ
  pub f_bfree : ℕ
  pub f_bavail : ℕ
  pub f_namemax : ℕ
  pub f_frsize : ℕ
  pub f_files : ℕ
  pub f_ffree : ℕ
  pub f_favail : ℕ

-- `for (i ...) if (bit_test(bitmap, i)) used++;`, over `n` blocks from block `i` on.
unfoldable pub count_used : Block → ℕ → ℕ → ℕ
count_used m zero i = 0
count_used m (suc n) i = (if bit_test m i then 1 else 0) + count_used m n (i + 1)

-- `(inode.mode & S_IFMT) | (mode & ~S_IFMT)`; the complement is taken in 32 bits.
unfoldable pub chmod_mode : ℕ → ℕ → ℕ
chmod_mode old new = bit_or (bit_and old s_ifmt) (bit_and new (2 ^ 32 - 1 - s_ifmt))

module _ ⦃H : Host⦄ where
  -- A failure ends the program.
  unfoldable pub fs_init : Action Fs (Unit {0})
  fs_init s = elim (load_fs_metadata s) [
    | done a s' ↦ done tt s'
    | failed e s' ↦ fault
    | fault ↦ fault
  ]

  unfoldable pub fs_getattr : Str → Action Fs Stat
  fs_getattr path = do inum ← translate path; n ← read_inode inum; pure (inode_to_stat n)

  unfoldable pub fs_chmod : Str → ℕ → Action Fs (Unit {0})
  fs_chmod path mode = do
    inum ← translate path
    n ← read_inode inum
    write_inode inum (record n { mode = chmod_mode n.mode mode })

  -- `modtime` is cut to the 32 bits of the fields.
  unfoldable pub fs_utime : Str → ℕ → Action Fs (Unit {0})
  fs_utime path modtime = do
    inum ← translate path
    n ← read_inode inum
    write_inode inum (record n { mtime = modtime % 2 ^ 32; ctime = modtime % 2 ^ 32 })

  -- A disk larger than the bitmap makes the loop read beyond it. `f_blocks` is a pattern of 64 bits.
  unfoldable pub fs_statfs : Action Fs StatVfs
  fs_statfs s =
      if leb (disk_size s.superblock) bitmap_bits
      then done
          (record {
            f_bsize = fs_block_size;
            f_blocks = (disk_size s.superblock + 2 ^ 64 - 2) % 2 ^ 64;
            f_bfree = disk_size s.superblock - count_used s.bitmap (disk_size s.superblock) 0;
            f_bavail = disk_size s.superblock - count_used s.bitmap (disk_size s.superblock) 0;
            f_namemax = max_name_len;
            f_frsize = 0;
            f_files = 0;
            f_ffree = 0;
            f_favail = 0;
          })
          s
      else fault

-- `filler(ptr, name, &st, 0)`: the new contents of the caller's buffer, and whether it returned 0.
abbrev pub Filler : Type 0 → Type 0
Filler B = B → Str → Stat → B × Bool

module _ ⦃H : Host⦄ {B : Type 0} (filler : Filler B) where
  -- What follows a call of `filler`: the loop goes on with the buffer, or ends.
  abbrev pub after_filler : (B → Action Fs B) → B × Bool → Action Fs B
  after_filler rest (buf, true) s = rest buf s
  after_filler rest (buf, false) s = done buf s

  -- An entry in use, by what the read of the child's inode yields. A child that cannot be read is
  -- passed over.
  abbrev pub fill_child : B → Str → (B → Action Fs B) → Outcome Fs Inode → Outcome Fs B
  fill_child buf t rest fault = fault
  fill_child buf t rest (failed e s) = rest buf s
  fill_child buf t rest (done child s) = after_filler rest (filler buf t (inode_to_stat child)) s

  -- The loop over the `n` entries from entry `i` on.
  unfoldable pub fill_from : Block → ℕ → ℕ → B → Action Fs B
  fill_from d zero i buf = pure buf
  fill_from d (suc n) i buf = λ s. elim (valid d i) [
    | false ↦ fill_from d n (i + 1) buf s
    | true ↦ fill_child buf (name d i) (fill_from d n (i + 1)) (read_inode (inode_num d i) s)
  ]

  unfoldable pub fs_readdir : Str → B → Action Fs B
  fs_readdir path buf = do
    inum ← translate path
    n ← read_inode inum
    require (is_dir n) enotdir
    d ← block_read (n.ptrs 0)
    fill_from d 128 0 buf
