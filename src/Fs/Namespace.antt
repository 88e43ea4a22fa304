-- ===== src/Fs/Namespace.antt =====
-- The handlers of homework.c that change directories: create, mkdir, unlink, rmdir, rename.
use cs5600_computer_systems.Prelude.{
  ℕ, zero, suc, ◌+◌, ◌%◌, ◌^◌, bit_or, Bool, true, false, not, ◌||◌, Option, none, some, ◌==◌,
  if◌then◌else◌, Str,
}
use cs5600_computer_systems.Fs.Block.{Block, fs_block_size, zero_block}
use cs5600_computer_systems.Fs.Host.{Host}
use cs5600_computer_systems.Fs.Inode.{Inode, is_dir, s_ifdir, block_count}
use cs5600_computer_systems.Fs.Dirent.{
  inode_num, matches, find_entry, find_free, find_valid, put_name, put_entry, clear_valid,
}
use cs5600_computer_systems.Fs.Disk.{Fs, block_read, block_write, read_inode, write_inode, get_ptr}
use cs5600_computer_systems.Fs.Bitmap.{allocate_block, free_block}
use cs5600_computer_systems.Fs.Path.{lookup_parent}
use cs5600_computer_systems.Fs.Action.{
  enoent, enotdir, eisdir, enotempty, eexist, enospc, einval, Action, pure, fail, or_fail, require,
  ignore, ◌>>=◌, ◌>>◌,
}

-- What `fuse_get_context()` and `time(NULL)` give a call.
pub record Caller : Type 0 where
  pub uid : ℕ
  pub gid : ℕ
  pub now : ℕ

-- `new_inode`, its fields cut to their widths.
unfoldable pub new_inode : Caller → ℕ → ℕ → (ℕ → ℕ) → Inode
new_inode c mode size ptrs = record {
  uid = c.uid % 2 ^ 16;
  gid = c.gid % 2 ^ 16;
  mode = mode % 2 ^ 32;
  ctime = c.now % 2 ^ 32;
  mtime = c.now % 2 ^ 32;
  size = size;
  ptrs = ptrs;
}

-- `memset(new_inode.ptrs, 0, ...)`, then `new_inode.ptrs[0] = first`.
abbrev pub one_ptr : ℕ → ℕ → ℕ
one_ptr first k = if k == 0 then first else 0

abbrev pub is_none {ℓ} : {A : Type ℓ} → Option A → Bool
is_none none = true
is_none (some a) = false

-- The scan of `fs_rename` over the `n` entries from entry `i` on: `none` if the destination is
-- there, and else whether the source was found.
unfoldable pub rename_scan : Block → Str → Str → ℕ → ℕ → Bool → Option Bool
rename_scan d src dst zero i found = some found
rename_scan d src dst (suc n) i found =
    let rest = rename_scan d src dst n (i + 1) (matches d src i || found) in
    if matches d dst i then none else rest

module _ ⦃H : Host⦄ where
  -- The second half of `fs_create` and `fs_mkdir`: the first free entry takes the new inode.
  unfoldable pub add_entry : Block → ℕ → ℕ → Str → Action Fs (Unit {0})
  add_entry d block inum leaf = elim (find_free d) [
    | none ↦ fail enospc
    | some i ↦ block_write (put_entry d i inum leaf) block
  ]

  -- The first half of `fs_create` and `fs_mkdir`: the parent directory's block number and block,
  -- in which the leaf must not stand.
  unfoldable pub open_parent : ℕ → Str → Action Fs (ℕ × Block)
  open_parent parent leaf = do
    n ← read_inode parent
    require (is_dir n) enotdir
    d ← block_read (n.ptrs 0)
    require (is_none (find_entry d leaf)) eexist
    pure (n.ptrs 0, d)

  unfoldable pub create_in : Caller → ℕ → ℕ → Block → Str → Action Fs (Unit {0})
  create_in c mode block d leaf = do
    inum ← allocate_block
    write_inode inum (new_inode c mode 0 (λ _. 0))
    add_entry d block inum leaf

  unfoldable pub fs_create : Caller → Str → ℕ → Action Fs (Unit {0})
  fs_create c path mode = do
    (parent, leaf) ← lookup_parent path
    (block, d) ← open_parent parent leaf
    create_in c mode block d leaf

  unfoldable pub mkdir_in : Caller → ℕ → ℕ → Block → Str → Action Fs (Unit {0})
  mkdir_in c mode block d leaf = do
    inum ← allocate_block
    dblk ← allocate_block
    block_write zero_block dblk
    write_inode inum (new_inode c (bit_or s_ifdir mode) fs_block_size (one_ptr dblk))
    add_entry d block inum leaf

  unfoldable pub fs_mkdir : Caller → Str → ℕ → Action Fs (Unit {0})
  fs_mkdir c path mode = do
    (parent, leaf) ← lookup_parent path
    (block, d) ← open_parent parent leaf
    mkdir_in c mode block d leaf

  -- `for (i ...) free_block(inode.ptrs[i])` over `n` block numbers from `i` on.
  unfoldable pub free_ptrs : Inode → ℕ → ℕ → Action Fs (Unit {0})
  free_ptrs n zero i = pure tt
  free_ptrs n (suc k) i = do b ← get_ptr n i; ignore (free_block b); free_ptrs n k (i + 1)

  -- The parent of `fs_unlink` and `fs_rmdir`, which is not checked to be a directory: its first
  -- block number, that block, and the entry of the leaf.
  unfoldable pub find_in_parent : ℕ → Str → Action Fs (ℕ × Block × ℕ)
  find_in_parent parent leaf = do
    n ← read_inode parent
    d ← block_read (n.ptrs 0)
    i ← or_fail enoent (find_entry d leaf)
    pure (n.ptrs 0, d, i)

  unfoldable pub unlink_in : ℕ → Block → ℕ → Action Fs (Unit {0})
  unlink_in block d i = do
    n ← read_inode (inode_num d i)
    require (not (is_dir n)) eisdir
    block_write (clear_valid d i) block
    ignore (free_block (inode_num d i))
    free_ptrs n (block_count n) 0

  unfoldable pub fs_unlink : Str → Action Fs (Unit {0})
  fs_unlink path = do
    (parent, leaf) ← lookup_parent path
    (block, d, i) ← find_in_parent parent leaf
    unlink_in block d i

  unfoldable pub rmdir_in : ℕ → Block → ℕ → Action Fs (Unit {0})
  rmdir_in block d i = do
    n ← read_inode (inode_num d i)
    require (is_dir n) enotdir
    inner ← block_read (n.ptrs 0)
    require (is_none (find_valid inner)) enotempty
    block_write (clear_valid d i) block
    ignore (free_block (inode_num d i))
    ignore (free_block (n.ptrs 0))

  unfoldable pub fs_rmdir : Str → Action Fs (Unit {0})
  fs_rmdir path = do
    (parent, leaf) ← lookup_parent path
    (block, d, i) ← find_in_parent parent leaf
    rmdir_in block d i

  unfoldable pub rename_in : ℕ → Block → Str → Str → Action Fs (Unit {0})
  rename_in block d src dst = elim (rename_scan d src dst 128 0 false) [
    | none ↦ fail eexist
    | some found ↦ do
      require found enoent
      i ← or_fail enoent (find_entry d src)
      block_write (put_name d i dst) block
  ]

  unfoldable pub fs_rename : Str → Str → Action Fs (Unit {0})
  fs_rename src_path dst_path = do
    (src_parent, src_leaf) ← lookup_parent src_path
    (dst_parent, dst_leaf) ← lookup_parent dst_path
    require (src_parent == dst_parent) einval
    n ← read_inode src_parent
    d ← block_read (n.ptrs 0)
    rename_in (n.ptrs 0) d src_leaf dst_leaf
