-- ===== src/Fs/Attributes/ReadOnly.antt =====
-- The handlers that only read.
use cs5600_computer_systems.Prelude.{
  ℕ, zero, suc, ◌+◌, ◌-◌, refl, Bool, true, false, ltb, leb, Bool-cases, inl, inr, Str,
}
use Prim.Native.Nat.{min}
use cs5600_computer_systems.Fs.Block.{Block, fs_block_size, copy_into}
use cs5600_computer_systems.Fs.Host.{Host}
use cs5600_computer_systems.Fs.Inode.{Inode, is_dir, is_reg, ptr_count}
use cs5600_computer_systems.Fs.Dirent.{valid, inode_num, name}
use cs5600_computer_systems.Fs.Bitmap.{bitmap_bits}
use cs5600_computer_systems.Fs.Disk.{Fs, disk_size, get_ptr, read_inode, block_read}
use cs5600_computer_systems.Fs.Path.{translate}
use cs5600_computer_systems.Fs.Path.Walk.{block_read-Leaves, read_inode-Leaves, translate-Leaves}
use cs5600_computer_systems.Fs.Attributes.{
  Filler, fill_from, fill_child, after_filler, fs_getattr, fs_readdir, fs_statfs, inode_to_stat,
}
use cs5600_computer_systems.Fs.Data.{fs_read, read_loop, read_len}
use cs5600_computer_systems.Fs.Action.{
  Outcome, done, failed, fault, require, enotdir, eisdir, Action,
}
use cs5600_computer_systems.Fs.Action.Leaves.{Leaves, and_then-Leaves, require-Leaves}

module _ ⦃H : Host⦄ where
  fs_getattr-Leaves : (path : Str) (s : Fs) → Leaves s (fs_getattr path s)
  unfolding fs_getattr
  fs_getattr-Leaves path s =
      and_then-Leaves s (translate path s) _ (translate-Leaves path s)
        λ inum. and_then-Leaves s (read_inode inum s) _ (read_inode-Leaves inum s) λ n. refl

  fs_statfs-Leaves : (s : Fs) → Leaves s (fs_statfs s)
  unfolding fs_statfs
  fs_statfs-Leaves s = elim (Bool-cases (leb (disk_size s.superblock) bitmap_bits)) [
    | inl small ↦ rw small refl
    | inr large ↦ rw large tt
  ]

  get_ptr-Leaves : (n : Inode) (i : ℕ) (s : Fs) → Leaves s (get_ptr n i s)
  get_ptr-Leaves n i s = elim (Bool-cases (ltb i ptr_count)) [
    | inl inside ↦ rw inside refl
    | inr behind ↦ rw behind tt
  ]

  read_loop-Leaves :
      (fuel : ℕ) (n : Inode) (start from got len : ℕ) (buf : Block) (s : Fs)
      → Leaves s (read_loop fuel n start from got len buf s)
  unfolding read_loop
  read_loop-Leaves zero n start from got zero buf s = refl
  read_loop-Leaves (suc fuel) n start from got zero buf s = refl
  read_loop-Leaves zero n start from got (suc l) buf s = tt
  read_loop-Leaves (suc fuel) n start from got (suc l) buf s =
      and_then-Leaves s (get_ptr n start s) _ (get_ptr-Leaves n start s) λ num.
        and_then-Leaves s (block_read num s) _ (block_read-Leaves num s) λ b.
          read_loop-Leaves fuel n (start + 1) 0 (got + min (fs_block_size - from) (suc l))
            (suc l - min (fs_block_size - from) (suc l))
            (copy_into buf got b from (min (fs_block_size - from) (suc l))) s

  fs_read-Leaves :
      (path : Str) (buf : Block) (len offset : ℕ) (s : Fs)
      → Leaves s (fs_read path buf len offset s)
  unfolding fs_read
  fs_read-Leaves path buf len offset s =
      and_then-Leaves s (translate path s) _ (translate-Leaves path s) λ inum.
        and_then-Leaves s (read_inode inum s) _ (read_inode-Leaves inum s) λ n.
          and_then-Leaves s (require (is_reg n) eisdir s) _ (require-Leaves s (is_reg n) eisdir)
            λ _. read_loop-Leaves (read_len n len offset) n _ _ 0 (read_len n len offset) buf s

module _ ⦃H : Host⦄ {B : Type 0} (filler : Filler B) where
  after_filler-Leaves :
      (rest : B → Action Fs B) (p : B × Bool) (s : Fs)
      → ((b : B) → Leaves s (rest b s))
      → Leaves s (after_filler filler rest p s)
  after_filler-Leaves rest (buf, true) s h = h buf
  after_filler-Leaves rest (buf, false) s h = refl

  fill_child-Leaves :
      (buf : B) (t : Str) (rest : B → Action Fs B) (r : Outcome Fs Inode) (s : Fs)
      → Leaves s r
      → ((b : B) → Leaves s (rest b s))
      → Leaves s (fill_child filler buf t rest r)
  fill_child-Leaves buf t rest fault s h more = tt
  fill_child-Leaves buf t rest (failed e s') s h more = rw h (more buf)
  fill_child-Leaves buf t rest (done child s') s h more =
      rw h (after_filler-Leaves rest (filler buf t (inode_to_stat child)) s more)

  fill_from-Leaves :
      (d : Block) (n i : ℕ) (buf : B) (s : Fs) → Leaves s (fill_from filler d n i buf s)
  unfolding fill_from
  fill_from-Leaves d zero i buf s = refl
  fill_from-Leaves d (suc n) i buf s = elim (Bool-cases (valid d i)) [
    | inl used ↦
        rw (used, fill_from)
          (fill_child-Leaves buf (name d i) (fill_from filler d n (i + 1))
            (read_inode (inode_num d i) s) s (read_inode-Leaves (inode_num d i) s)
            (λ b. fill_from-Leaves d n (i + 1) b s))
    | inr unused ↦ rw (unused, fill_from) (fill_from-Leaves d n (i + 1) buf s)
  ]

  fs_readdir-Leaves : (path : Str) (buf : B) (s : Fs) → Leaves s (fs_readdir filler path buf s)
  unfolding fs_readdir
  fs_readdir-Leaves path buf s =
      and_then-Leaves s (translate path s) _ (translate-Leaves path s) λ inum.
        and_then-Leaves s (read_inode inum s) _ (read_inode-Leaves inum s) λ n.
          and_then-Leaves s (require (is_dir n) enotdir s) _ (require-Leaves s (is_dir n) enotdir)
            λ _.
              and_then-Leaves s (block_read (n.ptrs 0) s) _ (block_read-Leaves (n.ptrs 0) s)
                λ d. fill_from-Leaves d 128 0 buf s

  -- However `fs_getattr`, `fs_readdir`, `fs_read` and `fs_statfs` return, with a result or with
  -- an error, for any path, filler, buffer, length and offset, the state is unchanged.
  pub handlers-Leaves :
      (path : Str) (s : Fs) (buf : B) (bytes : Block) (len offset : ℕ)
      → Leaves s (fs_getattr path s)
        × Leaves s (fs_readdir filler path buf s)
        × Leaves s (fs_read path bytes len offset s)
        × Leaves s (fs_statfs s)
  handlers-Leaves path s buf bytes len offset = (
    fs_getattr-Leaves path s,
    fs_readdir-Leaves path buf s,
    fs_read-Leaves path bytes len offset s,
    fs_statfs-Leaves s,
  )
