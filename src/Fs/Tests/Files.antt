-- ===== src/Fs/Tests/Files.antt =====
-- The theorems on the contents and the attributes of files, on the disk of the tests.
use cs5600_computer_systems.Prelude.{
  none, false, find_from, ℕ, ◌+◌, ◌-◌, ◌%◌, ◌<◌, ◌≤◌, ◌≡◌, ◌≢◌, refl, true, [], ◌∷◌, arith, ◌==◌,
  if◌then◌else◌, ap, ◌∙◌, sym, subst,
}
use Prim.Native.Nat.{min, max}
use cs5600_computer_systems.Fs.Block.{Block, zero_block, copy_into, load32}
use cs5600_computer_systems.Fs.Inode.{Inode, encode_inode, is_reg}
use cs5600_computer_systems.Fs.Dirent.{inode_num}
use cs5600_computer_systems.Fs.Disk.{Fs, disk_size}
use cs5600_computer_systems.Fs.Bitmap.{bit_test, bit_set, first_free, bitmap_bits}
use cs5600_computer_systems.Fs.Path.{translate, components, tokens, tokens_from, root_inum}
use cs5600_computer_systems.Fs.Path.Resolves.{Holds, Child, translate-Resolves}
use cs5600_computer_systems.Fs.Path.Trail.{Trail, here, down, Trail-now}
use cs5600_computer_systems.Fs.Attributes.{inode_to_stat, fs_getattr, fs_chmod, fs_utime}
use cs5600_computer_systems.Fs.Attributes.Changes.{fs_getattr-fs_chmod, fs_getattr-fs_utime}
use cs5600_computer_systems.Fs.Data.{fs_read, fs_write, fs_truncate}
use cs5600_computer_systems.Fs.Data.Read.{content}
use cs5600_computer_systems.Fs.Data.File.{File, Foreign, blocks_of}
use cs5600_computer_systems.Fs.Data.RoundTrip.{overwritten, fs_read-fs_write}
use cs5600_computer_systems.Fs.Data.Truncate.{Truncated, fs_truncate-Truncated}
use cs5600_computer_systems.Fs.Action.{done, failed, enospc}
use cs5600_computer_systems.Fs.Data.Leak.{fs_write-leaks}
use cs5600_computer_systems.Fs.Tests.{
  memory, disk, disk_of, entries, map_block, data_block, root_block, file_block, file_inode,
  file-IsInode, text_a, path_a, map-IsBytes, old_a, at_file, at_root, is_root, root_first, io,
  first_free_5, first_free_7, super_block,
}

-- What the blocks of "a" hold, with the free block 5 behind them.
abbrev blocks : ℕ → Block
blocks k = if k == 0 then data_block else zero_block

at_6 : Holds disk 6 data_block
unfolding memory disk_of
at_6 = record { reached = omega arith; content = refl }

at_5 : Holds disk 5 zero_block
unfolding memory disk_of
at_5 = record { reached = omega arith; content = refl }

one_block : blocks_of file_inode.size ≡ 1
one_block = refl

ptr_0 : (k : ℕ) → k < 1 → file_inode.ptrs k ≡ 6
ptr_0 k lt = ground arith

holds_0 : (k : ℕ) → k < 1 → Holds disk (file_inode.ptrs k) (blocks k)
holds_0 k lt =
    let first : 0 ≡ k = omega arith in
    subst (λ j. Holds disk (file_inode.ptrs j) (blocks j)) first at_6

bit_4 : bit_test map_block 4 ≡ true
unfolding bit_test
bit_4 = refl

bit_6 : bit_test map_block 6 ≡ true
unfolding bit_test
bit_6 = refl

bit_2 : bit_test map_block 2 ≡ true
unfolding bit_test
bit_2 = refl

bit_3 : bit_test map_block 3 ≡ true
unfolding bit_test
bit_3 = refl

is_regular : is_reg file_inode ≡ true
unfolding is_reg
is_regular = refl

file : File disk 4 file_inode blocks
unfolding disk_of
file = record {
  fields = file-IsInode;
  inode = at_file;
  regular = is_regular;
  room = omega arith;
  held = holds_0;
  inum_above = omega arith;
  inum_below = omega arith;
  above = λ k lt. omega (arith, ptr_0 k lt);
  below = λ k lt. omega (arith, ptr_0 k lt);
  apart = λ k lt. omega (arith, ptr_0 k lt);
  distinct = λ j k lj lk e. omega arith;
  inum_taken = bit_4;
  taken = λ k lt. ap (bit_test map_block) (ptr_0 k lt) ∙ bit_6;
}

at_3 : Holds disk 3 entries
unfolding memory disk_of
at_3 = record { reached = omega arith; content = refl }

num_a : inode_num entries 0 ≡ 4
unfolding inode_num load32
num_a = refl

child_a : Child disk 2 text_a 4
unfolding disk_of
child_a = record {
  inode_block = root_block;
  entries = entries;
  slot = 0;
  inode = at_root entries file_block data_block;
  directory = is_root;
  listing = subst (λ b. Holds disk b entries) (sym root_first) at_3;
  found = old_a;
  names = num_a;
}

parts_a : components path_a ≡ text_a ∷ []
unfolding components tokens tokens_from
parts_a = refl

-- The path of "a" stays as it is if the blocks of the root are kept.
trail : (Keep : ℕ → Type 0) → Keep 2 → Keep 3 → Trail disk Keep root_inum (components path_a) 4
unfolding child_a encode_inode
trail Keep keep_2 keep_3 =
    subst (λ cs. Trail disk Keep root_inum cs 4) (sym parts_a)
      (down child_a keep_2 (subst Keep (sym root_first) keep_3) here)

block_2-Foreign : Foreign disk 4 file_inode 2
unfolding disk_of
block_2-Foreign = record {
  taken = bit_2;
  no_map = omega arith;
  no_inode = omega arith;
  no_ptr = λ k lt. omega (arith, ptr_0 k lt);
}

block_3-Foreign : Foreign disk 4 file_inode 3
unfolding disk_of
block_3-Foreign = record {
  taken = bit_3;
  no_map = omega arith;
  no_inode = omega arith;
  no_ptr = λ k lt. omega (arith, ptr_0 k lt);
}

dup_a : memory.can_dup path_a ≡ true
unfolding memory
dup_a = refl

fresh_5 : (k : ℕ) → 1 ≤ k → k < 2 → Holds disk 5 (blocks k)
fresh_5 k lo hi =
    let second : 1 ≡ k = omega arith in subst (λ j. Holds disk 5 (blocks j)) second at_5

-- The bytes 3 to 4097 are written, which takes a new block.
fs_read-fs_write_example :
    (s' : Fs) × (fs_write 9 path_a (λ o. o % 256) 4095 3 disk ≡ done 4095 s')
    × (fs_read path_a (λ o. 0) 5000 1 s'
        ≡ done
            (
              min 5000 (max 5 (3 + 4095) - 1),
              copy_into
                  (λ o. 0)
                  0
                  (overwritten (content blocks) (λ o. o % 256) 4095 3)
                  1
                  (min 5000 (max 5 (3 + 4095) - 1)),
            )
            s')
unfolding disk_of
fs_read-fs_write_example =
    fs_read-fs_write io file map-IsBytes (λ o. o % 256) 4095 3 (omega arith) (λ k. 5)
      (first_free_5, tt) fresh_5 9 path_a dup_a
      (trail (Foreign disk 4 file_inode) block_2-Foreign block_3-Foreign) (omega arith) (λ o. 0)
      5000 1 (omega arith)

translated_a : translate path_a disk ≡ done 4 disk
translated_a =
    (translate-Resolves path_a disk 4 dup_a).1
      (Trail-now disk (λ b. Unit) (trail (λ b. Unit) tt tt))

full_disk : first_free (bit_set (bit_set map_block 5) 7) (disk_size super_block) ≡ none
unfolding first_free find_from bit_test bit_set disk_size load32
full_disk = refl

small_disk : disk_size super_block ≤ bitmap_bits
unfolding disk_size load32
small_disk = omega arith

-- Three blocks are wanted, and two are there.
fs_write-leaks_example :
    (s' : Fs) × (fs_write 9 path_a (λ o. 1) 12288 3 disk ≡ failed enospc s')
    × File s' 4 file_inode blocks
    × ((j : ℕ)
        → 1 ≤ j
        → j < 1 + 2
        → (bit_test map_block (if j == 1 then 5 else 7) ≡ false)
          × (bit_test s'.bitmap (if j == 1 then 5 else 7) ≡ true))
unfolding disk_of
fs_write-leaks_example =
    fs_write-leaks io file map-IsBytes 9 path_a (λ o. 1) 12288 3 2 (λ j. if j == 1 then 5 else 7)
      translated_a (omega arith) (omega arith) (omega arith) (first_free_5, (first_free_7, tt))
      full_disk small_disk

fs_truncate-Truncated_example :
    (s' : Fs) × (n' : Inode) × (fs_truncate 9 path_a 0 disk ≡ done tt s')
    × Truncated disk s' 4 file_inode blocks n'
unfolding disk_of
fs_truncate-Truncated_example =
    fs_truncate-Truncated io file map-IsBytes (λ k lt. omega (arith, ptr_0 k lt)) 9 path_a
      translated_a

fs_getattr-fs_chmod_example :
    (s' : Fs) × (fs_chmod path_a 0o600 disk ≡ done tt s')
    × (fs_getattr path_a disk ≡ done (inode_to_stat file_inode) disk)
    × (fs_getattr path_a s' ≡ done (record (inode_to_stat file_inode) { st_mode = 0o100600 }) s')
unfolding disk_of
fs_getattr-fs_chmod_example =
    fs_getattr-fs_chmod io disk path_a dup_a 4 file_inode at_file file-IsInode (omega arith)
      (omega arith) (trail (λ b. 4 ≢ b) (omega arith) (omega arith)) 0o600 (omega arith)

fs_getattr-fs_utime_example :
    (s' : Fs) × (fs_utime path_a 4294967297 disk ≡ done tt s')
    × (fs_getattr path_a s'
        ≡ done (record (inode_to_stat file_inode) { st_mtime = 1; st_atime = 1; st_ctime = 1 }) s')
unfolding disk_of
fs_getattr-fs_utime_example =
    fs_getattr-fs_utime io disk path_a dup_a 4 file_inode at_file file-IsInode (omega arith)
      (omega arith) (trail (λ b. 4 ≢ b) (omega arith) (omega arith)) 4294967297
