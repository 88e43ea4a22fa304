-- ===== src/Fs/Tests/Trees.antt =====
-- The theorems on create, mkdir, unlink, rmdir and rename, on the disk of the tests.
use cs5600_computer_systems.Prelude.{
  ℕ, ◌<◌, ◌*◌, ◌%◌, ◌==◌, ap, str_eq, str_eq_refl, ◌≡◌, ◌≢◌, refl, true, false, arith,
  if◌then◌else◌,
}
use cs5600_computer_systems.Fs.Block.{load32}
use cs5600_computer_systems.Fs.Inode.{
  decode_inode, encode_inode, is_dir, block_count, is_negative, ptr_count,
}
use cs5600_computer_systems.Fs.Dirent.{inode_num}
use cs5600_computer_systems.Fs.Bitmap.{bit_test, bitmap_bits}
use cs5600_computer_systems.Fs.Namespace.{
  Caller, new_inode, fs_create, fs_mkdir, fs_unlink, fs_rmdir, fs_rename,
}
use cs5600_computer_systems.Fs.Action.{done, failed, eisdir, enotdir, enotempty, enospc}
use cs5600_computer_systems.Fs.Disk.{Fs}
use cs5600_computer_systems.Fs.Path.Resolves.{Holds}
use cs5600_computer_systems.Fs.Tree.{IsDirectory}
use cs5600_computer_systems.Fs.Tree.Create.{Created, fs_create-Created, fs_create-leaks}
use cs5600_computer_systems.Fs.Tree.Mkdir.{Made, fs_mkdir-Made}
use cs5600_computer_systems.Fs.Tree.Unlink.{
  Unlinked, file_type, unlink-wrong_kind, fs_rmdir-not_empty, fs_unlink-Unlinked,
}
use cs5600_computer_systems.Fs.Tree.Rename.{Renamed, fs_rename-Renamed}
use cs5600_computer_systems.Fs.Tests.{
  memory, io, disk, map_block, entries, file_block, text_a, text_b, path_a, path_b, dir, unique,
  entries-IsBytes, map-IsBytes, old_a, new_b, free_1, first_free_5, first_free_7, ptr_of, disk_of,
  nested, nested_dir, dir_block, full, full_dir, full_entries, full_none, full_new_b, parent_a,
  parent_b, at_file,
}

abbrev caller : Caller
caller = record { uid = 1000; gid = 1000; now = 7 }

file_a : inode_num entries 0 ≡ 4
unfolding inode_num load32
file_a = refl

at_a : Holds disk (inode_num entries 0) file_block
unfolding inode_num load32
at_a = at_file

at_nested : Holds nested (inode_num entries 0) dir_block
unfolding inode_num load32 memory
at_nested = record { reached = omega arith; content = refl }

nested_listing : Holds nested ((decode_inode dir_block).ptrs 0) entries
unfolding decode_inode encode_inode load32 memory
nested_listing = record { reached = omega arith; content = refl }

nested_kind : file_type (decode_inode dir_block) ≡ 4
unfolding decode_inode encode_inode load32
nested_kind = refl

nested_bit : load32 entries (32 * 0) % 2 ≡ 1
unfolding load32
nested_bit = refl

not_dir : is_dir (decode_inode file_block) ≡ false
unfolding is_dir decode_inode encode_inode load32
not_dir = refl

one_block : block_count (decode_inode file_block) ≡ 1
unfolding block_count is_negative decode_inode encode_inode load32
one_block = refl

ptrs_small : (j : ℕ) → j < ptr_count → (decode_inode file_block).ptrs j < bitmap_bits
ptrs_small j lt = ground (arith, ptr_of j)

differ_b_a : str_eq text_b text_a ≡ false
unfolding str_eq
differ_b_a = refl

names_differ : text_b ≢ text_a
names_differ e = cc (ap (str_eq text_b) e, str_eq_refl text_b, differ_b_a)

fs_create-Created_example :
    (s' : Fs) × (fs_create caller path_b 420 disk ≡ done tt s')
    × Created disk s' 2 3 text_b 5 (new_inode caller 420 0 (λ _. 0))
unfolding disk_of
fs_create-Created_example =
    fs_create-Created disk 2 3 entries dir caller path_b text_b 420 (parent_b disk) io new_b 5
      first_free_5 1 (omega arith, tt) (omega arith) free_1

fs_mkdir-Made_example :
    (s' : Fs) × (fs_mkdir caller path_b 493 disk ≡ done tt s') × Made disk s' 2 text_b 5 7
unfolding disk_of
fs_mkdir-Made_example =
    fs_mkdir-Made io disk 2 3 entries dir map-IsBytes 5 7 first_free_5 first_free_7 caller path_b
      text_b 493 1 (parent_b disk) (omega arith) (omega arith, tt) (omega arith) new_b free_1

unlink-wrong_kind_example :
    (if file_type (decode_inode file_block) == 4
      then fs_unlink path_a disk
      else fs_rmdir path_a disk)
    ≡ failed (if file_type (decode_inode file_block) == 4 then eisdir else enotdir) disk
unfolding disk_of
unlink-wrong_kind_example =
    unlink-wrong_kind disk 2 3 entries dir path_a text_a (parent_a disk) 0 old_a file_block at_a

fs_unlink-Unlinked_example :
    (s' : Fs) × (fs_unlink path_a disk ≡ done tt s')
    × Unlinked disk s' 2 text_a (inode_num entries 0) (decode_inode file_block)
unfolding disk_of
fs_unlink-Unlinked_example =
    fs_unlink-Unlinked disk 2 3 entries dir path_a text_a (parent_a disk) 0 old_a file_block at_a io
      unique entries-IsBytes map-IsBytes (omega (arith, file_a)) not_dir (omega (arith, one_block))
      ptrs_small

fs_rmdir-not_empty_example : fs_rmdir path_a nested ≡ failed enotempty nested
unfolding disk_of
fs_rmdir-not_empty_example =
    fs_rmdir-not_empty nested 2 3 entries nested_dir path_a text_a (parent_a nested) 0 old_a
      dir_block at_nested entries 0 nested_kind nested_listing (omega arith) nested_bit

fs_create-leaks_example :
    (s' : Fs) × (fs_create caller path_b 420 full ≡ failed enospc s')
    × (bit_test map_block 5 ≡ false)
    × (bit_test s'.bitmap 5 ≡ true)
    × IsDirectory s' map_block 2 3 full_entries
unfolding disk_of
fs_create-leaks_example =
    fs_create-leaks full 2 3 full_entries full_dir caller path_b text_b 420 (parent_b full) io
      full_new_b 5 first_free_5 full_none map-IsBytes

fs_rename-Renamed_example :
    (s' : Fs) × (fs_rename path_a path_b disk ≡ done tt s') × Renamed disk s' 2 text_a text_b
unfolding disk_of
fs_rename-Renamed_example =
    fs_rename-Renamed disk map_block 2 3 entries dir path_a path_b text_a text_b (parent_a disk)
      (parent_b disk) io unique (omega arith, tt) (omega arith) 0 old_a new_b names_differ
