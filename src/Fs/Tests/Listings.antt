-- ===== src/Fs/Tests/Listings.antt =====
-- The theorems on directories as a whole, on the disk of the tests and on one with an empty directory.
use cs5600_computer_systems.Prelude.{
  ℕ, ◌<◌, ◌≡◌, refl, true, not, none, List, [], ◌∷◌, arith, ◌==◌, ◌||◌, all_below-at, Str, sym,
  subst, length, ltb,
}
use cs5600_computer_systems.Fs.Block.{zero_block, load32}
use cs5600_computer_systems.Fs.Inode.{decode_inode, encode_inode, is_dir}
use cs5600_computer_systems.Fs.Dirent.{inode_num, valid, find_valid}
use cs5600_computer_systems.Prelude.{find_from, str_eq}
use cs5600_computer_systems.Fs.Disk.{Fs}
use cs5600_computer_systems.Fs.Path.{translate, root_path}
use cs5600_computer_systems.Fs.Path.Resolves.{Holds}
use cs5600_computer_systems.Fs.Attributes.{Filler, fs_getattr, fs_readdir, fs_statfs}
use cs5600_computer_systems.Fs.Attributes.Listing.{listing, filled, fs_readdir-listing}
use cs5600_computer_systems.Fs.Attributes.ReadOnly.{handlers-Leaves}
use cs5600_computer_systems.Fs.Data.{fs_read}
use cs5600_computer_systems.Fs.Namespace.{fs_rmdir}
use cs5600_computer_systems.Fs.Tree.{IsDirectory}
use cs5600_computer_systems.Fs.Tree.Rmdir.{Removed, fs_rmdir-Removed}
use cs5600_computer_systems.Fs.Action.{done}
use cs5600_computer_systems.Fs.Action.Leaves.{Leaves}
use cs5600_computer_systems.Fs.Tests.{
  memory, disk, disk_of, dir_of, entries, map_block, data_block, root_block, file_block, dir_block,
  text_a, path_a, map-IsBytes, entries-IsBytes, entries-IsDirBlock, unique, old_a, at_file, at_root,
  is_root, root_first, io, parent_a, only_0,
}

-- The buffer of the caller is the list of the names so far; the filler takes two.
abbrev take_two : Filler (List Str)
take_two buf t st = (t ∷ buf, ltb (length buf) 1)

root : translate root_path disk ≡ done 2 disk
unfolding translate str_eq
root = refl

at_3 : Holds disk 3 entries
unfolding memory disk_of
at_3 = record { reached = omega arith; content = refl }

num_a : inode_num entries 0 ≡ 4
unfolding inode_num load32
num_a = refl

child_held :
    (k : ℕ) → k < 128 → valid entries k ≡ true → Holds disk (inode_num entries k) file_block
child_held k lt used =
    let first : 0 ≡ k =
      ground (arith, all_below-at (λ m. not (valid entries m) || m == 0) 128 k lt only_0) in
    subst (λ j. Holds disk (inode_num entries j) file_block) first
      (subst (λ b. Holds disk b file_block) (sym num_a) at_file)

fs_readdir-listing_example :
    fs_readdir take_two root_path [] disk
    ≡ done (filled take_two [] (listing entries (λ k. file_block) 128 0)) disk
unfolding disk_of
fs_readdir-listing_example =
    fs_readdir-listing take_two disk root_path 2 root_block entries (λ k. file_block) [] root
      (at_root entries file_block data_block) is_root
      (subst (λ b. Holds disk b entries) (sym root_first) at_3) child_held

handlers-Leaves_example :
    Leaves disk (fs_getattr path_a disk)
    × Leaves disk (fs_readdir take_two path_a [] disk)
    × Leaves disk (fs_read path_a (λ o. 0) 10 2 disk)
    × Leaves disk (fs_statfs disk)
handlers-Leaves_example = handlers-Leaves take_two path_a disk [] (λ o. 0) 10 2

-- The disk on which "a" is an empty directory.
abbrev hollow : Fs
hollow = disk_of entries dir_block zero_block

hollow_dir : IsDirectory hollow map_block 2 3 entries
hollow_dir = dir_of entries dir_block zero_block entries-IsDirBlock

num_small : inode_num entries 0 < 32768
unfolding inode_num load32
num_small = omega arith

dir_kind : is_dir (decode_inode dir_block) ≡ true
unfolding is_dir decode_inode encode_inode load32
dir_kind = refl

dir_first : (decode_inode dir_block).ptrs 0 ≡ 6
unfolding is_dir decode_inode encode_inode load32
dir_first = refl

at_4 : Holds hollow (inode_num entries 0) dir_block
unfolding memory disk_of inode_num load32
at_4 = record { reached = omega arith; content = refl }

at_6 : Holds hollow ((decode_inode dir_block).ptrs 0) zero_block
unfolding memory disk_of decode_inode encode_inode load32
at_6 = record { reached = omega arith; content = refl }

no_entry : find_valid zero_block ≡ none
unfolding find_valid find_from valid load32
no_entry = refl

fs_rmdir-Removed_example :
    (s' : Fs) × (fs_rmdir path_a hollow ≡ done tt s')
    × Removed hollow s' 2 text_a (inode_num entries 0) ((decode_inode dir_block).ptrs 0)
unfolding disk_of
fs_rmdir-Removed_example =
    fs_rmdir-Removed hollow 2 3 entries hollow_dir path_a text_a (parent_a hollow) 0 old_a dir_block
      zero_block at_4 io unique entries-IsBytes map-IsBytes dir_kind at_6 no_entry num_small
      (omega (arith, dir_first))
