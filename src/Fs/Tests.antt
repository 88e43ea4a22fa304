-- ===== src/Fs/Tests.antt =====
-- A small disk in memory, and the theorems of this folder at work on it.
mod Blocks
mod Files
mod Listings
mod Trees
mod Two
use cs5600_computer_systems.Prelude.{
  ℕ, ◌+◌, ◌*◌, ◌%◌, ◌<◌, ◌≤◌, ◌≡◌, ◌≢◌, refl, Bool, true, false, not, ◌||◌, Option, none, some,
  List, [], ◌∷◌, arith, ◌==◌, ==_iff, if◌then◌else◌, Str, str_eq, find_from, all_below,
  all_below-at, ltb, leb, ap, ◌∙◌, sym, subst, get_or, reverse, length, ◌↔◌,
}
use cs5600_computer_systems.Fs.Block.{Block, zero_block, fs_block_size, store32, load32, byte}
use cs5600_computer_systems.Fs.Host.{Host}
use cs5600_computer_systems.Fs.Inode.{
  Inode, decode_inode, encode_inode, is_dir, is_reg, block_count, is_negative, ptr_count,
}
use cs5600_computer_systems.Fs.Inode.Codec.{IsInode, decode-encode}
use cs5600_computer_systems.Fs.Dirent.{
  find_entry, find_free, find_valid, valid, matches, name, c_string, inode_num, put_entry, put_name,
  clear_valid, max_name_len,
}
use cs5600_computer_systems.Fs.Dirent.Slots.{IsBytes, IsDirBlock, IsText}
use cs5600_computer_systems.Fs.Dirent.Directory.{IsUnique, lookup_in}
use cs5600_computer_systems.Fs.Disk.{State, Fs, disk_size, block_read, read_inode}
use cs5600_computer_systems.Fs.Bitmap.{
  bit_set, bit_clear, bit_test, first_free, allocate_block, free_block, bitmap_bits,
}
use cs5600_computer_systems.Fs.Path.{
  translate, walk, enter, components, tokens, tokens_from, lookup_parent, split_parent, basename,
  dirname, trim_slash, root_inum,
}
use cs5600_computer_systems.Fs.Path.Resolves.{Holds, Child, Resolves, here, down}
use cs5600_computer_systems.Fs.Writes.{IsReliable}
use cs5600_computer_systems.Fs.Tree.{IsDirectory}
use cs5600_computer_systems.Fs.Action.{done, failed}

abbrev pub overwritten : ℕ → Block → (ℕ → Block) → ℕ → Block
overwritten off b m p = if p == off then b else m p

pub overwritten_self :
    (off : ℕ) (b : Block) (m : ℕ → Block) → some (overwritten off b m off) ≡ some b
overwritten_self off b m = ground arith

pub overwritten_ne :
    (off p : ℕ) (b : Block) (m : ℕ → Block) → off ≢ p → some (overwritten off b m p) ≡ some (m p)
overwritten_ne off p b m ne = ground arith

-- A disk image in memory.
instance unfoldable pub memory : Host
memory = record {
  Image = ℕ → Block;
  pread = λ off m. some (m off);
  pwrite = λ off b m. (true, overwritten off b m);
  can_dup = λ t. true;
  pread-pwrite_self = λ off b m ok. overwritten_self off b m;
  pread-pwrite_ne = λ off p b m ok ne. overwritten_ne off p b m ne;
}

pub io : IsReliable
unfolding memory
io = record { writes = λ off b m. refl }

abbrev pub inode_of : ℕ → ℕ → ℕ → Inode
inode_of mode size first = record {
  uid = 1;
  gid = 2;
  mode = mode;
  ctime = 3;
  mtime = 4;
  size = size;
  ptrs = λ k. if k == 0 then first else 0;
}

-- The root, with its entries in block 3, and the file "a", inode 4 with its data in block 6.
abbrev pub root_block : Block
root_block = encode_inode (inode_of 0o040755 4096 3)

abbrev pub file_inode : Inode
file_inode = inode_of 0o100644 5 6

abbrev pub file_block : Block
file_block = encode_inode file_inode

abbrev pub text_a : Str
text_a = b'a' ∷ []

abbrev pub text_b : Str
text_b = b'b' ∷ []

abbrev pub path_a : Str
path_a = b'/' ∷ b'a' ∷ []

abbrev pub path_c : Str
path_c = b'/' ∷ b'c' ∷ []

abbrev pub text_c : Str
text_c = b'c' ∷ []

abbrev pub path_b : Str
path_b = b'/' ∷ b'b' ∷ []

abbrev pub entries : Block
entries o = if o == 0 then 9 else if o == 4 then b'a' else 0

abbrev pub map_block : Block
map_block o = if o == 0 then 95 else 0

abbrev pub data_block : Block
data_block o = if o == 0 then 104 else if o == 1 then 105 else 0

abbrev pub super_block : Block
super_block o = if o == 4 then 8 else 0

-- The image of a disk by the entries of the root, the inode in block 4, and block 6.
abbrev pub image : Block → Block → Block → ℕ → Block
image listing inode_block block_6 off =
    if off == 0
    then super_block
    else if off == 4096
    then map_block
    else if off == 8192
    then root_block
    else if off == 12288
    then listing
    else if off == 16384
    then inode_block
    else if off == 24576
    then block_6
    else zero_block

abbrev pub disk_of : Block → Block → Block → Fs
unfolding memory
disk_of listing inode_block block_6 = record {
  image = image listing inode_block block_6;
  superblock = super_block;
  bitmap = map_block;
}

abbrev pub disk : Fs
disk = disk_of entries file_block data_block

-- The disk on which "a" is a directory that is not empty.
abbrev pub dir_block : Block
dir_block = encode_inode (inode_of 0o040755 4096 6)

abbrev pub nested : Fs
nested = disk_of entries dir_block entries

-- The disk on which the root has no free entry.
abbrev pub full_entries : Block
full_entries o = if o % 32 == 0 then 9 else if o % 32 == 4 then b'a' else 0

abbrev pub full : Fs
full = disk_of full_entries file_block data_block

pub is_root : is_dir (decode_inode root_block) ≡ true
unfolding is_dir decode_inode encode_inode load32
is_root = refl

pub root_first : (decode_inode root_block).ptrs 0 ≡ 3
unfolding is_dir decode_inode encode_inode load32
root_first = refl

pub at_root :
    (listing inode_block block_6 : Block) → Holds (disk_of listing inode_block block_6) 2 root_block
unfolding memory
at_root listing inode_block block_6 = record { reached = omega arith; content = refl }

pub at_file : Holds disk 4 file_block
unfolding memory
at_file = record { reached = omega arith; content = refl }

pub bit_root : bit_test map_block 2 ≡ true
unfolding bit_test
bit_root = refl

pub bit_listing : bit_test map_block 3 ≡ true
unfolding bit_test
bit_listing = refl

pub dir_of :
    (listing inode_block block_6 : Block)
    → IsDirBlock listing
    → IsDirectory (disk_of listing inode_block block_6) map_block 2 3 listing
unfolding memory
dir_of listing inode_block block_6 names = record {
  inode_block = root_block;
  inode = at_root listing inode_block block_6;
  directory = is_root;
  first = root_first;
  listing = record { reached = omega arith; content = refl };
  names = names;
  apart = omega arith;
  parent_taken = bit_root;
  block_taken = bit_listing;
  parent_above = omega arith;
  block_above = omega arith;
  block_below = omega arith;
}

pub entries-IsDirBlock : IsDirBlock entries
entries-IsDirBlock j lt = ground arith

full-IsDirBlock : IsDirBlock full_entries
full-IsDirBlock j lt = ground arith

pub dir : IsDirectory disk map_block 2 3 entries
dir = dir_of entries file_block data_block entries-IsDirBlock

pub nested_dir : IsDirectory nested map_block 2 3 entries
nested_dir = dir_of entries dir_block entries entries-IsDirBlock

pub full_dir : IsDirectory full map_block 2 3 full_entries
full_dir = dir_of full_entries file_block data_block full-IsDirBlock

pub entries-IsBytes : IsBytes entries
entries-IsBytes o = ground arith

pub map-IsBytes : IsBytes map_block
map-IsBytes o = ground arith

pub old_a : find_entry entries text_a ≡ some 0
unfolding find_entry find_from matches valid load32 name c_string str_eq
old_a = refl

pub new_b : find_entry entries text_b ≡ none
unfolding find_entry find_from matches valid load32 name c_string str_eq
new_b = refl

pub free_1 : find_free entries ≡ some 1
unfolding find_free find_from valid load32
free_1 = refl

pub first_free_5 : first_free map_block (disk_size super_block) ≡ some 5
unfolding first_free find_from bit_test disk_size load32
first_free_5 = refl

pub first_free_7 : first_free (bit_set map_block 5) (disk_size super_block) ≡ some 7
unfolding first_free find_from bit_test bit_set disk_size load32
first_free_7 = refl

pub parent_a : (s : Fs) → lookup_parent path_a s ≡ done (2, text_a) s
unfolding memory lookup_parent split_parent translate walk components tokens tokens_from basename
    dirname trim_slash str_eq
parent_a s = refl

pub parent_b : (s : Fs) → lookup_parent path_b s ≡ done (2, text_b) s
unfolding memory lookup_parent split_parent translate walk components tokens tokens_from basename
    dirname trim_slash str_eq
parent_b s = refl

pub parent_c : (s : Fs) → lookup_parent path_c s ≡ done (2, text_c) s
unfolding memory lookup_parent split_parent translate walk components tokens tokens_from basename
    dirname trim_slash str_eq
parent_c s = refl

pub new_c : find_entry entries text_c ≡ none
unfolding find_entry find_from matches valid load32 name c_string str_eq
new_c = refl

pub full_none : find_free full_entries ≡ none
unfolding find_free find_from valid load32
full_none = refl

pub full_new_b : find_entry full_entries text_b ≡ none
unfolding find_entry find_from matches valid load32 name c_string str_eq
full_new_b = refl

pub nested_used : find_valid entries ≡ some 0
unfolding find_valid find_from valid load32
nested_used = refl

pub only_0 : all_below 128 (λ k. not (valid entries k) || k == 0) ≡ true
unfolding all_below valid load32
only_0 = refl

at_0 : (k : ℕ) (u : Str) → k < 128 → matches entries u k ≡ true → k ≡ 0
unfolding matches
at_0 k u lt h =
    let small = all_below-at (λ m. not (valid entries m) || m == 0) 128 k lt only_0 in
    ground (arith, small)

pub unique : IsUnique entries
unique i j t li lj hi hj = omega (arith, at_0 i t li hi, at_0 j t lj hj)

pub file-IsInode : IsInode file_inode
file-IsInode = record {
  uid = omega arith;
  gid = omega arith;
  mode = omega arith;
  ctime = omega arith;
  mtime = omega arith;
  size = omega arith;
  ptrs = λ i. ground arith;
  rest = λ i h. ground arith;
}

pub ptr_of : (j : ℕ) → (decode_inode file_block).ptrs j ≡ (if j == 0 then 6 else 0)
ptr_of j = ap (λ (n : Inode). n.ptrs j) (decode-encode file_inode file-IsInode)
