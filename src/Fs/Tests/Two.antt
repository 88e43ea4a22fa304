-- ===== src/Fs/Tests/Two.antt =====
-- A disk with two files, and a write to one of them.
use cs5600_computer_systems.Prelude.{
  ℕ, ◌<◌, ◌≤◌, ◌≡◌, ◌≢◌, refl, true, Str, arith, ◌==◌, if◌then◌else◌, ap, ◌∙◌, sym, subst,
  find_from, str_eq, all_below, all_below-at,
}
use cs5600_computer_systems.Fs.Block.{Block, load32}
use cs5600_computer_systems.Fs.Inode.{Inode, encode_inode, is_reg}
use cs5600_computer_systems.Fs.Inode.Codec.{IsInode}
use cs5600_computer_systems.Fs.Dirent.{inode_num, find_entry, matches, valid, name, c_string}
use cs5600_computer_systems.Fs.Dirent.Slots.{IsBytes}
use cs5600_computer_systems.Fs.Disk.{Fs}
use cs5600_computer_systems.Fs.Bitmap.{bit_test}
use cs5600_computer_systems.Fs.Path.{components, tokens, tokens_from, root_inum}
use cs5600_computer_systems.Fs.Path.Resolves.{Holds, Child}
use cs5600_computer_systems.Fs.Path.Trail.{Trail, here, down}
use cs5600_computer_systems.Fs.Data.{fs_read, fs_write}
use cs5600_computer_systems.Fs.Data.File.{File, Foreign, blocks_of}
use cs5600_computer_systems.Fs.Data.Isolation.{IsApart, fs_read-fs_write_other}
use cs5600_computer_systems.Fs.Action.{done}
use cs5600_computer_systems.Fs.Tests.{
  memory, io, image, inode_of, data_block, super_block, root_block, file_block, file_inode,
  file-IsInode, text_a, text_b, path_a, path_b, is_root, root_first,
}

-- "a" is inode 4 with its data in block 6, "b" inode 5 with its data in block 7.
abbrev entries : Block
entries o =
    if o == 0
    then 9
    else if o == 4
    then b'a'
    else if o == 32
    then 11
    else if o == 36
    then b'b'
    else 0

abbrev inode_b : Inode
inode_b = inode_of 0o100644 3 7

abbrev data_b : Block
data_b o = if o == 0 then 66 else 0

abbrev map_block : Block
map_block o = if o == 0 then 255 else 0

abbrev both_files : ℕ → Block
both_files off =
    if off == 20480
    then encode_inode inode_b
    else if off == 28672
    then data_b
    else image entries file_block data_block off

abbrev disk : Fs
unfolding memory
disk = record { image = both_files; superblock = super_block; bitmap = map_block }

inode_b-IsInode : IsInode inode_b
inode_b-IsInode = record {
  uid = omega arith;
  gid = omega arith;
  mode = omega arith;
  ctime = omega arith;
  mtime = omega arith;
  size = omega arith;
  ptrs = λ i. ground arith;
  rest = λ i h. ground arith;
}

all_bits : all_below 8 (bit_test map_block) ≡ true
unfolding all_below bit_test
all_bits = refl

bits : (k : ℕ) → k < 8 → bit_test map_block k ≡ true
bits k lt = all_below-at (bit_test map_block) 8 k lt all_bits

at_2 : Holds disk 2 root_block
unfolding memory disk
at_2 = record { reached = omega arith; content = refl }

at_3 : Holds disk 3 entries
unfolding memory disk
at_3 = record { reached = omega arith; content = refl }

at_4 : Holds disk 4 (encode_inode file_inode)
unfolding memory disk
at_4 = record { reached = omega arith; content = refl }

at_5 : Holds disk 5 (encode_inode inode_b)
unfolding memory disk
at_5 = record { reached = omega arith; content = refl }

at_6 : Holds disk 6 data_block
unfolding memory disk
at_6 = record { reached = omega arith; content = refl }

at_7 : Holds disk 7 data_b
unfolding memory disk
at_7 = record { reached = omega arith; content = refl }

regular_a : is_reg file_inode ≡ true
unfolding is_reg
regular_a = refl

regular_b : is_reg inode_b ≡ true
unfolding is_reg
regular_b = refl

-- A file of one block.
one_block :
    (inum p : ℕ) (n : Inode) (d : Block)
    → IsInode n
    → Holds disk inum (encode_inode n)
    → is_reg n ≡ true
    → 0 < n.size
    → n.size ≤ 4096
    → n.ptrs 0 ≡ p
    → Holds disk p d
    → 1 < inum
    → inum < 8
    → 1 < p
    → p < 8
    → p ≢ inum
    → File disk inum n (λ k. d)
unfolding disk
one_block inum p n d fields inode regular some_size size ptr held lo hi lo' hi' ne = record {
  fields = fields;
  inode = inode;
  regular = regular;
  room = omega arith;
  held = λ k lt. subst (λ b. Holds disk b d) (sym (at_ptr k lt)) held;
  inum_above = lo;
  inum_below = omega arith;
  above = λ k lt. omega (arith, at_ptr k lt);
  below = λ k lt. omega (arith, at_ptr k lt);
  apart = λ k lt. omega (arith, at_ptr k lt);
  distinct = λ j k lj lk e. omega arith;
  inum_taken = bits inum hi;
  taken = λ k lt. ap (bit_test map_block) (at_ptr k lt) ∙ bits p hi';
}
  where
    at_ptr : (k : ℕ) → k < blocks_of n.size → n.ptrs k ≡ p
    at_ptr k lt = let first : k ≡ 0 = omega arith in ap n.ptrs first ∙ ptr

file_a : File disk 4 file_inode (λ k. data_block)
file_a =
    one_block 4 6 file_inode data_block file-IsInode at_4 regular_a (omega arith) (omega arith) refl
      at_6 (omega arith) (omega arith) (omega arith) (omega arith) (omega arith)

file_b : File disk 5 inode_b (λ k. data_b)
file_b =
    one_block 5 7 inode_b data_b inode_b-IsInode at_5 regular_b (omega arith) (omega arith) refl
      at_7 (omega arith) (omega arith) (omega arith) (omega arith) (omega arith)

block-Foreign : (b : ℕ) → b < 8 → 1 ≢ b → 4 ≢ b → 6 ≢ b → Foreign disk 4 file_inode b
unfolding disk
block-Foreign b lt ne1 ne4 ne6 = record {
  taken = bits b lt;
  no_map = ne1;
  no_inode = ne4;
  no_ptr = λ k h. ground arith;
}

b-IsApart : IsApart disk 4 file_inode 5 inode_b
b-IsApart = record {
  inode = block-Foreign 5 (omega arith) (omega arith) (omega arith) (omega arith);
  ptrs = λ k lt.
      let first : 0 ≡ k = omega arith in
      subst (λ j. Foreign disk 4 file_inode (inode_b.ptrs j)) first
        (block-Foreign 7 (omega arith) (omega arith) (omega arith) (omega arith));
}

child_a : Child disk 2 text_a 4
unfolding disk find_entry find_from matches valid load32 name c_string str_eq inode_num
child_a = record {
  inode_block = root_block;
  entries = entries;
  slot = 0;
  inode = at_2;
  directory = is_root;
  listing = subst (λ b. Holds disk b entries) (sym root_first) at_3;
  found = refl;
  names = refl;
}

child_b : Child disk 2 text_b 5
unfolding disk find_entry find_from matches valid load32 name c_string str_eq inode_num
child_b = record {
  inode_block = root_block;
  entries = entries;
  slot = 1;
  inode = at_2;
  directory = is_root;
  listing = subst (λ b. Holds disk b entries) (sym root_first) at_3;
  found = refl;
  names = refl;
}

keeps_2 : Foreign disk 4 file_inode 2
keeps_2 = block-Foreign 2 (omega arith) (omega arith) (omega arith) (omega arith)

keeps_3 : Foreign disk 4 file_inode 3
keeps_3 = block-Foreign 3 (omega arith) (omega arith) (omega arith) (omega arith)

a-Trail : Trail disk (Foreign disk 4 file_inode) root_inum (components path_a) 4
unfolding child_a encode_inode components tokens tokens_from
a-Trail = down child_a keeps_2 (subst (Foreign disk 4 file_inode) (sym root_first) keeps_3) here

b-Trail : Trail disk (Foreign disk 4 file_inode) root_inum (components path_b) 5
unfolding child_b encode_inode components tokens tokens_from
b-Trail = down child_b keeps_2 (subst (Foreign disk 4 file_inode) (sym root_first) keeps_3) here

map-IsBytes : IsBytes map_block
map-IsBytes o = ground arith

dup : (t : Str) → memory.can_dup t ≡ true
unfolding memory
dup t = refl

fs_read-fs_write_other_example :
    (s' : Fs) × (r : ℕ × Block) × (fs_write 9 path_a (λ o. 1) 4 1 disk ≡ done 4 s')
    × (fs_read path_b (λ o. 0) 10 0 disk ≡ done r disk)
    × (fs_read path_b (λ o. 0) 10 0 s' ≡ done r s')
unfolding disk
fs_read-fs_write_other_example =
    fs_read-fs_write_other io file_a file_b b-IsApart map-IsBytes 9 path_a path_b (λ o. 1) 4 1
      (λ k. 0) (omega arith) tt (λ k lo hi. absurd (omega arith)) (dup path_a) (dup path_b) a-Trail
      b-Trail (omega arith) (λ o. 0) 10 0 (omega arith)
