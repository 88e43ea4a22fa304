-- ===== src/Fs/Tests/Blocks.antt =====
-- The theorems on inodes, entries, the bitmap, paths and reads, on the disk of the tests.
use cs5600_computer_systems.Prelude.{
  ℕ, ◌<◌, ◌≤◌, ◌*◌, ◌==◌, ◌≡◌, ◌↔◌, ◌++◌, refl, true, false, List, [], ◌∷◌, arith, if◌then◌else◌,
  Str, str_eq, length, ap, ◌∙◌, sym, subst,
}
use cs5600_computer_systems.Fs.Block.{fs_block_size, load32}
use cs5600_computer_systems.Fs.Inode.{decode_inode, encode_inode, is_dir, is_reg, is_negative}
use cs5600_computer_systems.Fs.Inode.Codec.{decode-encode}
use cs5600_computer_systems.Fs.Dirent.{
  max_name_len, inode_num, valid, name, find_entry, matches, c_string,
}
use cs5600_computer_systems.Fs.Bitmap.{allocate_block, free_block}
use cs5600_computer_systems.Fs.Bitmap.Blocks.{
  MapOutcome, Allocates, free_block-clears, allocate_block-Allocates,
}
use cs5600_computer_systems.Fs.Path.{
  translate, walk, enter, components, tokens, tokens_from, root_inum,
}
use cs5600_computer_systems.Fs.Path.Tokens.{IsComponent, join, AllComponents}
use cs5600_computer_systems.Fs.Path.Resolves.{
  Holds, Resolves, translate-Resolves, translate-join, translate-join_long,
}
use cs5600_computer_systems.Fs.Disk.{block_read, read_inode}
use cs5600_computer_systems.Fs.Action.{done}
use cs5600_computer_systems.Fs.Tests.{
  memory, disk, disk_of, entries, data_block, file_block, file_inode, file-IsInode, ptr_of,
  map-IsBytes, text_a, text_b, path_a,
}

decode-encode_example : decode_inode (encode_inode file_inode) ≡ file_inode
decode-encode_example = decode-encode file_inode file-IsInode

second_free : valid entries 1 ≡ false
unfolding valid load32
second_free = refl

allocate_block-Allocates_example : Allocates disk (allocate_block disk)
unfolding disk_of
allocate_block-Allocates_example = allocate_block-Allocates disk map-IsBytes

free_block-clears_example : MapOutcome disk 6 false (free_block 6 disk)
unfolding disk_of
free_block-clears_example = free_block-clears disk 6 map-IsBytes (omega arith)

abbrev two : List Str
two = text_a ∷ text_b ∷ []

two_plain : AllComponents two
two_plain = ((omega arith, tt), ((omega arith, tt), tt))

dup_all : (t : Str) → memory.can_dup t ≡ true
unfolding memory
dup_all t = refl

translate-Resolves_example :
    (translate path_a disk ≡ done 4 disk) ↔ Resolves disk root_inum (components path_a) 4
translate-Resolves_example = translate-Resolves path_a disk 4 (dup_all path_a)

translate-join_example : (translate (join two) disk ≡ done 4 disk) ↔ Resolves disk root_inum two 4
translate-join_example =
    translate-join two disk 4 two_plain (omega arith, (omega arith, tt)) (omega arith)
      (dup_all (join two))

abbrev five : List Str
five = text_a ∷ text_a ∷ text_a ∷ text_a ∷ text_a ∷ []

abbrev ten : List Str
ten = text_a ∷ text_a ∷ text_a ∷ text_a ∷ text_a ∷ five

translate-join_long_example :
    (translate (join (ten ++ two)) disk ≡ done 4 disk) ↔ Resolves disk root_inum ten 4
translate-join_long_example =
    translate-join_long ten two disk 4
      (
        plain,
        (plain, (plain, (plain, (plain, (plain, (plain, (plain, (plain, (plain, two_plain))))))))),
      )
      (fits, (fits, (fits, (fits, (fits, (fits, (fits, (fits, (fits, (fits, tt)))))))))) refl
      (dup_all (join (ten ++ two)))
  where
    plain : IsComponent text_a
    plain = (omega arith, tt)

    fits : length text_a ≤ max_name_len
    fits = omega arith

translated_a : translate path_a disk ≡ done 4 disk
unfolding memory disk_of translate walk enter components tokens tokens_from str_eq block_read
    read_inode decode_inode encode_inode load32 find_entry matches valid name c_string is_dir
    inode_num
translated_a = refl

regular : is_reg (decode_inode file_block) ≡ true
unfolding is_reg decode_inode encode_inode load32
regular = refl

positive : is_negative (decode_inode file_block) ≡ false
unfolding is_negative decode_inode encode_inode load32
positive = refl

size_5 : (decode_inode file_block).size ≡ 5
unfolding decode_inode encode_inode load32
size_5 = refl

at_data : Holds disk 6 data_block
unfolding memory disk_of
at_data = record { reached = omega arith; content = refl }

data_held :
    (k : ℕ)
    → k * fs_block_size < (decode_inode file_block).size
    → Holds disk ((decode_inode file_block).ptrs k) data_block
data_held k lt =
    let first : k ≡ 0 = omega (arith, size_5) in
    subst (λ b. Holds disk b data_block)
      (sym (ptr_of k ∙ ap (λ (j : ℕ). if j == 0 then 6 else 0) first)) at_data
