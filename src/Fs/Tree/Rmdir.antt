-- ===== src/Fs/Tree/Rmdir.antt =====
-- `fs_rmdir` of an empty directory.
use cs5600_computer_systems.Prelude.{ℕ, ◌<◌, ◌≡◌, ◌≢◌, true, false, none, some, arith, ◌∙◌, Str}
use cs5600_computer_systems.Fs.Block.{Block}
use cs5600_computer_systems.Fs.Host.{Host}
use cs5600_computer_systems.Fs.Inode.{is_dir, decode_inode}
use cs5600_computer_systems.Fs.Dirent.{find_entry, find_valid, inode_num, clear_valid}
use cs5600_computer_systems.Fs.Dirent.Slots.{IsBytes}
use cs5600_computer_systems.Fs.Dirent.Directory.{IsUnique}
use cs5600_computer_systems.Fs.Disk.{Fs}
use cs5600_computer_systems.Fs.Bitmap.{bit_test, bit_clear, bitmap_bits}
use cs5600_computer_systems.Fs.Bitmap.Bits.{bit_test-bit_clear, bit_clear-IsBytes}
use cs5600_computer_systems.Fs.Path.{lookup_parent}
use cs5600_computer_systems.Fs.Path.Resolves.{Holds, read_inode-Holds, block_read-Holds}
use cs5600_computer_systems.Fs.Namespace.{fs_rmdir, rmdir_in}
use cs5600_computer_systems.Fs.Writes.{IsReliable, with_map, block_write-done, free_block-done}
use cs5600_computer_systems.Fs.Tree.{IsDirectory, find_in_parent-there, IsDirectory-with_map}
use cs5600_computer_systems.Fs.Tree.Unlink.{
  HasLostChild, clear-HasLostChild, entry_cleared, cleared, cleared_ne, cleared_eq,
}
use cs5600_computer_systems.Fs.Action.{done}

-- What `fs_rmdir` leaves behind: the directory's inode and its block of entries are marked as free, and no
-- other mark changed.
pub record Removed ⦃H : Host⦄ (s s' : Fs) (parent : ℕ) (leaf : Str) (inum entries : ℕ)
    : Type 0 where
  pub child : HasLostChild s s' parent leaf
  pub inode_free : bit_test s'.bitmap inum ≡ false
  pub entries_free : bit_test s'.bitmap entries ≡ false
  pub others_kept : (b : ℕ) → inum ≢ b → entries ≢ b → bit_test s'.bitmap b ≡ bit_test s.bitmap b

clears_both :
    (m : Block) (i j b : ℕ)
    → IsBytes m
    → i ≢ b
    → j ≢ b
    → bit_test (bit_clear (bit_clear m i) j) b ≡ bit_test m b
clears_both m i j b bytes ne ne' =
    bit_test-bit_clear (bit_clear m i) j b (bit_clear-IsBytes m i bytes)
    ∙ cleared_ne j b (bit_test (bit_clear m i) b) ne'
    ∙ bit_test-bit_clear m i b bytes
    ∙ cleared_ne i b (bit_test m b) ne

clears_first : (m : Block) (i j : ℕ) → IsBytes m → bit_test (bit_clear (bit_clear m i) j) i ≡ false
clears_first m i j bytes =
    bit_test-bit_clear (bit_clear m i) j i (bit_clear-IsBytes m i bytes)
    ∙ ground (arith, bit_test-bit_clear m i i bytes)

module _ ⦃H : Host⦄ (s : Fs) (parent block : ℕ) (d : Block)
    (dir : IsDirectory s s.bitmap parent block d) (path leaf : Str)
    (at : lookup_parent path s ≡ done (parent, leaf) s) (slot : ℕ)
    (here : find_entry d leaf ≡ some slot) (inode_block inner : Block)
    (held : Holds s (inode_num d slot) inode_block) (io : IsReliable) (unique : IsUnique d)
    (bytes : IsBytes d) (map_bytes : IsBytes s.bitmap) where
  abbrev inum : ℕ
  inum = inode_num d slot

  abbrev listing : ℕ
  listing = (decode_inode inode_block).ptrs 0

  abbrev entry_gone : Fs
  entry_gone = entry_cleared io s s.bitmap parent block d dir unique bytes leaf slot here

  abbrev both_freed : Fs
  both_freed =
      with_map (bit_clear (bit_clear s.bitmap inum) listing)
        (with_map (bit_clear s.bitmap inum) entry_gone)

  both_freed-IsDirectory : IsDirectory both_freed s.bitmap parent block (clear_valid d slot)
  both_freed-IsDirectory = IsDirectory-with_map io _ s.bitmap _ parent block (clear_valid d slot) (
      IsDirectory-with_map io _ s.bitmap _ parent block (clear_valid d slot)
        (cleared io s s.bitmap parent block d dir unique bytes leaf slot here))

  -- On a disk whose writes succeed, with the path's parent a sound directory of bytes whose
  -- entries have distinct names, a bitmap of bytes, and the leaf a directory whose block of
  -- entries has none in use, both blocks within the bitmap: `fs_rmdir` succeeds; the parent has
  -- lost the child of that name and has its other children as before; the bits of the
  -- directory's inode and of its block of entries are clear, and every other bit is as before.
  pub fs_rmdir-Removed :
      is_dir (decode_inode inode_block) ≡ true
      → Holds s listing inner
      → find_valid inner ≡ none
      → inum < bitmap_bits
      → listing < bitmap_bits
      → (s' : Fs) × (fs_rmdir path s ≡ done tt s') × Removed s s' parent leaf inum listing
  unfolding fs_rmdir rmdir_in
  fs_rmdir-Removed kind inner_held empty small small' = (
    both_freed,
    rw (
      at,
      find_in_parent-there dir leaf slot here,
      read_inode-Holds s inum held,
      kind,
      block_read-Holds s listing inner_held,
      empty,
      block_write-done io (clear_valid d slot) block s (omega (arith, dir.block_above))
          dir.block_below,
      free_block-done io entry_gone inum small,
      free_block-done io (with_map (bit_clear s.bitmap inum) entry_gone) listing small',
    ),
    record {
      child =
          clear-HasLostChild io s s.bitmap parent block d dir unique bytes leaf slot here both_freed
            both_freed-IsDirectory;
      inode_free = clears_first s.bitmap inum listing map_bytes;
      entries_free =
          bit_test-bit_clear (bit_clear s.bitmap inum) listing listing
            (bit_clear-IsBytes s.bitmap inum map_bytes)
          ∙ cleared_eq listing (bit_test (bit_clear s.bitmap inum) listing);
      others_kept = λ b ne ne'. clears_both s.bitmap inum listing b map_bytes ne ne';
    },
  )
