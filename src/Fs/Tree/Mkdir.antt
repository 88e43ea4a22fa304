-- ===== src/Fs/Tree/Mkdir.antt =====
-- `fs_mkdir` of a new name on a sound parent directory.
use cs5600_computer_systems.Prelude.{
  ℕ, ◌%◌, ◌^◌, ◌<◌, ◌≤◌, ◌≡◌, ◌≢◌, refl, true, false, none, some, arith, Str, length, ◌∙◌, sym,
  bit_or, bit_and, ◌==◌, all_below, all_below-at, ltb, find_from-none,
}
use cs5600_computer_systems.Fs.Block.{Block, fs_block_size, zero_block}
use cs5600_computer_systems.Fs.Host.{Host}
use cs5600_computer_systems.Fs.Inode.{Inode, encode_inode, decode_inode, is_dir, s_ifdir, s_ifmt}
use cs5600_computer_systems.Fs.Inode.Codec.{IsInode, decode-encode}
use cs5600_computer_systems.Fs.Dirent.{
  valid, find_entry, find_free, matches, put_entry, max_name_len,
}
use cs5600_computer_systems.Fs.Dirent.Slots.{IsText, IsBytes}
use cs5600_computer_systems.Fs.Dirent.Find.{matches-invalid}
use cs5600_computer_systems.Fs.Dirent.Directory.{lookup_in-absent}
use cs5600_computer_systems.Fs.Disk.{Fs, disk_size}
use cs5600_computer_systems.Fs.Bitmap.{bit_test, bit_set, first_free}
use cs5600_computer_systems.Fs.Bitmap.Bits.{bit_set-keeps, bit_test-bit_set, bit_set-IsBytes}
use cs5600_computer_systems.Fs.Bitmap.Blocks.{first_free-bounds}
use cs5600_computer_systems.Fs.Path.{lookup_parent}
use cs5600_computer_systems.Fs.Path.Resolves.{Holds, Child}
use cs5600_computer_systems.Fs.Namespace.{Caller, new_inode, one_ptr, mkdir_in, fs_mkdir}
use cs5600_computer_systems.Fs.Writes.{
  IsReliable, with_block, with_map, block_write-done, write_inode-done, allocate_block-done,
  Holds-with_block_self, Holds-with_block_ne, Holds-with_map_self,
}
use cs5600_computer_systems.Fs.Tree.{
  IsDirectory, Child-lookup_in, open_parent-new, IsDirectory-with_block, IsDirectory-with_map,
}
use cs5600_computer_systems.Fs.Tree.Added.{HasNewChild, entry-HasNewChild}
use cs5600_computer_systems.Fs.Tree.Create.{add_entry-done, taken_ne}
use cs5600_computer_systems.Fs.Action.{done}

-- Permission bits do not disturb the type bits.
dir_table : all_below 4096 (λ m. bit_and (bit_or s_ifdir m) s_ifmt == s_ifdir) ≡ true
unfolding all_below
dir_table = refl

dir_small : all_below 4096 (λ m. ltb (bit_or s_ifdir m) 65536) ≡ true
unfolding all_below
dir_small = refl

-- The inode that `fs_mkdir` writes.
abbrev pub dir_inode : Caller → ℕ → ℕ → Inode
dir_inode c mode dblk = new_inode c (bit_or s_ifdir mode) fs_block_size (one_ptr dblk)

dir_inode-IsInode : (c : Caller) (mode dblk : ℕ) → dblk < 32768 → IsInode (dir_inode c mode dblk)
unfolding new_inode
dir_inode-IsInode c mode dblk lt = record {
  uid = omega arith;
  gid = omega arith;
  mode = omega arith;
  ctime = omega arith;
  mtime = omega arith;
  size = omega arith;
  ptrs = λ i. ground arith;
  rest = λ i h. ground arith;
}

dir_inode-is_dir :
    (c : Caller) (mode dblk : ℕ) → mode < 4096 → is_dir (dir_inode c mode dblk) ≡ true
unfolding is_dir new_inode
dir_inode-is_dir c mode dblk lt =
    let small : bit_or s_ifdir mode < 65536 =
      ground (arith, all_below-at _ 4096 mode lt dir_small) in
    let kept : bit_or s_ifdir mode % 2 ^ 32 ≡ bit_or s_ifdir mode = omega arith in
    rw kept (all_below-at _ 4096 mode lt dir_table)

dir_inode-first : (c : Caller) (mode dblk : ℕ) → (dir_inode c mode dblk).ptrs 0 ≡ dblk
unfolding new_inode
dir_inode-first c mode dblk = refl

valid-zero_block : (k : ℕ) → valid zero_block k ≡ false
unfolding valid
valid-zero_block k = refl

-- A block of zeros has no entry.
find_entry-zero_block : (t : Str) → find_entry zero_block t ≡ none
unfolding find_entry
find_entry-zero_block t =
    find_from-none (matches zero_block t) 128 0
      (λ k lo hi. matches-invalid zero_block t k (valid-zero_block k))

-- What `fs_mkdir` leaves behind: the new child `i`, which is a directory with its entries in block
-- `j` and no child.
pub record Made ⦃H : Host⦄ (s s' : Fs) (parent : ℕ) (leaf : Str) (i j : ℕ) : Type 0 where
  pub child : HasNewChild s s' parent leaf i
  pub directory : IsDirectory s' s'.bitmap i j zero_block
  pub no_child : (t : Str) (k : ℕ) → Child s' i t k → ⊥
  pub map : s'.bitmap ≡ bit_set (bit_set s.bitmap i) j
  pub map_on_disk : Holds s' 1 s'.bitmap

module _ ⦃H : Host⦄ (io : IsReliable) (s : Fs) (parent block : ℕ) (d : Block)
    (dir : IsDirectory s s.bitmap parent block d) (bytes : IsBytes s.bitmap) (i j : ℕ)
    (found : first_free s.bitmap (disk_size s.superblock) ≡ some i)
    (found_too : first_free (bit_set s.bitmap i) (disk_size s.superblock) ≡ some j) where
  abbrev two_taken : Fs
  two_taken = with_map (bit_set (bit_set s.bitmap i) j) (with_map (bit_set s.bitmap i) s)

  abbrev dir_written : Inode → Fs
  dir_written n = with_block i (encode_inode n) (with_block j zero_block two_taken)

  -- The two new blocks are apart from each other and from those of the parent.
  record Fresh : Type 0 where
    i_above : 1 < i
    j_above : 1 < j
    i_below : i < 32768
    j_below : j < 32768
    distinct : i ≢ j
    i_parent : i ≢ parent
    i_block : i ≢ block
    j_parent : j ≢ parent
    j_block : j ≢ block

  fresh : Fresh
  fresh =
      let (lo, hi, reach, was) = first_free-bounds s i found in
      let (lo', hi', reach', was') =
        first_free-bounds (with_map (bit_set s.bitmap i) s) j found_too in
      let set_i : bit_test (bit_set s.bitmap i) i ≡ true =
        bit_test-bit_set s.bitmap i i bytes ∙ ground arith in
      record {
        i_above = lo;
        j_above = lo';
        i_below = reach;
        j_below = reach';
        distinct = λ e. taken_ne (bit_set s.bitmap i) j i was' set_i (sym e);
        i_parent = taken_ne s.bitmap i parent was dir.parent_taken;
        i_block = taken_ne s.bitmap i block was dir.block_taken;
        j_parent =
            taken_ne (bit_set s.bitmap i) j parent was'
              (bit_set-keeps s.bitmap i parent bytes dir.parent_taken);
        j_block =
            taken_ne (bit_set s.bitmap i) j block was'
              (bit_set-keeps s.bitmap i block bytes dir.block_taken);
      }

  middle : (n : Inode) → IsDirectory (dir_written n) s.bitmap parent block d
  middle n =
      IsDirectory-with_block io (with_block j zero_block two_taken) s.bitmap parent block d
        (IsDirectory-with_block io two_taken s.bitmap parent block d
          (IsDirectory-with_map io (with_map (bit_set s.bitmap i) s) s.bitmap
            (bit_set (bit_set s.bitmap i) j) parent block d
            (IsDirectory-with_map io s s.bitmap (bit_set s.bitmap i) parent block d dir))
          j zero_block fresh.j_parent fresh.j_block)
        i (encode_inode n) fresh.i_parent fresh.i_block

  mkdir_in-done :
      (c : Caller) (mode slot : ℕ) (leaf : Str)
      → find_free d ≡ some slot
      → mkdir_in c mode block d leaf s
        ≡ done tt (with_block block (put_entry d slot i leaf) (dir_written (dir_inode c mode j)))
  unfolding mkdir_in
  mkdir_in-done c mode slot leaf free =
      rw
        (
          allocate_block-done io s i found,
          allocate_block-done io (with_map (bit_set s.bitmap i) s) j found_too,
          block_write-done io zero_block j two_taken (omega (arith, fresh.j_above))
              (omega (arith, fresh.j_below)),
          write_inode-done io i (dir_inode c mode j) (with_block j zero_block two_taken)
              (omega (arith, fresh.i_above)) (omega (arith, fresh.i_below)),
        )
        (add_entry-done io s parent block d dir leaf (dir_written (dir_inode c mode j)) i slot free)

  -- The entries' block of the new directory, and its inode, at the end.
  new_dir :
      (c : Caller) (mode : ℕ) (e : Block)
      → mode < 4096
      → IsBytes (bit_set s.bitmap i)
      → IsDirectory
          (with_block block e (dir_written (dir_inode c mode j)))
          (bit_set (bit_set s.bitmap i) j)
          i
          j
          zero_block
  new_dir c mode e perm bytes' =
      let n = dir_inode c mode j in
      let same : decode_inode (encode_inode n) ≡ n =
        decode-encode n (dir_inode-IsInode c mode j fresh.j_below) in
      record {
        inode_block = encode_inode n;
        inode =
            Holds-with_block_ne io block i e (encode_inode n) (dir_written n)
              (λ q. fresh.i_block (sym q))
              (Holds-with_block_self io i (encode_inode n) (with_block j zero_block two_taken)
                (omega (arith, fresh.i_below)));
        directory = rw same (dir_inode-is_dir c mode j perm);
        first = rw same (dir_inode-first c mode j);
        listing =
            Holds-with_block_ne io block j e zero_block (dir_written n) (λ q. fresh.j_block (sym q))
              (Holds-with_block_ne io i j (encode_inode n) zero_block
                (with_block j zero_block two_taken) fresh.distinct
                (Holds-with_block_self io j zero_block two_taken (omega (arith, fresh.j_below))));
        names = λ k lt. refl;
        apart = fresh.distinct;
        parent_taken =
            bit_set-keeps (bit_set s.bitmap i) j i bytes'
              (bit_test-bit_set s.bitmap i i bytes ∙ ground arith);
        block_taken = bit_test-bit_set (bit_set s.bitmap i) j j bytes' ∙ ground arith;
        parent_above = fresh.i_above;
        block_above = fresh.j_above;
        block_below = omega (arith, fresh.j_below);
      }

module _ ⦃H : Host⦄ (io : IsReliable) (s : Fs) (parent block : ℕ) (d : Block)
    (dir : IsDirectory s s.bitmap parent block d) (bytes : IsBytes s.bitmap) (i j : ℕ)
    (found : first_free s.bitmap (disk_size s.superblock) ≡ some i)
    (found_too : first_free (bit_set s.bitmap i) (disk_size s.superblock) ≡ some j) where
  -- On a disk whose writes succeed, with the path's parent a sound directory that has no entry
  -- of the leaf (a text of at most 27 bytes) and a free entry, permission bits below 4096, a
  -- bitmap of bytes, and two free blocks `i` and `j` in the bitmap: `fs_mkdir` succeeds; the
  -- parent then has one child more, `i` under the leaf, and its other children as before; `i` is
  -- a sound directory with its entries in block `j` and no child; the two bits are set in memory
  -- and on the disk.
  pub fs_mkdir-Made :
      (c : Caller) (path leaf : Str) (mode slot : ℕ)
      → lookup_parent path s ≡ done (parent, leaf) s
      → mode < 4096
      → IsText leaf
      → length leaf ≤ max_name_len
      → find_entry d leaf ≡ none
      → find_free d ≡ some slot
      → (s' : Fs) × (fs_mkdir c path mode s ≡ done tt s') × Made s s' parent leaf i j
  unfolding fs_mkdir
  fs_mkdir-Made c path leaf mode slot at perm text fits new free =
      let t = dir_written io s parent block d dir bytes i j found found_too (dir_inode c mode j) in
      let e = put_entry d slot i leaf in
      let f = fresh io s parent block d dir bytes i j found found_too in
      let made =
        new_dir io s parent block d dir bytes i j found found_too c mode e perm
          (bit_set-IsBytes s.bitmap i bytes) in
      (
        with_block block e t,
        rw (at, open_parent-new dir leaf new)
            (mkdir_in-done io s parent block d dir bytes i j found found_too c mode slot leaf free),
        record {
          child =
              entry-HasNewChild io s t s.bitmap parent block d dir
                (middle io s parent block d dir bytes i j found found_too (dir_inode c mode j)) leaf
                text fits new i slot (omega (arith, f.i_below)) free;
          directory = made;
          no_child = λ u k child. cc (
            (Child-lookup_in made u k).0 child,
            lookup_in-absent zero_block u (find_entry-zero_block u),
          );
          map = refl;
          map_on_disk =
              Holds-with_block_ne io block 1 e (bit_set (bit_set s.bitmap i) j) t
                (omega (arith, dir.block_above))
                (Holds-with_block_ne io i 1 (encode_inode (dir_inode c mode j)) _ _
                  (omega (arith, f.i_above))
                  (Holds-with_block_ne io j 1 zero_block _ _ (omega (arith, f.j_above)) (
                    Holds-with_map_self io (bit_set (bit_set s.bitmap i) j)
                      (with_map (bit_set s.bitmap i) s))));
        },
      )
