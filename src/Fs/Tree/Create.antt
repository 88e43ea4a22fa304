-- ===== src/Fs/Tree/Create.antt =====
-- `fs_create` and `fs_mkdir` on a sound parent directory.
use cs5600_computer_systems.Prelude.{
  ℕ, ◌≤◌, ◌≡◌, ◌≢◌, refl, true, false, none, some, arith, Str, length, ◌∙◌, sym, subst,
}
use cs5600_computer_systems.Fs.Block.{Block}
use cs5600_computer_systems.Fs.Host.{Host}
use cs5600_computer_systems.Fs.Inode.{Inode, encode_inode}
use cs5600_computer_systems.Fs.Dirent.{find_entry, find_free, put_entry, max_name_len}
use cs5600_computer_systems.Fs.Dirent.Slots.{IsText, IsBytes}
use cs5600_computer_systems.Fs.Disk.{Fs, disk_size}
use cs5600_computer_systems.Fs.Bitmap.{bit_test, bit_set, first_free}
use cs5600_computer_systems.Fs.Bitmap.Bits.{bit_test-bit_set}
use cs5600_computer_systems.Fs.Bitmap.Blocks.{first_free-bounds}
use cs5600_computer_systems.Fs.Path.{lookup_parent}
use cs5600_computer_systems.Fs.Path.Resolves.{Holds}
use cs5600_computer_systems.Fs.Namespace.{
  Caller, new_inode, add_entry, create_in, fs_create, fs_mkdir,
}
use cs5600_computer_systems.Fs.Writes.{
  IsReliable, with_block, with_map, block_write-done, write_inode-done, allocate_block-done,
  Holds-with_block_self, Holds-with_block_ne, Holds-with_map_self, Holds-with_map_ne,
}
use cs5600_computer_systems.Fs.Tree.{
  IsDirectory, open_parent-new, open_parent-exists, IsDirectory-with_block, IsDirectory-with_map,
}
use cs5600_computer_systems.Fs.Tree.Added.{HasNewChild, entry-HasNewChild}
use cs5600_computer_systems.Fs.Action.{done, failed, eexist, enospc}

-- The state after block `i` was allocated and the inode `n` written there.
abbrev pub inode_written : ⦃H : Host⦄ → Fs → ℕ → Inode → Fs
inode_written s i n = with_block i (encode_inode n) (with_map (bit_set s.bitmap i) s)

module _ ⦃H : Host⦄ (io : IsReliable) (s : Fs) (parent block : ℕ) (d : Block)
    (dir : IsDirectory s s.bitmap parent block d) (leaf : Str) where
  pub add_entry-done :
      (t : Fs) (i slot : ℕ)
      → find_free d ≡ some slot
      → add_entry d block i leaf t ≡ done tt (with_block block (put_entry d slot i leaf) t)
  unfolding add_entry
  add_entry-done t i slot free =
      rw (free, add_entry)
        (block_write-done io (put_entry d slot i leaf) block t (omega (arith, dir.block_above))
          dir.block_below)

  pub add_entry-full :
      (t : Fs) (i : ℕ) → find_free d ≡ none → add_entry d block i leaf t ≡ failed enospc t
  unfolding add_entry
  add_entry-full t i full = rw (full, add_entry)

  module _ (i : ℕ) (found : first_free s.bitmap (disk_size s.superblock) ≡ some i) where
    create_in-done :
        (c : Caller) (mode slot : ℕ)
        → find_free d ≡ some slot
        → create_in c mode block d leaf s
          ≡ done tt (
              with_block block
                (put_entry d slot i leaf)
                (inode_written s i (new_inode c mode 0 (λ _. 0))))
    unfolding create_in
    create_in-done c mode slot free =
        let (lo, hi, reach, was) = first_free-bounds s i found in
        rw
          (
            allocate_block-done io s i found,
            write_inode-done io i (new_inode c mode 0 (λ _. 0)) (with_map (bit_set s.bitmap i) s)
                (omega arith) (omega arith),
          )
          (add_entry-done (inode_written s i (new_inode c mode 0 (λ _. 0))) i slot free)

pub taken_ne : (m : Block) (i k : ℕ) → bit_test m i ≡ false → bit_test m k ≡ true → i ≢ k
taken_ne m i k h g e = let r : bit_test m k ≡ false = subst (λ j. bit_test m j ≡ false) e h in cc

-- What `fs_create` leaves behind: the new child, its inode, the bitmap in memory and on the disk,
-- and every other block as it was.
pub record Created ⦃H : Host⦄ (s s' : Fs) (parent block : ℕ) (leaf : Str) (i : ℕ) (n : Inode)
    : Type 0 where
  pub child : HasNewChild s s' parent leaf i
  pub inode : Holds s' i (encode_inode n)
  pub map : s'.bitmap ≡ bit_set s.bitmap i
  pub map_on_disk : Holds s' 1 s'.bitmap
  pub superblock : s'.superblock ≡ s.superblock
  pub rest : (k : ℕ) (e : Block) → 1 ≢ k → i ≢ k → block ≢ k → Holds s k e → Holds s' k e

module _ ⦃H : Host⦄ (s : Fs) (parent block : ℕ) (d : Block)
    (dir : IsDirectory s s.bitmap parent block d) (c : Caller) (path leaf : Str) (mode : ℕ)
    (at : lookup_parent path s ≡ done (parent, leaf) s) where
  -- With the path's parent a sound directory that has an entry of the leaf, `fs_create` fails
  -- with EEXIST and changes nothing.
  pub fs_create-exists :
      (slot : ℕ) → find_entry d leaf ≡ some slot → fs_create c path mode s ≡ failed eexist s
  unfolding fs_create
  fs_create-exists slot old = rw (at, open_parent-exists dir leaf slot old)

  -- So does `fs_mkdir`.
  pub fs_mkdir-exists :
      (slot : ℕ) → find_entry d leaf ≡ some slot → fs_mkdir c path mode s ≡ failed eexist s
  unfolding fs_mkdir
  fs_mkdir-exists slot old = rw (at, open_parent-exists dir leaf slot old)

  module _ (io : IsReliable) (new : find_entry d leaf ≡ none) (i : ℕ)
      (found : first_free s.bitmap (disk_size s.superblock) ≡ some i) where
    -- The directory after the inode was written, before the entry was.
    middle : (n : Inode) → IsDirectory (inode_written s i n) s.bitmap parent block d
    middle n =
        let (lo, hi, reach, was) = first_free-bounds s i found in
        IsDirectory-with_block io (with_map (bit_set s.bitmap i) s) s.bitmap parent block d
          (IsDirectory-with_map io s s.bitmap (bit_set s.bitmap i) parent block d dir) i
          (encode_inode n) (taken_ne s.bitmap i parent was dir.parent_taken)
          (taken_ne s.bitmap i block was dir.block_taken)

    -- On a disk whose writes succeed, with the path's parent a sound directory that has no entry
    -- of the leaf (a text of at most 27 bytes), a free entry, and a free block `i` in the
    -- bitmap: `fs_create` succeeds; the parent then has one child more, `i` under the leaf, and
    -- its other children as before; block `i` holds the new inode; its bit is set in memory and
    -- on the disk; every block but this one, the bitmap's and that of the directory's entries is
    -- as before.
    pub fs_create-Created :
        (slot : ℕ)
        → IsText leaf
        → length leaf ≤ max_name_len
        → find_free d ≡ some slot
        → (s' : Fs) × (fs_create c path mode s ≡ done tt s')
          × Created s s' parent block leaf i (new_inode c mode 0 (λ _. 0))
    unfolding fs_create
    fs_create-Created slot text fits free =
        let (lo, hi, reach, was) = first_free-bounds s i found in
        let n = new_inode c mode 0 (λ _. 0) in
        let t = inode_written s i n in
        let neb = taken_ne s.bitmap i block was dir.block_taken in
        (
          with_block block (put_entry d slot i leaf) t,
          rw (at, open_parent-new dir leaf new)
              (create_in-done io s parent block d dir leaf i found c mode slot free),
          record {
            child =
                entry-HasNewChild io s t s.bitmap parent block d dir (middle n) leaf text fits new i
                  slot (omega arith) free;
            inode =
                Holds-with_block_ne io block i (put_entry d slot i leaf) (encode_inode n) t
                  (λ e. neb (sym e))
                  (Holds-with_block_self io i (encode_inode n) (with_map (bit_set s.bitmap i) s)
                    (omega arith));
            map = refl;
            map_on_disk =
                Holds-with_block_ne io block 1 (put_entry d slot i leaf) (bit_set s.bitmap i) t
                  (omega (arith, dir.block_above))
                  (Holds-with_block_ne io i 1 (encode_inode n) (bit_set s.bitmap i)
                    (with_map (bit_set s.bitmap i) s) (omega arith)
                    (Holds-with_map_self io (bit_set s.bitmap i) s));
            superblock = refl;
            rest = λ k e ne1 nei neb' h.
                Holds-with_block_ne io block k (put_entry d slot i leaf) e t neb' (
                  Holds-with_block_ne io i k (encode_inode n) e (with_map (bit_set s.bitmap i) s)
                    nei (Holds-with_map_ne io k (bit_set s.bitmap i) e s ne1 h));
          },
        )

    -- On a disk whose writes succeed, with the path's parent a sound directory that has no entry
    -- of the leaf and no free entry, a free block `i` in the bitmap, and the bitmap's values
    -- bytes: `fs_create` fails with ENOSPC, and block `i`, free before, is marked as taken; the
    -- directory is as before.
    pub fs_create-leaks :
        find_free d ≡ none
        → IsBytes s.bitmap
        → (s' : Fs) × (fs_create c path mode s ≡ failed enospc s')
          × (bit_test s.bitmap i ≡ false)
          × (bit_test s'.bitmap i ≡ true)
          × IsDirectory s' s.bitmap parent block d
    unfolding fs_create create_in
    fs_create-leaks full bytes =
        let (lo, hi, reach, was) = first_free-bounds s i found in
        let n = new_inode c mode 0 (λ _. 0) in
        (
          inode_written s i n,
          rw
              (
                at,
                open_parent-new dir leaf new,
                allocate_block-done io s i found,
                write_inode-done io i n (with_map (bit_set s.bitmap i) s) (omega arith)
                    (omega arith),
              )
              (add_entry-full io s parent block d dir leaf (inode_written s i n) i full),
          was,
          bit_test-bit_set s.bitmap i i bytes ∙ ground arith,
          middle n,
        )
