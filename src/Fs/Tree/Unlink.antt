-- ===== src/Fs/Tree/Unlink.antt =====
-- `fs_unlink` and `fs_rmdir` on a sound parent directory.
use cs5600_computer_systems.Prelude.{
  ℕ, ◌<◌, ◌≤◌, ◌≡◌, ◌≢◌, Bool, true, false, none, some, arith, Str, str_eq, str_eq_refl,
  if◌then◌else◌, ◌∙◌, sym, ◌↔◌, ◌==◌, Bool-cases, inl, inr, ◌*◌, ◌/◌, ◌%◌, Option-cases, subst,
  FirstFrom,
}
use cs5600_computer_systems.Fs.Block.{Block, load32}
use cs5600_computer_systems.Fs.Host.{Host}
use cs5600_computer_systems.Fs.Inode.{Inode, ptr_count, decode_inode, is_dir, block_count}
use cs5600_computer_systems.Fs.Dirent.{inode_num, find_entry, find_valid, clear_valid, valid}
use cs5600_computer_systems.Fs.Dirent.Slots.{IsBytes, clear_valid-IsDirBlock}
use cs5600_computer_systems.Fs.Dirent.Find.{str_eq-ne, find_valid-first}
use cs5600_computer_systems.Fs.Inode.Mode.{is_dir-eq}
use cs5600_computer_systems.Fs.Dirent.Directory.{IsUnique, lookup_in, lookup_in-clear_valid}
use cs5600_computer_systems.Fs.Disk.{Fs}
use cs5600_computer_systems.Fs.Bitmap.{bit_test, bit_clear, bitmap_bits}
use cs5600_computer_systems.Fs.Bitmap.Bits.{bit_test-bit_clear, bit_clear-IsBytes}
use cs5600_computer_systems.Fs.Path.{lookup_parent}
use cs5600_computer_systems.Fs.Path.Resolves.{Holds, Child, block_read-Holds, read_inode-Holds}
use cs5600_computer_systems.Fs.Namespace.{unlink_in, fs_unlink, rmdir_in, fs_rmdir}
use cs5600_computer_systems.Fs.Writes.{
  IsReliable, with_block, with_map, block_write-done, free_block-done,
}
use cs5600_computer_systems.Fs.Tree.{
  IsDirectory, Child-lookup_in, find_in_parent-there, find_in_parent-missing, IsDirectory-with_map,
  IsDirectory-entries,
}
use cs5600_computer_systems.Fs.Action.{done, failed, enoent, eisdir, enotdir, enotempty}
use cs5600_computer_systems.Fs.Tree.Remove.{
  freed_map-other, freed_map-clear, freed_map-ptr, freed_state, free_ptrs-done, freed_state-bitmap,
  freed_state-IsDirectory,
}

-- The digits of the mode from 4096 on: 4 is a directory, 8 a regular file.
abbrev pub file_type : Inode → ℕ
file_type n = n.mode / 4096 % 16

-- An entry whose lowest bit is set is found, or one before it.
find_valid-there :
    (d : Block) (k : ℕ) → k < 128 → load32 d (32 * k) % 2 ≡ 1 → (i : ℕ) × (find_valid d ≡ some i)
unfolding valid
find_valid-there d k lt used = elim (Option-cases (find_valid d)) [
  | inl missing ↦
      let miss : valid d k ≡ false =
        subst (FirstFrom (valid d) 128 0) missing (find_valid-first d) k (omega arith)
          (omega arith) in
      absurd (ground (arith, miss, used))
  | inr found ↦ found
]

-- The directory has lost its child of one name; the children of the other names are those of before.
pub record HasLostChild ⦃H : Host⦄ (s s' : Fs) (parent : ℕ) (leaf : Str) : Type 0 where
  pub gone : (j : ℕ) → Child s' parent leaf j → ⊥
  pub others : (t : Str) (j : ℕ) → leaf ≢ t → Child s' parent t j ↔ Child s parent t j

-- What `fs_unlink` leaves behind: the blocks of the file, `inum` and the first `block_count`
-- block numbers of its inode `n`, are marked as free, and no other mark changed.
pub record Unlinked ⦃H : Host⦄ (s s' : Fs) (parent : ℕ) (leaf : Str) (inum : ℕ) (n : Inode)
    : Type 0 where
  pub child : HasLostChild s s' parent leaf
  pub inode_free : bit_test s'.bitmap inum ≡ false
  pub blocks_free : (j : ℕ) → j < block_count n → bit_test s'.bitmap (n.ptrs j) ≡ false
  pub others_kept :
      (b : ℕ)
      → inum ≢ b
      → ((j : ℕ) → j < block_count n → n.ptrs j ≢ b)
      → bit_test s'.bitmap b ≡ bit_test s.bitmap b

pub cleared_ne : (x y : ℕ) (v : Bool) → x ≢ y → (if x == y then false else v) ≡ v
cleared_ne x y v h = ground arith

pub cleared_eq : (x : ℕ) (v : Bool) → (if x == x then false else v) ≡ false
cleared_eq x v = ground arith

if_self : {A : Type 0} (t : Str) (x y : A) → (if str_eq t t then x else y) ≡ x
if_self t x y = rw (str_eq_refl t)

if_other : {A : Type 0} (t u : Str) (x y : A) → t ≢ u → (if str_eq t u then x else y) ≡ y
if_other t u x y ne = rw (str_eq-ne t u ne)

module _ ⦃H : Host⦄ (io : IsReliable) (s : Fs) (m : Block) (parent block : ℕ) (d : Block)
    (dir : IsDirectory s m parent block d) (unique : IsUnique d) (bytes : IsBytes d) (leaf : Str)
    (slot : ℕ) (here : find_entry d leaf ≡ some slot) where
  binding :
      (u : Str) → lookup_in (clear_valid d slot) u ≡ (if str_eq leaf u then none else lookup_in d u)
  binding u = lookup_in-clear_valid d slot leaf u dir.names unique here bytes

  -- From any later state that still has the directory with the entry cleared.
  pub clear-HasLostChild :
      (s' : Fs) → IsDirectory s' m parent block (clear_valid d slot) → HasLostChild s s' parent leaf
  clear-HasLostChild s' after = record {
    gone = λ j c.
        cc ((Child-lookup_in after leaf j).0 c, binding leaf, if_self leaf none (lookup_in d leaf));
    others = λ u j ne.
        let same : lookup_in (clear_valid d slot) u ≡ lookup_in d u =
          binding u ∙ if_other leaf u none (lookup_in d u) ne in
        (
          λ c. (Child-lookup_in dir u j).1 (sym same ∙ (Child-lookup_in after u j).0 c),
          λ c. (Child-lookup_in after u j).1 (same ∙ (Child-lookup_in dir u j).0 c),
        );
  }

  abbrev pub entry_cleared : Fs
  entry_cleared = with_block block (clear_valid d slot) s

  pub cleared : IsDirectory entry_cleared m parent block (clear_valid d slot)
  cleared =
      IsDirectory-entries io s m parent block d dir (clear_valid d slot)
        (clear_valid-IsDirBlock d slot dir.names)

  module _ (inode_block : Block) (held : Holds s (inode_num d slot) inode_block)
      (small : inode_num d slot < bitmap_bits) where
    abbrev inode_freed : Fs
    inode_freed = with_map (bit_clear s.bitmap (inode_num d slot)) entry_cleared

    unlink_in-done :
        is_dir (decode_inode inode_block) ≡ false
        → block_count (decode_inode inode_block) ≤ ptr_count
        → ((j : ℕ) → j < ptr_count → (decode_inode inode_block).ptrs j < bitmap_bits)
        → unlink_in block d slot s
          ≡ done tt (
              freed_state io
                (decode_inode inode_block)
                (block_count (decode_inode inode_block))
                0
                inode_freed)
    unfolding unlink_in
    unlink_in-done file room fits =
        rw
          (
            read_inode-Holds s (inode_num d slot) held,
            file,
            block_write-done io (clear_valid d slot) block s (omega (arith, dir.block_above))
                dir.block_below,
            free_block-done io entry_cleared (inode_num d slot) small,
          )
          (free_ptrs-done io (decode_inode inode_block) (block_count (decode_inode inode_block)) 0
            inode_freed (omega arith) fits)

module _ ⦃H : Host⦄ (s : Fs) (parent block : ℕ) (d : Block)
    (dir : IsDirectory s s.bitmap parent block d) (path leaf : Str)
    (at : lookup_parent path s ≡ done (parent, leaf) s) where
  -- With the path's parent a sound directory that has no entry of the leaf, `fs_unlink` and
  -- `fs_rmdir` fail with ENOENT and change nothing.
  pub unlink-missing :
      find_entry d leaf ≡ none
      → (fs_unlink path s ≡ failed enoent s) × (fs_rmdir path s ≡ failed enoent s)
  unfolding fs_unlink fs_rmdir
  unlink-missing new =
      (rw (at, find_in_parent-missing dir leaf new), rw (at, find_in_parent-missing dir leaf new))

  module _ (slot : ℕ) (here : find_entry d leaf ≡ some slot) (inode_block : Block)
      (held : Holds s (inode_num d slot) inode_block) where
    -- With the path's parent a sound directory that has the leaf, and the leaf's inode readable:
    -- if the file type in its mode, the four bits from 4096 on, is 4, a directory, `fs_unlink`
    -- fails with EISDIR, and if it is any other, `fs_rmdir` fails with ENOTDIR; neither changes
    -- anything.
    pub unlink-wrong_kind :
        (if file_type (decode_inode inode_block) == 4 then fs_unlink path s else fs_rmdir path s)
        ≡ failed (if file_type (decode_inode inode_block) == 4 then eisdir else enotdir) s
    unfolding fs_unlink fs_rmdir unlink_in rmdir_in
    unlink-wrong_kind = elim (Bool-cases (file_type (decode_inode inode_block) == 4)) [
      | inl kind ↦ rw (
        kind,
        at,
        find_in_parent-there dir leaf slot here,
        read_inode-Holds s (inode_num d slot) held,
        is_dir-eq (decode_inode inode_block),
        kind,
      )
      | inr kind ↦ rw (
        kind,
        at,
        find_in_parent-there dir leaf slot here,
        read_inode-Holds s (inode_num d slot) held,
        is_dir-eq (decode_inode inode_block),
        kind,
      )
    ]

    -- With the path's parent a sound directory that has the leaf, the leaf's inode readable and
    -- of file type 4, a directory, and its first block readable: if any of the 128 entries in
    -- this block has its lowest bit set, `fs_rmdir` fails with ENOTEMPTY and changes nothing.
    pub fs_rmdir-not_empty :
        (inner : Block) (k : ℕ)
        → file_type (decode_inode inode_block) ≡ 4
        → Holds s ((decode_inode inode_block).ptrs 0) inner
        → k < 128
        → load32 inner (32 * k) % 2 ≡ 1
        → fs_rmdir path s ≡ failed enotempty s
    unfolding fs_rmdir rmdir_in
    fs_rmdir-not_empty inner k kind listing lt used =
        let directory : is_dir (decode_inode inode_block) ≡ true =
          is_dir-eq (decode_inode inode_block) ∙ ground (arith, kind) in
        let (found, first) = find_valid-there inner k lt used in
        rw (
          at,
          find_in_parent-there dir leaf slot here,
          read_inode-Holds s (inode_num d slot) held,
          directory,
          block_read-Holds s _ listing,
          first,
        )

    module _ (io : IsReliable) (unique : IsUnique d) (bytes : IsBytes d)
        (map_bytes : IsBytes s.bitmap) (small : inode_num d slot < bitmap_bits) where
      -- On a disk whose writes succeed, with the path's parent a sound directory of bytes whose
      -- entries have distinct names, a bitmap of bytes, the leaf's inode not a directory, its
      -- blocks within the array of block numbers, and the inode's number and all its block
      -- numbers within the bitmap: `fs_unlink` succeeds; the parent has lost the child of that
      -- name and has its other children as before; the bits of the inode and of its blocks are
      -- clear, and every other bit is as before.
      pub fs_unlink-Unlinked :
          is_dir (decode_inode inode_block) ≡ false
          → block_count (decode_inode inode_block) ≤ ptr_count
          → ((j : ℕ) → j < ptr_count → (decode_inode inode_block).ptrs j < bitmap_bits)
          → (s' : Fs) × (fs_unlink path s ≡ done tt s')
            × Unlinked s s' parent leaf (inode_num d slot) (decode_inode inode_block)
      unfolding fs_unlink
      fs_unlink-Unlinked file room fits =
          let n = decode_inode inode_block in
          let t =
            inode_freed io s s.bitmap parent block d dir unique bytes leaf slot here inode_block
              held small in
          let after =
            freed_state-IsDirectory io n (block_count n) 0 t s.bitmap parent block
              (clear_valid d slot)
              (IsDirectory-with_map io _ s.bitmap _ parent block (clear_valid d slot)
                (cleared io s s.bitmap parent block d dir unique bytes leaf slot here)) in
          let map = freed_state-bitmap io n (block_count n) 0 t in
          let freed_bytes = bit_clear-IsBytes s.bitmap (inode_num d slot) map_bytes in
          let first = bit_clear s.bitmap (inode_num d slot) in
          (
            freed_state io n (block_count n) 0 t,
            rw (at, find_in_parent-there dir leaf slot here)
                (unlink_in-done io s s.bitmap parent block d dir unique bytes leaf slot here
                  inode_block held small file room fits),
            record {
              child =
                  clear-HasLostChild io s s.bitmap parent block d dir unique bytes leaf slot here _
                    after;
              inode_free = rw map (
                  freed_map-clear n (block_count n) 0 (inode_num d slot) first freed_bytes (
                    bit_test-bit_clear s.bitmap (inode_num d slot) (inode_num d slot) map_bytes
                    ∙ cleared_eq (inode_num d slot) (bit_test s.bitmap (inode_num d slot))));
              blocks_free = λ j lt. rw map (
                  freed_map-ptr n (block_count n) 0 j first freed_bytes (omega arith)
                    (omega arith));
              others_kept = λ b nei nep. rw map (
                  freed_map-other n (block_count n) 0 b first freed_bytes
                    (λ j lo hi. nep j (omega arith))
                  ∙ bit_test-bit_clear s.bitmap (inode_num d slot) b map_bytes
                  ∙ cleared_ne (inode_num d slot) b (bit_test s.bitmap b) nei);
            },
          )
