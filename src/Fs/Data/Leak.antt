-- ===== src/Fs/Data/Leak.antt =====
-- What `fs_write` leaves behind when the disk becomes full while the file grows.
use cs5600_computer_systems.Prelude.{
  ℕ, zero, suc, ◌+◌, ◌-◌, ◌*◌, ◌%◌, ◌^◌, ◌≤◌, ◌<◌, ◌≡◌, refl, true, false, none, arith, ltb, leb,
  lt→ltb, ◌==◌, if◌then◌else◌, Str,
}
use cs5600_computer_systems.Fs.Block.{Block, fs_block_size}
use cs5600_computer_systems.Fs.Host.{Host}
use cs5600_computer_systems.Fs.Inode.{Inode, ptr_count, encode_inode}
use cs5600_computer_systems.Fs.Dirent.Slots.{IsBytes}
use cs5600_computer_systems.Fs.Disk.{Fs, disk_size}
use cs5600_computer_systems.Fs.Bitmap.{bit_set, bit_test, first_free, bitmap_bits, allocate_block}
use cs5600_computer_systems.Fs.Path.{translate}
use cs5600_computer_systems.Fs.Path.Resolves.{read_inode-Holds}
use cs5600_computer_systems.Fs.Writes.{IsReliable, with_map, allocate_block-done}
use cs5600_computer_systems.Fs.Data.{fs_write, grow}
use cs5600_computer_systems.Fs.Data.File.{
  File, File-decode, File-small, blocks_of, block_count-positive, is_negative-positive,
}
use cs5600_computer_systems.Fs.Data.Grow.{Free, Grown, grown_state, grown_state-Grown}
use cs5600_computer_systems.Fs.Data.Splice.{required_blocks-small}
use cs5600_computer_systems.Fs.Action.{done, failed, enospc}

module _ ⦃H : Host⦄ where
  allocate_block-none :
      (s : Fs)
      → first_free s.bitmap (disk_size s.superblock) ≡ none
      → disk_size s.superblock ≤ bitmap_bits
      → allocate_block s ≡ failed enospc s
  unfolding allocate_block
  allocate_block-none s full within =
      let small : leb (disk_size s.superblock) bitmap_bits ≡ true = ground arith in
      rw (full, allocate_block, small) refl

  grow-full :
      (io : IsReliable) (alloc : ℕ → ℕ) (k more i : ℕ) (n : Inode) (s : Fs)
      → i + k ≤ ptr_count
      → Free alloc (disk_size s.superblock) k i s.bitmap
      → first_free (grown_state alloc k i s).bitmap (disk_size s.superblock) ≡ none
      → disk_size s.superblock ≤ bitmap_bits
      → k < more
      → grow more i n s ≡ failed enospc (grown_state alloc k i s)
  unfolding grow
  grow-full io alloc k zero i n s room free full within lt = absurd (omega arith)
  grow-full io alloc zero (suc more) i n s room free full within lt =
      rw (allocate_block-none s full within) refl
  grow-full io alloc (suc k) (suc more) i n s room free full within lt =
      rw (allocate_block-done io s (alloc i) free.0, lt→ltb i ptr_count (omega arith))
        (grow-full io alloc k more (i + 1)
          (record n { ptrs = λ j. if j == i then alloc i else n.ptrs j })
          (with_map (bit_set s.bitmap (alloc i)) s) (omega arith) free.1 full within (omega arith))

  -- A sound file is still one after blocks were allocated.
  File-Grown :
      {s s' : Fs} {inum : ℕ} {n : Inode} {blocks : ℕ → Block} (alloc : ℕ → ℕ) (k i : ℕ)
      → File s inum n blocks
      → Grown alloc k i s s'
      → File s' inum n blocks
  File-Grown {s} {s'} {inum} {n} {blocks} alloc k i f g = record {
    fields = f.fields;
    inode = g.rest inum (encode_inode n) (omega (arith, f.inum_above)) f.inode;
    regular = f.regular;
    room = f.room;
    held = λ j lt. g.rest (n.ptrs j) (blocks j) (omega (arith, f.above j lt)) (f.held j lt);
    inum_above = f.inum_above;
    inum_below = f.inum_below;
    above = f.above;
    below = f.below;
    apart = f.apart;
    distinct = f.distinct;
    inum_taken = g.kept inum f.inum_taken;
    taken = λ j lt. g.kept (n.ptrs j) (f.taken j lt);
  }

  -- On a disk whose writes succeed and that is not larger than its bitmap, with a bitmap of
  -- bytes and a path to a sound regular file, for a write that begins not behind the file's end,
  -- ends within the array of block numbers, and needs more blocks than the `got` that are free:
  -- `fs_write` fails with ENOSPC and the file is as before, but the `got` blocks, free before,
  -- are marked as taken.
  pub fs_write-leaks :
      (io : IsReliable) {s : Fs} {inum : ℕ} {n : Inode} {blocks : ℕ → Block}
      (f : File s inum n blocks) (map_bytes : IsBytes s.bitmap) (now : ℕ) (path : Str) (buf : Block)
      (len offset got : ℕ) (alloc : ℕ → ℕ)
      → translate path s ≡ done inum s
      → offset ≤ n.size
      → offset + len ≤ ptr_count * fs_block_size
      → blocks_of n.size + got < blocks_of (offset + len)
      → Free alloc (disk_size s.superblock) got (blocks_of n.size) s.bitmap
      → first_free (grown_state alloc got (blocks_of n.size) s).bitmap (disk_size s.superblock)
        ≡ none
      → disk_size s.superblock ≤ bitmap_bits
      → (s' : Fs) × (fs_write now path buf len offset s ≡ failed enospc s')
        × File s' inum n blocks
        × ((j : ℕ)
            → blocks_of n.size ≤ j
            → j < blocks_of n.size + got
            → (bit_test s.bitmap (alloc j) ≡ false) × (bit_test s'.bitmap (alloc j) ≡ true))
  unfolding fs_write
  fs_write-leaks io {s} {inum} {n} {blocks} f map_bytes now path buf len offset got alloc at within
        fits short free full small =
      let had = blocks_of n.size in
      let whole : (offset + len) % 2 ^ 64 ≡ offset + len = omega arith in
      let not_beyond : ltb n.size offset ≡ false = ground arith in
      let g = grown_state-Grown io alloc got had s map_bytes free in
      (
        grown_state alloc got had s,
        rw
            (
              at,
              read_inode-Holds s inum f.inode,
              File-decode f,
              f.regular,
              is_negative-positive n (File-small f),
              not_beyond,
              whole,
              required_blocks-small (offset + len) fits,
              block_count-positive n (File-small f),
              grow-full io alloc got (blocks_of (offset + len) - had) had n s (omega arith) free
                  full small (omega arith),
            )
            refl,
        File-Grown alloc got had f g,
        λ j lo hi. (g.was_free j lo hi, g.taken j lo hi),
      )
