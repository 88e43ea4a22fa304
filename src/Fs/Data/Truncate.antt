-- ===== src/Fs/Data/Truncate.antt =====
-- What `fs_truncate` makes of a sound file.
use cs5600_computer_systems.Prelude.{
  ℕ, zero, suc, ◌+◌, ◌%◌, ◌^◌, ◌≤◌, ◌<◌, ◌≡◌, ◌≢◌, refl, false, ◌&&◌, arith, ltb, leb, lt→ltb, ◌==◌,
  if◌then◌else◌, ap, ap₂, ◌∙◌, Str, fun_ext,
}
use cs5600_computer_systems.Fs.Block.{Block}
use cs5600_computer_systems.Fs.Host.{Host}
use cs5600_computer_systems.Fs.Inode.{Inode, ptr_count, encode_inode, is_reg}
use cs5600_computer_systems.Fs.Inode.Codec.{IsInode}
use cs5600_computer_systems.Fs.Dirent.Slots.{IsBytes}
use cs5600_computer_systems.Fs.Disk.{Fs}
use cs5600_computer_systems.Fs.Bitmap.{bit_test, bit_clear, bitmap_bits}
use cs5600_computer_systems.Fs.Path.{translate}
use cs5600_computer_systems.Fs.Path.Resolves.{read_inode-Holds}
use cs5600_computer_systems.Fs.Writes.{
  IsReliable, with_map, with_block, free_block-done, write_inode-done, Holds-with_block_self,
}
use cs5600_computer_systems.Fs.Tree.Remove.{
  freed_state, freed_map-ptr, freed_map-other, freed_state-bitmap,
}
use cs5600_computer_systems.Fs.Data.{drop_ptrs, fs_truncate}
use cs5600_computer_systems.Fs.Data.File.{
  File, File-decode, File-small, blocks_of, block_count-positive,
}
use cs5600_computer_systems.Fs.Action.{done}

-- The array of block numbers with zeros from `i` up to `i + k`.
abbrev pub dropped_ptrs : (k i : ℕ) → (ℕ → ℕ) → ℕ → ℕ
dropped_ptrs k i ptrs j = if leb i j && ltb j (i + k) then 0 else ptrs j

dropped_ptrs-none : (i : ℕ) (ptrs : ℕ → ℕ) (j : ℕ) → ptrs j ≡ dropped_ptrs 0 i ptrs j
dropped_ptrs-none i ptrs j = ground arith

dropped_ptrs-step :
    (k i : ℕ) (ptrs : ℕ → ℕ) (j : ℕ)
    → dropped_ptrs k (i + 1) (λ l. if l == i then 0 else ptrs l) j ≡ dropped_ptrs (suc k) i ptrs j
dropped_ptrs-step k i ptrs j = ground arith

abbrev with_ptrs : Inode → (ℕ → ℕ) → Inode
with_ptrs n ptrs = record n { ptrs = ptrs }

module _ ⦃H : Host⦄ (io : IsReliable) where
  -- The freed blocks depend on the block numbers from `i` on only.
  freed_state-same :
      (n : Inode) (ptrs : ℕ → ℕ) (k i : ℕ) (s : Fs)
      → ((j : ℕ) → i ≤ j → ptrs j ≡ n.ptrs j)
      → freed_state io (with_ptrs n ptrs) k i s ≡ freed_state io n k i s
  freed_state-same n ptrs zero i s same = refl
  freed_state-same n ptrs (suc k) i s same = rw (same i (omega arith)) (
      freed_state-same n ptrs k (i + 1) (with_map (bit_clear s.bitmap (n.ptrs i)) s)
        (λ j le. same j (omega arith)))

  drop_ptrs-done :
      (n : Inode) (k i : ℕ) (s : Fs)
      → i + k ≤ ptr_count
      → ((j : ℕ) → i ≤ j → j < i + k → n.ptrs j < bitmap_bits)
      → drop_ptrs k i n s ≡ done (with_ptrs n (dropped_ptrs k i n.ptrs)) (freed_state io n k i s)
  unfolding drop_ptrs
  drop_ptrs-done n zero i s room fits =
      ap (λ p. done (with_ptrs n p) s) (fun_ext (dropped_ptrs-none i n.ptrs))
  drop_ptrs-done n (suc k) i s room fits =
      rw
        (
          lt→ltb i ptr_count (omega arith),
          free_block-done io s (n.ptrs i) (fits i (omega arith) (omega arith)),
        )
        (drop_ptrs-done (with_ptrs n (λ l. if l == i then 0 else n.ptrs l)) k (i + 1)
            (with_map (bit_clear s.bitmap (n.ptrs i)) s) (omega arith)
            (λ j lo hi. later j lo (fits j (omega arith) (omega arith)))
          ∙ ap₂ (λ p t. done (with_ptrs n p) t) (fun_ext (dropped_ptrs-step k i n.ptrs))
              (freed_state-same n (λ l. if l == i then 0 else n.ptrs l) k (i + 1)
                (with_map (bit_clear s.bitmap (n.ptrs i)) s) (λ j le. ground arith)))
    where
      later :
          (j : ℕ)
          → i + 1 ≤ j
          → n.ptrs j < bitmap_bits
          → (if j == i then 0 else n.ptrs j) < bitmap_bits
      later j lo small = ground arith

-- What `fs_truncate` leaves behind: a sound file of no bytes; the marks of its blocks are clear, and no
-- other mark changed.
pub record Truncated ⦃H : Host⦄ (s s' : Fs) (inum : ℕ) (n : Inode) (blocks : ℕ → Block) (n' : Inode)
    : Type 0 where
  pub file : File s' inum n' blocks
  pub size : n'.size ≡ 0
  pub blocks_free : (k : ℕ) → k < blocks_of n.size → bit_test s'.bitmap (n.ptrs k) ≡ false
  pub others_kept :
      (b : ℕ)
      → ((k : ℕ) → k < blocks_of n.size → n.ptrs k ≢ b)
      → bit_test s'.bitmap b ≡ bit_test s.bitmap b

module _ ⦃H : Host⦄ (io : IsReliable) {s : Fs} {inum : ℕ} {n : Inode} {blocks : ℕ → Block}
    (f : File s inum n blocks) (map_bytes : IsBytes s.bitmap)
    (fits : (k : ℕ) → k < blocks_of n.size → n.ptrs k < bitmap_bits) where
  abbrev count : ℕ
  count = blocks_of n.size

  abbrev final : ℕ → Inode
  final now = record n { ptrs = dropped_ptrs count 0 n.ptrs; size = 0; mtime = now % 2 ^ 32 }

  final-IsInode : (now : ℕ) → IsInode (final now)
  final-IsInode now = record {
    uid = f.fields.uid;
    gid = f.fields.gid;
    mode = f.fields.mode;
    ctime = f.fields.ctime;
    mtime = omega arith;
    size = omega arith;
    ptrs = λ j. ground (arith, f.fields.ptrs j);
    rest = λ j le. ground (arith, f.fields.rest j le);
  }

  abbrev freed : Fs
  freed = freed_state io n count 0 s

  -- On a disk whose writes succeed, with a bitmap of bytes and a path to a sound regular file
  -- whose block numbers are within the bitmap: `fs_truncate` to 0 succeeds and leaves a sound
  -- file of 0 bytes; the bits of all its blocks are clear in memory, and every other bit is as
  -- before.
  pub fs_truncate-Truncated :
      (now : ℕ) (path : Str)
      → translate path s ≡ done inum s
      → (s' : Fs) × (n' : Inode) × (fs_truncate now path 0 s ≡ done tt s')
        × Truncated s s' inum n blocks n'
  unfolding fs_truncate is_reg
  fs_truncate-Truncated now path at =
      let map = freed_state-bitmap io n count 0 s in
      (
        with_block inum (encode_inode (final now)) freed,
        final now,
        rw
            (
              at,
              read_inode-Holds s inum f.inode,
              File-decode f,
              f.regular,
              block_count-positive n (File-small f),
              drop_ptrs-done io n count 0 s (omega (arith, f.room))
                  (λ j lo hi. fits j (omega arith)),
            )
            (write_inode-done io inum (final now) freed (omega (arith, f.inum_above)) f.inum_below),
        record {
          file = record {
            fields = final-IsInode now;
            inode =
                Holds-with_block_self io inum (encode_inode (final now)) freed
                  (omega (arith, f.inum_below));
            regular = f.regular;
            room = omega arith;
            held = λ k lt. absurd (omega arith);
            inum_above = f.inum_above;
            inum_below = f.inum_below;
            above = λ k lt. absurd (omega arith);
            below = λ k lt. absurd (omega arith);
            apart = λ k lt. absurd (omega arith);
            distinct = λ j k lj lk e. absurd (omega arith);
            inum_taken = rw map (
                freed_map-other n count 0 inum s.bitmap map_bytes
                  (λ j lo hi. f.apart j (omega arith))
                ∙ f.inum_taken);
            taken = λ k lt. absurd (omega arith);
          };
          size = refl;
          blocks_free = λ k lt.
              rw map (freed_map-ptr n count 0 k s.bitmap map_bytes (omega arith) (omega arith));
          others_kept = λ b ne.
              rw map
                (freed_map-other n count 0 b s.bitmap map_bytes (λ j lo hi. ne j (omega arith)));
        },
      )
