-- ===== src/Fs/Writes.antt =====
-- Runs over a disk whose writes succeed: the state after each call is written out.
use cs5600_computer_systems.Prelude.{
  ℕ, ◌*◌, ◌<◌, ◌≡◌, ◌≢◌, refl, Bool, true, false, some, arith, lt→ltb, ◌∙◌,
}
use cs5600_computer_systems.Fs.Block.{Block, fs_block_size}
use cs5600_computer_systems.Fs.Host.{Host}
use cs5600_computer_systems.Fs.Inode.{Inode, encode_inode}
use cs5600_computer_systems.Fs.Disk.{Fs, disk_size, block_write, write_inode, finish}
use cs5600_computer_systems.Fs.Bitmap.{
  bit_set, bit_clear, first_free, bitmap_bits, allocate_block, free_block,
}
use cs5600_computer_systems.Fs.Path.Resolves.{Holds}
use cs5600_computer_systems.Fs.Action.{done}

-- Every write of a block to the image succeeds.
pub record IsReliable ⦃H : Host⦄ : Type 0 where
  pub writes : (off : ℕ) (b : Block) (m : H.Image) → (H.pwrite off b m).0 ≡ true

module _ ⦃H : Host⦄ where
  -- The image with one block rewritten.
  unfoldable pub put : ℕ → Block → H.Image → H.Image
  put lba b m = (H.pwrite (lba * fs_block_size) b m).1

  -- The state with one block of the image rewritten.
  abbrev pub with_block : ℕ → Block → Fs → Fs
  with_block lba b s = record s { image = put lba b s.image }

  -- The state with another bitmap, in memory and in block 1.
  abbrev pub with_map : Block → Fs → Fs
  with_map m s = with_block 1 m (record s { bitmap = m })

  finish-done :
      (p : Bool × H.Image) (s : Fs) → p.0 ≡ true → finish p s ≡ done tt (record s { image = p.1 })
  finish-done (true, m) s ok = refl
  finish-done (false, m) s ok = cc

module _ ⦃H : Host⦄ (io : IsReliable) where
  pub block_write-done :
      (b : Block) (lba : ℕ) (s : Fs)
      → 0 < lba
      → lba < 524287
      → block_write b lba s ≡ done tt (with_block lba b s)
  unfolding block_write put
  block_write-done b lba s lo hi =
      rw (lt→ltb 0 lba lo, lt→ltb lba 524287 hi)
        (finish-done (H.pwrite (lba * fs_block_size) b s.image) s (io.writes _ b s.image))

  pub write_inode-done :
      (inum : ℕ) (n : Inode) (s : Fs)
      → 0 < inum
      → inum < 524287
      → write_inode inum n s ≡ done tt (with_block inum (encode_inode n) s)
  unfolding write_inode
  write_inode-done inum n s lo hi = block_write-done (encode_inode n) inum s lo hi

  pub Holds-with_block_self :
      (lba : ℕ) (b : Block) (s : Fs) → lba < 524288 → Holds (with_block lba b s) lba b
  unfolding put
  Holds-with_block_self lba b s lt = record {
    reached = lt;
    content = H.pread-pwrite_self (lba * fs_block_size) b s.image (io.writes _ b s.image);
  }

  pub Holds-with_block_ne :
      (lba k : ℕ) (b e : Block) (s : Fs) → lba ≢ k → Holds s k e → Holds (with_block lba b s) k e
  unfolding put
  Holds-with_block_ne lba k b e s ne h = record {
    reached = h.reached;
    content =
        H.pread-pwrite_ne (lba * fs_block_size) (k * fs_block_size) b s.image
          (io.writes _ b s.image) (omega arith)
        ∙ h.content;
  }

  pub allocate_block-done :
      (s : Fs) (i : ℕ)
      → first_free s.bitmap (disk_size s.superblock) ≡ some i
      → allocate_block s ≡ done i (with_map (bit_set s.bitmap i) s)
  unfolding allocate_block
  allocate_block-done s i found = rw (
    found,
    allocate_block,
    block_write-done (bit_set s.bitmap i) 1 (record s { bitmap = bit_set s.bitmap i }) (omega arith)
        (omega arith),
  )

  pub free_block-done :
      (s : Fs) (i : ℕ)
      → i < bitmap_bits
      → free_block i s ≡ done tt (with_map (bit_clear s.bitmap i) s)
  unfolding free_block
  free_block-done s i lt = rw (lt→ltb i bitmap_bits lt) (
      block_write-done (bit_clear s.bitmap i) 1 (record s { bitmap = bit_clear s.bitmap i })
        (omega arith) (omega arith))

  pub Holds-with_map_self : (m : Block) (s : Fs) → Holds (with_map m s) 1 m
  Holds-with_map_self m s = Holds-with_block_self 1 m (record s { bitmap = m }) (omega arith)

  pub Holds-with_map_ne :
      (k : ℕ) (m e : Block) (s : Fs) → 1 ≢ k → Holds s k e → Holds (with_map m s) k e
  Holds-with_map_ne k m e s ne h =
      Holds-with_block_ne 1 k m e (record s { bitmap = m }) ne
        (record { reached = h.reached; content = h.content })
