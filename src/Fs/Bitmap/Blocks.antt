-- ===== src/Fs/Bitmap/Blocks.antt =====
-- What `allocate_block` and `free_block` do on each of their branches.
use cs5600_computer_systems.Prelude.{
  ℕ, ◌+◌, ◌-◌, ◌≤◌, ◌<◌, ◌≡◌, ◌≢◌, refl, Bool, true, false, not, none, some, arith, leb,
  if◌then◌else◌, ◌==◌, sym, lt→ltb, subst, Bool-cases, Option-cases, inl, inr, ◌⊎◌, FirstFrom,
  find_from-FirstFrom,
}
use Prim.Native.Nat.{min}
use cs5600_computer_systems.Fs.Block.{Block}
use cs5600_computer_systems.Fs.Host.{Host}
use cs5600_computer_systems.Fs.Disk.{Fs, disk_size, block_write, finish}
use cs5600_computer_systems.Fs.Action.{
  Outcome, done, failed, fault, eio, enospc, fail, crash, and_then,
}
use cs5600_computer_systems.Fs.Bitmap.{
  bit_set, bit_clear, bit_test, bitmap_bits, first_free, allocate_block, free_block,
}
use cs5600_computer_systems.Fs.Bitmap.Bits.{bit_test-bit_set, bit_test-bit_clear}
use cs5600_computer_systems.Fs.Dirent.Slots.{IsBytes}

-- Which search result `first_free` is, within the reach of the bitmap.
pub first_free-FirstFrom :
    (m : Block) (size : ℕ)
    → FirstFrom (λ i. not (bit_test m i)) (min size bitmap_bits - 2) 2 (first_free m size)
unfolding first_free
first_free-FirstFrom m size =
    find_from-FirstFrom (λ i. not (bit_test m i)) (min size bitmap_bits - 2) 2

not-true : (b : Bool) → not b ≡ true → b ≡ false
not-true b h = ground arith

not-false : (b : Bool) → not b ≡ false → b ≡ true
not-false b h = ground arith

module _ ⦃H : Host⦄ where
  -- In memory, bit `i` of the bitmap became `v`; every other bit is as before.
  pub record Marked (s : Fs) (i : ℕ) (v : Bool) (s' : Fs) : Type 0 where
    pub superblock : s'.superblock ≡ s.superblock
    pub bits : (b : ℕ) → bit_test s'.bitmap b ≡ (if i == b then v else bit_test s.bitmap b)

  -- This went to block 1 of the disk too; no other block changed.
  pub record MapWritten (s : Fs) (i : ℕ) (v : Bool) (s' : Fs) : Type 0 where
    pub marked : Marked s i v s'
    pub on_disk : H.pread 4096 s'.image ≡ some s'.bitmap
    pub others : (off : ℕ) → 4096 ≢ off → H.pread off s'.image ≡ H.pread off s.image

  -- The bit changed in memory, and the write of the bitmap to the disk failed.
  pub record MapUnwritten (s : Fs) (i : ℕ) (v : Bool) (s' : Fs) : Type 0 where
    pub marked : Marked s i v s'
    pub refused : (H.pwrite 4096 s'.bitmap s.image).0 ≡ false

  -- How an attempt to change a bit of the bitmap ends.
  abbrev pub MapOutcome : Fs → ℕ → Bool → Outcome Fs (Unit {0}) → Type 0
  MapOutcome s i v (done a s') = MapWritten s i v s'
  MapOutcome s i v (failed e s') = (e ≡ eio) × MapUnwritten s i v s'
  MapOutcome s i v fault = ⊥

  finish-MapOutcome :
      (s : Fs) (m : Block) (i : ℕ) (v : Bool) (p : Bool × H.Image)
      → ((b : ℕ) → bit_test m b ≡ (if i == b then v else bit_test s.bitmap b))
      → p.0 ≡ (H.pwrite 4096 m s.image).0
      → (p.0 ≡ true → H.pread 4096 p.1 ≡ some m)
      → (p.0 ≡ true → (off : ℕ) → 4096 ≢ off → H.pread off p.1 ≡ H.pread off s.image)
      → MapOutcome s i v (finish p (record s { bitmap = m }))
  finish-MapOutcome s m i v (true, image) bits same at others = record {
    marked = record { superblock = refl; bits = bits };
    on_disk = at refl;
    others = others refl;
  }
  finish-MapOutcome s m i v (false, image) bits same at others =
      (refl, record { marked = record { superblock = refl; bits = bits }; refused = sym same })

  write_map :
      (s : Fs) (m : Block) (i : ℕ) (v : Bool)
      → ((b : ℕ) → bit_test m b ≡ (if i == b then v else bit_test s.bitmap b))
      → MapOutcome s i v (block_write m 1 (record s { bitmap = m }))
  unfolding block_write
  write_map s m i v bits =
      finish-MapOutcome s m i v (H.pwrite 4096 m s.image) bits refl
        (H.pread-pwrite_self 4096 m s.image) (λ ok off. H.pread-pwrite_ne 4096 off m s.image ok)

  -- `free_block` of a block number below 32768, on a bitmap of bytes, clears this block's bit in
  -- memory and leaves every other bit as it was. It ends with success, and block 1 then holds
  -- the bitmap of the memory and no other block changed, or with EIO, and the write of this
  -- bitmap to the disk failed.
  pub free_block-clears :
      (s : Fs) (i : ℕ) → IsBytes s.bitmap → i < bitmap_bits → MapOutcome s i false (free_block i s)
  unfolding free_block
  free_block-clears s i bytes lt =
      rw (lt→ltb i bitmap_bits lt)
        (write_map s (bit_clear s.bitmap i) i false (λ b. bit_test-bit_clear s.bitmap i b bytes))

  -- The bit that `allocate_block` chooses.
  pub record Lowest (s : Fs) (i : ℕ) : Type 0 where
    pub reserved : 2 ≤ i
    pub on_disk : i < disk_size s.superblock
    pub reached : i < bitmap_bits
    pub was_free : bit_test s.bitmap i ≡ false
    pub lowest : (k : ℕ) → 2 ≤ k → k < i → bit_test s.bitmap k ≡ true

  -- How `allocate_block` ends from a state.
  abbrev pub Allocates : Fs → Outcome Fs ℕ → Type 0
  Allocates s (done i s') = Lowest s i × MapWritten s i true s'
  Allocates s (failed e s') =
      ((e ≡ eio) × ((i : ℕ) × Lowest s i × MapUnwritten s i true s'))
      ⊎ ((e ≡ enospc)
          × (s' ≡ s)
          × ((k : ℕ) → 2 ≤ k → k < disk_size s.superblock → bit_test s.bitmap k ≡ true))
  Allocates s fault = bitmap_bits < disk_size s.superblock

  allocate-found :
      (s : Fs) (i : ℕ) (r : Outcome Fs (Unit {0}))
      → MapOutcome s i true r
      → Lowest s i
      → Allocates s (and_then r (λ _ s'. done i s'))
  allocate-found s i (done a s') h low = (low, h)
  allocate-found s i (failed e s') h low = inl (h.0, (i, low, h.1))
  allocate-found s i fault h low = absurd h

  none_free :
      (s : Fs)
      → first_free s.bitmap (disk_size s.superblock) ≡ none
      → (k : ℕ) → 2 ≤ k
      → k < 2 + (min (disk_size s.superblock) bitmap_bits - 2)
      → not (bit_test s.bitmap k) ≡ false
  none_free s full =
      subst
        (FirstFrom (λ i. not (bit_test s.bitmap i)) (min (disk_size s.superblock) bitmap_bits - 2)
          2)
        full (first_free-FirstFrom s.bitmap (disk_size s.superblock))

  one_free : (s : Fs) (i : ℕ) → first_free s.bitmap (disk_size s.superblock) ≡ some i → Lowest s i
  one_free s i found =
      let (lo, hi, hit, before) =
        subst
          (FirstFrom (λ k. not (bit_test s.bitmap k)) (min (disk_size s.superblock) bitmap_bits - 2)
            2)
          found (first_free-FirstFrom s.bitmap (disk_size s.superblock)) in
      record {
        reserved = lo;
        on_disk = omega arith;
        reached = omega arith;
        was_free = not-true (bit_test s.bitmap i) hit;
        lowest = λ k from to. not-false (bit_test s.bitmap k) (before k from to);
      }

  -- The block that the search finds.
  pub first_free-bounds :
      (s : Fs) (i : ℕ)
      → first_free s.bitmap (disk_size s.superblock) ≡ some i
      → (2 ≤ i) × (i < disk_size s.superblock) × (i < bitmap_bits) × (bit_test s.bitmap i ≡ false)
  first_free-bounds s i found =
      let (lo, hi, hit, before) =
        subst
          (FirstFrom (λ k. not (bit_test s.bitmap k)) (min (disk_size s.superblock) bitmap_bits - 2)
            2)
          found (first_free-FirstFrom s.bitmap (disk_size s.superblock)) in
      (lo, omega arith, omega arith, not-true (bit_test s.bitmap i) hit)

  allocate-full :
      (s : Fs)
      → first_free s.bitmap (disk_size s.superblock) ≡ none
      → Allocates s ((if leb (disk_size s.superblock) bitmap_bits then fail enospc else crash) s)
  allocate-full s full = elim (Bool-cases (leb (disk_size s.superblock) bitmap_bits)) [
    | inl fits ↦ rw fits (
        inr (
          refl,
          refl,
          λ k lo hi. not-false (bit_test s.bitmap k) (none_free s full k lo (ground arith)),
        ))
    | inr beyond ↦ rw beyond (ground arith)
  ]

  -- However `allocate_block` ends on a bitmap of bytes: with a block number, it is the lowest
  -- free one from 2 on, below the disk's size and the bitmap's; its bit is set in memory and
  -- every other bit is as before, block 1 holds this bitmap, and no other block changed. With
  -- ENOSPC, no block from 2 up to the disk's size is free and the state is unchanged. With EIO,
  -- the bit of the lowest free block is set in memory, every other bit is as before, and the
  -- write of this bitmap to the disk failed. It runs out of the bitmap only on a disk that is
  -- larger than the bitmap.
  pub allocate_block-Allocates : (s : Fs) → IsBytes s.bitmap → Allocates s (allocate_block s)
  unfolding allocate_block
  allocate_block-Allocates s bytes =
      elim (Option-cases (first_free s.bitmap (disk_size s.superblock))) [
        | inl full ↦ rw (full, allocate_block) (allocate-full s full)
        | inr (i, found) ↦
            rw (found, allocate_block)
              (allocate-found s i
                (block_write (bit_set s.bitmap i) 1 (record s { bitmap = bit_set s.bitmap i }))
                (write_map s (bit_set s.bitmap i) i true (λ b. bit_test-bit_set s.bitmap i b bytes))
                (one_free s i found))
      ]
