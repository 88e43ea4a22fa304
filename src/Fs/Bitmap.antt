-- ===== src/Fs/Bitmap.antt =====
-- The free-block bitmap: its bits, `allocate_block` and `free_block`.
pub mod Bits
pub mod Blocks
use cs5600_computer_systems.Prelude.{
  ℕ, ◌+◌, ◌-◌, ◌/◌, ◌%◌, ◌^◌, bit_and, bit_or, Bool, true, false, not, Option, none, some, ltb, leb,
  ◌==◌, if◌then◌else◌, find_from,
}
use Prim.Native.Nat.{min}
use cs5600_computer_systems.Fs.Block.{Block}
use cs5600_computer_systems.Fs.Host.{Host}
use cs5600_computer_systems.Fs.Disk.{State, Fs, disk_size, block_write}
use cs5600_computer_systems.Fs.Action.{done, enospc, Action, pure, fail, crash, ◌>>=◌, ◌>>◌}

-- How many bits the bitmap block has.
abbrev pub bitmap_bits : ℕ
bitmap_bits = 32768

-- `map[i/8] |= (1 << (i%8))`
unfoldable pub bit_set : Block → ℕ → Block
bit_set m i o = if o == i / 8 then bit_or (m o) (2 ^ (i % 8)) else m o

-- `map[i/8] &= ~(1 << (i%8))`: the low byte of the complement is 255 less the bit.
unfoldable pub bit_clear : Block → ℕ → Block
bit_clear m i o = if o == i / 8 then bit_and (m o) (255 - 2 ^ (i % 8)) else m o

-- `map[i/8] & (1 << (i%8))`, as a test.
unfoldable pub bit_test : Block → ℕ → Bool
bit_test m i = not (bit_and (m (i / 8)) (2 ^ (i % 8)) == 0)

-- The loop of `allocate_block` from block 2 on, as far as the bitmap reaches.
unfoldable pub first_free : Block → ℕ → Option ℕ
first_free m size = find_from (λ i. not (bit_test m i)) (min size bitmap_bits - 2) 2

module _ ⦃H : Host⦄ where
  -- A disk that is larger than its bitmap, and full, makes the loop read beyond the bitmap.
  unfoldable pub allocate_block : Action Fs ℕ
  allocate_block s = elim (first_free s.bitmap (disk_size s.superblock)) [
    | some i ↦
        (do block_write (bit_set s.bitmap i) 1; pure i) (record s { bitmap = bit_set s.bitmap i })
    | none ↦ (if leb (disk_size s.superblock) bitmap_bits then fail enospc else crash) s
  ]

  -- `bit_clear` writes outside the bitmap at a number that is not below 32768.
  unfoldable pub free_block : ℕ → Action Fs (Unit {0})
  free_block i s =
      if ltb i bitmap_bits
      then block_write (bit_clear s.bitmap i) 1 (record s { bitmap = bit_clear s.bitmap i })
      else crash s
