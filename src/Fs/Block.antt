-- ===== src/Fs/Block.antt =====
-- Blocks of 4096 bytes, and the little-endian words that a struct reads from one
-- (project3/fs5600.h, project3/misc.c).
use cs5600_computer_systems.Prelude.{
  ℕ, ◌+◌, ◌-◌, ◌*◌, ◌/◌, ◌%◌, ◌<◌, ◌≡◌, ◌&&◌, arith, ltb, leb, ◌==◌, if◌then◌else◌,
}

-- FS_BLOCK_SIZE
abbrev pub fs_block_size : ℕ
fs_block_size = 4096

-- The byte at each offset. The code reads and writes offsets below 4096 only.
abbrev pub Block : Type 0
Block = ℕ → ℕ

-- `memset(block, 0, FS_BLOCK_SIZE)`
abbrev pub zero_block : Block
zero_block o = 0

-- A `uint32_t` at an offset.
unfoldable pub load32 : Block → ℕ → ℕ
load32 b o = b o + 256 * b (o + 1) + 65536 * b (o + 2) + 16777216 * b (o + 3)

-- Byte `k` of a word.
abbrev pub byte : ℕ → ℕ → ℕ
byte v k =
    if k == 0
    then v % 256
    else if k == 1
    then v / 256 % 256
    else if k == 2
    then v / 65536 % 256
    else v / 16777216 % 256

unfoldable pub store32 : Block → ℕ → ℕ → Block
store32 b o v p = if leb o p && ltb p (o + 4) then byte v (p - o) else b p

-- `memcpy(block + start, buf + from, n)`
unfoldable pub copy_into : Block → ℕ → (ℕ → ℕ) → ℕ → ℕ → Block
copy_into b start buf from n p =
    if leb start p && ltb p (start + n) then buf (from + (p - start)) else b p

pub load32-store32_self : (b : Block) (o v : ℕ) → v < 4294967296 → load32 (store32 b o v) o ≡ v
unfolding load32 store32
load32-store32_self b o v h = ground arith
