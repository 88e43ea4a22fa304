-- ===== src/Fs/Inode.antt =====
-- `struct fs_inode` of project3/fs5600.h: its fields, and the block that holds it.
pub mod Codec
pub mod Mode
use cs5600_computer_systems.Prelude.{
  ℕ, ◌+◌, ◌-◌, ◌*◌, ◌/◌, ◌%◌, ◌≡◌, Bool, bit_and, ltb, leb, ◌==◌, if◌then◌else◌,
}
use cs5600_computer_systems.Fs.Block.{Block, load32, byte, fs_block_size}

-- How many block numbers an inode holds, `FS_BLOCK_SIZE/4 - 5`.
abbrev pub ptr_count : ℕ
ptr_count = 1019

-- `size` is the bit pattern of an `int32_t`.
pub record Inode : Type 0 where
  pub uid : ℕ
  pub gid : ℕ
  pub mode : ℕ
  pub ctime : ℕ
  pub mtime : ℕ
  pub size : ℕ
  pub ptrs : ℕ → ℕ

-- The cast of a block to `struct fs_inode *`.
unfoldable pub decode_inode : Block → Inode
unfolding load32
decode_inode b = record {
  uid = b 0 + 256 * b 1;
  gid = b 2 + 256 * b 3;
  mode = load32 b 4;
  ctime = load32 b 8;
  mtime = load32 b 12;
  size = load32 b 16;
  ptrs = λ i. if ltb i ptr_count then load32 b (20 + 4 * i) else 0;
}

-- The cast of an inode to the bytes that `block_write` puts out.
unfoldable pub encode_inode : Inode → Block
encode_inode n o =
    if ltb o 2
    then byte n.uid o
    else if ltb o 4
    then byte n.gid (o - 2)
    else if ltb o 8
    then byte n.mode (o - 4)
    else if ltb o 12
    then byte n.ctime (o - 8)
    else if ltb o 16
    then byte n.mtime (o - 12)
    else if ltb o 20
    then byte n.size (o - 16)
    else if ltb o fs_block_size
    then byte (n.ptrs ((o - 20) / 4)) ((o - 20) % 4)
    else 0

-- `S_IFMT`, `S_IFDIR` and `S_IFREG` of sys/stat.h.
abbrev pub s_ifmt : ℕ
s_ifmt = 0o170000

abbrev pub s_ifdir : ℕ
s_ifdir = 0o040000

abbrev pub s_ifreg : ℕ
s_ifreg = 0o100000

unfoldable pub is_dir : Inode → Bool
is_dir n = bit_and n.mode s_ifmt == s_ifdir

unfoldable pub is_reg : Inode → Bool
is_reg n = bit_and n.mode s_ifmt == s_ifreg

-- Whether the `int32_t` size is below zero.
unfoldable pub is_negative : Inode → Bool
is_negative n = leb 2147483648 n.size

-- `(inode.size + FS_BLOCK_SIZE - 1) / FS_BLOCK_SIZE` as the bound of a loop from 0; for a size
-- below zero it is at most 0.
unfoldable pub block_count : Inode → ℕ
unfolding is_negative
block_count n = if is_negative n then 0 else (n.size + 4095) / fs_block_size
