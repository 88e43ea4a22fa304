-- ===== src/Fs/Data/File.antt =====
-- A sound regular file on the disk, and what `fs_read` returns of it.
use cs5600_computer_systems.Prelude.{
  ℕ, ◌+◌, ◌-◌, ◌*◌, ◌/◌, ◌^◌, ◌≤◌, ◌<◌, ◌≡◌, ◌≢◌, true, false, arith, ap, ◌∙◌, sym, subst, Str,
}
use Prim.Native.Nat.{min}
use cs5600_computer_systems.Fs.Block.{Block, fs_block_size, copy_into}
use cs5600_computer_systems.Fs.Host.{Host}
use cs5600_computer_systems.Fs.Inode.{
  Inode, ptr_count, encode_inode, decode_inode, is_reg, is_negative, block_count,
}
use cs5600_computer_systems.Fs.Inode.Codec.{IsInode, decode-encode}
use cs5600_computer_systems.Fs.Disk.{Fs}
use cs5600_computer_systems.Fs.Bitmap.{bit_test}
use cs5600_computer_systems.Fs.Path.{translate}
use cs5600_computer_systems.Fs.Path.Resolves.{Holds}
use cs5600_computer_systems.Fs.Data.{fs_read}
use cs5600_computer_systems.Fs.Data.Read.{content, fs_read-content}
use cs5600_computer_systems.Fs.Action.{done}

-- How many blocks hold so many bytes.
abbrev pub blocks_of : ℕ → ℕ
blocks_of size = (size + 4095) / fs_block_size

pub block_count-positive : (n : Inode) → n.size < 2147483648 → block_count n ≡ blocks_of n.size
unfolding block_count is_negative
block_count-positive n small = ground arith

pub is_negative-positive : (n : Inode) → n.size < 2147483648 → is_negative n ≡ false
unfolding is_negative
is_negative-positive n small = ground arith

-- Block `inum` holds the inode `n` of a regular file, whose blocks hold `blocks`. All of these blocks are
-- distinct, are no metadata, can be written, and are marked as taken.
pub record File ⦃H : Host⦄ (s : Fs) (inum : ℕ) (n : Inode) (blocks : ℕ → Block) : Type 0 where
  pub fields : IsInode n
  pub inode : Holds s inum (encode_inode n)
  pub regular : is_reg n ≡ true
  pub room : n.size ≤ ptr_count * fs_block_size
  pub held : (k : ℕ) → k < blocks_of n.size → Holds s (n.ptrs k) (blocks k)
  pub inum_above : 1 < inum
  pub inum_below : inum < 524287
  pub above : (k : ℕ) → k < blocks_of n.size → 1 < n.ptrs k
  pub below : (k : ℕ) → k < blocks_of n.size → n.ptrs k < 524287
  pub apart : (k : ℕ) → k < blocks_of n.size → n.ptrs k ≢ inum
  pub distinct :
      (j k : ℕ) → j < blocks_of n.size → k < blocks_of n.size → n.ptrs j ≡ n.ptrs k → j ≡ k
  pub inum_taken : bit_test s.bitmap inum ≡ true
  pub taken : (k : ℕ) → k < blocks_of n.size → bit_test s.bitmap (n.ptrs k) ≡ true

-- A block in use that is not the bitmap's and none of the file's.
pub record Foreign ⦃H : Host⦄ (s : Fs) (inum : ℕ) (n : Inode) (b : ℕ) : Type 0 where
  pub taken : bit_test s.bitmap b ≡ true
  pub no_map : 1 ≢ b
  pub no_inode : inum ≢ b
  pub no_ptr : (k : ℕ) → k < blocks_of n.size → n.ptrs k ≢ b

module _ ⦃H : Host⦄ {s : Fs} {inum : ℕ} {n : Inode} {blocks : ℕ → Block}
    (f : File s inum n blocks) where
  pub File-decode : decode_inode (encode_inode n) ≡ n
  File-decode = decode-encode n f.fields

  pub File-small : n.size < 2147483648
  File-small = omega (arith, f.room)

  -- `fs_read` of a sound file returns its bytes.
  pub fs_read-File :
      (path : Str) (buf : Block) (len offset : ℕ)
      → translate path s ≡ done inum s
      → offset + len < 2 ^ 64
      → fs_read path buf len offset s
        ≡ done
            (
              min len (n.size - offset),
              copy_into buf 0 (content blocks) offset (min len (n.size - offset)),
            )
            s
  fs_read-File path buf len offset at small =
      let same = File-decode in
      subst
        (λ (m : Inode).
          fs_read path buf len offset s
          ≡ done
              (
                min len (m.size - offset),
                copy_into buf 0 (content blocks) offset (min len (m.size - offset)),
              )
              s)
        same
        (fs_read-content s path inum (encode_inode n) at f.inode blocks buf len offset
          (ap is_reg same ∙ f.regular) (ap is_negative same ∙ is_negative-positive n File-small)
          (subst (λ (m : Inode). m.size ≤ ptr_count * fs_block_size) (sym same) f.room)
          (subst
            (λ (m : Inode). (k : ℕ) → k * fs_block_size < m.size → Holds s (m.ptrs k) (blocks k))
            (sym same) (λ k lt. f.held k (omega arith)))
          small)
