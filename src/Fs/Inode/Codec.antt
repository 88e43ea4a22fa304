-- ===== src/Fs/Inode/Codec.antt =====
-- What an inode's block is read back as.
use cs5600_computer_systems.Prelude.{
  ℕ, ◌+◌, ◌*◌, ◌-◌, ◌/◌, ◌%◌, ◌∙◌, ap, sym, ◌≤◌, ◌<◌, ◌≡◌, arith, ltb, Bool-cases, inl, inr, ltb→lt,
}
use cs5600_computer_systems.Fs.Block.{load32, byte, fs_block_size}
use cs5600_computer_systems.Fs.Inode.{Inode, ptr_count, decode_inode, encode_inode}

-- The fields fit their types, and there is nothing behind the last block number.
pub record IsInode (n : Inode) : Type 0 where
  pub uid : n.uid < 65536
  pub gid : n.gid < 65536
  pub mode : n.mode < 4294967296
  pub ctime : n.ctime < 4294967296
  pub mtime : n.mtime < 4294967296
  pub size : n.size < 4294967296
  pub ptrs : (i : ℕ) → n.ptrs i < 4294967296
  pub rest : (i : ℕ) → ptr_count ≤ i → n.ptrs i ≡ 0

encode-tail :
    (n : Inode) (o : ℕ)
    → 20 ≤ o
    → o < fs_block_size
    → encode_inode n o ≡ byte (n.ptrs ((o - 20) / 4)) ((o - 20) % 4)
unfolding encode_inode
encode-tail n o lo hi = ground arith

encode-ptr_byte :
    (n : Inode) (i k o : ℕ)
    → o ≡ 20 + 4 * i + k
    → i < ptr_count
    → k < 4
    → encode_inode n o ≡ byte (n.ptrs i) k
encode-ptr_byte n i k o e lt small =
    let at_i : (o - 20) / 4 ≡ i = omega arith in
    let at_k : (o - 20) % 4 ≡ k = omega arith in
    encode-tail n o (omega arith) (omega arith)
    ∙ ap (λ j. byte (n.ptrs j) ((o - 20) % 4)) at_i
    ∙ ap (byte (n.ptrs i)) at_k

encode-ptr :
    (n : Inode) (i : ℕ)
    → n.ptrs i < 4294967296
    → i < ptr_count
    → load32 (encode_inode n) (20 + 4 * i) ≡ n.ptrs i
unfolding load32
encode-ptr n i h lt = omega (
  arith,
  encode-ptr_byte n i 0 (20 + 4 * i) (omega arith) lt (omega arith),
  encode-ptr_byte n i 1 (20 + 4 * i + 1) (omega arith) lt (omega arith),
  encode-ptr_byte n i 2 (20 + 4 * i + 2) (omega arith) lt (omega arith),
  encode-ptr_byte n i 3 (20 + 4 * i + 3) (omega arith) lt (omega arith),
)

decode-ptr : (n : Inode) → IsInode n → (i : ℕ) → (decode_inode (encode_inode n)).ptrs i ≡ n.ptrs i
unfolding decode_inode
decode-ptr n h i = elim (Bool-cases (ltb i ptr_count)) [
  | inl in_range ↦ rw in_range (encode-ptr n i (h.ptrs i) (ltb→lt i ptr_count in_range))
  | inr behind ↦ rw behind (sym (h.rest i (ground arith)))
]

-- For an inode whose fields fit their types, the block that `write_inode` puts out is read back
-- by `read_inode` as the same inode.
pub decode-encode : (n : Inode) → IsInode n → decode_inode (encode_inode n) ≡ n
unfolding decode_inode encode_inode
decode-encode n h i = record {
  uid = uid i;
  gid = gid i;
  mode = word n.mode h.mode i;
  ctime = word n.ctime h.ctime i;
  mtime = word n.mtime h.mtime i;
  size = word n.size h.size i;
  ptrs = λ k. decode-ptr n h k i;
}
  where
    uid : n.uid % 256 + 256 * (n.uid / 256 % 256) ≡ n.uid
    uid = omega (arith, h.uid)

    gid : n.gid % 256 + 256 * (n.gid / 256 % 256) ≡ n.gid
    gid = omega (arith, h.gid)

    word :
        (v : ℕ)
        → v < 4294967296
        → v % 256
            + 256 * (v / 256 % 256)
            + 65536 * (v / 65536 % 256)
            + 16777216 * (v / 16777216 % 256)
          ≡ v
    word v lt = omega arith
