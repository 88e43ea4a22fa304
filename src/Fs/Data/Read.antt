-- ===== src/Fs/Data/Read.antt =====
-- What `fs_read` returns.
use cs5600_computer_systems.Prelude.{
  ℕ, zero, suc, ◌+◌, ◌-◌, ◌*◌, ◌/◌, ◌%◌, ◌^◌, ◌≤◌, ◌<◌, ◌≡◌, refl, true, false, arith, ltb, leb,
  lt→ltb, fun_ext, dec_lt, ap, ap₂, ◌∙◌, sym, Str,
}
use Prim.Native.Nat.{min}
use cs5600_computer_systems.Fs.Block.{Block, fs_block_size, copy_into}
use cs5600_computer_systems.Fs.Host.{Host}
use cs5600_computer_systems.Fs.Inode.{Inode, decode_inode, ptr_count, is_reg, is_negative}
use cs5600_computer_systems.Fs.Disk.{Fs}
use cs5600_computer_systems.Fs.Path.{translate}
use cs5600_computer_systems.Fs.Path.Resolves.{Holds, block_read-Holds, read_inode-Holds}
use cs5600_computer_systems.Fs.Data.{read_loop, read_len, fs_read}
use cs5600_computer_systems.Fs.Action.{done, failed, eisdir}

-- The byte of a file at a position, where `blocks` are its blocks in order.
unfoldable pub content : (ℕ → Block) → ℕ → ℕ
content blocks p = blocks (p / fs_block_size) (p % fs_block_size)

copy_into-in :
    (b : Block) (start : ℕ) (buf : ℕ → ℕ) (from n o k : ℕ)
    → start + k ≡ o
    → k < n
    → copy_into b start buf from n o ≡ buf (from + k)
unfolding copy_into
copy_into-in b start buf from n o k e lt =
    let lo : leb start o ≡ true = ground arith in
    let hi : ltb o (start + n) ≡ true = ground arith in
    let at : o - start ≡ k = omega arith in rw (lo, hi, at)

copy_into-below :
    (b : Block) (start : ℕ) (buf : ℕ → ℕ) (from n o : ℕ)
    → o < start
    → copy_into b start buf from n o ≡ b o
unfolding copy_into
copy_into-below b start buf from n o lt = ground arith

copy_into-above :
    (b : Block) (start : ℕ) (buf : ℕ → ℕ) (from n o : ℕ)
    → start + n ≤ o
    → copy_into b start buf from n o ≡ b o
unfolding copy_into
copy_into-above b start buf from n o le = ground arith

copy_into-none :
    (b : Block) (start : ℕ) (buf : ℕ → ℕ) (from o : ℕ) → copy_into b start buf from 0 o ≡ b o
copy_into-none b start buf from o = elim (dec_lt o start) [
  | yes below ↦ copy_into-below b start buf from 0 o below
  | no above ↦ copy_into-above b start buf from 0 o (omega arith)
]

-- One round of the loop and the rest of it copy what one copy of the whole range does.
copy_step :
    (buf b : Block) (file : ℕ → ℕ) (start next from got c len o : ℕ)
    → from < fs_block_size
    → next ≡ start * fs_block_size + fs_block_size
    → c ≡ min (fs_block_size - from) len
    → ((k : ℕ) → k < fs_block_size → b k ≡ file (start * fs_block_size + k))
    → copy_into (copy_into buf got b from c) (got + c) file next (len - c) o
      ≡ copy_into buf got file (start * fs_block_size + from) len o
copy_step buf b file start next from got c len o lt follows e at = elim (dec_lt o got) [
  | yes before ↦
      copy_into-below (copy_into buf got b from c) (got + c) file next (len - c) o (omega arith)
      ∙ copy_into-below buf got b from c o before
      ∙ sym (copy_into-below buf got file (start * fs_block_size + from) len o before)
  | no not_before ↦ elim (dec_lt o (got + c)) [
    | yes first ↦
        copy_into-below (copy_into buf got b from c) (got + c) file next (len - c) o first
        ∙ copy_into-in buf got b from c o (o - got) (omega arith) (omega arith)
        ∙ at (from + (o - got)) (omega arith)
        ∙ ap file (omega arith)
        ∙ sym (
            copy_into-in buf got file (start * fs_block_size + from) len o (o - got) (omega arith)
              (omega arith))
    | no not_first ↦ elim (dec_lt o (got + len)) [
      | yes later ↦
          copy_into-in (copy_into buf got b from c) (got + c) file next (len - c) o (o - (got + c))
            (omega arith) (omega arith)
          ∙ ap file (omega arith)
          ∙ sym (
              copy_into-in buf got file (start * fs_block_size + from) len o (o - got) (omega arith)
                (omega arith))
      | no not_later ↦
          copy_into-above (copy_into buf got b from c) (got + c) file next (len - c) o (omega arith)
          ∙ copy_into-above buf got b from c o (omega arith)
          ∙ sym (copy_into-above buf got file (start * fs_block_size + from) len o (omega arith))
    ]
  ]
]

content-block :
    (blocks : ℕ → Block) (start k : ℕ)
    → k < fs_block_size
    → blocks start k ≡ content blocks (start * fs_block_size + k)
unfolding content
content-block blocks start k lt =
    let q : (start * fs_block_size + k) / fs_block_size ≡ start = omega arith in
    let r : (start * fs_block_size + k) % fs_block_size ≡ k = omega arith in rw (q, r)

module _ ⦃H : Host⦄ (s : Fs) (n : Inode) (blocks : ℕ → Block) where
  -- With fuel for the bytes that are left, the loop copies them all and leaves the state alone.
  read_loop-done :
      (fuel start from got len : ℕ) (buf : Block)
      → len ≤ fuel
      → from < fs_block_size
      → (0 < len → start * fs_block_size + from + len ≤ ptr_count * fs_block_size)
      → ((k : ℕ)
          → 0 < len
          → k * fs_block_size < start * fs_block_size + from + len
          → Holds s (n.ptrs k) (blocks k))
      → read_loop fuel n start from got len buf s
        ≡ done (got + len, copy_into buf got (content blocks) (start * fs_block_size + from) len) s
  unfolding read_loop
  read_loop-done fuel start from got zero buf enough lt room held =
      ap₂ (λ k b. done (k, b) s) (omega arith)
        (fun_ext
          λ o. sym (copy_into-none buf got (content blocks) (start * fs_block_size + from) o))
  read_loop-done zero start from got (suc l) buf enough lt room held = absurd (omega arith)
  read_loop-done (suc fuel) start from got (suc l) buf enough lt room held =
      rw
        (
          lt→ltb start ptr_count (omega (arith, room (omega arith))),
          block_read-Holds s (n.ptrs start) (held start (omega arith) (omega arith)),
        )
        (read_loop-done fuel (start + 1) 0 (got + min (fs_block_size - from) (suc l))
            (suc l - min (fs_block_size - from) (suc l)) _ (omega arith) (omega arith)
            (λ more. omega (arith, room (omega arith)))
            (λ k more h. held k (omega arith) (omega arith))
          ∙ ap₂ (λ k b. done (k, b) s) (omega arith)
              (fun_ext λ o.
                copy_step buf (blocks start) (content blocks) start
                  ((start + 1) * fs_block_size + 0) from got (min (fs_block_size - from) (suc l))
                  (suc l) o lt (omega arith) refl (λ k. content-block blocks start k)))

-- The length after the two tests at the end of the file is the number of bytes that are there.
read_len-min :
    ⦃H : Host⦄ (n : Inode) (len offset : ℕ)
    → is_negative n ≡ false
    → offset + len < 2 ^ 64
    → read_len n len offset ≡ min len (n.size - offset)
read_len-min n len offset pos small = rw pos (ground arith)

module _ ⦃H : Host⦄ (s : Fs) (path : Str) (inum : ℕ) (inode_block : Block)
    (at : translate path s ≡ done inum s) (held : Holds s inum inode_block) where
  -- `fs_read` of what is not a regular file reports EISDIR.
  pub fs_read-wrong_kind :
      (buf : Block) (len offset : ℕ)
      → is_reg (decode_inode inode_block) ≡ false
      → fs_read path buf len offset s ≡ failed eisdir s
  unfolding fs_read
  fs_read-wrong_kind buf len offset kind = rw (at, read_inode-Holds s inum held, kind)

  -- For a path that `translate` takes to a regular file with a size that is not negative and
  -- fits the array of block numbers, whose blocks can be read, and `offset + len` below 2 ^ 64:
  -- `fs_read` returns the smaller of `len` and the number of bytes behind the offset, has copied
  -- just those bytes of the file to the front of the buffer, and leaves the state unchanged. The
  -- fuel of its loop is enough.
  pub fs_read-content :
      (blocks : ℕ → Block) (buf : Block) (len offset : ℕ)
      → is_reg (decode_inode inode_block) ≡ true
      → is_negative (decode_inode inode_block) ≡ false
      → (decode_inode inode_block).size ≤ ptr_count * fs_block_size
      → ((k : ℕ)
          → k * fs_block_size < (decode_inode inode_block).size
          → Holds s ((decode_inode inode_block).ptrs k) (blocks k))
      → offset + len < 2 ^ 64
      → let count = min len ((decode_inode inode_block).size - offset) in
        fs_read path buf len offset s
        ≡ done (count, copy_into buf 0 (content blocks) offset count) s
  unfolding fs_read
  fs_read-content blocks buf len offset kind pos room blocks_held small =
      let n = decode_inode inode_block in
      let count = min len (n.size - offset) in
      rw (at, read_inode-Holds s inum held, kind, read_len-min n len offset pos small)
        (read_loop-done s n blocks count (offset / fs_block_size) (offset % fs_block_size) 0 count
            buf (omega arith) (omega arith) (λ more. omega arith)
            (λ k more h. blocks_held k (omega arith))
          ∙ ap₂ (λ k p. done (k, copy_into buf 0 (content blocks) p count) s) (omega arith)
              (omega arith))
