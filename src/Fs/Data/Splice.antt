-- ===== src/Fs/Data/Splice.antt =====
-- What `fs_write` makes of a sound file.
use cs5600_computer_systems.Prelude.{
  clash, ℕ, ◌+◌, ◌-◌, ◌*◌, ◌/◌, ◌%◌, ◌^◌, ◌≤◌, ◌<◌, ◌≡◌, ◌≢◌, true, false, ◌&&◌, arith, ltb, leb,
  if◌then◌else◌, Bool-cases, inl, inr, ap, ◌∙◌, sym, subst, Str, dec_lt,
}
use Prim.Native.Nat.{max}
use cs5600_computer_systems.Fs.Block.{Block, fs_block_size}
use cs5600_computer_systems.Fs.Host.{Host}
use cs5600_computer_systems.Fs.Inode.{Inode, ptr_count, encode_inode, is_reg}
use cs5600_computer_systems.Fs.Inode.Codec.{IsInode}
use cs5600_computer_systems.Fs.Dirent.Slots.{IsBytes}
use cs5600_computer_systems.Fs.Disk.{Fs, disk_size}
use cs5600_computer_systems.Fs.Bitmap.{bit_test}
use cs5600_computer_systems.Fs.Path.{translate}
use cs5600_computer_systems.Fs.Path.Resolves.{Holds, read_inode-Holds}
use cs5600_computer_systems.Fs.Writes.{
  IsReliable, with_block, write_inode-done, Holds-with_block_self, Holds-with_block_ne,
}
use cs5600_computer_systems.Fs.Data.{fs_write, write_loop, required_blocks, grown_size}
use cs5600_computer_systems.Fs.Data.Read.{content}
use cs5600_computer_systems.Fs.Data.File.{
  File, Foreign, File-decode, File-small, blocks_of, block_count-positive, is_negative-positive,
}
use cs5600_computer_systems.Fs.Data.Grow.{
  Free, Grown, grown_ptrs, grown_state, grow-done, grown_state-Grown,
}
use cs5600_computer_systems.Fs.Data.WriteLoop.{splice, write_loop-done}
use cs5600_computer_systems.Fs.Action.{done}

pub required_blocks-small :
    ⦃H : Host⦄ (end : ℕ) → end ≤ ptr_count * fs_block_size → required_blocks end ≡ blocks_of end
required_blocks-small end le =
    let e : (end + 4095) % 2 ^ 64 / fs_block_size % 2 ^ 32 ≡ (end + 4095) / fs_block_size =
      omega arith in
    let small : leb 2147483648 ((end + 4095) / fs_block_size) ≡ false = ground arith in
    rw (e, small)

grown_size-max :
    ⦃H : Host⦄ (n : Inode) (end : ℕ)
    → end ≤ ptr_count * fs_block_size
    → grown_size n end ≡ max n.size end
grown_size-max n end le = ground arith

-- The file's position-wise contents after the loop, by the contents before it.
content-splice :
    (blocks blocks' : ℕ → Block) (pos : ℕ) (buf : Block) (len p : ℕ)
    → ((k o : ℕ) → o < fs_block_size → blocks' k o ≡ splice blocks pos buf 0 len k o)
    → content blocks' p
      ≡ (if leb pos p && ltb p (pos + len) then buf (p - pos) else content blocks p)
unfolding content
content-splice blocks blocks' pos buf len p same =
    let e : p / fs_block_size * fs_block_size + p % fs_block_size ≡ p = omega arith in
    same (p / fs_block_size) (p % fs_block_size) (omega arith)
    ∙ rw e
        (ap (λ v. if leb pos p && ltb p (pos + len) then buf v else content blocks p) (omega arith))

-- What `fs_write` leaves behind: a sound file of the new size, whose bytes are those of the buffer where it
-- was written and the old ones elsewhere, and every block in use that is none of the file's and not the bitmap's as before.
pub record Spliced ⦃H : Host⦄ (s s' : Fs) (inum : ℕ) (n : Inode) (blocks : ℕ → Block) (buf : Block)
    (len offset : ℕ) (n' : Inode) (blocks' : ℕ → Block) : Type 0 where
  pub file : File s' inum n' blocks'
  pub size : n'.size ≡ max n.size (offset + len)
  pub bytes :
      (p : ℕ)
      → content blocks' p
        ≡ (if leb offset p && ltb p (offset + len) then buf (p - offset) else content blocks p)
  pub map_bytes : IsBytes s'.bitmap
  pub superblock : s'.superblock ≡ s.superblock
  pub kept : (b : ℕ) → bit_test s.bitmap b ≡ true → bit_test s'.bitmap b ≡ true
  pub rest : (b : ℕ) (e : Block) → Foreign s inum n b → Holds s b e → Holds s' b e

module _ ⦃H : Host⦄ (io : IsReliable) {s : Fs} {inum : ℕ} {n : Inode} {blocks : ℕ → Block}
    (f : File s inum n blocks) (map_bytes : IsBytes s.bitmap) (buf : Block) (len offset : ℕ)
    (fits : offset + len ≤ ptr_count * fs_block_size) (alloc : ℕ → ℕ)
    (free : Free alloc
      (disk_size s.superblock)
      (blocks_of (offset + len) - blocks_of n.size)
      (blocks_of n.size)
      s.bitmap)
    (fresh : (k : ℕ)
      → blocks_of n.size ≤ k
      → k < blocks_of (offset + len)
      → Holds s (alloc k) (blocks k)) where
  abbrev had : ℕ
  had = blocks_of n.size

  abbrev more : ℕ
  more = blocks_of (offset + len) - blocks_of n.size

  abbrev new_ptrs : ℕ → ℕ
  new_ptrs = grown_ptrs alloc more had n.ptrs

  -- The state once the blocks are allocated.
  abbrev grown : Fs
  grown = grown_state alloc more had s

  growth : Grown alloc more had s grown
  growth = grown_state-Grown io alloc more had s map_bytes free

  -- What holds of the old block numbers and of the new ones holds of all.
  each_ptr :
      (P : ℕ → ℕ → Type 0)
      → ((j : ℕ) → j < had → P j (n.ptrs j))
      → ((j : ℕ) → had ≤ j → j < had + more → P j (alloc j))
      → (j : ℕ) → j < had + more
      → P j (new_ptrs j)
  each_ptr P old new j lt = elim (dec_lt j had) [
    | yes before ↦ subst (P j) (sym (kept j before)) (old j before)
    | no behind ↦ subst (P j) (sym (added j behind lt)) (new j (omega arith) lt)
  ]
    where
      kept : (l : ℕ) → l < had → new_ptrs l ≡ n.ptrs l
      kept l h = ground arith

      added : (l : ℕ) → ¬ (l < had) → l < had + more → new_ptrs l ≡ alloc l
      added l h g = ground arith

  new_above : (j : ℕ) → j < had + more → 1 < new_ptrs j
  new_above = each_ptr (λ j b. 1 < b) f.above growth.above

  new_below : (j : ℕ) → j < had + more → new_ptrs j < 524287
  new_below = each_ptr (λ j b. b < 524287) f.below (λ j lo hi. omega (arith, growth.below j lo hi))

  new_apart : (j : ℕ) → j < had + more → new_ptrs j ≢ inum
  new_apart =
      each_ptr (λ j b. b ≢ inum) f.apart
        (λ j lo hi e.
          clash f.inum_taken (subst (λ b. bit_test s.bitmap b ≡ false) e (growth.was_free j lo hi)))

  new_taken : (j : ℕ) → j < had + more → bit_test grown.bitmap (new_ptrs j) ≡ true
  new_taken =
      each_ptr (λ j b. bit_test grown.bitmap b ≡ true)
        (λ j lt. growth.kept (n.ptrs j) (f.taken j lt)) growth.taken

  new_distinct : (j l : ℕ) → j < had + more → l < had + more → new_ptrs j ≡ new_ptrs l → j ≡ l
  new_distinct j l lj ll =
      each_ptr (λ a b. b ≡ new_ptrs l → a ≡ l)
        (λ a la.
          each_ptr (λ c d. n.ptrs a ≡ d → a ≡ c) (λ c lc. f.distinct a c la lc)
            (λ c lo hi e. absurd (
              clash (f.taken a la)
                (subst (λ b. bit_test s.bitmap b ≡ false) (sym e) (growth.was_free c lo hi))))
            l ll)
        (λ a lo hi.
          each_ptr (λ c d. alloc a ≡ d → a ≡ c)
            (λ c lc e. absurd (
              clash (f.taken c lc)
                (subst (λ b. bit_test s.bitmap b ≡ false) e (growth.was_free a lo hi))))
            (λ c lo' hi'. growth.distinct a c lo hi lo' hi') l ll)
        j lj

  new-Foreign : (b : ℕ) → Foreign s inum n b → (j : ℕ) → j < had + more → new_ptrs j ≢ b
  new-Foreign b other =
      each_ptr (λ j c. c ≢ b) other.no_ptr
        (λ j lo hi e.
          clash other.taken (subst (λ c. bit_test s.bitmap c ≡ false) e (growth.was_free j lo hi)))

  new_held : (j : ℕ) → j < had + more → Holds grown (new_ptrs j) (blocks j)
  new_held =
      each_ptr (λ j b. Holds grown b (blocks j))
        (λ j lt. growth.rest (n.ptrs j) (blocks j) (omega (arith, f.above j lt)) (f.held j lt))
        (λ j lo hi.
          growth.rest (alloc j) (blocks j) (omega (arith, growth.above j lo hi))
            (fresh j lo (omega arith)))

  abbrev grown_inode : Inode
  grown_inode = record n { ptrs = new_ptrs }

  -- The inode that is written back.
  abbrev final_inode : ℕ → Inode
  final_inode now = record n {
    ptrs = new_ptrs;
    size = grown_size grown_inode (offset + len);
    mtime = now % 2 ^ 32;
  }

  final_size : (now : ℕ) → (final_inode now).size ≡ max n.size (offset + len)
  final_size now = grown_size-max grown_inode (offset + len) fits

  final_count : (now : ℕ) → blocks_of (final_inode now).size ≡ had + more
  final_count now = omega (arith, final_size now)

  final-IsInode : (now : ℕ) → IsInode (final_inode now)
  final-IsInode now = record {
    uid = f.fields.uid;
    gid = f.fields.gid;
    mode = f.fields.mode;
    ctime = f.fields.ctime;
    mtime = omega arith;
    size = omega (arith, final_size now, f.room);
    ptrs = λ j. small j (f.fields.ptrs j);
    rest = λ j le. behind j le (f.fields.rest j le);
  }
    where
      small : (j : ℕ) → n.ptrs j < 4294967296 → new_ptrs j < 4294967296
      small j h = elim (Bool-cases (leb had j && ltb j (had + more))) [
        | inl new ↦ rw new (omega (arith, growth.below j (ground arith) (ground arith)))
        | inr old ↦ rw old h
      ]

      behind : (j : ℕ) → ptr_count ≤ j → n.ptrs j ≡ 0 → new_ptrs j ≡ 0
      behind j le h =
          let old : (leb had j && ltb j (had + more)) ≡ false = ground (arith, f.room) in
          rw (old, h)

  -- The handler up to the loop that writes.
  fs_write-grown :
      (now : ℕ) (path : Str) (s' : Fs)
      → translate path s ≡ done inum s
      → offset ≤ n.size
      → write_loop len grown_inode buf (offset / fs_block_size) (offset % fs_block_size) 0 len grown
        ≡ done len s'
      → fs_write now path buf len offset s
        ≡ done len (with_block inum (encode_inode (final_inode now)) s')
  unfolding fs_write
  fs_write-grown now path s' at within run =
      let whole : (offset + len) % 2 ^ 64 ≡ offset + len = omega arith in
      let not_beyond : ltb n.size offset ≡ false = ground arith in
      rw
        (
          at,
          read_inode-Holds s inum f.inode,
          File-decode f,
          f.regular,
          is_negative-positive n (File-small f),
          not_beyond,
          whole,
          required_blocks-small (offset + len) fits,
          block_count-positive n (File-small f),
          grow-done io alloc more had n s (omega (arith, f.room)) free,
          run,
        )
        (rw (
          write_inode-done io inum (final_inode now) s' (omega (arith, f.inum_above)) f.inum_below))

  -- On a disk whose writes succeed: `fs_write` at an offset that is not behind the end of a sound file, up to an
  -- end within the array of block numbers and with free blocks for what it grows, returns all `len`
  -- bytes and leaves the sound file that `Spliced` describes.
  pub fs_write-Spliced :
      (now : ℕ) (path : Str)
      → translate path s ≡ done inum s
      → offset ≤ n.size
      → (s' : Fs) × (n' : Inode) × (blocks' : ℕ → Block) × (fs_write now path buf len offset s
          ≡ done len s')
        × Spliced s s' inum n blocks buf len offset n' blocks'
  unfolding is_reg
  fs_write-Spliced now path at within =
      let (t, blocks', run, wrote, same) =
        write_loop-done io grown_inode (had + more) (omega (arith, f.room))
          (λ k lt. omega (arith, new_above k lt)) new_below new_distinct len
          (offset / fs_block_size) (offset % fs_block_size) 0 len buf grown blocks (omega arith)
          (omega arith) (λ some. omega arith) new_held in
      let pos : offset / fs_block_size * fs_block_size + offset % fs_block_size ≡ offset =
        omega arith in
      let n' = final_inode now in
      let s' = with_block inum (encode_inode n') t in
      let inside =
        λ (k : ℕ) (lt : k < blocks_of n'.size). count_of n'.size k lt (final_count now) in
      (
        s',
        n',
        blocks',
        fs_write-grown now path t at within (run ∙ ap (λ k. done k t) (omega arith)),
        record {
          file = record {
            fields = final-IsInode now;
            inode = Holds-with_block_self io inum (encode_inode n') t (omega (arith, f.inum_below));
            regular = f.regular;
            room = omega (arith, final_size now, f.room);
            held = λ k lt.
                Holds-with_block_ne io inum (new_ptrs k) (encode_inode n') (blocks' k) t
                  (λ e. new_apart k (inside k lt) (sym e)) (wrote.held k (inside k lt));
            inum_above = f.inum_above;
            inum_below = f.inum_below;
            above = λ k lt. new_above k (inside k lt);
            below = λ k lt. new_below k (inside k lt);
            apart = λ k lt. new_apart k (inside k lt);
            distinct = λ j k lj lk. new_distinct j k (inside j lj) (inside k lk);
            inum_taken = ap (λ m. bit_test m inum) wrote.bitmap ∙ growth.kept inum f.inum_taken;
            taken =
                λ k lt. ap (λ m. bit_test m (new_ptrs k)) wrote.bitmap ∙ new_taken k (inside k lt);
          };
          size = final_size now;
          bytes = λ p.
              content-splice blocks blocks' offset buf len p
                (λ k o lt. same k o lt ∙ ap (λ q. splice blocks q buf 0 len k o) pos);
          map_bytes = subst IsBytes (sym wrote.bitmap) growth.bytes;
          superblock = wrote.superblock ∙ growth.superblock;
          kept = λ b h. ap (λ m. bit_test m b) wrote.bitmap ∙ growth.kept b h;
          rest = λ b e other h.
              Holds-with_block_ne io inum b (encode_inode n') e t other.no_inode (
                wrote.rest b e (λ k lt. new-Foreign b other k lt) (growth.rest b e other.no_map h));
        },
      )
    where
      count_of : (size k : ℕ) → k < blocks_of size → blocks_of size ≡ had + more → k < had + more
      count_of size k lt e = omega arith
