-- ===== src/Fs/Data/WriteLoop.antt =====
-- The loop of `fs_write` that writes the bytes out.
use cs5600_computer_systems.Prelude.{
  ℕ, zero, suc, ◌+◌, ◌-◌, ◌*◌, ◌≤◌, ◌<◌, ◌≡◌, ◌≢◌, refl, false, ◌&&◌, arith, ltb, leb, lt→ltb, ◌==◌,
  if◌then◌else◌, Bool-cases, inl, inr, ==_iff, ap, ◌∙◌, sym, subst,
}
use Prim.Native.Nat.{min}
use cs5600_computer_systems.Fs.Block.{Block, fs_block_size, copy_into}
use cs5600_computer_systems.Fs.Host.{Host}
use cs5600_computer_systems.Fs.Inode.{Inode, ptr_count}
use cs5600_computer_systems.Fs.Disk.{Fs}
use cs5600_computer_systems.Fs.Path.Resolves.{Holds, block_read-Holds}
use cs5600_computer_systems.Fs.Writes.{
  IsReliable, with_block, block_write-done, Holds-with_block_self, Holds-with_block_ne,
}
use cs5600_computer_systems.Fs.Data.{write_loop}
use cs5600_computer_systems.Fs.Action.{done}

-- The blocks of a file with `len` bytes of `buf`, from `put` on, in place of those from position `pos`.
abbrev pub splice : (ℕ → Block) → (pos : ℕ) → Block → (put len : ℕ) → ℕ → Block
splice blocks pos buf put len k o =
    if leb pos (k * fs_block_size + o) && ltb (k * fs_block_size + o) (pos + len)
    then buf (put + (k * fs_block_size + o - pos))
    else blocks k o

-- Block `start` with one round's bytes in it.
abbrev pub round_blocks : (ℕ → Block) → (start from : ℕ) → Block → (put c : ℕ) → ℕ → Block
round_blocks blocks start from buf put c k =
    if k == start then copy_into (blocks start) from buf put c else blocks k

splice_none :
    (blocks : ℕ → Block) (pos : ℕ) (buf : Block) (put k o : ℕ)
    → blocks k o ≡ splice blocks pos buf put 0 k o
splice_none blocks pos buf put k o = ground arith

splice_here :
    (blocks : ℕ → Block) (start from next : ℕ) (buf : Block) (put c len o : ℕ)
    → o < fs_block_size
    → from < fs_block_size
    → next ≡ start * fs_block_size + fs_block_size
    → c ≡ min (fs_block_size - from) len
    → splice (λ k. copy_into (blocks start) from buf put c) next buf (put + c) (len - c) start o
      ≡ splice blocks (start * fs_block_size + from) buf put len start o
unfolding copy_into
splice_here blocks start from next buf put c len o lt lf e ec = ground arith

splice_there :
    (blocks : ℕ → Block) (start from next : ℕ) (buf : Block) (put c len k o : ℕ)
    → o < fs_block_size
    → from < fs_block_size
    → k ≢ start
    → next ≡ start * fs_block_size + fs_block_size
    → c ≡ min (fs_block_size - from) len
    → splice blocks next buf (put + c) (len - c) k o
      ≡ splice blocks (start * fs_block_size + from) buf put len k o
splice_there blocks start from next buf put c len k o lt lf ne e ec = ground arith

-- One round and the rest of the loop write what one write of the whole range does.
splice_step :
    (blocks : ℕ → Block) (start from next : ℕ) (buf : Block) (put c len k o : ℕ)
    → o < fs_block_size
    → from < fs_block_size
    → next ≡ start * fs_block_size + fs_block_size
    → c ≡ min (fs_block_size - from) len
    → splice (round_blocks blocks start from buf put c) next buf (put + c) (len - c) k o
      ≡ splice blocks (start * fs_block_size + from) buf put len k o
splice_step blocks start from next buf put c len k o lt lf e ec = elim (Bool-cases (k == start)) [
  | inl same ↦ rw same (
      subst
        (λ j.
          splice (λ l. copy_into (blocks start) from buf put c) next buf (put + c) (len - c) j o
          ≡ splice blocks (start * fs_block_size + from) buf put len j o)
        (sym ((==_iff k start).0 same))
        (splice_here blocks start from next buf put c len o lt lf e ec))
  | inr other ↦
      rw other (splice_there blocks start from next buf put c len k o lt lf (ground arith) e ec)
]

module _ ⦃H : Host⦄ (io : IsReliable) (n : Inode) (count : ℕ) (room : count ≤ ptr_count)
    (above : (k : ℕ) → k < count → 0 < n.ptrs k) (below : (k : ℕ) → k < count → n.ptrs k < 524287)
    (distinct : (j k : ℕ) → j < count → k < count → n.ptrs j ≡ n.ptrs k → j ≡ k) where
  -- What the loop leaves behind: the blocks of the file hold `blocks`, all others are as they were.
  pub record LoopWrote (s s' : Fs) (blocks : ℕ → Block) : Type 0 where
    pub superblock : s'.superblock ≡ s.superblock
    pub bitmap : s'.bitmap ≡ s.bitmap
    pub held : (k : ℕ) → k < count → Holds s' (n.ptrs k) (blocks k)
    pub rest :
        (b : ℕ) (e : Block) → ((k : ℕ) → k < count → n.ptrs k ≢ b) → Holds s b e → Holds s' b e

  round_held :
      (s : Fs) (blocks : ℕ → Block) (start from : ℕ) (buf : Block) (put c : ℕ)
      → start < count
      → ((k : ℕ) → k < count → Holds s (n.ptrs k) (blocks k))
      → (k : ℕ) → k < count
      → Holds
          (with_block (n.ptrs start) (copy_into (blocks start) from buf put c) s)
          (n.ptrs k)
          (round_blocks blocks start from buf put c k)
  round_held s blocks start from buf put c lt held k lk = elim (Bool-cases (k == start)) [
    | inl same ↦ rw same (
        subst
          (λ j.
            Holds (with_block (n.ptrs start) (copy_into (blocks start) from buf put c) s) (n.ptrs j)
              (copy_into (blocks start) from buf put c))
          (sym ((==_iff k start).0 same))
          (Holds-with_block_self io (n.ptrs start) (copy_into (blocks start) from buf put c) s
            (omega (arith, below start lt))))
    | inr other ↦ rw other (
        Holds-with_block_ne io (n.ptrs start) (n.ptrs k) (copy_into (blocks start) from buf put c)
          (blocks k) s (λ e. ne other (distinct start k lt lk e)) (held k lk))
  ]
    where
      ne : (k == start) ≡ false → start ≡ k → ⊥
      ne other e = ground arith

  -- With fuel for the bytes that are left, the loop writes them all.
  pub write_loop-done :
      (fuel start from put len : ℕ) (buf : Block) (s : Fs) (blocks : ℕ → Block)
      → len ≤ fuel
      → from < fs_block_size
      → (0 < len → start * fs_block_size + from + len ≤ count * fs_block_size)
      → ((k : ℕ) → k < count → Holds s (n.ptrs k) (blocks k))
      → (s' : Fs) × (blocks' : ℕ → Block) × (write_loop fuel n buf start from put len s
          ≡ done (put + len) s')
        × LoopWrote s s' blocks'
        × ((k o : ℕ)
            → o < fs_block_size
            → blocks' k o ≡ splice blocks (start * fs_block_size + from) buf put len k o)
  unfolding write_loop
  write_loop-done fuel start from put zero buf s blocks enough lt fits held = (
    s,
    blocks,
    ap (λ k. done k s) (omega arith),
    record { superblock = refl; bitmap = refl; held = held; rest = λ b e ne h. h },
    λ k o small. splice_none blocks (start * fs_block_size + from) buf put k o,
  )
  write_loop-done zero start from put (suc l) buf s blocks enough lt fits held =
      absurd (omega arith)
  write_loop-done (suc fuel) start from put (suc l) buf s blocks enough lt fits held =
      let c : ℕ = min (fs_block_size - from) (suc l) in
      let inside : start < count = omega (arith, fits (omega arith)) in
      let b : Block = copy_into (blocks start) from buf put c in
      let (s', blocks', run, wrote, bytes) =
        write_loop-done fuel (start + 1) 0 (put + c) (suc l - c) buf (with_block (n.ptrs start) b s)
          (round_blocks blocks start from buf put c) (omega arith) (omega arith)
          (λ more. omega (arith, fits (omega arith)))
          (round_held s blocks start from buf put c inside held) in
      (
        s',
        blocks',
        rw
            (
              lt→ltb start ptr_count (omega (arith, room)),
              block_read-Holds s (n.ptrs start) (held start inside),
              block_write-done io b (n.ptrs start) s (above start inside) (below start inside),
            )
            (run ∙ ap (λ k. done k s') (omega arith)),
        record {
          superblock = wrote.superblock;
          bitmap = wrote.bitmap;
          held = wrote.held;
          rest = λ j e ne h.
              wrote.rest j e ne (Holds-with_block_ne io (n.ptrs start) j b e s (ne start inside) h);
        },
        λ k o small.
            bytes k o small
            ∙ splice_step blocks start from ((start + 1) * fs_block_size + 0) buf put c (suc l) k o
                small lt (omega arith) refl,
      )
