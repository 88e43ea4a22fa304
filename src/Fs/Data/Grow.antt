-- ===== src/Fs/Data/Grow.antt =====
-- The blocks that `fs_write` allocates, and the block numbers that it puts into the inode.
use cs5600_computer_systems.Prelude.{
  clash, ℕ, zero, suc, ◌+◌, ◌≤◌, ◌<◌, ◌≡◌, ◌≢◌, refl, true, false, ◌&&◌, some, arith, ltb, leb,
  lt→ltb, ◌==◌, if◌then◌else◌, Bool-cases, inl, inr, ==_iff, ap, ◌∙◌, sym, subst, fun_ext,
}
use cs5600_computer_systems.Fs.Block.{Block}
use cs5600_computer_systems.Fs.Host.{Host}
use cs5600_computer_systems.Fs.Inode.{Inode, ptr_count}
use cs5600_computer_systems.Fs.Dirent.Slots.{IsBytes}
use cs5600_computer_systems.Fs.Disk.{Fs, disk_size}
use cs5600_computer_systems.Fs.Bitmap.{bit_set, bit_test, first_free, bitmap_bits}
use cs5600_computer_systems.Fs.Bitmap.Bits.{
  bit_set-IsBytes, bit_set-keeps, bit_set-sets, bit_set-was_clear,
}
use cs5600_computer_systems.Fs.Bitmap.Blocks.{first_free-bounds}
use cs5600_computer_systems.Fs.Path.Resolves.{Holds}
use cs5600_computer_systems.Fs.Writes.{IsReliable, with_map, allocate_block-done, Holds-with_map_ne}
use cs5600_computer_systems.Fs.Data.{grow}
use cs5600_computer_systems.Fs.Action.{done}

-- `alloc i`, ..., `alloc (i + k - 1)` are the blocks that as many calls of `allocate_block` give out,
-- from the bitmap `m` of a disk of `size` blocks on.
abbrev pub Free : (ℕ → ℕ) → (size k i : ℕ) → Block → Type 0
Free alloc size zero i m = Unit
Free alloc size (suc k) i m =
    (first_free m size ≡ some (alloc i)) × Free alloc size k (i + 1) (bit_set m (alloc i))

-- The array of block numbers with `alloc j` at each `j` from `i` up to `i + k`.
abbrev pub grown_ptrs : (ℕ → ℕ) → (k i : ℕ) → (ℕ → ℕ) → ℕ → ℕ
grown_ptrs alloc k i ptrs j = if leb i j && ltb j (i + k) then alloc j else ptrs j

grown_ptrs-step :
    (alloc : ℕ → ℕ) (k i : ℕ) (ptrs : ℕ → ℕ) (j : ℕ)
    → grown_ptrs alloc k (i + 1) (λ l. if l == i then alloc i else ptrs l) j
      ≡ grown_ptrs alloc (suc k) i ptrs j
grown_ptrs-step alloc k i ptrs j = ground arith

grown_ptrs-none :
    (alloc : ℕ → ℕ) (i : ℕ) (ptrs : ℕ → ℕ) (j : ℕ) → ptrs j ≡ grown_ptrs alloc 0 i ptrs j
grown_ptrs-none alloc i ptrs j = ground arith

-- What holds at `i` and behind it holds from `i` on.
from_first : (P : ℕ → Type 0) (i j : ℕ) → P i → (i + 1 ≤ j → P j) → i ≤ j → P j
from_first P i j first later le = elim (Bool-cases (i == j)) [
  | inl same ↦ subst P ((==_iff i j).0 same) first
  | inr other ↦ later (ground arith)
]

module _ ⦃H : Host⦄ where
  -- The state after the allocations.
  abbrev pub grown_state : (ℕ → ℕ) → (k i : ℕ) → Fs → Fs
  grown_state alloc zero i s = s
  grown_state alloc (suc k) i s =
      grown_state alloc k (i + 1) (with_map (bit_set s.bitmap (alloc i)) s)

  pub grow-done :
      (io : IsReliable) (alloc : ℕ → ℕ) (k i : ℕ) (n : Inode) (s : Fs)
      → i + k ≤ ptr_count
      → Free alloc (disk_size s.superblock) k i s.bitmap
      → grow k i n s
        ≡ done (record n { ptrs = grown_ptrs alloc k i n.ptrs }) (grown_state alloc k i s)
  unfolding grow
  grow-done io alloc zero i n s room free =
      ap (λ p. done (record n { ptrs = p }) s) (fun_ext (grown_ptrs-none alloc i n.ptrs))
  grow-done io alloc (suc k) i n s room free =
      rw (allocate_block-done io s (alloc i) free.0, lt→ltb i ptr_count (omega arith))
        (grow-done io alloc k (i + 1)
            (record n { ptrs = λ j. if j == i then alloc i else n.ptrs j })
            (with_map (bit_set s.bitmap (alloc i)) s) (omega arith) free.1
          ∙ ap
              (λ p.
                done (record n { ptrs = p })
                  (grown_state alloc k (i + 1) (with_map (bit_set s.bitmap (alloc i)) s)))
              (fun_ext (grown_ptrs-step alloc k i n.ptrs)))

  -- What the allocations leave behind: the blocks given out were free, are taken, lie within the
  -- bitmap and are distinct; a block that was taken still is; all blocks but the bitmap's are as they were.
  pub record Grown (alloc : ℕ → ℕ) (k i : ℕ) (s s' : Fs) : Type 0 where
    pub superblock : s'.superblock ≡ s.superblock
    pub bytes : IsBytes s'.bitmap
    pub was_free : (j : ℕ) → i ≤ j → j < i + k → bit_test s.bitmap (alloc j) ≡ false
    pub taken : (j : ℕ) → i ≤ j → j < i + k → bit_test s'.bitmap (alloc j) ≡ true
    pub kept : (b : ℕ) → bit_test s.bitmap b ≡ true → bit_test s'.bitmap b ≡ true
    pub above : (j : ℕ) → i ≤ j → j < i + k → 1 < alloc j
    pub below : (j : ℕ) → i ≤ j → j < i + k → alloc j < bitmap_bits
    pub distinct : (j l : ℕ) → i ≤ j → j < i + k → i ≤ l → l < i + k → alloc j ≡ alloc l → j ≡ l
    pub rest : (b : ℕ) (e : Block) → 1 ≢ b → Holds s b e → Holds s' b e

  pub grown_state-Grown :
      (io : IsReliable) (alloc : ℕ → ℕ) (k i : ℕ) (s : Fs)
      → IsBytes s.bitmap
      → Free alloc (disk_size s.superblock) k i s.bitmap
      → Grown alloc k i s (grown_state alloc k i s)
  grown_state-Grown io alloc zero i s bytes free = record {
    superblock = refl;
    bytes = bytes;
    was_free = λ j lo hi. absurd (omega arith);
    taken = λ j lo hi. absurd (omega arith);
    kept = λ b h. h;
    above = λ j lo hi. absurd (omega arith);
    below = λ j lo hi. absurd (omega arith);
    distinct = λ j l lo hi lo' hi' e. absurd (omega arith);
    rest = λ b e ne h. h;
  }
  grown_state-Grown io alloc (suc k) i s bytes free =
      let (lo_i, size_i, map_i, free_i) = first_free-bounds s (alloc i) free.0 in
      let g =
        grown_state-Grown io alloc k (i + 1) (with_map (bit_set s.bitmap (alloc i)) s)
          (bit_set-IsBytes s.bitmap (alloc i) bytes) free.1 in
      let other = λ (j : ℕ) (lo : i + 1 ≤ j) (hi : j < i + suc k) (e : alloc i ≡ alloc j).
        clash
          (subst (λ b. bit_test (bit_set s.bitmap (alloc i)) b ≡ true) e
            (bit_set-sets s.bitmap (alloc i) bytes))
          (g.was_free j lo (omega arith)) in
      record {
        superblock = g.superblock;
        bytes = g.bytes;
        was_free = λ j lo hi.
            from_first (λ l. bit_test s.bitmap (alloc l) ≡ false) i j free_i
              (λ more.
                bit_set-was_clear s.bitmap (alloc i) (alloc j) bytes
                  (g.was_free j more (omega arith)))
              lo;
        taken = λ j lo hi.
            from_first (λ l. bit_test (grown_state alloc (suc k) i s).bitmap (alloc l) ≡ true) i j
              (g.kept (alloc i) (bit_set-sets s.bitmap (alloc i) bytes))
              (λ more. g.taken j more (omega arith)) lo;
        kept = λ b h. g.kept b (bit_set-keeps s.bitmap (alloc i) b bytes h);
        above = λ j lo hi.
            from_first (λ l. 1 < alloc l) i j lo_i (λ more. g.above j more (omega arith)) lo;
        below = λ j lo hi.
            from_first (λ l. alloc l < bitmap_bits) i j map_i (λ more. g.below j more (omega arith))
              lo;
        distinct = λ j l lo hi lo' hi'.
            from_first (λ a. alloc a ≡ alloc l → a ≡ l) i j
              (from_first (λ c. alloc i ≡ alloc c → i ≡ c) i l (λ e. refl)
                (λ more e. absurd (other l more hi' e)) lo')
              (λ more.
                from_first (λ c. alloc j ≡ alloc c → j ≡ c) i l
                  (λ e. absurd (other j more hi (sym e)))
                  (λ more' e. g.distinct j l more (omega arith) more' (omega arith) e) lo')
              lo;
        rest = λ b e ne h.
            g.rest b e ne (Holds-with_map_ne io b (bit_set s.bitmap (alloc i)) e s ne h);
      }
