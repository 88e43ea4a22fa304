-- ===== src/Fs/Path/Trail.antt =====
-- Paths that stay as they are while other blocks are written.
use cs5600_computer_systems.Prelude.{ℕ, List, [], ◌∷◌, Str}
use cs5600_computer_systems.Fs.Block.{Block}
use cs5600_computer_systems.Fs.Host.{Host}
use cs5600_computer_systems.Fs.Inode.{decode_inode}
use cs5600_computer_systems.Fs.Disk.{Fs}
use cs5600_computer_systems.Fs.Path.Resolves.{Holds, Child, Resolves}

module _ ⦃H : Host⦄ where
  -- The path leads from one inode to another, and the two blocks of each directory on it are kept.
  pub data Trail (s : Fs) (Keep : ℕ → Type 0) : ℕ → List Str → ℕ → Type 0 where
    here : {i : ℕ} → Trail s Keep i [] i
    down :
        {i j k : ℕ} {c : Str} {cs : List Str} (child : Child s i c j)
        → Keep i
        → Keep ((decode_inode child.inode_block).ptrs 0)
        → Trail s Keep j cs k
        → Trail s Keep i (c ∷ cs) k

  Child-kept :
      (s s' : Fs) (Keep : ℕ → Type 0) (i : ℕ) (c : Str) (j : ℕ)
      → ((b : ℕ) (e : Block) → Keep b → Holds s b e → Holds s' b e)
      → (child : Child s i c j) → Keep i
      → Keep ((decode_inode child.inode_block).ptrs 0)
      → Child s' i c j
  Child-kept s s' Keep i c j same child inode entries = record {
    inode_block = child.inode_block;
    entries = child.entries;
    slot = child.slot;
    inode = same i child.inode_block inode child.inode;
    directory = child.directory;
    listing = same ((decode_inode child.inode_block).ptrs 0) child.entries entries child.listing;
    found = child.found;
    names = child.names;
  }

  -- In a state where the kept blocks are the same, the path leads to the same inode.
  pub Trail-Resolves :
      (s s' : Fs) (Keep : ℕ → Type 0)
      → ((b : ℕ) (e : Block) → Keep b → Holds s b e → Holds s' b e)
      → {i j : ℕ} {cs : List Str} → Trail s Keep i cs j
      → Resolves s' i cs j
  Trail-Resolves s s' Keep same here = Resolves.here
  Trail-Resolves s s' Keep same (down child inode entries rest) =
      Resolves.down (Child-kept s s' Keep _ _ _ same child inode entries)
        (Trail-Resolves s s' Keep same rest)

  -- The path does so now.
  pub Trail-now :
      (s : Fs) (Keep : ℕ → Type 0) {i j : ℕ} {cs : List Str}
      → Trail s Keep i cs j
      → Resolves s i cs j
  Trail-now s Keep trail = Trail-Resolves s s Keep (λ b e k h. h) trail
