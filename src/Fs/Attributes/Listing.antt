-- ===== src/Fs/Attributes/Listing.antt =====
-- What `fs_readdir` hands to its filler.
use cs5600_computer_systems.Prelude.{
  ℕ, zero, suc, ◌+◌, ◌≤◌, ◌<◌, ◌≡◌, refl, Bool, true, false, List, [], ◌∷◌, if◌then◌else◌,
  Bool-cases, inl, inr, arith, Str,
}
use cs5600_computer_systems.Fs.Block.{Block}
use cs5600_computer_systems.Fs.Host.{Host}
use cs5600_computer_systems.Fs.Inode.{is_dir, decode_inode}
use cs5600_computer_systems.Fs.Dirent.{valid, inode_num, name}
use cs5600_computer_systems.Fs.Disk.{Fs}
use cs5600_computer_systems.Fs.Path.{translate}
use cs5600_computer_systems.Fs.Path.Resolves.{Holds, read_inode-Holds, block_read-Holds}
use cs5600_computer_systems.Fs.Attributes.{
  Stat, Filler, fill_from, after_filler, fs_readdir, inode_to_stat,
}
use cs5600_computer_systems.Fs.Action.{Action, done}

-- The entries in use among the `n` from entry `i` on: their names, and the attributes of the inodes in the
-- blocks `inodes`.
abbrev pub listing : Block → (ℕ → Block) → (n i : ℕ) → List (Str × Stat)
listing d inodes zero i = []
listing d inodes (suc n) i =
    let rest = listing d inodes n (i + 1) in
    if valid d i then (name d i, inode_to_stat (decode_inode (inodes i))) ∷ rest else rest

-- The buffer after the filler has taken entries one by one, up to the first that it refuses.
abbrev pub filled : {B : Type 0} → Filler B → B → List (Str × Stat) → B
filled filler buf [] = buf
filled filler buf ((t, st) ∷ l) = elim (filler buf t st).1 [
  | true ↦ filled filler (filler buf t st).0 l
  | false ↦ (filler buf t st).0
]

module _ ⦃H : Host⦄ {B : Type 0} (filler : Filler B) where
  after_filler-filled :
      (rest : B → Action Fs B) (p : B × Bool) (l : List (Str × Stat)) (s : Fs)
      → ((b : B) → rest b s ≡ done (filled filler b l) s)
      → after_filler filler rest p s
        ≡ done (elim p.1 as (λ _. B) [ true ↦ filled filler p.0 l | false ↦ p.0 ]) s
  after_filler-filled rest (buf, true) l s h = h buf
  after_filler-filled rest (buf, false) l s h = refl

  fill_from-listing :
      (d : Block) (inodes : ℕ → Block) (n i : ℕ) (buf : B) (s : Fs)
      → ((k : ℕ) → i ≤ k → k < i + n → valid d k ≡ true → Holds s (inode_num d k) (inodes k))
      → fill_from filler d n i buf s ≡ done (filled filler buf (listing d inodes n i)) s
  unfolding fill_from
  fill_from-listing d inodes zero i buf s held = refl
  fill_from-listing d inodes (suc n) i buf s held = elim (Bool-cases (valid d i)) [
    | inl used ↦
        rw
          (
            used,
            fill_from,
            read_inode-Holds s (inode_num d i) (held i (omega arith) (omega arith) used),
          )
          (after_filler-filled (fill_from filler d n (i + 1)) _ (listing d inodes n (i + 1)) s (λ b.
            fill_from-listing d inodes n (i + 1) b s
              (λ k lo hi. held k (omega arith) (omega arith))))
    | inr unused ↦
        rw (unused, fill_from)
          (fill_from-listing d inodes n (i + 1) buf s
            (λ k lo hi. held k (omega arith) (omega arith)))
  ]

  -- For a path that `translate` takes to a directory whose block of entries can be read, as can
  -- the inodes of all entries in use: `fs_readdir` hands the filler the names and the attributes
  -- of the entries in use, in their order, up to the first that the filler refuses, and leaves
  -- the state unchanged.
  pub fs_readdir-listing :
      (s : Fs) (path : Str) (inum : ℕ) (inode_block d : Block) (inodes : ℕ → Block) (buf : B)
      → translate path s ≡ done inum s
      → Holds s inum inode_block
      → is_dir (decode_inode inode_block) ≡ true
      → Holds s ((decode_inode inode_block).ptrs 0) d
      → ((k : ℕ) → k < 128 → valid d k ≡ true → Holds s (inode_num d k) (inodes k))
      → fs_readdir filler path buf s ≡ done (filled filler buf (listing d inodes 128 0)) s
  unfolding fs_readdir
  fs_readdir-listing s path inum inode_block d inodes buf at inode kind entries held =
      rw (at, read_inode-Holds s inum inode, kind, block_read-Holds s _ entries)
        (fill_from-listing d inodes 128 0 buf s (λ k lo hi. held k (omega arith)))
