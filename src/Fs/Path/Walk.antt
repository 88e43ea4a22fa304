-- ===== src/Fs/Path/Walk.antt =====
-- What `translate` and `lookup_parent` find, and that they leave the state alone.
use cs5600_computer_systems.Prelude.{
  ℕ, ◌*◌, refl, Bool, true, false, Option, none, some, List, [], ◌∷◌, ltb, if◌then◌else◌,
  Bool-cases, inl, inr, Str, str_eq, take,
}
use cs5600_computer_systems.Fs.Block.{Block, fs_block_size}
use cs5600_computer_systems.Fs.Host.{Host}
use cs5600_computer_systems.Fs.Inode.{is_dir}
use cs5600_computer_systems.Fs.Dirent.{find_entry, max_name_len}
use cs5600_computer_systems.Fs.Disk.{Fs, block_read, read_inode}
use cs5600_computer_systems.Fs.Action.{
  Outcome, done, failed, pure, require, or_fail, crash, enomem, enoent, eio, enotdir,
}
use cs5600_computer_systems.Fs.Action.Leaves.{
  Leaves, and_then-Leaves, require-Leaves, or_fail-Leaves,
}
use cs5600_computer_systems.Fs.Path.{
  enter, basename, dirname, components, root_inum, walk, translate, split_parent, lookup_parent,
  root_path, is_empty, trim_slash,
}

module _ ⦃H : Host⦄ where
  read-Leaves :
      (s : Fs) (o : Option Block)
      → Leaves s (elim o as (λ _. Outcome Fs Block) [ none ↦ failed eio s | some b ↦ done b s ])
  read-Leaves s none = refl
  read-Leaves s (some b) = refl

  pub block_read-Leaves : (lba : ℕ) (s : Fs) → Leaves s (block_read lba s)
  unfolding block_read
  block_read-Leaves lba s = elim (Bool-cases (ltb lba 524288)) [
    | inl small ↦ rw small (read-Leaves s (H.pread (lba * fs_block_size) s.image))
    | inr large ↦ rw large (elim (Bool-cases (ltb lba 4294443008)) [
      | inl overflow ↦ rw overflow tt
      | inr negative ↦ rw negative refl
    ])
  ]

  pub read_inode-Leaves : (inum : ℕ) (s : Fs) → Leaves s (read_inode inum s)
  unfolding read_inode
  read_inode-Leaves inum s =
      and_then-Leaves s (block_read inum s) _ (block_read-Leaves inum s) (λ b. refl)

  pub enter-Leaves : (cur : ℕ) (c : Str) (s : Fs) → Leaves s (enter cur c s)
  unfolding enter
  enter-Leaves cur c s = and_then-Leaves s (read_inode cur s) _ (read_inode-Leaves cur s) λ n.
      and_then-Leaves s (require (is_dir n) enotdir s) _ (require-Leaves s (is_dir n) enotdir) λ _.
        and_then-Leaves s (block_read (n.ptrs 0) s) _ (block_read-Leaves (n.ptrs 0) s) λ d.
          and_then-Leaves s (or_fail enoent (find_entry d c) s) _
            (or_fail-Leaves s enoent (find_entry d c)) λ i. refl

  pub walk-Leaves : (cs : List Str) (cur : ℕ) (s : Fs) → Leaves s (walk cur cs s)
  unfolding walk
  walk-Leaves [] cur s = refl
  walk-Leaves (c ∷ cs) cur s =
      and_then-Leaves s (enter cur c s) _ (enter-Leaves cur c s) λ next. walk-Leaves cs next s

  pub translate-Leaves : (path : Str) (s : Fs) → Leaves s (translate path s)
  unfolding translate
  translate-Leaves path s = elim (Bool-cases (str_eq path root_path)) [
    | inl root ↦ rw root refl
    | inr other ↦ rw other (
        and_then-Leaves s (require (H.can_dup path) enomem s) _
          (require-Leaves s (H.can_dup path) enomem) λ _. walk-Leaves (components path) root_inum s)
  ]

  leaf-Leaves : (s : Fs) (b : Bool) (p : ℕ × Str) → Leaves s ((if b then pure p else crash) s)
  leaf-Leaves s true p = refl
  leaf-Leaves s false p = tt

  split_parent-Leaves : (dup : Str) (s : Fs) → Leaves s (split_parent dup s)
  unfolding split_parent
  split_parent-Leaves dup s =
      and_then-Leaves s (require (H.can_dup dup) enomem s) _
        (require-Leaves s (H.can_dup dup) enomem)
        λ _.
          and_then-Leaves s (translate (dirname dup) s) _ (translate-Leaves (dirname dup) s)
            λ parent.
              leaf-Leaves s (H.can_dup (take max_name_len (basename dup)))
                (parent, take max_name_len (basename dup))

  -- However `lookup_parent` returns, with the parent and the leaf or with an error, the state is
  -- unchanged.
  pub lookup_parent-Leaves : (path : Str) (s : Fs) → Leaves s (lookup_parent path s)
  unfolding lookup_parent
  lookup_parent-Leaves path s = elim (Bool-cases (str_eq path root_path)) [
    | inl root ↦ rw root refl
    | inr other ↦ rw other (
        and_then-Leaves s (require (H.can_dup path) enomem s) _
          (require-Leaves s (H.can_dup path) enomem)
          λ _. elim (Bool-cases (is_empty path)) [
            | inl empty ↦ rw empty tt
            | inr text ↦ rw text (split_parent-Leaves (trim_slash path) s)
          ])
  ]
