-- ===== src/Fs/Dirent/Matches.antt =====
-- Which texts the entries of a block answer to after the writes to it, and what clearing an entry keeps.
use cs5600_computer_systems.Prelude.{
  ℕ, ◌+◌, ◌-◌, ◌*◌, ◌/◌, ◌≤◌, ◌<◌, ◌≡◌, ◌≢◌, false, arith, Str, length, ◌==◌, if◌then◌else◌,
  Bool-cases, inl, inr, ◌⊎◌, ==_iff, str_eq, ◌&&◌, ap, ◌∙◌, sym,
}
use cs5600_computer_systems.Fs.Block.{Block, load32, store32, load32-store32_self}
use cs5600_computer_systems.Fs.Dirent.{
  matches, valid, inode_num, name, put_name, put_entry, clear_valid, max_name_len,
}
use cs5600_computer_systems.Fs.Dirent.Slots.{
  IsBytes, IsDirBlock, IsText, c_string-same, load32-lt, load32-store32_ne, name-put_entry_ne,
  name-put_entry_self, name-put_name_ne, name-put_name_self, valid-put_entry, valid-put_name,
}

load32-clear_valid_self :
    (d : Block) (i : ℕ)
    → load32 d (32 * i) < 4294967296
    → load32 (clear_valid d i) (32 * i) ≡ load32 d (32 * i) / 2 * 2
unfolding clear_valid
load32-clear_valid_self d i fits =
    load32-store32_self d (32 * i) (load32 d (32 * i) / 2 * 2) (omega arith)

pub valid-clear_valid :
    (d : Block) (i j : ℕ)
    → IsBytes d
    → valid (clear_valid d i) j ≡ (if i == j then false else valid d j)
unfolding valid
valid-clear_valid d i j bytes = elim (Bool-cases (i == j)) [
  | inl same ↦
      let e : i ≡ j = (==_iff i j).0 same in
      rw (same, ← e, load32-clear_valid_self d i (load32-lt d (32 * i) bytes)) (ground arith)
  | inr other ↦
      unfold clear_valid in
      rw (other, load32-store32_ne d i j (load32 d (32 * i) / 2 * 2) (ground arith))
]

clear_valid-outside :
    (d : Block) (i p : ℕ) → (p < 32 * i) ⊎ (32 * i + 4 ≤ p) → clear_valid d i p ≡ d p
unfolding clear_valid store32
clear_valid-outside d i p h = ground arith

pub name-clear_valid :
    (d : Block) (i j : ℕ) → IsDirBlock d → j < 128 → i ≢ j → name (clear_valid d i) j ≡ name d j
unfolding name
name-clear_valid d i j dir lt ne = sym (
    c_string-same (4092 - 32 * j) 27 d (clear_valid d i) (32 * j + 4)
      (ap d (omega arith) ∙ dir j lt) (omega arith)
      (λ p lo hi. sym (clear_valid-outside d i p (omega arith))))

-- Which texts entry `j` answers to, once entry `i` was filled.
pub matches-put_entry :
    (d : Block) (i j inum : ℕ) (s t : Str)
    → IsDirBlock d
    → i < 128
    → j < 128
    → IsText s
    → length s ≤ max_name_len
    → matches (put_entry d i inum s) t j ≡ (if i == j then str_eq s t else matches d t j)
unfolding matches
matches-put_entry d i j inum s t dir li lj text fits = elim (Bool-cases (i == j)) [
  | inl same ↦
      let e : i ≡ j = (==_iff i j).0 same in
      rw (valid-put_entry, same, ← e, name-put_entry_self d i inum s li text fits)
  | inr other ↦ rw (valid-put_entry, other, name-put_entry_ne d i j inum s dir lj (ground arith))
]

-- Which texts entry `j` answers to, once entry `i` was freed.
pub matches-clear_valid :
    (d : Block) (i j : ℕ) (t : Str)
    → IsDirBlock d
    → IsBytes d
    → j < 128
    → matches (clear_valid d i) t j ≡ (if i == j then false else matches d t j)
unfolding matches
matches-clear_valid d i j t dir bytes lj = elim (Bool-cases (i == j)) [
  | inl same ↦ rw (valid-clear_valid d i j bytes, same)
  | inr other ↦
      rw (valid-clear_valid d i j bytes, other, name-clear_valid d i j dir lj (ground arith))
]

pub inode_num-clear_valid :
    (d : Block) (i j : ℕ) → i ≢ j → inode_num (clear_valid d i) j ≡ inode_num d j
unfolding inode_num clear_valid
inode_num-clear_valid d i j ne = rw (load32-store32_ne d i j (load32 d (32 * i) / 2 * 2) ne)

-- Which texts entry `j` answers to, once entry `i` was given another name.
pub matches-put_name :
    (d : Block) (i j : ℕ) (s t : Str)
    → IsDirBlock d
    → i < 128
    → j < 128
    → IsText s
    → length s ≤ max_name_len
    → matches (put_name d i s) t j ≡ (if i == j then valid d i && str_eq s t else matches d t j)
unfolding matches
matches-put_name d i j s t dir li lj text fits = elim (Bool-cases (i == j)) [
  | inl same ↦
      let e : i ≡ j = (==_iff i j).0 same in
      rw (valid-put_name, same, ← e, name-put_name_self d i s li text fits)
  | inr other ↦ rw (valid-put_name, other, name-put_name_ne d i j s dir lj (ground arith))
]
