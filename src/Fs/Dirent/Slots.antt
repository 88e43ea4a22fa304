-- ===== src/Fs/Dirent/Slots.antt =====
-- What an entry holds after the writes to a directory block.
use cs5600_computer_systems.Prelude.{
  ℕ, zero, suc, ◌+◌, ◌-◌, ◌*◌, ◌%◌, ◌≤◌, ◌<◌, ◌≡◌, ◌≢◌, refl, true, [], ◌∷◌, arith, Str, length,
  ◌==◌, if◌then◌else◌, get_or, Bool-cases, inl, inr, ◌⊎◌, ==_iff, ap, ◌∙◌, sym,
}
use cs5600_computer_systems.Fs.Block.{Block, load32, store32, load32-store32_self}
use cs5600_computer_systems.Fs.Dirent.{
  valid, inode_num, c_string, name, put_name, put_entry, clear_valid, max_name_len,
}

-- The name's bytes lie behind the first word of the entry.
load32-put_name :
    (d : Block) (i j : ℕ) (s : Str) → load32 (put_name d i s) (32 * j) ≡ load32 d (32 * j)
unfolding load32 put_name
load32-put_name d i j s = ground arith

load32-put_entry_self :
    (d : Block) (i inum : ℕ) (s : Str)
    → load32 (put_entry d i inum s) (32 * i) ≡ 1 + 2 * (inum % 2147483648)
unfolding put_entry
load32-put_entry_self d i inum s =
    load32-put_name (store32 d (32 * i) (1 + 2 * (inum % 2147483648))) i i s
    ∙ load32-store32_self d (32 * i) (1 + 2 * (inum % 2147483648)) (omega arith)

pub load32-store32_ne :
    (d : Block) (i j v : ℕ) → i ≢ j → load32 (store32 d (32 * i) v) (32 * j) ≡ load32 d (32 * j)
unfolding load32 store32
load32-store32_ne d i j v ne = ground arith

load32-put_entry_ne :
    (d : Block) (i j inum : ℕ) (s : Str)
    → i ≢ j
    → load32 (put_entry d i inum s) (32 * j) ≡ load32 d (32 * j)
unfolding put_entry
load32-put_entry_ne d i j inum s ne =
    load32-put_name (store32 d (32 * i) (1 + 2 * (inum % 2147483648))) i j s
    ∙ load32-store32_ne d i j (1 + 2 * (inum % 2147483648)) ne

pub valid-put_entry :
    (d : Block) (i j inum : ℕ) (s : Str)
    → valid (put_entry d i inum s) j ≡ (if i == j then true else valid d j)
unfolding valid
valid-put_entry d i j inum s = elim (Bool-cases (i == j)) [
  | inl same ↦
      let e : i ≡ j = (==_iff i j).0 same in rw (same, ← e, load32-put_entry_self) (ground arith)
  | inr other ↦ rw (other, load32-put_entry_ne d i j inum s (ground arith))
]

pub inode_num-put_entry :
    (d : Block) (i j inum : ℕ) (s : Str)
    → inum < 2147483648
    → inode_num (put_entry d i inum s) j ≡ (if i == j then inum else inode_num d j)
unfolding inode_num
inode_num-put_entry d i j inum s small = elim (Bool-cases (i == j)) [
  | inl same ↦
      let e : i ≡ j = (==_iff i j).0 same in rw (same, ← e, load32-put_entry_self) (omega arith)
  | inr other ↦ rw (other, load32-put_entry_ne d i j inum s (ground arith))
]

-- A C string is settled by the bytes up to its first NUL.
pub c_string-same :
    (n t : ℕ) (b c : Block) (o : ℕ)
    → b (o + t) ≡ 0
    → t < n
    → ((p : ℕ) → o ≤ p → p ≤ o + t → b p ≡ c p)
    → c_string n b o ≡ c_string n c o
unfolding c_string
c_string-same zero t b c o stop lt same = absurd (omega arith)
c_string-same (suc n) zero b c o stop lt same =
    let here : b o ≡ 0 = ap b (omega arith) ∙ stop in
    let there : c o ≡ 0 = sym (same o (omega arith) (omega arith)) ∙ here in rw (here, there)
c_string-same (suc n) (suc t) b c o stop lt same = rw (
  same o (omega arith) (omega arith),
  c_string-same n t b c (o + 1) (ap b (omega arith) ∙ stop) (omega arith)
      (λ p lo hi. same p (omega arith) (omega arith)),
)

-- The bytes of a string and its closing NUL stand in the block from an offset on.
abbrev Spells : Block → ℕ → Str → Type 0
Spells b o [] = b o ≡ 0
Spells b o (x ∷ s) = (b o ≡ x) × (x ≢ 0) × Spells b (o + 1) s

c_string-Spells :
    (n : ℕ) (b : Block) (o : ℕ) (s : Str) → Spells b o s → length s < n → c_string n b o ≡ s
unfolding c_string
c_string-Spells zero b o s h lt = absurd (omega arith)
c_string-Spells (suc n) b o [] h lt = rw h
c_string-Spells (suc n) b o (x ∷ s) h lt =
    ground (arith, c_string-Spells n b (o + 1) s h.2 (omega arith))

-- No byte of the text is a NUL.
abbrev pub IsText : Str → Type 0
IsText [] = Unit
IsText (x ∷ s) = (x ≢ 0) × IsText s

get_or-end : (s : Str) → get_or s (length s) 0 ≡ 0
get_or-end [] = refl
get_or-end (x ∷ s) = get_or-end s

Spells-bytes :
    (b : Block) (o : ℕ) (s : Str)
    → IsText s
    → ((k : ℕ) → k ≤ length s → b (o + k) ≡ get_or s k 0)
    → Spells b o s
Spells-bytes b o [] text bytes = ap b (omega arith) ∙ bytes 0 (omega arith)
Spells-bytes b o (x ∷ s) text bytes = (
  ap b (omega arith) ∙ bytes 0 (omega arith),
  text.0,
  Spells-bytes b (o + 1) s text.1 (λ k le. ap b (omega arith) ∙ bytes (suc k) (omega arith)),
)

put_name-byte :
    (d : Block) (i : ℕ) (s : Str) (k : ℕ)
    → k ≤ length s
    → length s ≤ max_name_len
    → put_name d i s (32 * i + 4 + k) ≡ get_or s k 0
unfolding put_name
put_name-byte d i s k le fits =
    let at_k : 32 * i + 4 + k - (32 * i + 4) ≡ k = omega arith in rw at_k (ground (arith, full_end))
  where
    full_end : k ≡ length s → get_or s k 0 ≡ 0
    full_end e = rw e (get_or-end s)

-- The trailing NUL of each name, which `fs5600.h` asks for.
abbrev pub IsDirBlock : Block → Type 0
IsDirBlock d = (j : ℕ) → j < 128 → d (32 * j + 31) ≡ 0

pub put_entry-IsDirBlock :
    (d : Block) (i inum : ℕ) (s : Str) → IsDirBlock d → IsDirBlock (put_entry d i inum s)
unfolding put_entry put_name store32
put_entry-IsDirBlock d i inum s h j lt = ground (arith, h j lt)

pub clear_valid-IsDirBlock : (d : Block) (i : ℕ) → IsDirBlock d → IsDirBlock (clear_valid d i)
unfolding clear_valid store32
clear_valid-IsDirBlock d i h j lt = ground (arith, h j lt)

pub name-put_name_self :
    (d : Block) (i : ℕ) (s : Str)
    → i < 128
    → IsText s
    → length s ≤ max_name_len
    → name (put_name d i s) i ≡ s
unfolding name
name-put_name_self d i s lt text fits =
    c_string-Spells (4092 - 32 * i) (put_name d i s) (32 * i + 4) s
      (Spells-bytes (put_name d i s) (32 * i + 4) s text (λ k le. put_name-byte d i s k le fits))
      (omega arith)

pub name-put_entry_self :
    (d : Block) (i inum : ℕ) (s : Str)
    → i < 128
    → IsText s
    → length s ≤ max_name_len
    → name (put_entry d i inum s) i ≡ s
unfolding put_entry
name-put_entry_self d i inum s =
    name-put_name_self (store32 d (32 * i) (1 + 2 * (inum % 2147483648))) i s

put_name-outside :
    (d : Block) (i : ℕ) (s : Str) (p : ℕ)
    → (p < 32 * i) ⊎ (32 * i + 32 ≤ p)
    → put_name d i s p ≡ d p
unfolding put_name
put_name-outside d i s p h = ground arith

pub name-put_name_ne :
    (d : Block) (i j : ℕ) (s : Str)
    → IsDirBlock d
    → j < 128
    → i ≢ j
    → name (put_name d i s) j ≡ name d j
unfolding name
name-put_name_ne d i j s dir lt ne = sym (
    c_string-same (4092 - 32 * j) 27 d (put_name d i s) (32 * j + 4) (ap d (omega arith) ∙ dir j lt)
      (omega arith) (λ p lo hi. sym (put_name-outside d i s p (omega arith))))

pub put_name-IsDirBlock : (d : Block) (i : ℕ) (s : Str) → IsDirBlock d → IsDirBlock (put_name d i s)
unfolding put_name
put_name-IsDirBlock d i s h j lt = ground (arith, h j lt)

pub valid-put_name : (d : Block) (i j : ℕ) (s : Str) → valid (put_name d i s) j ≡ valid d j
unfolding valid
valid-put_name d i j s = rw load32-put_name

pub inode_num-put_name :
    (d : Block) (i j : ℕ) (s : Str) → inode_num (put_name d i s) j ≡ inode_num d j
unfolding inode_num
inode_num-put_name d i j s = rw load32-put_name

put_entry-outside :
    (d : Block) (i inum : ℕ) (s : Str) (p : ℕ)
    → (p < 32 * i) ⊎ (32 * i + 32 ≤ p)
    → put_entry d i inum s p ≡ d p
unfolding put_entry put_name store32
put_entry-outside d i inum s p h = ground arith

pub name-put_entry_ne :
    (d : Block) (i j inum : ℕ) (s : Str)
    → IsDirBlock d
    → j < 128
    → i ≢ j
    → name (put_entry d i inum s) j ≡ name d j
unfolding name
name-put_entry_ne d i j inum s dir lt ne = sym (
    c_string-same (4092 - 32 * j) 27 d (put_entry d i inum s) (32 * j + 4)
      (ap d (omega arith) ∙ dir j lt) (omega arith)
      (λ p lo hi. sym (put_entry-outside d i inum s p (omega arith))))

-- Every byte of the block fits a byte.
abbrev pub IsBytes : Block → Type 0
IsBytes b = (o : ℕ) → b o < 256

pub load32-lt : (b : Block) (o : ℕ) → IsBytes b → load32 b o < 4294967296
unfolding load32
load32-lt b o h = omega (arith, h o, h (o + 1), h (o + 2), h (o + 3))
