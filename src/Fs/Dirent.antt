-- ===== src/Fs/Dirent.antt =====
-- The 128 directory entries of a block, `struct fs_dirent` of project3/fs5600.h.
pub mod Find
pub mod Directory
pub mod Matches
pub mod Slots
use cs5600_computer_systems.Prelude.{
  ℕ, zero, suc, ◌+◌, ◌-◌, ◌*◌, ◌/◌, ◌%◌, Bool, true, false, not, ◌&&◌, ◌||◌, Option, none, some,
  List, [], ◌∷◌, ltb, leb, ◌==◌, if◌then◌else◌, Str, str_eq, get_or, find_from,
}
use cs5600_computer_systems.Fs.Block.{Block, load32, store32}

-- MAX_NAME_LEN
abbrev pub max_name_len : ℕ
max_name_len = 27

-- `d->valid`, the lowest bit of the first word.
unfoldable pub valid : Block → ℕ → Bool
unfolding load32
valid d i = not (load32 d (32 * i) % 2 == 0)

-- `d->inode`, the other 31 bits.
unfoldable pub inode_num : Block → ℕ → ℕ
unfolding load32
inode_num d i = load32 d (32 * i) / 2

-- The bytes from an offset up to the first NUL, in the `n` bytes that are left of the block.
unfoldable pub c_string : ℕ → Block → ℕ → Str
c_string zero b o = []
c_string (suc n) b o = let rest = c_string n b (o + 1) in if b o == 0 then [] else b o ∷ rest

-- `d->name`
unfoldable pub name : Block → ℕ → Str
unfolding c_string
name d i = c_string (4092 - 32 * i) d (32 * i + 4)

-- `d->valid && strcmp(d->name, leaf) == 0`
unfoldable pub matches : Block → Str → ℕ → Bool
unfolding valid name str_eq
matches d leaf i = valid d i && str_eq (name d i) leaf

-- The first valid entry of this name.
unfoldable pub find_entry : Block → Str → Option ℕ
unfolding matches find_from
find_entry d leaf = find_from (matches d leaf) 128 0

-- The first entry that is free.
unfoldable pub find_free : Block → Option ℕ
unfolding valid find_from
find_free d = find_from (λ i. not (valid d i)) 128 0

-- Whether any entry is in use.
unfoldable pub find_valid : Block → Option ℕ
unfolding valid find_from
find_valid d = find_from (valid d) 128 0

-- `strncpy(d->name, leaf, MAX_NAME_LEN); d->name[MAX_NAME_LEN] = '\0'`
unfoldable pub put_name : Block → ℕ → Str → Block
put_name d i leaf o =
    if leb (32 * i + 4) o && ltb o (32 * i + 32)
    then if ltb (o - (32 * i + 4)) max_name_len then get_or leaf (o - (32 * i + 4)) 0 else 0
    else d o

-- `d->valid = 1; d->inode = inum`, and the name.
unfoldable pub put_entry : Block → ℕ → ℕ → Str → Block
unfolding store32 put_name
put_entry d i inum leaf = put_name (store32 d (32 * i) (1 + 2 * (inum % 2147483648))) i leaf

-- `d->valid = 0`
unfoldable pub clear_valid : Block → ℕ → Block
unfolding load32 store32
clear_valid d i = store32 d (32 * i) (load32 d (32 * i) / 2 * 2)
