-- ===== src/Fs/Path.antt =====
-- Path names: the splitting that homework.c does with `strtok`, `basename` and `dirname`, and
-- `translate` and `lookup_parent`.
pub mod Tokens
pub mod Trail
pub mod Walk
pub mod Resolves
use cs5600_computer_systems.Prelude.{
  ℕ, Bool, true, false, not, Option, none, some, List, [], ◌∷◌, ◌++◌, map, reverse, take, ◌==◌,
  if◌then◌else◌, Str, str_eq,
}
use cs5600_computer_systems.Fs.Host.{Host}
use cs5600_computer_systems.Fs.Inode.{Inode, is_dir}
use cs5600_computer_systems.Fs.Dirent.{max_name_len, find_entry, inode_num}
use cs5600_computer_systems.Fs.Disk.{Fs, block_read, read_inode}
use cs5600_computer_systems.Fs.Action.{
  Errno, enoent, eio, enomem, enotdir, einval, Action, done, failed, fault, pure, fail, crash,
  require, or_fail, ◌>>=◌, ◌>>◌,
}

abbrev pub slash : ℕ
slash = b'/'

abbrev pub root_path : Str
root_path = slash ∷ []

-- MAX_PATH_COMPONENTS
abbrev pub max_path_components : ℕ
max_path_components = 10

-- The root's inode number.
abbrev pub root_inum : ℕ
root_inum = 2

-- A token that `strtok` hands out, which is never empty.
abbrev pub emit : Str → List Str → List Str
emit [] ts = ts
emit (c ∷ cs) ts = (c ∷ cs) ∷ ts

-- The tokens of `strtok(path, "/")`, with the bytes of the one that is being read.
unfoldable pub tokens_from : Str → Str → List Str
tokens_from cur [] = emit cur []
tokens_from cur (c ∷ r) = elim (c == slash) [
  | true ↦ emit cur (tokens_from [] r)
  | false ↦ tokens_from (cur ++ c ∷ []) r
]

unfoldable pub tokens : Str → List Str
tokens path = tokens_from [] path

-- The components of `translate`: the first ten tokens, each cut to 27 bytes.
unfoldable pub components : Str → List Str
components path = map (take max_name_len) (take max_path_components (tokens path))

abbrev pub drop_slashes : Str → Str
drop_slashes [] = []
drop_slashes (c ∷ r) = if c == slash then drop_slashes r else c ∷ r

-- The bytes before the first slash, and those from it on.
abbrev pub before_slash : Str → Str
before_slash [] = []
before_slash (c ∷ r) = if c == slash then [] else c ∷ before_slash r

abbrev pub from_slash : Str → Str
from_slash [] = []
from_slash (c ∷ r) = if c == slash then c ∷ r else from_slash r

abbrev pub or_default : Str → Str → Str
or_default [] other = other
or_default (c ∷ r) other = c ∷ r

-- The texts "." and "/".
abbrev pub dot_path : Str
dot_path = b'.' ∷ []

abbrev pub is_empty : Str → Bool
is_empty [] = true
is_empty (c ∷ r) = false

-- `basename` of libgen.h, on the text read from its end.
unfoldable pub basename : Str → Str
basename path =
    if is_empty path
    then dot_path
    else or_default (reverse (before_slash (drop_slashes (reverse path)))) root_path

-- `dirname` of libgen.h, on the text read from its end.
abbrev pub dir_part : Str → Str
dir_part [] = dot_path
dir_part (c ∷ r) = or_default (reverse (drop_slashes (c ∷ r))) root_path

unfoldable pub dirname : Str → Str
dirname path =
    if is_empty path
    then dot_path
    else if is_empty (drop_slashes (reverse path))
    then root_path
    else dir_part (from_slash (drop_slashes (reverse path)))

-- `if (dup[len - 1] == '/') dup[len - 1] = '\0'`, on the text read from its end.
abbrev pub drop_one_slash : Str → Str
drop_one_slash [] = []
drop_one_slash (c ∷ r) = if c == slash then r else c ∷ r

unfoldable pub trim_slash : Str → Str
trim_slash path = reverse (drop_one_slash (reverse path))

module _ ⦃H : Host⦄ where
  -- One round of the loop of `translate`: from a directory to the inode that it has under a name.
  unfoldable pub enter : ℕ → Str → Action Fs ℕ
  enter cur c = do
    n ← read_inode cur
    require (is_dir n) enotdir
    d ← block_read (n.ptrs 0)
    i ← or_fail enoent (find_entry d c)
    pure (inode_num d i)

  -- The loop of `translate` over the components, from an inode on.
  unfoldable pub walk : ℕ → List Str → Action Fs ℕ
  walk cur [] = pure cur
  walk cur (c ∷ cs) = do next ← enter cur c; walk next cs

  unfoldable pub translate : Str → Action Fs ℕ
  translate path =
      if str_eq path root_path
      then pure root_inum
      else do require (H.can_dup path) enomem; walk root_inum (components path)

  -- The second `strdup` and what follows; the `strdup` of the leaf is not checked, and a failure
  -- makes the callers read through a null pointer.
  unfoldable pub split_parent : Str → Action Fs (ℕ × Str)
  split_parent dup = do
    require (H.can_dup dup) enomem
    parent ← translate (dirname dup)
    if H.can_dup (take max_name_len (basename dup))
        then pure (parent, take max_name_len (basename dup))
        else crash

  -- The parent's inode number and the leaf. An empty path makes the code read before the text.
  unfoldable pub lookup_parent : Str → Action Fs (ℕ × Str)
  lookup_parent path = if str_eq path root_path then fail einval else do
    require (H.can_dup path) enomem
    if is_empty path then crash else split_parent (trim_slash path)
