-- ===== src/Fs/Path/Resolves.antt =====
-- The paths that a disk image makes: an inductive description, and what `translate` has to do with it.
use cs5600_computer_systems.Prelude.{
  ℕ, ◌*◌, ◌<◌, ◌≡◌, refl, Bool, true, Option, some, List, [], ◌∷◌, arith, lt→ltb, Bool-cases, inl,
  inr, Str, str_eq, ap, ◌∙◌, sym, subst, str_eq_sound, ◌↔◌, ◌≤◌, ◌++◌, length,
}
use cs5600_computer_systems.Fs.Block.{Block, fs_block_size}
use cs5600_computer_systems.Fs.Host.{Host}
use cs5600_computer_systems.Fs.Inode.{Inode, is_dir, decode_inode}
use cs5600_computer_systems.Fs.Dirent.{find_entry, inode_num}
use cs5600_computer_systems.Fs.Disk.{Fs, block_read, read_inode}
use cs5600_computer_systems.Fs.Action.{done, require, or_fail, enoent, enotdir}
use cs5600_computer_systems.Fs.Action.Leaves.{and_then-done, require-Leaves, or_fail-Leaves}
use cs5600_computer_systems.Fs.Path.{
  enter, walk, translate, components, tokens, tokens_from, root_inum, root_path,
  max_path_components,
}
use cs5600_computer_systems.Fs.Path.Tokens.{
  AllComponents, Fits, join, components-join, components-join_long,
}
use cs5600_computer_systems.Fs.Path.Walk.{block_read-Leaves, read_inode-Leaves, enter-Leaves}

module _ ⦃H : Host⦄ where
  -- Block `lba` of the image can be read, and holds `b`.
  pub record Holds (s : Fs) (lba : ℕ) (b : Block) : Type 0 where
    pub reached : lba < 524288
    pub content : H.pread (lba * fs_block_size) s.image ≡ some b

  -- The directory `cur` has inode `next` under the name `c`: in the first valid entry that has it.
  pub record Child (s : Fs) (cur : ℕ) (c : Str) (next : ℕ) : Type 0 where
    pub inode_block : Block
    pub entries : Block
    pub slot : ℕ
    pub inode : Holds s cur inode_block
    pub directory : is_dir (decode_inode inode_block) ≡ true
    pub listing : Holds s ((decode_inode inode_block).ptrs 0) entries
    pub found : find_entry entries c ≡ some slot
    pub names : inode_num entries slot ≡ next

  pub data Resolves (s : Fs) : ℕ → List Str → ℕ → Type 0 where
    here : {i : ℕ} → Resolves s i [] i
    down :
        {i j k : ℕ} {c : Str} {cs : List Str}
        → Child s i c j
        → Resolves s j cs k
        → Resolves s i (c ∷ cs) k

  pub block_read-Holds :
      (s : Fs) (lba : ℕ) {b : Block} → Holds s lba b → block_read lba s ≡ done b s
  unfolding block_read
  block_read-Holds s lba h = rw (lt→ltb lba 524288 h.reached, h.content)

  pub Holds-block_read :
      (s s' : Fs) (lba : ℕ) {b : Block} → block_read lba s ≡ done b s' → Holds s lba b
  unfolding block_read
  Holds-block_read s s' lba e = record { reached = ground arith; content = ground arith }

  -- The translation is the walk through the components, for the root too.
  translate-walk :
      (path : Str) (s : Fs)
      → H.can_dup path ≡ true
      → translate path s ≡ walk root_inum (components path) s
  unfolding translate components tokens tokens_from walk
  translate-walk path s dup = elim (Bool-cases (str_eq path root_path)) [
    | inl root ↦ rw root (rw (str_eq_sound path root_path root))
    | inr other ↦ rw (other, dup)
  ]

  pub read_inode-Holds :
      (s : Fs) (inum : ℕ) {b : Block} → Holds s inum b → read_inode inum s ≡ done (decode_inode b) s
  unfolding read_inode
  read_inode-Holds s inum h = rw (block_read-Holds s inum h)

  Holds-read_inode :
      (s s' : Fs) (inum : ℕ) {n : Inode}
      → read_inode inum s ≡ done n s'
      → (b : Block) × Holds s inum b × (decode_inode b ≡ n)
  unfolding read_inode
  Holds-read_inode s s' inum e =
      let (b, read, same) = and_then-done s s' (block_read inum s) _ (block_read-Leaves inum s) e in
      (b, Holds-block_read s s inum read, cc)

  pub enter-Child :
      (s : Fs) (cur : ℕ) (c : Str) {next : ℕ} → Child s cur c next → enter cur c s ≡ done next s
  unfolding enter
  enter-Child s cur c h =
      rw (read_inode-Holds s cur h.inode, h.directory, block_read-Holds s _ h.listing, h.found)
        (ap (λ i. done i s) h.names)

  require-done : (s s' : Fs) (b : Bool) {u : Unit {0}} → require b enotdir s ≡ done u s' → b ≡ true
  require-done s s' b e = ground arith

  or_fail-done :
      (s s' : Fs) {A : Type 0} (o : Option A) {a : A} → or_fail enoent o s ≡ done a s' → o ≡ some a
  or_fail-done s s' o e = ground arith

  Child-enter :
      (s s' : Fs) (cur : ℕ) (c : Str) {next : ℕ} → enter cur c s ≡ done next s' → Child s cur c next
  unfolding enter
  Child-enter s s' cur c e =
      let (n, read, e₁) = and_then-done s s' (read_inode cur s) _ (read_inode-Leaves cur s) e in
      let (u, dir, e₂) =
        and_then-done s s' (require (is_dir n) enotdir s) _ (require-Leaves s (is_dir n) enotdir)
          e₁ in
      let (d, list, e₃) =
        and_then-done s s' (block_read (n.ptrs 0) s) _ (block_read-Leaves (n.ptrs 0) s) e₂ in
      let (i, hit, e₄) =
        and_then-done s s' (or_fail enoent (find_entry d c) s) _
          (or_fail-Leaves s enoent (find_entry d c)) e₃ in
      let (b, held, same) = Holds-read_inode s s cur read in
      record {
        inode_block = b;
        entries = d;
        slot = i;
        inode = held;
        directory = rw same (require-done s s (is_dir n) dir);
        listing = rw same (Holds-block_read s s (n.ptrs 0) list);
        found = or_fail-done s s (find_entry d c) hit;
        names = cc e₄;
      }

  pub walk-Resolves :
      (s : Fs) {cur j : ℕ} {cs : List Str} → Resolves s cur cs j → walk cur cs s ≡ done j s
  unfolding walk
  walk-Resolves s here = refl
  walk-Resolves s (down {c} child rest) = rw (enter-Child s _ c child) (walk-Resolves s rest)

  pub Resolves-walk :
      (s s' : Fs) (cs : List Str) (cur : ℕ) {j : ℕ}
      → walk cur cs s ≡ done j s'
      → Resolves s cur cs j
  unfolding walk
  Resolves-walk s s' [] cur e = subst (Resolves s cur []) (cc) here
  Resolves-walk s s' (c ∷ cs) cur e =
      let (next, step, rest) = and_then-done s s' (enter cur c s) _ (enter-Leaves cur c s) e in
      down (Child-enter s s cur c step) (Resolves-walk s s' cs next rest)

  -- If `strdup` finds memory for the path, `translate` of the path ends with inode number `j`
  -- and the state unchanged exactly when the components of the path lead from the root, inode 2,
  -- through directories of the disk image to `j`.
  pub translate-Resolves :
      (path : Str) (s : Fs) (j : ℕ)
      → H.can_dup path ≡ true
      → (translate path s ≡ done j s) ↔ Resolves s root_inum (components path) j
  translate-Resolves path s j dup = (
    λ e. Resolves-walk s s (components path) root_inum (sym (translate-walk path s dup) ∙ e),
    λ r. translate-walk path s dup ∙ walk-Resolves s r,
  )

  -- For an absolute path of at most ten components, each without a slash and of 1 to 27 bytes,
  -- and memory for its copy: `translate` ends with inode number `j` exactly when all the
  -- components, as they stand, lead from the root to `j`.
  pub translate-join :
      (cs : List Str) (s : Fs) (j : ℕ)
      → AllComponents cs
      → Fits cs
      → length cs ≤ max_path_components
      → H.can_dup (join cs) ≡ true
      → (translate (join cs) s ≡ done j s) ↔ Resolves s root_inum cs j
  translate-join cs s j h fits short dup =
      subst (λ ts. (translate (join cs) s ≡ done j s) ↔ Resolves s root_inum ts j)
        (components-join cs h fits short) (translate-Resolves (join cs) s j dup)

  -- Of an absolute path of ten components or more, the first ten of at most 27 bytes each,
  -- `translate` follows only the first ten: it ends with `j` exactly when those ten lead from
  -- the root to `j`, whatever the others are. Memory for the copy of the path is assumed.
  pub translate-join_long :
      (cs more : List Str) (s : Fs) (j : ℕ)
      → AllComponents (cs ++ more)
      → Fits cs
      → length cs ≡ max_path_components
      → H.can_dup (join (cs ++ more)) ≡ true
      → (translate (join (cs ++ more)) s ≡ done j s) ↔ Resolves s root_inum cs j
  translate-join_long cs more s j h fits ten dup =
      subst (λ ts. (translate (join (cs ++ more)) s ≡ done j s) ↔ Resolves s root_inum ts j)
        (components-join_long cs more h fits ten) (translate-Resolves (join (cs ++ more)) s j dup)
