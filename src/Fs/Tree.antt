-- ===== src/Fs/Tree.antt =====
-- A directory on the disk: its inode, its block of entries, and the children that `translate` sees.
pub mod Added
pub mod Create
pub mod Mkdir
pub mod Remove
pub mod Unlink
pub mod Rename
pub mod Rmdir
use cs5600_computer_systems.Prelude.{
  ℕ, ◌<◌, ◌≡◌, ◌≢◌, refl, Bool, true, false, Option, none, some, arith, Str, Option-cases, inl, inr,
  ap, ◌∙◌, sym, subst, ◌↔◌,
}
use cs5600_computer_systems.Fs.Block.{Block}
use cs5600_computer_systems.Fs.Host.{Host}
use cs5600_computer_systems.Fs.Inode.{Inode, is_dir, decode_inode}
use cs5600_computer_systems.Fs.Dirent.{find_entry, inode_num}
use cs5600_computer_systems.Fs.Dirent.Slots.{IsDirBlock}
use cs5600_computer_systems.Fs.Dirent.Directory.{lookup_in, lookup_in-found, lookup_in-absent}
use cs5600_computer_systems.Fs.Disk.{Fs}
use cs5600_computer_systems.Fs.Bitmap.{bit_test}
use cs5600_computer_systems.Fs.Path.Resolves.{Holds, Child, block_read-Holds, read_inode-Holds}
use cs5600_computer_systems.Fs.Namespace.{open_parent, find_in_parent}
use cs5600_computer_systems.Fs.Writes.{
  IsReliable, with_block, with_map, Holds-with_block_self, Holds-with_block_ne,
}
use cs5600_computer_systems.Fs.Action.{done, failed, eexist, enoent}

module _ ⦃H : Host⦄ where
  -- `parent` is the inode of a directory whose entries stand in block `block`, as `d`: both blocks
  -- can be read, are no metadata, and are marked as taken in `m`.
  pub record IsDirectory (s : Fs) (m : Block) (parent block : ℕ) (d : Block) : Type 0 where
    pub inode_block : Block
    pub inode : Holds s parent inode_block
    pub directory : is_dir (decode_inode inode_block) ≡ true
    pub first : (decode_inode inode_block).ptrs 0 ≡ block
    pub listing : Holds s block d
    pub names : IsDirBlock d
    pub apart : parent ≢ block
    pub parent_taken : bit_test m parent ≡ true
    pub block_taken : bit_test m block ≡ true
    pub parent_above : 1 < parent
    pub block_above : 1 < block
    pub block_below : block < 524287

  Holds-unique : (s : Fs) (k : ℕ) (b c : Block) → Holds s k b → Holds s k c → b ≡ c
  Holds-unique s k b c h g = cc (h.content, g.content)

  module _ {s : Fs} {m : Block} {parent block : ℕ} {d : Block}
      (dir : IsDirectory s m parent block d) where
    pub listing_at : Holds s ((decode_inode dir.inode_block).ptrs 0) d
    listing_at = rw dir.first dir.listing

    -- The children of the directory are the bindings of its block.
    pub Child-lookup_in : (t : Str) (j : ℕ) → Child s parent t j ↔ (lookup_in d t ≡ some j)
    Child-lookup_in t j = (to, from)
      where
        to : Child s parent t j → lookup_in d t ≡ some j
        to c =
            let same : dir.inode_block ≡ c.inode_block =
              Holds-unique s parent dir.inode_block c.inode_block dir.inode c.inode in
            let listed : Holds s ((decode_inode dir.inode_block).ptrs 0) c.entries =
              rw same c.listing in
            let e : c.entries ≡ d = Holds-unique s _ c.entries d listed listing_at in
            subst (λ b. lookup_in b t ≡ some j) e
              (lookup_in-found c.entries t c.slot c.found ∙ ap some c.names)

        from : lookup_in d t ≡ some j → Child s parent t j
        from e = elim (Option-cases (find_entry d t)) [
          | inl nothing ↦ cc (lookup_in-absent d t nothing)
          | inr (i, hit) ↦ record {
            inode_block = dir.inode_block;
            entries = d;
            slot = i;
            inode = dir.inode;
            directory = dir.directory;
            listing = listing_at;
            found = hit;
            names = cc (lookup_in-found d t i hit);
          }
        ]

    -- The parent's checks of `fs_create` and `fs_mkdir` pass when the name is new.
    pub open_parent-new :
        (leaf : Str) → find_entry d leaf ≡ none → open_parent parent leaf s ≡ done (block, d) s
    unfolding open_parent
    open_parent-new leaf new = rw (
      read_inode-Holds s parent dir.inode,
      dir.directory,
      dir.first,
      block_read-Holds s block dir.listing,
      new,
    )

    pub open_parent-exists :
        (leaf : Str) (i : ℕ)
        → find_entry d leaf ≡ some i
        → open_parent parent leaf s ≡ failed eexist s
    unfolding open_parent
    open_parent-exists leaf i old =
        rw
          (read_inode-Holds s parent dir.inode, dir.directory, block_read-Holds s _ listing_at, old)

    -- The entry of a leaf that is there.
    pub find_in_parent-there :
        (leaf : Str) (i : ℕ)
        → find_entry d leaf ≡ some i
        → find_in_parent parent leaf s ≡ done (block, d, i) s
    unfolding find_in_parent
    find_in_parent-there leaf i old =
        rw (
          read_inode-Holds s parent dir.inode,
          dir.first,
          block_read-Holds s block dir.listing,
          old,
        )

    pub find_in_parent-missing :
        (leaf : Str) → find_entry d leaf ≡ none → find_in_parent parent leaf s ≡ failed enoent s
    unfolding find_in_parent
    find_in_parent-missing leaf new =
        rw (read_inode-Holds s parent dir.inode, block_read-Holds s _ listing_at, new)

  -- A change of the bitmap in memory is none of the directory's.
  pub IsDirectory-bitmap :
      (s : Fs) (m c : Block) (parent block : ℕ) (d : Block)
      → IsDirectory s m parent block d
      → IsDirectory (record s { bitmap = c }) m parent block d
  IsDirectory-bitmap s m c parent block d dir = record {
    inode_block = dir.inode_block;
    inode = record { reached = dir.inode.reached; content = dir.inode.content };
    directory = dir.directory;
    first = dir.first;
    listing = record { reached = dir.listing.reached; content = dir.listing.content };
    names = dir.names;
    apart = dir.apart;
    parent_taken = dir.parent_taken;
    block_taken = dir.block_taken;
    parent_above = dir.parent_above;
    block_above = dir.block_above;
    block_below = dir.block_below;
  }

  module _ (io : IsReliable) (s : Fs) (m : Block) (parent block : ℕ) (d : Block)
      (dir : IsDirectory s m parent block d) where
    -- A write elsewhere leaves the directory alone.
    pub IsDirectory-with_block :
        (k : ℕ) (b : Block)
        → k ≢ parent
        → k ≢ block
        → IsDirectory (with_block k b s) m parent block d
    IsDirectory-with_block k b nep neb = record {
      inode_block = dir.inode_block;
      inode = Holds-with_block_ne io k parent b dir.inode_block s nep dir.inode;
      directory = dir.directory;
      first = dir.first;
      listing = Holds-with_block_ne io k block b d s neb dir.listing;
      names = dir.names;
      apart = dir.apart;
      parent_taken = dir.parent_taken;
      block_taken = dir.block_taken;
      parent_above = dir.parent_above;
      block_above = dir.block_above;
      block_below = dir.block_below;
    }

    -- A write of its entries makes it the directory of those.
    pub IsDirectory-entries :
        (e : Block) → IsDirBlock e → IsDirectory (with_block block e s) m parent block e
    IsDirectory-entries e names = record {
      inode_block = dir.inode_block;
      inode =
          Holds-with_block_ne io block parent e dir.inode_block s (λ q. dir.apart (sym q))
            dir.inode;
      directory = dir.directory;
      first = dir.first;
      listing = Holds-with_block_self io block e s (omega (arith, dir.block_below));
      names = names;
      apart = dir.apart;
      parent_taken = dir.parent_taken;
      block_taken = dir.block_taken;
      parent_above = dir.parent_above;
      block_above = dir.block_above;
      block_below = dir.block_below;
    }

  -- Writing the bitmap out touches block 1, which no directory uses.
  pub IsDirectory-with_map :
      (io : IsReliable) (s : Fs) (m c : Block) (parent block : ℕ) (d : Block)
      → IsDirectory s m parent block d
      → IsDirectory (with_map c s) m parent block d
  IsDirectory-with_map io s m c parent block d dir =
      IsDirectory-with_block io (record s { bitmap = c }) m parent block d
        (IsDirectory-bitmap s m c parent block d dir) 1 c (omega (arith, dir.parent_above))
        (omega (arith, dir.block_above))
