-- ===== src/Fs/Data/Isolation.antt =====
-- What a write to one file does to another.
use cs5600_computer_systems.Prelude.{ℕ, ◌+◌, ◌-◌, ◌*◌, ◌^◌, ◌≤◌, ◌<◌, ◌≡◌, true, Str}
use Prim.Native.Nat.{min}
use cs5600_computer_systems.Fs.Block.{Block, fs_block_size, copy_into}
use cs5600_computer_systems.Fs.Host.{Host}
use cs5600_computer_systems.Fs.Inode.{Inode, ptr_count, encode_inode}
use cs5600_computer_systems.Fs.Dirent.Slots.{IsBytes}
use cs5600_computer_systems.Fs.Disk.{Fs, disk_size}
use cs5600_computer_systems.Fs.Path.{components, root_inum}
use cs5600_computer_systems.Fs.Path.Resolves.{Holds, translate-Resolves}
use cs5600_computer_systems.Fs.Path.Trail.{Trail, Trail-Resolves, Trail-now}
use cs5600_computer_systems.Fs.Writes.{IsReliable}
use cs5600_computer_systems.Fs.Data.{fs_write, fs_read}
use cs5600_computer_systems.Fs.Data.Read.{content}
use cs5600_computer_systems.Fs.Data.File.{File, Foreign, blocks_of, fs_read-File}
use cs5600_computer_systems.Fs.Data.Grow.{Free}
use cs5600_computer_systems.Fs.Data.Splice.{Spliced, fs_write-Spliced}
use cs5600_computer_systems.Fs.Action.{done}

-- None of a file's blocks is one of another file's.
pub record IsApart ⦃H : Host⦄ (s : Fs) (inum : ℕ) (n : Inode) (other : ℕ) (m : Inode) : Type 0 where
  pub inode : Foreign s inum n other
  pub ptrs : (k : ℕ) → k < blocks_of m.size → Foreign s inum n (m.ptrs k)

module _ ⦃H : Host⦄ where
  -- The other file is sound and has the same blocks after the write.
  File-Spliced :
      {s s' : Fs} {inum : ℕ} {n : Inode} {blocks : ℕ → Block} {buf : Block} {len offset : ℕ}
      {n' : Inode} {blocks' : ℕ → Block} {other : ℕ} {m : Inode} {theirs : ℕ → Block}
      → Spliced s s' inum n blocks buf len offset n' blocks'
      → File s other m theirs
      → IsApart s inum n other m
      → File s' other m theirs
  File-Spliced {other} {m} {theirs} sp g apart = record {
    fields = g.fields;
    inode = sp.rest other (encode_inode m) apart.inode g.inode;
    regular = g.regular;
    room = g.room;
    held = λ k lt. sp.rest (m.ptrs k) (theirs k) (apart.ptrs k lt) (g.held k lt);
    inum_above = g.inum_above;
    inum_below = g.inum_below;
    above = g.above;
    below = g.below;
    apart = g.apart;
    distinct = g.distinct;
    inum_taken = sp.kept other g.inum_taken;
    taken = λ k lt. sp.kept (m.ptrs k) (g.taken k lt);
  }

  -- On a disk whose writes succeed, with a bitmap of bytes, two paths to sound regular files
  -- that share no block, along directories whose blocks are marked as taken and are none of the
  -- first file's, and a write to the first file at an offset not behind its end, up to an end
  -- within the array of block numbers, and with free blocks that can be read for what it grows:
  -- `fs_write` of the first path returns all `len` bytes, and `fs_read` of the second path
  -- returns afterwards what it returned before, at any offset and for any length whose sum is
  -- below 2 ^ 64.
  pub fs_read-fs_write_other :
      (io : IsReliable) {s : Fs} {inum : ℕ} {n : Inode} {blocks : ℕ → Block} {other : ℕ} {m : Inode}
      {theirs : ℕ → Block} (f : File s inum n blocks) (g : File s other m theirs)
      (apart : IsApart s inum n other m) (map_bytes : IsBytes s.bitmap) (now : ℕ) (path path' : Str)
      (buf : Block) (len offset : ℕ) (alloc : ℕ → ℕ)
      → offset + len ≤ ptr_count * fs_block_size
      → Free alloc
          (disk_size s.superblock)
          (blocks_of (offset + len) - blocks_of n.size)
          (blocks_of n.size)
          s.bitmap
      → ((k : ℕ)
          → blocks_of n.size ≤ k
          → k < blocks_of (offset + len)
          → Holds s (alloc k) (blocks k))
      → H.can_dup path ≡ true
      → H.can_dup path' ≡ true
      → Trail s (Foreign s inum n) root_inum (components path) inum
      → Trail s (Foreign s inum n) root_inum (components path') other
      → offset ≤ n.size
      → (buf' : Block) (len' offset' : ℕ) → offset' + len' < 2 ^ 64
      → (s' : Fs) × (r : ℕ × Block) × (fs_write now path buf len offset s ≡ done len s')
        × (fs_read path' buf' len' offset' s ≡ done r s)
        × (fs_read path' buf' len' offset' s' ≡ done r s')
  fs_read-fs_write_other io {s} {inum} {n} {other} {m} {theirs} f g apart map_bytes now path path'
        buf len offset alloc fits free fresh dup dup' trail trail' within buf' len' offset' small =
      let Keep = Foreign s inum n in
      let at = (translate-Resolves path s inum dup).1 (Trail-now s Keep trail) in
      let at' = (translate-Resolves path' s other dup').1 (Trail-now s Keep trail') in
      let (s', n', blocks', run, sp) =
        fs_write-Spliced io f map_bytes buf len offset fits alloc free fresh now path at within in
      let at'' =
        (translate-Resolves path' s' other dup').1 (Trail-Resolves s s' Keep sp.rest trail') in
      let count = min len' (m.size - offset') in
      (
        s',
        (count, copy_into buf' 0 (content theirs) offset' count),
        run,
        fs_read-File g path' buf' len' offset' at' small,
        fs_read-File (File-Spliced sp g apart) path' buf' len' offset' at'' small,
      )
