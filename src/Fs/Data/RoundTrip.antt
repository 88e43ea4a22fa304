-- ===== src/Fs/Data/RoundTrip.antt =====
-- What `fs_read` returns after `fs_write`.
use cs5600_computer_systems.Prelude.{
  ℕ, ◌+◌, ◌-◌, ◌*◌, ◌^◌, ◌≤◌, ◌<◌, ◌≡◌, true, ◌&&◌, ltb, leb, if◌then◌else◌, ap, ◌∙◌, Str, fun_ext,
}
use Prim.Native.Nat.{min, max}
use cs5600_computer_systems.Fs.Block.{Block, fs_block_size, copy_into}
use cs5600_computer_systems.Fs.Host.{Host}
use cs5600_computer_systems.Fs.Inode.{Inode, ptr_count}
use cs5600_computer_systems.Fs.Dirent.Slots.{IsBytes}
use cs5600_computer_systems.Fs.Disk.{Fs, disk_size}
use cs5600_computer_systems.Fs.Path.{components, root_inum}
use cs5600_computer_systems.Fs.Path.Resolves.{Holds, translate-Resolves}
use cs5600_computer_systems.Fs.Path.Trail.{Trail, Trail-Resolves, Trail-now}
use cs5600_computer_systems.Fs.Writes.{IsReliable}
use cs5600_computer_systems.Fs.Data.{fs_write, fs_read}
use cs5600_computer_systems.Fs.Data.Read.{content}
use cs5600_computer_systems.Fs.Data.File.{File, Foreign, blocks_of, fs_read-File}
use cs5600_computer_systems.Fs.Data.Grow.{Free}
use cs5600_computer_systems.Fs.Data.Splice.{fs_write-Spliced}
use cs5600_computer_systems.Fs.Action.{done}

-- The bytes of a file after `len` bytes of `buf` were written at `offset`.
abbrev pub overwritten : (ℕ → ℕ) → Block → (len offset : ℕ) → ℕ → ℕ
overwritten bytes buf len offset p =
    if leb offset p && ltb p (offset + len) then buf (p - offset) else bytes p

module _ ⦃H : Host⦄ (io : IsReliable) {s : Fs} {inum : ℕ} {n : Inode} {blocks : ℕ → Block}
    (f : File s inum n blocks) (map_bytes : IsBytes s.bitmap) (buf : Block) (len offset : ℕ)
    (fits : offset + len ≤ ptr_count * fs_block_size) (alloc : ℕ → ℕ)
    (free : Free alloc
      (disk_size s.superblock)
      (blocks_of (offset + len) - blocks_of n.size)
      (blocks_of n.size)
      s.bitmap)
    (fresh : (k : ℕ)
      → blocks_of n.size ≤ k
      → k < blocks_of (offset + len)
      → Holds s (alloc k) (blocks k)) where
  -- On a disk whose writes succeed, with a bitmap of bytes, a path to a sound regular file along
  -- directories whose blocks are marked as taken and are none of the file's, an offset not
  -- behind the file's end, an end of the write within the array of block numbers, and free
  -- blocks that can be read for what the file grows: `fs_write` returns all `len` bytes, and
  -- `fs_read` of the same path afterwards, at any offset and for any length whose sum is below 2
  -- ^ 64, returns the bytes up to the new end of the file, those written where they were written
  -- and the old ones elsewhere. The fuel of both loops is enough.
  pub fs_read-fs_write :
      (now : ℕ) (path : Str)
      → H.can_dup path ≡ true
      → Trail s (Foreign s inum n) root_inum (components path) inum
      → offset ≤ n.size
      → (buf' : Block) (len' offset' : ℕ) → offset' + len' < 2 ^ 64
      → let count = min len' (max n.size (offset + len) - offset') in
        (s' : Fs) × (fs_write now path buf len offset s ≡ done len s')
        × (fs_read path buf' len' offset' s'
            ≡ done
                (
                  count,
                  copy_into buf' 0 (overwritten (content blocks) buf len offset) offset' count,
                )
                s')
  fs_read-fs_write now path dup trail within buf' len' offset' small =
      let at = (translate-Resolves path s inum dup).1 (Trail-now s (Foreign s inum n) trail) in
      let (s', n', blocks', run, sp) =
        fs_write-Spliced io f map_bytes buf len offset fits alloc free fresh now path at within in
      let at' =
        (translate-Resolves path s' inum dup).1
          (Trail-Resolves s s' (Foreign s inum n) sp.rest trail) in
      (
        s',
        run,
        fs_read-File sp.file path buf' len' offset' at' small
            ∙ ap
                (λ m.
                  done
                    (
                      min len' (m - offset'),
                      copy_into buf' 0 (content blocks') offset' (min len' (m - offset')),
                    )
                    s')
                sp.size
            ∙ ap
                (λ g.
                  done
                    (
                      min len' (max n.size (offset + len) - offset'),
                      copy_into buf' 0 g offset' (min len' (max n.size (offset + len) - offset')),
                    )
                    s')
                (fun_ext sp.bytes),
      )
