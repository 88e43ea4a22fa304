-- ===== src/Fs/Attributes/Changes.antt =====
-- What `fs_getattr` reports after `fs_chmod` and `fs_utime`.
use cs5600_computer_systems.Prelude.{
  ℕ, ◌+◌, ◌*◌, ◌/◌, ◌%◌, ◌^◌, ◌<◌, ◌≡◌, ◌≢◌, true, arith, Str, ap,
}
use cs5600_computer_systems.Fs.Host.{Host}
use cs5600_computer_systems.Fs.Inode.{Inode, encode_inode}
use cs5600_computer_systems.Fs.Inode.Codec.{IsInode, decode-encode}
use cs5600_computer_systems.Fs.Inode.Mode.{chmod_mode-eq}
use cs5600_computer_systems.Fs.Disk.{Fs}
use cs5600_computer_systems.Fs.Path.{translate, components, root_inum}
use cs5600_computer_systems.Fs.Path.Resolves.{Holds, read_inode-Holds, translate-Resolves}
use cs5600_computer_systems.Fs.Path.Trail.{Trail, Trail-Resolves, Trail-now}
use cs5600_computer_systems.Fs.Writes.{
  IsReliable, with_block, write_inode-done, Holds-with_block_self, Holds-with_block_ne,
}
use cs5600_computer_systems.Fs.Attributes.{inode_to_stat, fs_getattr, fs_chmod, fs_utime}
use cs5600_computer_systems.Fs.Action.{done}

fs_getattr-done :
    ⦃H : Host⦄ (path : Str) (s : Fs) (inum : ℕ) (n : Inode)
    → translate path s ≡ done inum s
    → Holds s inum (encode_inode n)
    → IsInode n
    → fs_getattr path s ≡ done (inode_to_stat n) s
unfolding fs_getattr
fs_getattr-done path s inum n at held fields =
    rw (at, read_inode-Holds s inum held)
      (ap (λ m. done (inode_to_stat m) s) (decode-encode n fields))

module _ ⦃H : Host⦄ (io : IsReliable) (s : Fs) (path : Str) (dup : H.can_dup path ≡ true) (inum : ℕ)
    (n : Inode) (held : Holds s inum (encode_inode n)) (fields : IsInode n) (above : 0 < inum)
    (below : inum < 524287) (trail : Trail s (λ b. inum ≢ b) root_inum (components path) inum) where
  at : translate path s ≡ done inum s
  at = (translate-Resolves path s inum dup).1 (Trail-now s (λ b. inum ≢ b) trail)

  -- Any other inode in the place of this one is what `fs_getattr` reports.
  rewritten :
      (n' : Inode)
      → IsInode n'
      → fs_getattr path (with_block inum (encode_inode n') s)
        ≡ done (inode_to_stat n') (with_block inum (encode_inode n') s)
  rewritten n' fields' =
      let s' = with_block inum (encode_inode n') s in
      fs_getattr-done path s' inum n'
        ((translate-Resolves path s' inum dup).1 (
          Trail-Resolves s s' (λ b. inum ≢ b)
            (λ b e ne h. Holds-with_block_ne io inum b (encode_inode n') e s ne h) trail))
        (Holds-with_block_self io inum (encode_inode n') s (omega arith)) fields'

  -- On a disk whose writes succeed, with a path to an inode whose fields fit their types,
  -- through directories with other blocks than the inode's, and a mode of 32 bits: `fs_chmod`
  -- succeeds, and what `fs_getattr` then reports differs from what it reported before in the
  -- mode only, which has the old four bits of the file type, from 4096 on, and the new other
  -- bits.
  pub fs_getattr-fs_chmod :
      (mode : ℕ)
      → mode < 2 ^ 32
      → (s' : Fs) × (fs_chmod path mode s ≡ done tt s')
        × (fs_getattr path s ≡ done (inode_to_stat n) s)
        × (fs_getattr path s'
            ≡ done
                (record (inode_to_stat n) {
                  st_mode = n.mode / 4096 % 16 * 4096 + (mode % 4096 + mode / 65536 * 65536);
                })
                s')
  unfolding fs_chmod inode_to_stat
  fs_getattr-fs_chmod mode small =
      let new = n.mode / 4096 % 16 * 4096 + (mode % 4096 + mode / 65536 * 65536) in
      let n' : Inode = record n { mode = new } in
      (
        with_block inum (encode_inode n') s,
        rw
            (
              at,
              read_inode-Holds s inum held,
              decode-encode n fields,
              chmod_mode-eq n.mode mode small,
            )
            (write_inode-done io inum n' s above below),
        fs_getattr-done path s inum n at held fields,
        rewritten n' (record {
          uid = fields.uid;
          gid = fields.gid;
          mode = omega arith;
          ctime = fields.ctime;
          mtime = fields.mtime;
          size = fields.size;
          ptrs = fields.ptrs;
          rest = fields.rest;
        }),
      )

  -- On a disk whose writes succeed, with a path to an inode whose fields fit their types,
  -- through directories with other blocks than the inode's: `fs_utime` succeeds, and
  -- `fs_getattr` then reports the given time, cut to 32 bits, as all three times, and everything
  -- else as the inode had it.
  pub fs_getattr-fs_utime :
      (modtime : ℕ)
      → (s' : Fs) × (fs_utime path modtime s ≡ done tt s')
        × (fs_getattr path s'
            ≡ done
                (record (inode_to_stat n) {
                  st_mtime = modtime % 2 ^ 32;
                  st_atime = modtime % 2 ^ 32;
                  st_ctime = modtime % 2 ^ 32;
                })
                s')
  unfolding fs_utime inode_to_stat
  fs_getattr-fs_utime modtime =
      let n' : Inode = record n { mtime = modtime % 2 ^ 32; ctime = modtime % 2 ^ 32 } in
      (
        with_block inum (encode_inode n') s,
        rw (at, read_inode-Holds s inum held, decode-encode n fields)
            (write_inode-done io inum n' s above below),
        rewritten n' (record {
          uid = fields.uid;
          gid = fields.gid;
          mode = fields.mode;
          ctime = omega arith;
          mtime = omega arith;
          size = fields.size;
          ptrs = fields.ptrs;
          rest = fields.rest;
        }),
      )
