-- ===== src/Fs/Host.antt =====
-- What the file system asks of the machine: the disk image that misc.c has open, and memory.
use cs5600_computer_systems.Prelude.{ℕ, ◌≡◌, ◌≢◌, Bool, true, Option, some, Str}
use cs5600_computer_systems.Fs.Block.{Block}

-- `pread off` is `lseek(disk_fd, off, SEEK_SET)` and a `read` of 4096 bytes: `none` if either
-- fails or the read is short. `pwrite off block` is the two `lseek`s and the `write`: its first
-- part says whether all three succeeded. `can_dup` says whether `strdup` finds memory for a text.
pub record Host : Type 1 where
  pub Image : Type 0
  pub pread : ℕ → Image → Option Block
  pub pwrite : ℕ → Block → Image → Bool × Image
  pub can_dup : Str → Bool
  pub pread-pwrite_self :
      (off : ℕ) (b : Block) (m : Image)
      → (pwrite off b m).0 ≡ true
      → pread off (pwrite off b m).1 ≡ some b
  pub pread-pwrite_ne :
      (off p : ℕ) (b : Block) (m : Image)
      → (pwrite off b m).0 ≡ true
      → off ≢ p
      → pread p (pwrite off b m).1 ≡ pread p m
