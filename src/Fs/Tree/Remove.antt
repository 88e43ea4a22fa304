-- ===== src/Fs/Tree/Remove.antt =====
-- The loop of `fs_unlink` that frees the blocks of a file.
use cs5600_computer_systems.Prelude.{
  ℕ, zero, suc, ◌+◌, ◌<◌, ◌≤◌, ◌≡◌, ◌≢◌, refl, Bool, false, arith, if◌then◌else◌, ◌∙◌, lt→ltb, ◌==◌,
  Bool-cases, inl, inr, ==_iff,
}
use cs5600_computer_systems.Fs.Block.{Block}
use cs5600_computer_systems.Fs.Host.{Host}
use cs5600_computer_systems.Fs.Inode.{Inode, ptr_count}
use cs5600_computer_systems.Fs.Dirent.Slots.{IsBytes}
use cs5600_computer_systems.Fs.Disk.{Fs}
use cs5600_computer_systems.Fs.Bitmap.{bit_test, bit_clear, bitmap_bits}
use cs5600_computer_systems.Fs.Bitmap.Bits.{bit_test-bit_clear, bit_clear-IsBytes}
use cs5600_computer_systems.Fs.Namespace.{free_ptrs}
use cs5600_computer_systems.Fs.Writes.{IsReliable, with_map, free_block-done}
use cs5600_computer_systems.Fs.Tree.{IsDirectory, IsDirectory-with_map}
use cs5600_computer_systems.Fs.Action.{done}

-- The bitmap after the blocks `ptrs i`, ..., `ptrs (i + k - 1)` were freed.
abbrev pub freed_map : Inode → ℕ → ℕ → Block → Block
freed_map n zero i m = m
freed_map n (suc k) i m = freed_map n k (i + 1) (bit_clear m (n.ptrs i))

pub freed_map-other :
    (n : Inode) (k i b : ℕ) (m : Block)
    → IsBytes m
    → ((j : ℕ) → i ≤ j → j < i + k → n.ptrs j ≢ b)
    → bit_test (freed_map n k i m) b ≡ bit_test m b
freed_map-other n zero i b m bytes ne = refl
freed_map-other n (suc k) i b m bytes ne =
    freed_map-other n k (i + 1) b (bit_clear m (n.ptrs i)) (bit_clear-IsBytes m (n.ptrs i) bytes)
      (λ j lo hi. ne j (omega arith) (omega arith))
    ∙ bit_test-bit_clear m (n.ptrs i) b bytes
    ∙ if_ne (n.ptrs i) b false (bit_test m b) (ne i (omega arith) (omega arith))
  where
    if_ne : (x y : ℕ) (u v : Bool) → x ≢ y → (if x == y then u else v) ≡ v
    if_ne x y u v h = ground arith

-- A bit that is clear stays clear.
pub freed_map-clear :
    (n : Inode) (k i b : ℕ) (m : Block)
    → IsBytes m
    → bit_test m b ≡ false
    → bit_test (freed_map n k i m) b ≡ false
freed_map-clear n zero i b m bytes h = h
freed_map-clear n (suc k) i b m bytes h =
    freed_map-clear n k (i + 1) b (bit_clear m (n.ptrs i)) (bit_clear-IsBytes m (n.ptrs i) bytes)
      (bit_test-bit_clear m (n.ptrs i) b bytes ∙ ground arith)

pub freed_map-ptr :
    (n : Inode) (k i j : ℕ) (m : Block)
    → IsBytes m
    → i ≤ j
    → j < i + k
    → bit_test (freed_map n k i m) (n.ptrs j) ≡ false
freed_map-ptr n zero i j m bytes lo hi = absurd (omega arith)
freed_map-ptr n (suc k) i j m bytes lo hi = elim (Bool-cases (i == j)) [
  | inl same ↦
      let e : i ≡ j = (==_iff i j).0 same in
      freed_map-clear n k (i + 1) (n.ptrs j) (bit_clear m (n.ptrs i))
        (bit_clear-IsBytes m (n.ptrs i) bytes)
        (bit_test-bit_clear m (n.ptrs i) (n.ptrs j) bytes ∙ rw e (ground arith))
  | inr other ↦
      freed_map-ptr n k (i + 1) j (bit_clear m (n.ptrs i)) (bit_clear-IsBytes m (n.ptrs i) bytes)
        (ground arith) (omega arith)
]

module _ ⦃H : Host⦄ (io : IsReliable) where
  -- The state after `free_ptrs`.
  abbrev pub freed_state : Inode → ℕ → ℕ → Fs → Fs
  freed_state n zero i s = s
  freed_state n (suc k) i s = freed_state n k (i + 1) (with_map (bit_clear s.bitmap (n.ptrs i)) s)

  pub free_ptrs-done :
      (n : Inode) (k i : ℕ) (s : Fs)
      → i + k ≤ ptr_count
      → ((j : ℕ) → j < ptr_count → n.ptrs j < bitmap_bits)
      → free_ptrs n k i s ≡ done tt (freed_state n k i s)
  unfolding free_ptrs
  free_ptrs-done n zero i s room fits = refl
  free_ptrs-done n (suc k) i s room fits =
      rw (lt→ltb i ptr_count (omega arith), free_block-done io s (n.ptrs i) (fits i (omega arith)))
        (free_ptrs-done n k (i + 1) (with_map (bit_clear s.bitmap (n.ptrs i)) s) (omega arith) fits)

  pub freed_state-bitmap :
      (n : Inode) (k i : ℕ) (s : Fs) → (freed_state n k i s).bitmap ≡ freed_map n k i s.bitmap
  freed_state-bitmap n zero i s = refl
  freed_state-bitmap n (suc k) i s =
      freed_state-bitmap n k (i + 1) (with_map (bit_clear s.bitmap (n.ptrs i)) s)

  pub freed_state-IsDirectory :
      (n : Inode) (k i : ℕ) (s : Fs) (m : Block) (parent block : ℕ) (d : Block)
      → IsDirectory s m parent block d
      → IsDirectory (freed_state n k i s) m parent block d
  freed_state-IsDirectory n zero i s m parent block d dir = dir
  freed_state-IsDirectory n (suc k) i s m parent block d dir =
      freed_state-IsDirectory n k (i + 1) (with_map (bit_clear s.bitmap (n.ptrs i)) s) m parent
        block d (IsDirectory-with_map io s m (bit_clear s.bitmap (n.ptrs i)) parent block d dir)
