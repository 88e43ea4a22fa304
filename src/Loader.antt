-- ===== src/Loader.antt =====
-- The loading of programs in project1: `exec_file` of part-2.c and of part-3.c. The address space and
-- the system calls are the kernel's, and stand behind an interface.
pub mod Bounds
pub mod Image
pub mod Unload
pub mod Tests
use cs5600_computer_systems.Prelude.{
  ℕ, ◌+◌, ◌-◌, ◌*◌, ◌/◌, ◌%◌, ◌^◌, ◌≤◌, ◌<◌, ◌≡◌, Bool, true, false, ◌&&◌, Option, none, some, List,
  [], ◌∷◌, ◌++◌, ltb, leb, ◌==◌, if◌then◌else◌, Str,
}
use cs5600_computer_systems.Console.{Input}

-- The fields of `struct elf64_phdr` that the code reads. `p_vaddr` is an address as a number.
pub record Phdr : Type 0 where
  pub p_type : ℕ
  pub p_offset : ℕ
  pub p_vaddr : ℕ
  pub p_filesz : ℕ
  pub p_memsz : ℕ

-- A program file whose header and program headers can be read: the entry point of the header, the
-- `e_phnum` program headers, its size, and its bytes.
pub record Elf : Type 0 where
  pub e_entry : ℕ
  pub phdrs : List Phdr
  pub size : ℕ
  pub bytes : ℕ → ℕ

abbrev pub within : ℕ → ℕ → ℕ → Bool
within a len b = leb a b && ltb b (a + len)

-- The kernel and the loaded programs. A `Space` is the process: its memory, and the position of the file that it
-- has open. `peek` is the byte at an address, `none` where nothing is mapped. `open_elf` is the `open` of a file
-- and the reads of its headers. `mmap addr len` asks for an anonymous mapping at an address, which is only a
-- hint: its result is where the mapping is, `none` for MAP_FAILED. `lseek` gets an offset in 64 bits, and
-- `read_file f addr n` reads `n` bytes from the position on into memory. `call` runs a program from its entry
-- point on until it returns: it gets the strings that `do_getarg` yields and what is typed, of which
-- `do_readline` may take a part.
pub record Kernel : Type 1 where
  pub Space : Type 0
  pub peek : Space → ℕ → Option ℕ
  pub open_elf : Str → Option Elf
  pub mmap : ℕ → ℕ → Space → Option (ℕ × Space)
  pub munmap : ℕ → ℕ → Space → Space
  pub position : Space → ℕ
  pub lseek : ℕ → Space → Space
  pub read_file : Elf → ℕ → ℕ → Space → Space
  pub call : ℕ → List Str → List Input → Space → List Input × Space
  pub peek-mmap :
      (a len : ℕ) (s s' : Space) (b : ℕ)
      → len % 4096 ≡ 0
      → mmap a len s ≡ some (a, s')
      → peek s' b ≡ (if within a len b then some 0 else peek s b)
  pub peek-munmap :
      (a len : ℕ) (s : Space) (b : ℕ)
      → len % 4096 ≡ 0
      → peek (munmap a len s) b ≡ (if within a len b then none else peek s b)
  pub position-lseek : (off : ℕ) (s : Space) → off < 2 ^ 63 → position (lseek off s) ≡ off
  pub peek-lseek : (off : ℕ) (s : Space) (b : ℕ) → peek (lseek off s) b ≡ peek s b
  pub peek-read_file :
      (f : Elf) (off a n : ℕ) (s : Space) (b : ℕ)
      → position s ≡ off
      → off + n ≤ f.size
      → ((c : ℕ) → within a n c ≡ true → (v : ℕ) × (peek s c ≡ some v))
      → peek (read_file f a n s) b
        ≡ (if within a n b then some (f.bytes (off + (b - a))) else peek s b)

-- PT_LOAD
abbrev pub pt_load : ℕ
pt_load = 1

abbrev pub is_load : Phdr → Bool
is_load p = p.p_type == pt_load

-- ROUND_UP and ROUND_DOWN with 4096, in 64 bits.
unfoldable pub round_up : ℕ → ℕ
round_up a = (a + 4095) % 2 ^ 64 / 4096 * 4096

unfoldable pub round_down : ℕ → ℕ
round_down a = a / 4096 * 4096

-- An unsigned number stored in an `int`, as the 64 bits that the system call gets.
unfoldable pub int_size : ℕ → ℕ
int_size v = if leb 2147483648 (v % 2 ^ 32) then v % 2 ^ 32 + (2 ^ 64 - 2 ^ 32) else v % 2 ^ 32

-- `desired_addr` and `len` of a segment, for programs that are moved up by `base`.
unfoldable pub region_addr : ℕ → Phdr → ℕ
region_addr base p = round_down ((base + p.p_vaddr) % 2 ^ 64)

unfoldable pub region_len : Phdr → ℕ
region_len p = int_size (round_up p.p_memsz)

abbrev pub region : ℕ → Phdr → ℕ × ℕ
region base p = (region_addr base p, region_len p)

-- Where part-2.c puts programs.
abbrev pub part_2_base : ℕ
part_2_base = 0x80000000

module _ ⦃K : Kernel⦄ where
  -- One round of the loop over the program headers of part-2.c: the regions so far, and the address
  -- space. Where the mapping is placed is not looked at, nor what `lseek` and `read` return; their wrappers take
  -- the offset and the number of bytes as an `int`. `none` is the exit after a failed `mmap`.
  unfoldable pub load_segment :
      ℕ → Elf → Phdr → List (ℕ × ℕ) × K.Space → Option (List (ℕ × ℕ) × K.Space)
  load_segment base f p (regions, s) =
      if is_load p
      then elim (K.mmap (region_addr base p) (region_len p) s) [
        | none ↦ none
        | some (buf, s') ↦ some (
          regions ++ region base p ∷ [],
          K.read_file f ((base + p.p_vaddr) % 2 ^ 64) (int_size p.p_filesz)
              (K.lseek (int_size p.p_offset) s'),
        )
      ]
      else some (regions, s)

  -- The loop.
  unfoldable pub load_segments :
      ℕ → Elf → List Phdr → List (ℕ × ℕ) × K.Space → Option (List (ℕ × ℕ) × K.Space)
  load_segments base f [] st = some st
  load_segments base f (p ∷ ps) st = elim (load_segment base f p st) [
    | none ↦ none
    | some st' ↦ load_segments base f ps st'
  ]

  -- `for (j ...) munmap(allocated_mem_addr[j], allocated_mem_size[j])`
  unfoldable pub unmap_all : List (ℕ × ℕ) → K.Space → K.Space
  unmap_all [] s = s
  unmap_all ((a, len) ∷ rs) s = unmap_all rs (K.munmap a len s)

  -- `exec_file(filename)` of part-2.c, with the strings of `argv` and what is typed: `none` is an exit.
  unfoldable pub exec_file : Str → List Str → List Input → K.Space → Option (List Input × K.Space)
  exec_file filename argv input s = elim (K.open_elf filename) [
    | none ↦ none
    | some f ↦ elim (load_segments part_2_base f f.phdrs ([], s)) [
      | none ↦ none
      | some (regions, s') ↦
          let (rest, t) = K.call ((f.e_entry + part_2_base) % 2 ^ 64) argv input s' in
          some (rest, unmap_all regions t)
    ]
  ]

  -- `exec_file(filename, offset)` of part-3.c: the entry point, and the address space.
  unfoldable pub exec_file_at : Str → ℕ → K.Space → Option (ℕ × K.Space)
  exec_file_at filename offset s = elim (K.open_elf filename) [
    | none ↦ none
    | some f ↦ elim (load_segments offset f f.phdrs ([], s)) [
      | none ↦ none
      | some (regions, s') ↦ some ((f.e_entry + offset) % 2 ^ 64, s')
    ]
  ]
