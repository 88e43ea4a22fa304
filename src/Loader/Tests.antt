-- ===== src/Loader/Tests.antt =====
-- A kernel of one address space, a program file, and the theorems on the loader at work on them.
use cs5600_computer_systems.Prelude.{
  ℕ, ◌+◌, ◌-◌, ◌*◌, ◌/◌, ◌%◌, ◌^◌, ◌≤◌, ◌<◌, ◌≡◌, ◌↔◌, refl, Bool, true, false, ◌&&◌, ◌||◌, Option,
  none, some, List, [], ◌∷◌, Str, str_eq, arith, ltb, leb, ◌==◌, if◌then◌else◌, ap, sym,
}
use mathlib.Core.List.{Memᴰ}
use cs5600_computer_systems.Console.{Input, byte}
use cs5600_computer_systems.Loader.{
  Phdr, Elf, Kernel, within, is_load, region_addr, region_len, round_up, round_down, int_size,
  exec_file, exec_file_at, part_2_base,
}
use cs5600_computer_systems.Loader.Bounds.{region_covers}
use cs5600_computer_systems.Loader.Image.{
  Memory, Fits, in_region, segment, Loadable, image, regions, TakesHints,
}
use cs5600_computer_systems.Loader.Unload.{
  covered, segment_byte, exec_file_at-Loaded, exec_file-restores,
}

abbrev pub program_name : Str
program_name = b'w' ∷ b'c' ∷ []

-- Two segments to load, with a header of another kind before them. The second begins within a page.
abbrev note : Phdr
note = record { p_type = 4; p_offset = 0; p_vaddr = 0; p_filesz = 9; p_memsz = 9 }

abbrev code : Phdr
code = record { p_type = 1; p_offset = 0; p_vaddr = 4096; p_filesz = 100; p_memsz = 100 }

abbrev variables : Phdr
variables = record { p_type = 1; p_offset = 100; p_vaddr = 12304; p_filesz = 50; p_memsz = 60 }

abbrev pub program : Elf
program = record {
  e_entry = 4100;
  phdrs = note ∷ code ∷ variables ∷ [];
  size = 150;
  bytes = λ o. o + 1;
}

abbrev pub mapped : ℕ → ℕ → Memory → Memory
mapped a len m b = if within a len b then some 0 else m b

abbrev pub unmapped : ℕ → ℕ → Memory → Memory
unmapped a len m b = if within a len b then none else m b

abbrev pub filled : Elf → ℕ → ℕ → ℕ → Memory → Memory
filled f off a n m b = if within a n b then some (f.bytes (off + (b - a))) else m b

-- A memory, and the position of the open file.
abbrev pub Process : Type 0
Process = Memory × ℕ

abbrev pub map_at : ℕ → ℕ → Process → Option (ℕ × Process)
map_at a len (m, at) = some (a, (mapped a len m, at))

pub same_mapped :
    (a len : ℕ) (s s' : Process) (b : ℕ)
    → map_at a len s ≡ some (a, s')
    → s'.0 b ≡ mapped a len s.0 b
same_mapped a len s s' b e =
    sym (ap (λ (o : Option (ℕ × Process)). elim o [ none ↦ s'.0 b | some p ↦ p.1.0 b ]) e)

-- Where the stack is.
abbrev pub stack : ℕ → Bool
stack b = within 0x7ffff000 4096 b

abbrev pub used : ℕ → Memory → Memory
used e m b = if b == e then some 7 else if b == 0x7ffff008 then some 3 else m b

-- A program that writes to its own first byte and to the stack, and takes one byte that is typed.
abbrev pub run_at : ℕ → List Str → List Input → Process → List Input × Process
run_at e argv [] (m, at) = ([], (used e m, at))
run_at e argv (i ∷ input) (m, at) = (input, (used e m, at))

-- An address space of bytes. `mmap` takes every hint.
instance unfoldable pub kernel : Kernel
kernel = record {
  Space = Process;
  peek = λ p. p.0;
  open_elf = λ t. if str_eq t program_name then some program else none;
  mmap = map_at;
  munmap = λ a len p. (unmapped a len p.0, p.1);
  position = λ p. p.1;
  lseek = λ off p. (p.0, off);
  read_file = λ f a n p. (filled f p.1 a n p.0, p.1 + n);
  call = run_at;
  peek-mmap = λ a len s s' b pages e. same_mapped a len s s' b e;
  peek-munmap = λ a len s b pages. refl;
  position-lseek = λ off s small. refl;
  peek-lseek = λ off s b. refl;
  peek-read_file = λ f off a n s b at inside mapped.
      ap (λ o. if within a n b then some (f.bytes (o + (b - a))) else s.0 b) at;
}

pub hints : TakesHints kernel
unfolding kernel
hints a len s aligned pages some_bytes above low free = ((mapped a len s.0, s.1), refl)

-- Nothing is mapped.
abbrev pub start : kernel.Space
unfolding kernel
start = (λ b. none, 0)

pub opened : kernel.open_elf program_name ≡ some program
unfolding kernel str_eq
opened = refl

code-Fits : Fits part_2_base program code
unfolding region_len round_up int_size
code-Fits = record {
  low = omega arith;
  above = omega arith;
  short = omega arith;
  some_bytes = omega arith;
  seekable = omega arith;
  in_file = omega arith;
  in_region = omega arith;
}

variables-Fits : Fits part_2_base program variables
unfolding region_len round_up int_size
variables-Fits = record {
  low = omega arith;
  above = omega arith;
  short = omega arith;
  some_bytes = omega arith;
  seekable = omega arith;
  in_file = omega arith;
  in_region = omega arith;
}

code_region : (b : ℕ) → in_region part_2_base code b ≡ (leb 0x80001000 b && ltb b 0x80002000)
unfolding region_addr region_len round_up round_down int_size
code_region b = refl

variables_region :
    (b : ℕ) → in_region part_2_base variables b ≡ (leb 0x80003000 b && ltb b 0x80004000)
unfolding region_addr region_len round_up round_down int_size
variables_region b = refl

apart :
    (b : ℕ)
    → in_region part_2_base variables b ≡ true
    → segment part_2_base program code (λ c. none) b ≡ none
apart b inside = let e = variables_region b in let e' = code_region b in ground (arith, e, e')

pub loadable : Loadable part_2_base program program.phdrs (kernel.peek start)
unfolding kernel
loadable = (
  λ h. absurd (clash h),
  (λ h. (code-Fits, λ b inside. refl), (λ h. (variables-Fits, apart), tt)),
)
  where
    clash : false ≡ true → ⊥
    clash h = cc

-- What the program writes lies in the region of its code.
first_byte :
    (m : Memory) (b : ℕ)
    → covered (regions part_2_base program.phdrs) b ≡ false
    → stack b ≡ false
    → used ((program.e_entry + part_2_base) % 2 ^ 64) m b ≡ m b
first_byte m b out own =
    let e = code_region b in
    let inside : in_region part_2_base code b ≡ false =
      first (in_region part_2_base code b) (in_region part_2_base variables b || false) out in
    ground (arith, e, inside)
  where
    first : (x y : Bool) → (x || y) ≡ false → x ≡ false
    first false y h = refl
    first true y h = h

pub polite :
    (argv : List Str) (input : List Input) (t : kernel.Space) (b : ℕ)
    → covered (regions part_2_base program.phdrs) b ≡ false
    → stack b ≡ false
    → kernel.peek (kernel.call ((program.e_entry + part_2_base) % 2 ^ 64) argv input t).1 b
      ≡ kernel.peek t b
unfolding kernel
polite argv [] t b out own = first_byte t.0 b out own
polite argv (i ∷ input) t b out own = first_byte t.0 b out own

region_covers_example :
    ((b : ℕ)
      → part_2_base + variables.p_vaddr ≤ b
      → b < part_2_base + variables.p_vaddr + variables.p_memsz
      → (region_addr part_2_base variables ≤ b)
        × (b < region_addr part_2_base variables + region_len variables))
    ↔ ((part_2_base + variables.p_vaddr) % 4096 + variables.p_memsz
        ≤ (variables.p_memsz + 4095) / 4096 * 4096)
region_covers_example =
    region_covers part_2_base variables (omega arith) (omega arith) (omega arith)

exec_file_at-Loaded_example :
    (s' : kernel.Space) × (exec_file_at program_name part_2_base start
      ≡ some ((program.e_entry + part_2_base) % 2 ^ 64, s'))
    × ((p : Phdr) (b : ℕ)
        → Memᴰ p program.phdrs
        → is_load p ≡ true
        → in_region part_2_base p b ≡ true
        → kernel.peek s' b ≡ some (segment_byte part_2_base program p b))
    × ((b : ℕ)
        → covered (regions part_2_base program.phdrs) b ≡ false
        → kernel.peek s' b ≡ kernel.peek start b)
exec_file_at-Loaded_example =
    exec_file_at-Loaded hints program_name program part_2_base start opened loadable

exec_file-restores_example :
    (t s' : kernel.Space) × (kernel.peek t
      ≡ image part_2_base program program.phdrs (kernel.peek start))
    × (exec_file program_name (program_name ∷ []) (byte 65 ∷ []) start
        ≡ some (
          (kernel.call
              ((program.e_entry + part_2_base) % 2 ^ 64)
              (program_name ∷ [])
              (byte 65 ∷ [])
              t).0,
          s',
        ))
    × ((b : ℕ) → stack b ≡ false → kernel.peek s' b ≡ kernel.peek start b)
exec_file-restores_example =
    exec_file-restores hints program_name (program_name ∷ []) (byte 65 ∷ []) program stack start
      opened loadable (polite (program_name ∷ []) (byte 65 ∷ []))
