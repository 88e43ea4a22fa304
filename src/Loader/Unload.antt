-- ===== src/Loader/Unload.antt =====
-- What the memory of a loaded program holds: within a segment, beside it, and after the unloading.
use cs5600_computer_systems.Prelude.{
  clash, ℕ, ◌+◌, ◌-◌, ◌%◌, ◌^◌, ◌≡◌, refl, Bool, true, false, ◌&&◌, ◌||◌, Option, none, some, List,
  [], ◌∷◌, Str, arith, if◌then◌else◌, Bool-cases, inl, inr, ap, ◌∙◌, sym, subst,
}
use mathlib.Core.List.{Memᴰ}
use cs5600_computer_systems.Console.{Input}
use cs5600_computer_systems.Loader.{
  Phdr, Elf, Kernel, within, is_load, region_len, unmap_all, exec_file, exec_file_at, part_2_base,
}
use cs5600_computer_systems.Loader.Bounds.{region_len-eq}
use cs5600_computer_systems.Loader.Image.{
  Memory, Fits, in_region, segment, loaded, Loadable, image, regions, TakesHints, Fits-in_region,
  load_segments-image,
}

or_false : {x y : Bool} → (x || y) ≡ false → (x ≡ false) × (y ≡ false)
or_false {x = true} {y} h = absurd (clash refl h)
or_false {x = false} {y} h = (refl, h)

or_true : {x y : Bool} → x ≡ false → (x || y) ≡ true → y ≡ true
or_true {x = true} {y} p q = absurd (clash refl p)
or_true {x = false} {y} p q = q

and_true : {x y : Bool} → (x && y) ≡ true → (x ≡ true) × (y ≡ true)
and_true {x = false} {y} h = absurd (clash h refl)
and_true {x = true} {y} h = (refl, h)

and_false : {x y : Bool} → x ≡ true → (x && y) ≡ false → y ≡ false
and_false {x = false} {y} p q = absurd (clash p refl)
and_false {x = true} {y} p q = q

apart : {o : Option ℕ} {v : ℕ} → o ≡ some v → o ≡ none → ⊥
apart p q = cc

not_true : {b : Bool} → (b ≡ true → ⊥) → b ≡ false
not_true {b} h = elim (Bool-cases b) [ inl holds ↦ absurd (h holds) | inr fails ↦ fails ]

-- A segment changes nothing outside of its region.
segment-outside :
    (base : ℕ) (f : Elf) (p : Phdr) (m : Memory) (b : ℕ)
    → Fits base f p
    → in_region base p b ≡ false
    → segment base f p m b ≡ m b
segment-outside base f p m b fits unmapped =
    let unread : within (base + p.p_vaddr) p.p_filesz b ≡ false =
      not_true (λ inside. clash (Fits-in_region base f p b fits inside) unmapped) in
    rw (unread, unmapped) refl

loaded-outside :
    (base : ℕ) (f : Elf) (p : Phdr) (m : Memory) (b : ℕ)
    → (is_load p ≡ true → Fits base f p × (in_region base p b ≡ false))
    → loaded base f p m b ≡ m b
loaded-outside base f p m b h = elim (Bool-cases (is_load p)) [
  | inl load ↦ rw load (segment-outside base f p m b (h load).0 (h load).1)
  | inr other ↦ rw other refl
]

-- Later segments leave alone what is mapped.
image-keeps :
    (base : ℕ) (f : Elf) (ps : List Phdr) (m : Memory) (b v : ℕ)
    → Loadable base f ps m
    → m b ≡ some v
    → image base f ps m b ≡ some v
image-keeps base f [] m b v ok here = here
image-keeps base f (p ∷ ps) m b v ok here = image-keeps base f ps (loaded base f p m) b v ok.1 (
    loaded-outside base f p m b
      (λ load. ((ok.0 load).0, not_true (λ inside. apart here ((ok.0 load).1 b inside))))
    ∙ here)

-- The bytes of a segment, with zeros behind them up to the end of its region.
abbrev pub segment_byte : ℕ → Elf → Phdr → ℕ → ℕ
segment_byte base f p b =
    if within (base + p.p_vaddr) p.p_filesz b
    then f.bytes (p.p_offset + (b - (base + p.p_vaddr)))
    else 0

segment-inside :
    (base : ℕ) (f : Elf) (p : Phdr) (m : Memory) (b : ℕ)
    → in_region base p b ≡ true
    → segment base f p m b ≡ some (segment_byte base f p b)
segment-inside base f p m b inside = elim (Bool-cases (within (base + p.p_vaddr) p.p_filesz b)) [
  | inl read ↦ rw read refl
  | inr unread ↦ rw (unread, inside) refl
]

pub image-inside :
    (base : ℕ) (f : Elf) (p : Phdr) (ps : List Phdr) (m : Memory) (b : ℕ)
    → Loadable base f ps m
    → Memᴰ p ps
    → is_load p ≡ true
    → in_region base p b ≡ true
    → image base f ps m b ≡ some (segment_byte base f p b)
image-inside base f p [] m b ok there load inside = elim there [ ]
image-inside base f p (q ∷ ps) m b ok (Memᴰ.head same) load inside =
    image-keeps base f ps (loaded base f q m) b (segment_byte base f p b) ok.1 (
      subst (λ (r : Phdr). loaded base f r m b ≡ some (segment_byte base f p b)) same
        (rw load (segment-inside base f p m b inside)))
image-inside base f p (q ∷ ps) m b ok (Memᴰ.tail there) load inside =
    image-inside base f p ps (loaded base f q m) b ok.1 there load inside

abbrev pub covered : List (ℕ × ℕ) → ℕ → Bool
covered [] b = false
covered ((a, len) ∷ rs) b = within a len b || covered rs b

covered-cons :
    (base : ℕ) (p : Phdr) (ps : List Phdr) (b : ℕ)
    → covered (regions base (p ∷ ps)) b
      ≡ ((is_load p && in_region base p b) || covered (regions base ps) b)
covered-cons base p ps b = elim (Bool-cases (is_load p)) [
  | inl load ↦ rw load refl
  | inr other ↦ rw other refl
]

-- Where no region is, the image is the old memory.
pub image-outside :
    (base : ℕ) (f : Elf) (ps : List Phdr) (m : Memory) (b : ℕ)
    → Loadable base f ps m
    → covered (regions base ps) b ≡ false
    → image base f ps m b ≡ m b
image-outside base f [] m b ok out = refl
image-outside base f (p ∷ ps) m b ok out =
    let (here, rest) = or_false (sym (covered-cons base p ps b) ∙ out) in
    image-outside base f ps (loaded base f p m) b ok.1 rest
    ∙ loaded-outside base f p m b (λ load. ((ok.0 load).0, and_false load here))

-- Where one is, nothing was mapped.
free_before :
    (base : ℕ) (f : Elf) (ps : List Phdr) (m : Memory) (b : ℕ)
    → Loadable base f ps m
    → covered (regions base ps) b ≡ true
    → m b ≡ none
free_before base f [] m b ok cover = absurd (clash cover refl)
free_before base f (p ∷ ps) m b ok cover = elim (Bool-cases (is_load p && in_region base p b)) [
  | inl here ↦ (ok.0 (and_true here).0).1 b (and_true here).1
  | inr apart ↦
      sym (loaded-outside base f p m b (λ load. ((ok.0 load).0, and_false load apart)))
      ∙ free_before base f ps (loaded base f p m) b ok.1
          (or_true apart (sym (covered-cons base p ps b) ∙ cover))
]

-- Without its regions, a memory that is as before elsewhere is as before.
unmapped :
    (base : ℕ) (f : Elf) (ps : List Phdr) (m : Memory) (b : ℕ) {o : Option ℕ}
    → Loadable base f ps m
    → (covered (regions base ps) b ≡ false → o ≡ m b)
    → (if covered (regions base ps) b then none else o) ≡ m b
unmapped base f ps m b ok out = elim (Bool-cases (covered (regions base ps) b)) [
  | inl cover ↦ rw cover (sym (free_before base f ps m b ok cover))
  | inr bare ↦ rw bare (out bare)
]

-- All regions are a number of whole pages long.
abbrev AllPages : List (ℕ × ℕ) → Type 0
AllPages [] = Unit
AllPages ((a, len) ∷ rs) = (len % 4096 ≡ 0) × AllPages rs

regions-AllPages :
    (base : ℕ) (f : Elf) (ps : List Phdr) (m : Memory)
    → Loadable base f ps m
    → AllPages (regions base ps)
regions-AllPages base f [] m ok = tt
regions-AllPages base f (p ∷ ps) m ok = elim (Bool-cases (is_load p)) [
  | inl load ↦
      let fits = (ok.0 load).0 in
      let pages : region_len p % 4096 ≡ 0 = omega (arith, region_len-eq p fits.short) in
      rw load (pages, regions-AllPages base f ps (loaded base f p m) ok.1)
  | inr other ↦ rw other (regions-AllPages base f ps (loaded base f p m) ok.1)
]

module _ ⦃K : Kernel⦄ where
  peek-unmap_all :
      (rs : List (ℕ × ℕ)) (s : K.Space) (b : ℕ)
      → AllPages rs
      → K.peek (unmap_all rs s) b ≡ (if covered rs b then none else K.peek s b)
  unfolding unmap_all
  peek-unmap_all [] s b pages = refl
  peek-unmap_all ((a, len) ∷ rs) s b (page, pages) =
      peek-unmap_all rs (K.munmap a len s) b pages
      ∙ ap (λ (o : Option ℕ). if covered rs b then none else o) (K.peek-munmap a len s b page)
      ∙ merge (within a len b) (covered rs b) (K.peek s b)
    where
      merge :
          (x y : Bool) (o : Option ℕ)
          → (if y then none else if x then none else o) ≡ (if x || y then none else o)
      merge true true o = refl
      merge true false o = refl
      merge false y o = refl

  -- If `mmap` places a mapping where it was asked to whenever the place is free and in the lower
  -- half of the address space from 65536 on, the program file can be opened and read, and its
  -- segments lie there, begin within the first 2 ^ 31 bytes of the file and fit their regions,
  -- which are free one after the other: `exec_file` of part 3 returns the entry point plus the
  -- offset; every byte in the region of a PT_LOAD header is the byte of the file at its place,
  -- or 0 behind the segment's bytes; and memory outside of the regions is as before.
  pub exec_file_at-Loaded :
      TakesHints K
      → (filename : Str) (f : Elf) (offset : ℕ) (s : K.Space) → K.open_elf filename ≡ some f
      → Loadable offset f f.phdrs (K.peek s)
      → (s' : K.Space) × (exec_file_at filename offset s ≡ some ((f.e_entry + offset) % 2 ^ 64, s'))
        × ((p : Phdr) (b : ℕ)
            → Memᴰ p f.phdrs
            → is_load p ≡ true
            → in_region offset p b ≡ true
            → K.peek s' b ≡ some (segment_byte offset f p b))
        × ((b : ℕ) → covered (regions offset f.phdrs) b ≡ false → K.peek s' b ≡ K.peek s b)
  unfolding exec_file_at
  exec_file_at-Loaded hints filename f offset s opened ok =
      let (t, run, mem) = load_segments-image hints offset f f.phdrs [] s ok in
      let same = λ (b : ℕ). ap (λ (m : Memory). m b) mem in
      (
        t,
        rw (exec_file_at, opened, run) refl,
        λ p b there load inside.
            same b ∙ image-inside offset f p f.phdrs (K.peek s) b ok there load inside,
        λ b out. same b ∙ image-outside offset f f.phdrs (K.peek s) b ok out,
      )

  -- If `mmap` places a mapping where it was asked to whenever the place is free and in the lower
  -- half of the address space from 65536 on, the program file can be opened and read, its
  -- segments lie there, begin within the first 2 ^ 31 bytes of the file and fit their regions,
  -- which are free one after the other, and the program returns and leaves all memory alone but
  -- its regions and the addresses in `stack`: `exec_file` of part 2 ends; the program was called
  -- with memory as the file describes it, what it leaves of the input is what the shell goes on
  -- with, and afterwards every byte of the address space that is not in `stack` is as it was
  -- before: the regions are unmapped again.
  pub exec_file-restores :
      TakesHints K
      → (filename : Str) (argv : List Str) (input : List Input) (f : Elf) (stack : ℕ → Bool)
        (s : K.Space)
      → K.open_elf filename ≡ some f
      → Loadable part_2_base f f.phdrs (K.peek s)
      → ((t : K.Space) (b : ℕ)
          → covered (regions part_2_base f.phdrs) b ≡ false
          → stack b ≡ false
          → K.peek (K.call ((f.e_entry + part_2_base) % 2 ^ 64) argv input t).1 b ≡ K.peek t b)
      → (t s' : K.Space) × (K.peek t ≡ image part_2_base f f.phdrs (K.peek s))
        × (exec_file filename argv input s
            ≡ some ((K.call ((f.e_entry + part_2_base) % 2 ^ 64) argv input t).0, s'))
        × ((b : ℕ) → stack b ≡ false → K.peek s' b ≡ K.peek s b)
  unfolding exec_file
  exec_file-restores hints filename argv input f stack s opened ok polite =
      let rs = regions part_2_base f.phdrs in
      let entry = (f.e_entry + part_2_base) % 2 ^ 64 in
      let (t, run, mem) = load_segments-image hints part_2_base f f.phdrs [] s ok in
      (
        t,
        unmap_all rs (K.call entry argv input t).1,
        mem,
        rw (exec_file, opened, run) refl,
        λ b own.
            peek-unmap_all rs (K.call entry argv input t).1 b
              (regions-AllPages part_2_base f f.phdrs (K.peek s) ok)
            ∙ unmapped part_2_base f f.phdrs (K.peek s) b ok (λ out.
              polite t b out own
              ∙ ap (λ (m : Memory). m b) mem
              ∙ image-outside part_2_base f f.phdrs (K.peek s) b ok out),
      )
