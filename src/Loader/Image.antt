-- ===== src/Loader/Image.antt =====
-- The memory that the loader makes, against the bytes of the program file.
use cs5600_computer_systems.Prelude.{
  ℕ, ◌+◌, ◌-◌, ◌%◌, ◌^◌, ◌≤◌, ◌<◌, ◌≡◌, refl, Bool, true, false, Option, none, some, List, [], ◌∷◌,
  ◌++◌, arith, if◌then◌else◌, Bool-cases, inl, inr, ap, ◌∙◌, sym, subst, fun_ext, append_assoc,
  append-nil,
}
use cs5600_computer_systems.Loader.{
  Phdr, Elf, Kernel, within, is_load, region, region_addr, region_len, load_segment, load_segments,
}
use cs5600_computer_systems.Loader.Bounds.{region_addr-eq, region_len-eq, int_size-small}

-- What a memory holds at each address; `none` where nothing is mapped.
abbrev pub Memory : Type 0
Memory = ℕ → Option ℕ

-- The segment lies from 65536 on in the lower half of the address space, it is shorter than 2 ^ 31 bytes, its
-- bytes lie within the file and begin within its first 2 ^ 31 bytes, and the place of these bytes lies within the
-- region that is mapped for it.
pub record Fits (base : ℕ) (f : Elf) (p : Phdr) : Type 0 where
  pub above : 65536 ≤ base + p.p_vaddr
  pub low : base + p.p_vaddr + p.p_memsz + 4096 < 2 ^ 47
  pub short : p.p_memsz + 4095 < 2 ^ 31
  pub some_bytes : 0 < p.p_memsz
  pub seekable : p.p_offset < 2 ^ 31
  pub in_file : p.p_offset + p.p_filesz ≤ f.size
  pub in_region : (base + p.p_vaddr) % 4096 + p.p_filesz ≤ region_len p

abbrev pub in_region : ℕ → Phdr → ℕ → Bool
in_region base p b = within (region_addr base p) (region_len p) b

-- A memory with the bytes of a segment, and zeros in the rest of its region.
abbrev pub segment : ℕ → Elf → Phdr → Memory → Memory
segment base f p m b =
    if within (base + p.p_vaddr) p.p_filesz b
    then some (f.bytes (p.p_offset + (b - (base + p.p_vaddr))))
    else if in_region base p b
    then some 0
    else m b

abbrev pub loaded : ℕ → Elf → Phdr → Memory → Memory
loaded base f p m = if is_load p then segment base f p m else m

-- The segments that are loaded fit, and the region of each is free when its turn comes.
abbrev pub Loadable : ℕ → Elf → List Phdr → Memory → Type 0
Loadable base f [] m = Unit
Loadable base f (p ∷ ps) m =
    (is_load p ≡ true → Fits base f p × ((b : ℕ) → in_region base p b ≡ true → m b ≡ none))
    × Loadable base f ps (loaded base f p m)

abbrev pub image : ℕ → Elf → List Phdr → Memory → Memory
image base f [] m = m
image base f (p ∷ ps) m = image base f ps (loaded base f p m)

-- The regions of the segments that are loaded.
abbrev pub regions : ℕ → List Phdr → List (ℕ × ℕ)
regions base [] = []
regions base (p ∷ ps) =
    let rest = regions base ps in if is_load p then region base p ∷ rest else rest

-- Where a region of the lower half of the address space from 65536 on is free, `mmap` maps it where it was asked to.
abbrev pub TakesHints : (K : Kernel) → Type 0
TakesHints K =
    (a len : ℕ) (s : K.Space)
    → a % 4096 ≡ 0
    → len % 4096 ≡ 0
    → 0 < len
    → 65536 ≤ a
    → a + len < 2 ^ 47
    → ((b : ℕ) → within a len b ≡ true → K.peek s b ≡ none)
    → (s' : K.Space) × (K.mmap a len s ≡ some (a, s'))

-- A segment's bytes lie within its region.
pub Fits-in_region :
    (base : ℕ) (f : Elf) (p : Phdr) (b : ℕ)
    → Fits base f p
    → within (base + p.p_vaddr) p.p_filesz b ≡ true
    → in_region base p b ≡ true
Fits-in_region base f p b fits inside =
    let e = region_addr-eq base p (omega (arith, fits.low)) in
    let room = fits.in_region in ground (arith, e, room)

module _ ⦃K : Kernel⦄ (hints : TakesHints K) where
  load_segment-loaded :
      (base : ℕ) (f : Elf) (p : Phdr) (rs : List (ℕ × ℕ)) (s : K.Space)
      → is_load p ≡ true
      → Fits base f p
      → ((b : ℕ) → in_region base p b ≡ true → K.peek s b ≡ none)
      → (s' : K.Space) × (load_segment base f p (rs, s) ≡ some (rs ++ region base p ∷ [], s'))
        × (K.peek s' ≡ segment base f p (K.peek s))
  unfolding load_segment
  load_segment-loaded base f p rs s load fits free =
      let a = region_addr base p in
      let len = region_len p in
      let ea = region_addr-eq base p (omega (arith, fits.low)) in
      let el = region_len-eq p fits.short in
      let (s1, mapped) =
        hints a len s (omega (arith, ea)) (omega (arith, el)) (omega (arith, el, fits.some_bytes))
          (omega (arith, ea, fits.above)) (omega (arith, ea, el, fits.low, fits.short)) free in
      let same : (base + p.p_vaddr) % 2 ^ 64 ≡ base + p.p_vaddr = omega (arith, fits.low) in
      let off = int_size-small p.p_offset fits.seekable in
      let n = int_size-small p.p_filesz (omega (arith, el, fits.short, fits.in_region)) in
      let s2 = K.lseek p.p_offset s1 in
      let zeros = λ (c : ℕ).
        K.peek-lseek p.p_offset s1 c ∙ K.peek-mmap a len s s1 c (omega (arith, el)) mapped in
      (
        K.read_file f (base + p.p_vaddr) p.p_filesz s2,
        rw (load, mapped, same, off, n),
        fun_ext λ b.
            K.peek-read_file f p.p_offset (base + p.p_vaddr) p.p_filesz s2 b
              (K.position-lseek p.p_offset s1 (omega (arith, fits.seekable))) fits.in_file
              (λ c inside. (0, zeros c ∙ rw (Fits-in_region base f p c fits inside) refl))
            ∙ ap
                (λ (v : Option ℕ).
                  if within (base + p.p_vaddr) p.p_filesz b
                  then some (f.bytes (p.p_offset + (b - (base + p.p_vaddr))))
                  else v)
                (zeros b),
      )

  load_segments-cons :
      (base : ℕ) (f : Elf) (p : Phdr) (ps : List Phdr) (st st' : List (ℕ × ℕ) × K.Space)
      → load_segment base f p st ≡ some st'
      → load_segments base f (p ∷ ps) st ≡ load_segments base f ps st'
  unfolding load_segments
  load_segments-cons base f p ps st st' run = rw (run, load_segments) refl

  load_segment-other :
      (base : ℕ) (f : Elf) (p : Phdr) (rs : List (ℕ × ℕ)) (s : K.Space)
      → is_load p ≡ false
      → load_segment base f p (rs, s) ≡ some (rs, s)
  unfolding load_segment
  load_segment-other base f p rs s other = rw other refl

  -- If the segments can be loaded, all are; the regions are noted, and memory is as the file describes it.
  pub load_segments-image :
      (base : ℕ) (f : Elf) (ps : List Phdr) (rs : List (ℕ × ℕ)) (s : K.Space)
      → Loadable base f ps (K.peek s)
      → (s' : K.Space) × (load_segments base f ps (rs, s) ≡ some (rs ++ regions base ps, s'))
        × (K.peek s' ≡ image base f ps (K.peek s))
  unfolding load_segments
  load_segments-image base f [] rs s ok = (s, ap (λ l. some (l, s)) (sym (append-nil rs)), refl)
  load_segments-image base f (p ∷ ps) rs s ok = elim (Bool-cases (is_load p)) [
    | inl load ↦
        let (fits, free) = ok.0 load in
        let (s1, run, mem) = load_segment-loaded base f p rs s load fits free in
        let now : loaded base f p (K.peek s) ≡ K.peek s1 = rw load (sym mem) in
        let (s', runs, mem') =
          load_segments-image base f ps (rs ++ region base p ∷ []) s1
            (subst (Loadable base f ps) now ok.1) in
        (
          s',
          rw load (
              load_segments-cons base f p ps (rs, s) _ run
              ∙ runs
              ∙ ap (λ l. some (l, s')) (append_assoc rs (region base p ∷ []) (regions base ps))),
          mem' ∙ ap (image base f ps) (sym now),
        )
    | inr other ↦
        let now : loaded base f p (K.peek s) ≡ K.peek s = rw other refl in
        let (s', runs, mem') =
          load_segments-image base f ps rs s (subst (Loadable base f ps) now ok.1) in
        (
          s',
          rw other (
              load_segments-cons base f p ps (rs, s) (rs, s)
                (load_segment-other base f p rs s other)
              ∙ runs),
          mem' ∙ ap (image base f ps) (sym now),
        )
  ]
