-- ===== src/Loader/Bounds.antt =====
-- The page arithmetic of the loader.
use cs5600_computer_systems.Prelude.{
  ℕ, ◌+◌, ◌-◌, ◌*◌, ◌/◌, ◌%◌, ◌^◌, ◌≤◌, ◌<◌, ◌≡◌, ◌↔◌, false, arith, leb,
}
use cs5600_computer_systems.Loader.{Phdr, round_up, round_down, int_size, region_addr, region_len}

-- Away from the end of 64 bits, `round_up` yields the least whole number of pages that is not smaller.
pub round_up_bounds :
    (a : ℕ)
    → a + 4095 < 2 ^ 64
    → (a ≤ round_up a) × (round_up a < a + 4096) × (round_up a % 4096 ≡ 0)
unfolding round_up
round_up_bounds a small = omega arith

-- A region's bounds, for a segment that lies within the address space and is smaller than 2 ^ 31 bytes.
pub region_addr-eq :
    (base : ℕ) (p : Phdr)
    → base + p.p_vaddr < 2 ^ 64
    → region_addr base p ≡ (base + p.p_vaddr) / 4096 * 4096
unfolding region_addr round_down
region_addr-eq base p small = omega arith

pub int_size-small : (v : ℕ) → v < 2 ^ 31 → int_size v ≡ v
unfolding int_size
int_size-small v small =
    let e : v % 2 ^ 32 ≡ v = omega arith in
    let pos : leb 2147483648 v ≡ false = ground arith in rw (e, pos)

pub region_len-eq :
    (p : Phdr) → p.p_memsz + 4095 < 2 ^ 31 → region_len p ≡ (p.p_memsz + 4095) / 4096 * 4096
unfolding region_len round_up int_size
region_len-eq p small =
    let e : (p.p_memsz + 4095) % 2 ^ 64 / 4096 * 4096 % 2 ^ 32 ≡ (p.p_memsz + 4095) / 4096 * 4096 =
      omega arith in
    let pos : leb 2147483648 ((p.p_memsz + 4095) / 4096 * 4096) ≡ false = ground arith in
    rw (e, pos)

-- For a segment of at least one byte and at most 2 ^ 31 - 4096 bytes that begins within the 64
-- bits of the address space: every address of the segment lies in the region that is mapped for
-- it exactly when the offset of the segment in its first page plus its size is at most its size
-- rounded up to whole pages.
pub region_covers :
    (base : ℕ) (p : Phdr)
    → base + p.p_vaddr < 2 ^ 64
    → p.p_memsz + 4095 < 2 ^ 31
    → 0 < p.p_memsz
    → ((b : ℕ)
        → base + p.p_vaddr ≤ b
        → b < base + p.p_vaddr + p.p_memsz
        → (region_addr base p ≤ b) × (b < region_addr base p + region_len p))
      ↔ ((base + p.p_vaddr) % 4096 + p.p_memsz ≤ (p.p_memsz + 4095) / 4096 * 4096)
region_covers base p small short some = (
  λ all. omega (
    arith,
    all (base + p.p_vaddr + p.p_memsz - 1) (omega arith) (omega arith),
    region_addr-eq base p small,
    region_len-eq p short,
  ),
  λ fits b lo hi. omega (arith, region_addr-eq base p small, region_len-eq p short),
)
