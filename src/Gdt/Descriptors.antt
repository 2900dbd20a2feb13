-- ===== src/Gdt/Descriptors.antt =====
-- The segment descriptors of student-distrib/x86_desc.h that `entry` of kernel.c makes.
use apoll_os.Prelude.{ℕ, ◌+◌, ◌*◌, ◌/◌, ◌%◌, ◌^◌, ◌<◌, bit_and, ◌≡◌, refl, arith, bit_and-field}
use apoll_os.Gdt.{SegDesc, set_params}

-- The address and the limit that the processor puts together from the fields.
abbrev pub base_of : SegDesc → ℕ
base_of d = d.base_31_24 * 2 ^ 24 + d.base_23_16 * 2 ^ 16 + d.base_15_00

abbrev pub limit_of : SegDesc → ℕ
limit_of d = d.seg_lim_19_16 * 2 ^ 16 + d.seg_lim_15_00

-- No field has more than its bits.
pub record FitsFields (d : SegDesc) : Type 0 where
  pub lim_low : d.seg_lim_15_00 < 2 ^ 16
  pub lim_high : d.seg_lim_19_16 < 2 ^ 4
  pub low : d.base_15_00 < 2 ^ 16
  pub middle : d.base_23_16 < 2 ^ 8
  pub high : d.base_31_24 < 2 ^ 8

-- For a 32-bit address and a limit below 2 ^ 20, the fields that are set in a segment descriptor
-- fit their bits, and the address and the limit that the processor puts together from them are
-- those that were given.
pub set_params-base_of :
    (addr lim : ℕ) (d : SegDesc)
    → addr < 2 ^ 32
    → lim < 2 ^ 20
    → (base_of (set_params addr lim d) ≡ addr)
      × (limit_of (set_params addr lim d) ≡ lim)
      × FitsFields (set_params addr lim d)
unfolding set_params
set_params-base_of addr lim d small short =
    let high : bit_and addr 0xff000000 ≡ addr / 2 ^ 24 * 2 ^ 24 =
      bit_and-field addr 24 8 0 (addr / 2 ^ 24) (addr % 2 ^ 24) 255 (omega arith) (omega arith)
        (omega arith) refl in
    let middle : bit_and addr 0x00ff0000 ≡ addr / 2 ^ 16 % 2 ^ 8 * 2 ^ 16 =
      bit_and-field addr 16 8 (addr / 2 ^ 24) (addr / 2 ^ 16 % 2 ^ 8) (addr % 2 ^ 16) 255
        (omega arith) (omega arith) (omega arith) refl in
    let low : bit_and addr 0x0000ffff ≡ addr % 2 ^ 16 * 2 ^ 0 =
      bit_and-field addr 0 16 (addr / 2 ^ 16) (addr % 2 ^ 16) 0 65535 (omega arith) (omega arith)
        (omega arith) refl in
    let lim_high : bit_and lim 0x000f0000 ≡ lim / 2 ^ 16 * 2 ^ 16 =
      bit_and-field lim 16 4 0 (lim / 2 ^ 16) (lim % 2 ^ 16) 15 (omega arith) (omega arith)
        (omega arith) refl in
    let lim_low : bit_and lim 0x0000ffff ≡ lim % 2 ^ 16 * 2 ^ 0 =
      bit_and-field lim 0 16 (lim / 2 ^ 16) (lim % 2 ^ 16) 0 65535 (omega arith) (omega arith)
        (omega arith) refl in
    (
      omega (arith, high, middle, low),
      omega (arith, lim_high, lim_low),
      record {
        lim_low = omega (arith, lim_low);
        lim_high = omega (arith, lim_high);
        low = omega (arith, low);
        middle = omega (arith, middle);
        high = omega (arith, high);
      },
    )
