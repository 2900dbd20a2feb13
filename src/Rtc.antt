-- ===== src/Rtc.antt =====
-- The real-time clock of student-distrib/rtc.c. What a read of the CMOS port returns is the device's
-- choice, an argument; `out` holds the port writes, the last first.
pub mod Rate
use apoll_os.Prelude.{
  ℕ, zero, suc, ◌+◌, ◌-◌, ◌*◌, ◌/◌, ◌%◌, bit_and, bit_or, Option, none, some, List, ◌∷◌, ◌==◌,
  if◌then◌else◌, get_elem?, ◌>>=◌, u8, minus_one, slt,
}
use apoll_os.Pic
use apoll_os.Pic.{Pic}

abbrev pub rtc_port : ℕ
rtc_port = 0x70

abbrev pub cmos_port : ℕ
cmos_port = 0x71

abbrev pub rtc_reg_a : ℕ
rtc_reg_a = 0x8a

abbrev pub rtc_reg_b : ℕ
rtc_reg_b = 0x8b

abbrev pub rtc_reg_c : ℕ
rtc_reg_c = 0x8c

abbrev pub rtc_irq_line : ℕ
rtc_irq_line = 8

pub record Rtc : Type 0 where
  pub int_occur : ℕ
  pub out : List (ℕ × ℕ)

abbrev pub outb : ℕ → ℕ → List (ℕ × ℕ) → List (ℕ × ℕ)
outb byte port out = (port, byte) ∷ out

-- Select a register, read it, select it again, and write a byte.
abbrev pub select_write : ℕ → ℕ → Rtc → Rtc
select_write reg byte r = record r {
  out = outb byte cmos_port (outb reg rtc_port (outb reg rtc_port r.out));
}

pub rtc_handler : Rtc × Pic → Rtc × Pic
rtc_handler (r, p) =
    (record r { int_occur = 1; out = outb rtc_reg_c rtc_port r.out }, Pic.send_eoi rtc_irq_line p)

-- `prev_b` and `prev_a` are what the device answers.
pub rtc_open : ℕ → ℕ → Rtc × Pic → ℕ × Rtc × Pic
rtc_open prev_b prev_a (r, p) =
    let r1 = select_write rtc_reg_b (u8 (bit_or prev_b 0x40)) r in
    let r2 = select_write rtc_reg_a (u8 (bit_or (bit_and prev_a 0xf0) 15)) r1 in
    (0, record r2 { int_occur = 0 }, Pic.enable_irq rtc_irq_line p)

pub rtc_close : ℕ → Rtc × Pic → ℕ × Rtc × Pic
rtc_close prev_a (r, p) =
    let p' = Pic.disable_irq rtc_irq_line p in
    (0, select_write rtc_reg_a (u8 (bit_or (bit_and prev_a 0xf0) 0)) r, p')

-- `none` while no interrupt has occurred: the code spins.
pub rtc_read : Rtc → Option (ℕ × Rtc)
rtc_read r = if r.int_occur == 0 then none else some (0, record r { int_occur = 0 })

-- `while (freq > 1) { rate--; freq >>= 1; }` over an int32_t and a char. The fuel is 32 rounds, one
-- for each bit.
rate_loop : ℕ → ℕ → ℕ → ℕ
rate_loop zero freq rate = rate
rate_loop (suc fuel) freq rate =
    let next = rate_loop fuel (freq / 2) ((rate + 256 - 1) % 256) in
    if slt 1 freq then next else rate

-- The four bytes of the buffer, little-endian.
unfoldable pub word_of : List ℕ → Option ℕ
word_of buf = do
  a ← get_elem? buf 0
  b ← get_elem? buf 1
  c ← get_elem? buf 2
  d ← get_elem? buf 3
  some (a + b * 256 + c * 65536 + d * 16777216)

pub rate_of : ℕ → ℕ
unfolding rate_loop
rate_of freq = rate_loop 32 freq (if freq == 0 then 0 else 16)

-- A null buffer is `none`; the outer `none` is a fault.
unfoldable pub rtc_write : ℕ → Option (List ℕ) → ℕ → Rtc → Option (ℕ × Rtc)
rtc_write prev_a none nbytes r = some (minus_one, r)
rtc_write prev_a (some buf) nbytes r = if slt nbytes 4 then some (minus_one, r) else (do
  freq ← word_of buf
  some (0, select_write rtc_reg_a (u8 (bit_or (bit_and prev_a 0xf0) (rate_of freq))) r))
