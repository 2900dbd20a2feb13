-- ===== src/Pic.antt =====
-- The interrupt controllers of student-distrib/i8259.c. `out` holds the port writes, the last
-- first.
pub mod Lines
use apoll_os.Prelude.{
  ℕ, zero, suc, ◌+◌, ◌-◌, ◌*◌, bit_and, bit_or, ◌&&◌, List, ◌∷◌, leb, if◌then◌else◌, u8,
}

pub record Pic : Type 0 where
  pub master_mask : ℕ
  pub slave_mask : ℕ
  pub out : List (ℕ × ℕ)

abbrev pub master_port : ℕ
master_port = 0x20

abbrev pub slave_port : ℕ
slave_port = 0xa0

abbrev pub eoi : ℕ
eoi = 0x60

abbrev outb : ℕ → ℕ → List (ℕ × ℕ) → List (ℕ × ℕ)
outb byte port out = (port, byte) ∷ out

-- `mask = (mask << 1) + 1`, once for each line below.
enable_mask : ℕ → ℕ → ℕ
enable_mask zero mask = mask
enable_mask (suc k) mask = enable_mask k (u8 (mask * 2 + 1))

-- `mask = mask << 1`.
disable_mask : ℕ → ℕ → ℕ
disable_mask zero mask = mask
disable_mask (suc k) mask = disable_mask k (u8 (mask * 2))

pub enable_irq : ℕ → Pic → Pic
unfolding enable_mask
enable_irq irq_num p =
    if leb irq_num 15
    then (if leb irq_num 7
        then (let m : ℕ = bit_and p.master_mask (enable_mask irq_num 0xfe) in
            record p { master_mask = m; out = outb m (master_port + 1) p.out })
        else (let m : ℕ = bit_and p.slave_mask (enable_mask (irq_num - 8) 0xfe) in
            record p { slave_mask = m; out = outb m (slave_port + 1) p.out }))
    else p

pub disable_irq : ℕ → Pic → Pic
unfolding disable_mask
disable_irq irq_num p =
    if leb irq_num 15
    then (if leb irq_num 7
        then (let m : ℕ = bit_or p.master_mask (disable_mask irq_num 0x01) in
            record p { master_mask = m; out = outb m (master_port + 1) p.out })
        else (let m : ℕ = bit_or p.slave_mask (disable_mask (irq_num - 8) 0x01) in
            record p { slave_mask = m; out = outb m (slave_port + 1) p.out }))
    else p

unfoldable pub send_eoi : ℕ → Pic → Pic
send_eoi irq_num p =
    let p' =
      if leb irq_num 7 then record p { out = outb (bit_or eoi irq_num) master_port p.out } else p in
    if leb 8 irq_num && leb irq_num 15
    then record p' {
      out = outb (eoi + 2) master_port (outb (bit_or eoi (irq_num - 8)) slave_port p'.out);
    }
    else p'

pub i8259_init : Pic → Pic
i8259_init p =
    let words = outb 0x01 (slave_port + 1) (
      outb 0x01 (master_port + 1) (
        outb 0x02 (slave_port + 1) (
          outb 0x04 (master_port + 1) (
            outb 0x28 (slave_port + 1) (
              outb 0x20 (master_port + 1)
                (outb 0x11 slave_port (outb 0x11 master_port p.out))))))) in
    enable_irq 2 (record p { out = words })
