-- ===== src/Pic/Lines.antt =====
-- What `enable_irq` and `disable_irq` of student-distrib/i8259.c do to the sixteen lines.
use apoll_os.Prelude.{
  ℕ, ◌-◌, ◌/◌, ◌%◌, ◌^◌, ◌<◌, bit_and, bit_or, ◌≡◌, refl, arith, Bool, true, false, not, ◌&&◌, ◌||◌,
  ltb, leb, ◌==◌, if◌then◌else◌, all_below, all_below_sound,
}
use apoll_os.Pic.{Pic, enable_irq, disable_irq, enable_mask, i8259_init, disable_mask}

-- Bit `j` of a mask is 0: the line is open.
abbrev open_bit : ℕ → ℕ → Bool
open_bit mask j = mask / 2 ^ j % 2 == 0

-- The line can raise an interrupt at its controller.
abbrev pub line_open : Pic → ℕ → Bool
line_open p line =
    if leb line 7 then open_bit p.master_mask line else open_bit p.slave_mask (line - 8)

-- A mask is a byte.
abbrev pub IsMasks : Pic → Type 0
IsMasks p = (p.master_mask < 256) × (p.slave_mask < 256)

abbrev same : Bool → Bool → Bool
same true b = b
same false b = not b

same-eq : (a b : Bool) → same a b ≡ true → a ≡ b
same-eq a b h = ground arith

abbrev opens : ℕ → ℕ → ℕ → Bool
opens m i j = same (open_bit (bit_and m (enable_mask i 0xfe)) j) (i == j || open_bit m j)

abbrev closes : ℕ → ℕ → ℕ → Bool
closes m i j = same (open_bit (bit_or m (disable_mask i 0x01)) j) (not (i == j) && open_bit m j)

open_table : all_below 256 (λ m. all_below 8 (λ i. all_below 8 (λ j. opens m i j))) ≡ true
unfolding all_below enable_mask
open_table = refl

close_table : all_below 256 (λ m. all_below 8 (λ i. all_below 8 (λ j. closes m i j))) ≡ true
unfolding all_below disable_mask
close_table = refl

-- A table over a mask, a line that is changed and a line that is asked about.
three_below :
    (f : ℕ → ℕ → ℕ → Bool)
    → all_below 256 (λ m. all_below 8 (λ i. all_below 8 (λ j. f m i j))) ≡ true
    → (m i j : ℕ) → m < 256
    → i < 8
    → j < 8
    → f m i j ≡ true
three_below f table m i j hm hi hj =
    all_below_sound 8 (f m i) j
      (all_below_sound 8 (λ i. all_below 8 (f m i)) i
        (all_below_sound 256 (λ m. all_below 8 (λ i. all_below 8 (f m i))) m table hm) hi)
      hj

enable-bit :
    (m i j : ℕ)
    → m < 256
    → i < 8
    → j < 8
    → open_bit (bit_and m (enable_mask i 0xfe)) j ≡ (i == j || open_bit m j)
enable-bit m i j hm hi hj = same-eq _ _ (three_below opens open_table m i j hm hi hj)

disable-bit :
    (m i j : ℕ)
    → m < 256
    → i < 8
    → j < 8
    → open_bit (bit_or m (disable_mask i 0x01)) j ≡ (not (i == j) && open_bit m j)
disable-bit m i j hm hi hj = same-eq _ _ (three_below closes close_table m i j hm hi hj)

-- For masks that are bytes and two of the sixteen lines, after `enable_irq` of the one the other
-- is open if it was or if it is the same.
pub line_open-enable_irq :
    (p : Pic) (irq line : ℕ)
    → IsMasks p
    → irq < 16
    → line < 16
    → line_open (enable_irq irq p) line ≡ (irq == line || line_open p line)
unfolding enable_irq
line_open-enable_irq p irq line v hi hl =
    ground (arith, enable-bit p.master_mask irq line, enable-bit p.slave_mask (irq - 8) (line - 8))

-- For masks that are bytes and two of the sixteen lines, after `disable_irq` of the one the other
-- is open if it was and is not the same.
pub line_open-disable_irq :
    (p : Pic) (irq line : ℕ)
    → IsMasks p
    → irq < 16
    → line < 16
    → line_open (disable_irq irq p) line ≡ (not (irq == line) && line_open p line)
unfolding disable_irq
line_open-disable_irq p irq line v hi hl =
    ground
      (arith, disable-bit p.master_mask irq line, disable-bit p.slave_mask (irq - 8) (line - 8))

byte_row : ℕ → Bool
byte_row m = ltb (bit_and m 0xfb) 256

byte_table : all_below 256 byte_row ≡ true
unfolding all_below byte_row
byte_table = refl

-- After `i8259_init` the line of the slave is open, and the others are as they were.
pub line_open-i8259_init :
    (p : Pic) (line : ℕ)
    → IsMasks p
    → line < 16
    → (line_open (i8259_init p) line ≡ (2 == line || line_open p line)) × IsMasks (i8259_init p)
unfolding i8259_init enable_irq enable_mask byte_row
line_open-i8259_init p line v hl =
    let small : bit_and p.master_mask 0xfb < 256 =
      let row = all_below_sound 256 byte_row p.master_mask byte_table v.0 in ground (arith, row) in
    (
      line_open-enable_irq (record p { out = (i8259_init p).out }) 2 line v (omega arith) hl,
      (small, v.1),
    )
