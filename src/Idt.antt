-- ===== src/Idt.antt =====
-- The interrupt descriptor table of student-distrib/idt.c, and its exception handlers. The address
-- of a handler is a parameter, as the linker chooses it.
pub mod Gates
pub mod Targets
pub mod Exceptions
use apoll_os.Prelude.{
  ℕ, zero, suc, ◌+◌, ◌/◌, ◌%◌, ◌^◌, ◌||◌, Option, some, List, [], ◌∷◌, ltb, leb, ◌==◌,
  if◌then◌else◌, get_elem?, store, ◌>>=◌, c_string, u8, minus_one,
}
use apoll_os.Printf.{printf, Arg, str}
use apoll_os.Kernel.{Kernel, cli, sti}
use apoll_os.Execute.{Flow, returned, entered, resumed, halt}

-- The functions that a gate can lead to.
pub data Handler : Type 0 where
  ex_divide_error ex_debug ex_non_maskable_interrupt ex_breakpoint ex_overflow : Handler
  ex_bound_range_exceeded ex_invalid_opcode ex_device_not_available ex_double_fault : Handler
  ex_coprocessor_segment_overrun ex_invalid_tss ex_segment_not_present ex_stack_fault : Handler
  ex_general_protection ex_page_fault ex_unknown ex_floating_point_error : Handler
  ex_alignment_check ex_machine_check ex_floating_point ex_generic : Handler
  handle_rtc handle_keyboard handle_syscall : Handler

-- `idt_desc_t`.
pub record Gate : Type 0 where
  pub offset_15_00 : ℕ
  pub seg_selector : ℕ
  pub reserved4 : ℕ
  pub reserved3 : ℕ
  pub reserved2 : ℕ
  pub reserved1 : ℕ
  pub size : ℕ
  pub reserved0 : ℕ
  pub dpl : ℕ
  pub present : ℕ
  pub offset_31_16 : ℕ

abbrev pub num_vec : ℕ
num_vec = 256

abbrev pub kernel_cs : ℕ
kernel_cs = 0x10

abbrev pub int_keyboard : ℕ
int_keyboard = 0x21

abbrev pub int_rtc : ℕ
int_rtc = 0x28

abbrev pub int_syscall : ℕ
int_syscall = 0x80

-- `SET_IDT_ENTRY` on a gate, with an address: `& 0xFFFF0000`, `>> 16` and `& 0xFFFF`.
abbrev pub set_offset : ℕ → Gate → Gate
set_offset addr g = record g { offset_31_16 = addr / 2 ^ 16 % 2 ^ 16; offset_15_00 = addr % 2 ^ 16 }

-- The assignments of one round of the loop, up to the `if`.
abbrev pub set_bits : ℕ → Gate → Gate
set_bits i g = record g {
  seg_selector = kernel_cs;
  reserved4 = 0;
  reserved3 = if ltb i 32 || i == int_syscall then 1 else 0;
  reserved2 = 1;
  reserved1 = 1;
  size = 1;
  reserved0 = 0;
  dpl = if i == int_syscall then 3 else 0;
  present = 1;
}

-- The assignments behind the loop, in their order.
abbrev pub entries : List (ℕ × Handler)
entries =
    (0x00, ex_divide_error)
    ∷ (0x01, ex_debug)
    ∷ (0x02, ex_non_maskable_interrupt)
    ∷ (0x03, ex_breakpoint)
    ∷ (0x04, ex_overflow)
    ∷ (0x05, ex_bound_range_exceeded)
    ∷ (0x06, ex_invalid_opcode)
    ∷ (0x07, ex_device_not_available)
    ∷ (0x08, ex_double_fault)
    ∷ (0x09, ex_coprocessor_segment_overrun)
    ∷ (0x0a, ex_invalid_tss)
    ∷ (0x0b, ex_segment_not_present)
    ∷ (0x0c, ex_stack_fault)
    ∷ (0x0d, ex_general_protection)
    ∷ (0x0e, ex_page_fault)
    ∷ (0x0f, ex_unknown)
    ∷ (0x10, ex_floating_point_error)
    ∷ (0x11, ex_alignment_check)
    ∷ (0x12, ex_machine_check)
    ∷ (0x13, ex_floating_point)
    ∷ (int_rtc, handle_rtc)
    ∷ (int_keyboard, handle_keyboard)
    ∷ (int_syscall, handle_syscall)
    ∷ []

module _ (address : Handler → ℕ) where
  -- One round of the loop.
  abbrev pub gate_round : ℕ → Gate → Gate
  gate_round i g = if leb 32 i then set_offset (address ex_generic) (set_bits i g) else set_bits i g

  -- The rounds of the loop from `i` on.
  unfoldable pub gate_loop : ℕ → ℕ → List Gate → Option (List Gate)
  gate_loop zero i idt = some idt
  gate_loop (suc n) i idt = do
    g ← get_elem? idt i
    idt' ← store idt i (gate_round i g)
    gate_loop n (i + 1) idt'

  unfoldable pub set_entries : List (ℕ × Handler) → List Gate → Option (List Gate)
  set_entries [] idt = some idt
  set_entries ((v, h) ∷ es) idt = do
    g ← get_elem? idt v
    idt' ← store idt v (set_offset (address h) g)
    set_entries es idt'

  -- `lidt` hands the table to the processor as it is then.
  unfoldable pub init_idt : List Gate → Option (List Gate)
  init_idt idt = do idt' ← gate_loop num_vec 0 idt; set_entries entries idt'

-- What `#message` makes of the second argument of `CREATE_EXCEPTION`.
abbrev pub message : Handler → List ℕ
message ex_divide_error = c_string "(DE) Divide Error Exception!"
message ex_debug = c_string "(DB) Debug Exception!"
message ex_non_maskable_interrupt = c_string "(NI) Non Maskable Interrupt!"
message ex_breakpoint = c_string "(BP) Breakpoint Exception!"
message ex_overflow = c_string "(OF) Overflow Excepion!"
message ex_bound_range_exceeded = c_string "(BR) Bound Range Exceeded Exception!"
message ex_invalid_opcode = c_string "(UD) Invalid Opcode Exception!"
message ex_device_not_available = c_string "(NM) Device Not Available Exception!"
message ex_double_fault = c_string "(DF) Double Fault Exception!"
message ex_coprocessor_segment_overrun = c_string "(CS) Coprocessor Segment Overrun!"
message ex_invalid_tss = c_string "(TS) Invalid TSS Exception!"
message ex_segment_not_present = c_string "(NP) Segment Not Present!"
message ex_stack_fault = c_string "(SS) Stack Fault Exception!"
message ex_general_protection = c_string "(GP) General Protection Exception!"
message ex_page_fault = c_string "(PF) Page Fault Exception!"
message ex_unknown = c_string "(UN) Unknown Exception!"
message ex_floating_point_error = c_string "(MF) x87 Floating-Point Error!"
message ex_alignment_check = c_string "(AC) Alignment Check Exception!"
message ex_machine_check = c_string "(MC) Machine Check Exception!"
message ex_floating_point = c_string "(XM) SIMD Floating Point Exception!"
message _ = 0 ∷ []

module _ (cmos : ℕ → ℕ) where
  -- The body of `CREATE_EXCEPTION`. `halt` takes a uint8_t, so -1 is 255.
  unfoldable pub exception : Handler → Kernel → Option Flow
  exception h k = do
    (_, screen) ← printf (c_string "%s\n") (str (message h) ∷ []) k.screen
    halt cmos (u8 minus_one) (record k { screen = screen })

  -- `EX_GENERIC`. The `sti` is reached only if `halt` returns, which it does not.
  unfoldable pub generic : Kernel → Option Flow
  generic k = do
    let off = cli k
    (_, screen) ← printf (c_string "An unknown interrupt occured!\n") [] off.screen
    flow ← halt cmos (u8 minus_one) (record off { screen = screen })
    elim flow [
      | returned ret k' ↦ some (returned ret (sti k'))
      | entered eip k' ↦ some (entered eip k')
      | resumed status k' ↦ some (resumed status k')
    ]
