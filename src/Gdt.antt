-- ===== src/Gdt.antt =====
-- The segment descriptors of student-distrib/x86_desc.h, as `entry` of kernel.c fills them for the LDT
-- and the task state segment.
pub mod Descriptors
use apoll_os.Prelude.{ℕ, ◌-◌, ◌*◌, ◌/◌, ◌%◌, ◌^◌, bit_and}

abbrev pub kernel_tss : ℕ
kernel_tss = 0x0030

abbrev pub kernel_ldt : ℕ
kernel_ldt = 0x0038

abbrev pub tss_size_bytes : ℕ
tss_size_bytes = 104

-- A segment descriptor, in the order of its fields.
pub record SegDesc : Type 0 where
  pub seg_lim_15_00 : ℕ
  pub base_15_00 : ℕ
  pub base_23_16 : ℕ
  pub type : ℕ
  pub sys : ℕ
  pub dpl : ℕ
  pub present : ℕ
  pub seg_lim_19_16 : ℕ
  pub avail : ℕ
  pub reserved : ℕ
  pub opsize : ℕ
  pub granularity : ℕ
  pub base_31_24 : ℕ

-- SET_LDT_PARAMS and SET_TSS_PARAMS; `lim` has 4 bits in one of the fields and 16 in the other.
unfoldable pub set_params : ℕ → ℕ → SegDesc → SegDesc
set_params addr lim d = record d {
  base_31_24 = bit_and addr 0xff000000 / 2 ^ 24;
  base_23_16 = bit_and addr 0x00ff0000 / 2 ^ 16;
  base_15_00 = bit_and addr 0x0000ffff;
  seg_lim_19_16 = bit_and lim 0x000f0000 / 2 ^ 16;
  seg_lim_15_00 = bit_and lim 0x0000ffff;
}

-- What `entry` sets up besides the kernel's variables: the two entries of the GDT, the selector in
-- the task state segment, and the registers that `lldt` and `ltr` load.
pub record Segments : Type 0 where
  pub ldt_desc_ptr : SegDesc
  pub tss_desc_ptr : SegDesc
  pub ldt_segment_selector : ℕ
  pub ldtr : ℕ
  pub tr : ℕ

-- The addresses of the LDT and of the task state segment.
pub record Linker : Type 0 where
  pub ldt : ℕ
  pub tss : ℕ

-- `ldt_size` and `tss_size` of x86_desc.S.
abbrev pub ldt_size : ℕ
ldt_size = 4 * 8 - 1

abbrev pub tss_size : ℕ
tss_size = tss_size_bytes - 1

-- A descriptor before its address and limit are set; the variable has no contents before.
abbrev pub the_ldt_desc : SegDesc
the_ldt_desc = record {
  seg_lim_15_00 = 0;
  base_15_00 = 0;
  base_23_16 = 0;
  type = 0x2;
  sys = 0;
  dpl = 0;
  present = 1;
  seg_lim_19_16 = 0;
  avail = 0;
  reserved = 0;
  opsize = 1;
  granularity = 0;
  base_31_24 = 0;
}

abbrev pub the_tss_desc : SegDesc
the_tss_desc = record {
  seg_lim_15_00 = bit_and tss_size_bytes 0x0000ffff;
  base_15_00 = 0;
  base_23_16 = 0;
  type = 0x9;
  sys = 0;
  dpl = 0;
  present = 1;
  seg_lim_19_16 = bit_and tss_size_bytes 0x000f0000 % 2 ^ 4;
  avail = 0;
  reserved = 0;
  opsize = 0;
  granularity = 0;
  base_31_24 = 0;
}

unfoldable pub set_segments : Linker → Segments
set_segments at = record {
  ldt_desc_ptr = set_params at.ldt ldt_size the_ldt_desc;
  tss_desc_ptr = set_params at.tss tss_size the_tss_desc;
  ldt_segment_selector = kernel_ldt;
  ldtr = kernel_ldt;
  tr = kernel_tss;
}
