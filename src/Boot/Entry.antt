-- ===== src/Boot/Entry.antt =====
-- `entry` of student-distrib/kernel.c: the state in which it starts the terminals.
use apoll_os.Prelude.{ℕ, bit_or, ◌≡◌, true, ◌||◌, ◌==◌}
use apoll_os.Screen.{Screen}
use apoll_os.Pic.Lines.{line_open}
use apoll_os.Paging.{Layout}
use apoll_os.Paging.Translate.{translate}
use apoll_os.Paging.Start.{kernel_map}
use apoll_os.Kernel.{Kernel, kernel_ds}
use apoll_os.Gdt.{Linker, Segments}
use apoll_os.Gdt.Descriptors.{base_of, limit_of}

-- The kernel with its devices on, before the terminals are started.
pub record Ready (l : Layout) (k : Kernel) (v line : ℕ) (k' : Kernel) : Type 0 where
  pub fs : k'.fs ≡ k.fs
  pub screen : k'.screen ≡ k.screen
  pub stack : k'.tss_esp0 ≡ 0x800000
  pub segment : k'.tss_ss0 ≡ kernel_ds
  pub interrupts : k'.interrupts ≡ true
  pub lines : line_open k'.pic line ≡ (1 == line || (2 == line || line_open k.pic line))
  pub memory : translate l k'.paging v ≡ kernel_map v
  pub paging_on : k'.paging.cr0 ≡ bit_or k.paging.cr0 0x80000000
  pub no_key : k'.keyboard.key_buffer_pos ≡ 0

-- The two descriptors of the GDT, as the processor puts their fields together.
pub record HasSegments (at : Linker) (g : Segments) : Type 0 where
  pub ldt_base : base_of g.ldt_desc_ptr ≡ at.ldt
  pub ldt_limit : limit_of g.ldt_desc_ptr ≡ 31
  pub tss_base : base_of g.tss_desc_ptr ≡ at.tss
  pub tss_limit : limit_of g.tss_desc_ptr ≡ 103
  pub present : (g.ldt_desc_ptr.present ≡ 1) × (g.tss_desc_ptr.present ≡ 1)
  pub loaded : (g.ldtr ≡ 0x38) × (g.tr ≡ 0x30) × (g.ldt_segment_selector ≡ 0x38)
