-- ===== src/Kernel.antt =====
-- The state of the kernel of student-distrib/: the global variables of its C files, and the records
-- of terminal.h, keyboard.c and syscalls.h.
use apoll_os.Prelude.{ℕ, Bool, true, false, Option, List}
use apoll_os.FileOps.{File}
use apoll_os.Rofs.{Fs}
use apoll_os.Screen.{Screen}
use apoll_os.Paging.{Paging}
use apoll_os.Pic.{Pic}
use apoll_os.Rtc.{Rtc}

-- `terminal_t`. `vid_mem` is the index of the page that keeps the terminal's screen.
pub record Terminal : Type 0 where
  pub num : ℕ
  pub key_buffer : List ℕ
  pub key_buffer_pos : ℕ
  pub pos_x : ℕ
  pub pos_y : ℕ
  pub esp : ℕ
  pub ebp : ℕ
  pub term_pid : ℕ
  pub vid_mem : ℕ
  pub num_processes : ℕ
  pub init : ℕ

-- `pcb_t`.
pub record Pcb : Type 0 where
  pub files : List File
  pub pid : ℕ
  pub args : List ℕ
  pub parent_pid : ℕ
  pub parent_esp : ℕ
  pub parent_ebp : ℕ

-- The variables of keyboard.c. `key_buffer` points into the terminal with that index, or is null.
pub record Keyboard : Type 0 where
  pub key_buffer : Option ℕ
  pub key_buffer_pos : ℕ
  pub enter_pressed : ℕ
  pub shift_pressed : ℕ
  pub capslock_state : ℕ
  pub ctrl_pressed : ℕ
  pub alt_pressed : ℕ
  pub keys_state : ℕ
  pub right_bound : ℕ

-- `esp` and `ebp` are the registers in the kernel, `interrupts` is the flag of `cli` and `sti`,
-- `term_mem` are the pages that keep the terminals' screens, and `images` is what stands in memory
-- from EXECUTE_START on, for each process.
pub record Kernel : Type 0 where
  pub fs : Fs
  pub screen : Screen
  pub paging : Paging
  pub pic : Pic
  pub rtc : Rtc
  pub keyboard : Keyboard
  pub terminal : List Terminal
  pub term_cur : ℕ
  pub term_mem : List (List ℕ)
  pub processes_flags : ℕ
  pub pcbs : List Pcb
  pub images : List (List ℕ)
  pub esp : ℕ
  pub ebp : ℕ
  pub tss_esp0 : ℕ
  pub tss_ss0 : ℕ
  pub interrupts : Bool

abbrev pub max_terminals : ℕ
max_terminals = 3

abbrev pub max_processes : ℕ
max_processes = 6

abbrev pub key_buffer_size : ℕ
key_buffer_size = 128

abbrev pub kernel_ds : ℕ
kernel_ds = 0x18

abbrev pub physical_start : ℕ
physical_start = 0x800000

abbrev pub virtual_start : ℕ
virtual_start = 0x8000000

abbrev pub virtual_end : ℕ
virtual_end = 0x8400000

abbrev pub four_mb_block : ℕ
four_mb_block = 0x400000

abbrev pub eight_kb_block : ℕ
eight_kb_block = 0x2000

abbrev pub magic_size : ℕ
magic_size = 4

abbrev pub cli : Kernel → Kernel
cli k = record k { interrupts = false }

abbrev pub sti : Kernel → Kernel
sti k = record k { interrupts = true }
