-- ===== src/Tests/Data.antt =====
-- The states that the tests of student-distrib/ run on.
use apoll_os.Kernel.{Terminal}
use apoll_os.Prelude.{
  replicate, ℕ, ◌≡◌, refl, arith, Option, none, some, List, [], ◌∷◌, length-replicate, ◌+◌, Bool,
  true, ◌&&◌, ltb,
}
use apoll_os.FileOps.{File, file_ops}
use apoll_os.Screen.{Screen}
use apoll_os.Screen.Bounds.{IsOnScreen}
use apoll_os.Kernel.{Kernel}
use apoll_os.Execute.{Flow}
use apoll_os.CString.Compare.{IsBytes}
use apoll_os.Rofs.{dentry_bytes}
use apoll_os.Rofs.Names.{IsDentry}
use apoll_os.FileOps.{File, file_ops}
use apoll_os.Rofs.{Fs, Dentry, Inode}
use apoll_os.Rofs.Contents.{IsFile}
use apoll_os.Screen.{Screen}
use apoll_os.Paging.{Paging, Layout}
use apoll_os.Pic.{Pic}
use apoll_os.Rtc.{Rtc}
use apoll_os.Kernel.{Kernel, Keyboard, Terminal}

-- The text "hi", padded to the 32 bytes of a name.
abbrev pub hi_name : List ℕ
hi_name = 104 ∷ 105 ∷ replicate 30 0

abbrev pub hi_entry : Dentry
hi_entry = record { file_name = hi_name; file_type = 2; inode_num = 0; reserved = replicate 24 0 }

abbrev pub all_bytes : List ℕ → Bool
all_bytes [] = true
all_bytes (c ∷ s) = ltb c 256 && all_bytes s

pub IsBytes-all_bytes : (s : List ℕ) → all_bytes s ≡ true → IsBytes s
IsBytes-all_bytes [] h = tt
IsBytes-all_bytes (c ∷ s) h = (ground arith, IsBytes-all_bytes s (ground arith))

pub hi_entry-IsDentry : IsDentry hi_entry
hi_entry-IsDentry = (omega arith, IsBytes-all_bytes (dentry_bytes hi_entry) refl)

-- A file of 3 bytes.
abbrev pub hi_node : Inode
hi_node = record { length = 3; data_block_num = 0 ∷ [] }

abbrev pub hi_block : List ℕ
hi_block = 72 ∷ 9 ∷ 200 ∷ replicate 4093 0

abbrev pub small_fs : Fs
small_fs = record {
  boot_block = record {
    num_dir_entries = 1;
    num_inodes = 1;
    num_data_blocks = 1;
    dentries = hi_entry ∷ [];
  };
  inodes = hi_node ∷ [];
  data_blocks = hi_block ∷ [];
}

pub hi_node-IsFile : IsFile small_fs hi_node
hi_node-IsFile = record {
  listed = omega arith;
  present = (omega arith, tt);
  whole = (omega (arith, length-replicate {A = ℕ} 4093 0), tt);
}

abbrev pub hi_file : File
hi_file = record { inode = 0; flags = 1; pos = 0; fileops = file_ops }

abbrev pub blank_screen : ℕ → ℕ → Screen
blank_screen x y = record { video = replicate 4096 0; screen_x = x; screen_y = y; out = [] }

abbrev pub layout : Layout
layout = record {
  page_dir_at = 0x401000;
  page_table_at = 0x402000;
  user_table_at = 0x403000;
  video_table_at = 0x404000;
}

abbrev pub empty_paging : Paging
empty_paging = record {
  page_dir = replicate 1024 0;
  page_table = replicate 1024 0;
  user_table = replicate 1024 0;
  video_table = replicate 1024 0;
  cr0 = 0;
  cr3 = 0;
  cr4 = 0;
  tlb = [];
}

abbrev pub masked_pic : Pic
masked_pic = record { master_mask = 0xff; slave_mask = 0xff; out = [] }

abbrev pub rtc : Rtc
rtc = record { int_occur = 0; out = [] }

abbrev pub typed_terminal : List ℕ → Terminal
typed_terminal keys = record {
  num = 1;
  key_buffer = keys;
  key_buffer_pos = 0;
  pos_x = 0;
  pos_y = 0;
  esp = 0;
  ebp = 0;
  term_pid = 0;
  vid_mem = 0;
  num_processes = 1;
  init = 1;
}

abbrev pub keyboard_at : ℕ → ℕ → Keyboard
keyboard_at pos enter = record {
  key_buffer = some 0;
  key_buffer_pos = pos;
  enter_pressed = enter;
  shift_pressed = 0;
  capslock_state = 0;
  ctrl_pressed = 0;
  alt_pressed = 0;
  keys_state = 0;
  right_bound = 7 + pos;
}

-- A kernel with the given line in its key buffer, at a stack pointer.
abbrev pub kernel_with : List ℕ → ℕ → ℕ → ℕ → Kernel
kernel_with keys pos enter esp = record {
  fs = small_fs;
  screen = blank_screen 7 0;
  paging = empty_paging;
  pic = masked_pic;
  rtc = rtc;
  keyboard = keyboard_at pos enter;
  terminal = typed_terminal keys ∷ [];
  term_cur = 1;
  term_mem = [];
  processes_flags = 1;
  pcbs = [];
  images = [];
  esp = esp;
  ebp = esp;
  tss_esp0 = 0x800000;
  tss_ss0 = 0x18;
  interrupts = true;
}

abbrev pub plain_file : ℕ → File
plain_file flags = record { inode = 0; flags = flags; pos = 0; fileops = file_ops }

pub on_screen : IsOnScreen (blank_screen 7 0)
on_screen = record {
  page = length-replicate {A = ℕ} 4096 0;
  column = omega arith;
  line = omega arith;
}

-- No program is started.
abbrev pub calls_run : Flow → Option (ℕ × Kernel)
calls_run flow = none
