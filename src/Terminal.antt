-- ===== src/Terminal.antt =====
-- The three terminals of student-distrib/terminal.c: each keeps its screen in a page of its own and
-- its line in its own key buffer.
pub mod Switching
use apoll_os.Prelude.{
  ℕ, zero, suc, ◌+◌, ◌*◌, not, ◌&&◌, Option, some, List, [], ◌∷◌, ◌==◌, if◌then◌else◌, get_elem?,
  set, replicate, store, ◌>>=◌, u8, u32, sub32, c_string,
}
use apoll_os.Screen.{Screen, set_screen_pos, update_cursor_loc, num_rows, num_cols}
use apoll_os.Printf.{printf}
use apoll_os.CString.{memcpy}
use apoll_os.Paging.{Layout, remap, remap_to_page}
use apoll_os.Kernel.{
  Kernel, Terminal, cli, sti, kernel_ds, physical_start, virtual_start, four_mb_block,
  key_buffer_size,
}
use apoll_os.Process.{can_execute}
use apoll_os.Execute.{Flow, returned, entered, resumed, execute_shell, stack_top}

-- `2*NUM_ROWS*NUM_COLS`.
abbrev pub screen_bytes : ℕ
screen_bytes = 2 * num_rows * num_cols

abbrev pub index_of : ℕ → ℕ
index_of term = sub32 term 1

abbrev pub term_mem_at : ℕ
term_mem_at = 0x6400000

-- The loop of `init_terminals` over the terminals, the array at its size.
reset_terminals : ℕ → List Terminal → List Terminal
reset_terminals i [] = []
reset_terminals i (t ∷ ts) =
    record t {
      num = u8 (i + 1);
      key_buffer_pos = 0;
      pos_x = 0;
      pos_y = 0;
      esp = 0;
      ebp = 0;
      num_processes = 0;
      init = 0;
      key_buffer = replicate key_buffer_size 0;
      vid_mem = i;
    }
    ∷ reset_terminals (i + 1) ts

-- The loop that clears a terminal's page: blanks in the given colour.
blank_loop : ℕ → ℕ → ℕ → List ℕ → Option (List ℕ)
blank_loop zero attrib i page = some page
blank_loop (suc n) attrib i page = do
  page1 ← store page (i * 2) b' '
  page2 ← store page1 (i * 2 + 1) attrib
  blank_loop n attrib (i + 1) page2

unfoldable pub terminal_save : ℕ → Kernel → Option Kernel
terminal_save term k = do
  t ← get_elem? k.terminal (index_of term)
  page ← get_elem? k.term_mem t.vid_mem
  page' ← memcpy page k.screen.video screen_bytes
  let t' = record t {
    esp = k.esp;
    ebp = k.ebp;
    key_buffer_pos = k.keyboard.key_buffer_pos;
    pos_x = k.screen.screen_x;
    pos_y = k.screen.screen_y;
  }
  some (record k {
    terminal = set k.terminal (index_of term) t';
    term_mem = set k.term_mem t.vid_mem page';
  })

-- The cursor, the key buffer and the screen of a terminal become the current ones.
unfoldable pub show_terminal : ℕ → Terminal → Kernel → Option Kernel
show_terminal term t k = do
  page ← get_elem? k.term_mem t.vid_mem
  let screen = update_cursor_loc t.pos_x t.pos_y (set_screen_pos t.pos_x t.pos_y k.screen)
  video ← memcpy screen.video page screen_bytes
  some (record k {
    screen = record screen { video = video };
    keyboard = record k.keyboard {
      key_buffer = some (index_of term);
      key_buffer_pos = t.key_buffer_pos;
    };
  })

-- The processor goes on with the stack that the terminal was left with.
unfoldable pub terminal_load : ℕ → Kernel → Option Kernel
terminal_load term k = do
  t ← get_elem? k.terminal (index_of term)
  paging ← remap virtual_start (u32 (physical_start + t.term_pid * four_mb_block)) k.paging
  k' ←
      show_terminal term t
        (record k { paging = paging; tss_ss0 = kernel_ds; tss_esp0 = stack_top t.term_pid })
  some (record k' { esp = t.esp; ebp = t.ebp })

abbrev pub banner : List (List ℕ)
banner =
    c_string "    _      ____     ___    _       _        ___             ___    ____  \n"
    ∷ c_string "   / \\    |  _ \\   / _ \\  | |     | |      / _ \\           / _ \\  / ___| \n"
    ∷ c_string "  / _ \\   | |_) | | | | | | |     | |     | | | |         | | | | \\___ \\ \n"
    ∷ c_string " / ___ \\  |  __/  | |_| | | |___  | |___  | |_| |         | |_| |  ___) |\n"
    ∷ c_string "/_/   \\_\\ |_|      \\___/  |_____| |_____|  \\___/   _____   \\___/  |____/ \n"
    ∷ c_string "                                                  |_____|                \n"
    ∷ []

abbrev pub please_close : List ℕ
please_close = c_string "\nPlease close processes before opening another teminal\n391OS> "

print_lines : List (List ℕ) → Screen → Option Screen
print_lines [] s = some s
print_lines (l ∷ ls) s = do (_, s') ← printf l [] s; print_lines ls s'

pub terminal_start : ℕ → Kernel → Option Flow
terminal_start term k = do
  t ← get_elem? k.terminal (index_of term)
  let t' = record t { init = 1 }
  k1 ← show_terminal term t' (record k { terminal = set k.terminal (index_of term) t' })
  screen ← print_lines banner k1.screen
  flow ← execute_shell (record k1 { screen = screen })
  elim flow [
    | returned ret k' ↦ some (returned 0 k')
    | entered eip k' ↦ some (entered eip k')
    | resumed status k' ↦ some (resumed status k')
  ]

-- A switch that does not leave the kernel ends with interrupts on.
abbrev pub back_on : Flow → Flow
back_on (returned ret k) = returned 0 (sti k)
back_on (entered eip k) = entered eip k
back_on (resumed status k) = resumed status k

unfoldable pub switch_terminal : ℕ → Kernel → Option Flow
switch_terminal term k = if term == k.term_cur then some (returned 0 (sti k)) else (do
  t ← get_elem? k.terminal (index_of term)
  if t.init == 0 && not (can_execute k)
      then (do
        (_, screen) ← printf please_close [] k.screen
        some (returned 0 (sti (record k { screen = screen }))))
      else (do
        k1 ← terminal_save k.term_cur (cli k)
        let k2 = record k1 { term_cur = term }
        t' ← get_elem? k2.terminal (index_of term)
        if t'.init == 0
            then (do flow ← terminal_start term k2; some (back_on flow))
            else (do k3 ← terminal_load term k2; some (returned 0 (sti k3)))))

pub init_terminals : Layout → Kernel → Option Flow
init_terminals l k = do
  p1 ← remap_to_page l term_mem_at 0x6401000 1 k.paging
  p2 ← remap_to_page l term_mem_at 0x6402000 2 p1
  p3 ← remap_to_page l term_mem_at 0x6403000 3 p2
  m1 ← get_elem? k.term_mem 0
  m2 ← get_elem? k.term_mem 1
  m3 ← get_elem? k.term_mem 2
  b1 ← blank_loop (num_rows * num_cols) 0xb 0 m1
  b2 ← blank_loop (num_rows * num_cols) 0xa 0 m2
  b3 ← blank_loop (num_rows * num_cols) 0xe 0 m3
  terminal_start 1 (record k {
    terminal = reset_terminals 0 k.terminal;
    paging = p3;
    term_mem = b1 ∷ b2 ∷ b3 ∷ [];
    term_cur = 1;
  })
