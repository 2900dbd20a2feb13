-- ===== src/Screen.antt =====
-- The text screen of student-distrib/lib.c: the video page, the cursor, and the functions that
-- write to them. The page is the 4096 bytes from VIDEO that paging maps; an access outside it is a
-- page fault, `none`. `screen_x` and `screen_y` are int32_t bit patterns.
pub mod Bounds
pub mod Cells
pub mod Backspace
use apoll_os.Prelude.{
  ℕ, zero, suc, ◌+◌, ◌-◌, ◌*◌, ◌/◌, ◌%◌, ◌^◌, not, ◌&&◌, ◌||◌, Option, none, some, List, [], ◌∷◌,
  ◌==◌, if◌then◌else◌, get_elem?, store, ◌>>=◌, u16, u32, sub32, slt,
}

abbrev pub num_cols : ℕ
num_cols = 80

abbrev pub num_rows : ℕ
num_rows = 25

abbrev pub page_size : ℕ
page_size = 4096

-- `out` holds the port writes so far, the last first, as pairs of a port and a byte.
pub record Screen : Type 0 where
  pub video : List ℕ
  pub screen_x : ℕ
  pub screen_y : ℕ
  pub out : List (ℕ × ℕ)

abbrev pub outb : ℕ → ℕ → List (ℕ × ℕ) → List (ℕ × ℕ)
outb byte port out = (port, byte) ∷ out

-- `(NUM_COLS*y + x) << 1`.
abbrev pub cell_offset : ℕ → ℕ → ℕ
cell_offset x y = u32 (u32 (num_cols * y + x) * 2)

unfoldable pub update_cursor_loc : ℕ → ℕ → Screen → Screen
update_cursor_loc x y s =
    let pos : ℕ = u16 (u32 (num_cols * y + x)) in
    record s {
      out =
          outb (pos % 256) 0x3d5
            (outb 15 0x3d4 (outb (pos / 2 ^ 8 % 256) 0x3d5 (outb 14 0x3d4 s.out)));
    }

unfoldable pub set_screen_pos : ℕ → ℕ → Screen → Screen
set_screen_pos x y s = record s { screen_x = x; screen_y = y }

-- One round of the loop that shifts row `row + 1` to row `row`, then the rounds that are left.
unfoldable pub scroll_cols : ℕ → ℕ → ℕ → List ℕ → Option (List ℕ)
scroll_cols zero row col video = some video
scroll_cols (suc k) row col video = do
  let current_line = num_cols * (row + 1) + col
  let scroll_line = num_cols * row + col
  c ← get_elem? video (current_line * 2)
  video' ← store video (scroll_line * 2) c
  scroll_cols k row (col + 1) video'

unfoldable pub scroll_rows : ℕ → ℕ → List ℕ → Option (List ℕ)
scroll_rows zero row video = some video
scroll_rows (suc k) row video = do
  video' ← scroll_cols num_cols row 0 video
  scroll_rows k (row + 1) video'

-- The loop that writes `c` to `k` cells from cell `i` on.
unfoldable pub fill_cells : ℕ → ℕ → ℕ → List ℕ → Option (List ℕ)
fill_cells c zero i video = some video
fill_cells c (suc k) i video = do video' ← store video (i * 2) c; fill_cells c k (i + 1) video'

unfoldable pub scroll : Screen → Option Screen
scroll s = do
  video' ← scroll_rows (num_rows - 1) 0 s.video
  video'' ← fill_cells 0 num_cols (num_cols * (num_rows - 1)) video'
  some (record s { video = video''; screen_x = 0; screen_y = num_rows - 1 })

unfoldable pub do_enter : Screen → Option Screen
do_enter s = do
  s' ←
      (if s.screen_y == num_rows - 1
        then scroll s
        else some (record s { screen_y = u32 (s.screen_y + 1) }))
  let s'' = record s' { screen_x = 0 }
  some (update_cursor_loc s''.screen_x s''.screen_y s'')

unfoldable pub putc : ℕ → Screen → Option Screen
putc c s = if c == 10 || c == 13 then do_enter s else (do
  video' ← store s.video (cell_offset s.screen_x s.screen_y) c
  let s' = record s { video = video'; screen_x = u32 (s.screen_x + 1) }
  if not (slt s'.screen_x num_cols)
      then do_enter s'
      else some (update_cursor_loc s'.screen_x s'.screen_y s'))

-- The result is the number of bytes written.
unfoldable pub puts_loop : List ℕ → ℕ → Screen → Option (ℕ × Screen)
puts_loop [] index s = none
puts_loop (c ∷ str) index s =
    let next = (do s' ← putc c s; puts_loop str (u32 (index + 1)) s') in
    if c == 0 then some (index, s) else next

unfoldable pub puts : List ℕ → Screen → Option (ℕ × Screen)
puts str s = puts_loop str 0 s

unfoldable pub do_backspace : Screen → Option Screen
do_backspace s = do
  let s' =
      if s.screen_x == 0 && slt 0 s.screen_y
      then record s { screen_x = num_cols - 2; screen_y = sub32 s.screen_y 1 }
      else record s { screen_x = sub32 s.screen_x 1 }
  video' ← store s'.video (cell_offset s'.screen_x s'.screen_y) 0
  some (update_cursor_loc s'.screen_x s'.screen_y (record s' { video = video' }))
