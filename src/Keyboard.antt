-- ===== src/Keyboard.antt =====
-- The line editor of student-distrib/keyboard.c: what a key does to the key buffer of the terminal
-- and to the screen. `keyboard_handler` is in Interrupts.
pub mod Editing
pub mod Typing
use apoll_os.Prelude.{
  ℕ, zero, suc, ◌+◌, Option, some, List, [], ◌∷◌, ltb, leb, ◌==◌, ◌!=◌, if◌then◌else◌, get_elem?,
  set, store, ◌>>=◌, u32, sub32, slt,
}
use apoll_os.Screen
use apoll_os.Screen.{Screen}
use apoll_os.Printf
use apoll_os.Kernel.{Kernel, Keyboard, Terminal, key_buffer_size}

abbrev pub num_keys : ℕ
num_keys = 60

-- `key_scancodes`, from scan code 0 to 58; the entry for 59 is not written out, and is 0.
abbrev unshifted : List ℕ
unshifted =
    0 ∷ 0 ∷ b'1' ∷ b'2' ∷ b'3' ∷ b'4' ∷ b'5' ∷ b'6' ∷ b'7' ∷ b'8' ∷ b'9' ∷ b'0' ∷ b'-' ∷ b'=' ∷ 0
    ∷ 0 ∷ b'q' ∷ b'w' ∷ b'e' ∷ b'r' ∷ b't' ∷ b'y' ∷ b'u' ∷ b'i' ∷ b'o' ∷ b'p' ∷ b'[' ∷ b']' ∷ 0 ∷ 0
    ∷ b'a' ∷ b's' ∷ b'd' ∷ b'f' ∷ b'g' ∷ b'h' ∷ b'j' ∷ b'k' ∷ b'l' ∷ b';' ∷ 39 ∷ b'`' ∷ 0 ∷ 92
    ∷ b'z' ∷ b'x' ∷ b'c' ∷ b'v' ∷ b'b' ∷ b'n' ∷ b'm' ∷ b',' ∷ b'.' ∷ b'/' ∷ 0 ∷ b'*' ∷ 0 ∷ b' ' ∷ 0
    ∷ 0 ∷ []

abbrev shifted : List ℕ
shifted =
    0 ∷ 0 ∷ b'!' ∷ b'@' ∷ b'#' ∷ b'$' ∷ b'%' ∷ b'^' ∷ b'&' ∷ b'*' ∷ b'(' ∷ b')' ∷ b'_' ∷ b'+' ∷ 0
    ∷ 0 ∷ b'Q' ∷ b'W' ∷ b'E' ∷ b'R' ∷ b'T' ∷ b'Y' ∷ b'U' ∷ b'I' ∷ b'O' ∷ b'P' ∷ b'{' ∷ b'}' ∷ 0 ∷ 0
    ∷ b'A' ∷ b'S' ∷ b'D' ∷ b'F' ∷ b'G' ∷ b'H' ∷ b'J' ∷ b'K' ∷ b'L' ∷ b':' ∷ b'"' ∷ b'~' ∷ 0 ∷ b'|'
    ∷ b'Z' ∷ b'X' ∷ b'C' ∷ b'V' ∷ b'B' ∷ b'N' ∷ b'M' ∷ b'<' ∷ b'>' ∷ b'?' ∷ 0 ∷ b'*' ∷ 0 ∷ b' ' ∷ 0
    ∷ 0 ∷ []

abbrev capital : List ℕ
capital =
    0 ∷ 0 ∷ b'1' ∷ b'2' ∷ b'3' ∷ b'4' ∷ b'5' ∷ b'6' ∷ b'7' ∷ b'8' ∷ b'9' ∷ b'0' ∷ b'-' ∷ b'=' ∷ 0
    ∷ 0 ∷ b'Q' ∷ b'W' ∷ b'E' ∷ b'R' ∷ b'T' ∷ b'Y' ∷ b'U' ∷ b'I' ∷ b'O' ∷ b'P' ∷ b'[' ∷ b']' ∷ 0 ∷ 0
    ∷ b'A' ∷ b'S' ∷ b'D' ∷ b'F' ∷ b'G' ∷ b'H' ∷ b'J' ∷ b'K' ∷ b'L' ∷ b';' ∷ 39 ∷ b'`' ∷ 0 ∷ 92
    ∷ b'Z' ∷ b'X' ∷ b'C' ∷ b'V' ∷ b'B' ∷ b'N' ∷ b'M' ∷ b',' ∷ b'.' ∷ b'/' ∷ 0 ∷ b'*' ∷ 0 ∷ b' ' ∷ 0
    ∷ 0 ∷ []

abbrev capital_shifted : List ℕ
capital_shifted =
    0 ∷ 0 ∷ b'!' ∷ b'@' ∷ b'#' ∷ b'$' ∷ b'%' ∷ b'^' ∷ b'&' ∷ b'*' ∷ b'(' ∷ b')' ∷ b'_' ∷ b'+' ∷ 0
    ∷ 0 ∷ b'q' ∷ b'w' ∷ b'e' ∷ b'r' ∷ b't' ∷ b'y' ∷ b'u' ∷ b'i' ∷ b'o' ∷ b'p' ∷ b'{' ∷ b'}' ∷ 0 ∷ 0
    ∷ b'a' ∷ b's' ∷ b'd' ∷ b'f' ∷ b'g' ∷ b'h' ∷ b'j' ∷ b'k' ∷ b'l' ∷ b':' ∷ b'"' ∷ b'~' ∷ 0 ∷ 92
    ∷ b'z' ∷ b'x' ∷ b'c' ∷ b'v' ∷ b'b' ∷ b'n' ∷ b'm' ∷ b'<' ∷ b'>' ∷ b'?' ∷ 0 ∷ b'*' ∷ 0 ∷ b' ' ∷ 0
    ∷ 0 ∷ []

unfoldable pub key_scancodes : List (List ℕ)
key_scancodes = unshifted ∷ shifted ∷ capital ∷ capital_shifted ∷ []

-- `key_scancodes[keys_state][scancode]`.
unfoldable pub key_char : ℕ → ℕ → Option ℕ
key_char state scancode = do keys ← get_elem? key_scancodes state; get_elem? keys scancode

-- A write through the `key_buffer` pointer, into the terminal that it points to.
unfoldable pub set_key : ℕ → ℕ → Kernel → Option Kernel
set_key i c k = do
  n ← k.keyboard.key_buffer
  t ← get_elem? k.terminal n
  buf ← store t.key_buffer i c
  some (record k { terminal = set k.terminal n (record t { key_buffer = buf }) })

-- A call that changes the screen.
abbrev pub on_screen : (Screen → Option Screen) → Kernel → Option Kernel
on_screen f k = do s ← f k.screen; some (record k { screen = s })

abbrev pub set_keyboard : (Keyboard → Keyboard) → Kernel → Kernel
set_keyboard f k = record k { keyboard = f k.keyboard }

-- Ctrl and L clear the screen; any other key with a character is put into the buffer, if there is
-- room, and shown.
unfoldable pub key_pressed_handler : ℕ → Kernel → Option Kernel
key_pressed_handler scancode k =
    if leb num_keys scancode
    then some k
    else if k.keyboard.ctrl_pressed == 1
    then (do
      c ← key_char k.keyboard.keys_state scancode
      if c == b'l'
          then (do
            k' ← on_screen Printf.clear k
            some (set_keyboard (λ kb. record kb { key_buffer_pos = 0 }) k'))
          else some k)
    else if ltb k.keyboard.key_buffer_pos key_buffer_size
    then (do
      c ← key_char k.keyboard.keys_state scancode
      if c == 0 then some k else (do
        k' ← set_key k.keyboard.key_buffer_pos c k
        let k'' =
            set_keyboard
              (λ kb. record kb {
                key_buffer_pos = u32 (kb.key_buffer_pos + 1);
                right_bound = u32 (kb.right_bound + 1);
              })
              k'
        on_screen (Screen.putc c) k''))
    else some k

-- The loop of `clear_buffer` from `i` on.
clear_loop : ℕ → ℕ → Kernel → Option Kernel
clear_loop zero i k = some k
clear_loop (suc n) i k = do k' ← set_key i 0 k; clear_loop n (i + 1) k'

pub clear_buffer : Kernel → Option Kernel
unfolding clear_loop
clear_buffer k =
    clear_loop key_buffer_size 0
      (set_keyboard (λ kb. record kb { key_buffer_pos = 0; right_bound = 7 }) k)

unfoldable pub handle_enter : Kernel → Option Kernel
handle_enter k =
    on_screen Screen.do_enter
      (set_keyboard (λ kb. record kb { enter_pressed = 1; right_bound = 7 }) k)

unfoldable pub handle_backspace : Kernel → Option Kernel
handle_backspace k =
    if ltb 0 k.keyboard.key_buffer_pos
    then (do
      let pos = sub32 k.keyboard.key_buffer_pos 1
      k' ← set_key pos 0 (set_keyboard (λ kb. record kb { key_buffer_pos = pos }) k)
      let k'' = set_keyboard (λ kb. record kb { right_bound = sub32 kb.right_bound 1 }) k'
      on_screen Screen.do_backspace k'')
    else some k

unfoldable pub move_cursor_left : Kernel → Kernel
move_cursor_left k =
    let x : ℕ = sub32 k.screen.screen_x 1 in
    let y : ℕ = k.screen.screen_y in
    if k.screen.screen_x != 7
    then set_keyboard (λ kb. record kb { key_buffer_pos = sub32 kb.key_buffer_pos 1 })
        (record k { screen = Screen.update_cursor_loc x y (Screen.set_screen_pos x y k.screen) })
    else k

unfoldable pub move_cursor_right : Kernel → Kernel
move_cursor_right k =
    let x : ℕ = u32 (k.screen.screen_x + 1) in
    let y : ℕ = k.screen.screen_y in
    if slt k.screen.screen_x k.keyboard.right_bound
    then set_keyboard (λ kb. record kb { key_buffer_pos = u32 (kb.key_buffer_pos + 1) })
        (record k { screen = Screen.update_cursor_loc x y (Screen.set_screen_pos x y k.screen) })
    else k
