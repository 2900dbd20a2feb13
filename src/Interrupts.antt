-- ===== src/Interrupts.antt =====
-- `keyboard_handler` of student-distrib/keyboard.c: the scan code decides what is called.
pub mod Modifiers
pub mod Waiting
pub mod Serving
pub mod Pressing
pub mod Reading
use apoll_os.Prelude.{ℕ, bit_or, false, ◌||◌, Option, some, ◌==◌, ◌!=◌, if◌then◌else◌, ◌>>=◌}
use apoll_os.Pic.{send_eoi}
use apoll_os.Kernel.{Kernel, Keyboard, sti}
use apoll_os.Keyboard.{
  key_pressed_handler, handle_enter, handle_backspace, move_cursor_left, move_cursor_right,
  set_keyboard,
}
use apoll_os.Execute.{Flow, returned, entered, resumed}
use apoll_os.Terminal.{switch_terminal}

-- `key | 0x80`.
abbrev pub release : ℕ → ℕ
release key = bit_or key 0x80

-- What a scan code stands for.
pub data Key : Type 0 where
  shift_down shift_up capslock ctrl_down ctrl_up alt_down alt_up : Key
  function : ℕ → Key
  arrow_left arrow_right enter backspace : Key
  other : Key

-- The cases of the `switch`, in their order.
unfoldable pub key_of : ℕ → Key
key_of c =
    if c == 0x2a || c == 0x36
    then shift_down
    else if c == release 0x2a || c == release 0x36
    then shift_up
    else if c == 0x3a
    then capslock
    else if c == 0x1d
    then ctrl_down
    else if c == release 0x1d
    then ctrl_up
    else if c == 0x38
    then alt_down
    else if c == release 0x38
    then alt_up
    else if c == 0x3b
    then function 1
    else if c == 0x3c
    then function 2
    else if c == 0x3d
    then function 3
    else if c == 0x4b
    then arrow_left
    else if c == 0x4d
    then arrow_right
    else if c == 0x1c
    then enter
    else if c == 0x0e
    then backspace
    else other

-- What a modifier key does to the state of the keyboard.
unfoldable pub modifier : Key → Keyboard → Keyboard
modifier shift_down kb = record kb {
  shift_pressed = 1;
  keys_state = if kb.capslock_state == 1 then 3 else 1;
}
modifier shift_up kb = record kb {
  shift_pressed = 0;
  keys_state = if kb.capslock_state == 1 then 2 else 0;
}
modifier capslock kb =
    if kb.capslock_state == 0
    then record kb { capslock_state = 1; keys_state = 2 }
    else record kb { capslock_state = 0; keys_state = 0 }
modifier ctrl_down kb = record kb { ctrl_pressed = 1 }
modifier ctrl_up kb = record kb { ctrl_pressed = 0 }
modifier alt_down kb = record kb { alt_pressed = 1 }
modifier alt_up kb = record kb { alt_pressed = 0 }
modifier _ kb = kb

abbrev returning : Option Kernel → Option Flow
returning o = do k ← o; some (returned 0 k)

abbrev ending : Option Flow → Option Flow
ending o = do
  flow ← o
  elim flow [
    | returned ret k ↦ some (returned ret (sti k))
    | entered eip k ↦ some (entered eip k)
    | resumed status k ↦ some (resumed status k)
  ]

unfoldable pub handle_key : Key → ℕ → Kernel → Option Flow
handle_key (function n) scancode k =
    if k.keyboard.alt_pressed == 1 then switch_terminal n k else some (returned 0 k)
handle_key arrow_left scancode k = some (returned 0 (move_cursor_left k))
handle_key arrow_right scancode k = some (returned 0 (move_cursor_right k))
handle_key enter scancode k = returning (handle_enter k)
handle_key backspace scancode k = returning (handle_backspace k)
handle_key other scancode k = returning (key_pressed_handler scancode k)
handle_key key scancode k = some (returned 0 (set_keyboard (modifier key) k))

-- `scancode` is what the keyboard port answers.
unfoldable pub keyboard_handler : ℕ → Kernel → Option Flow
keyboard_handler scancode k =
    let k' = record k { interrupts = false; pic = send_eoi 1 k.pic } in
    ending
      (if scancode != 0xe0 then handle_key (key_of scancode) scancode k' else some (returned 0 k'))
