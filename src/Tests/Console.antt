-- ===== src/Tests/Console.antt =====
-- Tests of the screen, the keyboard and the terminal of student-distrib/.
use apoll_os.Prelude.{
  ℕ, zero, suc, ◌<◌, ◌≡◌, refl, arith, none, some, List, [], ◌∷◌, length, get_elem?, replicate,
  length-replicate,
}
use apoll_os.CString.Compare.{NoNul}
use apoll_os.Screen.{Screen, scroll, putc}
use apoll_os.Screen.Cells.{scroll_lem, scrolled_byte}
use apoll_os.Screen.Bounds.{IsOnScreen, Keeps, putc-Keeps}
use apoll_os.Screen.Backspace.{IsChar}
use apoll_os.Kernel.{Kernel}
use apoll_os.Keyboard.{key_char, key_scancodes, key_pressed_handler, set_keyboard}
use apoll_os.Keyboard.Editing.{IsActive, with_keys}
use apoll_os.Keyboard.Typing.{Holds, key_pressed_handler-Holds}
use apoll_os.Tty.{returns, terminal_read}
use apoll_os.Tty.ReadLine.{terminal_read_lem, terminal_read-full}
use apoll_os.Tests.Data.{blank_screen, typed_terminal, kernel_with}

blank_page : length (replicate {A = ℕ} 4096 0) ≡ 4096
blank_page = length-replicate {A = ℕ} 4096 0

blank_screen-IsOnScreen : (x y : ℕ) → x < 80 → y < 25 → IsOnScreen (blank_screen x y)
blank_screen-IsOnScreen x y hx hy = record { page = blank_page; column = hx; line = hy }

a-IsChar : IsChar 97
a-IsChar = ((λ e. absurd (omega arith)), (λ e. absurd (omega arith)))

scroll_lem_example :
    (s' : Screen) × (scroll (blank_screen 3 24) ≡ some s')
    × (s'.screen_x ≡ 0)
    × (s'.screen_y ≡ 24)
    × (s'.out ≡ [])
    × (length s'.video ≡ 4096)
    × ((j : ℕ) → get_elem? s'.video j ≡ scrolled_byte (blank_screen 3 24).video j)
scroll_lem_example = scroll_lem (blank_screen 3 24) blank_page

putc-Keeps_example : Keeps (putc 97 (blank_screen 79 24))
putc-Keeps_example =
    putc-Keeps 97 (blank_screen 79 24) (blank_screen-IsOnScreen 79 24 (omega arith) (omega arith))

abbrev hi_line : List ℕ
hi_line = 104 ∷ 105 ∷ []

abbrev hi_keys : List ℕ
hi_keys = 104 ∷ 105 ∷ replicate 126 0

abbrev hi_kernel : ℕ → Kernel
hi_kernel enter = kernel_with hi_keys 2 enter 0x7fff00

hi_keys-size : length hi_keys ≡ 128
hi_keys-size = omega (arith, length-replicate {A = ℕ} 126 0)

hi_kernel-IsActive : (enter : ℕ) → IsActive (hi_kernel enter) 0 (typed_terminal hi_keys)
hi_kernel-IsActive enter = record { pointer = refl; entry = refl; size = hi_keys-size }

hi_line-NoNul : NoNul hi_line
hi_line-NoNul = ((λ e. absurd (omega arith)), ((λ e. absurd (omega arith)), tt))

hi_kernel-Holds : Holds (hi_kernel 0) 0 hi_line
hi_kernel-Holds = record {
  term = typed_terminal hi_keys;
  active = hi_kernel-IsActive 0;
  keys = refl;
  pos = refl;
  short = omega arith;
  text = hi_line-NoNul;
  shown = blank_screen-IsOnScreen 7 0 (omega arith) (omega arith);
}

a_key : key_char 0 30 ≡ some 97
unfolding key_char key_scancodes
a_key = refl

key_pressed_handler-Holds_example :
    (k' : Kernel) × (key_pressed_handler 30 (hi_kernel 0) ≡ some k')
    × Holds k' 0 (104 ∷ 105 ∷ 97 ∷ [])
    × (k'.keyboard ≡ record (hi_kernel 0).keyboard { key_buffer_pos = 3; right_bound = 10 })
    × (putc 97 (hi_kernel 0).screen ≡ some k'.screen)
key_pressed_handler-Holds_example =
    key_pressed_handler-Holds 30 97 (hi_kernel 0) 0 hi_line hi_kernel-Holds (omega arith)
      (λ e. absurd (omega arith)) a_key (λ e. absurd (omega arith)) (omega arith)

terminal_read_lem_example :
    terminal_read 0 (1 ∷ 1 ∷ 1 ∷ []) 3 (hi_kernel 1)
    ≡ some (
        returns 2
          (set_keyboard
            (λ kb. record kb { enter_pressed = 0; key_buffer_pos = 0; right_bound = 7 })
            (with_keys (hi_kernel 1) 0 (typed_terminal hi_keys) (replicate 128 0)))
          (104 ∷ 105 ∷ 1 ∷ []))
terminal_read_lem_example =
    terminal_read_lem 0 (1 ∷ 1 ∷ 1 ∷ []) 3 (hi_kernel 1) 0 (typed_terminal hi_keys) hi_line
      (replicate 125 0) (hi_kernel-IsActive 1) refl hi_line-NoNul (omega arith) (omega arith)

-- A key buffer that is full of the letter a.
abbrev full_keys : List ℕ
full_keys = replicate 128 97

NoNul-replicate : (n : ℕ) → NoNul (replicate n 97)
NoNul-replicate zero = tt
NoNul-replicate (suc n) = ((λ e. absurd (omega arith)), NoNul-replicate n)

full_kernel-IsActive : IsActive (kernel_with full_keys 128 1 0x7fff00) 0 (typed_terminal full_keys)
full_kernel-IsActive = record {
  pointer = refl;
  entry = refl;
  size = length-replicate {A = ℕ} 128 97;
}

terminal_read-full_example :
    terminal_read 0 (replicate 128 0) 128 (kernel_with full_keys 128 1 0x7fff00) ≡ none
terminal_read-full_example =
    terminal_read-full 0 (replicate 128 0) 128 (kernel_with full_keys 128 1 0x7fff00) 0
      (typed_terminal full_keys) full_kernel-IsActive (λ e. absurd (omega arith))
      (NoNul-replicate 128) (omega arith) (omega arith)
      (omega (arith, length-replicate {A = ℕ} 128 0))
