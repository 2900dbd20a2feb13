-- ===== src/Tty.antt =====
-- The terminal's file operations of student-distrib/terminal.c.
pub mod ReadLine
pub mod Writing
use apoll_os.Prelude.{
  ℕ, zero, suc, ◌+◌, Option, none, some, List, [], ◌∷◌, ◌==◌, ◌!=◌, if◌then◌else◌, get_elem?, ◌>>=◌,
  neg32,
}
use apoll_os.Screen
use apoll_os.Kernel.{Kernel, Terminal}
use apoll_os.Keyboard.{clear_buffer, on_screen, set_keyboard}

pub terminal_open : List ℕ → Kernel → ℕ
terminal_open filename k = 0

pub terminal_close : ℕ → Kernel → ℕ
terminal_close fd k = 0

-- What a read gives: it waits, or it returns a result with the new state and the buffer.
pub data Reply : Type 0 where
  waits : Reply
  returns : ℕ → Kernel → List ℕ → Reply

-- `while (key_buffer[i] != '\0' && i < nbytes)`: how many bytes are copied, and the buffer. The
-- rounds are `nbytes - i`; the key is read before the bound is tested.
unfoldable pub copy_line : ℕ → List ℕ → List ℕ → Option (ℕ × List ℕ)
copy_line n [] buf = none
copy_line zero (c ∷ keys) buf = some (0, buf)
copy_line (suc n) (c ∷ keys) [] = if c == 0 then some (0, []) else none
copy_line (suc n) (c ∷ keys) (d ∷ buf) =
    if c == 0
    then some (0, d ∷ buf)
    else (do (count, rest) ← copy_line n keys buf; some (count + 1, c ∷ rest))

-- `while (!enter_pressed)` waits for an interrupt. A negative number of bytes copies none.
unfoldable pub terminal_read : ℕ → List ℕ → ℕ → Kernel → Option Reply
terminal_read fd buf nbytes k = if k.keyboard.enter_pressed == 0 then some waits else (do
  let k' = set_keyboard (λ kb. record kb { enter_pressed = 0 }) k
  n ← k'.keyboard.key_buffer
  t ← get_elem? k'.terminal n
  (count, buf') ← copy_line (if neg32 nbytes then 0 else nbytes) t.key_buffer buf
  k'' ← clear_buffer k'
  some (returns count k'' buf'))

-- The loop of `terminal_write` over the buffer, with the rounds that are left and the bytes
-- written so far.
unfoldable pub write_loop : ℕ → List ℕ → ℕ → Kernel → Option (ℕ × Kernel)
write_loop zero buf written k = some (written, k)
write_loop (suc n) [] written k = none
write_loop (suc n) (c ∷ buf) written k =
    let next = (do k' ← on_screen (Screen.putc c) k; write_loop n buf (written + 1) k') in
    if c != 0 then next else some (written, k)

unfoldable pub terminal_write : ℕ → List ℕ → ℕ → Kernel → Option (ℕ × Kernel)
unfolding write_loop
terminal_write fd buf nbytes k = write_loop (if neg32 nbytes then 0 else nbytes) buf 0 k
