-- ===== src/Printf.antt =====
-- `printf` and `clear` of student-distrib/lib.c. The variable arguments are what stands on the stack
-- behind the format.
pub mod Pieces
pub mod Conversions
pub mod Formats
use apoll_os.Prelude.{
  ℕ, ◌+◌, ◌-◌, ◌*◌, Bool, true, false, Option, none, some, List, [], ◌∷◌, ◌++◌, ◌==◌, if◌then◌else◌,
  replicate, ◌>>=◌, u8, u32, sub32, neg32, c_string,
}
use apoll_os.CString.{strlen, itoa}
use apoll_os.Screen.{
  Screen, putc, puts, fill_cells, num_rows, num_cols, update_cursor_loc, set_screen_pos,
}

-- What stands on the stack behind the format: a word, or a pointer to a string.
pub data Arg : Type 0 where
  word : ℕ → Arg
  str : List ℕ → Arg

pop_word : List Arg → Option (ℕ × List Arg)
pop_word (word w ∷ args) = some (w, args)
pop_word _ = none

pop_str : List Arg → Option (List ℕ × List Arg)
pop_str (str s ∷ args) = some (s, args)
pop_str _ = none

-- `conv_buf`. Its first contents do not matter: what is printed has been written.
abbrev conv_buf : List ℕ
conv_buf = replicate 64 0

-- The text of a number, up to its NUL.
pub hex_text : Bool → ℕ → Option (List ℕ)
hex_text false w = itoa w conv_buf 16
hex_text true w = do
  digits ← itoa w conv_buf 16
  starting_index ← strlen digits
  some (replicate (8 - starting_index) b'0' ++ digits)

pub signed_text : ℕ → Option (List ℕ)
signed_text w =
    if neg32 w
    then (do digits ← itoa (sub32 0 w) conv_buf 10; some (b'-' ∷ digits))
    else itoa w conv_buf 10

-- Where the loop stands in the format: outside a conversion, or behind its `%`.
data Mode : Type 0 where
  plain : Mode
  conversion : Bool → Mode

-- One character of the format: what it prints, what it takes from the stack, and what comes next.
printf_step : Mode → ℕ → List Arg → Screen → Option (Mode × List Arg × Screen)
printf_step plain c args s =
    if c == b'%'
    then some (conversion false, args, s)
    else (do s' ← putc c s; some (plain, args, s'))
printf_step (conversion alternate) c args s =
    if c == b'%'
    then (do s' ← putc b'%' s; some (plain, args, s'))
    else if c == b'#'
    then some (conversion true, args, s)
    else if c == b'x'
    then (do
      (w, args') ← pop_word args
      text ← hex_text alternate w
      (_, s') ← puts text s
      some (plain, args', s'))
    else if c == b'u'
    then (do
      (w, args') ← pop_word args
      text ← itoa w conv_buf 10
      (_, s') ← puts text s
      some (plain, args', s'))
    else if c == b'd'
    then (do
      (w, args') ← pop_word args
      text ← signed_text w
      (_, s') ← puts text s
      some (plain, args', s'))
    else if c == b'c'
    then (do (w, args') ← pop_word args; s' ← putc (u8 w) s; some (plain, args', s'))
    else if c == b's'
    then (do (text, args') ← pop_str args; (_, s') ← puts text s; some (plain, args', s'))
    else some (plain, args, s)

ends_format : Mode → ℕ → Bool
ends_format plain c = c == 0
ends_format (conversion alternate) c = false

printf_loop : Mode → List ℕ → ℕ → List Arg → Screen → Option (ℕ × Screen)
printf_loop m [] n args s = none
printf_loop m (c ∷ buf) n args s =
    let next = (do
      (m', args', s') ← printf_step m c args s
      printf_loop m' buf (u32 (n + 1)) args' s') in
    if ends_format m c then some (n, s) else next

-- The result is `buf - format`.
pub printf : List ℕ → List Arg → Screen → Option (ℕ × Screen)
unfolding printf_loop printf_step
printf format args s = printf_loop plain format 0 args s

abbrev pub prompt : List ℕ
prompt = c_string "391OS> "

pub clear : Screen → Option Screen
clear s = do
  video' ← fill_cells b' ' (num_rows * num_cols) 0 s.video
  let s' = update_cursor_loc 0 0 (set_screen_pos 0 0 (record s { video = video' }))
  (_, s'') ← printf prompt [] s'
  some s''
