-- ===== src/Printf/Formats.antt =====
-- `printf` of student-distrib/lib.c on a whole format.
use apoll_os.Prelude.{
  ℕ, ◌+◌, ◌^◌, ◌<◌, ◌≡◌, refl, ap, ◌∙◌, ◌≢◌, arith, false, Option, some, List, [], ◌∷◌, ◌++◌, ◌==◌,
  length, All, length-append, u8, u32,
}
use mathlib.Core.List.{append_assoc}
use apoll_os.Screen.{Screen, putc, update_cursor_loc, set_screen_pos}
use apoll_os.Screen.Cells.{fill_cells-Filled}
use apoll_os.Screen.Bounds.{IsOnScreen, putc-Keeps}
use apoll_os.Printf.{
  Arg, pop_word, pop_str, hex_text, plain, printf_step, ends_format, printf_loop, printf, clear,
}
use apoll_os.Printf.Pieces.{
  Piece, character, percent, hex, hex8, unsigned, signed, char_of, string, IsPiece, format_of,
  args_of, Shows, format, arguments, ShowsAll, Put, puts-Put, itoa-Converted,
}
use apoll_os.Tty.Writing.{put_all, put_all-append}
use apoll_os.Printf.Conversions.{hex_text-Filled, signed_text-Signed}

-- One piece: what it shows is put on the screen, and the format goes on behind it.
record Printed (p : Piece) (rest : List ℕ) (n : ℕ) (args : List Arg) (s : Screen) : Type 0 where
  shown : List ℕ
  shows : Shows p shown
  put : Put shown s
  run :
      printf_loop plain (format_of p ++ rest) n (args_of p ++ args) s
      ≡ printf_loop plain rest (n + length (format_of p)) args put.after

one_char : (c : ℕ) (s : Screen) → IsOnScreen s → (p : Put (c ∷ []) s) × (putc c s ≡ some p.after)
one_char c s on =
    let (s', put, on') = putc-Keeps c s on in
    (record { after = s'; run = rw put refl; inside = on' }, put)

step_count : (n : ℕ) → n + 1 < 2 ^ 32 → u32 (n + 1) ≡ n + 1
step_count n h = omega arith

piece-Printed :
    (p : Piece) (rest : List ℕ) (n : ℕ) (args : List Arg) (s : Screen)
    → IsPiece p
    → n + length (format_of p) < 2 ^ 32
    → IsOnScreen s
    → Printed p rest n args s
unfolding printf_loop printf_step pop_word pop_str ends_format
piece-Printed (character c) rest n args s (no_nul, ordinary) small on =
    let (p, put) = one_char c s on in
    let more : (c == 0) ≡ false = ground arith in
    let no_percent : (c == b'%') ≡ false = ground arith in
    record {
      shown = c ∷ [];
      shows = refl;
      put = p;
      run = rw (more, no_percent, put, step_count n small);
    }
piece-Printed percent rest n args s h small on =
    let (p, put) = one_char b'%' s on in
    let count : u32 (u32 (n + 1) + 1) ≡ n + 2 = omega arith in
    record { shown = b'%' ∷ []; shows = refl; put = p; run = rw (put, count) }
piece-Printed (hex w) rest n args s h small on =
    let c = itoa-Converted 16 w h (omega arith) (omega arith) in
    let (p, put) = puts-Put c.shown c.behind s c.plain_text (omega (arith, c.short)) on in
    let count : u32 (u32 (n + 1) + 1) ≡ n + 2 = omega arith in
    let text : hex_text false w ≡ some (c.shown ++ (0 ∷ c.behind)) = unfold hex_text in c.run in
    record { shown = c.shown; shows = c.is_numeral; put = p; run = rw (text, put, count) }
piece-Printed (hex8 w) rest n args s h small on =
    let (shown, behind, shows, text, no_nul, short) = hex_text-Filled w h in
    let (p, put) = puts-Put shown behind s no_nul short on in
    let count : u32 (u32 (u32 (n + 1) + 1) + 1) ≡ n + 3 = omega arith in
    record { shown = shown; shows = shows; put = p; run = rw (text, put, count) }
piece-Printed (unsigned w) rest n args s h small on =
    let c = itoa-Converted 10 w h (omega arith) (omega arith) in
    let (p, put) = puts-Put c.shown c.behind s c.plain_text (omega (arith, c.short)) on in
    let count : u32 (u32 (n + 1) + 1) ≡ n + 2 = omega arith in
    record { shown = c.shown; shows = c.is_numeral; put = p; run = rw (c.run, put, count) }
piece-Printed (signed w) rest n args s h small on =
    let (shown, behind, shows, text, no_nul, short) = signed_text-Signed w h in
    let (p, put) = puts-Put shown behind s no_nul short on in
    let count : u32 (u32 (n + 1) + 1) ≡ n + 2 = omega arith in
    record { shown = shown; shows = shows; put = p; run = rw (text, put, count) }
piece-Printed (char_of w) rest n args s h small on =
    let (p, put) = one_char (u8 w) s on in
    let count : u32 (u32 (n + 1) + 1) ≡ n + 2 = omega arith in
    record { shown = u8 w ∷ []; shows = refl; put = p; run = rw (put, count) }
piece-Printed (string t behind) rest n args s (no_nul, short) small on =
    let (p, put) = puts-Put t behind s no_nul short on in
    let count : u32 (u32 (n + 1) + 1) ≡ n + 2 = omega arith in
    record { shown = t; shows = refl; put = p; run = rw (put, count) }

abbrev Prints : Option (ℕ × Screen) → ℕ → List Piece → Screen → Type 0
Prints o count ps s =
    (shown : List ℕ) × (s' : Screen) × (o ≡ some (count, s'))
    × ShowsAll ps shown
    × (put_all shown s ≡ some s')
    × IsOnScreen s'

printf_loop-Prints :
    (ps : List Piece) (behind : List ℕ) (more : List Arg) (n : ℕ) (s : Screen)
    → All IsPiece ps
    → n + length (format ps) < 2 ^ 32
    → IsOnScreen s
    → Prints
        (printf_loop plain (format ps ++ (0 ∷ behind)) n (arguments ps ++ more) s)
        (n + length (format ps))
        ps
        s
unfolding printf_loop ends_format
printf_loop-Prints [] behind more n s h small on =
    ([], s, ap (λ k. some (k, s)) (omega arith), refl, refl, on)
printf_loop-Prints (p ∷ ps) behind more n s h small on =
    let len = length-append (format_of p) (format ps) in
    let one =
      piece-Printed p (format ps ++ (0 ∷ behind)) n (arguments ps ++ more) s h.0
        (omega (arith, len)) on in
    let (shown, s', run, shows, put, on') =
      printf_loop-Prints ps behind more (n + length (format_of p)) one.put.after h.1
        (omega (arith, len)) one.put.inside in
    let count : n + length (format_of p) + length (format ps)
        ≡ n + length (format_of p ++ format ps) =
      omega (arith, len) in
    (
      one.shown ++ shown,
      s',
      ap (λ f. printf_loop plain f n ((args_of p ++ arguments ps) ++ more) s)
            (append_assoc (format_of p) (format ps) (0 ∷ behind))
          ∙ ap (λ a. printf_loop plain (format_of p ++ (format ps ++ (0 ∷ behind))) n a s)
              (append_assoc (args_of p) (arguments ps) more)
          ∙ one.run
          ∙ run
          ∙ ap (λ k. some (k, s')) count,
      (one.shown, shown, refl, one.shows, shows),
      put_all-append one.shown shown s one.put.after one.put.run ∙ put,
      on',
    )

-- For a format that is a sequence of ordinary characters, doubled percent signs and conversions of
-- words of 32 bits, characters and strings, in less than 2 ^ 32 characters, with the cursor on the
-- screen: `printf` takes the arguments in their order, returns the length of the format, and the
-- screen is what putting a text makes of it that is, piece by piece, the character, the numeral
-- whose characters, with 0 to 9 and A to Z read as the digits 0 to 35, are digits of the radix
-- that make the word, at least one and without extra zeros in front, filled with zeros up to 8
-- characters for the alternate form and with a minus before the magnitude of a negative number, or
-- the string.
pub printf-Prints :
    (ps : List Piece) (behind : List ℕ) (more : List Arg) (s : Screen)
    → All IsPiece ps
    → length (format ps) < 2 ^ 32
    → IsOnScreen s
    → (shown : List ℕ) × (s' : Screen) × (printf
          (format ps ++ (0 ∷ behind))
          (arguments ps ++ more)
          s
        ≡ some (length (format ps), s'))
      × ShowsAll ps shown
      × (put_all shown s ≡ some s')
      × IsOnScreen s'
unfolding printf
printf-Prints ps behind more s h small on =
    let (shown, s', run, shows, put, on') =
      printf_loop-Prints ps behind more 0 s h (omega arith) on in
    let count : 0 + length (format ps) ≡ length (format ps) = omega arith in
    (shown, s', run ∙ ap (λ k. some (k, s')) count, shows, put, on')

abbrev prompt_pieces : List Piece
prompt_pieces =
    character 51
    ∷ character 57
    ∷ character 49
    ∷ character 79
    ∷ character 83
    ∷ character 62
    ∷ character 32
    ∷ []

prompt-IsPiece : All IsPiece prompt_pieces
prompt-IsPiece = (
  ok 51 refl refl,
  (
    ok 57 refl refl,
    (
      ok 49 refl refl,
      (ok 79 refl refl, (ok 83 refl refl, (ok 62 refl refl, (ok 32 refl refl, tt)))),
    ),
  ),
)
  where
    ok : (c : ℕ) → (c == 0) ≡ false → (c == 37) ≡ false → (c ≢ 0) × (c ≢ 37)
    ok c z p = (ground arith, ground arith)

-- On a whole page `clear` leaves the cursor on the screen.
pub clear-Keeps :
    (s : Screen) → length s.video ≡ 4096 → (s' : Screen) × (clear s ≡ some s') × IsOnScreen s'
unfolding clear update_cursor_loc set_screen_pos
clear-Keeps s page =
    let blank = fill_cells-Filled b' ' 2000 0 s.video (omega (arith, page)) in
    let s1 = update_cursor_loc 0 0 (set_screen_pos 0 0 (record s { video = blank.out })) in
    let on : IsOnScreen s1 = record {
      page = blank.same_length ∙ page;
      column = omega arith;
      line = omega arith;
    } in
    let (shown, s2, run, shows, put, on') =
      printf-Prints prompt_pieces [] [] s1 prompt-IsPiece (omega arith) on in
    (s2, rw (blank.result, run), on')
