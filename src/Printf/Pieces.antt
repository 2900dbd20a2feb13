-- ===== src/Printf/Pieces.antt =====
-- What `printf` of student-distrib/lib.c shows: a format as a sequence of pieces, each a character
-- or a conversion with its argument.
use apoll_os.Prelude.{
  ℕ, suc, ◌+◌, ◌-◌, ◌^◌, ◌≤◌, ◌<◌, ◌≡◌, refl, ap, ◌≢◌, arith, false, some, List, [], ◌∷◌, ◌++◌, map,
  ltb, ◌==◌, if◌then◌else◌, length, drop, replicate, All, length-replicate, u8, u32,
}
use apoll_os.CString.{itoa}
use apoll_os.CString.Compare.{NoNul}
use apoll_os.CString.Digits.{itoa-IsNumeral}
use apoll_os.CString.Numerals.{number_from, digit_value, NoExtraZero}
use apoll_os.Screen.{Screen, puts, puts_loop}
use apoll_os.Screen.Bounds.{IsOnScreen, putc-Keeps}
use apoll_os.Printf.{Arg, word, str, conv_buf}
use apoll_os.Tty.Writing.{put_all}

-- A piece of a format, with its argument.
pub data Piece : Type 0 where
  character : ℕ → Piece
  percent : Piece
  hex : ℕ → Piece
  hex8 : ℕ → Piece
  unsigned : ℕ → Piece
  signed : ℕ → Piece
  char_of : ℕ → Piece
  string : List ℕ → List ℕ → Piece

-- An ordinary character, a word of 32 bits, or a string with its NUL and what stands behind it.
abbrev pub IsPiece : Piece → Type 0
IsPiece (character c) = (c ≢ 0) × (c ≢ b'%')
IsPiece percent = Unit
IsPiece (hex w) = w < 2 ^ 32
IsPiece (hex8 w) = w < 2 ^ 32
IsPiece (unsigned w) = w < 2 ^ 32
IsPiece (signed w) = w < 2 ^ 32
IsPiece (char_of w) = Unit
IsPiece (string s rest) = NoNul s × (length s < 2 ^ 32)

abbrev pub format_of : Piece → List ℕ
format_of (character c) = c ∷ []
format_of percent = b'%' ∷ b'%' ∷ []
format_of (hex w) = b'%' ∷ b'x' ∷ []
format_of (hex8 w) = b'%' ∷ b'#' ∷ b'x' ∷ []
format_of (unsigned w) = b'%' ∷ b'u' ∷ []
format_of (signed w) = b'%' ∷ b'd' ∷ []
format_of (char_of w) = b'%' ∷ b'c' ∷ []
format_of (string s rest) = b'%' ∷ b's' ∷ []

abbrev pub args_of : Piece → List Arg
args_of (character c) = []
args_of percent = []
args_of (hex w) = word w ∷ []
args_of (hex8 w) = word w ∷ []
args_of (unsigned w) = word w ∷ []
args_of (signed w) = word w ∷ []
args_of (char_of w) = word w ∷ []
args_of (string s rest) = str (s ++ (0 ∷ rest)) ∷ []

-- Characters that are digits of the radix and read as the number.
pub record Numeral (radix value : ℕ) (shown : List ℕ) : Type 0 where
  pub reads_as : number_from radix 0 (map digit_value shown) ≡ value
  pub digits_small : All (λ c. digit_value c < radix) shown
  pub no_extra : NoExtraZero b'0' shown

-- A numeral filled up to 8 characters with zeros in front.
pub record Filled (value : ℕ) (shown : List ℕ) : Type 0 where
  pub numeral : List ℕ
  pub is_numeral : Numeral 16 value numeral
  pub filled : shown ≡ replicate (8 - length numeral) b'0' ++ numeral

-- Below 2 ^ 31 the number itself; from there on a minus, and the number to the next 2 ^ 32.
pub record Signed (value : ℕ) (shown : List ℕ) : Type 0 where
  pub numeral : List ℕ
  pub magnitude : Numeral 10 (if ltb value (2 ^ 31) then value else 2 ^ 32 - value) numeral
  pub sign : shown ≡ (if ltb value (2 ^ 31) then numeral else b'-' ∷ numeral)

-- The text of a piece.
abbrev pub Shows : Piece → List ℕ → Type 0
Shows (character c) shown = shown ≡ c ∷ []
Shows percent shown = shown ≡ b'%' ∷ []
Shows (hex w) shown = Numeral 16 w shown
Shows (hex8 w) shown = Filled w shown
Shows (unsigned w) shown = Numeral 10 w shown
Shows (signed w) shown = Signed w shown
Shows (char_of w) shown = shown ≡ u8 w ∷ []
Shows (string s rest) shown = shown ≡ s

abbrev pub format : List Piece → List ℕ
format [] = []
format (p ∷ ps) = format_of p ++ format ps

abbrev pub arguments : List Piece → List Arg
arguments [] = []
arguments (p ∷ ps) = args_of p ++ arguments ps

-- The text of a sequence of pieces.
abbrev pub ShowsAll : List Piece → List ℕ → Type 0
ShowsAll [] shown = shown ≡ []
ShowsAll (p ∷ ps) shown =
    (first : List ℕ) × (rest : List ℕ) × (shown ≡ first ++ rest) × Shows p first × ShowsAll ps rest

-- `puts` of a text up to its NUL.
pub record Put (shown : List ℕ) (s : Screen) : Type 0 where
  pub after : Screen
  pub run : put_all shown s ≡ some after
  pub inside : IsOnScreen after

puts_loop-Put :
    (shown rest : List ℕ) (i : ℕ) (s : Screen)
    → NoNul shown
    → i + length shown < 2 ^ 32
    → IsOnScreen s
    → (p : Put shown s) × (puts_loop (shown ++ (0 ∷ rest)) i s ≡ some (i + length shown, p.after))
unfolding puts_loop
puts_loop-Put [] rest i s n small on =
    (record { after = s; run = refl; inside = on }, ap (λ k. some (k, s)) (omega arith))
puts_loop-Put (c ∷ shown) rest i s n small on =
    let (s', put, on') = putc-Keeps c s on in
    let (p, run) = puts_loop-Put shown rest (i + 1) s' n.1 (omega arith) on' in
    let more : (c == 0) ≡ false = ground (arith, n.0) in
    let next : u32 (i + 1) ≡ i + 1 = omega arith in
    let count : i + 1 + length shown ≡ i + suc (length shown) = omega arith in
    (
      record { after = p.after; run = rw put (p.run); inside = p.inside },
      rw (more, put, next, ← count) run,
    )

pub puts-Put :
    (shown rest : List ℕ) (s : Screen)
    → NoNul shown
    → length shown < 2 ^ 32
    → IsOnScreen s
    → (p : Put shown s) × (puts (shown ++ (0 ∷ rest)) s ≡ some (length shown, p.after))
unfolding puts
puts-Put shown rest s n small on =
    let (p, run) = puts_loop-Put shown rest 0 s n (omega arith) on in
    let count : 0 + length shown ≡ length shown = omega arith in (p, rw (← count) run)

-- What `itoa` leaves in `conv_buf`.
pub record Converted (radix value : ℕ) : Type 0 where
  pub shown : List ℕ
  pub is_numeral : Numeral radix value shown
  pub behind : List ℕ
  pub run : itoa value conv_buf radix ≡ some (shown ++ (0 ∷ behind))
  pub plain_text : NoNul shown
  pub short : length shown ≤ 32

pub itoa-Converted :
    (radix value : ℕ) → value < 2 ^ 32 → 2 ≤ radix → radix ≤ 36 → Converted radix value
itoa-Converted radix value small lo hi =
    let size : length conv_buf ≡ 64 = length-replicate {A = ℕ} 64 0 in
    let n =
      itoa-IsNumeral value conv_buf radix small lo hi (omega (arith, size)) (omega (arith, size)) in
    record {
      shown = n.shown;
      is_numeral = record {
        reads_as = n.reads_back;
        digits_small = n.digits_small;
        no_extra = n.no_extra;
      };
      behind = drop (length n.shown + 1) conv_buf;
      run = n.result;
      plain_text = n.plain_text;
      short = n.short;
    }
