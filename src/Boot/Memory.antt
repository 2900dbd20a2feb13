-- ===== src/Boot/Memory.antt =====
-- What the boot loader of student-distrib/kernel.c's `entry` leaves in memory, and texts that follow one
-- another.
use apoll_os.Prelude.{bit_and-field}
use apoll_os.Prelude.{
  ℕ, zero, suc, ◌+◌, ◌*◌, ◌/◌, ◌%◌, ◌^◌, ◌≤◌, ◌<◌, bit_and, ◌≡◌, refl, sym, ap, ◌∙◌, arith, true,
  false, List, [], ◌∷◌, ◌++◌, ◌==◌, ◌!=◌, length, u32,
}
use mathlib.Core.Path.{subst}
use apoll_os.CString.Compare.{NoNul}
use apoll_os.Screen.{Screen}
use apoll_os.Screen.Bounds.{IsOnScreen}
use apoll_os.Multiboot.{check_flag}
use apoll_os.Printf.Pieces.{Piece, ShowsAll}
use apoll_os.Tty.Writing.{put_all-append}
use apoll_os.Boot.Report.{Told, text_from, flag_on, word_in}
use mathlib.Core.List.{append_assoc}

-- What stands in memory: four bytes at every address, and a NUL behind every address.
pub record IsMemory (memory : ℕ → List ℕ) : Type 0 where
  pub bytes_at :
      (addr : ℕ)
      → (a : ℕ) × (b : ℕ) × (c : ℕ) × (d : ℕ) × (rest : List ℕ) × (memory addr
          ≡ a ∷ (b ∷ (c ∷ (d ∷ rest))))
        × (a < 256)
        × (b < 256)
        × (c < 256)
        × (d < 256)
  pub text_at :
      (addr : ℕ)
      → (t : List ℕ) × (rest : List ℕ) × (memory addr ≡ t ++ (0 ∷ rest))
        × NoNul t
        × (length t < 2 ^ 32)

-- A memory map from an address on: regions up to its end, whose sizes do not wrap around.
pub data IsMap (memory : ℕ → List ℕ) (stop : ℕ) : ℕ → Type 0 where
  ends : {mmap : ℕ} → stop ≤ mmap → IsMap memory stop mmap
  region :
      {mmap : ℕ}
      → mmap < stop
      → mmap + word_in memory mmap + 4 < 2 ^ 32
      → IsMap memory stop (mmap + word_in memory mmap + 4)
      → IsMap memory stop mmap

-- The map that the boot loader's information names.
abbrev pub HasMap : (ℕ → List ℕ) → ℕ → Type 0
HasMap memory mbi =
    IsMap memory (u32 (word_in memory (mbi + 48) + word_in memory (mbi + 44)))
      (word_in memory (mbi + 48))

ShowsAll-append :
    (ps qs : List Piece) (a b : List ℕ)
    → ShowsAll ps a
    → ShowsAll qs b
    → ShowsAll (ps ++ qs) (a ++ b)
ShowsAll-append [] qs a b e h = subst (λ t. ShowsAll qs (t ++ b)) (sym e) h
ShowsAll-append (p ∷ ps) qs a b (first, rest, parts, shows, more) h = (
  first,
  rest ++ b,
  ap (λ t. t ++ b) parts ∙ append_assoc first rest b,
  shows,
  ShowsAll-append ps qs rest b more h,
)

-- One text after another.
pub Told-append :
    (s s1 s2 : Screen) (ps qs : List Piece) → Told s ps s1 → Told s1 qs s2 → Told s (ps ++ qs) s2
Told-append s s1 s2 ps qs t u = record {
  shown = t.shown ++ u.shown;
  shows = ShowsAll-append ps qs t.shown u.shown t.shows u.shows;
  put = put_all-append t.shown u.shown s s1 t.put ∙ u.put;
  inside = u.inside;
}

pub nothing-Told : (s : Screen) → IsOnScreen s → Told s [] s
nothing-Told s on = record { shown = []; shows = refl; put = refl; inside = on }

pub text_from-NoNul : (t rest : List ℕ) → NoNul t → text_from (t ++ (0 ∷ rest)) ≡ t
text_from-NoNul [] rest h = refl
text_from-NoNul (c ∷ t) rest h =
    let more : (c == 0) ≡ false = ground (arith, h.0) in
    rw more (ap (λ r. c ∷ r) (text_from-NoNul t rest h.1))

-- A bit of the flags, as CHECK_FLAG masks it.
flag_lem :
    (flags i h f r : ℕ)
    → flags ≡ (h * 2 ^ 1 + f) * 2 ^ i + r
    → r < 2 ^ i
    → f < 2
    → check_flag flags i ≡ (f == 1)
flag_lem flags i h zero r e below small =
    let one : 1 * 2 ^ i ≡ 2 ^ i = omega arith in
    let masked : bit_and flags (1 * 2 ^ i) ≡ 0 * 2 ^ i =
      bit_and-field flags i 1 h 0 r 1 e below (omega arith) refl in
    let same : bit_and flags (2 ^ i) ≡ 0 = ap (bit_and flags) (sym one) ∙ masked ∙ omega arith in
    rw same
flag_lem flags i h (suc zero) r e below small =
    let one : 1 * 2 ^ i ≡ 2 ^ i = omega arith in
    let masked : bit_and flags (1 * 2 ^ i) ≡ 1 * 2 ^ i =
      bit_and-field flags i 1 h 1 r 1 e below (omega arith) refl in
    let same : bit_and flags (2 ^ i) ≡ 2 ^ i = ap (bit_and flags) (sym one) ∙ masked ∙ one in
    let some_bit : (2 ^ i != 0) ≡ true = ground arith in rw (same, some_bit)
flag_lem flags i h (suc (suc f)) r e below small = absurd (omega arith)

abbrev pub Agrees : ℕ → ℕ → Type 0
Agrees flags i = check_flag flags i ≡ flag_on flags i

pub flag_on-check_flag :
    (flags : ℕ)
    → Agrees flags 0
      × Agrees flags 1
      × Agrees flags 2
      × Agrees flags 3
      × Agrees flags 4
      × Agrees flags 5
      × Agrees flags 6
flag_on-check_flag flags = (
  flag_lem flags 0 (flags / 2) (flags % 2) 0 (omega arith) (omega arith) (omega arith)
      ∙ ap (λ n. n % 2 == 1) (omega arith),
  flag_lem flags 1 (flags / 4) (flags / 2 % 2) (flags % 2) (omega arith) (omega arith)
      (omega arith),
  flag_lem flags 2 (flags / 8) (flags / 4 % 2) (flags % 4) (omega arith) (omega arith)
      (omega arith),
  flag_lem flags 3 (flags / 16) (flags / 8 % 2) (flags % 8) (omega arith) (omega arith)
      (omega arith),
  flag_lem flags 4 (flags / 32) (flags / 16 % 2) (flags % 16) (omega arith) (omega arith)
      (omega arith),
  flag_lem flags 5 (flags / 64) (flags / 32 % 2) (flags % 32) (omega arith) (omega arith)
      (omega arith),
  flag_lem flags 6 (flags / 128) (flags / 64 % 2) (flags % 64) (omega arith) (omega arith)
      (omega arith),
)
