-- ===== src/User/Text.antt =====
-- Texts that the programs of syscalls/ put on the screen.
use apoll_os.Prelude.{
  ℕ, suc, ◌+◌, ◌^◌, ◌<◌, ◌≡◌, refl, ap, ◌∙◌, inr, arith, Bool, true, false, ◌&&◌, some, List, [],
  ◌∷◌, ◌++◌, ◌==◌, ◌!=◌, length, u32,
}
use apoll_os.CString.Compare.{NoNul, Readable, text}
use apoll_os.User.Support.{strlen, strlen_loop}

strlen_loop-NoNul :
    (s : List ℕ) (len : ℕ)
    → NoNul s
    → len + length s < 2 ^ 32
    → strlen_loop (s ++ (0 ∷ [])) len ≡ some (len + length s)
unfolding strlen_loop
strlen_loop-NoNul [] len plain small = let e : len + 0 ≡ len = omega arith in rw e
strlen_loop-NoNul (c ∷ s) len plain small =
    let more : (c != 0) ≡ true = ground (arith, plain.0) in
    let next : u32 (len + 1) ≡ len + 1 = omega arith in
    let count : len + 1 + length s ≡ len + suc (length s) = omega arith in
    rw (more, next, strlen_loop-NoNul s (len + 1) plain.1 (omega arith), count)

pub strlen-NoNul :
    (s : List ℕ) → NoNul s → length s < 2 ^ 31 → strlen (s ++ (0 ∷ [])) ≡ some (length s)
unfolding strlen
strlen-NoNul s plain small =
    let count : 0 + length s ≡ length s = omega arith in
    strlen_loop-NoNul s 0 plain (omega arith) ∙ ap some count

pub text-NoNul : (s rest : List ℕ) → NoNul s → text (length s) (s ++ rest) ≡ s
text-NoNul [] rest plain = refl
text-NoNul (c ∷ s) rest plain =
    let more : (c == 0) ≡ false = ground (arith, plain.0) in rw (more, text-NoNul s rest plain.1)

pub Readable-append : (s rest : List ℕ) → Readable (length s) (s ++ rest)
Readable-append [] rest = tt
Readable-append (c ∷ s) rest = inr (Readable-append s rest)

-- The text of a line that a program puts.
abbrev pub line_of : List ℕ → List ℕ
line_of s = text (length s) s

unfoldable pub all_plain : List ℕ → Bool
all_plain [] = true
all_plain (c ∷ s) = (c != 0) && all_plain s

pub NoNul-all_plain : (s : List ℕ) → all_plain s ≡ true → NoNul s
unfolding all_plain
NoNul-all_plain [] h = tt
NoNul-all_plain (c ∷ s) h = ((λ e. absurd (ground (arith, h))), NoNul-all_plain s (ground arith))
