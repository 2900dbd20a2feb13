-- ===== src/Execute/Command.antt =====
-- How `execute` of student-distrib/syscalls.c takes a command apart.
use apoll_os.Prelude.{
  ℕ, zero, suc, ◌+◌, ◌-◌, ◌≤◌, ◌<◌, ◌≡◌, refl, sym, ap, ◌∙◌, ◌≢◌, inl, inr, arith, Bool, true,
  false, ◌||◌, some, List, [], ◌∷◌, ◌++◌, ◌==◌, Bool-cases, length, set, take, replicate, All,
  set-append, length-append, length-replicate, store-set, store, u8,
}
use mathlib.Core.List.{append_assoc, append-nil}
use apoll_os.CString.Compare.{text, IsBytes, Readable-of_length, strncmp_lem}
use apoll_os.Kernel.{Kernel, cli}
use apoll_os.Execute.{command_loop, run_command, execute, exit_text}

-- A character of a command's first word.
abbrev pub IsWord : List ℕ → Type 0
IsWord word = All (λ c. (c ≢ 0) × (c ≢ 10) × (c ≢ 32) × (c < 256)) word

abbrev pub ends_word : ℕ → Bool
ends_word c = c == 32 || (c == 0 || c == 10)

command_loop-append :
    (word : List ℕ) (stop : ℕ) (rest front : List ℕ) (m : ℕ)
    → IsWord word
    → ends_word stop ≡ true
    → length word ≤ m
    → length front + length word < 256
    → command_loop (word ++ (stop ∷ rest)) (length front) (front ++ replicate m 0)
      ≡ some (
        length front + length word,
        (front ++ word) ++ replicate (m - length word) 0,
        stop ∷ rest,
      )
unfolding command_loop
command_loop-append [] stop rest front m w e room small =
    let same : length front + 0 ≡ length front = omega arith in
    let all : m - 0 ≡ m = omega arith in rw (e, same, all, append-nil front)
command_loop-append (c ∷ word) stop rest front zero w e room small = absurd (omega arith)
command_loop-append (c ∷ word) stop rest front (suc m) w e room small =
    let go : ends_word c ≡ false = ground (arith, w.0.0, w.0.1, w.0.2) in
    let next = front ++ (c ∷ []) in
    let len : length next ≡ length front + 1 = omega (arith, length-append front (c ∷ [])) in
    let up : u8 (length front + 1) ≡ length next = omega (arith, len) in
    let sum : length front + suc (length word) ≡ length next + length word = omega (arith, len) in
    let less : suc m - length (c ∷ word) ≡ m - length word = omega arith in
    let inside : length front < length (front ++ (0 ∷ replicate m 0)) =
      omega (arith, length-append front (0 ∷ replicate {A = ℕ} m 0)) in
    let stored : set (front ++ (0 ∷ replicate m 0)) (length front) c ≡ next ++ replicate m 0 =
      set-append front 0 (replicate m 0) c in
    let ih = command_loop-append word stop rest next m w.1 e (omega arith) (omega (arith, len)) in
    rw (
      go,
      store-set (front ++ (0 ∷ replicate m 0)) (length front) c inside,
      stored,
      up,
      ih,
      sum,
      less,
      append_assoc front (c ∷ []) word,
    )

pub first_word :
    (word : List ℕ) (stop : ℕ) (rest : List ℕ)
    → IsWord word
    → ends_word stop ≡ true
    → length word < 128
    → command_loop (word ++ (stop ∷ rest)) 0 (replicate 128 0)
      ≡ some (length word, word ++ (0 ∷ replicate (127 - length word) 0), stop ∷ rest)
first_word word stop rest w e short =
    let one_more : 128 - length word ≡ suc (127 - length word) = omega arith in
    let start : length {A = ℕ} [] + length word ≡ length word = omega arith in
    rw (command_loop-append word stop rest [] 128 w e (omega arith) (omega arith), one_more, start)

pub text-NoNul :
    (n : ℕ) (word rest : List ℕ) → IsWord word → text n (word ++ (0 ∷ rest)) ≡ take n word
text-NoNul zero word rest w = refl
text-NoNul (suc n) [] rest w = refl
text-NoNul (suc n) (c ∷ word) rest w =
    let more : (c == 0) ≡ false = ground (arith, w.0.0) in rw (more, text-NoNul n word rest w.1)

pub IsBytes-replicate : (m : ℕ) → IsBytes (replicate m 0)
IsBytes-replicate zero = tt
IsBytes-replicate (suc m) = (omega arith, IsBytes-replicate m)

pub IsBytes-append : (word rest : List ℕ) → IsWord word → IsBytes rest → IsBytes (word ++ rest)
IsBytes-append [] rest w h = h
IsBytes-append (c ∷ word) rest w h = (w.0.3, IsBytes-append word rest w.1 h)

-- `com_buf` with the word in it.
abbrev pub padded : List ℕ → List ℕ
padded word = word ++ (0 ∷ replicate (127 - length word) 0)

pub length-padded : (word : List ℕ) → length word < 128 → length (padded word) ≡ 128
length-padded word short =
    let zeros = replicate {A = ℕ} (127 - length word) 0 in
    omega (arith, length-append word (0 ∷ zeros), length-replicate {A = ℕ} (127 - length word) 0)

pub IsBytes-padded : (word : List ℕ) → IsWord word → IsBytes (padded word)
IsBytes-padded word w =
    IsBytes-append word (0 ∷ replicate (127 - length word) 0) w
      (omega arith, IsBytes-replicate (127 - length word))

-- What `execute` does with a command whose first word is read, and is not `exit`.
pub execute-first_word :
    (cmos : ℕ → ℕ) (word : List ℕ) (stop : ℕ) (rest : List ℕ) (k : Kernel)
    → IsWord word
    → ends_word stop ≡ true
    → length word < 128
    → take 4 word ≢ (101 ∷ 120 ∷ 105 ∷ 116 ∷ [])
    → execute cmos (some (word ++ (stop ∷ rest))) k
      ≡ run_command (padded word) (stop ∷ rest) (cli k)
unfolding execute
execute-first_word cmos word stop rest k w e short no_exit =
    let zeros = replicate {A = ℕ} (127 - length word) 0 in
    let line = padded word in
    let size = length-padded word short in
    let exit_bytes : IsBytes exit_text =
      (omega arith, (omega arith, (omega arith, (omega arith, (omega arith, tt))))) in
    let (r, compared, equal) =
      strncmp_lem 4 line exit_text (Readable-of_length 4 line (omega (arith, size)))
        (Readable-of_length 4 exit_text (omega arith)) (IsBytes-padded word w) exit_bytes in
    let differs : (r == 0) ≡ false = elim (Bool-cases (r == 0)) [
      | inl match_ ↦ absurd (no_exit (sym (text-NoNul 4 word zeros w) ∙ equal.0 (ground arith)))
      | inr other ↦ other
    ] in
    let stored : store (word ++ (0 ∷ zeros)) (length word) 0 ≡ some line =
      store-set line (length word) 0 (omega (arith, size))
      ∙ ap some (set-append word 0 zeros 0 ∙ append_assoc word (0 ∷ []) zeros) in
    rw (first_word word stop rest w e short, stored, compared, differs)
