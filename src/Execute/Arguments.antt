-- ===== src/Execute/Arguments.antt =====
-- The arguments that `execute` of student-distrib/syscalls.c finds behind the first word of a command,
-- and how they reach the control block.
use apoll_os.Prelude.{
  ℕ, zero, suc, ◌+◌, ◌-◌, ◌≤◌, ◌<◌, ◌≡◌, refl, sym, ap, ◌∙◌, ◌≢◌, inl, inr, arith, Bool, true,
  false, ◌||◌, some, List, [], ◌∷◌, ◌++◌, ◌==◌, length, set, drop, replicate, All, set-append,
  length-append, length-replicate, store-set, store, u8, drop_all,
}
use mathlib.Core.List.{append_assoc, append-nil}
use apoll_os.CString.Compare.{text, Readable, NoNul, strncpy_lem}
use apoll_os.CString.{strncpy}
use apoll_os.Execute.{args_loop, arguments}
use apoll_os.Execute.Command.{ends_word, padded}

abbrev pub ends_args : ℕ → Bool
ends_args c = c == 0 || c == 10

-- An argument text; it may hold blanks.
abbrev pub IsArgument : List ℕ → Type 0
IsArgument arg = All (λ c. (c ≢ 0) × (c ≢ 10)) arg

-- What stands behind the first word, and the argument text in it.
pub data Tail (tail arg : List ℕ) : Type 0 where
  bare :
      (stop : ℕ) (rest : List ℕ)
      → tail ≡ stop ∷ rest
      → ends_args stop ≡ true
      → arg ≡ []
      → Tail tail arg
  spaced :
      (stop : ℕ) (rest : List ℕ)
      → tail ≡ 32 ∷ (arg ++ (stop ∷ rest))
      → ends_args stop ≡ true
      → IsArgument arg
      → length arg < 128
      → Tail tail arg

args_loop-append :
    (arg : List ℕ) (stop : ℕ) (rest front : List ℕ) (m : ℕ)
    → IsArgument arg
    → ends_args stop ≡ true
    → length arg ≤ m
    → length front + length arg < 256
    → args_loop (arg ++ (stop ∷ rest)) (length front) (front ++ replicate m 0)
      ≡ some (length front + length arg, (front ++ arg) ++ replicate (m - length arg) 0)
unfolding args_loop
args_loop-append [] stop rest front m w e room small =
    let same : length front + 0 ≡ length front = omega arith in
    let all : m - 0 ≡ m = omega arith in rw (e, same, all, append-nil front)
args_loop-append (c ∷ arg) stop rest front zero w e room small = absurd (omega arith)
args_loop-append (c ∷ arg) stop rest front (suc m) w e room small =
    let go : ends_args c ≡ false = ground (arith, w.0.0, w.0.1) in
    let next = front ++ (c ∷ []) in
    let len : length next ≡ length front + 1 = omega (arith, length-append front (c ∷ [])) in
    let up : u8 (length front + 1) ≡ length next = omega (arith, len) in
    let sum : length front + suc (length arg) ≡ length next + length arg = omega (arith, len) in
    let less : suc m - length (c ∷ arg) ≡ m - length arg = omega arith in
    let inside : length front < length (front ++ (0 ∷ replicate m 0)) =
      omega (arith, length-append front (0 ∷ replicate {A = ℕ} m 0)) in
    let stored : set (front ++ (0 ∷ replicate m 0)) (length front) c ≡ next ++ replicate m 0 =
      set-append front 0 (replicate m 0) c in
    let ih = args_loop-append arg stop rest next m w.1 e (omega arith) (omega (arith, len)) in
    rw (
      go,
      store-set (front ++ (0 ∷ replicate m 0)) (length front) c inside,
      stored,
      up,
      ih,
      sum,
      less,
      append_assoc front (c ∷ []) arg,
    )

arguments-append :
    (arg : List ℕ) (stop : ℕ) (rest : List ℕ)
    → IsArgument arg
    → ends_args stop ≡ true
    → length arg < 128
    → arguments (32 ∷ (arg ++ (stop ∷ rest))) ≡ some (padded arg)
unfolding arguments
arguments-append arg stop rest w e short =
    let zeros = replicate {A = ℕ} (127 - length arg) 0 in
    let size : length (arg ++ (0 ∷ zeros)) ≡ 128 =
      omega (arith, length-append arg (0 ∷ zeros), length-replicate {A = ℕ} (127 - length arg) 0) in
    let one_more : 128 - length arg ≡ suc (127 - length arg) = omega arith in
    let start : length {A = ℕ} [] + length arg ≡ length arg = omega arith in
    let stored : store (arg ++ (0 ∷ zeros)) (length arg) 0 ≡ some (padded arg) =
      store-set (arg ++ (0 ∷ zeros)) (length arg) 0 (omega (arith, size))
      ∙ ap some (set-append arg 0 zeros 0 ∙ append_assoc arg (0 ∷ []) zeros) in
    rw (
      args_loop-append arg stop rest [] 128 w e (omega arith) (omega arith),
      one_more,
      start,
      stored,
    )

arguments-bare :
    (stop : ℕ) (rest : List ℕ) → ends_args stop ≡ true → arguments (stop ∷ rest) ≡ some (padded [])
unfolding arguments
arguments-bare stop rest e = let blank : (stop == 32) ≡ false = ground arith in rw blank

-- `arg_buf` holds the argument text.
pub arguments-Tail : (tail arg : List ℕ) → Tail tail arg → arguments tail ≡ some (padded arg)
arguments-Tail tail arg (bare stop rest split e none_there) =
    ap arguments split ∙ arguments-bare stop rest e ∙ ap (λ a. some (padded a)) (sym none_there)
arguments-Tail tail arg (spaced stop rest split e w short) =
    ap arguments split ∙ arguments-append arg stop rest w e short

-- The first word ends where the tail begins.
pub stop-Tail :
    (tail arg : List ℕ)
    → Tail tail arg
    → (stop : ℕ) × (rest : List ℕ) × (tail ≡ stop ∷ rest) × (ends_word stop ≡ true)
stop-Tail tail arg (bare stop rest split e none_there) = (stop, rest, split, ground arith)
stop-Tail tail arg (spaced stop rest split e w short) = (32, arg ++ (stop ∷ rest), split, refl)

pub NoNul-Tail : (tail arg : List ℕ) → Tail tail arg → NoNul arg × (length arg < 128)
NoNul-Tail tail arg (bare stop rest split e none_there) =
    (rw none_there (tt), rw none_there (omega arith))
NoNul-Tail tail arg (spaced stop rest split e w short) = (no_nul arg w, short)
  where
    no_nul : (arg : List ℕ) → IsArgument arg → NoNul arg
    no_nul [] w = tt
    no_nul (c ∷ arg) w = (w.0.0, no_nul arg w.1)

text-nul :
    (n : ℕ) (arg rest : List ℕ) → NoNul arg → length arg < n → text n (arg ++ (0 ∷ rest)) ≡ arg
text-nul zero arg rest w h = absurd (omega arith)
text-nul (suc n) [] rest w h = refl
text-nul (suc n) (c ∷ arg) rest w h =
    let more : (c == 0) ≡ false = ground (arith, w.0) in
    rw (more, text-nul n arg rest w.1 (omega arith))

Readable-nul : (n : ℕ) (arg rest : List ℕ) → length arg < n → Readable n (arg ++ (0 ∷ rest))
Readable-nul zero arg rest h = tt
Readable-nul (suc n) [] rest h = inl refl
Readable-nul (suc n) (c ∷ arg) rest h = inr (Readable-nul n arg rest (omega arith))

-- The copy of `arg_buf` into the control block.
pub strncpy-padded :
    (dest arg : List ℕ)
    → length dest ≡ 128
    → NoNul arg
    → length arg < 128
    → strncpy dest (padded arg) 128 ≡ some (padded arg)
strncpy-padded dest arg size plain short =
    let zeros = replicate {A = ℕ} (127 - length arg) 0 in
    let held : text 128 (padded arg) ≡ arg = text-nul 128 arg zeros plain short in
    let one_more : 128 - length arg ≡ suc (127 - length arg) = omega arith in
    let none_left : drop 128 dest ≡ [] = drop_all 128 dest (omega (arith, size)) in
    strncpy_lem 128 dest (padded arg) (omega (arith, size))
      (Readable-nul 129 arg zeros (omega arith))
    ∙ (λ i. some (held i ++ (replicate (128 - length (held i)) 0 ++ none_left i)))
    ∙ rw (one_more, append-nil (replicate {A = ℕ} (127 - length arg) 0))
