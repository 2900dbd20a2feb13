-- ===== src/User/Cat.antt =====
-- `cat` of syscalls/ece391cat.c copies a file to the screen.
use apoll_os.Prelude.{
  ℕ, zero, suc, ◌+◌, ◌/◌, ◌≤◌, ◌<◌, min, ◌≡◌, refl, ap, ◌∙◌, arith, false, some, List, [], ◌∷◌,
  ◌++◌, ◌==◌, length, take, drop, length-append, length-take, length-drop, minus_one,
}
use mathlib.Core.Path.{subst}
use mathlib.Core.List.{append-nil, append_assoc}
use apoll_os.CString.Compare.{NoNul}
use apoll_os.User.{Calls}
use apoll_os.User.Interface.{FileCalls}
use apoll_os.User.Programs.{cat_loop}

NoNul-take : (n : ℕ) (xs : List ℕ) → NoNul xs → NoNul (take n xs)
NoNul-take zero xs h = tt
NoNul-take (suc n) [] h = tt
NoNul-take (suc n) (x ∷ xs) h = (h.0, NoNul-take n xs h.1)

take-min-append : (n : ℕ) (xs ys : List ℕ) → take (min n (length xs)) (take n xs ++ ys) ≡ take n xs
take-min-append zero xs ys = let e : min 0 (length xs) ≡ 0 = omega arith in rw e
take-min-append (suc n) [] ys = let e : min (suc n) 0 ≡ 0 = omega arith in rw e
take-min-append (suc n) (x ∷ xs) ys =
    let e : min (suc n) (suc (length xs)) ≡ suc (min n (length xs)) = omega arith in
    rw (e, take-min-append n xs ys)

take-append-drop : (n : ℕ) (xs : List ℕ) → take n xs ++ drop n xs ≡ xs
take-append-drop zero xs = refl
take-append-drop (suc n) [] = refl
take-append-drop (suc n) (x ∷ xs) = ap (λ t. x ∷ t) (take-append-drop n xs)

pub count-not_zero : (n : ℕ) → 0 < n → (n == 0) ≡ false
count-not_zero n h = ground arith

pub count-not_error : (n : ℕ) → n ≤ 1024 → (n == minus_one) ≡ false
count-not_error n h = ground arith

module _ {S : Type 0} (os : Calls S) (laws : FileCalls os) where
  -- On any system calls that keep the contract of `FileCalls` for files and the screen, the loop of
  -- `cat`, with a buffer of 1024 bytes, ends with status 0 after at most one round for each 1024
  -- bytes that are left and one more, with all of them written in their order.
  pub cat_loop-Shows :
      (fuel fd : ℕ) (buf rest out : List ℕ) (s : S)
      → laws.Shows s fd rest out
      → length buf ≡ 1024
      → (length rest + 1023) / 1024 < fuel
      → (s' : S) × (cat_loop os fuel fd buf s ≡ some (0, s')) × laws.Shows s' fd [] (out ++ rest)
  unfolding cat_loop
  cat_loop-Shows zero fd buf rest out s sh size enough = absurd (omega arith)
  cat_loop-Shows (suc fuel) fd buf [] out s sh size enough =
      let (s1, run, sh1) =
        laws.read_lem s fd [] out buf 1024 sh (omega (arith, size)) (omega arith) in
      let e : min 1024 0 ≡ 0 = omega arith in (s1, rw (run, e), rw (append-nil out) sh1)
  cat_loop-Shows (suc fuel) fd buf (c ∷ rest) out s sh size enough =
      let whole = c ∷ rest in
      let k = min 1024 (length whole) in
      let read = take 1024 whole ++ drop k buf in
      let (s1, run, sh1) =
        laws.read_lem s fd whole out buf 1024 sh (omega (arith, size)) (omega arith) in
      let len : length read ≡ 1024 = omega (
        arith,
        length-append (take 1024 whole) (drop k buf),
        length-take 1024 whole,
        length-drop k buf,
        size,
      ) in
      let bytes : take k read ≡ take 1024 whole = take-min-append 1024 whole (drop k buf) in
      let plain : NoNul (take k read) =
        rw bytes (NoNul-take 1024 whole (laws.text s fd whole out sh)) in
      let (s2, wrote, sh2) =
        laws.write_lem s1 fd (drop 1024 whole) out read k sh1 (omega (arith, len)) (omega arith)
          plain in
      let (s3, rest_run, sh3) =
        cat_loop-Shows fuel fd read (drop 1024 whole) (out ++ take k read) s2 sh2 len
          (omega (arith, length-drop 1024 whole)) in
      let more : (k == 0) ≡ false = count-not_zero k (omega arith) in
      let good : (k == minus_one) ≡ false = count-not_error k (omega arith) in
      let joined : (out ++ take k read) ++ drop 1024 whole ≡ out ++ whole =
        append_assoc out (take k read) (drop 1024 whole)
        ∙ ap (λ t. out ++ (t ++ drop 1024 whole)) bytes
        ∙ ap (λ t. out ++ t) (take-append-drop 1024 whole) in
      (
        s3,
        rw (run, more, good, wrote, good, rest_run),
        subst (λ t. laws.Shows s3 fd [] t) joined sh3,
      )
