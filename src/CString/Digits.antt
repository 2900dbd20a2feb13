-- ===== src/CString/Digits.antt =====
-- `itoa` of student-distrib/lib.c writes the digits of a number.
use apoll_os.Prelude.{
  ℕ, zero, suc, ◌+◌, ◌*◌, ◌/◌, ◌%◌, ◌^◌, ◌≤◌, ◌<◌, ◌≡◌, refl, sym, ap, ◌∙◌, ◌≢◌, inl, inr, arith,
  true, false, Option, some, List, [], ◌∷◌, ◌++◌, map, ltb, ◌==◌, Bool-cases, lt→ltb, length, drop,
  All, set-append, length-append, length-drop, length-map, store, ◌>>=◌,
}
use mathlib.Core.Path.{subst}
use mathlib.Core.List.{append_assoc}
use native.Mathlib.Nat.{div-add-mod, mod-lt, pow-suc}
use mathlib.Core.List.{reverse}
use apoll_os.CString.{itoa, itoa_loop, digit_char, digit_lookup, strrev}
use apoll_os.CString.Compare.{NoNul}
use apoll_os.CString.Numerals.{
  low_first, number_from, number-reverse, digit_value, NoNul-digits, values_of, All-reverse,
  map-reverse_digits, Top, Top-cons, NoExtraZero, NoExtraZero-digits, NoExtraZero-reverse,
}
use apoll_os.CString.Reverse.{strrev_lem, length-reverse}

-- The loop writes the digits of `n` behind what stands there.
record Written (fuel radix n : ℕ) (front rest : List ℕ) (o : Option (List ℕ × ℕ)) : Type 0 where
  ds : List ℕ
  result :
      o ≡ some (front ++ (map digit_char ds ++ drop (length ds) rest), length front + length ds)
  value : low_first radix ds ≡ n
  digits_small : All (λ d. d < radix) ds
  top : Top ds
  room : length ds ≤ fuel

store-append :
    (front : List ℕ) (d : ℕ) (rest : List ℕ) (v : ℕ)
    → store (front ++ (d ∷ rest)) (length front) v ≡ some ((front ++ (v ∷ [])) ++ rest)
store-append front d rest v = rw (
  lt→ltb (length front) (length (front ++ (d ∷ rest)))
      (omega (arith, length-append front (d ∷ rest))),
  set-append front d rest v,
)

div-lt-pow : (n radix f : ℕ) → 2 ≤ radix → n < 2 ^ suc f → n / radix < 2 ^ f
div-lt-pow n radix f lo h =
    let e : 2 ^ suc f ≡ 2 * 2 ^ f = omega (arith, pow-suc 2 f) in
    let q : n ≡ radix * (n / radix) + n % radix = sym (div-add-mod n radix) in
    let p : 2 * (n / radix) ≤ radix * (n / radix) = grind arith in omega arith

one_digit :
    (fuel radix n : ℕ) (front : List ℕ) (d : ℕ) (rest : List ℕ)
    → 2 ≤ radix
    → radix ≤ 36
    → 0 < n
    → itoa_loop (suc fuel) radix n (front ++ (d ∷ rest)) (length front)
      ≡ itoa_loop fuel radix
          (n / radix)
          ((front ++ (digit_char (n % radix) ∷ [])) ++ rest)
          (length (front ++ (digit_char (n % radix) ∷ [])))
unfolding itoa_loop digit_lookup
one_digit fuel radix n front d rest lo hi pos =
    let small : n % radix < radix = mod-lt n (omega arith) in
    let more : (n == 0) ≡ false = ground arith in
    let known : ltb (n % radix) 36 ≡ true = lt→ltb (n % radix) 36 (omega arith) in
    let len : length (front ++ (digit_char (n % radix) ∷ [])) ≡ length front + 1 =
      omega (arith, length-append front (digit_char (n % radix) ∷ [])) in
    rw (more, known, store-append front d rest (digit_char (n % radix)), len)

Written-done :
    (fuel radix : ℕ) (front rest : List ℕ)
    → Written fuel radix 0 front rest (itoa_loop (suc fuel) radix 0 (front ++ rest) (length front))
unfolding itoa_loop
Written-done fuel radix front rest = record {
  ds = [];
  result = ap (λ k. some (front ++ rest, k)) (omega arith);
  value = refl;
  digits_small = tt;
  top = tt;
  room = omega arith;
}

low_digit : (n radix : ℕ) → 0 < n → n / radix ≡ 0 → n % radix ≢ 0
low_digit n radix pos e = λ z.
    let q : n ≡ radix * (n / radix) + n % radix = sym (div-add-mod n radix) in
    let q0 : n ≡ radix * 0 + n % radix = q ∙ ap (λ m. radix * m + n % radix) e in
    absurd (omega (arith, z, q0, pos))

Written-cons :
    (fuel radix n : ℕ) (front : List ℕ) (d : ℕ) (rest : List ℕ) {o : Option (List ℕ × ℕ)}
    → 2 ≤ radix
    → 0 < n
    → Written fuel radix (n / radix) (front ++ (digit_char (n % radix) ∷ [])) rest o
    → Written (suc fuel) radix n front (d ∷ rest) o
Written-cons fuel radix n front d rest lo pos w =
    let c : ℕ = digit_char (n % radix) in
    let len : length (front ++ (c ∷ [])) + length w.ds ≡ length front + suc (length w.ds) =
      omega (arith, length-append front (c ∷ [])) in
    let small : n % radix < radix = mod-lt n (omega arith) in
    let q : n ≡ radix * (n / radix) + n % radix = sym (div-add-mod n radix) in
    record {
      ds = n % radix ∷ w.ds;
      result = w.result ∙ rw (len, append_assoc front (c ∷ []));
      value = rw w.value (omega arith);
      digits_small = (small, w.digits_small);
      top =
          Top-cons (n % radix) w.ds
            (λ e. low_digit n radix pos (sym w.value ∙ ap (low_first radix) e)) w.top;
      room = omega (arith, w.room);
    }

itoa_loop-Written :
    (fuel radix n : ℕ) (front rest : List ℕ)
    → 2 ≤ radix
    → radix ≤ 36
    → n < 2 ^ fuel
    → fuel ≤ length rest
    → Written fuel radix n front rest (itoa_loop (suc fuel) radix n (front ++ rest) (length front))
itoa_loop-Written zero radix n front rest lo hi f r =
    let e : n ≡ 0 = omega arith in rw e (Written-done zero radix front rest)
itoa_loop-Written (suc fuel) radix n front [] lo hi f r = absurd (omega arith)
itoa_loop-Written (suc fuel) radix n front (d ∷ rest) lo hi f r = elim (Bool-cases (n == 0)) [
  | inl done ↦ let e : n ≡ 0 = ground arith in rw e (Written-done (suc fuel) radix front (d ∷ rest))
  | inr more ↦
      let c : ℕ = digit_char (n % radix) in
      rw (one_digit (suc fuel) radix n front d rest lo hi (ground arith)) (
        Written-cons fuel radix n front d rest lo (ground arith) (
          itoa_loop-Written fuel radix (n / radix) (front ++ (c ∷ [])) rest lo hi
            (div-lt-pow n radix fuel lo f) (omega arith)))
]

-- What `itoa` leaves in the buffer: characters that are digits of the radix and read back as the
-- number, then NUL.
pub record IsNumeral (radix value : ℕ) (buf : List ℕ) (o : Option (List ℕ)) : Type 0 where
  pub shown : List ℕ
  pub result : o ≡ some (shown ++ (0 ∷ drop (length shown + 1) buf))
  pub reads_back : number_from radix 0 (map digit_value shown) ≡ value
  pub digits_small : All (λ c. digit_value c < radix) shown
  pub no_extra : NoExtraZero b'0' shown
  pub plain_text : NoNul shown
  pub short : length shown ≤ 32

IsNumeral-digits :
    (radix value : ℕ) (buf : List ℕ) (o : Option (List ℕ)) (ds : List ℕ)
    → radix ≤ 36
    → o ≡ some (map digit_char ds ++ (0 ∷ drop (length ds + 1) buf))
    → number_from radix 0 ds ≡ value
    → All (λ d. d < radix) ds
    → NoExtraZero 0 ds
    → length ds ≤ 32
    → IsNumeral radix value buf o
IsNumeral-digits radix value buf o ds hi run reads small extra short =
    let (same, characters) = values_of radix ds hi small in
    let len = length-map ds digit_char in
    record {
      shown = map digit_char ds;
      result = run ∙ ap (λ n. some (map digit_char ds ++ (0 ∷ drop (n + 1) buf))) (sym len);
      reads_back = ap (number_from radix 0) same ∙ reads;
      digits_small = characters;
      no_extra = NoExtraZero-digits ds extra;
      plain_text = NoNul-digits ds;
      short = omega (arith, short, len);
    }

drop-cons : (k : ℕ) (xs : List ℕ) → k < length xs → (x : ℕ) × (drop k xs ≡ x ∷ drop (k + 1) xs)
drop-cons zero [] h = absurd (omega arith)
drop-cons zero (x ∷ xs) h = (x, refl)
drop-cons (suc k) [] h = absurd (omega arith)
drop-cons (suc k) (x ∷ xs) h =
    let (y, e) = drop-cons k xs (omega arith) in
    let n : suc k + 1 ≡ suc (k + 1) = omega arith in (y, rw n e)

reversed_digits :
    (ds : List ℕ) (buf : List ℕ)
    → length ds < length buf
    → length buf < 2 ^ 31
    → (do b ← store (map digit_char ds ++ drop (length ds) buf) (length ds) 0; strrev b)
      ≡ some (map digit_char (reverse ds) ++ (0 ∷ drop (length ds + 1) buf))
reversed_digits ds buf l w =
    let k : ℕ = length ds in
    let text = map digit_char ds in
    let (x, e) = drop-cons k buf l in
    let len : k ≡ length text = sym (length-map ds digit_char) in
    let put : store (text ++ (x ∷ drop (k + 1) buf)) k 0
        ≡ some ((text ++ (0 ∷ [])) ++ drop (k + 1) buf) =
      subst
        (λ j.
          store (text ++ (x ∷ drop (k + 1) buf)) j 0
          ≡ some ((text ++ (0 ∷ [])) ++ drop (k + 1) buf))
        (sym len) (store-append text x (drop (k + 1) buf) 0) in
    let total : length (text ++ (0 ∷ drop (k + 1) buf)) < 2 ^ 31 =
      omega (arith, length-append text (0 ∷ drop (k + 1) buf), length-drop (k + 1) buf) in
    rw (
      e,
      put,
      append_assoc text (0 ∷ []),
      strrev_lem text (drop (k + 1) buf) (NoNul-digits ds) total,
      map-reverse_digits ds,
    )

-- For every 32-bit number, every radix from 2 to 36 and a buffer of 34 bytes or more, `itoa` ends,
-- stays inside the buffer, and leaves a numeral of at most 32 characters, a NUL behind it, and the
-- rest as it was: read with 0 to 9 as the digits 0 to 9 and A to Z as 10 to 35, each character is
-- a digit of the radix, together they make the number, and there is at least one of them, with a 0
-- in front only where it is alone.
pub itoa-IsNumeral :
    (value : ℕ) (buf : List ℕ) (radix : ℕ)
    → value < 2 ^ 32
    → 2 ≤ radix
    → radix ≤ 36
    → 34 ≤ length buf
    → length buf < 2 ^ 31
    → IsNumeral radix value buf (itoa value buf radix)
unfolding itoa
itoa-IsNumeral value [] radix v lo hi r w = absurd (omega arith)
itoa-IsNumeral value (c ∷ []) radix v lo hi r w = absurd (omega arith)
itoa-IsNumeral value (c ∷ (d ∷ buf)) radix v lo hi r w = elim (Bool-cases (value == 0)) [
  | inl zero_value ↦
      let in_first : ltb 0 (suc (suc (length buf))) ≡ true = ground arith in
      let in_second : ltb 1 (suc (suc (length buf))) ≡ true = ground arith in
      IsNumeral-digits radix value (c ∷ (d ∷ buf)) (itoa value (c ∷ (d ∷ buf)) radix) (0 ∷ []) hi
        (rw (zero_value, in_first, in_second)) (ground arith) (omega arith, tt) tt (omega arith)
  | inr more ↦
      let whole = c ∷ (d ∷ buf) in
      let w32 = itoa_loop-Written 32 radix value [] whole lo hi v (omega arith) in
      let k : 0 + length w32.ds ≡ length w32.ds = omega arith in
      let radix_ok : (radix == 0) ≡ false = ground arith in
      let short : length w32.ds < length whole = omega (arith, w32.room) in
      IsNumeral-digits radix value whole (itoa value whole radix) (reverse w32.ds) hi
        (rw (more, radix_ok, w32.result, k, length-reverse w32.ds)
          (reversed_digits w32.ds whole short w))
        (number-reverse radix w32.ds ∙ w32.value)
        (All-reverse (λ d. d < radix) w32.ds w32.digits_small)
        (NoExtraZero-reverse radix w32.ds (λ z. absurd (ground (arith, more, w32.value, z)))
          w32.top)
        (omega (arith, length-reverse w32.ds, w32.room))
]
