-- ===== src/CString/Numerals.antt =====
-- Digits and characters of numerals, and the numbers that they stand for.
use apoll_os.Prelude.{
  ℕ, ◌+◌, ◌*◌, ◌≤◌, ◌<◌, ◌≡◌, refl, ap, ◌≢◌, arith, ◌-◌, ◌&&◌, leb, if◌then◌else◌, List, [], ◌∷◌,
  ◌++◌, map, length, All,
}
use mathlib.Core.List.{map-append}
use mathlib.Core.List.{reverse, reverse-cons}
use apoll_os.CString.{digit_char}
use apoll_os.CString.Compare.{NoNul}
use apoll_os.CString.Reverse.{length-reverse}

-- The number that digits stand for, the lowest first.
abbrev pub low_first : ℕ → List ℕ → ℕ
low_first radix [] = 0
low_first radix (d ∷ ds) = d + radix * low_first radix ds

-- The number that digits stand for, the highest first, as they are written.
abbrev pub number_from : ℕ → ℕ → List ℕ → ℕ
number_from radix acc [] = acc
number_from radix acc (d ∷ ds) = number_from radix (acc * radix + d) ds

number_from-append :
    (radix acc : ℕ) (xs : List ℕ) (d : ℕ)
    → number_from radix acc (xs ++ (d ∷ [])) ≡ number_from radix acc xs * radix + d
number_from-append radix acc [] d = refl
number_from-append radix acc (x ∷ xs) d = number_from-append radix (acc * radix + x) xs d

pub number-reverse :
    (radix : ℕ) (ds : List ℕ) → number_from radix 0 (reverse ds) ≡ low_first radix ds
number-reverse radix [] = refl
number-reverse radix (d ∷ ds) =
    rw (reverse-cons d ds, number_from-append radix 0 (reverse ds) d, number-reverse radix ds)
      (omega arith)

digit_char-ne : (d : ℕ) → digit_char d ≢ 0
digit_char-ne d = ground arith

pub NoNul-digits : (ds : List ℕ) → NoNul (map digit_char ds)
NoNul-digits [] = tt
NoNul-digits (d ∷ ds) = (digit_char-ne d, NoNul-digits ds)

-- The value of a character as a digit: '0' to '9', and 'A' to 'Z' from 10 on; 36 is no digit.
abbrev pub digit_value : ℕ → ℕ
digit_value c = if leb 48 c && leb c 57 then c - 48 else if leb 65 c && leb c 90 then c - 55 else 36

digit_value-digit_char : (d : ℕ) → d < 36 → digit_value (digit_char d) ≡ d
digit_value-digit_char d h = ground arith

-- The characters of digits read as the digits.
pub values_of :
    (radix : ℕ) (ds : List ℕ)
    → radix ≤ 36
    → All (λ d. d < radix) ds
    → (map digit_value (map digit_char ds) ≡ ds)
      × All (λ c. digit_value c < radix) (map digit_char ds)
values_of radix [] hi h = (refl, tt)
values_of radix (d ∷ ds) hi h =
    let same = digit_value-digit_char d (omega (arith, h.0)) in
    let (rest, small) = values_of radix ds hi h.1 in
    ((λ i. same i ∷ rest i), (omega (arith, same, h.0), small))

All-snoc : (P : ℕ → Type 0) (xs : List ℕ) (x : ℕ) → All P xs → P x → All P (xs ++ (x ∷ []))
All-snoc P [] x h p = (p, tt)
All-snoc P (y ∷ xs) x h p = (h.0, All-snoc P xs x h.1 p)

pub All-reverse : (P : ℕ → Type 0) (xs : List ℕ) → All P xs → All P (reverse xs)
All-reverse P [] h = tt
All-reverse P (x ∷ xs) h =
    rw (reverse-cons x xs) (All-snoc P (reverse xs) x (All-reverse P xs h.1) h.0)

pub map-reverse_digits : (ds : List ℕ) → reverse (map digit_char ds) ≡ map digit_char (reverse ds)
map-reverse_digits [] = refl
map-reverse_digits (d ∷ ds) = rw (
  reverse-cons (digit_char d) (map digit_char ds),
  reverse-cons d ds,
  map-append,
  map-reverse_digits ds,
)

-- A digit that is not 0 stands highest, at the end.
abbrev pub Top : List ℕ → Type 0
Top [] = Unit
Top (d ∷ []) = d ≢ 0
Top (d ∷ (e ∷ ds)) = Top (e ∷ ds)

pub Top-cons : (d : ℕ) (ds : List ℕ) → (ds ≡ [] → d ≢ 0) → Top ds → Top (d ∷ ds)
Top-cons d [] h t = h refl
Top-cons d (e ∷ ds) h t = t

-- At least one character, and a zero in front only if it is alone.
abbrev pub NoExtraZero : ℕ → List ℕ → Type 0
NoExtraZero z [] = ⊥
NoExtraZero z (c ∷ []) = Unit
NoExtraZero z (c ∷ (d ∷ cs)) = c ≢ z

pub NoExtraZero-digits : (ds : List ℕ) → NoExtraZero 0 ds → NoExtraZero b'0' (map digit_char ds)
NoExtraZero-digits [] h = h
NoExtraZero-digits (d ∷ []) h = tt
NoExtraZero-digits (d ∷ (e ∷ ds)) h = ground (arith, h)

abbrev High : List ℕ → Type 0
High [] = Unit
High (d ∷ ds) = d ≢ 0

High-snoc : (xs : List ℕ) (d : ℕ) → High xs → (xs ≡ [] → d ≢ 0) → High (xs ++ (d ∷ []))
High-snoc [] d h z = z refl
High-snoc (x ∷ xs) d h z = h

High-reverse : (ds : List ℕ) → Top ds → High (reverse ds)
High-reverse [] t = tt
High-reverse (d ∷ []) t = t
High-reverse (d ∷ (e ∷ ds)) t = rw (reverse-cons d (e ∷ ds)) (
    High-snoc (reverse (e ∷ ds)) d (High-reverse (e ∷ ds) t)
      (λ z. absurd (omega (arith, length-reverse (e ∷ ds), ap length z))))

NoExtraZero-High : (ds : List ℕ) → High ds → 0 < length ds → NoExtraZero 0 ds
NoExtraZero-High [] h l = absurd (omega arith)
NoExtraZero-High (d ∷ []) h l = tt
NoExtraZero-High (d ∷ (e ∷ ds)) h l = h

some_digit : (radix : ℕ) (ds : List ℕ) → low_first radix ds ≢ 0 → 0 < length ds
some_digit radix [] h = absurd (h refl)
some_digit radix (d ∷ ds) h = omega arith

pub NoExtraZero-reverse :
    (radix : ℕ) (ds : List ℕ) → low_first radix ds ≢ 0 → Top ds → NoExtraZero 0 (reverse ds)
NoExtraZero-reverse radix ds h t =
    NoExtraZero-High (reverse ds) (High-reverse ds t)
      (omega (arith, length-reverse ds, some_digit radix ds h))
