-- ===== src/CString/Compare.antt =====
-- What the string functions of student-distrib/lib.c compute, in terms of the text that a
-- C string holds.
use apoll_os.Prelude.{
  ℕ, zero, suc, ◌+◌, ◌-◌, ◌^◌, ◌≤◌, ◌<◌, min, ◌≡◌, refl, ◌≢◌, ◌↔◌, ◌⊎◌, inl, inr, arith, Option,
  some, List, [], ◌∷◌, ◌++◌, ◌==◌, ◌!=◌, if◌then◌else◌, Bool-cases, length, drop, replicate, All,
  u32, sub32, sign8,
}
use apoll_os.CString.{
  strlen_loop, strlen, strncmp_loop, strncmp, strncpy_loop, strncpy, strncpy_pad,
}

-- The text of a C string that is read for at most `n` bytes.
abbrev pub text : ℕ → List ℕ → List ℕ
text zero s = []
text (suc n) [] = []
text (suc n) (c ∷ s) = if c == 0 then [] else c ∷ text n s

-- The `n` bytes from `s` on can be read up to the first NUL.
abbrev pub Readable : ℕ → List ℕ → Type 0
Readable zero s = Unit {0}
Readable (suc n) [] = ⊥
Readable (suc n) (c ∷ s) = (c ≡ 0) ⊎ Readable n s

abbrev pub IsBytes : List ℕ → Type 0
IsBytes [] = Unit {0}
IsBytes (c ∷ s) = (c < 256) × IsBytes s

-- `n` bytes in memory can be read.
pub Readable-of_length : (n : ℕ) (s : List ℕ) → n ≤ length s → Readable n s
Readable-of_length zero s h = tt
Readable-of_length (suc n) [] h = absurd (omega arith)
Readable-of_length (suc n) (c ∷ s) h = inr (Readable-of_length n s (omega arith))

abbrev Compares : ℕ → List ℕ → List ℕ → Option ℕ → Type 0
Compares n s1 s2 o = (r : ℕ) × (o ≡ some r) × ((r ≡ 0) ↔ (text n s1 ≡ text n s2))

cons-inj : (a b : ℕ) (s t : List ℕ) → a ∷ s ≡ b ∷ t → s ≡ t
cons-inj a b s t e = cc

sign8-inj : (a b : ℕ) → a < 256 → b < 256 → sub32 (sign8 a) (sign8 b) ≡ 0 → a ≡ b
sign8-inj a b ha hb e = ground arith

strncmp_loop-Compares :
    (n : ℕ) (s1 s2 : List ℕ)
    → Readable n s1
    → Readable n s2
    → IsBytes s1
    → IsBytes s2
    → Compares n s1 s2 (strncmp_loop n s1 s2)
unfolding strncmp_loop
strncmp_loop-Compares zero s1 s2 h1 h2 b1 b2 = (0, refl, ((λ e. refl), λ e. refl))
strncmp_loop-Compares (suc n) [] s2 h1 h2 b1 b2 = absurd h1
strncmp_loop-Compares (suc n) (a ∷ s1) [] h1 h2 b1 b2 = absurd h2
strncmp_loop-Compares (suc n) (a ∷ s1) (b ∷ s2) h1 h2 b1 b2 = elim (Bool-cases (a != b)) [
  | inl ne ↦ (
    sub32 (sign8 a) (sign8 b),
    ground arith,
    ((λ e. ground (arith, sign8-inj a b)), λ e. ground arith),
  )
  | inr same ↦ elim (Bool-cases (a == 0)) [
    | inl end ↦ (sub32 (sign8 a) (sign8 b), ground arith, ((λ e. ground arith), λ e. ground arith))
    | inr more ↦
        let (r, e, (fwd, bwd)) =
          strncmp_loop-Compares n s1 s2 (ground arith) (ground arith) b1.1 b2.1 in
        (r, ground arith, ((λ z. ground (arith, fwd z)), λ t. bwd (ground arith)))
  ]
]

abbrev pub NoNul : List ℕ → Type 0
NoNul s = All (λ c. c ≢ 0) s

strlen_loop_lem :
    (s rest : List ℕ) (acc : ℕ)
    → NoNul s
    → acc + length s < 2 ^ 32
    → strlen_loop (s ++ (0 ∷ rest)) acc ≡ some (acc + length s)
unfolding strlen_loop
strlen_loop_lem [] rest acc h b = ground arith
strlen_loop_lem (c ∷ s) rest acc h b =
    ground (arith, strlen_loop_lem s rest (acc + 1) h.1 (omega arith))

-- The length of a string is the number of bytes before its NUL.
pub strlen_lem :
    (s rest : List ℕ) → NoNul s → length s < 2 ^ 32 → strlen (s ++ (0 ∷ rest)) ≡ some (length s)
unfolding strlen
strlen_lem s rest h b = ground (arith, strlen_loop_lem s rest 0 h)

-- For two strings of bytes that can be read for `n` bytes or to their NUL, `strncmp` reads nothing
-- outside them, and returns 0 exactly if they hold the same text up to `n` bytes.
pub strncmp_lem :
    (n : ℕ) (s1 s2 : List ℕ)
    → Readable n s1
    → Readable n s2
    → IsBytes s1
    → IsBytes s2
    → (r : ℕ) × (strncmp s1 s2 n ≡ some r) × ((r ≡ 0) ↔ (text n s1 ≡ text n s2))
unfolding strncmp
strncmp_lem n s1 s2 h1 h2 b1 b2 = strncmp_loop-Compares n s1 s2 h1 h2 b1 b2

strncpy_pad_lem :
    (n : ℕ) (dest : List ℕ)
    → n ≤ length dest
    → strncpy_pad n dest ≡ some (replicate n 0 ++ drop n dest)
unfolding strncpy_pad
strncpy_pad_lem zero dest h = refl
strncpy_pad_lem (suc n) [] h = absurd (omega arith)
strncpy_pad_lem (suc n) (d ∷ dest) h = ground (arith, strncpy_pad_lem n dest (omega arith))

-- With room for `n` bytes and a source that can be read to its NUL or for one byte more than `n`,
-- `strncpy` leaves the text, NUL up to `n` bytes, and what stood behind them.
pub strncpy_lem :
    (n : ℕ) (dest src : List ℕ)
    → n ≤ length dest
    → Readable (suc n) src
    → strncpy dest src n
      ≡ some (text n src ++ (replicate (n - length (text n src)) 0 ++ drop n dest))
unfolding strncpy strncpy_loop
strncpy_lem n dest [] h r = absurd r
strncpy_lem zero dest (c ∷ src) h r = refl
strncpy_lem (suc n) [] (c ∷ src) h r = absurd (omega arith)
strncpy_lem (suc n) (d ∷ dest) (c ∷ src) h r = elim (Bool-cases (c == 0)) [
  | inl end ↦
      let e : suc n - 0 ≡ suc n = omega arith in rw (end, e) (strncpy_pad_lem (suc n) (d ∷ dest) h)
  | inr more ↦
      let rest : Readable (suc n) src = ground arith in
      let e : suc n - suc (length (text n src)) ≡ n - length (text n src) = omega arith in
      let ih = strncpy_lem n dest src (omega arith) rest in rw (more, e) (rw ih)
]

-- A NUL anywhere ends the scan.
strlen_loop_total :
    (front rest : List ℕ) (acc : ℕ) → (r : ℕ) × (strlen_loop (front ++ (0 ∷ rest)) acc ≡ some r)
unfolding strlen_loop
strlen_loop_total [] rest acc = (acc, refl)
strlen_loop_total (c ∷ front) rest acc =
    let (r, e) = strlen_loop_total front rest (u32 (acc + 1)) in
    elim (Bool-cases (c == 0)) [ inl end ↦ (acc, rw end) | inr more ↦ (r, rw more e) ]

strlen_loop-text :
    (n : ℕ) (s : List ℕ) (acc r : ℕ)
    → acc + length s < 2 ^ 32
    → strlen_loop s acc ≡ some r
    → (acc ≤ r) × (r ≤ acc + length s) × (min n (r - acc) ≡ length (text n s))
unfolding strlen_loop
strlen_loop-text n [] acc r b e = absurd (cc)
strlen_loop-text zero (c ∷ s) acc r b e = ground (arith, strlen_loop-text zero s (acc + 1) r)
strlen_loop-text (suc n) (c ∷ s) acc r b e = ground (arith, strlen_loop-text n s (acc + 1) r)

-- For bytes with a NUL among them, in less than 2 ^ 32 bytes, `strlen` ends inside them, and cut
-- at `n` its result is the length of the text up to `n` bytes.
pub strlen-text :
    (n : ℕ) (front rest : List ℕ)
    → length (front ++ (0 ∷ rest)) < 2 ^ 32
    → (r : ℕ) × (strlen (front ++ (0 ∷ rest)) ≡ some r)
      × (min n r ≡ length (text n (front ++ (0 ∷ rest))))
      × (r ≤ length (front ++ (0 ∷ rest)))
unfolding strlen
strlen-text n front rest b =
    let (r, e) = strlen_loop_total front rest 0 in
    let (_, bound, count) = strlen_loop-text n (front ++ (0 ∷ rest)) 0 r (omega arith) e in
    (r, e, omega arith, omega arith)
