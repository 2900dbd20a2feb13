-- ===== src/CString/Reverse.antt =====
-- `strrev` of student-distrib/lib.c reverses a string in place.
use apoll_os.Prelude.{
  ℕ, zero, suc, ◌+◌, ◌-◌, ◌^◌, ◌≤◌, ◌<◌, ◌≡◌, refl, ap, ◌∙◌, inl, inr, arith, true, false, ◌&&◌,
  Option, some, List, [], ◌∷◌, ◌++◌, ltb, leb, if◌then◌else◌, Bool-cases, lt→ltb, length, get_elem?,
  set, length-append, length-set, get_elem?-in, get_elem?-set_if, get_elem?-append_left,
  get_elem?-append_right, get_elem?_ext, u32, sub32, slt,
}
use mathlib.Core.List.{reverse, reverse-cons}
use apoll_os.CString.{strrev, strrev_loop}
use apoll_os.CString.Compare.{NoNul, strlen_lem}

-- What stands at `j` once the bytes from `beg` to `end` are mirrored.
abbrev mirrored : List ℕ → ℕ → ℕ → ℕ → Option ℕ
mirrored s beg end j = if leb beg j && leb j end then get_elem? s (beg + end - j) else get_elem? s j

-- The swap of one round.
abbrev swapped : List ℕ → ℕ → ℕ → ℕ → ℕ → List ℕ
swapped s beg end a b = set (set s end b) beg a

mirrored-swapped :
    (s : List ℕ) (beg end a b j : ℕ)
    → beg < end
    → end < length s
    → get_elem? s end ≡ some a
    → get_elem? s beg ≡ some b
    → mirrored (swapped s beg end a b) (beg + 1) (end - 1) j ≡ mirrored s beg end j
mirrored-swapped s beg end a b j lt len ha hb =
    let len' : beg < length (set s end b) = omega (arith, length-set s end b) in
    elim (Bool-cases (leb beg j && leb j end)) [
      | inl within ↦
          let e : beg + 1 + (end - 1) - j ≡ beg + end - j = omega arith in
          let at_beg : beg + end - j ≡ end → get_elem? s (beg + end - j) ≡ some a =
            λ q. ap (get_elem? s) q ∙ ha in
          let at_end : beg + end - j ≡ beg → get_elem? s (beg + end - j) ≡ some b =
            λ q. ap (get_elem? s) q ∙ hb in
          rw
            (
              e,
              within,
              get_elem?-set_if (set s end b) beg j a len',
              get_elem?-set_if s end j b len,
              get_elem?-set_if (set s end b) beg (beg + end - j) a len',
              get_elem?-set_if s end (beg + end - j) b len,
            )
            (ground arith)
      | inr outside ↦
          let out : (leb (beg + 1) j && leb j (end - 1)) ≡ false = ground arith in
          rw
            (
              outside,
              out,
              get_elem?-set_if (set s end b) beg j a len',
              get_elem?-set_if s end j b len,
            )
            (ground arith)
    ]

one_round :
    (fuel : ℕ) (s : List ℕ) (beg end a b : ℕ)
    → beg < end
    → end < length s
    → length s < 2 ^ 31
    → get_elem? s end ≡ some a
    → get_elem? s beg ≡ some b
    → strrev_loop (suc fuel) s beg end
      ≡ strrev_loop fuel (swapped s beg end a b) (beg + 1) (end - 1)
unfolding strrev_loop
one_round fuel s beg end a b lt l w ha hb =
    let test : slt beg end ≡ true = ground arith in
    let in_end : ltb end (length s) ≡ true = ground arith in
    let in_beg : ltb beg (length (set s end b)) ≡ true =
      lt→ltb beg (length (set s end b)) (omega (arith, length-set s end b)) in
    let up : u32 (beg + 1) ≡ beg + 1 = omega arith in
    let down : sub32 end 1 ≡ end - 1 = omega arith in rw (test, ha, hb, in_end, in_beg, up, down)

stops :
    (fuel : ℕ) (s : List ℕ) (beg end : ℕ)
    → end ≤ beg
    → length s < 2 ^ 31
    → beg ≤ end + 1
    → end < length s
    → strrev_loop (suc fuel) s beg end ≡ some s
unfolding strrev_loop
stops fuel s beg end h w c l = let test : slt beg end ≡ false = ground arith in rw test

mirrored-short : (s : List ℕ) (beg end j : ℕ) → end ≤ beg → get_elem? s j ≡ mirrored s beg end j
mirrored-short s beg end j h = elim (Bool-cases (leb beg j && leb j end)) [
  | inl within ↦ let e : beg + end - j ≡ j = ground arith in rw (within, e)
  | inr outside ↦ rw outside
]

strrev_loop_lem :
    (fuel : ℕ) (s : List ℕ) (beg end : ℕ)
    → end < length s
    → length s < 2 ^ 31
    → beg ≤ end + 1
    → end + 1 < fuel + beg
    → (out : List ℕ) × (strrev_loop fuel s beg end ≡ some out)
      × ((j : ℕ) → get_elem? out j ≡ mirrored s beg end j)
unfolding strrev_loop
strrev_loop_lem zero s beg end l w c f = absurd (omega arith)
strrev_loop_lem (suc fuel) s beg end l w c f = elim (Bool-cases (ltb beg end)) [
  | inl more ↦
      let (a, ha) = get_elem?-in s end l in
      let (b, hb) = get_elem?-in s beg (ground arith) in
      let (out, run, spec) =
        strrev_loop_lem fuel (swapped s beg end a b) (beg + 1) (end - 1)
          (omega (arith, length-set (set s end b) beg a, length-set s end b))
          (omega (arith, length-set (set s end b) beg a, length-set s end b)) (ground arith)
          (ground arith) in
      (
        out,
        one_round fuel s beg end a b (ground arith) l w ha hb ∙ run,
        λ j. spec j ∙ mirrored-swapped s beg end a b j (ground arith) l ha hb,
      )
  | inr done ↦
      (s, stops fuel s beg end (ground arith) w c l, λ j. mirrored-short s beg end j (ground arith))
]

pub length-reverse : (xs : List ℕ) → length (reverse xs) ≡ length xs
length-reverse [] = refl
length-reverse (x ∷ xs) =
    rw (reverse-cons x xs) (omega (arith, length-append (reverse xs) (x ∷ []), length-reverse xs))

get_elem?-reverse :
    (xs : List ℕ) (j : ℕ)
    → j < length xs
    → get_elem? (reverse xs) j ≡ get_elem? xs (length xs - 1 - j)
get_elem?-reverse [] j h = absurd (omega arith)
get_elem?-reverse (x ∷ xs) j h = elim (Bool-cases (ltb j (length xs))) [
  | inl here ↦
      let e : suc (length xs) - 1 - j ≡ suc (length xs - 1 - j) = ground arith in
      rw (
        reverse-cons x xs,
        get_elem?-append_left (reverse xs) (x ∷ []) j (ground (arith, length-reverse xs)),
        e,
        get_elem?-reverse xs j (ground arith),
      )
  | inr last ↦
      let e : j ≡ length (reverse xs) + 0 = ground (arith, length-reverse xs) in
      let z : suc (length xs) - 1 - j ≡ 0 = ground arith in
      rw (reverse-cons x xs, z)
        (ap (get_elem? (reverse xs ++ (x ∷ []))) e ∙ get_elem?-append_right (reverse xs) (x ∷ []) 0)
]

-- Behind the string nothing moves, and in it the bytes stand in reverse order.
mirrored-reverse :
    (str rest : List ℕ) (j : ℕ)
    → 0 < length str
    → mirrored (str ++ rest) 0 (length str - 1) j ≡ get_elem? (reverse str ++ rest) j
mirrored-reverse str rest j h = elim (Bool-cases (leb j (length str - 1))) [
  | inl within ↦
      let e : 0 + (length str - 1) - j ≡ length str - 1 - j = omega arith in
      rw
        (
          within,
          e,
          get_elem?-append_left str rest (length str - 1 - j) (omega arith),
          get_elem?-append_left (reverse str) rest j (ground (arith, length-reverse str)),
          get_elem?-reverse str j (ground arith),
        )
        (ground arith)
  | inr behind ↦
      let k : ℕ = j - length str in
      let e : j ≡ length str + k = ground arith in
      let e' : j ≡ length (reverse str) + k = omega (arith, length-reverse str) in
      rw behind (
        ground (
          arith,
          ap (get_elem? (str ++ rest)) e ∙ get_elem?-append_right str rest k,
          ap (get_elem? (reverse str ++ rest)) e' ∙ get_elem?-append_right (reverse str) rest k,
        ))
]

-- For a string in less than 2 ^ 31 bytes, `strrev` reverses in place what stands before the first
-- NUL, and leaves the NUL and what is behind it as they are.
pub strrev_lem :
    (str rest : List ℕ)
    → NoNul str
    → length (str ++ (0 ∷ rest)) < 2 ^ 31
    → strrev (str ++ (0 ∷ rest)) ≡ some (reverse str ++ (0 ∷ rest))
unfolding strrev
strrev_lem [] rest n w = refl
strrev_lem (c ∷ str) rest n w =
    let xs = c ∷ str in
    let s = xs ++ (0 ∷ rest) in
    let total = length-append xs (0 ∷ rest) in
    let end : sub32 (length xs) 1 ≡ length xs - 1 = omega (arith, total) in
    let (out, run, spec) =
      strrev_loop_lem (length xs + 1) s 0 (length xs - 1) (omega (arith, total)) w (omega arith)
        (omega arith) in
    let same : out ≡ reverse xs ++ (0 ∷ rest) =
      get_elem?_ext out (reverse xs ++ (0 ∷ rest))
        (λ j. spec j ∙ mirrored-reverse xs (0 ∷ rest) j (omega arith)) in
    rw (strlen_lem xs rest n (omega (arith, total)), end, run, same)
