-- ===== src/Tests/Text.antt =====
-- Tests of the string functions of student-distrib/lib.c.
use apoll_os.Prelude.{ℕ, ◌≡◌, refl, ◌↔◌, inl, inr, arith, some, [], ◌∷◌, replicate}
use apoll_os.CString.{strncmp, itoa}
use apoll_os.CString.Compare.{strncmp_lem, text}
use apoll_os.CString.Digits.{IsNumeral, itoa-IsNumeral}

strncmp_lem_example :
    (r : ℕ) × (strncmp (97 ∷ 98 ∷ 0 ∷ []) (97 ∷ 0 ∷ []) 3 ≡ some r)
    × ((r ≡ 0) ↔ (text 3 (97 ∷ 98 ∷ 0 ∷ []) ≡ text 3 (97 ∷ 0 ∷ [])))
strncmp_lem_example =
    strncmp_lem 3 (97 ∷ 98 ∷ 0 ∷ []) (97 ∷ 0 ∷ []) (inr (inr (inl refl))) (inr (inl refl))
      (omega arith, (omega arith, (omega arith, tt))) (omega arith, (omega arith, tt))

itoa-IsNumeral_example : IsNumeral 16 0xbeef (replicate 42 0) (itoa 0xbeef (replicate 42 0) 16)
itoa-IsNumeral_example =
    itoa-IsNumeral 0xbeef (replicate 42 0) 16 (omega arith) (omega arith) (omega arith)
      (omega arith) (omega arith)
