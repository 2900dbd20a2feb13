-- ===== src/CString/Copy.antt =====
-- What `memcpy` of student-distrib/lib.c leaves where source and destination do not overlap.
use apoll_os.Prelude.{
  ℕ, zero, suc, ◌≤◌, ◌≡◌, refl, arith, some, List, [], ◌∷◌, ◌++◌, length, take, drop,
}
use apoll_os.CString.{memcpy}

pub memcpy_lem :
    (n : ℕ) (dest src : List ℕ)
    → n ≤ length dest
    → n ≤ length src
    → memcpy dest src n ≡ some (take n src ++ drop n dest)
unfolding memcpy
memcpy_lem zero dest src d s = refl
memcpy_lem (suc n) dest [] d s = absurd (omega arith)
memcpy_lem (suc n) [] (c ∷ src) d s = absurd (omega arith)
memcpy_lem (suc n) (e ∷ dest) (c ∷ src) d s = rw (memcpy_lem n dest src (omega arith) (omega arith))
