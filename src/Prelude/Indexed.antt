-- ===== src/Prelude/Indexed.antt =====
-- Arrays described index by index.
use Prim.Native.Nat.{ℕ, ◌<◌}
use mathlib.Core.Path.{◌≡◌}
use mathlib.Core.List.{List}
use mathlib.Core.Logic.{inl, inr}
use mathlib.Core.Option.{some}
use native.Mathlib.Omega.{arith}
use apoll_os.Prelude.Tests.{◌==◌, if◌then◌else◌, Bool-cases, lt→ltb}
use apoll_os.Prelude.Lists.{length, get_elem?, set, get_elem?-set_self, get_elem?-set_ne}
use apoll_os.Prelude.Fault.{store}

pub get_elem?-set_if :
    (xs : List ℕ) (i j v : ℕ)
    → i < length xs
    → get_elem? (set xs i v) j ≡ (if i == j then some v else get_elem? xs j)
get_elem?-set_if xs i j v h = elim (Bool-cases (i == j)) [
  | inl e ↦ let same : j ≡ i = ground arith in rw (e, same) (get_elem?-set_self xs i v h)
  | inr e ↦ rw e (get_elem?-set_ne xs i j v (ground arith))
]

pub store-set {ℓ} :
    {A : Type ℓ} (xs : List A) (i : ℕ) (v : A) → i < length xs → store xs i v ≡ some (set xs i v)
store-set xs i v h = rw (lt→ltb i (length xs) h)
