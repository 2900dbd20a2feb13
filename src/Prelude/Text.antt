-- ===== src/Prelude/Text.antt =====
-- C string literals as bytes.
use Prim.Native.Nat.{ℕ}
use Prim.Native.Char.{code}
use Prim.Native.String.{String}
use mathlib.Core.List.{List, [], ◌∷◌}

-- The bytes of a literal, and its NUL.
abbrev pub c_string : String → List ℕ
c_string String.[] = 0 ∷ []
c_string (String.◌∷◌ c s) = code c ∷ c_string s
