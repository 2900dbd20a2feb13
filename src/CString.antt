-- ===== src/CString.antt =====
-- The string functions of student-distrib/lib.c. A string is the bytes of memory from its pointer
-- on; a loop over `s[i]` walks down the list, and the end of the list is a fault.
pub mod Compare
pub mod Copy
pub mod Digits
pub mod Numerals
pub mod Reverse
use apoll_os.Prelude.{
  ℕ, zero, suc, ◌+◌, ◌-◌, ◌/◌, ◌%◌, ◌||◌, Option, none, some, List, [], ◌∷◌, ltb, ◌==◌, ◌!=◌,
  if◌then◌else◌, get_elem?, store, ◌>>=◌, u32, sub32, slt, sign8,
}

-- `while(s[len] != '\0') len++;`
strlen_loop : List ℕ → ℕ → Option ℕ
strlen_loop [] len = none
strlen_loop (c ∷ s) len = if c == 0 then some len else strlen_loop s (u32 (len + 1))

unfoldable pub strlen : List ℕ → Option ℕ
unfolding strlen_loop
strlen s = strlen_loop s 0

-- The rounds that are left are `n - i`. The result is the int32_t difference of two int8_t.
strncmp_loop : ℕ → List ℕ → List ℕ → Option ℕ
strncmp_loop zero s1 s2 = some 0
strncmp_loop (suc k) [] s2 = none
strncmp_loop (suc k) (a ∷ s1) [] = none
strncmp_loop (suc k) (a ∷ s1) (b ∷ s2) =
    if a != b || a == 0 then some (sub32 (sign8 a) (sign8 b)) else strncmp_loop k s1 s2

unfoldable pub strncmp : List ℕ → List ℕ → ℕ → Option ℕ
unfolding strncmp_loop
strncmp s1 s2 n = strncmp_loop n s1 s2

-- The new contents of the destination.
unfoldable pub strcpy : List ℕ → List ℕ → Option (List ℕ)
strcpy dest [] = none
strcpy [] (c ∷ src) = none
strcpy (d ∷ dest) (c ∷ src) =
    if c == 0 then some (0 ∷ dest) else (do rest ← strcpy dest src; some (c ∷ rest))

-- The second loop of `strncpy`, which fills with NUL.
strncpy_pad : ℕ → List ℕ → Option (List ℕ)
strncpy_pad zero dest = some dest
strncpy_pad (suc k) [] = none
strncpy_pad (suc k) (d ∷ dest) = do rest ← strncpy_pad k dest; some (0 ∷ rest)

-- The first loop reads `src[i]` before it tests `i < n`, so it reads one byte past `n`.
strncpy_loop : ℕ → List ℕ → List ℕ → Option (List ℕ)
strncpy_loop k dest [] = none
strncpy_loop zero dest (c ∷ src) = some dest
strncpy_loop (suc k) [] (c ∷ src) = none
strncpy_loop (suc k) (d ∷ dest) (c ∷ src) =
    if c == 0
    then strncpy_pad (suc k) (d ∷ dest)
    else (do rest ← strncpy_loop k dest src; some (c ∷ rest))

unfoldable pub strncpy : List ℕ → List ℕ → ℕ → Option (List ℕ)
unfolding strncpy_loop strncpy_pad
strncpy dest src n = strncpy_loop n dest src

-- What `memcpy` does where source and destination do not overlap.
unfoldable pub memcpy : List ℕ → List ℕ → ℕ → Option (List ℕ)
memcpy dest src zero = some dest
memcpy dest [] (suc n) = none
memcpy [] (c ∷ src) (suc n) = none
memcpy (d ∷ dest) (c ∷ src) (suc n) = do rest ← memcpy dest src n; some (c ∷ rest)

unfoldable pub memset : List ℕ → ℕ → ℕ → Option (List ℕ)
memset s c zero = some s
memset [] c (suc n) = none
memset (d ∷ s) c (suc n) = do rest ← memset s c n; some (c % 256 ∷ rest)

-- `while(beg < end)` swaps `s[beg]` and `s[end]`. `none` is also what the loop gives when its fuel
-- runs out.
strrev_loop : ℕ → List ℕ → ℕ → ℕ → Option (List ℕ)
strrev_loop zero s beg end = none
strrev_loop (suc fuel) s beg end =
    let next = (do
      tmp ← get_elem? s end
      b ← get_elem? s beg
      s1 ← store s end b
      s2 ← store s1 beg tmp
      strrev_loop fuel s2 (u32 (beg + 1)) (sub32 end 1)) in
    if slt beg end then next else some s

unfoldable pub strrev : List ℕ → Option (List ℕ)
unfolding strrev_loop strlen
strrev s = do n ← strlen s; strrev_loop (n + 1) s 0 (sub32 n 1)

-- `lookup`, "0123456789ABCDEFGHIJKLMNOPQRSTUVWXYZ".
abbrev pub digit_char : ℕ → ℕ
digit_char d = if ltb d 10 then b'0' + d else b'A' + (d - 10)

unfoldable pub digit_lookup : ℕ → Option ℕ
digit_lookup i = if ltb i 36 then some (digit_char i) else (if i == 36 then some 0 else none)

-- `while(newval > 0)`: the digits from the lowest on, and how many there are.
unfoldable pub itoa_loop : ℕ → ℕ → ℕ → List ℕ → ℕ → Option (List ℕ × ℕ)
itoa_loop zero radix newval buf i = none
itoa_loop (suc fuel) radix newval buf i =
    let next = (do
      c ← digit_lookup (newval % radix)
      buf' ← store buf i c
      itoa_loop fuel radix (newval / radix) buf' (i + 1)) in
    if newval == 0 then some (buf, i) else next

-- Division by a radix of 0 is a fault. Of a radix from 2 on a uint32_t has at most 32 digits.
unfoldable pub itoa : ℕ → List ℕ → ℕ → Option (List ℕ)
itoa value buf radix =
    if value == 0
    then (do buf' ← store buf 0 b'0'; store buf' 1 0)
    else if radix == 0
    then none
    else (do (buf', i) ← itoa_loop 33 radix value buf 0; buf'' ← store buf' i 0; strrev buf'')
