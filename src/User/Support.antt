-- ===== src/User/Support.antt =====
-- The string functions that every user program has, of syscalls/ece391support.c. Strings are
-- unsigned bytes from a pointer on, as in the kernel's own functions.
use apoll_os.Prelude.{
  ℕ, zero, suc, ◌+◌, ◌/◌, ◌%◌, not, ◌||◌, Option, none, some, List, [], ◌∷◌, ltb, ◌==◌, ◌!=◌,
  if◌then◌else◌, get_elem?, store, ◌>>=◌, u32, sub32, slt,
}
use apoll_os.CString.{digit_lookup}
use apoll_os.User.{Calls}

-- `for (len = 0; '\0' != *s; s++, len++)`.
unfoldable pub strlen_loop : List ℕ → ℕ → Option ℕ
strlen_loop [] len = none
strlen_loop (c ∷ s) len = if c != 0 then strlen_loop s (u32 (len + 1)) else some len

unfoldable pub strlen : List ℕ → Option ℕ
unfolding strlen_loop
strlen s = strlen_loop s 0

-- The new contents of the destination.
unfoldable pub strcpy : List ℕ → List ℕ → Option (List ℕ)
strcpy dst [] = none
strcpy [] (c ∷ src) = none
strcpy (d ∷ dst) (c ∷ src) =
    let rest = (do dst' ← strcpy dst src; some (c ∷ dst')) in
    if c != 0 then rest else some (c ∷ dst)

unfoldable pub strcmp : List ℕ → List ℕ → Option ℕ
strcmp [] s2 = none
strcmp (a ∷ s1) [] = none
strcmp (a ∷ s1) (b ∷ s2) =
    let rest = strcmp s1 s2 in
    if a == b then (if a == 0 then some 0 else rest) else some (sub32 a b)

-- The loop of `strncmp`, with `n` not yet counted down; it is called with `n` above 0.
strncmp_loop : ℕ → List ℕ → List ℕ → Option ℕ
strncmp_loop zero s1 s2 = none
strncmp_loop (suc n) [] s2 = none
strncmp_loop (suc n) (a ∷ s1) [] = none
strncmp_loop (suc n) (a ∷ s1) (b ∷ s2) =
    let rest = strncmp_loop n s1 s2 in
    if a == b then (if a == 0 || n == 0 then some 0 else rest) else some (sub32 a b)

unfoldable pub strncmp : List ℕ → List ℕ → ℕ → Option ℕ
unfolding strncmp_loop
strncmp s1 s2 n = if n == 0 then some 0 else strncmp_loop n s1 s2

-- `none` is also what the loop gives when its fuel runs out.
strrev_loop : ℕ → List ℕ → ℕ → ℕ → Option (List ℕ)
strrev_loop zero s beg end = none
strrev_loop (suc fuel) s beg end =
    let next = (do
      tmp ← get_elem? s end
      b ← get_elem? s beg
      s1 ← store s end b
      s2 ← store s1 beg tmp
      strrev_loop fuel s2 (u32 (beg + 1)) (sub32 end 1)) in
    if slt beg end then next else some s

unfoldable pub strrev : List ℕ → Option (List ℕ)
unfolding strrev_loop
strrev s = do
  n ← strlen s
  let end = sub32 n 1
  if not (slt 0 end) then some s else strrev_loop (n + 1) s 0 end

-- `while (newval > 0)`: the digits from the lowest on, and how many there are.
itoa_loop : ℕ → ℕ → ℕ → List ℕ → ℕ → Option (List ℕ × ℕ)
itoa_loop zero radix newval buf i = none
itoa_loop (suc fuel) radix newval buf i =
    let next = (do
      c ← digit_lookup (newval % radix)
      buf' ← store buf i c
      itoa_loop fuel radix (newval / radix) buf' (i + 1)) in
    if ltb 0 newval then next else some (buf, i)

unfoldable pub itoa : ℕ → List ℕ → ℕ → Option (List ℕ)
unfolding itoa_loop
itoa value buf radix =
    if value == 0
    then (do buf' ← store buf 0 b'0'; store buf' 1 0)
    else if radix == 0
    then none
    else (do (buf', i) ← itoa_loop 33 radix value buf 0; buf'' ← store buf' i 0; strrev buf'')

module _ {S : Type 0} (os : Calls S) where
  unfoldable pub fdputs : ℕ → List ℕ → S → Option S
  fdputs fd str s = do n ← strlen str; (_, s') ← os.write_file fd str n s; some s'
