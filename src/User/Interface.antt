-- ===== src/User/Interface.antt =====
-- What a program of syscalls/ may rely on when it copies an open file to the screen: the contract of
-- read and write, apart from any kernel that keeps it.
use apoll_os.Prelude.{ℕ, ◌^◌, ◌≤◌, ◌<◌, min, ◌≡◌, some, List, ◌++◌, length, take, drop}
use apoll_os.CString.Compare.{NoNul}
use apoll_os.User.{Calls}

-- `Shows s fd rest out`: descriptor `fd` is open on a file with the bytes `rest` still to read, and
-- `out` is what has been written to the screen.
pub record FileCalls {S : Type 0} (os : Calls S) : Type 1 where
  pub Shows : S → ℕ → List ℕ → List ℕ → Type 0
  pub read_lem :
      (s : S) (fd : ℕ) (rest out buf : List ℕ) (n : ℕ)
      → Shows s fd rest out
      → n ≤ length buf
      → n < 2 ^ 31
      → (s' : S) × (os.read_file fd buf n s
          ≡ some (min n (length rest), s', take n rest ++ drop (min n (length rest)) buf))
        × Shows s' fd (drop n rest) out
  pub write_lem :
      (s : S) (fd : ℕ) (rest out buf : List ℕ) (n : ℕ)
      → Shows s fd rest out
      → n ≤ length buf
      → n < 2 ^ 31
      → NoNul (take n buf)
      → (s' : S) × (os.write_file 1 buf n s ≡ some (n, s')) × Shows s' fd rest (out ++ take n buf)
  pub text : (s : S) (fd : ℕ) (rest out : List ℕ) → Shows s fd rest out → NoNul rest
