-- ===== src/User/Grep.antt =====
-- syscalls/ece391grep.c: the lines of all files that hold a text. A loop that is not over an array
-- takes fuel, and is `none` when that runs out.
use apoll_os.Prelude.{
  ℕ, zero, suc, ◌+◌, ◌-◌, Bool, true, false, ◌&&◌, Option, none, some, List, ◌++◌, ◌==◌, ◌!=◌,
  if◌then◌else◌, length, get_elem?, take, drop, store, ◌>>=◌, c_string, u32, sub32, minus_one, slt,
}
use apoll_os.User.{Calls}
use apoll_os.User.Support.{fdputs, strlen, strncmp, strcpy}
use apoll_os.User.Programs.{stdout, fails_with}

-- `while (line_end < last && '\n' != data[line_end])`. An index behind the buffer is a fault, so
-- that one round more than the buffer has bytes is enough.
pub find_end : ℕ → ℕ → ℕ → List ℕ → Option ℕ
find_end zero line_end last bytes = none
find_end (suc n) line_end last bytes =
    let rest = find_end n (line_end + 1) last bytes in
    if slt line_end last
    then (do c ← get_elem? bytes line_end; if c != 10 then rest else some line_end)
    else some line_end

-- `s[0] == data[check] && 0 == strncmp (bytes + check, s, s_len)`.
abbrev pub matches_at : List ℕ → ℕ → List ℕ → ℕ → Option Bool
matches_at s s_len bytes check = do
  a ← get_elem? s 0
  b ← get_elem? bytes check
  r ← if a == b then strncmp (drop check bytes) s s_len else some 1
  some (r == 0)

module _ {S : Type 0} (os : Calls S) where
  -- What is shown of a line that matches.
  abbrev pub show_line : List ℕ → List ℕ → S → Option S
  show_line fname line st = do
    s1 ← fdputs os stdout fname st
    s2 ← fdputs os stdout (c_string ":") s1
    s3 ← fdputs os stdout line s2
    fdputs os stdout (c_string "\n") s3

  -- The `for` loop over `check`, with the rounds that are left.
  pub search_line : ℕ → ℕ → List ℕ → ℕ → List ℕ → List ℕ → ℕ → S → Option S
  search_line zero check s s_len fname bytes line_start st = some st
  search_line (suc n) check s s_len fname bytes line_start st = do
    hit ← matches_at s s_len bytes check
    if hit
        then show_line fname (drop line_start bytes) st
        else search_line n (check + 1) s s_len fname bytes line_start st

  -- The inner `while (1)`: the buffer and `last` behind it. `line_start` grows in each round, so that
  -- one round more than the buffer has bytes is enough. The copy goes down, so that it reads each
  -- byte before it is overwritten.
  pub lines_loop : ℕ → List ℕ → ℕ → List ℕ → ℕ → List ℕ → ℕ → ℕ → S → Option (List ℕ × ℕ × S)
  lines_loop zero s s_len fname cnt bytes last line_start st = none
  lines_loop (suc fuel) s s_len fname cnt bytes last line_start st = do
    line_end ← find_end (length bytes + 1) line_start last bytes
    c ← get_elem? bytes line_end
    bytes1 ← store bytes line_end 0
    let next = (do
      st1 ← search_line (line_end - line_start) line_start s s_len fname bytes1 line_start st
      let again = lines_loop fuel s s_len fname cnt bytes1 last (line_end + 1) st1
      if slt (line_end + 1) last then again else some (bytes1, 0, st1))
    if c != 10 && (cnt != 0 && line_start != 0)
        then (do
          bytes2 ← strcpy bytes1 (drop line_start bytes1)
          some (bytes2, sub32 last line_start, st))
        else next

  -- The outer `while (1)`: whether a read failed, and the state behind it.
  pub file_loop : ℕ → ℕ → List ℕ → ℕ → List ℕ → List ℕ → ℕ → S → Option (Bool × S)
  file_loop zero fd s s_len fname bytes last st = none
  file_loop (suc fuel) fd s s_len fname bytes last st = do
    (cnt, s1, read) ← os.read_file fd (drop last bytes) (sub32 1024 last) st
    if cnt == minus_one
        then (do s2 ← fdputs os stdout (c_string "file read failed\n") s1; some (true, s2))
        else (do
          (bytes2, last2, s2) ←
              lines_loop (length bytes + 1) s s_len fname cnt (take last bytes ++ read)
                (u32 (last + cnt)) 0 s1
          let again = file_loop fuel fd s s_len fname bytes2 last2 s2
          if cnt == 0 then some (false, s2) else again)

  -- `bytes` is what its bytes on the stack held before.
  pub do_one_file : ℕ → List ℕ → List ℕ → List ℕ → S → Option (ℕ × S)
  do_one_file fuel s fname bytes st = do
    s_len ← strlen s
    (fd, s1) ← os.open_file fname st
    if fd == minus_one then fails_with os minus_one (c_string "file open failed\n") s1 else (do
      (failed, s2) ← file_loop fuel fd s s_len fname bytes 0 s1
      if failed then some (minus_one, s2) else (do
        (err, s3) ← os.close_file fd s2
        if err == minus_one
            then fails_with os minus_one (c_string "file close failed\n") s3
            else some (0, s3)))

  -- What the loop of `main` does with an entry: whether the search failed, the name's buffer, and the
  -- state.
  pub one_entry : ℕ → List ℕ → List ℕ → List ℕ → ℕ → S → Option (Bool × List ℕ × S)
  one_entry fuel search frame name cnt st = do
    c ← get_elem? name 0
    if c == b'.' then some (false, name, st) else (do
      fname ← store name cnt 0
      (err, s1) ← do_one_file fuel search fname frame st
      some (err != 0, fname, s1))

  -- The loop of `main` over the directory; `frame` gives the stack of the calls of `do_one_file`, and
  -- `rounds` their fuel.
  pub grep_loop : ℕ → ℕ → (ℕ → List ℕ) → ℕ → List ℕ → List ℕ → S → Option (ℕ × S)
  grep_loop zero rounds frame fd search buf st = none
  grep_loop (suc fuel) rounds frame fd search buf st = do
    (cnt, s1, name) ← os.read_file fd buf 32 st
    let next = (do
      (failed, buf', s2) ← one_entry rounds search (frame fuel) name cnt s1
      let rest = grep_loop fuel rounds frame fd search buf' s2
      if failed then some (3, s2) else rest)
    if cnt == 0
        then some (0, s1)
        else (if cnt == minus_one
            then fails_with os 3 (c_string "directory entry read failed\n") s1
            else next)

  pub grep : ℕ → ℕ → (ℕ → List ℕ) → List ℕ → List ℕ → S → Option (ℕ × S)
  grep fuel rounds frame search buf st = do
    (err, s1, text) ← os.getargs search 1024 st
    if err != 0 then fails_with os 3 (c_string "could not read argument\n") s1 else (do
      (fd, s2) ← os.open_file (c_string ".") s1
      if fd == minus_one
          then fails_with os 2 (c_string "directory open failed\n") s2
          else grep_loop fuel rounds frame fd text buf s2)
