-- ===== src/User/Programs.antt =====
-- The programs of syscalls/: cat, ls, hello, testprint, counter and the shell. The result of `main`
-- is its exit status. A loop that ends by itself takes fuel, and is `none` when that runs out.
use apoll_os.Prelude.{
  ℕ, zero, suc, ◌+◌, ◌&&◌, ◌||◌, Option, none, some, List, ltb, ◌==◌, ◌!=◌, if◌then◌else◌,
  get_elem?, store, ◌>>=◌, c_string, u32, sub32, minus_one, slt,
}
use apoll_os.User.{Calls}
use apoll_os.User.Support.{fdputs, strlen, strcmp, itoa}

abbrev pub stdin : ℕ
stdin = 0

abbrev pub stdout : ℕ
stdout = 1

module _ {S : Type 0} (os : Calls S) where
  -- `fdputs (1, text)`, and the status that `main` returns.
  abbrev pub fails_with : ℕ → List ℕ → S → Option (ℕ × S)
  fails_with status text s = do s' ← fdputs os stdout text s; some (status, s')

  -- `while (0 != (cnt = read (fd, buf, 1024)))`.
  unfoldable pub cat_loop : ℕ → ℕ → List ℕ → S → Option (ℕ × S)
  cat_loop zero fd buf s = none
  cat_loop (suc fuel) fd buf s = do
    (cnt, s', buf') ← os.read_file fd buf 1024 s
    let next = (do
      (written, s'') ← os.write_file stdout buf' cnt s'
      let rest = cat_loop fuel fd buf' s''
      if written == minus_one then some (3, s'') else rest)
    if cnt == 0
        then some (0, s')
        else (if cnt == minus_one then fails_with 3 (c_string "file read failed\n") s' else next)

  -- `buf` is what the 1024 bytes on the stack held.
  unfoldable pub cat : ℕ → List ℕ → S → Option (ℕ × S)
  cat fuel buf s = do
    (err, s1, name) ← os.getargs buf 1024 s
    if err != 0 then fails_with 3 (c_string "could not read arguments\n") s1 else (do
      (fd, s2) ← os.open_file name s1
      if fd == minus_one
          then fails_with 2 (c_string "file not found\n") s2
          else cat_loop fuel fd name s2)

  -- `while (0 != (cnt = read (fd, buf, SBUFSIZE-1)))`, with SBUFSIZE 33.
  unfoldable pub ls_loop : ℕ → ℕ → List ℕ → S → Option (ℕ × S)
  ls_loop zero fd buf s = none
  ls_loop (suc fuel) fd buf s = do
    (cnt, s', buf') ← os.read_file fd buf 32 s
    let next = (do
      line ← store buf' cnt 10
      (written, s'') ← os.write_file stdout line (u32 (cnt + 1)) s'
      let rest = ls_loop fuel fd line s''
      if written == minus_one then some (3, s'') else rest)
    if cnt == 0
        then some (0, s')
        else (if cnt == minus_one
            then fails_with 3 (c_string "directory entry read failed\n") s'
            else next)

  unfoldable pub ls : ℕ → List ℕ → S → Option (ℕ × S)
  ls fuel buf s = do
    (fd, s') ← os.open_file (c_string ".") s
    if fd == minus_one
        then fails_with 2 (c_string "directory open failed\n") s'
        else ls_loop fuel fd buf s'

  unfoldable pub hello : List ℕ → S → Option (ℕ × S)
  hello buf s = do
    s1 ← fdputs os stdout (c_string "Hi, what's your name? ") s
    (cnt, s2, buf') ← os.read_file stdin buf 1023 s1
    if cnt == minus_one then fails_with 3 (c_string "Can't read name from keyboard.\n") s2 else (do
      name ← store buf' cnt 0
      s3 ← fdputs os stdout (c_string "Hello, ") s2
      s4 ← fdputs os stdout name s3
      some (0, s4))

  unfoldable pub testprint : S → Option (ℕ × S)
  testprint s = fails_with 0 (c_string "Hello, if this ran, the program was correct. Yay!\n") s

  -- `for (i = 0; i < max; i++)`, with the rounds that are left.
  unfoldable pub count_loop : ℕ → ℕ → List ℕ → S → Option (ℕ × S)
  count_loop zero i buf s = some (0, s)
  count_loop (suc n) i buf s = do
    buf' ← itoa (u32 (i + 1)) buf 10
    s1 ← fdputs os stdout buf' s
    s2 ← fdputs os stdout (c_string "\n") s1
    count_loop n (i + 1) buf' s2

  -- The `switch` on the choice; `max` is 0 for any other.
  abbrev pub choice_max : ℕ → ℕ
  choice_max c =
      if c == b'0' then 100 else if c == b'1' then 10000 else if c == b'2' then 100000 else 0

  unfoldable pub counter : List ℕ → S → Option (ℕ × S)
  counter buf s = do
    s1 ← fdputs os stdout (c_string "Enter the Test Number: (0): 100, (1): 10000, (2): 100000\n") s
    (cnt, s2, buf') ← os.read_file stdin buf 1023 s1
    if cnt == minus_one
        then fails_with 3 (c_string "Can't read the number from keyboard.\n") s2
        else (do
          line ← store buf' cnt 0
          n ← strlen line
          c ← get_elem? line 0
          if ltb 1 n || (n == 1 && (ltb c b'0' || ltb b'2' c))
              then fails_with 0 (c_string "Wrong Choice!\n") s2
              else count_loop (choice_max c) 0 line s2)

  -- `if (cnt > 0 && '\n' == buf[cnt - 1]) cnt--;`, and the NUL behind the line.
  unfoldable pub shell_line : ℕ → List ℕ → Option (List ℕ)
  shell_line cnt buf =
      if slt 0 cnt
      then (do
        last ← get_elem? buf (sub32 cnt 1)
        store buf (if last == 10 then sub32 cnt 1 else cnt) 0)
      else store buf cnt 0

  -- What the shell says of the status of a program.
  unfoldable pub shell_report : ℕ → S → Option S
  shell_report rval s =
      if rval == minus_one
      then fdputs os stdout (c_string "no such command\n") s
      else if rval == 256
      then fdputs os stdout (c_string "program terminated by exception\n") s
      else if rval != 0
      then fdputs os stdout (c_string "program terminated abnormally\n") s
      else some s

  -- The rounds of `while (1)`, with fuel: the shell ends only at "exit" or where it cannot read.
  unfoldable pub shell_loop : ℕ → List ℕ → S → Option (ℕ × S)
  shell_loop zero buf s = none
  shell_loop (suc fuel) buf s = do
    s1 ← fdputs os stdout (c_string "391OS> ") s
    (cnt, s2, buf') ← os.read_file stdin buf 1023 s1
    if cnt == minus_one then fails_with 3 (c_string "read from keyboard failed\n") s2 else (do
      line ← shell_line cnt buf'
      ended ← strcmp line (c_string "exit")
      c ← get_elem? line 0
      let again = shell_loop fuel line s2
      let run = (do
        (rval, s3) ← os.execute line s2
        s4 ← shell_report rval s3
        shell_loop fuel line s4)
      if ended == 0 then some (0, s2) else (if c == 0 then again else run))

  unfoldable pub shell : ℕ → List ℕ → S → Option (ℕ × S)
  shell fuel buf s = do
    s1 ← fdputs os stdout (c_string "Starting 391 Shell\n") s
    shell_loop fuel buf s1
