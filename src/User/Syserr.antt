-- ===== src/User/Syserr.antt =====
-- syscalls/ece391syserr.c: tests of the errors of the system calls. `vidmap` and `call_sys`, which
-- traps with a number of its own, are parameters. A test returns 0 if it passes, and 2 if not.
use apoll_os.Prelude.{
  ℕ, zero, suc, ◌+◌, Option, some, List, ◌==◌, ◌!=◌, if◌then◌else◌, get_elem?, ◌>>=◌, c_string,
  sub32, minus_one,
}
use apoll_os.User.{Calls}
use apoll_os.User.Support.{fdputs}
use apoll_os.User.Programs.{stdin, stdout}

-- NEG_FD and NEG_NUM, BIG_FD and BIG_NUM.
abbrev pub neg_fd : ℕ
neg_fd = 3221225473

abbrev pub big_fd : ℕ
big_fd = 1073741823

module _ {S : Type 0} (os : Calls S) where
  -- `if (-1 != call) { fail = 2; fdputs (1, message); }`, with what the call returned.
  abbrev pub expect_error : ℕ → List ℕ → ℕ → S → Option (ℕ × S)
  expect_error ret message fail s =
      if ret != minus_one
      then (do s' ← fdputs os stdout message s; some (2, s'))
      else some (fail, s)

  -- The end of a test.
  abbrev pub verdict : List ℕ → List ℕ → ℕ → S → Option (ℕ × S)
  verdict bad good fail s = do
    s' ← fdputs os stdout (if fail != 0 then bad else good) s
    some (fail, s')

  -- A read, a write and a close with a descriptor that there is not.
  abbrev pub err_fd : ℕ → List ℕ → List ℕ → List ℕ → S → Option (ℕ × S)
  err_fd fd bad good buf s = do
    (r1, s1, buf') ← os.read_file fd buf 31 s
    (f1, s2) ← expect_error r1 (c_string "read fail\n") 0 s1
    (r2, s3) ← os.write_file fd buf' 31 s2
    (f2, s4) ← expect_error r2 (c_string "write fail\n") f1 s3
    (r3, s5) ← os.close_file fd s4
    (f3, s6) ← expect_error r3 (c_string "close fail\n") f2 s5
    verdict bad good f3 s6

  unfoldable pub err_neg_fd : List ℕ → S → Option (ℕ × S)
  err_neg_fd = err_fd neg_fd (c_string "err_neg_fd: FAIL\n") (c_string "err_neg_fd: PASS\n")

  unfoldable pub err_big_fd : List ℕ → S → Option (ℕ × S)
  err_big_fd = err_fd big_fd (c_string "err_big_fd: FAIL\n") (c_string "err_big_fd: PASS\n")

  -- The loops have the rounds that are left.
  pub open_lots : ℕ → ℕ → S → Option (ℕ × S)
  open_lots zero cnt s = some (cnt, s)
  open_lots (suc n) cnt s = do
    (fd, s') ← os.open_file (c_string ".") s
    open_lots n (if fd == minus_one then cnt + 1 else cnt) s'

  pub close_lots : ℕ → ℕ → S → Option S
  close_lots zero i s = some s
  close_lots (suc n) i s = do (_, s') ← os.close_file i s; close_lots n (i + 1) s'

  pub err_open_lots : S → Option (ℕ × S)
  err_open_lots s = do
    (cnt, s1) ← open_lots 7 0 s
    s2 ← close_lots 6 2 s1
    if cnt == 1
        then (do s3 ← fdputs os stdout (c_string "err_open_lots: PASS\n") s2; some (0, s3))
        else (do s3 ← fdputs os stdout (c_string "err_open_lots: FAIL\n") s2; some (2, s3))

  pub err_open : S → Option (ℕ × S)
  err_open s = do
    (r1, s1) ← os.open_file (c_string "helloo") s
    (f1, s2) ← expect_error r1 (c_string "'helloo' fail\n") 0 s1
    (r2, s3) ← os.open_file (c_string "shel") s2
    (f2, s4) ← expect_error r2 (c_string "'shel' fail\n") f1 s3
    (r3, s5) ← os.open_file (c_string "") s4
    (f3, s6) ← expect_error r3 (c_string "empty string fail\n") f2 s5
    verdict (c_string "err_open: FAIL\n") (c_string "err_open: PASS\n") f3 s6

  unfoldable pub close_unopened : ℕ → ℕ → ℕ → S → Option (ℕ × S)
  close_unopened zero i fail s = some (fail, s)
  close_unopened (suc n) i fail s = do
    (ret, s1) ← os.close_file i s
    (fail', s2) ← expect_error ret (c_string "close unopened or invalid fd fail\n") fail s1
    close_unopened n (i + 1) fail' s2

  unfoldable pub read_unopened : ℕ → ℕ → ℕ → List ℕ → S → Option (ℕ × S × List ℕ)
  read_unopened zero i fail buf s = some (fail, s, buf)
  read_unopened (suc n) i fail buf s = do
    (ret, s1, buf') ← os.read_file i buf 31 s
    (fail', s2) ← expect_error ret (c_string "read from unopened fd fail\n") fail s1
    read_unopened n (i + 1) fail' buf' s2

  unfoldable pub write_unopened : ℕ → ℕ → ℕ → List ℕ → S → Option (ℕ × S)
  write_unopened zero i fail buf s = some (fail, s)
  write_unopened (suc n) i fail buf s = do
    (ret, s1) ← os.write_file i buf 31 s
    (fail', s2) ← expect_error ret (c_string "write to unopened fd fail\n") fail s1
    write_unopened n (i + 1) fail' buf s2

  unfoldable pub err_unopened : List ℕ → S → Option (ℕ × S)
  err_unopened buf s = do
    (f1, s1) ← close_unopened 8 0 0 s
    (f2, s2, buf') ← read_unopened 6 2 f1 buf s1
    (f3, s3) ← write_unopened 6 2 f2 buf' s2
    verdict (c_string "err_unopened: FAIL\n") (c_string "err_unopened: PASS\n") f3 s3

  unfoldable pub err_stdin_out : List ℕ → S → Option (ℕ × S)
  err_stdin_out buf s = do
    (r1, s1) ← os.write_file 0 buf 31 s
    (f1, s2) ← expect_error r1 (c_string "write to stdin fail\n") 0 s1
    (r2, s3, _) ← os.read_file 1 buf 31 s2
    (f2, s4) ← expect_error r2 (c_string "read from stdout fail\n") f1 s3
    verdict (c_string "err_stdin_out: FAIL\n") (c_string "err_stdin_out: PASS\n") f2 s4

  unfoldable pub err_vidmap : (ℕ → S → Option (ℕ × S)) → S → Option (ℕ × S)
  err_vidmap vidmap s = do
    (r1, s1) ← vidmap 0 s
    (f1, s2) ← expect_error r1 (c_string "Null pointer fail\n") 0 s1
    (r2, s3) ← vidmap 0x400000 s2
    (f2, s4) ← expect_error r2 (c_string "Kernel pointer fail fail\n") f1 s3
    verdict (c_string "err_vidmap: FAIL\n") (c_string "err_vidmap: PASS\n") f2 s4

  pub err_syscall_num : (ℕ → S → Option (ℕ × S)) → S → Option (ℕ × S)
  err_syscall_num call_sys s = do
    (r1, s1) ← call_sys big_fd s
    (f1, s2) ← expect_error r1 (c_string "syscall 0 fail\n") 0 s1
    (r2, s3) ← call_sys neg_fd s2
    (f2, s4) ← expect_error r2 (c_string "big num syscall fail\n") f1 s3
    (r3, s5) ← call_sys 0 s4
    (f3, s6) ← expect_error r3 (c_string "neg num syscall fail\n") f2 s5
    verdict (c_string "err_syscall_num: FAIL\n") (c_string "err_syscall_num: PASS\n") f3 s6

  module _ (vidmap call_sys : ℕ → S → Option (ℕ × S)) where
    -- The case 0 of the `switch`, and all of it.
    all_tests : (ℕ → List ℕ) → S → Option (ℕ × S)
    all_tests frame s = do
      (f1, s1) ← err_neg_fd (frame 1) s
      (f2, s2) ← err_big_fd (frame 2) s1
      (f3, s3) ← err_open_lots s2
      (f4, s4) ← err_open s3
      (f5, s5) ← err_unopened (frame 5) s4
      (f6, s6) ← err_vidmap vidmap s5
      (f7, s7) ← err_stdin_out (frame 7) s6
      (f8, s8) ← err_syscall_num call_sys s7
      let fail = f1 + f2 + f3 + f4 + f5 + f6 + f7 + f8
      verdict (c_string "\nOverall Tests: FAIL\n") (c_string "\nOverall Tests: PASS\n") fail s8

    selected : (ℕ → List ℕ) → ℕ → S → Option (ℕ × S)
    selected frame n s =
        if n == 0
        then all_tests frame s
        else if n == 1
        then err_neg_fd (frame 1) s
        else if n == 2
        then err_big_fd (frame 2) s
        else if n == 3
        then err_open_lots s
        else if n == 4
        then err_open s
        else if n == 5
        then err_unopened (frame 5) s
        else if n == 6
        then err_vidmap vidmap s
        else if n == 7
        then err_stdin_out (frame 7) s
        else if n == 8
        then err_syscall_num call_sys s
        else (do
          s' ← fdputs os stdout (c_string "Invalid test number. Choose from tests 1-8 or 0") s
          some (0, s'))

    -- `frame` is what the buffer of a test held before, by the number of the test.
    pub syserr : List ℕ → (ℕ → List ℕ) → S → Option (ℕ × S)
    syserr buf frame s = do
      s0 ← fdputs os stdout (c_string "Choose from tests 1-8. 0 to run all: ") s
      (cnt, s1, buf') ← os.read_file stdin buf 127 s0
      if cnt == minus_one
          then (do s2 ← fdputs os stdout (c_string "Can't read test #\n") s1; some (2, s2))
          else (do c ← get_elem? buf' 0; selected frame (sub32 c b'0') s1)
