-- ===== src/User/SyserrOnKernel.antt =====
-- The tests of syscalls/ece391syserr.c on the kernel of student-distrib/: which of them pass.
use apoll_os.Prelude.{
  ℕ, zero, suc, ◌+◌, ◌^◌, ◌≤◌, ◌<◌, ◌≡◌, refl, sym, ap, ◌∙◌, inl, inr, arith, true, false, Option,
  some, List, [], ◌∷◌, ◌++◌, ltb, ◌==◌, Bool-cases, length, get_elem?, ◌>>=◌, c_string, minus_one,
  slt,
}
use mathlib.Core.Path.{subst}
use apoll_os.CString.Compare.{NoNul}
use apoll_os.FileOps.{File, FileOps, Fn, stdin_ops, stdout_ops}
use apoll_os.Paging.{Layout}
use apoll_os.Screen.{Screen}
use apoll_os.Screen.Bounds.{IsOnScreen}
use apoll_os.Kernel.{Kernel, Pcb}
use apoll_os.Execute.{Flow}
use apoll_os.Tty.{returns}
use apoll_os.Tty.Writing.{put_all}
use apoll_os.Syscalls.{
  is_open, read, write, close, vidmap, bad_fd, call_read, call_write, call_close,
}
use apoll_os.Syscalls.Descriptors.{NotOpen, out_of_range, is_closed, read-NotOpen}
use apoll_os.Syscalls.Files.{IsRunning, current_pcb-IsRunning, write-stdout}
use apoll_os.User.{Calls}
use apoll_os.User.Support.{fdputs}
use apoll_os.User.Text.{
  strlen-NoNul, text-NoNul, Readable-append, NoNul-all_plain, all_plain, line_of,
}
use apoll_os.User.OnKernel.{kernel_calls}
use apoll_os.User.Syserr

-- A process has been started, and has opened nothing.
pub record HasStarted (k : Kernel) (pid : ℕ) (pcb : Pcb) : Type 0 where
  pub running : IsRunning k pid pcb
  pub input : File
  pub input_at : get_elem? pcb.files 0 ≡ some input
  pub input_open : is_open input ≡ true
  pub input_table : input.fileops ≡ stdin_ops
  pub output : File
  pub output_at : get_elem? pcb.files 1 ≡ some output
  pub output_open : is_open output ≡ true
  pub output_table : output.fileops ≡ stdout_ops
  pub others :
      (fd : ℕ)
      → 2 ≤ fd
      → fd < 8
      → (f : File) × (get_elem? pcb.files fd ≡ some f) × (is_open f ≡ false)
  pub on : IsOnScreen k.screen

-- A test passes: it returns 0, shows the line, and changes nothing but the screen.
abbrev pub Passes : Option (ℕ × Kernel) → List ℕ → Kernel → Type 0
Passes o line k =
    (s' : Screen) × (o ≡ some (0, record k { screen = s' })) × (put_all line k.screen ≡ some s')

-- `vidmap` without what it stores.
abbrev pub vidmap_call : Layout → ℕ → Kernel → Option (ℕ × Kernel)
vidmap_call l at k = do (ret, _, k') ← vidmap l at k; some (ret, k')

module _ (cmos : ℕ → ℕ) (run : Flow → Option (ℕ × Kernel)) (k : Kernel) (pid : ℕ) (pcb : Pcb)
    (r : HasStarted k pid pcb) where
  abbrev os : Calls Kernel
  os = kernel_calls cmos run

  fdputs-HasStarted :
      (line : List ℕ)
      → NoNul line
      → length line < 2 ^ 31
      → (s' : Screen) × (fdputs os 1 (line ++ (0 ∷ [])) k ≡ some (record k { screen = s' }))
        × (put_all line k.screen ≡ some s')
  unfolding fdputs
  fdputs-HasStarted line plain small =
      let (s', wrote, shown, on) =
        write-stdout cmos k pid pcb r.output (line ++ (0 ∷ [])) (length line) r.running r.output_at
          r.output_open r.output_table (Readable-append line (0 ∷ [])) small r.on in
      let all = text-NoNul line (0 ∷ []) plain in
      (
        s',
        rw (strlen-NoNul line plain small, wrote),
        ap (λ t. put_all t k.screen) (sym all) ∙ shown,
      )

  -- The end of a test in which nothing failed.
  verdict-Passes :
      (bad line : List ℕ)
      → NoNul line
      → length line < 2 ^ 31
      → Passes (Syserr.verdict os bad (line ++ (0 ∷ [])) 0 k) line k
  verdict-Passes bad line plain small =
      let (s', done, shown) = fdputs-HasStarted line plain small in (s', rw done, shown)

  err_fd-Passes :
      (fd : ℕ) (bad line buf : List ℕ)
      → 8 ≤ fd
      → fd < 2 ^ 32
      → NoNul line
      → length line < 2 ^ 31
      → Passes (Syserr.err_fd os fd bad (line ++ (0 ∷ [])) buf k) line k
  err_fd-Passes fd bad line buf lo hi plain small =
      let (reads, writes, closes) = read-NotOpen cmos fd buf 31 k (out_of_range lo hi) in
      let (s', done, shown) = verdict-Passes bad line plain small in
      (s', rw (reads, writes, closes) done, shown)

  -- A call on the file of a descriptor, with the table that is found there.
  close-open :
      (fd : ℕ) (f : File)
      → fd < 8
      → get_elem? pcb.files fd ≡ some f
      → is_open f ≡ true
      → f.fileops.close_fn ≡ Fn.fail
      → close cmos fd k ≡ some (minus_one, k)
  unfolding close call_close
  close-open fd f small here flag table =
      let good : bad_fd cmos fd ≡ false = ground arith in
      rw (good, current_pcb-IsRunning k pid pcb r.running, here, flag, table)

  not_open : (fd : ℕ) → 2 ≤ fd → fd < 8 → NotOpen fd k
  not_open fd lo hi =
      let (f, here, shut) = r.others fd lo hi in
      is_closed pcb f hi (current_pcb-IsRunning k pid pcb r.running) here shut

  close-fails : (fd : ℕ) → fd < 8 → close cmos fd k ≡ some (minus_one, k)
  close-fails fd small = elim (Bool-cases (ltb fd 2)) [
    | inl lo ↦ elim (Bool-cases (fd == 0)) [
      | inl e ↦
          let zero_fd : fd ≡ 0 = ground arith in
          subst (λ t. close cmos t k ≡ some (minus_one, k)) (sym zero_fd)
            (close-open 0 r.input (omega arith) r.input_at r.input_open
              (ap (λ (o : FileOps). o.close_fn) r.input_table))
      | inr e ↦
          let one_fd : fd ≡ 1 = ground arith in
          subst (λ t. close cmos t k ≡ some (minus_one, k)) (sym one_fd)
            (close-open 1 r.output (omega arith) r.output_at r.output_open
              (ap (λ (o : FileOps). o.close_fn) r.output_table))
    ]
    | inr hi ↦
        let (_, _, closes) = read-NotOpen cmos fd [] 0 k (not_open fd (ground arith) small) in
        closes
  ]

  close_unopened-HasStarted : (n i : ℕ) → i + n ≤ 8 → Syserr.close_unopened os n i 0 k ≡ some (0, k)
  unfolding Syserr.close_unopened
  close_unopened-HasStarted zero i h = refl
  close_unopened-HasStarted (suc n) i h =
      rw (close-fails i (omega arith), close_unopened-HasStarted n (i + 1) (omega arith))

  read_unopened-HasStarted :
      (n i : ℕ) (buf : List ℕ)
      → 2 ≤ i
      → i + n ≤ 8
      → Syserr.read_unopened os n i 0 buf k ≡ some (0, k, buf)
  unfolding Syserr.read_unopened
  read_unopened-HasStarted zero i buf lo h = refl
  read_unopened-HasStarted (suc n) i buf lo h =
      let (reads, _, _) = read-NotOpen cmos i buf 31 k (not_open i lo (omega arith)) in
      rw (reads, read_unopened-HasStarted n (i + 1) buf (omega arith) (omega arith))

  write_unopened-HasStarted :
      (n i : ℕ) (buf : List ℕ)
      → 2 ≤ i
      → i + n ≤ 8
      → Syserr.write_unopened os n i 0 buf k ≡ some (0, k)
  unfolding Syserr.write_unopened
  write_unopened-HasStarted zero i buf lo h = refl
  write_unopened-HasStarted (suc n) i buf lo h =
      let (_, writes, _) = read-NotOpen cmos i buf 31 k (not_open i lo (omega arith)) in
      rw (writes, write_unopened-HasStarted n (i + 1) buf (omega arith) (omega arith))

  write-stdin : (buf : List ℕ) → write cmos 0 (some buf) 31 k ≡ some (minus_one, k)
  unfolding write call_write
  write-stdin buf = rw (
    current_pcb-IsRunning k pid pcb r.running,
    r.input_at,
    r.input_open,
    ap (λ (o : FileOps). o.write_fn) r.input_table,
  )

  read-stdout : (buf : List ℕ) → read cmos 1 (some buf) 31 k ≡ some (returns minus_one k buf)
  unfolding read call_read
  read-stdout buf = rw (
    current_pcb-IsRunning k pid pcb r.running,
    r.output_at,
    r.output_open,
    ap (λ (o : FileOps). o.read_fn) r.output_table,
  )

  vidmap-refuses : (l : Layout) (at : ℕ) → at < 0x8000000 → vidmap_call l at k ≡ some (minus_one, k)
  unfolding vidmap
  vidmap-refuses l at low = elim (Bool-cases (at == 0)) [
    | inl e ↦ rw e
    | inr e ↦ let under : slt at 0x8000000 ≡ true = ground arith in rw (e, under)
  ]

  -- For a process that runs on its own stack with the terminal as its open standard input and
  -- output, with every other descriptor closed and the cursor on the screen, the tests err_neg_fd,
  -- err_big_fd, err_unopened, err_vidmap and err_stdin_out of the program syserr all pass on the
  -- modelled system calls: each returns 0, puts the line that says PASS on the screen and nothing
  -- else, and changes nothing but the screen.
  pub syserr-Passes :
      (l : Layout) (buf : List ℕ)
      → Passes (Syserr.err_neg_fd os buf k) (line_of (c_string "err_neg_fd: PASS\n")) k
        × Passes (Syserr.err_big_fd os buf k) (line_of (c_string "err_big_fd: PASS\n")) k
        × Passes (Syserr.err_unopened os buf k) (line_of (c_string "err_unopened: PASS\n")) k
        × Passes
            (Syserr.err_vidmap os (vidmap_call l) k)
            (line_of (c_string "err_vidmap: PASS\n"))
            k
        × Passes (Syserr.err_stdin_out os buf k) (line_of (c_string "err_stdin_out: PASS\n")) k
  unfolding all_plain Syserr.err_neg_fd Syserr.err_big_fd Syserr.err_unopened Syserr.err_vidmap
      Syserr.err_stdin_out
  syserr-Passes l buf = (
    err_fd-Passes Syserr.neg_fd (c_string "err_neg_fd: FAIL\n")
        (line_of (c_string "err_neg_fd: PASS\n")) buf (omega arith) (omega arith)
        (NoNul-all_plain (line_of (c_string "err_neg_fd: PASS\n")) refl) (omega arith),
    err_fd-Passes Syserr.big_fd (c_string "err_big_fd: FAIL\n")
        (line_of (c_string "err_big_fd: PASS\n")) buf (omega arith) (omega arith)
        (NoNul-all_plain (line_of (c_string "err_big_fd: PASS\n")) refl) (omega arith),
    rw
        (
          close_unopened-HasStarted 8 0 (omega arith),
          read_unopened-HasStarted 6 2 buf (omega arith) (omega arith),
          write_unopened-HasStarted 6 2 buf (omega arith) (omega arith),
        )
        (verdict-Passes (c_string "err_unopened: FAIL\n")
          (line_of (c_string "err_unopened: PASS\n"))
          (NoNul-all_plain (line_of (c_string "err_unopened: PASS\n")) refl) (omega arith)),
    rw (vidmap-refuses l 0 (omega arith), vidmap-refuses l 0x400000 (omega arith))
        (verdict-Passes (c_string "err_vidmap: FAIL\n") (line_of (c_string "err_vidmap: PASS\n"))
          (NoNul-all_plain (line_of (c_string "err_vidmap: PASS\n")) refl) (omega arith)),
    rw (write-stdin buf, read-stdout buf)
        (verdict-Passes (c_string "err_stdin_out: FAIL\n")
          (line_of (c_string "err_stdin_out: PASS\n"))
          (NoNul-all_plain (line_of (c_string "err_stdin_out: PASS\n")) refl) (omega arith)),
  )
