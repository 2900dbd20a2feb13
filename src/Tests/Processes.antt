-- ===== src/Tests/Processes.antt =====
-- Tests of `halt` of student-distrib/ and of syscalls/ece391syserr.c.
use apoll_os.Kernel.{Terminal}
use apoll_os.Execute.Halting.{CanHalt}
use apoll_os.Tests.Data.{typed_terminal}
use apoll_os.Prelude.{
  get_elem?, get_elem?-replicate, c_string, replicate, zero, suc, ◌<◌, ◌≤◌, false, ℕ, ◌≡◌, refl,
  arith, some, [], ◌∷◌, length-replicate,
}
use apoll_os.Syscalls.{is_open}
use apoll_os.User.{Calls}
use apoll_os.User.Syserr.{err_neg_fd, err_big_fd, err_unopened, err_vidmap, err_stdin_out}
use apoll_os.User.SyserrOnKernel.{HasStarted, Passes, vidmap_call, syserr-Passes}
use apoll_os.User.Text.{line_of}
use apoll_os.Tests.Data.{layout}
use apoll_os.FileOps.{File, stdin_ops, stdout_ops}
use apoll_os.Kernel.{Kernel, Pcb}
use apoll_os.User.OnKernel.{kernel_calls}
use apoll_os.Tests.Data.{kernel_with}
use apoll_os.Tests.Data.{plain_file, on_screen, calls_run}

abbrev started_pcb : Pcb
started_pcb = record {
  files =
      record { inode = 0; flags = 1; pos = 0; fileops = stdin_ops }
      ∷ record { inode = 0; flags = 1; pos = 0; fileops = stdout_ops }
      ∷ replicate 6 (plain_file 0);
  pid = 0;
  args = replicate 128 0;
  parent_pid = 1;
  parent_esp = 0x7fdf00;
  parent_ebp = 0x7fdf20;
}

abbrev started_kernel : Kernel
started_kernel = record (kernel_with [] 0 0 0x7fff00) { pcbs = started_pcb ∷ [] }

not_opened :
    (fd : ℕ)
    → 2 ≤ fd
    → fd < 8
    → (f : File) × (get_elem? started_pcb.files fd ≡ some f) × (is_open f ≡ false)
not_opened zero lo hi = absurd (omega arith)
not_opened (suc zero) lo hi = absurd (omega arith)
not_opened (suc (suc j)) lo hi =
    (plain_file 0, get_elem?-replicate 6 j (plain_file 0) (omega arith), refl)

started_kernel-HasStarted : HasStarted started_kernel 0 started_pcb
started_kernel-HasStarted = record {
  running = record { small = omega arith; stack = (omega arith, omega arith); block = refl };
  input = record { inode = 0; flags = 1; pos = 0; fileops = stdin_ops };
  input_at = refl;
  input_open = refl;
  input_table = refl;
  output = record { inode = 0; flags = 1; pos = 0; fileops = stdout_ops };
  output_at = refl;
  output_open = refl;
  output_table = refl;
  others = not_opened;
  on = on_screen;
}

abbrev syserr_os : Calls Kernel
syserr_os = kernel_calls (λ reg. 0) calls_run

syserr-Passes_example :
    Passes
      (err_neg_fd syserr_os (replicate 32 0) started_kernel)
      (line_of (c_string "err_neg_fd: PASS\n"))
      started_kernel
    × Passes
        (err_big_fd syserr_os (replicate 32 0) started_kernel)
        (line_of (c_string "err_big_fd: PASS\n"))
        started_kernel
    × Passes
        (err_unopened syserr_os (replicate 32 0) started_kernel)
        (line_of (c_string "err_unopened: PASS\n"))
        started_kernel
    × Passes
        (err_vidmap syserr_os (vidmap_call layout) started_kernel)
        (line_of (c_string "err_vidmap: PASS\n"))
        started_kernel
    × Passes
        (err_stdin_out syserr_os (replicate 32 0) started_kernel)
        (line_of (c_string "err_stdin_out: PASS\n"))
        started_kernel
syserr-Passes_example =
    syserr-Passes (λ reg. 0) calls_run started_kernel 0 started_pcb started_kernel-HasStarted layout
      (replicate 32 0)

abbrev two_programs : Terminal
two_programs = record (typed_terminal []) { num_processes = 2 }

-- The process 0 has been started by the process 1.
abbrev child_kernel : Kernel
child_kernel = record started_kernel { processes_flags = 3; terminal = two_programs ∷ [] }

child_kernel-CanHalt : CanHalt child_kernel 0 started_pcb two_programs
child_kernel-CanHalt = record {
  running = record { small = omega arith; stack = (omega arith, omega arith); block = refl };
  closed = not_opened;
  terminal_at = refl;
  not_last = refl;
  others = refl;
  directory = length-replicate {A = ℕ} 1024 0;
}
