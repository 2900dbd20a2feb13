-- ===== src/Idt/Exceptions.antt =====
-- The status that the parent of a program sees, of `halt` in student-distrib/syscalls.c, and so what
-- an exception handler of student-distrib/idt.c can report.
use apoll_os.Prelude.{
  ℕ, ◌%◌, Bool, true, false, Option, none, some, List, if◌then◌else◌, ◌>>=◌, minus_one,
}
use apoll_os.Kernel.{Kernel, Pcb}
use apoll_os.Rofs.{Dentry}
use apoll_os.Execute.{
  Flow, returned, entered, resumed, halt, back_to_parent, shell_if, execute_shell, run_command,
  run_file, load_file, start_process, start_new, run_found,
}
use apoll_os.Idt.{Handler, exception}

-- If the flow goes back to the parent, then with the given status.
pub data Reports (r : ℕ) : Option Flow → Type 0 where
  fault : Reports r none
  back_in_kernel : (ret : ℕ) (k : Kernel) → Reports r (some (returned ret k))
  in_program : (eip : ℕ) (k : Kernel) → Reports r (some (entered eip k))
  in_parent : (k : Kernel) → Reports r (some (resumed r k))

Reports->>= {ℓ} :
    {A : Type ℓ} (r : ℕ) (m : Option A) (f : A → Option Flow)
    → ((a : A) → Reports r (f a))
    → Reports r (m >>= f)
Reports->>= r none f h = fault
Reports->>= r (some a) f h = h a

Reports-if :
    (r : ℕ) (b : Bool) (x y : Option Flow)
    → Reports r x
    → Reports r y
    → Reports r (if b then x else y)
Reports-if r true x y hx hy = hx
Reports-if r false x y hx hy = hy

start_process-Reports :
    (r : ℕ) (d : Dentry) (at : ℕ) (args : List ℕ) (pid : ℕ) (k : Kernel)
    → Reports r (start_process d at args pid k)
unfolding start_process
start_process-Reports r d at args pid k = search (Reports->>=, in_program) depth 12 fits 3000

Reports-loaded :
    (r : ℕ) (d : Dentry) (at : ℕ) (args : List ℕ) (new : Option ℕ) (k : Kernel)
    → Reports r (start_new d at args new k)
Reports-loaded r d at args none k = back_in_kernel minus_one k
Reports-loaded r d at args (some pid) k = start_process-Reports r d at args pid k

load_file-Reports :
    (r : ℕ) (d : Dentry) (after buffer : List ℕ) (k : Kernel)
    → Reports r (load_file d after buffer k)
unfolding load_file
load_file-Reports r d after buffer k = search (Reports->>=, Reports-loaded) depth 12 fits 3000

run_file-Reports :
    (r : ℕ) (d : Dentry) (after : List ℕ) (k : Kernel) → Reports r (run_file d after k)
unfolding run_file
run_file-Reports r d after k =
    search (Reports->>=, Reports-if, back_in_kernel, load_file-Reports) depth 12 fits 3000

Reports-found :
    (r : ℕ) (after : List ℕ) (o : Option Dentry) (k : Kernel) → Reports r (run_found o after k)
Reports-found r after none k = back_in_kernel minus_one k
Reports-found r after (some d) k = run_file-Reports r d after k

execute_shell-Reports : (r : ℕ) (k : Kernel) → Reports r (execute_shell k)
unfolding execute_shell run_command
execute_shell-Reports r k = search (Reports->>=, Reports-found) depth 12 fits 3000

back_to_parent-Reports :
    (cmos : ℕ → ℕ) (r : ℕ) (pcb : Pcb) (k : Kernel) → Reports r (back_to_parent cmos r pcb k)
unfolding back_to_parent
back_to_parent-Reports cmos r pcb k = search (Reports->>=, in_parent)

Reports-shell :
    (cmos : ℕ → ℕ) (r : ℕ) (b : Bool) (k : Kernel) (rest : Kernel → Option Flow)
    → ((k' : Kernel) → Reports r (rest k'))
    → Reports r (shell_if cmos b k rest)
Reports-shell cmos r false k rest h = h k
Reports-shell cmos r true k rest h = go (execute_shell k) (execute_shell-Reports r k)
  where
    go :
        (o : Option Flow)
        → Reports r o
        → Reports r (
            o >>= λ flow. elim flow [
              | returned ret k' ↦ rest k'
              | entered eip k' ↦ some (entered eip k')
              | resumed status k' ↦ some (resumed status k')
            ])
    go _ fault = fault
    go _ (back_in_kernel ret k') = h k'
    go _ (in_program eip k') = in_program eip k'
    go _ (in_parent k') = in_parent k'

-- If `halt` goes back to a parent, then the status that the parent sees is the argument modulo
-- 256; otherwise it stays in the kernel, enters a new shell, or faults.
pub halt-Reports :
    (cmos : ℕ → ℕ) (status : ℕ) (k : Kernel) → Reports (status % 256) (halt cmos status k)
unfolding halt
halt-Reports cmos status k =
    search (Reports->>=, Reports-shell, back_to_parent-Reports) depth 14 fits 3000

-- The parent of a program that an exception ends sees the status 255.
pub exception-Reports : (cmos : ℕ → ℕ) (h : Handler) (k : Kernel) → Reports 255 (exception cmos h k)
unfolding exception
exception-Reports cmos h k = search (Reports->>=, halt-Reports cmos 0xff)
