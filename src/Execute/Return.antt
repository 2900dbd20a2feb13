-- ===== src/Execute/Return.antt =====
-- A process of student-distrib/ from `execute` to `halt`: its parent goes on as before.
use apoll_os.Prelude.{
  ℕ, ◌+◌, ◌-◌, ◌*◌, ◌%◌, ◌^◌, ◌≤◌, ◌<◌, bit_and, bit_or, ◌≡◌, ◌≢◌, Bool, false, ◌||◌, some, List,
  ◌==◌, length, get_elem?, u32,
}
use apoll_os.FileOps.{File}
use apoll_os.Paging.{Paging}
use apoll_os.Kernel.{Kernel, Pcb, Terminal, physical_start, four_mb_block}
use apoll_os.Process.{term_index, get_new_pid}
use apoll_os.Process.Pids.{AllTaken}
use apoll_os.Process.Stacks.{InStack}
use apoll_os.Syscalls.{is_open}
use apoll_os.Execute.Started.{Started}

-- The kernel in a system call of the process `pid`, some time after it was started as `k`: the process
-- has used its own files, its terminal's keys and the screen, and has its files closed again.
pub record InCall (k : Kernel) (pid : ℕ) (pcb : Pcb) (k' : Kernel) : Type 0 where
  pub stack : InStack pid k'.esp
  pub files : List File
  pub block : get_elem? k'.pcbs pid ≡ some (record pcb { files = files })
  pub closed :
      (fd : ℕ) → 2 ≤ fd → fd < 8 → (f : File) × (get_elem? files fd ≡ some f) × (is_open f ≡ false)
  pub before : Terminal
  pub before_at : get_elem? k.terminal (term_index k) ≡ some before
  pub term : Terminal
  pub term_at : get_elem? k'.terminal (term_index k') ≡ some term
  pub same_count : term.num_processes ≡ before.num_processes
  pub same_current : k'.term_cur ≡ k.term_cur
  pub same_flags : k'.processes_flags ≡ k.processes_flags
  pub same_paging : k'.paging ≡ k.paging

pid_row : ℕ → Bool
pid_row f = (f % 64 == 63) || (bit_and (get_new_pid f).1 (255 - 2 ^ (get_new_pid f).0) == f)

-- The page directory's entry of a program's memory.
abbrev pub entry_of : ℕ → ℕ
entry_of pid = bit_or (u32 (physical_start + pid * four_mb_block)) 0x87

-- The parent of the process, that the terminal ran before, is back where it called `execute`.
pub record Back (k : Kernel) (t : Terminal) (k' : Kernel) : Type 0 where
  pub stack : k'.esp ≡ k.esp
  pub frame : k'.ebp ≡ k.ebp
  pub kernel_stack : k'.tss_esp0 ≡ k.esp
  pub flags : k'.processes_flags ≡ k.processes_flags
  pub term : Terminal
  pub term_at : get_elem? k'.terminal (term_index k) ≡ some term
  pub count : term.num_processes ≡ t.num_processes
  pub runs : term.term_pid ≡ t.term_pid
  pub memory : k'.paging.page_dir ≡ k.paging.page_dir

module _ (cmos : ℕ → ℕ) (status : ℕ) (k k1 k2 : Kernel) (t : Terminal) (program arg : List ℕ)
    (pid : ℕ) (pcb : Pcb) (s : Started k t program arg pid pcb k1) (c : InCall k1 pid pcb k2)
    (byte : k.processes_flags < 256) (free : ¬ AllTaken k.processes_flags)
    (some_process : k.processes_flags ≢ 0)
    (count : (0 < t.num_processes) × (t.num_processes < 2 ^ 31)) (parent : t.term_pid < 256)
    (directory : length k.paging.page_dir ≡ 1024)
    (mapped : get_elem? k.paging.page_dir 32 ≡ some (entry_of t.term_pid)) where
  abbrev block : Pcb
  block = record pcb { files = c.files }
