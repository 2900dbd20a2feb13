-- ===== src/Process.antt =====
-- Process control blocks: `get_new_pid`, `create_pcb`, `get_pcb`, `get_current_pcb` and
-- `can_execute` of student-distrib/syscalls.c.
pub mod Blocks
pub mod Pids
pub mod Stacks
use apoll_os.Prelude.{
  ℕ, zero, suc, ◌+◌, ◌-◌, ◌*◌, ◌%◌, ◌^◌, bit_and, bit_or, Bool, Option, none, some, List, [], ◌∷◌,
  ◌==◌, ◌!=◌, if◌then◌else◌, get_elem?, set, replicate, ◌>>=◌, u8, u32, sub32, minus_one, neg32,
  slt,
}
use apoll_os.FileOps.{File, stdin_ops, stdout_ops, fail_ops}
use apoll_os.Kernel.{Kernel, Pcb, Terminal, max_processes, physical_start, eight_kb_block}

abbrev pub file_open_flag : ℕ
file_open_flag = 1

-- `processes_flags & (1 << i)`.
abbrev pub flag_set : ℕ → ℕ → Bool
flag_set flags i = bit_and flags (2 ^ i) != 0

-- The loop of `get_new_pid` at `i`, with the rounds that are left.
new_pid_loop : ℕ → ℕ → ℕ → ℕ × ℕ
new_pid_loop zero i flags = (minus_one, flags)
new_pid_loop (suc k) i flags =
    let next = new_pid_loop k (i + 1) flags in
    if flag_set flags i then next else (i, u8 (bit_or flags (2 ^ i)))

-- The pid or -1, and the new flags.
unfoldable pub get_new_pid : ℕ → ℕ × ℕ
unfolding new_pid_loop
get_new_pid flags = new_pid_loop max_processes 0 flags

-- The address of a process's control block: the low end of its 8 KB stack.
unfoldable pub get_pcb : ℕ → ℕ
get_pcb pid = (physical_start + 2 ^ 32 - u32 (eight_kb_block * u32 (pid + 1))) % 2 ^ 32

-- The address of the control block under the stack pointer.
unfoldable pub get_current_pcb : ℕ → ℕ
get_current_pcb esp = bit_and esp 0x00ffe000

-- Which of the control blocks from `i` on stands at an address.
pcb_index : ℕ → ℕ → ℕ → Option ℕ
pcb_index zero i addr = none
pcb_index (suc k) i addr =
    let next = pcb_index k (i + 1) addr in if get_pcb i == addr then some i else next

-- The running process; a stack pointer outside the process stacks is a fault.
unfoldable pub current_pid : Kernel → Option ℕ
unfolding pcb_index
current_pid k = pcb_index max_processes 0 (get_current_pcb k.esp)

unfoldable pub total_processes : List Terminal → ℕ → ℕ
total_processes [] total = total
total_processes (t ∷ ts) total = total_processes ts (u32 (total + t.num_processes))

unfoldable pub can_execute : Kernel → Bool
can_execute k = slt (total_processes k.terminal 0) max_processes

-- The loop of `create_pcb` over the files from 2 on.
closed_files : List File → List File
closed_files [] = []
closed_files (f ∷ fs) =
    record { inode = 0; flags = 0; pos = 0; fileops = fail_ops } ∷ closed_files fs

create_files : List File → Option (List File)
create_files (a ∷ (b ∷ rest)) = some (
    record a { fileops = stdin_ops; flags = file_open_flag; pos = 0 }
    ∷ record b { fileops = stdout_ops; flags = file_open_flag; pos = 0 }
    ∷ closed_files rest)
create_files _ = none

-- The index of the current terminal.
abbrev pub term_index : Kernel → ℕ
term_index k = sub32 k.term_cur 1

-- `some none` is the null pointer; otherwise the pid of the new control block.
unfoldable pub create_pcb : Kernel → Option (Option ℕ × Kernel)
unfolding create_files closed_files
create_pcb k =
    let (pid, flags) = get_new_pid k.processes_flags in
    if neg32 pid then some (none, k) else (do
      old ← get_elem? k.pcbs pid
      t ← get_elem? k.terminal (term_index k)
      files ← create_files old.files
      let parent = if t.num_processes == 0 then pid else t.term_pid
      let pcb = record old { pid = pid; parent_pid = parent; files = files; args = replicate 128 0 }
      some (some pid, record k { processes_flags = flags; pcbs = set k.pcbs pid pcb }))
