-- ===== src/Execute.antt =====
-- `execute` and `halt` of student-distrib/syscalls.c. Both can leave the kernel other than by a
-- return: `execute` enters user code by `iret`, and `halt` jumps to HALT_RET_LABEL on the parent's
-- stack, behind the call of `execute` that started the process.
pub mod Command
pub mod Arguments
pub mod Refusal
pub mod Started
pub mod Loading
pub mod Starting
pub mod Halting
pub mod Return
pub mod Apart
use apoll_os.Prelude.{
  ℕ, zero, suc, ◌+◌, ◌-◌, ◌*◌, ◌^◌, bit_and, Bool, true, false, not, ◌&&◌, ◌||◌, Option, none, some,
  List, [], ◌∷◌, ◌==◌, if◌then◌else◌, get_elem?, set, replicate, store, ◌>>=◌, u8, u32, sub32,
  minus_one, c_string,
}
use apoll_os.CString.{strncmp, strncpy}
use apoll_os.Rofs.{Dentry, read_dentry_by_name, read_data}
use apoll_os.Rtc.{word_of}
use apoll_os.Paging.{remap}
use apoll_os.Printf.{printf}
use apoll_os.Kernel.{
  Kernel, Terminal, Pcb, cli, sti, kernel_ds, physical_start, virtual_start, four_mb_block,
  eight_kb_block, magic_size,
}
use apoll_os.Process.{can_execute, create_pcb, current_pid, term_index}
use apoll_os.Syscalls.{call_close, is_open}

pub data Flow : Type 0 where
  returned : ℕ → Kernel → Flow
  entered : ℕ → Kernel → Flow
  resumed : ℕ → Kernel → Flow

abbrev pub command_size : ℕ
command_size = 128

-- The first loop: the command up to a blank, a NUL or a newline. The result is the index, the
-- buffer and what the command goes on with.
unfoldable pub command_loop : List ℕ → ℕ → List ℕ → Option (ℕ × List ℕ × List ℕ)
command_loop [] i buf = none
command_loop (c ∷ rest) i buf =
    let next = (do buf' ← store buf i c; command_loop rest (u8 (i + 1)) buf') in
    if c == b' ' || (c == 0 || c == 10) then some (i, buf, c ∷ rest) else next

-- The second loop: the arguments up to a NUL or a newline.
unfoldable pub args_loop : List ℕ → ℕ → List ℕ → Option (ℕ × List ℕ)
args_loop [] i buf = none
args_loop (c ∷ rest) i buf =
    let next = (do buf' ← store buf i c; args_loop rest (u8 (i + 1)) buf') in
    if c == 0 || c == 10 then some (i, buf) else next

-- `arg_buf`, from what the command goes on with.
unfoldable pub arguments : List ℕ → Option (List ℕ)
arguments [] = none
arguments (c ∷ rest) =
    if c == b' '
    then (do (i, buf) ← args_loop rest 0 (replicate command_size 0); store buf i 0)
    else some (replicate command_size 0)

abbrev pub has_magic : List ℕ → Option Bool
has_magic buffer = do
  a ← get_elem? buffer 0
  b ← get_elem? buffer 1
  c ← get_elem? buffer 2
  d ← get_elem? buffer 3
  some (a == 0x7f && (b == 0x45 && (c == 0x4c && d == 0x46)))

abbrev too_many : List ℕ
too_many = c_string "Maximum number of processes reached\n"

abbrev pub update_terminal : (Terminal → Terminal) → Kernel → Option Kernel
update_terminal f k = do
  t ← get_elem? k.terminal (term_index k)
  some (record k { terminal = set k.terminal (term_index k) (f t) })

abbrev pub stack_top : ℕ → ℕ
stack_top pid = u32 (physical_start + 2 ^ 32 - u32 (pid * eight_kb_block) - magic_size)

-- The new process: its count, its address space, its code and its arguments.
unfoldable pub start_process : Dentry → ℕ → List ℕ → ℕ → Kernel → Option Flow
start_process dentry com_start arg_buf pid k = do
  k1 ←
      update_terminal
        (λ t. record t { num_processes = u32 (t.num_processes + 1); term_pid = u8 pid }) k
  paging ← remap virtual_start (u32 (physical_start + pid * four_mb_block)) k1.paging
  image ← get_elem? k1.images pid
  (_, image') ← read_data k1.fs dentry.inode_num 0 image four_mb_block
  pcb ← get_elem? k1.pcbs pid
  args ← strncpy pcb.args arg_buf 128
  some (
      entered com_start (record k1 {
        paging = paging;
        images = set k1.images pid image';
        tss_ss0 = kernel_ds;
        tss_esp0 = stack_top pid;
        pcbs =
            set k1.pcbs pid (record pcb { parent_ebp = k1.ebp; parent_esp = k1.esp; args = args });
        interrupts = true;
      }))

-- The arguments, the entry point at byte 24, and the new control block.
-- `execute` behind `create_pcb`, which has no block left to give at `none`.
abbrev pub start_new : Dentry → ℕ → List ℕ → Option ℕ → Kernel → Option Flow
start_new dentry com_start arg_buf none k = some (returned minus_one k)
start_new dentry com_start arg_buf (some pid) k = start_process dentry com_start arg_buf pid k

unfoldable pub load_file : Dentry → List ℕ → List ℕ → Kernel → Option Flow
load_file dentry after buffer k = do
  arg_buf ← arguments after
  (_, first) ← read_data k.fs dentry.inode_num 24 buffer magic_size
  com_start ← word_of first
  (new, k') ← create_pcb k
  start_new dentry com_start arg_buf new k'

-- What `execute` does with a file that was found; `after` is what the command goes on with.
unfoldable pub run_file : Dentry → List ℕ → Kernel → Option Flow
run_file dentry after k = do
  (_, buffer) ← read_data k.fs dentry.inode_num 0 (replicate magic_size 0) magic_size
  magic ← has_magic buffer
  if not magic
      then some (returned minus_one k)
      else if not (can_execute k)
      then (do
        (_, screen) ← printf too_many [] k.screen
        some (returned 0 (record k { screen = screen })))
      else load_file dentry after buffer k

-- `execute` with what the name stands for.
abbrev pub run_found : Option Dentry → List ℕ → Kernel → Option Flow
run_found none after k = some (returned minus_one k)
run_found (some dentry) after k = run_file dentry after k

unfoldable pub run_command : List ℕ → List ℕ → Kernel → Option Flow
run_command com_buf after k = do found ← read_dentry_by_name k.fs com_buf; run_found found after k

abbrev pub exit_text : List ℕ
exit_text = c_string "exit"

abbrev pub shell_text : List ℕ
shell_text = c_string "shell"

-- `execute("shell")`, as `halt` and `terminal_start` call it: the command is not "exit".
unfoldable pub execute_shell : Kernel → Option Flow
execute_shell k = do
  (i, com_buf, after) ← command_loop shell_text 0 (replicate command_size 0)
  com_buf' ← store com_buf i 0
  run_command com_buf' after (cli k)

module _ (cmos : ℕ → ℕ) where
  -- The loop of `halt` over the files, with the rounds that are left.
  unfoldable pub close_loop : ℕ → ℕ → Kernel → Option Kernel
  close_loop zero i k = some k
  close_loop (suc n) i k = do
    pid ← current_pid k
    pcb ← get_elem? k.pcbs pid
    file ← get_elem? pcb.files i
    if is_open file
        then (do (_, k') ← call_close cmos file.fileops.close_fn i k; close_loop n (i + 1) k')
        else close_loop n (i + 1) k

  -- The end of `halt`: back to the parent.
  unfoldable pub back_to_parent : ℕ → Pcb → Kernel → Option Flow
  back_to_parent status pcb k = do
    k1 ← update_terminal (λ t. record t { term_pid = u8 pcb.parent_pid }) k
    paging ← remap virtual_start (u32 (physical_start + pcb.parent_pid * four_mb_block)) k1.paging
    some (
        resumed status (record k1 {
          paging = paging;
          tss_esp0 = pcb.parent_esp;
          tss_ss0 = kernel_ds;
          esp = pcb.parent_esp;
          ebp = pcb.parent_ebp;
        }))

  -- Start a shell under a condition, and go on if `execute` returns.
  abbrev pub shell_if : Bool → Kernel → (Kernel → Option Flow) → Option Flow
  shell_if false k rest = rest k
  shell_if true k rest = do
    flow ← execute_shell k
    elim flow [
      | returned ret k' ↦ rest k'
      | entered eip k' ↦ some (entered eip k')
      | resumed status k' ↦ some (resumed status k')
    ]

  -- `status` is a uint8_t.
  unfoldable pub halt : ℕ → Kernel → Option Flow
  halt status k = do
    pid ← current_pid k
    pcb ← get_elem? k.pcbs pid
    k1 ← close_loop 6 2 (cli k)
    k2 ← update_terminal (λ t. record t { num_processes = sub32 t.num_processes 1 }) k1
    let k3 = record k2 { processes_flags = bit_and k2.processes_flags (255 - 2 ^ pcb.pid) }
    t ← get_elem? k3.terminal (term_index k3)
    shell_if (t.num_processes == 0) k3
        λ k4. shell_if (k4.processes_flags == 0) k4 (back_to_parent (u8 status) pcb)

  -- A null command is `none`.
  pub execute : Option (List ℕ) → Kernel → Option Flow
  execute none k = some (returned minus_one (sti k))
  execute (some command) k = do
    (i, com_buf, after) ← command_loop command 0 (replicate command_size 0)
    com_buf' ← store com_buf i 0
    r ← strncmp com_buf' exit_text 4
    if r == 0
        then (do
          flow ← halt 0 (cli k)
          elim flow [
            | returned ret k' ↦ some (returned 0 k')
            | entered eip k' ↦ some (entered eip k')
            | resumed status k' ↦ some (resumed status k')
          ])
        else run_command com_buf' after (cli k)
