-- ===== src/Execute/Halting.antt =====
-- `halt` of student-distrib/syscalls.c where other processes are left: the way back to the parent.
use apoll_os.Prelude.{
  ℕ, zero, suc, ◌+◌, ◌-◌, ◌*◌, ◌%◌, ◌^◌, ◌≤◌, ◌<◌, bit_and, bit_or, ◌≡◌, refl, arith, false, some,
  ◌==◌, length, get_elem?, set, length-set, lt_of_get_elem?, get_elem?-set_self, store-set, store,
  u8, u32, sub32,
}
use apoll_os.FileOps.{File}
use apoll_os.Paging.{remap, refresh_tbl}
use apoll_os.Kernel.{
  Kernel, Pcb, Terminal, cli, kernel_ds, virtual_start, physical_start, four_mb_block,
}
use apoll_os.Process.{term_index, current_pid}
use apoll_os.Process.Stacks.{current_pid-InStack}
use apoll_os.Syscalls.{is_open}
use apoll_os.Syscalls.Files.{IsRunning}
use apoll_os.Execute.{resumed, halt, close_loop, back_to_parent}

-- The running process has closed its files, and another process is left, in the current terminal.
pub record CanHalt (k : Kernel) (pid : ℕ) (pcb : Pcb) (t : Terminal) : Type 0 where
  pub running : IsRunning k pid pcb
  pub closed :
      (fd : ℕ)
      → 2 ≤ fd
      → fd < 8
      → (f : File) × (get_elem? pcb.files fd ≡ some f) × (is_open f ≡ false)
  pub terminal_at : get_elem? k.terminal (term_index k) ≡ some t
  pub not_last : (sub32 t.num_processes 1 == 0) ≡ false
  pub others : (bit_and k.processes_flags (255 - 2 ^ pcb.pid) == 0) ≡ false
  pub directory : length k.paging.page_dir ≡ 1024

-- The parent's stack is back, with its page of memory; the pid is free, and the terminal has one
-- process less and runs the parent.
pub record Returned (k : Kernel) (pcb : Pcb) (t : Terminal) (k' : Kernel) : Type 0 where
  pub stack : k'.esp ≡ pcb.parent_esp
  pub frame : k'.ebp ≡ pcb.parent_ebp
  pub kernel_stack : k'.tss_esp0 ≡ pcb.parent_esp
  pub flags : k'.processes_flags ≡ bit_and k.processes_flags (255 - 2 ^ pcb.pid)
  pub term :
      get_elem? k'.terminal (term_index k)
      ≡ some (record t { num_processes = sub32 t.num_processes 1; term_pid = u8 pcb.parent_pid })
  pub memory :
      remap virtual_start (u32 (physical_start + pcb.parent_pid * four_mb_block)) k.paging
      ≡ some k'.paging

module _ (cmos : ℕ → ℕ) (k : Kernel) (pid : ℕ) (pcb : Pcb) where
  close_loop-closed :
      (n i : ℕ)
      → IsRunning k pid pcb
      → ((fd : ℕ)
          → 2 ≤ fd
          → fd < 8
          → (f : File) × (get_elem? pcb.files fd ≡ some f) × (is_open f ≡ false))
      → 2 ≤ i
      → i + n ≤ 8
      → close_loop cmos n i k ≡ some k
  unfolding close_loop
  close_loop-closed zero i r closed lo hi = refl
  close_loop-closed (suc n) i r closed lo hi =
      let (f, here, shut) = closed i lo (omega arith) in
      rw (
        current_pid-InStack k pid r.small r.stack,
        r.block,
        here,
        shut,
        close_loop-closed n (i + 1) r closed (omega arith) (omega arith),
      )

-- For a process that runs on its own stack with its files closed, where its terminal and the table
-- of processes have another process left and the page directory is whole, `halt` goes back to the
-- parent with its argument modulo 256: onto the parent's stack and frame, which are also those for
-- the next system call, with the parent's page of memory mapped; the pid is free, and the terminal
-- has one process less and runs the parent.
pub halt-CanHalt :
    (cmos : ℕ → ℕ) (status : ℕ) (k : Kernel) (pid : ℕ) (pcb : Pcb) (t : Terminal)
    → CanHalt k pid pcb t
    → (k' : Kernel) × (halt cmos status k ≡ some (resumed (status % 256) k')) × Returned k pcb t k'
unfolding halt back_to_parent remap refresh_tbl current_pid
halt-CanHalt cmos status k pid pcb t h =
    let off = cli k in
    let running : IsRunning off pid pcb = record {
      small = h.running.small;
      stack = h.running.stack;
      block = h.running.block;
    } in
    let i = term_index k in
    let room : i < length k.terminal = lt_of_get_elem? k.terminal i t h.terminal_at in
    let one_less = record t { num_processes = sub32 t.num_processes 1 } in
    let terms = set k.terminal i one_less in
    let at : get_elem? terms i ≡ some one_less = get_elem?-set_self k.terminal i one_less room in
    let entry = bit_or (u32 (physical_start + pcb.parent_pid * four_mb_block)) 0x87 in
    let mapped : store k.paging.page_dir 32 entry ≡ some (set k.paging.page_dir 32 entry) =
      store-set k.paging.page_dir 32 entry (omega (arith, h.directory)) in
    let parent = record one_less { term_pid = u8 pcb.parent_pid } in
    (
      record k {
        interrupts = false;
        terminal = set terms i parent;
        processes_flags = bit_and k.processes_flags (255 - 2 ^ pcb.pid);
        paging = refresh_tbl (record k.paging { page_dir = set k.paging.page_dir 32 entry });
        tss_esp0 = pcb.parent_esp;
        tss_ss0 = kernel_ds;
        esp = pcb.parent_esp;
        ebp = pcb.parent_ebp;
      },
      rw (
        current_pid-InStack off pid h.running.small h.running.stack,
        h.running.block,
        close_loop-closed cmos off pid pcb 6 2 running h.closed (omega arith) (omega arith),
        h.terminal_at,
        at,
        h.not_last,
        h.others,
        at,
        mapped,
      ),
      record {
        stack = refl;
        frame = refl;
        kernel_stack = refl;
        flags = refl;
        term =
            get_elem?-set_self terms i parent
              (omega (arith, room, length-set k.terminal i one_less));
        memory = rw mapped;
      },
    )
