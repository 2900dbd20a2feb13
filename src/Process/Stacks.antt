-- ===== src/Process/Stacks.antt =====
-- Which control block `get_current_pcb` of student-distrib/syscalls.c finds under a stack pointer.
use apoll_os.Prelude.{
  ℕ, zero, suc, ◌+◌, ◌-◌, ◌*◌, ◌/◌, ◌≤◌, ◌<◌, bit_and, ◌≡◌, refl, ◌≢◌, inl, inr, arith, Bool, true,
  false, some, ◌==◌, Bool-cases, ==_iff, all_below, all_below_sound,
}
use apoll_os.Kernel.{Kernel}
use apoll_os.Process.{get_pcb, get_current_pcb, current_pid, pcb_index}

-- The stack pointer stands in the 8 KB stack of the process, above its control block.
abbrev pub InStack : ℕ → ℕ → Type 0
InStack pid esp = (0x800000 ≤ esp + 0x2000 * (pid + 1)) × (esp + 0x2000 * pid < 0x800000)

-- The six stacks take up the last 48 KB below 8 MB.
stack_mask : ℕ → Bool
stack_mask j = bit_and (8339456 + j) 0x00ffe000 == (8339456 + j) / 8192 * 8192

mask_table : all_below 49152 stack_mask ≡ true
unfolding all_below stack_mask
mask_table = refl

get_pcb_lem : (pid : ℕ) → pid < 6 → get_pcb pid + 8192 * (pid + 1) ≡ 0x800000
unfolding get_pcb
get_pcb_lem pid h = omega arith

-- Wherever a stack pointer stands in the 8 KB block that holds the kernel stack and the control
-- block of one of the six processes, masking it gives the address of that process's control block.
pub get_current_pcb-InStack :
    (pid esp : ℕ) → pid < 6 → InStack pid esp → get_current_pcb esp ≡ get_pcb pid
unfolding get_current_pcb stack_mask
get_current_pcb-InStack pid esp h (lo, hi) =
    let j : ℕ = esp - 8339456 in
    let e : 8339456 + j ≡ esp = omega arith in
    let masked = (==_iff _ _).0 (all_below_sound 49152 stack_mask j mask_table (omega arith)) in
    let at : bit_and esp 0x00ffe000 ≡ esp / 8192 * 8192 = rw e at masked in
    omega (arith, at, get_pcb_lem pid h)

pcb_index-get_pcb :
    (k i pid : ℕ) → i ≤ pid → pid < i + k → i + k ≤ 6 → pcb_index k i (get_pcb pid) ≡ some pid
unfolding pcb_index
pcb_index-get_pcb zero i pid lo hi b = absurd (omega arith)
pcb_index-get_pcb (suc k) i pid lo hi b = elim (Bool-cases (i == pid)) [
  | inl same ↦
      let e : i ≡ pid = ground arith in
      let eq : (get_pcb i == get_pcb pid) ≡ true =
        rw e ((==_iff (get_pcb pid) (get_pcb pid)).1 refl) in
      rw (eq, e)
  | inr differs ↦
      let apart : get_pcb i ≢ get_pcb pid =
        ground (arith, get_pcb_lem i (omega arith), get_pcb_lem pid (omega arith)) in
      let ne : (get_pcb i == get_pcb pid) ≡ false = ground arith in
      rw ne (pcb_index-get_pcb k (i + 1) pid (ground arith) (omega arith) (omega arith))
]

-- While the stack pointer stands in the 8 KB block that holds the kernel stack and the control
-- block of one of the six processes, `get_current_pcb` finds the control block of that process, so
-- that it is the running one.
pub current_pid-InStack :
    (k : Kernel) (pid : ℕ) → pid < 6 → InStack pid k.esp → current_pid k ≡ some pid
unfolding current_pid
current_pid-InStack k pid h s =
    rw (get_current_pcb-InStack pid k.esp h s)
      (pcb_index-get_pcb 6 0 pid (omega arith) (omega arith) (omega arith))
