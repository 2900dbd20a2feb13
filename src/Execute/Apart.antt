-- ===== src/Execute/Apart.antt =====
-- The memory of programs that `execute` of student-distrib/syscalls.c has started.
use apoll_os.Prelude.{
  ℕ, ◌+◌, ◌*◌, ◌/◌, ◌%◌, ◌≤◌, ◌<◌, ◌≡◌, refl, sym, ap, ◌∙◌, ◌≢◌, arith, true, false, ◌&&◌, some,
  List, [], ◌∷◌, ◌++◌, ◌==◌, length, take, u32,
}
use mathlib.Core.Path.{subst}
use apoll_os.Rofs.{Dentry, Inode, read_dentry_by_name}
use apoll_os.Paging.{Layout, Paging, remap}
use apoll_os.Paging.Translate.{Mapping, translate}
use apoll_os.Paging.Programs.{translate-remap}
use apoll_os.Kernel.{Kernel, Terminal, virtual_start, physical_start, four_mb_block}
use apoll_os.Process.{flag_set, get_new_pid}
use apoll_os.Execute.{entered, execute}
use apoll_os.Execute.Command.{IsWord, padded}
use apoll_os.Execute.Arguments.{Tail}
use apoll_os.Execute.Started.{IsProgram, HasRoom}
use apoll_os.Execute.Starting.{execute-Starts}

-- A command that starts a program: its first word names the program, and there is room for it.
pub record Launches (k : Kernel) (command : List ℕ) (eip : ℕ) : Type 0 where
  pub word : List ℕ
  pub tail : List ℕ
  pub arg : List ℕ
  pub t : Terminal
  pub d : Dentry
  pub node : Inode
  pub parts : command ≡ word ++ tail
  pub is_word : IsWord word
  pub short : length word < 128
  pub no_exit : take 4 word ≢ (101 ∷ 120 ∷ 105 ∷ 116 ∷ [])
  pub is_tail : Tail tail arg
  pub found : read_dentry_by_name k.fs (padded word) ≡ some (some d)
  pub program : IsProgram k.fs d node eip
  pub room : HasRoom k node.length t

-- An address in the program page of the process `pid`.
abbrev pub frame_address : ℕ → ℕ → ℕ
frame_address pid v = 0x800000 + pid * 0x400000 + v % 0x400000

-- The program has been entered, and the address is in the memory of the process.
abbrev Enters : (ℕ → ℕ) → Layout → Kernel → List ℕ → ℕ → ℕ → ℕ → Kernel → Type 0
Enters cmos l k command eip v pid k' =
    (execute cmos (some command) k ≡ some (entered eip k'))
    × (translate l k'.paging v ≡ some (record { physical = frame_address pid v; user = true }))

mapped-remap :
    (l : Layout) (p p' : Paging) (pid v : ℕ)
    → length p.page_dir ≡ 1024
    → pid < 6
    → v / 0x400000 ≡ 32
    → remap virtual_start (u32 (physical_start + pid * four_mb_block)) p ≡ some p'
    → translate l p' v ≡ some (record { physical = frame_address pid v; user = true })
mapped-remap l p p' pid v size small page run =
    let q : ℕ = 2 + pid in
    let (p1, run1, to) =
      translate-remap l p virtual_start q v size (omega arith) (omega (arith, page)) in
    let frame : u32 (physical_start + pid * four_mb_block) ≡ q * 4194304 = omega arith in
    let same : some p1 ≡ some p' = sym run1 ∙ ap (λ a. remap virtual_start a p) (sym frame) ∙ run in
    let here : (v / 4194304 == virtual_start / 4194304) ≡ true = ground (arith, page) in
    let address : q * 4194304 + v % 4194304 ≡ frame_address pid v = omega arith in
    subst (λ r. translate l r v ≡ some (record { physical = frame_address pid v; user = true }))
      (some-inj p1 p' same)
      (rw here at to ∙ ap (λ a. some (record { physical = a; user = true })) address)
  where
    some-inj : (a b : Paging) → some a ≡ some b → a ≡ b
    some-inj a b e = cc

launched :
    (cmos : ℕ → ℕ) (l : Layout) (k : Kernel) (command : List ℕ) (eip v : ℕ)
    → Launches k command eip
    → v / 0x400000 ≡ 32
    → (k' : Kernel) × Enters cmos l k command eip v (get_new_pid k.processes_flags).0 k'
      × (flag_set k.processes_flags (get_new_pid k.processes_flags).0 ≡ false)
launched cmos l k command eip v c page =
    let (pid, pcb, k', run, s) =
      execute-Starts cmos c.word c.tail c.arg k c.t c.d c.node eip c.is_word c.short c.no_exit
        c.is_tail c.found c.program c.room in
    let to =
      mapped-remap l k.paging k'.paging pid v c.room.directory s.fresh.in_range page s.memory in
    let same : pid ≡ (get_new_pid k.processes_flags).0 =
      ap (λ (r : ℕ × ℕ). r.0) (sym s.handed_out) in
    (
      k',
      subst (λ n. Enters cmos l k command eip v n k') same
          (ap (λ s. execute cmos (some s) k) c.parts ∙ run, to),
      subst (λ n. flag_set k.processes_flags n ≡ false) same s.fresh.was_free,
    )

-- For two commands, given to two kernels, where each names a program as its first word of less
-- than 128 characters, which does not start with `exit`, and its kernel has room for the process,
-- and where the pid that the first gets is still taken when the second is given: `execute` enters
-- both programs, the processor translates any address in the program page at 128 MB for the first
-- and any for the second to different physical addresses, neither of them is below 8 MB, and both
-- are open to user code.
pub execute-apart :
    (cmos : ℕ → ℕ) (l : Layout) (k1 k2 : Kernel) (c1 c2 : List ℕ) (eip1 eip2 v1 v2 : ℕ)
    → Launches k1 c1 eip1
    → Launches k2 c2 eip2
    → flag_set k2.processes_flags (get_new_pid k1.processes_flags).0 ≡ true
    → v1 / 0x400000 ≡ 32
    → v2 / 0x400000 ≡ 32
    → (k1' : Kernel) × (k2' : Kernel) × (a1 : Mapping) × (a2 : Mapping) × (execute cmos (some c1) k1
        ≡ some (entered eip1 k1'))
      × (execute cmos (some c2) k2 ≡ some (entered eip2 k2'))
      × (translate l k1'.paging v1 ≡ some a1)
      × (translate l k2'.paging v2 ≡ some a2)
      × (a1.physical ≢ a2.physical)
      × (0x800000 ≤ a1.physical)
      × (0x800000 ≤ a2.physical)
      × (a1.user && a2.user ≡ true)
execute-apart cmos l k1 k2 c1 c2 eip1 eip2 v1 v2 h1 h2 runs page1 page2 =
    let p1 : ℕ = (get_new_pid k1.processes_flags).0 in
    let p2 : ℕ = (get_new_pid k2.processes_flags).0 in
    let (k1', e1, free1) = launched cmos l k1 c1 eip1 v1 h1 page1 in
    let (k2', e2, free2) = launched cmos l k2 c2 eip2 v2 h2 page2 in
    let differ : p1 ≢ p2 =
      λ e. contradiction (sym runs ∙ ap (flag_set k2.processes_flags) e ∙ free2) in
    (
      k1',
      k2',
      record { physical = frame_address p1 v1; user = true },
      record { physical = frame_address p2 v2; user = true },
      e1.0,
      e2.0,
      e1.1,
      e2.1,
      apart p1 p2 v1 v2 differ,
      omega arith,
      omega arith,
      refl,
    )
  where
    contradiction : true ≡ false → ⊥
    contradiction e = cc

    apart : (p1 p2 v1 v2 : ℕ) → p1 ≢ p2 → frame_address p1 v1 ≢ frame_address p2 v2
    apart p1 p2 v1 v2 ne = λ e. ne (omega (arith, e))
