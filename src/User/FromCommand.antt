-- ===== src/User/FromCommand.antt =====
-- A program from the command that starts it: `execute` of student-distrib/syscalls.c, and then `cat`
-- of syscalls/ece391cat.c on the process that `execute` has made.
use apoll_os.Prelude.{
  ℕ, ◌+◌, ◌-◌, ◌/◌, ◌<◌, bit_and, ◌≡◌, sym, ap, ◌∙◌, ◌≢◌, arith, true, false, Option, some, List,
  [], ◌∷◌, ◌++◌, map, ◌!=◌, length, get_elem?, take, drop, replicate, length-append,
  length-replicate,
}
use mathlib.Core.Path.{subst}
use apoll_os.CString.Compare.{NoNul}
use apoll_os.FileOps.{File}
use apoll_os.Rofs.{Fs, Dentry, Inode, read_dentry_by_name, visible}
use apoll_os.Rofs.Contents.{IsFile, contents}
use apoll_os.Screen.{Screen}
use apoll_os.Screen.Bounds.{IsOnScreen}
use apoll_os.Kernel.{Kernel, Pcb, Terminal, cli}
use apoll_os.Process.Stacks.{InStack}
use apoll_os.Syscalls.{is_open}
use apoll_os.Syscalls.Files.{IsRunning}
use apoll_os.Execute.{Flow, entered, execute}
use apoll_os.Execute.Command.{IsWord, padded}
use apoll_os.Execute.Arguments.{Tail, NoNul-Tail}
use apoll_os.Execute.Started.{IsProgram, HasRoom, Started}
use apoll_os.Execute.Starting.{execute-Starts}
use apoll_os.User.Programs.{cat}
use apoll_os.User.OnKernel.{kernel_calls}
use apoll_os.User.CatOnKernel.{IsReady, Finds, Prints, cat-contents}

open_of_flag : (f : File) → f.flags ≡ 1 → is_open f ≡ true
open_of_flag f h = ap (λ n. bit_and n 1 != 0) h

shut_of_flag : (f : File) → f.flags ≡ 0 → is_open f ≡ false
shut_of_flag f h = ap (λ n. bit_and n 1 != 0) h

on_screen-same : (s s' : Screen) → s' ≡ s → IsOnScreen s → IsOnScreen s'
on_screen-same s s' e on = subst IsOnScreen (sym e) on

module _ (k : Kernel) (t : Terminal) (program arg : List ℕ) (pid : ℕ) (pcb : Pcb) (k' : Kernel)
    (s : Started k t program arg pid pcb k') (on : IsOnScreen k.screen) (esp : ℕ)
    (here : InStack pid esp) where
  -- The kernel in a system call of the new process.
  abbrev in_call : Kernel
  in_call = record k' { esp = esp }

  in_call-IsRunning : IsRunning in_call pid pcb
  in_call-IsRunning = record { small = s.fresh.in_range; stack = here; block = s.block }

  -- The process has what `cat` asks for, if it has an argument.
  in_call-IsReady : NoNul arg → length arg < 128 → 0 < length arg → IsReady in_call pid pcb arg
  in_call-IsReady plain short some_arg =
      let f = s.files in
      let (free_file, free_at, shut) = f.others 2 (omega arith) (omega arith) in
      let zeros = replicate {A = ℕ} (127 - length arg) 0 in
      record {
        running = in_call-IsRunning;
        rest = zeros;
        args = s.args;
        args_size =
            ap length s.args
            ∙ omega (
              arith,
              length-append arg (0 ∷ zeros),
              length-replicate {A = ℕ} (127 - length arg) 0,
            );
        plain = plain;
        some_arg = some_arg;
        size = f.size;
        flags = f.flags;
        output = f.output;
        output_at = f.output_at;
        output_open = open_of_flag f.output f.output_flag;
        output_table = f.output_table;
        free = 2;
        free_file = free_file;
        free_range = (omega arith, omega arith);
        free_at = free_at;
        closed = shut_of_flag free_file shut;
        on = on_screen-same k.screen k'.screen s.same_screen on;
      }

-- The lookup of a file goes by the file system alone.
Finds-same :
    (k k' : Kernel) (name : List ℕ) (node : Inode)
    → k'.fs ≡ k.fs
    → Finds k name node
    → Finds k' name node
Finds-same k k' name node e f = record {
  entry = f.entry;
  found = subst (λ fs. read_dentry_by_name fs name ≡ some (some f.entry)) (sym e) f.found;
  regular = f.regular;
  inode_in = subst (λ (fs : Fs). f.entry.inode_num < fs.boot_block.num_inodes) (sym e) f.inode_in;
  inode_at =
      subst (λ (fs : Fs). get_elem? fs.inodes f.entry.inode_num ≡ some node) (sym e) f.inode_at;
  valid = subst (λ fs. IsFile fs node) (sym e) f.valid;
  fits = f.fits;
}

-- The processor enters a system call with the stack of the task state segment, and the handlers
-- have used some of it.
abbrev pub called : ℕ → Kernel → Kernel
called used k = record k { esp = k.tss_esp0 - used }

-- For a command that is a first word of less than 128 characters which does not start with `exit`,
-- a blank, and a nonempty argument text of less than 128 characters up to a NUL or a newline,
-- where the word names a program of the file system, the kernel has room for a process of its size
-- and the cursor is on the screen, `execute` enters the program at its first instruction with the
-- screen as it was; and if the program is `cat`, called with less than 8000 bytes in use of the
-- kernel stack that the task state segment names, and its argument, as its buffer of 1024 bytes
-- completes it, finds a regular, well-formed file of less than 2 ^ 31 bytes, it ends with status 0
-- within one round for each 1024 bytes and one more, and the screen is what putting the visible
-- form of the file's bytes makes of it.
pub execute-cat :
    (cmos : ℕ → ℕ) (run : Flow → Option (ℕ × Kernel)) (fuel : ℕ) (word tail arg stack : List ℕ)
    (k : Kernel) (t : Terminal) (d : Dentry) (node file : Inode) (eip used : ℕ)
    → IsWord word
    → length word < 128
    → take 4 word ≢ (101 ∷ 120 ∷ 105 ∷ 116 ∷ [])
    → Tail tail arg
    → 0 < length arg
    → read_dentry_by_name k.fs (padded word) ≡ some (some d)
    → IsProgram k.fs d node eip
    → HasRoom k node.length t
    → IsOnScreen k.screen
    → length stack ≡ 1024
    → Finds k (padded arg ++ drop 128 stack) file
    → (file.length + 1023) / 1024 < fuel
    → used < 8000
    → (k' : Kernel) × (execute cmos (some (word ++ tail)) k ≡ some (entered eip k'))
      × (k'.screen ≡ k.screen)
      × Prints
          (cat (kernel_calls cmos run) fuel stack (called used k'))
          (called used k')
          (map visible (contents k.fs file))
execute-cat cmos run fuel word tail arg stack k t d node file eip used w short no_exit split
      some_arg found p r on size names enough near =
    let (pid, pcb, k', started_run, s) =
      execute-Starts cmos word tail arg k t d node eip w short no_exit split found p r in
    let (plain, short_arg) = NoNul-Tail tail arg split in
    let esp = k'.tss_esp0 - used in
    let here : InStack pid esp =
      let i = s.fresh.in_range in let top = s.stack in (omega (arith, top), omega (arith, top)) in
    let k1 = called used k' in
    (
      k',
      started_run,
      s.same_screen,
      let ready =
            in_call-IsReady (cli k) t (contents k.fs node) arg pid pcb k' s on esp here plain
              short_arg some_arg in
          let there : Finds k1 (pcb.args ++ drop 128 stack) file =
            subst (λ a. Finds k1 (a ++ drop 128 stack) file) (sym s.args)
              (Finds-same k k1 (padded arg ++ drop 128 stack) file s.same_fs names) in
          subst
            (λ fs.
              Prints (cat (kernel_calls cmos run) fuel stack k1) k1
                (map visible (contents fs file)))
            s.same_fs
            (cat-contents cmos run fuel k1 pid pcb arg stack file ready size there enough),
    )
