-- ===== src/Tests/Lifecycle.antt =====
-- From a command to the program's output and back: `execute`, `cat` and `halt` on a kernel with a
-- shell, a program and a text file, and a line that is typed at its keyboard.
use mathlib.Core.Path.{subst}
use apoll_os.Prelude.{
  sym, ◌≢◌, ◌≤◌, ◌&&◌, true, ℕ, ◌≡◌, refl, ap, arith, some, List, [], ◌∷◌, ◌++◌, map, length,
  replicate, All, length-replicate,
}
use apoll_os.Rofs.{read_dentry_by_name}
use apoll_os.Process.{flag_set, get_new_pid, can_execute}
use apoll_os.Paging.Translate.{Mapping, translate}
use apoll_os.Execute.Command.{padded}
use apoll_os.Execute.Started.{IsProgram, HasRoom}
use apoll_os.Execute.Apart.{Launches, execute-apart}
use apoll_os.Tests.Data.{layout}
use apoll_os.Tests.Shell.{cat_entry-IsProgram}
use apoll_os.Rofs.{visible}
use apoll_os.Rofs.Contents.{contents}
use apoll_os.Kernel.{Kernel, cli}
use apoll_os.Execute.{entered, execute}
use apoll_os.Execute.Loading.{Starts}
use apoll_os.Execute.Starting.{execute-Starts}
use apoll_os.User.Programs.{cat}
use apoll_os.User.OnKernel.{kernel_calls}
use apoll_os.User.CatOnKernel.{Prints}
use apoll_os.User.FromCommand.{called, execute-cat}
use apoll_os.Keyboard.{key_char, key_scancodes}
use apoll_os.Keyboard.Typing.{Holds}
use apoll_os.Interrupts.{key_of, modifier}
use apoll_os.Interrupts.Waiting.{is_typing, typed, wait_read}
use apoll_os.Interrupts.Reading.{Reads, wait_read-typed}
use apoll_os.Tests.Data.{hi_node, on_screen, calls_run}
use apoll_os.Tests.Shell.{
  cat_word, hi_word, cat_entry, cat_node, two_files, cat_entry-IsProgram, shell_terminal,
  shell_kernel, shell_kernel-HasRoom, cat_word-IsWord, command, hi_word-Tail, no_exit, cat_found,
  hi_word-Finds,
}

abbrev Begins : Type 0
Begins =
    Starts (execute (λ reg. 0) (some (cat_word ++ command)) shell_kernel) (cli shell_kernel)
      shell_terminal 0x08048000 (contents two_files cat_node) hi_word

begins : Begins
begins =
    execute-Starts (λ reg. 0) cat_word command hi_word shell_kernel shell_terminal cat_entry
      cat_node 0x08048000 cat_word-IsWord (omega arith) no_exit hi_word-Tail cat_found
      cat_entry-IsProgram shell_kernel-HasRoom

execute-Starts_example : Begins
execute-Starts_example =
    execute-Starts (λ reg. 0) cat_word command hi_word shell_kernel shell_terminal cat_entry
      cat_node 0x08048000 cat_word-IsWord (omega arith) no_exit hi_word-Tail cat_found
      cat_entry-IsProgram shell_kernel-HasRoom

execute-cat_example :
    (k' : Kernel) × (execute (λ reg. 0) (some (cat_word ++ command)) shell_kernel
      ≡ some (entered 0x08048000 k'))
    × (k'.screen ≡ shell_kernel.screen)
    × Prints
        (cat (kernel_calls (λ reg. 0) calls_run) 2 (replicate 1024 0) (called 64 k'))
        (called 64 k')
        (map visible (contents two_files hi_node))
execute-cat_example =
    execute-cat (λ reg. 0) calls_run 2 cat_word command hi_word (replicate 1024 0) shell_kernel
      shell_terminal cat_entry cat_node hi_node 0x08048000 64 cat_word-IsWord (omega arith) no_exit
      hi_word-Tail (omega arith) cat_found cat_entry-IsProgram shell_kernel-HasRoom on_screen
      (length-replicate {A = ℕ} 1024 0) hi_word-Finds (omega arith) (omega arith)

-- The program halts without having opened a file.
abbrev halting : Kernel
halting = called 64 begins.2

shell_kernel-Holds : Holds shell_kernel 0 []
shell_kernel-Holds = record {
  term = shell_terminal;
  active = record { pointer = refl; entry = refl; size = length-replicate {A = ℕ} 128 0 };
  keys = refl;
  pos = refl;
  short = omega arith;
  text = tt;
  shown = on_screen;
}

-- Shift and h, and i without shift.
abbrev keys : List ℕ
keys = 0x2a ∷ 35 ∷ 0xaa ∷ 23 ∷ []

keys_text : typed keys shell_kernel.keyboard ≡ 72 ∷ 105 ∷ []
unfolding key_of modifier key_char key_scancodes
keys_text = refl

keys-typing : All (λ code. is_typing (key_of code) ≡ true) keys
unfolding key_of
keys-typing = (refl, (refl, (refl, (refl, tt))))

wait_read-typed_example :
    Reads
      (wait_read (keys ++ (0x1c ∷ [])) 0 (replicate 8 1) 8 shell_kernel)
      0
      8
      (replicate 8 1)
      (typed keys shell_kernel.keyboard)
wait_read-typed_example =
    wait_read-typed keys 0 (replicate 8 1) 8 shell_kernel 0 [] keys-typing shell_kernel-Holds
      (λ e. absurd (omega arith)) (omega arith) refl (omega (arith, ap length keys_text))
      (omega arith) (omega (arith, ap length keys_text))

-- The shell has started `cat` once, and starts it again.
abbrev busy_kernel : Kernel
busy_kernel = record shell_kernel { processes_flags = 3 }

busy_kernel-HasRoom : HasRoom busy_kernel 28 shell_terminal
unfolding can_execute
busy_kernel-HasRoom =
    let r = shell_kernel-HasRoom in
    record {
      can = r.can;
      byte = omega arith;
      free = λ e. absurd (omega arith);
      blocks = r.blocks;
      six = r.six;
      room = r.room;
      terminal_at = r.terminal_at;
      directory = r.directory;
    }

cat-Launches :
    (k : Kernel)
    → k.fs ≡ two_files
    → HasRoom k 28 shell_terminal
    → Launches k (cat_word ++ command) 0x08048000
cat-Launches k same room = record {
  word = cat_word;
  tail = command;
  arg = hi_word;
  t = shell_terminal;
  d = cat_entry;
  node = cat_node;
  parts = refl;
  is_word = cat_word-IsWord;
  short = omega arith;
  no_exit = no_exit;
  is_tail = hi_word-Tail;
  found =
      subst (λ fs. read_dentry_by_name fs (padded cat_word) ≡ some (some cat_entry)) (sym same)
        cat_found;
  program = subst (λ fs. IsProgram fs cat_entry cat_node 0x08048000) (sym same) cat_entry-IsProgram;
  room = room;
}

second_runs : flag_set 3 (get_new_pid 1).0 ≡ true
unfolding get_new_pid
second_runs = refl

execute-apart_example :
    (k1' : Kernel) × (k2' : Kernel) × (a1 : Mapping) × (a2 : Mapping) × (execute
        (λ reg. 0)
        (some (cat_word ++ command))
        shell_kernel
      ≡ some (entered 0x08048000 k1'))
    × (execute (λ reg. 0) (some (cat_word ++ command)) busy_kernel ≡ some (entered 0x08048000 k2'))
    × (translate layout k1'.paging 0x08048000 ≡ some a1)
    × (translate layout k2'.paging 0x08000123 ≡ some a2)
    × (a1.physical ≢ a2.physical)
    × (0x800000 ≤ a1.physical)
    × (0x800000 ≤ a2.physical)
    × (a1.user && a2.user ≡ true)
execute-apart_example =
    execute-apart (λ reg. 0) layout shell_kernel busy_kernel (cat_word ++ command)
      (cat_word ++ command) 0x08048000 0x08048000 0x08048000 0x08000123
      (cat-Launches shell_kernel refl shell_kernel-HasRoom)
      (cat-Launches busy_kernel refl busy_kernel-HasRoom) second_runs refl refl
