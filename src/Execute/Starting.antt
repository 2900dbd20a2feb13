-- ===== src/Execute/Starting.antt =====
-- `execute` of student-distrib/syscalls.c from the text of a command on.
use apoll_os.Prelude.{ℕ, ◌<◌, ◌≡◌, sym, ap, ◌∙◌, ◌≢◌, some, List, [], ◌∷◌, ◌++◌, length, take}
use apoll_os.Rofs.{Dentry, Inode, read_dentry_by_name}
use apoll_os.Rofs.Contents.{contents}
use apoll_os.Kernel.{Kernel, Terminal, cli}
use apoll_os.Process.{can_execute}
use apoll_os.Execute.{execute, run_command}
use apoll_os.Execute.Command.{IsWord, padded, execute-first_word}
use apoll_os.Execute.Arguments.{Tail, stop-Tail}
use apoll_os.Execute.Started.{IsProgram, HasRoom}
use apoll_os.Execute.Loading.{Starts, run_file-Starts}

run_command-Starts :
    (k : Kernel) (t : Terminal) (d : Dentry) (node : Inode) (eip : ℕ) (name tail arg : List ℕ)
    → HasRoom k node.length t
    → IsProgram k.fs d node eip
    → Tail tail arg
    → read_dentry_by_name k.fs name ≡ some (some d)
    → Starts (run_command name tail k) k t eip (contents k.fs node) arg
unfolding run_command
run_command-Starts k t d node eip name tail arg r p split found =
    let (pid, pcb, k', run, started) = run_file-Starts k t d node eip tail arg r p split in
    (pid, pcb, k', rw found run, started)

HasRoom-cli : (k : Kernel) (size : ℕ) (t : Terminal) → HasRoom k size t → HasRoom (cli k) size t
unfolding can_execute
HasRoom-cli k size t r = record {
  can = r.can;
  byte = r.byte;
  free = r.free;
  blocks = r.blocks;
  six = r.six;
  room = r.room;
  terminal_at = r.terminal_at;
  directory = r.directory;
}

-- For a command that is a first word of less than 128 characters which does not start with `exit`
-- and what stands behind it, where the word names a program of the file system and the kernel has
-- room for a process of its size, `execute` enters the program at the address in its file: with a
-- fresh pid that is now taken, whose control block has standard input and output open and the
-- other files closed, the argument text, the parent's pid, stack and frame, and whose memory is
-- mapped and begins with the bytes of the file; no other control block or memory changes, and the
-- terminal runs one process more, the new one.
pub execute-Starts :
    (cmos : ℕ → ℕ) (word tail arg : List ℕ) (k : Kernel) (t : Terminal) (d : Dentry) (node : Inode)
    (eip : ℕ)
    → IsWord word
    → length word < 128
    → take 4 word ≢ (101 ∷ 120 ∷ 105 ∷ 116 ∷ [])
    → Tail tail arg
    → read_dentry_by_name k.fs (padded word) ≡ some (some d)
    → IsProgram k.fs d node eip
    → HasRoom k node.length t
    → Starts (execute cmos (some (word ++ tail)) k) (cli k) t eip (contents k.fs node) arg
execute-Starts cmos word tail arg k t d node eip w short no_exit split found p r =
    let (stop, rest, parts, ends) = stop-Tail tail arg split in
    let (pid, pcb, k', run, started) =
      run_command-Starts (cli k) t d node eip (padded word) tail arg (HasRoom-cli k node.length t r)
        p split found in
    (
      pid,
      pcb,
      k',
      ap (λ tl. execute cmos (some (word ++ tl)) k) parts
          ∙ execute-first_word cmos word stop rest k w ends short no_exit
          ∙ ap (λ tl. run_command (padded word) tl (cli k)) (sym parts)
          ∙ run,
      started,
    )
