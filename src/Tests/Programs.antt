-- ===== src/Tests/Programs.antt =====
-- Tests of the programs of syscalls/, and of the calls that they make, on a kernel with one process.
use apoll_os.Prelude.{
  minus_one, replicate, ℕ, ◌≡◌, refl, inr, arith, some, List, [], ◌∷◌, ◌++◌, map, set, drop,
  length-replicate,
}
use apoll_os.Syscalls.{write, close}
use apoll_os.Syscalls.Closing.{close-NotOpen}
use apoll_os.FileOps.{File, stdin_ops, stdout_ops}
use apoll_os.Rofs.{find_loop, read_dentry_by_name, visible}
use apoll_os.CString.{strncmp}
use apoll_os.Rofs.Contents.{contents}
use apoll_os.Rofs.ReadData.{slice}
use apoll_os.Screen.{Screen}
use apoll_os.Screen.Bounds.{IsOnScreen}
use apoll_os.Kernel.{Kernel, Pcb}
use apoll_os.Tty.{returns, terminal_write}
use apoll_os.Tty.Writing.{put_all, terminal_write_lem}
use apoll_os.Syscalls.{read}
use apoll_os.Syscalls.OpenFile.{Opened, open_file-found}
use apoll_os.Syscalls.Files.{IsRunning, OnFile, with_files, read-OnFile}
use apoll_os.User.Programs.{cat, cat_loop}
use apoll_os.User.Cat.{cat_loop-Shows}
use apoll_os.User.Interface.{FileCalls}
use apoll_os.User.OnKernel.{kernel_calls, kernel_files, Copies, Shows-Copies}
use apoll_os.User.CatOnKernel.{IsReady, Finds, Prints, cat-contents}
use apoll_os.Tests.Data.{
  small_fs, hi_entry, hi_node, hi_node-IsFile, hi_file, blank_screen, kernel_with,
}
use apoll_os.Tests.Data.{plain_file, on_screen, calls_run}

abbrev std_files : List File
std_files =
    record { inode = 0; flags = 1; pos = 0; fileops = stdin_ops }
    ∷ record { inode = 0; flags = 1; pos = 0; fileops = stdout_ops }
    ∷ hi_file
    ∷ replicate 5 (plain_file 0)

abbrev cat_pcb : Pcb
cat_pcb = record {
  files = std_files;
  pid = 0;
  args = 104 ∷ 105 ∷ 0 ∷ replicate 125 0;
  parent_pid = 0;
  parent_esp = 0;
  parent_ebp = 0;
}

-- The process 0 runs `cat hi`.
abbrev cat_kernel : Kernel
cat_kernel = record (kernel_with [] 0 0 0x7fff00) { pcbs = cat_pcb ∷ [] }

cat_kernel-IsRunning : IsRunning cat_kernel 0 cat_pcb
cat_kernel-IsRunning = record {
  small = omega arith;
  stack = (omega arith, omega arith);
  block = refl;
}

cat_kernel-OnFile : OnFile cat_kernel cat_pcb 2 hi_file hi_node
cat_kernel-OnFile = record {
  opened = record {
    small = omega arith;
    entry = refl;
    inode_in = omega arith;
    inode_at = refl;
    valid = hi_node-IsFile;
    fits = omega arith;
  };
  flag = refl;
  table = refl;
  inside = omega arith;
}

-- The line is longer than what the file has left.
read-OnFile_example :
    read (λ reg. 0) 2 (some (replicate 5 1)) 4 cat_kernel
    ≡ some (
        returns 3
          (with_files cat_kernel 0 cat_pcb (set std_files 2 (record hi_file { pos = 3 })))
          (map visible (slice small_fs hi_node 0 3) ++ (1 ∷ 1 ∷ [])))
read-OnFile_example =
    read-OnFile (λ reg. 0) cat_kernel 0 cat_pcb 2 hi_file hi_node (replicate 5 1) 4
      cat_kernel-IsRunning cat_kernel-OnFile (omega arith) (omega arith)

terminal_write_lem_example :
    (s' : Screen) × (terminal_write 1 (72 ∷ 105 ∷ []) 2 cat_kernel
      ≡ some (2, record cat_kernel { screen = s' }))
    × (put_all (72 ∷ 105 ∷ []) (blank_screen 7 0) ≡ some s')
    × IsOnScreen s'
terminal_write_lem_example =
    terminal_write_lem 1 (72 ∷ 105 ∷ []) 2 cat_kernel (inr (inr tt)) (omega arith) on_screen

hi_found : read_dentry_by_name small_fs (104 ∷ 105 ∷ 0 ∷ []) ≡ some (some hi_entry)
unfolding read_dentry_by_name find_loop strncmp
hi_found = refl

open_file-found_example : Opened (λ reg. 0) (104 ∷ 105 ∷ 0 ∷ []) hi_entry cat_kernel 0 cat_pcb
open_file-found_example =
    open_file-found (λ reg. 0) (104 ∷ 105 ∷ 0 ∷ []) hi_entry cat_kernel 0 cat_pcb
      cat_kernel-IsRunning refl hi_found refl

cat_kernel-Copies :
    Copies (blank_screen 7 0) cat_kernel 2 (map visible (contents small_fs hi_node)) []
cat_kernel-Copies = record {
  pid = 0;
  pcb = cat_pcb;
  file = hi_file;
  node = hi_node;
  output = record { inode = 0; flags = 1; pos = 0; fileops = stdout_ops };
  running = cat_kernel-IsRunning;
  on_file = cat_kernel-OnFile;
  other = λ e. absurd (omega arith);
  output_at = refl;
  output_open = refl;
  output_table = refl;
  left = refl;
  on = on_screen;
  shown = refl;
}

abbrev cat_laws : FileCalls (kernel_calls (λ reg. 0) calls_run)
cat_laws = kernel_files (λ reg. 0) calls_run (blank_screen 7 0)

cat_kernel-Shows : cat_laws.Shows cat_kernel 2 (map visible (contents small_fs hi_node)) []
cat_kernel-Shows =
    Shows-Copies (λ reg. 0) calls_run (blank_screen 7 0) cat_kernel 2
      (map visible (contents small_fs hi_node)) [] cat_kernel-Copies

cat_loop-Shows_example :
    (k' : Kernel) × (cat_loop (kernel_calls (λ reg. 0) calls_run) 2 2 (replicate 1024 0) cat_kernel
      ≡ some (0, k'))
    × cat_laws.Shows k' 2 [] ([] ++ map visible (contents small_fs hi_node))
cat_loop-Shows_example =
    cat_loop-Shows (kernel_calls (λ reg. 0) calls_run) cat_laws 2 2 (replicate 1024 0)
      (map visible (contents small_fs hi_node)) [] cat_kernel cat_kernel-Shows
      (length-replicate {A = ℕ} 1024 0) (omega arith)

cat_kernel-IsReady : IsReady cat_kernel 0 cat_pcb (104 ∷ 105 ∷ [])
cat_kernel-IsReady = record {
  running = cat_kernel-IsRunning;
  rest = replicate 125 0;
  args = refl;
  args_size = refl;
  plain = ((λ e. absurd (omega arith)), ((λ e. absurd (omega arith)), tt));
  some_arg = omega arith;
  size = refl;
  flags = omega arith;
  output = record { inode = 0; flags = 1; pos = 0; fileops = stdout_ops };
  output_at = refl;
  output_open = refl;
  output_table = refl;
  free = 3;
  free_file = plain_file 0;
  free_range = (omega arith, omega arith);
  free_at = refl;
  closed = refl;
  on = on_screen;
}

hi_padded :
    read_dentry_by_name small_fs (cat_pcb.args ++ drop 128 (replicate 1024 0))
    ≡ some (some hi_entry)
unfolding read_dentry_by_name find_loop strncmp
hi_padded = refl

cat_kernel-Finds : Finds cat_kernel (cat_pcb.args ++ drop 128 (replicate 1024 0)) hi_node
cat_kernel-Finds = record {
  entry = hi_entry;
  found = hi_padded;
  regular = refl;
  inode_in = omega arith;
  inode_at = refl;
  valid = hi_node-IsFile;
  fits = omega arith;
}

cat-contents_example :
    Prints
      (cat (kernel_calls (λ reg. 0) calls_run) 2 (replicate 1024 0) cat_kernel)
      cat_kernel
      (map visible (contents small_fs hi_node))
cat-contents_example =
    cat-contents (λ reg. 0) calls_run 2 cat_kernel 0 cat_pcb (104 ∷ 105 ∷ []) (replicate 1024 0)
      hi_node cat_kernel-IsReady (length-replicate {A = ℕ} 1024 0) cat_kernel-Finds (omega arith)

close-NotOpen_example :
    let k' = with_files cat_kernel 0 cat_pcb (set std_files 2 (record hi_file { flags = 0 })) in
    (close (λ reg. 0) 2 cat_kernel ≡ some (0, k'))
    × (read (λ reg. 0) 2 (some (replicate 5 1)) 4 k' ≡ some (returns minus_one k' (replicate 5 1)))
    × (write (λ reg. 0) 2 (some (replicate 5 1)) 4 k' ≡ some (minus_one, k'))
    × (close (λ reg. 0) 2 k' ≡ some (minus_one, k'))
close-NotOpen_example =
    close-NotOpen (λ reg. 0) cat_kernel 0 cat_pcb 2 hi_file (replicate 5 1) 4 cat_kernel-IsRunning
      (omega arith) refl refl (omega arith) refl
