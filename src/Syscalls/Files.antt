-- ===== src/Syscalls/Files.antt =====
-- The calls of student-distrib/syscalls.c on an open file and on the screen, from the descriptor
-- down to the file system and the video page.
use apoll_os.Prelude.{
  ℕ, ◌+◌, ◌-◌, ◌^◌, ◌≤◌, ◌<◌, min, ◌≡◌, ap, ◌∙◌, arith, true, false, some, List, ◌++◌, map, length,
  get_elem?, set, drop, lt_of_get_elem?, get_elem?-set_self,
}
use apoll_os.CString.Compare.{text, Readable}
use apoll_os.FileOps.{File, Fn, FileOps, file_ops, stdout_ops}
use apoll_os.Rofs.{Inode, visible}
use apoll_os.Rofs.ReadData.{slice}
use apoll_os.Rofs.FileRead.{IsOpen, file_read_lem}
use apoll_os.Screen.{Screen}
use apoll_os.Screen.Bounds.{IsOnScreen}
use apoll_os.Kernel.{Kernel, Pcb}
use apoll_os.Process.Stacks.{InStack, current_pid-InStack}
use apoll_os.Tty.{returns}
use apoll_os.Tty.Writing.{put_all, terminal_write_lem}
use apoll_os.Syscalls.{is_open, current_pcb, set_files, bad_fd, read, write, call_read, call_write}

-- The kernel runs on the stack of the process `pid`, which has the control block `pcb`.
pub record IsRunning (k : Kernel) (pid : ℕ) (pcb : Pcb) : Type 0 where
  pub small : pid < 6
  pub stack : InStack pid k.esp
  pub block : get_elem? k.pcbs pid ≡ some pcb

-- The process has `file` open as `fd`, on a file of the file system, and not past its end.
pub record OnFile (k : Kernel) (pcb : Pcb) (fd : ℕ) (file : File) (node : Inode) : Type 0 where
  pub opened : IsOpen k.fs pcb.files fd file node
  pub flag : is_open file ≡ true
  pub table : file.fileops ≡ file_ops
  pub inside : file.pos ≤ node.length

-- The kernel with other files in the control block of a process.
abbrev pub with_files : Kernel → ℕ → Pcb → List File → Kernel
with_files k pid pcb files = record k { pcbs = set k.pcbs pid (record pcb { files = files }) }

pub current_pcb-IsRunning :
    (k : Kernel) (pid : ℕ) (pcb : Pcb) → IsRunning k pid pcb → current_pcb k ≡ some pcb
current_pcb-IsRunning k pid pcb r = rw (current_pid-InStack k pid r.small r.stack, r.block)

pub set_files-IsRunning :
    (k : Kernel) (pid : ℕ) (pcb : Pcb) (files : List File)
    → IsRunning k pid pcb
    → set_files files k ≡ some (with_files k pid pcb files)
set_files-IsRunning k pid pcb files r = rw (current_pid-InStack k pid r.small r.stack, r.block)

pub IsRunning-with_files :
    (k : Kernel) (pid : ℕ) (pcb : Pcb) (files : List File)
    → IsRunning k pid pcb
    → IsRunning (with_files k pid pcb files) pid (record pcb { files = files })
IsRunning-with_files k pid pcb files r = record {
  small = r.small;
  stack = r.stack;
  block =
      get_elem?-set_self k.pcbs pid (record pcb { files = files })
        (lt_of_get_elem? k.pcbs pid pcb r.block);
}

bad_fd-small : (cmos : ℕ → ℕ) (fd : ℕ) → fd < 8 → bad_fd cmos fd ≡ false
bad_fd-small cmos fd h = ground arith

call_read-OnFile :
    (cmos : ℕ → ℕ) (k : Kernel) (pid : ℕ) (pcb : Pcb) (fd : ℕ) (file : File) (node : Inode)
    (buf : List ℕ) (nbytes : ℕ)
    → IsRunning k pid pcb
    → OnFile k pcb fd file node
    → nbytes < 2 ^ 31
    → nbytes ≤ length buf
    → let m = min nbytes (node.length - file.pos) in
      call_read cmos Fn.file_read fd buf nbytes k
      ≡ some (
          returns m
            (with_files k pid pcb (set pcb.files fd (record file { pos = file.pos + m })))
            (map visible (slice k.fs node file.pos m) ++ drop m buf))
unfolding call_read
call_read-OnFile cmos k pid pcb fd file node buf nbytes r f small room =
    let m = min nbytes (node.length - file.pos) in
    let files = set pcb.files fd (record file { pos = file.pos + m }) in
    let run =
      file_read_lem buf nbytes f.opened f.inside (omega (arith, f.inside, f.opened.fits))
        (omega arith) in
    rw (current_pcb-IsRunning k pid pcb r, run, set_files-IsRunning k pid pcb files r)

-- With a well-formed file open at a position inside it, a count below 2 ^ 31 and a buffer with
-- room for the count, `read` returns how many bytes are left, up to the count, puts their visible
-- form at the front of the buffer and keeps the rest of it, and moves the position of that
-- descriptor of the running process on by as many.
pub read-OnFile :
    (cmos : ℕ → ℕ) (k : Kernel) (pid : ℕ) (pcb : Pcb) (fd : ℕ) (file : File) (node : Inode)
    (buf : List ℕ) (nbytes : ℕ)
    → IsRunning k pid pcb
    → OnFile k pcb fd file node
    → nbytes < 2 ^ 31
    → nbytes ≤ length buf
    → let m = min nbytes (node.length - file.pos) in
      read cmos fd (some buf) nbytes k
      ≡ some (
          returns m
            (with_files k pid pcb (set pcb.files fd (record file { pos = file.pos + m })))
            (map visible (slice k.fs node file.pos m) ++ drop m buf))
unfolding read call_read
read-OnFile cmos k pid pcb fd file node buf nbytes r f small room =
    let reads : file.fileops.read_fn ≡ Fn.file_read = ap (λ (o : FileOps). o.read_fn) f.table in
    let call = call_read-OnFile cmos k pid pcb fd file node buf nbytes r f small room in
    rw
      (
        bad_fd-small cmos fd f.opened.small,
        current_pcb-IsRunning k pid pcb r,
        f.opened.entry,
        f.flag,
      )
      (ap (λ fn. call_read cmos fn fd buf nbytes k) reads ∙ call)

-- A write to the screen under descriptor 1.
pub write-stdout :
    (cmos : ℕ → ℕ) (k : Kernel) (pid : ℕ) (pcb : Pcb) (out : File) (buf : List ℕ) (nbytes : ℕ)
    → IsRunning k pid pcb
    → get_elem? pcb.files 1 ≡ some out
    → is_open out ≡ true
    → out.fileops ≡ stdout_ops
    → Readable nbytes buf
    → nbytes < 2 ^ 31
    → IsOnScreen k.screen
    → (s' : Screen) × (write cmos 1 (some buf) nbytes k
        ≡ some (length (text nbytes buf), record k { screen = s' }))
      × (put_all (text nbytes buf) k.screen ≡ some s')
      × IsOnScreen s'
unfolding write call_write
write-stdout cmos k pid pcb out buf nbytes r at flag table readable small on =
    let (s', run, shown, inside) = terminal_write_lem 1 buf nbytes k readable small on in
    let writes : out.fileops.write_fn ≡ Fn.terminal_write =
      ap (λ (o : FileOps). o.write_fn) table in
    (
      s',
      rw (current_pcb-IsRunning k pid pcb r, at, flag)
          (ap (λ fn. call_write cmos fn 1 buf nbytes k) writes ∙ run),
      shown,
      inside,
    )
