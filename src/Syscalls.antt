-- ===== src/Syscalls.antt =====
-- The file system calls of student-distrib/syscalls.c: a descriptor is checked, and the call goes
-- through the operation table of the open file. A null pointer is `none`; `cmos` is what a register
-- of the clock reads as.
pub mod Descriptors
pub mod Closing
pub mod Files
pub mod Opening
pub mod OpenFile
use apoll_os.Prelude.{
  ℕ, zero, suc, ◌+◌, bit_and, bit_or, Bool, not, ◌||◌, Option, none, some, List, [], ◌==◌, ◌!=◌,
  if◌then◌else◌, get_elem?, set, store, ◌>>=◌, minus_one, neg32, slt,
}
use apoll_os.CString.{strlen, memcpy}
use apoll_os.FileOps.{File, FileOps, Fn, rtc_ops, dir_ops, file_ops}
use apoll_os.Rofs
use apoll_os.Rofs.{Dentry}
use apoll_os.Rtc
use apoll_os.Paging.{Layout, remap_with_page_table}
use apoll_os.Kernel.{Kernel, Pcb, sti, virtual_start, virtual_end}
use apoll_os.Process.{current_pid, file_open_flag}
use apoll_os.Tty
use apoll_os.Tty.{Reply, waits, returns}

abbrev pub max_files : ℕ
max_files = 8

abbrev pub fail : ℕ
fail = minus_one

-- `flags & FILE_OPEN`.
abbrev pub is_open : File → Bool
is_open f = bit_and f.flags file_open_flag != 0

abbrev pub set_open : File → File
set_open f = record f { flags = bit_or f.flags file_open_flag; pos = 0 }

-- `flags &= ~FILE_OPEN`.
abbrev pub set_closed : File → File
set_closed f = record f { flags = bit_and f.flags 0xffff_fffe }

-- The control block of the running process.
abbrev pub current_pcb : Kernel → Option Pcb
current_pcb k = do pid ← current_pid k; get_elem? k.pcbs pid

-- The file array of the running process is replaced.
abbrev pub set_files : List File → Kernel → Option Kernel
set_files files k = do
  pid ← current_pid k
  pcb ← get_elem? k.pcbs pid
  some (record k { pcbs = set k.pcbs pid (record pcb { files = files }) })

abbrev pub update_file : ℕ → (File → File) → Kernel → Option Kernel
update_file fd f k = do
  pcb ← current_pcb k
  file ← get_elem? pcb.files fd
  files ← store pcb.files fd (f file)
  set_files files k

module _ (cmos : ℕ → ℕ) where
  -- `fileops.open(filename)`; a function of another type is never in the table.
  unfoldable pub call_open : Fn → List ℕ → Kernel → Option (ℕ × Kernel)
  call_open Fn.terminal_open filename k = some (Tty.terminal_open filename k, k)
  call_open Fn.rtc_open filename k =
      let (ret, rtc, pic) = Rtc.rtc_open (cmos Rtc.rtc_reg_b) (cmos Rtc.rtc_reg_a) (k.rtc, k.pic) in
      some (ret, sti (record k { rtc = rtc; pic = pic }))
  call_open Fn.dir_open filename k = do ret ← Rofs.dir_open k.fs filename; some (ret, k)
  call_open Fn.file_open filename k = do ret ← Rofs.file_open k.fs filename; some (ret, k)
  call_open Fn.fail filename k = some (fail, k)
  call_open _ filename k = none

  unfoldable pub call_close : Fn → ℕ → Kernel → Option (ℕ × Kernel)
  call_close Fn.rtc_close fd k =
      let (ret, rtc, pic) = Rtc.rtc_close (cmos Rtc.rtc_reg_a) (k.rtc, k.pic) in
      some (ret, record k { rtc = rtc; pic = pic })
  call_close Fn.dir_close fd k = some (Rofs.dir_close fd, k)
  call_close Fn.file_close fd k = some (Rofs.file_close fd, k)
  call_close Fn.fail fd k = some (fail, k)
  call_close _ fd k = none

  -- `read` through a table; a file operation changes the file array of the process.
  unfoldable pub call_read : Fn → ℕ → List ℕ → ℕ → Kernel → Option Reply
  call_read Fn.terminal_read fd buf nbytes k = Tty.terminal_read fd buf nbytes k
  call_read Fn.rtc_read fd buf nbytes k = elim (Rtc.rtc_read k.rtc) [
    | none ↦ some waits
    | some (ret, rtc) ↦ some (returns ret (record k { rtc = rtc }) buf)
  ]
  call_read Fn.dir_read fd buf nbytes k = do
    pcb ← current_pcb k
    (ret, files, buf') ← Rofs.dir_read k.fs pcb.files fd buf nbytes
    k' ← set_files files k
    some (returns ret k' buf')
  call_read Fn.file_read fd buf nbytes k = do
    pcb ← current_pcb k
    (ret, files, buf') ← Rofs.file_read k.fs pcb.files fd buf nbytes
    k' ← set_files files k
    some (returns ret k' buf')
  call_read Fn.fail fd buf nbytes k = some (returns fail k buf)
  call_read _ fd buf nbytes k = none

  unfoldable pub call_write : Fn → ℕ → List ℕ → ℕ → Kernel → Option (ℕ × Kernel)
  call_write Fn.terminal_write fd buf nbytes k = Tty.terminal_write fd buf nbytes k
  call_write Fn.rtc_write fd buf nbytes k = do
    (ret, rtc) ← Rtc.rtc_write (cmos Rtc.rtc_reg_a) (some buf) nbytes k.rtc
    some (ret, sti (record k { rtc = rtc }))
  call_write Fn.fail fd buf nbytes k = some (fail, k)
  call_write _ fd buf nbytes k = none

  -- `fd < 0 || fd >= MAX_FILES`.
  abbrev pub bad_fd : ℕ → Bool
  bad_fd fd = neg32 fd || not (slt fd max_files)

  unfoldable pub read : ℕ → Option (List ℕ) → ℕ → Kernel → Option Reply
  read fd none nbytes k = some (returns minus_one k [])
  read fd (some buf) nbytes k = if bad_fd fd then some (returns minus_one k buf) else (do
    pcb ← current_pcb k
    file ← get_elem? pcb.files fd
    if is_open file
        then call_read file.fileops.read_fn fd buf nbytes k
        else some (returns minus_one k buf))

  unfoldable pub write : ℕ → Option (List ℕ) → ℕ → Kernel → Option (ℕ × Kernel)
  write fd none nbytes k = some (minus_one, k)
  write fd (some buf) nbytes k = if bad_fd fd then some (minus_one, k) else (do
    pcb ← current_pcb k
    file ← get_elem? pcb.files fd
    if is_open file then call_write file.fileops.write_fn fd buf nbytes k else some (minus_one, k))

  -- The loop of `open` at slot `i`, with the rounds that are left: the slot, and the files.
  pub slot_loop : ℕ → ℕ → List File → Option (ℕ × List File)
  slot_loop zero i files = some (i, files)
  slot_loop (suc n) i files =
      let next = slot_loop n (i + 1) files in
      (do f ← get_elem? files i; if is_open f then next else some (i, set files i (set_open f)))

  -- The table of a file type; `none` is an unknown type.
  abbrev pub ops_of_type : ℕ → Option FileOps
  ops_of_type t =
      if t == Rofs.type_rtc
      then some rtc_ops
      else if t == Rofs.type_dir
      then some dir_ops
      else if t == Rofs.type_file
      then some file_ops
      else none

  -- The slot is taken: its table is set and its open function called.
  unfoldable pub open_slot : List ℕ → Dentry → ℕ → Kernel → Option (ℕ × Kernel)
  open_slot filename dentry i k = elim (ops_of_type dentry.file_type) [
    | none ↦ (do k' ← update_file i set_closed k; some (minus_one, k'))
    | some ops ↦ (do
      k' ← update_file i (λ f. record f { fileops = ops }) k
      (err, k'') ← call_open ops.open_fn filename k'
      if err != 0 then (do k3 ← update_file i set_closed k''; some (minus_one, k3)) else (do
        k3 ← update_file i (λ f. record f { inode = dentry.inode_num }) k''
        some (i, k3)))
  ]

  unfoldable pub open_file : Option (List ℕ) → Kernel → Option (ℕ × Kernel)
  open_file none k = some (minus_one, k)
  open_file (some filename) k = do
    found ← Rofs.read_dentry_by_name k.fs filename
    elim found [
      | none ↦ some (minus_one, k)
      | some dentry ↦ (do
        pcb ← current_pcb k
        (i, files) ← slot_loop 6 2 pcb.files
        k' ← set_files files k
        if i == max_files then some (minus_one, k') else open_slot filename dentry i k')
    ]

  unfoldable pub close : ℕ → Kernel → Option (ℕ × Kernel)
  close fd k = if bad_fd fd then some (minus_one, k) else (do
    pcb ← current_pcb k
    file ← get_elem? pcb.files fd
    if is_open file
        then (do
          (err, k') ← call_close file.fileops.close_fn fd k
          if err == 0
              then (do k'' ← update_file fd set_closed k'; some (err, k''))
              else some (err, k'))
        else some (minus_one, k))

-- A null buffer is `none`. Only the result and the buffer change.
unfoldable pub getargs : Option (List ℕ) → ℕ → Kernel → Option (ℕ × List ℕ)
getargs none nbytes k = some (minus_one, [])
getargs (some buf) nbytes k = do
  pcb ← current_pcb k
  len ← strlen pcb.args
  if len == 0 then some (minus_one, buf) else (do
    let nbytes' = if slt 128 nbytes then 128 else nbytes
    buf' ← memcpy buf pcb.args nbytes'
    some (0, buf'))

-- The second component is what is stored through `screen_start`, if anything is.
unfoldable pub vidmap : Layout → ℕ → Kernel → Option (ℕ × Option ℕ × Kernel)
vidmap l screen_start k =
    if screen_start == 0
    then some (minus_one, none, k)
    else if slt screen_start virtual_start || slt virtual_end screen_start
    then some (minus_one, none, k)
    else (do
      paging ← remap_with_page_table l virtual_end 0xb8000 k.paging
      some (0, some virtual_end, record k { paging = paging }))

pub set_handler : ℕ → ℕ → ℕ
set_handler signum handler_address = minus_one

pub sigreturn : ℕ
sigreturn = minus_one
