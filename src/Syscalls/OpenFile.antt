-- ===== src/Syscalls/OpenFile.antt =====
-- What `open` of student-distrib/syscalls.c does with the name of a regular file.
use apoll_os.Prelude.{
  ℕ, ◌≤◌, ◌<◌, bit_or, ◌≡◌, ap, ◌∙◌, arith, false, some, List, ◌==◌, length, get_elem?, set,
  set-set, set_same, length-set, get_elem?-set_self, store-set, store, minus_one,
}
use apoll_os.FileOps.{File, file_ops}
use apoll_os.Rofs.{Dentry, read_dentry_by_name, file_open, open_typed}
use apoll_os.Kernel.{Kernel, Pcb}
use apoll_os.Syscalls.{is_open, set_open, slot_loop, update_file, open_slot, call_open, open_file}
use apoll_os.Syscalls.Opening.{FirstFree, taken, full, AllOpen, slot_loop_lem}
use apoll_os.Syscalls.Files.{
  IsRunning, with_files, IsRunning-with_files, current_pcb-IsRunning, set_files-IsRunning,
}

-- A second change of the files takes the place of the first.
with_files-with_files :
    (k : Kernel) (pid : ℕ) (pcb : Pcb) (a b : List File)
    → with_files (with_files k pid pcb a) pid (record pcb { files = a }) b ≡ with_files k pid pcb b
with_files-with_files k pid pcb a b =
    ap (λ (ps : List Pcb). record k { pcbs = ps })
      (set-set k.pcbs pid (record pcb { files = a }) (record pcb { files = b }))

same_files :
    (k : Kernel) (pid : ℕ) (pcb : Pcb) → IsRunning k pid pcb → with_files k pid pcb pcb.files ≡ k
same_files k pid pcb r =
    ap (λ (ps : List Pcb). record k { pcbs = ps }) (set_same k.pcbs pid pcb r.block)

-- A change of one open file.
update_file-IsRunning :
    (k : Kernel) (pid : ℕ) (pcb : Pcb) (files : List File) (fd : ℕ) (file : File) (f : File → File)
    → IsRunning k pid pcb
    → fd < length files
    → update_file fd f (with_files k pid pcb (set files fd file))
      ≡ some (with_files k pid pcb (set files fd (f file)))
update_file-IsRunning k pid pcb files fd file f r room =
    let before = set files fd file in
    let k1 = with_files k pid pcb before in
    let pcb1 = record pcb { files = before } in
    let r1 = IsRunning-with_files k pid pcb before r in
    let at : get_elem? before fd ≡ some file = get_elem?-set_self files fd file room in
    let stored : store before fd (f file) ≡ some (set before fd (f file)) =
      store-set before fd (f file) (omega (arith, length-set files fd file)) in
    rw (
      current_pcb-IsRunning k1 pid pcb1 r1,
      at,
      stored,
      set_files-IsRunning k1 pid pcb1 (set before fd (f file)) r1,
      with_files-with_files k pid pcb before (set before fd (f file)),
      set-set files fd file (f file),
    )

-- The entry of a file that has just been opened.
abbrev pub opened_file : File → ℕ → File
opened_file f inode = record f {
  flags = bit_or f.flags 1;
  pos = 0;
  fileops = file_ops;
  inode = inode;
}

open_slot-regular :
    (cmos : ℕ → ℕ) (name : List ℕ) (d : Dentry) (i : ℕ) (k : Kernel) (pid : ℕ) (pcb : Pcb)
    (f : File)
    → IsRunning k pid pcb
    → i < length pcb.files
    → read_dentry_by_name k.fs name ≡ some (some (record d { file_type = 2 }))
    → open_slot cmos name
        (record d { file_type = 2 })
        i
        (with_files k pid pcb (set pcb.files i (set_open f)))
      ≡ some (i, with_files k pid pcb (set pcb.files i (opened_file f d.inode_num)))
unfolding open_slot call_open file_open open_typed
open_slot-regular cmos name d i k pid pcb f r room found =
    let with_table : File = record (set_open f) { fileops = file_ops } in
    let first =
      update_file-IsRunning k pid pcb pcb.files i (set_open f)
        (λ g. record g { fileops = file_ops }) r room in
    let second =
      update_file-IsRunning k pid pcb pcb.files i with_table (λ g. record g { inode = d.inode_num })
        r room in
    rw (first, found, second)

open_slot-file :
    (cmos : ℕ → ℕ) (name : List ℕ) (d : Dentry) (i : ℕ) (k : Kernel) (pid : ℕ) (pcb : Pcb)
    (f : File)
    → IsRunning k pid pcb
    → i < length pcb.files
    → read_dentry_by_name k.fs name ≡ some (some d)
    → d.file_type ≡ 2
    → open_slot cmos name d i (with_files k pid pcb (set pcb.files i (set_open f)))
      ≡ some (i, with_files k pid pcb (set pcb.files i (opened_file f d.inode_num)))
open_slot-file cmos name d i k pid pcb f r room found regular =
    let before = with_files k pid pcb (set pcb.files i (set_open f)) in
    ap (λ t. open_slot cmos name (record d { file_type = t }) i before) regular
    ∙ open_slot-regular cmos name d i k pid pcb f r room
        (found ∙ ap (λ t. some (some (record d { file_type = t }))) regular)

-- What `open` returns: the lowest free descriptor, now open on the file, or -1 and no change if all
-- are taken.
pub data Opened (cmos : ℕ → ℕ) (name : List ℕ) (d : Dentry) (k : Kernel) (pid : ℕ) (pcb : Pcb)
    : Type 0 where
  opened :
      (fd : ℕ) (f : File)
      → (2 ≤ fd) × (fd < 8)
      → get_elem? pcb.files fd ≡ some f
      → is_open f ≡ false
      → AllOpen pcb.files 2 fd
      → open_file cmos (some name) k
        ≡ some (fd, with_files k pid pcb (set pcb.files fd (opened_file f d.inode_num)))
      → Opened cmos name d k pid pcb
  all_taken :
      AllOpen pcb.files 2 8
      → open_file cmos (some name) k ≡ some (minus_one, k)
      → Opened cmos name d k pid pcb

Opened-FirstFree :
    (cmos : ℕ → ℕ) (name : List ℕ) (d : Dentry) (k : Kernel) (pid : ℕ) (pcb : Pcb)
    → IsRunning k pid pcb
    → length pcb.files ≡ 8
    → read_dentry_by_name k.fs name ≡ some (some d)
    → d.file_type ≡ 2
    → (slot : ℕ × List File) → slot_loop cmos 6 2 pcb.files ≡ some slot
    → FirstFree pcb.files 2 8 slot
    → Opened cmos name d k pid pcb
unfolding open_file
Opened-FirstFree cmos name d k pid pcb r size found regular _ searched
      (taken j f (lo, hi) at free before) =
    let room : j < length pcb.files = omega (arith, size) in
    let not_full : (j == 8) ≡ false = ground arith in
    let done = open_slot-file cmos name d j k pid pcb f r room found regular in
    opened j f (lo, hi) at free before
      (rw (
        found,
        current_pcb-IsRunning k pid pcb r,
        searched,
        set_files-IsRunning k pid pcb (set pcb.files j (set_open f)) r,
        not_full,
        done,
      ))
Opened-FirstFree cmos name d k pid pcb r size found regular _ searched (full before) =
    all_taken before (
      rw (
        found,
        current_pcb-IsRunning k pid pcb r,
        searched,
        set_files-IsRunning k pid pcb pcb.files r,
        same_files k pid pcb r,
      ))

-- For the running process with its eight files and a name that finds a regular file, `open`
-- returns the lowest free descriptor from 2 on, which is then open on the file's inode at position
-- 0 with the operations of files, and changes nothing else; if no descriptor is free, it returns
-- -1 and changes nothing.
pub open_file-found :
    (cmos : ℕ → ℕ) (name : List ℕ) (d : Dentry) (k : Kernel) (pid : ℕ) (pcb : Pcb)
    → IsRunning k pid pcb
    → length pcb.files ≡ 8
    → read_dentry_by_name k.fs name ≡ some (some d)
    → d.file_type ≡ 2
    → Opened cmos name d k pid pcb
unfolding open_file
open_file-found cmos name d k pid pcb r size found regular =
    let (slot, searched, first) = slot_loop_lem cmos pcb.files size in
    Opened-FirstFree cmos name d k pid pcb r size found regular slot searched first
