-- ===== src/Execute/Started.antt =====
-- A program of the file system, what `execute` of student-distrib/syscalls.c needs to start it, and the
-- process that it is then.
use apoll_os.Prelude.{
  take_all, ℕ, ◌+◌, ◌-◌, ◌*◌, ◌≤◌, ◌<◌, min, ◌≡◌, ◌∙◌, ◌≢◌, arith, true, false, some, List, [], ◌∷◌,
  ◌++◌, ltb, ◌==◌, if◌then◌else◌, length, get_elem?, drop, All, u32,
}
use apoll_os.Rofs.{Fs, Dentry, Inode, read_data}
use apoll_os.Rofs.Contents.{IsFile, contents}
use apoll_os.Rofs.ReadData.{slice, read_data_lem}
use apoll_os.Rofs.FileRead.{length-contents}
use apoll_os.Rtc.{word_of}
use apoll_os.Paging.{remap}
use apoll_os.Kernel.{Kernel, Pcb, Terminal, virtual_start, physical_start, four_mb_block}
use apoll_os.Process.{term_index, can_execute, get_new_pid}
use apoll_os.Process.Pids.{AllTaken, IsFresh}
use apoll_os.Process.Blocks.{HasBlocks, NewFiles}
use apoll_os.Execute.Command.{padded}

-- The first bytes of the file are those of an ELF file, and bytes 24 to 27 are the address of its
-- first instruction.
pub record IsProgram (fs : Fs) (d : Dentry) (node : Inode) (eip : ℕ) : Type 0 where
  pub inode_in : d.inode_num < fs.boot_block.num_inodes
  pub inode_at : get_elem? fs.inodes d.inode_num ≡ some node
  pub valid : IsFile fs node
  pub long : 28 ≤ node.length
  pub fits : node.length ≤ 4194304
  pub magic : slice fs node 0 4 ≡ 0x7f ∷ 0x45 ∷ 0x4c ∷ 0x46 ∷ []
  pub first : word_of (slice fs node 24 4) ≡ some eip

-- A process can be started: there is a pid, and the blocks, the memory of the programs, the
-- terminal and the page directory are in place.
pub record HasRoom (k : Kernel) (size : ℕ) (t : Terminal) : Type 0 where
  pub can : can_execute k ≡ true
  pub byte : k.processes_flags < 256
  pub free : ¬ AllTaken k.processes_flags
  pub blocks : HasBlocks k.pcbs
  pub six : length k.images ≡ 6
  pub room : All (λ (i : List ℕ). size ≤ length i) k.images
  pub terminal_at : get_elem? k.terminal (term_index k) ≡ some t
  pub directory : length k.paging.page_dir ≡ 1024

-- `k'` is `k` with a process for the program: `pcb` is its block, and `arg` its argument.
pub record Started (k : Kernel) (t : Terminal) (program arg : List ℕ) (pid : ℕ) (pcb : Pcb)
    (k' : Kernel) : Type 0 where
  pub fresh : IsFresh k.processes_flags pid k'.processes_flags
  pub handed_out : get_new_pid k.processes_flags ≡ (pid, k'.processes_flags)
  pub block : get_elem? k'.pcbs pid ≡ some pcb
  pub files : NewFiles pcb.files
  pub args : pcb.args ≡ padded arg
  pub own_pid : pcb.pid ≡ pid
  pub parent : pcb.parent_pid ≡ (if t.num_processes == 0 then pid else t.term_pid)
  pub parent_stack : pcb.parent_esp ≡ k.esp
  pub parent_frame : pcb.parent_ebp ≡ k.ebp
  pub other_blocks : (j : ℕ) → pid ≢ j → get_elem? k'.pcbs j ≡ get_elem? k.pcbs j
  pub old_image : List ℕ
  pub old_image_at : get_elem? k.images pid ≡ some old_image
  pub image : get_elem? k'.images pid ≡ some (program ++ drop (length program) old_image)
  pub other_images : (j : ℕ) → pid ≢ j → get_elem? k'.images j ≡ get_elem? k.images j
  pub memory :
      remap virtual_start (u32 (physical_start + pid * four_mb_block)) k.paging ≡ some k'.paging
  pub stack : k'.tss_esp0 ≡ 0x800000 - 0x2000 * pid - 4
  pub term :
      get_elem? k'.terminal (term_index k)
      ≡ some (record t { num_processes = u32 (t.num_processes + 1); term_pid = pid })
  pub terminals : length k'.terminal ≡ length k.terminal
  pub same_fs : k'.fs ≡ k.fs
  pub same_screen : k'.screen ≡ k.screen
  pub same_current : k'.term_cur ≡ k.term_cur
  pub interrupts : k'.interrupts ≡ true

slice-whole :
    (fs : Fs) (node : Inode) → IsFile fs node → slice fs node 0 node.length ≡ contents fs node
slice-whole fs node f =
    take_all node.length (contents fs node) (omega (arith, length-contents fs node f))

-- The file is read to the end, into the start of the memory.
pub read_data-whole :
    (fs : Fs) (d : Dentry) (node : Inode) (eip : ℕ) (image : List ℕ)
    → IsProgram fs d node eip
    → node.length ≤ length image
    → read_data fs d.inode_num 0 image 4194304
      ≡ some (node.length, contents fs node ++ drop node.length image)
read_data-whole fs d node eip image p room =
    let whole : min 4194304 (node.length - 0) ≡ node.length = omega (arith, p.fits) in
    let inside : ltb node.length 0 ≡ false = ground arith in
    let run =
      read_data_lem fs d.inode_num node 0 image 4194304 p.inode_in p.inode_at p.valid
        (omega (arith, p.fits)) (omega arith) (omega arith) in
    run ∙ rw (inside, whole, slice-whole fs node p.valid)
