-- ===== src/Execute/Loading.antt =====
-- `execute` of student-distrib/syscalls.c with a program of the file system: the process that it
-- makes, and the memory that it enters.
use apoll_os.Prelude.{
  drop_all, ℕ, ◌+◌, ◌-◌, ◌*◌, ◌≤◌, ◌<◌, min, bit_or, ◌≡◌, refl, sym, ap, ◌∙◌, arith, true, false,
  Option, some, List, [], ◌∷◌, ◌++◌, ltb, ◌==◌, if◌then◌else◌, length, get_elem?, set, drop,
  replicate, All-get_elem?, length-set, get_elem?-in, lt_of_get_elem?, get_elem?-set_self,
  get_elem?-set_ne, store-set, store, u8, u32,
}
use mathlib.Core.List.{append-nil}
use apoll_os.CString.Compare.{NoNul}
use apoll_os.Rofs.{Dentry, Inode}
use apoll_os.Rofs.Contents.{contents}
use apoll_os.Rofs.ReadData.{slice, read_data_lem}
use apoll_os.Rofs.FileRead.{length-contents}
use apoll_os.Paging.{remap, refresh_tbl}
use apoll_os.Kernel.{Kernel, Pcb, Terminal, kernel_ds, physical_start, four_mb_block}
use apoll_os.Process.{term_index}
use apoll_os.Process.Blocks.{NewBlock, create_pcb-NewBlock}
use apoll_os.Execute.{Flow, entered, start_process, load_file, run_file, stack_top}
use apoll_os.Execute.Command.{padded}
use apoll_os.Execute.Arguments.{Tail, arguments-Tail, NoNul-Tail, strncpy-padded}
use apoll_os.Execute.Started.{IsProgram, HasRoom, Started, read_data-whole}

start_process-Started :
    (k : Kernel) (t : Terminal) (d : Dentry) (node : Inode) (eip : ℕ) (arg : List ℕ) (pid flags : ℕ)
    (k1 : Kernel)
    → HasRoom k node.length t
    → IsProgram k.fs d node eip
    → NoNul arg
    → length arg < 128
    → NewBlock k t pid flags k1
    → (pcb : Pcb) × (k' : Kernel) × (start_process d eip (padded arg) pid k1
        ≡ some (entered eip k'))
      × Started k t (contents k.fs node) arg pid pcb k'
unfolding start_process remap refresh_tbl
start_process-Started k t d node eip arg pid flags k1 r p plain short b =
    let i = term_index k in
    let in_range = b.fresh.in_range in
    let made : Pcb = record b.old {
      pid = pid;
      parent_pid = if t.num_processes == 0 then pid else t.term_pid;
      files = b.files;
      args = replicate 128 0;
    } in
    let block : Pcb = record made { parent_ebp = k.ebp; parent_esp = k.esp; args = padded arg } in
    let k2 = record k { processes_flags = flags; pcbs = set k.pcbs pid made } in
    let counted = record t { num_processes = u32 (t.num_processes + 1); term_pid = u8 pid } in
    let term_room = lt_of_get_elem? k.terminal i t r.terminal_at in
    let entry = bit_or (u32 (physical_start + pid * four_mb_block)) 0x87 in
    let mapped : store k.paging.page_dir 32 entry ≡ some (set k.paging.page_dir 32 entry) =
      store-set k.paging.page_dir 32 entry (omega (arith, r.directory)) in
    let (image, image_at) = get_elem?-in k.images pid (omega (arith, r.six, in_range)) in
    let large =
      All-get_elem? (λ (m : List ℕ). node.length ≤ length m) k.images pid image r.room image_at in
    let loaded = contents k.fs node ++ drop node.length image in
    let block_room : pid < length k.pcbs = omega (arith, r.blocks.six, in_range) in
    let made_at : get_elem? (set k.pcbs pid made) pid ≡ some made =
      get_elem?-set_self k.pcbs pid made block_room in
    let small : u8 pid ≡ pid = omega (arith, in_range) in
    let top : stack_top pid ≡ 0x800000 - 0x2000 * pid - 4 = omega (arith, in_range) in
    let k' = record k2 {
      terminal = set k.terminal i counted;
      paging = refresh_tbl (record k.paging { page_dir = set k.paging.page_dir 32 entry });
      images = set k.images pid loaded;
      tss_ss0 = kernel_ds;
      tss_esp0 = stack_top pid;
      pcbs = set (set k.pcbs pid made) pid block;
      interrupts = true;
    } in
    let run : start_process d eip (padded arg) pid k2 ≡ some (entered eip k') = rw (
      r.terminal_at,
      mapped,
      image_at,
      read_data-whole k.fs d node eip image p large,
      made_at,
      strncpy-padded (replicate 128 0) arg refl plain short,
    ) in
    (
      block,
      k',
      ap (start_process d eip (padded arg) pid) b.made ∙ run,
      record {
        fresh = b.fresh;
        handed_out = b.handed_out;
        block =
            get_elem?-set_self (set k.pcbs pid made) pid block
              (omega (arith, block_room, length-set k.pcbs pid made));
        files = b.new_files;
        args = refl;
        own_pid = refl;
        parent = refl;
        parent_stack = refl;
        parent_frame = refl;
        other_blocks = λ j ne.
            get_elem?-set_ne (set k.pcbs pid made) pid j block ne
            ∙ get_elem?-set_ne k.pcbs pid j made ne;
        old_image = image;
        old_image_at = image_at;
        image =
            get_elem?-set_self k.images pid loaded (omega (arith, r.six, in_range))
            ∙ ap (λ n. some (contents k.fs node ++ drop n image))
                (sym (length-contents k.fs node p.valid));
        other_images = λ j ne. get_elem?-set_ne k.images pid j loaded ne;
        memory = rw mapped;
        stack = top;
        term =
            get_elem?-set_self k.terminal i counted term_room
            ∙ ap (λ n. some (record t { num_processes = u32 (t.num_processes + 1); term_pid = n }))
                small;
        terminals = length-set k.terminal i counted;
        same_fs = refl;
        same_screen = refl;
        same_current = refl;
        interrupts = refl;
      },
    )

-- A process that `load_file` or what calls it has started.
abbrev pub Starts : Option Flow → Kernel → Terminal → ℕ → List ℕ → List ℕ → Type 0
Starts o k t eip program arg =
    (pid : ℕ) × (pcb : Pcb) × (k' : Kernel) × (o ≡ some (entered eip k'))
    × Started k t program arg pid pcb k'

load_file-Starts :
    (k : Kernel) (t : Terminal) (d : Dentry) (node : Inode) (eip : ℕ) (tail arg buffer : List ℕ)
    → HasRoom k node.length t
    → IsProgram k.fs d node eip
    → Tail tail arg
    → length buffer ≡ 4
    → Starts (load_file d tail buffer k) k t eip (contents k.fs node) arg
unfolding load_file
load_file-Starts k t d node eip tail arg buffer r p split size =
    let (plain, short) = NoNul-Tail tail arg split in
    let (pid, flags, k1, created, b) =
      create_pcb-NewBlock k t r.byte r.free r.blocks r.terminal_at in
    let (pcb, k', run, started) =
      start_process-Started k t d node eip arg pid flags k1 r p plain short b in
    let four : min 4 (node.length - 24) ≡ 4 = omega (arith, p.long) in
    let inside : ltb node.length 24 ≡ false = ground (arith, p.long) in
    let none_left : drop 4 buffer ≡ [] = drop_all 4 buffer (omega (arith, size)) in
    let word =
      read_data_lem k.fs d.inode_num node 24 buffer 4 p.inode_in p.inode_at p.valid
        (omega (arith, p.fits)) (omega arith) (omega (arith, size)) in
    (
      pid,
      pcb,
      k',
      rw
          (
            arguments-Tail tail arg split,
            word,
            inside,
            four,
            none_left,
            append-nil (slice k.fs node 24 4),
            p.first,
            created,
          )
          run,
      started,
    )

pub run_file-Starts :
    (k : Kernel) (t : Terminal) (d : Dentry) (node : Inode) (eip : ℕ) (tail arg : List ℕ)
    → HasRoom k node.length t
    → IsProgram k.fs d node eip
    → Tail tail arg
    → Starts (run_file d tail k) k t eip (contents k.fs node) arg
unfolding run_file
run_file-Starts k t d node eip tail arg r p split =
    let head = 0x7f ∷ 0x45 ∷ 0x4c ∷ 0x46 ∷ [] in
    let four : min 4 (node.length - 0) ≡ 4 = omega (arith, p.long) in
    let inside : ltb node.length 0 ≡ false = ground arith in
    let magic =
      read_data_lem k.fs d.inode_num node 0 (replicate 4 0) 4 p.inode_in p.inode_at p.valid
        (omega (arith, p.fits)) (omega arith) (omega arith) in
    let (pid, pcb, k', run, started) =
      load_file-Starts k t d node eip tail arg head r p split refl in
    (pid, pcb, k', rw (magic, inside, four, p.magic, r.can) run, started)
