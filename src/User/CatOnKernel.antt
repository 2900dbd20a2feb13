-- ===== src/User/CatOnKernel.antt =====
-- `cat` of syscalls/ece391cat.c on the kernel of student-distrib/: from the arguments of the process
-- to the video page.
use apoll_os.Prelude.{
  ℕ, ◌+◌, ◌/◌, ◌^◌, ◌≤◌, ◌<◌, bit_and, bit_or, ◌≡◌, refl, sym, ap, ◌∙◌, ◌≢◌, arith, Bool, true,
  false, Option, some, List, [], ◌∷◌, ◌++◌, map, ◌==◌, ◌!=◌, length, get_elem?, set, take, drop,
  All, All-get_elem?, length-append, length-drop, length-map, get_elem?-set_self, get_elem?-set_ne,
  minus_one, all_below, all_below_sound, take_all,
}
use apoll_os.CString.Compare.{NoNul, strlen_lem}
use apoll_os.CString.Copy.{memcpy_lem}
use apoll_os.CString.{strlen}
use apoll_os.FileOps.{File, stdout_ops}
use apoll_os.Rofs.{Inode, Dentry, read_dentry_by_name, visible}
use apoll_os.Rofs.Contents.{IsFile, contents}
use apoll_os.Rofs.FileRead.{length-contents}
use apoll_os.Screen.Bounds.{IsOnScreen}
use apoll_os.Kernel.{Kernel, Pcb}
use apoll_os.Execute.{Flow}
use apoll_os.Tty.Writing.{put_all}
use apoll_os.Syscalls.{getargs, is_open}
use apoll_os.Syscalls.OpenFile.{Opened, opened, all_taken, opened_file, open_file-found}
use apoll_os.Syscalls.Files.{IsRunning, with_files, IsRunning-with_files, current_pcb-IsRunning}
use apoll_os.User.Programs.{cat}
use apoll_os.User.OnKernel.{kernel_calls, Copies, cat_loop-Copies}

-- A process that was started with the argument `arg`, as `cat` finds it: its standard output is the
-- screen, and a descriptor is free.
pub record IsReady (k : Kernel) (pid : ℕ) (pcb : Pcb) (arg : List ℕ) : Type 0 where
  pub running : IsRunning k pid pcb
  pub rest : List ℕ
  pub args : pcb.args ≡ arg ++ (0 ∷ rest)
  pub args_size : length pcb.args ≡ 128
  pub plain : NoNul arg
  pub some_arg : 0 < length arg
  pub size : length pcb.files ≡ 8
  pub flags : All (λ (f : File). f.flags ≤ 1) pcb.files
  pub output : File
  pub output_at : get_elem? pcb.files 1 ≡ some output
  pub output_open : is_open output ≡ true
  pub output_table : output.fileops ≡ stdout_ops
  pub free : ℕ
  pub free_file : File
  pub free_range : (2 ≤ free) × (free < 8)
  pub free_at : get_elem? pcb.files free ≡ some free_file
  pub closed : is_open free_file ≡ false
  pub on : IsOnScreen k.screen

-- The file that the name stands for.
pub record Finds (k : Kernel) (name : List ℕ) (node : Inode) : Type 0 where
  pub entry : Dentry
  pub found : read_dentry_by_name k.fs name ≡ some (some entry)
  pub regular : entry.file_type ≡ 2
  pub inode_in : entry.inode_num < k.fs.boot_block.num_inodes
  pub inode_at : get_elem? k.fs.inodes entry.inode_num ≡ some node
  pub valid : IsFile k.fs node
  pub fits : node.length < 2 ^ 31

-- `getargs` leaves the whole argument buffer.
getargs-IsReady :
    (k : Kernel) (pid : ℕ) (pcb : Pcb) (arg stack : List ℕ)
    → IsReady k pid pcb arg
    → length stack ≡ 1024
    → getargs (some stack) 1024 k ≡ some (0, pcb.args ++ drop 128 stack)
unfolding getargs
getargs-IsReady k pid pcb arg stack r size =
    let whole : length (arg ++ (0 ∷ r.rest)) ≡ 128 = sym (ap length r.args) ∙ r.args_size in
    let len : strlen pcb.args ≡ some (length arg) =
      ap strlen r.args
      ∙ strlen_lem arg r.rest r.plain (omega (arith, length-append arg (0 ∷ r.rest), whole)) in
    let not_zero : (length arg == 0) ≡ false = ground (arith, r.some_arg) in
    let copied = memcpy_lem 128 stack pcb.args (omega (arith, size)) (omega (arith, r.args_size)) in
    let all : take 128 pcb.args ≡ pcb.args = take_all 128 pcb.args (omega (arith, r.args_size)) in
    rw (current_pcb-IsRunning k pid pcb r.running, len, not_zero, copied, all)

contradiction : (b : Bool) → b ≡ true → b ≡ false → ⊥
contradiction b p q = cc

opened_table : all_below 2 (λ f. bit_and (bit_or f 1) 1 != 0) ≡ true
unfolding all_below
opened_table = refl

opened_flag : (f : File) (n : ℕ) → f.flags ≤ 1 → is_open (opened_file f n) ≡ true
opened_flag f n h = all_below_sound 2 _ f.flags opened_table (omega arith)

-- The state behind `open`, as the loop of `cat` starts from it.
Copies-opened :
    (k : Kernel) (pid : ℕ) (pcb : Pcb) (arg : List ℕ) (name : List ℕ) (node : Inode) (fd : ℕ)
    (f : File)
    → IsReady k pid pcb arg
    → (e : Finds k name node) → (2 ≤ fd) × (fd < 8)
    → get_elem? pcb.files fd ≡ some f
    → Copies k.screen
        (with_files k pid pcb (set pcb.files fd (opened_file f e.entry.inode_num)))
        fd
        (map visible (contents k.fs node))
        []
Copies-opened k pid pcb arg name node fd f r e (lo, hi) at =
    let new = opened_file f e.entry.inode_num in
    let room : fd < length pcb.files = omega (arith, r.size) in
    let other : fd ≢ 1 = λ same. absurd (omega arith) in
    record {
      pid = pid;
      pcb = record pcb { files = set pcb.files fd new };
      file = new;
      node = node;
      output = r.output;
      running = IsRunning-with_files k pid pcb (set pcb.files fd new) r.running;
      on_file = record {
        opened = record {
          small = hi;
          entry = get_elem?-set_self pcb.files fd new room;
          inode_in = e.inode_in;
          inode_at = e.inode_at;
          valid = record {
            listed = e.valid.listed;
            present = e.valid.present;
            whole = e.valid.whole;
          };
          fits = e.fits;
        };
        flag =
            opened_flag f e.entry.inode_num
              (All-get_elem? (λ (g : File). g.flags ≤ 1) pcb.files fd f r.flags at);
        table = refl;
        inside = omega arith;
      };
      other = other;
      output_at = get_elem?-set_ne pcb.files fd 1 new other ∙ r.output_at;
      output_open = r.output_open;
      output_table = r.output_table;
      left = refl;
      on = r.on;
      shown = refl;
    }

-- What `cat` comes to: it ends with status 0, and the screen shows `bytes`.
abbrev pub Prints : Option (ℕ × Kernel) → Kernel → List ℕ → Type 0
Prints o k bytes = (k' : Kernel) × (o ≡ some (0, k')) × (put_all bytes k.screen ≡ some k'.screen)

fd-not_error : (fd : ℕ) → fd < 8 → (fd == minus_one) ≡ false
fd-not_error fd h = ground arith

cat-Prints :
    (cmos : ℕ → ℕ) (run : Flow → Option (ℕ × Kernel)) (fuel : ℕ) (k : Kernel) (pid : ℕ) (pcb : Pcb)
    (arg stack : List ℕ) (node : Inode)
    → IsReady k pid pcb arg
    → length stack ≡ 1024
    → (e : Finds k (pcb.args ++ drop 128 stack) node) → (node.length + 1023) / 1024 < fuel
    → Opened cmos (pcb.args ++ drop 128 stack) e.entry k pid pcb
    → Prints (cat (kernel_calls cmos run) fuel stack k) k (map visible (contents k.fs node))
unfolding cat
cat-Prints cmos run fuel k pid pcb arg stack node r size e enough (all_taken before made) =
    let busy = before r.free r.free_file r.free_range.0 r.free_range.1 r.free_at in
    absurd (contradiction (is_open r.free_file) busy r.closed)
cat-Prints cmos run fuel k pid pcb arg stack node r size e enough
      (opened fd f (lo, hi) at free before made) =
    let name = pcb.args ++ drop 128 stack in
    let bytes = map visible (contents k.fs node) in
    let k1 = with_files k pid pcb (set pcb.files fd (opened_file f e.entry.inode_num)) in
    let width : length name ≡ 1024 =
      omega (
        arith,
        length-append pcb.args (drop 128 stack),
        length-drop 128 stack,
        r.args_size,
        size,
      ) in
    let count : length bytes ≡ node.length =
      length-map (contents k.fs node) visible ∙ length-contents k.fs node e.valid in
    let (k2, looped, end) =
      cat_loop-Copies cmos run k.screen fuel fd name bytes [] k1
        (Copies-opened k pid pcb arg name node fd f r e (lo, hi) at) width (omega (arith, count)) in
    (
      k2,
      rw (getargs-IsReady k pid pcb arg stack r size, made, fd-not_error fd hi, looped),
      end.shown,
    )

-- For a process that runs on its own stack with an argument text, with standard output on the
-- screen and a free descriptor, whose argument buffer, as `cat` completes it to 1024 bytes, finds
-- a regular, well-formed file of less than 2 ^ 31 bytes, `cat` on the modelled system calls ends
-- with status 0 within one round for each 1024 bytes and one more, and the screen is what putting
-- the visible form of the file's bytes, one after the other, makes of it.
pub cat-contents :
    (cmos : ℕ → ℕ) (run : Flow → Option (ℕ × Kernel)) (fuel : ℕ) (k : Kernel) (pid : ℕ) (pcb : Pcb)
    (arg stack : List ℕ) (node : Inode)
    → IsReady k pid pcb arg
    → length stack ≡ 1024
    → Finds k (pcb.args ++ drop 128 stack) node
    → (node.length + 1023) / 1024 < fuel
    → Prints (cat (kernel_calls cmos run) fuel stack k) k (map visible (contents k.fs node))
cat-contents cmos run fuel k pid pcb arg stack node r size e enough =
    cat-Prints cmos run fuel k pid pcb arg stack node r size e enough (
      open_file-found cmos (pcb.args ++ drop 128 stack) e.entry k pid pcb r.running r.size e.found
        e.regular)
