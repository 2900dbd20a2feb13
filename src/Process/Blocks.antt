-- ===== src/Process/Blocks.antt =====
-- The control block that `create_pcb` of student-distrib/syscalls.c makes.
use apoll_os.Prelude.{
  ℕ, zero, suc, ◌≤◌, ◌<◌, ◌≡◌, refl, inl, inr, arith, false, some, List, [], ◌∷◌, ◌==◌,
  if◌then◌else◌, length, get_elem?, set, replicate, All, All-get_elem?, get_elem?-in, neg32,
}
use apoll_os.FileOps.{File, stdin_ops, stdout_ops, fail_ops}
use apoll_os.Kernel.{Kernel, Pcb, Terminal}
use apoll_os.Process.{create_pcb, create_files, closed_files, get_new_pid, term_index}
use apoll_os.Process.Pids.{AllTaken, IsFresh, get_new_pid_lem}

-- The files of a process that has opened none: its standard input and output are the terminal.
pub record NewFiles (files : List File) : Type 0 where
  pub size : length files ≡ 8
  pub input : File
  pub input_at : get_elem? files 0 ≡ some input
  pub input_flag : input.flags ≡ 1
  pub input_table : input.fileops ≡ stdin_ops
  pub output : File
  pub output_at : get_elem? files 1 ≡ some output
  pub output_flag : output.flags ≡ 1
  pub output_table : output.fileops ≡ stdout_ops
  pub others :
      (fd : ℕ) → 2 ≤ fd → fd < 8 → (f : File) × (get_elem? files fd ≡ some f) × (f.flags ≡ 0)
  pub flags : All (λ (f : File). f.flags ≤ 1) files

length-closed_files : (fs : List File) → length (closed_files fs) ≡ length fs
unfolding closed_files
length-closed_files [] = refl
length-closed_files (f ∷ fs) = omega (arith, length-closed_files fs)

closed_files-flags : (fs : List File) → All (λ (f : File). f.flags ≤ 1) (closed_files fs)
unfolding closed_files
closed_files-flags [] = tt
closed_files-flags (f ∷ fs) = (omega arith, closed_files-flags fs)

closed_files-closed :
    (fs : List File) (i : ℕ)
    → i < length fs
    → (f : File) × (get_elem? (closed_files fs) i ≡ some f) × (f.flags ≡ 0)
unfolding closed_files
closed_files-closed [] i h = absurd (omega arith)
closed_files-closed (f ∷ fs) zero h =
    (record { inode = 0; flags = 0; pos = 0; fileops = fail_ops }, refl, refl)
closed_files-closed (f ∷ fs) (suc i) h = closed_files-closed fs i (omega arith)

create_files-NewFiles :
    (old : List File)
    → length old ≡ 8
    → (files : List File) × (create_files old ≡ some files) × NewFiles files
unfolding create_files
create_files-NewFiles [] h = absurd (omega arith)
create_files-NewFiles (a ∷ []) h = absurd (omega arith)
create_files-NewFiles (a ∷ (b ∷ rest)) h =
    let input = record a { fileops = stdin_ops; flags = 1; pos = 0 } in
    let output = record b { fileops = stdout_ops; flags = 1; pos = 0 } in
    (
      input ∷ output ∷ closed_files rest,
      refl,
      record {
        size = omega (arith, length-closed_files rest);
        input = input;
        input_at = refl;
        input_flag = refl;
        input_table = refl;
        output = output;
        output_at = refl;
        output_flag = refl;
        output_table = refl;
        others = later a b rest h;
        flags = (omega arith, (omega arith, closed_files-flags rest));
      },
    )
  where
    later :
        (a b : File) (rest : List File)
        → length (a ∷ (b ∷ rest)) ≡ 8
        → (fd : ℕ) → 2 ≤ fd
        → fd < 8
        → (f : File) × (get_elem?
              (record a { fileops = stdin_ops; flags = 1; pos = 0 }
                ∷ record b { fileops = stdout_ops; flags = 1; pos = 0 }
                ∷ closed_files rest)
              fd
            ≡ some f)
          × (f.flags ≡ 0)
    later a b rest h zero lo hi = absurd (omega arith)
    later a b rest h (suc zero) lo hi = absurd (omega arith)
    later a b rest h (suc (suc i)) lo hi = closed_files-closed rest i (omega arith)

-- There are six blocks, each with its files and its arguments.
pub record HasBlocks (pcbs : List Pcb) : Type 0 where
  pub six : length pcbs ≡ 6
  pub whole : All (λ (p : Pcb). (length p.files ≡ 8) × (length p.args ≡ 128)) pcbs

-- The block that has been made for a process, of the process that the terminal ran before.
pub record NewBlock (k : Kernel) (t : Terminal) (pid flags : ℕ) (k' : Kernel) : Type 0 where
  pub fresh : IsFresh k.processes_flags pid flags
  pub handed_out : get_new_pid k.processes_flags ≡ (pid, flags)
  pub old : Pcb
  pub old_at : get_elem? k.pcbs pid ≡ some old
  pub files : List File
  pub new_files : NewFiles files
  pub made : k' ≡ record k {
    processes_flags = flags;
    pcbs = set k.pcbs pid (record old {
      pid = pid;
      parent_pid = if t.num_processes == 0 then pid else t.term_pid;
      files = files;
      args = replicate 128 0;
    });
  }

-- With a free pid, the control blocks in place and the current terminal in the table, `create_pcb`
-- makes the block of the lowest free pid.
pub create_pcb-NewBlock :
    (k : Kernel) (t : Terminal)
    → k.processes_flags < 256
    → ¬ AllTaken k.processes_flags
    → HasBlocks k.pcbs
    → get_elem? k.terminal (term_index k) ≡ some t
    → (pid : ℕ) × (flags : ℕ) × (k' : Kernel) × (create_pcb k ≡ some (some pid, k'))
      × NewBlock k t pid flags k'
unfolding create_pcb
create_pcb-NewBlock k t byte free blocks at = elim (get_new_pid_lem k.processes_flags byte) [
  | inl (full, none_left) ↦ absurd (free full)
  | inr (not_full, fresh) ↦
      let new = get_new_pid k.processes_flags in
      let pid = new.0 in
      let (old, old_at) = get_elem?-in k.pcbs pid (omega (arith, blocks.six, fresh.in_range)) in
      let shape =
        All-get_elem? (λ (p : Pcb). (length p.files ≡ 8) × (length p.args ≡ 128)) k.pcbs pid old
          blocks.whole old_at in
      let (files, run, are_new) = create_files-NewFiles old.files shape.0 in
      let positive : neg32 pid ≡ false = ground (arith, fresh.in_range) in
      (
        pid,
        new.1,
        record k {
          processes_flags = new.1;
          pcbs = set k.pcbs pid (record old {
            pid = pid;
            parent_pid = if t.num_processes == 0 then pid else t.term_pid;
            files = files;
            args = replicate 128 0;
          });
        },
        rw (positive, old_at, at, run),
        record {
          fresh = fresh;
          handed_out = refl;
          old = old;
          old_at = old_at;
          files = files;
          new_files = are_new;
          made = refl;
        },
      )
]
