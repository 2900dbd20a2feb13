-- ===== src/User/OnKernel.antt =====
-- The calls of the user programs, made on the kernel of student-distrib/: it keeps the contract that
-- a program relies on when it copies a file to the screen.
use apoll_os.Prelude.{
  ℕ, zero, suc, ◌+◌, ◌-◌, ◌/◌, ◌^◌, ◌≤◌, ◌<◌, min, ◌≡◌, refl, sym, ap, ◌∙◌, ◌≢◌, arith, true, false,
  Option, none, some, List, [], ◌∷◌, ◌++◌, map, ◌==◌, length, get_elem?, set, take, drop, drop-drop,
  length-take, length-drop, length-map, lt_of_get_elem?, get_elem?-set_self, get_elem?-set_ne,
  ◌>>=◌,
}
use mathlib.Core.Path.{subst}
use apoll_os.CString.Compare.{NoNul, text, Readable-of_length}
use apoll_os.FileOps.{File, stdout_ops}
use apoll_os.Rofs.{Inode, visible}
use apoll_os.Rofs.Contents.{contents}
use apoll_os.Rofs.ReadData.{slice}
use apoll_os.Rofs.FileRead.{IsOpen, length-contents}
use apoll_os.Screen.{Screen}
use apoll_os.Screen.Bounds.{IsOnScreen}
use apoll_os.Kernel.{Kernel, Pcb}
use apoll_os.Tty.{Reply, waits, returns}
use apoll_os.Tty.Writing.{put_all, put_all-append}
use apoll_os.Execute.{Flow, execute}
use apoll_os.Syscalls
use apoll_os.Syscalls.{is_open}
use apoll_os.Syscalls.Files.{
  IsRunning, OnFile, with_files, IsRunning-with_files, read-OnFile, write-stdout,
}
use apoll_os.User.Cat.{cat_loop-Shows}
use apoll_os.User.Programs.{cat_loop}
use apoll_os.User.{Calls}
use apoll_os.User.Interface.{FileCalls}

-- A read that has to wait for an interrupt has no result here.
abbrev pub finished : Option Reply → Option (ℕ × Kernel × List ℕ)
finished none = none
finished (some waits) = none
finished (some (returns ret k buf)) = some (ret, k, buf)

-- `cmos` is what a register of the clock reads as, and `run` what becomes of a program that is
-- started, up to the return of `execute`.
abbrev pub kernel_calls : (ℕ → ℕ) → (Flow → Option (ℕ × Kernel)) → Calls Kernel
kernel_calls cmos run = record {
  open_file = λ name k. Syscalls.open_file cmos (some name) k;
  close_file = λ fd k. Syscalls.close cmos fd k;
  read_file = λ fd buf n k. finished (Syscalls.read cmos fd (some buf) n k);
  write_file = λ fd buf n k. Syscalls.write cmos fd (some buf) n k;
  getargs = λ buf n k. Syscalls.getargs (some buf) n k >>= λ (r : ℕ × List ℕ). some (r.0, k, r.1);
  execute = λ command k. execute cmos (some command) k >>= run;
}

-- The running process has the rest of a file to read, its standard output is the screen, and the
-- screen is what the text `out` makes of `start`.
pub record Copies (start : Screen) (k : Kernel) (fd : ℕ) (rest out : List ℕ) : Type 0 where
  pub pid : ℕ
  pub pcb : Pcb
  pub file : File
  pub node : Inode
  pub output : File
  pub running : IsRunning k pid pcb
  pub on_file : OnFile k pcb fd file node
  pub other : fd ≢ 1
  pub output_at : get_elem? pcb.files 1 ≡ some output
  pub output_open : is_open output ≡ true
  pub output_table : output.fileops ≡ stdout_ops
  pub left : rest ≡ map visible (drop file.pos (contents k.fs node))
  pub on : IsOnScreen k.screen
  pub shown : put_all out start ≡ some k.screen

visible-not_nul : (c : ℕ) → visible c ≢ 0
visible-not_nul c e = ground arith

NoNul-visible : (bytes : List ℕ) → NoNul (map visible bytes)
NoNul-visible [] = tt
NoNul-visible (c ∷ bytes) = (visible-not_nul c, NoNul-visible bytes)

take-map : (n : ℕ) (xs : List ℕ) → take n (map visible xs) ≡ map visible (take n xs)
take-map zero xs = refl
take-map (suc n) [] = refl
take-map (suc n) (x ∷ xs) = ap (λ t. visible x ∷ t) (take-map n xs)

drop-map : (n : ℕ) (xs : List ℕ) → drop n (map visible xs) ≡ map visible (drop n xs)
drop-map zero xs = refl
drop-map (suc n) [] = refl
drop-map (suc n) (x ∷ xs) = drop-map n xs

take-min : (n : ℕ) (xs : List ℕ) → take (min n (length xs)) xs ≡ take n xs
take-min zero xs = let e : min 0 (length xs) ≡ 0 = omega arith in rw e
take-min (suc n) [] = let e : min (suc n) 0 ≡ 0 = omega arith in rw e
take-min (suc n) (x ∷ xs) =
    let e : min (suc n) (suc (length xs)) ≡ suc (min n (length xs)) = omega arith in
    rw (e, take-min n xs)

drop-min : (n : ℕ) (xs : List ℕ) → drop (min n (length xs)) xs ≡ drop n xs
drop-min zero xs = let e : min 0 (length xs) ≡ 0 = omega arith in rw e
drop-min (suc n) [] = let e : min (suc n) 0 ≡ 0 = omega arith in rw e
drop-min (suc n) (x ∷ xs) =
    let e : min (suc n) (suc (length xs)) ≡ suc (min n (length xs)) = omega arith in
    rw (e, drop-min n xs)

text-all : (n : ℕ) (buf : List ℕ) → n ≤ length buf → NoNul (take n buf) → text n buf ≡ take n buf
text-all zero buf h plain = refl
text-all (suc n) [] h plain = refl
text-all (suc n) (c ∷ buf) h plain =
    let more : (c == 0) ≡ false = ground (arith, plain.0) in
    rw (more, text-all n buf (omega arith) plain.1)

module _ (cmos : ℕ → ℕ) (run : Flow → Option (ℕ × Kernel)) (start : Screen) (k : Kernel) (fd : ℕ)
    (rest out : List ℕ) (c : Copies start k fd rest out) where
  -- As many bytes are left as there are in `rest`.
  length-left : c.node.length - c.file.pos ≡ length rest
  length-left = omega (
    arith,
    ap length c.left,
    length-map (drop c.file.pos (contents k.fs c.node)) visible,
    length-drop c.file.pos (contents k.fs c.node),
    length-contents k.fs c.node c.on_file.opened.valid,
  )

  module _ (buf : List ℕ) (n : ℕ) (room : n ≤ length buf) (small : n < 2 ^ 31) where
    abbrev moved : ℕ
    moved = min n (c.node.length - c.file.pos)

    abbrev moved_file : File
    moved_file = record c.file { pos = c.file.pos + moved }

    abbrev after_read : Kernel
    after_read = with_files k c.pid c.pcb (set c.pcb.files fd moved_file)

    moved_lem : moved ≡ min n (length rest)
    moved_lem = ap (min n) length-left

    bytes_read : map visible (slice k.fs c.node c.file.pos moved) ≡ take n rest
    bytes_read =
        sym (take-map moved (drop c.file.pos (contents k.fs c.node)))
        ∙ ap (take moved) (sym c.left)
        ∙ ap (λ t. take t rest) moved_lem
        ∙ take-min n rest

    bytes_left : drop n rest ≡ map visible (drop (c.file.pos + moved) (contents k.fs c.node))
    bytes_left =
        sym (drop-min n rest)
        ∙ ap (λ t. drop t rest) (sym moved_lem)
        ∙ ap (drop moved) c.left
        ∙ drop-map moved (drop c.file.pos (contents k.fs c.node))
        ∙ ap (map visible) (drop-drop moved c.file.pos (contents k.fs c.node))

    IsOpen-after_read : IsOpen k.fs (set c.pcb.files fd moved_file) fd moved_file c.node
    IsOpen-after_read = record {
      small = c.on_file.opened.small;
      entry =
          get_elem?-set_self c.pcb.files fd moved_file
            (lt_of_get_elem? c.pcb.files fd c.file c.on_file.opened.entry);
      inode_in = c.on_file.opened.inode_in;
      inode_at = c.on_file.opened.inode_at;
      valid = c.on_file.opened.valid;
      fits = c.on_file.opened.fits;
    }

    Copies-after_read : Copies start after_read fd (drop n rest) out
    Copies-after_read = record {
      pid = c.pid;
      pcb = record c.pcb { files = set c.pcb.files fd moved_file };
      file = moved_file;
      node = c.node;
      output = c.output;
      running = IsRunning-with_files k c.pid c.pcb (set c.pcb.files fd moved_file) c.running;
      on_file = record {
        opened = IsOpen-after_read;
        flag = c.on_file.flag;
        table = c.on_file.table;
        inside = omega (arith, c.on_file.inside);
      };
      other = c.other;
      output_at = get_elem?-set_ne c.pcb.files fd 1 moved_file c.other ∙ c.output_at;
      output_open = c.output_open;
      output_table = c.output_table;
      left = bytes_left;
      on = c.on;
      shown = c.shown;
    }

    read-Copies :
        (k' : Kernel) × (finished (Syscalls.read cmos fd (some buf) n k)
          ≡ some (min n (length rest), k', take n rest ++ drop (min n (length rest)) buf))
        × Copies start k' fd (drop n rest) out
    read-Copies =
        let done =
          read-OnFile cmos k c.pid c.pcb fd c.file c.node buf n c.running c.on_file small room in
        (
          after_read,
          ap finished done
              ∙ (λ i. some (moved_lem i, after_read, bytes_read i ++ drop (moved_lem i) buf)),
          Copies-after_read,
        )

    write-Copies :
        NoNul (take n buf)
        → (k' : Kernel) × (Syscalls.write cmos 1 (some buf) n k ≡ some (n, k'))
          × Copies start k' fd rest (out ++ take n buf)
    write-Copies plain =
        let all = text-all n buf room plain in
        let (s', done, shown, on) =
          write-stdout cmos k c.pid c.pcb c.output buf n c.running c.output_at c.output_open
            c.output_table (Readable-of_length n buf room) small c.on in
        let count : length (text n buf) ≡ n = ap length all ∙ omega (arith, length-take n buf) in
        (
          record k { screen = s' },
          done ∙ ap (λ t. some (t, record k { screen = s' })) count,
          record {
            pid = c.pid;
            pcb = c.pcb;
            file = c.file;
            node = c.node;
            output = c.output;
            running = record {
              small = c.running.small;
              stack = c.running.stack;
              block = c.running.block;
            };
            on_file = record {
              opened = c.on_file.opened;
              flag = c.on_file.flag;
              table = c.on_file.table;
              inside = c.on_file.inside;
            };
            other = c.other;
            output_at = c.output_at;
            output_open = c.output_open;
            output_table = c.output_table;
            left = c.left;
            on = on;
            shown =
                put_all-append out (take n buf) start k.screen c.shown
                ∙ ap (λ t. put_all t k.screen) (sym all)
                ∙ shown;
          },
        )

-- The kernel keeps the contract of `FileCalls`.
pub kernel_files :
    (cmos : ℕ → ℕ) (run : Flow → Option (ℕ × Kernel)) → Screen → FileCalls (kernel_calls cmos run)
kernel_files cmos run start = record {
  Shows = Copies start;
  read_lem = λ k fd rest out buf n c room small.
      read-Copies cmos run start k fd rest out c buf n room small;
  write_lem = λ k fd rest out buf n c room small plain.
      write-Copies cmos run start k fd rest out c buf n room small plain;
  text = λ k fd rest out c.
      subst NoNul (sym c.left) (NoNul-visible (drop c.file.pos (contents k.fs c.node)));
}

pub Shows-Copies :
    (cmos : ℕ → ℕ) (run : Flow → Option (ℕ × Kernel)) (start : Screen) (k : Kernel) (fd : ℕ)
    (rest out : List ℕ)
    → Copies start k fd rest out
    → (kernel_files cmos run start).Shows k fd rest out
unfolding kernel_files
Shows-Copies cmos run start k fd rest out c = c

-- The loop of `cat` on the kernel.
pub cat_loop-Copies :
    (cmos : ℕ → ℕ) (run : Flow → Option (ℕ × Kernel)) (start : Screen) (fuel fd : ℕ)
    (buf rest out : List ℕ) (k : Kernel)
    → Copies start k fd rest out
    → length buf ≡ 1024
    → (length rest + 1023) / 1024 < fuel
    → (k' : Kernel) × (cat_loop (kernel_calls cmos run) fuel fd buf k ≡ some (0, k'))
      × Copies start k' fd [] (out ++ rest)
unfolding kernel_files
cat_loop-Copies cmos run start =
    cat_loop-Shows (kernel_calls cmos run) (kernel_files cmos run start)
