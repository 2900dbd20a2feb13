-- ===== src/Syscalls/Closing.antt =====
-- `close` of student-distrib/syscalls.c, and what the other calls then do with the descriptor.
use apoll_os.Prelude.{
  ℕ, ◌*◌, ◌/◌, ◌%◌, ◌^◌, ◌<◌, bit_and, ◌≡◌, refl, ap, ◌∙◌, arith, true, false, ◌||◌, some, List,
  length, get_elem?, set, lt_of_get_elem?, get_elem?-set_self, store-set, store, minus_one, neg32,
  slt, bit_and-field,
}
use apoll_os.FileOps.{File, FileOps, file_ops}
use apoll_os.Rofs.{file_close}
use apoll_os.Kernel.{Kernel, Pcb}
use apoll_os.Tty.{returns}
use apoll_os.Syscalls.{is_open, set_closed, bad_fd, read, write, close, call_close}
use apoll_os.Syscalls.Descriptors.{is_closed, read-NotOpen}
use apoll_os.Syscalls.Files.{
  IsRunning, with_files, IsRunning-with_files, current_pcb-IsRunning, set_files-IsRunning,
}

-- Bit 0 is the flag of an open file, which is then cleared.
set_closed_lem : (f : File) → f.flags < 2 ^ 32 → set_closed f ≡ record f { flags = f.flags / 2 * 2 }
set_closed_lem f h =
    ap (λ w. record f { flags = w })
      (bit_and-field f.flags 1 31 0 (f.flags / 2) (f.flags % 2) 2147483647 (omega arith)
        (omega arith) (omega arith) refl)

is_open-even :
    (f : File) → f.flags < 2 ^ 32 → is_open (record f { flags = f.flags / 2 * 2 }) ≡ false
is_open-even f h =
    let low : bit_and (f.flags / 2 * 2) 1 ≡ 0 =
      bit_and-field (f.flags / 2 * 2) 0 1 (f.flags / 2) 0 0 1 (omega arith) (omega arith)
        (omega arith) refl in
    rw low

-- For a descriptor from 0 to 7 that the running process has open on a regular file, with its flags
-- in 32 bits, `close` returns 0 and changes only the flags of this descriptor, in which it clears
-- bit 0; after that `read` and `write` into a buffer and `close` on it all return -1 and change
-- neither the kernel nor the buffer.
pub close-NotOpen :
    (cmos : ℕ → ℕ) (k : Kernel) (pid : ℕ) (pcb : Pcb) (fd : ℕ) (f : File) (buf : List ℕ)
    (nbytes : ℕ)
    → IsRunning k pid pcb
    → fd < 8
    → get_elem? pcb.files fd ≡ some f
    → is_open f ≡ true
    → f.flags < 2 ^ 32
    → f.fileops ≡ file_ops
    → let k' = with_files k pid pcb (set pcb.files fd (record f { flags = f.flags / 2 * 2 })) in
      (close cmos fd k ≡ some (0, k'))
      × (read cmos fd (some buf) nbytes k' ≡ some (returns minus_one k' buf))
      × (write cmos fd (some buf) nbytes k' ≡ some (minus_one, k'))
      × (close cmos fd k' ≡ some (minus_one, k'))
unfolding close call_close file_close
close-NotOpen cmos k pid pcb fd f buf nbytes r small at opened word table =
    let f' : File = record f { flags = f.flags / 2 * 2 } in
    let files = set pcb.files fd f' in
    let k' = with_files k pid pcb files in
    let r' = IsRunning-with_files k pid pcb files r in
    let room : fd < length pcb.files = lt_of_get_elem? pcb.files fd f at in
    let good : bad_fd cmos fd ≡ false = ground arith in
    let valid : (neg32 fd || slt 8 fd) ≡ false = ground arith in
    let called : call_close cmos f.fileops.close_fn fd k ≡ some (0, k) =
      ap (λ (o : FileOps). call_close cmos o.close_fn fd k) table ∙ rw valid in
    let stored : store pcb.files fd f' ≡ some files = store-set pcb.files fd f' room in
    let closed = read-NotOpen cmos fd buf nbytes k' (
      is_closed (record pcb { files = files }) f' small
        (current_pcb-IsRunning k' pid (record pcb { files = files }) r')
        (get_elem?-set_self pcb.files fd f' room) (is_open-even f word)) in
    (
      rw (
        good,
        current_pcb-IsRunning k pid pcb r,
        at,
        opened,
        called,
        current_pcb-IsRunning k pid pcb r,
        at,
        set_closed_lem f word,
        stored,
        set_files-IsRunning k pid pcb files r,
      ),
      closed.0,
      closed.1,
      closed.2,
    )
