-- ===== src/Syscalls/Descriptors.antt =====
-- What the calls of student-distrib/syscalls.c do with a descriptor that names no open file.
use apoll_os.Prelude.{ℕ, ◌^◌, ◌≤◌, ◌<◌, ◌≡◌, arith, true, false, some, List, get_elem?, minus_one}
use apoll_os.FileOps.{File}
use apoll_os.Kernel.{Kernel, Pcb}
use apoll_os.Tty.{returns}
use apoll_os.Syscalls.{is_open, current_pcb, bad_fd, read, write, close}

-- The descriptor names no open file of the running process.
pub data NotOpen (fd : ℕ) (k : Kernel) : Type 0 where
  out_of_range : 8 ≤ fd → fd < 2 ^ 32 → NotOpen fd k
  is_closed :
      (pcb : Pcb) (file : File)
      → fd < 8
      → current_pcb k ≡ some pcb
      → get_elem? pcb.files fd ≡ some file
      → is_open file ≡ false
      → NotOpen fd k

-- With a descriptor that is not from 0 to 7, or that names a closed file of the running process,
-- `read` and `write` into a buffer and `close` all return -1 and change neither the kernel nor the
-- buffer.
pub read-NotOpen :
    (cmos : ℕ → ℕ) (fd : ℕ) (buf : List ℕ) (nbytes : ℕ) (k : Kernel)
    → NotOpen fd k
    → (read cmos fd (some buf) nbytes k ≡ some (returns minus_one k buf))
      × (write cmos fd (some buf) nbytes k ≡ some (minus_one, k))
      × (close cmos fd k ≡ some (minus_one, k))
unfolding read write close
read-NotOpen cmos fd buf nbytes k (out_of_range lo hi) =
    let bad : bad_fd cmos fd ≡ true = ground arith in (rw bad, rw bad, rw bad)
read-NotOpen cmos fd buf nbytes k (is_closed pcb file small running here shut) =
    let good : bad_fd cmos fd ≡ false = ground arith in
    (rw (good, running, here, shut), rw (good, running, here, shut), rw (good, running, here, shut))
