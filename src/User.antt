-- ===== src/User.antt =====
-- The user programs of syscalls/ and the system calls that they make. What a call does is an
-- interface, `Calls`: a program is a function of it and of the state of the machine. A buffer on the
-- stack is what its memory held before. `none` is an access outside a buffer.
pub mod Support
pub mod Programs
pub mod Syserr
pub mod SyserrOnKernel
pub mod Grep
pub mod Text
pub mod Interface
pub mod Cat
pub mod OnKernel
pub mod CatOnKernel
pub mod FromCommand
use apoll_os.Prelude.{ℕ, Option, List}

-- The calls of ece391syscall.h, on the states `S`. A call that fills a buffer returns it; -1 is
-- `minus_one`.
pub record Calls (S : Type 0) : Type 0 where
  pub open_file : List ℕ → S → Option (ℕ × S)
  pub close_file : ℕ → S → Option (ℕ × S)
  pub read_file : ℕ → List ℕ → ℕ → S → Option (ℕ × S × List ℕ)
  pub write_file : ℕ → List ℕ → ℕ → S → Option (ℕ × S)
  pub getargs : List ℕ → ℕ → S → Option (ℕ × S × List ℕ)
  pub execute : List ℕ → S → Option (ℕ × S)
