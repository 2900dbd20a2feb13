-- ===== src/FileOps.antt =====
-- The open files of a process and their operation tables: `file_t` and `fileops_t` of
-- student-distrib/syscalls.h, and the tables of student-distrib/syscalls.c.
use apoll_os.Prelude.{ℕ}

-- The functions that a table can hold.
pub data Fn : Type 0 where
  terminal_open terminal_read terminal_write : Fn
  rtc_open rtc_close rtc_read rtc_write : Fn
  dir_open dir_close dir_read : Fn
  file_open file_close file_read : Fn
  fail : Fn

pub record FileOps : Type 0 where
  pub open_fn : Fn
  pub close_fn : Fn
  pub read_fn : Fn
  pub write_fn : Fn

pub record File : Type 0 where
  pub inode : ℕ
  pub flags : ℕ
  pub pos : ℕ
  pub fileops : FileOps

abbrev pub stdin_ops : FileOps
stdin_ops = record {
  open_fn = terminal_open;
  close_fn = fail;
  read_fn = terminal_read;
  write_fn = fail;
}

abbrev pub stdout_ops : FileOps
stdout_ops = record {
  open_fn = terminal_open;
  close_fn = fail;
  read_fn = fail;
  write_fn = terminal_write;
}

abbrev pub rtc_ops : FileOps
rtc_ops = record {
  open_fn = rtc_open;
  close_fn = rtc_close;
  read_fn = rtc_read;
  write_fn = rtc_write;
}

abbrev pub dir_ops : FileOps
dir_ops = record { open_fn = dir_open; close_fn = dir_close; read_fn = dir_read; write_fn = fail }

abbrev pub file_ops : FileOps
file_ops = record {
  open_fn = file_open;
  close_fn = file_close;
  read_fn = file_read;
  write_fn = fail;
}

abbrev pub fail_ops : FileOps
fail_ops = record { open_fn = fail; close_fn = fail; read_fn = fail; write_fn = fail }
