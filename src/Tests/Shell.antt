-- ===== src/Tests/Shell.antt =====
-- A kernel whose first process is the shell, with a program and a text file.
use apoll_os.Prelude.{
  ℕ, ◌≤◌, ◌<◌, ◌≡◌, refl, ap, ◌∙◌, ◌≢◌, arith, true, false, some, List, [], ◌∷◌, ◌++◌, ltb, ◌==◌,
  length, set, take, drop, replicate, All, length-set, length-replicate,
}
use apoll_os.CString.{strncmp}
use apoll_os.Rofs.{Fs, Dentry, Inode, find_loop, read_dentry_by_name}
use apoll_os.Rofs.Contents.{IsFile}
use apoll_os.Rtc.{word_of}
use apoll_os.Kernel.{Kernel, Pcb, Terminal}
use apoll_os.Process.Blocks.{HasBlocks}
use apoll_os.Process.{can_execute, total_processes}
use apoll_os.Execute.Command.{IsWord, padded}
use apoll_os.Execute.Arguments.{Tail, spaced}
use apoll_os.Execute.Started.{IsProgram, HasRoom}
use apoll_os.Execute.Return.{entry_of}
use apoll_os.User.CatOnKernel.{Finds}
use apoll_os.Tests.Data.{
  hi_entry, hi_node, hi_block, typed_terminal, kernel_with, plain_file, empty_paging,
}

abbrev pub cat_word : List ℕ
cat_word = 99 ∷ 97 ∷ 116 ∷ []

abbrev pub hi_word : List ℕ
hi_word = 104 ∷ 105 ∷ []

abbrev pub cat_entry : Dentry
cat_entry = record {
  file_name = cat_word ++ replicate 29 0;
  file_type = 2;
  inode_num = 1;
  reserved = replicate 24 0;
}

-- A program of 28 bytes that starts at 0x08048000.
abbrev pub cat_node : Inode
cat_node = record { length = 28; data_block_num = 1 ∷ [] }

abbrev pub cat_block : List ℕ
cat_block = 0x7f ∷ 0x45 ∷ 0x4c ∷ 0x46 ∷ (replicate 20 0 ++ (0 ∷ 0x80 ∷ 4 ∷ 8 ∷ replicate 4068 0))

abbrev pub two_files : Fs
two_files = record {
  boot_block = record {
    num_dir_entries = 2;
    num_inodes = 2;
    num_data_blocks = 2;
    dentries = hi_entry ∷ cat_entry ∷ [];
  };
  inodes = hi_node ∷ cat_node ∷ [];
  data_blocks = hi_block ∷ cat_block ∷ [];
}

pub blocks_whole : All (λ (b : List ℕ). length b ≡ 4096) two_files.data_blocks
blocks_whole = (refl, (refl, tt))

pub hi_node-IsFile : IsFile two_files hi_node
hi_node-IsFile = record { listed = omega arith; present = (omega arith, tt); whole = blocks_whole }

pub cat_node-IsFile : IsFile two_files cat_node
cat_node-IsFile = record { listed = omega arith; present = (omega arith, tt); whole = blocks_whole }

pub cat_entry-IsProgram : IsProgram two_files cat_entry cat_node 0x08048000
unfolding word_of
cat_entry-IsProgram = record {
  inode_in = omega arith;
  inode_at = refl;
  valid = cat_node-IsFile;
  long = omega arith;
  fits = omega arith;
  magic = refl;
  first = refl;
}

abbrev pub free_block : Pcb
free_block = record {
  files = replicate 8 (plain_file 0);
  pid = 0;
  args = replicate 128 0;
  parent_pid = 0;
  parent_esp = 0;
  parent_ebp = 0;
}

abbrev pub shell_terminal : Terminal
shell_terminal = typed_terminal (replicate 128 0)

-- The shell is process 0, in a system call.
abbrev pub shell_kernel : Kernel
shell_kernel = record (kernel_with [] 0 0 0x7fff00) {
  fs = two_files;
  terminal = shell_terminal ∷ [];
  pcbs = replicate 6 free_block;
  images = replicate 6 (replicate 64 0);
  paging = record empty_paging { page_dir = set (replicate 1024 0) 32 (entry_of 0) };
}

pub free_block-HasBlocks : HasBlocks shell_kernel.pcbs
free_block-HasBlocks = record {
  six = refl;
  whole = (whole, (whole, (whole, (whole, (whole, (whole, tt))))));
}
  where
    whole : (length free_block.files ≡ 8) × (length free_block.args ≡ 128)
    whole = (refl, length-replicate {A = ℕ} 128 0)

pub directory_size : length shell_kernel.paging.page_dir ≡ 1024
directory_size = length-set (replicate 1024 0) 32 (entry_of 0) ∙ length-replicate {A = ℕ} 1024 0

pub shell_kernel-HasRoom : HasRoom shell_kernel 28 shell_terminal
unfolding can_execute total_processes
shell_kernel-HasRoom = record {
  can = refl;
  byte = omega arith;
  free = λ e. absurd (omega arith);
  blocks = free_block-HasBlocks;
  six = refl;
  room = (room, (room, (room, (room, (room, (room, tt))))));
  terminal_at = refl;
  directory = directory_size;
}
  where
    room : 28 ≤ length (replicate {A = ℕ} 64 0)
    room = omega (arith, length-replicate {A = ℕ} 64 0)

pub cat_word-IsWord : IsWord cat_word
cat_word-IsWord = (
  letter 99 refl refl refl refl,
  (letter 97 refl refl refl refl, (letter 116 refl refl refl refl, tt)),
)
  where
    letter :
        (c : ℕ)
        → (c == 0) ≡ false
        → (c == 10) ≡ false
        → (c == 32) ≡ false
        → ltb c 256 ≡ true
        → (c ≢ 0) × (c ≢ 10) × (c ≢ 32) × (c < 256)
    letter c z n b s = (ground arith, ground arith, ground arith, ground arith)

-- "cat hi"
abbrev pub command : List ℕ
command = 32 ∷ (hi_word ++ (0 ∷ []))

pub hi_word-Tail : Tail command hi_word
hi_word-Tail =
    spaced 0 [] refl refl (letter 104 refl refl, (letter 105 refl refl, tt)) (omega arith)
  where
    letter : (c : ℕ) → (c == 0) ≡ false → (c == 10) ≡ false → (c ≢ 0) × (c ≢ 10)
    letter c z n = (ground arith, ground arith)

pub no_exit : take 4 cat_word ≢ (101 ∷ 120 ∷ 105 ∷ 116 ∷ [])
no_exit e = absurd (omega (arith, ap length e))

pub cat_found : read_dentry_by_name two_files (padded cat_word) ≡ some (some cat_entry)
unfolding read_dentry_by_name find_loop strncmp
cat_found = refl

pub hi_found :
    read_dentry_by_name two_files (padded hi_word ++ drop 128 (replicate 1024 0))
    ≡ some (some hi_entry)
unfolding read_dentry_by_name find_loop strncmp
hi_found = refl

pub hi_word-Finds : Finds shell_kernel (padded hi_word ++ drop 128 (replicate 1024 0)) hi_node
hi_word-Finds = record {
  entry = hi_entry;
  found = hi_found;
  regular = refl;
  inode_in = omega arith;
  inode_at = refl;
  valid = hi_node-IsFile;
  fits = omega arith;
}
