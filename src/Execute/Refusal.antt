-- ===== src/Execute/Refusal.antt =====
-- What `execute` of student-distrib/syscalls.c does with a command that names no file.
use apoll_os.Prelude.{
  ℕ, ◌-◌, ◌≤◌, ◌<◌, ◌≡◌, refl, sym, ◌∙◌, ◌≢◌, arith, true, Option, none, some, List, [], ◌∷◌, ◌++◌,
  length, get_elem?, take, replicate, All, minus_one,
}
use mathlib.Core.Path.{subst}
use apoll_os.CString.Compare.{text, IsBytes, Readable-of_length}
use apoll_os.Rofs.{Dentry}
use apoll_os.Rofs.Names.{IsDentry, name_of, FirstMatch, found, missing, read_dentry_by_name_lem}
use apoll_os.Kernel.{Kernel, cli}
use apoll_os.Execute.{returned, run_command, execute}
use apoll_os.Execute.Command.{
  IsWord, ends_word, text-NoNul, padded, length-padded, IsBytes-padded, execute-first_word,
}

-- No entry of the directory has the name.
abbrev pub NoEntry : List Dentry → ℕ → List ℕ → Type 0
NoEntry ds n name = (j : ℕ) (d : Dentry) → j < n → get_elem? ds j ≡ some d → name_of d ≢ name

FirstMatch-NoEntry :
    (fname : List ℕ) (ds : List Dentry) (n : ℕ) (o : Option Dentry)
    → NoEntry ds n (text 32 fname)
    → FirstMatch fname ds 0 n o
    → o ≡ none
FirstMatch-NoEntry fname ds n o absent (found j d (lo, hi) at eq before) =
    absurd (absent j d hi at eq)
FirstMatch-NoEntry fname ds n o absent (missing before) = refl

run_command-NoEntry :
    (k : Kernel) (line after : List ℕ)
    → 32 ≤ length line
    → IsBytes line
    → k.fs.boot_block.num_dir_entries ≤ length k.fs.boot_block.dentries
    → All IsDentry k.fs.boot_block.dentries
    → NoEntry k.fs.boot_block.dentries k.fs.boot_block.num_dir_entries (text 32 line)
    → run_command line after k ≡ some (returned minus_one k)
unfolding run_command
run_command-NoEntry k line after long bytes count entries absent =
    let (o, run, first) =
      read_dentry_by_name_lem k.fs line (Readable-of_length 32 line long) bytes count entries in
    let none_found =
      FirstMatch-NoEntry line k.fs.boot_block.dentries k.fs.boot_block.num_dir_entries o absent
        first in
    rw (run, none_found)

-- For a command whose first word has less than 128 characters, ends at a blank, a NUL or a
-- newline, does not start with exit, and is, cut at 32 characters, the name of no entry of a
-- directory whose entries are there and are bytes with 32 of name, `execute` stays inside its
-- buffers, returns -1 and changes nothing but to turn interrupts off.
pub execute-NoEntry :
    (cmos : ℕ → ℕ) (word : List ℕ) (stop : ℕ) (rest : List ℕ) (k : Kernel)
    → IsWord word
    → ends_word stop ≡ true
    → length word < 128
    → take 4 word ≢ (101 ∷ 120 ∷ 105 ∷ 116 ∷ [])
    → k.fs.boot_block.num_dir_entries ≤ length k.fs.boot_block.dentries
    → All IsDentry k.fs.boot_block.dentries
    → NoEntry k.fs.boot_block.dentries k.fs.boot_block.num_dir_entries (take 32 word)
    → execute cmos (some (word ++ (stop ∷ rest))) k ≡ some (returned minus_one (cli k))
execute-NoEntry cmos word stop rest k w e short no_exit count entries absent =
    let zeros = replicate {A = ℕ} (127 - length word) 0 in
    let at_name : NoEntry k.fs.boot_block.dentries k.fs.boot_block.num_dir_entries
        (text 32 (padded word)) =
      subst (NoEntry k.fs.boot_block.dentries k.fs.boot_block.num_dir_entries)
        (sym (text-NoNul 32 word zeros w)) absent in
    execute-first_word cmos word stop rest k w e short no_exit
    ∙ run_command-NoEntry (cli k) (padded word) (stop ∷ rest)
        (omega (arith, length-padded word short)) (IsBytes-padded word w) count entries at_name
