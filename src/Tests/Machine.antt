-- ===== src/Tests/Machine.antt =====
-- Tests of the page tables, the interrupt controllers, the clock and the process table.
use apoll_os.Prelude.{
  ℕ, ◌≡◌, refl, ◌⊎◌, arith, true, some, [], ◌∷◌, length, length-replicate, minus_one,
}
use apoll_os.Paging.{Paging, remap}
use apoll_os.Paging.Translate.{translate}
use apoll_os.Paging.Programs.{translate-remap}
use apoll_os.Rtc.{rtc_write, word_of, select_write, rtc_reg_a}
use apoll_os.Rtc.Rate.{rtc_write_lem}
use apoll_os.Process.{get_new_pid, current_pid}
use apoll_os.Process.Stacks.{current_pid-InStack}
use apoll_os.Process.Pids.{AllTaken, IsFresh, get_new_pid_lem}
use apoll_os.Tests.Data.{layout, empty_paging, rtc, kernel_with}

-- The TLB still has the page of the program that ran before.
abbrev stale_paging : Paging
stale_paging = record empty_paging {
  tlb = record { page = 0x8048; frame = 0x848; user = true } ∷ [];
}

stale_paging-IsDirectory : length stale_paging.page_dir ≡ 1024
stale_paging-IsDirectory = length-replicate {A = ℕ} 1024 0

translate-remap_example :
    (p' : Paging) × (remap 0x8000000 0xc00000 stale_paging ≡ some p')
    × (translate layout p' 0x8048000 ≡ some (record { physical = 0xc48000; user = true }))
translate-remap_example =
    translate-remap layout stale_paging 0x8000000 3 0x8048000 stale_paging-IsDirectory (omega arith)
      (omega arith)

word_1024 : word_of (0 ∷ 4 ∷ 0 ∷ 0 ∷ []) ≡ some 1024
unfolding word_of
word_1024 = refl

word_131072 : word_of (0 ∷ 0 ∷ 2 ∷ 0 ∷ []) ≡ some 131072
unfolding word_of
word_131072 = refl

rtc_write_lem_example :
    (byte : ℕ) × (rtc_write 0x26 (some (0 ∷ 4 ∷ 0 ∷ 0 ∷ [])) 4 rtc
      ≡ some (0, select_write rtc_reg_a byte rtc))
    × (byte ≡ 0x26)
rtc_write_lem_example =
    rtc_write_lem 0x26 10 1024 rtc (0 ∷ 4 ∷ 0 ∷ 0 ∷ []) (omega arith) (omega arith) (omega arith)
      (omega arith) (omega arith) (omega arith) word_1024

get_new_pid_lem_example :
    (AllTaken 5 × (get_new_pid 5 ≡ (minus_one, 5)))
    ⊎ (¬ AllTaken 5 × IsFresh 5 (get_new_pid 5).0 (get_new_pid 5).1)
get_new_pid_lem_example = get_new_pid_lem 5 (omega arith)

current_pid-InStack_example : current_pid (kernel_with [] 0 0 0x7fdf00) ≡ some 1
current_pid-InStack_example =
    current_pid-InStack (kernel_with [] 0 0 0x7fdf00) 1 (omega arith) (omega arith, omega arith)
