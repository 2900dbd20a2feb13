-- ===== src/Tests/Calls.antt =====
-- Tests of the modifier keys, the terminals and the system calls of student-distrib/.
use apoll_os.Prelude.{
  ℕ, zero, suc, ◌≡◌, refl, ap, ◌∙◌, ◌≢◌, arith, some, List, [], ◌∷◌, get_or, replicate,
  length-replicate, ◌>>=◌, minus_one,
}
use apoll_os.Kernel.{cli}
use apoll_os.Rofs.Names.{name_of}
use apoll_os.Execute.{execute, returned}
use apoll_os.Execute.Refusal.{NoEntry, execute-NoEntry}
use apoll_os.Execute.Command.{IsWord}
use apoll_os.Tests.Data.{small_fs, hi_entry, hi_entry-IsDentry}
use apoll_os.FileOps.{File, fail_ops}
use apoll_os.Kernel.{Kernel}
use apoll_os.Interrupts.{key_of, modifier}
use apoll_os.Interrupts.Modifiers.{IsConsistent, Apart, after_keys, after_keys-IsConsistent}
use apoll_os.Terminal.{terminal_save, terminal_load}
use apoll_os.Terminal.Switching.{IsKept, Restored, terminal_load-terminal_save}
use apoll_os.Tests.Data.{typed_terminal, keyboard_at, kernel_with}

keyboard-IsConsistent : IsConsistent (keyboard_at 0 0)
keyboard-IsConsistent = record {
  shift_flag = omega arith;
  caps_flag = omega arith;
  column = omega arith;
}

keys-Apart : Apart (0x2a ∷ 0xaa ∷ 0x3a ∷ []) (keyboard_at 0 0)
unfolding key_of modifier
keys-Apart = (refl, (refl, (refl, tt)))

-- Shift is pressed and released, then capslock is pressed.
after_keys-IsConsistent_example :
    IsConsistent (after_keys (0x2a ∷ 0xaa ∷ 0x3a ∷ []) (keyboard_at 0 0))
after_keys-IsConsistent_example =
    after_keys-IsConsistent (0x2a ∷ 0xaa ∷ 0x3a ∷ []) (keyboard_at 0 0) keyboard-IsConsistent
      keys-Apart

shifted-IsConsistent : IsConsistent (record (keyboard_at 0 0) { shift_pressed = 1; keys_state = 1 })
shifted-IsConsistent = record {
  shift_flag = omega arith;
  caps_flag = omega arith;
  column = omega arith;
}

abbrev one_file : ℕ → File
one_file flags = record { inode = 0; flags = flags; pos = 0; fileops = fail_ops }

abbrev three_open : List File
three_open = one_file 1 ∷ one_file 1 ∷ one_file 1 ∷ replicate 5 (one_file 0)

abbrev kept_kernel : Kernel
kept_kernel = record (kernel_with [] 0 0 0x7fff00) { term_mem = replicate 4096 0 ∷ [] }

kept_kernel-IsKept : IsKept kept_kernel 1 (typed_terminal []) (replicate 4096 0)
kept_kernel-IsKept = record {
  entry = refl;
  kept = refl;
  page_size = length-replicate {A = ℕ} 4096 0;
  video_size = length-replicate {A = ℕ} 4096 0;
  directory = length-replicate {A = ℕ} 1024 0;
}

-- In between the cursor and the stack pointer move.
abbrev moved : Kernel → Kernel
moved k = record k { screen = record k.screen { screen_x = 40; screen_y = 3 }; esp = 0x7fdf00 }

terminal_load-terminal_save_example :
    (k3 : Kernel) × ((terminal_save 1 kept_kernel >>= λ k1. terminal_load 1 (moved k1)) ≡ some k3)
    × Restored kept_kernel k3 1
terminal_load-terminal_save_example =
    terminal_load-terminal_save moved kept_kernel 1 (typed_terminal []) (replicate 4096 0)
      kept_kernel-IsKept (λ k'. refl) (λ k'. refl) (λ k'. refl) (λ k'. refl)

-- The command "no" stands for a file that is not there.
hi_entry-NoEntry : NoEntry small_fs.boot_block.dentries 1 (110 ∷ 111 ∷ [])
hi_entry-NoEntry zero d lo at e =
    let here : hi_entry ≡ d = cc in
    let bytes : name_of hi_entry ≡ 110 ∷ 111 ∷ [] = ap name_of here ∙ e in
    let first : get_or (name_of hi_entry) 0 0 ≡ 110 = ap (λ s. get_or s 0 0) bytes in
    absurd (omega arith)
hi_entry-NoEntry (suc j) d lo at e = absurd (omega arith)

no-IsWord : IsWord (110 ∷ 111 ∷ [])
no-IsWord = (
  (
    (λ e. absurd (omega arith)),
    (λ e. absurd (omega arith)),
    (λ e. absurd (omega arith)),
    omega arith,
  ),
  (
    (
      (λ e. absurd (omega arith)),
      (λ e. absurd (omega arith)),
      (λ e. absurd (omega arith)),
      omega arith,
    ),
    tt,
  ),
)

no_exit : ◌≢◌ {A = List ℕ} (110 ∷ 111 ∷ []) (101 ∷ 120 ∷ 105 ∷ 116 ∷ [])
no_exit e = let first : ◌≡◌ {A = ℕ} 110 101 = ap (λ s. get_or s 0 0) e in absurd (omega arith)

execute-NoEntry_example :
    execute (λ reg. 0) (some (110 ∷ 111 ∷ 10 ∷ 0 ∷ [])) (kernel_with [] 0 0 0x7fff00)
    ≡ some (returned minus_one (cli (kernel_with [] 0 0 0x7fff00)))
execute-NoEntry_example =
    execute-NoEntry (λ reg. 0) (110 ∷ 111 ∷ []) 10 (0 ∷ []) (kernel_with [] 0 0 0x7fff00) no-IsWord
      refl (omega arith) no_exit (omega arith) (hi_entry-IsDentry, tt) hi_entry-NoEntry
