-- ===== src/Boot/Information.antt =====
-- What `entry` of student-distrib/kernel.c shows of the boot loader's information.
use apoll_os.Prelude.{
  ℕ, suc, ◌+◌, ◌/◌, ◌≡◌, refl, sym, ap, ◌∙◌, arith, Bool, true, false, Option, some, List, [], u32,
}
use mathlib.Core.Path.{subst}
use apoll_os.Screen.{Screen}
use apoll_os.Screen.Bounds.{IsOnScreen}
use apoll_os.Rofs.{Fs}
use apoll_os.Paging.{Layout}
use apoll_os.Kernel.{Kernel}
use apoll_os.Boot.{
  load_modules, when, show_mem, show_device, show_cmdline, show_elf, show_mmap, show_info,
}
use apoll_os.Gdt.{Linker}
use apoll_os.Multiboot.{check_flag}
use apoll_os.Printf.Pieces.{Piece}
use apoll_os.Boot.Report.{
  Told, text_from, flag_on, told_if, word_in, mmap_report, mem_text, device_text, cmdline_text,
  elf_text, module_report, info_report,
}
use apoll_os.Boot.Messages.{
  Says, initing-Says, done-Says, flags_line-Says, device_line-Says, cmdline_line-Says,
  mem_line-Says, elf_line-Says, mmap_line-Says,
}
use apoll_os.Boot.Memory.{
  IsMemory, HasMap, Told-append, nothing-Told, text_from-NoNul, flag_on-check_flag,
}
use apoll_os.Boot.Loops.{word_lem, modules_loop-Says, mmap_loop-Says}

module _ (memory : ℕ → List ℕ) (fs_at : ℕ → Option Fs) (l : Layout) (at : Linker)
    (m : IsMemory memory) where
  pub when-Says :
      (b c : Bool) (act : Kernel → Option Kernel) (ps : List Piece) (k : Kernel)
      → b ≡ c
      → (c ≡ true → Says (act k) k ps)
      → IsOnScreen k.screen
      → Says (when memory fs_at l at b act k) k (told_if c ps)
  when-Says false false act ps k e h on = (k.screen, refl, nothing-Told k.screen on)
  when-Says true true act ps k e h on = h refl
  when-Says true false act ps k e h on = cc
  when-Says false true act ps k e h on = cc

  show_mem-Says :
      (mbi : ℕ) (k : Kernel)
      → IsOnScreen k.screen
      → Says
          (show_mem memory fs_at l at mbi k)
          k
          (mem_text (word_in memory (mbi + 4)) (word_in memory (mbi + 8)))
  unfolding show_mem
  show_mem-Says mbi k on =
      let (read1, small1) = word_lem memory fs_at l at m (mbi + 4) in
      let (read2, small2) = word_lem memory fs_at l at m (mbi + 8) in
      let (s1, run1, t1) =
        mem_line-Says k on (word_in memory (mbi + 4)) (word_in memory (mbi + 8)) small1 small2 in
      (s1, rw (read1, read2, run1), t1)

  show_device-Says :
      (mbi : ℕ) (k : Kernel)
      → IsOnScreen k.screen
      → Says (show_device memory fs_at l at mbi k) k (device_text (word_in memory (mbi + 12)))
  unfolding show_device
  show_device-Says mbi k on =
      let (read1, small1) = word_lem memory fs_at l at m (mbi + 12) in
      let (s1, run1, t1) = device_line-Says k on (word_in memory (mbi + 12)) small1 in
      (s1, rw (read1, run1), t1)

  show_cmdline-Says :
      (mbi : ℕ) (k : Kernel)
      → IsOnScreen k.screen
      → Says
          (show_cmdline memory fs_at l at mbi k)
          k
          (cmdline_text (text_from (memory (word_in memory (mbi + 16)))) [])
  unfolding show_cmdline
  show_cmdline-Says mbi k on =
      let (read1, small1) = word_lem memory fs_at l at m (mbi + 16) in
      let (t, rest, here, no_nul, short) = m.text_at (word_in memory (mbi + 16)) in
      let (s1, run1, t1) = cmdline_line-Says k on t rest (no_nul, short) in
      let same : text_from (memory (word_in memory (mbi + 16))) ≡ t =
        ap text_from here ∙ text_from-NoNul t rest no_nul in
      (
        s1,
        rw (read1, here, run1),
        subst (λ c. Told k.screen (cmdline_text c []) s1) (sym same)
            (no_rest t rest k.screen s1 t1),
      )
    where
      no_rest :
          (t rest : List ℕ) (s s1 : Screen)
          → Told s (cmdline_text t rest) s1
          → Told s (cmdline_text t []) s1
      no_rest t rest s s1 u = record {
        shown = u.shown;
        shows = u.shows;
        put = u.put;
        inside = u.inside;
      }

  pub show_elf-Says :
      (mbi : ℕ) (k : Kernel)
      → IsOnScreen k.screen
      → Says (show_elf memory fs_at l at mbi k) k (
          elf_text
            (word_in memory (mbi + 28))
            (word_in memory (mbi + 32))
            (word_in memory (mbi + 36))
            (word_in memory (mbi + 40)))
  unfolding show_elf
  show_elf-Says mbi k on =
      let (read1, small1) = word_lem memory fs_at l at m (mbi + 28) in
      let (read2, small2) = word_lem memory fs_at l at m (mbi + 32) in
      let (read3, small3) = word_lem memory fs_at l at m (mbi + 36) in
      let (read4, small4) = word_lem memory fs_at l at m (mbi + 40) in
      let w = word_in memory in
      let (s1, run1, t1) =
        elf_line-Says k on (w (mbi + 28)) (w (mbi + 32)) (w (mbi + 36)) (w (mbi + 40)) small1 small2
          small3 small4 in
      (s1, rw (read1, read2, read3, read4, run1), t1)

  pub show_mmap-Says :
      (mbi : ℕ) (k : Kernel)
      → HasMap memory mbi
      → IsOnScreen k.screen
      → Says (show_mmap memory fs_at l at mbi k) k (mmap_report memory mbi)
  unfolding show_mmap
  show_mmap-Says mbi k map_there on =
      let (read1, small1) = word_lem memory fs_at l at m (mbi + 44) in
      let (read2, small2) = word_lem memory fs_at l at m (mbi + 48) in
      let a = word_in memory (mbi + 44) in
      let b = word_in memory (mbi + 48) in
      let (s1, run1, t1) = mmap_line-Says k on b a small2 small1 in
      let (s2, run2, t2) =
        mmap_loop-Says memory fs_at l at m (u32 (b + a)) (a / 4 + 1) b (record k { screen = s1 })
          (omega arith) map_there t1.inside in
      let fuel : a / 4 + 2 ≡ suc (a / 4 + 1) = omega arith in
      (s2, rw (read1, read2, run1, fuel) run2, Told-append k.screen s1 s2 _ _ t1 t2)

  load_modules-Says :
      (mbi : ℕ) (fs : Fs) (k : Kernel)
      → fs_at (word_in memory (word_in memory (mbi + 24))) ≡ some fs
      → IsOnScreen k.screen
      → (s' : Screen) × (load_modules memory fs_at l at mbi k
          ≡ some (record k { fs = fs; screen = s' }))
        × Told k.screen (module_report memory mbi) s'
  unfolding load_modules
  load_modules-Says mbi fs k there on =
      let (read1, small1) = word_lem memory fs_at l at m (mbi + 20) in
      let (read2, small2) = word_lem memory fs_at l at m (mbi + 24) in
      let count = word_in memory (mbi + 20) in
      let addr = word_in memory (mbi + 24) in
      let (read3, small3) = word_lem memory fs_at l at m addr in
      let (s1, run1, t1) = initing-Says k on in
      let k1 = record k { screen = s1; fs = fs } in
      let (s2, run2, t2) = done-Says k1 t1.inside in
      let (s3, run3, t3) =
        modules_loop-Says memory fs_at l at m count 0 addr (record k1 { screen = s2 }) (omega arith)
          t2.inside in
      (
        s3,
        rw (read1, read2, run1, read3, there, run2, run3),
        Told-append k.screen s1 s3 _ _ t1 (Told-append s1 s2 s3 _ _ t2 t3),
      )

  pub show_info-Says :
      (mbi : ℕ) (fs : Fs) (k : Kernel)
      → flag_on (word_in memory mbi) 3 ≡ true
      → fs_at (word_in memory (word_in memory (mbi + 24))) ≡ some fs
      → IsOnScreen k.screen
      → (s' : Screen) × (show_info memory fs_at l at (word_in memory mbi) mbi k
          ≡ some (record k { fs = fs; screen = s' }))
        × Told k.screen (info_report memory mbi) s'
  unfolding show_info
  show_info-Says mbi fs k modules there on =
      let flags = word_in memory mbi in
      let f = flag_on-check_flag flags in
      let (s1, run1, t1) = flags_line-Says k on flags (word_lem memory fs_at l at m mbi).1 in
      let k1 = record k { screen = s1 } in
      let (s2, run2, t2) =
        when-Says (check_flag flags 0) (flag_on flags 0) (show_mem memory fs_at l at mbi) _ k1 f.0
          (λ b. show_mem-Says mbi k1 t1.inside) t1.inside in
      let k2 = record k { screen = s2 } in
      let (s3, run3, t3) =
        when-Says (check_flag flags 1) (flag_on flags 1) (show_device memory fs_at l at mbi) _ k2
          f.1 (λ b. show_device-Says mbi k2 t2.inside) t2.inside in
      let k3 = record k { screen = s3 } in
      let (s4, run4, t4) =
        when-Says (check_flag flags 2) (flag_on flags 2) (show_cmdline memory fs_at l at mbi) _ k3
          f.2 (λ b. show_cmdline-Says mbi k3 t3.inside) t3.inside in
      let k4 = record k { screen = s4 } in
      let (s5, run5, t5) = load_modules-Says mbi fs k4 there t4.inside in
      let on3 : check_flag flags 3 ≡ true = f.3 ∙ modules in
      (
        s5,
        rw (run1, run2, run3, run4, on3, run5),
        Told-append k.screen s1 s5 _ _ t1 (
            Told-append s1 s2 s5 _ _ t2 (
              Told-append s2 s3 s5 _ _ t3 (
                Told-append s3 s4 s5 _ _ t4 (
                  subst (λ b. Told s4 (told_if b (module_report memory mbi)) s5) (sym modules)
                    t5)))),
      )
