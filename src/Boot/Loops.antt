-- ===== src/Boot/Loops.antt =====
-- The loops of `entry` of student-distrib/kernel.c over the modules and the memory map.
use apoll_os.Prelude.{
  ℕ, zero, suc, ◌+◌, ◌*◌, ◌^◌, ◌≤◌, ◌<◌, ◌≡◌, refl, sym, ap, ◌∙◌, arith, true, false, Option, some,
  List, [], ◌∷◌, ltb, get_elem?, u32, sign8,
}
use apoll_os.Screen.Bounds.{IsOnScreen}
use apoll_os.Rofs.{Fs}
use apoll_os.Paging.{Layout}
use apoll_os.Kernel.{Kernel}
use apoll_os.Printf.{word}
use apoll_os.Boot.{region_line, read_word, bytes_loop, modules_loop, mmap_loop, say}
use apoll_os.Gdt.{Linker}
use apoll_os.Rtc.{word_of}
use apoll_os.Boot.Report.{
  word_from, byte_from, word_in, byte_in, char_in, byte_text, bytes_report, modules_report,
  map_report,
}
use apoll_os.Boot.Messages.{
  Says, first_bytes-Says, newline-Says, byte_format-Says, loaded_line-Says, ends_line-Says,
  region_line-Says,
}
use apoll_os.Boot.Memory.{IsMemory, IsMap, ends, region, Told-append, nothing-Told}

module _ (memory : ℕ → List ℕ) (fs_at : ℕ → Option Fs) (l : Layout) (at : Linker)
    (m : IsMemory memory) where
  pub word_lem :
      (a : ℕ)
      → (read_word memory fs_at l at a ≡ some (word_in memory a)) × (word_in memory a < 2 ^ 32)
  unfolding word_of
  word_lem addr =
      let (a, b, c, d, rest, here, ha, hb, hc, hd) = m.bytes_at (u32 addr) in
      let value : word_in memory addr ≡ a + b * 256 + c * 65536 + d * 16777216 =
        ap word_from here in
      (ap word_of here ∙ ap some (sym value), omega (arith, value))

  byte_lem :
      (a : ℕ) → (get_elem? (memory (u32 a)) 0 ≡ some (byte_in memory a)) × (byte_in memory a < 256)
  byte_lem addr =
      let (a, b, c, d, rest, here, ha, hb, hc, hd) = m.bytes_at (u32 addr) in
      let value : byte_in memory addr ≡ a = ap byte_from here in
      (ap (λ xs. get_elem? xs 0) here ∙ ap some (sym value), omega (arith, value))

  char_lem : (a : ℕ) → (sign8 (byte_in memory a) ≡ char_in memory a) × (char_in memory a < 2 ^ 32)
  char_lem a = let (read, small) = byte_lem a in (refl, ground arith)

  bytes_loop-Says :
      (n i start : ℕ) (k : Kernel)
      → IsOnScreen k.screen
      → Says (bytes_loop memory fs_at l at n i start k) k (bytes_report memory n i start)
  unfolding bytes_loop
  bytes_loop-Says zero i start k on = (k.screen, refl, nothing-Told k.screen on)
  bytes_loop-Says (suc n) i start k on =
      let (read, small) = byte_lem (start + i) in
      let (same, short) = char_lem (start + i) in
      let (s1, run1, t1) = byte_format-Says k on (char_in memory (start + i)) short in
      let (s2, run2, t2) = bytes_loop-Says n (i + 1) start (record k { screen = s1 }) t1.inside in
      (
        s2,
        rw (read, same, run1, run2),
        Told-append k.screen s1 s2 (byte_text (char_in memory (start + i)))
            (bytes_report memory n (i + 1) start) t1 t2,
      )

  pub modules_loop-Says :
      (n i addr : ℕ) (k : Kernel)
      → i + n < 2 ^ 32
      → IsOnScreen k.screen
      → Says (modules_loop memory fs_at l at n i addr k) k (modules_report memory n i addr)
  unfolding modules_loop
  modules_loop-Says zero i addr k h on = (k.screen, refl, nothing-Told k.screen on)
  modules_loop-Says (suc n) i addr k h on =
      let (read1, small1) = word_lem addr in
      let (read2, small2) = word_lem (addr + 4) in
      let start = word_in memory addr in
      let stop = word_in memory (addr + 4) in
      let (s1, run1, t1) = loaded_line-Says k on i start (omega arith) small1 in
      let (s2, run2, t2) =
        ends_line-Says (record k { screen = s1 }) t1.inside i stop (omega arith) small2 in
      let (s3, run3, t3) = first_bytes-Says (record k { screen = s2 }) t2.inside in
      let (s4, run4, t4) = bytes_loop-Says 16 0 start (record k { screen = s3 }) t3.inside in
      let (s5, run5, t5) = newline-Says (record k { screen = s4 }) t4.inside in
      let (s6, run6, t6) =
        modules_loop-Says n (i + 1) (u32 (addr + 16)) (record k { screen = s5 }) (omega arith)
          t5.inside in
      (
        s6,
        rw (read1, read2, run1, run2, run3, run4, run5, run6),
        Told-append k.screen s1 s6 _ _ t1 (
            Told-append s1 s2 s6 _ _ t2 (
              Told-append s2 s3 s6 _ _ t3
                (Told-append s3 s4 s6 _ _ t4 (Told-append s4 s5 s6 _ _ t5 t6)))),
      )

  region_step :
      (f mmap stop next a b c d e g : ℕ) (k k' : Kernel)
      → ltb mmap stop ≡ true
      → read_word memory fs_at l at mmap ≡ some a
      → read_word memory fs_at l at (mmap + 4) ≡ some b
      → read_word memory fs_at l at (mmap + 8) ≡ some c
      → read_word memory fs_at l at (mmap + 12) ≡ some d
      → read_word memory fs_at l at (mmap + 16) ≡ some e
      → read_word memory fs_at l at (mmap + 20) ≡ some g
      → say region_line (word a ∷ word c ∷ word b ∷ word g ∷ word e ∷ word d ∷ []) k ≡ some k'
      → u32 (mmap + a + 4) ≡ next
      → mmap_loop memory fs_at l at (suc f) mmap stop k ≡ mmap_loop memory fs_at l at f next stop k'
  unfolding mmap_loop
  region_step f mmap stop next a b c d e g k k' more r1 r2 r3 r4 r5 r6 said step =
      rw (more, r1, r2, r3, r4, r5, r6, said, step)

  pub mmap_loop-Says :
      (stop f mmap : ℕ) (k : Kernel)
      → stop ≤ mmap + 4 * f
      → IsMap memory stop mmap
      → IsOnScreen k.screen
      → Says (mmap_loop memory fs_at l at (suc f) mmap stop k) k (map_report memory f mmap stop)
  unfolding mmap_loop
  mmap_loop-Says stop zero mmap k enough (ends over) on =
      let end : ltb mmap stop ≡ false = ground arith in (k.screen, rw end, nothing-Told k.screen on)
  mmap_loop-Says stop (suc f) mmap k enough (ends over) on =
      let end : ltb mmap stop ≡ false = ground arith in
      (k.screen, rw end, rw end (nothing-Told k.screen on))
  mmap_loop-Says stop zero mmap k enough (region more small rest) on = absurd (omega arith)
  mmap_loop-Says stop (suc f) mmap k enough (region more small rest) on =
      let (read1, small1) = word_lem mmap in
      let (read2, small2) = word_lem (mmap + 4) in
      let (read3, small3) = word_lem (mmap + 8) in
      let (read4, small4) = word_lem (mmap + 12) in
      let (read5, small5) = word_lem (mmap + 16) in
      let (read6, small6) = word_lem (mmap + 20) in
      let w = word_in memory in
      let a = w mmap in
      let (s1, run1, t1) =
        region_line-Says k on a (w (mmap + 8)) (w (mmap + 4)) (w (mmap + 20)) (w (mmap + 16))
          (w (mmap + 12)) small1 small3 small2 small6 small5 small4 in
      let k1 = record k { screen = s1 } in
      let (s2, run2, t2) = mmap_loop-Says stop f (mmap + a + 4) k1 (omega arith) rest t1.inside in
      let there : ltb mmap stop ≡ true = ground arith in
      (
        s2,
        region_step (suc f) mmap stop (mmap + a + 4) a (w (mmap + 4)) (w (mmap + 8)) (w (mmap + 12))
              (w (mmap + 16)) (w (mmap + 20)) k k1 there read1 read2 read3 read4 read5 read6 run1
              (omega arith)
            ∙ run2,
        rw there (Told-append k.screen s1 s2 _ _ t1 t2),
      )
