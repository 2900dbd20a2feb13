-- ===== src/Boot/Messages.antt =====
-- The messages of `entry` of student-distrib/kernel.c: none of them faults.
use apoll_os.Prelude.{
  ℕ, ◌^◌, ◌<◌, ◌≡◌, refl, ap, ◌∙◌, inl, inr, arith, Bool, true, ◌&&◌, Option, some, List, [], ◌∷◌,
  ◌++◌, ◌==◌, ◌!=◌, Bool-cases, length, All, c_string,
}
use apoll_os.Screen.{Screen}
use apoll_os.Screen.Bounds.{IsOnScreen}
use apoll_os.Printf.{Arg, word, str, printf}
use apoll_os.Printf.Pieces.{Piece, hex, hex8, unsigned, signed, string, IsPiece, format, arguments}
use apoll_os.Printf.Formats.{printf-Prints}
use apoll_os.Kernel.{Kernel}
use apoll_os.Boot.Report.{
  letters, Told, flags_text, mem_text, device_text, cmdline_text, module_text, byte_text, elf_text,
  mmap_text, region_text,
}
use apoll_os.Boot.{
  say, flags_line, mem_line, device_line, cmdline_line, initing, done, loaded_line, ends_line,
  first_bytes, byte_format, newline, elf_line, mmap_line, region_line,
}

-- Only the screen changes, by what is told.
abbrev pub Says : Option Kernel → Kernel → List Piece → Type 0
Says o k ps = (s' : Screen) × (o ≡ some (record k { screen = s' })) × Told k.screen ps s'

abbrev no_percent : List ℕ → Bool
no_percent [] = true
no_percent (c ∷ s) = c != b'%' && no_percent s

All-letters : (s : List ℕ) → no_percent s ≡ true → All IsPiece (letters s)
All-letters [] h = tt
All-letters (c ∷ s) h =
    let rest = All-letters s (ground arith) in
    elim (Bool-cases (c == 0)) [
      | inl nul ↦ rw nul (tt)
      | inr more ↦ rw more ((ground arith, ground arith), rest)
    ]

-- A text, and then a conversion.
All-mixed :
    (s : List ℕ) (p : Piece) (ps : List Piece)
    → no_percent s ≡ true
    → IsPiece p
    → All IsPiece ps
    → All IsPiece (letters s ++ (p ∷ ps))
All-mixed [] p ps h hp hps = (hp, hps)
All-mixed (c ∷ s) p ps h hp hps =
    let rest = All-mixed s p ps (ground arith) hp hps in
    elim (Bool-cases (c == 0)) [
      | inl nul ↦ rw nul (hp, hps)
      | inr more ↦ rw more ((ground arith, ground arith), rest)
    ]

say-Says :
    (fmt : List ℕ) (args : List Arg) (ps : List Piece) (k : Kernel)
    → fmt ≡ format ps ++ (0 ∷ [])
    → args ≡ arguments ps ++ []
    → length (format ps) < 2 ^ 32
    → All IsPiece ps
    → IsOnScreen k.screen
    → Says (say fmt args k) k ps
say-Says fmt args ps k same_format same_args short h on =
    let (shown, s', run, shows, put, on') = printf-Prints ps [] [] k.screen h short on in
    let here : printf fmt args k.screen ≡ some (length (format ps), s') =
      ap (λ f. printf f args k.screen) same_format
      ∙ ap (λ a. printf (format ps ++ (0 ∷ [])) a k.screen) same_args
      ∙ run in
    (s', rw here, record { shown = shown; shows = shows; put = put; inside = on' })

pub initing-Says : (k : Kernel) → IsOnScreen k.screen → Says (say initing [] k) k (letters initing)
initing-Says k on =
    say-Says initing [] (letters initing) k refl refl (omega arith) (All-letters initing refl) on

pub done-Says : (k : Kernel) → IsOnScreen k.screen → Says (say done [] k) k (letters done)
done-Says k on =
    say-Says done [] (letters done) k refl refl (omega arith) (All-letters done refl) on

pub first_bytes-Says :
    (k : Kernel) → IsOnScreen k.screen → Says (say first_bytes [] k) k (letters first_bytes)
first_bytes-Says k on =
    say-Says first_bytes [] (letters first_bytes) k refl refl (omega arith)
      (All-letters first_bytes refl) on

pub newline-Says : (k : Kernel) → IsOnScreen k.screen → Says (say newline [] k) k (letters newline)
newline-Says k on =
    say-Says newline [] (letters newline) k refl refl (omega arith) (All-letters newline refl) on

module _ (k : Kernel) (on : IsOnScreen k.screen) where
  -- A message with one conversion.
  one-Says :
      (fmt : List ℕ) (args : List Arg) (s t : List ℕ) (p : Piece)
      → fmt ≡ format (letters s ++ (p ∷ letters t)) ++ (0 ∷ [])
      → args ≡ arguments (letters s ++ (p ∷ letters t)) ++ []
      → length (format (letters s ++ (p ∷ letters t))) < 2 ^ 32
      → no_percent s ≡ true
      → no_percent t ≡ true
      → IsPiece p
      → Says (say fmt args k) k (letters s ++ (p ∷ letters t))
  one-Says fmt args s t p e f short hs ht hp =
      say-Says fmt args (letters s ++ (p ∷ letters t)) k e f short
        (All-mixed s p (letters t) hs hp (All-letters t ht)) on

  pub flags_line-Says :
      (w : ℕ) → w < 2 ^ 32 → Says (say flags_line (word w ∷ []) k) k (flags_text w)
  flags_line-Says w h =
      one-Says flags_line (word w ∷ []) (c_string "flags = 0x") newline (hex8 w) refl refl
        (omega arith) refl refl h

  pub device_line-Says :
      (w : ℕ) → w < 2 ^ 32 → Says (say device_line (word w ∷ []) k) k (device_text w)
  device_line-Says w h =
      one-Says device_line (word w ∷ []) (c_string "boot_device = 0x") newline (hex8 w) refl refl
        (omega arith) refl refl h

  pub byte_format-Says :
      (w : ℕ) → w < 2 ^ 32 → Says (say byte_format (word w ∷ []) k) k (byte_text w)
  byte_format-Says w h =
      one-Says byte_format (word w ∷ []) (c_string "0x") (c_string " ") (hex w) refl refl
        (omega arith) refl refl h

  pub cmdline_line-Says :
      (t rest : List ℕ)
      → IsPiece (string t rest)
      → Says (say cmdline_line (str (t ++ (0 ∷ rest)) ∷ []) k) k (cmdline_text t rest)
  cmdline_line-Says t rest h =
      one-Says cmdline_line (str (t ++ (0 ∷ rest)) ∷ []) (c_string "cmdline = ") newline
        (string t rest) refl refl (omega arith) refl refl h

  pub mem_line-Says :
      (v w : ℕ)
      → v < 2 ^ 32
      → w < 2 ^ 32
      → Says (say mem_line (word v ∷ word w ∷ []) k) k (mem_text v w)
  mem_line-Says v w hv hw =
      let s = c_string "KB, mem_upper = " in
      let t = c_string "KB\n" in
      let ps =
        letters (c_string "mem_lower = ")
        ++ (unsigned v ∷ (letters s ++ (unsigned w ∷ letters t))) in
      say-Says mem_line (word v ∷ word w ∷ []) ps k refl refl (omega arith)
        (All-mixed (c_string "mem_lower = ") (unsigned v) (letters s ++ (unsigned w ∷ letters t))
          refl hv (All-mixed s (unsigned w) (letters t) refl hw (All-letters t refl)))
        on

  -- A number in decimal, and then a word.
  module_line-Says :
      (fmt mid : List ℕ) (i w : ℕ)
      → fmt
        ≡ format (
            letters (c_string "Module ")
            ++ (signed i ∷ (letters mid ++ (hex8 w ∷ letters newline))))
          ++ (0 ∷ [])
      → word i ∷ word w ∷ []
        ≡ arguments (
            letters (c_string "Module ")
            ++ (signed i ∷ (letters mid ++ (hex8 w ∷ letters newline))))
          ++ []
      → length (
          format (
            letters (c_string "Module ")
            ++ (signed i ∷ (letters mid ++ (hex8 w ∷ letters newline)))))
        < 2 ^ 32
      → no_percent mid ≡ true
      → i < 2 ^ 32
      → w < 2 ^ 32
      → Says (say fmt (word i ∷ word w ∷ []) k) k (module_text mid i w)
  module_line-Says fmt mid i w e f short hm hi hw =
      let ps = letters mid ++ (hex8 w ∷ letters newline) in
      say-Says fmt (word i ∷ word w ∷ []) (letters (c_string "Module ") ++ (signed i ∷ ps)) k e f
        short
        (All-mixed (c_string "Module ") (signed i) ps refl hi
          (All-mixed mid (hex8 w) (letters newline) hm hw (All-letters newline refl)))
        on

  pub loaded_line-Says :
      (i w : ℕ)
      → i < 2 ^ 32
      → w < 2 ^ 32
      → Says
          (say loaded_line (word i ∷ word w ∷ []) k)
          k
          (module_text (c_string " loaded at address: 0x") i w)
  loaded_line-Says i w hi hw =
      module_line-Says loaded_line (c_string " loaded at address: 0x") i w refl refl (omega arith)
        refl hi hw

  pub ends_line-Says :
      (i w : ℕ)
      → i < 2 ^ 32
      → w < 2 ^ 32
      → Says
          (say ends_line (word i ∷ word w ∷ []) k)
          k
          (module_text (c_string " ends at address: 0x") i w)
  ends_line-Says i w hi hw =
      module_line-Says ends_line (c_string " ends at address: 0x") i w refl refl (omega arith) refl
        hi hw

  pub elf_line-Says :
      (a b c d : ℕ)
      → a < 2 ^ 32
      → b < 2 ^ 32
      → c < 2 ^ 32
      → d < 2 ^ 32
      → Says (say elf_line (word a ∷ word b ∷ word c ∷ word d ∷ []) k) k (elf_text a b c d)
  elf_line-Says a b c d ha hb hc hd =
      let s1 = c_string "elf_sec: num = " in
      let s2 = c_string ", size = 0x" in
      let s3 = c_string ", addr = 0x" in
      let s4 = c_string ", shndx = 0x" in
      let ps4 = letters s4 ++ (hex8 d ∷ letters newline) in
      let ps3 = letters s3 ++ (hex8 c ∷ ps4) in
      let ps2 = letters s2 ++ (hex8 b ∷ ps3) in
      say-Says elf_line (word a ∷ word b ∷ word c ∷ word d ∷ []) (letters s1 ++ (unsigned a ∷ ps2))
        k refl refl (omega arith)
        (All-mixed s1 (unsigned a) ps2 refl ha (
          All-mixed s2 (hex8 b) ps3 refl hb (
            All-mixed s3 (hex8 c) ps4 refl hc
              (All-mixed s4 (hex8 d) (letters newline) refl hd (All-letters newline refl)))))
        on

  pub mmap_line-Says :
      (a b : ℕ)
      → a < 2 ^ 32
      → b < 2 ^ 32
      → Says (say mmap_line (word a ∷ word b ∷ []) k) k (mmap_text a b)
  mmap_line-Says a b ha hb =
      let s1 = c_string "mmap_addr = 0x" in
      let s2 = c_string ", mmap_length = 0x" in
      let ps2 = letters s2 ++ (hex b ∷ letters newline) in
      say-Says mmap_line (word a ∷ word b ∷ []) (letters s1 ++ (hex8 a ∷ ps2)) k refl refl
        (omega arith)
        (All-mixed s1 (hex8 a) ps2 refl ha
          (All-mixed s2 (hex b) (letters newline) refl hb (All-letters newline refl)))
        on

  pub region_line-Says :
      (a b c d e f : ℕ)
      → a < 2 ^ 32
      → b < 2 ^ 32
      → c < 2 ^ 32
      → d < 2 ^ 32
      → e < 2 ^ 32
      → f < 2 ^ 32
      → Says
          (say region_line (word a ∷ word b ∷ word c ∷ word d ∷ word e ∷ word f ∷ []) k)
          k
          (region_text a b c d e f)
  region_line-Says a b c d e f ha hb hc hd he hf =
      let s1 = c_string " size = 0x" in
      let s2 = c_string ",     base_addr = 0x" in
      let s4 = c_string "\n     type = 0x" in
      let s5 = c_string ",  length    = 0x" in
      let ps6 = letters [] ++ (hex8 f ∷ letters newline) in
      let ps5 = letters s5 ++ (hex8 e ∷ ps6) in
      let ps4 = letters s4 ++ (hex d ∷ ps5) in
      let ps3 = letters [] ++ (hex8 c ∷ ps4) in
      let ps2 = letters s2 ++ (hex8 b ∷ ps3) in
      say-Says region_line (word a ∷ word b ∷ word c ∷ word d ∷ word e ∷ word f ∷ [])
        (letters s1 ++ (hex a ∷ ps2)) k refl refl (omega arith)
        (All-mixed s1 (hex a) ps2 refl ha (
          All-mixed s2 (hex8 b) ps3 refl hb (
            All-mixed [] (hex8 c) ps4 refl hc (
              All-mixed s4 (hex d) ps5 refl hd (
                All-mixed s5 (hex8 e) ps6 refl he
                  (All-mixed [] (hex8 f) (letters newline) refl hf (All-letters newline refl)))))))
        on
