-- ===== src/Boot/Report.antt =====
-- What `entry` of student-distrib/kernel.c has to tell of the boot loader's information: the text, piece
-- by piece, from what stands in memory.
use apoll_os.Prelude.{
  ℕ, zero, suc, ◌+◌, ◌-◌, ◌*◌, ◌/◌, ◌%◌, ◌^◌, ◌≡◌, Bool, true, false, some, List, [], ◌∷◌, ◌++◌,
  ltb, ◌==◌, if◌then◌else◌, c_string, u32,
}
use apoll_os.Printf.Pieces.{Piece, character, hex, hex8, unsigned, signed, string, ShowsAll}
use apoll_os.Screen.{Screen}
use apoll_os.Screen.Bounds.{IsOnScreen}
use apoll_os.Tty.Writing.{put_all}

-- A fixed text, up to its NUL.
abbrev pub letters : List ℕ → List Piece
letters [] = []
letters (c ∷ s) = if c == 0 then [] else character c ∷ letters s

-- The pieces have been put on the screen, one after the other.
pub record Told (s : Screen) (ps : List Piece) (s' : Screen) : Type 0 where
  pub shown : List ℕ
  pub shows : ShowsAll ps shown
  pub put : put_all shown s ≡ some s'
  pub inside : IsOnScreen s'

-- The little-endian word, the byte and the text at the start of some memory.
abbrev pub word_from : List ℕ → ℕ
word_from (a ∷ (b ∷ (c ∷ (d ∷ rest)))) = a + b * 256 + c * 65536 + d * 16777216
word_from _ = 0

abbrev pub byte_from : List ℕ → ℕ
byte_from (a ∷ rest) = a
byte_from [] = 0

abbrev pub text_from : List ℕ → List ℕ
text_from [] = []
text_from (c ∷ s) = if c == 0 then [] else c ∷ text_from s

-- A bit of the flags.
abbrev pub flag_on : ℕ → ℕ → Bool
flag_on flags i = flags / 2 ^ i % 2 == 1

abbrev pub told_if : Bool → List Piece → List Piece
told_if false ps = []
told_if true ps = ps

abbrev pub line_end : List ℕ
line_end = c_string "\n"

abbrev pub flags_text : ℕ → List Piece
flags_text w = letters (c_string "flags = 0x") ++ (hex8 w ∷ letters line_end)

abbrev pub mem_text : ℕ → ℕ → List Piece
mem_text v w =
    letters (c_string "mem_lower = ")
    ++ (unsigned v
        ∷ (letters (c_string "KB, mem_upper = ") ++ (unsigned w ∷ letters (c_string "KB\n"))))

abbrev pub device_text : ℕ → List Piece
device_text w = letters (c_string "boot_device = 0x") ++ (hex8 w ∷ letters line_end)

abbrev pub cmdline_text : List ℕ → List ℕ → List Piece
cmdline_text t rest = letters (c_string "cmdline = ") ++ (string t rest ∷ letters line_end)

-- A module's number, counted from 0, and an address.
abbrev pub module_text : List ℕ → ℕ → ℕ → List Piece
module_text mid i w =
    letters (c_string "Module ") ++ (signed i ∷ (letters mid ++ (hex8 w ∷ letters line_end)))

abbrev pub byte_text : ℕ → List Piece
byte_text w = letters (c_string "0x") ++ (hex w ∷ letters (c_string " "))

abbrev pub elf_text : ℕ → ℕ → ℕ → ℕ → List Piece
elf_text a b c d =
    letters (c_string "elf_sec: num = ")
    ++ (unsigned a
        ∷ (letters (c_string ", size = 0x")
            ++ (hex8 b
                ∷ (letters (c_string ", addr = 0x")
                    ++ (hex8 c
                        ∷ (letters (c_string ", shndx = 0x") ++ (hex8 d ∷ letters line_end)))))))

abbrev pub mmap_text : ℕ → ℕ → List Piece
mmap_text a b =
    letters (c_string "mmap_addr = 0x")
    ++ (hex8 a ∷ (letters (c_string ", mmap_length = 0x") ++ (hex b ∷ letters line_end)))

-- A region: its entry's size, the 64 bits of its address, its type, and the 64 bits of its length.
abbrev pub region_text : ℕ → ℕ → ℕ → ℕ → ℕ → ℕ → List Piece
region_text a b c d e f =
    letters (c_string " size = 0x")
    ++ (hex a
        ∷ (letters (c_string ",     base_addr = 0x")
            ++ (hex8 b
                ∷ (hex8 c
                    ∷ (letters (c_string "\n     type = 0x")
                        ++ (hex d
                            ∷ (letters (c_string ",  length    = 0x")
                                ++ (hex8 e ∷ (hex8 f ∷ letters line_end)))))))))

module _ (memory : ℕ → List ℕ) where
  abbrev pub word_in : ℕ → ℕ
  word_in a = word_from (memory (u32 a))

  abbrev pub byte_in : ℕ → ℕ
  byte_in a = byte_from (memory (u32 a))

  -- A byte as the char that it is shown as: from 0x80 on with ones in front.
  abbrev pub char_in : ℕ → ℕ
  char_in a = if ltb (byte_in a) 128 then byte_in a else byte_in a + (2 ^ 32 - 2 ^ 8)

  abbrev pub bytes_report : ℕ → ℕ → ℕ → List Piece
  bytes_report zero i start = []
  bytes_report (suc n) i start = byte_text (char_in (start + i)) ++ bytes_report n (i + 1) start

  abbrev pub modules_report : ℕ → ℕ → ℕ → List Piece
  modules_report zero i addr = []
  modules_report (suc n) i addr =
      module_text (c_string " loaded at address: 0x") i (word_in addr)
      ++ (module_text (c_string " ends at address: 0x") i (word_in (addr + 4))
          ++ (letters (c_string "First few bytes of module:\n")
              ++ (bytes_report 16 0 (word_in addr)
                  ++ (letters line_end ++ modules_report n (i + 1) (u32 (addr + 16))))))

  -- At most `n` regions, up to the end of the map.
  abbrev pub map_report : ℕ → ℕ → ℕ → List Piece
  map_report zero mmap stop = []
  map_report (suc n) mmap stop = told_if (ltb mmap stop) (
      region_text (word_in mmap) (word_in (mmap + 8)) (word_in (mmap + 4)) (word_in (mmap + 20))
        (word_in (mmap + 16)) (word_in (mmap + 12))
      ++ map_report n (mmap + word_in mmap + 4) stop)

  abbrev pub mmap_report : ℕ → List Piece
  mmap_report mbi =
      let size = word_in (mbi + 44) in
      let addr = word_in (mbi + 48) in
      mmap_text addr size ++ map_report (size / 4 + 1) addr (u32 (addr + size))

  abbrev pub module_report : ℕ → List Piece
  module_report mbi =
      letters (c_string "Initing Read Only File System... ")
      ++ (letters (c_string "Done!\n")
          ++ modules_report (word_in (mbi + 20)) 0 (word_in (mbi + 24)))

  abbrev pub info_report : ℕ → List Piece
  info_report mbi =
      let flags = word_in mbi in
      flags_text flags
      ++ (told_if (flag_on flags 0) (mem_text (word_in (mbi + 4)) (word_in (mbi + 8)))
          ++ (told_if (flag_on flags 1) (device_text (word_in (mbi + 12)))
              ++ (told_if (flag_on flags 2)
                    (cmdline_text (text_from (memory (word_in (mbi + 16)))) [])
                  ++ told_if (flag_on flags 3) (module_report mbi))))

  -- The whole of it.
  abbrev pub report : ℕ → List Piece
  report mbi =
      let flags = word_in mbi in
      info_report mbi
      ++ (told_if (flag_on flags 5) (
            elf_text (word_in (mbi + 28)) (word_in (mbi + 32)) (word_in (mbi + 36))
              (word_in (mbi + 40)))
          ++ told_if (flag_on flags 6) (mmap_report mbi))
