-- ===== src/Tests/Starting.antt =====
-- The start of the kernel, and a message, on a small machine.
use apoll_os.Prelude.{
  ℕ, ◌≡◌, refl, ◌≢◌, arith, false, Option, some, List, [], ◌∷◌, ◌==◌, All, length-replicate,
  c_string,
}
use apoll_os.Screen.{Screen}
use apoll_os.Screen.Bounds.{IsOnScreen}
use apoll_os.Rofs.{Fs}
use apoll_os.Printf.{printf}
use apoll_os.Printf.Pieces.{
  Piece, character, percent, hex8, signed, string, IsPiece, arguments, ShowsAll,
}
use apoll_os.Printf.Formats.{printf-Prints}
use apoll_os.Tty.Writing.{put_all}
use apoll_os.Paging.{Paging, init_paging}
use apoll_os.Paging.Translate.{translate}
use apoll_os.Paging.Start.{HasTables, IsAligned, translate-init_paging}
use apoll_os.Kernel.{Kernel}
use apoll_os.Gdt.{Segments, Linker, set_params, the_tss_desc, the_ldt_desc}
use apoll_os.Gdt.Descriptors.{base_of, limit_of, FitsFields, set_params-base_of}
use apoll_os.Tests.Data.{small_fs, empty_paging, layout, kernel_with, blank_screen, on_screen}

-- "-5 is 0xfffffffb%"
abbrev pieces : List Piece
pieces =
    signed 0xfffffffb
    ∷ character 32
    ∷ string (105 ∷ 115 ∷ []) []
    ∷ character 32
    ∷ hex8 0xfffffffb
    ∷ percent
    ∷ []

pieces-IsPiece : All IsPiece pieces
pieces-IsPiece = (
  omega arith,
  (
    ok 32 refl refl,
    (((ne 105 refl, (ne 115 refl, tt)), omega arith), (ok 32 refl refl, (omega arith, (tt, tt)))),
  ),
)
  where
    ok : (c : ℕ) → (c == 0) ≡ false → (c == 37) ≡ false → (c ≢ 0) × (c ≢ 37)
    ok c z p = (ground arith, ground arith)

    ne : (c : ℕ) → (c == 0) ≡ false → c ≢ 0
    ne c z = ground arith

printf-Prints_example :
    (shown : List ℕ) × (s' : Screen) × (printf
        (c_string "%d %s %#x%%")
        (arguments pieces)
        (blank_screen 7 0)
      ≡ some (11, s'))
    × ShowsAll pieces shown
    × (put_all shown (blank_screen 7 0) ≡ some s')
    × IsOnScreen s'
printf-Prints_example =
    printf-Prints pieces [] [] (blank_screen 7 0) pieces-IsPiece (omega arith) on_screen

empty_paging-HasTables : HasTables empty_paging
empty_paging-HasTables = record {
  dir = length-replicate {A = ℕ} 1024 0;
  table = length-replicate {A = ℕ} 1024 0;
}

layout-IsAligned : IsAligned layout 0x402
layout-IsAligned = record { table = refl; small = omega arith }

translate-init_paging_example :
    (p' : Paging) × (init_paging layout empty_paging ≡ some p')
    × (translate layout p' 0xb8123 ≡ some (record { physical = 0xb8123; user = false }))
    × (p'.cr3 ≡ 0x401000)
    × (p'.cr0 ≡ 0x80000000)
    × (p'.cr4 ≡ 0x10)
translate-init_paging_example =
    translate-init_paging layout empty_paging 0x402 0xb8123 layout-IsAligned empty_paging-HasTables
      (omega arith)

set_params-base_of_example :
    (base_of (set_params 0x12345678 0x67 the_tss_desc) ≡ 0x12345678)
    × (limit_of (set_params 0x12345678 0x67 the_tss_desc) ≡ 0x67)
    × FitsFields (set_params 0x12345678 0x67 the_tss_desc)
set_params-base_of_example =
    set_params-base_of 0x12345678 0x67 the_tss_desc (omega arith) (omega arith)

-- The word 15 stands at every address: the flags 0 to 3, 15 modules, and the text of one character.
abbrev memory : ℕ → List ℕ
memory a = 15 ∷ 0 ∷ 0 ∷ 0 ∷ []

abbrev fs_at : ℕ → Option Fs
fs_at a = some small_fs

abbrev linker : Linker
linker = record { ldt = 0x400100; tss = 0x400200 }

abbrev no_segments : Segments
no_segments = record {
  ldt_desc_ptr = the_ldt_desc;
  tss_desc_ptr = the_tss_desc;
  ldt_segment_selector = 0;
  ldtr = 0;
  tr = 0;
}

abbrev off_kernel : Kernel
off_kernel = kernel_with [] 0 0 0x800000
