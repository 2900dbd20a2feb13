-- ===== src/Boot.antt =====
-- `entry` of student-distrib/kernel.c: the boot loader's information is shown, the
-- file system is found, and the devices are started.
pub mod Report
pub mod Messages
pub mod Memory
pub mod Loops
pub mod Information
pub mod Entry
use apoll_os.Prelude.{
  ℕ, zero, suc, ◌+◌, ◌/◌, Bool, true, false, ◌&&◌, Option, none, some, List, [], ◌∷◌, ltb, ◌!=◌,
  if◌then◌else◌, length, get_elem?, set, ◌>>=◌, c_string, u32, sign8,
}
use apoll_os.Pic.{i8259_init, enable_irq}
use apoll_os.Paging.{Layout, init_paging}
use apoll_os.Rofs.{Fs, BootBlock, Dentry, Inode, Pointers, init_rofs}
use apoll_os.Rtc.{word_of}
use apoll_os.Printf.{Arg, word, str, printf, clear}
use apoll_os.Kernel.{Kernel, kernel_ds, cli, sti}
use apoll_os.Keyboard.{set_keyboard}
use apoll_os.Execute.{Flow, returned}
use apoll_os.Terminal.{init_terminals}
use apoll_os.Gdt.{
  kernel_tss, kernel_ldt, tss_size_bytes, SegDesc, set_params, Segments, Linker, ldt_size, tss_size,
  the_ldt_desc, the_tss_desc, set_segments,
}
use apoll_os.Multiboot.{
  multiboot_bootloader_magic, mem_lower_at, mem_upper_at, boot_device_at, cmdline_at, mods_count_at,
  mods_addr_at, elf_sec_at, mmap_length_at, mmap_addr_at, elf_size_at, elf_addr_at, elf_shndx_at,
  mod_end_at, module_size, base_addr_low_at, base_addr_high_at, length_low_at, length_high_at,
  type_at, check_flag,
}

-- The line of the keyboard.
unfoldable pub init_keyboard : Kernel → Kernel
init_keyboard k = sti (
    set_keyboard (λ kb. record kb { key_buffer_pos = 0 })
      (record (cli k) { pic = enable_irq 1 k.pic }))

-- One message on the screen.
abbrev pub say : List ℕ → List Arg → Kernel → Option Kernel
say format args k = do
  (_, screen) ← printf format args k.screen
  some (record k { screen = screen })

-- The messages.
abbrev pub invalid_magic : List ℕ
invalid_magic = c_string "Invalid magic number: 0x%#x\n"

abbrev pub flags_line : List ℕ
flags_line = c_string "flags = 0x%#x\n"

abbrev pub mem_line : List ℕ
mem_line = c_string "mem_lower = %uKB, mem_upper = %uKB\n"

abbrev pub device_line : List ℕ
device_line = c_string "boot_device = 0x%#x\n"

abbrev pub cmdline_line : List ℕ
cmdline_line = c_string "cmdline = %s\n"

abbrev pub initing : List ℕ
initing = c_string "Initing Read Only File System... "

abbrev pub done : List ℕ
done = c_string "Done!\n"

abbrev pub loaded_line : List ℕ
loaded_line = c_string "Module %d loaded at address: 0x%#x\n"

abbrev pub ends_line : List ℕ
ends_line = c_string "Module %d ends at address: 0x%#x\n"

abbrev pub first_bytes : List ℕ
first_bytes = c_string "First few bytes of module:\n"

abbrev pub byte_format : List ℕ
byte_format = c_string "0x%x "

abbrev pub newline : List ℕ
newline = c_string "\n"

abbrev pub both_set : List ℕ
both_set = c_string "Both bits 4 and 5 are set.\n"

abbrev pub elf_line : List ℕ
elf_line = c_string "elf_sec: num = %u, size = 0x%#x, addr = 0x%#x, shndx = 0x%#x\n"

abbrev pub mmap_line : List ℕ
mmap_line = c_string "mmap_addr = 0x%#x, mmap_length = 0x%x\n"

abbrev pub region_line : List ℕ
region_line =
    c_string " size = 0x%x,     base_addr = 0x%#x%#x\n     type = 0x%x,  length    = 0x%#x%#x\n"

-- `memory a` is what stands in memory from the address `a` on, and `fs_at a` the file system in the
-- boot loader's module at `a`, as `init_rofs` finds its parts there.
module _ (memory : ℕ → List ℕ) (fs_at : ℕ → Option Fs) (l : Layout) (at : Linker) where
  abbrev pub read_word : ℕ → Option ℕ
  read_word a = word_of (memory (u32 a))

  -- The loop over the first 16 bytes; a byte is a char that becomes an int.
  pub bytes_loop : ℕ → ℕ → ℕ → Kernel → Option Kernel
  bytes_loop zero i start k = some k
  bytes_loop (suc n) i start k = do
    c ← get_elem? (memory (u32 (start + i))) 0
    k' ← say byte_format (word (sign8 c) ∷ []) k
    bytes_loop n (i + 1) start k'

  -- The loop over the modules, `mod_count` from `i` on.
  pub modules_loop : ℕ → ℕ → ℕ → Kernel → Option Kernel
  unfolding bytes_loop
  modules_loop zero i mod_addr k = some k
  modules_loop (suc n) i mod_addr k = do
    mod_start ← read_word mod_addr
    mod_end ← read_word (mod_addr + mod_end_at)
    k1 ← say loaded_line (word i ∷ word mod_start ∷ []) k
    k2 ← say ends_line (word i ∷ word mod_end ∷ []) k1
    k3 ← say first_bytes [] k2
    k4 ← bytes_loop 16 0 mod_start k3
    k5 ← say newline [] k4
    modules_loop n (i + 1) (u32 (mod_addr + module_size)) k5

  -- The file system is the first module.
  pub load_modules : ℕ → Kernel → Option Kernel
  unfolding modules_loop
  load_modules mbi k = do
    mods_count ← read_word (mbi + mods_count_at)
    mods_addr ← read_word (mbi + mods_addr_at)
    k1 ← say initing [] k
    mod_start ← read_word mods_addr
    fs ← fs_at mod_start
    k2 ← say done [] (record k1 { fs = fs })
    modules_loop mods_count 0 mods_addr k2

  -- The loop over the memory map. Fuel ends it only where sizes wrap around.
  pub mmap_loop : ℕ → ℕ → ℕ → Kernel → Option Kernel
  mmap_loop zero mmap stop k = none
  mmap_loop (suc fuel) mmap stop k =
      let next = (do
        size ← read_word mmap
        base_addr_low ← read_word (mmap + base_addr_low_at)
        base_addr_high ← read_word (mmap + base_addr_high_at)
        length_low ← read_word (mmap + length_low_at)
        length_high ← read_word (mmap + length_high_at)
        type ← read_word (mmap + type_at)
        k' ←
            say region_line
              (word size
                ∷ word base_addr_high
                ∷ word base_addr_low
                ∷ word type
                ∷ word length_high
                ∷ word length_low
                ∷ [])
              k
        mmap_loop fuel (u32 (mmap + size + 4)) stop k') in
      if ltb mmap stop then next else some k

  -- A part of `entry` that a flag asks for.
  abbrev pub when : Bool → (Kernel → Option Kernel) → Kernel → Option Kernel
  when false act k = some k
  when true act k = act k

  pub show_mem : ℕ → Kernel → Option Kernel
  show_mem mbi k = do
    mem_lower ← read_word (mbi + mem_lower_at)
    mem_upper ← read_word (mbi + mem_upper_at)
    say mem_line (word mem_lower ∷ word mem_upper ∷ []) k

  pub show_device : ℕ → Kernel → Option Kernel
  show_device mbi k = do
    boot_device ← read_word (mbi + boot_device_at)
    say device_line (word boot_device ∷ []) k

  pub show_cmdline : ℕ → Kernel → Option Kernel
  show_cmdline mbi k = do
    cmdline ← read_word (mbi + cmdline_at)
    say cmdline_line (str (memory cmdline) ∷ []) k

  pub show_elf : ℕ → Kernel → Option Kernel
  show_elf mbi k = do
    num ← read_word (mbi + elf_sec_at)
    size ← read_word (mbi + (elf_sec_at + elf_size_at))
    addr ← read_word (mbi + (elf_sec_at + elf_addr_at))
    shndx ← read_word (mbi + (elf_sec_at + elf_shndx_at))
    say elf_line (word num ∷ word size ∷ word addr ∷ word shndx ∷ []) k

  pub show_mmap : ℕ → Kernel → Option Kernel
  show_mmap mbi k = do
    mmap_length ← read_word (mbi + mmap_length_at)
    mmap_addr ← read_word (mbi + mmap_addr_at)
    k' ← say mmap_line (word mmap_addr ∷ word mmap_length ∷ []) k
    mmap_loop (mmap_length / 4 + 2) mmap_addr (u32 (mmap_addr + mmap_length)) k'

  -- The segments, and the devices; the shell of the first terminal is entered at the end.
  pub start_devices : Kernel → Option Flow
  start_devices k = do
    let k1 = record k { tss_ss0 = kernel_ds; tss_esp0 = 0x800000 }
    let k2 = sti (init_keyboard (record k1 { pic = i8259_init k1.pic }))
    paging ← init_paging l k2.paging
    init_terminals l (record k2 { paging = paging })

  pub show_info : ℕ → ℕ → Kernel → Option Kernel
  show_info flags mbi k = do
    k1 ← say flags_line (word flags ∷ []) k
    k2 ← when (check_flag flags 0) (show_mem mbi) k1
    k3 ← when (check_flag flags 1) (show_device mbi) k2
    k4 ← when (check_flag flags 2) (show_cmdline mbi) k3
    when (check_flag flags 3) (load_modules mbi) k4

  -- `returned` where the code returns, and where `init_terminals` does: the processor then halts.
  pub entry : ℕ → ℕ → Segments → Kernel → Option (Segments × Flow)
  entry magic mbi seg k = do
    screen ← clear k.screen
    let k0 = record k { screen = screen }
    if magic != multiboot_bootloader_magic
        then (do k1 ← say invalid_magic (word magic ∷ []) k0; some (seg, returned 0 k1))
        else (do
          flags ← read_word mbi
          k1 ← show_info flags mbi k0
          if check_flag flags 4 && check_flag flags 5
              then (do k2 ← say both_set [] k1; some (seg, returned 0 k2))
              else (do
                k2 ← when (check_flag flags 5) (show_elf mbi) k1
                k3 ← when (check_flag flags 6) (show_mmap mbi) k2
                flow ← start_devices k3
                some (set_segments at, flow)))
