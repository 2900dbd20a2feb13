-- ===== src/Multiboot.antt =====
-- The structures of student-distrib/multiboot.h: where their fields stand behind their address.
use apoll_os.Prelude.{ℕ, ◌^◌, bit_and, Bool, ◌!=◌}

abbrev pub multiboot_bootloader_magic : ℕ
multiboot_bootloader_magic = 0x2BADB002

-- Where the fields stand in multiboot_info_t, each a word.
abbrev pub mem_lower_at : ℕ
mem_lower_at = 4

abbrev pub mem_upper_at : ℕ
mem_upper_at = 8

abbrev pub boot_device_at : ℕ
boot_device_at = 12

abbrev pub cmdline_at : ℕ
cmdline_at = 16

abbrev pub mods_count_at : ℕ
mods_count_at = 20

abbrev pub mods_addr_at : ℕ
mods_addr_at = 24

abbrev pub elf_sec_at : ℕ
elf_sec_at = 28

abbrev pub mmap_length_at : ℕ
mmap_length_at = 44

abbrev pub mmap_addr_at : ℕ
mmap_addr_at = 48

-- In elf_section_header_table_t.
abbrev pub elf_size_at : ℕ
elf_size_at = 4

abbrev pub elf_addr_at : ℕ
elf_addr_at = 8

abbrev pub elf_shndx_at : ℕ
elf_shndx_at = 12

-- In module_t, and its size.
abbrev pub mod_end_at : ℕ
mod_end_at = 4

abbrev pub module_size : ℕ
module_size = 16

-- In memory_map_t.
abbrev pub base_addr_low_at : ℕ
base_addr_low_at = 4

abbrev pub base_addr_high_at : ℕ
base_addr_high_at = 8

abbrev pub length_low_at : ℕ
length_low_at = 12

abbrev pub length_high_at : ℕ
length_high_at = 16

abbrev pub type_at : ℕ
type_at = 20

-- CHECK_FLAG.
abbrev pub check_flag : ℕ → ℕ → Bool
check_flag flags bit = bit_and flags (2 ^ bit) != 0
