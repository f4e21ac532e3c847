-- ===== src/Tests/ElfFile.antt =====
-- The layouts and constants of elf.h, and a small file.
use baremetal_crt_host.Common.{
  ℕ, ◌-◌, Bytes, Option, none, some, [], ◌∷◌, ltb, get_elem?, if◌then◌else◌,
}
use baremetal_crt_host.Elf.{EhdrFormat, PhdrFormat, ShdrFormat, ElfFormat}

abbrev ehdr32_1 : EhdrFormat
ehdr32_1 = record {
  e_type = record { at = 16; width = 2 };
  e_machine = record { at = 18; width = 2 };
  e_version = record { at = 20; width = 4 };
  e_entry = record { at = 24; width = 4 };
  e_phoff = record { at = 28; width = 4 };
  e_shoff = record { at = 32; width = 4 };
  e_flags = record { at = 36; width = 4 };
  e_ehsize = record { at = 40; width = 2 };
  e_phentsize = record { at = 42; width = 2 };
  e_phnum = record { at = 44; width = 2 };
  e_shentsize = record { at = 46; width = 2 };
  e_shnum = record { at = 48; width = 2 };
  e_shstrndx = record { at = 50; width = 2 };
}

abbrev ehdr64_1 : EhdrFormat
ehdr64_1 = record {
  e_type = record { at = 16; width = 2 };
  e_machine = record { at = 18; width = 2 };
  e_version = record { at = 20; width = 4 };
  e_entry = record { at = 24; width = 8 };
  e_phoff = record { at = 32; width = 8 };
  e_shoff = record { at = 40; width = 8 };
  e_flags = record { at = 48; width = 4 };
  e_ehsize = record { at = 52; width = 2 };
  e_phentsize = record { at = 54; width = 2 };
  e_phnum = record { at = 56; width = 2 };
  e_shentsize = record { at = 58; width = 2 };
  e_shnum = record { at = 60; width = 2 };
  e_shstrndx = record { at = 62; width = 2 };
}

abbrev phdr32_1 : PhdrFormat
phdr32_1 = record {
  size = 32;
  p_type = record { at = 0; width = 4 };
  p_offset = record { at = 4; width = 4 };
  p_vaddr = record { at = 8; width = 4 };
  p_paddr = record { at = 12; width = 4 };
  p_filesz = record { at = 16; width = 4 };
  p_memsz = record { at = 20; width = 4 };
  p_flags = record { at = 24; width = 4 };
  p_align = record { at = 28; width = 4 };
}

abbrev phdr64_1 : PhdrFormat
phdr64_1 = record {
  size = 56;
  p_type = record { at = 0; width = 4 };
  p_flags = record { at = 4; width = 4 };
  p_offset = record { at = 8; width = 8 };
  p_vaddr = record { at = 16; width = 8 };
  p_paddr = record { at = 24; width = 8 };
  p_filesz = record { at = 32; width = 8 };
  p_memsz = record { at = 40; width = 8 };
  p_align = record { at = 48; width = 8 };
}

abbrev shdr32_1 : ShdrFormat
shdr32_1 = record {
  size = 40;
  sh_name = record { at = 0; width = 4 };
  sh_type = record { at = 4; width = 4 };
  sh_flags = record { at = 8; width = 4 };
  sh_addr = record { at = 12; width = 4 };
  sh_offset = record { at = 16; width = 4 };
  sh_size = record { at = 20; width = 4 };
  sh_link = record { at = 24; width = 4 };
  sh_info = record { at = 28; width = 4 };
  sh_addralign = record { at = 32; width = 4 };
  sh_entsize = record { at = 36; width = 4 };
}

abbrev shdr64_1 : ShdrFormat
shdr64_1 = record {
  size = 64;
  sh_name = record { at = 0; width = 4 };
  sh_type = record { at = 4; width = 4 };
  sh_flags = record { at = 8; width = 8 };
  sh_addr = record { at = 16; width = 8 };
  sh_offset = record { at = 24; width = 8 };
  sh_size = record { at = 32; width = 8 };
  sh_link = record { at = 40; width = 4 };
  sh_info = record { at = 44; width = 4 };
  sh_addralign = record { at = 48; width = 8 };
  sh_entsize = record { at = 56; width = 8 };
}

abbrev pub elf_h : ElfFormat
elf_h = record {
  elfmag = 127 ∷ 69 ∷ 76 ∷ 70 ∷ [];
  ei_class = 4;
  elfclass32 = 1;
  elfclass64 = 2;
  et_exec = 2;
  em_riscv = 243;
  pt_load = 1;
  pf_w = 2;
  ehdr32 = ehdr32_1;
  ehdr64 = ehdr64_1;
  phdr32 = phdr32_1;
  phdr64 = phdr64_1;
  shdr32 = shdr32_1;
  shdr64 = shdr64_1;
}

-- 52 bytes of header, a program header, three section headers, their names, and the magic number
-- of the section `.comm`
abbrev pub file_1 : Bytes
file_1 =
    127 ∷ 69 ∷ 76 ∷ 70 ∷ 1 ∷ 1 ∷ 1 ∷ 0 ∷ 0 ∷ 0 ∷ 0 ∷ 0 ∷ 0 ∷ 0 ∷ 0 ∷ 0 ∷ 2 ∷ 0 ∷ 243 ∷ 0 ∷ 1 ∷ 0 ∷ 0
    ∷ 0 ∷ 64 ∷ 0 ∷ 0 ∷ 0 ∷ 52 ∷ 0 ∷ 0 ∷ 0 ∷ 84 ∷ 0 ∷ 0 ∷ 0 ∷ 0 ∷ 0 ∷ 0 ∷ 0 ∷ 52 ∷ 0 ∷ 32 ∷ 0 ∷ 1 ∷ 0
    ∷ 40 ∷ 0 ∷ 3 ∷ 0 ∷ 0 ∷ 0 ∷ 1 ∷ 0 ∷ 0 ∷ 0 ∷ 0 ∷ 0 ∷ 0 ∷ 0 ∷ 64 ∷ 0 ∷ 0 ∷ 0 ∷ 64 ∷ 0 ∷ 0 ∷ 0 ∷ 4
    ∷ 0 ∷ 0 ∷ 0 ∷ 4 ∷ 0 ∷ 0 ∷ 0 ∷ 5 ∷ 0 ∷ 0 ∷ 0 ∷ 4 ∷ 0 ∷ 0 ∷ 0 ∷ 0 ∷ 0 ∷ 0 ∷ 0 ∷ 3 ∷ 0 ∷ 0 ∷ 0 ∷ 0
    ∷ 0 ∷ 0 ∷ 0 ∷ 0 ∷ 0 ∷ 0 ∷ 0 ∷ 204 ∷ 0 ∷ 0 ∷ 0 ∷ 18 ∷ 0 ∷ 0 ∷ 0 ∷ 0 ∷ 0 ∷ 0 ∷ 0 ∷ 0 ∷ 0 ∷ 0 ∷ 0
    ∷ 0 ∷ 0 ∷ 0 ∷ 0 ∷ 0 ∷ 0 ∷ 0 ∷ 0 ∷ 1 ∷ 0 ∷ 0 ∷ 0 ∷ 1 ∷ 0 ∷ 0 ∷ 0 ∷ 0 ∷ 0 ∷ 0 ∷ 0 ∷ 0 ∷ 0 ∷ 0 ∷ 0
    ∷ 222 ∷ 0 ∷ 0 ∷ 0 ∷ 4 ∷ 0 ∷ 0 ∷ 0 ∷ 0 ∷ 0 ∷ 0 ∷ 0 ∷ 0 ∷ 0 ∷ 0 ∷ 0 ∷ 0 ∷ 0 ∷ 0 ∷ 0 ∷ 0 ∷ 0 ∷ 0
    ∷ 0 ∷ 7 ∷ 0 ∷ 0 ∷ 0 ∷ 8 ∷ 0 ∷ 0 ∷ 0 ∷ 0 ∷ 0 ∷ 0 ∷ 0 ∷ 0 ∷ 48 ∷ 0 ∷ 0 ∷ 0 ∷ 0 ∷ 0 ∷ 0 ∷ 0 ∷ 1 ∷ 0
    ∷ 0 ∷ 0 ∷ 0 ∷ 0 ∷ 0 ∷ 0 ∷ 0 ∷ 0 ∷ 0 ∷ 0 ∷ 0 ∷ 0 ∷ 0 ∷ 0 ∷ 0 ∷ 0 ∷ 0 ∷ 0 ∷ 46 ∷ 99 ∷ 111 ∷ 109
    ∷ 109 ∷ 0 ∷ 46 ∷ 99 ∷ 111 ∷ 109 ∷ 109 ∷ 95 ∷ 97 ∷ 114 ∷ 101 ∷ 97 ∷ 0 ∷ 229 ∷ 175 ∷ 220 ∷ 186
    ∷ []

abbrev pub byte_at : Option ℕ → ℕ
byte_at none = 0
byte_at (some b) = b

-- The file at 5000
abbrev pub file_memory : ℕ → Option ℕ
file_memory q =
    if ltb 4999 q
    then (if ltb q 5226 then some (byte_at (get_elem? file_1 (q - 5000))) else none)
    else none
