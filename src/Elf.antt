-- ===== src/Elf.antt =====
-- The ELF loader, drivers/program_elf.c: its struct, and the access to the file. The layouts and
-- constants of elf.h are a parameter. The children hold the file's header, the tables of headers,
-- the loader with src/cl_program.c, and the proofs.
pub mod Header
pub mod Tables
pub mod Load
pub mod Mapped
pub mod Bounds
pub mod Chunks
pub mod ReadPh
pub mod Life
pub mod Sections
pub mod ReadHeader
pub mod Whole
use Prim.Native.Nat.{bit_and}
use baremetal_crt_host.Common.{
  ℕ, ◌+◌, ◌*◌, ◌%◌, Bool, true, false, ◌||◌, not, Option, none, some, List, [], ◌∷◌, Bytes, ◌==◌,
  ltb, leb, if◌then◌else◌,
}
use baremetal_crt_host.Cl.{Status, icd_magic, u32_mod, u64_mod}
use baremetal_crt_host.Runtime.{Ptr, null, ElfInfo, update}
use baremetal_crt_host.Runtime.Monad.{
  done, fault, M, pure, test◌then◌else◌, ◌>>=◌, ◌>>◌, ◌⨟◌, deref, calloc_struct,
}
use baremetal_crt_host.Runtime.Memory.{peek, le_value}
use baremetal_crt_host.Handles.{prg_is_valid, load_program, put_program}

-- Where a member of a struct of elf.h stands, and how many bytes it has.
pub record Field : Type 0 where
  pub at : ℕ
  pub width : ℕ

-- Elf32_Ehdr or Elf64_Ehdr
pub record EhdrFormat : Type 0 where
  pub e_type : Field
  pub e_machine : Field
  pub e_version : Field
  pub e_entry : Field
  pub e_phoff : Field
  pub e_shoff : Field
  pub e_flags : Field
  pub e_ehsize : Field
  pub e_phentsize : Field
  pub e_phnum : Field
  pub e_shentsize : Field
  pub e_shnum : Field
  pub e_shstrndx : Field

-- Elf32_Phdr or Elf64_Phdr, with its size
pub record PhdrFormat : Type 0 where
  pub size : ℕ
  pub p_type : Field
  pub p_flags : Field
  pub p_offset : Field
  pub p_vaddr : Field
  pub p_paddr : Field
  pub p_filesz : Field
  pub p_memsz : Field
  pub p_align : Field

-- Elf32_Shdr or Elf64_Shdr, with its size
pub record ShdrFormat : Type 0 where
  pub size : ℕ
  pub sh_name : Field
  pub sh_type : Field
  pub sh_flags : Field
  pub sh_addr : Field
  pub sh_offset : Field
  pub sh_size : Field
  pub sh_link : Field
  pub sh_info : Field
  pub sh_addralign : Field
  pub sh_entsize : Field

-- What the loader uses of elf.h: ELFMAG0 to ELFMAG3, and the constants and structs of these names.
pub record ElfFormat : Type 0 where
  pub elfmag : Bytes
  pub ei_class : ℕ
  pub elfclass32 : ℕ
  pub elfclass64 : ℕ
  pub et_exec : ℕ
  pub em_riscv : ℕ
  pub pt_load : ℕ
  pub pf_w : ℕ
  pub ehdr32 : EhdrFormat
  pub ehdr64 : EhdrFormat
  pub phdr32 : PhdrFormat
  pub phdr64 : PhdrFormat
  pub shdr32 : ShdrFormat
  pub shdr64 : ShdrFormat

-- A pointer plus an offset
abbrev pub plus : Ptr → ℕ → Ptr
plus p n = (p + n) % u64_mod

-- An unsigned integer of `n` bytes in memory; a fault where it is not mapped.
unfoldable pub read_uint : Ptr → ℕ → M ℕ
unfolding peek le_value
read_uint p n w = elim (peek w.memory p n) [ none ↦ fault | some bs ↦ done (le_value bs) w ]

-- A member of a struct, stored in a `uint32_t` or a `uint64_t`
unfoldable pub read_u32 : Ptr → Field → M ℕ
unfolding read_uint
read_u32 base f = do v ← read_uint (plus base f.at) f.width; pure (v % u32_mod)

unfoldable pub read_u64 : Ptr → Field → M ℕ
unfolding read_uint
read_u64 base f = do v ← read_uint (plus base f.at) f.width; pure (v % u64_mod)

-- The struct behind a pointer, which the code follows without a test
unfoldable pub load_elf : Ptr → M ElfInfo
load_elf e = test e == null then (λ w. fault) else deref (λ w. w.elfs) e

abbrev pub put_elf : Ptr → Option ElfInfo → M (Unit {0})
put_elf e v w = done tt (record w { elfs = update w.elfs e v })

-- What `calloc` leaves in the struct
abbrev pub zero_elf : ElfInfo
zero_elf = record {
  magic = 0;
  prg = null;
  elf_size = 0;
  buf = null;
  p_hdr_ent = null;
  s_hdr_ent = null;
  shstr_ent = null;
  shstr_size = 0;
  elf_class = 0;
  e_type = 0;
  e_machine = 0;
  e_version = 0;
  e_entry = 0;
  e_phoff = 0;
  e_shoff = 0;
  e_flags = 0;
  e_ehsize = 0;
  e_phentsize = 0;
  e_phnum = 0;
  e_shentsize = 0;
  e_shnum = 0;
  e_shstrndx = 0;
  phs = none;
  shs = none;
  comm_sec = null;
  comm = record { addr = 0; size = 0 };
}

unfoldable pub prg_elf_is_valid : Ptr → M Status
unfolding prg_is_valid load_elf
prg_elf_is_valid prg = prg_is_valid prg ⨟ do
  p ← load_program prg
  test p.priv == null then pure Status.success else do
    elf ← load_elf p.priv
    test elf.magic == icd_magic then pure Status.success else pure Status.invalid_program

unfoldable pub prg_elf_init : Ptr → M Status
unfolding calloc_struct
prg_elf_init prg = do
  t ← calloc_struct
  test t == null then pure Status.out_of_host_memory else do
    put_elf t (some (record zero_elf { magic = icd_magic; prg = prg }))
    p ← load_program prg
    put_program prg (some (record p { priv = t }))
    pure Status.success

-- `shs` and `phs` are freed with the struct.
unfoldable pub prg_elf_fini : Ptr → M Status
unfolding load_elf
prg_elf_fini prg = do
  p ← load_program prg
  test p.priv == null then pure Status.success else do
    put_program prg (some (record p { priv = null }))
    _ ← load_elf p.priv
    put_elf p.priv none
    pure Status.success
