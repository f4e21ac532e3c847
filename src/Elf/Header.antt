-- ===== src/Elf/Header.antt =====
-- The header of an ELF file: how it is read and checked.
use baremetal_crt_host.Common.{
  ℕ, ◌+◌, ◌*◌, ◌%◌, Bool, true, false, ◌||◌, not, Option, none, some, [], ◌∷◌, Bytes, ◌==◌, ltb,
  leb, if◌then◌else◌,
}
use baremetal_crt_host.Cl.{Status, u32_mod, u64_mod}
use baremetal_crt_host.Runtime.{Ptr, ElfInfo}
use baremetal_crt_host.Runtime.Monad.{M, pure, test◌then◌else◌, ◌>>=◌, ◌>>◌, ◌⨟◌}
use baremetal_crt_host.Elf.{
  ElfFormat, EhdrFormat, plus, read_uint, read_u32, read_u64, load_elf, put_elf,
}

-- `p[0] == b0 && p[1] == b1 && ...`: a byte is read where those in front agree.
unfoldable pub bytes_are : Ptr → Bytes → M Bool
unfolding read_uint
bytes_are p [] = pure true
bytes_are p (b ∷ bs) = do
  c ← read_uint p 1
  test c == b then bytes_are (plus p 1) bs else pure false

-- The status and `*parch`
unfoldable pub prg_elf_get_class : ElfFormat → Ptr → M (Status × Option ℕ)
unfolding bytes_are read_uint
prg_elf_get_class fmt e_ident = do
  ok ← bytes_are e_ident fmt.elfmag
  test not ok then pure (Status.invalid_binary, none) else do
    c ← read_uint (plus e_ident fmt.ei_class) 1
    test c == fmt.elfclass32
        then pure (Status.success, some 32)
        else test c == fmt.elfclass64
        then pure (Status.success, some 64)
        else pure (Status.invalid_binary, none)

-- `off + num * size`, whose product is a `uint32_t` and whose sum a `uint64_t`
abbrev pub table_end : (off num size : ℕ) → ℕ
table_end off num size = (off + num * size % u32_mod) % u64_mod

unfoldable pub prg_elf_is_valid_header : ElfFormat → ElfInfo → Status
prg_elf_is_valid_header fmt elf =
    if not (elf.e_type == fmt.et_exec)
    then Status.invalid_binary
    else if not (elf.e_machine == fmt.em_riscv)
    then Status.invalid_binary
    else if elf.e_phoff == 0 || elf.e_phnum == 0 || elf.e_phentsize == 0
    then Status.invalid_binary
    else if ltb elf.elf_size (table_end elf.e_phoff elf.e_phnum elf.e_phentsize)
    then Status.invalid_binary
    else if ltb elf.elf_size (table_end elf.e_shoff elf.e_shnum elf.e_shentsize)
    then Status.invalid_binary
    else if elf.e_shentsize == 0
    then Status.invalid_binary
    else if ltb elf.elf_size (table_end elf.e_shoff elf.e_shnum elf.e_shentsize)
    then Status.invalid_binary
    else if leb elf.e_shnum elf.e_shstrndx
    then Status.invalid_binary
    else if not (elf.e_entry % 4 == 0)
    then Status.invalid_binary
    else Status.success

-- The common text of `prg_elf_read_elf32` and `prg_elf_read_elf64`, which differ in the structs
unfoldable pub read_ehdr : EhdrFormat → (phdr_size shdr_size : ℕ) → Ptr → M Status
unfolding load_elf read_u32 read_u64
read_ehdr f phdr_size shdr_size e = do
  elf ← load_elf e
  e_type ← read_u32 elf.buf f.e_type
  e_machine ← read_u32 elf.buf f.e_machine
  e_version ← read_u32 elf.buf f.e_version
  e_entry ← read_u64 elf.buf f.e_entry
  e_phoff ← read_u64 elf.buf f.e_phoff
  e_shoff ← read_u64 elf.buf f.e_shoff
  e_flags ← read_u32 elf.buf f.e_flags
  e_ehsize ← read_u32 elf.buf f.e_ehsize
  e_phentsize ← read_u32 elf.buf f.e_phentsize
  e_phnum ← read_u32 elf.buf f.e_phnum
  e_shentsize ← read_u32 elf.buf f.e_shentsize
  e_shnum ← read_u32 elf.buf f.e_shnum
  e_shstrndx ← read_u32 elf.buf f.e_shstrndx
  put_elf e (
      some (record elf {
        e_type = e_type;
        e_machine = e_machine;
        e_version = e_version;
        e_entry = e_entry;
        e_phoff = e_phoff;
        e_shoff = e_shoff;
        e_flags = e_flags;
        e_ehsize = e_ehsize;
        e_phentsize = e_phentsize;
        e_phnum = e_phnum;
        e_shentsize = e_shentsize;
        e_shnum = e_shnum;
        e_shstrndx = e_shstrndx;
      }))
  test ltb e_phentsize phdr_size || ltb e_shentsize shdr_size
      then pure Status.invalid_binary
      else pure Status.success

unfoldable pub prg_elf_read_elf32 : ElfFormat → Ptr → M Status
unfolding read_ehdr
prg_elf_read_elf32 fmt = read_ehdr fmt.ehdr32 fmt.phdr32.size fmt.shdr32.size

unfoldable pub prg_elf_read_elf64 : ElfFormat → Ptr → M Status
unfolding read_ehdr
prg_elf_read_elf64 fmt = read_ehdr fmt.ehdr64 fmt.phdr64.size fmt.shdr64.size

unfoldable pub prg_elf_read_elf : ElfFormat → Ptr → M Status
unfolding load_elf prg_elf_read_elf32 prg_elf_read_elf64
prg_elf_read_elf fmt e = do
  elf ← load_elf e
  (test elf.elf_class == 32
        then prg_elf_read_elf32 fmt e
        else test elf.elf_class == 64
        then prg_elf_read_elf64 fmt e
        else pure Status.invalid_binary)
      ⨟ do
        elf' ← load_elf e
        put_elf e (
            some (record elf' {
              p_hdr_ent = plus elf'.buf elf'.e_phoff;
              s_hdr_ent = plus elf'.buf elf'.e_shoff;
            }))
        pure Status.success
