-- ===== src/Elf/ReadHeader.antt =====
-- `prg_elf_read_elf` on a header whose members can be read.
use baremetal_crt_host.Common.{
  ℕ, ◌≤◌, ◌≡◌, ◌≢◌, inl, inr, refl, true, false, ◌||◌, some, ◌==◌, ltb, if◌then◌else◌, arith,
}
use baremetal_crt_host.Cl.{Status}
use baremetal_crt_host.Runtime.{Ptr, null, ElfInfo, World, update}
use baremetal_crt_host.Runtime.Monad.{done}
use baremetal_crt_host.Runtime.Memory.{ByteMap}
use baremetal_crt_host.Elf.{EhdrFormat, ElfFormat, plus, read_u32, read_u64, load_elf}
use baremetal_crt_host.Elf.Header.{
  read_ehdr, prg_elf_read_elf32, prg_elf_read_elf64, prg_elf_read_elf,
}
use baremetal_crt_host.Elf.Mapped.{Reads}
use baremetal_crt_host.Elf.ReadPh.{HasClass, phdr_format}
use baremetal_crt_host.Elf.Sections.{shdr_format}

-- The members of the header at `buf` have the values that stand in `h`.
abbrev pub IsHeader : EhdrFormat → ByteMap → (buf : Ptr) → (h : ElfInfo) → Type 0
IsHeader f m buf h =
    Reads m (read_u32 buf f.e_type) h.e_type
    × Reads m (read_u32 buf f.e_machine) h.e_machine
    × Reads m (read_u32 buf f.e_version) h.e_version
    × Reads m (read_u64 buf f.e_entry) h.e_entry
    × Reads m (read_u64 buf f.e_phoff) h.e_phoff
    × Reads m (read_u64 buf f.e_shoff) h.e_shoff
    × Reads m (read_u32 buf f.e_flags) h.e_flags
    × Reads m (read_u32 buf f.e_ehsize) h.e_ehsize
    × Reads m (read_u32 buf f.e_phentsize) h.e_phentsize
    × Reads m (read_u32 buf f.e_phnum) h.e_phnum
    × Reads m (read_u32 buf f.e_shentsize) h.e_shentsize
    × Reads m (read_u32 buf f.e_shnum) h.e_shnum
    × Reads m (read_u32 buf f.e_shstrndx) h.e_shstrndx

-- Elf32_Ehdr or Elf64_Ehdr
abbrev pub ehdr_format : ElfFormat → ElfInfo → EhdrFormat
ehdr_format fmt elf = if elf.elf_class == 32 then fmt.ehdr32 else fmt.ehdr64

-- The struct with the header of `h`
abbrev pub with_header : ElfInfo → (h : ElfInfo) → ElfInfo
with_header elf h = record elf {
  e_type = h.e_type;
  e_machine = h.e_machine;
  e_version = h.e_version;
  e_entry = h.e_entry;
  e_phoff = h.e_phoff;
  e_shoff = h.e_shoff;
  e_flags = h.e_flags;
  e_ehsize = h.e_ehsize;
  e_phentsize = h.e_phentsize;
  e_phnum = h.e_phnum;
  e_shentsize = h.e_shentsize;
  e_shnum = h.e_shnum;
  e_shstrndx = h.e_shstrndx;
}

load_elf-live :
    (e : Ptr) (w : World) (elf : ElfInfo)
    → e ≢ null
    → w.elfs e ≡ some elf
    → load_elf e w ≡ done elf w
unfolding load_elf
load_elf-live e w elf some_e there = ground arith

read_ehdr_lem :
    (f : EhdrFormat) (phdr_size shdr_size : ℕ) (e : Ptr) (w : World) (elf h : ElfInfo)
    → e ≢ null
    → w.elfs e ≡ some elf
    → IsHeader f w.memory elf.buf h
    → (ltb h.e_phentsize phdr_size || ltb h.e_shentsize shdr_size) ≡ false
    → read_ehdr f phdr_size shdr_size e w
      ≡ done Status.success (record w { elfs = update w.elfs e (some (with_header elf h)) })
unfolding read_ehdr
read_ehdr_lem f phdr_size shdr_size e w elf h some_e there
      (r0, r1, r2, r3, r4, r5, r6, r7, r8, r9, r10, r11, r12) big =
    rw
      (
        load_elf-live e w elf some_e there,
        r0 w refl,
        r1 w refl,
        r2 w refl,
        r3 w refl,
        r4 w refl,
        r5 w refl,
        r6 w refl,
        r7 w refl,
        r8 w refl,
        r9 w refl,
        r10 w refl,
        r11 w refl,
        r12 w refl,
        big,
      )
      refl

-- The struct after `prg_elf_read_elf`
abbrev pub with_tables : ElfInfo → (h : ElfInfo) → ElfInfo
with_tables elf h = record (with_header elf h) {
  p_hdr_ent = plus elf.buf h.e_phoff;
  s_hdr_ent = plus elf.buf h.e_shoff;
}

-- The entries of both tables hold the structs of elf.h.
abbrev pub HasSizes : ElfFormat → (elf h : ElfInfo) → Type 0
HasSizes fmt elf h =
    ((phdr_format fmt elf).size ≤ h.e_phentsize) × ((shdr_format fmt elf).size ≤ h.e_shentsize)

pub read_elf_lem :
    (fmt : ElfFormat) (e : Ptr) (w : World) (elf h : ElfInfo)
    → e ≢ null
    → w.elfs e ≡ some elf
    → HasClass elf
    → IsHeader (ehdr_format fmt elf) w.memory elf.buf h
    → HasSizes fmt elf h
    → prg_elf_read_elf fmt e w
      ≡ done Status.success (record w {
        elfs = update (update w.elfs e (some (with_header elf h))) e (some (with_tables elf h));
      })
unfolding prg_elf_read_elf prg_elf_read_elf32 prg_elf_read_elf64
read_elf_lem fmt e w elf h some_e there class header (big_p, big_s) =
    let w1 = record w { elfs = update w.elfs e (some (with_header elf h)) } in
    let fits : (ltb h.e_phentsize (phdr_format fmt elf).size
          || ltb h.e_shentsize (shdr_format fmt elf).size)
        ≡ false =
      ground arith in
    let first = load_elf-live e w elf some_e there in
    let second = load_elf-live e w1 (with_header elf h) some_e (ground arith) in
    let run =
      read_ehdr_lem (ehdr_format fmt elf) (phdr_format fmt elf).size (shdr_format fmt elf).size e w
        elf h some_e there header fits in
    elim class [
      | inl is32 ↦
          let test32 : (elf.elf_class == 32) ≡ true = ground arith in
          let run' = rw test32 at run in ground (arith, first, second, run')
      | inr is64 ↦
          let test32 : (elf.elf_class == 32) ≡ false = ground arith in
          let run' = rw test32 at run in ground (arith, first, second, run')
    ]
