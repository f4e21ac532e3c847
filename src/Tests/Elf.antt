-- ===== src/Tests/Elf.antt =====
-- The loader on a small file.
use mathlib.Core.Path.{subst}
use baremetal_crt_host.Common.{
  ℕ, Bool, All, sym, ◌-◌, ◌==◌, if◌then◌else◌, ◌≡◌, refl, inl, true, false, Option, none, some,
  List, [], ◌∷◌, length, get_elem?, arith,
}
use baremetal_crt_host.Cl.{Status, icd_magic}
use baremetal_crt_host.Runtime.{ElfInfo, PrgHeader, Program, ProgramChunk, SecHeader, World}
use baremetal_crt_host.Runtime.Monad.{Run, M, done, fault, out_of_fuel}
use baremetal_crt_host.Elf.{plus, read_u32, read_u64, zero_elf}
use baremetal_crt_host.Elf.Header.{prg_elf_get_class, prg_elf_is_valid_header}
use baremetal_crt_host.Elf.Tables.{prg_elf_read_ph, read_table, read_phdr, read_shdr, name_is}
use baremetal_crt_host.Elf.Load.{prg_elf_load, prg_elf_read_shs, in_cl_release_program}
use baremetal_crt_host.Elf.Bounds.{read_tables-IsMapped}
use baremetal_crt_host.Elf.Mapped.{IsMapped, Reads}
use baremetal_crt_host.Elf.ReadPh.{phdr_format, ChunksOf, read_ph-ChunksOf}
use baremetal_crt_host.Elf.Sections.{IsNamed, with_names, read_shs-last_area}
use baremetal_crt_host.Elf.ReadHeader.{IsHeader}
use baremetal_crt_host.Elf.Whole.{load-ChunksOf}
use baremetal_crt_host.Elf.Life.{release_program-frees}
use baremetal_crt_host.Tests.Data.{only, small_world, program_1}
use baremetal_crt_host.Tests.ElfFile.{elf_h, file_1, byte_at, file_memory}

abbrev new_program : Program
new_program = record program_1 { num_chunks = 0; chunks = none }

abbrev file_world : World
file_world = record small_world {
  supply = 70 ∷ 71 ∷ 72 ∷ 73 ∷ [];
  memory = file_memory;
  programs = only 90 new_program;
}

-- What a run leaves of a program
abbrev after : Run Status → Status × Option Program
after (done r w) = (r, w.programs 90)
after fault = (Status.invalid_value, none)
after out_of_fuel = (Status.invalid_value, none)

loaded : after (prg_elf_load elf_h 90 5000 226 file_world) ≡ (
  Status.success,
  some (record new_program {
    priv = 70;
    num_chunks = 1;
    chunks = some (
        record { index = 0; paddr = 64; buf = 5000; size = 4; readonly = true; loaded = false }
        ∷ []);
    comm = record { addr = 0x3000; size = 256 };
  }),
)
unfolding prg_elf_load
loaded = refl

-- The struct after the header has been read
abbrev elf_1 : ElfInfo
elf_1 = record zero_elf {
  magic = icd_magic;
  prg = 90;
  elf_size = 226;
  buf = 5000;
  elf_class = 32;
  e_type = 2;
  e_machine = 243;
  e_version = 1;
  e_entry = 64;
  e_phoff = 52;
  e_shoff = 84;
  e_ehsize = 52;
  e_phentsize = 32;
  e_phnum = 1;
  e_shentsize = 40;
  e_shnum = 3;
  e_shstrndx = 0;
  p_hdr_ent = 5052;
  s_hdr_ent = 5084;
}

header_1 : prg_elf_is_valid_header elf_h elf_1 ≡ Status.success
unfolding prg_elf_is_valid_header
header_1 = refl

file_1-IsMapped : IsMapped file_memory 5000 226
file_1-IsMapped = (omega arith, λ q a b. (byte_at (get_elem? file_1 (q - 5000)), ground arith))

read_tables-IsMapped_example :
    ((phs : List PrgHeader) × Reads file_memory
        (read_table (read_phdr elf_h.phdr32) (plus 5000 52) 32 1 0)
        phs
      × (length phs ≡ 1))
    × ((shs : List SecHeader) × Reads file_memory
          (read_table (read_shdr elf_h.shdr32) (plus 5000 84) 40 3 0)
          shs
        × (length shs ≡ 3))
read_tables-IsMapped_example =
    read_tables-IsMapped elf_h elf_1 elf_h.phdr32 elf_h.shdr32 file_memory header_1 file_1-IsMapped
      (
        omega arith,
        omega arith,
        omega arith,
        omega arith,
        omega arith,
        omega arith,
        omega arith,
        omega arith,
      )
      (
        omega arith,
        omega arith,
        omega arith,
        omega arith,
        omega arith,
        omega arith,
        omega arith,
        omega arith,
        omega arith,
        omega arith,
      )
      (omega arith) (omega arith) (omega arith, omega arith, omega arith)
      (omega arith, omega arith, omega arith)

abbrev read_world : World
read_world = record file_world { elfs = only 60 elf_1 }

read_ph-ChunksOf_example :
    (phs : List PrgHeader) × (cs : List ProgramChunk) × (w' : World) × Reads file_memory
      (read_table (read_phdr (phdr_format elf_h elf_1)) 5052 32 1 0)
      phs
    × (length phs ≡ 1)
    × (prg_elf_read_ph elf_h 60 read_world ≡ done Status.success w')
    × (w'.programs 90 ≡ some (record new_program { num_chunks = 1; chunks = some cs }))
    × ChunksOf elf_h 5000 phs cs
    × (w'.memory ≡ file_memory)
    × (w'.supply ≡ 72 ∷ 73 ∷ [])
    × ((phs' : List PrgHeader) × (w'.elfs 60 ≡ some (record elf_1 { phs = some phs' })))
read_ph-ChunksOf_example =
    read_ph-ChunksOf elf_h 60 read_world elf_1 new_program 70 71 (72 ∷ 73 ∷ []) (ground arith) refl
      (inl refl) (ground arith, refl, refl) refl (ground arith) (ground arith) header_1 refl
      file_1-IsMapped
      (
        omega arith,
        omega arith,
        omega arith,
        omega arith,
        omega arith,
        omega arith,
        omega arith,
        omega arith,
      )
      (omega arith) (omega arith, omega arith, omega arith)

abbrev held_program : Program
held_program = record new_program { priv = 60 }

abbrev held_world : World
held_world = record read_world { programs = only 90 held_program }

release_program-frees_example :
    (w' : World) × (in_cl_release_program 90 held_world ≡ done Status.success w')
    × ((q : ℕ) → w'.programs q ≡ (if q == 90 then none else held_world.programs q))
    × ((q : ℕ) → w'.elfs q ≡ (if q == 60 then none else held_world.elfs q))
    × (w' ≡ record held_world { programs = w'.programs; elfs = w'.elfs })
release_program-frees_example =
    release_program-frees 90 held_world held_program elf_1 (ground arith, refl, refl) (ground arith)
      refl refl

-- The sections of the file
abbrev section : (sh_name sh_type sh_addr sh_offset sh_size : ℕ) → SecHeader
section sh_name sh_type sh_addr sh_offset sh_size = record {
  sh_name = sh_name;
  sh_type = sh_type;
  sh_flags = 0;
  sh_addr = sh_addr;
  sh_offset = sh_offset;
  sh_size = sh_size;
  sh_link = 0;
  sh_info = 0;
  sh_addralign = 0;
  sh_entsize = 0;
}

abbrev names_1 : SecHeader
names_1 = section 0 3 0 204 18

abbrev comm_1 : SecHeader
comm_1 = section 1 1 0 222 4

abbrev area_1 : SecHeader
area_1 = section 7 8 0x3000 0 256

abbrev sections_1 : List SecHeader
sections_1 = names_1 ∷ comm_1 ∷ area_1 ∷ []

abbrev is_comm_1 : SecHeader → Bool
is_comm_1 s = s.sh_name == 1

abbrev is_area_1 : SecHeader → Bool
is_area_1 s = s.sh_name == 7

-- A run that is known on the memory of the file
memory_only :
    {A : Type 0} (r : M A) (a : A)
    → ((w : World)
        → r (record w { memory = file_memory }) ≡ done a (record w { memory = file_memory }))
    → Reads file_memory r a
memory_only r a known w same =
    subst (λ k. r (record w { memory = k }) ≡ done a (record w { memory = k })) (sym same) (known w)

sections_there : Reads file_memory (read_table (read_shdr elf_h.shdr32) 5084 40 3 0) sections_1
unfolding read_table read_shdr
sections_there = memory_only _ _ (λ w. refl)

sections_1-IsNamed :
    All (IsNamed (with_names elf_1 sections_1 names_1) file_memory is_comm_1 is_area_1) sections_1
unfolding name_is read_u32
sections_1-IsNamed = (
  (memory_only _ _ (λ w. refl), memory_only _ _ (λ w. refl), λ e. absurd (ground arith)),
  (
    (memory_only _ _ (λ w. refl), memory_only _ _ (λ w. refl), λ e. memory_only _ _ (λ w. refl)),
    ((memory_only _ _ (λ w. refl), memory_only _ _ (λ w. refl), λ e. absurd (ground arith)), tt),
  ),
)

read_shs-last_area_example :
    (w' : World) × (prg_elf_read_shs elf_h 60 read_world ≡ done Status.success w')
    × (w'.programs 90 ≡ some (record new_program { comm = record { addr = 0x3000; size = 256 } }))
read_shs-last_area_example =
    read_shs-last_area new_program 70 (71 ∷ 72 ∷ 73 ∷ []) sections_1 names_1 is_comm_1 is_area_1
      elf_h 60 read_world elf_1 (ground arith) refl (inl refl) (ground arith, refl, refl) refl
      (ground arith) sections_there refl sections_1-IsNamed

elf_1-IsHeader : IsHeader elf_h.ehdr32 file_memory 5000 elf_1
unfolding read_u32 read_u64
elf_1-IsHeader = (
  memory_only _ _ (λ w. refl),
  memory_only _ _ (λ w. refl),
  memory_only _ _ (λ w. refl),
  memory_only _ _ (λ w. refl),
  memory_only _ _ (λ w. refl),
  memory_only _ _ (λ w. refl),
  memory_only _ _ (λ w. refl),
  memory_only _ _ (λ w. refl),
  memory_only _ _ (λ w. refl),
  memory_only _ _ (λ w. refl),
  memory_only _ _ (λ w. refl),
  memory_only _ _ (λ w. refl),
  memory_only _ _ (λ w. refl),
)

class_there : Reads file_memory (prg_elf_get_class elf_h 5000) (Status.success, some 32)
unfolding prg_elf_get_class
class_there = memory_only _ _ (λ w. refl)

load-ChunksOf_example :
    (phs : List PrgHeader) × (cs : List ProgramChunk) × (w' : World) × (prg_elf_load elf_h 90 5000
        226 file_world
      ≡ done Status.success w')
    × (w'.programs 90
        ≡ some (record new_program {
          priv = 70;
          num_chunks = 1;
          chunks = some cs;
          comm = record { addr = 0x3000; size = 256 };
        }))
    × Reads file_memory (read_table (read_phdr elf_h.phdr32) 5052 32 1 0) phs
    × (length phs ≡ 1)
    × ChunksOf elf_h 5000 phs cs
load-ChunksOf_example =
    load-ChunksOf elf_h 90 5000 226 32 70 71 72 73 [] file_world new_program elf_1 sections_1
      is_comm_1 is_area_1 (ground arith, refl, refl) refl (ground arith) (ground arith)
      (ground arith) (ground arith)
      (
        inl refl,
        class_there,
        elf_1-IsHeader,
        (omega arith, omega arith),
        header_1,
        file_1-IsMapped,
        (
          omega arith,
          omega arith,
          omega arith,
          omega arith,
          omega arith,
          omega arith,
          omega arith,
          omega arith,
        ),
        (omega arith, omega arith, omega arith),
        sections_there,
        (names_1, refl, sections_1-IsNamed),
      )
      refl refl
