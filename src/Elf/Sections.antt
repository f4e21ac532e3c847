-- ===== src/Elf/Sections.antt =====
-- The communication area that a program gets from the sections of its file.
use baremetal_crt_host.Common.{
  ◌≡◌, ◌≢◌, refl, ◌∙◌, Bool, true, false, ◌&&◌, ◌||◌, Option, some, List, [], ◌∷◌, codes, ◌==◌,
  if◌then◌else◌, get_elem?, replicate, Bool-cases, inl, inr, All, arith,
}
use baremetal_crt_host.Cl.{Status}
use baremetal_crt_host.Runtime.{Ptr, null, ElfInfo, Program, ProgramComm, SecHeader, World, update}
use baremetal_crt_host.Runtime.Monad.{done, calloc_struct}
use baremetal_crt_host.Runtime.Memory.{ByteMap}
use baremetal_crt_host.Program.{prg_set_comm}
use baremetal_crt_host.Program.Chunks.{LiveProgram}
use baremetal_crt_host.Elf.{ElfFormat, ShdrFormat, plus, read_u32, load_elf}
use baremetal_crt_host.Elf.Tables.{
  read_table, read_shdr, read_shs, zero_sh, by_class, prg_elf_read_shs32, prg_elf_read_shs64,
  get_sh_name, name_is,
}
use baremetal_crt_host.Elf.Mapped.{Reads}
use baremetal_crt_host.Elf.ReadPh.{HasClass}
use baremetal_crt_host.Elf.Load.{comm_magic, comm_section_magic, find_comm, prg_elf_read_shs}

-- Which sections have the two names: the comparisons end with these answers, and a section with
-- the name `.comm` starts with the magic number.
abbrev pub IsNamed : ElfInfo → ByteMap → (is_comm is_area : SecHeader → Bool) → SecHeader → Type 0
IsNamed elf m is_comm is_area sec =
    Reads m (name_is (get_sh_name elf sec.sh_name) (codes ".comm")) (is_comm sec)
    × Reads m (name_is (get_sh_name elf sec.sh_name) (codes ".comm_area")) (is_area sec)
    × (is_comm sec ≡ true
        → Reads m (read_u32 (plus elf.buf sec.sh_offset) comm_section_magic) comm_magic)

abbrev pub any : (SecHeader → Bool) → List SecHeader → Bool
any f [] = false
any f (s ∷ ss) = f s || any f ss

-- The addresses of the last section that is an area
abbrev pub last_area : (SecHeader → Bool) → List SecHeader → ProgramComm → ProgramComm
last_area is_area [] old = old
last_area is_area (s ∷ ss) old =
    last_area is_area ss (if is_area s then record { addr = s.sh_addr; size = s.sh_size } else old)

abbrev pub with_comm : ElfInfo → (comm_sec : Ptr) → ProgramComm → ElfInfo
with_comm elf c comm = record elf { comm_sec = c; comm = comm }

-- One round of the loop
find_comm_round :
    (e : Ptr) (is_comm is_area : SecHeader → Bool) (s : SecHeader) (ss : List SecHeader)
    → (found area : Bool) (w : World) (elf : ElfInfo) → e ≢ null
    → w.elfs e ≡ some elf
    → IsNamed elf w.memory is_comm is_area s
    → (es : Ptr → Option ElfInfo) × (c : Ptr) × (find_comm e (s ∷ ss) found area w
        ≡ find_comm e ss (found || is_comm s) (area || is_area s) (record w { elfs = es }))
      × (es e ≡ some (with_comm elf c (last_area is_area (s ∷ []) elf.comm)))
unfolding find_comm load_elf
find_comm_round e is_comm is_area s ss found area w elf some_e there (rc, ra, rm) =
    let p : Ptr = plus elf.buf s.sh_offset in
    let area_1 : ProgramComm = record { addr = s.sh_addr; size = s.sh_size } in
    let elf1 : ElfInfo = record elf { comm_sec = p } in
    let w1 = record w { elfs = update w.elfs e (some elf1) } in
    let named = rc w refl in
    let here = ra w refl in
    let here1 = ra w1 refl in
    let good : (comm_magic == comm_magic) ≡ true = ground arith in
    elim (Bool-cases (is_comm s)) [
      | inl comm ↦
          let magic = rm comm w refl in
          elim (Bool-cases (is_area s)) [
            | inl yes_area ↦ (
              update w1.elfs e (some (record elf1 { comm = area_1 })),
              p,
              ground (arith, named, here1, magic),
              ground arith,
            )
            | inr no_area ↦ (w1.elfs, p, ground (arith, named, here1, magic), ground arith)
          ]
      | inr no_comm ↦ elim (Bool-cases (is_area s)) [
        | inl yes_area ↦ (
          update w.elfs e (some (record elf { comm = area_1 })),
          elf.comm_sec,
          ground (arith, named, here),
          ground arith,
        )
        | inr no_area ↦ (w.elfs, elf.comm_sec, ground (arith, named, here), ground arith)
      ]
    ]

or_assoc : (a b c : Bool) → (a || b) || c ≡ a || (b || c)
or_assoc true b c = refl
or_assoc false b c = refl

or_false : (a : Bool) → a || false ≡ a
or_false true = refl
or_false false = refl

find_comm_lem :
    (e : Ptr) (is_comm is_area : SecHeader → Bool) (secs : List SecHeader) (found area : Bool)
    → (w : World) (elf : ElfInfo) → e ≢ null
    → w.elfs e ≡ some elf
    → All (IsNamed elf w.memory is_comm is_area) secs
    → (es : Ptr → Option ElfInfo) × (c : Ptr) × (find_comm e secs found area w
        ≡ done (found || any is_comm secs, area || any is_area secs) (record w { elfs = es }))
      × (es e ≡ some (with_comm elf c (last_area is_area secs elf.comm)))
unfolding find_comm
find_comm_lem e is_comm is_area [] found area w elf some_e there named =
    (w.elfs, elf.comm_sec, rw (or_false found, or_false area) refl, there)
find_comm_lem e is_comm is_area (s ∷ ss) found area w elf some_e there (here, named) =
    let (es, c, run, at) =
      find_comm_round e is_comm is_area s ss found area w elf some_e there here in
    let elf' = with_comm elf c (last_area is_area (s ∷ []) elf.comm) in
    let (es', c', run', at') =
      find_comm_lem e is_comm is_area ss (found || is_comm s) (area || is_area s)
        (record w { elfs = es }) elf' some_e at named in
    (
      es',
      c',
      run
          ∙ run'
          ∙ rw
              (
                or_assoc found (is_comm s) (any is_comm ss),
                or_assoc area (is_area s) (any is_area ss),
              )
              refl,
      at',
    )

-- Elf32_Shdr or Elf64_Shdr
abbrev pub shdr_format : ElfFormat → ElfInfo → ShdrFormat
shdr_format fmt elf = if elf.elf_class == 32 then fmt.shdr32 else fmt.shdr64

module _ (fmt : ElfFormat) (e : Ptr) (w : World) (elf : ElfInfo) where
  by_class-read_shs :
      (shs : List SecHeader)
      → e ≢ null
      → w.elfs e ≡ some elf
      → HasClass elf
      → read_table (read_shdr (shdr_format fmt elf)) elf.s_hdr_ent elf.e_shentsize elf.e_shnum 0 w
        ≡ done shs w
      → by_class elf (prg_elf_read_shs32 fmt e) (prg_elf_read_shs64 fmt e) w
        ≡ done Status.success
            (record w { elfs = update w.elfs e (some (record elf { shs = some shs })) })
  unfolding prg_elf_read_shs32 prg_elf_read_shs64 read_shs load_elf
  by_class-read_shs shs some_e there (inl is32) reads =
      let test32 : (elf.elf_class == 32) ≡ true = ground arith in ground (arith, rw test32 at reads)
  by_class-read_shs shs some_e there (inr is64) reads =
      let test32 : (elf.elf_class == 32) ≡ false = ground arith in
      ground (arith, rw test32 at reads)

-- The struct with the section of the names
abbrev pub with_names : ElfInfo → List SecHeader → SecHeader → ElfInfo
with_names elf shs str = record elf {
  shs = some shs;
  shstr_ent = plus elf.buf str.sh_offset;
  shstr_size = str.sh_size;
}

set_comm-live :
    (prg : Ptr) (comm : ProgramComm) (w : World) (p : Program)
    → LiveProgram w prg p
    → prg_set_comm prg (some comm) w
      ≡ done Status.success
          (record w { programs = update w.programs prg (some (record p { comm = comm })) })
unfolding prg_set_comm
set_comm-live prg comm w p live = ground arith

-- A file of class 32 or 64 on a live program, where `calloc` gives a block, whose section headers
-- are `shs`, with the section `str` of the names, where the names can be compared and each section
-- `.comm` starts with the magic number: where no section is `.comm` or none is `.comm_area`,
-- `prg_elf_read_shs` reports CL_INVALID_BINARY and leaves the program; elsewhere it succeeds, and
-- the communication area of the program is that of the last section `.comm_area`.
pub read_shs-last_area :
    (p : Program) (b : Ptr) (bs : List Ptr) (shs : List SecHeader) (str : SecHeader)
    → (is_comm is_area : SecHeader → Bool) (fmt : ElfFormat) (e : Ptr) (w : World) (elf : ElfInfo)
    → e ≢ null
    → w.elfs e ≡ some elf
    → HasClass elf
    → LiveProgram w elf.prg p
    → w.supply ≡ b ∷ bs
    → b ≢ null
    → Reads w.memory
        (read_table (read_shdr (shdr_format fmt elf)) elf.s_hdr_ent elf.e_shentsize elf.e_shnum 0)
        shs
    → get_elem? shs elf.e_shstrndx ≡ some str
    → All (IsNamed (with_names elf shs str) w.memory is_comm is_area) shs
    → (w' : World) × (prg_elf_read_shs fmt e w
        ≡ done
            (if any is_comm shs && any is_area shs then Status.success else Status.invalid_binary)
            w')
      × (w'.programs elf.prg
          ≡ some (
              if any is_comm shs && any is_area shs
              then record p { comm = last_area is_area shs elf.comm }
              else p))
unfolding prg_elf_read_shs load_elf calloc_struct
read_shs-last_area p b bs shs str is_comm is_area fmt e w elf some_e there class live supply some_b
      reads at_str named =
    let elf1 : ElfInfo = record elf { shs = some (replicate elf.e_shnum zero_sh) } in
    let w1 = record w { supply = bs; elfs = update w.elfs e (some elf1) } in
    let elf2 : ElfInfo = record elf { shs = some shs } in
    let w2 = record w1 { elfs = update w1.elfs e (some elf2) } in
    let run1 : by_class elf (prg_elf_read_shs32 fmt e) (prg_elf_read_shs64 fmt e) w1
        ≡ done Status.success w2 =
      by_class-read_shs fmt e w1 elf1 shs some_e (ground arith) class (reads w1 refl) in
    let elf3 = with_names elf shs str in
    let w3 = record w2 { elfs = update w2.elfs e (some elf3) } in
    let (es, c, run2, at) =
      find_comm_lem e is_comm is_area shs false false w3 elf3 some_e (ground arith) named in
    let w4 = record w3 { elfs = es } in
    let area = last_area is_area shs elf.comm in
    let p' : Program = record p { comm = area } in
    let w5 = record w4 { programs = update w.programs elf.prg (some p') } in
    let run3 : prg_set_comm elf.prg (some area) w4 ≡ done Status.success w5 =
      set_comm-live elf.prg area w4 p live in
    elim (Bool-cases (any is_comm shs)) [
      | inr no_comm ↦ (w4, ground (arith, run1, run2), ground arith)
      | inl comm ↦ elim (Bool-cases (any is_area shs)) [
        | inr no_area ↦ (w4, ground (arith, run1, run2), ground arith)
        | inl found ↦ (w5, ground (arith, run1, run2, run3), ground arith)
      ]
    ]
