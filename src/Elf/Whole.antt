-- ===== src/Elf/Whole.antt =====
-- The whole of `prg_elf_load` on a file that it takes.
use baremetal_crt_host.Common.{
  ℕ, ◌≡◌, ◌≢◌, refl, Bool, true, some, List, ◌∷◌, get_elem?, length, All, arith,
}
use baremetal_crt_host.Cl.{Status, icd_magic}
use baremetal_crt_host.Runtime.{
  Ptr, null, ElfInfo, PrgHeader, Program, ProgramChunk, SecHeader, World, update,
}
use baremetal_crt_host.Runtime.Monad.{done, calloc_struct}
use baremetal_crt_host.Runtime.Memory.{ByteMap}
use baremetal_crt_host.Handles.{prg_is_valid}
use baremetal_crt_host.Program.Chunks.{LiveProgram}
use baremetal_crt_host.Elf.{ElfFormat, plus, load_elf, zero_elf, prg_elf_is_valid, prg_elf_init}
use baremetal_crt_host.Elf.Header.{prg_elf_get_class, prg_elf_is_valid_header, prg_elf_read_elf}
use baremetal_crt_host.Elf.Tables.{read_table, read_phdr, read_shdr}
use baremetal_crt_host.Elf.Load.{prg_elf_load, prg_elf_read_shs}
use baremetal_crt_host.Elf.Mapped.{Reads, IsMapped, IsPhdrFormat}
use baremetal_crt_host.Elf.Bounds.{FitsWords}
use baremetal_crt_host.Elf.ReadPh.{HasClass, phdr_format, ChunksOf, read_ph-ChunksOf}
use baremetal_crt_host.Elf.Sections.{
  IsNamed, any, last_area, shdr_format, with_names, read_shs-last_area,
}
use baremetal_crt_host.Elf.ReadHeader.{
  IsHeader, ehdr_format, with_header, with_tables, HasSizes, read_elf_lem,
}

-- The struct before the header is read
abbrev pub opened : (prg buf len cls : ℕ) → ElfInfo
opened prg buf len cls = record zero_elf {
  magic = icd_magic;
  prg = prg;
  buf = buf;
  elf_size = len;
  elf_class = cls;
}

-- A file of `len` bytes at `buf`, all mapped, that the loader can take: its identification gives
-- the class 32 or 64, its header has the values of `h` and passes the check, the entries of the
-- tables hold the structs of elf.h, the table of program headers does not wrap, its sections are
-- `shs`, and the names and magic numbers are there.
abbrev pub IsLoadable :
    ElfFormat
    → ByteMap
    → (prg buf len cls : ℕ) → (h : ElfInfo) → List SecHeader
    → (is_comm is_area : SecHeader → Bool) → Type 0
IsLoadable fmt m prg buf len cls h shs is_comm is_area =
    let elf = with_tables (opened prg buf len cls) h in
    HasClass elf
    × Reads m (prg_elf_get_class fmt buf) (Status.success, some cls)
    × IsHeader (ehdr_format fmt elf) m buf h
    × HasSizes fmt elf h
    × (prg_elf_is_valid_header fmt elf ≡ Status.success)
    × IsMapped m buf len
    × IsPhdrFormat (phdr_format fmt elf)
    × FitsWords h.e_phoff h.e_phnum h.e_phentsize
    × Reads m (read_table (read_shdr (shdr_format fmt elf)) elf.s_hdr_ent h.e_shentsize h.e_shnum 0)
        shs
    × ((str : SecHeader) × (get_elem? shs h.e_shstrndx ≡ some str)
        × All (IsNamed (with_names elf shs str) m is_comm is_area) shs)

-- On a live program, with a file that can be loaded and has a section `.comm` and a section
-- `.comm_area`, where `calloc` gives four blocks: `prg_elf_load` succeeds. The program then holds
-- the loader's struct, the chunks of the program headers of the file, and the communication area of
-- the last section `.comm_area`.
pub load-ChunksOf :
    (fmt : ElfFormat) (prg buf len cls e b b' b'' : ℕ) (bs : List Ptr) (w : World) (p : Program)
    → (h : ElfInfo) (shs : List SecHeader) (is_comm is_area : SecHeader → Bool)
    → LiveProgram w prg p
    → w.supply ≡ e ∷ b ∷ b' ∷ b'' ∷ bs
    → e ≢ null
    → b ≢ null
    → b' ≢ null
    → b'' ≢ null
    → IsLoadable fmt w.memory prg buf len cls h shs is_comm is_area
    → any is_comm shs ≡ true
    → any is_area shs ≡ true
    → (phs : List PrgHeader) × (cs : List ProgramChunk) × (w' : World) × (prg_elf_load fmt prg buf
          len w
        ≡ done Status.success w')
      × (w'.programs prg
          ≡ some (record p {
            priv = e;
            num_chunks = h.e_phnum;
            chunks = some cs;
            comm = last_area is_area shs (record { addr = 0; size = 0 });
          }))
      × Reads w.memory
          (read_table
            (read_phdr (phdr_format fmt (opened prg buf len cls)))
            (plus buf h.e_phoff)
            h.e_phentsize
            h.e_phnum
            0)
          phs
      × (length phs ≡ h.e_phnum)
      × ChunksOf fmt buf phs cs
unfolding prg_elf_load prg_elf_init prg_elf_is_valid prg_is_valid calloc_struct load_elf
load-ChunksOf fmt prg buf len cls e b b' b'' bs w p h shs is_comm is_area live supply some_e some_b
      some_b' some_b''
      (class, ident, header, sizes, ok, mapped, f_ok, fits, secs, (str, at_str, named)) comm area =
    let elf_a : ElfInfo = record zero_elf { magic = icd_magic; prg = prg } in
    let elf_b : ElfInfo = record elf_a { buf = buf; elf_size = len } in
    let elf_c : ElfInfo = opened prg buf len cls in
    let elf : ElfInfo = with_tables elf_c h in
    let p1 : Program = record p { priv = e } in
    let w2 : World = record w {
      supply = b ∷ b' ∷ b'' ∷ bs;
      programs = update w.programs prg (some p1);
      elfs = update (update w.elfs e (some elf_a)) e (some elf_b);
    } in
    let w3 : World = record w2 { elfs = update w2.elfs e (some elf_c) } in
    let w4 : World = record w3 {
      elfs = update (update w3.elfs e (some (with_header elf_c h))) e (some elf);
    } in
    let found = ident w2 refl in
    let run4 : prg_elf_read_elf fmt e w3 ≡ done Status.success w4 =
      read_elf_lem fmt e w3 elf_c h some_e (ground arith) class header sizes in
    let (phs, cs, w5, reads, n, run5, there5, chunks, memory, left, (phs', kept)) =
      read_ph-ChunksOf fmt e w4 elf p1 b b' (b'' ∷ bs) some_e (ground arith) class
        (live.0, ground arith, live.2) refl some_b some_b' ok refl mapped f_ok sizes.0 fits in
    let p5 : Program = record p1 { num_chunks = h.e_phnum; chunks = some cs } in
    let (w6, run6, there6) =
      read_shs-last_area p5 b'' bs shs str is_comm is_area fmt e w5 (record elf { phs = some phs' })
        some_e kept class (live.0, there5, live.2) left some_b'' (rw memory secs) at_str
        (rw memory named) in
    let run6' : prg_elf_read_shs fmt e w5 ≡ done Status.success w6 = rw (comm, area) at run6 in
    (
      phs,
      cs,
      w6,
      ground (arith, found, run4, ok, run5, run6'),
      rw (comm, area) at there6,
      reads,
      n,
      chunks,
    )
