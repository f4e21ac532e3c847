-- ===== src/Elf/ReadPh.antt =====
-- `prg_elf_read_ph`: from the bytes of a file to the chunks of its program.
use baremetal_crt_host.Common.{
  ℕ, ◌≤◌, ◌≡◌, ◌≢◌, ◌⊎◌, inl, inr, refl, some, List, ◌∷◌, ◌==◌, length, get_elem?, replicate,
  length-replicate, get_elem?-replicate, get_elem?_inside, sym, arith, true, false, if◌then◌else◌,
}
use baremetal_crt_host.Cl.{Status}
use baremetal_crt_host.Runtime.{Ptr, null, ElfInfo, PrgHeader, Program, ProgramChunk, World, update}
use baremetal_crt_host.Runtime.Monad.{done, calloc_struct}
use baremetal_crt_host.Program.{zero_chunk, prg_set_num_chunks}
use baremetal_crt_host.Program.Chunks.{LiveProgram}
use baremetal_crt_host.Elf.{ElfFormat, PhdrFormat, plus, load_elf}
use baremetal_crt_host.Elf.Header.{prg_elf_is_valid_header}
use baremetal_crt_host.Elf.Tables.{
  zero_ph, read_table, read_phdr, read_ph, prg_elf_read_ph32, prg_elf_read_ph64, by_class,
  prg_elf_read_ph,
}
use baremetal_crt_host.Elf.Bounds.{FitsWords, table-IsMapped, valid_table_ends}
use baremetal_crt_host.Elf.Mapped.{IsMapped, IsPhdrFormat, Reads, read_phdr-IsMapped}
use baremetal_crt_host.Elf.Chunks.{
  expected_chunk, store_chunks, length-store_chunks, get_elem?-store_chunks, set_ph_chunks_lem,
}

abbrev pub HasClass : ElfInfo → Type 0
HasClass elf = (elf.elf_class ≡ 32) ⊎ (elf.elf_class ≡ 64)

-- Elf32_Phdr or Elf64_Phdr
abbrev pub phdr_format : ElfFormat → ElfInfo → PhdrFormat
phdr_format fmt elf = if elf.elf_class == 32 then fmt.phdr32 else fmt.phdr64

module _ (fmt : ElfFormat) (e : Ptr) (w : World) (elf : ElfInfo) where
  by_class-read_ph :
      (phs : List PrgHeader)
      → e ≢ null
      → w.elfs e ≡ some elf
      → HasClass elf
      → read_table (read_phdr (phdr_format fmt elf)) elf.p_hdr_ent elf.e_phentsize elf.e_phnum 0 w
        ≡ done phs w
      → by_class elf (prg_elf_read_ph32 fmt e) (prg_elf_read_ph64 fmt e) w
        ≡ done Status.success
            (record w { elfs = update w.elfs e (some (record elf { phs = some phs })) })
  unfolding prg_elf_read_ph32 prg_elf_read_ph64 read_ph load_elf
  by_class-read_ph phs some_e there (inl is32) reads =
      let test32 : (elf.elf_class == 32) ≡ true = ground arith in ground (arith, rw test32 at reads)
  by_class-read_ph phs some_e there (inr is64) reads =
      let test32 : (elf.elf_class == 32) ≡ false = ground arith in
      ground (arith, rw test32 at reads)

set_num_chunks-live :
    (prg num : ℕ) (w : World) (p : Program) (b : Ptr) (bs : List Ptr)
    → LiveProgram w prg p
    → w.supply ≡ b ∷ bs
    → b ≢ null
    → prg_set_num_chunks prg num w
      ≡ done Status.success (record w {
        supply = bs;
        programs =
            update w.programs prg
              (some (record p { chunks = some (replicate num zero_chunk); num_chunks = num }));
      })
unfolding prg_set_num_chunks
set_num_chunks-live prg num w p b bs live supply some_b = ground arith

-- The chunks that the headers `phs` of a file at `buf` stand for: the chunk of a header of type
-- PT_LOAD has its address, its bytes in the file, their number modulo 2^32, and is read-only where
-- the flag PF_W is not set; the chunk of another header is zero.
abbrev pub ChunksOf : ElfFormat → (buf : Ptr) → List PrgHeader → List ProgramChunk → Type 0
ChunksOf fmt buf phs cs =
    (length cs ≡ length phs)
    × ((j : ℕ) (h : PrgHeader)
        → get_elem? phs j ≡ some h
        → get_elem? cs j ≡ some (expected_chunk fmt buf j h zero_chunk))

store_chunks-ChunksOf :
    (fmt : ElfFormat) (buf : Ptr) (phs : List PrgHeader) (n : ℕ)
    → length phs ≡ n
    → ChunksOf fmt buf phs (store_chunks fmt buf 0 phs (replicate n zero_chunk))
store_chunks-ChunksOf fmt buf phs n len = (
  omega (
    arith,
    len,
    length-store_chunks fmt buf 0 phs (replicate n zero_chunk),
    length-replicate n zero_chunk,
  ),
  λ j h e.
      get_elem?-store_chunks fmt buf 0 phs (replicate n zero_chunk) j j h zero_chunk (omega arith)
        (omega (arith, len, length-replicate n zero_chunk)) e
        (get_elem?-replicate n j zero_chunk (omega (arith, len, get_elem?_inside phs j h e))),
)

-- A file of class 32 or 64 of which every byte is mapped, whose header passes
-- `prg_elf_is_valid_header`, with a table of fewer than 2^16 program headers of fewer than 2^16 bytes
-- each, which hold the struct of elf.h, and an offset whose sum with the table's length does not
-- reach 2^64; on a live program, where `calloc` gives two blocks: `prg_elf_read_ph` succeeds, and the
-- program has the chunks of the headers that stand in the file. The memory is not changed, of the
-- loader's struct only the array of headers is, and the two blocks are taken.
pub read_ph-ChunksOf :
    (fmt : ElfFormat) (e : Ptr) (w : World) (elf : ElfInfo) (p : Program) (b b' : Ptr)
    → (bs : List Ptr) → e ≢ null
    → w.elfs e ≡ some elf
    → HasClass elf
    → LiveProgram w elf.prg p
    → w.supply ≡ b ∷ b' ∷ bs
    → b ≢ null
    → b' ≢ null
    → prg_elf_is_valid_header fmt elf ≡ Status.success
    → elf.p_hdr_ent ≡ plus elf.buf elf.e_phoff
    → IsMapped w.memory elf.buf elf.elf_size
    → IsPhdrFormat (phdr_format fmt elf)
    → (phdr_format fmt elf).size ≤ elf.e_phentsize
    → FitsWords elf.e_phoff elf.e_phnum elf.e_phentsize
    → (phs : List PrgHeader) × (cs : List ProgramChunk) × (w' : World) × Reads w.memory
        (read_table (read_phdr (phdr_format fmt elf)) elf.p_hdr_ent elf.e_phentsize elf.e_phnum 0)
        phs
      × (length phs ≡ elf.e_phnum)
      × (prg_elf_read_ph fmt e w ≡ done Status.success w')
      × (w'.programs elf.prg ≡ some (record p { num_chunks = elf.e_phnum; chunks = some cs }))
      × ChunksOf fmt elf.buf phs cs
      × (w'.memory ≡ w.memory)
      × (w'.supply ≡ bs)
      × ((phs' : List PrgHeader) × (w'.elfs e ≡ some (record elf { phs = some phs' })))
unfolding prg_elf_read_ph load_elf calloc_struct
read_ph-ChunksOf fmt e w elf p b b' bs some_e there class live supply some_b some_b' ok ent mapped
      f_ok big fits =
    let n = elf.e_phnum in
    let f = phdr_format fmt elf in
    let (phs, reads, len) =
      table-IsMapped (read_phdr f) f.size w.memory elf.buf elf.e_phoff n elf.e_phentsize
        elf.elf_size (λ q here. read_phdr-IsMapped f q w.memory f_ok here) mapped big fits
        (valid_table_ends fmt elf ok).0 in
    let reads' = rw (sym ent) at reads in
    let elf1 : ElfInfo = record elf { phs = some (replicate n zero_ph) } in
    let w1 = record w { supply = b' ∷ bs; elfs = update w.elfs e (some elf1) } in
    let elf2 : ElfInfo = record elf { phs = some phs } in
    let w2 = record w1 { elfs = update w1.elfs e (some elf2) } in
    let run1 : by_class elf (prg_elf_read_ph32 fmt e) (prg_elf_read_ph64 fmt e) w1
        ≡ done Status.success w2 =
      by_class-read_ph fmt e w1 elf1 phs some_e (ground arith) class (reads' w1 refl) in
    let p3 : Program = record p { num_chunks = n; chunks = some (replicate n zero_chunk) } in
    let w3 = record w2 { supply = bs; programs = update w.programs elf.prg (some p3) } in
    let run2 : prg_set_num_chunks elf.prg n w2 ≡ done Status.success w3 =
      set_num_chunks-live elf.prg n w2 p b' bs live refl some_b' in
    let (w4, run3, res, same, left, kept) =
      set_ph_chunks_lem fmt e 0 phs phs (replicate n zero_chunk) w3 elf2 p3 some_e (ground arith)
        refl (live.0, ground arith, live.2) refl (length-replicate n zero_chunk)
        (omega (arith, len)) (omega (arith, fits.0)) in
    (
      phs,
      store_chunks fmt elf.buf 0 phs (replicate n zero_chunk),
      w4,
      reads',
      len,
      ground (arith, run1, run2, run3),
      res,
      store_chunks-ChunksOf fmt elf.buf phs n len,
      same,
      left,
      kept,
    )
