-- ===== src/Elf/Chunks.antt =====
-- The chunks that a program gets from the program headers.
use Prim.Native.Nat.{bit_and}
use baremetal_crt_host.Common.{
  ℕ, zero, suc, ◌+◌, ◌%◌, ◌^◌, ◌<◌, ◌≡◌, ◌≢◌, refl, sym, some, List, [], ◌∷◌, ◌==◌, length,
  get_elem?, set, length-set, get_elem?-set, true, false, Bool-cases, inl, inr, arith,
  if◌then◌else◌, ◌∙◌,
}
use baremetal_crt_host.Cl.{Status}
use baremetal_crt_host.Runtime.{Ptr, null, ElfInfo, PrgHeader, Program, ProgramChunk, World, update}
use baremetal_crt_host.Runtime.Monad.{done}
use baremetal_crt_host.Program.{prg_set_chunk}
use baremetal_crt_host.Program.Chunks.{LiveProgram}
use baremetal_crt_host.Elf.{ElfFormat, plus, load_elf}
use baremetal_crt_host.Elf.Tables.{chunk_of, set_ph_chunks}

-- The array after a header has been stored in it
abbrev pub store_chunk :
    ElfFormat → (buf : Ptr) → (i : ℕ) → PrgHeader → List ProgramChunk → List ProgramChunk
store_chunk fmt buf i h cs =
    if h.p_type == fmt.pt_load then set cs i (record (chunk_of fmt buf h) { index = i }) else cs

abbrev pub store_chunks :
    ElfFormat → (buf : Ptr) → (i : ℕ) → List PrgHeader → List ProgramChunk → List ProgramChunk
store_chunks fmt buf i [] cs = cs
store_chunks fmt buf i (h ∷ hs) cs = store_chunks fmt buf (i + 1) hs (store_chunk fmt buf i h cs)

-- What the array holds for a header, and where the header is of another type
abbrev pub expected_chunk :
    ElfFormat → (buf : Ptr) → (i : ℕ) → PrgHeader → (old : ProgramChunk) → ProgramChunk
expected_chunk fmt buf i h old =
    if h.p_type == fmt.pt_load
    then record {
      index = i;
      paddr = h.p_paddr;
      buf = (buf + h.p_offset) % 2 ^ 64;
      size = h.p_filesz % 2 ^ 32;
      readonly = bit_and h.p_flags fmt.pf_w == 0;
      loaded = false;
    }
    else old

length-store_chunk :
    (fmt : ElfFormat) (buf : Ptr) (i : ℕ) (h : PrgHeader) (cs : List ProgramChunk)
    → length (store_chunk fmt buf i h cs) ≡ length cs
length-store_chunk fmt buf i h cs =
    ground (arith, length-set cs i (record (chunk_of fmt buf h) { index = i }))

pub length-store_chunks :
    (fmt : ElfFormat) (buf : Ptr) (i : ℕ) (hs : List PrgHeader) (cs : List ProgramChunk)
    → length (store_chunks fmt buf i hs cs) ≡ length cs
length-store_chunks fmt buf i [] cs = refl
length-store_chunks fmt buf i (h ∷ hs) cs =
    length-store_chunks fmt buf (i + 1) hs (store_chunk fmt buf i h cs)
    ∙ length-store_chunk fmt buf i h cs

get_elem?-store_chunk :
    (fmt : ElfFormat) (buf : Ptr) (i : ℕ) (h : PrgHeader) (cs : List ProgramChunk)
    → (j : ℕ) (c : ProgramChunk) → i < length cs
    → get_elem? cs j ≡ some c
    → get_elem? (store_chunk fmt buf i h cs) j
      ≡ some (if j == i then expected_chunk fmt buf i h c else c)
get_elem?-store_chunk fmt buf i h cs j c lt e =
    ground (arith, get_elem?-set cs i j (record (chunk_of fmt buf h) { index = i }))

-- Where the array holds `old` at an index in front of the headers, it keeps it.
get_elem?-store_chunks_before :
    (fmt : ElfFormat) (buf : Ptr) (i : ℕ) (hs : List PrgHeader) (cs : List ProgramChunk)
    → (j : ℕ) (c : ProgramChunk) → i + length hs ≡ length cs
    → j < i
    → get_elem? cs j ≡ some c
    → get_elem? (store_chunks fmt buf i hs cs) j ≡ some c
get_elem?-store_chunks_before fmt buf i [] cs j c n lt e = e
get_elem?-store_chunks_before fmt buf i (h ∷ hs) cs j c n lt e =
    let kept = get_elem?-store_chunk fmt buf i h cs j c (omega arith) e in
    get_elem?-store_chunks_before fmt buf (i + 1) hs (store_chunk fmt buf i h cs) j c
      (omega (arith, length-store_chunk fmt buf i h cs)) (omega arith) (ground arith)

pub get_elem?-store_chunks :
    (fmt : ElfFormat) (buf : Ptr) (i : ℕ) (hs : List PrgHeader) (cs : List ProgramChunk)
    → (j k : ℕ) (h : PrgHeader) (c : ProgramChunk) → k ≡ i + j
    → i + length hs ≡ length cs
    → get_elem? hs j ≡ some h
    → get_elem? cs k ≡ some c
    → get_elem? (store_chunks fmt buf i hs cs) k ≡ some (expected_chunk fmt buf k h c)
get_elem?-store_chunks fmt buf i [] cs j k h c at n e_h e = absurd cc
get_elem?-store_chunks fmt buf i (h' ∷ hs) cs zero k h c at n e_h e =
    let same : h' ≡ h = ground arith in
    let at_i : k ≡ i = omega arith in
    let kept = get_elem?-store_chunk fmt buf i h' cs k c (omega arith) e in
    let here : get_elem? (store_chunk fmt buf i h' cs) k ≡ some (expected_chunk fmt buf k h c) =
      let self : (i == i) ≡ true = ground arith in
      rw (sym same, at_i) (rw self at (rw at_i at kept)) in
    get_elem?-store_chunks_before fmt buf (i + 1) hs (store_chunk fmt buf i h' cs) k
      (expected_chunk fmt buf k h c) (omega (arith, length-store_chunk fmt buf i h' cs))
      (omega arith) here
get_elem?-store_chunks fmt buf i (h' ∷ hs) cs (suc j) k h c at n e_h e =
    let kept = get_elem?-store_chunk fmt buf i h' cs k c (omega arith) e in
    get_elem?-store_chunks fmt buf (i + 1) hs (store_chunk fmt buf i h' cs) j k h c (omega arith)
      (omega (arith, length-store_chunk fmt buf i h' cs)) e_h (ground arith)

set_chunk-live :
    (prg i : ℕ) (c : ProgramChunk) (w : World) (p : Program) (cs : List ProgramChunk)
    → LiveProgram w prg p
    → p.chunks ≡ some cs
    → length cs ≡ p.num_chunks
    → p.num_chunks < 2 ^ 31
    → i < p.num_chunks
    → prg_set_chunk prg i (some c) w
      ≡ done Status.success (record w {
        programs =
            update w.programs prg
              (some (record p { chunks = some (set cs i (record c { index = i })) }));
      })
unfolding prg_set_chunk
set_chunk-live prg i c w p cs live e len small lt = ground arith

-- The loop of `prg_elf_read_ph`
pub set_ph_chunks_lem :
    (fmt : ElfFormat) (e i : ℕ) (hs phs : List PrgHeader) (cs : List ProgramChunk) (w : World)
    (elf : ElfInfo) (p : Program)
    → e ≢ null
    → w.elfs e ≡ some elf
    → elf.phs ≡ some phs
    → LiveProgram w elf.prg p
    → p.chunks ≡ some cs
    → length cs ≡ p.num_chunks
    → i + length hs ≡ p.num_chunks
    → p.num_chunks < 2 ^ 31
    → (w' : World) × (set_ph_chunks fmt e i hs w ≡ done Status.success w')
      × (w'.programs elf.prg ≡ some (record p { chunks = some (store_chunks fmt elf.buf i hs cs) }))
      × (w'.memory ≡ w.memory)
      × (w'.supply ≡ w.supply)
      × ((phs' : List PrgHeader) × (w'.elfs e ≡ some (record elf { phs = some phs' })))
unfolding set_ph_chunks load_elf
set_ph_chunks_lem fmt e i [] phs cs w elf p some_e there e_phs live e_cs len n small =
    (w, refl, ground arith, refl, refl, (phs, ground arith))
set_ph_chunks_lem fmt e i (h ∷ hs) phs cs w elf p some_e there e_phs live e_cs len n small =
    elim (Bool-cases (h.p_type == fmt.pt_load)) [
      | inl load ↦
          let h' : PrgHeader = record h { index = i; src = plus elf.buf h.p_offset } in
          let elf' : ElfInfo = record elf { phs = some (set phs i h') } in
          let cs' = set cs i (record (chunk_of fmt elf.buf h) { index = i }) in
          let p' : Program = record p { chunks = some cs' } in
          let w1 = record w { elfs = update w.elfs e (some elf') } in
          let w2 = record w1 { programs = update w.programs elf.prg (some p') } in
          let stored : prg_set_chunk elf.prg i (some (chunk_of fmt elf.buf h)) w1
              ≡ done Status.success w2 =
            set_chunk-live elf.prg i (chunk_of fmt elf.buf h) w1 p cs live e_cs len small
              (omega arith) in
          let (w', run, res, same, left, kept) =
            set_ph_chunks_lem fmt e (i + 1) hs (set phs i h') cs' w2 elf' p' some_e (ground arith)
              refl (live.0, ground arith, live.2) refl
              (omega (arith, length-set cs i (record (chunk_of fmt elf.buf h) { index = i })))
              (omega arith) small in
          (w', ground (arith, stored, run), rw load res, same, left, kept)
      | inr skip ↦
          let (w', run, res, same, left, kept) =
            set_ph_chunks_lem fmt e (i + 1) hs phs cs w elf p some_e there e_phs live e_cs len
              (omega arith) small in
          (w', ground arith, rw skip res, same, left, kept)
    ]
