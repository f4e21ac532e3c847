-- ===== src/Elf/Tables.antt =====
-- The tables of program and section headers, and what the loader takes from them: the chunks of
-- the program and its communication area.
use Prim.Native.Nat.{bit_and}
use baremetal_crt_host.Common.{
  ℕ, zero, suc, ◌+◌, ◌*◌, ◌%◌, Bool, false, not, Option, none, some, List, [], ◌∷◌, ◌++◌, Bytes,
  ◌==◌, leb, if◌then◌else◌, set, replicate,
}
use baremetal_crt_host.Cl.{Status, u32_mod}
use baremetal_crt_host.Runtime.{Ptr, null, ElfInfo, PrgHeader, ProgramChunk, SecHeader}
use baremetal_crt_host.Runtime.Monad.{
  fault, M, pure, test◌then◌else◌, on_option, ◌>>=◌, ◌>>◌, ◌⨟◌, calloc_struct,
}
use baremetal_crt_host.Program.{prg_set_num_chunks, prg_set_chunk}
use baremetal_crt_host.Elf.{
  ElfFormat, PhdrFormat, ShdrFormat, plus, read_u32, read_u64, load_elf, put_elf,
}
use baremetal_crt_host.Elf.Header.{bytes_are}

-- What `calloc` leaves in an entry of the tables
abbrev pub zero_ph : PrgHeader
zero_ph = record {
  p_type = 0;
  p_flags = 0;
  p_offset = 0;
  p_vaddr = 0;
  p_paddr = 0;
  p_filesz = 0;
  p_memsz = 0;
  p_align = 0;
  index = 0;
  src = null;
}

abbrev pub zero_sh : SecHeader
zero_sh = record {
  sh_name = 0;
  sh_type = 0;
  sh_flags = 0;
  sh_addr = 0;
  sh_offset = 0;
  sh_size = 0;
  sh_link = 0;
  sh_info = 0;
  sh_addralign = 0;
  sh_entsize = 0;
}

unfoldable pub read_phdr : PhdrFormat → Ptr → M PrgHeader
unfolding read_u32 read_u64
read_phdr f at = do
  p_type ← read_u32 at f.p_type
  p_flags ← read_u32 at f.p_flags
  p_offset ← read_u64 at f.p_offset
  p_vaddr ← read_u64 at f.p_vaddr
  p_paddr ← read_u64 at f.p_paddr
  p_filesz ← read_u64 at f.p_filesz
  p_memsz ← read_u64 at f.p_memsz
  p_align ← read_u64 at f.p_align
  pure (record {
    p_type = p_type;
    p_flags = p_flags;
    p_offset = p_offset;
    p_vaddr = p_vaddr;
    p_paddr = p_paddr;
    p_filesz = p_filesz;
    p_memsz = p_memsz;
    p_align = p_align;
    index = 0;
    src = null;
  })

unfoldable pub read_shdr : ShdrFormat → Ptr → M SecHeader
unfolding read_u32 read_u64
read_shdr f at = do
  sh_name ← read_u32 at f.sh_name
  sh_type ← read_u32 at f.sh_type
  sh_flags ← read_u64 at f.sh_flags
  sh_addr ← read_u64 at f.sh_addr
  sh_offset ← read_u64 at f.sh_offset
  sh_size ← read_u64 at f.sh_size
  sh_link ← read_u32 at f.sh_link
  sh_info ← read_u32 at f.sh_info
  sh_addralign ← read_u64 at f.sh_addralign
  sh_entsize ← read_u64 at f.sh_entsize
  pure (record {
    sh_name = sh_name;
    sh_type = sh_type;
    sh_flags = sh_flags;
    sh_addr = sh_addr;
    sh_offset = sh_offset;
    sh_size = sh_size;
    sh_link = sh_link;
    sh_info = sh_info;
    sh_addralign = sh_addralign;
    sh_entsize = sh_entsize;
  })

-- `ent + i * size`, whose product is a `uint32_t`
abbrev pub entry_at : (ent size i : ℕ) → Ptr
entry_at ent size i = plus ent (i * size % u32_mod)

-- The entries of a table from the `i`th on, `left` of them
unfoldable pub read_table : {A : Type 0} → (Ptr → M A) → (ent size left i : ℕ) → M (List A)
read_table read ent size zero i = pure []
read_table read ent size (suc left) i = do
  x ← read (entry_at ent size i)
  xs ← read_table read ent size left (i + 1)
  pure (x ∷ xs)

-- The common text of `prg_elf_read_ph32` and `prg_elf_read_ph64`
unfoldable pub read_ph : PhdrFormat → Ptr → M Status
unfolding load_elf read_table read_phdr
read_ph f e = do
  elf ← load_elf e
  phs ← read_table (read_phdr f) elf.p_hdr_ent elf.e_phentsize elf.e_phnum 0
  put_elf e (some (record elf { phs = some phs }))
  pure Status.success

unfoldable pub prg_elf_read_ph32 : ElfFormat → Ptr → M Status
unfolding read_ph
prg_elf_read_ph32 fmt = read_ph fmt.phdr32

unfoldable pub prg_elf_read_ph64 : ElfFormat → Ptr → M Status
unfolding read_ph
prg_elf_read_ph64 fmt = read_ph fmt.phdr64

abbrev pub by_class : ElfInfo → M Status → M Status → M Status
by_class elf m32 m64 =
    test elf.elf_class == 32
    then m32
    else test elf.elf_class == 64
    then m64
    else pure Status.invalid_binary

-- The chunk for a header of type PT_LOAD; `prg_set_chunk` sets its index.
abbrev pub chunk_of : ElfFormat → (buf : Ptr) → PrgHeader → ProgramChunk
chunk_of fmt buf h = record {
  index = 0;
  paddr = h.p_paddr;
  buf = plus buf h.p_offset;
  size = h.p_filesz % u32_mod;
  readonly = bit_and h.p_flags fmt.pf_w == 0;
  loaded = false;
}

-- The loop over the headers; the list holds those from the `i`th on.
unfoldable pub set_ph_chunks : ElfFormat → Ptr → (i : ℕ) → List PrgHeader → M Status
unfolding load_elf prg_set_chunk
set_ph_chunks fmt e i [] = pure Status.success
set_ph_chunks fmt e i (h ∷ hs) =
    test not (h.p_type == fmt.pt_load) then set_ph_chunks fmt e (i + 1) hs else do
      elf ← load_elf e
      on_option elf.phs (λ w. fault)
          λ phs. do
            let h' : PrgHeader = record h { index = i; src = plus elf.buf h.p_offset }
            put_elf e (some (record elf { phs = some (set phs i h') }))
            prg_set_chunk elf.prg i (some (chunk_of fmt elf.buf h)) ⨟ set_ph_chunks fmt e (i + 1) hs

unfoldable pub prg_elf_read_ph : ElfFormat → Ptr → M Status
unfolding load_elf calloc_struct prg_elf_read_ph32 prg_elf_read_ph64 prg_set_num_chunks
    set_ph_chunks
prg_elf_read_ph fmt e = do
  elf ← load_elf e
  phs ← calloc_struct
  test phs == null then pure Status.out_of_host_memory else do
    put_elf e (some (record elf { phs = some (replicate elf.e_phnum zero_ph) }))
    by_class elf (prg_elf_read_ph32 fmt e) (prg_elf_read_ph64 fmt e)
        ⨟ prg_set_num_chunks elf.prg elf.e_phnum
        ⨟ do elf' ← load_elf e; on_option elf'.phs (λ w. fault) (set_ph_chunks fmt e 0)

-- The common text of `prg_elf_read_shs32` and `prg_elf_read_shs64`
unfoldable pub read_shs : ShdrFormat → Ptr → M Status
unfolding load_elf read_table read_shdr
read_shs f e = do
  elf ← load_elf e
  shs ← read_table (read_shdr f) elf.s_hdr_ent elf.e_shentsize elf.e_shnum 0
  put_elf e (some (record elf { shs = some shs }))
  pure Status.success

unfoldable pub prg_elf_read_shs32 : ElfFormat → Ptr → M Status
unfolding read_shs
prg_elf_read_shs32 fmt = read_shs fmt.shdr32

unfoldable pub prg_elf_read_shs64 : ElfFormat → Ptr → M Status
unfolding read_shs
prg_elf_read_shs64 fmt = read_shs fmt.shdr64

-- `none` for the literal "(unknown)"
abbrev pub get_sh_name : ElfInfo → (off : ℕ) → Option Ptr
get_sh_name elf off = if leb elf.shstr_size off then none else some (plus elf.shstr_ent off)

-- `strcmp(name, text) == 0`, for a text that is not "(unknown)"
unfoldable pub name_is : Option Ptr → Bytes → M Bool
unfolding bytes_are
name_is none text = pure false
name_is (some p) text = bytes_are p (text ++ 0 ∷ [])
