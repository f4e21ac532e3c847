-- ===== src/Elf/Life.antt =====
-- Programs made from a file, from their creation to their release, and the ways this fails.
use baremetal_crt_host.Common.{
  ℕ, suc, ◌≡◌, ◌≢◌, refl, Option, none, some, List, [], ◌∷◌, ◌==◌, if◌then◌else◌, Bytes, arith, ◌%◌,
  ◌+◌, ◌^◌,
}
use baremetal_crt_host.Cl.{Status, icd_magic}
use baremetal_crt_host.Runtime.{Ptr, null, Context, Device, ElfInfo, Program, World, update}
use baremetal_crt_host.Runtime.Monad.{done, fault, calloc_struct}
use baremetal_crt_host.Runtime.Memory.{peek, le_value}
use baremetal_crt_host.Handles.{dev_is_valid, ctx_is_valid, prg_is_valid, plat_get_uniq_id}
use baremetal_crt_host.Program.{prg_alloc, prg_free}
use baremetal_crt_host.Program.Chunks.{LiveProgram}
use baremetal_crt_host.Context.Life.{IsLiveDevice}
use baremetal_crt_host.Kernel.Api.{set_errcode}
use baremetal_crt_host.Elf.{
  ElfFormat, load_elf, read_uint, zero_elf, prg_elf_is_valid, prg_elf_init, prg_elf_fini,
}
use baremetal_crt_host.Elf.Header.{bytes_are, prg_elf_get_class}
use baremetal_crt_host.Elf.Load.{
  prg_elf_load, prg_elf_unload, check_binaries, create_program_err_out,
  in_cl_create_program_with_binary, in_cl_release_program,
}

-- A live program without a struct of the loader, where `calloc` has nothing to give: the loader
-- does not report CL_OUT_OF_HOST_MEMORY but follows the NULL pointer `prg->priv`.
pub load_no_memory-fault :
    (fmt : ElfFormat) (prg buf len : ℕ) (w : World) (p : Program)
    → LiveProgram w prg p
    → p.priv ≡ null
    → w.supply ≡ []
    → prg_elf_load fmt prg buf len w ≡ fault
unfolding prg_elf_load prg_elf_init prg_elf_is_valid prg_is_valid calloc_struct load_elf
load_no_memory-fault fmt prg buf len w p live no_priv no_memory = ground arith

-- The release of a live program with a live struct of the loader: it succeeds, and both are given
-- back, and no other program or struct, and the rest of the state stays as it is.
pub release_program-frees :
    (prg : ℕ) (w : World) (p : Program) (elf : ElfInfo)
    → LiveProgram w prg p
    → p.priv ≢ null
    → w.elfs p.priv ≡ some elf
    → elf.magic ≡ icd_magic
    → (w' : World) × (in_cl_release_program prg w ≡ done Status.success w')
      × ((q : Ptr) → w'.programs q ≡ (if q == prg then none else w.programs q))
      × ((q : Ptr) → w'.elfs q ≡ (if q == p.priv then none else w.elfs q))
      × (w' ≡ record w { programs = w'.programs; elfs = w'.elfs })
unfolding in_cl_release_program prg_elf_unload prg_elf_is_valid prg_elf_fini prg_is_valid prg_free
    load_elf
release_program-frees prg w p elf live some_elf there magic = (
  record w {
    programs = update (update w.programs prg (some (record p { priv = null }))) prg none;
    elfs = update w.elfs p.priv none;
  },
  ground arith,
  λ q. ground arith,
  λ q. ground arith,
  refl,
)

get_class_bad_magic :
    (fmt : ElfFormat) (buf b c : ℕ) (bs : Bytes) (w : World)
    → fmt.elfmag ≡ b ∷ bs
    → w.memory buf ≡ some c
    → c ≢ b
    → prg_elf_get_class fmt buf w ≡ done (Status.invalid_binary, none) w
unfolding prg_elf_get_class bytes_are read_uint peek le_value
get_class_bad_magic fmt buf b c bs w mag there differs = ground arith

load_bad_magic :
    (fmt : ElfFormat) (prg buf len e b c : ℕ) (bs : Bytes) (es : List Ptr) (w : World) (p : Program)
    → LiveProgram w prg p
    → w.supply ≡ e ∷ es
    → e ≢ null
    → fmt.elfmag ≡ b ∷ bs
    → w.memory buf ≡ some c
    → c ≢ b
    → prg_elf_load fmt prg buf len w
      ≡ done Status.invalid_binary (record w {
        supply = es;
        elfs =
            update
              (update w.elfs e (some (record zero_elf { magic = icd_magic; prg = prg })))
              e
              (some (record zero_elf { magic = icd_magic; prg = prg; buf = buf; elf_size = len }));
        programs = update w.programs prg (some (record p { priv = e }));
      })
unfolding prg_elf_load prg_elf_init prg_elf_is_valid prg_is_valid calloc_struct load_elf
load_bad_magic fmt prg buf len e b c bs es w p live supply some_e mag there differs =
    let elf1 : ElfInfo = record zero_elf { magic = icd_magic; prg = prg } in
    let elf2 : ElfInfo = record elf1 { buf = buf; elf_size = len } in
    let w2 : World = record w {
      supply = es;
      elfs = update (update w.elfs e (some elf1)) e (some elf2);
      programs = update w.programs prg (some (record p { priv = e }));
    } in
    ground (arith, get_class_bad_magic fmt buf b c bs w2 mag there differs)

-- On a live context and one live device, with a file that is not empty and whose first byte is not
-- that of ELF, where `calloc` gives two blocks: `in_clCreateProgramWithBinary` returns NULL and
-- reports CL_INVALID_BINARY, and gives the program back, but not the loader's struct.
pub create_program_bad_magic_leaks :
    (fmt : ElfFormat) (ctx dev len buf t e b c : ℕ) (bs : Bytes) (ps : List Ptr)
    → (errcode : Option Status) (w : World) (x : Context) (d : Device) → ctx ≢ null
    → w.contexts ctx ≡ some x
    → x.magic ≡ icd_magic
    → IsLiveDevice w dev d
    → buf ≢ null
    → w.supply ≡ t ∷ e ∷ ps
    → t ≢ null
    → e ≢ null
    → fmt.elfmag ≡ b ∷ bs
    → w.memory buf ≡ some c
    → c ≢ b
    → (w' : World) × (elf : ElfInfo) × (in_cl_create_program_with_binary fmt ctx 1
          (dev ∷ [])
          (some (suc len ∷ []))
          (some (buf ∷ []))
          errcode
          w
        ≡ done (null, set_errcode errcode Status.invalid_binary) w')
      × (w'.programs t ≡ none)
      × (w'.elfs e ≡ some elf)
      × (elf.prg ≡ t)
unfolding in_cl_create_program_with_binary check_binaries ctx_is_valid dev_is_valid prg_alloc
    plat_get_uniq_id calloc_struct create_program_err_out prg_free prg_is_valid
create_program_bad_magic_leaks fmt ctx dev len buf t e b c bs ps errcode w x d some_ctx live_ctx
      magic_x live_d some_buf supply some_t some_e mag there differs =
    let p : Program = record {
      dispatch = x.dispatch;
      magic = icd_magic;
      id = w.uniq_id;
      ctx = ctx;
      priv = null;
      num_chunks = 0;
      chunks = none;
      comm = record { addr = 0; size = 0 };
    } in
    let w1 : World = record w {
      supply = e ∷ ps;
      uniq_id = (w.uniq_id + 1) % 2 ^ 32;
      programs = update w.programs t (some p);
    } in
    let loaded =
      load_bad_magic fmt t buf (suc len) e b c bs ps w1 p (some_t, ground arith, refl) refl some_e
        mag there differs in
    let elf1 : ElfInfo = record zero_elf { magic = icd_magic; prg = t } in
    let elf2 : ElfInfo = record elf1 { buf = buf; elf_size = suc len } in
    let w2 : World = record w1 {
      supply = ps;
      elfs = update (update w.elfs e (some elf1)) e (some elf2);
      programs = update w1.programs t (some (record p { priv = e }));
    } in
    (
      record w2 { programs = update w2.programs t none },
      elf2,
      ground (arith, loaded),
      ground arith,
      ground arith,
      refl,
    )
