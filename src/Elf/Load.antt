-- ===== src/Elf/Load.antt =====
-- The sections that name the communication area, the loader's entry points, and src/cl_program.c.
use baremetal_crt_host.Common.{
  ℕ, zero, suc, Bool, true, false, not, ◌||◌, Option, some, List, [], ◌∷◌, ◌==◌, ltb, codes,
  get_elem?, replicate,
}
use baremetal_crt_host.Cl.{Status}
use baremetal_crt_host.Runtime.{Ptr, null, ProgramComm, SecHeader}
use baremetal_crt_host.Runtime.Monad.{
  fault, M, pure, test◌then◌else◌, on_option, ◌>>=◌, ◌>>◌, ◌⨟◌, or_goto, calloc_struct,
}
use baremetal_crt_host.Handles.{dev_is_valid, ctx_is_valid, prg_is_valid, load_program}
use baremetal_crt_host.Program.{prg_alloc, prg_free, prg_set_comm}
use baremetal_crt_host.Kernel.Api.{set_errcode, value_or}
use baremetal_crt_host.Elf.{
  Field, ElfFormat, plus, read_u32, load_elf, put_elf, prg_elf_is_valid, prg_elf_init, prg_elf_fini,
}
use baremetal_crt_host.Elf.Header.{prg_elf_get_class, prg_elf_is_valid_header, prg_elf_read_elf}
use baremetal_crt_host.Elf.Tables.{
  zero_sh, by_class, prg_elf_read_ph, prg_elf_read_shs32, prg_elf_read_shs64, get_sh_name, name_is,
}

-- BAREMETAL_CRT_COMM_MAGIC, and the member `magic` of `struct __comm_section`
abbrev pub comm_magic : ℕ
comm_magic = 0xbadc_afe5

abbrev pub comm_section_magic : Field
comm_section_magic = record { at = 0; width = 4 }

-- The loop over the sections that are left, with `found_comm` and `found_comm_area`
unfoldable pub find_comm : Ptr → List SecHeader → (found area : Bool) → M (Bool × Bool)
unfolding load_elf read_u32 name_is
find_comm e [] found area = pure (found, area)
find_comm e (sec ∷ secs) found area = do
  elf ← load_elf e
  let sec_name : Option Ptr = get_sh_name elf sec.sh_name
  let c : Ptr = plus elf.buf sec.sh_offset
  is_comm ← name_is sec_name (codes ".comm")
  magic ← test is_comm then read_u32 c comm_section_magic else pure comm_magic
  test not (magic == comm_magic) then find_comm e secs found area else do
    (test is_comm then put_elf e (some (record elf { comm_sec = c })) else pure tt)
    is_area ← name_is sec_name (codes ".comm_area")
    elf' ← load_elf e
    test is_area
        then (do
          let comm : ProgramComm = record { addr = sec.sh_addr; size = sec.sh_size }
          put_elf e (some (record elf' { comm = comm }))
          find_comm e secs (found || is_comm) true)
        else find_comm e secs (found || is_comm) area

unfoldable pub prg_elf_read_shs : ElfFormat → Ptr → M Status
unfolding load_elf calloc_struct prg_elf_read_shs32 prg_elf_read_shs64 find_comm prg_set_comm
prg_elf_read_shs fmt e = do
  elf ← load_elf e
  shs ← calloc_struct
  test shs == null then pure Status.out_of_host_memory else do
    put_elf e (some (record elf { shs = some (replicate elf.e_shnum zero_sh) }))
    by_class elf (prg_elf_read_shs32 fmt e) (prg_elf_read_shs64 fmt e) ⨟ do
      elf' ← load_elf e
      on_option elf'.shs (λ w. fault)
          λ secs.
            on_option (get_elem? secs elf'.e_shstrndx) (λ w. fault)
              λ shstr. do
                put_elf e (
                    some (record elf' {
                      shstr_ent = plus elf'.buf shstr.sh_offset;
                      shstr_size = shstr.sh_size;
                    }))
                (found_comm, found_comm_area) ← find_comm e secs false false
                test not found_comm
                    then pure Status.invalid_binary
                    else test not found_comm_area
                    then pure Status.invalid_binary
                    else do elf'' ← load_elf e; prg_set_comm elf''.prg (some elf''.comm)

-- The result of `prg_elf_init` is lost; without the memory for the struct `prg->priv` is followed
-- as it is.
unfoldable pub prg_elf_load : ElfFormat → (prg buf : Ptr) → (len : ℕ) → M Status
unfolding prg_is_valid prg_elf_init prg_elf_is_valid load_elf prg_elf_get_class prg_elf_read_elf
    prg_elf_is_valid_header prg_elf_read_ph prg_elf_read_shs
prg_elf_load fmt prg buf len = prg_is_valid prg ⨟ do
  _ ← prg_elf_init prg
  prg_elf_is_valid prg ⨟ do
    p ← load_program prg
    elf ← load_elf p.priv
    put_elf p.priv (some (record elf { buf = buf; elf_size = len }))
    (r, arch) ← prg_elf_get_class fmt buf
    pure r ⨟ do
      elf' ← load_elf p.priv
      put_elf p.priv (some (record elf' { elf_class = value_or arch 0 }))
      prg_elf_read_elf fmt p.priv
          ⨟ (do elf'' ← load_elf p.priv; pure (prg_elf_is_valid_header fmt elf''))
          ⨟ prg_elf_read_ph fmt p.priv
          ⨟ prg_elf_read_shs fmt p.priv

unfoldable pub prg_elf_unload : Ptr → M Status
unfolding prg_elf_is_valid prg_elf_fini
prg_elf_unload prg = prg_elf_is_valid prg ⨟ prg_elf_fini prg

-- The loop over the devices, with the three arrays from its round on; a read past the end of
-- one is a fault.
unfoldable pub check_binaries :
    (num_devices : ℕ) → (device_list lengths binaries : List Ptr) → M Status
unfolding dev_is_valid
check_binaries zero devs lens bins = pure Status.success
check_binaries (suc n) (dev ∷ devs) (zero ∷ lens) bins = pure Status.invalid_value
check_binaries (suc n) (dev ∷ devs) (suc len ∷ lens) (bin ∷ bins) =
    test bin == null
    then pure Status.invalid_value
    else dev_is_valid dev ⨟ check_binaries n devs lens bins
check_binaries (suc n) _ _ _ = λ w. fault

-- What follows the label `err_out`
unfoldable pub create_program_err_out : (t : Ptr) → Option Status → Status → M (Ptr × Option Status)
unfolding prg_free
create_program_err_out t errcode r = do
  (test t == null then pure tt else do _ ← prg_free t; pure tt)
  pure (null, set_errcode errcode r)

-- `lengths` and `binaries` are the arrays, `none` for NULL. `binary_status` is not used.
unfoldable pub in_cl_create_program_with_binary :
    ElfFormat
    → (context : Ptr) → (num_devices : ℕ) → (device_list : List Ptr) → (lengths : Option (List ℕ))
    → (binaries : Option (List Ptr)) → Option Status
    → M (Ptr × Option Status)
unfolding ctx_is_valid check_binaries prg_alloc prg_elf_load create_program_err_out
in_cl_create_program_with_binary fmt context num_devices device_list lengths binaries errcode =
    on_option lengths (create_program_err_out null errcode Status.invalid_value) λ lens.
      on_option binaries (create_program_err_out null errcode Status.invalid_value) λ bins.
        or_goto (ctx_is_valid context) (create_program_err_out null errcode) (
          or_goto (check_binaries num_devices device_list lens bins)
            (create_program_err_out null errcode)
            (test ltb 1 num_devices
              then create_program_err_out null errcode Status.invalid_value
              else do
                (r, var) ← prg_alloc context (some null)
                let t : Ptr = value_or var null
                or_goto (pure r) (create_program_err_out t errcode) (
                    on_option (get_elem? bins 0) (λ w. fault)
                      λ buf.
                        on_option (get_elem? lens 0) (λ w. fault)
                          λ len.
                            or_goto (prg_elf_load fmt t buf len) (create_program_err_out t errcode)
                              (pure (t, errcode)))))

-- `res` keeps the status of `prg_elf_unload`.
unfoldable pub in_cl_release_program : Ptr → M Status
unfolding prg_is_valid prg_elf_unload prg_free
in_cl_release_program program =
    prg_is_valid program ⨟ do res ← prg_elf_unload program; prg_free program ⨟ pure res

unfoldable pub in_cl_build_program : Ptr → M Status
unfolding prg_is_valid
in_cl_build_program program = prg_is_valid program ⨟ pure Status.success
