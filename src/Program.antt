-- ===== src/Program.antt =====
-- Programs, their chunks and their communication area: drivers/program.c.
pub mod Chunks
use baremetal_crt_host.Common.{
  ℕ, ◌^◌, Bool, true, false, ◌||◌, Option, none, some, List, ◌==◌, ltb, leb, is_none, length,
  get_elem?, set, replicate,
}
use baremetal_crt_host.Cl.{Status, icd_magic}
use baremetal_crt_host.Runtime.{Ptr, null, Program, ProgramChunk, ProgramComm}
use baremetal_crt_host.Runtime.Monad.{
  fault, M, pure, test◌then◌else◌, on_option, ◌>>=◌, ◌>>◌, ◌⨟◌, or_leave, calloc_struct,
}
use baremetal_crt_host.Handles.{
  ctx_is_valid, prg_is_valid, load_context, load_program, put_program, plat_get_uniq_id,
}

unfoldable pub prg_alloc : Ptr → Option Ptr → M (Status × Option Ptr)
unfolding ctx_is_valid plat_get_uniq_id calloc_struct
prg_alloc ctx prg = or_leave (ctx_is_valid ctx) prg do
  test is_none prg then pure (Status.invalid_value, prg) else do
    t ← calloc_struct
    test t == null then pure (Status.out_of_host_memory, prg) else do
      c ← load_context ctx
      id ← plat_get_uniq_id
      put_program t (
          some (record {
            dispatch = c.dispatch;
            magic = icd_magic;
            id = id;
            ctx = ctx;
            priv = null;
            num_chunks = 0;
            chunks = none;
            comm = record { addr = 0; size = 0 };
          }))
      pure (Status.success, some t)

unfoldable pub prg_free : Ptr → M Status
unfolding prg_is_valid
prg_free prg = prg_is_valid prg ⨟ do put_program prg none; pure Status.success

unfoldable pub prg_get_num_chunks : Ptr → Option ℕ → M (Status × Option ℕ)
unfolding prg_is_valid
prg_get_num_chunks prg num = or_leave (prg_is_valid prg) num do
  p ← load_program prg
  test is_none num then pure (Status.success, num) else pure (Status.success, some p.num_chunks)

-- What `calloc` leaves in a chunk.
abbrev pub zero_chunk : ProgramChunk
zero_chunk = record { index = 0; paddr = 0; buf = null; size = 0; readonly = false; loaded = false }

-- The old array is freed before the new one is asked for.
unfoldable pub prg_set_num_chunks : Ptr → ℕ → M Status
unfolding prg_is_valid calloc_struct
prg_set_num_chunks prg num = prg_is_valid prg ⨟ do
  p ← load_program prg
  block ← calloc_struct
  test block == null
      then (do put_program prg (some (record p { chunks = none })); pure Status.out_of_host_memory)
      else (do
        put_program prg
            (some (record p { chunks = some (replicate num zero_chunk); num_chunks = num }))
        pure Status.success)

-- `i < 0 || prg->num_chunks <= i`, on the pattern of the `int` i
abbrev pub bad_index : ℕ → ℕ → Bool
bad_index i num_chunks = leb (2 ^ 31) i || leb num_chunks i

-- A read through a NULL `chunks`, or past its end, is a fault.
unfoldable pub prg_get_chunk : Ptr → ℕ → Option ProgramChunk → M (Status × Option ProgramChunk)
unfolding prg_is_valid
prg_get_chunk prg i chunk = or_leave (prg_is_valid prg) chunk do
  p ← load_program prg
  test bad_index i p.num_chunks
      then pure (Status.invalid_value, chunk)
      else test is_none chunk
      then pure (Status.success, chunk)
      else on_option p.chunks (λ w. fault)
          λ chunks. on_option (get_elem? chunks i) (λ w. fault) λ c. pure (Status.success, some c)

unfoldable pub prg_set_chunk : Ptr → ℕ → Option ProgramChunk → M Status
unfolding prg_is_valid
prg_set_chunk prg i chunk = prg_is_valid prg ⨟ do
  p ← load_program prg
  on_option chunk (pure Status.invalid_value) λ c.
      test bad_index i p.num_chunks
      then pure Status.invalid_value
      else on_option p.chunks (λ w. fault)
          λ chunks.
            test ltb i (length chunks)
            then (do
              put_program prg
                  (some (record p { chunks = some (set chunks i (record c { index = i })) }))
              pure Status.success)
            else (λ w. fault)

unfoldable pub prg_get_comm : Ptr → Option ProgramComm → M (Status × Option ProgramComm)
unfolding prg_is_valid
prg_get_comm prg comm = or_leave (prg_is_valid prg) comm do
  p ← load_program prg
  test is_none comm then pure (Status.success, comm) else pure (Status.success, some p.comm)

unfoldable pub prg_set_comm : Ptr → Option ProgramComm → M Status
unfolding prg_is_valid
prg_set_comm prg comm =
    prg_is_valid prg
    ⨟ on_option comm (pure Status.invalid_value) λ c. do
      p ← load_program prg
      put_program prg (some (record p { comm = c }))
      pure Status.success
