-- ===== src/Tests/Chunks.antt =====
-- Chunks and a launch of a program on small inputs.
use baremetal_crt_host.Common.{ℕ, zero, suc, ◌≤◌, ◌≡◌, refl, true, some, [], ◌∷◌, get_elem?, arith}
use baremetal_crt_host.Cl.{Status}
use baremetal_crt_host.Runtime.{DevCall, Program, ProgramChunk, World}
use baremetal_crt_host.Runtime.Monad.{done}
use baremetal_crt_host.Runtime.Memory.{peek}
use baremetal_crt_host.Enqueue.Launch.{send_chunk}
use baremetal_crt_host.Enqueue.Chunks.{send_chunk_once}
use baremetal_crt_host.Tests.Data.{only, small_world, zero_chunk_1, program_1, device_1, all_ops}

abbrev loaded_chunk : ProgramChunk
loaded_chunk = record zero_chunk_1 { loaded = true }

abbrev loaded_program : Program
loaded_program = record program_1 { chunks = some (loaded_chunk ∷ loaded_chunk ∷ []) }

abbrev loaded_world : World
loaded_world = record small_world { programs = only 90 loaded_program }

all_loaded :
    (j : ℕ) (c : ProgramChunk)
    → 0 ≤ j
    → get_elem? (loaded_chunk ∷ loaded_chunk ∷ []) j ≡ some c
    → (c.readonly ≡ true) × (c.loaded ≡ true)
all_loaded zero c le e = ground arith
all_loaded (suc zero) c le e = ground arith
all_loaded (suc (suc j)) c le e = ground arith

-- A chunk of two bytes
abbrev code_chunk : ProgramChunk
code_chunk = record zero_chunk_1 { paddr = 64; buf = 1500; size = 2 }

abbrev code_program : Program
code_program = record program_1 { chunks = some (code_chunk ∷ loaded_chunk ∷ []) }

abbrev code_world : World
code_world = record small_world { programs = only 90 code_program }

code_there : peek code_world.memory 1500 2 ≡ some (220 ∷ 221 ∷ [])
unfolding peek
code_there = refl

send_chunk_once_example :
    (w' : World) × (send_chunk 20 90 0 code_world ≡ done Status.success w')
    × (w'.calls ≡ DevCall.write_mem 20 64 (220 ∷ 221 ∷ []) ∷ [])
    × (send_chunk 20 90 0 w' ≡ done Status.success w')
send_chunk_once_example =
    send_chunk_once 20 90 0 code_world code_program (code_chunk ∷ loaded_chunk ∷ []) code_chunk
      (220 ∷ 221 ∷ []) [] device_1 all_ops (ground arith, refl, refl) refl refl (omega arith)
      (omega arith) refl refl refl (ground arith, refl, refl, refl, refl) (ground arith)
      (omega arith) code_there refl
