-- ===== src/Tests/Objects.antt =====
-- Kernels, memory objects, programs, contexts and queues on small inputs.
use baremetal_crt_host.Common.{◌-◌, ◌≡◌, refl, none, some, inl, List, [], ◌∷◌, arith}
use baremetal_crt_host.Cl.{Status, u64_mod}
use baremetal_crt_host.Runtime.{Kernel, KernArg, Mem, World, update}
use baremetal_crt_host.Runtime.Monad.{done, ◌>>=◌, check_handle}
use baremetal_crt_host.Handles.{kern_is_valid}
use baremetal_crt_host.Runtime.Memory.{peek, poke}
use baremetal_crt_host.Kernel.{kern_free, kern_get_num_args, kern_get_arg, kern_set_arg, zero_arg}
use baremetal_crt_host.Kernel.Api.{make_arg, in_cl_release_kernel, in_cl_set_kernel_arg}
use baremetal_crt_host.Kernel.Invariant.{WellFormed}
use baremetal_crt_host.Kernel.Calls.{KernelCall, perform_all, perform_all-WellFormed}
use baremetal_crt_host.Kernel.SetArg.{get_arg-set_kernel_arg}
use baremetal_crt_host.Mem.Api.{
  in_cl_create_buffer, in_cl_enqueue_read_buffer, in_cl_enqueue_write_buffer,
}
use baremetal_crt_host.Mem.Buffer.{read-write_buffer, write_before_buffer}
use baremetal_crt_host.Mem.Life.{new_mem, host_world, create_copy_buffer}
use baremetal_crt_host.Program.{prg_get_chunk, prg_set_chunk}
use baremetal_crt_host.Program.Chunks.{get_chunk-set_chunk}
use baremetal_crt_host.Tests.Data.{
  only, small_world, kernel_1, mem_1, context_1, queue_1, program_1, zero_chunk_1,
}

-- An argument of four bytes
abbrev arg_1 : KernArg
arg_1 = record { argtype = 1; index = 0; size = 4; val = 9 }

made_arg : make_arg 4 9 small_world ≡ done arg_1 small_world
unfolding make_arg
made_arg = refl

get_arg-set_kernel_arg_example :
    (w' : World) × (in_cl_set_kernel_arg 50 2 4 9 small_world ≡ done Status.success w')
    × (kern_get_arg 50 1 (some arg_1) w' ≡ done (Status.success, some zero_arg) w')
get_arg-set_kernel_arg_example =
    get_arg-set_kernel_arg small_world 50 kernel_1 refl (ground arith) refl refl 2 4 9 arg_1 70
      (80 ∷ []) 1 arg_1 zero_arg (ground arith) made_arg (omega arith) refl (ground arith)
      (inl (omega arith)) refl

-- The kernel is given an argument and released.
abbrev calls : List KernelCall
calls = KernelCall.set_arg 50 0 4 9 ∷ KernelCall.release 50 ∷ []

small_world-WellFormed : WellFormed small_world
small_world-WellFormed p k live = ground arith

abbrev kernel_2 : Kernel
kernel_2 = record kernel_1 { args = some (arg_1 ∷ []) }

abbrev after_calls : World
after_calls = record small_world {
  kernels = update (update small_world.kernels 50 (some kernel_2)) 50 none;
}

calls_run : perform_all calls small_world ≡ done tt after_calls
unfolding perform_all in_cl_set_kernel_arg in_cl_release_kernel make_arg kern_is_valid check_handle
    kern_get_num_args kern_set_arg kern_free
calls_run = refl

perform_all-WellFormed_example : WellFormed after_calls
perform_all-WellFormed_example =
    perform_all-WellFormed calls small_world tt after_calls small_world-WellFormed calls_run

bytes_at :
    (peek small_world.memory 1500 2 ≡ some (220 ∷ 221 ∷ []))
    × (peek small_world.memory 1001 2 ≡ some (233 ∷ 234 ∷ []))
    × (peek small_world.memory 1600 2 ≡ some (64 ∷ 65 ∷ []))
unfolding peek
bytes_at = (refl, refl, refl)

read-write_buffer_example :
    (w' : World) × ((in_cl_enqueue_write_buffer 40 60 1 2 1500 >>= λ _.
    in_cl_enqueue_read_buffer 40 60 1 2 1600)
        small_world
      ≡ done Status.success w')
    × (peek w'.memory 1600 2 ≡ some (220 ∷ 221 ∷ []))
    × (peek w'.memory 1001 2 ≡ some (220 ∷ 221 ∷ []))
read-write_buffer_example =
    read-write_buffer small_world 40 queue_1 (ground arith, refl, refl) 60 mem_1
      (ground arith, refl, refl) 1 2 1500 1600 (220 ∷ 221 ∷ []) (233 ∷ 234 ∷ []) (64 ∷ 65 ∷ [])
      (ground arith) (ground arith) (omega arith) (omega arith) refl (inl (omega arith)) bytes_at.0
      bytes_at.1 bytes_at.2

-- The same memory object further up
abbrev mem_2 : Mem
mem_2 = record mem_1 { ptr = 1004 }

abbrev shifted : World
shifted = record small_world { mems = only 60 mem_2 }

bytes_around :
    (peek shifted.memory 1500 2 ≡ some (220 ∷ 221 ∷ []))
    × (peek shifted.memory 1002 2 ≡ some (234 ∷ 235 ∷ []))
unfolding peek
bytes_around = (refl, refl)

write_before_buffer_example :
    in_cl_enqueue_write_buffer 40 60 (u64_mod - 2) 2 1500 shifted
    ≡ done Status.success (record shifted { memory = poke shifted.memory 1002 (220 ∷ 221 ∷ []) })
write_before_buffer_example =
    write_before_buffer shifted 40 queue_1 (ground arith, refl, refl) 60 mem_2
      (ground arith, refl, refl) 2 1500 (220 ∷ 221 ∷ []) (234 ∷ 235 ∷ []) (omega arith)
      (omega arith) (omega arith) (ground arith) refl bytes_around.0 bytes_around.1

-- CL_MEM_READ_WRITE | CL_MEM_USE_HOST_PTR on a block of the host
abbrev over_host : World
over_host = host_world small_world 30 context_1 9 4 1000 70 (80 ∷ [])

create_copy_buffer_example :
    (w' : World) × (in_cl_create_buffer 30 36 2 1500 none small_world ≡ done (70, none) w')
    × (w'.mems 70 ≡ some (new_mem small_world 30 context_1 36 2 80))
    × (peek w'.memory 80 2 ≡ some (220 ∷ 221 ∷ []))
create_copy_buffer_example =
    create_copy_buffer small_world 30 context_1 (ground arith, refl, refl) 36 2 1500 none refl
      (omega arith) 70 80 [] refl (ground arith) (ground arith) (220 ∷ 221 ∷ []) refl (ground arith)
      bytes_at.0 (inl (omega arith))

-- No memory is left.
abbrev exhausted : World
exhausted = record small_world { supply = [] }

get_chunk-set_chunk_example :
    (w' : World) × (prg_set_chunk 90 1 (some zero_chunk_1) small_world ≡ done Status.success w')
    × (prg_get_chunk 90 1 (some zero_chunk_1) w'
        ≡ done (Status.success, some (record zero_chunk_1 { index = 1 })) w')
get_chunk-set_chunk_example =
    get_chunk-set_chunk small_world 90 program_1 (ground arith, refl, refl) 1 1 zero_chunk_1
      zero_chunk_1 (record zero_chunk_1 { index = 1 }) (zero_chunk_1 ∷ zero_chunk_1 ∷ []) refl refl
      (omega arith) (omega arith) (omega arith) refl
