-- ===== src/Tests/Launch.antt =====
-- Programs and the launch of a kernel on small inputs.
use baremetal_crt_host.Common.{
  ℕ, zero, suc, ◌<◌, ◌≡◌, refl, true, false, some, List, [], ◌∷◌, Bytes, replicate, leb, length,
  if◌then◌else◌, arith,
}
use baremetal_crt_host.Cl.{Status}
use baremetal_crt_host.Runtime.{
  DevCall, KernArg, Mem, Program, ProgramChunk, ProgramComm, World, update,
}
use baremetal_crt_host.Context.{ctx_get_device, cmdq_get_context}
use baremetal_crt_host.Runtime.Monad.{
  Run, done, fault, out_of_fuel, ◌>>=◌, check_handle, calloc_struct,
}
use baremetal_crt_host.Runtime.Memory.{peek, le_value}
use baremetal_crt_host.Handles.{prg_is_valid, kern_is_valid, dev_is_valid}
use baremetal_crt_host.Device.{fetch, lacks_op, call_driver, dev_write_mem}
use baremetal_crt_host.Kernel.{kern_get_arg}
use baremetal_crt_host.Program.{zero_chunk, prg_set_num_chunks}
use baremetal_crt_host.Program.Chunks.{WellFormed}
use baremetal_crt_host.Mem.{mem_can_read}
use baremetal_crt_host.Kernel.Api.{comm_arg_val}
use baremetal_crt_host.Enqueue.{
  le_bytes, enqueue_payload, dequeue_payload, send_arg, receive_arg, enqueue_arg, dequeue_arg,
}
use baremetal_crt_host.Enqueue.Launch.{
  comm_magic, area_header, header_magic, header_done, poll, transfer_args,
  in_cl_enqueue_nd_range_kernel,
}
use baremetal_crt_host.Enqueue.Isolation.Launch.{OnlyTo, launch-OnlyTo}
use baremetal_crt_host.Enqueue.Passes.{transfer_args-agree}
use baremetal_crt_host.Enqueue.Area.{header_call, after_call, enqueue_arg-value}
use baremetal_crt_host.Enqueue.Polling.{rounds, IsHeader, Answers, poll_gives_up, poll_finishes}
use baremetal_crt_host.Tests.Data.{only, small_world, kernel_1, mem_1, program_1, device_1, all_ops}

small_world-WellFormed : WellFormed small_world
small_world-WellFormed p k live = ground arith

abbrev resized : World
resized = record small_world {
  supply = 80 ∷ [];
  programs =
      update small_world.programs 90
        (some (record program_1 { chunks = some (replicate 3 zero_chunk); num_chunks = 3 }));
}

resize_runs : prg_set_num_chunks 90 3 small_world ≡ done Status.success resized
unfolding prg_set_num_chunks prg_is_valid check_handle calloc_struct
resize_runs = refl

abbrev comm_1 : ProgramComm
comm_1 = record { addr = 4096; size = 256 }

-- Two bytes of the host
abbrev value_arg : KernArg
value_arg = record { argtype = 1; index = 0; size = 2; val = 1500 }

bytes_there : peek small_world.memory 1500 2 ≡ some (220 ∷ 221 ∷ [])
unfolding peek
bytes_there = refl

abbrev sent_world : World
sent_world =
    after_call (after_call small_world (header_call 20 4112 comm_arg_val 0 2))
      (DevCall.write_mem 20 4128 (220 ∷ 221 ∷ []))

enqueue_arg-value_example :
    enqueue_arg 20 value_arg comm_1 4112 small_world ≡ done (Status.success, 4136) sent_world
enqueue_arg-value_example =
    enqueue_arg-value 20 value_arg comm_1 4112 (220 ∷ 221 ∷ []) [] [] small_world device_1 all_ops
      (ground arith, refl, refl, refl, refl) refl (ground arith) (omega arith) bytes_there
      (omega arith) (omega arith) refl refl

-- A memory object that the kernel cannot read, with a size of 2^64 - 64
abbrev huge_mem : Mem
huge_mem = record mem_1 { flags = 2; size = 0xffff_ffff_ffff_ffc0 }

abbrev huge_world : World
huge_world = record small_world { mems = only 60 huge_mem }

abbrev mem_arg : KernArg
mem_arg = record { argtype = 2; index = 0; size = 8; val = 60 }

unread : mem_can_read huge_mem ≡ false
unfolding mem_can_read
unread = refl

taken_back :
    dequeue_arg 20 value_arg comm_1 4112 sent_world ≡ done (Status.success, 4136) sent_world
unfolding dequeue_arg dequeue_payload receive_arg
taken_back = refl

-- A kernel with this argument
abbrev launch_world : World
launch_world = record small_world {
  kernels = only 50 (record kernel_1 { args = some (value_arg ∷ []) });
}

abbrev sent_args : World
sent_args =
    after_call (after_call launch_world (header_call 20 4112 comm_arg_val 0 2))
      (DevCall.write_mem 20 4128 (220 ∷ 221 ∷ []))

first_pass :
    transfer_args (λ arg. enqueue_arg 20 arg comm_1) 50 1 0 4112 launch_world
    ≡ done (Status.success, 4136) sent_args
unfolding transfer_args kern_get_arg kern_is_valid check_handle enqueue_arg enqueue_payload send_arg
    dev_write_mem dev_is_valid lacks_op fetch call_driver peek le_bytes
first_pass = refl

second_pass :
    transfer_args (λ arg. dequeue_arg 20 arg comm_1) 50 1 0 4112 sent_args
    ≡ done (Status.success, 4136) sent_args
unfolding transfer_args kern_get_arg kern_is_valid check_handle dequeue_arg dequeue_payload
    receive_arg
second_pass = refl

transfer_args-agree_example : ◌≡◌ {A = ℕ} 4136 4136
transfer_args-agree_example =
    transfer_args-agree 20 50 comm_1 1 0 4112 4136 4136 launch_world sent_args sent_args sent_args
      refl refl first_pass second_pass

-- The header of a kernel that runs, and of one that has ended
abbrev busy : Bytes
busy = area_header comm_magic 2 0 0

abbrev ended : Bytes
ended = area_header comm_magic 2 1 0

busy-IsHeader : (length busy ≡ 16) × (header_magic busy ≡ comm_magic) × (header_done busy ≡ 0)
unfolding le_bytes le_value
busy-IsHeader = (refl, refl, refl)

ended-IsHeader : (length ended ≡ 16) × (header_magic ended ≡ comm_magic) × (header_done ended ≡ 1)
unfolding le_bytes le_value
ended-IsHeader = (refl, refl, refl)

-- A device that never ends
abbrev never : List DevCall → Status × Bytes
never (DevCall.read_mem _ _ _ ∷ _) = (Status.success, busy)
never _ = (Status.success, [])

abbrev never_world : World
never_world = record small_world { driver = never }

poll_gives_up_example :
    poll 20 4096 3 busy never_world
    ≡ done Status.invalid_device (record never_world { calls = rounds 20 4096 3 [] })
poll_gives_up_example =
    poll_gives_up 20 4096 3 busy (λ _. busy) never_world device_1 all_ops
      (ground arith, refl, refl, refl, refl, refl, refl) busy-IsHeader.0
      (λ j lt. ((busy-IsHeader.0, busy-IsHeader.1), busy-IsHeader.2, (refl, refl, refl)))

-- A device that has ended at the second read
abbrev soon : List DevCall → Status × Bytes
soon (DevCall.read_mem _ _ _ ∷ before) =
    (Status.success, if leb 4 (length before) then ended else busy)
soon _ = (Status.success, [])

abbrev soon_world : World
soon_world = record small_world { driver = soon }

abbrev soon_heard : ℕ → Bytes
soon_heard zero = busy
soon_heard (suc j) = ended

soon_rounds :
    (j : ℕ)
    → j < 1
    → IsHeader (soon_heard j)
      × (header_done (soon_heard j) ≡ 0)
      × Answers soon_world 20 4096 (soon_heard j) (rounds 20 4096 j [])
soon_rounds zero lt = ((busy-IsHeader.0, busy-IsHeader.1), busy-IsHeader.2, (refl, refl, refl))
soon_rounds (suc j) lt = absurd (omega arith)

poll_finishes_example :
    poll 20 4096 10000 busy soon_world
    ≡ done Status.success (record soon_world {
      calls = DevCall.read_mem 20 4096 16 ∷ DevCall.stop 20 ∷ rounds 20 4096 1 [];
    })
poll_finishes_example =
    poll_finishes 20 4096 1 10000 busy soon_heard soon_world device_1 all_ops
      (ground arith, refl, refl, refl, refl, refl, refl) busy-IsHeader.0 (omega arith) soon_rounds
      (ended-IsHeader.0, ended-IsHeader.1) (ground (arith, ended-IsHeader.2)) refl refl

-- A launch of a named kernel on a device whose memory cannot be read back
abbrev deaf : List DevCall → Status × Bytes
deaf (DevCall.read_mem _ _ _ ∷ _) = (Status.out_of_resources, [])
deaf _ = (Status.success, [])

abbrev named_world : World
named_world = record small_world {
  kernels = only 50 (record kernel_1 { name = some (107 ∷ []); args = some (value_arg ∷ []) });
  driver = deaf;
}

abbrev world_after : {A : Type 0} → Run A → World
world_after (done a w) = w
world_after fault = small_world
world_after out_of_fuel = small_world

abbrev launched : World
launched = world_after (in_cl_enqueue_nd_range_kernel 40 50 named_world)

device_found : (cmdq_get_context 40 >>= ctx_get_device) named_world ≡ done 20 named_world
unfolding cmdq_get_context ctx_get_device
device_found = refl

launch_runs :
    in_cl_enqueue_nd_range_kernel 40 50 named_world ≡ done Status.out_of_resources launched
unfolding in_cl_enqueue_nd_range_kernel
launch_runs = refl

launch-OnlyTo_example : OnlyTo 20 named_world launched
launch-OnlyTo_example =
    launch-OnlyTo 40 50 20 Status.out_of_resources named_world named_world launched device_found
      launch_runs

-- A launch that succeeds, of a program with two read-only chunks, one of them with bytes
abbrev two_chunks : List ProgramChunk
two_chunks =
    record zero_chunk { paddr = 64; buf = 1500; size = 4; readonly = true }
    ∷ record zero_chunk { paddr = 128; readonly = true }
    ∷ []

abbrev chunk_program : Program
chunk_program = record program_1 { chunks = some two_chunks }

abbrev at_once : List DevCall → Status × Bytes
at_once (DevCall.read_mem _ _ _ ∷ _) = (Status.success, ended)
at_once _ = (Status.success, [])

abbrev ready_world : World
ready_world = record named_world { programs = only 90 chunk_program; driver = at_once }

abbrev run_world : World
run_world = world_after (in_cl_enqueue_nd_range_kernel 40 50 ready_world)
