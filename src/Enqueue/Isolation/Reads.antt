-- ===== src/Enqueue/Isolation/Reads.antt =====
-- What a launch asks the runtime's objects for leaves the state as it is.
use baremetal_crt_host.Common.{ℕ, ◌≡◌, Option, arith}
use baremetal_crt_host.Cl.{Status}
use baremetal_crt_host.Runtime.{Ptr, ProgramChunk, ProgramComm, KernArg, World}
use baremetal_crt_host.Runtime.Monad.{done}
use baremetal_crt_host.Kernel.{kern_get_program, kern_get_num_args, kern_get_arg}
use baremetal_crt_host.Program.{prg_get_num_chunks, prg_get_chunk, prg_get_comm}
use baremetal_crt_host.Context.{ctx_get_device, cmdq_get_context}
use baremetal_crt_host.Enqueue.{Payload, mem_payload, enqueue_payload, dequeue_payload}

pub enqueue_payload-unchanged :
    (arg : KernArg) (w : World) (r : Status × Payload) (w' : World)
    → enqueue_payload arg w ≡ done r w'
    → w ≡ w'
unfolding enqueue_payload mem_payload
enqueue_payload-unchanged arg w r w' e = ground arith

pub dequeue_payload-unchanged :
    (arg : KernArg) (w : World) (r : Status × Payload) (w' : World)
    → dequeue_payload arg w ≡ done r w'
    → w ≡ w'
unfolding dequeue_payload mem_payload
dequeue_payload-unchanged arg w r w' e = ground arith

pub kern_get_arg-unchanged :
    (kernel i : ℕ) (arg : Option KernArg) (w : World) (r : Status × Option KernArg) (w' : World)
    → kern_get_arg kernel i arg w ≡ done r w'
    → w ≡ w'
unfolding kern_get_arg
kern_get_arg-unchanged kernel i arg w r w' e = ground arith

pub get_chunk-unchanged :
    (prg i : ℕ) (c : Option ProgramChunk) (w : World) (r : Status × Option ProgramChunk)
    (w' : World)
    → prg_get_chunk prg i c w ≡ done r w'
    → w ≡ w'
unfolding prg_get_chunk
get_chunk-unchanged prg i c w r w' e = ground arith

pub num_chunks-unchanged :
    (prg : ℕ) (n : Option ℕ) (w : World) (r : Status × Option ℕ) (w' : World)
    → prg_get_num_chunks prg n w ≡ done r w'
    → w ≡ w'
unfolding prg_get_num_chunks
num_chunks-unchanged prg n w r w' e = ground arith

pub get_comm-unchanged :
    (prg : ℕ) (c : Option ProgramComm) (w : World) (r : Status × Option ProgramComm) (w' : World)
    → prg_get_comm prg c w ≡ done r w'
    → w ≡ w'
unfolding prg_get_comm
get_comm-unchanged prg c w r w' e = ground arith

pub num_args-unchanged :
    (kernel : ℕ) (n : Option ℕ) (w : World) (r : Status × Option ℕ) (w' : World)
    → kern_get_num_args kernel n w ≡ done r w'
    → w ≡ w'
unfolding kern_get_num_args
num_args-unchanged kernel n w r w' e = ground arith

pub program-unchanged :
    (kernel : ℕ) (w : World) (r : Ptr) (w' : World) → kern_get_program kernel w ≡ done r w' → w ≡ w'
unfolding kern_get_program
program-unchanged kernel w r w' e = ground arith

pub context-unchanged :
    (q : Ptr) (w : World) (r : Ptr) (w' : World) → cmdq_get_context q w ≡ done r w' → w ≡ w'
unfolding cmdq_get_context
context-unchanged q w r w' e = ground arith

pub device-unchanged :
    (ctx : Ptr) (w : World) (r : Ptr) (w' : World) → ctx_get_device ctx w ≡ done r w' → w ≡ w'
unfolding ctx_get_device
device-unchanged ctx w r w' e = ground arith
