-- ===== src/Enqueue.antt =====
-- The transfer of kernel arguments to and from the communication area of a device: `enqueue_arg`
-- and `dequeue_arg` of src/cl_enqueue.c. The children hold the launch of a kernel and the proofs.
pub mod Launch
pub mod Isolation
pub mod Layout
pub mod Passes
pub mod Area
pub mod Polling
pub mod Chunks
use baremetal_crt_host.Common.{
  ℕ, zero, suc, ◌+◌, ◌-◌, ◌*◌, ◌/◌, ◌%◌, Bool, true, false, List, [], ◌∷◌, ◌++◌, Bytes, ◌==◌, leb,
  if◌then◌else◌, length,
}
use baremetal_crt_host.Cl.{Status, is_success, u32_mod, u64_mod}
use baremetal_crt_host.Runtime.{Ptr, null, KernArg, Mem, ProgramComm}
use baremetal_crt_host.Runtime.Monad.{M, pure, test◌then◌else◌, ◌>>=◌, ◌>>◌, or_leave}
unfoldable pub use baremetal_crt_host.Runtime.Memory.{le_bytes}
use baremetal_crt_host.Handles.{mem_is_valid, load_mem}
use baremetal_crt_host.Mem.{mem_can_read, mem_can_write}
use baremetal_crt_host.Kernel.Api.{comm_arg_notused, comm_arg_val, comm_arg_mem}
use baremetal_crt_host.Device.{HostBuf, dev_read_mem, dev_write_mem}

-- struct __comm_arg_header of include/drivers/comm.h, as it lies in memory
abbrev pub arg_header : (argtype index size : ℕ) → Bytes
arg_header argtype index size = le_bytes 4 argtype ++ (le_bytes 4 index ++ le_bytes 8 size)

abbrev pub sizeof_arg_header : ℕ
sizeof_arg_header = 16

-- ALIGN_OF of include/type_cl.h, in `uint64_t`
abbrev pub align_of : ℕ → ℕ → ℕ
align_of x align = if x % align == 0 then x else (x / align + 1) * align % u64_mod

-- What the `switch` leaves in `ptr`, `size_buf` and in `need_write` or `need_read`.
pub record Payload : Type 0 where
  pub ptr : HostBuf
  pub size_buf : ℕ
  pub needed : Bool

abbrev pub no_payload : Payload
no_payload = record { ptr = HostBuf.at null; size_buf = 0; needed = false }

-- The case of a memory object
unfoldable pub mem_payload : (Mem → Bool) → Ptr → M (Status × Payload)
unfolding mem_is_valid
mem_payload can mem = or_leave (mem_is_valid mem) no_payload do
  m ← load_mem mem
  pure (Status.success, record { ptr = HostBuf.at m.ptr; size_buf = m.size; needed = can m })

-- The `switch` of `enqueue_arg`
unfoldable pub enqueue_payload : KernArg → M (Status × Payload)
unfolding mem_payload mem_can_read
enqueue_payload arg =
    test arg.argtype == comm_arg_notused
    then pure (Status.invalid_kernel, no_payload)
    else test arg.argtype == comm_arg_val
    then pure
        (Status.success, record { ptr = HostBuf.at arg.val; size_buf = arg.size; needed = true })
    else test arg.argtype == comm_arg_mem
    then mem_payload mem_can_read arg.val
    else pure (Status.invalid_kernel, no_payload)

-- The `switch` of `dequeue_arg`
unfoldable pub dequeue_payload : KernArg → M (Status × Payload)
unfolding mem_payload mem_can_write
dequeue_payload arg =
    test arg.argtype == comm_arg_notused
    then pure (Status.invalid_kernel, no_payload)
    else test arg.argtype == comm_arg_val
    then pure
        (Status.success, record { ptr = HostBuf.at null; size_buf = arg.size; needed = false })
    else test arg.argtype == comm_arg_mem
    then mem_payload mem_can_write arg.val
    else pure (Status.invalid_kernel, no_payload)

-- `comm->addr + comm->size <= *paddr + size_head + size_buf`, in `uint64_t`
abbrev pub exceeds_area : ProgramComm → (paddr size_buf : ℕ) → Bool
exceeds_area comm paddr size_buf =
    leb ((comm.addr + comm.size) % u64_mod) ((paddr + sizeof_arg_header + size_buf) % u64_mod)

-- `*paddr` after a header, and after a whole argument
abbrev pub after_header : ℕ → ℕ
after_header paddr = (paddr + sizeof_arg_header) % u64_mod

abbrev pub after_arg : (paddr size_buf : ℕ) → ℕ
after_arg paddr size_buf = align_of ((after_header paddr + size_buf) % u64_mod) 8

-- What `enqueue_arg` does behind its `switch`. The last result is `*paddr`.
unfoldable pub send_arg :
    Ptr → (argtype index : ℕ) → Payload → ProgramComm → (paddr : ℕ) → M (Status × ℕ)
unfolding dev_write_mem le_bytes
send_arg dev argtype index payload comm paddr =
    let head = arg_header argtype index payload.size_buf in
    test exceeds_area comm paddr payload.size_buf
    then pure (Status.out_of_resources, paddr)
    else or_leave (dev_write_mem dev paddr (HostBuf.local head) sizeof_arg_header) paddr (
        or_leave
          (test payload.needed
            then dev_write_mem dev (after_header paddr) payload.ptr payload.size_buf
            else pure Status.success)
          (after_header paddr) (pure (Status.success, after_arg paddr payload.size_buf)))

unfoldable pub enqueue_arg : Ptr → KernArg → ProgramComm → ℕ → M (Status × ℕ)
unfolding enqueue_payload send_arg
enqueue_arg dev arg comm paddr = do
  (r, payload) ← enqueue_payload arg
  or_leave (pure r) paddr (send_arg dev arg.argtype arg.index payload comm paddr)

-- What `dequeue_arg` does behind its `switch`
unfoldable pub receive_arg : Ptr → Payload → ProgramComm → (paddr : ℕ) → M (Status × ℕ)
unfolding dev_read_mem
receive_arg dev payload comm paddr =
    test exceeds_area comm paddr payload.size_buf
    then pure (Status.out_of_resources, paddr)
    else or_leave
        (test payload.needed
          then (do
            (r, _) ← dev_read_mem dev (after_header paddr) payload.ptr payload.size_buf
            pure r)
          else pure Status.success)
        (after_header paddr) (pure (Status.success, after_arg paddr payload.size_buf))

unfoldable pub dequeue_arg : Ptr → KernArg → ProgramComm → ℕ → M (Status × ℕ)
unfolding dequeue_payload receive_arg
dequeue_arg dev arg comm paddr = do
  (r, payload) ← dequeue_payload arg
  or_leave (pure r) paddr (receive_arg dev payload comm paddr)
