-- ===== src/Enqueue/Launch.antt =====
-- The launch of a kernel: `in_clEnqueueNDRangeKernel` of src/cl_enqueue.c.
use baremetal_crt_host.Common.{
  ℕ, zero, suc, ◌+◌, ◌%◌, Bool, true, false, ◌&&◌, not, some, [], ◌∷◌, ◌++◌, Bytes, ◌==◌, length,
  take, drop,
}
use baremetal_crt_host.Cl.{Status, u32_mod, u64_mod}
use baremetal_crt_host.Runtime.{Ptr, ProgramComm, KernArg}
use baremetal_crt_host.Runtime.Monad.{
  fault, M, pure, test◌then◌else◌, on_option, ◌>>=◌, ◌⨟◌, or_goto,
}
use baremetal_crt_host.Runtime.Memory.{le_value}
use baremetal_crt_host.Handles.{load_kernel}
use baremetal_crt_host.Kernel.{zero_arg, kern_get_program, kern_get_num_args, kern_get_arg}
use baremetal_crt_host.Kernel.Api.{value_or, comm_arg_val}
use baremetal_crt_host.Program.{
  zero_chunk, prg_get_num_chunks, prg_get_chunk, prg_set_chunk, prg_get_comm,
}
use baremetal_crt_host.Context.{ctx_get_device, cmdq_get_context}
use baremetal_crt_host.Device.{HostBuf, dev_reset, dev_run, dev_stop, dev_read_mem, dev_write_mem}
use baremetal_crt_host.Enqueue.{
  Payload, le_bytes, align_of, send_arg, receive_arg, enqueue_arg, dequeue_arg,
}

-- One round of the loop over the chunks
unfoldable pub send_chunk : (dev prg : Ptr) → ℕ → M Status
unfolding prg_get_chunk prg_set_chunk dev_write_mem
send_chunk dev prg i = do
  (r, var) ← prg_get_chunk prg i (some zero_chunk)
  let chunk = value_or var zero_chunk
  pure r
      ⨟ (test chunk.readonly && chunk.loaded
          then pure Status.success
          else dev_write_mem dev chunk.paddr (HostBuf.at chunk.buf) chunk.size
            ⨟ prg_set_chunk prg i (some (record chunk { loaded = true })))

-- The loop, with the rounds that are left
unfoldable pub send_chunks : (dev prg : Ptr) → (left i : ℕ) → M Status
unfolding send_chunk
send_chunks dev prg zero i = pure Status.success
send_chunks dev prg (suc left) i = send_chunk dev prg i ⨟ send_chunks dev prg left (i + 1)

-- BAREMETAL_CRT_COMM_MAGIC
abbrev pub comm_magic : ℕ
comm_magic = 0xbadc_afe5

-- struct __comm_area_header of include/drivers/comm.h, as it lies in memory
abbrev pub area_header : (magic num_args finished ret_main : ℕ) → Bytes
area_header magic num_args finished ret_main =
    le_bytes 4 magic ++ (le_bytes 4 num_args ++ (le_bytes 4 finished ++ le_bytes 4 ret_main))

abbrev pub sizeof_area_header : ℕ
sizeof_area_header = 16

abbrev pub header_magic : Bytes → ℕ
header_magic h = le_value (take 4 h)

abbrev pub header_done : Bytes → ℕ
header_done h = le_value (take 4 (drop 8 h))

-- The name of the kernel as argv[0], which owns its bytes: `arg.index` is -1.
abbrev pub name_payload : Bytes → Bool → Payload
name_payload name needed = record {
  ptr = HostBuf.local (name ++ 0 ∷ []);
  size_buf = length name + 1;
  needed = needed;
}

-- The loop over the arguments, with the rounds that are left; the last result is `paddr`.
unfoldable pub transfer_args :
    (KernArg → ℕ → M (Status × ℕ)) → (kernel : Ptr) → (left i paddr : ℕ) → M (Status × ℕ)
unfolding kern_get_arg
transfer_args transfer kernel zero i paddr = pure (Status.success, paddr)
transfer_args transfer kernel (suc left) i paddr = do
  (r, var) ← kern_get_arg kernel i (some zero_arg)
  or_goto (pure r) (λ e. pure (e, paddr))
      do
        (s, next) ← transfer (value_or var zero_arg) paddr
        or_goto (pure s) (λ e. pure (e, next)) (transfer_args transfer kernel left (i + 1) next)

-- The polling loop, with the rounds that are left and the bytes of `h_comm`
unfoldable pub poll : (dev : Ptr) → (addr left : ℕ) → Bytes → M Status
unfolding dev_stop dev_read_mem dev_run le_value
poll dev addr zero h = pure Status.invalid_device
poll dev addr (suc left) h = dev_stop dev ⨟ do
  (r, bs) ← dev_read_mem dev addr (HostBuf.local h) sizeof_area_header
  let got = bs ++ drop (length bs) h
  pure r
      ⨟ (test header_magic got == comm_magic
          then (test not (header_done got == 0)
              then pure Status.success
              else dev_run dev ⨟ poll dev addr left got)
          else pure Status.invalid_device)

-- The rounds of the polling loop
abbrev pub max_polls : ℕ
max_polls = 10000

-- From the kernel's name on, the header being sent
unfoldable pub exchange_args :
    (dev kernel : Ptr) → (name h_comm : Bytes) → ProgramComm → (num_args : ℕ) → M Status
unfolding send_arg receive_arg enqueue_arg dequeue_arg transfer_args dev_run poll
exchange_args dev kernel name h_comm comm num_args = do
  (r, paddr) ←
      send_arg dev comm_arg_val 0xffff_ffff (name_payload name true) comm
        ((comm.addr + align_of sizeof_area_header 8) % u64_mod)
  pure r ⨟ do
    (s, _) ← transfer_args (λ arg. enqueue_arg dev arg comm) kernel num_args 0 paddr
    pure s ⨟ dev_run dev ⨟ poll dev comm.addr max_polls h_comm ⨟ do
      (t, back) ←
          receive_arg dev (name_payload name false) comm
            ((comm.addr + sizeof_area_header) % u64_mod)
      pure t ⨟ do
        (u, _) ← transfer_args (λ arg. dequeue_arg dev arg comm) kernel num_args 0 back
        pure u

-- From the header of the communication area on; a kernel without a name is a fault.
unfoldable pub start_kernel : (dev kernel : Ptr) → ProgramComm → (num_args : ℕ) → M Status
unfolding exchange_args dev_write_mem le_bytes
start_kernel dev kernel comm num_args =
    let h_comm = area_header comm_magic ((num_args + 1) % u32_mod) 0 0 in
    dev_write_mem dev comm.addr (HostBuf.local h_comm) sizeof_area_header ⨟ do
      k ← load_kernel kernel
      on_option k.name (λ w. fault) λ name. exchange_args dev kernel name h_comm comm num_args

unfoldable pub in_cl_enqueue_nd_range_kernel : (command_queue kernel : Ptr) → M Status
unfolding start_kernel send_chunks cmdq_get_context ctx_get_device kern_get_program dev_reset
    prg_get_num_chunks prg_get_comm kern_get_num_args
in_cl_enqueue_nd_range_kernel command_queue kernel = do
  ctx ← cmdq_get_context command_queue
  dev ← ctx_get_device ctx
  prg ← kern_get_program kernel
  dev_reset dev ⨟ do
    (r, num) ← prg_get_num_chunks prg (some 0)
    pure r ⨟ send_chunks dev prg (value_or num 0) 0 ⨟ do
      (s, area) ← prg_get_comm prg (some (record { addr = 0; size = 0 }))
      pure s ⨟ do
        (t, args) ← kern_get_num_args kernel (some 0)
        pure t
            ⨟ start_kernel dev kernel (value_or area (record { addr = 0; size = 0 }))
                (value_or args 0)
