-- ===== src/Enqueue/Isolation/Args.antt =====
-- What sending and receiving arguments keeps
use baremetal_crt_host.Common.{ℕ, zero, suc, ◌+◌, some}
use baremetal_crt_host.Cl.{Status}
use baremetal_crt_host.Runtime.{Ptr, ProgramComm, KernArg, World}
use baremetal_crt_host.Runtime.Monad.{M}
use baremetal_crt_host.Runtime.Preserve.{
  Preserves, Preserves-pure, Preserves->>=, Preserves-test, Preserves-goto,
}
use baremetal_crt_host.Kernel.{zero_arg, kern_get_arg}
use baremetal_crt_host.Kernel.Api.{value_or}
use baremetal_crt_host.Device.{HostBuf}
use baremetal_crt_host.Enqueue.{
  Payload, arg_header, sizeof_arg_header, exceeds_area, after_header, after_arg, enqueue_payload,
  dequeue_payload, send_arg, receive_arg, enqueue_arg, dequeue_arg,
}
use baremetal_crt_host.Enqueue.Launch.{transfer_args}
use baremetal_crt_host.Enqueue.Isolation.{
  IsKept, or_leave-Kept, unchanged, dev_write_mem-Kept, dev_read_mem-Kept,
}
use baremetal_crt_host.Enqueue.Isolation.Reads.{
  enqueue_payload-unchanged, dequeue_payload-unchanged, kern_get_arg-unchanged,
}

module _ (dev : Ptr) (P : World → Type 0) (kept : IsKept dev P) where
  pub send_arg-Kept :
      (argtype index : ℕ) (payload : Payload) (comm : ProgramComm) (paddr : ℕ)
      → Preserves P (send_arg dev argtype index payload comm paddr)
  unfolding send_arg
  send_arg-Kept argtype index payload comm paddr =
      Preserves-test P (exceeds_area comm paddr payload.size_buf)
        (Preserves-pure P (Status.out_of_resources, paddr))
        (or_leave-Kept dev P kept paddr
          (dev_write_mem-Kept dev P kept paddr
            (HostBuf.local (arg_header argtype index payload.size_buf)) sizeof_arg_header)
          (or_leave-Kept dev P kept (after_header paddr)
            (Preserves-test P payload.needed
              (dev_write_mem-Kept dev P kept (after_header paddr) payload.ptr payload.size_buf)
              (Preserves-pure P Status.success))
            (Preserves-pure P (Status.success, after_arg paddr payload.size_buf))))

  pub receive_arg-Kept :
      (payload : Payload) (comm : ProgramComm) (paddr : ℕ)
      → Preserves P (receive_arg dev payload comm paddr)
  unfolding receive_arg
  receive_arg-Kept payload comm paddr =
      Preserves-test P (exceeds_area comm paddr payload.size_buf)
        (Preserves-pure P (Status.out_of_resources, paddr))
        (or_leave-Kept dev P kept (after_header paddr)
          (Preserves-test P payload.needed
            (Preserves->>= P
              (dev_read_mem-Kept dev P kept (after_header paddr) payload.ptr payload.size_buf)
              (λ a. Preserves-pure P a.0))
            (Preserves-pure P Status.success))
          (Preserves-pure P (Status.success, after_arg paddr payload.size_buf)))

  pub enqueue_arg-Kept :
      (arg : KernArg) (comm : ProgramComm) (paddr : ℕ)
      → Preserves P (enqueue_arg dev arg comm paddr)
  unfolding enqueue_arg
  enqueue_arg-Kept arg comm paddr =
      Preserves->>= P
        (unchanged dev P kept (enqueue_payload arg)
          (λ w r w' e. enqueue_payload-unchanged arg w r w' e))
        λ x.
          or_leave-Kept dev P kept paddr (Preserves-pure P x.0)
            (send_arg-Kept arg.argtype arg.index x.1 comm paddr)

  pub dequeue_arg-Kept :
      (arg : KernArg) (comm : ProgramComm) (paddr : ℕ)
      → Preserves P (dequeue_arg dev arg comm paddr)
  unfolding dequeue_arg
  dequeue_arg-Kept arg comm paddr =
      Preserves->>= P
        (unchanged dev P kept (dequeue_payload arg)
          (λ w r w' e. dequeue_payload-unchanged arg w r w' e))
        λ x. or_leave-Kept dev P kept paddr (Preserves-pure P x.0) (receive_arg-Kept x.1 comm paddr)

  pub transfer_args-Kept :
      (transfer : KernArg → ℕ → M (Status × ℕ)) (kernel left i paddr : ℕ)
      → ((arg : KernArg) (p : ℕ) → Preserves P (transfer arg p))
      → Preserves P (transfer_args transfer kernel left i paddr)
  unfolding transfer_args
  transfer_args-Kept transfer kernel zero i paddr keep = Preserves-pure P (Status.success, paddr)
  transfer_args-Kept transfer kernel (suc left) i paddr keep =
      Preserves->>= P
        (unchanged dev P kept (kern_get_arg kernel i (some zero_arg))
          (λ w r w' e. kern_get_arg-unchanged kernel i (some zero_arg) w r w' e))
        λ x.
          Preserves-goto P (Preserves-pure P x.0) (λ e. Preserves-pure P (e, paddr))
            (Preserves->>= P (keep (value_or x.1 zero_arg) paddr) λ y.
              Preserves-goto P (Preserves-pure P y.0) (λ e. Preserves-pure P (e, y.1))
                (transfer_args-Kept transfer kernel left (i + 1) y.1 keep))
