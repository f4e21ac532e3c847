-- ===== src/Enqueue/Isolation/Running.antt =====
-- What the run of a kernel keeps, from the header of its area on.
use baremetal_crt_host.Common.{
  ℕ, zero, suc, ◌+◌, ◌%◌, ◌≡◌, refl, true, false, not, ◌++◌, Bytes, ◌==◌, drop, length, arith,
}
use baremetal_crt_host.Cl.{Status, u32_mod}
use baremetal_crt_host.Runtime.{Ptr, DevCall, ProgramComm, World}
use baremetal_crt_host.Runtime.Monad.{done, fault}
use baremetal_crt_host.Runtime.Preserve.{
  Preserves, Preserves-pure, Preserves->>=, Preserves-test, Preserves-check, Preserves-on_option,
  Preserves-deref,
}
use baremetal_crt_host.Kernel.Api.{comm_arg_val}
use baremetal_crt_host.Device.{HostBuf, dev_run, dev_stop}
use baremetal_crt_host.Enqueue.{enqueue_arg, dequeue_arg}
use baremetal_crt_host.Enqueue.Launch.{
  sizeof_area_header, comm_magic, header_magic, header_done, max_polls, name_payload, area_header,
  poll, exchange_args, start_kernel,
}
use baremetal_crt_host.Enqueue.Isolation.{
  IsKept, dev_plain-Kept, dev_write_mem-Kept, dev_read_mem-Kept,
}
use baremetal_crt_host.Enqueue.Isolation.Args.{
  send_arg-Kept, receive_arg-Kept, enqueue_arg-Kept, dequeue_arg-Kept, transfer_args-Kept,
}

fault_done : {A : Type 0} (r : A) (w : World) → fault ≡ done r w → ⊥
fault_done r w e = ground arith

module _ (dev : Ptr) (P : World → Type 0) (kept : IsKept dev P) where
  poll-Kept : (addr left : ℕ) (h : Bytes) → Preserves P (poll dev addr left h)
  unfolding poll dev_stop dev_run
  poll-Kept addr zero h = Preserves-pure P Status.invalid_device
  poll-Kept addr (suc left) h =
      Preserves-check P (dev_plain-Kept dev P kept (λ ops. ops.stop) DevCall.stop refl) (
        Preserves->>= P (dev_read_mem-Kept dev P kept addr (HostBuf.local h) sizeof_area_header)
          λ x.
            let got = x.1 ++ drop (length x.1) h in
            Preserves-check P (Preserves-pure P x.0) (
              Preserves-test P (header_magic got == comm_magic)
                (Preserves-test P (not (header_done got == 0)) (Preserves-pure P Status.success) (
                  Preserves-check P (dev_plain-Kept dev P kept (λ ops. ops.run) DevCall.run refl)
                    (poll-Kept addr left got)))
                (Preserves-pure P Status.invalid_device)))

  exchange_args-Kept :
      (kernel : ℕ) (name h_comm : Bytes) (comm : ProgramComm) (num_args : ℕ)
      → Preserves P (exchange_args dev kernel name h_comm comm num_args)
  unfolding exchange_args dev_run
  exchange_args-Kept kernel name h_comm comm num_args =
      Preserves->>= P
        (send_arg-Kept dev P kept comm_arg_val 0xffff_ffff (name_payload name true) comm _)
        λ x. Preserves-check P (Preserves-pure P x.0) (
          Preserves->>= P
            (transfer_args-Kept dev P kept (λ arg. enqueue_arg dev arg comm) kernel num_args 0 x.1
              (λ arg p. enqueue_arg-Kept dev P kept arg comm p))
            λ y. Preserves-check P (Preserves-pure P y.0) (
              Preserves-check P (dev_plain-Kept dev P kept (λ ops. ops.run) DevCall.run refl) (
                Preserves-check P (poll-Kept comm.addr max_polls h_comm) (
                  Preserves->>= P (receive_arg-Kept dev P kept (name_payload name false) comm _)
                    λ z. Preserves-check P (Preserves-pure P z.0) (
                      Preserves->>= P
                        (transfer_args-Kept dev P kept (λ arg. dequeue_arg dev arg comm) kernel
                          num_args 0 z.1 (λ arg p. dequeue_arg-Kept dev P kept arg comm p))
                        (λ u. Preserves-pure P u.0))))))

  pub start_kernel-Kept :
      (kernel : ℕ) (comm : ProgramComm) (num_args : ℕ)
      → Preserves P (start_kernel dev kernel comm num_args)
  unfolding start_kernel
  start_kernel-Kept kernel comm num_args =
      Preserves-check P
        (dev_write_mem-Kept dev P kept comm.addr
          (HostBuf.local (area_header comm_magic ((num_args + 1) % u32_mod) 0 0))
          sizeof_area_header)
        (Preserves->>= P (Preserves-deref P (λ w. w.kernels) kernel) λ k.
          Preserves-on_option P k.name (λ w r w' h e. absurd (fault_done r w' e))
            λ name.
              exchange_args-Kept kernel name (area_header comm_magic ((num_args + 1) % u32_mod) 0 0)
                comm num_args)
