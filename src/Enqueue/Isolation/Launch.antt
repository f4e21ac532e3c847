-- ===== src/Enqueue/Isolation/Launch.antt =====
-- What a launch touches: the device of its queue and no other, and none of the runtime's objects but
-- the program's marks of the chunks that are loaded.
use mathlib.Core.Path.{subst}
use baremetal_crt_host.Common.{
  ℕ, zero, suc, ◌+◌, ◌≡◌, refl, sym, ap, ◌∙◌, List, ◌∷◌, Option, All, true, ◌&&◌, some, [], ◌++◌,
  arith,
}
use baremetal_crt_host.Cl.{Status}
use baremetal_crt_host.Runtime.{Ptr, DevCall, ProgramChunk, World}
use baremetal_crt_host.Runtime.Monad.{done, M, pure, ◌>>=◌, ◌⨟◌}
use baremetal_crt_host.Runtime.Preserve.{
  Preserves, and_then-done, Preserves-pure, Preserves->>=, Preserves-test, Preserves-check,
}
use baremetal_crt_host.Kernel.{kern_get_program, kern_get_num_args}
use baremetal_crt_host.Kernel.Api.{value_or}
use baremetal_crt_host.Program.{
  zero_chunk, prg_get_num_chunks, prg_get_chunk, prg_get_comm, prg_set_chunk,
}
use baremetal_crt_host.Context.{ctx_get_device, cmdq_get_context}
use baremetal_crt_host.Device.{HostBuf, dev_reset}
use baremetal_crt_host.Enqueue.Launch.{
  send_chunk, send_chunks, start_kernel, in_cl_enqueue_nd_range_kernel,
}
use baremetal_crt_host.Enqueue.Isolation.{
  IsKept, target, unchanged, dev_plain-Kept, dev_write_mem-Kept,
}
use baremetal_crt_host.Enqueue.Isolation.Reads.{
  get_chunk-unchanged, num_chunks-unchanged, get_comm-unchanged, num_args-unchanged,
  program-unchanged, context-unchanged, device-unchanged,
}
use baremetal_crt_host.Enqueue.Isolation.Running.{start_kernel-Kept}

-- What a launch does once it has found the device
abbrev pub after_device : Ptr → Ptr → M Status
after_device kernel dev = do
  prg ← kern_get_program kernel
  dev_reset dev ⨟ do
    (r, num) ← prg_get_num_chunks prg (some 0)
    pure r ⨟ send_chunks dev prg (value_or num 0) 0 ⨟ do
      (s, area) ← prg_get_comm prg (some (record { addr = 0; size = 0 }))
      pure s ⨟ do
        (t, args) ← kern_get_num_args kernel (some 0)
        pure t
            ⨟ start_kernel dev kernel (value_or area (record { addr = 0; size = 0 }))
                (value_or args 0)

module _ (dev : Ptr) (w0 : World) where
  -- Since the state `w0`, the driver has only had calls for the device, and the objects are the same,
  -- but for programs.
  abbrev pub OnlyTo : World → Type 0
  OnlyTo w =
      ((cs : List DevCall) × (w.calls ≡ cs ++ w0.calls) × All (λ c. target c ≡ dev) cs)
      × (w.devices ≡ w0.devices)
      × (w.kernels ≡ w0.kernels)
      × (w.mems ≡ w0.mems)
      × (w.contexts ≡ w0.contexts)
      × (w.queues ≡ w0.queues)

  abbrev Kept : World → Type 0
  Kept = OnlyTo

  kept : IsKept dev OnlyTo
  kept = (
    λ w call to ((cs, e, all), d, k, m, c, q).
        ((call ∷ cs, ap (λ l. call ∷ l) e, (to, all)), d, k, m, c, q),
    λ w m h. h,
  )

  prg_set_chunk-OnlyTo :
      (prg i : ℕ) (chunk : Option ProgramChunk) → Preserves Kept (prg_set_chunk prg i chunk)
  unfolding prg_set_chunk
  prg_set_chunk-OnlyTo prg i chunk w r w' h run =
      let same : record w { programs = w'.programs } ≡ w' = ground arith in subst Kept same h

  send_chunk-OnlyTo : (prg i : ℕ) → Preserves Kept (send_chunk dev prg i)
  unfolding send_chunk
  send_chunk-OnlyTo prg i =
      Preserves->>= Kept
        (unchanged dev Kept kept (prg_get_chunk prg i (some zero_chunk))
          (λ w r w' e. get_chunk-unchanged prg i (some zero_chunk) w r w' e))
        λ x.
          let chunk = value_or x.1 zero_chunk in
          Preserves-check Kept (Preserves-pure Kept x.0) (
            Preserves-test Kept (chunk.readonly && chunk.loaded)
              (Preserves-pure Kept Status.success)
              (Preserves-check Kept
                (dev_write_mem-Kept dev Kept kept chunk.paddr (HostBuf.at chunk.buf) chunk.size)
                (prg_set_chunk-OnlyTo prg i (some (record chunk { loaded = true })))))

  send_chunks-OnlyTo : (prg left i : ℕ) → Preserves Kept (send_chunks dev prg left i)
  unfolding send_chunks
  send_chunks-OnlyTo prg zero i = Preserves-pure Kept Status.success
  send_chunks-OnlyTo prg (suc left) i =
      Preserves-check Kept (send_chunk-OnlyTo prg i) (send_chunks-OnlyTo prg left (i + 1))

  after_device-OnlyTo : (kernel : Ptr) → Preserves Kept (after_device kernel dev)
  unfolding dev_reset
  after_device-OnlyTo kernel =
      Preserves->>= Kept
        (unchanged dev Kept kept (kern_get_program kernel) (program-unchanged kernel))
        λ prg.
          Preserves-check Kept (dev_plain-Kept dev Kept kept (λ ops. ops.reset) DevCall.reset refl)
            (Preserves->>= Kept
              (unchanged dev Kept kept (prg_get_num_chunks prg (some 0))
                (num_chunks-unchanged prg (some 0)))
              λ x. Preserves-check Kept (Preserves-pure Kept x.0) (
                Preserves-check Kept (send_chunks-OnlyTo prg (value_or x.1 0) 0) (
                  Preserves->>= Kept
                    (unchanged dev Kept kept (prg_get_comm prg _) (get_comm-unchanged prg _))
                    λ y. Preserves-check Kept (Preserves-pure Kept y.0) (
                      Preserves->>= Kept
                        (unchanged dev Kept kept (kern_get_num_args kernel (some 0))
                          (num_args-unchanged kernel (some 0)))
                        λ z.
                          Preserves-check Kept (Preserves-pure Kept z.0)
                            (start_kernel-Kept dev Kept kept kernel _ (value_or z.1 0))))))

same_done : {A : Type 0} (a b : A) (u v : World) → done a u ≡ done b v → (a ≡ b) × (u ≡ v)
same_done a b u v e = (ground arith, ground arith)

-- The launch of a kernel, whenever it returns, with or without an error: every call that the driver
-- has had in it went to the device of the queue's context, and the devices, kernels, memory objects,
-- contexts and queues are as they were.
pub launch-OnlyTo :
    (command_queue kernel dev : Ptr) (r : Status) (w v w' : World)
    → (cmdq_get_context command_queue >>= ctx_get_device) w ≡ done dev v
    → in_cl_enqueue_nd_range_kernel command_queue kernel w ≡ done r w'
    → OnlyTo dev w w'
unfolding in_cl_enqueue_nd_range_kernel
launch-OnlyTo command_queue kernel dev r w v w' found run =
    let (ctx, v1, e1, e2) =
      and_then-done (cmdq_get_context command_queue w) ctx_get_device dev v found in
    let (ctx', v1', f1, f2) = and_then-done (cmdq_get_context command_queue w) _ r w' run in
    let (same_ctx, same_v1) = same_done ctx ctx' v1 v1' (sym e1 ∙ f1) in
    let (dev', v2', g1, g2) = and_then-done (ctx_get_device ctx' v1') _ r w' f2 in
    let (same_dev, same_v2) =
      same_done dev dev' v v2' (sym e2 ∙ (λ i. ctx_get_device (same_ctx i) (same_v1 i)) ∙ g1) in
    let unchanged_w : w ≡ v1 = context-unchanged command_queue w ctx v1 e1 in
    let unchanged_v : v1 ≡ v = device-unchanged ctx v1 dev v e2 in
    let start : OnlyTo dev w v2' =
      subst (OnlyTo dev w) (unchanged_w ∙ unchanged_v ∙ same_v2)
        (([], refl, tt), refl, refl, refl, refl, refl) in
    after_device-OnlyTo dev w kernel v2' r w' start
      (subst (λ d. after_device kernel d v2' ≡ done r w') (sym same_dev) g2)
