-- ===== src/Enqueue/Passes.antt =====
-- The two passes over the arguments of a kernel, before and after it runs.
use baremetal_crt_host.Common.{
  ℕ, zero, suc, ◌+◌, ◌≡◌, ap, ◌∙◌, sym, Bool, inl, inr, Option, some, Option-cases, Bytes, arith,
}
use baremetal_crt_host.Cl.{Status, is_success}
use baremetal_crt_host.Runtime.{Ptr, DevOps, DevCall, Kernel, KernArg, Mem, ProgramComm, World}
use baremetal_crt_host.Runtime.Monad.{done, M, pure, or_goto, or_leave, test◌then◌else◌, ◌>>=◌}
use baremetal_crt_host.Runtime.Preserve.{
  Preserves, and_then-done, Preserves-pure, Preserves->>=, Preserves-test,
}
use baremetal_crt_host.Handles.{mem_is_valid, dev_is_valid, kern_is_valid}
use baremetal_crt_host.Mem.{mem_can_read, mem_can_write}
use baremetal_crt_host.Kernel.{zero_arg, kern_get_arg}
use baremetal_crt_host.Kernel.Api.{value_or}
use baremetal_crt_host.Device.{
  HostBuf, fetch, store, call_driver, lacks_op, dev_read_mem, dev_write_mem,
}
use baremetal_crt_host.Enqueue.{
  Payload, arg_header, sizeof_arg_header, exceeds_area, after_header, after_arg, mem_payload,
  enqueue_payload, dequeue_payload, send_arg, receive_arg, enqueue_arg, dequeue_arg,
}
use baremetal_crt_host.Enqueue.Launch.{transfer_args}
use baremetal_crt_host.Enqueue.Layout.{or_leave-success, dequeue_arg-enqueue_arg}

-- The memory objects and the kernels are these.
abbrev pub HasObjects : (Ptr → Option Mem) → (Ptr → Option Kernel) → World → Type 0
HasObjects mems kernels w = (w.mems ≡ mems) × (w.kernels ≡ kernels)

module _ (mems : Ptr → Option Mem) (kernels : Ptr → Option Kernel) where
  abbrev Objects : World → Type 0
  Objects = HasObjects mems kernels

  check-keeps : (dev : Ptr) → Preserves Objects (dev_is_valid dev)
  unfolding dev_is_valid
  check-keeps dev w r w' p e = ground arith

  mem_check-keeps : (mem : Ptr) → Preserves Objects (mem_is_valid mem)
  unfolding mem_is_valid
  mem_check-keeps mem w r w' p e = ground arith

  lacks_op-keeps : (op : DevOps → Bool) (dev : Ptr) → Preserves Objects (lacks_op op dev)
  unfolding lacks_op
  lacks_op-keeps op dev w r w' p e = ground arith

  call-keeps : (call : DevCall) → Preserves Objects (call_driver call)
  unfolding call_driver
  call-keeps call w r w' p e = ground arith

  fetch-keeps : (buf : HostBuf) (len : ℕ) → Preserves Objects (fetch buf len)
  unfolding fetch
  fetch-keeps (HostBuf.local bs) len w r w' p e = ground arith
  fetch-keeps (HostBuf.at q) len w r w' p e = ground arith

  store-keeps : (buf : HostBuf) (bs : Bytes) → Preserves Objects (store buf bs)
  unfolding store
  store-keeps (HostBuf.local _) bs w r w' p e = ground arith
  store-keeps (HostBuf.at q) bs w r w' p e = ground arith

  read-keeps :
      (dev paddr : ℕ) (buf : HostBuf) (len : ℕ) → Preserves Objects (dev_read_mem dev paddr buf len)
  unfolding dev_read_mem dev_is_valid lacks_op call_driver
  read-keeps dev paddr buf len w r w' p e = elim (Option-cases (w.devices dev)) [
    | inl gone ↦ ground arith
    | inr (d, there) ↦ ground (arith, store-keeps buf)
  ]

  write-keeps :
      (dev paddr : ℕ) (buf : HostBuf) (len : ℕ)
      → Preserves Objects (dev_write_mem dev paddr buf len)
  unfolding dev_write_mem dev_is_valid lacks_op call_driver
  write-keeps dev paddr buf len w r w' p e = elim (Option-cases (w.devices dev)) [
    | inl gone ↦ ground arith
    | inr (d, there) ↦ ground (arith, fetch-keeps buf len)
  ]

  leave-keeps :
      {A : Type 0} (m : M Status) (a : A) (k : M (Status × A))
      → Preserves Objects m
      → Preserves Objects k
      → Preserves Objects (or_leave m a k)
  leave-keeps m a k keep_m keep_k =
      Preserves->>= Objects keep_m
        λ r. Preserves-test Objects (is_success r) keep_k (Preserves-pure Objects (r, a))

  mem_payload-keeps : (can : Mem → Bool) (q : Ptr) → Preserves Objects (mem_payload can q)
  unfolding mem_payload mem_is_valid
  mem_payload-keeps can q w r w' p e = ground arith

  enqueue_payload-keeps : (arg : KernArg) → Preserves Objects (enqueue_payload arg)
  unfolding enqueue_payload
  enqueue_payload-keeps arg w r w' p e = ground (arith, mem_payload-keeps mem_can_read arg.val)

  dequeue_payload-keeps : (arg : KernArg) → Preserves Objects (dequeue_payload arg)
  unfolding dequeue_payload
  dequeue_payload-keeps arg w r w' p e = ground (arith, mem_payload-keeps mem_can_write arg.val)

  send_arg-keeps :
      (dev : Ptr) (argtype index : ℕ) (payload : Payload) (comm : ProgramComm) (paddr : ℕ)
      → Preserves Objects (send_arg dev argtype index payload comm paddr)
  unfolding send_arg
  send_arg-keeps dev argtype index payload comm paddr =
      let buf = HostBuf.local (arg_header argtype index payload.size_buf) in
      let head = dev_write_mem dev paddr buf sizeof_arg_header in
      let copy = dev_write_mem dev (after_header paddr) payload.ptr payload.size_buf in
      let write = (test payload.needed then copy else pure Status.success) in
      let last = pure (Status.success, after_arg paddr payload.size_buf) in
      Preserves-test Objects (exceeds_area comm paddr payload.size_buf)
        (Preserves-pure Objects (Status.out_of_resources, paddr))
        (leave-keeps head paddr (or_leave write (after_header paddr) last)
          (write-keeps dev paddr buf sizeof_arg_header)
          (leave-keeps write (after_header paddr) last
            (Preserves-test Objects payload.needed
              (write-keeps dev (after_header paddr) payload.ptr payload.size_buf)
              (Preserves-pure Objects Status.success))
            (Preserves-pure Objects (Status.success, after_arg paddr payload.size_buf))))

  receive_arg-keeps :
      (dev : Ptr) (payload : Payload) (comm : ProgramComm) (paddr : ℕ)
      → Preserves Objects (receive_arg dev payload comm paddr)
  unfolding receive_arg
  receive_arg-keeps dev payload comm paddr =
      let copy = dev_read_mem dev (after_header paddr) payload.ptr payload.size_buf in
      let read = (test payload.needed then (copy >>= λ x. pure x.0) else pure Status.success) in
      let last = pure (Status.success, after_arg paddr payload.size_buf) in
      Preserves-test Objects (exceeds_area comm paddr payload.size_buf)
        (Preserves-pure Objects (Status.out_of_resources, paddr))
        (leave-keeps read (after_header paddr) last
          (Preserves-test Objects payload.needed
            (Preserves->>= Objects
              (read-keeps dev (after_header paddr) payload.ptr payload.size_buf)
              λ x. Preserves-pure Objects x.0)
            (Preserves-pure Objects Status.success))
          (Preserves-pure Objects (Status.success, after_arg paddr payload.size_buf)))

  enqueue_arg-keeps :
      (dev : Ptr) (arg : KernArg) (comm : ProgramComm) (paddr : ℕ)
      → Preserves Objects (enqueue_arg dev arg comm paddr)
  unfolding enqueue_arg
  enqueue_arg-keeps dev arg comm paddr = Preserves->>= Objects (enqueue_payload-keeps arg) λ x.
      leave-keeps (pure x.0) paddr (send_arg dev arg.argtype arg.index x.1 comm paddr)
        (Preserves-pure Objects x.0) (send_arg-keeps dev arg.argtype arg.index x.1 comm paddr)

  dequeue_arg-keeps :
      (dev : Ptr) (arg : KernArg) (comm : ProgramComm) (paddr : ℕ)
      → Preserves Objects (dequeue_arg dev arg comm paddr)
  unfolding dequeue_arg
  dequeue_arg-keeps dev arg comm paddr = Preserves->>= Objects (dequeue_payload-keeps arg) λ x.
      leave-keeps (pure x.0) paddr (receive_arg dev x.1 comm paddr) (Preserves-pure Objects x.0)
        (receive_arg-keeps dev x.1 comm paddr)

-- The argument that the loop reads depends on the kernels.
get_arg-agree :
    (kernel i : ℕ) (w v w' v' : World) (r r' : Status × Option KernArg)
    → v.kernels ≡ w.kernels
    → kern_get_arg kernel i (some zero_arg) w ≡ done r w'
    → kern_get_arg kernel i (some zero_arg) v ≡ done r' v'
    → (r ≡ r') × (w' ≡ w) × (v' ≡ v)
unfolding kern_get_arg kern_is_valid
get_arg-agree kernel i w v w' v' r r' same e d = elim (Option-cases (w.kernels kernel)) [
  | inl gone ↦ ground arith
  | inr (k, there) ↦ ground arith
]

-- A round of the loop that does not leave it.
round-success :
    (transfer : KernArg → ℕ → M (Status × ℕ)) (kernel left i paddr q : ℕ) (w w' : World)
    → transfer_args transfer kernel (suc left) i paddr w ≡ done (Status.success, q) w'
    → (var : Option KernArg) × (next : ℕ) × (u u' : World) × (kern_get_arg kernel i
          (some zero_arg)
          w
        ≡ done (Status.success, var) u)
      × (transfer (value_or var zero_arg) paddr u ≡ done (Status.success, next) u')
      × (transfer_args transfer kernel left (i + 1) next u' ≡ done (Status.success, q) w')
unfolding transfer_args
round-success transfer kernel left i paddr q w w' e =
    let k : Status × Option KernArg → M (Status × ℕ) =
      λ x. or_goto (pure x.0) (λ s. pure (s, paddr)) (rest (value_or x.1 zero_arg)) in
    let ((r, var), u, got, next) =
      and_then-done (kern_get_arg kernel i (some zero_arg) w) k (Status.success, q) w' e in
    let (u1, fine, go_on) =
      or_leave-success (pure r) paddr q (rest (value_or var zero_arg)) u w' next in
    let k1 : Status × ℕ → M (Status × ℕ) = λ x.
      or_goto (pure x.0) (λ s. pure (s, x.1)) (transfer_args transfer kernel left (i + 1) x.1) in
    let ((s, to), u2, moved, next1) =
      and_then-done (transfer (value_or var zero_arg) paddr u1) k1 (Status.success, q) w' go_on in
    let (u3, fine1, go_on1) =
      or_leave-success (pure s) to q (transfer_args transfer kernel left (i + 1) to) u2 w' next1 in
    (var, to, u, u2, cc, cc, cc)
  where
    rest : KernArg → M (Status × ℕ)
    rest arg = transfer arg paddr >>= λ x.
        or_goto (pure x.0) (λ s. pure (s, x.1)) (transfer_args transfer kernel left (i + 1) x.1)

-- The loop over the arguments before the run of the kernel and the one after it, from the same
-- address and in states with the same memory objects and kernels: where both end in CL_SUCCESS,
-- they end at the same address.
pub transfer_args-agree :
    (dev kernel : Ptr) (comm : ProgramComm) (left i paddr q q' : ℕ) (w v w' v' : World)
    → v.mems ≡ w.mems
    → v.kernels ≡ w.kernels
    → transfer_args (λ arg. enqueue_arg dev arg comm) kernel left i paddr w
      ≡ done (Status.success, q) w'
    → transfer_args (λ arg. dequeue_arg dev arg comm) kernel left i paddr v
      ≡ done (Status.success, q') v'
    → q' ≡ q
unfolding transfer_args
transfer_args-agree dev kernel comm zero i paddr q q' w v w' v' same_m same_k e d = cc
transfer_args-agree dev kernel comm (suc left) i paddr q q' w v w' v' same_m same_k e d =
    let (var, next, u, u1, got, sent, more) =
      round-success (λ arg. enqueue_arg dev arg comm) kernel left i paddr q w w' e in
    let (var', next', x, x1, got', read, more') =
      round-success (λ arg. dequeue_arg dev arg comm) kernel left i paddr q' v v' d in
    let (args, u_is_w, x_is_v) =
      get_arg-agree kernel i w v u x (Status.success, var) (Status.success, var') same_k got got' in
    let arg = value_or var zero_arg in
    let keep =
      enqueue_arg-keeps w.mems w.kernels dev arg comm paddr u (Status.success, next) u1 (cc, cc)
        sent in
    let keep' =
      dequeue_arg-keeps w.mems w.kernels dev (value_or var' zero_arg) comm paddr x
        (Status.success, next') x1 (cc, cc) read in
    let read_same : dequeue_arg dev arg comm paddr x ≡ done (Status.success, next') x1 = cc in
    let step : next' ≡ next =
      dequeue_arg-enqueue_arg dev arg comm paddr next next' u x u1 x1 (cc) sent read_same in
    let on : transfer_args (λ a. dequeue_arg dev a comm) kernel left (i + 1) next x1
        ≡ done (Status.success, q') v' =
      sym (ap (λ n. transfer_args (λ a. dequeue_arg dev a comm) kernel left (i + 1) n x1) step)
      ∙ more' in
    transfer_args-agree dev kernel comm left (i + 1) next q q' u1 x1 w' v' (keep'.0 ∙ sym keep.0)
      (keep'.1 ∙ sym keep.1) more on
