-- ===== src/Enqueue/Layout.antt =====
-- Where the arguments of a kernel lie in the communication area.
use baremetal_crt_host.Common.{
  ℕ, ◌≡◌, ◌≢◌, Bool, Bool-cases, inl, inr, true, false, Option-cases, arith,
}
use baremetal_crt_host.Cl.{Status, is_success}
use baremetal_crt_host.Runtime.{Ptr, KernArg, ProgramComm, World}
use baremetal_crt_host.Runtime.Monad.{done, M, pure, test◌then◌else◌, or_leave, ◌>>=◌}
use baremetal_crt_host.Runtime.Preserve.{and_then-done}
use baremetal_crt_host.Handles.{mem_is_valid}
use baremetal_crt_host.Enqueue.{
  Payload, exceeds_area, after_arg, mem_payload, enqueue_payload, dequeue_payload, send_arg,
  receive_arg, enqueue_arg, dequeue_arg, arg_header, sizeof_arg_header, after_header,
}
use baremetal_crt_host.Device.{HostBuf, dev_read_mem, dev_write_mem}

pub is_success-eq : (r : Status) → is_success r ≡ true → r ≡ Status.success
is_success-eq r h = ground arith

-- An early return of an error is no success.
pub or_leave-success :
    {A : Type 0} (m : M Status) (a b : A) (k : M (Status × A)) (w w' : World)
    → or_leave m a k w ≡ done (Status.success, b) w'
    → (v : World) × (m w ≡ done Status.success v) × (k v ≡ done (Status.success, b) w')
or_leave-success m a b k w w' e =
    let (r, v, ran, next) = and_then-done (m w) _ (Status.success, b) w' e in
    let same = is_success-eq r in
    elim (Bool-cases (is_success r)) [ inl good ↦ ground arith | inr bad ↦ ground arith ]

-- So is the early return of the test in front.
test-success :
    (b : Bool) (r : Status) (a q : ℕ) (k : M (Status × ℕ)) (w w' : World)
    → r ≢ Status.success
    → (test b then pure (r, a) else k) w ≡ done (Status.success, q) w'
    → k w ≡ done (Status.success, q) w'
test-success true r a q k w w' bad e = absurd (bad cc)
test-success false r a q k w w' bad e = e

result_eq :
    (p q : ℕ) (u w' : World)
    → pure {A = Status × ℕ} (Status.success, p) u ≡ done (Status.success, q) w'
    → q ≡ p
result_eq p q u w' e = cc

send_arg-paddr :
    (dev : Ptr) (argtype index : ℕ) (payload : Payload) (comm : ProgramComm) (paddr q : ℕ)
    (w w' : World)
    → send_arg dev argtype index payload comm paddr w ≡ done (Status.success, q) w'
    → q ≡ after_arg paddr payload.size_buf
unfolding send_arg
send_arg-paddr dev argtype index payload comm paddr q w w' e =
    let head = arg_header argtype index payload.size_buf in
    let write =
      (test payload.needed
        then dev_write_mem dev (after_header paddr) payload.ptr payload.size_buf
        else pure Status.success) in
    let end = after_arg paddr payload.size_buf in
    let last = or_leave write (after_header paddr) (pure (Status.success, end)) in
    let first =
      or_leave (dev_write_mem dev paddr (HostBuf.local head) sizeof_arg_header) paddr last in
    let fits =
      test-success (exceeds_area comm paddr payload.size_buf) Status.out_of_resources paddr q first
        w w' (λ p. ground arith) e in
    let (v, _, sent) =
      or_leave-success (dev_write_mem dev paddr (HostBuf.local head) sizeof_arg_header) paddr q last
        w w' fits in
    let (u, _, left) =
      or_leave-success write (after_header paddr) q (pure (Status.success, end)) v w' sent in
    result_eq end q u w' left

receive_arg-paddr :
    (dev : Ptr) (payload : Payload) (comm : ProgramComm) (paddr q : ℕ) (w w' : World)
    → receive_arg dev payload comm paddr w ≡ done (Status.success, q) w'
    → q ≡ after_arg paddr payload.size_buf
unfolding receive_arg
receive_arg-paddr dev payload comm paddr q w w' e =
    let read =
      (test payload.needed
        then (dev_read_mem dev (after_header paddr) payload.ptr payload.size_buf >>= λ x. pure x.0)
        else pure Status.success) in
    let end = after_arg paddr payload.size_buf in
    let last = or_leave read (after_header paddr) (pure (Status.success, end)) in
    let fits =
      test-success (exceeds_area comm paddr payload.size_buf) Status.out_of_resources paddr q last w
        w' (λ p. ground arith) e in
    let (u, _, left) =
      or_leave-success read (after_header paddr) q (pure (Status.success, end)) w w' fits in
    result_eq end q u w' left

payloads-agree :
    (arg : KernArg) (w v w' v' : World) (p p' : Payload)
    → v.mems ≡ w.mems
    → enqueue_payload arg w ≡ done (Status.success, p) w'
    → dequeue_payload arg v ≡ done (Status.success, p') v'
    → p.size_buf ≡ p'.size_buf
unfolding enqueue_payload dequeue_payload mem_payload mem_is_valid
payloads-agree arg w v w' v' p p' same e d = elim (Option-cases (w.mems arg.val)) [
  | inl none_there ↦ ground arith
  | inr (m, there) ↦ ground arith
]

enqueue_arg-paddr :
    (dev : Ptr) (arg : KernArg) (comm : ProgramComm) (paddr q : ℕ) (w w' : World)
    → enqueue_arg dev arg comm paddr w ≡ done (Status.success, q) w'
    → (p : Payload) × (v : World) × (enqueue_payload arg w ≡ done (Status.success, p) v)
      × (q ≡ after_arg paddr p.size_buf)
unfolding enqueue_arg
enqueue_arg-paddr dev arg comm paddr q w w' e =
    let k : Status × Payload → M (Status × ℕ) =
      λ x. or_leave (pure x.0) paddr (send_arg dev arg.argtype arg.index x.1 comm paddr) in
    let ((r, p), v, ran, next) = and_then-done (enqueue_payload arg w) k (Status.success, q) w' e in
    let (u, fine, sent) =
      or_leave-success (pure r) paddr q (send_arg dev arg.argtype arg.index p comm paddr) v w'
        next in
    (p, v, cc, send_arg-paddr dev arg.argtype arg.index p comm paddr q u w' sent)

dequeue_arg-paddr :
    (dev : Ptr) (arg : KernArg) (comm : ProgramComm) (paddr q : ℕ) (w w' : World)
    → dequeue_arg dev arg comm paddr w ≡ done (Status.success, q) w'
    → (p : Payload) × (v : World) × (dequeue_payload arg w ≡ done (Status.success, p) v)
      × (q ≡ after_arg paddr p.size_buf)
unfolding dequeue_arg
dequeue_arg-paddr dev arg comm paddr q w w' e =
    let k : Status × Payload → M (Status × ℕ) =
      λ x. or_leave (pure x.0) paddr (receive_arg dev x.1 comm paddr) in
    let ((r, p), v, ran, next) = and_then-done (dequeue_payload arg w) k (Status.success, q) w' e in
    let (u, fine, got) =
      or_leave-success (pure r) paddr q (receive_arg dev p comm paddr) v w' next in
    (p, v, cc, receive_arg-paddr dev p comm paddr q u w' got)

-- Where `enqueue_arg` and `dequeue_arg` both succeed on the same argument from the same address,
-- in states with the same memory objects, they leave the same address for the next argument.
pub dequeue_arg-enqueue_arg :
    (dev : Ptr) (arg : KernArg) (comm : ProgramComm) (paddr q q' : ℕ) (w v w' v' : World)
    → v.mems ≡ w.mems
    → enqueue_arg dev arg comm paddr w ≡ done (Status.success, q) w'
    → dequeue_arg dev arg comm paddr v ≡ done (Status.success, q') v'
    → q' ≡ q
dequeue_arg-enqueue_arg dev arg comm paddr q q' w v w' v' same e d =
    let (p, w1, sent, at_q) = enqueue_arg-paddr dev arg comm paddr q w w' e in
    let (p', v1, got, at_q') = dequeue_arg-paddr dev arg comm paddr q' v v' d in
    let sizes = payloads-agree arg w v w1 v1 p p' same sent got in cc
