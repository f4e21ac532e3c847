-- ===== src/Enqueue/Area.antt =====
-- Which addresses of the device `enqueue_arg` writes.
use baremetal_crt_host.Common.{
  ℕ, ◌+◌, ◌%◌, ◌<◌, ◌≤◌, ◌≡◌, ◌≢◌, refl, ap, ◌∙◌, Bool, true, false, some, ◌∷◌, Bytes, length, take,
  arith,
}
use baremetal_crt_host.Cl.{Status, icd_magic, u64_mod}
use baremetal_crt_host.Runtime.{
  Ptr, null, DevCall, DevOps, Device, KernArg, Mem, ProgramComm, World,
}
use baremetal_crt_host.Runtime.Monad.{done}
use baremetal_crt_host.Runtime.Memory.{peek}
use baremetal_crt_host.Handles.{dev_is_valid, mem_is_valid}
use baremetal_crt_host.Mem.{mem_can_read}
use baremetal_crt_host.Kernel.Api.{comm_arg_val, comm_arg_mem}
use baremetal_crt_host.Device.{HostBuf, fetch, lacks_op, call_driver, dev_write_mem}
use baremetal_crt_host.Enqueue.{
  arg_header, after_header, after_arg, exceeds_area, align_of, le_bytes, mem_payload,
  enqueue_payload, send_arg, enqueue_arg,
}

-- A live device whose driver can write.
abbrev pub CanWrite : World → Ptr → Device → DevOps → Type 0
CanWrite w dev d ops =
    (dev ≢ null)
    × (w.devices dev ≡ some d)
    × (d.magic ≡ icd_magic)
    × (d.ops ≡ some ops)
    × (ops.write_mem ≡ true)

abbrev pub after_call : World → DevCall → World
after_call w call = record w { calls = call ∷ w.calls }

-- The write of the header of an argument
abbrev pub header_call : (dev paddr argtype index size : ℕ) → DevCall
header_call dev paddr argtype index size =
    DevCall.write_mem dev paddr (arg_header argtype index size)

write_local :
    (dev paddr : ℕ) (bs : Bytes) (len : ℕ) (w : World) (d : Device) (ops : DevOps) (left : Bytes)
    → CanWrite w dev d ops
    → length (take len bs) ≡ len
    → 0 < len
    → w.driver (DevCall.write_mem dev paddr (take len bs) ∷ w.calls) ≡ (Status.success, left)
    → dev_write_mem dev paddr (HostBuf.local bs) len w
      ≡ done Status.success (after_call w (DevCall.write_mem dev paddr (take len bs)))
unfolding dev_write_mem dev_is_valid lacks_op fetch call_driver
write_local dev paddr bs len w d ops left can full some_bytes answer = ground arith

pub write_host :
    (dev paddr ptr len : ℕ) (bs : Bytes) (w : World) (d : Device) (ops : DevOps) (left : Bytes)
    → CanWrite w dev d ops
    → ptr ≢ null
    → 0 < len
    → peek w.memory ptr len ≡ some bs
    → w.driver (DevCall.write_mem dev paddr bs ∷ w.calls) ≡ (Status.success, left)
    → dev_write_mem dev paddr (HostBuf.at ptr) len w
      ≡ done Status.success (after_call w (DevCall.write_mem dev paddr bs))
unfolding dev_write_mem dev_is_valid lacks_op fetch call_driver
write_host dev paddr ptr len bs w d ops left can some_ptr some_bytes there answer = ground arith

take-header :
    (argtype index size : ℕ)
    → take 16 (arg_header argtype index size) ≡ arg_header argtype index size
unfolding le_bytes
take-header argtype index size = refl

length-header : (argtype index size : ℕ) → length (arg_header argtype index size) ≡ 16
unfolding le_bytes
length-header argtype index size = refl

header_written :
    (dev paddr argtype index size : ℕ) (w : World) (d : Device) (ops : DevOps) (left : Bytes)
    → CanWrite w dev d ops
    → w.driver (header_call dev paddr argtype index size ∷ w.calls) ≡ (Status.success, left)
    → dev_write_mem dev paddr (HostBuf.local (arg_header argtype index size)) 16 w
      ≡ done Status.success (after_call w (header_call dev paddr argtype index size))
header_written dev paddr argtype index size w d ops left can answer =
    let whole = take-header argtype index size in
    let bs = arg_header argtype index size in
    let answer1 = ap (λ a. w.driver (DevCall.write_mem dev paddr a ∷ w.calls)) whole ∙ answer in
    write_local dev paddr bs 16 w d ops left can
      (ap length whole ∙ length-header argtype index size) (omega arith) answer1
    ∙ ap (λ a. done Status.success (after_call w (DevCall.write_mem dev paddr a))) whole

-- `enqueue_arg` of a value of `size` mapped bytes, on a live device whose driver takes both
-- writes, where header and value end before the end of the area and no sum wraps: it returns
-- CL_SUCCESS after exactly two writes, the header at `paddr` and the bytes of the value sixteen
-- bytes further on, and the next address is the end of the value rounded up to a multiple of 8.
pub enqueue_arg-value :
    (dev : Ptr) (arg : KernArg) (comm : ProgramComm) (paddr : ℕ) (bs left left' : Bytes) (w : World)
    (d : Device) (ops : DevOps)
    → CanWrite w dev d ops
    → arg.argtype ≡ comm_arg_val
    → arg.val ≢ null
    → 0 < arg.size
    → peek w.memory arg.val arg.size ≡ some bs
    → paddr + 16 + arg.size < comm.addr + comm.size
    → comm.addr + comm.size < u64_mod
    → w.driver (header_call dev paddr comm_arg_val arg.index arg.size ∷ w.calls)
      ≡ (Status.success, left)
    → w.driver (
        DevCall.write_mem dev (paddr + 16) bs
        ∷ header_call dev paddr comm_arg_val arg.index arg.size
        ∷ w.calls)
      ≡ (Status.success, left')
    → enqueue_arg dev arg comm paddr w
      ≡ done
          (Status.success, align_of (paddr + 16 + arg.size) 8)
          (after_call
            (after_call w (header_call dev paddr comm_arg_val arg.index arg.size))
            (DevCall.write_mem dev (paddr + 16) bs))
unfolding enqueue_arg enqueue_payload send_arg
enqueue_arg-value dev arg comm paddr bs left left' w d ops can is_val there some_bytes mapped room
      no_wrap a1 a2 =
    let first = header_written dev paddr comm_arg_val arg.index arg.size w d ops left can a1 in
    let w1 = after_call w (header_call dev paddr comm_arg_val arg.index arg.size) in
    let second =
      write_host dev (paddr + 16) arg.val arg.size bs w1 d ops left' can there some_bytes mapped
        a2 in
    let at : after_header paddr ≡ paddr + 16 = omega arith in
    let fits : exceeds_area comm paddr arg.size ≡ false = ground arith in
    let end : (paddr + 16 + arg.size) % u64_mod ≡ paddr + 16 + arg.size = omega arith in
    rw (is_val, fits) (rw first (rw at (rw second rw end)))

live_payload :
    (can : Mem → Bool) (mem : Ptr) (w : World) (m : Mem)
    → mem ≢ null
    → w.mems mem ≡ some m
    → m.magic ≡ icd_magic
    → mem_payload can mem w
      ≡ done
          (Status.success, record { ptr = HostBuf.at m.ptr; size_buf = m.size; needed = can m })
          w
unfolding mem_payload mem_is_valid
live_payload can mem w m some_mem live magic = ground arith

-- `enqueue_arg` of a memory object that the kernel cannot read and whose size is so large that
-- the end of the argument wraps around 2^64, at least 32 bytes short of a whole turn: where the
-- wrapped end is in front of the end of the area, the test does not see it. On a
-- live device whose driver takes the header, the call returns CL_SUCCESS, and the address that it
-- gives for the next argument lies in front of this one.
pub enqueue_arg_wraps :
    (dev : Ptr) (arg : KernArg) (comm : ProgramComm) (paddr : ℕ) (left : Bytes) (w : World)
    (d : Device) (ops : DevOps) (m : Mem)
    → CanWrite w dev d ops
    → arg.argtype ≡ comm_arg_mem
    → arg.val ≢ null
    → w.mems arg.val ≡ some m
    → m.magic ≡ icd_magic
    → mem_can_read m ≡ false
    → paddr < u64_mod
    → m.size + 32 ≤ u64_mod
    → u64_mod ≤ paddr + 16 + m.size
    → paddr + 16 + m.size < comm.addr + comm.size + u64_mod
    → comm.addr + comm.size < u64_mod
    → w.driver (header_call dev paddr comm_arg_mem arg.index m.size ∷ w.calls)
      ≡ (Status.success, left)
    → (q : ℕ) × (enqueue_arg dev arg comm paddr w
        ≡ done
            (Status.success, q)
            (after_call w (header_call dev paddr comm_arg_mem arg.index m.size)))
      × (q < paddr)
unfolding enqueue_arg enqueue_payload send_arg
enqueue_arg_wraps dev arg comm paddr left w d ops m can is_mem some_mem live magic unread lt le
      wraps room no_wrap answer =
    let first = header_written dev paddr comm_arg_mem arg.index m.size w d ops left can answer in
    let fits : exceeds_area comm paddr m.size ≡ false = ground arith in
    let payload = live_payload mem_can_read arg.val w m some_mem live magic in
    (
      after_arg paddr m.size,
      rw is_mem (rw payload (rw (unread, fits) (rw first refl))),
      ground arith,
    )
