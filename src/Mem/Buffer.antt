-- ===== src/Mem/Buffer.antt =====
-- What the buffers hold: writes are read back, and accesses out of range are refused, but for
-- those whose end wraps around.
use baremetal_crt_host.Common.{
  ℕ, ◌+◌, ◌-◌, ◌<◌, ◌≤◌, ◌≡◌, ◌≢◌, ◌⊎◌, false, some, Bytes, arith, length, ◌∙◌, ◌%◌,
}
use baremetal_crt_host.Cl.{Status, icd_magic, u64_mod}
use baremetal_crt_host.Runtime.{Ptr, null, Mem, CommandQueue, World}
use baremetal_crt_host.Runtime.Monad.{done, ◌>>=◌}
use baremetal_crt_host.Runtime.Memory.{
  overlap, peek, poke, memcpy, peek-length, peek-poke, peek-poke_apart,
}
use baremetal_crt_host.Handles.{cmdq_is_valid, mem_is_valid}
use baremetal_crt_host.Mem.Api.{in_cl_enqueue_read_buffer, in_cl_enqueue_write_buffer}

-- A handle of a live object that passes its check.
abbrev pub LiveMem : World → Ptr → Mem → Type 0
LiveMem w p m = (p ≢ null) × (w.mems p ≡ some m) × (m.magic ≡ icd_magic)

abbrev pub LiveQueue : World → Ptr → CommandQueue → Type 0
LiveQueue w p q = (p ≢ null) × (w.queues p ≡ some q) × (q.magic ≡ icd_magic)

pub memcpy-done :
    (w : World) (dst src n : ℕ) (bs old : Bytes)
    → overlap dst src n ≡ false
    → peek w.memory src n ≡ some bs
    → peek w.memory dst n ≡ some old
    → memcpy dst src n w ≡ done tt (record w { memory = poke w.memory dst bs })
unfolding memcpy
memcpy-done w dst src n bs old apart from to = ground arith

module _ (w : World) (queue : Ptr) (q : CommandQueue) (is_queue : LiveQueue w queue q)
    (buffer : Ptr) (m : Mem) (is_mem : LiveMem w buffer m) where
  -- A write in range copies the host's bytes into the buffer.
  pub write_buffer-done :
      (offset size src : ℕ) (bs old : Bytes)
      → src ≢ null
      → offset + size ≤ m.size
      → m.ptr + m.size < u64_mod
      → overlap (m.ptr + offset) src size ≡ false
      → peek w.memory src size ≡ some bs
      → peek w.memory (m.ptr + offset) size ≡ some old
      → in_cl_enqueue_write_buffer queue buffer offset size src w
        ≡ done Status.success (record w { memory = poke w.memory (m.ptr + offset) bs })
  unfolding in_cl_enqueue_write_buffer cmdq_is_valid mem_is_valid
  write_buffer-done offset size src bs old ne range fits apart from to =
      ground (arith, memcpy-done w (m.ptr + offset) src size bs old apart from to)

  -- A read in range copies the buffer's bytes to the host.
  read_buffer-done :
      (offset size dst : ℕ) (bs old : Bytes)
      → dst ≢ null
      → offset + size ≤ m.size
      → m.ptr + m.size < u64_mod
      → overlap dst (m.ptr + offset) size ≡ false
      → peek w.memory (m.ptr + offset) size ≡ some bs
      → peek w.memory dst size ≡ some old
      → in_cl_enqueue_read_buffer queue buffer offset size dst w
        ≡ done Status.success (record w { memory = poke w.memory dst bs })
  unfolding in_cl_enqueue_read_buffer cmdq_is_valid mem_is_valid
  read_buffer-done offset size dst bs old ne range fits apart from to =
      ground (arith, memcpy-done w dst (m.ptr + offset) size bs old apart from to)

  -- On live handles, with a range that does not wrap around 2^64, and either no host pointer or a
  -- range that ends behind the buffer, both commands answer CL_INVALID_VALUE and change nothing.
  pub out_of_range :
      (offset size host : ℕ)
      → offset + size < u64_mod
      → (host ≡ null) ⊎ (m.size < offset + size)
      → (in_cl_enqueue_read_buffer queue buffer offset size host w ≡ done Status.invalid_value w)
        × (in_cl_enqueue_write_buffer queue buffer offset size host w ≡ done Status.invalid_value w)
  unfolding in_cl_enqueue_read_buffer in_cl_enqueue_write_buffer cmdq_is_valid mem_is_valid
  out_of_range offset size host fits bad = (ground arith, ground arith)

  -- The sum `offset + size` wraps around 2^64, so that `d` bytes at the offset `2^64 - d` pass
  -- the range check: on live handles, where the `d` bytes in front of the buffer are mapped and the
  -- host's bytes are mapped and lie apart from them, the command overwrites them and succeeds.
  pub write_before_buffer :
      (d src : ℕ) (bs old : Bytes)
      → 0 < d
      → d ≤ m.ptr
      → m.ptr < u64_mod
      → src ≢ null
      → overlap (m.ptr - d) src d ≡ false
      → peek w.memory src d ≡ some bs
      → peek w.memory (m.ptr - d) d ≡ some old
      → in_cl_enqueue_write_buffer queue buffer (u64_mod - d) d src w
        ≡ done Status.success (record w { memory = poke w.memory (m.ptr - d) bs })
  unfolding in_cl_enqueue_write_buffer cmdq_is_valid mem_is_valid
  write_before_buffer d src bs old pos le fits ne apart from to =
      let at : (m.ptr + (u64_mod - d)) % u64_mod ≡ m.ptr - d = omega arith in
      ground (arith, memcpy-done w (m.ptr - d) src d bs old apart from to)

module _ (w : World) (queue : Ptr) (q : CommandQueue) (is_queue : LiveQueue w queue q)
    (buffer : Ptr) (m : Mem) (is_mem : LiveMem w buffer m) where
  -- On live handles and a mapped buffer: after `size` bytes from `src` were written at an offset
  -- in range, reading the same range into `dst` succeeds, and `dst` and the range of the buffer
  -- hold the bytes that `src` held. The host's ranges are mapped and lie apart from the buffer's.
  pub read-write_buffer :
      (offset size src dst : ℕ) (bs old dst_old : Bytes)
      → src ≢ null
      → dst ≢ null
      → offset + size ≤ m.size
      → m.ptr + m.size < u64_mod
      → overlap (m.ptr + offset) src size ≡ false
      → (m.ptr + offset + size ≤ dst) ⊎ (dst + size ≤ m.ptr + offset)
      → peek w.memory src size ≡ some bs
      → peek w.memory (m.ptr + offset) size ≡ some old
      → peek w.memory dst size ≡ some dst_old
      → (w' : World) × ((in_cl_enqueue_write_buffer queue buffer offset size src >>= λ _.
              in_cl_enqueue_read_buffer queue buffer offset size dst)
            w
          ≡ done Status.success w')
        × (peek w'.memory dst size ≡ some bs)
        × (peek w'.memory (m.ptr + offset) size ≡ some bs)
  read-write_buffer offset size src dst bs old dst_old ne_src ne_dst range fits apart apart' from to
        to' =
      let len : length bs ≡ size = peek-length w.memory src size bs from in
      let at = m.ptr + offset in
      let mem1 = poke w.memory at bs in
      let w1 = record w { memory = mem1 } in
      let stored : peek mem1 at size ≡ some bs = rw (← len) (peek-poke w.memory at bs) in
      let still : peek mem1 dst size ≡ some dst_old =
        peek-poke_apart w.memory at bs dst size (omega arith) ∙ to' in
      let got : peek (poke mem1 dst bs) dst size ≡ some bs = rw (← len) (peek-poke mem1 dst bs) in
      let kept : peek (poke mem1 dst bs) at size ≡ some bs =
        peek-poke_apart mem1 dst bs at size (omega arith) ∙ stored in
      (
        record w1 { memory = poke mem1 dst bs },
        rw
            (write_buffer-done w queue q is_queue buffer m is_mem offset size src bs old ne_src
              range fits apart from to)
            (read_buffer-done w1 queue q is_queue buffer m is_mem offset size dst bs dst_old ne_dst
              range fits (ground arith) stored still),
        got,
        kept,
      )
