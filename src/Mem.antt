-- ===== src/Mem.antt =====
-- Memory objects and their buffers: drivers/mem.c. The children hold src/cl_mem.c, the buffer
-- commands of src/cl_enqueue.c and the proofs.
pub mod Api
pub mod Buffer
pub mod Life
use baremetal_crt_host.Common.{
  ℕ, ◌+◌, ◌/◌, ◌%◌, ◌^◌, Bool, ◌||◌, Option, none, some, ◌==◌, ltb, is_none,
}
use baremetal_crt_host.Cl.{Status, icd_magic, u64_mod}
use baremetal_crt_host.Runtime.{Ptr, null, Mem}
use baremetal_crt_host.Runtime.Monad.{
  M, pure, test◌then◌else◌, ◌>>=◌, ◌>>◌, ◌⨟◌, or_leave, calloc_struct,
}
use baremetal_crt_host.Runtime.Memory.{memcpy, calloc_block, free_block}
use baremetal_crt_host.Handles.{
  ctx_is_valid, mem_is_valid, load_context, load_mem, put_mem, plat_get_uniq_id,
}

unfoldable pub mem_alloc : Ptr → Option Ptr → M (Status × Option Ptr)
unfolding ctx_is_valid plat_get_uniq_id calloc_struct
mem_alloc ctx mem = or_leave (ctx_is_valid ctx) mem do
  test is_none mem then pure (Status.invalid_value, mem) else do
    t ← calloc_struct
    test t == null then pure (Status.out_of_host_memory, mem) else do
      c ← load_context ctx
      id ← plat_get_uniq_id
      put_mem t (
          some (record {
            dispatch = c.dispatch;
            magic = icd_magic;
            id = id;
            ctx = ctx;
            flags = 0;
            size = 0;
            ptr = null;
          }))
      pure (Status.success, some t)

unfoldable pub mem_free : Ptr → M Status
unfolding mem_is_valid
mem_free mem = mem_is_valid mem ⨟ do put_mem mem none; pure Status.success

unfoldable pub mem_get_attr : Ptr → Option ℕ → M (Status × Option ℕ)
unfolding mem_is_valid
mem_get_attr mem flags = or_leave (mem_is_valid mem) flags do
  m ← load_mem mem
  test is_none flags then pure (Status.success, flags) else pure (Status.success, some m.flags)

-- `flags` is a `cl_int`: the pattern of 32 bits.
unfoldable pub mem_set_attr : Ptr → ℕ → M Status
unfolding mem_is_valid
mem_set_attr mem flags =
    mem_is_valid mem
    ⨟ do m ← load_mem mem; put_mem mem (some (record m { flags = flags })); pure Status.success

-- `!!(flags & (1 << k))`
abbrev pub has_bit : ℕ → ℕ → Bool
has_bit flags k = flags / 2 ^ k % 2 == 1

-- The bits of include/CL/cl.h: CL_MEM_READ_WRITE 0, CL_MEM_WRITE_ONLY 1, CL_MEM_READ_ONLY 2,
-- CL_MEM_USE_HOST_PTR 3, CL_MEM_ALLOC_HOST_PTR 4, CL_MEM_COPY_HOST_PTR 5.
unfoldable pub mem_can_read : Mem → Bool
mem_can_read m = has_bit m.flags 0 || has_bit m.flags 2

unfoldable pub mem_can_write : Mem → Bool
mem_can_write m = has_bit m.flags 0 || has_bit m.flags 1

unfoldable pub mem_need_use_host : Mem → Bool
mem_need_use_host m = has_bit m.flags 3

unfoldable pub mem_need_alloc_host : Mem → Bool
mem_need_alloc_host m = has_bit m.flags 4

unfoldable pub mem_need_copy_host : Mem → Bool
mem_need_copy_host m = has_bit m.flags 5

unfoldable pub mem_alloc_buffer : Ptr → ℕ → Ptr → M Status
unfolding mem_is_valid mem_need_alloc_host mem_need_use_host mem_need_copy_host
mem_alloc_buffer mem size ptr = mem_is_valid mem ⨟ do
  m ← load_mem mem
  test mem_need_alloc_host m
      then pure Status.out_of_resources
      else test mem_need_use_host m
      then (do put_mem mem (some (record m { ptr = ptr; size = size })); pure Status.success)
      else do
        block ← calloc_block size
        put_mem mem (some (record m { ptr = block }))
        test block == null then pure Status.out_of_host_memory else do
          (test mem_need_copy_host m then memcpy block ptr size else pure tt)
          put_mem mem (some (record m { ptr = block; size = size }))
          pure Status.success

-- `free(mem->ptr)` also where the buffer belongs to the host.
unfoldable pub mem_free_buffer : Ptr → M Status
unfolding mem_is_valid
mem_free_buffer mem = mem_is_valid mem ⨟ do
  m ← load_mem mem
  test m.ptr == null then pure Status.success else do
    free_block m.ptr
    put_mem mem (some (record m { ptr = null; size = 0 }))
    pure Status.success

-- `offset + size > mem->size`, in `size_t`
abbrev pub exceeds : ℕ → ℕ → Mem → Bool
exceeds offset size m = ltb m.size ((offset + size) % u64_mod)

-- `&mem->ptr[offset]`
abbrev pub buffer_at : Mem → ℕ → Ptr
buffer_at m offset = (m.ptr + offset) % u64_mod

unfoldable pub mem_read_buffer : Ptr → (offset size : ℕ) → Ptr → M Status
unfolding mem_is_valid
mem_read_buffer mem offset size ptr = mem_is_valid mem ⨟ do
  m ← load_mem mem
  test ptr == null || exceeds offset size m
      then pure Status.invalid_value
      else do memcpy ptr (buffer_at m offset) size; pure Status.success

unfoldable pub mem_write_buffer : Ptr → (offset size : ℕ) → Ptr → M Status
unfolding mem_is_valid
mem_write_buffer mem offset size ptr = mem_is_valid mem ⨟ do
  m ← load_mem mem
  test ptr == null || exceeds offset size m
      then pure Status.invalid_value
      else do memcpy (buffer_at m offset) ptr size; pure Status.success
