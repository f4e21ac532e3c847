-- ===== src/Mem/Api.antt =====
-- The functions on memory objects of the OpenCL interface: src/cl_mem.c, and the two commands of
-- src/cl_enqueue.c that move bytes between a buffer and the host.
use baremetal_crt_host.Common.{
  ℕ, ◌*◌, ◌/◌, ◌%◌, ◌^◌, Bool, ◌&&◌, ◌||◌, not, Option, some, ◌==◌, if◌then◌else◌,
}
use baremetal_crt_host.Cl.{Status}
use baremetal_crt_host.Runtime.{Ptr, null}
use baremetal_crt_host.Runtime.Monad.{M, pure, test◌then◌else◌, ◌>>=◌, ◌⨟◌, or_goto}
use baremetal_crt_host.Handles.{ctx_is_valid, mem_is_valid, cmdq_is_valid}
use baremetal_crt_host.Kernel.Api.{set_errcode, value_or}
use baremetal_crt_host.Mem.{
  mem_alloc, mem_free, mem_set_attr, mem_alloc_buffer, mem_free_buffer, mem_read_buffer,
  mem_write_buffer,
}

-- `flags & mask_rw` and `flags & mask_host`: the bits 0 to 2, and the bits 3 to 5.
abbrev pub rw_bits : ℕ → ℕ
rw_bits flags = flags % 8

abbrev pub host_bits : ℕ → ℕ
host_bits flags = flags / 8 % 8 * 8

-- The first `switch`: CL_MEM_READ_WRITE, CL_MEM_WRITE_ONLY or CL_MEM_READ_ONLY, alone.
abbrev pub valid_rw : ℕ → Bool
valid_rw flags = rw_bits flags == 1 || rw_bits flags == 2 || rw_bits flags == 4

-- The second `switch`: 0; CL_MEM_ALLOC_HOST_PTR; CL_MEM_USE_HOST_PTR, CL_MEM_COPY_HOST_PTR and
-- CL_MEM_ALLOC_HOST_PTR | CL_MEM_COPY_HOST_PTR, which set `need_host_ptr`.
abbrev pub need_host_ptr : ℕ → Bool
need_host_ptr flags = host_bits flags == 8 || host_bits flags == 32 || host_bits flags == 48

abbrev pub valid_host : ℕ → Bool
valid_host flags = host_bits flags == 0 || host_bits flags == 16 || need_host_ptr flags

-- What follows the label `err_out` of the functions that create an object.
abbrev pub create_err_out : Option Status → Status → M (Ptr × Option Status)
create_err_out errcode r = pure (null, set_errcode errcode r)

unfoldable pub in_cl_create_buffer : Ptr → ℕ → ℕ → Ptr → Option Status → M (Ptr × Option Status)
unfolding mem_alloc mem_set_attr mem_alloc_buffer
in_cl_create_buffer context given size host_ptr errcode =
    let flags = if given == 0 then 1 else given in
    test not (valid_rw flags)
    then create_err_out errcode Status.invalid_value
    else test not (valid_host flags)
    then create_err_out errcode Status.invalid_value
    else test size == 0
    then create_err_out errcode Status.invalid_buffer_size
    else test host_ptr == null && need_host_ptr flags
    then create_err_out errcode Status.invalid_host_ptr
    else or_goto (ctx_is_valid context) (create_err_out errcode) do
      (r, var) ← mem_alloc context (some null)
      let mem = value_or var null
      or_goto (pure r) (create_err_out errcode) (
          or_goto (mem_set_attr mem (flags % 2 ^ 32)) (create_err_out errcode) (
            or_goto (mem_alloc_buffer mem size host_ptr) (create_err_out errcode)
              (pure (mem, errcode))))

unfoldable pub in_cl_release_mem_object : Ptr → M Status
unfolding mem_free_buffer mem_free
in_cl_release_mem_object memobj =
    mem_is_valid memobj ⨟ do _ ← mem_free_buffer memobj; mem_free memobj ⨟ pure Status.success

-- The arguments for events and blocking are not used by the code.
unfoldable pub in_cl_enqueue_read_buffer : (queue buffer : Ptr) → (offset size : ℕ) → Ptr → M Status
unfolding mem_read_buffer
in_cl_enqueue_read_buffer command_queue buffer offset size ptr =
    cmdq_is_valid command_queue
    ⨟ mem_is_valid buffer
    ⨟ mem_read_buffer buffer offset size ptr
    ⨟ pure Status.success

unfoldable pub in_cl_enqueue_write_buffer :
    (queue buffer : Ptr) → (offset size : ℕ) → Ptr → M Status
unfolding mem_write_buffer
in_cl_enqueue_write_buffer command_queue buffer offset size ptr =
    cmdq_is_valid command_queue
    ⨟ mem_is_valid buffer
    ⨟ mem_write_buffer buffer offset size ptr
    ⨟ pure Status.success
