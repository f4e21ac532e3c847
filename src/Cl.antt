-- ===== src/Cl.antt =====
-- The status codes of include/CL/cl.h that the runtime returns, and the flags of a memory object.
use baremetal_crt_host.Common.{ℕ, ◌^◌, Bool, true, false}

-- A `cl_int` that a function of the runtime returns.
pub data Status : Type 0 where
  success device_not_found out_of_resources out_of_host_memory : Status
  invalid_value invalid_platform invalid_device invalid_context : Status
  invalid_command_queue invalid_host_ptr invalid_mem_object invalid_binary : Status
  invalid_program invalid_kernel_name invalid_kernel invalid_arg_value : Status
  invalid_buffer_size : Status

-- `r == CL_SUCCESS`
abbrev pub is_success : Status → Bool
is_success Status.success = true
is_success _ = false

-- OPENCL_ICD_MAGIC. It is stored in a `cl_int` and compared as the same 32-bit pattern.
abbrev pub icd_magic : ℕ
icd_magic = 0xdead_beaf

-- One past the largest `cl_uint`, and one past the largest `size_t` or `uint64_t`.
abbrev pub u32_mod : ℕ
u32_mod = 2 ^ 32

abbrev pub u64_mod : ℕ
u64_mod = 2 ^ 64
