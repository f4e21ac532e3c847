-- ===== src/Kernel/Api.antt =====
-- The kernel functions of the OpenCL interface: src/cl_kernel.c.
use baremetal_crt_host.Common.{ℕ, ◌+◌, ◌%◌, Option, none, some, Bytes, ◌==◌, leb, is_none}
use baremetal_crt_host.Cl.{Status, u32_mod}
use baremetal_crt_host.Runtime.{Ptr, null, KernArg}
use baremetal_crt_host.Runtime.Monad.{M, pure, test◌then◌else◌, ◌>>=◌, ◌⨟◌, or_goto}
use baremetal_crt_host.Runtime.Memory.{load_ptr}
use baremetal_crt_host.Handles.{prg_is_valid, kern_is_valid}
use baremetal_crt_host.Kernel.{
  kern_alloc, kern_free, kern_set_name, kern_get_num_args, kern_set_num_args, kern_set_arg,
}

-- `errcode_ret` is the caller's variable, `none` for NULL.
abbrev pub set_errcode : Option Status → Status → Option Status
set_errcode none r = none
set_errcode (some _) r = some r

-- What follows the label `err_out` of `in_clCreateKernel`.
unfoldable pub create_kernel_err_out : Ptr → Option Status → Status → M (Ptr × Option Status)
unfolding kern_free
create_kernel_err_out kern errcode r = do _ ← kern_free kern; pure (null, set_errcode errcode r)

abbrev pub value_or : {A : Type 0} → Option A → A → A
value_or none d = d
value_or (some a) d = a

-- `uninit` is what the variable `kern` holds before it is assigned: any value.
unfoldable pub in_cl_create_kernel :
    (uninit : Ptr) → Ptr → Option Bytes → Option Status → M (Ptr × Option Status)
unfolding create_kernel_err_out kern_alloc kern_set_name kern_set_num_args prg_is_valid
in_cl_create_kernel uninit program kernel_name errcode =
    test is_none kernel_name
    then create_kernel_err_out uninit errcode Status.invalid_kernel_name
    else or_goto (prg_is_valid program) (create_kernel_err_out uninit errcode) do
      (r, var) ← kern_alloc program (some uninit)
      let kern = value_or var uninit
      or_goto (pure r) (create_kernel_err_out kern errcode) (
          or_goto (kern_set_name kern kernel_name) (create_kernel_err_out kern errcode) (
            or_goto (kern_set_num_args kern 0) (create_kernel_err_out kern errcode)
              (pure (kern, errcode))))

unfoldable pub in_cl_release_kernel : Ptr → M Status
unfolding kern_free
in_cl_release_kernel kernel = kern_is_valid kernel ⨟ kern_free kernel ⨟ pure Status.success

-- __COMM_ARG_NOTUSED, __COMM_ARG_VAL and __COMM_ARG_MEM of include/drivers/comm.h
abbrev pub comm_arg_notused : ℕ
comm_arg_notused = 0

abbrev pub comm_arg_val : ℕ
comm_arg_val = 1

abbrev pub comm_arg_mem : ℕ
comm_arg_mem = 2

-- `sizeof(void *)`
abbrev pub sizeof_ptr : ℕ
sizeof_ptr = 8

-- The argument that is recorded. Its index is left open here, and `kern_set_arg` fills it in.
unfoldable pub make_arg : ℕ → Ptr → M KernArg
unfolding load_ptr
make_arg arg_size arg_value =
    test arg_size == sizeof_ptr
    then (do
      mem ← load_ptr arg_value
      pure (record { argtype = comm_arg_mem; index = 0; size = arg_size; val = mem }))
    else pure (record { argtype = comm_arg_val; index = 0; size = arg_size; val = arg_value })

unfoldable pub in_cl_set_kernel_arg : Ptr → ℕ → ℕ → Ptr → M Status
unfolding make_arg kern_is_valid kern_get_num_args kern_set_num_args kern_set_arg
in_cl_set_kernel_arg kernel arg_index arg_size arg_value =
    test arg_value == null
    then pure Status.invalid_arg_value
    else kern_is_valid kernel ⨟ do
      arg ← make_arg arg_size arg_value
      (r, num) ← kern_get_num_args kernel (some 0)
      pure r
          ⨟ (test leb (value_or num 0) arg_index
              then kern_set_num_args kernel ((arg_index + 1) % u32_mod)
              else pure Status.success)
          ⨟ kern_set_arg kernel arg_index (some arg)
          ⨟ pure Status.success
