-- ===== src/Stubs.antt =====
-- The functions of src/cl_*.c that the runtime does not implement. They read none of their
-- arguments, which are left out here, and store nothing, not even in `errcode_ret`.
use baremetal_crt_host.Common.{ℕ, ◌≡◌, Option, arith}
use baremetal_crt_host.Cl.{Status}
use baremetal_crt_host.Runtime.{Ptr, null, Device, World}
use baremetal_crt_host.Runtime.Monad.{done, M, pure, ◌⨟◌}
use baremetal_crt_host.Handles.{dev_is_valid}
use baremetal_crt_host.Context.Life.{IsLiveDevice}

unfoldable pub in_cl_retain_command_queue : M Status
in_cl_retain_command_queue = pure Status.invalid_command_queue

unfoldable pub in_cl_get_command_queue_info : M Status
in_cl_get_command_queue_info = pure Status.invalid_command_queue

unfoldable pub in_cl_retain_context : M Status
in_cl_retain_context = pure Status.invalid_context

unfoldable pub in_cl_get_context_info : M Status
in_cl_get_context_info = pure Status.invalid_context

unfoldable pub in_cl_flush : M Status
in_cl_flush = pure Status.success

unfoldable pub in_cl_finish : M Status
in_cl_finish = pure Status.success

unfoldable pub in_cl_enqueue_read_buffer_rect : M Status
in_cl_enqueue_read_buffer_rect = pure Status.invalid_command_queue

unfoldable pub in_cl_enqueue_write_buffer_rect : M Status
in_cl_enqueue_write_buffer_rect = pure Status.invalid_command_queue

unfoldable pub in_cl_enqueue_fill_buffer : M Status
in_cl_enqueue_fill_buffer = pure Status.invalid_command_queue

unfoldable pub in_cl_enqueue_copy_buffer : M Status
in_cl_enqueue_copy_buffer = pure Status.invalid_command_queue

unfoldable pub in_cl_enqueue_copy_buffer_rect : M Status
in_cl_enqueue_copy_buffer_rect = pure Status.invalid_command_queue

unfoldable pub in_cl_enqueue_unmap_mem_object : M Status
in_cl_enqueue_unmap_mem_object = pure Status.invalid_command_queue

unfoldable pub in_cl_enqueue_migrate_mem_objects : M Status
in_cl_enqueue_migrate_mem_objects = pure Status.invalid_command_queue

unfoldable pub in_cl_enqueue_native_kernel : M Status
in_cl_enqueue_native_kernel = pure Status.invalid_command_queue

unfoldable pub in_cl_create_kernels_in_program : M Status
in_cl_create_kernels_in_program = pure Status.invalid_program

unfoldable pub in_cl_retain_kernel : M Status
in_cl_retain_kernel = pure Status.invalid_kernel

unfoldable pub in_cl_retain_mem_object : M Status
in_cl_retain_mem_object = pure Status.invalid_mem_object

unfoldable pub in_cl_retain_program : M Status
in_cl_retain_program = pure Status.invalid_program

unfoldable pub in_cl_create_context_from_type : (errcode : Option Status) → M (Ptr × Option Status)
in_cl_create_context_from_type errcode = pure (null, errcode)

unfoldable pub in_cl_enqueue_map_buffer : (errcode : Option Status) → M (Ptr × Option Status)
in_cl_enqueue_map_buffer errcode = pure (null, errcode)

unfoldable pub in_cl_create_program_with_source :
    (errcode : Option Status) → M (Ptr × Option Status)
in_cl_create_program_with_source errcode = pure (null, errcode)

unfoldable pub in_cl_clone_kernel : M Ptr
in_cl_clone_kernel = pure null

-- The `switch` over the name has only its default.
unfoldable pub in_cl_get_device_info : (device : Ptr) → (param_name : ℕ) → M Status
unfolding dev_is_valid
in_cl_get_device_info device param_name = dev_is_valid device ⨟ pure Status.invalid_value

-- A live device answers no question about itself.
pub get_device_info-IsLiveDevice :
    (dev param_name : ℕ) (d : Device) (w : World)
    → IsLiveDevice w dev d
    → in_cl_get_device_info dev param_name w ≡ done Status.invalid_value w
unfolding in_cl_get_device_info dev_is_valid
get_device_info-IsLiveDevice dev param_name d w live = ground arith
