-- ===== src/Handles.antt =====
-- The checks `*_is_valid` of include/drivers/*.h, the access to the structs behind a handle, and
-- `plat_get_uniq_id` of drivers/platform.c.
use baremetal_crt_host.Common.{ℕ, ◌+◌, ◌%◌, ◌^◌, Option}
use baremetal_crt_host.Cl.{Status}
use baremetal_crt_host.Runtime.{
  Ptr, Platform, Device, Context, CommandQueue, Program, Kernel, Mem, update,
}
use baremetal_crt_host.Runtime.Monad.{done, M, deref, check_handle}

unfoldable pub plat_is_valid : Ptr → M Status
unfolding check_handle
plat_is_valid = check_handle Status.invalid_platform (λ w. w.platforms) (λ p. p.magic)

unfoldable pub dev_is_valid : Ptr → M Status
unfolding check_handle
dev_is_valid = check_handle Status.invalid_device (λ w. w.devices) (λ d. d.magic)

unfoldable pub ctx_is_valid : Ptr → M Status
unfolding check_handle
ctx_is_valid = check_handle Status.invalid_context (λ w. w.contexts) (λ c. c.magic)

unfoldable pub cmdq_is_valid : Ptr → M Status
unfolding check_handle
cmdq_is_valid = check_handle Status.invalid_command_queue (λ w. w.queues) (λ q. q.magic)

unfoldable pub prg_is_valid : Ptr → M Status
unfolding check_handle
prg_is_valid = check_handle Status.invalid_program (λ w. w.programs) (λ p. p.magic)

unfoldable pub kern_is_valid : Ptr → M Status
unfolding check_handle
kern_is_valid = check_handle Status.invalid_kernel (λ w. w.kernels) (λ k. k.magic)

unfoldable pub mem_is_valid : Ptr → M Status
unfolding check_handle
mem_is_valid = check_handle Status.invalid_mem_object (λ w. w.mems) (λ m. m.magic)

abbrev pub load_platform : Ptr → M Platform
load_platform = deref (λ w. w.platforms)

abbrev pub load_device : Ptr → M Device
load_device = deref (λ w. w.devices)

abbrev pub load_context : Ptr → M Context
load_context = deref (λ w. w.contexts)

abbrev pub load_queue : Ptr → M CommandQueue
load_queue = deref (λ w. w.queues)

abbrev pub load_program : Ptr → M Program
load_program = deref (λ w. w.programs)

abbrev pub load_kernel : Ptr → M Kernel
load_kernel = deref (λ w. w.kernels)

abbrev pub load_mem : Ptr → M Mem
load_mem = deref (λ w. w.mems)

-- `some` stores the struct, `none` frees it.
abbrev pub put_device : Ptr → Option Device → M (Unit {0})
put_device p v w = done tt (record w { devices = update w.devices p v })

abbrev pub put_context : Ptr → Option Context → M (Unit {0})
put_context p v w = done tt (record w { contexts = update w.contexts p v })

abbrev pub put_queue : Ptr → Option CommandQueue → M (Unit {0})
put_queue p v w = done tt (record w { queues = update w.queues p v })

abbrev pub put_program : Ptr → Option Program → M (Unit {0})
put_program p v w = done tt (record w { programs = update w.programs p v })

abbrev pub put_kernel : Ptr → Option Kernel → M (Unit {0})
put_kernel p v w = done tt (record w { kernels = update w.kernels p v })

abbrev pub put_mem : Ptr → Option Mem → M (Unit {0})
put_mem p v w = done tt (record w { mems = update w.mems p v })

-- The counter is an `atomic_int`: its pattern wraps.
unfoldable pub plat_get_uniq_id : M ℕ
plat_get_uniq_id w = done w.uniq_id (record w { uniq_id = (w.uniq_id + 1) % 2 ^ 32 })
