-- ===== src/Context/Life.antt =====
-- Contexts and command queues from their creation to their release.
use baremetal_crt_host.Common.{
  ◌+◌, ◌%◌, ◌^◌, ◌≡◌, ◌≢◌, false, Option, none, some, List, [], ◌∷◌, arith,
}
use baremetal_crt_host.Cl.{Status, icd_magic}
use baremetal_crt_host.Runtime.{Ptr, null, CommandQueue, Context, Device, Kernel, World, update}
use baremetal_crt_host.Runtime.Monad.{done, ◌>>=◌, calloc_struct}
use baremetal_crt_host.Handles.{dev_is_valid, ctx_is_valid, cmdq_is_valid, plat_get_uniq_id}
use baremetal_crt_host.Context.{
  ctx_alloc, ctx_get_device, cmdq_alloc, cmdq_free, cmdq_get_context, check_devices,
  in_cl_create_context, in_cl_create_command_queue_with_properties, in_cl_release_command_queue,
}
use baremetal_crt_host.Kernel.{kern_free}
use baremetal_crt_host.Kernel.Api.{set_errcode, create_kernel_err_out, in_cl_create_kernel}

abbrev pub IsLiveDevice : World → Ptr → Device → Type 0
IsLiveDevice w dev d = (dev ≢ null) × (w.devices dev ≡ some d) × (d.magic ≡ icd_magic)

-- `in_clReleaseCommandQueue` of a live queue frees it, and returns CL_INVALID_COMMAND_QUEUE.
pub release_queue_returns_error :
    (queue : Ptr) (q : CommandQueue) (w : World)
    → queue ≢ null
    → w.queues queue ≡ some q
    → q.magic ≡ icd_magic
    → in_cl_release_command_queue queue w
      ≡ done Status.invalid_command_queue (record w { queues = update w.queues queue none })
unfolding in_cl_release_command_queue cmdq_free cmdq_is_valid
release_queue_returns_error queue q w some_queue live magic = ground arith

-- A context on one live device and a command queue on the context, where `calloc` gives two
-- addresses that are not NULL: both calls succeed, and the launch of a kernel on the queue finds
-- the device through the queue's context.
pub device-create_queue :
    (dev p p' : Ptr) (d : Device) (ps : List Ptr) (errcode : Option Status) (w : World)
    → IsLiveDevice w dev d
    → w.supply ≡ p ∷ p' ∷ ps
    → p ≢ null
    → p' ≢ null
    → (w1 w2 : World) × (in_cl_create_context (some (dev ∷ [])) false false errcode w
        ≡ done (p, errcode) w1)
      × (in_cl_create_command_queue_with_properties p dev errcode w1 ≡ done (p', errcode) w2)
      × ((cmdq_get_context p' >>= ctx_get_device) w2 ≡ done dev w2)
unfolding in_cl_create_context check_devices ctx_alloc calloc_struct plat_get_uniq_id dev_is_valid
    ctx_is_valid cmdq_is_valid in_cl_create_command_queue_with_properties cmdq_alloc
    cmdq_get_context ctx_get_device
device-create_queue dev p p' d ps errcode w live supply some_p some_p' =
    let c : Context = record {
      dispatch = d.dispatch;
      magic = icd_magic;
      id = w.uniq_id;
      dev = dev;
    } in
    let id = (w.uniq_id + 1) % 2 ^ 32 in
    let q : CommandQueue = record { dispatch = d.dispatch; magic = icd_magic; id = id; ctx = p } in
    let w1 = record w { supply = p' ∷ ps; uniq_id = id; contexts = update w.contexts p (some c) } in
    let w2 = record w1 {
      supply = ps;
      uniq_id = (id + 1) % 2 ^ 32;
      queues = update w.queues p' (some q);
    } in
    (w1, w2, ground arith, ground arith, ground arith)

-- `in_clCreateKernel` without a name goes to its error exit before the variable `kern` is
-- assigned: where that variable holds the address of a live kernel, this kernel is freed.
pub create_kernel_frees_other :
    (uninit program : Ptr) (k : Kernel) (errcode : Option Status) (w : World)
    → uninit ≢ null
    → w.kernels uninit ≡ some k
    → k.magic ≡ icd_magic
    → in_cl_create_kernel uninit program none errcode w
      ≡ done
          (null, set_errcode errcode Status.invalid_kernel_name)
          (record w { kernels = update w.kernels uninit none })
unfolding in_cl_create_kernel create_kernel_err_out kern_free
create_kernel_frees_other uninit program k errcode w some_kern live magic = ground arith
