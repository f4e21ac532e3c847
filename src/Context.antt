-- ===== src/Context.antt =====
-- Contexts and command queues: drivers/context.c, drivers/command_queue.c, src/cl_context.c and
-- src/cl_command_queue.c.
pub mod Life
use baremetal_crt_host.Common.{
  Bool, true, false, ◌&&◌, not, Option, none, some, List, [], ◌∷◌, ◌==◌, is_none,
}
use baremetal_crt_host.Cl.{Status, is_success, icd_magic}
use baremetal_crt_host.Runtime.{Ptr, null}
use baremetal_crt_host.Runtime.Monad.{
  M, pure, test◌then◌else◌, ◌>>=◌, ◌>>◌, ◌⨟◌, or_goto, or_leave, calloc_struct,
}
use baremetal_crt_host.Handles.{
  dev_is_valid, ctx_is_valid, cmdq_is_valid, load_device, load_context, load_queue, put_context,
  put_queue, plat_get_uniq_id,
}
use baremetal_crt_host.Kernel.Api.{value_or}
use baremetal_crt_host.Mem.Api.{create_err_out}

unfoldable pub ctx_alloc : Ptr → Option Ptr → M (Status × Option Ptr)
unfolding dev_is_valid plat_get_uniq_id calloc_struct
ctx_alloc dev ctx = or_leave (dev_is_valid dev) ctx do
  test is_none ctx then pure (Status.invalid_value, ctx) else do
    t ← calloc_struct
    test t == null then pure (Status.out_of_host_memory, ctx) else do
      d ← load_device dev
      id ← plat_get_uniq_id
      put_context t (some (record { dispatch = d.dispatch; magic = icd_magic; id = id; dev = dev }))
      pure (Status.success, some t)

unfoldable pub ctx_free : Ptr → M Status
unfolding ctx_is_valid
ctx_free ctx = ctx_is_valid ctx ⨟ do put_context ctx none; pure Status.success

-- NULL for an invalid context
unfoldable pub ctx_get_device : Ptr → M Ptr
unfolding ctx_is_valid
ctx_get_device ctx = do
  r ← ctx_is_valid ctx
  test is_success r then (do c ← load_context ctx; pure c.dev) else pure null

unfoldable pub cmdq_alloc : Ptr → Option Ptr → M (Status × Option Ptr)
unfolding ctx_is_valid plat_get_uniq_id calloc_struct
cmdq_alloc ctx cmdq = or_leave (ctx_is_valid ctx) cmdq do
  test is_none cmdq then pure (Status.invalid_value, cmdq) else do
    t ← calloc_struct
    test t == null then pure (Status.out_of_host_memory, cmdq) else do
      c ← load_context ctx
      id ← plat_get_uniq_id
      put_queue t (some (record { dispatch = c.dispatch; magic = icd_magic; id = id; ctx = ctx }))
      pure (Status.success, some t)

unfoldable pub cmdq_free : Ptr → M Status
unfolding cmdq_is_valid
cmdq_free cmdq = cmdq_is_valid cmdq ⨟ do put_queue cmdq none; pure Status.success

unfoldable pub cmdq_get_context : Ptr → M Ptr
unfolding cmdq_is_valid
cmdq_get_context cmdq = do
  r ← cmdq_is_valid cmdq
  test is_success r then (do q ← load_queue cmdq; pure q.ctx) else pure null

-- The loop over the devices; the list holds the elements of the array that are left.
unfoldable pub check_devices : List Ptr → M Status
check_devices [] = pure Status.success
check_devices (dev ∷ devs) = dev_is_valid dev ⨟ check_devices devs

-- `num_devices > 1`, from the devices behind the first
abbrev pub more_than_one : List Ptr → Bool
more_than_one [] = false
more_than_one (_ ∷ _) = true

-- `devices` is the array of `num_devices` handles, `none` for NULL. `notify` and `user_data` tell
-- whether the two pointers are set.
unfoldable pub in_cl_create_context :
    Option (List Ptr) → (notify user_data : Bool) → Option Status → M (Ptr × Option Status)
unfolding check_devices ctx_alloc
in_cl_create_context none notify user_data errcode = create_err_out errcode Status.invalid_value
in_cl_create_context (some []) notify user_data errcode =
    create_err_out errcode Status.invalid_value
in_cl_create_context (some (dev ∷ devs)) notify user_data errcode =
    test notify && not user_data
    then create_err_out errcode Status.invalid_value
    else or_goto (check_devices (dev ∷ devs)) (create_err_out errcode) (
        test more_than_one devs then create_err_out errcode Status.invalid_value else do
          (r, var) ← ctx_alloc dev (some null)
          or_goto (pure r) (create_err_out errcode) (pure (value_or var null, errcode)))

unfoldable pub in_cl_release_context : Ptr → M Status
unfolding ctx_free
in_cl_release_context context = ctx_is_valid context ⨟ ctx_free context ⨟ pure Status.success

unfoldable pub in_cl_create_command_queue_with_properties :
    (context device : Ptr) → Option Status → M (Ptr × Option Status)
unfolding cmdq_alloc
in_cl_create_command_queue_with_properties context device errcode =
    or_goto (ctx_is_valid context) (create_err_out errcode) (
      or_goto (dev_is_valid device) (create_err_out errcode) do
        (r, var) ← cmdq_alloc context (some null)
        or_goto (pure r) (create_err_out errcode) (pure (value_or var null, errcode)))

-- The last statement of the code returns CL_INVALID_COMMAND_QUEUE.
unfoldable pub in_cl_release_command_queue : Ptr → M Status
unfolding cmdq_free
in_cl_release_command_queue command_queue =
    cmdq_is_valid command_queue ⨟ cmdq_free command_queue ⨟ pure Status.invalid_command_queue
