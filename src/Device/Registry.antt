-- ===== src/Device/Registry.antt =====
-- The list of devices and the groups of drivers of drivers/device.c, with `in_clGetDeviceIDs` of
-- src/cl_device.c. A walk along the list takes fuel, one unit for every `dev_next` that it follows.
use Prim.Native.Nat.{bit_and}
use baremetal_crt_host.Common.{
  ℕ, zero, suc, ◌+◌, ◌%◌, Bool, true, false, ◌&&◌, not, Option, none, some, List, [], ◌∷◌, ◌++◌,
  ◌==◌, leb, if◌then◌else◌, is_none,
}
use baremetal_crt_host.Cl.{Status, is_success, u32_mod}
use baremetal_crt_host.Runtime.{Ptr, null, Device, DevOps, DevCall}
use baremetal_crt_host.Runtime.Monad.{
  done, out_of_fuel, M, pure, test◌then◌else◌, on_option, ◌>>=◌, ◌>>◌, ◌⨟◌,
}
use baremetal_crt_host.Handles.{plat_is_valid, dev_is_valid, load_device, put_device}
use baremetal_crt_host.Device.{call_driver}

-- `d->dev_next`, where `none` is the address of `in_head`
unfoldable pub next_of : Option Ptr → M Ptr
next_of none w = done w.head_next w
next_of (some d) w = (do x ← load_device d; pure x.dev_next) w

unfoldable pub set_next : Option Ptr → Ptr → M (Unit {0})
set_next none p w = done tt (record w { head_next = p })
set_next (some d) p w = (do x ← load_device d; put_device d (some (record x { dev_next = p }))) w

unfoldable pub dev_get_number : M ℕ
dev_get_number w = done w.dev_num w

-- The loop of `dev_get_devices`, with `cnt` and the devices that it stores from `pdev[cnt]` on;
-- `store` tells whether `pdev` is set.
unfoldable pub get_devices_loop :
    (fuel : ℕ) → (store : Bool) → (typ sz : ℕ) → (dev : Option Ptr) → (cnt : ℕ) → M (ℕ × List Ptr)
unfolding next_of
get_devices_loop zero store typ sz dev cnt = λ w. out_of_fuel
get_devices_loop (suc fuel) store typ sz dev cnt = do
  next ← next_of dev
  test next == null then pure (cnt, []) else do
    d ← load_device next
    test bit_and d.dev_type typ == 0 then get_devices_loop fuel store typ sz (some next) cnt else do
      let cnt' : ℕ = if d.enabled then (cnt + 1) % u32_mod else cnt
      let stored : List Ptr = if d.enabled && store then next ∷ [] else []
      test store && leb sz cnt' then pure (cnt', stored) else do
        (n, rest) ← get_devices_loop fuel store typ sz (some next) cnt'
        pure (n, stored ++ rest)

-- The status, `*sz`, and what is stored in `pdev`
unfoldable pub dev_get_devices :
    (fuel : ℕ) → (store : Bool) → (typ : ℕ) → Option ℕ → M (Status × Option ℕ × List Ptr)
unfolding get_devices_loop
dev_get_devices fuel store typ none = pure (Status.invalid_value, none, [])
dev_get_devices fuel store typ (some sz) = do
  (cnt, stored) ← get_devices_loop fuel store typ sz none 0
  test cnt == 0
      then pure (Status.device_not_found, some cnt, stored)
      else pure (Status.success, some cnt, stored)

-- The walk of `dev_add`: the last element, or `none` where the device is met
unfoldable pub find_last : (fuel : ℕ) → (dev : Ptr) → (d : Option Ptr) → M (Option (Option Ptr))
unfolding next_of
find_last zero dev d = λ w. out_of_fuel
find_last (suc fuel) dev d = do
  next ← next_of d
  test next == null
      then pure (some d)
      else test next == dev
      then pure none
      else find_last fuel dev (some next)

-- `dev->ops->f` is set
abbrev pub has_op : (DevOps → Bool) → Device → Bool
has_op op d = elim d.ops [ none ↦ false | some ops ↦ op ops ]

-- The device is enabled, unless its driver refuses it.
unfoldable pub probe_device : Ptr → M (Unit {0})
unfolding call_driver
probe_device dev = do
  x ← load_device dev
  put_device dev (some (record x { enabled = true }))
  test has_op (λ ops. ops.probe) x
      then (do
        (r, _) ← call_driver (DevCall.probe dev)
        test is_success r
            then pure tt
            else do y ← load_device dev; put_device dev (some (record y { enabled = false })))
      else pure tt

unfoldable pub dev_add : (fuel : ℕ) → Ptr → M Status
unfolding find_last probe_device set_next dev_is_valid
dev_add fuel dev = dev_is_valid dev ⨟ do
  found ← find_last fuel dev none
  on_option found (pure Status.invalid_value) λ last. do
    probe_device dev
    set_next last dev
    λ w. done Status.success (record w { dev_num = (w.dev_num + 1) % u32_mod })

-- The walk of `dev_remove`: the element in front of the device, or `none`
unfoldable pub find_prev : (fuel : ℕ) → (dev : Ptr) → (d : Option Ptr) → M (Option (Option Ptr))
unfolding next_of
find_prev zero dev d = λ w. out_of_fuel
find_prev (suc fuel) dev d = do
  next ← next_of d
  test next == null
      then pure none
      else test next == dev
      then pure (some d)
      else find_prev fuel dev (some next)

-- The driver is told, and the device is disabled whatever it answers.
unfoldable pub detach_device : Ptr → M Status
unfolding call_driver
detach_device dev = do
  x ← load_device dev
  res ←
      test has_op (λ ops. ops.remove) x
      then (do (r, _) ← call_driver (DevCall.remove dev); pure r)
      else pure Status.success
  y ← load_device dev
  put_device dev (some (record y { enabled = false }))
  pure res

unfoldable pub dev_remove : (fuel : ℕ) → Ptr → M Status
unfolding find_prev detach_device set_next dev_is_valid
dev_remove fuel dev = dev_is_valid dev ⨟ do
  found ← find_prev fuel dev none
  on_option found (pure Status.invalid_value) λ prev. do
    res ← detach_device dev
    y ← load_device dev
    set_next prev y.dev_next
    λ w. done res (record w { dev_num = (w.dev_num + 0xffff_ffff) % u32_mod })

-- struct dev_group; the functions are those that the table `in_dev_groups` names.
pub record DevGroup : Type 0 where
  pub init : Option (Ptr → M Status)
  pub exit : Option (Ptr → M Status)
  pub inited : Bool

-- The loop of `dev_init` over the groups that are left, with `res`; the groups after it
unfoldable pub init_groups : (platform : Ptr) → Status → List DevGroup → M (Status × List DevGroup)
init_groups platform res [] = pure (res, [])
init_groups platform res (grp ∷ grps) =
    test grp.inited
    then (do (res', rest) ← init_groups platform res grps; pure (res', grp ∷ rest))
    else do
      r ← on_option grp.init (pure Status.success) λ init. init platform
      (res', rest) ← init_groups platform (if is_success r then res else r) grps
      pure (res', record grp { inited = true } ∷ rest)

unfoldable pub dev_init : List DevGroup → (platform : Ptr) → M (Status × List DevGroup)
unfolding init_groups
dev_init groups platform = init_groups platform Status.success groups

unfoldable pub exit_groups : (platform : Ptr) → Status → List DevGroup → M (Status × List DevGroup)
exit_groups platform res [] = pure (res, [])
exit_groups platform res (grp ∷ grps) =
    test not grp.inited
    then (do (res', rest) ← exit_groups platform res grps; pure (res', grp ∷ rest))
    else do
      r ← on_option grp.exit (pure Status.success) λ exit. exit platform
      (res', rest) ← exit_groups platform (if is_success r then res else r) grps
      pure (res', record grp { inited = false } ∷ rest)

unfoldable pub dev_exit : List DevGroup → (platform : Ptr) → M (Status × List DevGroup)
unfolding exit_groups
dev_exit groups platform = exit_groups platform Status.success groups

-- What `in_clGetDeviceIDs` gives back: its status, the groups, what it stores in `devices`, and
-- `*num_devices`
pub record DeviceIds : Type 0 where
  pub status : Status
  pub groups : List DevGroup
  pub stored : List Ptr
  pub num : Option ℕ

-- `devices` tells whether the array is set; `num_devices` is the caller's variable.
unfoldable pub in_cl_get_device_ids :
    (fuel : ℕ)
    → List DevGroup
    → (platform : Ptr) → (device_type num_entries : ℕ) → (devices : Bool) → (num_devices : Option ℕ)
    → M DeviceIds
unfolding plat_is_valid dev_init dev_get_devices
in_cl_get_device_ids fuel groups platform device_type num_entries devices num_devices = do
  let leave : Status → List DevGroup → List Ptr → M DeviceIds =
      λ r gs devs. pure (record { status = r; groups = gs; stored = devs; num = num_devices })
  r ← plat_is_valid platform
  test not (is_success r)
      then leave r groups []
      else test devices && num_entries == 0
      then leave Status.invalid_value groups []
      else test not devices && is_none num_devices
      then leave Status.invalid_value groups []
      else do
        (r', groups') ← dev_init groups platform
        test not (is_success r') then leave r' groups' [] else do
          (r'', num, stored) ← dev_get_devices fuel devices device_type (some num_entries)
          test not (is_success r'')
              then leave r'' groups' stored
              else pure (record {
                status = Status.success;
                groups = groups';
                stored = stored;
                num = if is_none num_devices then none else num;
              })
