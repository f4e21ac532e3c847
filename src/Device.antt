-- ===== src/Device.antt =====
-- Devices: the allocation and the calls through the table of a driver, of drivers/device.c. The
-- list of devices stands in Registry, and the other children prove what it keeps.
pub mod Registry
pub mod Chain
pub mod Add
pub mod Remove
pub mod Listing
pub mod Stale
pub mod Reach
pub mod Groups
use baremetal_crt_host.Common.{
  ℕ, Bool, true, false, ◌&&◌, not, Option, none, some, [], ◌∷◌, Bytes, ◌==◌, is_none, length, take,
}
use baremetal_crt_host.Cl.{Status, icd_magic}
use baremetal_crt_host.Runtime.{Ptr, null, DevOps, DevCall}
use baremetal_crt_host.Runtime.Monad.{
  done, fault, M, pure, test◌then◌else◌, on_option, ◌>>=◌, ◌>>◌, ◌⨟◌, or_leave, calloc_struct,
}
use baremetal_crt_host.Runtime.Memory.{peek, poke}
use baremetal_crt_host.Handles.{
  plat_is_valid, dev_is_valid, load_platform, load_device, put_device, plat_get_uniq_id,
}

-- A buffer of the host: a variable of the caller with its bytes, or an address.
pub data HostBuf : Type 0 where
  local : Bytes → HostBuf
  at : Ptr → HostBuf

abbrev pub is_null : HostBuf → Bool
is_null (HostBuf.local _) = false
is_null (HostBuf.at p) = p == null

-- The first `len` bytes of a buffer; a fault where the buffer does not have them.
unfoldable pub fetch : HostBuf → ℕ → M Bytes
unfolding peek
fetch (HostBuf.local bs) len w =
    (test length (take len bs) == len then pure (take len bs) else (λ _. fault)) w
fetch (HostBuf.at p) len w = elim (peek w.memory p len) [ none ↦ fault | some bs ↦ done bs w ]

-- A driver stores bytes in a buffer. Those of a variable are returned to the caller.
unfoldable pub store : HostBuf → Bytes → M (Unit {0})
unfolding peek
store (HostBuf.local _) bs w = done tt w
store (HostBuf.at p) bs w = elim (peek w.memory p (length bs)) [
  | none ↦ fault
  | some _ ↦ done tt (record w { memory = poke w.memory p bs })
]

unfoldable pub dev_alloc : Ptr → Option Ptr → M (Status × Option Ptr)
unfolding plat_is_valid plat_get_uniq_id calloc_struct
dev_alloc plat dev = or_leave (plat_is_valid plat) dev do
  test is_none dev then pure (Status.invalid_value, dev) else do
    t ← calloc_struct
    test t == null then pure (Status.out_of_host_memory, dev) else do
      p ← load_platform plat
      id ← plat_get_uniq_id
      put_device t (
          some (record {
            dispatch = p.dispatch;
            magic = icd_magic;
            id = id;
            plat = plat;
            ops = none;
            dev_type = 0;
            enabled = false;
            priv = null;
            dev_next = null;
          }))
      pure (Status.success, some t)

unfoldable pub dev_free : Ptr → M Status
unfolding dev_is_valid
dev_free dev = dev_is_valid dev ⨟ do put_device dev none; pure Status.success

-- What the driver answers to a call, which is recorded.
unfoldable pub call_driver : DevCall → M (Status × Bytes)
call_driver call w =
    let calls = call ∷ w.calls in done (w.driver calls) (record w { calls = calls })

-- `dev->ops == NULL || dev->ops->f == NULL`
unfoldable pub lacks_op : (DevOps → Bool) → Ptr → M Bool
lacks_op op dev = do d ← load_device dev; on_option d.ops (pure true) λ ops. pure (not (op ops))

-- A call without data.
unfoldable pub dev_plain : (DevOps → Bool) → (Ptr → DevCall) → Ptr → M Status
unfolding dev_is_valid lacks_op call_driver
dev_plain op call dev = dev_is_valid dev ⨟ do
  missing ← lacks_op op dev
  test missing then pure Status.invalid_device else do (r, _) ← call_driver (call dev); pure r

unfoldable pub dev_reset : Ptr → M Status
unfolding dev_plain
dev_reset = dev_plain (λ ops. ops.reset) DevCall.reset

unfoldable pub dev_run : Ptr → M Status
unfolding dev_plain
dev_run = dev_plain (λ ops. ops.run) DevCall.run

unfoldable pub dev_stop : Ptr → M Status
unfolding dev_plain
dev_stop = dev_plain (λ ops. ops.stop) DevCall.stop

-- With the bytes that the driver stored, at most `len`.
unfoldable pub dev_read_mem : Ptr → (paddr : ℕ) → HostBuf → (len : ℕ) → M (Status × Bytes)
unfolding dev_is_valid lacks_op call_driver store
dev_read_mem dev paddr buf len = or_leave (dev_is_valid dev) [] do
  missing ← lacks_op (λ ops. ops.read_mem) dev
  test missing
      then pure (Status.invalid_device, [])
      else test is_null buf && not (len == 0)
      then pure (Status.invalid_value, [])
      else test len == 0
      then pure (Status.success, [])
      else do
        (r, bs) ← call_driver (DevCall.read_mem dev paddr len)
        store buf (take len bs)
        pure (r, take len bs)

unfoldable pub dev_write_mem : Ptr → (paddr : ℕ) → HostBuf → (len : ℕ) → M Status
unfolding dev_is_valid lacks_op call_driver fetch
dev_write_mem dev paddr buf len = dev_is_valid dev ⨟ do
  missing ← lacks_op (λ ops. ops.write_mem) dev
  test missing
      then pure Status.invalid_device
      else test is_null buf && not (len == 0)
      then pure Status.invalid_value
      else test len == 0
      then pure Status.success
      else do
        bytes ← fetch buf len
        (r, _) ← call_driver (DevCall.write_mem dev paddr bytes)
        pure r
