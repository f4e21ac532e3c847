-- ===== src/Enqueue/Isolation.antt =====
-- What the calls of one device keep: a predicate that stays when this device is called and when
-- bytes of the host are written.
use mathlib.Core.Path.{subst}
use baremetal_crt_host.Common.{
  ℕ, ◌+◌, ◌≡◌, refl, ap, Bool, not, ◌&&◌, Option, List, [], ◌∷◌, ◌++◌, Bytes, ◌==◌, take, All,
  arith,
}
use baremetal_crt_host.Cl.{Status, is_success}
use baremetal_crt_host.Runtime.{Ptr, DevCall, DevOps, World}
use baremetal_crt_host.Runtime.Monad.{done, M, ◌>>=◌, or_leave}
use baremetal_crt_host.Runtime.Preserve.{
  Preserves, Preserves-pure, Preserves->>=, Preserves-test, Preserves-check,
}
use baremetal_crt_host.Runtime.Memory.{ByteMap}
use baremetal_crt_host.Handles.{dev_is_valid}
use baremetal_crt_host.Device.{
  HostBuf, is_null, fetch, store, call_driver, lacks_op, dev_plain, dev_read_mem, dev_write_mem,
}
pub mod Args
pub mod Launch
pub mod Loaded
pub mod Reads
pub mod Ready
pub mod Running

-- The device that a call goes to
abbrev pub target : DevCall → Ptr
target (DevCall.probe d) = d
target (DevCall.remove d) = d
target (DevCall.reset d) = d
target (DevCall.run d) = d
target (DevCall.stop d) = d
target (DevCall.read_mem d paddr len) = d
target (DevCall.write_mem d paddr bs) = d

-- The predicate stays when the device is called and when bytes of the host are written.
abbrev pub IsKept : (dev : Ptr) → (World → Type 0) → Type 0
IsKept dev P =
    ((w : World) (call : DevCall)
      → target call ≡ dev
      → P w
      → P (record w { calls = call ∷ w.calls }))
    × ((w : World) (m : ByteMap) → P w → P (record w { memory = m }))

module _ (dev : Ptr) (P : World → Type 0) (kept : IsKept dev P) where
  pub or_leave-Kept :
      {A : Type 0} (a : A) {m : M Status} {k : M (Status × A)}
      → Preserves P m
      → Preserves P k
      → Preserves P (or_leave m a k)
  or_leave-Kept a keep_m keep_k =
      Preserves->>= P keep_m λ r. Preserves-test P (is_success r) keep_k (Preserves-pure P (r, a))

  -- A function that leaves the state
  pub unchanged :
      {A : Type 0} (m : M A)
      → ((w : World) (r : A) (w' : World) → m w ≡ done r w' → w ≡ w')
      → Preserves P m
  unchanged m same w r w' h e = subst P (same w r w' e) h

  call_driver-Kept : (call : DevCall) → target call ≡ dev → Preserves P (call_driver call)
  unfolding call_driver
  call_driver-Kept call to w r w' h run =
      let same : record w { calls = call ∷ w.calls } ≡ w' = ground arith in
      subst P same (kept.0 w call to h)

  store-Kept : (buf : HostBuf) (bs : Bytes) → Preserves P (store buf bs)
  unfolding store
  store-Kept (HostBuf.local x) bs w r w' h run = let same : w ≡ w' = ground arith in subst P same h
  store-Kept (HostBuf.at p) bs w r w' h run =
      let same : record w { memory = w'.memory } ≡ w' = ground arith in
      subst P same (kept.1 w w'.memory h)

  check-Kept : (d : Ptr) → Preserves P (dev_is_valid d)
  unfolding dev_is_valid
  check-Kept d = unchanged (dev_is_valid d) (λ w r w' e. ground arith)

  lacks_op-Kept : (op : DevOps → Bool) (d : Ptr) → Preserves P (lacks_op op d)
  unfolding lacks_op
  lacks_op-Kept op d = unchanged (lacks_op op d) (λ w r w' e. ground arith)

  fetch-Kept : (buf : HostBuf) (len : ℕ) → Preserves P (fetch buf len)
  unfolding fetch
  fetch-Kept (HostBuf.local bs) len =
      unchanged (fetch (HostBuf.local bs) len) (λ w r w' e. ground arith)
  fetch-Kept (HostBuf.at p) len = unchanged (fetch (HostBuf.at p) len) (λ w r w' e. ground arith)

  pub dev_plain-Kept :
      (op : DevOps → Bool) (call : Ptr → DevCall)
      → target (call dev) ≡ dev
      → Preserves P (dev_plain op call dev)
  unfolding dev_plain
  dev_plain-Kept op call to = Preserves-check P (check-Kept dev) (
      Preserves->>= P (lacks_op-Kept op dev) λ missing.
        Preserves-test P missing (Preserves-pure P Status.invalid_device)
          (Preserves->>= P (call_driver-Kept (call dev) to) (λ a. Preserves-pure P a.0)))

  pub dev_write_mem-Kept :
      (paddr : ℕ) (buf : HostBuf) (len : ℕ) → Preserves P (dev_write_mem dev paddr buf len)
  unfolding dev_write_mem
  dev_write_mem-Kept paddr buf len = Preserves-check P (check-Kept dev) (
      Preserves->>= P (lacks_op-Kept (λ ops. ops.write_mem) dev) λ missing.
        Preserves-test P missing (Preserves-pure P Status.invalid_device) (
          Preserves-test P (is_null buf && not (len == 0)) (Preserves-pure P Status.invalid_value) (
            Preserves-test P (len == 0) (Preserves-pure P Status.success) (
              Preserves->>= P (fetch-Kept buf len) λ bytes.
                Preserves->>= P (call_driver-Kept (DevCall.write_mem dev paddr bytes) refl)
                  (λ a. Preserves-pure P a.0)))))

  pub dev_read_mem-Kept :
      (paddr : ℕ) (buf : HostBuf) (len : ℕ) → Preserves P (dev_read_mem dev paddr buf len)
  unfolding dev_read_mem
  dev_read_mem-Kept paddr buf len = or_leave-Kept [] (check-Kept dev) (
      Preserves->>= P (lacks_op-Kept (λ ops. ops.read_mem) dev) λ missing.
        Preserves-test P missing (Preserves-pure P (Status.invalid_device, [])) (
          Preserves-test P (is_null buf && not (len == 0))
            (Preserves-pure P (Status.invalid_value, []))
            (Preserves-test P (len == 0) (Preserves-pure P (Status.success, [])) (
              Preserves->>= P (call_driver-Kept (DevCall.read_mem dev paddr len) refl) λ a.
                Preserves->>= P (store-Kept buf (take len a.1))
                  (λ x. Preserves-pure P (a.0, take len a.1))))))
