-- ===== src/Setup/Kept.antt =====
-- What `dev_add` and `dev_remove` leave alone: the addresses that `calloc` will give, the platforms,
-- and of every device all but its link and whether it is enabled.
use baremetal_crt_host.Common.{
  ℕ, zero, suc, ◌+◌, ◌%◌, ◌≡◌, refl, true, false, Option, none, some, List, ◌∷◌, ◌==◌, arith,
  Bool-cases, inl, inr,
}
use mathlib.Core.Path.{subst}
use baremetal_crt_host.Cl.{Status, is_success, u32_mod}
use baremetal_crt_host.Runtime.{Ptr, null, DevCall, Device, Platform, World, update}
use baremetal_crt_host.Runtime.Monad.{done, M, ◌>>=◌, ◌>>◌}
use baremetal_crt_host.Runtime.Preserve.{
  Preserves, and_then-done, Preserves-pure, Preserves->>=, Preserves-test, Preserves-check,
  Preserves-on_option, Preserves-deref,
}
use baremetal_crt_host.Handles.{dev_is_valid, load_device, put_device}
use baremetal_crt_host.Device.{call_driver}
use baremetal_crt_host.Device.Registry.{
  next_of, set_next, find_last, find_prev, has_op, probe_device, detach_device, dev_add, dev_remove,
}

deref-done :
    (d : Ptr) (x : Device) (w v : World)
    → load_device d w ≡ done x v
    → (w.devices d ≡ some x) × (w ≡ v)
deref-done d x w v e = (ground arith, ground arith)

module _ (supply : List Ptr) (platforms : Ptr → Option Platform) (q : Ptr) (x0 : Device) where
  abbrev pub Kept : World → Type 0
  Kept w =
      (w.supply ≡ supply)
      × (w.platforms ≡ platforms)
      × ((x : Device) × (w.devices q ≡ some x)
          × (x.magic ≡ x0.magic)
          × (x.ops ≡ x0.ops)
          × (x.priv ≡ x0.priv))

  next_of-Kept : (d : Option Ptr) → Preserves Kept (next_of d)
  unfolding next_of
  next_of-Kept none w r w' h e = let same : w ≡ w' = ground arith in rw same at h
  next_of-Kept (some d) w r w' h e = let same : w ≡ w' = ground arith in rw same at h

  -- What is done with the device at `d` keeps the predicate where the device is known.
  load-Kept :
      {A : Type 0} (d : Ptr) (m : Device → M A)
      → ((x : Device) (w : World) (r : A) (w' : World)
          → w.devices d ≡ some x
          → Kept w
          → m x w ≡ done r w'
          → Kept w')
      → Preserves Kept (load_device d >>= m)
  load-Kept d m keep w r w' h e =
      let (x, v, found, rest) = and_then-done (load_device d w) m r w' e in
      let (there, same) = deref-done d x w v found in keep x w r w' there h (rw (← same) at rest)

  -- A device whose magic number, table and data stay is stored.
  put-Kept :
      (d : Ptr) (x y : Device) (w : World)
      → w.devices d ≡ some x
      → y.magic ≡ x.magic
      → y.ops ≡ x.ops
      → y.priv ≡ x.priv
      → Kept w
      → Kept (record w { devices = update w.devices d (some y) })
  put-Kept d x y w there m o p (a, b, (z, c, m0, o0, p0)) = elim (Bool-cases (q == d)) [
    | inl same ↦ (a, b, (y, ground arith, ground arith, ground arith, ground arith))
    | inr other ↦ (a, b, (z, ground arith, m0, o0, p0))
  ]

  modify-Kept :
      {A : Type 0} (d : Ptr) (f : Device → Device) (k : Device → M A)
      → ((x : Device) → ((f x).magic ≡ x.magic) × ((f x).ops ≡ x.ops) × ((f x).priv ≡ x.priv))
      → ((x : Device) → Preserves Kept (k x))
      → Preserves Kept (load_device d >>= λ x. put_device d (some (f x)) >> k x)
  modify-Kept d f k same keep = load-Kept d _ λ x w r w' there h e.
      keep x (record w { devices = update w.devices d (some (f x)) }) r w'
        (put-Kept d x (f x) w there (same x).0 (same x).1 (same x).2 h) e

  set_next-Kept : (d : Option Ptr) (p : Ptr) → Preserves Kept (set_next d p)
  unfolding set_next
  set_next-Kept none p = λ w r w' h e.
      let same : record w { head_next = p } ≡ w' = ground arith in subst Kept same (h.0, h.1, h.2)
  set_next-Kept (some d) p = load-Kept d _ λ x w r w' there h e.
      let z : Device = record x { dev_next = p } in
      let same : record w { devices = update w.devices d (some z) } ≡ w' = ground arith in
      subst Kept same (put-Kept d x z w there refl refl refl h)

  find_last-Kept : (fuel dev : ℕ) (d : Option Ptr) → Preserves Kept (find_last fuel dev d)
  unfolding find_last
  find_last-Kept zero dev d = λ w r w' h e. absurd (cc)
  find_last-Kept (suc fuel) dev d = Preserves->>= Kept (next_of-Kept d) λ next.
      Preserves-test Kept (next == null) (Preserves-pure Kept _) (
        Preserves-test Kept (next == dev) (Preserves-pure Kept _)
          (find_last-Kept fuel dev (some next)))

  find_prev-Kept : (fuel dev : ℕ) (d : Option Ptr) → Preserves Kept (find_prev fuel dev d)
  unfolding find_prev
  find_prev-Kept zero dev d = λ w r w' h e. absurd (cc)
  find_prev-Kept (suc fuel) dev d = Preserves->>= Kept (next_of-Kept d) λ next.
      Preserves-test Kept (next == null) (Preserves-pure Kept _) (
        Preserves-test Kept (next == dev) (Preserves-pure Kept _)
          (find_prev-Kept fuel dev (some next)))

  call_driver-Kept : (call : DevCall) → Preserves Kept (call_driver call)
  unfolding call_driver
  call_driver-Kept call w r w' h e =
      let same : record w { calls = call ∷ w.calls } ≡ w' = ground arith in
      subst Kept same (h.0, h.1, h.2)

  check-Kept : (d : Ptr) → Preserves Kept (dev_is_valid d)
  unfolding dev_is_valid
  check-Kept d w r w' h e = let same : w ≡ w' = ground arith in rw same at h

  disable-Kept :
      (d : Ptr)
      → Preserves Kept (load_device d >>= λ y. put_device d (some (record y { enabled = false })))
  disable-Kept d = load-Kept d _ λ x w r w' there h e.
      let z : Device = record x { enabled = false } in
      let same : record w { devices = update w.devices d (some z) } ≡ w' = ground arith in
      subst Kept same (put-Kept d x z w there refl refl refl h)

  probe_device-Kept : (dev : Ptr) → Preserves Kept (probe_device dev)
  unfolding probe_device
  probe_device-Kept dev =
      modify-Kept dev (λ x. record x { enabled = true }) _ (λ x. (refl, refl, refl))
        λ x.
          Preserves-test Kept (has_op (λ ops. ops.probe) x)
            (Preserves->>= Kept (call_driver-Kept _)
              λ a. Preserves-test Kept (is_success a.0) (Preserves-pure Kept tt) (disable-Kept dev))
            (Preserves-pure Kept tt)

  count-Kept :
      (res : Status) (n : ℕ)
      → Preserves Kept (λ w. done res (record w { dev_num = (w.dev_num + n) % u32_mod }))
  count-Kept res n w r w' h e =
      let same : record w { dev_num = (w.dev_num + n) % u32_mod } ≡ w' = ground arith in
      subst Kept same (h.0, h.1, h.2)

  pub dev_add-Kept : (fuel dev : ℕ) → Preserves Kept (dev_add fuel dev)
  unfolding dev_add
  dev_add-Kept fuel dev = Preserves-check Kept (check-Kept dev) (
      Preserves->>= Kept (find_last-Kept fuel dev none) λ found.
        Preserves-on_option Kept found (Preserves-pure Kept _) λ last.
          Preserves->>= Kept (probe_device-Kept dev)
            λ _. Preserves->>= Kept (set_next-Kept last dev) (λ _. count-Kept Status.success 1))

  detach_device-Kept : (dev : Ptr) → Preserves Kept (detach_device dev)
  unfolding detach_device
  detach_device-Kept dev = Preserves->>= Kept (Preserves-deref Kept (λ w. w.devices) dev) λ x.
      Preserves->>= Kept
        (Preserves-test Kept (has_op (λ ops. ops.remove) x)
          (Preserves->>= Kept (call_driver-Kept (DevCall.remove dev))
            (λ a. Preserves-pure Kept a.0))
          (Preserves-pure Kept Status.success))
        λ res.
          modify-Kept dev (λ y. record y { enabled = false }) _ (λ y. (refl, refl, refl))
            (λ y. Preserves-pure Kept res)

  pub dev_remove-Kept : (fuel dev : ℕ) → Preserves Kept (dev_remove fuel dev)
  unfolding dev_remove
  dev_remove-Kept fuel dev = Preserves-check Kept (check-Kept dev) (
      Preserves->>= Kept (find_prev-Kept fuel dev none) λ found.
        Preserves-on_option Kept found (Preserves-pure Kept _) λ prev.
          Preserves->>= Kept (detach_device-Kept dev) λ res.
            Preserves->>= Kept (Preserves-deref Kept (λ w. w.devices) dev) λ y.
              Preserves->>= Kept (set_next-Kept prev y.dev_next) (λ _. count-Kept res 0xffff_ffff))
