-- ===== src/Device/Remove.antt =====
-- `dev_remove` on the list of devices.
use baremetal_crt_host.Common.{
  ℕ, ◌+◌, ◌%◌, ◌<◌, ◌≡◌, refl, sym, ap, ◌∙◌, false, none, some, List, [], ◌∷◌, ◌++◌, if◌then◌else◌,
  length, Bool-cases, inl, inr, arith,
}
use baremetal_crt_host.Cl.{Status, u32_mod}
use baremetal_crt_host.Runtime.{Ptr, DevCall, Device, World, update}
use baremetal_crt_host.Runtime.Monad.{done}
use baremetal_crt_host.Handles.{dev_is_valid}
use baremetal_crt_host.Context.Life.{IsLiveDevice}
use baremetal_crt_host.Device.{call_driver}
use baremetal_crt_host.Device.Registry.{has_op, detach_device, dev_remove}
use baremetal_crt_host.Device.Add.{NotIn-split, Distinct-split, Touched}
use baremetal_crt_host.Device.Chain.{
  Chain, Distinct, last_of, Chain-NotIn, Chain-behind, find_prev_met, relink, relink-LinkedFrom,
  relink-rest,
}

-- What the driver of the device answers to `remove`, where it has it
abbrev pub remove_status : World → Ptr → Device → Status
remove_status w dev x =
    if has_op (λ ops. ops.remove) x
    then (w.driver (DevCall.remove dev ∷ w.calls)).0
    else Status.success

detach_device_lem :
    (dev : Ptr) (x : Device) (w : World)
    → w.devices dev ≡ some x
    → (w' : World) × (detach_device dev w ≡ done (remove_status w dev x) w')
      × Touched w w' dev x (record x { enabled = false })
unfolding detach_device call_driver
detach_device_lem dev x w there =
    let off : Device = record x { enabled = false } in
    elim (Bool-cases (has_op (λ ops. ops.remove) x)) [
      | inr silent ↦ (
        record w { devices = update w.devices dev (some off) },
        ground arith,
        (ground arith, refl, λ q ne. ground arith, refl, refl),
      )
      | inl told ↦ (
        record w {
          devices = update w.devices dev (some off);
          calls = DevCall.remove dev ∷ w.calls;
        },
        ground arith,
        (ground arith, refl, λ q ne. ground arith, refl, refl),
      )
    ]

-- A device of the list that is touched keeps the list.
Touched-Chain :
    (w w' : World) (dev : Ptr) (x y : Device) (p : Ptr) (front back : List Ptr)
    → w.devices dev ≡ some x
    → Touched w w' dev x y
    → Distinct (front ++ dev ∷ back)
    → Chain w.devices p (front ++ dev ∷ back)
    → Chain w'.devices p (front ++ dev ∷ back)
Touched-Chain w w' dev x y p [] back e (there, link, same, head, num) (apart, d)
      (at, some_q, (z, e', rest)) =
    let one : z ≡ x = ground arith in
    let next : z.dev_next ≡ y.dev_next = ap (λ v. v.dev_next) one ∙ sym link in
    (
      at,
      some_q,
      (
        y,
        there,
        rw (sym next) (Chain-NotIn w.devices w'.devices z.dev_next dev back same apart rest),
      ),
    )
Touched-Chain w w' dev x y p (q ∷ front) back e touched (apart, d) (at, some_q, (z, e', rest)) =
    let (ne, _) = NotIn-split q dev front back apart in
    (
      at,
      some_q,
      (
        z,
        touched.2 q (λ eq. ne (sym eq)) ∙ e',
        Touched-Chain w w' dev x y z.dev_next front back e touched d rest,
      ),
    )

module _ (fuel dev : ℕ) (w : World) (x : Device) (live : IsLiveDevice w dev x) where
  -- A live device of the list of distinct devices, with fuel for those in front of it: `dev_remove`
  -- takes it out of the list, counts one device less, disables the device
  -- and leaves its link, and returns the answer of its driver, or CL_SUCCESS where it has none.
  pub remove-Chain :
      (front back : List Ptr)
      → Chain w.devices w.head_next (front ++ dev ∷ back)
      → Distinct (front ++ dev ∷ back)
      → length front < fuel
      → (w' : World) × (dev_remove fuel dev w ≡ done (remove_status w dev x) w')
        × Chain w'.devices w'.head_next (front ++ back)
        × (w'.dev_num ≡ (w.dev_num + 0xffff_ffff) % u32_mod)
        × (w'.devices dev ≡ some (record x { enabled = false }))
  unfolding dev_remove dev_is_valid
  remove-Chain front back chain distinct enough =
      let (apart, apart', distinct') = Distinct-split dev front back distinct in
      let found = find_prev_met dev back w fuel none front chain apart enough in
      let off : Device = record x { enabled = false } in
      let (w1, detached, touched) = detach_device_lem dev x w live.1 in
      let (there, link, same, head, num) = touched in
      let chain1 : Chain w1.devices w1.head_next (front ++ dev ∷ back) =
        rw head
          (Touched-Chain w w1 dev x off w.head_next front back live.1 touched distinct chain) in
      let behind1 = Chain-behind w1.devices w1.head_next front dev back off chain1 there in
      let (run, new) =
        relink-LinkedFrom w1 none front (dev ∷ back) back x.dev_next chain1 behind1 distinct' tt in
      let w2 = relink w1 (last_of none front) x.dev_next in
      let (kept, num2) = relink-rest w1 front x.dev_next dev apart in
      (
        record w2 { dev_num = (w2.dev_num + 0xffff_ffff) % u32_mod },
        ground (arith, found, detached, run),
        new,
        rw (num2, num) refl,
        kept ∙ there,
      )
