-- ===== src/Device/Add.antt =====
-- `dev_add` on the list of devices.
use baremetal_crt_host.Common.{
  ℕ, ◌+◌, ◌%◌, ◌<◌, ◌≡◌, ◌≢◌, refl, sym, ◌∙◌, Bool, true, false, none, some, List, [], ◌∷◌, ◌++◌,
  if◌then◌else◌, length, append-nil, Bool-cases, inl, inr, arith,
}
use baremetal_crt_host.Cl.{Status, is_success, u32_mod}
use baremetal_crt_host.Runtime.{Ptr, DevCall, Device, World, update}
use baremetal_crt_host.Runtime.Monad.{done}
use baremetal_crt_host.Handles.{dev_is_valid}
use baremetal_crt_host.Context.Life.{IsLiveDevice}
use baremetal_crt_host.Device.{call_driver}
use baremetal_crt_host.Device.Registry.{has_op, probe_device, dev_add}
use baremetal_crt_host.Device.Chain.{
  Chain, NotIn, Distinct, last_of, Chain-NotIn, find_last-NotIn, find_last_met, relink,
  relink-LinkedFrom, relink-rest,
}

-- What the driver of the device answers to `probe`, where it has it
abbrev pub accepts : World → Ptr → Device → Bool
accepts w dev x =
    if has_op (λ ops. ops.probe) x
    then is_success (w.driver (DevCall.probe dev ∷ w.calls)).0
    else true

pub NotIn-split :
    (q dev : Ptr) (front rest : List Ptr)
    → NotIn q (front ++ dev ∷ rest)
    → (dev ≢ q) × NotIn q (front ++ rest)
NotIn-split q dev [] rest (ne, apart) = (ne, apart)
NotIn-split q dev (q' ∷ front) rest (ne, apart) =
    let (a, b) = NotIn-split q dev front rest apart in (a, (ne, b))

-- Distinct devices stay so without the one behind `front`, which is none of the others.
pub Distinct-split :
    (dev : Ptr) (front rest : List Ptr)
    → Distinct (front ++ dev ∷ rest)
    → NotIn dev front × NotIn dev (front ++ rest) × Distinct (front ++ rest)
Distinct-split dev [] rest (apart, distinct) = (tt, apart, distinct)
Distinct-split dev (q ∷ front) rest (apart, distinct) =
    let (a, b, c) = Distinct-split dev front rest distinct in
    let (ne, apart') = NotIn-split q dev front rest apart in
    ((λ e. ne (sym e), a), (λ e. ne (sym e), b), (apart', c))

pub NotIn-append : (d : Ptr) (qs rs : List Ptr) → NotIn d (qs ++ rs) → NotIn d qs × NotIn d rs
NotIn-append d [] rs apart = (tt, apart)
NotIn-append d (q ∷ qs) rs (ne, apart) = let (a, b) = NotIn-append d qs rs apart in ((ne, a), b)

pub Distinct-append : (qs rs : List Ptr) → Distinct (qs ++ rs) → Distinct qs × Distinct rs
Distinct-append [] rs distinct = (tt, distinct)
Distinct-append (q ∷ qs) rs (apart, distinct) =
    let (a, b) = Distinct-append qs rs distinct in (((NotIn-append q qs rs apart).0, a), b)

-- The states that the middle of `dev_add` and `dev_remove` leaves: only the device `dev` is
-- another one, with the same link.
abbrev pub Touched : World → World → Ptr → Device → Device → Type 0
Touched w w' dev x y =
    (w'.devices dev ≡ some y)
    × (y.dev_next ≡ x.dev_next)
    × ((q : Ptr) → q ≢ dev → w'.devices q ≡ w.devices q)
    × (w'.head_next ≡ w.head_next)
    × (w'.dev_num ≡ w.dev_num)

pub probe_device_lem :
    (dev : Ptr) (x : Device) (w : World)
    → w.devices dev ≡ some x
    → (w' : World) × (probe_device dev w ≡ done tt w')
      × Touched w w' dev x (record x { enabled = accepts w dev x })
unfolding probe_device call_driver
probe_device_lem dev x w there = elim (Bool-cases (has_op (λ ops. ops.probe) x)) [
  | inr no_probe ↦ (
    record w { devices = update w.devices dev (some (record x { enabled = true })) },
    ground arith,
    (ground arith, refl, λ q ne. ground arith, refl, refl),
  )
  | inl probed ↦
      let calls = DevCall.probe dev ∷ w.calls in
      let on : Device = record x { enabled = true } in
      let off : Device = record x { enabled = false } in
      elim (Bool-cases (is_success (w.driver calls).0)) [
        | inl good ↦ (
          record w { devices = update w.devices dev (some on); calls = calls },
          ground arith,
          (ground arith, refl, λ q ne. ground arith, refl, refl),
        )
        | inr bad ↦ (
          record w {
            devices = update (update w.devices dev (some on)) dev (some off);
            calls = calls;
          },
          ground arith,
          (ground arith, refl, λ q ne. ground arith, refl, refl),
        )
      ]
]

module _ (fuel dev : ℕ) (w : World) (x : Device) (live : IsLiveDevice w dev x) where
  -- A live device that is not in the list of distinct devices, whose link leads through `rest` to
  -- NULL, with fuel for the list: `dev_add` succeeds, the list is the old one, the device, and what
  -- its link led to, the number of devices grows by one, and the device is enabled where its driver
  -- accepts it or does not probe.
  pub add-Chain :
      (qs rest : List Ptr)
      → Chain w.devices w.head_next qs
      → Chain w.devices x.dev_next rest
      → Distinct (qs ++ dev ∷ rest)
      → length qs < fuel
      → (w' : World) × (y : Device) × (dev_add fuel dev w ≡ done Status.success w')
        × Chain w'.devices w'.head_next (qs ++ dev ∷ rest)
        × (w'.dev_num ≡ (w.dev_num + 1) % u32_mod)
        × (w'.devices dev ≡ some y)
        × (y.enabled ≡ accepts w dev x)
  unfolding dev_add dev_is_valid
  add-Chain qs rest chain behind distinct enough =
      let (apart, apart', distinct') = Distinct-split dev qs rest distinct in
      let found = find_last-NotIn fuel dev none qs w chain apart enough in
      let (w1, probed, (there, link, same, head, num)) = probe_device_lem dev x w live.1 in
      let chain1 : Chain w1.devices w1.head_next (qs ++ []) =
        rw (append-nil qs, head)
          (Chain-NotIn w.devices w1.devices w.head_next dev qs same apart chain) in
      let behind1 =
        Chain-NotIn w.devices w1.devices x.dev_next dev rest same
          (NotIn-append dev qs rest apart').1 behind in
      let (run, new) =
        relink-LinkedFrom w1 none qs [] (dev ∷ rest) dev chain1
          (refl, live.0, (record x { enabled = accepts w dev x }, there, behind1)) distinct tt in
      let w2 = relink w1 (last_of none qs) dev in
      let (kept, num2) = relink-rest w1 qs dev dev apart in
      (
        record w2 { dev_num = (w2.dev_num + 1) % u32_mod },
        record x { enabled = accepts w dev x },
        ground (arith, found, probed, run),
        new,
        rw (num2, num) refl,
        kept ∙ there,
        refl,
      )

  -- A live device of the list, with fuel for the devices in front of it: `dev_add` refuses it and
  -- changes nothing.
  pub add_twice :
      (front back : List Ptr)
      → Chain w.devices w.head_next (front ++ dev ∷ back)
      → Distinct (front ++ dev ∷ back)
      → length front < fuel
      → dev_add fuel dev w ≡ done Status.invalid_value w
  unfolding dev_add dev_is_valid
  add_twice front back chain distinct enough =
      let met =
        find_last_met dev back w fuel none front chain (Distinct-split dev front back distinct).0
          enough in
      ground (arith, met)
