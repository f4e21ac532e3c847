-- ===== src/Device/Stale.antt =====
-- A device that is taken out of the list and put back in.
use baremetal_crt_host.Common.{
  ℕ, zero, suc, ◌+◌, ◌%◌, ◌<◌, ◌≡◌, ◌≢◌, refl, sym, ◌∙◌, false, none, some, [], ◌∷◌, arith,
}
use baremetal_crt_host.Cl.{Status, u32_mod}
use baremetal_crt_host.Runtime.{Ptr, null, Device, World, update}
use baremetal_crt_host.Runtime.Monad.{done, out_of_fuel}
use baremetal_crt_host.Handles.{dev_is_valid}
use baremetal_crt_host.Context.Life.{IsLiveDevice}
use baremetal_crt_host.Device.Registry.{
  next_of, set_next, dev_add, dev_remove, get_devices_loop, dev_get_devices,
}
use baremetal_crt_host.Device.Add.{probe_device_lem, accepts}
use baremetal_crt_host.Device.Remove.{remove_status, remove-Chain}
use baremetal_crt_host.Device.Chain.{Chain, find_last-NotIn, Chain-behind}

-- Two devices whose links lead to each other
abbrev pub IsCycle : World → (a b : Ptr) → Type 0
IsCycle w a b =
    (a ≢ null)
    × (b ≢ null)
    × ((x : Device) × (w.devices a ≡ some x) × (x.dev_next ≡ b))
    × ((y : Device) × (w.devices b ≡ some y) × (y.dev_next ≡ a))

cycle-out_of_fuel :
    (fuel typ sz cnt : ℕ) (a b : Ptr) (w : World)
    → IsCycle w a b
    → get_devices_loop fuel false typ sz (some a) cnt w ≡ out_of_fuel
unfolding get_devices_loop next_of
cycle-out_of_fuel zero typ sz cnt a b w cycle = ground arith
cycle-out_of_fuel (suc fuel) typ sz cnt a b w
      (some_a, some_b, (x, there_a, to_b), (y, there_b, to_a)) =
    let back : IsCycle w b a = (some_b, some_a, (y, there_b, to_a), (x, there_a, to_b)) in
    let same = cycle-out_of_fuel fuel typ sz cnt b a w back in
    let more = cycle-out_of_fuel fuel typ sz ((cnt + 1) % u32_mod) b a w back in
    ground (arith, same, more)

head_cycle-out_of_fuel :
    (fuel typ sz : ℕ) (a b : Ptr) (w : World)
    → w.head_next ≡ a
    → IsCycle w a b
    → dev_get_devices fuel false typ (some sz) w ≡ out_of_fuel
unfolding dev_get_devices get_devices_loop next_of
head_cycle-out_of_fuel zero typ sz a b w head cycle = ground arith
head_cycle-out_of_fuel (suc fuel) typ sz a b w head (some_a, some_b, (x, there_a, to_b), b_to_a) =
    let cycle : IsCycle w a b = (some_a, some_b, (x, there_a, to_b), b_to_a) in
    let same = cycle-out_of_fuel fuel typ sz 0 a b w cycle in
    let more = cycle-out_of_fuel fuel typ sz 1 a b w cycle in ground (arith, same, more)

-- The list holds two live devices, `a` in front of `b`, and the fuel `n` is enough for it. Where `a` is removed and added again, both
-- with success, `dev_remove` has left the link of `a`, so that the links of `a` and `b` lead to
-- each other: a `dev_get_devices` without an array never ends, whatever the fuel.
pub readded_device-cycle :
    (n : ℕ) (a b : Ptr) (x y : Device) (w : World)
    → 1 < n
    → IsLiveDevice w a x
    → IsLiveDevice w b y
    → a ≢ b
    → Chain w.devices w.head_next (a ∷ b ∷ [])
    → remove_status w a x ≡ Status.success
    → (w1 w2 : World) × (dev_remove n a w ≡ done Status.success w1)
      × (dev_add n a w1 ≡ done Status.success w2)
      × ((fuel typ sz : ℕ) → dev_get_devices fuel false typ (some sz) w2 ≡ out_of_fuel)
unfolding dev_add dev_is_valid set_next
readded_device-cycle n a b x y w enough live_a live_b ne chain good =
    let off : Device = record x { enabled = false } in
    let (w1, removed, chain1, num, there1) =
      remove-Chain n a w x live_a [] (b ∷ []) chain ((λ e. ne (sym e), tt), (tt, tt))
        (omega arith) in
    let (head1, some_b, (y1, there_b, end_b)) = chain1 in
    let found = find_last-NotIn n a none (b ∷ []) w1 chain1 (λ e. ne (sym e), tt) (omega arith) in
    let (w2, probed, (there2, link, same, head2, num2)) = probe_device_lem a off w1 there1 in
    let still_b = same b (λ e. ne (sym e)) in
    let z : Device = record y1 { dev_next = a } in
    let w3 = record w2 { devices = update w2.devices b (some z) } in
    let w4 = record w3 { dev_num = (w3.dev_num + 1) % u32_mod } in
    let to_b : x.dev_next ≡ b =
      (Chain-behind w.devices w.head_next [] a (b ∷ []) x chain live_a.1).0 in
    let cycle : IsCycle w4 b a = (
      some_b,
      live_a.0,
      (z, ground arith, refl),
      (record off { enabled = accepts w1 a off }, ground arith, to_b),
    ) in
    (
      w1,
      w4,
      rw (sym good) removed,
      ground (arith, found, probed, still_b, there_b),
      λ fuel typ sz. head_cycle-out_of_fuel fuel typ sz b a w4 (head2 ∙ head1) cycle,
    )
