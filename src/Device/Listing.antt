-- ===== src/Device/Listing.antt =====
-- What `dev_get_devices` gives, compared with the list of devices.
use Prim.Native.Nat.{bit_and}
use baremetal_crt_host.Common.{
  ℕ, zero, suc, ◌+◌, ◌<◌, ◌≡◌, Bool, true, false, ◌&&◌, not, Option, none, some, List, [], ◌∷◌,
  ◌==◌, if◌then◌else◌, length, take, arith,
}
use baremetal_crt_host.Cl.{Status, u32_mod}
use baremetal_crt_host.Runtime.{Ptr, Device, World}
use baremetal_crt_host.Runtime.Monad.{done}
use baremetal_crt_host.Device.Registry.{get_devices_loop, dev_get_devices}
use baremetal_crt_host.Device.Chain.{Devices, Chain, LinkedFrom, next_of_nil, next_of_cons}

-- A device of the type that is enabled
abbrev pub is_offered : (typ : ℕ) → Option Device → Bool
is_offered typ none = false
is_offered typ (some x) = not (bit_and x.dev_type typ == 0) && x.enabled

abbrev pub matching : Devices → (typ : ℕ) → List Ptr → List Ptr
matching devs typ [] = []
matching devs typ (q ∷ qs) =
    if is_offered typ (devs q) then q ∷ matching devs typ qs else matching devs typ qs

module _ (typ sz : ℕ) (w : World) where
  loop-count :
      (fuel cnt : ℕ) (d : Option Ptr) (qs : List Ptr)
      → LinkedFrom w d qs
      → length qs < fuel
      → cnt + length qs < u32_mod
      → get_devices_loop fuel false typ sz d cnt w
        ≡ done (cnt + length (matching w.devices typ qs), []) w
  unfolding get_devices_loop
  loop-count zero cnt d qs linked enough few = absurd (omega arith)
  loop-count (suc fuel) cnt d [] linked enough few =
      let e = next_of_nil d w linked in ground (arith, e)
  loop-count (suc fuel) cnt d (q ∷ qs) linked enough few =
      let (e, some_q, (x, there, rest)) = next_of_cons d q qs w linked in
      let skip = loop-count fuel cnt (some q) qs (x, there, rest) (omega arith) (omega arith) in
      let next =
        loop-count fuel (cnt + 1) (some q) qs (x, there, rest) (omega arith) (omega arith) in
      ground (arith, e, there, skip, next)

  -- With room for `left` more
  loop-take :
      (fuel cnt left : ℕ) (d : Option Ptr) (qs : List Ptr)
      → cnt + suc left ≡ sz
      → LinkedFrom w d qs
      → length qs < fuel
      → cnt + length qs < u32_mod
      → get_devices_loop fuel true typ sz d cnt w
        ≡ done
            (
              cnt + length (take (suc left) (matching w.devices typ qs)),
              take (suc left) (matching w.devices typ qs),
            )
            w
  unfolding get_devices_loop
  loop-take zero cnt left d qs room linked enough few = absurd (omega arith)
  loop-take (suc fuel) cnt left d [] room linked enough few =
      let e = next_of_nil d w linked in ground (arith, e)
  loop-take (suc fuel) cnt zero d (q ∷ qs) room linked enough few =
      let (e, some_q, (x, there, rest)) = next_of_cons d q qs w linked in
      let skip =
        loop-take fuel cnt zero (some q) qs room (x, there, rest) (omega arith) (omega arith) in
      ground (arith, e, there, skip)
  loop-take (suc fuel) cnt (suc left) d (q ∷ qs) room linked enough few =
      let (e, some_q, (x, there, rest)) = next_of_cons d q qs w linked in
      let skip =
        loop-take fuel cnt (suc left) (some q) qs room (x, there, rest) (omega arith)
          (omega arith) in
      let next =
        loop-take fuel (cnt + 1) left (some q) qs (omega arith) (x, there, rest) (omega arith)
          (omega arith) in
      ground (arith, e, there, skip, next)

-- CL_DEVICE_NOT_FOUND for no device
abbrev pub found_status : ℕ → Status
found_status n = if n == 0 then Status.device_not_found else Status.success

-- A list of fewer than 2^32 devices, with fuel for it: without an array `dev_get_devices` counts
-- the enabled devices of the type; with an array and a size `sz` that is not 0 it stores the first
-- `sz` of them in the order of the list, and gives their number. It reports CL_DEVICE_NOT_FOUND
-- where that is 0, and CL_SUCCESS elsewhere, and changes no device.
pub get_devices-matching :
    (fuel typ sz : ℕ) (qs : List Ptr) (w : World)
    → Chain w.devices w.head_next qs
    → length qs < fuel
    → length qs < u32_mod
    → 0 < sz
    → (dev_get_devices fuel false typ (some sz) w
        ≡ done
            (
              found_status (length (matching w.devices typ qs)),
              some (length (matching w.devices typ qs)),
              [],
            )
            w)
      × (dev_get_devices fuel true typ (some sz) w
          ≡ done
              (
                found_status (length (take sz (matching w.devices typ qs))),
                some (length (take sz (matching w.devices typ qs))),
                take sz (matching w.devices typ qs),
              )
              w)
unfolding dev_get_devices
get_devices-matching fuel typ zero qs w chain enough few some_sz = absurd (omega arith)
get_devices-matching fuel typ (suc left) qs w chain enough few some_sz =
    let counted = loop-count typ (suc left) w fuel 0 none qs chain enough (omega arith) in
    let taken =
      loop-take typ (suc left) w fuel 0 left none qs (omega arith) chain enough (omega arith) in
    (ground (arith, counted), ground (arith, taken))
