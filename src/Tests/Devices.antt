-- ===== src/Tests/Devices.antt =====
-- The list of devices on small inputs.
use baremetal_crt_host.Common.{
  ℕ, ◌≡◌, refl, true, false, Option, none, some, [], ◌∷◌, ◌==◌, if◌then◌else◌, arith,
}
use baremetal_crt_host.Cl.{Status}
use baremetal_crt_host.Runtime.{Device, World}
use baremetal_crt_host.Runtime.Monad.{done, out_of_fuel, pure}
use baremetal_crt_host.Device.Registry.{
  DevGroup, dev_add, dev_remove, dev_get_devices, dev_init, init_groups,
}
use baremetal_crt_host.Device.Chain.{Chain}
use baremetal_crt_host.Device.Add.{add-Chain}
use baremetal_crt_host.Device.Remove.{remove-Chain}
use baremetal_crt_host.Device.Listing.{get_devices-matching}
use baremetal_crt_host.Device.Stale.{readded_device-cycle}
use baremetal_crt_host.Tests.Data.{small_world, device_1}

-- The devices 20 and 21 are in the list, 22 is not.
abbrev first : Device
first = record device_1 { dev_next = 21 }

abbrev three_devices : ℕ → Option Device
three_devices q =
    if q == 20
    then some first
    else if q == 21
    then some device_1
    else if q == 22
    then some device_1
    else none

abbrev list_world : World
list_world = record small_world { devices = three_devices; head_next = 20; dev_num = 2 }

list_1 : Chain three_devices 20 (20 ∷ 21 ∷ [])
list_1 = (refl, ground arith, (first, refl, (refl, ground arith, (device_1, refl, refl))))

add-Chain_example :
    (w' : World) × (y : Device) × (dev_add 3 22 list_world ≡ done Status.success w')
    × Chain w'.devices w'.head_next (20 ∷ 21 ∷ 22 ∷ [])
    × (w'.dev_num ≡ 3)
    × (w'.devices 22 ≡ some y)
    × (y.enabled ≡ true)
add-Chain_example =
    add-Chain 3 22 list_world device_1 (ground arith, refl, refl) (20 ∷ 21 ∷ []) [] list_1 refl
      ((ground arith, (ground arith, tt)), ((ground arith, tt), (tt, tt))) (omega arith)

remove-Chain_example :
    (w' : World) × (dev_remove 3 20 list_world ≡ done Status.success w')
    × Chain w'.devices w'.head_next (21 ∷ [])
    × (w'.dev_num ≡ 1)
    × (w'.devices 20 ≡ some (record first { enabled = false }))
remove-Chain_example =
    remove-Chain 3 20 list_world first (ground arith, refl, refl) [] (21 ∷ []) list_1
      ((ground arith, tt), (tt, tt)) (omega arith)

get_devices-matching_example :
    (dev_get_devices 3 false 1 (some 1) list_world ≡ done (Status.success, some 2, []) list_world)
    × (dev_get_devices 3 true 1 (some 1) list_world
        ≡ done (Status.success, some 1, 20 ∷ []) list_world)
get_devices-matching_example =
    get_devices-matching 3 1 1 (20 ∷ 21 ∷ []) list_world list_1 (omega arith) (omega arith)
      (omega arith)

readded_device-cycle_example :
    (w1 w2 : World) × (dev_remove 3 20 list_world ≡ done Status.success w1)
    × (dev_add 3 20 w1 ≡ done Status.success w2)
    × ((fuel typ sz : ℕ) → dev_get_devices fuel false typ (some sz) w2 ≡ out_of_fuel)
readded_device-cycle_example =
    readded_device-cycle 3 20 21 first device_1 list_world (omega arith) (ground arith, refl, refl)
      (ground arith, refl, refl) (ground arith) list_1 refl

-- A group whose set-up fails
abbrev failing : DevGroup
failing = record { init = some (λ _. pure Status.device_not_found); exit = none; inited = false }

failing_once :
    dev_init (failing ∷ []) 10 list_world
    ≡ done (Status.device_not_found, record failing { inited = true } ∷ []) list_world
unfolding dev_init init_groups
failing_once = refl
