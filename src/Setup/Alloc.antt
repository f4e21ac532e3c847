-- ===== src/Setup/Alloc.antt =====
-- A new device of a driver, with its data.
use baremetal_crt_host.Common.{
  ℕ, ◌+◌, ◌%◌, ◌^◌, ◌≡◌, ◌≢◌, refl, false, none, some, List, ◌∷◌, arith,
}
use baremetal_crt_host.Cl.{Status, icd_magic}
use baremetal_crt_host.Runtime.{Ptr, null, Device, Platform, World, update}
use baremetal_crt_host.Runtime.Monad.{done, calloc_struct}
use baremetal_crt_host.Handles.{plat_is_valid, plat_get_uniq_id}
use baremetal_crt_host.Device.{dev_alloc}
use baremetal_crt_host.Setup.{type_accelerator, Privs, alloc_dev}

abbrev pub IsLivePlatform : World → Ptr → Type 0
IsLivePlatform w p =
    (p ≢ null) × ((x : Platform) × (w.platforms p ≡ some x) × (x.magic ≡ icd_magic))

-- The state with another device at `dev`, a new one or one of which only fields have changed
abbrev pub OnlyDevice : World → World → Ptr → Device → Type 0
OnlyDevice w w' dev x =
    (w'.devices dev ≡ some x)
    × ((q : Ptr) → q ≢ dev → w'.devices q ≡ w.devices q)
    × (w'.head_next ≡ w.head_next)
    × (w'.platforms ≡ w.platforms)

-- The device that `dev_alloc` fills in
abbrev blank_device : Platform → Ptr → (id : ℕ) → Device
blank_device p plat id = record {
  dispatch = p.dispatch;
  magic = icd_magic;
  id = id;
  plat = plat;
  ops = none;
  dev_type = 0;
  enabled = false;
  priv = null;
  dev_next = null;
}

dev_alloc_lem :
    (plat d : Ptr) (p : Platform) (ps : List Ptr) (w : World)
    → plat ≢ null
    → w.platforms plat ≡ some p
    → p.magic ≡ icd_magic
    → w.supply ≡ d ∷ ps
    → d ≢ null
    → dev_alloc plat (some null) w
      ≡ done
          (Status.success, some d)
          (record w {
            supply = ps;
            uniq_id = (w.uniq_id + 1) % 2 ^ 32;
            devices = update w.devices d (some (blank_device p plat w.uniq_id));
          })
unfolding dev_alloc plat_is_valid plat_get_uniq_id calloc_struct
dev_alloc_lem plat d p ps w some_plat live magic supply some_d = ground arith

module _ {P : Type 0} where
  pub alloc_dev_lem :
      (blank : P) (privs : Privs P) (plat d prv : Ptr) (ps : List Ptr) (w : World)
      → IsLivePlatform w plat
      → w.supply ≡ d ∷ prv ∷ ps
      → d ≢ null
      → prv ≢ null
      → (w' : World) × (x : Device) × (alloc_dev blank privs plat (some null) w
          ≡ done (Status.success, some d, update privs prv (some blank)) w')
        × OnlyDevice w w' d x
        × (w'.supply ≡ ps)
        × (x.magic ≡ icd_magic)
        × (x.priv ≡ prv)
        × (x.dev_next ≡ null)
  unfolding alloc_dev calloc_struct
  alloc_dev_lem blank privs plat d prv ps w (some_plat, (p, live, magic)) supply some_d some_prv =
      let run = dev_alloc_lem plat d p (prv ∷ ps) w some_plat live magic supply some_d in
      let x = blank_device p plat w.uniq_id in
      let y : Device = record x { dev_type = type_accelerator } in
      let z : Device = record y { priv = prv } in
      let devs = update (update (update w.devices d (some x)) d (some y)) d (some z) in
      let w' = record w { supply = ps; uniq_id = (w.uniq_id + 1) % 2 ^ 32; devices = devs } in
      (
        w',
        z,
        ground (arith, run),
        (ground arith, λ q ne. ground arith, refl, refl),
        refl,
        refl,
        refl,
        refl,
      )
