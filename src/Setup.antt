-- ===== src/Setup.antt =====
-- What the drivers of drivers/gdb/gdb_remote.c and drivers/pci/pci_sysfs.c do alike with their
-- devices: allocation, the loops of their `*_init` and `*_exit`. The data of a driver behind `priv`
-- is a type `P`, and `privs` is the store of those data.
pub mod Kept
pub mod Alloc
pub mod Init
pub mod Exit
use baremetal_crt_host.Common.{
  ℕ, zero, suc, if◌then◌else◌, Bool, true, false, not, Option, none, some, List, [], ◌∷◌, ◌==◌,
}
use baremetal_crt_host.Cl.{Status, is_success}
use baremetal_crt_host.Runtime.{Ptr, null, DevOps, update}
use baremetal_crt_host.Runtime.Monad.{
  fault, M, pure, test◌then◌else◌, on_option, ◌>>=◌, ◌>>◌, calloc_struct,
}
use baremetal_crt_host.Handles.{load_device, put_device}
use baremetal_crt_host.Device.{dev_alloc, dev_free}
use baremetal_crt_host.Device.Registry.{dev_add, dev_remove}

-- CL_DEVICE_TYPE_ACCELERATOR, `1 << 3`
abbrev pub type_accelerator : ℕ
type_accelerator = 8

-- `*devs` and `*devs_num` of a driver: the array of its devices, `none` for NULL, and their number
pub record DevTable : Type 0 where
  pub devs : Option (List Ptr)
  pub devs_num : ℕ

-- `*devs = NULL; *devs_num = 0;`
abbrev pub no_devs : DevTable
no_devs = record { devs = none; devs_num = 0 }

abbrev pub Privs : Type 0 → Type 0
Privs P = Ptr → Option P

module _ {P : Type 0} where
  -- `*_alloc_dev`, where `blank` is what the driver writes into new data: the status, `*pdev`, and
  -- the data
  unfoldable pub alloc_dev : P → Privs P → Ptr → Option Ptr → M (Status × Option Ptr × Privs P)
  unfolding dev_alloc calloc_struct
  alloc_dev blank privs platform pdev = do
    (r, pdev') ← dev_alloc platform pdev
    test not (is_success r)
        then pure (r, pdev', privs)
        else on_option pdev' (λ w. fault)
            λ dev. do
              d ← load_device dev
              put_device dev (some (record d { dev_type = type_accelerator }))
              prv ← calloc_struct
              test prv == null then pure (Status.out_of_host_memory, some dev, privs) else do
                e ← load_device dev
                put_device dev (some (record e { priv = prv }))
                pure (Status.success, some dev, update privs prv (some blank))

  -- `*_free_dev`, where `clear` tells whether the driver sets `priv` to NULL; data that are not
  -- there are freed twice, a fault.
  unfoldable pub free_dev : (clear : Bool) → Privs P → Ptr → M (Status × Privs P)
  unfolding dev_free
  free_dev clear privs dev = test dev == null then pure (Status.success, privs) else do
    d ← load_device dev
    test d.priv == null
        then (do r ← dev_free dev; pure (r, privs))
        else on_option (privs d.priv) (λ w. fault)
            λ _. do
              test clear then put_device dev (some (record d { priv = null })) else pure tt
              r ← dev_free dev
              pure (r, update privs d.priv none)

  -- The data of a device after `dev_add` has called `ops->probe`, where `probe` is what this function
  -- does with them; `none` for a write outside them
  abbrev pub probed : (P → Option P) → DevOps → P → Option P
  probed probe ops v = if ops.probe then probe v else some v

  -- The loop of `*_init` over what `*_enum` gave, where `filled` is what the driver writes into the
  -- data of a device, and `probe` what its probe then does with them; the devices that it stores in
  -- the array
  unfoldable pub init_loop :
      {I : Type 0}
      → (blank : P) → (filled : I → P) → (probe : P → Option P) → DevOps
      → (fuel : ℕ) → Ptr
      → Privs P
      → List I
      → M (Status × List Ptr × Privs P)
  unfolding alloc_dev
  init_loop blank filled probe ops fuel platform privs [] = pure (Status.success, [], privs)
  init_loop blank filled probe ops fuel platform privs (inf ∷ infs) = do
    (r, pdev, privs') ← alloc_dev blank privs platform (some null)
    test not (is_success r)
        then pure (r, [], privs')
        else on_option pdev (λ w. fault)
            λ dev. do
              d ← load_device dev
              put_device dev (some (record d { ops = some ops }))
              let privs'' : Privs P = update privs' d.priv (some (filled inf))
              r' ← dev_add fuel dev
              test not (is_success r')
                  then pure (r', [], privs'')
                  else on_option (probed probe ops (filled inf)) (λ w. fault)
                      λ v. do
                        let privs3 : Privs P = update privs'' d.priv (some v)
                        (r'', devs, privs4) ←
                            init_loop blank filled probe ops fuel platform privs3 infs
                        pure (r'', dev ∷ devs, privs4)

  -- The loop of `*_exit` over `n` devices of the array. What the driver's `remove` writes into the
  -- data of a device is left out, since the data are freed next and not read before.
  unfoldable pub exit_loop :
      (clear : Bool) → (fuel : ℕ) → Privs P → List Ptr → (n : ℕ) → M (Privs P)
  unfolding free_dev
  exit_loop clear fuel privs devs zero = pure privs
  exit_loop clear fuel privs [] (suc n) = λ w. fault
  exit_loop clear fuel privs (dev ∷ devs) (suc n) = do
    _ ← dev_remove fuel dev
    (_, privs') ← free_dev clear privs dev
    exit_loop clear fuel privs' devs n

  -- `*_exit`; `none` for a table without one of its two pointers
  unfoldable pub exit_devs :
      (clear : Bool)
      → (fuel : ℕ) → Privs P
      → Option DevTable
      → M (Status × Privs P × Option DevTable)
  unfolding exit_loop
  exit_devs clear fuel privs none = pure (Status.invalid_value, privs, none)
  exit_devs clear fuel privs (some table) = do
    let devs : List Ptr = elim table.devs [ none ↦ [] | some ds ↦ ds ]
    privs' ← exit_loop clear fuel privs devs table.devs_num
    pure (Status.success, privs', some no_devs)
