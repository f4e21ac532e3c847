-- ===== src/Pci/Setup/Life.antt =====
-- PCI devices from `pci_sysfs_init` to `pci_sysfs_exit`.
use baremetal_crt_host.Common.{
  ℕ, suc, ◌+◌, ◌<◌, ◌≡◌, ◌≢◌, refl, ap, false, Option, none, some, List, [], ◌∷◌, ◌++◌, append-nil,
  length, All, arith,
}
use baremetal_crt_host.Cl.{Status}
use baremetal_crt_host.Runtime.{Ptr, null, World}
use baremetal_crt_host.Runtime.Monad.{done, calloc_struct}
use baremetal_crt_host.Device.Chain.{Chain}
use baremetal_crt_host.Setup.{Privs, DevTable, no_devs, probed, exit_loop, exit_devs}
use baremetal_crt_host.Setup.Alloc.{IsLivePlatform}
use baremetal_crt_host.Setup.Init.{
  Slot, devs_of, infs_of, supply_of, Fresh, IsSetUp, init_loop-Chain, init_loop-exhausted,
}
use baremetal_crt_host.Setup.Exit.{exit_loop-Chain}
use baremetal_crt_host.Pci.Enum.{PciConf, PciEnumInfo, PciFile, pci_sysfs_enum}
use baremetal_crt_host.Pci.Setup.{
  PciData, blank_data, filled_data, pci_sysfs_init, pci_sysfs_exit, pci_init_err_out,
}

length-infs_of : {I : Type 0} (ss : List (Slot I)) → length (infs_of ss) ≡ length ss
length-infs_of [] = refl
length-infs_of (s ∷ ss) = ap suc (length-infs_of ss)

length-devs_of : {I : Type 0} (ss : List (Slot I)) → length (devs_of ss) ≡ length ss
length-devs_of [] = refl
length-devs_of (s ∷ ss) = ap suc (length-devs_of ss)

module _ (probe : PciData → Option PciData) (found : PciEnumInfo → PciData) (fuel platform : ℕ)
    (file : PciFile) (conf : PciConf) (privs : Privs PciData) (table : DevTable)
    (ss : List (Slot PciEnumInfo)) (qs rest : List Ptr) (array : Ptr) (w : World) where
  -- A live platform, the list of devices `qs`, an enumeration that succeeds, then memory at new
  -- addresses, more fuel than the list and the new devices are long, and a probe of the driver that
  -- makes `found` of data with the configuration and what was enumerated (without a probe they are
  -- as filled in): `pci_sysfs_init` succeeds, and its devices stand in their order behind `qs` in
  -- the list, each with the table of the configuration and with the data `found`; `pci_sysfs_exit`
  -- then leaves the list `qs` and frees all those data.
  pub pci_exit-init :
      IsLivePlatform w platform
      → pci_sysfs_enum (some conf) file w
        ≡ done (Status.success, some (infs_of ss)) (record w { supply = array ∷ supply_of ss rest })
      → array ≢ null
      → Chain w.devices w.head_next qs
      → Fresh qs ss
      → length qs + length ss < fuel
      → All (λ s. probed probe conf.ops (filled_data conf s.inf) ≡ some (found s.inf)) ss
      → (w1 w2 : World) × (privs1 privs2 : Privs PciData) × (pci_sysfs_init probe fuel file platform
            (some conf)
            privs
            (some table)
            w
          ≡ done
              (
                Status.success,
                privs1,
                some (record { devs = some (devs_of ss); devs_num = length ss }),
              )
              w1)
        × Chain w1.devices w1.head_next (qs ++ devs_of ss)
        × All (IsSetUp found conf.ops w1 privs1) ss
        × (pci_sysfs_exit fuel privs1
              (some (record { devs = some (devs_of ss); devs_num = length ss }))
              w1
            ≡ done (Status.success, privs2, some no_devs) w2)
        × Chain w2.devices w2.head_next qs
        × All (λ s. privs2 s.prv ≡ none) ss
  unfolding pci_sysfs_init calloc_struct pci_sysfs_exit exit_devs
  pci_exit-init live enumerated some_array chain fresh enough finds =
      let w0 = record w { supply = supply_of ss rest } in
      let (w1, privs1, run, live1, left, chain1, set_up, _, _) =
        init_loop-Chain blank_data (filled_data conf) found probe conf.ops fuel platform ss [] qs
          rest privs w0 live refl chain fresh (omega arith) finds in
      let all_infs = append-nil (infs_of ss) in
      let all_devs = append-nil (devs_of ss) in
      let len = length-infs_of ss in
      let len_devs = length-devs_of ss in
      let (w2, privs2, exited, chain2, freed, _) =
        exit_loop-Chain false fuel found conf.ops ss qs privs1 w1 chain1 fresh.0 fresh.1 set_up
          (omega arith) in
      (
        w1,
        w2,
        privs1,
        privs2,
        ground (arith, enumerated, run, all_infs, all_devs, len),
        chain1,
        set_up,
        ground (arith, exited, len_devs),
        chain2,
        freed,
      )

  -- The same, with the same fuel and probe, but with no memory for one of the enumerated devices behind the
  -- devices of the slots:
  -- `pci_sysfs_init` fails, yet these devices stay in the list, and the table that it leaves is
  -- empty, so that `pci_sysfs_exit` on it changes nothing.
  pub pci_init_keeps_devices :
      (inf : PciEnumInfo) (infs : List PciEnumInfo)
      → IsLivePlatform w platform
      → pci_sysfs_enum (some conf) file w
        ≡ done
            (Status.success, some (infs_of ss ++ inf ∷ infs))
            (record w { supply = array ∷ supply_of ss [] })
      → array ≢ null
      → Chain w.devices w.head_next qs
      → Fresh qs ss
      → length qs + length ss < fuel
      → All (λ s. probed probe conf.ops (filled_data conf s.inf) ≡ some (found s.inf)) ss
      → (w1 : World) × (privs1 : Privs PciData) × (pci_sysfs_init probe fuel file platform
            (some conf)
            privs
            (some table)
            w
          ≡ done (Status.out_of_host_memory, privs1, some no_devs) w1)
        × Chain w1.devices w1.head_next (qs ++ devs_of ss)
        × (pci_sysfs_exit fuel privs1 (some no_devs) w1
            ≡ done (Status.success, privs1, some no_devs) w1)
  unfolding pci_sysfs_init calloc_struct pci_init_err_out pci_sysfs_exit exit_devs exit_loop
  pci_init_keeps_devices inf infs live enumerated some_array chain fresh enough finds =
      let w0 = record w { supply = supply_of ss [] } in
      let (w1, privs1, run, live1, left, chain1, set_up, _, _) =
        init_loop-Chain blank_data (filled_data conf) found probe conf.ops fuel platform ss
          (inf ∷ infs) qs [] privs w0 live refl chain fresh (omega arith) finds in
      let stopped =
        init_loop-exhausted blank_data (filled_data conf) found probe conf.ops fuel platform inf
          infs privs1 w1 live1 left in
      (w1, privs1, ground (arith, enumerated, run, stopped), chain1, refl)
