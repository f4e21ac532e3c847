-- ===== src/Gdb/Setup/Life.antt =====
-- GDB devices from `gdb_remote_init` to `gdb_remote_exit`.
use baremetal_crt_host.Common.{
  ℕ, ◌+◌, ◌<◌, ◌≡◌, ◌≢◌, true, Option, none, some, List, [], ◌∷◌, ◌++◌, Bytes, length, refl, arith,
}
use baremetal_crt_host.Cl.{Status}
use baremetal_crt_host.Runtime.{Ptr, null, World}
use baremetal_crt_host.Runtime.Monad.{done, fault, calloc_struct}
use baremetal_crt_host.Device.Chain.{Chain}
use baremetal_crt_host.Setup.{Privs, DevTable, no_devs, probed, init_loop, exit_loop, exit_devs}
use baremetal_crt_host.Setup.Alloc.{IsLivePlatform}
use baremetal_crt_host.Setup.Init.{Slot, Fresh, IsSetUp, init_loop-Chain}
use baremetal_crt_host.Setup.Exit.{exit_loop-Chain}
use baremetal_crt_host.Gdb.Setup.{
  RemoteConf, RemoteInfo, RemoteData, blank_remote, filled_remote, with_env, gdb_remote_enum,
  gdb_remote_init, gdb_remote_exit, gdb_remote_openocd_init, gdb_remote_openocd_exit,
}

module _ (probe : RemoteData → Option RemoteData) (host port : Option Bytes) (fuel platform : ℕ)
    (conf : RemoteConf) (privs : Privs RemoteData) (table : DevTable) (inf : Ptr) (w : World) where
  -- A live platform, whose list of devices is `qs`, memory for the set-up, at new addresses, and fuel
  -- for the list with one more device: `gdb_remote_openocd_init` adds one device behind the list.
  -- Its data hold what the driver's probe makes of the configuration and of the host and the port
  -- of the environment, or those of the configuration where the environment does not name them.
  -- `gdb_remote_openocd_exit` then leaves the list `qs` and frees the data of the device.
  pub openocd_exit-init :
      (qs rest : List Ptr) (array dev prv : Ptr) (found : RemoteData)
      → IsLivePlatform w platform
      → w.supply ≡ inf ∷ array ∷ dev ∷ prv ∷ rest
      → inf ≢ null
      → array ≢ null
      → Chain w.devices w.head_next qs
      → let conf' = with_env host port conf in
        let info : RemoteInfo = record { node = conf'.node; service = conf'.service } in
        let slot : Slot RemoteInfo = record { dev = dev; prv = prv; inf = info } in
        let one : DevTable = record { devs = some (dev ∷ []); devs_num = 1 } in
        Fresh qs (slot ∷ [])
        → length qs + 1 < fuel
        → probed probe conf.ops (filled_remote conf' info) ≡ some found
        → (w1 w2 : World) × (privs1 privs2 : Privs RemoteData) × (gdb_remote_openocd_init probe host
              port fuel platform conf privs table w
            ≡ done (conf', (Status.success, privs1, some one)) w1)
          × Chain w1.devices w1.head_next (qs ++ dev ∷ [])
          × IsSetUp (λ x. found) conf.ops w1 privs1 slot
          × (gdb_remote_openocd_exit fuel privs1 one w1
              ≡ done (Status.success, privs2, some no_devs) w2)
          × Chain w2.devices w2.head_next qs
          × (privs2 prv ≡ none)
  unfolding gdb_remote_openocd_init gdb_remote_init gdb_remote_enum calloc_struct
      gdb_remote_openocd_exit gdb_remote_exit exit_devs init_loop
  openocd_exit-init qs rest array dev prv found live supply some_inf some_array chain fresh enough
        finds =
      let conf' = with_env host port conf in
      let info : RemoteInfo = record { node = conf'.node; service = conf'.service } in
      let slot : Slot RemoteInfo = record { dev = dev; prv = prv; inf = info } in
      let w0 = record w { supply = dev ∷ prv ∷ rest } in
      let (w1, privs1, run, live1, left, chain1, set_up, _, _) =
        init_loop-Chain blank_remote (filled_remote conf') (λ x. found) probe conf.ops fuel platform
          (slot ∷ []) [] qs rest privs w0 live refl chain fresh (omega arith) (finds, tt) in
      let (w2, privs2, exited, chain2, freed, _) =
        exit_loop-Chain true fuel (λ x. found) conf.ops (slot ∷ []) qs privs1 w1 chain1 fresh.0
          fresh.1 set_up (omega arith) in
      (
        w1,
        w2,
        privs1,
        privs2,
        ground (arith, supply, run),
        chain1,
        set_up.0,
        ground (arith, exited),
        chain2,
        freed.0,
      )

  -- Memory for the array of `gdb_remote_enum`, and none for the array of devices: `gdb_remote_init`
  -- fails and leaves a table with one device and no array, on which `gdb_remote_exit` faults.
  pub remote_init_no_array-exit :
      (rest : List Ptr)
      → w.supply ≡ inf ∷ null ∷ rest
      → inf ≢ null
      → (w1 : World) × (left : DevTable) × (gdb_remote_init probe fuel platform
            (some conf)
            privs
            (some table)
            w
          ≡ done (Status.out_of_host_memory, privs, some left) w1)
        × (gdb_remote_exit fuel privs (some left) w1 ≡ fault)
  unfolding gdb_remote_init gdb_remote_enum calloc_struct gdb_remote_exit exit_devs exit_loop
  remote_init_no_array-exit rest supply some_inf =
      (record w { supply = rest }, record { devs = none; devs_num = 1 }, ground arith, ground arith)
