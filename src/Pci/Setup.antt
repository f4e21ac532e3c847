-- ===== src/Pci/Setup.antt =====
-- The devices of drivers/pci/pci_sysfs.c: their data, `pci_sysfs_alloc_dev`, `pci_sysfs_free_dev`,
-- `pci_sysfs_init` and `pci_sysfs_exit`, with the tables of drivers/pci/pci_sysfs_test.c. A file
-- descriptor is `none` for -1.
pub mod Life
use baremetal_crt_host.Common.{
  ℕ, ◌+◌, ◌*◌, Bool, true, false, not, Option, none, some, List, [], ◌∷◌, ◌==◌, length, replicate,
}
use baremetal_crt_host.Cl.{Status, is_success}
use baremetal_crt_host.Runtime.{Ptr, null, DevOps}
use baremetal_crt_host.Runtime.Monad.{M, pure, test◌then◌else◌, on_option, ◌>>=◌, calloc_struct}
use baremetal_crt_host.Setup.{Privs, DevTable, no_devs, alloc_dev, free_dev, init_loop, exit_devs}
use baremetal_crt_host.Pci.{PciMemmap}
use baremetal_crt_host.Pci.Enum.{PciDevId, PciConf, PciEnumInfo, PciFile, pci_sysfs_enum}

-- struct pci_sysfs_resource
pub record PciResource : Type 0 where
  pub bar : ℕ
  pub bar_size : ℕ
  pub is_64 : Bool
  pub valid : Bool
  pub fd : Option ℕ
  pub buf : Ptr

-- struct pci_sysfs_priv without `sysfs_path`, which the code makes of `info` where it is used
pub record PciData : Type 0 where
  pub conf : Option PciConf
  pub info : PciEnumInfo
  pub fd_config : Option ℕ
  pub pci_res : List PciResource

-- PCI_RES_MAX
abbrev pub pci_res_max : ℕ
pci_res_max = 6

-- What `pci_sysfs_alloc_dev` leaves in new data, which `calloc` has filled with zeros
abbrev pub blank_data : PciData
blank_data = record {
  conf = none;
  info = record { pcibus = 0; pcidev = 0; pcifn = 0; vendor = 0; device = 0 };
  fd_config = none;
  pci_res =
      replicate pci_res_max
        (record { bar = 0; bar_size = 0; is_64 = false; valid = false; fd = none; buf = null });
}

unfoldable pub pci_sysfs_alloc_dev :
    Privs PciData → Ptr → Option Ptr → M (Status × Option Ptr × Privs PciData)
unfolding alloc_dev
pci_sysfs_alloc_dev = alloc_dev blank_data

unfoldable pub pci_sysfs_free_dev : Privs PciData → Ptr → M (Status × Privs PciData)
unfolding free_dev
pci_sysfs_free_dev = free_dev false

-- `none` for a NULL among the two pointers of the table
unfoldable pub pci_sysfs_exit :
    (fuel : ℕ) → Privs PciData → Option DevTable → M (Status × Privs PciData × Option DevTable)
unfolding exit_devs
pci_sysfs_exit = exit_devs false

-- What `pci_sysfs_init` writes into the data of a device
abbrev pub filled_data : PciConf → PciEnumInfo → PciData
filled_data conf inf = record blank_data { conf = some conf; info = inf }

-- What follows the label `err_out` of `pci_sysfs_init`
unfoldable pub pci_init_err_out :
    (fuel : ℕ) → Privs PciData → Status → M (Status × Privs PciData × Option DevTable)
unfolding pci_sysfs_exit
pci_init_err_out fuel privs r = do
  (_, privs', table) ← pci_sysfs_exit fuel privs (some no_devs)
  pure (r, privs', table)

-- `probe` is what `conf->ops->probe` does with the data of a device.
unfoldable pub pci_sysfs_init :
    (probe : PciData → Option PciData)
    → (fuel : ℕ) → PciFile
    → (platform : Ptr) → Option PciConf
    → Privs PciData
    → Option DevTable
    → M (Status × Privs PciData × Option DevTable)
unfolding pci_sysfs_enum init_loop pci_init_err_out calloc_struct
pci_sysfs_init probe fuel file platform none privs table = pure (Status.invalid_value, privs, table)
pci_sysfs_init probe fuel file platform (some conf) privs none =
    pure (Status.invalid_value, privs, none)
pci_sysfs_init probe fuel file platform (some conf) privs (some table) = do
  (r, inf) ← pci_sysfs_enum (some conf) file
  test not (is_success r)
      then pure (r, privs, some no_devs)
      else on_option inf (pure (r, privs, some no_devs)) λ infs. do
        array ← calloc_struct
        test array == null then pci_init_err_out fuel privs Status.out_of_host_memory else do
          (r', devs, privs') ←
              init_loop blank_data (filled_data conf) probe conf.ops fuel platform privs infs
          test is_success r'
              then pure (
                Status.success,
                privs',
                some (record { devs = some devs; devs_num = length infs }),
              )
              else pci_init_err_out fuel privs' r'

-- The tables of drivers/pci/pci_sysfs_test.c; -1 is the largest value of the field.
abbrev pub pci_sysfs_test_id_table : List PciDevId
pci_sysfs_test_id_table = record { vendor = 0xffff; device = 0xffff } ∷ []

abbrev pub pci_sysfs_test_map_table : List PciMemmap
pci_sysfs_test_map_table =
    record { paddr = 0x1000_0000; size = 256 * 0x10_0000; bar = 0; bar_off = 0 }
    ∷ record {
      paddr = 0xffff_ffff_ffff_ffff;
      size = 0xffff_ffff_ffff_ffff;
      bar = 0xffff_ffff;
      bar_off = 0xffff_ffff_ffff_ffff;
    }
    ∷ []

abbrev pub pci_sysfs_test_ops : DevOps
pci_sysfs_test_ops = record {
  probe = true;
  remove = true;
  reset = false;
  run = false;
  stop = false;
  read_mem = true;
  write_mem = true;
}

abbrev pub pci_sysfs_test_conf : PciConf
pci_sysfs_test_conf = record {
  id_table = pci_sysfs_test_id_table;
  map_table = pci_sysfs_test_map_table;
  ops = pci_sysfs_test_ops;
}

-- `table` stands for the variables `in_devs` and `in_devs_num` of the file.
unfoldable pub pci_sysfs_test_init :
    (probe : PciData → Option PciData)
    → (fuel : ℕ) → PciFile
    → (platform : Ptr) → Privs PciData
    → DevTable
    → M (Status × Privs PciData × Option DevTable)
unfolding pci_sysfs_init
pci_sysfs_test_init probe fuel file platform privs table =
    pci_sysfs_init probe fuel file platform (some pci_sysfs_test_conf) privs (some table)

unfoldable pub pci_sysfs_test_exit :
    (fuel : ℕ) → Privs PciData → DevTable → M (Status × Privs PciData × Option DevTable)
unfolding pci_sysfs_exit
pci_sysfs_test_exit fuel privs table = pci_sysfs_exit fuel privs (some table)
