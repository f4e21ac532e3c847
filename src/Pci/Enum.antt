-- ===== src/Pci/Enum.antt =====
-- The enumeration of drivers/pci/pci_sysfs.c, `pci_sysfs_enum`. The file of PCI devices and what
-- `sscanf` reads in its lines are given: `none` for a file that cannot be opened, and for a line in
-- which the four numbers are not found.
pub mod Matching
use baremetal_crt_host.Common.{
  ℕ, ◌+◌, ◌*◌, ◌/◌, ◌%◌, Bool, true, false, ◌&&◌, ◌||◌, not, Option, none, some, List, [], ◌∷◌,
  ◌++◌, ◌==◌, leb, length,
}
use baremetal_crt_host.Cl.{Status, is_success}
use baremetal_crt_host.Runtime.{null, DevOps}
use baremetal_crt_host.Runtime.Monad.{
  fault, M, pure, test◌then◌else◌, on_option, ◌>>=◌, calloc_struct,
}
use baremetal_crt_host.Pci.{PciMemmap}

-- struct pci_sysfs_dev_id
pub record PciDevId : Type 0 where
  pub vendor : ℕ
  pub device : ℕ

-- struct pci_sysfs_conf; the tables have their last entries, which end them.
pub record PciConf : Type 0 where
  pub id_table : List PciDevId
  pub map_table : List PciMemmap
  pub ops : DevOps

-- struct pci_sysfs_enum_info
pub record PciEnumInfo : Type 0 where
  pub pcibus : ℕ
  pub pcidev : ℕ
  pub pcifn : ℕ
  pub vendor : ℕ
  pub device : ℕ

-- What `sscanf` reads in a line: at most four hexadecimal digits each
pub record PciLine : Type 0 where
  pub pcibus : ℕ
  pub devfn : ℕ
  pub vid : ℕ
  pub did : ℕ

abbrev pub PciFile : Type 0
PciFile = Option (List (Option PciLine))

-- The loop over the table of identifiers, with `found`
unfoldable pub find_id : List PciDevId → (vid did : ℕ) → M Bool
find_id [] vid did = λ w. fault
find_id (e ∷ es) vid did =
    test e.vendor == 0xffff || e.device == 0xffff
    then pure false
    else test e.vendor == vid && e.device == did
    then pure true
    else find_id es vid did

abbrev pub enum_info : PciLine → PciEnumInfo
enum_info l = record {
  pcibus = l.pcibus;
  pcidev = l.devfn / 8 % 32;
  pcifn = l.devfn % 8;
  vendor = l.vid % 0x1_0000;
  device = l.did % 0x1_0000;
}

-- What the loop does with a line that was read, for an array of `num_pci` elements that holds
-- `pciinf`: the status, the size of the array, and what it holds. A write behind the array is a
-- fault, and `realloc` answers as `calloc` does.
unfoldable pub enum_line :
    List PciDevId → (num_pci : ℕ) → List PciEnumInfo → PciLine → M (Status × ℕ × List PciEnumInfo)
unfolding find_id calloc_struct
enum_line ids num_pci pciinf l = do
  found ← find_id ids l.vid l.did
  test not found
      then pure (Status.success, num_pci, pciinf)
      else test leb num_pci (length pciinf)
      then (λ w. fault)
      else do
        let pciinf' : List PciEnumInfo = pciinf ++ enum_info l ∷ []
        test length pciinf' == num_pci
            then (do
              p ← calloc_struct
              test p == null
                  then pure (Status.out_of_host_memory, num_pci * 2, [])
                  else pure (Status.success, num_pci * 2, pciinf'))
            else pure (Status.success, num_pci, pciinf')

-- The array is given up, `none`, on the label `err_out`.
unfoldable pub enum_loop :
    List PciDevId
    → (num_pci : ℕ) → List PciEnumInfo
    → List (Option PciLine)
    → M (Status × Option (List PciEnumInfo))
unfolding enum_line
enum_loop ids num_pci pciinf [] = pure (Status.success, some pciinf)
enum_loop ids num_pci pciinf (none ∷ lines) = pure (Status.out_of_host_memory, none)
enum_loop ids num_pci pciinf (some l ∷ lines) = do
  (r, num, inf) ← enum_line ids num_pci pciinf l
  test is_success r then enum_loop ids num inf lines else pure (r, none)

-- The status, and `*inf` with `*num` elements where they are stored
unfoldable pub pci_sysfs_enum : Option PciConf → PciFile → M (Status × Option (List PciEnumInfo))
unfolding enum_loop calloc_struct
pci_sysfs_enum none file = pure (Status.invalid_value, none)
pci_sysfs_enum (some conf) none = pure (Status.out_of_host_memory, none)
pci_sysfs_enum (some conf) (some lines) = do
  p ← calloc_struct
  test p == null then pure (Status.out_of_host_memory, none) else enum_loop conf.id_table 1 [] lines
