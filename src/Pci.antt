-- ===== src/Pci.antt =====
-- PCI devices through sysfs, drivers/pci/pci_sysfs.c: the windows of a device's memory and the
-- copies to and from it. A window that is mapped is memory of the host, and `PciPriv` is what these
-- functions read of a device's data. Enum, Setup and Config make the data.
pub mod Copy
pub mod Words
pub mod Window
pub mod Enum
pub mod Setup
pub mod Config
use Prim.Native.Nat.{bit_and}
use baremetal_crt_host.Common.{
  ℕ, zero, suc, ◌+◌, ◌-◌, ◌*◌, ◌/◌, ◌%◌, ◌^◌, Bool, true, false, ◌||◌, not, Option, none, some,
  List, [], ◌∷◌, Bytes, ◌==◌, ltb, length, get_elem?,
}
use baremetal_crt_host.Cl.{Status, is_success, u64_mod}
use baremetal_crt_host.Runtime.{Ptr, null}
use baremetal_crt_host.Runtime.Monad.{
  done, fault, M, pure, test◌then◌else◌, on_option, ◌>>=◌, ◌>>◌, or_leave,
}
use baremetal_crt_host.Runtime.Memory.{peek, poke, le_bytes}
use baremetal_crt_host.Handles.{load_device}

-- struct pci_sysfs_memmap
pub record PciMemmap : Type 0 where
  pub paddr : ℕ
  pub size : ℕ
  pub bar : ℕ
  pub bar_off : ℕ

-- struct pci_sysfs_addr
pub record PciAddr : Type 0 where
  pub paddr : ℕ
  pub size : ℕ
  pub bar : ℕ
  pub offset : ℕ
  pub ptr : Ptr

-- Of struct pci_sysfs_priv: the table `conf->map_table` with its last entry, and the addresses
-- `pci_res[i].buf` where the resources are mapped
pub record PciPriv : Type 0 where
  pub map_table : List PciMemmap
  pub res_buf : List Ptr

-- The bytes at an address, and what is stored there; faults where they are not mapped.
unfoldable pub load_bytes : Ptr → ℕ → M Bytes
unfolding peek
load_bytes p n w = elim (peek w.memory p n) [ none ↦ fault | some bs ↦ done bs w ]

unfoldable pub store_bytes : Ptr → Bytes → M (Unit {0})
unfolding peek poke
store_bytes p bs w = elim (peek w.memory p (length bs)) [
  | none ↦ fault
  | some _ ↦ done tt (record w { memory = poke w.memory p bs })
]

-- One element of `n` bytes
abbrev pub move : (dest src : Ptr) → (n : ℕ) → M (Unit {0})
move dest src n = load_bytes src n >>= store_bytes dest

-- `rounds` elements of `n` bytes, one after the other
unfoldable pub move_all : (n rounds : ℕ) → (dest src : Ptr) → M (Unit {0})
unfolding load_bytes store_bytes
move_all n zero dest src = pure tt
move_all n (suc rounds) dest src = do
  move dest src n
  move_all n rounds ((dest + n) % u64_mod) ((src + n) % u64_mod)

unfoldable pub pci_sysfs_memcpy_slow : (dest src : Ptr) → (n : ℕ) → M (Unit {0})
unfolding move_all
pci_sysfs_memcpy_slow dest src n = move_all 1 n dest src

-- The loop over words runs while eight bytes are left: `n / 8` times, and leaves `n % 8`.
unfoldable pub pci_sysfs_memcpy : (dest src : Ptr) → (n : ℕ) → M (Unit {0})
unfolding move_all pci_sysfs_memcpy_slow
pci_sysfs_memcpy dest src n =
    test not (dest % 8 == 0) || not (src % 8 == 0) then pci_sysfs_memcpy_slow dest src n else do
      move_all 8 (n / 8) dest src
      let done_bytes : ℕ = 8 * (n / 8)
      test ltb 0 (n % 8)
          then pci_sysfs_memcpy_slow ((dest + done_bytes) % u64_mod) ((src + done_bytes) % u64_mod)
              (n % 8)
          else pure tt

-- The window does not hold the range: `paddr < m->paddr || m->paddr + m->size < paddr + len`.
abbrev pub misses : PciMemmap → (paddr len : ℕ) → Bool
misses m paddr len =
    ltb paddr m.paddr || ltb ((m.paddr + m.size) % u64_mod) ((paddr + len) % u64_mod)

-- What the code stores in `*desc` for a window that holds the range
abbrev pub describe : PciMemmap → (buf paddr len : ℕ) → PciAddr
describe m buf paddr len =
    let offset = (m.bar_off + paddr + (u64_mod - m.paddr)) % u64_mod in
    record {
      paddr = paddr;
      size = len;
      bar = m.bar;
      offset = offset;
      ptr = (buf + offset) % u64_mod;
    }

-- The loop over the table, whose last entry has the address `(uint64_t)-1`
unfoldable pub find_window :
    PciPriv → List PciMemmap → (paddr len : ℕ) → Option PciAddr → M (Status × Option PciAddr)
find_window prv [] paddr len desc = λ w. fault
find_window prv (m ∷ ms) paddr len desc =
    test m.paddr == 0xffff_ffff_ffff_ffff
    then pure (Status.invalid_value, desc)
    else test misses m paddr len
    then find_window prv ms paddr len desc
    else on_option desc (pure (Status.success, none)) λ _.
      on_option (get_elem? prv.res_buf m.bar) (λ w. fault)
        λ buf. pure (Status.success, some (describe m buf paddr len))

-- `desc` is the caller's variable, `none` for NULL.
unfoldable pub pci_sysfs_get_addr :
    PciPriv → (paddr len : ℕ) → Option PciAddr → M (Status × Option PciAddr)
unfolding find_window
pci_sysfs_get_addr prv paddr len desc = find_window prv prv.map_table paddr len desc

unfoldable pub pci_sysfs_read32 : PciAddr → (off : ℕ) → M Bytes
unfolding load_bytes
pci_sysfs_read32 desc off = load_bytes ((desc.ptr + off) % u64_mod) 4

unfoldable pub pci_sysfs_write32 : PciAddr → (v off : ℕ) → M (Unit {0})
unfolding store_bytes le_bytes
pci_sysfs_write32 desc v off = store_bytes ((desc.ptr + off) % u64_mod) (le_bytes 4 v)

-- A variable before it is assigned
abbrev pub no_addr : PciAddr
no_addr = record { paddr = 0; size = 0; bar = 0; offset = 0; ptr = null }

module _ (privs : Ptr → Option PciPriv) where
  -- `dev == NULL || dev->priv == NULL` is answered by CL_INVALID_DEVICE; then `k` goes on.
  abbrev pub with_priv : Ptr → (PciPriv → M Status) → M Status
  with_priv dev k = test dev == null then pure Status.invalid_device else do
    d ← load_device dev
    test d.priv == null then pure Status.invalid_device else on_option (privs d.priv) (λ w. fault) k

  unfoldable pub pci_sysfs_read_mem : (dev paddr buf len : ℕ) → M Status
  unfolding pci_sysfs_get_addr pci_sysfs_memcpy
  pci_sysfs_read_mem dev paddr buf len = with_priv dev λ prv. do
    (r, addr) ← pci_sysfs_get_addr prv paddr len (some no_addr)
    test is_success r
        then (on_option addr (λ w. fault)
            λ a. (do pci_sysfs_memcpy buf a.ptr len; pure Status.success))
        else pure r

  unfoldable pub pci_sysfs_write_mem : (dev paddr buf len : ℕ) → M Status
  unfolding pci_sysfs_get_addr pci_sysfs_memcpy
  pci_sysfs_write_mem dev paddr buf len = with_priv dev λ prv. do
    (r, addr) ← pci_sysfs_get_addr prv paddr len (some no_addr)
    test is_success r
        then (on_option addr (λ w. fault)
            λ a. (do pci_sysfs_memcpy a.ptr buf len; pure Status.success))
        else pure r
