-- ===== src/Tests/Pci.antt =====
-- A PCI device with one window, on small inputs.
use baremetal_crt_host.Common.{
  ℕ, zero, suc, ◌+◌, ◌-◌, ◌≤◌, ◌≡◌, refl, inl, inr, some, [], ◌∷◌, Bytes, get_elem?, arith,
}
use baremetal_crt_host.Cl.{Status}
use baremetal_crt_host.Runtime.{World}
use baremetal_crt_host.Runtime.Monad.{done}
use baremetal_crt_host.Runtime.Memory.{ByteMap, peek}
use baremetal_crt_host.Pci.{
  PciMemmap, PciAddr, PciPriv, no_addr, find_window, pci_sysfs_get_addr, pci_sysfs_memcpy,
  pci_sysfs_memcpy_slow, pci_sysfs_read_mem, pci_sysfs_write_mem,
}
use baremetal_crt_host.Pci.Copy.{IsCopy, CanCopy}
use baremetal_crt_host.Pci.Words.{memcpy-memcpy_slow}
use baremetal_crt_host.Pci.Window.{NoWrap, read_mem-write_mem, get_addr-Inside}
use baremetal_crt_host.Tests.Data.{only, small_world, device_1}

-- The device's addresses from 64 on, 256 bytes, are the host's from 1016 on.
abbrev map_1 : PciMemmap
map_1 = record { paddr = 64; size = 256; bar = 0; bar_off = 16 }

abbrev map_end : PciMemmap
map_end = record { paddr = 0xffff_ffff_ffff_ffff; size = 0; bar = 0; bar_off = 0 }

abbrev priv_1 : PciPriv
priv_1 = record { map_table = map_1 ∷ map_end ∷ []; res_buf = 1000 ∷ [] }

abbrev addr_1 : PciAddr
addr_1 = record { paddr = 72; size = 11; bar = 0; offset = 24; ptr = 1024 }

abbrev pci_world : World
pci_world = record small_world { devices = only 20 (record device_1 { priv = 5 }) }

-- The bytes from 1504, and those from 1024
abbrev source_1 : Bytes
source_1 = 224 ∷ 225 ∷ 226 ∷ 227 ∷ 228 ∷ 229 ∷ 230 ∷ 231 ∷ 232 ∷ 233 ∷ 234 ∷ []

abbrev target_1 : Bytes
target_1 = 0 ∷ 1 ∷ 2 ∷ 3 ∷ 4 ∷ 5 ∷ 6 ∷ 7 ∷ 8 ∷ 9 ∷ 10 ∷ []

can_copy : CanCopy pci_world.memory 1024 1504 11 source_1 target_1
unfolding peek
can_copy = (refl, refl, inl (omega arith), omega arith, omega arith)

memcpy-memcpy_slow_example :
    ((m' : ByteMap) × (pci_sysfs_memcpy 1024 1504 11 pci_world
        ≡ done tt (record pci_world { memory = m' }))
      × IsCopy pci_world.memory m' 1024 11 source_1)
    × ((m' : ByteMap) × (pci_sysfs_memcpy_slow 1024 1504 11 pci_world
          ≡ done tt (record pci_world { memory = m' }))
        × IsCopy pci_world.memory m' 1024 11 source_1)
memcpy-memcpy_slow_example = memcpy-memcpy_slow 1024 1504 11 source_1 target_1 pci_world can_copy

address_1 :
    pci_sysfs_get_addr priv_1 72 11 (some no_addr) pci_world
    ≡ done (Status.success, some addr_1) pci_world
unfolding pci_sysfs_get_addr find_window
address_1 = refl

second_buffer :
    peek pci_world.memory 1800 11 ≡ some (8 ∷ 9 ∷ 10 ∷ 11 ∷ 12 ∷ 13 ∷ 14 ∷ 15 ∷ 16 ∷ 17 ∷ 18 ∷ [])
unfolding peek
second_buffer = refl

read_mem-write_mem_example :
    (w1 w2 : World) × (pci_sysfs_write_mem (only 5 priv_1) 20 72 1504 11 pci_world
      ≡ done Status.success w1)
    × (pci_sysfs_read_mem (only 5 priv_1) 20 72 1800 11 w1 ≡ done Status.success w2)
    × (peek w2.memory 1800 11 ≡ some source_1)
read_mem-write_mem_example =
    read_mem-write_mem (only 5 priv_1) priv_1 20 72 11 addr_1 1504 1800 source_1 target_1
      (8 ∷ 9 ∷ 10 ∷ 11 ∷ 12 ∷ 13 ∷ 14 ∷ 15 ∷ 16 ∷ 17 ∷ 18 ∷ []) pci_world pci_world
      (ground arith, (record device_1 { priv = 5 }, refl, ground arith, refl)) address_1 can_copy
      second_buffer (inr (omega arith)) (omega arith)

priv_1-NoWrap : NoWrap priv_1
priv_1-NoWrap zero m buf e1 e2 = (ground arith, ground arith)
priv_1-NoWrap (suc zero) m buf e1 e2 = (ground arith, ground arith)
priv_1-NoWrap (suc (suc i)) m buf e1 e2 = absurd cc

get_addr-Inside_example :
    (m : PciMemmap) × (i : ℕ) × (buf : ℕ) × (get_elem? (map_1 ∷ map_end ∷ []) i ≡ some m)
    × (get_elem? (1000 ∷ []) m.bar ≡ some buf)
    × (m.paddr ≤ 72)
    × (72 + 11 ≤ m.paddr + m.size)
    × (1024 ≡ buf + m.bar_off + (72 - m.paddr))
    × (1024 + 11 ≤ buf + m.bar_off + m.size)
get_addr-Inside_example =
    get_addr-Inside priv_1 72 11 addr_1 pci_world pci_world priv_1-NoWrap (omega arith) address_1
