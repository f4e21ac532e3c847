-- ===== src/Pci/Window.antt =====
-- The windows of a PCI device: which addresses they stand for, and a write that is read back.
use baremetal_crt_host.Common.{
  ℕ, zero, suc, ◌+◌, ◌-◌, ◌<◌, ◌≤◌, ◌≡◌, ◌≢◌, inl, inr, refl, sym, ap, ◌∙◌, false, Option, some,
  List, [], ◌∷◌, Bytes, ◌==◌, get_elem?, arith, Bool-cases, Option-cases,
}
use baremetal_crt_host.Cl.{Status, u64_mod}
use baremetal_crt_host.Runtime.{Ptr, null, Device, World}
use baremetal_crt_host.Runtime.Monad.{done}
use baremetal_crt_host.Runtime.Memory.{ByteMap, peek}
use baremetal_crt_host.Pci.{
  PciMemmap, PciAddr, PciPriv, no_addr, misses, describe, find_window, pci_sysfs_get_addr,
  pci_sysfs_read_mem, pci_sysfs_write_mem,
}
use baremetal_crt_host.Pci.Copy.{IsCopy, CanCopy, Apart, IsCopy-apart}
use baremetal_crt_host.Pci.Words.{memcpy-memcpy_slow}

-- The window that the search gives: one of the table, in front of its end, that holds the range.
abbrev pub IsWindow : PciPriv → List PciMemmap → (paddr len : ℕ) → PciAddr → Type 0
IsWindow prv ms paddr len a =
    (m : PciMemmap) × (i : ℕ) × (buf : Ptr) × (get_elem? ms i ≡ some m)
    × (misses m paddr len ≡ false)
    × (get_elem? prv.res_buf m.bar ≡ some buf)
    × (a ≡ describe m buf paddr len)

module _ (prv : PciPriv) (paddr len : ℕ) (d : PciAddr) where
  find_window-IsWindow :
      (ms : List PciMemmap) (a : PciAddr) (w w' : World)
      → find_window prv ms paddr len (some d) w ≡ done (Status.success, some a) w'
      → IsWindow prv ms paddr len a
        × ((v : World) → find_window prv ms paddr len (some d) v ≡ done (Status.success, some a) v)
  unfolding find_window
  find_window-IsWindow [] a w w' e = absurd (ground arith)
  find_window-IsWindow (m ∷ ms) a w w' e = elim (Bool-cases (m.paddr == 0xffff_ffff_ffff_ffff)) [
    | inl last ↦ absurd (ground arith)
    | inr entry ↦ elim (Bool-cases (misses m paddr len)) [
      | inl missed ↦
          let rest : find_window prv ms paddr len (some d) w ≡ done (Status.success, some a) w' =
            rw (entry, missed) at e in
          let ((m', i, buf, at, hit, mapped, eq), always) = find_window-IsWindow ms a w w' rest in
          ((m', suc i, buf, at, hit, mapped, eq), λ v. rw (entry, missed) (always v))
      | inr hit ↦ elim (Option-cases (get_elem? prv.res_buf m.bar)) [
        | inl gone ↦ absurd (ground arith)
        | inr (buf, mapped) ↦
            let found : find_window prv (m ∷ ms) paddr len (some d) w
                ≡ done (Status.success, some (describe m buf paddr len)) w =
              rw (entry, hit, mapped) refl in
            let same : a ≡ describe m buf paddr len = cc in
            (
              (m, zero, buf, refl, hit, mapped, same),
              λ v. rw (entry, hit, mapped) (ap (λ x. done (Status.success, some x) v) (sym same)),
            )
      ]
    ]
  ]

-- A device whose driver data is `prv`
abbrev pub IsPciDevice : (Ptr → Option PciPriv) → World → (dev : Ptr) → PciPriv → Type 0
IsPciDevice privs w dev prv =
    (dev ≢ null)
    × ((d : Device) × (w.devices dev ≡ some d) × (d.priv ≢ null) × (privs d.priv ≡ some prv))

module _ (privs : Ptr → Option PciPriv) (prv : PciPriv) (dev paddr len : ℕ) (a : PciAddr) where
  write_mem_lem :
      (buf : Ptr) (bs old : Bytes) (w : World)
      → IsPciDevice privs w dev prv
      → ((v : World)
          → pci_sysfs_get_addr prv paddr len (some no_addr) v ≡ done (Status.success, some a) v)
      → CanCopy w.memory a.ptr buf len bs old
      → (m' : ByteMap) × (pci_sysfs_write_mem privs dev paddr buf len w
          ≡ done Status.success (record w { memory = m' }))
        × IsCopy w.memory m' a.ptr len bs
  unfolding pci_sysfs_write_mem
  write_mem_lem buf bs old w (some_dev, (d, there, some_priv, is_prv)) addr can =
      let ((m', run, copy), _) = memcpy-memcpy_slow a.ptr buf len bs old w can in
      let at = addr w in (m', ground (arith, at, run), copy)

  read_mem_lem :
      (buf : Ptr) (bs old : Bytes) (w : World)
      → IsPciDevice privs w dev prv
      → ((v : World)
          → pci_sysfs_get_addr prv paddr len (some no_addr) v ≡ done (Status.success, some a) v)
      → CanCopy w.memory buf a.ptr len bs old
      → (m' : ByteMap) × (pci_sysfs_read_mem privs dev paddr buf len w
          ≡ done Status.success (record w { memory = m' }))
        × IsCopy w.memory m' buf len bs
  unfolding pci_sysfs_read_mem
  read_mem_lem buf bs old w (some_dev, (d, there, some_priv, is_prv)) addr can =
      let ((m', run, copy), _) = memcpy-memcpy_slow buf a.ptr len bs old w can in
      let at = addr w in (m', ground (arith, at, run), copy)

  -- On a device of this driver, with a range that a window holds, where the bytes of the window and
  -- of two buffers are mapped and the window meets neither buffer: a write from the first buffer and
  -- a read into the second succeed, and the second then holds the bytes of the first.
  pub read_mem-write_mem :
      (buf buf2 : Ptr) (bs old old2 : Bytes) (w w' : World)
      → IsPciDevice privs w dev prv
      → pci_sysfs_get_addr prv paddr len (some no_addr) w ≡ done (Status.success, some a) w'
      → CanCopy w.memory a.ptr buf len bs old
      → peek w.memory buf2 len ≡ some old2
      → Apart buf2 a.ptr len
      → buf2 + len < u64_mod
      → (w1 w2 : World) × (pci_sysfs_write_mem privs dev paddr buf len w ≡ done Status.success w1)
        × (pci_sysfs_read_mem privs dev paddr buf2 len w1 ≡ done Status.success w2)
        × (peek w2.memory buf2 len ≡ some bs)
  unfolding pci_sysfs_get_addr
  read_mem-write_mem buf buf2 bs old old2 w w' device addr can there2 apart fits =
      let (_, always) = find_window-IsWindow prv paddr len no_addr prv.map_table a w w' addr in
      let (m1, wrote, copy1) = write_mem_lem buf bs old w device always can in
      let w1 = record w { memory = m1 } in
      let kept : peek m1 buf2 len ≡ some old2 =
        IsCopy-apart w.memory m1 a.ptr len bs buf2 len copy1 apart ∙ there2 in
      let (m2, read, copy2) =
        read_mem_lem buf2 bs old2 w1 device always (copy1.0, kept, apart, fits, can.3) in
      (w1, record w1 { memory = m2 }, wrote, read, copy2.0)

-- No end of a window wraps around 2^64, neither on the device nor in the host's memory.
abbrev pub NoWrap : PciPriv → Type 0
NoWrap prv =
    (i : ℕ) (m : PciMemmap) (buf : Ptr)
    → get_elem? prv.map_table i ≡ some m
    → get_elem? prv.res_buf m.bar ≡ some buf
    → (m.paddr + m.size < u64_mod) × (buf + m.bar_off + m.size < u64_mod)

-- Where no end of a window wraps around 2^64 and that of the range does not, a range that
-- `pci_sysfs_get_addr` takes lies in a window of the table, and the pointer that it gives is the
-- place of the range in the mapped resource, from which the window holds `len` bytes.
pub get_addr-Inside :
    (prv : PciPriv) (paddr len : ℕ) (a : PciAddr) (w w' : World)
    → NoWrap prv
    → paddr + len < u64_mod
    → pci_sysfs_get_addr prv paddr len (some no_addr) w ≡ done (Status.success, some a) w'
    → (m : PciMemmap) × (i : ℕ) × (buf : Ptr) × (get_elem? prv.map_table i ≡ some m)
      × (get_elem? prv.res_buf m.bar ≡ some buf)
      × (m.paddr ≤ paddr)
      × (paddr + len ≤ m.paddr + m.size)
      × (a.ptr ≡ buf + m.bar_off + (paddr - m.paddr))
      × (a.ptr + len ≤ buf + m.bar_off + m.size)
unfolding pci_sysfs_get_addr
get_addr-Inside prv paddr len a w w' no_wrap small e =
    let ((m, i, buf, at, hit, mapped, eq), _) =
      find_window-IsWindow prv paddr len no_addr prv.map_table a w w' e in
    let (ends, host) = no_wrap i m buf at mapped in
    let low : m.paddr ≤ paddr = ground (arith, hit) in
    let high : paddr + len ≤ m.paddr + m.size = ground (arith, hit, ends, small) in
    let ptr : a.ptr ≡ buf + m.bar_off + (paddr - m.paddr) =
      ap (λ x. x.ptr) eq ∙ omega (arith, low, high, ends, host, small) in
    (m, i, buf, at, mapped, low, high, ptr, omega (arith, ptr, low, high))
