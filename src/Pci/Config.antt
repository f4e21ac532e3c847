-- ===== src/Pci/Config.antt =====
-- The configuration of a device in drivers/pci/pci_sysfs.c: `pci_sysfs_config`, `pci_sysfs_probe`,
-- `pci_sysfs_remove`. The file of the configuration space is a state `C` with reads and writes of
-- `n` bytes at an offset; what the other files and `mmap` answer is given. `none` is a write behind
-- the array `pci_res`.
pub mod Bars
pub mod Closing
pub mod Counts
use baremetal_crt_host.Common.{
  ℕ, zero, suc, ◌+◌, ◌-◌, ◌*◌, ◌/◌, ◌%◌, ◌^◌, Bool, true, false, ◌&&◌, ◌||◌, not, Option, none,
  some, List, [], ◌∷◌, ◌++◌, ◌==◌, if◌then◌else◌, get_elem?, set,
}
use baremetal_crt_host.Cl.{Status, is_success}
use baremetal_crt_host.Runtime.{Ptr, null}
use baremetal_crt_host.Pci.Enum.{PciEnumInfo}
use baremetal_crt_host.Pci.Setup.{PciResource, PciData, pci_res_max}

abbrev pub Res : Type 0
Res = List PciResource

-- `~(v & ~0xf) + 1` for an unsigned integer of `w` bits
abbrev pub size_of : (w v : ℕ) → ℕ
size_of w v = (2 ^ w - v / 16 * 16) % 2 ^ w

-- `pci_res[i]` with the fields that the loop over the registers sets
unfoldable pub put_bar : Res → (i bar bar_size : ℕ) → (is_64 : Bool) → Res
put_bar res i bar bar_size is_64 = elim (get_elem? res i) [
  | none ↦ res
  | some r ↦
      set res i
        (record r { bar = bar; bar_size = bar_size; is_64 = is_64; valid = not (bar_size == 0) })
]

-- The answers of the host to `open` of the configuration space and of a resource, and to `mmap` of
-- a resource
pub record PciHost : Type 0 where
  pub open_config : Option ℕ
  pub open_resource : ℕ → Option ℕ
  pub map_resource : ℕ → Option Ptr

-- The calls of the host that succeed, of `open`, `mmap`, `munmap` and `close`, with the descriptor,
-- or the address and the length
pub data HostCall : Type 0 where
  opened closed : ℕ → HostCall
  mapped unmapped : Ptr → ℕ → HostCall

-- The second loop of `pci_sysfs_config`, over the resources from `i` on, with its calls of the host
unfoldable pub map_loop : PciHost → (i : ℕ) → Res → Status × Res × List HostCall
map_loop host i [] = (Status.success, [], [])
map_loop host i (r ∷ rs) =
    let (status, rest, calls) = map_loop host (i + 1) rs in
    if not r.valid then (status, r ∷ rest, calls) else elim (host.open_resource i) [
      | none ↦ (Status.invalid_device, record r { fd = none } ∷ rs, [])
      | some fd ↦ elim (host.map_resource i) [
        | none ↦ (
          Status.out_of_resources,
          record r { fd = some fd; buf = null } ∷ rs,
          HostCall.opened fd ∷ [],
        )
        | some p ↦ (
          status,
          record r { fd = some fd; buf = p } ∷ rest,
          HostCall.opened fd ∷ HostCall.mapped p r.bar_size ∷ calls,
        )
      ]
    ]

-- `munmap`, where the resource is mapped
abbrev pub unmap_buf : PciResource → List HostCall
unmap_buf r = if r.buf == null then [] else HostCall.unmapped r.buf r.bar_size ∷ []

-- `close`, where the descriptor is not -1
abbrev pub close_fd : Option ℕ → List HostCall
close_fd none = []
close_fd (some fd) = HostCall.closed fd ∷ []

-- The loop of `pci_sysfs_remove`: every resource is unmapped and closed.
unfoldable pub clear_all : Res → Res × List HostCall
clear_all [] = ([], [])
clear_all (r ∷ rs) =
    let (rest, calls) = clear_all rs in
    (record r { fd = none; buf = null } ∷ rest, unmap_buf r ++ close_fd r.fd ++ calls)

-- `none` where the device or its data are NULL
unfoldable pub pci_sysfs_remove : Option PciData → Status × Option PciData × List HostCall
unfolding clear_all
pci_sysfs_remove none = (Status.invalid_device, none, [])
pci_sysfs_remove (some prv) =
    let (res, calls) = clear_all prv.pci_res in
    (
      Status.success,
      some (record prv { fd_config = none; pci_res = res }),
      calls ++ close_fd prv.fd_config,
    )

module _ {C : Type 0} (pread : C → (off n : ℕ) → ℕ) (pwrite : C → (off n v : ℕ) → C)
    (is_written : C → (off n : ℕ) → Bool) where
  -- The registers of 64 bits at `addr`: the value, the size, and the configuration space
  unfoldable pub read_wide : C → (addr : ℕ) → ℕ × ℕ × C
  read_wide c addr =
      let bar = pread c addr 8 in
      let c1 = pwrite c addr 8 (2 ^ 64 - 1) in
      (bar, size_of 64 (pread c1 addr 8), pwrite c1 addr 8 bar)

  -- The first register of a round as one of 32 bits: the value, the size, whether it was written
  -- back, and the configuration space
  unfoldable pub read_narrow : C → (addr : ℕ) → ℕ × ℕ × Bool × C
  read_narrow c addr =
      let bar = pread c addr 4 in
      let c1 = pwrite c addr 4 (2 ^ 32 - 1) in
      (bar, size_of 32 (pread c1 addr 4), is_written c1 addr 4, pwrite c1 addr 4 bar)

  -- The first loop of `pci_sysfs_config`, with `left` registers to go: the status, the
  -- configuration space and the resources. A register of 64 bits takes two, so that the next round
  -- is left out, `skip`.
  unfoldable pub bar_loop : (left : ℕ) → (skip : Bool) → C → Res → Option (Status × C × Res)
  unfolding put_bar read_narrow read_wide
  bar_loop zero skip c res = some (Status.success, c, res)
  bar_loop (suc left) true c res = bar_loop left false c res
  bar_loop (suc left) false c res =
      let i = pci_res_max - suc left in
      let addr = 0x10 + i * 4 in
      let (bar, size, written, c2) = read_narrow c addr in
      let kind = bar / 2 % 4 in
      let next = bar_loop left false c2 (put_bar res i bar size false) in
      let (bar', size', c3) = read_wide c2 addr in
      let wide =
        bar_loop left true c3 (put_bar (put_bar res (i + 1) 0 0 false) i bar' size' true) in
      if not written
      then some (Status.invalid_device, c2, res)
      else if kind == 0 || kind == 1
      then next
      else if not (kind == 2)
      then some (Status.invalid_device, c2, res)
      else if left == 0
      then none
      else wide

  -- The status, the configuration space and the data, also where an error leaves them half set, and
  -- the calls of the host
  unfoldable pub pci_sysfs_config :
      PciHost → C → PciData → Option (Status × C × PciData × List HostCall)
  unfolding bar_loop map_loop
  pci_sysfs_config host c prv =
      let prv' = record prv { fd_config = host.open_config } in
      elim host.open_config [
        | none ↦ some (Status.out_of_resources, c, prv', [])
        | some fd ↦
            let same = prv.info.vendor == pread c 0 2 && prv.info.device == pread c 2 2 in
            if not same
            then some (Status.invalid_device, c, prv', HostCall.opened fd ∷ [])
            else elim (bar_loop pci_res_max false c prv.pci_res) [
              | none ↦ none
              | some (r, c', res) ↦
                  if not (is_success r)
                  then some (r, c', record prv' { pci_res = res }, HostCall.opened fd ∷ [])
                  else (let (r', res', calls) = map_loop host 0 res in
                      some (r', c', record prv' { pci_res = res' }, HostCall.opened fd ∷ calls))
            ]
      ]

  -- `none` in front of the data where the device or its data are NULL
  unfoldable pub pci_sysfs_probe :
      PciHost → C → Option PciData → Option (Status × C × Option PciData × List HostCall)
  unfolding pci_sysfs_config pci_sysfs_remove
  pci_sysfs_probe host c none = some (Status.invalid_device, c, none, [])
  pci_sysfs_probe host c (some prv) = elim (pci_sysfs_config host c prv) [
    | none ↦ none
    | some (r, c', prv', calls) ↦
        if is_success r
        then some (Status.success, c', some prv', calls)
        else (let (_, prv2, more) = pci_sysfs_remove (some prv') in
            some (r, c', prv2, calls ++ more))
  ]

  -- What `pci_sysfs_probe` leaves in the data, where the host answers for the device that was
  -- enumerated; `none` for a write behind `pci_res`
  abbrev pub data_after_probe :
      (PciEnumInfo → PciHost) → (PciEnumInfo → C) → PciData → Option PciData
  data_after_probe host space prv =
      elim (pci_sysfs_probe (host prv.info) (space prv.info) (some prv)) [
        | none ↦ none
        | some (_, _, prv', _) ↦ prv'
      ]
