-- ===== src/Tests/Setup.antt =====
-- Set-up of devices, registers and platform queries on small inputs.
use baremetal_crt_host.Common.{
  ℕ, ◌+◌, ◌*◌, ◌<◌, ◌≤◌, ◌≡◌, ◌≢◌, inl, inr, refl, sym, Bool, true, false, Option, none, some, List,
  [], ◌∷◌, ◌++◌, ◌==◌, if◌then◌else◌, length, codes, drop, All, arith,
}
use baremetal_crt_host.Cl.{Status, icd_magic}
use baremetal_crt_host.Runtime.{Ptr, null, Platform, DevCall, World, update}
use baremetal_crt_host.Runtime.Monad.{done, fault, calloc_struct}
use baremetal_crt_host.Runtime.Memory.{peek, load_ptr}
use baremetal_crt_host.Handles.{dev_is_valid}
use baremetal_crt_host.Device.{call_driver}
use baremetal_crt_host.Device.Registry.{next_of, set_next, find_last, probe_device, dev_add}
use baremetal_crt_host.Device.Chain.{Chain}
use baremetal_crt_host.Device.Reach.{IsRegistry, Step, add, here, next, Reach-IsRegistry}
use baremetal_crt_host.Setup.{Privs, DevTable, no_devs, probed}
use baremetal_crt_host.Setup.Alloc.{IsLivePlatform}
use baremetal_crt_host.Setup.Init.{Slot, infs_of, supply_of, IsSetUp}
use baremetal_crt_host.Pci.Enum.{
  PciDevId, PciConf, PciEnumInfo, PciLine, find_id, enum_info, enum_line, enum_loop, pci_sysfs_enum,
}
use baremetal_crt_host.Pci.Enum.Matching.{all_read, enum-matching}
use baremetal_crt_host.Pci.Setup.{
  PciData, PciResource, blank_data, filled_data, pci_res_max, pci_sysfs_init, pci_sysfs_exit,
  pci_sysfs_test_conf,
}
use baremetal_crt_host.Pci.Setup.Life.{pci_exit-init, pci_init_keeps_devices}
use baremetal_crt_host.Pci.Config.{
  PciHost, HostCall, opened, closed, mapped, unmapped, put_bar, read_narrow, map_loop,
  data_after_probe, Res, bar_loop, pci_sysfs_config, pci_sysfs_probe, pci_sysfs_remove, clear_all,
}
use baremetal_crt_host.Pci.Config.Counts.{IsClosed, IsBalanced}
use baremetal_crt_host.Pci.Config.Closing.{failed_probe-IsClosed}
use baremetal_crt_host.Pci.Config.Bars.{IsNarrow, IsSized, bar_loop-sizes}
use baremetal_crt_host.Gdb.Wire.{Conn, RecvEvent, SendEvent}
use baremetal_crt_host.Gdb.Setup.{
  RemoteInfo, RemoteData, filled_remote, with_env, gdb_remote_openocd_conf, gdb_remote_init,
  gdb_remote_exit, gdb_remote_openocd_init, gdb_remote_openocd_exit,
}
use baremetal_crt_host.Gdb.Setup.Life.{openocd_exit-init, remote_init_no_array-exit}
use baremetal_crt_host.Gdb.Setup.Socket.{remote_after_probe}
use baremetal_crt_host.Platform.{platform_text, in_cl_get_platform_info}
use baremetal_crt_host.Platform.Info.{platform_info-size}
use baremetal_crt_host.Tests.Data.{only, conn, small_world, device_1}

-- A platform at 10, and the addresses that `calloc` gives
abbrev platform_1 : Platform
platform_1 = record { dispatch = 0; magic = icd_magic }

abbrev setup_world : List Ptr → World
setup_world ps = record small_world { platforms = only 10 platform_1; supply = ps }

platform_live : (ps : List Ptr) → IsLivePlatform (setup_world ps) 10
platform_live ps = (ground arith, (platform_1, refl, refl))

list_20 : (ps : List Ptr) → Chain (setup_world ps).devices (setup_world ps).head_next (20 ∷ [])
list_20 ps = (refl, ground arith, (device_1, refl, refl))

abbrev id_1 : PciDevId
id_1 = record { vendor = 0x1234; device = 0x5678 }

abbrev id_end : PciDevId
id_end = record { vendor = 0xffff; device = 0xffff }

abbrev conf_1 : PciConf
conf_1 = record pci_sysfs_test_conf { id_table = id_1 ∷ id_end ∷ [] }

abbrev line_1 : PciLine
line_1 = record { pcibus = 2; devfn = 0x19; vid = 0x1234; did = 0x5678 }

abbrev line_2 : PciLine
line_2 = record line_1 { devfn = 0x20; did = 0x5679 }

abbrev line_3 : PciLine
line_3 = record line_1 { pcibus = 3 }

abbrev lines_1 : List PciLine
lines_1 = line_1 ∷ line_2 ∷ line_3 ∷ []

abbrev blocks_1 : List Ptr
blocks_1 = 70 ∷ 71 ∷ 72 ∷ 73 ∷ 74 ∷ 75 ∷ 76 ∷ 77 ∷ []

blocks_some : All (λ p. p ≢ null) blocks_1
blocks_some = ground arith

enum-matching_example :
    (ps : List Ptr) × (k : ℕ) × (pci_sysfs_enum
        (some conf_1)
        (some (all_read lines_1))
        (setup_world blocks_1)
      ≡ done (Status.success, some (enum_info line_1 ∷ enum_info line_3 ∷ [])) (setup_world ps))
    × (k ≤ 4)
    × (ps ≡ drop k blocks_1)
enum-matching_example =
    enum-matching (id_1 ∷ []) (id_1 ∷ id_end ∷ []) (refl, ground arith, ground arith, inl refl)
      conf_1 lines_1 (setup_world blocks_1) refl (omega arith) blocks_some

abbrev slot_1 : Slot PciEnumInfo
slot_1 = record { dev = 74; prv = 75; inf = enum_info line_1 }

abbrev slot_2 : Slot PciEnumInfo
slot_2 = record { dev = 76; prv = 77; inf = enum_info line_3 }

enumerated_1 :
    pci_sysfs_enum (some conf_1) (some (all_read lines_1)) (setup_world blocks_1)
    ≡ done
        (Status.success, some (infs_of (slot_1 ∷ slot_2 ∷ [])))
        (setup_world (73 ∷ supply_of (slot_1 ∷ slot_2 ∷ []) []))
unfolding pci_sysfs_enum enum_loop enum_line find_id calloc_struct
enumerated_1 = refl

abbrev no_data : {P : Type 0} → Privs P
no_data p = none

-- The host finds both devices: a configuration space with the identifiers of the first line and no
-- register
abbrev ids_read : Bool → (off n : ℕ) → ℕ
ids_read c off n = if off == 0 then 0x1234 else if off == 2 then 0x5678 else 0

abbrev probe_1 : PciData → Option PciData
probe_1 =
    data_after_probe ids_read (λ c off n v. c) (λ c off n. true)
      (λ inf. record { open_config = some 3; open_resource = λ i. none; map_resource = λ i. none })
      (λ inf. false)

abbrev found_1 : PciEnumInfo → PciData
found_1 inf = record (filled_data conf_1 inf) { fd_config = some 3 }

found-All :
    All
      (λ (s : Slot PciEnumInfo).
        probed probe_1 conf_1.ops (filled_data conf_1 s.inf) ≡ some (found_1 s.inf))
      (slot_1 ∷ slot_2 ∷ [])
unfolding pci_sysfs_probe pci_sysfs_config bar_loop put_bar read_narrow map_loop
found-All = (refl, (refl, tt))

pci_exit-init_example :
    (w1 w2 : World) × (privs1 privs2 : Privs PciData) × (pci_sysfs_init probe_1 9
        (some (all_read lines_1))
        10
        (some conf_1)
        no_data
        (some no_devs)
        (setup_world blocks_1)
      ≡ done
          (Status.success, privs1, some (record { devs = some (74 ∷ 76 ∷ []); devs_num = 2 }))
          w1)
    × Chain w1.devices w1.head_next (20 ∷ 74 ∷ 76 ∷ [])
    × All (IsSetUp found_1 conf_1.ops w1 privs1) (slot_1 ∷ slot_2 ∷ [])
    × (pci_sysfs_exit 9 privs1 (some (record { devs = some (74 ∷ 76 ∷ []); devs_num = 2 })) w1
        ≡ done (Status.success, privs2, some no_devs) w2)
    × Chain w2.devices w2.head_next (20 ∷ [])
    × All (λ s. privs2 s.prv ≡ none) (slot_1 ∷ slot_2 ∷ [])
pci_exit-init_example =
    pci_exit-init probe_1 found_1 9 10 (some (all_read lines_1)) conf_1 no_data no_devs
      (slot_1 ∷ slot_2 ∷ []) (20 ∷ []) [] 73 (setup_world blocks_1) (platform_live blocks_1)
      enumerated_1 (ground arith) (list_20 blocks_1) (ground arith) (omega arith) found-All

abbrev blocks_2 : List Ptr
blocks_2 = 70 ∷ 71 ∷ 72 ∷ 73 ∷ 74 ∷ 75 ∷ []

enumerated_2 :
    pci_sysfs_enum (some conf_1) (some (all_read lines_1)) (setup_world blocks_2)
    ≡ done
        (Status.success, some (infs_of (slot_1 ∷ []) ++ enum_info line_3 ∷ []))
        (setup_world (73 ∷ supply_of (slot_1 ∷ []) []))
unfolding pci_sysfs_enum enum_loop enum_line find_id calloc_struct
enumerated_2 = refl

pci_init_keeps_devices_example :
    (w1 : World) × (privs1 : Privs PciData) × (pci_sysfs_init probe_1 9
        (some (all_read lines_1))
        10
        (some conf_1)
        no_data
        (some no_devs)
        (setup_world blocks_2)
      ≡ done (Status.out_of_host_memory, privs1, some no_devs) w1)
    × Chain w1.devices w1.head_next (20 ∷ 74 ∷ [])
    × (pci_sysfs_exit 9 privs1 (some no_devs) w1 ≡ done (Status.success, privs1, some no_devs) w1)
pci_init_keeps_devices_example =
    pci_init_keeps_devices probe_1 found_1 9 10 (some (all_read lines_1)) conf_1 no_data no_devs
      (slot_1 ∷ []) (20 ∷ []) [] 73 (setup_world blocks_2) (enum_info line_3) []
      (platform_live blocks_2) enumerated_2 (ground arith) (list_20 blocks_2) (ground arith)
      (omega arith) (found-All.0, tt)

abbrev info_3 : RemoteInfo
info_3 = record { node = codes "board"; service = codes "3333" }

abbrev slot_3 : Slot RemoteInfo
slot_3 = record { dev = 74; prv = 75; inf = info_3 }

abbrev blocks_3 : List Ptr
blocks_3 = 70 ∷ 73 ∷ 74 ∷ 75 ∷ []

-- The probe connects the socket 5, and the server answers with an empty packet.
abbrev empty_reply : Conn
empty_reply =
    conn (RecvEvent.byte 36 ∷ RecvEvent.byte 35 ∷ RecvEvent.byte 48 ∷ RecvEvent.byte 48 ∷ [])
      (SendEvent.sent 19 ∷ SendEvent.sent 1 ∷ [])

abbrev probe_3 : RemoteData → Option RemoteData
probe_3 =
    remote_after_probe (record { addrinfo = true; socket = some 5; connect = true }) 0 0 empty_reply

abbrev found_3 : RemoteData
found_3 =
    record (filled_remote (with_env (some (codes "board")) none gdb_remote_openocd_conf) info_3) {
      fd_sock = some 5;
    }

connected :
    probed probe_3 gdb_remote_openocd_conf.ops
      (filled_remote (with_env (some (codes "board")) none gdb_remote_openocd_conf) info_3)
    ≡ some found_3
unfolding remote_after_probe
connected = refl

openocd_exit-init_example :
    let conf = with_env (some (codes "board")) none gdb_remote_openocd_conf in
    let one : DevTable = record { devs = some (74 ∷ []); devs_num = 1 } in
    (w1 w2 : World) × (privs1 privs2 : Privs RemoteData) × (gdb_remote_openocd_init probe_3
        (some (codes "board"))
        none
        9
        10
        gdb_remote_openocd_conf
        no_data
        no_devs
        (setup_world blocks_3)
      ≡ done (conf, (Status.success, privs1, some one)) w1)
    × Chain w1.devices w1.head_next (20 ∷ 74 ∷ [])
    × IsSetUp (λ x. found_3) conf.ops w1 privs1 slot_3
    × (gdb_remote_openocd_exit 9 privs1 one w1 ≡ done (Status.success, privs2, some no_devs) w2)
    × Chain w2.devices w2.head_next (20 ∷ [])
    × (privs2 75 ≡ none)
openocd_exit-init_example =
    openocd_exit-init probe_3 (some (codes "board")) none 9 10 gdb_remote_openocd_conf no_data
      no_devs 70 (setup_world blocks_3) (20 ∷ []) [] 73 74 75 found_3 (platform_live blocks_3) refl
      (ground arith) (ground arith) (list_20 blocks_3) (ground arith) (omega arith) connected

remote_init_no_array-exit_example :
    (w1 : World) × (left : DevTable) × (gdb_remote_init probe_3 9 10
        (some gdb_remote_openocd_conf)
        no_data
        (some no_devs)
        (setup_world (70 ∷ 0 ∷ []))
      ≡ done (Status.out_of_host_memory, no_data, some left) w1)
    × (gdb_remote_exit 9 no_data (some left) w1 ≡ fault)
remote_init_no_array-exit_example =
    remote_init_no_array-exit probe_3 none none 9 10 gdb_remote_openocd_conf no_data no_devs 70
      (setup_world (70 ∷ 0 ∷ [])) [] refl (ground arith)

-- The query of the extensions: the size at 1000, the text at 1100
platform_info-size_example :
    (w1 w2 : World) × (siz : ℕ) × (in_cl_get_platform_info 10 0x0904 0 null 1000 (setup_world [])
      ≡ done Status.success w1)
    × (load_ptr 1000 w1 ≡ done siz w1)
    × ((n : ℕ)
        → n < siz
        → in_cl_get_platform_info 10 0x0904 n 1100 null w1 ≡ done Status.invalid_value w1)
    × (in_cl_get_platform_info 10 0x0904 siz 1100 null w1 ≡ done Status.success w2)
    × (peek w2.memory 1100 siz ≡ some (codes "cl_khr_icd" ++ 0 ∷ []))
unfolding platform_text peek
platform_info-size_example =
    platform_info-size 10 0x0904 1000 1100 (codes "cl_khr_icd")
      (232 ∷ 233 ∷ 234 ∷ 235 ∷ 236 ∷ 237 ∷ 238 ∷ 239 ∷ [])
      (76 ∷ 77 ∷ 78 ∷ 79 ∷ 80 ∷ 81 ∷ 82 ∷ 83 ∷ 84 ∷ 85 ∷ 86 ∷ []) (setup_world [])
      (platform_live []) refl (ground arith) (ground arith) refl refl (inr (omega arith))

-- A configuration space with one register of 4096 bytes; `true` after all ones were written
abbrev space_read : Bool → (off n : ℕ) → ℕ
space_read true off n = if off == 0x10 then 0xffff_f000 else 0
space_read false off n = if off == 0x10 then 0xe000_0000 else 0

abbrev space_write : Bool → (off n v : ℕ) → Bool
space_write c off n v = v == 0xffff_ffff

abbrev space_written : Bool → (off n : ℕ) → Bool
space_written c off n = true

abbrev sizes_1 : ℕ → ℕ
sizes_1 i = if i == 0 then 4096 else 0

space-IsNarrow :
    (i : ℕ)
    → i < pci_res_max
    → IsNarrow space_read space_write space_written false (0x10 + i * 4) (sizes_1 i)
space-IsNarrow i lt = ground arith

bar_loop-sizes_example :
    (res : Res) × (bar_loop space_read space_write space_written pci_res_max false false
        blank_data.pci_res
      ≡ some (Status.success, false, res))
    × ((i : ℕ)
        → i < pci_res_max
        → IsSized space_read space_write space_written false res i (sizes_1 i))
bar_loop-sizes_example =
    bar_loop-sizes space_read space_write space_written sizes_1 false blank_data.pci_res refl
      space-IsNarrow

-- A device with a register of 4096 bytes whose resource opens and is mapped, and a register whose
-- resource does not open
abbrev two_read : Bool → (off n : ℕ) → ℕ
two_read c off n = if off == 0 then 0x1234 else if off == 2 then 0x5678 else space_read c off n

abbrev both_read : Bool → (off n : ℕ) → ℕ
both_read c off n = two_read c (if off == 0x14 then 0x10 else off) n

abbrev data_1 : PciData
data_1 = filled_data conf_1 (enum_info line_1)

abbrev host_1 : PciHost
host_1 = record {
  open_config = some 3;
  open_resource = λ i. if i == 0 then some 4 else none;
  map_resource = λ i. some 500;
}

-- What the probe leaves, with the values and sizes of the two registers
abbrev data_2 : PciData
data_2 = record data_1 {
  pci_res =
      (let r : PciResource = record {
        bar = 0xe000_0000;
        bar_size = 4096;
        is_64 = false;
        valid = true;
        fd = none;
        buf = null;
      } in
        r ∷ r ∷ drop 2 data_1.pci_res);
}

abbrev calls_1 : List HostCall
calls_1 = opened 3 ∷ opened 4 ∷ mapped 500 4096 ∷ unmapped 500 4096 ∷ closed 4 ∷ closed 3 ∷ []

second_fails :
    pci_sysfs_probe both_read space_write space_written host_1 false (some data_1)
    ≡ some (Status.invalid_device, false, some data_2, calls_1)
unfolding pci_sysfs_probe pci_sysfs_config pci_sysfs_remove bar_loop put_bar read_narrow map_loop
    clear_all
second_fails = refl

failed_probe-IsClosed_example : IsClosed data_2 × IsBalanced calls_1
failed_probe-IsClosed_example =
    failed_probe-IsClosed both_read space_write space_written host_1 false false data_1 data_2
      Status.invalid_device calls_1 (refl, ground arith) (λ i. ground arith) second_fails (λ e. cc)

-- An empty list of devices, and the same with the device 22
abbrev empty_world : World
empty_world = record small_world { devices = only 22 device_1; head_next = 0; dev_num = 0 }

abbrev one_world : World
one_world = record empty_world {
  devices = update empty_world.devices 22 (some device_1);
  head_next = 22;
  dev_num = 1;
  calls = DevCall.probe 22 ∷ [];
}

empty_enough : (qs : List Ptr) → Chain empty_world.devices 0 qs → length qs < 3
empty_enough [] chain = omega arith
empty_enough (q ∷ qs) (at, some_q, rest) = absurd (some_q (sym at))

added_22 : dev_add 3 22 empty_world ≡ done Status.success one_world
unfolding dev_add dev_is_valid find_last next_of probe_device set_next call_driver
added_22 = refl

step_22 : Step empty_world one_world
step_22 =
    add 3 22 device_1 Status.success (ground arith, refl, refl) empty_enough (inl refl) added_22

Reach-IsRegistry_example : (rs : List Ptr) × IsRegistry one_world rs
Reach-IsRegistry_example =
    Reach-IsRegistry [] (record { linked = refl; distinct = tt; counted = refl })
      (next here step_22)
