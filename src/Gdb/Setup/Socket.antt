-- ===== src/Gdb/Setup/Socket.antt =====
-- The socket of a GDB device, `gdb_remote_probe` and `gdb_remote_remove` of
-- drivers/gdb/gdb_remote.c, and the reset of drivers/gdb/gdb_remote_openocd.c. What the calls of the
-- network answer is given.
use baremetal_crt_host.Common.{
  ℕ, zero, suc, ◌-◌, ◌≡◌, refl, Bool, true, false, not, Option, none, some, codes, length, arith,
}
use baremetal_crt_host.Cl.{Status, is_success}
use baremetal_crt_host.Gdb.Wire.{
  Conn, Net, done, blocked, fault, out_of_fuel, pure, ◌>>=◌, test◌then◌else◌, ◌⨟◌,
}
use baremetal_crt_host.Gdb.Packet.{gdb_remote_send, gdb_remote_recv, gdb_remote_discard_all}
use baremetal_crt_host.Gdb.Access.{c_string, bytes_equal}
use baremetal_crt_host.Gdb.Setup.{RemoteConf, RemoteInfo, RemoteData, filled_remote}

-- Whether `getaddrinfo` succeeds, the descriptor that `socket` gives, `none` for -1, and whether
-- `connect` succeeds
pub record NetAnswers : Type 0 where
  pub addrinfo : Bool
  pub socket : Option ℕ
  pub connect : Bool

-- The status, and the data of the device; `none` where the device or its data are NULL.
unfoldable pub gdb_remote_probe :
    NetAnswers → (junk first : ℕ) → Option RemoteData → Net (Status × Option RemoteData)
unfolding gdb_remote_discard_all
gdb_remote_probe net junk first none = pure (Status.invalid_device, none)
gdb_remote_probe net junk first (some prv) =
    test not net.addrinfo then pure (Status.out_of_host_memory, some prv) else do
      let prv' : RemoteData = record prv { fd_sock = net.socket }
      elim net.socket [
        | none ↦ pure (Status.out_of_host_memory, some prv')
        | some fd ↦
            test not net.connect
            then pure (Status.out_of_host_memory, some prv')
            else do _ ← gdb_remote_discard_all junk first; pure (Status.success, some prv')
      ]

-- What the probe leaves in the data of a device, on a connection as it is after the set-up
unfoldable pub remote_after_probe :
    NetAnswers → (junk first : ℕ) → Conn → RemoteData → Option RemoteData
unfolding gdb_remote_probe
remote_after_probe net junk first c prv = elim (gdb_remote_probe net junk first (some prv) c) [
  | done (_, prv') _ ↦ prv'
  | blocked ↦ none
  | fault ↦ none
  | out_of_fuel ↦ none
]

-- The status, and the descriptor that is closed; `close(-1)` does nothing.
unfoldable pub gdb_remote_remove : Option RemoteData → Status × Option ℕ
gdb_remote_remove none = (Status.invalid_device, none)
gdb_remote_remove (some prv) = (Status.success, prv.fd_sock)

-- `while (1)` of `gdb_remote_openocd_reset`. Each round takes a character, so the length of the
-- script is enough fuel.
unfoldable pub reset_loop : ℕ → (junk : ℕ) → Net Status
unfolding gdb_remote_recv c_string bytes_equal
reset_loop zero junk = λ c. out_of_fuel
reset_loop (suc fuel) junk = do
  (r, out) ← gdb_remote_recv junk (4096 - 1) true
  test not (is_success r)
      then pure r
      else test bytes_equal (c_string out) (codes "OK")
      then pure Status.success
      else reset_loop fuel junk

unfoldable pub gdb_remote_openocd_reset : Bool → (junk : ℕ) → Net Status
unfolding reset_loop gdb_remote_send
gdb_remote_openocd_reset attached junk =
    test not attached
    then pure Status.invalid_device
    else gdb_remote_send (codes "qRcmd,72657365742068616c74") true ⨟ λ c.
        reset_loop (suc (length c.incoming)) junk c

-- Where the address of a new device is not found, its probe fails and leaves the descriptor 0 in
-- its data, and its removal closes that descriptor, which is not the device's.
pub failed_probe-closes_0 :
    (net : NetAnswers) (junk first : ℕ) (conf : RemoteConf) (info : RemoteInfo) (c : Conn)
    → net.addrinfo ≡ false
    → (prv : RemoteData) × (gdb_remote_probe net junk first (some (filled_remote conf info)) c
        ≡ done (Status.out_of_host_memory, some prv) c)
      × (gdb_remote_remove (some prv) ≡ (Status.success, some 0))
unfolding gdb_remote_probe gdb_remote_remove
failed_probe-closes_0 net junk first conf info c unknown =
    (filled_remote conf info, ground arith, refl)
