-- ===== src/Tests/Gdb.antt =====
-- The GDB remote protocol on small inputs.
use baremetal_crt_host.Common.{
  ◌≡◌, refl, true, false, some, [], ◌∷◌, ◌++◌, Bytes, codes, length, arith,
}
use baremetal_crt_host.Cl.{Status}
use baremetal_crt_host.Gdb.Wire.{SendEvent, Conn, done, fault}
use baremetal_crt_host.Gdb.Hex.{hex, hex08, scan_hex2}
use baremetal_crt_host.Gdb.Packet.{gdb_remote_send, gdb_remote_recv}
use baremetal_crt_host.Gdb.Access.{
  read_request, write_request, write_loop, hex_bytes, gdb_remote_read_mem_one,
  gdb_remote_write_mem_one,
}
use baremetal_crt_host.Gdb.Send.{frame, copies, nacks, accepting, send-nacks}
use baremetal_crt_host.Gdb.Recv.{arriving, answered, answer_for}
use baremetal_crt_host.Gdb.Reply.{packet, recv-packet, recv_overruns}
use baremetal_crt_host.Gdb.RoundTrip.{recv-send_plain}
use baremetal_crt_host.Gdb.Chunks.{Requests, send_all, payload, Consecutive, write_loop_requests}
use baremetal_crt_host.Gdb.Memory.{replying, exchanged, read_mem_one-bytes}
use baremetal_crt_host.Tests.Data.{conn}

scan_runs : (scan_hex2 (codes "7f") ≡ some 127) × (scan_hex2 (codes " 7") ≡ some 7)
unfolding scan_hex2
scan_runs = (refl, refl)

hex_runs : (hex08 0x8000_0000 ≡ codes "80000000") × (hex 0x7f0 ≡ codes "7f0")
unfolding hex hex08
hex_runs = (refl, refl)

-- "vCont;c" twice rejected
abbrev rejected : Conn
rejected = conn (nacks 2 []) (accepting 3 (length (frame (codes "vCont;c"))) [])

send-nacks_example :
    gdb_remote_send (codes "vCont;c") true rejected
    ≡ done Status.success (record rejected {
      incoming = [];
      accepts = [];
      outgoing = [] ++ copies 3 (frame (codes "vCont;c"));
    })
send-nacks_example = send-nacks (codes "vCont;c") 2 rejected [] [] refl refl

abbrev silent : Conn
silent = conn [] (SendEvent.sent (length (frame (codes "k"))) ∷ [])

-- "OK" with a wrong checksum
abbrev spoilt : Conn
spoilt = conn (arriving (packet 1 (codes "OK") b'0' b'0') []) (SendEvent.sent 1 ∷ [])

recv-packet_example :
    gdb_remote_recv 0 64 true spoilt
    ≡ done
        (Status.success, codes "OK" ++ 0 ∷ [])
        (answered spoilt [] [] (answer_for (codes "OK") b'0' b'0' 0))
recv-packet_example =
    recv-packet 1 (codes "OK") b'0' b'0' 0 64 spoilt [] [] (ground arith) (omega arith)
      (omega arith) (omega arith) (omega arith) (omega arith) refl refl

-- 4092 acknowledgements in front of a packet with one character
abbrev flood : Conn
flood = conn (arriving (packet 4092 (codes "E") b'4' b'5') []) []

recv_overruns_example : gdb_remote_recv 0 64 true flood ≡ fault
recv_overruns_example =
    recv_overruns 4092 b'E' [] b'4' b'5' 0 64 true flood [] (ground arith) (omega arith)
      (omega arith) (omega arith) refl

abbrev framed : Conn
framed = conn (arriving (frame (codes "a#b")) []) (SendEvent.sent 1 ∷ [])

abbrev sender : Conn
sender = conn [] (SendEvent.sent (length (frame (codes "QStartNoAckMode"))) ∷ [])

abbrev receiver : Conn
receiver = conn [] (SendEvent.sent 1 ∷ [])

recv-send_plain_example :
    (sent : Bytes) × (gdb_remote_send (codes "QStartNoAckMode") false sender
      ≡ done Status.success (record sender { accepts = []; outgoing = [] ++ sent }))
    × (gdb_remote_recv 0 64 true (record receiver { incoming = arriving sent [] })
        ≡ done (Status.success, codes "QStartNoAckMode" ++ 0 ∷ []) (answered receiver [] [] b'+'))
recv-send_plain_example =
    recv-send_plain (codes "QStartNoAckMode") sender 0 64 receiver [] [] [] (ground arith)
      (ground arith) (omega arith) (omega arith) (omega arith) refl refl

write_loop_requests_example :
    (rs : Requests) × ((c : Conn)
      → write_loop (gdb_remote_write_mem_one 0) (length (codes "data")) 0x8000_0000 (codes "data") c
        ≡ send_all (gdb_remote_write_mem_one 0) rs c)
    × (payload rs ≡ codes "data")
    × Consecutive 0x8000_0000 rs
write_loop_requests_example =
    write_loop_requests (gdb_remote_write_mem_one 0) 0x8000_0000 (codes "data")

-- A read of two bytes
abbrev reading : Conn
reading =
    conn (replying (hex_bytes (0xde ∷ 0xad ∷ [])) [])
      (accepting 1 (length (frame (read_request 0x100 2))) (SendEvent.sent 1 ∷ []))

read_mem_one-bytes_example :
    gdb_remote_read_mem_one 0 0x100 2 reading
    ≡ done (Status.success, 0xde ∷ 0xad ∷ []) (exchanged reading (read_request 0x100 2) [] [])
read_mem_one-bytes_example =
    read_mem_one-bytes 0 0x100 (0xde ∷ 0xad ∷ []) reading [] [] (ground arith) (omega arith) refl
      refl refl

-- A write that the device refuses with an error code
abbrev refused : Conn
refused =
    conn (replying (codes "E1") [])
      (accepting 1 (length (frame (write_request 0x100 (0xde ∷ [])))) (SendEvent.sent 1 ∷ []))
