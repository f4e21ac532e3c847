-- ===== src/Gdb/Send.antt =====
-- What `gdb_remote_send` puts on the wire.
use Prim.Native.Nat.{bit_xor}
use baremetal_crt_host.Common.{
  ℕ, zero, suc, ◌+◌, ◌*◌, ◌%◌, ◌<◌, ◌≤◌, ◌≡◌, refl, ap, ◌∙◌, Bool, true, false, List, [], ◌∷◌, ◌++◌,
  Bytes, if◌then◌else◌, length, take-length, length-append, append_assoc, append-nil, arith,
}
use baremetal_crt_host.Cl.{Status}
use baremetal_crt_host.Gdb.Wire.{RecvEvent, SendEvent, Conn, done}
use baremetal_crt_host.Gdb.Hex.{hex2}
use baremetal_crt_host.Gdb.Packet.{is_special, stuffed, stuff_loop, resend, gdb_remote_send}

-- The escaped text of a command: '#', '$', '}' and '*' become '}' and the character with bit 5
-- flipped.
abbrev pub stuff : Bytes → Bytes
stuff [] = []
stuff (c ∷ cmd) = (if is_special c then b'}' ∷ bit_xor c 0x20 ∷ [] else c ∷ []) ++ stuff cmd

abbrev pub byte_sum : Bytes → ℕ
byte_sum [] = 0
byte_sum (b ∷ bs) = b + byte_sum bs

-- A packet of the protocol: '$', the escaped text, '#' and the checksum in two digits.
abbrev pub frame : Bytes → Bytes
frame cmd = b'$' ∷ (stuff cmd ++ b'#' ∷ hex2 (byte_sum (stuff cmd) % 256))

abbrev pub copies : ℕ → Bytes → Bytes
copies zero p = []
copies (suc n) p = p ++ copies n p

pub length-stuff : (cmd : Bytes) → length (stuff cmd) ≤ 2 * length cmd
length-stuff [] = omega arith
length-stuff (c ∷ cmd) = ground (arith, length-stuff cmd)

-- The buffer is never too short, and the loop writes the escaped text.
pub stuff_loop-stuff :
    (cmd : Bytes) (i buflen : ℕ) (buf : Bytes) (sum : ℕ)
    → length buf + 2 * length cmd ≤ buflen
    → i + length cmd < buflen
    → sum < 256
    → stuff_loop i buflen cmd buf sum
      ≡ stuffed (buf ++ stuff cmd) ((sum + byte_sum (stuff cmd)) % 256)
unfolding stuff_loop
stuff_loop-stuff [] i buflen buf sum room lt small = ground (arith, append-nil buf)
stuff_loop-stuff (c ∷ cmd) i buflen buf sum room lt small = ground (
  arith,
  length-append buf (c ∷ []),
  length-append buf (b'}' ∷ bit_xor c 0x20 ∷ []),
  append_assoc buf (c ∷ []) (stuff cmd),
  append_assoc buf (b'}' ∷ bit_xor c 0x20 ∷ []) (stuff cmd),
  stuff_loop-stuff cmd (i + 1) buflen (buf ++ c ∷ []) ((sum + c) % 256),
  stuff_loop-stuff cmd (i + 1) buflen (buf ++ b'}' ∷ bit_xor c 0x20 ∷ [])
      ((sum + b'}' + bit_xor c 0x20) % 256),
)

-- What the peer answers: `n` times '-', then '+', then the rest.
abbrev pub nacks : ℕ → List RecvEvent → List RecvEvent
nacks zero rest = RecvEvent.byte b'+' ∷ rest
nacks (suc n) rest = RecvEvent.byte b'-' ∷ nacks n rest

-- `n` calls of `send` that take `k` bytes each, then the rest.
abbrev pub accepting : ℕ → ℕ → List SendEvent → List SendEvent
accepting zero k rest = rest
accepting (suc n) k rest = SendEvent.sent k ∷ accepting n k rest

resend-nacks :
    (n fuel : ℕ) (packet : Bytes) (c : Conn) (rest : List RecvEvent) (more : List SendEvent)
    → n < fuel
    → c.incoming ≡ nacks n rest
    → c.accepts ≡ accepting (suc n) (length packet) more
    → resend fuel packet true c
      ≡ done Status.success (record c {
        incoming = rest;
        accepts = more;
        outgoing = c.outgoing ++ copies (suc n) packet;
      })
unfolding resend
resend-nacks n zero packet c rest more lt e1 e2 = absurd (omega arith)
resend-nacks zero (suc fuel) packet c rest more lt e1 e2 =
    ground (arith, take-length packet, append-nil packet)
resend-nacks (suc n) (suc fuel) packet c rest more lt e1 e2 =
    let c1 = record c {
      incoming = nacks n rest;
      accepts = accepting (suc n) (length packet) more;
      outgoing = c.outgoing ++ packet;
    } in
    ground (
      arith,
      take-length packet,
      append_assoc c.outgoing packet (copies (suc n) packet),
      resend-nacks n fuel packet c1 rest more (omega arith) refl refl,
    )

length-nacks : (n : ℕ) (rest : List RecvEvent) → n ≤ length (nacks n rest)
length-nacks zero rest = omega arith
length-nacks (suc n) rest = omega (arith, length-nacks n rest)

pub length-frame : (cmd : Bytes) → length (frame cmd) ≡ length (stuff cmd) + 4
length-frame cmd =
    omega (arith, length-append (stuff cmd) (b'#' ∷ hex2 (byte_sum (stuff cmd) % 256)))

-- The packet is built in full and handed to the loop that sends it.
pub send-resend :
    (cmd : Bytes) (ack : Bool) (c : Conn)
    → gdb_remote_send cmd ack c ≡ resend (suc (length c.incoming)) (frame cmd) ack c
unfolding gdb_remote_send
send-resend cmd ack c =
    let loop =
      stuff_loop-stuff cmd 0 (length cmd * 2 + 10) (b'$' ∷ []) 0 (omega arith) (omega arith)
        (omega arith) in
    ground (arith, loop, length-frame cmd, length-stuff cmd)

-- `gdb_remote_send` of any command to a peer that answers `n` times '-' and then '+', over a
-- socket that takes each packet whole: it succeeds, the packet of the command has gone out
-- `n + 1` times and nothing else, and exactly those answers have been read.
pub send-nacks :
    (cmd : Bytes) (n : ℕ) (c : Conn) (rest : List RecvEvent) (more : List SendEvent)
    → c.incoming ≡ nacks n rest
    → c.accepts ≡ accepting (suc n) (length (frame cmd)) more
    → gdb_remote_send cmd true c
      ≡ done Status.success (record c {
        incoming = rest;
        accepts = more;
        outgoing = c.outgoing ++ copies (suc n) (frame cmd);
      })
send-nacks cmd n c rest more e1 e2 =
    send-resend cmd true c
    ∙ resend-nacks n (suc (length c.incoming)) (frame cmd) c rest more
        (omega (arith, length-nacks n rest, ap length e1)) e1 e2

-- Without acknowledgement, over a socket that takes the packet whole, `gdb_remote_send` of any
-- command succeeds, sends the packet of the command once and reads nothing.
pub send_no_ack :
    (cmd : Bytes) (c : Conn) (more : List SendEvent)
    → c.accepts ≡ SendEvent.sent (length (frame cmd)) ∷ more
    → gdb_remote_send cmd false c
      ≡ done Status.success (record c { accepts = more; outgoing = c.outgoing ++ frame cmd })
unfolding resend
send_no_ack cmd c more e = send-resend cmd false c ∙ ground (arith, take-length (frame cmd))
