-- ===== src/Gdb/RoundTrip.antt =====
-- What one end sends the other receives.
use baremetal_crt_host.Common.{
  ℕ, ◌+◌, ◌/◌, ◌%◌, ◌<◌, ◌≤◌, ◌≡◌, ◌≢◌, refl, ap, ◌∙◌, true, false, List, [], ◌∷◌, ◌++◌, Bytes,
  length, All, arith,
}
use baremetal_crt_host.Cl.{Status, u64_mod}
use baremetal_crt_host.Gdb.Wire.{RecvEvent, SendEvent, Conn, done}
use baremetal_crt_host.Gdb.Hex.{hex_digit, scan_hex2-hex2}
use baremetal_crt_host.Gdb.Packet.{is_special, gdb_remote_send, gdb_remote_recv}
use baremetal_crt_host.Gdb.Send.{stuff, byte_sum, frame, send_no_ack}
use baremetal_crt_host.Gdb.Recv.{arriving, IsBody, answered, answer_for}
use baremetal_crt_host.Gdb.Reply.{recv-packet}

abbrev pub AreBytes : Bytes → Type 0
AreBytes = All (λ b. b < 256)

-- The escaped text of a command holds no '#'.
pub stuff-IsBody : (cmd : Bytes) → AreBytes cmd → IsBody (stuff cmd)
stuff-IsBody [] ok = tt
stuff-IsBody (c ∷ cmd) ok = ground (arith, stuff-IsBody cmd ok.1)

abbrev pub IsPlain : Bytes → Type 0
IsPlain = All (λ b. is_special b ≡ false)

stuff_plain : (cmd : Bytes) → IsPlain cmd → stuff cmd ≡ cmd
stuff_plain [] plain = refl
stuff_plain (c ∷ cmd) plain = ground (arith, stuff_plain cmd plain.1)

pub answer_good :
    (cmd : Bytes) (junk : ℕ)
    → let s = byte_sum cmd % 256 in
      answer_for cmd (hex_digit (s / 16)) (hex_digit (s % 16)) junk ≡ b'+'
answer_good cmd junk = ground (arith, scan_hex2-hex2 (byte_sum cmd % 256) [])

pub hex_digit-lt : (n : ℕ) → n < 16 → hex_digit n < 256
hex_digit-lt n h = ground arith

-- The packet that `gdb_remote_send` makes of a command of bytes, read by `gdb_remote_recv`: if
-- it fits both buffers, the receiver returns CL_SUCCESS, answers '+' and has read exactly the
-- packet; what it returns is the escaped text of the command.
pub recv-frame :
    (cmd : Bytes) (junk cmdlen : ℕ) (c : Conn) (rest : List RecvEvent) (more : List SendEvent)
    → AreBytes cmd
    → length (stuff cmd) + 4 ≤ 4096
    → length (stuff cmd) < cmdlen
    → cmdlen < u64_mod
    → c.incoming ≡ arriving (frame cmd) rest
    → c.accepts ≡ SendEvent.sent 1 ∷ more
    → gdb_remote_recv junk cmdlen true c
      ≡ done (Status.success, stuff cmd ++ 0 ∷ []) (answered c rest more b'+')
recv-frame cmd junk cmdlen c rest more ok fits space small e1 e2 =
    let s = byte_sum (stuff cmd) % 256 in
    recv-packet 0 (stuff cmd) (hex_digit (s / 16)) (hex_digit (s % 16)) junk cmdlen c rest more
      (stuff-IsBody cmd ok) (omega arith) space small (hex_digit-lt (s / 16) (omega arith))
      (hex_digit-lt (s % 16) (omega arith)) e1 e2
    ∙ ap (λ a. done (Status.success, stuff cmd ++ 0 ∷ []) (answered c rest more a))
        (answer_good (stuff cmd) junk)

-- A command without '#', '$', '}' and '*' that one side sends (without waiting for an answer)
-- is what the other side receives, with the terminating zero, and is answered by '+'; the
-- packet must fit both buffers.
pub recv-send_plain :
    (cmd : Bytes) (s : Conn) (junk cmdlen : ℕ) (c : Conn) (rest : List RecvEvent)
    (more more' : List SendEvent)
    → AreBytes cmd
    → IsPlain cmd
    → length cmd + 4 ≤ 4096
    → length cmd < cmdlen
    → cmdlen < u64_mod
    → s.accepts ≡ SendEvent.sent (length (frame cmd)) ∷ more'
    → c.accepts ≡ SendEvent.sent 1 ∷ more
    → (sent : Bytes) × (gdb_remote_send cmd false s
        ≡ done Status.success (record s { accepts = more'; outgoing = s.outgoing ++ sent }))
      × (gdb_remote_recv junk cmdlen true (record c { incoming = arriving sent rest })
          ≡ done (Status.success, cmd ++ 0 ∷ []) (answered c rest more b'+'))
recv-send_plain cmd s junk cmdlen c rest more more' ok plain fits space small e1 e2 =
    let same = stuff_plain cmd plain in
    let c1 = record c { incoming = arriving (frame cmd) rest } in
    (
      frame cmd,
      send_no_ack cmd s more' e1,
      recv-frame cmd junk cmdlen c1 rest more ok (rw same fits) (rw same space) small refl e2
          ∙ ap (λ t. done (Status.success, t ++ 0 ∷ []) (answered c1 rest more b'+')) same,
    )

stuff_grows : (cmd : Bytes) → length cmd ≤ length (stuff cmd)
stuff_grows [] = omega arith
stuff_grows (c ∷ cmd) = ground (arith, stuff_grows cmd)

stuff_special :
    (pre post : Bytes) (c : ℕ)
    → is_special c ≡ true
    → length (pre ++ c ∷ post) < length (stuff (pre ++ c ∷ post))
stuff_special [] post c h = ground (arith, stuff_grows post)
stuff_special (p ∷ pre) post c h = ground (arith, stuff_special pre post c h)

-- The receiver does not undo the escapes: whatever command with a '#', '$', '}' or '*' in it was
-- sent, if its packet fits both buffers, what is returned as received is not the command.
pub recv-frame_special :
    (pre post : Bytes) (s junk cmdlen : ℕ) (c : Conn) (rest : List RecvEvent)
    (more : List SendEvent)
    → is_special s ≡ true
    → AreBytes (pre ++ s ∷ post)
    → length (stuff (pre ++ s ∷ post)) + 4 ≤ 4096
    → length (stuff (pre ++ s ∷ post)) < cmdlen
    → cmdlen < u64_mod
    → c.incoming ≡ arriving (frame (pre ++ s ∷ post)) rest
    → c.accepts ≡ SendEvent.sent 1 ∷ more
    → (out : Bytes) × (gdb_remote_recv junk cmdlen true c
        ≡ done (Status.success, out ++ 0 ∷ []) (answered c rest more b'+'))
      × (out ≢ pre ++ s ∷ post)
recv-frame_special pre post s junk cmdlen c rest more special ok fits space small e1 e2 =
    let cmd = pre ++ s ∷ post in
    (
      stuff cmd,
      recv-frame cmd junk cmdlen c rest more ok fits space small e1 e2,
      λ e. omega (arith, ap length e, stuff_special pre post s special),
    )
