-- ===== src/Gdb/Reply.antt =====
-- `gdb_remote_recv` on a whole packet.
use baremetal_crt_host.Common.{
  ℕ, suc, ◌+◌, ◌-◌, ◌<◌, ◌≤◌, ◌≡◌, refl, Bool, true, List, [], ◌∷◌, ◌++◌, Bytes, length, arith,
}
use baremetal_crt_host.Cl.{Status, u64_mod}
use baremetal_crt_host.Gdb.Wire.{RecvEvent, SendEvent, Conn, done, fault}
use baremetal_crt_host.Gdb.Packet.{finished, recv_tail, gdb_remote_recv}
use baremetal_crt_host.Gdb.Send.{byte_sum}
use baremetal_crt_host.Gdb.Recv.{
  arriving, IsBody, pluses, answer_for, answered, byte_sum-le, arriving-append, read_body-done,
  before_dollar, dollar, after_dollar,
}

-- A packet with the body `text` and the checksum characters `x` and `y`, behind `k` '+'.
abbrev pub packet : ℕ → Bytes → (x y : ℕ) → Bytes
packet k text x y = pluses k (b'$' ∷ (text ++ b'#' ∷ x ∷ y ∷ []))

one_left : (k n : ℕ) → k + suc n + 4 ≡ 4097 → 4094 - k - suc n ≡ 1
one_left k n e = omega arith

-- The second character of the checksum finds no room.
tail_overruns :
    (sum : ℕ) (text : Bytes) (junk : ℕ) (ack : Bool) (c : Conn) (x y : ℕ) (rest : List RecvEvent)
    → c.incoming ≡ RecvEvent.byte x ∷ RecvEvent.byte y ∷ rest
    → recv_tail junk ack (finished 1 sum text Status.success) c ≡ fault
unfolding recv_tail
tail_overruns sum text junk ack c x y rest e = ground arith

room_left : (k : ℕ) → 4095 - k - 1 ≡ 4094 - k
room_left k = omega arith

-- `gdb_remote_recv` of a packet whose body holds no '#', behind `k` acknowledgements, which fits
-- the buffer of 4096 bytes and whose body fits `cmd`, on a socket that takes the answer: it
-- returns CL_SUCCESS and the body as it stands, with no escape undone, whatever the checksum;
-- the answer is '+' if the checksum agrees and '-' if not; and exactly the packet is read.
pub recv-packet :
    (k : ℕ) (text : Bytes) (x y junk cmdlen : ℕ) (c : Conn) (rest : List RecvEvent)
    (more : List SendEvent)
    → IsBody text
    → k + length text + 4 ≤ 4096
    → length text < cmdlen
    → cmdlen < u64_mod
    → x < 256
    → y < 256
    → c.incoming ≡ arriving (packet k text x y) rest
    → c.accepts ≡ SendEvent.sent 1 ∷ more
    → gdb_remote_recv junk cmdlen true c
      ≡ done (Status.success, text ++ 0 ∷ []) (answered c rest more (answer_for text x y junk))
unfolding gdb_remote_recv
recv-packet k text x y junk cmdlen c rest more ok fits space small hx hy e1 e2 =
    let tail : Bytes = text ++ b'#' ∷ x ∷ y ∷ [] in
    let c1 = record c { incoming = arriving tail rest } in
    rw (before_dollar k tail c rest (omega arith) e1) (
      rw (dollar (4095 - k) cmdlen c1 (omega arith)) (
        rw (room_left k) (
          after_dollar text (4094 - k) x y junk cmdlen c1 rest more ok (omega arith) space small
            (omega arith) hx hy refl e2)))

-- Where `k` acknowledgements and a packet take 4097 characters, with a body that is not empty,
-- holds no '#' and fits `cmd`, the test `p >= BUFLEN` does not stop `gdb_remote_recv`, and the last
-- character is stored behind the buffer of 4096 bytes.
pub recv_overruns :
    (k : ℕ) (b : ℕ) (text : Bytes) (x y junk cmdlen : ℕ) (ack : Bool) (c : Conn)
    (rest : List RecvEvent)
    → IsBody (b ∷ text)
    → k + length (b ∷ text) + 4 ≡ 4097
    → length (b ∷ text) < cmdlen
    → cmdlen < u64_mod
    → c.incoming ≡ arriving (packet k (b ∷ text) x y) rest
    → gdb_remote_recv junk cmdlen ack c ≡ fault
unfolding gdb_remote_recv
recv_overruns k b text x y junk cmdlen ack c rest ok over space small e =
    let tail : Bytes = (b ∷ text) ++ b'#' ∷ x ∷ y ∷ [] in
    let c1 = record c { incoming = arriving tail rest } in
    let c2 = record c { incoming = arriving (text ++ b'#' ∷ x ∷ y ∷ []) rest } in
    let left : List RecvEvent = RecvEvent.byte x ∷ RecvEvent.byte y ∷ rest in
    rw (before_dollar k tail c rest (omega arith) e) (
      rw (dollar (4095 - k) cmdlen c1 (omega arith)) (
        rw (room_left k) (
          rw
            (read_body-done text b (4094 - k) cmdlen 0 [] c2 left ok (omega arith) (omega arith)
              small (arriving-append text (b'#' ∷ x ∷ y ∷ []) rest)
              (omega (arith, byte_sum-le (b ∷ text) ok)))
            (rw (one_left k (length text) over) (
              tail_overruns (0 + byte_sum (b ∷ text)) (b ∷ text) junk ack
                (record c2 { incoming = left }) x y rest refl)))))
