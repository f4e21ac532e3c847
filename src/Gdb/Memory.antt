-- ===== src/Gdb/Memory.antt =====
-- One read and one write of device memory.
use baremetal_crt_host.Common.{
  ℕ, zero, suc, ◌+◌, ◌-◌, ◌*◌, ◌/◌, ◌%◌, ◌^◌, ◌<◌, ◌≤◌, ◌≡◌, refl, ap, ◌∙◌, true, false, Bool, List,
  [], ◌∷◌, ◌++◌, Bytes, ltb, if◌then◌else◌, length, arith,
}
use baremetal_crt_host.Cl.{Status, u64_mod}
use baremetal_crt_host.Gdb.Wire.{
  RecvEvent, SendEvent, Conn, done, pure, and_then, test◌then◌else◌, next_alloc,
}
use baremetal_crt_host.Gdb.Hex.{hex_digit, hex_fixed, more_digits, hex, hex08, scan_hex2-hex2}
use baremetal_crt_host.Gdb.Packet.{gdb_remote_send, gdb_remote_recv}
use baremetal_crt_host.Gdb.Send.{byte_sum, frame, copies, nacks, accepting, send-nacks}
use baremetal_crt_host.Gdb.Recv.{arriving, IsBody, answered}
use baremetal_crt_host.Gdb.Reply.{packet, recv-packet}
use baremetal_crt_host.Gdb.RoundTrip.{AreBytes, answer_good, hex_digit-lt}
use baremetal_crt_host.Gdb.Access.{
  max_chunk, read_request, decode_reply, hex_bytes, gdb_remote_read_mem_one, write_request,
  write_one, gdb_remote_write_mem_one,
}

length-hex_bytes : (bs : Bytes) → length (hex_bytes bs) ≡ 2 * length bs
unfolding hex_bytes
length-hex_bytes [] = refl
length-hex_bytes (b ∷ bs) = omega (arith, length-hex_bytes bs)

hex_bytes-IsBody : (bs : Bytes) → AreBytes bs → IsBody (hex_bytes bs)
unfolding hex_bytes
hex_bytes-IsBody [] ok = tt
hex_bytes-IsBody (b ∷ bs) ok = (
  (hex_digit-lt (b / 16) (omega arith), ground arith),
  ((hex_digit-lt (b % 16) (omega arith), ground arith), hex_bytes-IsBody bs ok.1),
)

-- The loop of a memory read that decodes the reply undoes the loop of a memory write that encodes
-- the bytes: on the text of `bs`, with any text behind it, and where its count `left` of characters
-- is not used up before, it stores exactly `bs`.
pub decode_reply-hex_bytes :
    (bs : Bytes) (left : ℕ) (rest : Bytes)
    → AreBytes bs
    → 2 * length bs ≤ left
    → decode_reply (length bs) left (hex_bytes bs ++ rest) ≡ bs
unfolding decode_reply hex_bytes
decode_reply-hex_bytes [] left rest ok fits = refl
decode_reply-hex_bytes (b ∷ bs) left rest ok fits = ground (
  arith,
  scan_hex2-hex2 b (hex_bytes bs ++ rest) ok.0,
  decode_reply-hex_bytes bs (left - 2) rest ok.1,
)

-- What a device does that accepts a request at once and replies with the packet of `text`: the
-- script of the answers, and the socket's.
abbrev pub replying : Bytes → List RecvEvent → List RecvEvent
replying text rest =
    let s = byte_sum text % 256 in
    nacks 0 (arriving (packet 0 text (hex_digit (s / 16)) (hex_digit (s % 16))) rest)

-- The exchange of a request and its reply, on the connection `c`.
abbrev pub exchanged : Conn → Bytes → List RecvEvent → List SendEvent → Conn
exchanged c request rest more = record c {
  incoming = rest;
  accepts = more;
  outgoing = (c.outgoing ++ copies 1 (frame request)) ++ b'+' ∷ [];
}

module _ (request text : Bytes) (junk cmdlen : ℕ) (c : Conn) (rest : List RecvEvent)
    (more : List SendEvent) (ok : IsBody text) (fits : length text + 4 ≤ 4096)
    (space : length text < cmdlen) (small : cmdlen < u64_mod)
    (replies : c.incoming ≡ replying text rest)
    (takes : c.accepts ≡ accepting 1 (length (frame request)) (SendEvent.sent 1 ∷ more)) where
  -- The state between the request and the reply.
  abbrev pub requested : Conn
  requested =
      let s = byte_sum text % 256 in
      record c {
        incoming = arriving (packet 0 text (hex_digit (s / 16)) (hex_digit (s % 16))) rest;
        accepts = SendEvent.sent 1 ∷ more;
        outgoing = c.outgoing ++ copies 1 (frame request);
      }

  pub request_sent : gdb_remote_send request true c ≡ done Status.success requested
  request_sent = send-nacks request 0 c requested.incoming (SendEvent.sent 1 ∷ more) replies takes

  pub reply_read :
      gdb_remote_recv junk cmdlen true requested
      ≡ done (Status.success, text ++ 0 ∷ []) (exchanged c request rest more)
  reply_read =
      let s = byte_sum text % 256 in
      recv-packet 0 text (hex_digit (s / 16)) (hex_digit (s % 16)) junk cmdlen requested rest more
        ok (omega arith) space small (hex_digit-lt (s / 16) (omega arith))
        (hex_digit-lt (s % 16) (omega arith)) refl refl
      ∙ ap (λ a. done (Status.success, text ++ 0 ∷ []) (answered requested rest more a))
          (answer_good text junk)

alloc-nil : (c : Conn) → c.allocs ≡ [] → next_alloc c ≡ done true c
unfolding next_alloc
alloc-nil c e = ground arith

-- Whatever the inner status is, the result is CL_SUCCESS.
any_reply :
    (b : Bool) (c : Conn) (r : Status)
    → and_then ((test b then pure Status.success else pure r) c) (λ _. pure Status.success)
      ≡ done Status.success c
any_reply true c r = refl
any_reply false c r = refl

abbrev pow16 : ℕ → ℕ
pow16 zero = 1
pow16 (suc f) = 16 * pow16 f

all_digits : (f n : ℕ) → pow16 f ≤ n → more_digits f n ≡ f
unfolding more_digits
all_digits zero n h = refl
all_digits (suc f) n h = ground (arith, all_digits f (n / 16), pow16_pos f)
  where
    pow16_pos : (g : ℕ) → 0 < pow16 g
    pow16_pos zero = omega arith
    pow16_pos (suc g) = omega (arith, pow16_pos g)

sixteen : (n : ℕ) → 2 ^ 60 ≤ n → hex08 n ≡ hex_fixed 16 n
unfolding hex08
sixteen n h = rw (all_digits 15 n h)

three : (n : ℕ) → 2 ^ 8 ≤ n → n < 2 ^ 12 → hex n ≡ hex_fixed 3 n
unfolding hex
three n lo hi = ground arith

one : (n : ℕ) → n < 2 ^ 12 → hex (n / 2 ^ 8) ≡ hex_fixed 1 (n / 2 ^ 8)
unfolding hex
one n hi = ground arith

chunk_in_range : (n : ℕ) → n ≤ max_chunk → ltb max_chunk n ≡ false
chunk_in_range n le = ground arith

-- `gdb_remote_read_mem_one` of at most 0x7f0 bytes, where `calloc` succeeds and the device takes
-- the request and replies with the two-digit hexadecimal text of `bs`: it returns CL_SUCCESS and
-- stores exactly `bs`, after sending the request once and acknowledging the reply.
pub read_mem_one-bytes :
    (junk paddr : ℕ) (bs : Bytes) (c : Conn) (rest : List RecvEvent) (more : List SendEvent)
    → AreBytes bs
    → length bs ≤ max_chunk
    → c.allocs ≡ []
    → c.incoming ≡ replying (hex_bytes bs) rest
    → c.accepts
      ≡ accepting 1 (length (frame (read_request paddr (length bs)))) (SendEvent.sent 1 ∷ more)
    → gdb_remote_read_mem_one junk paddr (length bs) c
      ≡ done (Status.success, bs) (exchanged c (read_request paddr (length bs)) rest more)
unfolding gdb_remote_read_mem_one
read_mem_one-bytes junk paddr bs c rest more ok le none_left replies takes =
    let len = length-hex_bytes bs in
    let request = read_request paddr (length bs) in
    let size = length bs * 2 + 64 - 1 in
    let body = hex_bytes-IsBody bs ok in
    let short : length (hex_bytes bs) + 4 ≤ 4096 = omega arith in
    let space : length (hex_bytes bs) < size = omega arith in
    let small : size < u64_mod = omega arith in
    let sent_it =
      request_sent request (hex_bytes bs) junk size c rest more body short space small replies
        takes in
    let got_it =
      reply_read request (hex_bytes bs) junk size c rest more body short space small replies
        takes in
    let decoded = decode_reply-hex_bytes bs (length bs * 2 + 64) (0 ∷ []) ok (omega arith) in
    let sent =
      requested request (hex_bytes bs) junk size c rest more body short space small replies takes in
    rw (chunk_in_range (length bs) le) (
      rw sent_it (
        rw (alloc-nil sent none_left)
          (rw got_it (ap (λ t. done (Status.success, t) (exchanged c request rest more)) decoded))))

-- `gdb_remote_write_mem_one` of at most 0x7f0 bytes, where `calloc` succeeds and the device takes
-- the request and replies with any text of at most two characters without '#', such as an error
-- code: the result is CL_SUCCESS, whatever the reply says.
pub write_mem_one_ignores_reply :
    (junk paddr : ℕ) (buf text : Bytes) (c : Conn) (rest : List RecvEvent) (more : List SendEvent)
    → length buf ≤ max_chunk
    → c.allocs ≡ []
    → IsBody text
    → length text < 3
    → c.incoming ≡ replying text rest
    → c.accepts ≡ accepting 1 (length (frame (write_request paddr buf))) (SendEvent.sent 1 ∷ more)
    → gdb_remote_write_mem_one junk paddr buf c
      ≡ done Status.success (exchanged c (write_request paddr buf) rest more)
unfolding gdb_remote_write_mem_one write_one
write_mem_one_ignores_reply junk paddr buf text c rest more le none_left ok short replies takes =
    let request = write_request paddr buf in
    let sent_it =
      request_sent request text junk 3 c rest more ok (omega arith) short (omega arith) replies
        takes in
    let got_it =
      reply_read request text junk 3 c rest more ok (omega arith) short (omega arith) replies
        takes in
    rw (chunk_in_range (length buf) le)
      (rw (alloc-nil c none_left) (rw sent_it (rw got_it (any_reply _ _ _))))

-- `snprintf` keeps 19 characters of the read request: for an address of sixteen digits and a
-- length of three digits it cuts the last two digits of the length off, so that the request asks
-- for the number of bytes that the first digit says.
pub read_request_cut :
    (paddr len : ℕ)
    → 2 ^ 60 ≤ paddr
    → 2 ^ 8 ≤ len
    → len < 2 ^ 12
    → read_request paddr len ≡ b'm' ∷ (hex_fixed 16 paddr ++ b',' ∷ hex (len / 2 ^ 8))
unfolding read_request hex_fixed
read_request_cut paddr len hp lo hi =
    let first : hex_digit (len / 16 / 16 % 16) ≡ hex_digit (len / 2 ^ 8 % 16) =
      ap hex_digit (omega arith) in
    rw (sixteen paddr hp, three len lo hi, one len hi) (rw first)
