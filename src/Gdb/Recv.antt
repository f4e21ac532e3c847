-- ===== src/Gdb/Recv.antt =====
-- What `gdb_remote_recv` makes of what comes in.
use baremetal_crt_host.Common.{
  ℕ, zero, suc, ◌+◌, ◌-◌, ◌*◌, ◌%◌, ◌^◌, ◌<◌, ◌≤◌, ◌≡◌, ◌≢◌, refl, ap, true, List, [], ◌∷◌, ◌++◌,
  Bytes, ◌==◌, if◌then◌else◌, length, All, length-append, append_assoc, arith,
}
use baremetal_crt_host.Cl.{Status, u64_mod}
use baremetal_crt_host.Gdb.Wire.{RecvEvent, SendEvent, Conn, done, ◌>>=◌, gdb_remote_getchar}
use baremetal_crt_host.Gdb.Hex.{scan_hex2}
use baremetal_crt_host.Gdb.Packet.{skip_acks, skip_dollar, finished, read_body, recv_tail, value_or}
use baremetal_crt_host.Gdb.Send.{byte_sum}

-- The bytes come in one by one.
abbrev pub arriving : Bytes → List RecvEvent → List RecvEvent
arriving [] rest = rest
arriving (b ∷ bs) rest = RecvEvent.byte b ∷ arriving bs rest

pub arriving-append :
    (xs ys : Bytes) (rest : List RecvEvent)
    → arriving (xs ++ ys) rest ≡ arriving xs (arriving ys rest)
arriving-append [] ys rest = refl
arriving-append (x ∷ xs) ys rest = ap (λ es. RecvEvent.byte x ∷ es) (arriving-append xs ys rest)

-- Bytes that the body of a packet may hold.
abbrev pub IsBody : Bytes → Type 0
IsBody = All (λ b. (b < 256) × (b ≢ b'#'))

abbrev pub with_incoming : Conn → List RecvEvent → Conn
with_incoming c es = record c { incoming = es }

-- The loop over a body that fits both arrays stores it and sums it up. `ch` has been read.
pub read_body-done :
    (body : Bytes) (ch room cmdlen sum : ℕ) (out : Bytes) (c : Conn) (rest : List RecvEvent)
    → IsBody (ch ∷ body)
    → suc (length body) < room
    → length out + suc (length body) < cmdlen
    → cmdlen < u64_mod
    → c.incoming ≡ arriving body (RecvEvent.byte b'#' ∷ rest)
    → sum + byte_sum (ch ∷ body) < 2 ^ 32
    → read_body room cmdlen ch sum out Status.success c
      ≡ done
          (finished
            (room - suc (length body))
            (sum + byte_sum (ch ∷ body))
            (out ++ ch ∷ body)
            Status.success)
          (with_incoming c rest)
unfolding read_body
read_body-done body ch zero cmdlen sum out c rest ok fits space small e total = absurd (omega arith)
read_body-done [] ch (suc zero) cmdlen sum out c rest ok fits space small e total =
    absurd (omega arith)
read_body-done [] ch (suc (suc room)) cmdlen sum out c rest ok fits space small e total =
    ground arith
read_body-done (b ∷ body) ch (suc room) cmdlen sum out c rest ok fits space small e total = ground (
  arith,
  append_assoc out (ch ∷ []) (b ∷ body),
  length-append out (ch ∷ []),
  read_body-done body b room cmdlen (sum + ch) (out ++ ch ∷ [])
      (with_incoming c (arriving body (RecvEvent.byte b'#' ∷ rest))) rest ok.1,
)

pub byte_sum-le : (body : Bytes) → IsBody body → byte_sum body ≤ 255 * length body
byte_sum-le [] ok = omega arith
byte_sum-le (b ∷ body) ok = omega (arith, byte_sum-le body ok.1)

-- `k` more '+' and a '$'.
abbrev pub pluses : ℕ → Bytes → Bytes
pluses zero text = text
pluses (suc k) text = b'+' ∷ pluses k text

skip_acks-pluses :
    (k room : ℕ) (text : Bytes) (c : Conn) (rest : List RecvEvent)
    → suc k ≤ room
    → c.incoming ≡ arriving (pluses k (b'$' ∷ text)) rest
    → skip_acks room b'+' c ≡ done (b'$', room - suc k) (with_incoming c (arriving text rest))
unfolding skip_acks
skip_acks-pluses k zero text c rest fits e = absurd (omega arith)
skip_acks-pluses zero (suc zero) text c rest fits e = ground arith
skip_acks-pluses zero (suc (suc room)) text c rest fits e = ground arith
skip_acks-pluses (suc k) (suc room) text c rest fits e = ground (
  arith,
  skip_acks-pluses k room text (with_incoming c (arriving (pluses k (b'$' ∷ text)) rest)) rest,
)

-- The state after a packet was taken and answered.
abbrev pub answered : Conn → List RecvEvent → List SendEvent → ℕ → Conn
answered c rest more answer = record c {
  incoming = rest;
  accepts = more;
  outgoing = c.outgoing ++ answer ∷ [];
}

-- '+' for a checksum that agrees, '-' for another.
abbrev pub answer_for : Bytes → (x y junk : ℕ) → ℕ
answer_for text x y junk =
    if byte_sum text % 256 == value_or (scan_hex2 (x ∷ y ∷ [])) junk then b'+' else b'-'

recv_tail-answered :
    (text : Bytes) (room x y junk : ℕ) (r : Status) (c : Conn) (rest : List RecvEvent)
    (more : List SendEvent)
    → 2 ≤ room
    → x < 256
    → y < 256
    → c.incoming ≡ RecvEvent.byte x ∷ RecvEvent.byte y ∷ rest
    → c.accepts ≡ SendEvent.sent 1 ∷ more
    → recv_tail junk true (finished room (byte_sum text) text r) c
      ≡ done (r, text ++ 0 ∷ []) (answered c rest more (answer_for text x y junk))
unfolding recv_tail
recv_tail-answered text zero x y junk r c rest more fits hx hy e1 e2 = absurd (omega arith)
recv_tail-answered text (suc zero) x y junk r c rest more fits hx hy e1 e2 = absurd (omega arith)
recv_tail-answered text (suc (suc room)) x y junk r c rest more fits hx hy e1 e2 =
    let ex : x % 256 ≡ x = omega arith in let ey : y % 256 ≡ y = omega arith in ground arith

-- From the first character of the body on, with `room` for it and all that follows.
pub after_dollar :
    (text : Bytes) (room x y junk cmdlen : ℕ) (c : Conn) (rest : List RecvEvent)
    (more : List SendEvent)
    → IsBody text
    → length text + 2 ≤ room
    → length text < cmdlen
    → cmdlen < u64_mod
    → room < 4096
    → x < 256
    → y < 256
    → c.incoming ≡ arriving (text ++ b'#' ∷ x ∷ y ∷ []) rest
    → c.accepts ≡ SendEvent.sent 1 ∷ more
    → (gdb_remote_getchar
          >>= (λ ch. read_body room cmdlen ch 0 [] Status.success)
          >>= recv_tail junk true)
        c
      ≡ done (Status.success, text ++ 0 ∷ []) (answered c rest more (answer_for text x y junk))
unfolding read_body
after_dollar [] (suc (suc room)) x y junk cmdlen c rest more ok fits space small small' hx hy e1
      e2 =
    ground (
      arith,
      recv_tail-answered [] (suc (suc room)) x y junk Status.success
          (with_incoming c (RecvEvent.byte x ∷ RecvEvent.byte y ∷ rest)) rest more,
    )
after_dollar [] _ x y junk cmdlen c rest more ok fits space small small' hx hy e1 e2 =
    absurd (omega arith)
after_dollar (b ∷ text) room x y junk cmdlen c rest more ok fits space small small' hx hy e1 e2 =
    let left : List RecvEvent = RecvEvent.byte x ∷ RecvEvent.byte y ∷ rest in
    ground (
      arith,
      arriving-append text (b'#' ∷ x ∷ y ∷ []) rest,
      byte_sum-le (b ∷ text) ok,
      read_body-done text b room cmdlen 0 []
          (with_incoming c (arriving (text ++ b'#' ∷ x ∷ y ∷ []) rest)) left ok,
      recv_tail-answered (b ∷ text) (room - suc (length text)) x y junk Status.success
          (with_incoming c left) rest more,
    )

-- From the first character of a packet behind `k` acknowledgements up to the '$'.
pub before_dollar :
    (k : ℕ) (text : Bytes) (c : Conn) (rest : List RecvEvent)
    → k ≤ 4094
    → c.incoming ≡ arriving (pluses k (b'$' ∷ text)) rest
    → (gdb_remote_getchar >>= skip_acks 4095) c
      ≡ done (b'$', 4095 - k) (with_incoming c (arriving text rest))
unfolding skip_acks
before_dollar zero text c rest fits e = ground arith
before_dollar (suc k) text c rest fits e = ground (
  arith,
  skip_acks-pluses k 4095 text (with_incoming c (arriving (pluses k (b'$' ∷ text)) rest)) rest,
)

pub dollar :
    (room cmdlen : ℕ) (c : Conn)
    → 0 < room
    → (skip_dollar room b'$' >>= λ x. read_body x.1 cmdlen x.0 0 [] Status.success) c
      ≡ (gdb_remote_getchar >>= λ ch. read_body (room - 1) cmdlen ch 0 [] Status.success) c
unfolding skip_dollar
dollar zero cmdlen c pos = absurd (omega arith)
dollar (suc room) cmdlen c pos =
    let same : suc room - 1 ≡ room = omega arith in rw same (ground arith)
