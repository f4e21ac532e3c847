-- ===== src/Gdb/Fuel.antt =====
-- The resends of a packet end.
use baremetal_crt_host.Common.{
  ℕ, zero, suc, ◌<◌, ◌≡◌, ◌≢◌, refl, ap, sym, ◌∙◌, Bool, true, false, some, Option-cases, inl, inr,
  List, [], ◌∷◌, Bytes, ◌==◌, ◌⊎◌, not, length, arith,
}
use baremetal_crt_host.Cl.{Status}
use baremetal_crt_host.Gdb.Wire.{
  RecvEvent, SendEvent, Conn, Net, Step, done, pure, fault, and_then, test◌then◌else◌, ◌>>=◌,
  out_of_fuel, blocked, next_char, sent_exactly, send_call, gdb_remote_getchar,
}
use baremetal_crt_host.Gdb.Packet.{resend, gdb_remote_send}
use baremetal_crt_host.Gdb.Send.{frame, send-resend}

-- A character takes at least one event.
next_char-shorter :
    (es : List RecvEvent) (ch : ℕ) (rest : List RecvEvent)
    → next_char es ≡ some (ch, rest)
    → length rest < length es
unfolding next_char
next_char-shorter [] ch rest e = ground arith
next_char-shorter (RecvEvent.byte b ∷ es) ch rest e = ground arith
next_char-shorter (RecvEvent.interrupted ∷ es) ch rest e =
    ground (arith, next_char-shorter es ch rest e)
next_char-shorter (RecvEvent.failed ∷ es) ch rest e = ground arith
next_char-shorter (RecvEvent.closed j ∷ es) ch rest e = ground arith

send_call-keeps :
    (bs : Bytes) (c c1 : Conn) (e : SendEvent)
    → send_call bs c ≡ done e c1
    → c1.incoming ≡ c.incoming
unfolding send_call
send_call-keeps bs c c1 e h = ground arith

pub send_call-returns : (bs : Bytes) (c : Conn) → send_call bs c ≢ out_of_fuel
unfolding send_call
send_call-returns bs c h = ground arith

pub getchar-shorter :
    (c c1 : Conn) (ch : ℕ)
    → gdb_remote_getchar c ≡ done ch c1
    → length c1.incoming < length c.incoming
unfolding gdb_remote_getchar
getchar-shorter c c1 ch h = elim (Option-cases (next_char c.incoming)) [
  | inl none_left ↦ ground arith
  | inr ((b, es), next) ↦ ground (arith, next_char-shorter c.incoming b es next)
]

pub getchar-returns : (c : Conn) → gdb_remote_getchar c ≢ out_of_fuel
unfolding gdb_remote_getchar
getchar-returns c h = ground arith

-- A run that ends out of fuel does so in its first part or in the rest.
pub bind-out :
    {A B : Type 0} (x : Step A) (k : A → Net B)
    → and_then x k ≡ out_of_fuel
    → (x ≡ out_of_fuel) ⊎ ((a : A) × (c1 : Conn) × (x ≡ done a c1) × (k a c1 ≡ out_of_fuel))
bind-out (done a c1) k h = inr (a, c1, refl, h)
bind-out blocked k h = absurd cc
bind-out fault k h = absurd cc
bind-out out_of_fuel k h = inl refl

test-out :
    {A : Type 0} (b : Bool) (a : A) (k : Net A) (c : Conn)
    → (test b then pure a else k) c ≡ out_of_fuel
    → k c ≡ out_of_fuel
test-out true a k c h = absurd cc
test-out false a k c h = h

no_nack :
    {A : Type 0} (b : Bool) (k : Net A) (a : A) (c : Conn)
    → k c ≢ out_of_fuel
    → (test b then k else pure a) c ≢ out_of_fuel
no_nack true k a c h e = h e
no_nack false k a c h e = absurd cc

resend-enough :
    (fuel : ℕ) (packet : Bytes) (ack : Bool) (c : Conn)
    → length c.incoming < fuel
    → resend fuel packet ack c ≢ out_of_fuel
unfolding resend send_call gdb_remote_getchar
resend-enough zero packet ack c lt e = absurd (omega arith)
resend-enough (suc fuel) packet ack c lt e =
    let answer : ℕ → Net Status = λ ch.
      test ch == b'+'
      then pure Status.success
      else (test ch == b'-' then resend fuel packet ack else pure Status.invalid_device) in
    let after_send : SendEvent → Net Status = λ s.
      test not (sent_exactly (length packet) s)
      then pure Status.out_of_resources
      else (test not ack then pure Status.success else (gdb_remote_getchar >>= answer)) in
    elim (bind-out (send_call packet c) after_send e) [
      | inl stuck ↦ send_call-returns packet c stuck
      | inr (s, c1, sent, rest) ↦
          let wait = (test not ack then pure Status.success else (gdb_remote_getchar >>= answer)) in
          let waiting =
            test-out (not (sent_exactly (length packet) s)) Status.out_of_resources wait c1 rest in
          let asked =
            test-out (not ack) Status.success (gdb_remote_getchar >>= answer) c1 waiting in
          elim (bind-out (gdb_remote_getchar c1) answer asked) [
            | inl stuck ↦ getchar-returns c1 stuck
            | inr (ch, c2, read, more) ↦
                let again =
                  test-out (ch == b'+') Status.success
                    (test ch == b'-' then resend fuel packet ack else pure Status.invalid_device) c2
                    more in
                let shorter = getchar-shorter c1 c2 ch read in
                let same = send_call-keeps packet c c1 s sent in
                let less : length c2.incoming < fuel =
                  omega (arith, shorter, ap (λ (d : List RecvEvent). length d) same) in
                no_nack (ch == b'-') (resend fuel packet ack) Status.invalid_device c2
                  (resend-enough fuel packet ack c2 less) again
          ]
    ]

-- The fuel of `gdb_remote_send` is enough: whatever the command, the results of the socket to come
-- and the state of the connection, it does not run out, so that it returns unless the socket gives
-- no further result.
pub send-fuel : (cmd : Bytes) (ack : Bool) (c : Conn) → gdb_remote_send cmd ack c ≢ out_of_fuel
send-fuel cmd ack c e =
    resend-enough (suc (length c.incoming)) (frame cmd) ack c (omega arith)
      (sym (send-resend cmd ack c) ∙ e)
