-- ===== src/Gdb/Halting.antt =====
-- The loops over replies end: each reply takes characters from the socket, and the fuel of the
-- loops covers those to come.
use baremetal_crt_host.Common.{
  ℕ, zero, suc, ◌+◌, ◌-◌, ◌<◌, ◌≤◌, ◌≡◌, ◌≢◌, refl, Bool, true, false, not, ◌||◌, [], ◌∷◌, Bytes,
  ◌==◌, length, codes, arith, inl, inr,
}
use baremetal_crt_host.Cl.{Status, is_success}
use baremetal_crt_host.Gdb.Wire.{
  Conn, Net, Step, done, blocked, fault, out_of_fuel, pure, and_then, ◌>>=◌, ◌>>◌, test◌then◌else◌,
  ◌⨟◌, gdb_remote_getchar, gdb_remote_putchar, gdb_remote_send_interrupt, sent_exactly,
}
use baremetal_crt_host.Gdb.Packet.{
  Body, finished, too_long, skip_acks, skip_dollar, recv_buflen, read_body, read_sum, recv_tail,
  gdb_remote_recv, gdb_remote_send, first_byte, discard_loop, gdb_remote_discard_all,
}
use baremetal_crt_host.Gdb.Access.{c_string, bytes_equal, stop_loop, gdb_remote_stop}
use baremetal_crt_host.Gdb.Setup.Socket.{reset_loop, gdb_remote_openocd_reset}
use baremetal_crt_host.Gdb.Fuel.{
  getchar-shorter, getchar-returns, bind-out, send_call-returns, send-fuel,
}

-- A run of `m` does not end out of fuel.
abbrev pub Returns : {A : Type 0} → Net A → Type 0
Returns m = (c : Conn) → m c ≢ out_of_fuel

-- And a run that is done has taken `k` of the results of `recv` to come, or more.
abbrev Takes : {A : Type 0} → (k : ℕ) → Net A → Type 0
Takes {A} k m =
    Returns m
    × ((c c1 : Conn) (a : A) → m c ≡ done a c1 → length c1.incoming + k ≤ length c.incoming)

Takes-pure : {A : Type 0} (a : A) → Takes 0 (pure a)
Takes-pure a = (λ c h. cc, λ c c1 b h. let same : c ≡ c1 = cc in rw same (omega arith))

Takes-fault : {A : Type 0} → Takes {A = A} 0 (λ c. fault)
Takes-fault = (λ c h. cc, λ c c1 b h. absurd (cc))

Takes-test :
    {A : Type 0} (b : Bool) {m n : Net A} → Takes 0 m → Takes 0 n → Takes 0 (test b then m else n)
Takes-test true hm hn = hm
Takes-test false hm hn = hn

and_then-done :
    {A B : Type 0} (x : Step A) (k : A → Net B) (c2 : Conn) (b : B)
    → and_then x k ≡ done b c2
    → (a : A) × (c1 : Conn) × (x ≡ done a c1) × (k a c1 ≡ done b c2)
and_then-done (done a c1) k c2 b e = (a, c1, refl, e)
and_then-done blocked k c2 b e = absurd (cc)
and_then-done fault k c2 b e = absurd (cc)
and_then-done out_of_fuel k c2 b e = absurd (cc)

Takes->>= :
    {A B : Type 0} (k : ℕ) {m : Net A} {f : A → Net B}
    → Takes k m
    → ((a : A) → Takes 0 (f a))
    → Takes k (m >>= f)
Takes->>= k {m} {f} (returns, takes) rest = (
  λ c h. elim (bind-out (m c) f h) [
    | inl stuck ↦ returns c stuck
    | inr (a, c1, first, stuck) ↦ (rest a).0 c1 stuck
  ],
  λ c c2 b h.
      let (a, c1, first, second) = and_then-done (m c) f c2 b h in
      omega (arith, takes c c1 a first, (rest a).1 c1 c2 b second),
)

Takes-weak : {A : Type 0} {m : Net A} → Takes 1 m → Takes 0 m
Takes-weak (returns, takes) = (returns, λ c c1 a h. omega (arith, takes c c1 a h))

getchar-Takes : Takes 1 gdb_remote_getchar
getchar-Takes = (getchar-returns, λ c c1 ch h. omega (arith, getchar-shorter c c1 ch h))

getchar_any : Takes 0 gdb_remote_getchar
getchar_any = Takes-weak getchar-Takes

putchar-Takes : (i : ℕ) → Takes 0 (gdb_remote_putchar i)
unfolding gdb_remote_putchar
putchar-Takes i = (λ c h. ground arith, λ c c1 r h. ground arith)

overrun : {A : Type 0} → Takes {A = A} 0 (gdb_remote_getchar >> (λ c. fault))
overrun = Takes->>= 0 getchar_any (λ ch. Takes-fault)

skip_acks-Takes : (room ch : ℕ) → Takes 0 (skip_acks room ch)
unfolding skip_acks
skip_acks-Takes zero ch = Takes-test (ch == b'+') overrun (Takes-pure _)
skip_acks-Takes (suc room) ch =
    Takes-test (ch == b'+') (Takes->>= 0 getchar_any (skip_acks-Takes room)) (Takes-pure _)

skip_dollar-Takes : (room ch : ℕ) → Takes 0 (skip_dollar room ch)
unfolding skip_dollar
skip_dollar-Takes zero ch = Takes-test (ch == b'$') overrun (Takes-pure _)
skip_dollar-Takes (suc room) ch =
    Takes-test (ch == b'$') (Takes->>= 0 getchar_any (λ ch'. Takes-pure _)) (Takes-pure _)

read_body-Takes :
    (room cmdlen ch sum : ℕ) (out : Bytes) (r : Status)
    → Takes 0 (read_body room cmdlen ch sum out r)
unfolding read_body
read_body-Takes zero cmdlen ch sum out r = Takes-test (ch == b'#') (Takes-pure _) overrun
read_body-Takes (suc room) cmdlen ch sum out r = Takes-test (ch == b'#') (Takes-pure _) (
    Takes->>= 0 getchar_any
      λ ch'. Takes-test (room == 0) (Takes-pure _) (read_body-Takes room cmdlen ch' _ _ _))

read_sum-Takes : (room : ℕ) → Takes 0 (read_sum room)
unfolding read_sum
read_sum-Takes zero = overrun
read_sum-Takes (suc zero) = Takes->>= 0 getchar_any (λ _. overrun)
read_sum-Takes (suc (suc room)) =
    Takes->>= 0 getchar_any (λ x. Takes->>= 0 getchar_any (λ y. Takes-pure _))

recv_tail-Takes : (junk : ℕ) (ack : Bool) (b : Body) → Takes 0 (recv_tail junk ack b)
unfolding recv_tail
recv_tail-Takes junk ack (too_long out) = Takes-pure _
recv_tail-Takes junk ack (finished room sum out r) = Takes->>= 0 (read_sum-Takes room) λ (x, y).
    Takes-test (not ack) (Takes-pure _) (Takes->>= 0 (putchar-Takes _) (λ _. Takes-pure _))

recv-Takes : (junk cmdlen : ℕ) (ack : Bool) → Takes 1 (gdb_remote_recv junk cmdlen ack)
unfolding gdb_remote_recv
recv-Takes junk cmdlen ack =
    Takes->>= 1
      (Takes->>= 1
        (Takes->>= 1 (Takes->>= 1 getchar-Takes (skip_acks-Takes (recv_buflen - 1)))
          (λ x. skip_dollar-Takes x.1 x.0))
        (λ x. read_body-Takes x.1 cmdlen x.0 0 [] Status.success))
      (recv_tail-Takes junk ack)

test-at :
    {A : Type 0} (b : Bool) (m n : Net A) (c : Conn)
    → m c ≢ out_of_fuel
    → n c ≢ out_of_fuel
    → (test b then m else n) c ≢ out_of_fuel
test-at true m n c hm hn = hm
test-at false m n c hm hn = hn

pure-at : {A : Type 0} (a : A) (c : Conn) → pure a c ≢ out_of_fuel
pure-at a c e = cc

-- A round of a loop over replies: what follows the reply may use that it took a character.
round-at :
    {A : Type 0} (junk cmdlen fuel : ℕ) (f : Status × Bytes → Net A) (c : Conn)
    → length c.incoming < suc fuel
    → ((x : Status × Bytes) (c1 : Conn) → length c1.incoming < fuel → f x c1 ≢ out_of_fuel)
    → (gdb_remote_recv junk cmdlen true >>= f) c ≢ out_of_fuel
round-at junk cmdlen fuel f c enough rest h =
    let (returns, takes) = recv-Takes junk cmdlen true in
    elim (bind-out (gdb_remote_recv junk cmdlen true c) f h) [
      | inl stuck ↦ returns c stuck
      | inr (x, c1, got, stuck) ↦ rest x c1 (omega (arith, takes c c1 x got)) stuck
    ]

discard_loop-enough :
    (fuel junk first : ℕ) (c : Conn)
    → length c.incoming < fuel
    → discard_loop fuel junk first c ≢ out_of_fuel
unfolding discard_loop
discard_loop-enough zero junk first c enough = absurd (omega arith)
discard_loop-enough (suc fuel) junk first c enough = round-at junk 4096 fuel _ c enough λ x c1 less.
    test-at (first_byte x.1 first == 0) _ _ _ (pure-at _ _)
      (discard_loop-enough fuel junk _ c1 less)

stop_loop-enough :
    (fuel junk : ℕ) (c : Conn) → length c.incoming < fuel → stop_loop fuel junk c ≢ out_of_fuel
unfolding stop_loop
stop_loop-enough zero junk c enough = absurd (omega arith)
stop_loop-enough (suc fuel) junk c enough = round-at junk (4096 - 1) fuel _ c enough λ x c1 less.
    let first = first_byte x.1 0 in
    let again = stop_loop-enough fuel junk c1 less in
    test-at (not (is_success x.0)) _ _ _ (pure-at _ _) (
      test-at (first == b'O') _ _ _ again
        (test-at (first == b'T' || first == b'W') _ _ _ (pure-at _ _) again))

reset_loop-enough :
    (fuel junk : ℕ) (c : Conn) → length c.incoming < fuel → reset_loop fuel junk c ≢ out_of_fuel
unfolding reset_loop
reset_loop-enough zero junk c enough = absurd (omega arith)
reset_loop-enough (suc fuel) junk c enough = round-at junk (4096 - 1) fuel _ c enough λ x c1 less.
    test-at (not (is_success x.0)) _ _ _ (pure-at _ _) (
      test-at (bytes_equal (c_string x.1) (codes "OK")) _ _ _ (pure-at _ _)
        (reset_loop-enough fuel junk c1 less))

Returns->>= :
    {A B : Type 0} {m : Net A} {f : A → Net B}
    → Returns m
    → ((a : A) → Returns (f a))
    → Returns (m >>= f)
Returns->>= {m} {f} returns rest c h = elim (bind-out (m c) f h) [
  | inl stuck ↦ returns c stuck
  | inr (a, c1, first, stuck) ↦ rest a c1 stuck
]

Returns-check : {m k : Net Status} → Returns m → Returns k → Returns (m ⨟ k)
Returns-check hm hk = Returns->>= hm λ r c. test-at (is_success r) _ _ _ (hk c) (pure-at _ _)

discard_all-Returns : (junk first : ℕ) → Returns (gdb_remote_discard_all junk first)
unfolding gdb_remote_discard_all
discard_all-Returns junk first =
    Returns->>= (send-fuel (codes "vMustReplyEmpty") false)
      λ _ c. discard_loop-enough (suc (length c.incoming)) junk first c (omega arith)

interrupt-Returns : Returns gdb_remote_send_interrupt
unfolding gdb_remote_send_interrupt
interrupt-Returns =
    Returns->>= (send_call-returns (3 ∷ []))
      λ e c. test-at (sent_exactly 1 e) _ _ _ (pure-at _ _) (pure-at _ _)

-- The fuel of the loops of the protocol is enough: whatever the results of the socket to come and
-- the state of the connection, sending a command, discarding old replies, the stop of a device, and
-- the reset through OpenOCD do not run out of it. They return unless the socket gives no further
-- result or a text overruns its buffer.
pub replies-fuel :
    (attached ack : Bool) (cmd : Bytes) (junk first : ℕ) (c : Conn)
    → (gdb_remote_send cmd ack c ≢ out_of_fuel)
      × (gdb_remote_discard_all junk first c ≢ out_of_fuel)
      × (gdb_remote_stop attached junk first c ≢ out_of_fuel)
      × (gdb_remote_openocd_reset attached junk c ≢ out_of_fuel)
unfolding gdb_remote_stop gdb_remote_openocd_reset
replies-fuel attached ack cmd junk first c = (
  send-fuel cmd ack c,
  discard_all-Returns junk first c,
  test-at (not attached) _ _ _ (pure-at _ _) (
      Returns->>= interrupt-Returns
        (λ _.
          Returns-check (λ d. stop_loop-enough (suc (length d.incoming)) junk d (omega arith))
            (Returns->>= (discard_all-Returns junk first) (λ _ d. (pure-at _ _))))
        c),
  test-at (not attached) _ _ _ (pure-at _ _) (
      Returns-check (send-fuel (codes "qRcmd,72657365742068616c74") true)
        (λ d. reset_loop-enough (suc (length d.incoming)) junk d (omega arith)) c),
)
