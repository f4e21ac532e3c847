-- ===== src/Gdb/Packet.antt =====
-- Packets: `gdb_remote_send`, `gdb_remote_recv` and `gdb_remote_discard_all`.
use Prim.Native.Nat.{bit_xor}
use baremetal_crt_host.Common.{
  ℕ, zero, suc, ◌+◌, ◌-◌, ◌*◌, ◌%◌, ◌^◌, Bool, true, false, ◌||◌, not, Option, none, some, [], ◌∷◌,
  ◌++◌, Bytes, ◌==◌, ltb, leb, if◌then◌else◌, length, codes,
}
use baremetal_crt_host.Cl.{Status, u64_mod}
use baremetal_crt_host.Gdb.Wire.{
  Net, done, fault, out_of_fuel, pure, ◌>>=◌, ◌>>◌, test◌then◌else◌, gdb_remote_getchar,
  gdb_remote_putchar, send_call, sent_exactly,
}
use baremetal_crt_host.Gdb.Hex.{hex2, scan_hex2}

-- The characters that `gdb_remote_send` escapes.
abbrev pub is_special : ℕ → Bool
is_special c = c == b'#' || c == b'$' || c == b'}' || c == b'*'

-- How the loop over the command ends: with the packet so far and its sum, by its test of the
-- buffer's length, or by a write behind the buffer.
pub data Stuffed : Type 0 where
  stuffed : Bytes → ℕ → Stuffed
  too_short overrun : Stuffed

-- The loop over `cmd[i]`, `cmd[i + 1]`, ...; the bytes written so far are `buf`, so that `pos` is
-- their number, and `sum` is kept modulo 256.
unfoldable pub stuff_loop : (i buflen : ℕ) → Bytes → Bytes → ℕ → Stuffed
stuff_loop i buflen [] buf sum = stuffed buf sum
stuff_loop i buflen (c ∷ cmd) buf sum =
    let add = if is_special c then b'}' ∷ bit_xor c 0x20 ∷ [] else c ∷ [] in
    let buf' = buf ++ add in
    let sum' = if is_special c then (sum + b'}' + bit_xor c 0x20) % 256 else (sum + c) % 256 in
    let rest = stuff_loop (i + 1) buflen cmd buf' sum' in
    if ltb buflen (length buf') then overrun else if leb buflen i then too_short else rest

-- From the label `resend` on. Each round takes a character, so the length of the script is
-- enough fuel.
unfoldable pub resend : ℕ → Bytes → Bool → Net Status
unfolding send_call gdb_remote_getchar
resend zero packet ack = λ c. out_of_fuel
resend (suc fuel) packet ack = do
  e ← send_call packet
  test not (sent_exactly (length packet) e)
      then pure Status.out_of_resources
      else test not ack
      then pure Status.success
      else do
        ch ← gdb_remote_getchar
        test ch == b'+'
            then pure Status.success
            else test ch == b'-'
            then resend fuel packet ack
            else pure Status.invalid_device

-- The buffer has `2 * cmdlen + 10` bytes; the checksum is copied behind the stuffed command.
unfoldable pub gdb_remote_send : Bytes → Bool → Net Status
unfolding stuff_loop resend
gdb_remote_send cmd ack c =
    let buflen = length cmd * 2 + 10 in
    elim (stuff_loop 0 buflen cmd (b'$' ∷ []) 0) [
      | too_short ↦ done Status.out_of_host_memory c
      | overrun ↦ fault
      | stuffed buf sum ↦
          let packet = buf ++ b'#' ∷ hex2 sum in
          if ltb buflen (length packet)
          then fault
          else resend (suc (length c.incoming)) packet ack c
    ]

-- BUFLEN
abbrev pub recv_buflen : ℕ
recv_buflen = 4096

-- In the functions below `room` is the number of bytes of `buf` behind `buf[p]`, `4096 - p`, so
-- that `buf[p++] = c` is a fault where it is 0.

-- `while (c == '+')`: the first other character, and the room left.
unfoldable pub skip_acks : ℕ → ℕ → Net (ℕ × ℕ)
unfolding gdb_remote_getchar
skip_acks zero ch = test ch == b'+' then (gdb_remote_getchar >> (λ c. fault)) else pure (ch, 0)
skip_acks (suc room) ch =
    test ch == b'+' then (do ch' ← gdb_remote_getchar; skip_acks room ch') else pure (ch, suc room)

-- `if (c == '$') { c = getchar(); buf[p++] = c; }`
unfoldable pub skip_dollar : ℕ → ℕ → Net (ℕ × ℕ)
unfolding gdb_remote_getchar
skip_dollar zero ch = test ch == b'$' then (gdb_remote_getchar >> (λ c. fault)) else pure (ch, 0)
skip_dollar (suc room) ch =
    test ch == b'$' then (do ch' ← gdb_remote_getchar; pure (ch', room)) else pure (ch, suc room)

-- How the loop over the body ends: at '#', with the room left, the sum, the bytes stored in
-- `cmd` and the status; or with a body that fills `buf`, and the bytes stored.
pub data Body : Type 0 where
  finished : (room sum : ℕ) → Bytes → Status → Body
  too_long : Bytes → Body

-- `q < cmdlen - 1`, in `size_t`
abbrev pub has_space : Bytes → ℕ → Bool
has_space out cmdlen = ltb (length out) ((cmdlen + (u64_mod - 1)) % u64_mod)

-- One round of the loop's body, on the bytes stored and on the status.
abbrev pub store_char : ℕ → Bytes → ℕ → Bytes
store_char cmdlen out ch = if has_space out cmdlen then out ++ (ch % 256) ∷ [] else out

abbrev pub store_status : ℕ → Bytes → Status → Status
store_status cmdlen out r = if has_space out cmdlen then r else Status.out_of_host_memory

-- `while (c != '#')`
unfoldable pub read_body : ℕ → (cmdlen ch sum : ℕ) → Bytes → Status → Net Body
unfolding gdb_remote_getchar
read_body zero cmdlen ch sum out r =
    test ch == b'#' then pure (finished 0 sum out r) else (gdb_remote_getchar >> (λ c. fault))
read_body (suc room) cmdlen ch sum out r =
    test ch == b'#' then pure (finished (suc room) sum out r) else do
      ch' ← gdb_remote_getchar
      test room == 0
          then pure (too_long (store_char cmdlen out ch))
          else read_body room cmdlen ch' ((sum + ch) % 2 ^ 32) (store_char cmdlen out ch)
              (store_status cmdlen out r)

-- The two characters of the checksum, stored in the room that is left.
unfoldable pub read_sum : ℕ → Net (ℕ × ℕ)
unfolding gdb_remote_getchar
read_sum zero = gdb_remote_getchar >> (λ c. fault)
read_sum (suc zero) = gdb_remote_getchar >> (gdb_remote_getchar >> (λ c. fault))
read_sum (suc (suc room)) = do x ← gdb_remote_getchar; y ← gdb_remote_getchar; pure (x, y)

abbrev pub value_or : Option ℕ → ℕ → ℕ
value_or none d = d
value_or (some n) d = n

-- From `cmd[q++] = '\0'` on; `sum_recv` keeps the value `junk` where `sscanf` stores nothing.
unfoldable pub recv_tail : ℕ → Bool → Body → Net (Status × Bytes)
unfolding read_sum gdb_remote_putchar
recv_tail junk ack (too_long out) = pure (Status.out_of_host_memory, out)
recv_tail junk ack (finished room sum out r) = do
  (x, y) ← read_sum room
  let sum_recv = value_or (scan_hex2 (x % 256 ∷ y % 256 ∷ [])) junk
  test not ack then pure (r, out ++ 0 ∷ []) else do
    _ ← gdb_remote_putchar (if sum % 256 == sum_recv then b'+' else b'-')
    pure (r, out ++ 0 ∷ [])

-- The status, and the bytes stored in `cmd`.
unfoldable pub gdb_remote_recv : (junk cmdlen : ℕ) → Bool → Net (Status × Bytes)
unfolding gdb_remote_getchar skip_acks skip_dollar read_body recv_tail
gdb_remote_recv junk cmdlen ack =
    gdb_remote_getchar
    >>= skip_acks (recv_buflen - 1)
    >>= (λ x. skip_dollar x.1 x.0)
    >>= (λ x. read_body x.1 cmdlen x.0 0 [] Status.success)
    >>= recv_tail junk ack

-- The first byte of an array after bytes were stored at its start.
abbrev pub first_byte : Bytes → ℕ → ℕ
first_byte [] old = old
first_byte (b ∷ _) old = b

-- `while (1)` of `gdb_remote_discard_all`; `first` is `tmpbuf[0]`. Each round takes a character,
-- so the length of the script is enough fuel.
unfoldable pub discard_loop : ℕ → (junk first : ℕ) → Net Status
unfolding gdb_remote_recv
discard_loop zero junk first = λ c. out_of_fuel
discard_loop (suc fuel) junk first = do
  (_, out) ← gdb_remote_recv junk 4096 true
  test first_byte out first == 0
      then pure Status.success
      else discard_loop fuel junk (first_byte out first)

unfoldable pub gdb_remote_discard_all : (junk first : ℕ) → Net Status
unfolding gdb_remote_send discard_loop
gdb_remote_discard_all junk first = do
  _ ← gdb_remote_send (codes "vMustReplyEmpty") false
  λ c. discard_loop (suc (length c.incoming)) junk first c
