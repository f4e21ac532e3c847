-- ===== src/Gdb/Access.antt =====
-- Memory access over the protocol: `gdb_remote_read_mem`, `gdb_remote_write_mem`,
-- `gdb_remote_write_bin`, and the commands of the driver table, `gdb_remote_run`,
-- `gdb_remote_stop` and the reset of drivers/gdb/gdb_remote_qemu.c.
use baremetal_crt_host.Common.{
  ℕ, zero, suc, ◌+◌, ◌-◌, ◌*◌, ◌%◌, Bool, true, false, ◌||◌, not, none, some, [], ◌∷◌, ◌++◌, Bytes,
  ◌==◌, ltb, if◌then◌else◌, length, take, drop, codes,
}
use baremetal_crt_host.Cl.{Status, is_success, u64_mod}
use baremetal_crt_host.Gdb.Wire.{
  Net, out_of_fuel, pure, ◌>>=◌, test◌then◌else◌, ◌⨟◌, gdb_remote_send_interrupt, next_alloc,
}
use baremetal_crt_host.Gdb.Hex.{hex, hex08, hex2, scan_hex2}
use baremetal_crt_host.Gdb.Packet.{
  first_byte, gdb_remote_send, gdb_remote_recv, gdb_remote_discard_all,
}

-- 0x7f0
abbrev pub max_chunk : ℕ
max_chunk = 0x7f0

-- `snprintf(cmd, 20, "m%08x,%x", paddr, len)`: at most 19 characters are kept.
unfoldable pub read_request : (paddr len : ℕ) → Bytes
unfolding hex hex08
read_request paddr len = take 19 (b'm' ∷ (hex08 paddr ++ b',' ∷ hex len))

-- `buf[i] = b` for the numbers of two digits in the reply, from `strbuf[2 * i]` on; `left` is
-- `buflen`. The bytes that are stored before the loop ends or breaks off.
unfoldable pub decode_reply : (n left : ℕ) → Bytes → Bytes
unfolding scan_hex2
decode_reply zero left s = []
decode_reply (suc n) left s =
    let rest = decode_reply n (left - 2) (drop 2 s) in
    if ltb left 2 then [] else elim (scan_hex2 s) [ none ↦ [] | some b ↦ b % 256 ∷ rest ]

-- The status and the bytes stored in `buf`. The buffer for the reply has `len * 2 + 64` bytes,
-- zero at the start, and the status is CL_SUCCESS also on the label `err_out`.
unfoldable pub gdb_remote_read_mem_one : (junk paddr len : ℕ) → Net (Status × Bytes)
unfolding read_request gdb_remote_send gdb_remote_recv decode_reply next_alloc
gdb_remote_read_mem_one junk paddr len =
    test ltb max_chunk len then pure (Status.invalid_value, []) else do
      r ← gdb_remote_send (read_request paddr len) true
      test not (is_success r) then pure (r, []) else do
        allocated ← next_alloc
        test not allocated then pure (Status.out_of_host_memory, []) else do
          (r, out) ← gdb_remote_recv junk (len * 2 + 64 - 1) true
          test is_success r
              then pure (Status.success, decode_reply len (len * 2 + 64) out)
              else pure (Status.success, [])

abbrev pub nmin : ℕ → ℕ → ℕ
nmin a b = if ltb a b then a else b

-- The bytes of an array after a prefix is overwritten.
abbrev pub overlay : Bytes → Bytes → Bytes
overlay new old = new ++ drop (length new) old

-- `while (p < len)`. `len` is what is left, `paddr` and `buf` are at `p`; each round takes a byte
-- at least, so `len` rounds are enough. The result is the contents of `buf` from `p` on.
unfoldable pub read_mem_loop : ℕ → (junk paddr len : ℕ) → Bytes → Net (Status × Bytes)
unfolding gdb_remote_read_mem_one
read_mem_loop zero junk paddr len buf =
    test 0 == len then pure (Status.success, buf) else (λ c. out_of_fuel)
read_mem_loop (suc fuel) junk paddr len buf = test 0 == len then pure (Status.success, buf) else do
  let l = nmin len max_chunk
  (r, got) ← gdb_remote_read_mem_one junk paddr l
  let now = overlay got (take l buf)
  test not (is_success r) then pure (r, now ++ drop l buf) else do
    (r, rest) ← read_mem_loop fuel junk ((paddr + l) % u64_mod) (len - l) (drop l buf)
    pure (r, now ++ rest)

-- `snprintf` of "M%08x,%x:", and "%02x" of each byte
unfoldable pub hex_bytes : Bytes → Bytes
hex_bytes [] = []
hex_bytes (b ∷ bs) = hex2 b ++ hex_bytes bs

unfoldable pub write_request : (paddr : ℕ) → Bytes → Bytes
unfolding hex hex08 hex_bytes
write_request paddr buf =
    b'M' ∷ (hex08 paddr ++ (b',' ∷ (hex (length buf) ++ (b':' ∷ hex_bytes buf))))

unfoldable pub bin_request : (paddr : ℕ) → Bytes → Bytes
unfolding hex hex08
bin_request paddr buf = b'X' ∷ (hex08 paddr ++ (b',' ∷ (hex (length buf) ++ (b':' ∷ buf))))

-- The text in an array: up to the first zero.
unfoldable pub c_string : Bytes → Bytes
c_string [] = []
c_string (b ∷ bs) = if b == 0 then [] else b ∷ c_string bs

-- `strcmp(tmp, text) == 0`, for an array that is zero behind the bytes stored
unfoldable pub bytes_equal : Bytes → Bytes → Bool
bytes_equal [] [] = true
bytes_equal [] (_ ∷ _) = false
bytes_equal (_ ∷ _) [] = false
bytes_equal (a ∷ as') (b ∷ bs) = let rest = bytes_equal as' bs in if a == b then rest else false

-- The common part of `gdb_remote_write_mem_one` and `gdb_remote_write_bin_one`, which differ in
-- the request. The request fits its buffer of `2 * len + 64` or `len + 64` bytes, as the text in
-- front of the bytes has at most 22 characters. Every status that the protocol gives is dropped
-- at the label `err_out`, which returns CL_SUCCESS.
unfoldable pub write_one : ℕ → (request buf : Bytes) → Net Status
unfolding gdb_remote_send gdb_remote_recv next_alloc c_string bytes_equal
write_one junk request buf = test ltb max_chunk (length buf) then pure Status.invalid_value else do
  allocated ← next_alloc
  test not allocated then pure Status.out_of_host_memory else do
    _ ← gdb_remote_send request true ⨟ do
      (r, out) ← gdb_remote_recv junk 3 true
      test not (is_success r)
          then pure r
          else test bytes_equal (c_string out) (codes "OK")
          then pure Status.success
          else pure Status.invalid_device
    pure Status.success

unfoldable pub gdb_remote_write_mem_one : (junk paddr : ℕ) → Bytes → Net Status
unfolding write_one write_request
gdb_remote_write_mem_one junk paddr buf = write_one junk (write_request paddr buf) buf

unfoldable pub gdb_remote_write_bin_one : (junk paddr : ℕ) → Bytes → Net Status
unfolding write_one bin_request
gdb_remote_write_bin_one junk paddr buf = write_one junk (bin_request paddr buf) buf

-- `while (p < len)` of the two writes; `buf` is what is left.
unfoldable pub write_loop :
    ((paddr : ℕ) → Bytes → Net Status) → ℕ → (paddr : ℕ) → Bytes → Net Status
write_loop one zero paddr buf =
    test 0 == length buf then pure Status.success else (λ c. out_of_fuel)
write_loop one (suc fuel) paddr buf =
    test 0 == length buf
    then pure Status.success
    else (let l = nmin (length buf) max_chunk in
        one paddr (take l buf) ⨟ write_loop one fuel ((paddr + l) % u64_mod) (drop l buf))

-- In the functions of the driver table `attached` tells whether the device and its `priv` are
-- not NULL.
unfoldable pub gdb_remote_read_mem : Bool → (junk paddr len : ℕ) → Bytes → Net (Status × Bytes)
unfolding read_mem_loop
gdb_remote_read_mem attached junk paddr len buf =
    test attached then read_mem_loop len junk paddr len buf else pure (Status.invalid_device, buf)

unfoldable pub gdb_remote_write_mem : Bool → (junk paddr : ℕ) → Bytes → Net Status
unfolding write_loop gdb_remote_write_mem_one
gdb_remote_write_mem attached junk paddr buf =
    test attached
    then write_loop (gdb_remote_write_mem_one junk) (length buf) paddr buf
    else pure Status.invalid_device

unfoldable pub gdb_remote_write_bin : Bool → (junk paddr : ℕ) → Bytes → Net Status
unfolding write_loop gdb_remote_write_bin_one
gdb_remote_write_bin attached junk paddr buf =
    test attached
    then write_loop (gdb_remote_write_bin_one junk) (length buf) paddr buf
    else pure Status.invalid_device

unfoldable pub gdb_remote_run : Bool → Net Status
unfolding gdb_remote_send
gdb_remote_run attached =
    test attached
    then gdb_remote_send (codes "vCont;c") false ⨟ pure Status.success
    else pure Status.invalid_device

-- `while (1)` of `gdb_remote_stop`; `tmp` is zero before each reply. Each round takes a
-- character, so the length of the script is enough fuel.
unfoldable pub stop_loop : ℕ → ℕ → Net Status
unfolding gdb_remote_recv
stop_loop zero junk = λ c. out_of_fuel
stop_loop (suc fuel) junk = do
  (r, out) ← gdb_remote_recv junk (4096 - 1) true
  test not (is_success r)
      then pure r
      else (let first = first_byte out 0 in
          test first == b'O'
          then stop_loop fuel junk
          else test first == b'T' || first == b'W'
          then pure Status.success
          else stop_loop fuel junk)

unfoldable pub gdb_remote_stop : Bool → (junk first : ℕ) → Net Status
unfolding stop_loop gdb_remote_send_interrupt gdb_remote_discard_all
gdb_remote_stop attached junk first = test not attached then pure Status.invalid_device else do
  _ ← gdb_remote_send_interrupt
  ((λ c. stop_loop (suc (length c.incoming)) junk c)
      ⨟ do _ ← gdb_remote_discard_all junk first; pure Status.success)

unfoldable pub gdb_remote_qemu_reset : Bool → ℕ → Net Status
unfolding gdb_remote_send gdb_remote_recv c_string bytes_equal
gdb_remote_qemu_reset attached junk =
    test not attached
    then pure Status.invalid_device
    else gdb_remote_send (codes "qRcmd,73797374656d5f7265736574") true ⨟ do
      (r, out) ← gdb_remote_recv junk 3 true
      test not (is_success r)
          then pure r
          else test bytes_equal (c_string out) (codes "OK")
          then pure Status.success
          else pure Status.invalid_device
