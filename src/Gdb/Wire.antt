-- ===== src/Gdb/Wire.antt =====
-- The socket of a GDB remote device, and the reads and writes of single characters:
-- `gdb_remote_getchar`, `gdb_remote_putchar`, `gdb_remote_send_interrupt`.
-- What the peer and the kernel do is a script: the results of the calls of `recv`, of `send`
-- and of `calloc` to come. A call of `recv` or `send` with an empty script never returns.
use baremetal_crt_host.Common.{
  ℕ, ◌-◌, ◌%◌, ◌^◌, Bool, true, false, Option, none, some, List, [], ◌∷◌, ◌++◌, Bytes, ◌==◌, length,
  take,
}
use baremetal_crt_host.Cl.{Status, is_success}

-- The result of `recv` for one byte. `closed` is the end of the stream: `recv` returns 0, which
-- the code does not test, and the variable keeps its indeterminate value.
pub data RecvEvent : Type 0 where
  byte : ℕ → RecvEvent
  interrupted failed : RecvEvent
  closed : ℕ → RecvEvent

-- The result of `send`: at most so many bytes were taken, or -1 with EINTR, or -1.
pub data SendEvent : Type 0 where
  sent : ℕ → SendEvent
  interrupted failed : SendEvent

pub record Conn : Type 0 where
  pub incoming : List RecvEvent
  pub accepts : List SendEvent
  pub allocs : List Bool
  pub outgoing : Bytes

-- `fault` is a write out of the bounds of an array.
pub data Step (A : Type 0) : Type 0 where
  done : A → Conn → Step A
  blocked fault out_of_fuel : Step A

abbrev pub Net : Type 0 → Type 0
Net A = Conn → Step A

abbrev pub pure : {A : Type 0} → A → Net A
pure = done

module _ {A B : Type 0} where
  abbrev pub and_then : Step A → (A → Net B) → Step B
  and_then (done a c) k = k a c
  and_then blocked k = blocked
  and_then fault k = fault
  and_then out_of_fuel k = out_of_fuel

  infixl 5 ◌>>=◌ ◌>>◌
  abbrev pub ◌>>=◌ : Net A → (A → Net B) → Net B
  m >>= k = λ c. and_then (m c) k

  abbrev pub ◌>>◌ : Net A → Net B → Net B
  m >> n = m >>= λ _. n

infix 1 test◌then◌else◌
abbrev pub test◌then◌else◌ : {A : Type 0} → Bool → Net A → Net A → Net A
test◌then◌else◌ true m k c = m c
test◌then◌else◌ false m k c = k c

-- `r = m; if (r != CL_SUCCESS) return r;` and then `k`
infixr 4 ◌⨟◌
abbrev pub ◌⨟◌ : Net Status → Net Status → Net Status
m ⨟ k = m >>= λ r. test is_success r then k else pure r

-- The `int` CL_OUT_OF_RESOURCES, -5, as a pattern of 32 bits.
abbrev pub int_out_of_resources : ℕ
int_out_of_resources = 2 ^ 32 - 5

-- The loop at the label `retry`: the character, or -5, and the script that is left.
unfoldable pub next_char : List RecvEvent → Option (ℕ × List RecvEvent)
next_char [] = none
next_char (RecvEvent.interrupted ∷ es) = next_char es
next_char (RecvEvent.failed ∷ es) = some (int_out_of_resources, es)
next_char (RecvEvent.byte b ∷ es) = some (b, es)
next_char (RecvEvent.closed junk ∷ es) = some (junk, es)

unfoldable pub gdb_remote_getchar : Net ℕ
unfolding next_char
gdb_remote_getchar c = elim (next_char c.incoming) [
  | none ↦ blocked
  | some (ch, es) ↦ done ch (record c { incoming = es })
]

-- One call of `send`: what it returns, and what went out.
unfoldable pub send_call : Bytes → Net SendEvent
send_call bs c = elim c.accepts [
  | [] ↦ blocked
  | e ∷ es ↦ elim e [
    | SendEvent.sent n ↦
        done (SendEvent.sent (length (take n bs)))
          (record c { accepts = es; outgoing = c.outgoing ++ take n bs })
    | SendEvent.interrupted ↦ done SendEvent.interrupted (record c { accepts = es })
    | SendEvent.failed ↦ done SendEvent.failed (record c { accepts = es })
  ]
]

-- The loop at the label `retry` of `gdb_remote_putchar`: the result and the script that is left.
unfoldable pub put_retry : ℕ → List SendEvent → Option (ℕ × Bytes × List SendEvent)
put_retry ch [] = none
put_retry ch (SendEvent.interrupted ∷ es) = put_retry ch es
put_retry ch (SendEvent.failed ∷ es) = some (int_out_of_resources, [], es)
put_retry ch (SendEvent.sent n ∷ es) = some (ch, take n (ch ∷ []), es)

unfoldable pub gdb_remote_putchar : ℕ → Net ℕ
unfolding put_retry
gdb_remote_putchar i c = elim (put_retry (i % 256) c.accepts) [
  | none ↦ blocked
  | some (r, bs, es) ↦ done r (record c { accepts = es; outgoing = c.outgoing ++ bs })
]

-- `nsent == n`
abbrev pub sent_exactly : ℕ → SendEvent → Bool
sent_exactly n (SendEvent.sent k) = k == n
sent_exactly n _ = false

unfoldable pub gdb_remote_send_interrupt : Net Status
unfolding send_call
gdb_remote_send_interrupt = do
  e ← send_call (3 ∷ [])
  test sent_exactly 1 e then pure Status.success else pure Status.out_of_resources

-- What the next `calloc` does.
unfoldable pub next_alloc : Net Bool
next_alloc c = elim c.allocs [ [] ↦ done true c | a ∷ rest ↦ done a (record c { allocs = rest }) ]
