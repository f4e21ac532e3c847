-- ===== src/Gdb/Hex.antt =====
-- Hexadecimal text as `snprintf` writes it and `sscanf` reads it.
use baremetal_crt_host.Common.{
  ℕ, zero, suc, ◌+◌, ◌-◌, ◌*◌, ◌/◌, ◌%◌, ◌^◌, ◌<◌, ◌≡◌, Bool, ◌&&◌, ◌||◌, Option, none, some, [],
  ◌∷◌, ◌++◌, Bytes, ◌==◌, ltb, leb, if◌then◌else◌, arith,
}

abbrev pub hex_digit : ℕ → ℕ
hex_digit n = if ltb n 10 then b'0' + n else b'a' + (n - 10)

-- "%02x" of a number below 256
abbrev pub hex2 : ℕ → Bytes
hex2 n = hex_digit (n / 16) ∷ hex_digit (n % 16) ∷ []

-- The lowest `w` digits.
unfoldable pub hex_fixed : ℕ → ℕ → Bytes
hex_fixed zero n = []
hex_fixed (suc w) n = hex_fixed w (n / 16) ++ hex_digit (n % 16) ∷ []

-- How many digits a number has behind the last, at most `fuel`; 15 are enough for 64 bits.
unfoldable pub more_digits : ℕ → ℕ → ℕ
more_digits zero n = 0
more_digits (suc fuel) n = let rest = more_digits fuel (n / 16) in if ltb n 16 then 0 else suc rest

-- "%x" and "%08x" of a `uint64_t`
unfoldable pub hex : ℕ → Bytes
unfolding hex_fixed more_digits
hex n = hex_fixed (suc (more_digits 15 n)) n

unfoldable pub hex08 : ℕ → Bytes
unfolding hex_fixed more_digits
hex08 n = let w = suc (more_digits 15 n) in hex_fixed (if ltb w 8 then 8 else w) n

-- The value of a hexadecimal digit.
unfoldable pub digit_value : ℕ → Option ℕ
digit_value c =
    if leb b'0' c && leb c b'9'
    then some (c - b'0')
    else if leb b'a' c && leb c b'f'
    then some (c - b'a' + 10)
    else if leb b'A' c && leb c b'F'
    then some (c - b'A' + 10)
    else none

abbrev pub is_space : ℕ → Bool
is_space c = c == b' ' || (leb 9 c && leb c 13)

-- The field of "%02x" behind white space: at most two characters. A sign counts as one of them,
-- and so does the prefix 0x, which alone is no number. The result is the `unsigned int` stored.
unfoldable pub scan_field : Bytes → Option ℕ
unfolding digit_value
scan_field [] = none
scan_field (c ∷ []) = digit_value c
scan_field (c ∷ d ∷ _) =
    if c == b'+'
    then digit_value d
    else if c == b'-'
    then elim (digit_value d) [ none ↦ none | some y ↦ some ((2 ^ 32 - y) % 2 ^ 32) ]
    else if c == b'0' && (d == b'x' || d == b'X')
    then none
    else elim (digit_value c) [
      | none ↦ none
      | some x ↦ elim (digit_value d) [ none ↦ some x | some y ↦ some (x * 16 + y) ]
    ]

-- `sscanf(s, "%02x", &v)`: the value that is stored, or `none` where it stores nothing.
unfoldable pub scan_hex2 : Bytes → Option ℕ
unfolding scan_field
scan_hex2 [] = none
scan_hex2 (c ∷ s) = let rest = scan_hex2 s in if is_space c then rest else scan_field (c ∷ s)

-- What "%02x" wrote of a byte is read back, whatever follows.
pub scan_hex2-hex2 : (n : ℕ) (rest : Bytes) → n < 256 → scan_hex2 (hex2 n ++ rest) ≡ some n
unfolding scan_hex2
scan_hex2-hex2 n rest h = ground arith
