-- ===== src/Gdb/Chunks.antt =====
-- How the loops of `gdb_remote_write_mem` and `gdb_remote_write_bin` split an access.
use mathlib.Core.Path.{fun_ext}
use baremetal_crt_host.Common.{
  ℕ, zero, suc, ◌+◌, ◌-◌, ◌%◌, ◌<◌, ◌≤◌, ◌≡◌, refl, ap, ◌∙◌, false, List, [], ◌∷◌, ◌++◌, Bytes,
  ◌==◌, length, take, drop, arith, length-take,
}
use baremetal_crt_host.Cl.{Status, u64_mod}
use baremetal_crt_host.Gdb.Wire.{Conn, Net, pure, ◌⨟◌}
use baremetal_crt_host.Gdb.Access.{max_chunk, nmin, write_loop}

-- Requests, each an address and the bytes for it.
abbrev pub Requests : Type 0
Requests = List (ℕ × Bytes)

-- The requests in order, up to the first that fails.
abbrev pub send_all : ((paddr : ℕ) → Bytes → Net Status) → Requests → Net Status
send_all one [] = pure Status.success
send_all one ((a, bs) ∷ rs) = one a bs ⨟ send_all one rs

abbrev pub payload : Requests → Bytes
payload [] = []
payload ((_, bs) ∷ rs) = bs ++ payload rs

-- The requests start at `paddr`, follow one another without a gap (modulo 2^64), and each has
-- between 1 and 0x7f0 bytes.
abbrev pub Consecutive : ℕ → Requests → Type 0
Consecutive paddr [] = Unit
Consecutive paddr ((a, bs) ∷ rs) =
    (a ≡ paddr)
    × (0 < length bs)
    × (length bs ≤ max_chunk)
    × Consecutive ((paddr + length bs) % u64_mod) rs

-- The loop's requests.
split_requests : ℕ → ℕ → Bytes → Requests
split_requests zero paddr buf = []
split_requests (suc fuel) paddr [] = []
split_requests (suc fuel) paddr (b ∷ buf) =
    let l = nmin (length (b ∷ buf)) max_chunk in
    (paddr, take l (b ∷ buf)) ∷ split_requests fuel ((paddr + l) % u64_mod) (drop l (b ∷ buf))

take-append-drop : (n : ℕ) (xs : Bytes) → take n xs ++ drop n xs ≡ xs
take-append-drop zero xs = refl
take-append-drop (suc n) [] = refl
take-append-drop (suc n) (x ∷ xs) = ap (λ ys. x ∷ ys) (take-append-drop n xs)

length-drop : (n : ℕ) (xs : Bytes) → length (drop n xs) ≡ length xs - n
length-drop zero xs = omega arith
length-drop (suc n) [] = omega arith
length-drop (suc n) (x ∷ xs) = omega (arith, length-drop n xs)

check-congr : (m k n : Net Status) → ((d : Conn) → k d ≡ n d) → (c : Conn) → (m ⨟ k) c ≡ (m ⨟ n) c
check-congr m k n h c = ap (λ (f : Net Status). (m ⨟ f) c) (fun_ext h)

write_loop-split :
    (one : (paddr : ℕ) → Bytes → Net Status) (fuel paddr : ℕ) (buf : Bytes) (c : Conn)
    → length buf ≤ fuel
    → write_loop one fuel paddr buf c ≡ send_all one (split_requests fuel paddr buf) c
unfolding write_loop split_requests
write_loop-split one zero paddr [] c h = refl
write_loop-split one zero paddr (b ∷ buf) c h = absurd (omega arith)
write_loop-split one (suc fuel) paddr [] c h = refl
write_loop-split one (suc fuel) paddr (b ∷ buf) c h =
    let l = nmin (length (b ∷ buf)) max_chunk in
    let pos : 0 < l = ground arith in
    let more : (0 == length (b ∷ buf)) ≡ false = ground arith in
    let rest = λ (d : Conn).
      write_loop-split one fuel ((paddr + l) % u64_mod) (drop l (b ∷ buf)) d
        (omega (arith, length-drop l (b ∷ buf))) in
    rw more (check-congr (one paddr (take l (b ∷ buf))) _ _ rest c)

payload-split :
    (fuel paddr : ℕ) (buf : Bytes)
    → length buf ≤ fuel
    → payload (split_requests fuel paddr buf) ≡ buf
unfolding split_requests
payload-split zero paddr [] h = refl
payload-split zero paddr (b ∷ buf) h = absurd (omega arith)
payload-split (suc fuel) paddr [] h = refl
payload-split (suc fuel) paddr (b ∷ buf) h =
    let l = nmin (length (b ∷ buf)) max_chunk in
    let pos : 0 < l = ground arith in
    let ih =
      payload-split fuel ((paddr + l) % u64_mod) (drop l (b ∷ buf))
        (omega (arith, length-drop l (b ∷ buf))) in
    ap (λ t. take l (b ∷ buf) ++ t) ih ∙ take-append-drop l (b ∷ buf)

Consecutive-split :
    (fuel paddr : ℕ) (buf : Bytes) → Consecutive paddr (split_requests fuel paddr buf)
unfolding split_requests
Consecutive-split zero paddr buf = tt
Consecutive-split (suc fuel) paddr [] = tt
Consecutive-split (suc fuel) paddr (b ∷ buf) =
    let l = nmin (length (b ∷ buf)) max_chunk in
    let len : length (take l (b ∷ buf)) ≡ l = ground (arith, length-take l (b ∷ buf)) in
    (
      refl,
      ground arith,
      ground arith,
      rw len (Consecutive-split fuel ((paddr + l) % u64_mod) (drop l (b ∷ buf))),
    )

-- The loop of `gdb_remote_write_mem` and `gdb_remote_write_bin`, with as many rounds of fuel as
-- there are bytes, never runs out of it: whatever the function for one request does, the loop is
-- the run of a list of requests, one after the other up to the first failure, whose payloads are
-- together exactly the bytes of the buffer, which start at `paddr` and follow one another without
-- a gap (modulo 2^64), and which have between 1 and 0x7f0 bytes each.
pub write_loop_requests :
    (one : (paddr : ℕ) → Bytes → Net Status) (paddr : ℕ) (buf : Bytes)
    → (rs : Requests) × ((c : Conn) → write_loop one (length buf) paddr buf c ≡ send_all one rs c)
      × (payload rs ≡ buf)
      × Consecutive paddr rs
write_loop_requests one paddr buf = (
  split_requests (length buf) paddr buf,
  λ c. write_loop-split one (length buf) paddr buf c (omega arith),
  payload-split (length buf) paddr buf (omega arith),
  Consecutive-split (length buf) paddr buf,
)
