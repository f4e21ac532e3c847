-- ===== src/Runtime/Memory.antt =====
-- The raw memory of the host: bytes at addresses, blocks from `calloc`, `memcpy`.
use baremetal_crt_host.Common.{
  ℕ, zero, suc, ◌+◌, ◌-◌, ◌*◌, ◌/◌, ◌%◌, ◌<◌, ◌≤◌, ◌≡◌, refl, ap, ◌∙◌, ◌⊎◌, Bool, true, false, ◌&&◌,
  Option, none, some, [], ◌∷◌, Bytes, ◌==◌, ltb, leb, if◌then◌else◌, length, get_elem?, replicate,
  arith,
}
use baremetal_crt_host.Runtime.{Ptr, null, update}
use baremetal_crt_host.Runtime.Monad.{done, fault, M}

abbrev pub ByteMap : Type 0
ByteMap = ℕ → Option ℕ

-- The `n` bytes from `p` on, if all of them are mapped.
unfoldable pub peek : ByteMap → ℕ → ℕ → Option Bytes
peek m p zero = some []
peek m p (suc n) = elim (m p) [
  | none ↦ none
  | some b ↦ elim (peek m (p + 1) n) [ none ↦ none | some bs ↦ some (b ∷ bs) ]
]

-- Whether `q` lies in the `n` bytes from `p` on.
abbrev pub within : ℕ → ℕ → ℕ → Bool
within p n q = leb p q && ltb q (p + n)

-- The memory after the bytes are stored from `p` on.
unfoldable pub poke : ByteMap → ℕ → Bytes → ByteMap
poke m p bs q = if within p (length bs) q then get_elem? bs (q - p) else m q

-- The memory without the `n` bytes from `p` on.
unfoldable pub unmap : ByteMap → ℕ → ℕ → ByteMap
unmap m p n q = if within p n q then none else m q

-- Whether the `n` bytes at `p` and the `n` bytes at `q` have a byte in common.
abbrev pub overlap : ℕ → ℕ → ℕ → Bool
overlap p q n = ltb p (q + n) && ltb q (p + n)

-- `memcpy` is undefined on overlapping ranges and where a byte is not mapped.
unfoldable pub memcpy : (dst src : Ptr) → ℕ → M (Unit {0})
memcpy dst src n w = if overlap dst src n then fault else elim (peek w.memory src n) [
  | none ↦ fault
  | some bs ↦ elim (peek w.memory dst n) [
    | none ↦ fault
    | some _ ↦ done tt (record w { memory = poke w.memory dst bs })
  ]
]

-- The number that bytes spell, the lowest first.
unfoldable pub le_value : Bytes → ℕ
le_value [] = 0
le_value (b ∷ bs) = b + 256 * le_value bs

-- A number in `n` bytes, the lowest first
unfoldable pub le_bytes : (n v : ℕ) → Bytes
le_bytes zero v = []
le_bytes (suc n) v = v % 256 ∷ le_bytes n (v / 256)

-- The pointer that is stored at `p`, on a host with pointers of eight bytes.
unfoldable pub load_ptr : Ptr → M Ptr
unfolding peek le_value
load_ptr p w = elim (peek w.memory p 8) [ none ↦ fault | some bs ↦ done (le_value bs) w ]

-- `calloc(size, 1)`
unfoldable pub calloc_block : ℕ → M Ptr
calloc_block size w = elim w.supply [
  | [] ↦ done null w
  | p ∷ ps ↦
      if p == null
      then done null (record w { supply = ps })
      else done p (record w {
        supply = ps;
        blocks = update w.blocks p (some size);
        memory = poke w.memory p (replicate size 0);
      })
]

-- `free` of a raw block; anything else that is given back is a fault.
unfoldable pub free_block : Ptr → M (Unit {0})
free_block p w = elim (w.blocks p) [
  | none ↦ fault
  | some size ↦
      done tt (record w { blocks = update w.blocks p none; memory = unmap w.memory p size })
]

pub peek-length : (m : ByteMap) (p n : ℕ) (bs : Bytes) → peek m p n ≡ some bs → length bs ≡ n
unfolding peek
peek-length m p zero bs h = ground arith
peek-length m p (suc n) [] h = ground arith
peek-length m p (suc n) (b ∷ bs) h = ground (arith, peek-length m (p + 1) n bs)

-- Reading depends on the bytes that are read.
pub peek-congr :
    (m k : ByteMap) (p n : ℕ) → ((q : ℕ) → p ≤ q → q < p + n → m q ≡ k q) → peek m p n ≡ peek k p n
unfolding peek
peek-congr m k p zero h = refl
peek-congr m k p (suc n) h =
    let first = h p (omega arith) (omega arith) in
    let rest = peek-congr m k (p + 1) n (λ q a b. h q (omega arith) (omega arith)) in ground arith

peek_of_elems :
    (m : ByteMap) (p : ℕ) (bs : Bytes)
    → ((i : ℕ) → i < length bs → m (p + i) ≡ get_elem? bs i)
    → peek m p (length bs) ≡ some bs
unfolding peek
peek_of_elems m p [] h = refl
peek_of_elems m p (b ∷ bs) h =
    let first : m p ≡ some b = ap m (omega arith) ∙ h 0 (omega arith) in
    let rest : peek m (p + 1) (length bs) ≡ some bs =
      peek_of_elems m (p + 1) bs (λ i lt. ap m (omega arith) ∙ h (suc i) (omega arith)) in
    rw (first, rest)

-- What was written is read back.
pub peek-poke : (m : ByteMap) (p : ℕ) (bs : Bytes) → peek (poke m p bs) p (length bs) ≡ some bs
unfolding poke
peek-poke m p bs = peek_of_elems _ p bs λ i lt.
    let inside : within p (length bs) (p + i) ≡ true = ground arith in
    rw inside (ap (get_elem? bs) (omega arith))

-- A write leaves what lies apart from it.
pub peek-poke_apart :
    (m : ByteMap) (p : ℕ) (bs : Bytes) (q n : ℕ)
    → (q + n ≤ p) ⊎ (p + length bs ≤ q)
    → peek (poke m p bs) q n ≡ peek m q n
unfolding poke
peek-poke_apart m p bs q n apart = peek-congr _ m q n λ r a b. ground arith

-- Writable memory stays writable.
pub poke-outside :
    (m : ByteMap) (p : ℕ) (bs : Bytes) (q : ℕ)
    → within p (length bs) q ≡ false
    → poke m p bs q ≡ m q
unfolding poke
poke-outside m p bs q h = rw h
