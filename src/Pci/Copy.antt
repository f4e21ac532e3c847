-- ===== src/Pci/Copy.antt =====
-- The two copies of drivers/pci/pci_sysfs.c, by bytes and by words, compared with each other.
use baremetal_crt_host.Common.{
  ℕ, zero, suc, ◌+◌, ◌*◌, ◌%◌, ◌<◌, ◌≤◌, ◌≡◌, ◌⊎◌, inl, inr, refl, sym, ap, ◌∙◌, some, [], ◌∷◌,
  ◌++◌, Bytes, length, arith, Option-cases,
}
use baremetal_crt_host.Cl.{u64_mod}
use baremetal_crt_host.Runtime.{Ptr, World}
use baremetal_crt_host.Runtime.Monad.{done, ◌>>=◌}
use baremetal_crt_host.Runtime.Memory.{
  ByteMap, peek, poke, peek-length, peek-congr, peek-poke, poke-outside,
}
use baremetal_crt_host.Pci.{load_bytes, store_bytes, move_all, pci_sysfs_memcpy_slow}

pub peek-split :
    (m : ByteMap) (p a b n : ℕ) (bs : Bytes)
    → n ≡ a + b
    → peek m p n ≡ some bs
    → (xs ys : Bytes) × (peek m p a ≡ some xs) × (peek m (p + a) b ≡ some ys) × (bs ≡ xs ++ ys)
unfolding peek
peek-split m p zero b n bs e h =
    let at : p + 0 ≡ p = omega arith in
    let all : b ≡ n = omega arith in ([], bs, refl, rw (at, all) h, refl)
peek-split m p (suc a) b zero bs e h = absurd (omega arith)
peek-split m p (suc a) b (suc n) bs e h = elim (Option-cases (m p)) [
  | inl gone ↦ absurd (ground arith)
  | inr (x, there) ↦ elim (Option-cases (peek m (p + 1) n)) [
    | inl gone ↦ absurd (ground arith)
    | inr (rest, there') ↦
        let (xs, ys, hx, hy, eq) = peek-split m (p + 1) a b n rest (omega arith) there' in
        let at : p + suc a ≡ p + 1 + a = omega arith in
        let whole : bs ≡ x ∷ rest = ground arith in
        (x ∷ xs, ys, ground arith, rw at hy, whole ∙ ap (λ zs. x ∷ zs) eq)
  ]
]

peek-join :
    (m : ByteMap) (p a b n : ℕ) (xs ys : Bytes)
    → n ≡ a + b
    → peek m p a ≡ some xs
    → peek m (p + a) b ≡ some ys
    → peek m p n ≡ some (xs ++ ys)
unfolding peek
peek-join m p zero b n xs ys e hx hy =
    let at : p + 0 ≡ p = omega arith in
    let all : n ≡ b = omega arith in
    let none_read : xs ≡ [] = ground arith in rw (all, none_read) (rw at at hy)
peek-join m p (suc a) b zero xs ys e hx hy = absurd (omega arith)
peek-join m p (suc a) b (suc n) [] ys e hx hy = absurd (ground arith)
peek-join m p (suc a) b (suc n) (x ∷ xs) ys e hx hy =
    let at : p + suc a ≡ p + 1 + a = omega arith in
    let first : m p ≡ some x = ground arith in
    let rest : peek m (p + 1) a ≡ some xs = ground arith in
    let step = peek-join m (p + 1) a b n xs ys (omega arith) rest (rw at at hy) in ground arith

-- The memory after the `n` bytes have been stored from `dest` on, and nothing else
abbrev pub IsCopy : (m m' : ByteMap) → (dest n : ℕ) → Bytes → Type 0
IsCopy m m' dest n bs =
    (peek m' dest n ≡ some bs) × ((q : ℕ) → (q < dest) ⊎ (dest + n ≤ q) → m' q ≡ m q)

-- Two ranges that do not meet
abbrev pub Apart : (p q n : ℕ) → Type 0
Apart p q n = (p + n ≤ q) ⊎ (q + n ≤ p)

pub peek_empty :
    (m : ByteMap) (p q n : ℕ) (bs : Bytes) → n ≡ 0 → peek m p n ≡ some bs → peek m q n ≡ some bs
unfolding peek
peek_empty m p q zero bs e h = h
peek_empty m p q (suc n) bs e h = absurd (omega arith)

IsCopy-poke :
    (m : ByteMap) (dest n : ℕ) (xs : Bytes) → length xs ≡ n → IsCopy m (poke m dest xs) dest n xs
IsCopy-poke m dest n xs len = (
  rw len at (peek-poke m dest xs),
  λ q out.
      poke-outside m dest xs q (elim out [ inl lt ↦ ground arith | inr ge ↦ ground (arith, len) ]),
)

-- What lies apart from a copy is left.
pub IsCopy-apart :
    (m m' : ByteMap) (dest n : ℕ) (bs : Bytes) (p k : ℕ)
    → IsCopy m m' dest n bs
    → (p + k ≤ dest) ⊎ (dest + n ≤ p)
    → peek m' p k ≡ peek m p k
IsCopy-apart m m' dest n bs p k (copied, kept) apart =
    peek-congr m' m p k
      λ q a b. kept q (elim apart [ inl le ↦ inl (omega arith) | inr le ↦ inr (omega arith) ])

-- A copy of the first bytes and one of the others
pub IsCopy-join :
    (m m1 m' : ByteMap) (dest n rest total : ℕ) (xs ys bs : Bytes)
    → bs ≡ xs ++ ys
    → total ≡ n + rest
    → IsCopy m m1 dest n xs
    → IsCopy m1 m' (dest + n) rest ys
    → IsCopy m m' dest total bs
IsCopy-join m m1 m' dest n rest total xs ys bs eq sum first second =
    let kept = IsCopy-apart m1 m' (dest + n) rest ys dest n second (inl (omega arith)) in
    (
      peek-join m' dest n rest total xs ys sum (kept ∙ first.0) second.0 ∙ ap some (sym eq),
      λ q out.
          second.1 q (elim out [ inl lt ↦ inl (omega arith) | inr ge ↦ inr (omega (arith, sum)) ])
          ∙ first.1 q (elim out [ inl lt ↦ inl lt | inr ge ↦ inr (omega (arith, sum)) ]),
    )

move_lem :
    (dest src n : ℕ) (xs old : Bytes) (w : World)
    → peek w.memory src n ≡ some xs
    → peek w.memory dest n ≡ some old
    → (load_bytes src n >>= store_bytes dest) w
      ≡ done tt (record w { memory = poke w.memory dest xs })
unfolding load_bytes store_bytes
move_lem dest src n xs old w from to =
    let len = peek-length w.memory src n xs from in
    let there : peek w.memory dest (length xs) ≡ some old = rw len to in ground arith

pub move_all_lem :
    (n rounds total : ℕ) (dest src : Ptr) (bs old : Bytes) (w : World)
    → total ≡ rounds * n
    → peek w.memory src total ≡ some bs
    → peek w.memory dest total ≡ some old
    → Apart dest src total
    → dest + total < u64_mod
    → src + total < u64_mod
    → (m' : ByteMap) × (move_all n rounds dest src w ≡ done tt (record w { memory = m' }))
      × IsCopy w.memory m' dest total bs
unfolding move_all
move_all_lem n zero total dest src bs old w e from to apart fits_d fits_s =
    let nothing : total ≡ 0 = omega arith in
    (w.memory, refl, (peek_empty w.memory src dest total bs nothing from, λ q out. refl))
move_all_lem n (suc rounds) total dest src bs old w e from to apart fits_d fits_s =
    let rest = rounds * n in
    let sum : total ≡ n + rest = omega arith in
    let (xs, ys, hx, hy, eq) = peek-split w.memory src n rest total bs sum from in
    let (os, os', ho, ho', _) = peek-split w.memory dest n rest total old sum to in
    let len = peek-length w.memory src n xs hx in
    let len' = peek-length w.memory (src + n) rest ys hy in
    let m1 = poke w.memory dest xs in
    let w1 = record w { memory = m1 } in
    let stored = IsCopy-poke w.memory dest n xs len in
    let src' : peek m1 (src + n) rest ≡ some ys =
      IsCopy-apart w.memory m1 dest n xs (src + n) rest stored
        (elim apart [ inl le ↦ inr (omega (arith, sum)) | inr le ↦ inl (omega (arith, sum)) ])
      ∙ hy in
    let dest' : peek m1 (dest + n) rest ≡ some os' =
      IsCopy-apart w.memory m1 dest n xs (dest + n) rest stored (inr (omega arith)) ∙ ho' in
    let (m', run, copied) =
      move_all_lem n rounds rest (dest + n) (src + n) ys os' w1 refl src' dest'
        (elim apart [ inl le ↦ inl (omega (arith, sum)) | inr le ↦ inr (omega (arith, sum)) ])
        (omega (arith, sum)) (omega (arith, sum)) in
    let at_d : (dest + n) % u64_mod ≡ dest + n = omega (arith, sum) in
    let at_s : (src + n) % u64_mod ≡ src + n = omega (arith, sum) in
    let first = move_lem dest src n xs os w hx ho in
    (
      m',
      rw (first, at_d, at_s) run,
      IsCopy-join w.memory m1 m' dest n rest total xs ys bs eq sum stored copied,
    )

-- Two mapped ranges of `n` bytes that do not meet and do not reach the end of the address space
abbrev pub CanCopy : ByteMap → (dest src n : ℕ) → (bs old : Bytes) → Type 0
CanCopy m dest src n bs old =
    (peek m src n ≡ some bs)
    × (peek m dest n ≡ some old)
    × Apart dest src n
    × (dest + n < u64_mod)
    × (src + n < u64_mod)

module _ (dest src n : ℕ) (bs old : Bytes) (w : World)
    (can : CanCopy w.memory dest src n bs old) where
  pub memcpy_slow_lem :
      (m' : ByteMap) × (pci_sysfs_memcpy_slow dest src n w ≡ done tt (record w { memory = m' }))
      × IsCopy w.memory m' dest n bs
  unfolding pci_sysfs_memcpy_slow
  memcpy_slow_lem =
      let (from, to, apart, fits_d, fits_s) = can in
      move_all_lem 1 n n dest src bs old w (omega arith) from to apart fits_d fits_s
