-- ===== src/Pci/Words.antt =====
-- The copy by words.
use baremetal_crt_host.Common.{
  ℕ, ◌+◌, ◌*◌, ◌/◌, ◌%◌, ◌≡◌, inl, inr, refl, ◌∙◌, false, not, ◌||◌, ◌++◌, Bytes, ◌==◌, ltb, arith,
  Bool-cases,
}
use baremetal_crt_host.Cl.{u64_mod}
use baremetal_crt_host.Runtime.{World}
use baremetal_crt_host.Runtime.Monad.{done}
use baremetal_crt_host.Runtime.Memory.{ByteMap}
use baremetal_crt_host.Pci.{pci_sysfs_memcpy_slow, pci_sysfs_memcpy}
use baremetal_crt_host.Pci.Copy.{
  IsCopy, CanCopy, peek_empty, peek-split, IsCopy-apart, IsCopy-join, move_all_lem, memcpy_slow_lem,
}

-- The first `a` bytes, and after any copy of them the others
CanCopy-first :
    (m : ByteMap) (dest src a b n : ℕ) (bs old : Bytes)
    → n ≡ a + b
    → CanCopy m dest src n bs old
    → (xs ys xo : Bytes) × (bs ≡ xs ++ ys)
      × CanCopy m dest src a xs xo
      × ((m' : ByteMap)
          → IsCopy m m' dest a xs
          → (yo : Bytes) × CanCopy m' (dest + a) (src + a) b ys yo)
CanCopy-first m dest src a b n bs old sum (from, to, apart, fits_d, fits_s) =
    let (xs, ys, hx, hy, eq) = peek-split m src a b n bs sum from in
    let (xo, yo, ho, ho', _) = peek-split m dest a b n old sum to in
    (
      xs,
      ys,
      xo,
      eq,
      (
        hx,
        ho,
        elim apart [ inl le ↦ inl (omega (arith, sum)) | inr le ↦ inr (omega (arith, sum)) ],
        omega (arith, sum),
        omega (arith, sum),
      ),
      λ m' copy. (
        yo,
        (
          IsCopy-apart m m' dest a xs (src + a) b copy (elim apart [
            | inl le ↦ inr (omega (arith, sum))
            | inr le ↦ inl (omega (arith, sum))
          ])
              ∙ hy,
          IsCopy-apart m m' dest a xs (dest + a) b copy (inr (omega arith)) ∙ ho',
          elim apart [ inl le ↦ inl (omega (arith, sum)) | inr le ↦ inr (omega (arith, sum)) ],
          omega (arith, sum),
          omega (arith, sum),
        ),
      ),
    )

module _ (dest src n : ℕ) (bs old : Bytes) (w : World)
    (can : CanCopy w.memory dest src n bs old) where
  words_lem :
      (not (dest % 8 == 0) || not (src % 8 == 0)) ≡ false
      → (m' : ByteMap) × (pci_sysfs_memcpy dest src n w ≡ done tt (record w { memory = m' }))
        × IsCopy w.memory m' dest n bs
  unfolding pci_sysfs_memcpy
  words_lem aligned =
      let words = 8 * (n / 8) in
      let (xs, ys, xo, eq, (from, to, apart, fits_d, fits_s), next) =
        CanCopy-first w.memory dest src words (n % 8) n bs old (omega arith) can in
      let (m1, run, first) =
        move_all_lem 8 (n / 8) words dest src xs xo w (omega arith) from to apart fits_d fits_s in
      let (yo, can2) = next m1 first in
      let w1 = record w { memory = m1 } in
      let (m', run', second) = memcpy_slow_lem (dest + words) (src + words) (n % 8) ys yo w1 can2 in
      let at_d : (dest + words) % u64_mod ≡ dest + words = omega (arith, fits_d) in
      let at_s : (src + words) % u64_mod ≡ src + words = omega (arith, fits_s) in
      elim (Bool-cases (ltb 0 (n % 8))) [
        | inl more ↦ (
          m',
          rw (aligned, run, more, at_d, at_s) run',
          IsCopy-join w.memory m1 m' dest words (n % 8) n xs ys bs eq (omega arith) first second,
        )
        | inr no_more ↦
            let zero_left : n % 8 ≡ 0 = ground arith in
            let nothing = peek_empty m1 (src + words) (dest + words) (n % 8) ys zero_left can2.0 in
            (
              m1,
              rw (aligned, run, no_more) refl,
              IsCopy-join w.memory m1 m1 dest words (n % 8) n xs ys bs eq (omega arith) first
                  (nothing, λ q out. refl),
            )
      ]

  -- Where `n` bytes are mapped at both addresses, in front of the end of the address space, and the
  -- two ranges do not meet, both copies end, and after each of them the destination holds the bytes
  -- of the source, and every byte outside it is what it was: `pci_sysfs_memcpy`, by words where the
  -- addresses allow it, and `pci_sysfs_memcpy_slow`, by bytes, do the same.
  pub memcpy-memcpy_slow :
      ((m' : ByteMap) × (pci_sysfs_memcpy dest src n w ≡ done tt (record w { memory = m' }))
        × IsCopy w.memory m' dest n bs)
      × ((m' : ByteMap) × (pci_sysfs_memcpy_slow dest src n w ≡ done tt (record w { memory = m' }))
          × IsCopy w.memory m' dest n bs)
  unfolding pci_sysfs_memcpy
  memcpy-memcpy_slow =
      let slow = memcpy_slow_lem dest src n bs old w can in
      (
        elim (Bool-cases (not (dest % 8 == 0) || not (src % 8 == 0))) [
          | inl unaligned ↦ (slow.0, rw unaligned slow.1, slow.2)
          | inr aligned ↦ words_lem aligned
        ],
        slow,
      )
