-- ===== src/Pci/Config/Bars.antt =====
-- The registers of a device: their sizes and their values
use baremetal_crt_host.Common.{
  ℕ, zero, suc, ◌+◌, ◌-◌, ◌*◌, ◌/◌, ◌%◌, ◌^◌, ◌<◌, ◌≤◌, ◌≡◌, ◌≢◌, refl, sym, ap, ◌∙◌, inl, inr,
  Bool, true, false, not, none, some, ◌==◌, ltb, length, get_elem?, get_elem?_lt, get_elem?-set_ne,
  get_elem?-set_self, length-set, set, arith, Bool-cases,
}
use mathlib.Core.Path.{subst}
use baremetal_crt_host.Cl.{Status}
use baremetal_crt_host.Pci.Setup.{PciResource, pci_res_max}
use baremetal_crt_host.Pci.Config.{Res, size_of, put_bar, read_narrow, bar_loop}

put_bar_lem :
    (res : Res) (i bar bar_size : ℕ) (is_64 : Bool)
    → i < length res
    → (length (put_bar res i bar bar_size is_64) ≡ length res)
      × ((j : ℕ) → j ≢ i → get_elem? (put_bar res i bar bar_size is_64) j ≡ get_elem? res j)
      × ((r : PciResource) × (get_elem? (put_bar res i bar bar_size is_64) i ≡ some r)
          × (r.bar ≡ bar)
          × (r.bar_size ≡ bar_size)
          × (r.is_64 ≡ is_64)
          × (r.valid ≡ not (bar_size == 0)))
unfolding put_bar
put_bar_lem res i bar bar_size is_64 lt =
    let (r, at) = get_elem?_lt res i lt in
    let v : PciResource = record r {
      bar = bar;
      bar_size = bar_size;
      is_64 = is_64;
      valid = not (bar_size == 0);
    } in
    let is_set : put_bar res i bar bar_size is_64 ≡ set res i v = ground (arith, at) in
    (
      ap length is_set ∙ length-set res i v,
      λ j ne. ap (λ l. get_elem? l j) is_set ∙ get_elem?-set_ne res i j v (λ e. ne (sym e)),
      (v, ap (λ l. get_elem? l i) is_set ∙ get_elem?-set_self res i v lt, refl, refl, refl, refl),
    )

module _ {C : Type 0} (pread : C → (off n : ℕ) → ℕ) (pwrite : C → (off n v : ℕ) → C)
    (is_written : C → (off n : ℕ) → Bool) where
  -- A register of 32 bits at `addr` in every state of the configuration space: writing all ones and
  -- reading gives the size `size` in the way of the PCI specification, and writing the value back
  -- restores the state.
  abbrev pub IsNarrow : C → (addr size : ℕ) → Type 0
  IsNarrow c addr size =
      let ones = pwrite c addr 4 (2 ^ 32 - 1) in
      (pread c addr 4 / 2 % 4 ≡ 0)
      × (size < 2 ^ 32)
      × (pread ones addr 4 / 16 * 16 ≡ (2 ^ 32 - size) % 2 ^ 32)
      × (is_written ones addr 4 ≡ true)
      × (pwrite ones addr 4 (pread c addr 4) ≡ c)

  -- `pci_res[i]` as the loop leaves it
  abbrev pub IsSized : C → Res → (i size : ℕ) → Type 0
  IsSized c res i size =
      (r : PciResource) × (get_elem? res i ≡ some r)
      × (r.bar ≡ pread c (0x10 + i * 4) 4)
      × (r.bar_size ≡ size)
      × (r.is_64 ≡ false)
      × (r.valid ≡ not (size == 0))

  narrow_loop :
      (left : ℕ) (sizes : ℕ → ℕ) (c : C) (res : Res)
      → left ≤ pci_res_max
      → length res ≡ pci_res_max
      → ((i : ℕ) → i < pci_res_max → IsNarrow c (0x10 + i * 4) (sizes i))
      → (res' : Res) × (bar_loop pread pwrite is_written left false c res
          ≡ some (Status.success, c, res'))
        × (length res' ≡ pci_res_max)
        × ((j : ℕ) → j + left < pci_res_max → get_elem? res' j ≡ get_elem? res j)
        × ((j : ℕ) → pci_res_max ≤ j + left → j < pci_res_max → IsSized c res' j (sizes j))
  unfolding bar_loop read_narrow
  narrow_loop zero sizes c res fits len narrow =
      (res, refl, len, λ j lt. refl, λ j ge lt. absurd (omega arith))
  narrow_loop (suc left) sizes c res fits len narrow =
      let i : ℕ = pci_res_max - suc left in
      let (kind, small, ones, written, back) = narrow i (omega arith) in
      let bar = pread c (0x10 + i * 4) 4 in
      let size : size_of 32 (pread (pwrite c (0x10 + i * 4) 4 (2 ^ 32 - 1)) (0x10 + i * 4) 4)
          ≡ sizes i =
        omega (arith, small, ones) in
      let (len', same, sized) = put_bar_lem res i bar (sizes i) false (omega (arith, len)) in
      let (res', run, len2, before, after) =
        narrow_loop left sizes c (put_bar res i bar (sizes i) false) (omega arith) (len' ∙ len)
          narrow in
      let run' : bar_loop pread pwrite is_written (suc left) false c res
          ≡ some (Status.success, c, res') =
        ground (arith, kind, size, written, back, run) in
      let (r, at, is_bar, is_size, is_narrow, is_valid) = sized in
      (
        res',
        run',
        len2,
        λ j lt. before j (omega arith) ∙ same j (λ e. omega arith),
        λ j ge lt. elim (Bool-cases (ltb (j + left) pci_res_max)) [
          | inr later ↦ after j (ground (arith, later)) lt
          | inl here ↦
              let now : i ≡ j = ground (arith, here) in
              subst (λ k. IsSized c res' k (sizes k)) now
                (r, before i (omega arith) ∙ at, is_bar, is_size, is_narrow, is_valid)
        ],
      )

  -- Six registers of 32 bits that answer as the PCI specification says: the first loop of
  -- `pci_sysfs_config` succeeds, leaves the configuration space as it was, and every resource has
  -- the value and the size of its register, and counts as valid exactly where the size is not 0.
  pub bar_loop-sizes :
      (sizes : ℕ → ℕ) (c : C) (res : Res)
      → length res ≡ pci_res_max
      → ((i : ℕ) → i < pci_res_max → IsNarrow c (0x10 + i * 4) (sizes i))
      → (res' : Res) × (bar_loop pread pwrite is_written pci_res_max false c res
          ≡ some (Status.success, c, res'))
        × ((i : ℕ) → i < pci_res_max → IsSized c res' i (sizes i))
  bar_loop-sizes sizes c res len narrow =
      let (res', run, _, _, sized) = narrow_loop pci_res_max sizes c res (omega arith) len narrow in
      (res', run, λ i lt. sized i (omega arith) lt)

  -- A register of 64 bits in the last of the six places: the loop writes behind `pci_res`.
  pub last_bar_overruns :
      (c : C) (res : Res)
      → let ones = pwrite c 0x24 4 (2 ^ 32 - 1) in
        is_written ones 0x24 4 ≡ true
        → pread c 0x24 4 / 2 % 4 ≡ 2
        → bar_loop pread pwrite is_written 1 false c res ≡ none
  unfolding bar_loop read_narrow
  last_bar_overruns c res written wide = ground (arith, written, wide)
