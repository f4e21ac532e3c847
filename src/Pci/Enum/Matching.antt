-- ===== src/Pci/Enum/Matching.antt =====
-- What the enumeration finds.
use baremetal_crt_host.Common.{
  ℕ, suc, ◌+◌, ◌*◌, ◌<◌, ◌≤◌, ◌≡◌, ◌≢◌, ◌⊎◌, inl, inr, refl, sym, ap, ◌∙◌, Bool, true, false, ◌&&◌,
  ◌||◌, Option, some, List, [], ◌∷◌, ◌++◌, append_assoc, append-nil, ◌==◌, if◌then◌else◌, length,
  length-append, drop, All, arith, Bool-cases,
}
use baremetal_crt_host.Cl.{Status}
use baremetal_crt_host.Runtime.{Ptr, null, World}
use baremetal_crt_host.Runtime.Monad.{done, calloc_struct}
use baremetal_crt_host.Pci.Enum.{
  PciDevId, PciConf, PciEnumInfo, PciLine, find_id, enum_info, enum_line, enum_loop, pci_sysfs_enum,
}

-- Whether a device's identifiers are in a list
abbrev pub known : List PciDevId → (vid did : ℕ) → Bool
known [] vid did = false
known (e ∷ es) vid did = e.vendor == vid && e.device == did || known es vid did

-- The devices of the lines whose identifiers are in the list, in the order of the lines
abbrev pub matching : List PciDevId → List PciLine → List PciEnumInfo
matching ids [] = []
matching ids (l ∷ ls) =
    if known ids l.vid l.did then enum_info l ∷ matching ids ls else matching ids ls

abbrev pub all_read : List PciLine → List (Option PciLine)
all_read [] = []
all_read (l ∷ ls) = some l ∷ all_read ls

-- The table: the identifiers, and an entry that ends it, whatever follows
abbrev pub IsTable : List PciDevId → List PciDevId → Type 0
IsTable [] [] = ⊥
IsTable [] (e ∷ es) = (e.vendor ≡ 0xffff) ⊎ (e.device ≡ 0xffff)
IsTable (i ∷ ids) [] = ⊥
IsTable (i ∷ ids) (e ∷ es) = (e ≡ i) × (i.vendor ≢ 0xffff) × (i.device ≢ 0xffff) × IsTable ids es

find_id-known :
    (ids table : List PciDevId) (vid did : ℕ) (w : World)
    → IsTable ids table
    → find_id table vid did w ≡ done (known ids vid did) w
unfolding find_id
find_id-known [] [] vid did w h = elim h [ ]
find_id-known [] (e ∷ es) vid did w h = ground arith
find_id-known (i ∷ ids) [] vid did w h = elim h [ ]
find_id-known (i ∷ ids) (e ∷ es) vid did w (same, v, d, rest) =
    let ih = find_id-known ids es vid did w rest in rw same (ground (arith, ih))

List-cases : (xs : List Ptr) → (xs ≡ []) ⊎ ((p : Ptr) × (ps : List Ptr) × (xs ≡ p ∷ ps))
List-cases [] = inl refl
List-cases (p ∷ ps) = inr (p, ps, refl)

module _ (ids table : List PciDevId) (is_table : IsTable ids table) where
  module _ (num : ℕ) (inf : List PciEnumInfo) (l : PciLine) (w : World) where
    enum_line-unknown :
        known ids l.vid l.did ≡ false
        → enum_line table num inf l w ≡ done (Status.success, num, inf) w
    unfolding enum_line
    enum_line-unknown unknown =
        let looked = find_id-known ids table l.vid l.did w is_table in
        rw (looked, enum_line, unknown) refl

    enum_line-room :
        known ids l.vid l.did ≡ true
        → length inf + 1 < num
        → enum_line table num inf l w ≡ done (Status.success, num, inf ++ enum_info l ∷ []) w
    unfolding enum_line
    enum_line-room is_known room =
        let looked = find_id-known ids table l.vid l.did w is_table in
        let len = length-append inf (enum_info l ∷ []) in ground (arith, looked, is_known, len)

    enum_line-grow :
        (p : Ptr) (ps : List Ptr)
        → known ids l.vid l.did ≡ true
        → length inf + 1 ≡ num
        → w.supply ≡ p ∷ ps
        → p ≢ null
        → enum_line table num inf l w
          ≡ done (Status.success, num * 2, inf ++ enum_info l ∷ []) (record w { supply = ps })
    unfolding enum_line calloc_struct
    enum_line-grow p ps is_known full supply some_p =
        let looked = find_id-known ids table l.vid l.did w is_table in
        let len = length-append inf (enum_info l ∷ []) in ground (arith, looked, is_known, len)

  -- With memory for one more array per line, the lines are gone through to the end.
  enum_loop-matching :
      (num : ℕ) (inf : List PciEnumInfo) (ls : List PciLine) (w : World)
      → length inf < num
      → length ls ≤ length w.supply
      → All (λ p. p ≢ null) w.supply
      → (ps : List Ptr) × (k : ℕ) × (enum_loop table num inf (all_read ls) w
          ≡ done (Status.success, some (inf ++ matching ids ls)) (record w { supply = ps }))
        × (k ≤ length ls)
        × (ps ≡ drop k w.supply)
  unfolding enum_loop
  enum_loop-matching num inf [] w fits enough somes =
      (w.supply, 0, rw (append-nil inf), omega arith, refl)
  enum_loop-matching num inf (l ∷ ls) w fits enough somes =
      elim (Bool-cases (known ids l.vid l.did)) [
        | inr unknown ↦
            let (ps, k, run, le, is_ps) =
              enum_loop-matching num inf ls w fits (omega arith) somes in
            let line = enum_line-unknown num inf l w unknown in
            (ps, k, ground (arith, line, run, unknown), omega arith, is_ps)
        | inl is_known ↦
            let inf' : List PciEnumInfo = inf ++ enum_info l ∷ [] in
            let len : length inf' ≡ length inf + 1 =
              omega (arith, length-append inf (enum_info l ∷ [])) in
            let regroup = append_assoc inf (enum_info l ∷ []) (matching ids ls) in
            elim (Bool-cases (length inf + 1 == num)) [
              | inr room ↦
                  let free : length inf + 1 < num = ground (arith, room) in
                  let (ps, k, run, le, is_ps) =
                    enum_loop-matching num inf' ls w (omega arith) (omega arith) somes in
                  let line = enum_line-room num inf l w is_known free in
                  (ps, k, ground (arith, line, run, is_known, regroup), omega arith, is_ps)
              | inl last ↦
                  let full : length inf + 1 ≡ num = ground (arith, last) in
                  elim (List-cases w.supply) [
                    | inl gone ↦ absurd (omega (arith, ap length gone))
                    | inr (p, qs, supply) ↦
                        let more : All (λ a. a ≢ null) (p ∷ qs) = rw supply at somes in
                        let enough' : suc (length ls) ≤ suc (length qs) = rw supply at enough in
                        let (ps, k, run, le, is_ps) =
                          enum_loop-matching (num * 2) inf' ls (record w { supply = qs })
                            (omega arith) (omega arith) more.1 in
                        let line = enum_line-grow num inf l w p qs is_known full supply more.0 in
                        (
                          ps,
                          suc k,
                          ground (arith, line, run, is_known, regroup),
                          omega arith,
                          is_ps ∙ sym (ap (drop (suc k)) supply),
                        )
                  ]
            ]
      ]

  -- A table of identifiers with its end, a file whose lines are all read, and memory for an array
  -- and one more per line: `pci_sysfs_enum` succeeds, never writes behind its array, finds the
  -- devices of the lines whose identifiers the table lists, in the order of the lines and with their
  -- bus, device and function numbers, and changes nothing but the memory that is left.
  pub enum-matching :
      (conf : PciConf) (ls : List PciLine) (w : World)
      → conf.id_table ≡ table
      → length ls < length w.supply
      → All (λ p. p ≢ null) w.supply
      → (ps : List Ptr) × (k : ℕ) × (pci_sysfs_enum (some conf) (some (all_read ls)) w
          ≡ done (Status.success, some (matching ids ls)) (record w { supply = ps }))
        × (k ≤ length ls + 1)
        × (ps ≡ drop k w.supply)
  unfolding pci_sysfs_enum calloc_struct
  enum-matching conf ls w is_conf enough somes = elim (List-cases w.supply) [
    | inl gone ↦ absurd (omega (arith, ap length gone))
    | inr (p, qs, supply) ↦
        let more : All (λ a. a ≢ null) (p ∷ qs) = rw supply at somes in
        let enough' : suc (length ls) ≤ suc (length qs) = rw supply at enough in
        let (ps, k, run, le, is_ps) =
          enum_loop-matching 1 [] ls (record w { supply = qs }) (omega arith) (omega arith)
            more.1 in
        (
          ps,
          suc k,
          ground (arith, run, supply, is_conf),
          omega arith,
          is_ps ∙ sym (ap (drop (suc k)) supply),
        )
  ]
