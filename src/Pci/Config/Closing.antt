-- ===== src/Pci/Config/Closing.antt =====
-- What a probe opens and what its removal closes.
use mathlib.Core.Path.{subst}
use baremetal_crt_host.Common.{
  ℕ, zero, suc, ◌+◌, ◌-◌, ◌*◌, ◌/◌, ◌%◌, ◌≡◌, ◌≢◌, refl, sym, Bool, true, false, not, ◌&&◌, ◌||◌,
  none, some, List, [], ◌∷◌, ◌++◌, ◌==◌, All, arith, inl, inr, Bool-cases, Option-cases, get_elem?,
  set,
}
use baremetal_crt_host.Cl.{Status, is_success}
use baremetal_crt_host.Runtime.{null}
use baremetal_crt_host.Pci.Setup.{PciResource, PciData, pci_res_max}
use baremetal_crt_host.Pci.Config.{
  Res, PciHost, HostCall, opened, closed, mapped, unmapped, put_bar, close_fd, map_loop, clear_all,
  read_narrow, read_wide, bar_loop, pci_sysfs_config, pci_sysfs_probe, pci_sysfs_remove,
}
use baremetal_crt_host.Pci.Config.Counts.{
  count, count-append, IsBalanced, IsShut, IsClosed, holds_fd, holds_map, shut_holds,
  map_loop-holds, close_counts, clear_all-holds,
}

set-IsShut :
    (res : Res) (i : ℕ) (r : PciResource) → IsShut r → All IsShut res → All IsShut (set res i r)
set-IsShut [] i r shut all = tt
set-IsShut (x ∷ xs) zero r shut (a, all) = (shut, all)
set-IsShut (x ∷ xs) (suc i) r shut (a, all) = (a, set-IsShut xs i r shut all)

elem-IsShut :
    (res : Res) (i : ℕ) (r : PciResource) → get_elem? res i ≡ some r → All IsShut res → IsShut r
elem-IsShut [] i r at all = absurd (ground arith)
elem-IsShut (x ∷ xs) zero r at (a, all) = (ground (arith, a.0), ground (arith, a.1))
elem-IsShut (x ∷ xs) (suc i) r at (a, all) = elem-IsShut xs i r at all

put_bar-IsShut :
    (res : Res) (i bar bar_size : ℕ) (is_64 : Bool)
    → All IsShut res
    → All IsShut (put_bar res i bar bar_size is_64)
unfolding put_bar
put_bar-IsShut res i bar bar_size is_64 all = elim (Option-cases (get_elem? res i)) [
  | inl gone ↦
      let same : res ≡ put_bar res i bar bar_size is_64 = ground (arith, gone) in
      subst (λ l. All IsShut l) same all
  | inr (r, at) ↦
      let v : PciResource = record r {
        bar = bar;
        bar_size = bar_size;
        is_64 = is_64;
        valid = not (bar_size == 0);
      } in
      let same : set res i v ≡ put_bar res i bar bar_size is_64 = ground (arith, at) in
      subst (λ l. All IsShut l) same (set-IsShut res i v (elem-IsShut res i r at all) all)
]

-- What `pci_sysfs_config` opens and maps is what it leaves open and mapped in the data.
abbrev pub Holds : PciData → List HostCall → Type 0
Holds prv calls =
    (fd p n : ℕ)
    → (count (opened fd) calls
        ≡ holds_fd fd prv.pci_res + count (closed fd) (close_fd prv.fd_config))
      × (count (closed fd) calls ≡ 0)
      × (count (mapped p n) calls ≡ holds_map p n prv.pci_res)
      × (count (unmapped p n) calls ≡ 0)

-- The descriptor of the configuration space in front of what the resources hold
config_fd-Holds :
    (prv : PciData) (f : ℕ) (res : Res) (calls : List HostCall)
    → ((fd p n : ℕ)
        → (count (opened fd) calls ≡ holds_fd fd res)
          × (count (closed fd) calls ≡ 0)
          × (count (mapped p n) calls ≡ holds_map p n res)
          × (count (unmapped p n) calls ≡ 0))
    → Holds (record prv { fd_config = some f; pci_res = res }) (opened f ∷ calls)
config_fd-Holds prv f res calls holds fd p n =
    let (o, c, m, u) = holds fd p n in
    (omega (arith, o), omega (arith, c), omega (arith, m), omega (arith, u))

config_fd-shut :
    (prv : PciData) (f : ℕ) (res : Res)
    → All IsShut res
    → Holds (record prv { fd_config = some f; pci_res = res }) (opened f ∷ [])
config_fd-shut prv f res shut =
    config_fd-Holds prv f res []
      λ fd p n. let (a, b) = shut_holds fd p n res shut in (sym a, refl, sym b, refl)

Holds-same : (p q : PciData) (xs ys : List HostCall) → Holds p xs → p ≡ q → xs ≡ ys → Holds q ys
Holds-same p q xs ys holds e f = subst (λ v. Holds v ys) e (subst (Holds p) f holds)

remove-IsBalanced :
    (prv : PciData) (made : List HostCall)
    → Holds prv made
    → let (res, undone) = clear_all prv.pci_res in
      All IsShut res × IsBalanced (made ++ (undone ++ close_fd prv.fd_config))
remove-IsBalanced prv made holds =
    let (res, undone) = clear_all prv.pci_res in
    let last = close_fd prv.fd_config in
    (
      (clear_all-holds 0 0 0 prv.pci_res).0,
      (
        λ fd.
            let (o, c, _, _) = holds fd 0 0 in
            let (_, o', c', _, _) = clear_all-holds fd 0 0 prv.pci_res in
            let (o2, _, _) = close_counts fd 0 0 prv.fd_config in
            omega (
              arith,
              count-append (opened fd) made (undone ++ last),
              count-append (closed fd) made (undone ++ last),
              count-append (opened fd) undone last,
              count-append (closed fd) undone last,
              o,
              c,
              o',
              c',
              o2,
            ),
        λ p n.
            let (_, _, m, u) = holds 0 p n in
            let (_, _, _, m', u') = clear_all-holds 0 p n prv.pci_res in
            let (_, m2, u2) = close_counts 0 p n prv.fd_config in
            omega (
              arith,
              count-append (mapped p n) made (undone ++ last),
              count-append (unmapped p n) made (undone ++ last),
              count-append (mapped p n) undone last,
              count-append (unmapped p n) undone last,
              m,
              u,
              m',
              u',
              m2,
              u2,
            ),
      ),
    )

module _ {C : Type 0} (pread : C → (off n : ℕ) → ℕ) (pwrite : C → (off n v : ℕ) → C)
    (is_written : C → (off n : ℕ) → Bool) where
  bar_loop-IsShut :
      (left : ℕ) (skip : Bool) (c : C) (res : Res) (s : Status) (c' : C) (res' : Res)
      → All IsShut res
      → bar_loop pread pwrite is_written left skip c res ≡ some (s, c', res')
      → All IsShut res'
  unfolding bar_loop
  bar_loop-IsShut zero skip c res s c' res' all run =
      let same : res ≡ res' = ground arith in rw same at all
  bar_loop-IsShut (suc left) true c res s c' res' all run =
      bar_loop-IsShut left false c res s c' res' all run
  bar_loop-IsShut (suc left) false c res s c' res' all run =
      let i = pci_res_max - suc left in
      let addr = 0x10 + i * 4 in
      let (bar, size, written, c2) = read_narrow pread pwrite is_written c addr in
      let kind = bar / 2 % 4 in
      let (bar', size', c3) = read_wide pread pwrite is_written c2 addr in
      let unchanged : res ≡ res' → All IsShut res' = λ e. rw e at all in
      elim (Bool-cases written) [
        | inr unwritten ↦ unchanged (ground (arith, unwritten))
        | inl ok ↦ elim (Bool-cases (kind == 0 || kind == 1)) [
          | inl narrow ↦
              bar_loop-IsShut left false c2 (put_bar res i bar size false) s c' res'
                (put_bar-IsShut res i bar size false all) (ground (arith, ok, narrow))
          | inr wider ↦ elim (Bool-cases (kind == 2)) [
            | inr unknown ↦ unchanged (ground (arith, ok, wider, unknown))
            | inl wide ↦ elim (Bool-cases (left == 0)) [
              | inl last ↦ absurd (ground (arith, ok, wider, wide, last))
              | inr more ↦
                  let res1 = put_bar res (i + 1) 0 0 false in
                  bar_loop-IsShut left true c3 (put_bar res1 i bar' size' true) s c' res'
                    (put_bar-IsShut res1 i bar' size' true
                      (put_bar-IsShut res (i + 1) 0 0 false all))
                    (ground (arith, ok, wider, wide, more))
            ]
          ]
        ]
      ]

  config-Holds :
      (host : PciHost) (c d : C) (prv p : PciData) (s : Status) (made : List HostCall)
      → IsClosed prv
      → ((i : ℕ) → host.map_resource i ≢ some null)
      → pci_sysfs_config pread pwrite is_written host c prv ≡ some (s, d, p, made)
      → Holds p made
  unfolding pci_sysfs_config
  config-Holds host c d prv p s made (no_fd, shut) some_map run =
      elim (Option-cases host.open_config) [
        | inl gone ↦
            let same : record prv { fd_config = none } ≡ p = ground (arith, gone) in
            let no_calls : [] ≡ made = ground (arith, gone) in
            Holds-same (record prv { fd_config = none }) p [] made
              (λ fd p n.
                let (a, b) = shut_holds fd p n prv.pci_res shut in
                (omega (arith, a), refl, sym b, refl))
              same no_calls
        | inr (fd, opens) ↦
            let one = opened fd ∷ [] in
            let early : (res : Res)
                → All IsShut res
                → record prv { fd_config = some fd; pci_res = res } ≡ p
                → one ≡ made
                → Holds p made =
              λ res all e f. Holds-same _ p one made (config_fd-shut prv fd res all) e f in
            elim (Bool-cases (prv.info.vendor == pread c 0 2 && prv.info.device == pread c 2 2)) [
              | inr other ↦
                  early prv.pci_res shut (ground (arith, opens, other))
                    (ground (arith, opens, other))
              | inl right ↦
                  elim (Option-cases
                    (bar_loop pread pwrite is_written pci_res_max false c prv.pci_res)) [
                      | inl over ↦ absurd (ground (arith, opens, right, over))
                      | inr ((t, c1, res), sized) ↦
                          let shut1 =
                            bar_loop-IsShut pci_res_max false c prv.pci_res t c1 res shut sized in
                          elim (Bool-cases (is_success t)) [
                            | inr bad ↦
                                early res shut1 (ground (arith, opens, right, sized, bad))
                                  (ground (arith, opens, right, sized, bad))
                            | inl good ↦
                                let (u, res2, calls) = map_loop host 0 res in
                                let same : record prv { fd_config = some fd; pci_res = res2 } ≡ p =
                                  ground (arith, opens, right, sized, good) in
                                let same_calls : opened fd ∷ calls ≡ made =
                                  ground (arith, opens, right, sized, good) in
                                Holds-same _ p (opened fd ∷ calls) made
                                  (config_fd-Holds prv fd res2 calls
                                    λ x y z. map_loop-holds host 0 x y z res some_map shut1)
                                  same same_calls
                          ]
                    ]
            ]
      ]

  -- On data of which nothing is open or mapped, and with a host whose `mmap` never gives NULL: a
  -- probe that does not succeed leaves nothing open or mapped in the data, and each descriptor that
  -- it has opened is closed, and each resource that it has mapped is unmapped with its length.
  pub failed_probe-IsClosed :
      (host : PciHost) (c c' : C) (prv prv' : PciData) (r : Status) (calls : List HostCall)
      → IsClosed prv
      → ((i : ℕ) → host.map_resource i ≢ some null)
      → pci_sysfs_probe pread pwrite is_written host c (some prv) ≡ some (r, c', some prv', calls)
      → r ≢ Status.success
      → IsClosed prv' × IsBalanced calls
  unfolding pci_sysfs_probe pci_sysfs_remove
  failed_probe-IsClosed host c c' prv prv' r calls closed0 some_map run failed =
      elim (Option-cases (pci_sysfs_config pread pwrite is_written host c prv)) [
        | inl gone ↦ absurd (ground (arith, gone))
        | inr ((s, d, p, made), ran) ↦ elim (Bool-cases (is_success s)) [
          | inl good ↦ absurd (ground (arith, ran, good))
          | inr bad ↦
              let (res, undone) = clear_all p.pci_res in
              let more = undone ++ close_fd p.fd_config in
              let same : record p { fd_config = none; pci_res = res } ≡ prv' =
                ground (arith, ran, bad) in
              let same_calls : made ++ more ≡ calls = ground (arith, ran, bad) in
              let (shut, balanced) =
                remove-IsBalanced p made
                  (config-Holds host c d prv p s made closed0 some_map ran) in
              let undo : IsClosed (record p { fd_config = none; pci_res = res })
                  × IsBalanced (made ++ more) =
                ((refl, shut), balanced) in
              (subst IsClosed same undo.0, subst IsBalanced same_calls undo.1)
        ]
      ]
