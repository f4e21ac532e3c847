-- ===== src/Pci/Config/Counts.antt =====
-- The calls of the host, counted: what resources hold, and what the loops over them open and close.
use baremetal_crt_host.Common.{
  ℕ, ◌+◌, ◌≡◌, ◌≢◌, refl, Bool, false, ◌&&◌, Option, none, some, List, [], ◌∷◌, ◌++◌, ◌==◌,
  if◌then◌else◌, All, arith, inl, inr, Bool-cases,
}
use baremetal_crt_host.Runtime.{null}
use baremetal_crt_host.Pci.Setup.{PciResource, PciData}
use baremetal_crt_host.Pci.Config.{
  Res, PciHost, HostCall, opened, closed, mapped, unmapped, unmap_buf, close_fd, map_loop,
  clear_all,
}

abbrev is_call : HostCall → HostCall → Bool
is_call (opened a) (opened b) = a == b
is_call (closed a) (closed b) = a == b
is_call (mapped p n) (mapped q m) = p == q && n == m
is_call (unmapped p n) (unmapped q m) = p == q && n == m
is_call _ _ = false

-- How often a call is made
abbrev pub count : HostCall → List HostCall → ℕ
count call [] = 0
count call (c ∷ cs) = (if is_call call c then 1 else 0) + count call cs

pub count-append :
    (call : HostCall) (xs ys : List HostCall)
    → count call (xs ++ ys) ≡ count call xs + count call ys
count-append call [] ys = omega arith
count-append call (x ∷ xs) ys = omega (arith, count-append call xs ys)

-- Every descriptor is closed as often as it is opened, and every mapping undone as often as it is
-- made, with its length.
abbrev pub IsBalanced : List HostCall → Type 0
IsBalanced calls =
    ((fd : ℕ) → count (opened fd) calls ≡ count (closed fd) calls)
    × ((p n : ℕ) → count (mapped p n) calls ≡ count (unmapped p n) calls)

abbrev pub IsShut : PciResource → Type 0
IsShut r = (r.fd ≡ none) × (r.buf ≡ null)

-- Nothing of the device is open or mapped.
abbrev pub IsClosed : PciData → Type 0
IsClosed prv = (prv.fd_config ≡ none) × All IsShut prv.pci_res

-- The resources with the descriptor, and those with the mapping
abbrev pub holds_fd : ℕ → Res → ℕ
holds_fd fd [] = 0
holds_fd fd (r ∷ rs) = count (closed fd) (close_fd r.fd) + holds_fd fd rs

abbrev pub holds_map : (p n : ℕ) → Res → ℕ
holds_map p n [] = 0
holds_map p n (r ∷ rs) = count (unmapped p n) (unmap_buf r) + holds_map p n rs

pub shut_holds :
    (fd p n : ℕ) (res : Res) → All IsShut res → (holds_fd fd res ≡ 0) × (holds_map p n res ≡ 0)
shut_holds fd p n [] shut = (refl, refl)
shut_holds fd p n (r ∷ rs) ((no_fd, no_buf), shut) =
    let (f, m) = shut_holds fd p n rs shut in (ground (arith, no_fd, f), ground (arith, no_buf, m))

pub map_loop-holds :
    (host : PciHost) (i fd p n : ℕ) (res : Res)
    → ((j : ℕ) → host.map_resource j ≢ some null)
    → All IsShut res
    → let (_, res', calls) = map_loop host i res in
      (count (opened fd) calls ≡ holds_fd fd res')
      × (count (closed fd) calls ≡ 0)
      × (count (mapped p n) calls ≡ holds_map p n res')
      × (count (unmapped p n) calls ≡ 0)
unfolding map_loop
map_loop-holds host i fd p n [] some_map shut = (refl, refl, refl, refl)
map_loop-holds host i fd p n (r ∷ rs) some_map ((no_fd, no_buf), shut) =
    let (o, c, m, u) = map_loop-holds host (i + 1) fd p n rs some_map shut in
    let (f0, m0) = shut_holds fd p n rs shut in
    ground (arith, o, c, m, u, f0, m0, no_fd, no_buf, some_map i)

unmap_counts :
    (fd p n : ℕ) (r : PciResource)
    → (count (opened fd) (unmap_buf r) ≡ 0)
      × (count (closed fd) (unmap_buf r) ≡ 0)
      × (count (mapped p n) (unmap_buf r) ≡ 0)
unmap_counts fd p n r = elim (Bool-cases (r.buf == null)) [
  | inl none_mapped ↦
      (ground (arith, none_mapped), ground (arith, none_mapped), ground (arith, none_mapped))
  | inr some_mapped ↦
      (ground (arith, some_mapped), ground (arith, some_mapped), ground (arith, some_mapped))
]

pub close_counts :
    (fd p n : ℕ) (x : Option ℕ)
    → (count (opened fd) (close_fd x) ≡ 0)
      × (count (mapped p n) (close_fd x) ≡ 0)
      × (count (unmapped p n) (close_fd x) ≡ 0)
close_counts fd p n none = (refl, refl, refl)
close_counts fd p n (some x) = (refl, refl, refl)

-- The counts of three lists in a row
count-append3 :
    (call : HostCall) (xs ys zs : List HostCall)
    → count call (xs ++ ys ++ zs) ≡ count call xs + (count call ys + count call zs)
count-append3 call xs ys zs =
    omega (arith, count-append call (xs ++ ys) zs, count-append call xs ys)

pub clear_all-holds :
    (fd p n : ℕ) (res : Res)
    → let (res', calls) = clear_all res in
      All IsShut res'
      × (count (opened fd) calls ≡ 0)
      × (count (closed fd) calls ≡ holds_fd fd res)
      × (count (mapped p n) calls ≡ 0)
      × (count (unmapped p n) calls ≡ holds_map p n res)
unfolding clear_all
clear_all-holds fd p n [] = (tt, refl, refl, refl, refl)
clear_all-holds fd p n (r ∷ rs) =
    let (shut, o, c, m, u) = clear_all-holds fd p n rs in
    let us = unmap_buf r in
    let cs = close_fd r.fd in
    let calls = (clear_all rs).1 in
    let (u1, u2, u3) = unmap_counts fd p n r in
    let (c1, c2, c3) = close_counts fd p n r.fd in
    (
      ((refl, refl), shut),
      omega (arith, count-append3 (opened fd) us cs calls, u1, c1, o),
      omega (arith, count-append3 (closed fd) us cs calls, u2, c),
      omega (arith, count-append3 (mapped p n) us cs calls, u3, c2, m),
      omega (arith, count-append3 (unmapped p n) us cs calls, c3, u),
    )
