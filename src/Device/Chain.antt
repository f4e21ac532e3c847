-- ===== src/Device/Chain.antt =====
-- The list of devices as a sequence of addresses, the walks along it, and a change of one link.
use baremetal_crt_host.Common.{
  ℕ, zero, suc, ◌<◌, ◌≡◌, ◌≢◌, refl, ◌∙◌, Option, none, some, List, [], ◌∷◌, ◌++◌, length, All,
  append-nil, arith,
}
use baremetal_crt_host.Runtime.{Ptr, null, Device, World, update}
use baremetal_crt_host.Runtime.Monad.{done}
use baremetal_crt_host.Device.Registry.{next_of, set_next, find_last, find_prev}

abbrev pub Devices : Type 0
Devices = Ptr → Option Device

-- From the address `p` on, the links lead through the devices `qs` to NULL.
abbrev pub Chain : Devices → Ptr → List Ptr → Type 0
Chain devs p [] = p ≡ null
Chain devs p (q ∷ qs) =
    (p ≡ q) × (q ≢ null) × ((x : Device) × (devs q ≡ some x) × Chain devs x.dev_next qs)

-- The devices behind `d`, where `none` is the head of the list
abbrev pub LinkedFrom : World → Option Ptr → List Ptr → Type 0
LinkedFrom w none qs = Chain w.devices w.head_next qs
LinkedFrom w (some d) qs = (x : Device) × (w.devices d ≡ some x) × Chain w.devices x.dev_next qs

abbrev pub NotIn : Ptr → List Ptr → Type 0
NotIn p qs = All (λ q. q ≢ p) qs

abbrev pub Distinct : List Ptr → Type 0
Distinct [] = Unit
Distinct (q ∷ qs) = NotIn q qs × Distinct qs

-- The last of `d` and the devices behind it
abbrev pub last_of : Option Ptr → List Ptr → Option Ptr
last_of d [] = d
last_of d (q ∷ qs) = last_of (some q) qs

pub Chain-congr :
    (devs devs' : Devices) (p : Ptr) (qs : List Ptr)
    → All (λ q. devs' q ≡ devs q) qs
    → Chain devs p qs
    → Chain devs' p qs
Chain-congr devs devs' p [] same chain = chain
Chain-congr devs devs' p (q ∷ qs) (here, same) (at, some_q, (x, there, rest)) =
    (at, some_q, (x, ground (arith, here, there), Chain-congr devs devs' x.dev_next qs same rest))

-- A change of a device that is not in the list
pub Chain-NotIn :
    (devs devs' : Devices) (p d : Ptr) (qs : List Ptr)
    → ((q : Ptr) → q ≢ d → devs' q ≡ devs q)
    → NotIn d qs
    → Chain devs p qs
    → Chain devs' p qs
Chain-NotIn devs devs' p d [] same apart chain = chain
Chain-NotIn devs devs' p d (q ∷ qs) same (ne, apart) (at, some_q, (x, there, rest)) =
    let kept = same q ne in
    (
      at,
      some_q,
      (x, ground (arith, kept, there), Chain-NotIn devs devs' x.dev_next d qs same apart rest),
    )

-- The rest of the list behind one of its devices
pub Chain-behind :
    (devs : Devices) (p : Ptr) (front : List Ptr) (dev : Ptr) (back : List Ptr) (x : Device)
    → Chain devs p (front ++ dev ∷ back)
    → devs dev ≡ some x
    → Chain devs x.dev_next back
Chain-behind devs p [] dev back x (at, some_q, (y, there, rest)) e =
    let same : y ≡ x = ground arith in rw same at rest
Chain-behind devs p (q ∷ front) dev back x (at, some_q, (y, there, rest)) e =
    Chain-behind devs y.dev_next front dev back x rest e

pub next_of_nil : (d : Option Ptr) (w : World) → LinkedFrom w d [] → next_of d w ≡ done null w
unfolding next_of
next_of_nil none w chain = ground arith
next_of_nil (some d) w (x, there, chain) = ground arith

pub next_of_cons :
    (d : Option Ptr) (q : Ptr) (qs : List Ptr) (w : World)
    → LinkedFrom w d (q ∷ qs)
    → (next_of d w ≡ done q w) × (q ≢ null) × LinkedFrom w (some q) qs
unfolding next_of
next_of_cons none q qs w (at, some_q, rest) = (ground arith, some_q, rest)
next_of_cons (some d) q qs w (x, there, (at, some_q, rest)) = (ground arith, some_q, rest)

-- The walk of `dev_add` on a list without the device
pub find_last-NotIn :
    (fuel dev : ℕ) (d : Option Ptr) (qs : List Ptr) (w : World)
    → LinkedFrom w d qs
    → NotIn dev qs
    → length qs < fuel
    → find_last fuel dev d w ≡ done (some (last_of d qs)) w
unfolding find_last
find_last-NotIn zero dev d qs w linked apart enough = absurd (omega arith)
find_last-NotIn (suc fuel) dev d [] w linked apart enough =
    let e = next_of_nil d w linked in ground (arith, e)
find_last-NotIn (suc fuel) dev d (q ∷ qs) w linked (ne, apart) enough =
    let (e, some_q, rest) = next_of_cons d q qs w linked in
    let step = find_last-NotIn fuel dev (some q) qs w rest apart (omega arith) in
    ground (arith, e, step)

-- The walks meet the device behind `front`, whatever follows it.
module _ (dev : Ptr) (back : List Ptr) (w : World) where
  pub find_last_met :
      (fuel : ℕ) (d : Option Ptr) (front : List Ptr)
      → LinkedFrom w d (front ++ dev ∷ back)
      → NotIn dev front
      → length front < fuel
      → find_last fuel dev d w ≡ done none w
  unfolding find_last
  find_last_met zero d front linked apart enough = absurd (omega arith)
  find_last_met (suc fuel) d [] linked apart enough =
      let (e, some_q, rest) = next_of_cons d dev back w linked in ground (arith, e)
  find_last_met (suc fuel) d (q ∷ qs) linked (ne, apart) enough =
      let (e, some_q, rest) = next_of_cons d q (qs ++ dev ∷ back) w linked in
      let step = find_last_met fuel (some q) qs rest apart (omega arith) in ground (arith, e, step)

  pub find_prev_met :
      (fuel : ℕ) (d : Option Ptr) (front : List Ptr)
      → LinkedFrom w d (front ++ dev ∷ back)
      → NotIn dev front
      → length front < fuel
      → find_prev fuel dev d w ≡ done (some (last_of d front)) w
  unfolding find_prev
  find_prev_met zero d front linked apart enough = absurd (omega arith)
  find_prev_met (suc fuel) d [] linked apart enough =
      let (e, some_q, rest) = next_of_cons d dev back w linked in ground (arith, e)
  find_prev_met (suc fuel) d (q ∷ qs) linked (ne, apart) enough =
      let (e, some_q, rest) = next_of_cons d q (qs ++ dev ∷ back) w linked in
      let step = find_prev_met fuel (some q) qs rest apart (omega arith) in ground (arith, e, step)

-- The state with the link behind `d` set to `p`
abbrev pub relink : World → Option Ptr → Ptr → World
relink w none p = record w { head_next = p }
relink w (some d) p = record w {
  devices =
      update w.devices d
        (elim (w.devices d) [ none ↦ none | some x ↦ some (record x { dev_next = p }) ]);
}

relink-head :
    (w : World) (q : Ptr) (front : List Ptr) (p : Ptr)
    → (relink w (last_of (some q) front) p).head_next ≡ w.head_next
relink-head w q [] p = refl
relink-head w q (q' ∷ front) p = relink-head w q' front p

relink-dev_num :
    (w : World) (q : Ptr) (front : List Ptr) (p : Ptr)
    → (relink w (last_of (some q) front) p).dev_num ≡ w.dev_num
relink-dev_num w q [] p = refl
relink-dev_num w q (q' ∷ front) p = relink-dev_num w q' front p

relink-devices :
    (w : World) (q : Ptr) (front rest : List Ptr) (p d : Ptr)
    → q ≢ d
    → NotIn d (front ++ rest)
    → (relink w (last_of (some q) front) p).devices d ≡ w.devices d
relink-devices w q [] rest p d ne apart = ground arith
relink-devices w q (q' ∷ front) rest p d ne (ne', apart) =
    relink-devices w q' front rest p d ne' apart

-- `d` is not one of the devices, or it is the head.
abbrev pub Behind : Option Ptr → List Ptr → Type 0
Behind none qs = Unit
Behind (some d) qs = NotIn d qs

-- A new link behind the last of `front` leads on to the list that starts there.
pub relink-LinkedFrom :
    (w : World) (d : Option Ptr) (front back rest : List Ptr) (p : Ptr)
    → LinkedFrom w d (front ++ back)
    → Chain w.devices p rest
    → Distinct (front ++ rest)
    → Behind d (front ++ rest)
    → (set_next (last_of d front) p w ≡ done tt (relink w (last_of d front) p))
      × LinkedFrom (relink w (last_of d front) p) d (front ++ rest)
unfolding set_next
relink-LinkedFrom w none [] back rest p linked chain distinct apart = (refl, chain)
relink-LinkedFrom w (some d) [] back rest p (x, there, old) chain distinct apart = (
  ground arith,
  (
    record x { dev_next = p },
    ground arith,
    Chain-NotIn w.devices _ p d rest (λ q ne. ground arith) apart chain,
  ),
)
relink-LinkedFrom w none (q ∷ front) back rest p (at, some_q, linked) chain (apart', distinct)
      apart =
    let (run, new) = relink-LinkedFrom w (some q) front back rest p linked chain distinct apart' in
    (run, (relink-head w q front p ∙ at, some_q, new))
relink-LinkedFrom w (some d) (q ∷ front) back rest p (x, there, (at, some_q, linked)) chain
      (apart', distinct) (ne, apart) =
    let (run, new) = relink-LinkedFrom w (some q) front back rest p linked chain distinct apart' in
    (run, (x, relink-devices w q front rest p d ne apart ∙ there, (at, some_q, new)))

-- What else the new link behind the last of a list leaves
pub relink-rest :
    (w : World) (front : List Ptr) (p d : Ptr)
    → NotIn d front
    → ((relink w (last_of none front) p).devices d ≡ w.devices d)
      × ((relink w (last_of none front) p).dev_num ≡ w.dev_num)
relink-rest w [] p d apart = (refl, refl)
relink-rest w (q ∷ front) p d (ne, apart) =
    (relink-devices w q front [] p d ne (rw (append-nil front) apart), relink-dev_num w q front p)
