-- ===== src/Device/Reach.antt =====
-- Every sequence of `dev_add` and `dev_remove` keeps the list of devices and its number.
use mathlib.Core.Path.{subst}
use baremetal_crt_host.Common.{
  ℕ, zero, suc, ◌%◌, ◌<◌, ◌≡◌, ◌≢◌, ◌⊎◌, inl, inr, sym, ap, ◌∙◌, Option, none, some, List, [], ◌∷◌,
  ◌++◌, ◌==◌, length, length-append, arith, Bool-cases,
}
use baremetal_crt_host.Cl.{Status, u32_mod}
use baremetal_crt_host.Runtime.{Ptr, null, Device, World}
use baremetal_crt_host.Runtime.Monad.{done}
use baremetal_crt_host.Handles.{dev_is_valid}
use baremetal_crt_host.Context.Life.{IsLiveDevice}
use baremetal_crt_host.Device.Registry.{find_prev, dev_add, dev_remove}
use baremetal_crt_host.Device.Chain.{Chain, NotIn, Distinct, LinkedFrom, next_of_nil, next_of_cons}
use baremetal_crt_host.Device.Add.{Distinct-split, add-Chain, add_twice}
use baremetal_crt_host.Device.Remove.{remove-Chain}

-- The list of devices is the distinct devices `qs`, and its number is theirs.
pub record IsRegistry (w : World) (qs : List Ptr) : Type 0 where
  pub linked : Chain w.devices w.head_next qs
  pub distinct : Distinct qs
  pub counted : w.dev_num ≡ length qs % u32_mod

-- The fuel covers the list of devices.
abbrev pub IsEnough : ℕ → World → Type 0
IsEnough fuel w = (qs : List Ptr) → Chain w.devices w.head_next qs → length qs < fuel

-- A call of `dev_add` or `dev_remove` on a live device, which has returned. A device that is added
-- is new, its link is NULL, or it is in the list.
pub data Step (w w' : World) : Type 0 where
  add :
      (fuel : ℕ) (dev : Ptr) (x : Device) (r : Status)
      → IsLiveDevice w dev x
      → IsEnough fuel w
      → (x.dev_next ≡ null) ⊎ ((qs : List Ptr) → Chain w.devices w.head_next qs → NotIn dev qs → ⊥)
      → dev_add fuel dev w ≡ done r w'
      → Step w w'
  remove :
      (fuel : ℕ) (dev : Ptr) (x : Device) (r : Status)
      → IsLiveDevice w dev x
      → IsEnough fuel w
      → dev_remove fuel dev w ≡ done r w'
      → Step w w'

pub data Reach (w : World) : World → Type 0 where
  here : Reach w w
  next : {u v : World} → Reach w u → Step u v → Reach w v

-- A device is in a list or not.
position :
    (dev : Ptr) (qs : List Ptr)
    → NotIn dev qs ⊎ ((front back : List Ptr) × (qs ≡ front ++ dev ∷ back))
position dev [] = inl tt
position dev (q ∷ qs) = elim (Bool-cases (q == dev)) [
  | inl same ↦ inr ([], qs, ap (λ d. d ∷ qs) (ground (arith, same)))
  | inr other ↦ elim (position dev qs) [
    | inl apart ↦ inl ((λ e. ground (arith, other, e)), apart)
    | inr (front, back, e) ↦ inr (q ∷ front, back, ap (λ l. q ∷ l) e)
  ]
]

find_prev-NotIn :
    (fuel dev : ℕ) (d : Option Ptr) (qs : List Ptr) (w : World)
    → LinkedFrom w d qs
    → NotIn dev qs
    → length qs < fuel
    → find_prev fuel dev d w ≡ done none w
unfolding find_prev
find_prev-NotIn zero dev d qs w linked apart enough = absurd (omega arith)
find_prev-NotIn (suc fuel) dev d [] w linked apart enough =
    let e = next_of_nil d w linked in ground (arith, e)
find_prev-NotIn (suc fuel) dev d (q ∷ qs) w linked (ne, apart) enough =
    let (e, some_q, rest) = next_of_cons d q qs w linked in
    let step = find_prev-NotIn fuel dev (some q) qs w rest apart (omega arith) in
    ground (arith, e, step)

-- A device that is not in the list is not removed from it.
remove_other :
    (fuel dev : ℕ) (x : Device) (w : World) (qs : List Ptr)
    → IsLiveDevice w dev x
    → Chain w.devices w.head_next qs
    → NotIn dev qs
    → length qs < fuel
    → dev_remove fuel dev w ≡ done Status.invalid_value w
unfolding dev_remove dev_is_valid
remove_other fuel dev x w qs live chain apart enough =
    let gone = find_prev-NotIn fuel dev none qs w chain apart enough in ground (arith, gone)

NotIn-snoc : (q dev : Ptr) (qs : List Ptr) → NotIn q qs → dev ≢ q → NotIn q (qs ++ dev ∷ [])
NotIn-snoc q dev [] apart ne = (ne, tt)
NotIn-snoc q dev (q' ∷ qs) (ne', apart) ne = (ne', NotIn-snoc q dev qs apart ne)

Distinct-snoc : (dev : Ptr) (qs : List Ptr) → Distinct qs → NotIn dev qs → Distinct (qs ++ dev ∷ [])
Distinct-snoc dev [] distinct apart = (tt, tt)
Distinct-snoc dev (q ∷ qs) (ahead, distinct) (ne, apart) =
    (NotIn-snoc q dev qs ahead (λ e. ne (sym e)), Distinct-snoc dev qs distinct apart)

same_world : (r s : Status) (w v : World) → done r w ≡ done s v → w ≡ v
same_world r s w v e = ground arith

Step-IsRegistry :
    {w w' : World} (st : Step w w') (qs : List Ptr)
    → IsRegistry w qs
    → (rs : List Ptr) × IsRegistry w' rs
Step-IsRegistry {w} {w'} (add fuel dev x r live enough link run) qs reg = elim (position dev qs) [
  | inl apart ↦ elim link [
    | inr met ↦ absurd (met qs reg.linked apart)
    | inl new ↦
        let distinct = Distinct-snoc dev qs reg.distinct apart in
        let (v, y, added, chain, num, _, _) =
          add-Chain fuel dev w x live qs [] reg.linked new distinct (enough qs reg.linked) in
        let len = length-append qs (dev ∷ []) in
        (
          qs ++ dev ∷ [],
          subst (λ u. IsRegistry u (qs ++ dev ∷ []))
              (same_world Status.success r v w' (sym added ∙ run))
              (record {
                linked = chain;
                distinct = distinct;
                counted = omega (arith, num, reg.counted, len);
              }),
        )
  ]
  | inr (front, back, e) ↦
      let chain : Chain w.devices w.head_next (front ++ dev ∷ back) = rw e at (reg.linked) in
      let distinct : Distinct (front ++ dev ∷ back) = rw e at (reg.distinct) in
      let room : length (front ++ dev ∷ back) < fuel = enough (front ++ dev ∷ back) chain in
      let len = length-append front (dev ∷ back) in
      let still =
        add_twice fuel dev w x live front back chain distinct (omega (arith, room, len)) in
      (
        qs,
        subst (λ v. IsRegistry v qs) (same_world Status.invalid_value r w w' (sym still ∙ run)) reg,
      )
]
Step-IsRegistry {w} {w'} (remove fuel dev x r live enough run) qs reg = elim (position dev qs) [
  | inl apart ↦
      let still = remove_other fuel dev x w qs live reg.linked apart (enough qs reg.linked) in
      (
        qs,
        subst (λ v. IsRegistry v qs) (same_world Status.invalid_value r w w' (sym still ∙ run)) reg,
      )
  | inr (front, back, e) ↦
      let chain : Chain w.devices w.head_next (front ++ dev ∷ back) = rw e at (reg.linked) in
      let distinct : Distinct (front ++ dev ∷ back) = rw e at (reg.distinct) in
      let room : length (front ++ dev ∷ back) < fuel = enough (front ++ dev ∷ back) chain in
      let len = length-append front (dev ∷ back) in
      let len' = length-append front back in
      let (v, removed, chain', num, _) =
        remove-Chain fuel dev w x live front back chain distinct (omega (arith, room, len)) in
      let whole : length qs ≡ length (front ++ dev ∷ back) = ap length e in
      (
        front ++ back,
        subst (λ u. IsRegistry u (front ++ back)) (same_world _ r v w' (sym removed ∙ run))
            (record {
              linked = chain';
              distinct = (Distinct-split dev front back distinct).2;
              counted = omega (arith, num, reg.counted, whole, len, len');
            }),
      )
]

-- From a state whose list of devices holds distinct devices and is counted, every sequence of calls
-- of `dev_add` and `dev_remove` on live devices, each with fuel for the list, where a device that is
-- added has no link or is in the list already, leads to such a state.
pub Reach-IsRegistry :
    {w w' : World} (qs : List Ptr)
    → IsRegistry w qs
    → Reach w w'
    → (rs : List Ptr) × IsRegistry w' rs
Reach-IsRegistry qs reg here = (qs, reg)
Reach-IsRegistry qs reg (next reach st) =
    let (rs, reg') = Reach-IsRegistry qs reg reach in Step-IsRegistry st rs reg'
