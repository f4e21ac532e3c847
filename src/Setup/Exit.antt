-- ===== src/Setup/Exit.antt =====
-- The loop of `*_exit`: every device of the driver is taken out of the list and freed.
use baremetal_crt_host.Common.{
  ℕ, ◌<◌, ◌≡◌, ◌≢◌, refl, sym, ap, ◌∙◌, Bool, false, none, some, List, [], ◌∷◌, ◌++◌, append-nil,
  length, All, arith, Bool-cases, inl, inr,
}
use baremetal_crt_host.Cl.{Status, icd_magic}
use baremetal_crt_host.Runtime.{Ptr, null, DevOps, Device, World, update}
use baremetal_crt_host.Runtime.Monad.{done}
use baremetal_crt_host.Handles.{dev_is_valid}
use baremetal_crt_host.Device.{dev_free}
use baremetal_crt_host.Device.Chain.{Chain, NotIn, Distinct, Chain-NotIn}
use baremetal_crt_host.Device.Add.{NotIn-append, Distinct-split}
use baremetal_crt_host.Device.Remove.{remove_status, remove-Chain}
use baremetal_crt_host.Setup.{Privs, free_dev, exit_loop}
use baremetal_crt_host.Setup.Kept.{dev_remove-Kept}
use baremetal_crt_host.Setup.Init.{Slot, devs_of, prvs_of, HasDevice, IsSetUp}

module _ {P I : Type 0} (clear : Bool) (fuel : ℕ) (filled : I → P) (ops : DevOps) where
  -- A device whose data are there is freed with them.
  free_dev_lem :
      (privs : Privs P) (dev : Ptr) (x : Device) (v : P) (w : World)
      → dev ≢ null
      → w.devices dev ≡ some x
      → x.magic ≡ icd_magic
      → x.priv ≢ null
      → privs x.priv ≡ some v
      → (w' : World) × (free_dev clear privs dev w
          ≡ done (Status.success, update privs x.priv none) w')
        × (w'.devices dev ≡ none)
        × ((q : Ptr) → q ≢ dev → w'.devices q ≡ w.devices q)
        × (w'.head_next ≡ w.head_next)
  unfolding free_dev dev_free dev_is_valid
  free_dev_lem privs dev x v w some_dev there magic some_prv has = elim (Bool-cases clear) [
    | inl c ↦
        let y : Device = record x { priv = null } in
        (
          record w { devices = update (update w.devices dev (some y)) dev none },
          ground arith,
          ground arith,
          λ q ne. ground arith,
          refl,
        )
    | inr c ↦ (
      record w { devices = update w.devices dev none },
      ground arith,
      ground arith,
      λ q ne. ground arith,
      refl,
    )
  ]

  IsSetUp-kept :
      (dev prv : Ptr) (ss : List (Slot I)) (w w' : World) (privs privs' : Privs P)
      → ((q p : Ptr) → q ≢ dev → HasDevice ops w q p → HasDevice ops w' q p)
      → ((p : Ptr) → p ≢ prv → privs' p ≡ privs p)
      → NotIn dev (devs_of ss)
      → NotIn prv (prvs_of ss)
      → All (IsSetUp filled ops w privs) ss
      → All (IsSetUp filled ops w' privs') ss
  IsSetUp-kept dev prv [] w w' privs privs' kept same apart apart' set_ups = tt
  IsSetUp-kept dev prv (s ∷ ss) w w' privs privs' kept same (ne, apart) (ne', apart')
        ((has, filling, some_dev, some_prv), set_ups) =
      (
        (kept s.dev s.prv ne has, same s.prv ne' ∙ filling, some_dev, some_prv),
        IsSetUp-kept dev prv ss w w' privs privs' kept same apart apart' set_ups,
      )

  -- The devices are distinct and stand behind `qs` in the list, each with its own data and its
  -- magic number: the loop leaves the list `qs`, and frees the devices and their data.
  pub exit_loop-Chain :
      (ss : List (Slot I)) (qs : List Ptr) (privs : Privs P) (w : World)
      → Chain w.devices w.head_next (qs ++ devs_of ss)
      → Distinct (qs ++ devs_of ss)
      → Distinct (prvs_of ss)
      → All (IsSetUp filled ops w privs) ss
      → length qs < fuel
      → (w' : World) × (privs' : Privs P) × (exit_loop clear fuel privs
            (devs_of ss)
            (length (devs_of ss))
            w
          ≡ done privs' w')
        × Chain w'.devices w'.head_next qs
        × All (λ s. privs' s.prv ≡ none) ss
        × ((p : Ptr) → NotIn p (prvs_of ss) → privs' p ≡ privs p)
  unfolding exit_loop
  exit_loop-Chain [] qs privs w chain distinct distinct_prv set_up enough =
      (w, privs, refl, rw (append-nil qs) at chain, tt, λ p apart. refl)
  exit_loop-Chain (s ∷ ss) qs privs w chain distinct (apart_prv, distinct_prv)
        (((x, there, magic, is_ops, is_prv), has, some_dev, some_prv), set_ups) enough =
      let (apart, apart', distinct') = Distinct-split s.dev qs (devs_of ss) distinct in
      let ahead = (NotIn-append s.dev qs (devs_of ss) apart').1 in
      let (w1, removed, chain1, num, there1) =
        remove-Chain fuel s.dev w x (some_dev, there, magic) qs (devs_of ss) chain distinct
          enough in
      let kept = λ (q : Ptr) (v : Device) (at : w.devices q ≡ some v).
        dev_remove-Kept w.supply w.platforms q v fuel s.dev w (remove_status w s.dev x) w1
          (refl, refl, (v, at, refl, refl, refl)) removed in
      let off : Device = record x { enabled = false } in
      let (w2, freed, gone, same, head) =
        free_dev_lem privs s.dev off (filled s.inf) w1 some_dev there1 magic
          (λ e. some_prv (sym is_prv ∙ e)) (ap privs is_prv ∙ has) in
      let privs1 : Privs P = update privs x.priv none in
      let others : (q p : Ptr) → q ≢ s.dev → HasDevice ops w q p → HasDevice ops w2 q p =
        λ q p ne (v, at, m, o, d).
          let (_, _, (v', at', m', o', d')) = kept q v at in
          (v', same q ne ∙ at', m' ∙ m, o' ∙ o, d' ∙ d) in
      let other_prv : (p : Ptr) → p ≢ s.prv → privs1 p ≡ privs p = λ p ne. ground (arith, is_prv) in
      let chain2 : Chain w2.devices w2.head_next (qs ++ devs_of ss) = rw head (
        Chain-NotIn w1.devices w2.devices w1.head_next s.dev (qs ++ devs_of ss) same apart'
          chain1) in
      let set_ups2 =
        IsSetUp-kept s.dev s.prv ss w w2 privs privs1 others other_prv ahead apart_prv set_ups in
      let (w3, privs3, run, chain3, clears, kept3) =
        exit_loop-Chain ss qs privs1 w2 chain2 distinct' distinct_prv set_ups2 enough in
      let freed_prv : privs1 s.prv ≡ none = ground (arith, is_prv) in
      (
        w3,
        privs3,
        ground (arith, removed, freed, run),
        chain3,
        (kept3 s.prv apart_prv ∙ freed_prv, clears),
        λ p (ne, ahead'). kept3 p ahead' ∙ other_prv p (λ e. ne (sym e)),
      )
