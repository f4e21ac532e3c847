-- ===== src/Setup/Init.antt =====
-- The loop of `*_init`: every device that was enumerated is allocated and added to the list.
use baremetal_crt_host.Common.{
  ℕ, ◌+◌, ◌<◌, ◌≤◌, ◌≡◌, ◌≢◌, refl, sym, ap, ◌∙◌, Option, some, List, [], ◌∷◌, ◌++◌, append_assoc,
  append-nil, length, length-append, All, arith,
}
use baremetal_crt_host.Cl.{Status, icd_magic}
use baremetal_crt_host.Runtime.{Ptr, null, DevOps, Device, World, update}
use baremetal_crt_host.Runtime.Monad.{Run, done, fault, out_of_fuel, M, pure, ◌>>=◌, calloc_struct}
use baremetal_crt_host.Handles.{plat_is_valid}
use baremetal_crt_host.Device.{dev_alloc}
use baremetal_crt_host.Device.Chain.{Chain, NotIn, Distinct, Chain-NotIn}
use baremetal_crt_host.Device.Add.{NotIn-append, Distinct-append, Distinct-split, add-Chain}
use baremetal_crt_host.Setup.{Privs, alloc_dev, probed, init_loop}
use baremetal_crt_host.Setup.Kept.{dev_add-Kept}
use baremetal_crt_host.Setup.Alloc.{IsLivePlatform, alloc_dev_lem}

-- What the loop of `*_init` uses for one device: the addresses that `calloc` gives for the device
-- and for its data, and what was enumerated.
pub record Slot (I : Type 0) : Type 0 where
  pub dev : Ptr
  pub prv : Ptr
  pub inf : I

module _ {I : Type 0} where
  abbrev pub devs_of : List (Slot I) → List Ptr
  devs_of [] = []
  devs_of (s ∷ ss) = s.dev ∷ devs_of ss

  abbrev pub prvs_of : List (Slot I) → List Ptr
  prvs_of [] = []
  prvs_of (s ∷ ss) = s.prv ∷ prvs_of ss

  abbrev pub infs_of : List (Slot I) → List I
  infs_of [] = []
  infs_of (s ∷ ss) = s.inf ∷ infs_of ss

  -- What `calloc` gives in the loop, and then `rest`
  abbrev pub supply_of : List (Slot I) → List Ptr → List Ptr
  supply_of [] rest = rest
  supply_of (s ∷ ss) rest = s.dev ∷ s.prv ∷ supply_of ss rest

  -- The addresses are new: none is NULL, none is in the list `qs`, and they differ.
  abbrev pub Fresh : List Ptr → List (Slot I) → Type 0
  Fresh qs ss =
      Distinct (qs ++ devs_of ss)
      × Distinct (prvs_of ss)
      × All (λ s. (s.dev ≢ null) × (s.prv ≢ null)) ss

-- A device of the driver with its magic number, its table and its data
abbrev pub HasDevice : DevOps → World → (dev prv : Ptr) → Type 0
HasDevice ops w dev prv =
    (x : Device) × (w.devices dev ≡ some x)
    × (x.magic ≡ icd_magic)
    × (x.ops ≡ some ops)
    × (x.priv ≡ prv)

-- What `*_init` has made of a slot
abbrev pub IsSetUp : {P I : Type 0} → (I → P) → DevOps → World → Privs P → Slot I → Type 0
IsSetUp filled ops w privs s =
    HasDevice ops w s.dev s.prv
    × (privs s.prv ≡ some (filled s.inf))
    × (s.dev ≢ null)
    × (s.prv ≢ null)

-- The result of a loop with the devices `ds` in front of its own
abbrev pub collect : {P : Type 0} → List Ptr → M (Status × List Ptr × P) → M (Status × List Ptr × P)
collect ds m = do (r, ds', privs) ← m; pure (r, ds ++ ds', privs)

module _ {P : Type 0} where
  collect_nil : (x : Run (Status × List Ptr × P)) (w : World) → collect [] (λ v. x) w ≡ x
  collect_nil (done a v) w = refl
  collect_nil fault w = refl
  collect_nil out_of_fuel w = refl

  collect-collect :
      (d : Ptr) (ds : List Ptr) (x y z : Run (Status × List Ptr × P)) (w : World)
      → x ≡ collect (d ∷ []) (λ v. y) w
      → y ≡ collect ds (λ v. z) w
      → x ≡ collect (d ∷ ds) (λ v. z) w
  collect-collect d ds x y (done a v) w e f = ground (arith, e, f)
  collect-collect d ds x y fault w e f = ground (arith, e, f)
  collect-collect d ds x y out_of_fuel w e f = ground (arith, e, f)

module _ {P I : Type 0} (blank : P) (filled found : I → P) (probe : P → Option P) (ops : DevOps)
    (fuel : ℕ) (platform : Ptr) where
  -- One round of the loop
  init_round :
      (s : Slot I) (ss : List I) (qs rest : List Ptr) (privs : Privs P) (w : World)
      → IsLivePlatform w platform
      → w.supply ≡ s.dev ∷ s.prv ∷ rest
      → Chain w.devices w.head_next qs
      → Distinct (qs ++ s.dev ∷ [])
      → s.dev ≢ null
      → s.prv ≢ null
      → length qs < fuel
      → probed probe ops (filled s.inf) ≡ some (found s.inf)
      → (w' : World) × (privs' : Privs P) × (init_loop blank filled probe ops fuel platform privs
            (s.inf ∷ ss)
            w
          ≡ collect (s.dev ∷ []) (init_loop blank filled probe ops fuel platform privs' ss) w')
        × IsLivePlatform w' platform
        × (w'.supply ≡ rest)
        × Chain w'.devices w'.head_next (qs ++ s.dev ∷ [])
        × IsSetUp found ops w' privs' s
        × ((q prv : Ptr) → q ≢ s.dev → HasDevice ops w q prv → HasDevice ops w' q prv)
        × ((p : Ptr) → p ≢ s.prv → privs' p ≡ privs p)
  unfolding init_loop
  init_round s ss qs rest privs w live supply chain distinct some_dev some_prv enough finds =
      let (apart, apart', distinct') = Distinct-split s.dev qs [] distinct in
      let (w1, x, allocated, (there, same, head, plats), left, magic, is_prv, last) =
        alloc_dev_lem blank privs platform s.dev s.prv rest w live supply some_dev some_prv in
      let y : Device = record x { ops = some ops } in
      let w2 = record w1 { devices = update w1.devices s.dev (some y) } in
      let others : (q : Ptr) → q ≢ s.dev → w2.devices q ≡ w.devices q =
        λ q ne. let e = same q ne in ground arith in
      let here : w2.devices s.dev ≡ some y = ground arith in
      let chain2 : Chain w2.devices w2.head_next qs =
        rw head (Chain-NotIn w.devices w2.devices w.head_next s.dev qs others apart chain) in
      let (w3, z, added, chain3, num, there3, on) =
        add-Chain fuel s.dev w2 y (some_dev, here, magic) qs [] chain2 last distinct enough in
      let kept = λ (q : Ptr) (v : Device) (at : w2.devices q ≡ some v).
        dev_add-Kept rest w.platforms q v fuel s.dev w2 Status.success w3
          (left, plats, (v, at, refl, refl, refl)) added in
      let (left3, plats3, (u, there_u, magic_u, ops_u, priv_u)) = kept s.dev y here in
      let privs1 : Privs P = update privs s.prv (some blank) in
      let privs2 : Privs P = update privs1 x.priv (some (filled s.inf)) in
      let privs3 : Privs P = update privs2 x.priv (some (found s.inf)) in
      (
        w3,
        privs3,
        ground (arith, allocated, there, added, finds),
        (live.0, (live.1.0, ap (λ f. f platform) plats3 ∙ live.1.1, live.1.2)),
        left3,
        chain3,
        (
          (u, there_u, magic_u ∙ magic, ops_u, priv_u ∙ is_prv),
          ground (arith, is_prv),
          some_dev,
          some_prv,
        ),
        λ q prv ne (v, at, m, o, d).
            let (_, _, (v', at', m', o', d')) = kept q v (others q ne ∙ at) in
            (v', at', m' ∙ m, o' ∙ o, d' ∙ d),
        λ p ne. ground (arith, is_prv),
      )

  -- The loop over the slots and then `more`: the devices of the slots end up at the end of the list,
  -- each with its table and its data, and the loop goes on with `more`.
  pub init_loop-Chain :
      (ss : List (Slot I)) (more : List I) (qs rest : List Ptr) (privs : Privs P) (w : World)
      → IsLivePlatform w platform
      → w.supply ≡ supply_of ss rest
      → Chain w.devices w.head_next qs
      → Fresh qs ss
      → length qs + length ss ≤ fuel
      → All (λ s. probed probe ops (filled s.inf) ≡ some (found s.inf)) ss
      → (w' : World) × (privs' : Privs P) × (init_loop blank filled probe ops fuel platform privs
            (infs_of ss ++ more)
            w
          ≡ collect (devs_of ss) (init_loop blank filled probe ops fuel platform privs' more) w')
        × IsLivePlatform w' platform
        × (w'.supply ≡ rest)
        × Chain w'.devices w'.head_next (qs ++ devs_of ss)
        × All (IsSetUp found ops w' privs') ss
        × ((q prv : Ptr) → NotIn q (devs_of ss) → HasDevice ops w q prv → HasDevice ops w' q prv)
        × ((p : Ptr) → NotIn p (prvs_of ss) → privs' p ≡ privs p)
  unfolding init_loop
  init_loop-Chain [] more qs rest privs w live supply chain fresh enough finds = (
    w,
    privs,
    sym (collect_nil (init_loop blank filled probe ops fuel platform privs more w) w),
    live,
    supply,
    rw (append-nil qs) chain,
    tt,
    λ q prv apart has. has,
    λ p apart. refl,
  )
  init_loop-Chain (s ∷ ss) more qs rest privs w live supply chain
        (distinct, (apart_prv, distinct_prv), ((some_dev, some_prv), somes)) enough (find, finds) =
      let regrouped : Distinct ((qs ++ s.dev ∷ []) ++ devs_of ss) =
        rw (append_assoc qs (s.dev ∷ []) (devs_of ss)) distinct in
      let ahead : NotIn s.dev (devs_of ss) =
        let (_, a, _) = Distinct-split s.dev qs (devs_of ss) distinct in
        (NotIn-append s.dev qs (devs_of ss) a).1 in
      let (w1, privs1, round, live1, left1, chain1, set_up, kept, kept_prv) =
        init_round s (infs_of ss ++ more) qs (supply_of ss rest) privs w live supply chain
          (Distinct-append (qs ++ s.dev ∷ []) (devs_of ss) regrouped).0 some_dev some_prv
          (omega arith) find in
      let (w2, privs2, run, live2, left2, chain2, set_ups, kept2, kept_prv2) =
        init_loop-Chain ss more (qs ++ s.dev ∷ []) rest privs1 w1 live1 left1 chain1
          (regrouped, distinct_prv, somes) (omega (arith, length-append qs (s.dev ∷ []), enough))
          finds in
      (
        w2,
        privs2,
        collect-collect s.dev (devs_of ss) _ _
            (init_loop blank filled probe ops fuel platform privs2 more w2) w round run,
        live2,
        left2,
        rw (append_assoc qs (s.dev ∷ []) (devs_of ss)) at chain2,
        (
          (
            kept2 s.dev s.prv ahead set_up.0,
            kept_prv2 s.prv apart_prv ∙ set_up.1,
            some_dev,
            some_prv,
          ),
          set_ups,
        ),
        λ q prv (ne, apart) has. kept2 q prv apart (kept q prv (λ e. ne (sym e)) has),
        λ p (ne, apart). kept_prv2 p apart ∙ kept_prv p (λ e. ne (sym e)),
      )

  -- Where `calloc` has nothing left, the loop ends with CL_OUT_OF_HOST_MEMORY at the next device.
  pub init_loop-exhausted :
      (inf : I) (infs : List I) (privs : Privs P) (w : World)
      → IsLivePlatform w platform
      → w.supply ≡ []
      → init_loop blank filled probe ops fuel platform privs (inf ∷ infs) w
        ≡ done (Status.out_of_host_memory, [], privs) w
  unfolding init_loop alloc_dev dev_alloc plat_is_valid calloc_struct
  init_loop-exhausted inf infs privs w (some_plat, (p, live, magic)) none_left = ground arith
