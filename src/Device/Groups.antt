-- ===== src/Device/Groups.antt =====
-- The groups of drivers that `dev_init` sets up.
use baremetal_crt_host.Common.{
  ◌≡◌, refl, Bool, true, List, [], ◌∷◌, All, Bool-cases, inl, inr, arith, if◌then◌else◌,
}
use baremetal_crt_host.Cl.{Status, is_success}
use baremetal_crt_host.Runtime.{Ptr, World}
use baremetal_crt_host.Runtime.Monad.{Run, done, M, pure, and_then, ◌>>=◌, on_option}
use baremetal_crt_host.Runtime.Preserve.{and_then-done}
use baremetal_crt_host.Device.Registry.{DevGroup, init_groups, dev_init}

abbrev pub AllInited : Bool → List DevGroup → Type 0
AllInited b gs = All (λ g. g.inited ≡ b) gs

-- Groups that are set up are left alone.
init_groups_inited :
    (platform : Ptr) (res : Status) (gs : List DevGroup) (w : World)
    → AllInited true gs
    → init_groups platform res gs w ≡ done (res, gs) w
unfolding init_groups
init_groups_inited platform res [] w all = refl
init_groups_inited platform res (g ∷ gs) w (on, all) =
    let rest = init_groups_inited platform res gs w all in ground (arith, rest)

-- The end of a round of the loop
abbrev keep : DevGroup → Status × List DevGroup → M (Status × List DevGroup)
keep g (res, rest) = pure (res, g ∷ rest)

step-AllInited :
    (run : Run (Status × List DevGroup)) (g : DevGroup) (r : Status) (gs' : List DevGroup)
    → (w' : World) → g.inited ≡ true
    → ((a : Status × List DevGroup) (v : World) → run ≡ done a v → AllInited true a.1)
    → and_then run (keep g) ≡ done (r, gs') w'
    → AllInited true gs'
step-AllInited run g r gs' w' on all e =
    let (a, v, e1, e2) = and_then-done run (keep g) (r, gs') w' e in
    let same : gs' ≡ g ∷ a.1 = ground arith in rw same (on, all a v e1)

init_groups-AllInited :
    (platform : Ptr) (gs : List DevGroup) (res r : Status) (gs' : List DevGroup) (w w' : World)
    → init_groups platform res gs w ≡ done (r, gs') w'
    → AllInited true gs'
unfolding init_groups
init_groups-AllInited platform [] res r gs' w w' e =
    let same : gs' ≡ [] = ground arith in rw same tt
init_groups-AllInited platform (g ∷ gs) res r gs' w w' e = elim (Bool-cases g.inited) [
  | inl on ↦
      let rest : and_then (init_groups platform res gs w) (keep g) ≡ done (r, gs') w' =
        ground arith in
      step-AllInited (init_groups platform res gs w) g r gs' w' on
        (λ a v e'. init_groups-AllInited platform gs res a.0 a.1 w v e') rest
  | inr off ↦
      let m : M Status = on_option g.init (pure Status.success) (λ init. init platform) in
      let k : Status → M (Status × List DevGroup) = λ r'.
        init_groups platform (if is_success r' then res else r') gs
        >>= keep (record g { inited = true }) in
      let rest : and_then (m w) k ≡ done (r, gs') w' = ground arith in
      let (r', v, e1, e2) = and_then-done (m w) k (r, gs') w' rest in
      let res1 = if is_success r' then res else r' in
      step-AllInited (init_groups platform res1 gs v) (record g { inited = true }) r gs' w' refl
        (λ a v' e'. init_groups-AllInited platform gs res1 a.0 a.1 v v' e') e2
]

-- Whatever `dev_init` returned, an error of a group included: a second `dev_init` calls no group
-- and returns CL_SUCCESS.
pub dev_init-once :
    (groups groups' : List DevGroup) (platform platform' : Ptr) (r : Status) (w w' v : World)
    → dev_init groups platform w ≡ done (r, groups') w'
    → dev_init groups' platform' v ≡ done (Status.success, groups') v
unfolding dev_init
dev_init-once groups groups' platform platform' r w w' v e =
    init_groups_inited platform' Status.success groups' v
      (init_groups-AllInited platform groups Status.success r groups' w w' e)
