-- ===== src/Runtime/Preserve.antt =====
-- Predicates on the state that a run keeps, whenever it does not fault.
use baremetal_crt_host.Common.{◌≡◌, Bool, true, false, Option, none, some, arith}
use baremetal_crt_host.Cl.{Status, is_success}
use baremetal_crt_host.Runtime.{Ptr, World}
use baremetal_crt_host.Runtime.Monad.{
  Run, done, fault, out_of_fuel, M, pure, and_then, ◌>>=◌, test◌then◌else◌, on_option, ◌⨟◌, or_goto,
  deref,
}

abbrev pub Preserves : {A : Type 0} → (World → Type 0) → M A → Type 0
Preserves {A} P m = (w : World) (r : A) (w' : World) → P w → m w ≡ done r w' → P w'

-- A finished run of `m >>= k` is a finished run of `m` and one of `k`.
pub and_then-done :
    {A B : Type 0} (x : Run A) (k : A → M B) (b : B) (w' : World)
    → and_then x k ≡ done b w'
    → (a : A) × (v : World) × (x ≡ done a v) × (k a v ≡ done b w')
and_then-done (done a v) k b w' e = (a, v, ground arith, e)
and_then-done fault k b w' e = absurd (cc)
and_then-done out_of_fuel k b w' e = absurd (cc)

module _ (P : World → Type 0) where
  pub Preserves-pure : {A : Type 0} (a : A) → Preserves P (pure a)
  Preserves-pure a w r w' p e = let same : w ≡ w' = cc in rw same at p

  pub Preserves->>= :
      {A B : Type 0} {m : M A} {k : A → M B}
      → Preserves P m
      → ((a : A) → Preserves P (k a))
      → Preserves P (m >>= k)
  Preserves->>= {m} {k} keep_m keep_k w r w' p e =
      let (a, v, e1, e2) = and_then-done (m w) k r w' e in keep_k a v r w' (keep_m w a v p e1) e2

  pub Preserves-test :
      {A : Type 0} (b : Bool) {m k : M A}
      → Preserves P m
      → Preserves P k
      → Preserves P (test b then m else k)
  Preserves-test true keep_m keep_k = keep_m
  Preserves-test false keep_m keep_k = keep_k

  pub Preserves-on_option :
      {A B : Type 0} (o : Option A) {m : M B} {k : A → M B}
      → Preserves P m
      → ((a : A) → Preserves P (k a))
      → Preserves P (on_option o m k)
  Preserves-on_option none keep_m keep_k = keep_m
  Preserves-on_option (some a) keep_m keep_k = keep_k a

  pub Preserves-check : {m k : M Status} → Preserves P m → Preserves P k → Preserves P (m ⨟ k)
  Preserves-check keep_m keep_k =
      Preserves->>= keep_m λ r. Preserves-test (is_success r) keep_k (Preserves-pure r)

  pub Preserves-goto :
      {A : Type 0} {m : M Status} {exit : Status → M A} {k : M A}
      → Preserves P m
      → ((r : Status) → Preserves P (exit r))
      → Preserves P k
      → Preserves P (or_goto m exit k)
  Preserves-goto keep_m keep_exit keep_k =
      Preserves->>= keep_m λ r. Preserves-test (is_success r) keep_k (keep_exit r)

  pub Preserves-deref :
      {A : Type 0} (store : World → Ptr → Option A) (p : Ptr) → Preserves P (deref store p)
  Preserves-deref store p w r w' h e = let same : w ≡ w' = ground arith in rw same at h
