-- ===== src/Runtime/Monad.antt =====
-- Runs of the runtime's functions: the state is passed on, or the run faults, or a loop on fuel
-- runs out of it.
use baremetal_crt_host.Common.{ℕ, [], ◌∷◌, Bool, true, false, Option, none, some, ◌==◌}
use baremetal_crt_host.Cl.{Status, is_success, icd_magic}
use baremetal_crt_host.Runtime.{Ptr, null, World}

pub data Run (A : Type 0) : Type 0 where
  done : A → World → Run A
  fault : Run A
  out_of_fuel : Run A

abbrev pub M : Type 0 → Type 0
M A = World → Run A

abbrev pub pure : {A : Type 0} → A → M A
pure = done

module _ {A B : Type 0} where
  abbrev pub and_then : Run A → (A → M B) → Run B
  and_then (done a w) k = k a w
  and_then fault k = fault
  and_then out_of_fuel k = out_of_fuel

  infixl 5 ◌>>=◌ ◌>>◌
  abbrev pub ◌>>=◌ : M A → (A → M B) → M B
  m >>= k = λ w. and_then (m w) k

  abbrev pub ◌>>◌ : M A → M B → M B
  m >> n = m >>= λ _. n

-- A branch of a run. It takes the state, so that a proof can split on the test.
infix 1 test◌then◌else◌
abbrev pub test◌then◌else◌ : {A : Type 0} → Bool → M A → M A → M A
test◌then◌else◌ true m k w = m w
test◌then◌else◌ false m k w = k w

abbrev pub on_option : {A B : Type 0} → Option A → M B → (A → M B) → M B
on_option none m k w = m w
on_option (some a) m k w = k a w

-- `if ((r = m) != CL_SUCCESS) return r;` and then `k`
infixr 4 ◌⨟◌
abbrev pub ◌⨟◌ : M Status → M Status → M Status
m ⨟ k = m >>= λ r. test is_success r then k else pure r

-- The same in a function that leaves `a` in its results when it returns early.
abbrev pub or_leave : {A : Type 0} → M Status → A → M (Status × A) → M (Status × A)
or_leave m a k = m >>= λ r. test is_success r then k else pure (r, a)

-- `if ((r = m) != CL_SUCCESS) goto err_out;` and then `k`; `exit r` is what follows the label.
abbrev pub or_goto : {A : Type 0} → M Status → (Status → M A) → M A → M A
or_goto m exit k = m >>= λ r. test is_success r then k else exit r

-- The object at an address.
abbrev pub deref : {A : Type 0} → (World → Ptr → Option A) → Ptr → M A
deref store p w = elim (store w p) [ none ↦ fault | some a ↦ done a w ]

-- What `calloc` returns for a struct, whose fields the caller fills in.
unfoldable pub calloc_struct : M Ptr
calloc_struct w = elim w.supply [ [] ↦ done null w | p ∷ ps ↦ done p (record w { supply = ps }) ]

-- The check of a handle that every `*_is_valid` of include/drivers makes: NULL or a wrong magic
-- number is answered by `wrong`.
unfoldable pub check_handle :
    {A : Type 0} → Status → (World → Ptr → Option A) → (A → ℕ) → Ptr → M Status
check_handle wrong store magic p =
    test p == null
    then pure wrong
    else do a ← deref store p; test magic a == icd_magic then pure Status.success else pure wrong
