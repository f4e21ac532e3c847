-- ===== src/Kernel/Arg.antt =====
-- What `clSetKernelArg` records, and what `kern_get_arg` reads back.
use baremetal_crt_host.Common.{
  ℕ, zero, suc, ◌+◌, ◌<◌, ◌≤◌, ◌≡◌, ◌≢◌, Option, none, some, List, [], ◌∷◌, arith, leb, ltb,
  if◌then◌else◌, length, get_elem?, set, replicate, inl, inr, Option-cases, length-replicate,
  get_elem?-replicate,
}
use baremetal_crt_host.Cl.{Status, icd_magic}
use baremetal_crt_host.Runtime.{Ptr, null, Kernel, KernArg, World, update}
use baremetal_crt_host.Runtime.Monad.{done}
use baremetal_crt_host.Kernel.{
  zero_arg, copy_args, resize_args, kern_set_num_args, kern_get_arg, kern_set_arg,
}
use baremetal_crt_host.Kernel.Invariant.{ArgsFit}

-- The arguments of a kernel, the empty list for NULL.
abbrev pub args_of : Option (List KernArg) → List KernArg
args_of none = []
args_of (some args) = args

-- Copying keeps the elements below the count, and leaves the fresh ones behind it.
get_elem?-copy_args :
    (n : ℕ) (args old : List KernArg) (j : ℕ)
    → n ≤ length args
    → n ≤ length old
    → get_elem? (copy_args n args old) j ≡ (if ltb j n then get_elem? old j else get_elem? args j)
unfolding copy_args
get_elem?-copy_args zero args old j h1 h2 = ground arith
get_elem?-copy_args (suc n) [] old j h1 h2 = absurd (omega arith)
get_elem?-copy_args (suc n) (a ∷ args) [] j h1 h2 = absurd (omega arith)
get_elem?-copy_args (suc n) (a ∷ args) (o ∷ old) zero h1 h2 = ground arith
get_elem?-copy_args (suc n) (a ∷ args) (o ∷ old) (suc j) h1 h2 =
    ground (arith, get_elem?-copy_args n args old j)

-- Growing the array keeps the old arguments and fills up with zeros.
pub get_elem?-resize_args :
    (m n : ℕ) (old : Option (List KernArg)) (j : ℕ)
    → ArgsFit old m
    → m ≤ n
    → j < n
    → get_elem? (resize_args m n old) j
      ≡ (if ltb j m then get_elem? (args_of old) j else some zero_arg)
unfolding resize_args
get_elem?-resize_args m n none j fit le lt = ground (arith, get_elem?-replicate n j zero_arg)
get_elem?-resize_args m n (some old) j fit le lt = ground (
  arith,
  get_elem?-copy_args m (replicate n zero_arg) old j,
  get_elem?-copy_args n (replicate n zero_arg) old j,
  length-replicate {0} n zero_arg,
  get_elem?-replicate n j zero_arg,
)

-- The kernel after its argument `i` is set to `a`.
abbrev pub grown : Kernel → ℕ → Kernel
grown k i =
    if leb k.num_args i
    then record k { args = some (resize_args k.num_args (i + 1) k.args); num_args = i + 1 }
    else k

abbrev pub with_arg : Kernel → ℕ → KernArg → Kernel
with_arg k i a = record k { args = some (set (args_of k.args) i (record a { index = i })) }

module _ (w : World) (kernel : Ptr) (k : Kernel) (live : w.kernels kernel ≡ some k)
    (ne_null : kernel ≢ null) (magic : k.magic ≡ icd_magic) (fit : ArgsFit k.args k.num_args) where
  pub set_num_args-grown :
      (i : ℕ) (block : Ptr) (rest : List Ptr)
      → w.supply ≡ block ∷ rest
      → block ≢ null
      → kern_set_num_args kernel (i + 1) w
        ≡ done Status.success (record w {
          supply = rest;
          kernels = update w.kernels kernel (
              some (record k {
                args = some (resize_args k.num_args (i + 1) k.args);
                num_args = i + 1;
              }));
        })
  unfolding kern_set_num_args
  set_num_args-grown i block rest s ne = ground arith

  pub set_arg-with_arg :
      (i : ℕ) (a : KernArg)
      → i < k.num_args
      → kern_set_arg kernel i (some a) w
        ≡ done Status.success
            (record w { kernels = update w.kernels kernel (some (with_arg k i a)) })
  unfolding kern_set_arg
  set_arg-with_arg i a lt = elim (Option-cases k.args) [
    | inl none_left ↦ ground arith
    | inr (args, e) ↦ ground arith
  ]

  pub get_arg-get_elem? :
      (i : ℕ) (x : KernArg) (a : KernArg)
      → get_elem? (args_of k.args) i ≡ some a
      → i < k.num_args
      → kern_get_arg kernel i (some x) w ≡ done (Status.success, some a) w
  unfolding kern_get_arg
  get_arg-get_elem? i x a e lt = elim (Option-cases k.args) [
    | inl none_left ↦ ground arith
    | inr (args, e1) ↦ ground arith
  ]
