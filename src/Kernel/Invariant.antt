-- ===== src/Kernel/Invariant.antt =====
-- The array of a kernel's arguments always has `num_args` elements, whatever calls are made.
use baremetal_crt_host.Common.{
  ℕ, zero, suc, ◌≡◌, refl, Option, none, some, List, [], ◌∷◌, Bytes, arith, length, inl, inr,
  length-set, length-replicate, Option-cases,
}
use baremetal_crt_host.Runtime.{Ptr, Kernel, KernArg, World}
use baremetal_crt_host.Runtime.Preserve.{Preserves}
use baremetal_crt_host.Kernel.{
  zero_arg, copy_args, resize_args, kern_alloc, kern_free, kern_set_name, kern_set_num_args,
  kern_set_arg,
}

abbrev pub ArgsFit : Option (List KernArg) → ℕ → Type 0
ArgsFit none n = n ≡ 0
ArgsFit (some args) n = length args ≡ n

abbrev pub WellFormed : World → Type 0
WellFormed w = (p : Ptr) (k : Kernel) → w.kernels p ≡ some k → ArgsFit k.args k.num_args

pub length-copy_args :
    (n : ℕ) (args old : List KernArg) → length (copy_args n args old) ≡ length args
unfolding copy_args
length-copy_args zero args old = refl
length-copy_args (suc n) [] old = refl
length-copy_args (suc n) (a ∷ args) [] = refl
length-copy_args (suc n) (a ∷ args) (o ∷ old) = omega (arith, length-copy_args n args old)

pub length-resize_args : (m n : ℕ) (old : Option (List KernArg)) → length (resize_args m n old) ≡ n
unfolding resize_args
length-resize_args m n none = length-replicate n _
length-resize_args m n (some old) = omega (arith, length-copy_args, length-replicate {0} n zero_arg)

pub kern_set_arg-WellFormed :
    (kern i : ℕ) (arg : Option KernArg) → Preserves WellFormed (kern_set_arg kern i arg)
unfolding kern_set_arg
kern_set_arg-WellFormed kern i none w r w' h e p k live = ground (arith, h p k)
kern_set_arg-WellFormed kern i (some a) w r w' h e p k live = elim (Option-cases (w.kernels kern)) [
  | inl gone ↦ ground (arith, h p k)
  | inr (k0, e0) ↦ elim (Option-cases k0.args) [
    | inl no_args ↦ ground (arith, h p k, h kern k0)
    | inr (args, e1) ↦ ground (arith, h p k, h kern k0, length-set args i (record a { index = i }))
  ]
]

pub kern_set_num_args-WellFormed :
    (kern num : ℕ) → Preserves WellFormed (kern_set_num_args kern num)
unfolding kern_set_num_args
kern_set_num_args-WellFormed kern num w r w' h e p k live = elim (Option-cases (w.kernels kern)) [
  | inl gone ↦ ground (arith, h p k)
  | inr (k0, e0) ↦ ground (arith, h p k, length-resize_args k0.num_args num k0.args)
]

pub kern_set_name-WellFormed :
    (kern : ℕ) (name : Option Bytes) → Preserves WellFormed (kern_set_name kern name)
unfolding kern_set_name
kern_set_name-WellFormed kern name w r w' h e p k live = elim (Option-cases (w.kernels kern)) [
  | inl gone ↦ ground (arith, h p k)
  | inr (k0, e0) ↦ ground (arith, h p k, h kern k0)
]

pub kern_free-WellFormed : (kern : ℕ) → Preserves WellFormed (kern_free kern)
unfolding kern_free
kern_free-WellFormed kern w r w' h e p k live = ground (arith, h p k)

pub kern_alloc-WellFormed :
    (prg : ℕ) (kern : Option Ptr) → Preserves WellFormed (kern_alloc prg kern)
unfolding kern_alloc
kern_alloc-WellFormed prg kern w r w' h e p k live = ground (arith, h p k)
