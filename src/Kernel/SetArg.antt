-- ===== src/Kernel/SetArg.antt =====
-- `clSetKernelArg` and the arguments that a launch reads afterwards.
use baremetal_crt_host.Common.{
  ℕ, ◌+◌, ◌<◌, ◌≤◌, ◌≡◌, ◌≢◌, ◌⊎◌, Option, none, some, List, ◌∷◌, arith, ◌==◌, leb, ltb,
  if◌then◌else◌, length, ◌∙◌, ◌-◌, get_elem?, inl, inr, Bool-cases, length-set, get_elem?-set,
}
use baremetal_crt_host.Cl.{Status, icd_magic, u32_mod}
use baremetal_crt_host.Runtime.{Ptr, null, Kernel, KernArg, World, update}
use baremetal_crt_host.Runtime.Monad.{done}
use baremetal_crt_host.Kernel.{zero_arg, resize_args, kern_set_num_args, kern_get_arg, kern_set_arg}
use baremetal_crt_host.Kernel.Api.{make_arg, in_cl_set_kernel_arg}
use baremetal_crt_host.Kernel.Invariant.{ArgsFit, length-resize_args}
use baremetal_crt_host.Kernel.Arg.{
  args_of, with_arg, get_elem?-resize_args, set_num_args-grown, set_arg-with_arg, get_arg-get_elem?,
}

-- The argument `j` of a kernel after `clSetKernelArg` stored `a` as argument `i`.
abbrev pub arg_after : Kernel → ℕ → KernArg → ℕ → Option KernArg
arg_after k i a j =
    if j == i
    then some (record a { index = i })
    else if ltb j k.num_args
    then get_elem? (args_of k.args) j
    else some zero_arg

module _ (w : World) (kernel : Ptr) (k : Kernel) (live : w.kernels kernel ≡ some k)
    (ne_null : kernel ≢ null) (magic : k.magic ≡ icd_magic) (fit : ArgsFit k.args k.num_args) where
  set_kernel_arg_in_place :
      (i size val : ℕ) (a : KernArg)
      → val ≢ null
      → make_arg size val w ≡ done a w
      → i < k.num_args
      → in_cl_set_kernel_arg kernel i size val w
        ≡ done Status.success
            (record w { kernels = update w.kernels kernel (some (with_arg k i a)) })
  unfolding in_cl_set_kernel_arg
  set_kernel_arg_in_place i size val a ne made lt =
      ground (arith, set_arg-with_arg w kernel k live ne_null magic fit i a lt)

  set_kernel_arg_growing :
      (i size val : ℕ) (a : KernArg) (block : Ptr) (rest : List Ptr)
      → val ≢ null
      → make_arg size val w ≡ done a w
      → k.num_args ≤ i
      → i + 1 < u32_mod
      → w.supply ≡ block ∷ rest
      → block ≢ null
      → let k1 = record k {
        args = some (resize_args k.num_args (i + 1) k.args);
        num_args = i + 1;
      } in
        let w1 = record w { supply = rest; kernels = update w.kernels kernel (some k1) } in
        in_cl_set_kernel_arg kernel i size val w
        ≡ done Status.success
            (record w1 { kernels = update w1.kernels kernel (some (with_arg k1 i a)) })
  unfolding in_cl_set_kernel_arg
  set_kernel_arg_growing i size val a block rest ne made le lt s nb =
      let k1 = record k { args = some (resize_args k.num_args (i + 1) k.args); num_args = i + 1 } in
      let w1 = record w { supply = rest; kernels = update w.kernels kernel (some k1) } in
      ground (
        arith,
        set_num_args-grown w kernel k live ne_null magic fit i block rest s nb,
        set_arg-with_arg w1 kernel k1 (ground arith) ne_null magic
            (length-resize_args k.num_args (i + 1) k.args) i a (omega arith),
      )

length-args_of : (o : Option (List KernArg)) (n : ℕ) → ArgsFit o n → length (args_of o) ≡ n
length-args_of none n h = ground arith
length-args_of (some args) n h = h

module _ (w : World) (kernel : Ptr) (k : Kernel) (live : w.kernels kernel ≡ some k)
    (ne_null : kernel ≢ null) (magic : k.magic ≡ icd_magic) (fit : ArgsFit k.args k.num_args) where
  -- Reading argument `j` of a kernel `k1` that holds the array of `k` changed at `i`.
  read_back :
      (v : World) (k1 : Kernel) (i j : ℕ) (a x b : KernArg)
      → v.kernels kernel ≡ some (with_arg k1 i a)
      → k1.magic ≡ icd_magic
      → ArgsFit k1.args k1.num_args
      → i < k1.num_args
      → j < k1.num_args
      → (if j == i then some (record a { index = i }) else get_elem? (args_of k1.args) j) ≡ some b
      → kern_get_arg kernel j (some x) v ≡ done (Status.success, some b) v
  read_back v k1 i j a x b live1 magic1 fit1 lt_i lt_j e =
      let enough : i < length (args_of k1.args) =
        omega (arith, length-args_of k1.args k1.num_args fit1) in
      get_arg-get_elem? v kernel (with_arg k1 i a) live1 ne_null magic1
        (length-set (args_of k1.args) i (record a { index = i })
          ∙ length-args_of k1.args k1.num_args fit1)
        j x b (get_elem?-set (args_of k1.args) i j (record a { index = i }) enough ∙ e) lt_j

  -- `clSetKernelArg` on a live kernel with a consistent argument array, with an index `i` below
  -- 2^32 - 1, a value that is not NULL, and a `calloc` that gives a block, succeeds. Then
  -- `kern_get_arg` reads at every index `j` up to `i` or below the old count exactly `arg_after`:
  -- the new argument with its index at `i`, the old argument at an old index, and an unused zero
  -- argument in the gap between.
  pub get_arg-set_kernel_arg :
      (i size val : ℕ) (a : KernArg) (block : Ptr) (rest : List Ptr) (j : ℕ) (x b : KernArg)
      → val ≢ null
      → make_arg size val w ≡ done a w
      → i + 1 < u32_mod
      → w.supply ≡ block ∷ rest
      → block ≢ null
      → (j ≤ i) ⊎ (j < k.num_args)
      → arg_after k i a j ≡ some b
      → (w' : World) × (in_cl_set_kernel_arg kernel i size val w ≡ done Status.success w')
        × (kern_get_arg kernel j (some x) w' ≡ done (Status.success, some b) w')
  get_arg-set_kernel_arg i size val a block rest j x b ne made lt s nb range e =
      elim (Bool-cases (leb k.num_args i)) [
        | inl grows ↦
            let k1 = record k {
              args = some (resize_args k.num_args (i + 1) k.args);
              num_args = i + 1;
            } in
            let w1 = record w { supply = rest; kernels = update w.kernels kernel (some k1) } in
            let w2 = record w1 { kernels = update w1.kernels kernel (some (with_arg k1 i a)) } in
            (
              w2,
              set_kernel_arg_growing w kernel k live ne_null magic fit i size val a block rest ne
                  made (ground arith) lt s nb,
              read_back w2 k1 i j a x b (ground arith) magic
                  (length-resize_args k.num_args (i + 1) k.args) (omega arith) (ground arith)
                  (ground (arith, get_elem?-resize_args k.num_args (i + 1) k.args j fit)),
            )
        | inr stays ↦
            let w2 = record w { kernels = update w.kernels kernel (some (with_arg k i a)) } in
            (
              w2,
              set_kernel_arg_in_place w kernel k live ne_null magic fit i size val a ne made
                  (ground arith),
              read_back w2 k i j a x b (ground arith) magic fit (ground arith) (ground arith)
                  (ground arith),
            )
      ]

  -- With the index 2^32 - 1, `arg_index + 1` wraps to 0: on a live kernel the call reports an
  -- invalid value, and every argument that was set before is lost.
  pub set_kernel_arg_last_index :
      (size val : ℕ) (a : KernArg)
      → val ≢ null
      → make_arg size val w ≡ done a w
      → k.num_args < u32_mod
      → in_cl_set_kernel_arg kernel (u32_mod - 1) size val w
        ≡ done Status.invalid_value (record w {
          kernels = update w.kernels kernel (some (record k { args = none; num_args = 0 }));
        })
  unfolding in_cl_set_kernel_arg kern_set_num_args kern_set_arg
  set_kernel_arg_last_index size val a ne made lt = ground arith
