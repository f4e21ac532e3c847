-- ===== src/Kernel.antt =====
-- Kernels and their arguments: drivers/kernel.c. The children hold src/cl_kernel.c and the proofs.
-- An out pointer of the C code is the caller's variable, `none` for NULL; a function returns its
-- status with the variable as it left it.
pub mod Api
pub mod Invariant
pub mod Calls
pub mod Arg
pub mod SetArg
use baremetal_crt_host.Common.{
  ℕ, zero, suc, ◌+◌, ◌-◌, Bool, true, false, ◌||◌, Option, none, some, List, [], ◌∷◌, ◌++◌, Bytes,
  ◌==◌, leb, ltb, if◌then◌else◌, is_none, length, get_elem?, set, take, replicate,
}
use baremetal_crt_host.Cl.{Status, is_success, icd_magic}
use baremetal_crt_host.Runtime.{Ptr, null, Kernel, KernArg}
use baremetal_crt_host.Runtime.Monad.{
  fault, M, pure, test◌then◌else◌, on_option, ◌>>=◌, ◌>>◌, ◌⨟◌, or_leave, calloc_struct,
}
use baremetal_crt_host.Handles.{
  prg_is_valid, kern_is_valid, load_program, load_kernel, put_kernel, plat_get_uniq_id,
}

unfoldable pub kern_alloc : Ptr → Option Ptr → M (Status × Option Ptr)
unfolding prg_is_valid plat_get_uniq_id calloc_struct
kern_alloc prg kern = or_leave (prg_is_valid prg) kern do
  test is_none kern then pure (Status.invalid_value, kern) else do
    t ← calloc_struct
    test t == null then pure (Status.out_of_host_memory, kern) else do
      p ← load_program prg
      id ← plat_get_uniq_id
      put_kernel t (
          some (record {
            dispatch = p.dispatch;
            magic = icd_magic;
            id = id;
            prg = prg;
            name = none;
            num_args = 0;
            args = none;
          }))
      pure (Status.success, some t)

-- `name` and `args` are freed with their kernel.
unfoldable pub kern_free : Ptr → M Status
unfolding kern_is_valid
kern_free kern = kern_is_valid kern ⨟ do put_kernel kern none; pure Status.success

-- NULL for an invalid kernel
unfoldable pub kern_get_program : Ptr → M Ptr
unfolding kern_is_valid
kern_get_program kern = do
  r ← kern_is_valid kern
  test is_success r then (do k ← load_kernel kern; pure k.prg) else pure null

-- `strncpy` of at most `n` bytes: the string, padded with zeros.
abbrev pub strncpy : Bytes → ℕ → Bytes
strncpy s n = take n (s ++ replicate n 0)

-- The buffer is `none` for NULL, or the bytes that it holds after the call.
unfoldable pub kern_get_name : Ptr → Option Bytes → ℕ → M (Status × Option Bytes)
unfolding kern_is_valid
kern_get_name kern name len = or_leave (kern_is_valid kern) name do
  k ← load_kernel kern
  on_option k.name (pure (Status.invalid_kernel, name)) λ s.
      test is_none name
      then pure (Status.invalid_value, name)
      else test len == 0
      then pure (Status.success, name)
      else pure (Status.success, some (strncpy s (len - 1) ++ 0 ∷ []))

-- A name is the bytes of the string, `none` for NULL; `strdup` copies them, or
-- returns NULL, which the code does not test.
unfoldable pub kern_set_name : Ptr → Option Bytes → M Status
unfolding kern_is_valid calloc_struct
kern_set_name kern name = kern_is_valid kern ⨟ do
  test is_none name then pure Status.invalid_value else do
    k ← load_kernel kern
    copy ← calloc_struct
    put_kernel kern (some (record k { name = if copy == null then none else name }))
    pure Status.success

unfoldable pub kern_get_num_args : Ptr → Option ℕ → M (Status × Option ℕ)
unfolding kern_is_valid
kern_get_num_args kern num = or_leave (kern_is_valid kern) num do
  k ← load_kernel kern
  test is_none num then pure (Status.success, num) else pure (Status.success, some k.num_args)

-- What `calloc` leaves in an argument.
abbrev pub zero_arg : KernArg
zero_arg = record { argtype = 0; index = 0; size = 0; val = null }

-- `for (i = 0; i < n; i++) args[i] = kern->args[i];`, on the parts of the arrays from `i` on
unfoldable pub copy_args : ℕ → List KernArg → List KernArg → List KernArg
copy_args zero args old = args
copy_args (suc n) [] old = []
copy_args (suc n) (a ∷ args) [] = a ∷ args
copy_args (suc n) (a ∷ args) (o ∷ old) = o ∷ copy_args n args old

-- `NMIN(kern->num_args, num)`
abbrev pub nmin : ℕ → ℕ → ℕ
nmin a b = if ltb a b then a else b

-- The new array of `num` arguments.
unfoldable pub resize_args : ℕ → ℕ → Option (List KernArg) → List KernArg
unfolding copy_args
resize_args num_args num none = replicate num zero_arg
resize_args num_args num (some old) = copy_args (nmin num_args num) (replicate num zero_arg) old

unfoldable pub kern_set_num_args : Ptr → ℕ → M Status
unfolding kern_is_valid calloc_struct
kern_set_num_args kern num = kern_is_valid kern ⨟ do
  k ← load_kernel kern
  test num == 0
      then (do put_kernel kern (some (record k { args = none; num_args = 0 })); pure Status.success)
      else do
        block ← calloc_struct
        test block == null then pure Status.out_of_host_memory else do
          put_kernel kern
              (some (record k { args = some (resize_args k.num_args num k.args); num_args = num }))
          pure Status.success

unfoldable pub kern_get_arg : Ptr → ℕ → Option KernArg → M (Status × Option KernArg)
unfolding kern_is_valid
kern_get_arg kern i arg = or_leave (kern_is_valid kern) arg do
  k ← load_kernel kern
  test leb k.num_args i
      then pure (Status.invalid_value, arg)
      else on_option k.args (pure (Status.invalid_kernel, arg)) λ args.
        test is_none arg
        then pure (Status.success, arg)
        else on_option (get_elem? args i) (λ w. fault) λ a. pure (Status.success, some a)

-- A write through a NULL `args`, or past its end, is a fault.
unfoldable pub kern_set_arg : Ptr → ℕ → Option KernArg → M Status
unfolding kern_is_valid
kern_set_arg kern i arg = kern_is_valid kern ⨟ do
  k ← load_kernel kern
  on_option arg (pure Status.invalid_value) λ a.
      test leb k.num_args i
      then pure Status.invalid_value
      else on_option k.args (λ w. fault)
          λ args.
            test ltb i (length args)
            then (do
              put_kernel kern
                  (some (record k { args = some (set args i (record a { index = i })) }))
              pure Status.success)
            else (λ w. fault)
