-- ===== src/Kernel/Calls.antt =====
-- Every sequence of kernel calls by the application keeps the kernels well formed.
use baremetal_crt_host.Common.{
  ℕ, ◌≡◌, Option, some, List, [], ◌∷◌, Bytes, ◌==◌, leb, arith, is_none,
}
use baremetal_crt_host.Cl.{Status}
use baremetal_crt_host.Runtime.{Ptr, null, World}
use baremetal_crt_host.Runtime.Monad.{done, M, pure, ◌>>◌}
use baremetal_crt_host.Runtime.Preserve.{
  Preserves, Preserves-pure, Preserves->>=, Preserves-test, Preserves-check, Preserves-goto,
}
use baremetal_crt_host.Handles.{prg_is_valid, kern_is_valid}
use baremetal_crt_host.Kernel.{kern_get_num_args}
use baremetal_crt_host.Kernel.Api.{
  create_kernel_err_out, value_or, in_cl_create_kernel, in_cl_release_kernel, make_arg,
  in_cl_set_kernel_arg,
}
use baremetal_crt_host.Kernel.Invariant.{
  WellFormed, kern_set_arg-WellFormed, kern_set_num_args-WellFormed, kern_set_name-WellFormed,
  kern_free-WellFormed, kern_alloc-WellFormed,
}

kern_get_num_args-WellFormed :
    (kern : ℕ) (num : Option ℕ) → Preserves WellFormed (kern_get_num_args kern num)
unfolding kern_get_num_args
kern_get_num_args-WellFormed kern num w r w' h e p k live = ground (arith, h p k)

make_arg-WellFormed : (size val : ℕ) → Preserves WellFormed (make_arg size val)
unfolding make_arg
make_arg-WellFormed size val w r w' h e p k live = ground (arith, h p k)

err_out-WellFormed :
    (kern : ℕ) (errcode : Option Status) (r : Status)
    → Preserves WellFormed (create_kernel_err_out kern errcode r)
unfolding create_kernel_err_out
err_out-WellFormed kern errcode r =
    Preserves->>= WellFormed (kern_free-WellFormed kern) (λ a. Preserves-pure WellFormed _)

-- A call of a kernel function by the application. `create` has the value of the variable that
-- `in_clCreateKernel` leaves uninitialised.
pub data KernelCall : Type 0 where
  create : (uninit program : Ptr) → Option Bytes → Option Status → KernelCall
  release : Ptr → KernelCall
  set_arg : Ptr → (arg_index arg_size : ℕ) → (arg_value : Ptr) → KernelCall

abbrev pub perform : KernelCall → M (Unit {0})
perform (create uninit program name errcode) =
    in_cl_create_kernel uninit program name errcode >> pure tt
perform (release kernel) = in_cl_release_kernel kernel >> pure tt
perform (set_arg kernel i size val) = in_cl_set_kernel_arg kernel i size val >> pure tt

unfoldable pub perform_all : List KernelCall → M (Unit {0})
perform_all [] = pure tt
perform_all (c ∷ cs) = perform c >> perform_all cs

check_kernel-WellFormed : (p : Ptr) → Preserves WellFormed (kern_is_valid p)
unfolding kern_is_valid
check_kernel-WellFormed q w r w' h e p k live = ground (arith, h p k)

check_program-WellFormed : (p : Ptr) → Preserves WellFormed (prg_is_valid p)
unfolding prg_is_valid
check_program-WellFormed q w r w' h e p k live = ground (arith, h p k)

in_cl_set_kernel_arg-WellFormed :
    (kern i size val : ℕ) → Preserves WellFormed (in_cl_set_kernel_arg kern i size val)
unfolding in_cl_set_kernel_arg
in_cl_set_kernel_arg-WellFormed kern i size val =
    Preserves-test WellFormed (val == null) (Preserves-pure WellFormed _) (
      Preserves-check WellFormed (check_kernel-WellFormed kern) (
        Preserves->>= WellFormed (make_arg-WellFormed size val) λ arg.
          Preserves->>= WellFormed (kern_get_num_args-WellFormed kern (some 0)) λ x.
            Preserves-check WellFormed (Preserves-pure WellFormed _) (
              Preserves-check WellFormed
                (Preserves-test WellFormed (leb (value_or x.1 0) i)
                  (kern_set_num_args-WellFormed kern _) (Preserves-pure WellFormed _))
                (Preserves-check WellFormed (kern_set_arg-WellFormed kern i (some arg))
                  (Preserves-pure WellFormed _)))))

in_cl_release_kernel-WellFormed : (kern : ℕ) → Preserves WellFormed (in_cl_release_kernel kern)
unfolding in_cl_release_kernel
in_cl_release_kernel-WellFormed kern =
    Preserves-check WellFormed (check_kernel-WellFormed kern)
      (Preserves-check WellFormed (kern_free-WellFormed kern) (Preserves-pure WellFormed _))

in_cl_create_kernel-WellFormed :
    (uninit program : ℕ) (name : Option Bytes) (errcode : Option Status)
    → Preserves WellFormed (in_cl_create_kernel uninit program name errcode)
unfolding in_cl_create_kernel
in_cl_create_kernel-WellFormed uninit program name errcode =
    Preserves-test WellFormed (is_none name) (err_out-WellFormed uninit errcode _) (
      Preserves-goto WellFormed (check_program-WellFormed program)
        (err_out-WellFormed uninit errcode)
        (Preserves->>= WellFormed (kern_alloc-WellFormed program (some uninit)) λ x.
          let exit = err_out-WellFormed (value_or x.1 uninit) errcode in
          Preserves-goto WellFormed (Preserves-pure WellFormed x.0) exit (
            Preserves-goto WellFormed (kern_set_name-WellFormed (value_or x.1 uninit) name) exit (
              Preserves-goto WellFormed (kern_set_num_args-WellFormed (value_or x.1 uninit) 0) exit
                (Preserves-pure WellFormed (value_or x.1 uninit, errcode))))))

perform-WellFormed : (c : KernelCall) → Preserves WellFormed (perform c)
perform-WellFormed (create uninit program name errcode) =
    Preserves->>= WellFormed (in_cl_create_kernel-WellFormed uninit program name errcode)
      λ a. Preserves-pure WellFormed tt
perform-WellFormed (release kernel) =
    Preserves->>= WellFormed (in_cl_release_kernel-WellFormed kernel)
      λ a. Preserves-pure WellFormed tt
perform-WellFormed (set_arg kernel i size val) =
    Preserves->>= WellFormed (in_cl_set_kernel_arg-WellFormed kernel i size val)
      λ a. Preserves-pure WellFormed tt

-- Whatever kernels the application creates, releases and gives arguments, in any order and with
-- any handles: in a run that does not fault, if at the start every live kernel has an array of
-- exactly `num_args` arguments, or none and `num_args` 0, then so it is at the end.
pub perform_all-WellFormed :
    (cs : List KernelCall) (w : World) (r : Unit {0}) (w' : World)
    → WellFormed w
    → perform_all cs w ≡ done r w'
    → WellFormed w'
unfolding perform_all
perform_all-WellFormed [] = Preserves-pure WellFormed tt
perform_all-WellFormed (c ∷ cs) =
    Preserves->>= WellFormed (perform-WellFormed c) λ a. perform_all-WellFormed cs
