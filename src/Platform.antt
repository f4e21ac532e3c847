-- ===== src/Platform.antt =====
-- The platform interface: src/cl_platform.c and src/cl_icd.c. The texts stand in
-- include/config_cl.h. What a caller's pointer leads to is memory of the host.
pub mod Info
pub mod Dispatch
use baremetal_crt_host.Common.{
  ℕ, zero, suc, ◌+◌, ◌/◌, ◌%◌, Bool, true, false, ◌&&◌, not, Option, none, some, List, [], ◌∷◌,
  ◌++◌, Bytes, ◌==◌, ltb, if◌then◌else◌, length, codes,
}
use baremetal_crt_host.Cl.{Status}
use baremetal_crt_host.Runtime.{Ptr, null}
use baremetal_crt_host.Runtime.Monad.{M, pure, test◌then◌else◌, on_option, ◌>>=◌, ◌>>◌, ◌⨟◌}
use baremetal_crt_host.Handles.{plat_is_valid}
use baremetal_crt_host.Gdb.Access.{bytes_equal}
use baremetal_crt_host.Runtime.Memory.{le_bytes}
use baremetal_crt_host.Pci.{store_bytes}

-- `if (p != NULL) *p = v;` for a number of `n` bytes
unfoldable pub store_if : Ptr → (n v : ℕ) → M (Unit {0})
store_if p n v = test p == null then pure tt else store_bytes p (le_bytes n v)

-- `plat` is the address of the only platform; a pointer has eight bytes, a `cl_uint` four.
unfoldable pub in_cl_get_platform_ids :
    (plat : Ptr) → (num_entries : ℕ) → (platforms num_platforms : Ptr) → M Status
in_cl_get_platform_ids plat num_entries platforms num_platforms =
    test num_entries == 0 && not (platforms == null)
    then pure Status.invalid_value
    else test ltb 0 num_entries && platforms == null
    then pure Status.invalid_value
    else do store_if platforms 8 plat; store_if num_platforms 4 1; pure Status.success

-- The `switch` over the name: the text, without the zero at its end
unfoldable pub platform_text : (param_name : ℕ) → Option Bytes
platform_text param_name =
    if param_name == 0x0900
    then some (codes "FULL_PROFILE")
    else if param_name == 0x0901
    then some (codes "OpenCL 2.2")
    else if param_name == 0x0902
    then some (codes "NAME of TEST_OPENCL_ICD")
    else if param_name == 0x0903
    then some (codes "VENDOR of TEST_OPENCL_ICD")
    else if param_name == 0x0904
    then some (codes "cl_khr_icd")
    else if param_name == 0x0920
    then some (codes "TEST_OPENCL_ICD")
    else none

unfoldable pub in_cl_get_platform_info :
    (platform : Ptr)
    → (param_name param_value_size : ℕ) → (param_value param_value_size_ret : Ptr) → M Status
unfolding plat_is_valid
in_cl_get_platform_info platform param_name param_value_size param_value param_value_size_ret =
    plat_is_valid platform
    ⨟ on_option (platform_text param_name) (pure Status.invalid_value) λ text. do
      let val : Bytes = text ++ 0 ∷ []
      let siz = length val
      (test param_value == null
            then pure Status.success
            else test ltb param_value_size siz
            then pure Status.invalid_value
            else do store_bytes param_value val; pure Status.success)
          ⨟ do store_if param_value_size_ret 8 siz; pure Status.success

unfoldable pub cl_get_platform_ids :
    (plat : Ptr) → (num_entries : ℕ) → (platforms num_platforms : Ptr) → M Status
unfolding in_cl_get_platform_ids
cl_get_platform_ids = in_cl_get_platform_ids

unfoldable pub cl_icd_get_platform_ids_khr :
    (plat : Ptr) → (num_entries : ℕ) → (platforms num_platforms : Ptr) → M Status
unfolding in_cl_get_platform_ids
cl_icd_get_platform_ids_khr = in_cl_get_platform_ids

unfoldable pub cl_get_platform_info :
    (platform : Ptr)
    → (param_name param_value_size : ℕ) → (param_value param_value_size_ret : Ptr) → M Status
unfolding in_cl_get_platform_info
cl_get_platform_info = in_cl_get_platform_info

-- What the entries of `table` point to
abbrev pub Extension : Type 0
Extension = (plat : Ptr) → (num_entries : ℕ) → (platforms num_platforms : Ptr) → M Status

-- The table of src/cl_icd.c, without its last entry, which is NULL
unfoldable pub table : List (Bytes × Extension)
unfolding cl_icd_get_platform_ids_khr
table = (codes "clIcdGetPlatformIDsKHR", cl_icd_get_platform_ids_khr) ∷ []

unfoldable pub find_extension : Bytes → List (Bytes × Extension) → Option Extension
unfolding bytes_equal
find_extension name [] = none
find_extension name ((func_name, func) ∷ rest) =
    let others = find_extension name rest in
    if bytes_equal name func_name then some func else others

-- The name is `none` for NULL.
unfoldable pub cl_get_extension_function_address : Option Bytes → Option Extension
unfolding find_extension table
cl_get_extension_function_address none = none
cl_get_extension_function_address (some func_name) = find_extension func_name table
