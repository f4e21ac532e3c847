-- ===== src/Platform/Info.antt =====
-- The queries of the platform: the number of platforms first and then the platform, the size of a
-- text first and then the text.
use baremetal_crt_host.Common.{
  ℕ, zero, suc, ◌+◌, ◌*◌, ◌/◌, ◌^◌, ◌<◌, ◌≤◌, ◌≡◌, ◌≢◌, ◌⊎◌, refl, ◌∙◌, some, [], ◌∷◌, ◌++◌, Bytes,
  length, length-append, arith,
}
use baremetal_crt_host.Cl.{Status}
use baremetal_crt_host.Runtime.{null, World}
use baremetal_crt_host.Runtime.Monad.{done}
use baremetal_crt_host.Runtime.Memory.{
  peek, poke, peek-poke, peek-poke_apart, le_value, le_bytes, load_ptr,
}
use baremetal_crt_host.Handles.{plat_is_valid}
use baremetal_crt_host.Pci.{store_bytes}
use baremetal_crt_host.Setup.Alloc.{IsLivePlatform}
use baremetal_crt_host.Platform.{
  store_if, in_cl_get_platform_ids, cl_get_platform_ids, platform_text, in_cl_get_platform_info,
}

length-le_bytes : (n v : ℕ) → length (le_bytes n v) ≡ n
unfolding le_bytes
length-le_bytes zero v = refl
length-le_bytes (suc n) v = omega (arith, length-le_bytes n (v / 256))

le_value-le_bytes : (n v : ℕ) → v < 256 ^ n → le_value (le_bytes n v) ≡ v
unfolding le_value le_bytes
le_value-le_bytes zero v h = omega arith
le_value-le_bytes (suc n) v h =
    let split : 256 ^ suc n ≡ 256 * 256 ^ n = omega arith in
    let rest = le_value-le_bytes n (v / 256) (omega (arith, split, h)) in rw rest (omega arith)

-- Every text fits, with its zero, where its size is stored.
text-small : (name : ℕ) (text : Bytes) → platform_text name ≡ some text → length text < 100
unfolding platform_text
text-small name text e = ground arith

store_bytes_lem :
    (p : ℕ) (bs old : Bytes) (w : World)
    → peek w.memory p (length bs) ≡ some old
    → store_bytes p bs w ≡ done tt (record w { memory = poke w.memory p bs })
unfolding store_bytes
store_bytes_lem p bs old w there = ground (arith, there)

-- The number that is stored is loaded again.
store_if_lem :
    (p n v : ℕ) (old : Bytes) (w : World)
    → p ≢ null
    → peek w.memory p n ≡ some old
    → store_if p n v w ≡ done tt (record w { memory = poke w.memory p (le_bytes n v) })
unfolding store_if
store_if_lem p n v old w some_p there =
    let here : peek w.memory p (length (le_bytes n v)) ≡ some old =
      rw (length-le_bytes n v) there in
    let run = store_bytes_lem p (le_bytes n v) old w here in ground (arith, run)

store_if-null : (n v : ℕ) (w : World) → store_if null n v w ≡ done tt w
unfolding store_if
store_if-null n v w = refl

load_ptr_lem :
    (p v : ℕ) (w : World)
    → v < 2 ^ 64
    → peek w.memory p 8 ≡ some (le_bytes 8 v)
    → load_ptr p w ≡ done v w
unfolding load_ptr
load_ptr_lem p v w small there =
    let value = le_value-le_bytes 8 v (omega (arith, small)) in ground (arith, there, value)

peek-poke-le_bytes :
    (p n v : ℕ) (w : World) → peek (poke w.memory p (le_bytes n v)) p n ≡ some (le_bytes n v)
peek-poke-le_bytes p n v w =
    let e = peek-poke w.memory p (le_bytes n v) in rw (length-le_bytes n v) at e

module _ (plat name ret value : ℕ) (text old8 old : Bytes) (w : World) where
  -- A live platform, a name with a text, and two places for the answers that are mapped and apart,
  -- the second with the size of the text and its zero. The query of the size alone succeeds, and a
  -- size is then loaded from the first place. With the second place, every size below it is refused
  -- with CL_INVALID_VALUE and nothing changes; with it the query succeeds, and the place then holds
  -- the text and its zero.
  pub platform_info-size :
      IsLivePlatform w plat
      → platform_text name ≡ some text
      → ret ≢ null
      → value ≢ null
      → peek w.memory ret 8 ≡ some old8
      → peek w.memory value (length text + 1) ≡ some old
      → (value + (length text + 1) ≤ ret) ⊎ (ret + 8 ≤ value)
      → (w1 w2 : World) × (siz : ℕ) × (in_cl_get_platform_info plat name 0 null ret w
          ≡ done Status.success w1)
        × (load_ptr ret w1 ≡ done siz w1)
        × ((n : ℕ)
            → n < siz
            → in_cl_get_platform_info plat name n value null w1 ≡ done Status.invalid_value w1)
        × (in_cl_get_platform_info plat name siz value null w1 ≡ done Status.success w2)
        × (peek w2.memory value siz ≡ some (text ++ 0 ∷ []))
  unfolding in_cl_get_platform_info plat_is_valid
  platform_info-size (some_plat, (x, live, magic)) is_text some_ret some_value there there2 apart =
      let siz = length text + 1 in
      let small = text-small name text is_text in
      let stored = store_if_lem ret 8 siz old8 w some_ret there in
      let w1 = record w { memory = poke w.memory ret (le_bytes 8 siz) } in
      let loaded =
        load_ptr_lem ret siz w1 (omega (arith, small)) (peek-poke-le_bytes ret 8 siz w) in
      let val : Bytes = text ++ 0 ∷ [] in
      let len : length val ≡ siz = omega (arith, length-append text (0 ∷ [])) in
      let kept : peek w1.memory value siz ≡ some old =
        peek-poke_apart w.memory ret (le_bytes 8 siz) value siz (rw (length-le_bytes 8 siz) apart)
        ∙ there2 in
      let w2 = record w1 { memory = poke w1.memory value val } in
      let back : peek w2.memory value siz ≡ some val =
        let e = peek-poke w1.memory value val in rw len at e in
      let wrote = store_bytes_lem value val old w1 (rw len kept) in
      let silent2 = store_if-null 8 (length val) w2 in
      (
        w1,
        w2,
        siz,
        ground (arith, is_text, len, stored, live),
        loaded,
        λ n lt. ground (arith, is_text, len, live),
        ground (arith, is_text, len, live, wrote, silent2),
        back,
      )

module _ (plat platforms num_platforms : ℕ) (old4 old8 : Bytes) (w : World) where
  -- Where the places for the answers are mapped and apart: the query of the number of platforms
  -- alone succeeds and stores 1; with the place for one platform and at least one entry the query
  -- succeeds, and the platform is loaded from its place; entries without a
  -- place, and a place without entries, are refused and nothing changes.
  pub platform_ids-one :
      platforms ≢ null
      → num_platforms ≢ null
      → plat < 2 ^ 64
      → peek w.memory num_platforms 4 ≡ some old4
      → peek w.memory platforms 8 ≡ some old8
      → (w1 w2 : World) × (cl_get_platform_ids plat 0 null num_platforms w ≡ done Status.success w1)
        × (peek w1.memory num_platforms 4 ≡ some (1 ∷ 0 ∷ 0 ∷ 0 ∷ []))
        × ((n : ℕ)
            → 0 < n
            → (cl_get_platform_ids plat n platforms null w ≡ done Status.success w2)
              × (cl_get_platform_ids plat n null num_platforms w ≡ done Status.invalid_value w))
        × (load_ptr platforms w2 ≡ done plat w2)
        × (cl_get_platform_ids plat 0 platforms num_platforms w ≡ done Status.invalid_value w)
  unfolding cl_get_platform_ids in_cl_get_platform_ids le_bytes
  platform_ids-one some_ids some_num small there4 there8 =
      let run1 = store_if_lem num_platforms 4 1 old4 w some_num there4 in
      let run2 = store_if_lem platforms 8 plat old8 w some_ids there8 in
      let w1 = record w { memory = poke w.memory num_platforms (le_bytes 4 1) } in
      let w2 = record w { memory = poke w.memory platforms (le_bytes 8 plat) } in
      let null1 = store_if-null 8 plat w in
      let null2 = store_if-null 4 1 w2 in
      (
        w1,
        w2,
        ground (arith, run1, null1),
        peek-poke-le_bytes num_platforms 4 1 w,
        λ n lt. (ground (arith, run2, null2), ground arith),
        load_ptr_lem platforms plat w2 small (peek-poke-le_bytes platforms 8 plat w),
        ground arith,
      )
