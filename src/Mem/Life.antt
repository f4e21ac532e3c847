-- ===== src/Mem/Life.antt =====
-- Creating a buffer and giving it back.
use baremetal_crt_host.Common.{
  ℕ, ◌+◌, ◌%◌, ◌^◌, ◌<◌, ◌≤◌, ◌≡◌, ◌≢◌, true, none, some, List, ◌∷◌, Bytes, arith, length,
  replicate, length-replicate, ◌⊎◌, ◌∙◌, Option,
}
use baremetal_crt_host.Cl.{Status, icd_magic}
use baremetal_crt_host.Runtime.{Ptr, null, Context, Mem, World, update}
use baremetal_crt_host.Runtime.Monad.{done, fault, ◌>>=◌}
use baremetal_crt_host.Runtime.Memory.{
  ByteMap, peek, poke, memcpy, calloc_block, free_block, unmap, peek-length, peek-poke,
  peek-poke_apart,
}
use baremetal_crt_host.Handles.{ctx_is_valid, mem_is_valid}
use baremetal_crt_host.Mem.Api.{in_cl_create_buffer, in_cl_release_mem_object, valid_rw, host_bits}
use baremetal_crt_host.Mem.Buffer.{memcpy-done}

abbrev pub LiveContext : World → Ptr → Context → Type 0
LiveContext w p c = (p ≢ null) × (w.contexts p ≡ some c) × (c.magic ≡ icd_magic)

-- The memory object that `in_clCreateBuffer` makes of a fresh struct.
abbrev pub new_mem : World → Ptr → Context → (flags size : ℕ) → Ptr → Mem
new_mem w ctx c flags size ptr = record {
  dispatch = c.dispatch;
  magic = icd_magic;
  id = w.uniq_id;
  ctx = ctx;
  flags = flags % 2 ^ 32;
  size = size;
  ptr = ptr;
}

peek_as :
    (m : ByteMap) (p : ℕ) (bs : Bytes) (n : ℕ)
    → length bs ≡ n
    → peek m p (length bs) ≡ some bs
    → peek m p n ≡ some bs
peek_as m p bs n e h = rw e at h

-- The state after `mem_alloc` and `mem_set_attr` on a fresh struct `t`.
abbrev pub allocated : World → Ptr → Context → ℕ → Ptr → List Ptr → World
allocated w ctx c flags t rest = record w {
  supply = rest;
  uniq_id = (w.uniq_id + 1) % 2 ^ 32;
  mems =
      update (update w.mems t (some (new_mem w ctx c 0 0 null))) t
        (some (new_mem w ctx c flags 0 null));
}

-- The state with a new memory object over the host's memory.
abbrev pub host_world : World → Ptr → Context → (flags size host_ptr : ℕ) → Ptr → List Ptr → World
host_world w ctx c flags size host_ptr t rest =
    let v = allocated w ctx c flags t rest in
    record v { mems = update v.mems t (some (new_mem w ctx c flags size host_ptr)) }

module _ (w : World) (context : Ptr) (c : Context) (is_context : LiveContext w context c)
    (flags size : ℕ) (host_ptr : Ptr) (errcode : Option Status) (rw_ok : valid_rw flags ≡ true)
    (size_ok : 0 < size) (t : Ptr) (rest : List Ptr) (supplied : w.supply ≡ t ∷ rest)
    (fresh : t ≢ null) where
  create_use_host :
      host_bits flags ≡ 8
      → host_ptr ≢ null
      → in_cl_create_buffer context flags size host_ptr errcode w
        ≡ done (t, errcode) (host_world w context c flags size host_ptr t rest)
  unfolding in_cl_create_buffer ctx_is_valid
  create_use_host bits ne = ground arith

  -- A buffer that `clCreateBuffer` makes over the host's own memory (CL_MEM_USE_HOST_PTR alone)
  -- frees that memory when it is released: where `host_ptr` is a block of the host, both calls
  -- succeed and the block and its bytes are gone; where it is not, such as an array on the
  -- stack, the release faults.
  pub release_frees_host :
      host_bits flags ≡ 8
      → host_ptr ≢ null
      → (in_cl_create_buffer context flags size host_ptr errcode >>= λ x.
            in_cl_release_mem_object x.0)
          w
        ≡ elim (w.blocks host_ptr) [
          | none ↦ fault
          | some n ↦
              done Status.success (record (host_world w context c flags size host_ptr t rest) {
                blocks = update w.blocks host_ptr none;
                memory = unmap w.memory host_ptr n;
                mems =
                    update
                      (update
                        (host_world w context c flags size host_ptr t rest).mems
                        t
                        (some (new_mem w context c flags 0 null)))
                      t
                      none;
              })
        ]
  unfolding in_cl_release_mem_object mem_is_valid free_block
  release_frees_host bits ne = ground (arith, create_use_host bits ne)

  -- With CL_MEM_ALLOC_HOST_PTR, on valid arguments, `clCreateBuffer` always fails with
  -- CL_OUT_OF_RESOURCES, and the memory object that it made stays allocated: nobody holds it.
  pub create_alloc_host_leaks :
      host_bits flags ≡ 16
      → (in_cl_create_buffer context flags size host_ptr (some Status.success) w
          ≡ done (null, some Status.out_of_resources) (allocated w context c flags t rest))
        × ((allocated w context c flags t rest).mems t ≡ some (new_mem w context c flags 0 null))
  unfolding in_cl_create_buffer ctx_is_valid
  create_alloc_host_leaks bits = (ground arith, ground arith)

module _ (w : World) (context : Ptr) (c : Context) (is_context : LiveContext w context c)
    (flags size : ℕ) (host_ptr : Ptr) (errcode : Option Status) (rw_ok : valid_rw flags ≡ true)
    (size_ok : 0 < size) (t block : Ptr) (rest : List Ptr) (supplied : w.supply ≡ t ∷ block ∷ rest)
    (fresh : t ≢ null) (fresh_block : block ≢ null) where
  -- The state with a zeroed block of `size` bytes in the new memory object.
  abbrev block_world : World
  block_world =
      let v = allocated w context c flags t rest in
      record v {
        blocks = update w.blocks block (some size);
        memory = poke w.memory block (replicate size 0);
        mems = update v.mems t (some (new_mem w context c flags 0 block));
      }

  abbrev full_mems : Ptr → Option Mem
  full_mems = update block_world.mems t (some (new_mem w context c flags size block))

  zero_block : peek block_world.memory block size ≡ some (replicate size 0)
  zero_block =
      let len : length (replicate {A = ℕ} size 0) ≡ size = length-replicate size 0 in
      peek_as block_world.memory block (replicate size 0) size len
        (peek-poke w.memory block (replicate size 0))

  create_zeroed :
      host_bits flags ≡ 0
      → in_cl_create_buffer context flags size host_ptr errcode w
        ≡ done (t, errcode) (record block_world { mems = full_mems })
  unfolding in_cl_create_buffer ctx_is_valid calloc_block
  create_zeroed bits = ground arith

  create_copied :
      (bs : Bytes)
      → host_bits flags ≡ 32
      → host_ptr ≢ null
      → memcpy block host_ptr size block_world
        ≡ done tt (record block_world { memory = poke block_world.memory block bs })
      → in_cl_create_buffer context flags size host_ptr errcode w
        ≡ done
            (t, errcode)
            (record block_world { mems = full_mems; memory = poke block_world.memory block bs })
  unfolding in_cl_create_buffer ctx_is_valid calloc_block
  create_copied bs bits ne copied = ground (arith, copied)

  -- With no host bits, on valid arguments and with memory for the object and its block,
  -- `clCreateBuffer` makes an object with the given flags and size whose buffer is all zero.
  pub create_zero_buffer :
      host_bits flags ≡ 0
      → (w' : World) × (in_cl_create_buffer context flags size host_ptr errcode w
          ≡ done (t, errcode) w')
        × (w'.mems t ≡ some (new_mem w context c flags size block))
        × (peek w'.memory block size ≡ some (replicate size 0))
  create_zero_buffer bits =
      (record block_world { mems = full_mems }, create_zeroed bits, ground arith, zero_block)

  -- With CL_MEM_COPY_HOST_PTR alone, on valid arguments, with memory for the object and its
  -- block, and a readable host range that lies apart from the block, `clCreateBuffer` makes an
  -- object with the given flags and size whose buffer holds a copy of the host's bytes.
  pub create_copy_buffer :
      (bs : Bytes)
      → host_bits flags ≡ 32
      → host_ptr ≢ null
      → peek w.memory host_ptr size ≡ some bs
      → (block + size ≤ host_ptr) ⊎ (host_ptr + size ≤ block)
      → (w' : World) × (in_cl_create_buffer context flags size host_ptr errcode w
          ≡ done (t, errcode) w')
        × (w'.mems t ≡ some (new_mem w context c flags size block))
        × (peek w'.memory block size ≡ some bs)
  create_copy_buffer bs bits ne from apart =
      let same : peek block_world.memory host_ptr size ≡ some bs =
        peek-poke_apart w.memory block (replicate size 0) host_ptr size
          (omega (arith, length-replicate {A = ℕ} size 0))
        ∙ from in
      let copied =
        memcpy-done block_world block host_ptr size bs (replicate size 0) (ground arith) same
          zero_block in
      let len : length bs ≡ size = peek-length w.memory host_ptr size bs from in
      (
        record block_world { mems = full_mems; memory = poke block_world.memory block bs },
        create_copied bs bits ne copied,
        ground arith,
        peek_as _ block bs size len (peek-poke block_world.memory block bs),
      )
