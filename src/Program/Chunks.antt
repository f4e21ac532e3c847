-- ===== src/Program/Chunks.antt =====
-- The array of a program's chunks.
use baremetal_crt_host.Common.{
  ℕ, ◌^◌, ◌<◌, ◌≡◌, ◌≢◌, Option, none, some, List, [], arith, length, get_elem?, set, get_elem?-set,
  ◌∙◌, inl, inr, length-set, length-replicate, Option-cases, ◌==◌, if◌then◌else◌,
}
use baremetal_crt_host.Cl.{Status, icd_magic}
use baremetal_crt_host.Runtime.{Ptr, null, Program, ProgramChunk, World, update}
use baremetal_crt_host.Runtime.Monad.{done, fault}
use baremetal_crt_host.Runtime.Preserve.{Preserves}
use baremetal_crt_host.Program.{zero_chunk, prg_set_num_chunks, prg_get_chunk, prg_set_chunk}

abbrev pub LiveProgram : World → Ptr → Program → Type 0
LiveProgram w p k = (p ≢ null) × (w.programs p ≡ some k) × (k.magic ≡ icd_magic)

-- The array has `num_chunks` elements, and without an array the count is 0.
abbrev pub ChunksFit : Option (List ProgramChunk) → ℕ → Type 0
ChunksFit none n = n ≡ 0
ChunksFit (some chunks) n = length chunks ≡ n

abbrev pub WellFormed : World → Type 0
WellFormed w = (q : Ptr) (k : Program) → w.programs q ≡ some k → ChunksFit k.chunks k.num_chunks

module _ (w : World) (prg : Ptr) (p : Program) (live : LiveProgram w prg p) where
  -- Where `calloc` fails, `prg_set_num_chunks` leaves the old count with no array: on a program
  -- that has chunks it fails, and reading any chunk that the count allows then faults.
  pub get_chunk-set_num_chunks_fault :
      (num i : ℕ) (c : ProgramChunk)
      → w.supply ≡ []
      → i < p.num_chunks
      → i < 2 ^ 31
      → (w' : World) × (prg_set_num_chunks prg num w ≡ done Status.out_of_host_memory w')
        × (prg_get_chunk prg i (some c) w' ≡ fault)
  unfolding prg_set_num_chunks prg_get_chunk
  get_chunk-set_num_chunks_fault num i c none_left lt small = (
    record w { programs = update w.programs prg (some (record p { chunks = none })) },
    ground arith,
    ground arith,
  )

  -- On a live program with an array of `num_chunks` chunks: `prg_set_chunk` at an index in range
  -- succeeds, and then `prg_get_chunk` reads at every index in range the chunk that was stored,
  -- with its index, or the one that was there before.
  pub get_chunk-set_chunk :
      (i j : ℕ) (c x b : ProgramChunk) (chunks : List ProgramChunk)
      → p.chunks ≡ some chunks
      → length chunks ≡ p.num_chunks
      → p.num_chunks < 2 ^ 31
      → i < p.num_chunks
      → j < p.num_chunks
      → (if j == i then some (record c { index = i }) else get_elem? chunks j) ≡ some b
      → (w' : World) × (prg_set_chunk prg i (some c) w ≡ done Status.success w')
        × (prg_get_chunk prg j (some x) w' ≡ done (Status.success, some b) w')
  unfolding prg_set_chunk prg_get_chunk
  get_chunk-set_chunk i j c x b chunks e len small lt_i lt_j is_b =
      let chunks' = set chunks i (record c { index = i }) in
      let found : get_elem? chunks' j ≡ some b =
        get_elem?-set chunks i j (record c { index = i }) (omega arith) ∙ is_b in
      (
        record w { programs = update w.programs prg (some (record p { chunks = some chunks' })) },
        ground arith,
        ground arith,
      )

prg_set_chunk-Fit :
    (prg i : ℕ) (chunk : Option ProgramChunk) → Preserves WellFormed (prg_set_chunk prg i chunk)
unfolding prg_set_chunk
prg_set_chunk-Fit prg i none w r w' h e q k live = ground (arith, h q k)
prg_set_chunk-Fit prg i (some a) w r w' h e q k live = elim (Option-cases (w.programs prg)) [
  | inl gone ↦ ground (arith, h q k)
  | inr (k0, e0) ↦ elim (Option-cases k0.chunks) [
    | inl no_chunks ↦ ground (arith, h q k, h prg k0)
    | inr (chunks, e1) ↦
        ground (arith, h q k, h prg k0, length-set chunks i (record a { index = i }))
  ]
]

-- Where every live program has an array of exactly `num_chunks` chunks, or none and `num_chunks` 0,
-- so it is after a `prg_set_num_chunks` that does not fault and does not report
-- CL_OUT_OF_HOST_MEMORY.
pub set_num_chunks-WellFormed :
    (prg num : ℕ) (w : World) (r : Status) (w' : World)
    → WellFormed w
    → prg_set_num_chunks prg num w ≡ done r w'
    → r ≢ Status.out_of_host_memory
    → WellFormed w'
unfolding prg_set_num_chunks
set_num_chunks-WellFormed prg num w r w' h e ne q k live = elim (Option-cases (w.programs prg)) [
  | inl gone ↦ ground (arith, h q k)
  | inr (k0, e0) ↦ ground (arith, h q k, length-replicate num zero_chunk)
]
