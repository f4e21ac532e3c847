-- ===== src/Enqueue/Chunks.antt =====
-- The transfer of a program's chunks: which of them a launch sends.
use baremetal_crt_host.Common.{
  ℕ, zero, suc, ◌+◌, ◌^◌, ◌<◌, ◌≤◌, ◌≡◌, ◌≢◌, refl, true, false, ◌&&◌, some, List, [], ◌∷◌, Bytes,
  length, get_elem?, set, get_elem?-set_self, arith,
}
use baremetal_crt_host.Cl.{Status}
use baremetal_crt_host.Runtime.{
  Ptr, null, DevCall, DevOps, Device, Program, ProgramChunk, World, update,
}
use baremetal_crt_host.Runtime.Monad.{done}
use baremetal_crt_host.Runtime.Memory.{peek}
use baremetal_crt_host.Program.{zero_chunk, prg_get_chunk, prg_set_chunk}
use baremetal_crt_host.Program.Chunks.{LiveProgram}
use baremetal_crt_host.Enqueue.Launch.{send_chunk, send_chunks}
use baremetal_crt_host.Enqueue.Area.{CanWrite, after_call, write_host}

pub elem_there :
    {A : Type 0} (xs : List A) (i : ℕ) → i < length xs → (x : A) × (get_elem? xs i ≡ some x)
elem_there [] i lt = absurd (omega arith)
elem_there (x ∷ xs) zero lt = (x, refl)
elem_there (x ∷ xs) (suc i) lt = elem_there xs i (omega arith)

pub get_chunk-elem :
    (w : World) (prg : Ptr) (p : Program) (chunks : List ProgramChunk) (i : ℕ) (c : ProgramChunk)
    → LiveProgram w prg p
    → p.chunks ≡ some chunks
    → p.num_chunks < 2 ^ 31
    → i < p.num_chunks
    → get_elem? chunks i ≡ some c
    → prg_get_chunk prg i (some zero_chunk) w ≡ done (Status.success, some c) w
unfolding prg_get_chunk
get_chunk-elem w prg p chunks i c live array small lt there = ground arith

pub set_chunk-elem :
    (w : World) (prg : Ptr) (p : Program) (chunks : List ProgramChunk) (i : ℕ) (c : ProgramChunk)
    → LiveProgram w prg p
    → p.chunks ≡ some chunks
    → length chunks ≡ p.num_chunks
    → p.num_chunks < 2 ^ 31
    → i < p.num_chunks
    → prg_set_chunk prg i (some c) w
      ≡ done Status.success (record w {
        programs =
            update w.programs prg
              (some (record p { chunks = some (set chunks i (record c { index = i })) }));
      })
unfolding prg_set_chunk
set_chunk-elem w prg p chunks i c live array len small lt = ground arith

pub skip_chunk :
    (w : World) (dev prg : Ptr) (p : Program) (chunks : List ProgramChunk) (i : ℕ)
    (c : ProgramChunk)
    → LiveProgram w prg p
    → p.chunks ≡ some chunks
    → p.num_chunks < 2 ^ 31
    → i < p.num_chunks
    → get_elem? chunks i ≡ some c
    → c.readonly ≡ true
    → c.loaded ≡ true
    → send_chunk dev prg i w ≡ done Status.success w
unfolding send_chunk
skip_chunk w dev prg p chunks i c live array small lt there ro loaded =
    rw (get_chunk-elem w prg p chunks i c live array small lt there) (rw (ro, loaded) refl)

-- The loop over the chunks of a live program, from the index `i` on and within its array: where
-- all these chunks are read-only and loaded, it succeeds and changes nothing, in particular it
-- does not call the driver.
pub send_chunks_loaded :
    (dev prg left i : ℕ) (w : World) (p : Program) (chunks : List ProgramChunk)
    → LiveProgram w prg p
    → p.chunks ≡ some chunks
    → length chunks ≡ p.num_chunks
    → p.num_chunks < 2 ^ 31
    → i + left ≤ p.num_chunks
    → ((j : ℕ) (c : ProgramChunk)
        → i ≤ j
        → get_elem? chunks j ≡ some c
        → (c.readonly ≡ true) × (c.loaded ≡ true))
    → send_chunks dev prg left i w ≡ done Status.success w
unfolding send_chunks
send_chunks_loaded dev prg zero i w p chunks live array len small range all = refl
send_chunks_loaded dev prg (suc left) i w p chunks live array len small range all =
    let (c, there) = elem_there chunks i (omega arith) in
    let (ro, loaded) = all i c (omega arith) there in
    rw (skip_chunk w dev prg p chunks i c live array small (omega arith) there ro loaded) (
      send_chunks_loaded dev prg left (i + 1) w p chunks live array len small (omega arith)
        (λ j c' le e. all j c' (omega arith) e))

-- A read-only chunk of a live program that is not loaded yet, whose bytes are mapped, on a live
-- device whose driver takes the write: the first round of the loop for it makes exactly one call
-- of the driver, which writes these bytes to the chunk's address, and a second round for it,
-- in the state that the first leaves, changes nothing.
pub send_chunk_once :
    (dev prg i : ℕ) (w : World) (p : Program) (chunks : List ProgramChunk) (c : ProgramChunk)
    (bs left : Bytes) (d : Device) (ops : DevOps)
    → LiveProgram w prg p
    → p.chunks ≡ some chunks
    → length chunks ≡ p.num_chunks
    → p.num_chunks < 2 ^ 31
    → i < p.num_chunks
    → get_elem? chunks i ≡ some c
    → c.readonly ≡ true
    → c.loaded ≡ false
    → CanWrite w dev d ops
    → c.buf ≢ null
    → 0 < c.size
    → peek w.memory c.buf c.size ≡ some bs
    → w.driver (DevCall.write_mem dev c.paddr bs ∷ w.calls) ≡ (Status.success, left)
    → (w' : World) × (send_chunk dev prg i w ≡ done Status.success w')
      × (w'.calls ≡ DevCall.write_mem dev c.paddr bs ∷ w.calls)
      × (send_chunk dev prg i w' ≡ done Status.success w')
unfolding send_chunk
send_chunk_once dev prg i w p chunks c bs left d ops live array len small lt there ro fresh can
      some_buf some_size mapped answer =
    let c1 : ProgramChunk = record c { loaded = true; index = i } in
    let chunks1 = set chunks i c1 in
    let p1 : Program = record p { chunks = some chunks1 } in
    let w1 = after_call w (DevCall.write_mem dev c.paddr bs) in
    let w2 = record w1 { programs = update w1.programs prg (some p1) } in
    let written =
      write_host dev c.paddr c.buf c.size bs w d ops left can some_buf some_size mapped answer in
    let stored =
      set_chunk-elem w1 prg p chunks i (record c { loaded = true }) live array len small lt in
    let to_send : (c.readonly && c.loaded) ≡ false = ground arith in
    let live2 : LiveProgram w2 prg p1 = ground arith in
    let there2 : get_elem? chunks1 i ≡ some c1 = get_elem?-set_self chunks i c1 (omega arith) in
    (
      w2,
      rw (get_chunk-elem w prg p chunks i c live array small lt there)
          (rw to_send (rw written (rw stored refl))),
      refl,
      skip_chunk w2 dev prg p1 chunks1 i c1 live2 refl small lt there2 ro refl,
    )
