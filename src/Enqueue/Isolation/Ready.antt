-- ===== src/Enqueue/Isolation/Ready.antt =====
-- What the loop over the chunks marks as loaded.
use mathlib.Core.Path.{subst}
use baremetal_crt_host.Common.{
  ℕ, zero, suc, ◌+◌, ◌^◌, ◌<◌, ◌≤◌, ◌≡◌, ◌≢◌, refl, sym, ap, ◌∙◌, true, ◌&&◌, ◌==◌, inl, inr, some,
  List, length, length-set, get_elem?, set, get_elem?-set_self, get_elem?-set_ne, arith, Bool-cases,
}
use baremetal_crt_host.Cl.{Status, is_success}
use baremetal_crt_host.Runtime.{Ptr, Program, ProgramChunk, World, update}
use baremetal_crt_host.Runtime.Monad.{done, M, pure, ◌⨟◌, test◌then◌else◌}
use baremetal_crt_host.Runtime.Preserve.{and_then-done}
use baremetal_crt_host.Program.{prg_set_chunk}
use baremetal_crt_host.Program.Chunks.{LiveProgram}
use baremetal_crt_host.Device.{HostBuf, dev_write_mem}
use baremetal_crt_host.Enqueue.Layout.{is_success-eq}
use baremetal_crt_host.Enqueue.Launch.{send_chunk, send_chunks}
use baremetal_crt_host.Enqueue.Chunks.{elem_there, get_chunk-elem, set_chunk-elem}
use baremetal_crt_host.Enqueue.Isolation.{IsKept, dev_write_mem-Kept}

-- A sequence of two functions that succeeds
pub then-success :
    (m k : M Status) (w w' : World)
    → (m ⨟ k) w ≡ done Status.success w'
    → (v : World) × (m w ≡ done Status.success v) × (k v ≡ done Status.success w')
then-success m k w w' run =
    let (r, v, first, rest) =
      and_then-done (m w) (λ r. test is_success r then k else pure r) Status.success w' run in
    elim (Bool-cases (is_success r)) [
      | inl good ↦
          let same : r ≡ Status.success = is_success-eq r good in
          (v, subst (λ x. m w ≡ done x v) same first, ground (arith, rest, good))
      | inr bad ↦
          let same : r ≡ Status.success = ground (arith, rest, bad) in
          absurd (ground (arith, same, bad))
    ]

-- The program, with `n` chunks of which the read-only ones in front of `below` are loaded
abbrev pub Ready : World → (prg n below : ℕ) → Type 0
Ready w prg n below =
    (p : Program) × (chunks : List ProgramChunk) × LiveProgram w prg p
    × (p.chunks ≡ some chunks)
    × (length chunks ≡ p.num_chunks)
    × (p.num_chunks ≡ n)
    × ((j : ℕ) (c : ProgramChunk)
        → j < below
        → get_elem? chunks j ≡ some c
        → c.readonly ≡ true
        → c.loaded ≡ true)

pub Ready-same :
    (w v : World) (prg n below : ℕ)
    → w.programs ≡ v.programs
    → Ready w prg n below
    → Ready v prg n below
Ready-same w v prg n below same (p, chunks, (some_prg, at, magic), array, len, num, all) =
    (p, chunks, (some_prg, ap (λ f. f prg) (sym same) ∙ at, magic), array, len, num, all)

-- What the calls of a device keep of the programs
pub programs-IsKept : (dev : Ptr) (w0 : World) → IsKept dev (λ w. w0.programs ≡ w.programs)
programs-IsKept dev w0 = (λ w call to h. h, λ w m h. h)

module _ (dev prg n : ℕ) (small : n < 2 ^ 31) where
  mark_chunk :
      (i : ℕ) (v w' : World) (p : Program) (chunks : List ProgramChunk) (c : ProgramChunk)
      → i < n
      → LiveProgram v prg p
      → p.chunks ≡ some chunks
      → length chunks ≡ p.num_chunks
      → p.num_chunks ≡ n
      → ((j : ℕ) (c : ProgramChunk)
          → j < i
          → get_elem? chunks j ≡ some c
          → c.readonly ≡ true
          → c.loaded ≡ true)
      → prg_set_chunk prg i (some (record c { loaded = true })) v ≡ done Status.success w'
      → Ready w' prg n (i + 1)
  mark_chunk i v w' p chunks c lt live array len num before run =
      let marked : ProgramChunk = record c { loaded = true; index = i } in
      let chunks1 = set chunks i marked in
      let p1 : Program = record p { chunks = some chunks1 } in
      let v1 = record v { programs = update v.programs prg (some p1) } in
      let stored =
        set_chunk-elem v prg p chunks i (record c { loaded = true }) live array len
          (omega (arith, num)) (omega (arith, num, lt)) in
      let same : v1 ≡ w' = ground (arith, stored, run) in
      let ready : Ready v1 prg n (i + 1) = (
        p1,
        chunks1,
        ground arith,
        refl,
        length-set chunks i marked ∙ len,
        num,
        λ j d below at ro. elim (Bool-cases (j == i)) [
          | inl here ↦
              let now : j ≡ i = ground (arith, here) in
              let is_marked = get_elem?-set_self chunks i marked (omega (arith, len, num, lt)) in
              ground (arith, is_marked, at, now)
          | inr other ↦
              let apart : i ≢ j = λ e. ground (arith, other, e) in
              before j d (ground (arith, other, below))
                (sym (get_elem?-set_ne chunks i j marked apart) ∙ at) ro
        ],
      ) in
      subst (λ x. Ready x prg n (i + 1)) same ready

  send_chunk-Ready :
      (i : ℕ) (w w' : World)
      → i < n
      → Ready w prg n i
      → send_chunk dev prg i w ≡ done Status.success w'
      → Ready w' prg n (i + 1)
  unfolding send_chunk
  send_chunk-Ready i w w' lt (p, chunks, live, array, len, num, before) run =
      let (c, there) = elem_there chunks i (omega (arith, len, num, lt)) in
      let got =
        get_chunk-elem w prg p chunks i c live array (omega (arith, num)) (omega (arith, num, lt))
          there in
      let run' : (test c.readonly && c.loaded
              then pure Status.success
              else dev_write_mem dev c.paddr (HostBuf.at c.buf) c.size
                ⨟ prg_set_chunk prg i (some (record c { loaded = true })))
            w
          ≡ done Status.success w' =
        ground (arith, got, run) in
      elim (Bool-cases (c.readonly && c.loaded)) [
        | inl skips ↦
            let same : w ≡ w' = ground (arith, skips, run') in
            let ready : Ready w prg n (i + 1) = (
              p,
              chunks,
              live,
              array,
              len,
              num,
              λ j d below at ro. elim (Bool-cases (j == i)) [
                | inl here ↦ ground (arith, here, at, there, skips)
                | inr other ↦ before j d (ground (arith, other, below)) at ro
              ],
            ) in
            subst (λ x. Ready x prg n (i + 1)) same ready
        | inr sends ↦
            let (v, written, marks) =
              then-success (dev_write_mem dev c.paddr (HostBuf.at c.buf) c.size)
                (prg_set_chunk prg i (some (record c { loaded = true }))) w w'
                (ground (arith, sends, run')) in
            let same =
              dev_write_mem-Kept dev (λ x. w.programs ≡ x.programs) (programs-IsKept dev w) c.paddr
                (HostBuf.at c.buf) c.size w Status.success v refl written in
            mark_chunk i v w' p chunks c lt (live.0, ap (λ f. f prg) (sym same) ∙ live.1, live.2)
              array len num before marks
      ]

  pub send_chunks-Ready :
      (left i : ℕ) (w w' : World)
      → i + left ≤ n
      → Ready w prg n i
      → send_chunks dev prg left i w ≡ done Status.success w'
      → Ready w' prg n (i + left)
  unfolding send_chunks
  send_chunks-Ready zero i w w' range ready run =
      let same : w ≡ w' = ground arith in
      subst (λ k. Ready w' prg n k) (omega arith) (subst (λ x. Ready x prg n i) same ready)
  send_chunks-Ready (suc left) i w w' range ready run =
      let (v, first, rest) =
        then-success (send_chunk dev prg i) (send_chunks dev prg left (i + 1)) w w' run in
      let ready1 = send_chunk-Ready i w v (omega arith) ready first in
      subst (λ k. Ready w' prg n k) (omega arith)
        (send_chunks-Ready left (i + 1) v w' (omega arith) ready1 rest)
