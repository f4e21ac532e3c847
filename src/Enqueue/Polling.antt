-- ===== src/Enqueue/Polling.antt =====
-- The polling loop that waits for a kernel, and the chunks that need no second transfer.
use baremetal_crt_host.Common.{
  ℕ, zero, suc, ◌<◌, ◌≤◌, ◌≡◌, ◌≢◌, refl, ap, ◌∙◌, sym, true, false, some, List, [], ◌∷◌, ◌++◌,
  Bytes, ◌==◌, length, take, drop, take-length, arith,
}
use baremetal_crt_host.Cl.{Status, icd_magic}
use baremetal_crt_host.Runtime.{Ptr, null, DevCall, DevOps, Device, World}
use baremetal_crt_host.Runtime.Monad.{done}
use baremetal_crt_host.Handles.{dev_is_valid}
use baremetal_crt_host.Device.{
  HostBuf, store, lacks_op, call_driver, dev_plain, dev_run, dev_stop, dev_read_mem,
}
use baremetal_crt_host.Enqueue.Launch.{comm_magic, header_magic, header_done, poll}

-- A live device whose driver can run, stop and read.
abbrev pub CanPoll : World → Ptr → Device → DevOps → Type 0
CanPoll w dev d ops =
    (dev ≢ null)
    × (w.devices dev ≡ some d)
    × (d.magic ≡ icd_magic)
    × (d.ops ≡ some ops)
    × (ops.run ≡ true)
    × (ops.stop ≡ true)
    × (ops.read_mem ≡ true)

-- The calls of `n` rounds that do not end the loop, behind those of before.
abbrev pub rounds : (dev addr n : ℕ) → List DevCall → List DevCall
rounds dev addr zero calls = calls
rounds dev addr (suc n) calls =
    rounds dev addr n (DevCall.run dev ∷ DevCall.read_mem dev addr 16 ∷ DevCall.stop dev ∷ calls)

-- The device stops and runs, and answers a read with `got`.
abbrev pub Answers : World → (dev addr : ℕ) → Bytes → List DevCall → Type 0
Answers w dev addr got calls =
    (w.driver (DevCall.stop dev ∷ calls) ≡ (Status.success, []))
    × (w.driver (DevCall.read_mem dev addr 16 ∷ DevCall.stop dev ∷ calls) ≡ (Status.success, got))
    × (w.driver (DevCall.run dev ∷ DevCall.read_mem dev addr 16 ∷ DevCall.stop dev ∷ calls)
        ≡ (Status.success, []))

-- A header of 16 bytes with the magic number.
abbrev pub IsHeader : Bytes → Type 0
IsHeader got = (length got ≡ 16) × (header_magic got ≡ comm_magic)

stop_works :
    (dev : Ptr) (w : World) (d : Device) (ops : DevOps)
    → CanPoll w dev d ops
    → w.driver (DevCall.stop dev ∷ w.calls) ≡ (Status.success, [])
    → dev_stop dev w ≡ done Status.success (record w { calls = DevCall.stop dev ∷ w.calls })
unfolding dev_stop dev_plain dev_is_valid lacks_op call_driver
stop_works dev w d ops can answer = ground arith

run_works :
    (dev : Ptr) (w : World) (d : Device) (ops : DevOps)
    → CanPoll w dev d ops
    → w.driver (DevCall.run dev ∷ w.calls) ≡ (Status.success, [])
    → dev_run dev w ≡ done Status.success (record w { calls = DevCall.run dev ∷ w.calls })
unfolding dev_run dev_plain dev_is_valid lacks_op call_driver
run_works dev w d ops can answer = ground arith

read_works :
    (dev addr : ℕ) (h got : Bytes) (w : World) (d : Device) (ops : DevOps)
    → CanPoll w dev d ops
    → w.driver (DevCall.read_mem dev addr 16 ∷ w.calls) ≡ (Status.success, got)
    → dev_read_mem dev addr (HostBuf.local h) 16 w
      ≡ done
          (Status.success, take 16 got)
          (record w { calls = DevCall.read_mem dev addr 16 ∷ w.calls })
unfolding dev_read_mem dev_is_valid lacks_op call_driver store
read_works dev addr h got w d ops can answer = ground arith

drop_all : (n : ℕ) (h : Bytes) → length h ≤ n → drop n h ≡ []
drop_all zero [] le = refl
drop_all zero (x ∷ h) le = absurd (omega arith)
drop_all (suc n) [] le = refl
drop_all (suc n) (x ∷ h) le = drop_all n h (omega arith)

append_nil : (bs : Bytes) → bs ++ [] ≡ bs
append_nil [] = refl
append_nil (b ∷ bs) = ap (λ t. b ∷ t) (append_nil bs)

-- A whole header replaces the one of before.
overwritten :
    (got h : Bytes)
    → length got ≡ 16
    → length h ≡ 16
    → take 16 got ++ drop (length (take 16 got)) h ≡ got
overwritten got h full old =
    let whole : take 16 got ≡ got = ap (λ n. take n got) (sym full) ∙ take-length got in
    rw whole (rw (drop_all (length got) h (omega arith)) (append_nil got))

-- The state after a round that does not end the loop
abbrev after_round : (dev addr : ℕ) → World → World
after_round dev addr w = record w { calls = rounds dev addr 1 w.calls }

poll_round :
    (dev addr left : ℕ) (h got : Bytes) (w : World) (d : Device) (ops : DevOps)
    → CanPoll w dev d ops
    → length h ≡ 16
    → IsHeader got
    → header_done got ≡ 0
    → Answers w dev addr got w.calls
    → poll dev addr (suc left) h w ≡ poll dev addr left got (after_round dev addr w)
unfolding poll
poll_round dev addr left h got w d ops can old new busy answers =
    let w1 = record w { calls = DevCall.stop dev ∷ w.calls } in
    let w2 = record w { calls = DevCall.read_mem dev addr 16 ∷ DevCall.stop dev ∷ w.calls } in
    let stopped = stop_works dev w d ops can answers.0 in
    let read = read_works dev addr h got w1 d ops can answers.1 in
    let ran = run_works dev w2 d ops can answers.2 in
    rw stopped (rw read (rw (overwritten got h new.0 old) (rw (new.1, busy) (rw ran refl))))

poll_last :
    (dev addr left : ℕ) (h got : Bytes) (w : World) (d : Device) (ops : DevOps)
    → CanPoll w dev d ops
    → length h ≡ 16
    → IsHeader got
    → header_done got ≢ 0
    → w.driver (DevCall.stop dev ∷ w.calls) ≡ (Status.success, [])
    → w.driver (DevCall.read_mem dev addr 16 ∷ DevCall.stop dev ∷ w.calls) ≡ (Status.success, got)
    → poll dev addr (suc left) h w
      ≡ done Status.success
          (record w { calls = DevCall.read_mem dev addr 16 ∷ DevCall.stop dev ∷ w.calls })
unfolding poll
poll_last dev addr left h got w d ops can old new finished a1 a2 =
    let w1 = record w { calls = DevCall.stop dev ∷ w.calls } in
    let stopped = stop_works dev w d ops can a1 in
    let read = read_works dev addr h got w1 d ops can a2 in
    let over : (header_done got == 0) ≡ false = ground arith in
    rw stopped (rw read (rw (overwritten got h new.0 old) (rw (new.1, over) refl)))

-- The polling loop with `left` rounds, on a live device whose driver answers every call with
-- CL_SUCCESS and, in each of these rounds, a read with a header that has the magic number and is
-- not done: it returns CL_INVALID_DEVICE, after each round has stopped the device, read the
-- header and let the device run again.
pub poll_gives_up :
    (dev addr left : ℕ) (h : Bytes) (heard : ℕ → Bytes) (w : World) (d : Device) (ops : DevOps)
    → CanPoll w dev d ops
    → length h ≡ 16
    → ((j : ℕ)
        → j < left
        → IsHeader (heard j)
          × (header_done (heard j) ≡ 0)
          × Answers w dev addr (heard j) (rounds dev addr j w.calls))
    → poll dev addr left h w
      ≡ done Status.invalid_device (record w { calls = rounds dev addr left w.calls })
unfolding poll
poll_gives_up dev addr zero h heard w d ops can old all = refl
poll_gives_up dev addr (suc left) h heard w d ops can old all =
    let (new, busy, answers) = all 0 (omega arith) in
    poll_round dev addr left h (heard 0) w d ops can old new busy answers
    ∙ poll_gives_up dev addr left (heard 0) (λ j. heard (suc j)) (after_round dev addr w) d ops can
        new.0 (λ j lt. all (suc j) (omega arith))

-- The polling loop with more than `k` rounds, on a live device whose driver answers every call
-- with CL_SUCCESS and every read with a header that has the magic number, is not done in the
-- first `k` rounds and is done in the next: it returns CL_SUCCESS, the device is stopped, and
-- the header was the last thing that was read.
pub poll_finishes :
    (dev addr k left : ℕ) (h : Bytes) (heard : ℕ → Bytes) (w : World) (d : Device) (ops : DevOps)
    → CanPoll w dev d ops
    → length h ≡ 16
    → k < left
    → ((j : ℕ)
        → j < k
        → IsHeader (heard j)
          × (header_done (heard j) ≡ 0)
          × Answers w dev addr (heard j) (rounds dev addr j w.calls))
    → IsHeader (heard k)
    → header_done (heard k) ≢ 0
    → w.driver (DevCall.stop dev ∷ rounds dev addr k w.calls) ≡ (Status.success, [])
    → w.driver (DevCall.read_mem dev addr 16 ∷ DevCall.stop dev ∷ rounds dev addr k w.calls)
      ≡ (Status.success, heard k)
    → poll dev addr left h w
      ≡ done Status.success (record w {
        calls = DevCall.read_mem dev addr 16 ∷ DevCall.stop dev ∷ rounds dev addr k w.calls;
      })
poll_finishes dev addr k zero h heard w d ops can old lt all new over a1 a2 = absurd (omega arith)
poll_finishes dev addr zero (suc left) h heard w d ops can old lt all new over a1 a2 =
    poll_last dev addr left h (heard 0) w d ops can old new over a1 a2
poll_finishes dev addr (suc k) (suc left) h heard w d ops can old lt all new over a1 a2 =
    let (first, busy, answers) = all 0 (omega arith) in
    poll_round dev addr left h (heard 0) w d ops can old first busy answers
    ∙ poll_finishes dev addr k left (heard 0) (λ j. heard (suc j)) (after_round dev addr w) d ops
        can first.0 (omega arith) (λ j l. all (suc j) (omega arith)) new over a1 a2
