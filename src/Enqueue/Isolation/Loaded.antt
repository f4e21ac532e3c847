-- ===== src/Enqueue/Isolation/Loaded.antt =====
-- What a launch that succeeds has loaded, and what the next one need not send.
use baremetal_crt_host.Common.{ℕ, some}
use baremetal_crt_host.Cl.{Status}
use baremetal_crt_host.Runtime.{Program}
use baremetal_crt_host.Runtime.Monad.{M, pure, ◌>>=◌, ◌⨟◌}
use baremetal_crt_host.Kernel.{kern_get_num_args}
use baremetal_crt_host.Kernel.Api.{value_or}
use baremetal_crt_host.Program.{prg_get_num_chunks, prg_get_comm}
use baremetal_crt_host.Enqueue.Launch.{send_chunks, start_kernel}
use baremetal_crt_host.Enqueue.Isolation.Ready.{Ready}

-- What a launch does behind the loop over the chunks, and behind the reset
abbrev after_chunks : (kernel dev prg : ℕ) → M Status
after_chunks kernel dev prg = do
  (s, area) ← prg_get_comm prg (some (record { addr = 0; size = 0 }))
  pure s ⨟ do
    (t, args) ← kern_get_num_args kernel (some 0)
    pure t
        ⨟ start_kernel dev kernel (value_or area (record { addr = 0; size = 0 })) (value_or args 0)

abbrev after_reset : (kernel dev prg : ℕ) → M Status
after_reset kernel dev prg = do
  (r, num) ← prg_get_num_chunks prg (some 0)
  pure r ⨟ send_chunks dev prg (value_or num 0) 0 ⨟ after_chunks kernel dev prg
