-- ===== src/Tests/Data.antt =====
-- The states of the runs on small inputs.
use baremetal_crt_host.Common.{
  ◌%◌, Option, none, some, [], ◌∷◌, List, ◌==◌, ltb, if◌then◌else◌, true, false,
}
use baremetal_crt_host.Cl.{Status, icd_magic}
use baremetal_crt_host.Runtime.{
  Ptr, Context, CommandQueue, DevOps, Device, Kernel, Mem, Program, ProgramChunk, World,
}
use baremetal_crt_host.Gdb.Wire.{Conn, RecvEvent, SendEvent}

-- One object at an address
abbrev pub only : {A : Type 0} → Ptr → A → Ptr → Option A
only p a q = if q == p then some a else none

abbrev pub kernel_1 : Kernel
kernel_1 = record {
  dispatch = 0;
  magic = icd_magic;
  id = 1;
  prg = 90;
  name = none;
  num_args = 1;
  args = some (record { argtype = 1; index = 0; size = 4; val = 7 } ∷ []);
}

abbrev pub mem_1 : Mem
mem_1 = record {
  dispatch = 0;
  magic = icd_magic;
  id = 2;
  ctx = 30;
  flags = 1;
  size = 4;
  ptr = 1000;
}

abbrev pub context_1 : Context
context_1 = record { dispatch = 0; magic = icd_magic; id = 3; dev = 20 }

abbrev pub queue_1 : CommandQueue
queue_1 = record { dispatch = 0; magic = icd_magic; id = 4; ctx = 30 }

abbrev pub zero_chunk_1 : ProgramChunk
zero_chunk_1 = record { index = 0; paddr = 64; buf = 0; size = 0; readonly = true; loaded = false }

abbrev pub program_1 : Program
program_1 = record {
  dispatch = 0;
  magic = icd_magic;
  id = 5;
  ctx = 30;
  priv = 0;
  num_chunks = 2;
  chunks = some (zero_chunk_1 ∷ zero_chunk_1 ∷ []);
  comm = record { addr = 4096; size = 256 };
}

abbrev pub all_ops : DevOps
all_ops = record {
  probe = true;
  remove = true;
  reset = true;
  run = true;
  stop = true;
  read_mem = true;
  write_mem = true;
}

abbrev pub device_1 : Device
device_1 = record {
  dispatch = 0;
  magic = icd_magic;
  id = 6;
  plat = 10;
  ops = some all_ops;
  dev_type = 1;
  enabled = true;
  priv = 0;
  dev_next = 0;
}

-- A device at 20, a context at 30, a queue at 40, a kernel at 50, a memory object at 60, a program
-- at 90; memory from 1000 to 1999; `calloc` gives 70, then 80, then nothing.
abbrev pub small_world : World
small_world = record {
  uniq_id = 7;
  supply = 70 ∷ 80 ∷ [];
  blocks = only 1000 4;
  memory = λ q. if ltb 999 q then (if ltb q 2000 then some (q % 256) else none) else none;
  platforms = λ _. none;
  devices = only 20 device_1;
  contexts = only 30 context_1;
  queues = only 40 queue_1;
  programs = only 90 program_1;
  kernels = only 50 kernel_1;
  mems = only 60 mem_1;
  elfs = λ _. none;
  head_next = 20;
  dev_num = 1;
  calls = [];
  driver = λ _. (Status.success, []);
}

-- A connection with a script
abbrev pub conn : List RecvEvent → List SendEvent → Conn
conn incoming accepts = record {
  incoming = incoming;
  accepts = accepts;
  allocs = [];
  outgoing = [];
}
