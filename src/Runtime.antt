-- ===== src/Runtime.antt =====
-- The state of the runtime: the structs of include/drivers/*.h as records, the objects that
-- are alive, the raw memory of the host, and the calls that reach a device driver.
-- A pointer is its address, 0 is NULL. A run that dereferences a pointer to no live object, or
-- touches unmapped memory, ends in `fault`: in C its behaviour is undefined.
pub mod Monad
pub mod Memory
pub mod Preserve
use baremetal_crt_host.Common.{ℕ, Bool, Option, none, some, List, Bytes, ◌==◌, if◌then◌else◌}
use baremetal_crt_host.Cl.{Status}

abbrev pub Ptr : Type 0
Ptr = ℕ

abbrev pub null : Ptr
null = 0

-- struct _cl_platform_id
pub record Platform : Type 0 where
  pub dispatch : Ptr
  pub magic : ℕ

-- struct dev_ops: which of the function pointers are set. What the functions answer is the
-- state's `driver`.
pub record DevOps : Type 0 where
  pub probe : Bool
  pub remove : Bool
  pub reset : Bool
  pub run : Bool
  pub stop : Bool
  pub read_mem : Bool
  pub write_mem : Bool

-- struct _cl_device_id; `priv` belongs to the driver
pub record Device : Type 0 where
  pub dispatch : Ptr
  pub magic : ℕ
  pub id : ℕ
  pub plat : Ptr
  pub ops : Option DevOps
  pub dev_type : ℕ
  pub enabled : Bool
  pub priv : Ptr
  pub dev_next : Ptr

-- struct _cl_context
pub record Context : Type 0 where
  pub dispatch : Ptr
  pub magic : ℕ
  pub id : ℕ
  pub dev : Ptr

-- struct _cl_command_queue
pub record CommandQueue : Type 0 where
  pub dispatch : Ptr
  pub magic : ℕ
  pub id : ℕ
  pub ctx : Ptr

-- struct program_chunk
pub record ProgramChunk : Type 0 where
  pub index : ℕ
  pub paddr : ℕ
  pub buf : Ptr
  pub size : ℕ
  pub readonly : Bool
  pub loaded : Bool

-- struct program_comm
pub record ProgramComm : Type 0 where
  pub addr : ℕ
  pub size : ℕ

-- struct _cl_program. `chunks` is the array that the program owns, `none` for NULL.
pub record Program : Type 0 where
  pub dispatch : Ptr
  pub magic : ℕ
  pub id : ℕ
  pub ctx : Ptr
  pub priv : Ptr
  pub num_chunks : ℕ
  pub chunks : Option (List ProgramChunk)
  pub comm : ProgramComm

-- struct kern_arg
pub record KernArg : Type 0 where
  pub argtype : ℕ
  pub index : ℕ
  pub size : ℕ
  pub val : Ptr

-- struct _cl_kernel. `name` and `args` are owned by the kernel, `none` for NULL.
pub record Kernel : Type 0 where
  pub dispatch : Ptr
  pub magic : ℕ
  pub id : ℕ
  pub prg : Ptr
  pub name : Option Bytes
  pub num_args : ℕ
  pub args : Option (List KernArg)

-- struct _cl_mem
pub record Mem : Type 0 where
  pub dispatch : Ptr
  pub magic : ℕ
  pub id : ℕ
  pub ctx : Ptr
  pub flags : ℕ
  pub size : ℕ
  pub ptr : Ptr

-- struct prg_header: a program header, with what the loader adds
pub record PrgHeader : Type 0 where
  pub p_type : ℕ
  pub p_flags : ℕ
  pub p_offset : ℕ
  pub p_vaddr : ℕ
  pub p_paddr : ℕ
  pub p_filesz : ℕ
  pub p_memsz : ℕ
  pub p_align : ℕ
  pub index : ℕ
  pub src : Ptr

-- struct sec_header
pub record SecHeader : Type 0 where
  pub sh_name : ℕ
  pub sh_type : ℕ
  pub sh_flags : ℕ
  pub sh_addr : ℕ
  pub sh_offset : ℕ
  pub sh_size : ℕ
  pub sh_link : ℕ
  pub sh_info : ℕ
  pub sh_addralign : ℕ
  pub sh_entsize : ℕ

-- struct elf_info. `phs` and `shs` are arrays that it owns, `none` for NULL.
pub record ElfInfo : Type 0 where
  pub magic : ℕ
  pub prg : Ptr
  pub elf_size : ℕ
  pub buf : Ptr
  pub p_hdr_ent : Ptr
  pub s_hdr_ent : Ptr
  pub shstr_ent : Ptr
  pub shstr_size : ℕ
  pub elf_class : ℕ
  pub e_type : ℕ
  pub e_machine : ℕ
  pub e_version : ℕ
  pub e_entry : ℕ
  pub e_phoff : ℕ
  pub e_shoff : ℕ
  pub e_flags : ℕ
  pub e_ehsize : ℕ
  pub e_phentsize : ℕ
  pub e_phnum : ℕ
  pub e_shentsize : ℕ
  pub e_shnum : ℕ
  pub e_shstrndx : ℕ
  pub phs : Option (List PrgHeader)
  pub shs : Option (List SecHeader)
  pub comm_sec : Ptr
  pub comm : ProgramComm

-- A call through the table of a device, with the device first.
pub data DevCall : Type 0 where
  probe remove reset run stop : Ptr → DevCall
  read_mem : Ptr → (paddr len : ℕ) → DevCall
  write_mem : Ptr → (paddr : ℕ) → Bytes → DevCall

-- `supply` holds what the next calls of `calloc` return, and NULL when it is empty.
-- `blocks` are the raw blocks that `calloc` gave and their sizes, `memory` the mapped bytes.
-- `calls` are the driver calls so far, the latest first, and `driver` answers a call from them:
-- its status, and the bytes that a read stores. `elfs` are the structs behind `priv` of programs.
-- `head_next` is the first device of the list, `in_head.dev_next`, and `dev_num` is `in_dev_num`.
pub record World : Type 0 where
  pub uniq_id : ℕ
  pub supply : List Ptr
  pub blocks : Ptr → Option ℕ
  pub memory : ℕ → Option ℕ
  pub platforms : Ptr → Option Platform
  pub devices : Ptr → Option Device
  pub contexts : Ptr → Option Context
  pub queues : Ptr → Option CommandQueue
  pub programs : Ptr → Option Program
  pub kernels : Ptr → Option Kernel
  pub mems : Ptr → Option Mem
  pub elfs : Ptr → Option ElfInfo
  pub head_next : Ptr
  pub dev_num : ℕ
  pub calls : List DevCall
  pub driver : List DevCall → Status × Bytes

-- A store of objects after a write at one address; `none` gives the object back.
abbrev pub update : {A : Type 0} → (Ptr → Option A) → Ptr → Option A → Ptr → Option A
update f p v q = if q == p then v else f q
