-- ===== src/Lib.antt =====
-- A host runtime of OpenCL for bare-metal devices: an application creates contexts, queues,
-- buffers, programs and kernels through the functions `in_cl*` of src/, which check handles and
-- call the objects of drivers/. The launch of a kernel writes the program's chunks and the kernel's
-- arguments to the memory of a device, lets the device run, polls a header in its memory, and
-- reads the buffers back. A device is reached through a table of functions, here those of the GDB
-- remote protocol, which talk to a simulator or a debugger over a socket.
--
-- The files and what they model (paths from the repository's root):
--   Common, Common/*: tests on numbers, lists over the native numbers, and their lemmas.
--   Cl: the status codes and constants of include/CL/cl.h that the code uses.
--   Runtime: the structs of include/drivers/*.h as records, and the state: the objects by their
--     addresses, the host's bytes, the blocks and results of calloc, the calls of the driver.
--     Runtime/Monad: runs that pass the state on or fault, and the shapes of the C code's early
--     returns. Runtime/Memory: mapped bytes, memcpy, calloc and free of blocks.
--     Runtime/Preserve: predicates that runs keep.
--   Handles: the checks `*_is_valid` of include/drivers/*.h and drivers/platform.c.
--   Kernel: drivers/kernel.c, with src/cl_kernel.c in Kernel/Api.
--   Mem: drivers/mem.c, with src/cl_mem.c and the buffer commands of src/cl_enqueue.c in Mem/Api.
--   Context: drivers/context.c, drivers/command_queue.c, src/cl_context.c and
--     src/cl_command_queue.c.
--   Program: drivers/program.c.
--   Elf, Elf/Header, Elf/Tables, Elf/Load: drivers/program_elf.c and src/cl_program.c. The layouts
--     and constants of elf.h are the parameter `ElfFormat`.
--   Device: of drivers/device.c the allocation and the calls through the driver's table.
--     Device/Registry: its list of devices and groups of drivers, and `in_clGetDeviceIDs` of
--     src/cl_device.c.
--   Setup: what drivers/gdb/gdb_remote.c and drivers/pci/pci_sysfs.c do alike with their devices:
--     `*_alloc_dev`, `*_free_dev`, and the loops of `*_init` and `*_exit`.
--   Pci: of drivers/pci/pci_sysfs.c the windows of a device and the copies to and from it. Pci/Enum:
--     `pci_sysfs_enum`. Pci/Config: `pci_sysfs_config`, `pci_sysfs_probe`, `pci_sysfs_remove`,
--     with the calls of the host in their order.
--     Pci/Setup: `pci_sysfs_init` and `pci_sysfs_exit`, with drivers/pci/pci_sysfs_test.c.
--   Platform: src/cl_platform.c and src/cl_icd.c, with the table of entry points in
--     Platform/Dispatch.
--   Stubs: the functions of src/ that are not implemented and return a constant.
--   Enqueue: `enqueue_arg` and `dequeue_arg` of src/cl_enqueue.c, with the launch
--     `in_clEnqueueNDRangeKernel` in Enqueue/Launch.
--   Gdb: drivers/gdb/gdb_remote.c. Gdb/Wire: single characters over the socket. Gdb/Hex: the
--     formats "%x", "%02x" and "%08x". Gdb/Packet: `gdb_remote_send`, `gdb_remote_recv`,
--     `gdb_remote_discard_all`. Gdb/Access: memory access, run, stop, and the reset of
--     drivers/gdb/gdb_remote_qemu.c. Gdb/Setup: `gdb_remote_init` and `gdb_remote_exit`, with the
--     tables of drivers/gdb/gdb_remote_openocd.c and drivers/gdb/gdb_remote_qemu.c.
--     Gdb/Setup/Socket: `gdb_remote_probe`, `gdb_remote_remove`, and the reset through OpenOCD.
--   The other modules below these hold proofs, named for what they prove. Tests: runs on small
--     inputs.
--
-- A function of the code has its name here, in lower case (`in_clCreateBuffer` is
-- `in_cl_create_buffer`). It takes the state and gives the state after it, with its status and the
-- variables of the caller that it writes through pointers. A pointer is its address; a use of an
-- object that is not alive, of bytes that are not mapped, and a write out of an array are faults,
-- as C gives them no meaning. Integers keep their width by `% 2 ^ 32` and `% 2 ^ 64`; the host is
-- little-endian with pointers of eight bytes. The checks of handles are those of a build with
-- OPENCL_ICD_ENABLE. What calloc returns, what the socket delivers and takes, and what a driver
-- answers to the calls it has had are parts of the state, which no definition restricts.
--
-- Loops over arrays are recursion on what is left of them. Loops that the code bounds (10000
-- rounds of polling) have that many rounds. The retry loops of the socket recur on the script of
-- its results, the resends of a packet and the loops of `gdb_remote_stop` and
-- `gdb_remote_discard_all` and of the resets on fuel that the script's length bounds, as each round takes a
-- character; the loops of memory access on the number of bytes, as each round moves one at least.
-- A walk along the links of the devices takes fuel and ends in `out_of_fuel` without it; more fuel
-- than the list has devices is enough, and where the links form a cycle no fuel is.
--
-- What the resolver, the calls that make a socket, getenv, sscanf, open, mmap, and the reads and
-- writes of the configuration space answer is given to the functions that call them, as arguments.
--
-- Not modelled: the copy of the Khronos headers, but for the order of the dispatch table; the texts
-- of paths; the functions that only write to the log; the test programs. A call of a driver through
-- its table is recorded and answered; what the function does to the driver's own data is given to
-- `*_init` as `probe`, and otherwise not seen. Threads are not modelled: the runtime has no lock,
-- and each function is one step.
pub mod Common
pub mod Cl
pub mod Runtime
pub mod Handles
pub mod Kernel
pub mod Mem
pub mod Context
pub mod Program
pub mod Elf
pub mod Device
pub mod Setup
pub mod Pci
pub mod Platform
pub mod Stubs
pub mod Enqueue
pub mod Gdb
pub mod Tests
