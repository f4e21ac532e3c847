-- ===== src/Elf/Bounds.antt =====
-- Where the tables of a file lie that passes the check of its header, and that reading them ends.
use native.Mathlib.Nat.{mul-le-mul_right, mul-le-mul}
use baremetal_crt_host.Common.{ℕ, ◌+◌, ◌*◌, ◌^◌, ◌≤◌, ◌<◌, ◌≡◌, List, length, arith}
use baremetal_crt_host.Cl.{Status, u32_mod, u64_mod}
use baremetal_crt_host.Runtime.{Ptr, ElfInfo, PrgHeader, SecHeader}
use baremetal_crt_host.Runtime.Monad.{M}
use baremetal_crt_host.Runtime.Memory.{ByteMap}
use baremetal_crt_host.Elf.{ElfFormat, PhdrFormat, ShdrFormat, plus}
use baremetal_crt_host.Elf.Header.{table_end, prg_elf_is_valid_header}
use baremetal_crt_host.Elf.Tables.{read_phdr, read_shdr, entry_at, read_table}
use baremetal_crt_host.Elf.Mapped.{
  IsMapped, Reads, IsPhdrFormat, IsShdrFormat, read_table-length, read_phdr-IsMapped,
  read_shdr-IsMapped,
}

-- A table of `num` entries of `size` bytes, where neither the product nor the sum wraps
abbrev pub FitsWords : (off num size : ℕ) → Type 0
FitsWords off num size = (num < 2 ^ 16) × (size < 2 ^ 16) × (off + num * size < u64_mod)

entry-Inside :
    (off num size total i : ℕ)
    → FitsWords off num size
    → table_end off num size ≤ total
    → i < num
    → (i * size < u32_mod) × (off + i * size + size ≤ total)
entry-Inside off num size total i (few, small, fits) stop lt =
    let below : (i + 1) * size ≤ num * size = mul-le-mul_right size (omega arith) in
    let few' : num ≤ 0xffff = omega arith in
    let small' : size ≤ 0xffff = omega arith in
    let product : num * size ≤ 0xffff * 0xffff = mul-le-mul few' small' in
    (omega arith, omega arith)

-- Every entry of a table in a mapped file can be read.
pub table-IsMapped :
    {A : Type 0} (read : Ptr → M A) (struct_size : ℕ) (m : ByteMap) (buf off num size total : ℕ)
    → ((p : Ptr) → IsMapped m p struct_size → (a : A) × Reads m (read p) a)
    → IsMapped m buf total
    → struct_size ≤ size
    → FitsWords off num size
    → table_end off num size ≤ total
    → (xs : List A) × Reads m (read_table read (plus buf off) size num 0) xs × (length xs ≡ num)
table-IsMapped read struct_size m buf off num size total can mapped big fits stop =
    read_table-length read (plus buf off) size num 0 m λ j a lt.
      let (narrow, inside) = entry-Inside off num size total j fits stop (omega arith) in
      let at : entry_at (plus buf off) size j ≡ buf + (off + j * size) =
        omega (arith, mapped.0, narrow, inside) in
      let here : IsMapped m (buf + (off + j * size)) struct_size = (
        omega (arith, mapped.0, inside),
        λ q x y. mapped.1 q (omega arith) (omega (arith, inside)),
      ) in
      rw at (can (buf + (off + j * size)) here)

-- The check of the header compares the ends of both tables with the file's size.
pub valid_table_ends :
    (fmt : ElfFormat) (elf : ElfInfo)
    → prg_elf_is_valid_header fmt elf ≡ Status.success
    → (table_end elf.e_phoff elf.e_phnum elf.e_phentsize ≤ elf.elf_size)
      × (table_end elf.e_shoff elf.e_shnum elf.e_shentsize ≤ elf.elf_size)
unfolding prg_elf_is_valid_header
valid_table_ends fmt elf ok = (ground arith, ground arith)

-- A file of which every byte is mapped, whose header passes `prg_elf_is_valid_header`, with tables
-- of fewer than 2^16 entries of fewer than 2^16 bytes, entries that hold the structs of elf.h, and
-- offsets whose sum with the table's length does not reach 2^64: both loops that read the tables
-- end without a read outside the file, with `e_phnum` and `e_shnum` headers.
pub read_tables-IsMapped :
    (fmt : ElfFormat) (elf : ElfInfo) (pf : PhdrFormat) (sf : ShdrFormat) (m : ByteMap)
    → prg_elf_is_valid_header fmt elf ≡ Status.success
    → IsMapped m elf.buf elf.elf_size
    → IsPhdrFormat pf
    → IsShdrFormat sf
    → pf.size ≤ elf.e_phentsize
    → sf.size ≤ elf.e_shentsize
    → FitsWords elf.e_phoff elf.e_phnum elf.e_phentsize
    → FitsWords elf.e_shoff elf.e_shnum elf.e_shentsize
    → ((phs : List PrgHeader) × Reads m
          (read_table (read_phdr pf) (plus elf.buf elf.e_phoff) elf.e_phentsize elf.e_phnum 0)
          phs
        × (length phs ≡ elf.e_phnum))
      × ((shs : List SecHeader) × Reads m
            (read_table (read_shdr sf) (plus elf.buf elf.e_shoff) elf.e_shentsize elf.e_shnum 0)
            shs
          × (length shs ≡ elf.e_shnum))
read_tables-IsMapped fmt elf pf sf m ok mapped pf_ok sf_ok big_p big_s fits_p fits_s =
    let (stop_p, stop_s) = valid_table_ends fmt elf ok in
    (
      table-IsMapped (read_phdr pf) pf.size m elf.buf elf.e_phoff elf.e_phnum elf.e_phentsize
          elf.elf_size (λ p there. read_phdr-IsMapped pf p m pf_ok there) mapped big_p fits_p
          stop_p,
      table-IsMapped (read_shdr sf) sf.size m elf.buf elf.e_shoff elf.e_shnum elf.e_shentsize
          elf.elf_size (λ p there. read_shdr-IsMapped sf p m sf_ok there) mapped big_s fits_s
          stop_s,
    )
