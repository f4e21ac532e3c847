-- ===== src/Elf/Mapped.antt =====
-- Reads of the structs of a file whose bytes are mapped.
use baremetal_crt_host.Common.{
  ℕ, zero, suc, ◌+◌, ◌%◌, ◌≤◌, ◌<◌, ◌≡◌, refl, some, List, [], ◌∷◌, Bytes, length, arith,
}
use baremetal_crt_host.Cl.{u32_mod, u64_mod}
use baremetal_crt_host.Runtime.{Ptr, null, PrgHeader, SecHeader, World}
use baremetal_crt_host.Runtime.Monad.{done, M}
use baremetal_crt_host.Runtime.Memory.{ByteMap, peek, le_value}
use baremetal_crt_host.Elf.{Field, PhdrFormat, ShdrFormat, plus, read_uint, read_u32, read_u64}
use baremetal_crt_host.Elf.Tables.{read_phdr, read_shdr, entry_at, read_table}

-- The `n` bytes from `p` on are mapped, in front of the end of the address space.
abbrev pub IsMapped : ByteMap → Ptr → ℕ → Type 0
IsMapped m p n = (p + n < u64_mod) × ((q : ℕ) → p ≤ q → q < p + n → (b : ℕ) × (m q ≡ some b))

-- Whatever else the state holds, the run gives `a` and changes nothing.
abbrev pub Reads : {A : Type 0} → ByteMap → M A → A → Type 0
Reads m read a = (w : World) → w.memory ≡ m → read w ≡ done a w

-- A member that lies in a struct of `size` bytes
abbrev pub Inside : ℕ → Field → Type 0
Inside size f = f.at + f.width ≤ size

-- The members of a program header lie in it.
abbrev pub IsPhdrFormat : PhdrFormat → Type 0
IsPhdrFormat f =
    Inside f.size f.p_type
    × Inside f.size f.p_flags
    × Inside f.size f.p_offset
    × Inside f.size f.p_vaddr
    × Inside f.size f.p_paddr
    × Inside f.size f.p_filesz
    × Inside f.size f.p_memsz
    × Inside f.size f.p_align

abbrev pub IsShdrFormat : ShdrFormat → Type 0
IsShdrFormat f =
    Inside f.size f.sh_name
    × Inside f.size f.sh_type
    × Inside f.size f.sh_flags
    × Inside f.size f.sh_addr
    × Inside f.size f.sh_offset
    × Inside f.size f.sh_size
    × Inside f.size f.sh_link
    × Inside f.size f.sh_info
    × Inside f.size f.sh_addralign
    × Inside f.size f.sh_entsize

peek_mapped :
    (m : ByteMap) (p n : ℕ)
    → ((q : ℕ) → p ≤ q → q < p + n → (b : ℕ) × (m q ≡ some b))
    → (bs : Bytes) × (peek m p n ≡ some bs)
unfolding peek
peek_mapped m p zero h = ([], refl)
peek_mapped m p (suc n) h =
    let (b, e) = h p (omega arith) (omega arith) in
    let (bs, e') = peek_mapped m (p + 1) n λ q a c. h q (omega arith) (omega arith) in
    (b ∷ bs, ground arith)

read_uint-IsMapped : (p n : ℕ) (m : ByteMap) → IsMapped m p n → (v : ℕ) × Reads m (read_uint p n) v
unfolding read_uint
read_uint-IsMapped p n m h =
    let (bs, e) = peek_mapped m p n h.1 in (le_value bs, λ w same. ground arith)

module _ (p size : ℕ) (m : ByteMap) (mapped : IsMapped m p size) (f : Field)
    (inside : Inside size f) where
  read_field : (v : ℕ) × Reads m (read_uint (plus p f.at) f.width) v
  read_field =
      let same : plus p f.at ≡ p + f.at = omega (arith, mapped.0, inside) in
      rw same (
        read_uint-IsMapped (p + f.at) f.width m (
          omega (arith, mapped.0, inside),
          λ q a b. mapped.1 q (omega arith) (omega (arith, inside)),
        ))

  read_u32-IsMapped : (v : ℕ) × Reads m (read_u32 p f) v
  unfolding read_u32
  read_u32-IsMapped = let (v, e) = read_field in (v % u32_mod, λ w same. rw (e w same) refl)

  read_u64-IsMapped : (v : ℕ) × Reads m (read_u64 p f) v
  unfolding read_u64
  read_u64-IsMapped = let (v, e) = read_field in (v % u64_mod, λ w same. rw (e w same) refl)

-- A table whose entries can be read
pub read_table-length :
    {A : Type 0} (read : Ptr → M A) (ent size left i : ℕ) (m : ByteMap)
    → ((j : ℕ) → i ≤ j → j < i + left → (a : A) × Reads m (read (entry_at ent size j)) a)
    → (xs : List A) × Reads m (read_table read ent size left i) xs × (length xs ≡ left)
unfolding read_table
read_table-length read ent size zero i m h = ([], λ w same. refl, refl)
read_table-length read ent size (suc left) i m h =
    let (a, e) = h i (omega arith) (omega arith) in
    let (xs, e', n) =
      read_table-length read ent size left (i + 1) m λ j a b. h j (omega arith) (omega arith) in
    (a ∷ xs, λ w same. ground (arith, e w same, e' w same), omega (arith, n))

pub read_phdr-IsMapped :
    (f : PhdrFormat) (p : ℕ) (m : ByteMap)
    → IsPhdrFormat f
    → IsMapped m p f.size
    → (h : PrgHeader) × Reads m (read_phdr f p) h
unfolding read_phdr
read_phdr-IsMapped f p m (i0, i1, i2, i3, i4, i5, i6, i7) mapped =
    let (v0, e0) = read_u32-IsMapped p f.size m mapped f.p_type i0 in
    let (v1, e1) = read_u32-IsMapped p f.size m mapped f.p_flags i1 in
    let (v2, e2) = read_u64-IsMapped p f.size m mapped f.p_offset i2 in
    let (v3, e3) = read_u64-IsMapped p f.size m mapped f.p_vaddr i3 in
    let (v4, e4) = read_u64-IsMapped p f.size m mapped f.p_paddr i4 in
    let (v5, e5) = read_u64-IsMapped p f.size m mapped f.p_filesz i5 in
    let (v6, e6) = read_u64-IsMapped p f.size m mapped f.p_memsz i6 in
    let (v7, e7) = read_u64-IsMapped p f.size m mapped f.p_align i7 in
    let h : PrgHeader = record {
      p_type = v0;
      p_flags = v1;
      p_offset = v2;
      p_vaddr = v3;
      p_paddr = v4;
      p_filesz = v5;
      p_memsz = v6;
      p_align = v7;
      index = 0;
      src = null;
    } in
    (
      h,
      λ w same.
          rw
            (e0 w same, e1 w same, e2 w same, e3 w same, e4 w same, e5 w same, e6 w same, e7 w same)
            refl,
    )

pub read_shdr-IsMapped :
    (f : ShdrFormat) (p : ℕ) (m : ByteMap)
    → IsShdrFormat f
    → IsMapped m p f.size
    → (h : SecHeader) × Reads m (read_shdr f p) h
unfolding read_shdr
read_shdr-IsMapped f p m (i0, i1, i2, i3, i4, i5, i6, i7, i8, i9) mapped =
    let (v0, e0) = read_u32-IsMapped p f.size m mapped f.sh_name i0 in
    let (v1, e1) = read_u32-IsMapped p f.size m mapped f.sh_type i1 in
    let (v2, e2) = read_u64-IsMapped p f.size m mapped f.sh_flags i2 in
    let (v3, e3) = read_u64-IsMapped p f.size m mapped f.sh_addr i3 in
    let (v4, e4) = read_u64-IsMapped p f.size m mapped f.sh_offset i4 in
    let (v5, e5) = read_u64-IsMapped p f.size m mapped f.sh_size i5 in
    let (v6, e6) = read_u32-IsMapped p f.size m mapped f.sh_link i6 in
    let (v7, e7) = read_u32-IsMapped p f.size m mapped f.sh_info i7 in
    let (v8, e8) = read_u64-IsMapped p f.size m mapped f.sh_addralign i8 in
    let (v9, e9) = read_u64-IsMapped p f.size m mapped f.sh_entsize i9 in
    let h : SecHeader = record {
      sh_name = v0;
      sh_type = v1;
      sh_flags = v2;
      sh_addr = v3;
      sh_offset = v4;
      sh_size = v5;
      sh_link = v6;
      sh_info = v7;
      sh_addralign = v8;
      sh_entsize = v9;
    } in
    (
      h,
      λ w same.
          rw
            (
              e0 w same,
              e1 w same,
              e2 w same,
              e3 w same,
              e4 w same,
              e5 w same,
              e6 w same,
              e7 w same,
              e8 w same,
              e9 w same,
            )
            refl,
    )
