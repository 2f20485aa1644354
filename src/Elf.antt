-- ===== src/Elf.antt =====
-- `src/kern/crates/avaria-elf`: the headers of an executable, read from its bytes, and the loader.
-- A slice out of bounds panics.
pub mod Span
pub mod Bounds
mod Tests
use package.avaria.Prelude.{
  ℕ, zero, suc, ◌+◌, ◌-◌, ◌*◌, ◌^◌, Bool, true, false, not, ◌==◌, ltb, ◌&&◌, ◌||◌,
}
use package.avaria.Prelude.{
  if◌then◌else◌, List, [], ◌∷◌, ◌++◌, length, take, drop, get_or, replicate, add_w, sub_w, le_field,
}

pub record Elf64Header : Type 0 where
  pub e_ident : List ℕ
  pub e_type : ℕ
  pub e_machine : ℕ
  pub e_version : ℕ
  pub e_entry : ℕ
  pub e_phoff : ℕ
  pub e_shoff : ℕ
  pub e_flags : ℕ
  pub e_ehsize : ℕ
  pub e_phentsize : ℕ
  pub e_phnum : ℕ
  pub e_shentsize : ℕ
  pub e_shnum : ℕ
  pub e_shstrndx : ℕ

pub record Elf64Phdr : Type 0 where
  pub p_type : ℕ
  pub p_flags : ℕ
  pub p_offset : ℕ
  pub p_vaddr : ℕ
  pub p_paddr : ℕ
  pub p_filesz : ℕ
  pub p_memsz : ℕ
  pub p_align : ℕ

pub data ElfError : Type 0 where
  too_small bad_magic not_64_bit not_little_endian not_executable not_x86_64 bad_phdr : ElfError

-- How a function returns: a value, an error, or not at all, by a panic; or what it does is not defined,
-- since it reads beyond the data.
pub data Outcome {ℓ} (A : Type ℓ) : Type ℓ where
  ok : A → Outcome A
  err : ElfError → Outcome A
  panics : Outcome A
  out_of_bounds : Outcome A

pub then_with {ℓ ℓ'} : {A : Type ℓ} {B : Type ℓ'} → Outcome A → (A → Outcome B) → Outcome B
then_with (ok a) f = f a
then_with (err e) f = err e
then_with panics f = panics
then_with out_of_bounds f = out_of_bounds

-- The `repr(C)` layout of the header: 64 bytes.
pub header_of : List ℕ → Elf64Header
header_of bytes = record {
  e_ident = take 16 bytes;
  e_type = le_field bytes 16 2;
  e_machine = le_field bytes 18 2;
  e_version = le_field bytes 20 4;
  e_entry = le_field bytes 24 8;
  e_phoff = le_field bytes 32 8;
  e_shoff = le_field bytes 40 8;
  e_flags = le_field bytes 48 4;
  e_ehsize = le_field bytes 52 2;
  e_phentsize = le_field bytes 54 2;
  e_phnum = le_field bytes 56 2;
  e_shentsize = le_field bytes 58 2;
  e_shnum = le_field bytes 60 2;
  e_shstrndx = le_field bytes 62 2;
}

-- The layout of a program header at `off`: 56 bytes.
pub phdr_of : List ℕ → ℕ → Elf64Phdr
phdr_of bytes off = record {
  p_type = le_field bytes off 4;
  p_flags = le_field bytes (off + 4) 4;
  p_offset = le_field bytes (off + 8) 8;
  p_vaddr = le_field bytes (off + 16) 8;
  p_paddr = le_field bytes (off + 24) 8;
  p_filesz = le_field bytes (off + 32) 8;
  p_memsz = le_field bytes (off + 40) 8;
  p_align = le_field bytes (off + 48) 8;
}

abbrev pub has_magic : List ℕ → Bool
has_magic ident =
    get_or ident 0 0 == 0x7F
    && get_or ident 1 0 == b'E'
    && get_or ident 2 0 == b'L'
    && get_or ident 3 0 == b'F'

pub parse_header : List ℕ → Outcome Elf64Header
unfolding header_of
parse_header bytes =
    let hdr = header_of bytes in
    if ltb (length bytes) 64
    then err too_small
    else if not (has_magic hdr.e_ident)
    then err bad_magic
    else if not (get_or hdr.e_ident 4 0 == 2)
    then err not_64_bit
    else if not (get_or hdr.e_ident 5 0 == 1)
    then err not_little_endian
    else if not (hdr.e_type == 2) && not (hdr.e_type == 3)
    then err not_executable
    else if not (hdr.e_machine == 62)
    then err not_x86_64
    else ok hdr

-- `from_raw_parts`: `count` headers of 56 bytes each.
pub phdrs_at : List ℕ → ℕ → ℕ → List Elf64Phdr
unfolding phdr_of
phdrs_at bytes zero off = []
phdrs_at bytes (suc count) off = phdr_of bytes off ∷ phdrs_at bytes count (off + 56)

-- The check is on the sum that wraps; the slice is not checked again.
pub program_headers : List ℕ → Elf64Header → Outcome (List Elf64Phdr)
unfolding phdrs_at
program_headers bytes hdr =
    let total = add_w 64 hdr.e_phoff (hdr.e_phnum * hdr.e_phentsize) in
    if ltb (length bytes) total || ltb hdr.e_phentsize 56
    then err bad_phdr
    else if ltb (length bytes) (hdr.e_phoff + hdr.e_phnum * 56)
    then out_of_bounds
    else ok (phdrs_at bytes hdr.e_phnum hdr.e_phoff)

pub record LoadedElf : Type 0 where
  pub entry : ℕ
  pub load_base : ℕ
  pub load_size : ℕ

abbrev pub is_load : Elf64Phdr → Bool
is_load ph = ph.p_type == 1

-- The first loop of `load_at`: the least address and the greatest end so far.
pub span : List Elf64Phdr → ℕ → ℕ → ℕ × ℕ
span [] lo hi = (lo, hi)
span (ph ∷ phs) lo hi =
    let end = add_w 64 ph.p_vaddr ph.p_memsz in
    let next =
      span phs (if ltb ph.p_vaddr lo then ph.p_vaddr else lo) (if ltb hi end then end else hi) in
    let skip = span phs lo hi in if is_load ph then next else skip

-- `buffer[at..at + bytes.len()].copy_from_slice(bytes)`
abbrev pub splice : List ℕ → ℕ → List ℕ → List ℕ
splice buffer off bytes = take off buffer ++ bytes ++ drop (off + length bytes) buffer

-- Whether `from..to` is a slice of `n` elements.
abbrev pub slices : ℕ → ℕ → ℕ → Bool
slices n from to = not (ltb to from) && not (ltb n to)

-- The second loop: the buffer that is left, and how the loop ends.
pub copy_segments : List ℕ → ℕ → List Elf64Phdr → List ℕ → List ℕ × Outcome ℕ
copy_segments bytes lo [] buffer = (buffer, ok 0)
copy_segments bytes lo (ph ∷ phs) buffer =
    let src_end = add_w 64 ph.p_offset ph.p_filesz in
    let dst_off = sub_w 64 ph.p_vaddr lo in
    let dst_end = add_w 64 dst_off ph.p_filesz in
    let skip = copy_segments bytes lo phs buffer in
    let next =
      copy_segments bytes lo phs
        (splice buffer dst_off (take ph.p_filesz (drop ph.p_offset bytes))) in
    if not (is_load ph)
    then skip
    else if ltb (length bytes) src_end
    then (buffer, err bad_phdr)
    else if slices (length buffer) dst_off dst_end && slices (length bytes) ph.p_offset src_end
    then next
    else (buffer, panics)

-- `load_at` after the headers; `base` is the address of the buffer.
pub load_segments : List ℕ → Elf64Header → ℕ → List ℕ → List Elf64Phdr → List ℕ × Outcome LoadedElf
unfolding span copy_segments then_with
load_segments bytes hdr base buffer phs =
    let (lo, hi) = span phs (2 ^ 64 - 1) 0 in
    let total = sub_w 64 hi lo in
    let cleared = replicate total 0 ++ drop total buffer in
    let (buffer', copied) = copy_segments bytes lo phs cleared in
    if lo == 2 ^ 64 - 1
    then (buffer, err bad_phdr)
    else if ltb (length buffer) total
    then (buffer, err bad_phdr)
    else (
      buffer',
      then_with copied λ _. ok (record {
        entry = add_w 64 hdr.e_entry (sub_w 64 base lo);
        load_base = base;
        load_size = total;
      }),
    )

-- `load_at` is its two `?`, then `load_segments`.
pub load_after :
    List ℕ → ℕ → List ℕ → Elf64Header → Outcome (List Elf64Phdr) → List ℕ × Outcome LoadedElf
unfolding load_segments
load_after bytes base buffer hdr (ok phs) = load_segments bytes hdr base buffer phs
load_after bytes base buffer hdr (err e) = (buffer, err e)
load_after bytes base buffer hdr panics = (buffer, panics)
load_after bytes base buffer hdr out_of_bounds = (buffer, out_of_bounds)

pub load_parsed : List ℕ → ℕ → List ℕ → Outcome Elf64Header → List ℕ × Outcome LoadedElf
unfolding load_after program_headers
load_parsed bytes base buffer (ok hdr) =
    load_after bytes base buffer hdr (program_headers bytes hdr)
load_parsed bytes base buffer (err e) = (buffer, err e)
load_parsed bytes base buffer panics = (buffer, panics)
load_parsed bytes base buffer out_of_bounds = (buffer, out_of_bounds)

unfoldable pub load_at : List ℕ → ℕ → List ℕ → List ℕ × Outcome LoadedElf
unfolding load_parsed parse_header
load_at bytes base buffer = load_parsed bytes base buffer (parse_header bytes)
