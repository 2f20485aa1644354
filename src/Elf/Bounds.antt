-- ===== src/Elf/Bounds.antt =====
-- `load_at` of `src/kern/crates/avaria-elf/src/loader.rs` stays inside its buffer.
use avaria.Prelude.{
  ℕ, ◌+◌, ◌-◌, ◌*◌, ◌^◌, ◌<◌, ◌≤◌, ◌≡◌, refl, ◌∙◌, ◌≢◌, arith, Bool, true, false, not,
}
use avaria.Prelude.{◌==◌, ltb, Bool-cases, inl, inr, ltb→le, le→ltb, if◌then◌else◌, List, ◌++◌}
use avaria.Prelude.{
  length, take, drop, get_or, ◌&&◌, length-append, length-take, length-drop, length-replicate,
  replicate, add_w, sub_w,
}
use avaria.Elf.{
  Elf64Header, Elf64Phdr, ElfError, has_magic, too_small, bad_magic, not_64_bit, not_little_endian,
  not_executable, not_x86_64, bad_phdr, header_of, phdrs_at, Outcome, ok, err, panics,
  out_of_bounds, is_load, span, splice, copy_segments,
}
use avaria.Elf.{
  load_segments, load_after, load_at, LoadedElf, program_headers, then_with, load_parsed,
  parse_header,
}
use avaria.Elf.Span.{
  AllFit, no_more, one_more, AllWithin, none_within, one_within, span-AllWithin, span-lt,
}

length-splice :
    (buffer : List ℕ) (off : ℕ) (bytes : List ℕ)
    → off + length bytes ≤ length buffer
    → length (splice buffer off bytes) ≡ length buffer
length-splice buffer off bytes h = omega (
  arith,
  length-append (take off buffer ++ bytes) (drop (off + length bytes) buffer),
  length-append (take off buffer) bytes,
  length-take off buffer,
  length-drop (off + length bytes) buffer,
)

-- A run of the second loop that did not panic, over a buffer that kept its length.
abbrev Kept : List ℕ → List ℕ × Outcome ℕ → Type 0
Kept buffer r = (length r.0 ≡ length buffer) × (r.1 ≢ panics) × (r.1 ≢ out_of_bounds)

copy_segments-Kept :
    (bytes : List ℕ) (lo hi : ℕ) {phs : List Elf64Phdr} (buffer : List ℕ)
    → hi < 2 ^ 64
    → hi - lo ≤ length buffer
    → AllFit phs
    → AllWithin lo hi phs
    → Kept buffer (copy_segments bytes lo phs buffer)
unfolding copy_segments
copy_segments-Kept bytes lo hi buffer small room no_more none_within =
    (refl, λ e. absurd (cc), λ e. absurd (cc))
copy_segments-Kept bytes lo hi buffer small room (one_more {ph} {phs} f fs) (one_within w ws) =
    elim (Bool-cases (is_load ph)) [
      | inr e ↦ rw e (copy_segments-Kept bytes lo hi buffer small room fs ws)
      | inl e ↦
          let fit = f e in
          let within = w e in
          let src_end = add_w 64 ph.p_offset ph.p_filesz in
          let dst_off = sub_w 64 ph.p_vaddr lo in
          let dst_end = add_w 64 dst_off ph.p_filesz in
          let segment = take ph.p_filesz (drop ph.p_offset bytes) in
          let src : src_end ≡ ph.p_offset + ph.p_filesz = omega (arith, fit.in_file) in
          let dst : dst_off ≡ ph.p_vaddr - lo = omega (arith, within, small) in
          let dst' : dst_end ≡ ph.p_vaddr - lo + ph.p_filesz =
            omega (arith, within, small, fit.covered) in
          elim (Bool-cases (ltb (length bytes) src_end)) [
            | inl short ↦ rw (e, short) (refl, λ q. absurd (cc), λ q. absurd (cc))
            | inr long ↦
                let inside = ltb→le _ _ long in
                let size : length segment ≡ ph.p_filesz = omega (
                  arith,
                  length-take ph.p_filesz (drop ph.p_offset bytes),
                  length-drop ph.p_offset bytes,
                ) in
                let same =
                  length-splice buffer dst_off segment (omega (arith, within, fit.covered)) in
                let rest =
                  copy_segments-Kept bytes lo hi (splice buffer dst_off segment) small
                    (omega (arith, same)) fs ws in
                rw
                  (
                    e,
                    long,
                    le→ltb dst_end dst_off (omega arith),
                    le→ltb (length buffer) dst_end (omega (arith, within, fit.covered)),
                    le→ltb src_end ph.p_offset (omega arith),
                  )
                  (rest.0 ∙ same, rest.1, rest.2)
          ]
    ]

-- A function that returns a value or an error.
data Returns {ℓ} {A : Type ℓ} (a : A) : Outcome A → Type ℓ where
  with_value : Returns a (ok a)
  with_error : (e : ElfError) → Returns a (err e)

if_Returns {ℓ} :
    {A : Type ℓ} {a : A} (b : Bool) (e : ElfError) (o : Outcome A)
    → Returns a o
    → Returns a (if b then err e else o)
if_Returns true e o r = with_error e
if_Returns false e o r = r

parse_header-Returns : (bytes : List ℕ) → Returns (header_of bytes) (parse_header bytes)
unfolding parse_header
parse_header-Returns bytes =
    let hdr = header_of bytes in
    if_Returns (ltb (length bytes) 64) too_small _ (
      if_Returns (not (has_magic hdr.e_ident)) bad_magic _ (
        if_Returns (not (get_or hdr.e_ident 4 0 == 2)) not_64_bit _ (
          if_Returns (not (get_or hdr.e_ident 5 0 == 1)) not_little_endian _ (
            if_Returns (not (hdr.e_type == 2) && not (hdr.e_type == 3)) not_executable _
              (if_Returns (not (hdr.e_machine == 62)) not_x86_64 (ok hdr) with_value)))))

enough : (n size : ℕ) → 56 ≤ size → n * 56 ≤ n * size
enough n size h = grind arith

program_headers-Returns :
    (bytes : List ℕ) (hdr : Elf64Header)
    → hdr.e_phoff + hdr.e_phnum * hdr.e_phentsize < 2 ^ 64
    → Returns (phdrs_at bytes hdr.e_phnum hdr.e_phoff) (program_headers bytes hdr)
unfolding program_headers
program_headers-Returns bytes hdr straight =
    let total = add_w 64 hdr.e_phoff (hdr.e_phnum * hdr.e_phentsize) in
    let whole : total ≡ hdr.e_phoff + hdr.e_phnum * hdr.e_phentsize = omega (arith, straight) in
    elim (Bool-cases (ltb (length bytes) total)) [
      | inl e ↦ rw e (with_error bad_phdr)
      | inr e ↦ elim (Bool-cases (ltb hdr.e_phentsize 56)) [
        | inl q ↦ rw (e, q) (with_error bad_phdr)
        | inr q ↦
            let wide = enough hdr.e_phnum hdr.e_phentsize (ltb→le _ _ q) in
            let inside : hdr.e_phoff + hdr.e_phnum * 56 ≤ length bytes =
              omega (arith, whole, wide, ltb→le _ _ e) in
            rw (e, q, le→ltb (length bytes) (hdr.e_phoff + hdr.e_phnum * 56) inside) with_value
      ]
    ]

-- A run of the loader that did not panic and read nothing beyond its data, over a buffer that kept its
-- length.
abbrev pub Loaded : List ℕ → List ℕ × Outcome LoadedElf → Type 0
Loaded buffer r = (length r.0 ≡ length buffer) × (r.1 ≢ panics) × (r.1 ≢ out_of_bounds)

then_with-ne-panics :
    {A : Type 0} {B : Type 0} (o : Outcome A) (f : A → B)
    → (o ≢ panics) × (o ≢ out_of_bounds)
    → (then_with o (λ a. ok (f a)) ≢ panics) × (then_with o (λ a. ok (f a)) ≢ out_of_bounds)
unfolding then_with
then_with-ne-panics (ok a) f ne = (λ e. absurd (cc), λ e. absurd (cc))
then_with-ne-panics (err x) f ne = (λ e. absurd (cc), λ e. absurd (cc))
then_with-ne-panics panics f ne = absurd (ne.0 refl)
then_with-ne-panics out_of_bounds f ne = absurd (ne.1 refl)

load_segments-Loaded :
    (bytes : List ℕ) (hdr : Elf64Header) (base : ℕ) (buffer : List ℕ) (phs : List Elf64Phdr)
    → AllFit phs
    → Loaded buffer (load_segments bytes hdr base buffer phs)
unfolding load_segments
load_segments-Loaded bytes hdr base buffer phs fits =
    let lo = (span phs (2 ^ 64 - 1) 0).0 in
    let hi = (span phs (2 ^ 64 - 1) 0).1 in
    let total = sub_w 64 hi lo in
    let cleared = replicate total 0 ++ drop total buffer in
    elim (Bool-cases (lo == 2 ^ 64 - 1)) [
      | inl e ↦ rw e (refl, λ q. absurd (cc), λ q. absurd (cc))
      | inr e ↦ elim (Bool-cases (ltb (length buffer) total)) [
        | inl short ↦ rw (e, short) (refl, λ q. absurd (cc), λ q. absurd (cc))
        | inr long ↦
            let room = ltb→le _ _ long in
            let size : length cleared ≡ length buffer = omega (
              arith,
              length-append (replicate total 0) (drop total buffer),
              length-replicate {A = ℕ} total 0,
              length-drop total buffer,
            ) in
            let small = span-lt phs (2 ^ 64 - 1) 0 (omega arith) in
            let copied =
              copy_segments-Kept bytes lo hi cleared small (omega (arith, size, small)) fits
                (span-AllWithin (2 ^ 64 - 1) 0 fits) in
            let ends = then_with-ne-panics _ _ (copied.1, copied.2) in
            rw (e, long) (copied.0 ∙ size, ends.0, ends.1)
      ]
    ]

load_after-Loaded :
    (bytes : List ℕ) (hdr : Elf64Header) (base : ℕ) (buffer : List ℕ) {phs : List Elf64Phdr}
    {o : Outcome (List Elf64Phdr)}
    → Returns phs o
    → AllFit phs
    → Loaded buffer (load_after bytes base buffer hdr o)
unfolding load_after
load_after-Loaded bytes hdr base buffer {phs} with_value fits =
    load_segments-Loaded bytes hdr base buffer phs fits
load_after-Loaded bytes hdr base buffer (with_error e) fits =
    (refl, λ q. absurd (cc), λ q. absurd (cc))

load_parsed-Loaded :
    (bytes : List ℕ) (base : ℕ) (buffer : List ℕ) {hdr : Elf64Header} {o : Outcome Elf64Header}
    → Returns hdr o
    → hdr.e_phoff + hdr.e_phnum * hdr.e_phentsize < 2 ^ 64
    → AllFit (phdrs_at bytes hdr.e_phnum hdr.e_phoff)
    → Loaded buffer (load_parsed bytes base buffer o)
unfolding load_parsed
load_parsed-Loaded bytes base buffer {hdr} with_value straight fits =
    load_after-Loaded bytes hdr base buffer (program_headers-Returns bytes hdr straight) fits
load_parsed-Loaded bytes base buffer (with_error e) straight fits =
    (refl, λ q. absurd (cc), λ q. absurd (cc))

-- When the table of program headers does not wrap around the address space, and every loadable segment
-- that the program headers name is no longer in the file than in memory, and neither its addresses nor
-- its offsets wrap, `load_at` returns a program or an error: no slice is out of bounds, no program header
-- is read beyond the data, and the buffer keeps its length.
pub load_at-Loaded :
    (bytes : List ℕ) (base : ℕ) (buffer : List ℕ)
    → (header_of bytes).e_phoff + (header_of bytes).e_phnum * (header_of bytes).e_phentsize < 2 ^ 64
    → AllFit (phdrs_at bytes (header_of bytes).e_phnum (header_of bytes).e_phoff)
    → Loaded buffer (load_at bytes base buffer)
unfolding load_at
load_at-Loaded bytes base buffer straight fits =
    load_parsed-Loaded bytes base buffer (parse_header-Returns bytes) straight fits
