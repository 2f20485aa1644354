-- ===== src/Arch/Tss/Installed.antt =====
-- The task state segment of `src/kern/arch/x86_64/tss.rs` as the processor finds it through the
-- descriptor that `install_tss` of `gdt.rs` makes.
use package.avaria.Prelude.{
  ℕ, ◌+◌, ◌*◌, ◌^◌, ◌<◌, ◌≡◌, ◌≢◌, refl, sym, ap, ◌∙◌, arith, List, length, length-set, get_or, set,
  get_or-set_self, get_or-set_ne, le_field, le_value, le_value-le_bytes, take-append_le_bytes,
}
use package.avaria.Arch.Gdt.{GdtEntry, entry_null, tss_low, tss_high, install_tss}
use package.avaria.Arch.Gdt.Fields.{base_of, limit_of}
use package.avaria.Arch.Tss.{Tss, rest_bytes, tss_bytes, tss_size, set_kernel_stack}

abbrev pub descriptor : List GdtEntry → ℕ → GdtEntry
descriptor gdt i = get_or gdt i entry_null

-- The base of a system descriptor of 16 bytes.
abbrev pub long_base_of : GdtEntry → GdtEntry → ℕ
long_base_of low high = base_of low + 2 ^ 32 * (high.limit_low + 2 ^ 16 * high.base_low)

-- A table whose selector 0x28 leads to a task state segment at `base`, with the interrupt stack `rsp0`.
pub record Installed (gdt gdt' : List GdtEntry) (base : ℕ) (t : Tss) (rsp0 : ℕ) : Type 0 where
  pub found : long_base_of (descriptor gdt' 5) (descriptor gdt' 6) ≡ base
  pub whole : limit_of (descriptor gdt' 5) + 1 ≡ length (tss_bytes t)
  pub kind : (descriptor gdt' 5).access ≡ 0x89
  pub others : (i : ℕ) → i ≢ 5 → i ≢ 6 → descriptor gdt' i ≡ descriptor gdt i
  pub stack : le_field (tss_bytes t) 4 8 ≡ rsp0

-- For a table of seven descriptors, an address and a stack of 64 bits: after `install_tss` at the address
-- with the limit `tss_size`, the processor reads from descriptors 5 and 6 the whole address, a limit that
-- covers the segment and its kind; the other descriptors stay; and the stack that it takes from the
-- segment is the one that `set_kernel_stack` was given.
pub install_tss-Installed :
    (gdt : List GdtEntry) (base : ℕ) (t : Tss) (rsp0 : ℕ)
    → length gdt ≡ 7
    → base < 2 ^ 64
    → rsp0 < 2 ^ 64
    → Installed gdt (install_tss gdt base tss_size) base (set_kernel_stack t rsp0) rsp0
unfolding install_tss tss_low tss_high set_kernel_stack tss_size
install_tss-Installed gdt base t rsp0 seven hb hr =
    let low = tss_low base tss_size in
    let high = tss_high base in
    let at_low : descriptor (install_tss gdt base tss_size) 5 ≡ low =
      get_or-set_ne (set gdt 5 low) high entry_null (λ e. omega arith)
      ∙ get_or-set_self gdt 5 low entry_null (omega arith) in
    let at_high : descriptor (install_tss gdt base tss_size) 6 ≡ high =
      get_or-set_self (set gdt 5 low) 6 high entry_null (omega (arith, length-set gdt 5 low)) in
    record {
      found = rw (at_low, at_high) (omega arith);
      whole = rw at_low refl;
      kind = rw at_low refl;
      others = λ i ne5 ne6.
          get_or-set_ne (set gdt 5 low) high entry_null (λ e. ne6 (sym e))
          ∙ get_or-set_ne gdt low entry_null (λ e. ne5 (sym e));
      stack =
          ap le_value (take-append_le_bytes 8 rsp0 (rest_bytes t))
          ∙ le_value-le_bytes 8 rsp0 (omega arith);
    }
