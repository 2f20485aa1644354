-- ===== src/Arch/Gdt/Fields.antt =====
-- The fields that the processor reads from the descriptors of `src/kern/arch/x86_64/gdt.rs`.
use avaria.Prelude.{ℕ, ◌+◌, ◌*◌, ◌/◌, ◌%◌, ◌^◌, ◌<◌, ◌≡◌, refl, arith, bit_or, bit_or_join, ap, ◌∙◌}
use avaria.Arch.Gdt.{GdtEntry, entry_new}

-- The base, the limit and the flags of a descriptor.
abbrev pub base_of : GdtEntry → ℕ
base_of e = e.base_low + e.base_mid * 2 ^ 16 + e.base_high * 2 ^ 24

abbrev pub limit_of : GdtEntry → ℕ
limit_of e = e.limit_low + e.granularity % 2 ^ 4 * 2 ^ 16

abbrev pub flags_of : GdtEntry → ℕ
flags_of e = e.granularity / 2 ^ 4

-- A descriptor gives back the base, the limit, the access byte and the flags that it was built from,
-- for a base of 32 bits, a limit of 20 bits and flags of 4 bits.
pub base_of-entry_new :
    (base limit access flags : ℕ)
    → base < 2 ^ 32
    → limit < 2 ^ 20
    → flags < 2 ^ 4
    → (base_of (entry_new base limit access flags) ≡ base)
      × (limit_of (entry_new base limit access flags) ≡ limit)
      × ((entry_new base limit access flags).access ≡ access)
      × (flags_of (entry_new base limit access flags) ≡ flags)
unfolding entry_new
base_of-entry_new base limit access flags hb hl hf =
    let joined : bit_or (flags * 2 ^ 4 % 2 ^ 8) (limit / 2 ^ 16 % 2 ^ 4)
        ≡ flags * 2 ^ 4 + limit / 2 ^ 16 % 2 ^ 4 =
      ap (λ n. bit_or n (limit / 2 ^ 16 % 2 ^ 4))
        (let e : flags * 2 ^ 4 % 2 ^ 8 ≡ flags * 2 ^ 4 = omega arith in e)
      ∙ bit_or_join 4 flags (limit / 2 ^ 16 % 2 ^ 4) (omega arith) in
    (omega arith, omega (arith, joined), refl, omega (arith, joined))
