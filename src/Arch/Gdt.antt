-- ===== src/Arch/Gdt.antt =====
-- `src/kern/arch/x86_64/gdt.rs`: segment descriptors. The loading of the table is assembly.
pub mod Fields
use package.avaria.Prelude.{ℕ, ◌+◌, ◌*◌, ◌/◌, ◌%◌, ◌^◌, bit_or, List, [], ◌∷◌, set}

pub record GdtEntry : Type 0 where
  pub limit_low : ℕ
  pub base_low : ℕ
  pub base_mid : ℕ
  pub access : ℕ
  pub granularity : ℕ
  pub base_high : ℕ

unfoldable pub entry_new : ℕ → ℕ → ℕ → ℕ → GdtEntry
entry_new base limit access flags = record {
  limit_low = limit % 2 ^ 16;
  base_low = base % 2 ^ 16;
  base_mid = base / 2 ^ 16 % 2 ^ 8;
  access = access;
  granularity = bit_or (flags * 2 ^ 4 % 2 ^ 8) (limit / 2 ^ 16 % 2 ^ 4);
  base_high = base / 2 ^ 24 % 2 ^ 8;
}

abbrev pub entry_null : GdtEntry
entry_null = entry_new 0 0 0 0

abbrev pub table : List GdtEntry
table =
    entry_null
    ∷ entry_new 0 0xFFFFF 0x9A 0xA
    ∷ entry_new 0 0xFFFFF 0x92 0xC
    ∷ entry_new 0 0xFFFFF 0xF2 0xC
    ∷ entry_new 0 0xFFFFF 0xFA 0xA
    ∷ entry_null
    ∷ entry_null
    ∷ []

-- The lower and the upper half of the descriptor that `install_tss` builds.
unfoldable pub tss_low : ℕ → ℕ → GdtEntry
tss_low base limit =
    let base_lo = base % 2 ^ 32 in
    record {
      limit_low = limit % 2 ^ 16;
      base_low = base_lo % 2 ^ 16;
      base_mid = base_lo / 2 ^ 16 % 2 ^ 8;
      access = 0x89;
      granularity = limit / 2 ^ 16 % 2 ^ 4;
      base_high = base_lo / 2 ^ 24 % 2 ^ 8;
    }

unfoldable pub tss_high : ℕ → GdtEntry
tss_high base =
    let base_hi = base / 2 ^ 32 % 2 ^ 32 in
    record {
      limit_low = base_hi % 2 ^ 16;
      base_low = base_hi / 2 ^ 16 % 2 ^ 16;
      base_mid = 0;
      access = 0;
      granularity = 0;
      base_high = 0;
    }

unfoldable pub install_tss : List GdtEntry → ℕ → ℕ → List GdtEntry
unfolding tss_low tss_high
install_tss gdt base limit = set (set gdt 5 (tss_low base limit)) 6 (tss_high base)
