-- ===== src/Pci/Address.antt =====
-- The address that selects a register, and the registers of a configuration space.
use package.avaria.Prelude.{ℕ, ◌+◌, ◌-◌, ◌*◌, ◌/◌, ◌^◌, ◌<◌, bit_and, bit_or, ◌≡◌, ap, ◌∙◌, arith}
use package.avaria.Prelude.{bit_or_join, bit_and-shifted, bit_and_low}
use package.avaria.Pci.{PciAddr, config_address}

-- For a bus below 256, a device below 32, a function below 8 and an offset below 256, the address is
-- the bus, the device, the function and the offset of the register's word in their fields, under a
-- top bit that is set.
pub config_address-eq :
    (a : PciAddr) (offset : ℕ)
    → a.bus < 256
    → a.dev < 32
    → a.func < 8
    → offset < 256
    → config_address a offset
      ≡ 2 ^ 31 + a.bus * 2 ^ 16 + a.dev * 2 ^ 11 + a.func * 2 ^ 8 + offset / 4 * 4
unfolding config_address
config_address-eq a offset b d f o =
    let low : bit_and offset 0xFC ≡ offset / 4 * 4 =
      bit_and-shifted 2 offset (2 ^ 6 - 1)
      ∙ (ap (λ (t : ℕ). t * 4) (bit_and_low 6 (offset / 4)) ∙ omega arith) in
    let one : bit_or 0x80000000 (a.bus * 2 ^ 16) ≡ 2 ^ 31 + a.bus * 2 ^ 16 =
      bit_or_join 31 1 (a.bus * 2 ^ 16) (omega arith) in
    let q2 = 2 ^ 15 + a.bus in
    let two : bit_or (2 ^ 31 + a.bus * 2 ^ 16) (a.dev * 2 ^ 11) ≡ q2 * 2 ^ 16 + a.dev * 2 ^ 11 =
      ap (λ t. bit_or t (a.dev * 2 ^ 11)) (omega arith)
      ∙ bit_or_join 16 q2 (a.dev * 2 ^ 11) (omega arith) in
    let q3 = q2 * 2 ^ 5 + a.dev in
    let three : bit_or (q2 * 2 ^ 16 + a.dev * 2 ^ 11) (a.func * 2 ^ 8)
        ≡ q3 * 2 ^ 11 + a.func * 2 ^ 8 =
      ap (λ t. bit_or t (a.func * 2 ^ 8)) (omega arith)
      ∙ bit_or_join 11 q3 (a.func * 2 ^ 8) (omega arith) in
    let q4 = q3 * 2 ^ 3 + a.func in
    let four : bit_or (q3 * 2 ^ 11 + a.func * 2 ^ 8) (offset / 4 * 4)
        ≡ q4 * 2 ^ 8 + offset / 4 * 4 =
      ap (λ t. bit_or t (offset / 4 * 4)) (omega arith)
      ∙ bit_or_join 8 q4 (offset / 4 * 4) (omega arith) in
    rw (low, one, two, three, four) (omega arith)
