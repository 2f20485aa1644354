-- ===== src/Arch/Pic.antt =====
-- `src/kern/arch/x86_64/pic.rs`: the interrupt controllers. A function appends its port writes to
-- the list of writes, in order; what a port read returns is an argument.
use avaria.Prelude.{
  ℕ, ◌-◌, ◌^◌, ◌%◌, leb, ltb, if◌then◌else◌, List, [], ◌∷◌, ◌++◌, with_bit, and_not,
}

abbrev pub pic1_cmd : ℕ
pic1_cmd = 0x20

abbrev pub pic1_data : ℕ
pic1_data = 0x21

abbrev pub pic2_cmd : ℕ
pic2_cmd = 0xA0

abbrev pub pic2_data : ℕ
pic2_data = 0xA1

-- Writes to ports, oldest first: port and value.
abbrev pub Writes : Type 0
Writes = List (ℕ × ℕ)

abbrev io_wait : ℕ × ℕ
io_wait = (0x80, 0)

-- `mask1` and `mask2` are the masks that the data ports read as.
pub remap : ℕ → ℕ → ℕ → ℕ → Writes
remap mask1 mask2 offset1 offset2 =
    (pic1_cmd, 0x11)
    ∷ io_wait
    ∷ (pic2_cmd, 0x11)
    ∷ io_wait
    ∷ (pic1_data, offset1)
    ∷ io_wait
    ∷ (pic2_data, offset2)
    ∷ io_wait
    ∷ (pic1_data, 4)
    ∷ io_wait
    ∷ (pic2_data, 2)
    ∷ io_wait
    ∷ (pic1_data, 1)
    ∷ io_wait
    ∷ (pic2_data, 1)
    ∷ io_wait
    ∷ (pic1_data, mask1)
    ∷ (pic2_data, mask2)
    ∷ []

pub disable : Writes
disable = (pic1_data, 0xFF) ∷ (pic2_data, 0xFF) ∷ []

unfoldable pub eoi : ℕ → Writes
eoi irq = (if leb 8 irq then (pic2_cmd, 0x20) ∷ [] else []) ++ ((pic1_cmd, 0x20) ∷ [])

abbrev mask_port : ℕ → ℕ
mask_port irq = if ltb irq 8 then pic1_data else pic2_data

abbrev mask_line : ℕ → ℕ
mask_line irq = if ltb irq 8 then irq else irq - 8

-- `read` is what the port reads as.
pub set_mask : (ℕ → ℕ) → ℕ → Writes
set_mask read irq = (mask_port irq, with_bit (read (mask_port irq)) (mask_line irq) % 256) ∷ []

unfoldable pub clear_mask : (ℕ → ℕ) → ℕ → Writes
clear_mask read irq = (mask_port irq, and_not (read (mask_port irq)) (2 ^ mask_line irq % 256)) ∷ []
