-- ===== src/Arch/Clock.antt =====
-- `src/kern/arch/x86_64/pit.rs` and `tsc.rs`: the interval timer, and the counter of processor cycles
-- measured against it. What the ports and the counter read as is an argument.
pub mod Times
mod Tests
use package.avaria.Prelude.{
  ℕ, zero, suc, ◌+◌, ◌-◌, ◌*◌, ◌/◌, ◌%◌, ◌^◌, ◌==◌, ltb, ◌||◌, if◌then◌else◌, Option, none, some,
  [], ◌∷◌,
}
use package.avaria.Prelude.{sub_w}
use package.avaria.Arch.Pic.{Writes}

abbrev pub pit_ch0_data : ℕ
pit_ch0_data = 0x40

abbrev pub pit_cmd : ℕ
pit_cmd = 0x43

abbrev pub pit_freq : ℕ
pit_freq = 1193182

-- The divisor that `pit::init` writes; a rate of 0 panics.
abbrev pub divisor : ℕ → ℕ
divisor hz = if ltb 0xFFFF (pit_freq / hz) then 0xFFFF else pit_freq / hz

-- `pit::init`; `none` is a panic.
unfoldable pub pit_init : ℕ → Option Writes
pit_init hz =
    if hz == 0
    then none
    else some (
        (pit_cmd, 0x34)
        ∷ (pit_ch0_data, divisor hz % 2 ^ 8)
        ∷ (pit_ch0_data, divisor hz / 2 ^ 8 % 2 ^ 8)
        ∷ [])

abbrev pub target_ms : ℕ
target_ms = 10

-- The count of the timer for `target_ms`.
abbrev pub pit_count : ℕ
pit_count = pit_freq * target_ms / 1000 % 2 ^ 16

-- The loop of `calibrate`: `reads` gives the two bytes that a round reads, and the result is the round
-- that ends it. `none` means that the fuel ran out.
pub wait_count : (ℕ → ℕ × ℕ) → ℕ → ℕ → Option ℕ
wait_count reads zero round = none
wait_count reads (suc fuel) round =
    let (lo, hi) = reads round in
    let current = hi * 2 ^ 8 % 2 ^ 16 + lo in
    let rest = wait_count reads fuel (round + 1) in
    if current == 0 || ltb pit_count current then some round else rest

-- The frequency that `calibrate` stores, from the counter before and after the loop.
unfoldable pub frequency : ℕ → ℕ → ℕ
frequency start end = sub_w 64 end start / target_ms

-- `calibrate`: the frequency that it stores; `tsc` gives the counter before the loop and after each round.
unfoldable pub calibrate : (ℕ → ℕ × ℕ) → (ℕ → ℕ) → ℕ → Option ℕ
unfolding wait_count frequency
calibrate reads tsc fuel = elim (wait_count reads fuel 0) [
  | none ↦ none
  | some round ↦ some (frequency (tsc 0) (tsc (round + 1)))
]

-- The functions that read `TSC_FREQ_KHZ`, as `freq`. The products wrap.
unfoldable pub ticks_to_ns : ℕ → ℕ → ℕ
ticks_to_ns freq ticks = if freq == 0 then 0 else ticks * 1000000 % 2 ^ 64 / freq

unfoldable pub ticks_to_us : ℕ → ℕ → ℕ
ticks_to_us freq ticks = if freq == 0 then 0 else ticks * 1000 % 2 ^ 64 / freq

-- `now` is what the counter reads as.
unfoldable pub uptime_ms : ℕ → ℕ → ℕ
uptime_ms freq now = if freq == 0 then 0 else now / freq

pub freq_mhz : ℕ → ℕ
freq_mhz freq = freq / 1000
