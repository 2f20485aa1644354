-- ===== src/Arch/Clock/Tests.antt =====
-- A counter of 2 GHz that goes round while it is measured, and the timer at 100 Hz.
use package.avaria.Prelude.{
  ℕ, ◌+◌, ◌-◌, ◌*◌, ◌/◌, ◌%◌, ◌^◌, ◌<◌, ◌≤◌, ◌≡◌, refl, arith, some, [], ◌∷◌,
}
use package.avaria.Arch.Clock.{
  frequency, ticks_to_ns, ticks_to_us, uptime_ms, pit_init, pit_freq, wait_count,
}
use package.avaria.Arch.Clock.Times.{times-exact, ticks_to_ns-short, pit_init-rate}

abbrev near_end : ℕ
near_end = 2 ^ 64 - 1000

times-exact_example :
    (ticks_to_ns (frequency near_end ((near_end + 2000000 * 10) % 2 ^ 64)) (2000000 * 5)
      ≡ 5 * 1000000)
    × (ticks_to_us (frequency near_end ((near_end + 2000000 * 10) % 2 ^ 64)) (2000000 * 5)
        ≡ 5 * 1000)
    × (uptime_ms (frequency near_end ((near_end + 2000000 * 10) % 2 ^ 64)) (2000000 * 5) ≡ 5)
times-exact_example =
    times-exact 2000000 near_end 5 (omega arith) (omega arith) (omega arith) (omega arith)

-- After about three hours.
ticks_to_ns-short_example : ticks_to_ns 2000000 20000000000000 < 20000000000000 * 1000000 / 2000000
ticks_to_ns-short_example =
    ticks_to_ns-short 2000000 20000000000000 (omega arith) (omega arith) (omega arith)

pit_init-rate_example :
    (lo : ℕ) × (hi : ℕ) × (pit_init 100 ≡ some ((0x43, 0x34) ∷ (0x40, lo) ∷ (0x40, hi) ∷ []))
    × (lo < 256)
    × (hi < 256)
    × ((lo + 256 * hi) * 100 ≤ pit_freq)
    × (pit_freq < (lo + 256 * hi + 1) * 100)
pit_init-rate_example = pit_init-rate 100 (omega arith)

-- The timer counts down from 11931, and the round that reads 0 ends the wait.
third_round : wait_count (λ round. (0x9A - 0x4D * round, 0)) 10 0 ≡ some 2
unfolding wait_count
third_round = refl
