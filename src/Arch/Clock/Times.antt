-- ===== src/Arch/Clock/Times.antt =====
-- How near the times of `src/kern/arch/x86_64/tsc.rs` and the rate of `pit.rs` come.
use package.avaria.Prelude.{
  ℕ, ◌+◌, ◌*◌, ◌/◌, ◌%◌, ◌^◌, ◌≤◌, ◌<◌, ◌≡◌, arith, suc, ltb, le→ltb, ◌∙◌, ◌==◌, false, ≢→==, refl,
  some, [], ◌∷◌,
}
use native.Mathlib.Nat.{
  mod-eq_of_lt, mul_assoc, mul-div_cancel_left, le-div_iff_mul-le, div-lt_iff_lt-mul,
  div-mul-le_self, lt-div-mul-add, mul-div-le, mul_comm, suc-mul,
}
use package.avaria.Arch.Clock.{frequency, ticks_to_ns, ticks_to_us, uptime_ms, pit_init, pit_freq}

frequency-exact :
    (khz start : ℕ)
    → start < 2 ^ 64
    → khz < 2 ^ 60
    → frequency start ((start + khz * 10) % 2 ^ 64) ≡ khz
unfolding frequency
frequency-exact khz start h k = omega arith

-- The quotient of a product that does not wrap.
scaled : (khz ms k : ℕ) → 0 < khz → khz * ms * k < 2 ^ 64 → khz * ms * k % 2 ^ 64 / khz ≡ ms * k
scaled khz ms k pos bound =
    let whole : khz * ms * k % 2 ^ 64 ≡ khz * (ms * k) = mod-eq_of_lt bound ∙ mul_assoc khz ms k in
    rw whole (mul-div_cancel_left (ms * k) pos)

-- Once the counter has been measured over exactly 10 ms, whatever it read at the start and even if it
-- went round in between, `ticks_to_ns`, `ticks_to_us` and `uptime_ms` of the ticks of `ms` milliseconds
-- are exact while the products stay below 2 ^ 64.
pub times-exact :
    (khz start ms : ℕ)
    → 0 < khz
    → khz < 2 ^ 60
    → start < 2 ^ 64
    → khz * ms * 1000000 < 2 ^ 64
    → (ticks_to_ns (frequency start ((start + khz * 10) % 2 ^ 64)) (khz * ms) ≡ ms * 1000000)
      × (ticks_to_us (frequency start ((start + khz * 10) % 2 ^ 64)) (khz * ms) ≡ ms * 1000)
      × (uptime_ms (frequency start ((start + khz * 10) % 2 ^ 64)) (khz * ms) ≡ ms)
unfolding ticks_to_ns ticks_to_us uptime_ms
times-exact khz start ms pos small fits bound =
    let quiet : (khz == 0) ≡ false = ≢→== khz 0 (omega arith) in
    rw (frequency-exact khz start fits small, quiet)
      (
        scaled khz ms 1000000 pos bound,
        scaled khz ms 1000 pos (omega arith),
        mul-div_cancel_left ms pos,
      )

-- From 2 ^ 64 / 1000000 ticks on, `ticks_to_ns` falls short of the time, since its product wraps.
pub ticks_to_ns-short :
    (freq ticks : ℕ)
    → 0 < freq
    → freq ≤ 2 ^ 64
    → 2 ^ 64 ≤ ticks * 1000000
    → ticks_to_ns freq ticks < ticks * 1000000 / freq
unfolding ticks_to_ns
ticks_to_ns-short freq ticks pos small big =
    let wrapped = ticks * 1000000 % 2 ^ 64 in
    let less : wrapped + freq ≤ ticks * 1000000 = omega arith in
    let quiet : (freq == 0) ≡ false = ≢→== freq 0 (omega arith) in
    let room : suc (wrapped / freq) * freq ≤ ticks * 1000000 = omega (
      arith,
      mul-div-le wrapped freq,
      mul_comm (wrapped / freq) freq,
      suc-mul (wrapped / freq) freq,
    ) in
    rw quiet ((le-div_iff_mul-le pos).1 room)

-- For a rate of 19 or more, the two bytes that `pit::init` writes make up the divisor whose rate is the
-- nearest from above: no larger one is as fast as asked for.
pub pit_init-rate :
    (hz : ℕ)
    → 19 ≤ hz
    → (lo : ℕ) × (hi : ℕ) × (pit_init hz ≡ some ((0x43, 0x34) ∷ (0x40, lo) ∷ (0x40, hi) ∷ []))
      × (lo < 256)
      × (hi < 256)
      × ((lo + 256 * hi) * hz ≤ pit_freq)
      × (pit_freq < (lo + 256 * hi + 1) * hz)
unfolding pit_init
pit_init-rate hz le =
    let pos : 0 < hz = omega arith in
    let q = pit_freq / hz in
    let small : q < 62800 = (div-lt_iff_lt-mul pos).1 (omega arith) in
    let whole : q % 2 ^ 8 + 256 * (q / 2 ^ 8 % 2 ^ 8) ≡ q = omega arith in
    let quiet : (hz == 0) ≡ false = ≢→== hz 0 (omega arith) in
    let uncut : ltb 0xFFFF q ≡ false = le→ltb 0xFFFF q (omega arith) in
    (
      q % 2 ^ 8,
      q / 2 ^ 8 % 2 ^ 8,
      rw (quiet, uncut) refl,
      omega arith,
      omega arith,
      rw whole (div-mul-le_self pit_freq hz),
      rw whole (omega (arith, lt-div-mul-add {a = pit_freq} pos, suc-mul q hz)),
    )
