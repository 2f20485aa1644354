-- ===== src/Sched/Fair.antt =====
-- A ready task is run in its turn (`timer_tick` of `src/kern/sched.rs`).
use avaria.Prelude.{ℕ, suc, ◌+◌, ◌-◌, ◌%◌, ◌<◌, ◌≤◌, ◌≡◌, sym, ap, ◌∙◌, ◌≢◌, arith, Bool-cases}
use avaria.Prelude.{
  true, false, inl, inr, ◌==◌, ltb, ltb→lt, ltb→le, ==→≡, ==→≢, List, [], ◌∷◌, length, take,
}
use avaria.Arch.Context.{IsrContext}
use avaria.Sched.{Sched, Task, is_ready, timer_tick, save_current}
use avaria.Sched.Pick.{IsValid, can_run}
use avaria.Sched.Tick.{Switches, timer_tick-Switches, task-saved_other}

-- Ticks in turn, each at the context in which it interrupts.
unfoldable pub tick_all : Sched → List IsrContext → Sched
tick_all s [] = s
tick_all s (c ∷ cs) = tick_all (timer_tick s c).0 cs

-- A tick finds every other ready task still ready, or runs it.
still_ready :
    {s : Sched} (v : IsValid s) (ctx : IsrContext) {r : Sched × IsrContext} (w : Switches s ctx r)
    (i : ℕ)
    → s.current ≢ i
    → r.0.current ≢ i
    → can_run s i ≡ true
    → can_run r.0 i ≡ true
still_ready v ctx w i not_now not_next runs =
    let same = w.others i not_next ∙ task-saved_other v ctx i not_now in
    ap (λ (t : Task). is_ready t.state) same ∙ runs

-- In a valid state, with the scheduler on and preemption allowed, a task that is ready at a distance
-- `d` from 1 to 15 round the table from the current one becomes the current one within `d` ticks,
-- whatever contexts they interrupt.
pub tick_all-current :
    (cs : List IsrContext) {s : Sched} (d i : ℕ)
    → IsValid s
    → s.active ≡ true
    → s.preempt_count ≡ 0
    → 0 < d
    → d < 16
    → i ≡ (s.current + d) % 16
    → can_run s i ≡ true
    → d ≤ length cs
    → (n : ℕ) × (0 < n) × (n ≤ d) × ((tick_all s (take n cs)).current ≡ i)
unfolding tick_all
tick_all-current [] d i v on free pos lt place runs enough = absurd (omega arith)
tick_all-current (c ∷ cs) {s} d i v on free pos lt place runs enough =
    let w = timer_tick-Switches v c on free in
    let s' = (timer_tick s c).0 in
    let e = w.first.distance in
    let not_now : s.current ≢ i = λ q. omega (arith, v.current_in) in
    let runs_saved : can_run (save_current s c) i ≡ true =
      ap (λ (t : Task). is_ready t.state) (task-saved_other v c i not_now) ∙ runs in
    let near : e ≤ d = elim (Bool-cases (ltb d e)) [
      | inl q ↦
          let passed = w.first.between d pos (ltb→lt d e q) in
          let bad : true ≡ false =
            sym runs_saved ∙ (ap (can_run (save_current s c)) place ∙ passed) in
          absurd (cc)
      | inr q ↦ ltb→le d e q
    ] in
    elim (Bool-cases (e == d)) [
      | inl q ↦ let same = ==→≡ e d q in (1, omega arith, omega arith, w.first.place ∙ omega arith)
      | inr q ↦
          let ne = ==→≢ e d q in
          let not_next : s'.current ≢ i =
            λ h. omega (arith, w.first.place, v.current_in, w.first.at_least) in
          let (n, n_pos, n_le, there) =
            tick_all-current cs {s = s'} (d - e) i w.valid (w.still_on.0 ∙ on) (w.still_on.1 ∙ free)
              (omega arith) (omega arith) (omega (arith, w.first.place))
              (still_ready v c w i not_now not_next runs) (omega (arith, w.first.at_least)) in
          (suc n, omega arith, omega (arith, w.first.at_least), there)
    ]
