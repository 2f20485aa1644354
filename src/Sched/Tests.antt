-- ===== src/Sched/Tests.antt =====
-- Runs of the scheduler of `src/kern/sched.rs`, and its theorems on them.
use avaria.Prelude.{ℕ, zero, suc, ◌<◌, ◌≤◌, ◌≡◌, refl, arith, true}
use avaria.Prelude.{List, [], ◌∷◌, replicate, get_or, take}
use avaria.Arch.Context.{IsrContext}
use avaria.Mm.Heap.{new_heap}
use avaria.Sched.{Sched, Task, boot, empty_task, running, ready, timer_tick}
use avaria.Sched.{task}
use avaria.Sched.Pick.{IsValid}
use avaria.Sched.Tick.{Switches, timer_tick-Switches}
use avaria.Sched.Fair.{tick_all, tick_all-current}
use avaria.Sched.Spawn.{Spawned, spawn-Spawned}
use avaria.Sched.Steps.{Reach, here, next, tick, disables, Reach-IsValid}
use avaria.Sched.{preempt_disable}

-- Every register 0, from kernel code.
abbrev at_rest : IsrContext
at_rest = record {
  r15 = 0;
  r14 = 0;
  r13 = 0;
  r12 = 0;
  r11 = 0;
  r10 = 0;
  r9 = 0;
  r8 = 0;
  rbp = 0;
  rdi = 0;
  rsi = 0;
  rdx = 0;
  rcx = 0;
  rbx = 0;
  rax = 0;
  vector = 32;
  error_code = 0;
  rip = 0x8000;
  cs = 8;
  rflags = 0x202;
  rsp = 0x9000;
  ss = 16;
}

-- The idle task runs, and the tasks in slots 1 and 3 are ready.
abbrev two_ready : List Task
two_ready =
    record empty_task { state = running }
    ∷ record empty_task { state = ready; id = 1 }
    ∷ empty_task
    ∷ record empty_task { state = ready; id = 3 }
    ∷ replicate 12 empty_task

abbrev busy : Sched
busy = record boot { tasks = two_ready; active = true }

-- No task of a list of empty slots is running.
none_running : (i n : ℕ) → (get_or (replicate n empty_task) i empty_task).state ≡ running → ⊥
none_running i zero e = absurd (cc)
none_running zero (suc n) e = absurd (cc)
none_running (suc i) (suc n) e = none_running i n e

only_idle : (i : ℕ) → (task busy i).state ≡ running → i ≡ 0
only_idle zero e = refl
only_idle (suc zero) e = absurd (cc)
only_idle (suc (suc zero)) e = absurd (cc)
only_idle (suc (suc (suc zero))) e = absurd (cc)
only_idle (suc (suc (suc (suc i)))) e = absurd (none_running i 12 e)

busy-IsValid : IsValid busy
busy-IsValid = record {
  slots = refl;
  current_in = omega arith;
  only_current = only_idle;
  idle = refl;
}

timer_tick-Switches_example : Switches busy at_rest (timer_tick busy at_rest)
timer_tick-Switches_example = timer_tick-Switches busy-IsValid at_rest refl refl

abbrev three_ticks : List IsrContext
three_ticks = at_rest ∷ at_rest ∷ at_rest ∷ []

tick_all-current_example :
    (n : ℕ) × (0 < n) × (n ≤ 3) × ((tick_all busy (take n three_ticks)).current ≡ 3)
tick_all-current_example =
    tick_all-current three_ticks {s = busy} 3 3 busy-IsValid refl refl (omega arith) (omega arith)
      refl refl (omega arith)

spawn-Spawned_example : Spawned 0x7000 0x8000 0 (b's' ∷ []) busy new_heap
spawn-Spawned_example = spawn-Spawned 0x7000 0x8000 0 (b's' ∷ []) busy new_heap

-- A tick, then preemption disabled.
abbrev ticked : Sched
ticked = (timer_tick busy at_rest).0

two_steps : Reach busy (preempt_disable ticked)
two_steps = next (next here (tick at_rest)) disables

Reach-IsValid_example : IsValid (preempt_disable ticked)
Reach-IsValid_example = Reach-IsValid busy-IsValid two_steps
