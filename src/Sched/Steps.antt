-- ===== src/Sched/Steps.antt =====
-- Every sequence of the operations of `src/kern/sched.rs`, in any order.
use avaria.Prelude.{
  ℕ, zero, suc, ◌<◌, ◌≡◌, refl, sym, ap, ◌∙◌, ◌≢◌, arith, true, false, inl, inr, ◌==◌, ltb,
}
use avaria.Prelude.{
  Bool-cases, ==→≡, ==→≢, List, length, length-set, if_Has, ltb→lt, get_or, replicate, ◌⊎◌, ltb→le,
  Option,
}
use mathlib.Core.Path.{subst}
use avaria.Arch.Context.{IsrContext}
use avaria.Mm.Heap.{Heap}
use avaria.Sched.{
  Sched, Task, running, exited, is_vacant, task, put_task, empty_task, timer_tick, task_exit, spawn,
  start, init, boot, preempt_disable, preempt_enable,
}
use avaria.Sched.Pick.{IsValid, task-put_self, task-put_ne}
use avaria.Sched.Tick.{timer_tick-Switches, timer_tick_off}
use avaria.Sched.Spawn.{spawn-Spawned, in_slot, no_slot, no_stack}

-- One operation. The idle task, in slot 0, never exits.
pub data Step (s : Sched) : Sched → Type 0 where
  tick : (ctx : IsrContext) → Step s (timer_tick s ctx).0
  spawns :
      (trampoline entry api : ℕ) (name : List ℕ) (heap : Heap)
      → Step s (spawn trampoline entry api name s heap).0
  exits : 0 < s.current → Step s (task_exit s)
  starts : Step s (start s)
  disables : Step s (preempt_disable s)
  enables : Step s (preempt_enable s)

pub data Reach (s : Sched) : Sched → Type 0 where
  here : Reach s s
  next : {t u : Sched} → Reach s t → Step t u → Reach s u

-- The invariant is about the tasks and the current one.
same_tasks : {s s' : Sched} → IsValid s → s'.tasks ≡ s.tasks → s'.current ≡ s.current → IsValid s'
same_tasks {s} {s'} v e c = record {
  slots = ap length e ∙ v.slots;
  current_in = omega (arith, v.current_in, c);
  only_current =
      λ i r. v.only_current i (ap (λ t. (get_or t i empty_task).state) (sym e) ∙ r) ∙ sym c;
  idle = ap (λ t. is_vacant (get_or t 0 empty_task).state) e ∙ v.idle;
}

-- A task that does not run may take the place of any other, and a vacant one that of any but the idle
-- task.
put_task-IsValid :
    {s : Sched} (i : ℕ) (t : Task)
    → IsValid s
    → 0 < i
    → i < 16
    → t.state ≢ running
    → IsValid (put_task s i t)
put_task-IsValid {s} i t v pos lt rests = record {
  slots = length-set s.tasks i t ∙ v.slots;
  current_in = v.current_in;
  only_current = λ j r. elim (Bool-cases (i == j)) [
    | inl e ↦ absurd (
        rests (
          ap (λ (x : Task). x.state) (sym (task-put_self s v.slots i t lt))
          ∙ (ap (λ k. (task (put_task s i t) k).state) (==→≡ i j e) ∙ r)))
    | inr e ↦
        v.only_current j
          (ap (λ (x : Task). x.state) (sym (task-put_ne s v.slots i j t (==→≢ i j e))) ∙ r)
  ];
  idle =
      ap (λ (x : Task). is_vacant x.state) (task-put_ne s v.slots i 0 t (λ e. omega arith))
      ∙ v.idle;
}

-- A tick that switches to no task.
idle_tick :
    {s : Sched} (ctx : IsrContext)
    → IsValid s
    → (s.active ≡ false) ⊎ (0 < s.preempt_count)
    → IsValid (timer_tick s ctx).0
idle_tick {s} ctx v off =
    subst (λ (r : Sched × IsrContext). IsValid r.0) (sym (timer_tick_off s ctx off))
      (same_tasks v refl refl)

timer_tick-IsValid : {s : Sched} → IsValid s → (ctx : IsrContext) → IsValid (timer_tick s ctx).0
timer_tick-IsValid {s} v ctx = elim (Bool-cases s.active) [
  | inr off ↦ idle_tick ctx v (inl off)
  | inl on ↦ elim (Bool-cases (ltb 0 s.preempt_count)) [
    | inl held ↦ idle_tick ctx v (inr (ltb→lt 0 s.preempt_count held))
    | inr free ↦ (timer_tick-Switches v ctx on (omega (arith, ltb→le 0 s.preempt_count free))).valid
  ]
]

pub spawn-IsValid :
    {s : Sched}
    → IsValid s
    → (trampoline entry api : ℕ) (name : List ℕ) (heap : Heap)
    → IsValid (spawn trampoline entry api name s heap).0
spawn-IsValid {s} v trampoline entry api name heap =
    let on = record s { interrupts = true } in
    let von : IsValid on = same_tasks v refl refl in
    elim (spawn-Spawned trampoline entry api name s heap) [
      | in_slot i base t (pos, lt, free, first) got fresh e ↦
          let st = fresh.state in
          subst (λ (r : Sched × Heap × Option ℕ). IsValid r.0) (sym e)
            (put_task-IsValid i t von pos lt (λ q. cc))
      | no_slot full e ↦ subst (λ (r : Sched × Heap × Option ℕ). IsValid r.0) (sym e) von
      | no_stack dry e ↦ subst (λ (r : Sched × Heap × Option ℕ). IsValid r.0) (sym e) von
    ]

Step-IsValid : {s t : Sched} → IsValid s → Step s t → IsValid t
unfolding task_exit start preempt_disable preempt_enable
Step-IsValid v (tick ctx) = timer_tick-IsValid v ctx
Step-IsValid v (spawns trampoline entry api name heap) =
    spawn-IsValid v trampoline entry api name heap
Step-IsValid {s} v (exits pos) =
    same_tasks
      (put_task-IsValid s.current (record (task s s.current) { state = exited }) v pos v.current_in
        (λ q. cc))
      refl refl
Step-IsValid v starts = same_tasks v refl refl
Step-IsValid v disables = same_tasks v refl refl
Step-IsValid {s} v enables =
    if_Has (λ (x : Sched). IsValid x) (ltb 0 s.preempt_count) (same_tasks v refl refl) v

-- In every state that timer interrupts, spawning, exits of tasks other than the idle one, the start of
-- the scheduler and changes of the preemption counter reach from a valid state, in any order and
-- number, the table has its sixteen slots, the current task is one of them, no other task is marked
-- running, and the idle task is there.
pub Reach-IsValid : {s t : Sched} → IsValid s → Reach s t → IsValid t
Reach-IsValid v here = v
Reach-IsValid v (next r q) = Step-IsValid (Reach-IsValid v r) q

empty_rests : (n i : ℕ) → (get_or (replicate n empty_task) i empty_task).state ≢ running
empty_rests zero i e = cc
empty_rests (suc n) zero e = cc
empty_rests (suc n) (suc i) e = empty_rests n i e

idle_only : (i : ℕ) → (task (init boot) i).state ≡ running → i ≡ 0
unfolding init
idle_only zero e = refl
idle_only (suc i) e = absurd (empty_rests 15 i e)

-- After `init`, of an empty table, the idle task alone runs.
pub init-IsValid : IsValid (init boot)
unfolding init
init-IsValid = record {
  slots = refl;
  current_in = omega arith;
  only_current = idle_only;
  idle = refl;
}
