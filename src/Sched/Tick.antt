-- ===== src/Sched/Tick.antt =====
-- What one timer interrupt does (`timer_tick` of `src/kern/sched.rs`).
use avaria.Prelude.{ℕ, ◌+◌, ◌-◌, ◌%◌, ◌<◌, ◌≡◌, refl, sym, ap, ◌∙◌, ◌≢◌, ◌⊎◌, arith}
use avaria.Prelude.{
  if◌then◌else◌, true, false, Bool-cases, inl, inr, ◌==◌, ==→≡, ==→≢, length, length-set,
}
use avaria.Prelude.{◌++◌, add_w, lt→ltb}
use avaria.Arch.Context.{IsrContext}
use avaria.Arch.Pic
use avaria.Sched.{
  Sched, Task, TaskState, running, ready, empty, exited, is_ready, is_vacant, is_running, save_ctx,
}
use avaria.Sched.{task, put_task, pick_next, save_current, load_ctx, switch_to}
use avaria.Sched.{dispatch, send_eoi, timer_tick}
use avaria.Sched.Pick.{IsValid, First, can_run, pick_next-cases, task-put_self, task-put_ne}
use avaria.Sched.Pick.{resting, resting-state}

-- By its state a task that is neither vacant nor running is ready.
ready_of : (st : TaskState) → is_vacant st ≡ false → st ≢ running → is_ready st ≡ true
ready_of empty h n = cc
ready_of ready h n = refl
ready_of running h n = absurd (n refl)
ready_of exited h n = cc

resting-ne-running : (st : TaskState) → resting st ≢ running
resting-ne-running empty e = cc
resting-ne-running ready e = cc
resting-ne-running running e = cc
resting-ne-running exited e = cc

resting-vacant : (st : TaskState) → is_vacant (resting st) ≡ is_vacant st
resting-vacant empty = refl
resting-vacant ready = refl
resting-vacant running = refl
resting-vacant exited = refl

-- A task and a context with the same registers.
pub record Holds (t : Task) (ctx : IsrContext) : Type 0 where
  pub rip : t.rip ≡ ctx.rip
  pub rsp : t.rsp ≡ ctx.rsp
  pub rflags : t.rflags ≡ ctx.rflags
  pub rax : t.rax ≡ ctx.rax
  pub rbx : t.rbx ≡ ctx.rbx
  pub rcx : t.rcx ≡ ctx.rcx
  pub rdx : t.rdx ≡ ctx.rdx
  pub rsi : t.rsi ≡ ctx.rsi
  pub rdi : t.rdi ≡ ctx.rdi
  pub rbp : t.rbp ≡ ctx.rbp
  pub r8 : t.r8 ≡ ctx.r8
  pub r9 : t.r9 ≡ ctx.r9
  pub r10 : t.r10 ≡ ctx.r10
  pub r11 : t.r11 ≡ ctx.r11
  pub r12 : t.r12 ≡ ctx.r12
  pub r13 : t.r13 ≡ ctx.r13
  pub r14 : t.r14 ≡ ctx.r14
  pub r15 : t.r15 ≡ ctx.r15

-- An interrupted task: it has the registers of the interruption, it is ready if it ran, and the rest of
-- it is as before.
pub record Saved (t : Task) (ctx : IsrContext) (u : Task) : Type 0 where
  pub holds : Holds u ctx
  pub state : u.state ≡ resting t.state
  pub id : u.id ≡ t.id
  pub stack_base : u.stack_base ≡ t.stack_base
  pub stack_size : u.stack_size ≡ t.stack_size
  pub name : u.name ≡ t.name

resting-Saved :
    (t : Task) (ctx : IsrContext)
    → Saved t ctx (
        if is_running (save_ctx t ctx).state
        then record (save_ctx t ctx) { state = ready }
        else save_ctx t ctx)
unfolding save_ctx
resting-Saved t ctx = elim (Bool-cases (is_running t.state)) [
  | inl e ↦ rw e (record {
    holds = record {
      rip = refl;
      rsp = refl;
      rflags = refl;
      rax = refl;
      rbx = refl;
      rcx = refl;
      rdx = refl;
      rsi = refl;
      rdi = refl;
      rbp = refl;
      r8 = refl;
      r9 = refl;
      r10 = refl;
      r11 = refl;
      r12 = refl;
      r13 = refl;
      r14 = refl;
      r15 = refl;
    };
    state = sym (rw e refl);
    id = refl;
    stack_base = refl;
    stack_size = refl;
    name = refl;
  })
  | inr e ↦ rw e (record {
    holds = record {
      rip = refl;
      rsp = refl;
      rflags = refl;
      rax = refl;
      rbx = refl;
      rcx = refl;
      rdx = refl;
      rsi = refl;
      rdi = refl;
      rbp = refl;
      r8 = refl;
      r9 = refl;
      r10 = refl;
      r11 = refl;
      r12 = refl;
      r13 = refl;
      r14 = refl;
      r15 = refl;
    };
    state = sym (rw e refl);
    id = refl;
    stack_base = refl;
    stack_size = refl;
    name = refl;
  })
]

load_ctx-Holds : (t : Task) (ctx : IsrContext) → Holds t (load_ctx t ctx)
unfolding load_ctx
load_ctx-Holds t ctx = record {
  rip = refl;
  rsp = refl;
  rflags = refl;
  rax = refl;
  rbx = refl;
  rcx = refl;
  rdx = refl;
  rsi = refl;
  rdi = refl;
  rbp = refl;
  r8 = refl;
  r9 = refl;
  r10 = refl;
  r11 = refl;
  r12 = refl;
  r13 = refl;
  r14 = refl;
  r15 = refl;
}

module _ {s : Sched} (v : IsValid s) (ctx : IsrContext) where
  abbrev saved : Sched
  saved = save_current s ctx

  state-saved_current : (task saved s.current).state ≡ resting (task s s.current).state
  unfolding save_current
  state-saved_current =
      ap (λ (t : Task). t.state) (task-put_self s v.slots s.current _ v.current_in)
      ∙ resting-state (task s s.current) ctx

  current-Saved : Saved (task s s.current) ctx (task saved s.current)
  unfolding save_current
  current-Saved =
      let t = save_ctx (task s s.current) ctx in
      let rested = if is_running t.state then record t { state = ready } else t in
      rw (task-put_self s v.slots s.current rested v.current_in)
        (resting-Saved (task s s.current) ctx)

  pub task-saved_other : (j : ℕ) → s.current ≢ j → task saved j ≡ task s j
  unfolding save_current
  task-saved_other j ne = task-put_ne s v.slots s.current j _ ne

  -- The interrupted task rests; the others stay as they are.
  state-saved :
      (j : ℕ)
      → ((s.current ≡ j) × ((task saved j).state ≡ resting (task s j).state))
        ⊎ ((s.current ≢ j) × ((task saved j).state ≡ (task s j).state))
  state-saved j = elim (Bool-cases (s.current == j)) [
    | inl e ↦
        let same = ==→≡ s.current j e in
        inl (
          same,
          ap (λ i. (task saved i).state) (sym same)
              ∙ state-saved_current
              ∙ ap (λ i. resting (task s i).state) same,
        )
    | inr e ↦
        let ne = ==→≢ s.current j e in inr (ne, ap (λ (t : Task). t.state) (task-saved_other j ne))
  ]

  nobody_runs : (j : ℕ) → (task saved j).state ≢ running
  nobody_runs j r = elim (state-saved j) [
    | inl (same, st) ↦ resting-ne-running (task s j).state (sym st ∙ r)
    | inr (ne, st) ↦ ne (sym (v.only_current j (sym st ∙ r)))
  ]

  idle_kept : is_vacant (task saved 0).state ≡ false
  idle_kept = elim (state-saved 0) [
    | inl (same, st) ↦ ap is_vacant st ∙ resting-vacant (task s 0).state ∙ v.idle
    | inr (ne, st) ↦ ap is_vacant st ∙ v.idle
  ]

  pub idle_ready : can_run saved 0 ≡ true
  idle_ready = ready_of (task saved 0).state idle_kept (nobody_runs 0)

  -- The search succeeds: at the latest it comes round to the idle task.
  finds : First saved s.current 16 (pick_next saved 16 s.current)
  finds = elim (pick_next-cases saved 16 s.current) [
    | inl f ↦ f
    | inr nobody ↦
        let round : (s.current + (16 - s.current)) % 16 ≡ 0 = omega (arith, v.current_in) in
        let off = nobody (16 - s.current) (omega (arith, v.current_in)) (omega arith) in
        let bad : true ≡ false = sym idle_ready ∙ rw round at off in absurd (cc)
  ]

  slots_saved : length saved.tasks ≡ 16
  unfolding save_current
  slots_saved = length-set s.tasks s.current _ ∙ v.slots

-- What a tick does when the scheduler is on: the interrupted task is saved, and the first ready
-- task after it runs.
pub record Switches (s : Sched) (ctx : IsrContext) (r : Sched × IsrContext) : Type 0 where
  pub first : First (save_current s ctx) s.current 16 r.0.current
  pub starts :
      task r.0 r.0.current ≡ record (task (save_current s ctx) r.0.current) { state = running }
  pub saves : Saved (task s s.current) ctx (task (save_current s ctx) s.current)
  pub rests : (j : ℕ) → s.current ≢ j → task (save_current s ctx) j ≡ task s j
  pub others : (j : ℕ) → r.0.current ≢ j → task r.0 j ≡ task (save_current s ctx) j
  pub loads : Holds (task (save_current s ctx) r.0.current) r.1
  pub kernel : (r.1.cs ≡ 0x08) × (r.1.ss ≡ 0x10)
  pub same_interrupt : (r.1.vector ≡ ctx.vector) × (r.1.error_code ≡ ctx.error_code)
  pub stack :
      r.0.rsp0
      ≡ add_w 64
          (task (save_current s ctx) r.0.current).stack_base
          (task (save_current s ctx) r.0.current).stack_size
  pub ends : r.0.writes ≡ s.writes ++ Pic.eoi 0
  pub counts : r.0.tick_count ≡ add_w 64 s.tick_count 1
  pub still_on : (r.0.active ≡ s.active) × (r.0.preempt_count ≡ s.preempt_count)
  pub valid : IsValid r.0

abbrev counted : Sched → Sched
counted s = record s { tick_count = add_w 64 s.tick_count 1 }

counted-IsValid : {s : Sched} → IsValid s → IsValid (counted s)
counted-IsValid v = record {
  slots = v.slots;
  current_in = v.current_in;
  only_current = v.only_current;
  idle = v.idle;
}

module _ {s : Sched} (v : IsValid s) (ctx : IsrContext) where
  abbrev next : ℕ
  next = pick_next (save_current (counted s) ctx) 16 s.current

  found : First (save_current (counted s) ctx) s.current 16 next
  found = finds (counted-IsValid v) ctx

  tick_switches :
      s.active ≡ true
      → s.preempt_count ≡ 0
      → timer_tick s ctx ≡ (
        send_eoi (switch_to (save_current (counted s) ctx) next ctx).0,
        (switch_to (save_current (counted s) ctx) next ctx).1,
      )
  unfolding timer_tick dispatch
  tick_switches on free = rw (on, free, found.runs) refl

  after_switch : Switches s ctx (
    send_eoi (switch_to (save_current (counted s) ctx) next ctx).0,
    (switch_to (save_current (counted s) ctx) next ctx).1,
  )
  unfolding switch_to send_eoi save_current load_ctx
  after_switch =
      let base = save_current (counted s) ctx in
      let size = slots_saved (counted-IsValid v) ctx in
      let lt : next < 16 = omega (arith, found.place) in
      record {
        first = record {
          distance = found.distance;
          at_least = found.at_least;
          at_most = found.at_most;
          place = found.place;
          runs = found.runs;
          between = found.between;
        };
        starts = task-put_self base size next _ lt;
        others = λ j ne. task-put_ne base size next j _ ne;
        saves = current-Saved v ctx;
        rests = task-saved_other v ctx;
        loads = load_ctx-Holds (task base next) ctx;
        kernel = (refl, refl);
        same_interrupt = (refl, refl);
        stack = refl;
        ends = refl;
        counts = refl;
        still_on = (refl, refl);
        valid = record {
          slots = length-set base.tasks next _ ∙ size;
          current_in = lt;
          only_current = λ j r. elim (Bool-cases (next == j)) [
            | inl e ↦ sym (==→≡ next j e)
            | inr e ↦
                let ne = ==→≢ next j e in
                absurd (
                  nobody_runs (counted-IsValid v) ctx j
                    (ap (λ (t : Task). t.state) (sym (task-put_ne base size next j _ ne)) ∙ r))
          ];
          idle = elim (Bool-cases (next == 0)) [
            | inl e ↦
                let same = ==→≡ next 0 e in
                let woken = record (task base next) { state = running } in
                ap (λ i. is_vacant (task (put_task base next woken) i).state) (sym same)
                ∙ ap (λ (t : Task). is_vacant t.state) (task-put_self base size next woken lt)
            | inr e ↦
                ap (λ (t : Task). is_vacant t.state)
                  (task-put_ne base size next 0 _ (==→≢ next 0 e))
                ∙ idle_kept (counted-IsValid v) ctx
          ];
        };
      }

  -- In a valid state, with the scheduler on and preemption allowed, a tick saves every register of the
  -- interrupted context in the current task, which is ready if it ran, and switches to the first ready
  -- task after it round the table, which always exists: that task alone runs, every register that it
  -- holds and its kernel stack are loaded, in the kernel's segments, no other task changes, the
  -- interrupt is acknowledged once, and the invariant holds again.
  pub timer_tick-Switches :
      s.active ≡ true → s.preempt_count ≡ 0 → Switches s ctx (timer_tick s ctx)
  timer_tick-Switches on free = rw (tick_switches on free) after_switch

-- With the scheduler off, or preemption disabled, a tick is counted and acknowledged once, and
-- nothing else changes.
pub timer_tick_off :
    (s : Sched) (ctx : IsrContext)
    → (s.active ≡ false) ⊎ (0 < s.preempt_count)
    → timer_tick s ctx
      ≡ (record s { tick_count = add_w 64 s.tick_count 1; writes = s.writes ++ Pic.eoi 0 }, ctx)
unfolding timer_tick
timer_tick_off s ctx off = elim off [
  | inl e ↦ rw e refl
  | inr e ↦ elim (Bool-cases s.active) [
    | inl on ↦ rw (on, lt→ltb 0 s.preempt_count e) refl
    | inr down ↦ rw down refl
  ]
]
