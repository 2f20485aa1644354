-- ===== src/Sched.antt =====
-- `src/kern/sched.rs`: sixteen tasks, switched in turn by the timer. What the serial port is told
-- is left out.
pub mod Pick
pub mod Contexts
pub mod Tick
pub mod Fair
pub mod Spawn
pub mod Steps
mod Tests
use package.avaria.Prelude.{
  ℕ, zero, suc, ◌+◌, ◌-◌, ◌*◌, ◌/◌, ◌%◌, ◌^◌, min, Bool, true, false, not, ◌==◌, ltb,
}
use package.avaria.Prelude.{
  leb, ◌||◌, if◌then◌else◌, Option, none, some, List, [], ◌∷◌, ◌++◌, length, take,
}
use package.avaria.Prelude.{drop, get_or, set, replicate, add_w, sub_w}
use package.avaria.Arch.Context.{IsrContext}
use package.avaria.Arch.Pic
use package.avaria.Arch.Pic.{Writes}
use package.avaria.Mm.Heap
use package.avaria.Mm.Heap.{Heap}

abbrev pub max_tasks : ℕ
max_tasks = 16

abbrev pub task_stack_size : ℕ
task_stack_size = 0x4000

abbrev pub task_stack_order : ℕ
task_stack_order = 2

pub data TaskState : Type 0 where
  empty ready running exited : TaskState

abbrev pub is_ready : TaskState → Bool
is_ready ready = true
is_ready _ = false

abbrev pub is_running : TaskState → Bool
is_running running = true
is_running _ = false

abbrev pub is_exited : TaskState → Bool
is_exited exited = true
is_exited _ = false

-- `state == Empty || state == Exited`
abbrev pub is_vacant : TaskState → Bool
is_vacant empty = true
is_vacant exited = true
is_vacant _ = false

pub record Task : Type 0 where
  pub rip : ℕ
  pub rsp : ℕ
  pub rflags : ℕ
  pub rax : ℕ
  pub rbx : ℕ
  pub rcx : ℕ
  pub rdx : ℕ
  pub rsi : ℕ
  pub rdi : ℕ
  pub rbp : ℕ
  pub r8 : ℕ
  pub r9 : ℕ
  pub r10 : ℕ
  pub r11 : ℕ
  pub r12 : ℕ
  pub r13 : ℕ
  pub r14 : ℕ
  pub r15 : ℕ
  pub state : TaskState
  pub id : ℕ
  pub stack_base : ℕ
  pub stack_size : ℕ
  pub name : List ℕ

abbrev pub empty_task : Task
empty_task = record {
  rip = 0;
  rsp = 0;
  rflags = 0;
  rax = 0;
  rbx = 0;
  rcx = 0;
  rdx = 0;
  rsi = 0;
  rdi = 0;
  rbp = 0;
  r8 = 0;
  r9 = 0;
  r10 = 0;
  r11 = 0;
  r12 = 0;
  r13 = 0;
  r14 = 0;
  r15 = 0;
  state = empty;
  id = 0;
  stack_base = 0;
  stack_size = 0;
  name = replicate 16 0;
}

-- The static variables of the module, the interrupt flag, the `rsp0` of the task state segment,
-- and the port writes so far.
pub record Sched : Type 0 where
  pub tasks : List Task
  pub current : ℕ
  pub active : Bool
  pub tick_count : ℕ
  pub preempt_count : ℕ
  pub interrupts : Bool
  pub rsp0 : ℕ
  pub writes : Writes

abbrev pub task : Sched → ℕ → Task
task s i = get_or s.tasks i empty_task

abbrev pub put_task : Sched → ℕ → Task → Sched
put_task s i t = record s { tasks = set s.tasks i t }

pub save_ctx : Task → IsrContext → Task
save_ctx t ctx = record t {
  rip = ctx.rip;
  rsp = ctx.rsp;
  rflags = ctx.rflags;
  rax = ctx.rax;
  rbx = ctx.rbx;
  rcx = ctx.rcx;
  rdx = ctx.rdx;
  rsi = ctx.rsi;
  rdi = ctx.rdi;
  rbp = ctx.rbp;
  r8 = ctx.r8;
  r9 = ctx.r9;
  r10 = ctx.r10;
  r11 = ctx.r11;
  r12 = ctx.r12;
  r13 = ctx.r13;
  r14 = ctx.r14;
  r15 = ctx.r15;
}

pub load_ctx : Task → IsrContext → IsrContext
load_ctx t ctx = record ctx {
  rip = t.rip;
  rsp = t.rsp;
  rflags = t.rflags;
  rax = t.rax;
  rbx = t.rbx;
  rcx = t.rcx;
  rdx = t.rdx;
  rsi = t.rsi;
  rdi = t.rdi;
  rbp = t.rbp;
  r8 = t.r8;
  r9 = t.r9;
  r10 = t.r10;
  r11 = t.r11;
  r12 = t.r12;
  r13 = t.r13;
  r14 = t.r14;
  r15 = t.r15;
  cs = 0x08;
  ss = 0x10;
}

-- `task_exit` up to its endless halt.
pub task_exit : Sched → Sched
task_exit s = record (put_task s s.current (record (task s s.current) { state = exited })) {
  interrupts = true;
}

-- The search loop of `timer_tick`, with `left` rounds to go.
pub pick_next : Sched → ℕ → ℕ → ℕ
pick_next s zero next = next
pick_next s (suc left) next =
    let after = (next + 1) % max_tasks in
    let rest = pick_next s left after in if is_ready (task s after).state then after else rest

pub send_eoi : Sched → Sched
unfolding Pic.eoi
send_eoi s = record s { writes = s.writes ++ Pic.eoi 0 }

-- Saves the interrupted task, which is ready again if it ran.
pub save_current : Sched → IsrContext → Sched
unfolding save_ctx
save_current s ctx =
    let saved = save_ctx (task s s.current) ctx in
    put_task s s.current (if is_running saved.state then record saved { state = ready } else saved)

pub switch_to : Sched → ℕ → IsrContext → Sched × IsrContext
unfolding load_ctx
switch_to s next ctx =
    let t = task s next in
    (
      record (put_task s next (record t { state = running })) {
        current = next;
        rsp0 = add_w 64 t.stack_base t.stack_size;
      },
      load_ctx t ctx,
    )

-- The part of `timer_tick` after the search.
pub dispatch : Sched → ℕ → IsrContext → Sched × IsrContext
unfolding switch_to
dispatch s next ctx =
    if is_ready (task s next).state
    then switch_to s next ctx
    else if is_exited (task s 0).state
    then (s, ctx)
    else switch_to s 0 ctx

pub timer_tick : Sched → IsrContext → Sched × IsrContext
unfolding send_eoi save_current dispatch pick_next
timer_tick s ctx =
    let s1 = record s { tick_count = add_w 64 s.tick_count 1 } in
    let s2 = save_current s1 ctx in
    let (s3, ctx') = dispatch s2 (pick_next s2 max_tasks s.current) ctx in
    if not s.active || ltb 0 s.preempt_count then (send_eoi s1, ctx) else (send_eoi s3, ctx')

abbrev pub boot : Sched
boot = record {
  tasks = replicate max_tasks empty_task;
  current = 0;
  active = false;
  tick_count = 0;
  preempt_count = 0;
  interrupts = true;
  rsp0 = 0;
  writes = [];
}

-- The part of `init` that sets up the idle task; the timer and its handler are set up in `Arch`.
unfoldable pub init : Sched → Sched
init s =
    let t = task s 0 in
    put_task s 0
      (record t { state = running; id = 0; name = b'i' ∷ b'd' ∷ b'l' ∷ b'e' ∷ drop 4 t.name })

-- The search loop of `spawn`, at slot `i` with `left` slots to go.
pub find_slot : Sched → ℕ → ℕ → Option ℕ
find_slot s zero i = none
find_slot s (suc left) i =
    let rest = find_slot s left (i + 1) in if is_vacant (task s i).state then some i else rest

-- The new task. `trampoline` is the address of `task_trampoline`.
pub new_task : ℕ → ℕ → ℕ → ℕ → ℕ → List ℕ → Task
new_task trampoline i stack_base entry api name =
    let copy_len = min (length name) 15 in
    record empty_task {
      id = i;
      state = ready;
      stack_base = stack_base;
      stack_size = task_stack_size;
      name = take copy_len name ++ replicate (16 - copy_len) 0;
      rip = trampoline;
      rsp = sub_w 64 (add_w 64 stack_base task_stack_size) 8;
      rflags = 0x202;
      rdi = entry;
      rsi = api;
    }

-- A stack for slot `i` is the answer of the page allocator.
pub spawn_in : ℕ → ℕ → ℕ → List ℕ → Sched → ℕ → Heap × Option ℕ → Sched × Heap × Option ℕ
unfolding new_task
spawn_in trampoline entry api name s i (heap, none) = (s, heap, none)
spawn_in trampoline entry api name s i (heap, some base) =
    (put_task s i (new_task trampoline i base entry api name), heap, some i)

-- The stack is asked for only when there is a slot.
pub spawn_slot : ℕ → ℕ → ℕ → List ℕ → Sched → Heap → Option ℕ → Sched × Heap × Option ℕ
unfolding spawn_in Heap.alloc_pages
spawn_slot trampoline entry api name s heap none = (s, heap, none)
spawn_slot trampoline entry api name s heap (some i) =
    spawn_in trampoline entry api name s i (Heap.alloc_pages heap task_stack_order)

-- Interrupts are off during `spawn`, and on again whichever way it returns.
unfoldable pub spawn : ℕ → ℕ → ℕ → List ℕ → Sched → Heap → Sched × Heap × Option ℕ
unfolding find_slot spawn_slot
spawn trampoline entry api name s heap =
    spawn_slot trampoline entry api name (record s { interrupts = true }) heap
      (find_slot s (max_tasks - 1) 1)

pub start : Sched → Sched
start s = record s { active = true }

pub ticks : Sched → ℕ
ticks s = s.tick_count

unfoldable pub preempt_disable : Sched → Sched
preempt_disable s = record s { preempt_count = add_w 32 s.preempt_count 1 }

unfoldable pub preempt_enable : Sched → Sched
preempt_enable s =
    if ltb 0 s.preempt_count then record s { preempt_count = s.preempt_count - 1 } else s
