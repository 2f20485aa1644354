-- ===== src/Sched/Spawn.antt =====
-- What `spawn`, `task_exit` and the preemption counter of `src/kern/sched.rs` do.
use avaria.Prelude.{ℕ, zero, suc, ◌+◌, ◌<◌, ◌≤◌, ◌≡◌, refl, ap, ◌∙◌, ◌⊎◌, arith, Bool}
use avaria.Prelude.{
  true, false, Bool-cases, Option-cases, Option, none, some, inl, inr, ◌==◌, ==→≡, ==→≢,
}
use avaria.Prelude.{List, [], ◌∷◌, ◌++◌, length, take, replicate, ◌-◌, ◌^◌, min}
use avaria.Mm.Heap
use avaria.Mm.Heap.{Heap}
use avaria.Sched.{Sched, Task, ready, is_vacant, task, put_task}
use avaria.Sched.{find_slot, spawn, spawn_slot, spawn_in, new_task, task_stack_order}

abbrev vacant : Sched → ℕ → Bool
vacant s i = is_vacant (task s i).state

-- The first vacant slot among `left` slots from `i` on.
find_slot-cases :
    (s : Sched) (left i : ℕ)
    → ((k : ℕ) × (find_slot s left i ≡ some k)
        × (i ≤ k)
        × (k < i + left)
        × (vacant s k ≡ true)
        × ((j : ℕ) → i ≤ j → j < k → vacant s j ≡ false))
      ⊎ ((find_slot s left i ≡ none) × ((j : ℕ) → i ≤ j → j < i + left → vacant s j ≡ false))
unfolding find_slot
find_slot-cases s zero i = inr (refl, λ j lo hi. absurd (omega arith))
find_slot-cases s (suc left) i = elim (Bool-cases (vacant s i)) [
  | inl e ↦ inl (i, rw e refl, omega arith, omega arith, e, λ j lo hi. absurd (omega arith))
  | inr e ↦
      let here : (j : ℕ) → i ≤ j → j < i + 1 → vacant s j ≡ false =
        λ j lo hi. let same : j ≡ i = omega arith in rw same e in
      elim (find_slot-cases s left (i + 1)) [
        | inl (k, got, lo, hi, free, first) ↦ inl (
          k,
          rw e got,
          omega arith,
          omega arith,
          free,
          λ j jlo jhi. elim (Bool-cases (i == j)) [
            | inl q ↦ here j jlo (omega (arith, ==→≡ i j q))
            | inr q ↦ let ne = ==→≢ i j q in first j (omega arith) jhi
          ],
        )
        | inr (failed, all) ↦ inr (
          rw e failed,
          λ j jlo jhi. elim (Bool-cases (i == j)) [
            | inl q ↦ here j jlo (omega (arith, ==→≡ i j q))
            | inr q ↦ let ne = ==→≢ i j q in all j (omega arith) (omega arith)
          ],
        )
      ]
]

-- What `spawn` makes of a slot and of the answer of the page allocator.
spawn_in-none :
    (trampoline entry api : ℕ) (name : List ℕ) (s : Sched) (i : ℕ) (got : Heap × Option ℕ)
    → got.1 ≡ none
    → spawn_in trampoline entry api name s i got ≡ (s, got.0, none)
unfolding spawn_in
spawn_in-none trampoline entry api name s i (heap, none) e = refl
spawn_in-none trampoline entry api name s i (heap, some base) e = absurd (cc)

spawn_in-some :
    (trampoline entry api : ℕ) (name : List ℕ) (s : Sched) (i base : ℕ) (got : Heap × Option ℕ)
    → got.1 ≡ some base
    → spawn_in trampoline entry api name s i got
      ≡ (put_task s i (new_task trampoline i base entry api name), got.0, some i)
unfolding spawn_in
spawn_in-some trampoline entry api name s i base (heap, none) e = absurd (cc)
spawn_in-some trampoline entry api name s i base (heap, some b) e =
    let same : b ≡ base = cc in rw same refl

-- The task of slot `i` at its start: it runs the trampoline with the entry point and the table of
-- functions as its arguments, eight bytes below the end of its stack, with interrupts on.
pub record IsNew (trampoline i base entry api : ℕ) (name : List ℕ) (t : Task) : Type 0 where
  pub rip : t.rip ≡ trampoline
  pub first_argument : t.rdi ≡ entry
  pub second_argument : t.rsi ≡ api
  pub rsp : base + 0x4000 < 2 ^ 64 → t.rsp ≡ base + 0x4000 - 8
  pub rflags : t.rflags ≡ 0x202
  pub other_registers :
      (t.rax ≡ 0)
      × (t.rbx ≡ 0)
      × (t.rcx ≡ 0)
      × (t.rdx ≡ 0)
      × (t.rbp ≡ 0)
      × (t.r8 ≡ 0)
      × (t.r9 ≡ 0)
      × (t.r10 ≡ 0)
      × (t.r11 ≡ 0)
      × (t.r12 ≡ 0)
      × (t.r13 ≡ 0)
      × (t.r14 ≡ 0)
      × (t.r15 ≡ 0)
  pub state : t.state ≡ ready
  pub id : t.id ≡ i
  pub stack : (t.stack_base ≡ base) × (t.stack_size ≡ 0x4000)
  pub short_name : length name ≤ 15 → t.name ≡ name ++ replicate (16 - length name) 0
  pub long_name : 15 ≤ length name → t.name ≡ take 15 name ++ (0 ∷ [])

take-length : (name : List ℕ) → take (length name) name ≡ name
take-length [] = refl
take-length (c ∷ cs) = ap (λ r. c ∷ r) (take-length cs)

new_task-IsNew :
    (trampoline i base entry api : ℕ) (name : List ℕ)
    → IsNew trampoline i base entry api name (new_task trampoline i base entry api name)
unfolding new_task
new_task-IsNew trampoline i base entry api name = record {
  rip = refl;
  first_argument = refl;
  second_argument = refl;
  rsp = λ h. omega arith;
  rflags = refl;
  other_registers = (refl, refl, refl, refl, refl, refl, refl, refl, refl, refl, refl, refl, refl);
  state = refl;
  id = refl;
  stack = (refl, refl);
  short_name = λ h.
      let m : min (length name) 15 ≡ length name = omega arith in rw (m, take-length name) refl;
  long_name = λ h. let m : min (length name) 15 ≡ 15 = omega arith in rw m refl;
}

module _ (trampoline entry api : ℕ) (name : List ℕ) (s : Sched) (heap : Heap) where
  abbrev outcome : Sched × Heap × Option ℕ
  outcome = spawn trampoline entry api name s heap

  abbrev stack : Heap × Option ℕ
  stack = Heap.alloc_pages heap task_stack_order

  -- The three ways in which `spawn` returns: a task in the first vacant slot after 0, on a new
  -- stack, with every other slot as it was; no slot, and the heap untouched; no stack, and the tasks
  -- untouched. Interrupts are on after each.
  pub data Spawned : Type 0 where
    in_slot :
        (i base : ℕ) (t : Task)
        → (0 < i) × (i < 16) × (vacant s i ≡ true) × ((j : ℕ) → 0 < j → j < i → vacant s j ≡ false)
        → stack.1 ≡ some base
        → IsNew trampoline i base entry api name t
        → outcome ≡ (put_task (record s { interrupts = true }) i t, stack.0, some i)
        → Spawned
    no_slot :
        ((j : ℕ) → 0 < j → j < 16 → vacant s j ≡ false)
        → outcome ≡ (record s { interrupts = true }, heap, none)
        → Spawned
    no_stack : stack.1 ≡ none → outcome ≡ (record s { interrupts = true }, stack.0, none) → Spawned

  at_slot :
      (slot : Option ℕ)
      → find_slot s 15 1 ≡ slot
      → outcome ≡ spawn_slot trampoline entry api name (record s { interrupts = true }) heap slot
  unfolding spawn
  at_slot slot e = ap (spawn_slot trampoline entry api name (record s { interrupts = true }) heap) e

  -- `spawn` puts a new task, ready to run the trampoline with the given arguments at the end of a stack
  -- that the page allocator gives, into the first vacant slot after 0, whose number it returns, and
  -- leaves every other slot; or, without a vacant slot, it returns none and asks for no stack; or,
  -- without a stack, it returns none and leaves the tasks. Interrupts are on after each.
  pub spawn-Spawned : Spawned
  unfolding spawn_slot
  spawn-Spawned = elim (find_slot-cases s 15 1) [
    | inr (failed, all) ↦ no_slot (λ j lo hi. all j lo (omega arith)) (at_slot none failed)
    | inl (i, got, lo, hi, free, first) ↦
        let s' = record s { interrupts = true } in
        elim (Option-cases stack.1) [
          | inl e ↦
              no_stack e
                (at_slot (some i) got ∙ spawn_in-none trampoline entry api name s' i stack e)
          | inr (base, e) ↦
              in_slot i base (new_task trampoline i base entry api name)
                (lo, omega arith, free, first) e (new_task-IsNew trampoline i base entry api name)
                (at_slot (some i) got ∙ spawn_in-some trampoline entry api name s' i base stack e)
        ]
  ]
