-- ===== src/Sched/Pick.antt =====
-- The search of `timer_tick` for the next ready task (`src/kern/sched.rs`), and the invariant.
use avaria.Prelude.{ℕ, zero, suc, ◌+◌, ◌-◌, ◌%◌, ◌<◌, ◌≤◌, ◌≡◌, refl, ◌∙◌, ◌≢◌, ◌⊎◌, arith, Bool}
use avaria.Prelude.{true, false, Bool-cases, inl, inr, ◌==◌, ==→≡, ==→≢, length}
use avaria.Prelude.{get_or-set_self, get_or-set_ne, if◌then◌else◌}
use avaria.Arch.Context.{IsrContext}
use avaria.Sched.{
  Sched, Task, TaskState, running, ready, is_ready, is_running, is_vacant, task, put_task,
}
use avaria.Sched.{pick_next, save_ctx}

-- Whether the task in a slot may be picked.
abbrev pub can_run : Sched → ℕ → Bool
can_run s i = is_ready (task s i).state

-- Sixteen slots, no running task but the current one, and an idle task in slot 0 that has begun
-- and not exited.
pub record IsValid (s : Sched) : Type 0 where
  pub slots : length s.tasks ≡ 16
  pub current_in : s.current < 16
  pub only_current : (i : ℕ) → (task s i).state ≡ running → i ≡ s.current
  pub idle : is_vacant (task s 0).state ≡ false

-- The first ready task at one of the distances 1, ..., `left` round the table from `i`.
pub record First (s : Sched) (i left slot : ℕ) : Type 0 where
  pub distance : ℕ
  pub at_least : 0 < distance
  pub at_most : distance ≤ left
  pub place : slot ≡ (i + distance) % 16
  pub runs : can_run s slot ≡ true
  pub between : (e : ℕ) → 0 < e → e < distance → can_run s ((i + e) % 16) ≡ false

pub pick_next-cases :
    (s : Sched) (left i : ℕ)
    → First s i left (pick_next s left i)
      ⊎ ((e : ℕ) → 0 < e → e ≤ left → can_run s ((i + e) % 16) ≡ false)
unfolding pick_next
pick_next-cases s zero i = inr (λ e lo hi. absurd (omega arith))
pick_next-cases s (suc left) i =
    let after = (i + 1) % 16 in
    let step : (e : ℕ) → 0 < e → (after + (e - 1)) % 16 ≡ (i + e) % 16 = λ e lo. omega arith in
    elim (Bool-cases (can_run s after)) [
      | inl r ↦ inl (
          rw r (record {
            distance = 1;
            at_least = omega arith;
            at_most = omega arith;
            place = refl;
            runs = r;
            between = λ e lo hi. absurd (omega arith);
          }))
      | inr r ↦
          let skip : (e : ℕ) → 0 < e → e < 2 → can_run s ((i + e) % 16) ≡ false =
            λ e lo hi. let one : e ≡ 1 = omega arith in rw one r in
          elim (pick_next-cases s left after) [
            | inl f ↦ inl (
                rw r (record {
                  distance = f.distance + 1;
                  at_least = omega arith;
                  at_most = omega (arith, f.at_most);
                  place = f.place ∙ omega arith;
                  runs = f.runs;
                  between = λ e lo hi. elim (Bool-cases (e == 1)) [
                    | inl q ↦ skip e lo (omega (arith, ==→≡ e 1 q))
                    | inr q ↦
                        let ne = ==→≢ e 1 q in
                        rw (← step e lo) (f.between (e - 1) (omega arith) (omega arith))
                  ];
                }))
            | inr nobody ↦ inr (λ e lo hi. elim (Bool-cases (e == 1)) [
              | inl q ↦ skip e lo (omega (arith, ==→≡ e 1 q))
              | inr q ↦
                  let ne = ==→≢ e 1 q in
                  rw (← step e lo) (nobody (e - 1) (omega arith) (omega arith))
            ])
          ]
    ]

module _ (s : Sched) (size : length s.tasks ≡ 16) where
  pub task-put_self : (i : ℕ) (t : Task) → i < 16 → task (put_task s i t) i ≡ t
  task-put_self i t h = get_or-set_self s.tasks i t _ (omega arith)

  pub task-put_ne : (i j : ℕ) (t : Task) → i ≢ j → task (put_task s i t) j ≡ task s j
  task-put_ne i j t ne = get_or-set_ne s.tasks t _ ne

-- The state in which the interrupted task is saved.
abbrev pub resting : TaskState → TaskState
resting st = if is_running st then ready else st

pub resting-state :
    (t : Task) (ctx : IsrContext)
    → (if is_running (save_ctx t ctx).state
        then record (save_ctx t ctx) { state = ready }
        else save_ctx t ctx).state
      ≡ resting t.state
unfolding save_ctx
resting-state t ctx = elim (Bool-cases (is_running t.state)) [
  | inl e ↦ rw e refl
  | inr e ↦ rw e refl
]
