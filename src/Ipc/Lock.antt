-- ===== src/Ipc/Lock.antt =====
-- `SpinLock` of `src/kern/arch/x86_64/ipc.rs` under every interleaving of its threads.
use avaria.Prelude.{ℕ, ◌≡◌, sym, ◌∙◌, ◌≢◌, ◌⊎◌, inl, inr, arith, ◌==◌, if◌then◌else◌, Bool-cases}
use avaria.Prelude.{==→≡, ==→≢}

-- Where a thread stands: outside, at the exchange of `lock`, in its inner loop, or inside.
pub data Place : Type 0 where
  outside trying spinning inside : Place

pub record State : Type 0 where
  pub locked : ℕ
  pub place : ℕ → Place

abbrev pub move : (ℕ → Place) → ℕ → Place → ℕ → Place
move f i p j = if i == j then p else f j

-- One atomic step of thread `i`. The weak exchange of `lock` may also fail without a reason;
-- `try_lock` is one strong exchange.
pub data Step (s : State) : State → Type 0 where
  enter : (i : ℕ) → s.place i ≡ outside → Step s (record s { place = move s.place i trying })
  exchange :
      (i : ℕ)
      → s.place i ≡ trying
      → s.locked ≡ 0
      → Step s (record { locked = 1; place = move s.place i inside })
  exchange_fails :
      (i : ℕ) → s.place i ≡ trying → Step s (record s { place = move s.place i spinning })
  spin : (i : ℕ) → s.place i ≡ spinning → s.locked ≢ 0 → Step s s
  retry :
      (i : ℕ)
      → s.place i ≡ spinning
      → s.locked ≡ 0
      → Step s (record s { place = move s.place i trying })
  try_lock :
      (i : ℕ)
      → s.place i ≡ outside
      → s.locked ≡ 0
      → Step s (record { locked = 1; place = move s.place i inside })
  try_fails : (i : ℕ) → s.place i ≡ outside → s.locked ≢ 0 → Step s s
  unlock :
      (i : ℕ) → s.place i ≡ inside → Step s (record { locked = 0; place = move s.place i outside })

pub data Reach (s : State) : State → Type 0 where
  here : Reach s s
  next : {t u : State} → Reach s t → Step t u → Reach s u

-- At most one thread is inside, and only while the word is set.
pub record IsExclusive (s : State) : Type 0 where
  pub set_inside : (i : ℕ) → s.place i ≡ inside → s.locked ≢ 0
  pub one_inside : (i j : ℕ) → s.place i ≡ inside → s.place j ≡ inside → i ≡ j

-- A thread that moves elsewhere than inside adds nobody.
stays :
    (f : ℕ → Place) (i : ℕ) (p : Place)
    → p ≢ inside
    → (j : ℕ) → move f i p j ≡ inside
    → (f j ≡ inside) × (i ≢ j)
stays f i p out j h = elim (Bool-cases (i == j)) [
  | inl e ↦ absurd (out (rw e at h))
  | inr e ↦ (rw e at h, ==→≢ i j e)
]

enters : (f : ℕ → Place) (i j : ℕ) → move f i inside j ≡ inside → (i ≡ j) ⊎ (f j ≡ inside)
enters f i j h = elim (Bool-cases (i == j)) [ inl e ↦ inl (==→≡ i j e) | inr e ↦ inr (rw e at h) ]

step_aside :
    {s : State} (i : ℕ) (p : Place)
    → p ≢ inside
    → IsExclusive s
    → IsExclusive (record s { place = move s.place i p })
step_aside {s} i p out x = record {
  set_inside = λ j h. x.set_inside j (stays s.place i p out j h).0;
  one_inside =
      λ j k hj hk. x.one_inside j k (stays s.place i p out j hj).0 (stays s.place i p out k hk).0;
}

take_lock :
    {s : State} (i : ℕ)
    → s.locked ≡ 0
    → IsExclusive s
    → IsExclusive (record { locked = 1; place = move s.place i inside })
take_lock {s} i free x =
    let only = λ (j : ℕ) (h : move s.place i inside j ≡ inside).
      let r : i ≡ j = elim (enters s.place i j h) [
        | inl e ↦ e
        | inr old ↦ absurd (x.set_inside j old free)
      ] in
      r in
    record {
      set_inside = λ j h. omega arith;
      one_inside = λ j k hj hk. sym (only j hj) ∙ only k hk;
    }

Step-IsExclusive : {s t : State} → Step s t → IsExclusive s → IsExclusive t
Step-IsExclusive (enter i h) x = step_aside i trying (λ e. cc) x
Step-IsExclusive (exchange i h free) x = take_lock i free x
Step-IsExclusive (exchange_fails i h) x = step_aside i spinning (λ e. cc) x
Step-IsExclusive (spin i h busy) x = x
Step-IsExclusive (retry i h free) x = step_aside i trying (λ e. cc) x
Step-IsExclusive (try_lock i h free) x = take_lock i free x
Step-IsExclusive (try_fails i h busy) x = x
Step-IsExclusive {s} (unlock i h) x = record {
  set_inside = λ j hj.
      let o = stays s.place i outside (λ e. cc) j hj in absurd (o.1 (x.one_inside i j h o.0));
  one_inside = λ j k hj hk.
      x.one_inside j k (stays s.place i outside (λ e. cc) j hj).0
        (stays s.place i outside (λ e. cc) k hk).0;
}

-- From a state in which the lock excludes, whatever the threads do and in whatever order, two
-- threads that are inside at one time are the same thread.
pub Reach-exclusive :
    {s t : State}
    → IsExclusive s
    → Reach s t
    → (i j : ℕ) → t.place i ≡ inside
    → t.place j ≡ inside
    → i ≡ j
Reach-exclusive x r = (all r x).one_inside
  where
    all : {s t : State} → Reach s t → IsExclusive s → IsExclusive t
    all here x = x
    all (next r st) x = Step-IsExclusive st (all r x)
