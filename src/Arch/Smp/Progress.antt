-- ===== src/Arch/Smp/Progress.antt =====
-- The start of the processors comes to its end (`src/kern/arch/x86_64/smp.rs`).
use avaria.Prelude.{ℕ, zero, suc, ◌+◌, ◌-◌, ◌%◌, ◌^◌, ◌≤◌, ◌<◌, ◌≡◌, ◌≢◌, ◌⊎◌, inl, inr, refl, ap}
use avaria.Prelude.{◌∙◌, arith, Bool, true, false, Bool-cases, ◌==◌, ==→≡, ==→≢, some, leb}
use avaria.Prelude.{leb→le, leb→lt, List, length, get_elem?, update, get_or, get_elem?-eq-get_or}
use avaria.Arch.Smp.{
  Smp, Boot, before, waking, waiting, after, Ap, parked, entered, marked, counted, halted, System,
  Step, begin, wake, skip, woken, wait, go, mark, count_in, spin, halt, Reach, next, start,
  mark_online,
}
use avaria.Arch.Smp.Counts.{total, find_passing, all_but, total-update, has_counted}
use avaria.Arch.Smp.Invariant.{Inv, Reach-Inv, there, woken-lt}
use avaria.Arch.Smp.Woken.{is_woken, Woken, Reach-Woken}

-- The steps that are left, waits aside.
abbrev ap_left : Ap → ℕ
ap_left parked = 4
ap_left entered = 3
ap_left marked = 2
ap_left counted = 1
ap_left halted = 0

abbrev boot_left : ℕ → Boot → ℕ
boot_left n before = n + 3
boot_left n (waking k) = n - k + 2
boot_left n waiting = 1
boot_left n after = 0

abbrev left : ℕ → System → ℕ
left n s = boot_left n s.boot + total (λ i. ap_left (s.ap i)) n

pub data Run (bsp : ℕ) (cpus : List ℕ) : System → System → Type 0 where
  done : {s : System} → Run bsp cpus s s
  more : {s t u : System} → Step bsp cpus s t → Run bsp cpus t u → Run bsp cpus s u

-- The boot processor is past `init`, and every other processor is in its last loop.
pub record Finished (bsp : ℕ) (cpus : List ℕ) (s : System) : Type 0 where
  boot_after : s.boot ≡ after
  others : (i id : ℕ) → get_elem? cpus i ≡ some id → id ≢ bsp → s.ap i ≡ halted

pub record Finishes (bsp : ℕ) (cpus : List ℕ) (s : System) : Type 0 where
  end : System
  run : Run bsp cpus s end
  finished : Finished bsp cpus end

-- The start can come to its end, and a step that is no wait brings it closer.
pub record Ends (bsp : ℕ) (cpus : List ℕ) (s : System) : Type 0 where
  finishes : Finishes bsp cpus s
  closer :
      (t : System) → Step bsp cpus s t → (t ≡ s) ⊎ (left (length cpus) t < left (length cpus) s)

-- A step that leaves less to do.
record Advance (bsp : ℕ) (cpus : List ℕ) (s : System) : Type 0 where
  to : System
  step : Step bsp cpus s to
  less : left (length cpus) to < left (length cpus) s

-- Whether a processor is between its wake-up and its count.
abbrev is_starting : Ap → Bool
is_starting entered = true
is_starting marked = true
is_starting _ = false

abbrev is_going : Ap → Bool
is_going parked = false
is_going halted = false
is_going _ = true

starting_cases : (p : Ap) → is_starting p ≡ true → (p ≡ entered) ⊎ (p ≡ marked)
starting_cases parked e = absurd (cc)
starting_cases entered e = inl refl
starting_cases marked e = inr refl
starting_cases counted e = absurd (cc)
starting_cases halted e = absurd (cc)

going_cases : (p : Ap) → is_going p ≡ true → (is_starting p ≡ true) ⊎ (p ≡ counted)
going_cases parked e = absurd (cc)
going_cases entered e = inl refl
going_cases marked e = inl refl
going_cases counted e = inr refl
going_cases halted e = absurd (cc)

started_counted : (p : Ap) → is_woken p ≡ true → is_starting p ≡ false → has_counted p ≡ 1
started_counted parked u e = absurd (cc)
started_counted entered u e = absurd (cc)
started_counted marked u e = absurd (cc)
started_counted counted u e = refl
started_counted halted u e = refl

gone_halted : (p : Ap) → is_woken p ≡ true → is_going p ≡ false → p ≡ halted
gone_halted parked u e = absurd (cc)
gone_halted entered u e = absurd (cc)
gone_halted marked u e = absurd (cc)
gone_halted counted u e = absurd (cc)
gone_halted halted u e = refl

module _ {bsp : ℕ} {cpus : List ℕ} {s : System} (v : Inv bsp cpus s) (w : Woken bsp cpus s) where
  listed : (i : ℕ) → i < length cpus → get_elem? cpus i ≡ some (get_or cpus i 0)
  listed i lt = get_elem?-eq-get_or cpus i 0 lt

  -- One processor moves on to a state with less to do.
  one_less :
      (i : ℕ) (p : Ap) (m : Smp)
      → i < length cpus
      → ap_left p < ap_left (s.ap i)
      → Step bsp cpus s (record s { smp = m; ap = update s.ap i p })
      → Advance bsp cpus s
  one_less i p m lt less st = record {
    to = record s { smp = m; ap = update s.ap i p };
    step = st;
    less = omega (arith, total-update ap_left s.ap i p (length cpus) lt);
  }

  starting_on : (i : ℕ) → i < length cpus → is_starting (s.ap i) ≡ true → Advance bsp cpus s
  starting_on i lt e = elim (starting_cases (s.ap i) e) [
    | inl q ↦
        one_less i marked (mark_online s.smp (get_or cpus i 0)) lt (omega (arith, ap ap_left q))
          (mark i (get_or cpus i 0) q (listed i lt))
    | inr q ↦
        one_less i counted (record s.smp { aps_ready = (s.smp.aps_ready + 1) % 2 ^ 32 }) lt
          (omega (arith, ap ap_left q)) (count_in i q)
  ]

  going_on :
      (i : ℕ)
      → i < length cpus
      → s.smp.all_go ≡ true
      → is_going (s.ap i) ≡ true
      → Advance bsp cpus s
  going_on i lt on e = elim (going_cases (s.ap i) e) [
    | inl q ↦ starting_on i lt q
    | inr q ↦ one_less i halted s.smp lt (omega (arith, ap ap_left q)) (halt i q on)
  ]

  before_on : s.boot ≡ before → Advance bsp cpus s
  before_on e = record {
    to = record s { smp = start s.smp bsp (length cpus); boot = waking 0 };
    step = begin e;
    less = omega (arith, ap (boot_left (length cpus)) e);
  }

  wake_on : (k : ℕ) → s.boot ≡ waking k → k < length cpus → Advance bsp cpus s
  wake_on k e lt = elim (Bool-cases (get_or cpus k 0 == bsp)) [
    | inl q ↦ record {
      to = record s { boot = waking (k + 1) };
      step = skip k e (listed k lt ∙ ap some (==→≡ (get_or cpus k 0) bsp q));
      less = omega (arith, ap (boot_left (length cpus)) e);
    }
    | inr q ↦ record {
      to = record s { boot = waking (k + 1); ap = update s.ap k entered };
      step = wake k (get_or cpus k 0) e (listed k lt) (==→≢ (get_or cpus k 0) bsp q);
      less = omega (
        arith,
        ap (boot_left (length cpus)) e,
        ap ap_left (v.ahead k e k (omega arith)),
        total-update ap_left s.ap k entered (length cpus) lt,
      );
    }
  ]

  waking_on : (k : ℕ) → s.boot ≡ waking k → Advance bsp cpus s
  waking_on k e = elim (Bool-cases (leb (length cpus) k)) [
    | inl q ↦ record {
      to = record s { boot = waiting };
      step = woken k e (leb→le _ _ q);
      less = omega (arith, ap (boot_left (length cpus)) e);
    }
    | inr q ↦ wake_on k e (leb→lt _ _ q)
  ]

  -- With one processor of the boot processor's id, every other one has been woken when the loop is over.
  module _ (few : length cpus < 2 ^ 32) (b : ℕ) (own : get_elem? cpus b ≡ some bsp)
      (only : (i : ℕ) → get_elem? cpus i ≡ some bsp → i ≡ b) where
    waiting_on : s.boot ≡ waiting → Advance bsp cpus s
    waiting_on e = elim (find_passing is_starting s.ap (length cpus)) [
      | inl p ↦ starting_on p.index p.below p.passes
      | inr quiet ↦
          let enough = all_but s.ap b (length cpus) (λ i lt ne.
            started_counted (s.ap i)
              (w.passed i (get_or cpus i 0) (listed i lt)
                (λ q. ne (only i (listed i lt ∙ ap some q))) (rw e refl))
              (quiet i lt)) in
          record {
            to = record s { smp = record s.smp { all_go = true }; boot = after };
            step = go e (omega (arith, enough, v.ready, there cpus b bsp own));
            less = omega (arith, ap (boot_left (length cpus)) e);
          }
    ]

    after_on : s.boot ≡ after → Advance bsp cpus s ⊎ Finished bsp cpus s
    after_on e = elim (find_passing is_going s.ap (length cpus)) [
      | inl p ↦ inl (going_on p.index p.below (w.released e) p.passes)
      | inr quiet ↦ inr (record {
        boot_after = e;
        others = λ i id at ne.
            gone_halted (s.ap i) (w.passed i id at ne (rw e refl)) (quiet i (there cpus i id at));
      })
    ]

    boot_on : (p : Boot) → s.boot ≡ p → Advance bsp cpus s ⊎ Finished bsp cpus s
    boot_on before e = inl (before_on e)
    boot_on (waking k) e = inl (waking_on k e)
    boot_on waiting e = inl (waiting_on e)
    boot_on after e = after_on e

module _ {bsp : ℕ} {cpus : List ℕ} (few : length cpus < 2 ^ 32) (b : ℕ)
    (own : get_elem? cpus b ≡ some bsp) (only : (i : ℕ) → get_elem? cpus i ≡ some bsp → i ≡ b) where
  run_on : (n : ℕ) (s : System) → left (length cpus) s ≤ n → Reach bsp cpus s → Finishes bsp cpus s
  run_on zero s le r = elim (boot_on (Reach-Inv few r) (Reach-Woken r) few b own only s.boot refl) [
    | inr f ↦ record { end = s; run = done; finished = f }
    | inl a ↦ absurd (omega (arith, a.less))
  ]
  run_on (suc n) s le r =
      elim (boot_on (Reach-Inv few r) (Reach-Woken r) few b own only s.boot refl) [
        | inr f ↦ record { end = s; run = done; finished = f }
        | inl a ↦
            let rest = run_on n a.to (omega (arith, a.less)) (next r a.step) in
            record { end = rest.end; run = more a.step rest.run; finished = rest.finished }
      ]

Step-closer :
    {bsp : ℕ} {cpus : List ℕ} {s t : System}
    → Inv bsp cpus s
    → Step bsp cpus s t
    → (t ≡ s) ⊎ (left (length cpus) t < left (length cpus) s)
Step-closer {bsp} {cpus} v (begin b) = inr (omega (arith, ap (boot_left (length cpus)) b))
Step-closer {bsp} {cpus} {s} v (wake i id b at ne) = inr (
    omega (
      arith,
      ap (boot_left (length cpus)) b,
      ap ap_left (v.ahead i b i (omega arith)),
      total-update ap_left s.ap i entered (length cpus) (there cpus i id at),
    ))
Step-closer {bsp} {cpus} v (skip i b at) =
    inr (omega (arith, ap (boot_left (length cpus)) b, there cpus i bsp at))
Step-closer {bsp} {cpus} v (woken i b le) = inr (omega (arith, ap (boot_left (length cpus)) b))
Step-closer v (wait b lt) = inl refl
Step-closer {bsp} {cpus} v (go b le) = inr (omega (arith, ap (boot_left (length cpus)) b))
Step-closer {bsp} {cpus} {s} v (mark i id e at) = inr (
    omega
      (arith, ap ap_left e, total-update ap_left s.ap i marked (length cpus) (there cpus i id at)))
Step-closer {bsp} {cpus} {s} v (count_in i e) = inr (
    omega (
      arith,
      ap ap_left e,
      total-update ap_left s.ap i counted (length cpus) (woken-lt v i (λ q. cc)),
    ))
Step-closer v (spin i e off) = inl refl
Step-closer {bsp} {cpus} {s} v (halt i e on) = inr (
    omega (
      arith,
      ap ap_left e,
      total-update ap_left s.ap i halted (length cpus) (woken-lt v i (λ q. cc)),
    ))

-- From every state that the processors can reach, with fewer than 2 ^ 32 processors of which exactly
-- one has the boot processor's id, there is a run to a state where the boot processor is past `init` and
-- every other processor is in its last loop; and every step from the state that is not one more round of
-- a waiting loop leaves fewer steps to do.
pub Reach-Ends :
    {bsp : ℕ} {cpus : List ℕ}
    → length cpus < 2 ^ 32
    → (b : ℕ) → get_elem? cpus b ≡ some bsp
    → ((i : ℕ) → get_elem? cpus i ≡ some bsp → i ≡ b)
    → (s : System) → Reach bsp cpus s
    → Ends bsp cpus s
Reach-Ends {bsp} {cpus} few b own only s r = record {
  finishes = run_on few b own only (left (length cpus) s) s (omega arith) r;
  closer = λ t st. Step-closer (Reach-Inv few r) st;
}
