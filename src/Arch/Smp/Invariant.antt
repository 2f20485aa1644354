-- ===== src/Arch/Smp/Invariant.antt =====
-- What holds in every state that the start of the processors reaches (`src/kern/arch/x86_64/smp.rs`).
use avaria.Prelude.{ℕ, ◌+◌, ◌-◌, ◌%◌, ◌^◌, ◌≤◌, ◌<◌, ◌≡◌, ◌≢◌, inl, inr, refl, sym, ap, ◌∙◌, arith}
use avaria.Prelude.{true, false, Bool-cases, ◌==◌, ==→≡, ==→≢, some, none}
use avaria.Prelude.{List, length, length-set, get_elem?, update, get_or-set_self}
use avaria.Prelude.{
  get_or-set_ne, leb, leb→le, leb→lt, get_elem?-eq-none, get-update_self, get-update_ne,
}
use avaria.Arch.Smp.{
  Smp, Boot, before, waking, waiting, after, Ap, parked, entered, marked, counted, halted, System,
  Step, begin, wake, skip, woken, wait, go, mark, count_in, spin, halt, Reach, here, next, reset,
  mark_online, is_online, start,
}
use avaria.Arch.Smp.Counts.{has_counted, is_up, arrived, arrived-update, arrived-le, arrived_parked}

-- `APS_READY` is the number of processors that have counted themselves; one that has set its slot has
-- it set for good; the boot processor starts nobody with its own id; and `ALL_GO` waits for all but one.
pub record Inv (bsp : ℕ) (cpus : List ℕ) (s : System) : Type 0 where
  pub slots : length s.smp.online ≡ 64
  pub ready : s.smp.aps_ready ≡ arrived s.ap (length cpus)
  pub up :
      (i id : ℕ) → get_elem? cpus i ≡ some id → is_up (s.ap i) ≡ true → is_online s.smp id ≡ true
  pub own : (i : ℕ) → get_elem? cpus i ≡ some bsp → s.ap i ≡ parked
  pub beyond : (i : ℕ) → get_elem? cpus i ≡ none → s.ap i ≡ parked
  pub gone : s.smp.all_go ≡ true → length cpus ≤ s.smp.aps_ready + 1
  pub gone_late : s.smp.all_go ≡ true → s.boot ≢ before
  pub begun : s.boot ≢ before → is_online s.smp bsp ≡ true
  pub early : s.boot ≡ before → (i : ℕ) → s.ap i ≡ parked
  pub ahead : (k : ℕ) → s.boot ≡ waking k → (i : ℕ) → k ≤ i → s.ap i ≡ parked

module _ (s : Smp) (slots : length s.online ≡ 64) (id : ℕ) where
  mark_online_self : is_online (mark_online s id) id ≡ true
  mark_online_self = get_or-set_self s.online (id % 64) true false (omega arith)

  mark_online-keeps :
      (other : ℕ) → is_online s other ≡ true → is_online (mark_online s id) other ≡ true
  mark_online-keeps other on = elim (Bool-cases (id % 64 == other % 64)) [
    | inl e ↦ rw (← ==→≡ (id % 64) (other % 64) e) mark_online_self
    | inr e ↦ get_or-set_ne s.online true false (==→≢ (id % 64) (other % 64) e) ∙ on
  ]

module _ {bsp : ℕ} {cpus : List ℕ} {s : System} (v : Inv bsp cpus s) where
  -- A processor that has been woken stands in the list, and is not the boot processor.
  woken_there : (i : ℕ) → s.ap i ≢ parked → get_elem? cpus i ≢ none
  woken_there i ne e = ne (v.beyond i e)

  woken_other : (i : ℕ) → s.ap i ≢ parked → get_elem? cpus i ≢ some bsp
  woken_other i ne e = ne (v.own i e)

  pub woken-lt : (i : ℕ) → s.ap i ≢ parked → i < length cpus
  woken-lt i ne = elim (Bool-cases (leb (length cpus) i)) [
    | inl e ↦ absurd (woken_there i ne (get_elem?-eq-none cpus i (leb→le _ _ e)))
    | inr e ↦ leb→lt _ _ e
  ]

  woken_late : (i : ℕ) → s.ap i ≢ parked → s.boot ≢ before
  woken_late i ne e = ne (v.early e i)

  woken_behind :
      (i : ℕ)
      → s.ap i ≢ parked
      → (k : ℕ) → s.boot ≡ waking k
      → (i < k) × ((j : ℕ) → k ≤ j → s.ap j ≡ parked)
  woken_behind i ne k e = (
    elim (Bool-cases (leb k i)) [
      | inl le ↦ absurd (ne (v.ahead k e i (leb→le _ _ le)))
      | inr lt ↦ leb→lt _ _ lt
    ],
    v.ahead k e,
  )

  -- One processor moves on to `p`.
  moved :
      (i : ℕ) (p : Ap) (m : Smp) (b : Boot)
      → get_elem? cpus i ≢ none
      → get_elem? cpus i ≢ some bsp
      → length m.online ≡ 64
      → m.aps_ready ≡ arrived (update s.ap i p) (length cpus)
      → ((id : ℕ) → get_elem? cpus i ≡ some id → is_up p ≡ true → is_online m id ≡ true)
      → ((id : ℕ) → is_online s.smp id ≡ true → is_online m id ≡ true)
      → (m.all_go ≡ true → length cpus ≤ m.aps_ready + 1)
      → s.boot ≢ before
      → b ≢ before
      → ((k : ℕ) → b ≡ waking k → (i < k) × ((j : ℕ) → k ≤ j → s.ap j ≡ parked))
      → Inv bsp cpus (record { smp = m; boot = b; ap = update s.ap i p })
  moved i p m b there other slots ready upp keeps gone begun later ahead = record {
    slots = slots;
    ready = ready;
    up = λ j id at u. elim (Bool-cases (i == j)) [
      | inl e ↦
          let same = ==→≡ i j e in
          upp id (ap (get_elem? cpus) same ∙ at) (sym (ap is_up (at_self j same)) ∙ u)
      | inr e ↦ keeps id (v.up j id at (sym (ap is_up (get-update_ne s.ap i j p (==→≢ i j e))) ∙ u))
    ];
    own = λ j at. elim (Bool-cases (i == j)) [
      | inl e ↦ absurd (other (ap (get_elem? cpus) (==→≡ i j e) ∙ at))
      | inr e ↦ get-update_ne s.ap i j p (==→≢ i j e) ∙ v.own j at
    ];
    beyond = λ j at. elim (Bool-cases (i == j)) [
      | inl e ↦ absurd (there (ap (get_elem? cpus) (==→≡ i j e) ∙ at))
      | inr e ↦ get-update_ne s.ap i j p (==→≢ i j e) ∙ v.beyond j at
    ];
    gone = gone;
    gone_late = λ _. later;
    begun = λ _. keeps bsp (v.begun begun);
    early = λ e. absurd (later e);
    ahead =
        λ k e j le. get-update_ne s.ap i j p (omega (arith, (ahead k e).0)) ∙ (ahead k e).1 j le;
  }
    where
      at_self : (j : ℕ) → i ≡ j → update s.ap i p j ≡ p
      at_self j e = rw (← e) (get-update_self s.ap i p)

pub there : (cpus : List ℕ) (i id : ℕ) → get_elem? cpus i ≡ some id → i < length cpus
there cpus i id at = elim (Bool-cases (leb (length cpus) i)) [
  | inl e ↦ let out = get_elem?-eq-none cpus i (leb→le _ _ e) in absurd (cc)
  | inr e ↦ leb→lt _ _ e
]

-- A state that differs in where the boot processor stands.
boot_on :
    {bsp : ℕ} {cpus : List ℕ} {s : System}
    → Inv bsp cpus s
    → (b : Boot) → s.boot ≢ before
    → b ≢ before
    → ((k : ℕ) → b ≡ waking k → (i : ℕ) → k ≤ i → s.ap i ≡ parked)
    → Inv bsp cpus (record s { boot = b })
boot_on v b begun later ahead = record {
  slots = v.slots;
  ready = v.ready;
  up = v.up;
  own = v.own;
  beyond = v.beyond;
  gone = v.gone;
  gone_late = λ _. later;
  begun = λ _. v.begun begun;
  early = λ e. absurd (later e);
  ahead = ahead;
}

reset-Inv : (bsp : ℕ) (cpus : List ℕ) → Inv bsp cpus reset
reset-Inv bsp cpus = record {
  slots = refl;
  ready = sym (arrived_parked (length cpus));
  up = λ i id at u. absurd (cc);
  own = λ i at. refl;
  beyond = λ i at. refl;
  gone = λ e. absurd (cc);
  gone_late = λ e. absurd (cc);
  begun = λ ne. absurd (ne refl);
  early = λ e i. refl;
  ahead = λ k e. absurd (cc);
}

module _ {bsp : ℕ} {cpus : List ℕ} (few : length cpus < 2 ^ 32) {s : System}
    (v : Inv bsp cpus s) where
  begin-Inv :
      s.boot ≡ before
      → Inv bsp cpus (record s { smp = start s.smp bsp (length cpus); boot = waking 0 })
  begin-Inv b = record {
    slots = length-set s.smp.online (bsp % 64) true ∙ v.slots;
    ready = v.ready;
    up = λ i id at u. let quiet = v.early b i in absurd (cc);
    own = v.own;
    beyond = v.beyond;
    gone = v.gone;
    gone_late = λ _ e. cc;
    begun = λ _. mark_online_self s.smp v.slots bsp;
    early = λ e. absurd (cc);
    ahead = λ k e i le. v.early b i;
  }

  wake-Inv :
      (i id : ℕ)
      → s.boot ≡ waking i
      → get_elem? cpus i ≡ some id
      → id ≢ bsp
      → Inv bsp cpus (record s { boot = waking (i + 1); ap = update s.ap i entered })
  wake-Inv i id b at ne =
      let still = v.ahead i b i (omega arith) in
      let lt : i < length cpus = there cpus i id at in
      moved v i entered s.smp (waking (i + 1)) (λ e. cc)
        (λ e. let same : some id ≡ some bsp = sym at ∙ e in ne (cc)) v.slots
        (omega
          (arith, v.ready, arrived-update s.ap i entered (length cpus) lt, ap has_counted still))
        (λ j at' u. absurd (cc)) (λ j on. on) v.gone (λ e. cc) (λ e. cc)
        (λ k e. let k_is : i + 1 ≡ k = cc in (omega arith, λ j le. v.ahead i b j (omega arith)))

  mark-Inv :
      (i id : ℕ)
      → s.ap i ≡ entered
      → get_elem? cpus i ≡ some id
      → Inv bsp cpus (record s { smp = mark_online s.smp id; ap = update s.ap i marked })
  mark-Inv i id e at =
      let ne : s.ap i ≢ parked = λ q. cc in
      moved v i marked (mark_online s.smp id) s.boot (woken_there v i ne) (woken_other v i ne)
        (length-set s.smp.online (id % 64) true ∙ v.slots)
        (omega (
          arith,
          v.ready,
          arrived-update s.ap i marked (length cpus) (woken-lt v i ne),
          ap has_counted e,
        ))
        (λ j at' u.
          let same : id ≡ j = (let q : some id ≡ some j = sym at ∙ at' in cc) in
          rw (← same) (mark_online_self s.smp v.slots id))
        (λ j on. mark_online-keeps s.smp v.slots id j on) v.gone (woken_late v i ne)
        (woken_late v i ne) (woken_behind v i ne)

  count_in-Inv :
      (i : ℕ)
      → s.ap i ≡ marked
      → Inv bsp cpus (record s {
        smp = record s.smp { aps_ready = (s.smp.aps_ready + 1) % 2 ^ 32 };
        ap = update s.ap i counted;
      })
  count_in-Inv i e =
      let ne : s.ap i ≢ parked = λ q. cc in
      let more = arrived-update s.ap i counted (length cpus) (woken-lt v i ne) in
      let most = arrived-le (update s.ap i counted) (length cpus) in
      moved v i counted (record s.smp { aps_ready = (s.smp.aps_ready + 1) % 2 ^ 32 }) s.boot
        (woken_there v i ne) (woken_other v i ne) v.slots
        (omega (arith, v.ready, more, most, ap has_counted e)) (λ j at u. v.up i j at (ap is_up e))
        (λ j on. on) (λ g. omega (arith, v.ready, v.gone g, more, most, ap has_counted e))
        (woken_late v i ne) (woken_late v i ne) (woken_behind v i ne)

  halt-Inv : (i : ℕ) → s.ap i ≡ counted → Inv bsp cpus (record s { ap = update s.ap i halted })
  halt-Inv i e =
      let ne : s.ap i ≢ parked = λ q. cc in
      moved v i halted s.smp s.boot (woken_there v i ne) (woken_other v i ne) v.slots
        (omega (
          arith,
          v.ready,
          arrived-update s.ap i halted (length cpus) (woken-lt v i ne),
          ap has_counted e,
        ))
        (λ j at u. v.up i j at (ap is_up e)) (λ j on. on) v.gone (woken_late v i ne)
        (woken_late v i ne) (woken_behind v i ne)

  go-Inv :
      s.boot ≡ waiting
      → (length cpus % 2 ^ 32 + 2 ^ 32 - 1) % 2 ^ 32 ≤ s.smp.aps_ready
      → Inv bsp cpus (record s { smp = record s.smp { all_go = true }; boot = after })
  go-Inv b le = record {
    slots = v.slots;
    ready = v.ready;
    up = v.up;
    own = v.own;
    beyond = v.beyond;
    gone = λ _. omega arith;
    gone_late = λ _ e. cc;
    begun = λ _. v.begun (λ e. cc);
    early = λ e. absurd (cc);
    ahead = λ k e. absurd (cc);
  }

Step-Inv :
    {bsp : ℕ} {cpus : List ℕ} {s t : System}
    → length cpus < 2 ^ 32
    → Inv bsp cpus s
    → Step bsp cpus s t
    → Inv bsp cpus t
Step-Inv few v (begin b) = begin-Inv few v b
Step-Inv few v (wake i id b at ne) = wake-Inv few v i id b at ne
Step-Inv few v (skip i b at) =
    boot_on v (waking (i + 1)) (λ e. cc) (λ e. cc)
      (λ k e j le. let k_is : i + 1 ≡ k = cc in v.ahead i b j (omega arith))
Step-Inv few v (woken i b le) = boot_on v waiting (λ e. cc) (λ e. cc) (λ k e. absurd (cc))
Step-Inv few v (wait b lt) = v
Step-Inv few v (go b le) = go-Inv few v b le
Step-Inv few v (mark i id e at) = mark-Inv few v i id e at
Step-Inv few v (count_in i e) = count_in-Inv few v i e
Step-Inv few v (spin i e off) = v
Step-Inv few v (halt i e on) = halt-Inv few v i e

pub Reach-Inv :
    {bsp : ℕ} {cpus : List ℕ} {s : System}
    → length cpus < 2 ^ 32
    → Reach bsp cpus s
    → Inv bsp cpus s
Reach-Inv {bsp} {cpus} few here = reset-Inv bsp cpus
Reach-Inv few (next r st) = Step-Inv few (Reach-Inv few r) st
