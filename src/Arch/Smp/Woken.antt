-- ===== src/Arch/Smp/Woken.antt =====
-- Whom the boot processor of `src/kern/arch/x86_64/smp.rs` has woken, and how much is left to do.
use avaria.Prelude.{ℕ, ◌+◌, ◌<◌, ◌≡◌, ◌≢◌, inl, inr, refl, sym, ap, ◌∙◌}
use avaria.Prelude.{
  arith, Bool, true, false, Bool-cases, ◌==◌, ==→≡, ==→≢, some, ltb, lt→ltb, ltb→lt,
}
use avaria.Prelude.{List, get_elem?, update, get-update_self, get-update_ne}
use avaria.Arch.Smp.{
  Smp, Boot, before, waking, waiting, after, Ap, parked, entered, marked, counted, halted, System,
  Step, begin, wake, skip, woken, wait, go, mark, count_in, spin, halt, Reach, here, next,
}
use avaria.Arch.Smp.Invariant.{there}

abbrev pub is_woken : Ap → Bool
is_woken parked = false
is_woken _ = true

-- Whether the loop that wakes the others has passed index `i`.
abbrev pub has_passed : Boot → ℕ → Bool
has_passed before i = false
has_passed (waking k) i = ltb i k
has_passed _ i = true

-- Everyone whom the loop has passed is awake, but the boot processor; and the last thing that it does is
-- to set `ALL_GO`.
pub record Woken (bsp : ℕ) (cpus : List ℕ) (s : System) : Type 0 where
  pub passed :
      (i id : ℕ)
      → get_elem? cpus i ≡ some id
      → id ≢ bsp
      → has_passed s.boot i ≡ true
      → is_woken (s.ap i) ≡ true
  pub released : s.boot ≡ after → s.smp.all_go ≡ true

woken_stays :
    (f : ℕ → Ap) (i j : ℕ) (p : Ap)
    → is_woken p ≡ true
    → is_woken (f j) ≡ true
    → is_woken (update f i p j) ≡ true
woken_stays f i j p on u = elim (Bool-cases (i == j)) [
  | inl e ↦ rw (← ==→≡ i j e, get-update_self f i p) on
  | inr e ↦ rw (get-update_ne f i j p (==→≢ i j e)) u
]

module _ {bsp : ℕ} {cpus : List ℕ} {s : System} (v : Woken bsp cpus s) where
  -- A processor moves on, and the boot processor stays where it is.
  one_on :
      (i : ℕ) (p : Ap) (m : Smp)
      → is_woken p ≡ true
      → m.all_go ≡ s.smp.all_go
      → Woken bsp cpus (record s { smp = m; ap = update s.ap i p })
  one_on i p m on same = record {
    passed = λ j id at ne q. woken_stays s.ap i j p on (v.passed j id at ne q);
    released = λ e. same ∙ v.released e;
  }

  wake-Woken :
      (i : ℕ)
      → s.boot ≡ waking i
      → Woken bsp cpus (record s { boot = waking (i + 1); ap = update s.ap i entered })
  wake-Woken i b = record {
    passed = λ j id at ne q. elim (Bool-cases (i == j)) [
      | inl e ↦ rw (← ==→≡ i j e, get-update_self s.ap i entered) refl
      | inr e ↦
          let other = ==→≢ i j e in
          let behind : j < i = omega (arith, ltb→lt j (i + 1) q) in
          rw (get-update_ne s.ap i j entered other) (v.passed j id at ne (rw b (lt→ltb j i behind)))
    ];
    released = λ e. absurd (cc);
  }

  skip-Woken :
      (i : ℕ)
      → s.boot ≡ waking i
      → get_elem? cpus i ≡ some bsp
      → Woken bsp cpus (record s { boot = waking (i + 1) })
  skip-Woken i b own = record {
    passed = λ j id at ne q. elim (Bool-cases (i == j)) [
      | inl e ↦
          let same : some bsp ≡ some id = sym own ∙ ap (get_elem? cpus) (==→≡ i j e) ∙ at in
          absurd (ne (cc))
      | inr e ↦
          let other = ==→≢ i j e in
          let behind : j < i = omega (arith, ltb→lt j (i + 1) q) in
          v.passed j id at ne (rw b (lt→ltb j i behind))
    ];
    released = λ e. absurd (cc);
  }

  loop_over-Woken :
      (i : ℕ)
      → s.boot ≡ waking i
      → ((j id : ℕ) → get_elem? cpus j ≡ some id → j < i)
      → Woken bsp cpus (record s { boot = waiting })
  loop_over-Woken i b all = record {
    passed = λ j id at ne q. v.passed j id at ne (rw b (lt→ltb j i (all j id at)));
    released = λ e. absurd (cc);
  }

  go-Woken :
      s.boot ≡ waiting
      → Woken bsp cpus (record s { smp = record s.smp { all_go = true }; boot = after })
  go-Woken b = record {
    passed = λ j id at ne q. v.passed j id at ne (rw b refl);
    released = λ e. refl;
  }

Step-Woken :
    {bsp : ℕ} {cpus : List ℕ} {s t : System}
    → Woken bsp cpus s
    → Step bsp cpus s t
    → Woken bsp cpus t
Step-Woken v (begin b) = record {
  passed = λ j id at ne q. absurd (omega (arith, ltb→lt j 0 q));
  released = λ e. absurd (cc);
}
Step-Woken v (wake i id b at ne) = wake-Woken v i b
Step-Woken v (skip i b at) = skip-Woken v i b at
Step-Woken {bsp} {cpus} v (woken i b le) =
    loop_over-Woken v i b (λ j id at. omega (arith, there cpus j id at))
Step-Woken v (wait b lt) = v
Step-Woken v (go b le) = go-Woken v b
Step-Woken v (mark i id e at) = one_on v i marked _ refl refl
Step-Woken v (count_in i e) = one_on v i counted _ refl refl
Step-Woken v (spin i e off) = v
Step-Woken v (halt i e on) = one_on v i halted _ refl refl

pub Reach-Woken : {bsp : ℕ} {cpus : List ℕ} {s : System} → Reach bsp cpus s → Woken bsp cpus s
Reach-Woken here = record { passed = λ j id at ne q. absurd (cc); released = λ e. absurd (cc) }
Reach-Woken (next r st) = Step-Woken (Reach-Woken r) st
