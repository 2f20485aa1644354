-- ===== src/Arch/Smp/Ready.antt =====
-- When `ALL_GO` of `src/kern/arch/x86_64/smp.rs` is set, every processor has started.
use avaria.Prelude.{ℕ, ◌+◌, ◌^◌, ◌≤◌, ◌<◌, ◌≡◌, ◌≢◌, inl, inr, sym, ap, ◌∙◌, arith}
use avaria.Prelude.{true, Bool-cases, ◌==◌, ==→≡, ==→≢, some}
use avaria.Prelude.{List, length, get_elem?}
use avaria.Prelude.{leb, leb→le, leb→lt}
use avaria.Arch.Smp.{System, Reach, is_online}
use avaria.Arch.Smp.Invariant.{Inv, Reach-Inv, there}
use avaria.Arch.Smp.Counts.{has_counted, counted_up, arrived, arrived_but_two}

-- In every state that the processors can reach, whatever the order of their steps, with fewer than
-- 2 ^ 32 processors of which one has the boot processor's id: once `ALL_GO` is set, every processor of
-- the list is marked online.
pub all_go-online :
    {bsp : ℕ} {cpus : List ℕ} {s : System}
    → length cpus < 2 ^ 32
    → (b : ℕ) → get_elem? cpus b ≡ some bsp
    → Reach bsp cpus s
    → s.smp.all_go ≡ true
    → (i id : ℕ) → get_elem? cpus i ≡ some id
    → is_online s.smp id ≡ true
all_go-online {bsp} {cpus} {s} few b own r on i id at = elim (counted_up (s.ap i)) [
  | inr u ↦ v.up i id at u
  | inl out ↦ elim (Bool-cases (i == b)) [
    | inl e ↦
        let same : id ≡ bsp =
          (let q : some id ≡ some bsp = sym at ∙ ap (get_elem? cpus) (==→≡ i b e) ∙ own in cc) in
        rw same (v.begun (v.gone_late on))
    | inr e ↦ absurd (omega (arith, v.gone on, v.ready, two_missing (==→≢ i b e) out))
  ]
]
  where
    v : Inv bsp cpus s
    v = Reach-Inv few r

    quiet : has_counted (s.ap b) ≡ 0
    quiet = ap has_counted (v.own b own)

    two_missing : i ≢ b → has_counted (s.ap i) ≡ 0 → arrived s.ap (length cpus) + 2 ≤ length cpus
    two_missing ne out = elim (Bool-cases (leb b i)) [
      | inl e ↦
          let lt : b < i = omega (arith, leb→le b i e) in
          arrived_but_two s.ap b i (length cpus) lt (there cpus i id at) quiet out
      | inr e ↦
          arrived_but_two s.ap i b (length cpus) (leb→lt b i e) (there cpus b bsp own) out quiet
    ]
