-- ===== src/Arch/Smp/Tests.antt =====
-- Two processors start, and the theorems at the state where the boot processor has let them go.
use avaria.Prelude.{◌≡◌, ℕ, zero, suc, get_elem?, some, refl, arith, true, List, [], ◌∷◌}
use avaria.Arch.Smp.{
  System, Reach, here, next, begin, wake, skip, woken, mark, count_in, go, start, off, mark_online,
  after, parked, entered, marked, counted, is_online, online_count,
}
use avaria.Prelude.{update}
use avaria.Arch.Smp.Ready.{all_go-online}
use avaria.Arch.Smp.Progress.{Ends, Reach-Ends}

abbrev two_cpus : List ℕ
two_cpus = 4 ∷ 9 ∷ []

abbrev let_go : System
let_go = record {
  smp = record (mark_online (start off 4 2) 9) { aps_ready = 1; all_go = true };
  boot = after;
  ap = update (update (update (λ _. parked) 1 entered) 1 marked) 1 counted;
}

two_online : online_count let_go.smp ≡ 2
unfolding online_count
two_online = refl

let_go-Reach : Reach 4 two_cpus let_go
let_go-Reach =
    next
      (next
        (next
          (next
            (next (next (next here (begin refl)) (skip 0 refl refl))
              (wake 1 9 refl refl (omega arith)))
            (woken 2 refl (omega arith)))
          (mark 1 9 refl refl))
        (count_in 1 refl))
      (go refl (omega arith))

all_go-online_example : is_online let_go.smp 9 ≡ true
all_go-online_example = all_go-online (omega arith) 0 refl let_go-Reach refl 1 9 refl

four_first : (i : ℕ) → get_elem? two_cpus i ≡ some 4 → i ≡ 0
four_first zero e = refl
four_first (suc zero) e = absurd (cc)
four_first (suc (suc i)) e = absurd (cc)

Reach-Ends_example : Ends 4 two_cpus let_go
Reach-Ends_example = Reach-Ends (omega arith) 0 refl four_first let_go let_go-Reach
