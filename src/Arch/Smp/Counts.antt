-- ===== src/Arch/Smp/Counts.antt =====
-- How many processors have counted themselves (`ap_entry` of `src/kern/arch/x86_64/smp.rs`).
use avaria.Prelude.{ℕ, zero, suc, ◌+◌, ◌≤◌, ◌<◌, ◌≡◌, ◌≢◌, ◌⊎◌, inl, inr, refl, ap, arith}
use avaria.Prelude.{Bool, true, false, Bool-cases, ◌==◌, ==→≡, ==→≢}
use avaria.Prelude.{update}
use avaria.Prelude.{get-update_self, get-update_ne}
use avaria.Arch.Smp.{Ap, parked, entered, marked, counted, halted}

-- Whether a processor has counted itself in `APS_READY`, and whether it has set its slot.
abbrev pub has_counted : Ap → ℕ
has_counted counted = 1
has_counted halted = 1
has_counted _ = 0

abbrev pub is_up : Ap → Bool
is_up parked = false
is_up entered = false
is_up _ = true

pub counted_up : (p : Ap) → (has_counted p ≡ 0) ⊎ (is_up p ≡ true)
counted_up parked = inl refl
counted_up entered = inl refl
counted_up marked = inr refl
counted_up counted = inr refl
counted_up halted = inr refl

-- The sum of `w` below `n`.
pub total : (ℕ → ℕ) → ℕ → ℕ
total w zero = 0
total w (suc n) = total w n + w n

abbrev pub arrived : (ℕ → Ap) → ℕ → ℕ
arrived ap = total (λ i. has_counted (ap i))

-- A sum over the processors, where one of them moves on to `p`.
module _ (w : Ap → ℕ) (f : ℕ → Ap) (i : ℕ) (p : Ap) where
  total-update_above : (n : ℕ) → n ≤ i → total (λ j. w (update f i p j)) n ≡ total (λ j. w (f j)) n
  unfolding total
  total-update_above zero le = refl
  total-update_above (suc n) le =
      rw (total-update_above n (omega arith), get-update_ne f i n p (omega arith)) refl

  pub total-update :
      (n : ℕ) → i < n → total (λ j. w (update f i p j)) n + w (f i) ≡ total (λ j. w (f j)) n + w p
  unfolding total
  total-update zero lt = elim lt [ ]
  total-update (suc n) lt = elim (Bool-cases (i == n)) [
    | inl e ↦
        let same = ==→≡ i n e in
        rw (← same, get-update_self f i p, total-update_above i (omega arith)) (omega arith)
    | inr e ↦
        let ne = ==→≢ i n e in
        rw (get-update_ne f i n p ne) (omega (arith, total-update n (omega arith)))
  ]

module _ (f : ℕ → Ap) (i : ℕ) (p : Ap) where
  pub arrived-update :
      (n : ℕ) → i < n → arrived (update f i p) n + has_counted (f i) ≡ arrived f n + has_counted p
  arrived-update = total-update has_counted f i p

pub has_counted-le : (p : Ap) → has_counted p ≤ 1
has_counted-le parked = omega arith
has_counted-le entered = omega arith
has_counted-le marked = omega arith
has_counted-le counted = omega arith
has_counted-le halted = omega arith

module _ (f : ℕ → Ap) where
  pub arrived-le : (n : ℕ) → arrived f n ≤ n
  unfolding total
  arrived-le zero = omega arith
  arrived-le (suc n) = omega (arith, arrived-le n, has_counted-le (f n))

  pub arrived_but_one : (b n : ℕ) → b < n → has_counted (f b) ≡ 0 → arrived f n + 1 ≤ n
  unfolding total
  arrived_but_one b zero lt e = elim lt [ ]
  arrived_but_one b (suc n) lt e = elim (Bool-cases (b == n)) [
    | inl q ↦ let last : has_counted (f n) ≡ 0 = rw (← ==→≡ b n q) e in omega (arith, arrived-le n)
    | inr q ↦
        let ne = ==→≢ b n q in
        omega (arith, arrived_but_one b n (omega arith) e, has_counted-le (f n))
  ]

  pub arrived_but_two :
      (a b n : ℕ)
      → a < b
      → b < n
      → has_counted (f a) ≡ 0
      → has_counted (f b) ≡ 0
      → arrived f n + 2 ≤ n
  unfolding total
  arrived_but_two a b zero ab lt ea eb = elim lt [ ]
  arrived_but_two a b (suc n) ab lt ea eb = elim (Bool-cases (b == n)) [
    | inl q ↦
        let same = ==→≡ b n q in
        let last : has_counted (f n) ≡ 0 = rw (← same) eb in
        omega (arith, arrived_but_one a n (omega arith) ea)
    | inr q ↦
        let ne = ==→≢ b n q in
        omega (arith, arrived_but_two a b n ab (omega arith) ea eb, has_counted-le (f n))
  ]

pub arrived_parked : (n : ℕ) → arrived (λ _. parked) n ≡ 0
unfolding total
arrived_parked zero = refl
arrived_parked (suc n) = omega (arith, arrived_parked n)

-- One of the processors below `n` passes a test, unless none does.
pub record Passes (test : Ap → Bool) (f : ℕ → Ap) (n : ℕ) : Type 0 where
  pub index : ℕ
  pub below : index < n
  pub passes : test (f index) ≡ true

pub find_passing :
    (test : Ap → Bool) (f : ℕ → Ap) (n : ℕ)
    → Passes test f n ⊎ ((i : ℕ) → i < n → test (f i) ≡ false)
find_passing test f zero = inr (λ i lt. absurd (omega arith))
find_passing test f (suc n) = elim (find_passing test f n) [
  | inl p ↦ inl (record { index = p.index; below = omega (arith, p.below); passes = p.passes })
  | inr before_n ↦ elim (Bool-cases (test (f n))) [
    | inl e ↦ inl (record { index = n; below = omega arith; passes = e })
    | inr e ↦ inr (λ i lt. elim (Bool-cases (i == n)) [
      | inl q ↦ rw (==→≡ i n q) e
      | inr q ↦ let ne = ==→≢ i n q in before_n i (omega arith)
    ])
  ]
]

-- If all but one have counted themselves, the count is at most one short.
arrived_all : (f : ℕ → Ap) (n : ℕ) → ((i : ℕ) → i < n → has_counted (f i) ≡ 1) → n ≤ arrived f n
unfolding total
arrived_all f zero all = omega arith
arrived_all f (suc n) all =
    omega (arith, arrived_all f n (λ i lt. all i (omega arith)), all n (omega arith))

pub all_but :
    (f : ℕ → Ap) (b n : ℕ) → ((i : ℕ) → i < n → i ≢ b → has_counted (f i) ≡ 1) → n ≤ arrived f n + 1
unfolding total
all_but f b zero all = omega arith
all_but f b (suc n) all = elim (Bool-cases (n == b)) [
  | inl e ↦
      let same = ==→≡ n b e in
      omega (arith, arrived_all f n (λ i lt. all i (omega arith) (λ q. omega arith)))
  | inr e ↦
      omega
        (arith, all_but f b n (λ i lt ne. all i (omega arith) ne), all n (omega arith) (==→≢ n b e))
]
