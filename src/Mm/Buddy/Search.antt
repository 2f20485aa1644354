-- ===== src/Mm/Buddy/Search.antt =====
-- `find_free` of `src/kern/mm/buddy.rs` finds the first free block of an order.
use avaria.Prelude.{ℕ, zero, suc, ◌+◌, ◌/◌, ◌^◌, ◌<◌, ◌≤◌, ◌≡◌, arith, true, false, Bool-cases}
use avaria.Prelude.{Option, none, some, Option-cases, sym, ◌∙◌, inl, inr, ◌==◌, ==→≡, ==→≢}
use avaria.Mm.Buddy.{BuddyAllocator, is_free, find_from, find_free}

-- The block found, if any, among the indices from `idx` up to `idx + left`.
abbrev Finds : BuddyAllocator → ℕ → ℕ → ℕ → Option ℕ → Type 0
Finds b order idx left none = (j : ℕ) → idx ≤ j → j < idx + left → is_free b order j ≡ false
Finds b order idx left (some i) =
    (idx ≤ i)
    × (i < idx + left)
    × (is_free b order i ≡ true)
    × ((j : ℕ) → idx ≤ j → j < i → is_free b order j ≡ false)

Finds-later :
    (b : BuddyAllocator) (order idx left : ℕ) (o : Option ℕ)
    → is_free b order idx ≡ false
    → Finds b order (idx + 1) left o
    → Finds b order idx (suc left) o
Finds-later b order idx left none taken f = λ j lo hi. elim (Bool-cases (idx == j)) [
  | inl e ↦ rw (← ==→≡ idx j e) taken
  | inr e ↦ let ne = ==→≢ idx j e in f j (omega arith) (omega arith)
]
Finds-later b order idx left (some i) taken (lo, hi, free, first) = (
  omega arith,
  omega arith,
  free,
  λ j jlo jhi. elim (Bool-cases (idx == j)) [
    | inl e ↦ rw (← ==→≡ idx j e) taken
    | inr e ↦ let ne = ==→≢ idx j e in first j (omega arith) jhi
  ],
)

find_from-Finds :
    (b : BuddyAllocator) (order left idx : ℕ) → Finds b order idx left (find_from b order left idx)
unfolding find_from
find_from-Finds b order zero idx = λ j lo hi. absurd (omega arith)
find_from-Finds b order (suc left) idx = elim (Bool-cases (is_free b order idx)) [
  | inl e ↦ rw e (omega arith, omega arith, e, λ j lo hi. absurd (omega arith))
  | inr e ↦ rw e (Finds-later b order idx left _ e (find_from-Finds b order left (idx + 1)))
]

module _ (b : BuddyAllocator) (order : ℕ) where
  -- The block is inside the managed pages and free, and no earlier one is free.
  pub find_free-some :
      (i : ℕ)
      → find_free b order ≡ some i
      → (i < b.total_pages / 2 ^ order)
        × (is_free b order i ≡ true)
        × ((j : ℕ) → j < i → is_free b order j ≡ false)
  unfolding find_free
  find_free-some i e =
      let f = find_from-Finds b order (b.total_pages / 2 ^ order) 0 in
      let (lo, hi, free, first) = rw e at f in (omega arith, free, λ j h. first j (omega arith) h)

  pub find_free-none :
      find_free b order ≡ none → (j : ℕ) → j < b.total_pages / 2 ^ order → is_free b order j ≡ false
  unfolding find_free
  find_free-none e =
      let f = find_from-Finds b order (b.total_pages / 2 ^ order) 0 in
      λ j h. (rw e at f) j (omega arith) (omega arith)

  -- A first block that is free is the one found.
  pub find_free-first :
      0 < b.total_pages / 2 ^ order → is_free b order 0 ≡ true → find_free b order ≡ some 0
  find_free-first room free = elim (Option-cases (find_free b order)) [
    | inl e ↦ let clash = sym free ∙ find_free-none e 0 room in absurd (cc)
    | inr (zero, e) ↦ e
    | inr (suc i, e) ↦
        let clash = sym free ∙ (find_free-some (suc i) e).2 0 (omega arith) in absurd (cc)
  ]
