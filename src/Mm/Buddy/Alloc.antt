-- ===== src/Mm/Buddy/Alloc.antt =====
-- `alloc_pages` of `src/kern/mm/buddy.rs`: where the block lies, and when there is none.
use native.Mathlib.Nat.{le-div_iff_mul-le, pow-suc}
use avaria.Prelude.{ℕ, zero, suc, ◌+◌, ◌-◌, ◌*◌, ◌/◌, ◌^◌, ◌<◌, ◌≤◌, ◌≡◌, refl, sym, ap, ◌∙◌, arith}
use avaria.Prelude.{false, Bool-cases, Option-cases, Option, none, some, ◌⊎◌, ◌↔◌, inl, inr}
use avaria.Prelude.{ltb, ltb→lt, ltb→le, ◌==◌, ==→≡, ==→≢, two_pow-add, two_pow_pos}
use avaria.Mm.Buddy.{BuddyAllocator, page_size, is_free, mark_allocated, mark_free, find_free}
use avaria.Mm.Buddy.{block_addr, split_down, split_from, alloc_pages}
use avaria.Mm.Buddy.Search.{find_free-some, find_free-none}

-- Halving `left` times goes to the first of the parts.
split_down-idx :
    (b : BuddyAllocator) (left order idx : ℕ) → (split_down b left order idx).1 ≡ idx * 2 ^ left
unfolding split_down
split_down-idx b zero order idx = omega arith
split_down-idx b (suc left) order idx =
    split_down-idx (mark_free b (order - 1) (idx * 2 + 1)) left (order - 1) (idx * 2)
    ∙ omega (arith, ap (λ (t : ℕ). idx * t) (pow-suc 2 left))

-- What the search through the wider orders did: it split the first block of the first order that
-- has one, or found every order without.
record Split (b : BuddyAllocator) (order left split_order : ℕ) (addr : ℕ) : Type 0 where
  from : ℕ
  idx : ℕ
  at_least : split_order ≤ from
  below : from < split_order + left
  found : find_free b from ≡ some idx
  place : addr ≡ block_addr b order (idx * 2 ^ (from - order))

split_from-cases :
    (b : BuddyAllocator) (order left so : ℕ)
    → ((addr : ℕ) × ((split_from b order left so).1 ≡ some addr) × Split b order left so addr)
      ⊎ ((split_from b order left so ≡ (b, none))
          × ((o : ℕ) → so ≤ o → o < so + left → find_free b o ≡ none))
unfolding split_from
split_from-cases b order zero so = inr (refl, λ o lo hi. absurd (omega arith))
split_from-cases b order (suc left) so = elim (Option-cases (find_free b so)) [
  | inl e ↦ elim (split_from-cases b order left (so + 1)) [
    | inl (addr, got, s) ↦ inl (
      addr,
      rw (e, split_from) got,
      record {
        from = s.from;
        idx = s.idx;
        at_least = omega (arith, s.at_least);
        below = omega (arith, s.below);
        found = s.found;
        place = s.place;
      },
    )
    | inr (failed, nowhere) ↦ inr (
      rw (e, split_from) failed,
      λ o lo hi. elim (Bool-cases (so == o)) [
        | inl q ↦ rw (← ==→≡ so o q) e
        | inr q ↦ let ne = ==→≢ so o q in nowhere o (omega arith) (omega arith)
      ],
    )
  ]
  | inr (idx, e) ↦ inl (
    block_addr b order (split_down (mark_allocated b so idx) (so - order) so idx).1,
    rw (e, split_from) refl,
    record {
      from = so;
      idx = idx;
      at_least = omega arith;
      below = omega arith;
      found = e;
      place =
          ap (block_addr b order) (split_down-idx (mark_allocated b so idx) (so - order) so idx);
    },
  )
]

-- The managed pages lie inside the address space.
abbrev pub FitsMemory : BuddyAllocator → Type 0
FitsMemory b = b.base + b.total_pages * page_size ≤ 2 ^ 64

-- Block `k` of an order, when it lies inside the managed pages.
block_addr-lem :
    (b : BuddyAllocator) (order k : ℕ)
    → FitsMemory b
    → (k + 1) * 2 ^ order ≤ b.total_pages
    → block_addr b order k ≡ b.base + k * 2 ^ order * page_size
unfolding block_addr
block_addr-lem b order k fits inside = omega (arith, two_pow_pos order)

fits_block : (t o i : ℕ) → i < t / 2 ^ o → (i + 1) * 2 ^ o ≤ t
fits_block t o i h = (le-div_iff_mul-le (two_pow_pos o)).0 (omega arith)

-- A part of a block of a wider order is inside the pages too.
part_inside :
    (t order from i : ℕ)
    → order ≤ from
    → i < t / 2 ^ from
    → (i * 2 ^ (from - order) + 1) * 2 ^ order ≤ t
part_inside t order from i le h =
    let p : 2 ^ from ≡ 2 ^ (from - order) * 2 ^ order =
      ap (λ n. 2 ^ n) (let e : from ≡ from - order + order = omega arith in e)
      ∙ two_pow-add (from - order) order in
    let whole = fits_block t from i h in
    let scaled : i * 2 ^ from ≡ i * 2 ^ (from - order) * 2 ^ order =
      ap (λ (n : ℕ). i * n) p ∙ omega arith in
    let wide : 2 ^ order ≤ 2 ^ from = rw p (grind (arith, two_pow_pos (from - order))) in
    omega arith

whole : (idx order : ℕ) → idx ≡ idx * 2 ^ (order - order)
whole idx order = let e : order - order ≡ 0 = omega arith in rw e (omega arith)

alloc_pages-cases :
    (b : BuddyAllocator) (order : ℕ)
    → ((addr : ℕ) × ((alloc_pages b order).1 ≡ some addr)
        × Split b order (b.max_order + 1 - order) order addr)
      ⊎ ((alloc_pages b order ≡ (b, none))
          × ((o : ℕ) → order ≤ o → o ≤ b.max_order → find_free b o ≡ none))
unfolding alloc_pages
alloc_pages-cases b order = elim (Bool-cases (ltb b.max_order order)) [
  | inl e ↦ let big = ltb→lt _ _ e in inr (rw e refl, λ o lo hi. absurd (omega arith))
  | inr e ↦
      let small = ltb→le _ _ e in
      elim (Option-cases (find_free b order)) [
        | inr (idx, f) ↦ inl (
          block_addr b order idx,
          rw (e, f, alloc_pages) refl,
          record {
            from = order;
            idx = idx;
            at_least = omega arith;
            below = omega arith;
            found = f;
            place = ap (block_addr b order) (whole idx order);
          },
        )
        | inl f ↦ elim (split_from-cases b order (b.max_order - order) (order + 1)) [
          | inl (addr, got, s) ↦ inl (
            addr,
            rw (e, f, alloc_pages) got,
            record {
              from = s.from;
              idx = s.idx;
              at_least = omega (arith, s.at_least);
              below = omega (arith, s.below);
              found = s.found;
              place = s.place;
            },
          )
          | inr (failed, nowhere) ↦ inr (
            rw (e, f, alloc_pages) failed,
            λ o lo hi. elim (Bool-cases (order == o)) [
              | inl q ↦ rw (← ==→≡ order o q) f
              | inr q ↦ let ne = ==→≢ order o q in nowhere o (omega arith) (omega arith)
            ],
          )
        ]
      ]
]

-- The block that `alloc_pages` returns starts on a multiple of its size from the base, and all of
-- its pages are managed ones, when the managed pages lie inside the address space.
pub alloc_pages_inside :
    (b : BuddyAllocator) (order : ℕ) {addr : ℕ}
    → FitsMemory b
    → (alloc_pages b order).1 ≡ some addr
    → (k : ℕ) × (addr ≡ b.base + k * 2 ^ order * page_size) × ((k + 1) * 2 ^ order ≤ b.total_pages)
alloc_pages_inside b order {addr} fits e = elim (alloc_pages-cases b order) [
  | inr (failed, nowhere) ↦ absurd (
      let no : none ≡ some addr = sym (ap (λ (x : BuddyAllocator × Option ℕ). x.1) failed) ∙ e in
      cc)
  | inl (addr', got, s) ↦
      let k = s.idx * 2 ^ (s.from - order) in
      let inside =
        part_inside b.total_pages order s.from s.idx s.at_least
          (find_free-some b s.from s.idx s.found).0 in
      let both : some addr ≡ some addr' = sym e ∙ got in
      let same : addr ≡ addr' = cc in
      (k, same ∙ s.place ∙ block_addr-lem b order k fits inside, inside)
]

-- `alloc_pages` fails exactly when no block of the order or of a wider one up to the largest is
-- free, and a failure changes nothing.
pub alloc_pages_fails :
    (b : BuddyAllocator) (order : ℕ)
    → (((alloc_pages b order).1 ≡ none) ↔ (
        (o i : ℕ)
        → order ≤ o
        → o ≤ b.max_order
        → i < b.total_pages / 2 ^ o
        → is_free b o i ≡ false))
      × ((alloc_pages b order).1 ≡ none → (alloc_pages b order).0 ≡ b)
alloc_pages_fails b order = elim (alloc_pages-cases b order) [
  | inr (failed, nowhere) ↦ (
    (
      λ _ o i lo hi h. find_free-none b o (nowhere o lo hi) i h,
      λ _. ap (λ (x : BuddyAllocator × Option ℕ). x.1) failed,
    ),
    λ _. ap (λ (x : BuddyAllocator × Option ℕ). x.0) failed,
  )
  | inl (addr, got, s) ↦ (
    (
      λ no. let clash : none ≡ some addr = sym no ∙ got in absurd (cc),
      λ taken.
          let (lt, free, first) = find_free-some b s.from s.idx s.found in
          let clash =
            sym free ∙ taken s.from s.idx s.at_least (omega (arith, s.below, s.at_least)) lt in
          absurd (cc),
    ),
    λ no. let clash : none ≡ some addr = sym no ∙ got in absurd (cc),
  )
]
