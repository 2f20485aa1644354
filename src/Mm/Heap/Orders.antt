-- ===== src/Mm/Heap/Orders.antt =====
-- The order that `src/kern/mem.rs` computes for a size is the least that holds it.
use avaria.Prelude.{ℕ, zero, suc, ◌+◌, ◌*◌, ◌/◌, ◌^◌, ◌<◌, ◌≤◌, ◌≡◌, arith, Bool-cases}
use avaria.Prelude.{inl, inr, ltb, ltb→lt, ltb→le, ◌==◌, ==→≡, ==→≢}
use avaria.Mm.Buddy.{page_size}
use avaria.Mm.Heap.{order_from, order_for, pages_for}

order_from-covers :
    (fuel order pages : ℕ)
    → pages ≤ 2 ^ (order + fuel)
    → (pages ≤ 2 ^ order_from fuel order pages)
      × ((o : ℕ) → order ≤ o → o < order_from fuel order pages → 2 ^ o < pages)
unfolding order_from
order_from-covers zero order pages h =
    (rw (let e : order ≡ order + 0 = omega arith in e) h, λ o lo hi. absurd (omega arith))
order_from-covers (suc fuel) order pages h = elim (Bool-cases (ltb (2 ^ order) pages)) [
  | inr e ↦ rw e (ltb→le _ _ e, λ o lo hi. absurd (omega arith))
  | inl e ↦
      let more =
        order_from-covers fuel (order + 1) pages
          (rw (let q : order + 1 + fuel ≡ order + suc fuel = omega arith in q) h) in
      rw e (
        more.0,
        λ o lo hi. elim (Bool-cases (order == o)) [
          | inl q ↦ rw (← ==→≡ order o q) (ltb→lt _ _ e)
          | inr q ↦ let ne = ==→≢ order o q in more.1 o (omega arith) hi
        ],
      )
]

-- A block of the order for `size` holds `size` bytes, and every smaller block is too small, as long
-- as rounding `size` up does not wrap.
pub order_for-least :
    (size : ℕ)
    → size + page_size ≤ 2 ^ 64
    → (size ≤ 2 ^ order_for size * page_size)
      × ((o : ℕ) → o < order_for size → 2 ^ o * page_size < size)
unfolding order_for
order_for-least size h =
    let pages = pages_for size in
    let c = order_from-covers 64 0 pages (omega arith) in
    let up : (size + 4095) / 4096 ≡ pages = omega arith in
    (omega (arith, c.0, up), λ o lt. omega (arith, c.1 o (omega arith) lt, up))
