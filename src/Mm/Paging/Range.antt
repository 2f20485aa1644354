-- ===== src/Mm/Paging/Range.antt =====
-- The loop of the walks over a range, for a body that adds rights.
use package.avaria.Prelude.{ℕ, zero, suc, ◌+◌, ◌-◌, ◌*◌, ◌/◌, ◌%◌, ◌^◌, ◌≤◌, ◌<◌}
use package.avaria.Prelude.{
  ◌≡◌, refl, sym, ap, ◌∙◌, arith, inl, inr, Bool-cases, ltb, lt→ltb, ltb→lt, bit_and_low, add_w,
}
use package.avaria.Mm.Paging.{Memory, each_page, over_range, page_floor, range_end}
use package.avaria.Mm.Paging.Access.{MoreRights, MoreRights-refl, MoreRights-trans}

pub page_floor-eq : (a : ℕ) → page_floor a ≡ a - a % 4096
page_floor-eq a = ap (λ t. a - t) (bit_and_low 12 a)

-- The end of a range that does not reach the end of the address space.
pub range_end-eq :
    (vaddr size : ℕ)
    → vaddr + size + 4095 < 2 ^ 64
    → range_end vaddr size ≡ vaddr + size + 4095 - (vaddr + size + 4095) % 4096
range_end-eq vaddr size h =
    let e : add_w 64 (add_w 64 vaddr size) 0xFFF ≡ vaddr + size + 4095 = omega arith in
    ap page_floor e ∙ page_floor-eq (vaddr + size + 4095)

module _ (body : Memory → ℕ → Memory) (adds : (m : Memory) (a : ℕ) → MoreRights m (body m a)) where
  pub each_page-MoreRights :
      (fuel addr end : ℕ) (m : Memory) → MoreRights m (each_page body fuel addr end m)
  unfolding each_page
  each_page-MoreRights zero addr end m = MoreRights-refl m
  each_page-MoreRights (suc fuel) addr end m =
      let m1 = body m addr in
      let rest = each_page-MoreRights fuel (addr + 0x1000) end m1 in
      elim (Bool-cases (ltb addr end)) [
        | inl e ↦ rw e (MoreRights-trans m m1 _ (adds m addr) rest)
        | inr e ↦ rw e (MoreRights-refl m)
      ]

  -- A word that no round changes is not changed.
  pub each_page-other :
      (m0 : Memory) (word : ℕ) (fuel addr end : ℕ) (m : Memory)
      → MoreRights m0 m
      → ((m' : Memory) (a : ℕ) → MoreRights m0 m' → addr ≤ a → a < end → body m' a word ≡ m' word)
      → each_page body fuel addr end m word ≡ m word
  unfolding each_page
  each_page-other m0 word zero addr end m more keeps = refl
  each_page-other m0 word (suc fuel) addr end m more keeps =
      let m1 = body m addr in
      let rest =
        each_page-other m0 word fuel (addr + 0x1000) end m1
          (MoreRights-trans m0 m m1 more (adds m addr))
          (λ m' a q lo hi. keeps m' a q (omega arith) hi) in
      elim (Bool-cases (ltb addr end)) [
        | inl e ↦ rw e (rest ∙ keeps m addr more (omega arith) (ltb→lt addr end e))
        | inr e ↦ rw e refl
      ]

  pub over_range-MoreRights :
      (vaddr size : ℕ) (m : Memory) → MoreRights m (over_range body vaddr size m)
  unfolding over_range
  over_range-MoreRights vaddr size m =
      each_page-MoreRights (size / 0x1000 + 2) (page_floor vaddr) (range_end vaddr size) m

  pub over_range-other :
      (vaddr size : ℕ) (m : Memory) (word : ℕ)
      → vaddr + size + 4095 < 2 ^ 64
      → ((m' : Memory) (a : ℕ)
          → MoreRights m m'
          → vaddr - vaddr % 4096 ≤ a
          → a < vaddr + size + 4095
          → body m' a word ≡ m' word)
      → over_range body vaddr size m word ≡ m word
  unfolding over_range
  over_range-other vaddr size m word h keeps =
      rw (page_floor-eq vaddr, range_end-eq vaddr size h)
        (each_page-other m word (size / 0x1000 + 2) (vaddr - vaddr % 4096) _ m (MoreRights-refl m)
          λ m' a q lo hi. keeps m' a q lo (omega arith))

  module _ (Good : Memory → ℕ → Type 0) (opens : (m : Memory) (a : ℕ) → Good (body m a) a)
      (stays : (m m' : Memory) (a : ℕ) → MoreRights m m' → Good m a → Good m' a) where
    -- What the body brings about for a page holds for all of them in the end.
    pub each_page-all :
        (fuel addr end : ℕ) (m : Memory) (k : ℕ)
        → addr + k * 0x1000 < end
        → end ≤ addr + fuel * 0x1000
        → Good (each_page body fuel addr end m) (addr + k * 0x1000)
    unfolding each_page
    each_page-all zero addr end m k inside enough = absurd (omega arith)
    each_page-all (suc fuel) addr end m zero inside enough =
        let m1 = body m addr in
        let e : addr + 0 * 0x1000 ≡ addr = omega arith in
        rw (lt→ltb addr end (omega arith), e)
          (stays m1 _ addr (each_page-MoreRights fuel (addr + 0x1000) end m1) (opens m addr))
    each_page-all (suc fuel) addr end m (suc k) inside enough =
        let e : addr + suc k * 0x1000 ≡ addr + 0x1000 + k * 0x1000 = omega arith in
        rw (lt→ltb addr end (omega arith), e)
          (each_page-all fuel (addr + 0x1000) end (body m addr) k (omega arith) (omega arith))

    pub over_range-all :
        (vaddr size : ℕ) (m : Memory) (a : ℕ)
        → vaddr + size + 4095 < 2 ^ 64
        → vaddr ≤ a
        → a < vaddr + size
        → Good (over_range body vaddr size m) (a - a % 4096)
    unfolding over_range
    over_range-all vaddr size m a h lo hi =
        let first = vaddr - vaddr % 4096 in
        let k = (a - a % 4096 - first) / 4096 in
        let place : first + k * 0x1000 ≡ a - a % 4096 = omega arith in
        rw (page_floor-eq vaddr, range_end-eq vaddr size h, sym place)
          (each_page-all (size / 0x1000 + 2) first _ m k (omega arith) (omega arith))
