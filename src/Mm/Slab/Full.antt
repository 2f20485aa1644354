-- ===== src/Mm/Slab/Full.antt =====
-- `is_full` of a slab page (`src/kern/mm/slab.rs`), and the invariant under `alloc` and `free`.
use avaria.Prelude.{ℕ, zero, suc, ◌+◌, ◌*◌, ◌/◌, ◌%◌, ◌<◌, ◌≤◌, ◌≡◌, refl, sym, ◌∙◌, arith}
use avaria.Prelude.{true, false, Bool-cases, ◌↔◌, inl, inr, ◌==◌, ltb, ==→≡, ==→≢, ≡→==}
use avaria.Prelude.{ltb→lt, ltb→le, test_bit}
use avaria.Mm.Slab.{SlabPage, u64_max, words_full, is_full}
use avaria.Mm.Slab.Words.{lowest_clear, full_set, mask_full}
use avaria.Mm.Slab.Page.{IsValid, in_use, word_of}

-- All the slots up to `n` are in use.
abbrev AllUsed : SlabPage → ℕ → Type 0
AllUsed p n = (i : ℕ) → i < n → in_use p i ≡ true

module _ (p : SlabPage) (v : IsValid p) where
  word_full :
      (k : ℕ) → (word_of p k ≡ u64_max) ↔ ((j : ℕ) → j < 64 → test_bit (word_of p k) j ≡ true)
  word_full k = (
    full_set (word_of p k) (v.narrow k),
    λ all. elim (Bool-cases (word_of p k == u64_max)) [
      | inl e ↦ ==→≡ _ _ e
      | inr e ↦
          let c = lowest_clear (word_of p k) (v.narrow k) (==→≢ _ _ e) in
          let bad : false ≡ true = sym c.1 ∙ all _ c.0 in absurd (cc)
    ],
  )

  -- The loop over the whole words, from word `w` on.
  words_full_iff :
      (left w : ℕ)
      → (words_full p.bitmap left w ≡ true)
        ↔ ((i : ℕ) → w * 64 ≤ i → i < (w + left) * 64 → in_use p i ≡ true)
  unfolding words_full
  words_full_iff zero w = (λ _ i lo hi. absurd (omega arith), λ _. refl)
  words_full_iff (suc left) w = elim (Bool-cases (word_of p w == u64_max)) [
    | inl e ↦
        let rest = words_full_iff left (w + 1) in
        let set = (word_full w).0 (==→≡ _ _ e) in
        rw e (
          λ t i lo hi. elim (Bool-cases (i / 64 == w)) [
            | inl q ↦ rw (==→≡ (i / 64) w q) (set (i % 64) (omega arith))
            | inr q ↦ let ne = ==→≢ (i / 64) w q in rest.0 t i (omega arith) (omega arith)
          ],
          λ all. rest.1 (λ i lo hi. all i (omega arith) (omega arith)),
        )
    | inr e ↦
        let ne = ==→≢ (word_of p w) u64_max e in
        rw e (
          λ bad. absurd (cc),
          λ all. absurd (
              ne (
                (word_full w).1 (λ j lt.
                  let q : (w * 64 + j) / 64 ≡ w = omega arith in
                  let r : (w * 64 + j) % 64 ≡ j = omega arith in
                  rw (q, r) at (all (w * 64 + j) (omega arith) (omega arith))))),
        )
  ]

  -- `is_full` tells whether every slot of a valid page is in use.
  is_full_iff : (is_full p ≡ true) ↔ AllUsed p p.capacity
  unfolding is_full
  is_full_iff =
      let full = p.capacity / 64 in
      let rem = p.capacity % 64 in
      let words = words_full_iff full 0 in
      let last = mask_full (word_of p full) (v.narrow full) rem (omega arith) in
      elim (Bool-cases (words_full p.bitmap full 0)) [
        | inr e ↦ rw e (
          λ bad. absurd (cc),
          λ all.
              let t = words.1 (λ i lo hi. all i (omega arith)) in
              let bad : false ≡ true = sym e ∙ t in bad,
        )
        | inl e ↦ elim (Bool-cases (ltb 0 rem)) [
          | inr r ↦
              rw (e, r)
                (λ _ i lt. words.0 e i (omega arith) (omega (arith, ltb→le 0 rem r)), λ _. refl)
          | inl r ↦
              rw (e, r)
                (
                  λ t i lt. elim (Bool-cases (ltb i (full * 64))) [
                    | inl q ↦ words.0 e i (omega arith) (omega (arith, ltb→lt i (full * 64) q))
                    | inr q ↦
                        let ge = ltb→le i (full * 64) q in
                        let at_last : i / 64 ≡ full = omega arith in
                        rw at_last (last.0 (==→≡ _ _ t) (i % 64) (omega arith))
                  ],
                  λ all. ≡→== _ _ (
                      last.1 (λ j lt.
                        let q : (full * 64 + j) / 64 ≡ full = omega arith in
                        let m : (full * 64 + j) % 64 ≡ j = omega arith in
                        rw (q, m) at (all (full * 64 + j) (omega arith)))),
                )
        ]
      ]
