-- ===== src/Mm/Slab/Page.antt =====
-- `alloc` and `free` of a slab page (`SlabPage` of `src/kern/mm/slab.rs`): one slot changes hands.
use native.Mathlib.Nat.{mul-add-div_right, div-eq_of_lt}
use avaria.Prelude.{
  ℕ, zero, suc, ◌+◌, ◌-◌, ◌*◌, ◌/◌, ◌%◌, ◌^◌, ◌<◌, ◌≤◌, ◌≡◌, refl, sym, ap, ◌∙◌, ◌≢◌, arith,
}
use avaria.Prelude.{Bool, true, false, Bool-cases, ◌⊎◌, inl, inr, ◌==◌, ltb, leb, ==→≡, ==→≢}
use avaria.Prelude.{leb→le, leb→lt, le→leb, lt→leb, le→ltb, Option, none, some}
use avaria.Prelude.{
  length, get_or, set, length-set, get_or-set_self, get_or-set_ne, test_bit, with_bit,
}
use avaria.Prelude.{and_not, test_bit-with_bit_self, test_bit-with_bit_ne, test_bit-and_not_self}
use avaria.Prelude.{test_bit-and_not_ne, lt→ltb, ◌↔◌}
use avaria.Mm.Slab.{
  SlabPage, trailing_zeros, not_u64, u64_max, alloc_from, page_alloc, page_free, page_end,
}
use avaria.Mm.Slab.Words.{lowest_clear, full_set}

abbrev pub word_of : SlabPage → ℕ → ℕ
word_of p k = get_or p.bitmap k 0

-- Whether slot `i` is handed out.
abbrev pub in_use : SlabPage → ℕ → Bool
in_use p i = test_bit (word_of p (i / 64)) (i % 64)

-- Four words, at most 256 slots, all of them inside the address space.
pub record IsValid (p : SlabPage) : Type 0 where
  pub words : length p.bitmap ≡ 4
  pub slots : p.capacity ≤ 256
  pub sized : 0 < p.obj_size
  pub fits : p.base + p.capacity * p.obj_size ≤ 2 ^ 64
  pub narrow : (k : ℕ) → word_of p k < 2 ^ 64

-- A page whose slot `slot` is `v` and whose other slots are those of `p`.
pub record SlotSet (p : SlabPage) (slot : ℕ) (v : Bool) (p' : SlabPage) : Type 0 where
  pub here : in_use p' slot ≡ v
  pub others : (j : ℕ) → slot ≢ j → in_use p' j ≡ in_use p j
  pub base : p'.base ≡ p.base
  pub obj_size : p'.obj_size ≡ p.obj_size
  pub capacity : p'.capacity ≡ p.capacity
  pub length_kept : length p'.bitmap ≡ length p.bitmap

set_word-SlotSet :
    (p : SlabPage) (slot word b w : ℕ) (v : Bool)
    → slot < 256
    → length p.bitmap ≡ 4
    → slot / 64 ≡ word
    → slot % 64 ≡ b
    → test_bit w b ≡ v
    → ((k : ℕ) → b ≢ k → test_bit w k ≡ test_bit (word_of p word) k)
    → SlotSet p slot v (record p { bitmap = set p.bitmap word w })
set_word-SlotSet p slot word b w v lt len q r at_slot rest = record {
  here = rw (q, r, get_or-set_self p.bitmap word w 0 (omega arith)) at_slot;
  others = λ j ne. elim (Bool-cases (word == j / 64)) [
    | inl e ↦
        let same = ==→≡ word (j / 64) e in
        rw (← same, get_or-set_self p.bitmap word w 0 (omega arith))
          (rest (j % 64) (λ k. ne (omega arith)))
    | inr e ↦ rw (get_or-set_ne p.bitmap {i = word} {j = j / 64} w 0 (==→≢ word (j / 64) e)) refl
  ];
  base = refl;
  obj_size = refl;
  capacity = refl;
  length_kept = length-set p.bitmap word w;
}

-- What a successful `alloc` did.
pub record Takes (p p' : SlabPage) (addr : ℕ) : Type 0 where
  pub slot : ℕ
  pub inside : slot < p.capacity
  pub place : addr ≡ p.base + slot * p.obj_size
  pub was_free : in_use p slot ≡ false
  pub taken : SlotSet p slot true p'

module _ (p : SlabPage) (v : IsValid p) where
  slot_addr :
      (i : ℕ) → i < p.capacity → (p.base + i * p.obj_size) % 2 ^ 64 ≡ p.base + i * p.obj_size
  slot_addr i lt =
      let inside : i * p.obj_size + p.obj_size ≤ p.capacity * p.obj_size = grind arith in
      omega (arith, inside, v.fits, v.sized)

  alloc_from-cases :
      (left word : ℕ)
      → word + left ≡ 4
      → ((addr : ℕ) × ((alloc_from p left word).1 ≡ some addr)
          × Takes p (alloc_from p left word).0 addr)
        ⊎ ((alloc_from p left word ≡ (p, none))
            × ((i : ℕ) → word * 64 ≤ i → i < p.capacity → in_use p i ≡ true))
  unfolding alloc_from
  alloc_from-cases zero word e = inr (refl, λ i lo hi. absurd (omega (arith, v.slots)))
  alloc_from-cases (suc left) word e =
      let w = word_of p word in
      let b = trailing_zeros 64 (not_u64 w) in
      let rest = alloc_from-cases left (word + 1) (omega arith) in
      elim (Bool-cases (not_u64 w == 0)) [
        | inl full ↦
            let max : w ≡ u64_max = omega (arith, ==→≡ (not_u64 w) 0 full, v.narrow word) in
            elim rest [
              | inl got ↦ inl (rw (full, alloc_from) got)
              | inr (failed, above) ↦ inr (
                rw (full, alloc_from) failed,
                λ i lo hi. elim (Bool-cases (i / 64 == word)) [
                  | inl at_word ↦
                      rw (==→≡ (i / 64) word at_word)
                        (full_set w (v.narrow word) max (i % 64) (omega arith))
                  | inr past ↦ let ne = ==→≢ (i / 64) word past in above i (omega arith) hi
                ],
              )
            ]
        | inr some_free ↦
            let room : w ≢ u64_max = λ m. ==→≢ (not_u64 w) 0 some_free (omega arith) in
            let (b_lt, b_clear, b_first) = lowest_clear w (v.narrow word) room in
            elim (Bool-cases (leb p.capacity (word * 64 + b))) [
              | inl past_end ↦
                  let over = leb→le p.capacity (word * 64 + b) past_end in
                  elim rest [
                    | inl got ↦ inl (rw (some_free, past_end, alloc_from) got)
                    | inr (failed, above) ↦ inr (
                      rw (some_free, past_end, alloc_from) failed,
                      λ i lo hi. elim (Bool-cases (i / 64 == word)) [
                        | inl at_word ↦
                            let same = ==→≡ (i / 64) word at_word in
                            rw same (b_first (i % 64) (omega arith))
                        | inr past ↦ let ne = ==→≢ (i / 64) word past in above i (omega arith) hi
                      ],
                    )
                  ]
              | inr in_page ↦
                  let slot = word * 64 + b in
                  let lt = leb→lt p.capacity slot in_page in
                  let q : slot / 64 ≡ word = omega arith in
                  let r : slot % 64 ≡ b = omega arith in
                  inl (
                    p.base + slot * p.obj_size,
                    rw (some_free, in_page, alloc_from) (ap some (slot_addr slot lt)),
                    rw (some_free, in_page, alloc_from)
                        (record {
                          slot = slot;
                          inside = lt;
                          place = refl;
                          was_free = rw (q, r) b_clear;
                          taken =
                              set_word-SlotSet p slot word b (with_bit w b) true
                                (omega (arith, v.slots)) v.words q r (test_bit-with_bit_self w b)
                                (λ k ne. test_bit-with_bit_ne w b k ne);
                        }),
                  )
            ]
      ]

  page_alloc_lem : page_alloc p ≡ alloc_from p 4 0
  unfolding page_alloc
  page_alloc_lem = refl

  pub page_alloc-cases :
      ((addr : ℕ) × ((page_alloc p).1 ≡ some addr) × Takes p (page_alloc p).0 addr)
      ⊎ ((page_alloc p ≡ (p, none)) × ((i : ℕ) → i < p.capacity → in_use p i ≡ true))
  page_alloc-cases = rw page_alloc_lem (elim (alloc_from-cases 4 0 refl) [
    | inl got ↦ inl got
    | inr (failed, all) ↦ inr (failed, λ i lt. all i (omega arith) lt)
  ])

  -- `alloc` of a valid page takes a slot that was free, leaves the other slots as they were, and
  -- returns that slot's address; it fails exactly when every slot is in use, and then changes
  -- nothing.
  pub page_alloc-Takes :
      ((addr : ℕ) → (page_alloc p).1 ≡ some addr → Takes p (page_alloc p).0 addr)
      × (((page_alloc p).1 ≡ none) ↔ ((i : ℕ) → i < p.capacity → in_use p i ≡ true))
      × ((page_alloc p).1 ≡ none → (page_alloc p).0 ≡ p)
  page_alloc-Takes = elim page_alloc-cases [
    | inl (addr, got, t) ↦
        let clash : (page_alloc p).1 ≡ none → ⊥ =
          λ no. (let bad : none ≡ some addr = sym no ∙ got in cc) in
        (
          λ addr' got'.
              let both : some addr ≡ some addr' = sym got ∙ got' in
              let same : addr ≡ addr' = cc in rw (← same) t,
          (
            λ no. absurd (clash no),
            λ all. let bad : false ≡ true = sym t.was_free ∙ all t.slot t.inside in absurd (cc),
          ),
          λ no. absurd (clash no),
        )
    | inr (failed, all) ↦
        let no = ap (λ (x : SlabPage × Option ℕ). x.1) failed in
        (
          λ addr got. absurd (let bad : none ≡ some addr = sym no ∙ got in cc),
          (λ _. all, λ _. no),
          λ _. ap (λ (x : SlabPage × Option ℕ). x.0) failed,
        )
  ]

  -- The address of a slot, or of a byte inside it, names that slot.
  slot_of_addr :
      (i off : ℕ) → off < p.obj_size → (p.base + i * p.obj_size + off - p.base) / p.obj_size ≡ i
  slot_of_addr i off lt =
      ap (λ n. n / p.obj_size)
        (let e : p.base + i * p.obj_size + off - p.base ≡ i * p.obj_size + off = omega arith in e)
      ∙ mul-add-div_right v.sized i off
      ∙ (ap (λ n. i + n) (div-eq_of_lt lt) ∙ omega arith)

  -- On a valid page that ends below 2 ^ 64, `free` of an address inside slot `i` gives that slot back and
  -- leaves the others as they were; an address outside the page is refused and changes nothing.
  pub page_free-SlotSet :
      p.base + p.capacity * p.obj_size < 2 ^ 64
      → ((i off : ℕ)
          → i < p.capacity
          → off < p.obj_size
          → ((page_free p (p.base + i * p.obj_size + off)).1 ≡ true)
            × SlotSet p i false (page_free p (p.base + i * p.obj_size + off)).0)
        × ((addr : ℕ)
            → (addr < p.base) ⊎ (p.base + p.capacity * p.obj_size ≤ addr)
            → page_free p addr ≡ (p, false))
  unfolding page_free
  page_free-SlotSet below =
      let whole : page_end p ≡ p.base + p.capacity * p.obj_size = omega (arith, below) in
      (
        λ i off lt lo.
            let fits : i * p.obj_size + p.obj_size ≤ p.capacity * p.obj_size = grind arith in
            let w = word_of p (i / 64) in
            rw
              (
                slot_of_addr i off lo,
                le→ltb (p.base + i * p.obj_size + off) p.base (omega arith),
                whole,
                lt→leb (p.base + p.capacity * p.obj_size) (p.base + i * p.obj_size + off)
                    (omega arith),
              )
              (
                refl,
                set_word-SlotSet p i (i / 64) (i % 64) (and_not w (2 ^ (i % 64))) false
                    (omega (arith, v.slots)) v.words refl refl (test_bit-and_not_self w (i % 64))
                    (λ k ne. test_bit-and_not_ne w (i % 64) k ne),
              ),
        λ addr out. elim out [
          | inl below ↦ rw (lt→ltb addr p.base below) refl
          | inr above ↦ elim (Bool-cases (ltb addr p.base)) [
            | inl e ↦ rw e refl
            | inr e ↦ rw (e, whole, le→leb (p.base + p.capacity * p.obj_size) addr above) refl
          ]
        ],
      )
