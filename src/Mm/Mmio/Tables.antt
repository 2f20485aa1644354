-- ===== src/Mm/Mmio/Tables.antt =====
-- A new page table, and the walk through it (`map_mmio` of `src/kern/mem.rs`, `lapic.rs`).
use package.avaria.Prelude.{ℕ, ◌+◌, ◌/◌, ◌%◌, ◌^◌, ◌≤◌, ◌<◌, bit_or, bit_or_step, bit_or-zero}
use package.avaria.Prelude.{
  ◌≡◌, ◌≢◌, refl, sym, ap, ◌∙◌, arith, inl, inr, true, false, ◌&&◌, ltb, leb, Bool-cases, ◌==◌,
  ==→≡, [], ◌∷◌, update, test_bit-eq-bit, bit-eq, bit, le→leb, lt→ltb,
}
use package.avaria.Mm.Paging.{Memory, is_present, is_huge, table_of, table_index, entry_address}
use package.avaria.Mm.Paging.Access.{bit_or_one, table_of-eq}
use package.avaria.Mm.Paging.Walk.{walk, in_page_table, in_directory, in_pointers}
use package.avaria.Mm.Mmio.{table_entry}

-- A word that a page does not hold.
abbrev pub Outside : ℕ → ℕ → Type 0
Outside page at = (leb page at && ltb at (page + 0x1000)) ≡ false

pub Outside-ne : (page x at : ℕ) → Outside page at → page ≤ x → x < page + 0x1000 → x ≢ at
Outside-ne page x at out lo hi e =
    let inside : (leb page at && ltb at (page + 0x1000)) ≡ true =
      rw (le→leb page at (omega arith), lt→ltb at (page + 0x1000) (omega arith)) refl in
    let bad : true ≡ false = sym inside ∙ out in absurd (cc)

-- The entry that leads to a new table at `phys`.
pub table_entry-eq : (phys : ℕ) → phys % 2 ^ 12 ≡ 0 → table_entry phys ≡ phys + 3
table_entry-eq phys aligned =
    let one : bit_or phys 1 ≡ phys + 1 =
      omega (arith, bit_or_step phys 1, bit_or-zero (phys / 2) (phys / 2) (omega arith)) in
    rw (bit_or_one (bit_or phys 1), one) (omega arith)

module _ (phys : ℕ) (aligned : phys % 2 ^ 12 ≡ 0) where
  pub new_present : is_present (table_entry phys) ≡ true
  new_present =
      let low : bit 0 (table_entry phys) ≡ 1 =
        bit-eq 0 (table_entry phys) ∙ omega (arith, table_entry-eq phys aligned) in
      test_bit-eq-bit (table_entry phys) 0 ∙ ap (λ t. t == 1) low

  pub new_small : is_huge (table_entry phys) ≡ false
  new_small =
      let seventh : bit 7 (table_entry phys) ≡ 0 =
        bit-eq 7 (table_entry phys) ∙ omega (arith, table_entry-eq phys aligned) in
      test_bit-eq-bit (table_entry phys) 7 ∙ ap (λ t. t == 1) seventh

  pub new_table : phys < 2 ^ 48 → table_of (table_entry phys) ≡ phys
  new_table fits = table_of-eq (table_entry phys) ∙ omega (arith, table_entry-eq phys aligned)

-- The walk down to a page of 4 KiB, by the entries that it reads.
pub walk_down :
    (hhdm top : ℕ) (m : Memory) (a e4 e3 e2 : ℕ)
    → m (entry_address hhdm top (table_index 39 a)) ≡ e4
    → is_present e4 ≡ true
    → m (entry_address hhdm (table_of e4) (table_index 30 a)) ≡ e3
    → is_present e3 ≡ true
    → is_huge e3 ≡ false
    → m (entry_address hhdm (table_of e3) (table_index 21 a)) ≡ e2
    → is_present e2 ≡ true
    → is_huge e2 ≡ false
    → walk hhdm m top a
      ≡ in_page_table hhdm m
          (table_of e2)
          (entry_address hhdm (table_of e3) (table_index 21 a)
            ∷ entry_address hhdm (table_of e4) (table_index 30 a)
            ∷ entry_address hhdm top (table_index 39 a)
            ∷ [])
          a
unfolding walk in_pointers in_directory
walk_down hhdm top m a e4 e3 e2 r4 p4 r3 p3 h3 r2 p2 h2 = rw (r4, p4, r3, p3, h3, r2, p2, h2) refl

-- An entry that is present is no entry that is not.
pub kept_present :
    (m : Memory) (at other v : ℕ)
    → is_present (m at) ≡ true
    → is_present (m other) ≡ false
    → update m other v at ≡ m at
kept_present m at other v here there = elim (Bool-cases (other == at)) [
  | inl e ↦
      let bad : true ≡ false =
        sym here ∙ (ap (λ a. is_present (m a)) (sym (==→≡ other at e)) ∙ there) in
      absurd (cc)
  | inr e ↦ rw e refl
]
