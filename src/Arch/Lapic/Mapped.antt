-- ===== src/Arch/Lapic/Mapped.antt =====
-- What `map_lapic_page` of `src/kern/arch/x86_64/lapic.rs` maps, by the processor's walk.
use package.avaria.Prelude.{ℕ, ◌+◌, ◌-◌, ◌/◌, ◌%◌, ◌^◌, ◌≤◌, ◌<◌, bit_and_low}
use package.avaria.Prelude.{
  ◌≡◌, refl, sym, ap, ◌∙◌, arith, inl, inr, true, false, Bool-cases, ◌==◌, ==→≡, Option, none, some,
  [], ◌∷◌, ==_self, ≢→==, update, add_w,
}
use package.avaria.Mm.Heap
use package.avaria.Mm.Heap.{Heap, virt_to_phys}
use package.avaria.Mm.Paging.{
  Memory, is_present, is_huge, table_of, table_index, entry_address, page_floor,
}
use package.avaria.Mm.Paging.Walk.{
  Found, small, large, giant, walk, in_page_table, in_directory, in_pointers, physical,
}
use package.avaria.Mm.Mmio.{zeroed, table_entry}
use package.avaria.Arch.Lapic.{lapic_phys, lapic_entry, map_in_old, map_in_new, map_lapic_page}
use package.avaria.Mm.Mmio.Tables.{
  Outside, Outside-ne, new_present, new_small, new_table, walk_down, kept_present,
}

-- Three ways to end: nothing is mapped; the page was mapped before; or it was not, and now leads to the
-- registers.
pub data Outcome (hhdm top : ℕ) (h : Heap) (m : Memory) (r : ℕ × Heap × Memory) : Type 0 where
  failed :
      r.0 ≡ 0 → walk hhdm m top (add_w 64 hhdm lapic_phys) ≡ none → r.2 ≡ m → Outcome hhdm top h m r
  before :
      (f : Found)
      → walk hhdm m top (add_w 64 hhdm lapic_phys) ≡ some f
      → r ≡ (add_w 64 hhdm lapic_phys, h, m)
      → Outcome hhdm top h m r
  mapped :
      (f : Found)
      → r.0 ≡ add_w 64 hhdm lapic_phys
      → walk hhdm m top r.0 ≡ none
      → walk hhdm r.2 top r.0 ≡ some f
      → physical r.2 r.0 f ≡ lapic_phys + r.0 % 2 ^ 12
      → Outcome hhdm top h m r

module _ (hhdm cr3 : ℕ) (h : Heap) (m : Memory) where
  abbrev pub top : ℕ
  top = page_floor cr3

  abbrev pub vaddr : ℕ
  vaddr = add_w 64 hhdm lapic_phys

  abbrev pub at4 : ℕ
  at4 = entry_address hhdm top (table_index 39 vaddr)

  abbrev pub at3 : ℕ
  at3 = entry_address hhdm (table_of (m at4)) (table_index 30 vaddr)

  abbrev pub at2 : ℕ
  at2 = entry_address hhdm (table_of (m at3)) (table_index 21 vaddr)

  abbrev at1 : ℕ
  at1 = entry_address hhdm (table_of (m at2)) (table_index 12 vaddr)

  old-Outcome :
      is_present (m at4) ≡ true
      → is_present (m at3) ≡ true
      → is_huge (m at3) ≡ false
      → is_present (m at2) ≡ true
      → is_huge (m at2) ≡ false
      → Outcome hhdm top h m (vaddr, h, map_in_old m at1)
  unfolding map_in_old in_page_table
  old-Outcome p4 p3 h3 p2 h2 =
      let down = walk_down hhdm top m vaddr (m at4) (m at3) (m at2) refl p4 refl p3 h3 refl p2 h2 in
      elim (Bool-cases (is_present (m at1))) [
        | inl p1 ↦
            before (record { leaf = at1; size = small; above = at2 ∷ at3 ∷ at4 ∷ [] })
              (down ∙ rw p1 refl) (rw p1 refl)
        | inr p1 ↦
            let m' = update m at1 lapic_entry in
            let down' =
              walk_down hhdm top m' vaddr (m at4) (m at3) (m at2)
                (kept_present m at4 at1 lapic_entry p4 p1) p4
                (kept_present m at3 at1 lapic_entry p3 p1) p3 h3
                (kept_present m at2 at1 lapic_entry p2 p1) p2 h2 in
            rw p1 (
              mapped (record { leaf = at1; size = small; above = at2 ∷ at3 ∷ at4 ∷ [] }) refl
                (down ∙ rw p1 refl) (down' ∙ rw (==_self at1) refl) (rw (==_self at1) refl))
      ]

  -- A page in the direct map that holds none of the entries above the page of the registers.
  pub record IsFresh (page : ℕ) : Type 0 where
    pub from : hhdm ≤ page
    pub aligned : (page - hhdm) % 2 ^ 12 ≡ 0
    pub fits : page - hhdm < 2 ^ 48
    pub out4 : Outside page at4
    pub out3 : Outside page at3
    pub out2 : Outside page at2

  module _ (page : ℕ) (fresh : IsFresh page) (room : hhdm + 2 ^ 48 ≤ 2 ^ 64) where
    abbrev phys : ℕ
    phys = page - hhdm

    abbrev new1 : ℕ
    new1 = entry_address hhdm phys (table_index 12 vaddr)

    abbrev new_memory : Memory
    new_memory = update (update (zeroed m page) at2 (table_entry phys)) new1 lapic_entry

    new1-inside : (page ≤ new1) × (new1 < page + 0x1000)
    new1-inside =
        omega (arith, bit_and_low 9 (vaddr / 2 ^ 12), fresh.from, fresh.aligned, fresh.fits)

    new_kept :
        (at : ℕ)
        → Outside page at
        → is_present (m at) ≡ true
        → is_present (m at2) ≡ false
        → new_memory at ≡ m at
    new_kept at out p q =
        let apart = Outside-ne page new1 at out new1-inside.0 new1-inside.1 in
        elim (Bool-cases (at2 == at)) [
          | inl e ↦
              let bad : true ≡ false =
                sym p ∙ (ap (λ a. is_present (m a)) (sym (==→≡ at2 at e)) ∙ q) in
              absurd (cc)
          | inr e ↦ rw (≢→== new1 at apart, e, out) refl
        ]

    new_directory : new_memory at2 ≡ table_entry phys
    new_directory =
        let apart = Outside-ne page new1 at2 fresh.out2 new1-inside.0 new1-inside.1 in
        rw (≢→== new1 at2 apart, ==_self at2) refl

    new_found :
        is_present (m at4) ≡ true
        → is_present (m at3) ≡ true
        → is_huge (m at3) ≡ false
        → is_present (m at2) ≡ false
        → walk hhdm new_memory top vaddr
          ≡ some (record { leaf = new1; size = small; above = at2 ∷ at3 ∷ at4 ∷ [] })
    unfolding in_page_table
    new_found p4 p3 h3 p2 =
        walk_down hhdm top new_memory vaddr (m at4) (m at3) (table_entry phys)
          (new_kept at4 fresh.out4 p4 p2) p4 (new_kept at3 fresh.out3 p3 p2) p3 h3 new_directory
          (new_present phys fresh.aligned) (new_small phys fresh.aligned)
        ∙ rw (new_table phys fresh.aligned fresh.fits, ==_self new1) refl

  new-Outcome :
      h.hhdm ≡ hhdm
      → hhdm + 2 ^ 48 ≤ 2 ^ 64
      → (r : Heap × Option ℕ) → ((page : ℕ) → r.1 ≡ some page → IsFresh page)
      → is_present (m at4) ≡ true
      → is_present (m at3) ≡ true
      → is_huge (m at3) ≡ false
      → is_present (m at2) ≡ false
      → walk hhdm m top vaddr ≡ none
      → Outcome hhdm top h m (map_in_new hhdm vaddr at2 h m r)
  unfolding map_in_new
  new-Outcome same room (h', none) fresh p4 p3 h3 p2 unmapped = failed refl unmapped refl
  new-Outcome same room (h', some page) fresh p4 p3 h3 p2 unmapped =
      let f = fresh page refl in
      let to_phys : virt_to_phys h page ≡ page - hhdm = omega (arith, same, f.from, f.fits) in
      rw to_phys (
        mapped
          (record {
            leaf = entry_address hhdm (page - hhdm) (table_index 12 vaddr);
            size = small;
            above = at2 ∷ at3 ∷ at4 ∷ [];
          })
          refl unmapped (new_found page f room p4 p3 h3 p2)
          (rw (==_self (entry_address hhdm (page - hhdm) (table_index 12 vaddr))) refl))

-- Where the direct map starts at the address that the heap has for it and holds 2 ^ 48 bytes, and a page
-- that the allocator gives lies in it and holds no entry above the page of the registers:
-- `map_lapic_page` either returns 0, with the page unmapped and memory as it was, or finds it mapped
-- and changes nothing, or it was not mapped, and now the processor's walk leads from the address that
-- is returned to the registers.
pub map_lapic_page-Outcome :
    (hhdm cr3 : ℕ) (h : Heap) (m : Memory)
    → h.hhdm ≡ hhdm
    → hhdm + 2 ^ 48 ≤ 2 ^ 64
    → ((page : ℕ) → (Heap.alloc_pages h 0).1 ≡ some page → IsFresh hhdm cr3 h m page)
    → Outcome hhdm (page_floor cr3) h m (map_lapic_page hhdm cr3 h m)
unfolding map_lapic_page walk in_pointers in_directory in_page_table
map_lapic_page-Outcome hhdm cr3 h m same room fresh =
    elim (Bool-cases (is_present (m (at4 hhdm cr3 h m)))) [
      | inr p4 ↦ rw p4 (failed refl (rw p4 refl) refl)
      | inl p4 ↦ elim (Bool-cases (is_present (m (at3 hhdm cr3 h m)))) [
        | inr p3 ↦ rw (p4, p3) (failed refl (rw (p4, p3) refl) refl)
        | inl p3 ↦ elim (Bool-cases (is_huge (m (at3 hhdm cr3 h m)))) [
          | inl h3 ↦
              rw (p4, p3, h3)
                (before
                  (record { leaf = at3 hhdm cr3 h m; size = giant; above = at4 hhdm cr3 h m ∷ [] })
                  (rw (p4, p3, h3) refl) refl)
          | inr h3 ↦ elim (Bool-cases (is_present (m (at2 hhdm cr3 h m)))) [
            | inr p2 ↦
                rw (p4, p3, h3, p2)
                  (new-Outcome hhdm cr3 h m same room (Heap.alloc_pages h 0) fresh p4 p3 h3 p2
                    (rw (p4, p3, h3, p2) refl))
            | inl p2 ↦ elim (Bool-cases (is_huge (m (at2 hhdm cr3 h m)))) [
              | inl h2 ↦
                  rw (p4, p3, h3, p2, h2)
                    (before
                      (record {
                        leaf = at2 hhdm cr3 h m;
                        size = large;
                        above = at3 hhdm cr3 h m ∷ at4 hhdm cr3 h m ∷ [];
                      })
                      (rw (p4, p3, h3, p2, h2) refl) refl)
              | inr h2 ↦ rw (p4, p3, h3, p2, h2) (old-Outcome hhdm cr3 h m p4 p3 h3 p2 h2)
            ]
          ]
        ]
      ]
    ]
