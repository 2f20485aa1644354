-- ===== src/Mm/Mmio/Kept.antt =====
-- `map_mmio` leaves what is mapped already.
use package.avaria.Prelude.{ℕ, zero, suc, ◌+◌, ◌*◌, ◌<◌, ◌≤◌, ◌≡◌, refl, ap, ◌∙◌, arith, inl, inr}
use package.avaria.Prelude.{Bool, true, if◌then◌else◌, Bool-cases, none, some, List, [], ◌∷◌, add_w}
use package.avaria.Mm.Heap.{Heap}
use package.avaria.Mm.Paging.{
  Memory, is_present, is_huge, table_of, table_index, entry_address, page_floor,
}
use package.avaria.Mm.Paging.Walk.{Found, walk, in_pointers, in_directory, in_page_table}
use package.avaria.Mm.Mmio.{
  ensure_table, map_entry, map_in_table, map_in_directory, map_in_pointers, map_page, map_pages,
  map_mmio,
}

module _ (hhdm vaddr phys : ℕ) (h : Heap) (m : Memory) where
  page_table_kept :
      (t : ℕ) (above : List ℕ) (f : Found)
      → in_page_table hhdm m t above vaddr ≡ some f
      → map_entry hhdm vaddr phys m t ≡ m
  unfolding in_page_table map_entry
  page_table_kept t above f e =
      elim (Bool-cases (is_present (m (entry_address hhdm t (table_index 12 vaddr))))) [
        | inl p ↦ rw p refl
        | inr p ↦ let bad : none ≡ some f = rw (← e, p) refl in absurd (cc)
      ]

  present_kept : (at : ℕ) → is_present (m at) ≡ true → ensure_table h m at ≡ (h, m, true)
  unfolding ensure_table
  present_kept at p = rw p refl

  directory_kept :
      (at3 : ℕ) (above : List ℕ) (f : Found)
      → in_directory hhdm m (table_of (m at3)) above vaddr ≡ some f
      → map_in_directory hhdm vaddr phys at3 (h, m, true) ≡ (h, m, true)
  unfolding in_directory map_in_directory map_in_table
  directory_kept at3 above f e =
      let at = entry_address hhdm (table_of (m at3)) (table_index 21 vaddr) in
      elim (Bool-cases (is_present (m at))) [
        | inr p ↦ let bad : none ≡ some f = rw (← e, p) refl in absurd (cc)
        | inl p ↦ elim (Bool-cases (is_huge (m at))) [
          | inl q ↦ rw (p, q) refl
          | inr q ↦
              let below : in_page_table hhdm m (table_of (m at)) (at ∷ above) vaddr ≡ some f =
                rw (← e, p, q) refl in
              rw (p, q)
                (ap (λ (x : Memory). (h, x, true))
                  (page_table_kept (table_of (m at)) (at ∷ above) f below))
        ]
      ]

  pointers_kept :
      (at4 : ℕ) (above : List ℕ) (f : Found)
      → in_pointers hhdm m (table_of (m at4)) above vaddr ≡ some f
      → map_in_pointers hhdm vaddr phys at4 (h, m, true) ≡ (h, m, true)
  unfolding in_pointers map_in_pointers
  pointers_kept at4 above f e =
      let at = entry_address hhdm (table_of (m at4)) (table_index 30 vaddr) in
      elim (Bool-cases (is_present (m at))) [
        | inr p ↦ let bad : none ≡ some f = rw (← e, p) refl in absurd (cc)
        | inl p ↦ elim (Bool-cases (is_huge (m at))) [
          | inl q ↦ rw (p, q) refl
          | inr q ↦
              let below : in_directory hhdm m (table_of (m at)) (at ∷ above) vaddr ≡ some f =
                rw (← e, p, q) refl in
              rw (p, q) (directory_kept at (at ∷ above) f below)
        ]
      ]

  page_kept :
      (top : ℕ) (f : Found)
      → walk hhdm m top vaddr ≡ some f
      → map_page hhdm vaddr phys top h m ≡ (h, m, true)
  unfolding walk map_page
  page_kept top f e =
      let at = entry_address hhdm top (table_index 39 vaddr) in
      elim (Bool-cases (is_present (m at))) [
        | inr p ↦ let bad : none ≡ some f = rw (← e, p) refl in absurd (cc)
        | inl p ↦
            let below : in_pointers hhdm m (table_of (m at)) (at ∷ []) vaddr ≡ some f =
              rw (← e, p) refl in
            rw (present_kept at p) (pointers_kept at (at ∷ []) f below)
      ]

-- The page `i` of a range of device memory, in the direct map.
abbrev pub page_address : ℕ → ℕ → ℕ → ℕ
page_address hhdm phys_base i = add_w 64 hhdm (add_w 64 phys_base (i * 0x1000))

pages_kept :
    (hhdm top phys_base page_i left : ℕ) (h : Heap) (m : Memory)
    → ((i : ℕ)
        → page_i ≤ i
        → i < page_i + left
        → (f : Found) × (walk hhdm m top (page_address hhdm phys_base i) ≡ some f))
    → map_pages hhdm top phys_base page_i left (h, m, true) ≡ (h, m, true)
unfolding map_pages
pages_kept hhdm top phys_base page_i zero h m mapped = refl
pages_kept hhdm top phys_base page_i (suc left) h m mapped =
    let (f, found) = mapped page_i (omega arith) (omega arith) in
    let phys = add_w 64 phys_base (page_i * 0x1000) in
    ap (map_pages hhdm top phys_base (page_i + 1) left)
      (page_kept hhdm (page_address hhdm phys_base page_i) phys h m top f found)
    ∙ pages_kept hhdm top phys_base (page_i + 1) left h m
        (λ i lo hi. mapped i (omega arith) (omega arith))

-- Over a range whose pages the processor's walk finds in the direct map already, `map_mmio` takes no
-- memory and changes no entry, and gives the range's address in the direct map.
pub map_mmio-kept :
    (cr3 : ℕ) (h : Heap) (m : Memory) (phys_base num_pages : ℕ)
    → ((i : ℕ)
        → i < num_pages
        → (f : Found) × (walk h.hhdm m (page_floor cr3) (page_address h.hhdm phys_base i) ≡ some f))
    → map_mmio cr3 h m phys_base num_pages ≡ (add_w 64 h.hhdm phys_base, h, m)
unfolding map_mmio
map_mmio-kept cr3 h m phys_base num_pages mapped =
    let kept =
      pages_kept h.hhdm (page_floor cr3) phys_base 0 num_pages h m
        (λ i lo hi. mapped i (omega arith)) in
    let at : Bool → ℕ = λ done. if done then add_w 64 h.hhdm phys_base else 0 in
    ap (λ (r : Heap × Memory × Bool). (at r.2, r.0, r.1)) kept
