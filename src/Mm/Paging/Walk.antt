-- ===== src/Mm/Paging/Walk.antt =====
-- The processor's own walk of the page tables, and what adding rights to entries leaves of it.
use package.avaria.Prelude.{ℕ, ◌+◌, ◌-◌, ◌*◌, ◌/◌, ◌%◌, ◌^◌}
use package.avaria.Prelude.{
  ◌≡◌, refl, arith, inl, inr, not, if◌then◌else◌, Option, none, some, List, [], ◌∷◌, Bool-cases,
  update,
}
use package.avaria.Mm.Paging.{
  Memory, is_present, is_huge, table_of, table_index, entry_address, executable,
  make_page_executable,
}
use package.avaria.Mm.Paging.Access.{
  Upgraded, MoreRights, is_present-Upgraded, is_huge-Upgraded, table_of-Upgraded,
}

-- Pages of 4 KiB, 2 MiB and 1 GiB.
pub data PageSize : Type 0 where
  small : PageSize
  large : PageSize
  giant : PageSize

-- The entry that maps an address, the size of the page, and the entries above it.
pub record Found : Type 0 where
  pub leaf : ℕ
  pub size : PageSize
  pub above : List ℕ

module _ (hhdm : ℕ) (m : Memory) where
  unfoldable pub in_page_table : ℕ → List ℕ → ℕ → Option Found
  in_page_table t above addr =
      let at = entry_address hhdm t (table_index 12 addr) in
      if is_present (m at) then some (record { leaf = at; size = small; above = above }) else none

  unfoldable pub in_directory : ℕ → List ℕ → ℕ → Option Found
  unfolding in_page_table
  in_directory t above addr =
      let at = entry_address hhdm t (table_index 21 addr) in
      if not (is_present (m at))
      then none
      else if is_huge (m at)
      then some (record { leaf = at; size = large; above = above })
      else in_page_table (table_of (m at)) (at ∷ above) addr

  unfoldable pub in_pointers : ℕ → List ℕ → ℕ → Option Found
  unfolding in_directory
  in_pointers t above addr =
      let at = entry_address hhdm t (table_index 30 addr) in
      if not (is_present (m at))
      then none
      else if is_huge (m at)
      then some (record { leaf = at; size = giant; above = above })
      else in_directory (table_of (m at)) (at ∷ above) addr

  unfoldable pub walk : ℕ → ℕ → Option Found
  unfolding in_pointers
  walk pml4_phys addr =
      let at = entry_address hhdm pml4_phys (table_index 39 addr) in
      if not (is_present (m at)) then none else in_pointers (table_of (m at)) (at ∷ []) addr

-- The physical address of `addr` in a page of each size, by the entry that maps it.
abbrev pub frame : PageSize → ℕ → ℕ → ℕ
frame small entry addr = entry / 2 ^ 12 % 2 ^ 40 * 2 ^ 12 + addr % 2 ^ 12
frame large entry addr = entry / 2 ^ 21 % 2 ^ 31 * 2 ^ 21 + addr % 2 ^ 21
frame giant entry addr = entry / 2 ^ 30 % 2 ^ 22 * 2 ^ 30 + addr % 2 ^ 30

abbrev pub physical : Memory → ℕ → Found → ℕ
physical m addr f = frame f.size (m f.leaf) addr

pub frame-Upgraded :
    {x y : ℕ} → Upgraded x y → (size : PageSize) (addr : ℕ) → frame size y addr ≡ frame size x addr
frame-Upgraded u small addr = omega (arith, u.address)
frame-Upgraded u large addr = omega (arith, u.address)
frame-Upgraded u giant addr = omega (arith, u.address)

module _ (hhdm : ℕ) (m m' : Memory) (more : MoreRights m m') (addr : ℕ) where
  pub in_page_table_same :
      (t : ℕ) (above : List ℕ)
      → in_page_table hhdm m' t above addr ≡ in_page_table hhdm m t above addr
  unfolding in_page_table MoreRights
  in_page_table_same t above =
      rw (is_present-Upgraded (more (entry_address hhdm t (table_index 12 addr)))) refl

  pub in_directory_same :
      (t : ℕ) (above : List ℕ)
      → in_directory hhdm m' t above addr ≡ in_directory hhdm m t above addr
  unfolding in_directory MoreRights
  in_directory_same t above =
      let at = entry_address hhdm t (table_index 21 addr) in
      let u = more at in
      rw
        (
          is_present-Upgraded u,
          is_huge-Upgraded u,
          table_of-Upgraded u,
          in_page_table_same (table_of (m at)) (at ∷ above),
        )
        refl

  pub in_pointers_same :
      (t : ℕ) (above : List ℕ) → in_pointers hhdm m' t above addr ≡ in_pointers hhdm m t above addr
  unfolding in_pointers MoreRights
  in_pointers_same t above =
      let at = entry_address hhdm t (table_index 30 addr) in
      let u = more at in
      rw
        (
          is_present-Upgraded u,
          is_huge-Upgraded u,
          table_of-Upgraded u,
          in_directory_same (table_of (m at)) (at ∷ above),
        )
        refl

  -- Adding rights to entries changes no walk.
  pub walk-MoreRights : (top : ℕ) → walk hhdm m' top addr ≡ walk hhdm m top addr
  unfolding walk MoreRights
  walk-MoreRights top =
      let at = entry_address hhdm top (table_index 39 addr) in
      let u = more at in
      rw (is_present-Upgraded u, table_of-Upgraded u, in_pointers_same (table_of (m at)) (at ∷ []))
        refl

-- The offset in a page has no part in the walk.
pub walk_page :
    (hhdm top : ℕ) (m : Memory) (a : ℕ) → walk hhdm m top (a - a % 4096) ≡ walk hhdm m top a
unfolding walk in_pointers in_directory in_page_table
walk_page hhdm top m a =
    let start = a - a % 4096 in
    let i39 : start / 2 ^ 39 ≡ a / 2 ^ 39 = omega arith in
    let i30 : start / 2 ^ 30 ≡ a / 2 ^ 30 = omega arith in
    let i21 : start / 2 ^ 21 ≡ a / 2 ^ 21 = omega arith in
    let i12 : start / 2 ^ 12 ≡ a / 2 ^ 12 = omega arith in rw (i39, i30, i21, i12) refl

-- The body of `make_executable` on what the processor's walk finds.
abbrev pub executable_found : Memory → Option Found → Memory
executable_found m none = m
executable_found m (some f) = update m f.leaf (executable (m f.leaf))

-- A page is made executable exactly in the entry that maps it, if there is one.
pub make_page_executable-walk :
    (hhdm top : ℕ) (m : Memory) (addr : ℕ)
    → make_page_executable hhdm top m addr ≡ executable_found m (walk hhdm m top addr)
unfolding make_page_executable walk in_pointers in_directory in_page_table
make_page_executable-walk hhdm top m addr =
    let pml4e = m (entry_address hhdm top (table_index 39 addr)) in
    let pdpte = m (entry_address hhdm (table_of pml4e) (table_index 30 addr)) in
    let pde = m (entry_address hhdm (table_of pdpte) (table_index 21 addr)) in
    let pte = m (entry_address hhdm (table_of pde) (table_index 12 addr)) in
    elim (Bool-cases (is_present pml4e)) [
      | inr e ↦ rw e refl
      | inl e ↦ rw e (elim (Bool-cases (is_present pdpte)) [
        | inr e ↦ rw e refl
        | inl e ↦ rw e (elim (Bool-cases (is_huge pdpte)) [
          | inl e ↦ rw e refl
          | inr e ↦ rw e (elim (Bool-cases (is_present pde)) [
            | inr e ↦ rw e refl
            | inl e ↦ rw e (elim (Bool-cases (is_huge pde)) [
              | inl e ↦ rw e refl
              | inr e ↦
                  rw e
                    (elim (Bool-cases (is_present pte)) [ inl e ↦ rw e refl | inr e ↦ rw e refl ])
            ])
          ])
        ])
      ])
    ]
