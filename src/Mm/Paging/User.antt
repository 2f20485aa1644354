-- ===== src/Mm/Paging/User.antt =====
-- `make_user_accessible` of `src/kern/drv/ring3/mod.rs` against the processor's walk.
use package.avaria.Prelude.{ℕ, ◌+◌, ◌^◌, ◌≤◌, ◌<◌}
use package.avaria.Prelude.{
  ◌≡◌, sym, ◌∙◌, inl, inr, not, if◌then◌else◌, ==_self, some, none, Option, List, [], ◌∷◌,
  Bool-cases, update,
}
use package.avaria.Mm.Paging.{
  Memory, is_present, is_huge, table_of, table_index, entry_address, page_floor, with_user,
  user_page, make_page_user, make_user_accessible, over_range,
}
use package.avaria.Mm.Paging.Access.{
  MoreRights, MoreRights-refl, MoreRights-trans, MoreRights-update, MoreRights-at,
  with_user-Upgraded,
}
use package.avaria.Mm.Paging.Walk.{
  Found, large, giant, walk, in_page_table, in_directory, in_pointers, physical, walk-MoreRights,
  walk_page, frame-Upgraded, in_page_table_same, in_directory_same, in_pointers_same,
}
use package.avaria.Mm.Paging.Range.{over_range-MoreRights, over_range-all}
use package.avaria.Mm.Paging.Levels.{
  UserRuns, AllUser, IsUser-with_user, UserRuns-Upgraded, AllUser-MoreRights, at_table, Opens,
  table-adds, table-Opens, level-adds, level-Opens,
}

module _ (hhdm : ℕ) where
  abbrev at_directory : Memory → ℕ → ℕ → Memory
  at_directory m t addr =
      let at = entry_address hhdm t (table_index 21 addr) in
      let m' = update m at (with_user (m at)) in
      if not (is_present (m at))
      then m
      else if is_huge (m at)
      then update m' at (user_page (m at))
      else at_table hhdm m' (table_of (m at)) addr

  abbrev at_pointers : Memory → ℕ → ℕ → Memory
  at_pointers m t addr =
      let at = entry_address hhdm t (table_index 30 addr) in
      let m' = update m at (with_user (m at)) in
      if not (is_present (m at))
      then m
      else if is_huge (m at)
      then update m' at (user_page (m at))
      else at_directory m' (table_of (m at)) addr

  directory-adds : (m : Memory) (t addr : ℕ) → MoreRights m (at_directory m t addr)
  directory-adds =
      level-adds hhdm 21 large (at_table hhdm) (in_page_table hhdm) (table-adds hhdm)
        (table-Opens hhdm)
        (λ m m' t addr above more. in_page_table_same hhdm m m' more addr t above)

  directory-Opens :
      (m : Memory) (t addr : ℕ) (above : List ℕ) (f : Found)
      → AllUser m above
      → in_directory hhdm m t above addr ≡ some f
      → Opens hhdm (at_directory m t addr) f
  unfolding in_directory
  directory-Opens =
      level-Opens hhdm 21 large (at_table hhdm) (in_page_table hhdm) (table-adds hhdm)
        (table-Opens hhdm)
        (λ m m' t addr above more. in_page_table_same hhdm m m' more addr t above)

  pointers-adds : (m : Memory) (t addr : ℕ) → MoreRights m (at_pointers m t addr)
  pointers-adds =
      level-adds hhdm 30 giant at_directory (in_directory hhdm) directory-adds directory-Opens
        (λ m m' t addr above more. in_directory_same hhdm m m' more addr t above)

  pointers-Opens :
      (m : Memory) (t addr : ℕ) (above : List ℕ) (f : Found)
      → AllUser m above
      → in_pointers hhdm m t above addr ≡ some f
      → Opens hhdm (at_pointers m t addr) f
  unfolding in_pointers
  pointers-Opens =
      level-Opens hhdm 30 giant at_directory (in_directory hhdm) directory-adds directory-Opens
        (λ m m' t addr above more. in_directory_same hhdm m m' more addr t above)

  module _ (top : ℕ) (m : Memory) (addr : ℕ) where
    abbrev first : ℕ
    first = entry_address hhdm top (table_index 39 addr)

    abbrev with_first : Memory
    with_first = update m first (with_user (m first))

    more_first : MoreRights m with_first
    more_first = MoreRights-update m first (with_user (m first)) (with_user-Upgraded (m first))

    page-adds : MoreRights m (make_page_user hhdm top m addr)
    unfolding make_page_user
    page-adds = elim (Bool-cases (is_present (m first))) [
      | inr e ↦ rw e (MoreRights-refl m)
      | inl e ↦ rw e (
          MoreRights-trans m with_first (at_pointers with_first (table_of (m first)) addr)
            more_first (pointers-adds with_first (table_of (m first)) addr))
    ]

    page-Opens :
        (f : Found) → walk hhdm m top addr ≡ some f → Opens hhdm (make_page_user hhdm top m addr) f
    unfolding make_page_user walk AllUser
    page-Opens f found = elim (Bool-cases (is_present (m first))) [
      | inr e ↦
          let none_found : ◌≡◌ {A = Option Found} none (some f) = (rw e at found) in absurd (cc)
      | inl e ↦
          let deeper : in_pointers hhdm m (table_of (m first)) (first ∷ []) addr ≡ some f =
            (rw e at found) in
          rw e (
            pointers-Opens with_first (table_of (m first)) addr (first ∷ []) f
              (rw (==_self first) (IsUser-with_user (m first)), tt)
              (in_pointers_same hhdm m with_first more_first addr (table_of (m first)) (first ∷ [])
                ∙ deeper))
    ]

  -- What maps an address, if anything does, is open to user code.
  unfoldable OpenAt : ℕ → Memory → ℕ → Type 0
  OpenAt top m a = (f : Found) → walk hhdm m top a ≡ some f → Opens hhdm m f

  page-OpenAt : (top : ℕ) (m : Memory) (a : ℕ) → OpenAt top (make_page_user hhdm top m a) a
  unfolding OpenAt
  page-OpenAt top m a f found =
      page-Opens top m a f (
        sym (walk-MoreRights hhdm m (make_page_user hhdm top m a) (page-adds top m a) a top)
        ∙ found)

  OpenAt-MoreRights :
      (top : ℕ) (m m' : Memory) (a : ℕ) → MoreRights m m' → OpenAt top m a → OpenAt top m' a
  unfolding OpenAt
  OpenAt-MoreRights top m m' a more before f found =
      let (runs, all) = before f (sym (walk-MoreRights hhdm m m' more a top) ∙ found) in
      (
        UserRuns-Upgraded (MoreRights-at m m' more f.leaf) runs,
        AllUser-MoreRights m m' f.above more all,
      )

open_page :
    (hhdm top vaddr size : ℕ) (m : Memory) (a : ℕ) (f : Found)
    → vaddr + size + 4095 < 2 ^ 64
    → vaddr ≤ a
    → a < vaddr + size
    → walk hhdm (over_range (make_page_user hhdm top) vaddr size m) top a ≡ some f
    → Opens hhdm (over_range (make_page_user hhdm top) vaddr size m) f
unfolding OpenAt
open_page hhdm top vaddr size m a f h lo hi found =
    over_range-all (make_page_user hhdm top) (page-adds hhdm top) (OpenAt hhdm top)
      (page-OpenAt hhdm top) (OpenAt-MoreRights hhdm top) vaddr size m a h lo hi f
      (walk_page hhdm top _ a ∙ found)

-- What `make_user_accessible` leaves and brings about.
pub record OpenedToUser (hhdm top vaddr size : ℕ) (m m' : Memory) : Type 0 where
  pub same_walk : (a : ℕ) → walk hhdm m' top a ≡ walk hhdm m top a
  pub same_address : (a : ℕ) (f : Found) → physical m' a f ≡ physical m a f
  pub only_rights : MoreRights m m'
  pub opened :
      (a : ℕ) (f : Found)
      → vaddr ≤ a
      → a < vaddr + size
      → walk hhdm m top a ≡ some f
      → UserRuns (m' f.leaf) × AllUser m' f.above

-- For a range that ends at least 4095 bytes before the end of the address space, `make_user_accessible`
-- changes neither the entries that the processor's walk passes through for any address nor the physical
-- address that any entry gives, and no word of memory but by adding rights; and every mapped address
-- of the range ends up open to user code that writes and runs: its entry permits all three, and every
-- entry above it permits user code.
pub make_user_accessible-OpenedToUser :
    (hhdm cr3 vaddr size : ℕ) (m : Memory)
    → vaddr + size + 4095 < 2 ^ 64
    → OpenedToUser hhdm (page_floor cr3) vaddr size m (make_user_accessible hhdm cr3 vaddr size m)
unfolding make_user_accessible
make_user_accessible-OpenedToUser hhdm cr3 vaddr size m h =
    let top = page_floor cr3 in
    let body = make_page_user hhdm top in
    let m' = over_range body vaddr size m in
    let more = over_range-MoreRights body (page-adds hhdm top) vaddr size m in
    record {
      same_walk = λ a. walk-MoreRights hhdm m m' more a top;
      same_address = λ a f. frame-Upgraded (MoreRights-at m m' more f.leaf) f.size a;
      only_rights = more;
      opened = λ a f lo hi found.
          open_page hhdm top vaddr size m a f h lo hi
            (walk-MoreRights hhdm m m' more a top ∙ found);
    }
