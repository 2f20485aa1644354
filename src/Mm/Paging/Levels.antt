-- ===== src/Mm/Paging/Levels.antt =====
-- One level of the tables in the walk of `make_user_accessible` of `src/kern/drv/ring3/mod.rs`.
use package.avaria.Prelude.{ℕ, ◌/◌, ◌%◌, ◌^◌, bit_or}
use package.avaria.Prelude.{
  ◌≡◌, ◌∙◌, arith, inl, inr, not, if◌then◌else◌, ==_self, some, none, Option, List, [], ◌∷◌,
  Bool-cases, update,
}
use mathlib.Core.Path.{subst}
use package.avaria.Mm.Paging.{
  Memory, is_present, is_huge, table_of, table_index, entry_address, with_user, user_page,
}
use package.avaria.Mm.Paging.Access.{
  Upgraded, MoreRights, MoreRights-refl, MoreRights-trans, MoreRights-update, MoreRights-at,
  with_user-Upgraded, user_page-Upgraded, bit_or_one, bit_or_two, without_top,
}
use package.avaria.Mm.Paging.Walk.{PageSize, Found, small, in_page_table}

-- What an entry permits: user code; user code that writes and runs.
unfoldable pub IsUser : ℕ → Type 0
IsUser entry = entry / 2 ^ 2 % 2 ≡ 1

unfoldable pub UserRuns : ℕ → Type 0
UserRuns entry = (entry / 2 ^ 2 % 2 ≡ 1) × (entry / 2 ^ 1 % 2 ≡ 1) × (entry / 2 ^ 63 % 2 ≡ 0)

-- Every entry of a list is for user code.
unfoldable pub AllUser : Memory → List ℕ → Type 0
AllUser m [] = Unit
AllUser m (at ∷ ats) = IsUser (m at) × AllUser m ats

pub IsUser-Upgraded : {x y : ℕ} → Upgraded x y → IsUser x → IsUser y
unfolding IsUser
IsUser-Upgraded {x} {y} u h = omega (arith, u.user)

pub UserRuns-Upgraded : {x y : ℕ} → Upgraded x y → UserRuns x → UserRuns y
unfolding UserRuns
UserRuns-Upgraded {x} {y} u (s, w, e) =
    (omega (arith, u.user), omega (arith, u.writable), omega (arith, u.runs))

pub AllUser-MoreRights :
    (m m' : Memory) (ats : List ℕ) → MoreRights m m' → AllUser m ats → AllUser m' ats
unfolding AllUser
AllUser-MoreRights m m' [] more all = tt
AllUser-MoreRights m m' (at ∷ ats) more (h, all) =
    (IsUser-Upgraded (MoreRights-at m m' more at) h, AllUser-MoreRights m m' ats more all)

pub IsUser-with_user : (x : ℕ) → IsUser (with_user x)
unfolding IsUser
IsUser-with_user x = rw (bit_or_two x) (omega arith)

pub UserRuns-user_page : (x : ℕ) → UserRuns (user_page x)
unfolding UserRuns
UserRuns-user_page x =
    rw (without_top (bit_or (with_user x) (2 ^ 1)), bit_or_one (with_user x), bit_or_two x)
      (omega arith, omega arith, omega arith)

opened-Upgraded : (x : ℕ) → Upgraded (with_user x) (user_page x)
opened-Upgraded x =
    rw (without_top (bit_or (with_user x) (2 ^ 1)), bit_or_one (with_user x), bit_or_two x)
      (record {
        present = omega arith;
        address = omega arith;
        writable = omega arith;
        user = omega arith;
        runs = omega arith;
      })

module _ (hhdm : ℕ) where
  -- The rounds of `make_user_accessible` by levels of the tables, from the last to the first.
  abbrev pub at_table : Memory → ℕ → ℕ → Memory
  at_table m t addr =
      let at = entry_address hhdm t (table_index 12 addr) in
      if is_present (m at) then update m at (user_page (m at)) else m

  -- What is found is open to user code, with every entry above it.
  abbrev pub Opens : Memory → Found → Type 0
  Opens m f = UserRuns (m f.leaf) × AllUser m f.above

  -- An entry that is marked before the rest of a walk is marked after it.
  marked :
      (m m' : Memory) (at v : ℕ) (above : List ℕ)
      → MoreRights m m'
      → Upgraded (m' at) v
      → UserRuns v
      → AllUser m above
      → UserRuns (update m' at v at) × AllUser (update m' at v) above
  marked m m' at v above more up runs all = (
    rw (==_self at) runs,
    AllUser-MoreRights m (update m' at v) above
        (MoreRights-trans m m' (update m' at v) more (MoreRights-update m' at v up)) all,
  )

  pub table-adds : (m : Memory) (t addr : ℕ) → MoreRights m (at_table m t addr)
  table-adds m t addr =
      let at = entry_address hhdm t (table_index 12 addr) in
      elim (Bool-cases (is_present (m at))) [
        | inl e ↦ rw e (MoreRights-update m at (user_page (m at)) (user_page-Upgraded (m at)))
        | inr e ↦ rw e (MoreRights-refl m)
      ]

  pub table-Opens :
      (m : Memory) (t addr : ℕ) (above : List ℕ) (f : Found)
      → AllUser m above
      → in_page_table hhdm m t above addr ≡ some f
      → Opens (at_table m t addr) f
  unfolding in_page_table
  table-Opens m t addr above f all found =
      let at = entry_address hhdm t (table_index 12 addr) in
      elim (Bool-cases (is_present (m at))) [
        | inl e ↦
            let got : ◌≡◌ {A = Option Found}
                (some (record { leaf = at; size = small; above = above })) (some f) =
              (rw e at found) in
            let is : ◌≡◌ {A = Found} (record { leaf = at; size = small; above = above }) f = cc in
            rw e (
              subst
                (λ g.
                  UserRuns (update m at (user_page (m at)) g.leaf)
                  × AllUser (update m at (user_page (m at))) g.above)
                is
                (marked m m at (user_page (m at)) above (MoreRights-refl m)
                  (user_page-Upgraded (m at)) (UserRuns-user_page (m at)) all))
        | inr e ↦
            let none_found : ◌≡◌ {A = Option Found} none (some f) = (rw e at found) in absurd (cc)
      ]

  -- A level whose entries map memory themselves or lead to the next level, `next`, in which the processor
  -- looks by `look`.
  module _ (shift : ℕ) (size : PageSize) (next : Memory → ℕ → ℕ → Memory)
      (look : Memory → ℕ → List ℕ → ℕ → Option Found)
      (adds : (m : Memory) (t addr : ℕ) → MoreRights m (next m t addr))
      (opens : (m : Memory) (t addr : ℕ) (above : List ℕ) (f : Found)
        → AllUser m above
        → look m t above addr ≡ some f
        → Opens (next m t addr) f)
      (same : (m m' : Memory) (t addr : ℕ) (above : List ℕ)
        → MoreRights m m'
        → look m' t above addr ≡ look m t above addr) where
    abbrev pub level : Memory → ℕ → ℕ → Memory
    level m t addr =
        let at = entry_address hhdm t (table_index shift addr) in
        let m' = update m at (with_user (m at)) in
        if not (is_present (m at))
        then m
        else if is_huge (m at)
        then update m' at (user_page (m at))
        else next m' (table_of (m at)) addr

    abbrev pub look_level : Memory → ℕ → List ℕ → ℕ → Option Found
    look_level m t above addr =
        let at = entry_address hhdm t (table_index shift addr) in
        if not (is_present (m at))
        then none
        else if is_huge (m at)
        then some (record { leaf = at; size = size; above = above })
        else look m (table_of (m at)) (at ∷ above) addr

    module _ (m : Memory) (t addr : ℕ) where
      abbrev pub here : ℕ
      here = entry_address hhdm t (table_index shift addr)

      abbrev pub with_here : Memory
      with_here = update m here (with_user (m here))

      more_here : MoreRights m with_here
      more_here = MoreRights-update m here (with_user (m here)) (with_user-Upgraded (m here))

      page_here : Upgraded (with_here here) (user_page (m here))
      page_here = rw (==_self here) (opened-Upgraded (m here))

      pub level-adds : MoreRights m (level m t addr)
      level-adds = elim (Bool-cases (is_present (m here))) [
        | inr e ↦ rw e (MoreRights-refl m)
        | inl e ↦ rw e (elim (Bool-cases (is_huge (m here))) [
          | inl h ↦ rw h (
              MoreRights-trans m with_here (update with_here here (user_page (m here))) more_here
                (MoreRights-update with_here here (user_page (m here)) page_here))
          | inr h ↦ rw h (
              MoreRights-trans m with_here (next with_here (table_of (m here)) addr) more_here
                (adds with_here (table_of (m here)) addr))
        ])
      ]

      pub level-Opens :
          (above : List ℕ) (f : Found)
          → AllUser m above
          → look_level m t above addr ≡ some f
          → Opens (level m t addr) f
      unfolding AllUser
      level-Opens above f all found = elim (Bool-cases (is_present (m here))) [
        | inr e ↦
            let none_found : ◌≡◌ {A = Option Found} none (some f) = (rw e at found) in absurd (cc)
        | inl e ↦ elim (Bool-cases (is_huge (m here))) [
          | inl h ↦
              let huge : Found = record { leaf = here; size = size; above = above } in
              let got : ◌≡◌ {A = Option Found} (some huge) (some f) = (rw (e, h) at found) in
              let is : huge ≡ f = cc in
              rw (e, h)
                (subst (λ g. Opens (update with_here here (user_page (m here))) g) is
                  (marked m with_here here (user_page (m here)) above more_here page_here
                    (UserRuns-user_page (m here)) all))
          | inr h ↦
              let deeper : look m (table_of (m here)) (here ∷ above) addr ≡ some f =
                (rw (e, h) at found) in
              rw (e, h)
                (opens with_here (table_of (m here)) addr (here ∷ above) f
                  (
                    rw (==_self here) (IsUser-with_user (m here)),
                    AllUser-MoreRights m with_here above more_here all,
                  )
                  (same m with_here (table_of (m here)) addr (here ∷ above) more_here ∙ deeper))
        ]
      ]
