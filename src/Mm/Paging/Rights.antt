-- ===== src/Mm/Paging/Rights.antt =====
-- `make_executable` against the processor's walk of the page tables.
use package.avaria.Prelude.{ℕ, ◌+◌, ◌-◌, ◌/◌, ◌%◌, ◌^◌, ◌≤◌, ◌<◌}
use package.avaria.Prelude.{
  ◌≡◌, refl, sym, ◌∙◌, ◌≢◌, arith, inl, inr, ≢→==, ==_self, some, Option-cases, and_not, List, [],
  ◌∷◌,
}
use package.avaria.Mm.Paging.{
  Memory, page_floor, executable, make_page_executable, make_executable, over_range,
}
use package.avaria.Mm.Paging.Access.{
  Upgraded, MoreRights, MoreRights-refl, MoreRights-update, executable-Upgraded, bit_or_one,
  without_top, MoreRights-at,
}
use package.avaria.Mm.Paging.Walk.{
  Found, walk, physical, walk-MoreRights, walk_page, make_page_executable-walk, frame-Upgraded,
}
use package.avaria.Mm.Paging.Range.{over_range-MoreRights, over_range-other, over_range-all}

-- What the entry that maps an address permits.
unfoldable pub Runs : ℕ → Type 0
Runs entry = (entry / 2 ^ 1 % 2 ≡ 1) × (entry / 2 ^ 63 % 2 ≡ 0)

-- The same of all entries above it.
pub AllRun : Memory → List ℕ → Type 0
AllRun m [] = Unit
AllRun m (e ∷ es) = Runs (m e) × AllRun m es

Runs-Upgraded : {x y : ℕ} → Upgraded x y → Runs x → Runs y
unfolding Runs
Runs-Upgraded {x} {y} u (w, e) = (omega (arith, u.writable), omega (arith, u.runs))

Runs-executable : (x : ℕ) → Runs (executable x)
unfolding Runs
Runs-executable x = rw (bit_or_one (and_not x (2 ^ 63)), without_top x) (omega arith)

AllRun-MoreRights :
    (m m' : Memory) (above : List ℕ) → MoreRights m m' → AllRun m above → AllRun m' above
unfolding AllRun MoreRights
AllRun-MoreRights m m' [] more all = all
AllRun-MoreRights m m' (e ∷ es) more (r, rest) =
    (Runs-Upgraded (more e) r, AllRun-MoreRights m m' es more rest)

-- The entry that maps `a`, where there is one, permits running and writing.
unfoldable RunsAt : ℕ → ℕ → Memory → ℕ → Type 0
RunsAt hhdm top m a = (f : Found) → walk hhdm m top a ≡ some f → Runs (m f.leaf)

module _ (hhdm top : ℕ) where
  adds : (m : Memory) (a : ℕ) → MoreRights m (make_page_executable hhdm top m a)
  adds m a = rw (make_page_executable-walk hhdm top m a) (elim (Option-cases (walk hhdm m top a)) [
    | inl e ↦ rw e (MoreRights-refl m)
    | inr (f, e) ↦
        rw e (MoreRights-update m f.leaf (executable (m f.leaf)) (executable-Upgraded (m f.leaf)))
  ])

  opens : (m : Memory) (a : ℕ) → RunsAt hhdm top (make_page_executable hhdm top m a) a
  unfolding RunsAt
  opens m a f found =
      let before : walk hhdm m top a ≡ some f =
        sym (walk-MoreRights hhdm m (make_page_executable hhdm top m a) (adds m a) a top) ∙ found in
      rw (make_page_executable-walk hhdm top m a, before, ==_self f.leaf)
        (Runs-executable (m f.leaf))

  stays : (m m' : Memory) (a : ℕ) → MoreRights m m' → RunsAt hhdm top m a → RunsAt hhdm top m' a
  unfolding RunsAt MoreRights
  stays m m' a more runs f found =
      Runs-Upgraded (more f.leaf) (runs f (sym (walk-MoreRights hhdm m m' more a top) ∙ found))

  other_word :
      (m : Memory) (a word : ℕ)
      → ((f : Found) → walk hhdm m top a ≡ some f → f.leaf ≢ word)
      → make_page_executable hhdm top m a word ≡ m word
  other_word m a word ne =
      rw (make_page_executable-walk hhdm top m a) (elim (Option-cases (walk hhdm m top a)) [
        | inl e ↦ rw e refl
        | inr (f, e) ↦ rw (e, ≢→== f.leaf word (ne f e)) refl
      ])

  opened_page :
      (vaddr size : ℕ) (m : Memory) (a : ℕ) (f : Found)
      → vaddr + size + 4095 < 2 ^ 64
      → vaddr ≤ a
      → a < vaddr + size
      → walk hhdm (over_range (make_page_executable hhdm top) vaddr size m) top a ≡ some f
      → Runs (over_range (make_page_executable hhdm top) vaddr size m f.leaf)
  unfolding RunsAt
  opened_page vaddr size m a f h lo hi found =
      over_range-all (make_page_executable hhdm top) adds (RunsAt hhdm top) opens stays vaddr size m
        a h lo hi f (walk_page hhdm top _ a ∙ found)

-- What `make_executable` leaves and brings about.
pub record Opened (hhdm top vaddr size : ℕ) (m m' : Memory) : Type 0 where
  pub same_walk : (a : ℕ) → walk hhdm m' top a ≡ walk hhdm m top a
  pub same_address : (a : ℕ) (f : Found) → physical m' a f ≡ physical m a f
  pub opened :
      (a : ℕ) (f : Found)
      → vaddr ≤ a
      → a < vaddr + size
      → walk hhdm m top a ≡ some f
      → Runs (m' f.leaf)
  pub reached :
      (a : ℕ) (f : Found)
      → vaddr ≤ a
      → a < vaddr + size
      → walk hhdm m top a ≡ some f
      → AllRun m f.above
      → Runs (m' f.leaf) × AllRun m' f.above
  pub others :
      (word : ℕ)
      → ((a : ℕ) (f : Found)
          → vaddr - vaddr % 4096 ≤ a
          → a < vaddr + size + 4095
          → walk hhdm m top a ≡ some f
          → f.leaf ≢ word)
      → m' word ≡ m word

-- For a range that ends at least 4095 bytes before the end of the address space,
-- `make_executable` changes neither the entries that the processor's walk passes through for any
-- address nor the physical address that any entry gives; the entry that maps a mapped address of the
-- range ends up permitting to write and to run; where the entries above it permitted both, all entries
-- of the walk do afterwards; and no word of memory changes but the entries that map the pages of the
-- range.
pub make_executable-Opened :
    (hhdm cr3 vaddr size : ℕ) (m : Memory)
    → vaddr + size + 4095 < 2 ^ 64
    → Opened hhdm (page_floor cr3) vaddr size m (make_executable hhdm cr3 vaddr size m)
unfolding make_executable
make_executable-Opened hhdm cr3 vaddr size m h =
    let top = page_floor cr3 in
    let m' = over_range (make_page_executable hhdm top) vaddr size m in
    let more = over_range-MoreRights (make_page_executable hhdm top) (adds hhdm top) vaddr size m in
    record {
      same_walk = λ a. walk-MoreRights hhdm m m' more a top;
      same_address = λ a f. frame-Upgraded (MoreRights-at m m' more f.leaf) f.size a;
      opened = λ a f lo hi found.
          opened_page hhdm top vaddr size m a f h lo hi
            (walk-MoreRights hhdm m m' more a top ∙ found);
      reached = λ a f lo hi found all. (
        opened_page hhdm top vaddr size m a f h lo hi
            (walk-MoreRights hhdm m m' more a top ∙ found),
        AllRun-MoreRights m m' f.above more all,
      );
      others = λ word ne.
          over_range-other (make_page_executable hhdm top) (adds hhdm top) vaddr size m word h
            λ m1 a q lo hi.
              other_word hhdm top m1 a word
                λ f found. ne a f lo hi (sym (walk-MoreRights hhdm m m1 q a top) ∙ found);
    }

-- The same for any range: rights are added, and nothing else is changed.
pub make_executable-MoreRights :
    (hhdm cr3 vaddr size : ℕ) (m : Memory) → MoreRights m (make_executable hhdm cr3 vaddr size m)
unfolding make_executable
make_executable-MoreRights hhdm cr3 vaddr size m =
    let top = page_floor cr3 in
    over_range-MoreRights (make_page_executable hhdm top) (adds hhdm top) vaddr size m
