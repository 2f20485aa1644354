-- ===== src/Mm/Paging/Tests.antt =====
-- Runs of the page-table walks, and the theorem on one.
use package.avaria.Prelude.{◌+◌, ◌^◌, ◌≡◌, refl, arith, update}
use package.avaria.Mm.Heap.{new_heap}
use package.avaria.Mm.Paging.Walk.{Found, walk, in_pointers, giant}
use package.avaria.Mm.Mmio.{map_mmio}
use package.avaria.Mm.Mmio.Kept.{page_address, map_mmio-kept}
use package.avaria.Prelude.{ℕ, zero, suc, ◌<◌, some, [], ◌∷◌}
use package.avaria.Mm.Paging.{page_floor, Memory, make_executable, make_user_accessible}
use package.avaria.Mm.Paging.Rights.{Opened, make_executable-Opened}
use package.avaria.Mm.Paging.User.{OpenedToUser, make_user_accessible-OpenedToUser}

-- Four tables from 0x1000 on: one page of 4 KiB at 0x5000 and one of 2 MiB at 0x200000.
abbrev tables : Memory
tables =
    update
      (update (update (update (update (λ a. 0) 0x1000 0x2003) 0x2000 0x3003) 0x3000 0x4003) 0x4028
        (2 ^ 63 + 0x9001))
      0x3008 (2 ^ 63 + 0x200081)

make_executable-Opened_example :
    Opened 0 0x1000 0x5F00 0x80 tables (make_executable 0 0x1000 0x5F00 0x80 tables)
make_executable-Opened_example = make_executable-Opened 0 0x1000 0x5F00 0x80 tables (omega arith)

make_user_accessible-OpenedToUser_example :
    OpenedToUser 0 0x1000 0x5F00 0x80 tables (make_user_accessible 0 0x1000 0x5F00 0x80 tables)
make_user_accessible-OpenedToUser_example =
    make_user_accessible-OpenedToUser 0 0x1000 0x5F00 0x80 tables (omega arith)

opened_page : make_executable 0 0x1018 0x5F00 0x80 tables 0x4028 ≡ 0x9003
unfolding make_executable
opened_page = refl

user_page_leaf : make_user_accessible 0 0x1000 0x5F00 0x80 tables 0x4028 ≡ 0x9007
unfolding make_user_accessible
user_page_leaf = refl

user_directory : make_user_accessible 0 0x1000 0x5F00 0x80 tables 0x3000 ≡ 0x4007
unfolding make_user_accessible
user_directory = refl

-- The first GiB in one page.
abbrev giant_page : Memory
giant_page = update (update (λ a. 0) 0x1000 0x2003) 0x2000 0x83

two_pages :
    (i : ℕ)
    → i < 2
    → (f : Found) × (walk 0 giant_page (page_floor 0x1000) (page_address 0 0x100000 i) ≡ some f)
unfolding walk in_pointers
two_pages zero h = (record { leaf = 0x2000; size = giant; above = 0x1000 ∷ [] }, refl)
two_pages (suc zero) h = (record { leaf = 0x2000; size = giant; above = 0x1000 ∷ [] }, refl)
two_pages (suc (suc i)) h = absurd (omega arith)

map_mmio-kept_example :
    map_mmio 0x1000 new_heap giant_page 0x100000 2 ≡ (0x100000, new_heap, giant_page)
map_mmio-kept_example = map_mmio-kept 0x1000 new_heap giant_page 0x100000 2 two_pages
