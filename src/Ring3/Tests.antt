-- ===== src/Ring3/Tests.antt =====
-- A user program without memory for its stack.
use package.avaria.Prelude.{◌≡◌, refl, none}
use package.avaria.Mm.Heap.{new_heap}
use package.avaria.Ring3.{enter_ring3}

no_stack : (enter_ring3 0 0x1000 0x400000 new_heap (λ a. 0)).2 ≡ none
unfolding enter_ring3
no_stack = refl
