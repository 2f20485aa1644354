-- ===== src/Ring3.antt =====
-- `enter_ring3` of `src/kern/drv/ring3/mod.rs`: the stack of a user program, and the frame through which
-- the processor enters it. The data segment registers are left out.
mod Tests
use package.avaria.Prelude.{
  ℕ, ◌+◌, ◌-◌, ◌%◌, ◌^◌, ◌<◌, ◌≡◌, refl, arith, inl, inr, ◌==◌, Bool-cases, if◌then◌else◌, Option,
  none, some, add_w,
}
use package.avaria.Mm.Heap
use package.avaria.Mm.Heap.{Heap}
use package.avaria.Mm.Paging.{Memory, make_user_accessible, page_floor}
use package.avaria.Mm.Paging.User.{OpenedToUser, make_user_accessible-OpenedToUser}
use package.avaria.Arch.Idt.Stubs.{InterruptFrame}

abbrev pub user_stack_size : ℕ
user_stack_size = 0x4000

abbrev pub user_cs : ℕ
user_cs = 0x23

abbrev pub user_ds : ℕ
user_ds = 0x1B

-- The heap, the memory, and the frame that `iretq` takes, if there is a stack.
unfoldable pub enter_ring3 : ℕ → ℕ → ℕ → Heap → Memory → Heap × Memory × Option InterruptFrame
unfolding Heap.kmalloc make_user_accessible
enter_ring3 hhdm cr3 entry h m =
    let (h', user_stack_ptr) = Heap.kmalloc h user_stack_size in
    if user_stack_ptr == 0 then (h', m, none) else (
      h',
      make_user_accessible hhdm cr3 user_stack_ptr user_stack_size m,
      some (record {
        rip = entry;
        cs = user_cs;
        rflags = 0x202;
        rsp = add_w 64 user_stack_ptr user_stack_size;
        ss = user_ds;
      }),
    )

-- Without a stack memory stays as it is; or the program starts at its entry in ring 3, at the end of a
-- stack that is open to it.
data Entered (hhdm top entry : ℕ) (m : Memory) (r : Heap × Memory × Option InterruptFrame)
    : Type 0 where
  refused : r.2 ≡ none → r.1 ≡ m → Entered hhdm top entry m r
  entered :
      (f : InterruptFrame)
      → r.2 ≡ some f
      → f.rip ≡ entry
      → f.cs % 4 ≡ 3
      → f.ss % 4 ≡ 3
      → OpenedToUser hhdm top (f.rsp - user_stack_size) user_stack_size m r.1
      → Entered hhdm top entry m r

-- Where the block for the stack ends at least 4095 bytes before the end of the address space:
-- `enter_ring3` either gives up, with memory as it was, or enters ring 3 at `entry`, with a stack all of
-- whose mapped pages are open to user code.
enter_ring3-Entered :
    (hhdm cr3 entry : ℕ) (h : Heap) (m : Memory)
    → (Heap.kmalloc h user_stack_size).1 + user_stack_size + 4095 < 2 ^ 64
    → Entered hhdm (page_floor cr3) entry m (enter_ring3 hhdm cr3 entry h m)
unfolding enter_ring3
enter_ring3-Entered hhdm cr3 entry h m room =
    let ptr = (Heap.kmalloc h user_stack_size).1 in
    elim (Bool-cases (ptr == 0)) [
      | inl e ↦ rw e (refused refl refl)
      | inr e ↦
          let base : add_w 64 ptr user_stack_size - user_stack_size ≡ ptr = omega (arith, room) in
          rw e (
            entered _ refl refl refl refl
              (rw base (make_user_accessible-OpenedToUser hhdm cr3 ptr user_stack_size m room)))
    ]
