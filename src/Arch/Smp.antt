-- ===== src/Arch/Smp.antt =====
-- `src/kern/arch/x86_64/smp.rs`: the start of the other processors, as a step relation: the boot
-- processor in `init` and every other in `ap_entry`, a shared access at a time. An atomic is one
-- number for all processors.
pub mod Counts
pub mod Invariant
pub mod Progress
pub mod Ready
pub mod Woken
mod Tests
use package.avaria.Prelude.{
  ℕ, zero, suc, ◌+◌, ◌-◌, ◌%◌, ◌^◌, ◌≤◌, ◌<◌, ◌≡◌, ◌≢◌, Bool, true, false, if◌then◌else◌,
}
use package.avaria.Prelude.{
  Option, some, List, [], ◌∷◌, length, get_elem?, get_or, set, update, replicate,
}

abbrev pub max_cpus : ℕ
max_cpus = 64

-- The static variables.
pub record Smp : Type 0 where
  pub count : ℕ
  pub bsp_lapic_id : ℕ
  pub aps_ready : ℕ
  pub all_go : Bool
  pub online : List Bool

abbrev pub off : Smp
off = record {
  count = 1;
  bsp_lapic_id = 0;
  aps_ready = 0;
  all_go = false;
  online = replicate max_cpus false;
}

abbrev pub mark_online : Smp → ℕ → Smp
mark_online s lapic_id = record s { online = set s.online (lapic_id % max_cpus) true }

-- What `init` stores before it wakes anyone; `n` is the number of processors.
abbrev pub start : Smp → ℕ → ℕ → Smp
start s bsp n = mark_online (record s { bsp_lapic_id = bsp; count = n % 2 ^ 32 }) bsp

pub cpu_count : Smp → ℕ
cpu_count s = s.count

pub bsp_id : Smp → ℕ
bsp_id s = s.bsp_lapic_id

abbrev pub is_online : Smp → ℕ → Bool
is_online s lapic_id = get_or s.online (lapic_id % max_cpus) false

count_true : List Bool → ℕ
count_true [] = 0
count_true (b ∷ bs) = (if b then 1 else 0) + count_true bs

unfoldable pub online_count : Smp → ℕ
unfolding count_true
online_count s = count_true s.online

-- Where the boot processor stands in `init`: before it, at an index of the loop that wakes the others,
-- in the loop that waits for them, after it.
pub data Boot : Type 0 where
  before : Boot
  waking : ℕ → Boot
  waiting : Boot
  after : Boot

-- Where another processor stands: not woken, at the start of `ap_entry`, after its slot is set, in the
-- loop that waits for `ALL_GO`, halted.
pub data Ap : Type 0 where
  parked entered marked counted halted : Ap

pub record System : Type 0 where
  pub smp : Smp
  pub boot : Boot
  pub ap : ℕ → Ap

abbrev pub reset : System
reset = record { smp = off; boot = before; ap = λ _. parked }

-- One step, by a boot processor with the id `bsp` or by processor `i` of the list of ids `cpus`.
-- `cpus.len() as u32 - 1` wraps.
pub data Step (bsp : ℕ) (cpus : List ℕ) (s : System) : System → Type 0 where
  begin :
      s.boot ≡ before
      → Step bsp cpus s (record s { smp = start s.smp bsp (length cpus); boot = waking 0 })
  wake :
      (i id : ℕ)
      → s.boot ≡ waking i
      → get_elem? cpus i ≡ some id
      → id ≢ bsp
      → Step bsp cpus s (record s { boot = waking (i + 1); ap = update s.ap i entered })
  skip :
      (i : ℕ)
      → s.boot ≡ waking i
      → get_elem? cpus i ≡ some bsp
      → Step bsp cpus s (record s { boot = waking (i + 1) })
  woken :
      (i : ℕ) → s.boot ≡ waking i → length cpus ≤ i → Step bsp cpus s (record s { boot = waiting })
  wait :
      s.boot ≡ waiting
      → s.smp.aps_ready < (length cpus % 2 ^ 32 + 2 ^ 32 - 1) % 2 ^ 32
      → Step bsp cpus s s
  go :
      s.boot ≡ waiting
      → (length cpus % 2 ^ 32 + 2 ^ 32 - 1) % 2 ^ 32 ≤ s.smp.aps_ready
      → Step bsp cpus s (record s { smp = record s.smp { all_go = true }; boot = after })
  mark :
      (i id : ℕ)
      → s.ap i ≡ entered
      → get_elem? cpus i ≡ some id
      → Step bsp cpus s (record s { smp = mark_online s.smp id; ap = update s.ap i marked })
  count_in :
      (i : ℕ)
      → s.ap i ≡ marked
      → Step bsp cpus s (record s {
        smp = record s.smp { aps_ready = (s.smp.aps_ready + 1) % 2 ^ 32 };
        ap = update s.ap i counted;
      })
  spin : (i : ℕ) → s.ap i ≡ counted → s.smp.all_go ≡ false → Step bsp cpus s s
  halt :
      (i : ℕ)
      → s.ap i ≡ counted
      → s.smp.all_go ≡ true
      → Step bsp cpus s (record s { ap = update s.ap i halted })

pub data Reach (bsp : ℕ) (cpus : List ℕ) : System → Type 0 where
  here : Reach bsp cpus reset
  next : {s t : System} → Reach bsp cpus s → Step bsp cpus s t → Reach bsp cpus t
