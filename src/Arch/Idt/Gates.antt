-- ===== src/Arch/Idt/Gates.antt =====
-- The gates that `init` and `set_gate_dpl` make, as the processor reads them.
use package.avaria.Prelude.{
  ℕ, zero, suc, ◌+◌, ◌*◌, ◌^◌, ◌<◌, ◌≤◌, ◌≡◌, ◌≢◌, refl, sym, ap, ◌∙◌, arith,
}
use package.avaria.Prelude.{
  List, [], ◌∷◌, get_or, set, length, length-set, get_or-set_self, get_or-set_ne,
}
use mathlib.Core.Path.{subst}
use package.avaria.Arch.Idt.{IdtEntry, Idt, empty_gate, gate, set_handler, set_handlers, init}

-- The address that a gate leads to.
abbrev pub gate_address : IdtEntry → ℕ
gate_address e = e.offset_low + 2 ^ 16 * e.offset_mid + 2 ^ 32 * e.offset_high

-- A gate for the kernel's code that leads to an address, open to the kernel alone.
pub record LeadsTo (address : ℕ) (e : IdtEntry) : Type 0 where
  pub leads : gate_address e ≡ address
  pub code : e.selector ≡ 8
  pub kind : e.type_attr ≡ 0x8E
  pub stack : e.ist ≡ 0

set_handler-LeadsTo :
    (e : IdtEntry) (handler : ℕ) → handler < 2 ^ 64 → LeadsTo handler (set_handler e handler)
unfolding set_handler
set_handler-LeadsTo e handler h = record {
  leads = omega arith;
  code = refl;
  kind = refl;
  stack = refl;
}

length-set_handlers :
    (idt : Idt) (i : ℕ) (hs : List ℕ) → length (set_handlers idt i hs) ≡ length idt
unfolding set_handlers
length-set_handlers idt i [] = refl
length-set_handlers idt i (h ∷ hs) =
    length-set_handlers (set idt i (set_handler (gate idt i) h)) (i + 1) hs ∙ length-set idt i _

set_handlers_before :
    (idt : Idt) (i : ℕ) (hs : List ℕ) (v : ℕ) → v < i → gate (set_handlers idt i hs) v ≡ gate idt v
unfolding set_handlers
set_handlers_before idt i [] v lt = refl
set_handlers_before idt i (h ∷ hs) v lt =
    set_handlers_before (set idt i (set_handler (gate idt i) h)) (i + 1) hs v (omega arith)
    ∙ get_or-set_ne idt _ empty_gate (λ e. omega arith)

set_handlers_after :
    (idt : Idt) (i : ℕ) (hs : List ℕ) (v : ℕ)
    → i + length hs ≤ v
    → gate (set_handlers idt i hs) v ≡ gate idt v
unfolding set_handlers
set_handlers_after idt i [] v le = refl
set_handlers_after idt i (h ∷ hs) v le =
    set_handlers_after (set idt i (set_handler (gate idt i) h)) (i + 1) hs v (omega arith)
    ∙ get_or-set_ne idt _ empty_gate (λ e. omega arith)

set_handlers_at :
    (idt : Idt) (i : ℕ) (hs : List ℕ) (k : ℕ)
    → k < length hs
    → i + length hs ≤ length idt
    → get_or hs k 0 < 2 ^ 64
    → LeadsTo (get_or hs k 0) (gate (set_handlers idt i hs) (i + k))
unfolding set_handlers
set_handlers_at idt i [] k lt le fits = absurd (omega arith)
set_handlers_at idt i (h ∷ hs) zero lt le fits =
    let e : i + 0 ≡ i = omega arith in
    let idt' = set idt i (set_handler (gate idt i) h) in
    let same : gate (set_handlers idt' (i + 1) hs) (i + 0) ≡ set_handler (gate idt i) h =
      ap (gate (set_handlers idt' (i + 1) hs)) e
      ∙ (set_handlers_before idt' (i + 1) hs i (omega arith)
          ∙ get_or-set_self idt i (set_handler (gate idt i) h) empty_gate (omega arith)) in
    subst (λ g. LeadsTo h g) (sym same) (set_handler-LeadsTo (gate idt i) h fits)
set_handlers_at idt i (h ∷ hs) (suc k) lt le fits =
    let idt' = set idt i (set_handler (gate idt i) h) in
    let e : i + 1 + k ≡ i + suc k = omega arith in
    subst (λ v. LeadsTo (get_or hs k 0) (gate (set_handlers idt' (i + 1) hs) v)) e
      (set_handlers_at idt' (i + 1) hs k (omega arith)
        (omega (arith, length-set idt i (set_handler (gate idt i) h))) fits)

pub length-init :
    (idt : Idt) (handlers : List ℕ) (isr128 : ℕ) → length (init idt handlers isr128) ≡ length idt
unfolding init
length-init idt handlers isr128 =
    length-set (set_handlers idt 0 handlers) 0x80 _ ∙ length-set_handlers idt 0 handlers

-- On a table of 256 gates, with 48 stubs and the last one at addresses that fit 64 bits: after `init`
-- the gate of each of the 48 vectors, and that of vector 0x80, leads to its own stub in the kernel's
-- code and is open to the kernel alone; every other gate is as it was.
pub init-Gates :
    (idt : Idt) (handlers : List ℕ) (isr128 : ℕ)
    → length idt ≡ 256
    → length handlers ≡ 48
    → ((k : ℕ) → k < 48 → get_or handlers k 0 < 2 ^ 64)
    → isr128 < 2 ^ 64
    → ((v : ℕ) → v < 48 → LeadsTo (get_or handlers v 0) (gate (init idt handlers isr128) v))
      × LeadsTo isr128 (gate (init idt handlers isr128) 0x80)
      × ((v : ℕ) → 48 ≤ v → v ≢ 0x80 → gate (init idt handlers isr128) v ≡ gate idt v)
unfolding init
init-Gates idt handlers isr128 size count fits last =
    let idt' = set_handlers idt 0 handlers in
    let g = set_handler (gate idt' 0x80) isr128 in
    let size' = length-set_handlers idt 0 handlers in
    let others : (v : ℕ) → v ≢ 0x80 → gate (set idt' 0x80 g) v ≡ gate idt' v =
      λ v ne. get_or-set_ne idt' g empty_gate (λ e. ne (sym e)) in
    (
      λ v lt.
          subst (λ e. LeadsTo (get_or handlers v 0) e) (sym (others v (λ e. omega arith)))
            (subst (λ t. LeadsTo (get_or handlers v 0) (gate idt' t))
              (let e : 0 + v ≡ v = omega arith in e)
              (set_handlers_at idt 0 handlers v (omega arith) (omega arith) (fits v lt))),
      subst (λ e. LeadsTo isr128 e)
          (sym (get_or-set_self idt' 0x80 g empty_gate (omega (arith, size'))))
          (set_handler-LeadsTo (gate idt' 0x80) isr128 last),
      λ v le ne. others v ne ∙ set_handlers_after idt 0 handlers v (omega arith),
    )
