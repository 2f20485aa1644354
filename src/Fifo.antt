-- ===== src/Fifo.antt =====
-- A bounded queue, and the ring of slots that both the message channels of
-- `arch/x86_64/ipc.rs` and the key buffer of `drv/ps2/mod.rs` keep one in: `head` is the next slot
-- to write, `tail` the next to read, and one slot stays free.
use native.Mathlib.Nat.{mod-add-mod, mod-eq_of_lt, mod-eq-sub-mod, mod-lt, mod_self, add-mod_right}
use avaria.Prelude.{
  ℕ, zero, suc, ◌+◌, ◌-◌, ◌%◌, ◌≤◌, ◌<◌, ◌≡◌, refl, sym, ap, ◌∙◌, ◌≢◌, ◌⊎◌, inl, inr,
}
use avaria.Prelude.{
  Bool, true, false, if◌then◌else◌, ◌==◌, leb, Bool-cases, Option, none, some, arith,
}
use avaria.Prelude.{List, [], ◌∷◌, ◌++◌, length, get_or, set, get_or-set_self, get_or-set_ne}
use avaria.Prelude.{leb→le, leb→lt}

module _ {ℓ} {A : Type ℓ} where
  -- A queue that holds at most `cap - 1` items refuses one more.
  unfoldable pub push : ℕ → List A → A → Bool × List A
  push cap q x = if length q + 1 == cap then (false, q) else (true, q ++ (x ∷ []))

  unfoldable pub pop : List A → Option A × List A
  pop [] = (none, [])
  pop (x ∷ q) = (some x, q)

-- How many slots lie from `tail` up to `head`, going round at `cap`.
abbrev pub held : ℕ → ℕ → ℕ → ℕ
held cap head tail = (head + cap - tail) % cap

abbrev pub next : ℕ → ℕ → ℕ
next cap i = (i + 1) % cap

held_cases :
    (cap h t : ℕ)
    → h < cap
    → t < cap
    → ((t ≤ h) × (held cap h t ≡ h - t)) ⊎ ((h < t) × (held cap h t ≡ h + cap - t))
held_cases cap h t hh ht = elim (Bool-cases (leb t h)) [
  | inl e ↦
      let le : t ≤ h = ground arith in
      let up : h + cap - t ≡ h - t + cap = omega arith in
      inl (le, rw up (add-mod_right (h - t) cap ∙ mod-eq_of_lt (omega arith)))
  | inr e ↦ let lt : h < t = ground arith in inr (lt, mod-eq_of_lt (omega arith))
]

next_cases :
    (cap i : ℕ)
    → i < cap
    → ((i + 1 < cap) × (next cap i ≡ i + 1)) ⊎ ((i + 1 ≡ cap) × (next cap i ≡ 0))
next_cases cap i h = elim (Bool-cases (i + 1 == cap)) [
  | inl e ↦
      let last : i + 1 ≡ cap = ground arith in inr (last, ap (λ t. t % cap) last ∙ mod_self cap)
  | inr e ↦ let lt : i + 1 < cap = ground arith in inl (lt, mod-eq_of_lt lt)
]

module _ (cap h t : ℕ) (hh : h < cap) (ht : t < cap) where
  pub next-lt : next cap h < cap
  next-lt = mod-lt (h + 1) (omega arith)

  pub held-lt : held cap h t < cap
  held-lt = mod-lt (h + cap - t) (omega arith)

  pub held-zero : held cap h t ≡ 0 → h ≡ t
  held-zero e = omega (arith, held_cases cap h t hh ht)

  pub held_full : next cap h ≡ t → held cap h t + 1 ≡ cap
  held_full e = omega (arith, held_cases cap h t hh ht, next_cases cap h hh)

  pub held_not_full : next cap h ≢ t → held cap h t + 1 < cap
  held_not_full ne = omega (arith, held_cases cap h t hh ht, next_cases cap h hh)

  pub held-next_head : next cap h ≢ t → held cap (next cap h) t ≡ suc (held cap h t)
  held-next_head ne = omega (
    arith,
    held_cases cap h t hh ht,
    next_cases cap h hh,
    held_cases cap (next cap h) t next-lt ht,
  )

  pub held-next_tail : h ≢ t → held cap h t ≡ suc (held cap h (next cap t))
  held-next_tail ne = omega (
    arith,
    held_cases cap h t hh ht,
    next_cases cap t ht,
    held_cases cap h (next cap t) hh (mod-lt (t + 1) (omega arith)),
  )

  head_of_held : h ≡ (t + held cap h t) % cap
  head_of_held = elim (held_cases cap h t hh ht) [
    | inl (le, e) ↦ let s : t + held cap h t ≡ h = omega arith in rw s (sym (mod-eq_of_lt hh))
    | inr (lt, e) ↦
        let s : t + held cap h t ≡ h + cap = omega arith in
        rw s (sym (add-mod_right h cap ∙ mod-eq_of_lt hh))
  ]

module _ {ℓ} {A : Type ℓ} (d : A) (cap : ℕ) where
  -- The `n` items from slot `t` on.
  abbrev pub window : List A → ℕ → ℕ → List A
  window slots t zero = []
  window slots t (suc n) = get_or slots t d ∷ window slots (next cap t) n

  -- The queue that a ring stands for.
  abbrev pub contents : List A → ℕ → ℕ → List A
  contents slots head tail = window slots tail (held cap head tail)

  pub length-window : (slots : List A) (t n : ℕ) → length (window slots t n) ≡ n
  length-window slots t zero = refl
  length-window slots t (suc n) = ap suc (length-window slots (next cap t) n)

  slot-ne : {t k : ℕ} → t < cap → suc k < cap → (t + suc k) % cap ≢ t
  slot-ne {t} {k} ht hk = elim (Bool-cases (leb cap (t + suc k))) [
    | inl e ↦
        let le : cap ≤ t + suc k = leb→le cap (t + suc k) e in
        let once : (t + suc k) % cap ≡ t + suc k - cap =
          mod-eq-sub-mod le ∙ mod-eq_of_lt (omega arith) in
        omega (arith, once)
    | inr e ↦ let lt : t + suc k < cap = leb→lt cap (t + suc k) e in omega (arith, mod-eq_of_lt lt)
  ]

  -- A write just past the window adds its item at the end.
  window-set :
      (slots : List A) (x : A) (n t i : ℕ)
      → cap ≤ length slots
      → t < cap
      → n < cap
      → i ≡ (t + n) % cap
      → window (set slots i x) t (suc n) ≡ window slots t n ++ (x ∷ [])
  window-set slots x zero t i fits ht hn e =
      let here : i ≡ t = e ∙ (ap (λ k. k % cap) (omega arith) ∙ mod-eq_of_lt ht) in
      rw (here, get_or-set_self slots t x d (omega arith))
  window-set slots x (suc n) t i fits ht hn e =
      let shift : (t + suc n) % cap ≡ (next cap t + n) % cap =
        rw mod-add-mod (ap (λ k. k % cap) (omega arith)) in
      let rest =
        window-set slots x n (next cap t) i fits (mod-lt (t + 1) (omega arith)) (omega arith)
          (e ∙ shift) in
      rw (get_or-set_ne slots {i = i} {j = t} x d (rw e (slot-ne ht hn)), rest)

  module _ (slots : List A) (h t : ℕ) (fits : cap ≤ length slots) (hh : h < cap)
      (ht : t < cap) where
    pub length-contents : length (contents slots h t) ≡ held cap h t
    length-contents = length-window slots t (held cap h t)

    -- What a write at `head` and a step of `head` do, unless the ring is full.
    pub contents-push :
        (x : A)
        → next cap h ≢ t
        → contents (set slots h x) (next cap h) t ≡ contents slots h t ++ (x ∷ [])
    contents-push x ne = rw (held-next_head cap h t hh ht ne) (
        window-set slots x (held cap h t) t h fits ht (held-lt cap h t hh ht)
          (head_of_held cap h t hh ht))

    -- What a step of `tail` does, unless the ring is empty.
    pub contents-pop : h ≢ t → contents slots h t ≡ get_or slots t d ∷ contents slots h (next cap t)
    contents-pop ne = rw (held-next_tail cap h t hh ht ne)
