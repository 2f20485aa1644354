-- ===== src/Mm/Paging/Access.antt =====
-- What the walks write to an entry of a page table: rights are added, and what the entry maps stays.
use package.avaria.Prelude.{ℕ, ◌+◌, ◌-◌, ◌*◌, ◌/◌, ◌%◌, ◌^◌, ◌≤◌, bit_or}
use package.avaria.Prelude.{
  ◌≡◌, refl, sym, ap, ◌∙◌, arith, inl, inr, ◌==◌, Bool-cases, ==→≡, update, bit, bit_or_step,
  bit_and-two_pow, bit_and_low, bit_or-zero, bit-eq, bit_and-shifted, test_bit-eq-bit, and_not,
}
use package.avaria.Mm.Paging.{
  Memory, is_present, is_huge, table_of, executable, with_user, user_page,
}

-- The rights of an entry: bit 1, writable; bit 2, for user code; bit 63 unset, executable. `y` is `x`
-- with the rights that it had and perhaps more.
pub record Upgraded (x y : ℕ) : Type 0 where
  pub present : y % 2 ≡ x % 2
  pub address : y / 8 % 2 ^ 60 ≡ x / 8 % 2 ^ 60
  pub writable : x / 2 % 2 ≤ y / 2 % 2
  pub user : x / 4 % 2 ≤ y / 4 % 2
  pub runs : y / 2 ^ 63 % 2 ≤ x / 2 ^ 63 % 2

-- The memory `m'` is `m` with rights added to some entries.
unfoldable pub MoreRights : Memory → Memory → Type 0
MoreRights m m' = (a : ℕ) → Upgraded (m a) (m' a)

pub Upgraded-refl : (x : ℕ) → Upgraded x x
Upgraded-refl x = record {
  present = refl;
  address = refl;
  writable = omega arith;
  user = omega arith;
  runs = omega arith;
}

pub Upgraded-trans : {x y z : ℕ} → Upgraded x y → Upgraded y z → Upgraded x z
Upgraded-trans {x} {y} {z} u v = record {
  present = v.present ∙ u.present;
  address = v.address ∙ u.address;
  writable = omega (arith, u.writable, v.writable);
  user = omega (arith, u.user, v.user);
  runs = omega (arith, u.runs, v.runs);
}

pub MoreRights-at : (m m' : Memory) → MoreRights m m' → (a : ℕ) → Upgraded (m a) (m' a)
unfolding MoreRights
MoreRights-at m m' more = more

pub MoreRights-refl : (m : Memory) → MoreRights m m
unfolding MoreRights
MoreRights-refl m a = Upgraded-refl (m a)

pub MoreRights-trans : (m m' m'' : Memory) → MoreRights m m' → MoreRights m' m'' → MoreRights m m''
unfolding MoreRights
MoreRights-trans m m' m'' f g a = Upgraded-trans (f a) (g a)

pub MoreRights-update : (m : Memory) (i v : ℕ) → Upgraded (m i) v → MoreRights m (update m i v)
unfolding MoreRights
MoreRights-update m i v u a = elim (Bool-cases (i == a)) [
  | inl e ↦ rw (e, sym (==→≡ i a e)) u
  | inr e ↦ rw e (Upgraded-refl (m a))
]

-- The masks as arithmetic.
pub bit_or_one : (x : ℕ) → bit_or x (2 ^ 1) ≡ x + 2 - x / 2 % 2 * 2
bit_or_one x = omega (
  arith,
  bit_or_step x 2,
  bit_or_step (x / 2) 1,
  bit_or-zero (x / 2 / 2) (x / 2 / 2) (omega arith),
)

pub bit_or_two : (x : ℕ) → bit_or x (2 ^ 2) ≡ x + 4 - x / 4 % 2 * 4
bit_or_two x = omega (
  arith,
  bit_or_step x 4,
  bit_or_step (x / 2) 2,
  bit_or_step (x / 2 / 2) 1,
  bit_or-zero (x / 2 / 2 / 2) (x / 2 / 2 / 2) (omega arith),
)

pub without_top : (x : ℕ) → and_not x (2 ^ 63) ≡ x - x / 2 ^ 63 % 2 * 2 ^ 63
without_top x = ap (λ t. x - t) (bit_and-two_pow 63 x ∙ ap (λ t. t * 2 ^ 63) (bit-eq 63 x))

pub executable-Upgraded : (x : ℕ) → Upgraded x (executable x)
executable-Upgraded x =
    rw (bit_or_one (and_not x (2 ^ 63)), without_top x)
      (record {
        present = omega arith;
        address = omega arith;
        writable = omega arith;
        user = omega arith;
        runs = omega arith;
      })

pub with_user-Upgraded : (x : ℕ) → Upgraded x (with_user x)
with_user-Upgraded x = rw (bit_or_two x) (record {
  present = omega arith;
  address = omega arith;
  writable = omega arith;
  user = omega arith;
  runs = omega arith;
})

pub user_page-Upgraded : (x : ℕ) → Upgraded x (user_page x)
user_page-Upgraded x =
    rw (without_top (bit_or (with_user x) (2 ^ 1)), bit_or_one (with_user x), bit_or_two x)
      (record {
        present = omega arith;
        address = omega arith;
        writable = omega arith;
        user = omega arith;
        runs = omega arith;
      })

-- What a walk reads of an entry is the same after rights are added.
pub is_present-Upgraded : {x y : ℕ} → Upgraded x y → is_present y ≡ is_present x
is_present-Upgraded {x} {y} u =
    test_bit-eq-bit y 0 ∙ (ap (λ t. t == 1) u.present ∙ sym (test_bit-eq-bit x 0))

pub is_huge-Upgraded : {x y : ℕ} → Upgraded x y → is_huge y ≡ is_huge x
is_huge-Upgraded {x} {y} u =
    let same : bit 7 y ≡ bit 7 x = omega (arith, u.address) in
    test_bit-eq-bit y 7 ∙ (ap (λ t. t == 1) same ∙ sym (test_bit-eq-bit x 7))

pub table_of-eq : (x : ℕ) → table_of x ≡ x / 2 ^ 12 % 2 ^ 40 * 2 ^ 12
table_of-eq x =
    bit_and-shifted 12 x (2 ^ 40 - 1) ∙ ap (λ t. t * 2 ^ 12) (bit_and_low 40 (x / 2 ^ 12))

pub table_of-Upgraded : {x y : ℕ} → Upgraded x y → table_of y ≡ table_of x
table_of-Upgraded {x} {y} u =
    let same : y / 2 ^ 12 % 2 ^ 40 ≡ x / 2 ^ 12 % 2 ^ 40 = omega (arith, u.address) in
    table_of-eq y ∙ (ap (λ t. t * 2 ^ 12) same ∙ sym (table_of-eq x))
