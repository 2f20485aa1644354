-- ===== src/Modules/Report.antt =====
-- The times that `src/modules/memtest/src/main.rs` prints.
use avaria.Prelude.{
  ℕ, zero, suc, ◌+◌, ◌*◌, ◌/◌, ◌%◌, ◌^◌, ◌<◌, ◌≤◌, ◌==◌, if_Has, ◌≡◌, refl, ap, ◌∙◌, arith,
}
use avaria.Prelude.{List, [], ◌∷◌, ◌++◌, length}
use avaria.Serial.{dec, dec_fill, backwards}
use avaria.Prelude.{Bool, true, bytes_equal, bytes_equal→≡, all_below, all_below_sound}
use avaria.Serial.Digits.{digit_value, read_number, read_from, read_number-dec}
use avaria.Modules.{print_fill, print_backwards, print_num, pad, print_ms}

print_backwards-eq : (ds : List ℕ) → print_backwards ds ≡ backwards ds
unfolding print_backwards backwards
print_backwards-eq [] = refl
print_backwards-eq (d ∷ ds) = ap (λ l. l ++ (d ∷ [])) (print_backwards-eq ds)

print_fill-eq : (left v : ℕ) → print_fill left v ≡ dec_fill left v
unfolding print_fill dec_fill
print_fill-eq zero v = refl
print_fill-eq (suc left) v = rw (print_fill-eq left (v / 10)) refl

-- `print_num` prints what `dec` of the kernel prints.
print_num-eq-dec : (v : ℕ) → print_num v ≡ dec v
unfolding print_num dec
print_num-eq-dec v = rw (print_fill-eq 20 v, print_backwards-eq (dec_fill 20 v)) refl

-- The three digits of a fraction.
abbrev three_digits : ℕ → List ℕ
three_digits f = (b'0' + f / 100) ∷ (b'0' + f / 10 % 10) ∷ (b'0' + f % 10) ∷ []

abbrev fraction_ok : ℕ → Bool
fraction_ok f = bytes_equal (pad f ++ print_num f) (three_digits f)

fractions_checked : all_below fraction_ok 1000 ≡ true
unfolding all_below print_num
fractions_checked = refl

read_three : (acc f : ℕ) → f < 1000 → read_from 10 acc (three_digits f) ≡ acc * 1000 + f
unfolding read_from
read_three acc f lt = ground arith

read_from-append :
    (base acc : ℕ) (cs ds : List ℕ)
    → read_from base acc (cs ++ ds) ≡ read_from base (read_from base acc cs) ds
unfolding read_from
read_from-append base acc [] ds = refl
read_from-append base acc (c ∷ cs) ds = read_from-append base (acc * base + digit_value c) cs ds

-- The characters `0` to `9`.
pub data AllDigits : List ℕ → Type 0 where
  no_digits : AllDigits []
  one_digit : {d : ℕ} {ds : List ℕ} → b'0' ≤ d → d < b'0' + 10 → AllDigits ds → AllDigits (d ∷ ds)

AllDigits-append : {cs ds : List ℕ} → AllDigits cs → AllDigits ds → AllDigits (cs ++ ds)
AllDigits-append no_digits ds = ds
AllDigits-append (one_digit lo hi cs) ds = one_digit lo hi (AllDigits-append cs ds)

print_fill-AllDigits : (left v : ℕ) → AllDigits (print_fill left v)
unfolding print_fill
print_fill-AllDigits zero v = no_digits
print_fill-AllDigits (suc left) v =
    if_Has AllDigits (v == 0) no_digits
      (one_digit (omega arith) (omega arith) (print_fill-AllDigits left (v / 10)))

print_backwards-AllDigits : {ds : List ℕ} → AllDigits ds → AllDigits (print_backwards ds)
unfolding print_backwards
print_backwards-AllDigits no_digits = no_digits
print_backwards-AllDigits (one_digit lo hi ds) =
    AllDigits-append (print_backwards-AllDigits ds) (one_digit lo hi no_digits)

print_num-AllDigits : (v : ℕ) → AllDigits (print_num v)
unfolding print_num
print_num-AllDigits v =
    if_Has AllDigits (v == 0) (one_digit (omega arith) (omega arith) no_digits)
      (print_backwards-AllDigits (print_fill-AllDigits 20 v))

three_digits-AllDigits : (f : ℕ) → f < 1000 → AllDigits (three_digits f)
three_digits-AllDigits f lt =
    one_digit (omega arith) (omega arith)
      (one_digit (omega arith) (omega arith) (one_digit (omega arith) (omega arith) no_digits))

-- A time of fewer than 2 ^ 64 microseconds is printed as the decimal digits of the whole milliseconds, a
-- point and exactly three decimal digits, and without the point the digits read back as the number of
-- microseconds.
pub print_ms-reads :
    (us : ℕ)
    → us < 2 ^ 64
    → (fraction : List ℕ) × (print_ms us ≡ print_num (us / 1000) ++ (b'.' ∷ fraction))
      × (length fraction ≡ 3)
      × AllDigits fraction
      × AllDigits (print_num (us / 1000))
      × (read_number 10 (print_num (us / 1000) ++ fraction) ≡ us)
unfolding print_ms read_number
print_ms-reads us lt =
    let f = us % 1000 in
    let digits : pad f ++ print_num f ≡ three_digits f =
      bytes_equal→≡ _ _ (all_below_sound fraction_ok 1000 fractions_checked f (omega arith)) in
    let whole : read_from 10 0 (print_num (us / 1000)) ≡ us / 1000 =
      ap (read_from 10 0) (print_num-eq-dec (us / 1000))
      ∙ read_number-dec (us / 1000) (omega arith) in
    (
      three_digits f,
      rw digits refl,
      refl,
      three_digits-AllDigits f (omega arith),
      print_num-AllDigits (us / 1000),
      read_from-append 10 0 (print_num (us / 1000)) (three_digits f)
          ∙ (ap (λ (n : ℕ). read_from 10 n (three_digits f)) whole
              ∙ (read_three (us / 1000) f (omega arith) ∙ omega arith)),
    )
