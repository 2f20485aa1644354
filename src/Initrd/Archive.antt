-- ===== src/Initrd/Archive.antt =====
-- Sizes in octal, and the end of the loop over an archive (`src/kern/fs/initrd.rs`).
use avaria.Prelude.{
  ℕ, zero, suc, ◌+◌, ◌-◌, ◌*◌, ◌/◌, ◌%◌, ◌^◌, ◌<◌, ◌≤◌, ◌≡◌, refl, ap, sym, ◌∙◌, arith, Bool,
}
use avaria.Prelude.{
  ◌≢◌, true, false, not, ltb, ltb→le, if_Has, if_Has_by, Bool-cases, inl, inr, ◌==◌, ≢→==, List, [],
  ◌∷◌, ◌++◌, length, get_or, ◌||◌, if◌then◌else◌, add_w, sub_w, take, drop,
}
use avaria.Initrd.{
  TarEntry, Parsed, archive, not_utf8, out_of_fuel, panics, prepend, octal_from, trim_dots,
  until_zero, is_dir_name, parse_octal, parse_from, parse, rounded, max_entries,
}
use native.Mathlib.Nat.{pow-suc, one-le-pow, div-add-mod', mod-lt, div-lt_iff_lt-mul}

-- The `k` octal digits of a number, most significant first.
unfoldable pub octal_digits : ℕ → ℕ → List ℕ
octal_digits zero n = []
octal_digits (suc k) n = (b'0' + n / 8 ^ k) ∷ octal_digits k (n % 8 ^ k)

digit-step :
    (val d : ℕ)
    → d < 8
    → val * 8 + d < 2 ^ 64
    → add_w 64 (val * 8) (sub_w 8 (b'0' + d) b'0') ≡ val * 8 + d
digit-step val d lt fits = omega arith

widen : (v d p : ℕ) → (v * 8 + d) * p ≡ v * (p * 8) + d * p
widen v d p = grind arith

le-scaled : (a p : ℕ) → 0 < p → a ≤ a * p
le-scaled a p pos = grind arith

octal_from-digits :
    (k val n : ℕ)
    → n < 8 ^ k
    → val * 8 ^ k + n < 2 ^ 64
    → octal_from val (octal_digits k n ++ (0 ∷ [])) ≡ val * 8 ^ k + n
unfolding octal_from octal_digits
octal_from-digits zero val n lt fits = omega arith
octal_from-digits (suc k) val n lt fits =
    let d = n / 8 ^ k in
    let r = n % 8 ^ k in
    let pos : 0 < 8 ^ k = one-le-pow k 8 (omega arith) in
    let whole : d * 8 ^ k + r ≡ n = div-add-mod' n (8 ^ k) in
    let width : 8 ^ suc k ≡ 8 ^ k * 8 = pow-suc 8 k in
    let digit : d < 8 = (div-lt_iff_lt-mul pos).1 (omega (arith, width)) in
    let small : r < 8 ^ k = mod-lt n pos in
    let up : (val * 8 + d) * 8 ^ k ≡ val * 8 ^ suc k + d * 8 ^ k =
      widen val d (8 ^ k) ∙ ap (λ (t : ℕ). val * t + d * 8 ^ k) (sym width) in
    let one : val * 8 + d ≤ (val * 8 + d) * 8 ^ k = le-scaled (val * 8 + d) (8 ^ k) pos in
    let step = digit-step val d digit (omega (arith, up, one, whole)) in
    rw (≢→== (b'0' + d) 0 (omega arith), ≢→== (b'0' + d) b' ' (omega arith), step)
      (octal_from-digits k (val * 8 + d) r small (omega (arith, up, whole))
        ∙ omega (arith, up, whole))

-- `parse_octal` reads back a number below 8 ^ 11 that is written as the eleven octal digits and the
-- closing 0 of a tar header.
pub parse_octal-octal_digits :
    (n : ℕ) → n < 8 ^ 11 → parse_octal (octal_digits 11 n ++ (0 ∷ [])) ≡ n
unfolding parse_octal
parse_octal-octal_digits n lt = octal_from-digits 11 0 n lt (omega arith) ∙ omega arith

neither : (a b : Bool) → (a || b) ≡ false → a ≡ false
neither true b e = absurd (cc)
neither false b e = refl

prepend-ends : (e : TarEntry) (p : Parsed) → p ≢ out_of_fuel → prepend e p ≢ out_of_fuel
unfolding prepend
prepend-ends e (archive es) ne q = absurd (cc)
prepend-ends e not_utf8 ne q = absurd (cc)
prepend-ends e out_of_fuel ne q = ne refl
prepend-ends e panics ne q = absurd (cc)

-- A round is left, and there are more rounds than bytes.
module _ (is_utf8 : List ℕ → Bool) (bytes : List ℕ) where
  parse_from_ends :
      (f room offset : ℕ)
      → 0 < f
      → length bytes < offset + f
      → parse_from is_utf8 bytes f room offset ≢ out_of_fuel
  unfolding parse_from
  parse_from_ends zero room offset pos p = absurd (omega arith)
  parse_from_ends (suc f) room offset pos p =
      let Ends = λ (x : Parsed). x ≢ out_of_fuel in
      let header = take 512 (drop offset bytes) in
      let raw = until_zero (take 100 header) in
      let name = trim_dots raw in
      let octal = parse_octal (take 12 (drop 124 header)) in
      let is_dir = get_or header 156 0 == b'5' || is_dir_name name in
      let size = if is_dir then 0 else octal in
      if_Has_by Ends (ltb (length bytes) (offset + 512) || room == 0) (λ e q. cc)
        λ e.
          let more = ltb→le (length bytes) (offset + 512) (neither _ _ e) in
          if_Has Ends (get_or bytes offset 0 == 0) (λ q. cc)
            (if_Has Ends (not (is_utf8 raw)) (λ q. cc)
              (if_Has Ends (length name == 0)
                (parse_from_ends f room (offset + 512 + rounded octal) (omega arith) (omega arith))
                (if_Has Ends (ltb (length bytes) (offset + 512 + size)) (λ q. cc)
                  (prepend-ends
                    (record {
                      name = name;
                      contents = take size (drop (offset + 512) bytes);
                      is_dir = is_dir;
                    })
                    (parse_from is_utf8 bytes f (room - 1) (offset + 512 + rounded size))
                    (parse_from_ends f (room - 1) (offset + 512 + rounded size) (omega arith)
                      (omega arith))))))

  -- Two such numbers of rounds give one result.
  parse_from_same :
      (f g room offset : ℕ)
      → (0 < f) × (length bytes < offset + f)
      → (0 < g) × (length bytes < offset + g)
      → parse_from is_utf8 bytes f room offset ≡ parse_from is_utf8 bytes g room offset
  unfolding parse_from
  parse_from_same zero g room offset p q = absurd (omega (arith, p))
  parse_from_same (suc f) zero room offset p q = absurd (omega (arith, q))
  parse_from_same (suc f) (suc g) room offset p q =
      elim (Bool-cases (ltb (length bytes) (offset + 512))) [
        | inl e ↦ rw e refl
        | inr e ↦
            let more = ltb→le (length bytes) (offset + 512) e in
            let again : (r n : ℕ)
                → offset + 512 ≤ n
                → parse_from is_utf8 bytes f r n ≡ parse_from is_utf8 bytes g r n =
              λ r n h.
                parse_from_same f g r n (omega (arith, p, more), omega (arith, p, more))
                  (omega (arith, q, more), omega (arith, q, more)) in
            let header = take 512 (drop offset bytes) in
            let octal = parse_octal (take 12 (drop 124 header)) in
            let name = trim_dots (until_zero (take 100 header)) in
            let size = if get_or header 156 0 == b'5' || is_dir_name name then 0 else octal in
            rw
              (
                again room (offset + 512 + rounded octal) (omega arith),
                again (room - 1) (offset + 512 + rounded size) (omega arith),
              )
              refl
      ]

-- The loop of `parse` ends of itself within one round more than the archive has bytes, whatever sizes its
-- headers claim: the rounds are not used up, and with any further rounds the result is the same.
pub parse_enough :
    (is_utf8 : List ℕ → Bool) (bytes : List ℕ) (more : ℕ)
    → (parse is_utf8 bytes ≢ out_of_fuel)
      × (parse_from is_utf8 bytes (length bytes + 1 + more) max_entries 0 ≡ parse is_utf8 bytes)
unfolding parse
parse_enough is_utf8 bytes more = (
  parse_from_ends is_utf8 bytes (length bytes + 1) max_entries 0 (omega arith) (omega arith),
  parse_from_same is_utf8 bytes (length bytes + 1 + more) (length bytes + 1) max_entries 0
      (omega arith, omega arith) (omega arith, omega arith),
)
