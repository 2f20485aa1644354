-- ===== src/Shell/Line.antt =====
-- The row in which the console shows its text.
use package.avaria.Prelude.{
  ℕ, zero, suc, ◌+◌, ◌-◌, ◌<◌, ◌≡◌, ◌≢◌, refl, sym, ap, ◌∙◌, arith, inl, inr,
}
use package.avaria.Prelude.{
  ◌==◌, ltb, if◌then◌else◌, List, [], ◌∷◌, ◌++◌, length, get_or, take, Bool-cases, ==→≡, ==→≢, ≢→==,
  ==_self, ltb→lt, ltb→le, lt→ltb, le→ltb, length-take, length-append,
}
use mathlib.Core.Path.{subst}
use package.avaria.Shell.{cell, draw_text, shell_prompt, fresh_line}
use package.avaria.Shell.Screen.{
  Screen, drawn, show, show_append, drawn_here, drawn_other_col, text_after, text_shown, IsBlank,
  IsBlank-lower, text-IsBlank, cell-IsBlank,
}

-- The row of the text: the prompt, the text, the cursor, and nothing more.
unfoldable pub line_shown : List ℕ → ℕ → ℕ
line_shown text c =
    if ltb c 8
    then get_or shell_prompt c 0x20
    else if ltb (c - 8) (length text)
    then get_or text (c - 8) 0x20
    else if c == 8 + length text
    then b'_'
    else 0x20

get_or-take : (xs : List ℕ) (n k d : ℕ) → k < n → get_or (take n xs) k d ≡ get_or xs k d
get_or-take xs zero k d h = absurd (omega arith)
get_or-take [] (suc n) k d h = refl
get_or-take (x ∷ xs) (suc n) zero d h = refl
get_or-take (x ∷ xs) (suc n) (suc k) d h = get_or-take xs n k d (omega arith)

get_or-append_left :
    (xs ys : List ℕ) (k d : ℕ) → k < length xs → get_or (xs ++ ys) k d ≡ get_or xs k d
get_or-append_left [] ys k d h = absurd (omega arith)
get_or-append_left (x ∷ xs) ys zero d h = refl
get_or-append_left (x ∷ xs) ys (suc k) d h = get_or-append_left xs ys k d (omega arith)

get_or-append_last : (xs : List ℕ) (y d : ℕ) → get_or (xs ++ (y ∷ [])) (length xs) d ≡ y
get_or-append_last [] y d = refl
get_or-append_last (x ∷ xs) y d = get_or-append_last xs y d

-- The four parts of the row.
shown_prompt : (text : List ℕ) (c : ℕ) → c < 8 → line_shown text c ≡ get_or shell_prompt c 0x20
unfolding line_shown
shown_prompt text c h = rw (lt→ltb c 8 h) refl

shown_text :
    (text : List ℕ) (k : ℕ) → k < length text → line_shown text (8 + k) ≡ get_or text k 0x20
unfolding line_shown
shown_text text k h =
    let e : 8 + k - 8 ≡ k = omega arith in
    rw (le→ltb (8 + k) 8 (omega arith), e, lt→ltb k (length text) h) refl

shown_cursor : (text : List ℕ) → line_shown text (8 + length text) ≡ b'_'
unfolding line_shown
shown_cursor text =
    let n = length text in
    let e : 8 + n - 8 ≡ n = omega arith in
    rw (le→ltb (8 + n) 8 (omega arith), e, le→ltb n n (omega arith), ==_self (8 + n)) refl

shown_after : (text : List ℕ) (c : ℕ) → 8 + length text < c → line_shown text c ≡ 0x20
unfolding line_shown
shown_after text c h =
    rw
      (
        le→ltb c 8 (omega arith),
        le→ltb (c - 8) (length text) (omega arith),
        ≢→== c (8 + length text) (λ e. omega arith),
      )
      refl

-- A row that has the four parts is the row of the text.
line_parts :
    (f : ℕ → ℕ) (text : List ℕ)
    → ((c : ℕ) → c < 8 → f c ≡ get_or shell_prompt c 0x20)
    → ((k : ℕ) → k < length text → f (8 + k) ≡ get_or text k 0x20)
    → f (8 + length text) ≡ b'_'
    → ((c : ℕ) → 8 + length text < c → f c ≡ 0x20)
    → (c : ℕ) → f c ≡ line_shown text c
line_parts f text prompt chars cursor after c = elim (Bool-cases (ltb c 8)) [
  | inl e ↦ prompt c (ltb→lt c 8 e) ∙ sym (shown_prompt text c (ltb→lt c 8 e))
  | inr e ↦
      let n = length text in
      let ge = ltb→le c 8 e in
      let same : 8 + (c - 8) ≡ c = omega arith in
      elim (Bool-cases (ltb (c - 8) n)) [
        | inl q ↦
            let lt = ltb→lt (c - 8) n q in
            ap f (sym same)
            ∙ (chars (c - 8) lt ∙ (sym (shown_text text (c - 8) lt) ∙ ap (line_shown text) same))
        | inr q ↦ elim (Bool-cases (c == 8 + n)) [
          | inl r ↦
              let at = ==→≡ c (8 + n) r in
              ap f at ∙ (cursor ∙ (sym (shown_cursor text) ∙ ap (line_shown text) (sym at)))
          | inr r ↦
              let past : 8 + n < c = omega (arith, ==→≢ c (8 + n) r, ltb→le (c - 8) n q) in
              after c past ∙ sym (shown_after text c past)
        ]
      ]
]

-- Two cells leave the rest of their row.
two_cells :
    (screen : Screen) (row a x b y c : ℕ)
    → c ≢ a
    → c ≢ b
    → show screen (cell a row x ∷ cell b row y ∷ []) row c ≡ screen row c
unfolding show
two_cells screen row a x b y c na nb =
    drawn_other_col (drawn screen (cell a row x)) row b y c nb ∙ drawn_other_col screen row a x c na

two_cells_first :
    (screen : Screen) (row a x b y : ℕ)
    → a ≢ b
    → show screen (cell a row x ∷ cell b row y ∷ []) row a ≡ x
unfolding show
two_cells_first screen row a x b y ne =
    drawn_other_col (drawn screen (cell a row x)) row b y a ne ∙ drawn_here screen row a x

two_cells_last :
    (screen : Screen) (row a x b y : ℕ) → show screen (cell a row x ∷ cell b row y ∷ []) row b ≡ y
unfolding show
two_cells_last screen row a x b y = drawn_here (drawn screen (cell a row x)) row b y

pub two_cells-IsBlank :
    (screen : Screen) (row a x b y : ℕ)
    → IsBlank screen (row + 1)
    → IsBlank (show screen (cell a row x ∷ cell b row y ∷ [])) (row + 1)
unfolding show
two_cells-IsBlank screen row a x b y blank =
    cell-IsBlank (drawn screen (cell a row x)) row b y (cell-IsBlank screen row a x blank)

-- A character at the cursor, and the cursor after it.
pub line_append :
    (screen : Screen) (row ch : ℕ) (text : List ℕ)
    → ((c : ℕ) → screen row c ≡ line_shown text c)
    → (c : ℕ)
    → show screen (cell (8 + length text) row ch ∷ cell (8 + length text + 1) row b'_' ∷ []) row c
      ≡ line_shown (text ++ (ch ∷ [])) c
line_append screen row ch text h =
    let n = length text in
    let longer : length (text ++ (ch ∷ [])) ≡ n + 1 = length-append text (ch ∷ []) in
    let f = show screen (cell (8 + n) row ch ∷ cell (8 + n + 1) row b'_' ∷ []) row in
    let keeps = two_cells screen row (8 + n) ch (8 + n + 1) b'_' in
    line_parts f (text ++ (ch ∷ []))
      (λ c lt. keeps c (λ e. omega arith) (λ e. omega arith) ∙ (h c ∙ shown_prompt text c lt))
      (λ k lt. elim (Bool-cases (ltb k n)) [
        | inl e ↦
            let small = ltb→lt k n e in
            keeps (8 + k) (λ e. omega arith) (λ e. omega arith)
            ∙ (h (8 + k)
                ∙ (shown_text text k small ∙ sym (get_or-append_left text (ch ∷ []) k 0x20 small)))
        | inr e ↦
            let last : k ≡ n = omega (arith, ltb→le k n e, longer) in
            ap (λ t. f (8 + t)) last
            ∙ (two_cells_first screen row (8 + n) ch (8 + n + 1) b'_' (λ e. omega arith)
                ∙ (sym (get_or-append_last text ch 0x20)
                    ∙ ap (λ t. get_or (text ++ (ch ∷ [])) t 0x20) (sym last)))
      ])
      (ap f (let e : 8 + length (text ++ (ch ∷ [])) ≡ 8 + n + 1 = omega (arith, longer) in e)
        ∙ two_cells_last screen row (8 + n) ch (8 + n + 1) b'_')
      (λ c lt.
        keeps c (λ e. omega (arith, longer)) (λ e. omega (arith, longer))
        ∙ (h c ∙ shown_after text c (omega (arith, longer))))

-- A blank at the cursor, and the cursor before it.
pub line_drop :
    (screen : Screen) (row : ℕ) (text : List ℕ)
    → 0 < length text
    → ((c : ℕ) → screen row c ≡ line_shown text c)
    → (c : ℕ)
    → show screen (cell (8 + length text) row 0x20 ∷ cell (8 + length text - 1) row b'_' ∷ []) row c
      ≡ line_shown (take (length text - 1) text) c
line_drop screen row text some_text h =
    let n = length text in
    let shorter : length (take (n - 1) text) ≡ n - 1 = omega (arith, length-take (n - 1) text) in
    let f = show screen (cell (8 + n) row 0x20 ∷ cell (8 + n - 1) row b'_' ∷ []) row in
    let keeps = two_cells screen row (8 + n) 0x20 (8 + n - 1) b'_' in
    line_parts f (take (n - 1) text)
      (λ c lt. keeps c (λ e. omega arith) (λ e. omega arith) ∙ (h c ∙ shown_prompt text c lt))
      (λ k lt.
        keeps (8 + k) (λ e. omega (arith, shorter)) (λ e. omega (arith, shorter))
        ∙ (h (8 + k)
            ∙ (shown_text text k (omega (arith, shorter))
                ∙ sym (get_or-take text (n - 1) k 0x20 (omega (arith, shorter))))))
      (ap f (let e : 8 + length (take (n - 1) text) ≡ 8 + n - 1 = omega (arith, shorter) in e)
        ∙ two_cells_last screen row (8 + n) 0x20 (8 + n - 1) b'_')
      (λ c lt. elim (Bool-cases (c == 8 + n)) [
        | inl e ↦
            ap f (==→≡ c (8 + n) e)
            ∙ two_cells_first screen row (8 + n) 0x20 (8 + n - 1) b'_' (λ e. omega arith)
        | inr e ↦
            keeps c (==→≢ c (8 + n) e) (λ e. omega (arith, shorter))
            ∙ (h c ∙ shown_after text c (omega (arith, shorter, ==→≢ c (8 + n) e)))
      ])

-- A prompt and a cursor in a blank row.
pub line_fresh :
    (screen : Screen) (row : ℕ)
    → IsBlank screen row
    → (c : ℕ) → show screen (fresh_line row) row c ≡ line_shown [] c
unfolding show IsBlank
line_fresh screen row blank =
    let typed = show screen (draw_text row 0 shell_prompt) in
    let split = show_append screen (draw_text row 0 shell_prompt) (cell 8 row b'_' ∷ []) in
    let f = drawn typed (cell 8 row b'_') row in
    λ c.
      ap (λ (g : Screen). g row c) split
      ∙ line_parts f []
          (λ c lt.
            drawn_other_col typed row 8 b'_' c (λ e. omega arith)
            ∙ (ap (typed row) (let e : c ≡ 0 + c = omega arith in e)
                ∙ text_shown screen row 0 shell_prompt c lt))
          (λ k lt. absurd (omega arith)) (drawn_here typed row 8 b'_')
          (λ c lt.
            drawn_other_col typed row 8 b'_' c (λ e. omega arith)
            ∙ (text_after screen row 0 shell_prompt c (omega arith) ∙ blank row c (omega arith)))
          c

pub fresh-IsBlank :
    (screen : Screen) (row : ℕ)
    → IsBlank screen row
    → IsBlank (show screen (fresh_line row)) (row + 1)
unfolding show
fresh-IsBlank screen row blank =
    let typed = show screen (draw_text row 0 shell_prompt) in
    let split = show_append screen (draw_text row 0 shell_prompt) (cell 8 row b'_' ∷ []) in
    subst (λ g. IsBlank g (row + 1)) (sym split)
      (cell-IsBlank typed row 8 b'_'
        (text-IsBlank screen row 0 shell_prompt (IsBlank-lower screen (omega arith) blank)))
