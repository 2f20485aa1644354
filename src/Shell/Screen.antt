-- ===== src/Shell/Screen.antt =====
-- The characters that the drawings of the console leave on the screen.
use package.avaria.Prelude.{ℕ, zero, suc, ◌+◌, ◌<◌, ◌≤◌, ◌≡◌, ◌≢◌, refl, ◌∙◌, arith}
use package.avaria.Prelude.{
  ◌&&◌, ◌==◌, leb, if◌then◌else◌, List, [], ◌∷◌, ◌++◌, length, get_or, ≢→==, ==_self, if_Has_by,
  leb→lt,
}
use package.avaria.Shell.{Draw, cell, wipe, draw_text, next_row}

-- By row and column.
abbrev pub Screen : Type 0
Screen = ℕ → ℕ → ℕ

abbrev pub drawn : Screen → Draw → Screen
drawn screen (cell col row ch) r c = if r == row && c == col then ch else screen r c
drawn screen wipe r c = 0x20

unfoldable pub show : Screen → List Draw → Screen
show screen [] = screen
show screen (d ∷ ds) = show (drawn screen d) ds

pub show_append :
    (screen : Screen) (ds es : List Draw) → show screen (ds ++ es) ≡ show (show screen ds) es
unfolding show
show_append screen [] es = refl
show_append screen (d ∷ ds) es = show_append (drawn screen d) ds es

pub drawn_here : (screen : Screen) (row col ch : ℕ) → drawn screen (cell col row ch) row col ≡ ch
drawn_here screen row col ch = rw (==_self row, ==_self col) refl

pub drawn_other_row :
    (screen : Screen) (row col ch r c : ℕ)
    → r ≢ row
    → drawn screen (cell col row ch) r c ≡ screen r c
drawn_other_row screen row col ch r c ne = rw (≢→== r row ne) refl

pub drawn_other_col :
    (screen : Screen) (row col ch c : ℕ)
    → c ≢ col
    → drawn screen (cell col row ch) row c ≡ screen row c
drawn_other_col screen row col ch c ne = rw (==_self row, ≢→== c col ne) refl

-- A text leaves the other rows, the columns before it and those after it.
pub text_other_row :
    (screen : Screen) (row col : ℕ) (text : List ℕ) (r c : ℕ)
    → r ≢ row
    → show screen (draw_text row col text) r c ≡ screen r c
unfolding show draw_text
text_other_row screen row col [] r c ne = refl
text_other_row screen row col (ch ∷ chs) r c ne =
    text_other_row (drawn screen (cell col row ch)) row (col + 1) chs r c ne
    ∙ drawn_other_row screen row col ch r c ne

pub text_before :
    (screen : Screen) (row col : ℕ) (text : List ℕ) (c : ℕ)
    → c < col
    → show screen (draw_text row col text) row c ≡ screen row c
unfolding show draw_text
text_before screen row col [] c h = refl
text_before screen row col (ch ∷ chs) c h =
    text_before (drawn screen (cell col row ch)) row (col + 1) chs c (omega arith)
    ∙ drawn_other_col screen row col ch c (λ e. omega arith)

pub text_after :
    (screen : Screen) (row col : ℕ) (text : List ℕ) (c : ℕ)
    → col + length text ≤ c
    → show screen (draw_text row col text) row c ≡ screen row c
unfolding show draw_text
text_after screen row col [] c h = refl
text_after screen row col (ch ∷ chs) c h =
    text_after (drawn screen (cell col row ch)) row (col + 1) chs c (omega arith)
    ∙ drawn_other_col screen row col ch c (λ e. omega arith)

pub text_shown :
    (screen : Screen) (row col : ℕ) (text : List ℕ) (k : ℕ)
    → k < length text
    → show screen (draw_text row col text) row (col + k) ≡ get_or text k 0x20
unfolding show draw_text
text_shown screen row col [] k h = absurd (omega arith)
text_shown screen row col (ch ∷ chs) zero h =
    let e : col + 0 ≡ col = omega arith in
    rw e (
      text_before (drawn screen (cell col row ch)) row (col + 1) chs col (omega arith)
      ∙ drawn_here screen row col ch)
text_shown screen row col (ch ∷ chs) (suc k) h =
    let e : col + suc k ≡ col + 1 + k = omega arith in
    rw e (text_shown (drawn screen (cell col row ch)) row (col + 1) chs k (omega arith))

-- Nothing from row `top` on.
unfoldable pub IsBlank : Screen → ℕ → Type 0
IsBlank screen top = (r c : ℕ) → top ≤ r → screen r c ≡ 0x20

pub next_row-IsBlank :
    (screen : Screen) (rows row : ℕ)
    → 0 < rows
    → IsBlank screen (row + 1)
    → ((next_row rows row).0 < rows)
      × IsBlank (show screen (next_row rows row).1) (next_row rows row).0
unfolding next_row show IsBlank
next_row-IsBlank screen rows row some_row blank =
    if_Has_by (λ (x : ℕ × List Draw). (x.0 < rows) × IsBlank (show screen x.1) x.0)
      (leb rows (row + 1)) (λ e. (some_row, λ r c h. refl)) (λ e. (leb→lt rows (row + 1) e, blank))

pub text-IsBlank :
    (screen : Screen) (row col : ℕ) (text : List ℕ)
    → IsBlank screen (row + 1)
    → IsBlank (show screen (draw_text row col text)) (row + 1)
unfolding IsBlank
text-IsBlank screen row col text blank r c h =
    text_other_row screen row col text r c (λ e. omega arith) ∙ blank r c h

pub cell-IsBlank :
    (screen : Screen) (row col ch : ℕ)
    → IsBlank screen (row + 1)
    → IsBlank (drawn screen (cell col row ch)) (row + 1)
unfolding IsBlank
cell-IsBlank screen row col ch blank r c h =
    drawn_other_row screen row col ch r c (λ e. omega arith) ∙ blank r c h

pub IsBlank-lower : (screen : Screen) {a b : ℕ} → a ≤ b → IsBlank screen a → IsBlank screen b
unfolding IsBlank
IsBlank-lower screen le blank r c h = blank r c (omega arith)
