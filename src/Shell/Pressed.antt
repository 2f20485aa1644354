-- ===== src/Shell/Pressed.antt =====
-- What one key does to the line of text of the console, and to the screen.
use package.avaria.Prelude.{ℕ, zero, suc, ◌+◌, ◌-◌, ◌<◌, ◌≤◌, ◌^◌, ◌≡◌, refl, sym, ap, ◌∙◌, arith}
use package.avaria.Prelude.{
  Bool, true, false, ◌&&◌, ◌==◌, ltb, if◌then◌else◌, List, [], ◌∷◌, ◌++◌, length, set, take, ltb→lt,
  ltb→le, length-take, length-set, if_Has_by, if_Has_both, sub_w,
}
use mathlib.Core.Path.{subst}
use package.avaria.Shell.{
  Draw, cell, wipe, draw_text, fresh_line, Shell, next_row, echo, press_enter, press_backspace,
  press_other,
}
use package.avaria.Shell.Screen.{
  Screen, drawn, show, show_append, IsBlank, IsBlank-lower, next_row-IsBlank, text-IsBlank,
  cell-IsBlank,
}
use package.avaria.Shell.Line.{
  line_shown, line_append, line_drop, two_cells-IsBlank, line_fresh, fresh-IsBlank,
}

-- The text after a key: enter clears it, backspace takes its last character, and any other key is
-- added at the end while there is room for the cursor in the row.
unfoldable pub edit : ℕ → List ℕ → ℕ → List ℕ
edit cols text ch =
    if ch == 0x0A
    then []
    else if ch == 0x08
    then take (length text - 1) text
    else if ltb (length text) 255 && ltb (8 + length text) (cols - 1)
    then text ++ (ch ∷ [])
    else text

-- The console holds `text`, and the screen shows it in the cursor's row, with nothing below.
pub record Shows (cols rows : ℕ) (s : Shell) (text : List ℕ) (screen : Screen) : Type 0 where
  pub buffer : length s.line_buf ≡ 256
  pub holds : take s.line_len s.line_buf ≡ text
  pub short : s.line_len ≤ 255
  pub col : s.cur_col ≡ 8 + s.line_len
  pub col_in : s.cur_col < cols
  pub row_in : s.cur_row < rows
  pub line : (c : ℕ) → screen s.cur_row c ≡ line_shown text c
  pub below : IsBlank screen (s.cur_row + 1)

length-text :
    {cols rows : ℕ} {s : Shell} {text : List ℕ} {screen : Screen}
    → Shows cols rows s text screen
    → length text ≡ s.line_len
length-text {s} h =
    ap length (sym h.holds) ∙ (length-take s.line_len s.line_buf ∙ omega (arith, h.buffer, h.short))

take-set :
    (xs : List ℕ) (n v : ℕ) → n < length xs → take (n + 1) (set xs n v) ≡ take n xs ++ (v ∷ [])
take-set [] n v h = absurd (omega arith)
take-set (x ∷ xs) zero v h = refl
take-set (x ∷ xs) (suc n) v h =
    let e : suc n + 1 ≡ suc (n + 1) = omega arith in
    rw e (ap (λ r. x ∷ r) (take-set xs n v (omega arith)))

take-take : (xs : List ℕ) (n m : ℕ) → n ≤ m → take n (take m xs) ≡ take n xs
take-take xs zero m h = refl
take-take [] (suc n) zero h = absurd (omega arith)
take-take [] (suc n) (suc m) h = refl
take-take (x ∷ xs) (suc n) zero h = absurd (omega arith)
take-take (x ∷ xs) (suc n) (suc m) h = ap (λ r. x ∷ r) (take-take xs n m (omega arith))

take_none : (text : List ℕ) → length text ≡ 0 → take (length text - 1) text ≡ text
take_none [] h = refl
take_none (c ∷ cs) h = absurd (omega arith)

both_true : (a b : Bool) → (a && b) ≡ true → (a ≡ true) × (b ≡ true)
both_true true b h = (refl, h)
both_true false b h = absurd (cc)

IsBlank-same : (screen : Screen) (top : ℕ) → IsBlank screen top → IsBlank (show screen []) top
unfolding show
IsBlank-same screen top h = h

pub wiped : (before : Screen) → IsBlank (drawn before wipe) 0
unfolding IsBlank
wiped before r c h = refl

first_cell :
    (screen : Screen) (col row ch : ℕ) (ds : List Draw)
    → show screen (cell col row ch ∷ ds) ≡ show (drawn screen (cell col row ch)) ds
unfolding show
first_cell screen col row ch ds = refl

module _ (cols rows : ℕ) (screen : Screen) where
  -- A console and the text that it shows, after drawings.
  abbrev pub After : Shell × List Draw → List ℕ → Type 0
  After r text = Shows cols rows r.0 text (show screen r.1)

  pub other-After :
      (s : Shell) (text : List ℕ) (ch : ℕ)
      → cols < 2 ^ 64
      → Shows cols rows s text screen
      → After (press_other cols s ch) (
          if ltb (length text) 255 && ltb (8 + length text) (cols - 1)
          then text ++ (ch ∷ [])
          else text)
  unfolding press_other show
  other-After s text ch word h =
      let n = length-text h in
      let wide : cols - 1 ≡ sub_w 64 cols 1 = omega (arith, h.col_in) in
      let at : 8 + length text ≡ s.cur_col = omega (arith, n, h.col) in
      let room = ltb s.line_len 255 && ltb s.cur_col (sub_w 64 cols 1) in
      let same : (ltb (length text) 255 && ltb (8 + length text) (cols - 1)) ≡ room =
        ap (λ t. ltb (length text) 255 && ltb t (cols - 1)) at
        ∙ (ap (λ t. ltb t 255 && ltb s.cur_col (cols - 1)) n
            ∙ ap (λ t. ltb s.line_len 255 && ltb s.cur_col t) wide) in
      subst (λ b. After (press_other cols s ch) (if b then text ++ (ch ∷ []) else text)) (sym same)
        (if_Has_both After room
          (λ e.
            let fits = both_true (ltb s.line_len 255) (ltb s.cur_col (sub_w 64 cols 1)) e in
            let shorter = ltb→lt s.line_len 255 fits.0 in
            let inside = ltb→lt s.cur_col (sub_w 64 cols 1) fits.1 in
            record {
              buffer = length-set s.line_buf s.line_len ch ∙ h.buffer;
              holds =
                  take-set s.line_buf s.line_len ch (omega (arith, h.buffer, shorter))
                  ∙ ap (λ t. t ++ (ch ∷ [])) h.holds;
              short = omega arith;
              col = omega (arith, h.col);
              col_in = omega (arith, inside, wide, h.col_in);
              row_in = h.row_in;
              line = rw (sym at) (line_append screen s.cur_row ch text h.line);
              below = two_cells-IsBlank screen s.cur_row s.cur_col ch (s.cur_col + 1) b'_' h.below;
            })
          (λ e. h))

  pub backspace-After :
      (s : Shell) (text : List ℕ)
      → Shows cols rows s text screen
      → After (press_backspace s) (take (length text - 1) text)
  unfolding press_backspace show
  backspace-After s text h =
      let n = length-text h in
      let at : 8 + length text ≡ s.cur_col = omega (arith, n, h.col) in
      if_Has_by (λ (x : Shell × List Draw). After x (take (length text - 1) text))
        (ltb 0 s.line_len)
        (λ e.
          let some_text = ltb→lt 0 s.line_len e in
          record {
            buffer = h.buffer;
            holds =
                sym (take-take s.line_buf (s.line_len - 1) s.line_len (omega arith))
                ∙ (ap (take (s.line_len - 1)) h.holds ∙ ap (λ t. take (t - 1) text) (sym n));
            short = omega (arith, h.short);
            col = omega (arith, h.col, some_text);
            col_in = omega (arith, h.col_in);
            row_in = h.row_in;
            line =
                rw (sym at) (line_drop screen s.cur_row text (omega (arith, n, some_text)) h.line);
            below = two_cells-IsBlank screen s.cur_row s.cur_col 0x20 (s.cur_col - 1) b'_' h.below;
          })
        (λ e.
          subst (λ t. After (s, []) t)
            (sym (take_none text (omega (arith, n, ltb→le 0 s.line_len e)))) h)

  echo-IsBlank :
      (s : Shell) (row : ℕ) (before : Screen)
      → row < rows
      → IsBlank before row
      → ((echo rows s row).0 < rows) × IsBlank (show before (echo rows s row).1) (echo rows s row).0
  unfolding echo
  echo-IsBlank s row before lt blank =
      let typed = take s.line_len s.line_buf in
      let prefix = draw_text row 0 (b'>' ∷ 0x20 ∷ []) in
      let chars = draw_text row 2 typed in
      let s1 = show before prefix in
      let s2 = show s1 chars in
      let b1 =
        text-IsBlank before row 0 (b'>' ∷ 0x20 ∷ []) (IsBlank-lower before (omega arith) blank) in
      let b2 = text-IsBlank s1 row 2 typed b1 in
      let next = next_row-IsBlank s2 rows row (omega arith) b2 in
      let split =
        show_append before prefix (chars ++ (next_row rows row).1)
        ∙ show_append s1 chars (next_row rows row).1 in
      if_Has_by (λ (x : ℕ × List Draw). (x.0 < rows) × IsBlank (show before x.1) x.0)
        (ltb 0 s.line_len)
        (λ e. (next.0, subst (λ g. IsBlank g (next_row rows row).0) (sym split) next.1))
        (λ e. (lt, IsBlank-same before row blank))

  pub enter-After :
      (s : Shell) (text : List ℕ)
      → 8 < cols
      → Shows cols rows s text screen
      → After (press_enter rows s) []
  unfolding press_enter
  enter-After s text wide h =
      let s1 = drawn screen (cell s.cur_col s.cur_row 0x20) in
      let below = cell-IsBlank screen s.cur_row s.cur_col 0x20 h.below in
      let moved = next_row rows s.cur_row in
      let top = next_row-IsBlank s1 rows s.cur_row (omega (arith, h.row_in)) below in
      let s2 = show s1 moved.1 in
      let repeated = echo rows s moved.0 in
      let next = echo-IsBlank s moved.0 s2 top.0 top.1 in
      let s3 = show s2 repeated.1 in
      let split =
        first_cell screen s.cur_col s.cur_row 0x20
          (moved.1 ++ (repeated.1 ++ fresh_line repeated.0))
        ∙ (show_append s1 moved.1 (repeated.1 ++ fresh_line repeated.0)
            ∙ show_append s2 repeated.1 (fresh_line repeated.0)) in
      record {
        buffer = h.buffer;
        holds = refl;
        short = omega arith;
        col = refl;
        col_in = wide;
        row_in = next.0;
        line = λ c. ap (λ (g : Screen). g repeated.0 c) split ∙ line_fresh s3 repeated.0 next.1 c;
        below =
            subst (λ g. IsBlank g (repeated.0 + 1)) (sym split)
              (fresh-IsBlank s3 repeated.0 next.1);
      }
