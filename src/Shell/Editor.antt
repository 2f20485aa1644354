-- ===== src/Shell/Editor.antt =====
-- The console as an editor of one line of text: what is typed, and what the screen shows of it.
use package.avaria.Prelude.{ℕ, ◌<◌, ◌^◌, refl, sym, arith}
use package.avaria.Prelude.{◌==◌, List, [], ◌∷◌, ◌++◌, if_Has_both}
use mathlib.Core.Path.{subst}
use package.avaria.Shell.{
  Draw, wipe, Shell, press_key, shell_start, shell_keys, shell_start, shell_keys,
}
use package.avaria.Shell.Screen.{Screen, drawn, show, show_append}
use package.avaria.Shell.Line.{line_fresh, fresh-IsBlank}
use package.avaria.Shell.Pressed.{
  edit, Shows, After, other-After, backspace-After, enter-After, wiped,
}

-- One key.
pub press_key-Shows :
    (cols rows : ℕ) (s : Shell) (text : List ℕ) (screen : Screen) (ch : ℕ)
    → 8 < cols
    → cols < 2 ^ 64
    → Shows cols rows s text screen
    → Shows cols rows
        (press_key cols rows s ch).0
        (edit cols text ch)
        (show screen (press_key cols rows s ch).1)
unfolding press_key edit
press_key-Shows cols rows s text screen ch wide word h =
    if_Has_both (After cols rows screen) (ch == 0x0A)
      (λ e. enter-After cols rows screen s text wide h)
      λ e.
        if_Has_both (After cols rows screen) (ch == 0x08)
          (λ q. backspace-After cols rows screen s text h)
          λ q. other-After cols rows screen s text ch word h

-- The text after keys in turn.
unfoldable pub edit_all : ℕ → List ℕ → List ℕ → List ℕ
unfolding edit
edit_all cols text [] = text
edit_all cols text (ch ∷ chs) = edit_all cols (edit cols text ch) chs

keys-Shows :
    (cols rows : ℕ) (before : Screen) (r : Shell × List Draw) (text keys : List ℕ)
    → 8 < cols
    → cols < 2 ^ 64
    → Shows cols rows r.0 text (show before r.1)
    → Shows cols rows
        (shell_keys cols rows r keys).0
        (edit_all cols text keys)
        (show before (shell_keys cols rows r keys).1)
unfolding shell_keys edit_all
keys-Shows cols rows before r text [] wide word h = h
keys-Shows cols rows before (s, ds) text (ch ∷ chs) wide word h =
    let pressed = press_key cols rows s ch in
    let now = press_key-Shows cols rows s text (show before ds) ch wide word h in
    keys-Shows cols rows before (pressed.0, ds ++ pressed.1) (edit cols text ch) chs wide word
      (subst (λ g. Shows cols rows pressed.0 (edit cols text ch) g)
        (sym (show_append before ds pressed.1)) now)

start-Shows :
    (cols rows : ℕ) (before : Screen)
    → 8 < cols
    → 0 < rows
    → Shows cols rows shell_start.0 [] (show before shell_start.1)
unfolding show
start-Shows cols rows before wide high =
    let blank : Screen = drawn before wipe in
    let all_blank = wiped before in
    record {
      buffer = refl;
      holds = refl;
      short = omega arith;
      col = refl;
      col_in = wide;
      row_in = high;
      line = line_fresh blank 0 all_blank;
      below = fresh-IsBlank blank 0 all_blank;
    }

-- On a grid of one row and nine columns at least, whose number of columns fits 64 bits, whatever was
-- on the screen before and whatever keys come: the console holds the text that an editor of one line
-- makes of the keys, the cursor is in the grid, the cursor's row shows the prompt, the text and the
-- cursor and nothing else, and the rows below it are blank.
pub shell_keys-Shows :
    (cols rows : ℕ) (before : Screen) (keys : List ℕ)
    → 8 < cols
    → cols < 2 ^ 64
    → 0 < rows
    → Shows cols rows
        (shell_keys cols rows shell_start keys).0
        (edit_all cols [] keys)
        (show before (shell_keys cols rows shell_start keys).1)
shell_keys-Shows cols rows before keys wide word high =
    keys-Shows cols rows before shell_start [] keys wide word
      (start-Shows cols rows before wide high)
