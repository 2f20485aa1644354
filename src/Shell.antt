-- ===== src/Shell.antt =====
-- The console of `src/main.rs`: `shell_task_entry` and what it draws with. A key press gives the
-- drawings that it makes, oldest first.
pub mod Screen
pub mod Line
pub mod Pressed
pub mod Editor
mod Tests
use avaria.Prelude.{
  ℕ, zero, suc, ◌+◌, ◌-◌, ◌*◌, ◌/◌, Bool, ◌&&◌, ◌==◌, ltb, leb, if◌then◌else◌, Option, none, some,
}
use avaria.Prelude.{List, [], ◌∷◌, ◌++◌, set, take, length, replicate, sub_w}
use avaria.Gfx.Frame.{Framebuffer, Pixels, clear}
use avaria.Gfx.Psf.{PsfFont, draw_char}

abbrev pub shell_fg : ℕ
shell_fg = 0xFFFFFF

abbrev pub shell_bg : ℕ
shell_bg = 0x80

abbrev pub shell_prompt : List ℕ
shell_prompt = b'a' ∷ b'v' ∷ b'a' ∷ b'r' ∷ b'i' ∷ b'a' ∷ b'>' ∷ 0x20 ∷ []

-- One call of `shell_draw_at`, or of `clear`.
pub data Draw : Type 0 where
  cell : ℕ → ℕ → ℕ → Draw
  wipe : Draw

pub shell_draw_at : Option PsfFont → Framebuffer → ℕ → ℕ → ℕ → Pixels
unfolding draw_char
shell_draw_at none fb col row ch = []
shell_draw_at (some f) fb col row ch =
    draw_char f fb (8 + col * 8) (8 + row * 16) ch shell_fg shell_bg

-- What a drawing writes to the frame buffer.
pub paint : Option PsfFont → Framebuffer → Draw → Pixels
unfolding shell_draw_at clear
paint font fb (cell col row ch) = shell_draw_at font fb col row ch
paint font fb wipe = clear fb 0 0 0x80

-- The characters of a text from column `col` of a row on.
unfoldable pub draw_text : ℕ → ℕ → List ℕ → List Draw
draw_text row col [] = []
draw_text row col (ch ∷ chs) = cell col row ch ∷ draw_text row (col + 1) chs

abbrev pub shell_draw_prompt : ℕ → List Draw
shell_draw_prompt row = draw_text row 0 shell_prompt

abbrev pub line_max : ℕ
line_max = 256

-- The local variables of `shell_task_entry`.
pub record Shell : Type 0 where
  pub line_buf : List ℕ
  pub line_len : ℕ
  pub cur_row : ℕ
  pub cur_col : ℕ

-- `cols` and `rows`, of a frame buffer that is 16 pixels wide and high at least.
abbrev pub grid_cols : Framebuffer → ℕ
grid_cols fb = (fb.width - 8 * 2) / 8

abbrev pub grid_rows : Framebuffer → ℕ
grid_rows fb = (fb.height - 8 * 2) / 16

abbrev pub prompt_len : ℕ
prompt_len = 8

-- The prompt of a new line and its cursor.
abbrev pub fresh_line : ℕ → List Draw
fresh_line row = shell_draw_prompt row ++ (cell prompt_len row b'_' ∷ [])

abbrev pub shell_start : Shell × List Draw
shell_start = (
  record { line_buf = replicate 256 0; line_len = 0; cur_row = 0; cur_col = prompt_len },
  wipe ∷ fresh_line 0,
)

-- `cur_row += 1`, and back to the top of a cleared screen at the end.
unfoldable pub next_row : ℕ → ℕ → ℕ × List Draw
next_row rows row = if leb rows (row + 1) then (0, wipe ∷ []) else (row + 1, [])

-- The line is repeated below when it is not empty.
unfoldable pub echo : ℕ → Shell → ℕ → ℕ × List Draw
unfolding draw_text next_row
echo rows s row =
    let (row', drawn) = next_row rows row in
    if ltb 0 s.line_len
    then (
      row',
      draw_text row 0 (b'>' ∷ 0x20 ∷ []) ++ (draw_text row 2 (take s.line_len s.line_buf) ++ drawn),
    )
    else (row, [])

unfoldable pub press_enter : ℕ → Shell → Shell × List Draw
unfolding next_row echo
press_enter rows s =
    let (row1, drawn1) = next_row rows s.cur_row in
    let (row2, drawn2) = echo rows s row1 in
    (
      record s { line_len = 0; cur_row = row2; cur_col = prompt_len },
      cell s.cur_col s.cur_row 0x20 ∷ (drawn1 ++ (drawn2 ++ fresh_line row2)),
    )

unfoldable pub press_backspace : Shell → Shell × List Draw
press_backspace s =
    if ltb 0 s.line_len
    then (
      record s { line_len = s.line_len - 1; cur_col = s.cur_col - 1 },
      cell s.cur_col s.cur_row 0x20 ∷ cell (s.cur_col - 1) s.cur_row b'_' ∷ [],
    )
    else (s, [])

unfoldable pub press_other : ℕ → Shell → ℕ → Shell × List Draw
press_other cols s ch =
    if ltb s.line_len (line_max - 1) && ltb s.cur_col (sub_w 64 cols 1)
    then (
      record s {
        line_buf = set s.line_buf s.line_len ch;
        line_len = s.line_len + 1;
        cur_col = s.cur_col + 1;
      },
      cell s.cur_col s.cur_row ch ∷ cell (s.cur_col + 1) s.cur_row b'_' ∷ [],
    )
    else (s, [])

-- The body of the loop, for a key.
unfoldable pub press_key : ℕ → ℕ → Shell → ℕ → Shell × List Draw
unfolding press_enter press_backspace press_other
press_key cols rows s ch =
    if ch == 0x0A
    then press_enter rows s
    else if ch == 0x08
    then press_backspace s
    else press_other cols s ch

-- The loop, for the keys that come: the drawings so far, and those of each key after them.
unfoldable pub shell_keys : ℕ → ℕ → Shell × List Draw → List ℕ → Shell × List Draw
unfolding press_key
shell_keys cols rows r [] = r
shell_keys cols rows (s, ds) (ch ∷ chs) =
    let (s', more) = press_key cols rows s ch in shell_keys cols rows (s', ds ++ more) chs
