-- ===== src/Gfx/Psf.antt =====
-- `src/kern/gfx/psf.rs`: the font, its table from code points to glyphs, and drawing with it.
pub mod Glyphs
use package.avaria.Prelude.{
  ℕ, zero, suc, ◌+◌, ◌*◌, ◌-◌, ◌/◌, ◌%◌, ◌^◌, ◌==◌, ltb, leb, Bool, true, false, not, ◌&&◌, ◌||◌,
}
use package.avaria.Prelude.{
  if◌then◌else◌, Option, none, some, List, [], ◌∷◌, ◌++◌, length, take, drop, get_or, add_w,
}
use package.avaria.Prelude.{bit_and, test_bit}
use package.avaria.Gfx.Frame.{Framebuffer, Pixels, put_pixel}

abbrev pub max_unicode_mappings : ℕ
max_unicode_mappings = 512

-- The entries in use, oldest first: code point and glyph. `len` is the list's length.
abbrev pub UnicodeMap : Type 0
UnicodeMap = List (ℕ × ℕ)

pub insert : UnicodeMap → ℕ → ℕ → UnicodeMap
insert m codepoint glyph =
    if ltb (length m) max_unicode_mappings then m ++ ((codepoint, glyph) ∷ []) else m

pub lookup : UnicodeMap → ℕ → Option ℕ
lookup [] codepoint = none
lookup ((c, g) ∷ m) codepoint =
    let rest = lookup m codepoint in if c == codepoint then some g else rest

pub record PsfFont : Type 0 where
  pub glyphs : List ℕ
  pub charsize : ℕ
  pub width : ℕ
  pub height : ℕ
  pub num_glyphs : ℕ
  pub unicode_map : UnicodeMap

-- The loop over the table of code points, which takes two bytes in each of its rounds.
pub read_table : ℕ → List ℕ → ℕ → UnicodeMap → UnicodeMap
unfolding insert
read_table num_glyphs [] glyph_idx m = m
read_table num_glyphs (lo ∷ []) glyph_idx m = m
read_table num_glyphs (lo ∷ hi ∷ table) glyph_idx m =
    let v = lo + 256 * hi in
    let idx' = if v == 0xFFFF then add_w 16 glyph_idx 1 else glyph_idx in
    let m' = if v == 0xFFFF || v == 0xFFFE then m else insert m v glyph_idx in
    let rest = read_table num_glyphs table idx' m' in if ltb glyph_idx num_glyphs then rest else m

unfoldable pub parse : List ℕ → Option PsfFont
unfolding read_table
parse bytes =
    let mode = get_or bytes 2 0 in
    let charsize = get_or bytes 3 0 in
    let num_glyphs = if test_bit mode 0 then 512 else 256 in
    let glyph_data_len = num_glyphs * charsize in
    let table = drop (4 + glyph_data_len) bytes in
    if ltb (length bytes) 4 || not (get_or bytes 0 0 == 0x36) || not (get_or bytes 1 0 == 0x04)
    then none
    else if ltb (length bytes) (4 + glyph_data_len)
    then none
    else some (record {
      glyphs = take glyph_data_len (drop 4 bytes);
      charsize = charsize;
      width = 8;
      height = charsize;
      num_glyphs = num_glyphs;
      unicode_map = if test_bit mode 1 then read_table num_glyphs table 0 [] else [];
    })

abbrev pub or_question_mark : Option ℕ → ℕ
or_question_mark none = b'?'
or_question_mark (some idx) = idx

pub glyph_index : PsfFont → ℕ → ℕ
unfolding lookup
glyph_index font codepoint =
    let found = or_question_mark (lookup font.unicode_map (codepoint % 2 ^ 16)) in
    if ltb codepoint 0x80 && ltb codepoint font.num_glyphs then codepoint else found

abbrev red : ℕ → ℕ
red c = c / 2 ^ 16 % 256

abbrev green : ℕ → ℕ
green c = c / 2 ^ 8 % 256

abbrev blue : ℕ → ℕ
blue c = c % 256

-- One row of a glyph, with `left` columns to go from `col`.
pub draw_row : Framebuffer → ℕ → ℕ → ℕ → ℕ → ℕ → ℕ → ℕ → Pixels
unfolding put_pixel
draw_row fb zero col x y bits fg bg = []
draw_row fb (suc left) col x y bits fg bg =
    let c = if test_bit bits (7 - col) then fg else bg in
    put_pixel fb (add_w 64 x col) y (red c) (green c) (blue c)
    ++ draw_row fb left (col + 1) x y bits fg bg

pub draw_rows : Framebuffer → List ℕ → ℕ → ℕ → ℕ → ℕ → ℕ → ℕ → ℕ → Pixels
unfolding draw_row
draw_rows fb glyph zero row width x y fg bg = []
draw_rows fb glyph (suc left) row width x y fg bg =
    draw_row fb width 0 x (add_w 64 y row) (get_or glyph row 0) fg bg
    ++ draw_rows fb glyph left (row + 1) width x y fg bg

unfoldable pub draw_char : PsfFont → Framebuffer → ℕ → ℕ → ℕ → ℕ → ℕ → Pixels
unfolding glyph_index draw_rows
draw_char font fb x y codepoint fg bg =
    let idx = glyph_index font codepoint in
    let glyph = take font.charsize (drop (idx * font.charsize) font.glyphs) in
    if leb font.num_glyphs idx then [] else draw_rows fb glyph font.height 0 font.width x y fg bg

-- The loop of `draw_str`, at the pen position `cx`, `cy`; the text is its code points.
pub draw_from : PsfFont → Framebuffer → ℕ → ℕ → ℕ → List ℕ → ℕ → ℕ → Pixels
unfolding draw_char
draw_from font fb x cx cy [] fg bg = []
draw_from font fb x cx cy (ch ∷ s) fg bg =
    let newline = ch == b'\n' in
    let wraps = newline || ltb fb.width (add_w 64 cx font.width) in
    let px = if wraps then x else cx in
    let py = if wraps then add_w 64 cy font.height else cy in
    let rest = draw_from font fb x (if newline then px else add_w 64 px font.width) py s fg bg in
    if newline
    then rest
    else if ltb fb.height (add_w 64 py font.height)
    then []
    else draw_char font fb px py ch fg bg ++ rest

pub draw_str : PsfFont → Framebuffer → ℕ → ℕ → List ℕ → ℕ → ℕ → Pixels
unfolding draw_from
draw_str font fb x y s fg bg = draw_from font fb x x y s fg bg
