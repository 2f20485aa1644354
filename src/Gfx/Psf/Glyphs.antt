-- ===== src/Gfx/Psf/Glyphs.antt =====
-- Every code point has a glyph, and text stays on the screen (`src/kern/gfx/psf.rs`).
use avaria.Prelude.{
  ℕ, zero, suc, ◌+◌, add_w, ◌*◌, ◌%◌, ◌^◌, ◌<◌, ◌≤◌, ◌≡◌, arith, Bool, true, false, not, Bool-cases,
  Option-cases, inl, inr,
}
use avaria.Prelude.{ltb, leb, ltb→lt, ltb→le, ◌==◌, if◌then◌else◌, none, some, List, [], ◌∷◌, ◌++◌}
use avaria.Prelude.{length, take, drop, length-take, length-drop, test_bit, ◌&&◌, ◌||◌, get_or}
use avaria.Gfx.Frame.{Framebuffer, Pixels}
use avaria.Gfx.Frame.Bounds.{IsLaidOut, AllBelow, no_write, append-AllBelow, put_pixel-AllBelow}
use avaria.Gfx.Psf.{
  PsfFont, UnicodeMap, insert, lookup, read_table, parse, glyph_index, or_question_mark, draw_row,
  draw_rows, draw_char,
}
use avaria.Gfx.Psf.{draw_from, draw_str}

-- All glyphs of a table are below `n`.
pub data Names (n : ℕ) : UnicodeMap → Type 0 where
  no_name : Names n []
  one_name : {c g : ℕ} {m : UnicodeMap} → g < n → Names n m → Names n ((c, g) ∷ m)

-- A font with the bytes of all its glyphs, whose table names glyphs that it has.
pub record IsValid (font : PsfFont) : Type 0 where
  pub enough : 256 ≤ font.num_glyphs
  pub bytes : length font.glyphs ≡ font.num_glyphs * font.charsize
  pub named : Names font.num_glyphs font.unicode_map

append-Names : {n : ℕ} {m : UnicodeMap} (c g : ℕ) → Names n m → g < n → Names n (m ++ ((c, g) ∷ []))
append-Names c g no_name lt = one_name lt no_name
append-Names c g (one_name h rest) lt = one_name h (append-Names c g rest lt)

insert-Names : {n : ℕ} {m : UnicodeMap} (c g : ℕ) → Names n m → g < n → Names n (insert m c g)
unfolding insert
insert-Names {m} c g names lt = elim (Bool-cases (ltb (length m) 512)) [
  | inl e ↦ rw e (append-Names c g names lt)
  | inr e ↦ rw e names
]

read_table-Names :
    (n : ℕ) (table : List ℕ) (glyph_idx : ℕ) {m : UnicodeMap}
    → Names n m
    → Names n (read_table n table glyph_idx m)
unfolding read_table
read_table-Names n [] glyph_idx names = names
read_table-Names n (lo ∷ []) glyph_idx names = names
read_table-Names n (lo ∷ hi ∷ table) glyph_idx {m} names = elim (Bool-cases (ltb glyph_idx n)) [
  | inr e ↦ rw e names
  | inl e ↦
      let v = lo + 256 * hi in
      let skip = v == 0xFFFF || v == 0xFFFE in
      let more : Names n (if skip then m else insert m v glyph_idx) = elim (Bool-cases skip) [
        | inl s ↦ rw s names
        | inr s ↦ rw s (insert-Names v glyph_idx names (ltb→lt _ _ e))
      ] in
      rw e (read_table-Names n table _ more)
]

lookup-lt : {n : ℕ} {m : UnicodeMap} (c : ℕ) {g : ℕ} → Names n m → lookup m c ≡ some g → g < n
unfolding lookup
lookup-lt c no_name e = absurd (cc)
lookup-lt c {g} (one_name {c = d} {g = h} lt rest) e = elim (Bool-cases (d == c)) [
  | inl q ↦ let both : some h ≡ some g = (rw q at e) in let same : h ≡ g = cc in rw (← same) lt
  | inr q ↦ lookup-lt c rest (rw q at e)
]

found-lt :
    {n : ℕ} {m : UnicodeMap} (c : ℕ) → 256 ≤ n → Names n m → or_question_mark (lookup m c) < n
found-lt {m} c many names = elim (Option-cases (lookup m c)) [
  | inl e ↦ rw e (omega arith)
  | inr (g, e) ↦ rw e (lookup-lt c names e)
]

-- A font that `parse` accepts has all the bytes of its glyphs, 256 glyphs or more, and a table of
-- code points that names no other glyph.
parse-IsValid : (bytes : List ℕ) (font : PsfFont) → parse bytes ≡ some font → IsValid font
unfolding parse
parse-IsValid bytes font e =
    let bad =
      ltb (length bytes) 4 || not (get_or bytes 0 0 == 0x36) || not (get_or bytes 1 0 == 0x04) in
    let charsize = get_or bytes 3 0 in
    let num : ℕ = if test_bit (get_or bytes 2 0) 0 then 512 else 256 in
    let table = drop (4 + num * charsize) bytes in
    elim (Bool-cases bad) [
      | inl q ↦ let no : none ≡ some font = (rw q at e) in absurd (cc)
      | inr q ↦ elim (Bool-cases (ltb (length bytes) (4 + num * charsize))) [
        | inl q' ↦ let no : none ≡ some font = (rw (q, q') at e) in absurd (cc)
        | inr q' ↦
            let room = ltb→le _ _ q' in
            let map = if test_bit (get_or bytes 2 0) 1 then read_table num table 0 [] else [] in
            let made : PsfFont = record {
              glyphs = take (num * charsize) (drop 4 bytes);
              charsize = charsize;
              width = 8;
              height = charsize;
              num_glyphs = num;
              unicode_map = map;
            } in
            let both : some made ≡ some font = (rw (q, q') at e) in
            let same : made ≡ font = cc in
            let names : Names num map = elim (Bool-cases (test_bit (get_or bytes 2 0) 1)) [
              | inl u ↦ rw u (read_table-Names num table 0 no_name)
              | inr u ↦ rw u no_name
            ] in
            rw (← same) (record {
              enough = ground arith;
              bytes =
                  omega (arith, length-take (num * charsize) (drop 4 bytes), length-drop 4 bytes);
              named = names;
            })
      ]
    ]

-- Every code point has a glyph in a valid font, so that `draw_char` never leaves one out, and the
-- bytes of that glyph are bytes of the font.
pub glyph_index-inside :
    (font : PsfFont) (codepoint : ℕ)
    → IsValid font
    → (glyph_index font codepoint < font.num_glyphs)
      × (glyph_index font codepoint * font.charsize + font.charsize ≤ length font.glyphs)
unfolding glyph_index
glyph_index-inside font codepoint v =
    let found = or_question_mark (lookup font.unicode_map (codepoint % 2 ^ 16)) in
    let lt = found-lt (codepoint % 2 ^ 16) v.enough v.named in
    let idx = if ltb codepoint 0x80 && ltb codepoint font.num_glyphs then codepoint else found in
    let inside : idx < font.num_glyphs =
      elim (Bool-cases (ltb codepoint 0x80 && ltb codepoint font.num_glyphs)) [
        | inr e ↦ rw e lt
        | inl e ↦ rw e (ground (arith, e))
      ] in
    let room : idx * font.charsize + font.charsize ≤ font.num_glyphs * font.charsize =
      grind arith in
    (inside, rw v.bytes room)

if-AllBelow :
    {limit : ℕ} {ws vs : Pixels} (b : Bool)
    → AllBelow limit ws
    → AllBelow limit vs
    → AllBelow limit (if b then ws else vs)
if-AllBelow true w v = w
if-AllBelow false w v = v

module _ (font : PsfFont) (fb : Framebuffer) (laid : IsLaidOut fb) where
  draw_row-AllBelow :
      (left col x y bits fg bg : ℕ)
      → AllBelow (fb.height * fb.pitch) (draw_row fb left col x y bits fg bg)
  unfolding draw_row
  draw_row-AllBelow zero col x y bits fg bg = no_write
  draw_row-AllBelow (suc left) col x y bits fg bg =
      append-AllBelow (put_pixel-AllBelow fb laid (add_w 64 x col) y _ _ _)
        (draw_row-AllBelow left (col + 1) x y bits fg bg)

  draw_rows-AllBelow :
      (glyph : List ℕ) (left row width x y fg bg : ℕ)
      → AllBelow (fb.height * fb.pitch) (draw_rows fb glyph left row width x y fg bg)
  unfolding draw_rows
  draw_rows-AllBelow glyph zero row width x y fg bg = no_write
  draw_rows-AllBelow glyph (suc left) row width x y fg bg =
      append-AllBelow (draw_row-AllBelow width 0 x (add_w 64 y row) (get_or glyph row 0) fg bg)
        (draw_rows-AllBelow glyph left (row + 1) width x y fg bg)

  draw_char-AllBelow :
      (x y c fg bg : ℕ) → AllBelow (fb.height * fb.pitch) (draw_char font fb x y c fg bg)
  unfolding draw_char
  draw_char-AllBelow x y c fg bg = elim (Bool-cases (leb font.num_glyphs (glyph_index font c))) [
    | inl e ↦ rw e no_write
    | inr e ↦ rw e (draw_rows-AllBelow _ font.height 0 font.width x y fg bg)
  ]

  draw_from-AllBelow :
      (x cx cy : ℕ) (s : List ℕ) (fg bg : ℕ)
      → AllBelow (fb.height * fb.pitch) (draw_from font fb x cx cy s fg bg)
  unfolding draw_from
  draw_from-AllBelow x cx cy [] fg bg = no_write
  draw_from-AllBelow x cx cy (ch ∷ s) fg bg =
      let newline = ch == b'\n' in
      let wraps = newline || ltb fb.width (add_w 64 cx font.width) in
      let px = if wraps then x else cx in
      let py = if wraps then add_w 64 cy font.height else cy in
      let rest = draw_from-AllBelow x (if newline then px else add_w 64 px font.width) py s fg bg in
      if-AllBelow newline rest (
        if-AllBelow (ltb fb.height (add_w 64 py font.height)) no_write
          (append-AllBelow (draw_char-AllBelow px py ch fg bg) rest))

  -- On a frame buffer whose rows hold their pixels, of three bytes or more each, every byte that
  -- `draw_str` writes, for any text and any position, lies in the `height * pitch` bytes of the
  -- frame buffer.
  pub draw_str-AllBelow :
      (x y : ℕ) (s : List ℕ) (fg bg : ℕ)
      → AllBelow (fb.height * fb.pitch) (draw_str font fb x y s fg bg)
  unfolding draw_str
  draw_str-AllBelow x y s fg bg = draw_from-AllBelow x x y s fg bg
