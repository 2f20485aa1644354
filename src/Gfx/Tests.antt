-- ===== src/Gfx/Tests.antt =====
-- Drawing and fonts of `src/kern/gfx` on a small screen.
use avaria.Prelude.{ℕ, ◌≡◌, refl, arith, List, [], ◌∷◌, replicate, some}
use avaria.Gfx.Frame.{Framebuffer}
use avaria.Gfx.Frame.Bounds.{IsLaidOut, AllBelow}
use avaria.Gfx.Psf.{PsfFont, parse, draw_str}
use avaria.Gfx.Psf.Glyphs.{IsValid, no_name, draw_str-AllBelow}

abbrev screen : Framebuffer
screen = record { width = 16; height = 8; pitch = 64; bpp = 4 }

screen-IsLaidOut : IsLaidOut screen
screen-IsLaidOut = record { bytes = omega arith; row = omega arith }

-- A font of 256 glyphs of one byte.
abbrev font_file : List ℕ
font_file = 0x36 ∷ 0x04 ∷ 0 ∷ 1 ∷ replicate 256 0xFF

abbrev plain : PsfFont
plain = record {
  glyphs = replicate 256 0xFF;
  charsize = 1;
  width = 8;
  height = 1;
  num_glyphs = 256;
  unicode_map = [];
}

parses : parse font_file ≡ some plain
unfolding parse
parses = refl

plain-IsValid : IsValid plain
plain-IsValid = record { enough = omega arith; bytes = refl; named = no_name }

draw_str-AllBelow_example :
    AllBelow 512 (draw_str plain screen 4 0 (b'a' ∷ b'b' ∷ b'c' ∷ []) 0xFFFFFF 0)
draw_str-AllBelow_example =
    draw_str-AllBelow plain screen screen-IsLaidOut 4 0 (b'a' ∷ b'b' ∷ b'c' ∷ []) 0xFFFFFF 0
