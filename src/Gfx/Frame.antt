-- ===== src/Gfx/Frame.antt =====
-- `src/kern/gfx/vesa.rs`. A drawing operation is the list of its writes, oldest first: the offset
-- from the start of the frame buffer, and the byte.
pub mod Bounds
use package.avaria.Prelude.{
  ℕ, zero, suc, ◌+◌, ◌*◌, ◌-◌, leb, ◌||◌, if◌then◌else◌, List, [], ◌∷◌, ◌++◌,
}

pub record Framebuffer : Type 0 where
  pub width : ℕ
  pub height : ℕ
  pub pitch : ℕ
  pub bpp : ℕ

abbrev pub Pixels : Type 0
Pixels = List (ℕ × ℕ)

unfoldable pub put_pixel : Framebuffer → ℕ → ℕ → ℕ → ℕ → ℕ → Pixels
put_pixel fb x y r g b =
    let off = y * fb.pitch + x * fb.bpp in
    if leb fb.width x || leb fb.height y
    then []
    else (off, b)
      ∷ (off + 1, g)
      ∷ (off + 2, r)
      ∷ (if leb 4 fb.bpp then (off + 3, 0xFF) ∷ [] else [])

-- One row of `fill_rect`, with `left` columns to go from `x`.
pub fill_row : Framebuffer → ℕ → ℕ → ℕ → ℕ → ℕ → ℕ → Pixels
unfolding put_pixel
fill_row fb zero x y r g b = []
fill_row fb (suc left) x y r g b = put_pixel fb x y r g b ++ fill_row fb left (x + 1) y r g b

-- The rows, with `left` of them to go from `y`.
pub fill_rows : Framebuffer → ℕ → ℕ → ℕ → ℕ → ℕ → ℕ → ℕ → Pixels
unfolding fill_row
fill_rows fb zero x0 y w r g b = []
fill_rows fb (suc left) x0 y w r g b =
    fill_row fb w x0 y r g b ++ fill_rows fb left x0 (y + 1) w r g b

unfoldable pub fill_rect : Framebuffer → ℕ → ℕ → ℕ → ℕ → ℕ → ℕ → ℕ → Pixels
unfolding fill_rows
fill_rect fb x0 y0 w h r g b = fill_rows fb h x0 y0 w r g b

unfoldable pub clear : Framebuffer → ℕ → ℕ → ℕ → Pixels
unfolding fill_rect
clear fb r g b = fill_rect fb 0 0 fb.width fb.height r g b
