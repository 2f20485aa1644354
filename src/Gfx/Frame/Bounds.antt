-- ===== src/Gfx/Frame/Bounds.antt =====
-- Drawing of `src/kern/gfx/vesa.rs` stays in the frame buffer.
use avaria.Prelude.{ℕ, zero, suc, ◌+◌, ◌*◌, ◌<◌, ◌≤◌, arith, Bool-cases, inl, inr, leb, leb→lt}
use avaria.Prelude.{leb→le, [], ◌∷◌, ◌++◌}
use avaria.Gfx.Frame.{Framebuffer, Pixels, put_pixel, fill_row, fill_rows, fill_rect}

-- A pixel has three bytes, and the bytes that `put_pixel` writes of it lie in its row.
pub record IsLaidOut (fb : Framebuffer) : Type 0 where
  pub bytes : 3 ≤ fb.bpp
  pub row : fb.width * fb.bpp ≤ fb.pitch

-- All writes are below `limit`.
pub data AllBelow (limit : ℕ) : Pixels → Type 0 where
  no_write : AllBelow limit []
  one_write :
      {off v : ℕ} {ws : Pixels} → off < limit → AllBelow limit ws → AllBelow limit ((off, v) ∷ ws)

pub append-AllBelow :
    {limit : ℕ} {ws vs : Pixels} → AllBelow limit ws → AllBelow limit vs → AllBelow limit (ws ++ vs)
append-AllBelow no_write b = b
append-AllBelow (one_write lt a) b = one_write lt (append-AllBelow a b)

module _ (fb : Framebuffer) (v : IsLaidOut fb) where
  pub put_pixel-AllBelow :
      (x y r g b : ℕ) → AllBelow (fb.height * fb.pitch) (put_pixel fb x y r g b)
  unfolding put_pixel
  put_pixel-AllBelow x y r g b = elim (Bool-cases (leb fb.width x)) [
    | inl e ↦ rw e no_write
    | inr e ↦ elim (Bool-cases (leb fb.height y)) [
      | inl e' ↦ rw (e, e') no_write
      | inr e' ↦
          let across = leb→lt _ _ e in
          let down = leb→lt _ _ e' in
          let column : x * fb.bpp + fb.bpp ≤ fb.width * fb.bpp = grind arith in
          let line : y * fb.pitch + fb.pitch ≤ fb.height * fb.pitch = grind arith in
          let last : y * fb.pitch + x * fb.bpp + fb.bpp ≤ fb.height * fb.pitch =
            omega (arith, column, line, v.row) in
          elim (Bool-cases (leb 4 fb.bpp)) [
            | inl four ↦
                let wide = leb→le _ _ four in
                rw (e, e', four)
                  (one_write (omega (arith, last)) (
                    one_write (omega (arith, last))
                      (one_write (omega (arith, last)) (one_write (omega (arith, last)) no_write))))
            | inr three ↦
                rw (e, e', three)
                  (one_write (omega (arith, last, v.bytes)) (
                    one_write (omega (arith, last, v.bytes))
                      (one_write (omega (arith, last, v.bytes)) no_write)))
          ]
    ]
  ]

  fill_row-AllBelow :
      (left x y r g b : ℕ) → AllBelow (fb.height * fb.pitch) (fill_row fb left x y r g b)
  unfolding fill_row
  fill_row-AllBelow zero x y r g b = no_write
  fill_row-AllBelow (suc left) x y r g b =
      append-AllBelow (put_pixel-AllBelow x y r g b) (fill_row-AllBelow left (x + 1) y r g b)

  fill_rows-AllBelow :
      (left x0 y w r g b : ℕ) → AllBelow (fb.height * fb.pitch) (fill_rows fb left x0 y w r g b)
  unfolding fill_rows
  fill_rows-AllBelow zero x0 y w r g b = no_write
  fill_rows-AllBelow (suc left) x0 y w r g b =
      append-AllBelow (fill_row-AllBelow w x0 y r g b) (fill_rows-AllBelow left x0 (y + 1) w r g b)

  -- On a frame buffer whose rows hold their pixels, of three bytes or more each, every byte that
  -- `fill_rect` writes, for any rectangle, also one that reaches out of the screen, lies in the `height * pitch` bytes of the frame buffer.
  pub fill_rect-AllBelow :
      (x0 y0 w h r g b : ℕ) → AllBelow (fb.height * fb.pitch) (fill_rect fb x0 y0 w h r g b)
  unfolding fill_rect
  fill_rect-AllBelow x0 y0 w h r g b = fill_rows-AllBelow h x0 y0 w r g b
