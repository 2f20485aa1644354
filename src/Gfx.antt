-- ===== src/Gfx.antt =====
-- `src/kern/gfx`: the frame buffer (`vesa.rs`) and the bitmap font (`psf.rs`).
pub mod Frame
pub mod Psf
mod Tests
