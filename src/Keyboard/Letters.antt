-- ===== src/Keyboard/Letters.antt =====
-- The two tables and the caps lock agree on the letters (`process_scancode` of `src/kern/drv/ps2/mod.rs`).
use avaria.Prelude.{ℕ, ◌-◌, ◌<◌, ◌≤◌, ◌≡◌, refl, Bool, true, false, not, ◌==◌, ==→≡, leb, le→leb}
use avaria.Prelude.{◌&&◌, if◌then◌else◌, get_or}
use avaria.Prelude.{all_below, all_below_sound}
use avaria.Keyboard.{key_char, scancode_table}

-- Whether the caps lock and the shift key together make capitals.
abbrev pub capital : Bool → Bool → Bool
capital true s = not s
capital false s = s

abbrev letter_ok : Bool → Bool → ℕ → Bool
letter_ok caps shift code =
    let base = get_or scancode_table code 0 in
    if leb b'a' base && leb base b'z'
    then key_char caps shift code == (if capital caps shift then base - 32 else base)
    else true

letters_checked : (caps shift : Bool) → all_below (letter_ok caps shift) 128 ≡ true
unfolding all_below key_char
letters_checked true true = refl
letters_checked true false = refl
letters_checked false true = refl
letters_checked false false = refl

-- A key whose unshifted character is a small letter gives the capital letter when exactly one of
-- the caps lock and the shift key is on, and the small letter otherwise.
pub key_char-letter :
    (caps shift : Bool) (code : ℕ)
    → code < 128
    → b'a' ≤ get_or scancode_table code 0
    → get_or scancode_table code 0 ≤ b'z'
    → key_char caps shift code ≡ (
        if capital caps shift
        then get_or scancode_table code 0 - 32
        else get_or scancode_table code 0)
key_char-letter caps shift code lt lo hi =
    let ok = all_below_sound (letter_ok caps shift) 128 (letters_checked caps shift) code lt in
    let base = get_or scancode_table code 0 in
    ==→≡ _ _ (rw (le→leb b'a' base lo, le→leb base b'z' hi) at ok)
