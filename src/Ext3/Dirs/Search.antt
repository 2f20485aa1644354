-- ===== src/Ext3/Dirs/Search.antt =====
-- What the look-up of a name in a directory finds (`find_in_dir_data` of `src/kern/fs/ext3/dir.rs`).
use avaria.Prelude.{
  ℕ, zero, suc, ◌+◌, ◌≤◌, ◌≡◌, ◌≢◌, refl, arith, true, false, Bool-cases, inl, inr,
}
use avaria.Prelude.{
  ◌<◌, ap, sym, ◌∙◌, [], ◌∷◌, get_or, take, drop, le_field, bytes_equal, bytes_equal→≡, length-take,
  length-drop, ==→≡,
}
use avaria.Prelude.{◌==◌, ==→≢, ≡→==, ≢→==, ltb, ltb→le, le→ltb, List, length}
use avaria.Ext3.Dirs.{entry_at, is_named, find_entry, find_in_dir_data}

-- The entry at `off` is in use, and its name is `name`, by the bytes of the data: the inode is in the first
-- four, the length of the name in the seventh, and the name from the ninth on.
pub record Named (bytes name : List ℕ) (off : ℕ) : Type 0 where
  pub used : le_field bytes off 4 ≢ 0
  pub size : get_or bytes (off + 6) 0 ≡ length name
  pub same : (k : ℕ) → k < length name → get_or bytes (off + 8 + k) 0 ≡ get_or name k 0

-- `ino` is the inode of the first entry with the name, in the chain of entries from `off` on; an entry
-- gives the distance to the next in its fifth and sixth byte, and the chain ends at the end of the data
-- or at an entry of length 0. Names lie inside the data.
pub data IsFirst (bytes name : List ℕ) (ino : ℕ) : ℕ → Type 0 where
  here :
      {off : ℕ}
      → off + 8 ≤ length bytes
      → le_field bytes (off + 4) 2 ≢ 0
      → Named bytes name off
      → le_field bytes off 4 ≡ ino
      → IsFirst bytes name ino off
  later :
      {off : ℕ}
      → off + 8 ≤ length bytes
      → le_field bytes (off + 4) 2 ≢ 0
      → (Named bytes name off → ⊥)
      → IsFirst bytes name ino (off + le_field bytes (off + 4) 2)
      → IsFirst bytes name ino off

-- The places of the entries in the data of a directory.
pub data Visits (bytes : List ℕ) : ℕ → Type 0 where
  start : Visits bytes 0
  onwards : {off : ℕ} → Visits bytes off → Visits bytes (off + (entry_at bytes off).rec_len)

-- Every name lies inside the data, as the format has it.
abbrev pub NamesFit : List ℕ → Type 0
NamesFit bytes =
    (off : ℕ)
    → Visits bytes off
    → off + 8 ≤ length bytes
    → off + 8 + (entry_at bytes off).name_len ≤ length bytes

get_or-slice :
    (xs : List ℕ) (at n k : ℕ) → k < n → get_or (take n (drop at xs)) k 0 ≡ get_or xs (at + k) 0
get_or-slice [] zero zero k lt = absurd (omega arith)
get_or-slice [] zero (suc n) k lt = refl
get_or-slice [] (suc at) zero k lt = absurd (omega arith)
get_or-slice [] (suc at) (suc n) k lt = refl
get_or-slice (x ∷ xs) zero zero k lt = absurd (omega arith)
get_or-slice (x ∷ xs) zero (suc n) zero lt = refl
get_or-slice (x ∷ xs) zero (suc n) (suc k) lt =
    get_or-slice xs 0 n k (omega arith)
    ∙ ap (λ i. get_or (x ∷ xs) i 0) (let e : suc (0 + k) ≡ 0 + suc k = omega arith in e)
get_or-slice (x ∷ xs) (suc at) n k lt =
    get_or-slice xs at n k lt
    ∙ ap (λ i. get_or (x ∷ xs) i 0) (let e : suc (at + k) ≡ suc at + k = omega arith in e)

same_bytes :
    (xs ys : List ℕ)
    → length xs ≡ length ys
    → ((k : ℕ) → k < length ys → get_or xs k 0 ≡ get_or ys k 0)
    → bytes_equal xs ys ≡ true
same_bytes [] [] size same = refl
same_bytes [] (y ∷ ys) size same = absurd (omega (arith, size))
same_bytes (x ∷ xs) [] size same = absurd (omega (arith, size))
same_bytes (x ∷ xs) (y ∷ ys) size same =
    let first : x ≡ y = same 0 (omega arith) in
    rw (≡→== x y first)
      (same_bytes xs ys (omega (arith, size)) (λ k lt. same (suc k) (omega arith)))

-- What `is_named` says of a name inside the data.
module _ (bytes name : List ℕ) (off : ℕ)
    (room : off + 8 + (entry_at bytes off).name_len ≤ length bytes) where
  is_named→Named : is_named bytes name off ≡ true → Named bytes name off
  is_named→Named e = elim (Bool-cases ((entry_at bytes off).inode == 0)) [
    | inl z ↦ let bad : false ≡ true = (rw z at e) in absurd (cc)
    | inr z ↦ elim (Bool-cases ((entry_at bytes off).name_len == length name)) [
      | inr n ↦ let bad : false ≡ true = (rw (z, n) at e) in absurd (cc)
      | inl n ↦
          let size = ==→≡ (entry_at bytes off).name_len (length name) n in
          let equal : take (entry_at bytes off).name_len (drop (off + 8) bytes) ≡ name =
            bytes_equal→≡ _ _ (rw (z, n) at e) in
          record {
            used = ==→≢ (entry_at bytes off).inode 0 z;
            size = size;
            same = λ k lt.
                sym (
                  get_or-slice bytes (off + 8) (entry_at bytes off).name_len k
                    (omega (arith, size)))
                ∙ ap (λ l. get_or l k 0) equal;
          }
    ]
  ]

  is_named_lem : Named bytes name off → is_named bytes name off ≡ true
  is_named_lem n =
      let size = n.size in
      let equal : bytes_equal (take (entry_at bytes off).name_len (drop (off + 8) bytes)) name
          ≡ true =
        same_bytes _ name
          (omega (
            arith,
            room,
            size,
            length-take (entry_at bytes off).name_len (drop (off + 8) bytes),
            length-drop (off + 8) bytes,
          ))
          (λ k lt.
            get_or-slice bytes (off + 8) (entry_at bytes off).name_len k (omega (arith, size))
            ∙ n.same k lt) in
      rw (≢→== (entry_at bytes off).inode 0 n.used, ≡→== _ _ size, equal) refl

  unnamed : is_named bytes name off ≡ false → Named bytes name off → ⊥
  unnamed e n = let bad : true ≡ false = sym (is_named_lem n) ∙ e in absurd (cc)

  unnamed-false : (Named bytes name off → ⊥) → is_named bytes name off ≡ false
  unnamed-false other = elim (Bool-cases (is_named bytes name off)) [
    | inl e ↦ absurd (other (is_named→Named e))
    | inr e ↦ e
  ]

module _ (bytes name : List ℕ) (fits : NamesFit bytes) where
  find_entry_sound :
      (fuel off : ℕ)
      → Visits bytes off
      → find_entry bytes name fuel off ≢ 0
      → IsFirst bytes name (find_entry bytes name fuel off) off
  unfolding find_entry
  find_entry_sound zero off v ne = absurd (ne refl)
  find_entry_sound (suc fuel) off v ne = elim (Bool-cases (ltb (length bytes) (off + 8))) [
    | inl e ↦ absurd (ne (rw e refl))
    | inr e ↦ elim (Bool-cases ((entry_at bytes off).rec_len == 0)) [
      | inl z ↦ absurd (ne (rw (e, z) refl))
      | inr z ↦
          let room = fits off v (ltb→le _ _ e) in
          elim (Bool-cases (is_named bytes name off)) [
            | inl n ↦
                rw (e, z, n)
                  (here (ltb→le _ _ e) (==→≢ _ 0 z) (is_named→Named bytes name off room n) refl)
            | inr n ↦
                rw (e, z, n)
                  (later (ltb→le _ _ e) (==→≢ _ 0 z) (unnamed bytes name off room n) (
                    find_entry_sound fuel (off + (entry_at bytes off).rec_len) (onwards v)
                      (rw (e, z, n) at ne)))
          ]
    ]
  ]

  find_entry_complete :
      (fuel : ℕ) {off ino : ℕ}
      → Visits bytes off
      → length bytes ≤ off + fuel
      → IsFirst bytes name ino off
      → find_entry bytes name fuel off ≡ ino
  unfolding find_entry
  find_entry_complete zero v enough (here room step named same) = absurd (omega arith)
  find_entry_complete zero v enough (later room step named rest) = absurd (omega arith)
  find_entry_complete (suc fuel) {off} v enough (here room step named same) =
      let found = is_named_lem bytes name off (fits off v room) named in
      rw (le→ltb (length bytes) (off + 8) room, ≢→== (entry_at bytes off).rec_len 0 step, found)
        same
  find_entry_complete (suc fuel) {off} v enough (later room step named rest) =
      let missed = unnamed-false bytes name off (fits off v room) named in
      rw (le→ltb (length bytes) (off + 8) room, ≢→== (entry_at bytes off).rec_len 0 step, missed)
        (find_entry_complete fuel (onwards v) (omega (arith, step)) rest)

  -- Where every name lies inside the data: `find_in_dir_data` returns the inode of the first entry that is
  -- in use and whose name is the given one byte for byte, if it returns one; and when there is such an
  -- entry in the chain, it returns the first one's. As many rounds as there are bytes are enough, whatever
  -- lengths the entries claim.
  pub find_in_dir_data-IsFirst :
      (find_in_dir_data bytes name ≢ 0 → IsFirst bytes name (find_in_dir_data bytes name) 0)
      × ((ino : ℕ) → IsFirst bytes name ino 0 → find_in_dir_data bytes name ≡ ino)
  unfolding find_in_dir_data
  find_in_dir_data-IsFirst = (
    find_entry_sound (length bytes) 0 start,
    λ ino first. find_entry_complete (length bytes) start (omega arith) first,
  )
