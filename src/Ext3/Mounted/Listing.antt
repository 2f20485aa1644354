-- ===== src/Ext3/Mounted/Listing.antt =====
-- What a directory lists is what a look-up in it finds (`src/kern/fs/ext3/dir.rs`).
use package.avaria.Prelude.{
  ℕ, zero, suc, ◌+◌, ◌≤◌, ◌≡◌, refl, ap, ◌∙◌, arith, false, Bool-cases, inl, inr,
}
use package.avaria.Prelude.{
  ◌==◌, ≡→==, ltb, ltb→le, List, [], ◌∷◌, length, take, drop, length-take, length-drop,
}
use package.avaria.Prelude.{if◌then◌else◌, Option, none, some, bytes_equal, bytes_equal→≡}
use package.avaria.Mm.Heap.{Heap}
use package.avaria.Ext3.Disk.{Disk, Superblock}
use package.avaria.Ext3.Inodes.{Inode, is_dir, read_inode_data}
use package.avaria.Ext3.Dirs.{entry_at, is_named, find_entry, look_in, lookup}
use package.avaria.Ext3.Dirs.Search.{Visits, start, onwards, NamesFit}
use package.avaria.Ext3.Mounted.{Listed, entries_from, list_in, for_each_entry}

-- The inode of the first listed entry with a name, 0 if none has it.
pub first_ino : List ℕ → List Listed → ℕ
first_ino name [] = 0
first_ino name (e ∷ es) = if bytes_equal e.name name then e.ino else first_ino name es

abbrev name_at : List ℕ → ℕ → List ℕ
name_at bytes off = take (entry_at bytes off).name_len (drop (off + 8) bytes)

-- An entry in use has the name that is looked for exactly when its listed name is that name.
is_named-listed :
    (bytes name : List ℕ) (off : ℕ)
    → off + 8 + (entry_at bytes off).name_len ≤ length bytes
    → ((entry_at bytes off).inode == 0) ≡ false
    → is_named bytes name off ≡ bytes_equal (name_at bytes off) name
is_named-listed bytes name off fits used =
    elim (Bool-cases (bytes_equal (name_at bytes off) name)) [
      | inl e ↦
          let size : (entry_at bytes off).name_len ≡ length name = omega (
            arith,
            length-take (entry_at bytes off).name_len (drop (off + 8) bytes),
            length-drop (off + 8) bytes,
            ap (λ (l : List ℕ). length l) (bytes_equal→≡ (name_at bytes off) name e),
          ) in
          rw (used, ≡→== _ _ size, e) refl
      | inr e ↦ elim (Bool-cases ((entry_at bytes off).name_len == length name)) [
        | inl s ↦ rw (used, s, e) refl
        | inr s ↦ rw (used, s, e) refl
      ]
    ]

module _ (bytes name : List ℕ) (fits : NamesFit bytes) where
  find_entry-listed :
      (fuel off : ℕ)
      → Visits bytes off
      → find_entry bytes name fuel off ≡ first_ino name (entries_from bytes fuel off)
  unfolding find_entry entries_from first_ino
  find_entry-listed zero off v = refl
  find_entry-listed (suc fuel) off v = elim (Bool-cases (ltb (length bytes) (off + 8))) [
    | inl e ↦ rw e refl
    | inr e ↦ elim (Bool-cases ((entry_at bytes off).rec_len == 0)) [
      | inl z ↦ rw (e, z) refl
      | inr z ↦
          let rest = find_entry-listed fuel (off + (entry_at bytes off).rec_len) (onwards v) in
          elim (Bool-cases ((entry_at bytes off).inode == 0)) [
            | inl free ↦ rw (e, z, free) rest
            | inr used ↦
                let same = is_named-listed bytes name off (fits off v (ltb→le _ _ e)) used in
                elim (Bool-cases (bytes_equal (name_at bytes off) name)) [
                  | inl b ↦ let found = same ∙ b in rw (e, z, found, used, b) refl
                  | inr b ↦ let other = same ∙ b in rw (e, z, other, used, b) rest
                ]
          ]
    ]
  ]

look_in-listed :
    (name : List ℕ) (r : Heap × Option (ℕ × List ℕ))
    → ((buf : ℕ) (bytes : List ℕ) → r.1 ≡ some (buf, bytes) → NamesFit bytes)
    → ((look_in name r).0 ≡ (list_in r).0) × ((look_in name r).1 ≡ first_ino name (list_in r).1)
unfolding look_in list_in first_ino
look_in-listed name (h, none) fits = (refl, refl)
look_in-listed name (h, some (buf, bytes)) fits =
    (refl, find_entry-listed bytes name (fits buf bytes refl) (length bytes) 0 start)

-- For a directory whose data holds the names of its entries whole: `lookup` of a name answers the inode
-- of the first entry with that name that `for_each_entry` lists, or 0 if it lists none, and both leave
-- the heap alike.
pub lookup-listed :
    (disk : Disk) (sb : Superblock) (h : Heap) (inode : Inode) (name : List ℕ)
    → ((buf : ℕ) (bytes : List ℕ)
        → (read_inode_data disk sb h inode).1 ≡ some (buf, bytes)
        → NamesFit bytes)
    → ((lookup disk sb h inode name).0 ≡ (for_each_entry disk sb h inode).0)
      × ((lookup disk sb h inode name).1 ≡ first_ino name (for_each_entry disk sb h inode).1)
unfolding lookup for_each_entry first_ino
lookup-listed disk sb h inode name fits = elim (Bool-cases (is_dir inode)) [
  | inl e ↦ rw e (look_in-listed name (read_inode_data disk sb h inode) fits)
  | inr e ↦ rw e (refl, refl)
]
