-- ===== src/Ext3/Dirs/Tests.antt =====
-- A look-up in a directory of two entries.
use avaria.Prelude.{ℕ, ◌≡◌, ◌≢◌, ◌⊎◌, ◌≤◌, inl, inr, arith, refl, List, [], ◌∷◌}
use avaria.Ext3.Dirs.{find_in_dir_data}
use avaria.Ext3.Dirs.Search.{Visits, start, onwards, NamesFit, IsFirst, find_in_dir_data-IsFirst}

-- `.`, inode 2, and `ab`, inode 11.
abbrev two_entries : List ℕ
two_entries =
    2 ∷ 0 ∷ 0 ∷ 0 ∷ 12 ∷ 0 ∷ 1 ∷ 2 ∷ b'.' ∷ 0 ∷ 0 ∷ 0 ∷ 11 ∷ 0 ∷ 0 ∷ 0 ∷ 12 ∷ 0 ∷ 2 ∷ 1 ∷ b'a'
    ∷ b'b' ∷ 0 ∷ 0 ∷ []

finds_second : find_in_dir_data two_entries (b'a' ∷ b'b' ∷ []) ≡ 11
unfolding find_in_dir_data
finds_second = refl

visited : {off : ℕ} → Visits two_entries off → (off ≡ 0) ⊎ ((off ≡ 12) ⊎ (24 ≤ off))
visited start = inl refl
visited (onwards {off} v) = elim (visited v) [
  | inl e ↦ inr (inl (rw e refl))
  | inr (inl e) ↦ inr (inr (rw e (omega arith)))
  | inr (inr le) ↦ inr (inr (omega arith))
]

names_inside : NamesFit two_entries
names_inside off v le = elim (visited v) [
  | inl e ↦ rw e (omega arith)
  | inr (inl e) ↦ rw e (omega arith)
  | inr (inr far) ↦ absurd (omega arith)
]

find_in_dir_data-IsFirst_example :
    (find_in_dir_data two_entries (b'a' ∷ b'b' ∷ []) ≢ 0
      → IsFirst two_entries (b'a' ∷ b'b' ∷ []) (find_in_dir_data two_entries (b'a' ∷ b'b' ∷ [])) 0)
    × ((ino : ℕ)
        → IsFirst two_entries (b'a' ∷ b'b' ∷ []) ino 0
        → find_in_dir_data two_entries (b'a' ∷ b'b' ∷ []) ≡ ino)
find_in_dir_data-IsFirst_example =
    find_in_dir_data-IsFirst two_entries (b'a' ∷ b'b' ∷ []) names_inside
