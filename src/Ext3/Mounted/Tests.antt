-- ===== src/Ext3/Mounted/Tests.antt =====
-- A directory of two entries on a disk, listed and searched.
use package.avaria.Prelude.{
  ℕ, ◌≤◌, ◌≡◌, ◌⊎◌, inl, inr, refl, arith, sym, ◌∙◌, ◌++◌, some, Option, List, [], ◌∷◌, map,
  replicate,
}
use mathlib.Core.Path.{subst}
use package.avaria.Mm.Heap.{Heap, new_heap}
use package.avaria.Ext3.Disk.{Disk, Superblock, superblock_of}
use package.avaria.Ext3.Inodes.{Inode, inode_of, read_inode_data}
use package.avaria.Ext3.Dirs.{lookup}
use package.avaria.Ext3.Mounted.{for_each_entry, dump_line}
use package.avaria.Ext3.Dirs.Search.{Visits, start, onwards, NamesFit}
use package.avaria.Ext3.Mounted.Listing.{first_ino, lookup-listed}

-- `.`, inode 2, and `ab`, inode 11.
abbrev two_entries : List ℕ
two_entries =
    2 ∷ 0 ∷ 0 ∷ 0 ∷ 12 ∷ 0 ∷ 1 ∷ 2 ∷ b'.' ∷ 0 ∷ 0 ∷ 0 ∷ 11 ∷ 0 ∷ 0 ∷ 0 ∷ 12 ∷ 0 ∷ 2 ∷ 1 ∷ b'a'
    ∷ b'b' ∷ 0 ∷ 0 ∷ []

-- The two entries stand in every sector.
abbrev disk : Disk
disk first count = some two_entries

abbrev sb : Superblock
sb = superblock_of []

-- A directory of 24 bytes, in block 5.
abbrev directory : Inode
directory = inode_of (0xED ∷ 0x41 ∷ 0 ∷ 0 ∷ 24 ∷ (replicate 35 0 ++ (5 ∷ [])))

abbrev heap : Heap
heap = record new_heap {
  buddy = record { base = 0x10000; total_pages = 4; bitmap = λ _. 0; max_order = 2 };
}

prints_two :
    map dump_line (for_each_entry disk sb heap directory).1
    ≡ (b' ' ∷ b' ' ∷ b'[' ∷ b'D' ∷ b'I' ∷ b'R' ∷ b']' ∷ b' ' ∷ b'.' ∷ b' ' ∷ b'(' ∷ b'i' ∷ b'n'
        ∷ b'o' ∷ b'=' ∷ b'2' ∷ b')' ∷ b'\n' ∷ [])
      ∷ (b' ' ∷ b' ' ∷ b'[' ∷ b'F' ∷ b'I' ∷ b'L' ∷ b']' ∷ b' ' ∷ b'a' ∷ b'b' ∷ b' ' ∷ b'(' ∷ b'i'
          ∷ b'n' ∷ b'o' ∷ b'=' ∷ b'1' ∷ b'1' ∷ b')' ∷ b'\n' ∷ [])
      ∷ []
unfolding for_each_entry dump_line inode_of superblock_of
prints_two = refl

reads_two : (read_inode_data disk sb heap directory).1 ≡ some (0x10000, two_entries)
unfolding read_inode_data superblock_of inode_of
reads_two = refl

visited : {off : ℕ} → Visits two_entries off → (off ≡ 0) ⊎ ((off ≡ 12) ⊎ (24 ≤ off))
visited start = inl refl
visited (onwards {off} v) = elim (visited v) [
  | inl e ↦ inr (inl (rw e refl))
  | inr (inl e) ↦ inr (inr (rw e (omega arith)))
  | inr (inr le) ↦ inr (inr (omega arith))
]

two_entries-NamesFit : NamesFit two_entries
two_entries-NamesFit off v le = elim (visited v) [
  | inl e ↦ rw e (omega arith)
  | inr (inl e) ↦ rw e (omega arith)
  | inr (inr far) ↦ absurd (omega arith)
]

read-NamesFit :
    (buf : ℕ) (bytes : List ℕ)
    → (read_inode_data disk sb heap directory).1 ≡ some (buf, bytes)
    → NamesFit bytes
read-NamesFit buf bytes e =
    let both : ◌≡◌ {A = Option (ℕ × List ℕ)} (some (0x10000, two_entries)) (some (buf, bytes)) =
      sym reads_two ∙ e in
    let same : two_entries ≡ bytes = cc in subst NamesFit same two_entries-NamesFit

lookup-listed_example :
    ((lookup disk sb heap directory (b'a' ∷ b'b' ∷ [])).0
      ≡ (for_each_entry disk sb heap directory).0)
    × ((lookup disk sb heap directory (b'a' ∷ b'b' ∷ [])).1
        ≡ first_ino (b'a' ∷ b'b' ∷ []) (for_each_entry disk sb heap directory).1)
lookup-listed_example = lookup-listed disk sb heap directory (b'a' ∷ b'b' ∷ []) read-NamesFit
