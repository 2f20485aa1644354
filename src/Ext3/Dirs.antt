-- ===== src/Ext3/Dirs.antt =====
-- `src/kern/fs/ext3/dir.rs` and `mod.rs`: directories, paths, and reading a file by its path.
pub mod Search
mod Tests
use package.avaria.Prelude.{
  ℕ, zero, suc, ◌+◌, ◌-◌, ◌==◌, ltb, leb, Bool, true, false, not, ◌&&◌, ◌||◌, if◌then◌else◌, Option,
  none, some,
}
use package.avaria.Prelude.{List, [], ◌∷◌, ◌++◌, length, take, drop, get_or, bytes_equal, le_field}
use package.avaria.Mm.Heap
use package.avaria.Mm.Heap.{Heap}
use package.avaria.Ext3.Disk.{Disk, Superblock, inode_size}
use package.avaria.Ext3.Inodes.{
  Inode, is_dir, is_file, read_inode, read_inode_data, inode_alloc_size,
}

pub record DirEntry : Type 0 where
  pub inode : ℕ
  pub rec_len : ℕ
  pub name_len : ℕ
  pub file_type : ℕ

abbrev pub entry_at : List ℕ → ℕ → DirEntry
entry_at bytes off = record {
  inode = le_field bytes off 4;
  rec_len = le_field bytes (off + 4) 2;
  name_len = get_or bytes (off + 6) 0;
  file_type = get_or bytes (off + 7) 0;
}

-- Whether the entry at `off` is in use and has the name. Of a name that runs past the data, where the
-- source reads on beyond the buffer, only what lies in the data is compared.
abbrev pub is_named : List ℕ → List ℕ → ℕ → Bool
is_named bytes name off =
    let entry = entry_at bytes off in
    not (entry.inode == 0)
    && entry.name_len == length name
    && bytes_equal (take entry.name_len (drop (off + 8) bytes)) name

-- The loop of `find_in_dir_data`, from `off` on. Every round but the last moves on by a byte or more.
unfoldable pub find_entry : List ℕ → List ℕ → ℕ → ℕ → ℕ
find_entry bytes name zero off = 0
find_entry bytes name (suc fuel) off =
    let entry = entry_at bytes off in
    let rest = find_entry bytes name fuel (off + entry.rec_len) in
    if ltb (length bytes) (off + 8)
    then 0
    else if entry.rec_len == 0
    then 0
    else if is_named bytes name off
    then entry.inode
    else rest

unfoldable pub find_in_dir_data : List ℕ → List ℕ → ℕ
unfolding find_entry
find_in_dir_data bytes name = find_entry bytes name (length bytes) 0

unfoldable pub look_in : List ℕ → Heap × Option (ℕ × List ℕ) → Heap × ℕ
unfolding find_in_dir_data Heap.kfree
look_in name (h, none) = (h, 0)
look_in name (h, some (buf, bytes)) = (Heap.kfree h buf (length bytes), find_in_dir_data bytes name)

unfoldable pub lookup : Disk → Superblock → Heap → Inode → List ℕ → Heap × ℕ
unfolding look_in read_inode_data
lookup disk sb h dir_inode name =
    let found = look_in name (read_inode_data disk sb h dir_inode) in
    if is_dir dir_inode then found else (h, 0)

-- `trim_start_matches` with one character.
pub trim_start : ℕ → List ℕ → List ℕ
trim_start c [] = []
trim_start c (x ∷ xs) = if x == c then trim_start c xs else x ∷ xs

-- The part being read, in front of the parts after it.
abbrev extend : ℕ → List (List ℕ) → List (List ℕ)
extend x [] = (x ∷ []) ∷ []
extend x (part ∷ parts) = (x ∷ part) ∷ parts

-- `split` at one character.
pub split : ℕ → List ℕ → List (List ℕ)
split c [] = [] ∷ []
split c (x ∷ xs) = let rest = split c xs in if x == c then [] ∷ rest else extend x rest

-- `component.is_empty() || component == "."`
abbrev is_skipped : List ℕ → Bool
is_skipped name = bytes_equal name [] || bytes_equal name (b'.' ∷ [])

-- One component, in the directory that was read into a buffer.
pub step_into : Disk → Superblock → List ℕ → Heap × Option (ℕ × Inode) → Heap × ℕ
unfolding lookup inode_size inode_alloc_size Heap.kfree
step_into disk sb name (h, none) = (h, 0)
step_into disk sb name (h, some (buf, inode)) =
    let (h', found) = lookup disk sb h inode name in
    (Heap.kfree h' buf (inode_alloc_size (inode_size sb)), found)

-- The loop of `resolve_path`.
pub resolve : Disk → Superblock → List (List ℕ) → Heap × ℕ → Heap × ℕ
unfolding step_into read_inode
resolve disk sb [] (h, ino) = (h, ino)
resolve disk sb (name ∷ names) (h, ino) =
    let (h', found) = step_into disk sb name (read_inode disk sb h ino) in
    elim (is_skipped name) [
      | true ↦ resolve disk sb names (h, ino)
      | false ↦ elim (found == 0) [ true ↦ (h', 0) | false ↦ resolve disk sb names (h', found) ]
    ]

unfoldable pub resolve_path : Disk → Superblock → Heap → ℕ → List ℕ → Heap × ℕ
unfolding resolve trim_start split
resolve_path disk sb h start_ino path =
    resolve disk sb (split b'/' (trim_start b'/' path)) (h, start_ino)

unfoldable pub free_inode : Superblock → ℕ → Heap × Option (ℕ × List ℕ) → Heap × Option (ℕ × List ℕ)
unfolding inode_size inode_alloc_size Heap.kfree
free_inode sb buf (h, data') = (Heap.kfree h buf (inode_alloc_size (inode_size sb)), data')

pub read_regular : Disk → Superblock → Heap × Option (ℕ × Inode) → Heap × Option (ℕ × List ℕ)
unfolding free_inode read_inode_data
read_regular disk sb (h, none) = (h, none)
read_regular disk sb (h, some (buf, inode)) =
    if is_file inode
    then free_inode sb buf (read_inode_data disk sb h inode)
    else free_inode sb buf (h, none)

-- `Ext3::read_file`, from the root directory, inode 2.
pub read_file : Disk → Superblock → Heap → List ℕ → Heap × Option (ℕ × List ℕ)
unfolding resolve_path read_regular read_inode
read_file disk sb h path =
    let (h', ino) = resolve_path disk sb h 2 path in
    if ino == 0 then (h', none) else read_regular disk sb (read_inode disk sb h' ino)

pub exists : Disk → Superblock → Heap → List ℕ → Heap × Bool
unfolding resolve_path
exists disk sb h path = let (h', ino) = resolve_path disk sb h 2 path in (h', not (ino == 0))
