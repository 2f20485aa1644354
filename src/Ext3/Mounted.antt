-- ===== src/Ext3/Mounted.antt =====
-- `src/kern/fs/ext3/mod.rs` and `for_each_entry` of `dir.rs`: mounting, listing directories, and what
-- `dump_root` prints. The messages of `mount` are left out.
pub mod Listing
mod Tests
use package.avaria.Prelude.{
  ℕ, zero, suc, ◌+◌, ◌==◌, ltb, Bool, not, ◌||◌, if◌then◌else◌, Option, none, some, List, [], ◌∷◌,
  ◌++◌,
}
use package.avaria.Prelude.{length, take, drop, map, bytes_equal}
use package.avaria.Mm.Heap
use package.avaria.Mm.Heap.{Heap}
use package.avaria.Serial.{dec}
use package.avaria.Ext3.Disk.{Disk, Superblock, read_superblock}
use package.avaria.Ext3.Inodes.{Inode, is_dir, read_inode, read_inode_data}
use package.avaria.Ext3.Dirs.{entry_at, resolve_path, free_inode}

-- What the callback of `for_each_entry` is given.
pub record Listed : Type 0 where
  pub name : List ℕ
  pub ino : ℕ
  pub file_type : ℕ

-- The loop of `for_each_entry`, from `off` on. Every round but the last moves on by a byte or more.
pub entries_from : List ℕ → ℕ → ℕ → List Listed
entries_from bytes zero off = []
entries_from bytes (suc fuel) off =
    let entry = entry_at bytes off in
    let rest = entries_from bytes fuel (off + entry.rec_len) in
    let listed : Listed = record {
      name = take entry.name_len (drop (off + 8) bytes);
      ino = entry.inode;
      file_type = entry.file_type;
    } in
    if ltb (length bytes) (off + 8)
    then []
    else if entry.rec_len == 0
    then []
    else if entry.inode == 0
    then rest
    else listed ∷ rest

pub list_in : Heap × Option (ℕ × List ℕ) → Heap × List Listed
unfolding entries_from Heap.kfree
list_in (h, none) = (h, [])
list_in (h, some (buf, bytes)) =
    (Heap.kfree h buf (length bytes), entries_from bytes (length bytes) 0)

-- The entries that `for_each_entry` calls back with, in order.
pub for_each_entry : Disk → Superblock → Heap → Inode → Heap × List Listed
unfolding list_in read_inode_data
for_each_entry disk sb h dir_inode =
    let listed = list_in (read_inode_data disk sb h dir_inode) in
    if is_dir dir_inode then listed else (h, [])

-- `Ext3`: its superblock, and the buffer that holds it; 0 is the null pointer.
pub record Ext3 : Type 0 where
  pub sb_buf : ℕ
  pub sb : Superblock

abbrev mounted : Heap × Option (ℕ × Superblock) → Heap × Option Ext3
mounted (h, none) = (h, none)
mounted (h, some (buf, sb)) = (h, some (record { sb_buf = buf; sb = sb }))

unfoldable pub mount : Disk → Heap → Heap × Option Ext3
unfolding read_superblock
mount disk h = mounted (read_superblock disk h)

unfoldable pub drop_ext3 : Heap → Ext3 → Heap
unfolding Heap.kfree
drop_ext3 h fs = if fs.sb_buf == 0 then h else Heap.kfree h fs.sb_buf 4096

pub list_inode : Disk → Superblock → Heap × Option (ℕ × Inode) → Heap × List Listed
unfolding for_each_entry free_inode
list_inode disk sb (h, none) = (h, [])
list_inode disk sb (h, some (buf, inode)) =
    let (h', listed) = for_each_entry disk sb h inode in ((free_inode sb buf (h', none)).0, listed)

-- `list_dir`, with the entries that its callback is given.
pub list_dir : Disk → Ext3 → Heap → List ℕ → Heap × List Listed
unfolding list_inode resolve_path read_inode
list_dir disk fs h path =
    let (h', n) = resolve_path disk fs.sb h 2 path in
    if bytes_equal path [] || bytes_equal path (b'/' ∷ [])
    then list_inode disk fs.sb (read_inode disk fs.sb h 2)
    else if n == 0
    then (h', [])
    else list_inode disk fs.sb (read_inode disk fs.sb h' n)

-- The letters between the brackets of a line of `dump_root`.
abbrev kind_letters : ℕ → List ℕ
kind_letters ft =
    if ft == 2
    then b'D' ∷ b'I' ∷ b'R' ∷ []
    else if ft == 1
    then b'F' ∷ b'I' ∷ b'L' ∷ []
    else if ft == 7
    then b'L' ∷ b'N' ∷ b'K' ∷ []
    else b'?' ∷ b'?' ∷ b'?' ∷ []

-- A line of `dump_root`.
pub dump_line : Listed → List ℕ
unfolding dec
dump_line e =
    (b' ' ∷ b' ' ∷ b'[' ∷ kind_letters e.file_type)
    ++ ((b']' ∷ b' ' ∷ e.name)
        ++ ((b' ' ∷ b'(' ∷ b'i' ∷ b'n' ∷ b'o' ∷ b'=' ∷ dec e.ino) ++ (b')' ∷ b'\n' ∷ [])))

-- The lines of `dump_root`, after its heading.
pub dump_root : Disk → Ext3 → Heap → Heap × List (List ℕ)
unfolding list_dir dump_line
dump_root disk fs h =
    let (h', listed) = list_dir disk fs h (b'/' ∷ []) in (h', map dump_line listed)
