-- ===== src/Ext3/Inodes.antt =====
-- `src/kern/fs/ext3/inode.rs`: inodes, the blocks of a file, and its bytes. A block number 0 is a
-- hole, and also what a failed read of a pointer gives.
use avaria.Prelude.{
  ℕ, zero, suc, ◌+◌, ◌-◌, ◌*◌, ◌/◌, ◌%◌, ◌^◌, ◌==◌, ltb, min, Bool, true, false, if◌then◌else◌,
  Option, none, some,
}
use avaria.Prelude.{
  List, [], ◌∷◌, ◌++◌, take, drop, get_or, replicate, le_field, le_value, sub_w, add_w,
}
use avaria.Mm.Heap
use avaria.Mm.Heap.{Heap}
use avaria.Ext3.Disk.{Disk, Superblock, read_bytes, read_block, block_size, inode_size}

pub record Inode : Type 0 where
  pub i_mode : ℕ
  pub i_uid : ℕ
  pub i_size : ℕ
  pub i_atime : ℕ
  pub i_ctime : ℕ
  pub i_mtime : ℕ
  pub i_dtime : ℕ
  pub i_gid : ℕ
  pub i_links_count : ℕ
  pub i_blocks : ℕ
  pub i_flags : ℕ
  pub i_osd1 : ℕ
  pub i_block : List ℕ
  pub i_generation : ℕ
  pub i_file_acl : ℕ
  pub i_size_high : ℕ
  pub i_faddr : ℕ
  pub i_osd2 : List ℕ

-- `n` pointers of four bytes from `off` on.
pub pointers : List ℕ → ℕ → ℕ → List ℕ
pointers b zero off = []
pointers b (suc n) off = le_field b off 4 ∷ pointers b n (off + 4)

-- The `repr(C)` layout of 128 bytes; bytes that are missing are the zeros of the cleared buffer.
unfoldable pub inode_of : List ℕ → Inode
unfolding pointers
inode_of b = record {
  i_mode = le_field b 0 2;
  i_uid = le_field b 2 2;
  i_size = le_field b 4 4;
  i_atime = le_field b 8 4;
  i_ctime = le_field b 12 4;
  i_mtime = le_field b 16 4;
  i_dtime = le_field b 20 4;
  i_gid = le_field b 24 2;
  i_links_count = le_field b 26 2;
  i_blocks = le_field b 28 4;
  i_flags = le_field b 32 4;
  i_osd1 = le_field b 36 4;
  i_block = pointers b 15 40;
  i_generation = le_field b 100 4;
  i_file_acl = le_field b 104 4;
  i_size_high = le_field b 108 4;
  i_faddr = le_field b 112 4;
  i_osd2 = take 12 (drop 116 b);
}

-- `i_mode & S_IFMT`, whose four bits are the upper ones of 16.
abbrev pub format : Inode → ℕ
format inode = inode.i_mode / 0x1000 * 0x1000

abbrev pub is_dir : Inode → Bool
is_dir inode = format inode == 0x4000

abbrev pub is_file : Inode → Bool
is_file inode = format inode == 0x8000

unfoldable pub size : Inode → ℕ
size inode = if is_file inode then inode.i_size + inode.i_size_high * 2 ^ 32 else inode.i_size

unfoldable pub inode_alloc_size : ℕ → ℕ
inode_alloc_size n = if ltb 128 n then n else 128

-- The inode in the buffer `buf` of `alloc` bytes.
unfoldable pub take_inode : ℕ → ℕ → Heap × Option (List ℕ) → Heap × Option (ℕ × Inode)
unfolding inode_of Heap.kfree
take_inode buf alloc (h, none) = (Heap.kfree h buf alloc, none)
take_inode buf alloc (h, some bytes) = (h, some (buf, inode_of bytes))

-- The inode at place `index` of the table that a group's descriptor names.
unfoldable pub inode_in : Disk → Superblock → ℕ → Heap × Option (List ℕ) → Heap × Option (ℕ × Inode)
unfolding block_size inode_size inode_alloc_size Heap.kmalloc read_bytes take_inode
inode_in disk sb index (h, none) = (h, none)
inode_in disk sb index (h, some bgd) =
    let at_byte = le_field bgd 8 4 * block_size sb + index * inode_size sb in
    let alloc = inode_alloc_size (inode_size sb) in
    let (h', buf) = Heap.kmalloc h alloc in
    if buf == 0
    then (h', none)
    else take_inode buf alloc (read_bytes disk h' at_byte (inode_size sb))

-- A file system without inodes in a group would divide by zero.
unfoldable pub read_inode : Disk → Superblock → Heap → ℕ → Heap × Option (ℕ × Inode)
unfolding block_size inode_in read_bytes
read_inode disk sb h ino =
    let group = (ino - 1) / sb.s_inodes_per_group in
    let index = (ino - 1) % sb.s_inodes_per_group in
    let bgdt_block = if block_size sb == 1024 then 2 else 1 in
    let bgd_offset = bgdt_block * block_size sb + group * 32 in
    if ino == 0 then (h, none) else inode_in disk sb index (read_bytes disk h bgd_offset 32)

abbrev pointer_value : Option (List ℕ) → ℕ
pointer_value none = 0
pointer_value (some bytes) = le_value bytes

unfoldable pub read_block_ptr : Disk → ℕ → Heap → ℕ → ℕ → Heap × ℕ
unfolding read_bytes
read_block_ptr disk bs h block_num index =
    let (h', got) = read_bytes disk h (block_num * bs + index * 4) 4 in (h', pointer_value got)

-- Follows the pointers at the given places of the blocks, from `block_num` down.
pub follow : Disk → ℕ → Heap → ℕ → List ℕ → Heap × ℕ
unfolding read_block_ptr
follow disk bs h block_num [] = (h, block_num)
follow disk bs h block_num (i ∷ is) =
    let (h', next) = read_block_ptr disk bs h block_num i in
    let rest = follow disk bs h' next is in if block_num == 0 then (h, 0) else rest

unfoldable pub resolve_block : Disk → Superblock → Heap → Inode → ℕ → Heap × ℕ
unfolding block_size follow
resolve_block disk sb h inode logical =
    let bs = block_size sb in
    let p = bs / 4 in
    let double_range = p * p % 2 ^ 32 in
    let triple_range = double_range * p % 2 ^ 32 in
    let l1 = logical - 12 in
    let l2 = l1 - p in
    let l3 = l2 - double_range in
    let rem = l3 % double_range in
    if ltb logical 12
    then (h, get_or inode.i_block logical 0)
    else if ltb l1 p
    then follow disk bs h (get_or inode.i_block 12 0) (l1 ∷ [])
    else if ltb l2 double_range
    then follow disk bs h (get_or inode.i_block 13 0) (l2 / p ∷ l2 % p ∷ [])
    else if ltb l3 triple_range
    then follow disk bs h (get_or inode.i_block 14 0) (l3 / double_range ∷ rem / p ∷ rem % p ∷ [])
    else (h, 0)

-- What the loop of `read_inode_data` has read, or that a read failed.
abbrev prepend : List ℕ → Heap × Option (List ℕ) → Heap × Option (List ℕ)
prepend bytes (h, none) = (h, none)
prepend bytes (h, some rest) = (h, some (bytes ++ rest))

-- The loop, with `left` blocks to go from `logical`. The source writes a whole block into the
-- buffer; only the bytes of the file are kept here.
pub read_blocks : Disk → Superblock → Inode → ℕ → ℕ → ℕ → Heap → Heap × Option (List ℕ)
unfolding resolve_block block_size read_block
read_blocks disk sb inode zero logical bytes_left h = (h, some [])
read_blocks disk sb inode (suc left) logical bytes_left h =
    let bs = block_size sb in
    let (h1, phys) = resolve_block disk sb h inode logical in
    let chunk = min bytes_left bs in
    let (h2, got) = read_block disk h1 phys bs in
    elim (phys == 0) [
      | true ↦
          prepend (replicate chunk 0)
            (read_blocks disk sb inode left (logical + 1) (bytes_left - chunk) h1)
      | false ↦ elim got [
        | none ↦ (h2, none)
        | some bytes ↦
            prepend (take chunk bytes)
              (read_blocks disk sb inode left (logical + 1) (bytes_left - chunk) h2)
      ]
    ]

-- The buffer `buf` with the bytes of the file, or no buffer.
unfoldable pub keep_data : ℕ → ℕ → Heap × Option (List ℕ) → Heap × Option (ℕ × List ℕ)
unfolding Heap.kfree
keep_data buf n (h, none) = (Heap.kfree h buf n, none)
keep_data buf n (h, some bytes) = (h, some (buf, bytes))

unfoldable pub read_inode_data : Disk → Superblock → Heap → Inode → Heap × Option (ℕ × List ℕ)
unfolding size block_size Heap.kmalloc read_blocks keep_data
read_inode_data disk sb h inode =
    let n = size inode in
    let bs = block_size sb in
    let (h', buf) = Heap.kmalloc h n in
    let blocks_needed = sub_w 64 (add_w 64 n bs) 1 / bs in
    if n == 0
    then (h, none)
    else if buf == 0
    then (h', none)
    else keep_data buf n (read_blocks disk sb inode blocks_needed 0 n h')
