-- ===== src/Ext3/Disk.antt =====
-- `src/kern/fs/ext3/block.rs` and `superblock.rs`: bytes from sectors, and the superblock.
use avaria.Prelude.{
  ℕ, ◌+◌, ◌*◌, ◌/◌, ◌%◌, ◌^◌, ◌==◌, leb, ltb, ◌&&◌, if◌then◌else◌, Option, none, some,
}
use avaria.Prelude.{List, [], take, drop, le_field}
use avaria.Mm.Heap
use avaria.Mm.Heap.{Heap}

abbrev pub Disk : Type 0
Disk = ℕ → ℕ → Option (List ℕ)

-- The bytes that the caller asked for, out of the sectors around them.
abbrev pub cut : ℕ → ℕ → Option (List ℕ) → Option (List ℕ)
cut off count none = none
cut off count (some bytes) = some (take count (drop off bytes))

-- The number of sectors is cut to 16 bits; when that leaves fewer, what the buffer held before is
-- copied, and is left out here.
unfoldable pub read_bytes : Disk → Heap → ℕ → ℕ → Heap × Option (List ℕ)
unfolding Heap.kmalloc_aligned Heap.kfree
read_bytes disk h byte_off count =
    let off = byte_off % 512 in
    let sector_count = (off + count + 511) / 512 in
    let buf_size = sector_count * 512 in
    let (h', buf) = Heap.kmalloc_aligned h buf_size 4096 in
    if count == 0
    then (h, some [])
    else if buf == 0
    then (h', none)
    else (Heap.kfree h' buf buf_size, cut off count (disk (byte_off / 512) (sector_count % 2 ^ 16)))

unfoldable pub read_block : Disk → Heap → ℕ → ℕ → Heap × Option (List ℕ)
unfolding read_bytes
read_block disk h block_num block_size =
    read_bytes disk h (block_num * block_size % 2 ^ 64) block_size

pub record Superblock : Type 0 where
  pub s_inodes_count : ℕ
  pub s_blocks_count : ℕ
  pub s_r_blocks_count : ℕ
  pub s_free_blocks_count : ℕ
  pub s_free_inodes_count : ℕ
  pub s_first_data_block : ℕ
  pub s_log_block_size : ℕ
  pub s_log_frag_size : ℕ
  pub s_blocks_per_group : ℕ
  pub s_frags_per_group : ℕ
  pub s_inodes_per_group : ℕ
  pub s_mtime : ℕ
  pub s_wtime : ℕ
  pub s_mnt_count : ℕ
  pub s_max_mnt_count : ℕ
  pub s_magic : ℕ
  pub s_state : ℕ
  pub s_errors : ℕ
  pub s_minor_rev_level : ℕ
  pub s_lastcheck : ℕ
  pub s_checkinterval : ℕ
  pub s_creator_os : ℕ
  pub s_rev_level : ℕ
  pub s_def_resuid : ℕ
  pub s_def_resgid : ℕ
  pub s_first_ino : ℕ
  pub s_inode_size : ℕ
  pub s_block_group_nr : ℕ
  pub s_feature_compat : ℕ
  pub s_feature_incompat : ℕ
  pub s_feature_ro_compat : ℕ
  pub s_uuid : List ℕ
  pub s_volume_name : List ℕ

-- The `repr(C)` layout.
unfoldable pub superblock_of : List ℕ → Superblock
superblock_of b = record {
  s_inodes_count = le_field b 0 4;
  s_blocks_count = le_field b 4 4;
  s_r_blocks_count = le_field b 8 4;
  s_free_blocks_count = le_field b 12 4;
  s_free_inodes_count = le_field b 16 4;
  s_first_data_block = le_field b 20 4;
  s_log_block_size = le_field b 24 4;
  s_log_frag_size = le_field b 28 4;
  s_blocks_per_group = le_field b 32 4;
  s_frags_per_group = le_field b 36 4;
  s_inodes_per_group = le_field b 40 4;
  s_mtime = le_field b 44 4;
  s_wtime = le_field b 48 4;
  s_mnt_count = le_field b 52 2;
  s_max_mnt_count = le_field b 54 2;
  s_magic = le_field b 56 2;
  s_state = le_field b 58 2;
  s_errors = le_field b 60 2;
  s_minor_rev_level = le_field b 62 2;
  s_lastcheck = le_field b 64 4;
  s_checkinterval = le_field b 68 4;
  s_creator_os = le_field b 72 4;
  s_rev_level = le_field b 76 4;
  s_def_resuid = le_field b 80 2;
  s_def_resgid = le_field b 82 2;
  s_first_ino = le_field b 84 4;
  s_inode_size = le_field b 88 2;
  s_block_group_nr = le_field b 90 2;
  s_feature_compat = le_field b 92 4;
  s_feature_incompat = le_field b 96 4;
  s_feature_ro_compat = le_field b 100 4;
  s_uuid = take 16 (drop 104 b);
  s_volume_name = take 16 (drop 120 b);
}

-- `1024 << s_log_block_size` on 32 bits, which shifts by the low five bits.
unfoldable pub block_size : Superblock → ℕ
block_size sb = 1024 * 2 ^ (sb.s_log_block_size % 32) % 2 ^ 32

unfoldable pub inode_size : Superblock → ℕ
inode_size sb = if leb 1 sb.s_rev_level && ltb 0 sb.s_inode_size then sb.s_inode_size else 128

-- The superblock that was read, unless its magic number is wrong; `buf` is its buffer.
unfoldable pub check_superblock : ℕ → Heap × Option (List ℕ) → Heap × Option (ℕ × Superblock)
unfolding superblock_of Heap.kfree
check_superblock buf (h, none) = (Heap.kfree h buf 4096, none)
check_superblock buf (h, some bytes) =
    let sb = superblock_of bytes in
    if sb.s_magic == 0xEF53 then (h, some (buf, sb)) else (Heap.kfree h buf 4096, none)

unfoldable pub read_superblock : Disk → Heap → Heap × Option (ℕ × Superblock)
unfolding check_superblock read_bytes Heap.kmalloc_aligned
read_superblock disk h =
    let (h', buf) = Heap.kmalloc_aligned h 4096 4096 in
    if buf == 0 then (h', none) else check_superblock buf (read_bytes disk h' 1024 1024)
