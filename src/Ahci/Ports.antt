-- ===== src/Ahci/Ports.antt =====
-- Bringing ports up and reading sectors: `identify_device`, `init_port`, the loop of `init` over the
-- ports, and `read_sectors` of `src/kern/drv/disk/ahci.rs`.
use package.avaria.Prelude.{
  ℕ, zero, suc, ◌+◌, ◌*◌, ◌/◌, ◌%◌, ◌^◌, bit_and, bit_or, Bool, true, false, not, ◌&&◌, ◌==◌, leb,
}
use package.avaria.Prelude.{
  if◌then◌else◌, Option, none, some, List, [], ◌∷◌, ◌++◌, update, test_bit, with_bit, le_bytes,
  le_value, replicate,
}
use package.avaria.Mm.Heap.{kmalloc_aligned, virt_to_phys}
use package.avaria.Ahci.{
  Ram, store, load, Controller, Ahci, max_ports, clb, clbu, fb, fbu, is, sig, ssts, serr,
  sata_sig_ata, ata_cmd_identify, ata_cmd_read_dma_ext, port_read, port_write, reg_read, reg_write,
  stop_port, start_port, wait_port_ready, issue_command, command,
}

-- The word `w` of the identification, and the characters of the model's name that are printed.
abbrev pub word_at : Ram → ℕ → ℕ → ℕ
word_at ram buf w = le_value (load ram (buf + 2 * w) 2)

abbrev pub printable : ℕ → List ℕ
printable c = if leb 0x20 c && leb c 0x7E then c ∷ [] else []

pub model_name : Ram → ℕ → ℕ → ℕ → List ℕ
model_name ram buf w zero = []
model_name ram buf w (suc left) =
    let val = word_at ram buf w in
    printable (val / 2 ^ 8) ++ (printable (bit_and val 0xFF) ++ model_name ram buf (w + 1) left)

abbrev pub sectors : Ram → ℕ → ℕ
sectors ram buf =
    bit_or
      (bit_or (bit_or (word_at ram buf 100) (word_at ram buf 101 * 2 ^ 16))
        (word_at ram buf 102 * 2 ^ 32))
      (word_at ram buf 103 * 2 ^ 48)

-- What is printed of a disk: its model, its number of sectors and its size in MiB.
abbrev pub DiskInfo : Type 0
DiskInfo = List ℕ × ℕ × ℕ

unfoldable pub disk_info : Ram → ℕ → DiskInfo
unfolding model_name
disk_info ram buf =
    let n = sectors ram buf in (model_name ram buf 27 20, n, n * 512 % 2 ^ 64 / (1024 * 1024))

-- `if count == 0 { 65536u32 * 512 } else { count as u32 * 512 }`
abbrev pub byte_count : ℕ → ℕ
byte_count count = if count == 0 then 65536 * 512 else count * 512

module _ {D : Type 0} (hba : Controller D) where
  -- `identify_device` after the command, after the wait, and from the start.
  unfoldable pub identified : ℕ → Bool × Ahci D → Option DiskInfo × Ahci D
  unfolding disk_info
  identified buf (false, s) = (none, s)
  identified buf (true, s) = (some (disk_info s.ram buf), s)

  unfoldable pub identify_ready : ℕ → ℕ → Bool × Ahci D → Option DiskInfo × Ahci D
  unfolding issue_command command virt_to_phys identified
  identify_ready buf port (false, s) = (none, s)
  identify_ready buf port (true, s) = identified buf (
      issue_command hba (command hba s port ata_cmd_identify 0 1 (virt_to_phys s.heap buf) 512)
        port)

  unfoldable pub identify_device : Ahci D → ℕ → Option DiskInfo × Ahci D
  unfolding wait_port_ready identify_ready
  identify_device s port =
      let buf = s.identify_buf in
      let s0 = record s { ram = store s.ram buf (replicate 512 0) } in
      if buf == 0 then (none, s) else identify_ready buf port (wait_port_ready hba s0 port)

  -- The registers and the header that `init_port` fills, once it has its three pages.
  unfoldable pub fill_registers : Ahci D → ℕ → ℕ → ℕ → ℕ → Ahci D
  unfolding virt_to_phys
  fill_registers s port clb_virt fb_virt ct_virt =
      let clb_phys = virt_to_phys s.heap clb_virt in
      let fb_phys = virt_to_phys s.heap fb_virt in
      let ct_phys = virt_to_phys s.heap ct_virt in
      let s1 = port_write hba s port clb (clb_phys % 2 ^ 32) in
      let s2 = port_write hba s1 port clbu (clb_phys / 2 ^ 32 % 2 ^ 32) in
      let s3 = port_write hba s2 port fb (fb_phys % 2 ^ 32) in
      let s4 = port_write hba s3 port fbu (fb_phys / 2 ^ 32 % 2 ^ 32) in
      let table_address = le_bytes 4 (ct_phys % 2 ^ 32) ++ le_bytes 4 (ct_phys / 2 ^ 32 % 2 ^ 32) in
      let s5 = record s4 { ram = store s4.ram (clb_virt + 8) table_address } in
      let s6 = port_write hba s5 port serr 0xFFFFFFFF in port_write hba s6 port is 0xFFFFFFFF

  abbrev pub keep_pages : Ahci D → ℕ → ℕ → ℕ → ℕ → Ahci D
  keep_pages s port clb_virt fb_virt ct_virt = record s {
    port_clb = update s.port_clb port clb_virt;
    port_fb = update s.port_fb port fb_virt;
    port_ctba = update s.port_ctba port ct_virt;
  }

  unfoldable pub set_up_port : Ahci D → ℕ → ℕ → ℕ → ℕ → Ahci D
  unfolding start_port fill_registers
  set_up_port s port clb_virt fb_virt ct_virt =
      start_port hba
        (fill_registers (keep_pages s port clb_virt fb_virt ct_virt) port clb_virt fb_virt ct_virt)
        port

  -- `kmalloc_aligned(4096, 4096)`, and the page cleared.
  unfoldable pub new_port_page : Ahci D → ℕ × Ahci D
  unfolding kmalloc_aligned
  new_port_page s =
      let (heap', at) = kmalloc_aligned s.heap 4096 4096 in
      let s' = record s { heap = heap' } in
      if at == 0 then (0, s') else (at, record s' { ram = store s.ram at (replicate 4096 0) })

  -- `init_port` after each of its three pages, and from the start.
  unfoldable pub got_table : ℕ → ℕ → ℕ → ℕ × Ahci D → Bool × Ahci D
  unfolding set_up_port
  got_table port clb_virt fb_virt (ct_virt, s) =
      if ct_virt == 0 then (false, s) else (true, set_up_port s port clb_virt fb_virt ct_virt)

  unfoldable pub got_received : ℕ → ℕ → ℕ × Ahci D → Bool × Ahci D
  unfolding new_port_page got_table
  got_received port clb_virt (fb_virt, s) =
      if fb_virt == 0 then (false, s) else got_table port clb_virt fb_virt (new_port_page s)

  unfoldable pub got_list : ℕ → ℕ × Ahci D → Bool × Ahci D
  unfolding new_port_page got_received
  got_list port (clb_virt, s) =
      if clb_virt == 0 then (false, s) else got_received port clb_virt (new_port_page s)

  unfoldable pub init_port : Ahci D → ℕ → Bool × Ahci D
  unfolding stop_port new_port_page got_list
  init_port s port = got_list port (new_port_page (stop_port hba s port))

  -- A port that `init` has brought up: it is active, and the disk is asked who it is.
  unfoldable pub activate : Bool × Ahci D → ℕ → Ahci D
  unfolding identify_device
  activate (false, s) port = s
  activate (true, s) port =
      (identify_device (record s { active_ports = with_bit s.active_ports port }) port).1

  -- The body of the loop of `init`, for a port that `pi` lists.
  unfoldable pub try_port : Ahci D → ℕ → Ahci D
  unfolding init_port activate
  try_port s port =
      let (status, s1) = port_read hba s port ssts in
      let (signature, s2) = port_read hba s1 port sig in
      if not (bit_and status 0x0F == 3)
      then s1
      else if not (bit_and (status / 2 ^ 8) 0x0F == 1)
      then s1
      else if not (signature == sata_sig_ata)
      then s2
      else activate (init_port s2 port) port

  unfoldable pub try_ports : ℕ → Ahci D → ℕ → ℕ → Ahci D
  unfolding try_port
  try_ports pi s port zero = s
  try_ports pi s port (suc left) =
      try_ports pi (if test_bit pi port then try_port s port else s) (port + 1) left

  -- `init` from the read of `ghc` on: bit 31 of `ghc` is set where it is not, and the ports are tried.
  unfoldable pub init_ports : Ahci D → Ahci D
  unfolding try_ports
  init_ports s =
      let (ghc, s1) = reg_read hba s (s.abar + 4) in
      let s2 = if test_bit ghc 31 then s1 else reg_write hba s1 (s.abar + 4) (with_bit ghc 31) in
      let (pi, s3) = reg_read hba s2 (s2.abar + 0x0C) in try_ports pi s3 0 max_ports

  -- `read_sectors` after the wait, and from the start.
  unfoldable pub read_ready : ℕ → ℕ → ℕ → ℕ → Bool × Ahci D → Bool × Ahci D
  unfolding issue_command command virt_to_phys
  read_ready port lba count buf (false, s) = (false, s)
  read_ready port lba count buf (true, s) =
      issue_command hba
        (command hba s port ata_cmd_read_dma_ext lba count (virt_to_phys s.heap buf)
          (byte_count count))
        port

  unfoldable pub read_sectors : Ahci D → ℕ → ℕ → ℕ → ℕ → Bool × Ahci D
  unfolding wait_port_ready read_ready
  read_sectors s port lba count buf =
      if leb max_ports port
      then (false, s)
      else if not (test_bit s.active_ports port)
      then (false, s)
      else read_ready port lba count buf (wait_port_ready hba s port)
