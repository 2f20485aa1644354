-- ===== src/Ahci.antt =====
-- `src/kern/drv/disk/ahci.rs`: the driver of the disk controller. The controller is a parameter: its
-- registers are read and written one at a time, and at each of these it may change its own state and
-- the bytes of memory. Messages on the serial port are left out.
pub mod Command
pub mod Ports
pub mod Driver
pub mod Active
pub mod Start
mod Tests
use avaria.Prelude.{
  ℕ, zero, suc, ◌+◌, ◌-◌, ◌*◌, ◌/◌, ◌%◌, ◌^◌, bit_and, bit_or, Bool, true, false, not, ◌&&◌, ◌||◌,
  ◌==◌, ltb, leb,
}
use avaria.Prelude.{
  if◌then◌else◌, Option, none, some, List, [], ◌∷◌, ◌++◌, update, test_bit, with_bit, and_not,
  sub_w, add_w, le_bytes, le_value, length, get_or, replicate,
}
use avaria.Mm.Heap.{Heap, kmalloc_aligned, virt_to_phys}

-- Memory by byte.
abbrev pub Ram : Type 0
Ram = ℕ → ℕ

-- `ptr::write` of bytes, and the `n` bytes at an address.
abbrev pub store : Ram → ℕ → List ℕ → Ram
store ram at bytes a =
    if leb at a && ltb a (at + length bytes) then get_or bytes (a - at) 0 else ram a

abbrev pub load : Ram → ℕ → ℕ → List ℕ
load ram at zero = []
load ram at (suc n) = ram at ∷ load ram (at + 1) n

-- Registers by address.
pub record Controller (D : Type 0) : Type 0 where
  pub read : D → Ram → ℕ → ℕ × D × Ram
  pub write : D → Ram → ℕ → ℕ → D × Ram

-- `ABAR`, `ACTIVE_PORTS`, `PORT_CLB`, `PORT_FB`, `PORT_CTBA` and `IDENTIFY_BUF`, with the heap, the
-- controller and memory.
pub record Ahci (D : Type 0) : Type 0 where
  pub abar : ℕ
  pub active_ports : ℕ
  pub port_clb : ℕ → ℕ
  pub port_fb : ℕ → ℕ
  pub port_ctba : ℕ → ℕ
  pub identify_buf : ℕ
  pub heap : Heap
  pub device : D
  pub ram : Ram

abbrev pub max_ports : ℕ
max_ports = 32

-- Where the fields of `HbaPort` are.
abbrev pub clb : ℕ
clb = 0x00

abbrev pub clbu : ℕ
clbu = 0x04

abbrev pub fb : ℕ
fb = 0x08

abbrev pub fbu : ℕ
fbu = 0x0C

abbrev pub is : ℕ
is = 0x10

abbrev pub cmd : ℕ
cmd = 0x18

abbrev pub tfd : ℕ
tfd = 0x20

abbrev pub sig : ℕ
sig = 0x24

abbrev pub ssts : ℕ
ssts = 0x28

abbrev pub serr : ℕ
serr = 0x30

abbrev pub ci : ℕ
ci = 0x38

-- Bits of `cmd`, of `tfd` and of `is`.
abbrev pub port_cmd_st : ℕ
port_cmd_st = 0

abbrev pub port_cmd_fre : ℕ
port_cmd_fre = 4

abbrev pub port_cmd_fr : ℕ
port_cmd_fr = 14

abbrev pub port_cmd_cr : ℕ
port_cmd_cr = 15

abbrev pub ata_cmd_identify : ℕ
ata_cmd_identify = 0xEC

abbrev pub ata_cmd_read_dma_ext : ℕ
ata_cmd_read_dma_ext = 0x25

abbrev pub sata_sig_ata : ℕ
sata_sig_ata = 0x101

-- The fields of the command header and of the only entry of the table, and those of the frame.
abbrev pub command_header : Bool → List ℕ
command_header write =
    le_bytes 2 (if write then with_bit 5 6 else 5) ++ (le_bytes 2 1 ++ le_bytes 4 0)

abbrev pub prdt_entry : ℕ → ℕ → List ℕ
prdt_entry buf_phys buf_size =
    le_bytes 4 (buf_phys % 2 ^ 32)
    ++ (le_bytes 4 (buf_phys / 2 ^ 32 % 2 ^ 32)
        ++ (le_bytes 4 0 ++ le_bytes 4 (sub_w 32 buf_size 1)))

abbrev pub fis_reg_h2d : ℕ → ℕ → ℕ → List ℕ
fis_reg_h2d command lba count =
    0x27
    ∷ 0x80
    ∷ command
    ∷ 0
    ∷ bit_and lba 0xFF
    ∷ bit_and (lba / 2 ^ 8) 0xFF
    ∷ bit_and (lba / 2 ^ 16) 0xFF
    ∷ 0x40
    ∷ bit_and (lba / 2 ^ 24) 0xFF
    ∷ bit_and (lba / 2 ^ 32) 0xFF
    ∷ bit_and (lba / 2 ^ 40) 0xFF
    ∷ 0
    ∷ bit_and count 0xFF
    ∷ bit_and (count / 2 ^ 8) 0xFF
    ∷ 0
    ∷ 0
    ∷ []

-- `setup_command`: the table is cleared; then the header, the entry and the frame are written.
unfoldable pub setup_command : Ram → ℕ → ℕ → ℕ → ℕ → ℕ → ℕ → ℕ → Bool → Ram
setup_command ram header_at table_at command lba count buf_phys buf_size write =
    let cleared = store ram table_at (replicate 144 0) in
    let with_header = store cleared header_at (command_header write) in
    let with_entry = store with_header (table_at + 128) (prdt_entry buf_phys buf_size) in
    store with_entry table_at (fis_reg_h2d command lba count)

-- `HbaPort` is 0x80 bytes, and the first one is 0x100 bytes from `ABAR`.
abbrev pub port_reg : ℕ → ℕ → ℕ → ℕ
port_reg abar port reg = abar + 0x100 + port * 0x80 + reg

-- What `stop_port`, `start_port` and `wait_port_ready` wait for. The last one looks at
-- `PORT_TFD_BSY | PORT_TFD_DRQ`.
abbrev pub has_stopped : ℕ → Bool
has_stopped c = not (test_bit c port_cmd_cr) && not (test_bit c port_cmd_fr)

abbrev pub list_idle : ℕ → Bool
list_idle c = not (test_bit c port_cmd_cr)

abbrev pub is_idle : ℕ → Bool
is_idle t = bit_and t (bit_or (2 ^ 7) (2 ^ 3)) == 0

module _ {D : Type 0} (hba : Controller D) where
  abbrev pub reg_read : Ahci D → ℕ → ℕ × Ahci D
  reg_read s at =
      let (val, device', ram') = hba.read s.device s.ram at in
      (val, record s { device = device'; ram = ram' })

  abbrev pub reg_write : Ahci D → ℕ → ℕ → Ahci D
  reg_write s at val =
      let (device', ram') = hba.write s.device s.ram at val in
      record s { device = device'; ram = ram' }

  abbrev pub port_read : Ahci D → ℕ → ℕ → ℕ × Ahci D
  port_read s port reg = reg_read s (port_reg s.abar port reg)

  abbrev pub port_write : Ahci D → ℕ → ℕ → ℕ → Ahci D
  port_write s port reg val = reg_write s (port_reg s.abar port reg) val

  -- Reads of a register until the test accepts it: the last value, and whether it was accepted.
  pub wait_until : (ℕ → Bool) → ℕ → ℕ → ℕ → Ahci D → Bool × Ahci D
  wait_until test port reg zero s = (false, s)
  wait_until test port reg (suc rounds) s =
      let (val, s') = port_read s port reg in
      let rest = wait_until test port reg rounds s' in if test val then (true, s') else rest

  -- The writes of `stop_port` and of `start_port`.
  pub request_stop : Ahci D → ℕ → Ahci D
  request_stop s port =
      let (cmd0, s0) = port_read s port cmd in
      let cmd1 = and_not cmd0 (2 ^ port_cmd_st) in
      let s1 = port_write s0 port cmd cmd1 in
      port_write s1 port cmd (and_not cmd1 (2 ^ port_cmd_fre))

  pub request_start : Ahci D → ℕ → Ahci D
  request_start s port =
      let (cmd0, s0) = port_read s port cmd in
      let cmd1 = with_bit cmd0 port_cmd_fre in
      let s1 = port_write s0 port cmd cmd1 in port_write s1 port cmd (with_bit cmd1 port_cmd_st)

  pub stop_port : Ahci D → ℕ → Ahci D
  unfolding wait_until request_stop
  stop_port s port = (wait_until has_stopped port cmd 1000000 (request_stop s port)).1

  pub start_port : Ahci D → ℕ → Ahci D
  unfolding wait_until request_start
  start_port s port = request_start (wait_until list_idle port cmd 1000000 s).1 port

  unfoldable pub wait_port_ready : Ahci D → ℕ → Bool × Ahci D
  unfolding wait_until
  wait_port_ready s port = wait_until is_idle port tfd 1000000 s

  -- The loop of `issue_command`.
  unfoldable pub await_command : ℕ → Ahci D → ℕ → Bool × Ahci D
  await_command zero s port = (false, s)
  await_command (suc rounds) s port =
      let (pending, s1) = port_read s port ci in
      let (status, s2) = port_read s1 port tfd in
      let (events, s3) = port_read s1 port is in
      let rest = await_command rounds s3 port in
      if not (test_bit pending 0)
      then (not (test_bit status 0), s2)
      else if test_bit events 30
      then (false, s3)
      else rest

  pub request_command : Ahci D → ℕ → Ahci D
  request_command s port = port_write (port_write s port is 0xFFFFFFFF) port ci 1

  unfoldable pub issue_command : Ahci D → ℕ → Bool × Ahci D
  unfolding await_command request_command
  issue_command s port = await_command 10000000 (request_command s port) port

  pub command : Ahci D → ℕ → ℕ → ℕ → ℕ → ℕ → ℕ → Ahci D
  unfolding setup_command
  command s port code lba count buf_phys buf_size = record s {
    ram =
        setup_command s.ram (s.port_clb port) (s.port_ctba port) code lba count buf_phys buf_size
          false;
  }
