-- ===== src/Ahci/Driver.antt =====
-- The operations of `src/kern/drv/disk/ahci.rs` that leave the driver's variables: the waits, the
-- commands and the writes of registers.
use package.avaria.Prelude.{ℕ, zero, suc, ◌≡◌, refl, ◌∙◌}
use package.avaria.Prelude.{Bool, true, false, not, ◌==◌, test_bit, if_same, replicate, Option}
use package.avaria.Mm.Heap.{kmalloc_aligned, virt_to_phys}
use package.avaria.Ahci.{
  store, Controller, Ahci, wait_until, stop_port, start_port, wait_port_ready, await_command,
  issue_command, command, port_read, cmd, ci, is, tfd, has_stopped, list_idle, is_idle,
  request_stop, request_start, request_command,
}
use package.avaria.Ahci.Ports.{
  DiskInfo, identified, identify_ready, identify_device, fill_registers, new_port_page, read_ready,
  byte_count,
}

-- The variables of the driver that say which ports are in use, and where their pages are.
abbrev pub driver : {D : Type 0} → Ahci D → ℕ × (ℕ → ℕ) × (ℕ → ℕ) × (ℕ → ℕ)
driver s = (s.active_ports, s.port_clb, s.port_fb, s.port_ctba)

module _ {D : Type 0} (hba : Controller D) where
  pub wait_until_same :
      (test : ℕ → Bool) (port reg rounds : ℕ) (s : Ahci D)
      → driver (wait_until hba test port reg rounds s).1 ≡ driver s
  unfolding wait_until
  wait_until_same test port reg zero s = refl
  wait_until_same test port reg (suc rounds) s =
      let r = port_read hba s port reg in
      if_same (λ (x : Bool × Ahci D). driver x.1) (test r.0) refl
        (wait_until_same test port reg rounds r.1)

  pub stop_port_same : (s : Ahci D) (port : ℕ) → driver (stop_port hba s port) ≡ driver s
  unfolding stop_port request_stop
  stop_port_same s port = wait_until_same has_stopped port cmd 1000000 (request_stop hba s port)

  pub request_start_same : (s : Ahci D) (port : ℕ) → driver (request_start hba s port) ≡ driver s
  unfolding request_start
  request_start_same s port = refl

  pub start_port_same : (s : Ahci D) (port : ℕ) → driver (start_port hba s port) ≡ driver s
  unfolding start_port
  start_port_same s port =
      request_start_same (wait_until hba list_idle port cmd 1000000 s).1 port
      ∙ wait_until_same list_idle port cmd 1000000 s

  pub wait_port_ready_same :
      (s : Ahci D) (port : ℕ) → driver (wait_port_ready hba s port).1 ≡ driver s
  unfolding wait_port_ready
  wait_port_ready_same s port = wait_until_same is_idle port tfd 1000000 s

  pub await_command_same :
      (rounds : ℕ) (s : Ahci D) (port : ℕ) → driver (await_command hba rounds s port).1 ≡ driver s
  unfolding await_command
  await_command_same zero s port = refl
  await_command_same (suc rounds) s port =
      let pending = port_read hba s port ci in
      let events = port_read hba pending.1 port is in
      let out = λ (x : Bool × Ahci D). driver x.1 in
      if_same out (not (test_bit pending.0 0)) refl
        (if_same out (test_bit events.0 30) refl (await_command_same rounds events.1 port))

  pub issue_command_same : (s : Ahci D) (port : ℕ) → driver (issue_command hba s port).1 ≡ driver s
  unfolding issue_command request_command
  issue_command_same s port = await_command_same 10000000 (request_command hba s port) port

  pub new_port_page_same : (s : Ahci D) → driver (new_port_page hba s).1 ≡ driver s
  unfolding new_port_page
  new_port_page_same s =
      if_same (λ (x : ℕ × Ahci D). driver x.1) ((kmalloc_aligned s.heap 4096 4096).1 == 0) refl refl

  pub command_same :
      (s : Ahci D) (port code lba count buf_phys buf_size : ℕ)
      → driver (command hba s port code lba count buf_phys buf_size) ≡ driver s
  unfolding command
  command_same s port code lba count buf_phys buf_size = refl

  pub fill_registers_same :
      (s : Ahci D) (port c f t : ℕ) → driver (fill_registers hba s port c f t) ≡ driver s
  unfolding fill_registers
  fill_registers_same s port c f t = refl

  pub identified_same : (buf : ℕ) (r : Bool × Ahci D) → driver (identified hba buf r).1 ≡ driver r.1
  unfolding identified
  identified_same buf (false, s) = refl
  identified_same buf (true, s) = refl

  pub identify_ready_same :
      (buf port : ℕ) (r : Bool × Ahci D) → driver (identify_ready hba buf port r).1 ≡ driver r.1
  unfolding identify_ready
  identify_ready_same buf port (false, s) = refl
  identify_ready_same buf port (true, s) =
      let asked = command hba s port 0xEC 0 1 (virt_to_phys s.heap buf) 512 in
      identified_same buf (issue_command hba asked port)
      ∙ (issue_command_same asked port ∙ command_same s port 0xEC 0 1 (virt_to_phys s.heap buf) 512)

  pub read_ready_same :
      (port lba count buf : ℕ) (r : Bool × Ahci D)
      → driver (read_ready hba port lba count buf r).1 ≡ driver r.1
  unfolding read_ready
  read_ready_same port lba count buf (false, s) = refl
  read_ready_same port lba count buf (true, s) =
      let asked = command hba s port 0x25 lba count (virt_to_phys s.heap buf) (byte_count count) in
      issue_command_same asked port
      ∙ command_same s port 0x25 lba count (virt_to_phys s.heap buf) (byte_count count)

  pub identify_device_same :
      (s : Ahci D) (port : ℕ) → driver (identify_device hba s port).1 ≡ driver s
  unfolding identify_device
  identify_device_same s port =
      let s0 = record s { ram = store s.ram s.identify_buf (replicate 512 0) } in
      if_same (λ (x : Option DiskInfo × Ahci D). driver x.1) (s.identify_buf == 0) refl
        (identify_ready_same s.identify_buf port (wait_port_ready hba s0 port)
          ∙ wait_port_ready_same s0 port)
