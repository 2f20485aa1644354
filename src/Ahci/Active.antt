-- ===== src/Ahci/Active.antt =====
-- Which ports the driver of `src/kern/drv/disk/ahci.rs` uses: those it has set up.
use package.avaria.Prelude.{
  ℕ, zero, suc, ◌+◌, ◌/◌, ◌^◌, ◌<◌, ◌≤◌, ◌≡◌, ◌≢◌, refl, sym, ◌∙◌, arith, inl, inr,
}
use package.avaria.Prelude.{
  Bool, true, false, not, if◌then◌else◌, ◌==◌, Bool-cases, ==→≡, ==→≢, update, test_bit, with_bit,
  test_bit-with_bit_ne, bit_and, if_Has, if_Has_by, ==_self,
}
use mathlib.Core.Path.{subst}
use package.avaria.Ahci.{
  Controller, Ahci, stop_port, port_read, ssts, sig, sata_sig_ata, reg_read, reg_write,
}
use package.avaria.Ahci.Ports.{
  got_table, got_received, got_list, fill_registers, keep_pages, set_up_port, new_port_page,
  init_port, activate, try_port, try_ports, init_ports,
}
use package.avaria.Ahci.Driver.{
  driver, stop_port_same, start_port_same, new_port_page_same, fill_registers_same,
  identify_device_same,
}

-- Every active port is one of the 32 and has its three pages.
pub record HasPages (clb fb ctba : ℕ → ℕ) (port : ℕ) : Type 0 where
  pub port_in : port < 32
  pub command_list : clb port ≢ 0
  pub received : fb port ≢ 0
  pub table : ctba port ≢ 0

unfoldable pub IsSetUp : ℕ × (ℕ → ℕ) × (ℕ → ℕ) × (ℕ → ℕ) → Type 0
IsSetUp (active, clb, fb, ctba) =
    (port : ℕ) → test_bit active port ≡ true → HasPages clb fb ctba port

module _ {D : Type 0} (hba : Controller D) where
  -- What `init_port` has come to, with or without success.
  record Brought (port : ℕ) (r : Bool × Ahci D) : Type 0 where
    pub others : IsSetUp (driver r.1)
    pub pages : r.0 ≡ true → HasPages r.1.port_clb r.1.port_fb r.1.port_ctba port

  not-Brought :
      (port : ℕ) (s s' : Ahci D)
      → driver s' ≡ driver s
      → IsSetUp (driver s)
      → Brought port (false, s')
  not-Brought port s s' e h = record {
    others = subst (λ d. IsSetUp d) (sym e) h;
    pages = λ q. absurd (cc);
  }

  -- Three pages for a port leave the other ports as they were.
  new_pages :
      (active : ℕ) (clb fb ctba : ℕ → ℕ) (port c f t : ℕ)
      → IsSetUp (active, clb, fb, ctba)
      → port < 32
      → c ≢ 0
      → f ≢ 0
      → t ≢ 0
      → IsSetUp (active, update clb port c, update fb port f, update ctba port t)
        × HasPages (update clb port c) (update fb port f) (update ctba port t) port
  unfolding IsSetUp
  new_pages active clb fb ctba port c f t h lt hc hf ht =
      let here : HasPages (update clb port c) (update fb port f) (update ctba port t) port =
        record {
          port_in = lt;
          command_list = rw (==_self port) hc;
          received = rw (==_self port) hf;
          table = rw (==_self port) ht;
        } in
      (
        λ p on. elim (Bool-cases (port == p)) [
          | inl e ↦
              subst (λ q. HasPages (update clb port c) (update fb port f) (update ctba port t) q)
                (==→≡ port p e) here
          | inr e ↦
              let old = h p on in
              record {
                port_in = old.port_in;
                command_list = rw e old.command_list;
                received = rw e old.received;
                table = rw e old.table;
              }
        ],
        here,
      )

  set_up_port-Brought :
      (s : Ahci D) (port c f t : ℕ)
      → IsSetUp (driver s)
      → port < 32
      → c ≢ 0
      → f ≢ 0
      → t ≢ 0
      → Brought port (true, set_up_port hba s port c f t)
  unfolding set_up_port
  set_up_port-Brought s port c f t h lt hc hf ht =
      let kept = keep_pages hba s port c f t in
      let filled = fill_registers hba kept port c f t in
      let e = start_port_same hba filled port ∙ fill_registers_same hba kept port c f t in
      let both =
        new_pages s.active_ports s.port_clb s.port_fb s.port_ctba port c f t h lt hc hf ht in
      record {
        others = subst (λ d. IsSetUp d) (sym e) both.0;
        pages = λ q. subst (λ d. HasPages d.1 d.2 d.3 port) (sym e) both.1;
      }

  got_table-Brought :
      (port c f : ℕ) (r : ℕ × Ahci D)
      → IsSetUp (driver r.1)
      → port < 32
      → c ≢ 0
      → f ≢ 0
      → Brought port (got_table hba port c f r)
  unfolding got_table
  got_table-Brought port c f (t, s) h lt hc hf =
      if_Has_by (λ (r : Bool × Ahci D). Brought port r) (t == 0) (λ e. not-Brought port s s refl h)
        λ e. set_up_port-Brought s port c f t h lt hc hf (==→≢ t 0 e)

  after_page : (s : Ahci D) → IsSetUp (driver s) → IsSetUp (driver (new_port_page hba s).1)
  after_page s h = subst (λ d. IsSetUp d) (sym (new_port_page_same hba s)) h

  got_received-Brought :
      (port c : ℕ) (r : ℕ × Ahci D)
      → IsSetUp (driver r.1)
      → port < 32
      → c ≢ 0
      → Brought port (got_received hba port c r)
  unfolding got_received
  got_received-Brought port c (f, s) h lt hc =
      if_Has_by (λ (r : Bool × Ahci D). Brought port r) (f == 0) (λ e. not-Brought port s s refl h)
        λ e. got_table-Brought port c f (new_port_page hba s) (after_page s h) lt hc (==→≢ f 0 e)

  got_list-Brought :
      (port : ℕ) (r : ℕ × Ahci D)
      → IsSetUp (driver r.1)
      → port < 32
      → Brought port (got_list hba port r)
  unfolding got_list
  got_list-Brought port (c, s) h lt =
      if_Has_by (λ (r : Bool × Ahci D). Brought port r) (c == 0) (λ e. not-Brought port s s refl h)
        λ e. got_received-Brought port c (new_port_page hba s) (after_page s h) lt (==→≢ c 0 e)

  init_port-Brought :
      (s : Ahci D) (port : ℕ) → IsSetUp (driver s) → port < 32 → Brought port (init_port hba s port)
  unfolding init_port
  init_port-Brought s port h lt =
      let stopped = stop_port hba s port in
      got_list-Brought port (new_port_page hba stopped)
        (after_page stopped (subst (λ d. IsSetUp d) (sym (stop_port_same hba s port)) h)) lt

  more_active :
      (port : ℕ) (s : Ahci D)
      → Brought port (true, s)
      → IsSetUp (with_bit s.active_ports port, s.port_clb, s.port_fb, s.port_ctba)
  unfolding IsSetUp
  more_active port s b p on = elim (Bool-cases (port == p)) [
    | inl e ↦
        subst (λ q. HasPages s.port_clb s.port_fb s.port_ctba q) (==→≡ port p e) (b.pages refl)
    | inr e ↦ b.others p (sym (test_bit-with_bit_ne s.active_ports port p (==→≢ port p e)) ∙ on)
  ]

  activate-IsSetUp :
      (r : Bool × Ahci D) (port : ℕ) → Brought port r → IsSetUp (driver (activate hba r port))
  unfolding activate
  activate-IsSetUp (false, s) port b = b.others
  activate-IsSetUp (true, s) port b =
      let s' = record s { active_ports = with_bit s.active_ports port } in
      subst (λ d. IsSetUp d) (sym (identify_device_same hba s' port)) (more_active port s b)

  try_port-IsSetUp :
      (s : Ahci D) (port : ℕ)
      → IsSetUp (driver s)
      → port < 32
      → IsSetUp (driver (try_port hba s port))
  unfolding try_port
  try_port-IsSetUp s port h lt =
      let status = port_read hba s port ssts in
      let signature = port_read hba status.1 port sig in
      let Has = λ (x : Ahci D). IsSetUp (driver x) in
      let up =
        activate-IsSetUp (init_port hba signature.1 port) port
          (init_port-Brought signature.1 port h lt) in
      if_Has Has (not (bit_and status.0 0x0F == 3)) h (
        if_Has Has (not (bit_and (status.0 / 2 ^ 8) 0x0F == 1)) h
          (if_Has Has (not (signature.0 == sata_sig_ata)) h up))

  try_ports-IsSetUp :
      (pi : ℕ) (s : Ahci D) (port left : ℕ)
      → IsSetUp (driver s)
      → port + left ≤ 32
      → IsSetUp (driver (try_ports hba pi s port left))
  unfolding try_ports
  try_ports-IsSetUp pi s port zero h le = h
  try_ports-IsSetUp pi s port (suc left) h le =
      try_ports-IsSetUp pi (if test_bit pi port then try_port hba s port else s) (port + 1) left
        (if_Has (λ (x : Ahci D). IsSetUp (driver x)) (test_bit pi port)
          (try_port-IsSetUp s port h (omega arith)) h)
        (omega arith)

-- Whatever the controller answers, from a state in which every active port is one of the 32 and has
-- its command list, its area for received frames and its command table, `init` comes to such a state.
pub init_ports-IsSetUp :
    {D : Type 0} (hba : Controller D) (s : Ahci D)
    → IsSetUp (driver s)
    → IsSetUp (driver (init_ports hba s))
unfolding init_ports
init_ports-IsSetUp {D} hba s h =
    let ghc = reg_read hba s (s.abar + 4) in
    let s2 =
      if test_bit ghc.0 31 then ghc.1 else reg_write hba ghc.1 (s.abar + 4) (with_bit ghc.0 31) in
    let h2 : IsSetUp (driver s2) =
      if_Has (λ (x : Ahci D). IsSetUp (driver x)) (test_bit ghc.0 31) h h in
    let pi = reg_read hba s2 (s2.abar + 0x0C) in
    try_ports-IsSetUp hba pi.0 pi.1 0 32 h2 (omega arith)
