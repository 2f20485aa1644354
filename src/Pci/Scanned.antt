-- ===== src/Pci/Scanned.antt =====
-- The table that `scan` of `src/kern/drv/pci.rs` leaves, against the functions that a configuration
-- space holds.
use package.avaria.Prelude.{ℕ, zero, suc, ◌+◌, ◌<◌, bit_and}
use package.avaria.Prelude.{
  ◌≡◌, refl, sym, ap, ◌∙◌, arith, inl, inr, List, [], ◌∷◌, ◌++◌, length, length-append, ◌==◌, ltb,
  Bool-cases, ltb→lt, ltb→le, ==→≡, ==→≢, append_assoc, append_nil, get_elem?-append_left,
  get_elem?-append_last,
}
use package.avaria.Pci.{
  Ports, PciAddr, PciDevice, Pci, config_address, half_of, byte_of, config_read32, config_read16,
  config_read8, read_device, add_device, scan_func, scan_funcs, scan_dev, scan_devs, scan_buses,
}
use package.avaria.Pci.Space.{
  func_count, IsConfigSpace, half_at, byte_at, device_at, func_present, funcs_present, dev_present,
  devs_present, buses_present, Holds, func_absent, func_there, dev_absent, dev_there,
  scan_func_absent, scan_func_there, scan_dev_absent, scan_dev_there,
}

module _ {P : Type 0} (io : Ports P) (view : P → ℕ → ℕ) (law : IsConfigSpace io view) where
  read16_same :
      (p : P) (a : PciAddr) (offset : ℕ)
      → ((config_read16 io p a offset).0 ≡ half_at (view p) a offset)
        × (view (config_read16 io p a offset).1 ≡ view p)
  unfolding config_read16 config_read32
  read16_same p a offset =
      let at = config_address a (bit_and offset 0xFC) in
      (ap (half_of offset) (law.value p at), law.same p at)

  read8_same :
      (p : P) (a : PciAddr) (offset : ℕ)
      → ((config_read8 io p a offset).0 ≡ byte_at (view p) a offset)
        × (view (config_read8 io p a offset).1 ≡ view p)
  unfolding config_read8 config_read32
  read8_same p a offset =
      let at = config_address a (bit_and offset 0xFC) in
      (ap (byte_of offset) (law.value p at), law.same p at)

  read_device_same :
      (p : P) (a : PciAddr) (vid : ℕ)
      → vid ≡ half_at (view p) a 0
      → ((read_device io p a vid).0 ≡ device_at (view p) a)
        × (view (read_device io p a vid).1 ≡ view p)
  unfolding read_device
  read_device_same p a vid known =
      let d = read16_same p a 2 in
      let p1 = (config_read16 io p a 2).1 in
      let c = read8_same p1 a 0x0B in
      let p2 = (config_read8 io p1 a 0x0B).1 in
      let u = read8_same p2 a 0x0A in
      let p3 = (config_read8 io p2 a 0x0A).1 in
      let g = read8_same p3 a 0x09 in
      let v2 = c.1 ∙ d.1 in
      let v3 = u.1 ∙ v2 in
      let class_same = c.0 ∙ ap (λ v. byte_at v a 0x0B) d.1 in
      let subclass_same = u.0 ∙ ap (λ v. byte_at v a 0x0A) v2 in
      let prog_if_same = g.0 ∙ ap (λ v. byte_at v a 0x09) v3 in
      (rw (known, d.0, class_same, subclass_same, prog_if_same) refl, g.1 ∙ v3)

  module _ (space : ℕ → ℕ) where
    -- Reads change neither the table nor the space.
    after_read :
        (found : List PciDevice) (s : Pci P) (p : P)
        → Holds view space found s
        → view p ≡ space
        → Holds view space found (record s { ports = p })
    after_read found s p h e = record {
      same_space = e;
      counted = h.counted;
      listed = h.listed;
      stored = h.stored;
    }

    after_add :
        (found : List PciDevice) (s : Pci P) (d : PciDevice) (p : P)
        → Holds view space found s
        → view p ≡ space
        → Holds view space (found ++ (d ∷ [])) (add_device io s (d, p))
    after_add found s d p h e =
        let longer = length-append found (d ∷ []) in
        elim (Bool-cases (ltb s.count 64)) [
          | inl q ↦ rw q (record {
            same_space = e;
            counted = omega (arith, h.counted, longer);
            listed = omega (arith, h.counted, longer, ltb→lt s.count 64 q);
            stored = λ i lt. elim (Bool-cases (s.count == i)) [
              | inl same ↦
                  rw (same, sym (==→≡ s.count i same), h.counted)
                    (sym (get_elem?-append_last found d))
              | inr other ↦
                  let below : i < length found =
                    omega (arith, ==→≢ s.count i other, longer, h.counted, ltb→lt s.count 64 q) in
                  rw other (
                    h.stored i (omega (arith, h.counted, ltb→lt s.count 64 q))
                    ∙ sym (get_elem?-append_left found (d ∷ []) i below))
            ];
          })
          | inr q ↦ rw q (record {
            same_space = e;
            counted = omega (arith, h.counted, longer);
            listed = omega (arith, h.counted, h.listed, longer, ltb→le s.count 64 q);
            stored = λ i lt.
                let full = ltb→le s.count 64 q in
                h.stored i (omega (arith, h.counted, full))
                ∙ sym (get_elem?-append_left found (d ∷ []) i (omega (arith, h.counted, full)));
          })
        ]

    func_found :
        (found : List PciDevice) (s : Pci P) (a : PciAddr)
        → Holds view space found s
        → Holds view space (found ++ func_present space a) (scan_func io s a)
    func_found found s a h =
        let r = read16_same s.ports a 0 in
        let p = (config_read16 io s.ports a 0).1 in
        let vid = (config_read16 io s.ports a 0).0 in
        let vid_same : vid ≡ half_at space a 0 = r.0 ∙ ap (λ v. half_at v a 0) h.same_space in
        let p_same : view p ≡ space = r.1 ∙ h.same_space in
        elim (Bool-cases (half_at space a 0 == 0xFFFF)) [
          | inl q ↦
              rw
                (
                  func_absent space a q,
                  scan_func_absent io s a (ap (λ v. v == 0xFFFF) vid_same ∙ q),
                )
                (rw (append_nil found) (after_read found s p h p_same))
          | inr q ↦
              let d = read_device_same p a vid (vid_same ∙ ap (λ v. half_at v a 0) (sym p_same)) in
              let d_same : (read_device io p a vid).0 ≡ device_at space a =
                d.0 ∙ ap (λ v. device_at v a) p_same in
              let added : Holds view space (found ++ ((read_device io p a vid).0 ∷ []))
                  (add_device io s (read_device io p a vid)) =
                after_add found s (read_device io p a vid).0 (read_device io p a vid).1 h
                  (d.1 ∙ p_same) in
              rw
                (
                  func_there space a q ∙ ap (λ x. x ∷ []) (sym d_same),
                  scan_func_there io s a (ap (λ v. v == 0xFFFF) vid_same ∙ q),
                )
                added
        ]

    funcs_found :
        (found : List PciDevice) (s : Pci P) (bus dev func left : ℕ)
        → Holds view space found s
        → Holds view space
            (found ++ funcs_present space bus dev func left)
            (scan_funcs io s bus dev func left)
    unfolding scan_funcs funcs_present
    funcs_found found s bus dev func zero h = rw (append_nil found) h
    funcs_found found s bus dev func (suc left) h =
        let a : PciAddr = record { bus = bus; dev = dev; func = func } in
        let now = func_present space a in
        rw (sym (append_assoc found now (funcs_present space bus dev (func + 1) left))) (
          funcs_found (found ++ now) (scan_func io s a) bus dev (func + 1) left
            (func_found found s a h))

    dev_found :
        (found : List PciDevice) (s : Pci P) (bus dev : ℕ)
        → Holds view space found s
        → Holds view space (found ++ dev_present space bus dev) (scan_dev io s bus dev)
    dev_found found s bus dev h =
        let a : PciAddr = record { bus = bus; dev = dev; func = 0 } in
        let r = read16_same s.ports a 0 in
        let p1 = (config_read16 io s.ports a 0).1 in
        let p1_same : view p1 ≡ space = r.1 ∙ h.same_space in
        let vendor_same = r.0 ∙ ap (λ v. half_at v a 0) h.same_space in
        let t = read8_same p1 a 0x0E in
        let p2 = (config_read8 io p1 a 0x0E).1 in
        let header_same : (config_read8 io p1 a 0x0E).0 ≡ byte_at space a 0x0E =
          t.0 ∙ ap (λ v. byte_at v a 0x0E) p1_same in
        let s2 = record s { ports = p2 } in
        elim (Bool-cases (half_at space a 0 == 0xFFFF)) [
          | inl q ↦
              rw
                (
                  dev_absent space bus dev q,
                  scan_dev_absent io s bus dev (ap (λ v. v == 0xFFFF) vendor_same ∙ q),
                )
                (rw (append_nil found) (after_read found s p1 h p1_same))
          | inr q ↦
              rw
                (
                  dev_there space bus dev q,
                  scan_dev_there io s bus dev (ap (λ v. v == 0xFFFF) vendor_same ∙ q) header_same,
                )
                (funcs_found found s2 bus dev 0 (func_count (byte_at space a 0x0E))
                  (after_read found s p2 h (t.1 ∙ p1_same)))
        ]

    devs_found :
        (found : List PciDevice) (s : Pci P) (bus dev left : ℕ)
        → Holds view space found s
        → Holds view space (found ++ devs_present space bus dev left) (scan_devs io s bus dev left)
    unfolding scan_devs devs_present
    devs_found found s bus dev zero h = rw (append_nil found) h
    devs_found found s bus dev (suc left) h =
        let now = dev_present space bus dev in
        rw (sym (append_assoc found now (devs_present space bus (dev + 1) left))) (
          devs_found (found ++ now) (scan_dev io s bus dev) bus (dev + 1) left
            (dev_found found s bus dev h))

    pub buses_found :
        (found : List PciDevice) (s : Pci P) (bus left : ℕ)
        → Holds view space found s
        → Holds view space (found ++ buses_present space bus left) (scan_buses io s bus left)
    unfolding scan_buses buses_present
    buses_found found s bus zero h = rw (append_nil found) h
    buses_found found s bus (suc left) h =
        let now = devs_present space bus 0 32 in
        rw (sym (append_assoc found now (buses_present space (bus + 1) left))) (
          buses_found (found ++ now) (scan_devs io s bus 0 32) (bus + 1) left
            (devs_found found s bus 0 32 h))
