-- ===== src/Pci/Found.antt =====
-- `find_by_class` of `src/kern/drv/pci.rs` after `scan`, against the functions that a configuration
-- space holds.
use package.avaria.Prelude.{ℕ, zero, suc, ◌+◌, ◌<◌}
use package.avaria.Prelude.{
  ◌≡◌, refl, sym, ap, ◌∙◌, arith, Bool, Option, none, some, List, [], ◌∷◌, length, get_elem?,
  if◌then◌else◌, take,
}
use package.avaria.Pci.{Ports, PciAddr, PciDevice, Pci, scan, is_class, search_from, find_by_class}
use package.avaria.Pci.Space.{IsConfigSpace, buses_present, Holds}
use package.avaria.Prelude.{length-take}
use package.avaria.Pci.Scanned.{buses_found}

-- The address of the first device that the test accepts.
abbrev pub first_match : (PciDevice → Bool) → List PciDevice → Option PciAddr
first_match test [] = none
first_match test (d ∷ ds) = if test d then some d.addr else first_match test ds

search_from_listed :
    (devices : ℕ → Option PciDevice) (test : PciDevice → Bool) (i : ℕ) (ds : List PciDevice)
    → ((j : ℕ) → j < length ds → devices (i + j) ≡ get_elem? ds j)
    → search_from devices test i (length ds) ≡ first_match test ds
unfolding search_from
search_from_listed devices test i [] listed = refl
search_from_listed devices test i (d ∷ ds) listed =
    let here : devices i ≡ some d = ap devices (omega arith) ∙ listed 0 (omega arith) in
    let rest =
      search_from_listed devices test (i + 1) ds
        λ j h. ap devices (omega arith) ∙ listed (suc j) (omega arith) in
    rw here (ap (λ r. if test d then some d.addr else r) rest)

get_elem?-take :
    (n : ℕ) (ds : List PciDevice) (j : ℕ) → j < n → get_elem? (take n ds) j ≡ get_elem? ds j
get_elem?-take zero ds j h = absurd (omega arith)
get_elem?-take (suc n) [] j h = refl
get_elem?-take (suc n) (d ∷ ds) zero h = refl
get_elem?-take (suc n) (d ∷ ds) (suc j) h = get_elem?-take n ds j (omega arith)

find-Holds :
    {P : Type 0} {view : P → ℕ → ℕ} {space : ℕ → ℕ} {found : List PciDevice} {s : Pci P}
    → Holds view space found s
    → (class subclass prog_if : ℕ)
    → find_by_class s class subclass prog_if
      ≡ first_match (is_class class subclass prog_if) (take 64 found)
unfolding find_by_class
find-Holds {found} {s} h class subclass prog_if =
    let long = length-take 64 found in
    rw (h.listed ∙ sym long) (
      search_from_listed s.devices (is_class class subclass prog_if) 0 (take 64 found) λ j lt.
        ap s.devices (let e : 0 + j ≡ j = omega arith in e)
        ∙ (h.stored j (omega (arith, long))
            ∙ sym (get_elem?-take 64 found j (omega (arith, long)))))

scan-Holds :
    {P : Type 0} (io : Ports P) (view : P → ℕ → ℕ)
    → IsConfigSpace io view
    → (s : Pci P) → s.pci_count ≡ 0
    → Holds view (view s.ports) (buses_present (view s.ports) 0 256) (scan io s)
unfolding scan
scan-Holds io view law s fresh =
    let start : Holds view (view s.ports) [] (record s { count = 0 }) = record {
      same_space = refl;
      counted = refl;
      listed = fresh;
      stored = λ i h. absurd (omega arith);
    } in
    buses_found io view law (view s.ports) [] (record s { count = 0 }) 0 256 start

-- With ports that lead to a configuration space and an empty table, `find_by_class` after `scan` gives
-- the address of the first function of the class among the first 64 that are present, in the order
-- of bus, device and function; the functions above 0 are looked at where function 0 is present and
-- its header says that there are several.
pub find_by_class-scan :
    {P : Type 0} (io : Ports P) (view : P → ℕ → ℕ)
    → IsConfigSpace io view
    → (s : Pci P) (class subclass prog_if : ℕ) → s.pci_count ≡ 0
    → find_by_class (scan io s) class subclass prog_if
      ≡ first_match (is_class class subclass prog_if) (take 64 (buses_present (view s.ports) 0 256))
find_by_class-scan io view law s class subclass prog_if fresh =
    find-Holds (scan-Holds io view law s fresh) class subclass prog_if
