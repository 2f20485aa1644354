-- ===== src/Elf/Span.antt =====
-- The addresses that the segments take (`load_at` of `src/kern/crates/avaria-elf/src/loader.rs`).
use avaria.Prelude.{ℕ, ◌+◌, ◌-◌, ◌^◌, ◌<◌, ◌≤◌, ◌≡◌, sym, ◌∙◌, arith, true, false}
use avaria.Prelude.{ltb, Bool-cases, inl, inr, if◌then◌else◌, List, [], ◌∷◌}
use avaria.Prelude.{add_w}
use avaria.Elf.{Elf64Phdr, is_load, span}
use avaria.Elf.{}

-- A segment of the file that is no longer than its memory, and neither wraps.
pub record Fits (ph : Elf64Phdr) : Type 0 where
  pub in_memory : ph.p_vaddr + ph.p_memsz < 2 ^ 64 - 1
  pub in_file : ph.p_offset + ph.p_filesz < 2 ^ 64
  pub covered : ph.p_filesz ≤ ph.p_memsz

-- All loadable segments fit.
pub data AllFit : List Elf64Phdr → Type 0 where
  no_more : AllFit []
  one_more :
      {ph : Elf64Phdr} {phs : List Elf64Phdr}
      → (is_load ph ≡ true → Fits ph)
      → AllFit phs
      → AllFit (ph ∷ phs)

-- All loadable segments lie from `lo` up to `hi`.
pub data AllWithin (lo hi : ℕ) : List Elf64Phdr → Type 0 where
  none_within : AllWithin lo hi []
  one_within :
      {ph : Elf64Phdr} {phs : List Elf64Phdr}
      → (is_load ph ≡ true → (lo ≤ ph.p_vaddr) × (ph.p_vaddr + ph.p_memsz ≤ hi))
      → AllWithin lo hi phs
      → AllWithin lo hi (ph ∷ phs)

pub span-widens :
    (phs : List Elf64Phdr) (lo hi : ℕ) → ((span phs lo hi).0 ≤ lo) × (hi ≤ (span phs lo hi).1)
unfolding span
span-widens [] lo hi = (omega arith, omega arith)
span-widens (ph ∷ phs) lo hi = elim (Bool-cases (is_load ph)) [
  | inr e ↦ rw e (span-widens phs lo hi)
  | inl e ↦
      let end = add_w 64 ph.p_vaddr ph.p_memsz in
      let lo' = if ltb ph.p_vaddr lo then ph.p_vaddr else lo in
      let hi' = if ltb hi end then end else hi in
      let rest = span-widens phs lo' hi' in
      let low : lo' ≤ lo = ground arith in
      let high : hi ≤ hi' = ground arith in rw e (omega (arith, rest.0), omega (arith, rest.1))
]

pub span-AllWithin :
    {phs : List Elf64Phdr} (lo hi : ℕ)
    → AllFit phs
    → AllWithin (span phs lo hi).0 (span phs lo hi).1 phs
unfolding span
span-AllWithin lo hi no_more = none_within
span-AllWithin lo hi (one_more {ph} {phs} f fs) = elim (Bool-cases (is_load ph)) [
  | inr e ↦ rw e (
      one_within (λ l. let bad : false ≡ true = sym e ∙ l in absurd (cc)) (span-AllWithin lo hi fs))
  | inl e ↦
      let end = add_w 64 ph.p_vaddr ph.p_memsz in
      let lo' = if ltb ph.p_vaddr lo then ph.p_vaddr else lo in
      let hi' = if ltb hi end then end else hi in
      let fit = f e in
      let straight : end ≡ ph.p_vaddr + ph.p_memsz = omega (arith, fit.in_memory) in
      let rest = span-widens phs lo' hi' in
      let low : lo' ≤ ph.p_vaddr = ground arith in
      let high : end ≤ hi' = ground arith in
      rw e (
        one_within (λ _. (omega (arith, rest.0), omega (arith, rest.1)))
          (span-AllWithin lo' hi' fs))
]

pub span-lt : (phs : List Elf64Phdr) (lo hi : ℕ) → hi < 2 ^ 64 → (span phs lo hi).1 < 2 ^ 64
unfolding span
span-lt [] lo hi h = h
span-lt (ph ∷ phs) lo hi h = elim (Bool-cases (is_load ph)) [
  | inr e ↦ rw e (span-lt phs lo hi h)
  | inl e ↦
      let end = add_w 64 ph.p_vaddr ph.p_memsz in
      rw e (
        span-lt phs (if ltb ph.p_vaddr lo then ph.p_vaddr else lo) (if ltb hi end then end else hi)
          (ground arith))
]
