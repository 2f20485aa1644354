-- ===== src/Boot/Modules.antt =====
-- The state of the kernel after modules are loaded (`_start` of `src/main.rs`).
use package.avaria.Prelude.{
  ℕ, ◌+◌, ◌*◌, ◌<◌, ◌≤◌, ◌≡◌, refl, sym, ◌∙◌, ◌⊎◌, inl, inr, ◌++◌, append_assoc, append_nil, ap,
  arith, leb, leb→lt, if_Has_by, Option, none, some, List, [], ◌∷◌,
}
use package.avaria.Elf.{Outcome, ok, err, panics, out_of_bounds, LoadedElf, load_at}
use package.avaria.Initrd.{TarFs, for_each_matching}
use package.avaria.Mm.Paging.{Memory}
use package.avaria.Mm.Paging.Access.{MoreRights, MoreRights-refl, MoreRights-trans}
use package.avaria.Mm.Paging.Rights.{make_executable-MoreRights}
use package.avaria.Sched.Pick.{IsValid}
use package.avaria.Sched.Steps.{spawn-IsValid}
use package.avaria.Boot.{
  Loader, start_module, load_module, load_each, load_modules, modules_dir, module_suffix,
}

-- From the memory `before` only rights are added; at most sixteen modules are in; the tasks are valid.
pub record Sound (before : Memory) (l : Loader) : Type 0 where
  pub few : l.mod_idx ≤ 16
  pub tasks : IsValid l.sched
  pub rights : MoreRights before l.memory

-- `load_at` on a file, in the buffer of a loader's next module.
abbrev pub loading : ℕ → Loader → List ℕ → Outcome LoadedElf
loading bufs l ko_data = (load_at ko_data (bufs + 0x10000 * l.mod_idx) (l.buffers l.mod_idx)).1

module _ (hhdm cr3 bufs api trampoline : ℕ) where
  -- What the loading of files gives: a sound state; or an end before the last file, at one that comes
  -- while there is a buffer left, after files that were loaded to a sound state, and on which `load_at`
  -- panics or reads beyond the file.
  pub data Loads (l : Loader) (before : Memory) (files : List (List ℕ × List ℕ))
      : Option Loader → Type 0 where
    loaded : {l' : Loader} → Sound before l' → Loads l before files (some l')
    ended :
        (done rest : List (List ℕ × List ℕ)) (path ko_data : List ℕ) (l' : Loader)
        → files ≡ done ++ ((path, ko_data) ∷ rest)
        → load_each hhdm cr3 bufs api trampoline (some l) done ≡ some l'
        → Sound before l'
        → l'.mod_idx < 16
        → (loading bufs l' ko_data ≡ panics) ⊎ (loading bufs l' ko_data ≡ out_of_bounds)
        → Loads l before files none

  module _ (before : Memory) where
    -- One file: a sound state, or an end.
    data Steps (l : Loader) (ko_data : List ℕ) : Option Loader → Type 0 where
      goes_on : {l' : Loader} → Sound before l' → Steps l ko_data (some l')
      ends :
          l.mod_idx < 16
          → (loading bufs l ko_data ≡ panics) ⊎ (loading bufs l ko_data ≡ out_of_bounds)
          → Steps l ko_data none

    start_module-Steps :
        (l : Loader) (path ko_data : List ℕ) (r : List ℕ × Outcome LoadedElf)
        → load_at ko_data (bufs + 0x10000 * l.mod_idx) (l.buffers l.mod_idx) ≡ r
        → l.mod_idx < 16
        → Sound before l
        → Steps l ko_data (start_module hhdm cr3 bufs api trampoline l path r)
    unfolding start_module
    start_module-Steps l path ko_data (buffer, ok elf) e lt h = goes_on (record {
      few = omega arith;
      tasks = spawn-IsValid h.tasks trampoline elf.entry api path l.heap;
      rights =
          MoreRights-trans before l.memory _ h.rights
            (make_executable-MoreRights hhdm cr3 elf.load_base elf.load_size l.memory);
    })
    start_module-Steps l path ko_data (buffer, err x) e lt h =
        goes_on (record { few = h.few; tasks = h.tasks; rights = h.rights })
    start_module-Steps l path ko_data (buffer, panics) e lt h = ends lt (inl (ap (λ x. x.1) e))
    start_module-Steps l path ko_data (buffer, out_of_bounds) e lt h =
        ends lt (inr (ap (λ x. x.1) e))

    load_module-Steps :
        (l : Loader) (path ko_data : List ℕ)
        → Sound before l
        → Steps l ko_data (load_module hhdm cr3 bufs api trampoline l path ko_data)
    unfolding load_module
    load_module-Steps l path ko_data h =
        if_Has_by (λ (r : Option Loader). Steps l ko_data r) (leb 16 l.mod_idx) (λ e. goes_on h)
          (λ e. start_module-Steps l path ko_data _ refl (leb→lt 16 l.mod_idx e) h)

    load_each-none :
        (files : List (List ℕ × List ℕ)) → load_each hhdm cr3 bufs api trampoline none files ≡ none
    unfolding load_each
    load_each-none [] = refl
    load_each-none (f ∷ fs) = refl

    one_file :
        (l : Loader) (path ko_data : List ℕ) {r : Option Loader}
        → load_module hhdm cr3 bufs api trampoline l path ko_data ≡ r
        → load_each hhdm cr3 bufs api trampoline (some l) ((path, ko_data) ∷ []) ≡ r
    unfolding load_each
    one_file l path ko_data e = e

    load_each-append :
        (r : Option Loader) (fs gs : List (List ℕ × List ℕ))
        → load_each hhdm cr3 bufs api trampoline r (fs ++ gs)
          ≡ load_each hhdm cr3 bufs api trampoline (load_each hhdm cr3 bufs api trampoline r fs) gs
    unfolding load_each
    load_each-append r [] gs = refl
    load_each-append none (f ∷ fs) gs = sym (load_each-none gs)
    load_each-append (some l) ((path, ko_data) ∷ fs) gs =
        load_each-append (load_module hhdm cr3 bufs api trampoline l path ko_data) fs gs

    -- One file after the files `done`, and then the rest of the files.
    onward_Loads :
        (start l : Loader) (done : List (List ℕ × List ℕ)) (path ko_data : List ℕ)
        (fs : List (List ℕ × List ℕ))
        → load_each hhdm cr3 bufs api trampoline (some start) done ≡ some l
        → Sound before l
        → ((l' : Loader)
            → load_each hhdm cr3 bufs api trampoline (some start) (done ++ ((path, ko_data) ∷ []))
              ≡ some l'
            → Sound before l'
            → Loads start before
                ((done ++ ((path, ko_data) ∷ [])) ++ fs)
                (load_each hhdm cr3 bufs api trampoline (some l') fs))
        → (r : Option Loader) → load_module hhdm cr3 bufs api trampoline l path ko_data ≡ r
        → Steps l ko_data r
        → Loads start before
            (done ++ ((path, ko_data) ∷ fs))
            (load_each hhdm cr3 bufs api trampoline r fs)
    onward_Loads start l done path ko_data fs so h rest none e (ends lt out) =
        rw (load_each-none fs) (ended done fs path ko_data l refl so h lt out)
    onward_Loads start l done path ko_data fs so h rest (some l') e (goes_on h') =
        rw (sym (append_assoc done ((path, ko_data) ∷ []) fs)) (
          rest l'
            (load_each-append (some start) done ((path, ko_data) ∷ [])
              ∙ (ap (λ x. load_each hhdm cr3 bufs api trampoline x ((path, ko_data) ∷ [])) so
                  ∙ one_file l path ko_data e))
            h')

    load_each-Loads :
        (start l : Loader) (done rest : List (List ℕ × List ℕ))
        → load_each hhdm cr3 bufs api trampoline (some start) done ≡ some l
        → Sound before l
        → Loads start before (done ++ rest) (load_each hhdm cr3 bufs api trampoline (some l) rest)
    unfolding load_each
    load_each-Loads start l done [] so h = rw (append_nil done) (loaded h)
    load_each-Loads start l done ((path, ko_data) ∷ fs) so h =
        onward_Loads start l done path ko_data fs so h
          (λ l' so' h'. load_each-Loads start l' (done ++ ((path, ko_data) ∷ [])) fs so' h')
          (load_module hhdm cr3 bufs api trampoline l path ko_data) refl
          (load_module-Steps l path ko_data h)

-- From a valid table of tasks, with at most sixteen modules in, the loading of the modules of any
-- archive ends with a valid table of tasks, at most sixteen modules, and page tables in which
-- entries have gained rights and kept what they map; or it ends before that, at a module file of the
-- archive, with a buffer left and the files before it loaded, on which `load_at` panics or reads beyond
-- the file.
pub load_modules-Loads :
    (hhdm cr3 bufs api trampoline : ℕ) (l : Loader) (fs : TarFs)
    → l.mod_idx ≤ 16
    → IsValid l.sched
    → Loads hhdm cr3 bufs api trampoline l l.memory
        (for_each_matching fs modules_dir module_suffix)
        (load_modules hhdm cr3 bufs api trampoline l fs)
unfolding load_modules
load_modules-Loads hhdm cr3 bufs api trampoline l fs few tasks =
    load_each-Loads hhdm cr3 bufs api trampoline l.memory l l [] _ refl
      (record { few = few; tasks = tasks; rights = MoreRights-refl l.memory })
