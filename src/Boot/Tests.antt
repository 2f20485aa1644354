-- ===== src/Boot/Tests.antt =====
-- The loading of modules, on an archive with one file that is no executable.
use package.avaria.Prelude.{◌≡◌, refl, arith, [], ◌∷◌, replicate, some, false}
use package.avaria.Initrd.{TarFs, for_each_matching}
use package.avaria.Mm.Heap.{new_heap}
use package.avaria.Sched.{boot, init}
use package.avaria.Sched.Steps.{init-IsValid}
use package.avaria.Boot.{modules_dir, module_suffix, Loader, load_modules, find_module}
use package.avaria.Boot.Modules.{Loads, load_modules-Loads}

abbrev no_program : TarFs
no_program =
    record {
      name =
          b'b' ∷ b'o' ∷ b'o' ∷ b't' ∷ b'/' ∷ b'm' ∷ b'o' ∷ b'd' ∷ b'u' ∷ b'l' ∷ b'e' ∷ b's' ∷ b'/'
          ∷ b'a' ∷ b'.' ∷ b'k' ∷ b'o' ∷ [];
      contents = replicate 64 0;
      is_dir = false;
    }
    ∷ []

abbrev fresh : Loader
fresh = record {
  buffers = λ i. replicate 0x10000 0;
  mod_idx = 0;
  sched = init boot;
  heap = new_heap;
  memory = λ a. 0;
}

load_modules-Loads_example :
    Loads 0 0x1000 0x100000 0x8000 0x9000 fresh
      (λ a. 0)
      (for_each_matching no_program modules_dir module_suffix)
      (load_modules 0 0x1000 0x100000 0x8000 0x9000 fresh no_program)
load_modules-Loads_example =
    load_modules-Loads 0 0x1000 0x100000 0x8000 0x9000 fresh no_program (omega arith) init-IsValid

second_module :
    find_module (some ((1 ∷ [], 5 ∷ []) ∷ (2 ∷ [], 6 ∷ []) ∷ [])) (2 ∷ []) ≡ some (6 ∷ [])
unfolding find_module
second_module = refl
