-- ===== src/Boot.antt =====
-- What `_start` of `src/main.rs` does with the boot loader's modules and with the initial ram disk: a
-- module of the boot loader is found by its command line, files are read for loaded modules, and
-- every `.ko` file is loaded into a buffer of its own, made executable and started as a task.
pub mod Modules
mod Tests
use avaria.Prelude.{
  ℕ, ◌+◌, ◌*◌, Bool, leb, if◌then◌else◌, Option, none, some, List, [], ◌∷◌, bytes_equal, update,
}
use avaria.Elf.{Outcome, ok, err, panics, out_of_bounds, LoadedElf, load_at}
use avaria.Initrd.{TarFs, read, for_each_matching}
use avaria.Mm.Heap.{Heap}
use avaria.Mm.Paging.{Memory, make_executable}
use avaria.Sched.{Sched, spawn}

-- The modules of the boot loader: command line and bytes.
abbrev pub first_named : List ℕ → List (List ℕ × List ℕ) → Option (List ℕ)
first_named name [] = none
first_named name ((cmdline, bytes) ∷ rest) =
    if bytes_equal cmdline name then some bytes else first_named name rest

-- The answer to the request for modules may be missing.
unfoldable pub find_module : Option (List (List ℕ × List ℕ)) → List ℕ → Option (List ℕ)
find_module none name = none
find_module (some modules) name = first_named name modules

-- What `api_fs_read` writes for its caller, with the result 0; without it the result is -1.
unfoldable pub api_fs_read : Option TarFs → List ℕ → Option (List ℕ)
unfolding read
api_fs_read none path = none
api_fs_read (some fs) path = read fs path

abbrev pub max_modules : ℕ
max_modules = 16

-- `MODULE_BUFS` and `mod_idx`, with the tasks, the heap and the page tables.
pub record Loader : Type 0 where
  pub buffers : ℕ → List ℕ
  pub mod_idx : ℕ
  pub sched : Sched
  pub heap : Heap
  pub memory : Memory

-- `boot/modules/` and `.ko`.
abbrev pub modules_dir : List ℕ
modules_dir =
    b'b' ∷ b'o' ∷ b'o' ∷ b't' ∷ b'/' ∷ b'm' ∷ b'o' ∷ b'd' ∷ b'u' ∷ b'l' ∷ b'e' ∷ b's' ∷ b'/' ∷ []

abbrev pub module_suffix : List ℕ
module_suffix = b'.' ∷ b'k' ∷ b'o' ∷ []

-- `bufs` is the address of `MODULE_BUFS`, `api` that of the table of functions.
module _ (hhdm cr3 bufs api trampoline : ℕ) where
  abbrev pub buffer_address : ℕ → ℕ
  buffer_address i = bufs + 0x10000 * i

  -- After `load_at`: none is a panic, or a read beyond the file.
  pub start_module : Loader → List ℕ → List ℕ × Outcome LoadedElf → Option Loader
  unfolding make_executable spawn
  start_module l path (buffer, ok loaded) =
      let (sched', heap', slot) = spawn trampoline loaded.entry api path l.sched l.heap in
      some (record {
        buffers = update l.buffers l.mod_idx buffer;
        mod_idx = l.mod_idx + 1;
        sched = sched';
        heap = heap';
        memory = make_executable hhdm cr3 loaded.load_base loaded.load_size l.memory;
      })
  start_module l path (buffer, err e) =
      some (record l { buffers = update l.buffers l.mod_idx buffer })
  start_module l path (buffer, panics) = none
  start_module l path (buffer, out_of_bounds) = none

  -- The function that `for_each_matching` is given.
  pub load_module : Loader → List ℕ → List ℕ → Option Loader
  unfolding start_module load_at
  load_module l path ko_data =
      if leb max_modules l.mod_idx
      then some l
      else start_module l path (load_at ko_data (buffer_address l.mod_idx) (l.buffers l.mod_idx))

  pub load_each : Option Loader → List (List ℕ × List ℕ) → Option Loader
  unfolding load_module
  load_each r [] = r
  load_each none (f ∷ fs) = none
  load_each (some l) ((path, ko_data) ∷ fs) = load_each (load_module l path ko_data) fs

  unfoldable pub load_modules : Loader → TarFs → Option Loader
  unfolding load_each for_each_matching
  load_modules l fs = load_each (some l) (for_each_matching fs modules_dir module_suffix)
