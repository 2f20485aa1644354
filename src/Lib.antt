-- ===== src/Lib.antt =====
-- Avaria, an operating system kernel for x86-64. It manages one region of memory with a buddy
-- allocator of pages and a slab allocator of small objects, switches between sixteen tasks on the
-- timer interrupt, and passes fixed-size messages between components.
--
-- Prelude: Boolean tests, lists over native numbers, bits, machine words, finite updates.
-- Fifo: bounded queues and the array ring that holds one.
-- Ipc (src/kern/arch/x86_64/ipc.rs): `Message`, `RingBuffer`, `Channel` and the table of channels.
--   Ipc.Service is the contract of the table, without rings; Ipc.Lock is `SpinLock`, as a step
--   relation over threads that interleave in any way.
-- Mm (src/kern/mm and src/kern/mem.rs): Mm.Buddy is `BuddyAllocator`, Mm.Slab is `SlabPage`,
--   Mm.Cache is `SlabCache` and `SlabAllocator`, Mm.Heap is `mem.rs` over both. Mm.Paging is the
--   walks of page tables in `mem.rs` and in src/kern/drv/ring3/mod.rs, next to the processor's own
--   walk, and Mm.Mmio is `map_mmio`.
-- Arch (src/kern/arch/x86_64): Arch.Pic is `pic.rs`, Arch.Context is `IsrContext` of `idt.rs`,
--   Arch.Gdt is `gdt.rs`, Arch.Tss is `tss.rs`, Arch.Idt is the gates, the entry stubs and the
--   handlers of `idt.rs`, Arch.Clock is `pit.rs` and `tsc.rs`, Arch.Lapic is `lapic.rs`, Arch.Cpu is
--   `cpu.rs`, Arch.Smp is `smp.rs`, as a step relation over processors that interleave in any way.
-- Sched (src/kern/sched.rs): the task table, `timer_tick`, `spawn`, `task_exit`; Sched.Steps is
--   every sequence of these operations.
-- Serial (src/kern/serial.rs): port writes, and numbers as digits.
-- Keyboard (src/kern/drv/ps2/mod.rs): scan codes, modifier keys and the buffer of characters;
--   Keyboard.Typing is the keyboard as its users see it, two modifiers and a queue, and
--   Keyboard.Controller is the handshake with the controller, over a parameter for what it answers.
-- Elf (src/kern/crates/avaria-elf): the headers of an executable and `load_at`.
-- Gfx (src/kern/gfx): Gfx.Frame is `Framebuffer`, Gfx.Psf is `PsfFont`.
-- Ext3 (src/kern/fs/ext3): Ext3.Disk is `block.rs` and `superblock.rs`, Ext3.Inodes is `inode.rs`,
--   Ext3.Dirs is `dir.rs` and the reading of files in `mod.rs`, Ext3.Mounted its mounting and
--   listing. What the disk driver answers is a parameter, and buffers come from Mm.Heap.
-- Initrd (src/kern/fs/initrd.rs): `TarFs`, over a parameter for `from_utf8`.
-- Pci (src/kern/drv/pci.rs): configuration space over a parameter for the two ports, the scan and
--   the table of functions.
-- Ahci (src/kern/drv/disk/ahci.rs): the disk driver over a parameter for the controller, which may
--   change its registers and memory at every access. Ahci.Ports is its operations on ports,
--   Ahci.Start its `init`, which joins Pci and Mm.Mmio, Ahci.Command what the controller reads of a
--   command.
-- Shell (src/main.rs): the console, as a function from keys to drawings; Shell.Screen is what
--   drawings leave on the screen.
-- Boot (src/main.rs): the loading of modules, which joins Initrd, Elf, Mm.Paging and Sched.
-- Ring3 (src/kern/drv/ring3/mod.rs): the entry to user mode, over Mm.Paging and Mm.Heap.
-- Kxvm (src/kern/kxvm/syscall.rs): the system calls of user programs, on top of Arch.Idt.
-- Modules (src/modules/memtest/src/main.rs): the benchmark of the allocators and the times that it
--   prints.
--
-- Static variables are a record that each operation takes and returns. A number is a natural number,
-- and arithmetic of the source that can wrap is written with its modulus. A pointer is its address.
-- A port write is an entry in a list, a port read an argument. A read of an array is by default
-- value where the index is in range in every valid state. What is written to the serial port is left
-- out, except where the writing is what a function is for.
--
-- Fuel: the loop for a block's order in `mem.rs` has 64 rounds, since a number of pages is below 2 ^
-- 64, and the loop of `BuddyAllocator::init` has the 20 rounds that the source allows. The search of
-- a directory has as many rounds as there are bytes, since an entry is no shorter than a byte. The
-- parser of an archive has one more, since its rounds that read on move by 512 bytes or more; that it
-- has run out of rounds is a result of its own, which does not occur. The buffers of 16 and 20 digits
-- bound the loops of `hex` and `dec`. The loops over the pages of a range have two rounds more than
-- the range has whole pages, which are enough for any range that does not reach the end of the
-- address space. The waits for the disk controller and for the keyboard controller have the rounds
-- that the source allows. The wait of `calibrate` in `tsc.rs` has no bound in the source; its fuel is
-- an argument.
--
-- Not modelled: assembly but for the entry stubs of interrupts, the entry to user mode and the
-- switching on of vector instructions (caches of translations, most control registers), the order of
-- start-up, and the module src/modules/init. The file system interface src/kern/fs/vfs.rs is a trait
-- and an iterator that no file system fills.
pub mod Prelude
pub mod Fifo
pub mod Ipc
pub mod Mm
pub mod Arch
pub mod Sched
pub mod Serial
pub mod Keyboard
pub mod Elf
pub mod Gfx
pub mod Ext3
pub mod Initrd
pub mod Pci
pub mod Ahci
pub mod Shell
pub mod Boot
pub mod Ring3
pub mod Kxvm
pub mod Modules
