-- ===== src/Kernel/SetUp.antt =====
-- The initialisations of `kernel_main` on a FAT16 drive.
use custom_peach_os.Prelude.{
  ℕ, ◌+◌, ◌*◌, ◌<◌, ◌^◌, ◌≡◌, refl, ap, Bool, false, true, Option, none, some, List, ◌∷◌, arith,
  get_or, replicate, length, get_or-set_self,
}
use custom_peach_os.Prelude.Int.{ℤ}
use custom_peach_os.Status.{all_ok, eio, max_file_descriptors, sector_size}
use custom_peach_os.Gdt.Decode.{AllFit}
use custom_peach_os.Terminal.{terminal_init}
use custom_peach_os.Paging.Chunk.{paging_new_4gb}
use custom_peach_os.Commands.{Commands, isr80h_command1_print, isr80h_register_commands}
use custom_peach_os.Loader.{Contents}
use custom_peach_os.Task.Switch.{paging_switch}
use custom_peach_os.Gdt.{Target, encode_gdt_entry, gdt_structured_to_gdt}
use custom_peach_os.Kernel
use custom_peach_os.Kernel.{System, gdt_structured, set_up}
use custom_peach_os.Keyboard.Drivers.{
  Hardware, Driver, outb, keyboard_insert, classic_keyboard_init, classic_init, keyboard_init,
}
use custom_peach_os.Idt.{idt_register_interrupt_callback, idt_init}
use custom_peach_os.Streamer.{Device}
use custom_peach_os.Streamer.Read.{IsDrive}
use custom_peach_os.Files.{
  Files, free_slot, fs_insert_filesystem, fs_init, resolve_loop, fs_resolve, disk_search_and_init,
}
use custom_peach_os.Fat.Disk.Count.{EndsAfter}
use custom_peach_os.Fat.Disk.Resolve.{header, root_sector, root_size, resolved, fat16_resolve_lem}
use custom_peach_os.Fat.Open.{FatFileDescriptor, Bound, fat16_init}

-- The tables of src/fs/file.c with the filesystem bound to the disk, whose root directory has its
-- first blank record at index `n`.
abbrev pub booted : Device → (ℕ → Bool) → ℕ → Files Bound FatFileDescriptor
booted dev room n = record {
  filesystems = some (fat16_init dev room) ∷ replicate 11 none;
  descriptors = replicate max_file_descriptors none;
  disk_filesystem = some (fat16_init dev room);
  world = some (resolved dev room 0 n);
}

-- A FAT16 drive, with memory for its root directory.
pub record IsFat16 (dev : Device) (room : ℕ → Bool) (n : ℕ) : Type 0 where
  pub drive : IsDrive dev
  pub signature : dev 38 ≡ 0x29
  pub memory : room 5 ≡ true
  pub ends : EndsAfter dev (root_sector (header dev) * sector_size) n
  pub small : root_sector (header dev) * sector_size + 32 * (n + 1) < 2 ^ 31
  pub fits : root_sector (header dev) * sector_size + root_size (header dev) < 2 ^ 31

module _ (dev : Device) (room : ℕ → Bool) (n : ℕ) (is : IsFat16 dev room n) where
  resolves : (w : Bound) → (fat16_init dev room).resolve w ≡ (all_ok, some (resolved dev room 0 n))
  unfolding fat16_init
  resolves w =
      ap (λ (o : Option (ℤ × Bound)). elim o [ none ↦ (eio, none) | some r ↦ r ])
        (fat16_resolve_lem dev room 0 n is.drive is.signature is.memory is.ends is.small is.fits)

  -- The filesystem is bound to the disk.
  disk_search_and_init-booted :
      (f : Files Bound FatFileDescriptor)
      → f.filesystems ≡ (booted dev room n).filesystems
      → f.descriptors ≡ (booted dev room n).descriptors
      → disk_search_and_init none f ≡ booted dev room n
  unfolding disk_search_and_init fs_resolve resolve_loop
  disk_search_and_init-booted f a b = ground (arith, resolves none)

  pub fs_init-booted :
      (f : Files Bound FatFileDescriptor)
      → (f' : Files Bound FatFileDescriptor) × (fs_init f (fat16_init dev room) ≡ some f')
        × (disk_search_and_init none f' ≡ booted dev room n)
  unfolding fs_init fs_insert_filesystem free_slot
  fs_init-booted f =
      let f' : Files Bound FatFileDescriptor = record f {
        filesystems = some (fat16_init dev room) ∷ replicate 11 none;
        descriptors = replicate max_file_descriptors none;
      } in
      (f', refl, disk_search_and_init-booted f' refl refl)

abbrev is_some : {A : Type 0} → Option A → Bool
is_some none = false
is_some (some a) = true

-- The value that there is.
computed : {A : Type 0} → (o : Option A) → is_some o ≡ true → (a : A) × (o ≡ some a)
computed none e = absurd (ground (arith, e))
computed (some a) e = (a, refl)

-- The segments are encoded without a panic.
pub gdt_set :
    (tss : ℕ)
    → (targets : List Target) × (gdt_structured_to_gdt (gdt_structured tss) ≡ some targets)
unfolding gdt_structured_to_gdt encode_gdt_entry
gdt_set tss = computed (gdt_structured_to_gdt (gdt_structured tss)) refl

pub keyboard_registered :
    (handler : ℕ) (drivers : List Driver) (h : Hardware)
    → 0x21 < length h.callbacks
    → get_or (keyboard_init handler drivers h).1.callbacks 0x21 0 ≡ handler
unfolding keyboard_init keyboard_insert classic_init classic_keyboard_init outb
    idt_register_interrupt_callback
keyboard_registered handler drivers h lt = get_or-set_self h.callbacks 0x21 handler 0 lt

pub segments_fit : {tss : ℕ} → tss < 2 ^ 32 → AllFit (gdt_structured tss)
segments_fit small = (
  (omega arith, omega arith),
  (
    (omega arith, omega arith),
    (
      (omega arith, omega arith),
      ((omega arith, omega arith), ((omega arith, omega arith), ((small, omega arith), tt))),
    ),
  ),
)

-- What is set up, with the results of the steps that can panic.
unfoldable pub set_to :
    (kernel_alloc : ℕ → ℕ) (image : Kernel.Image) (s : System) (gdt : List Target)
    (files : Files Bound FatFileDescriptor) (commands : Commands)
    → System
set_to kernel_alloc image s gdt files commands = record s {
  screen = terminal_init s.screen;
  gdt = gdt;
  idt = idt_init image.interrupt_pointer_table image.idt_zero image.isr80h_wrapper;
  tss = record { esp0 = 0x60_0000; ss0 = 0x10 };
  cpu = paging_switch s.cpu (paging_new_4gb kernel_alloc 0b111 s.loading.pages).1;
  paging = true;
  kernel_chunk = (paging_new_4gb kernel_alloc 0b111 s.loading.pages).1;
  commands = commands;
  drivers = (keyboard_init image.keyboard_handler s.drivers s.hardware).0;
  hardware = (keyboard_init image.keyboard_handler s.drivers s.hardware).1;
  loading = record (s.loading) {
    files = files;
    pages = (paging_new_4gb kernel_alloc 0b111 s.loading.pages).0;
  };
}

module _ (dev : Device) (room : ℕ → Bool) (kernel_alloc alloc : ℕ → ℕ) (behind : Contents)
    (image : Kernel.Image) (s : System) where
  pub set_up-set_to :
      (gdt : List Target) (files : Files Bound FatFileDescriptor) (commands : Commands)
      → gdt_structured_to_gdt (gdt_structured image.tss) ≡ some gdt
      → fs_init s.loading.files (fat16_init dev room) ≡ some files
      → isr80h_register_commands (isr80h_command1_print image.print_buffer) s.commands
        ≡ some commands
      → set_up dev room kernel_alloc alloc behind image s
        ≡ some (set_to kernel_alloc image s gdt (disk_search_and_init none files) commands)
  unfolding set_up set_to
  set_up-set_to gdt files commands a b c = rw a (rw b (rw c refl))
