-- ===== src/SmallModules.antt =====
-- Modules that take one or two things and give them back: CharacterDriverNew/char2.c,
-- CharacterDriver/example_character.c, USB/usbdrv2.c, PCI/pci1.c, MemoryAlloc/kmalloc.c,
-- MemoryAlloc/vmalloc.c and Debugfs/debugfs1.c.
use linux_kernel_development.Prelude.{
  ℕ, ◌+◌, ◌==◌, Bool, not, if◌then◌else◌, [], ◌∷◌, ℤ, pos, negsuc, eq_ℤ, is_neg, enomem, enodev,
}
use linux_kernel_development.Kernel.Ledger.{
  Events, taken, given, region, cdev, major_number, usb_driver, minor_number, pci_driver,
  enabled_device, memory, debugfs_dir, sum_file,
}
use linux_kernel_development.Kernel.CharSetup.{Loaded}
pub mod Cleanup
mod Tests

-- char2.c. What `alloc_chrdev_region` answers is not looked at; `cdev_alloc` gives memory, which the
-- device that is added takes with it.
unfoldable pub char2_init_module : Bool → ℤ → Loaded
char2_init_module region_ok add =
    let numbered = if region_ok then taken region ∷ taken memory ∷ [] else taken memory ∷ [] in
    let added =
      if region_ok
      then taken region ∷ taken memory ∷ taken cdev ∷ []
      else taken memory ∷ taken cdev ∷ [] in
    if is_neg add then record { log = numbered; rv = add } else record { log = added; rv = pos 0 }

unfoldable pub char2_cleanup_module : Events
char2_cleanup_module = given region ∷ given cdev ∷ given memory ∷ []

-- The static counter of `chrdevic_open`, and the value returned.
unfoldable pub chrdevic_open : ℕ → ℕ × ℤ
chrdevic_open counter = (counter + 1, pos 0)

unfoldable pub chrdevic_release : ℤ
chrdevic_release = pos 0

unfoldable pub chrdevic_read : ℤ
chrdevic_read = pos 0

unfoldable pub chrdevic_write : ℤ
chrdevic_write = pos 0

unfoldable pub chrdevic_lseek : ℤ
chrdevic_lseek = pos 0

unfoldable pub chrdevic_ioctl : ℤ
chrdevic_ioctl = pos 0

-- example_character.c. `register_chrdev` answers with the major number or an error, and is not looked at.
unfoldable pub test_init : ℤ → Loaded
test_init num_major = record {
  log = if is_neg num_major then [] else taken major_number ∷ [];
  rv = pos 0;
}

unfoldable pub test_cleanup : Events
test_cleanup = given major_number ∷ []

unfoldable pub test_open : ℤ
test_open = pos 0

unfoldable pub test_release : ℤ
test_release = pos 0

unfoldable pub test_read : ℤ
test_read = pos 0

unfoldable pub test_write : ℤ
test_write = pos 0

-- usbdrv2.c, with what `usb_register` and `usb_register_dev` answer.
unfoldable pub test_usb_init : ℤ → Loaded
test_usb_init result = record {
  log = if eq_ℤ result (pos 0) then taken usb_driver ∷ [] else [];
  rv = result;
}

unfoldable pub test_usb_exit : Events
test_usb_exit = given usb_driver ∷ []

unfoldable pub test_usb_probe : ℤ → Loaded
test_usb_probe retval =
    if not (eq_ℤ retval (pos 0))
    then record { log = []; rv = retval }
    else record { log = taken minor_number ∷ []; rv = pos 0 }

unfoldable pub test_usb_disconnect : Events
test_usb_disconnect = given minor_number ∷ []

-- pci1.c. The revision of the device is what `skel_get_revision` reads.
unfoldable pub pci_skel_init : ℤ → Loaded
pci_skel_init result = record {
  log = if eq_ℤ result (pos 0) then taken pci_driver ∷ [] else [];
  rv = result;
}

unfoldable pub pci_skel_exit : Events
pci_skel_exit = given pci_driver ∷ []

unfoldable pub probe : ℕ → Loaded
probe revision =
    if revision == 66
    then record { log = taken enabled_device ∷ []; rv = enodev }
    else record { log = taken enabled_device ∷ []; rv = pos 0 }

unfoldable pub remove : Events
remove = []

-- kmalloc.c and vmalloc.c.
unfoldable pub alloc_init : Bool → Loaded
alloc_init memory_ok =
    if not memory_ok
    then record { log = []; rv = enomem }
    else record { log = taken memory ∷ []; rv = pos 0 }

unfoldable pub alloc_exit : Events
alloc_exit = given memory ∷ []

unfoldable pub my_vmalloc_init : Bool → Loaded
my_vmalloc_init memory_ok =
    if not memory_ok
    then record { log = []; rv = enomem }
    else record { log = taken memory ∷ []; rv = pos 0 }

unfoldable pub my_vmalloc_exit : Events
my_vmalloc_exit = given memory ∷ []

-- debugfs1.c: a directory, and in it a file for a variable.
unfoldable pub hello_init_module : Bool → Loaded
hello_init_module dir_ok =
    if not dir_ok
    then record { log = []; rv = negsuc 0 }
    else record { log = taken debugfs_dir ∷ taken sum_file ∷ []; rv = pos 0 }

unfoldable pub hello_cleanup_module : Events
hello_cleanup_module = given sum_file ∷ given debugfs_dir ∷ []
