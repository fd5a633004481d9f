-- ===== src/SmallModules/Cleanup.antt =====
-- What the modules of SmallModules, and WaitQueue/wait1.c, leave taken.
use linux_kernel_development.WaitQueue
use linux_kernel_development.Prelude.{Bool, true, not, ◌++◌, pos, ℤ, is_neg, ◌≡◌, arith}
use linux_kernel_development.Kernel.Ledger.{Events, Settled, leaves, nothing, outstanding_of_leaves}
use linux_kernel_development.Kernel.CharSetup.{Loaded}
use linux_kernel_development.SmallModules.{
  char2_init_module, char2_cleanup_module, test_init, test_cleanup, test_usb_init, test_usb_exit,
  test_usb_probe, test_usb_disconnect, pci_skel_init, pci_skel_exit, alloc_init, alloc_exit,
  my_vmalloc_init, my_vmalloc_exit, hello_init_module, hello_cleanup_module,
}

-- A module, or the probe of one, with what the kernel answers.
pub data SmallModule : Type 0 where
  char2 : Bool → ℤ → SmallModule
  example_character usbdrv2 usbdrv2_device pci1 wait1 : ℤ → SmallModule
  kmalloc vmalloc debugfs1 : Bool → SmallModule

unfoldable pub setup : SmallModule → Loaded
setup (char2 region_ok add) = char2_init_module region_ok add
setup (example_character num_major) = test_init num_major
setup (usbdrv2 result) = test_usb_init result
setup (usbdrv2_device retval) = test_usb_probe retval
setup (pci1 result) = pci_skel_init result
setup (wait1 answer) = WaitQueue.init_module answer
setup (kmalloc memory_ok) = alloc_init memory_ok
setup (vmalloc memory_ok) = my_vmalloc_init memory_ok
setup (debugfs1 dir_ok) = hello_init_module dir_ok

unfoldable pub teardown : SmallModule → Events
teardown (char2 region_ok add) = char2_cleanup_module
teardown (example_character num_major) = test_cleanup
teardown (usbdrv2 result) = test_usb_exit
teardown (usbdrv2_device retval) = test_usb_disconnect
teardown (pci1 result) = pci_skel_exit
teardown (wait1 answer) = WaitQueue.cleanup_module
teardown (kmalloc memory_ok) = alloc_exit
teardown (vmalloc memory_ok) = my_vmalloc_exit
teardown (debugfs1 dir_ok) = hello_cleanup_module

-- The two answers that the code does not look at are good.
abbrev pub numbered : SmallModule → Bool
numbered (char2 region_ok add) = region_ok
numbered (example_character num_major) = not (is_neg num_major)
numbered m = true

loaded-leaves :
    (m : SmallModule)
    → numbered m ≡ true
    → (setup m).rv ≡ pos 0
    → leaves nothing ((setup m).log ++ teardown m) ≡ true
unfolding WaitQueue.init_module WaitQueue.cleanup_module setup teardown leaves char2_init_module
    char2_cleanup_module test_init test_cleanup test_usb_init test_usb_exit test_usb_probe
    test_usb_disconnect pci_skel_init pci_skel_exit alloc_init alloc_exit my_vmalloc_init
    my_vmalloc_exit hello_init_module hello_cleanup_module
loaded-leaves (char2 region_ok add) ok done = ground arith
loaded-leaves (example_character num_major) ok done = ground arith
loaded-leaves (usbdrv2 result) ok done = ground arith
loaded-leaves (usbdrv2_device retval) ok done = ground arith
loaded-leaves (pci1 result) ok done = ground arith
loaded-leaves (wait1 answer) ok done = ground arith
loaded-leaves (kmalloc memory_ok) ok done = ground arith
loaded-leaves (vmalloc memory_ok) ok done = ground arith
loaded-leaves (debugfs1 dir_ok) ok done = ground arith

-- Each of these modules that loads gives back, once, all that it took, when it is unloaded, if the
-- two answers that the code does not look at are good.
loaded-Settled :
    (m : SmallModule)
    → numbered m ≡ true
    → (setup m).rv ≡ pos 0
    → Settled ((setup m).log ++ teardown m)
loaded-Settled m ok done =
    outstanding_of_leaves nothing ((setup m).log ++ teardown m) (loaded-leaves m ok done)
