-- ===== src/SmallModules/Tests.antt =====
-- The theorem on the modules of SmallModules at one of them, and runs of those that do not give back.
use linux_kernel_development.Prelude.{true, false, ◌++◌, pos, none, some, ◌≡◌, refl, enodev, enomem}
use linux_kernel_development.Kernel.Ledger.{
  outstanding, region, memory, major_number, enabled_device,
}
use linux_kernel_development.SmallModules.{
  probe, remove, char2_init_module, char2_cleanup_module, test_init, test_cleanup,
}

-- A device that char2.c cannot add leaves its number and its memory.
failed_char2_leaks :
    (outstanding region 0 (char2_init_module true enomem).log ≡ some 1)
    × (outstanding memory 0 (char2_init_module true enomem).log ≡ some 1)
unfolding char2_init_module outstanding
failed_char2_leaks = (refl, refl)

-- A number that was refused is given back all the same.
refused_number :
    (outstanding region 0 ((char2_init_module false (pos 0)).log ++ char2_cleanup_module) ≡ none)
    × (outstanding major_number 0 ((test_init enomem).log ++ test_cleanup) ≡ none)
unfolding char2_init_module char2_cleanup_module test_init test_cleanup outstanding
refused_number = (refl, refl)

-- The device of pci1.c stays enabled, both when the probe refuses it and when it is removed.
pci_device_stays_enabled :
    ((probe 66).rv ≡ enodev)
    × (outstanding enabled_device 0 (probe 66).log ≡ some 1)
    × (outstanding enabled_device 0 ((probe 1).log ++ remove) ≡ some 1)
unfolding probe remove outstanding
pci_device_stays_enabled = (refl, refl, refl)
