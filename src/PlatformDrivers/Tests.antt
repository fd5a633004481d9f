-- ===== src/PlatformDrivers/Tests.antt =====
-- The theorem on the platform drivers at a sequence of loads and unloads, and runs.
use linux_kernel_development.Prelude.{
  pos, negsuc, true, false, none, some, List, [], ◌∷◌, ◌++◌, ◌≡◌, refl,
}
use linux_kernel_development.Kernel.Ledger.{outstanding, platform_device, cdev, net_device, taken}
use linux_kernel_development.PlatformDrivers.Bus.{
  Op, load_driver, unload_driver, load_device, unload_device, step, run, empty_bus, attach,
}
use linux_kernel_development.PlatformDrivers.Probes.{
  DummyAnswers, gpio_probe, my_pdrv_probe, fake_eth_probe,
}
use linux_kernel_development.PlatformDrivers.Drivers.{plat3, fake_gpio_chip, driver_of}
use linux_kernel_development.PlatformDrivers.Modules.{
  init_callback_fn, exit_callback_fn, fake_eth_xmit,
}

abbrev granted : DummyAnswers
granted = record { region_rv = pos 0; class_error = none; cdev_ok = true; device_ok = true }

abbrev loads : List (Op (driver_of plat3))
loads =
    load_driver granted
    ∷ load_device granted
    ∷ unload_device
    ∷ unload_driver
    ∷ load_driver (record granted { device_ok = false })
    ∷ []

-- Unloading the device's module leaves its device on the bus, bound.
device_stays :
    (run
      (driver_of fake_gpio_chip)
      (empty_bus (driver_of fake_gpio_chip))
      (load_driver (pos 0) ∷ load_device (pos 0) ∷ unload_device ∷ [])).bound
    ≡ some (pos 0)
unfolding run step attach gpio_probe
device_stays = refl

-- A node that is not made leaves the device added.
no_node : outstanding cdev 0 (my_pdrv_probe (record granted { device_ok = false })).log ≡ some 1
unfolding my_pdrv_probe outstanding
no_node = refl

-- A network device that is not registered is not freed.
not_registered :
    fake_eth_probe (record { priv_ok = true; alloc_ok = true; register_rv = negsuc 16 })
    ≡ some (record { log = taken net_device ∷ []; rv = negsuc 16 })
unfolding fake_eth_probe
not_registered = refl

-- plat1.c leaves its device registered.
plat1_device :
    outstanding platform_device 0 ((init_callback_fn none (pos 0)).log ++ exit_callback_fn) ≡ some 1
unfolding init_callback_fn exit_callback_fn outstanding
plat1_device = refl

one_packet :
    (fake_eth_xmit (record { queue_started = true; tx_bytes = 60; tx_packets = 1 }) 40).0.tx_bytes
    ≡ 100
unfolding fake_eth_xmit
one_packet = refl
