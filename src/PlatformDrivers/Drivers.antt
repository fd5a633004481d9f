-- ===== src/PlatformDrivers/Drivers.antt =====
-- The platform drivers as drivers of the bus, with the resource that each neglects. plat1.c is none of
-- them: it registers its driver with `platform_driver_probe`, together with a device of its own.
use linux_kernel_development.Prelude.{ℤ, pos, true, none, some, ◌++◌, ◌≡◌, ◌≢◌, arith}
use linux_kernel_development.Kernel.Ledger.{
  cdev, net_device, iio_device, leaves_nothing_but, kept_of_leaves,
}
use linux_kernel_development.Kernel.CharSetup.{Loaded}
use linux_kernel_development.PlatformDrivers.Bus.{Driver}
use linux_kernel_development.PlatformDrivers.Probes.{
  plat2_probe_callback_fn, plat2_remove_callback_fn, DummyAnswers, my_pdrv_probe, my_pdrv_remove,
  EthAnswers, fake_eth_probe, fake_eth_remove, gpio_probe, gpio_remove, IioAnswers, iio_probe,
  iio_remove,
}

-- The drivers of the bus. plat2.c and fake-gpio-chip.c neglect nothing.
pub plat2_failed :
    (a : ℤ)
    → (plat2_probe_callback_fn a).rv ≢ pos 0
    → leaves_nothing_but none (plat2_probe_callback_fn a).log ≡ true
unfolding plat2_probe_callback_fn leaves_nothing_but
plat2_failed a failed = ground (arith, failed)

pub plat2_bound :
    (a : ℤ)
    → (plat2_probe_callback_fn a).rv ≡ pos 0
    → leaves_nothing_but none ((plat2_probe_callback_fn a).log ++ plat2_remove_callback_fn) ≡ true
unfolding plat2_probe_callback_fn plat2_remove_callback_fn leaves_nothing_but
plat2_bound a ok = ground (arith, ok)

abbrev pub plat2_driver : Driver
plat2_driver = record {
  Answers = ℤ;
  probe = plat2_probe_callback_fn;
  remove = plat2_remove_callback_fn;
  neglects = none;
  failed-SettledBut =
      λ a failed. kept_of_leaves none (plat2_probe_callback_fn a).log (plat2_failed a failed);
  bound-SettledBut = λ a ok.
      kept_of_leaves none ((plat2_probe_callback_fn a).log ++ plat2_remove_callback_fn)
        (plat2_bound a ok);
}

pub plat3_failed :
    (a : DummyAnswers)
    → (my_pdrv_probe a).rv ≢ pos 0
    → leaves_nothing_but (some cdev) (my_pdrv_probe a).log ≡ true
unfolding my_pdrv_probe leaves_nothing_but
plat3_failed a failed = ground (arith, failed)

pub plat3_bound :
    (a : DummyAnswers)
    → (my_pdrv_probe a).rv ≡ pos 0
    → leaves_nothing_but (some cdev) ((my_pdrv_probe a).log ++ my_pdrv_remove) ≡ true
unfolding my_pdrv_probe my_pdrv_remove leaves_nothing_but
plat3_bound a ok = ground (arith, ok)

abbrev pub plat3_driver : Driver
plat3_driver = record {
  Answers = DummyAnswers;
  probe = my_pdrv_probe;
  remove = my_pdrv_remove;
  neglects = (some cdev);
  failed-SettledBut =
      λ a failed. kept_of_leaves (some cdev) (my_pdrv_probe a).log (plat3_failed a failed);
  bound-SettledBut = λ a ok.
      kept_of_leaves (some cdev) ((my_pdrv_probe a).log ++ my_pdrv_remove) (plat3_bound a ok);
}

-- What fake-eth.c is answered, as long as its probe does not write through NULL.
abbrev pub EthLoaded : Type 0
EthLoaded = (a : EthAnswers) × (p : Loaded) × (fake_eth_probe a ≡ some p)

abbrev pub probed : EthLoaded → Loaded
probed (a, p, e) = p

pub eth_failed :
    (a : EthLoaded)
    → (probed a).rv ≢ pos 0
    → leaves_nothing_but (some net_device) (probed a).log ≡ true
unfolding fake_eth_probe leaves_nothing_but
eth_failed (a, p, e) failed = ground (arith, failed, e)

pub eth_bound :
    (a : EthLoaded)
    → (probed a).rv ≡ pos 0
    → leaves_nothing_but (some net_device) ((probed a).log ++ fake_eth_remove) ≡ true
unfolding fake_eth_probe fake_eth_remove leaves_nothing_but
eth_bound (a, p, e) ok = ground (arith, ok, e)

abbrev pub fake_eth_driver : Driver
fake_eth_driver = record {
  Answers = EthLoaded;
  probe = probed;
  remove = fake_eth_remove;
  neglects = some net_device;
  failed-SettledBut =
      λ a failed. kept_of_leaves (some net_device) (probed a).log (eth_failed a failed);
  bound-SettledBut =
      λ a ok. kept_of_leaves (some net_device) ((probed a).log ++ fake_eth_remove) (eth_bound a ok);
}

pub fake_gpio_chip_failed :
    (a : ℤ) → (gpio_probe a).rv ≢ pos 0 → leaves_nothing_but none (gpio_probe a).log ≡ true
unfolding gpio_probe leaves_nothing_but
fake_gpio_chip_failed a failed = ground (arith, failed)

pub fake_gpio_chip_bound :
    (a : ℤ)
    → (gpio_probe a).rv ≡ pos 0
    → leaves_nothing_but none ((gpio_probe a).log ++ gpio_remove) ≡ true
unfolding gpio_probe gpio_remove leaves_nothing_but
fake_gpio_chip_bound a ok = ground (arith, ok)

abbrev pub fake_gpio_chip_driver : Driver
fake_gpio_chip_driver = record {
  Answers = ℤ;
  probe = gpio_probe;
  remove = gpio_remove;
  neglects = none;
  failed-SettledBut =
      λ a failed. kept_of_leaves none (gpio_probe a).log (fake_gpio_chip_failed a failed);
  bound-SettledBut =
      λ a ok. kept_of_leaves none ((gpio_probe a).log ++ gpio_remove) (fake_gpio_chip_bound a ok);
}

pub iio1_failed :
    (a : IioAnswers)
    → (iio_probe a).rv ≢ pos 0
    → leaves_nothing_but (some iio_device) (iio_probe a).log ≡ true
unfolding iio_probe leaves_nothing_but
iio1_failed a failed = ground (arith, failed)

pub iio1_bound :
    (a : IioAnswers)
    → (iio_probe a).rv ≡ pos 0
    → leaves_nothing_but (some iio_device) ((iio_probe a).log ++ iio_remove) ≡ true
unfolding iio_probe iio_remove leaves_nothing_but
iio1_bound a ok = ground (arith, ok)

abbrev pub iio1_driver : Driver
iio1_driver = record {
  Answers = IioAnswers;
  probe = iio_probe;
  remove = iio_remove;
  neglects = (some iio_device);
  failed-SettledBut =
      λ a failed. kept_of_leaves (some iio_device) (iio_probe a).log (iio1_failed a failed);
  bound-SettledBut =
      λ a ok. kept_of_leaves (some iio_device) ((iio_probe a).log ++ iio_remove) (iio1_bound a ok);
}

-- The drivers, named for their files.
pub data PlatformDriver : Type 0 where
  plat2 plat3 fake_eth fake_gpio_chip iio1 : PlatformDriver

abbrev pub driver_of : PlatformDriver → Driver
driver_of plat2 = plat2_driver
driver_of plat3 = plat3_driver
driver_of fake_eth = fake_eth_driver
driver_of fake_gpio_chip = fake_gpio_chip_driver
driver_of iio1 = iio1_driver
