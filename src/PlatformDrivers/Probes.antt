-- ===== src/PlatformDrivers/Probes.antt =====
-- The probes and removals of the platform drivers. Memory from the `devm_` functions is the kernel's to
-- free.
use linux_kernel_development.Prelude.{
  ℕ, Bool, Option, none, some, [], ◌∷◌, ◌++◌, ℤ, pos, negsuc, if◌then◌else◌, is_neg, eq_ℤ, enomem,
}
use linux_kernel_development.Kernel.Ledger.{
  taken, given, Events, region, cdev, dev_class, device, major_number, net_device,
  registered_net_device, gpio_chip, iio_device,
}
use linux_kernel_development.Kernel.CharSetup.{Loaded}

-- PlatformDriverExample1/plat1.c and PlatformDriverExample2/plat2.c: `register_chrdev` answers with the
-- major number, or with an error.
unfoldable pub plat_probe_callback_fn : ℤ → Loaded
plat_probe_callback_fn major =
    if is_neg major
    then record { log = []; rv = major }
    else record { log = taken major_number ∷ []; rv = pos 0 }

unfoldable pub plat2_probe_callback_fn : ℤ → Loaded
plat2_probe_callback_fn major =
    if is_neg major
    then record { log = []; rv = major }
    else record { log = taken major_number ∷ []; rv = pos 0 }

unfoldable pub plat_remove_callback_fn : Events
plat_remove_callback_fn = given major_number ∷ []

unfoldable pub plat2_remove_callback_fn : Events
plat2_remove_callback_fn = given major_number ∷ []

-- What the kernel answers to the setup of the dummy character device. `class_error` is the error that
-- `class_create` answers with, if it fails: `n` stands for -(n + 1).
pub record DummyAnswers : Type 0 where
  pub region_rv : ℤ
  pub class_error : Option ℕ
  pub cdev_ok : Bool
  pub device_ok : Bool

-- From the class on. `cdev_add`'s answer is not looked at, and a device that has been added is not
-- deleted when there is no node for it.
unfoldable pub add_dummy : DummyAnswers → Loaded
add_dummy a =
    let added = taken region ∷ taken dev_class ∷ (if a.cdev_ok then taken cdev ∷ [] else []) in
    if a.device_ok
    then record { log = added ++ (taken device ∷ []); rv = pos 0 }
    else record { log = added ++ (given dev_class ∷ given region ∷ []); rv = negsuc 0 }

-- PlatformDriverExample3/plat3.c. CharacterDriverNew/char1.c has the same steps in its init function.
unfoldable pub my_pdrv_probe : DummyAnswers → Loaded
unfolding add_dummy
my_pdrv_probe a =
    if is_neg a.region_rv then record { log = []; rv = a.region_rv } else elim a.class_error [
      | some n ↦ record { log = taken region ∷ given region ∷ []; rv = negsuc n }
      | none ↦ add_dummy a
    ]

unfoldable pub my_pdrv_remove : Events
my_pdrv_remove = given region ∷ given device ∷ given cdev ∷ given dev_class ∷ []

-- NetworkDriver/fake-eth.c.
pub record EthAnswers : Type 0 where
  pub priv_ok : Bool
  pub alloc_ok : Bool
  pub register_rv : ℤ

-- The answer of `alloc_etherdev` is not looked at: `none` stands for a write through NULL.
unfoldable pub fake_eth_probe : EthAnswers → Option Loaded
fake_eth_probe a =
    if a.priv_ok
    then (if a.alloc_ok
        then some (
            if eq_ℤ a.register_rv (pos 0)
            then record { log = taken net_device ∷ taken registered_net_device ∷ []; rv = pos 0 }
            else record { log = taken net_device ∷ []; rv = a.register_rv })
        else none)
    else some (record { log = []; rv = enomem })

unfoldable pub fake_eth_remove : Events
fake_eth_remove = given registered_net_device ∷ given net_device ∷ []

-- GpioChip/fake-gpio-chip.c: what `gpiochip_add` answers.
unfoldable pub gpio_probe : ℤ → Loaded
gpio_probe add_rv = record {
  log = if eq_ℤ add_rv (pos 0) then taken gpio_chip ∷ [] else [];
  rv = add_rv;
}

unfoldable pub gpio_remove : Events
gpio_remove = given gpio_chip ∷ []

-- IIODriver/iio1.c. The answer of `iio_device_register` is not looked at.
pub record IioAnswers : Type 0 where
  pub alloc_ok : Bool
  pub register_ok : Bool

unfoldable pub iio_probe : IioAnswers → Loaded
iio_probe a =
    if a.alloc_ok
    then record { log = if a.register_ok then taken iio_device ∷ [] else []; rv = pos 0 }
    else record { log = []; rv = enomem }

unfoldable pub iio_remove : Events
iio_remove = given iio_device ∷ []
