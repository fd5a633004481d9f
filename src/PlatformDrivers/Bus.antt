-- ===== src/PlatformDrivers/Bus.antt =====
-- A driver and a device on the platform bus, which calls the driver's `probe` when both are there and
-- its `remove` when the driver goes. The bus is the kernel's; the drivers are those of Probes, and the
-- device that of the modules under PlatformDriverExample3, NetworkDriver, GpioChip and IIODriver that
-- end in `_ins.c` or `-ins.c`.
use linux_kernel_development.Prelude.{
  Bool, true, false, ◌&&◌, Option, none, some, List, [], ◌∷◌, ◌++◌, pos, if◌then◌else◌, ◌≡◌, ◌≢◌,
  eq_ℤ,
}
use linux_kernel_development.Kernel.Ledger.{Events, Resource, SettledBut}
use linux_kernel_development.Kernel.CharSetup.{Loaded}

-- What the kernel answers to a probe's calls is an argument. What a driver takes and gives back is
-- balanced, but for the resource that it neglects, if there is one.
pub record Driver : Type 1 where
  pub Answers : Type 0
  pub probe : Answers → Loaded
  pub remove : Events
  pub neglects : Option Resource
  pub failed-SettledBut : (a : Answers) → (probe a).rv ≢ pos 0 → SettledBut neglects (probe a).log
  pub bound-SettledBut :
      (a : Answers) → (probe a).rv ≡ pos 0 → SettledBut neglects ((probe a).log ++ remove)

module _ (driver : Driver) where
  open driver use {Answers, probe, remove}

  -- The bus: what is there, the answers of the probe that has bound the two, and what the driver has
  -- taken and given back.
  pub record Bus : Type 0 where
    pub has_driver : Bool
    pub has_device : Bool
    pub bound : Option Answers
    pub log : Events

  abbrev pub empty_bus : Bus
  empty_bus = record { has_driver = false; has_device = false; bound = none; log = [] }

  -- The bus calls the probe. A driver whose probe fails stays, unbound.
  unfoldable pub attach : Bus → Answers → Bus
  attach b a =
      let p = probe a in
      if b.has_driver && b.has_device
      then record b { bound = if eq_ℤ p.rv (pos 0) then some a else none; log = b.log ++ p.log }
      else b

  -- The bus calls `remove`, if the driver is bound.
  unfoldable pub detach : Bus → Bus
  detach b = elim b.bound [ none ↦ b | some a ↦ record b { bound = none; log = b.log ++ remove } ]

  -- What is loaded and unloaded: the driver's module and the device's.
  pub data Op : Type 0 where
    load_driver : Answers → Op
    unload_driver : Op
    load_device : Answers → Op
    unload_device : Op

  -- A module that is there is not loaded again. `platform_device_put` gives back a reference, but does
  -- not take a device that has been added off the bus; adding it again then fails, which the
  -- device's module does not look at.
  unfoldable pub step : Bus → Op → Bus
  step b (load_driver a) = if b.has_driver then b else attach (record b { has_driver = true }) a
  step b unload_driver = if b.has_driver then record (detach b) { has_driver = false } else b
  step b (load_device a) = if b.has_device then b else attach (record b { has_device = true }) a
  step b unload_device = b

  unfoldable pub run : Bus → List Op → Bus
  run b [] = b
  run b (op ∷ ops) = run (step b op) ops
