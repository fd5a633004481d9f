-- ===== src/AttributeDrivers/Cleanup.antt =====
-- What Procfs/procfs2.c, Sysfs/sysfs1.c and IRQ/irq1.c leave taken after an unload and after a failed
-- setup.
use linux_kernel_development.Prelude.{
  Bool, true, ◌&&◌, none, some, ◌++◌, pos, negsuc, ◌≡◌, ◌≢◌, arith, if◌then◌else◌,
}
use linux_kernel_development.Kernel.Ledger.{
  Events, cdev, device, irq, outstanding, Settled, leaves, nothing, outstanding_of_leaves,
}
use linux_kernel_development.Kernel.CharSetup.{Loaded, CharAnswers, char_setup}
use linux_kernel_development.AttributeDrivers.Procfs
use linux_kernel_development.AttributeDrivers.Sysfs
use linux_kernel_development.AttributeDrivers.Irq

-- The drivers, with what the kernel answers to the calls after those of every character device.
pub data Driver : Type 0 where
  procfs : Bool → Driver
  sysfs : Bool → Driver
  interrupt : Bool → Bool → Driver

unfoldable pub driver_init : Driver → CharAnswers → Loaded
unfolding Procfs.test_driver_init Sysfs.etx_driver_init Irq.irq_driver_init
driver_init (procfs mkdir_ok) a = Procfs.test_driver_init a mkdir_ok
driver_init (sysfs file_ok) a = Sysfs.etx_driver_init a file_ok
driver_init (interrupt file_ok irq_ok) a = Irq.irq_driver_init a file_ok irq_ok

unfoldable pub driver_exit : Driver → Events
unfolding Procfs.test_driver_exit Sysfs.etx_driver_exit Irq.irq_driver_exit
driver_exit (procfs mkdir_ok) = Procfs.test_driver_exit
driver_exit (sysfs file_ok) = Sysfs.etx_driver_exit
driver_exit (interrupt file_ok irq_ok) = Irq.irq_driver_exit

load_unload-leaves :
    (d : Driver) (a : CharAnswers)
    → (driver_init d a).rv ≡ pos 0
    → leaves nothing ((driver_init d a).log ++ driver_exit d) ≡ true
unfolding driver_init driver_exit char_setup leaves
load_unload-leaves (procfs k) a done = ground arith
load_unload-leaves (sysfs k) a done = ground arith
load_unload-leaves (interrupt k l) a done = ground arith

-- Each of the three drivers that loads gives back, once, all that it took, when it is unloaded.
unload-Settled :
    (d : Driver) (a : CharAnswers)
    → (driver_init d a).rv ≡ pos 0
    → Settled ((driver_init d a).log ++ driver_exit d)
unload-Settled d a done =
    outstanding_of_leaves nothing ((driver_init d a).log ++ driver_exit d)
      (load_unload-leaves d a done)

-- What a setup that fails late leaves of the character device, or does to the interrupt.
abbrev pub LeftOver : Driver → Events → Type 0
LeftOver (procfs k) log = outstanding cdev 0 log ≡ some 1
LeftOver (sysfs k) log = outstanding cdev 0 log ≡ some 0
LeftOver (interrupt file_ok irq_ok) log = outstanding irq 0 log ≡ (if file_ok then none else some 0)

-- A setup that fails once the node is there leaves the node behind, in each of the three drivers;
-- that of procfs2.c leaves the device added too, and that of irq1.c that does not get the interrupt
-- frees it all the same.
late_failure_leaks :
    (d : Driver) (a : CharAnswers)
    → a.region_ok && a.cdev_ok && a.class_ok && a.device_ok ≡ true
    → (driver_init d a).rv ≢ pos 0
    → ((driver_init d a).rv ≡ negsuc 0)
      × (outstanding device 0 (driver_init d a).log ≡ some 1)
      × LeftOver d (driver_init d a).log
unfolding driver_init char_setup outstanding
late_failure_leaks (procfs k) a ok failed = ground arith
late_failure_leaks (sysfs k) a ok failed = ground arith
late_failure_leaks (interrupt k l) a ok failed = ground arith
