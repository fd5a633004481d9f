-- ===== src/AttributeDrivers/Procfs.antt =====
-- The setup, the teardown and the other operations of Procfs/procfs2.c.
use linux_kernel_development.Prelude.{ℕ, Bool, [], ◌∷◌, ◌++◌, ℤ, pos, not, if◌then◌else◌}
use linux_kernel_development.Kernel.Ledger.{
  taken, given, Events, region, cdev, dev_class, device, proc_dir,
}
use linux_kernel_development.Kernel.CharSetup.{Loaded, fail, CharAnswers, char_setup}

unfoldable pub open_proc : ℤ
open_proc = pos 0

unfoldable pub release_proc : ℤ
release_proc = pos 0

unfoldable pub test_open : ℤ
test_open = pos 0

unfoldable pub test_release : ℤ
test_release = pos 0

-- Of `len` bytes, none is read.
unfoldable pub test_read : ℕ → ℤ
test_read len = pos 0

-- All bytes count as written.
unfoldable pub test_write : ℕ → ℤ
test_write len = pos len

-- The device is not deleted at this label.
abbrev pub r_class : Events
r_class = given region ∷ []

-- The file is made in the directory, and goes with it.
unfoldable pub test_driver_init : CharAnswers → Bool → Loaded
unfolding char_setup
test_driver_init a mkdir_ok = char_setup a r_class (λ log.
    if not mkdir_ok
    then fail log (given dev_class ∷ r_class)
    else record { log = log ++ (taken proc_dir ∷ []); rv = pos 0 })

unfoldable pub test_driver_exit : Events
test_driver_exit = given proc_dir ∷ given device ∷ given dev_class ∷ given cdev ∷ given region ∷ []
