-- ===== src/AttributeDrivers/Sysfs.antt =====
-- Sysfs/sysfs1.c.
use linux_kernel_development.Prelude.{
  ℕ, Bool, Option, none, some, List, length, [], ◌∷◌, ◌++◌, ℤ, pos, not, if◌then◌else◌,
}
use linux_kernel_development.Kernel.Ledger.{
  taken, given, Events, region, cdev, dev_class, device, kobject,
}
use linux_kernel_development.Kernel.CharSetup.{Loaded, fail, CharAnswers, char_setup}

-- `sprintf` renders the value: the bytes in the buffer, and their number.
unfoldable pub sysfs_show : (ℤ → List ℕ) → ℤ → List ℕ × ℕ
sysfs_show sprintf etx_value = (sprintf etx_value, length (sprintf etx_value))

-- `sscanf` finds a number at the start of the buffer, or the value stays.
unfoldable pub sysfs_store : (List ℕ → Option ℤ) → ℤ → List ℕ → ℤ × ℕ
sysfs_store sscanf etx_value buf = (elim (sscanf buf) [ none ↦ etx_value | some v ↦ v ], length buf)

unfoldable pub etx_open : ℤ
etx_open = pos 0

unfoldable pub etx_release : ℤ
etx_release = pos 0

-- Of `len` bytes, none is read.
unfoldable pub etx_read : ℕ → ℤ
etx_read len = pos 0

-- All bytes count as written.
unfoldable pub etx_write : ℕ → ℤ
etx_write len = pos len

abbrev pub r_class : Events
r_class = given region ∷ given cdev ∷ []

abbrev pub r_device : Events
r_device = given dev_class ∷ r_class

-- The file of the attribute goes with its directory; `sysfs_remove_file` then finds none in the
-- directory above.
abbrev pub r_sysfs : Events
r_sysfs = given kobject ∷ r_device

-- The file of the attribute is made in the directory that was taken.
unfoldable pub etx_driver_init : CharAnswers → Bool → Loaded
unfolding char_setup
etx_driver_init a file_ok = char_setup a r_class (λ log.
    if not file_ok
    then fail (log ++ (taken kobject ∷ [])) r_sysfs
    else record { log = log ++ (taken kobject ∷ []); rv = pos 0 })

unfoldable pub etx_driver_exit : Events
etx_driver_exit = given kobject ∷ given device ∷ given dev_class ∷ given cdev ∷ given region ∷ []
