-- ===== src/AttributeDrivers/Irq.antt =====
-- IRQ/irq1.c, whose read raises the interrupt that the driver handles.
use linux_kernel_development.Prelude.{
  ℕ, Bool, Option, none, some, List, length, [], ◌∷◌, ◌++◌, ℤ, pos, not, if◌then◌else◌,
}
use linux_kernel_development.Kernel.Ledger.{
  taken, given, Events, region, cdev, dev_class, device, kobject, irq,
}
use linux_kernel_development.Kernel.CharSetup.{Loaded, fail, CharAnswers, char_setup}

-- `sprintf` renders the value: the bytes in the buffer, and their number.
unfoldable pub sysfs_show : (ℤ → List ℕ) → ℤ → List ℕ × ℕ
sysfs_show sprintf irqvalue = (sprintf irqvalue, length (sprintf irqvalue))

-- `sscanf` finds a number at the start of the buffer, or the value stays.
unfoldable pub sysfs_store : (List ℕ → Option ℤ) → ℤ → List ℕ → ℤ × ℕ
sysfs_store sscanf irqvalue buf = (elim (sscanf buf) [ none ↦ irqvalue | some v ↦ v ], length buf)

unfoldable pub irq_open : ℤ
irq_open = pos 0

unfoldable pub irq_release : ℤ
irq_release = pos 0

-- The number of interrupts raised, and the bytes read.
unfoldable pub irq_read : ℕ → ℕ × ℤ
irq_read len = (1, pos 0)

-- All bytes count as written.
unfoldable pub irq_write : ℕ → ℤ
irq_write len = pos len

abbrev pub r_class : Events
r_class = given region ∷ given cdev ∷ []

abbrev pub r_device : Events
r_device = given dev_class ∷ r_class

-- The file of the attribute goes with its directory.
abbrev pub r_sysfs : Events
r_sysfs = given kobject ∷ r_device

-- The label `irq:`, which runs on into the others.
abbrev pub irq_label : Events
irq_label = given irq ∷ r_sysfs

unfoldable pub irq_driver_init : CharAnswers → Bool → Bool → Loaded
unfolding char_setup
irq_driver_init a file_ok irq_ok = char_setup a r_class (λ log.
    let with_dir = log ++ (taken kobject ∷ []) in
    if not file_ok
    then fail with_dir r_sysfs
    else (if not irq_ok
        then fail with_dir irq_label
        else record { log = with_dir ++ (taken irq ∷ []); rv = pos 0 }))

unfoldable pub irq_driver_exit : Events
irq_driver_exit =
    given irq ∷ given kobject ∷ given device ∷ given dev_class ∷ given cdev ∷ given region ∷ []
