-- ===== src/AttributeDrivers/Tests.antt =====
-- The theorems on Procfs/procfs2.c, Sysfs/sysfs1.c and IRQ/irq1.c at concrete inputs, and runs of their
-- definitions.
use linux_kernel_development.Prelude.{◌≡◌, refl, true, none, some, [], ◌∷◌, replicate, pos}
use linux_kernel_development.Kernel.CharSetup.{CharAnswers}
use linux_kernel_development.AttributeDrivers.ProcFile.{
  ProcState, write_proc, overrun, wr_value, rd_value, test_ioctl, RoundTrips, write_proc-read_proc,
}
use linux_kernel_development.AttributeDrivers.Sysfs.{sysfs_store}

abbrev loaded : ProcState
loaded = record { test_array = replicate 20 0; len = 1; value = 0 }

write_proc-read_proc_example : RoundTrips (5 ∷ 6 ∷ []) 20 (write_proc loaded (5 ∷ 6 ∷ []) true)
write_proc-read_proc_example = write_proc-read_proc loaded (5 ∷ 6 ∷ []) 20 refl refl

too_long : write_proc loaded (replicate 21 7) true ≡ overrun
too_long = write_proc-read_proc loaded (replicate 21 7) 20 refl refl

value_kept : (test_ioctl (test_ioctl loaded (wr_value 9) true).0 rd_value true).1 ≡ some 9
unfolding test_ioctl
value_kept = refl

-- A text that is no number leaves the value.
not_a_number : (sysfs_store (λ buf. none) (pos 4) (120 ∷ [])).0 ≡ pos 4
unfolding sysfs_store
not_a_number = refl

abbrev granted : CharAnswers
granted = record { region_ok = true; cdev_ok = true; class_ok = true; device_ok = true }
