-- ===== src/BlockDevice/Media.antt =====
-- Opening, closing and the simulated media changes of BlockDriver/blk1.c: `blk1_open`,
-- `blk1_release`, `blk1_media_changed`, `blk1_revalidate`, `blk1_invalidate` and `blk1_ioctl`. The
-- spinlock makes each one step.
use linux_kernel_development.Prelude.{
  ℕ, ◌+◌, ◌-◌, ◌*◌, ◌/◌, ◌%◌, Bool, true, false, replicate, ◌==◌, not, if◌then◌else◌, ℤ, pos,
  enotty, efault, Option, none, some,
}
use linux_kernel_development.BlockDevice.{Blk1Dev, kernel_sector_size, short_mod}

-- `del_timer_sync` and `add_timer` on the timer of the device.
abbrev pub del_timer_sync : Blk1Dev → Blk1Dev
del_timer_sync dev = record dev { timer_pending = false }

abbrev pub add_timer : Blk1Dev → Blk1Dev
add_timer dev = record dev { timer_pending = true }

-- `check_disk_change` is the kernel's: it calls the driver back.
unfoldable pub blk1_open : (Blk1Dev → Blk1Dev) → Blk1Dev → Blk1Dev
blk1_open check_disk_change dev =
    let stopped = del_timer_sync dev in
    let checked = if stopped.users == 0 then check_disk_change stopped else stopped in
    record checked { users = (checked.users + 1) % short_mod }

unfoldable pub blk1_release : Blk1Dev → Blk1Dev
blk1_release dev =
    let left = record dev { users = (dev.users + (short_mod - 1)) % short_mod } in
    if left.users == 0 then add_timer left else left

unfoldable pub blk1_media_changed : Blk1Dev → Bool
blk1_media_changed dev = dev.media_change

-- `memset` of `dev->size` bytes, the size of the memory.
unfoldable pub blk1_revalidate : Blk1Dev → Blk1Dev
blk1_revalidate dev =
    if dev.media_change
    then record dev { media_change = false; content = replicate dev.size 0 }
    else dev

-- The memory is there whenever the timer runs: the timer is added only by `blk1_release`, on a device
-- with a disk. The timer is not pending any more once it runs.
unfoldable pub blk1_invalidate : Blk1Dev → Blk1Dev
blk1_invalidate dev =
    let ran = record dev { timer_pending = false } in
    if not (ran.users == 0) then ran else record ran { media_change = true }

-- `struct hd_geometry`.
pub record HdGeometry : Type 0 where
  pub cylinders : ℕ
  pub heads : ℕ
  pub sectors : ℕ
  pub start : ℕ

-- `getgeo` is the test for `HDIO_GETGEO`, and `copied` whether `copy_to_user` succeeds; the geometry
-- is what reaches the user. `cylinders` is an `unsigned short`, and `hardsect_size` the module's
-- parameter. The product is taken without the overflow of `int`.
unfoldable pub blk1_ioctl : ℕ → Blk1Dev → Bool → Bool → ℤ × Option HdGeometry
blk1_ioctl hardsect_size dev getgeo copied =
    let size = dev.size * (hardsect_size / kernel_sector_size) in
    if getgeo
    then (if copied
        then (
          pos 0,
          some (record { cylinders = (size / 64) % short_mod; heads = 4; sectors = 16; start = 4 }),
        )
        else (efault, none))
    else (enotty, none)
