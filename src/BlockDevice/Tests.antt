-- ===== src/BlockDevice/Tests.antt =====
-- The theorems on BlockDriver/blk1.c at concrete inputs.
use linux_kernel_development.Prelude.{
  pos, ℕ, ◌*◌, ◌≡◌, refl, true, false, some, enotty, List, [], ◌∷◌, ◌++◌, take, drop, replicate,
  length-replicate, arith, if◌then◌else◌,
}
use linux_kernel_development.BlockDevice.{Blk1Dev, kernel_sector_size}
use linux_kernel_development.BlockDevice.Transfer.{done, ended, blk1_transfer, blk1_request}
use linux_kernel_development.BlockDevice.Media.{
  blk1_ioctl, blk1_open, blk1_release, blk1_invalidate, blk1_media_changed, blk1_revalidate,
}
use linux_kernel_development.BlockDevice.Bounds.{IsValid}
use linux_kernel_development.BlockDevice.Requests.{Served, blk1_request-Served}
use linux_kernel_development.BlockDevice.RoundTrip.{blk1_transfer_round_trip}
use linux_kernel_development.BlockDevice.Changes.{
  opens, releases, Reach, here, then_step, Idle, expiry_erases,
}
use linux_kernel_development.BlockDevice.Setup.{Answers}

-- A device of two sectors, and buffers of one sector.
abbrev two_sectors : Blk1Dev
two_sectors = record {
  size = 1024;
  content = replicate 1024 7;
  users = 0;
  media_change = false;
  timer_pending = false;
}

abbrev in_use : Blk1Dev
in_use = record two_sectors { users = 1 }

abbrev ones : List ℕ
ones = replicate 512 1

abbrev twos : List ℕ
twos = replicate 512 2

abbrev half : List ℕ
half = replicate 256 3

two_sectors-IsValid : IsValid two_sectors
two_sectors-IsValid = record { allocated = length-replicate {A = ℕ} 1024 7; size_int = omega arith }

blk1_transfer_round_trip_example :
    (dev' : Blk1Dev) × (blk1_transfer two_sectors 1 1 ones true ≡ done dev' ones)
    × (blk1_transfer dev' 1 1 twos false
        ≡ done dev' (take (1 * kernel_sector_size) ones ++ drop (1 * kernel_sector_size) twos))
blk1_transfer_round_trip_example =
    blk1_transfer_round_trip two_sectors ones twos 1 1 two_sectors-IsValid (omega arith)
      (omega arith) (omega arith)

blk1_request-Served_example :
    Served two_sectors 2 (blk1_request two_sectors false 0 1 true (ones ∷ twos ∷ []))
blk1_request-Served_example =
    blk1_request-Served two_sectors 0 1 true (ones ∷ twos ∷ []) two_sectors-IsValid (omega arith)
      (omega arith, (omega arith, tt))

-- `check_disk_change`, as it asks the driver.
abbrev asking : Blk1Dev → Blk1Dev
asking dev = if blk1_media_changed dev then blk1_revalidate dev else dev

two_sectors-Idle : Idle two_sectors
two_sectors-Idle = record {
  unused = λ pending. refl;
  users_short = omega arith;
  valid = two_sectors-IsValid;
}

-- Opened and released.
abbrev closed : Blk1Dev
closed = record two_sectors { timer_pending = true }

to_closed : Reach asking two_sectors closed
unfolding blk1_open blk1_release blk1_media_changed
to_closed = then_step (then_step here opens) (releases (λ e. absurd (omega arith)))

expiry_erases_example :
    ((blk1_invalidate closed).media_change ≡ true)
    × ((blk1_open asking (blk1_invalidate closed)).content ≡ replicate 1024 0)
    × ((blk1_open asking (blk1_invalidate closed)).media_change ≡ false)
expiry_erases_example = expiry_erases asking (λ dev. refl) two_sectors-Idle to_closed refl

abbrev all_granted : Answers
all_granted = record {
  major_ok = true;
  kmalloc_ok = true;
  vmalloc_ok = true;
  queue_ok = true;
  alloc_disk_ok = true;
}

abbrev no_memory : Answers
no_memory = record all_granted { kmalloc_ok = false }

abbrev no_disk : Answers
no_disk = record all_granted { alloc_disk_ok = false }

-- The default device, of 1024 sectors, is reported with 8192 cylinders of 64 sectors.
default_geometry :
    (blk1_ioctl 512 (record two_sectors { size = 524288 }) true true).1
    ≡ some (record { cylinders = 8192; heads = 4; sectors = 16; start = 4 })
unfolding blk1_ioctl
default_geometry = refl

unknown_command : (blk1_ioctl 512 two_sectors false true).0 ≡ enotty
unfolding blk1_ioctl
unknown_command = refl

-- A request that is not for data is answered with an error.
passthrough_refused :
    blk1_request two_sectors true 0 1 true (ones ∷ []) ≡ ended two_sectors (ones ∷ []) (pos 10)
unfolding blk1_request
passthrough_refused = refl
