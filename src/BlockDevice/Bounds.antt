-- ===== src/BlockDevice/Bounds.antt =====
-- Which transfers of BlockDriver/blk1.c stay inside the memory of the device.
use linux_kernel_development.Prelude.{
  ℕ, ◌+◌, ◌*◌, ◌-◌, ◌%◌, ◌≤◌, ◌<◌, ◌≡◌, Bool, List, length, arith, length-append, length-take,
  length-drop, ◌^◌, take, drop, ◌++◌,
}
use linux_kernel_development.BlockDevice.{Blk1Dev, kernel_sector_size, long_mod}
use linux_kernel_development.BlockDevice.Transfer.{
  Transferred, done, outside, splice, copy, blk1_transfer,
}

-- The memory has the size that the device was set up with, which is an `int`.
pub record IsValid (dev : Blk1Dev) : Type 0 where
  pub allocated : length dev.content ≡ dev.size
  pub size_int : dev.size < 2147483648

pub length-splice :
    (into from : List ℕ) (at n : ℕ)
    → at + n ≤ length into
    → n ≤ length from
    → length (splice into at from n) ≡ length into
length-splice into from at n h k = omega (
  arith,
  length-append (take at into) (take n from ++ drop (at + n) into),
  length-append (take n from) (drop (at + n) into),
  length-take at into,
  length-take n from,
  length-drop (at + n) into,
)

-- What is claimed of a transfer: the device keeps its size and memory, and the buffer its length.
abbrev pub StaysInside : Blk1Dev → List ℕ → Transferred → Type 0
StaysInside dev buffer (done dev' buffer') =
    IsValid dev' × (dev'.size ≡ dev.size) × (length buffer' ≡ length buffer)
StaysInside dev buffer outside = ⊥

-- The number of sectors that an `unsigned long` count of bytes can reach.
abbrev pub sector_limit : ℕ
sector_limit = 2 ^ 55

module _ (dev : Blk1Dev) (buffer : List ℕ) (write : Bool) where
  copy-StaysInside :
      (offset nbytes : ℕ)
      → IsValid dev
      → offset + nbytes ≤ dev.size
      → nbytes ≤ length buffer
      → StaysInside dev buffer (copy dev offset nbytes buffer write)
  unfolding copy
  copy-StaysInside offset nbytes v inside fits = ground (
    arith,
    length-splice dev.content buffer offset nbytes,
    length-splice buffer (drop offset dev.content) 0 nbytes,
    length-drop offset dev.content,
  )

  -- A transfer that ends below sector 2^55, with a buffer that holds its sectors, touches no memory
  -- outside of the device or of the buffer, and leaves the device valid and of the same size.
  pub blk1_transfer-StaysInside :
      (sector nsect : ℕ)
      → IsValid dev
      → sector + nsect < sector_limit
      → nsect * kernel_sector_size ≤ length buffer
      → StaysInside dev buffer (blk1_transfer dev sector nsect buffer write)
  unfolding blk1_transfer
  blk1_transfer-StaysInside sector nsect v low fits = ground (
    arith,
    copy-StaysInside ((sector * kernel_sector_size) % long_mod)
        ((nsect * kernel_sector_size) % long_mod) v,
  )

  -- On a valid device: where the end of a transfer lies past sector 2^55, although neither its sector nor its length
  -- does, and the end, reduced modulo 2^64 bytes, lies within the device, the test for the end of the
  -- device passes, and the copy touches memory outside.
  blk1_transfer_overflows :
      (sector nsect : ℕ)
      → IsValid dev
      → sector < sector_limit
      → nsect < sector_limit
      → sector_limit ≤ sector + nsect
      → (sector + nsect - sector_limit) * kernel_sector_size ≤ dev.size
      → blk1_transfer dev sector nsect buffer write ≡ outside
  unfolding blk1_transfer copy
  blk1_transfer_overflows sector nsect v a b past wraps = ground arith
