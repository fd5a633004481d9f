-- ===== src/BlockDevice/RoundTrip.antt =====
-- What a transfer of BlockDriver/blk1.c writes, a transfer of the same sectors reads.
use linux_kernel_development.Prelude.{
  ℕ, ◌+◌, ◌*◌, ◌%◌, ◌≤◌, ◌<◌, ◌≡◌, subst, ap, ◌∙◌, Bool, true, false, List, length, arith, take,
  drop, ◌++◌, length-take, drop-append, take-append,
}
use linux_kernel_development.BlockDevice.{Blk1Dev, kernel_sector_size, long_mod}
use linux_kernel_development.BlockDevice.Transfer.{done, splice, copy, blk1_transfer}
use linux_kernel_development.BlockDevice.Bounds.{IsValid, length-splice}

module _ {ℓ} {A : Type ℓ} where
  drop-append_at : (n : ℕ) (xs ys : List A) → length xs ≡ n → drop n (xs ++ ys) ≡ ys
  drop-append_at n xs ys h = subst (λ k. drop k (xs ++ ys) ≡ ys) h (drop-append xs ys)

  take-append_at : (n : ℕ) (xs ys : List A) → length xs ≡ n → take n (xs ++ ys) ≡ xs
  take-append_at n xs ys h = subst (λ k. take k (xs ++ ys) ≡ xs) h (take-append xs ys)

module _ (into from : List ℕ) (at n : ℕ) where
  -- The bytes that a copy has put in place.
  pub take-drop-splice :
      at ≤ length into → n ≤ length from → take n (drop at (splice into at from n)) ≡ take n from
  take-drop-splice h k =
      rw
        (drop-append_at at (take at into) (take n from ++ drop (at + n) into)
          (omega (arith, length-take at into)))
        (take-append_at n (take n from) (drop (at + n) into) (omega (arith, length-take n from)))

-- A transfer that the device has room for is the copy.
blk1_transfer-copy :
    (dev : Blk1Dev) (buffer : List ℕ) (write : Bool) (sector nsect : ℕ)
    → dev.size < 2147483648
    → (sector + nsect) * kernel_sector_size ≤ dev.size
    → blk1_transfer dev sector nsect buffer write
      ≡ copy dev (sector * kernel_sector_size) (nsect * kernel_sector_size) buffer write
unfolding blk1_transfer
blk1_transfer-copy dev buffer write sector nsect small room =
    let offset_eq : (sector * kernel_sector_size) % long_mod ≡ sector * kernel_sector_size =
      omega arith in
    let nbytes_eq : (nsect * kernel_sector_size) % long_mod ≡ nsect * kernel_sector_size =
      omega arith in
    rw (offset_eq, nbytes_eq) (ground arith)

-- The two branches of the copy.
module _ (dev : Blk1Dev) (buffer : List ℕ) (offset nbytes : ℕ) where
  copy-writes :
      offset + nbytes ≤ length dev.content
      → nbytes ≤ length buffer
      → copy dev offset nbytes buffer true
        ≡ done (record dev { content = splice dev.content offset buffer nbytes }) buffer
  unfolding copy
  copy-writes inside fits = ground arith

  copy-reads :
      offset + nbytes ≤ length dev.content
      → nbytes ≤ length buffer
      → copy dev offset nbytes buffer false
        ≡ done dev (take nbytes (drop offset dev.content) ++ drop nbytes buffer)
  unfolding copy
  copy-reads inside fits = let e : 0 + nbytes ≡ nbytes = omega arith in ground (arith, e)

module _ (dev : Blk1Dev) (buffer other : List ℕ) (sector nsect : ℕ) where
  abbrev written : Blk1Dev
  written = record dev {
    content = splice dev.content (sector * kernel_sector_size) buffer (nsect * kernel_sector_size);
  }

  -- A transfer that a valid device has room for, with buffers that hold its sectors: writing them and then
  -- reading them puts the bytes that were written at the head of the other buffer, and leaves the rest
  -- of that buffer.
  pub blk1_transfer_round_trip :
      IsValid dev
      → (sector + nsect) * kernel_sector_size ≤ dev.size
      → nsect * kernel_sector_size ≤ length buffer
      → nsect * kernel_sector_size ≤ length other
      → (dev' : Blk1Dev) × (blk1_transfer dev sector nsect buffer true ≡ done dev' buffer)
        × (blk1_transfer dev' sector nsect other false
            ≡ done dev' (
                take (nsect * kernel_sector_size) buffer
                ++ drop (nsect * kernel_sector_size) other))
  blk1_transfer_round_trip v room fits fits' = (
    written,
    blk1_transfer-copy dev buffer true sector nsect v.size_int room
        ∙ copy-writes dev buffer offset nbytes inside fits,
    blk1_transfer-copy written other false sector nsect v.size_int room
        ∙ copy-reads written other offset nbytes written_inside fits'
        ∙ ap (λ bytes. done written (bytes ++ drop nbytes other))
            (take-drop-splice dev.content buffer offset nbytes (omega arith) fits),
  )
    where
      offset : ℕ
      offset = sector * kernel_sector_size

      nbytes : ℕ
      nbytes = nsect * kernel_sector_size

      inside : offset + nbytes ≤ length dev.content
      inside = omega (arith, v.allocated)

      written_inside : offset + nbytes ≤ length written.content
      written_inside =
          omega (arith, inside, length-splice dev.content buffer offset nbytes inside fits)
