-- ===== src/BlockDevice/Transfer.antt =====
-- `blk1_transfer` and `blk1_request` of BlockDriver/blk1.c.
use linux_kernel_development.Prelude.{
  ℕ, ◌+◌, ◌*◌, ◌%◌, Bool, List, [], ◌∷◌, ◌++◌, length, take, drop, ltb, if◌then◌else◌, ℤ, pos,
}
use linux_kernel_development.BlockDevice.{Blk1Dev, kernel_sector_size, long_mod}

-- What a transfer does to the memory of the device and the buffer: `outside` if it touches memory
-- outside of one of them, which C leaves undefined.
pub data Transferred : Type 0 where
  done : Blk1Dev → List ℕ → Transferred
  outside : Transferred

-- `memcpy` of `n` bytes from `from` to the offset `at` of `into`.
abbrev pub splice : List ℕ → ℕ → List ℕ → ℕ → List ℕ
splice into at from n = take at into ++ (take n from ++ drop (at + n) into)

-- The copy, once `offset` and `nbytes` have passed the test.
unfoldable pub copy : Blk1Dev → ℕ → ℕ → List ℕ → Bool → Transferred
copy dev offset nbytes buffer write =
    if ltb (length dev.content) (offset + nbytes)
    then outside
    else (if ltb (length buffer) nbytes
        then outside
        else (if write
            then done (record dev { content = splice dev.content offset buffer nbytes }) buffer
            else done dev (splice buffer 0 (drop offset dev.content) nbytes)))

-- The products and the sum are `unsigned long`s. A transfer beyond the end does nothing.
unfoldable pub blk1_transfer : Blk1Dev → ℕ → ℕ → List ℕ → Bool → Transferred
blk1_transfer dev sector nsect buffer write =
    let offset = (sector * kernel_sector_size) % long_mod in
    let nbytes = (nsect * kernel_sector_size) % long_mod in
    if ltb dev.size ((offset + nbytes) % long_mod)
    then done dev buffer
    else copy dev offset nbytes buffer write

-- What `blk1_request` does to the device and to the buffers of the segments.
pub data Requested : Type 0 where
  ended : Blk1Dev → List (List ℕ) → ℤ → Requested
  crashed : Requested

-- What the segments before have done to their buffers comes first.
abbrev pub with_buffer : List ℕ → Requested → Requested
with_buffer buffer (ended dev buffers rv) = ended dev (buffer ∷ buffers) rv
with_buffer buffer crashed = crashed

-- The rest of the loop goes on with the device that a segment leaves.
abbrev pub after_segment : Transferred → (Blk1Dev → Requested) → Requested
after_segment (done dev buffer) rest = with_buffer buffer (rest dev)
after_segment outside rest = crashed

-- `rq_for_each_segment`: each segment is a buffer. `blk_rq_cur_sectors(req)` is the same in every
-- round, since nothing in the loop moves the request on.
unfoldable pub each_segment : Blk1Dev → ℕ → ℕ → Bool → List (List ℕ) → Requested
each_segment dev pos_sector num_sector write [] = ended dev [] (pos 0)
each_segment dev pos_sector num_sector write (buffer ∷ buffers) =
    after_segment (blk1_transfer dev pos_sector num_sector buffer write)
      (λ dev'. each_segment dev' ((pos_sector + num_sector) % long_mod) num_sector write buffers)

-- `BLK_STS_OK` is 0, and `BLK_STS_IOERR` is 10.
unfoldable pub blk1_request : Blk1Dev → Bool → ℕ → ℕ → Bool → List (List ℕ) → Requested
blk1_request dev passthrough pos_sector num_sector write buffers =
    if passthrough
    then ended dev buffers (pos 10)
    else each_segment dev pos_sector num_sector write buffers
