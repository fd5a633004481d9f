-- ===== src/BlockDevice/Requests.antt =====
-- Whole requests of BlockDriver/blk1.c: the loop over the segments.
use linux_kernel_development.Prelude.{
  ap, ◌∙◌, suc, ℕ, ◌+◌, ◌*◌, ◌%◌, ◌≤◌, ◌<◌, ◌≡◌, refl, Bool, false, List, [], ◌∷◌, length, arith,
  pos,
}
use linux_kernel_development.BlockDevice.{Blk1Dev, kernel_sector_size, long_mod}
use linux_kernel_development.BlockDevice.Transfer.{
  Transferred, done, outside, blk1_transfer, Requested, ended, crashed, with_buffer, after_segment,
  each_segment, copy, blk1_request,
}
use linux_kernel_development.BlockDevice.Bounds.{
  IsValid, StaysInside, sector_limit, blk1_transfer-StaysInside,
}

-- Every segment has room for `n` bytes.
abbrev pub Holds : ℕ → List (List ℕ) → Type 0
Holds n [] = Unit
Holds n (buffer ∷ buffers) = (n ≤ length buffer) × Holds n buffers

-- What is claimed of a request on `count` segments: it succeeds, and the device stays valid and of
-- the same size.
abbrev pub Served : Blk1Dev → ℕ → Requested → Type 0
Served dev count (ended dev' buffers rv) =
    IsValid dev' × (dev'.size ≡ dev.size) × (length buffers ≡ count) × (rv ≡ pos 0)
Served dev count crashed = ⊥

with_buffer-Served :
    (dev dev' : Blk1Dev) (n : ℕ) (buffer : List ℕ) (r : Requested)
    → dev'.size ≡ dev.size
    → Served dev' n r
    → Served dev (suc n) (with_buffer buffer r)
with_buffer-Served dev dev' n buffer (ended _ _ _) e (v, s, l, k) = (v, s ∙ e, ap suc l, k)
with_buffer-Served dev dev' n buffer crashed e h = elim h [ ]

after_segment-Served :
    (dev : Blk1Dev) (n : ℕ) (buffer : List ℕ) (t : Transferred) (rest : Blk1Dev → Requested)
    → StaysInside dev buffer t
    → ((dev' : Blk1Dev) → IsValid dev' → Served dev' n (rest dev'))
    → Served dev (suc n) (after_segment t rest)
after_segment-Served dev n buffer (done dev' b) rest (v, s, _) h =
    with_buffer-Served dev dev' n b (rest dev') s (h dev' v)
after_segment-Served dev n buffer outside rest s h = elim s [ ]

mod_le : (n : ℕ) → n % long_mod ≤ n
mod_le n = omega arith

each_segment-Served :
    (dev : Blk1Dev) (sector num : ℕ) (write : Bool) (buffers : List (List ℕ))
    → IsValid dev
    → sector + num * length buffers < sector_limit
    → Holds (num * kernel_sector_size) buffers
    → Served dev (length buffers) (each_segment dev sector num write buffers)
unfolding each_segment
each_segment-Served dev sector num write [] v low fits = (v, refl, refl, refl)
each_segment-Served dev sector num write (buffer ∷ buffers) v low (fit, fits) =
    after_segment-Served dev (length buffers) buffer (blk1_transfer dev sector num buffer write) _
      (blk1_transfer-StaysInside dev buffer write sector num v (omega arith) fit)
      (λ dev' v'.
        each_segment-Served dev' ((sector + num) % long_mod) num write buffers v'
          (omega (arith, mod_le (sector + num))) fits)

-- A transfer into a buffer that is too short.
short_transfer :
    (dev : Blk1Dev) (sector nsect : ℕ) (buffer : List ℕ) (write : Bool)
    → IsValid dev
    → (sector + nsect) * kernel_sector_size ≤ dev.size
    → length buffer < nsect * kernel_sector_size
    → blk1_transfer dev sector nsect buffer write ≡ outside
unfolding blk1_transfer copy
short_transfer dev sector nsect buffer write v room short = ground arith

after_segment-crashed :
    (dev : Blk1Dev) (buffer : List ℕ) (t : Transferred) (rest : Blk1Dev → Requested)
    → StaysInside dev buffer t
    → ((dev' : Blk1Dev) → IsValid dev' → dev'.size ≡ dev.size → rest dev' ≡ crashed)
    → after_segment t rest ≡ crashed
after_segment-crashed dev buffer (done dev' b) rest (v, s, _) h = rw (h dev' v s) refl
after_segment-crashed dev buffer outside rest s h = refl

module _ (dev : Blk1Dev) (pos_sector num_sector : ℕ) (write : Bool) where
  -- A request for data on a valid device, whose segments all have room for `num_sector` sectors, the
  -- count of its first one, and that ends below sector 2^55, is answered with success, one buffer for each segment, touches no memory
  -- outside of the device and its buffers, and leaves the device valid and of the same size.
  pub blk1_request-Served :
      (buffers : List (List ℕ))
      → IsValid dev
      → pos_sector + num_sector * length buffers < sector_limit
      → Holds (num_sector * kernel_sector_size) buffers
      → Served dev (length buffers) (blk1_request dev false pos_sector num_sector write buffers)
  unfolding blk1_request
  blk1_request-Served buffers v low fits =
      each_segment-Served dev pos_sector num_sector write buffers v low fits

  -- A request for data on a valid device that has room for two segments of the length of its first
  -- one, `num_sector` sectors, touches memory outside of the second segment's buffer if that is
  -- shorter than the first.
  short_segment_crashes :
      (first second : List ℕ) (later : List (List ℕ))
      → IsValid dev
      → length first ≡ num_sector * kernel_sector_size
      → length second < length first
      → (pos_sector + 2 * num_sector) * kernel_sector_size ≤ dev.size
      → blk1_request dev false pos_sector num_sector write (first ∷ (second ∷ later)) ≡ crashed
  unfolding blk1_request each_segment
  short_segment_crashes first second later v whole short room =
      after_segment-crashed dev first (blk1_transfer dev pos_sector num_sector first write) _
        (blk1_transfer-StaysInside dev first write pos_sector num_sector v
          (omega (arith, v.size_int)) (omega arith))
        (λ dev' v' same_size.
          let e : (pos_sector + num_sector) % long_mod ≡ pos_sector + num_sector =
            omega (arith, v.size_int) in
          let missed : blk1_transfer dev' ((pos_sector + num_sector) % long_mod) num_sector second
                write
              ≡ outside =
            short_transfer dev' _ num_sector second write v' (omega (arith, e)) (omega arith) in
          rw missed refl)
