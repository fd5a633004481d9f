-- ===== src/BlockDevice/Changes.antt =====
-- The life of the device of BlockDriver/blk1.c between its opens, its closes and its timer.
use linux_kernel_development.Prelude.{
  if◌then◌else◌, ℕ, ◌+◌, ◌<◌, ◌≡◌, ◌≢◌, refl, Bool, true, false, replicate, not, if-intro, ◌==◌,
  ◌-◌, ◌%◌, arith, length-replicate,
}
use linux_kernel_development.BlockDevice.{Blk1Dev, short_mod}
use linux_kernel_development.BlockDevice.Bounds.{IsValid}
use linux_kernel_development.BlockDevice.Media.{
  blk1_open, blk1_release, blk1_media_changed, blk1_revalidate, blk1_invalidate, del_timer_sync,
}

-- `check_disk_change` asks the driver whether the media has changed, and if so has it revalidate.
abbrev pub AsksDriver : (Blk1Dev → Blk1Dev) → Type 0
AsksDriver check =
    (dev : Blk1Dev) → check dev ≡ (if blk1_media_changed dev then blk1_revalidate dev else dev)

module _ (check : Blk1Dev → Blk1Dev) where
  -- The kernel releases only what it has opened, and runs only a timer that is pending.
  pub data Step (dev : Blk1Dev) : Blk1Dev → Type 0 where
    opens : Step dev (blk1_open check dev)
    releases : dev.users ≢ 0 → Step dev (blk1_release dev)
    expires : dev.timer_pending ≡ true → Step dev (blk1_invalidate dev)

  pub data Reach (dev : Blk1Dev) : Blk1Dev → Type 0 where
    here : Reach dev dev
    then_step : {e f : Blk1Dev} → Reach dev e → Step e f → Reach dev f

-- The timer is pending only on a device that nobody uses, and `users` is a `short`.
pub record Idle (dev : Blk1Dev) : Type 0 where
  pub unused : dev.timer_pending ≡ true → dev.users ≡ 0
  pub users_short : dev.users < short_mod
  pub valid : IsValid dev

same_memory :
    (dev : Blk1Dev) {users : ℕ} {media_change timer_pending : Bool}
    → IsValid dev
    → IsValid
        (record dev { users = users; media_change = media_change; timer_pending = timer_pending })
same_memory dev v = record { allocated = v.allocated; size_int = v.size_int }

-- The device that `blk1_open` leaves, once the media have been looked at.
abbrev counted_in : Blk1Dev → Blk1Dev
counted_in dev = record dev { users = (dev.users + 1) % short_mod }

revalidate-Idle : (dev : Blk1Dev) → Idle dev → Idle (blk1_revalidate dev)
unfolding blk1_revalidate
revalidate-Idle dev idle =
    if-intro Idle dev.media_change
      (record dev { media_change = false; content = replicate dev.size 0 }) dev
      (λ _. record {
        unused = idle.unused;
        users_short = idle.users_short;
        valid = record { allocated = length-replicate dev.size 0; size_int = idle.valid.size_int };
      })
      (λ _. idle)

release-Idle : (dev : Blk1Dev) → dev.users ≢ 0 → Idle dev → Idle (blk1_release dev)
unfolding blk1_release
release-Idle dev used idle =
    if-intro Idle ((dev.users + (short_mod - 1)) % short_mod == 0) _ _
      (λ none_left. record {
        unused = λ _. ground arith;
        users_short = omega arith;
        valid = same_memory dev idle.valid;
      })
      (λ some_left. record {
        unused = λ pending. absurd (used (idle.unused pending));
        users_short = omega arith;
        valid = same_memory dev idle.valid;
      })

invalidate-Idle : (dev : Blk1Dev) → Idle dev → Idle (blk1_invalidate dev)
unfolding blk1_invalidate
invalidate-Idle dev idle =
    if-intro Idle (not (dev.users == 0)) _ _
      (λ used. record {
        unused = λ pending. ground arith;
        users_short = idle.users_short;
        valid = same_memory dev idle.valid;
      })
      (λ unused. record {
        unused = λ pending. ground arith;
        users_short = idle.users_short;
        valid = same_memory dev idle.valid;
      })

counted_in-Idle : (dev : Blk1Dev) → dev.timer_pending ≡ false → Idle dev → Idle (counted_in dev)
counted_in-Idle dev stopped idle = record {
  unused = λ pending. ground arith;
  users_short = omega arith;
  valid = same_memory dev idle.valid;
}

module _ (check : Blk1Dev → Blk1Dev) (asks : AsksDriver check) where
  check-Idle : (dev : Blk1Dev) → Idle dev → Idle (check dev)
  check-Idle dev idle = rw (asks dev) (
      if-intro Idle (blk1_media_changed dev) (blk1_revalidate dev) dev
        (λ _. revalidate-Idle dev idle) (λ _. idle))

  check-timer_pending : (dev : Blk1Dev) → (check dev).timer_pending ≡ dev.timer_pending
  unfolding blk1_media_changed blk1_revalidate
  check-timer_pending dev = rw (asks dev) (ground arith)

  open-Idle : (dev : Blk1Dev) → Idle dev → Idle (blk1_open check dev)
  unfolding blk1_open
  open-Idle dev idle =
      if-intro (λ c. Idle (counted_in c)) (dev.users == 0) (check (del_timer_sync dev))
        (del_timer_sync dev)
        (λ _.
          counted_in-Idle (check (del_timer_sync dev)) (check-timer_pending (del_timer_sync dev))
            (check-Idle (del_timer_sync dev) stopped))
        (λ _. counted_in-Idle (del_timer_sync dev) refl stopped)
    where
      stopped : Idle (del_timer_sync dev)
      stopped = record {
        unused = λ pending. ground arith;
        users_short = idle.users_short;
        valid = same_memory dev idle.valid;
      }

  Step-Idle : {dev dev' : Blk1Dev} → Step check dev dev' → Idle dev → Idle dev'
  Step-Idle {dev} opens idle = open-Idle dev idle
  Step-Idle {dev} (releases used) idle = release-Idle dev used idle
  Step-Idle {dev} (expires pending) idle = invalidate-Idle dev idle

  -- Along every sequence of opens, releases of what is open and expiries of a pending timer, the
  -- timer is pending only while nobody uses the device, and the memory has the size of the device.
  Reach-Idle : {dev dev' : Blk1Dev} → Reach check dev dev' → Idle dev → Idle dev'
  Reach-Idle here idle = idle
  Reach-Idle (then_step r s) idle = Step-Idle s (Reach-Idle r idle)

  -- In every state that opens, releases of what is open and expiries of a pending timer reach from a
  -- valid device that is idle or in use, a pending timer that runs leaves a media change recorded, and
  -- the next open then reads zeros everywhere and clears the record.
  pub expiry_erases :
      {dev dev' : Blk1Dev}
      → Idle dev
      → Reach check dev dev'
      → dev'.timer_pending ≡ true
      → ((blk1_invalidate dev').media_change ≡ true)
        × ((blk1_open check (blk1_invalidate dev')).content ≡ replicate dev'.size 0)
        × ((blk1_open check (blk1_invalidate dev')).media_change ≡ false)
  unfolding blk1_open blk1_invalidate blk1_media_changed blk1_revalidate
  expiry_erases {dev} {dev'} idle r pending =
      let unused = (Reach-Idle r idle).unused pending in
      ground (arith, asks (del_timer_sync (blk1_invalidate dev')))

  -- A device in use, with its timer not pending and no media change recorded, is as it was after a
  -- close and an open, with nothing in between.
  reopen_keeps :
      (dev : Blk1Dev)
      → dev.timer_pending ≡ false
      → dev.media_change ≡ false
      → dev.users ≢ 0
      → dev.users < short_mod
      → blk1_open check (blk1_release dev) ≡ dev
  unfolding blk1_open blk1_release blk1_media_changed
  reopen_keeps dev t m u s = ground (arith, asks (del_timer_sync (blk1_release dev)))
