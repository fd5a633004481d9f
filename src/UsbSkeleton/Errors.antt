-- ===== src/UsbSkeleton/Errors.antt =====
-- How USB/usbdrv3.c reports errors, and that its read gives the mutex back.
use linux_kernel_development.Prelude.{
  ℕ, ◌≡◌, ◌≢◌, ◌⊎◌, refl, true, false, Option, none, some, List, [], ◌∷◌, ℤ, pos, is_neg, eq_ℤ,
  epipe, eio, enoent, neg_errno, arith, if-intro, if◌then◌else◌, ◌==◌, ◌∙◌, ap,
}
use linux_kernel_development.UsbSkeleton.{
  UsbSkel, Completion, skel_read_bulk_callback, skel_do_read_io,
}
use linux_kernel_development.UsbSkeleton.Read.{
  ReadCall, Round, Reply, blocked, finished, unlock_exit, settle, available_of, deliver, start_io,
  serve, wake_up, attempt, retry, skel_read,
}
use linux_kernel_development.UsbSkeleton.Delivery.{skel_read-serve}

-- A call that waits holds the mutex, and one that has returned does not.
abbrev pub Unlocks : Reply → Type 0
Unlocks (blocked dev) = dev.io_mutex ≡ true
Unlocks (finished dev rv out) = dev.io_mutex ≡ false

skel_do_read_io-mutex :
    (dev : UsbSkel) (count : ℕ) (rv : ℤ) → (skel_do_read_io dev count rv).0.io_mutex ≡ dev.io_mutex
unfolding skel_do_read_io
skel_do_read_io-mutex dev count rv = ground arith

callback-mutex :
    (dev : UsbSkel) (c : Completion) → (skel_read_bulk_callback dev c).io_mutex ≡ dev.io_mutex
unfolding skel_read_bulk_callback
callback-mutex dev c = ground arith

settle-mutex : (dev : UsbSkel) (o : Option Completion) → (settle dev o).io_mutex ≡ dev.io_mutex
unfolding settle
settle-mutex dev none = refl
settle-mutex dev (some c) = ground (arith, callback-mutex dev c)

epipe-eq : (e : ℤ) → eq_ℤ e epipe ≡ true → e ≡ epipe
epipe-eq e h = ground arith

module _ (call : ReadCall) (r : Round) (again : UsbSkel → Reply) where
  deliver-Unlocks : (dev : UsbSkel) → Unlocks (deliver call r dev)
  unfolding deliver unlock_exit
  deliver-Unlocks dev = ground arith

  module _ (keep : (d : UsbSkel) → d.io_mutex ≡ true → Unlocks (again d)) where
    start_io-Unlocks : (dev : UsbSkel) → dev.io_mutex ≡ true → Unlocks (start_io call r again dev)
    unfolding start_io unlock_exit
    start_io-Unlocks dev held =
        let (dev', rv) = skel_do_read_io dev call.count r.submit_rv in
        if-intro Unlocks (is_neg rv) _ _ (λ _. refl)
          (λ _. keep dev' (skel_do_read_io-mutex dev call.count r.submit_rv ∙ held))

    serve-Unlocks : (dev : UsbSkel) → dev.io_mutex ≡ true → Unlocks (serve call r again dev)
    unfolding serve unlock_exit
    serve-Unlocks dev held =
        if-intro Unlocks (is_neg dev.errors) _ _ (λ _. refl)
          (λ _.
            if-intro Unlocks (dev.bulk_in_filled == 0) _ _ (λ _. start_io-Unlocks dev held)
              (λ _.
                if-intro Unlocks (available_of dev == 0) _ _ (λ _. start_io-Unlocks dev held)
                  (λ _. deliver-Unlocks dev)))

    wake_up-Unlocks :
        (dev : UsbSkel) (o : Option Completion)
        → dev.io_mutex ≡ true
        → Unlocks (wake_up call r again dev o)
    unfolding wake_up unlock_exit
    wake_up-Unlocks dev none held = refl
    wake_up-Unlocks dev (some c) held =
        serve-Unlocks (skel_read_bulk_callback dev c) (callback-mutex dev c ∙ held)

    attempt-Unlocks : (dev : UsbSkel) → dev.io_mutex ≡ true → Unlocks (attempt call r again dev)
    unfolding attempt unlock_exit
    attempt-Unlocks dev held =
        let seen : UsbSkel = settle dev r.before in
        let still : seen.io_mutex ≡ true = settle-mutex dev r.before ∙ held in
        if-intro Unlocks seen.ongoing_read _ _
          (λ _.
            if-intro Unlocks call.nonblock _ _ (λ _. refl)
              (λ _. wake_up-Unlocks seen r.during still))
          (λ _. serve-Unlocks seen still)

retry-Unlocks :
    (call : ReadCall) (rs : List Round) (dev : UsbSkel)
    → dev.io_mutex ≡ true
    → Unlocks (retry call rs dev)
unfolding retry
retry-Unlocks call [] dev held = held
retry-Unlocks call (r ∷ rs) dev held =
    attempt-Unlocks call r (retry call rs) (retry-Unlocks call rs) dev held

-- Called with the mutex free, `skel_read` holds it as long as it waits, and has given it back when it
-- returns, whichever value it returns.
pub skel_read-Unlocks :
    (call : ReadCall) (rs : List Round) (dev : UsbSkel)
    → dev.io_mutex ≡ false
    → Unlocks (skel_read call rs dev)
unfolding skel_read unlock_exit
skel_read-Unlocks call rs dev free =
    if-intro Unlocks (call.count == 0) _ _ (λ _. free)
      (λ _.
        if-intro Unlocks (is_neg call.lock_rv) _ _ (λ _. free)
          (λ _.
            if-intro Unlocks dev.disconnected _ _ (λ _. refl)
              (λ _. retry-Unlocks call rs (record dev { io_mutex = true }) refl)))

-- With an error on record and no transfer under way, `skel_read` of some bytes on a connected device,
-- once it has the mutex, returns -EPIPE for -EPIPE and -EIO for any other error, hands over nothing,
-- and changes nothing of the device but to clear the record.
skel_read_reports :
    (call : ReadCall) (r : Round) (rs : List Round) (dev : UsbSkel)
    → call.count ≢ 0
    → is_neg call.lock_rv ≡ false
    → dev.disconnected ≡ false
    → dev.ongoing_read ≡ false
    → is_neg dev.errors ≡ true
    → skel_read call (r ∷ rs) dev
      ≡ finished
          (record dev { errors = pos 0; io_mutex = false })
          (if eq_ℤ dev.errors epipe then epipe else eio)
          []
unfolding serve unlock_exit
skel_read_reports call r rs dev wanted locked connected idle bad =
    skel_read-serve call r rs dev wanted locked connected idle ∙ ground (arith, epipe-eq dev.errors)

-- A URB that was only unlinked (-ENOENT, -ECONNRESET or -ESHUTDOWN) is recorded as an error: the next
-- `skel_read` of some bytes that has the mutex of a connected device returns -EIO.
unlinked_read_fails :
    (call : ReadCall) (r : Round) (rs : List Round) (dev : UsbSkel) (c : Completion)
    → (c.status ≡ enoent) ⊎ (c.status ≡ neg_errno 104) ⊎ (c.status ≡ neg_errno 108)
    → call.count ≢ 0
    → is_neg call.lock_rv ≡ false
    → dev.disconnected ≡ false
    → (dev' : UsbSkel) × (skel_read call (r ∷ rs) (skel_read_bulk_callback dev c)
        ≡ finished dev' eio [])
unfolding skel_read_bulk_callback
unlinked_read_fails call r rs dev c unlinked wanted locked connected =
    (record (skel_read_bulk_callback dev c) { errors = pos 0; io_mutex = false }, returns)
  where
    failed : UsbSkel
    failed = skel_read_bulk_callback dev c

    recorded : failed.errors ≡ c.status
    recorded = ground arith

    returns :
        skel_read call (r ∷ rs) failed
        ≡ finished (record failed { errors = pos 0; io_mutex = false }) eio []
    returns =
        skel_read_reports call r rs failed wanted locked (ground arith) (ground arith)
          (ground (arith, recorded))
        ∙ ap (λ e. finished (record failed { errors = pos 0; io_mutex = false }) e [])
            (ground (arith, recorded))
