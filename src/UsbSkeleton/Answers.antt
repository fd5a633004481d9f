-- ===== src/UsbSkeleton/Answers.antt =====
-- The values that `skel_read` of USB/usbdrv3.c returns.
use linux_kernel_development.Prelude.{
  ℕ, ◌≤◌, ◌<◌, ◌≡◌, ◌≢◌, refl, min, true, Option, none, some, List, [], ◌∷◌, length, take,
  length-take, ℤ, pos, is_neg, arith, ◌⊎◌, inl, inr, ◌<◌, Bool-cases, if-intro, eq_ℤ, epipe, eio,
  inl, inr, ◌==◌, if◌then◌else◌,
}
use linux_kernel_development.UsbSkeleton.{
  UsbSkel, Completion, skel_read_bulk_callback, skel_do_read_io,
}
use linux_kernel_development.UsbSkeleton.Read.{
  ReadCall, Round, Reply, blocked, finished, unlock_exit, settle, available_of, deliver, start_io,
  serve, wake_up, attempt, retry, skel_read,
}
use linux_kernel_development.UsbSkeleton.Bounds.{
  IsValid, relock, callback-IsValid, skel_do_read_io-IsValid, IsValid-IsKept,
}
use linux_kernel_development.UsbSkeleton.Rule.{AllLawful, MaybeLawful, settle_keeps}
use linux_kernel_development.UsbSkeleton.Delivery.{
  pending, length-pending, deliver-failed, deliver-finished,
}

-- What `skel_read` may answer: the number of bytes that it hands over, at most as many as were asked
-- for, and none only if none were asked for; or an error, and no bytes.
pub data Answer (call : ReadCall) (rv : ℤ) (out : List ℕ) : Type 0 where
  bytes :
      rv ≡ pos (length out)
      → length out ≤ call.count
      → (call.count ≡ 0) ⊎ (0 < length out)
      → Answer call rv out
  failure : is_neg rv ≡ true → out ≡ [] → Answer call rv out

abbrev pub Answers : ReadCall → Reply → Type 0
Answers call (blocked dev) = Unit {0}
Answers call (finished dev rv out) = Answer call rv out

reported : (e : ℤ) → is_neg e ≡ true → is_neg (if eq_ℤ e epipe then e else eio) ≡ true
reported e bad = ground arith

module _ (call : ReadCall) (r : Round) where
  deliver-Answers :
      (dev : UsbSkel)
      → IsValid dev
      → call.count ≢ 0
      → dev.bulk_in_copied < dev.bulk_in_filled
      → Answers call (deliver call r dev)
  deliver-Answers dev v wanted more = elim (Bool-cases r.copy_fails) [
    | inl failed ↦ rw (deliver-failed call r dev failed) (failure refl refl)
    | inr copied ↦ rw (deliver-finished call r dev v copied) (bytes counted fits some_there)
  ]
    where
      counted :
          pos (min (length (pending dev)) call.count) ≡ pos (length (take call.count (pending dev)))
      counted = ground (arith, length-take call.count (pending dev))

      fits : length (take call.count (pending dev)) ≤ call.count
      fits = omega (arith, length-take call.count (pending dev))

      some_there : (call.count ≡ 0) ⊎ (0 < length (take call.count (pending dev)))
      some_there = inr (omega (arith, length-take call.count (pending dev), length-pending dev v))

  -- A failed start is an error.
  start_io-Answers :
      (again : UsbSkel → Reply) (dev : UsbSkel)
      → Answers call (again (skel_do_read_io dev call.count r.submit_rv).0)
      → Answers call (start_io call r again dev)
  unfolding start_io unlock_exit
  start_io-Answers again dev later =
      elim (Bool-cases (is_neg (skel_do_read_io dev call.count r.submit_rv).1)) [
        | inl bad ↦ rw bad (failure bad refl)
        | inr good ↦ rw good later
      ]

  module _ (again : UsbSkel → Reply) (keep : (d : UsbSkel) → IsValid d → Answers call (again d))
      (wanted : call.count ≢ 0) where
    serve-Answers : (dev : UsbSkel) → IsValid dev → Answers call (serve call r again dev)
    unfolding serve unlock_exit
    serve-Answers dev v =
        if-intro (Answers call) (is_neg dev.errors) _ _
          (λ bad. failure (reported dev.errors bad) refl)
          (λ fine.
            if-intro (Answers call) (dev.bulk_in_filled == 0) _ _ (λ none_there. restarted)
              (λ some_there.
                if-intro (Answers call) (available_of dev == 0) _ _ (λ used_up. restarted)
                  (λ more. deliver-Answers dev v wanted (ground arith))))
      where
        restarted : Answers call (start_io call r again dev)
        restarted = start_io-Answers again dev (
            keep (skel_do_read_io dev call.count r.submit_rv).0
              (skel_do_read_io-IsValid dev call.count r.submit_rv v))

    wake_up-Answers :
        (dev : UsbSkel) (o : Option Completion)
        → MaybeLawful o
        → dev.ongoing_read ≡ true
        → IsValid dev
        → Answers call (wake_up call r again dev o)
    unfolding wake_up unlock_exit
    wake_up-Answers dev none l on v = failure refl refl
    wake_up-Answers dev (some c) l on v =
        serve-Answers (skel_read_bulk_callback dev c) (callback-IsValid dev c v on l)

    attempt-Answers :
        MaybeLawful r.before
        → MaybeLawful r.during
        → (dev : UsbSkel) → IsValid dev
        → Answers call (attempt call r again dev)
    unfolding attempt unlock_exit
    attempt-Answers lb ld dev v =
        let seen : UsbSkel = settle dev r.before in
        let valid : IsValid seen = settle_keeps IsValid IsValid-IsKept dev r.before v lb in
        if-intro (Answers call) seen.ongoing_read _ _
          (λ on.
            if-intro (Answers call) call.nonblock _ _ (λ _. failure refl refl)
              (λ _. wake_up-Answers seen r.during ld on valid))
          (λ off. serve-Answers seen valid)

retry-Answers :
    (call : ReadCall) (rs : List Round) (dev : UsbSkel)
    → call.count ≢ 0
    → AllLawful rs
    → IsValid dev
    → Answers call (retry call rs dev)
unfolding retry
retry-Answers call [] dev wanted l v = tt
retry-Answers call (r ∷ rs) dev wanted l v =
    attempt-Answers call r (retry call rs) (λ d w. retry-Answers call rs d wanted l.2 w) wanted l.0
      l.1 dev v

-- If the USB core keeps its promises, `skel_read` on a valid device returns the number of bytes that
-- it hands over, which is at most `count` and is 0 only if `count` is, or it returns an error and
-- hands over none: a read of some bytes never reports the end of the file.
pub skel_read-Answers :
    (call : ReadCall) (rs : List Round) (dev : UsbSkel)
    → AllLawful rs
    → IsValid dev
    → Answers call (skel_read call rs dev)
unfolding skel_read unlock_exit
skel_read-Answers call rs dev l v =
    if-intro (Answers call) (call.count == 0) _ _
      (λ nothing. bytes refl (omega arith) (inl (ground arith)))
      (λ wanted.
        if-intro (Answers call) (is_neg call.lock_rv) _ _ (λ bad. failure bad refl)
          (λ _.
            if-intro (Answers call) dev.disconnected _ _ (λ _. failure refl refl)
              (λ _.
                retry-Answers call rs (record dev { io_mutex = true }) (ground arith) l
                  (relock dev true v))))
