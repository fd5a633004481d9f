-- ===== src/UsbSkeleton/Rule.antt =====
-- An invariant rule for `skel_read` of USB/usbdrv3.c: what each change of the device keeps, the whole
-- call keeps.
use linux_kernel_development.Prelude.{
  ℕ, ◌≡◌, Bool, true, false, Option, none, some, List, [], ◌∷◌, ℤ, pos, is_neg, arith, if-intro,
  ◌==◌,
}
use linux_kernel_development.UsbSkeleton.{
  UsbSkel, Completion, IsLawful, skel_read_bulk_callback, skel_do_read_io,
}
use linux_kernel_development.UsbSkeleton.Read.{
  ReadCall, Round, Reply, blocked, finished, unlock_exit, settle, available_of, deliver, start_io,
  serve, wake_up, attempt, retry, skel_read,
}

-- The completions of a round come from a USB core that keeps its promises.
abbrev pub MaybeLawful : Option Completion → Type 0
MaybeLawful none = Unit {0}
MaybeLawful (some c) = IsLawful c

abbrev pub AllLawful : List Round → Type 0
AllLawful [] = Unit {0}
AllLawful (r ∷ rs) = MaybeLawful r.before × MaybeLawful r.during × AllLawful rs

abbrev pub left : Reply → UsbSkel
left (blocked dev) = dev
left (finished dev rv out) = dev

-- The changes that `skel_read` and the completions under it make.
pub record IsKept (P : UsbSkel → Type 0) : Type 0 where
  pub callback :
      (dev : UsbSkel) (c : Completion)
      → P dev
      → dev.ongoing_read ≡ true
      → IsLawful c
      → P (skel_read_bulk_callback dev c)
  pub start : (dev : UsbSkel) (count : ℕ) (rv : ℤ) → P dev → P (skel_do_read_io dev count rv).0
  pub delivery :
      (call : ReadCall) (r : Round) (dev : UsbSkel)
      → P dev
      → dev.ongoing_read ≡ false
      → P (left (deliver call r dev))
  pub clear : (dev : UsbSkel) → P dev → P (record dev { errors = pos 0 })
  pub lock : (dev : UsbSkel) (held : Bool) → P dev → P (record dev { io_mutex = held })

pub callback-ends :
    (dev : UsbSkel) (c : Completion) → (skel_read_bulk_callback dev c).ongoing_read ≡ false
unfolding skel_read_bulk_callback
callback-ends dev c = ground arith

module _ (P : UsbSkel → Type 0) (k : IsKept P) where
  abbrev Keeps : Reply → Type 0
  Keeps reply = P (left reply)

  pub settle_keeps :
      (dev : UsbSkel) (o : Option Completion) → P dev → MaybeLawful o → P (settle dev o)
  unfolding settle
  settle_keeps dev none p l = p
  settle_keeps dev (some c) p l =
      if-intro P dev.ongoing_read _ _ (λ on. k.callback dev c p on l) (λ off. p)

  module _ (call : ReadCall) (r : Round) (again : UsbSkel → Reply)
      (keep : (d : UsbSkel) → P d → Keeps (again d)) where
    start_io-Keeps : (dev : UsbSkel) → P dev → Keeps (start_io call r again dev)
    unfolding start_io unlock_exit
    start_io-Keeps dev p =
        let started : UsbSkel = (skel_do_read_io dev call.count r.submit_rv).0 in
        let kept : P started = k.start dev call.count r.submit_rv p in
        if-intro Keeps (is_neg (skel_do_read_io dev call.count r.submit_rv).1) _ _
          (λ _. k.lock started false kept) (λ _. keep started kept)

    serve-Keeps :
        (dev : UsbSkel) → P dev → dev.ongoing_read ≡ false → Keeps (serve call r again dev)
    unfolding serve unlock_exit
    serve-Keeps dev p off =
        if-intro Keeps (is_neg dev.errors) _ _
          (λ _. k.lock (record dev { errors = pos 0 }) false (k.clear dev p))
          (λ _.
            if-intro Keeps (dev.bulk_in_filled == 0) _ _ (λ _. start_io-Keeps dev p)
              (λ _.
                if-intro Keeps (available_of dev == 0) _ _ (λ _. start_io-Keeps dev p)
                  (λ _. k.delivery call r dev p off)))

    wake_up-Keeps :
        (dev : UsbSkel) (o : Option Completion)
        → MaybeLawful o
        → dev.ongoing_read ≡ true
        → P dev
        → Keeps (wake_up call r again dev o)
    unfolding wake_up unlock_exit
    wake_up-Keeps dev none l on p = k.lock dev false p
    wake_up-Keeps dev (some c) l on p =
        serve-Keeps (skel_read_bulk_callback dev c) (k.callback dev c p on l) (callback-ends dev c)

    attempt-Keeps :
        MaybeLawful r.before
        → MaybeLawful r.during
        → (dev : UsbSkel) → P dev
        → Keeps (attempt call r again dev)
    unfolding attempt unlock_exit
    attempt-Keeps lb ld dev p =
        let seen : UsbSkel = settle dev r.before in
        let kept : P seen = settle_keeps dev r.before p lb in
        if-intro Keeps seen.ongoing_read _ _
          (λ on.
            if-intro Keeps call.nonblock _ _ (λ _. k.lock seen false kept)
              (λ _. wake_up-Keeps seen r.during ld on kept))
          (λ off. serve-Keeps seen kept off)

  retry-Keeps :
      (call : ReadCall) (rs : List Round) (dev : UsbSkel)
      → AllLawful rs
      → P dev
      → Keeps (retry call rs dev)
  unfolding retry
  retry-Keeps call [] dev l p = p
  retry-Keeps call (r ∷ rs) dev l p =
      attempt-Keeps call r (retry call rs) (λ d q. retry-Keeps call rs d l.2 q) l.0 l.1 dev p

  -- What the single changes keep, `skel_read` keeps, whether it returns or waits.
  pub skel_read_keeps :
      (call : ReadCall) (rs : List Round) (dev : UsbSkel)
      → AllLawful rs
      → P dev
      → P (left (skel_read call rs dev))
  unfolding skel_read unlock_exit
  skel_read_keeps call rs dev l p =
      if-intro Keeps (call.count == 0) _ _ (λ _. p)
        (λ _.
          if-intro Keeps (is_neg call.lock_rv) _ _ (λ _. p)
            (λ _.
              if-intro Keeps dev.disconnected _ _
                (λ _. k.lock (record dev { io_mutex = true }) false (k.lock dev true p))
                (λ _. retry-Keeps call rs (record dev { io_mutex = true }) l (k.lock dev true p))))
