-- ===== src/UsbSkeleton/Delivery.antt =====
-- What the reader of a USB/usbdrv3.c device gets.
use linux_kernel_development.Prelude.{
  ℤ, ℕ, ◌+◌, ◌-◌, ◌≤◌, ◌<◌, ◌≡◌, ◌≢◌, refl, ap, ◌∙◌, min, true, false, Option, none, some, List, [],
  ◌∷◌, take, drop, drop-drop, drop-all, sym, drop-take, take-take, length-take, length-drop, pos,
  is_neg, arith, dec_lt, length, efault, if◌then◌else◌,
}
use linux_kernel_development.UsbSkeleton.{UsbSkel, Completion, skel_do_read_io}
use linux_kernel_development.UsbSkeleton.Read.{
  ReadCall, Round, Reply, finished, unlock_exit, settle, available_of, deliver, serve, attempt,
  retry, skel_read,
}
use linux_kernel_development.UsbSkeleton.Bounds.{IsValid, copy_in_bounds, relock}
use linux_kernel_development.UsbSkeleton.Rule.{left}

-- The bytes that were received and not yet handed over, in order.
abbrev pub pending : UsbSkel → List ℕ
pending dev =
    take (dev.bulk_in_filled - dev.bulk_in_copied) (drop dev.bulk_in_copied dev.bulk_in_buffer)

pub length-pending :
    (dev : UsbSkel) → IsValid dev → length (pending dev) ≡ dev.bulk_in_filled - dev.bulk_in_copied
length-pending dev v = omega (
  arith,
  length-take (dev.bulk_in_filled - dev.bulk_in_copied)
      (drop dev.bulk_in_copied dev.bulk_in_buffer),
  length-drop dev.bulk_in_copied dev.bulk_in_buffer,
)

settle-idle :
    (dev : UsbSkel) (o : Option Completion) → dev.ongoing_read ≡ false → settle dev o ≡ dev
unfolding settle
settle-idle dev none off = refl
settle-idle dev (some c) off = rw off

-- A device on which a read that finds data returns at once.
pub record IsReady (call : ReadCall) (dev : UsbSkel) : Type 0 where
  pub wanted : call.count ≢ 0
  pub locked : is_neg call.lock_rv ≡ false
  pub connected : dev.disconnected ≡ false
  pub idle : dev.ongoing_read ≡ false
  pub no_error : is_neg dev.errors ≡ false

-- Such a read comes down to the pass that serves it.
pub skel_read-serve :
    (call : ReadCall) (r : Round) (rs : List Round) (dev : UsbSkel)
    → call.count ≢ 0
    → is_neg call.lock_rv ≡ false
    → dev.disconnected ≡ false
    → dev.ongoing_read ≡ false
    → skel_read call (r ∷ rs) dev ≡ serve call r (retry call rs) (record dev { io_mutex = true })
unfolding skel_read retry attempt
skel_read-serve call r rs dev wanted locked connected idle =
    ground (arith, settle-idle (record dev { io_mutex = true }) r.before idle)

pending-lt : (dev : UsbSkel) → pending dev ≢ [] → dev.bulk_in_copied < dev.bulk_in_filled
pending-lt dev there = elim (dec_lt dev.bulk_in_copied dev.bulk_in_filled) [
  | yes p ↦ p
  | no p ↦
      let e : dev.bulk_in_filled - dev.bulk_in_copied ≡ 0 = omega arith in
      absurd (there (ap (λ k. take k (drop dev.bulk_in_copied dev.bulk_in_buffer)) e))
]

module _ (call : ReadCall) (r : Round) where
  -- With bytes left over, the pass delivers some.
  pub serve-deliver :
      (again : UsbSkel → Reply) (dev : UsbSkel)
      → IsValid dev
      → is_neg dev.errors ≡ false
      → dev.bulk_in_copied < dev.bulk_in_filled
      → serve call r again dev ≡ deliver call r dev
  unfolding serve
  serve-deliver again dev v fine more = ground (arith, copy_in_bounds dev call.count v)

  pub deliver-finished :
      (dev : UsbSkel)
      → IsValid dev
      → r.copy_fails ≡ false
      → deliver call r dev
        ≡ finished
            (left (deliver call r dev))
            (pos (min (length (pending dev)) call.count))
            (take call.count (pending dev))
  unfolding deliver unlock_exit
  deliver-finished dev v copied =
      let e : available_of dev ≡ dev.bulk_in_filled - dev.bulk_in_copied =
        (copy_in_bounds dev call.count v).0 in
      rw (take-take call.count) (ground (arith, length-pending dev v))

  pub deliver-failed :
      (dev : UsbSkel)
      → r.copy_fails ≡ true
      → deliver call r dev ≡ finished (left (deliver call r dev)) efault []
  unfolding deliver unlock_exit
  deliver-failed dev failed = ground arith

  deliver-returns :
      (dev : UsbSkel)
      → (rv : ℤ) × (out : List ℕ) × (deliver call r dev
          ≡ finished (left (deliver call r dev)) rv out)
  unfolding deliver unlock_exit
  deliver-returns dev = (
    if r.copy_fails then efault else pos (min (available_of dev) call.count),
    if r.copy_fails
        then []
        else take (min (available_of dev) call.count) (drop dev.bulk_in_copied dev.bulk_in_buffer),
    ground arith,
  )

  deliver-left :
      (dev : UsbSkel)
      → IsValid dev
      → call.count ≤ length (pending dev)
      → left (deliver call r dev)
        ≡ record dev { bulk_in_copied = dev.bulk_in_copied + call.count; io_mutex = false }
  unfolding deliver unlock_exit
  deliver-left dev v enough = ground (arith, length-pending dev v, copy_in_bounds dev call.count v)

  deliver-leaves :
      (dev : UsbSkel)
      → IsValid dev
      → call.count ≤ length (pending dev)
      → dev.ongoing_read ≡ false
      → (pending (left (deliver call r dev)) ≡ drop call.count (pending dev))
        × ((left (deliver call r dev)).ongoing_read ≡ false)
  deliver-leaves dev v enough idle = rw (deliver-left dev v enough) (rest, idle)
    where
      fewer :
          dev.bulk_in_filled - (dev.bulk_in_copied + call.count)
          ≡ dev.bulk_in_filled - dev.bulk_in_copied - call.count
      fewer = omega arith

      rest :
          take
            (dev.bulk_in_filled - (dev.bulk_in_copied + call.count))
            (drop (dev.bulk_in_copied + call.count) dev.bulk_in_buffer)
          ≡ drop call.count (pending dev)
      rest =
          rw (
            drop-take call.count,
            drop-drop call.count dev.bulk_in_copied dev.bulk_in_buffer,
            fewer,
          )

  -- A transfer that is started finds the buffer empty.
  deliver-empties :
      (dev : UsbSkel)
      → IsValid dev
      → length (pending dev) < call.count
      → pending (left (deliver call r dev)) ≡ []
  unfolding deliver unlock_exit skel_do_read_io
  deliver-empties dev v short =
      ground (arith, length-pending dev v, copy_in_bounds dev call.count v)

  deliver-drops :
      (dev : UsbSkel)
      → IsValid dev
      → dev.ongoing_read ≡ false
      → pending (left (deliver call r dev)) ≡ drop call.count (pending dev)
  deliver-drops dev v idle = elim (dec_lt (length (pending dev)) call.count) [
    | yes short ↦
        deliver-empties dev v short ∙ sym (drop-all call.count (pending dev) (omega arith))
    | no enough ↦ (deliver-leaves dev v (omega arith) idle).0
  ]

module _ (call : ReadCall) (r : Round) (rs : List Round) (dev : UsbSkel) where
  -- When `skel_read` finds received bytes, no error and no transfer under way, and the copy to the
  -- user succeeds, it returns at once, with as many bytes as were asked for and are there: the first
  -- of the pending bytes, in order; the bytes behind them, if any, stay pending.
  pub skel_read_delivers :
      IsValid dev
      → IsReady call dev
      → pending dev ≢ []
      → r.copy_fails ≡ false
      → (dev' : UsbSkel) × (skel_read call (r ∷ rs) dev
          ≡ finished dev'
              (pos (min (length (pending dev)) call.count))
              (take call.count (pending dev)))
        × (pending dev' ≡ drop call.count (pending dev))
  skel_read_delivers v ready there copied = (
    left (deliver call r locked),
    skel_read-serve call r rs dev ready.wanted ready.locked ready.connected ready.idle
        ∙ serve-deliver call r (retry call rs) locked (relock dev true v) ready.no_error
            (pending-lt dev there)
        ∙ deliver-finished call r locked (relock dev true v) copied,
    deliver-drops call r locked (relock dev true v) ready.idle,
  )
    where
      locked : UsbSkel
      locked = record dev { io_mutex = true }

  -- When `skel_read` finds at least as many received bytes as are asked for, no error and no transfer
  -- under way, it leaves the bytes behind those asked for pending, in order, and starts no transfer,
  -- whether or not the copy to the user succeeds.
  pub skel_read_leaves_rest :
      IsValid dev
      → IsReady call dev
      → call.count ≤ length (pending dev)
      → (dev' : UsbSkel) × (rv : ℤ) × (out : List ℕ) × (skel_read call (r ∷ rs) dev
          ≡ finished dev' rv out)
        × (pending dev' ≡ drop call.count (pending dev))
        × (dev'.ongoing_read ≡ false)
  skel_read_leaves_rest v ready enough =
      let locked : UsbSkel = record dev { io_mutex = true } in
      let valid : IsValid locked = relock dev true v in
      let (rv, out, done) = deliver-returns call r locked in
      let (rest, idle) = deliver-leaves call r locked valid enough ready.idle in
      (
        left (deliver call r locked),
        rv,
        out,
        skel_read-serve call r rs dev ready.wanted ready.locked ready.connected ready.idle
            ∙ serve-deliver call r (retry call rs) locked valid ready.no_error
                (pending-lt dev (nonempty ready.wanted))
            ∙ done,
        rest,
        idle,
      )
    where
      nonempty : call.count ≢ 0 → pending dev ≢ []
      nonempty wanted e = wanted (let z : length (pending dev) ≡ 0 = ap length e in omega arith)
