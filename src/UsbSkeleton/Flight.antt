-- ===== src/UsbSkeleton/Flight.antt =====
-- The writes in flight of USB/usbdrv3.c: how many there can be, and that none leaves a buffer, a URB
-- or a count of the semaphore behind.
use linux_kernel_development.Prelude.{
  ◌+◌, ◌-◌, ◌≤◌, ◌<◌, ◌≡◌, ◌≢◌, refl, true, false, Option, none, some, List, [], ◌∷◌, length, ℤ,
  pos, is_neg, arith, min, ◌⊎◌, if◌then◌else◌, sym, ◌∙◌, Bool-cases, inl, inr,
}
use linux_kernel_development.UsbSkeleton.{
  UsbSkel, Completion, writes_in_flight, max_transfer, skel_read_bulk_callback, skel_do_read_io,
}
use linux_kernel_development.UsbSkeleton.Read.{ReadCall, Round, skel_read, deliver, settle}
use linux_kernel_development.UsbSkeleton.Rule.{left, AllLawful, IsKept, skel_read_keeps}
use linux_kernel_development.UsbSkeleton.Write.{
  WriteCall, submit_write, prepare_write, skel_write, complete_write, complete_writes, Drained,
  skel_draw_down, skel_flush,
}

-- The semaphore counts what is not in flight; each URB in flight has its buffer, and the driver holds
-- no reference to a URB between calls.
pub record IsBalanced (dev : UsbSkel) : Type 0 where
  pub counted : dev.limit_sem + dev.submitted ≡ writes_in_flight
  pub buffered : dev.buffers ≡ dev.submitted
  pub dropped : dev.urbs ≡ 0

-- A semaphore is had only while its count is not 0.
abbrev pub IsGranted : WriteCall → UsbSkel → Type 0
IsGranted call dev = call.gets_sem ≡ true → 0 < dev.limit_sem

-- `skel_write` keeps the balance on every path, errors included, if the semaphore is granted only
-- while its count is not 0.
pub skel_write-IsBalanced :
    (call : WriteCall) (dev : UsbSkel)
    → IsGranted call dev
    → IsBalanced dev
    → IsBalanced (skel_write call dev).0
unfolding skel_write prepare_write submit_write
skel_write-IsBalanced call dev granted b = ground arith

-- A call of `skel_write` for some bytes, where `usb_submit_urb` returns 0 or an error, puts one more
-- URB in flight if it does not return an error, and none if it does; what it returns then is the
-- number of bytes that fit into one transfer.
skel_write_counts :
    (call : WriteCall) (dev : UsbSkel)
    → call.count ≢ 0
    → (call.submit_rv ≡ pos 0) ⊎ (is_neg call.submit_rv ≡ true)
    → let (dev', rv) = skel_write call dev in
      (dev'.submitted ≡ (if is_neg rv then dev.submitted else dev.submitted + 1))
      × (rv ≡ (if is_neg rv then rv else pos (min call.count max_transfer)))
unfolding skel_write prepare_write submit_write
skel_write_counts call dev wanted submit = ground arith

complete_write-IsBalanced :
    (dev : UsbSkel) (status : ℤ)
    → 0 < dev.submitted
    → IsBalanced dev
    → IsBalanced (complete_write dev status)
unfolding complete_write
complete_write-IsBalanced dev status some_there b = ground arith

complete_write-submitted :
    (dev : UsbSkel) (status : ℤ) → (complete_write dev status).submitted ≡ dev.submitted - 1
unfolding complete_write
complete_write-submitted dev status = refl

complete_writes-submitted :
    (dev : UsbSkel) (ss : List ℤ)
    → length ss ≤ dev.submitted
    → IsBalanced dev
    → IsBalanced (complete_writes dev ss)
      × ((complete_writes dev ss).submitted + length ss ≡ dev.submitted)
unfolding complete_writes
complete_writes-submitted dev [] h b = (b, omega arith)
complete_writes-submitted dev (s ∷ ss) h b =
    let (kept, counted) =
      complete_writes-submitted (complete_write dev s) ss
        (omega (arith, complete_write-submitted dev s))
        (complete_write-IsBalanced dev s (omega arith) b) in
    (kept, omega (arith, complete_write-submitted dev s))

IsBalanced-IsKept : IsKept IsBalanced
unfolding skel_read_bulk_callback skel_do_read_io deliver
IsBalanced-IsKept = record {
  callback = λ dev c b on l. ground arith;
  start = λ dev count rv b. ground arith;
  delivery = λ call r dev b off. ground arith;
  clear = λ dev b. ground arith;
  lock = λ dev held b. ground arith;
}

-- What changes in the life of a device between its calls: a write, the completion of a URB in flight,
-- a read.
pub data Step : UsbSkel → UsbSkel → Type 0 where
  writes :
      {dev : UsbSkel} (call : WriteCall) → IsGranted call dev → Step dev (skel_write call dev).0
  completes :
      {dev : UsbSkel} (status : ℤ) → 0 < dev.submitted → Step dev (complete_write dev status)
  reads :
      {dev : UsbSkel} (call : ReadCall) (rs : List Round)
      → AllLawful rs
      → Step dev (left (skel_read call rs dev))

pub data Reach (dev : UsbSkel) : UsbSkel → Type 0 where
  here : Reach dev dev
  next : {d e : UsbSkel} → Reach dev d → Step d e → Reach dev e

Step-IsBalanced : {d e : UsbSkel} → Step d e → IsBalanced d → IsBalanced e
Step-IsBalanced {d} (writes call granted) b = skel_write-IsBalanced call d granted b
Step-IsBalanced {d} (completes status some_there) b =
    complete_write-IsBalanced d status some_there b
Step-IsBalanced {d} (reads call rs lawful) b =
    skel_read_keeps IsBalanced IsBalanced-IsKept call rs d lawful b

Reach-IsBalanced : {d e : UsbSkel} → IsBalanced d → Reach d e → IsBalanced e
Reach-IsBalanced b here = b
Reach-IsBalanced b (next r st) = Step-IsBalanced st (Reach-IsBalanced b r)

-- Whatever writes, completions and reads follow one another on a balanced device, there are never
-- more than 8 writes in flight, the semaphore counts those that may still start, and each write in
-- flight has one buffer.
pub writes_bounded :
    {d e : UsbSkel}
    → IsBalanced d
    → Reach d e
    → (e.submitted ≤ writes_in_flight)
      × (e.limit_sem ≡ writes_in_flight - e.submitted)
      × (e.buffers ≡ e.submitted)
writes_bounded b r = let kept = Reach-IsBalanced b r in omega arith

lock_balance : (dev : UsbSkel) → IsBalanced dev → IsBalanced (record dev { io_mutex = true })
lock_balance dev b = ground arith

complete_writes-ongoing :
    (dev : UsbSkel) (ss : List ℤ) → (complete_writes dev ss).ongoing_read ≡ dev.ongoing_read
unfolding complete_writes complete_write
complete_writes-ongoing dev [] = refl
complete_writes-ongoing dev (s ∷ ss) = complete_writes-ongoing (complete_write dev s) ss

settle-counts :
    (dev : UsbSkel) (o : Option Completion)
    → ((settle dev o).limit_sem ≡ dev.limit_sem)
      × ((settle dev o).submitted ≡ dev.submitted)
      × ((settle dev o).buffers ≡ dev.buffers)
unfolding settle skel_read_bulk_callback
settle-counts dev none = (refl, refl, refl)
settle-counts dev (some c) = ground arith

settle-ends :
    (dev : UsbSkel) (o : Option Completion)
    → (dev.ongoing_read ≡ true → o ≢ none)
    → (settle dev o).ongoing_read ≡ false
unfolding settle skel_read_bulk_callback
settle-ends dev none h = elim (Bool-cases dev.ongoing_read) [
  | inl on ↦ absurd (h on refl)
  | inr off ↦ off
]
settle-ends dev (some c) h = ground arith

-- `skel_flush` on a balanced device, with every URB in flight completed on the way and the read URB
-- too if it was under way, leaves none in flight, the semaphore at 8, no buffer, no read under way, no
-- error on record and the mutex free.
skel_flush_drains :
    (dev : UsbSkel) (e : Drained)
    → IsBalanced dev
    → length e.writes ≡ dev.submitted
    → (dev.ongoing_read ≡ true → e.read ≢ none)
    → let quiet = (skel_flush dev e).0 in
      (quiet.submitted ≡ 0)
      × (quiet.limit_sem ≡ writes_in_flight)
      × (quiet.buffers ≡ 0)
      × (quiet.ongoing_read ≡ false)
      × (quiet.errors ≡ pos 0)
      × (quiet.io_mutex ≡ false)
unfolding skel_flush skel_draw_down
skel_flush_drains dev e b all read =
    let locked : UsbSkel = record dev { io_mutex = true } in
    let (kept, counted) =
      complete_writes-submitted locked e.writes (omega arith) (lock_balance dev b) in
    let same : (complete_writes locked e.writes).ongoing_read ≡ dev.ongoing_read =
      complete_writes-ongoing locked e.writes in
    let (sem, subs, bufs) = settle-counts (complete_writes locked e.writes) e.read in
    (
      omega (arith, subs),
      omega (arith, sem),
      omega (arith, bufs),
      settle-ends (complete_writes locked e.writes) e.read (λ on. read (sym same ∙ on)),
      refl,
      refl,
    )
