-- ===== src/Signals.antt =====
-- Signal/signal1.c, a device that sends a signal to the task that has registered with it, and its user
-- Signal/signal1_userspace/sig1usr.c.
use linux_kernel_development.Prelude.{
  ℕ, ◌==◌, Bool, true, false, Option, none, some, List, [], ◌∷◌, ◌++◌, ℤ, pos, if◌then◌else◌, not,
}
use linux_kernel_development.Kernel.Ledger.{Events, given, taken, region, cdev, dev_class, device}
use linux_kernel_development.Kernel.CharSetup.{Loaded, CharAnswers, char_setup}
pub mod Delivery
mod Tests

-- `SIGTEST`
abbrev pub sigtest : ℕ
sigtest = 44

-- The variables at file scope; `task` is NULL or a task. Tasks are numbers.
pub record SignalDriver : Type 0 where
  pub task : Option ℕ
  pub signum : ℕ

abbrev pub fresh : SignalDriver
fresh = record { task = none; signum = 0 }

unfoldable pub test_open : SignalDriver → SignalDriver × ℤ
test_open d = (d, pos 0)

-- Whether a pointer is that of a task.
abbrev pub is_task : Option ℕ → ℕ → Bool
is_task none t = false
is_task (some s) t = s == t

-- A task that closes the file is forgotten.
unfoldable pub test_release : SignalDriver → ℕ → SignalDriver × ℤ
test_release d current = (if is_task d.task current then record d { task = none } else d, pos 0)

-- Whom the read sends the signal to, and the value returned.
unfoldable pub test_read : SignalDriver → Option ℕ × ℤ
test_read d = (d.task, pos 0)

unfoldable pub test_write : SignalDriver → SignalDriver × ℤ
test_write d = (d, pos 0)

-- `REG_CURRENT_TASK`, or another command.
unfoldable pub test_ioctl : SignalDriver → Bool → ℕ → SignalDriver × ℤ
test_ioctl d is_reg current =
    (if is_reg then record { task = some current; signum = sigtest } else d, pos 0)

-- A call by a task.
pub data Call : Type 0 where
  opens releases reads writes registers other_ioctl : ℕ → Call

-- The device after a call.
unfoldable pub after : SignalDriver → Call → SignalDriver
after d (opens t) = (test_open d).0
after d (releases t) = (test_release d t).0
after d (reads t) = d
after d (writes t) = (test_write d).0
after d (registers t) = (test_ioctl d true t).0
after d (other_ioctl t) = (test_ioctl d false t).0

unfoldable pub after_all : SignalDriver → List Call → SignalDriver
after_all d [] = d
after_all d (c ∷ cs) = after_all (after d c) cs

unfoldable pub test_driver_init : CharAnswers → Loaded
unfolding char_setup
test_driver_init a = char_setup a (given region ∷ []) (λ log. record { log = log; rv = pos 0 })

unfoldable pub test_driver_exit : Events
test_driver_exit = given device ∷ given dev_class ∷ given cdev ∷ given region ∷ []

-- What comes to the user program while it waits: SIGTEST or SIGINT.
pub data Arrival : Type 0 where
  sigtest_comes sigint_comes : Arrival

-- The loop of the program: the arrivals that are left when `done` is set, or `none` while it waits.
unfoldable pub wait_loop : List Arrival → Option (List Arrival)
wait_loop [] = none
wait_loop (sigtest_comes ∷ arrivals) = wait_loop arrivals
wait_loop (sigint_comes ∷ arrivals) = some arrivals

-- The calls of the program, as task `t`, and whether it ends: it opens the device, registers, reads
-- once, waits until SIGINT, and closes.
unfoldable pub main : ℕ → Bool → Bool → List Arrival → List Call × Bool
main t open_ok ioctl_ok arrivals =
    if not open_ok
    then ([], true)
    else (if not ioctl_ok
        then (opens t ∷ registers t ∷ releases t ∷ [], true)
        else elim (wait_loop arrivals) [
          | none ↦ (opens t ∷ registers t ∷ reads t ∷ [], false)
          | some rest ↦ (opens t ∷ registers t ∷ reads t ∷ releases t ∷ [], true)
        ])
