-- ===== src/Completion.antt =====
-- Completion/comp1.c: a thread that a completion wakes, from the device's reads and from the unload.
use linux_kernel_development.Prelude.{
  ℕ, zero, suc, ◌+◌, ◌-◌, ◌==◌, Bool, true, false, not, Option, none, some, if◌then◌else◌, ℤ, pos,
  negsuc, [], ◌∷◌, ◌++◌,
}
use linux_kernel_development.Kernel.Ledger.{
  taken, given, Events, region, cdev, dev_class, device, thread1,
}
use linux_kernel_development.Kernel.CharSetup.{Loaded, CharAnswers, char_setup}
use linux_kernel_development.LockDrivers.Setup.{ThreadAnswer, is_null, thread_events}
pub mod Unload
mod Tests

-- Where `wait_function` is: at the wait, behind it, behind the test of the flag, or returned.
pub data Pc : Type 0 where
  waiting woken counting returned : Pc

-- The variables at file scope and the thread. `done` is the count that the kernel keeps in a
-- completion. `read_count` is an int without overflow.
pub record Comp : Type 0 where
  pub completion_flag : ℕ
  pub done : ℕ
  pub read_count : ℕ
  pub pc : Pc

-- `completion_done` is the test whether the count is not 0, and `complete` raises the count.
abbrev pub complete_once : Comp → Comp
complete_once s = if s.done == 0 then record s { done = s.done + 1 } else s

unfoldable pub test_read : Comp → Comp × ℤ
test_read s = (complete_once (record s { completion_flag = 1 }), pos 0)

unfoldable pub test_open : ℤ
test_open = pos 0

unfoldable pub test_release : ℤ
test_release = pos 0

unfoldable pub test_write : ℕ → ℤ
test_write len = pos len

-- A step of the thread; `none` while the wait sleeps, and when the thread has returned.
unfoldable pub wait_function : Comp → Option Comp
wait_function s = elim s.pc [
  | waiting ↦ (if s.done == 0 then none else some (record s { done = s.done - 1; pc = woken }))
  | woken ↦
      (if s.completion_flag == 2
        then some (record s { pc = returned })
        else some (record s { read_count = s.read_count + 1; pc = counting }))
  | counting ↦ some (record s { completion_flag = 0; pc = waiting })
  | returned ↦ none
]

-- The answers of the kernel to the calls of the init function.
pub record Answers : Type 0 where
  pub setup : CharAnswers
  pub thread_answer : ThreadAnswer

abbrev r_class : Events
r_class = given region ∷ []

-- A thread that is not created is only reported.
unfoldable pub test_driver_init : Answers → Loaded
unfolding char_setup
test_driver_init a =
    char_setup a.setup r_class
      (λ log. record { log = log ++ thread_events thread1 a.thread_answer; rv = pos 0 })

-- What `test_driver_exit` does first to the flag and the completion.
unfoldable pub exit_signal : Comp → Comp
exit_signal s = complete_once (record s { completion_flag = 2 })

-- What it then gives back.
unfoldable pub test_driver_exit : Comp → Comp × Events
unfolding exit_signal
test_driver_exit s =
    (exit_signal s, given device ∷ given dev_class ∷ given cdev ∷ given region ∷ [])
