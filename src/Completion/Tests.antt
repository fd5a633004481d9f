-- ===== src/Completion/Tests.antt =====
-- The theorems on Completion/comp1.c at concrete inputs, and runs of its definitions.
use linux_kernel_development.Prelude.{◌≡◌, refl, some, true, false, pos, arith}
use linux_kernel_development.Kernel.Ledger.{cdev, outstanding}
use linux_kernel_development.LockDrivers.Setup.{started, null_pointer}
use linux_kernel_development.Completion.{
  Comp, waiting, counting, returned, test_read, test_write, wait_function, Answers,
  test_driver_init, test_driver_exit,
}
use linux_kernel_development.Completion.Unload.{comp, run, Rests, unload-Rests}

-- The thread has been woken by a read and has tested the flag.
abbrev tested : Comp
tested = comp 1 7 0 counting

-- Two steps after a read, the thread is there.
tested_reached : run 2 (test_read (comp 0 6 0 waiting)).0 ≡ tested
unfolding test_read wait_function
tested_reached = refl

unload-Rests_example : Rests (run 4 (test_driver_exit tested).0) waiting
unload-Rests_example = unload-Rests tested 4 (omega arith) (omega arith)

unload_asleep : Rests (run 4 (test_driver_exit (comp 0 6 0 waiting)).0) returned
unload_asleep = unload-Rests (comp 0 6 0 waiting) 4 (omega arith) (omega arith)

abbrev class_refused : Answers
class_refused = record {
  setup = record { region_ok = true; cdev_ok = true; class_ok = false; device_ok = true };
  thread_answer = started;
}

-- A failed `class_create` leaves the character device added.
class_leaks : outstanding cdev 0 (test_driver_init class_refused).log ≡ some 1
unfolding test_driver_init outstanding
class_leaks = refl

-- A thread that is not created does not fail the init.
no_thread_loads :
    (test_driver_init (record {
      setup = record { region_ok = true; cdev_ok = true; class_ok = true; device_ok = true };
      thread_answer = null_pointer;
    })).rv
    ≡ pos 0
unfolding test_driver_init
no_thread_loads = refl

counts_all : test_write 5 ≡ pos 5
unfolding test_write
counts_all = refl
