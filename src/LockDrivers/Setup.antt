-- ===== src/LockDrivers/Setup.antt =====
-- The setup and teardown that the drivers with two threads share, as the events of a ledger.
use linux_kernel_development.Prelude.{
  Bool, true, false, not, [], ◌∷◌, ◌++◌, pos, negsuc, if◌then◌else◌,
}
use linux_kernel_development.Kernel.CharSetup.{Loaded, fail}
use linux_kernel_development.Kernel.Ledger.{
  taken, given, Events, Resource, region, cdev, dev_class, device, thread1, thread2,
}

-- What `kthread_run` returns: a thread, an error pointer (which is not NULL), or NULL.
pub data ThreadAnswer : Type 0 where
  started error_pointer null_pointer : ThreadAnswer

-- What the kernel answers to the calls of an init function.
pub record Answers : Type 0 where
  pub region_ok : Bool
  pub cdev_ok : Bool
  pub class_ok : Bool
  pub device_ok : Bool
  pub thread1_answer : ThreadAnswer
  pub thread2_answer : ThreadAnswer

-- `if(test_thread1)`
abbrev pub is_null : ThreadAnswer → Bool
is_null null_pointer = true
is_null answer = false

-- Only a thread that was started is there to be stopped.
abbrev pub thread_events : Resource → ThreadAnswer → Events
thread_events t started = taken t ∷ []
thread_events t answer = []

-- The labels `r_class:` and `r_device:`.
abbrev pub r_class : Events
r_class = given region ∷ given cdev ∷ []

abbrev pub r_device : Events
r_device = given dev_class ∷ r_class

-- The two calls of `kthread_run`.
unfoldable pub create_threads : Answers → Events → Loaded
create_threads a log =
    let log1 = log ++ thread_events thread1 a.thread1_answer in
    let log2 = log1 ++ thread_events thread2 a.thread2_answer in
    if is_null a.thread1_answer
    then fail log r_device
    else (if is_null a.thread2_answer
        then fail log1 r_device
        else record { log = log2; rv = pos 0 })

-- The registration of the device, then the threads.
unfoldable pub init_with_threads : Answers → Loaded
init_with_threads a =
    if not a.region_ok
    then record { log = []; rv = negsuc 0 }
    else (if not a.cdev_ok
        then fail (taken region ∷ []) r_class
        else (if not a.class_ok
            then fail (taken region ∷ taken cdev ∷ []) r_class
            else (if not a.device_ok
                then fail (taken region ∷ taken cdev ∷ taken dev_class ∷ []) r_device
                else create_threads a
                    (taken region ∷ taken cdev ∷ taken dev_class ∷ taken device ∷ []))))

abbrev pub exit_with_threads : Events
exit_with_threads =
    given thread1 ∷ given thread2 ∷ given device ∷ given dev_class ∷ given cdev ∷ given region ∷ []
