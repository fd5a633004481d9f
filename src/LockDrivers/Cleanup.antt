-- ===== src/LockDrivers/Cleanup.antt =====
-- What the drivers with two threads leave taken after a failed setup and after an unload.
use linux_kernel_development.Prelude.{
  true, false, none, some, [], ◌∷◌, ◌++◌, pos, negsuc, ◌≡◌, ◌≢◌, refl, arith, ◌⊎◌, inl, inr,
}
use linux_kernel_development.Kernel.Ledger.{
  taken, Events, region, cdev, dev_class, device, thread1, thread2, outstanding, Settled, leaves,
  nothing, outstanding_of_leaves,
}
use linux_kernel_development.LockDrivers.Setup.{
  started, error_pointer, null_pointer, Answers, is_null, create_threads, init_with_threads,
  r_class, r_device, exit_with_threads, thread_events,
}
use linux_kernel_development.LockDrivers.Drivers.{Driver, mutex, driver_init, driver_exit}

-- The setups are one function, and the teardowns one list.
driver_init-eq : (d : Driver) (a : Answers) → driver_init d a ≡ init_with_threads a
unfolding driver_init
driver_init-eq mutex a = refl
driver_init-eq _ a = refl

driver_exit-eq : (d : Driver) → driver_exit d ≡ exit_with_threads
unfolding driver_exit
driver_exit-eq mutex = refl
driver_exit-eq _ = refl

abbrev registered : Events
registered = taken region ∷ taken cdev ∷ taken dev_class ∷ taken device ∷ []

module _ (a : Answers) where
  loaded_log :
      (init_with_threads a).rv ≡ pos 0
      → a.thread1_answer ≡ started
      → a.thread2_answer ≡ started
      → (init_with_threads a).log ≡ registered ++ taken thread1 ∷ taken thread2 ∷ []
  unfolding init_with_threads create_threads
  loaded_log done s1 s2 = ground arith

  failed_log :
      a.cdev_ok ≡ true
      → is_null a.thread1_answer ≡ false
      → is_null a.thread2_answer ≡ false
      → (init_with_threads a).rv ≢ pos 0
      → ((init_with_threads a).log ≡ [])
        ⊎ ((init_with_threads a).log ≡ taken region ∷ taken cdev ∷ r_class)
        ⊎ ((init_with_threads a).log ≡ taken region ∷ taken cdev ∷ taken dev_class ∷ r_device)
  unfolding init_with_threads create_threads
  failed_log added s1 s2 failed = ground arith

Settled-of_leaves : (es : Events) → leaves nothing es ≡ true → Settled es
Settled-of_leaves es h = outstanding_of_leaves nothing es h

module _ (d : Driver) (a : Answers) where
  -- Each of the six drivers that loads and starts both its threads has given back, once, all that it
  -- took, when it is unloaded.
  load_unload-Settled :
      (driver_init d a).rv ≡ pos 0
      → a.thread1_answer ≡ started
      → a.thread2_answer ≡ started
      → Settled ((driver_init d a).log ++ driver_exit d)
  unfolding leaves
  load_unload-Settled done s1 s2 =
      rw (driver_init-eq d a, driver_exit-eq d)
        (rw (loaded_log a (rw driver_init-eq at done) s1 s2) (
          Settled-of_leaves
            (registered ++ (taken thread1 ∷ taken thread2 ∷ []) ++ exit_with_threads) refl))

  -- If `cdev_add` succeeds and no thread comes back as NULL, a setup that fails has given back, once,
  -- all that it took.
  failed_init-Settled :
      (driver_init d a).rv ≢ pos 0
      → a.cdev_ok ≡ true
      → is_null a.thread1_answer ≡ false
      → is_null a.thread2_answer ≡ false
      → Settled (driver_init d a).log
  unfolding leaves
  failed_init-Settled failed added s1 s2 =
      rw driver_init-eq (elim (failed_log a added s1 s2 (rw driver_init-eq at failed)) [
        | inl e ↦ rw e (Settled-of_leaves [] refl)
        | inr (inl e) ↦ rw e (Settled-of_leaves (taken region ∷ taken cdev ∷ r_class) refl)
        | inr (inr e) ↦
            rw e (Settled-of_leaves (taken region ∷ taken cdev ∷ taken dev_class ∷ r_device) refl)
      ])

  -- If `cdev_add` fails, the setup returns -1 after deleting a character device that was never added.
  failed_cdev_deletes :
      a.region_ok ≡ true
      → a.cdev_ok ≡ false
      → ((driver_init d a).rv ≡ negsuc 0) × (outstanding cdev 0 (driver_init d a).log ≡ none)
  unfolding init_with_threads outstanding
  failed_cdev_deletes got missed = rw driver_init-eq (ground arith)

  -- If a thread comes back as NULL, the setup returns -1 and leaves the device node behind, and the
  -- first thread running if it was started.
  failed_thread_leaks :
      a.region_ok ≡ true
      → a.cdev_ok ≡ true
      → a.class_ok ≡ true
      → a.device_ok ≡ true
      → (a.thread1_answer ≡ null_pointer) ⊎ (a.thread2_answer ≡ null_pointer)
      → ((driver_init d a).rv ≡ negsuc 0)
        × (outstanding device 0 (driver_init d a).log ≡ some 1)
        × (outstanding thread1 0 (driver_init d a).log
            ≡ outstanding thread1 0 (thread_events thread1 a.thread1_answer))
  unfolding init_with_threads create_threads outstanding
  failed_thread_leaks p q s t none_there = rw driver_init-eq (ground arith)

  -- If the first thread comes back as an error pointer, the setup returns 0 all the same if it gets
  -- so far, and the unload stops a thread that there never was.
  error_pointer_is_stopped :
      (driver_init d a).rv ≡ pos 0
      → a.thread1_answer ≡ error_pointer
      → outstanding thread1 0 ((driver_init d a).log ++ driver_exit d) ≡ none
  unfolding init_with_threads create_threads outstanding
  error_pointer_is_stopped done e =
      rw (driver_init-eq d a, driver_exit-eq d) (stopped (rw driver_init-eq at done))
    where
      stopped :
          (init_with_threads a).rv ≡ pos 0
          → outstanding thread1 0 ((init_with_threads a).log ++ exit_with_threads) ≡ none
      stopped done = ground arith
