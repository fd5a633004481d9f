-- ===== src/BlockDevice/Cleanup.antt =====
-- What BlockDriver/blk1.c leaves taken after a failed setup and after an unload.
use linux_kernel_development.Prelude.{true, false, none, ◌++◌, pos, ◌≡◌, ◌≢◌, arith, ◌⊎◌}
use linux_kernel_development.Kernel.Ledger.{
  data_area, outstanding, Settled, leaves, nothing, outstanding_of_leaves,
}
use linux_kernel_development.BlockDevice.Setup.{Answers, setup_device, blk1_init, blk1_exit}

-- What is claimed of a setup, for each of the kernel's answers.
abbrev FailedSettled : Answers → Type 0
FailedSettled a = (blk1_init a).1 ≢ pos 0 → leaves nothing (blk1_init a).0.log ≡ true

abbrev LoadedSettled : Answers → Type 0
LoadedSettled a =
    (blk1_init a).1 ≡ pos 0
    → (a.vmalloc_ok ≡ false) ⊎ ((a.queue_ok ≡ true) × (a.alloc_disk_ok ≡ true))
    → leaves nothing ((blk1_init a).0.log ++ blk1_exit (blk1_init a).0) ≡ true

failed_init-leaves : (a : Answers) → FailedSettled a
unfolding blk1_init setup_device leaves
failed_init-leaves a failed = ground arith

load_unload-leaves : (a : Answers) → LoadedSettled a
unfolding blk1_init setup_device blk1_exit leaves
load_unload-leaves a loaded got = ground arith

module _ (a : Answers) where
  -- A module that fails to load has given back, once, all that it took.
  failed_blk1_init-Settled : (blk1_init a).1 ≢ pos 0 → Settled (blk1_init a).0.log
  failed_blk1_init-Settled failed =
      outstanding_of_leaves nothing (blk1_init a).0.log (failed_init-leaves a failed)

  -- A module that loads with its memory, its queue and its disk, or without its memory, has given
  -- back, once, all that it took when it is unloaded.
  blk1_load_unload-Settled :
      (blk1_init a).1 ≡ pos 0
      → (a.vmalloc_ok ≡ false) ⊎ ((a.queue_ok ≡ true) × (a.alloc_disk_ok ≡ true))
      → Settled ((blk1_init a).0.log ++ blk1_exit (blk1_init a).0)
  blk1_load_unload-Settled loaded got =
      outstanding_of_leaves nothing ((blk1_init a).0.log ++ blk1_exit (blk1_init a).0)
        (load_unload-leaves a loaded got)

  -- A module that gets its memory, but not its queue or its disk, loads all the same, and frees its
  -- memory twice by the time it is unloaded.
  failed_setup_frees_twice :
      (blk1_init a).1 ≡ pos 0
      → a.vmalloc_ok ≡ true
      → (a.queue_ok ≡ false) ⊎ (a.alloc_disk_ok ≡ false)
      → outstanding data_area 0 ((blk1_init a).0.log ++ blk1_exit (blk1_init a).0) ≡ none
  unfolding blk1_init setup_device blk1_exit outstanding
  failed_setup_frees_twice loaded got missed = ground arith
