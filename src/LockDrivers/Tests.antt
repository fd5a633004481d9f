-- ===== src/LockDrivers/Tests.antt =====
-- The theorems about the drivers with two threads, at concrete answers and interleavings.
use linux_kernel_development.Prelude.{
  ℕ, ◌∷◌, ◌*◌, ◌%◌, ◌≡◌, refl, true, Option, none, some, [], arith, ℕ_discrete,
}
use linux_kernel_development.LockDrivers.Setup.{Answers, started}
use linux_kernel_development.LockDrivers.Guarded.{
  Lock, Pc, top, inside, goes_on, locks, loads, stores, long_mod, update, Threads, picks, Reach,
  start, later,
}
use linux_kernel_development.LockDrivers.Counting.{
  Counters, CountReach, CountStep, CountFunction, Place, counting, changing, counts, changes_bit,
  int_mod, InTurn, counters-Alternate, atomic_inc, bit, test_and_change_bit,
}
use linux_kernel_development.LockDrivers.Exclusion.{mutual_exclusion, no_lost_increment}

abbrev all_well : Answers
all_well = record {
  region_ok = true;
  cdev_ok = true;
  class_ok = true;
  device_ok = true;
  thread1_answer = started;
  thread2_answer = started;
}

-- A lock that remembers its holder.
abbrev acquire_owner : Option ℕ → ℕ → Option (Option ℕ)
acquire_owner none i = some (some i)
acquire_owner (some j) i = none

acquire_owner-free :
    (l l' : Option ℕ) (i : ℕ) → acquire_owner l i ≡ some l' → (l ≡ none) × (l' ≡ some i)
acquire_owner-free l l' i e = ground arith

abbrev owner_lock : Lock
owner_lock = record {
  State = Option ℕ;
  free = none;
  acquire = acquire_owner;
  release = λ l i. none;
  holder = λ l. l;
  holder_free = refl;
  held_by_none = λ l l' i e. (acquire_owner-free l l' i e).0;
  held_by_taker = λ l l' i e. (acquire_owner-free l l' i e).1;
  release_frees = λ l i h. refl;
}

-- Thread 1 has locked, loaded and stored.
abbrev one_added : Threads owner_lock
one_added = record {
  mem = record { state = some 1; test_global_variable = 1 };
  pc =
      update (update (update (update (λ _. top) 1 Pc.entering) 1 inside) 1 (Pc.loaded 0)) 1
        Pc.written;
  added = 1;
}

one_added_reached : Reach owner_lock one_added
unfolding ℕ_discrete
one_added_reached =
    later (later (later (later start (picks 1 goes_on)) (picks 1 (locks refl))) (picks 1 loads))
      (picks 1 stores)

no_lost_increment_example : ◌≡◌ {A = ℕ} 1 (1 % long_mod)
no_lost_increment_example = no_lost_increment owner_lock {s = one_added} one_added_reached

mutual_exclusion_example : ◌≡◌ {A = ℕ} 1 1
unfolding ℕ_discrete
mutual_exclusion_example =
    mutual_exclusion owner_lock {s = one_added} one_added_reached 1 1 refl refl

-- Thread 1 has counted, changed the bit and printed.
abbrev one_counted : Counters
one_counted = record {
  shared = record { test_global_variable = 1; etc_bit_check = 2; changes = 1 };
  place =
      update
        (update (update (update (λ _. Place.top) 1 counting) 1 changing) 1 (Place.printing 0 0)) 1
        Place.asleep;
  counted = 1;
  printed = (0, 0) ∷ [];
}

one_counted-reached : CountReach one_counted
unfolding ℕ_discrete atomic_inc bit test_and_change_bit
one_counted-reached =
    CountReach.later
      (CountReach.later
        (CountReach.later
          (CountReach.later CountReach.start (CountStep.picks 1 CountFunction.goes_on))
          (CountStep.picks 1 counts))
        (CountStep.picks 1 changes_bit))
      (CountStep.picks 1 CountFunction.prints)

counters-Alternate_example :
    (◌≡◌ {A = ℕ} 1 (1 % int_mod)) × InTurn 1 ((0, 0) ∷ []) × (◌≡◌ {A = ℕ} 2 (2 * (1 % 2)))
counters-Alternate_example = counters-Alternate {s = one_counted} one_counted-reached
