-- ===== src/LockDrivers/Readers/Rw.antt =====
-- The threads of Spinlock/spin2.c: writers take a read-write lock for writing, add one to
-- `test_global_variable` and unlock, and readers take it for reading and print the variable. The
-- lock is the kernel's. The writers are those of Guarded, whose step `prints` is empty here.
use linux_kernel_development.Prelude.{ℕ, ◌≡◌, ◌≢◌, Option, none, some, Bool, true, false}
use linux_kernel_development.LockDrivers.Guarded.{
  Lock, Pc, Mem, ThreadFunction, update, Threads, loaded_module, Step,
}

-- A read-write lock: `lock` is what its writers do, and `reads l j` tells whether reader `j` holds it.
-- Readers and writers keep one another out, readers do not.
pub record RwLock : Type 1 where
  pub lock : Lock
  pub read_lock : lock.State → ℕ → Option lock.State
  pub read_unlock : lock.State → ℕ → lock.State
  pub reads : lock.State → ℕ → Bool
  pub writer_alone :
      (l l' : lock.State) (i : ℕ) → lock.acquire l i ≡ some l' → (j : ℕ) → reads l j ≡ false
  pub reader_without_writer :
      (l l' : lock.State) (j : ℕ)
      → read_lock l j ≡ some l'
      → (lock.holder l ≡ none) × (lock.holder l' ≡ none)
  pub reader_holds : (l l' : lock.State) (j : ℕ) → read_lock l j ≡ some l' → reads l' j ≡ true
  pub other_readers_stay :
      (l l' : lock.State) (j k : ℕ) → read_lock l j ≡ some l' → j ≢ k → reads l' k ≡ reads l k
  pub unlock_keeps_holder : (l : lock.State) (j : ℕ) → lock.holder (read_unlock l j) ≡ lock.holder l
  pub unlock_keeps_readers :
      (l : lock.State) (j k : ℕ) → j ≢ k → reads (read_unlock l j) k ≡ reads l k

-- Where a reader stands, with the value that it has loaded to print.
pub data RwReaderPc : Type 0 where
  top entering reading leaving asleep returned : RwReaderPc
  printing : ℕ → RwReaderPc

module _ (rw_lock : RwLock) where
  open rw_lock use {lock, read_lock, read_unlock}

  -- The writer's loop, by thread `i`.
  abbrev pub ThreadFunction1 : ℕ → Mem lock → Pc → Mem lock → Pc → Type 0
  ThreadFunction1 = ThreadFunction lock

  -- A step of the reader's loop, by reader `j`.
  pub data ThreadFunction2 (j : ℕ) (m : Mem lock)
      : RwReaderPc → Mem lock → RwReaderPc → Type 0 where
    stops : ThreadFunction2 j m top m returned
    goes_on : ThreadFunction2 j m top m entering
    locks_read :
        {l : lock.State}
        → read_lock m.state j ≡ some l
        → ThreadFunction2 j m entering (record m { state = l }) reading
    loads_read : ThreadFunction2 j m reading m (printing m.test_global_variable)
    prints : {v : ℕ} → ThreadFunction2 j m (printing v) m leaving
    unlocks_read : ThreadFunction2 j m leaving (record m { state = read_unlock m.state j }) asleep
    wakes : ThreadFunction2 j m asleep m top

  -- Writers and readers.
  pub record RwSystem : Type 0 where
    pub writers : Threads lock
    pub readers : ℕ → RwReaderPc

  pub data RwStep (s : RwSystem) : RwSystem → Type 0 where
    writes : {t : Threads lock} → Step lock s.writers t → RwStep s (record s { writers = t })
    reads :
        (j : ℕ) {m : Mem lock} {p : RwReaderPc}
        → ThreadFunction2 j s.writers.mem (s.readers j) m p
        → RwStep s
            (record { writers = record s.writers { mem = m }; readers = update s.readers j p })

  pub data RwReach : RwSystem → Type 0 where
    start : RwReach (record { writers = loaded_module lock; readers = λ _. top })
    later : {s t : RwSystem} → RwReach s → RwStep s t → RwReach t
