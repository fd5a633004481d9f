-- ===== src/LockDrivers/Readers/Seq.antt =====
-- The threads of SeqLock/seqlock1.c: writers lock, add one to `test_global_variable` and unlock, and
-- readers read it between `read_seqbegin` and `read_seqretry`, until no writer has come in between.
-- The lock is the kernel's. The writers are those of Guarded, whose step `prints` is empty here.
use linux_kernel_development.Prelude.{ℕ, suc, ◌≡◌, Option, none, some, Bool, true, false}
use linux_kernel_development.LockDrivers.Guarded.{
  Lock, Pc, Mem, ThreadFunction, update, Threads, loaded_module, Step,
}

-- A sequence lock: `read_seqbegin l` is what a reader finds, `none` while it has to wait for a writer.
-- The count of a lock changes with every `write_seqlock` and `write_sequnlock`, which are the
-- operations of `lock`, and a retry is not asked for only if the count is still the reader's.
pub record SeqLock : Type 1 where
  pub lock : Lock
  pub count : lock.State → ℕ
  pub read_seqbegin : lock.State → Option ℕ
  pub read_seqretry : lock.State → ℕ → Bool
  pub counts_lock :
      (l l' : lock.State) (i : ℕ) → lock.acquire l i ≡ some l' → count l' ≡ suc (count l)
  pub counts_unlock :
      (l : lock.State) (i : ℕ) → lock.holder l ≡ some i → count (lock.release l i) ≡ suc (count l)
  pub begins_free :
      (l : lock.State) (n : ℕ) → read_seqbegin l ≡ some n → (count l ≡ n) × (lock.holder l ≡ none)
  pub passes_same : (l : lock.State) (n : ℕ) → read_seqretry l n ≡ false → count l ≡ n

-- Where a reader stands, with its `seq_no` and its `read_value`.
pub data ReaderPc : Type 0 where
  top trying asleep returned : ReaderPc
  began : ℕ → ReaderPc
  has_read : ℕ → ℕ → ReaderPc
  passed : ℕ → ReaderPc

module _ (seq : SeqLock) where
  open seq use {lock, read_seqbegin, read_seqretry}

  -- The writer's loop, by thread `i`.
  abbrev pub ThreadFunction1 : ℕ → Mem lock → Pc → Mem lock → Pc → Type 0
  ThreadFunction1 = ThreadFunction lock

  -- A step of the reader's loop.
  pub data ThreadFunction2 (m : Mem lock) : ReaderPc → ReaderPc → Type 0 where
    stops : ThreadFunction2 m top returned
    goes_on : ThreadFunction2 m top trying
    begins : {n : ℕ} → read_seqbegin m.state ≡ some n → ThreadFunction2 m trying (began n)
    reads : {n : ℕ} → ThreadFunction2 m (began n) (has_read n m.test_global_variable)
    retries : {n v : ℕ} → read_seqretry m.state n ≡ true → ThreadFunction2 m (has_read n v) trying
    passes :
        {n v : ℕ} → read_seqretry m.state n ≡ false → ThreadFunction2 m (has_read n v) (passed v)
    prints : {v : ℕ} → ThreadFunction2 m (passed v) asleep
    wakes : ThreadFunction2 m asleep top

  -- Writers and readers.
  pub record System : Type 0 where
    pub writers : Threads lock
    pub readers : ℕ → ReaderPc

  pub data SystemStep (s : System) : System → Type 0 where
    writes : {t : Threads lock} → Step lock s.writers t → SystemStep s (record s { writers = t })
    reads :
        (j : ℕ) {p : ReaderPc}
        → ThreadFunction2 s.writers.mem (s.readers j) p
        → SystemStep s (record s { readers = update s.readers j p })

  pub data SystemReach : System → Type 0 where
    start : SystemReach (record { writers = loaded_module lock; readers = λ _. top })
    later : {s t : System} → SystemReach s → SystemStep s t → SystemReach t
