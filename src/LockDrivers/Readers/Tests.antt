-- ===== src/LockDrivers/Readers/Tests.antt =====
-- The theorems on readers and writers, at concrete locks and interleavings.
use linux_kernel_development.Prelude.{
  if◌then◌else◌, ℕ, suc, ◌%◌, ◌≡◌, refl, ap, ◌≢◌, true, false, Bool, not, ◌==◌, Option, none, some,
  arith, ℕ_discrete,
}
use linux_kernel_development.LockDrivers.Guarded.{
  Lock, Pc, goes_on, locks, loads, stores, prints, unlocks, long_mod, update, Threads, Step, picks,
}
use linux_kernel_development.LockDrivers.Exclusion.{critical}
use linux_kernel_development.LockDrivers.Readers.Seq.{
  SeqLock, ReaderPc, ThreadFunction2, System, SystemReach, SystemStep,
}
use linux_kernel_development.LockDrivers.Readers.Consistent.{passing_reader-reads_count}
use linux_kernel_development.LockDrivers.Readers.Rw.{RwLock, RwReaderPc, RwSystem, RwStep, RwReach}
use linux_kernel_development.LockDrivers.Readers.Rw
use linux_kernel_development.LockDrivers.Readers.Separate.{printing_reader-reads_count}

-- A sequence lock that is its count and its writer.
record Counted : Type 0 where
  count : ℕ
  writer : Option ℕ

abbrev write_at : ℕ → Option ℕ → ℕ → Option Counted
write_at n none i = some (record { count = suc n; writer = some i })
write_at n (some j) i = none

abbrev begin_write : Counted → ℕ → Option Counted
begin_write l i = write_at l.count l.writer i

abbrev read_at : ℕ → Option ℕ → Option ℕ
read_at n none = some n
read_at n (some j) = none

abbrev begin_read : Counted → Option ℕ
begin_read l = read_at l.count l.writer

begin_write_lem :
    (l l' : Counted) (i : ℕ)
    → begin_write l i ≡ some l'
    → (l.writer ≡ none) × (l'.writer ≡ some i) × (l'.count ≡ suc l.count)
begin_write_lem l l' i e = ground arith

begin_read_lem : (l : Counted) (n : ℕ) → begin_read l ≡ some n → (l.count ≡ n) × (l.writer ≡ none)
begin_read_lem l n e = ground arith

passes_same_count : (l : Counted) (n : ℕ) → not (l.count == n) ≡ false → l.count ≡ n
passes_same_count l n e = ground arith

abbrev counting_lock : Lock
counting_lock = record {
  State = Counted;
  free = record { count = 0; writer = none };
  acquire = begin_write;
  release = λ l i. record { count = suc l.count; writer = none };
  holder = λ l. l.writer;
  holder_free = refl;
  held_by_none = λ l l' i e. (begin_write_lem l l' i e).0;
  held_by_taker = λ l l' i e. (begin_write_lem l l' i e).1;
  release_frees = λ l i h. refl;
}

abbrev counting_seqlock : SeqLock
counting_seqlock = record {
  lock = counting_lock;
  count = λ l. l.count;
  read_seqbegin = begin_read;
  read_seqretry = λ l n. not (l.count == n);
  counts_lock = λ l l' i e. (begin_write_lem l l' i e).2;
  counts_unlock = λ l i h. refl;
  begins_free = begin_read_lem;
  passes_same = passes_same_count;
}

by_writer :
    {t t' : Threads counting_lock} {r : ℕ → ReaderPc}
    → SystemReach counting_seqlock (record { writers = t; readers = r })
    → Step counting_lock t t'
    → SystemReach counting_seqlock (record { writers = t'; readers = r })
by_writer r st = SystemReach.later r (SystemStep.writes st)

-- Writer 1 has added one and unlocked, and then reader 2 has begun and read.
abbrev one_added : Threads counting_lock
one_added = record {
  mem = record { state = record { count = 2; writer = none }; test_global_variable = 1 };
  pc =
      update
        (update
          (update (update (update (update (λ _. Pc.top) 1 Pc.entering) 1 Pc.inside) 1 (Pc.loaded 0))
            1 Pc.written)
          1 Pc.shown)
        1 Pc.asleep;
  added = 1;
}

abbrev reader_has_read : System counting_seqlock
reader_has_read = record {
  writers = one_added;
  readers =
      update (update (update (λ _. ReaderPc.top) 2 ReaderPc.trying) 2 (ReaderPc.began 2)) 2
        (ReaderPc.has_read 2 1);
}

one_added-reached :
    SystemReach counting_seqlock (record { writers = one_added; readers = λ _. ReaderPc.top })
unfolding ℕ_discrete
one_added-reached =
    by_writer
      (by_writer
        (by_writer
          (by_writer
            (by_writer (by_writer SystemReach.start (picks 1 goes_on)) (picks 1 (locks refl)))
            (picks 1 loads))
          (picks 1 stores))
        (picks 1 prints))
      (picks 1 unlocks)

reader_has_read-reached : SystemReach counting_seqlock reader_has_read
unfolding ℕ_discrete
reader_has_read-reached =
    SystemReach.later
      (SystemReach.later
        (SystemReach.later one_added-reached (SystemStep.reads 2 ThreadFunction2.goes_on))
        (SystemStep.reads 2 (ThreadFunction2.begins refl)))
      (SystemStep.reads 2 ThreadFunction2.reads)

passing_reader-reads_count_example :
    (◌≡◌ {A = ℕ} 1 (1 % long_mod)) × ((i : ℕ) → critical (one_added.pc i) ≡ false)
unfolding ℕ_discrete
passing_reader-reads_count_example =
    passing_reader-reads_count counting_seqlock {s = reader_has_read} reader_has_read-reached 2 2 1
      refl refl

-- A read-write lock that remembers its writer or its one reader.
data Owner : Type 0 where
  nobody : Owner
  writer reader : ℕ → Owner

abbrev write_lock : Owner → ℕ → Option Owner
write_lock nobody i = some (Owner.writer i)
write_lock _ i = none

abbrev read_lock : Owner → ℕ → Option Owner
read_lock nobody j = some (reader j)
read_lock _ j = none

abbrev writer_of : Owner → Option ℕ
writer_of (Owner.writer i) = some i
writer_of _ = none

abbrev is_reader : Owner → ℕ → Bool
is_reader (reader j) k = j == k
is_reader _ k = false

abbrev read_unlock : Owner → ℕ → Owner
read_unlock (reader j) k = if j == k then nobody else reader j
read_unlock l k = l

write_lock_lem :
    (l l' : Owner) (i : ℕ) → write_lock l i ≡ some l' → (l ≡ nobody) × (l' ≡ Owner.writer i)
write_lock_lem l l' i e = ground arith

read_lock_lem : (l l' : Owner) (j : ℕ) → read_lock l j ≡ some l' → (l ≡ nobody) × (l' ≡ reader j)
read_lock_lem l l' j e = ground arith

read_unlock_lem :
    (l : Owner) (j : ℕ)
    → (writer_of (read_unlock l j) ≡ writer_of l)
      × ((k : ℕ) → j ≢ k → is_reader (read_unlock l j) k ≡ is_reader l k)
read_unlock_lem nobody j = (refl, λ k ne. refl)
read_unlock_lem (Owner.writer i) j = (refl, λ k ne. refl)
read_unlock_lem (reader i) j = (ground arith, λ k ne. ground arith)

is_reader-write_lock :
    (l l' : Owner) (i : ℕ) → write_lock l i ≡ some l' → (j : ℕ) → is_reader l j ≡ false
is_reader-write_lock l l' i e j = rw ((write_lock_lem l l' i e).0) refl

writer_of-read_lock :
    (l l' : Owner) (j : ℕ) → read_lock l j ≡ some l' → (writer_of l ≡ none) × (writer_of l' ≡ none)
writer_of-read_lock l l' j e = let r = read_lock_lem l l' j e in rw (r.0, r.1) (refl, refl)

is_reader-read_lock : (l l' : Owner) (j : ℕ) → read_lock l j ≡ some l' → is_reader l' j ≡ true
is_reader-read_lock l l' j e = let r = read_lock_lem l l' j e in rw r.1 (ground arith)

other_reader-read_lock :
    (l l' : Owner) (j k : ℕ) → read_lock l j ≡ some l' → j ≢ k → is_reader l' k ≡ is_reader l k
other_reader-read_lock l l' j k e ne =
    let r = read_lock_lem l l' j e in rw (r.0, r.1) (ground arith)

abbrev owned_lock : Lock
owned_lock = record {
  State = Owner;
  free = nobody;
  acquire = write_lock;
  release = λ l i. nobody;
  holder = writer_of;
  holder_free = refl;
  held_by_none = λ l l' i e. ap writer_of (write_lock_lem l l' i e).0;
  held_by_taker = λ l l' i e. ap writer_of (write_lock_lem l l' i e).1;
  release_frees = λ l i h. refl;
}

abbrev owned_rwlock : RwLock
owned_rwlock = record {
  lock = owned_lock;
  read_lock = read_lock;
  read_unlock = read_unlock;
  reads = is_reader;
  writer_alone = is_reader-write_lock;
  reader_without_writer = writer_of-read_lock;
  reader_holds = is_reader-read_lock;
  other_readers_stay = other_reader-read_lock;
  unlock_keeps_holder = λ l j. (read_unlock_lem l j).0;
  unlock_keeps_readers = λ l j k. (read_unlock_lem l j).1 k;
}

-- Reader 2 has locked and loaded.
abbrev reader_prints : RwSystem owned_rwlock
reader_prints = record {
  writers = record {
    mem = record { state = reader 2; test_global_variable = 0 };
    pc = λ _. Pc.top;
    added = 0;
  };
  readers =
      update (update (update (λ _. RwReaderPc.top) 2 RwReaderPc.entering) 2 RwReaderPc.reading) 2
        (RwReaderPc.printing 0);
}

reader_prints-reached : RwReach owned_rwlock reader_prints
unfolding ℕ_discrete
reader_prints-reached =
    RwReach.later
      (RwReach.later (RwReach.later RwReach.start (RwStep.reads 2 Rw.ThreadFunction2.goes_on))
        (RwStep.reads 2 (Rw.ThreadFunction2.locks_read refl)))
      (RwStep.reads 2 Rw.ThreadFunction2.loads_read)

printing_reader-reads_count_example :
    (◌≡◌ {A = ℕ} 0 (0 % long_mod)) × ((i : ℕ) → critical (reader_prints.writers.pc i) ≡ false)
unfolding ℕ_discrete
printing_reader-reads_count_example =
    printing_reader-reads_count owned_rwlock {s = reader_prints} reader_prints-reached 2 0 refl
