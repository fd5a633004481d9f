-- ===== src/LockDrivers/Readers/Separate.antt =====
-- Readers and writers of Spinlock/spin2.c keep one another out.
use linux_kernel_development.Prelude.{
  ℕ, ◌%◌, ◌≡◌, ◌∙◌, refl, none, false, true, arith, Bool, Bool-cases, inl, inr,
}
use linux_kernel_development.LockDrivers.Guarded.{
  Mem, Pc, ThreadFunction, picks, long_mod, locks, unlocks, stores, Reach, update,
}
use linux_kernel_development.LockDrivers.Exclusion.{Inv, Step-Inv, Reach-Inv, critical}
use linux_kernel_development.LockDrivers.Readers.Rw.{
  RwLock, RwReaderPc, reading, printing, leaving, ThreadFunction2, locks_read, unlocks_read,
  RwSystem, RwStep, writes, RwReach, start, later,
}

-- Between `read_lock` and `read_unlock`.
abbrev pub reads_now : RwReaderPc → Bool
reads_now reading = true
reads_now (printing v) = true
reads_now leaving = true
reads_now _ = false

module _ (rw_lock : RwLock) where
  open rw_lock use {lock}
  open lock use {holder}

  record Apart (m : Mem lock) (readers : ℕ → RwReaderPc) : Type 0 where
    holds : (j : ℕ) → reads_now (readers j) ≡ true → rw_lock.reads m.state j ≡ true
    no_writer : (j : ℕ) → reads_now (readers j) ≡ true → holder m.state ≡ none
    current : (j v : ℕ) → readers j ≡ printing v → v ≡ m.test_global_variable

  module _ {m : Mem lock} {readers : ℕ → RwReaderPc} (apart : Apart m readers) where
    writer-Apart :
        {pc : ℕ → Pc} {added : ℕ} (i : ℕ) {m' : Mem lock} {q q' : Pc}
        → Inv lock m pc added
        → ThreadFunction lock i m q m' q'
        → pc i ≡ q
        → Apart m' readers
    writer-Apart i inv (locks {l} e) here = record {
      holds = λ j c. absurd (cc (apart.holds j c, rw_lock.writer_alone m.state l i e j));
      no_writer = λ j c. absurd (cc (apart.holds j c, rw_lock.writer_alone m.state l i e j));
      current = apart.current;
    }
    writer-Apart i inv unlocks here =
        let own = inv.owns i (rw here refl) in
        record {
          holds = λ j c. absurd (cc (apart.no_writer j c, own));
          no_writer = λ j c. absurd (cc (apart.no_writer j c, own));
          current = apart.current;
        }
    writer-Apart i inv (stores {v}) here =
        let own = inv.owns i (rw here refl) in
        record {
          holds = apart.holds;
          no_writer = apart.no_writer;
          current = λ j w c. absurd (cc (apart.no_writer j (rw c refl), own));
        }
    writer-Apart i inv _ here = apart

    reader_holds-kept :
        (j : ℕ) {m' : Mem lock} {p p' : RwReaderPc}
        → ThreadFunction2 rw_lock j m p m' p'
        → readers j ≡ p
        → (k : ℕ) → reads_now (update readers j p' k) ≡ true
        → rw_lock.reads m'.state k ≡ true
    reader_holds-kept j (locks_read {l} e) here k c = ground (
      arith,
      apart.holds k,
      rw_lock.reader_holds m.state l j e,
      rw_lock.other_readers_stay m.state l j k e,
    )
    reader_holds-kept j unlocks_read here k c =
        ground (arith, apart.holds k, rw_lock.unlock_keeps_readers m.state j k)
    reader_holds-kept j _ here k c = ground (arith, apart.holds k, apart.holds j)

    no_writer-kept :
        (j : ℕ) {m' : Mem lock} {p p' : RwReaderPc}
        → ThreadFunction2 rw_lock j m p m' p'
        → readers j ≡ p
        → (k : ℕ) → reads_now (update readers j p' k) ≡ true
        → holder m'.state ≡ none
    no_writer-kept j (locks_read {l} e) here k c = (rw_lock.reader_without_writer m.state l j e).1
    no_writer-kept j unlocks_read here k c =
        ground (arith, apart.no_writer k, rw_lock.unlock_keeps_holder m.state j)
    no_writer-kept j _ here k c = ground (arith, apart.no_writer k, apart.no_writer j)

    current-kept :
        (j : ℕ) {m' : Mem lock} {p p' : RwReaderPc}
        → ThreadFunction2 rw_lock j m p m' p'
        → (k v : ℕ) → update readers j p' k ≡ printing v
        → v ≡ m'.test_global_variable
    current-kept j (locks_read {l} e) k v c = ground (arith, apart.current k v)
    current-kept j _ k v c = ground (arith, apart.current k v)

  -- A reader's lock and unlock do not change who writes.
  reader-Inv :
      {m : Mem lock} {j : ℕ} {m' : Mem lock} {pc : ℕ → Pc} {added : ℕ} {p p' : RwReaderPc}
      → ThreadFunction2 rw_lock j m p m' p'
      → Inv lock m pc added
      → Inv lock m' pc added
  reader-Inv {m} {j} (locks_read {l} e) inv = record {
    owns = λ i c. absurd (cc (inv.owns i c, (rw_lock.reader_without_writer m.state l j e).0));
    fresh = inv.fresh;
    counted = inv.counted;
  }
  reader-Inv {m} {j} unlocks_read inv = record {
    owns = λ i c. cc (inv.owns i c, rw_lock.unlock_keeps_holder m.state j);
    fresh = inv.fresh;
    counted = inv.counted;
  }
  reader-Inv _ inv = inv

  record Separated (s : RwSystem rw_lock) : Type 0 where
    of_writers : Inv lock s.writers.mem s.writers.pc s.writers.added
    of_readers : Apart s.writers.mem s.readers

  RwReach-Separated : {s : RwSystem rw_lock} → RwReach rw_lock s → Separated s
  RwReach-Separated start = record {
    of_writers = Reach-Inv lock Reach.start;
    of_readers = record { holds = λ j c. cc c; no_writer = λ j c. cc c; current = λ j v c. cc c };
  }
  RwReach-Separated (later r (writes (picks i mv))) =
      let old = RwReach-Separated r in
      record {
        of_writers = Step-Inv lock (picks i mv) old.of_writers;
        of_readers = writer-Apart old.of_readers i old.of_writers mv refl;
      }
  RwReach-Separated (later r (RwStep.reads j mv)) =
      let old = RwReach-Separated r in
      record {
        of_writers = reader-Inv mv old.of_writers;
        of_readers = record {
          holds = reader_holds-kept old.of_readers j mv refl;
          no_writer = no_writer-kept old.of_readers j mv refl;
          current = current-kept old.of_readers j mv;
        };
      }

  -- However writers and readers are interleaved, and however many there are, a reader prints the
  -- number of the increments completed at that moment, modulo 2^64, and no writer is between locking
  -- and unlocking then.
  pub printing_reader-reads_count :
      {s : RwSystem rw_lock}
      → RwReach rw_lock s
      → (j v : ℕ) → s.readers j ≡ printing v
      → (v ≡ s.writers.added % long_mod) × ((i : ℕ) → critical (s.writers.pc i) ≡ false)
  printing_reader-reads_count {s} r j v at_print =
      let ok : Separated s = RwReach-Separated r in
      (
        ok.of_readers.current j v at_print ∙ ok.of_writers.counted,
        λ i. elim (Bool-cases (critical (s.writers.pc i))) [
          | inl c ↦
              absurd (cc (ok.of_readers.no_writer j (rw at_print refl), ok.of_writers.owns i c))
          | inr c ↦ c
        ],
      )
