-- ===== src/LockDrivers/Readers/Consistent.antt =====
-- What a reader of SeqLock/seqlock1.c finds.
use linux_kernel_development.Prelude.{
  ℕ, ◌≤◌, ◌%◌, ◌≡◌, ◌∙◌, refl, none, false, true, arith, Bool, Bool-cases, inl, inr,
}
use linux_kernel_development.LockDrivers.Guarded.{
  Mem, Pc, ThreadFunction, picks, long_mod, locks, unlocks, stores, loaded_module, update-all,
  Reach,
}
use linux_kernel_development.LockDrivers.Exclusion.{Inv, Step-Inv, Reach-Inv, critical}
use linux_kernel_development.LockDrivers.Readers.Seq.{
  SeqLock, ReaderPc, began, has_read, top, ThreadFunction2, stops, goes_on, begins, retries, passes,
  prints, wakes, System, SystemStep, writes, SystemReach, start, later,
}

module _ (seq : SeqLock) where
  open seq use {lock, count, read_seqretry}
  open lock use {holder}

  -- While no writer has come since the reader began, none is there, and what it has read is the
  -- variable.
  record Fresh (m : Mem lock) (p : ReaderPc) : Type 0 where
    past : (n : ℕ) → p ≡ began n → n ≤ count m.state
    unwritten : (n : ℕ) → p ≡ began n → count m.state ≡ n → holder m.state ≡ none
    past_read : (n v : ℕ) → p ≡ has_read n v → n ≤ count m.state
    unwritten_read : (n v : ℕ) → p ≡ has_read n v → count m.state ≡ n → holder m.state ≡ none
    read_now : (n v : ℕ) → p ≡ has_read n v → count m.state ≡ n → v ≡ m.test_global_variable

  module _ {m : Mem lock} {pc : ℕ → Pc} {added : ℕ} (inv : Inv lock m pc added) (i : ℕ) where
    writer-Fresh :
        {q : Pc} {m' : Mem lock}
        → ThreadFunction lock i m (pc i) m' q
        → (p : ReaderPc) → Fresh m p
        → Fresh m' p
    writer-Fresh mv p f = moved mv refl
      where
        moved :
            {q q' : Pc} {m' : Mem lock} → ThreadFunction lock i m q m' q' → pc i ≡ q → Fresh m' p
        moved (locks {l} e) here = record {
          past = λ n b. omega (arith, f.past n b, seq.counts_lock m.state l i e);
          unwritten = λ n b c. absurd (omega (arith, f.past n b, seq.counts_lock m.state l i e, c));
          past_read = λ n v b. omega (arith, f.past_read n v b, seq.counts_lock m.state l i e);
          unwritten_read = λ n v b c.
              absurd (omega (arith, f.past_read n v b, seq.counts_lock m.state l i e, c));
          read_now = λ n v b c.
              absurd (omega (arith, f.past_read n v b, seq.counts_lock m.state l i e, c));
        }
        moved unlocks here =
            let up = seq.counts_unlock m.state i (inv.owns i (rw here refl)) in
            record {
              past = λ n b. omega (arith, f.past n b, up);
              unwritten = λ n b c. absurd (omega (arith, f.past n b, up, c));
              past_read = λ n v b. omega (arith, f.past_read n v b, up);
              unwritten_read = λ n v b c. absurd (omega (arith, f.past_read n v b, up, c));
              read_now = λ n v b c. absurd (omega (arith, f.past_read n v b, up, c));
            }
        moved (stores {v}) here = record {
          past = f.past;
          unwritten = f.unwritten;
          past_read = f.past_read;
          unwritten_read = f.unwritten_read;
          read_now = λ n w b c. ground (arith, f.unwritten_read n w b c, inv.owns i (rw here refl));
        }
        moved _ here = f

  -- Between `read_seqbegin` and `read_seqretry`.
  trying_it : ReaderPc → Bool
  trying_it (began n) = true
  trying_it (has_read n v) = true
  trying_it _ = false

  idle-Fresh : (m : Mem lock) (p : ReaderPc) → trying_it p ≡ false → Fresh m p
  unfolding trying_it
  idle-Fresh m p idle = record {
    past = λ k b. ground arith;
    unwritten = λ k b c. ground arith;
    past_read = λ k v b. ground arith;
    unwritten_read = λ k v b c. ground arith;
    read_now = λ k v b c. ground arith;
  }

  -- A reader's own step.
  reader-Fresh :
      {m : Mem lock} {p p' : ReaderPc} → ThreadFunction2 seq m p p' → Fresh m p → Fresh m p'
  unfolding trying_it
  reader-Fresh {m} (begins {n} e) f =
      let free = seq.begins_free m.state n e in
      record {
        past = λ k b. ground (arith, free.0);
        unwritten = λ k b c. free.1;
        past_read = λ k v b. cc b;
        unwritten_read = λ k v b c. free.1;
        read_now = λ k v b c. cc b;
      }
  reader-Fresh (ThreadFunction2.reads {n}) f = record {
    past = λ k b. cc b;
    unwritten = λ k b c. cc b;
    past_read = λ k v b. ground (arith, f.past n refl);
    unwritten_read = λ k v b c. ground (arith, f.unwritten n refl);
    read_now = λ k v b c. ground arith;
  }
  reader-Fresh {m} {p'} stops f = idle-Fresh m p' refl
  reader-Fresh {m} {p'} goes_on f = idle-Fresh m p' refl
  reader-Fresh {m} {p'} (retries e) f = idle-Fresh m p' refl
  reader-Fresh {m} {p'} (passes e) f = idle-Fresh m p' refl
  reader-Fresh {m} {p'} prints f = idle-Fresh m p' refl
  reader-Fresh {m} {p'} wakes f = idle-Fresh m p' refl

  record Readable (s : System seq) : Type 0 where
    of_writers : Inv lock s.writers.mem s.writers.pc s.writers.added
    of_readers : (j : ℕ) → Fresh s.writers.mem (s.readers j)

  SystemReach-Readable : {s : System seq} → SystemReach seq s → Readable s
  unfolding trying_it
  SystemReach-Readable start = record {
    of_writers = Reach-Inv lock Reach.start;
    of_readers = λ j. idle-Fresh (loaded_module lock).mem top refl;
  }
  SystemReach-Readable (later {s} r (writes (picks i mv))) =
      let old = SystemReach-Readable r in
      record {
        of_writers = Step-Inv lock (picks i mv) old.of_writers;
        of_readers = λ j. writer-Fresh old.of_writers i mv (s.readers j) (old.of_readers j);
      }
  SystemReach-Readable (later {s} r (SystemStep.reads j {p} mv)) =
      let old = SystemReach-Readable r in
      record {
        of_writers = old.of_writers;
        of_readers =
            update-all (Fresh s.writers.mem) j (reader-Fresh mv (old.of_readers j)) old.of_readers;
      }

  -- However writers and readers are interleaved, and however many there are, a reader that
  -- `read_seqretry` lets pass has read the number of the increments completed at that moment, modulo
  -- 2^64, and no writer is between locking and unlocking then.
  pub passing_reader-reads_count :
      {s : System seq}
      → SystemReach seq s
      → (j n v : ℕ) → s.readers j ≡ has_read n v
      → read_seqretry s.writers.mem.state n ≡ false
      → (v ≡ s.writers.added % long_mod) × ((i : ℕ) → critical (s.writers.pc i) ≡ false)
  passing_reader-reads_count {s} r j n v at_test passed =
      let ok : Readable s = SystemReach-Readable r in
      let mine = ok.of_readers j in
      let same = seq.passes_same s.writers.mem.state n passed in
      (
        mine.read_now n v at_test same ∙ ok.of_writers.counted,
        λ i. elim (Bool-cases (critical (s.writers.pc i))) [
          | inl c ↦ cc (mine.unwritten_read n v at_test same, ok.of_writers.owns i c)
          | inr c ↦ c
        ],
      )
