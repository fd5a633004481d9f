-- ===== src/LockDrivers/Exclusion.antt =====
-- Mutual exclusion and the count of increments, for the threads that a lock guards.
use linux_kernel_development.Prelude.{ℕ, ◌+◌, ◌%◌, ◌≡◌, refl, some, Bool, true, false, arith}
use linux_kernel_development.LockDrivers.Guarded.{
  Lock, Pc, inside, loaded, written, shown, long_mod, update, Mem, ThreadFunction, locks, stores,
  unlocks, adds, Threads, Step, picks, Reach, start, later,
}

-- Between `mutex_lock` and `mutex_unlock`.
abbrev pub critical : Pc → Bool
critical inside = true
critical (loaded v) = true
critical written = true
critical shown = true
critical _ = false

module _ (lock : Lock) where
  open lock use {State, free, acquire, release, holder}

  pub record Inv (m : Mem lock) (pc : ℕ → Pc) (added : ℕ) : Type 0 where
    pub owns : (i : ℕ) → critical (pc i) ≡ true → holder m.state ≡ some i
    pub fresh : (i v : ℕ) → pc i ≡ loaded v → m.test_global_variable ≡ v
    pub counted : m.test_global_variable ≡ added % long_mod

  module _ {m : Mem lock} {pc : ℕ → Pc} {added : ℕ} (inv : Inv m pc added) (i : ℕ) where
    owns_kept :
        {p p' : Pc} {m' : Mem lock}
        → ThreadFunction lock i m p m' p'
        → pc i ≡ p
        → (j : ℕ) → critical (update pc i p' j) ≡ true
        → holder m'.state ≡ some j
    owns_kept (locks {l} e) here j c = ground (
      arith,
      inv.owns j,
      inv.owns i,
      lock.held_by_none m.state l i e,
      lock.held_by_taker m.state l i e,
    )
    owns_kept unlocks here j c = ground (arith, inv.owns j, inv.owns i)
    owns_kept _ here j c = ground (arith, inv.owns j, inv.owns i)

    fresh_kept :
        {p p' : Pc} {m' : Mem lock}
        → ThreadFunction lock i m p m' p'
        → pc i ≡ p
        → (j v : ℕ) → update pc i p' j ≡ loaded v
        → m'.test_global_variable ≡ v
    fresh_kept stores here j v c = ground (arith, inv.owns j, inv.owns i, inv.fresh j v)
    fresh_kept _ here j v c = ground (arith, inv.fresh j v)

    counted_kept :
        {p p' : Pc} {m' : Mem lock} (mv : ThreadFunction lock i m p m' p')
        → pc i ≡ p
        → m'.test_global_variable ≡ (added + adds lock mv) % long_mod
    counted_kept (stores {v}) here = omega (arith, inv.fresh i v here, inv.counted)
    counted_kept _ here = omega (arith, inv.counted)

  pub Step-Inv :
      {s t : Threads lock} → Step lock s t → Inv s.mem s.pc s.added → Inv t.mem t.pc t.added
  Step-Inv (picks i mv) inv = record {
    owns = owns_kept inv i mv refl;
    fresh = fresh_kept inv i mv refl;
    counted = counted_kept inv i mv refl;
  }

  pub Reach-Inv : {s : Threads lock} → Reach lock s → Inv s.mem s.pc s.added
  Reach-Inv start = record { owns = λ i c. cc; fresh = λ i v e. cc; counted = refl }
  Reach-Inv (later r st) = Step-Inv st (Reach-Inv r)

  -- However the threads are interleaved, and however many there are, no two of them are ever between
  -- locking and unlocking at the same time.
  pub mutual_exclusion :
      {s : Threads lock}
      → Reach lock s
      → (i j : ℕ) → critical (s.pc i) ≡ true
      → critical (s.pc j) ≡ true
      → i ≡ j
  mutual_exclusion {s} r i j ci cj =
      let inv : Inv s.mem s.pc s.added = Reach-Inv r in ground (arith, inv.owns i ci, inv.owns j cj)

  -- However the threads are interleaved, no increment is lost: `test_global_variable` is the number of
  -- the increments completed so far, modulo 2^64.
  pub no_lost_increment :
      {s : Threads lock} → Reach lock s → s.mem.test_global_variable ≡ s.added % long_mod
  no_lost_increment {s} r = let inv : Inv s.mem s.pc s.added = Reach-Inv r in inv.counted
