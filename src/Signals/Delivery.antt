-- ===== src/Signals/Delivery.antt =====
-- Whom Signal/signal1.c sends its signal to.
use linux_kernel_development.Prelude.{ℕ, ◌≡◌, ◌≢◌, refl, none, some, List, [], ◌∷◌, arith}
use linux_kernel_development.Signals.{
  SignalDriver, test_open, test_release, test_read, test_write, test_ioctl, Call, opens, releases,
  reads, writes, registers, other_ioctl, after, after_all,
}

-- Calls that leave a task registered: no task registers in its place, and it does not close the file.
abbrev pub Leaves : ℕ → Call → Type 0
Leaves t (registers s) = s ≡ t
Leaves t (releases s) = s ≢ t
Leaves t _ = Unit {0}

abbrev pub AllLeave : ℕ → List Call → Type 0
AllLeave t [] = Unit {0}
AllLeave t (c ∷ cs) = Leaves t c × AllLeave t cs

after-task :
    (d : SignalDriver) (t : ℕ) (c : Call) → Leaves t c → d.task ≡ some t → (after d c).task ≡ some t
unfolding after test_open test_release test_write test_ioctl
after-task d t (opens s) leaves here = here
after-task d t (releases s) leaves here = ground arith
after-task d t (reads s) leaves here = here
after-task d t (writes s) leaves here = here
after-task d t (registers s) leaves here = ground arith
after-task d t (other_ioctl s) leaves here = here

after_all-task :
    (d : SignalDriver) (t : ℕ) (cs : List Call)
    → AllLeave t cs
    → d.task ≡ some t
    → (after_all d cs).task ≡ some t
unfolding after_all
after_all-task d t [] leaves here = here
after_all-task d t (c ∷ cs) leaves here =
    after_all-task (after d c) t cs leaves.1 (after-task d t c leaves.0 here)

-- No task registers.
abbrev pub NoneRegisters : List Call → Type 0
NoneRegisters [] = Unit {0}
NoneRegisters (registers s ∷ cs) = ⊥
NoneRegisters (c ∷ cs) = NoneRegisters cs

after_all-none :
    (d : SignalDriver) (cs : List Call)
    → NoneRegisters cs
    → d.task ≡ none
    → (after_all d cs).task ≡ none
unfolding after_all after test_open test_release test_write test_ioctl
after_all-none d [] quiet here = here
after_all-none d (opens s ∷ cs) quiet here = after_all-none d cs quiet here
after_all-none d (releases s ∷ cs) quiet here =
    after_all-none (after d (releases s)) cs quiet (ground arith)
after_all-none d (reads s ∷ cs) quiet here = after_all-none d cs quiet here
after_all-none d (writes s ∷ cs) quiet here = after_all-none d cs quiet here
after_all-none d (other_ioctl s ∷ cs) quiet here = after_all-none d cs quiet here
after_all-none d (registers s ∷ cs) quiet here = absurd quiet

released-task : (d : SignalDriver) (t : ℕ) → d.task ≡ some t → (after d (releases t)).task ≡ none
unfolding after test_release
released-task d t here = ground arith

registered : (d : SignalDriver) (t : ℕ) → (after d (registers t)).task ≡ some t
unfolding after test_ioctl
registered d t = refl

-- Whatever was called before, a read by any task sends the signal to the task that has registered
-- last, if that task has not closed the file since; after it has closed the file, and until another
-- task registers, a read sends no signal.
pub read_signals :
    (d : SignalDriver) (t : ℕ) (between later : List Call)
    → AllLeave t between
    → NoneRegisters later
    → ((test_read (after_all (after d (registers t)) between)).0 ≡ some t)
      × ((test_read
            (after_all (after (after_all (after d (registers t)) between) (releases t)) later)).0
          ≡ none)
unfolding test_read
read_signals d t between later leaves quiet =
    let held : (after_all (after d (registers t)) between).task ≡ some t =
      after_all-task (after d (registers t)) t between leaves (registered d t) in
    (
      held,
      after_all-none (after (after_all (after d (registers t)) between) (releases t)) later quiet
          (released-task (after_all (after d (registers t)) between) t held),
    )
