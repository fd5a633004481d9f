-- ===== src/Signals/Tests.antt =====
-- The theorems of Signal/signal1.c at concrete runs, and a run of the user program.
use linux_kernel_development.Prelude.{
  ℕ, true, false, none, some, List, [], ◌∷◌, ◌≡◌, ◌≢◌, refl, arith,
}
use linux_kernel_development.Signals.{
  fresh, test_read, test_release, test_ioctl, Call, opens, releases, reads, writes, registers,
  other_ioctl, after, after_all, wait_loop, main, sigtest_comes, sigint_comes,
}
use linux_kernel_development.Signals.Delivery.{read_signals}

-- Task 8 opens the device, reads and closes it while task 5 stays registered.
abbrev others_calls : List Call
others_calls = opens 8 ∷ reads 8 ∷ registers 5 ∷ other_ioctl 8 ∷ releases 8 ∷ []

-- Task 8 reads after task 5 has closed the file.
abbrev later_calls : List Call
later_calls = opens 8 ∷ writes 8 ∷ reads 8 ∷ releases 8 ∷ []

eight_is_not_five : ◌≢◌ {A = ℕ} 8 5
eight_is_not_five = omega arith

read_signals_example :
    ((test_read (after_all (after fresh (registers 5)) others_calls)).0 ≡ some 5)
    × ((test_read (
          after_all
            (after (after_all (after fresh (registers 5)) others_calls) (releases 5))
            later_calls)).0
        ≡ none)
read_signals_example =
    read_signals fresh 5 others_calls later_calls (tt, (tt, (refl, (tt, (eight_is_not_five, tt)))))
      tt

-- The program registers, reads, and goes on when the signal comes, until SIGINT; then nobody is
-- registered.
program_runs :
    (main 5 true true (sigtest_comes ∷ sigint_comes ∷ [])
      ≡ (opens 5 ∷ registers 5 ∷ reads 5 ∷ releases 5 ∷ [], true))
    × ((after_all fresh (main 5 true true (sigtest_comes ∷ sigint_comes ∷ [])).0).task ≡ none)
    × (main 5 true true (sigtest_comes ∷ []) ≡ (opens 5 ∷ registers 5 ∷ reads 5 ∷ [], false))
unfolding main wait_loop after_all after test_release test_ioctl
program_runs = (refl, refl, refl)
