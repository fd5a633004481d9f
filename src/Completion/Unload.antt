-- ===== src/Completion/Unload.antt =====
-- What a read and the unload of Completion/comp1.c do to the thread.
use linux_kernel_development.Prelude.{ℕ, zero, suc, ◌+◌, ◌≤◌, ◌≡◌, refl, none, some, arith}
use linux_kernel_development.Completion.{
  Comp, Pc, waiting, woken, counting, returned, test_read, wait_function, exit_signal,
  test_driver_exit,
}

-- The thread runs for at most `n` steps, with nothing in between, until it sleeps or has returned.
abbrev pub run : ℕ → Comp → Comp
run zero s = s
run (suc n) s = elim (wait_function s) [ none ↦ s | some t ↦ run n t ]

-- A state from its parts.
abbrev pub comp : ℕ → ℕ → ℕ → Pc → Comp
comp flag count done pc = record {
  completion_flag = flag;
  read_count = count;
  done = done;
  pc = pc;
}

run_at_rest : (n : ℕ) (s : Comp) → wait_function s ≡ none → run n s ≡ s
run_at_rest zero s h = refl
run_at_rest (suc n) s h = rw (h, run) refl

-- Whether the state is at rest in the given place.
abbrev pub Rests : Comp → Pc → Type 0
Rests s p = (s.pc ≡ p) × (wait_function s ≡ none)

run-Rests : (n : ℕ) (s : Comp) (p : Pc) → Rests s p → Rests (run n s) p
run-Rests n s p (here, rest) = rw (run_at_rest n s rest) (here, rest)

-- A read that finds the thread asleep, with the completion's count at 0, wakes it: within three steps
-- the thread counts the read, once, clears the flag and
-- sleeps again.
test_read_counted :
    (flag count n : ℕ)
    → 3 ≤ n
    → run n (test_read (comp flag count 0 waiting)).0 ≡ comp 0 (count + 1) 0 waiting
unfolding test_read wait_function
test_read_counted flag count (suc (suc (suc n))) enough =
    run_at_rest n (comp 0 (count + 1) 0 waiting) refl
test_read_counted flag count _ enough = absurd (omega arith)

-- Where the thread ends after an unload that finds it at a place.
abbrev pub end_of : Pc → Pc
end_of counting = waiting
end_of _ = returned

unload_outcome :
    (flag count done n : ℕ) (p : Pc)
    → done ≤ 1
    → Rests (run (suc (suc (suc (suc n)))) (test_driver_exit (comp flag count done p)).0) (end_of p)
unfolding test_driver_exit exit_signal wait_function
unload_outcome flag count zero n waiting le = (refl, refl)
unload_outcome flag count zero n woken le = (refl, refl)
unload_outcome flag count zero n counting le = run-Rests n _ waiting (refl, refl)
unload_outcome flag count zero n returned le = (refl, refl)
unload_outcome flag count (suc zero) n waiting le = (refl, refl)
unload_outcome flag count (suc zero) n woken le = (refl, refl)
unload_outcome flag count (suc zero) n counting le = run-Rests n _ waiting (refl, refl)
unload_outcome flag count (suc zero) n returned le = (refl, refl)
unload_outcome flag count (suc (suc d)) n p le = absurd (omega arith)

-- After the unload, with the completion's count at most 1 before it, a thread at its wait or between
-- the wait and the test of the flag returns within four steps. A thread between the test and the
-- reset of the flag overwrites the unload's signal and sleeps for good: it does not return.
pub unload-Rests :
    (s : Comp) (n : ℕ) → s.done ≤ 1 → 4 ≤ n → Rests (run n (test_driver_exit s).0) (end_of s.pc)
unload-Rests s (suc (suc (suc (suc n)))) le enough =
    unload_outcome s.completion_flag s.read_count s.done n s.pc le
unload-Rests s _ le enough = absurd (omega arith)
