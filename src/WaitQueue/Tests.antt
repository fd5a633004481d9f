-- ===== src/WaitQueue/Tests.antt =====
-- Runs of WaitQueue/wait1.c, and the theorems about it at concrete states.
use linux_kernel_development.Prelude.{
  ℕ, ◌++◌, ◌≡◌, refl, false, some, [], ◌∷◌, length, length-replicate, replicate, arith, ◌≤◌,
}
use linux_kernel_development.WaitQueue.{
  ringsize, initial, write_loop, insert, read_loop, remove, Driver, Wake, asleep, my_write, my_read,
}
use linux_kernel_development.WaitQueue.Bounds.{IsValid}
use linux_kernel_development.WaitQueue.Fifo.{contents, count, length-window}
use linux_kernel_development.WaitQueue.Runs.{
  Ran, loaded, wrote, handed_over, Ran-first_in_first_out,
}
use linux_kernel_development.WaitQueue.Sleep.{my_write_never_wakes}

-- Indices into a ring that holds 7 in every slot.
abbrev at : ℕ → ℕ → Driver
at h t = record { head = h; tail = t; ring = replicate ringsize 7; condition = 0 }

at-IsValid : (h t : ℕ) → h ≤ 511 → t ≤ 511 → IsValid (at h t)
at-IsValid h t p q = record {
  head_in = omega arith;
  tail_in = omega arith;
  ring_full_length = length-replicate {A = ℕ} ringsize 7;
}

abbrev wake : Driver → Wake
wake d = record { driver = d; signal = false }

-- The slots 510, 511 and 0 in this order.
round_the_end : contents (at 510 1) ≡ 7 ∷ 7 ∷ 7 ∷ []
round_the_end = refl

full_below : length (contents (at 5 4)) ≡ 511
full_below = length-window (replicate ringsize 7) 5 (count (at 5 4))

full_at_zero : length (contents (at 0 511)) ≡ 511
full_at_zero = length-window (replicate ringsize 7) 0 (count (at 0 511))

-- A reader has emptied the ring meanwhile, and the writer sleeps on.
my_write_never_wakes_example :
    my_write (at 5 4) (some 9) (wake (at 6 4) ∷ wake (at 4 4) ∷ []) ≡ asleep (at 4 4)
my_write_never_wakes_example =
    my_write_never_wakes (at 5 4) (some 9) (wake (at 6 4) ∷ wake (at 4 4) ∷ [])
      (at-IsValid 5 4 (omega arith) (omega arith)) full_below (omega arith)
      (refl, refl, (refl, refl, tt))

-- A byte has been written and read.
abbrev one_through : Driver
one_through = record { head = 1; tail = 1; ring = 9 ∷ replicate 511 0; condition = 1 }

abbrev one_written : Driver
one_written = record { head = 0; tail = 1; ring = 9 ∷ replicate 511 0; condition = 1 }

one_written-Ran : Ran one_written (9 ∷ []) []
unfolding my_write write_loop insert
one_written-Ran = wrote {d = initial} 9 loaded (omega arith) refl

one_through-Ran : Ran one_through (9 ∷ []) (9 ∷ [])
unfolding my_read read_loop remove
one_through-Ran = handed_over {d = one_written} 9 one_written-Ran refl

Ran-first_in_first_out_example : (9 ∷ []) ++ contents one_through ≡ 9 ∷ []
Ran-first_in_first_out_example = Ran-first_in_first_out {d = one_through} one_through-Ran
