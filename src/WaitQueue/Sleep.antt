-- ===== src/WaitQueue/Sleep.antt =====
-- What the sleeps of WaitQueue/wait1.c wake up to. `prev` and `next` are read once, before the loop,
-- so the loop compares the old `head` with the new `tail`.
use linux_kernel_development.Prelude.{
  ℕ, ◌+◌, ◌-◌, ◌%◌, ◌≡◌, ◌≢◌, refl, Option, some, List, [], ◌∷◌, length, get_or, pos, arith, ◌∙◌,
  true, false, eq_ℤ, ◌==◌, ℤ, sym,
}
use linux_kernel_development.WaitQueue.{
  ringsize, Driver, Wake, asleep, returned, write_loop, prev_of, my_write, remove, read_loop,
  my_read,
}
use linux_kernel_development.WaitQueue.Bounds.{IsValid}
use linux_kernel_development.WaitQueue.Fifo.{
  contents, count, length-window, my_read_takes, empty_iff, prev-eq-tail_of_full,
}

-- Wake-ups in which no writer has moved `tail` and no signal has come in; readers may have run.
abbrev pub OnlyReaders : ℕ → List Wake → Type 0
OnlyReaders t [] = Unit {0}
OnlyReaders t (w ∷ ws) = (w.driver.tail ≡ t) × (w.signal ≡ false) × OnlyReaders t ws

-- The state at the last wake-up.
abbrev pub latest : Driver → List Wake → Driver
latest d [] = d
latest d (w ∷ ws) = latest w.driver ws

write_loop-asleep :
    (prev : ℤ) (buf : Option ℕ) (t : ℕ) (d : Driver) (ws : List Wake)
    → eq_ℤ prev (pos t) ≡ true
    → d.tail ≡ t
    → OnlyReaders t ws
    → write_loop prev buf d ws ≡ asleep (record (latest d ws) { condition = 0 })
unfolding write_loop
write_loop-asleep prev buf t d [] same at only = ground arith
write_loop-asleep prev buf t d (w ∷ ws) same at only =
    ground (arith, write_loop-asleep prev buf t w.driver ws same only.0 only.2)

-- A writer that finds the ring full, with `head` not 0, stays asleep through any number of wake-ups
-- as long as no other writer moves `tail` and no signal comes in, whatever readers have taken out.
pub my_write_never_wakes :
    (d : Driver) (buf : Option ℕ) (ws : List Wake)
    → IsValid d
    → length (contents d) ≡ 511
    → d.head ≢ 0
    → OnlyReaders d.tail ws
    → my_write d buf ws ≡ asleep (record (latest d ws) { condition = 0 })
unfolding my_write
my_write_never_wakes d buf ws v full off_zero only =
    write_loop-asleep (prev_of d) buf d.tail d ws same refl only
  where
    counted : count d ≡ 511
    counted = sym (length-window d.ring d.head (count d)) ∙ full

    same : eq_ℤ (prev_of d) (pos d.tail) ≡ true
    same = prev-eq-tail_of_full d v counted off_zero

head-eq-tail : (d : Driver) → IsValid d → contents d ≡ [] → d.head ≡ d.tail
head-eq-tail d v empty = let e : count d ≡ 0 = (empty_iff d).0 empty in omega arith

module _ (d : Driver) (w : Wake) (ws : List Wake) (quiet : w.signal ≡ false) where
  -- With the ring empty at the call and no signal, a reader does after its wake-up what a call from
  -- the state at the wake-up does, if `head` has not moved.
  pub my_read_resumes :
      d.head ≡ d.tail
      → w.driver.head ≡ d.head
      → my_read d false (w ∷ ws) ≡ my_read w.driver false ws
  unfolding my_read
  my_read_resumes empty still = rw (tested, quiet, still)
    where
      tested : (d.head == d.tail) ≡ true
      tested = ground arith

  -- A reader that slept on an empty ring and is woken, with no signal, by writers alone takes the
  -- oldest byte that is there.
  my_read_wakes :
      contents d ≡ []
      → IsValid d
      → IsValid w.driver
      → w.driver.head ≡ d.head
      → contents w.driver ≢ []
      → (d' : Driver) × (b : ℕ) × (my_read d false (w ∷ ws) ≡ returned d' (pos 1) (some b))
        × (contents w.driver ≡ b ∷ contents d')
  my_read_wakes empty v v' still there =
      let (d', b, done, shorter) =
        my_read_takes w.driver ws v' (λ e. there ((empty_iff w.driver).1 e)) in
      (d', b, my_read_resumes (head-eq-tail d v empty) still ∙ done, shorter)

  -- A reader that slept on an empty ring and is woken, with no signal, when another reader has
  -- already emptied the ring again returns 1 all the same, and leaves 511 bytes in the ring.
  my_read_overruns :
      contents d ≡ []
      → IsValid d
      → IsValid w.driver
      → contents w.driver ≡ []
      → w.driver.head ≢ d.head
      → (d' : Driver) × (b : ℕ) × (my_read d false (w ∷ ws) ≡ returned d' (pos 1) (some b))
        × (length (contents d') ≡ 511)
  unfolding my_read
  my_read_overruns empty v v' empty' moved = (
    record w.driver { head = (1 + w.driver.head) % ringsize; condition = 1 },
    get_or w.driver.ring w.driver.head 0,
    rw (tested, quiet) (passes ws),
    length-window w.driver.ring _ _ ∙ wraps,
  )
    where
      at : w.driver.head ≡ w.driver.tail
      at = head-eq-tail w.driver v' empty'

      tested : (d.head == d.tail) ≡ true
      tested = let e : d.head ≡ d.tail = head-eq-tail d v empty in ground arith

      differs : (d.head == w.driver.tail) ≡ false
      differs = ground (arith, at)

      passes : (ws : List Wake) → read_loop d.head false w.driver ws ≡ remove w.driver false
      passes [] = rw differs
      passes (w' ∷ ws) = rw differs

      wraps : (w.driver.tail + ringsize - (1 + w.driver.head) % ringsize) % ringsize ≡ 511
      wraps = omega (arith, at)
