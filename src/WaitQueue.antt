-- ===== src/WaitQueue.antt =====
-- WaitQueue/wait1.c: a character device over a ring of 512 bytes. `my_write` sleeps while the ring
-- looks full to it and `my_read` while it looks empty.
pub mod Bounds
pub mod Fifo
pub mod Runs
pub mod Sleep
mod Tests
use linux_kernel_development.Kernel.Ledger.{Events, taken, given, major_number}
use linux_kernel_development.Kernel.CharSetup.{Loaded}
use linux_kernel_development.Prelude.{
  ℕ, ◌+◌, ◌%◌, Bool, Option, none, some, List, [], ◌∷◌, get_or, set, replicate, ℤ, pos, negsuc,
  ◌+ℤ◌, rem_ℤ, eq_ℤ, efault, erestartsys, ◌==◌, if◌then◌else◌,
}

abbrev pub ringsize : ℕ
ringsize = 512

-- The variables that the two handlers share. `head` and `tail` are `int`s that start at 0 and are
-- only ever set to a remainder of a sum, so they are never negative.
pub record Driver : Type 0 where
  pub head : ℕ
  pub tail : ℕ
  pub ring : List ℕ
  pub condition : ℕ

-- The initial values of the variables at file scope.
abbrev pub initial : Driver
initial = record { head = 0; tail = 0; ring = replicate ringsize 0; condition = 0 }

-- How a sleep in `wait_event_interruptible` ends: with what the other processes have made of the
-- shared variables in between, and with `signal_pending( current )`.
pub record Wake : Type 0 where
  pub driver : Driver
  pub signal : Bool

-- Where a call stands after the wake-ups that it is given: asleep, or returned with a value (and,
-- of a read, with the byte that went through `put_user`).
pub data Outcome : Type 0 where
  asleep : Driver → Outcome
  returned : Driver → ℤ → Option ℕ → Outcome

-- `prev = ( head - 1 ) % RINGSIZE`, in `int` arithmetic.
abbrev pub prev_of : Driver → ℤ
prev_of d = rem_ℤ (pos d.head +ℤ negsuc 0) ringsize

-- After the loop of `my_write`. The user's byte is `none` if `get_user` faults; it then clears the
-- variable that it was to fill.
pub insert : Driver → Option ℕ → Outcome
insert d none = returned (record d { ring = set d.ring d.tail 0 }) efault none
insert d (some b) =
    returned
      (record d { ring = set d.ring d.tail b; tail = (1 + d.tail) % ringsize; condition = 1 })
      (pos 1) none

-- The `while ( prev == tail )` of `my_write`: `prev` is not computed again.
pub write_loop : ℤ → Option ℕ → Driver → List Wake → Outcome
write_loop prev buf d [] =
    if eq_ℤ prev (pos d.tail) then asleep (record d { condition = 0 }) else insert d buf
write_loop prev buf d (w ∷ ws) =
    let again = write_loop prev buf w.driver ws in
    if eq_ℤ prev (pos d.tail)
    then (if w.signal then returned w.driver erestartsys none else again)
    else insert d buf

pub my_write : Driver → Option ℕ → List Wake → Outcome
unfolding write_loop insert
my_write d buf ws = write_loop (prev_of d) buf d ws

-- After the loop of `my_read`; `fault` says that `put_user` faults.
pub remove : Driver → Bool → Outcome
remove d fault =
    if fault
    then returned d efault none
    else returned (record d { head = (1 + d.head) % ringsize; condition = 1 }) (pos 1)
        (some (get_or d.ring d.head 0))

-- The `while ( next == tail )` of `my_read`: `next` is not computed again.
pub read_loop : ℕ → Bool → Driver → List Wake → Outcome
read_loop next fault d [] =
    if next == d.tail then asleep (record d { condition = 0 }) else remove d fault
read_loop next fault d (w ∷ ws) =
    let again = read_loop next fault w.driver ws in
    if next == d.tail
    then (if w.signal then returned w.driver erestartsys none else again)
    else remove d fault

pub my_read : Driver → Bool → List Wake → Outcome
unfolding read_loop remove
my_read d fault ws = read_loop d.head fault d ws

-- The major number is one that the module has chosen: `register_chrdev` answers with 0 or an error.
unfoldable pub init_module : ℤ → Loaded
init_module answer = record {
  log = if eq_ℤ answer (pos 0) then taken major_number ∷ [] else [];
  rv = answer;
}

unfoldable pub cleanup_module : Events
cleanup_module = given major_number ∷ []
