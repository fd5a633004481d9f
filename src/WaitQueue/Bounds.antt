-- ===== src/WaitQueue/Bounds.antt =====
-- The indices of WaitQueue/wait1.c stay inside the ring.
use linux_kernel_development.Prelude.{
  ℕ, ◌<◌, ◌≡◌, Bool, Option, none, some, List, [], ◌∷◌, length, length-set, length-replicate, ℤ,
  arith,
}
use linux_kernel_development.WaitQueue.{
  ringsize, Driver, initial, Wake, prev_of, Outcome, asleep, returned, insert, write_loop, my_write,
  remove, read_loop, my_read,
}

pub record IsValid (d : Driver) : Type 0 where
  pub head_in : d.head < ringsize
  pub tail_in : d.tail < ringsize
  pub ring_full_length : length d.ring ≡ ringsize

-- The state that a call leaves behind, asleep or not.
abbrev pub left : Outcome → Driver
left (asleep d) = d
left (returned d v out) = d

-- Every wake-up finds a valid state.
abbrev pub AllValid : List Wake → Type 0
AllValid [] = Unit {0}
AllValid (w ∷ ws) = IsValid w.driver × AllValid ws

pub initial-IsValid : IsValid initial
initial-IsValid = record {
  head_in = omega arith;
  tail_in = omega arith;
  ring_full_length = length-replicate {A = ℕ} ringsize 0;
}

insert-IsValid : (d : Driver) (buf : Option ℕ) → IsValid d → IsValid (left (insert d buf))
unfolding insert
insert-IsValid d none v = ground (arith, length-set d.ring d.tail 0)
insert-IsValid d (some b) v = ground (arith, length-set d.ring d.tail b)

remove-IsValid : (d : Driver) (fault : Bool) → IsValid d → IsValid (left (remove d fault))
unfolding remove
remove-IsValid d fault v = ground arith

write_loop-IsValid :
    (prev : ℤ) (buf : Option ℕ) (d : Driver) (ws : List Wake)
    → IsValid d
    → AllValid ws
    → IsValid (left (write_loop prev buf d ws))
unfolding write_loop
write_loop-IsValid prev buf d [] v a = ground (arith, insert-IsValid d buf v)
write_loop-IsValid prev buf d (w ∷ ws) v a =
    ground (arith, insert-IsValid d buf v, write_loop-IsValid prev buf w.driver ws a.0 a.1)

read_loop-IsValid :
    (next : ℕ) (fault : Bool) (d : Driver) (ws : List Wake)
    → IsValid d
    → AllValid ws
    → IsValid (left (read_loop next fault d ws))
unfolding read_loop
read_loop-IsValid next fault d [] v a = ground (arith, remove-IsValid d fault v)
read_loop-IsValid next fault d (w ∷ ws) v a =
    ground (arith, remove-IsValid d fault v, read_loop-IsValid next fault w.driver ws a.0 a.1)

-- `my_write` leaves the indices inside the ring and the ring 512 bytes long, asleep or returned, if the
-- wake-ups find it so.
pub my_write-IsValid :
    (d : Driver) (buf : Option ℕ) (ws : List Wake)
    → IsValid d
    → AllValid ws
    → IsValid (left (my_write d buf ws))
unfolding my_write
my_write-IsValid d buf ws v a = write_loop-IsValid (prev_of d) buf d ws v a

-- `my_read` leaves the indices inside the ring and the ring 512 bytes long, asleep or returned, if the
-- wake-ups find it so.
pub my_read-IsValid :
    (d : Driver) (fault : Bool) (ws : List Wake)
    → IsValid d
    → AllValid ws
    → IsValid (left (my_read d fault ws))
unfolding my_read
my_read-IsValid d fault ws v a = read_loop-IsValid d.head fault d ws v a
