-- ===== src/WaitQueue/Runs.antt =====
-- Calls of WaitQueue/wait1.c one after the other, as a queue of bytes.
use linux_kernel_development.Prelude.{
  ℕ, ◌<◌, ◌≡◌, ◌≢◌, refl, ◌∙◌, sym, ap, ap₂, suc, none, some, true, false, List, [], ◌∷◌, ◌++◌,
  append_assoc, append-nil, ℤ, arith, ◌≤◌, ℕ_discrete, set,
}
use linux_kernel_development.WaitQueue.{
  remove, read_loop, write_loop, insert, ringsize, Driver, initial, returned, my_write, my_read,
}
use linux_kernel_development.WaitQueue.Bounds.{
  IsValid, initial-IsValid, my_write-IsValid, my_read-IsValid,
}
use linux_kernel_development.WaitQueue.Fifo.{
  contents, count, my_write_appends, my_read_takes, my_write_loses, contents-insert_fault,
  prev-eq-tail_of_full, length-window,
}

-- The state after calls that did not sleep, with the bytes of the writes and the bytes that the reads
-- have handed over, the oldest first. A call whose buffer faults writes or hands over none. A write
-- that finds 511 bytes in the ring and does not sleep loses them and its own: from there on, what has
-- been written counts as what has been read.
pub data Ran : Driver → List ℕ → List ℕ → Type 0 where
  loaded : Ran initial [] []
  wrote :
      {d d' : Driver} {written read : List ℕ} (b : ℕ) {r : ℤ}
      → Ran d written read
      → suc (count d) < ringsize
      → my_write d (some b) [] ≡ returned d' r none
      → Ran d' (written ++ (b ∷ [])) read
  lost :
      {d d' : Driver} {written read : List ℕ} (b : ℕ) {r : ℤ}
      → Ran d written read
      → ringsize ≤ suc (count d)
      → my_write d (some b) [] ≡ returned d' r none
      → Ran d' read read
  write_faulted :
      {d d' : Driver} {written read : List ℕ} {r : ℤ}
      → Ran d written read
      → my_write d none [] ≡ returned d' r none
      → Ran d' written read
  handed_over :
      {d d' : Driver} {written read : List ℕ} (b : ℕ) {r : ℤ}
      → Ran d written read
      → my_read d false [] ≡ returned d' r (some b)
      → Ran d' written (read ++ (b ∷ []))
  faulted :
      {d d' : Driver} {written read : List ℕ} {r : ℤ}
      → Ran d written read
      → my_read d true [] ≡ returned d' r none
      → Ran d' written read

Ran-IsValid : {d : Driver} {written read : List ℕ} → Ran d written read → IsValid d
Ran-IsValid loaded = initial-IsValid
Ran-IsValid (wrote {d} b r room e) = rw e at (my_write-IsValid d (some b) [] (Ran-IsValid r) tt)
Ran-IsValid (lost {d} b r full e) = rw e at (my_write-IsValid d (some b) [] (Ran-IsValid r) tt)
Ran-IsValid (write_faulted {d} r e) = rw e at (my_write-IsValid d none [] (Ran-IsValid r) tt)
Ran-IsValid (handed_over {d} b r e) = rw e at (my_read-IsValid d false [] (Ran-IsValid r) tt)
Ran-IsValid (faulted {d} r e) = rw e at (my_read-IsValid d true [] (Ran-IsValid r) tt)

fault_keeps : (d d' : Driver) (r : ℤ) → my_read d true [] ≡ returned d' r none → d ≡ d'
unfolding my_read read_loop remove
fault_keeps d d' r e = ground arith

-- A read that hands over a byte finds one.
hands_over-count :
    (d d' : Driver) (r : ℤ) (b : ℕ)
    → IsValid d
    → my_read d false [] ≡ returned d' r (some b)
    → count d ≢ 0
unfolding my_read read_loop
hands_over-count d d' r b v e empty = ground arith

write_fault-contents :
    (d d' : Driver) (r : ℤ)
    → IsValid d
    → my_write d none [] ≡ returned d' r none
    → contents d' ≡ contents d
unfolding my_write write_loop insert
write_fault-contents d d' r v e =
    let same : d' ≡ record d { ring = set d.ring d.tail 0 } = ground arith in
    ap contents same ∙ contents-insert_fault d v

-- A write that finds the ring full and does not sleep finds `head` at 0.
full_write-head :
    (d d' : Driver) (b : ℕ) (r : ℤ)
    → IsValid d
    → count d ≡ 511
    → my_write d (some b) [] ≡ returned d' r none
    → d.head ≡ 0
unfolding my_write write_loop
full_write-head d d' b r v full e = elim (ℕ_discrete d.head 0) [
  | yes p ↦ p
  | no p ↦ absurd (cc (rw (prev-eq-tail_of_full d v full p) at e))
]

lost-contents :
    (d d' : Driver) (b : ℕ) (r : ℤ)
    → IsValid d
    → ringsize ≤ suc (count d)
    → my_write d (some b) [] ≡ returned d' r none
    → contents d' ≡ []
lost-contents d d' b r v full e =
    let all : count d ≡ 511 = omega (arith, v.head_in, v.tail_in) in
    let (d'', done, empty) =
      my_write_loses d b [] v (full_write-head d d' b r v all e)
        (length-window d.ring d.head (count d) ∙ all) in
    let same : d' ≡ d'' = cc (e, done) in ap contents same ∙ empty

-- After any reads and writes that do not sleep, what the reads have handed over and the bytes in the
-- ring are, together, what has been written, in that order, where a write that finds 511 bytes in
-- the ring and does not sleep takes these and its own out of what has been written: no other byte is
-- lost, and none is repeated or overtaken.
pub Ran-first_in_first_out :
    {d : Driver} {written read : List ℕ} → Ran d written read → read ++ contents d ≡ written
Ran-first_in_first_out loaded = refl
Ran-first_in_first_out (wrote {d} {d'} {written} {read} b r room e) =
    let (d'', done, longer) = my_write_appends d b [] (Ran-IsValid r) room in
    let same : d' ≡ d'' = cc (e, done) in
    ap (λ x. read ++ contents x) same
    ∙ ap (λ c. read ++ c) longer
    ∙ sym (append_assoc read (contents d) (b ∷ []))
    ∙ ap (λ w. w ++ (b ∷ [])) (Ran-first_in_first_out r)
Ran-first_in_first_out (lost {d} {d'} {written} {read} b {r = rv} r full e) =
    ap (λ c. read ++ c) (lost-contents d d' b rv (Ran-IsValid r) full e) ∙ append-nil read
Ran-first_in_first_out (write_faulted {d} {d'} {written} {read} {r = rv} r e) =
    ap (λ c. read ++ c) (write_fault-contents d d' rv (Ran-IsValid r) e) ∙ Ran-first_in_first_out r
Ran-first_in_first_out (handed_over {d} {d'} {written} {read} b {r = rv} r e) =
    let some_there = hands_over-count d d' rv b (Ran-IsValid r) e in
    let (d'', b', done, shorter) = my_read_takes d [] (Ran-IsValid r) some_there in
    let same : d' ≡ d'' = cc (e, done) in
    let same_byte : b ≡ b' = cc (e, done) in
    append_assoc read (b ∷ []) (contents d')
    ∙ ap (λ c. read ++ c) (ap₂ (λ x c. x ∷ contents c) same_byte same ∙ sym shorter)
    ∙ Ran-first_in_first_out r
Ran-first_in_first_out (faulted {d} {d'} {read} r e) =
    ap (λ x. read ++ contents x) (sym (fault_keeps d d' _ e)) ∙ Ran-first_in_first_out r
