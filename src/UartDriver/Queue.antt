-- ===== src/UartDriver/Queue.antt =====
-- The transmit ring of UartDriver/test_serial.c as a queue.
use linux_kernel_development.Prelude.{
  ℕ, zero, suc, ◌+◌, ◌/◌, ◌%◌, ◌<◌, ◌≡◌, refl, ◌==◌, Bool, true, false, List, [], ◌∷◌, take, drop,
  length, get_or, if◌then◌else◌, arith, Bool-cases, inl, inr, ap, take-nil, drop-nil, sym, ◌∙◌, not,
}
use linux_kernel_development.UartDriver.{UartPort, uart_xmit_size, u32_mod}
use linux_kernel_development.UartDriver.Transmit.{
  uart_circ_empty, uart_circ_chars_pending, advance, tx_loop, Transmitted, test_tx_chars,
}

-- `n` characters of a ring from an index on.
abbrev pub window : List ℕ → ℕ → ℕ → List ℕ
window buf zero at = []
window buf (suc n) at = get_or buf at 0 ∷ window buf n ((at + 1) % uart_xmit_size)

-- The characters that are queued, the oldest first.
abbrev pub queued : UartPort → List ℕ
queued p = window p.buf (uart_circ_chars_pending p) p.tail

-- The indices lie in the ring.
pub record IsValid (p : UartPort) : Type 0 where
  pub head_in : p.head < uart_xmit_size
  pub tail_in : p.tail < uart_xmit_size

-- How many characters one run may take.
abbrev pub rounds : ℕ → ℕ
rounds zero = 1
rounds (suc n) = suc n

advance_pending :
    (p : UartPort)
    → IsValid p
    → uart_circ_empty p ≡ false
    → uart_circ_chars_pending p ≡ suc (uart_circ_chars_pending (advance p))
advance_pending p v more = ground arith

queued-advance :
    (p : UartPort)
    → IsValid p
    → uart_circ_empty p ≡ false
    → queued p ≡ get_or p.buf p.tail 0 ∷ queued (advance p)
queued-advance p v more = ap (λ n. window p.buf n p.tail) (advance_pending p v more)

empty_queued : (p : UartPort) → IsValid p → uart_circ_empty p ≡ true → queued p ≡ []
empty_queued p v e =
    let none_left : uart_circ_chars_pending p ≡ 0 = ground arith in
    ap (λ n. window p.buf n p.tail) none_left

advance-IsValid : (p : UartPort) → IsValid p → IsValid (advance p)
advance-IsValid p v = record { head_in = v.head_in; tail_in = omega arith }

-- What is claimed of the loop.
record Takes (n : ℕ) (p : UartPort) (r : List ℕ × UartPort) : Type 0 where
  wrote : r.0 ≡ take n (queued p)
  left : queued r.1 ≡ drop n (queued p)
  valid : IsValid r.1
  counted : r.1.icount_tx ≡ (p.icount_tx + length r.0) % u32_mod
  same_char : r.1.x_char ≡ p.x_char

Takes-one :
    (p : UartPort)
    → IsValid p
    → uart_circ_empty p ≡ false
    → Takes 1 p (get_or p.buf p.tail 0 ∷ [], advance p)
Takes-one p v more = record {
  wrote = rw (queued-advance p v more) refl;
  left = rw (queued-advance p v more) refl;
  valid = advance-IsValid p v;
  counted = refl;
  same_char = refl;
}

Takes-last :
    (n : ℕ) (p : UartPort)
    → IsValid p
    → uart_circ_empty p ≡ false
    → uart_circ_empty (advance p) ≡ true
    → Takes (suc n) p (get_or p.buf p.tail 0 ∷ [], advance p)
Takes-last n p v more last =
    let over : queued (advance p) ≡ [] = empty_queued (advance p) (advance-IsValid p v) last in
    record {
      wrote = rw (queued-advance p v more, over) (rw (take-nil n) refl);
      left = over ∙ rw (queued-advance p v more, over) (sym (drop-nil n));
      valid = advance-IsValid p v;
      counted = refl;
      same_char = refl;
    }

Takes-more :
    (n : ℕ) (p : UartPort) (r : List ℕ × UartPort)
    → IsValid p
    → uart_circ_empty p ≡ false
    → Takes n (advance p) r
    → Takes (suc n) p (get_or p.buf p.tail 0 ∷ r.0, r.1)
Takes-more n p r v more t = record {
  wrote = rw (queued-advance p v more) (ap (λ l. get_or p.buf p.tail 0 ∷ l) t.wrote);
  left = t.left ∙ rw (queued-advance p v more) refl;
  valid = t.valid;
  counted = omega (arith, t.counted);
  same_char = t.same_char;
}

tx_loop-Takes :
    (count : ℕ) (p : UartPort)
    → IsValid p
    → uart_circ_empty p ≡ false
    → Takes (rounds count) p (tx_loop count p)
unfolding tx_loop
tx_loop-Takes zero p v more = Takes-one p v more
tx_loop-Takes (suc zero) p v more = elim (Bool-cases (uart_circ_empty (advance p))) [
  | inl last ↦ rw last (Takes-one p v more)
  | inr on ↦ rw on (Takes-one p v more)
]
tx_loop-Takes (suc (suc count)) p v more =
    let ih = tx_loop-Takes (suc count) (advance p) (advance-IsValid p v) in
    let over : (suc count == 0) ≡ false = ground arith in
    elim (Bool-cases (uart_circ_empty (advance p))) [
      | inl last ↦ rw last (Takes-last (suc count) p v more last)
      | inr on ↦
          rw (on, over) (Takes-more (suc count) p (tx_loop (suc count) (advance p)) v more (ih on))
    ]

-- What is to be written, told from the queue alone: the urgent character before the queue, and else
-- half of the hardware's buffer, or one character if that is less than one.
abbrev pub to_write : UartPort → List ℕ
to_write p =
    if not (p.x_char == 0)
    then p.x_char ∷ []
    else (if p.tx_stopped then [] else take (rounds (p.fifosize / 2)) (queued p))

-- What is left in the queue.
abbrev pub left_queued : UartPort → List ℕ
left_queued p =
    if not (p.x_char == 0)
    then queued p
    else (if p.tx_stopped then queued p else drop (rounds (p.fifosize / 2)) (queued p))

if_same : (b : Bool) (xs : List ℕ) → (if b then xs else xs) ≡ xs
if_same true xs = refl
if_same false xs = refl

-- What is claimed of a run of `test_tx_chars`.
pub record Serves (p : UartPort) (t : Transmitted) : Type 0 where
  pub wrote : t.wrote ≡ to_write p
  pub left : queued t.port ≡ left_queued p
  pub valid : IsValid t.port
  pub counted : t.port.icount_tx ≡ (p.icount_tx + length t.wrote) % u32_mod
  pub urgent : t.port.x_char ≡ 0

-- `test_tx_chars` on a port with its indices in the ring and its count below 2^32 writes the urgent
-- character if there is one and nothing of the queue; else, unless it is stopped, the oldest characters
-- of the queue, in order, half of the hardware's buffer, but at least one, or all if they are
-- fewer; it leaves the others queued, counts what it has written modulo 2^32, and leaves no urgent
-- character.
pub test_tx_chars-Serves :
    (p : UartPort) → IsValid p → p.icount_tx < u32_mod → Serves p (test_tx_chars p)
unfolding test_tx_chars
test_tx_chars-Serves p v small = elim (Bool-cases (p.x_char == 0)) [
  | inr char ↦ rw char (record {
    wrote = rw char refl;
    left = rw char refl;
    valid = record { head_in = v.head_in; tail_in = v.tail_in };
    counted = refl;
    urgent = refl;
  })
  | inl no_char ↦ elim (Bool-cases (uart_circ_empty p)) [
    | inl none_left ↦
        let over : queued p ≡ [] = empty_queued p v none_left in
        rw (no_char, none_left)
          (record {
            wrote =
                rw (no_char, over, take-nil (rounds (p.fifosize / 2)))
                  (sym (if_same p.tx_stopped []));
            left =
                rw (no_char, over, drop-nil (rounds (p.fifosize / 2)))
                  (sym (if_same p.tx_stopped []));
            valid = v;
            counted = omega arith;
            urgent = ground arith;
          })
    | inr some_left ↦ elim (Bool-cases p.tx_stopped) [
      | inl stopped ↦
          rw (no_char, some_left, stopped)
            (record {
              wrote = rw no_char refl;
              left = rw no_char refl;
              valid = record { head_in = v.head_in; tail_in = v.tail_in };
              counted = omega arith;
              urgent = ground arith;
            })
      | inr runs ↦
          let running : UartPort = record p { tx_stopped = false } in
          let t =
            tx_loop-Takes (p.fifosize / 2) running
              (record { head_in = v.head_in; tail_in = v.tail_in }) some_left in
          rw (no_char, some_left, runs)
            (record {
              wrote = rw no_char t.wrote;
              left = rw no_char t.left;
              valid = t.valid;
              counted = t.counted;
              urgent = t.same_char ∙ ground arith;
            })
    ]
  ]
]
