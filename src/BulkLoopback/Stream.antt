-- ===== src/BulkLoopback/Stream.antt =====
-- The reads of USB/usbdrv4.c as one stream of bytes.
use linux_kernel_development.BulkLoopback.Shift.{length-move_down, take-move_down}
use linux_kernel_development.Prelude.{
  append_assoc, ◌≡⟨◌⟩◌, ◌∎, subst, Bool-cases, not, eq_ℤ, ◌∙◌, sym, append-nil, take-add,
  length-take, dec_lt, take-append, length-append, pos, inl, inr, ◌⊎◌, length-drop, ◌∙◌, ℕ, ◌+◌,
  ◌-◌, ◌≤◌, ◌<◌, ◌≡◌, ◌==◌, ltb, leb, refl, Bool, true, false, List, [], ◌∷◌, ◌++◌, take, drop,
  length, arith, ap, if◌then◌else◌, is_neg,
}
use linux_kernel_development.BulkLoopback.{TestUsb1Device, overwrite, etimedout, IsValid}
use linux_kernel_development.BulkLoopback.Read.{
  BulkIn, got, refused, fetch, Returned, hand_over, after_fetch, test_usb1_read,
}

-- The bytes that a device holds for its next read.
abbrev pub unread : TestUsb1Device → List ℕ
unread dev = take dev.in_buf_left_over dev.in_buf

-- The bytes that a read takes from the device's message: a message is asked for if nothing is left
-- over, and counts if it comes without an error.
abbrev pub received : TestUsb1Device → BulkIn → List ℕ
received dev a = if dev.in_buf_left_over == 0 then (if is_neg a.retval then [] else a.bytes) else []

-- What is claimed of a read that started with the bytes `before`.
pub record Conserves (size : ℕ) (before : List ℕ) (r : TestUsb1Device × Returned) : Type 0 where
  pub split : before ≡ r.1.handed ++ unread r.0
  pub valid : IsValid r.0
  pub same_size : r.0.in_buf_size ≡ size
  pub answered : (r.1.rv ≡ pos (length r.1.handed)) ⊎ ((is_neg r.1.rv ≡ true) × (r.1.handed ≡ []))

module _ (dev : TestUsb1Device) (read_size cnt : ℕ) (v : IsValid dev)
    (fits : read_size ≤ dev.in_buf_size) where
  hand_over_fails :
      Conserves dev.in_buf_size (take read_size dev.in_buf) (hand_over dev read_size cnt false)
  unfolding hand_over
  hand_over_fails = record {
    split = refl;
    valid = record { in_size = v.in_size; out_size = v.out_size; left_over_in = fits };
    same_size = refl;
    answered = inr (refl, refl);
  }

  hand_over_all :
      read_size ≤ cnt
      → Conserves dev.in_buf_size (take read_size dev.in_buf) (hand_over dev read_size cnt true)
  unfolding hand_over
  hand_over_all enough =
      let whole : leb read_size cnt ≡ true = ground arith in
      let none_left : ltb cnt read_size ≡ false = ground arith in
      rw (whole, none_left)
        (record {
          split = sym (append-nil (take read_size dev.in_buf));
          valid = record {
            in_size = length-move_down (read_size - cnt) cnt 0 dev.in_buf ∙ v.in_size;
            out_size = v.out_size;
            left_over_in = omega arith;
          };
          same_size = refl;
          answered = inl (ap pos (omega (arith, length-take read_size dev.in_buf, v.in_size)));
        })

  hand_over_part :
      cnt < read_size
      → Conserves dev.in_buf_size (take read_size dev.in_buf) (hand_over dev read_size cnt true)
  unfolding hand_over
  hand_over_part more =
      let part : leb read_size cnt ≡ false = ground arith in
      let some_left : ltb cnt read_size ≡ true = ground arith in
      let sum : cnt + (read_size - cnt) ≡ read_size = omega arith in
      rw (part, some_left)
        (record {
          split =
              ap (λ n. take n dev.in_buf) (sym sum)
              ∙ sym (take-add cnt (read_size - cnt) dev.in_buf)
              ∙ ap (λ l. take cnt dev.in_buf ++ l)
                  (sym
                    (take-move_down (read_size - cnt) cnt dev.in_buf (omega (arith, v.in_size))));
          valid = record {
            in_size = length-move_down (read_size - cnt) cnt 0 dev.in_buf ∙ v.in_size;
            out_size = v.out_size;
            left_over_in = omega arith;
          };
          same_size = refl;
          answered = inl (ap pos (omega (arith, length-take cnt dev.in_buf, v.in_size)));
        })

  hand_over-Conserves :
      (copied : Bool)
      → Conserves dev.in_buf_size (take read_size dev.in_buf) (hand_over dev read_size cnt copied)
  hand_over-Conserves false = hand_over_fails
  hand_over-Conserves true = elim (dec_lt cnt read_size) [
    | yes more ↦ hand_over_part more
    | no enough ↦ hand_over_all (omega arith)
  ]

overwrite_head : (bytes buf : List ℕ) → take (length bytes) (overwrite bytes buf) ≡ bytes
overwrite_head bytes buf = take-append bytes (drop (length bytes) buf)

length-overwrite :
    (bytes buf : List ℕ) → length bytes ≤ length buf → length (overwrite bytes buf) ≡ length buf
length-overwrite bytes buf h =
    omega (arith, length-append bytes (drop (length bytes) buf), length-drop (length bytes) buf)

Conserves-of_eq :
    (size : ℕ) {before before' : List ℕ} (r : TestUsb1Device × Returned)
    → before ≡ before'
    → Conserves size before r
    → Conserves size before' r
Conserves-of_eq size r e c = subst (λ l. Conserves size l r) e c

-- A read loses no byte that it has received and hands over none twice: on a valid device, with a
-- message that fits in the buffer, what the user gets, followed by what is then unread, is what was
-- unread, followed by what the device has sent, whether the read succeeds or fails; and the read
-- returns the number of bytes handed over, or an error if it hands over none.
test_usb1_read-Conserves :
    (dev : TestUsb1Device) (cnt : ℕ) (a : BulkIn) (copied : Bool)
    → IsValid dev
    → length a.bytes ≤ dev.in_buf_size
    → Conserves dev.in_buf_size (unread dev ++ received dev a) (test_usb1_read dev cnt a copied)
unfolding test_usb1_read fetch
test_usb1_read-Conserves dev cnt a copied v fits = elim (Bool-cases (dev.in_buf_left_over == 0)) [
  | inr more ↦
      rw (more, append-nil (unread dev))
        (hand_over-Conserves (record dev { in_buf_left_over = 0 }) dev.in_buf_left_over cnt
          (record { in_size = v.in_size; out_size = v.out_size; left_over_in = omega arith })
          v.left_over_in copied)
  | inl none_left ↦
      let zero_left : dev.in_buf_left_over ≡ 0 = ground arith in
      let nothing : unread dev ≡ [] = ap (λ n. take n dev.in_buf) zero_left in
      rw (none_left, nothing) (asked zero_left)
]
  where
    filled : TestUsb1Device
    filled = record dev { in_buf = overwrite a.bytes dev.in_buf }

    filled-IsValid : IsValid filled
    filled-IsValid = record {
      in_size = length-overwrite a.bytes dev.in_buf (omega (arith, v.in_size)) ∙ v.in_size;
      out_size = v.out_size;
      left_over_in = v.left_over_in;
    }

    asked :
        dev.in_buf_left_over ≡ 0
        → Conserves dev.in_buf_size (if is_neg a.retval then [] else a.bytes) (
            after_fetch
              (if not (is_neg a.retval)
                then (filled, got (length a.bytes))
                else (if eq_ℤ a.retval etimedout
                    then (filled, got 0)
                    else (filled, refused a.retval)))
              cnt
              copied)
    asked zero_left = elim (Bool-cases (is_neg a.retval)) [
      | inr fine ↦ rw fine (
          Conserves-of_eq dev.in_buf_size _ (overwrite_head a.bytes dev.in_buf)
            (hand_over-Conserves filled (length a.bytes) cnt filled-IsValid fits copied))
      | inl failed ↦ elim (Bool-cases (eq_ℤ a.retval etimedout)) [
        | inl late ↦
            rw (failed, late) (hand_over-Conserves filled 0 cnt filled-IsValid (omega arith) copied)
        | inr other ↦
            rw (failed, other)
              (record {
                split = sym (ap (λ n. take n filled.in_buf) zero_left);
                valid = filled-IsValid;
                same_size = refl;
                answered = inr (failed, refl);
              })
      ]
    ]

-- Reads one after the other, each with the count asked for, what the device answers and whether the
-- copy succeeds: all that they hand over, and the device that they leave.
abbrev pub reads : TestUsb1Device → List (ℕ × BulkIn × Bool) → List ℕ × TestUsb1Device
reads dev [] = ([], dev)
reads dev ((cnt, a, copied) ∷ calls) =
    let (dev', r) = test_usb1_read dev cnt a copied in
    let (bytes, last) = reads dev' calls in (r.handed ++ bytes, last)

-- All that the device sends to these reads.
abbrev pub sent : TestUsb1Device → List (ℕ × BulkIn × Bool) → List ℕ
sent dev [] = []
sent dev ((cnt, a, copied) ∷ calls) =
    received dev a ++ sent (test_usb1_read dev cnt a copied).0 calls

-- Every message fits in the buffer.
abbrev pub Fit : ℕ → List (ℕ × BulkIn × Bool) → Type 0
Fit size [] = Unit
Fit size ((cnt, a, copied) ∷ calls) = (length a.bytes ≤ size) × Fit size calls

-- Any sequence of reads on a valid device, with messages that fit in its buffer, is a stream: what
-- the user gets, followed by what is unread at the end, is what was unread at the start, followed by
-- the bytes that the device has sent, in order, whatever the counts and whichever copies fail.
pub reads_stream :
    (dev : TestUsb1Device) (calls : List (ℕ × BulkIn × Bool))
    → IsValid dev
    → Fit dev.in_buf_size calls
    → let (bytes, last) = reads dev calls in bytes ++ unread last ≡ unread dev ++ sent dev calls
reads_stream dev [] v fit = sym (append-nil (unread dev))
reads_stream dev ((cnt, a, copied) ∷ calls) v (fit, fits) =
    let c = test_usb1_read-Conserves dev cnt a copied v fit in
    let (dev', r) = test_usb1_read dev cnt a copied in
    let (bytes, last) = reads dev' calls in
    (r.handed ++ bytes) ++ unread last
    ≡⟨ append_assoc r.handed bytes (unread last) ⟩ r.handed ++ (bytes ++ unread last)
    ≡⟨ ap (λ l. r.handed ++ l)
        (reads_stream dev' calls c.valid (subst (λ n. Fit n calls) (sym c.same_size) fits)) ⟩
      r.handed ++ (unread dev' ++ sent dev' calls)
    ≡⟨ sym (append_assoc r.handed (unread dev') (sent dev' calls)) ⟩
      (r.handed ++ unread dev') ++ sent dev' calls
    ≡⟨ ap (λ l. l ++ sent dev' calls) (sym c.split) ⟩
      (unread dev ++ received dev a) ++ sent dev' calls
    ≡⟨ append_assoc (unread dev) (received dev a) (sent dev' calls) ⟩
      unread dev ++ (received dev a ++ sent dev' calls) ∎
