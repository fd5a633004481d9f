-- ===== src/BulkLoopback/Write.antt =====
-- `test_usb1_write` of USB/usbdrv4.c.
use linux_kernel_development.Prelude.{
  ℕ, ◌+◌, ◌-◌, ◌≤◌, ◌≡◌, refl, min, ltb, Bool, true, false, not, List, [], ◌∷◌, ◌++◌, take, drop,
  length, if◌then◌else◌, ℤ, pos, is_neg, efault, arith, ap, ◌∙◌, take-add, length-take, length-drop,
  take-take, take-all, take-append_le, dec_lt,
}
use linux_kernel_development.BulkLoopback.{TestUsb1Device, overwrite}

-- What a round of the loop meets: whether `copy_from_user` succeeds, what `usb_bulk_msg` returns, and
-- how many bytes of those asked for it counts in `wrote_size`.
pub record BulkOut : Type 0 where
  pub copied : Bool
  pub retval : ℤ
  pub wrote_size : ℕ → ℕ

-- A write that has returned, and one that is still in its loop when the rounds are over. `sent` is
-- what the rounds that succeeded have counted as written.
pub data Wrote : Type 0 where
  returned : TestUsb1Device → ℤ → List ℕ → Wrote
  looping : TestUsb1Device → List ℕ → Wrote

abbrev pub write_size : TestUsb1Device → List ℕ → ℕ → ℕ
write_size dev buf wrote_cnt = min dev.out_buf_size (length buf - wrote_cnt)

-- `copy_from_user` into `out_buf`.
abbrev pub fill_out : TestUsb1Device → List ℕ → ℕ → TestUsb1Device
fill_out dev buf wrote_cnt = record dev {
  out_buf = overwrite (take (write_size dev buf wrote_cnt) (drop wrote_cnt buf)) dev.out_buf;
}

unfoldable pub write_loop : TestUsb1Device → List ℕ → ℕ → List ℕ → List BulkOut → Wrote
write_loop dev buf wrote_cnt sent [] =
    if ltb wrote_cnt (length buf) then looping dev sent else returned dev (pos wrote_cnt) sent
write_loop dev buf wrote_cnt sent (r ∷ rounds) =
    let size = write_size dev buf wrote_cnt in
    let wrote = r.wrote_size size in
    let filled = fill_out dev buf wrote_cnt in
    let rest =
      write_loop filled buf (wrote_cnt + wrote) (sent ++ take wrote filled.out_buf) rounds in
    if not (ltb wrote_cnt (length buf))
    then returned dev (pos wrote_cnt) sent
    else (if not r.copied
        then returned dev efault sent
        else (if is_neg r.retval then returned filled r.retval sent else rest))

unfoldable pub test_usb1_write : TestUsb1Device → List ℕ → List BulkOut → Wrote
unfolding write_loop
test_usb1_write dev buf rounds = write_loop dev buf 0 [] rounds

-- A round that the device accepts: no error, at most the bytes asked for, and at least one.
pub record Accepts (r : BulkOut) : Type 0 where
  pub copied_in : r.copied ≡ true
  pub no_error : is_neg r.retval ≡ false
  pub at_most : (n : ℕ) → r.wrote_size n ≤ n
  pub some_bytes : (n : ℕ) → 1 ≤ n → 1 ≤ r.wrote_size n

abbrev pub AllAccept : List BulkOut → Type 0
AllAccept [] = Unit
AllAccept (r ∷ rounds) = Accepts r × AllAccept rounds

-- The bytes of a round are those that come next.
round_bytes :
    (dev : TestUsb1Device) (buf : List ℕ) (wrote_cnt n : ℕ)
    → n ≤ write_size dev buf wrote_cnt
    → take n (fill_out dev buf wrote_cnt).out_buf ≡ take n (drop wrote_cnt buf)
round_bytes dev buf wrote_cnt n h =
    let size = write_size dev buf wrote_cnt in
    let left = drop wrote_cnt buf in
    let same : min size n ≡ n = omega arith in
    take-append_le n (take size left) (drop (length (take size left)) dev.out_buf)
      (omega (arith, length-take size left, length-drop wrote_cnt buf))
    ∙ take-take n size left
    ∙ ap (λ k. take k left) same

write_over :
    (dev : TestUsb1Device) (buf : List ℕ) (wrote_cnt : ℕ)
    → wrote_cnt ≡ length buf
    → returned dev (pos wrote_cnt) (take wrote_cnt buf) ≡ returned dev (pos (length buf)) buf
write_over dev buf wrote_cnt e = rw (e, take-all (length buf) buf (omega arith)) refl

write_loop_sends :
    (dev : TestUsb1Device) (buf : List ℕ) (wrote_cnt : ℕ) (rounds : List BulkOut)
    → 1 ≤ dev.out_buf_size
    → AllAccept rounds
    → wrote_cnt ≤ length buf
    → length buf ≤ wrote_cnt + length rounds
    → (dev' : TestUsb1Device) × (write_loop dev buf wrote_cnt (take wrote_cnt buf) rounds
        ≡ returned dev' (pos (length buf)) buf)
unfolding write_loop
write_loop_sends dev buf wrote_cnt [] big ok le enough =
    let over : ltb wrote_cnt (length buf) ≡ false = ground arith in
    rw over (dev, write_over dev buf wrote_cnt (omega arith))
write_loop_sends dev buf wrote_cnt (r ∷ rounds) big (ok, oks) le enough =
    let size = write_size dev buf wrote_cnt in
    let wrote = r.wrote_size size in
    elim (dec_lt wrote_cnt (length buf)) [
      | no done ↦
          let over : ltb wrote_cnt (length buf) ≡ false = ground arith in
          rw over (dev, write_over dev buf wrote_cnt (omega arith))
      | yes more ↦
          let going : ltb wrote_cnt (length buf) ≡ true = ground arith in
          let bytes : take wrote_cnt buf ++ take wrote (fill_out dev buf wrote_cnt).out_buf
              ≡ take (wrote_cnt + wrote) buf =
            ap (λ l. take wrote_cnt buf ++ l)
              (round_bytes dev buf wrote_cnt wrote (ok.at_most size))
            ∙ take-add wrote_cnt wrote buf in
          rw (going, ok.copied_in, ok.no_error, bytes)
            (write_loop_sends (fill_out dev buf wrote_cnt) buf (wrote_cnt + wrote) rounds big oks
              (omega (arith, ok.at_most size)) (omega (arith, ok.some_bytes size (omega arith))))
    ]

-- A write to a device that has room for at least one byte in its buffer, in as many rounds as there
-- are bytes, each of which the device accepts, returns the number of the bytes, all of which the device
-- has got, once and in order, whatever part of each message it takes.
pub test_usb1_write_sends :
    (dev : TestUsb1Device) (buf : List ℕ) (rounds : List BulkOut)
    → 1 ≤ dev.out_buf_size
    → AllAccept rounds
    → length buf ≤ length rounds
    → (dev' : TestUsb1Device) × (test_usb1_write dev buf rounds
        ≡ returned dev' (pos (length buf)) buf)
unfolding test_usb1_write
test_usb1_write_sends dev buf rounds big oks enough =
    write_loop_sends dev buf 0 rounds big oks (omega arith) (omega arith)
