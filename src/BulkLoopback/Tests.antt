-- ===== src/BulkLoopback/Tests.antt =====
-- The theorems on USB/usbdrv4.c at concrete inputs, and runs of its definitions.
use linux_kernel_development.Prelude.{
  ℕ, ◌≡◌, refl, true, false, List, [], ◌∷◌, ◌++◌, replicate, pos, negsuc, efault, arith, Bool, min,
}
use linux_kernel_development.BulkLoopback.{TestUsb1Device, IsValid}
use linux_kernel_development.BulkLoopback.Read.{BulkIn, fetch, move_down, hand_over, test_usb1_read}
use linux_kernel_development.BulkLoopback.Stream.{unread, reads, sent, reads_stream}
use linux_kernel_development.BulkLoopback.Write.{
  BulkOut, returned, test_usb1_write, Accepts, test_usb1_write_sends,
}
use linux_kernel_development.BulkLoopback.Probe.{Endpoint, null_read, test_usb1_probe}
use linux_kernel_development.BulkLoopback.Binding.{Balanced, test_usb1_probe-Balanced}
use linux_kernel_development.BulkLoopback.Sharing.{
  Binding, test_usb1_open, disconnect_starts, opens, starts, here, then_step, Exclusive,
  Reach-Exclusive,
}

-- Buffers of four bytes, two bytes of the last message left over.
abbrev four : TestUsb1Device
four = record {
  in_buf_size = 4;
  out_buf_size = 4;
  in_buf = 1 ∷ 2 ∷ 3 ∷ 4 ∷ [];
  out_buf = replicate 4 0;
  in_buf_left_over = 2;
  locked = true;
}

four-IsValid : IsValid four
four-IsValid = record { in_size = refl; out_size = refl; left_over_in = omega arith }

abbrev message : BulkIn
message = record { retval = pos 0; bytes = 7 ∷ 8 ∷ 9 ∷ [] }

abbrev late : BulkIn
late = record { retval = negsuc 109; bytes = [] }

-- Two short reads, a copy that fails, a read of the rest, and a message read in two parts.
abbrev calls : List (ℕ × BulkIn × Bool)
calls =
    (1, late, true)
    ∷ (5, late, false)
    ∷ (5, late, true)
    ∷ (2, message, true)
    ∷ (9, message, true)
    ∷ []

reads_stream_example :
    let (bytes, last) = reads four calls in bytes ++ unread last ≡ unread four ++ sent four calls
reads_stream_example =
    reads_stream four calls four-IsValid
      (omega arith, (omega arith, (omega arith, (omega arith, (omega arith, tt)))))

reads_all : (reads four calls).0 ≡ 1 ∷ 2 ∷ 7 ∷ 8 ∷ 9 ∷ []
unfolding test_usb1_read fetch hand_over move_down
reads_all = refl

failed_copy : (test_usb1_read four 1 message false).1.rv ≡ efault
unfolding test_usb1_read fetch hand_over
failed_copy = refl

-- A round that takes at most three bytes.
abbrev three : BulkOut
three = record { copied = true; retval = pos 0; wrote_size = λ n. min 3 n }

three-Accepts : Accepts three
three-Accepts = record {
  copied_in = refl;
  no_error = refl;
  at_most = λ n. omega arith;
  some_bytes = λ n h. omega arith;
}

test_usb1_write_sends_example :
    (dev' : TestUsb1Device) × (test_usb1_write four (5 ∷ 6 ∷ 7 ∷ 8 ∷ []) (replicate 4 three)
      ≡ returned dev' (pos 4) (5 ∷ 6 ∷ 7 ∷ 8 ∷ []))
test_usb1_write_sends_example =
    test_usb1_write_sends four (5 ∷ 6 ∷ 7 ∷ 8 ∷ []) (replicate 4 three) (omega arith)
      (three-Accepts, (three-Accepts, (three-Accepts, (three-Accepts, tt)))) (omega arith)

-- A loop-back device whose second buffer finds no memory.
abbrev endpoints : List Endpoint
endpoints =
    record { b_endpoint_address = 129; w_max_packet_size = 64; kmalloc_ok = true }
    ∷ record { b_endpoint_address = 1; w_max_packet_size = 64; kmalloc_ok = false }
    ∷ []

test_usb1_probe-Balanced_example : Balanced (test_usb1_probe true endpoints (pos 0))
test_usb1_probe-Balanced_example =
    test_usb1_probe-Balanced true endpoints (pos 0) (omega arith) (omega arith)

-- Without memory for the device the probe reads through NULL.
null_device : test_usb1_probe false endpoints (pos 0) ≡ null_read
unfolding test_usb1_probe
null_device = refl

abbrev idle : Binding
idle = record {
  dev = record four { locked = false };
  bound = true;
  leaving = false;
  freed = false;
  files = 0;
}

idle-Exclusive : Exclusive idle
idle-Exclusive = record {
  one_file = refl;
  gone = λ freed. cc freed;
  bound_only = λ leaving. cc leaving;
}

-- Opened, refused a second time, and then disconnected.
Reach-Exclusive_example : Exclusive (disconnect_starts (test_usb1_open (test_usb1_open idle).0).0)
unfolding test_usb1_open
Reach-Exclusive_example =
    Reach-Exclusive {s = idle} (then_step (then_step (then_step here opens) opens) (starts refl))
      idle-Exclusive
