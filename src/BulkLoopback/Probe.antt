-- ===== src/BulkLoopback/Probe.antt =====
-- `test_usb1_probe` and `test_usb1_disconnect` of USB/usbdrv4.c, as the events of a ledger.
use linux_kernel_development.Prelude.{
  ℕ, ◌==◌, Bool, false, not, List, [], ◌∷◌, ◌++◌, if◌then◌else◌, ℤ, pos, eq_ℤ, enomem,
}
use linux_kernel_development.Kernel.Ledger.{
  taken, given, Events, memory, read_buffer, out_buffer, minor_number,
}

-- An endpoint of the interface, and whether `kmalloc` has memory for its buffer.
pub record Endpoint : Type 0 where
  pub b_endpoint_address : ℕ
  pub w_max_packet_size : ℕ
  pub kmalloc_ok : Bool

-- `EP_IN` and `EP_OUT`
abbrev pub ep_in : ℕ
ep_in = 129

abbrev pub ep_out : ℕ
ep_out = 1

-- The fields of the device that the probe sets: whether `in_buf` and `out_buf` are not NULL, and their
-- sizes; with the events so far.
pub record Bound : Type 0 where
  pub in_set : Bool
  pub out_set : Bool
  pub in_buf_size : ℕ
  pub out_buf_size : ℕ
  pub log : Events

-- The loop goes on, or jumps to `probe_err` for lack of memory.
pub data Looked : Type 0 where
  goes_on : Bound → Looked
  no_memory : Bound → Looked

unfoldable pub look_in : Endpoint → Bound → Looked
look_in e b =
    let sized = record b { in_set = e.kmalloc_ok; in_buf_size = e.w_max_packet_size } in
    if e.b_endpoint_address == ep_in
    then (if e.kmalloc_ok
        then goes_on (record sized { log = b.log ++ (taken read_buffer ∷ []) })
        else no_memory sized)
    else goes_on b

unfoldable pub look_out : Endpoint → Bound → Looked
look_out e b =
    let sized = record b { out_set = e.kmalloc_ok; out_buf_size = e.w_max_packet_size } in
    if e.b_endpoint_address == ep_out
    then (if e.kmalloc_ok
        then goes_on (record sized { log = b.log ++ (taken out_buffer ∷ []) })
        else no_memory sized)
    else goes_on b

-- What follows a step of the loop that goes on.
abbrev pub and_then : Looked → (Bound → Looked) → Looked
and_then (goes_on b) f = f b
and_then (no_memory b) f = no_memory b

unfoldable pub look_endpoints : List Endpoint → Bound → Looked
look_endpoints [] b = goes_on b
look_endpoints (e ∷ es) b =
    and_then (look_in e b) (λ c. and_then (look_out e c) (λ d. look_endpoints es d))

-- What the probe leaves: a device, an error, or a read through a NULL pointer.
pub data Probed : Type 0 where
  bound_to : Bound → Probed
  refused : ℤ → Events → Probed
  null_read : Probed

-- The frees of the buffers and of the device, in the order of `probe_err` and of the disconnect.
abbrev pub frees : Bound → Events
frees b =
    (if b.out_set then given out_buffer ∷ [] else [])
    ++ ((if b.in_set then given read_buffer ∷ [] else []) ++ (given memory ∷ []))

abbrev pub probe_err : ℤ → Bound → Probed
probe_err retval b = refused retval (b.log ++ frees b)

-- `register` is what `usb_register_dev` returns.
unfoldable pub register_minor : ℤ → Looked → Probed
register_minor register (no_memory b) = probe_err enomem b
register_minor register (goes_on b) =
    if eq_ℤ register (pos 0)
    then bound_to (record b { log = b.log ++ (taken minor_number ∷ []) })
    else probe_err register b

-- The memory of the device is cleared.
abbrev pub cleared : Bound
cleared = record {
  in_set = false;
  out_set = false;
  in_buf_size = 0;
  out_buf_size = 0;
  log = taken memory ∷ [];
}

-- Without memory, `probe_err` reads the fields of a device that is NULL.
unfoldable pub test_usb1_probe : Bool → List Endpoint → ℤ → Probed
unfolding register_minor look_endpoints
test_usb1_probe kzalloc_ok es register =
    if not kzalloc_ok then null_read else register_minor register (look_endpoints es cleared)

unfoldable pub test_usb1_disconnect : Bound → Events
test_usb1_disconnect b = given minor_number ∷ frees b
