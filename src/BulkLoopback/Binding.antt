-- ===== src/BulkLoopback/Binding.antt =====
-- What `test_usb1_probe` and `test_usb1_disconnect` of USB/usbdrv4.c leave taken.
use linux_kernel_development.Prelude.{
  pos, ◌≢◌, eq_ℤ, if-intro, ap, ap₂, ℕ, ◌+◌, ◌≤◌, ◌≡◌, ◌==◌, refl, Bool, true, false, ◌&&◌, List,
  [], ◌∷◌, ◌++◌, some, if◌then◌else◌, ℤ, arith, ◌∙◌, sym,
}
use linux_kernel_development.Kernel.Ledger.{
  Resource, taken, given, Events, memory, read_buffer, out_buffer, minor_number, same, outstanding,
  Settled, outstanding-append,
}
use linux_kernel_development.BulkLoopback.Probe.{
  Endpoint, ep_in, ep_out, Bound, cleared, Looked, goes_on, no_memory, look_in, look_out, and_then,
  look_endpoints, Probed, bound_to, refused, null_read, frees, register_minor, test_usb1_probe,
  test_usb1_disconnect,
}

abbrev pub bit : Bool → ℕ
bit true = 1
bit false = 0

-- How many endpoints of an interface have an address.
abbrev pub at_address : ℕ → List Endpoint → ℕ
at_address a [] = 0
at_address a (e ∷ es) = bit (e.b_endpoint_address == a) + at_address a es

-- What the fields of the device say is taken.
abbrev held : Bound → Resource → ℕ
held b r =
    bit (same r memory)
    + bit (same r read_buffer && b.in_set)
    + bit (same r out_buffer && b.out_set)

abbrev Holds : Bound → Type 0
Holds b = (r : Resource) → outstanding r 0 b.log ≡ some (held b r)

outstanding-taken :
    (r s : Resource) (n : ℕ) (log : Events)
    → outstanding r 0 log ≡ some n
    → outstanding r 0 (log ++ (taken s ∷ [])) ≡ some (if same r s then n + 1 else n)
unfolding outstanding
outstanding-taken r s n log h = outstanding-append r 0 n log (taken s ∷ []) h

-- What is left of what the device holds once it is freed is nothing.
frees_settle : (r : Resource) (b : Bound) → outstanding r (held b r) (frees b) ≡ some 0
unfolding outstanding
frees_settle memory b = ground arith
frees_settle _ b = ground arith

freed_settle :
    (r : Resource) (b : Bound)
    → outstanding r 0 b.log ≡ some (held b r)
    → outstanding r 0 (b.log ++ frees b) ≡ some 0
freed_settle r b h = outstanding-append r 0 (held b r) b.log (frees b) h ∙ frees_settle r b

-- What is claimed of the loop: the fields say what is taken.
abbrev Kept : Looked → Type 0
Kept (goes_on b) = Holds b
Kept (no_memory b) = Holds b

held-in_taken :
    (r : Resource) (b : Bound) (k : Bool) (size : ℕ) (log : Events)
    → b.in_set ≡ false
    → k ≡ true
    → (if same r read_buffer then held b r + 1 else held b r)
      ≡ held (record b { in_set = k; in_buf_size = size; log = log }) r
held-in_taken memory b k size log e h = ground arith
held-in_taken _ b k size log e h = ground arith

held-out_taken :
    (r : Resource) (b : Bound) (k : Bool) (size : ℕ) (log : Events)
    → b.out_set ≡ false
    → k ≡ true
    → (if same r out_buffer then held b r + 1 else held b r)
      ≡ held (record b { out_set = k; out_buf_size = size; log = log }) r
held-out_taken memory b k size log e h = ground arith
held-out_taken _ b k size log e h = ground arith

module _ (e : Endpoint) (b : Bound) (h : Holds b) where
  look_in-Kept : ((e.b_endpoint_address == ep_in) ≡ true → b.in_set ≡ false) → Kept (look_in e b)
  unfolding look_in
  look_in-Kept clear =
      if-intro Kept (e.b_endpoint_address == ep_in) _ _
        (λ here.
          if-intro Kept e.kmalloc_ok _ _
            (λ got r.
              outstanding-taken r read_buffer (held b r) b.log (h r)
              ∙ ap some (held-in_taken r b e.kmalloc_ok e.w_max_packet_size b.log (clear here) got))
            (λ missed r.
              h r
              ∙ ap some (
                  ap₂ (λ x y. bit (same r memory) + bit (same r read_buffer && x) + y)
                    (clear here ∙ sym missed) refl)))
        (λ _. h)

  look_out-Kept :
      ((e.b_endpoint_address == ep_out) ≡ true → b.out_set ≡ false) → Kept (look_out e b)
  unfolding look_out
  look_out-Kept clear =
      if-intro Kept (e.b_endpoint_address == ep_out) _ _
        (λ here.
          if-intro Kept e.kmalloc_ok _ _
            (λ got r.
              outstanding-taken r out_buffer (held b r) b.log (h r)
              ∙ ap some
                  (held-out_taken r b e.kmalloc_ok e.w_max_packet_size b.log (clear here) got))
            (λ missed r.
              h r
              ∙ ap some (
                  ap
                    (λ x.
                      bit (same r memory)
                      + bit (same r read_buffer && b.in_set)
                      + bit (same r out_buffer && x))
                    (clear here ∙ sym missed))))
        (λ _. h)

-- No address comes again after its buffer is there.
abbrev Once : Bound → List Endpoint → Type 0
Once b es = (bit b.in_set + at_address ep_in es ≤ 1) × (bit b.out_set + at_address ep_out es ≤ 1)

abbrev Goes : (Bound → Type 0) → Looked → Type 0
Goes P (goes_on b) = P b
Goes P (no_memory b) = Unit

look_in-Once :
    (e : Endpoint) (es : List Endpoint) (b : Bound)
    → Once b (e ∷ es)
    → Goes (λ c. (bit c.in_set + at_address ep_in es ≤ 1) × (c.out_set ≡ b.out_set)) (look_in e b)
unfolding look_in
look_in-Once e es b o = ground arith

look_out-Once :
    (e : Endpoint) (es : List Endpoint) (b : Bound)
    → bit b.out_set + at_address ep_out (e ∷ es) ≤ 1
    → Goes (λ c. (bit c.out_set + at_address ep_out es ≤ 1) × (c.in_set ≡ b.in_set)) (look_out e b)
unfolding look_out
look_out-Once e es b o = ground arith

and_then-Kept :
    (P : Bound → Type 0) (l : Looked) (f : Bound → Looked)
    → Kept l
    → Goes P l
    → ((c : Bound) → Holds c → P c → Kept (f c))
    → Kept (and_then l f)
and_then-Kept P (goes_on b) f k g next = next b k g
and_then-Kept P (no_memory b) f k g next = k

look_endpoints-Kept :
    (es : List Endpoint) (b : Bound) → Once b es → Holds b → Kept (look_endpoints es b)
unfolding look_endpoints
look_endpoints-Kept [] b o h = h
look_endpoints-Kept (e ∷ es) b o h =
    and_then-Kept (λ c. (bit c.in_set + at_address ep_in es ≤ 1) × (c.out_set ≡ b.out_set))
      (look_in e b) (λ c. and_then (look_out e c) (λ d. look_endpoints es d))
      (look_in-Kept e b h (λ here. ground arith)) (look_in-Once e es b o)
      (λ c hc (oc, same_out).
        and_then-Kept (λ d. (bit d.out_set + at_address ep_out es ≤ 1) × (d.in_set ≡ c.in_set))
          (look_out e c) (λ d. look_endpoints es d) (look_out-Kept e c hc (λ here. ground arith))
          (look_out-Once e es c (ground arith))
          (λ d hd (od, same_in). look_endpoints-Kept es d (ground arith, od) hd))

cleared-Holds : Holds cleared
unfolding outstanding
cleared-Holds memory = refl
cleared-Holds _ = refl

-- What is claimed of a probe: what it does not keep it has given back, once, and what it keeps goes
-- with the disconnect.
abbrev pub Balanced : Probed → Type 0
Balanced (bound_to b) = Settled (b.log ++ test_usb1_disconnect b)
Balanced (refused retval log) = Settled log × (retval ≢ pos 0)
Balanced null_read = ⊥

minor_settle :
    (r : Resource) (b : Bound)
    → outstanding r
        (if same r minor_number then held b r + 1 else held b r)
        (given minor_number ∷ frees b)
      ≡ some 0
unfolding outstanding
minor_settle memory b = ground arith
minor_settle _ b = ground arith

bound-settle :
    (r : Resource) (b : Bound)
    → outstanding r 0 b.log ≡ some (held b r)
    → outstanding r 0 ((b.log ++ (taken minor_number ∷ [])) ++ (given minor_number ∷ frees b))
      ≡ some 0
bound-settle r b h =
    outstanding-append r 0 (if same r minor_number then held b r + 1 else held b r)
      (b.log ++ (taken minor_number ∷ [])) (given minor_number ∷ frees b)
      (outstanding-taken r minor_number (held b r) b.log h)
    ∙ minor_settle r b

register_minor-Balanced :
    (register : ℤ) (l : Looked) → Kept l → Balanced (register_minor register l)
unfolding register_minor test_usb1_disconnect
register_minor-Balanced register (no_memory b) k = (λ r. freed_settle r b (k r), λ e. cc e)
register_minor-Balanced register (goes_on b) k =
    if-intro Balanced (eq_ℤ register (pos 0)) _ _ (λ _. λ r. bound-settle r b (k r))
      (λ failed. (λ r. freed_settle r b (k r), λ e. ground arith))

-- What is claimed of a probe with and without memory for the device.
abbrev pub ProbeEnds : Bool → Probed → Type 0
ProbeEnds true p = Balanced p
ProbeEnds false p = p ≡ null_read

-- A probe of an interface with at most one endpoint at each of the two addresses: with memory for the
-- device, it either returns an error and has given back, once, all that it took, or leaves a device
-- whose disconnect gives back, once, all that the probe took; without, it reads through NULL.
pub test_usb1_probe-Balanced :
    (kzalloc_ok : Bool) (es : List Endpoint) (register : ℤ)
    → at_address ep_in es ≤ 1
    → at_address ep_out es ≤ 1
    → ProbeEnds kzalloc_ok (test_usb1_probe kzalloc_ok es register)
unfolding test_usb1_probe
test_usb1_probe-Balanced false es register one_in one_out = refl
test_usb1_probe-Balanced true es register one_in one_out =
    register_minor-Balanced register (look_endpoints es cleared)
      (look_endpoints-Kept es cleared (omega arith, omega arith) cleared-Holds)
