-- ===== src/UsbMouse/Reports.antt =====
-- The URB of USB/usbdrv1.c: `usb_mouse_irq`, `usb_mouse_open` and `usb_mouse_close`. The buttons are only
-- printed.
use linux_kernel_development.Prelude.{
  ap, inr, ◌∙◌, inl, Bool-cases, ◌+◌, ℕ, Bool, true, false, not, ◌||◌, ◌&&◌, List, [], ◌∷◌, get_or,
  if◌then◌else◌, ℤ, pos, negsuc, eq_ℤ, neg_errno, enoent, ◌≡◌, refl, arith,
}

-- The pointers that `usb_mouse_open` looks at, whether the URB is in flight, `current_data`, and how
-- many reports the input core was told to end.
pub record Mouse : Type 0 where
  pub has_mouse : Bool
  pub has_usbdev : Bool
  pub has_irq : Bool
  pub in_flight : Bool
  pub current_data : ℕ
  pub synced : ℕ

abbrev pub econnreset : ℤ
econnreset = neg_errno 104

abbrev pub eshutdown : ℤ
eshutdown = neg_errno 108

-- The statuses of a URB that was unlinked.
abbrev pub unlinked : ℤ → Bool
unlinked status = eq_ℤ status econnreset || (eq_ℤ status enoent || eq_ℤ status eshutdown)

abbrev pub usb_submit_urb : Mouse → ℤ → Mouse
usb_submit_urb m submit = record m { in_flight = eq_ℤ submit (pos 0) }

-- The label `resubmit:`
abbrev pub resubmit : Mouse → List ℕ → ℤ → Mouse
resubmit m bytes submit = record (usb_submit_urb m submit) { current_data = get_or bytes 0 0 }

-- The URB has completed with a status and the bytes of a report, and is no longer in flight; `submit` is
-- what `usb_submit_urb` returns.
unfoldable pub usb_mouse_irq : Mouse → ℤ → List ℕ → ℤ → Mouse
usb_mouse_irq m status bytes submit =
    let completed = record m { in_flight = false } in
    let synced_once = record completed { synced = m.synced + 1 } in
    if eq_ℤ status (pos 0)
    then resubmit synced_once bytes submit
    else (if unlinked status then completed else resubmit completed bytes submit)

unfoldable pub usb_mouse_open : Mouse → ℤ → Mouse × ℤ
usb_mouse_open m submit =
    if not (m.has_mouse && (m.has_usbdev && m.has_irq))
    then (m, negsuc 0)
    else (usb_submit_urb m submit, pos 0)

-- `usb_kill_urb`
unfoldable pub usb_mouse_close : Mouse → Mouse
usb_mouse_close m = record m { in_flight = false }

-- Of `count` bytes, none is read.
unfoldable pub usb_read : ℕ → ℤ
usb_read count = pos 0

-- Completions of the URB one after the other, each with its status, its bytes and what the next
-- submission returns. A URB that is not in flight does not complete.
abbrev pub completions : Mouse → List (ℤ × List ℕ × ℤ) → Mouse
completions m [] = m
completions m ((status, bytes, submit) ∷ rest) =
    let next = completions (usb_mouse_irq m status bytes submit) rest in
    if m.in_flight then next else m

-- Neither unlinked nor refused.
abbrev pub kept_going : List (ℤ × List ℕ × ℤ) → Bool
kept_going [] = true
kept_going ((status, bytes, submit) ∷ rest) =
    (not (unlinked status) && eq_ℤ submit (pos 0)) && kept_going rest

usb_mouse_irq-in_flight :
    (m : Mouse) (status : ℤ) (bytes : List ℕ) (submit : ℤ)
    → (usb_mouse_irq m status bytes submit).in_flight
      ≡ (not (unlinked status) && eq_ℤ submit (pos 0))
unfolding usb_mouse_irq
usb_mouse_irq-in_flight m status bytes submit = ground arith

completions_idle :
    (m : Mouse) (events : List (ℤ × List ℕ × ℤ)) → m.in_flight ≡ false → completions m events ≡ m
completions_idle m [] h = refl
completions_idle m ((status, bytes, submit) ∷ rest) h = ground arith

completions_step :
    (m : Mouse) (status : ℤ) (bytes : List ℕ) (submit : ℤ) (rest : List (ℤ × List ℕ × ℤ))
    → m.in_flight ≡ true
    → completions m ((status, bytes, submit) ∷ rest)
      ≡ completions (usb_mouse_irq m status bytes submit) rest
completions_step m status bytes submit rest h = ground arith

completions-in_flight :
    (m : Mouse) (events : List (ℤ × List ℕ × ℤ))
    → m.in_flight ≡ true
    → (completions m events).in_flight ≡ kept_going events
completions-in_flight m [] h = h
completions-in_flight m ((status, bytes, submit) ∷ rest) h =
    ap (λ (n : Mouse). n.in_flight) (completions_step m status bytes submit rest h)
    ∙ (elim (Bool-cases (not (unlinked status) && eq_ℤ submit (pos 0))) [
      | inl going ↦ rw going (
          completions-in_flight (usb_mouse_irq m status bytes submit) rest
            (usb_mouse_irq-in_flight m status bytes submit ∙ going))
      | inr over ↦
          let idle : (usb_mouse_irq m status bytes submit).in_flight ≡ false =
            usb_mouse_irq-in_flight m status bytes submit ∙ over in
          rw over (
            ap (λ (n : Mouse). n.in_flight)
              (completions_idle (usb_mouse_irq m status bytes submit) rest idle)
            ∙ idle)
    ])

-- Once the mouse is open, with its first submission accepted, its URB is in flight after any sequence
-- of completions exactly if none of them was an unlink and every submission was accepted: an error of
-- a transfer does not stop the reports.
open-in_flight :
    (m : Mouse) (events : List (ℤ × List ℕ × ℤ))
    → m.has_mouse && (m.has_usbdev && m.has_irq) ≡ true
    → (completions (usb_mouse_open m (pos 0)).0 events).in_flight ≡ kept_going events
unfolding usb_mouse_open
open-in_flight m events there =
    rw there (completions-in_flight (usb_submit_urb m (pos 0)) events refl)
