-- ===== src/UsbSkeleton/References.antt =====
-- The life of a USB/usbdrv3.c device: what a failed probe gives back, and when a device is freed.
use linux_kernel_development.Prelude.{
  ℕ, zero, suc, ◌+◌, ◌≡◌, ◌≢◌, refl, Bool, true, false, Option, none, some, List, [], ◌∷◌, ◌++◌, ℤ,
  pos, eq_ℤ, if◌then◌else◌, if-intro, not, enomem,
}
use linux_kernel_development.Kernel.Ledger.{
  taken, given, Events, Resource, memory, usb_device_ref, interface_ref, read_buffer, read_urb,
  interface_data, minor_number, outstanding, Settled, leaves, nothing, outstanding_of_leaves,
}
use linux_kernel_development.UsbSkeleton.{UsbSkel}
use linux_kernel_development.UsbSkeleton.Write.{Drained}
use linux_kernel_development.UsbSkeleton.Lifecycle.{
  skel_delete, ProbeAnswers, Probed, probe_error, probe_with_buffer, probe_buffer, skel_probe,
  skel_open, skel_release, skel_disconnect,
}

-- What is claimed of a failed probe.
abbrev GivesBack : Probed → Type 0
GivesBack p = p.rv ≢ pos 0 → (p.dev ≡ none) × Settled p.log

error-GivesBack :
    (log : Events) (urb buffer : Bool) (rv : ℤ)
    → leaves nothing (log ++ skel_delete urb buffer) ≡ true
    → GivesBack (probe_error log urb buffer rv)
unfolding probe_error
error-GivesBack log urb buffer rv h failed =
    (refl, outstanding_of_leaves nothing (log ++ skel_delete urb buffer) h)

-- What has been taken before each of the later jumps to `error:`.
abbrev pub before_endpoints : Events
before_endpoints = taken memory ∷ taken usb_device_ref ∷ taken interface_ref ∷ []

abbrev pub with_buffer : Events
with_buffer = before_endpoints ++ taken read_buffer ∷ []

abbrev pub with_urb : Events
with_urb = with_buffer ++ taken read_urb ∷ []

probe_with_buffer-GivesBack :
    (a : ProbeAnswers) (buf : List ℕ) → GivesBack (probe_with_buffer a with_buffer buf)
unfolding probe_with_buffer skel_delete leaves
probe_with_buffer-GivesBack a buf =
    if-intro GivesBack (not a.urb_allocated) _ _
      (λ _. error-GivesBack with_buffer false true enomem refl)
      (λ _.
        if-intro GivesBack (eq_ℤ a.register_rv (pos 0)) _ _ (λ _ failed. absurd (failed refl))
          (λ _.
            error-GivesBack (with_urb ++ taken interface_data ∷ given interface_data ∷ []) true true
              a.register_rv refl))

probe_buffer-GivesBack :
    (a : ProbeAnswers) (buffer : Option (List ℕ))
    → GivesBack (probe_buffer a before_endpoints buffer)
unfolding probe_buffer skel_delete leaves
probe_buffer-GivesBack a none = error-GivesBack before_endpoints false false enomem refl
probe_buffer-GivesBack a (some buf) = probe_with_buffer-GivesBack a buf

-- A probe that returns an error leaves no device and has given back all that it took, once.
pub skel_probe-Settled :
    (a : ProbeAnswers)
    → (skel_probe a).rv ≢ pos 0
    → ((skel_probe a).dev ≡ none) × Settled (skel_probe a).log
unfolding skel_probe skel_delete leaves
skel_probe-Settled a =
    if-intro GivesBack (not a.allocated) _ _
      (λ _ failed. (refl, outstanding_of_leaves nothing [] refl))
      (λ _.
        if-intro GivesBack (eq_ℤ a.endpoints_rv (pos 0)) _ _
          (λ _. probe_buffer-GivesBack a a.buffer)
          (λ _. error-GivesBack before_endpoints false false a.endpoints_rv refl))

-- A device, the files that are open on it, whether it is bound to the driver, and the events so far.
pub record Life : Type 0 where
  pub dev : UsbSkel
  pub opens : ℕ
  pub bound : Bool
  pub log : Events

-- A file is opened while the device is bound, since its interface is found only then; an open file is
-- closed; a bound device is disconnected.
pub data LifeStep : Life → Life → Type 0 where
  opened :
      {l : Life}
      → l.bound ≡ true
      → LifeStep l (record l { dev = (skel_open l.dev true true (pos 0)).0; opens = suc l.opens })
  closed :
      {l : Life} {n : ℕ}
      → l.opens ≡ suc n
      → LifeStep l (record l {
        dev = (skel_release l.dev).0;
        opens = n;
        log = l.log ++ (skel_release l.dev).1;
      })
  unplugged :
      {l : Life} (e : Drained)
      → l.bound ≡ true
      → LifeStep l (record l {
        dev = (skel_disconnect l.dev e).0;
        bound = false;
        log = l.log ++ (skel_disconnect l.dev e).1;
      })

-- The lives of a device from a successful probe on.
pub data Lives (a : ProbeAnswers) : Life → Type 0 where
  probed :
      {dev : UsbSkel}
      → (skel_probe a).dev ≡ some dev
      → Lives a (record { dev = dev; opens = 0; bound = true; log = (skel_probe a).log })
  later : {l m : Life} → Lives a l → LifeStep l m → Lives a m

-- 1 while there are references.
abbrev pub while_referenced : ℕ → ℕ
while_referenced zero = 0
while_referenced (suc refs) = 1

-- What the driver holds of each resource in such a life.
abbrev pub holding : ℕ → Bool → Resource → ℕ
holding refs bound memory = while_referenced refs
holding refs bound usb_device_ref = while_referenced refs
holding refs bound interface_ref = while_referenced refs
holding refs bound read_buffer = while_referenced refs
holding refs bound read_urb = while_referenced refs
holding refs bound interface_data = if bound then 1 else 0
holding refs bound minor_number = if bound then 1 else 0
holding refs bound r = 0

pub record IsLife (l : Life) : Type 0 where
  pub referenced : l.dev.kref ≡ l.opens + (if l.bound then 1 else 0)
  pub ledger : (r : Resource) → outstanding r 0 l.log ≡ some (holding l.dev.kref l.bound r)
