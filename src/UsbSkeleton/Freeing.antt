-- ===== src/UsbSkeleton/Freeing.antt =====
-- When a USB/usbdrv3.c device is freed: as soon as no file has it open and it is not bound, and once.
use linux_kernel_development.Prelude.{
  ℕ, zero, suc, ◌+◌, ◌-◌, ◌≡◌, ◌∙◌, ap, refl, Bool, true, false, Option, none, some, List, [], ◌∷◌,
  ◌++◌, ℤ, pos, eq_ℤ, ◌==◌, if◌then◌else◌, arith, sym, if-intro, not, ◌↔◌,
}
use linux_kernel_development.Kernel.Ledger.{
  given, Events, Resource, memory, interface_data, minor_number, region, outstanding,
  outstanding-append, leaves, outstanding_of_leaves, taken, Settled,
}
use linux_kernel_development.UsbSkeleton.{UsbSkel, Completion, skel_read_bulk_callback}
use linux_kernel_development.UsbSkeleton.Read.{settle}
use linux_kernel_development.UsbSkeleton.Write.{
  Drained, skel_draw_down, complete_write, complete_writes,
}
use linux_kernel_development.UsbSkeleton.Lifecycle.{
  skel_delete, ProbeAnswers, Probed, probe_error, probe_with_buffer, probe_buffer, skel_probe,
  skel_open, put_device, skel_release, skel_disconnect,
}
use linux_kernel_development.UsbSkeleton.References.{
  Life, LifeStep, opened, closed, unplugged, Lives, probed, later, holding, IsLife,
  while_referenced, with_buffer, with_urb, before_endpoints,
}

-- One reference more or fewer makes no difference while there is another.
holding-suc : (k : ℕ) (b : Bool) (r : Resource) → holding (suc (suc k)) b r ≡ holding (suc k) b r
holding-suc k b region = refl
holding-suc k b _ = refl

delete-holding :
    (b : Bool) (r : Resource)
    → outstanding r (holding 1 b r) (skel_delete true true) ≡ some (holding 0 b r)
unfolding outstanding skel_delete
delete-holding b region = refl
delete-holding b _ = refl

-- What `kref_put` gives back takes the holdings at one count to those at the next.
put-holding :
    (k : ℕ) (b : Bool) (r : Resource)
    → outstanding r (holding (suc k) b r) (if k == 0 then skel_delete true true else [])
      ≡ some (holding k b r)
unfolding outstanding
put-holding zero b r = delete-holding b r
put-holding (suc k) b r =
    let more : (suc k == 0) ≡ false = ground arith in rw (more, holding-suc k b r)

unbind-holding :
    (k : ℕ) (r : Resource)
    → outstanding r (holding k true r) (given interface_data ∷ given minor_number ∷ [])
      ≡ some (holding k false r)
unfolding outstanding
unbind-holding k region = refl
unbind-holding k _ = refl

put_device-kref : (dev : UsbSkel) (k : ℕ) → dev.kref ≡ suc k → (put_device dev).0.kref ≡ k
unfolding put_device
put_device-kref dev k e = omega arith

put_device-ledger :
    (dev : UsbSkel) (k : ℕ) (b : Bool) (r : Resource)
    → dev.kref ≡ suc k
    → outstanding r (holding (suc k) b r) (put_device dev).1 ≡ some (holding k b r)
unfolding put_device
put_device-ledger dev k b r e =
    let less : dev.kref - 1 ≡ k = omega arith in rw less (put-holding k b r)

complete_writes-kref : (dev : UsbSkel) (ss : List ℤ) → (complete_writes dev ss).kref ≡ dev.kref
unfolding complete_writes complete_write
complete_writes-kref dev [] = refl
complete_writes-kref dev (s ∷ ss) = complete_writes-kref (complete_write dev s) ss

settle-kref : (dev : UsbSkel) (o : Option Completion) → (settle dev o).kref ≡ dev.kref
unfolding settle skel_read_bulk_callback
settle-kref dev none = refl
settle-kref dev (some c) = ground arith

draw_down-kref : (dev : UsbSkel) (e : Drained) → (skel_draw_down dev e).kref ≡ dev.kref
unfolding skel_draw_down
draw_down-kref dev e =
    settle-kref (complete_writes dev e.writes) e.read ∙ complete_writes-kref dev e.writes

-- The holdings at a count that is known otherwise.
ledger-at :
    (log : Events) (b : Bool) (k m : ℕ) (r : Resource)
    → k ≡ m
    → outstanding r 0 log ≡ some (holding k b r)
    → outstanding r 0 log ≡ some (holding m b r)
ledger-at log b k m r e h = h ∙ ap (λ c. some (holding c b r)) e

LifeStep-IsLife : {l m : Life} → LifeStep l m → IsLife l → IsLife m
unfolding skel_open skel_release skel_disconnect
LifeStep-IsLife {l} (opened bound) i =
    let counted : l.dev.kref ≡ suc l.opens = ground (arith, i.referenced) in
    let after : suc (suc l.opens) ≡ l.dev.kref + 1 = omega arith in
    record {
      referenced = ground (arith, i.referenced);
      ledger = λ r. ledger-at l.log l.bound (suc (suc l.opens)) (l.dev.kref + 1) r after (
          ledger-at l.log l.bound l.dev.kref (suc l.opens) r counted (i.ledger r)
          ∙ ap some (sym (holding-suc l.opens l.bound r)));
    }
LifeStep-IsLife {l} (closed {n = n} open_files) i =
    let k : ℕ = n + (if l.bound then 1 else 0) in
    let counted : l.dev.kref ≡ suc k = ground (arith, i.referenced) in
    let after : k ≡ (put_device l.dev).0.kref = sym (put_device-kref l.dev k counted) in
    record {
      referenced = sym after;
      ledger = λ r.
          ledger-at (l.log ++ (put_device l.dev).1) l.bound k (put_device l.dev).0.kref r after (
            outstanding-append r 0 (holding (suc k) l.bound r) l.log (put_device l.dev).1
              (ledger-at l.log l.bound l.dev.kref (suc k) r counted (i.ledger r))
            ∙ put_device-ledger l.dev k l.bound r counted);
    }
LifeStep-IsLife {l} (unplugged e bound) i =
    let gone : UsbSkel = skel_draw_down (record l.dev { disconnected = true }) e in
    let counted : l.dev.kref ≡ suc l.opens = ground (arith, i.referenced) in
    let same : gone.kref ≡ suc l.opens =
      draw_down-kref (record l.dev { disconnected = true }) e ∙ counted in
    let after : l.opens ≡ (put_device gone).0.kref = sym (put_device-kref gone l.opens same) in
    let unbind : Events = given interface_data ∷ given minor_number ∷ [] in
    record {
      referenced = ground (arith, after);
      ledger = λ r.
          ledger-at (l.log ++ (unbind ++ (put_device gone).1)) false l.opens
            (put_device gone).0.kref r after
            (outstanding-append r 0 (holding (suc l.opens) true r) l.log
                (unbind ++ (put_device gone).1)
                (ledger-at l.log true l.dev.kref (suc l.opens) r counted (rw bound at (i.ledger r)))
              ∙ outstanding-append r (holding (suc l.opens) true r) (holding (suc l.opens) false r)
                  unbind (put_device gone).1 (unbind-holding (suc l.opens) r)
              ∙ put_device-ledger gone l.opens false r same);
    }

-- What is claimed of a probe that leaves a device.
abbrev Attaches : Probed → Type 0
Attaches p =
    (dev : UsbSkel)
    → p.dev ≡ some dev
    → (dev.kref ≡ 1) × ((r : Resource) → outstanding r 0 p.log ≡ some (holding 1 true r))

probe_with_buffer-Attaches :
    (a : ProbeAnswers) (buf : List ℕ) → Attaches (probe_with_buffer a with_buffer buf)
unfolding probe_with_buffer probe_error leaves
probe_with_buffer-Attaches a buf =
    if-intro Attaches (not a.urb_allocated) _ _ (λ _ dev e. cc)
      (λ _.
        if-intro Attaches (eq_ℤ a.register_rv (pos 0)) _ _
          (λ _ dev e. (
            ground arith,
            outstanding_of_leaves (holding 1 true)
                (with_urb ++ taken interface_data ∷ taken minor_number ∷ []) refl,
          ))
          (λ _ dev e. cc))

probe_buffer-Attaches :
    (a : ProbeAnswers) (buffer : Option (List ℕ))
    → Attaches (probe_buffer a before_endpoints buffer)
unfolding probe_buffer probe_error
probe_buffer-Attaches a none dev e = cc
probe_buffer-Attaches a (some buf) dev e = probe_with_buffer-Attaches a buf dev e

skel_probe-Attaches : (a : ProbeAnswers) → Attaches (skel_probe a)
unfolding skel_probe probe_error
skel_probe-Attaches a =
    if-intro Attaches (not a.allocated) _ _ (λ _ dev e. cc)
      (λ _.
        if-intro Attaches (eq_ℤ a.endpoints_rv (pos 0)) _ _ (λ _. probe_buffer-Attaches a a.buffer)
          (λ _ dev e. cc))

Lives-IsLife : {a : ProbeAnswers} {l : Life} → Lives a l → IsLife l
Lives-IsLife {a} (probed {dev} e) =
    let (one, held) = skel_probe-Attaches a dev e in
    record {
      referenced = one;
      ledger = λ r. ledger-at (skel_probe a).log true 1 dev.kref r (sym one) (held r);
    }
Lives-IsLife (later lives st) = LifeStep-IsLife st (Lives-IsLife lives)

-- Whatever opens, closes and disconnection follow a successful probe, the device has given back all
-- that it took, once, exactly when it is not bound and no file has it open; before that the memory of
-- the device is taken, and its count is that of the open files, and one more while it is bound.
pub skel_freed_iff :
    {a : ProbeAnswers} {l : Life}
    → Lives a l
    → (Settled l.log ↔ ((l.opens ≡ 0) × (l.bound ≡ false)))
      × (outstanding memory 0 l.log ≡ some (while_referenced l.dev.kref))
      × (l.dev.kref ≡ l.opens + (if l.bound then 1 else 0))
skel_freed_iff {a} {l} lives = ((unreferenced, settled), i.ledger memory, i.referenced)
  where
    i : IsLife l
    i = Lives-IsLife lives

    no_reference : (k : ℕ) → some (while_referenced k) ≡ some 0 → k ≡ 0
    no_reference zero e = refl
    no_reference (suc k) e = ground arith

    unreferenced : Settled l.log → (l.opens ≡ 0) × (l.bound ≡ false)
    unreferenced s =
        let none_left : l.dev.kref ≡ 0 =
          no_reference l.dev.kref (sym (i.ledger memory) ∙ s memory) in
        ground (arith, i.referenced)

    holding-none : (r : Resource) → holding 0 false r ≡ 0
    holding-none region = refl
    holding-none _ = refl

    settled : (l.opens ≡ 0) × (l.bound ≡ false) → Settled l.log
    settled (none_open, unbound) r =
        let zero_refs : l.dev.kref ≡ 0 = ground (arith, i.referenced) in
        ledger-at l.log false l.dev.kref 0 r zero_refs (rw unbound at (i.ledger r))
        ∙ ap some (holding-none r)
