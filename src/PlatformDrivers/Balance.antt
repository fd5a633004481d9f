-- ===== src/PlatformDrivers/Balance.antt =====
-- Whatever is loaded and unloaded, a driver on the bus gives back what it takes.
use linux_kernel_development.Prelude.{
  Bool-cases, if-intro, Option-cases, true, false, ◌&&◌, inl, inr, Option, none, some, List, [],
  ◌∷◌, ◌++◌, pos, ◌≡◌, refl, arith, eq_ℤ, append_assoc, subst, if◌then◌else◌, ◌∙◌,
}
use linux_kernel_development.Kernel.Ledger.{
  Events, SettledBut, same, outstanding, outstanding-append,
}
use linux_kernel_development.PlatformDrivers.Bus.{
  Driver, Bus, empty_bus, attach, detach, Op, load_driver, unload_driver, load_device,
  unload_device, step, run,
}

module _ (driver : Driver) where
  open driver use {Answers, probe, remove, neglects}

  -- What the log says: an unbound driver has nothing, a bound one what its probe has taken.
  abbrev Account : Option Answers → Events → Type 0
  Account none log = SettledBut neglects log
  Account (some a) log =
      (before : Events) × SettledBut neglects before
      × (log ≡ before ++ (probe a).log)
      × ((probe a).rv ≡ pos 0)

  record IsSound (b : Bus driver) : Type 0 where
    account : Account b.bound b.log
    alone : b.has_driver && b.has_device ≡ false → b.bound ≡ none

  SettledBut-append :
      (before after : Events)
      → SettledBut neglects before
      → SettledBut neglects after
      → SettledBut neglects (before ++ after)
  SettledBut-append before after h k r kept =
      outstanding-append r 0 0 before after (h r kept) ∙ k r kept

  detach-SettledBut :
      (b : Bus driver)
      → IsSound b
      → SettledBut neglects (detach driver b).log × ((detach driver b).bound ≡ none)
  unfolding detach
  detach-SettledBut b sound = elim (Option-cases b.bound) [
    | inl free ↦ rw free (subst (λ o. Account o b.log) free sound.account, refl)
    | inr (a, held) ↦
        let (before, settled, same, ok) = subst (λ o. Account o b.log) held sound.account in
        rw (held, same, append_assoc before (probe a).log remove)
          (
            SettledBut-append before ((probe a).log ++ remove) settled
                (driver.bound-SettledBut a ok),
            refl,
          )
  ]

  attached-Account :
      (a : Answers) (log : Events)
      → SettledBut neglects log
      → Account (if eq_ℤ (probe a).rv (pos 0) then some a else none) (log ++ (probe a).log)
  attached-Account a log settled = elim (Bool-cases (eq_ℤ (probe a).rv (pos 0))) [
    | inl ok ↦ rw ok (log, settled, refl, ground (arith, ok))
    | inr bad ↦ rw bad (
        SettledBut-append log (probe a).log settled
          (driver.failed-SettledBut a (λ e. cc (rw e at bad))))
  ]

  attach-IsSound :
      (b : Bus driver) (a : Answers)
      → b.bound ≡ none
      → SettledBut neglects b.log
      → IsSound (attach driver b a)
  unfolding attach
  attach-IsSound b a unbound settled = elim (Bool-cases (b.has_driver && b.has_device)) [
    | inl both ↦
        rw both (record { account = attached-Account a b.log settled; alone = λ e. cc (both, e) })
    | inr one ↦ rw one (record { account = rw unbound settled; alone = λ e. unbound })
  ]

  unbound_account : {b : Bus driver} → IsSound b → b.bound ≡ none → SettledBut neglects b.log
  unbound_account {b} sound unbound = subst (λ o. Account o b.log) unbound sound.account

  step-IsSound : (b : Bus driver) (op : Op driver) → IsSound b → IsSound (step driver b op)
  unfolding step
  step-IsSound b (load_driver a) sound =
      if-intro IsSound b.has_driver _ _ (λ there. sound)
        (λ new.
          let unbound = sound.alone (ground (arith, new)) in
          attach-IsSound (record b { has_driver = true }) a unbound (unbound_account sound unbound))
  step-IsSound b unload_driver sound =
      if-intro IsSound b.has_driver _ _
        (λ there.
          let (settled, unbound) = detach-SettledBut b sound in
          record { account = rw unbound settled; alone = λ e. unbound })
        (λ gone. sound)
  step-IsSound b (load_device a) sound =
      if-intro IsSound b.has_device _ _ (λ there. sound)
        (λ new.
          let unbound = sound.alone (ground (arith, new)) in
          attach-IsSound (record b { has_device = true }) a unbound (unbound_account sound unbound))
  step-IsSound b unload_device sound = sound

  run-IsSound : (b : Bus driver) (ops : List (Op driver)) → IsSound b → IsSound (run driver b ops)
  unfolding run
  run-IsSound b [] sound = sound
  run-IsSound b (op ∷ ops) sound = run-IsSound (step driver b op) ops (step-IsSound b op sound)

  -- Whatever modules are loaded and unloaded, in any order, and whatever the probes are answered, a
  -- driver with a balanced probe and remove is bound only while both modules have been loaded, and
  -- has given back, once, all that it took, but for what it neglects, as soon as its module is
  -- unloaded.
  pub unloaded-SettledBut :
      (ops : List (Op driver))
      → let b = step driver (run driver (empty_bus driver) ops) unload_driver in
        SettledBut neglects b.log × (b.bound ≡ none) × (b.has_driver ≡ false)
  unfolding step outstanding
  unloaded-SettledBut ops =
      let b = run driver (empty_bus driver) ops in
      let sound : IsSound b =
        run-IsSound (empty_bus driver) ops
          (record { account = λ r kept. refl; alone = λ e. refl }) in
      if-intro
        (λ (c : Bus driver). SettledBut neglects c.log × (c.bound ≡ none) × (c.has_driver ≡ false))
        b.has_driver _ _
        (λ there. let (settled, unbound) = detach-SettledBut b sound in (settled, unbound, refl))
        (λ gone.
          let unbound = sound.alone (rw gone refl) in
          (unbound_account sound unbound, unbound, gone))
