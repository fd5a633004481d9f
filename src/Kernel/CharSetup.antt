-- ===== src/Kernel/CharSetup.antt =====
-- The setup of a character device, which many of the drivers begin with: its number, the device itself,
-- its class, and its node.
use linux_kernel_development.Prelude.{Bool, not, [], ◌∷◌, ◌++◌, ℤ, negsuc, if◌then◌else◌}
use linux_kernel_development.Kernel.Ledger.{taken, given, Events, region, cdev, dev_class, device}

-- The events of an init function, and the value that it returns.
pub record Loaded : Type 0 where
  pub log : Events
  pub rv : ℤ

-- A jump to a label, after the events so far.
abbrev pub fail : Events → Events → Loaded
fail log label = record { log = log ++ label; rv = negsuc 0 }

-- What the kernel answers to the four calls.
pub record CharAnswers : Type 0 where
  pub region_ok : Bool
  pub cdev_ok : Bool
  pub class_ok : Bool
  pub device_ok : Bool

-- `r_class` is what the driver does at the label of that name; the label `r_device` destroys the class
-- before. `rest` is what comes once the node is there.
unfoldable pub char_setup : CharAnswers → Events → (Events → Loaded) → Loaded
char_setup a r_class rest =
    let added = taken region ∷ taken cdev ∷ [] in
    let classed = added ++ (taken dev_class ∷ []) in
    if not a.region_ok
    then fail [] []
    else (if not a.cdev_ok
        then fail (taken region ∷ []) r_class
        else (if not a.class_ok
            then fail added r_class
            else (if not a.device_ok
                then fail classed (given dev_class ∷ r_class)
                else rest (classed ++ (taken device ∷ [])))))
