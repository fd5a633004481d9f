-- ===== src/Kernel/Ledger.antt =====
-- The resources that a driver takes from the kernel and gives back, as a ledger of the calls that it
-- makes. A driver's setup and teardown are lists of events; what they leave taken, and whether they
-- give back what they do not have, is read off the list.
use linux_kernel_development.Prelude.{
  ℕ, zero, suc, ◌+◌, ◌-◌, ◌<◌, ◌≡◌, length, get_or, ap, refl, Bool, true, false, Option, none, some,
  List, [], ◌∷◌, ◌++◌, ◌==◌, ◌&&◌, ◌||◌, if◌then◌else◌, arith, Bool-cases, inl, inr,
}

-- The resources of the drivers.
pub data Resource : Type 0 where
  region cdev dev_class device thread1 thread2 kobject sysfs_file irq proc_dir proc_file : Resource
  memory data_area queue disk major_number : Resource
  usb_device_ref interface_ref read_buffer read_urb interface_data minor_number : Resource
  out_buffer input_device coherent_buffer uart_driver char_number usb_driver misc_device : Resource
  framebuffer mem_region cmap registered_framebuffer platform_device platform_driver : Resource
  net_device registered_net_device gpio_chip iio_device socket connection : Resource
  debugfs_dir add_file sum_file pci_driver enabled_device : Resource

-- A number for each resource, to compare them by.
abbrev tag : Resource → ℕ
tag region = 0
tag cdev = 1
tag dev_class = 2
tag device = 3
tag thread1 = 4
tag thread2 = 5
tag kobject = 6
tag sysfs_file = 7
tag irq = 8
tag proc_dir = 9
tag proc_file = 10
tag memory = 11
tag data_area = 12
tag queue = 13
tag disk = 14
tag major_number = 15
tag usb_device_ref = 16
tag interface_ref = 17
tag read_buffer = 18
tag read_urb = 19
tag interface_data = 20
tag minor_number = 21
tag out_buffer = 22
tag input_device = 23
tag coherent_buffer = 24
tag uart_driver = 25
tag char_number = 26
tag usb_driver = 27
tag misc_device = 28
tag framebuffer = 29
tag mem_region = 30
tag cmap = 31
tag registered_framebuffer = 32
tag platform_device = 33
tag platform_driver = 34
tag net_device = 35
tag registered_net_device = 36
tag gpio_chip = 37
tag iio_device = 38
tag socket = 39
tag connection = 40
tag debugfs_dir = 41
tag add_file = 42
tag sum_file = 43
tag pci_driver = 44
tag enabled_device = 45

abbrev pub same : Resource → Resource → Bool
same r s = tag r == tag s

-- A call that has got a resource, and one that gives a resource back.
pub data Event : Type 0 where
  taken : Resource → Event
  given : Resource → Event

abbrev pub Events : Type 0
Events = List Event

-- How many of a resource are taken after the events, with `n` taken before them; `none` if one is
-- given back when none is taken.
unfoldable pub outstanding : Resource → ℕ → Events → Option ℕ
outstanding r n [] = some n
outstanding r n (taken s ∷ es) = outstanding r (if same r s then n + 1 else n) es
outstanding r n (given s ∷ es) =
    let rest = outstanding r (if same r s then n - 1 else n) es in
    if same r s && n == 0 then none else rest

-- Nothing is left taken, and nothing is given back that was not taken.
abbrev pub Settled : Events → Type 0
Settled es = (r : Resource) → outstanding r 0 es ≡ some 0

-- Events that follow others start from what those leave.
pub outstanding-append :
    (r : Resource) (n m : ℕ) (es fs : Events)
    → outstanding r n es ≡ some m
    → outstanding r n (es ++ fs) ≡ outstanding r m fs
unfolding outstanding
outstanding-append r n m [] fs h = ground arith
outstanding-append r n m (taken s ∷ es) fs h =
    outstanding-append r (if same r s then n + 1 else n) m es fs h
outstanding-append r n m (given s ∷ es) fs h = elim (Bool-cases (same r s && n == 0)) [
  | inl short ↦ absurd (impossible short)
  | inr enough ↦
      rw enough (outstanding-append r (if same r s then n - 1 else n) m es fs (rw enough at h))
]
  where
    impossible : (same r s && n == 0) ≡ true → ⊥
    impossible short = cc (rw short at h)

-- The resources in the order of their numbers.
abbrev all_resources : List Resource
all_resources =
    region ∷ cdev ∷ dev_class ∷ device ∷ thread1 ∷ thread2 ∷ kobject ∷ sysfs_file ∷ irq ∷ proc_dir
    ∷ proc_file ∷ memory ∷ data_area ∷ queue ∷ disk ∷ major_number ∷ usb_device_ref ∷ interface_ref
    ∷ read_buffer ∷ read_urb ∷ interface_data ∷ minor_number ∷ out_buffer ∷ input_device
    ∷ coherent_buffer ∷ uart_driver ∷ char_number ∷ usb_driver ∷ misc_device ∷ framebuffer
    ∷ mem_region ∷ cmap ∷ registered_framebuffer ∷ platform_device ∷ platform_driver ∷ net_device
    ∷ registered_net_device ∷ gpio_chip ∷ iio_device ∷ socket ∷ connection ∷ debugfs_dir ∷ add_file
    ∷ sum_file ∷ pci_driver ∷ enabled_device ∷ []

all_resources-tag :
    (r : Resource) → (tag r < length all_resources) × (get_or all_resources (tag r) region ≡ r)
all_resources-tag region = (omega arith, refl)
all_resources-tag _ = (omega arith, refl)

every : (Resource → Bool) → List Resource → Bool
every p [] = true
every p (r ∷ rs) = p r && every p rs

every-get_or :
    (p : Resource → Bool) (rs : List Resource) (i : ℕ) (d : Resource)
    → every p rs ≡ true
    → i < length rs
    → p (get_or rs i d) ≡ true
unfolding every
every-get_or p [] i d h lt = elim lt [ ]
every-get_or p (r ∷ rs) zero d h lt = ground arith
every-get_or p (r ∷ rs) (suc i) d h lt = every-get_or p rs i d (ground arith) (omega arith)

every_sound : (p : Resource → Bool) → every p all_resources ≡ true → (r : Resource) → p r ≡ true
every_sound p h r =
    let (lt, e) = all_resources-tag r in
    rw (ap p e) at (every-get_or p all_resources (tag r) region h lt)

abbrev is_count : Option ℕ → ℕ → Bool
is_count none k = false
is_count (some n) k = n == k

is_count_sound : (o : Option ℕ) (k : ℕ) → is_count o k ≡ true → o ≡ some k
is_count_sound o k h = ground arith

-- What a ledger leaves of each resource, checked by evaluation.
unfoldable pub leaves : (Resource → ℕ) → Events → Bool
unfolding outstanding every
leaves want es = every (λ r. is_count (outstanding r 0 es) (want r)) all_resources

pub outstanding_of_leaves :
    (want : Resource → ℕ) (es : Events)
    → leaves want es ≡ true
    → (r : Resource) → outstanding r 0 es ≡ some (want r)
unfolding leaves
outstanding_of_leaves want es h r =
    is_count_sound (outstanding r 0 es) (want r)
      (every_sound (λ s. is_count (outstanding s 0 es) (want s)) h r)

abbrev pub nothing : Resource → ℕ
nothing r = 0

-- All but one resource are as they were, or all.
abbrev pub is_neglected : Option Resource → Resource → Bool
is_neglected none r = false
is_neglected (some s) r = same s r

abbrev pub SettledBut : Option Resource → Events → Type 0
SettledBut o es = (r : Resource) → is_neglected o r ≡ false → outstanding r 0 es ≡ some 0

unfoldable pub leaves_nothing_but : Option Resource → Events → Bool
unfolding outstanding every
leaves_nothing_but o es =
    every (λ r. is_neglected o r || is_count (outstanding r 0 es) 0) all_resources

pub kept_of_leaves :
    (o : Option Resource) (es : Events) → leaves_nothing_but o es ≡ true → SettledBut o es
unfolding leaves_nothing_but
kept_of_leaves o es h r kept =
    let counted : is_neglected o r || is_count (outstanding r 0 es) 0 ≡ true =
      every_sound (λ s. is_neglected o s || is_count (outstanding s 0 es) 0) h r in
    is_count_sound (outstanding r 0 es) 0 (rw kept at counted)
