-- ===== src/PlatformDrivers/Modules.antt =====
-- What the modules of the platform drivers do besides: the file operations, the network device's
-- operations, and the init and exit functions that are not those of the bus.
use linux_kernel_development.Prelude.{
  false, true, ℕ, ◌+◌, ◌%◌, ◌^◌, Bool, Option, none, some, [], ◌∷◌, ℤ, pos, negsuc, if◌then◌else◌,
  eq_ℤ,
}
use linux_kernel_development.Kernel.Ledger.{taken, given, Events, platform_device, platform_driver}
use linux_kernel_development.Kernel.CharSetup.{Loaded}
use linux_kernel_development.PlatformDrivers.Probes.{DummyAnswers, my_pdrv_probe, my_pdrv_remove}

-- PlatformDriverExample1/plat1.c and PlatformDriverExample2/plat2.c.
unfoldable pub plat_open : ℤ
plat_open = pos 0

unfoldable pub plat_release : ℤ
plat_release = pos 0

-- Of `count` bytes, none is written and none is read.
unfoldable pub plat_write : ℕ → ℤ
plat_write count = pos 0

unfoldable pub plat_read : ℕ → ℤ
plat_read count = pos 0

unfoldable pub plat2_open : ℤ
plat2_open = pos 0

unfoldable pub plat2_release : ℤ
plat2_release = pos 0

unfoldable pub plat2_write : ℕ → ℤ
plat2_write count = pos 0

unfoldable pub plat2_read : ℕ → ℤ
plat2_read count = pos 0

-- plat1.c brings its device along: `device_error` is the error of its registration, where `n` stands
-- for -(n + 1), and `probe_rv` what `platform_driver_probe` answers.
unfoldable pub init_callback_fn : Option ℕ → ℤ → Loaded
init_callback_fn (some n) probe_rv = record { log = []; rv = negsuc n }
init_callback_fn none probe_rv =
    if eq_ℤ probe_rv (pos 0)
    then record { log = taken platform_device ∷ taken platform_driver ∷ []; rv = probe_rv }
    else record { log = taken platform_device ∷ given platform_device ∷ []; rv = probe_rv }

-- The init function keeps its device in a variable of its own, so that the one at file scope is NULL,
-- of which `platform_device_unregister` does nothing.
unfoldable pub exit_callback_fn : Events
exit_callback_fn = given platform_driver ∷ []

-- plat2.c
unfoldable pub plat2_init_callback_fn : ℤ → Loaded
plat2_init_callback_fn register_rv = record {
  log = if eq_ℤ register_rv (pos 0) then taken platform_driver ∷ [] else [];
  rv = register_rv;
}

unfoldable pub plat2_exit_callback_fn : Events
plat2_exit_callback_fn = given platform_driver ∷ []

-- The device of plat3.c and of CharacterDriverNew/char1.c.
unfoldable pub dummy_open : ℤ
dummy_open = pos 0

unfoldable pub dummy_release : ℤ
dummy_release = pos 0

unfoldable pub dummy_read : ℕ → ℤ
dummy_read count = pos 0

-- All bytes count as written.
unfoldable pub dummy_write : ℕ → ℤ
dummy_write count = pos count

-- CharacterDriverNew/char1.c
unfoldable pub dummy_char_init_module : DummyAnswers → Loaded
unfolding my_pdrv_probe
dummy_char_init_module a = my_pdrv_probe a

unfoldable pub dummy_char_cleanup_module : Events
dummy_char_cleanup_module = my_pdrv_remove

-- NetworkDriver/fake-eth.c: whether the queue is started, and the counts of what has been sent, in 64
-- bits.
pub record NetDevice : Type 0 where
  pub queue_started : Bool
  pub tx_bytes : ℕ
  pub tx_packets : ℕ

unfoldable pub fake_eth_open : NetDevice → NetDevice × ℤ
fake_eth_open dev = (record dev { queue_started = true }, pos 0)

unfoldable pub fake_eth_release : NetDevice → NetDevice × ℤ
fake_eth_release dev = (record dev { queue_started = false }, pos 0)

-- A packet of `len` bytes is counted and dropped.
unfoldable pub fake_eth_xmit : NetDevice → ℕ → NetDevice × ℤ
fake_eth_xmit dev len = (
  record dev {
    tx_bytes = (dev.tx_bytes + len) % 2 ^ 64;
    tx_packets = (dev.tx_packets + 1) % 2 ^ 64;
  },
  pos 0,
)

unfoldable pub fake_eth_init : ℤ
fake_eth_init = pos 0

-- GpioChip/fake-gpio-chip.c: every line reads 0, and keeps nothing.
unfoldable pub fake_get_value : ℕ → ℤ
fake_get_value offset = pos 0

unfoldable pub fake_direction_output : ℕ → ℤ → ℤ
fake_direction_output offset val = pos 0

unfoldable pub fake_direction_input : ℕ → ℤ
fake_direction_input offset = pos 0

-- IIODriver/iio1.c
unfoldable pub fake_read_raw : ℤ
fake_read_raw = pos 0

unfoldable pub fake_write_raw : ℤ → ℤ → ℤ
fake_write_raw val val2 = pos 0
