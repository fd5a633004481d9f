-- ===== src/PlatformDrivers.antt =====
-- The drivers of platform devices under PlatformDriver, NetworkDriver, GpioChip and IIODriver, and
-- CharacterDriverNew/char1.c, which sets up its device as PlatformDriverExample3/plat3.c does.
-- Bus has the bus that binds a driver to a device, Probes the drivers, Modules what the modules do
-- besides, and Balance the theorems.
pub mod Bus
pub mod Probes
pub mod Modules
pub mod Balance
pub mod Drivers
mod Tests
