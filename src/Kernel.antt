-- ===== src/Kernel.antt =====
-- What the drivers share of the kernel's conventions.
pub mod Ledger
pub mod CharSetup
