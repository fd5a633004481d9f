-- ===== src/AttributeDrivers.antt =====
-- Procfs/procfs2.c, Sysfs/sysfs1.c and IRQ/irq1.c: character devices with a file of their own under
-- /proc or /sys.
pub mod ProcFile
pub mod Procfs
pub mod Sysfs
pub mod Irq
pub mod Cleanup
mod Tests
