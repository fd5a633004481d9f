-- ===== src/UsbMouse.antt =====
-- USB/usbdrv1.c: a mouse whose reports come by an interrupt URB.
pub mod Probe
pub mod Reports
pub mod Leaks
mod Tests
