-- ===== src/FileDrivers.antt =====
-- Drivers whose state is behind one or two files: Procfs/procfs1.c, MiscDriver/misctest.c,
-- Debugfs/debugfs2.c and Sysfs/sysfs-poll.c.
pub mod Proc
pub mod Misc
pub mod Debug
pub mod Poll
mod Tests
