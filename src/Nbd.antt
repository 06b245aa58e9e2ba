-- ===== src/Nbd.antt =====
-- The daemon of userspace-nbd/src/nbd_ramdisk.c, which serves the requests that the kernel's nbd
-- driver sends over a socket.
pub mod Wire
pub mod Serve
pub mod Disk
pub mod Memory
pub mod Args
pub mod Lifecycle
mod Tests
