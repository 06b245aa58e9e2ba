-- ===== src/Urma.antt =====
-- userspace-nbd/src/ramdisk_urma.c and its header: the URMA manager of the daemon, in the build
-- without HAVE_URMA. `Urma.State` has the structures, `Urma.Peers`, `Urma.Transfer`, `Urma.Queue` and
-- `Urma.System` the operations, and the modules below those what they guarantee.
pub mod State
pub mod Peers
pub mod Transfer
pub mod Queue
pub mod Manager
pub mod System
mod Tests
