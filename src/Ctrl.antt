-- ===== src/Ctrl.antt =====
-- The control socket of the daemon: userspace-nbd/include/ramdisk_ctrl.h, the server of
-- src/ramdisk_ctrl_server.c, the client of src/ramdisk_ctrl_client.c and the program src/ramdiskctl.c.
pub mod Messages
pub mod Server
pub mod Client
pub mod Command
pub mod Remote
pub mod Accept
pub mod Tool
mod Tests
