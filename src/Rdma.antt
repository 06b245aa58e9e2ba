-- ===== src/Rdma.antt =====
-- The RDMA RAM disk library of src/ and include/: the transport, the disk, the mock and the session.
pub mod Transport
pub mod Ramdisk
pub mod Mock
pub mod Session
mod Tests
