-- ===== src/KernelUrma.antt =====
-- The kernel module of kernel-urma/: a RAM disk as a block device, with direct IO for nvmet.
pub mod Device
pub mod Mapping
pub mod DirectIo
pub mod Driver
pub mod Lifecycle
pub mod BlockLayer
mod Tests
