-- ===== src/KernelUrma/Device.antt =====
-- The structures of kernel-urma/urma_blkdev.c and of its header. A pointer that the code only tests
-- for NULL is a Boolean; the xarray of requests in flight is the list of its entries by index.
use ddr_direct_storage.Base.{ℕ, Bool, List, Status, Bytes}

-- `struct urma_blkdev_peer`.
pub record IoPeer : Type 0 where
  pub eid : Bytes
  pub jetty : Bool

-- `struct urma_blkdev_io`.
pub record Io : Type 0 where
  pub dir : ℕ
  pub lba : ℕ
  pub block_count : ℕ
  pub hbm_addr : ℕ
  pub hbm_token_id : ℕ

-- `enum urma_blkdev_io_dir`.
abbrev pub urma_blkdev_io_read : ℕ
urma_blkdev_io_read = 1

abbrev pub urma_blkdev_io_write : ℕ
urma_blkdev_io_write = 2

-- `struct urma_blkdev_io_req`. `priv` is the caller's cookie for `done`.
pub record IoReq : Type 0 where
  pub peer : IoPeer
  pub io : Io
  pub byte_offset : ℕ
  pub local_ubva : ℕ
  pub len : ℕ
  pub wr_id : ℕ
  pub done : Bool
  pub priv : ℕ
  pub ref : ℕ

-- The part of `struct urma_blkdev_device` that direct IO uses, with two things outside it: the calls
-- of `done` made so far, and the references that requests hold on the module.
pub record Device : Type 0 where
  pub ramdisk_size : ℕ
  pub ubva_addr : ℕ
  pub ub_dev : Bool
  pub seg : Bool
  pub io_wq : Bool
  pub pending_list : List IoReq
  pub inflight_reqs : List (ℕ × IoReq)
  pub pending : ℕ
  pub inflight : ℕ
  pub next_wr_id : ℕ
  pub queue_depth : ℕ
  pub stopping : Bool
  pub completions : List (ℕ × Status)
  pub module_refs : ℕ
