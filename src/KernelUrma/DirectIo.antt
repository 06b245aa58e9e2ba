-- ===== src/KernelUrma/DirectIo.antt =====
-- The queue of direct IO of kernel-urma/urma_blkdev.c: submission, the work function and
-- the end of the queue.
pub mod Order
pub mod Submission
pub mod Ending
pub mod Handles
use ddr_direct_storage.Base.{
  ℕ, zero, suc, ◌+◌, ◌-◌, ◌*◌, ◌/◌, ◌%◌, ◌^◌, Bool, true, false, not, ◌&&◌, ◌||◌, Option, none,
  some, List, [], ◌∷◌, ◌++◌, map, ltb, leb, ◌==◌, if◌then◌else◌, Status, ok, err, u64_max, length,
}
use ddr_direct_storage.Base.Errno.{
  einval, enodev, enomem, ebusy, erange, eoverflow, eopnotsupp, eshutdown,
}
use ddr_direct_storage.KernelUrma.Mapping.{Mapping, Mapped, mapped, refused, urma_blkdev_map_io}
use ddr_direct_storage.KernelUrma.Device.{
  IoPeer, Io, IoReq, Device, urma_blkdev_io_read, urma_blkdev_io_write,
}

-- The last reference of a request gives back its reference on the module.
unfoldable pub urma_blkdev_req_put : Device → IoReq → Device
urma_blkdev_req_put dev req =
    if req.ref == 1 then record dev { module_refs = dev.module_refs - 1 } else dev

unfoldable pub urma_blkdev_done_req : Device → IoReq → Status → Device
unfolding urma_blkdev_req_put
urma_blkdev_done_req dev req status =
    urma_blkdev_req_put
      (if req.done
        then record dev { completions = dev.completions ++ (req.priv, status) ∷ [] }
        else dev)
      req

-- The post to the jetty is not wired yet: it always fails.
unfoldable pub urma_blkdev_post_jetty_wr : Device → IoReq → Status
urma_blkdev_post_jetty_wr dev req =
    if not dev.seg || not req.peer.jetty then err einval else err eopnotsupp

-- `xa_store` at an index, and `xa_erase`.
abbrev pub xa_store : List (ℕ × IoReq) → ℕ → IoReq → List (ℕ × IoReq)
xa_store [] index req = (index, req) ∷ []
xa_store ((i, r) ∷ xs) index req =
    if ltb index i
    then (index, req) ∷ (i, r) ∷ xs
    else if index == i
    then (index, req) ∷ xs
    else (i, r) ∷ xa_store xs index req

abbrev pub xa_erase : List (ℕ × IoReq) → ℕ → List (ℕ × IoReq)
xa_erase [] index = []
xa_erase ((i, r) ∷ xs) index = if i == index then xs else (i, r) ∷ xa_erase xs index

-- A request that has been taken from the list: tracked, posted, and completed where that fails.
-- `xa_rc` is the error of `xa_store` by index, 0 where it succeeds.
unfoldable pub post_popped : (ℕ → ℕ) → Device → IoReq → Device
unfolding urma_blkdev_post_jetty_wr urma_blkdev_done_req
post_popped xa_rc dev popped =
    let id = (dev.next_wr_id + 1) % 2 ^ 64 in
    let req = record popped { wr_id = id } in
    let numbered = record dev { next_wr_id = id } in
    if not (xa_rc id == 0)
    then urma_blkdev_done_req numbered req (err (xa_rc id))
    else let tracked = record numbered {
      inflight_reqs = xa_store dev.inflight_reqs id req;
      inflight = dev.inflight + 1;
    } in
      elim (urma_blkdev_post_jetty_wr tracked req) [
        | ok ↦ tracked
        | err e ↦
            urma_blkdev_done_req
              (record tracked {
                inflight_reqs = xa_erase tracked.inflight_reqs id;
                inflight = tracked.inflight - 1;
              })
              req (err e)
      ]

-- `urma_blkdev_pop_pending`.
unfoldable pub urma_blkdev_pop_pending : Device → Option (IoReq × Device)
urma_blkdev_pop_pending dev = elim dev.pending_list [
  | [] ↦ none
  | req ∷ rest ↦ some (req, record dev { pending_list = rest; pending = dev.pending - 1 })
]

-- The work function, with fuel for its rounds.
unfoldable pub urma_blkdev_submit_workfn : ℕ → (ℕ → ℕ) → Device → Device
urma_blkdev_submit_workfn zero xa_rc dev = dev
urma_blkdev_submit_workfn (suc fuel) xa_rc dev =
    elim (not dev.stopping && ltb dev.inflight dev.queue_depth) [
      | false ↦ dev
      | true ↦ elim (urma_blkdev_pop_pending dev) [
        | none ↦ dev
        | some (req, dev') ↦ urma_blkdev_submit_workfn fuel xa_rc (post_popped xa_rc dev' req)
      ]
    ]

abbrev pub entry_req : ℕ × IoReq → IoReq
entry_req (i, r) = r

unfoldable pub done_all : Device → List IoReq → Status → Device
done_all dev [] status = dev
done_all dev (req ∷ reqs) status = done_all (urma_blkdev_done_req dev req status) reqs status

unfoldable pub urma_blkdev_fail_queued : Device → Status → Device
unfolding done_all
urma_blkdev_fail_queued dev status =
    done_all
      (record dev {
        pending_list = [];
        pending = 0;
        inflight_reqs = [];
        inflight = dev.inflight - length dev.inflight_reqs;
      })
      (dev.pending_list ++ map entry_req dev.inflight_reqs) status

-- The guards before a request is built. `seen` is the device as the caller reads it without the
-- lock.
unfoldable pub check_submit : ℕ → Device → IoPeer → Io → Bool → Mapped
check_submit block_size seen peer io module_ok =
    if seen.stopping
    then refused eshutdown
    else if not seen.seg || not seen.ub_dev
    then refused enodev
    else if not seen.io_wq
    then refused enodev
    else if not peer.jetty
    then refused einval
    else if not (io.dir == urma_blkdev_io_read) && not (io.dir == urma_blkdev_io_write)
    then refused einval
    else elim (urma_blkdev_map_io block_size seen io) [
      | refused e ↦ refused e
      | mapped m ↦
          if leb seen.queue_depth (seen.pending + seen.inflight)
          then refused ebusy
          else if not module_ok
          then refused enodev
          else mapped m
    ]

abbrev pub new_io_req : IoPeer → Io → Mapping → ℕ → IoReq
new_io_req peer io m priv = record {
  peer = peer;
  io = io;
  byte_offset = m.byte_offset;
  local_ubva = m.local_ubva;
  len = m.len;
  wr_id = 0;
  done = true;
  priv = priv;
  ref = 1;
}

-- Under the lock, where the device may have changed since it was read.
unfoldable pub enqueue_locked : Device → IoReq → Status × Device
unfolding urma_blkdev_req_put
enqueue_locked dev req =
    if dev.stopping
    then (err eshutdown, urma_blkdev_req_put dev req)
    else if leb dev.queue_depth (dev.pending + dev.inflight)
    then (err ebusy, urma_blkdev_req_put dev req)
    else (ok, record dev { pending_list = dev.pending_list ++ req ∷ []; pending = dev.pending + 1 })

-- `seen` is the device when the caller reads it without the lock, `dev` when it holds the lock (none
-- of the fields that `seen` gives the mapping changes between). `bdev` is the device that
-- `urma_blkdev_dev_from_bdev` finds; `module_ok` and `alloc_ok` are what `try_module_get` and
-- `kzalloc` answer. The module reference taken is counted here.
unfoldable pub urma_blkdev_submit_nvmet_io :
    ℕ
    → Bool
    → Bool
    → Bool
    → Device
    → Device
    → Option IoPeer
    → Option Io
    → Bool
    → ℕ
    → Status × Device
unfolding check_submit enqueue_locked
urma_blkdev_submit_nvmet_io block_size bdev module_ok alloc_ok seen dev none io done priv =
    (err einval, dev)
urma_blkdev_submit_nvmet_io block_size bdev module_ok alloc_ok seen dev (some peer) none done priv =
    (err einval, dev)
urma_blkdev_submit_nvmet_io block_size bdev module_ok alloc_ok seen dev (some peer) (some io) done
      priv =
    if not done
    then (err einval, dev)
    else if not bdev
    then (err enodev, dev)
    else elim (check_submit block_size seen peer io module_ok) [
      | refused e ↦ (err e, dev)
      | mapped m ↦
          if not alloc_ok
          then (err enomem, dev)
          else enqueue_locked (record dev { module_refs = dev.module_refs + 1 })
              (new_io_req peer io m priv)
    ]

-- `depth` is the module parameter `queue_depth`, `wq_ok` whether `alloc_workqueue` succeeds.
unfoldable pub urma_blkdev_init_io_queue : ℕ → Bool → Device → Status × Device
urma_blkdev_init_io_queue depth wq_ok dev =
    let fresh = record dev {
      pending_list = [];
      inflight_reqs = [];
      pending = 0;
      inflight = 0;
      next_wr_id = 0;
      queue_depth = if depth == 0 then 1 else depth;
      stopping = false;
      io_wq = wq_ok;
    } in
    if wq_ok then (ok, fresh) else (err enomem, fresh)

-- `flush` is what queued work does to the device until `flush_workqueue` returns.
unfoldable pub urma_blkdev_cleanup_io_queue : (Device → Device) → Device → Device
unfolding urma_blkdev_fail_queued
urma_blkdev_cleanup_io_queue flush dev =
    let stopped = record dev { stopping = true } in
    if stopped.io_wq
    then record (urma_blkdev_fail_queued (flush stopped) (err eshutdown)) { io_wq = false }
    else urma_blkdev_fail_queued stopped (err eshutdown)
