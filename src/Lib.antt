-- ===== src/Lib.antt =====
-- A RAM disk that other machines reach: in user space behind a control socket and the NBD protocol,
-- as two Linux block devices, and as a library over an RDMA transport. These modules model the C code
-- of each part as functions on its state, and prove what makes it right.
--
-- The parts, and the files that model them:
-- - userspace-nbd/src/ramdisk_backend.c, the memory of the RAM disk behind a mutex: Backend. Range has
--   the bounds and creation, Access the single operations, Reading `ramdisk_backend_read`, RoundTrip
--   writes against reads.
-- - userspace-nbd/src/ramdisk_urma.c, the manager of peers and transfers that stands on the backend:
--   Urma. State has the structures, Peers connecting and disconnecting, Transfer the checks and the
--   copies, Queue the ring of requests and the worker's critical sections, Manager set-up and tear-
--   down. System puts the callers and the worker together as one machine: an event is one critical
--   section or one transfer, so that every interleaving is a list of events, and `run` is
--   reachability. System.Sync is a whole call with its wait, and System.Waiting what it waits for.
-- - kernel-urma/urma_blkdev.c: KernelUrma. Device has the structures, Mapping `urma_blkdev_map_io`,
--   DirectIo the queue of direct IO for nvmet, Driver and Lifecycle loading and unloading, BlockLayer
--   `urma_blkdev_queue_rq`.
-- - kernel/rdma_blkdev.c: KernelRdma, its `queue_rq`; its Lifecycle, loading and unloading.
-- - src/rdma_ramdisk.c, src/mock_rdma.c and src/target_session.c, with the headers of include/: Rdma.
--   Transport has the memory of objects and the record of a transport's operations, Ramdisk, Mock and
--   Session the three sources.
-- - userspace-nbd/src/ramdisk_ctrl_server.c and ramdisk_ctrl_client.c with include/ramdisk_ctrl.h:
--   Ctrl. Messages has the structures and their bytes, Server the requests on a connection, Client the
--   calls. Command says what a request asks for, apart from how it is written, and Remote puts the two
--   ends together; Accept is the loop of `accept`. Tool is the program userspace-nbd/src/ramdiskctl.c,
--   with its Usage text, over the client. What the server does is calls of Urma and Backend; a
--   transfer that waits lets the events of Urma.System run (Urma.System.Sync).
-- - userspace-nbd/src/nbd_ramdisk.c with include/nbd_protocol.h: Nbd. Wire has the messages, Serve the
--   loop `serve_nbd` over the Backend, Disk the array of bytes that it is to be, Memory its buffer,
--   Args the command line, Lifecycle what `main` and the control server take from the system.
-- - Stream has sockets and the loops `read_full` and `write_full`, Layout the bytes of integers,
--   Ledger the books of what is taken and given back. Base has the names that all share: Boolean
--   tests, lists, bytes and the copies on them, words, and errno values. Each part has its concrete
--   runs in Tests.
--
-- A function of C is a function of the same name; what it changes is passed in and returned. An `int`
-- that is 0 or a negated errno is a Status. A result of `none` is undefined behaviour of C: an access
-- outside an object, a read of an unset pointer, a division by 0, a call of a null function. Unsigned
-- arithmetic has its wrap-around written out. What libc, the kernel and ubcore answer are arguments.
-- A socket is the list of what its reads find and the list of what its writes accept.
--
-- Fuel: the work function of the direct IO queue takes fuel for its rounds; one round more than there
-- are pending requests is enough, which is proved. The endless loops of the daemon and of the control
-- server take one round of answers of the system for each turn: `serve_nbd` needs one more than there
-- are requests, which is proved. All other loops are structural.
--
-- Not modelled: the code under HAVE_URMA and `ramdisk_ctrl_parse_peer_connect`, which are calls and
-- structures of liburma; the signal handler and the thread in NBD_DO_IT; the program
-- business_client_example; the kernel modules' sysfs text; what is printed or logged; the tests for a
-- null pointer to the object that a function works on. A copy of `memcpy` between places of one object
-- that overlap is modelled as a copy through a buffer. A deadline is not a time: a wait gets what
-- `pthread_cond_timedwait` returned. In Rdma the disk and the session have the same transport context,
-- as in the programs of this repository.
pub mod Base
pub mod Backend
pub mod Urma
pub mod KernelUrma
pub mod KernelRdma
pub mod Rdma
pub mod Ledger
pub mod Stream
pub mod Layout
pub mod Ctrl
pub mod Nbd
