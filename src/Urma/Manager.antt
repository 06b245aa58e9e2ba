-- ===== src/Urma/Manager.antt =====
-- Building and tearing down the manager of userspace-nbd/src/ramdisk_urma.c, without HAVE_URMA.
use ddr_direct_storage.Base.{
  ℕ, Bool, true, false, not, Option, none, some, [], map, ltb, ◌==◌, if◌then◌else◌, Status, ok, err,
  Bytes, take, replicate, u32_max,
}
use ddr_direct_storage.Base.Errno.{einval, enomem, enosys}
use ddr_direct_storage.Backend.{Backend}
use ddr_direct_storage.Urma.State.{
  Peer, no_peer, UrmaConfig, Mgr, ramdisk_urma_max_peers, ramdisk_urma_max_queue_depth,
  ramdisk_urma_default_token,
}

-- After `memset(mgr, 0, sizeof(*mgr))`.
abbrev pub zeroed_mgr : Mgr
zeroed_mgr = record {
  initialized = false;
  worker_started = false;
  enabled = false;
  use_mock = false;
  stopping = false;
  urma_dev = [];
  eid_index = 0;
  trans_mode = 0;
  tp_type = 0;
  local_token_value = 0;
  queue_depth = 0;
  queue = [];
  head = 0;
  tail = 0;
  pending = 0;
  inflight = 0;
  completed = 0;
  failed = 0;
  peers = replicate ramdisk_urma_max_peers no_peer;
}

abbrev default_config : UrmaConfig
default_config = record {
  enable = false;
  use_mock = true;
  queue_depth = 0;
  urma_dev = none;
  eid_index = u32_max;
  trans_mode = 1;
  tp_type = 0;
  local_token_value = 0;
}

-- What a NULL `config` stands for in the initialiser's conditional expressions.
abbrev pub config_or_default : Option UrmaConfig → UrmaConfig
config_or_default none = default_config
config_or_default (some c) = c

-- `snprintf` into `char urma_dev[64]`; the text is without its final NUL.
abbrev pub device_name : Option Bytes → Bytes
device_name none = []
device_name (some text) = take 63 text

abbrev pub depth_of : UrmaConfig → ℕ
depth_of c = if c.queue_depth == 0 then 32 else c.queue_depth

unfoldable pub configured : UrmaConfig → Mgr
configured c = record zeroed_mgr {
  initialized = true;
  enabled = c.enable;
  use_mock = c.use_mock;
  urma_dev = device_name c.urma_dev;
  eid_index = c.eid_index;
  trans_mode = c.trans_mode;
  tp_type = c.tp_type;
  local_token_value =
      if c.local_token_value == 0 then ramdisk_urma_default_token else c.local_token_value;
  queue_depth = depth_of c;
  queue = replicate (depth_of c) none;
}

-- One round of the loop over the peers.
unfoldable pub drop_peer : Peer → Peer
drop_peer p = if p.active then record p { active = false; mock_hbm = none } else p

-- `ramdisk_urma_mgr_destroy` up to `pthread_join`: the worker is told to stop.
unfoldable pub request_stop : Mgr → Mgr
request_stop m = if m.worker_started then record m { stopping = true } else m

-- The rest of it; `joined` is the manager as the worker leaves it.
unfoldable pub release_mgr : Mgr → Mgr
unfolding drop_peer
release_mgr joined = record joined {
  worker_started = false;
  peers = map drop_peer joined.peers;
  queue = [];
  initialized = false;
}

-- `join` is what happens to the manager until `pthread_join` returns.
unfoldable pub ramdisk_urma_mgr_destroy : (Mgr → Mgr) → Mgr → Mgr
unfolding request_stop release_mgr
ramdisk_urma_mgr_destroy join m =
    if not m.initialized
    then m
    else release_mgr (if m.worker_started then join (request_stop m) else m)

-- `got` says whether `calloc` finds memory; the other two are the return values of
-- `pthread_mutex_init` and `pthread_create`. `mgr` is what the caller's memory held.
unfoldable pub ramdisk_urma_mgr_init :
    Bool → ℕ → ℕ → Mgr → Backend → Option UrmaConfig → Status × Mgr
ramdisk_urma_mgr_init got mutex_rc thread_rc mgr b config =
    let c = config_or_default config in
    let never_joined = ramdisk_urma_mgr_destroy (λ m. m) in
    if not b.initialized
    then (err einval, mgr)
    else if ltb ramdisk_urma_max_queue_depth (depth_of c)
    then (err einval, zeroed_mgr)
    else if not got
    then (err enomem, zeroed_mgr)
    else if not (mutex_rc == 0)
    then (err mutex_rc, zeroed_mgr)
    else if not c.use_mock
    then (err enosys, never_joined (configured c))
    else if not (thread_rc == 0)
    then (err thread_rc, never_joined (configured c))
    else (ok, record (configured c) { worker_started = true })
