-- ===== src/Nbd/Lifecycle.antt =====
-- What the daemon of userspace-nbd/src/nbd_ramdisk.c and its control server in
-- src/ramdisk_ctrl_server.c take from the system, and give back. The state is what the guards read,
-- with a log of what is taken and given back.
pub mod Balance
use ddr_direct_storage.Base.{
  ℕ, ◌≡◌, refl, Bool, true, false, not, Option, none, some, List, [], ◌∷◌, ◌++◌, ltb, ◌==◌,
  if◌then◌else◌, Status, ok, err, ◌<◌, ◌≤◌, arith, Bool-cases, inl, inr, leb, ◌&&◌,
}
use ddr_direct_storage.Base.Errno.{enametoolong}
use ddr_direct_storage.Ledger.{Event, acquire, release, replay, gives_back}

pub data Resource : Type 0 where
  backend : Resource
  manager : Resource
  listen_fd : Resource
  socket_file : Resource
  ctrl_thread : Resource
  nbd_fd : Resource
  app_sock : Resource
  kernel_sock : Resource
  nbd_thread : Resource

abbrev pub number : Resource → ℕ
number backend = 0
number manager = 1
number listen_fd = 2
number socket_file = 3
number ctrl_thread = 4
number nbd_fd = 5
number app_sock = 6
number kernel_sock = 7
number nbd_thread = 8

-- The part of `struct daemon_ctx` that says what has been set up; a descriptor is `true` where it is
-- not negative.
pub record Ctx : Type 0 where
  pub backend_ready : Bool
  pub urma_initialized : Bool
  pub ctrl_initialized : Bool
  pub has_nbd_fd : Bool
  pub has_app_sock : Bool
  pub has_kernel_sock : Bool
  pub nbd_thread_started : Bool
  pub log : List (Event Resource)

abbrev pub note : Ctx → List (Event Resource) → Ctx
note c es = record c { log = c.log ++ es }

-- What the system calls and the modules below answer: for each an `errno` or a return code, 0 where
-- the call succeeds. `socket_errno` is `errno` after a socket has been created. `path_len` is the
-- length of the path of the control socket.
pub record Answers : Type 0 where
  pub backend_rc : ℕ
  pub urma_rc : ℕ
  pub path_len : ℕ
  pub socket_rc : ℕ
  pub socket_errno : ℕ
  pub bind_rc : ℕ
  pub listen_rc : ℕ
  pub ctrl_thread_rc : ℕ
  pub open_rc : ℕ
  pub socketpair_rc : ℕ
  pub blksize_rc : ℕ
  pub size_rc : ℕ
  pub set_sock_rc : ℕ
  pub nbd_thread_rc : ℕ

-- `-rc`, as a status.
abbrev pub status_of : ℕ → Status
status_of rc = if rc == 0 then ok else err rc

-- The thread is joined whether or not it was ever created.
unfoldable pub ramdisk_ctrl_server_stop : Ctx → Ctx
ramdisk_ctrl_server_stop c =
    if not c.ctrl_initialized
    then c
    else record (note c (release listen_fd ∷ release ctrl_thread ∷ release socket_file ∷ [])) {
      ctrl_initialized = false;
    }

-- From the created socket on.
unfoldable pub server_bind : Answers → Ctx → Status × Ctx
unfolding ramdisk_ctrl_server_stop
server_bind a c =
    if not (a.bind_rc == 0)
    then (err a.bind_rc, note c (release listen_fd ∷ []))
    else if not (a.listen_rc == 0)
    then (
      err a.listen_rc,
      note c (acquire socket_file ∷ release listen_fd ∷ release socket_file ∷ []),
    )
    else let bound = record (note c (acquire socket_file ∷ [])) { ctrl_initialized = true } in
      if a.ctrl_thread_rc == 0
      then (ok, note bound (acquire ctrl_thread ∷ []))
      else (err a.ctrl_thread_rc, ramdisk_ctrl_server_stop bound)

-- The 256 bytes of `socket_path` are tested before the socket is created, the 108 bytes of
-- `sun_path` after it.
unfoldable pub ramdisk_ctrl_server_start : Answers → Ctx → Status × Ctx
unfolding server_bind
ramdisk_ctrl_server_start a c =
    if leb 256 a.path_len
    then (err enametoolong, c)
    else if not (a.socket_rc == 0)
    then (err a.socket_rc, c)
    else let created = note c (acquire listen_fd ∷ []) in
      if leb 108 a.path_len then (status_of a.socket_errno, created) else server_bind a created

-- From the opened device on.
unfoldable pub setup_sockets : Answers → Ctx → Status × Ctx
setup_sockets a c =
    if not (a.socketpair_rc == 0)
    then (err a.socketpair_rc, c)
    else let paired = record (note c (acquire app_sock ∷ acquire kernel_sock ∷ [])) {
      has_app_sock = true;
      has_kernel_sock = true;
    } in
      if not (a.blksize_rc == 0)
      then (err a.blksize_rc, paired)
      else if not (a.size_rc == 0)
      then (err a.size_rc, paired)
      else if not (a.set_sock_rc == 0)
      then (err a.set_sock_rc, paired)
      else if a.nbd_thread_rc == 0
      then (ok, record (note paired (acquire nbd_thread ∷ [])) { nbd_thread_started = true })
      else (err a.nbd_thread_rc, paired)

unfoldable pub setup_nbd : Answers → Ctx → Status × Ctx
unfolding setup_sockets
setup_nbd a c =
    if not (a.open_rc == 0)
    then (err a.open_rc, c)
    else setup_sockets a (record (note c (acquire nbd_fd ∷ [])) { has_nbd_fd = true })

unfoldable pub cleanup : Ctx → Ctx
unfolding ramdisk_ctrl_server_stop
cleanup c =
    let stopped = ramdisk_ctrl_server_stop c in
    note stopped (
      gives_back stopped.has_app_sock app_sock
      ++ gives_back stopped.has_kernel_sock kernel_sock
      ++ gives_back stopped.nbd_thread_started nbd_thread
      ++ gives_back stopped.has_nbd_fd nbd_fd
      ++ gives_back stopped.urma_initialized manager
      ++ gives_back stopped.backend_ready backend)

abbrev pub zeroed_ctx : Ctx
zeroed_ctx = record {
  backend_ready = false;
  urma_initialized = false;
  ctrl_initialized = false;
  has_nbd_fd = false;
  has_app_sock = false;
  has_kernel_sock = false;
  nbd_thread_started = false;
  log = [];
}

-- What `main` has set up when it gets to `serve_nbd` or to `out`.
unfoldable pub start_daemon : Answers → Status × Ctx
unfolding ramdisk_ctrl_server_start
start_daemon a =
    if not (a.backend_rc == 0)
    then (err a.backend_rc, zeroed_ctx)
    else let backed = record (note zeroed_ctx (acquire backend ∷ [])) { backend_ready = true } in
      if not (a.urma_rc == 0)
      then (err a.urma_rc, backed)
      else let managed = record (note backed (acquire manager ∷ [])) { urma_initialized = true } in
        let (rc, served) = ramdisk_ctrl_server_start a managed in
        elim rc [ err e ↦ (err e, served) | ok ↦ setup_nbd a served ]

-- With command-line arguments that are right: the exit code, and what has been taken and given back.
-- `serve_nbd` itself takes and gives back only its buffer.
unfoldable pub main : Answers → ℕ × Ctx
unfolding start_daemon cleanup
main a = let (rc, c) = start_daemon a in (elim rc [ ok ↦ 0 | err e ↦ 1 ], cleanup c)
