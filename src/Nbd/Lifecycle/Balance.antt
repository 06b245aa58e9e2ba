-- ===== src/Nbd/Lifecycle/Balance.antt =====
-- The daemon gives back what it takes.
use ddr_direct_storage.Base.{
  ℕ, ◌≡◌, refl, sym, subst, true, false, some, [], ◌∷◌, ◌==◌, Status, ok, err, ◌<◌, arith,
  Bool-cases, inl, inr, ◌⊎◌, leb,
}
use ddr_direct_storage.Ledger.{acquire, release, replay}
use ddr_direct_storage.Nbd.Lifecycle.{
  number, Ctx, note, Answers, ramdisk_ctrl_server_start, server_bind, ramdisk_ctrl_server_stop,
  setup_nbd, setup_sockets, cleanup, start_daemon, zeroed_ctx, main, backend, manager, listen_fd,
  socket_file, ctrl_thread,
}

-- The books are balanced once `c` has been cleaned up.
abbrev Balanced : Ctx → Type 0
Balanced c = replay number [] (cleanup c).log ≡ some []

-- The context before the control server is started.
abbrev managed : Ctx
managed = record zeroed_ctx {
  backend_ready = true;
  urma_initialized = true;
  log = acquire backend ∷ acquire manager ∷ [];
}

-- The context before the nbd device is opened, with the control server.
abbrev served : Ctx
served = record {
  backend_ready = true;
  urma_initialized = true;
  ctrl_initialized = true;
  has_nbd_fd = false;
  has_app_sock = false;
  has_kernel_sock = false;
  nbd_thread_started = false;
  log =
      acquire backend
      ∷ acquire manager
      ∷ acquire listen_fd
      ∷ acquire socket_file
      ∷ acquire ctrl_thread
      ∷ [];
}

sockets-Balanced : (a : Answers) → Balanced (setup_nbd a served).1
unfolding setup_nbd setup_sockets cleanup ramdisk_ctrl_server_stop
sockets-Balanced a = elim (Bool-cases (a.open_rc == 0)) [
  | inr e ↦ rw e refl
  | inl e1 ↦ elim (Bool-cases (a.socketpair_rc == 0)) [
    | inr e ↦ rw (e1, e) refl
    | inl e2 ↦ elim (Bool-cases (a.blksize_rc == 0)) [
      | inr e ↦ rw (e1, e2, e) refl
      | inl e3 ↦ elim (Bool-cases (a.size_rc == 0)) [
        | inr e ↦ rw (e1, e2, e3, e) refl
        | inl e4 ↦ elim (Bool-cases (a.set_sock_rc == 0)) [
          | inr e ↦ rw (e1, e2, e3, e4, e) refl
          | inl e5 ↦ elim (Bool-cases (a.nbd_thread_rc == 0)) [
            | inr e ↦ rw (e1, e2, e3, e4, e5, e) refl
            | inl e6 ↦ rw (e1, e2, e3, e4, e5, e6) refl
          ]
        ]
      ]
    ]
  ]
]

-- The control server starts, or has given back what it took.
server_cases :
    (a : Answers)
    → a.path_len < 108
    → a.ctrl_thread_rc ≡ 0
    → (ramdisk_ctrl_server_start a managed ≡ (ok, served))
      ⊎ ((e : ℕ) × (c : Ctx) × (ramdisk_ctrl_server_start a managed ≡ (err e, c)) × Balanced c)
unfolding ramdisk_ctrl_server_start server_bind cleanup ramdisk_ctrl_server_stop
server_cases a short thread =
    let fits : leb 256 a.path_len ≡ false = ground (arith, short) in
    let fits' : leb 108 a.path_len ≡ false = ground (arith, short) in
    let runs : (a.ctrl_thread_rc == 0) ≡ true = ground (arith, thread) in
    let created = note managed (acquire listen_fd ∷ []) in
    elim (Bool-cases (a.socket_rc == 0)) [
      | inr e ↦ inr (a.socket_rc, managed, rw (fits, e) refl, refl)
      | inl e3 ↦ elim (Bool-cases (a.bind_rc == 0)) [
        | inr e ↦
            inr
              (a.bind_rc, note created (release listen_fd ∷ []), rw (fits, e3, fits', e) refl, refl)
        | inl e4 ↦ elim (Bool-cases (a.listen_rc == 0)) [
          | inr e ↦ inr (
            a.listen_rc,
            note created (acquire socket_file ∷ release listen_fd ∷ release socket_file ∷ []),
            rw (fits, e3, fits', e4, e) refl,
            refl,
          )
          | inl e5 ↦ inl (rw (fits, e3, fits', e4, e5, runs) refl)
        ]
      ]
    ]

start-Balanced :
    (a : Answers) → a.path_len < 108 → a.ctrl_thread_rc ≡ 0 → Balanced (start_daemon a).1
unfolding start_daemon cleanup ramdisk_ctrl_server_stop
start-Balanced a short thread = elim (Bool-cases (a.backend_rc == 0)) [
  | inr e ↦ rw (start_daemon, e) refl
  | inl e1 ↦ elim (Bool-cases (a.urma_rc == 0)) [
    | inr e ↦ rw (start_daemon, e1, e) refl
    | inl e2 ↦ elim (server_cases a short thread) [
      | inl begun ↦
          let reaches : start_daemon a ≡ setup_nbd a served =
            rw (start_daemon, e1, e2, begun, begun) refl in
          subst (λ (p : Status × Ctx). Balanced p.1) (sym reaches) (sockets-Balanced a)
      | inr (e, c, fails, balanced) ↦
          let reaches : start_daemon a ≡ (err e, c) =
            rw (start_daemon, e1, e2, fails, fails) refl in
          subst (λ (p : Status × Ctx). Balanced p.1) (sym reaches) balanced
    ]
  ]
]

-- Whatever else fails while the daemon starts, and also if nothing does, it has given back all that it
-- took, nothing twice and nothing that it did not hold, when it ends: provided that the path of the
-- control socket has fewer than 108 characters and the thread of the control server can be created.
pub main-Balanced :
    (a : Answers)
    → a.path_len < 108
    → a.ctrl_thread_rc ≡ 0
    → replay number [] (main a).1.log ≡ some []
unfolding main
main-Balanced a short thread = start-Balanced a short thread
