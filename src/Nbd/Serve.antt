-- ===== src/Nbd/Serve.antt =====
-- The loop `serve_nbd` of userspace-nbd/src/nbd_ramdisk.c.
use ddr_direct_storage.Base.{
  ℕ, Bool, true, false, not, Option, none, some, List, [], ◌∷◌, ltb, leb, ◌==◌, if◌then◌else◌,
  ◌>>=◌, Status, ok, err, Bytes, length, load, splice,
}
use ddr_direct_storage.Base.Errno.{enomem, eio}
use ddr_direct_storage.Stream.{
  Received, complete, closed, broken, Written, finished, waits, Conn, recv_full, send_full,
}
use ddr_direct_storage.Backend.{
  Backend, ramdisk_backend_read, ramdisk_backend_write, ramdisk_backend_zero,
}
use ddr_direct_storage.Nbd.Wire.{
  nbd_request_magic, nbd_cmd_read, nbd_cmd_write, nbd_cmd_disc, nbd_cmd_flush, nbd_cmd_trim, ntohl,
  ntohll_u64, NbdRequest, request_size, parse_request, reply_bytes,
}

-- The state of the loop: the RAM disk, the socket, and the buffer, which has `buf_cap` bytes.
pub record Daemon : Type 0 where
  pub backend : Backend
  pub conn : Conn
  pub buf : Option Bytes
  pub buf_cap : ℕ

-- What a turn of the loop meets: whether a signal has set `g_stop`, the object that `realloc` gives,
-- and what `pthread_mutex_lock` returns.
pub record Round : Type 0 where
  pub g_stop : Bool
  pub new_buf : Option Bytes
  pub lock_rc : ℕ

-- How a turn ends: the loop goes on, it is left, or a `write` waits for ever.
pub data Turn : Type 0 where
  again : Turn
  out : Turn
  stuck : Turn

unfoldable pub send_reply : Conn → NbdRequest → Status → Written × Conn
send_reply conn req rc = send_full conn (reply_bytes req rc)

-- `if (send_reply(...) < 0) goto out;`
unfoldable pub reply_or_out : Daemon → NbdRequest → Status → Turn × Daemon
reply_or_out d req rc =
    let (w, conn) = send_reply d.conn req rc in
    (
      elim w [ waits ↦ stuck | finished (err e) ↦ out | finished ok ↦ again ],
      record d { conn = conn },
    )

-- The buffer, made larger where it is too small.
unfoldable pub grow : Round → Daemon → ℕ → Status × Daemon
grow round d len =
    if ltb d.buf_cap len
    then elim round.new_buf [
      | none ↦ (err enomem, d)
      | some m ↦ (ok, record d { buf = some m; buf_cap = len })
    ]
    else (ok, d)

-- The data of a read, behind its reply.
unfoldable pub send_data : Daemon → ℕ → Option (Turn × Daemon)
send_data d len = do
  bytes ← (if len == 0 then some [] else d.buf >>= (λ m. load m 0 len))
  (let (w, conn) = send_full d.conn bytes in
      some (
        elim w [ waits ↦ stuck | finished (err e) ↦ out | finished ok ↦ again ],
        record d { conn = conn },
      ))

-- The reply to a read, with the data where there is no error.
unfoldable pub answer_read : Daemon → NbdRequest → ℕ → Status → Option (Turn × Daemon)
answer_read d req len rc =
    let (t, d') = reply_or_out d req rc in
    elim t [
      | stuck ↦ some (stuck, d')
      | out ↦ some (out, d')
      | again ↦ elim rc [ err e ↦ some (again, d') | ok ↦ send_data d' len ]
    ]

unfoldable pub cmd_read : Round → Daemon → NbdRequest → ℕ → ℕ → Status → Option (Turn × Daemon)
cmd_read round d req from len (err e) = answer_read d req len (err e)
cmd_read round d req from len ok = do
  (rc, b, buf) ← ramdisk_backend_read round.lock_rc d.backend from d.buf len
  answer_read (record d { backend = b; buf = buf }) req len rc

-- What the buffer holds after `read_full`; where it fails, nothing reads the buffer again.
abbrev pub filled : Bytes → Received → Bytes
filled m (complete bs) = splice m 0 bs
filled m closed = m
filled m (broken e) = m

-- `read_full(ctx->app_sock, buf, len)`, which needs a buffer of `len` bytes.
unfoldable pub read_into : Daemon → ℕ → Option (Received × Daemon)
read_into d len = if len == 0 then some (complete [], d) else (do
  m ← d.buf
  (if leb len (length m)
      then (let (r, conn) = recv_full d.conn len in
          some (r, record d { conn = conn; buf = some (filled m r) }))
      else none))

-- An end of the input where the data should start is no failure: `read_full` returns 0 there.
abbrev pub read_failed : Received → Bool
read_failed (complete bs) = false
read_failed closed = false
read_failed (broken e) = true

-- The rest of a write, once its data are in the buffer.
unfoldable pub write_data : Round → Daemon → NbdRequest → ℕ → ℕ → Status → Option (Turn × Daemon)
write_data round d req from len (err e) = some (reply_or_out d req (err e))
write_data round d req from len ok = do
  (rc, b) ← ramdisk_backend_write round.lock_rc d.backend from d.buf len
  some (reply_or_out (record d { backend = b }) req rc)

unfoldable pub cmd_write : Round → Daemon → NbdRequest → ℕ → ℕ → Status → Option (Turn × Daemon)
cmd_write round d req from len grown = do
  (r, d') ← read_into d len
  (if read_failed r then some (out, d') else write_data round d' req from len grown)

unfoldable pub cmd_trim : Round → Daemon → NbdRequest → ℕ → ℕ → Option (Turn × Daemon)
cmd_trim round d req from len = do
  (rc, b) ← ramdisk_backend_zero round.lock_rc d.backend from len
  some (reply_or_out (record d { backend = b }) req rc)

-- The reply to a disconnect is sent, but it does not matter whether it is.
unfoldable pub cmd_disc : Daemon → NbdRequest → Turn × Daemon
cmd_disc d req =
    let (w, conn) = send_reply d.conn req ok in
    (elim w [ waits ↦ stuck | finished rc ↦ out ], record d { conn = conn })

-- The `switch`. Its default case asks once more for a write, which it cannot be.
unfoldable pub serve_request : Round → Daemon → NbdRequest → Option (Turn × Daemon)
serve_request round d req =
    let type = ntohl req.type in
    let from = ntohll_u64 req.from in
    let len = ntohl req.len in
    let (grown, d') = grow round d len in
    if type == nbd_cmd_read
    then cmd_read round d' req from len grown
    else if type == nbd_cmd_write
    then cmd_write round d' req from len grown
    else if type == nbd_cmd_flush
    then some (reply_or_out d' req ok)
    else if type == nbd_cmd_trim
    then cmd_trim round d' req from len
    else if type == nbd_cmd_disc
    then some (cmd_disc d' req)
    else some (reply_or_out d' req (err eio))

-- A turn of the loop, behind the test of `g_stop`.
unfoldable pub serve_open : Round → Daemon → Option (Turn × Daemon)
serve_open round d =
    let (r, conn) = recv_full d.conn request_size in
    let d' = record d { conn = conn } in
    elim r [
      | closed ↦ some (out, d')
      | broken e ↦ some (out, d')
      | complete bytes ↦
          let req = parse_request bytes in
          if not (ntohl req.magic == nbd_request_magic)
          then some (out, d')
          else serve_request round d' req
    ]

unfoldable pub serve_turn : Round → Daemon → Option (Turn × Daemon)
serve_turn round d = if round.g_stop then some (out, d) else serve_open round d

-- The loop, for as many turns as there are rounds.
unfoldable pub serve_loop : List Round → Daemon → Option (Turn × Daemon)
serve_loop [] d = some (again, d)
serve_loop (round ∷ rounds) d = do
  (t, d') ← serve_turn round d
  elim t [ again ↦ serve_loop rounds d' | out ↦ some (out, d') | stuck ↦ some (stuck, d') ]

-- It starts without a buffer, and frees the one that it has at the end.
unfoldable pub serve_nbd : List Round → Backend → Conn → Option (Turn × Daemon)
serve_nbd rounds backend conn = do
  (t, d) ← serve_loop rounds (record { backend = backend; conn = conn; buf = none; buf_cap = 0 })
  some (elim t [
    | again ↦ (again, d)
    | stuck ↦ (stuck, d)
    | out ↦ (out, record d { buf = none; buf_cap = 0 })
  ])
