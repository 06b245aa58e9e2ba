-- ===== src/Nbd/Tests.antt =====
-- Concrete runs of the daemon.
use ddr_direct_storage.Base.{
  ℕ, ◌≡◌, ◌≢◌, refl, ◌++◌, ◌&&◌, true, false, none, some, List, [], ◌∷◌, Bytes, take, drop,
  replicate, arith, ltb, ◌==◌, is_none,
}
use ddr_direct_storage.Backend.{Backend}
use ddr_direct_storage.Backend.Range.{Holds}
use ddr_direct_storage.Ledger.{replay}
use ddr_direct_storage.Stream.{got, intr, accepts, Conn}
use ddr_direct_storage.Nbd.Wire.{NbdRequest, ntohl, nbd_cmd_write}
use ddr_direct_storage.Nbd.Serve.{Daemon, Round, out, serve_request, serve_nbd}
use ddr_direct_storage.Nbd.Disk.{Ending, disconnects, Command, read, write, flush, stream, session}
use ddr_direct_storage.Nbd.Disk.Steps.{holds}
use ddr_direct_storage.Nbd.Disk.Session.{Served, serve_nbd_lem}
use ddr_direct_storage.Nbd.Memory.{serve_request_undefined}
use ddr_direct_storage.Nbd.Args.{
  Opt, device, size, block_size, urma_tp_type, Args, defaults, parse_args,
}
use ddr_direct_storage.Nbd.Args.Bounds.{Sane, parse_args-Sane}
use ddr_direct_storage.Nbd.Lifecycle.{number, Answers, main}
use ddr_direct_storage.Nbd.Lifecycle.Balance.{main-Balanced}

abbrev memory : Bytes
memory = 1 ∷ 2 ∷ 3 ∷ 4 ∷ 5 ∷ 6 ∷ []

abbrev disk : Backend
disk = record { base = some memory; size = 6; block_size = 512; locked = false; initialized = true }

abbrev handle : ℕ → Bytes
handle n = n ∷ 0 ∷ 0 ∷ 0 ∷ 0 ∷ 0 ∷ 0 ∷ 0 ∷ []

-- A read of no bytes, which comes too early, a write, a read of it, a read that leaves the disk, and a
-- flush.
abbrev requests : List (Bytes × Command)
requests =
    (handle 0, read 0 0)
    ∷ (handle 1, write 2 (9 ∷ 8 ∷ []))
    ∷ (handle 2, read 1 4)
    ∷ (handle 3, read 5 4)
    ∷ (handle 4, flush)
    ∷ []

abbrev round_of : ℕ → Round
round_of n = record { g_stop = false; new_buf = some (replicate n 7); lock_rc = 0 }

-- The client disconnects, with something behind that.
abbrev end : Ending
end = disconnects (handle 6) 0 0 (1 ∷ 2 ∷ [])

abbrev rounds : List Round
rounds = round_of 0 ∷ round_of 2 ∷ round_of 4 ∷ round_of 4 ∷ round_of 0 ∷ round_of 0 ∷ []

abbrev kernel_side : Conn
kernel_side = record {
  input = got (take 5 (stream requests end)) ∷ intr ∷ got (drop 5 (stream requests end)) ∷ [];
  sent = [];
  room = replicate 120 (accepts 3);
}

all-Served : Served rounds requests end
all-Served = (
  record { handle_ = refl; from = omega arith; len = omega arith; Sane = tt },
  refl,
  refl,
  ([], refl, refl),
  (
    record { handle_ = refl; from = omega arith; len = omega arith; Sane = tt },
    refl,
    refl,
    (7 ∷ 7 ∷ [], refl, refl),
    (
      record { handle_ = refl; from = omega arith; len = omega arith; Sane = tt },
      refl,
      refl,
      (7 ∷ 7 ∷ 7 ∷ 7 ∷ [], refl, refl),
      (
        record { handle_ = refl; from = omega arith; len = omega arith; Sane = tt },
        refl,
        refl,
        (7 ∷ 7 ∷ 7 ∷ 7 ∷ [], refl, refl),
        (
          record { handle_ = refl; from = omega arith; len = omega arith; Sane = tt },
          refl,
          refl,
          ([], refl, refl),
          (
            record { handle_ = refl; from_fits = omega arith; len_fits = omega arith },
            refl,
            ([], refl, refl),
          ),
        ),
      ),
    ),
  ),
)

session_outcome : (session false memory requests end).1 ≡ 1 ∷ 2 ∷ 9 ∷ 8 ∷ 5 ∷ 6 ∷ []
session_outcome = refl

serve_nbd_lem_example :
    (d : Daemon) × (serve_nbd rounds disk kernel_side ≡ some (out, d))
    × Holds d.backend (1 ∷ 2 ∷ 9 ∷ 8 ∷ 5 ∷ 6 ∷ [])
    × (d.conn.sent ≡ kernel_side.sent ++ (session false memory requests end).0)
    × (d.buf ≡ none)
serve_nbd_lem_example =
    serve_nbd_lem rounds requests end disk memory kernel_side all-Served (refl, refl, refl) tt
      ((omega arith, (omega arith, tt)), refl) (omega arith)

-- A write of 4 bytes, with a buffer of 2 and no memory for more.
abbrev no_memory : Round
no_memory = record { g_stop = false; new_buf = none; lock_rc = 0 }

abbrev short_buffer : Daemon
short_buffer = record { backend = disk; conn = kernel_side; buf = some (7 ∷ 7 ∷ []); buf_cap = 2 }

abbrev long_write : NbdRequest
long_write = record { magic = 0; type = 16777216; handle = handle 5; from = 0; len = 67108864 }

serve_request_undefined_example : is_none (serve_request no_memory short_buffer long_write) ≡ (
    ntohl long_write.type == nbd_cmd_write
    && (ltb short_buffer.buf_cap (ntohl long_write.len) && is_none no_memory.new_buf))
serve_request_undefined_example =
    serve_request_undefined no_memory short_buffer memory long_write (refl, refl, refl)
      (holds (7 ∷ 7 ∷ []) refl refl) (λ g e. ground (arith, e))

is_undefined :
    (ntohl long_write.type == nbd_cmd_write
      && (ltb short_buffer.buf_cap (ntohl long_write.len) && is_none no_memory.new_buf))
    ≡ true
unfolding ntohl
is_undefined = refl

-- The number 4 with `K` behind it, whatever the text; and the number 7.
abbrev four_k : Bytes → ℕ × Bytes
four_k text = (4, 75 ∷ [])

abbrev seven : ℕ → Bytes → ℕ
seven base text = 7

abbrev options : List Opt
options =
    device (47 ∷ [])
    ∷ size (52 ∷ 75 ∷ [])
    ∷ block_size (55 ∷ [])
    ∷ urma_tp_type (114 ∷ 116 ∷ 112 ∷ [])
    ∷ []

abbrev parsed : Args
parsed = record defaults {
  device_ = some (47 ∷ []);
  size_ = 4096;
  block_size_ = 7;
  urma_tp_type_ = 0;
}

parses : parse_args four_k seven options ≡ some parsed
unfolding parse_args
parses = refl

parse_args-Sane_example :
    Sane parsed × (parsed.size_ ≢ 0) × ((name : Bytes) × (parsed.device_ ≡ some name))
parse_args-Sane_example = parse_args-Sane four_k seven options parsed parses

-- The device cannot be given its size.
abbrev size_fails : Answers
size_fails = record {
  backend_rc = 0;
  urma_rc = 0;
  path_len = 28;
  socket_rc = 0;
  socket_errno = 0;
  bind_rc = 0;
  listen_rc = 0;
  ctrl_thread_rc = 0;
  open_rc = 0;
  socketpair_rc = 0;
  blksize_rc = 0;
  size_rc = 22;
  set_sock_rc = 0;
  nbd_thread_rc = 0;
}

main-Balanced_example : replay number [] (main size_fails).1.log ≡ some []
main-Balanced_example = main-Balanced size_fails (omega arith) refl
