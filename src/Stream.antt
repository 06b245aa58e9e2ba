-- ===== src/Stream.antt =====
-- Sockets, and the loops `read_full` and `write_full` that userspace-nbd/src/ramdisk_ctrl_server.c and
-- nbd_ramdisk.c share.
pub mod Chunks
pub mod Sending
use ddr_direct_storage.Base.{
  ℕ, zero, suc, ◌-◌, Option, none, some, List, [], ◌∷◌, ◌++◌, leb, ◌==◌, if◌then◌else◌, Status, ok,
  err, Bytes, length, take, drop,
}
use ddr_direct_storage.Base.Errno.{epipe}

-- What the next `read` of a socket finds: bytes that have arrived, of which it takes as many as it
-- has room for; a signal (`EINTR`); or another error. The list ends where the other side has closed.
pub data Arrival : Type 0 where
  got : Bytes → Arrival
  intr : Arrival
  failed : ℕ → Arrival

-- The result of `read_full`: all the bytes asked for, the end of the input before the first of them,
-- or an error.
pub data Received : Type 0 where
  complete : Bytes → Received
  closed : Received
  broken : ℕ → Received

-- `done == 0 ? 0 : -EPIPE`, where `acc` are the bytes read so far.
abbrev pub at_end : Bytes → Received
at_end [] = closed
at_end (b ∷ acc) = broken epipe

-- Bytes that a `read` had no room for are there for the next.
abbrev pub leftover : Bytes → List Arrival → List Arrival
leftover [] es = es
leftover (b ∷ bs) es = got (b ∷ bs) ∷ es

-- The loop with `len - done` bytes to go. A `read` that takes no bytes returns 0.
unfoldable pub read_loop : List Arrival → ℕ → Bytes → Received × List Arrival
read_loop es zero acc = (complete acc, es)
read_loop [] (suc n) acc = (at_end acc, [])
read_loop (intr ∷ es) (suc n) acc = read_loop es (suc n) acc
read_loop (failed e ∷ es) (suc n) acc = (broken e, es)
read_loop (got [] ∷ es) (suc n) acc = (at_end acc, es)
read_loop (got (b ∷ bs) ∷ es) (suc n) acc =
    let more = read_loop es (n - length bs) (acc ++ b ∷ bs) in
    if leb (suc n) (length (b ∷ bs))
    then (complete (acc ++ take (suc n) (b ∷ bs)), leftover (drop (suc n) (b ∷ bs)) es)
    else more

unfoldable pub read_full : List Arrival → ℕ → Received × List Arrival
unfolding read_loop
read_full es len = read_loop es len []

-- What the next `write` does: it accepts some of the bytes, at most those it is given; a signal; or
-- another error. Where the list ends, it waits.
pub data Room : Type 0 where
  accepts : ℕ → Room
  signal : Room
  refuses : ℕ → Room

pub data Written : Type 0 where
  finished : Status → Written
  waits : Written

-- The result, the bytes written after those written before, and the room left.
unfoldable pub write_full : List Room → Bytes → Bytes → Written × Bytes × List Room
write_full rs [] out = (finished ok, out, rs)
write_full [] (b ∷ bs) out = (waits, out, [])
write_full (signal ∷ rs) (b ∷ bs) out = write_full rs (b ∷ bs) out
write_full (refuses e ∷ rs) (b ∷ bs) out = (finished (err e), out, rs)
write_full (accepts n ∷ rs) (b ∷ bs) out = write_full rs (drop n (b ∷ bs)) (out ++ take n (b ∷ bs))

-- A connected socket: what arrives, what has been sent, and the room for more.
pub record Conn : Type 0 where
  pub input : List Arrival
  pub sent : Bytes
  pub room : List Room

unfoldable pub recv_full : Conn → ℕ → Received × Conn
recv_full conn len = let (r, rest) = read_full conn.input len in (r, record conn { input = rest })

unfoldable pub send_full : Conn → Bytes → Written × Conn
send_full conn bytes =
    let (w, sent, room) = write_full conn.room bytes conn.sent in
    (w, record conn { sent = sent; room = room })

-- Two writes, the second one only where it has bytes and the first one has succeeded.
unfoldable pub send_both : Conn → Bytes → Bytes → Written × Conn
send_both conn first second =
    let (w, conn') = send_full conn first in
    elim w [
      | waits ↦ (waits, conn')
      | finished (err e) ↦ (finished (err e), conn')
      | finished ok ↦ if length second == 0 then (finished ok, conn') else send_full conn' second
    ]
