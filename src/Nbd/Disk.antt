-- ===== src/Nbd/Disk.antt =====
-- A disk as the clients of userspace-nbd/src/nbd_ramdisk.c know it: an array of bytes, and what the
-- requests of the protocol do to it.
pub mod Requests
pub mod Steps
pub mod Serving
pub mod Turn
pub mod Session
use ddr_direct_storage.Base.{
  Bool, not, ◌||◌, ltb, ℕ, ◌+◌, ◌<◌, ◌≡◌, ◌^◌, Bytes, length, slice, splice, zeros, Status, ok, err,
  leb, if◌then◌else◌, [], ◌∷◌, ◌++◌, List,
}
use ddr_direct_storage.Base.Errno.{erange, eio, einval}
use ddr_direct_storage.Nbd.Wire.{
  nbd_cmd_read, nbd_cmd_write, nbd_cmd_flush, nbd_cmd_trim, nbd_cmd_disc, wire_request, wire_reply,
  error_of,
}

pub data Command : Type 0 where
  read : ℕ → ℕ → Command
  write : ℕ → Bytes → Command
  flush : Command
  trim : ℕ → ℕ → Command
  unknown : ℕ → ℕ → ℕ → Command

abbrev pub type_of : Command → ℕ
type_of (read from len) = nbd_cmd_read
type_of (write from bytes) = nbd_cmd_write
type_of flush = nbd_cmd_flush
type_of (trim from len) = nbd_cmd_trim
type_of (unknown type from len) = type

abbrev pub from_of : Command → ℕ
from_of (read from len) = from
from_of (write from bytes) = from
from_of flush = 0
from_of (trim from len) = from
from_of (unknown type from len) = from

abbrev pub len_of : Command → ℕ
len_of (read from len) = len
len_of (write from bytes) = length bytes
len_of flush = 0
len_of (trim from len) = len
len_of (unknown type from len) = len

abbrev pub data_of : Command → Bytes
data_of (read from len) = []
data_of (write from bytes) = bytes
data_of flush = []
data_of (trim from len) = []
data_of (unknown type from len) = []

-- The status, the data that are read, and the disk afterwards. A request that leaves the disk is
-- refused and changes nothing. `ready` says whether there has been a request with a length yet, this one
-- included: before that a read or a write, which then has no bytes, is refused.
abbrev pub apply : Bool → Bytes → Command → Status × Bytes × Bytes
apply ready m (read from len) =
    if not ready
    then (err einval, [], m)
    else if leb (from + len) (length m)
    then (ok, slice m from len, m)
    else (err erange, [], m)
apply ready m (write from bytes) =
    if not ready
    then (err einval, [], m)
    else if leb (from + length bytes) (length m)
    then (ok, [], splice m from bytes)
    else (err erange, [], m)
apply ready m flush = (ok, [], m)
apply ready m (trim from len) =
    if leb (from + len) (length m) then (ok, [], splice m from (zeros len)) else (err erange, [], m)
apply ready m (unknown type from len) = (err eio, [], m)

abbrev pub ready_for : Bool → Command → Bool
ready_for ready c = ready || ltb 0 (len_of c)

-- What the protocol sends for a request with this handle, and in reply.
abbrev pub wire : Bytes → Command → Bytes
wire handle c = wire_request (type_of c) handle (from_of c) (len_of c) ++ data_of c

abbrev pub wire_answer : Bytes → Status → Bytes → Bytes
wire_answer handle rc bytes = wire_reply handle (error_of rc) ++ bytes

-- A request that is none of the protocol's.
abbrev pub Sensible : Command → Type 0
Sensible (read from len) = Unit {0}
Sensible (write from bytes) = Unit {0}
Sensible flush = Unit {0}
Sensible (trim from len) = Unit {0}
Sensible (unknown type from len) = (4 < type) × (type < 2 ^ 32)

-- The fields fit their types.
pub record CommandFits (handle : Bytes) (c : Command) : Type 0 where
  pub handle_ : length handle ≡ 8
  pub from : from_of c < 2 ^ 64
  pub len : len_of c < 2 ^ 32
  pub Sane : Sensible c

-- How a session ends: the input does, or a request to disconnect comes, whatever its range, and with
-- anything behind it.
pub data Ending : Type 0 where
  closes : Ending
  disconnects : Bytes → ℕ → ℕ → Bytes → Ending

-- What arrives for a list of requests, and the answers to it with the disk in the end.
abbrev pub stream : List (Bytes × Command) → Ending → Bytes
stream [] closes = []
stream [] (disconnects handle from len rest) = wire_request nbd_cmd_disc handle from len ++ rest
stream ((handle, c) ∷ cs) e = wire handle c ++ stream cs e

abbrev pub session : Bool → Bytes → List (Bytes × Command) → Ending → Bytes × Bytes
session ready m [] closes = ([], m)
session ready m [] (disconnects handle from len rest) = (wire_answer handle ok [], m)
session ready m ((handle, c) ∷ cs) e =
    let ready' = ready_for ready c in
    let (rc, bytes, m') = apply ready' m c in
    let (answers, m'') = session ready' m' cs e in (wire_answer handle rc bytes ++ answers, m'')
