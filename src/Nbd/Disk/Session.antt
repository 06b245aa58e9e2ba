-- ===== src/Nbd/Disk/Session.antt =====
-- A whole session of `serve_nbd`, up to the end of the input.
use ddr_direct_storage.Base.{
  Bool, true, subst, ℕ, ◌+◌, ◌≤◌, ◌≡◌, refl, sym, ap, ◌∙◌, false, none, some, List, [], ◌∷◌, ◌++◌,
  arith, leb, if◌then◌else◌, Bool-cases, inl, inr, Bytes, length, append-nil, append_assoc,
  length-append, length-slice,
}
use ddr_direct_storage.Stream.{Conn, closed, at_end, recv_full}
use ddr_direct_storage.Stream.Chunks.{Carries, read_full_lem}
use ddr_direct_storage.Stream.Sending.{Open, turns}
use ddr_direct_storage.Backend.{Backend}
use ddr_direct_storage.Backend.Range.{Holds}
use ddr_direct_storage.Nbd.Serve.{Daemon, Round, out, serve_open, serve_turn, serve_loop, serve_nbd}
use ddr_direct_storage.Nbd.Disk.{
  Command, read, write, flush, trim, unknown, len_of, apply, wire_answer, CommandFits, Ending,
  closes, disconnects, ready_for, stream, session,
}
use ddr_direct_storage.Nbd.Disk.Steps.{HasBuf, has_buf, empty, Gives}
use ddr_direct_storage.Nbd.Disk.Requests.{cost}
use ddr_direct_storage.Nbd.Disk.Turn.{DisconnectFits, serve_turn_lem, serve_turn_disc}

-- At the end of the input the loop is left.
serve_turn_end :
    (round : Round) (d : Daemon)
    → Carries d.conn.input []
    → (conn : Conn) × (serve_turn round d ≡ some (out, record d { conn = conn }))
      × (conn.sent ≡ d.conn.sent)
unfolding serve_turn serve_open recv_full
serve_turn_end round d (calm, e) = elim (Bool-cases round.g_stop) [
  | inl stop ↦ (d.conn, ap (λ b. if b then some (out, d) else serve_open round d) stop, refl)
  | inr goes ↦
      let ends : (recv_full d.conn 28).0 ≡ closed =
        (read_full_lem d.conn.input 28 calm).1 (omega (arith, ap length e)) ∙ ap at_end e in
      let left : serve_open round d ≡ some (out, record d { conn = (recv_full d.conn 28).1 }) =
        rw (serve_open, ends) refl in
      (
        (recv_full d.conn 28).1,
        ap (λ b. if b then some (out, d) else serve_open round d) goes ∙ left,
        refl,
      )
]

short_data : (ready : Bool) (m : Bytes) (c : Command) → length (apply ready m c).1 ≤ len_of c
short_data false m (read from len) = omega arith
short_data false m (write from bytes) = omega arith
short_data true m (read from len) = elim (Bool-cases (leb (from + len) (length m))) [
  | inl inside ↦ rw inside (omega (arith, length-slice m from len (ground (arith, inside))))
  | inr outside ↦ rw outside (omega arith)
]
short_data true m (write from bytes) = elim (Bool-cases (leb (from + length bytes) (length m))) [
  | inl inside ↦ rw inside (omega arith)
  | inr outside ↦ rw outside (omega arith)
]
short_data ready m flush = omega arith
short_data ready m (trim from len) = elim (Bool-cases (leb (from + len) (length m))) [
  | inl inside ↦ rw inside (omega arith)
  | inr outside ↦ rw outside (omega arith)
]
short_data ready m (unknown type from len) = omega arith

short_answer :
    (ready : Bool) (m : Bytes) (handle : Bytes) (c : Command)
    → length handle ≡ 8
    → let (rc, bytes, m') = apply ready m c in length (wire_answer handle rc bytes) ≤ cost c
short_answer ready m handle c size =
    omega (arith, size, length-append handle (apply ready m c).1, short_data ready m c)

-- What the loop needs of the sockets for a list of requests and the end.
abbrev pub budget : List (Bytes × Command) → ℕ
budget [] = 16
budget ((handle, c) ∷ cs) = cost c + budget cs

-- What a request to disconnect needs: that no signal stops the loop, and memory for its length.
abbrev pub Ends : Round → Ending → Type 0
Ends round closes = Unit {0}
Ends round (disconnects handle from len rest) =
    DisconnectFits handle from len × (round.g_stop ≡ false) × Gives round len

-- No signal stops the loop, the lock is taken, and there is memory for each request; a round more
-- finds the end.
abbrev pub Served : List Round → List (Bytes × Command) → Ending → Type 0
Served [] cs e = ⊥
Served (round ∷ rounds) [] e = Ends round e
Served (round ∷ rounds) ((handle, c) ∷ cs) e =
    CommandFits handle c
    × (round.g_stop ≡ false)
    × (round.lock_rc ≡ 0)
    × Gives round (len_of c)
    × Served rounds cs e

serve_end :
    (round : Round) (e : Ending) (d : Daemon) (ready : Bool) (m : Bytes)
    → Ends round e
    → Holds d.backend m
    → HasBuf d
    → Open d.conn.room
    → Carries d.conn.input (stream [] e)
    → 16 ≤ turns d.conn.room
    → let (answers, m') = session ready m [] e in
      (d' : Daemon) × (serve_turn round d ≡ some (out, d'))
      × Holds d'.backend m'
      × (d'.conn.sent ≡ d.conn.sent ++ answers)
serve_end round closes d ready m ends backs buf o carries enough =
    let (conn, e, same) = serve_turn_end round d carries in
    (record d { conn = conn }, e, backs, same ∙ sym (append-nil d.conn.sent))
serve_end round (disconnects handle from len rest) d ready m (fits, goes, memory) backs buf o
      carries enough =
    serve_turn_disc round d m handle from len rest fits goes memory backs buf o carries enough

-- The loop answers as the session does.
abbrev Loops : List Round → List (Bytes × Command) → Ending → Daemon → Bool → Bytes → Type 0
Loops rounds cs e d ready m =
    let (answers, m') = session ready m cs e in
    (d' : Daemon) × (serve_loop rounds d ≡ some (out, d'))
    × Holds d'.backend m'
    × (d'.conn.sent ≡ d.conn.sent ++ answers)

serve_loop_lem :
    (rounds : List Round) (cs : List (Bytes × Command)) (e : Ending) (d : Daemon) (ready : Bool)
    (m : Bytes)
    → has_buf d ≡ ready
    → Served rounds cs e
    → Holds d.backend m
    → HasBuf d
    → Open d.conn.room
    → Carries d.conn.input (stream cs e)
    → budget cs ≤ turns d.conn.room
    → Loops rounds cs e d ready m
unfolding serve_loop
serve_loop_lem [] cs end d ready m same served backs buf o carries enough = absurd served
serve_loop_lem (round ∷ rounds) [] end d ready m same served backs buf o carries enough =
    let (d', e, after, sent) = serve_end round end d ready m served backs buf o carries enough in
    (d', rw (serve_loop, e) refl, after, sent)
serve_loop_lem (round ∷ rounds) ((handle, c) ∷ cs) end d ready m same served backs buf o carries
      enough =
    subst (λ r. Loops (round ∷ rounds) ((handle, c) ∷ cs) end d r m) same
      (let (fits, goes, lock, memory, more) = served in
        let ready' = ready_for (has_buf d) c in
        let (rc, bytes, m') = apply ready' m c in
        let (d1, e, after) =
          serve_turn_lem round d m handle c (stream cs end) fits goes lock memory backs buf o
            carries (omega (arith, enough)) in
        let (d2, loop, backs2, sent) =
          serve_loop_lem rounds cs end d1 ready' m' after.with_buf more after.Backs after.Buf
            after.Still after.Left
            (omega (arith, enough, after.left, short_answer ready' m handle c fits.handle_)) in
        let (answers, m'') = session ready' m' cs end in
        (
          d2,
          rw (serve_loop, e) loop,
          backs2,
          sent
              ∙ ap (λ l. l ++ answers) after.sent
              ∙ append_assoc d.conn.sent (wire_answer handle rc bytes) answers,
        ))

-- Where no call of the system fails, the daemon is a disk of bytes: for any list of requests of the
-- protocol and of other types, each of any range and length, cut up on the socket in any way, it
-- answers each in turn as the array of bytes does, with ERANGE for a range that leaves the disk, EIO for
-- a type that is none, and EINVAL for a read or a write without bytes before any request with a length;
-- it leaves its RAM disk with the bytes of that array, and it ends with the input, or with a request to
-- disconnect, which it answers and behind which it reads nothing.
pub serve_nbd_lem :
    (rounds : List Round) (cs : List (Bytes × Command)) (e : Ending) (b : Backend) (m : Bytes)
    (conn : Conn)
    → Served rounds cs e
    → Holds b m
    → Open conn.room
    → Carries conn.input (stream cs e)
    → budget cs ≤ turns conn.room
    → let (answers, m') = session false m cs e in
      (d : Daemon) × (serve_nbd rounds b conn ≡ some (out, d))
      × Holds d.backend m'
      × (d.conn.sent ≡ conn.sent ++ answers)
      × (d.buf ≡ none)
unfolding serve_nbd
serve_nbd_lem rounds cs end b m conn served backs o carries enough =
    let d0 : Daemon = record { backend = b; conn = conn; buf = none; buf_cap = 0 } in
    let (d, e, after, sent) =
      serve_loop_lem rounds cs end d0 false m refl served backs (empty refl refl) o carries
        enough in
    (record d { buf = none; buf_cap = 0 }, rw (serve_nbd, e) refl, after, sent, refl)
