-- ===== src/Nbd/Disk/Serving.antt =====
-- What each command of `serve_nbd` does where nothing fails.
use ddr_direct_storage.Base.{
  Bool, not, none, true, is_none, ℕ, ◌+◌, ◌<◌, ◌≤◌, ◌≡◌, ◌^◌, refl, sym, ap, ◌∙◌, subst, false,
  some, [], ◌++◌, arith, leb, Bool-cases, inl, inr, Status, ok, err, Bytes, length, slice, splice,
  zeros, append-nil, length-splice, length-slice, slice-splice_eq,
}
use ddr_direct_storage.Base.Errno.{erange, einval}
use ddr_direct_storage.Stream.{finished}
use ddr_direct_storage.Stream.Chunks.{Carries}
use ddr_direct_storage.Stream.Sending.{Open, turns, Sends, Sends-trans}
use ddr_direct_storage.Backend.{
  Backend, ramdisk_backend_read, ramdisk_backend_write, ramdisk_backend_zero,
}
use ddr_direct_storage.Backend.Range.{Holds}
use ddr_direct_storage.Backend.Access.{read_lem, write_lem, zero_lem}
use ddr_direct_storage.Nbd.Wire.{NbdRequest, error_of, wire_reply}
use ddr_direct_storage.Nbd.Serve.{
  Daemon, Round, again, reply_or_out, answer_read, cmd_read, read_into, write_data, cmd_write,
  cmd_trim,
}
use ddr_direct_storage.Nbd.Disk.{read, write, trim, apply, wire_answer}
use ddr_direct_storage.Nbd.Disk.Steps.{
  HasBuf, empty, holds, has_buf, Roomy, reply_lem, send_data_lem, read_into_lem,
}

-- The disk `m` has been served one request more, with this answer, and `rest` is still to be read;
-- `ready` says whether there is a buffer.
pub record After (d' d : Daemon) (ready : Bool) (m answer rest : Bytes) : Type 0 where
  pub Backs : Holds d'.backend m
  pub Buf : HasBuf d'
  pub with_buf : has_buf d' ≡ ready
  pub sent : d'.conn.sent ≡ d.conn.sent ++ answer
  pub Left : Carries d'.conn.input rest
  pub Still : Open d'.conn.room
  pub left : turns d.conn.room ≤ turns d'.conn.room + length answer

module _ (round : Round) (d : Daemon) (m : Bytes) (req : NbdRequest) (rest : Bytes)
    (lock : round.lock_rc ≡ 0) (handle : length req.handle ≡ 8) (backs : Holds d.backend m)
    (open_ : Open d.conn.room) where
  -- A reply without data, from a daemon that differs from `d` in what its parts say.
  pub answered :
      (d1 : Daemon) (ready : Bool) (m' : Bytes) (rc : Status)
      → Holds d1.backend m'
      → HasBuf d1
      → has_buf d1 ≡ ready
      → d1.conn.sent ≡ d.conn.sent
      → d1.conn.room ≡ d.conn.room
      → Carries d1.conn.input rest
      → error_of rc < 2 ^ 32
      → 16 ≤ turns d.conn.room
      → (d' : Daemon) × (reply_or_out d1 req rc ≡ (again, d'))
        × After d' d ready m' (wire_answer req.handle rc []) rest
  answered d1 ready m' rc backs' buf with_buf sent room carries small enough =
      let (conn, e, sends) =
        reply_lem d1 req rc handle small (subst Open (sym room) open_)
          (omega (arith, enough, ap turns room)) in
      let message = wire_reply req.handle (error_of rc) in
      let s = subst (λ l. Sends (finished ok) conn d1.conn l) (sym (append-nil message)) sends in
      (
        record d1 { conn = conn },
        e,
        record {
          Backs = backs';
          Buf = elim buf [ empty a b ↦ empty a b | holds x a b ↦ holds x a b ];
          with_buf = with_buf;
          sent = s.sent ∙ ap (λ l. l ++ wire_answer req.handle rc []) sent;
          Left = subst (λ es. Carries es rest) (sym s.input) carries;
          Still = s.Still;
          left = omega (arith, s.left, ap turns room);
        },
      )

  -- A read sends its data behind the reply, and a read out of range only the reply.
  pub cmd_read_lem :
      (from len : ℕ)
      → Roomy d len
      → Carries d.conn.input rest
      → 16 + len ≤ turns d.conn.room
      → let (rc, bytes, m') = apply true m (read from len) in
        (d' : Daemon) × (cmd_read round d req from len ok ≡ some (again, d'))
        × After d' d true m' (wire_answer req.handle rc bytes) rest
  unfolding cmd_read answer_read
  cmd_read_lem from len (buf, there, total, fits) carries enough =
      elim (Bool-cases (leb (from + len) (length m))) [
        | inl inside ↦
            let got = slice m from len in
            let size : length got ≡ len = length-slice m from len (ground (arith, inside)) in
            let buf' = splice buf 0 got in
            let b : Backend = record (d.backend) { locked = false } in
            let reads : ramdisk_backend_read round.lock_rc d.backend from d.buf len
                ≡ some (ok, b, some buf') =
              ap (λ o. ramdisk_backend_read round.lock_rc d.backend from o len) there
              ∙ read_lem d.backend m backs round.lock_rc from len buf fits
              ∙ rw (inside, lock) refl in
            let d1 : Daemon = record d { backend = b; buf = some buf' } in
            let (conn1, e1, s1) =
              reply_lem d1 req ok handle (omega arith) open_ (omega (arith, enough)) in
            let d2 : Daemon = record d1 { conn = conn1 } in
            let front : slice buf' 0 len ≡ got =
              slice-splice_eq buf 0 len got size (omega (arith, fits)) in
            let (conn2, e2, s2) =
              send_data_lem d2 len buf' refl (omega (arith, fits, length-splice buf 0 got)) s1.Still
                (omega (arith, enough, ap length front, size, s1.left, handle)) in
            let s2' = subst (λ l. Sends (finished ok) conn2 conn1 l) front s2 in
            let s = Sends-trans d.conn conn1 conn2 (wire_reply req.handle 0) got s1 s2' in
            let d3 : Daemon = record d2 { conn = conn2 } in
            let answer : answer_read d1 req len ok ≡ some (again, d3) =
              rw (answer_read, e1, e1, e2) refl in
            rw inside (
              d3,
              rw (cmd_read, reads) answer,
              record {
                Backs = backs;
                Buf = holds buf' refl (length-splice buf 0 got ∙ total);
                with_buf = refl;
                sent = s.sent;
                Left = subst (λ es. Carries es rest) (sym s.input) carries;
                Still = s.Still;
                left = s.left;
              },
            )
        | inr outside ↦
            let reads : ramdisk_backend_read round.lock_rc d.backend from d.buf len
                ≡ some (err erange, d.backend, some buf) =
              ap (λ o. ramdisk_backend_read round.lock_rc d.backend from o len) there
              ∙ read_lem d.backend m backs round.lock_rc from len buf fits
              ∙ rw outside refl in
            let d1 : Daemon = record d { buf = some buf } in
            let (d', e, after) =
              answered d1 true m (err erange) backs (holds buf refl total) refl refl refl carries
                (omega arith) (omega (arith, enough)) in
            let answer : answer_read d1 req len (err erange) ≡ some (again, d') =
              rw (answer_read, e, e) refl in
            rw outside (d', rw (cmd_read, reads) answer, after)
      ]

  -- A write within the disk is on the disk before its reply is sent.
  pub cmd_write_lem :
      (from : ℕ) (bytes : Bytes)
      → Roomy d (length bytes)
      → Carries d.conn.input (bytes ++ rest)
      → 16 ≤ turns d.conn.room
      → let (rc, reply, m') = apply true m (write from bytes) in
        (d' : Daemon) × (cmd_write round d req from (length bytes) ok ≡ some (again, d'))
        × After d' d true m' (wire_answer req.handle rc reply) rest
  unfolding cmd_write write_data
  cmd_write_lem from bytes roomy_ carries enough =
      let len = length bytes in
      let (d1, buf, e1, there, total, fits, front, same, left, sent, room) =
        read_into_lem d bytes rest roomy_ carries in
      let with_buf : has_buf d1 ≡ true = ap (λ o. not (is_none o)) there in
      let backs1 : Holds d1.backend m = subst (λ b. Holds b m) (sym same) backs in
      elim (Bool-cases (leb (from + len) (length m))) [
        | inl inside ↦
            let m' = splice m from bytes in
            let b : Backend = record (d1.backend) { base = some m'; locked = false } in
            let writes : ramdisk_backend_write round.lock_rc d1.backend from d1.buf len
                ≡ some (ok, b) =
              ap (λ o. ramdisk_backend_write round.lock_rc d1.backend from o len) there
              ∙ write_lem d1.backend m backs1 round.lock_rc from len buf fits
              ∙ rw (inside, lock, front) refl in
            let d2 : Daemon = record d1 { backend = b } in
            let backs2 : Holds b m' = (backs1.0, refl, length-splice m from bytes ∙ backs1.2) in
            let (d', e, after) =
              answered d2 true m' ok backs2 (holds buf there total) with_buf sent room left
                (omega arith) enough in
            let done : write_data round d1 req from len ok ≡ some (again, d') =
              rw (write_data, writes) (ap some e) in
            rw inside (d', rw (cmd_write, e1) done, after)
        | inr outside ↦
            let writes : ramdisk_backend_write round.lock_rc d1.backend from d1.buf len
                ≡ some (err erange, d1.backend) =
              ap (λ o. ramdisk_backend_write round.lock_rc d1.backend from o len) there
              ∙ write_lem d1.backend m backs1 round.lock_rc from len buf fits
              ∙ rw outside refl in
            let (d', e, after) =
              answered d1 true m (err erange) backs1 (holds buf there total) with_buf sent room left
                (omega arith) enough in
            let done : write_data round d1 req from len ok ≡ some (again, d') =
              rw (write_data, writes) (ap some e) in
            rw outside (d', rw (cmd_write, e1) done, after)
      ]

  -- Without a buffer a read and a write, which then have no bytes, are refused.
  pub cmd_read_bare :
      (from : ℕ)
      → d.buf ≡ none
      → d.buf_cap ≡ 0
      → Carries d.conn.input rest
      → 16 ≤ turns d.conn.room
      → (d' : Daemon) × (cmd_read round d req from 0 ok ≡ some (again, d'))
        × After d' d false m (wire_answer req.handle (err einval) []) rest
  unfolding cmd_read answer_read ramdisk_backend_read
  cmd_read_bare from nowhere cap carries enough =
      let reads : ramdisk_backend_read round.lock_rc d.backend from d.buf 0
          ≡ some (err einval, d.backend, none) =
        ap (λ o. ramdisk_backend_read round.lock_rc d.backend from o 0) nowhere in
      let d1 : Daemon = record d { buf = none } in
      let (d', e, after) =
        answered d1 false m (err einval) backs (empty refl cap) refl refl refl carries (omega arith)
          enough in
      let answer : answer_read d1 req 0 (err einval) ≡ some (again, d') =
        rw (answer_read, e, e) refl in
      (d', rw (cmd_read, reads) answer, after)

  pub cmd_write_bare :
      (from : ℕ)
      → d.buf ≡ none
      → d.buf_cap ≡ 0
      → Carries d.conn.input rest
      → 16 ≤ turns d.conn.room
      → (d' : Daemon) × (cmd_write round d req from 0 ok ≡ some (again, d'))
        × After d' d false m (wire_answer req.handle (err einval) []) rest
  unfolding cmd_write write_data read_into ramdisk_backend_write
  cmd_write_bare from nowhere cap carries enough =
      let writes : ramdisk_backend_write round.lock_rc d.backend from d.buf 0
          ≡ some (err einval, d.backend) =
        ap (λ o. ramdisk_backend_write round.lock_rc d.backend from o 0) nowhere in
      let (d', e, after) =
        answered d false m (err einval) backs (empty nowhere cap)
          (ap (λ o. not (is_none o)) nowhere) refl refl carries (omega arith) enough in
      let done : write_data round d req from 0 ok ≡ some (again, d') =
        rw (write_data, writes) (ap some e) in
      (d', done, after)

  pub cmd_trim_lem :
      (ready : Bool) (from len : ℕ)
      → HasBuf d
      → has_buf d ≡ ready
      → Carries d.conn.input rest
      → 16 ≤ turns d.conn.room
      → let (rc, reply, m') = apply ready m (trim from len) in
        (d' : Daemon) × (cmd_trim round d req from len ≡ some (again, d'))
        × After d' d ready m' (wire_answer req.handle rc reply) rest
  unfolding cmd_trim
  cmd_trim_lem ready from len buf with_buf carries enough =
      elim (Bool-cases (leb (from + len) (length m))) [
        | inl inside ↦
            let m' = splice m from (zeros len) in
            let b : Backend = record (d.backend) { base = some m'; locked = false } in
            let clears : ramdisk_backend_zero round.lock_rc d.backend from len ≡ some (ok, b) =
              zero_lem d.backend m backs round.lock_rc from len ∙ rw (inside, lock) refl in
            let d1 : Daemon = record d { backend = b } in
            let backs1 : Holds b m' = (backs.0, refl, length-splice m from (zeros len) ∙ backs.2) in
            let same : HasBuf d1 = elim buf [ empty a c ↦ empty a c | holds x a c ↦ holds x a c ] in
            let (d', e, after) =
              answered d1 ready m' ok backs1 same with_buf refl refl carries (omega arith) enough in
            rw inside (d', rw (cmd_trim, clears) (ap some e), after)
        | inr outside ↦
            let clears : ramdisk_backend_zero round.lock_rc d.backend from len
                ≡ some (err erange, d.backend) =
              zero_lem d.backend m backs round.lock_rc from len ∙ rw outside refl in
            let (d', e, after) =
              answered d ready m (err erange) backs buf with_buf refl refl carries (omega arith)
                enough in
            rw outside (d', rw (cmd_trim, clears) (ap some e), after)
      ]
