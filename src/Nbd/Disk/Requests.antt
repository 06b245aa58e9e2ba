-- ===== src/Nbd/Disk/Requests.antt =====
-- One request of `serve_nbd`, of each kind, against the disk of bytes.
use ddr_direct_storage.Base.{
  Bool, Status, ◌∷◌, ◌^◌, ℕ, ◌+◌, ◌<◌, ◌≤◌, ◌≡◌, refl, sym, ap, ◌∙◌, subst, false, Option, some, [],
  ◌++◌, arith, ◌==◌, ok, err, Bytes, length,
}
use ddr_direct_storage.Base.Errno.{eio, einval}
use ddr_direct_storage.Stream.Chunks.{Carries}
use ddr_direct_storage.Stream.Sending.{Open, turns}
use ddr_direct_storage.Backend.Range.{Holds}
use ddr_direct_storage.Nbd.Wire.{NbdRequest, error_of, ntohl, ntohll_u64}
use ddr_direct_storage.Nbd.Serve.{
  Daemon, Round, Turn, again, grow, reply_or_out, cmd_read, cmd_write, cmd_trim, serve_request,
}
use ddr_direct_storage.Nbd.Disk.{
  Command, read, write, flush, trim, unknown, type_of, from_of, len_of, data_of, ready_for, apply,
  wire_answer, Sensible,
}
use ddr_direct_storage.Nbd.Disk.Steps.{
  HasBuf, has_buf, Ready, roomy, bare, Ready-HasBuf, Ready-has_buf, Gives, grow_lem,
}
use ddr_direct_storage.Nbd.Disk.Serving.{
  After, answered, cmd_read_lem, cmd_read_bare, cmd_write_lem, cmd_write_bare, cmd_trim_lem,
}

-- What the loop needs of a turn that serves `c`.
abbrev pub cost : Command → ℕ
cost c = 16 + len_of c

pub moved-After :
    (d' d1 d : Daemon) (ready : Bool) (m answer rest : Bytes)
    → d1.conn.sent ≡ d.conn.sent
    → d1.conn.room ≡ d.conn.room
    → After d' d1 ready m answer rest
    → After d' d ready m answer rest
moved-After d' d1 d ready m answer rest e f a = record {
  Backs = a.Backs;
  Buf = a.Buf;
  with_buf = a.with_buf;
  sent = a.sent ∙ ap (λ l. l ++ answer) e;
  Left = a.Left;
  Still = a.Still;
  left = omega (arith, a.left, ap turns f);
}

same_conn-After :
    (d' d1 d : Daemon) (ready : Bool) (m answer rest : Bytes)
    → d1.conn ≡ d.conn
    → After d' d1 ready m answer rest
    → After d' d ready m answer rest
same_conn-After d' d1 d ready m answer rest e a =
    moved-After d' d1 d ready m answer rest (ap (λ c. c.sent) e) (ap (λ c. c.room) e) a

module _ (round : Round) (d : Daemon) (m : Bytes) (c : Command) (req : NbdRequest) (rest : Bytes)
    (lock : round.lock_rc ≡ 0) (memory : Gives round (len_of c)) (handle : length req.handle ≡ 8)
    (backs : Holds d.backend m) (buf : HasBuf d) (open_ : Open d.conn.room)
    (carries : Carries d.conn.input (data_of c ++ rest)) (enough : cost c ≤ turns d.conn.room) where
  abbrev ready : Bool
  ready = ready_for (has_buf d) c

  -- What `f` does of a daemon, with or without a buffer.
  abbrev Done : (Daemon → Option (Turn × Daemon)) → Daemon → Bool → Type 0
  Done f d1 r =
      let (rc, bytes, m') = apply r m c in
      (d' : Daemon) × (f d1 ≡ some (again, d'))
      × After d' d1 r m' (wire_answer req.handle rc bytes) rest

  -- The last step of a request, on the daemon with its larger buffer.
  abbrev Step : (Daemon → Option (Turn × Daemon)) → Type 0
  Step f =
      (d1 : Daemon)
      → d1.conn ≡ d.conn
      → d1.backend ≡ d.backend
      → Ready d1 (len_of c) ready
      → Done f d1 ready

  grown-Step :
      (f : Daemon → Option (Turn × Daemon))
      → ((d1 : Daemon) → grow round d (len_of c) ≡ (ok, d1) → serve_request round d req ≡ f d1)
      → Step f
      → let (rc, bytes, m') = apply ready m c in
        (d' : Daemon) × (serve_request round d req ≡ some (again, d'))
        × After d' d ready m' (wire_answer req.handle rc bytes) rest
  grown-Step f switch step =
      let (d1, e, b, conn, backend) = grow_lem round d (len_of c) buf memory in
      let (d', done, after) = step d1 conn backend b in
      let (rc, bytes, m') = apply ready m c in
      (
        d',
        switch d1 e ∙ done,
        same_conn-After d' d1 d ready m' (wire_answer req.handle rc bytes) rest conn after,
      )

-- The numbers of the request, as the code reads them.
pub record Decodes (req : NbdRequest) (c : Command) : Type 0 where
  pub type : ntohl req.type ≡ type_of c
  pub from : ntohll_u64 req.from ≡ from_of c
  pub len : ntohl req.len ≡ len_of c

length-nil : (bs : Bytes) → length bs ≡ 0 → bs ≡ []
length-nil [] e = refl
length-nil (x ∷ bs) e = absurd (omega (arith, e))

-- A request that is answered with a status only.
replied :
    (round : Round) (d : Daemon) (m : Bytes) (ready : Bool) (len : ℕ) (req : NbdRequest)
    (rest : Bytes)
    → round.lock_rc ≡ 0
    → length req.handle ≡ 8
    → Holds d.backend m
    → Open d.conn.room
    → Carries d.conn.input rest
    → 16 ≤ turns d.conn.room
    → (rc : Status) → error_of rc < 2 ^ 32
    → (d1 : Daemon) → d1.conn ≡ d.conn
    → d1.backend ≡ d.backend
    → Ready d1 len ready
    → (d' : Daemon) × (some (reply_or_out d1 req rc) ≡ some (again, d'))
      × After d' d1 ready m (wire_answer req.handle rc []) rest
replied round d m ready len req rest lock handle backs o carries enough rc small d1 conn backend b =
    let backs1 : Holds d1.backend m = subst (λ x. Holds x m) (sym backend) backs in
    let (d', e, after) =
      answered round d1 m req rest lock handle backs1 (subst (λ x. Open x.room) (sym conn) o) d1
        ready m rc backs1 (Ready-HasBuf d1 len ready b) (Ready-has_buf d1 len ready b) refl refl
        (subst (λ x. Carries x.input rest) (sym conn) carries) small
        (omega (arith, enough, ap (λ x. turns x.room) conn)) in
    (d', ap some e, after)

pub serve_request_lem :
    (round : Round) (d : Daemon) (m : Bytes) (c : Command) (req : NbdRequest) (rest : Bytes)
    → Sensible c
    → Decodes req c
    → round.lock_rc ≡ 0
    → Gives round (len_of c)
    → length req.handle ≡ 8
    → Holds d.backend m
    → HasBuf d
    → Open d.conn.room
    → Carries d.conn.input (data_of c ++ rest)
    → cost c ≤ turns d.conn.room
    → let ready = ready_for (has_buf d) c in
      let (rc, bytes, m') = apply ready m c in
      (d' : Daemon) × (serve_request round d req ≡ some (again, d'))
      × After d' d ready m' (wire_answer req.handle rc bytes) rest
unfolding serve_request
serve_request_lem round d m (read from len) req rest sane dec lock memory handle backs buf o carries
      enough =
    let c = read from len in
    let f : Daemon → Option (Turn × Daemon) = λ x. cmd_read round x req from len ok in
    grown-Step round d m c req rest lock memory handle backs buf o carries enough f
      (λ d1 e. rw (serve_request, dec.type, dec.from, dec.len, e) refl)
      (λ d1 conn backend b.
        let backs1 : Holds d1.backend m = subst (λ x. Holds x m) (sym backend) backs in
        let o1 : Open d1.conn.room = subst (λ x. Open x.room) (sym conn) o in
        let in1 : Carries d1.conn.input rest =
          subst (λ x. Carries x.input rest) (sym conn) carries in
        let turns1 = ap (λ x. turns x.room) conn in
        let D : Bool → Type 0 =
          λ r. Done round d m c req rest lock memory handle backs buf o carries enough f d1 r in
        elim b [
          | roomy yes_ there ↦ subst D (sym yes_) (
              cmd_read_lem round d1 m req rest lock handle backs1 o1 from len there in1
                (omega (arith, enough, turns1)))
          | bare no_ nowhere cap none_ ↦ subst D (sym no_) (
              subst
                (λ n.
                  (d' : Daemon) × (cmd_read round d1 req from n ok ≡ some (again, d'))
                  × After d' d1 false m (wire_answer req.handle (err einval) []) rest)
                (sym none_)
                (cmd_read_bare round d1 m req rest lock handle backs1 o1 from nowhere cap in1
                  (omega (arith, enough, turns1))))
        ])
serve_request_lem round d m (write from bytes) req rest sane dec lock memory handle backs buf o
      carries enough =
    let c = write from bytes in
    let f : Daemon → Option (Turn × Daemon) = λ x. cmd_write round x req from (length bytes) ok in
    grown-Step round d m c req rest lock memory handle backs buf o carries enough f
      (λ d1 e. rw (serve_request, dec.type, dec.from, dec.len, e) refl)
      (λ d1 conn backend b.
        let backs1 : Holds d1.backend m = subst (λ x. Holds x m) (sym backend) backs in
        let o1 : Open d1.conn.room = subst (λ x. Open x.room) (sym conn) o in
        let in1 : Carries d1.conn.input (bytes ++ rest) =
          subst (λ x. Carries x.input (bytes ++ rest)) (sym conn) carries in
        let turns1 = ap (λ x. turns x.room) conn in
        let D : Bool → Type 0 =
          λ r. Done round d m c req rest lock memory handle backs buf o carries enough f d1 r in
        elim b [
          | roomy yes_ there ↦ subst D (sym yes_) (
              cmd_write_lem round d1 m req rest lock handle backs1 o1 from bytes there in1
                (omega (arith, enough, turns1)))
          | bare no_ nowhere cap none_ ↦
              let nothing : bytes ≡ [] = length-nil bytes none_ in
              let in2 : Carries d1.conn.input rest =
                subst (λ l. Carries d1.conn.input (l ++ rest)) nothing in1 in
              subst D (sym no_) (
                subst
                  (λ n.
                    (d' : Daemon) × (cmd_write round d1 req from n ok ≡ some (again, d'))
                    × After d' d1 false m (wire_answer req.handle (err einval) []) rest)
                  (sym none_)
                  (cmd_write_bare round d1 m req rest lock handle backs1 o1 from nowhere cap in2
                    (omega (arith, enough, turns1))))
        ])
serve_request_lem round d m flush req rest sane dec lock memory handle backs buf o carries enough =
    let ready = ready_for (has_buf d) flush in
    grown-Step round d m flush req rest lock memory handle backs buf o carries enough
      (λ d1. some (reply_or_out d1 req ok)) (λ d1 e. rw (serve_request, dec.type, dec.len, e) refl)
      (λ d1 conn backend b.
        replied round d m ready 0 req rest lock handle backs o carries (omega (arith, enough)) ok
          (omega arith) d1 conn backend b)
serve_request_lem round d m (trim from len) req rest sane dec lock memory handle backs buf o carries
      enough =
    let ready = ready_for (has_buf d) (trim from len) in
    grown-Step round d m (trim from len) req rest lock memory handle backs buf o carries enough
      (λ d1. cmd_trim round d1 req from len)
      (λ d1 e. rw (serve_request, dec.type, dec.from, dec.len, e) refl)
      (λ d1 conn backend b.
        cmd_trim_lem round d1 m req rest lock handle (subst (λ x. Holds x m) (sym backend) backs)
          (subst (λ x. Open x.room) (sym conn) o) ready from len (Ready-HasBuf d1 len ready b)
          (Ready-has_buf d1 len ready b) (subst (λ x. Carries x.input rest) (sym conn) carries)
          (omega (arith, enough, ap (λ x. turns x.room) conn)))
serve_request_lem round d m (unknown type from len) req rest (other, small) dec lock memory handle
      backs buf o carries enough =
    let ready = ready_for (has_buf d) (unknown type from len) in
    let not_read : (type == 0) ≡ false = ground (arith, other) in
    let not_write : (type == 1) ≡ false = ground (arith, other) in
    let not_disc : (type == 2) ≡ false = ground (arith, other) in
    let not_flush : (type == 3) ≡ false = ground (arith, other) in
    let not_trim : (type == 4) ≡ false = ground (arith, other) in
    grown-Step round d m (unknown type from len) req rest lock memory handle backs buf o carries
      enough (λ d1. some (reply_or_out d1 req (err eio)))
      (λ d1 e.
        rw (serve_request, dec.type, not_read, not_write, not_flush, not_trim, not_disc, dec.len, e)
          refl)
      (λ d1 conn backend b.
        replied round d m ready len req rest lock handle backs o carries (omega (arith, enough))
          (err eio) (omega arith) d1 conn backend b)
