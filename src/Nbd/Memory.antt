-- ===== src/Nbd/Memory.antt =====
-- Where `serve_nbd` of userspace-nbd/src/nbd_ramdisk.c uses memory that it does not have.
mod Commands
use ddr_direct_storage.Base.{
  ℕ, ◌+◌, ◌<◌, ◌≤◌, ◌≡◌, refl, sym, ap, ◌∙◌, true, false, ◌&&◌, Option, none, some, [], arith, leb,
  ltb, ◌==◌, is_none, Bool-cases, Option-cases, inl, inr, Status, ok, err, Bytes, length, slice,
  splice, load, load-some, length-splice, ◌⊎◌, Bool,
}
use ddr_direct_storage.Base.Errno.{einval, enomem, erange}
use ddr_direct_storage.Stream.{Received, complete, closed, broken, recv_full}
use ddr_direct_storage.Backend.{Backend, ramdisk_backend_read, ramdisk_backend_write}
use ddr_direct_storage.Backend.Range.{Holds}
use ddr_direct_storage.Backend.Access.{read_lem, write_lem, zero_lem}
use ddr_direct_storage.Nbd.Wire.{NbdRequest, ntohl, ntohll_u64, nbd_cmd_write}
use ddr_direct_storage.Nbd.Serve.{
  Daemon, Round, Turn, again, out, stuck, grow, reply_or_out, answer_read, cmd_read, cmd_write,
  cmd_trim, send_data, read_into, filled, read_failed, write_data, serve_request,
}
use ddr_direct_storage.Nbd.Disk.Steps.{HasBuf, empty, holds}
use ddr_direct_storage.Nbd.Memory.Commands.{
  Defined, answer_read-Defined, cmd_read-Defined, cmd_trim-Defined, read_into_small,
  cmd_write-Defined,
}

-- The kinds of request, where the buffer is large enough or has been made so.
enough-Defined :
    (round : Round) (d d1 : Daemon) (m : Bytes) (req : NbdRequest)
    → grow round d (ntohl req.len) ≡ (ok, d1)
    → Holds d1.backend m
    → HasBuf d1
    → ntohl req.len ≤ d1.buf_cap
    → Defined (serve_request round d req)
unfolding serve_request
enough-Defined round d d1 m req grown backs b fits =
    let from = ntohll_u64 req.from in
    let len = ntohl req.len in
    elim (Bool-cases (ntohl req.type == 0)) [
      | inl reads ↦
          rw (serve_request, reads, grown) (cmd_read-Defined round d1 m req from len backs b fits)
      | inr e0 ↦ elim (Bool-cases (ntohl req.type == 1)) [
        | inl writes ↦
            rw (serve_request, e0, writes, grown)
              (cmd_write-Defined round d1 m req from len backs b fits)
        | inr e1 ↦ elim (Bool-cases (ntohl req.type == 3)) [
          | inl flushes ↦ rw (serve_request, e0, e1, flushes) refl
          | inr e3 ↦ elim (Bool-cases (ntohl req.type == 4)) [
            | inl trims ↦
                rw (serve_request, e0, e1, e3, trims, grown)
                  (cmd_trim-Defined round d1 m req from len backs)
            | inr e4 ↦ elim (Bool-cases (ntohl req.type == 2)) [
              | inl ends ↦ rw (serve_request, e0, e1, e3, e4, ends) refl
              | inr e2 ↦ rw (serve_request, e0, e1, e3, e4, e2) refl
            ]
          ]
        ]
      ]
    ]

-- Without memory for a larger buffer only a write needs it.
refused-Defined :
    (round : Round) (d : Daemon) (m : Bytes) (req : NbdRequest)
    → grow round d (ntohl req.len) ≡ (err enomem, d)
    → Holds d.backend m
    → HasBuf d
    → d.buf_cap < ntohl req.len
    → is_none (serve_request round d req) ≡ (ntohl req.type == nbd_cmd_write)
unfolding serve_request cmd_read cmd_write
refused-Defined round d m req grown backs b small =
    let from = ntohll_u64 req.from in
    let len = ntohl req.len in
    elim (Bool-cases (ntohl req.type == 1)) [
      | inl writes ↦
          let e0 : (ntohl req.type == 0) ≡ false = ground (arith, writes) in
          rw (serve_request, e0, writes, grown, cmd_write, read_into_small d len b small) refl
      | inr e1 ↦ elim (Bool-cases (ntohl req.type == 0)) [
        | inl reads ↦ rw (serve_request, reads, e1, grown) (answer_read-Defined d req len enomem)
        | inr e0 ↦ elim (Bool-cases (ntohl req.type == 3)) [
          | inl flushes ↦ rw (serve_request, e0, e1, flushes) refl
          | inr e3 ↦ elim (Bool-cases (ntohl req.type == 4)) [
            | inl trims ↦
                rw (serve_request, e0, e1, e3, trims, grown)
                  (cmd_trim-Defined round d m req from len backs)
            | inr e4 ↦ elim (Bool-cases (ntohl req.type == 2)) [
              | inl ends ↦ rw (serve_request, e0, e1, e3, e4, ends) refl
              | inr e2 ↦ rw (serve_request, e0, e1, e3, e4, e2) refl
            ]
          ]
        ]
      ]
    ]

not_both : (a b c : Bool) → (b ≡ false) ⊎ (c ≡ false) → (a && (b && c)) ≡ false
not_both true true true (inl e) = e
not_both true true true (inr e) = e
not_both true true false h = refl
not_both true false c h = refl
not_both false b c h = refl

both : (a b c : Bool) → b ≡ true → c ≡ true → (a && (b && c)) ≡ a
both a true true e f = ground arith
both a true false e f = ground arith
both a false c e f = ground arith

-- Where `realloc` gives as many bytes as it is asked for, or none, a request is undefined behaviour
-- exactly if it is a write that needs a larger buffer and `realloc` gives none: the data are then read
-- into the buffer that is too small, or is not there.
pub serve_request_undefined :
    (round : Round) (d : Daemon) (m : Bytes) (req : NbdRequest)
    → Holds d.backend m
    → HasBuf d
    → ((g : Bytes) → round.new_buf ≡ some g → length g ≡ ntohl req.len)
    → is_none (serve_request round d req) ≡ (
        ntohl req.type == nbd_cmd_write && (ltb d.buf_cap (ntohl req.len) && is_none round.new_buf))
unfolding grow
serve_request_undefined round d m req backs b gives =
    let len = ntohl req.len in
    elim (Bool-cases (ltb d.buf_cap len)) [
      | inr enough ↦
          let grown : grow round d len ≡ (ok, d) = rw (grow, enough) refl in
          enough-Defined round d d m req grown backs b (ground (arith, enough))
          ∙ sym (
              not_both (ntohl req.type == nbd_cmd_write) (ltb d.buf_cap len) (is_none round.new_buf)
                (inl enough))
      | inl small ↦ elim (Option-cases round.new_buf) [
        | inl nothing ↦
            let grown : grow round d len ≡ (err enomem, d) = rw (grow, small, nothing) refl in
            refused-Defined round d m req grown backs b (ground (arith, small))
            ∙ sym (
                both (ntohl req.type == nbd_cmd_write) (ltb d.buf_cap len) (is_none round.new_buf)
                  small (ap is_none nothing))
        | inr (g, given) ↦
            let d1 : Daemon = record d { buf = some g; buf_cap = len } in
            let grown : grow round d len ≡ (ok, d1) = rw (grow, small, given) refl in
            enough-Defined round d d1 m req grown backs (holds g refl (gives g given)) (omega arith)
            ∙ sym (
                not_both (ntohl req.type == nbd_cmd_write) (ltb d.buf_cap len)
                  (is_none round.new_buf) (inr (ap is_none given)))
      ]
    ]
