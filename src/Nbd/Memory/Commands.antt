-- ===== src/Nbd/Memory/Commands.antt =====
-- Each command of `serve_nbd`, where the buffer is large enough for it or was refused.
use ddr_direct_storage.Base.{
  ℕ, ◌+◌, ◌<◌, ◌≤◌, ◌≡◌, refl, ap, ◌∙◌, true, false, Option, none, some, [], arith, leb, ◌==◌,
  is_none, Bool-cases, inl, inr, Status, ok, err, Bytes, length, slice, splice, load, load-some,
  length-splice, ◌⊎◌,
}
use ddr_direct_storage.Base.Errno.{einval, erange}
use ddr_direct_storage.Stream.{Received, complete, closed, broken, recv_full}
use ddr_direct_storage.Backend.{Backend, ramdisk_backend_read, ramdisk_backend_write}
use ddr_direct_storage.Backend.Range.{Holds}
use ddr_direct_storage.Backend.Access.{read_lem, write_lem, zero_lem}
use ddr_direct_storage.Nbd.Wire.{NbdRequest}
use ddr_direct_storage.Nbd.Serve.{
  Daemon, Round, Turn, again, out, stuck, reply_or_out, answer_read, cmd_read, cmd_write, cmd_trim,
  send_data, read_into, filled, read_failed, write_data,
}
use ddr_direct_storage.Nbd.Disk.Steps.{HasBuf, empty, holds}

abbrev pub Defined {ℓ} : {A : Type ℓ} → Option A → Type 0
Defined o = is_none o ≡ false

Turn-cases : (t : Turn) → (t ≡ again) ⊎ ((t ≡ out) ⊎ (t ≡ stuck))
Turn-cases again = inl refl
Turn-cases out = inr (inl refl)
Turn-cases stuck = inr (inr refl)

reply_keeps_buf :
    (d : Daemon) (req : NbdRequest) (rc : Status) → (reply_or_out d req rc).1.buf ≡ d.buf
unfolding reply_or_out
reply_keeps_buf d req rc = refl

send_data-Defined :
    (d : Daemon) (len : ℕ) (m : Bytes) → d.buf ≡ some m → len ≤ length m → Defined (send_data d len)
unfolding send_data
send_data-Defined d len m there fits =
    let loaded : load m 0 len ≡ some (slice m 0 len) = load-some m 0 len (omega (arith, fits)) in
    elim (Bool-cases (len == 0)) [
      | inl nothing ↦ rw (send_data, nothing) refl
      | inr more ↦ rw (send_data, more, there, loaded) refl
    ]

-- After an error nothing is read from the buffer.
pub answer_read-Defined :
    (d : Daemon) (req : NbdRequest) (len e : ℕ) → Defined (answer_read d req len (err e))
unfolding answer_read
answer_read-Defined d req len e = elim (Turn-cases (reply_or_out d req (err e)).0) [
  | inl goes ↦ rw (answer_read, goes) refl
  | inr (inl left) ↦ rw (answer_read, left) refl
  | inr (inr waits_) ↦ rw (answer_read, waits_) refl
]

answer_read_ok-Defined :
    (d : Daemon) (req : NbdRequest) (len : ℕ) (m : Bytes)
    → d.buf ≡ some m
    → len ≤ length m
    → Defined (answer_read d req len ok)
unfolding answer_read
answer_read_ok-Defined d req len m there fits =
    let d' = (reply_or_out d req ok).1 in
    elim (Turn-cases (reply_or_out d req ok).0) [
      | inl goes ↦
          let sends : answer_read d req len ok ≡ send_data d' len = rw (answer_read, goes) refl in
          ap is_none sends ∙ send_data-Defined d' len m (reply_keeps_buf d req ok ∙ there) fits
      | inr (inl left) ↦ rw (answer_read, left) refl
      | inr (inr waits_) ↦ rw (answer_read, waits_) refl
    ]

-- A read, where its buffer is large enough or was refused.
pub cmd_read-Defined :
    (round : Round) (d : Daemon) (m : Bytes) (req : NbdRequest) (from len : ℕ)
    → Holds d.backend m
    → HasBuf d
    → len ≤ d.buf_cap
    → Defined (cmd_read round d req from len ok)
unfolding cmd_read ramdisk_backend_read
cmd_read-Defined round d m req from len backs (empty nowhere cap_) fits =
    let refused : ramdisk_backend_read round.lock_rc d.backend from d.buf len
        ≡ some (err einval, d.backend, none) =
      ap (λ o. ramdisk_backend_read round.lock_rc d.backend from o len) nowhere in
    rw (cmd_read, refused) (answer_read-Defined (record d { buf = none }) req len einval)
cmd_read-Defined round d m req from len backs (holds buf there size) fits =
    let reads =
      ap (λ o. ramdisk_backend_read round.lock_rc d.backend from o len) there
      ∙ read_lem d.backend m backs round.lock_rc from len buf (omega (arith, fits, size)) in
    elim (Bool-cases (leb (from + len) (length m))) [
      | inr outside ↦
          rw (cmd_read, reads, outside)
            (answer_read-Defined (record d { buf = some buf }) req len erange)
      | inl inside ↦ elim (Bool-cases (round.lock_rc == 0)) [
        | inr fails ↦
            rw (cmd_read, reads, inside, fails)
              (answer_read-Defined (record d { buf = some buf }) req len round.lock_rc)
        | inl takes ↦
            let buf' = splice buf 0 (slice m from len) in
            let b : Backend = record (d.backend) { locked = false } in
            rw (cmd_read, reads, inside, takes)
              (answer_read_ok-Defined (record d { backend = b; buf = some buf' }) req len buf' refl
                (omega (arith, fits, size, length-splice buf 0 (slice m from len))))
      ]
    ]

write_data-Defined :
    (round : Round) (d : Daemon) (m : Bytes) (req : NbdRequest) (from len : ℕ)
    → Holds d.backend m
    → HasBuf d
    → len ≤ d.buf_cap
    → Defined (write_data round d req from len ok)
unfolding write_data ramdisk_backend_write
write_data-Defined round d m req from len backs (empty nowhere cap_) fits =
    let refused : ramdisk_backend_write round.lock_rc d.backend from d.buf len
        ≡ some (err einval, d.backend) =
      ap (λ o. ramdisk_backend_write round.lock_rc d.backend from o len) nowhere in
    rw (write_data, refused) refl
write_data-Defined round d m req from len backs (holds buf there size) fits =
    let writes =
      ap (λ o. ramdisk_backend_write round.lock_rc d.backend from o len) there
      ∙ write_lem d.backend m backs round.lock_rc from len buf (omega (arith, fits, size)) in
    elim (Bool-cases (leb (from + len) (length m))) [
      | inr outside ↦ rw (write_data, writes, outside) refl
      | inl inside ↦ elim (Bool-cases (round.lock_rc == 0)) [
        | inr fails ↦ rw (write_data, writes, inside, fails) refl
        | inl takes ↦ rw (write_data, writes, inside, takes) refl
      ]
    ]

pub cmd_trim-Defined :
    (round : Round) (d : Daemon) (m : Bytes) (req : NbdRequest) (from len : ℕ)
    → Holds d.backend m
    → Defined (cmd_trim round d req from len)
unfolding cmd_trim
cmd_trim-Defined round d m req from len backs =
    let clears = zero_lem d.backend m backs round.lock_rc from len in
    elim (Bool-cases (leb (from + len) (length m))) [
      | inr outside ↦ rw (cmd_trim, clears, outside) refl
      | inl inside ↦ elim (Bool-cases (round.lock_rc == 0)) [
        | inr fails ↦ rw (cmd_trim, clears, inside, fails) refl
        | inl takes ↦ rw (cmd_trim, clears, inside, takes) refl
      ]
    ]

-- A buffer that is too small is not read into.
pub read_into_small : (d : Daemon) (len : ℕ) → HasBuf d → d.buf_cap < len → read_into d len ≡ none
unfolding read_into
read_into_small d len (empty nowhere size) small =
    let more : (len == 0) ≡ false = ground (arith, small, size) in
    rw (read_into, more, nowhere) refl
read_into_small d len (holds buf there size) small =
    let more : (len == 0) ≡ false = ground (arith, small) in
    let short : leb len (length buf) ≡ false = ground (arith, small, size) in
    rw (read_into, more, there, short) refl

length-filled : (m : Bytes) (r : Received) → length (filled m r) ≡ length m
length-filled m (complete bs) = length-splice m 0 bs
length-filled m closed = refl
length-filled m (broken e) = refl

read_into_fits :
    (d : Daemon) (m : Bytes) (len : ℕ)
    → Holds d.backend m
    → HasBuf d
    → len ≤ d.buf_cap
    → (r : Received) × (d' : Daemon) × (read_into d len ≡ some (r, d'))
      × Holds d'.backend m
      × HasBuf d'
      × (d'.buf_cap ≡ d.buf_cap)
unfolding read_into
read_into_fits d m len backs b fits = elim (Bool-cases (len == 0)) [
  | inl nothing ↦ (complete [], d, rw (read_into, nothing) refl, backs, b, refl)
  | inr more ↦ elim b [
    | empty nowhere size ↦ absurd (ground (arith, more, size, fits))
    | holds buf there size ↦
        let room : leb len (length buf) ≡ true = ground (arith, fits, size) in
        let (r, conn) = recv_full d.conn len in
        let d' : Daemon = record d { conn = conn; buf = some (filled buf r) } in
        (
          r,
          d',
          rw (read_into, more, there, room) refl,
          backs,
          holds (filled buf r) refl (length-filled buf r ∙ size),
          refl,
        )
  ]
]

pub cmd_write-Defined :
    (round : Round) (d : Daemon) (m : Bytes) (req : NbdRequest) (from len : ℕ)
    → Holds d.backend m
    → HasBuf d
    → len ≤ d.buf_cap
    → Defined (cmd_write round d req from len ok)
unfolding cmd_write
cmd_write-Defined round d m req from len backs b fits =
    let (r, d', e, backs', b', cap_) = read_into_fits d m len backs b fits in
    elim (Bool-cases (read_failed r)) [
      | inl failed ↦ rw (cmd_write, e, failed) refl
      | inr read ↦
          rw (cmd_write, e, read)
            (write_data-Defined round d' m req from len backs' b' (omega (arith, fits, cap_)))
    ]
