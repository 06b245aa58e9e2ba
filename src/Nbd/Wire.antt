-- ===== src/Nbd/Wire.antt =====
-- The messages of userspace-nbd/include/nbd_protocol.h, and the functions of src/nbd_ramdisk.c that
-- turn their fields around.
use ddr_direct_storage.Base.{
  ℕ, ◌+◌, ◌*◌, ◌/◌, ◌%◌, ◌^◌, ◌<◌, ◌≡◌, refl, ap, ap₂, ◌∙◌, [], ◌∷◌, ◌++◌, arith, Status, ok, err,
  Bytes, length, slice, length-append,
}
use ddr_direct_storage.Layout.{
  put_le, get_le, field_at, four_bytes, eight_bytes, slice_behind, slice_front,
}
use ddr_direct_storage.Layout.BigEndian.{
  put_be, get_be, swap_bytes, AllBytes, swap-get_le, get_be-put_be, put_be-AllBytes,
}

abbrev pub nbd_request_magic : ℕ
nbd_request_magic = 0x25609513

abbrev pub nbd_reply_magic : ℕ
nbd_reply_magic = 0x67446698

abbrev pub nbd_cmd_read : ℕ
nbd_cmd_read = 0

abbrev pub nbd_cmd_write : ℕ
nbd_cmd_write = 1

abbrev pub nbd_cmd_disc : ℕ
nbd_cmd_disc = 2

abbrev pub nbd_cmd_flush : ℕ
nbd_cmd_flush = 3

abbrev pub nbd_cmd_trim : ℕ
nbd_cmd_trim = 4

-- `ntohl` and `htonl`, which do the same.
unfoldable pub ntohl : ℕ → ℕ
unfolding swap_bytes
ntohl value = swap_bytes 4 value

-- Of the two halves that `|` joins, one is a multiple of 2 ^ 32 and the other is less.
unfoldable pub ntohll_u64 : ℕ → ℕ
unfolding ntohl
ntohll_u64 value =
    let high = ntohl (value / 2 ^ 32 % 2 ^ 32) in
    let low = ntohl (value % 2 ^ 32) in low * 2 ^ 32 + high

-- `struct ramdisk_nbd_request`, with its numbers as they lie in memory.
pub record NbdRequest : Type 0 where
  pub magic : ℕ
  pub type : ℕ
  pub handle : Bytes
  pub from : ℕ
  pub len : ℕ

abbrev pub request_size : ℕ
request_size = 28

unfoldable pub parse_request : Bytes → NbdRequest
parse_request bs = record {
  magic = field_at bs 0 4;
  type = field_at bs 4 4;
  handle = slice bs 8 8;
  from = field_at bs 16 8;
  len = field_at bs 24 4;
}

-- `return` of an `int` that is 0 or a negated `errno`, so that the negation is not needed on 0.
unfoldable pub nbd_error_from_rc : Status → ℕ
unfolding ntohl
nbd_error_from_rc ok = 0
nbd_error_from_rc (err e) = ntohl e

-- `struct ramdisk_nbd_reply`, as `send_reply` fills it.
unfoldable pub reply_bytes : NbdRequest → Status → Bytes
unfolding ntohl nbd_error_from_rc
reply_bytes req rc =
    put_le 4 (ntohl nbd_reply_magic) ++ put_le 4 (nbd_error_from_rc rc) ++ req.handle

-- A request as the protocol has it on the wire, and its reply.
abbrev pub wire_request : ℕ → Bytes → ℕ → ℕ → Bytes
wire_request type handle from len =
    put_be 4 nbd_request_magic ++ put_be 4 type ++ (handle ++ (put_be 8 from ++ put_be 4 len))

abbrev pub wire_reply : Bytes → ℕ → Bytes
wire_reply handle error = put_be 4 nbd_reply_magic ++ put_be 4 error ++ handle

pub ntohl-get_le : (v : ℕ) → v < 2 ^ 32 → ntohl (get_le (put_be 4 v)) ≡ v
unfolding ntohl
ntohl-get_le v h =
    swap-get_le (put_be 4 v) 4 refl (put_be-AllBytes 4 v) ∙ get_be-put_be 4 v (four_bytes v h)

two_words :
    (a b c d e f g h : ℕ)
    → AllBytes (a ∷ b ∷ c ∷ d ∷ [])
    → AllBytes (e ∷ f ∷ g ∷ h ∷ [])
    → ntohll_u64 (get_le (a ∷ b ∷ c ∷ d ∷ e ∷ f ∷ g ∷ h ∷ []))
      ≡ get_be (a ∷ b ∷ c ∷ d ∷ e ∷ f ∷ g ∷ h ∷ [])
unfolding ntohll_u64 ntohl
two_words a b c d e f g h p q =
    let low = get_le (a ∷ b ∷ c ∷ d ∷ []) in
    let high = get_le (e ∷ f ∷ g ∷ h ∷ []) in
    let value = get_le (a ∷ b ∷ c ∷ d ∷ e ∷ f ∷ g ∷ h ∷ []) in
    let above : value / 2 ^ 32 % 2 ^ 32 ≡ high = omega arith in
    let below : value % 2 ^ 32 ≡ low = omega arith in
    let front = swap-get_le (a ∷ b ∷ c ∷ d ∷ []) 4 refl p in
    let back = swap-get_le (e ∷ f ∷ g ∷ h ∷ []) 4 refl q in
    rw (above, below, front, back) (omega arith)

pub ntohll-get_le : (v : ℕ) → v < 2 ^ 64 → ntohll_u64 (get_le (put_be 8 v)) ≡ v
ntohll-get_le v h =
    let all = put_be-AllBytes 8 v in
    let rest = all.1.1.1.1 in
    two_words (v / 256 / 256 / 256 / 256 / 256 / 256 / 256 % 256)
      (v / 256 / 256 / 256 / 256 / 256 / 256 % 256) (v / 256 / 256 / 256 / 256 / 256 % 256)
      (v / 256 / 256 / 256 / 256 % 256) (v / 256 / 256 / 256 % 256) (v / 256 / 256 % 256)
      (v / 256 % 256) (v % 256) (all.0, (all.1.0, (all.1.1.0, (all.1.1.1.0, tt)))) rest
    ∙ get_be-put_be 8 v (eight_bytes v h)

-- The bytes of a request with these fields.
abbrev pub raw_request : ℕ → Bytes → ℕ → ℕ → NbdRequest
raw_request type handle from len = record {
  magic = get_le (put_be 4 nbd_request_magic);
  type = get_le (put_be 4 type);
  handle = handle;
  from = get_le (put_be 8 from);
  len = get_le (put_be 4 len);
}

pub parse_request-wire :
    (type : ℕ) (handle : Bytes) (from len : ℕ)
    → length handle ≡ 8
    → parse_request (wire_request type handle from len) ≡ raw_request type handle from len
unfolding parse_request
parse_request-wire type handle from len e =
    let tail = put_be 8 from ++ put_be 4 len in
    λ i. record {
      magic = get_le (put_be 4 nbd_request_magic);
      type = get_le (put_be 4 type);
      handle = slice_front handle tail 8 e i;
      from = get_le (slice_behind handle tail 8 0 8 (omega (arith, e)) i);
      len = get_le (slice_behind handle tail 16 8 4 (omega (arith, e)) i);
    }

pub length-wire_request :
    (type : ℕ) (handle : Bytes) (from len : ℕ)
    → length handle ≡ 8
    → length (wire_request type handle from len) ≡ 28
length-wire_request type handle from len e =
    omega (arith, e, length-append handle (put_be 8 from ++ put_be 4 len))

four_digits :
    (a b c d : ℕ)
    → a < 256
    → b < 256
    → c < 256
    → d < 256
    → put_le 4 ((((0 + d) * 256 + c) * 256 + b) * 256 + a) ≡ a ∷ b ∷ c ∷ d ∷ []
four_digits a b c d ha hb hc hd =
    let value = (((0 + d) * 256 + c) * 256 + b) * 256 + a in
    let first : value % 256 ≡ a = omega arith in
    let second : value / 256 % 256 ≡ b = omega arith in
    let third : value / 256 / 256 % 256 ≡ c = omega arith in
    let fourth : value / 256 / 256 / 256 % 256 ≡ d = omega arith in
    λ i. first i ∷ second i ∷ third i ∷ fourth i ∷ []

-- `htonl` of a number lies in memory as the protocol wants it.
pub put_le-ntohl : (v : ℕ) → v < 2 ^ 32 → put_le 4 (ntohl v) ≡ put_be 4 v
unfolding ntohl swap_bytes
put_le-ntohl v h =
    four_digits (v / 256 / 256 / 256 % 256) (v / 256 / 256 % 256) (v / 256 % 256) (v % 256)
      (omega arith) (omega arith) (omega arith) (omega arith)

-- The error that a reply carries.
abbrev pub error_of : Status → ℕ
error_of ok = 0
error_of (err e) = e

pub reply_bytes_lem :
    (req : NbdRequest) (rc : Status)
    → error_of rc < 2 ^ 32
    → reply_bytes req rc ≡ wire_reply req.handle (error_of rc)
unfolding reply_bytes nbd_error_from_rc
reply_bytes_lem req ok h =
    ap (λ l. l ++ put_le 4 0 ++ req.handle) (put_le-ntohl nbd_reply_magic (omega arith))
reply_bytes_lem req (err e) h =
    ap₂ (λ l r. l ++ r ++ req.handle) (put_le-ntohl nbd_reply_magic (omega arith))
      (put_le-ntohl e h)
