-- ===== src/Tunnel/Frames.antt =====
-- The frames of tunnel.ts: a stream id of 32 bits (the high byte first), a type, and a payload.
use opencode_rc.Common.{ℕ, ◌+◌, ◌*◌, ◌/◌, ◌%◌, ◌<◌, List, ◌∷◌, Option, none, some, ◌≡◌, refl, arith}

abbrev pub Bytes : Type 0
Bytes = List ℕ

abbrev pub frame_request_headers : ℕ
frame_request_headers = 1

abbrev pub frame_response_headers : ℕ
frame_response_headers = 2

abbrev pub frame_data : ℕ
frame_data = 3

abbrev pub frame_end : ℕ
frame_end = 4

pub record Frame : Type 0 where
  pub stream_id : ℕ
  pub type : ℕ
  pub payload : Bytes

-- `encodeFrame`
unfoldable pub encode_frame : (stream_id type : ℕ) → (payload : Bytes) → Bytes
encode_frame stream_id type payload =
    stream_id / 16777216 % 256
    ∷ stream_id / 65536 % 256
    ∷ stream_id / 256 % 256
    ∷ stream_id % 256
    ∷ type % 256
    ∷ payload

-- `decodeFrameHeader`, which throws on less than five bytes
unfoldable pub decode_frame_header : Bytes → Option Frame
decode_frame_header (a ∷ b ∷ c ∷ d ∷ t ∷ payload) =
    some
      (record { stream_id = a * 16777216 + b * 65536 + c * 256 + d; type = t; payload = payload })
decode_frame_header _ = none

bytes_lem :
    (n : ℕ)
    → n < 4294967296
    → n / 16777216 % 256 * 16777216 + n / 65536 % 256 * 65536 + n / 256 % 256 * 256 + n % 256 ≡ n
bytes_lem n h = omega arith

type_lem : (n : ℕ) → n < 256 → n % 256 ≡ n
type_lem n h = omega arith

-- A frame of a stream id below 2^32 and a type below 256 is decoded to the same stream id, type and
-- payload.
pub decode_frame_header-encode_frame :
    (stream_id type : ℕ) (payload : Bytes)
    → stream_id < 4294967296
    → type < 256
    → decode_frame_header (encode_frame stream_id type payload)
      ≡ some (record { stream_id = stream_id; type = type; payload = payload })
unfolding decode_frame_header encode_frame
decode_frame_header-encode_frame s t payload h k = rw (bytes_lem s h, type_lem t k) refl
