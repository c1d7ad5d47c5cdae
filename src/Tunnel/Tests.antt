-- ===== src/Tunnel/Tests.antt =====
-- Runs of the tunnel's handlers.
use opencode_rc.Common.{
  ℕ, true, ◌&&◌, List, [], ◌∷◌, Text, text, none, some, ◌≡◌, refl, arith, ◌==◌, if◌then◌else◌, inl,
}
use opencode_rc.Tunnel.Frames.{
  Bytes, encode_frame, decode_frame_header, frame_end, decode_frame_header-encode_frame,
}
use opencode_rc.Tunnel.Streams.{
  RequestHeaders, LocalTarget, State, Effect, do_proxy_to_local, Step, lookup, proxy_to_local,
  handle_body_frame, socket_of, on_socket_close, is_current, join_chunks, local_headers,
}
use opencode_rc.Tunnel.Sockets.{on_socket_close_lem}
use opencode_rc.Tunnel.Uploads.{received, closed, upload_lem, upload_of_closed_tunnel}
use opencode_rc.Tunnel.Headers.{local_headers-authorization}

decode_frame_header-encode_frame_example :
    decode_frame_header (encode_frame 70000 3 (9 ∷ []))
    ≡ some (record { stream_id = 70000; type = 3; payload = 9 ∷ [] })
decode_frame_header-encode_frame_example =
    decode_frame_header-encode_frame 70000 3 (9 ∷ []) (omega arith) (omega arith)

abbrev upload : RequestHeaders
upload = record { method = b'P' ∷ []; path = b'/' ∷ []; headers = []; has_body = true }

abbrev local : LocalTarget
local = record { url = []; authorization = some (b'b' ∷ []) }

abbrev start : State
start = record { pending_requests = []; ws_streams_by_tunnel = (1, (5, 44) ∷ []) ∷ [] }

abbrev chunks : List Bytes
chunks = (1 ∷ 2 ∷ []) ∷ (3 ∷ []) ∷ []

upload_lem_example :
    ((proxy_to_local 1 7 upload local start).1 ≡ [])
    × ((received 1 7 upload local chunks start).1 ≡ [])
    × ((handle_body_frame 1 7 frame_end [] (received 1 7 upload local chunks start).0).1
        ≡ do_proxy_to_local 1 7 upload local (some (join_chunks chunks)) ∷ [])
    × ((k : ℕ)
        → lookup k
            (handle_body_frame 1 7 frame_end []
              (received 1 7 upload local chunks start).0).0.pending_requests
          ≡ (if k == 7 then none else lookup k start.pending_requests))
unfolding opencode_rc.Tunnel.Streams.is_web_socket_upgrade socket_of
upload_lem_example = upload_lem 1 7 upload local chunks [] start refl refl refl

upload_of_closed_tunnel_example :
    (handle_body_frame 2 7 frame_end [] (closed 1 7 upload local chunks start)).1
    ≡ do_proxy_to_local 1 7 upload local (some (join_chunks chunks)) ∷ []
unfolding opencode_rc.Tunnel.Streams.is_web_socket_upgrade socket_of
upload_of_closed_tunnel_example =
    upload_of_closed_tunnel 1 7 2 upload local chunks start refl refl refl refl []

on_socket_close_lem_example : socket_of 1 5 (on_socket_close 1 5 44 start).0 ≡ (
    if 1 == 1 && 5 == 5 && is_current 44 (socket_of 1 5 start) then none else socket_of 1 5 start)
on_socket_close_lem_example = on_socket_close_lem 1 5 44 1 5 start

abbrev basic : Text
basic = b'b' ∷ []

abbrev sent_header : Text × Text
sent_header = (text "authorization", basic)

local_headers-authorization_example : sent_header.1 ≡ basic
unfolding local_headers
local_headers-authorization_example =
    local_headers-authorization ((text "Authorization", b'a' ∷ []) ∷ []) local basic sent_header
      refl (inl refl) refl
