-- ===== src/Tunnel/Streams.antt =====
-- The streams of a tunnel: requests whose body is still coming, and the sockets of upgraded
-- requests. `ws` is the tunnel's connection, a number here; so is a socket. What the code does to the
-- world is a list of effects, in order.
use opencode_rc.Common.{
  ℕ, Bool, false, ◌&&◌, ◌||◌, not, List, [], ◌∷◌, ◌++◌, map, Text, text, text_eq, Option, none,
  some, ltb, if◌then◌else◌, ◌==◌, any, filter, lower, length,
}
use opencode_rc.Tunnel.Frames.{
  Bytes, Frame, encode_frame, decode_frame_header, frame_request_headers, frame_response_headers,
  frame_data, frame_end,
}

abbrev pub Headers : Type 0
Headers = List (Text × Text)

pub record RequestHeaders : Type 0 where
  pub method : Text
  pub path : Text
  pub headers : Headers
  pub has_body : Bool

pub record ResponseHeaders : Type 0 where
  pub status : ℕ
  pub headers : Headers

pub record LocalTarget : Type 0 where
  pub url : Text
  pub authorization : Option Text

pub record Pending : Type 0 where
  pub req : RequestHeaders
  pub body_chunks : List Bytes
  pub local : LocalTarget
  pub ws : ℕ

-- A `Map` with numbers as keys.
abbrev pub Store : Type 0 → Type 0
Store A = List (ℕ × A)

module _ {A : Type 0} where
  unfoldable pub lookup : ℕ → Store A → Option A
  lookup k [] = none
  lookup k ((j, a) ∷ s) = let rest = lookup k s in if j == k then some a else rest

  unfoldable pub remove : ℕ → Store A → Store A
  remove k [] = []
  remove k ((j, a) ∷ s) = let rest = remove k s in if j == k then rest else (j, a) ∷ rest

  unfoldable pub insert : ℕ → A → Store A → Store A
  unfolding remove
  insert k a s = (k, a) ∷ remove k s

-- `pendingRequests` and `wsStreamsByTunnel`. The first is one map for all tunnels.
pub record State : Type 0 where
  pub pending_requests : Store Pending
  pub ws_streams_by_tunnel : Store (Store ℕ)

pub data Effect : Type 0 where
  -- a write to a socket, its end, its destruction
  write : (socket : ℕ) → Bytes → Effect
  finish : (socket : ℕ) → Effect
  destroy : (socket : ℕ) → Effect
  -- a message sent into the tunnel
  send : (ws : ℕ) → Bytes → Effect
  -- a request to the local server, whose answer goes to the tunnel `ws`
  do_proxy_to_local :
      (ws stream_id : ℕ) → RequestHeaders → LocalTarget → (body : Option Bytes) → Effect
  -- an upgrade of a request at the local server
  upgrade : (ws stream_id : ℕ) → RequestHeaders → LocalTarget → Effect

abbrev pub Step : Type 0
Step = State × List Effect

-- `streamsFor(ws)?.get(streamId)`
unfoldable pub socket_of : (ws stream_id : ℕ) → State → Option ℕ
unfolding lookup
socket_of ws stream_id st = elim (lookup ws st.ws_streams_by_tunnel) [
  | none ↦ none
  | some streams ↦ lookup stream_id streams
]

-- `streamsFor(ws, true)`
unfoldable pub streams_for : (ws : ℕ) → State → Store ℕ
unfolding lookup
streams_for ws st = elim (lookup ws st.ws_streams_by_tunnel) [ none ↦ [] | some streams ↦ streams ]

unfoldable pub with_streams : (ws : ℕ) → Store ℕ → State → State
unfolding insert
with_streams ws streams st = record st {
  ws_streams_by_tunnel = insert ws streams st.ws_streams_by_tunnel;
}

unfoldable pub with_pending : Store Pending → State → State
with_pending pending st = record st { pending_requests = pending }

-- `closeAllStreamsFor`
unfoldable pub close_all_streams_for : (ws : ℕ) → State → Step
unfolding streams_for remove
close_all_streams_for ws st = (
  record st { ws_streams_by_tunnel = remove ws st.ws_streams_by_tunnel },
  map (λ (e : ℕ × ℕ). destroy e.1) (streams_for ws st),
)

-- The chunks one after the other, as the loop over `offset` copies them.
unfoldable pub join_chunks : List Bytes → Bytes
join_chunks [] = []
join_chunks (c ∷ cs) = c ++ join_chunks cs

-- `handleBodyFrame` on a frame of an upgraded stream
unfoldable pub active_frame : (ws stream_id type socket : ℕ) → Bytes → State → Step
unfolding with_streams streams_for remove
active_frame ws stream_id type socket payload st =
    if type == frame_data
    then (st, write socket payload ∷ [])
    else if type == frame_end
    then (with_streams ws (remove stream_id (streams_for ws st)) st, finish socket ∷ [])
    else (st, [])

-- `handleBodyFrame` on a frame of a request whose body is still coming
unfoldable pub pending_frame : (stream_id type : ℕ) → Bytes → Pending → State → Step
unfolding with_pending insert remove join_chunks
pending_frame stream_id type payload p st =
    if type == frame_data
    then (
      with_pending
          (insert stream_id (record p { body_chunks = p.body_chunks ++ (payload ∷ []) })
            st.pending_requests)
          st,
      [],
    )
    else if type == frame_end
    then (
      with_pending (remove stream_id st.pending_requests) st,
      do_proxy_to_local p.ws stream_id p.req p.local (some (join_chunks p.body_chunks)) ∷ [],
    )
    else (st, [])

-- `handleBodyFrame`
unfoldable pub handle_body_frame : (ws stream_id type : ℕ) → Bytes → State → Step
unfolding socket_of lookup
handle_body_frame ws stream_id type payload st = elim (socket_of ws stream_id st) [
  | some socket ↦ active_frame ws stream_id type socket payload st
  | none ↦ elim (lookup stream_id st.pending_requests) [
    | none ↦ (st, [])
    | some p ↦ pending_frame stream_id type payload p st
  ]
]

-- `isWebSocketUpgrade`
unfoldable pub is_web_socket_upgrade : Headers → Bool
unfolding any lower text_eq text
is_web_socket_upgrade = any (λ (h : Text × Text).
    text_eq (lower h.0) (text "upgrade") && text_eq (lower h.1) (text "websocket"))

-- The headers that `buildLocalRequest` forwards.
unfoldable pub local_headers : Headers → LocalTarget → Headers
unfolding filter lower text_eq text
local_headers headers local = elim local.authorization [
  | none ↦ headers
  | some a ↦
      filter (λ (h : Text × Text). not (text_eq (lower h.0) (text "authorization"))) headers
      ++ ((text "authorization", a) ∷ [])
]

-- `proxyToLocal`
unfoldable pub proxy_to_local : (ws stream_id : ℕ) → RequestHeaders → LocalTarget → State → Step
unfolding is_web_socket_upgrade with_pending insert
proxy_to_local ws stream_id req local st =
    if is_web_socket_upgrade req.headers
    then (st, upgrade ws stream_id req local ∷ [])
    else if req.has_body
    then (
      with_pending
          (insert stream_id (record { req = req; body_chunks = []; local = local; ws = ws })
            st.pending_requests)
          st,
      [],
    )
    else (st, do_proxy_to_local ws stream_id req local none ∷ [])

module _ (encode_response : ResponseHeaders → Bytes) where
  -- `sendResponseHeaders`; `JSON.stringify` and the encoder are a parameter
  unfoldable pub send_response_headers : (ws stream_id : ℕ) → ResponseHeaders → Effect
  unfolding encode_frame
  send_response_headers ws stream_id r =
      send ws (encode_frame stream_id frame_response_headers (encode_response r))

  -- The local server upgraded: `head` holds the bytes it has already sent.
  unfoldable pub on_upgrade :
      (ws stream_id socket : ℕ) → ResponseHeaders → (head : Bytes) → State → Step
  unfolding with_streams streams_for insert send_response_headers encode_frame
  on_upgrade ws stream_id socket r head st = (
    with_streams ws (insert stream_id socket (streams_for ws st)) st,
    send_response_headers ws stream_id r
        ∷ (if ltb 0 (length head)
            then send ws (encode_frame stream_id frame_data head) ∷ []
            else []),
  )

-- The socket of an upgraded stream sent bytes.
unfoldable pub on_socket_data : (ws stream_id : ℕ) → Bytes → State → Step
unfolding encode_frame
on_socket_data ws stream_id chunk st = (st, send ws (encode_frame stream_id frame_data chunk) ∷ [])

unfoldable pub is_current : (socket : ℕ) → Option ℕ → Bool
is_current socket none = false
is_current socket (some s) = s == socket

-- It closed or failed: `forgetIfCurrent`, and an END frame.
unfoldable pub on_socket_close : (ws stream_id socket : ℕ) → State → Step
unfolding is_current socket_of with_streams streams_for remove encode_frame
on_socket_close ws stream_id socket st = (
  if is_current socket (socket_of ws stream_id st)
      then with_streams ws (remove stream_id (streams_for ws st)) st
      else st,
  send ws (encode_frame stream_id frame_end []) ∷ [],
)

module _ (decode_request : Bytes → Option RequestHeaders) (local : LocalTarget) where
  unfoldable pub on_frame : (ws : ℕ) → Frame → State → Option Step
  unfolding proxy_to_local handle_body_frame
  on_frame ws f st =
      if f.type == frame_request_headers
      then elim (decode_request f.payload) [
        | none ↦ none
        | some req ↦ some (proxy_to_local ws f.stream_id req local st)
      ]
      else if f.type == frame_data || f.type == frame_end
      then some (handle_body_frame ws f.stream_id f.type f.payload st)
      else some (st, [])

  -- A message from the tunnel; `none` where `JSON.parse` throws.
  unfoldable pub on_message : (ws : ℕ) → Bytes → State → Option Step
  unfolding on_frame decode_frame_header
  on_message ws buf st = elim (decode_frame_header buf) [
    | none ↦ some (st, [])
    | some f ↦ on_frame ws f st
  ]
