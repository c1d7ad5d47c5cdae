-- ===== src/Relay.antt =====
-- The relay of one WebSocket connection between a client and the gateway (api/src/ws-relay.ts and
-- ws-close.ts), as a state, events and effects.
pub mod Pipe
mod Tests
use opencode_rc.Common.{
  ℕ, Bool, true, false, ◌&&◌, ◌||◌, Text, text, ◌==◌, leb, length, take, List, [], ◌∷◌, ◌++◌,
  Option, none, some, if◌then◌else◌,
}

-- A text or binary frame.
abbrev pub Frame : Type 0
Frame = List ℕ

-- The `readyState` of the socket to the gateway; `absent` before it is created.
pub data Upstream : Type 0 where
  absent connecting open_ closing closed : Upstream

pub record Relay : Type 0 where
  pub upstream : Upstream
  pub pending : List Frame
  -- Whether the watch of the user's access runs (`stopWatch` does something).
  pub watched : Bool

abbrev pub new_relay : Relay
new_relay = record { upstream = absent; pending = []; watched = false }

-- What happens: the handlers of the client's socket, those of the gateway's socket, a change of its
-- `readyState` ahead of them, and the denial that the watch reports.
pub data Event : Type 0 where
  client_open : Event
  client_message : Frame → Event
  client_close : (code : ℕ) (reason : Text) → Event
  upstream_open : Event
  -- the gateway's close frame came: `readyState` is CLOSING, and no handler runs yet
  upstream_closing : Event
  upstream_message : Frame → Event
  upstream_close : (code : ℕ) (reason : Text) → Event
  upstream_error : Event
  denied : (reason : Option Text) → Event

pub data Effect : Type 0 where
  connect : Effect
  send_upstream : Frame → Effect
  send_client : Frame → Effect
  close_upstream : (code : ℕ) (reason : Text) → Effect
  close_client : (code : ℕ) (reason : Text) → Effect
  stop_watch : Effect

-- `TextEncoder`, and `TextDecoder` on a text that may be cut within a character.
pub record Utf8 : Type 0 where
  pub encode : Text → List ℕ
  pub decode : List ℕ → Text

-- `relayCloseCode`
unfoldable pub relay_close_code : ℕ → ℕ
relay_close_code code =
    if code == 1005 then 1000 else if code == 1006 || code == 1015 then 1011 else code

-- `replace(/\uFFFD$/, "")`
unfoldable pub drop_replacement : Text → Text
drop_replacement [] = []
drop_replacement (c ∷ []) = if c == 0xfffd then [] else c ∷ []
drop_replacement (c ∷ d ∷ s) = c ∷ drop_replacement (d ∷ s)

-- `closeReason`
unfoldable pub close_reason : Utf8 → Text → Text
close_reason utf8 reason =
    if leb (length (utf8.encode reason)) 123
    then reason
    else drop_replacement (utf8.decode (take 123 (utf8.encode reason)))

-- The state of a socket that was told to close; one that is closed stays so.
unfoldable pub closed_by : Upstream → Upstream
closed_by absent = absent
closed_by closed = closed
closed_by _ = closing

-- `upstream?.close(code, reason)`
unfoldable pub close_call : Upstream → ℕ → Text → List Effect
close_call absent code reason = []
close_call _ code reason = close_upstream code reason ∷ []

unfoldable pub send_all : List Frame → List Effect
send_all [] = []
send_all (f ∷ fs) = send_upstream f ∷ send_all fs

abbrev pub or_revoked : Option Text → Text
or_revoked none = text "access revoked"
or_revoked (some reason) = reason

module _ (utf8 : Utf8) (has_watch : Bool) where
  -- `onopen` of the gateway's socket, which fires only while it connects
  unfoldable pub on_upstream_open : Upstream → Relay → Relay × List Effect
  on_upstream_open connecting st =
      (record st { upstream = open_; pending = [] }, send_all st.pending)
  on_upstream_open _ st = (st, [])

  -- `onMessage`
  unfoldable pub on_client_message : Upstream → Frame → Relay → Relay × List Effect
  on_client_message open_ frame st = (st, send_upstream frame ∷ [])
  on_client_message _ frame st = (record st { pending = st.pending ++ frame ∷ [] }, [])

  -- The denial of a watch that runs.
  unfoldable pub on_denied : Bool → Option Text → Relay → Relay × List Effect
  on_denied false reason st = (st, [])
  on_denied true reason st = (
    record st { upstream = closed_by st.upstream; watched = false },
    close_client 1008 (close_reason utf8 (or_revoked reason))
        ∷ close_call st.upstream 1000 (text "access revoked"),
  )

  -- One event. A watch reports once, and nothing once it was stopped.
  unfoldable pub step : Event → Relay → Relay × List Effect
  step client_open st = (record st { upstream = connecting; watched = has_watch }, connect ∷ [])
  step (client_message frame) st = on_client_message st.upstream frame st
  step (client_close code reason) st = (
    record st { upstream = closed_by st.upstream; watched = false },
    stop_watch ∷ close_call st.upstream (relay_close_code code) reason,
  )
  step upstream_open st = on_upstream_open st.upstream st
  step upstream_closing st = (record st { upstream = closed_by st.upstream }, [])
  step (upstream_message frame) st = (st, send_client frame ∷ [])
  step (upstream_close code reason) st = (
    record st { upstream = closed; watched = false },
    stop_watch ∷ close_client (relay_close_code code) reason ∷ [],
  )
  step upstream_error st = (st, close_client 1011 (text "upstream error") ∷ [])
  step (denied reason) st = on_denied st.watched reason st

  unfoldable pub run : List Event → Relay → Relay × List Effect
  run [] st = (st, [])
  run (e ∷ es) st =
      let (st1, out1) = step e st in let (st2, out2) = run es st1 in (st2, out1 ++ out2)
