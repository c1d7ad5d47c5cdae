-- ===== src/Relay/Tests.antt =====
-- A connection whose first frame comes before the gateway's socket is open.
use opencode_rc.Common.{true, List, [], ◌∷◌, ◌++◌, ◌≡◌}
use opencode_rc.Relay.{
  new_relay, Event, client_open, client_message, client_close, upstream_open, upstream_closing,
  upstream_message, open_, Utf8, run,
}
use opencode_rc.Relay.Pipe.{relay_in_order, from_client, from_upstream, to_upstream, to_client}

abbrev utf8 : Utf8
utf8 = record { encode = λ s. s; decode = λ bytes. bytes }

abbrev events : List Event
events =
    client_open
    ∷ client_message (1 ∷ [])
    ∷ upstream_open
    ∷ client_message (2 ∷ [])
    ∷ upstream_message (3 ∷ [])
    ∷ upstream_closing
    ∷ client_close 1006 []
    ∷ client_message (4 ∷ [])
    ∷ []

relay_in_order_example :
    (from_client events
      ≡ to_upstream (run utf8 true events new_relay).1
        ++ (run utf8 true events new_relay).0.pending)
    × (from_upstream events ≡ to_client (run utf8 true events new_relay).1)
    × ((run utf8 true events new_relay).0.upstream ≡ open_
        → (run utf8 true events new_relay).0.pending ≡ [])
relay_in_order_example = relay_in_order utf8 true events
