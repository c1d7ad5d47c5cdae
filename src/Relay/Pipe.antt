-- ===== src/Relay/Pipe.antt =====
-- The relay of api/src/ws-relay.ts as two queues of frames.
use mathlib.Core.List.{append_assoc, append-nil}
use opencode_rc.Common.{
  ℕ, Bool, true, false, Text, text, List, [], ◌∷◌, ◌++◌, Option, ◌≡◌, ◌≢◌, refl, sym, ap, ◌∙◌,
}
use opencode_rc.Relay.{
  Frame, Upstream, absent, connecting, open_, closing, closed, Relay, new_relay, Event, client_open,
  client_message, client_close, upstream_open, upstream_closing, upstream_message, upstream_close,
  upstream_error, denied, Effect, send_upstream, send_client, Utf8, closed_by, close_call, send_all,
  on_upstream_open, on_client_message, on_denied, step, run, relay_close_code,
}

-- The frames that came from the client, and those from the gateway.
abbrev pub from_client : List Event → List Frame
from_client [] = []
from_client (client_message frame ∷ es) = frame ∷ from_client es
from_client (_ ∷ es) = from_client es

abbrev pub from_upstream : List Event → List Frame
from_upstream [] = []
from_upstream (upstream_message frame ∷ es) = frame ∷ from_upstream es
from_upstream (_ ∷ es) = from_upstream es

-- The frames that were sent to the gateway, and those to the client.
abbrev pub to_upstream : List Effect → List Frame
to_upstream [] = []
to_upstream (send_upstream frame ∷ out) = frame ∷ to_upstream out
to_upstream (_ ∷ out) = to_upstream out

abbrev pub to_client : List Effect → List Frame
to_client [] = []
to_client (send_client frame ∷ out) = frame ∷ to_client out
to_client (_ ∷ out) = to_client out

to_upstream-append : (a b : List Effect) → to_upstream (a ++ b) ≡ to_upstream a ++ to_upstream b
to_upstream-append [] b = refl
to_upstream-append (e ∷ a) b =
    elim e as (λ x. to_upstream ((x ∷ a) ++ b) ≡ to_upstream (x ∷ a) ++ to_upstream b) [
      | send_upstream frame ↦ ap (λ l. frame ∷ l) (to_upstream-append a b)
      | _ ↦ to_upstream-append a b
    ]

to_client-append : (a b : List Effect) → to_client (a ++ b) ≡ to_client a ++ to_client b
to_client-append [] b = refl
to_client-append (e ∷ a) b =
    elim e as (λ x. to_client ((x ∷ a) ++ b) ≡ to_client (x ∷ a) ++ to_client b) [
      | send_client frame ↦ ap (λ l. frame ∷ l) (to_client-append a b)
      | _ ↦ to_client-append a b
    ]

to_upstream-send_all : (fs : List Frame) → to_upstream (send_all fs) ≡ fs
unfolding send_all
to_upstream-send_all [] = refl
to_upstream-send_all (f ∷ fs) = ap (λ l. f ∷ l) (to_upstream-send_all fs)

to_client-send_all : (fs : List Frame) → to_client (send_all fs) ≡ []
unfolding send_all
to_client-send_all [] = refl
to_client-send_all (f ∷ fs) = to_client-send_all fs

is_open : Upstream → Bool
is_open open_ = true
is_open _ = false

shut-ne : (u : Upstream) → is_open u ≡ false → u ≢ open_
unfolding is_open
shut-ne u h e = let g = sym (ap is_open e) ∙ h in cc

closed_by-shut : (u : Upstream) → is_open (closed_by u) ≡ false
unfolding closed_by is_open
closed_by-shut absent = refl
closed_by-shut connecting = refl
closed_by-shut open_ = refl
closed_by-shut closing = refl
closed_by-shut closed = refl

-- Closing passes no frame.
close-silent :
    (u : Upstream) (code : ℕ) (reason : Text)
    → (to_upstream (close_call u code reason) ≡ []) × (to_client (close_call u code reason) ≡ [])
unfolding close_call
close-silent absent code reason = (refl, refl)
close-silent connecting code reason = (refl, refl)
close-silent open_ code reason = (refl, refl)
close-silent closing code reason = (refl, refl)
close-silent closed code reason = (refl, refl)

passing_close :
    (u : Upstream) (code : ℕ) (reason : Text) (pending : List Frame)
    → (pending ++ [] ≡ to_upstream (close_call u code reason) ++ pending)
      × ([] ≡ to_client (close_call u code reason))
      × (closed_by u ≡ open_ → pending ≡ [])
passing_close u code reason pending =
    let (a, b) = close-silent u code reason in
    (
      append-nil pending ∙ ap (λ l. l ++ pending) (sym a),
      sym b,
      λ o. absurd (shut-ne (closed_by u) (closed_by-shut u) o),
    )

-- Nothing waits while the gateway's socket is open.
abbrev pub IsDrained : Upstream → List Frame → Type 0
IsDrained u pending = u ≡ open_ → pending ≡ []

module _ (utf8 : Utf8) (has_watch : Bool) where
  -- One event's frames.
  abbrev Passes : Event → Relay → Relay × List Effect → Type 0
  Passes e st (st', out) =
      (st.pending ++ from_client (e ∷ []) ≡ to_upstream out ++ st'.pending)
      × (from_upstream (e ∷ []) ≡ to_client out)
      × IsDrained st'.upstream st'.pending

  passing_open :
      (u : Upstream) (st : Relay)
      → st.upstream ≡ u
      → IsDrained st.upstream st.pending
      → Passes upstream_open st (on_upstream_open utf8 has_watch u st)
  unfolding on_upstream_open
  passing_open connecting st e d = (
    ap (λ l. l ++ []) (sym (to_upstream-send_all st.pending)),
    sym (to_client-send_all st.pending),
    λ o. refl,
  )
  passing_open absent st e d = (append-nil st.pending, refl, d)
  passing_open open_ st e d = (append-nil st.pending, refl, d)
  passing_open closing st e d = (append-nil st.pending, refl, d)
  passing_open closed st e d = (append-nil st.pending, refl, d)

  passing_message :
      (u : Upstream) (frame : Frame) (st : Relay)
      → st.upstream ≡ u
      → IsDrained st.upstream st.pending
      → Passes (client_message frame) st (on_client_message utf8 has_watch u frame st)
  unfolding on_client_message is_open
  passing_message open_ frame st e d =
      (ap (λ l. l ++ frame ∷ []) (d e) ∙ ap (λ l. frame ∷ l) (sym (d e)), refl, d)
  passing_message absent frame st e d = (refl, refl, λ o. absurd (shut-ne absent refl (sym e ∙ o)))
  passing_message connecting frame st e d =
      (refl, refl, λ o. absurd (shut-ne connecting refl (sym e ∙ o)))
  passing_message closing frame st e d =
      (refl, refl, λ o. absurd (shut-ne closing refl (sym e ∙ o)))
  passing_message closed frame st e d = (refl, refl, λ o. absurd (shut-ne closed refl (sym e ∙ o)))

  passing_denied :
      (b : Bool) (reason : Option Text) (st : Relay)
      → IsDrained st.upstream st.pending
      → Passes (denied reason) st (on_denied utf8 has_watch b reason st)
  unfolding on_denied
  passing_denied false reason st d = (append-nil st.pending, refl, d)
  passing_denied true reason st d =
      passing_close st.upstream 1000 (text "access revoked") st.pending

  passes :
      (e : Event) (st : Relay)
      → IsDrained st.upstream st.pending
      → Passes e st (step utf8 has_watch e st)
  unfolding step is_open
  passes client_open st d = (append-nil st.pending, refl, λ o. absurd (shut-ne connecting refl o))
  passes (client_message frame) st d = passing_message st.upstream frame st refl d
  passes (client_close code reason) st d =
      passing_close st.upstream (relay_close_code code) reason st.pending
  passes upstream_open st d = passing_open st.upstream st refl d
  passes upstream_closing st d =
      (append-nil st.pending, refl, λ o. absurd (shut-ne _ (closed_by-shut st.upstream) o))
  passes (upstream_message frame) st d = (append-nil st.pending, refl, d)
  passes (upstream_close code reason) st d =
      (append-nil st.pending, refl, λ o. absurd (shut-ne closed refl o))
  passes upstream_error st d = (append-nil st.pending, refl, d)
  passes (denied reason) st d = passing_denied st.watched reason st d

  -- One event behind another.
  from_client-cons :
      (e : Event) (es : List Event) → from_client (e ∷ es) ≡ from_client (e ∷ []) ++ from_client es
  from_client-cons e es =
      elim e as (λ x. from_client (x ∷ es) ≡ from_client (x ∷ []) ++ from_client es) [
        | client_message frame ↦ refl
        | _ ↦ refl
      ]

  from_upstream-cons :
      (e : Event) (es : List Event)
      → from_upstream (e ∷ es) ≡ from_upstream (e ∷ []) ++ from_upstream es
  from_upstream-cons e es =
      elim e as (λ x. from_upstream (x ∷ es) ≡ from_upstream (x ∷ []) ++ from_upstream es) [
        | upstream_message frame ↦ refl
        | _ ↦ refl
      ]

  abbrev All : List Event → Relay → Relay × List Effect → Type 0
  All es st (st', out) =
      (st.pending ++ from_client es ≡ to_upstream out ++ st'.pending)
      × (from_upstream es ≡ to_client out)
      × IsDrained st'.upstream st'.pending

  through :
      (es : List Event) (st : Relay)
      → IsDrained st.upstream st.pending
      → All es st (run utf8 has_watch es st)
  unfolding run
  through [] st d = (append-nil st.pending, refl, d)
  through (e ∷ es) st d =
      let (a, b, c) = passes e st d in
      let st1 = (step utf8 has_watch e st).0 in
      let out1 = (step utf8 has_watch e st).1 in
      let (a', b', c') = through es st1 c in
      let out2 = (run utf8 has_watch es st1).1 in
      let st2 = (run utf8 has_watch es st1).0 in
      (
        ap (λ l. st.pending ++ l) (from_client-cons e es)
            ∙ sym (append_assoc st.pending (from_client (e ∷ [])) (from_client es))
            ∙ ap (λ l. l ++ from_client es) a
            ∙ append_assoc (to_upstream out1) st1.pending (from_client es)
            ∙ ap (λ l. to_upstream out1 ++ l) a'
            ∙ sym (append_assoc (to_upstream out1) (to_upstream out2) st2.pending)
            ∙ ap (λ l. l ++ st2.pending) (sym (to_upstream-append out1 out2)),
        from_upstream-cons e es
            ∙ ap (λ l. l ++ from_upstream es) b
            ∙ ap (λ l. to_client out1 ++ l) b'
            ∙ sym (to_client-append out1 out2),
        c',
      )

  -- From its start, and whatever the order of events, the relay is a pair of queues: the client's
  -- frames are those sent to the gateway, in order, with those that still wait behind them, none
  -- waits while the gateway's socket is open, and the frames sent to the client are the gateway's,
  -- in order.
  pub relay_in_order :
      (es : List Event)
      → let (st, out) = run utf8 has_watch es new_relay in
        (from_client es ≡ to_upstream out ++ st.pending)
        × (from_upstream es ≡ to_client out)
        × (st.upstream ≡ open_ → st.pending ≡ [])
  relay_in_order es = through es new_relay (λ o. refl)
