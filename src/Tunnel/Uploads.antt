-- ===== src/Tunnel/Uploads.antt =====
-- Requests with a body: from the request's headers to the END frame.
use mathlib.Core.List.{append-nil, append_assoc}
use opencode_rc.Common.{
  ℕ, Bool, true, false, List, [], ◌∷◌, ◌++◌, Option, none, some, ◌≡◌, ◌≢◌, refl, ap, ◌∙◌, arith,
  ◌==◌, ==_iff, if◌then◌else◌, Bool-cases, inl, inr,
}
use opencode_rc.Tunnel.Sockets.{lookup-remove, lookup-insert, same_sockets, socket_of-close}
use opencode_rc.Tunnel.Frames.{Bytes, frame_data, frame_end}
use opencode_rc.Tunnel.Streams.{
  RequestHeaders, LocalTarget, Pending, State, do_proxy_to_local, Step, lookup, remove, insert,
  socket_of, with_pending, close_all_streams_for, join_chunks, pending_frame, handle_body_frame,
  is_web_socket_upgrade, proxy_to_local,
}

-- DATA frames of one stream, one after another.
unfoldable pub data_frames : (ws stream_id : ℕ) → List Bytes → State → Step
data_frames ws stream_id [] st = (st, [])
data_frames ws stream_id (c ∷ cs) st =
    let (st', out) = handle_body_frame ws stream_id frame_data c st in
    let (st'', out') = data_frames ws stream_id cs st' in (st'', out ++ out')

-- A stream that waits for the rest of a body.
pub record Waits (ws stream_id : ℕ) (p : Pending) (st : State) : Type 0 where
  pub idle : socket_of ws stream_id st ≡ none
  pub pending : lookup stream_id st.pending_requests ≡ some p

module _ (ws stream_id : ℕ) where
  data_frame_lem :
      (c : Bytes) (p : Pending) (st : State)
      → Waits ws stream_id p st
      → handle_body_frame ws stream_id frame_data c st ≡ (
        with_pending
            (insert stream_id
              (record p { body_chunks = p.body_chunks ++ (c ∷ []) })
              st.pending_requests)
            st,
        [],
      )
  unfolding handle_body_frame pending_frame
  data_frame_lem c p st w = let i = w.idle in let e = w.pending in ground arith

  end_frame_lem :
      (c : Bytes) (p : Pending) (st : State)
      → Waits ws stream_id p st
      → handle_body_frame ws stream_id frame_end c st ≡ (
        with_pending (remove stream_id st.pending_requests) st,
        do_proxy_to_local p.ws stream_id p.req p.local (some (join_chunks p.body_chunks)) ∷ [],
      )
  unfolding handle_body_frame pending_frame
  end_frame_lem c p st w = let i = w.idle in let e = w.pending in ground arith

  -- What DATA frames leave alone.
  pub record Same (st st' : State) : Type 0 where
    pub streams : st'.ws_streams_by_tunnel ≡ st.ws_streams_by_tunnel
    pub others :
        (k : ℕ) → k ≢ stream_id → lookup k st'.pending_requests ≡ lookup k st.pending_requests

  ==-ne : (k j : ℕ) → k ≢ j → (k == j) ≡ false
  ==-ne k j h = ground (arith, ==_iff k j)

  collected : List Bytes → Pending → Pending
  collected cs p = record p { body_chunks = p.body_chunks ++ cs }

  Waits-after :
      (c : Bytes) (p : Pending) (st : State)
      → Waits ws stream_id p st
      → Waits ws stream_id
          (record p { body_chunks = p.body_chunks ++ (c ∷ []) })
          (handle_body_frame ws stream_id frame_data c st).0
  unfolding with_pending socket_of
  Waits-after c p st w = rw (data_frame_lem c p st w) (record {
    idle = w.idle;
    pending = ground (
      arith,
      lookup-insert stream_id stream_id (record p { body_chunks = p.body_chunks ++ (c ∷ []) })
          st.pending_requests,
      ==_iff stream_id stream_id,
    );
  })

  Same-after :
      (c : Bytes) (p : Pending) (st : State)
      → Waits ws stream_id p st
      → Same st (handle_body_frame ws stream_id frame_data c st).0
  unfolding with_pending
  Same-after c p st w = rw (data_frame_lem c p st w) (record {
    streams = refl;
    others = λ k h. ground (
      arith,
      lookup-insert k stream_id (record p { body_chunks = p.body_chunks ++ (c ∷ []) })
          st.pending_requests,
      ==-ne k stream_id h,
    );
  })

  data_frames_lem :
      (cs : List Bytes) (p : Pending) (st : State)
      → Waits ws stream_id p st
      → Waits ws stream_id
          (record p { body_chunks = p.body_chunks ++ cs })
          (data_frames ws stream_id cs st).0
        × Same st (data_frames ws stream_id cs st).0
        × ((data_frames ws stream_id cs st).1 ≡ [])
  unfolding data_frames
  data_frames_lem [] p st w =
      (rw (append-nil p.body_chunks) w, record { streams = refl; others = λ k h. refl }, refl)
  data_frames_lem (c ∷ cs) p st w =
      let (w', same, quiet) =
        data_frames_lem cs (record p { body_chunks = p.body_chunks ++ (c ∷ []) })
          (handle_body_frame ws stream_id frame_data c st).0 (Waits-after c p st w) in
      let before = Same-after c p st w in
      (
        rw (append_assoc p.body_chunks (c ∷ []) cs) at w',
        record {
          streams = same.streams ∙ before.streams;
          others = λ k h. same.others k h ∙ before.others k h;
        },
        ap
              (λ (r : Step).
                r.1
                ++ (data_frames ws stream_id cs
                    (handle_body_frame ws stream_id frame_data c st).0).1)
              (data_frame_lem c p st w)
            ∙ quiet,
      )

  proxy_to_local-Waits :
      (req : RequestHeaders) (local : LocalTarget) (st : State)
      → is_web_socket_upgrade req.headers ≡ false
      → req.has_body ≡ true
      → socket_of ws stream_id st ≡ none
      → Waits ws stream_id
          (record { req = req; body_chunks = []; local = local; ws = ws })
          (proxy_to_local ws stream_id req local st).0
        × Same st (proxy_to_local ws stream_id req local st).0
        × ((proxy_to_local ws stream_id req local st).1 ≡ [])
  unfolding proxy_to_local with_pending socket_of
  proxy_to_local-Waits req local st plain body idle =
      rw (plain, body)
        (
          record {
            idle = idle;
            pending = ground (
              arith,
              lookup-insert stream_id stream_id
                  (record { req = req; body_chunks = []; local = local; ws = ws })
                  st.pending_requests,
              ==_iff stream_id stream_id,
            );
          },
          record {
            streams = refl;
            others = λ k h. ground (
              arith,
              lookup-insert k stream_id
                  (record { req = req; body_chunks = []; local = local; ws = ws })
                  st.pending_requests,
              ==-ne k stream_id h,
            );
          },
          refl,
        )

  -- The state once a request has come on the stream, and then the chunks of its body.
  abbrev pub received : RequestHeaders → LocalTarget → List Bytes → State → Step
  received req local chunks st =
      data_frames ws stream_id chunks (proxy_to_local ws stream_id req local st).0

  removed_lem :
      (k : ℕ) (before after : State)
      → Same before after
      → lookup k (remove stream_id after.pending_requests)
        ≡ (if k == stream_id then none else lookup k before.pending_requests)
  removed_lem k before after same = elim (Bool-cases (k == stream_id)) [
    | inl t ↦ ground (arith, lookup-remove k stream_id after.pending_requests)
    | inr f ↦
        let kept = same.others k (λ e. ground (arith, ==_iff k stream_id)) in
        ground (arith, lookup-remove k stream_id after.pending_requests)
  ]

  Same-trans : (a b c : State) → Same a b → Same b c → Same a c
  Same-trans a b c f g = record {
    streams = g.streams ∙ f.streams;
    others = λ k h. g.others k h ∙ f.others k h;
  }

  -- On a stream with no upgraded socket, a request with a body that is no upgrade is held back
  -- while its DATA frames come, with no effect; the END frame forwards it to the local server with
  -- exactly the chunks joined in order, the stream is then forgotten, and no other pending request
  -- changes.
  pub upload_lem :
      (req : RequestHeaders) (local : LocalTarget) (chunks : List Bytes) (last : Bytes) (st : State)
      → is_web_socket_upgrade req.headers ≡ false
      → req.has_body ≡ true
      → socket_of ws stream_id st ≡ none
      → ((proxy_to_local ws stream_id req local st).1 ≡ [])
        × ((received req local chunks st).1 ≡ [])
        × ((handle_body_frame ws stream_id frame_end last (received req local chunks st).0).1
            ≡ do_proxy_to_local ws stream_id req local (some (join_chunks chunks)) ∷ [])
        × ((k : ℕ)
            → lookup k
                (handle_body_frame ws stream_id frame_end last
                  (received req local chunks st).0).0.pending_requests
              ≡ (if k == stream_id then none else lookup k st.pending_requests))
  unfolding with_pending
  upload_lem req local chunks last st plain body idle =
      let (w, same, quiet) = proxy_to_local-Waits req local st plain body idle in
      let (w', same', quiet') =
        data_frames_lem chunks (record { req = req; body_chunks = []; local = local; ws = ws })
          (proxy_to_local ws stream_id req local st).0 w in
      let ended = end_frame_lem last _ (received req local chunks st).0 w' in
      (
        quiet,
        quiet',
        ap (λ (r : Step). r.1) ended,
        λ k.
            ap (λ (r : Step). lookup k r.0.pending_requests) ended
            ∙ removed_lem k st (received req local chunks st).0 (
                Same-trans st (proxy_to_local ws stream_id req local st).0
                  (received req local chunks st).0 same same'),
      )

  -- The state once the tunnel of an upload has closed in the middle of its body.
  abbrev pub closed : RequestHeaders → LocalTarget → List Bytes → State → State
  closed req local chunks st = (close_all_streams_for ws (received req local chunks st).0).0

none_either : (b : Bool) (o : Option ℕ) → o ≡ none → (if b then none else o) ≡ none
none_either b o e = ground arith

module _ (ws stream_id other : ℕ) (req : RequestHeaders) (local : LocalTarget) (chunks : List Bytes)
    (st : State) (plain : is_web_socket_upgrade req.headers ≡ false) (body : req.has_body ≡ true)
    (idle : socket_of ws stream_id st ≡ none) (idle' : socket_of other stream_id st ≡ none) where
  closed-Waits :
      Waits other stream_id
        (record { req = req; body_chunks = chunks; local = local; ws = ws })
        (closed ws stream_id req local chunks st)
  unfolding close_all_streams_for
  closed-Waits =
      let (w, same, quiet) = proxy_to_local-Waits ws stream_id req local st plain body idle in
      let (w', same', quiet') =
        data_frames_lem ws stream_id chunks
          (record { req = req; body_chunks = []; local = local; ws = ws })
          (proxy_to_local ws stream_id req local st).0 w in
      record {
        idle =
            socket_of-close ws other stream_id (received ws stream_id req local chunks st).0
            ∙ none_either (other == ws) _
                (same_sockets other stream_id _ _ (same'.streams ∙ same.streams) ∙ idle');
        pending = w'.pending;
      }

  -- When a tunnel closes in the middle of the body of a request that is no upgrade, an END frame of
  -- the same stream id on any tunnel with no upgraded socket there forwards the unfinished request,
  -- with the chunks that had come, and its answer goes to the closed tunnel.
  pub upload_of_closed_tunnel :
      (last : Bytes)
      → (handle_body_frame other stream_id frame_end last
          (closed ws stream_id req local chunks st)).1
        ≡ do_proxy_to_local ws stream_id req local (some (join_chunks chunks)) ∷ []
  upload_of_closed_tunnel last =
      ap (λ (r : Step). r.1)
        (end_frame_lem other stream_id last
          (record { req = req; body_chunks = chunks; local = local; ws = ws })
          (closed ws stream_id req local chunks st) closed-Waits)
