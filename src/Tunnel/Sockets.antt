-- ===== src/Tunnel/Sockets.antt =====
-- The maps of the tunnel's streams, and what the handlers of a socket leave in them.
use opencode_rc.Common.{
  ◌&&◌, ℕ, true, [], ◌∷◌, none, some, ◌≡◌, refl, ◌∙◌, arith, ◌==◌, ==_iff, if◌then◌else◌,
  Bool-cases, inl, inr,
}
use opencode_rc.Tunnel.Streams.{
  Store, State, lookup, remove, insert, socket_of, streams_for, with_streams, close_all_streams_for,
  on_socket_close, is_current,
}

module _ {A : Type 0} where
  pub lookup-remove :
      (j k : ℕ) (s : Store A) → lookup j (remove k s) ≡ (if j == k then none else lookup j s)
  unfolding lookup remove
  lookup-remove j k [] = ground arith
  lookup-remove j k ((i, a) ∷ s) =
      ground (arith, lookup-remove j k s, ==_iff j k, ==_iff i k, ==_iff i j)

  pub lookup-insert :
      (j k : ℕ) (a : A) (s : Store A)
      → lookup j (insert k a s) ≡ (if j == k then some a else lookup j s)
  unfolding lookup insert
  lookup-insert j k a s = ground (arith, lookup-remove j k s, ==_iff j k, ==_iff k j)

pub same_sockets :
    (ws k : ℕ) (st st' : State)
    → st'.ws_streams_by_tunnel ≡ st.ws_streams_by_tunnel
    → socket_of ws k st' ≡ socket_of ws k st
unfolding socket_of
same_sockets ws k st st' e = rw e refl

-- Closing a tunnel forgets its sockets and no other tunnel's.
pub socket_of-close :
    (ws other k : ℕ) (st : State)
    → socket_of other k (close_all_streams_for ws st).0
      ≡ (if other == ws then none else socket_of other k st)
unfolding close_all_streams_for socket_of
socket_of-close ws other k st = ground (arith, lookup-remove other ws st.ws_streams_by_tunnel)

lookup-streams_for : (ws k : ℕ) (st : State) → lookup k (streams_for ws st) ≡ socket_of ws k st
unfolding socket_of streams_for lookup
lookup-streams_for ws k st = ground arith

socket_of-with_streams :
    (ws ws' k : ℕ) (streams : Store ℕ) (st : State)
    → socket_of ws' k (with_streams ws streams st)
      ≡ (if ws' == ws then lookup k streams else socket_of ws' k st)
unfolding socket_of with_streams
socket_of-with_streams ws ws' k streams st =
    ground (arith, lookup-insert ws' ws streams st.ws_streams_by_tunnel)

without_socket :
    (ws stream_id ws' k : ℕ) (st : State)
    → (if ws' == ws then lookup k (remove stream_id (streams_for ws st)) else socket_of ws' k st)
      ≡ (if ws' == ws && k == stream_id && true then none else socket_of ws' k st)
without_socket ws stream_id ws' k st = elim (Bool-cases (ws' == ws)) [
  | inr f ↦ ground arith
  | inl t ↦
      let e = (==_iff ws' ws).0 t in
      ground (arith, lookup-remove k stream_id (streams_for ws st), lookup-streams_for ws k st)
]

-- When a socket of an upgraded stream closes, only its own entry is forgotten: a newer socket under
-- the same stream id, every other stream and every other tunnel keep theirs.
pub on_socket_close_lem :
    (ws stream_id socket ws' k : ℕ) (st : State)
    → socket_of ws' k (on_socket_close ws stream_id socket st).0 ≡ (
        if ws' == ws && k == stream_id && is_current socket (socket_of ws stream_id st)
        then none
        else socket_of ws' k st)
unfolding on_socket_close
on_socket_close_lem ws stream_id socket ws' k st =
    elim (Bool-cases (is_current socket (socket_of ws stream_id st))) [
      | inr f ↦ rw f (ground arith)
      | inl t ↦ rw t (
          socket_of-with_streams ws ws' k (remove stream_id (streams_for ws st)) st
          ∙ without_socket ws stream_id ws' k st)
    ]
