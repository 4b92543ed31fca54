-- ===== src/Webtransport/Connection/Streams.antt =====
-- quiche_webtransport/src/connection.rs: the streams of the sessions.
use quiche_moq.Common.{Bool, List, Option, [], false, if◌then◌else◌, none, some, ℕ, ◌&&◌, ◌==◌, ◌∷◌}
use quiche_moq.Common.Map.{Map, contains_key, get, insert}
use quiche_moq.Common.Outcome.{Outcome, ok, err, panicked}
use quiche_moq.Common.Sorting.{sort_by_key}
use quiche_moq.Octets.{Octets}
use quiche_moq.Webtransport.{Error}
use quiche_moq.Webtransport.Quic.{H3Error, Quic}
use quiche_moq.Webtransport.Stream.{Stream, with_session}
use quiche_moq.Webtransport.Stream
use quiche_moq.Webtransport.Connection.{Connection, Did}

-- A test of a stream, over the streams of the map.
unfoldable pub is_of : ℕ → Option ℕ → Bool
is_of session_id none = false
is_of session_id (some id) = id == session_id

unfoldable pub readable_of : ℕ → Map Stream → List ℕ
unfolding is_of
readable_of session_id [] = []
readable_of session_id ((id, t) ∷ m) =
    let rest = readable_of session_id m in
    if is_of session_id t.session_id && t.readable then id ∷ rest else rest

unfoldable pub readable_streams : ℕ → Connection → List ℕ
unfolding readable_of
readable_streams session_id c = readable_of session_id c.streams

unfoldable pub sessions_of : Map Stream → List ℕ
sessions_of [] = []
sessions_of ((id, t) ∷ m) = elim t.session_id [
  | none ↦ sessions_of m
  | some session_id ↦ session_id ∷ sessions_of m
]

-- `dedup`: the ids that are other than the one before them.
unfoldable pub other_than : ℕ → List ℕ → List ℕ
other_than x [] = []
other_than x (y ∷ ys) = let rest = other_than y ys in if x == y then rest else y ∷ rest

unfoldable pub dedup : List ℕ → List ℕ
unfolding other_than
dedup [] = []
dedup (x ∷ xs) = x ∷ other_than x xs

unfoldable pub readable_sessions : Connection → List ℕ
unfolding sessions_of dedup
readable_sessions c = dedup (sort_by_key (λ id. id) (sessions_of c.streams))

module _ {S : Type 0} where
  -- A method of the stream `streams.get_mut(&stream_id).unwrap()`.
  unfoldable pub with_stream :
      {A : Type 0} → ℕ → (Stream → S → Stream.Did S A) → Connection × S → Did S A
  with_stream stream_id f (c, s) = elim (get c.streams stream_id) [
    | none ↦ ((c, s), panicked)
    | some t ↦ let r = f t s in ((record c { streams = insert stream_id r.0 c.streams }, r.1), r.2)
  ]

  unfoldable pub after_open : ℕ → Connection → S × Outcome H3Error ℕ → Did S ℕ
  after_open session_id c (s, ok id) =
      ((record c { streams = insert id (with_session id session_id) c.streams }, s), ok id)
  after_open session_id c (s, err H3Error.done) = ((c, s), err Error.insufficient_capacity)
  after_open session_id c (s, err H3Error.stream_blocked) =
      ((c, s), err Error.insufficient_capacity)
  after_open session_id c (s, err H3Error.other) = ((c, s), panicked)
  after_open session_id c (s, panicked) = ((c, s), panicked)

  module _ (quic : Quic S) where
    -- The assertion on the session in front, and `b` as it is left.
    unfoldable pub recv_of :
        ℕ
        → List ℕ
        → Connection
        → S
        → Stream × S × List ℕ × Outcome Error ℕ
        → (Connection × S) × List ℕ × Outcome Error ℕ
    recv_of stream_id b c s (t, s', b', r) =
        ((record c { streams = insert stream_id t c.streams }, s'), b', r)

    unfoldable pub recv_stream :
        ℕ → ℕ → Connection × S → List ℕ → (Connection × S) × List ℕ × Outcome Error ℕ
    unfolding recv_of is_of
    recv_stream stream_id session_id (c, s) b = elim (get c.streams stream_id) [
      | none ↦ ((c, s), b, err Error.no_stream_state)
      | some t ↦
          if is_of session_id t.session_id
          then recv_of stream_id b c s (Stream.recv quic b t s)
          else ((c, s), b, panicked)
    ]

    unfoldable pub open_stream : ℕ → Bool → Connection × S → Did S ℕ
    unfolding after_open
    open_stream session_id bidi (c, s) =
        if contains_key c.sessions session_id
        then after_open session_id c (quic.open_webtransport_stream bidi s)
        else ((c, s), panicked)

    module _ ⦃o : Octets⦄ where
      unfoldable pub stream_send : ℕ → List ℕ → Bool → Connection × S → Did S ℕ
      unfolding with_stream
      stream_send stream_id buf fin = with_stream stream_id (Stream.send quic buf fin)

      unfoldable pub stream_send_if_capacity : ℕ → List ℕ → Bool → Connection × S → Did S (Unit {0})
      unfolding with_stream
      stream_send_if_capacity stream_id buf fin =
          with_stream stream_id (Stream.send_if_capacity quic buf fin)

      unfoldable pub stream_capacity : ℕ → Connection × S → Outcome Error ℕ
      stream_capacity stream_id (c, s) = elim (get c.streams stream_id) [
        | none ↦ panicked
        | some t ↦ Stream.capacity quic t s
      ]
